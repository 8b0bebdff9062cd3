-- ===== src/Control/Managed.antt =====
-- dlp_control.rs: `DlpManagedEndpoint`, over any endpoint that has the methods it calls.
pub mod Queue
pub mod Offers
pub mod Hello
pub mod Session
pub mod Traffic
use smolgnet.Base.{
  ℕ, ◌+◌, ◌-◌, ◌^◌, min, bit_and, Bool, true, false, not, ◌&&◌, ◌||◌, List, [], ◌∷◌, ◌++◌, Option,
  none, some, is_empty,
}
use smolgnet.Base.{ltb, leb, ◌==◌, ◌!=◌, if◌then◌else◌}
use smolgnet.Base.Results.{Result, ok, err, ok_or, guard, ◌>>=◌, ◌>>◌, ◌then_ok◌}
use smolgnet.Base.Results.{invalid_field, invalid_state, link_down, no_credit}
use smolgnet.Wire.Gdp.{GdpAddress}
use smolgnet.Dlp.{VcMode, DlpConfig, Flit, GnetFrame, config_new}
use smolgnet.Dlp.Endpoint
use smolgnet.Dlp.Endpoint.{queued_data_flits, set_link_up}
use smolgnet.Endpoint.{EndpointConfig, LinkOps}
use smolgnet.Control.Parameters.{
  rate_all, encode_parameter_units, validate_parameter_value, decode_parameter_units,
}
use smolgnet.Control.Parameters.{
  next_generation, supported_mode_flags, selected_mode_flag, choose_vc_mode, choose_rate,
}
use smolgnet.Control.Frame.{
  DlpControlFrame, hello, capabilities, reset, link_parameters, sender_generation, encode, decode,
}
use smolgnet.Control.Frame.{
  DlpHelloKind, initial, acknowledgement, DlpCapabilityKind, offer, selection, confirmation,
}

pub data DlpControlState : Type 0 where
  down hello_state negotiate credit_sync up resetting : DlpControlState

abbrev pub is_down : DlpControlState → Bool
is_down down = true
is_down s = false

abbrev pub is_negotiate : DlpControlState → Bool
is_negotiate negotiate = true
is_negotiate s = false

abbrev pub is_credit_sync : DlpControlState → Bool
is_credit_sync credit_sync = true
is_credit_sync s = false

abbrev pub is_up : DlpControlState → Bool
is_up up = true
is_up s = false

pub record DlpNegotiatedProfile : Type 0 where
  pub vc_mode : VcMode
  pub burst_flits : ℕ
  pub peer_rx_buffer_flits : ℕ
  pub peer_control_window_flits : ℕ

pub record PeerCapabilityOffer : Type 0 where
  pub profiles : ℕ
  pub rates : ℕ

pub record PeerParameterOffer : Type 0 where
  pub rx_buffer_flits : ℕ
  pub max_burst_flits : ℕ

-- What the negotiation has come to: the fields that `clear_negotiation_state` resets.
pub record Negotiation : Type 0 where
  pub negotiated : Option DlpNegotiatedProfile
  pub hello_ack_sent : Bool
  pub hello_ack_received : Bool
  pub cap_offer_sent : Bool
  pub peer_cap_offer : Option PeerCapabilityOffer
  pub selected_mode : Option VcMode
  pub selected_rate : Option ℕ
  pub cap_selection_sent : Bool
  pub cap_confirmation_sent : Bool
  pub cap_confirmation_received : Bool
  pub params_offer_sent : Bool
  pub peer_params_offer : Option PeerParameterOffer
  pub selected_peer_rx : Option ℕ
  pub selected_burst : Option ℕ
  pub params_selection_sent : Bool
  pub params_confirmation_sent : Bool
  pub params_confirmation_received : Bool
  pub credit_stall_polls : ℕ

abbrev pub no_negotiation : Negotiation
no_negotiation = record {
  negotiated = none;
  hello_ack_sent = false;
  hello_ack_received = false;
  cap_offer_sent = false;
  peer_cap_offer = none;
  selected_mode = none;
  selected_rate = none;
  cap_selection_sent = false;
  cap_confirmation_sent = false;
  cap_confirmation_received = false;
  params_offer_sent = false;
  peer_params_offer = none;
  selected_peer_rx = none;
  selected_burst = none;
  params_selection_sent = false;
  params_confirmation_sent = false;
  params_confirmation_received = false;
  credit_stall_polls = 0;
}

-- `unwrap_or(0)`.
abbrev pub prefix_or_zero : Option ℕ → ℕ
prefix_or_zero none = 0
prefix_or_zero (some prefix) = prefix

pub record DlpManagedEndpoint (E : Type 0) : Type 0 where
  pub endpoint : E
  pub endpoint_config : EndpointConfig
  pub max_burst_flits : ℕ
  pub state : DlpControlState
  pub local_generation : ℕ
  pub peer_generation : Option ℕ
  pub control_tx : List DlpControlFrame
  pub negotiation : Negotiation

-- `self.peer_generation == Some(generation)`.
abbrev pub is_peer : Option ℕ → ℕ → Bool
is_peer none generation = false
is_peer (some current) generation = current == generation

abbrev pub is_none : Option ℕ → Bool
is_none none = true
is_none (some generation) = false
