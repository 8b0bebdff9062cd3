-- ===== src/Control/Managed/Queue.antt =====
-- dlp_control.rs: a managed endpoint when it is built, its queue of frames, and the offers that open a negotiation.
use smolgnet.Base.{ℕ, Bool, true, not, ◌&&◌, ◌||◌, List, [], ◌∷◌, ◌++◌, Option, none, some}
use smolgnet.Base.{if◌then◌else◌}
use smolgnet.Base.Results.{Result, ok, ◌then_ok◌}
use smolgnet.Endpoint.{EndpointConfig}
use smolgnet.Control.Parameters.{rate_all, encode_parameter_units}
use smolgnet.Control.Parameters.{supported_mode_flags}
use smolgnet.Control.Frame.{
  DlpControlFrame, hello, capabilities, link_parameters, sender_generation, encode,
}
use smolgnet.Control.Frame.{initial, acknowledgement, offer}
use smolgnet.Control.Managed.{
  down, negotiate, is_negotiate, is_credit_sync, is_up, is_peer, is_none,
}
use smolgnet.Control.Managed.{no_negotiation, DlpManagedEndpoint}

module _ {E : Type 0} where
  unfoldable pub build : E → EndpointConfig → ℕ → DlpManagedEndpoint E
  build endpoint endpoint_config max_burst_flits = record {
    endpoint = endpoint;
    endpoint_config = endpoint_config;
    max_burst_flits = max_burst_flits;
    state = down;
    local_generation = 1;
    peer_generation = none;
    control_tx = [];
    negotiation = no_negotiation;
  }

  unfoldable pub push : DlpManagedEndpoint E → DlpControlFrame → DlpManagedEndpoint E
  push m frame = record m { control_tx = m.control_tx ++ frame ∷ [] }

  unfoldable pub clear_negotiation_state : DlpManagedEndpoint E → DlpManagedEndpoint E
  clear_negotiation_state m = record m { negotiation = no_negotiation }

  unfoldable pub queue_hello_initial : DlpManagedEndpoint E → DlpManagedEndpoint E
  unfolding push
  queue_hello_initial m = push m (hello initial m.local_generation 0)

  unfoldable pub queue_hello_ack : DlpManagedEndpoint E → ℕ → DlpManagedEndpoint E
  unfolding push
  queue_hello_ack m peer = record (push m (hello acknowledgement m.local_generation peer)) {
    negotiation = record m.negotiation { hello_ack_sent = true };
  }

  unfoldable pub poll_control : DlpManagedEndpoint E → DlpManagedEndpoint E × Option (List ℕ)
  poll_control m = elim m.control_tx [
    | [] ↦ (m, none)
    | frame ∷ rest ↦ (record m { control_tx = rest }, some (encode frame))
  ]

  unfoldable pub frame_is_current : DlpManagedEndpoint E → DlpControlFrame → Bool
  frame_is_current m frame = is_peer m.peer_generation (sender_generation frame)

  unfoldable pub data_path_active : DlpManagedEndpoint E → Bool
  data_path_active m = is_credit_sync m.state || is_up m.state

  -- The two offers of `maybe_start_capability_exchange`, each sent once.
  unfoldable pub offer_capabilities : DlpManagedEndpoint E → DlpManagedEndpoint E
  unfolding push
  offer_capabilities m =
      if m.negotiation.cap_offer_sent
      then m
      else record (push m (
          capabilities offer m.local_generation (supported_mode_flags m.endpoint_config.vc_mode)
            rate_all)) { negotiation = record m.negotiation { cap_offer_sent = true } }

  unfoldable pub offer_parameters : DlpManagedEndpoint E → DlpManagedEndpoint E × Result (Unit {0})
  unfolding push
  offer_parameters m =
      if m.negotiation.params_offer_sent
      then (m, ok tt)
      else (m, encode_parameter_units m.endpoint_config.rx_buffer_flits) then_ok λ m rx.
          (m, encode_parameter_units m.max_burst_flits) then_ok λ m burst. (
            record (push m (link_parameters offer m.local_generation rx burst)) {
              negotiation = record m.negotiation { params_offer_sent = true };
            },
            ok tt,
          )

  unfoldable pub maybe_start_capability_exchange :
      DlpManagedEndpoint E → DlpManagedEndpoint E × Result (Unit {0})
  unfolding offer_capabilities offer_parameters
  maybe_start_capability_exchange m =
      if not m.negotiation.hello_ack_sent
        || (not m.negotiation.hello_ack_received || is_none m.peer_generation)
      then (m, ok tt)
      else offer_parameters (offer_capabilities (record m { state = negotiate }))

  -- What `maybe_install_profile` waits for.
  abbrev pub is_confirmed : DlpManagedEndpoint E → Bool
  is_confirmed m =
      is_negotiate m.state
      && (m.negotiation.cap_confirmation_sent
          && (m.negotiation.cap_confirmation_received
              && (m.negotiation.params_confirmation_sent
                  && m.negotiation.params_confirmation_received)))
