-- ===== src/Control/Agreement.antt =====
-- dlp_control.rs: what a managed endpoint holds and sends, as a function of the configurations of
-- the two ends of its link.
pub mod Refill
pub mod Steps
pub mod Answers
pub mod Buffers
pub mod Hello
pub mod Session
pub mod Traffic
pub mod Line
pub mod Reachable
use smolgnet.Base.{ℕ, ◌*◌, ◌≡◌, min, List, [], ◌∷◌, ◌++◌, Option, none, some, All}
use smolgnet.Dlp.{VcMode}
use smolgnet.Control.Parameters.{rate_all, supported_mode_flags, selected_mode_flag}
use smolgnet.Control.Parameters.Laws.{agreed}
use smolgnet.Control.Frame.{
  DlpControlFrame, hello, capabilities, reset, link_parameters, offer, selection, confirmation,
}
use smolgnet.Control.Frame.Word.{IsFrame, IsGeneration}
use smolgnet.Control.Managed.{
  DlpNegotiatedProfile, PeerCapabilityOffer, PeerParameterOffer, Negotiation, DlpManagedEndpoint,
}

-- What an end brings into a negotiation.
pub record Terms : Type 0 where
  pub vc_mode : VcMode
  pub rx_buffer_flits : ℕ
  pub max_burst_flits : ℕ

unfoldable pub terms_of : {E : Type 0} → DlpManagedEndpoint E → Terms
terms_of m = record {
  vc_mode = m.endpoint_config.vc_mode;
  rx_buffer_flits = m.endpoint_config.rx_buffer_flits;
  max_burst_flits = m.max_burst_flits;
}

-- A value that is not there yet, or is this one.
unfoldable pub Fills {ℓ} : {A : Type ℓ} → A → Option A → Type ℓ
Fills a none = Unit
Fills a (some b) = b ≡ a

-- The profile of an end with the terms `l` whose peer has the terms `p`.
unfoldable pub profile_of : Terms → Terms → DlpNegotiatedProfile
profile_of l p = record {
  vc_mode = agreed l.vc_mode p.vc_mode;
  burst_flits = min l.max_burst_flits p.max_burst_flits;
  peer_rx_buffer_flits = p.rx_buffer_flits;
  peer_control_window_flits = 32;
}

-- Every value that is known of a negotiation is the one that the two terms determine.
pub record Values (l p : Terms) (negotiated : Option DlpNegotiatedProfile)
    (cap_offer : Option PeerCapabilityOffer) (mode : Option VcMode) (rate : Option ℕ)
    (params_offer : Option PeerParameterOffer) (peer_rx burst : Option ℕ) : Type 0 where
  pub fits_negotiated : Fills (profile_of l p) negotiated
  pub fits_cap_offer :
      Fills (record { profiles = supported_mode_flags p.vc_mode; rates = rate_all }) cap_offer
  pub fits_mode : Fills (agreed l.vc_mode p.vc_mode) mode
  pub fits_rate : Fills 4 rate
  pub fits_params_offer :
      Fills
        (record { rx_buffer_flits = p.rx_buffer_flits; max_burst_flits = p.max_burst_flits })
        params_offer
  pub fits_peer_rx : Fills p.rx_buffer_flits peer_rx
  pub fits_burst : Fills (min l.max_burst_flits p.max_burst_flits) burst

unfoldable pub Fits : Terms → Terms → Negotiation → Type 0
Fits l p n =
    Values l p n.negotiated n.peer_cap_offer n.selected_mode n.selected_rate n.peer_params_offer
      n.selected_peer_rx n.selected_burst

-- What an end with the terms `l` puts into a frame.
unfoldable pub Says : Terms → Terms → DlpControlFrame → Type 0
Says l p (hello kind sender peer) = Unit
Says l p (reset sender reason) = Unit
Says l p (capabilities offer sender profiles rates) =
    (profiles ≡ supported_mode_flags l.vc_mode) × (rates ≡ rate_all)
Says l p (capabilities selection sender profiles rates) =
    (profiles ≡ selected_mode_flag (agreed l.vc_mode p.vc_mode)) × (rates ≡ 4)
Says l p (capabilities confirmation sender profiles rates) =
    (profiles ≡ selected_mode_flag (agreed l.vc_mode p.vc_mode)) × (rates ≡ 4)
Says l p (link_parameters offer sender rx burst) =
    (rx * 4 ≡ l.rx_buffer_flits) × (burst * 4 ≡ l.max_burst_flits)
Says l p (link_parameters selection sender rx burst) =
    (rx * 4 ≡ p.rx_buffer_flits) × (burst * 4 ≡ min l.max_burst_flits p.max_burst_flits)
Says l p (link_parameters confirmation sender rx burst) =
    (rx * 4 ≡ l.rx_buffer_flits) × (burst * 4 ≡ min l.max_burst_flits p.max_burst_flits)

unfoldable pub IsSaid : Terms → Terms → DlpControlFrame → Type 0
IsSaid l p f = IsFrame f × Says l p f

pub record IsEnd {E : Type 0} (l p : Terms) (m : DlpManagedEndpoint E) : Type 0 where
  pub terms : terms_of m ≡ l
  pub generation : IsGeneration m.local_generation
  pub queue : All (IsSaid l p) m.control_tx
  pub negotiation : Fits l p m.negotiation
