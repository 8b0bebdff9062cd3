-- ===== src/Control/Agreement/Refill.antt =====
-- dlp_control.rs: the values of a negotiation when some of them become known.
use smolgnet.Base.{ℕ, min, Option}
use smolgnet.Dlp.{VcMode}
use smolgnet.Control.Parameters.{rate_all, supported_mode_flags}
use smolgnet.Control.Parameters.Laws.{agreed}
use smolgnet.Control.Managed.{DlpNegotiatedProfile, PeerCapabilityOffer, PeerParameterOffer}
use smolgnet.Control.Agreement.{Terms, Fills, profile_of, Values}

module _ {l p : Terms} {negotiated : Option DlpNegotiatedProfile}
    {cap_offer : Option PeerCapabilityOffer} {mode : Option VcMode} {rate : Option ℕ}
    {params_offer : Option PeerParameterOffer} {peer_rx burst : Option ℕ} where
  pub refill_negotiated :
      (new_negotiated : Option DlpNegotiatedProfile)
      → Values l p negotiated cap_offer mode rate params_offer peer_rx burst
      → Fills (profile_of l p) new_negotiated
      → Values l p new_negotiated cap_offer mode rate params_offer peer_rx burst
  refill_negotiated new_negotiated h fit_negotiated = record {
    fits_negotiated = fit_negotiated;
    fits_cap_offer = h.fits_cap_offer;
    fits_mode = h.fits_mode;
    fits_rate = h.fits_rate;
    fits_params_offer = h.fits_params_offer;
    fits_peer_rx = h.fits_peer_rx;
    fits_burst = h.fits_burst;
  }

  pub refill_cap_offer :
      (new_cap_offer : Option PeerCapabilityOffer)
      → Values l p negotiated cap_offer mode rate params_offer peer_rx burst
      → Fills (record { profiles = supported_mode_flags p.vc_mode; rates = rate_all }) new_cap_offer
      → Values l p negotiated new_cap_offer mode rate params_offer peer_rx burst
  refill_cap_offer new_cap_offer h fit_cap_offer = record {
    fits_negotiated = h.fits_negotiated;
    fits_cap_offer = fit_cap_offer;
    fits_mode = h.fits_mode;
    fits_rate = h.fits_rate;
    fits_params_offer = h.fits_params_offer;
    fits_peer_rx = h.fits_peer_rx;
    fits_burst = h.fits_burst;
  }

  pub refill_selection :
      (new_mode : Option VcMode) (new_rate : Option ℕ)
      → Values l p negotiated cap_offer mode rate params_offer peer_rx burst
      → Fills (agreed l.vc_mode p.vc_mode) new_mode
      → Fills 4 new_rate
      → Values l p negotiated cap_offer new_mode new_rate params_offer peer_rx burst
  refill_selection new_mode new_rate h fit_mode fit_rate = record {
    fits_negotiated = h.fits_negotiated;
    fits_cap_offer = h.fits_cap_offer;
    fits_mode = fit_mode;
    fits_rate = fit_rate;
    fits_params_offer = h.fits_params_offer;
    fits_peer_rx = h.fits_peer_rx;
    fits_burst = h.fits_burst;
  }

  pub refill_params_offer :
      (new_params_offer : Option PeerParameterOffer)
      → Values l p negotiated cap_offer mode rate params_offer peer_rx burst
      → Fills
          (record { rx_buffer_flits = p.rx_buffer_flits; max_burst_flits = p.max_burst_flits })
          new_params_offer
      → Values l p negotiated cap_offer mode rate new_params_offer peer_rx burst
  refill_params_offer new_params_offer h fit_params_offer = record {
    fits_negotiated = h.fits_negotiated;
    fits_cap_offer = h.fits_cap_offer;
    fits_mode = h.fits_mode;
    fits_rate = h.fits_rate;
    fits_params_offer = fit_params_offer;
    fits_peer_rx = h.fits_peer_rx;
    fits_burst = h.fits_burst;
  }

  pub refill_parameters :
      (new_peer_rx : Option ℕ) (new_burst : Option ℕ)
      → Values l p negotiated cap_offer mode rate params_offer peer_rx burst
      → Fills p.rx_buffer_flits new_peer_rx
      → Fills (min l.max_burst_flits p.max_burst_flits) new_burst
      → Values l p negotiated cap_offer mode rate params_offer new_peer_rx new_burst
  refill_parameters new_peer_rx new_burst h fit_peer_rx fit_burst = record {
    fits_negotiated = h.fits_negotiated;
    fits_cap_offer = h.fits_cap_offer;
    fits_mode = h.fits_mode;
    fits_rate = h.fits_rate;
    fits_params_offer = h.fits_params_offer;
    fits_peer_rx = fit_peer_rx;
    fits_burst = fit_burst;
  }
