-- ===== src/Control/Repeated/Greeted.antt =====
-- dlp_control.rs: each helper of a managed endpoint keeps what an end knows of the hellos.
use smolgnet.Base.{ℕ, ◌≡◌, arith, Bool, true, false, not, ◌||◌, ◌&&◌, ◌!=◌, Option, none, some, min}
use smolgnet.Base.Results.{ok_or, guard, invalid_state, invalid_field}
use smolgnet.Control.Parameters.{
  rate_all, encode_parameter_units, selected_mode_flag, choose_vc_mode, choose_rate,
}
use smolgnet.Control.Frame.{DlpCapabilityKind, offer, selection, confirmation}
use smolgnet.Control.Managed.{
  DlpManagedEndpoint, negotiate, is_none, PeerCapabilityOffer, PeerParameterOffer,
}
use smolgnet.Control.Managed.Queue.{
  push, offer_capabilities, offer_parameters, maybe_start_capability_exchange,
}
use smolgnet.Control.Managed.Offers.{
  note_cap_offer, select_capabilities, confirm_capabilities, take_capabilities, note_params_offer,
  select_parameters, confirm_parameters, take_parameters,
}
use smolgnet.Control.Agreement.Steps.{run-then_ok, try-then_ok, if-split, if-object}
use smolgnet.Control.Repeated.{IsGreeted}

module _ {E : Type 0} where
  offer_parameters-IsGreeted :
      (m : DlpManagedEndpoint E) → IsGreeted m → IsGreeted (offer_parameters m).0
  unfolding offer_parameters push IsGreeted
  offer_parameters-IsGreeted m h =
      if-object IsGreeted m.negotiation.params_offer_sent _ _ (λ sent. h)
        λ unsent.
          try-then_ok IsGreeted m (encode_parameter_units m.endpoint_config.rx_buffer_flits) _ h
            λ rx known.
              try-then_ok IsGreeted m (encode_parameter_units m.max_burst_flits) _ h λ burst also. h

  offer_capabilities-IsGreeted :
      (m : DlpManagedEndpoint E) → IsGreeted m → IsGreeted (offer_capabilities m)
  unfolding offer_capabilities push IsGreeted
  offer_capabilities-IsGreeted m h =
      if-split IsGreeted m.negotiation.cap_offer_sent _ _ (λ sent. h) λ unsent. h

  pub maybe_start_capability_exchange-IsGreeted :
      (m : DlpManagedEndpoint E) → IsGreeted m → IsGreeted (maybe_start_capability_exchange m).0
  unfolding maybe_start_capability_exchange IsGreeted
  maybe_start_capability_exchange-IsGreeted m h =
      if-object IsGreeted
        (not m.negotiation.hello_ack_sent
          || (not m.negotiation.hello_ack_received || is_none m.peer_generation))
        _ _ (λ early. h)
        λ done. offer_parameters-IsGreeted _ (
          offer_capabilities-IsGreeted (record m { state = negotiate })
            (both m.negotiation.hello_ack_sent m.negotiation.hello_ack_received
              (is_none m.peer_generation) done))
    where
      both : (a b n : Bool) → (not a || (not b || n)) ≡ false → (a && (b && not n)) ≡ true
      both a b n h = ground (arith, h)

  note_cap_offer-IsGreeted :
      (m : DlpManagedEndpoint E) (profiles rates : ℕ) (old : Option PeerCapabilityOffer)
      → IsGreeted m
      → IsGreeted (note_cap_offer m profiles rates old).0
  unfolding note_cap_offer IsGreeted
  note_cap_offer-IsGreeted m profiles rates (some old) h = h
  note_cap_offer-IsGreeted m profiles rates none h = h

  note_params_offer-IsGreeted :
      (m : DlpManagedEndpoint E) (rx burst : ℕ) (old : Option PeerParameterOffer)
      → IsGreeted m
      → IsGreeted (note_params_offer m rx burst old).0
  unfolding note_params_offer IsGreeted
  note_params_offer-IsGreeted m rx burst (some old) h = h
  note_params_offer-IsGreeted m rx burst none h = h

  pub take_capabilities-IsGreeted :
      (m : DlpManagedEndpoint E) (kind : DlpCapabilityKind) (profiles rates : ℕ)
      → IsGreeted m
      → IsGreeted (take_capabilities m kind profiles rates).0
  unfolding take_capabilities select_capabilities confirm_capabilities push IsGreeted
  take_capabilities-IsGreeted m offer profiles rates h =
      run-then_ok IsGreeted (note_cap_offer m profiles rates m.negotiation.peer_cap_offer) _
        (note_cap_offer-IsGreeted m profiles rates m.negotiation.peer_cap_offer h)
        λ m _ h.
          try-then_ok IsGreeted m (choose_vc_mode m.endpoint_config.vc_mode profiles) _ h
            λ mode chosen. try-then_ok IsGreeted m (choose_rate rate_all rates) _ h λ rate taken.
              if-split IsGreeted m.negotiation.cap_selection_sent _ _ (λ sent. h) λ unsent. h
  take_capabilities-IsGreeted m selection profiles rates h =
      try-then_ok IsGreeted m (ok_or m.negotiation.peer_cap_offer invalid_state) _ h λ old known.
        try-then_ok IsGreeted m (choose_vc_mode m.endpoint_config.vc_mode old.profiles) _ h
          λ mode chosen. try-then_ok IsGreeted m (choose_rate rate_all old.rates) _ h λ rate taken.
            try-then_ok IsGreeted m
              (guard (not (profiles != selected_mode_flag mode || rates != rate)) invalid_field) _ h
              λ u same.
                if-split IsGreeted m.negotiation.cap_confirmation_sent _ _ (λ sent. h) λ unsent. h
  take_capabilities-IsGreeted m confirmation profiles rates h =
      try-then_ok IsGreeted m (ok_or m.negotiation.selected_mode invalid_state) _ h λ mode known.
        try-then_ok IsGreeted m (ok_or m.negotiation.selected_rate invalid_state) _ h λ rate also.
          try-then_ok IsGreeted m
            (guard (not (profiles != selected_mode_flag mode || rates != rate)) invalid_field) _ h
            λ u same. h

  pub take_parameters-IsGreeted :
      (m : DlpManagedEndpoint E) (kind : DlpCapabilityKind) (rx_units burst_units rx burst : ℕ)
      → IsGreeted m
      → IsGreeted (take_parameters m kind rx_units burst_units rx burst).0
  unfolding take_parameters select_parameters confirm_parameters push IsGreeted
  take_parameters-IsGreeted m offer rx_units burst_units rx burst h =
      run-then_ok IsGreeted (note_params_offer m rx burst m.negotiation.peer_params_offer) _
        (note_params_offer-IsGreeted m rx burst m.negotiation.peer_params_offer h)
        λ m _ h.
          if-object IsGreeted m.negotiation.params_selection_sent _ _ (λ sent. h)
            λ unsent. try-then_ok IsGreeted _ (encode_parameter_units rx) _ h λ units known.
              try-then_ok IsGreeted _ (encode_parameter_units (min m.max_burst_flits burst)) _ h
                λ others also. h
  take_parameters-IsGreeted m selection rx_units burst_units rx burst h =
      try-then_ok IsGreeted m (ok_or m.negotiation.peer_params_offer invalid_state) _ h λ old known.
        try-then_ok IsGreeted m
          (guard
            (not (
              rx != m.endpoint_config.rx_buffer_flits
              || burst != min m.max_burst_flits old.max_burst_flits))
            invalid_field)
          _ h
          λ u same.
            if-split IsGreeted m.negotiation.params_confirmation_sent _ _ (λ sent. h) λ unsent. h
  take_parameters-IsGreeted m confirmation rx_units burst_units rx burst h =
      try-then_ok IsGreeted m (ok_or m.negotiation.selected_peer_rx invalid_state) _ h
        λ peer_rx known.
          try-then_ok IsGreeted m (ok_or m.negotiation.selected_burst invalid_state) _ h
            λ chosen also.
              try-then_ok IsGreeted m (guard (not (rx != peer_rx || burst != chosen)) invalid_field)
                _ h λ u same. h
