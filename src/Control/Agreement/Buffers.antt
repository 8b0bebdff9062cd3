-- ===== src/Control/Agreement/Buffers.antt =====
-- dlp_control.rs: an end that answers its peer's buffer and burst keeps to the terms of both.
use smolgnet.Base.{ℕ, ◌*◌, ◌≡◌, ◌∙◌, ap, arith, min, not, ◌||◌, ◌!=◌, Option, none, some}
use smolgnet.Base.Results.{ok_or, guard, invalid_state, invalid_field}
use smolgnet.Control.Parameters.{encode_parameter_units}
use smolgnet.Control.Frame.{link_parameters, DlpCapabilityKind, offer, selection, confirmation}
use smolgnet.Control.Frame.Word.{IsFrame}
use smolgnet.Control.Managed.{DlpManagedEndpoint, PeerParameterOffer}
use smolgnet.Control.Managed.Queue.{push}
use smolgnet.Control.Managed.Offers.{
  note_params_offer, select_parameters, confirm_parameters, take_parameters,
}
use smolgnet.Control.Agreement.{Terms, terms_of, Fills, Fits, Says, IsSaid, IsEnd}
use smolgnet.Control.Agreement.Refill.{refill_params_offer, refill_parameters}
use smolgnet.Control.Agreement.Steps.{
  run-then_ok, try-then_ok, if-split, if-object, encode_parameter_units-ok, push-IsEnd, note-IsEnd,
}

pub min_comm : (a b : ℕ) → min a b ≡ min b a
min_comm a b = ground arith

module _ {E : Type 0} (l p : Terms) where
  rx_of :
      (m : DlpManagedEndpoint E)
      → IsEnd l p m
      → m.endpoint_config.rx_buffer_flits ≡ l.rx_buffer_flits
  unfolding terms_of
  rx_of m h = ap (λ t. t.rx_buffer_flits) h.terms

  burst_of : (m : DlpManagedEndpoint E) → IsEnd l p m → m.max_burst_flits ≡ l.max_burst_flits
  unfolding terms_of
  burst_of m h = ap (λ t. t.max_burst_flits) h.terms

  note_params_offer-IsEnd :
      (m : DlpManagedEndpoint E) (rx burst : ℕ) (old : Option PeerParameterOffer)
      → IsEnd l p m
      → rx ≡ p.rx_buffer_flits
      → burst ≡ p.max_burst_flits
      → IsEnd l p (note_params_offer m rx burst old).0
  unfolding note_params_offer Fits Fills
  note_params_offer-IsEnd m rx burst (some old) h is_rx is_burst = h
  note_params_offer-IsEnd m rx burst none h is_rx is_burst = note-IsEnd l p _ _ h (
      refill_params_offer (some (record { rx_buffer_flits = rx; max_burst_flits = burst }))
        h.negotiation λ i. record { rx_buffer_flits = is_rx i; max_burst_flits = is_burst i })

  select_parameters-IsEnd :
      (m : DlpManagedEndpoint E) (rx burst : ℕ)
      → IsEnd l p m
      → rx ≡ p.rx_buffer_flits
      → burst ≡ min l.max_burst_flits p.max_burst_flits
      → IsEnd l p (select_parameters m rx burst).0
  unfolding select_parameters IsSaid Says push Fits IsFrame
  select_parameters-IsEnd m rx burst h is_rx is_burst =
      if-object (IsEnd l p) m.negotiation.params_selection_sent _ _ (λ sent. h)
        λ unsent. try-then_ok (IsEnd l p) m (encode_parameter_units rx) _ h λ rx_units known.
          try-then_ok (IsEnd l p) m (encode_parameter_units burst) _ h λ burst_units also.
            let (rx_range, rx_value) = encode_parameter_units-ok _ _ known in
            let (burst_range, burst_value) = encode_parameter_units-ok _ _ also in
            note-IsEnd l p _ _
              (push-IsEnd l p m (link_parameters selection m.local_generation rx_units burst_units)
                h
                ((h.generation, rx_range, burst_range), (rx_value ∙ is_rx, burst_value ∙ is_burst)))
              h.negotiation

  -- The units of a frame that is confirmed are those of the frame that came.
  confirm_parameters-IsEnd :
      (m : DlpManagedEndpoint E) (g rx burst : ℕ)
      → IsEnd l p m
      → IsSaid p l (link_parameters selection g rx burst)
      → IsEnd l p (confirm_parameters m rx burst)
  unfolding confirm_parameters IsSaid Says push Fits IsFrame
  confirm_parameters-IsEnd m g rx burst h
        ((is_generation, rx_range, burst_range), (is_rx, is_burst)) =
      if-split (IsEnd l p) m.negotiation.params_confirmation_sent _ _ (λ sent. h)
        λ unsent.
          note-IsEnd l p _ _
            (push-IsEnd l p m (link_parameters confirmation m.local_generation rx burst) h (
              (h.generation, rx_range, burst_range),
              (is_rx, is_burst ∙ min_comm p.max_burst_flits l.max_burst_flits),
            ))
            h.negotiation

  pub take_parameters-IsEnd :
      (m : DlpManagedEndpoint E) (kind : DlpCapabilityKind) (g rx_units burst_units : ℕ)
      → IsEnd l p m
      → IsSaid p l (link_parameters kind g rx_units burst_units)
      → IsEnd l p (take_parameters m kind rx_units burst_units (rx_units * 4) (burst_units * 4)).0
  unfolding take_parameters IsSaid Says Fits Fills
  take_parameters-IsEnd m offer g rx_units burst_units h (is_frame, (is_rx, is_burst)) =
      run-then_ok (IsEnd l p)
        (note_params_offer m (rx_units * 4) (burst_units * 4) m.negotiation.peer_params_offer) _
        (note_params_offer-IsEnd m (rx_units * 4) (burst_units * 4) m.negotiation.peer_params_offer
          h is_rx is_burst)
        λ m _ h.
          let is_least : min m.max_burst_flits (burst_units * 4)
              ≡ min l.max_burst_flits p.max_burst_flits =
            λ i. min (burst_of m h i) (is_burst i) in
          select_parameters-IsEnd _ (rx_units * 4) (min m.max_burst_flits (burst_units * 4))
            (note-IsEnd l p m _ h (
              refill_parameters (some (rx_units * 4))
                (some (min m.max_burst_flits (burst_units * 4))) h.negotiation is_rx is_least))
            is_rx is_least
  take_parameters-IsEnd m selection g rx_units burst_units h said =
      try-then_ok (IsEnd l p) m (ok_or m.negotiation.peer_params_offer invalid_state) _ h
        λ old known.
          try-then_ok (IsEnd l p) m
            (guard
              (not (
                (rx_units * 4) != m.endpoint_config.rx_buffer_flits
                || (burst_units * 4) != min m.max_burst_flits old.max_burst_flits))
              invalid_field)
            _ h λ u same. confirm_parameters-IsEnd m g rx_units burst_units h said
  take_parameters-IsEnd m confirmation g rx_units burst_units h said =
      try-then_ok (IsEnd l p) m (ok_or m.negotiation.selected_peer_rx invalid_state) _ h
        λ peer_rx known.
          try-then_ok (IsEnd l p) m (ok_or m.negotiation.selected_burst invalid_state) _ h
            λ selected also.
              try-then_ok (IsEnd l p) m
                (guard (not ((rx_units * 4) != peer_rx || (burst_units * 4) != selected))
                  invalid_field)
                _ h λ u same. note-IsEnd l p m _ h h.negotiation
