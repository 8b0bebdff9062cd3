-- ===== src/Control/Agreement/Answers.antt =====
-- dlp_control.rs: an end that answers what its peer says keeps to the terms of both.
use smolgnet.Base.{ℕ, ◌≡◌, refl, ◌∙◌, ap, sym, subst, arith, not, ◌||◌, ◌!=◌, Option, none, some}
use smolgnet.Base.Results.{ok, ok_or, guard, ok-injective, invalid_state, invalid_field}
use smolgnet.Dlp.{VcMode, two, four}
use smolgnet.Control.Parameters.{
  rate_all, supported_mode_flags, selected_mode_flag, choose_vc_mode, choose_rate,
}
use smolgnet.Control.Parameters.Laws.{
  agreed, agreed_comm, choose_vc_mode-supported_mode_flags, choose_rate-rate_all,
}
use smolgnet.Control.Frame.{capabilities, DlpCapabilityKind, offer, selection, confirmation}
use smolgnet.Control.Frame.Word.{IsFrame, IsGeneration}
use smolgnet.Control.Managed.{DlpManagedEndpoint, PeerCapabilityOffer}
use smolgnet.Control.Managed.Queue.{push}
use smolgnet.Control.Managed.Offers.{
  note_cap_offer, select_capabilities, confirm_capabilities, take_capabilities,
}
use smolgnet.Control.Agreement.{Terms, terms_of, Fills, Fits, Says, IsSaid, IsEnd}
use smolgnet.Control.Agreement.Refill.{refill_cap_offer, refill_selection}
use smolgnet.Control.Agreement.Steps.{run-then_ok, try-then_ok, if-split, push-IsEnd, note-IsEnd}

-- The mode chosen of an offer that the peer makes.
choose_vc_mode-agreed :
    (l p mine mode : VcMode) (profiles : ℕ)
    → mine ≡ l
    → profiles ≡ supported_mode_flags p
    → choose_vc_mode mine profiles ≡ ok mode
    → mode ≡ agreed l p
choose_vc_mode-agreed l p mine mode profiles same offered chosen = ok-injective mode (agreed l p) (
    sym chosen
    ∙ (λ i. choose_vc_mode (same i) (offered i))
    ∙ choose_vc_mode-supported_mode_flags l p)

choose_rate-agreed :
    (rates rate : ℕ) → rates ≡ rate_all → choose_rate rate_all rates ≡ ok rate → rate ≡ 4
choose_rate-agreed rates rate offered chosen =
    ok-injective rate 4 (sym chosen ∙ ap (choose_rate rate_all) offered ∙ choose_rate-rate_all)

selected-IsFrame :
    (mode : VcMode) (g profiles rates : ℕ)
    → IsGeneration g
    → profiles ≡ selected_mode_flag mode
    → rates ≡ 4
    → IsFrame (capabilities selection g profiles rates)
unfolding IsFrame selected_mode_flag
selected-IsFrame mode g profiles rates h is_flag is_rate =
    subst (λ r. IsFrame (capabilities selection g profiles r)) (sym is_rate)
      (subst (λ f. IsFrame (capabilities selection g f 4)) (sym is_flag) (plain mode))
  where
    plain : (mode : VcMode) → IsFrame (capabilities selection g (selected_mode_flag mode) 4)
    plain two = (h, (omega arith, omega arith), (omega arith, omega arith), refl)
    plain four = (h, (omega arith, omega arith), (omega arith, omega arith), refl)

module _ {E : Type 0} (l p : Terms) where
  mode_of : (m : DlpManagedEndpoint E) → IsEnd l p m → m.endpoint_config.vc_mode ≡ l.vc_mode
  unfolding terms_of
  mode_of m h = ap (λ t. t.vc_mode) h.terms

  note_cap_offer-IsEnd :
      (m : DlpManagedEndpoint E) (profiles rates : ℕ) (old : Option PeerCapabilityOffer)
      → IsEnd l p m
      → profiles ≡ supported_mode_flags p.vc_mode
      → rates ≡ rate_all
      → IsEnd l p (note_cap_offer m profiles rates old).0
  unfolding note_cap_offer Fits Fills
  note_cap_offer-IsEnd m profiles rates (some old) h is_flags is_rates = h
  note_cap_offer-IsEnd m profiles rates none h is_flags is_rates = note-IsEnd l p _ _ h (
      refill_cap_offer (some (record { profiles = profiles; rates = rates })) h.negotiation
        λ i. record { profiles = is_flags i; rates = is_rates i })

  select_capabilities-IsEnd :
      (m : DlpManagedEndpoint E) (mode : VcMode) (rate : ℕ)
      → IsEnd l p m
      → mode ≡ agreed l.vc_mode p.vc_mode
      → rate ≡ 4
      → IsEnd l p (select_capabilities m mode rate)
  unfolding select_capabilities IsSaid Says push Fits
  select_capabilities-IsEnd m mode rate h is_mode is_rate =
      if-split (IsEnd l p) m.negotiation.cap_selection_sent _ _ (λ sent. h)
        λ unsent.
          note-IsEnd l p _ _
            (push-IsEnd l p m
              (capabilities selection m.local_generation (selected_mode_flag mode) rate) h
              (
                selected-IsFrame mode m.local_generation (selected_mode_flag mode) rate h.generation
                    refl is_rate,
                (ap selected_mode_flag is_mode, is_rate),
              ))
            h.negotiation

  confirm_capabilities-IsEnd :
      (m : DlpManagedEndpoint E) (profiles rates : ℕ)
      → IsEnd l p m
      → profiles ≡ selected_mode_flag (agreed l.vc_mode p.vc_mode)
      → rates ≡ 4
      → IsEnd l p (confirm_capabilities m profiles rates)
  unfolding confirm_capabilities IsSaid Says push Fits IsFrame
  confirm_capabilities-IsEnd m profiles rates h is_flag is_rate =
      if-split (IsEnd l p) m.negotiation.cap_confirmation_sent _ _ (λ sent. h)
        λ unsent.
          note-IsEnd l p _ _
            (push-IsEnd l p m (capabilities confirmation m.local_generation profiles rates) h (
              selected-IsFrame _ m.local_generation profiles rates h.generation is_flag is_rate,
              (is_flag, is_rate),
            ))
            h.negotiation

  pub take_capabilities-IsEnd :
      (m : DlpManagedEndpoint E) (kind : DlpCapabilityKind) (g profiles rates : ℕ)
      → IsEnd l p m
      → Says p l (capabilities kind g profiles rates)
      → IsEnd l p (take_capabilities m kind profiles rates).0
  unfolding take_capabilities Says Fits Fills
  take_capabilities-IsEnd m offer g profiles rates h (is_flags, is_rates) =
      run-then_ok (IsEnd l p) (note_cap_offer m profiles rates m.negotiation.peer_cap_offer) _
        (note_cap_offer-IsEnd m profiles rates m.negotiation.peer_cap_offer h is_flags is_rates)
        λ m _ h.
          try-then_ok (IsEnd l p) m (choose_vc_mode m.endpoint_config.vc_mode profiles) _ h
            λ mode chosen. try-then_ok (IsEnd l p) m (choose_rate rate_all rates) _ h λ rate taken.
              let is_mode =
                choose_vc_mode-agreed l.vc_mode p.vc_mode _ mode profiles (mode_of m h) is_flags
                  chosen in
              let is_rate = choose_rate-agreed rates rate is_rates taken in
              select_capabilities-IsEnd _ mode rate
                (note-IsEnd l p m _ h
                  (refill_selection (some mode) (some rate) h.negotiation is_mode is_rate))
                is_mode is_rate
  take_capabilities-IsEnd m selection g profiles rates h (is_flag, is_rate) =
      try-then_ok (IsEnd l p) m (ok_or m.negotiation.peer_cap_offer invalid_state) _ h λ old known.
        try-then_ok (IsEnd l p) m (choose_vc_mode m.endpoint_config.vc_mode old.profiles) _ h
          λ mode chosen.
            try-then_ok (IsEnd l p) m (choose_rate rate_all old.rates) _ h λ rate taken.
              try-then_ok (IsEnd l p) m
                (guard (not (profiles != selected_mode_flag mode || rates != rate)) invalid_field) _
                h
                λ u same.
                  confirm_capabilities-IsEnd m profiles rates h
                    (is_flag ∙ ap selected_mode_flag (agreed_comm p.vc_mode l.vc_mode)) is_rate
  take_capabilities-IsEnd m confirmation g profiles rates h said =
      try-then_ok (IsEnd l p) m (ok_or m.negotiation.selected_mode invalid_state) _ h λ mode known.
        try-then_ok (IsEnd l p) m (ok_or m.negotiation.selected_rate invalid_state) _ h λ rate also.
          try-then_ok (IsEnd l p) m
            (guard (not (profiles != selected_mode_flag mode || rates != rate)) invalid_field) _ h
            λ u same. note-IsEnd l p m _ h h.negotiation
