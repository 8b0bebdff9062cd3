-- ===== src/Control/Agreement/Session.antt =====
-- dlp_control.rs: what an end receives keeps it to the terms of both ends.
use smolgnet.Base.{ℕ, ◌*◌, ◌≡◌, sym, subst, not, ◌==◌, inl, inr, Bool-cases, some}
use smolgnet.Base.Results.{ok, err, ok_or, ok-injective, guard, invalid_state, invalid_field}
use smolgnet.Endpoint.{LinkOps}
use smolgnet.Control.Parameters.{decode_parameter_units}
use smolgnet.Control.Frame.{
  DlpControlFrame, hello, capabilities, reset, link_parameters, DlpCapabilityKind,
}
use smolgnet.Control.Frame.Word.{IsFrame}
use smolgnet.Control.Managed.{DlpManagedEndpoint, credit_sync, is_negotiate}
use smolgnet.Control.Managed.Queue.{frame_is_current, is_confirmed}
use smolgnet.Control.Managed.Offers.{take_capabilities, take_parameters}
use smolgnet.Control.Managed.Session.{
  negotiated_dlp, maybe_install_profile, on_capabilities, on_link_parameters, on_frame,
}
use smolgnet.Control.Agreement.{Terms, Fills, profile_of, Fits, Says, IsSaid, IsEnd}
use smolgnet.Control.Agreement.Refill.{refill_negotiated}
use smolgnet.Control.Agreement.Steps.{
  run-then_ok, try-then_ok, if-object, ok_or-ok, Fills-some, note-IsEnd,
}
use smolgnet.Control.Agreement.Hello.{refresh-IsEnd, on_hello-IsEnd, on_reset-IsEnd}
use smolgnet.Control.Agreement.Buffers.{take_parameters-IsEnd}
use smolgnet.Control.Agreement.Answers.{take_capabilities-IsEnd}

units-flits : (units flits : ℕ) → decode_parameter_units units ≡ ok flits → flits ≡ units * 4
unfolding decode_parameter_units
units-flits units flits = elim (Bool-cases (units == 0)) [
  | inl missing ↦ rw missing (λ h. absurd (refused h))
  | inr present ↦ rw present (λ h. sym (ok-injective (units * 4) flits h))
]
  where
    refused : err invalid_field ≡ ok flits → ⊥
    refused h = cc

module _ {E : Type 0} (ops : LinkOps E) (l p : Terms) where
  maybe_install_profile-IsEnd :
      (m : DlpManagedEndpoint E) → IsEnd l p m → IsEnd l p (maybe_install_profile ops m).0
  unfolding maybe_install_profile Fits Fills profile_of
  maybe_install_profile-IsEnd m h =
      if-object (IsEnd l p) (not (is_confirmed m)) _ _ (λ early. h)
        λ done.
          try-then_ok (IsEnd l p) m (ok_or m.negotiation.selected_mode invalid_state) _ h
            λ mode is_mode.
              try-then_ok (IsEnd l p) m (ok_or m.negotiation.selected_burst invalid_state) _ h
                λ burst is_burst.
                  try-then_ok (IsEnd l p) m (ok_or m.negotiation.selected_peer_rx invalid_state) _ h
                    λ peer_rx is_rx.
                      try-then_ok (IsEnd l p) m (negotiated_dlp ops m mode) _ h λ link made.
                        let mode_fits =
                          Fills-some _ _ mode h.negotiation.fits_mode (ok_or-ok _ _ _ is_mode) in
                        let burst_fits =
                          Fills-some _ _ burst h.negotiation.fits_burst (ok_or-ok _ _ _ is_burst) in
                        let rx_fits =
                          Fills-some _ _ peer_rx h.negotiation.fits_peer_rx
                            (ok_or-ok _ _ _ is_rx) in
                        refresh-IsEnd ops l p _ _ credit_sync m.peer_generation (
                          note-IsEnd l p m _ h (
                            refill_negotiated
                              (some (record {
                                vc_mode = mode;
                                burst_flits = burst;
                                peer_rx_buffer_flits = peer_rx;
                                peer_control_window_flits = 32;
                              }))
                              h.negotiation
                              λ i. record {
                                vc_mode = mode_fits i;
                                burst_flits = burst_fits i;
                                peer_rx_buffer_flits = rx_fits i;
                                peer_control_window_flits = 32;
                              }))

  on_capabilities-IsEnd :
      (m : DlpManagedEndpoint E) (kind : DlpCapabilityKind) (g profiles rates : ℕ)
      → IsEnd l p m
      → Says p l (capabilities kind g profiles rates)
      → IsEnd l p (on_capabilities ops m kind profiles rates).0
  unfolding on_capabilities
  on_capabilities-IsEnd m kind g profiles rates h said =
      try-then_ok (IsEnd l p) m (guard (is_negotiate m.state) invalid_state) _ h λ u negotiating.
        run-then_ok (IsEnd l p) (take_capabilities m kind profiles rates) _
          (take_capabilities-IsEnd l p m kind g profiles rates h said)
          λ m _ h. maybe_install_profile-IsEnd m h

  on_link_parameters-IsEnd :
      (m : DlpManagedEndpoint E) (kind : DlpCapabilityKind) (g rx_units burst_units : ℕ)
      → IsEnd l p m
      → IsSaid p l (link_parameters kind g rx_units burst_units)
      → IsEnd l p (on_link_parameters ops m kind rx_units burst_units).0
  unfolding on_link_parameters
  on_link_parameters-IsEnd m kind g rx_units burst_units h said =
      try-then_ok (IsEnd l p) m (guard (is_negotiate m.state) invalid_state) _ h λ u negotiating.
        try-then_ok (IsEnd l p) m (decode_parameter_units rx_units) _ h λ rx is_rx.
          try-then_ok (IsEnd l p) m (decode_parameter_units burst_units) _ h λ burst is_burst.
            run-then_ok (IsEnd l p) (take_parameters m kind rx_units burst_units rx burst) _
              (subst (λ v. IsEnd l p (take_parameters m kind rx_units burst_units v burst).0)
                (sym (units-flits rx_units rx is_rx))
                (subst
                  (λ v. IsEnd l p (take_parameters m kind rx_units burst_units (rx_units * 4) v).0)
                  (sym (units-flits burst_units burst is_burst))
                  (take_parameters-IsEnd l p m kind g rx_units burst_units h said)))
              λ m _ h. maybe_install_profile-IsEnd m h

  -- A frame that the peer says.
  pub on_frame-IsEnd :
      (m : DlpManagedEndpoint E) (f : DlpControlFrame)
      → IsEnd l p m
      → IsSaid p l f
      → IsEnd l p (on_frame ops m f).0
  unfolding on_frame IsSaid IsFrame Says
  on_frame-IsEnd m (hello kind sender peer) h said =
      on_hello-IsEnd ops l p m kind sender peer said.0.0 h
  on_frame-IsEnd m (reset sender reason) h said = on_reset-IsEnd ops l p m sender h
  on_frame-IsEnd m (capabilities kind sender profiles rates) h said =
      if-object (IsEnd l p) (frame_is_current m (capabilities kind sender profiles rates)) _ _
        (λ current. on_capabilities-IsEnd m kind sender profiles rates h said.1) λ stale. h
  on_frame-IsEnd m (link_parameters kind sender rx burst) h said =
      if-object (IsEnd l p) (frame_is_current m (link_parameters kind sender rx burst)) _ _
        (λ current. on_link_parameters-IsEnd m kind sender rx burst h said) λ stale. h
