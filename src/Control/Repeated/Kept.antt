-- ===== src/Control/Repeated/Kept.antt =====
-- dlp_control.rs: every call of a managed endpoint keeps what the end knows of the hellos.
use smolgnet.Base.{
  ℕ, ◌+◌, ◌≡◌, refl, arith, Bool, true, false, not, ◌||◌, ◌&&◌, ◌==◌, ltb, leb, List, [], ◌∷◌,
  Option, none, some, min,
}
use smolgnet.Base.Results.{Result, ok_or, guard, invalid_state, invalid_field, link_down, no_credit}
use smolgnet.Dlp.Endpoint.{queued_data_flits}
use smolgnet.Endpoint.{LinkOps}
use smolgnet.Control.Parameters.{next_generation, decode_parameter_units}
use smolgnet.Control.Frame.{
  DlpControlFrame, hello, capabilities, reset, link_parameters, DlpHelloKind, initial,
  acknowledgement,
}
use smolgnet.Control.Managed.{
  DlpManagedEndpoint, is_down, is_negotiate, is_credit_sync, is_up, is_none, is_peer,
}
use smolgnet.Control.Frame.{decode}
use smolgnet.Control.Managed.Queue.{
  push, poll_control, clear_negotiation_state, queue_hello_initial, queue_hello_ack,
  frame_is_current, data_path_active, is_confirmed,
}
use smolgnet.Control.Managed.Offers.{take_capabilities, take_parameters}
use smolgnet.Control.Managed.Hello.{
  restart_negotiation, carrier_up, carrier_down, renew, request_reset, on_reset, answer_hello,
  is_live, on_hello_initial, note_hello_ack, on_hello_ack, on_hello,
}
use smolgnet.Control.Managed.Session.{
  negotiated_dlp, maybe_install_profile, on_capabilities, on_link_parameters, on_frame,
  receive_control,
}
use smolgnet.Control.Managed.Traffic.{
  maybe_retry_data_credit_request, on_endpoint, managed_poll_tx_flit, managed_poll_tx_frame,
  managed_receive_flit, managed_receive_frame, bind_credit_peer, finish_credit_sync,
}
use smolgnet.Control.Agreement.Steps
use smolgnet.Control.Agreement.Steps.{run-then_ok, try-then_ok, if-split, if-object}
use smolgnet.Control.Agreement.Line.{
  LocalStep, raise, lower, reset_link, send_flit, send_frame, take_flit, take_frame, bind, finish,
  work,
}
use smolgnet.Control.Repeated.{IsGreeted}
use smolgnet.Control.Repeated.Greeted.{
  maybe_start_capability_exchange-IsGreeted, take_capabilities-IsGreeted, take_parameters-IsGreeted,
}

module _ {E : Type 0} (ops : LinkOps E) where
  -- A new start of the negotiation is not live.
  restart_negotiation-IsGreeted :
      (m : DlpManagedEndpoint E) (increment preserve : Bool)
      → IsGreeted (restart_negotiation ops m increment preserve)
  unfolding restart_negotiation queue_hello_initial push IsGreeted
  restart_negotiation-IsGreeted m increment preserve = refl

  renew-IsGreeted :
      (m : DlpManagedEndpoint E) (frames : List DlpControlFrame) → IsGreeted (renew ops m frames)
  unfolding renew queue_hello_initial push IsGreeted
  renew-IsGreeted m frames = refl

  ack-IsGreeted :
      (m : DlpManagedEndpoint E) (sender : ℕ)
      → IsGreeted m
      → IsGreeted (queue_hello_ack (record m { peer_generation = some sender }) sender)
  unfolding queue_hello_ack push IsGreeted
  ack-IsGreeted m sender h =
      with_peer (is_negotiate m.state || (is_credit_sync m.state || is_up m.state))
        m.negotiation.hello_ack_sent m.negotiation.hello_ack_received
        (not (is_none m.peer_generation)) h
    where
      with_peer :
          (live a b n : Bool)
          → (not live || (a && (b && n))) ≡ true
          → (not live || (b && true)) ≡ true
      with_peer live a b n h = ground (arith, h)

  answer_hello-IsGreeted :
      (m : DlpManagedEndpoint E) (sender : ℕ)
      → IsGreeted m
      → IsGreeted (answer_hello ops m sender).0
  unfolding answer_hello
  answer_hello-IsGreeted m sender h =
      maybe_start_capability_exchange-IsGreeted _ (ack-IsGreeted m sender h)

  on_hello_initial-IsGreeted :
      (m : DlpManagedEndpoint E) (sender : ℕ) (peer : Option ℕ)
      → IsGreeted m
      → IsGreeted (on_hello_initial ops m sender peer).0
  unfolding on_hello_initial
  on_hello_initial-IsGreeted m sender (some current) h =
      if-object IsGreeted (sender == current) _ _ (λ same. answer_hello-IsGreeted m sender h)
        λ other.
          if-object IsGreeted (sender == next_generation current) _ _
            (λ next.
              answer_hello-IsGreeted _ sender
                (restart_negotiation-IsGreeted m (is_live ops m.state) false))
            λ stale. h
  on_hello_initial-IsGreeted m sender none h =
      if-object IsGreeted (is_down m.state) _ _ (λ is_low. h)
        λ is_raised. answer_hello-IsGreeted m sender h

  note_hello_ack-IsGreeted :
      (m : DlpManagedEndpoint E) → IsGreeted m → IsGreeted (note_hello_ack ops m).0
  unfolding note_hello_ack IsGreeted
  note_hello_ack-IsGreeted m h =
      maybe_start_capability_exchange-IsGreeted
        (record m { negotiation = record m.negotiation { hello_ack_received = true } })
        (heard (is_negotiate m.state || (is_credit_sync m.state || is_up m.state))
          m.negotiation.hello_ack_sent m.negotiation.hello_ack_received
          (not (is_none m.peer_generation)) h)
    where
      heard :
          (live a b n : Bool) → (not live || (a && (b && n))) ≡ true → (not live || (a && n)) ≡ true
      heard live a b n h = ground (arith, h)

  on_hello_ack-IsGreeted :
      (m : DlpManagedEndpoint E) (sender : ℕ) (peer : Option ℕ)
      → IsGreeted m
      → IsGreeted (on_hello_ack ops m sender peer).0
  unfolding on_hello_ack
  on_hello_ack-IsGreeted m sender (some current) h =
      if-object IsGreeted (current == sender) _ _ (λ same. note_hello_ack-IsGreeted m h)
        λ other.
          if-object IsGreeted (sender == next_generation current) _ _
            (λ next. note_hello_ack-IsGreeted _ (
              ack-IsGreeted (restart_negotiation ops m true false) sender
                (restart_negotiation-IsGreeted m true false)))
            λ stale. h
  on_hello_ack-IsGreeted m sender none h = note_hello_ack-IsGreeted _ (ack-IsGreeted m sender h)

  on_hello-IsGreeted :
      (m : DlpManagedEndpoint E) (kind : DlpHelloKind) (sender peer : ℕ)
      → IsGreeted m
      → IsGreeted (on_hello ops m kind sender peer).0
  unfolding on_hello
  on_hello-IsGreeted m initial sender peer h =
      on_hello_initial-IsGreeted m sender m.peer_generation h
  on_hello-IsGreeted m acknowledgement sender peer h =
      if-object IsGreeted (peer == m.local_generation) _ _
        (λ mine. on_hello_ack-IsGreeted m sender m.peer_generation h) λ stale. h

  maybe_install_profile-IsGreeted :
      (m : DlpManagedEndpoint E) → IsGreeted m → IsGreeted (maybe_install_profile ops m).0
  unfolding maybe_install_profile IsGreeted
  maybe_install_profile-IsGreeted m h =
      if-object IsGreeted (not (is_confirmed m)) _ _ (λ early. h)
        λ done.
          try-then_ok IsGreeted m (ok_or m.negotiation.selected_mode invalid_state) _ h
            λ mode is_mode.
              try-then_ok IsGreeted m (ok_or m.negotiation.selected_burst invalid_state) _ h
                λ burst is_burst.
                  try-then_ok IsGreeted m (ok_or m.negotiation.selected_peer_rx invalid_state) _ h
                    λ peer_rx is_rx.
                      try-then_ok IsGreeted m (negotiated_dlp ops m mode) _ h λ link made.
                        entered (is_negotiate m.state) (is_credit_sync m.state || is_up m.state)
                          (m.negotiation.cap_confirmation_sent
                            && (m.negotiation.cap_confirmation_received
                                && (m.negotiation.params_confirmation_sent
                                    && m.negotiation.params_confirmation_received)))
                          _ h done
    where
      entered : (n l c x : Bool) → (not (n || l) || x) ≡ true → not (n && c) ≡ false → x ≡ true
      entered n l c x h done = ground (arith, h, done)

  on_frame-IsGreeted :
      (m : DlpManagedEndpoint E) (f : DlpControlFrame)
      → IsGreeted m
      → IsGreeted (on_frame ops m f).0
  unfolding on_frame on_reset on_capabilities on_link_parameters
  on_frame-IsGreeted m (hello kind sender peer) h = on_hello-IsGreeted m kind sender peer h
  on_frame-IsGreeted m (reset sender reason) h =
      if-object IsGreeted (is_peer m.peer_generation sender) _ _ (λ current. renew-IsGreeted m [])
        λ stale. h
  on_frame-IsGreeted m (capabilities kind sender profiles rates) h =
      if-object IsGreeted (frame_is_current m (capabilities kind sender profiles rates)) _ _
        (λ current.
          try-then_ok IsGreeted m (guard (is_negotiate m.state) invalid_state) _ h λ u negotiating.
            run-then_ok IsGreeted (take_capabilities m kind profiles rates) _
              (take_capabilities-IsGreeted m kind profiles rates h)
              λ m _ h. maybe_install_profile-IsGreeted m h)
        λ stale. h
  on_frame-IsGreeted m (link_parameters kind sender rx_units burst_units) h =
      if-object IsGreeted (frame_is_current m (link_parameters kind sender rx_units burst_units)) _
        _
        (λ current.
          try-then_ok IsGreeted m (guard (is_negotiate m.state) invalid_state) _ h λ u negotiating.
            try-then_ok IsGreeted m (decode_parameter_units rx_units) _ h λ rx is_rx.
              try-then_ok IsGreeted m (decode_parameter_units burst_units) _ h λ burst is_burst.
                run-then_ok IsGreeted (take_parameters m kind rx_units burst_units rx burst) _
                  (take_parameters-IsGreeted m kind rx_units burst_units rx burst h)
                  λ m _ h. maybe_install_profile-IsGreeted m h)
        λ stale. h

  pub receive_control-IsGreeted :
      (m : DlpManagedEndpoint E) (bytes : List ℕ)
      → IsGreeted m
      → IsGreeted (receive_control ops m bytes).0
  unfolding receive_control
  receive_control-IsGreeted m bytes h =
      try-then_ok IsGreeted m (decode bytes) _ h λ f known. on_frame-IsGreeted m f h

module _ {E : Type 0} (ops : LinkOps E) where
  open ops use {
    dlp, poll_tx_flit, poll_tx_frame, receive_managed_flit, receive_managed_frame,
    bind_managed_link_peer, retry_managed_link_credit_request,
  }

  retry-IsGreeted :
      (m : DlpManagedEndpoint E) → IsGreeted m → IsGreeted (maybe_retry_data_credit_request ops m)
  unfolding maybe_retry_data_credit_request IsGreeted
  retry-IsGreeted m h =
      if-split IsGreeted
        (not (is_up m.state)
          || (queued_data_flits (dlp m.endpoint) == 0
              || leb (queued_data_flits (dlp m.endpoint)) (dlp m.endpoint).data_tx_credit))
        _ _ (λ early. h)
        λ stalled.
          if-split IsGreeted (leb 8 (min (m.negotiation.credit_stall_polls + 1) 255)) _ _
            (λ often. h) λ seldom. h

  on_endpoint-IsGreeted :
      {A : Type 0} (m : DlpManagedEndpoint E) (r : E × Result A)
      → IsGreeted m
      → IsGreeted (on_endpoint ops m r).0
  unfolding on_endpoint IsGreeted
  on_endpoint-IsGreeted m (e, r) h = h

  pub step-IsGreeted :
      {m m' : DlpManagedEndpoint E} → LocalStep ops m m' → IsGreeted m → IsGreeted m'
  unfolding carrier_up carrier_down clear_negotiation_state request_reset managed_poll_tx_flit
      managed_poll_tx_frame managed_receive_flit managed_receive_frame bind_credit_peer
      finish_credit_sync IsGreeted
  step-IsGreeted (raise {m = m}) h =
      try-then_ok IsGreeted m (guard (is_down m.state) invalid_state) _ h
        λ u is_low. restart_negotiation-IsGreeted ops m false false
  step-IsGreeted lower h = refl
  step-IsGreeted (reset_link {m = m} reason) h =
      try-then_ok IsGreeted m (guard (not (is_down m.state)) link_down) _ h λ u raised.
        try-then_ok IsGreeted m (guard (not (ltb 0x0f reason)) invalid_field) _ h
          λ u small. renew-IsGreeted ops m (reset m.local_generation reason ∷ [])
  step-IsGreeted (send_flit {m = m}) h =
      try-then_ok IsGreeted m (guard (data_path_active m) link_down) _ h λ u active.
        let m' = maybe_retry_data_credit_request ops m in
        on_endpoint-IsGreeted m' (poll_tx_flit m'.endpoint) (retry-IsGreeted m h)
  step-IsGreeted (send_frame {m = m}) h =
      try-then_ok IsGreeted m (guard (data_path_active m) link_down) _ h λ u active.
        let m' = maybe_retry_data_credit_request ops m in
        on_endpoint-IsGreeted m' (poll_tx_frame m'.endpoint) (retry-IsGreeted m h)
  step-IsGreeted (take_flit {m = m} flit now) h =
      try-then_ok IsGreeted m (guard (data_path_active m) link_down) _ h λ u active.
        try-then_ok IsGreeted m (ok_or m.negotiation.negotiated invalid_state) _ h λ profile known.
          on_endpoint-IsGreeted m
            (receive_managed_flit m.endpoint flit now profile.peer_rx_buffer_flits) h
  step-IsGreeted (take_frame {m = m} frame now) h =
      try-then_ok IsGreeted m (guard (data_path_active m) link_down) _ h λ u active.
        try-then_ok IsGreeted m (ok_or m.negotiation.negotiated invalid_state) _ h λ profile known.
          on_endpoint-IsGreeted m
            (receive_managed_frame m.endpoint frame now profile.peer_rx_buffer_flits) h
  step-IsGreeted (bind {m = m} peer) h =
      try-then_ok IsGreeted m (guard (is_credit_sync m.state) invalid_state) _ h
        λ u waiting. on_endpoint-IsGreeted m (bind_managed_link_peer m.endpoint peer 32) h
  step-IsGreeted (finish {m = m}) h =
      try-then_ok IsGreeted m (guard (is_credit_sync m.state) invalid_state) _ h λ u waiting.
        try-then_ok IsGreeted m (guard (not ((dlp m.endpoint).data_tx_credit == 0)) no_credit) _ h
          λ u funded.
            raised (is_negotiate m.state) (is_credit_sync m.state) (is_up m.state) _ h
              (Steps.guard-ok _ _ _ waiting)
    where
      raised : (n c v x : Bool) → (not (n || (c || v)) || x) ≡ true → c ≡ true → x ≡ true
      raised n c v x h waiting = ground (arith, h, waiting)
  step-IsGreeted (work e) h = h

  pub poll_control-IsGreeted :
      (m : DlpManagedEndpoint E) → IsGreeted m → IsGreeted (poll_control m).0
  unfolding poll_control IsGreeted
  poll_control-IsGreeted m h = polled m m.control_tx h
    where
      polled :
          (m : DlpManagedEndpoint E) (queue : List DlpControlFrame)
          → IsGreeted m
          → IsGreeted (poll_control (record m { control_tx = queue })).0
      polled m [] h = h
      polled m (f ∷ rest) h = h
