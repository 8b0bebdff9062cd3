-- ===== src/Control/Agreement/Traffic.antt =====
-- dlp_control.rs: the data path of an end leaves what it has negotiated.
use smolgnet.Base.{ℕ, ◌+◌, ◌==◌, ◌||◌, not, min, leb}
use smolgnet.Base.Results.{Result, ok_or, guard, invalid_state, link_down, no_credit}
use smolgnet.Wire.Gdp.{GdpAddress}
use smolgnet.Dlp.{Flit, GnetFrame}
use smolgnet.Dlp.Endpoint.{queued_data_flits}
use smolgnet.Endpoint.{LinkOps}
use smolgnet.Control.Managed.{DlpManagedEndpoint, up, is_credit_sync, is_up}
use smolgnet.Control.Managed.Queue.{data_path_active}
use smolgnet.Control.Managed.Traffic.{
  maybe_retry_data_credit_request, on_endpoint, managed_poll_tx_flit, managed_poll_tx_frame,
  managed_receive_flit, managed_receive_frame, bind_credit_peer, finish_credit_sync,
}
use smolgnet.Control.Agreement.{Terms, Fits, IsEnd}
use smolgnet.Control.Agreement.Steps.{try-then_ok, if-split, note-IsEnd}
use smolgnet.Control.Agreement.Hello.{refresh-IsEnd}

module _ {E : Type 0} (ops : LinkOps E) (l p : Terms) where
  open ops use {
    dlp, poll_tx_flit, poll_tx_frame, receive_managed_flit, receive_managed_frame,
    bind_managed_link_peer, retry_managed_link_credit_request,
  }

  maybe_retry_data_credit_request-IsEnd :
      (m : DlpManagedEndpoint E) → IsEnd l p m → IsEnd l p (maybe_retry_data_credit_request ops m)
  unfolding maybe_retry_data_credit_request Fits
  maybe_retry_data_credit_request-IsEnd m h =
      if-split (IsEnd l p)
        (not (is_up m.state)
          || (queued_data_flits (dlp m.endpoint) == 0
              || leb (queued_data_flits (dlp m.endpoint)) (dlp m.endpoint).data_tx_credit))
        _ _ (λ early. still)
        λ stalled.
          if-split (IsEnd l p) (leb 8 (min (m.negotiation.credit_stall_polls + 1) 255)) _ _
            (λ often.
              refresh-IsEnd ops l p _ (retry_managed_link_credit_request m.endpoint) m.state
                m.peer_generation still)
            λ seldom.
              note-IsEnd l p m
                (record m.negotiation {
                  credit_stall_polls = min (m.negotiation.credit_stall_polls + 1) 255;
                })
                h h.negotiation
    where
      still : IsEnd l p (record m { negotiation = record m.negotiation { credit_stall_polls = 0 } })
      still = note-IsEnd l p m (record m.negotiation { credit_stall_polls = 0 }) h h.negotiation

  on_endpoint-IsEnd :
      {A : Type 0} (m : DlpManagedEndpoint E) (r : E × Result A)
      → IsEnd l p m
      → IsEnd l p (on_endpoint ops m r).0
  unfolding on_endpoint
  on_endpoint-IsEnd m (e, r) h = refresh-IsEnd ops l p m e m.state m.peer_generation h

  pub managed_poll_tx_flit-IsEnd :
      (m : DlpManagedEndpoint E) → IsEnd l p m → IsEnd l p (managed_poll_tx_flit ops m).0
  unfolding managed_poll_tx_flit
  managed_poll_tx_flit-IsEnd m h =
      try-then_ok (IsEnd l p) m (guard (data_path_active m) link_down) _ h λ u active.
        let m' = maybe_retry_data_credit_request ops m in
        on_endpoint-IsEnd m' (poll_tx_flit m'.endpoint) (maybe_retry_data_credit_request-IsEnd m h)

  pub managed_poll_tx_frame-IsEnd :
      (m : DlpManagedEndpoint E) → IsEnd l p m → IsEnd l p (managed_poll_tx_frame ops m).0
  unfolding managed_poll_tx_frame
  managed_poll_tx_frame-IsEnd m h =
      try-then_ok (IsEnd l p) m (guard (data_path_active m) link_down) _ h λ u active.
        let m' = maybe_retry_data_credit_request ops m in
        on_endpoint-IsEnd m' (poll_tx_frame m'.endpoint) (maybe_retry_data_credit_request-IsEnd m h)

  pub managed_receive_flit-IsEnd :
      (m : DlpManagedEndpoint E) (flit : Flit) (now : ℕ)
      → IsEnd l p m
      → IsEnd l p (managed_receive_flit ops m flit now).0
  unfolding managed_receive_flit
  managed_receive_flit-IsEnd m flit now h =
      try-then_ok (IsEnd l p) m (guard (data_path_active m) link_down) _ h λ u active.
        try-then_ok (IsEnd l p) m (ok_or m.negotiation.negotiated invalid_state) _ h
          λ profile known.
            on_endpoint-IsEnd m
              (receive_managed_flit m.endpoint flit now profile.peer_rx_buffer_flits) h

  pub managed_receive_frame-IsEnd :
      (m : DlpManagedEndpoint E) (frame : GnetFrame) (now : ℕ)
      → IsEnd l p m
      → IsEnd l p (managed_receive_frame ops m frame now).0
  unfolding managed_receive_frame
  managed_receive_frame-IsEnd m frame now h =
      try-then_ok (IsEnd l p) m (guard (data_path_active m) link_down) _ h λ u active.
        try-then_ok (IsEnd l p) m (ok_or m.negotiation.negotiated invalid_state) _ h
          λ profile known.
            on_endpoint-IsEnd m
              (receive_managed_frame m.endpoint frame now profile.peer_rx_buffer_flits) h

  pub bind_credit_peer-IsEnd :
      (m : DlpManagedEndpoint E) (peer : GdpAddress)
      → IsEnd l p m
      → IsEnd l p (bind_credit_peer ops m peer).0
  unfolding bind_credit_peer
  bind_credit_peer-IsEnd m peer h =
      try-then_ok (IsEnd l p) m (guard (is_credit_sync m.state) invalid_state) _ h
        λ u waiting. on_endpoint-IsEnd m (bind_managed_link_peer m.endpoint peer 32) h

  pub finish_credit_sync-IsEnd :
      (m : DlpManagedEndpoint E) → IsEnd l p m → IsEnd l p (finish_credit_sync ops m).0
  unfolding finish_credit_sync
  finish_credit_sync-IsEnd m h =
      try-then_ok (IsEnd l p) m (guard (is_credit_sync m.state) invalid_state) _ h λ u waiting.
        try-then_ok (IsEnd l p) m (guard (not ((dlp m.endpoint).data_tx_credit == 0)) no_credit) _ h
          λ u funded. refresh-IsEnd ops l p m m.endpoint up m.peer_generation h
