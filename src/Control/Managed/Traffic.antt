-- ===== src/Control/Managed/Traffic.antt =====
-- dlp_control.rs: the data path of a managed endpoint, its credit and its stalled polls.
use smolgnet.Base.{ℕ, ◌+◌, min, Bool, not, ◌||◌, Option}
use smolgnet.Base.{leb, ◌==◌, if◌then◌else◌}
use smolgnet.Base.Results.{Result, ok, ok_or, guard, ◌then_ok◌}
use smolgnet.Base.Results.{invalid_state, link_down, no_credit}
use smolgnet.Wire.Gdp.{GdpAddress}
use smolgnet.Dlp.{Flit, GnetFrame}
use smolgnet.Dlp.Endpoint.{queued_data_flits}
use smolgnet.Endpoint.{LinkOps}
use smolgnet.Control.Managed.{up, is_credit_sync, is_up}
use smolgnet.Control.Managed.{DlpManagedEndpoint}
use smolgnet.Control.Managed.Queue.{data_path_active}

-- The methods that reach into the endpoint.
module _ {E : Type 0} (ops : LinkOps E) where
  open ops use {
    dlp, set_dlp, link_detached, bind_managed_link_peer, retry_managed_link_credit_request,
    poll_tx_flit, poll_tx_frame, receive_managed_flit, receive_managed_frame,
  }

  -- `CREDIT_REQUEST_RETRY_POLLS` stalled polls repeat the request for credit.
  unfoldable pub maybe_retry_data_credit_request : DlpManagedEndpoint E → DlpManagedEndpoint E
  maybe_retry_data_credit_request m =
      let queued = queued_data_flits (dlp m.endpoint) in
      let credit = (dlp m.endpoint).data_tx_credit in
      let polls = min (m.negotiation.credit_stall_polls + 1) 255 in
      let still : DlpManagedEndpoint E = record m {
        negotiation = record m.negotiation { credit_stall_polls = 0 };
      } in
      if not (is_up m.state) || (queued == 0 || leb queued credit)
      then still
      else if leb 8 polls
      then record still { endpoint = retry_managed_link_credit_request m.endpoint }
      else record m { negotiation = record m.negotiation { credit_stall_polls = polls } }

  -- A method of the endpoint, on the endpoint that is managed.
  unfoldable pub on_endpoint :
      {A : Type 0} → DlpManagedEndpoint E → E × Result A → DlpManagedEndpoint E × Result A
  on_endpoint m (e, r) = (record m { endpoint = e }, r)

  unfoldable pub managed_poll_tx_flit :
      DlpManagedEndpoint E → DlpManagedEndpoint E × Result (Option Flit)
  unfolding data_path_active maybe_retry_data_credit_request on_endpoint
  managed_poll_tx_flit m = (m, guard (data_path_active m) link_down) then_ok λ m _.
      let m' = maybe_retry_data_credit_request m in on_endpoint m' (poll_tx_flit m'.endpoint)

  unfoldable pub managed_poll_tx_frame :
      DlpManagedEndpoint E → DlpManagedEndpoint E × Result (Option GnetFrame)
  unfolding data_path_active maybe_retry_data_credit_request on_endpoint
  managed_poll_tx_frame m = (m, guard (data_path_active m) link_down) then_ok λ m _.
      let m' = maybe_retry_data_credit_request m in on_endpoint m' (poll_tx_frame m'.endpoint)

  unfoldable pub managed_receive_flit :
      DlpManagedEndpoint E → Flit → ℕ → DlpManagedEndpoint E × Result Bool
  unfolding data_path_active on_endpoint
  managed_receive_flit m flit now = (m, guard (data_path_active m) link_down) then_ok λ m _.
      (m, ok_or m.negotiation.negotiated invalid_state) then_ok λ m profile.
      on_endpoint m (receive_managed_flit m.endpoint flit now profile.peer_rx_buffer_flits)

  unfoldable pub managed_receive_frame :
      DlpManagedEndpoint E → GnetFrame → ℕ → DlpManagedEndpoint E × Result Bool
  unfolding data_path_active on_endpoint
  managed_receive_frame m frame now = (m, guard (data_path_active m) link_down) then_ok λ m _.
      (m, ok_or m.negotiation.negotiated invalid_state) then_ok λ m profile.
      on_endpoint m (receive_managed_frame m.endpoint frame now profile.peer_rx_buffer_flits)

  unfoldable pub bind_credit_peer :
      DlpManagedEndpoint E → GdpAddress → DlpManagedEndpoint E × Result (Unit {0})
  unfolding on_endpoint
  bind_credit_peer m peer = (m, guard (is_credit_sync m.state) invalid_state) then_ok λ m _.
      on_endpoint m (bind_managed_link_peer m.endpoint peer 32)

  unfoldable pub finish_credit_sync :
      DlpManagedEndpoint E → DlpManagedEndpoint E × Result (Unit {0})
  finish_credit_sync m = (m, guard (is_credit_sync m.state) invalid_state) then_ok λ m _.
      (m, guard (not ((dlp m.endpoint).data_tx_credit == 0)) no_credit) then_ok λ m _.
      (record m { state = up }, ok tt)
