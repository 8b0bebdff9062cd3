-- ===== src/Control/Managed/Hello.antt =====
-- dlp_control.rs: construction, carrier, resets, and the exchange of generations.
use smolgnet.Base.{ℕ, Bool, true, false, not, ◌||◌, List, [], ◌∷◌, Option, none, some}
use smolgnet.Base.{ltb, ◌==◌, if◌then◌else◌}
use smolgnet.Base.Results.{Result, ok, err, guard, ◌>>=◌, ◌>>◌, ◌then_ok◌}
use smolgnet.Base.Results.{invalid_field, invalid_state, link_down}
use smolgnet.Wire.Gdp.{GdpAddress}
use smolgnet.Dlp.Endpoint.{set_link_up}
use smolgnet.Endpoint.{EndpointConfig, LinkOps}
use smolgnet.Control.Parameters.{validate_parameter_value}
use smolgnet.Control.Parameters.{next_generation}
use smolgnet.Control.Frame.{DlpControlFrame, reset}
use smolgnet.Control.Frame.{DlpHelloKind, initial, acknowledgement}
use smolgnet.Control.Managed.{
  DlpControlState, down, hello_state, is_down, is_negotiate, is_credit_sync, is_up, is_peer,
}
use smolgnet.Control.Managed.{DlpManagedEndpoint}
use smolgnet.Control.Managed.Queue.{
  build, clear_negotiation_state, queue_hello_initial, queue_hello_ack,
  maybe_start_capability_exchange,
}

-- The methods that reach into the endpoint.
module _ {E : Type 0} (ops : LinkOps E) where
  open ops use {
    dlp, set_dlp, link_detached, bind_managed_link_peer, retry_managed_link_credit_request,
    poll_tx_flit, poll_tx_frame, receive_managed_flit, receive_managed_frame,
  }

  -- The checks of `new` and `unconfigured`.
  unfoldable pub check_config : EndpointConfig → ℕ → Result (Unit {0})
  check_config config max_burst_flits = do
    validate_parameter_value config.rx_buffer_flits
    validate_parameter_value max_burst_flits
    guard (config.control_window_flits == 32) invalid_field

  -- `endpoint.dlp_mut().set_link_up(false)`.
  abbrev pub link_down_of : E → E
  link_down_of e = set_dlp e (set_link_up (dlp e) false)

  unfoldable pub new : GdpAddress → EndpointConfig → ℕ → Result (DlpManagedEndpoint E)
  unfolding check_config build
  new address config max_burst_flits = do
    check_config config max_burst_flits
    endpoint ← ops.new address config
    ok (build (link_down_of endpoint) config max_burst_flits)

  unfoldable pub unconfigured : ℕ → EndpointConfig → ℕ → Result (DlpManagedEndpoint E)
  unfolding check_config build
  unconfigured link_local_suffix config max_burst_flits = do
    check_config config max_burst_flits
    endpoint ← ops.unconfigured link_local_suffix config
    ok (build (link_down_of endpoint) config max_burst_flits)

  unfoldable pub restart_negotiation : DlpManagedEndpoint E → Bool → Bool → DlpManagedEndpoint E
  unfolding clear_negotiation_state queue_hello_initial
  restart_negotiation m increment_generation preserve_control =
      let m' : DlpManagedEndpoint E = record m {
        endpoint = link_detached m.endpoint;
        local_generation =
            if increment_generation then next_generation m.local_generation else m.local_generation;
        control_tx = if preserve_control then m.control_tx else [];
      } in
      queue_hello_initial (record (clear_negotiation_state m') { state = hello_state })

  unfoldable pub carrier_up : DlpManagedEndpoint E → DlpManagedEndpoint E × Result (Unit {0})
  unfolding restart_negotiation
  carrier_up m = (m, guard (is_down m.state) invalid_state) then_ok λ m _.
      (restart_negotiation m false false, ok tt)

  unfoldable pub carrier_down : DlpManagedEndpoint E → DlpManagedEndpoint E
  unfolding clear_negotiation_state
  carrier_down m =
      record (clear_negotiation_state (record m {
        endpoint = link_detached m.endpoint;
        control_tx = [];
        peer_generation = none;
      })) { state = down }

  -- The end that has sent or received a reset starts again with its next generation.
  unfoldable pub renew : DlpManagedEndpoint E → List DlpControlFrame → DlpManagedEndpoint E
  unfolding clear_negotiation_state queue_hello_initial
  renew m frames =
      queue_hello_initial
        (record (clear_negotiation_state (record m {
          endpoint = link_detached m.endpoint;
          control_tx = frames;
          local_generation = next_generation m.local_generation;
          peer_generation = none;
        })) { state = hello_state })

  unfoldable pub request_reset : DlpManagedEndpoint E → ℕ → DlpManagedEndpoint E × Result (Unit {0})
  unfolding renew
  request_reset m reason = (m, guard (not (is_down m.state)) link_down) then_ok λ m _.
      (m, guard (not (ltb 0x0f reason)) invalid_field) then_ok λ m _.
      (renew m (reset m.local_generation reason ∷ []), ok tt)

  unfoldable pub on_reset : DlpManagedEndpoint E → ℕ → DlpManagedEndpoint E × Result (Unit {0})
  unfolding renew
  on_reset m sender = if is_peer m.peer_generation sender then (renew m [], ok tt) else (m, ok tt)

  -- The end of the `Initial` branch of `on_hello`.
  unfoldable pub answer_hello : DlpManagedEndpoint E → ℕ → DlpManagedEndpoint E × Result (Unit {0})
  unfolding queue_hello_ack maybe_start_capability_exchange
  answer_hello m sender =
      maybe_start_capability_exchange
        (queue_hello_ack (record m { peer_generation = some sender }) sender)

  abbrev pub is_live : DlpControlState → Bool
  is_live s = is_negotiate s || (is_credit_sync s || is_up s)

  unfoldable pub on_hello_initial :
      DlpManagedEndpoint E → ℕ → Option ℕ → DlpManagedEndpoint E × Result (Unit {0})
  unfolding restart_negotiation answer_hello
  on_hello_initial m sender (some current) =
      if sender == current
      then answer_hello m sender
      else if sender == next_generation current
      then answer_hello (restart_negotiation m (is_live m.state) false) sender
      else (m, ok tt)
  on_hello_initial m sender none =
      if is_down m.state then (m, err invalid_state) else answer_hello m sender

  -- The end of the `Acknowledgement` branch of `on_hello`.
  unfoldable pub note_hello_ack : DlpManagedEndpoint E → DlpManagedEndpoint E × Result (Unit {0})
  unfolding maybe_start_capability_exchange
  note_hello_ack m =
      maybe_start_capability_exchange
        (record m { negotiation = record m.negotiation { hello_ack_received = true } })

  unfoldable pub on_hello_ack :
      DlpManagedEndpoint E → ℕ → Option ℕ → DlpManagedEndpoint E × Result (Unit {0})
  unfolding restart_negotiation queue_hello_ack note_hello_ack
  on_hello_ack m sender (some current) =
      if current == sender
      then note_hello_ack m
      else if sender == next_generation current
      then note_hello_ack (
          queue_hello_ack
            (record (restart_negotiation m true false) { peer_generation = some sender }) sender)
      else (m, ok tt)
  on_hello_ack m sender none =
      note_hello_ack (queue_hello_ack (record m { peer_generation = some sender }) sender)

  unfoldable pub on_hello :
      DlpManagedEndpoint E → DlpHelloKind → ℕ → ℕ → DlpManagedEndpoint E × Result (Unit {0})
  unfolding on_hello_initial on_hello_ack
  on_hello m initial sender peer = on_hello_initial m sender m.peer_generation
  on_hello m acknowledgement sender peer =
      if peer == m.local_generation then on_hello_ack m sender m.peer_generation else (m, ok tt)
