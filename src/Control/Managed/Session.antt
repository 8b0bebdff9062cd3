-- ===== src/Control/Managed/Session.antt =====
-- dlp_control.rs: `receive_control`, and the profile that a finished negotiation installs.
use smolgnet.Base.{ℕ, ◌-◌, ◌^◌, bit_and, not, List, some}
use smolgnet.Base.{if◌then◌else◌}
use smolgnet.Base.Results.{Result, ok, ok_or, guard, ◌>>=◌, ◌then_ok◌}
use smolgnet.Base.Results.{invalid_state}
use smolgnet.Dlp.{VcMode, config_new}
use smolgnet.Dlp.Endpoint
use smolgnet.Dlp.Endpoint.{queued_data_flits, set_link_up}
use smolgnet.Endpoint.{LinkOps}
use smolgnet.Control.Parameters.{decode_parameter_units}
use smolgnet.Control.Frame.{DlpControlFrame, hello, capabilities, reset, link_parameters, decode}
use smolgnet.Control.Frame.{DlpCapabilityKind}
use smolgnet.Control.Managed.{credit_sync, is_negotiate, prefix_or_zero}
use smolgnet.Control.Managed.{DlpManagedEndpoint}
use smolgnet.Control.Managed.Queue.{frame_is_current, is_confirmed}
use smolgnet.Control.Managed.Offers.{take_capabilities, take_parameters}
use smolgnet.Control.Managed.Hello.{on_reset, on_hello}

-- The methods that reach into the endpoint.
module _ {E : Type 0} (ops : LinkOps E) where
  open ops use {
    dlp, set_dlp, link_detached, bind_managed_link_peer, retry_managed_link_credit_request,
    poll_tx_flit, poll_tx_frame, receive_managed_flit, receive_managed_frame,
  }

  unfoldable pub negotiated_dlp : DlpManagedEndpoint E → VcMode → Result Endpoint.DlpEndpoint
  negotiated_dlp m mode = do
    cfg ← config_new m.endpoint_config.rx_buffer_flits mode
    Endpoint.new (record cfg {
      gdp = m.endpoint_config.gdp_wire;
      local_prefix =
          bit_and (prefix_or_zero m.endpoint_config.local_context_prefix) (2 ^ 64 - 2 ^ 16);
      control_window_flits = 32;
    })

  unfoldable pub maybe_install_profile :
      DlpManagedEndpoint E → DlpManagedEndpoint E × Result (Unit {0})
  unfolding negotiated_dlp
  maybe_install_profile m =
      if not (is_confirmed m)
      then (m, ok tt)
      else (m, ok_or m.negotiation.selected_mode invalid_state) then_ok λ m mode.
          (m, ok_or m.negotiation.selected_burst invalid_state) then_ok λ m burst.
          (m, ok_or m.negotiation.selected_peer_rx invalid_state) then_ok λ m peer_rx.
          (m, negotiated_dlp m mode) then_ok λ m link. (
            record m {
              endpoint = set_dlp m.endpoint link;
              state = credit_sync;
              negotiation = record m.negotiation {
                negotiated = some (record {
                  vc_mode = mode;
                  burst_flits = burst;
                  peer_rx_buffer_flits = peer_rx;
                  peer_control_window_flits = 32;
                });
              };
            },
            ok tt,
          )

  unfoldable pub on_capabilities :
      DlpManagedEndpoint E → DlpCapabilityKind → ℕ → ℕ → DlpManagedEndpoint E × Result (Unit {0})
  unfolding take_capabilities maybe_install_profile
  on_capabilities m kind profiles rates =
      (m, guard (is_negotiate m.state) invalid_state) then_ok λ m _.
      take_capabilities m kind profiles rates then_ok λ m _. maybe_install_profile m

  unfoldable pub on_link_parameters :
      DlpManagedEndpoint E → DlpCapabilityKind → ℕ → ℕ → DlpManagedEndpoint E × Result (Unit {0})
  unfolding take_parameters maybe_install_profile
  on_link_parameters m kind rx_units burst_units =
      (m, guard (is_negotiate m.state) invalid_state) then_ok λ m _.
      (m, decode_parameter_units rx_units) then_ok λ m rx.
      (m, decode_parameter_units burst_units) then_ok λ m burst.
      take_parameters m kind rx_units burst_units rx burst then_ok λ m _. maybe_install_profile m

  unfoldable pub on_frame :
      DlpManagedEndpoint E → DlpControlFrame → DlpManagedEndpoint E × Result (Unit {0})
  unfolding on_hello on_reset on_capabilities on_link_parameters frame_is_current
  on_frame m (hello kind sender peer) = on_hello ops m kind sender peer
  on_frame m (reset sender reason) = on_reset ops m sender
  on_frame m (capabilities kind sender profiles rates) =
      if frame_is_current m (capabilities kind sender profiles rates)
      then on_capabilities m kind profiles rates
      else (m, ok tt)
  on_frame m (link_parameters kind sender rx burst) =
      if frame_is_current m (link_parameters kind sender rx burst)
      then on_link_parameters m kind rx burst
      else (m, ok tt)

  unfoldable pub receive_control :
      DlpManagedEndpoint E → List ℕ → DlpManagedEndpoint E × Result (Unit {0})
  unfolding on_frame
  receive_control m bytes = (m, decode bytes) then_ok λ m frame. on_frame m frame
