-- ===== src/Control/Managed/Offers.antt =====
-- dlp_control.rs: what `on_capabilities` and `on_link_parameters` do with each kind of frame.
use smolgnet.Base.{ℕ, min, true, not, ◌||◌, Option, none, some}
use smolgnet.Base.{◌!=◌, if◌then◌else◌}
use smolgnet.Base.Results.{Result, ok, ok_or, guard, ◌then_ok◌}
use smolgnet.Base.Results.{invalid_field, invalid_state}
use smolgnet.Dlp.{VcMode}
use smolgnet.Control.Parameters.{rate_all, encode_parameter_units}
use smolgnet.Control.Parameters.{selected_mode_flag, choose_vc_mode, choose_rate}
use smolgnet.Control.Frame.{capabilities, link_parameters}
use smolgnet.Control.Frame.{DlpCapabilityKind, offer, selection, confirmation}
use smolgnet.Control.Managed.{PeerCapabilityOffer, PeerParameterOffer, DlpManagedEndpoint}
use smolgnet.Control.Managed.Queue.{push}

module _ {E : Type 0} where
  -- An offer is compared with the one before, if there was one, and kept.
  unfoldable pub note_cap_offer :
      DlpManagedEndpoint E
      → ℕ
      → ℕ
      → Option PeerCapabilityOffer
      → DlpManagedEndpoint E × Result (Unit {0})
  note_cap_offer m profiles rates (some old) =
      (m, guard (not (old.profiles != profiles || old.rates != rates)) invalid_field)
  note_cap_offer m profiles rates none = (
    record m {
      negotiation = record m.negotiation {
        peer_cap_offer = some (record { profiles = profiles; rates = rates });
      };
    },
    ok tt,
  )

  unfoldable pub select_capabilities : DlpManagedEndpoint E → VcMode → ℕ → DlpManagedEndpoint E
  unfolding push
  select_capabilities m mode rate =
      if m.negotiation.cap_selection_sent
      then m
      else record (push m
          (capabilities selection m.local_generation (selected_mode_flag mode) rate)) {
            negotiation = record m.negotiation { cap_selection_sent = true };
          }

  unfoldable pub confirm_capabilities : DlpManagedEndpoint E → ℕ → ℕ → DlpManagedEndpoint E
  unfolding push
  confirm_capabilities m profiles rates =
      if m.negotiation.cap_confirmation_sent
      then m
      else record (push m (capabilities confirmation m.local_generation profiles rates)) {
        negotiation = record m.negotiation { cap_confirmation_sent = true };
      }

  -- The `match kind` of `on_capabilities`.
  unfoldable pub take_capabilities :
      DlpManagedEndpoint E → DlpCapabilityKind → ℕ → ℕ → DlpManagedEndpoint E × Result (Unit {0})
  unfolding note_cap_offer select_capabilities confirm_capabilities
  take_capabilities m offer profiles rates =
      note_cap_offer m profiles rates m.negotiation.peer_cap_offer then_ok λ m _.
      (m, choose_vc_mode m.endpoint_config.vc_mode profiles) then_ok λ m mode.
      (m, choose_rate rate_all rates) then_ok λ m rate. (
        select_capabilities
            (record m {
              negotiation = record m.negotiation {
                selected_mode = some mode;
                selected_rate = some rate;
              };
            })
            mode rate,
        ok tt,
      )
  take_capabilities m selection profiles rates =
      (m, ok_or m.negotiation.peer_cap_offer invalid_state) then_ok λ m old.
      (m, choose_vc_mode m.endpoint_config.vc_mode old.profiles) then_ok λ m mode.
      (m, choose_rate rate_all old.rates) then_ok λ m rate.
      (m, guard (not (profiles != selected_mode_flag mode || rates != rate)) invalid_field)
      then_ok λ m _. (confirm_capabilities m profiles rates, ok tt)
  take_capabilities m confirmation profiles rates =
      (m, ok_or m.negotiation.selected_mode invalid_state) then_ok λ m mode.
      (m, ok_or m.negotiation.selected_rate invalid_state) then_ok λ m rate.
      (m, guard (not (profiles != selected_mode_flag mode || rates != rate)) invalid_field)
      then_ok λ m _. (
        record m { negotiation = record m.negotiation { cap_confirmation_received = true } },
        ok tt,
      )

  unfoldable pub note_params_offer :
      DlpManagedEndpoint E
      → ℕ
      → ℕ
      → Option PeerParameterOffer
      → DlpManagedEndpoint E × Result (Unit {0})
  note_params_offer m rx burst (some old) =
      (m, guard (not (old.rx_buffer_flits != rx || old.max_burst_flits != burst)) invalid_field)
  note_params_offer m rx burst none = (
    record m {
      negotiation = record m.negotiation {
        peer_params_offer = some (record { rx_buffer_flits = rx; max_burst_flits = burst });
      };
    },
    ok tt,
  )

  unfoldable pub select_parameters :
      DlpManagedEndpoint E → ℕ → ℕ → DlpManagedEndpoint E × Result (Unit {0})
  unfolding push
  select_parameters m rx burst =
      if m.negotiation.params_selection_sent
      then (m, ok tt)
      else (m, encode_parameter_units rx) then_ok λ m rx_units.
          (m, encode_parameter_units burst) then_ok λ m burst_units. (
            record (push m (link_parameters selection m.local_generation rx_units burst_units)) {
              negotiation = record m.negotiation { params_selection_sent = true };
            },
            ok tt,
          )

  unfoldable pub confirm_parameters : DlpManagedEndpoint E → ℕ → ℕ → DlpManagedEndpoint E
  unfolding push
  confirm_parameters m rx_units burst_units =
      if m.negotiation.params_confirmation_sent
      then m
      else record (push m (link_parameters confirmation m.local_generation rx_units burst_units)) {
        negotiation = record m.negotiation { params_confirmation_sent = true };
      }

  -- The `match kind` of `on_link_parameters`, on the units of the frame and the flits they stand for.
  unfoldable pub take_parameters :
      DlpManagedEndpoint E
      → DlpCapabilityKind
      → ℕ
      → ℕ
      → ℕ
      → ℕ
      → DlpManagedEndpoint E × Result (Unit {0})
  unfolding note_params_offer select_parameters confirm_parameters
  take_parameters m offer rx_units burst_units rx burst =
      note_params_offer m rx burst m.negotiation.peer_params_offer then_ok λ m _.
      let selected = min m.max_burst_flits burst in
      select_parameters
        (record m {
          negotiation = record m.negotiation {
            selected_peer_rx = some rx;
            selected_burst = some selected;
          };
        })
        rx selected
  take_parameters m selection rx_units burst_units rx burst =
      (m, ok_or m.negotiation.peer_params_offer invalid_state) then_ok λ m old.
      (
        m,
        guard
            (not (
              rx != m.endpoint_config.rx_buffer_flits
              || burst != min m.max_burst_flits old.max_burst_flits))
            invalid_field,
      )
      then_ok λ m _. (confirm_parameters m rx_units burst_units, ok tt)
  take_parameters m confirmation rx_units burst_units rx burst =
      (m, ok_or m.negotiation.selected_peer_rx invalid_state) then_ok λ m peer_rx.
      (m, ok_or m.negotiation.selected_burst invalid_state) then_ok λ m selected.
      (m, guard (not (rx != peer_rx || burst != selected)) invalid_field) then_ok λ m _. (
        record m { negotiation = record m.negotiation { params_confirmation_received = true } },
        ok tt,
      )
