-- ===== src/Egress/Tests.antt =====
-- egress_scheduler.rs: the theorems at two flows, one with two packets, and a link that is up.
use smolgnet.Dlp.Endpoint.{queued_data_flits}
use smolgnet.Base.{◌≡◌, ◌≢◌, replicate, none, some, true, false, [], ◌∷◌, ◌⊎◌}
use smolgnet.Base.Results.{err, invalid_state}
use smolgnet.Wire.Gdp.{gts, tiny3, local_addresses, default_config}
use smolgnet.Wire.Gdp.Packet.{GdpPacket}
use smolgnet.Dlp.{two}
use smolgnet.Dlp.Link.{DlpLink, up}
use smolgnet.Egress.{
  EgressFlowId, RouterEgressScheduler, new, enqueue, schedule_round, round_capacity,
}
use smolgnet.Egress.Invariant.{IsScheduled, new-IsScheduled, enqueue-IsScheduled}
use smolgnet.Egress.Round.{IsRound, schedule_round-IsRound}

abbrev small_packet : GdpPacket
small_packet = record {
  header = record {
    version = 0;
    packet_type = gts;
    size_class = tiny3;
    hop_limit = 3;
    addresses = local_addresses 7 9 0x1234_0000_0000_0000;
  };
  payload = 1 ∷ 2 ∷ 3 ∷ [];
}

abbrev open_link : DlpLink
open_link = record {
  endpoint = record {
    cfg = default_config;
    local_prefix = 0x1234_0000_0000_0000;
    vc_mode = two;
    rx_buffer_flits = 4;
    control_window_flits = 32;
    data_tx_credit = 0;
    control_tx_credit = 0;
    data_credit_outstanding = 0;
    data_rx_in_use = 0;
    control_tx_queue = [];
    data_tx_queue = [];
    rx = replicate 4 none;
    desynchronized = replicate 4 false;
    next_data_vc = 1;
    link_up = true;
  };
  state = up;
  generation = 0;
}

abbrev first_flow : EgressFlowId
first_flow = record { source = 1; destination = 2; transport = 7 }

abbrev second_flow : EgressFlowId
second_flow = record { source = 1; destination = 2; transport = 8 }

-- The first flow waits with two packets, before the second one.
abbrev two_flows : RouterEgressScheduler
two_flows =
    enqueue (enqueue (enqueue new first_flow small_packet) second_flow small_packet) first_flow
      small_packet

two_flows-IsScheduled : IsScheduled two_flows
two_flows-IsScheduled = enqueue-IsScheduled _ first_flow small_packet (
    enqueue-IsScheduled _ second_flow small_packet
      (enqueue-IsScheduled new first_flow small_packet new-IsScheduled))

enqueue_example : IsScheduled (enqueue two_flows second_flow small_packet)
enqueue_example = enqueue-IsScheduled two_flows second_flow small_packet two_flows-IsScheduled

schedule_round_example :
    ((queued_data_flits open_link.endpoint ≢ 0)
      × (schedule_round two_flows open_link ≡ some (two_flows, open_link, err invalid_state)))
    ⊎ ((queued_data_flits open_link.endpoint ≡ 0)
        × IsRound
            (round_capacity open_link.endpoint.vc_mode)
            0
            two_flows
            open_link
            (schedule_round two_flows open_link))
schedule_round_example = schedule_round-IsRound two_flows open_link two_flows-IsScheduled
