-- ===== src/Control/Tests.antt =====
-- dlp_control.rs: the theorems at concrete ends, and two ends that come up.
use smolgnet.Base.{
  ℕ, zero, suc, ◌≡◌, ◌↔◌, refl, sym, subst, arith, Bool, true, false, List, [], ◌∷◌, Option, none,
  some,
}
use smolgnet.Base.Results.{ok}
use smolgnet.Wire.Gdp.{default_config}
use smolgnet.Dlp.{VcMode, two, four, Flit, GnetFrame}
use smolgnet.Dlp.Endpoint.{DlpEndpoint, grant_data_tx_credit}
use smolgnet.Endpoint.{EndpointConfig, LinkOps, config_new}
use smolgnet.Control.Managed.{DlpManagedEndpoint, DlpNegotiatedProfile}
use smolgnet.Control.Managed.Queue.{build, poll_control}
use smolgnet.Control.Managed.Hello
use smolgnet.Control.Managed.Hello.{carrier_up, link_down_of}
use smolgnet.Control.Managed.Session.{receive_control}
use smolgnet.Control.Cable.{DlpDirectCable, cable_new}
use smolgnet.Control.Agreement.Line.{
  Line, sent, IsOn, last, Reachable, start, local_a, local_b, raise, send_a, send_b, arrive_a,
  arrive_b,
}
use smolgnet.Control.Cable.{pump_loop}
use smolgnet.Control.Cable.Rounds.{Ends, pump_loop-Ends}
use smolgnet.Control.Frame.{hello, acknowledgement, encode, decode}
use smolgnet.Control.Frame.Word.{IsFrame}
use smolgnet.Control.Frame.Accepted.{decode-iff-encode}
use smolgnet.Control.Managed.{up, negotiate, no_negotiation}
use smolgnet.Control.Managed.Session.{on_frame}
use smolgnet.Control.Agreement.Reachable.{Reachable-IsAgreed}

abbrev idle_dlp : DlpEndpoint
idle_dlp = record {
  cfg = default_config;
  local_prefix = 0;
  vc_mode = two;
  rx_buffer_flits = 64;
  control_window_flits = 32;
  data_tx_credit = 0;
  control_tx_credit = 0;
  data_credit_outstanding = 0;
  data_rx_in_use = 0;
  control_tx_queue = [];
  data_tx_queue = [];
  rx = [];
  desynchronized = [];
  next_data_vc = 1;
  link_up = true;
}

-- An endpoint that is its data link alone, and is paid when its peer is bound.
abbrev dlp_ops : LinkOps DlpEndpoint
dlp_ops = record {
  new = λ address config. ok idle_dlp;
  unconfigured = λ suffix config. ok idle_dlp;
  dlp = λ e. e;
  set_dlp = λ e link. link;
  link_local_address = λ e. 0xfe80_0000_0000_0001;
  link_detached = λ e. record e { link_up = false };
  bind_managed_link_peer = λ e peer window. (grant_data_tx_credit e 8, ok tt);
  retry_managed_link_credit_request = λ e. e;
  poll_tx_flit = λ e. (e, ok none);
  poll_tx_frame = λ e. (e, ok none);
  receive_managed_flit = λ e flit now limit. (e, ok false);
  receive_managed_frame = λ e frame now limit. (e, ok false);
}

abbrev end_a : DlpManagedEndpoint DlpEndpoint
end_a = build (link_down_of dlp_ops idle_dlp) (config_new 64) 16

abbrev end_b : DlpManagedEndpoint DlpEndpoint
end_b = build (link_down_of dlp_ops idle_dlp) (record (config_new 128) { vc_mode = four }) 8

abbrev start_line : Line DlpEndpoint
start_line = record {
  a = (carrier_up dlp_ops end_a).0;
  b = (carrier_up dlp_ops end_b).0;
  to_a = [];
  to_b = [];
}

-- Each end sends what it has, and the other takes what came last.
unfoldable arrived_a : Line DlpEndpoint → List (List ℕ) → Line DlpEndpoint
arrived_a s [] = s
arrived_a s (bytes ∷ wire) = record s { a = (receive_control dlp_ops s.a bytes).0 }

unfoldable arrived_b : Line DlpEndpoint → List (List ℕ) → Line DlpEndpoint
arrived_b s [] = s
arrived_b s (bytes ∷ wire) = record s { b = (receive_control dlp_ops s.b bytes).0 }

unfoldable to_b_sent : Line DlpEndpoint → Line DlpEndpoint
to_b_sent s = record s { a = (poll_control s.a).0; to_b = sent s.to_b (poll_control s.a).1 }

unfoldable to_a_sent : Line DlpEndpoint → Line DlpEndpoint
to_a_sent s = record s { b = (poll_control s.b).0; to_a = sent s.to_a (poll_control s.b).1 }

unfoldable trade : Line DlpEndpoint → Line DlpEndpoint
unfolding arrived_a arrived_b to_a_sent to_b_sent
trade s =
    let s1 = to_b_sent s in
    let s2 = arrived_b s1 s1.to_b in let s3 = to_a_sent s2 in arrived_a s3 s3.to_a

unfoldable trades : ℕ → Line DlpEndpoint → Line DlpEndpoint
unfolding trade
trades zero s = s
trades (suc n) s = trades n (trade s)

abbrev ended : Line DlpEndpoint
ended = trades 9 start_line

arrived_a-Reachable :
    (s : Line DlpEndpoint) (wire : List (List ℕ))
    → Reachable dlp_ops s
    → s.to_a ≡ wire
    → Reachable dlp_ops (arrived_a s wire)
unfolding arrived_a
arrived_a-Reachable s [] reached e = reached
arrived_a-Reachable s (bytes ∷ wire) reached e =
    arrive_a s bytes reached (subst (IsOn bytes) (sym e) last)

arrived_b-Reachable :
    (s : Line DlpEndpoint) (wire : List (List ℕ))
    → Reachable dlp_ops s
    → s.to_b ≡ wire
    → Reachable dlp_ops (arrived_b s wire)
unfolding arrived_b
arrived_b-Reachable s [] reached e = reached
arrived_b-Reachable s (bytes ∷ wire) reached e =
    arrive_b s bytes reached (subst (IsOn bytes) (sym e) last)

trades-Reachable :
    (n : ℕ) (s : Line DlpEndpoint) → Reachable dlp_ops s → Reachable dlp_ops (trades n s)
unfolding trades trade to_a_sent to_b_sent
trades-Reachable zero s reached = reached
trades-Reachable (suc n) s reached =
    let s1 = to_b_sent s in
    let s2 = arrived_b s1 s1.to_b in
    let s3 = to_a_sent s2 in
    let reached2 = arrived_b-Reachable s1 s1.to_b (send_a s reached) refl in
    trades-Reachable n _ (arrived_a-Reachable s3 s3.to_a (send_b s2 reached2) refl)

made_a : Hello.new dlp_ops 1 (config_new 64) 16 ≡ ok end_a
unfolding Hello.new build smolgnet.Control.Managed.Hello.check_config
    smolgnet.Control.Parameters.validate_parameter_value
    smolgnet.Control.Parameters.encode_parameter_units config_new smolgnet.Dlp.Endpoint.set_link_up
made_a = refl

made_b : Hello.new dlp_ops 2 (record (config_new 128) { vc_mode = four }) 8 ≡ ok end_b
unfolding Hello.new build smolgnet.Control.Managed.Hello.check_config
    smolgnet.Control.Parameters.validate_parameter_value
    smolgnet.Control.Parameters.encode_parameter_units config_new smolgnet.Dlp.Endpoint.set_link_up
made_b = refl

start_line-Reachable : Reachable dlp_ops start_line
start_line-Reachable =
    local_b _ _ (local_a _ _ (start end_a end_b 1 2 _ _ 16 8 made_a made_b) raise) raise

abbrev profile_a : DlpNegotiatedProfile
profile_a = record {
  vc_mode = two;
  burst_flits = 8;
  peer_rx_buffer_flits = 128;
  peer_control_window_flits = 32;
}

abbrev profile_b : DlpNegotiatedProfile
profile_b = record profile_a { peer_rx_buffer_flits = 64 }

ended_a : ended.a.negotiation.negotiated ≡ some profile_a
unfolding trades trade arrived_a arrived_b to_a_sent to_b_sent smolgnet.Base.Bytes.to_be_bytes
    smolgnet.Base.Bytes.read_be smolgnet.Base.Bytes.from_be_bytes smolgnet.Control.Frame.opcode_code
    smolgnet.Control.Frame.opcode_from_wire smolgnet.Control.Frame.hello_code
    smolgnet.Control.Frame.hello_from_wire smolgnet.Control.Frame.capability_code
    smolgnet.Control.Frame.capability_from_wire smolgnet.Control.Frame.opcode
    smolgnet.Control.Frame.sender_generation smolgnet.Control.Frame.frame_word
    smolgnet.Control.Frame.encode smolgnet.Control.Frame.decode_frame
    smolgnet.Control.Frame.decode_word smolgnet.Control.Frame.decode
    smolgnet.Control.Parameters.encode_parameter_units
    smolgnet.Control.Parameters.decode_parameter_units smolgnet.Control.Parameters.next_generation
    smolgnet.Control.Parameters.supported_mode_flags smolgnet.Control.Parameters.selected_mode_flag
    smolgnet.Control.Parameters.choose_vc_mode smolgnet.Control.Parameters.choose_rate
    smolgnet.Control.Agreement.Line.sent smolgnet.Control.Managed.Hello.restart_negotiation
    smolgnet.Control.Managed.Hello.carrier_up smolgnet.Control.Managed.Hello.answer_hello
    smolgnet.Control.Managed.Hello.on_hello_initial smolgnet.Control.Managed.Hello.note_hello_ack
    smolgnet.Control.Managed.Hello.on_hello_ack smolgnet.Control.Managed.Hello.on_hello
    smolgnet.Control.Managed.Offers.note_cap_offer
    smolgnet.Control.Managed.Offers.select_capabilities
    smolgnet.Control.Managed.Offers.confirm_capabilities
    smolgnet.Control.Managed.Offers.take_capabilities
    smolgnet.Control.Managed.Offers.note_params_offer
    smolgnet.Control.Managed.Offers.select_parameters
    smolgnet.Control.Managed.Offers.confirm_parameters
    smolgnet.Control.Managed.Offers.take_parameters smolgnet.Control.Managed.Queue.build
    smolgnet.Control.Managed.Queue.push smolgnet.Control.Managed.Queue.clear_negotiation_state
    smolgnet.Control.Managed.Queue.queue_hello_initial
    smolgnet.Control.Managed.Queue.queue_hello_ack smolgnet.Control.Managed.Queue.poll_control
    smolgnet.Control.Managed.Queue.frame_is_current
    smolgnet.Control.Managed.Queue.offer_capabilities
    smolgnet.Control.Managed.Queue.offer_parameters
    smolgnet.Control.Managed.Queue.maybe_start_capability_exchange
    smolgnet.Control.Managed.Session.negotiated_dlp
    smolgnet.Control.Managed.Session.maybe_install_profile
    smolgnet.Control.Managed.Session.on_capabilities
    smolgnet.Control.Managed.Session.on_link_parameters smolgnet.Control.Managed.Session.on_frame
    smolgnet.Control.Managed.Session.receive_control smolgnet.Dlp.config_new
    smolgnet.Endpoint.config_new smolgnet.Dlp.Endpoint.new smolgnet.Dlp.Endpoint.set_link_up
ended_a = refl

ended_b : ended.b.negotiation.negotiated ≡ some profile_b
unfolding trades trade arrived_a arrived_b to_a_sent to_b_sent smolgnet.Base.Bytes.to_be_bytes
    smolgnet.Base.Bytes.read_be smolgnet.Base.Bytes.from_be_bytes smolgnet.Control.Frame.opcode_code
    smolgnet.Control.Frame.opcode_from_wire smolgnet.Control.Frame.hello_code
    smolgnet.Control.Frame.hello_from_wire smolgnet.Control.Frame.capability_code
    smolgnet.Control.Frame.capability_from_wire smolgnet.Control.Frame.opcode
    smolgnet.Control.Frame.sender_generation smolgnet.Control.Frame.frame_word
    smolgnet.Control.Frame.encode smolgnet.Control.Frame.decode_frame
    smolgnet.Control.Frame.decode_word smolgnet.Control.Frame.decode
    smolgnet.Control.Parameters.encode_parameter_units
    smolgnet.Control.Parameters.decode_parameter_units smolgnet.Control.Parameters.next_generation
    smolgnet.Control.Parameters.supported_mode_flags smolgnet.Control.Parameters.selected_mode_flag
    smolgnet.Control.Parameters.choose_vc_mode smolgnet.Control.Parameters.choose_rate
    smolgnet.Control.Agreement.Line.sent smolgnet.Control.Managed.Hello.restart_negotiation
    smolgnet.Control.Managed.Hello.carrier_up smolgnet.Control.Managed.Hello.answer_hello
    smolgnet.Control.Managed.Hello.on_hello_initial smolgnet.Control.Managed.Hello.note_hello_ack
    smolgnet.Control.Managed.Hello.on_hello_ack smolgnet.Control.Managed.Hello.on_hello
    smolgnet.Control.Managed.Offers.note_cap_offer
    smolgnet.Control.Managed.Offers.select_capabilities
    smolgnet.Control.Managed.Offers.confirm_capabilities
    smolgnet.Control.Managed.Offers.take_capabilities
    smolgnet.Control.Managed.Offers.note_params_offer
    smolgnet.Control.Managed.Offers.select_parameters
    smolgnet.Control.Managed.Offers.confirm_parameters
    smolgnet.Control.Managed.Offers.take_parameters smolgnet.Control.Managed.Queue.build
    smolgnet.Control.Managed.Queue.push smolgnet.Control.Managed.Queue.clear_negotiation_state
    smolgnet.Control.Managed.Queue.queue_hello_initial
    smolgnet.Control.Managed.Queue.queue_hello_ack smolgnet.Control.Managed.Queue.poll_control
    smolgnet.Control.Managed.Queue.frame_is_current
    smolgnet.Control.Managed.Queue.offer_capabilities
    smolgnet.Control.Managed.Queue.offer_parameters
    smolgnet.Control.Managed.Queue.maybe_start_capability_exchange
    smolgnet.Control.Managed.Session.negotiated_dlp
    smolgnet.Control.Managed.Session.maybe_install_profile
    smolgnet.Control.Managed.Session.on_capabilities
    smolgnet.Control.Managed.Session.on_link_parameters smolgnet.Control.Managed.Session.on_frame
    smolgnet.Control.Managed.Session.receive_control smolgnet.Dlp.config_new
    smolgnet.Endpoint.config_new smolgnet.Dlp.Endpoint.new smolgnet.Dlp.Endpoint.set_link_up
ended_b = refl

Reachable-IsAgreed_example :
    (profile_a.vc_mode ≡ profile_b.vc_mode)
    × (profile_a.burst_flits ≡ profile_b.burst_flits)
    × (profile_a.peer_rx_buffer_flits ≡ ended.b.endpoint_config.rx_buffer_flits)
    × (profile_b.peer_rx_buffer_flits ≡ ended.a.endpoint_config.rx_buffer_flits)
Reachable-IsAgreed_example =
    Reachable-IsAgreed dlp_ops ended (trades-Reachable 9 start_line start_line-Reachable) profile_a
      profile_b ended_a ended_b

abbrev cable : DlpDirectCable DlpEndpoint
cable = cable_new start_line.a start_line.b

pump_loop-Ends_example : Ends dlp_ops 0 5 cable 0 (pump_loop dlp_ops 6 cable 0 5 0)
pump_loop-Ends_example = pump_loop-Ends dlp_ops cable 0 5

decode-iff-encode_example : (decode (17 ∷ 65 ∷ 4 ∷ 0 ∷ []) ≡ ok (hello acknowledgement 1 1)) ↔ (
    IsFrame (hello acknowledgement 1 1)
    × (encode (hello acknowledgement 1 1) ≡ 17 ∷ 65 ∷ 4 ∷ 0 ∷ []))
decode-iff-encode_example =
    decode-iff-encode (17 ∷ 65 ∷ 4 ∷ 0 ∷ []) (hello acknowledgement 1 1)
      (omega arith, (omega arith, (omega arith, (omega arith, tt))))
