-- ===== src/Dlp/Endpoint/Operations.antt =====
-- dlp.rs: construction, credit, link state and queueing keep the endpoint sound.
use smolgnet.Base.{ℕ, ◌+◌, ◌≤◌, ◌<◌, ◌≡◌, refl, subst, arith, bit_and, Bool, true, false}
use smolgnet.Base.{
  [], ◌∷◌, All-append, Bool-cases, if_true, if_false, inl, inr, replicate, none, ltb, leb,
  if◌then◌else◌,
}
use smolgnet.Base.Results.{
  Result, ok, err, buffer_full, Leaves, then_ok-Leaves, Leaves-object, Leaves-of,
}
use smolgnet.Base.Words.{IsU32, sat_add32}
use smolgnet.Dlp.{
  LinkTraffic, control_traffic, data_traffic, VcMode, two, four, vc_count, DlpConfig, TxFrame,
}
use smolgnet.Wire.Gdp.{prefix_bits}
use smolgnet.Wire.Gdp.Packet.{GdpPacket}
use smolgnet.Wire.Gdp.Packet
use smolgnet.Dlp.Endpoint.{
  DlpEndpoint, new, note_data_credit_granted, grantable_data_credit, check_lane,
}
use smolgnet.Dlp.Endpoint.{
  grant_data_tx_credit, grant_control_tx_credit, set_link_up, set_local_prefix,
}
use smolgnet.Dlp.Endpoint.{choose_data_vc, queue_packet_on, queue_control_packet, queue_data_packet}
use smolgnet.Dlp.Endpoint.{push_frame, available_rx_flits}
use smolgnet.Dlp.Endpoint.Invariant.{
  IsSound, IsControlFrame, IsDataFrame, IsSound-sender, held_flits, held, IsOnLane, HasLanes,
}
use smolgnet.Dlp.Endpoint.Invariant.{IsSoundWith-receiver}

-- With nothing queued, received, granted or advertised an endpoint is sound, whatever the link.
IsSound-idle :
    (e : DlpEndpoint) (up : Bool)
    → IsU32 e.rx_buffer_flits
    → (1 ≤ e.next_data_vc) × (e.next_data_vc < vc_count e.vc_mode)
    → IsSound (record e {
      data_tx_credit = 0;
      control_tx_credit = 0;
      data_credit_outstanding = 0;
      data_rx_in_use = 0;
      control_tx_queue = [];
      data_tx_queue = [];
      rx = replicate 4 none;
      desynchronized = replicate 4 false;
      link_up = up;
    })
unfolding IsSound held_flits held HasLanes IsOnLane
IsSound-idle e up word vc = record {
  buffer_word = word;
  data_credit_word = omega arith;
  control_credit_word = omega arith;
  rx_slots = refl;
  rx_lanes = (tt, (tt, (tt, (tt, tt))));
  rx_in_use = refl;
  credit_bounded = omega arith;
  next_vc = vc;
  control_queue = tt;
  data_queue = tt;
}

vc_count-past_one : (mode : VcMode) → (1 ≤ 1) × (1 < vc_count mode)
unfolding vc_count
vc_count-past_one two = (omega arith, omega arith)
vc_count-past_one four = (omega arith, omega arith)

blank : DlpConfig → DlpEndpoint
blank config = record {
  cfg = config.gdp;
  local_prefix = bit_and config.local_prefix prefix_bits;
  vc_mode = config.vc_mode;
  rx_buffer_flits = config.rx_buffer_flits;
  control_window_flits = config.control_window_flits;
  data_tx_credit = 0;
  control_tx_credit = 0;
  data_credit_outstanding = 0;
  data_rx_in_use = 0;
  control_tx_queue = [];
  data_tx_queue = [];
  rx = replicate 4 none;
  desynchronized = replicate 4 false;
  next_data_vc = 1;
  link_up = true;
}

new-blank : (config : DlpConfig) (e : DlpEndpoint) → new config ≡ ok e → blank config ≡ e
unfolding new blank
new-blank config e h = ground (arith, h)

-- A new endpoint is sound.
pub new-IsSound :
    (config : DlpConfig) (e : DlpEndpoint)
    → IsU32 config.rx_buffer_flits
    → new config ≡ ok e
    → IsSound e
unfolding blank
new-IsSound config e word h =
    subst IsSound (new-blank config e h)
      (IsSound-idle (blank config) true word (vc_count-past_one config.vc_mode))

pub note_data_credit_granted-cases {ℓ} :
    (P : DlpEndpoint × Result (Unit {0}) → Type ℓ) (e : DlpEndpoint) (count : ℕ)
    → P (e, err buffer_full)
    → (count ≤ grantable_data_credit e
        → P (
          record e { data_credit_outstanding = sat_add32 e.data_credit_outstanding count },
          ok tt,
        ))
    → P (note_data_credit_granted e count)
unfolding note_data_credit_granted
note_data_credit_granted-cases P e count refused granted =
    elim (Bool-cases (ltb (grantable_data_credit e) count)) [
      | inl past ↦ if_true P _ _ _ past refused
      | inr fits ↦ if_false P _ _ _ fits (granted (ground (arith, fits)))
    ]

-- An advertisement that fits the free buffer.
pub IsSound-advertised :
    (e : DlpEndpoint) (count : ℕ)
    → IsSound e
    → count ≤ grantable_data_credit e
    → IsSound (record e { data_credit_outstanding = sat_add32 e.data_credit_outstanding count })
unfolding IsSound grantable_data_credit available_rx_flits
IsSound-advertised e count v fits =
    IsSoundWith-receiver 0 0 e e.rx e.desynchronized (sat_add32 e.data_credit_outstanding count)
      e.data_rx_in_use v v.rx_slots v.rx_lanes v.rx_in_use (omega (arith, fits, v.credit_bounded))

pub note_data_credit_granted-IsSound :
    (e : DlpEndpoint) (count : ℕ) → IsSound e → IsSound (note_data_credit_granted e count).0
note_data_credit_granted-IsSound e count v =
    note_data_credit_granted-cases (λ (n : DlpEndpoint × Result (Unit {0})). IsSound n.0) e count v
      (IsSound-advertised e count v)

pub grant_data_tx_credit-IsSound :
    (e : DlpEndpoint) (count : ℕ) → IsSound e → IsSound (grant_data_tx_credit e count)
unfolding grant_data_tx_credit IsSound
grant_data_tx_credit-IsSound e count v =
    IsSound-sender e e.control_tx_queue e.data_tx_queue e.control_tx_credit _ v
      v.control_credit_word (omega arith) v.control_queue v.data_queue

pub grant_control_tx_credit-IsSound :
    (e : DlpEndpoint) (count : ℕ) → IsSound e → IsSound (grant_control_tx_credit e count)
unfolding grant_control_tx_credit IsSound
grant_control_tx_credit-IsSound e count v =
    IsSound-sender e e.control_tx_queue e.data_tx_queue _ e.data_tx_credit v (omega arith)
      v.data_credit_word v.control_queue v.data_queue

IsSound-untouched :
    (e : DlpEndpoint) (prefix : ℕ) (up : Bool)
    → IsSound e
    → IsSound (record e { local_prefix = prefix; link_up = up })
unfolding IsSound
IsSound-untouched e prefix up v = record {
  buffer_word = v.buffer_word;
  data_credit_word = v.data_credit_word;
  control_credit_word = v.control_credit_word;
  rx_slots = v.rx_slots;
  rx_lanes = v.rx_lanes;
  rx_in_use = v.rx_in_use;
  credit_bounded = v.credit_bounded;
  next_vc = v.next_vc;
  control_queue = v.control_queue;
  data_queue = v.data_queue;
}

IsSound-next_vc :
    (e : DlpEndpoint) (vc : ℕ)
    → IsSound e
    → (1 ≤ vc) × (vc < vc_count e.vc_mode)
    → IsSound (record e { next_data_vc = vc })
unfolding IsSound
IsSound-next_vc e vc v h = record {
  buffer_word = v.buffer_word;
  data_credit_word = v.data_credit_word;
  control_credit_word = v.control_credit_word;
  rx_slots = v.rx_slots;
  rx_lanes = v.rx_lanes;
  rx_in_use = v.rx_in_use;
  credit_bounded = v.credit_bounded;
  next_vc = h;
  control_queue = v.control_queue;
  data_queue = v.data_queue;
}

pub set_local_prefix-IsSound :
    (e : DlpEndpoint) (prefix : ℕ) → IsSound e → IsSound (set_local_prefix e prefix)
unfolding set_local_prefix
set_local_prefix-IsSound e prefix v = IsSound-untouched e _ e.link_up v

pub set_link_up-IsSound : (e : DlpEndpoint) (up : Bool) → IsSound e → IsSound (set_link_up e up)
unfolding set_link_up IsSound held_flits HasLanes
set_link_up-IsSound e true v = IsSound-untouched e e.local_prefix true v
set_link_up-IsSound e false v = IsSound-idle e false v.buffer_word v.next_vc

pub choose_data_vc-IsSound : (e : DlpEndpoint) → IsSound e → IsSound (choose_data_vc e).0
unfolding choose_data_vc IsSound vc_count
choose_data_vc-IsSound e v = IsSound-next_vc e _ v (chosen e.vc_mode e.next_data_vc v.next_vc)
  where
    chosen :
        (mode : VcMode) (vc : ℕ)
        → (1 ≤ vc) × (vc < vc_count mode)
        → (1 ≤ (if leb (vc_count mode) (vc + 1) then 1 else vc + 1))
          × ((if leb (vc_count mode) (vc + 1) then 1 else vc + 1) < vc_count mode)
    chosen two vc h = ground (arith, h)
    chosen four vc h = ground (arith, h)

-- `queue_packet_on` takes a packet only on a channel of its class.
IsSound-push_frame :
    (e : DlpEndpoint) (traffic : LinkTraffic) (f : TxFrame)
    → IsSound e
    → check_lane e traffic f.vcid ≡ ok tt
    → f.traffic ≡ traffic
    → IsSound (push_frame e traffic f)
unfolding push_frame check_lane IsControlFrame IsDataFrame IsSound
IsSound-push_frame e control_traffic f v lane same =
    IsSound-sender e _ e.data_tx_queue e.control_tx_credit e.data_tx_credit v v.control_credit_word
      v.data_credit_word
      (All-append _ e.control_tx_queue (f ∷ []) v.control_queue ((same, ground (arith, lane)), tt))
      v.data_queue
IsSound-push_frame e data_traffic f v lane same =
    IsSound-sender e e.control_tx_queue _ e.control_tx_credit e.data_tx_credit v
      v.control_credit_word v.data_credit_word v.control_queue
      (All-append _ e.data_tx_queue (f ∷ []) v.data_queue
        ((same, ground (arith, lane), ground (arith, lane)), tt))

Leaves-checked :
    (e : DlpEndpoint) (traffic : LinkTraffic) (vcid : ℕ) (r : Result (Unit {0}))
    → IsSound e
    → check_lane e traffic vcid ≡ r
    → Leaves (λ s u. IsSound s × (check_lane s traffic vcid ≡ ok tt)) IsSound (e, r)
unfolding Leaves
Leaves-checked e traffic vcid (ok u) v h = (v, h)
Leaves-checked e traffic vcid (err x) v h = v

IsLaned : LinkTraffic → ℕ → DlpEndpoint → Type 0
IsLaned traffic vcid s = IsSound s × (check_lane s traffic vcid ≡ ok tt)

Leaves-IsLaned :
    {A : Type 0} (e : DlpEndpoint) (traffic : LinkTraffic) (vcid : ℕ) (r : Result A)
    → IsLaned traffic vcid e
    → Leaves (λ s a. IsLaned traffic vcid s) IsSound (e, r)
unfolding Leaves IsLaned
Leaves-IsLaned e traffic vcid (ok a) v = v
Leaves-IsLaned e traffic vcid (err x) v = v.0

-- Queueing keeps the endpoint sound: a frame enters the queue of its class, on a channel of it.
pub queue_packet_on-IsSound :
    (e : DlpEndpoint) (traffic : LinkTraffic) (vcid : ℕ) (packet : GdpPacket)
    → IsSound e
    → IsSound (queue_packet_on e traffic vcid packet).0
unfolding queue_packet_on IsLaned Leaves
queue_packet_on-IsSound e traffic vcid packet v =
    Leaves-object IsSound (queue_packet_on e traffic vcid packet) (
      then_ok-Leaves (λ s u. IsLaned traffic vcid s) (λ s n. IsSound s) IsSound
        (e, check_lane e traffic vcid) _ (Leaves-checked e traffic vcid _ v refl)
        λ s u laned.
          then_ok-Leaves (λ o bytes. IsLaned traffic vcid o) (λ o n. IsSound o) IsSound
            (s, Packet.encode packet s.cfg) _ (Leaves-IsLaned s traffic vcid _ laned)
            λ o bytes w. IsSound-push_frame o traffic _ w.0 w.1 refl)

pub queue_control_packet-IsSound :
    (e : DlpEndpoint) (packet : GdpPacket) → IsSound e → IsSound (queue_control_packet e packet).0
unfolding queue_control_packet
queue_control_packet-IsSound e packet v = queue_packet_on-IsSound e _ _ packet v

pub queue_data_packet-IsSound :
    (e : DlpEndpoint) (packet : GdpPacket) → IsSound e → IsSound (queue_data_packet e packet).0
unfolding queue_data_packet
queue_data_packet-IsSound e packet v =
    queue_packet_on-IsSound _ _ _ packet (choose_data_vc-IsSound e v)

-- Queueing spends no credit.
queue_packet_on-credit :
    (e : DlpEndpoint) (traffic : LinkTraffic) (vcid : ℕ) (packet : GdpPacket)
    → (queue_packet_on e traffic vcid packet).0.data_tx_credit ≡ e.data_tx_credit
unfolding queue_packet_on Leaves push_frame
queue_packet_on-credit e traffic vcid packet =
    Leaves-object Q (queue_packet_on e traffic vcid packet) (
      then_ok-Leaves (λ s u. Q s) (λ s n. Q s) Q (e, check_lane e traffic vcid) _
        (Leaves-of Q (e, check_lane e traffic vcid) refl)
        λ s u h.
          then_ok-Leaves (λ o bytes. Q o) (λ o n. Q o) Q (s, Packet.encode packet s.cfg) _
            (Leaves-of Q (s, Packet.encode packet s.cfg) h) λ o bytes h'. pushed o traffic _ h')
  where
    Q : DlpEndpoint → Type 0
    Q s = s.data_tx_credit ≡ e.data_tx_credit

    pushed : (o : DlpEndpoint) (t : LinkTraffic) (f : TxFrame) → Q o → Q (push_frame o t f)
    pushed o control_traffic f h = h
    pushed o data_traffic f h = h

pub queue_control_packet-credit :
    (e : DlpEndpoint) (packet : GdpPacket)
    → (queue_control_packet e packet).0.data_tx_credit ≡ e.data_tx_credit
unfolding queue_control_packet
queue_control_packet-credit e packet = queue_packet_on-credit e _ _ packet

pub queue_data_packet-credit :
    (e : DlpEndpoint) (packet : GdpPacket)
    → (queue_data_packet e packet).0.data_tx_credit ≡ e.data_tx_credit
unfolding queue_data_packet choose_data_vc
queue_data_packet-credit e packet = queue_packet_on-credit (choose_data_vc e).0 _ _ packet
