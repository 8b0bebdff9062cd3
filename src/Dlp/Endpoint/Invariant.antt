-- ===== src/Dlp/Endpoint/Invariant.antt =====
-- dlp.rs: what holds of a `DlpEndpoint` between two calls.
use smolgnet.Base.{ℕ, zero, suc, ◌+◌, ◌≤◌, ◌<◌, ◌≡◌, refl, sym, ◌∙◌, List, [], ◌∷◌, arith}
use smolgnet.Base.{Option, none, some, length, get_or, set, All, Bool}
use smolgnet.Base.Words.{IsU32}
use smolgnet.Dlp.{LinkTraffic, control_traffic, data_traffic, RxSegment, TxFrame, VcMode, vc_count}
use smolgnet.Dlp.Endpoint.{DlpEndpoint}
use smolgnet.Dlp.Endpoint.Receive.{lane_of, append_word}

-- The buffer that a segment of a traffic class occupies.
unfoldable pub occupied : LinkTraffic → ℕ → ℕ
occupied control_traffic flits = 0
occupied data_traffic flits = flits

unfoldable pub held : Option RxSegment → ℕ
unfolding occupied
held none = 0
held (some s) = occupied s.traffic s.received_flits

unfoldable pub held_flits : List (Option RxSegment) → ℕ
held_flits [] = 0
held_flits (slot ∷ rx) = held slot + held_flits rx

-- The segment of a slot, if there is one, is of that traffic class.
unfoldable pub IsOnLane : LinkTraffic → Option RxSegment → Type 0
IsOnLane traffic none = Unit
IsOnLane traffic (some s) = s.traffic ≡ traffic

unfoldable pub HasLanes : List (Option RxSegment) → Type 0
unfolding IsOnLane
HasLanes [] = Unit
HasLanes (slot ∷ rx) = IsOnLane control_traffic slot × All (IsOnLane data_traffic) rx

-- A queued frame stands on a channel of its class.
unfoldable pub IsControlFrame : TxFrame → Type 0
IsControlFrame f = (f.traffic ≡ control_traffic) × (f.vcid ≡ 0)

unfoldable pub IsDataFrame : VcMode → TxFrame → Type 0
IsDataFrame mode f = (f.traffic ≡ data_traffic) × (1 ≤ f.vcid) × (f.vcid < vc_count mode)

-- `extra` flits of the buffer are in use for no segment yet; none are between two calls.
pub record IsSoundWith (extra : ℕ) (e : DlpEndpoint) : Type 0 where
  pub buffer_word : IsU32 e.rx_buffer_flits
  pub data_credit_word : IsU32 e.data_tx_credit
  pub control_credit_word : IsU32 e.control_tx_credit
  pub rx_slots : length e.rx ≡ 4
  pub rx_lanes : HasLanes e.rx
  pub rx_in_use : e.data_rx_in_use ≡ held_flits e.rx + extra
  pub credit_bounded : e.data_credit_outstanding + e.data_rx_in_use ≤ e.rx_buffer_flits
  pub next_vc : (1 ≤ e.next_data_vc) × (e.next_data_vc < vc_count e.vc_mode)
  pub control_queue : All IsControlFrame e.control_tx_queue
  pub data_queue : All (IsDataFrame e.vc_mode) e.data_tx_queue

unfoldable pub IsSound : DlpEndpoint → Type 0
IsSound e = IsSoundWith 0 e

pub held-none : held none ≡ 0
unfolding held
held-none = refl

pub held-fresh : (s : RxSegment) → s.received_flits ≡ 0 → held (some s) ≡ 0
unfolding held occupied
held-fresh s h = ground arith

pub held-append_word :
    (s : RxSegment) (traffic : LinkTraffic) (w : ℕ)
    → s.traffic ≡ traffic
    → held (some (append_word s w)) ≡ held (some s) + occupied traffic 1
unfolding held occupied append_word
held-append_word s traffic w h = ground arith

pub held_flits-set :
    (rx : List (Option RxSegment)) (i : ℕ) (slot : Option RxSegment)
    → i < length rx
    → held_flits (set rx i slot) + held (get_or rx i none) ≡ held_flits rx + held slot
unfolding held_flits
held_flits-set [] i slot h = absurd (omega arith)
held_flits-set (x ∷ rx) zero slot h = omega arith
held_flits-set (x ∷ rx) (suc i) slot h = omega (arith, held_flits-set rx i slot (omega arith))

lane_of-suc : (i : ℕ) → lane_of (suc i) ≡ data_traffic
unfolding lane_of
lane_of-suc i = ground arith

pub IsOnLane-at :
    (a b : LinkTraffic) (slot : Option RxSegment) → a ≡ b → IsOnLane a slot → IsOnLane b slot
unfolding IsOnLane
IsOnLane-at a b none e h = tt
IsOnLane-at a b (some s) e h = h ∙ e

All-set :
    (P : Option RxSegment → Type 0) (rx : List (Option RxSegment)) (i : ℕ) (slot : Option RxSegment)
    → All P rx
    → P slot
    → All P (set rx i slot)
All-set P [] i slot h p = h
All-set P (x ∷ rx) zero slot h p = (p, h.1)
All-set P (x ∷ rx) (suc i) slot h p = (h.0, All-set P rx i slot h.1 p)

pub HasLanes-set :
    (rx : List (Option RxSegment)) (i : ℕ) (slot : Option RxSegment)
    → HasLanes rx
    → IsOnLane (lane_of i) slot
    → HasLanes (set rx i slot)
unfolding HasLanes lane_of
HasLanes-set [] i slot h p = h
HasLanes-set (x ∷ rx) zero slot h p = (p, h.1)
HasLanes-set (x ∷ rx) (suc i) slot h p =
    (h.0, All-set (IsOnLane data_traffic) rx i slot h.1 (IsOnLane-at _ _ slot (lane_of-suc i) p))

All-get_or :
    (rx : List (Option RxSegment)) (i : ℕ)
    → All (IsOnLane data_traffic) rx
    → IsOnLane data_traffic (get_or rx i none)
unfolding IsOnLane
All-get_or [] i h = tt
All-get_or (x ∷ rx) zero h = h.0
All-get_or (x ∷ rx) (suc i) h = All-get_or rx i h.1

pub HasLanes-get_or :
    (rx : List (Option RxSegment)) (i : ℕ) → HasLanes rx → IsOnLane (lane_of i) (get_or rx i none)
unfolding HasLanes lane_of IsOnLane
HasLanes-get_or [] i h = tt
HasLanes-get_or (x ∷ rx) zero h = h.0
HasLanes-get_or (x ∷ rx) (suc i) h =
    IsOnLane-at _ _ (get_or rx i none) (sym (lane_of-suc i)) (All-get_or rx i h.1)

-- A change of the receiver alone.
pub IsSoundWith-receiver :
    (n m : ℕ) (e : DlpEndpoint) (rx : List (Option RxSegment)) (lost : List Bool)
    (credit in_use : ℕ)
    → IsSoundWith n e
    → length rx ≡ 4
    → HasLanes rx
    → in_use ≡ held_flits rx + m
    → credit + in_use ≤ e.rx_buffer_flits
    → IsSoundWith m (record e {
      rx = rx;
      desynchronized = lost;
      data_credit_outstanding = credit;
      data_rx_in_use = in_use;
    })
IsSoundWith-receiver n m e rx lost credit in_use v slots lanes used bounded = record {
  buffer_word = v.buffer_word;
  data_credit_word = v.data_credit_word;
  control_credit_word = v.control_credit_word;
  rx_slots = slots;
  rx_lanes = lanes;
  rx_in_use = used;
  credit_bounded = bounded;
  next_vc = v.next_vc;
  control_queue = v.control_queue;
  data_queue = v.data_queue;
}

-- A change of the sender alone.
pub IsSound-sender :
    (e : DlpEndpoint) (cq dq : List TxFrame) (control_credit data_credit : ℕ)
    → IsSound e
    → IsU32 control_credit
    → IsU32 data_credit
    → All IsControlFrame cq
    → All (IsDataFrame e.vc_mode) dq
    → IsSound (record e {
      control_tx_queue = cq;
      control_tx_credit = control_credit;
      data_tx_queue = dq;
      data_tx_credit = data_credit;
    })
unfolding IsSound
IsSound-sender e cq dq control_credit data_credit v cw dw hc hd = record {
  buffer_word = v.buffer_word;
  data_credit_word = dw;
  control_credit_word = cw;
  rx_slots = v.rx_slots;
  rx_lanes = v.rx_lanes;
  rx_in_use = v.rx_in_use;
  credit_bounded = v.credit_bounded;
  next_vc = v.next_vc;
  control_queue = hc;
  data_queue = hd;
}
