-- ===== src/Dlp/Link/CreditSafety.antt =====
-- dlp_v01.rs: two links and the wire between them. The credit that the sender holds and the data
-- flits on the wire never exceed what the receiver has advertised.
use smolgnet.Base.{ℕ, ◌+◌, ◌≤◌, ◌≡◌, refl, ap, subst, arith, true, false, List, [], ◌∷◌, ◌++◌}
use smolgnet.Base.{Option}
use smolgnet.Base.Words.{sat_add32, IsU32}
use smolgnet.Base.Results.{Result, ok, err, FailsWith, ◌then_ok◌, guard-then_ok}
use smolgnet.Base.Results.{link_down, ok-injective, ◌>>=◌}
use smolgnet.Wire.Gdp.Packet.{GdpPacket}
use smolgnet.Wire.Gdp.Header.Errors.{is_credit_error, IsOtherError}
use smolgnet.Dlp.{Flit, DlpConfig}
use smolgnet.Dlp.Endpoint.{
  DlpEndpoint, note_data_credit_granted, grant_data_tx_credit, grantable_data_credit,
  available_rx_flits,
}
use smolgnet.Dlp.Endpoint
use smolgnet.Dlp.Endpoint.Transmit
use smolgnet.Dlp.Endpoint.Receive
use smolgnet.Dlp.Endpoint.Receive.{lane_of}
use smolgnet.Dlp.Endpoint.Receive.Sound.{receive-IsSound}
use smolgnet.Dlp.Endpoint.Receive.Credit.{receive-HasCredit, receive-IsOtherError}
use smolgnet.Dlp.Endpoint.Invariant.{IsSound}
use smolgnet.Dlp.Endpoint.Transmit.Sound.{poll_tx_burst-IsSound}
use smolgnet.Dlp.Endpoint.Operations.{
  new-IsSound, queue_data_packet-credit, queue_control_packet-credit,
}
use smolgnet.Dlp.Endpoint.Operations.{
  queue_data_packet-IsSound, queue_control_packet-IsSound, set_link_up-IsSound,
}
use smolgnet.Dlp.Endpoint.Operations.{
  note_data_credit_granted-cases, IsSound-advertised, grant_data_tx_credit-IsSound,
}
use smolgnet.Dlp.Endpoint.Operations.{grant_control_tx_credit-IsSound}
use smolgnet.Dlp.Link.{
  DlpLink, new, down, is_up, require_up, with_endpoint, beside_sender, begin_recovery,
  complete_recovery, reset,
}
use smolgnet.Dlp.Link.{queue_data_packet, queue_control_packet, poll_tx_burst, receive}
use smolgnet.Dlp.Link.{grant_peer_data_credit, grant_peer_control_credit}
use smolgnet.Dlp.Link.Cases.{with_endpoint-cases, begin_recovery-cases, complete_recovery-cases}
use smolgnet.Dlp.Link.Cases.{grant_peer_control_credit-cases}
use smolgnet.Dlp.Link.Cost.{
  data_flits, sent, data_flits-append, data_flits-nil, data_flits-cons, poll_tx_burst-cost,
}

-- One direction of a connection.
pub record Connection : Type 0 where
  pub receiver : DlpLink
  pub sender : DlpLink
  pub wire : List Flit

pub data ConnectionStep : Connection → Connection → Type 0 where
  data_granted :
      {c : Connection} (count : ℕ)
      → ConnectionStep c (record c {
        receiver = (grant_peer_data_credit (c.receiver, c.sender) count).0.0;
        sender = (grant_peer_data_credit (c.receiver, c.sender) count).0.1;
      })
  control_granted :
      {c : Connection} (count : ℕ)
      → ConnectionStep c (record c { sender = (grant_peer_control_credit c.sender count).0 })
  data_queued :
      {c : Connection} (packet : GdpPacket)
      → ConnectionStep c (record c { sender = (queue_data_packet c.sender packet).0 })
  control_queued :
      {c : Connection} (packet : GdpPacket)
      → ConnectionStep c (record c { sender = (queue_control_packet c.sender packet).0 })
  burst_sent :
      {c : Connection} (room : ℕ)
      → ConnectionStep c (record c {
        sender = (poll_tx_burst c.sender room).0;
        wire = c.wire ++ sent (poll_tx_burst c.sender room).1;
      })
  delivered :
      {c : Connection} (flit : Flit) (rest : List Flit)
      → c.wire ≡ flit ∷ rest
      → ConnectionStep c (record c { receiver = (receive c.receiver flit).0; wire = rest })
  -- A flit is lost.
  dropped :
      {c : Connection} (flit : Flit) (rest : List Flit)
      → c.wire ≡ flit ∷ rest
      → ConnectionStep c (record c { wire = rest })
  sender_reset : {c : Connection} → ConnectionStep c (record c { sender = reset c.sender })
  -- Both forget the credit, the receiver's advertisement with the sender's balance. A data flit that
  -- is still on the wire would then come unpaid.
  both_reset :
      {c : Connection}
      → data_flits c.wire ≡ 0
      → ConnectionStep c (record c { receiver = reset c.receiver; sender = reset c.sender })
  receiver_recovering :
      {c : Connection} → ConnectionStep c (record c { receiver = (begin_recovery c.receiver).0 })
  sender_recovering :
      {c : Connection} → ConnectionStep c (record c { sender = (begin_recovery c.sender).0 })
  receiver_recovered :
      {c : Connection} → ConnectionStep c (record c { receiver = (complete_recovery c.receiver).0 })
  sender_recovered :
      {c : Connection} → ConnectionStep c (record c { sender = (complete_recovery c.sender).0 })

-- From two new links, with nothing on the wire.
pub data IsConnected (receiver_config sender_config : DlpConfig) : Connection → Type 0 where
  started :
      {receiver sender : DlpLink}
      → new receiver_config ≡ ok receiver
      → new sender_config ≡ ok sender
      → IsConnected receiver_config sender_config
          (record { receiver = receiver; sender = sender; wire = [] })
  advanced :
      {c d : Connection}
      → IsConnected receiver_config sender_config c
      → ConnectionStep c d
      → IsConnected receiver_config sender_config d

pub record IsPaid (c : Connection) : Type 0 where
  pub receiver_sound : IsSound c.receiver.endpoint
  pub sender_sound : IsSound c.sender.endpoint
  pub covered :
      c.sender.endpoint.data_tx_credit + data_flits c.wire
      ≤ c.receiver.endpoint.data_credit_outstanding

-- Changing the sender without its data credit.
IsPaid-sender :
    (c : Connection) (s : DlpLink)
    → IsPaid c
    → IsSound s.endpoint
    → s.endpoint.data_tx_credit ≤ c.sender.endpoint.data_tx_credit
    → IsPaid (record c { sender = s })
IsPaid-sender c s v sound less = record {
  receiver_sound = v.receiver_sound;
  sender_sound = sound;
  covered = omega (arith, v.covered, less);
}

IsPaid-burst :
    (c : Connection) (room : ℕ)
    → IsPaid c
    → IsPaid (record c {
      sender = (poll_tx_burst c.sender room).0;
      wire = c.wire ++ sent (poll_tx_burst c.sender room).1;
    })
unfolding poll_tx_burst with_endpoint data_flits sent
IsPaid-burst c room v =
    with_endpoint-cases P c.sender (λ e. Transmit.poll_tx_burst e room)
      (record {
        receiver_sound = v.receiver_sound;
        sender_sound = v.sender_sound;
        covered = omega (arith, v.covered, data_flits-append c.wire []);
      })
      (record {
        receiver_sound = v.receiver_sound;
        sender_sound = poll_tx_burst-IsSound e room v.sender_sound;
        covered = omega (
          arith,
          v.covered,
          poll_tx_burst-cost e room v.sender_sound,
          data_flits-append c.wire (sent (Transmit.poll_tx_burst e room).1),
        );
      })
  where
    e : DlpEndpoint
    e = c.sender.endpoint

    P : DlpLink × Result (List Flit) → Type 0
    P r = IsPaid (record c { sender = r.0; wire = c.wire ++ sent r.1 })

IsPaid-delivered :
    (c : Connection) (flit : Flit) (rest : List Flit)
    → c.wire ≡ flit ∷ rest
    → IsPaid c
    → IsPaid (record c { receiver = (receive c.receiver flit).0; wire = rest })
unfolding receive with_endpoint
IsPaid-delivered c flit rest h v =
    with_endpoint-cases P c.receiver (λ e. Receive.receive e flit)
      (record {
        receiver_sound = v.receiver_sound;
        sender_sound = v.sender_sound;
        covered = omega (arith, v.covered, ap data_flits h, data_flits-cons flit rest);
      })
      (record {
        receiver_sound = receive-IsSound c.receiver.endpoint flit v.receiver_sound;
        sender_sound = v.sender_sound;
        covered =
            receive-HasCredit (c.sender.endpoint.data_tx_credit + data_flits rest)
              c.receiver.endpoint flit
              (omega (arith, v.covered, ap data_flits h, data_flits-cons flit rest));
      })
  where
    P : DlpLink × Result (Option GdpPacket) → Type 0
    P r = IsPaid (record c { receiver = r.0; wire = rest })

IsPaid-granted :
    (c : Connection) (count : ℕ)
    → IsPaid c
    → IsPaid (record c {
      receiver = (grant_peer_data_credit (c.receiver, c.sender) count).0.0;
      sender = (grant_peer_data_credit (c.receiver, c.sender) count).0.1;
    })
unfolding grant_peer_data_credit require_up with_endpoint beside_sender IsSound
    grantable_data_credit available_rx_flits grant_data_tx_credit
IsPaid-granted c count v =
    guard-then_ok P (c.receiver, c.sender) (is_up c.receiver.state) link_down _ v
      (guard-then_ok P (c.receiver, c.sender) (is_up c.sender.state) link_down _ v
        (note_data_credit_granted-cases
          (λ n. P (beside_sender c.sender (with_endpoint c.receiver n) then_ok grant)) r count v
          λ fits. record {
            receiver_sound = IsSound-advertised r count v.receiver_sound fits;
            sender_sound = grant_data_tx_credit-IsSound s count v.sender_sound;
            covered = covers fits;
          }))
  where
    r : DlpEndpoint
    r = c.receiver.endpoint

    s : DlpEndpoint
    s = c.sender.endpoint

    P : (DlpLink × DlpLink) × Result (Unit {0}) → Type 0
    P n = IsPaid (record c { receiver = n.0.0; sender = n.0.1 })

    grant : DlpLink × DlpLink → Unit {0} → (DlpLink × DlpLink) × Result (Unit {0})
    grant links u = (
      (links.0, record links.1 { endpoint = grant_data_tx_credit links.1.endpoint count }),
      ok tt,
    )

    covers :
        count ≤ grantable_data_credit r
        → (grant_data_tx_credit s count).data_tx_credit + data_flits c.wire
          ≤ sat_add32 r.data_credit_outstanding count
    covers fits =
        omega
          (arith, fits, v.covered, v.receiver_sound.credit_bounded, v.receiver_sound.buffer_word)

step-IsPaid : {c d : Connection} → ConnectionStep c d → IsPaid c → IsPaid d
unfolding Endpoint.grant_control_tx_credit queue_data_packet queue_control_packet with_endpoint
    reset Endpoint.set_link_up
step-IsPaid (data_granted {c = c} count) v = IsPaid-granted c count v
step-IsPaid (control_granted {c = c} count) v =
    grant_peer_control_credit-cases (λ r. IsPaid (record c { sender = r.0 })) c.sender count v
      (IsPaid-sender c _ v (grant_control_tx_credit-IsSound _ count v.sender_sound) (omega arith))
step-IsPaid (data_queued {c = c} packet) v =
    with_endpoint-cases (λ r. IsPaid (record c { sender = r.0 })) c.sender
      (λ e. Endpoint.queue_data_packet e packet) v
      (IsPaid-sender c _ v (queue_data_packet-IsSound _ packet v.sender_sound)
        (omega (arith, queue_data_packet-credit c.sender.endpoint packet)))
step-IsPaid (control_queued {c = c} packet) v =
    with_endpoint-cases (λ r. IsPaid (record c { sender = r.0 })) c.sender
      (λ e. Endpoint.queue_control_packet e packet) v
      (IsPaid-sender c _ v (queue_control_packet-IsSound _ packet v.sender_sound)
        (omega (arith, queue_control_packet-credit c.sender.endpoint packet)))
step-IsPaid (burst_sent {c = c} room) v = IsPaid-burst c room v
step-IsPaid (delivered {c = c} flit rest h) v = IsPaid-delivered c flit rest h v
step-IsPaid (dropped {c = c} flit rest h) v = record {
  receiver_sound = v.receiver_sound;
  sender_sound = v.sender_sound;
  covered = omega (arith, v.covered, ap data_flits h, data_flits-cons flit rest);
}
step-IsPaid (sender_reset {c = c}) v =
    IsPaid-sender c _ v (set_link_up-IsSound _ false v.sender_sound) (omega arith)
step-IsPaid (both_reset {c = c} no_data) v = record {
  receiver_sound = set_link_up-IsSound _ false v.receiver_sound;
  sender_sound = set_link_up-IsSound _ false v.sender_sound;
  covered = omega (arith, no_data);
}
step-IsPaid (receiver_recovering {c = c}) v =
    begin_recovery-cases (λ r. IsPaid (record c { receiver = r.0 })) c.receiver v
      (record {
        receiver_sound = set_link_up-IsSound _ true v.receiver_sound;
        sender_sound = v.sender_sound;
        covered = v.covered;
      })
step-IsPaid (sender_recovering {c = c}) v =
    begin_recovery-cases (λ r. IsPaid (record c { sender = r.0 })) c.sender v
      (IsPaid-sender c _ v (set_link_up-IsSound _ true v.sender_sound) (omega arith))
step-IsPaid (receiver_recovered {c = c}) v =
    complete_recovery-cases (λ r. IsPaid (record c { receiver = r.0 })) c.receiver v
      (record {
        receiver_sound = v.receiver_sound;
        sender_sound = v.sender_sound;
        covered = v.covered;
      })
step-IsPaid (sender_recovered {c = c}) v =
    complete_recovery-cases (λ r. IsPaid (record c { sender = r.0 })) c.sender v
      (IsPaid-sender c _ v v.sender_sound (omega arith))

new-endpoint :
    (config : DlpConfig) (l : DlpLink)
    → IsU32 config.rx_buffer_flits
    → new config ≡ ok l
    → IsSound l.endpoint × (l.endpoint.data_tx_credit ≡ 0)
unfolding new Endpoint.set_link_up
new-endpoint config l word h = go (Endpoint.new config) refl h
  where
    Good : DlpLink → Type 0
    Good k = IsSound k.endpoint × (k.endpoint.data_tx_credit ≡ 0)

    made : DlpEndpoint → DlpLink
    made e = record { endpoint = Endpoint.set_link_up e false; state = down; generation = 0 }

    go :
        (r : Result DlpEndpoint)
        → Endpoint.new config ≡ r
        → (r >>= λ e. ok (made e)) ≡ ok l
        → Good l
    go (ok e) is h =
        subst Good (ok-injective (made e) l h)
          (set_link_up-IsSound e false (new-IsSound config e word is), refl)
    go (err x) is h = absurd (ground (arith, h))

connected-IsPaid :
    (rc sc : DlpConfig) (c : Connection)
    → IsU32 rc.rx_buffer_flits
    → IsU32 sc.rx_buffer_flits
    → IsConnected rc sc c
    → IsPaid c
connected-IsPaid rc sc c rw' sw (started {receiver = r} {sender = s} hr hs) = record {
  receiver_sound = (new-endpoint rc r rw' hr).0;
  sender_sound = (new-endpoint sc s sw hs).0;
  covered = omega (arith, (new-endpoint sc s sw hs).1, data_flits-nil);
}
connected-IsPaid rc sc c rw' sw (advanced {c = before} reached step) =
    step-IsPaid step (connected-IsPaid rc sc before rw' sw reached)

-- Credit safety. Two links start new, with 32-bit buffer sizes and nothing on the wire between them.
-- Whatever they do from there (grants, queueing, bursts, deliveries, losses on the wire, resets of
-- the sender, resets of both ends while no data flit is on the wire, recovery), the receiver never
-- refuses the flit at the head of the wire for want of credit or of room.
pub delivery-IsOtherError :
    (receiver_config sender_config : DlpConfig) (c : Connection) (flit : Flit) (rest : List Flit)
    → IsU32 receiver_config.rx_buffer_flits
    → IsU32 sender_config.rx_buffer_flits
    → IsConnected receiver_config sender_config c
    → c.wire ≡ flit ∷ rest
    → FailsWith IsOtherError (receive c.receiver flit).1
unfolding receive with_endpoint FailsWith IsOtherError is_credit_error
delivery-IsOtherError rc sc c flit rest rword sword reached h =
    with_endpoint-cases (λ r. FailsWith IsOtherError r.1) c.receiver (λ e. Receive.receive e flit)
      refl
      (receive-IsOtherError c.receiver.endpoint flit paid.receiver_sound
        (omega (arith, paid.covered, ap data_flits h, data_flits-cons flit rest)))
  where
    paid : IsPaid c
    paid = connected-IsPaid rc sc c rword sword reached
