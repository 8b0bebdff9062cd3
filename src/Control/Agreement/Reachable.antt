-- ===== src/Control/Agreement/Reachable.antt =====
-- dlp_control.rs: what two managed endpoints settle on.
use smolgnet.Base.{ℕ, ◌≡◌, ◌∙◌, refl, ap, sym, List, [], ◌∷◌, All, arith, some}
use smolgnet.Base.Results.{Result, ok, err, ◌>>=◌, Returns, Returns-ok}
use smolgnet.Wire.Gdp.{GdpAddress}
use smolgnet.Endpoint.{EndpointConfig, LinkOps}
use smolgnet.Control.Parameters.Laws.{agreed_comm}
use smolgnet.Control.Frame.{DlpControlFrame, encode}
use smolgnet.Control.Frame.RoundTrip.{decode-encode_frame}
use smolgnet.Control.Managed.{DlpManagedEndpoint, DlpNegotiatedProfile}
use smolgnet.Control.Managed.Queue.{build, poll_control}
use smolgnet.Control.Managed.Hello.{check_config, new}
use smolgnet.Control.Managed.Session.{receive_control}
use smolgnet.Control.Agreement.{Terms, terms_of, Fills, profile_of, Fits, IsSaid, IsEnd}
use smolgnet.Control.Agreement.Steps.{Fills-some}
use smolgnet.Control.Agreement.Buffers.{min_comm}
use smolgnet.Control.Agreement.Hello.{
  refresh-IsEnd, carrier_up-IsEnd, carrier_down-IsEnd, request_reset-IsEnd,
}
use smolgnet.Control.Agreement.Session.{on_frame-IsEnd}
use smolgnet.Control.Agreement.Traffic.{
  managed_poll_tx_flit-IsEnd, managed_poll_tx_frame-IsEnd, managed_receive_flit-IsEnd,
  managed_receive_frame-IsEnd, bind_credit_peer-IsEnd, finish_credit_sync-IsEnd,
}
use smolgnet.Control.Agreement.Line.{
  Line, sent, IsOn, last, earlier, LocalStep, raise, lower, reset_link, send_flit, send_frame,
  take_flit, take_frame, bind, finish, work, Reachable, start, local_a, local_b, send_a, send_b,
  arrive_a, arrive_b,
}

pub bind-Returns {ℓ κ} :
    {A : Type ℓ} {B : Type κ} (P : B → Type 0) (m : Result A) (k : A → Result B)
    → ((a : A) → Returns P (k a))
    → Returns P (m >>= k)
unfolding Returns
bind-Returns P (ok a) k h = h a
bind-Returns P (err e) k h = tt

-- The bytes of a frame that an end with the terms `l` says.
unfoldable IsSpelled : Terms → Terms → List ℕ → DlpControlFrame → Type 0
IsSpelled l p bytes f = IsSaid l p f × (bytes ≡ encode f)

abbrev IsSaidAs : Terms → Terms → List ℕ → Type 0
IsSaidAs l p bytes = (f : DlpControlFrame) × IsSpelled l p bytes f

on-IsSaidAs :
    (l p : Terms) (bytes : List ℕ) (wire : List (List ℕ))
    → All (IsSaidAs l p) wire
    → IsOn bytes wire
    → IsSaidAs l p bytes
on-IsSaidAs l p bytes wire h last = h.0
on-IsSaidAs l p bytes wire h (earlier other on) = on-IsSaidAs l p bytes _ h.1 on

module _ {E : Type 0} (ops : LinkOps E) (l p : Terms) where
  step-IsEnd : (m m' : DlpManagedEndpoint E) → IsEnd l p m → LocalStep ops m m' → IsEnd l p m'
  step-IsEnd m m' h raise = carrier_up-IsEnd ops l p m h
  step-IsEnd m m' h lower = carrier_down-IsEnd ops l p m h
  step-IsEnd m m' h (reset_link reason) = request_reset-IsEnd ops l p m reason h
  step-IsEnd m m' h send_flit = managed_poll_tx_flit-IsEnd ops l p m h
  step-IsEnd m m' h send_frame = managed_poll_tx_frame-IsEnd ops l p m h
  step-IsEnd m m' h (take_flit flit now) = managed_receive_flit-IsEnd ops l p m flit now h
  step-IsEnd m m' h (take_frame frame now) = managed_receive_frame-IsEnd ops l p m frame now h
  step-IsEnd m m' h (bind peer) = bind_credit_peer-IsEnd ops l p m peer h
  step-IsEnd m m' h finish = finish_credit_sync-IsEnd ops l p m h
  step-IsEnd m m' h (work e) = refresh-IsEnd ops l p m e m.state m.peer_generation h

  receive_control-IsEnd :
      (m : DlpManagedEndpoint E) (bytes : List ℕ)
      → IsEnd l p m
      → IsSaidAs p l bytes
      → IsEnd l p (receive_control ops m bytes).0
  unfolding receive_control IsSaid IsSpelled
  receive_control-IsEnd m bytes h (f, (said, is_bytes)) =
      rw is_bytes (rw (decode-encode_frame f said.0) (on_frame-IsEnd ops l p m f h said))

-- A line of two ends that keep to their terms, and nothing on the wire but what they say.
record IsLine {E : Type 0} (l p : Terms) (s : Line E) : Type 0 where
  end_a : IsEnd l p s.a
  end_b : IsEnd p l s.b
  wire_a : All (IsSaidAs p l) s.to_a
  wire_b : All (IsSaidAs l p) s.to_b

module _ {E : Type 0} (ops : LinkOps E) where
  -- A new end keeps to its own terms, whatever its peer's are.
  new-IsEnd :
      (address : GdpAddress) (config : EndpointConfig) (burst : ℕ) (p : Terms)
      → Returns (λ m. IsEnd (terms_of m) p m) (new ops address config burst)
  unfolding new Returns build terms_of Fits Fills
  new-IsEnd address config burst p =
      bind-Returns (λ m. IsEnd (terms_of m) p m) (check_config ops config burst) _
        λ checked.
          bind-Returns (λ m. IsEnd (terms_of m) p m) (ops.new address config) _
            λ endpoint. record {
              terms = refl;
              generation = (omega arith, omega arith);
              queue = tt;
              negotiation = record {
                fits_negotiated = tt;
                fits_cap_offer = tt;
                fits_mode = tt;
                fits_rate = tt;
                fits_params_offer = tt;
                fits_peer_rx = tt;
                fits_burst = tt;
              };
            }

  poll_queue-IsEnd :
      (l p : Terms) (m : DlpManagedEndpoint E) (queue : List DlpControlFrame) (wire : List (List ℕ))
      → IsEnd l p (record m { control_tx = queue })
      → All (IsSaidAs l p) wire
      → IsEnd l p (poll_control (record m { control_tx = queue })).0
        × All (IsSaidAs l p) (sent wire (poll_control (record m { control_tx = queue })).1)
  unfolding poll_control sent IsSpelled terms_of
  poll_queue-IsEnd l p m [] wire h said = (h, said)
  poll_queue-IsEnd l p m (f ∷ rest) wire h said = (
    record {
      terms = h.terms;
      generation = h.generation;
      queue = h.queue.1;
      negotiation = h.negotiation;
    },
    ((f, (h.queue.0, refl)), said),
  )

  poll_control-IsEnd :
      (l p : Terms) (m : DlpManagedEndpoint E) (wire : List (List ℕ))
      → IsEnd l p m
      → All (IsSaidAs l p) wire
      → IsEnd l p (poll_control m).0 × All (IsSaidAs l p) (sent wire (poll_control m).1)
  poll_control-IsEnd l p m wire h said = poll_queue-IsEnd l p m m.control_tx wire h said

  Reachable-IsLine : (s : Line E) → Reachable ops s → (l : Terms) × ((p : Terms) × IsLine l p s)
  Reachable-IsLine s
        (start a b address_a address_b config_a config_b burst_a burst_b made_a made_b) =
      (
        terms_of a,
        (
          terms_of b,
          record {
            end_a = Returns-ok _ _ a (new-IsEnd address_a config_a burst_a (terms_of b)) made_a;
            end_b = Returns-ok _ _ b (new-IsEnd address_b config_b burst_b (terms_of a)) made_b;
            wire_a = tt;
            wire_b = tt;
          },
        ),
      )
  Reachable-IsLine s' (local_a s m reached step) =
      let (l, (p, h)) = Reachable-IsLine s reached in
      (
        l,
        (
          p,
          record {
            end_a = step-IsEnd ops l p s.a m h.end_a step;
            end_b = h.end_b;
            wire_a = h.wire_a;
            wire_b = h.wire_b;
          },
        ),
      )
  Reachable-IsLine s' (local_b s m reached step) =
      let (l, (p, h)) = Reachable-IsLine s reached in
      (
        l,
        (
          p,
          record {
            end_a = h.end_a;
            end_b = step-IsEnd ops p l s.b m h.end_b step;
            wire_a = h.wire_a;
            wire_b = h.wire_b;
          },
        ),
      )
  Reachable-IsLine s' (send_a s reached) =
      let (l, (p, h)) = Reachable-IsLine s reached in
      let (polled, said) = poll_control-IsEnd l p s.a s.to_b h.end_a h.wire_b in
      (l, (p, record { end_a = polled; end_b = h.end_b; wire_a = h.wire_a; wire_b = said }))
  Reachable-IsLine s' (send_b s reached) =
      let (l, (p, h)) = Reachable-IsLine s reached in
      let (polled, said) = poll_control-IsEnd p l s.b s.to_a h.end_b h.wire_a in
      (l, (p, record { end_a = h.end_a; end_b = polled; wire_a = said; wire_b = h.wire_b }))
  Reachable-IsLine s' (arrive_a s bytes reached on) =
      let (l, (p, h)) = Reachable-IsLine s reached in
      (
        l,
        (
          p,
          record {
            end_a =
                receive_control-IsEnd ops l p s.a bytes h.end_a
                  (on-IsSaidAs p l bytes s.to_a h.wire_a on);
            end_b = h.end_b;
            wire_a = h.wire_a;
            wire_b = h.wire_b;
          },
        ),
      )
  Reachable-IsLine s' (arrive_b s bytes reached on) =
      let (l, (p, h)) = Reachable-IsLine s reached in
      (
        l,
        (
          p,
          record {
            end_a = h.end_a;
            end_b =
                receive_control-IsEnd ops p l s.b bytes h.end_b
                  (on-IsSaidAs l p bytes s.to_b h.wire_b on);
            wire_a = h.wire_a;
            wire_b = h.wire_b;
          },
        ),
      )

  -- In every state that two new managed endpoints reach, whatever calls each makes, carrier changes,
  -- resets and data traffic included, and whatever the wire loses, repeats or reorders of their
  -- control frames: if each has a negotiated profile, the two have the same mode and the same burst,
  -- and each has the other's configured buffer as its peer's.
  pub Reachable-IsAgreed :
      (s : Line E)
      → Reachable ops s
      → (pa pb : DlpNegotiatedProfile) → s.a.negotiation.negotiated ≡ some pa
      → s.b.negotiation.negotiated ≡ some pb
      → (pa.vc_mode ≡ pb.vc_mode)
        × (pa.burst_flits ≡ pb.burst_flits)
        × (pa.peer_rx_buffer_flits ≡ s.b.endpoint_config.rx_buffer_flits)
        × (pb.peer_rx_buffer_flits ≡ s.a.endpoint_config.rx_buffer_flits)
  unfolding Fits profile_of terms_of
  Reachable-IsAgreed s reached pa pb has_a has_b =
      let (l, (p, h)) = Reachable-IsLine s reached in
      let of_a = Fills-some _ _ pa h.end_a.negotiation.fits_negotiated has_a in
      let of_b = Fills-some _ _ pb h.end_b.negotiation.fits_negotiated has_b in
      (
        ap (λ q. q.vc_mode) of_a ∙ agreed_comm l.vc_mode p.vc_mode ∙ sym (ap (λ q. q.vc_mode) of_b),
        ap (λ q. q.burst_flits) of_a
            ∙ min_comm l.max_burst_flits p.max_burst_flits
            ∙ sym (ap (λ q. q.burst_flits) of_b),
        ap (λ q. q.peer_rx_buffer_flits) of_a ∙ sym (ap (λ t. t.rx_buffer_flits) h.end_b.terms),
        ap (λ q. q.peer_rx_buffer_flits) of_b ∙ sym (ap (λ t. t.rx_buffer_flits) h.end_a.terms),
      )
