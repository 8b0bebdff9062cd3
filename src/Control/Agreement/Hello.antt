-- ===== src/Control/Agreement/Hello.antt =====
-- dlp_control.rs: carrier, resets and hellos keep an end to the terms of both.
use smolgnet.Base.{
  ℕ, ◌<◌, ◌≡◌, arith, Bool, true, false, not, ◌==◌, ltb, List, [], ◌∷◌, All, Option, none, some,
}
use smolgnet.Base.Results.{guard, invalid_state, invalid_field, link_down}
use smolgnet.Endpoint.{LinkOps}
use smolgnet.Control.Parameters.{next_generation}
use smolgnet.Control.Parameters.Laws.{next_generation-IsGeneration}
use smolgnet.Control.Frame.{DlpControlFrame, reset, DlpHelloKind, initial, acknowledgement}
use smolgnet.Control.Frame.Word.{IsFrame, IsGeneration}
use smolgnet.Control.Managed.{DlpManagedEndpoint, DlpControlState, down, hello_state, is_down}
use smolgnet.Control.Managed.Queue.{clear_negotiation_state, queue_hello_initial}
use smolgnet.Control.Managed.Hello.{
  restart_negotiation, carrier_up, carrier_down, renew, request_reset, on_reset, answer_hello,
  is_live, on_hello_initial, note_hello_ack, on_hello_ack, on_hello,
}
use smolgnet.Control.Agreement.{Terms, terms_of, Fits, Says, IsSaid, IsEnd}
use smolgnet.Control.Agreement.Steps
use smolgnet.Control.Agreement.Steps.{
  run-then_ok, try-then_ok, if-split, if-object, ok_or-ok, Fills-some, note-IsEnd,
}

module _ {E : Type 0} (ops : LinkOps E) (l p : Terms) where
  -- The endpoint, the state and the peer's generation are free.
  pub refresh-IsEnd :
      (m : DlpManagedEndpoint E) (e : E) (s : DlpControlState) (peer : Option ℕ)
      → IsEnd l p m
      → IsEnd l p (record m { endpoint = e; state = s; peer_generation = peer })
  unfolding terms_of
  refresh-IsEnd m e s peer h = record {
    terms = h.terms;
    generation = h.generation;
    queue = h.queue;
    negotiation = h.negotiation;
  }

  -- A new start of the negotiation, with a generation and a queue.
  start-IsEnd :
      (m : DlpManagedEndpoint E) (e : E) (g : ℕ) (frames : List DlpControlFrame) (peer : Option ℕ)
      → IsEnd l p m
      → IsGeneration g
      → All (IsSaid l p) frames
      → IsEnd l p (
          queue_hello_initial
            (record (clear_negotiation_state (record m {
              endpoint = e;
              local_generation = g;
              control_tx = frames;
              peer_generation = peer;
            })) { state = hello_state }))
  unfolding terms_of clear_negotiation_state
  start-IsEnd m e g frames peer h is_generation said = Steps.queue_hello_initial-IsEnd l p _ (
      refresh-IsEnd _ e hello_state peer (
        Steps.clear_negotiation_state-IsEnd l p
          (record m { local_generation = g; control_tx = frames })
          (record {
            terms = h.terms;
            generation = is_generation;
            queue = said;
            negotiation = h.negotiation;
          })))

  restart_negotiation-IsEnd :
      (m : DlpManagedEndpoint E) (increment preserve : Bool)
      → IsEnd l p m
      → IsEnd l p (restart_negotiation ops m increment preserve)
  unfolding restart_negotiation
  restart_negotiation-IsEnd m increment preserve h =
      start-IsEnd m _ _ _ m.peer_generation h
        (if-split IsGeneration increment _ _ (λ up. next_generation-IsGeneration m.local_generation)
          λ same. h.generation)
        (if-split (All (IsSaid l p)) preserve _ _ (λ kept. h.queue) λ dropped. tt)

  pub carrier_up-IsEnd : (m : DlpManagedEndpoint E) → IsEnd l p m → IsEnd l p (carrier_up ops m).0
  unfolding carrier_up
  carrier_up-IsEnd m h =
      try-then_ok (IsEnd l p) m (guard (is_down m.state) invalid_state) _ h
        λ u is_low. restart_negotiation-IsEnd m false false h

  pub carrier_down-IsEnd : (m : DlpManagedEndpoint E) → IsEnd l p m → IsEnd l p (carrier_down ops m)
  unfolding carrier_down clear_negotiation_state terms_of
  carrier_down-IsEnd m h = refresh-IsEnd _ _ down none (
      Steps.clear_negotiation_state-IsEnd l p (record m { control_tx = [] })
        (record {
          terms = h.terms;
          generation = h.generation;
          queue = tt;
          negotiation = h.negotiation;
        }))

  renew-IsEnd :
      (m : DlpManagedEndpoint E) (frames : List DlpControlFrame)
      → IsEnd l p m
      → All (IsSaid l p) frames
      → IsEnd l p (renew ops m frames)
  unfolding renew
  renew-IsEnd m frames h said =
      start-IsEnd m _ _ frames none h (next_generation-IsGeneration m.local_generation) said

  pub request_reset-IsEnd :
      (m : DlpManagedEndpoint E) (reason : ℕ)
      → IsEnd l p m
      → IsEnd l p (request_reset ops m reason).0
  unfolding request_reset IsSaid IsFrame Says
  request_reset-IsEnd m reason h =
      try-then_ok (IsEnd l p) m (guard (not (is_down m.state)) link_down) _ h λ u is_raised.
        try-then_ok (IsEnd l p) m (guard (not (ltb 0x0f reason)) invalid_field) _ h λ u small.
          renew-IsEnd m (reset m.local_generation reason ∷ []) h
            (((h.generation, below (Steps.guard-ok _ _ _ small)), tt), tt)
    where
      below : not (ltb 0x0f reason) ≡ true → reason < 16
      below small = ground (arith, small)

  pub on_reset-IsEnd :
      (m : DlpManagedEndpoint E) (sender : ℕ) → IsEnd l p m → IsEnd l p (on_reset ops m sender).0
  unfolding on_reset
  on_reset-IsEnd m sender h =
      if-object (IsEnd l p) _ _ _ (λ current. renew-IsEnd m [] h tt) λ stale. h

  answer_hello-IsEnd :
      (m : DlpManagedEndpoint E) (sender : ℕ)
      → IsGeneration sender
      → IsEnd l p m
      → IsEnd l p (answer_hello ops m sender).0
  unfolding answer_hello
  answer_hello-IsEnd m sender is_generation h = Steps.maybe_start_capability_exchange-IsEnd l p _ (
      Steps.queue_hello_ack-IsEnd l p _ sender is_generation
        (refresh-IsEnd m m.endpoint m.state (some sender) h))

  on_hello_initial-IsEnd :
      (m : DlpManagedEndpoint E) (sender : ℕ) (peer : Option ℕ)
      → IsGeneration sender
      → IsEnd l p m
      → IsEnd l p (on_hello_initial ops m sender peer).0
  unfolding on_hello_initial
  on_hello_initial-IsEnd m sender (some current) is_generation h =
      if-object (IsEnd l p) (sender == current) _ _
        (λ same. answer_hello-IsEnd m sender is_generation h)
        λ other.
          if-object (IsEnd l p) (sender == next_generation current) _ _
            (λ next.
              answer_hello-IsEnd _ sender is_generation
                (restart_negotiation-IsEnd m (is_live ops m.state) false h))
            λ stale. h
  on_hello_initial-IsEnd m sender none is_generation h =
      if-object (IsEnd l p) (is_down m.state) _ _ (λ is_low. h)
        λ is_raised. answer_hello-IsEnd m sender is_generation h

  note_hello_ack-IsEnd :
      (m : DlpManagedEndpoint E) → IsEnd l p m → IsEnd l p (note_hello_ack ops m).0
  unfolding note_hello_ack Fits
  note_hello_ack-IsEnd m h =
      Steps.maybe_start_capability_exchange-IsEnd l p _
        (note-IsEnd l p m (record m.negotiation { hello_ack_received = true }) h h.negotiation)

  on_hello_ack-IsEnd :
      (m : DlpManagedEndpoint E) (sender : ℕ) (peer : Option ℕ)
      → IsGeneration sender
      → IsEnd l p m
      → IsEnd l p (on_hello_ack ops m sender peer).0
  unfolding on_hello_ack
  on_hello_ack-IsEnd m sender (some current) is_generation h =
      if-object (IsEnd l p) (current == sender) _ _ (λ same. note_hello_ack-IsEnd m h)
        λ other.
          if-object (IsEnd l p) (sender == next_generation current) _ _
            (λ next.
              let again = restart_negotiation ops m true false in
              note_hello_ack-IsEnd _ (
                Steps.queue_hello_ack-IsEnd l p _ sender is_generation (
                  refresh-IsEnd again again.endpoint again.state (some sender)
                    (restart_negotiation-IsEnd m true false h))))
            λ stale. h
  on_hello_ack-IsEnd m sender none is_generation h = note_hello_ack-IsEnd _ (
      Steps.queue_hello_ack-IsEnd l p _ sender is_generation
        (refresh-IsEnd m m.endpoint m.state (some sender) h))

  pub on_hello-IsEnd :
      (m : DlpManagedEndpoint E) (kind : DlpHelloKind) (sender peer : ℕ)
      → IsGeneration sender
      → IsEnd l p m
      → IsEnd l p (on_hello ops m kind sender peer).0
  unfolding on_hello
  on_hello-IsEnd m initial sender peer is_generation h =
      on_hello_initial-IsEnd m sender m.peer_generation is_generation h
  on_hello-IsEnd m acknowledgement sender peer is_generation h =
      if-object (IsEnd l p) (peer == m.local_generation) _ _
        (λ mine. on_hello_ack-IsEnd m sender m.peer_generation is_generation h) λ stale. h
