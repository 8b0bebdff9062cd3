-- ===== src/Control/Agreement/Steps.antt =====
-- dlp_control.rs: what each helper of a managed endpoint does to the values of a negotiation.
use smolgnet.Base.{
  ℕ, ◌≡◌, ◌≢◌, refl, ◌∙◌, ap, subst, arith, Bool, true, false, not, ◌||◌, ◌!=◌, if◌then◌else◌, [],
  ◌∷◌, Option, none, some, All-append,
}
use smolgnet.Base.Results.{Result, Error, ok, err, ok_or, guard, ◌then_ok◌, Returns-ok}
use smolgnet.Dlp.{VcMode, two, four}
use smolgnet.Control.Parameters.{rate_all, encode_parameter_units, supported_mode_flags}
use smolgnet.Control.Parameters.Laws.{IsUnits, encode_parameter_units-IsUnits}
use smolgnet.Control.Frame.{
  DlpControlFrame, hello, capabilities, link_parameters, offer, initial, acknowledgement,
}
use smolgnet.Control.Frame.Word.{IsFrame, IsGeneration}
use smolgnet.Control.Managed.{DlpManagedEndpoint, Negotiation, negotiate, is_none}
use smolgnet.Control.Managed.Queue.{
  push, clear_negotiation_state, queue_hello_initial, queue_hello_ack, offer_capabilities,
  offer_parameters, maybe_start_capability_exchange,
}
use smolgnet.Control.Agreement.{Terms, terms_of, Fills, Fits, Says, IsSaid, IsEnd}

-- The object after a chain of calls.
pub run-then_ok {ℓ κ μ} :
    {S : Type ℓ} {A : Type κ} {B : Type μ} (Q : S → Type 0) (m : S × Result A)
    (k : S → A → S × Result B)
    → Q m.0
    → ((s : S) (a : A) → Q s → Q (k s a).0)
    → Q (m then_ok k).0
run-then_ok Q (s, ok a) k h next = next s a h
run-then_ok Q (s, err e) k h next = h

-- The object after a test or a value that may be missing, and what it was then.
pub try-then_ok {ℓ κ μ} :
    {S : Type ℓ} {A : Type κ} {B : Type μ} (Q : S → Type 0) (s : S) (r : Result A)
    (k : S → A → S × Result B)
    → Q s
    → ((a : A) → r ≡ ok a → Q (k s a).0)
    → Q ((s, r) then_ok k).0
try-then_ok Q s (ok a) k h next = next a refl
try-then_ok Q s (err e) k h next = h

pub if-split {ℓ κ} :
    {A : Type ℓ} (P : A → Type κ) (b : Bool) (x y : A)
    → (b ≡ true → P x)
    → (b ≡ false → P y)
    → P (if b then x else y)
if-split P true x y h k = h refl
if-split P false x y h k = k refl

pub if-object {ℓ κ} :
    {S : Type ℓ} {A : Type κ} (Q : S → Type 0) (b : Bool) (x y : S × Result A)
    → (b ≡ true → Q x.0)
    → (b ≡ false → Q y.0)
    → Q (if b then x else y).0
if-object Q true x y h k = h refl
if-object Q false x y h k = k refl

pub guard-ok : (b : Bool) (e : Error) (u : Unit {0}) → guard b e ≡ ok u → b ≡ true
guard-ok true e u h = refl
guard-ok false e u h = cc

pub ok_or-ok {ℓ} : {A : Type ℓ} (o : Option A) (e : Error) (a : A) → ok_or o e ≡ ok a → o ≡ some a
ok_or-ok none e a h = cc
ok_or-ok (some x) e a h = cc

pub Fills-some {ℓ} : {A : Type ℓ} (a : A) (o : Option A) (b : A) → Fills a o → o ≡ some b → b ≡ a
unfolding Fills
Fills-some a o b h known = subst (Fills a) known h

pub encode_parameter_units-ok :
    (value units : ℕ) → encode_parameter_units value ≡ ok units → IsUnits value units
encode_parameter_units-ok value units known =
    Returns-ok (IsUnits value) (encode_parameter_units value) units
      (encode_parameter_units-IsUnits value) known

flags-IsFrame :
    (mode : VcMode) (g : ℕ)
    → IsGeneration g
    → IsFrame (capabilities offer g (supported_mode_flags mode) rate_all)
unfolding IsFrame supported_mode_flags
flags-IsFrame two g h = (h, (omega arith, omega arith), (omega arith, omega arith), refl)
flags-IsFrame four g h = (h, (omega arith, omega arith), (omega arith, omega arith), refl)

module _ {E : Type 0} (l p : Terms) where
  pub push-IsEnd :
      (m : DlpManagedEndpoint E) (f : DlpControlFrame)
      → IsEnd l p m
      → IsSaid l p f
      → IsEnd l p (push m f)
  unfolding push terms_of
  push-IsEnd m f h new = record {
    terms = h.terms;
    generation = h.generation;
    queue = All-append (IsSaid l p) m.control_tx (f ∷ []) h.queue (new, tt);
    negotiation = h.negotiation;
  }

  -- A change of the negotiation alone.
  pub note-IsEnd :
      (m : DlpManagedEndpoint E) (n : Negotiation)
      → IsEnd l p m
      → Fits l p n
      → IsEnd l p (record m { negotiation = n })
  unfolding terms_of
  note-IsEnd m n h fits = record {
    terms = h.terms;
    generation = h.generation;
    queue = h.queue;
    negotiation = fits;
  }

  pub clear_negotiation_state-IsEnd :
      (m : DlpManagedEndpoint E) → IsEnd l p m → IsEnd l p (clear_negotiation_state m)
  unfolding clear_negotiation_state Fills Fits
  clear_negotiation_state-IsEnd m h = note-IsEnd m _ h (record {
    fits_negotiated = tt;
    fits_cap_offer = tt;
    fits_mode = tt;
    fits_rate = tt;
    fits_params_offer = tt;
    fits_peer_rx = tt;
    fits_burst = tt;
  })

  pub queue_hello_initial-IsEnd :
      (m : DlpManagedEndpoint E) → IsEnd l p m → IsEnd l p (queue_hello_initial m)
  unfolding queue_hello_initial IsSaid IsFrame Says
  queue_hello_initial-IsEnd m h =
      push-IsEnd m (hello initial m.local_generation 0) h ((h.generation, omega arith, refl), tt)

  pub queue_hello_ack-IsEnd :
      (m : DlpManagedEndpoint E) (g : ℕ)
      → IsGeneration g
      → IsEnd l p m
      → IsEnd l p (queue_hello_ack m g)
  unfolding queue_hello_ack IsSaid IsFrame Says push Fits
  queue_hello_ack-IsEnd m g peer h =
      note-IsEnd _ _
        (push-IsEnd m (hello acknowledgement m.local_generation g) h
          ((h.generation, peer.0, named peer.1), tt))
        h.negotiation
    where
      named : g ≢ 0 → (g != 0) ≡ true
      named nonzero = ground (arith, nonzero)

  offer_capabilities-IsEnd :
      (m : DlpManagedEndpoint E) → IsEnd l p m → IsEnd l p (offer_capabilities m)
  unfolding offer_capabilities IsSaid Says push Fits terms_of
  offer_capabilities-IsEnd m h =
      if-split (IsEnd l p) m.negotiation.cap_offer_sent _ _ (λ sent. h)
        λ unsent.
          note-IsEnd _ _
            (push-IsEnd m
              (capabilities offer m.local_generation
                (supported_mode_flags m.endpoint_config.vc_mode) rate_all)
              h
              (
                flags-IsFrame m.endpoint_config.vc_mode m.local_generation h.generation,
                (ap (λ t. supported_mode_flags t.vc_mode) h.terms, refl),
              ))
            h.negotiation

  offer_parameters-IsEnd :
      (m : DlpManagedEndpoint E) → IsEnd l p m → IsEnd l p (offer_parameters m).0
  unfolding offer_parameters IsSaid IsFrame Says push Fits terms_of
  offer_parameters-IsEnd m h =
      if-object (IsEnd l p) m.negotiation.params_offer_sent _ _ (λ sent. h)
        λ unsent.
          try-then_ok (IsEnd l p) m (encode_parameter_units m.endpoint_config.rx_buffer_flits) _ h
            λ rx known.
              try-then_ok (IsEnd l p) m (encode_parameter_units m.max_burst_flits) _ h λ burst also.
                let (rx_range, rx_value) = encode_parameter_units-ok _ _ known in
                let (burst_range, burst_value) = encode_parameter_units-ok _ _ also in
                note-IsEnd _ _
                  (push-IsEnd m (link_parameters offer m.local_generation rx burst) h (
                    (h.generation, rx_range, burst_range),
                    (
                      rx_value ∙ ap (λ t. t.rx_buffer_flits) h.terms,
                      burst_value ∙ ap (λ t. t.max_burst_flits) h.terms,
                    ),
                  ))
                  h.negotiation

  pub maybe_start_capability_exchange-IsEnd :
      (m : DlpManagedEndpoint E) → IsEnd l p m → IsEnd l p (maybe_start_capability_exchange m).0
  unfolding maybe_start_capability_exchange terms_of
  maybe_start_capability_exchange-IsEnd m h =
      if-object (IsEnd l p)
        (not m.negotiation.hello_ack_sent
          || (not m.negotiation.hello_ack_received || is_none m.peer_generation))
        _ _ (λ early. h)
        λ done. offer_parameters-IsEnd _ (
          offer_capabilities-IsEnd (record m { state = negotiate })
            (record {
              terms = h.terms;
              generation = h.generation;
              queue = h.queue;
              negotiation = h.negotiation;
            }))
