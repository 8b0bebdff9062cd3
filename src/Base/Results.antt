-- ===== src/Base/Results.antt =====
-- error.rs: the errors of the library and its `Result`.
use mathlib.Core.Path.{◌≡◌, refl, ap, subst}
use mathlib.Core.Logic.{◌⊎◌, inl, inr}
use mathlib.Core.Bool.{Bool, true, false}
use smolgnet.Base.Tests.{if◌then◌else◌}
use mathlib.Core.Option.{Option, none, some}

pub data Error : Type 0 where
  invalid_length invalid_field invalid_crc invalid_address_form invalid_size_class : Error
  unsupported non_canonical buffer_full no_credit no_route credit_violation link_down : Error
  desynchronized unknown_service unknown_tunnel unknown_stream invalid_state : Error
  direction_violation profile_violation message_too_large would_block : Error

pub data Result {ℓ} (A : Type ℓ) : Type ℓ where
  ok : A → Result A
  err : Error → Result A

-- `option.ok_or(e)`.
abbrev pub ok_or {ℓ} : {A : Type ℓ} → Option A → Error → Result A
ok_or none x = err x
ok_or (some a) x = ok a

-- `if !test { return Err(x) }`.
abbrev pub guard : Bool → Error → Result (Unit {0})
guard false x = err x
guard true x = ok tt

-- `result?`, and what follows it.
abbrev pub ◌>>=◌ {ℓ κ} : {A : Type ℓ} {B : Type κ} → Result A → (A → Result B) → Result B
err x >>= next = err x
ok a >>= next = next a

abbrev pub ◌>>◌ {κ} : {B : Type κ} → Result (Unit {0}) → Result B → Result B
first >> second = first >>= λ done. second

infixl 5 ◌>>=◌ ◌>>◌
pub Result-cases {ℓ} :
    {A : Type ℓ} (r : Result A) → ((a : A) × (r ≡ ok a)) ⊎ ((e : Error) × (r ≡ err e))
Result-cases (ok a) = inl (a, refl)
Result-cases (err e) = inr (e, refl)

-- A method that mutates its object and may fail: the object stands beside the result, also after
-- an error. `m then k` goes on with the object that `m` left.
infixl 5 ◌then_ok◌
abbrev pub ◌then_ok◌ {ℓ κ μ} :
    {S : Type ℓ} {A : Type κ} {B : Type μ} → S × Result A → (S → A → S × Result B) → S × Result B
(s, ok a) then_ok k = k s a
(s, err e) then_ok k = (s, err e)

-- After a method: `P` of the object and the value when it succeeds, `Q` of the object when it fails.
unfoldable pub Leaves {ℓ κ} :
    {S : Type ℓ} {A : Type κ} → (S → A → Type 0) → (S → Type 0) → S × Result A → Type 0
Leaves P Q (s, ok a) = P s a
Leaves P Q (s, err e) = Q s

pub then_ok-Leaves {ℓ κ μ} :
    {S : Type ℓ} {A : Type κ} {B : Type μ} (P : S → A → Type 0) (R : S → B → Type 0)
    (Q : S → Type 0) (m : S × Result A) (k : S → A → S × Result B)
    → Leaves P Q m
    → ((s : S) (a : A) → P s a → Leaves R Q (k s a))
    → Leaves R Q (m then_ok k)
unfolding Leaves
then_ok-Leaves P R Q (s, ok a) k h next = next s a h
then_ok-Leaves P R Q (s, err e) k h next = h

-- What holds of the object either way.
pub Leaves-object {ℓ κ} :
    {S : Type ℓ} {A : Type κ} (Q : S → Type 0) (m : S × Result A) → Leaves (λ s a. Q s) Q m → Q m.0
unfolding Leaves
Leaves-object Q (s, ok a) h = h
Leaves-object Q (s, err e) h = h

pub Leaves-if {ℓ κ} :
    {S : Type ℓ} {A : Type κ} (P : S → A → Type 0) (Q : S → Type 0) (b : Bool) (m n : S × Result A)
    → (b ≡ true → Leaves P Q m)
    → (b ≡ false → Leaves P Q n)
    → Leaves P Q (if b then m else n)
Leaves-if P Q true m n h k = h refl
Leaves-if P Q false m n h k = k refl

pub Leaves-of {ℓ κ} :
    {S : Type ℓ} {A : Type κ} (Q : S → Type 0) (m : S × Result A) → Q m.0 → Leaves (λ s a. Q s) Q m
unfolding Leaves
Leaves-of Q (s, ok a) h = h
Leaves-of Q (s, err e) h = h

-- What the error is, if there is one.
unfoldable pub FailsWith {ℓ} : {A : Type ℓ} → (Error → Type 0) → Result A → Type 0
FailsWith P (ok a) = Unit
FailsWith P (err e) = P e

pub bind-FailsWith {ℓ κ} :
    {A : Type ℓ} {B : Type κ} (P : Error → Type 0) (m : Result A) (f : A → Result B)
    → FailsWith P m
    → ((a : A) → FailsWith P (f a))
    → FailsWith P (m >>= f)
unfolding FailsWith
bind-FailsWith P (ok a) f h next = next a
bind-FailsWith P (err e) f h next = h

pub guard-FailsWith : (P : Error → Type 0) (b : Bool) (e : Error) → P e → FailsWith P (guard b e)
unfolding FailsWith
guard-FailsWith P true e h = tt
guard-FailsWith P false e h = h

pub then_ok-FailsWith {ℓ κ μ} :
    {S : Type ℓ} {A : Type κ} {B : Type μ} (P : Error → Type 0) (m : S × Result A)
    (k : S → A → S × Result B)
    → FailsWith P m.1
    → ((s : S) (a : A) → FailsWith P (k s a).1)
    → FailsWith P (m then_ok k).1
unfolding FailsWith
then_ok-FailsWith P (s, ok a) k h next = next s a
then_ok-FailsWith P (s, err e) k h next = h

pub if-FailsWith {ℓ} :
    {A : Type ℓ} (P : Error → Type 0) (b : Bool) (m n : Result A)
    → (b ≡ true → FailsWith P m)
    → (b ≡ false → FailsWith P n)
    → FailsWith P (if b then m else n)
if-FailsWith P true m n h k = h refl
if-FailsWith P false m n h k = k refl

pub ok-FailsWith {ℓ} : {A : Type ℓ} (P : Error → Type 0) (a : A) → FailsWith P (ok a)
unfolding FailsWith
ok-FailsWith P a = tt

pub err-FailsWith {ℓ} :
    (A : Type ℓ) (P : Error → Type 0) (x : Error) → P x → FailsWith {A = A} P (err x)
unfolding FailsWith
err-FailsWith A P x h = h

pub ok-Leaves {ℓ κ} :
    {S : Type ℓ} {A : Type κ} (P : S → A → Type 0) (Q : S → Type 0) (s : S) (a : A)
    → P s a
    → Leaves P Q (s, ok a)
unfolding Leaves
ok-Leaves P Q s a h = h

pub err-Leaves {ℓ κ} :
    {S : Type ℓ} {A : Type κ} (P : S → A → Type 0) (Q : S → Type 0) (s : S) (x : Error)
    → Q s
    → Leaves P Q (s, err x)
unfolding Leaves
err-Leaves P Q s x h = h

-- After a guard: it refuses, or the rest runs.
pub guard-then_ok {ℓ κ μ} :
    {S : Type ℓ} {B : Type κ} (P : S × Result B → Type μ) (s : S) (b : Bool) (x : Error)
    (k : S → Unit {0} → S × Result B)
    → P (s, err x)
    → P (k s tt)
    → P ((s, guard b x) then_ok k)
guard-then_ok P s true x k refused run = run
guard-then_ok P s false x k refused run = refused

pub ok-injective {ℓ} : {A : Type ℓ} (a b : A) → ok a ≡ ok b → a ≡ b
ok-injective a b h = ap (λ r. elim r [ ok x ↦ x | err e ↦ a ]) h

-- `P` of the value, if there is one.
unfoldable pub Returns {ℓ} : {A : Type ℓ} → (A → Type 0) → Result A → Type 0
Returns P (ok a) = P a
Returns P (err e) = Unit

pub Returns-imp {ℓ} :
    {A : Type ℓ} (P Q : A → Type 0) (m : Result A)
    → ((a : A) → P a → Q a)
    → Returns P m
    → Returns Q m
unfolding Returns
Returns-imp P Q (ok a) k r = k a r
Returns-imp P Q (err e) k r = tt

pub Returns-ok {ℓ} :
    {A : Type ℓ} (P : A → Type 0) (m : Result A) (a : A) → Returns P m → m ≡ ok a → P a
unfolding Returns
Returns-ok P m a r h = subst (Returns P) h r
