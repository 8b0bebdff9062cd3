-- ===== src/Wire/Gdp/SizeClasses.antt =====
-- wire/gdp_common.rs: `SizeClass::smallest_for` and the class codes.
use smolgnet.Base.{
  ℕ, ◌≤◌, ◌<◌, arith, leb, ◌≡◌, ◌⊎◌, inl, inr, Option, none, some, refl, zero, suc, List, [], ◌∷◌,
  All, get_elem?, ap, Bool-cases,
}
use smolgnet.Wire.Gdp.{SizeClass, class_code, class_bytes, smallest_for, find_class, all_classes}
use smolgnet.Wire.Gdp.{empty, tiny3, ctrl32, ctrl64, msg128, msg192, msg256, msg384, medium512}
use smolgnet.Wire.Gdp.{medium768, bulk1k, bulk1280, legacy1500, xmtu2k, jumbo4k, jumbo8k}

-- The answer for a length: the class holds it, and every class that holds it is as large.
abbrev pub IsSmallest : ℕ → SizeClass → Type 0
IsSmallest required c =
    (required ≤ class_bytes c)
    × ((d : SizeClass) → required ≤ class_bytes d → class_bytes c ≤ class_bytes d)

abbrev pub Answers : ℕ → Option SizeClass → Type 0
Answers required none = (d : SizeClass) → class_bytes d < required
Answers required (some c) = IsSmallest required c

In : SizeClass → List SizeClass → Type 0
In d [] = ⊥
In d (c ∷ rest) = (d ≡ c) ⊎ In d rest

Ascending : List SizeClass → Type 0
Ascending [] = Unit {0}
Ascending (c ∷ rest) = All (λ d. class_bytes c ≤ class_bytes d) rest × Ascending rest

In-All :
    (n : ℕ) (d : SizeClass) (l : List SizeClass)
    → In d l
    → All (λ e. n ≤ class_bytes e) l
    → n ≤ class_bytes d
unfolding In
In-All n d [] h a = absurd h
In-All n d (c ∷ rest) (inl e) a = rw e (a.0)
In-All n d (c ∷ rest) (inr m) a = In-All n d rest m a.1

In-at : (k : ℕ) (d : SizeClass) (l : List SizeClass) → get_elem? l k ≡ some d → In d l
unfolding In
In-at k d [] e = cc
In-at zero d (c ∷ rest) e = inl (cc)
In-at (suc k) d (c ∷ rest) e = inr (In-at k d rest e)

-- The classes that the search has passed are too small.
find_class-Answers :
    (required : ℕ) (l : List SizeClass)
    → Ascending l
    → ((d : SizeClass) → (class_bytes d < required) ⊎ In d l)
    → Answers required (find_class required l)
unfolding find_class Ascending In
find_class-Answers required [] sorted covers =
    λ d. elim (covers d) [ inl lt ↦ lt | inr m ↦ absurd m ]
find_class-Answers required (c ∷ rest) sorted covers =
    elim (Bool-cases (leb required (class_bytes c))) [
      | inl fits ↦ rw fits (
        ground arith,
        λ d h. elim (covers d) [
          | inl lt ↦ absurd (omega arith)
          | inr (inl e) ↦ omega (arith, ap class_bytes e)
          | inr (inr m) ↦ In-All (class_bytes c) d rest m sorted.0
        ],
      )
      | inr small ↦ rw small (
          find_class-Answers required rest sorted.1 λ d. elim (covers d) [
            | inl lt ↦ inl lt
            | inr (inl e) ↦ inl (ground (arith, ap class_bytes e))
            | inr (inr m) ↦ inr m
          ])
    ]

all_classes-Ascending : Ascending all_classes
unfolding Ascending all_classes class_bytes class_code
all_classes-Ascending = omega arith

at_code : (d : SizeClass) → get_elem? all_classes (class_code d) ≡ some d
unfolding all_classes class_code
at_code = elim [
  | empty ↦ refl
  | tiny3 ↦ refl
  | ctrl32 ↦ refl
  | ctrl64 ↦ refl
  | msg128 ↦ refl
  | msg192 ↦ refl
  | msg256 ↦ refl
  | msg384 ↦ refl
  | medium512 ↦ refl
  | medium768 ↦ refl
  | bulk1k ↦ refl
  | bulk1280 ↦ refl
  | legacy1500 ↦ refl
  | xmtu2k ↦ refl
  | jumbo4k ↦ refl
  | jumbo8k ↦ refl
]

-- For every length, `smallest_for` returns the smallest class that holds it, and `none` only when
-- it is longer than what every class holds.
pub smallest_for-Answers : (required : ℕ) → Answers required (smallest_for required)
unfolding smallest_for
smallest_for-Answers required =
    find_class-Answers required all_classes all_classes-Ascending
      λ d. inr (In-at (class_code d) d all_classes (at_code d))
