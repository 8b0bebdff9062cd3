-- ===== src/Base/Bytes.antt =====
-- `to_be_bytes`, `from_be_bytes`, slices and `copy_from_slice`, over lists of numbers.
use Prim.Native.Nat.{ℕ, zero, suc, ◌+◌, ◌*◌, ◌/◌, ◌%◌, ◌^◌, ◌<◌}
use mathlib.Core.Path.{◌≡◌, refl, ap, ap₂, ◌∙◌}
use mathlib.Core.List.{List, [], ◌∷◌, ◌++◌}
use native.Mathlib.Nat.{pow-suc}
use native.Mathlib.Omega.{arith}
use smolgnet.Base.Lists.{length, take, drop, replicate, All, length-append, All-append}
use smolgnet.Base.Lists.{take-append, drop-append, drop-append_past}

abbrev pub IsByte : ℕ → Type 0
IsByte b = b < 256

-- The `n` bytes of a word, the highest first.
unfoldable pub to_be_bytes : ℕ → ℕ → List ℕ
to_be_bytes zero v = []
to_be_bytes (suc n) v = to_be_bytes n (v / 256) ++ v % 256 ∷ []

unfoldable pub read_be : ℕ → List ℕ → ℕ
read_be acc [] = acc
read_be acc (b ∷ bs) = read_be (acc * 256 + b) bs

unfoldable pub from_be_bytes : List ℕ → ℕ
unfolding read_be
from_be_bytes = read_be 0

-- `buf[i..i + n]`.
abbrev pub slice : List ℕ → ℕ → ℕ → List ℕ
slice buf i n = take n (drop i buf)

-- `out[at..at + len].copy_from_slice(data)`, in range.
abbrev pub write_at : List ℕ → ℕ → List ℕ → List ℕ
write_at out at data' = take at out ++ (data' ++ drop (at + length data') out)

-- `vec![0u8; n]`.
abbrev pub zeros : ℕ → List ℕ
zeros n = replicate n 0

pub length-to_be_bytes : (n v : ℕ) → length (to_be_bytes n v) ≡ n
unfolding to_be_bytes
length-to_be_bytes zero v = refl
length-to_be_bytes (suc n) v =
    omega (
      arith,
      length-append (to_be_bytes n (v / 256)) (v % 256 ∷ []),
      length-to_be_bytes n (v / 256),
    )

pub to_be_bytes-All : (n v : ℕ) → All IsByte (to_be_bytes n v)
unfolding to_be_bytes
to_be_bytes-All zero v = tt
to_be_bytes-All (suc n) v =
    All-append IsByte (to_be_bytes n (v / 256)) (v % 256 ∷ []) (to_be_bytes-All n (v / 256))
      (omega arith)

read_be-append : (acc : ℕ) (xs ys : List ℕ) → read_be acc (xs ++ ys) ≡ read_be (read_be acc xs) ys
unfolding read_be
read_be-append acc [] ys = refl
read_be-append acc (x ∷ xs) ys = read_be-append (acc * 256 + x) xs ys

-- Reading back the bytes of a word that fits them.
pub from_be_bytes-to_be_bytes : (n v : ℕ) → v < 256 ^ n → from_be_bytes (to_be_bytes n v) ≡ v
unfolding from_be_bytes to_be_bytes
from_be_bytes-to_be_bytes zero v h = omega arith
from_be_bytes-to_be_bytes (suc n) v h = omega (
  arith,
  read_be-append 0 (to_be_bytes n (v / 256)) (v % 256 ∷ []),
  from_be_bytes-to_be_bytes n (v / 256) (omega (arith, pow-suc 256 n)),
)

-- A slice that starts where a front part ends.
pub slice-append :
    (i n : ℕ) (front data' rest : List ℕ)
    → length front ≡ i
    → length data' ≡ n
    → slice (front ++ (data' ++ rest)) i n ≡ data'
slice-append i n front data' rest hi hn =
    ap (take n) (drop-append i front (data' ++ rest) hi) ∙ take-append n data' rest hn

-- `copy_from_slice` where a front part ends.
pub write_at-append :
    (i : ℕ) (front data' rest : List ℕ)
    → length front ≡ i
    → write_at (front ++ rest) i data' ≡ front ++ (data' ++ drop (length data') rest)
write_at-append i front data' rest h =
    ap₂ ◌++◌ (take-append i front rest h) (
      ap (◌++◌ data') (drop-append_past (i + length data') (length data') front rest (omega arith)))

-- Reading a word where it stands in a buffer.
pub read_word :
    (i n v : ℕ) (front rest : List ℕ)
    → length front ≡ i
    → v < 256 ^ n
    → from_be_bytes (slice (front ++ (to_be_bytes n v ++ rest)) i n) ≡ v
read_word i n v front rest hi hv =
    ap from_be_bytes (slice-append i n front (to_be_bytes n v) rest hi (length-to_be_bytes n v))
    ∙ from_be_bytes-to_be_bytes n v hv
