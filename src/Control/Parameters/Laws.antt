-- ===== src/Control/Parameters/Laws.antt =====
-- dlp_control.rs: what the choices of modes, rates, units and generations come to.
use smolgnet.Base.{
  ℕ, ◌*◌, ◌/◌, ◌%◌, ◌<◌, ◌≡◌, ◌≢◌, refl, arith, false, ◌||◌, ◌==◌, ◌!=◌, ltb, inl, inr, Bool-cases,
}
use smolgnet.Base.Results.{ok, Returns}
use smolgnet.Dlp.{VcMode, two, four}
use smolgnet.Control.Frame.Word.{IsGeneration}
use smolgnet.Control.Parameters.{
  rate_all, encode_parameter_units, next_generation, supported_mode_flags, choose_vc_mode,
  choose_rate,
}

-- The mode that both ends support.
unfoldable pub agreed : VcMode → VcMode → VcMode
agreed two mode = two
agreed four mode = mode

pub agreed_comm : (a b : VcMode) → agreed a b ≡ agreed b a
unfolding agreed
agreed_comm two two = refl
agreed_comm two four = refl
agreed_comm four two = refl
agreed_comm four four = refl

pub choose_vc_mode-supported_mode_flags :
    (a b : VcMode) → choose_vc_mode a (supported_mode_flags b) ≡ ok (agreed a b)
unfolding choose_vc_mode supported_mode_flags agreed
choose_vc_mode-supported_mode_flags two two = refl
choose_vc_mode-supported_mode_flags two four = refl
choose_vc_mode-supported_mode_flags four two = refl
choose_vc_mode-supported_mode_flags four four = refl

pub choose_rate-rate_all : choose_rate rate_all rate_all ≡ ok 4
unfolding choose_rate
choose_rate-rate_all = refl

pub next_generation-IsGeneration : (g : ℕ) → IsGeneration (next_generation g)
unfolding next_generation
next_generation-IsGeneration g = (small g, positive g)
  where
    small : (g : ℕ) → next_generation g < 64
    small g = ground arith

    positive : (g : ℕ) → next_generation g ≢ 0
    positive g = ground arith

-- The units of a number of flits.
abbrev pub IsUnits : ℕ → ℕ → Type 0
IsUnits value units = ((units < 256) × (units ≢ 0)) × (units * 4 ≡ value)

pub encode_parameter_units-IsUnits :
    (value : ℕ) → Returns (IsUnits value) (encode_parameter_units value)
unfolding encode_parameter_units Returns
encode_parameter_units-IsUnits value = elim (Bool-cases (value == 0 || value % 4 != 0)) [
  | inl refused ↦ rw refused tt
  | inr whole ↦ rw whole (elim (Bool-cases (value / 4 == 0 || ltb 255 (value / 4))) [
    | inl refused ↦ rw refused tt
    | inr small ↦ rw small ((below small, nonzero small), back whole)
  ])
]
  where
    below : (value / 4 == 0 || ltb 255 (value / 4)) ≡ false → value / 4 < 256
    below h = ground (arith, h)

    nonzero : (value / 4 == 0 || ltb 255 (value / 4)) ≡ false → value / 4 ≢ 0
    nonzero h = ground (arith, h)

    back : (value == 0 || value % 4 != 0) ≡ false → (value / 4) * 4 ≡ value
    back h = ground (arith, h)
