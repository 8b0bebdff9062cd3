-- ===== src/Wire/Gdp/Header/Errors.antt =====
-- wire/gdp_handwritten.rs: the errors of decoding a header are not those of the link's credit account.
use smolgnet.Base.{ℕ, ◌≡◌, refl, Bool, true, false, List, Option, none, some}
use smolgnet.Base.Results.{Error, credit_violation, buffer_full, ok_or}
use smolgnet.Base.Results.{
  FailsWith, bind-FailsWith, guard-FailsWith, ok-FailsWith, invalid_size_class, invalid_length,
  invalid_crc,
}
use smolgnet.Wire.Gdp.{GdpWireConfig, AddressForm, global_form, local_form}
use smolgnet.Wire.Gdp.{class_from_wire}
use smolgnet.Wire.Gdp.Header.{decode_header, decode_addresses}

unfoldable pub is_credit_error : Error → Bool
is_credit_error credit_violation = true
is_credit_error buffer_full = true
is_credit_error _ = false

-- The error is not one of the link's credit account.
unfoldable pub IsOtherError : Error → Type 0
IsOtherError x = is_credit_error x ≡ false

ok_or-FailsWith {ℓ} :
    {A : Type ℓ} (P : Error → Type 0) (o : Option A) (x : Error) → P x → FailsWith P (ok_or o x)
unfolding FailsWith
ok_or-FailsWith P none x h = h
ok_or-FailsWith P (some a) x h = tt

pub class_from_wire-IsOtherError : (v : ℕ) → FailsWith IsOtherError (class_from_wire v)
unfolding class_from_wire IsOtherError is_credit_error
class_from_wire-IsOtherError v = ok_or-FailsWith IsOtherError _ invalid_size_class refl

decode_addresses-IsOtherError :
    (f : AddressForm) (buf : List ℕ) (word lp : ℕ)
    → FailsWith IsOtherError (decode_addresses f buf word lp)
unfolding decode_addresses IsOtherError is_credit_error
decode_addresses-IsOtherError global_form buf word lp =
    bind-FailsWith IsOtherError _ _ (guard-FailsWith IsOtherError _ invalid_length refl)
      λ u. ok-FailsWith IsOtherError _
decode_addresses-IsOtherError local_form buf word lp =
    bind-FailsWith IsOtherError _ _ (guard-FailsWith IsOtherError _ invalid_length refl)
      λ u. ok-FailsWith IsOtherError _

pub decode_header-IsOtherError :
    (bytes : List ℕ) (cfg : GdpWireConfig) (lp : ℕ)
    → FailsWith IsOtherError (decode_header bytes cfg lp)
unfolding decode_header IsOtherError is_credit_error
decode_header-IsOtherError bytes cfg lp =
    bind-FailsWith IsOtherError _ _ (guard-FailsWith IsOtherError _ invalid_length refl) λ u.
      bind-FailsWith IsOtherError _ _ (class_from_wire-IsOtherError _) λ c.
        bind-FailsWith IsOtherError _ _ (decode_addresses-IsOtherError _ bytes _ lp) λ a.
          bind-FailsWith IsOtherError _ _ (guard-FailsWith IsOtherError _ invalid_crc refl)
            λ u'. ok-FailsWith IsOtherError _
