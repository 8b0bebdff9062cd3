-- ===== src/Wire/Gdp/Packet/Errors.antt =====
-- wire/gdp.rs: the errors of decoding a packet are not those of the link's credit account.
use smolgnet.Base.{ℕ, refl, List}
use smolgnet.Base.Results.{FailsWith, bind-FailsWith, guard-FailsWith, ok-FailsWith, invalid_length}
use smolgnet.Wire.Gdp.{GdpWireConfig}
use smolgnet.Wire.Gdp.Header.Errors.{is_credit_error, IsOtherError, decode_header-IsOtherError}
use smolgnet.Wire.Gdp.Packet.{decode}

pub decode-IsOtherError :
    (bytes : List ℕ) (cfg : GdpWireConfig) (lp : ℕ) → FailsWith IsOtherError (decode bytes cfg lp)
unfolding decode IsOtherError is_credit_error
decode-IsOtherError bytes cfg lp =
    bind-FailsWith IsOtherError _ _ (decode_header-IsOtherError bytes cfg lp) λ header.
      bind-FailsWith IsOtherError _ _ (guard-FailsWith IsOtherError _ invalid_length refl)
        λ u. ok-FailsWith IsOtherError _
