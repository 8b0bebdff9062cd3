-- ===== src/Control/Parameters.antt =====
-- dlp_control.rs: the functions on generations, parameter units, channel modes and rates.
pub mod Laws
use smolgnet.Base.{
  ℕ, ◌+◌, ◌*◌, ◌/◌, ◌%◌, bit_and, bit_or, Bool, not, ◌||◌, ◌==◌, ◌!=◌, ltb, leb, if◌then◌else◌,
}
use smolgnet.Base.Results.{Result, ok, err, guard, ◌>>=◌, ◌>>◌, invalid_field, unsupported}
use smolgnet.Dlp.{VcMode, two, four}

-- `RATE_ALL`.
abbrev pub rate_all : ℕ
rate_all = 0b111

-- A parameter counts units of four flits, `DLP_CONTROL_PARAMETER_UNIT_FLITS`.
unfoldable pub encode_parameter_units : ℕ → Result ℕ
encode_parameter_units value = do
  guard (not (value == 0 || value % 4 != 0)) invalid_field
  guard (not (value / 4 == 0 || ltb 255 (value / 4))) invalid_field
  ok (value / 4)

unfoldable pub validate_parameter_value : ℕ → Result (Unit {0})
unfolding encode_parameter_units
validate_parameter_value value = do units ← encode_parameter_units value; ok tt

unfoldable pub decode_parameter_units : ℕ → Result ℕ
decode_parameter_units units = do guard (not (units == 0)) invalid_field; ok (units * 4)

unfoldable pub next_generation : ℕ → ℕ
next_generation generation = if leb 63 generation then 1 else generation + 1

unfoldable pub supported_mode_flags : VcMode → ℕ
supported_mode_flags two = 1
supported_mode_flags four = 3

unfoldable pub selected_mode_flag : VcMode → ℕ
selected_mode_flag two = 1
selected_mode_flag four = 2

unfoldable pub choose_vc_mode : VcMode → ℕ → Result VcMode
unfolding supported_mode_flags
choose_vc_mode local_max peer_flags =
    let common = bit_and (supported_mode_flags local_max) peer_flags in
    if bit_and common 2 != 0
    then ok four
    else if bit_and common 1 != 0
    then ok two
    else err unsupported

unfoldable pub choose_rate : ℕ → ℕ → Result ℕ
choose_rate local_rates peer_rates =
    let common = bit_and (bit_and local_rates peer_rates) 0x07 in
    if bit_and common 4 != 0
    then ok 4
    else if bit_and common 2 != 0
    then ok 2
    else if bit_and common 1 != 0
    then ok 1
    else err unsupported
