-- ===== src/Gts.antt =====
-- wire/gts.rs: packet types, directions and stream profiles.
pub mod Lower
mod Tests
use smolgnet.Base.{
  ℕ, zero, suc, ◌*◌, ◌^◌, bit_and, bit_or, Bool, true, false, not, ◌&&◌, ◌||◌, ◌!=◌, ◌==◌, List, [],
  ◌∷◌, get_elem?,
}
use smolgnet.Base.Words.{shr}
use smolgnet.Base.Results.{
  Result, ok, err, ok_or, guard, ◌>>=◌, ◌>>◌, profile_violation, unsupported,
}
use smolgnet.Wire.Gdp.{SizeClass, class_code, class_from_wire}

pub data GtsType : Type 0 where
  reserved_type connect_type connect_ack_type stream_open_type : GtsType
  stream_ack_type data_type ack_type data_end_type : GtsType
  stream_close_type stream_close_ack_type tunnel_close_type tunnel_close_ack_type : GtsType
  reset_type datagram_type stream_reset_type stream_reset_ack_type : GtsType

unfoldable pub type_code : GtsType → ℕ
type_code reserved_type = 0
type_code connect_type = 1
type_code connect_ack_type = 2
type_code stream_open_type = 3
type_code stream_ack_type = 4
type_code data_type = 5
type_code ack_type = 6
type_code data_end_type = 7
type_code stream_close_type = 8
type_code stream_close_ack_type = 9
type_code tunnel_close_type = 10
type_code tunnel_close_ack_type = 11
type_code reset_type = 12
type_code datagram_type = 13
type_code stream_reset_type = 14
type_code stream_reset_ack_type = 15

unfoldable pub all_types : List GtsType
all_types =
    reserved_type ∷ connect_type ∷ connect_ack_type ∷ stream_open_type ∷ stream_ack_type ∷ data_type
    ∷ ack_type ∷ data_end_type ∷ stream_close_type ∷ stream_close_ack_type ∷ tunnel_close_type
    ∷ tunnel_close_ack_type ∷ reset_type ∷ datagram_type ∷ stream_reset_type ∷ stream_reset_ack_type
    ∷ []

-- `match v & 0xf`, whose last arm is not reached.
unfoldable pub type_from_wire : ℕ → Result GtsType
unfolding all_types
type_from_wire v = ok_or (get_elem? all_types (bit_and v 0xf)) unsupported

pub data Direction : Type 0 where
  opener_to_peer peer_to_opener bidirectional : Direction

unfoldable pub bits : Direction → ℕ
bits opener_to_peer = 1
bits peer_to_opener = 2
bits bidirectional = 3

unfoldable pub from_bits : ℕ → Result Direction
from_bits zero = err profile_violation
from_bits (suc zero) = ok opener_to_peer
from_bits (suc (suc zero)) = ok peer_to_opener
from_bits (suc (suc (suc zero))) = ok bidirectional
from_bits (suc (suc (suc (suc v)))) = err profile_violation

unfoldable pub opener_may_send : Direction → Bool
opener_may_send opener_to_peer = true
opener_may_send peer_to_opener = false
opener_may_send bidirectional = true

unfoldable pub peer_may_send : Direction → Bool
peer_may_send opener_to_peer = false
peer_may_send peer_to_opener = true
peer_may_send bidirectional = true

pub record StreamProfile : Type 0 where
  pub unreliable : Bool
  pub variable : Bool
  pub sequenced : Bool
  pub unchecked_payload : Bool
  pub direction : Direction
  pub size_class : SizeClass

unfoldable pub reliable_fixed : SizeClass → Direction → StreamProfile
reliable_fixed size_class direction = record {
  unreliable = false;
  variable = false;
  sequenced = false;
  unchecked_payload = false;
  direction = direction;
  size_class = size_class;
}

unfoldable pub reliable_variable : SizeClass → Direction → StreamProfile
reliable_variable max_class direction = record {
  unreliable = false;
  variable = true;
  sequenced = false;
  unchecked_payload = false;
  direction = direction;
  size_class = max_class;
}

unfoldable pub unreliable_fixed : SizeClass → Direction → Bool → Bool → StreamProfile
unreliable_fixed size_class direction sequenced unchecked_payload = record {
  unreliable = true;
  variable = false;
  sequenced = sequenced;
  unchecked_payload = unchecked_payload;
  direction = direction;
  size_class = size_class;
}

unfoldable pub unreliable_variable : SizeClass → Direction → Bool → Bool → StreamProfile
unreliable_variable max_class direction sequenced unchecked_payload = record {
  unreliable = true;
  variable = true;
  sequenced = sequenced;
  unchecked_payload = unchecked_payload;
  direction = direction;
  size_class = max_class;
}

unfoldable pub validate : StreamProfile → Result StreamProfile
validate p = do
  guard (not (not p.unreliable && (p.sequenced || p.unchecked_payload))) profile_violation
  ok p

-- `flag as u16`.
abbrev pub flag : Bool → ℕ
flag true = 1
flag false = 0

unfoldable pub to_wire : StreamProfile → Result ℕ
unfolding validate bits class_code
to_wire p = do
  valid ← validate p
  ok (
      bit_or
        (bit_or
          (bit_or
            (bit_or (bit_or (flag p.unreliable * 2 ^ 15) (flag p.variable * 2 ^ 14))
              (flag p.sequenced * 2 ^ 13))
            (flag p.unchecked_payload * 2 ^ 12))
          (bits p.direction * 2 ^ 10))
        (class_code p.size_class))

unfoldable pub from_wire : ℕ → Result StreamProfile
unfolding validate from_bits class_from_wire
from_wire v = do
  guard (bit_and v 0x03f0 == 0) profile_violation
  direction ← from_bits (bit_and (shr v 10) 3)
  size_class ← class_from_wire (bit_and v 0xf)
  validate (record {
    unreliable = bit_and v 0x8000 != 0;
    variable = bit_and v 0x4000 != 0;
    sequenced = bit_and v 0x2000 != 0;
    unchecked_payload = bit_and v 0x1000 != 0;
    direction = direction;
    size_class = size_class;
  })
