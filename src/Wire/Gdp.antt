-- ===== src/Wire/Gdp.antt =====
-- wire/gdp_common.rs: the GDP header's types and their wire codes. A `GdpAddress` is its u64.
pub mod Header
pub mod Packet
pub mod SizeClasses
use smolgnet.Base.{
  ℕ, zero, suc, ◌+◌, ◌*◌, ◌^◌, ◌≤◌, ◌<◌, bit_and, bit_or, get_elem?, get_or, leb, ltb,
}
use smolgnet.Base.{Bool, true, false, not, Option, none, some, List, [], ◌∷◌, if◌then◌else◌}
use smolgnet.Base.Results.{Result, ok, err, ok_or, invalid_field, invalid_size_class}
use smolgnet.Wire.Crc.Crc8

abbrev pub GdpAddress : Type 0
GdpAddress = ℕ

pub data GdpType : Type 0 where
  gctl gts : GdpType
  reserved : ℕ → GdpType

unfoldable pub type_to_wire : GdpType → ℕ
type_to_wire gctl = 0x1
type_to_wire gts = 0x2
type_to_wire (reserved v) = bit_and v 0x0f

-- `match v & 0x0f { 1 => Gctl, 2 => Gts, x => Reserved(x) }`.
type_of_code : ℕ → GdpType
type_of_code (suc zero) = gctl
type_of_code (suc (suc zero)) = gts
type_of_code x = reserved x

unfoldable pub type_from_wire : ℕ → GdpType
unfolding type_of_code
type_from_wire v = type_of_code (bit_and v 0x0f)

pub data SizeClass : Type 0 where
  empty tiny3 ctrl32 ctrl64 msg128 msg192 msg256 msg384 : SizeClass
  medium512 medium768 bulk1k bulk1280 legacy1500 xmtu2k jumbo4k jumbo8k : SizeClass

-- `self as u8`.
unfoldable pub class_code : SizeClass → ℕ
class_code empty = 0
class_code tiny3 = 1
class_code ctrl32 = 2
class_code ctrl64 = 3
class_code msg128 = 4
class_code msg192 = 5
class_code msg256 = 6
class_code msg384 = 7
class_code medium512 = 8
class_code medium768 = 9
class_code bulk1k = 10
class_code bulk1280 = 11
class_code legacy1500 = 12
class_code xmtu2k = 13
class_code jumbo4k = 14
class_code jumbo8k = 15

unfoldable pub all_classes : List SizeClass
all_classes =
    empty ∷ tiny3 ∷ ctrl32 ∷ ctrl64 ∷ msg128 ∷ msg192 ∷ msg256 ∷ msg384 ∷ medium512 ∷ medium768
    ∷ bulk1k ∷ bulk1280 ∷ legacy1500 ∷ xmtu2k ∷ jumbo4k ∷ jumbo8k ∷ []

abbrev byte_counts : List ℕ
byte_counts =
    0 ∷ 3 ∷ 32 ∷ 64 ∷ 128 ∷ 192 ∷ 256 ∷ 384 ∷ 512 ∷ 768 ∷ 1024 ∷ 1280 ∷ 1500 ∷ 2048 ∷ 4096 ∷ 8192
    ∷ []

-- `[0, 3, …][self as usize]`.
unfoldable pub class_bytes : SizeClass → ℕ
unfolding class_code
class_bytes c = get_or byte_counts (class_code c) 0

unfoldable pub class_from_wire : ℕ → Result SizeClass
unfolding all_classes
class_from_wire v = ok_or (get_elem? all_classes (bit_and v 0x0f)) invalid_size_class

-- `into_iter().find(|c| c.bytes() >= required)`.
unfoldable pub find_class : ℕ → List SizeClass → Option SizeClass
unfolding class_bytes
find_class required [] = none
find_class required (c ∷ rest) =
    if leb required (class_bytes c) then some c else find_class required rest

unfoldable pub smallest_for : ℕ → Option SizeClass
unfolding find_class all_classes
smallest_for required = find_class required all_classes

pub data AddressForm : Type 0 where
  global_form local_form : AddressForm

pub record GdpWireConfig : Type 0 where
  pub local_form_bit : Bool

unfoldable pub default_config : GdpWireConfig
default_config = record { local_form_bit = true }

unfoldable pub form_bit : GdpWireConfig → AddressForm → Bool
form_bit cfg local_form = cfg.local_form_bit
form_bit cfg global_form = not cfg.local_form_bit

-- `bit == self.local_form_bit`.
abbrev same_bit : Bool → Bool → Bool
same_bit true b = b
same_bit false b = not b

unfoldable pub form_from_bit : GdpWireConfig → Bool → AddressForm
form_from_bit cfg bit = if same_bit bit cfg.local_form_bit then local_form else global_form

pub data GdpAddresses : Type 0 where
  -- destination and source
  global_addresses : GdpAddress → GdpAddress → GdpAddresses
  -- destination and source (u16), prefix (u64)
  local_addresses : ℕ → ℕ → ℕ → GdpAddresses

unfoldable pub form : GdpAddresses → AddressForm
form (global_addresses destination source) = global_form
form (local_addresses destination source prefix) = local_form

-- `!0xffff` on u64.
abbrev pub prefix_bits : ℕ
prefix_bits = 0xffff_ffff_ffff_0000

unfoldable pub effective_destination : GdpAddresses → GdpAddress
effective_destination (global_addresses destination source) = destination
effective_destination (local_addresses destination source prefix) =
    bit_or (bit_and prefix prefix_bits) destination

unfoldable pub effective_source : GdpAddresses → GdpAddress
effective_source (global_addresses destination source) = source
effective_source (local_addresses destination source prefix) =
    bit_or (bit_and prefix prefix_bits) source

pub record GdpHeader : Type 0 where
  pub version : ℕ
  pub packet_type : GdpType
  pub size_class : SizeClass
  pub hop_limit : ℕ
  pub addresses : GdpAddresses

unfoldable pub global_header : GdpType → SizeClass → ℕ → GdpAddress → GdpAddress → GdpHeader
global_header packet_type size_class hop_limit source destination = record {
  version = 0;
  packet_type = packet_type;
  size_class = size_class;
  hop_limit = hop_limit;
  addresses = global_addresses destination source;
}

unfoldable pub local_header : GdpType → SizeClass → ℕ → ℕ → ℕ → ℕ → Result GdpHeader
local_header packet_type size_class hop_limit prefix source destination =
    if ltb 15 hop_limit
    then err invalid_field
    else ok (record {
      version = 0;
      packet_type = packet_type;
      size_class = size_class;
      hop_limit = hop_limit;
      addresses = local_addresses destination source (bit_and prefix prefix_bits);
    })

unfoldable pub addresses_len : GdpAddresses → ℕ
addresses_len (global_addresses destination source) = 20
addresses_len (local_addresses destination source prefix) = 8

unfoldable pub header_len : GdpHeader → ℕ
unfolding addresses_len
header_len h = addresses_len h.addresses

-- The part of `crc8` that depends on the form.
crc8_addresses : ℕ → GdpAddresses → ℕ
crc8_addresses c (global_addresses destination source) =
    Crc8.update_bits (Crc8.update_bits c destination 64) source 64
crc8_addresses c (local_addresses destination source prefix) =
    Crc8.update_bits (Crc8.update_bits c destination 16) source 16

unfoldable pub crc8 : GdpHeader → GdpWireConfig → ℕ
unfolding crc8_addresses
crc8 h cfg =
    let c0 = Crc8.update_bits Crc8.new (bit_and h.version 0x03) 2 in
    let c1 = Crc8.update_bits c0 (type_to_wire h.packet_type) 4 in
    let c2 = Crc8.update_bits c1 (class_code h.size_class) 4 in
    let c3 = Crc8.update_bit c2 (form_bit cfg (form h.addresses)) in
    Crc8.finalize (crc8_addresses c3 h.addresses)
