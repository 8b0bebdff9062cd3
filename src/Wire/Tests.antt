-- ===== src/Wire/Tests.antt =====
-- wire/: the theorems at concrete bytes and packets.
use smolgnet.Base.{ℕ, ◌≡◌, refl, arith, List, [], ◌∷◌}
use smolgnet.Base.Results.{ok}
use smolgnet.Wire.Crc.Crc8
use smolgnet.Wire.Crc.Crc32
use smolgnet.Wire.Crc.Bitwise.{bits_of_bytes, Crc8_update_bytes-bitwise, Crc32_update_bytes-bitwise}
use smolgnet.Wire.Gdp.{
  gts, tiny3, local_addresses, default_config, smallest_for, class_bytes, class_code,
}
use smolgnet.Wire.Gdp.SizeClasses.{Answers, smallest_for-Answers}
use smolgnet.Wire.Gdp.Packet.{GdpPacket, encode, decode}
use smolgnet.Wire.Gdp.Packet.RoundTrip.{IsWellFormed, decode-encode}

crc8_example :
    Crc8.update_bytes 0 (0x31 ∷ 0x32 ∷ []) ≡ bits_of_bytes Crc8.update_bits 0 (0x31 ∷ 0x32 ∷ [])
crc8_example =
    Crc8_update_bytes-bitwise (0x31 ∷ 0x32 ∷ []) 0 (omega arith) (omega arith, (omega arith, tt))

crc32_example :
    Crc32.update_bytes 0xffff_ffff (0x31 ∷ 0x32 ∷ [])
    ≡ bits_of_bytes Crc32.update_bits 0xffff_ffff (0x31 ∷ 0x32 ∷ [])
crc32_example =
    Crc32_update_bytes-bitwise (0x31 ∷ 0x32 ∷ []) 0xffff_ffff (omega arith)
      (omega arith, (omega arith, tt))

smallest_for_example : Answers 100 (smallest_for 100)
smallest_for_example = smallest_for-Answers 100

abbrev local_packet : GdpPacket
local_packet = record {
  header = record {
    version = 0;
    packet_type = gts;
    size_class = tiny3;
    hop_limit = 3;
    addresses = local_addresses 7 9 0x1234_0000_0000_0000;
  };
  payload = 1 ∷ 2 ∷ 3 ∷ [];
}

local_packet-IsWellFormed : IsWellFormed 0x1234_0000_0000_0000 local_packet
unfolding class_bytes class_code
local_packet-IsWellFormed = record {
  header_encodable = record {
    version_fits = omega arith;
    type_canonical = tt;
    addresses_fit = (omega arith, omega arith, omega arith, refl);
  };
  payload_fits = refl;
}

decode-encode_example :
    (bytes : List ℕ) × (encode local_packet default_config ≡ ok bytes)
    × (decode bytes default_config 0x1234_0000_0000_0000 ≡ ok local_packet)
decode-encode_example =
    decode-encode 0x1234_0000_0000_0000 local_packet default_config local_packet-IsWellFormed
