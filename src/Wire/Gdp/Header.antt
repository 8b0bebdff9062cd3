-- ===== src/Wire/Gdp/Header.antt =====
-- wire/gdp_handwritten.rs, the header codec, and the methods of wire/gdp.rs on a header, in the
-- build without the feature `p4-gdp`. A buffer that is written is returned beside the count.
pub mod Word
pub mod RoundTrip
pub mod Errors
use smolgnet.Base.{ℕ, ◌%◌, ◌^◌, bit_and, bit_or, ltb, length, ◌==◌, ◌!=◌}
use smolgnet.Base.{Bool, true, false, not, ◌&&◌, ◌||◌, List}
use smolgnet.Base.Results.{Result, ok, guard, ◌>>=◌, ◌>>◌}
use smolgnet.Base.Results.{invalid_length, invalid_field, invalid_crc, buffer_full}
use smolgnet.Base.Bytes.{to_be_bytes, from_be_bytes, slice, write_at, zeros}
use smolgnet.Base.Words.{shl32, shr}
use smolgnet.Wire.Gdp.{GdpHeader, GdpWireConfig, GdpAddresses, AddressForm}
use smolgnet.Wire.Gdp.{global_addresses, local_addresses, global_form, local_form}
use smolgnet.Wire.Gdp.{type_to_wire, type_from_wire, class_code, class_from_wire, form, form_bit}
use smolgnet.Wire.Gdp.{form_from_bit, header_len, crc8, prefix_bits}

-- `bit as u32`.
abbrev pub bit_word : Bool → ℕ
bit_word true = 1
bit_word false = 0

is_local : GdpAddresses → Bool
is_local (global_addresses destination source) = false
is_local (local_addresses destination source prefix) = true

hop_field : GdpHeader → GdpAddresses → ℕ
hop_field h (global_addresses destination source) = h.hop_limit
hop_field h (local_addresses destination source prefix) = bit_and h.hop_limit 0x0f

first_word : GdpHeader → GdpWireConfig → ℕ
unfolding hop_field
first_word h cfg =
    bit_or
      (bit_or
        (bit_or
          (bit_or
            (bit_or (shl32 (bit_and h.version 3) 30)
              (shl32 (bit_and (type_to_wire h.packet_type) 0x0f) 26))
            (shl32 (bit_and (class_code h.size_class) 0x0f) 22))
          (shl32 (bit_word (form_bit cfg (form h.addresses))) 21))
        (shl32 (crc8 h cfg) 8))
      (hop_field h h.addresses)

write_addresses : GdpAddresses → List ℕ → List ℕ
write_addresses (global_addresses destination source) out =
    write_at (write_at out 4 (to_be_bytes 8 destination)) 12 (to_be_bytes 8 source)
write_addresses (local_addresses destination source prefix) out =
    write_at out 4 (to_be_bytes 4 (bit_or (shl32 destination 16) source))

unfoldable pub encode_header_into : GdpHeader → GdpWireConfig → List ℕ → Result (ℕ × List ℕ)
unfolding is_local first_word write_addresses
encode_header_into h cfg out = do
  guard (not (ltb 3 h.version || ltb 15 (type_to_wire h.packet_type))) invalid_field
  guard (not (is_local h.addresses && ltb 15 h.hop_limit)) invalid_field
  guard (not (ltb (length out) (header_len h))) buffer_full
  let word1 = first_word h cfg
  ok (header_len h, write_addresses h.addresses (write_at out 0 (to_be_bytes 4 word1)))

-- `GdpHeader::encode`.
unfoldable pub encode_header : GdpHeader → GdpWireConfig → Result (List ℕ)
unfolding encode_header_into
encode_header h cfg = do (n, out) ← encode_header_into h cfg (zeros (header_len h)); ok out

decode_addresses : AddressForm → List ℕ → ℕ → ℕ → Result (ℕ × GdpAddresses)
decode_addresses global_form buf word local_prefix = do
  guard (not (ltb (length buf) 20)) invalid_length
  ok (
    bit_and word 0xff,
    global_addresses (from_be_bytes (slice buf 4 8)) (from_be_bytes (slice buf 12 8)),
  )
decode_addresses local_form buf word local_prefix = do
  guard (not (ltb (length buf) 8)) invalid_length
  let ids = from_be_bytes (slice buf 4 4)
  ok (
    bit_and word 0x0f,
    local_addresses (shr ids 16 % 2 ^ 16) (ids % 2 ^ 16) (bit_and local_prefix prefix_bits),
  )

unfoldable pub decode_header : List ℕ → GdpWireConfig → ℕ → Result GdpHeader
unfolding decode_addresses
decode_header buf cfg local_prefix = do
  guard (not (ltb (length buf) 4)) invalid_length
  let word = from_be_bytes (slice buf 0 4)
  size_class ← class_from_wire (bit_and (shr word 22) 0x0f)
  (hop_limit, addresses) ←
      decode_addresses (form_from_bit cfg (bit_and (shr word 21) 1 != 0)) buf word local_prefix
  let header : GdpHeader = record {
    version = bit_and (shr word 30) 3;
    packet_type = type_from_wire (bit_and (shr word 26) 0x0f);
    size_class = size_class;
    hop_limit = hop_limit;
    addresses = addresses;
  }
  guard (crc8 header cfg == bit_and (shr word 8) 0xff) invalid_crc
  ok header
