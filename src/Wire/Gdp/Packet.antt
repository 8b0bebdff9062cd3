-- ===== src/Wire/Gdp/Packet.antt =====
-- wire/gdp.rs: `GdpPacketRef` and `GdpPacket`. The borrowed and the owned packet have the same
-- fields, and one record stands for both.
pub mod RoundTrip
pub mod Errors
use smolgnet.Base.{ℕ, ◌+◌, ◌≡◌, List, length, drop, take, ltb, ◌==◌, not}
use smolgnet.Base.Results.{Result, ok, guard, ◌>>=◌, ◌>>◌, invalid_length, buffer_full}
use smolgnet.Base.Bytes.{write_at, zeros}
use smolgnet.Wire.Gdp.{GdpHeader, GdpWireConfig, class_bytes, header_len}
use smolgnet.Wire.Gdp.Header.{encode_header_into, decode_header}

pub record GdpPacket : Type 0 where
  pub header : GdpHeader
  pub payload : List ℕ

-- `GdpPacketRef::new` and `GdpPacket::new`.
unfoldable pub new : GdpHeader → List ℕ → Result GdpPacket
new header payload = do
  guard (length payload == class_bytes header.size_class) invalid_length
  ok (record { header = header; payload = payload })

unfoldable pub encode_into : GdpPacket → GdpWireConfig → List ℕ → Result (ℕ × List ℕ)
encode_into p cfg out = do
  let total = header_len p.header + length p.payload
  guard (not (ltb (length out) total)) buffer_full
  (n, out') ← encode_header_into p.header cfg out
  ok (total, write_at out' n p.payload)

unfoldable pub encode : GdpPacket → GdpWireConfig → Result (List ℕ)
unfolding new encode_into
encode p cfg = do
  let out = zeros (header_len p.header + length p.payload)
  packet ← new p.header p.payload
  (n, out') ← encode_into packet cfg out
  ok (take n out')

unfoldable pub decode : List ℕ → GdpWireConfig → ℕ → Result GdpPacket
decode buf cfg local_prefix = do
  header ← decode_header buf cfg local_prefix
  guard (length buf == header_len header + class_bytes header.size_class) invalid_length
  ok (record { header = header; payload = drop (header_len header) buf })
