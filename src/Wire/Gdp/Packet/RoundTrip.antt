-- ===== src/Wire/Gdp/Packet/RoundTrip.antt =====
-- wire/gdp.rs: a packet's bytes, and that they decode to the packet.
use smolgnet.Base.{ℕ, ◌+◌, ◌≡◌, ap, ◌∙◌, List, ◌++◌, length, drop, take, ltb, ◌==◌}
use smolgnet.Base.{arith, true, false, length-append, take-length, drop-append, append-nil}
use smolgnet.Base.{length-replicate, ==_iff, drop-length, drop-drop, ◌≤◌}
use smolgnet.Base.Results.{ok}
use smolgnet.Base.Bytes.{write_at, zeros, write_at-append}
use smolgnet.Wire.Gdp.{GdpWireConfig, class_bytes, header_len}
use smolgnet.Wire.Gdp.Header.RoundTrip.{IsEncodable, header_bytes, length-header_bytes}
use smolgnet.Wire.Gdp.Header.RoundTrip.{encode_header_into-eq, decode_header-header_bytes}
use smolgnet.Wire.Gdp.Packet.{GdpPacket, encode, decode}

-- A packet that `GdpPacket::new` accepts, with an encodable header.
pub record IsWellFormed (local_prefix : ℕ) (p : GdpPacket) : Type 0 where
  pub header_encodable : IsEncodable local_prefix p.header
  pub payload_fits : length p.payload ≡ class_bytes p.header.size_class

pub packet_bytes : GdpPacket → GdpWireConfig → List ℕ
packet_bytes p cfg = header_bytes p.header cfg ++ p.payload

pub length-packet_bytes :
    (p : GdpPacket) (cfg : GdpWireConfig)
    → length (packet_bytes p cfg) ≡ header_len p.header + length p.payload
unfolding packet_bytes
length-packet_bytes p cfg =
    omega
      (arith, length-append (header_bytes p.header cfg) p.payload, length-header_bytes p.header cfg)

pub encode-packet_bytes :
    (lp : ℕ) (p : GdpPacket) (cfg : GdpWireConfig)
    → IsWellFormed lp p
    → encode p cfg ≡ ok (packet_bytes p cfg)
unfolding encode packet_bytes
encode-packet_bytes lp p cfg v =
    rw (size, room, encode_header_into-eq lp p.header cfg (zeros n) v.header_encodable fits)
      (ap (λ (o : List ℕ). ok o) trimmed)
  where
    n : ℕ
    n = header_len p.header + length p.payload

    size : (length p.payload == class_bytes p.header.size_class) ≡ true
    size = (==_iff _ _).1 v.payload_fits

    room : ltb (length (zeros n)) n ≡ false
    room = ground (arith, length-replicate {A = ℕ} n 0)

    fits : header_len p.header ≤ length (zeros n)
    fits = omega (arith, length-replicate {A = ℕ} n 0)

    whole :
        write_at
          (header_bytes p.header cfg ++ drop (header_len p.header) (zeros n))
          (header_len p.header)
          p.payload
        ≡ header_bytes p.header cfg ++ p.payload
    whole =
        write_at-append _ (header_bytes p.header cfg) p.payload _ (length-header_bytes p.header cfg)
        ∙ ap (λ (r : List ℕ). header_bytes p.header cfg ++ (p.payload ++ r))
            (drop-drop _ _ (zeros n)
              ∙ drop-length n (zeros n) (omega (arith, length-replicate {A = ℕ} n 0)))
        ∙ ap (◌++◌ (header_bytes p.header cfg)) (append-nil p.payload)

    len : length (header_bytes p.header cfg ++ p.payload) ≡ header_len p.header + length p.payload
    len = length-packet_bytes p cfg

    trimmed :
        take n (
          write_at
            (header_bytes p.header cfg ++ drop (header_len p.header) (zeros n))
            (header_len p.header)
            p.payload)
        ≡ header_bytes p.header cfg ++ p.payload
    trimmed = ap (take n) whole ∙ take-length n _ (omega (arith, len))

pub decode-packet_bytes :
    (lp : ℕ) (p : GdpPacket) (cfg : GdpWireConfig)
    → IsWellFormed lp p
    → decode (packet_bytes p cfg) cfg lp ≡ ok p
unfolding decode packet_bytes
decode-packet_bytes lp p cfg v =
    rw (decode_header-header_bytes lp p.header cfg p.payload v.header_encodable, size)
      (ap (λ (d : List ℕ). ok (record { header = p.header; payload = d }))
        (drop-append (header_len p.header) (header_bytes p.header cfg) p.payload
          (length-header_bytes p.header cfg)))
  where
    len : length (header_bytes p.header cfg ++ p.payload) ≡ header_len p.header + length p.payload
    len = length-packet_bytes p cfg

    size :
        (length (header_bytes p.header cfg ++ p.payload)
          == header_len p.header + class_bytes p.header.size_class)
        ≡ true
    size = (==_iff _ _).1 (omega (arith, len, v.payload_fits))

-- A well-formed packet encodes, and its bytes decode to it under the same configuration and with
-- the prefix that its header carries.
pub decode-encode :
    (lp : ℕ) (p : GdpPacket) (cfg : GdpWireConfig)
    → IsWellFormed lp p
    → (bytes : List ℕ) × (encode p cfg ≡ ok bytes) × (decode bytes cfg lp ≡ ok p)
decode-encode lp p cfg v =
    (packet_bytes p cfg, encode-packet_bytes lp p cfg v, decode-packet_bytes lp p cfg v)
