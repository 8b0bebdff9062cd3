-- ===== src/Wire/Gdp/Header/RoundTrip.antt =====
-- wire/gdp_handwritten.rs: what the encoder writes, and that the decoder reads it back.
use smolgnet.Base.{ℕ, ◌+◌, ◌*◌, ◌%◌, ◌^◌, ◌≤◌, ◌<◌, bit_and, bit_or, arith, length, drop}
use smolgnet.Base.{Bool, false, ◌&&◌, ◌||◌, ◌≡◌, refl, sym, ap, ap₂, ◌∙◌, List, [], ◌++◌, take}
use smolgnet.Base.{append_assoc, length-append, drop-drop, drop_at, ltb, ==-refl}
use smolgnet.Base.Bits.{or_add, and_mask}
use smolgnet.Base.Words.{IsU8, IsU16, IsU64, shl32, shr}
use smolgnet.Base.Bytes.{to_be_bytes, from_be_bytes, slice, write_at, length-to_be_bytes}
use smolgnet.Base.Bytes.{read_word, write_at-append}
use smolgnet.Base.Results.{ok}
use smolgnet.Wire.Gdp.{GdpHeader, GdpWireConfig, GdpAddresses, type_to_wire}
use smolgnet.Wire.Gdp.{global_addresses, local_addresses, addresses_len, header_len, prefix_bits}
use smolgnet.Wire.Gdp.{class_code, form, form_bit, crc8}
use smolgnet.Wire.Gdp.Header.{bit_word, hop_field, first_word, is_local, write_addresses}
use smolgnet.Wire.Gdp.Header.{encode_header_into, decode_header, decode_addresses}
use smolgnet.Wire.Gdp.Header.Word.{pack_fields, unpack_fields, IsCanonical, type_to_wire-lt}
use smolgnet.Wire.Gdp.Header.Word.{type_from_wire-type_to_wire, class_code-lt}
use smolgnet.Wire.Gdp.Header.Word.{class_from_wire-class_code, form_from_bit-form_bit, crc8-lt}

bit_word-lt : (b : Bool) → bit_word b < 2
bit_word-lt b = ground arith

-- The ranges of the fields, and for local addresses the decoder's own prefix.
abbrev pub AddressesFit : ℕ → ℕ → GdpAddresses → Type 0
AddressesFit local_prefix hop_limit (global_addresses destination source) =
    IsU8 hop_limit × IsU64 destination × IsU64 source
AddressesFit local_prefix hop_limit (local_addresses destination source prefix) =
    (hop_limit < 16)
    × IsU16 destination
    × IsU16 source
    × (prefix ≡ bit_and local_prefix prefix_bits)

pub record IsEncodable (local_prefix : ℕ) (h : GdpHeader) : Type 0 where
  pub version_fits : h.version < 4
  pub type_canonical : IsCanonical h.packet_type
  pub addresses_fit : AddressesFit local_prefix h.hop_limit h.addresses

unfoldable pub address_bytes : GdpAddresses → List ℕ
address_bytes (global_addresses destination source) =
    to_be_bytes 8 destination ++ to_be_bytes 8 source
address_bytes (local_addresses destination source prefix) =
    to_be_bytes 4 (destination * 2 ^ 16 + source)

pub header_bytes : GdpHeader → GdpWireConfig → List ℕ
header_bytes h cfg = to_be_bytes 4 (first_word h cfg) ++ address_bytes h.addresses

pub length-address_bytes : (a : GdpAddresses) → length (address_bytes a) + 4 ≡ addresses_len a
unfolding address_bytes addresses_len
length-address_bytes (global_addresses destination source) = omega (
  arith,
  length-append (to_be_bytes 8 destination) (to_be_bytes 8 source),
  length-to_be_bytes 8 destination,
  length-to_be_bytes 8 source,
)
length-address_bytes (local_addresses destination source prefix) =
    omega (arith, length-to_be_bytes 4 (destination * 2 ^ 16 + source))

pub length-header_bytes :
    (h : GdpHeader) (cfg : GdpWireConfig) → length (header_bytes h cfg) ≡ header_len h
unfolding header_bytes header_len
length-header_bytes h cfg = omega (
  arith,
  length-append (to_be_bytes 4 (first_word h cfg)) (address_bytes h.addresses),
  length-to_be_bytes 4 (first_word h cfg),
  length-address_bytes h.addresses,
)

hop_field-eq :
    (lp : ℕ) (h : GdpHeader) (a : GdpAddresses)
    → AddressesFit lp h.hop_limit a
    → (hop_field h a ≡ h.hop_limit) × (h.hop_limit < 256)
unfolding hop_field
hop_field-eq lp h (global_addresses destination source) fits = omega arith
hop_field-eq lp h (local_addresses destination source prefix) fits =
    omega (arith, and_mask 4 h.hop_limit)

first_word-eq :
    (lp : ℕ) (h : GdpHeader) (cfg : GdpWireConfig)
    → IsEncodable lp h
    → first_word h cfg
      ≡ h.version * 2 ^ 30
        + type_to_wire h.packet_type * 2 ^ 26
        + class_code h.size_class * 2 ^ 22
        + bit_word (form_bit cfg (form h.addresses)) * 2 ^ 21
        + crc8 h cfg * 2 ^ 8
        + h.hop_limit
unfolding first_word
first_word-eq lp h cfg v =
    rw (version_mask, type_mask, class_mask, hop.0)
      (pack_fields h.version (type_to_wire h.packet_type) (class_code h.size_class) _ (crc8 h cfg)
        h.hop_limit v.version_fits (type_to_wire-lt _) (class_code-lt _) (bit_word-lt _)
        (crc8-lt h cfg) hop.1)
  where
    version_mask : bit_and h.version 3 ≡ h.version
    version_mask = omega (arith, and_mask 2 h.version)

    type_mask : bit_and (type_to_wire h.packet_type) 0x0f ≡ type_to_wire h.packet_type
    type_mask =
        omega (arith, and_mask 4 (type_to_wire h.packet_type), type_to_wire-lt h.packet_type)

    class_mask : bit_and (class_code h.size_class) 0x0f ≡ class_code h.size_class
    class_mask = omega (arith, and_mask 4 (class_code h.size_class), class_code-lt h.size_class)

    hop : (hop_field h h.addresses ≡ h.hop_limit) × (h.hop_limit < 256)
    hop = hop_field-eq lp h h.addresses v.addresses_fit

write_first : (w out : List ℕ) → length w ≡ 4 → write_at out 0 w ≡ w ++ drop 4 out
write_first w out h = ap (◌++◌ w) (drop_at (0 + length w) 4 out (omega arith))

written :
    (lp hop : ℕ) (a : GdpAddresses) (w out : List ℕ)
    → AddressesFit lp hop a
    → length w ≡ 4
    → write_addresses a (write_at out 0 w) ≡ (w ++ address_bytes a) ++ drop (addresses_len a) out
unfolding write_addresses address_bytes addresses_len
written lp hop (global_addresses destination source) w out fits h =
    ap (λ (o : List ℕ). write_at (write_at o 4 d) 12 s) (write_first w out h)
    ∙ ap (λ (o : List ℕ). write_at o 12 s)
        (write_at-append 4 w d (drop 4 out) h ∙ sym (append_assoc w d _))
    ∙ write_at-append 12 (w ++ d) s _
        (omega (arith, length-append w d, length-to_be_bytes 8 destination))
    ∙ sym (append_assoc (w ++ d) s _)
    ∙ ap₂ ◌++◌ (append_assoc w d s) rest
  where
    d : List ℕ
    d = to_be_bytes 8 destination

    s : List ℕ
    s = to_be_bytes 8 source

    rest : drop (length s) (drop (length d) (drop 4 out)) ≡ drop 20 out
    rest =
        drop-drop (length s) (length d) (drop 4 out)
        ∙ drop-drop (length d + length s) 4 out
        ∙ drop_at _ 20 out
            (omega (arith, length-to_be_bytes 8 destination, length-to_be_bytes 8 source))
written lp hop (local_addresses destination source prefix) w out fits h =
    ap (λ (o : List ℕ). write_at o 4 (to_be_bytes 4 (bit_or (shl32 destination 16) source)))
      (write_first w out h)
    ∙ ap (λ (v : ℕ). write_at (w ++ drop 4 out) 4 (to_be_bytes 4 v)) ids
    ∙ write_at-append 4 w d (drop 4 out) h
    ∙ sym (append_assoc w d _)
    ∙ ap (λ (r : List ℕ). (w ++ d) ++ r)
        (drop-drop (length d) 4 out
          ∙ drop_at _ 8 out (omega (arith, length-to_be_bytes 4 (destination * 2 ^ 16 + source))))
  where
    d : List ℕ
    d = to_be_bytes 4 (destination * 2 ^ 16 + source)

    ids : bit_or (shl32 destination 16) source ≡ destination * 2 ^ 16 + source
    ids = ap (λ (x : ℕ). bit_or x source) (omega arith) ∙ or_add 16 destination source fits.2

not_local_hop :
    (lp hop : ℕ) (a : GdpAddresses) → AddressesFit lp hop a → (is_local a && ltb 15 hop) ≡ false
unfolding is_local
not_local_hop lp hop (global_addresses destination source) fits = refl
not_local_hop lp hop (local_addresses destination source prefix) fits = ground arith

-- On an encodable header and a long enough buffer the encoder succeeds: it returns the header's
-- length, writes the header's bytes at the front, and leaves the rest of the buffer alone.
pub encode_header_into-eq :
    (lp : ℕ) (h : GdpHeader) (cfg : GdpWireConfig) (out : List ℕ)
    → IsEncodable lp h
    → header_len h ≤ length out
    → encode_header_into h cfg out
      ≡ ok (header_len h, header_bytes h cfg ++ drop (header_len h) out)
unfolding encode_header_into header_bytes
encode_header_into-eq lp h cfg out v fits =
    rw (fields, not_local_hop lp h.hop_limit h.addresses v.addresses_fit, room)
      (ap (λ (o : List ℕ). ok (header_len h, o))
        (written lp h.hop_limit h.addresses (to_be_bytes 4 (first_word h cfg)) out v.addresses_fit
            (length-to_be_bytes 4 (first_word h cfg))
          ∙ ap (◌++◌ _) (drop_at (addresses_len h.addresses) (header_len h) out len)))
  where
    fields : (ltb 3 h.version || ltb 15 (type_to_wire h.packet_type)) ≡ false
    fields = ground (arith, v.version_fits, type_to_wire-lt h.packet_type)

    len : addresses_len h.addresses ≡ header_len h
    len = unfold header_len in refl

    room : ltb (length out) (header_len h) ≡ false
    room = ground arith

decode_addresses-eq :
    (lp word : ℕ) (h : GdpHeader) (a : GdpAddresses) (w rest : List ℕ)
    → AddressesFit lp h.hop_limit a
    → length w ≡ 4
    → bit_and word 0xff ≡ h.hop_limit
    → bit_and word 0x0f ≡ h.hop_limit % 16
    → decode_addresses (form a) (w ++ (address_bytes a ++ rest)) word lp ≡ ok (h.hop_limit, a)
unfolding decode_addresses address_bytes form
decode_addresses-eq lp word h (global_addresses destination source) w rest fits hw e f =
    rw (room, first, second, e)
  where
    d : List ℕ
    d = to_be_bytes 8 destination

    s : List ℕ
    s = to_be_bytes 8 source

    buf : List ℕ
    buf = w ++ ((d ++ s) ++ rest)

    grouped : buf ≡ w ++ (d ++ (s ++ rest))
    grouped = ap (◌++◌ w) (append_assoc d s rest)

    room : ltb (length buf) 20 ≡ false
    room = ground (
      arith,
      length-append w ((d ++ s) ++ rest),
      length-append (d ++ s) rest,
      length-append d s,
      length-to_be_bytes 8 destination,
      length-to_be_bytes 8 source,
    )

    first : from_be_bytes (slice buf 4 8) ≡ destination
    first =
        ap (λ (b : List ℕ). from_be_bytes (slice b 4 8)) grouped
        ∙ read_word 4 8 destination w (s ++ rest) hw (omega arith)

    second : from_be_bytes (slice buf 12 8) ≡ source
    second =
        ap (λ (b : List ℕ). from_be_bytes (slice b 12 8))
          (grouped ∙ sym (append_assoc w d (s ++ rest)))
        ∙ read_word 12 8 source (w ++ d) rest
            (omega (arith, length-append w d, length-to_be_bytes 8 destination)) (omega arith)
decode_addresses-eq lp word h (local_addresses destination source prefix) w rest fits hw e f =
    rw (room, f)
      (ap (λ (p : ℕ × GdpAddresses). ok p)
        (ap₂ (λ (x : ℕ) (y : GdpAddresses). (x, y)) (omega arith) parts))
  where
    ids : ℕ
    ids = destination * 2 ^ 16 + source

    buf : List ℕ
    buf = w ++ (to_be_bytes 4 ids ++ rest)

    room : ltb (length buf) 8 ≡ false
    room = ground (
      arith,
      length-append w (to_be_bytes 4 ids ++ rest),
      length-append (to_be_bytes 4 ids) rest,
      length-to_be_bytes 4 ids,
    )

    read : from_be_bytes (slice buf 4 4) ≡ ids
    read = read_word 4 4 ids w rest hw (omega arith)

    parts :
        local_addresses
          (shr (from_be_bytes (slice buf 4 4)) 16 % 2 ^ 16)
          (from_be_bytes (slice buf 4 4) % 2 ^ 16)
          (bit_and lp prefix_bits)
        ≡ local_addresses destination source prefix
    parts = cc (
      ap (λ (v : ℕ). shr v 16 % 2 ^ 16) read ∙ high,
      ap (λ (v : ℕ). v % 2 ^ 16) read ∙ low,
      fits.3,
    )
      where
        high : shr ids 16 % 2 ^ 16 ≡ destination
        high = omega arith

        low : ids % 2 ^ 16 ≡ source
        low = omega arith

-- A buffer that starts with the bytes of an encodable header decodes to that header, whatever
-- follows, under the same configuration and with the prefix that the header carries.
pub decode_header-header_bytes :
    (lp : ℕ) (h : GdpHeader) (cfg : GdpWireConfig) (rest : List ℕ)
    → IsEncodable lp h
    → decode_header (header_bytes h cfg ++ rest) cfg lp ≡ ok h
unfolding decode_header header_bytes
decode_header-header_bytes lp h cfg rest v =
    rw
      (
        append_assoc w (address_bytes h.addresses) rest,
        room,
        word,
        fields.2,
        class_from_wire-class_code,
        fields.3,
        form_from_bit-form_bit,
        decode_addresses-eq lp (first_word h cfg) h h.addresses w rest v.addresses_fit
            (length-to_be_bytes 4 _) fields.5 fields.6,
      )
      (rw (
        fields.0,
        fields.1,
        type_from_wire-type_to_wire h.packet_type v.type_canonical,
        fields.4,
        ==-refl,
      ))
  where
    w : List ℕ
    w = to_be_bytes 4 (first_word h cfg)

    room : ltb (length (w ++ (address_bytes h.addresses ++ rest))) 4 ≡ false
    room = ground (
      arith,
      length-append w (address_bytes h.addresses ++ rest),
      length-to_be_bytes 4 (first_word h cfg),
    )

    hop : h.hop_limit < 256
    hop = (hop_field-eq lp h h.addresses v.addresses_fit).1

    word : from_be_bytes (take 4 (w ++ (address_bytes h.addresses ++ rest))) ≡ first_word h cfg
    word = read_word 0 4 (first_word h cfg) [] (address_bytes h.addresses ++ rest) refl (
        omega (
          arith,
          first_word-eq lp h cfg v,
          type_to_wire-lt h.packet_type,
          class_code-lt h.size_class,
          bit_word-lt (form_bit cfg (form h.addresses)),
          crc8-lt h cfg,
          hop,
        ))

    fields :
        (bit_and (shr (first_word h cfg) 30) 3 ≡ h.version)
        × (bit_and (shr (first_word h cfg) 26) 0x0f ≡ type_to_wire h.packet_type)
        × (bit_and (shr (first_word h cfg) 22) 0x0f ≡ class_code h.size_class)
        × (bit_and (shr (first_word h cfg) 21) 1 ≡ bit_word (form_bit cfg (form h.addresses)))
        × (bit_and (shr (first_word h cfg) 8) 0xff ≡ crc8 h cfg)
        × (bit_and (first_word h cfg) 0xff ≡ h.hop_limit)
        × (bit_and (first_word h cfg) 0x0f ≡ h.hop_limit % 16)
    fields =
        unpack_fields h.version (type_to_wire h.packet_type) (class_code h.size_class) _
          (crc8 h cfg) h.hop_limit _ v.version_fits (type_to_wire-lt _) (class_code-lt _)
          (bit_word-lt _) (crc8-lt h cfg) hop (first_word-eq lp h cfg v)
