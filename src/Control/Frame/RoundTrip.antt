-- ===== src/Control/Frame/RoundTrip.antt =====
-- dlp_control.rs: a frame's bytes decode to it.
use smolgnet.Base.{
  ℕ, ◌+◌, ◌*◌, ◌^◌, ◌<◌, ◌≡◌, ◌≢◌, ◌∙◌, refl, bit_and, arith, true, false, ◌||◌, ◌==◌, ◌!=◌,
}
use smolgnet.Base.Bits.{and_mask}
use smolgnet.Base.Words.{shr}
use smolgnet.Base.Results.{ok}
use smolgnet.Base.Bytes.{from_be_bytes-to_be_bytes, length-to_be_bytes}
use smolgnet.Control.Frame.{
  DlpControlFrame, hello, capabilities, reset, link_parameters, DlpHelloKind, DlpCapabilityKind,
}
use smolgnet.Control.Frame.{
  initial, acknowledgement, offer, selection, confirmation, hello_code, capability_code,
}
use smolgnet.Control.Frame.{
  hello_from_wire, capability_from_wire, opcode_from_wire, opcode, opcode_code, frame_word,
  decode_frame, decode_word, decode, encode,
}
use smolgnet.Control.Frame.{
  DlpControlOpcode, hello_opcode, capabilities_opcode, reset_opcode, link_parameters_opcode,
}
use smolgnet.Control.Frame.Word.{
  IsFrame, word_sum, frame_word-eq, hello_code-lt, capability_code-lt,
}

hello_from_wire-code : (kind : DlpHelloKind) → hello_from_wire (hello_code kind) ≡ ok kind
unfolding hello_from_wire hello_code
hello_from_wire-code initial = refl
hello_from_wire-code acknowledgement = refl

capability_from_wire-code :
    (kind : DlpCapabilityKind) → capability_from_wire (capability_code kind) ≡ ok kind
unfolding capability_from_wire capability_code
capability_from_wire-code offer = refl
capability_from_wire-code selection = refl
capability_from_wire-code confirmation = refl

-- The fields that the decoder takes out of a hello's word.
hello_fields :
    (w k s p : ℕ)
    → w ≡ 1 * 2 ^ 28 + 2 ^ 24 + k * 2 ^ 22 + s * 2 ^ 16 + p * 2 ^ 10
    → k < 2
    → s < 64
    → p < 64
    → (bit_and w 0x3ff ≡ 0)
      × (bit_and (shr w 22) 0x3 ≡ k)
      × (bit_and (shr w 16) 0x3f ≡ s)
      × (bit_and (shr w 10) 0x3f ≡ p)
hello_fields w k s p e hk hs hp =
    omega
      (arith, and_mask 10 w, and_mask 2 (shr w 22), and_mask 6 (shr w 16), and_mask 6 (shr w 10))

capabilities_fields :
    (w k s p r : ℕ)
    → w ≡ 2 * 2 ^ 28 + 2 ^ 24 + s * 2 ^ 18 + k * 2 ^ 16 + p * 2 ^ 12 + r * 2 ^ 9
    → k < 3
    → s < 64
    → p < 16
    → r < 8
    → (bit_and w 0x1ff ≡ 0)
      × (bit_and (shr w 18) 0x3f ≡ s)
      × (bit_and (shr w 16) 0x3 ≡ k)
      × (bit_and (shr w 12) 0xf ≡ p)
      × (bit_and (shr w 9) 0x7 ≡ r)
capabilities_fields w k s p r e hk hs hp hr = omega (
  arith,
  and_mask 9 w,
  and_mask 6 (shr w 18),
  and_mask 2 (shr w 16),
  and_mask 4 (shr w 12),
  and_mask 3 (shr w 9),
)

reset_fields :
    (w s r : ℕ)
    → w ≡ 3 * 2 ^ 28 + 2 ^ 24 + s * 2 ^ 18 + r * 2 ^ 14
    → s < 64
    → r < 16
    → (bit_and w 0x3fff ≡ 0) × (bit_and (shr w 18) 0x3f ≡ s) × (bit_and (shr w 14) 0xf ≡ r)
reset_fields w s r e hs hr =
    omega (arith, and_mask 14 w, and_mask 6 (shr w 18), and_mask 4 (shr w 14))

parameters_fields :
    (w k s x b : ℕ)
    → w ≡ 8 * 2 ^ 28 + 2 ^ 24 + s * 2 ^ 18 + k * 2 ^ 16 + x * 2 ^ 8 + b
    → k < 3
    → s < 64
    → x < 256
    → b < 256
    → (bit_and (shr w 18) 0x3f ≡ s)
      × (bit_and (shr w 16) 0x3 ≡ k)
      × (bit_and (shr w 8) 0xff ≡ x)
      × (bit_and w 0xff ≡ b)
parameters_fields w k s x b e hk hs hx hb =
    omega (arith, and_mask 6 (shr w 18), and_mask 2 (shr w 16), and_mask 8 (shr w 8), and_mask 8 w)

-- The opcode and the version stand above the rest.
head_fields :
    (w op rest : ℕ)
    → w ≡ op * 2 ^ 28 + 2 ^ 24 + rest
    → op < 16
    → rest < 2 ^ 24
    → (bit_and (shr w 28) 0xf ≡ op) × (bit_and (shr w 24) 0xf ≡ 1)
head_fields w op rest e ho hr = omega (arith, and_mask 4 (shr w 28), and_mask 4 (shr w 24))

nonzero : (s : ℕ) → s ≢ 0 → (s != 0) ≡ true
nonzero s h = ground (arith, h)

present : (s p r : ℕ) → s ≢ 0 → p ≢ 0 → r ≢ 0 → (s == 0 || (p == 0 || r == 0)) ≡ false
present s p r h k l = ground (arith, h, k, l)

decode_frame-eq :
    (f : DlpControlFrame) (w : ℕ) → w ≡ word_sum f → IsFrame f → decode_frame (opcode f) w ≡ ok f
unfolding decode_frame opcode IsFrame word_sum
decode_frame-eq (hello kind s p) w e v =
    let f = hello_fields w (hello_code kind) s p e (hello_code-lt kind) v.0.0 v.1 in
    rw (f.0, f.1, f.2, f.3, hello_from_wire-code kind, v.2, nonzero s v.0.1) refl
decode_frame-eq (capabilities kind s p r) w e v =
    let f =
      capabilities_fields w (capability_code kind) s p r e (capability_code-lt kind) v.0.0 v.1.0
        v.2.0 in
    rw
      (
        f.0,
        f.1,
        f.2,
        f.3,
        f.4,
        capability_from_wire-code kind,
        present s p r v.0.1 v.1.1 v.2.1,
        v.3,
      )
      refl
decode_frame-eq (reset s r) w e v =
    let f = reset_fields w s r e v.0.0 v.1 in rw (f.0, f.1, f.2, nonzero s v.0.1) refl
decode_frame-eq (link_parameters kind s x b) w e v =
    let f =
      parameters_fields w (capability_code kind) s x b e (capability_code-lt kind) v.0.0 v.1.0
        v.2.0 in
    rw (f.0, f.1, f.2, f.3, capability_from_wire-code kind, present s x b v.0.1 v.1.1 v.2.1) refl

opcode_from_wire-code : (op : DlpControlOpcode) → opcode_from_wire (opcode_code op) ≡ ok op
unfolding opcode_from_wire opcode_code
opcode_from_wire-code hello_opcode = refl
opcode_from_wire-code capabilities_opcode = refl
opcode_from_wire-code reset_opcode = refl
opcode_from_wire-code link_parameters_opcode = refl

-- The opcode, the version and what is left of the word.
word_sum-head :
    (f : DlpControlFrame)
    → IsFrame f
    → (rest : ℕ) × (word_sum f ≡ opcode_code (opcode f) * 2 ^ 28 + 2 ^ 24 + rest) × (rest < 2 ^ 24)
unfolding word_sum IsFrame opcode opcode_code
word_sum-head (hello kind s p) v = (
  hello_code kind * 2 ^ 22 + s * 2 ^ 16 + p * 2 ^ 10,
  omega arith,
  omega (arith, hello_code-lt kind, v.0.0, v.1),
)
word_sum-head (capabilities kind s p r) v = (
  s * 2 ^ 18 + capability_code kind * 2 ^ 16 + p * 2 ^ 12 + r * 2 ^ 9,
  omega arith,
  omega (arith, capability_code-lt kind, v.0.0, v.1.0, v.2.0),
)
word_sum-head (reset s r) v = (s * 2 ^ 18 + r * 2 ^ 14, omega arith, omega (arith, v.0.0, v.1))
word_sum-head (link_parameters kind s x b) v = (
  s * 2 ^ 18 + capability_code kind * 2 ^ 16 + x * 2 ^ 8 + b,
  omega arith,
  omega (arith, capability_code-lt kind, v.0.0, v.1.0, v.2.0),
)

opcode_code-lt : (op : DlpControlOpcode) → opcode_code op < 16
unfolding opcode_code
opcode_code-lt hello_opcode = omega arith
opcode_code-lt capabilities_opcode = omega arith
opcode_code-lt reset_opcode = omega arith
opcode_code-lt link_parameters_opcode = omega arith

decode_word-eq : (f : DlpControlFrame) (w : ℕ) → w ≡ word_sum f → IsFrame f → decode_word w ≡ ok f
unfolding decode_word
decode_word-eq f w e v =
    let (rest, sum, small) = word_sum-head f v in
    let head =
      head_fields w (opcode_code (opcode f)) rest (e ∙ sum) (opcode_code-lt (opcode f)) small in
    rw (head.0, head.1, opcode_from_wire-code (opcode f)) (decode_frame-eq f w e v)

frame_word-lt : (f : DlpControlFrame) → IsFrame f → frame_word f < 2 ^ 32
frame_word-lt f v =
    let (rest, sum, small) = word_sum-head f v in
    omega (arith, frame_word-eq f v, sum, small, opcode_code-lt (opcode f))

-- The bytes of a frame decode to it.
pub decode-encode_frame : (f : DlpControlFrame) → IsFrame f → decode (encode f) ≡ ok f
unfolding decode encode
decode-encode_frame f v = rw (length-to_be_bytes 4 (frame_word f)) (
    decode_word-eq f _
      (from_be_bytes-to_be_bytes 4 (frame_word f) (omega (arith, frame_word-lt f v))
        ∙ frame_word-eq f v)
      v)
