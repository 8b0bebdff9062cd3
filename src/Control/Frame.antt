-- ===== src/Control/Frame.antt =====
-- dlp_control.rs: `DlpControlFrame` and its four bytes. A generation is its u8.
pub mod Word
pub mod RoundTrip
pub mod Accepted
use smolgnet.Base.{
  ℕ, zero, suc, ◌-◌, bit_and, bit_or, Bool, true, false, not, ◌&&◌, ◌||◌, List, length, ◌==◌, ◌!=◌,
}
use smolgnet.Base.Results.{
  Result, ok, err, guard, ◌>>=◌, ◌>>◌, invalid_length, invalid_field, unsupported, non_canonical,
}
use smolgnet.Base.Bytes.{to_be_bytes, from_be_bytes}
use smolgnet.Base.Words.{shl32, shr}

pub data DlpControlOpcode : Type 0 where
  hello_opcode capabilities_opcode reset_opcode link_parameters_opcode : DlpControlOpcode

unfoldable pub opcode_code : DlpControlOpcode → ℕ
opcode_code hello_opcode = 0x1
opcode_code capabilities_opcode = 0x2
opcode_code reset_opcode = 0x3
opcode_code link_parameters_opcode = 0x8

unfoldable pub opcode_from_wire : ℕ → Result DlpControlOpcode
opcode_from_wire (suc zero) = ok hello_opcode
opcode_from_wire (suc (suc zero)) = ok capabilities_opcode
opcode_from_wire (suc (suc (suc zero))) = ok reset_opcode
opcode_from_wire (suc (suc (suc (suc (suc (suc (suc (suc zero)))))))) = ok link_parameters_opcode
opcode_from_wire v = err unsupported

pub data DlpHelloKind : Type 0 where
  initial acknowledgement : DlpHelloKind

unfoldable pub hello_code : DlpHelloKind → ℕ
hello_code initial = 0
hello_code acknowledgement = 1

unfoldable pub hello_from_wire : ℕ → Result DlpHelloKind
hello_from_wire zero = ok initial
hello_from_wire (suc zero) = ok acknowledgement
hello_from_wire (suc (suc v)) = err invalid_field

pub data DlpCapabilityKind : Type 0 where
  offer selection confirmation : DlpCapabilityKind

unfoldable pub capability_code : DlpCapabilityKind → ℕ
capability_code offer = 0
capability_code selection = 1
capability_code confirmation = 2

unfoldable pub capability_from_wire : ℕ → Result DlpCapabilityKind
capability_from_wire zero = ok offer
capability_from_wire (suc zero) = ok selection
capability_from_wire (suc (suc zero)) = ok confirmation
capability_from_wire (suc (suc (suc v))) = err invalid_field

pub data DlpControlFrame : Type 0 where
  hello : (kind : DlpHelloKind) (sender_generation peer_generation : ℕ) → DlpControlFrame
  capabilities : (kind : DlpCapabilityKind) (sender_generation profiles rates : ℕ) → DlpControlFrame
  reset : (sender_generation reason : ℕ) → DlpControlFrame
  link_parameters :
      (kind : DlpCapabilityKind) (sender_generation rx_window_units burst_units : ℕ)
      → DlpControlFrame

unfoldable pub opcode : DlpControlFrame → DlpControlOpcode
opcode (hello kind sender peer) = hello_opcode
opcode (capabilities kind sender profiles rates) = capabilities_opcode
opcode (reset sender reason) = reset_opcode
opcode (link_parameters kind sender rx burst) = link_parameters_opcode

unfoldable pub sender_generation : DlpControlFrame → ℕ
sender_generation (hello kind sender peer) = sender
sender_generation (capabilities kind sender profiles rates) = sender
sender_generation (reset sender reason) = sender
sender_generation (link_parameters kind sender rx burst) = sender

-- The opcode and the version, `DLP_CONTROL_VERSION`.
abbrev pub word_head : DlpControlOpcode → ℕ
word_head op = bit_or (shl32 (opcode_code op) 28) (shl32 1 24)

unfoldable pub frame_word : DlpControlFrame → ℕ
unfolding opcode_code hello_code capability_code
frame_word (hello kind sender peer) =
    bit_or
      (bit_or (bit_or (word_head hello_opcode) (shl32 (hello_code kind) 22))
        (shl32 (bit_and sender 0x3f) 16))
      (shl32 (bit_and peer 0x3f) 10)
frame_word (capabilities kind sender profiles rates) =
    bit_or
      (bit_or
        (bit_or (bit_or (word_head capabilities_opcode) (shl32 (bit_and sender 0x3f) 18))
          (shl32 (capability_code kind) 16))
        (shl32 (bit_and profiles 0x0f) 12))
      (shl32 (bit_and rates 0x07) 9)
frame_word (reset sender reason) =
    bit_or (bit_or (word_head reset_opcode) (shl32 (bit_and sender 0x3f) 18))
      (shl32 (bit_and reason 0x0f) 14)
frame_word (link_parameters kind sender rx burst) =
    bit_or
      (bit_or
        (bit_or (bit_or (word_head link_parameters_opcode) (shl32 (bit_and sender 0x3f) 18))
          (shl32 (capability_code kind) 16))
        (shl32 rx 8))
      burst

unfoldable pub encode : DlpControlFrame → List ℕ
unfolding frame_word
encode frame = to_be_bytes 4 (frame_word frame)

-- `u8::is_power_of_two`.
abbrev pub is_power_of_two : ℕ → Bool
is_power_of_two v = v != 0 && bit_and v (v - 1) == 0

-- The peer's generation fits the kind of hello.
abbrev pub is_peer_named : DlpHelloKind → ℕ → Bool
is_peer_named initial peer = peer == 0
is_peer_named acknowledgement peer = peer != 0

abbrev pub is_offer : DlpCapabilityKind → Bool
is_offer offer = true
is_offer selection = false
is_offer confirmation = false

unfoldable pub decode_frame : DlpControlOpcode → ℕ → Result DlpControlFrame
unfolding hello_from_wire capability_from_wire
decode_frame hello_opcode word = do
  guard (bit_and word 0x3ff == 0) non_canonical
  kind ← hello_from_wire (bit_and (shr word 22) 0x3)
  let sender = bit_and (shr word 16) 0x3f
  let peer = bit_and (shr word 10) 0x3f
  guard (sender != 0) invalid_field
  guard (is_peer_named kind peer) invalid_field
  ok (hello kind sender peer)
decode_frame capabilities_opcode word = do
  guard (bit_and word 0x1ff == 0) non_canonical
  let sender = bit_and (shr word 18) 0x3f
  kind ← capability_from_wire (bit_and (shr word 16) 0x3)
  let profiles = bit_and (shr word 12) 0xf
  let rates = bit_and (shr word 9) 0x7
  guard (not (sender == 0 || (profiles == 0 || rates == 0))) invalid_field
  guard (not (not (is_offer kind) && not (is_power_of_two profiles && is_power_of_two rates)))
      invalid_field
  ok (capabilities kind sender profiles rates)
decode_frame reset_opcode word = do
  guard (bit_and word 0x3fff == 0) non_canonical
  let sender = bit_and (shr word 18) 0x3f
  let reason = bit_and (shr word 14) 0xf
  guard (sender != 0) invalid_field
  ok (reset sender reason)
decode_frame link_parameters_opcode word = do
  let sender = bit_and (shr word 18) 0x3f
  kind ← capability_from_wire (bit_and (shr word 16) 0x3)
  let rx = bit_and (shr word 8) 0xff
  let burst = bit_and word 0xff
  guard (not (sender == 0 || (rx == 0 || burst == 0))) invalid_field
  ok (link_parameters kind sender rx burst)

unfoldable pub decode_word : ℕ → Result DlpControlFrame
unfolding opcode_from_wire decode_frame
decode_word word = do
  op ← opcode_from_wire (bit_and (shr word 28) 0xf)
  guard (bit_and (shr word 24) 0xf == 1) unsupported
  decode_frame op word

unfoldable pub decode : List ℕ → Result DlpControlFrame
unfolding decode_word
decode bytes = do guard (length bytes == 4) invalid_length; decode_word (from_be_bytes bytes)
