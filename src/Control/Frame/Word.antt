-- ===== src/Control/Frame/Word.antt =====
-- dlp_control.rs: the fields of a control frame side by side in its word.
use smolgnet.Base.{ℕ, ◌+◌, ◌*◌, ◌^◌, ◌<◌, ◌≡◌, ◌≢◌, arith, true, false, not, ◌&&◌}
use smolgnet.Base.Bits.{or_add, and_mask}
use smolgnet.Control.Frame.{
  DlpControlFrame, hello, capabilities, reset, link_parameters, DlpHelloKind, DlpCapabilityKind,
}
use smolgnet.Control.Frame.{
  initial, acknowledgement, offer, selection, confirmation, hello_code, capability_code,
}
use smolgnet.Control.Frame.{opcode_code, frame_word, is_peer_named, is_offer, is_power_of_two}

abbrev pub IsGeneration : ℕ → Type 0
IsGeneration g = (g < 64) × (g ≢ 0)

-- The frames that the protocol has.
unfoldable pub IsFrame : DlpControlFrame → Type 0
IsFrame (hello kind sender peer) =
    IsGeneration sender × (peer < 64) × (is_peer_named kind peer ≡ true)
IsFrame (capabilities kind sender profiles rates) =
    IsGeneration sender
    × ((profiles < 16) × (profiles ≢ 0))
    × ((rates < 8) × (rates ≢ 0))
    × ((not (is_offer kind) && not (is_power_of_two profiles && is_power_of_two rates)) ≡ false)
IsFrame (reset sender reason) = IsGeneration sender × (reason < 16)
IsFrame (link_parameters kind sender rx burst) =
    IsGeneration sender × ((rx < 256) × (rx ≢ 0)) × ((burst < 256) × (burst ≢ 0))

-- What each field adds to the word.
unfoldable pub word_sum : DlpControlFrame → ℕ
word_sum (hello kind sender peer) =
    1 * 2 ^ 28 + 2 ^ 24 + hello_code kind * 2 ^ 22 + sender * 2 ^ 16 + peer * 2 ^ 10
word_sum (capabilities kind sender profiles rates) =
    2 * 2 ^ 28
    + 2 ^ 24
    + sender * 2 ^ 18
    + capability_code kind * 2 ^ 16
    + profiles * 2 ^ 12
    + rates * 2 ^ 9
word_sum (reset sender reason) = 3 * 2 ^ 28 + 2 ^ 24 + sender * 2 ^ 18 + reason * 2 ^ 14
word_sum (link_parameters kind sender rx burst) =
    8 * 2 ^ 28 + 2 ^ 24 + sender * 2 ^ 18 + capability_code kind * 2 ^ 16 + rx * 2 ^ 8 + burst

pub hello_code-lt : (kind : DlpHelloKind) → hello_code kind < 2
unfolding hello_code
hello_code-lt initial = omega arith
hello_code-lt acknowledgement = omega arith

pub capability_code-lt : (kind : DlpCapabilityKind) → capability_code kind < 3
unfolding capability_code
capability_code-lt offer = omega arith
capability_code-lt selection = omega arith
capability_code-lt confirmation = omega arith

pub frame_word-eq : (f : DlpControlFrame) → IsFrame f → frame_word f ≡ word_sum f
unfolding frame_word word_sum IsFrame opcode_code
frame_word-eq (hello kind sender peer) v = ground (
  arith,
  hello_code-lt kind,
  and_mask 6 sender,
  and_mask 6 peer,
  or_add 28 1 (2 ^ 24),
  or_add 24 17 (hello_code kind * 2 ^ 22),
  or_add 22 (68 + hello_code kind) (sender * 2 ^ 16),
  or_add 16 (4352 + hello_code kind * 64 + sender) (peer * 2 ^ 10),
)
frame_word-eq (capabilities kind sender profiles rates) v = ground (
  arith,
  capability_code-lt kind,
  and_mask 6 sender,
  and_mask 4 profiles,
  and_mask 3 rates,
  or_add 24 33 (sender * 2 ^ 18),
  or_add 18 (2112 + sender) (capability_code kind * 2 ^ 16),
  or_add 16 (8448 + sender * 4 + capability_code kind) (profiles * 2 ^ 12),
  or_add 12 (135168 + sender * 64 + capability_code kind * 16 + profiles) (rates * 2 ^ 9),
)
frame_word-eq (reset sender reason) v = ground (
  arith,
  and_mask 6 sender,
  and_mask 4 reason,
  or_add 24 49 (sender * 2 ^ 18),
  or_add 18 (3136 + sender) (reason * 2 ^ 14),
)
frame_word-eq (link_parameters kind sender rx burst) v = ground (
  arith,
  capability_code-lt kind,
  and_mask 6 sender,
  or_add 24 129 (sender * 2 ^ 18),
  or_add 18 (8256 + sender) (capability_code kind * 2 ^ 16),
  or_add 16 (33024 + sender * 4 + capability_code kind) (rx * 2 ^ 8),
  or_add 8 (8454144 + sender * 1024 + capability_code kind * 256 + rx) burst,
)
