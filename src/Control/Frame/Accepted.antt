-- ===== src/Control/Frame/Accepted.antt =====
-- dlp_control.rs: what the decoder accepts are exactly the bytes of the protocol's frames.
use smolgnet.Base.{
  ℕ, zero, suc, ◌^◌, ◌<◌, ◌≡◌, ◌≢◌, ◌↔◌, ◌∙◌, refl, ap, sym, bit_and, arith, Bool, true, false, not,
  ◌&&◌, ◌||◌, ◌==◌, ◌!=◌, ==_iff, List, [], ◌∷◌, All, inl, inr, Bool-cases,
}
use smolgnet.Base.Bits.{and_mask}
use smolgnet.Base.Words.{shr}
use smolgnet.Base.Results.{ok, Returns, Returns-ok, Returns-imp, Result-cases, ok-injective}
use smolgnet.Base.Bytes.{IsByte, to_be_bytes, from_be_bytes}
use smolgnet.Control.Frame.{DlpControlFrame, DlpHelloKind, DlpCapabilityKind}
use smolgnet.Control.Frame.{
  initial, acknowledgement, offer, selection, confirmation, hello_code, capability_code,
}
use smolgnet.Control.Frame.{
  hello_from_wire, capability_from_wire, opcode_from_wire, opcode, opcode_code, decode_frame,
  decode_word, decode, encode,
}
use smolgnet.Control.Frame.{
  DlpControlOpcode, hello_opcode, capabilities_opcode, reset_opcode, link_parameters_opcode,
}
use smolgnet.Control.Frame.{is_peer_named, is_offer, is_power_of_two}
use smolgnet.Control.Frame.Word.{IsFrame, word_sum, frame_word-eq}
use smolgnet.Control.Frame.RoundTrip.{decode-encode_frame}

hello_code-from_wire :
    (v : ℕ) (kind : DlpHelloKind) → hello_from_wire v ≡ ok kind → v ≡ hello_code kind
unfolding hello_from_wire hello_code
hello_code-from_wire zero kind h = ap hello_code (ok-injective initial kind h)
hello_code-from_wire (suc zero) kind h = ap hello_code (ok-injective acknowledgement kind h)
hello_code-from_wire (suc (suc v)) kind h = cc

capability_code-from_wire :
    (v : ℕ) (kind : DlpCapabilityKind) → capability_from_wire v ≡ ok kind → v ≡ capability_code kind
unfolding capability_from_wire capability_code
capability_code-from_wire zero kind h = ap capability_code (ok-injective offer kind h)
capability_code-from_wire (suc zero) kind h = ap capability_code (ok-injective selection kind h)
capability_code-from_wire (suc (suc zero)) kind h =
    ap capability_code (ok-injective confirmation kind h)
capability_code-from_wire (suc (suc (suc v))) kind h = cc

-- A frame that the decoder takes from a word with this head.
unfoldable pub IsAccepted : DlpControlOpcode → ℕ → DlpControlFrame → Type 0
IsAccepted op w f = (opcode f ≡ op) × IsFrame f × (w ≡ word_sum f)

not-true : (b : Bool) → not b ≡ true → b ≡ false
not-true b h = ground (arith, h)

positive : (s : ℕ) → (s != 0) ≡ true → s ≢ 0
positive s h = ground (arith, h)

present3 : (s p r : ℕ) → not (s == 0 || (p == 0 || r == 0)) ≡ true → (s ≢ 0) × (p ≢ 0) × (r ≢ 0)
present3 s p r h = (first h, second h, third h)
  where
    first : not (s == 0 || (p == 0 || r == 0)) ≡ true → s ≢ 0
    first h = ground (arith, h)

    second : not (s == 0 || (p == 0 || r == 0)) ≡ true → p ≢ 0
    second h = ground (arith, h)

    third : not (s == 0 || (p == 0 || r == 0)) ≡ true → r ≢ 0
    third h = ground (arith, h)

decode_frame-IsAccepted :
    (op : DlpControlOpcode) (w : ℕ)
    → w < 2 ^ 32
    → bit_and (shr w 28) 0xf ≡ opcode_code op
    → bit_and (shr w 24) 0xf ≡ 1
    → Returns (IsAccepted op w) (decode_frame op w)
unfolding decode_frame IsAccepted IsFrame opcode word_sum opcode_code Returns
decode_frame-IsAccepted hello_opcode w small head version =
    elim (Bool-cases (bit_and w 0x3ff == 0)) [
      | inl clear ↦ rw clear (elim (Result-cases (hello_from_wire (bit_and (shr w 22) 0x3))) [
        | inl (kind, known) ↦ rw known (elim (Bool-cases (bit_and (shr w 16) 0x3f != 0)) [
          | inl sent ↦ rw sent (elim (Bool-cases (is_peer_named kind (bit_and (shr w 10) 0x3f))) [
            | inl named ↦ rw named (
                (
                  refl,
                  (
                    (omega (arith, and_mask 6 (shr w 16)), positive _ sent),
                    omega (arith, and_mask 6 (shr w 10)),
                    named,
                  ),
                  omega (
                    arith,
                    hello_code-from_wire _ kind known,
                    and_mask 4 (shr w 28),
                    and_mask 4 (shr w 24),
                    and_mask 10 w,
                    and_mask 2 (shr w 22),
                    and_mask 6 (shr w 16),
                    and_mask 6 (shr w 10),
                    (==_iff (bit_and w 0x3ff) 0).0 clear,
                  ),
                ))
            | inr failed ↦ rw failed tt
          ])
          | inr failed ↦ rw failed tt
        ])
        | inr (e, failed) ↦ rw failed tt
      ])
      | inr failed ↦ rw failed tt
    ]
decode_frame-IsAccepted capabilities_opcode w small head version =
    elim (Bool-cases (bit_and w 0x1ff == 0)) [
      | inl clear ↦ rw clear (elim (Result-cases (capability_from_wire (bit_and (shr w 16) 0x3))) [
        | inl (kind, known) ↦
            rw known
              (elim (Bool-cases (
                not (
                  bit_and (shr w 18) 0x3f == 0
                  || (bit_and (shr w 12) 0xf == 0 || bit_and (shr w 9) 0x7 == 0)))) [
                    | inl given ↦
                        rw given
                          (elim (Bool-cases (
                            not (
                              not (is_offer kind)
                              && not (
                                  is_power_of_two (bit_and (shr w 12) 0xf)
                                  && is_power_of_two (bit_and (shr w 9) 0x7))))) [
                                    | inl chosen ↦ rw chosen (
                                        let (s, p, r) = present3 _ _ _ given in
                                        (
                                          refl,
                                          (
                                            (omega (arith, and_mask 6 (shr w 18)), s),
                                            (omega (arith, and_mask 4 (shr w 12)), p),
                                            (omega (arith, and_mask 3 (shr w 9)), r),
                                            not-true _ chosen,
                                          ),
                                          omega (
                                            arith,
                                            capability_code-from_wire _ kind known,
                                            and_mask 4 (shr w 28),
                                            and_mask 4 (shr w 24),
                                            and_mask 9 w,
                                            and_mask 6 (shr w 18),
                                            and_mask 2 (shr w 16),
                                            and_mask 4 (shr w 12),
                                            and_mask 3 (shr w 9),
                                            (==_iff (bit_and w 0x1ff) 0).0 clear,
                                          ),
                                        ))
                                    | inr failed ↦ rw failed tt
                                  ])
                    | inr failed ↦ rw failed tt
                  ])
        | inr (e, failed) ↦ rw failed tt
      ])
      | inr failed ↦ rw failed tt
    ]
decode_frame-IsAccepted reset_opcode w small head version =
    elim (Bool-cases (bit_and w 0x3fff == 0)) [
      | inl clear ↦ rw clear (elim (Bool-cases (bit_and (shr w 18) 0x3f != 0)) [
        | inl sent ↦ rw sent (
            (
              refl,
              (
                (omega (arith, and_mask 6 (shr w 18)), positive _ sent),
                omega (arith, and_mask 4 (shr w 14)),
              ),
              omega (
                arith,
                and_mask 4 (shr w 28),
                and_mask 4 (shr w 24),
                and_mask 14 w,
                and_mask 6 (shr w 18),
                and_mask 4 (shr w 14),
                (==_iff (bit_and w 0x3fff) 0).0 clear,
              ),
            ))
        | inr failed ↦ rw failed tt
      ])
      | inr failed ↦ rw failed tt
    ]
decode_frame-IsAccepted link_parameters_opcode w small head version =
    elim (Result-cases (capability_from_wire (bit_and (shr w 16) 0x3))) [
      | inl (kind, known) ↦
          rw known
            (elim (Bool-cases (
              not (
                bit_and (shr w 18) 0x3f == 0
                || (bit_and (shr w 8) 0xff == 0 || bit_and w 0xff == 0)))) [
                  | inl given ↦ rw given (
                      let (s, x, b) = present3 _ _ _ given in
                      (
                        refl,
                        (
                          (omega (arith, and_mask 6 (shr w 18)), s),
                          (omega (arith, and_mask 8 (shr w 8)), x),
                          (omega (arith, and_mask 8 w), b),
                        ),
                        omega (
                          arith,
                          capability_code-from_wire _ kind known,
                          and_mask 4 (shr w 28),
                          and_mask 4 (shr w 24),
                          and_mask 6 (shr w 18),
                          and_mask 2 (shr w 16),
                          and_mask 8 (shr w 8),
                          and_mask 8 w,
                        ),
                      ))
                  | inr failed ↦ rw failed tt
                ])
      | inr (e, failed) ↦ rw failed tt
    ]

opcode_code-from_wire :
    (v : ℕ) (op : DlpControlOpcode) → opcode_from_wire v ≡ ok op → v ≡ opcode_code op
unfolding opcode_from_wire opcode_code
opcode_code-from_wire zero op h = cc
opcode_code-from_wire (suc zero) op h = ap opcode_code (ok-injective hello_opcode op h)
opcode_code-from_wire (suc (suc zero)) op h = ap opcode_code (ok-injective capabilities_opcode op h)
opcode_code-from_wire (suc (suc (suc zero))) op h = ap opcode_code (ok-injective reset_opcode op h)
opcode_code-from_wire (suc (suc (suc (suc zero)))) op h = cc
opcode_code-from_wire (suc (suc (suc (suc (suc zero))))) op h = cc
opcode_code-from_wire (suc (suc (suc (suc (suc (suc zero)))))) op h = cc
opcode_code-from_wire (suc (suc (suc (suc (suc (suc (suc zero))))))) op h = cc
opcode_code-from_wire (suc (suc (suc (suc (suc (suc (suc (suc zero)))))))) op h =
    ap opcode_code (ok-injective link_parameters_opcode op h)
opcode_code-from_wire (suc (suc (suc (suc (suc (suc (suc (suc (suc v))))))))) op h = cc

decode_word-IsFrame :
    (w : ℕ) (f : DlpControlFrame) → w < 2 ^ 32 → decode_word w ≡ ok f → IsFrame f × (w ≡ word_sum f)
unfolding decode_word IsAccepted Returns
decode_word-IsFrame w f small h =
    Returns-ok (λ f. IsFrame f × (w ≡ word_sum f)) (decode_word w) f
      (elim (Result-cases (opcode_from_wire (bit_and (shr w 28) 0xf))) [
        | inl (op, known) ↦ rw known (elim (Bool-cases (bit_and (shr w 24) 0xf == 1)) [
          | inl version ↦ rw version (
              Returns-imp (IsAccepted op w) (λ f. IsFrame f × (w ≡ word_sum f)) (decode_frame op w)
                (λ f a. (a.1, a.2))
                (decode_frame-IsAccepted op w small (opcode_code-from_wire _ op known)
                  ((==_iff _ 1).0 version)))
          | inr failed ↦ rw failed tt
        ])
        | inr (e, failed) ↦ rw failed tt
      ])
      h

word_of-lt :
    (a b c d : ℕ) → All IsByte (a ∷ b ∷ c ∷ d ∷ []) → from_be_bytes (a ∷ b ∷ c ∷ d ∷ []) < 2 ^ 32
unfolding from_be_bytes
word_of-lt a b c d v = omega arith

to_be_bytes-word :
    (a b c d : ℕ)
    → All IsByte (a ∷ b ∷ c ∷ d ∷ [])
    → to_be_bytes 4 (from_be_bytes (a ∷ b ∷ c ∷ d ∷ [])) ≡ a ∷ b ∷ c ∷ d ∷ []
unfolding from_be_bytes to_be_bytes
to_be_bytes-word a b c d v = ground arith

decoded-IsFrame :
    (bytes : List ℕ) (f : DlpControlFrame)
    → All IsByte bytes
    → decode bytes ≡ ok f
    → IsFrame f × (encode f ≡ bytes)
unfolding decode encode
decoded-IsFrame (a ∷ b ∷ c ∷ d ∷ []) f v h =
    let (valid, word) =
      decode_word-IsFrame (from_be_bytes (a ∷ b ∷ c ∷ d ∷ [])) f (word_of-lt a b c d v) h in
    (valid, ap (to_be_bytes 4) (frame_word-eq f valid ∙ sym word) ∙ to_be_bytes-word a b c d v)
decoded-IsFrame [] f v h = cc
decoded-IsFrame (a ∷ []) f v h = cc
decoded-IsFrame (a ∷ b ∷ []) f v h = cc
decoded-IsFrame (a ∷ b ∷ c ∷ []) f v h = cc
decoded-IsFrame (a ∷ b ∷ c ∷ d ∷ e ∷ rest) f v h = absurd (ground (arith, h))

-- Bytes, each below 256, decode to a frame exactly when it is one of the protocol's frames and they are its encoding: the
-- decoder takes every frame, and no bytes but a frame's own.
pub decode-iff-encode :
    (bytes : List ℕ) (f : DlpControlFrame)
    → All IsByte bytes
    → (decode bytes ≡ ok f) ↔ (IsFrame f × (encode f ≡ bytes))
decode-iff-encode bytes f v =
    (decoded-IsFrame bytes f v, λ h. ap decode (sym h.1) ∙ decode-encode_frame f h.0)
