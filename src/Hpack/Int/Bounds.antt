-- ===== src/Hpack/Int/Bounds.antt =====
-- `decode_int` on any bytes.
use pajamax.Prelude.{
  ℕ, ◌+◌, ◌*◌, ◌^◌, ◌≤◌, ◌<◌, ◌≡◌, refl, arith, bit_and, false, Bool-cases, le→not_ltb, inl, inr,
  ◌||◌, [], ◌∷◌, Bytes, All, length, ltb, ◌==◌,
}
use native.Mathlib.Nat.{le_refl}
use pajamax.Hpack.Int.{decode_tail, decode_int, prefix_mask}
use pajamax.Outcome.{panic, Safe, Safe-mono}

-- A count of bytes that lies inside the buffer, and is not 0.
abbrev pub Within {ℓ} : {A : Type ℓ} → ℕ → A × ℕ → Type 0
Within n r = (1 ≤ r.1) × (r.1 ≤ n)

decode_tail-Within :
    (rest : Bytes) (ret bytes shift : ℕ)
    → Safe (λ r. (bytes < r.1) × (r.1 ≤ bytes + length rest)) (decode_tail rest ret bytes shift)
unfolding decode_tail
decode_tail-Within [] ret bytes shift = tt
decode_tail-Within (b ∷ rest) ret bytes shift = elim (Bool-cases (bit_and b 0x80 == 0)) [
  | inl last ↦ rw (last, Safe) (omega arith, omega arith)
  | inr more ↦ elim (Bool-cases (bytes + 1 == 5)) [
    | inl full ↦ rw (more, full, Safe) tt
    | inr fits ↦
        rw (more, fits, Safe)
          (Safe-mono _ _
            (decode_tail rest (ret + bit_and b 0x7f * 2 ^ shift) (bytes + 1) (shift + 7))
            (λ r h. (omega arith, omega arith))
            (decode_tail-Within rest (ret + bit_and b 0x7f * 2 ^ shift) (bytes + 1) (shift + 7)))
  ]
]

-- An integer that `decode_int` returns took at least one byte and none past the buffer, and
-- `stuck` is no answer of it.
pub decode_int-Within : (buf : Bytes) (p : ℕ) → Safe (Within (length buf)) (decode_int buf p)
unfolding decode_int
decode_int-Within [] p = elim (Bool-cases (ltb p 1 || ltb 8 p)) [
  | inl bad ↦ rw bad tt
  | inr good ↦ rw good tt
]
decode_int-Within (b ∷ rest) p = elim (Bool-cases (ltb p 1 || ltb 8 p)) [
  | inl bad ↦ rw (bad, Safe) tt
  | inr good ↦ elim (Bool-cases (ltb (bit_and b (prefix_mask p)) (prefix_mask p))) [
    | inl small ↦ rw (good, small, Safe) (omega arith, omega arith)
    | inr large ↦
        rw (good, large, Safe)
          (Safe-mono _ _ (decode_tail rest (bit_and b (prefix_mask p)) 1 0)
            (λ r h. (omega arith, omega arith))
            (decode_tail-Within rest (bit_and b (prefix_mask p)) 1 0))
  ]
]

decode_tail_truncated :
    (rest : Bytes) (ret bytes shift : ℕ)
    → All (λ b. bit_and b 0x80 ≡ 0x80) rest
    → bytes + length rest < 5
    → decode_tail rest ret bytes shift ≡ panic
unfolding decode_tail
decode_tail_truncated [] ret bytes shift more short = refl
decode_tail_truncated (b ∷ rest) ret bytes shift more short = ground (
  arith,
  decode_tail_truncated rest (ret + bit_and b 0x7f * 2 ^ shift) (bytes + 1) (shift + 7) more.1,
)

-- A full prefix of 1 to 8 bits, with fewer than four bytes behind it that all say that more
-- follows, makes `decode_int` read past the end of its buffer.
pub decode_int_truncated :
    (first p : ℕ) (rest : Bytes)
    → 1 ≤ p
    → p ≤ 8
    → bit_and first (prefix_mask p) ≡ prefix_mask p
    → All (λ b. bit_and b 0x80 ≡ 0x80) rest
    → length rest < 4
    → decode_int (first ∷ rest) p ≡ panic
unfolding decode_int
decode_int_truncated first p rest lo hi full more short =
    let good : (ltb p 1 || ltb 8 p) ≡ false = ground arith in
    let large : ltb (prefix_mask p) (prefix_mask p) ≡ false =
      le→not_ltb _ _ (le_refl (prefix_mask p)) in
    rw (good, full, large) (decode_tail_truncated rest _ 1 0 more (omega arith))
