-- ===== src/Hpack/Int/RoundTrip.antt =====
-- HPACK integers: what is written is read back, up to the decoder's limit.
use pajamax.Prelude.{
  ℕ, zero, suc, ◌+◌, ◌-◌, ◌*◌, ◌/◌, ◌%◌, ◌^◌, ◌≤◌, ◌<◌, ◌≡◌, refl, ap, arith, bit_and, bit_or, true,
  inl, inr, [], ◌∷◌, ◌++◌, Bytes, length, ltb, ◌==◌, if◌then◌else◌, Bool-cases, ==_iff, ltb→lt,
  lt→ltb, not_ltb→le,
}
use pajamax.Prelude.Bits.{and-127, and-128, or-128, all_below, agree_below}
use native.Mathlib.Nat.{div-add-mod, one-le-pow, pow-le-pow_right}
use native.Mathlib.Numerals.{towards_suc}
use pajamax.Hpack.Int.{
  decode_tail, prefix_mask, decode_int, encode_int_one_byte, encode_tail, encode_int,
}
use pajamax.Outcome.{ok, err, invalid_hpack}

-- The bytes of a varint of at most `k` + 1 groups.
encode_tail-last : (k v : ℕ) → v < 128 → encode_tail k v ≡ v ∷ []
unfolding encode_tail
encode_tail-last zero v h = let e : v % 256 ≡ v = omega arith in ap (λ b. b ∷ []) e
encode_tail-last (suc k) v h = ground arith

encode_tail-more :
    (k v : ℕ) → 128 ≤ v → encode_tail (suc k) v ≡ (v % 128 + 128) ∷ encode_tail k (v / 128)
unfolding encode_tail
encode_tail-more k v h = ground (arith, or-128 (v % 256))

decode_tail-last :
    (v ret bytes shift : ℕ) (rest : Bytes)
    → v < 128
    → decode_tail (v ∷ rest) ret bytes shift ≡ ok (ret + v * 2 ^ shift, bytes + 1)
unfolding decode_tail
decode_tail-last v ret bytes shift rest h = ground (arith, and-127 v, and-128 v)

decode_tail-more :
    (g ret bytes shift : ℕ) (rest : Bytes)
    → g < 128
    → decode_tail ((g + 128) ∷ rest) ret bytes shift ≡ (
        if bytes + 1 == 5
        then err (invalid_hpack "integer overflow")
        else decode_tail rest (ret + g * 2 ^ shift) (bytes + 1) (shift + 7))
unfolding decode_tail
decode_tail-more g ret bytes shift rest h = ground (arith, and-127 (g + 128), and-128 (g + 128))

-- One group of seven bits and what stands above it, at bit `s`.
group_value : (w s : ℕ) → w % 128 * 2 ^ s + w / 128 * 2 ^ (s + 7) ≡ w * 2 ^ s
group_value w s =
    let power : 2 ^ (s + 7) ≡ 128 * 2 ^ s = simp towards_suc (omega arith) in
    omega (arith, ap (λ (t : ℕ). w / 128 * t) power, ap (λ (t : ℕ). t * 2 ^ s) (div-add-mod w 128))

-- A varint of at most `k` + 1 groups, read from byte `bytes` on, is read back if it ends by the
-- fifth byte.
decode_tail-encode_tail :
    (k rounds v ret bytes shift : ℕ) (rest : Bytes)
    → k ≤ rounds
    → v < 128 ^ suc k
    → bytes + k ≤ 4
    → decode_tail (encode_tail rounds v ++ rest) ret bytes shift
      ≡ ok (ret + v * 2 ^ shift, bytes + length (encode_tail rounds v))
decode_tail-encode_tail zero rounds v ret bytes shift rest hr hv hb =
    rw (
      encode_tail-last rounds v (omega arith),
      decode_tail-last v ret bytes shift rest (omega arith),
    )
decode_tail-encode_tail (suc k) zero v ret bytes shift rest hr hv hb = absurd (omega arith)
decode_tail-encode_tail (suc k) (suc rounds) v ret bytes shift rest hr hv hb =
    elim (Bool-cases (ltb v 128)) [
      | inl small ↦ rw (
        encode_tail-last (suc rounds) v (ground arith),
        decode_tail-last v ret bytes shift rest (ground arith),
      )
      | inr large ↦
          rw
            (
              encode_tail-more rounds v (ground arith),
              decode_tail-more (v % 128) ret bytes shift (encode_tail rounds (v / 128) ++ rest)
                  (omega arith),
            )
            (ground (
              arith,
              group_value v shift,
              decode_tail-encode_tail k rounds (v / 128) (ret + v % 128 * 2 ^ shift) (bytes + 1)
                  (shift + 7) rest (omega arith) (omega arith) (omega arith),
            ))
    ]

-- One of more groups than the fifth byte allows is refused.
decode_tail_overflow :
    (k rounds v ret bytes shift : ℕ) (rest : Bytes)
    → k < rounds
    → 128 ^ suc k ≤ v
    → bytes + k ≡ 4
    → decode_tail (encode_tail rounds v ++ rest) ret bytes shift
      ≡ err (invalid_hpack "integer overflow")
decode_tail_overflow k zero v ret bytes shift rest hr hv hb = absurd (omega arith)
decode_tail_overflow zero (suc rounds) v ret bytes shift rest hr hv hb =
    rw
      (
        encode_tail-more rounds v (omega arith),
        decode_tail-more (v % 128) ret bytes shift (encode_tail rounds (v / 128) ++ rest)
            (omega arith),
      )
      (ground arith)
decode_tail_overflow (suc k) (suc rounds) v ret bytes shift rest hr hv hb =
    rw
      (
        encode_tail-more rounds v (large k v hv),
        decode_tail-more (v % 128) ret bytes shift (encode_tail rounds (v / 128) ++ rest)
            (omega arith),
      )
      (ground (
        arith,
        decode_tail_overflow k rounds (v / 128) (ret + v % 128 * 2 ^ shift) (bytes + 1) (shift + 7)
            rest (omega arith) (omega arith) (omega arith),
      ))
  where
    large : (k v : ℕ) → 128 ^ suc (suc k) ≤ v → 128 ≤ v
    large k v h = omega (arith, one-le-pow k 128)

-- A prefix of `v` below a first byte whose low bits are clear: the mask gives it back.
prefix_at :
    (m mask : ℕ)
    → all_below (λ x. bit_and (bit_or (x / m * m) (x % m)) mask == x % m) 256 ≡ true
    → (first v : ℕ) → (first + v) / m * m ≡ first
    → (first + v) % m ≡ v
    → first + v < 256
    → bit_and (bit_or first v) mask ≡ v
prefix_at m mask table first v e₁ e₂ lt =
    rw (e₁, e₂) at
      (agree_below (λ x. bit_and (bit_or (x / m * m) (x % m)) mask) (λ x. x % m) 256 table
        (first + v) lt)

prefix_read :
    (p first v : ℕ)
    → 1 ≤ p
    → p ≤ 8
    → first < 256
    → first % 2 ^ p ≡ 0
    → v < 2 ^ p
    → bit_and (bit_or first v) (prefix_mask p) ≡ v
unfolding all_below
prefix_read zero first v l h b z hv = absurd (omega arith)
prefix_read (suc zero) first v l h b z hv =
    prefix_at 2 1 refl first v (omega arith) (omega arith) (omega arith)
prefix_read (suc (suc zero)) first v l h b z hv =
    prefix_at 4 3 refl first v (omega arith) (omega arith) (omega arith)
prefix_read (suc (suc (suc zero))) first v l h b z hv =
    prefix_at 8 7 refl first v (omega arith) (omega arith) (omega arith)
prefix_read (suc (suc (suc (suc zero)))) first v l h b z hv =
    prefix_at 16 15 refl first v (omega arith) (omega arith) (omega arith)
prefix_read (suc (suc (suc (suc (suc zero))))) first v l h b z hv =
    prefix_at 32 31 refl first v (omega arith) (omega arith) (omega arith)
prefix_read (suc (suc (suc (suc (suc (suc zero)))))) first v l h b z hv =
    prefix_at 64 63 refl first v (omega arith) (omega arith) (omega arith)
prefix_read (suc (suc (suc (suc (suc (suc (suc zero))))))) first v l h b z hv =
    prefix_at 128 127 refl first v (omega arith) (omega arith) (omega arith)
prefix_read (suc (suc (suc (suc (suc (suc (suc (suc zero)))))))) first v l h b z hv =
    prefix_at 256 255 refl first v (omega arith) (omega arith) (omega arith)
prefix_read (suc (suc (suc (suc (suc (suc (suc (suc (suc p))))))))) first v l h b z hv =
    absurd (omega arith)

mask_value : (p : ℕ) → prefix_mask p ≡ 2 ^ p - 1
mask_value p = elim (Bool-cases (p == 8)) [ inl e ↦ rw ((==_iff p 8).0 e) | inr e ↦ rw e ]

-- `encode_int` appends, and what it appends does not depend on the buffer.
pub encode_int-append :
    (value p first : ℕ) (dst : Bytes)
    → encode_int value p first dst ≡ dst ++ encode_int value p first []
unfolding encode_int
encode_int-append value p first dst = elim (Bool-cases (encode_int_one_byte value p)) [
  | inl e ↦ rw (e, encode_int)
  | inr e ↦ rw (e, encode_int)
]

pow_le : (p : ℕ) → 1 ≤ p → p ≤ 8 → (2 ≤ 2 ^ p) × (2 ^ p ≤ 256)
pow_le p lo hi = (
  pow-le-pow_right {n = 2} (omega arith) {i = 1} {j = p} lo,
  pow-le-pow_right {n = 2} (omega arith) {i = p} {j = 8} hi,
)

module _ (p first : ℕ) (lo : 1 ≤ p) (hi : p ≤ 8) (byte : first < 256)
    (clear : first % 2 ^ p ≡ 0) where
  first_byte : (v : ℕ) → v < 2 ^ p → bit_and (bit_or first (v % 256)) (prefix_mask p) ≡ v
  first_byte v h =
      let e : v % 256 ≡ v = omega (arith, pow_le p lo hi) in
      rw e (prefix_read p first v lo hi byte clear h)

  -- A first byte whose prefix holds `v`.
  decode_first :
      (v : ℕ) (rest : Bytes)
      → v < 2 ^ p
      → decode_int (bit_or first (v % 256) ∷ rest) p
        ≡ (if ltb v (2 ^ p - 1) then ok (v, 1) else decode_tail rest v 1 0)
  unfolding decode_int
  decode_first v rest h = ground (arith, first_byte v h, mask_value p)

  -- With a one-byte form.
  decode_small :
      (value : ℕ) (rest : Bytes)
      → value < 2 ^ p - 1
      → decode_int (encode_int value p first [] ++ rest) p ≡ ok (value, 1)
  unfolding encode_int
  decode_small value rest h = ground (arith, decode_first value rest)

  -- With the prefix full and a varint behind it.
  decode_large :
      (value : ℕ) (rest : Bytes)
      → 2 ^ p - 1 ≤ value
      → decode_int (encode_int value p first [] ++ rest) p
        ≡ decode_tail (encode_tail 10 (value - (2 ^ p - 1)) ++ rest) (2 ^ p - 1) 1 0
  unfolding encode_int
  decode_large value rest h = ground (
    arith,
    pow_le p lo hi,
    decode_first (2 ^ p - 1) (encode_tail 10 (value - (2 ^ p - 1)) ++ rest),
  )

  length_small : (value : ℕ) → value < 2 ^ p - 1 → length (encode_int value p first []) ≡ 1
  unfolding encode_int
  length_small value h = ground arith

  length_large :
      (value : ℕ)
      → 2 ^ p - 1 ≤ value
      → length (encode_int value p first []) ≡ 1 + length (encode_tail 10 (value - (2 ^ p - 1)))
  unfolding encode_int
  length_large value h = ground arith

  -- For a prefix of 1 to 8 bits below a first byte whose low bits are clear: `decode_int` reads
  -- back every integer below 2^28 + 2^p - 1 that `encode_int` wrote, with its length and whatever
  -- follows; it refuses every larger one that a `usize` holds.
  pub decode_int-encode_int :
      (value : ℕ) (rest : Bytes)
      → value < 2 ^ 64
      → decode_int (encode_int value p first [] ++ rest) p ≡ (
          if ltb value (2 ^ 28 + (2 ^ p - 1))
          then ok (value, length (encode_int value p first []))
          else err (invalid_hpack "integer overflow"))
  decode_int-encode_int value rest h = elim (Bool-cases (ltb value (2 ^ p - 1))) [
    | inl small ↦ rw (
      decode_small value rest (ltb→lt _ _ small),
      length_small value (ltb→lt _ _ small),
      lt→ltb value (2 ^ 28 + (2 ^ p - 1)) (omega (arith, ltb→lt _ _ small)),
    )
    | inr large ↦
        let le : 2 ^ p - 1 ≤ value = not_ltb→le _ _ large in
        rw (decode_large value rest le, length_large value le)
          (ground (
            arith,
            decode_tail-encode_tail 3 10 (value - (2 ^ p - 1)) (2 ^ p - 1) 1 0 rest,
            decode_tail_overflow 3 10 (value - (2 ^ p - 1)) (2 ^ p - 1) 1 0 rest,
          ))
  ]
