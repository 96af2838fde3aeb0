-- ===== src/Huffman/Total.antt =====
-- Neither direction of the Huffman code has a loop that runs out of fuel.
use pajamax.Prelude.{
  ℕ, zero, suc, ◌+◌, ◌*◌, ◌/◌, ◌%◌, ◌≤◌, ◌≡◌, refl, arith, Bool, true, false, ◌&&◌, leb, Bool-cases,
  Option-cases, inl, inr, some, List, [], ◌∷◌, Bytes, get_elem?,
}
use pajamax.Outcome.{Safe, Safe-bind}
use pajamax.Huffman.{
  Decoder, Encoder, index, entry, decode4, decode_loop, decode, encode_loop, encode, put_code,
  flush, is_final, new, has, push_some, error_flag,
}
use pajamax.Huffman.Table.{encode_table, decode_table}

index-Safe {ℓ} : {A : Type ℓ} (xs : List A) (i : ℕ) → Safe (λ _. Unit {0}) (index xs i)
index-Safe xs i = elim (Option-cases (get_elem? xs i)) [
  | inl e ↦ rw (e, Safe) tt
  | inr (x, e) ↦ rw (e, Safe) tt
]

decode4-Safe : (d : Decoder) (i : ℕ) → Safe (λ _. Unit {0}) (decode4 d i)
unfolding decode4 entry
decode4-Safe d i =
    Safe-bind (λ _. Unit {0}) _ (entry d.state i) _
      (Safe-bind (λ _. Unit {0}) _ (index decode_table d.state) _ (index-Safe decode_table d.state)
        (λ row _. index-Safe row i))
      λ (n, b, f) _. elim (Bool-cases (has f error_flag)) [
        | inl e ↦ rw (e, Safe) tt
        | inr e ↦ rw (e, Safe) tt
      ]

decode_loop-Safe :
    (src : Bytes) (d : Decoder) (buf : Bytes) → Safe (λ _. Unit {0}) (decode_loop src d buf)
unfolding decode_loop
decode_loop-Safe [] d buf = tt
decode_loop-Safe (b ∷ src) d buf =
    Safe-bind (λ _. Unit {0}) _ (decode4 d (b / 16)) _ (decode4-Safe d (b / 16))
      λ (d₁, high) _.
        Safe-bind (λ _. Unit {0}) _ (decode4 d₁ (b % 16)) _ (decode4-Safe d₁ (b % 16))
          λ (d₂, low) _. decode_loop-Safe src d₂ (push_some (push_some buf high) low)

pub decode-Safe : (src buf : Bytes) → Safe (λ _. Unit {0}) (decode src buf)
unfolding decode
decode-Safe src buf =
    Safe-bind (λ _. Unit {0}) _ (decode_loop src new buf) _ (decode_loop-Safe src new buf)
      λ (d, out) _. elim (Bool-cases (is_final d)) [
        | inl e ↦ rw (e, Safe) tt
        | inr e ↦ rw (e, Safe) tt
      ]

abbrev all_short : List (ℕ × ℕ) → Bool
all_short [] = true
all_short (c ∷ cs) = leb c.0 30 && all_short cs

-- No code is longer than 30 bits.
encode_table_short : all_short encode_table ≡ true
unfolding encode_table
encode_table_short = refl

get_elem?_short :
    (cs : List (ℕ × ℕ)) (i : ℕ) (c : ℕ × ℕ)
    → all_short cs ≡ true
    → get_elem? cs i ≡ some c
    → c.0 ≤ 30
get_elem?_short [] i c h e = cc
get_elem?_short (x ∷ cs) zero c h e = ground arith
get_elem?_short (x ∷ cs) (suc i) c h e = get_elem?_short cs i c (ground arith) e

index_short : (b : ℕ) → Safe (λ c. c.0 ≤ 30) (index encode_table b)
index_short b = elim (Option-cases (get_elem? encode_table b)) [
  | inl e ↦ rw (e, Safe) tt
  | inr (c, e) ↦ rw (e, Safe) (get_elem?_short encode_table b c encode_table_short e)
]

-- After enough rounds more than 32 places are free.
flush-Safe :
    (rounds : ℕ) (s : Encoder)
    → 33 ≤ s.bits_left + 8 * rounds
    → Safe (λ t. 33 ≤ t.bits_left) (flush rounds s)
unfolding flush
flush-Safe zero s h =
    let free : leb s.bits_left 32 ≡ false = ground arith in rw (free, Safe) (omega arith)
flush-Safe (suc rounds) s h = elim (Bool-cases (leb s.bits_left 32)) [
  | inl e ↦ rw (e, Safe) (flush-Safe rounds _ (omega arith))
  | inr e ↦ rw (e, Safe) (ground arith)
]

encode_loop-Safe :
    (src : Bytes) (s : Encoder) → 33 ≤ s.bits_left → Safe (λ _. Unit {0}) (encode_loop src s)
unfolding encode_loop put_code
encode_loop-Safe [] s h = tt
encode_loop-Safe (b ∷ src) s h =
    Safe-bind (λ c. c.0 ≤ 30) _ (index encode_table b) _ (index_short b)
      λ c short.
        Safe-bind (λ t. 33 ≤ t.bits_left) _ (flush 5 (put_code c s)) _
          (flush-Safe 5 (put_code c s) (omega arith)) λ t free. encode_loop-Safe src t free

pub encode-Safe : (src dst : Bytes) → Safe (λ _. Unit {0}) (encode src dst)
unfolding encode
encode-Safe src dst =
    Safe-bind (λ _. Unit {0}) _ (encode_loop src _) _ (encode_loop-Safe src _ (omega arith))
      (λ s _. tt)
