-- ===== src/Hpack/Encoder/Strings.antt =====
-- The integers and strings that the encoder writes, as the peer reads them.
use pajamax.Prelude.{
  ℕ, ◌+◌, ◌-◌, ◌/◌, ◌%◌, ◌^◌, ◌≤◌, ◌<◌, ◌≡◌, refl, arith, bit_or, true, false, Bool-cases, inl, inr,
  lt→ltb, le→not_ltb, [], ◌∷◌, ◌++◌, Bytes, length, length-append, take-append_self,
  drop-append_self, leb, ltb, append_assoc, ltb→lt,
}
use pajamax.Prelude.Bits.{all_below, agree_below}
use pajamax.Outcome.{ok}
use pajamax.Hpack.Int.{encode_int, encode_int_one_byte, decode_int}
use pajamax.Hpack.Int.RoundTrip.{encode_int-append, decode_int-encode_int}
use pajamax.Hpack.Encoder.{encode_str}
use pajamax.Hpack.Encoder.Peer.{Table, first_byte, peer_str, peer_name, peer_literal}

or-0 : (b : ℕ) → b < 256 → bit_or 0 b ≡ b
unfolding all_below
or-0 = agree_below _ _ 256 refl

or-0x80 : (b : ℕ) → b < 256 → bit_or 0x80 b / 128 ≡ 1
unfolding all_below
or-0x80 = agree_below (λ b. bit_or 0x80 b / 128) (λ _. 1) 256 refl

-- The first byte of an index, of a string's length, and of a literal's name.
pub first-index : (v : ℕ) (rest : Bytes) → 128 ≤ first_byte (encode_int v 7 0x80 [] ++ rest)
unfolding encode_int first_byte
first-index v rest = elim (Bool-cases (encode_int_one_byte v 7)) [
  | inl e ↦ rw (e, encode_int) (omega (arith, or-0x80 (v % 256) (omega arith)))
  | inr e ↦ rw (e, encode_int) (omega (arith, or-0x80 127 (omega arith)))
]

pub first-plain :
    (v p : ℕ) (rest : Bytes)
    → 1 ≤ 2 ^ p
    → 2 ^ p ≤ 128
    → first_byte (encode_int v p 0 [] ++ rest) < 2 ^ p
unfolding encode_int encode_int_one_byte first_byte
first-plain v p rest h q = elim (Bool-cases (encode_int_one_byte v p)) [
  | inl e ↦ rw (e, encode_int) (omega (arith, or-0 (v % 256) (omega arith), ltb→lt v (2 ^ p - 1) e))
  | inr e ↦ rw (e, encode_int) (omega (arith, or-0 ((2 ^ p - 1) % 256) (omega arith)))
]

-- An integer, read.
pub read-int :
    (v p first : ℕ) (rest : Bytes)
    → 1 ≤ p
    → p ≤ 8
    → first < 256
    → first % 2 ^ p ≡ 0
    → v < 2 ^ 28
    → decode_int (encode_int v p first [] ++ rest) p ≡ ok (v, length (encode_int v p first []))
read-int v p first rest lo hi b z h =
    let small : ltb v (2 ^ 28 + (2 ^ p - 1)) ≡ true = lt→ltb _ _ (omega arith) in
    rw small at (decode_int-encode_int p first lo hi b z v rest (omega arith))

pub encode_str-append : (val dst : Bytes) → encode_str val dst ≡ dst ++ encode_str val []
unfolding encode_str
encode_str-append val dst = rw (encode_int-append (length val) 7 0 dst) (append_assoc dst _ val)

-- A string, read.
pub peer_str-encode_str :
    (val rest : Bytes) → length val < 2 ^ 28 → peer_str (encode_str val [] ++ rest) ≡ ok (val, rest)
unfolding peer_str encode_str
peer_str-encode_str val rest h =
    let n = length val in
    let plain : leb 128 (first_byte (encode_int n 7 0 [] ++ (val ++ rest))) ≡ false =
      ground (arith, first-plain n 7 (val ++ rest) (omega arith) (omega arith)) in
    let whole : ltb (length (val ++ rest)) n ≡ false =
      le→not_ltb _ _ (omega (arith, length-append val rest)) in
    rw (
      append_assoc (encode_int n 7 0 []) val rest,
      read-int n 7 0 (val ++ rest) (omega arith) (omega arith) (omega arith) refl h,
      drop-append_self (encode_int n 7 0 []) (val ++ rest),
      plain,
      whole,
      take-append_self val rest,
      drop-append_self val rest,
    )

-- A literal that is written out behind an index of 0 in `prefix` bits.
pub read-literal :
    (table : Table) (prefix first : ℕ) (name value rest : Bytes)
    → decode_int (first ∷ (encode_str name [] ++ (encode_str value [] ++ rest))) prefix ≡ ok (0, 1)
    → length name < 2 ^ 28
    → length value < 2 ^ 28
    → peer_literal table prefix (first ∷ (encode_str name [] ++ (encode_str value [] ++ rest)))
      ≡ ok ((name, value), rest)
unfolding peer_literal peer_name
read-literal table prefix first name value rest e hn hv = rw (
  e,
  peer_str-encode_str name (encode_str value [] ++ rest) hn,
  peer_str-encode_str value rest hv,
)
