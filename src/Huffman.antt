-- ===== src/Huffman.antt =====
-- pajamax/src/huffman/mod.rs: the decoder that reads four bits at a time, and the encoder.
pub mod Table
mod Runs
pub mod Total
use pajamax.Prelude.{
  ℕ, zero, suc, ◌+◌, ◌-◌, ◌*◌, ◌/◌, ◌%◌, ◌^◌, bit_and, bit_or, Bool, true, false, ◌||◌, Option,
  none, some, List, [], ◌∷◌, ◌++◌, Bytes, get_elem?, leb, ◌==◌, if◌then◌else◌,
}
use pajamax.Outcome.{Outcome, ok, err, panic, stuck, invalid_huffman, ◌>>=◌}
use Table.{encode_table, decode_table}

-- `Decoder`.
pub record Decoder : Type 0 where
  pub state : ℕ
  pub maybe_eos : Bool

-- `MAYBE_EOS`, `DECODED` and `ERROR`.
abbrev pub maybe_eos_flag : ℕ
maybe_eos_flag = 1

abbrev pub decoded_flag : ℕ
decoded_flag = 2

abbrev pub error_flag : ℕ
error_flag = 4

-- `Decoder::new`.
unfoldable pub new : Decoder
new = record { state = 0; maybe_eos = false }

-- `flags & mask == mask`.
abbrev pub has : ℕ → ℕ → Bool
has flags mask = bit_and flags mask == mask

-- `Vec` and array indexing.
abbrev pub index {ℓ} : {A : Type ℓ} → List A → ℕ → Outcome A
index xs i = elim (get_elem? xs i) [ none ↦ panic | some x ↦ ok x ]

-- What `decode4` does with the table's entry.
unfoldable pub apply_entry : ℕ × ℕ × ℕ → Outcome (Decoder × Option ℕ)
apply_entry (next, byte, flags) =
    if has flags error_flag
    then err invalid_huffman
    else ok (
      record { state = next; maybe_eos = has flags maybe_eos_flag },
      (if has flags decoded_flag then some byte else none),
    )

-- `DECODE_TABLE[state][input]`.
unfoldable pub entry : ℕ → ℕ → Outcome (ℕ × ℕ × ℕ)
entry state input = do row ← index decode_table state; index row input

-- `decode4`: the decoder after four bits, and the byte that they complete.
unfoldable pub decode4 : Decoder → ℕ → Outcome (Decoder × Option ℕ)
unfolding apply_entry
decode4 d input = do e ← entry d.state input; apply_entry e

-- `is_final`.
unfoldable pub is_final : Decoder → Bool
is_final d = d.state == 0 || d.maybe_eos

-- `if let Some(b) = ... { buf.push(b) }`.
abbrev pub push_some : Bytes → Option ℕ → Bytes
push_some buf none = buf
push_some buf (some b) = buf ++ b ∷ []

-- The loop of `decode`.
unfoldable pub decode_loop : Bytes → Decoder → Bytes → Outcome (Decoder × Bytes)
decode_loop [] d buf = ok (d, buf)
decode_loop (b ∷ src) d buf = do
  (d₁, high) ← decode4 d (b / 16)
  (d₂, low) ← decode4 d₁ (b % 16)
  decode_loop src d₂ (push_some (push_some buf high) low)

-- `decode`: `buf` with the decoded bytes behind it.
unfoldable pub decode : Bytes → Bytes → Outcome Bytes
decode src buf = do
  (d, out) ← decode_loop src new buf
  if is_final d then ok out else err invalid_huffman

-- `encode` holds the pending bits at the top of a window of 40 bits; `bits` is a `u64`.
pub record Encoder : Type 0 where
  pub bits : ℕ
  pub bits_left : ℕ
  pub dst : Bytes

-- The inner `while bits_left <= 32` loop. A code has at most 30 bits and less than one byte is
-- pending before it, so five rounds are enough.
unfoldable pub flush : ℕ → Encoder → Outcome Encoder
flush zero s = if leb s.bits_left 32 then stuck else ok s
flush (suc rounds) s =
    let rest = flush rounds (record {
      bits = s.bits * 2 ^ 8 % 2 ^ 64;
      bits_left = s.bits_left + 8;
      dst = s.dst ++ (s.bits / 2 ^ 32 % 256) ∷ [];
    }) in
    if leb s.bits_left 32 then rest else ok s

-- One byte of the source: its code goes below the pending bits.
unfoldable pub put_code : ℕ × ℕ → Encoder → Encoder
put_code (nbits, code) s = record s {
  bits = bit_or s.bits (code * 2 ^ (s.bits_left - nbits) % 2 ^ 64);
  bits_left = s.bits_left - nbits;
}

unfoldable pub encode_loop : Bytes → Encoder → Outcome Encoder
encode_loop [] s = ok s
encode_loop (b ∷ src) s = do
  code ← index encode_table b
  flushed ← flush 5 (put_code code s)
  encode_loop src flushed

-- The bits that are left are filled up with ones.
unfoldable pub finish : Encoder → Bytes
finish s =
    if s.bits_left == 40
    then s.dst
    else s.dst ++ (bit_or s.bits (2 ^ s.bits_left - 1) / 2 ^ 32 % 256) ∷ []

-- `encode`.
unfoldable pub encode : Bytes → Bytes → Outcome Bytes
encode src dst = do
  s ← encode_loop src (record { bits = 0; bits_left = 40; dst = dst })
  ok (finish s)
