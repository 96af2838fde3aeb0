-- ===== src/Hpack/Int.antt =====
-- `decode_int` of pajamax/src/hpack_decoder.rs, and `encode_int` of pajamax/src/hpack_encoder.rs.
pub mod RoundTrip
pub mod Bounds
use pajamax.Prelude.{
  ℕ, zero, suc, ◌+◌, ◌-◌, ◌*◌, ◌/◌, ◌%◌, ◌^◌, bit_and, bit_or, Bool, ◌||◌, [], ◌∷◌, ◌++◌, Bytes,
  ltb, leb, ◌==◌, if◌then◌else◌,
}
use pajamax.Outcome.{Outcome, ok, err, panic, invalid_hpack}

-- `MAX_BYTES`.
abbrev pub max_bytes : ℕ
max_bytes = 5

-- The loop of `decode_int`, over the bytes of `buf` from index `bytes` on. Its condition
-- `!buf.is_empty()` always holds, so a buffer that ends inside the integer is read out of range.
unfoldable pub decode_tail : Bytes → ℕ → ℕ → ℕ → Outcome (ℕ × ℕ)
decode_tail [] ret bytes shift = panic
decode_tail (b ∷ rest) ret bytes shift =
    let ret' = ret + bit_and b 0x7f * 2 ^ shift in
    let more = decode_tail rest ret' (bytes + 1) (shift + 7) in
    if bit_and b 0x80 == 0
    then ok (ret', bytes + 1)
    else if bytes + 1 == max_bytes
    then err (invalid_hpack "integer overflow")
    else more

-- `mask`: `(1u8 << prefix_size).wrapping_sub(1)`, or 0xFF.
abbrev pub prefix_mask : ℕ → ℕ
prefix_mask prefix_size = if prefix_size == 8 then 0xff else 2 ^ prefix_size - 1

-- `decode_int`: the value, and how many bytes it took.
unfoldable pub decode_int : Bytes → ℕ → Outcome (ℕ × ℕ)
unfolding decode_tail
decode_int [] prefix_size =
    if ltb prefix_size 1 || ltb 8 prefix_size
    then err (invalid_hpack "invalid integer")
    else err (invalid_hpack "need more")
decode_int (first ∷ rest) prefix_size =
    let mask = prefix_mask prefix_size in
    let ret = bit_and first mask in
    if ltb prefix_size 1 || ltb 8 prefix_size
    then err (invalid_hpack "invalid integer")
    else if ltb ret mask
    then ok (ret, 1)
    else decode_tail rest ret 1 0

-- `encode_int_one_byte`.
unfoldable pub encode_int_one_byte : ℕ → ℕ → Bool
encode_int_one_byte value prefix_bits = ltb value (2 ^ prefix_bits - 1)

-- The loop of `encode_int` with the push behind it. Ten rounds are enough for a `usize`.
unfoldable pub encode_tail : ℕ → ℕ → Bytes
encode_tail zero value = value % 256 ∷ []
encode_tail (suc rounds) value =
    let rest = encode_tail rounds (value / 128) in
    if leb 128 value then bit_or 0x80 (value % 256) ∷ rest else value % 256 ∷ []

-- `encode_int`, appended to `dst`.
unfoldable pub encode_int : ℕ → ℕ → ℕ → Bytes → Bytes
unfolding encode_int_one_byte
encode_int value prefix_bits first_byte dst =
    let low = 2 ^ prefix_bits - 1 in
    if encode_int_one_byte value prefix_bits
    then dst ++ bit_or first_byte (value % 256) ∷ []
    else dst ++ (bit_or first_byte (low % 256) ∷ encode_tail 10 (value - low))
