-- ===== src/Hpack/Runs.antt =====
-- pajamax/src/hpack_decoder.rs on small inputs.
use pajamax.Prelude.{
  ◌+◌, ◌-◌, ◌^◌, ◌≡◌, ◌≢◌, refl, arith, [], ◌∷◌, ◌++◌, length, ltb, if◌then◌else◌,
}
use pajamax.Outcome.{ok, err, panic, stuck, invalid_hpack, Safe}
use pajamax.Hpack.Int.{decode_int, encode_int}
use pajamax.Hpack.Int.RoundTrip.{decode_int-encode_int}
use pajamax.Hpack.Int.Bounds.{Within, decode_int-Within, decode_int_truncated}
use pajamax.Hpack.Decoder.{new, find_path_and_encoding}
use pajamax.Hpack.Decoder.Total.{find_path_and_encoding_ends}

decode_int-encode_int_example : decode_int (encode_int 1337 5 0x20 [] ++ 9 ∷ []) 5 ≡ (
    if ltb 1337 (2 ^ 28 + (2 ^ 5 - 1))
    then ok (1337, length (encode_int 1337 5 0x20 []))
    else err (invalid_hpack "integer overflow"))
decode_int-encode_int_example =
    decode_int-encode_int 5 0x20 (omega arith) (omega arith) (omega arith) refl 1337 (9 ∷ [])
      (omega arith)

decode_int-Within_example : Safe (Within 3) (decode_int (0x1f ∷ 0x9a ∷ 0x0a ∷ []) 5)
decode_int-Within_example = decode_int-Within (0x1f ∷ 0x9a ∷ 0x0a ∷ []) 5

decode_int_truncated_example : decode_int (0x1f ∷ 0x9a ∷ []) 5 ≡ panic
decode_int_truncated_example =
    decode_int_truncated 0x1f 5 (0x9a ∷ []) (omega arith) (omega arith) refl (refl, tt)
      (omega arith)

find_path_and_encoding_ends_example :
    find_path_and_encoding (0x82 ∷ 0x44 ∷ 0x02 ∷ 0x2f ∷ 0x61 ∷ []) new ≢ stuck
find_path_and_encoding_ends_example =
    find_path_and_encoding_ends (0x82 ∷ 0x44 ∷ 0x02 ∷ 0x2f ∷ 0x61 ∷ []) new
