-- ===== src/Hpack/Decoder/Text.antt =====
-- Strings of a header block: `OutStr`, `decode_string`, and the two names that are looked for.
use pajamax.Prelude.{
  ℕ, ◌+◌, ◌-◌, bit_and, Bool, false, Option, none, some, List, [], ◌∷◌, Bytes, length, take, drop,
  ltb, ◌==◌, if◌then◌else◌, bytes_eq,
}
use pajamax.Outcome.{Outcome, ok, err, panic, stuck, invalid_hpack, ◌>>=◌}
use pajamax.Hpack.Int.{decode_int}
use pajamax.Huffman

-- `GrpcEncoding`.
pub data GrpcEncoding : Type 0 where
  identity gzip deflate zstd : GrpcEncoding

-- `OutStr`: a string as it stands in the block.
pub data OutStr : Type 0 where
  plain : Bytes → OutStr
  huffman : Bytes → OutStr

-- ":path" and "grpc-encoding".
abbrev pub path_name : Bytes
path_name = 0x3a ∷ 0x70 ∷ 0x61 ∷ 0x74 ∷ 0x68 ∷ []

abbrev pub grpc_encoding_name : Bytes
grpc_encoding_name =
    0x67 ∷ 0x72 ∷ 0x70 ∷ 0x63 ∷ 0x2d ∷ 0x65 ∷ 0x6e ∷ 0x63 ∷ 0x6f ∷ 0x64 ∷ 0x69 ∷ 0x6e ∷ 0x67 ∷ []

-- `OutStr::eq_str`: a Huffman string is compared with the encoding of the text.
unfoldable pub eq_str : OutStr → Bytes → Outcome Bool
eq_str (plain out) s = ok (bytes_eq out s)
eq_str (huffman out) s =
    if ltb (length s) (length out)
    then ok false
    else do huffbuf ← Huffman.encode s []; ok (bytes_eq out huffbuf)

-- The text of each encoding.
abbrev pub gzip_name : Bytes
gzip_name = 0x67 ∷ 0x7a ∷ 0x69 ∷ 0x70 ∷ []

abbrev pub deflate_name : Bytes
deflate_name = 0x64 ∷ 0x65 ∷ 0x66 ∷ 0x6c ∷ 0x61 ∷ 0x74 ∷ 0x65 ∷ []

abbrev pub zstd_name : Bytes
zstd_name = 0x7a ∷ 0x73 ∷ 0x74 ∷ 0x64 ∷ []

unfoldable pub encoding_of : Bytes → Option GrpcEncoding
encoding_of s =
    if bytes_eq s gzip_name
    then some gzip
    else if bytes_eq s deflate_name
    then some deflate
    else if bytes_eq s zstd_name
    then some zstd
    else none

-- `OutStr::to_encoding`: a value that is no Huffman string is no encoding.
unfoldable pub to_encoding : OutStr → Outcome (Option GrpcEncoding)
unfolding encoding_of
to_encoding (plain out) = ok (encoding_of out)
to_encoding (huffman out) = elim (Huffman.decode out []) [
  | ok s ↦ ok (encoding_of s)
  | err _ ↦ ok none
  | panic ↦ panic
  | stuck ↦ stuck
]

-- `decode_string`: the string, and how many bytes it took with its length.
unfoldable pub decode_string : Bytes → Outcome (OutStr × ℕ)
decode_string [] = err (invalid_hpack "need more")
decode_string (first ∷ rest) = do
  (len, adv) ← decode_int (first ∷ rest) 7
  if ltb (length (first ∷ rest)) adv
      then panic
      else if ltb (length (first ∷ rest) - adv) len
      then err (invalid_hpack "need more")
      else (let msg = take len (drop adv (first ∷ rest)) in
          ok ((if bit_and first 0x80 == 0x80 then huffman msg else plain msg), adv + len))

-- `HashMap::get`.
unfoldable pub lookup_path : Bytes → List (Bytes × ℕ) → Option ℕ
lookup_path p [] = none
lookup_path p ((q, i) ∷ m) = if bytes_eq q p then some i else lookup_path p m
