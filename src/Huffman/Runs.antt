-- ===== src/Huffman/Runs.antt =====
-- pajamax/src/huffman/mod.rs on one text, with its short and its longest codes.
use pajamax.Prelude.{[], ◌∷◌, ◌≡◌, refl, Bytes}
use pajamax.Outcome.{ok, ◌>>=◌}
use pajamax.Huffman.{
  encode, decode, encode_loop, put_code, flush, finish, decode_loop, decode4, entry, is_final, new,
}
use pajamax.Huffman.Table.{encode_table, decode_table}

abbrev text : Bytes
text = 0x77 ∷ 0x77 ∷ 0x77 ∷ 0x2e ∷ 0x65 ∷ 0x78 ∷ 0x61 ∷ 0x6d ∷ 0x70 ∷ 0x6c ∷ 0x65 ∷ 0 ∷ 255 ∷ []

-- Thirteen bytes, there and back.
there_and_back : (encode text [] >>= λ s. decode s []) ≡ ok text
unfolding encode encode_loop put_code flush finish decode decode_loop decode4 entry is_final new
    encode_table decode_table
there_and_back = refl
