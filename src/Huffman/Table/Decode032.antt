-- ===== src/Huffman/Table/Decode032.antt =====
-- pajamax/src/huffman/table.rs, `DECODE_TABLE`: states 32 to 39, as (next, byte, flags).
use pajamax.Prelude.{ℕ, List, [], ◌∷◌}

abbrev pub states_032 : List (List (ℕ × ℕ × ℕ))
states_032 =
    ((2, 108, 2)
      ∷ (9, 108, 2)
      ∷ (23, 108, 2)
      ∷ (40, 108, 3)
      ∷ (2, 109, 2)
      ∷ (9, 109, 2)
      ∷ (23, 109, 2)
      ∷ (40, 109, 3)
      ∷ (2, 110, 2)
      ∷ (9, 110, 2)
      ∷ (23, 110, 2)
      ∷ (40, 110, 3)
      ∷ (2, 112, 2)
      ∷ (9, 112, 2)
      ∷ (23, 112, 2)
      ∷ (40, 112, 3)
      ∷ [])
    ∷ ((3, 108, 2)
        ∷ (6, 108, 2)
        ∷ (10, 108, 2)
        ∷ (15, 108, 2)
        ∷ (24, 108, 2)
        ∷ (31, 108, 2)
        ∷ (41, 108, 2)
        ∷ (56, 108, 3)
        ∷ (3, 109, 2)
        ∷ (6, 109, 2)
        ∷ (10, 109, 2)
        ∷ (15, 109, 2)
        ∷ (24, 109, 2)
        ∷ (31, 109, 2)
        ∷ (41, 109, 2)
        ∷ (56, 109, 3)
        ∷ [])
    ∷ ((3, 110, 2)
        ∷ (6, 110, 2)
        ∷ (10, 110, 2)
        ∷ (15, 110, 2)
        ∷ (24, 110, 2)
        ∷ (31, 110, 2)
        ∷ (41, 110, 2)
        ∷ (56, 110, 3)
        ∷ (3, 112, 2)
        ∷ (6, 112, 2)
        ∷ (10, 112, 2)
        ∷ (15, 112, 2)
        ∷ (24, 112, 2)
        ∷ (31, 112, 2)
        ∷ (41, 112, 2)
        ∷ (56, 112, 3)
        ∷ [])
    ∷ ((2, 114, 2)
        ∷ (9, 114, 2)
        ∷ (23, 114, 2)
        ∷ (40, 114, 3)
        ∷ (2, 117, 2)
        ∷ (9, 117, 2)
        ∷ (23, 117, 2)
        ∷ (40, 117, 3)
        ∷ (1, 58, 2)
        ∷ (22, 58, 3)
        ∷ (1, 66, 2)
        ∷ (22, 66, 3)
        ∷ (1, 67, 2)
        ∷ (22, 67, 3)
        ∷ (1, 68, 2)
        ∷ (22, 68, 3)
        ∷ [])
    ∷ ((3, 114, 2)
        ∷ (6, 114, 2)
        ∷ (10, 114, 2)
        ∷ (15, 114, 2)
        ∷ (24, 114, 2)
        ∷ (31, 114, 2)
        ∷ (41, 114, 2)
        ∷ (56, 114, 3)
        ∷ (3, 117, 2)
        ∷ (6, 117, 2)
        ∷ (10, 117, 2)
        ∷ (15, 117, 2)
        ∷ (24, 117, 2)
        ∷ (31, 117, 2)
        ∷ (41, 117, 2)
        ∷ (56, 117, 3)
        ∷ [])
    ∷ ((2, 58, 2)
        ∷ (9, 58, 2)
        ∷ (23, 58, 2)
        ∷ (40, 58, 3)
        ∷ (2, 66, 2)
        ∷ (9, 66, 2)
        ∷ (23, 66, 2)
        ∷ (40, 66, 3)
        ∷ (2, 67, 2)
        ∷ (9, 67, 2)
        ∷ (23, 67, 2)
        ∷ (40, 67, 3)
        ∷ (2, 68, 2)
        ∷ (9, 68, 2)
        ∷ (23, 68, 2)
        ∷ (40, 68, 3)
        ∷ [])
    ∷ ((3, 58, 2)
        ∷ (6, 58, 2)
        ∷ (10, 58, 2)
        ∷ (15, 58, 2)
        ∷ (24, 58, 2)
        ∷ (31, 58, 2)
        ∷ (41, 58, 2)
        ∷ (56, 58, 3)
        ∷ (3, 66, 2)
        ∷ (6, 66, 2)
        ∷ (10, 66, 2)
        ∷ (15, 66, 2)
        ∷ (24, 66, 2)
        ∷ (31, 66, 2)
        ∷ (41, 66, 2)
        ∷ (56, 66, 3)
        ∷ [])
    ∷ ((3, 67, 2)
        ∷ (6, 67, 2)
        ∷ (10, 67, 2)
        ∷ (15, 67, 2)
        ∷ (24, 67, 2)
        ∷ (31, 67, 2)
        ∷ (41, 67, 2)
        ∷ (56, 67, 3)
        ∷ (3, 68, 2)
        ∷ (6, 68, 2)
        ∷ (10, 68, 2)
        ∷ (15, 68, 2)
        ∷ (24, 68, 2)
        ∷ (31, 68, 2)
        ∷ (41, 68, 2)
        ∷ (56, 68, 3)
        ∷ [])
    ∷ []
