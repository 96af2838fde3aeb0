-- ===== src/Huffman/Table/Decode232.antt =====
-- pajamax/src/huffman/table.rs, `DECODE_TABLE`: states 232 to 239, as (next, byte, flags).
use pajamax.Prelude.{ℕ, List, [], ◌∷◌}

abbrev pub states_232 : List (List (ℕ × ℕ × ℕ))
states_232 =
    ((2, 8, 2)
      ∷ (9, 8, 2)
      ∷ (23, 8, 2)
      ∷ (40, 8, 3)
      ∷ (2, 11, 2)
      ∷ (9, 11, 2)
      ∷ (23, 11, 2)
      ∷ (40, 11, 3)
      ∷ (2, 12, 2)
      ∷ (9, 12, 2)
      ∷ (23, 12, 2)
      ∷ (40, 12, 3)
      ∷ (2, 14, 2)
      ∷ (9, 14, 2)
      ∷ (23, 14, 2)
      ∷ (40, 14, 3)
      ∷ [])
    ∷ ((3, 8, 2)
        ∷ (6, 8, 2)
        ∷ (10, 8, 2)
        ∷ (15, 8, 2)
        ∷ (24, 8, 2)
        ∷ (31, 8, 2)
        ∷ (41, 8, 2)
        ∷ (56, 8, 3)
        ∷ (3, 11, 2)
        ∷ (6, 11, 2)
        ∷ (10, 11, 2)
        ∷ (15, 11, 2)
        ∷ (24, 11, 2)
        ∷ (31, 11, 2)
        ∷ (41, 11, 2)
        ∷ (56, 11, 3)
        ∷ [])
    ∷ ((3, 12, 2)
        ∷ (6, 12, 2)
        ∷ (10, 12, 2)
        ∷ (15, 12, 2)
        ∷ (24, 12, 2)
        ∷ (31, 12, 2)
        ∷ (41, 12, 2)
        ∷ (56, 12, 3)
        ∷ (3, 14, 2)
        ∷ (6, 14, 2)
        ∷ (10, 14, 2)
        ∷ (15, 14, 2)
        ∷ (24, 14, 2)
        ∷ (31, 14, 2)
        ∷ (41, 14, 2)
        ∷ (56, 14, 3)
        ∷ [])
    ∷ ((2, 15, 2)
        ∷ (9, 15, 2)
        ∷ (23, 15, 2)
        ∷ (40, 15, 3)
        ∷ (2, 16, 2)
        ∷ (9, 16, 2)
        ∷ (23, 16, 2)
        ∷ (40, 16, 3)
        ∷ (2, 17, 2)
        ∷ (9, 17, 2)
        ∷ (23, 17, 2)
        ∷ (40, 17, 3)
        ∷ (2, 18, 2)
        ∷ (9, 18, 2)
        ∷ (23, 18, 2)
        ∷ (40, 18, 3)
        ∷ [])
    ∷ ((3, 15, 2)
        ∷ (6, 15, 2)
        ∷ (10, 15, 2)
        ∷ (15, 15, 2)
        ∷ (24, 15, 2)
        ∷ (31, 15, 2)
        ∷ (41, 15, 2)
        ∷ (56, 15, 3)
        ∷ (3, 16, 2)
        ∷ (6, 16, 2)
        ∷ (10, 16, 2)
        ∷ (15, 16, 2)
        ∷ (24, 16, 2)
        ∷ (31, 16, 2)
        ∷ (41, 16, 2)
        ∷ (56, 16, 3)
        ∷ [])
    ∷ ((3, 17, 2)
        ∷ (6, 17, 2)
        ∷ (10, 17, 2)
        ∷ (15, 17, 2)
        ∷ (24, 17, 2)
        ∷ (31, 17, 2)
        ∷ (41, 17, 2)
        ∷ (56, 17, 3)
        ∷ (3, 18, 2)
        ∷ (6, 18, 2)
        ∷ (10, 18, 2)
        ∷ (15, 18, 2)
        ∷ (24, 18, 2)
        ∷ (31, 18, 2)
        ∷ (41, 18, 2)
        ∷ (56, 18, 3)
        ∷ [])
    ∷ ((0, 19, 2)
        ∷ (0, 20, 2)
        ∷ (0, 21, 2)
        ∷ (0, 23, 2)
        ∷ (0, 24, 2)
        ∷ (0, 25, 2)
        ∷ (0, 26, 2)
        ∷ (0, 27, 2)
        ∷ (0, 28, 2)
        ∷ (0, 29, 2)
        ∷ (0, 30, 2)
        ∷ (0, 31, 2)
        ∷ (0, 127, 2)
        ∷ (0, 220, 2)
        ∷ (0, 249, 2)
        ∷ (253, 0, 0)
        ∷ [])
    ∷ ((1, 19, 2)
        ∷ (22, 19, 3)
        ∷ (1, 20, 2)
        ∷ (22, 20, 3)
        ∷ (1, 21, 2)
        ∷ (22, 21, 3)
        ∷ (1, 23, 2)
        ∷ (22, 23, 3)
        ∷ (1, 24, 2)
        ∷ (22, 24, 3)
        ∷ (1, 25, 2)
        ∷ (22, 25, 3)
        ∷ (1, 26, 2)
        ∷ (22, 26, 3)
        ∷ (1, 27, 2)
        ∷ (22, 27, 3)
        ∷ [])
    ∷ []
