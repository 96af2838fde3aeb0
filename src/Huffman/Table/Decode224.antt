-- ===== src/Huffman/Table/Decode224.antt =====
-- pajamax/src/huffman/table.rs, `DECODE_TABLE`: states 224 to 231, as (next, byte, flags).
use pajamax.Prelude.{ℕ, List, [], ◌∷◌}

abbrev pub states_224 : List (List (ℕ × ℕ × ℕ))
states_224 =
    ((1, 254, 2)
      ∷ (22, 254, 3)
      ∷ (0, 2, 2)
      ∷ (0, 3, 2)
      ∷ (0, 4, 2)
      ∷ (0, 5, 2)
      ∷ (0, 6, 2)
      ∷ (0, 7, 2)
      ∷ (0, 8, 2)
      ∷ (0, 11, 2)
      ∷ (0, 12, 2)
      ∷ (0, 14, 2)
      ∷ (0, 15, 2)
      ∷ (0, 16, 2)
      ∷ (0, 17, 2)
      ∷ (0, 18, 2)
      ∷ [])
    ∷ ((2, 254, 2)
        ∷ (9, 254, 2)
        ∷ (23, 254, 2)
        ∷ (40, 254, 3)
        ∷ (1, 2, 2)
        ∷ (22, 2, 3)
        ∷ (1, 3, 2)
        ∷ (22, 3, 3)
        ∷ (1, 4, 2)
        ∷ (22, 4, 3)
        ∷ (1, 5, 2)
        ∷ (22, 5, 3)
        ∷ (1, 6, 2)
        ∷ (22, 6, 3)
        ∷ (1, 7, 2)
        ∷ (22, 7, 3)
        ∷ [])
    ∷ ((3, 254, 2)
        ∷ (6, 254, 2)
        ∷ (10, 254, 2)
        ∷ (15, 254, 2)
        ∷ (24, 254, 2)
        ∷ (31, 254, 2)
        ∷ (41, 254, 2)
        ∷ (56, 254, 3)
        ∷ (2, 2, 2)
        ∷ (9, 2, 2)
        ∷ (23, 2, 2)
        ∷ (40, 2, 3)
        ∷ (2, 3, 2)
        ∷ (9, 3, 2)
        ∷ (23, 3, 2)
        ∷ (40, 3, 3)
        ∷ [])
    ∷ ((3, 2, 2)
        ∷ (6, 2, 2)
        ∷ (10, 2, 2)
        ∷ (15, 2, 2)
        ∷ (24, 2, 2)
        ∷ (31, 2, 2)
        ∷ (41, 2, 2)
        ∷ (56, 2, 3)
        ∷ (3, 3, 2)
        ∷ (6, 3, 2)
        ∷ (10, 3, 2)
        ∷ (15, 3, 2)
        ∷ (24, 3, 2)
        ∷ (31, 3, 2)
        ∷ (41, 3, 2)
        ∷ (56, 3, 3)
        ∷ [])
    ∷ ((2, 4, 2)
        ∷ (9, 4, 2)
        ∷ (23, 4, 2)
        ∷ (40, 4, 3)
        ∷ (2, 5, 2)
        ∷ (9, 5, 2)
        ∷ (23, 5, 2)
        ∷ (40, 5, 3)
        ∷ (2, 6, 2)
        ∷ (9, 6, 2)
        ∷ (23, 6, 2)
        ∷ (40, 6, 3)
        ∷ (2, 7, 2)
        ∷ (9, 7, 2)
        ∷ (23, 7, 2)
        ∷ (40, 7, 3)
        ∷ [])
    ∷ ((3, 4, 2)
        ∷ (6, 4, 2)
        ∷ (10, 4, 2)
        ∷ (15, 4, 2)
        ∷ (24, 4, 2)
        ∷ (31, 4, 2)
        ∷ (41, 4, 2)
        ∷ (56, 4, 3)
        ∷ (3, 5, 2)
        ∷ (6, 5, 2)
        ∷ (10, 5, 2)
        ∷ (15, 5, 2)
        ∷ (24, 5, 2)
        ∷ (31, 5, 2)
        ∷ (41, 5, 2)
        ∷ (56, 5, 3)
        ∷ [])
    ∷ ((3, 6, 2)
        ∷ (6, 6, 2)
        ∷ (10, 6, 2)
        ∷ (15, 6, 2)
        ∷ (24, 6, 2)
        ∷ (31, 6, 2)
        ∷ (41, 6, 2)
        ∷ (56, 6, 3)
        ∷ (3, 7, 2)
        ∷ (6, 7, 2)
        ∷ (10, 7, 2)
        ∷ (15, 7, 2)
        ∷ (24, 7, 2)
        ∷ (31, 7, 2)
        ∷ (41, 7, 2)
        ∷ (56, 7, 3)
        ∷ [])
    ∷ ((1, 8, 2)
        ∷ (22, 8, 3)
        ∷ (1, 11, 2)
        ∷ (22, 11, 3)
        ∷ (1, 12, 2)
        ∷ (22, 12, 3)
        ∷ (1, 14, 2)
        ∷ (22, 14, 3)
        ∷ (1, 15, 2)
        ∷ (22, 15, 3)
        ∷ (1, 16, 2)
        ∷ (22, 16, 3)
        ∷ (1, 17, 2)
        ∷ (22, 17, 3)
        ∷ (1, 18, 2)
        ∷ (22, 18, 3)
        ∷ [])
    ∷ []
