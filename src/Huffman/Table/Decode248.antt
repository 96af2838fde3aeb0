-- ===== src/Huffman/Table/Decode248.antt =====
-- pajamax/src/huffman/table.rs, `DECODE_TABLE`: states 248 to 255, as (next, byte, flags).
use pajamax.Prelude.{ℕ, List, [], ◌∷◌}

abbrev pub states_248 : List (List (ℕ × ℕ × ℕ))
states_248 =
    ((3, 28, 2)
      ∷ (6, 28, 2)
      ∷ (10, 28, 2)
      ∷ (15, 28, 2)
      ∷ (24, 28, 2)
      ∷ (31, 28, 2)
      ∷ (41, 28, 2)
      ∷ (56, 28, 3)
      ∷ (3, 29, 2)
      ∷ (6, 29, 2)
      ∷ (10, 29, 2)
      ∷ (15, 29, 2)
      ∷ (24, 29, 2)
      ∷ (31, 29, 2)
      ∷ (41, 29, 2)
      ∷ (56, 29, 3)
      ∷ [])
    ∷ ((3, 30, 2)
        ∷ (6, 30, 2)
        ∷ (10, 30, 2)
        ∷ (15, 30, 2)
        ∷ (24, 30, 2)
        ∷ (31, 30, 2)
        ∷ (41, 30, 2)
        ∷ (56, 30, 3)
        ∷ (3, 31, 2)
        ∷ (6, 31, 2)
        ∷ (10, 31, 2)
        ∷ (15, 31, 2)
        ∷ (24, 31, 2)
        ∷ (31, 31, 2)
        ∷ (41, 31, 2)
        ∷ (56, 31, 3)
        ∷ [])
    ∷ ((2, 127, 2)
        ∷ (9, 127, 2)
        ∷ (23, 127, 2)
        ∷ (40, 127, 3)
        ∷ (2, 220, 2)
        ∷ (9, 220, 2)
        ∷ (23, 220, 2)
        ∷ (40, 220, 3)
        ∷ (2, 249, 2)
        ∷ (9, 249, 2)
        ∷ (23, 249, 2)
        ∷ (40, 249, 3)
        ∷ (0, 10, 2)
        ∷ (0, 13, 2)
        ∷ (0, 22, 2)
        ∷ (0, 0, 4)
        ∷ [])
    ∷ ((3, 127, 2)
        ∷ (6, 127, 2)
        ∷ (10, 127, 2)
        ∷ (15, 127, 2)
        ∷ (24, 127, 2)
        ∷ (31, 127, 2)
        ∷ (41, 127, 2)
        ∷ (56, 127, 3)
        ∷ (3, 220, 2)
        ∷ (6, 220, 2)
        ∷ (10, 220, 2)
        ∷ (15, 220, 2)
        ∷ (24, 220, 2)
        ∷ (31, 220, 2)
        ∷ (41, 220, 2)
        ∷ (56, 220, 3)
        ∷ [])
    ∷ ((3, 249, 2)
        ∷ (6, 249, 2)
        ∷ (10, 249, 2)
        ∷ (15, 249, 2)
        ∷ (24, 249, 2)
        ∷ (31, 249, 2)
        ∷ (41, 249, 2)
        ∷ (56, 249, 3)
        ∷ (1, 10, 2)
        ∷ (22, 10, 3)
        ∷ (1, 13, 2)
        ∷ (22, 13, 3)
        ∷ (1, 22, 2)
        ∷ (22, 22, 3)
        ∷ (0, 0, 4)
        ∷ (0, 0, 5)
        ∷ [])
    ∷ ((2, 10, 2)
        ∷ (9, 10, 2)
        ∷ (23, 10, 2)
        ∷ (40, 10, 3)
        ∷ (2, 13, 2)
        ∷ (9, 13, 2)
        ∷ (23, 13, 2)
        ∷ (40, 13, 3)
        ∷ (2, 22, 2)
        ∷ (9, 22, 2)
        ∷ (23, 22, 2)
        ∷ (40, 22, 3)
        ∷ (0, 0, 4)
        ∷ (0, 0, 4)
        ∷ (0, 0, 4)
        ∷ (0, 0, 5)
        ∷ [])
    ∷ ((3, 10, 2)
        ∷ (6, 10, 2)
        ∷ (10, 10, 2)
        ∷ (15, 10, 2)
        ∷ (24, 10, 2)
        ∷ (31, 10, 2)
        ∷ (41, 10, 2)
        ∷ (56, 10, 3)
        ∷ (3, 13, 2)
        ∷ (6, 13, 2)
        ∷ (10, 13, 2)
        ∷ (15, 13, 2)
        ∷ (24, 13, 2)
        ∷ (31, 13, 2)
        ∷ (41, 13, 2)
        ∷ (56, 13, 3)
        ∷ [])
    ∷ ((3, 22, 2)
        ∷ (6, 22, 2)
        ∷ (10, 22, 2)
        ∷ (15, 22, 2)
        ∷ (24, 22, 2)
        ∷ (31, 22, 2)
        ∷ (41, 22, 2)
        ∷ (56, 22, 3)
        ∷ (0, 0, 4)
        ∷ (0, 0, 4)
        ∷ (0, 0, 4)
        ∷ (0, 0, 4)
        ∷ (0, 0, 4)
        ∷ (0, 0, 4)
        ∷ (0, 0, 4)
        ∷ (0, 0, 5)
        ∷ [])
    ∷ []
