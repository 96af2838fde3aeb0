-- ===== src/Huffman/Table/Decode240.antt =====
-- pajamax/src/huffman/table.rs, `DECODE_TABLE`: states 240 to 247, as (next, byte, flags).
use pajamax.Prelude.{ℕ, List, [], ◌∷◌}

abbrev pub states_240 : List (List (ℕ × ℕ × ℕ))
states_240 =
    ((2, 19, 2)
      ∷ (9, 19, 2)
      ∷ (23, 19, 2)
      ∷ (40, 19, 3)
      ∷ (2, 20, 2)
      ∷ (9, 20, 2)
      ∷ (23, 20, 2)
      ∷ (40, 20, 3)
      ∷ (2, 21, 2)
      ∷ (9, 21, 2)
      ∷ (23, 21, 2)
      ∷ (40, 21, 3)
      ∷ (2, 23, 2)
      ∷ (9, 23, 2)
      ∷ (23, 23, 2)
      ∷ (40, 23, 3)
      ∷ [])
    ∷ ((3, 19, 2)
        ∷ (6, 19, 2)
        ∷ (10, 19, 2)
        ∷ (15, 19, 2)
        ∷ (24, 19, 2)
        ∷ (31, 19, 2)
        ∷ (41, 19, 2)
        ∷ (56, 19, 3)
        ∷ (3, 20, 2)
        ∷ (6, 20, 2)
        ∷ (10, 20, 2)
        ∷ (15, 20, 2)
        ∷ (24, 20, 2)
        ∷ (31, 20, 2)
        ∷ (41, 20, 2)
        ∷ (56, 20, 3)
        ∷ [])
    ∷ ((3, 21, 2)
        ∷ (6, 21, 2)
        ∷ (10, 21, 2)
        ∷ (15, 21, 2)
        ∷ (24, 21, 2)
        ∷ (31, 21, 2)
        ∷ (41, 21, 2)
        ∷ (56, 21, 3)
        ∷ (3, 23, 2)
        ∷ (6, 23, 2)
        ∷ (10, 23, 2)
        ∷ (15, 23, 2)
        ∷ (24, 23, 2)
        ∷ (31, 23, 2)
        ∷ (41, 23, 2)
        ∷ (56, 23, 3)
        ∷ [])
    ∷ ((2, 24, 2)
        ∷ (9, 24, 2)
        ∷ (23, 24, 2)
        ∷ (40, 24, 3)
        ∷ (2, 25, 2)
        ∷ (9, 25, 2)
        ∷ (23, 25, 2)
        ∷ (40, 25, 3)
        ∷ (2, 26, 2)
        ∷ (9, 26, 2)
        ∷ (23, 26, 2)
        ∷ (40, 26, 3)
        ∷ (2, 27, 2)
        ∷ (9, 27, 2)
        ∷ (23, 27, 2)
        ∷ (40, 27, 3)
        ∷ [])
    ∷ ((3, 24, 2)
        ∷ (6, 24, 2)
        ∷ (10, 24, 2)
        ∷ (15, 24, 2)
        ∷ (24, 24, 2)
        ∷ (31, 24, 2)
        ∷ (41, 24, 2)
        ∷ (56, 24, 3)
        ∷ (3, 25, 2)
        ∷ (6, 25, 2)
        ∷ (10, 25, 2)
        ∷ (15, 25, 2)
        ∷ (24, 25, 2)
        ∷ (31, 25, 2)
        ∷ (41, 25, 2)
        ∷ (56, 25, 3)
        ∷ [])
    ∷ ((3, 26, 2)
        ∷ (6, 26, 2)
        ∷ (10, 26, 2)
        ∷ (15, 26, 2)
        ∷ (24, 26, 2)
        ∷ (31, 26, 2)
        ∷ (41, 26, 2)
        ∷ (56, 26, 3)
        ∷ (3, 27, 2)
        ∷ (6, 27, 2)
        ∷ (10, 27, 2)
        ∷ (15, 27, 2)
        ∷ (24, 27, 2)
        ∷ (31, 27, 2)
        ∷ (41, 27, 2)
        ∷ (56, 27, 3)
        ∷ [])
    ∷ ((1, 28, 2)
        ∷ (22, 28, 3)
        ∷ (1, 29, 2)
        ∷ (22, 29, 3)
        ∷ (1, 30, 2)
        ∷ (22, 30, 3)
        ∷ (1, 31, 2)
        ∷ (22, 31, 3)
        ∷ (1, 127, 2)
        ∷ (22, 127, 3)
        ∷ (1, 220, 2)
        ∷ (22, 220, 3)
        ∷ (1, 249, 2)
        ∷ (22, 249, 3)
        ∷ (254, 0, 0)
        ∷ (255, 0, 0)
        ∷ [])
    ∷ ((2, 28, 2)
        ∷ (9, 28, 2)
        ∷ (23, 28, 2)
        ∷ (40, 28, 3)
        ∷ (2, 29, 2)
        ∷ (9, 29, 2)
        ∷ (23, 29, 2)
        ∷ (40, 29, 3)
        ∷ (2, 30, 2)
        ∷ (9, 30, 2)
        ∷ (23, 30, 2)
        ∷ (40, 30, 3)
        ∷ (2, 31, 2)
        ∷ (9, 31, 2)
        ∷ (23, 31, 2)
        ∷ (40, 31, 3)
        ∷ [])
    ∷ []
