-- ===== src/Huffman/Table/Decode008.antt =====
-- pajamax/src/huffman/table.rs, `DECODE_TABLE`: states 8 to 15, as (next, byte, flags).
use pajamax.Prelude.{ℕ, List, [], ◌∷◌}

abbrev pub states_008 : List (List (ℕ × ℕ × ℕ))
states_008 =
    ((3, 105, 2)
      ∷ (6, 105, 2)
      ∷ (10, 105, 2)
      ∷ (15, 105, 2)
      ∷ (24, 105, 2)
      ∷ (31, 105, 2)
      ∷ (41, 105, 2)
      ∷ (56, 105, 3)
      ∷ (3, 111, 2)
      ∷ (6, 111, 2)
      ∷ (10, 111, 2)
      ∷ (15, 111, 2)
      ∷ (24, 111, 2)
      ∷ (31, 111, 2)
      ∷ (41, 111, 2)
      ∷ (56, 111, 3)
      ∷ [])
    ∷ ((1, 115, 2)
        ∷ (22, 115, 3)
        ∷ (1, 116, 2)
        ∷ (22, 116, 3)
        ∷ (0, 32, 2)
        ∷ (0, 37, 2)
        ∷ (0, 45, 2)
        ∷ (0, 46, 2)
        ∷ (0, 47, 2)
        ∷ (0, 51, 2)
        ∷ (0, 52, 2)
        ∷ (0, 53, 2)
        ∷ (0, 54, 2)
        ∷ (0, 55, 2)
        ∷ (0, 56, 2)
        ∷ (0, 57, 2)
        ∷ [])
    ∷ ((2, 115, 2)
        ∷ (9, 115, 2)
        ∷ (23, 115, 2)
        ∷ (40, 115, 3)
        ∷ (2, 116, 2)
        ∷ (9, 116, 2)
        ∷ (23, 116, 2)
        ∷ (40, 116, 3)
        ∷ (1, 32, 2)
        ∷ (22, 32, 3)
        ∷ (1, 37, 2)
        ∷ (22, 37, 3)
        ∷ (1, 45, 2)
        ∷ (22, 45, 3)
        ∷ (1, 46, 2)
        ∷ (22, 46, 3)
        ∷ [])
    ∷ ((3, 115, 2)
        ∷ (6, 115, 2)
        ∷ (10, 115, 2)
        ∷ (15, 115, 2)
        ∷ (24, 115, 2)
        ∷ (31, 115, 2)
        ∷ (41, 115, 2)
        ∷ (56, 115, 3)
        ∷ (3, 116, 2)
        ∷ (6, 116, 2)
        ∷ (10, 116, 2)
        ∷ (15, 116, 2)
        ∷ (24, 116, 2)
        ∷ (31, 116, 2)
        ∷ (41, 116, 2)
        ∷ (56, 116, 3)
        ∷ [])
    ∷ ((2, 32, 2)
        ∷ (9, 32, 2)
        ∷ (23, 32, 2)
        ∷ (40, 32, 3)
        ∷ (2, 37, 2)
        ∷ (9, 37, 2)
        ∷ (23, 37, 2)
        ∷ (40, 37, 3)
        ∷ (2, 45, 2)
        ∷ (9, 45, 2)
        ∷ (23, 45, 2)
        ∷ (40, 45, 3)
        ∷ (2, 46, 2)
        ∷ (9, 46, 2)
        ∷ (23, 46, 2)
        ∷ (40, 46, 3)
        ∷ [])
    ∷ ((3, 32, 2)
        ∷ (6, 32, 2)
        ∷ (10, 32, 2)
        ∷ (15, 32, 2)
        ∷ (24, 32, 2)
        ∷ (31, 32, 2)
        ∷ (41, 32, 2)
        ∷ (56, 32, 3)
        ∷ (3, 37, 2)
        ∷ (6, 37, 2)
        ∷ (10, 37, 2)
        ∷ (15, 37, 2)
        ∷ (24, 37, 2)
        ∷ (31, 37, 2)
        ∷ (41, 37, 2)
        ∷ (56, 37, 3)
        ∷ [])
    ∷ ((3, 45, 2)
        ∷ (6, 45, 2)
        ∷ (10, 45, 2)
        ∷ (15, 45, 2)
        ∷ (24, 45, 2)
        ∷ (31, 45, 2)
        ∷ (41, 45, 2)
        ∷ (56, 45, 3)
        ∷ (3, 46, 2)
        ∷ (6, 46, 2)
        ∷ (10, 46, 2)
        ∷ (15, 46, 2)
        ∷ (24, 46, 2)
        ∷ (31, 46, 2)
        ∷ (41, 46, 2)
        ∷ (56, 46, 3)
        ∷ [])
    ∷ ((1, 47, 2)
        ∷ (22, 47, 3)
        ∷ (1, 51, 2)
        ∷ (22, 51, 3)
        ∷ (1, 52, 2)
        ∷ (22, 52, 3)
        ∷ (1, 53, 2)
        ∷ (22, 53, 3)
        ∷ (1, 54, 2)
        ∷ (22, 54, 3)
        ∷ (1, 55, 2)
        ∷ (22, 55, 3)
        ∷ (1, 56, 2)
        ∷ (22, 56, 3)
        ∷ (1, 57, 2)
        ∷ (22, 57, 3)
        ∷ [])
    ∷ []
