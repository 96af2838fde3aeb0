-- ===== src/Huffman/Table/Decode112.antt =====
-- pajamax/src/huffman/table.rs, `DECODE_TABLE`: states 112 to 119, as (next, byte, flags).
use pajamax.Prelude.{ℕ, List, [], ◌∷◌}

abbrev pub states_112 : List (List (ℕ × ℕ × ℕ))
states_112 =
    ((1, 176, 2)
      ∷ (22, 176, 3)
      ∷ (1, 177, 2)
      ∷ (22, 177, 3)
      ∷ (1, 179, 2)
      ∷ (22, 179, 3)
      ∷ (1, 209, 2)
      ∷ (22, 209, 3)
      ∷ (1, 216, 2)
      ∷ (22, 216, 3)
      ∷ (1, 217, 2)
      ∷ (22, 217, 3)
      ∷ (1, 227, 2)
      ∷ (22, 227, 3)
      ∷ (1, 229, 2)
      ∷ (22, 229, 3)
      ∷ [])
    ∷ ((2, 176, 2)
        ∷ (9, 176, 2)
        ∷ (23, 176, 2)
        ∷ (40, 176, 3)
        ∷ (2, 177, 2)
        ∷ (9, 177, 2)
        ∷ (23, 177, 2)
        ∷ (40, 177, 3)
        ∷ (2, 179, 2)
        ∷ (9, 179, 2)
        ∷ (23, 179, 2)
        ∷ (40, 179, 3)
        ∷ (2, 209, 2)
        ∷ (9, 209, 2)
        ∷ (23, 209, 2)
        ∷ (40, 209, 3)
        ∷ [])
    ∷ ((3, 176, 2)
        ∷ (6, 176, 2)
        ∷ (10, 176, 2)
        ∷ (15, 176, 2)
        ∷ (24, 176, 2)
        ∷ (31, 176, 2)
        ∷ (41, 176, 2)
        ∷ (56, 176, 3)
        ∷ (3, 177, 2)
        ∷ (6, 177, 2)
        ∷ (10, 177, 2)
        ∷ (15, 177, 2)
        ∷ (24, 177, 2)
        ∷ (31, 177, 2)
        ∷ (41, 177, 2)
        ∷ (56, 177, 3)
        ∷ [])
    ∷ ((3, 179, 2)
        ∷ (6, 179, 2)
        ∷ (10, 179, 2)
        ∷ (15, 179, 2)
        ∷ (24, 179, 2)
        ∷ (31, 179, 2)
        ∷ (41, 179, 2)
        ∷ (56, 179, 3)
        ∷ (3, 209, 2)
        ∷ (6, 209, 2)
        ∷ (10, 209, 2)
        ∷ (15, 209, 2)
        ∷ (24, 209, 2)
        ∷ (31, 209, 2)
        ∷ (41, 209, 2)
        ∷ (56, 209, 3)
        ∷ [])
    ∷ ((2, 216, 2)
        ∷ (9, 216, 2)
        ∷ (23, 216, 2)
        ∷ (40, 216, 3)
        ∷ (2, 217, 2)
        ∷ (9, 217, 2)
        ∷ (23, 217, 2)
        ∷ (40, 217, 3)
        ∷ (2, 227, 2)
        ∷ (9, 227, 2)
        ∷ (23, 227, 2)
        ∷ (40, 227, 3)
        ∷ (2, 229, 2)
        ∷ (9, 229, 2)
        ∷ (23, 229, 2)
        ∷ (40, 229, 3)
        ∷ [])
    ∷ ((3, 216, 2)
        ∷ (6, 216, 2)
        ∷ (10, 216, 2)
        ∷ (15, 216, 2)
        ∷ (24, 216, 2)
        ∷ (31, 216, 2)
        ∷ (41, 216, 2)
        ∷ (56, 216, 3)
        ∷ (3, 217, 2)
        ∷ (6, 217, 2)
        ∷ (10, 217, 2)
        ∷ (15, 217, 2)
        ∷ (24, 217, 2)
        ∷ (31, 217, 2)
        ∷ (41, 217, 2)
        ∷ (56, 217, 3)
        ∷ [])
    ∷ ((3, 227, 2)
        ∷ (6, 227, 2)
        ∷ (10, 227, 2)
        ∷ (15, 227, 2)
        ∷ (24, 227, 2)
        ∷ (31, 227, 2)
        ∷ (41, 227, 2)
        ∷ (56, 227, 3)
        ∷ (3, 229, 2)
        ∷ (6, 229, 2)
        ∷ (10, 229, 2)
        ∷ (15, 229, 2)
        ∷ (24, 229, 2)
        ∷ (31, 229, 2)
        ∷ (41, 229, 2)
        ∷ (56, 229, 3)
        ∷ [])
    ∷ ((1, 230, 2)
        ∷ (22, 230, 3)
        ∷ (0, 129, 2)
        ∷ (0, 132, 2)
        ∷ (0, 133, 2)
        ∷ (0, 134, 2)
        ∷ (0, 136, 2)
        ∷ (0, 146, 2)
        ∷ (0, 154, 2)
        ∷ (0, 156, 2)
        ∷ (0, 160, 2)
        ∷ (0, 163, 2)
        ∷ (0, 164, 2)
        ∷ (0, 169, 2)
        ∷ (0, 170, 2)
        ∷ (0, 173, 2)
        ∷ [])
    ∷ []
