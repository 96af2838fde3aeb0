-- ===== src/Huffman/Table/Decode120.antt =====
-- pajamax/src/huffman/table.rs, `DECODE_TABLE`: states 120 to 127, as (next, byte, flags).
use pajamax.Prelude.{ℕ, List, [], ◌∷◌}

abbrev pub states_120 : List (List (ℕ × ℕ × ℕ))
states_120 =
    ((2, 230, 2)
      ∷ (9, 230, 2)
      ∷ (23, 230, 2)
      ∷ (40, 230, 3)
      ∷ (1, 129, 2)
      ∷ (22, 129, 3)
      ∷ (1, 132, 2)
      ∷ (22, 132, 3)
      ∷ (1, 133, 2)
      ∷ (22, 133, 3)
      ∷ (1, 134, 2)
      ∷ (22, 134, 3)
      ∷ (1, 136, 2)
      ∷ (22, 136, 3)
      ∷ (1, 146, 2)
      ∷ (22, 146, 3)
      ∷ [])
    ∷ ((3, 230, 2)
        ∷ (6, 230, 2)
        ∷ (10, 230, 2)
        ∷ (15, 230, 2)
        ∷ (24, 230, 2)
        ∷ (31, 230, 2)
        ∷ (41, 230, 2)
        ∷ (56, 230, 3)
        ∷ (2, 129, 2)
        ∷ (9, 129, 2)
        ∷ (23, 129, 2)
        ∷ (40, 129, 3)
        ∷ (2, 132, 2)
        ∷ (9, 132, 2)
        ∷ (23, 132, 2)
        ∷ (40, 132, 3)
        ∷ [])
    ∷ ((3, 129, 2)
        ∷ (6, 129, 2)
        ∷ (10, 129, 2)
        ∷ (15, 129, 2)
        ∷ (24, 129, 2)
        ∷ (31, 129, 2)
        ∷ (41, 129, 2)
        ∷ (56, 129, 3)
        ∷ (3, 132, 2)
        ∷ (6, 132, 2)
        ∷ (10, 132, 2)
        ∷ (15, 132, 2)
        ∷ (24, 132, 2)
        ∷ (31, 132, 2)
        ∷ (41, 132, 2)
        ∷ (56, 132, 3)
        ∷ [])
    ∷ ((2, 133, 2)
        ∷ (9, 133, 2)
        ∷ (23, 133, 2)
        ∷ (40, 133, 3)
        ∷ (2, 134, 2)
        ∷ (9, 134, 2)
        ∷ (23, 134, 2)
        ∷ (40, 134, 3)
        ∷ (2, 136, 2)
        ∷ (9, 136, 2)
        ∷ (23, 136, 2)
        ∷ (40, 136, 3)
        ∷ (2, 146, 2)
        ∷ (9, 146, 2)
        ∷ (23, 146, 2)
        ∷ (40, 146, 3)
        ∷ [])
    ∷ ((3, 133, 2)
        ∷ (6, 133, 2)
        ∷ (10, 133, 2)
        ∷ (15, 133, 2)
        ∷ (24, 133, 2)
        ∷ (31, 133, 2)
        ∷ (41, 133, 2)
        ∷ (56, 133, 3)
        ∷ (3, 134, 2)
        ∷ (6, 134, 2)
        ∷ (10, 134, 2)
        ∷ (15, 134, 2)
        ∷ (24, 134, 2)
        ∷ (31, 134, 2)
        ∷ (41, 134, 2)
        ∷ (56, 134, 3)
        ∷ [])
    ∷ ((3, 136, 2)
        ∷ (6, 136, 2)
        ∷ (10, 136, 2)
        ∷ (15, 136, 2)
        ∷ (24, 136, 2)
        ∷ (31, 136, 2)
        ∷ (41, 136, 2)
        ∷ (56, 136, 3)
        ∷ (3, 146, 2)
        ∷ (6, 146, 2)
        ∷ (10, 146, 2)
        ∷ (15, 146, 2)
        ∷ (24, 146, 2)
        ∷ (31, 146, 2)
        ∷ (41, 146, 2)
        ∷ (56, 146, 3)
        ∷ [])
    ∷ ((1, 154, 2)
        ∷ (22, 154, 3)
        ∷ (1, 156, 2)
        ∷ (22, 156, 3)
        ∷ (1, 160, 2)
        ∷ (22, 160, 3)
        ∷ (1, 163, 2)
        ∷ (22, 163, 3)
        ∷ (1, 164, 2)
        ∷ (22, 164, 3)
        ∷ (1, 169, 2)
        ∷ (22, 169, 3)
        ∷ (1, 170, 2)
        ∷ (22, 170, 3)
        ∷ (1, 173, 2)
        ∷ (22, 173, 3)
        ∷ [])
    ∷ ((2, 154, 2)
        ∷ (9, 154, 2)
        ∷ (23, 154, 2)
        ∷ (40, 154, 3)
        ∷ (2, 156, 2)
        ∷ (9, 156, 2)
        ∷ (23, 156, 2)
        ∷ (40, 156, 3)
        ∷ (2, 160, 2)
        ∷ (9, 160, 2)
        ∷ (23, 160, 2)
        ∷ (40, 160, 3)
        ∷ (2, 163, 2)
        ∷ (9, 163, 2)
        ∷ (23, 163, 2)
        ∷ (40, 163, 3)
        ∷ [])
    ∷ []
