-- ===== src/Huffman/Table/Decode040.antt =====
-- pajamax/src/huffman/table.rs, `DECODE_TABLE`: states 40 to 47, as (next, byte, flags).
use pajamax.Prelude.{ℕ, List, [], ◌∷◌}

abbrev pub states_040 : List (List (ℕ × ℕ × ℕ))
states_040 =
    ((44, 0, 0)
      ∷ (45, 0, 0)
      ∷ (47, 0, 0)
      ∷ (48, 0, 0)
      ∷ (51, 0, 0)
      ∷ (52, 0, 0)
      ∷ (54, 0, 0)
      ∷ (55, 0, 0)
      ∷ (59, 0, 0)
      ∷ (60, 0, 0)
      ∷ (62, 0, 0)
      ∷ (63, 0, 0)
      ∷ (66, 0, 0)
      ∷ (67, 0, 0)
      ∷ (69, 0, 0)
      ∷ (72, 0, 1)
      ∷ [])
    ∷ ((0, 69, 2)
        ∷ (0, 70, 2)
        ∷ (0, 71, 2)
        ∷ (0, 72, 2)
        ∷ (0, 73, 2)
        ∷ (0, 74, 2)
        ∷ (0, 75, 2)
        ∷ (0, 76, 2)
        ∷ (0, 77, 2)
        ∷ (0, 78, 2)
        ∷ (0, 79, 2)
        ∷ (0, 80, 2)
        ∷ (0, 81, 2)
        ∷ (0, 82, 2)
        ∷ (0, 83, 2)
        ∷ (0, 84, 2)
        ∷ [])
    ∷ ((1, 69, 2)
        ∷ (22, 69, 3)
        ∷ (1, 70, 2)
        ∷ (22, 70, 3)
        ∷ (1, 71, 2)
        ∷ (22, 71, 3)
        ∷ (1, 72, 2)
        ∷ (22, 72, 3)
        ∷ (1, 73, 2)
        ∷ (22, 73, 3)
        ∷ (1, 74, 2)
        ∷ (22, 74, 3)
        ∷ (1, 75, 2)
        ∷ (22, 75, 3)
        ∷ (1, 76, 2)
        ∷ (22, 76, 3)
        ∷ [])
    ∷ ((2, 69, 2)
        ∷ (9, 69, 2)
        ∷ (23, 69, 2)
        ∷ (40, 69, 3)
        ∷ (2, 70, 2)
        ∷ (9, 70, 2)
        ∷ (23, 70, 2)
        ∷ (40, 70, 3)
        ∷ (2, 71, 2)
        ∷ (9, 71, 2)
        ∷ (23, 71, 2)
        ∷ (40, 71, 3)
        ∷ (2, 72, 2)
        ∷ (9, 72, 2)
        ∷ (23, 72, 2)
        ∷ (40, 72, 3)
        ∷ [])
    ∷ ((3, 69, 2)
        ∷ (6, 69, 2)
        ∷ (10, 69, 2)
        ∷ (15, 69, 2)
        ∷ (24, 69, 2)
        ∷ (31, 69, 2)
        ∷ (41, 69, 2)
        ∷ (56, 69, 3)
        ∷ (3, 70, 2)
        ∷ (6, 70, 2)
        ∷ (10, 70, 2)
        ∷ (15, 70, 2)
        ∷ (24, 70, 2)
        ∷ (31, 70, 2)
        ∷ (41, 70, 2)
        ∷ (56, 70, 3)
        ∷ [])
    ∷ ((3, 71, 2)
        ∷ (6, 71, 2)
        ∷ (10, 71, 2)
        ∷ (15, 71, 2)
        ∷ (24, 71, 2)
        ∷ (31, 71, 2)
        ∷ (41, 71, 2)
        ∷ (56, 71, 3)
        ∷ (3, 72, 2)
        ∷ (6, 72, 2)
        ∷ (10, 72, 2)
        ∷ (15, 72, 2)
        ∷ (24, 72, 2)
        ∷ (31, 72, 2)
        ∷ (41, 72, 2)
        ∷ (56, 72, 3)
        ∷ [])
    ∷ ((2, 73, 2)
        ∷ (9, 73, 2)
        ∷ (23, 73, 2)
        ∷ (40, 73, 3)
        ∷ (2, 74, 2)
        ∷ (9, 74, 2)
        ∷ (23, 74, 2)
        ∷ (40, 74, 3)
        ∷ (2, 75, 2)
        ∷ (9, 75, 2)
        ∷ (23, 75, 2)
        ∷ (40, 75, 3)
        ∷ (2, 76, 2)
        ∷ (9, 76, 2)
        ∷ (23, 76, 2)
        ∷ (40, 76, 3)
        ∷ [])
    ∷ ((3, 73, 2)
        ∷ (6, 73, 2)
        ∷ (10, 73, 2)
        ∷ (15, 73, 2)
        ∷ (24, 73, 2)
        ∷ (31, 73, 2)
        ∷ (41, 73, 2)
        ∷ (56, 73, 3)
        ∷ (3, 74, 2)
        ∷ (6, 74, 2)
        ∷ (10, 74, 2)
        ∷ (15, 74, 2)
        ∷ (24, 74, 2)
        ∷ (31, 74, 2)
        ∷ (41, 74, 2)
        ∷ (56, 74, 3)
        ∷ [])
    ∷ []
