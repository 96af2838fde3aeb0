-- ===== src/Huffman/Table/Decode072.antt =====
-- pajamax/src/huffman/table.rs, `DECODE_TABLE`: states 72 to 79, as (next, byte, flags).
use pajamax.Prelude.{ℕ, List, [], ◌∷◌}

abbrev pub states_072 : List (List (ℕ × ℕ × ℕ))
states_072 =
    ((2, 88, 2)
      ∷ (9, 88, 2)
      ∷ (23, 88, 2)
      ∷ (40, 88, 3)
      ∷ (2, 90, 2)
      ∷ (9, 90, 2)
      ∷ (23, 90, 2)
      ∷ (40, 90, 3)
      ∷ (0, 33, 2)
      ∷ (0, 34, 2)
      ∷ (0, 40, 2)
      ∷ (0, 41, 2)
      ∷ (0, 63, 2)
      ∷ (80, 0, 0)
      ∷ (82, 0, 0)
      ∷ (84, 0, 0)
      ∷ [])
    ∷ ((3, 88, 2)
        ∷ (6, 88, 2)
        ∷ (10, 88, 2)
        ∷ (15, 88, 2)
        ∷ (24, 88, 2)
        ∷ (31, 88, 2)
        ∷ (41, 88, 2)
        ∷ (56, 88, 3)
        ∷ (3, 90, 2)
        ∷ (6, 90, 2)
        ∷ (10, 90, 2)
        ∷ (15, 90, 2)
        ∷ (24, 90, 2)
        ∷ (31, 90, 2)
        ∷ (41, 90, 2)
        ∷ (56, 90, 3)
        ∷ [])
    ∷ ((1, 33, 2)
        ∷ (22, 33, 3)
        ∷ (1, 34, 2)
        ∷ (22, 34, 3)
        ∷ (1, 40, 2)
        ∷ (22, 40, 3)
        ∷ (1, 41, 2)
        ∷ (22, 41, 3)
        ∷ (1, 63, 2)
        ∷ (22, 63, 3)
        ∷ (0, 39, 2)
        ∷ (0, 43, 2)
        ∷ (0, 124, 2)
        ∷ (83, 0, 0)
        ∷ (85, 0, 0)
        ∷ (88, 0, 0)
        ∷ [])
    ∷ ((2, 33, 2)
        ∷ (9, 33, 2)
        ∷ (23, 33, 2)
        ∷ (40, 33, 3)
        ∷ (2, 34, 2)
        ∷ (9, 34, 2)
        ∷ (23, 34, 2)
        ∷ (40, 34, 3)
        ∷ (2, 40, 2)
        ∷ (9, 40, 2)
        ∷ (23, 40, 2)
        ∷ (40, 40, 3)
        ∷ (2, 41, 2)
        ∷ (9, 41, 2)
        ∷ (23, 41, 2)
        ∷ (40, 41, 3)
        ∷ [])
    ∷ ((3, 33, 2)
        ∷ (6, 33, 2)
        ∷ (10, 33, 2)
        ∷ (15, 33, 2)
        ∷ (24, 33, 2)
        ∷ (31, 33, 2)
        ∷ (41, 33, 2)
        ∷ (56, 33, 3)
        ∷ (3, 34, 2)
        ∷ (6, 34, 2)
        ∷ (10, 34, 2)
        ∷ (15, 34, 2)
        ∷ (24, 34, 2)
        ∷ (31, 34, 2)
        ∷ (41, 34, 2)
        ∷ (56, 34, 3)
        ∷ [])
    ∷ ((3, 40, 2)
        ∷ (6, 40, 2)
        ∷ (10, 40, 2)
        ∷ (15, 40, 2)
        ∷ (24, 40, 2)
        ∷ (31, 40, 2)
        ∷ (41, 40, 2)
        ∷ (56, 40, 3)
        ∷ (3, 41, 2)
        ∷ (6, 41, 2)
        ∷ (10, 41, 2)
        ∷ (15, 41, 2)
        ∷ (24, 41, 2)
        ∷ (31, 41, 2)
        ∷ (41, 41, 2)
        ∷ (56, 41, 3)
        ∷ [])
    ∷ ((2, 63, 2)
        ∷ (9, 63, 2)
        ∷ (23, 63, 2)
        ∷ (40, 63, 3)
        ∷ (1, 39, 2)
        ∷ (22, 39, 3)
        ∷ (1, 43, 2)
        ∷ (22, 43, 3)
        ∷ (1, 124, 2)
        ∷ (22, 124, 3)
        ∷ (0, 35, 2)
        ∷ (0, 62, 2)
        ∷ (86, 0, 0)
        ∷ (87, 0, 0)
        ∷ (89, 0, 0)
        ∷ (90, 0, 0)
        ∷ [])
    ∷ ((3, 63, 2)
        ∷ (6, 63, 2)
        ∷ (10, 63, 2)
        ∷ (15, 63, 2)
        ∷ (24, 63, 2)
        ∷ (31, 63, 2)
        ∷ (41, 63, 2)
        ∷ (56, 63, 3)
        ∷ (2, 39, 2)
        ∷ (9, 39, 2)
        ∷ (23, 39, 2)
        ∷ (40, 39, 3)
        ∷ (2, 43, 2)
        ∷ (9, 43, 2)
        ∷ (23, 43, 2)
        ∷ (40, 43, 3)
        ∷ [])
    ∷ []
