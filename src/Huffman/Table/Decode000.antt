-- ===== src/Huffman/Table/Decode000.antt =====
-- pajamax/src/huffman/table.rs, `DECODE_TABLE`: states 0 to 7, as (next, byte, flags).
use pajamax.Prelude.{ℕ, List, [], ◌∷◌}

abbrev pub states_000 : List (List (ℕ × ℕ × ℕ))
states_000 =
    ((4, 0, 0)
      ∷ (5, 0, 0)
      ∷ (7, 0, 0)
      ∷ (8, 0, 0)
      ∷ (11, 0, 0)
      ∷ (12, 0, 0)
      ∷ (16, 0, 0)
      ∷ (19, 0, 0)
      ∷ (25, 0, 0)
      ∷ (28, 0, 0)
      ∷ (32, 0, 0)
      ∷ (35, 0, 0)
      ∷ (42, 0, 0)
      ∷ (49, 0, 0)
      ∷ (57, 0, 0)
      ∷ (64, 0, 1)
      ∷ [])
    ∷ ((0, 48, 2)
        ∷ (0, 49, 2)
        ∷ (0, 50, 2)
        ∷ (0, 97, 2)
        ∷ (0, 99, 2)
        ∷ (0, 101, 2)
        ∷ (0, 105, 2)
        ∷ (0, 111, 2)
        ∷ (0, 115, 2)
        ∷ (0, 116, 2)
        ∷ (13, 0, 0)
        ∷ (14, 0, 0)
        ∷ (17, 0, 0)
        ∷ (18, 0, 0)
        ∷ (20, 0, 0)
        ∷ (21, 0, 0)
        ∷ [])
    ∷ ((1, 48, 2)
        ∷ (22, 48, 3)
        ∷ (1, 49, 2)
        ∷ (22, 49, 3)
        ∷ (1, 50, 2)
        ∷ (22, 50, 3)
        ∷ (1, 97, 2)
        ∷ (22, 97, 3)
        ∷ (1, 99, 2)
        ∷ (22, 99, 3)
        ∷ (1, 101, 2)
        ∷ (22, 101, 3)
        ∷ (1, 105, 2)
        ∷ (22, 105, 3)
        ∷ (1, 111, 2)
        ∷ (22, 111, 3)
        ∷ [])
    ∷ ((2, 48, 2)
        ∷ (9, 48, 2)
        ∷ (23, 48, 2)
        ∷ (40, 48, 3)
        ∷ (2, 49, 2)
        ∷ (9, 49, 2)
        ∷ (23, 49, 2)
        ∷ (40, 49, 3)
        ∷ (2, 50, 2)
        ∷ (9, 50, 2)
        ∷ (23, 50, 2)
        ∷ (40, 50, 3)
        ∷ (2, 97, 2)
        ∷ (9, 97, 2)
        ∷ (23, 97, 2)
        ∷ (40, 97, 3)
        ∷ [])
    ∷ ((3, 48, 2)
        ∷ (6, 48, 2)
        ∷ (10, 48, 2)
        ∷ (15, 48, 2)
        ∷ (24, 48, 2)
        ∷ (31, 48, 2)
        ∷ (41, 48, 2)
        ∷ (56, 48, 3)
        ∷ (3, 49, 2)
        ∷ (6, 49, 2)
        ∷ (10, 49, 2)
        ∷ (15, 49, 2)
        ∷ (24, 49, 2)
        ∷ (31, 49, 2)
        ∷ (41, 49, 2)
        ∷ (56, 49, 3)
        ∷ [])
    ∷ ((3, 50, 2)
        ∷ (6, 50, 2)
        ∷ (10, 50, 2)
        ∷ (15, 50, 2)
        ∷ (24, 50, 2)
        ∷ (31, 50, 2)
        ∷ (41, 50, 2)
        ∷ (56, 50, 3)
        ∷ (3, 97, 2)
        ∷ (6, 97, 2)
        ∷ (10, 97, 2)
        ∷ (15, 97, 2)
        ∷ (24, 97, 2)
        ∷ (31, 97, 2)
        ∷ (41, 97, 2)
        ∷ (56, 97, 3)
        ∷ [])
    ∷ ((2, 99, 2)
        ∷ (9, 99, 2)
        ∷ (23, 99, 2)
        ∷ (40, 99, 3)
        ∷ (2, 101, 2)
        ∷ (9, 101, 2)
        ∷ (23, 101, 2)
        ∷ (40, 101, 3)
        ∷ (2, 105, 2)
        ∷ (9, 105, 2)
        ∷ (23, 105, 2)
        ∷ (40, 105, 3)
        ∷ (2, 111, 2)
        ∷ (9, 111, 2)
        ∷ (23, 111, 2)
        ∷ (40, 111, 3)
        ∷ [])
    ∷ ((3, 99, 2)
        ∷ (6, 99, 2)
        ∷ (10, 99, 2)
        ∷ (15, 99, 2)
        ∷ (24, 99, 2)
        ∷ (31, 99, 2)
        ∷ (41, 99, 2)
        ∷ (56, 99, 3)
        ∷ (3, 101, 2)
        ∷ (6, 101, 2)
        ∷ (10, 101, 2)
        ∷ (15, 101, 2)
        ∷ (24, 101, 2)
        ∷ (31, 101, 2)
        ∷ (41, 101, 2)
        ∷ (56, 101, 3)
        ∷ [])
    ∷ []
