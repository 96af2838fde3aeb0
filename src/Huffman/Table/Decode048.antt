-- ===== src/Huffman/Table/Decode048.antt =====
-- pajamax/src/huffman/table.rs, `DECODE_TABLE`: states 48 to 55, as (next, byte, flags).
use pajamax.Prelude.{ℕ, List, [], ◌∷◌}

abbrev pub states_048 : List (List (ℕ × ℕ × ℕ))
states_048 =
    ((3, 75, 2)
      ∷ (6, 75, 2)
      ∷ (10, 75, 2)
      ∷ (15, 75, 2)
      ∷ (24, 75, 2)
      ∷ (31, 75, 2)
      ∷ (41, 75, 2)
      ∷ (56, 75, 3)
      ∷ (3, 76, 2)
      ∷ (6, 76, 2)
      ∷ (10, 76, 2)
      ∷ (15, 76, 2)
      ∷ (24, 76, 2)
      ∷ (31, 76, 2)
      ∷ (41, 76, 2)
      ∷ (56, 76, 3)
      ∷ [])
    ∷ ((1, 77, 2)
        ∷ (22, 77, 3)
        ∷ (1, 78, 2)
        ∷ (22, 78, 3)
        ∷ (1, 79, 2)
        ∷ (22, 79, 3)
        ∷ (1, 80, 2)
        ∷ (22, 80, 3)
        ∷ (1, 81, 2)
        ∷ (22, 81, 3)
        ∷ (1, 82, 2)
        ∷ (22, 82, 3)
        ∷ (1, 83, 2)
        ∷ (22, 83, 3)
        ∷ (1, 84, 2)
        ∷ (22, 84, 3)
        ∷ [])
    ∷ ((2, 77, 2)
        ∷ (9, 77, 2)
        ∷ (23, 77, 2)
        ∷ (40, 77, 3)
        ∷ (2, 78, 2)
        ∷ (9, 78, 2)
        ∷ (23, 78, 2)
        ∷ (40, 78, 3)
        ∷ (2, 79, 2)
        ∷ (9, 79, 2)
        ∷ (23, 79, 2)
        ∷ (40, 79, 3)
        ∷ (2, 80, 2)
        ∷ (9, 80, 2)
        ∷ (23, 80, 2)
        ∷ (40, 80, 3)
        ∷ [])
    ∷ ((3, 77, 2)
        ∷ (6, 77, 2)
        ∷ (10, 77, 2)
        ∷ (15, 77, 2)
        ∷ (24, 77, 2)
        ∷ (31, 77, 2)
        ∷ (41, 77, 2)
        ∷ (56, 77, 3)
        ∷ (3, 78, 2)
        ∷ (6, 78, 2)
        ∷ (10, 78, 2)
        ∷ (15, 78, 2)
        ∷ (24, 78, 2)
        ∷ (31, 78, 2)
        ∷ (41, 78, 2)
        ∷ (56, 78, 3)
        ∷ [])
    ∷ ((3, 79, 2)
        ∷ (6, 79, 2)
        ∷ (10, 79, 2)
        ∷ (15, 79, 2)
        ∷ (24, 79, 2)
        ∷ (31, 79, 2)
        ∷ (41, 79, 2)
        ∷ (56, 79, 3)
        ∷ (3, 80, 2)
        ∷ (6, 80, 2)
        ∷ (10, 80, 2)
        ∷ (15, 80, 2)
        ∷ (24, 80, 2)
        ∷ (31, 80, 2)
        ∷ (41, 80, 2)
        ∷ (56, 80, 3)
        ∷ [])
    ∷ ((2, 81, 2)
        ∷ (9, 81, 2)
        ∷ (23, 81, 2)
        ∷ (40, 81, 3)
        ∷ (2, 82, 2)
        ∷ (9, 82, 2)
        ∷ (23, 82, 2)
        ∷ (40, 82, 3)
        ∷ (2, 83, 2)
        ∷ (9, 83, 2)
        ∷ (23, 83, 2)
        ∷ (40, 83, 3)
        ∷ (2, 84, 2)
        ∷ (9, 84, 2)
        ∷ (23, 84, 2)
        ∷ (40, 84, 3)
        ∷ [])
    ∷ ((3, 81, 2)
        ∷ (6, 81, 2)
        ∷ (10, 81, 2)
        ∷ (15, 81, 2)
        ∷ (24, 81, 2)
        ∷ (31, 81, 2)
        ∷ (41, 81, 2)
        ∷ (56, 81, 3)
        ∷ (3, 82, 2)
        ∷ (6, 82, 2)
        ∷ (10, 82, 2)
        ∷ (15, 82, 2)
        ∷ (24, 82, 2)
        ∷ (31, 82, 2)
        ∷ (41, 82, 2)
        ∷ (56, 82, 3)
        ∷ [])
    ∷ ((3, 83, 2)
        ∷ (6, 83, 2)
        ∷ (10, 83, 2)
        ∷ (15, 83, 2)
        ∷ (24, 83, 2)
        ∷ (31, 83, 2)
        ∷ (41, 83, 2)
        ∷ (56, 83, 3)
        ∷ (3, 84, 2)
        ∷ (6, 84, 2)
        ∷ (10, 84, 2)
        ∷ (15, 84, 2)
        ∷ (24, 84, 2)
        ∷ (31, 84, 2)
        ∷ (41, 84, 2)
        ∷ (56, 84, 3)
        ∷ [])
    ∷ []
