-- ===== src/Huffman/Table/Decode096.antt =====
-- pajamax/src/huffman/table.rs, `DECODE_TABLE`: states 96 to 103, as (next, byte, flags).
use pajamax.Prelude.{ℕ, List, [], ◌∷◌}

abbrev pub states_096 : List (List (ℕ × ℕ × ℕ))
states_096 =
    ((1, 92, 2)
      ∷ (22, 92, 3)
      ∷ (1, 195, 2)
      ∷ (22, 195, 3)
      ∷ (1, 208, 2)
      ∷ (22, 208, 3)
      ∷ (0, 128, 2)
      ∷ (0, 130, 2)
      ∷ (0, 131, 2)
      ∷ (0, 162, 2)
      ∷ (0, 184, 2)
      ∷ (0, 194, 2)
      ∷ (0, 224, 2)
      ∷ (0, 226, 2)
      ∷ (108, 0, 0)
      ∷ (109, 0, 0)
      ∷ [])
    ∷ ((2, 92, 2)
        ∷ (9, 92, 2)
        ∷ (23, 92, 2)
        ∷ (40, 92, 3)
        ∷ (2, 195, 2)
        ∷ (9, 195, 2)
        ∷ (23, 195, 2)
        ∷ (40, 195, 3)
        ∷ (2, 208, 2)
        ∷ (9, 208, 2)
        ∷ (23, 208, 2)
        ∷ (40, 208, 3)
        ∷ (1, 128, 2)
        ∷ (22, 128, 3)
        ∷ (1, 130, 2)
        ∷ (22, 130, 3)
        ∷ [])
    ∷ ((3, 92, 2)
        ∷ (6, 92, 2)
        ∷ (10, 92, 2)
        ∷ (15, 92, 2)
        ∷ (24, 92, 2)
        ∷ (31, 92, 2)
        ∷ (41, 92, 2)
        ∷ (56, 92, 3)
        ∷ (3, 195, 2)
        ∷ (6, 195, 2)
        ∷ (10, 195, 2)
        ∷ (15, 195, 2)
        ∷ (24, 195, 2)
        ∷ (31, 195, 2)
        ∷ (41, 195, 2)
        ∷ (56, 195, 3)
        ∷ [])
    ∷ ((3, 208, 2)
        ∷ (6, 208, 2)
        ∷ (10, 208, 2)
        ∷ (15, 208, 2)
        ∷ (24, 208, 2)
        ∷ (31, 208, 2)
        ∷ (41, 208, 2)
        ∷ (56, 208, 3)
        ∷ (2, 128, 2)
        ∷ (9, 128, 2)
        ∷ (23, 128, 2)
        ∷ (40, 128, 3)
        ∷ (2, 130, 2)
        ∷ (9, 130, 2)
        ∷ (23, 130, 2)
        ∷ (40, 130, 3)
        ∷ [])
    ∷ ((3, 128, 2)
        ∷ (6, 128, 2)
        ∷ (10, 128, 2)
        ∷ (15, 128, 2)
        ∷ (24, 128, 2)
        ∷ (31, 128, 2)
        ∷ (41, 128, 2)
        ∷ (56, 128, 3)
        ∷ (3, 130, 2)
        ∷ (6, 130, 2)
        ∷ (10, 130, 2)
        ∷ (15, 130, 2)
        ∷ (24, 130, 2)
        ∷ (31, 130, 2)
        ∷ (41, 130, 2)
        ∷ (56, 130, 3)
        ∷ [])
    ∷ ((1, 131, 2)
        ∷ (22, 131, 3)
        ∷ (1, 162, 2)
        ∷ (22, 162, 3)
        ∷ (1, 184, 2)
        ∷ (22, 184, 3)
        ∷ (1, 194, 2)
        ∷ (22, 194, 3)
        ∷ (1, 224, 2)
        ∷ (22, 224, 3)
        ∷ (1, 226, 2)
        ∷ (22, 226, 3)
        ∷ (0, 153, 2)
        ∷ (0, 161, 2)
        ∷ (0, 167, 2)
        ∷ (0, 172, 2)
        ∷ [])
    ∷ ((2, 131, 2)
        ∷ (9, 131, 2)
        ∷ (23, 131, 2)
        ∷ (40, 131, 3)
        ∷ (2, 162, 2)
        ∷ (9, 162, 2)
        ∷ (23, 162, 2)
        ∷ (40, 162, 3)
        ∷ (2, 184, 2)
        ∷ (9, 184, 2)
        ∷ (23, 184, 2)
        ∷ (40, 184, 3)
        ∷ (2, 194, 2)
        ∷ (9, 194, 2)
        ∷ (23, 194, 2)
        ∷ (40, 194, 3)
        ∷ [])
    ∷ ((3, 131, 2)
        ∷ (6, 131, 2)
        ∷ (10, 131, 2)
        ∷ (15, 131, 2)
        ∷ (24, 131, 2)
        ∷ (31, 131, 2)
        ∷ (41, 131, 2)
        ∷ (56, 131, 3)
        ∷ (3, 162, 2)
        ∷ (6, 162, 2)
        ∷ (10, 162, 2)
        ∷ (15, 162, 2)
        ∷ (24, 162, 2)
        ∷ (31, 162, 2)
        ∷ (41, 162, 2)
        ∷ (56, 162, 3)
        ∷ [])
    ∷ []
