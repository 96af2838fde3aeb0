-- ===== src/Huffman/Table/Decode016.antt =====
-- pajamax/src/huffman/table.rs, `DECODE_TABLE`: states 16 to 23, as (next, byte, flags).
use pajamax.Prelude.{ℕ, List, [], ◌∷◌}

abbrev pub states_016 : List (List (ℕ × ℕ × ℕ))
states_016 =
    ((2, 47, 2)
      ∷ (9, 47, 2)
      ∷ (23, 47, 2)
      ∷ (40, 47, 3)
      ∷ (2, 51, 2)
      ∷ (9, 51, 2)
      ∷ (23, 51, 2)
      ∷ (40, 51, 3)
      ∷ (2, 52, 2)
      ∷ (9, 52, 2)
      ∷ (23, 52, 2)
      ∷ (40, 52, 3)
      ∷ (2, 53, 2)
      ∷ (9, 53, 2)
      ∷ (23, 53, 2)
      ∷ (40, 53, 3)
      ∷ [])
    ∷ ((3, 47, 2)
        ∷ (6, 47, 2)
        ∷ (10, 47, 2)
        ∷ (15, 47, 2)
        ∷ (24, 47, 2)
        ∷ (31, 47, 2)
        ∷ (41, 47, 2)
        ∷ (56, 47, 3)
        ∷ (3, 51, 2)
        ∷ (6, 51, 2)
        ∷ (10, 51, 2)
        ∷ (15, 51, 2)
        ∷ (24, 51, 2)
        ∷ (31, 51, 2)
        ∷ (41, 51, 2)
        ∷ (56, 51, 3)
        ∷ [])
    ∷ ((3, 52, 2)
        ∷ (6, 52, 2)
        ∷ (10, 52, 2)
        ∷ (15, 52, 2)
        ∷ (24, 52, 2)
        ∷ (31, 52, 2)
        ∷ (41, 52, 2)
        ∷ (56, 52, 3)
        ∷ (3, 53, 2)
        ∷ (6, 53, 2)
        ∷ (10, 53, 2)
        ∷ (15, 53, 2)
        ∷ (24, 53, 2)
        ∷ (31, 53, 2)
        ∷ (41, 53, 2)
        ∷ (56, 53, 3)
        ∷ [])
    ∷ ((2, 54, 2)
        ∷ (9, 54, 2)
        ∷ (23, 54, 2)
        ∷ (40, 54, 3)
        ∷ (2, 55, 2)
        ∷ (9, 55, 2)
        ∷ (23, 55, 2)
        ∷ (40, 55, 3)
        ∷ (2, 56, 2)
        ∷ (9, 56, 2)
        ∷ (23, 56, 2)
        ∷ (40, 56, 3)
        ∷ (2, 57, 2)
        ∷ (9, 57, 2)
        ∷ (23, 57, 2)
        ∷ (40, 57, 3)
        ∷ [])
    ∷ ((3, 54, 2)
        ∷ (6, 54, 2)
        ∷ (10, 54, 2)
        ∷ (15, 54, 2)
        ∷ (24, 54, 2)
        ∷ (31, 54, 2)
        ∷ (41, 54, 2)
        ∷ (56, 54, 3)
        ∷ (3, 55, 2)
        ∷ (6, 55, 2)
        ∷ (10, 55, 2)
        ∷ (15, 55, 2)
        ∷ (24, 55, 2)
        ∷ (31, 55, 2)
        ∷ (41, 55, 2)
        ∷ (56, 55, 3)
        ∷ [])
    ∷ ((3, 56, 2)
        ∷ (6, 56, 2)
        ∷ (10, 56, 2)
        ∷ (15, 56, 2)
        ∷ (24, 56, 2)
        ∷ (31, 56, 2)
        ∷ (41, 56, 2)
        ∷ (56, 56, 3)
        ∷ (3, 57, 2)
        ∷ (6, 57, 2)
        ∷ (10, 57, 2)
        ∷ (15, 57, 2)
        ∷ (24, 57, 2)
        ∷ (31, 57, 2)
        ∷ (41, 57, 2)
        ∷ (56, 57, 3)
        ∷ [])
    ∷ ((26, 0, 0)
        ∷ (27, 0, 0)
        ∷ (29, 0, 0)
        ∷ (30, 0, 0)
        ∷ (33, 0, 0)
        ∷ (34, 0, 0)
        ∷ (36, 0, 0)
        ∷ (37, 0, 0)
        ∷ (43, 0, 0)
        ∷ (46, 0, 0)
        ∷ (50, 0, 0)
        ∷ (53, 0, 0)
        ∷ (58, 0, 0)
        ∷ (61, 0, 0)
        ∷ (65, 0, 0)
        ∷ (68, 0, 1)
        ∷ [])
    ∷ ((0, 61, 2)
        ∷ (0, 65, 2)
        ∷ (0, 95, 2)
        ∷ (0, 98, 2)
        ∷ (0, 100, 2)
        ∷ (0, 102, 2)
        ∷ (0, 103, 2)
        ∷ (0, 104, 2)
        ∷ (0, 108, 2)
        ∷ (0, 109, 2)
        ∷ (0, 110, 2)
        ∷ (0, 112, 2)
        ∷ (0, 114, 2)
        ∷ (0, 117, 2)
        ∷ (38, 0, 0)
        ∷ (39, 0, 0)
        ∷ [])
    ∷ []
