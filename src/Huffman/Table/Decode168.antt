-- ===== src/Huffman/Table/Decode168.antt =====
-- pajamax/src/huffman/table.rs, `DECODE_TABLE`: states 168 to 175, as (next, byte, flags).
use pajamax.Prelude.{ℕ, List, [], ◌∷◌}

abbrev pub states_168 : List (List (ℕ × ℕ × ℕ))
states_168 =
    ((3, 182, 2)
      ∷ (6, 182, 2)
      ∷ (10, 182, 2)
      ∷ (15, 182, 2)
      ∷ (24, 182, 2)
      ∷ (31, 182, 2)
      ∷ (41, 182, 2)
      ∷ (56, 182, 3)
      ∷ (3, 183, 2)
      ∷ (6, 183, 2)
      ∷ (10, 183, 2)
      ∷ (15, 183, 2)
      ∷ (24, 183, 2)
      ∷ (31, 183, 2)
      ∷ (41, 183, 2)
      ∷ (56, 183, 3)
      ∷ [])
    ∷ ((0, 188, 2)
        ∷ (0, 191, 2)
        ∷ (0, 197, 2)
        ∷ (0, 231, 2)
        ∷ (0, 239, 2)
        ∷ (176, 0, 0)
        ∷ (178, 0, 0)
        ∷ (179, 0, 0)
        ∷ (183, 0, 0)
        ∷ (184, 0, 0)
        ∷ (186, 0, 0)
        ∷ (187, 0, 0)
        ∷ (192, 0, 0)
        ∷ (199, 0, 0)
        ∷ (208, 0, 0)
        ∷ (223, 0, 0)
        ∷ [])
    ∷ ((1, 188, 2)
        ∷ (22, 188, 3)
        ∷ (1, 191, 2)
        ∷ (22, 191, 3)
        ∷ (1, 197, 2)
        ∷ (22, 197, 3)
        ∷ (1, 231, 2)
        ∷ (22, 231, 3)
        ∷ (1, 239, 2)
        ∷ (22, 239, 3)
        ∷ (0, 9, 2)
        ∷ (0, 142, 2)
        ∷ (0, 144, 2)
        ∷ (0, 145, 2)
        ∷ (0, 148, 2)
        ∷ (0, 159, 2)
        ∷ [])
    ∷ ((2, 188, 2)
        ∷ (9, 188, 2)
        ∷ (23, 188, 2)
        ∷ (40, 188, 3)
        ∷ (2, 191, 2)
        ∷ (9, 191, 2)
        ∷ (23, 191, 2)
        ∷ (40, 191, 3)
        ∷ (2, 197, 2)
        ∷ (9, 197, 2)
        ∷ (23, 197, 2)
        ∷ (40, 197, 3)
        ∷ (2, 231, 2)
        ∷ (9, 231, 2)
        ∷ (23, 231, 2)
        ∷ (40, 231, 3)
        ∷ [])
    ∷ ((3, 188, 2)
        ∷ (6, 188, 2)
        ∷ (10, 188, 2)
        ∷ (15, 188, 2)
        ∷ (24, 188, 2)
        ∷ (31, 188, 2)
        ∷ (41, 188, 2)
        ∷ (56, 188, 3)
        ∷ (3, 191, 2)
        ∷ (6, 191, 2)
        ∷ (10, 191, 2)
        ∷ (15, 191, 2)
        ∷ (24, 191, 2)
        ∷ (31, 191, 2)
        ∷ (41, 191, 2)
        ∷ (56, 191, 3)
        ∷ [])
    ∷ ((3, 197, 2)
        ∷ (6, 197, 2)
        ∷ (10, 197, 2)
        ∷ (15, 197, 2)
        ∷ (24, 197, 2)
        ∷ (31, 197, 2)
        ∷ (41, 197, 2)
        ∷ (56, 197, 3)
        ∷ (3, 231, 2)
        ∷ (6, 231, 2)
        ∷ (10, 231, 2)
        ∷ (15, 231, 2)
        ∷ (24, 231, 2)
        ∷ (31, 231, 2)
        ∷ (41, 231, 2)
        ∷ (56, 231, 3)
        ∷ [])
    ∷ ((2, 239, 2)
        ∷ (9, 239, 2)
        ∷ (23, 239, 2)
        ∷ (40, 239, 3)
        ∷ (1, 9, 2)
        ∷ (22, 9, 3)
        ∷ (1, 142, 2)
        ∷ (22, 142, 3)
        ∷ (1, 144, 2)
        ∷ (22, 144, 3)
        ∷ (1, 145, 2)
        ∷ (22, 145, 3)
        ∷ (1, 148, 2)
        ∷ (22, 148, 3)
        ∷ (1, 159, 2)
        ∷ (22, 159, 3)
        ∷ [])
    ∷ ((3, 239, 2)
        ∷ (6, 239, 2)
        ∷ (10, 239, 2)
        ∷ (15, 239, 2)
        ∷ (24, 239, 2)
        ∷ (31, 239, 2)
        ∷ (41, 239, 2)
        ∷ (56, 239, 3)
        ∷ (2, 9, 2)
        ∷ (9, 9, 2)
        ∷ (23, 9, 2)
        ∷ (40, 9, 3)
        ∷ (2, 142, 2)
        ∷ (9, 142, 2)
        ∷ (23, 142, 2)
        ∷ (40, 142, 3)
        ∷ [])
    ∷ []
