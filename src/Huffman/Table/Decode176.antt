-- ===== src/Huffman/Table/Decode176.antt =====
-- pajamax/src/huffman/table.rs, `DECODE_TABLE`: states 176 to 183, as (next, byte, flags).
use pajamax.Prelude.{ℕ, List, [], ◌∷◌}

abbrev pub states_176 : List (List (ℕ × ℕ × ℕ))
states_176 =
    ((3, 9, 2)
      ∷ (6, 9, 2)
      ∷ (10, 9, 2)
      ∷ (15, 9, 2)
      ∷ (24, 9, 2)
      ∷ (31, 9, 2)
      ∷ (41, 9, 2)
      ∷ (56, 9, 3)
      ∷ (3, 142, 2)
      ∷ (6, 142, 2)
      ∷ (10, 142, 2)
      ∷ (15, 142, 2)
      ∷ (24, 142, 2)
      ∷ (31, 142, 2)
      ∷ (41, 142, 2)
      ∷ (56, 142, 3)
      ∷ [])
    ∷ ((2, 144, 2)
        ∷ (9, 144, 2)
        ∷ (23, 144, 2)
        ∷ (40, 144, 3)
        ∷ (2, 145, 2)
        ∷ (9, 145, 2)
        ∷ (23, 145, 2)
        ∷ (40, 145, 3)
        ∷ (2, 148, 2)
        ∷ (9, 148, 2)
        ∷ (23, 148, 2)
        ∷ (40, 148, 3)
        ∷ (2, 159, 2)
        ∷ (9, 159, 2)
        ∷ (23, 159, 2)
        ∷ (40, 159, 3)
        ∷ [])
    ∷ ((3, 144, 2)
        ∷ (6, 144, 2)
        ∷ (10, 144, 2)
        ∷ (15, 144, 2)
        ∷ (24, 144, 2)
        ∷ (31, 144, 2)
        ∷ (41, 144, 2)
        ∷ (56, 144, 3)
        ∷ (3, 145, 2)
        ∷ (6, 145, 2)
        ∷ (10, 145, 2)
        ∷ (15, 145, 2)
        ∷ (24, 145, 2)
        ∷ (31, 145, 2)
        ∷ (41, 145, 2)
        ∷ (56, 145, 3)
        ∷ [])
    ∷ ((3, 148, 2)
        ∷ (6, 148, 2)
        ∷ (10, 148, 2)
        ∷ (15, 148, 2)
        ∷ (24, 148, 2)
        ∷ (31, 148, 2)
        ∷ (41, 148, 2)
        ∷ (56, 148, 3)
        ∷ (3, 159, 2)
        ∷ (6, 159, 2)
        ∷ (10, 159, 2)
        ∷ (15, 159, 2)
        ∷ (24, 159, 2)
        ∷ (31, 159, 2)
        ∷ (41, 159, 2)
        ∷ (56, 159, 3)
        ∷ [])
    ∷ ((0, 171, 2)
        ∷ (0, 206, 2)
        ∷ (0, 215, 2)
        ∷ (0, 225, 2)
        ∷ (0, 236, 2)
        ∷ (0, 237, 2)
        ∷ (188, 0, 0)
        ∷ (189, 0, 0)
        ∷ (193, 0, 0)
        ∷ (196, 0, 0)
        ∷ (200, 0, 0)
        ∷ (203, 0, 0)
        ∷ (209, 0, 0)
        ∷ (216, 0, 0)
        ∷ (224, 0, 0)
        ∷ (238, 0, 0)
        ∷ [])
    ∷ ((1, 171, 2)
        ∷ (22, 171, 3)
        ∷ (1, 206, 2)
        ∷ (22, 206, 3)
        ∷ (1, 215, 2)
        ∷ (22, 215, 3)
        ∷ (1, 225, 2)
        ∷ (22, 225, 3)
        ∷ (1, 236, 2)
        ∷ (22, 236, 3)
        ∷ (1, 237, 2)
        ∷ (22, 237, 3)
        ∷ (0, 199, 2)
        ∷ (0, 207, 2)
        ∷ (0, 234, 2)
        ∷ (0, 235, 2)
        ∷ [])
    ∷ ((2, 171, 2)
        ∷ (9, 171, 2)
        ∷ (23, 171, 2)
        ∷ (40, 171, 3)
        ∷ (2, 206, 2)
        ∷ (9, 206, 2)
        ∷ (23, 206, 2)
        ∷ (40, 206, 3)
        ∷ (2, 215, 2)
        ∷ (9, 215, 2)
        ∷ (23, 215, 2)
        ∷ (40, 215, 3)
        ∷ (2, 225, 2)
        ∷ (9, 225, 2)
        ∷ (23, 225, 2)
        ∷ (40, 225, 3)
        ∷ [])
    ∷ ((3, 171, 2)
        ∷ (6, 171, 2)
        ∷ (10, 171, 2)
        ∷ (15, 171, 2)
        ∷ (24, 171, 2)
        ∷ (31, 171, 2)
        ∷ (41, 171, 2)
        ∷ (56, 171, 3)
        ∷ (3, 206, 2)
        ∷ (6, 206, 2)
        ∷ (10, 206, 2)
        ∷ (15, 206, 2)
        ∷ (24, 206, 2)
        ∷ (31, 206, 2)
        ∷ (41, 206, 2)
        ∷ (56, 206, 3)
        ∷ [])
    ∷ []
