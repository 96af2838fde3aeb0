-- ===== src/Huffman/Table/Decode184.antt =====
-- pajamax/src/huffman/table.rs, `DECODE_TABLE`: states 184 to 191, as (next, byte, flags).
use pajamax.Prelude.{ℕ, List, [], ◌∷◌}

abbrev pub states_184 : List (List (ℕ × ℕ × ℕ))
states_184 =
    ((3, 215, 2)
      ∷ (6, 215, 2)
      ∷ (10, 215, 2)
      ∷ (15, 215, 2)
      ∷ (24, 215, 2)
      ∷ (31, 215, 2)
      ∷ (41, 215, 2)
      ∷ (56, 215, 3)
      ∷ (3, 225, 2)
      ∷ (6, 225, 2)
      ∷ (10, 225, 2)
      ∷ (15, 225, 2)
      ∷ (24, 225, 2)
      ∷ (31, 225, 2)
      ∷ (41, 225, 2)
      ∷ (56, 225, 3)
      ∷ [])
    ∷ ((2, 236, 2)
        ∷ (9, 236, 2)
        ∷ (23, 236, 2)
        ∷ (40, 236, 3)
        ∷ (2, 237, 2)
        ∷ (9, 237, 2)
        ∷ (23, 237, 2)
        ∷ (40, 237, 3)
        ∷ (1, 199, 2)
        ∷ (22, 199, 3)
        ∷ (1, 207, 2)
        ∷ (22, 207, 3)
        ∷ (1, 234, 2)
        ∷ (22, 234, 3)
        ∷ (1, 235, 2)
        ∷ (22, 235, 3)
        ∷ [])
    ∷ ((3, 236, 2)
        ∷ (6, 236, 2)
        ∷ (10, 236, 2)
        ∷ (15, 236, 2)
        ∷ (24, 236, 2)
        ∷ (31, 236, 2)
        ∷ (41, 236, 2)
        ∷ (56, 236, 3)
        ∷ (3, 237, 2)
        ∷ (6, 237, 2)
        ∷ (10, 237, 2)
        ∷ (15, 237, 2)
        ∷ (24, 237, 2)
        ∷ (31, 237, 2)
        ∷ (41, 237, 2)
        ∷ (56, 237, 3)
        ∷ [])
    ∷ ((2, 199, 2)
        ∷ (9, 199, 2)
        ∷ (23, 199, 2)
        ∷ (40, 199, 3)
        ∷ (2, 207, 2)
        ∷ (9, 207, 2)
        ∷ (23, 207, 2)
        ∷ (40, 207, 3)
        ∷ (2, 234, 2)
        ∷ (9, 234, 2)
        ∷ (23, 234, 2)
        ∷ (40, 234, 3)
        ∷ (2, 235, 2)
        ∷ (9, 235, 2)
        ∷ (23, 235, 2)
        ∷ (40, 235, 3)
        ∷ [])
    ∷ ((3, 199, 2)
        ∷ (6, 199, 2)
        ∷ (10, 199, 2)
        ∷ (15, 199, 2)
        ∷ (24, 199, 2)
        ∷ (31, 199, 2)
        ∷ (41, 199, 2)
        ∷ (56, 199, 3)
        ∷ (3, 207, 2)
        ∷ (6, 207, 2)
        ∷ (10, 207, 2)
        ∷ (15, 207, 2)
        ∷ (24, 207, 2)
        ∷ (31, 207, 2)
        ∷ (41, 207, 2)
        ∷ (56, 207, 3)
        ∷ [])
    ∷ ((3, 234, 2)
        ∷ (6, 234, 2)
        ∷ (10, 234, 2)
        ∷ (15, 234, 2)
        ∷ (24, 234, 2)
        ∷ (31, 234, 2)
        ∷ (41, 234, 2)
        ∷ (56, 234, 3)
        ∷ (3, 235, 2)
        ∷ (6, 235, 2)
        ∷ (10, 235, 2)
        ∷ (15, 235, 2)
        ∷ (24, 235, 2)
        ∷ (31, 235, 2)
        ∷ (41, 235, 2)
        ∷ (56, 235, 3)
        ∷ [])
    ∷ ((194, 0, 0)
        ∷ (195, 0, 0)
        ∷ (197, 0, 0)
        ∷ (198, 0, 0)
        ∷ (201, 0, 0)
        ∷ (202, 0, 0)
        ∷ (204, 0, 0)
        ∷ (205, 0, 0)
        ∷ (210, 0, 0)
        ∷ (213, 0, 0)
        ∷ (217, 0, 0)
        ∷ (220, 0, 0)
        ∷ (225, 0, 0)
        ∷ (231, 0, 0)
        ∷ (239, 0, 0)
        ∷ (246, 0, 0)
        ∷ [])
    ∷ ((0, 192, 2)
        ∷ (0, 193, 2)
        ∷ (0, 200, 2)
        ∷ (0, 201, 2)
        ∷ (0, 202, 2)
        ∷ (0, 205, 2)
        ∷ (0, 210, 2)
        ∷ (0, 213, 2)
        ∷ (0, 218, 2)
        ∷ (0, 219, 2)
        ∷ (0, 238, 2)
        ∷ (0, 240, 2)
        ∷ (0, 242, 2)
        ∷ (0, 243, 2)
        ∷ (0, 255, 2)
        ∷ (206, 0, 0)
        ∷ [])
    ∷ []
