-- ===== src/Huffman/Table/Decode152.antt =====
-- pajamax/src/huffman/table.rs, `DECODE_TABLE`: states 152 to 159, as (next, byte, flags).
use pajamax.Prelude.{ℕ, List, [], ◌∷◌}

abbrev pub states_152 : List (List (ℕ × ℕ × ℕ))
states_152 =
    ((3, 141, 2)
      ∷ (6, 141, 2)
      ∷ (10, 141, 2)
      ∷ (15, 141, 2)
      ∷ (24, 141, 2)
      ∷ (31, 141, 2)
      ∷ (41, 141, 2)
      ∷ (56, 141, 3)
      ∷ (3, 143, 2)
      ∷ (6, 143, 2)
      ∷ (10, 143, 2)
      ∷ (15, 143, 2)
      ∷ (24, 143, 2)
      ∷ (31, 143, 2)
      ∷ (41, 143, 2)
      ∷ (56, 143, 3)
      ∷ [])
    ∷ ((157, 0, 0)
        ∷ (158, 0, 0)
        ∷ (160, 0, 0)
        ∷ (161, 0, 0)
        ∷ (164, 0, 0)
        ∷ (165, 0, 0)
        ∷ (167, 0, 0)
        ∷ (168, 0, 0)
        ∷ (172, 0, 0)
        ∷ (173, 0, 0)
        ∷ (175, 0, 0)
        ∷ (177, 0, 0)
        ∷ (182, 0, 0)
        ∷ (185, 0, 0)
        ∷ (191, 0, 0)
        ∷ (207, 0, 0)
        ∷ [])
    ∷ ((0, 147, 2)
        ∷ (0, 149, 2)
        ∷ (0, 150, 2)
        ∷ (0, 151, 2)
        ∷ (0, 152, 2)
        ∷ (0, 155, 2)
        ∷ (0, 157, 2)
        ∷ (0, 158, 2)
        ∷ (0, 165, 2)
        ∷ (0, 166, 2)
        ∷ (0, 168, 2)
        ∷ (0, 174, 2)
        ∷ (0, 175, 2)
        ∷ (0, 180, 2)
        ∷ (0, 182, 2)
        ∷ (0, 183, 2)
        ∷ [])
    ∷ ((1, 147, 2)
        ∷ (22, 147, 3)
        ∷ (1, 149, 2)
        ∷ (22, 149, 3)
        ∷ (1, 150, 2)
        ∷ (22, 150, 3)
        ∷ (1, 151, 2)
        ∷ (22, 151, 3)
        ∷ (1, 152, 2)
        ∷ (22, 152, 3)
        ∷ (1, 155, 2)
        ∷ (22, 155, 3)
        ∷ (1, 157, 2)
        ∷ (22, 157, 3)
        ∷ (1, 158, 2)
        ∷ (22, 158, 3)
        ∷ [])
    ∷ ((2, 147, 2)
        ∷ (9, 147, 2)
        ∷ (23, 147, 2)
        ∷ (40, 147, 3)
        ∷ (2, 149, 2)
        ∷ (9, 149, 2)
        ∷ (23, 149, 2)
        ∷ (40, 149, 3)
        ∷ (2, 150, 2)
        ∷ (9, 150, 2)
        ∷ (23, 150, 2)
        ∷ (40, 150, 3)
        ∷ (2, 151, 2)
        ∷ (9, 151, 2)
        ∷ (23, 151, 2)
        ∷ (40, 151, 3)
        ∷ [])
    ∷ ((3, 147, 2)
        ∷ (6, 147, 2)
        ∷ (10, 147, 2)
        ∷ (15, 147, 2)
        ∷ (24, 147, 2)
        ∷ (31, 147, 2)
        ∷ (41, 147, 2)
        ∷ (56, 147, 3)
        ∷ (3, 149, 2)
        ∷ (6, 149, 2)
        ∷ (10, 149, 2)
        ∷ (15, 149, 2)
        ∷ (24, 149, 2)
        ∷ (31, 149, 2)
        ∷ (41, 149, 2)
        ∷ (56, 149, 3)
        ∷ [])
    ∷ ((3, 150, 2)
        ∷ (6, 150, 2)
        ∷ (10, 150, 2)
        ∷ (15, 150, 2)
        ∷ (24, 150, 2)
        ∷ (31, 150, 2)
        ∷ (41, 150, 2)
        ∷ (56, 150, 3)
        ∷ (3, 151, 2)
        ∷ (6, 151, 2)
        ∷ (10, 151, 2)
        ∷ (15, 151, 2)
        ∷ (24, 151, 2)
        ∷ (31, 151, 2)
        ∷ (41, 151, 2)
        ∷ (56, 151, 3)
        ∷ [])
    ∷ ((2, 152, 2)
        ∷ (9, 152, 2)
        ∷ (23, 152, 2)
        ∷ (40, 152, 3)
        ∷ (2, 155, 2)
        ∷ (9, 155, 2)
        ∷ (23, 155, 2)
        ∷ (40, 155, 3)
        ∷ (2, 157, 2)
        ∷ (9, 157, 2)
        ∷ (23, 157, 2)
        ∷ (40, 157, 3)
        ∷ (2, 158, 2)
        ∷ (9, 158, 2)
        ∷ (23, 158, 2)
        ∷ (40, 158, 3)
        ∷ [])
    ∷ []
