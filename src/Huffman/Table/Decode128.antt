-- ===== src/Huffman/Table/Decode128.antt =====
-- pajamax/src/huffman/table.rs, `DECODE_TABLE`: states 128 to 135, as (next, byte, flags).
use pajamax.Prelude.{ℕ, List, [], ◌∷◌}

abbrev pub states_128 : List (List (ℕ × ℕ × ℕ))
states_128 =
    ((3, 154, 2)
      ∷ (6, 154, 2)
      ∷ (10, 154, 2)
      ∷ (15, 154, 2)
      ∷ (24, 154, 2)
      ∷ (31, 154, 2)
      ∷ (41, 154, 2)
      ∷ (56, 154, 3)
      ∷ (3, 156, 2)
      ∷ (6, 156, 2)
      ∷ (10, 156, 2)
      ∷ (15, 156, 2)
      ∷ (24, 156, 2)
      ∷ (31, 156, 2)
      ∷ (41, 156, 2)
      ∷ (56, 156, 3)
      ∷ [])
    ∷ ((3, 160, 2)
        ∷ (6, 160, 2)
        ∷ (10, 160, 2)
        ∷ (15, 160, 2)
        ∷ (24, 160, 2)
        ∷ (31, 160, 2)
        ∷ (41, 160, 2)
        ∷ (56, 160, 3)
        ∷ (3, 163, 2)
        ∷ (6, 163, 2)
        ∷ (10, 163, 2)
        ∷ (15, 163, 2)
        ∷ (24, 163, 2)
        ∷ (31, 163, 2)
        ∷ (41, 163, 2)
        ∷ (56, 163, 3)
        ∷ [])
    ∷ ((2, 164, 2)
        ∷ (9, 164, 2)
        ∷ (23, 164, 2)
        ∷ (40, 164, 3)
        ∷ (2, 169, 2)
        ∷ (9, 169, 2)
        ∷ (23, 169, 2)
        ∷ (40, 169, 3)
        ∷ (2, 170, 2)
        ∷ (9, 170, 2)
        ∷ (23, 170, 2)
        ∷ (40, 170, 3)
        ∷ (2, 173, 2)
        ∷ (9, 173, 2)
        ∷ (23, 173, 2)
        ∷ (40, 173, 3)
        ∷ [])
    ∷ ((3, 164, 2)
        ∷ (6, 164, 2)
        ∷ (10, 164, 2)
        ∷ (15, 164, 2)
        ∷ (24, 164, 2)
        ∷ (31, 164, 2)
        ∷ (41, 164, 2)
        ∷ (56, 164, 3)
        ∷ (3, 169, 2)
        ∷ (6, 169, 2)
        ∷ (10, 169, 2)
        ∷ (15, 169, 2)
        ∷ (24, 169, 2)
        ∷ (31, 169, 2)
        ∷ (41, 169, 2)
        ∷ (56, 169, 3)
        ∷ [])
    ∷ ((3, 170, 2)
        ∷ (6, 170, 2)
        ∷ (10, 170, 2)
        ∷ (15, 170, 2)
        ∷ (24, 170, 2)
        ∷ (31, 170, 2)
        ∷ (41, 170, 2)
        ∷ (56, 170, 3)
        ∷ (3, 173, 2)
        ∷ (6, 173, 2)
        ∷ (10, 173, 2)
        ∷ (15, 173, 2)
        ∷ (24, 173, 2)
        ∷ (31, 173, 2)
        ∷ (41, 173, 2)
        ∷ (56, 173, 3)
        ∷ [])
    ∷ ((137, 0, 0)
        ∷ (138, 0, 0)
        ∷ (140, 0, 0)
        ∷ (141, 0, 0)
        ∷ (144, 0, 0)
        ∷ (145, 0, 0)
        ∷ (147, 0, 0)
        ∷ (150, 0, 0)
        ∷ (156, 0, 0)
        ∷ (159, 0, 0)
        ∷ (163, 0, 0)
        ∷ (166, 0, 0)
        ∷ (171, 0, 0)
        ∷ (174, 0, 0)
        ∷ (181, 0, 0)
        ∷ (190, 0, 0)
        ∷ [])
    ∷ ((0, 178, 2)
        ∷ (0, 181, 2)
        ∷ (0, 185, 2)
        ∷ (0, 186, 2)
        ∷ (0, 187, 2)
        ∷ (0, 189, 2)
        ∷ (0, 190, 2)
        ∷ (0, 196, 2)
        ∷ (0, 198, 2)
        ∷ (0, 228, 2)
        ∷ (0, 232, 2)
        ∷ (0, 233, 2)
        ∷ (148, 0, 0)
        ∷ (149, 0, 0)
        ∷ (151, 0, 0)
        ∷ (152, 0, 0)
        ∷ [])
    ∷ ((1, 178, 2)
        ∷ (22, 178, 3)
        ∷ (1, 181, 2)
        ∷ (22, 181, 3)
        ∷ (1, 185, 2)
        ∷ (22, 185, 3)
        ∷ (1, 186, 2)
        ∷ (22, 186, 3)
        ∷ (1, 187, 2)
        ∷ (22, 187, 3)
        ∷ (1, 189, 2)
        ∷ (22, 189, 3)
        ∷ (1, 190, 2)
        ∷ (22, 190, 3)
        ∷ (1, 196, 2)
        ∷ (22, 196, 3)
        ∷ [])
    ∷ []
