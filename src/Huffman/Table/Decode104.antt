-- ===== src/Huffman/Table/Decode104.antt =====
-- pajamax/src/huffman/table.rs, `DECODE_TABLE`: states 104 to 111, as (next, byte, flags).
use pajamax.Prelude.{ℕ, List, [], ◌∷◌}

abbrev pub states_104 : List (List (ℕ × ℕ × ℕ))
states_104 =
    ((3, 184, 2)
      ∷ (6, 184, 2)
      ∷ (10, 184, 2)
      ∷ (15, 184, 2)
      ∷ (24, 184, 2)
      ∷ (31, 184, 2)
      ∷ (41, 184, 2)
      ∷ (56, 184, 3)
      ∷ (3, 194, 2)
      ∷ (6, 194, 2)
      ∷ (10, 194, 2)
      ∷ (15, 194, 2)
      ∷ (24, 194, 2)
      ∷ (31, 194, 2)
      ∷ (41, 194, 2)
      ∷ (56, 194, 3)
      ∷ [])
    ∷ ((2, 224, 2)
        ∷ (9, 224, 2)
        ∷ (23, 224, 2)
        ∷ (40, 224, 3)
        ∷ (2, 226, 2)
        ∷ (9, 226, 2)
        ∷ (23, 226, 2)
        ∷ (40, 226, 3)
        ∷ (1, 153, 2)
        ∷ (22, 153, 3)
        ∷ (1, 161, 2)
        ∷ (22, 161, 3)
        ∷ (1, 167, 2)
        ∷ (22, 167, 3)
        ∷ (1, 172, 2)
        ∷ (22, 172, 3)
        ∷ [])
    ∷ ((3, 224, 2)
        ∷ (6, 224, 2)
        ∷ (10, 224, 2)
        ∷ (15, 224, 2)
        ∷ (24, 224, 2)
        ∷ (31, 224, 2)
        ∷ (41, 224, 2)
        ∷ (56, 224, 3)
        ∷ (3, 226, 2)
        ∷ (6, 226, 2)
        ∷ (10, 226, 2)
        ∷ (15, 226, 2)
        ∷ (24, 226, 2)
        ∷ (31, 226, 2)
        ∷ (41, 226, 2)
        ∷ (56, 226, 3)
        ∷ [])
    ∷ ((2, 153, 2)
        ∷ (9, 153, 2)
        ∷ (23, 153, 2)
        ∷ (40, 153, 3)
        ∷ (2, 161, 2)
        ∷ (9, 161, 2)
        ∷ (23, 161, 2)
        ∷ (40, 161, 3)
        ∷ (2, 167, 2)
        ∷ (9, 167, 2)
        ∷ (23, 167, 2)
        ∷ (40, 167, 3)
        ∷ (2, 172, 2)
        ∷ (9, 172, 2)
        ∷ (23, 172, 2)
        ∷ (40, 172, 3)
        ∷ [])
    ∷ ((3, 153, 2)
        ∷ (6, 153, 2)
        ∷ (10, 153, 2)
        ∷ (15, 153, 2)
        ∷ (24, 153, 2)
        ∷ (31, 153, 2)
        ∷ (41, 153, 2)
        ∷ (56, 153, 3)
        ∷ (3, 161, 2)
        ∷ (6, 161, 2)
        ∷ (10, 161, 2)
        ∷ (15, 161, 2)
        ∷ (24, 161, 2)
        ∷ (31, 161, 2)
        ∷ (41, 161, 2)
        ∷ (56, 161, 3)
        ∷ [])
    ∷ ((3, 167, 2)
        ∷ (6, 167, 2)
        ∷ (10, 167, 2)
        ∷ (15, 167, 2)
        ∷ (24, 167, 2)
        ∷ (31, 167, 2)
        ∷ (41, 167, 2)
        ∷ (56, 167, 3)
        ∷ (3, 172, 2)
        ∷ (6, 172, 2)
        ∷ (10, 172, 2)
        ∷ (15, 172, 2)
        ∷ (24, 172, 2)
        ∷ (31, 172, 2)
        ∷ (41, 172, 2)
        ∷ (56, 172, 3)
        ∷ [])
    ∷ ((114, 0, 0)
        ∷ (115, 0, 0)
        ∷ (117, 0, 0)
        ∷ (118, 0, 0)
        ∷ (121, 0, 0)
        ∷ (123, 0, 0)
        ∷ (127, 0, 0)
        ∷ (130, 0, 0)
        ∷ (136, 0, 0)
        ∷ (139, 0, 0)
        ∷ (143, 0, 0)
        ∷ (146, 0, 0)
        ∷ (155, 0, 0)
        ∷ (162, 0, 0)
        ∷ (170, 0, 0)
        ∷ (180, 0, 0)
        ∷ [])
    ∷ ((0, 176, 2)
        ∷ (0, 177, 2)
        ∷ (0, 179, 2)
        ∷ (0, 209, 2)
        ∷ (0, 216, 2)
        ∷ (0, 217, 2)
        ∷ (0, 227, 2)
        ∷ (0, 229, 2)
        ∷ (0, 230, 2)
        ∷ (122, 0, 0)
        ∷ (124, 0, 0)
        ∷ (125, 0, 0)
        ∷ (128, 0, 0)
        ∷ (129, 0, 0)
        ∷ (131, 0, 0)
        ∷ (132, 0, 0)
        ∷ [])
    ∷ []
