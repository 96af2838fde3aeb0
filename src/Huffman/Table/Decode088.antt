-- ===== src/Huffman/Table/Decode088.antt =====
-- pajamax/src/huffman/table.rs, `DECODE_TABLE`: states 88 to 95, as (next, byte, flags).
use pajamax.Prelude.{ℕ, List, [], ◌∷◌}

abbrev pub states_088 : List (List (ℕ × ℕ × ℕ))
states_088 =
    ((2, 93, 2)
      ∷ (9, 93, 2)
      ∷ (23, 93, 2)
      ∷ (40, 93, 3)
      ∷ (2, 126, 2)
      ∷ (9, 126, 2)
      ∷ (23, 126, 2)
      ∷ (40, 126, 3)
      ∷ (1, 94, 2)
      ∷ (22, 94, 3)
      ∷ (1, 125, 2)
      ∷ (22, 125, 3)
      ∷ (0, 60, 2)
      ∷ (0, 96, 2)
      ∷ (0, 123, 2)
      ∷ (95, 0, 0)
      ∷ [])
    ∷ ((3, 93, 2)
        ∷ (6, 93, 2)
        ∷ (10, 93, 2)
        ∷ (15, 93, 2)
        ∷ (24, 93, 2)
        ∷ (31, 93, 2)
        ∷ (41, 93, 2)
        ∷ (56, 93, 3)
        ∷ (3, 126, 2)
        ∷ (6, 126, 2)
        ∷ (10, 126, 2)
        ∷ (15, 126, 2)
        ∷ (24, 126, 2)
        ∷ (31, 126, 2)
        ∷ (41, 126, 2)
        ∷ (56, 126, 3)
        ∷ [])
    ∷ ((2, 94, 2)
        ∷ (9, 94, 2)
        ∷ (23, 94, 2)
        ∷ (40, 94, 3)
        ∷ (2, 125, 2)
        ∷ (9, 125, 2)
        ∷ (23, 125, 2)
        ∷ (40, 125, 3)
        ∷ (1, 60, 2)
        ∷ (22, 60, 3)
        ∷ (1, 96, 2)
        ∷ (22, 96, 3)
        ∷ (1, 123, 2)
        ∷ (22, 123, 3)
        ∷ (96, 0, 0)
        ∷ (110, 0, 0)
        ∷ [])
    ∷ ((3, 94, 2)
        ∷ (6, 94, 2)
        ∷ (10, 94, 2)
        ∷ (15, 94, 2)
        ∷ (24, 94, 2)
        ∷ (31, 94, 2)
        ∷ (41, 94, 2)
        ∷ (56, 94, 3)
        ∷ (3, 125, 2)
        ∷ (6, 125, 2)
        ∷ (10, 125, 2)
        ∷ (15, 125, 2)
        ∷ (24, 125, 2)
        ∷ (31, 125, 2)
        ∷ (41, 125, 2)
        ∷ (56, 125, 3)
        ∷ [])
    ∷ ((2, 60, 2)
        ∷ (9, 60, 2)
        ∷ (23, 60, 2)
        ∷ (40, 60, 3)
        ∷ (2, 96, 2)
        ∷ (9, 96, 2)
        ∷ (23, 96, 2)
        ∷ (40, 96, 3)
        ∷ (2, 123, 2)
        ∷ (9, 123, 2)
        ∷ (23, 123, 2)
        ∷ (40, 123, 3)
        ∷ (97, 0, 0)
        ∷ (101, 0, 0)
        ∷ (111, 0, 0)
        ∷ (133, 0, 0)
        ∷ [])
    ∷ ((3, 60, 2)
        ∷ (6, 60, 2)
        ∷ (10, 60, 2)
        ∷ (15, 60, 2)
        ∷ (24, 60, 2)
        ∷ (31, 60, 2)
        ∷ (41, 60, 2)
        ∷ (56, 60, 3)
        ∷ (3, 96, 2)
        ∷ (6, 96, 2)
        ∷ (10, 96, 2)
        ∷ (15, 96, 2)
        ∷ (24, 96, 2)
        ∷ (31, 96, 2)
        ∷ (41, 96, 2)
        ∷ (56, 96, 3)
        ∷ [])
    ∷ ((3, 123, 2)
        ∷ (6, 123, 2)
        ∷ (10, 123, 2)
        ∷ (15, 123, 2)
        ∷ (24, 123, 2)
        ∷ (31, 123, 2)
        ∷ (41, 123, 2)
        ∷ (56, 123, 3)
        ∷ (98, 0, 0)
        ∷ (99, 0, 0)
        ∷ (102, 0, 0)
        ∷ (105, 0, 0)
        ∷ (112, 0, 0)
        ∷ (119, 0, 0)
        ∷ (134, 0, 0)
        ∷ (153, 0, 0)
        ∷ [])
    ∷ ((0, 92, 2)
        ∷ (0, 195, 2)
        ∷ (0, 208, 2)
        ∷ (100, 0, 0)
        ∷ (103, 0, 0)
        ∷ (104, 0, 0)
        ∷ (106, 0, 0)
        ∷ (107, 0, 0)
        ∷ (113, 0, 0)
        ∷ (116, 0, 0)
        ∷ (120, 0, 0)
        ∷ (126, 0, 0)
        ∷ (135, 0, 0)
        ∷ (142, 0, 0)
        ∷ (154, 0, 0)
        ∷ (169, 0, 0)
        ∷ [])
    ∷ []
