-- ===== src/Huffman/Table/Decode080.antt =====
-- pajamax/src/huffman/table.rs, `DECODE_TABLE`: states 80 to 87, as (next, byte, flags).
use pajamax.Prelude.{ℕ, List, [], ◌∷◌}

abbrev pub states_080 : List (List (ℕ × ℕ × ℕ))
states_080 =
    ((3, 39, 2)
      ∷ (6, 39, 2)
      ∷ (10, 39, 2)
      ∷ (15, 39, 2)
      ∷ (24, 39, 2)
      ∷ (31, 39, 2)
      ∷ (41, 39, 2)
      ∷ (56, 39, 3)
      ∷ (3, 43, 2)
      ∷ (6, 43, 2)
      ∷ (10, 43, 2)
      ∷ (15, 43, 2)
      ∷ (24, 43, 2)
      ∷ (31, 43, 2)
      ∷ (41, 43, 2)
      ∷ (56, 43, 3)
      ∷ [])
    ∷ ((2, 124, 2)
        ∷ (9, 124, 2)
        ∷ (23, 124, 2)
        ∷ (40, 124, 3)
        ∷ (1, 35, 2)
        ∷ (22, 35, 3)
        ∷ (1, 62, 2)
        ∷ (22, 62, 3)
        ∷ (0, 0, 2)
        ∷ (0, 36, 2)
        ∷ (0, 64, 2)
        ∷ (0, 91, 2)
        ∷ (0, 93, 2)
        ∷ (0, 126, 2)
        ∷ (91, 0, 0)
        ∷ (92, 0, 0)
        ∷ [])
    ∷ ((3, 124, 2)
        ∷ (6, 124, 2)
        ∷ (10, 124, 2)
        ∷ (15, 124, 2)
        ∷ (24, 124, 2)
        ∷ (31, 124, 2)
        ∷ (41, 124, 2)
        ∷ (56, 124, 3)
        ∷ (2, 35, 2)
        ∷ (9, 35, 2)
        ∷ (23, 35, 2)
        ∷ (40, 35, 3)
        ∷ (2, 62, 2)
        ∷ (9, 62, 2)
        ∷ (23, 62, 2)
        ∷ (40, 62, 3)
        ∷ [])
    ∷ ((3, 35, 2)
        ∷ (6, 35, 2)
        ∷ (10, 35, 2)
        ∷ (15, 35, 2)
        ∷ (24, 35, 2)
        ∷ (31, 35, 2)
        ∷ (41, 35, 2)
        ∷ (56, 35, 3)
        ∷ (3, 62, 2)
        ∷ (6, 62, 2)
        ∷ (10, 62, 2)
        ∷ (15, 62, 2)
        ∷ (24, 62, 2)
        ∷ (31, 62, 2)
        ∷ (41, 62, 2)
        ∷ (56, 62, 3)
        ∷ [])
    ∷ ((1, 0, 2)
        ∷ (22, 0, 3)
        ∷ (1, 36, 2)
        ∷ (22, 36, 3)
        ∷ (1, 64, 2)
        ∷ (22, 64, 3)
        ∷ (1, 91, 2)
        ∷ (22, 91, 3)
        ∷ (1, 93, 2)
        ∷ (22, 93, 3)
        ∷ (1, 126, 2)
        ∷ (22, 126, 3)
        ∷ (0, 94, 2)
        ∷ (0, 125, 2)
        ∷ (93, 0, 0)
        ∷ (94, 0, 0)
        ∷ [])
    ∷ ((2, 0, 2)
        ∷ (9, 0, 2)
        ∷ (23, 0, 2)
        ∷ (40, 0, 3)
        ∷ (2, 36, 2)
        ∷ (9, 36, 2)
        ∷ (23, 36, 2)
        ∷ (40, 36, 3)
        ∷ (2, 64, 2)
        ∷ (9, 64, 2)
        ∷ (23, 64, 2)
        ∷ (40, 64, 3)
        ∷ (2, 91, 2)
        ∷ (9, 91, 2)
        ∷ (23, 91, 2)
        ∷ (40, 91, 3)
        ∷ [])
    ∷ ((3, 0, 2)
        ∷ (6, 0, 2)
        ∷ (10, 0, 2)
        ∷ (15, 0, 2)
        ∷ (24, 0, 2)
        ∷ (31, 0, 2)
        ∷ (41, 0, 2)
        ∷ (56, 0, 3)
        ∷ (3, 36, 2)
        ∷ (6, 36, 2)
        ∷ (10, 36, 2)
        ∷ (15, 36, 2)
        ∷ (24, 36, 2)
        ∷ (31, 36, 2)
        ∷ (41, 36, 2)
        ∷ (56, 36, 3)
        ∷ [])
    ∷ ((3, 64, 2)
        ∷ (6, 64, 2)
        ∷ (10, 64, 2)
        ∷ (15, 64, 2)
        ∷ (24, 64, 2)
        ∷ (31, 64, 2)
        ∷ (41, 64, 2)
        ∷ (56, 64, 3)
        ∷ (3, 91, 2)
        ∷ (6, 91, 2)
        ∷ (10, 91, 2)
        ∷ (15, 91, 2)
        ∷ (24, 91, 2)
        ∷ (31, 91, 2)
        ∷ (41, 91, 2)
        ∷ (56, 91, 3)
        ∷ [])
    ∷ []
