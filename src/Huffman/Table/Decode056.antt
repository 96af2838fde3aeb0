-- ===== src/Huffman/Table/Decode056.antt =====
-- pajamax/src/huffman/table.rs, `DECODE_TABLE`: states 56 to 63, as (next, byte, flags).
use pajamax.Prelude.{ℕ, List, [], ◌∷◌}

abbrev pub states_056 : List (List (ℕ × ℕ × ℕ))
states_056 =
    ((0, 85, 2)
      ∷ (0, 86, 2)
      ∷ (0, 87, 2)
      ∷ (0, 89, 2)
      ∷ (0, 106, 2)
      ∷ (0, 107, 2)
      ∷ (0, 113, 2)
      ∷ (0, 118, 2)
      ∷ (0, 119, 2)
      ∷ (0, 120, 2)
      ∷ (0, 121, 2)
      ∷ (0, 122, 2)
      ∷ (70, 0, 0)
      ∷ (71, 0, 0)
      ∷ (73, 0, 0)
      ∷ (74, 0, 1)
      ∷ [])
    ∷ ((1, 85, 2)
        ∷ (22, 85, 3)
        ∷ (1, 86, 2)
        ∷ (22, 86, 3)
        ∷ (1, 87, 2)
        ∷ (22, 87, 3)
        ∷ (1, 89, 2)
        ∷ (22, 89, 3)
        ∷ (1, 106, 2)
        ∷ (22, 106, 3)
        ∷ (1, 107, 2)
        ∷ (22, 107, 3)
        ∷ (1, 113, 2)
        ∷ (22, 113, 3)
        ∷ (1, 118, 2)
        ∷ (22, 118, 3)
        ∷ [])
    ∷ ((2, 85, 2)
        ∷ (9, 85, 2)
        ∷ (23, 85, 2)
        ∷ (40, 85, 3)
        ∷ (2, 86, 2)
        ∷ (9, 86, 2)
        ∷ (23, 86, 2)
        ∷ (40, 86, 3)
        ∷ (2, 87, 2)
        ∷ (9, 87, 2)
        ∷ (23, 87, 2)
        ∷ (40, 87, 3)
        ∷ (2, 89, 2)
        ∷ (9, 89, 2)
        ∷ (23, 89, 2)
        ∷ (40, 89, 3)
        ∷ [])
    ∷ ((3, 85, 2)
        ∷ (6, 85, 2)
        ∷ (10, 85, 2)
        ∷ (15, 85, 2)
        ∷ (24, 85, 2)
        ∷ (31, 85, 2)
        ∷ (41, 85, 2)
        ∷ (56, 85, 3)
        ∷ (3, 86, 2)
        ∷ (6, 86, 2)
        ∷ (10, 86, 2)
        ∷ (15, 86, 2)
        ∷ (24, 86, 2)
        ∷ (31, 86, 2)
        ∷ (41, 86, 2)
        ∷ (56, 86, 3)
        ∷ [])
    ∷ ((3, 87, 2)
        ∷ (6, 87, 2)
        ∷ (10, 87, 2)
        ∷ (15, 87, 2)
        ∷ (24, 87, 2)
        ∷ (31, 87, 2)
        ∷ (41, 87, 2)
        ∷ (56, 87, 3)
        ∷ (3, 89, 2)
        ∷ (6, 89, 2)
        ∷ (10, 89, 2)
        ∷ (15, 89, 2)
        ∷ (24, 89, 2)
        ∷ (31, 89, 2)
        ∷ (41, 89, 2)
        ∷ (56, 89, 3)
        ∷ [])
    ∷ ((2, 106, 2)
        ∷ (9, 106, 2)
        ∷ (23, 106, 2)
        ∷ (40, 106, 3)
        ∷ (2, 107, 2)
        ∷ (9, 107, 2)
        ∷ (23, 107, 2)
        ∷ (40, 107, 3)
        ∷ (2, 113, 2)
        ∷ (9, 113, 2)
        ∷ (23, 113, 2)
        ∷ (40, 113, 3)
        ∷ (2, 118, 2)
        ∷ (9, 118, 2)
        ∷ (23, 118, 2)
        ∷ (40, 118, 3)
        ∷ [])
    ∷ ((3, 106, 2)
        ∷ (6, 106, 2)
        ∷ (10, 106, 2)
        ∷ (15, 106, 2)
        ∷ (24, 106, 2)
        ∷ (31, 106, 2)
        ∷ (41, 106, 2)
        ∷ (56, 106, 3)
        ∷ (3, 107, 2)
        ∷ (6, 107, 2)
        ∷ (10, 107, 2)
        ∷ (15, 107, 2)
        ∷ (24, 107, 2)
        ∷ (31, 107, 2)
        ∷ (41, 107, 2)
        ∷ (56, 107, 3)
        ∷ [])
    ∷ ((3, 113, 2)
        ∷ (6, 113, 2)
        ∷ (10, 113, 2)
        ∷ (15, 113, 2)
        ∷ (24, 113, 2)
        ∷ (31, 113, 2)
        ∷ (41, 113, 2)
        ∷ (56, 113, 3)
        ∷ (3, 118, 2)
        ∷ (6, 118, 2)
        ∷ (10, 118, 2)
        ∷ (15, 118, 2)
        ∷ (24, 118, 2)
        ∷ (31, 118, 2)
        ∷ (41, 118, 2)
        ∷ (56, 118, 3)
        ∷ [])
    ∷ []
