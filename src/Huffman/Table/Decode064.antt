-- ===== src/Huffman/Table/Decode064.antt =====
-- pajamax/src/huffman/table.rs, `DECODE_TABLE`: states 64 to 71, as (next, byte, flags).
use pajamax.Prelude.{ℕ, List, [], ◌∷◌}

abbrev pub states_064 : List (List (ℕ × ℕ × ℕ))
states_064 =
    ((1, 119, 2)
      ∷ (22, 119, 3)
      ∷ (1, 120, 2)
      ∷ (22, 120, 3)
      ∷ (1, 121, 2)
      ∷ (22, 121, 3)
      ∷ (1, 122, 2)
      ∷ (22, 122, 3)
      ∷ (0, 38, 2)
      ∷ (0, 42, 2)
      ∷ (0, 44, 2)
      ∷ (0, 59, 2)
      ∷ (0, 88, 2)
      ∷ (0, 90, 2)
      ∷ (75, 0, 0)
      ∷ (78, 0, 0)
      ∷ [])
    ∷ ((2, 119, 2)
        ∷ (9, 119, 2)
        ∷ (23, 119, 2)
        ∷ (40, 119, 3)
        ∷ (2, 120, 2)
        ∷ (9, 120, 2)
        ∷ (23, 120, 2)
        ∷ (40, 120, 3)
        ∷ (2, 121, 2)
        ∷ (9, 121, 2)
        ∷ (23, 121, 2)
        ∷ (40, 121, 3)
        ∷ (2, 122, 2)
        ∷ (9, 122, 2)
        ∷ (23, 122, 2)
        ∷ (40, 122, 3)
        ∷ [])
    ∷ ((3, 119, 2)
        ∷ (6, 119, 2)
        ∷ (10, 119, 2)
        ∷ (15, 119, 2)
        ∷ (24, 119, 2)
        ∷ (31, 119, 2)
        ∷ (41, 119, 2)
        ∷ (56, 119, 3)
        ∷ (3, 120, 2)
        ∷ (6, 120, 2)
        ∷ (10, 120, 2)
        ∷ (15, 120, 2)
        ∷ (24, 120, 2)
        ∷ (31, 120, 2)
        ∷ (41, 120, 2)
        ∷ (56, 120, 3)
        ∷ [])
    ∷ ((3, 121, 2)
        ∷ (6, 121, 2)
        ∷ (10, 121, 2)
        ∷ (15, 121, 2)
        ∷ (24, 121, 2)
        ∷ (31, 121, 2)
        ∷ (41, 121, 2)
        ∷ (56, 121, 3)
        ∷ (3, 122, 2)
        ∷ (6, 122, 2)
        ∷ (10, 122, 2)
        ∷ (15, 122, 2)
        ∷ (24, 122, 2)
        ∷ (31, 122, 2)
        ∷ (41, 122, 2)
        ∷ (56, 122, 3)
        ∷ [])
    ∷ ((1, 38, 2)
        ∷ (22, 38, 3)
        ∷ (1, 42, 2)
        ∷ (22, 42, 3)
        ∷ (1, 44, 2)
        ∷ (22, 44, 3)
        ∷ (1, 59, 2)
        ∷ (22, 59, 3)
        ∷ (1, 88, 2)
        ∷ (22, 88, 3)
        ∷ (1, 90, 2)
        ∷ (22, 90, 3)
        ∷ (76, 0, 0)
        ∷ (77, 0, 0)
        ∷ (79, 0, 0)
        ∷ (81, 0, 0)
        ∷ [])
    ∷ ((2, 38, 2)
        ∷ (9, 38, 2)
        ∷ (23, 38, 2)
        ∷ (40, 38, 3)
        ∷ (2, 42, 2)
        ∷ (9, 42, 2)
        ∷ (23, 42, 2)
        ∷ (40, 42, 3)
        ∷ (2, 44, 2)
        ∷ (9, 44, 2)
        ∷ (23, 44, 2)
        ∷ (40, 44, 3)
        ∷ (2, 59, 2)
        ∷ (9, 59, 2)
        ∷ (23, 59, 2)
        ∷ (40, 59, 3)
        ∷ [])
    ∷ ((3, 38, 2)
        ∷ (6, 38, 2)
        ∷ (10, 38, 2)
        ∷ (15, 38, 2)
        ∷ (24, 38, 2)
        ∷ (31, 38, 2)
        ∷ (41, 38, 2)
        ∷ (56, 38, 3)
        ∷ (3, 42, 2)
        ∷ (6, 42, 2)
        ∷ (10, 42, 2)
        ∷ (15, 42, 2)
        ∷ (24, 42, 2)
        ∷ (31, 42, 2)
        ∷ (41, 42, 2)
        ∷ (56, 42, 3)
        ∷ [])
    ∷ ((3, 44, 2)
        ∷ (6, 44, 2)
        ∷ (10, 44, 2)
        ∷ (15, 44, 2)
        ∷ (24, 44, 2)
        ∷ (31, 44, 2)
        ∷ (41, 44, 2)
        ∷ (56, 44, 3)
        ∷ (3, 59, 2)
        ∷ (6, 59, 2)
        ∷ (10, 59, 2)
        ∷ (15, 59, 2)
        ∷ (24, 59, 2)
        ∷ (31, 59, 2)
        ∷ (41, 59, 2)
        ∷ (56, 59, 3)
        ∷ [])
    ∷ []
