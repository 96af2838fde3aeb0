-- ===== src/Huffman/Table/Decode024.antt =====
-- pajamax/src/huffman/table.rs, `DECODE_TABLE`: states 24 to 31, as (next, byte, flags).
use pajamax.Prelude.{ℕ, List, [], ◌∷◌}

abbrev pub states_024 : List (List (ℕ × ℕ × ℕ))
states_024 =
    ((1, 61, 2)
      ∷ (22, 61, 3)
      ∷ (1, 65, 2)
      ∷ (22, 65, 3)
      ∷ (1, 95, 2)
      ∷ (22, 95, 3)
      ∷ (1, 98, 2)
      ∷ (22, 98, 3)
      ∷ (1, 100, 2)
      ∷ (22, 100, 3)
      ∷ (1, 102, 2)
      ∷ (22, 102, 3)
      ∷ (1, 103, 2)
      ∷ (22, 103, 3)
      ∷ (1, 104, 2)
      ∷ (22, 104, 3)
      ∷ [])
    ∷ ((2, 61, 2)
        ∷ (9, 61, 2)
        ∷ (23, 61, 2)
        ∷ (40, 61, 3)
        ∷ (2, 65, 2)
        ∷ (9, 65, 2)
        ∷ (23, 65, 2)
        ∷ (40, 65, 3)
        ∷ (2, 95, 2)
        ∷ (9, 95, 2)
        ∷ (23, 95, 2)
        ∷ (40, 95, 3)
        ∷ (2, 98, 2)
        ∷ (9, 98, 2)
        ∷ (23, 98, 2)
        ∷ (40, 98, 3)
        ∷ [])
    ∷ ((3, 61, 2)
        ∷ (6, 61, 2)
        ∷ (10, 61, 2)
        ∷ (15, 61, 2)
        ∷ (24, 61, 2)
        ∷ (31, 61, 2)
        ∷ (41, 61, 2)
        ∷ (56, 61, 3)
        ∷ (3, 65, 2)
        ∷ (6, 65, 2)
        ∷ (10, 65, 2)
        ∷ (15, 65, 2)
        ∷ (24, 65, 2)
        ∷ (31, 65, 2)
        ∷ (41, 65, 2)
        ∷ (56, 65, 3)
        ∷ [])
    ∷ ((3, 95, 2)
        ∷ (6, 95, 2)
        ∷ (10, 95, 2)
        ∷ (15, 95, 2)
        ∷ (24, 95, 2)
        ∷ (31, 95, 2)
        ∷ (41, 95, 2)
        ∷ (56, 95, 3)
        ∷ (3, 98, 2)
        ∷ (6, 98, 2)
        ∷ (10, 98, 2)
        ∷ (15, 98, 2)
        ∷ (24, 98, 2)
        ∷ (31, 98, 2)
        ∷ (41, 98, 2)
        ∷ (56, 98, 3)
        ∷ [])
    ∷ ((2, 100, 2)
        ∷ (9, 100, 2)
        ∷ (23, 100, 2)
        ∷ (40, 100, 3)
        ∷ (2, 102, 2)
        ∷ (9, 102, 2)
        ∷ (23, 102, 2)
        ∷ (40, 102, 3)
        ∷ (2, 103, 2)
        ∷ (9, 103, 2)
        ∷ (23, 103, 2)
        ∷ (40, 103, 3)
        ∷ (2, 104, 2)
        ∷ (9, 104, 2)
        ∷ (23, 104, 2)
        ∷ (40, 104, 3)
        ∷ [])
    ∷ ((3, 100, 2)
        ∷ (6, 100, 2)
        ∷ (10, 100, 2)
        ∷ (15, 100, 2)
        ∷ (24, 100, 2)
        ∷ (31, 100, 2)
        ∷ (41, 100, 2)
        ∷ (56, 100, 3)
        ∷ (3, 102, 2)
        ∷ (6, 102, 2)
        ∷ (10, 102, 2)
        ∷ (15, 102, 2)
        ∷ (24, 102, 2)
        ∷ (31, 102, 2)
        ∷ (41, 102, 2)
        ∷ (56, 102, 3)
        ∷ [])
    ∷ ((3, 103, 2)
        ∷ (6, 103, 2)
        ∷ (10, 103, 2)
        ∷ (15, 103, 2)
        ∷ (24, 103, 2)
        ∷ (31, 103, 2)
        ∷ (41, 103, 2)
        ∷ (56, 103, 3)
        ∷ (3, 104, 2)
        ∷ (6, 104, 2)
        ∷ (10, 104, 2)
        ∷ (15, 104, 2)
        ∷ (24, 104, 2)
        ∷ (31, 104, 2)
        ∷ (41, 104, 2)
        ∷ (56, 104, 3)
        ∷ [])
    ∷ ((1, 108, 2)
        ∷ (22, 108, 3)
        ∷ (1, 109, 2)
        ∷ (22, 109, 3)
        ∷ (1, 110, 2)
        ∷ (22, 110, 3)
        ∷ (1, 112, 2)
        ∷ (22, 112, 3)
        ∷ (1, 114, 2)
        ∷ (22, 114, 3)
        ∷ (1, 117, 2)
        ∷ (22, 117, 3)
        ∷ (0, 58, 2)
        ∷ (0, 66, 2)
        ∷ (0, 67, 2)
        ∷ (0, 68, 2)
        ∷ [])
    ∷ []
