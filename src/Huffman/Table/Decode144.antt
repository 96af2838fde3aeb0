-- ===== src/Huffman/Table/Decode144.antt =====
-- pajamax/src/huffman/table.rs, `DECODE_TABLE`: states 144 to 151, as (next, byte, flags).
use pajamax.Prelude.{ℕ, List, [], ◌∷◌}

abbrev pub states_144 : List (List (ℕ × ℕ × ℕ))
states_144 =
    ((3, 198, 2)
      ∷ (6, 198, 2)
      ∷ (10, 198, 2)
      ∷ (15, 198, 2)
      ∷ (24, 198, 2)
      ∷ (31, 198, 2)
      ∷ (41, 198, 2)
      ∷ (56, 198, 3)
      ∷ (3, 228, 2)
      ∷ (6, 228, 2)
      ∷ (10, 228, 2)
      ∷ (15, 228, 2)
      ∷ (24, 228, 2)
      ∷ (31, 228, 2)
      ∷ (41, 228, 2)
      ∷ (56, 228, 3)
      ∷ [])
    ∷ ((3, 232, 2)
        ∷ (6, 232, 2)
        ∷ (10, 232, 2)
        ∷ (15, 232, 2)
        ∷ (24, 232, 2)
        ∷ (31, 232, 2)
        ∷ (41, 232, 2)
        ∷ (56, 232, 3)
        ∷ (3, 233, 2)
        ∷ (6, 233, 2)
        ∷ (10, 233, 2)
        ∷ (15, 233, 2)
        ∷ (24, 233, 2)
        ∷ (31, 233, 2)
        ∷ (41, 233, 2)
        ∷ (56, 233, 3)
        ∷ [])
    ∷ ((1, 1, 2)
        ∷ (22, 1, 3)
        ∷ (1, 135, 2)
        ∷ (22, 135, 3)
        ∷ (1, 137, 2)
        ∷ (22, 137, 3)
        ∷ (1, 138, 2)
        ∷ (22, 138, 3)
        ∷ (1, 139, 2)
        ∷ (22, 139, 3)
        ∷ (1, 140, 2)
        ∷ (22, 140, 3)
        ∷ (1, 141, 2)
        ∷ (22, 141, 3)
        ∷ (1, 143, 2)
        ∷ (22, 143, 3)
        ∷ [])
    ∷ ((2, 1, 2)
        ∷ (9, 1, 2)
        ∷ (23, 1, 2)
        ∷ (40, 1, 3)
        ∷ (2, 135, 2)
        ∷ (9, 135, 2)
        ∷ (23, 135, 2)
        ∷ (40, 135, 3)
        ∷ (2, 137, 2)
        ∷ (9, 137, 2)
        ∷ (23, 137, 2)
        ∷ (40, 137, 3)
        ∷ (2, 138, 2)
        ∷ (9, 138, 2)
        ∷ (23, 138, 2)
        ∷ (40, 138, 3)
        ∷ [])
    ∷ ((3, 1, 2)
        ∷ (6, 1, 2)
        ∷ (10, 1, 2)
        ∷ (15, 1, 2)
        ∷ (24, 1, 2)
        ∷ (31, 1, 2)
        ∷ (41, 1, 2)
        ∷ (56, 1, 3)
        ∷ (3, 135, 2)
        ∷ (6, 135, 2)
        ∷ (10, 135, 2)
        ∷ (15, 135, 2)
        ∷ (24, 135, 2)
        ∷ (31, 135, 2)
        ∷ (41, 135, 2)
        ∷ (56, 135, 3)
        ∷ [])
    ∷ ((3, 137, 2)
        ∷ (6, 137, 2)
        ∷ (10, 137, 2)
        ∷ (15, 137, 2)
        ∷ (24, 137, 2)
        ∷ (31, 137, 2)
        ∷ (41, 137, 2)
        ∷ (56, 137, 3)
        ∷ (3, 138, 2)
        ∷ (6, 138, 2)
        ∷ (10, 138, 2)
        ∷ (15, 138, 2)
        ∷ (24, 138, 2)
        ∷ (31, 138, 2)
        ∷ (41, 138, 2)
        ∷ (56, 138, 3)
        ∷ [])
    ∷ ((2, 139, 2)
        ∷ (9, 139, 2)
        ∷ (23, 139, 2)
        ∷ (40, 139, 3)
        ∷ (2, 140, 2)
        ∷ (9, 140, 2)
        ∷ (23, 140, 2)
        ∷ (40, 140, 3)
        ∷ (2, 141, 2)
        ∷ (9, 141, 2)
        ∷ (23, 141, 2)
        ∷ (40, 141, 3)
        ∷ (2, 143, 2)
        ∷ (9, 143, 2)
        ∷ (23, 143, 2)
        ∷ (40, 143, 3)
        ∷ [])
    ∷ ((3, 139, 2)
        ∷ (6, 139, 2)
        ∷ (10, 139, 2)
        ∷ (15, 139, 2)
        ∷ (24, 139, 2)
        ∷ (31, 139, 2)
        ∷ (41, 139, 2)
        ∷ (56, 139, 3)
        ∷ (3, 140, 2)
        ∷ (6, 140, 2)
        ∷ (10, 140, 2)
        ∷ (15, 140, 2)
        ∷ (24, 140, 2)
        ∷ (31, 140, 2)
        ∷ (41, 140, 2)
        ∷ (56, 140, 3)
        ∷ [])
    ∷ []
