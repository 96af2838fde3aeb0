-- ===== src/Huffman/Table/Decode136.antt =====
-- pajamax/src/huffman/table.rs, `DECODE_TABLE`: states 136 to 143, as (next, byte, flags).
use pajamax.Prelude.{ℕ, List, [], ◌∷◌}

abbrev pub states_136 : List (List (ℕ × ℕ × ℕ))
states_136 =
    ((2, 178, 2)
      ∷ (9, 178, 2)
      ∷ (23, 178, 2)
      ∷ (40, 178, 3)
      ∷ (2, 181, 2)
      ∷ (9, 181, 2)
      ∷ (23, 181, 2)
      ∷ (40, 181, 3)
      ∷ (2, 185, 2)
      ∷ (9, 185, 2)
      ∷ (23, 185, 2)
      ∷ (40, 185, 3)
      ∷ (2, 186, 2)
      ∷ (9, 186, 2)
      ∷ (23, 186, 2)
      ∷ (40, 186, 3)
      ∷ [])
    ∷ ((3, 178, 2)
        ∷ (6, 178, 2)
        ∷ (10, 178, 2)
        ∷ (15, 178, 2)
        ∷ (24, 178, 2)
        ∷ (31, 178, 2)
        ∷ (41, 178, 2)
        ∷ (56, 178, 3)
        ∷ (3, 181, 2)
        ∷ (6, 181, 2)
        ∷ (10, 181, 2)
        ∷ (15, 181, 2)
        ∷ (24, 181, 2)
        ∷ (31, 181, 2)
        ∷ (41, 181, 2)
        ∷ (56, 181, 3)
        ∷ [])
    ∷ ((3, 185, 2)
        ∷ (6, 185, 2)
        ∷ (10, 185, 2)
        ∷ (15, 185, 2)
        ∷ (24, 185, 2)
        ∷ (31, 185, 2)
        ∷ (41, 185, 2)
        ∷ (56, 185, 3)
        ∷ (3, 186, 2)
        ∷ (6, 186, 2)
        ∷ (10, 186, 2)
        ∷ (15, 186, 2)
        ∷ (24, 186, 2)
        ∷ (31, 186, 2)
        ∷ (41, 186, 2)
        ∷ (56, 186, 3)
        ∷ [])
    ∷ ((2, 187, 2)
        ∷ (9, 187, 2)
        ∷ (23, 187, 2)
        ∷ (40, 187, 3)
        ∷ (2, 189, 2)
        ∷ (9, 189, 2)
        ∷ (23, 189, 2)
        ∷ (40, 189, 3)
        ∷ (2, 190, 2)
        ∷ (9, 190, 2)
        ∷ (23, 190, 2)
        ∷ (40, 190, 3)
        ∷ (2, 196, 2)
        ∷ (9, 196, 2)
        ∷ (23, 196, 2)
        ∷ (40, 196, 3)
        ∷ [])
    ∷ ((3, 187, 2)
        ∷ (6, 187, 2)
        ∷ (10, 187, 2)
        ∷ (15, 187, 2)
        ∷ (24, 187, 2)
        ∷ (31, 187, 2)
        ∷ (41, 187, 2)
        ∷ (56, 187, 3)
        ∷ (3, 189, 2)
        ∷ (6, 189, 2)
        ∷ (10, 189, 2)
        ∷ (15, 189, 2)
        ∷ (24, 189, 2)
        ∷ (31, 189, 2)
        ∷ (41, 189, 2)
        ∷ (56, 189, 3)
        ∷ [])
    ∷ ((3, 190, 2)
        ∷ (6, 190, 2)
        ∷ (10, 190, 2)
        ∷ (15, 190, 2)
        ∷ (24, 190, 2)
        ∷ (31, 190, 2)
        ∷ (41, 190, 2)
        ∷ (56, 190, 3)
        ∷ (3, 196, 2)
        ∷ (6, 196, 2)
        ∷ (10, 196, 2)
        ∷ (15, 196, 2)
        ∷ (24, 196, 2)
        ∷ (31, 196, 2)
        ∷ (41, 196, 2)
        ∷ (56, 196, 3)
        ∷ [])
    ∷ ((1, 198, 2)
        ∷ (22, 198, 3)
        ∷ (1, 228, 2)
        ∷ (22, 228, 3)
        ∷ (1, 232, 2)
        ∷ (22, 232, 3)
        ∷ (1, 233, 2)
        ∷ (22, 233, 3)
        ∷ (0, 1, 2)
        ∷ (0, 135, 2)
        ∷ (0, 137, 2)
        ∷ (0, 138, 2)
        ∷ (0, 139, 2)
        ∷ (0, 140, 2)
        ∷ (0, 141, 2)
        ∷ (0, 143, 2)
        ∷ [])
    ∷ ((2, 198, 2)
        ∷ (9, 198, 2)
        ∷ (23, 198, 2)
        ∷ (40, 198, 3)
        ∷ (2, 228, 2)
        ∷ (9, 228, 2)
        ∷ (23, 228, 2)
        ∷ (40, 228, 3)
        ∷ (2, 232, 2)
        ∷ (9, 232, 2)
        ∷ (23, 232, 2)
        ∷ (40, 232, 3)
        ∷ (2, 233, 2)
        ∷ (9, 233, 2)
        ∷ (23, 233, 2)
        ∷ (40, 233, 3)
        ∷ [])
    ∷ []
