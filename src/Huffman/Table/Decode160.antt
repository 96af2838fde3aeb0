-- ===== src/Huffman/Table/Decode160.antt =====
-- pajamax/src/huffman/table.rs, `DECODE_TABLE`: states 160 to 167, as (next, byte, flags).
use pajamax.Prelude.{ℕ, List, [], ◌∷◌}

abbrev pub states_160 : List (List (ℕ × ℕ × ℕ))
states_160 =
    ((3, 152, 2)
      ∷ (6, 152, 2)
      ∷ (10, 152, 2)
      ∷ (15, 152, 2)
      ∷ (24, 152, 2)
      ∷ (31, 152, 2)
      ∷ (41, 152, 2)
      ∷ (56, 152, 3)
      ∷ (3, 155, 2)
      ∷ (6, 155, 2)
      ∷ (10, 155, 2)
      ∷ (15, 155, 2)
      ∷ (24, 155, 2)
      ∷ (31, 155, 2)
      ∷ (41, 155, 2)
      ∷ (56, 155, 3)
      ∷ [])
    ∷ ((3, 157, 2)
        ∷ (6, 157, 2)
        ∷ (10, 157, 2)
        ∷ (15, 157, 2)
        ∷ (24, 157, 2)
        ∷ (31, 157, 2)
        ∷ (41, 157, 2)
        ∷ (56, 157, 3)
        ∷ (3, 158, 2)
        ∷ (6, 158, 2)
        ∷ (10, 158, 2)
        ∷ (15, 158, 2)
        ∷ (24, 158, 2)
        ∷ (31, 158, 2)
        ∷ (41, 158, 2)
        ∷ (56, 158, 3)
        ∷ [])
    ∷ ((1, 165, 2)
        ∷ (22, 165, 3)
        ∷ (1, 166, 2)
        ∷ (22, 166, 3)
        ∷ (1, 168, 2)
        ∷ (22, 168, 3)
        ∷ (1, 174, 2)
        ∷ (22, 174, 3)
        ∷ (1, 175, 2)
        ∷ (22, 175, 3)
        ∷ (1, 180, 2)
        ∷ (22, 180, 3)
        ∷ (1, 182, 2)
        ∷ (22, 182, 3)
        ∷ (1, 183, 2)
        ∷ (22, 183, 3)
        ∷ [])
    ∷ ((2, 165, 2)
        ∷ (9, 165, 2)
        ∷ (23, 165, 2)
        ∷ (40, 165, 3)
        ∷ (2, 166, 2)
        ∷ (9, 166, 2)
        ∷ (23, 166, 2)
        ∷ (40, 166, 3)
        ∷ (2, 168, 2)
        ∷ (9, 168, 2)
        ∷ (23, 168, 2)
        ∷ (40, 168, 3)
        ∷ (2, 174, 2)
        ∷ (9, 174, 2)
        ∷ (23, 174, 2)
        ∷ (40, 174, 3)
        ∷ [])
    ∷ ((3, 165, 2)
        ∷ (6, 165, 2)
        ∷ (10, 165, 2)
        ∷ (15, 165, 2)
        ∷ (24, 165, 2)
        ∷ (31, 165, 2)
        ∷ (41, 165, 2)
        ∷ (56, 165, 3)
        ∷ (3, 166, 2)
        ∷ (6, 166, 2)
        ∷ (10, 166, 2)
        ∷ (15, 166, 2)
        ∷ (24, 166, 2)
        ∷ (31, 166, 2)
        ∷ (41, 166, 2)
        ∷ (56, 166, 3)
        ∷ [])
    ∷ ((3, 168, 2)
        ∷ (6, 168, 2)
        ∷ (10, 168, 2)
        ∷ (15, 168, 2)
        ∷ (24, 168, 2)
        ∷ (31, 168, 2)
        ∷ (41, 168, 2)
        ∷ (56, 168, 3)
        ∷ (3, 174, 2)
        ∷ (6, 174, 2)
        ∷ (10, 174, 2)
        ∷ (15, 174, 2)
        ∷ (24, 174, 2)
        ∷ (31, 174, 2)
        ∷ (41, 174, 2)
        ∷ (56, 174, 3)
        ∷ [])
    ∷ ((2, 175, 2)
        ∷ (9, 175, 2)
        ∷ (23, 175, 2)
        ∷ (40, 175, 3)
        ∷ (2, 180, 2)
        ∷ (9, 180, 2)
        ∷ (23, 180, 2)
        ∷ (40, 180, 3)
        ∷ (2, 182, 2)
        ∷ (9, 182, 2)
        ∷ (23, 182, 2)
        ∷ (40, 182, 3)
        ∷ (2, 183, 2)
        ∷ (9, 183, 2)
        ∷ (23, 183, 2)
        ∷ (40, 183, 3)
        ∷ [])
    ∷ ((3, 175, 2)
        ∷ (6, 175, 2)
        ∷ (10, 175, 2)
        ∷ (15, 175, 2)
        ∷ (24, 175, 2)
        ∷ (31, 175, 2)
        ∷ (41, 175, 2)
        ∷ (56, 175, 3)
        ∷ (3, 180, 2)
        ∷ (6, 180, 2)
        ∷ (10, 180, 2)
        ∷ (15, 180, 2)
        ∷ (24, 180, 2)
        ∷ (31, 180, 2)
        ∷ (41, 180, 2)
        ∷ (56, 180, 3)
        ∷ [])
    ∷ []
