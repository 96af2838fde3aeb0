-- ===== src/Huffman/Table/Decode208.antt =====
-- pajamax/src/huffman/table.rs, `DECODE_TABLE`: states 208 to 215, as (next, byte, flags).
use pajamax.Prelude.{ℕ, List, [], ◌∷◌}

abbrev pub states_208 : List (List (ℕ × ℕ × ℕ))
states_208 =
    ((0, 211, 2)
      ∷ (0, 212, 2)
      ∷ (0, 214, 2)
      ∷ (0, 221, 2)
      ∷ (0, 222, 2)
      ∷ (0, 223, 2)
      ∷ (0, 241, 2)
      ∷ (0, 244, 2)
      ∷ (0, 245, 2)
      ∷ (0, 246, 2)
      ∷ (0, 247, 2)
      ∷ (0, 248, 2)
      ∷ (0, 250, 2)
      ∷ (0, 251, 2)
      ∷ (0, 252, 2)
      ∷ (0, 253, 2)
      ∷ [])
    ∷ ((1, 211, 2)
        ∷ (22, 211, 3)
        ∷ (1, 212, 2)
        ∷ (22, 212, 3)
        ∷ (1, 214, 2)
        ∷ (22, 214, 3)
        ∷ (1, 221, 2)
        ∷ (22, 221, 3)
        ∷ (1, 222, 2)
        ∷ (22, 222, 3)
        ∷ (1, 223, 2)
        ∷ (22, 223, 3)
        ∷ (1, 241, 2)
        ∷ (22, 241, 3)
        ∷ (1, 244, 2)
        ∷ (22, 244, 3)
        ∷ [])
    ∷ ((2, 211, 2)
        ∷ (9, 211, 2)
        ∷ (23, 211, 2)
        ∷ (40, 211, 3)
        ∷ (2, 212, 2)
        ∷ (9, 212, 2)
        ∷ (23, 212, 2)
        ∷ (40, 212, 3)
        ∷ (2, 214, 2)
        ∷ (9, 214, 2)
        ∷ (23, 214, 2)
        ∷ (40, 214, 3)
        ∷ (2, 221, 2)
        ∷ (9, 221, 2)
        ∷ (23, 221, 2)
        ∷ (40, 221, 3)
        ∷ [])
    ∷ ((3, 211, 2)
        ∷ (6, 211, 2)
        ∷ (10, 211, 2)
        ∷ (15, 211, 2)
        ∷ (24, 211, 2)
        ∷ (31, 211, 2)
        ∷ (41, 211, 2)
        ∷ (56, 211, 3)
        ∷ (3, 212, 2)
        ∷ (6, 212, 2)
        ∷ (10, 212, 2)
        ∷ (15, 212, 2)
        ∷ (24, 212, 2)
        ∷ (31, 212, 2)
        ∷ (41, 212, 2)
        ∷ (56, 212, 3)
        ∷ [])
    ∷ ((3, 214, 2)
        ∷ (6, 214, 2)
        ∷ (10, 214, 2)
        ∷ (15, 214, 2)
        ∷ (24, 214, 2)
        ∷ (31, 214, 2)
        ∷ (41, 214, 2)
        ∷ (56, 214, 3)
        ∷ (3, 221, 2)
        ∷ (6, 221, 2)
        ∷ (10, 221, 2)
        ∷ (15, 221, 2)
        ∷ (24, 221, 2)
        ∷ (31, 221, 2)
        ∷ (41, 221, 2)
        ∷ (56, 221, 3)
        ∷ [])
    ∷ ((2, 222, 2)
        ∷ (9, 222, 2)
        ∷ (23, 222, 2)
        ∷ (40, 222, 3)
        ∷ (2, 223, 2)
        ∷ (9, 223, 2)
        ∷ (23, 223, 2)
        ∷ (40, 223, 3)
        ∷ (2, 241, 2)
        ∷ (9, 241, 2)
        ∷ (23, 241, 2)
        ∷ (40, 241, 3)
        ∷ (2, 244, 2)
        ∷ (9, 244, 2)
        ∷ (23, 244, 2)
        ∷ (40, 244, 3)
        ∷ [])
    ∷ ((3, 222, 2)
        ∷ (6, 222, 2)
        ∷ (10, 222, 2)
        ∷ (15, 222, 2)
        ∷ (24, 222, 2)
        ∷ (31, 222, 2)
        ∷ (41, 222, 2)
        ∷ (56, 222, 3)
        ∷ (3, 223, 2)
        ∷ (6, 223, 2)
        ∷ (10, 223, 2)
        ∷ (15, 223, 2)
        ∷ (24, 223, 2)
        ∷ (31, 223, 2)
        ∷ (41, 223, 2)
        ∷ (56, 223, 3)
        ∷ [])
    ∷ ((3, 241, 2)
        ∷ (6, 241, 2)
        ∷ (10, 241, 2)
        ∷ (15, 241, 2)
        ∷ (24, 241, 2)
        ∷ (31, 241, 2)
        ∷ (41, 241, 2)
        ∷ (56, 241, 3)
        ∷ (3, 244, 2)
        ∷ (6, 244, 2)
        ∷ (10, 244, 2)
        ∷ (15, 244, 2)
        ∷ (24, 244, 2)
        ∷ (31, 244, 2)
        ∷ (41, 244, 2)
        ∷ (56, 244, 3)
        ∷ [])
    ∷ []
