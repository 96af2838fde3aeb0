-- ===== src/Huffman/Table/Decode216.antt =====
-- pajamax/src/huffman/table.rs, `DECODE_TABLE`: states 216 to 223, as (next, byte, flags).
use pajamax.Prelude.{ℕ, List, [], ◌∷◌}

abbrev pub states_216 : List (List (ℕ × ℕ × ℕ))
states_216 =
    ((1, 245, 2)
      ∷ (22, 245, 3)
      ∷ (1, 246, 2)
      ∷ (22, 246, 3)
      ∷ (1, 247, 2)
      ∷ (22, 247, 3)
      ∷ (1, 248, 2)
      ∷ (22, 248, 3)
      ∷ (1, 250, 2)
      ∷ (22, 250, 3)
      ∷ (1, 251, 2)
      ∷ (22, 251, 3)
      ∷ (1, 252, 2)
      ∷ (22, 252, 3)
      ∷ (1, 253, 2)
      ∷ (22, 253, 3)
      ∷ [])
    ∷ ((2, 245, 2)
        ∷ (9, 245, 2)
        ∷ (23, 245, 2)
        ∷ (40, 245, 3)
        ∷ (2, 246, 2)
        ∷ (9, 246, 2)
        ∷ (23, 246, 2)
        ∷ (40, 246, 3)
        ∷ (2, 247, 2)
        ∷ (9, 247, 2)
        ∷ (23, 247, 2)
        ∷ (40, 247, 3)
        ∷ (2, 248, 2)
        ∷ (9, 248, 2)
        ∷ (23, 248, 2)
        ∷ (40, 248, 3)
        ∷ [])
    ∷ ((3, 245, 2)
        ∷ (6, 245, 2)
        ∷ (10, 245, 2)
        ∷ (15, 245, 2)
        ∷ (24, 245, 2)
        ∷ (31, 245, 2)
        ∷ (41, 245, 2)
        ∷ (56, 245, 3)
        ∷ (3, 246, 2)
        ∷ (6, 246, 2)
        ∷ (10, 246, 2)
        ∷ (15, 246, 2)
        ∷ (24, 246, 2)
        ∷ (31, 246, 2)
        ∷ (41, 246, 2)
        ∷ (56, 246, 3)
        ∷ [])
    ∷ ((3, 247, 2)
        ∷ (6, 247, 2)
        ∷ (10, 247, 2)
        ∷ (15, 247, 2)
        ∷ (24, 247, 2)
        ∷ (31, 247, 2)
        ∷ (41, 247, 2)
        ∷ (56, 247, 3)
        ∷ (3, 248, 2)
        ∷ (6, 248, 2)
        ∷ (10, 248, 2)
        ∷ (15, 248, 2)
        ∷ (24, 248, 2)
        ∷ (31, 248, 2)
        ∷ (41, 248, 2)
        ∷ (56, 248, 3)
        ∷ [])
    ∷ ((2, 250, 2)
        ∷ (9, 250, 2)
        ∷ (23, 250, 2)
        ∷ (40, 250, 3)
        ∷ (2, 251, 2)
        ∷ (9, 251, 2)
        ∷ (23, 251, 2)
        ∷ (40, 251, 3)
        ∷ (2, 252, 2)
        ∷ (9, 252, 2)
        ∷ (23, 252, 2)
        ∷ (40, 252, 3)
        ∷ (2, 253, 2)
        ∷ (9, 253, 2)
        ∷ (23, 253, 2)
        ∷ (40, 253, 3)
        ∷ [])
    ∷ ((3, 250, 2)
        ∷ (6, 250, 2)
        ∷ (10, 250, 2)
        ∷ (15, 250, 2)
        ∷ (24, 250, 2)
        ∷ (31, 250, 2)
        ∷ (41, 250, 2)
        ∷ (56, 250, 3)
        ∷ (3, 251, 2)
        ∷ (6, 251, 2)
        ∷ (10, 251, 2)
        ∷ (15, 251, 2)
        ∷ (24, 251, 2)
        ∷ (31, 251, 2)
        ∷ (41, 251, 2)
        ∷ (56, 251, 3)
        ∷ [])
    ∷ ((3, 252, 2)
        ∷ (6, 252, 2)
        ∷ (10, 252, 2)
        ∷ (15, 252, 2)
        ∷ (24, 252, 2)
        ∷ (31, 252, 2)
        ∷ (41, 252, 2)
        ∷ (56, 252, 3)
        ∷ (3, 253, 2)
        ∷ (6, 253, 2)
        ∷ (10, 253, 2)
        ∷ (15, 253, 2)
        ∷ (24, 253, 2)
        ∷ (31, 253, 2)
        ∷ (41, 253, 2)
        ∷ (56, 253, 3)
        ∷ [])
    ∷ ((0, 254, 2)
        ∷ (227, 0, 0)
        ∷ (229, 0, 0)
        ∷ (230, 0, 0)
        ∷ (233, 0, 0)
        ∷ (234, 0, 0)
        ∷ (236, 0, 0)
        ∷ (237, 0, 0)
        ∷ (241, 0, 0)
        ∷ (242, 0, 0)
        ∷ (244, 0, 0)
        ∷ (245, 0, 0)
        ∷ (248, 0, 0)
        ∷ (249, 0, 0)
        ∷ (251, 0, 0)
        ∷ (252, 0, 0)
        ∷ [])
    ∷ []
