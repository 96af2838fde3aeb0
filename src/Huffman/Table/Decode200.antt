-- ===== src/Huffman/Table/Decode200.antt =====
-- pajamax/src/huffman/table.rs, `DECODE_TABLE`: states 200 to 207, as (next, byte, flags).
use pajamax.Prelude.{ℕ, List, [], ◌∷◌}

abbrev pub states_200 : List (List (ℕ × ℕ × ℕ))
states_200 =
    ((2, 218, 2)
      ∷ (9, 218, 2)
      ∷ (23, 218, 2)
      ∷ (40, 218, 3)
      ∷ (2, 219, 2)
      ∷ (9, 219, 2)
      ∷ (23, 219, 2)
      ∷ (40, 219, 3)
      ∷ (2, 238, 2)
      ∷ (9, 238, 2)
      ∷ (23, 238, 2)
      ∷ (40, 238, 3)
      ∷ (2, 240, 2)
      ∷ (9, 240, 2)
      ∷ (23, 240, 2)
      ∷ (40, 240, 3)
      ∷ [])
    ∷ ((3, 218, 2)
        ∷ (6, 218, 2)
        ∷ (10, 218, 2)
        ∷ (15, 218, 2)
        ∷ (24, 218, 2)
        ∷ (31, 218, 2)
        ∷ (41, 218, 2)
        ∷ (56, 218, 3)
        ∷ (3, 219, 2)
        ∷ (6, 219, 2)
        ∷ (10, 219, 2)
        ∷ (15, 219, 2)
        ∷ (24, 219, 2)
        ∷ (31, 219, 2)
        ∷ (41, 219, 2)
        ∷ (56, 219, 3)
        ∷ [])
    ∷ ((3, 238, 2)
        ∷ (6, 238, 2)
        ∷ (10, 238, 2)
        ∷ (15, 238, 2)
        ∷ (24, 238, 2)
        ∷ (31, 238, 2)
        ∷ (41, 238, 2)
        ∷ (56, 238, 3)
        ∷ (3, 240, 2)
        ∷ (6, 240, 2)
        ∷ (10, 240, 2)
        ∷ (15, 240, 2)
        ∷ (24, 240, 2)
        ∷ (31, 240, 2)
        ∷ (41, 240, 2)
        ∷ (56, 240, 3)
        ∷ [])
    ∷ ((2, 242, 2)
        ∷ (9, 242, 2)
        ∷ (23, 242, 2)
        ∷ (40, 242, 3)
        ∷ (2, 243, 2)
        ∷ (9, 243, 2)
        ∷ (23, 243, 2)
        ∷ (40, 243, 3)
        ∷ (2, 255, 2)
        ∷ (9, 255, 2)
        ∷ (23, 255, 2)
        ∷ (40, 255, 3)
        ∷ (1, 203, 2)
        ∷ (22, 203, 3)
        ∷ (1, 204, 2)
        ∷ (22, 204, 3)
        ∷ [])
    ∷ ((3, 242, 2)
        ∷ (6, 242, 2)
        ∷ (10, 242, 2)
        ∷ (15, 242, 2)
        ∷ (24, 242, 2)
        ∷ (31, 242, 2)
        ∷ (41, 242, 2)
        ∷ (56, 242, 3)
        ∷ (3, 243, 2)
        ∷ (6, 243, 2)
        ∷ (10, 243, 2)
        ∷ (15, 243, 2)
        ∷ (24, 243, 2)
        ∷ (31, 243, 2)
        ∷ (41, 243, 2)
        ∷ (56, 243, 3)
        ∷ [])
    ∷ ((3, 255, 2)
        ∷ (6, 255, 2)
        ∷ (10, 255, 2)
        ∷ (15, 255, 2)
        ∷ (24, 255, 2)
        ∷ (31, 255, 2)
        ∷ (41, 255, 2)
        ∷ (56, 255, 3)
        ∷ (2, 203, 2)
        ∷ (9, 203, 2)
        ∷ (23, 203, 2)
        ∷ (40, 203, 3)
        ∷ (2, 204, 2)
        ∷ (9, 204, 2)
        ∷ (23, 204, 2)
        ∷ (40, 204, 3)
        ∷ [])
    ∷ ((3, 203, 2)
        ∷ (6, 203, 2)
        ∷ (10, 203, 2)
        ∷ (15, 203, 2)
        ∷ (24, 203, 2)
        ∷ (31, 203, 2)
        ∷ (41, 203, 2)
        ∷ (56, 203, 3)
        ∷ (3, 204, 2)
        ∷ (6, 204, 2)
        ∷ (10, 204, 2)
        ∷ (15, 204, 2)
        ∷ (24, 204, 2)
        ∷ (31, 204, 2)
        ∷ (41, 204, 2)
        ∷ (56, 204, 3)
        ∷ [])
    ∷ ((211, 0, 0)
        ∷ (212, 0, 0)
        ∷ (214, 0, 0)
        ∷ (215, 0, 0)
        ∷ (218, 0, 0)
        ∷ (219, 0, 0)
        ∷ (221, 0, 0)
        ∷ (222, 0, 0)
        ∷ (226, 0, 0)
        ∷ (228, 0, 0)
        ∷ (232, 0, 0)
        ∷ (235, 0, 0)
        ∷ (240, 0, 0)
        ∷ (243, 0, 0)
        ∷ (247, 0, 0)
        ∷ (250, 0, 0)
        ∷ [])
    ∷ []
