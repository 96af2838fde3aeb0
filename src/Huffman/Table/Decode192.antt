-- ===== src/Huffman/Table/Decode192.antt =====
-- pajamax/src/huffman/table.rs, `DECODE_TABLE`: states 192 to 199, as (next, byte, flags).
use pajamax.Prelude.{ℕ, List, [], ◌∷◌}

abbrev pub states_192 : List (List (ℕ × ℕ × ℕ))
states_192 =
    ((1, 192, 2)
      ∷ (22, 192, 3)
      ∷ (1, 193, 2)
      ∷ (22, 193, 3)
      ∷ (1, 200, 2)
      ∷ (22, 200, 3)
      ∷ (1, 201, 2)
      ∷ (22, 201, 3)
      ∷ (1, 202, 2)
      ∷ (22, 202, 3)
      ∷ (1, 205, 2)
      ∷ (22, 205, 3)
      ∷ (1, 210, 2)
      ∷ (22, 210, 3)
      ∷ (1, 213, 2)
      ∷ (22, 213, 3)
      ∷ [])
    ∷ ((2, 192, 2)
        ∷ (9, 192, 2)
        ∷ (23, 192, 2)
        ∷ (40, 192, 3)
        ∷ (2, 193, 2)
        ∷ (9, 193, 2)
        ∷ (23, 193, 2)
        ∷ (40, 193, 3)
        ∷ (2, 200, 2)
        ∷ (9, 200, 2)
        ∷ (23, 200, 2)
        ∷ (40, 200, 3)
        ∷ (2, 201, 2)
        ∷ (9, 201, 2)
        ∷ (23, 201, 2)
        ∷ (40, 201, 3)
        ∷ [])
    ∷ ((3, 192, 2)
        ∷ (6, 192, 2)
        ∷ (10, 192, 2)
        ∷ (15, 192, 2)
        ∷ (24, 192, 2)
        ∷ (31, 192, 2)
        ∷ (41, 192, 2)
        ∷ (56, 192, 3)
        ∷ (3, 193, 2)
        ∷ (6, 193, 2)
        ∷ (10, 193, 2)
        ∷ (15, 193, 2)
        ∷ (24, 193, 2)
        ∷ (31, 193, 2)
        ∷ (41, 193, 2)
        ∷ (56, 193, 3)
        ∷ [])
    ∷ ((3, 200, 2)
        ∷ (6, 200, 2)
        ∷ (10, 200, 2)
        ∷ (15, 200, 2)
        ∷ (24, 200, 2)
        ∷ (31, 200, 2)
        ∷ (41, 200, 2)
        ∷ (56, 200, 3)
        ∷ (3, 201, 2)
        ∷ (6, 201, 2)
        ∷ (10, 201, 2)
        ∷ (15, 201, 2)
        ∷ (24, 201, 2)
        ∷ (31, 201, 2)
        ∷ (41, 201, 2)
        ∷ (56, 201, 3)
        ∷ [])
    ∷ ((2, 202, 2)
        ∷ (9, 202, 2)
        ∷ (23, 202, 2)
        ∷ (40, 202, 3)
        ∷ (2, 205, 2)
        ∷ (9, 205, 2)
        ∷ (23, 205, 2)
        ∷ (40, 205, 3)
        ∷ (2, 210, 2)
        ∷ (9, 210, 2)
        ∷ (23, 210, 2)
        ∷ (40, 210, 3)
        ∷ (2, 213, 2)
        ∷ (9, 213, 2)
        ∷ (23, 213, 2)
        ∷ (40, 213, 3)
        ∷ [])
    ∷ ((3, 202, 2)
        ∷ (6, 202, 2)
        ∷ (10, 202, 2)
        ∷ (15, 202, 2)
        ∷ (24, 202, 2)
        ∷ (31, 202, 2)
        ∷ (41, 202, 2)
        ∷ (56, 202, 3)
        ∷ (3, 205, 2)
        ∷ (6, 205, 2)
        ∷ (10, 205, 2)
        ∷ (15, 205, 2)
        ∷ (24, 205, 2)
        ∷ (31, 205, 2)
        ∷ (41, 205, 2)
        ∷ (56, 205, 3)
        ∷ [])
    ∷ ((3, 210, 2)
        ∷ (6, 210, 2)
        ∷ (10, 210, 2)
        ∷ (15, 210, 2)
        ∷ (24, 210, 2)
        ∷ (31, 210, 2)
        ∷ (41, 210, 2)
        ∷ (56, 210, 3)
        ∷ (3, 213, 2)
        ∷ (6, 213, 2)
        ∷ (10, 213, 2)
        ∷ (15, 213, 2)
        ∷ (24, 213, 2)
        ∷ (31, 213, 2)
        ∷ (41, 213, 2)
        ∷ (56, 213, 3)
        ∷ [])
    ∷ ((1, 218, 2)
        ∷ (22, 218, 3)
        ∷ (1, 219, 2)
        ∷ (22, 219, 3)
        ∷ (1, 238, 2)
        ∷ (22, 238, 3)
        ∷ (1, 240, 2)
        ∷ (22, 240, 3)
        ∷ (1, 242, 2)
        ∷ (22, 242, 3)
        ∷ (1, 243, 2)
        ∷ (22, 243, 3)
        ∷ (1, 255, 2)
        ∷ (22, 255, 3)
        ∷ (0, 203, 2)
        ∷ (0, 204, 2)
        ∷ [])
    ∷ []
