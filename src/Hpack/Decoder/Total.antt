-- ===== src/Hpack/Decoder/Total.antt =====
-- Reading a header block ends: every block takes at least one byte.
use pajamax.Prelude.{
  ℕ, zero, suc, ◌+◌, ◌-◌, ◌≤◌, ◌≢◌, arith, bit_and, true, false, Bool, Bool-cases, Option-cases,
  inl, inr, Option, none, List, [], ◌∷◌, Bytes, length, drop, length-drop, leb, ltb, ◌==◌,
  if◌then◌else◌, get_elem?,
}
use pajamax.Hpack.Int.{decode_int}
use pajamax.Hpack.Int.Bounds.{decode_int-Within}
use pajamax.Huffman
use pajamax.Huffman.Total.{decode-Safe, encode-Safe}
use pajamax.Hpack.Decoder.{
  Decoder, DynamicTableEntry, Representation, indexed, literal_with_indexing,
  literal_without_indexing, literal_never_indexed, size_update, HeaderMatch, path_match,
  encoding_match, no_match, Found, load, classify_table_index, table_entry, named_literal,
  indexed_literal, decode_literal_header, on_indexed, with_indexing, without_indexing,
  on_literal_with_indexing, path_bytes, on_literal_without_indexing, on_size_update, on_block,
  find_loop, find_path_and_encoding,
}
use pajamax.Hpack.Decoder.Text.{
  OutStr, plain, huffman, decode_string, eq_str, to_encoding, encoding_of, lookup_path, path_name,
  grpc_encoding_name, GrpcEncoding, identity,
}
use pajamax.Outcome.{
  Ends, Outcome, ok, err, panic, stuck, Safe, Safe-bind, Safe-mono, Safe-ne-stuck, ◌>>=◌,
}

-- An answer that comes with a count of bytes, at least one.
abbrev Takes {ℓ} : {A : Type ℓ} → Outcome (A × ℕ) → Type 0
Takes = Safe (λ r. 1 ≤ r.1)

decode_int-Takes : (buf : Bytes) (p : ℕ) → Takes (decode_int buf p)
decode_int-Takes buf p = Safe-mono _ _ (decode_int buf p) (λ r h. h.0) (decode_int-Within buf p)

decode_string-Takes : (buf : Bytes) → Takes (decode_string buf)
unfolding decode_string
decode_string-Takes [] = tt
decode_string-Takes (b ∷ rest) =
    Safe-bind (λ r. 1 ≤ r.1) _ (decode_int (b ∷ rest) 7) _ (decode_int-Takes (b ∷ rest) 7)
      λ (len, adv) h. elim (Bool-cases (ltb (length (b ∷ rest)) adv)) [
        | inl e ↦ rw (e, Safe) tt
        | inr e ↦ elim (Bool-cases (ltb (length (b ∷ rest) - adv) len)) [
          | inl e' ↦ rw (e, e', Safe) tt
          | inr e' ↦ rw (e, e', Safe) (omega arith)
        ]
      ]

eq_str-Ends : (s : OutStr) (t : Bytes) → Ends (eq_str s t)
unfolding eq_str
eq_str-Ends (plain out) t = tt
eq_str-Ends (huffman out) t = elim (Bool-cases (ltb (length t) (length out))) [
  | inl e ↦ rw (e, Safe) tt
  | inr e ↦
      rw (e, Safe)
        (Safe-bind (λ _. Unit {0}) _ (Huffman.encode t []) _ (encode-Safe t []) (λ _ _. tt))
]

to_encoding-Ends : (s : OutStr) → Ends (to_encoding s)
unfolding to_encoding
to_encoding-Ends (plain out) = tt
to_encoding-Ends (huffman out) = of_text (Huffman.decode out []) (decode-Safe out [])
  where
    of_text :
        (m : Outcome Bytes)
        → Ends m
        → Ends (elim m as (λ _. Outcome (Option GrpcEncoding)) [
          | ok s ↦ ok (encoding_of s)
          | err _ ↦ ok none
          | panic ↦ panic
          | stuck ↦ stuck
        ])
    of_text (ok s) h = tt
    of_text (err e) h = tt
    of_text panic h = tt
    of_text stuck h = h

table_entry-Ends : (table : List DynamicTableEntry) (i : ℕ) → Ends (table_entry table i)
unfolding table_entry
table_entry-Ends table i = elim (Option-cases (get_elem? table i)) [
  | inl e ↦ rw (e, Safe) tt
  | inr (a, e) ↦ rw (e, Safe) tt
]

classify_table_index-Ends :
    (table_idx : ℕ) (table : List DynamicTableEntry) → Ends (classify_table_index table_idx table)
unfolding classify_table_index
classify_table_index-Ends table_idx table = elim (Bool-cases (leb table_idx 61)) [
  | inl e ↦ rw (e, Safe) tt
  | inr e ↦ elim (Bool-cases (ltb (61 + length table) table_idx)) [
    | inl e' ↦ rw (e, e', Safe) tt
    | inr e' ↦
        rw (e, e')
          (Safe-bind (λ _. Unit {0}) _ (table_entry table (61 + length table - table_idx)) _
            (table_entry-Ends table (61 + length table - table_idx)) (λ _ _. tt))
  ]
]

named_literal-Takes :
    (buf : Bytes) (index_adv : ℕ) → 1 ≤ index_adv → Takes (named_literal buf index_adv)
unfolding named_literal
named_literal-Takes buf index_adv h =
    Safe-bind (λ r. 1 ≤ r.1) _ (decode_string buf) _ (decode_string-Takes buf)
      λ (name_str, name_adv) h₁.
        Safe-bind (λ r. 1 ≤ r.1) _ (decode_string (drop name_adv buf)) _
          (decode_string-Takes (drop name_adv buf))
          λ (value_str, value_adv) h₂.
            Safe-bind (λ _. Unit {0}) _ (eq_str name_str path_name) _
              (eq_str-Ends name_str path_name)
              λ is_path _.
                elim is_path
                  as (λ k. Takes (
                    if k
                    then ok (path_match value_str, index_adv + name_adv + value_adv)
                    else (eq_str name_str grpc_encoding_name >>= λ is_encoding. ok (
                      (if is_encoding then encoding_match value_str else no_match),
                      index_adv + name_adv + value_adv,
                    )))) [
                      | true ↦ omega arith
                      | false ↦
                          Safe-bind (λ _. Unit {0}) _ (eq_str name_str grpc_encoding_name) _
                            (eq_str-Ends name_str grpc_encoding_name) (λ _ _. omega arith)
                    ]

indexed_literal-Takes :
    (table_idx : ℕ) (buf : Bytes) (index_adv : ℕ) (table : List DynamicTableEntry)
    → 1 ≤ index_adv
    → Takes (indexed_literal table_idx buf index_adv table)
unfolding indexed_literal
indexed_literal-Takes table_idx buf index_adv table h =
    Safe-bind (λ r. 1 ≤ r.1) _ (decode_string buf) _ (decode_string-Takes buf)
      λ (value_str, value_adv) h₁.
        Safe-bind (λ _. Unit {0}) _ (classify_table_index table_idx table) _
          (classify_table_index-Ends table_idx table) λ name _. omega arith

decode_literal_header-Takes :
    (buf : Bytes) (index : Bool) (table : List DynamicTableEntry)
    → Takes (decode_literal_header buf index table)
unfolding decode_literal_header
decode_literal_header-Takes buf index table =
    Safe-bind (λ r. 1 ≤ r.1) _ (decode_int buf (if index then 6 else 4)) _
      (decode_int-Takes buf (if index then 6 else 4))
      λ (table_idx, index_adv) h. elim (Bool-cases (table_idx == 0)) [
        | inl e ↦ rw e (named_literal-Takes (drop index_adv buf) index_adv h)
        | inr e ↦ rw e (indexed_literal-Takes table_idx (drop index_adv buf) index_adv table h)
      ]

path_bytes-Ends : (s : OutStr) → Ends (path_bytes s)
unfolding path_bytes
path_bytes-Ends (plain p) = tt
path_bytes-Ends (huffman p) = decode-Safe p []

with_indexing-Ends : (m : HeaderMatch) (s : Found) → Ends (with_indexing m s)
unfolding with_indexing
with_indexing-Ends (path_match v) s =
    Safe-bind (λ _. Unit {0}) _ (path_bytes v) _ (path_bytes-Ends v) (λ _ _. tt)
with_indexing-Ends (encoding_match v) s =
    Safe-bind (λ _. Unit {0}) _ (to_encoding v) _ (to_encoding-Ends v) (λ _ _. tt)
with_indexing-Ends no_match s = tt

without_indexing-Ends : (m : HeaderMatch) (s : Found) → Ends (without_indexing m s)
unfolding without_indexing
without_indexing-Ends (path_match (plain p)) s =
    elim (Option-cases (lookup_path p s.decoder.plain_paths)) [
      | inl e ↦ rw (e, Safe) tt
      | inr (i, e) ↦ rw (e, Safe) tt
    ]
without_indexing-Ends (path_match (huffman p)) s =
    elim (Option-cases (lookup_path p s.decoder.huffman_paths)) [
      | inl e ↦
          rw (e, without_indexing)
            (Safe-bind (λ _. Unit {0}) _ (Huffman.decode p []) _ (decode-Safe p []) (λ _ _. tt))
      | inr (i, e) ↦ rw (e, Safe) tt
    ]
without_indexing-Ends (encoding_match v) s =
    Safe-bind (λ _. Unit {0}) _ (to_encoding v) _ (to_encoding-Ends v) (λ _ _. tt)
without_indexing-Ends no_match s = tt

on_indexed-Takes : (buf : Bytes) (s : Found) → Takes (on_indexed buf s)
unfolding on_indexed
on_indexed-Takes buf s =
    Safe-bind (λ r. 1 ≤ r.1) _ (decode_int buf 7) _ (decode_int-Takes buf 7)
      λ (index, adv) h. elim (Bool-cases (ltb 61 index)) [
        | inr e ↦ rw (e, Safe) h
        | inl e ↦ elim (Bool-cases (ltb (61 + length s.decoder.dynamic_table) index)) [
          | inl e' ↦ rw (e, e', Safe) tt
          | inr e' ↦
              rw (e, e')
                (Safe-bind (λ _. Unit {0}) _
                  (table_entry s.decoder.dynamic_table
                    (61 + length s.decoder.dynamic_table - index))
                  _
                  (table_entry-Ends s.decoder.dynamic_table
                    (61 + length s.decoder.dynamic_table - index))
                  (λ _ _. h))
        ]
      ]

unindexed-Takes : (buf : Bytes) (s : Found) → Takes (on_literal_without_indexing buf s)
unfolding on_literal_without_indexing
unindexed-Takes buf s =
    Safe-bind (λ r. 1 ≤ r.1) _ (decode_literal_header buf false s.decoder.dynamic_table) _
      (decode_literal_header-Takes buf false s.decoder.dynamic_table)
      λ (m, adv) h.
        Safe-bind (λ _. Unit {0}) _ (without_indexing m s) _ (without_indexing-Ends m s) (λ _ _. h)

on_block-Takes : (kind : Representation) (buf : Bytes) (s : Found) → Takes (on_block kind buf s)
unfolding on_block on_literal_with_indexing on_literal_without_indexing on_size_update
on_block-Takes indexed buf s = on_indexed-Takes buf s
on_block-Takes literal_with_indexing buf s =
    Safe-bind (λ r. 1 ≤ r.1) _ (decode_literal_header buf true s.decoder.dynamic_table) _
      (decode_literal_header-Takes buf true s.decoder.dynamic_table)
      λ (m, adv) h.
        Safe-bind (λ _. Unit {0}) _ (with_indexing m s) _ (with_indexing-Ends m s) (λ _ _. h)
on_block-Takes literal_without_indexing buf s = unindexed-Takes buf s
on_block-Takes literal_never_indexed buf s = unindexed-Takes buf s
on_block-Takes size_update buf s =
    Safe-bind (λ r. 1 ≤ r.1) _ (decode_int buf 7) _ (decode_int-Takes buf 7) (λ _ h. h)

load-Ends : (b : ℕ) → Ends (load b)
unfolding load
load-Ends b = test (bit_and b 0x80 == 0x80) (ok indexed) _ tt (
    test (bit_and b 0x40 == 0x40) (ok literal_with_indexing) _ tt (
      test (bit_and b 0xf0 == 0) (ok literal_without_indexing) _ tt (
        test (bit_and b 0xf0 == 0x10) (ok literal_never_indexed) _ tt
          (test (bit_and b 0xe0 == 0x20) (ok size_update) _ tt tt))))
  where
    test : (k : Bool) (m n : Outcome Representation) → Ends m → Ends n → Ends (if k then m else n)
    test true m n h i = h
    test false m n h i = i

find_loop-Ends :
    (fuel : ℕ) (buf : Bytes) (s : Found) → length buf ≤ fuel → Ends (find_loop fuel buf s)
unfolding find_loop
find_loop-Ends fuel [] s h = tt
find_loop-Ends zero (b ∷ buf) s h = absurd (omega arith)
find_loop-Ends (suc fuel) (b ∷ buf) s h =
    Safe-bind (λ _. Unit {0}) _ (load b) _ (load-Ends b)
      λ kind _.
        Safe-bind (λ r. 1 ≤ r.1) _ (on_block kind (b ∷ buf) s) _ (on_block-Takes kind (b ∷ buf) s)
          λ (s', adv) h₁.
            find_loop-Ends fuel (drop adv (b ∷ buf)) s' (omega (arith, length-drop adv (b ∷ buf)))

-- Reading a header block ends: for all bytes and every decoder the loop has enough fuel.
pub find_path_and_encoding_ends : (buf : Bytes) (d : Decoder) → find_path_and_encoding buf d ≢ stuck
unfolding find_path_and_encoding
find_path_and_encoding_ends buf d =
    Safe-ne-stuck (λ _. Unit {0}) _
      (Safe-bind (λ _. Unit {0}) _
        (find_loop (length buf) buf (record { decoder = d; find_path = none; encoding = identity }))
        _
        (find_loop-Ends (length buf) buf
          (record { decoder = d; find_path = none; encoding = identity }) (omega arith))
        (λ s _. elim (Option-cases s.find_path) [
          | inl e ↦ rw (e, Safe) tt
          | inr (p, e) ↦ rw (e, Safe) tt
        ]))
