-- ===== src/Hpack/Decoder.antt =====
-- pajamax/src/hpack_decoder.rs: of a header block, only `:path` and `grpc-encoding`.
pub mod Text
pub mod Total
use pajamax.Prelude.{
  ℕ, zero, suc, ◌+◌, ◌-◌, ◌<◌, bit_and, Bool, true, false, ◌||◌, Option, none, some, List, [], ◌∷◌,
  ◌++◌, Bytes, length, take, drop, get_elem?, ltb, leb, ◌==◌, if◌then◌else◌, bytes_eq,
}
use pajamax.Outcome.{Error, Outcome, ok, err, panic, stuck, invalid_hpack, no_path_set, ◌>>=◌}
use pajamax.Hpack.Int.{decode_int}
use pajamax.Huffman
use Text.{
  OutStr, plain, huffman, decode_string, eq_str, to_encoding, path_name, grpc_encoding_name,
  GrpcEncoding, identity, lookup_path,
}

-- `Representation`.
pub data Representation : Type 0 where
  indexed literal_with_indexing literal_without_indexing : Representation
  literal_never_indexed size_update : Representation

-- `Representation::load`.
unfoldable pub load : ℕ → Outcome Representation
load byte =
    if bit_and byte 0x80 == 0x80
    then ok indexed
    else if bit_and byte 0x40 == 0x40
    then ok literal_with_indexing
    else if bit_and byte 0xf0 == 0
    then ok literal_without_indexing
    else if bit_and byte 0xf0 == 0x10
    then ok literal_never_indexed
    else if bit_and byte 0xe0 == 0x20
    then ok size_update
    else err (invalid_hpack "invalid Representation")

-- `PathKind`.
pub data PathKind : Type 0 where
  cached : ℕ → PathKind
  new_path : Bytes → PathKind

-- `HeaderResult`.
pub record HeaderResult : Type 0 where
  pub path : PathKind
  pub encoding : GrpcEncoding

-- `DynamicTableEntry`.
pub record DynamicTableEntry : Type 0 where
  pub path_cache : Option ℕ
  pub encoding : Option GrpcEncoding

-- `Decoder`. The table's oldest entry comes first; a map is a list of pairs.
pub record Decoder : Type 0 where
  pub next_cache_index : ℕ
  pub dynamic_table : List DynamicTableEntry
  pub huffman_paths : List (Bytes × ℕ)
  pub plain_paths : List (Bytes × ℕ)

-- `Decoder::new`.
unfoldable pub new : Decoder
new = record { next_cache_index = 0; dynamic_table = []; huffman_paths = []; plain_paths = [] }

-- `push_dynamic_entry`.
unfoldable pub push_dynamic_entry : Option ℕ → Option GrpcEncoding → Decoder → Decoder
push_dynamic_entry path_cache encoding d = record d {
  dynamic_table = d.dynamic_table ++ (record { path_cache = path_cache; encoding = encoding }) ∷ [];
}

-- `HeaderName`.
pub data HeaderName : Type 0 where
  path grpc_encoding other : HeaderName

-- What `classify_table_index` says of a table entry.
unfoldable pub classify_entry : DynamicTableEntry → HeaderName
classify_entry e = elim e.path_cache [
  | some _ ↦ HeaderName.path
  | none ↦ elim e.encoding [ some _ ↦ HeaderName.grpc_encoding | none ↦ HeaderName.other ]
]

-- `dynamic_table[i]`, and the panic past its end.
unfoldable pub table_entry : List DynamicTableEntry → ℕ → Outcome DynamicTableEntry
table_entry table i = elim (get_elem? table i) [ none ↦ panic | some e ↦ ok e ]

-- `classify_table_index`. The subtraction panics on an index past the end of the table.
unfoldable pub classify_table_index : ℕ → List DynamicTableEntry → Outcome HeaderName
unfolding classify_entry table_entry
classify_table_index table_idx table =
    if leb table_idx 61
    then ok (if table_idx == 4 || table_idx == 5 then HeaderName.path else HeaderName.other)
    else if ltb (61 + length table) table_idx
    then panic
    else do e ← table_entry table (61 + length table - table_idx); ok (classify_entry e)

-- `HeaderMatch`.
pub data HeaderMatch : Type 0 where
  path_match : OutStr → HeaderMatch
  encoding_match : OutStr → HeaderMatch
  no_match : HeaderMatch

-- A literal whose name is written out, and one whose name is in a table.
unfoldable pub named_literal : Bytes → ℕ → Outcome (HeaderMatch × ℕ)
named_literal buf index_adv = do
  (name_str, name_adv) ← decode_string buf
  (value_str, value_adv) ← decode_string (drop name_adv buf)
  let adv = index_adv + name_adv + value_adv
  is_path ← eq_str name_str path_name
  if is_path then ok (path_match value_str, adv) else do
    is_encoding ← eq_str name_str grpc_encoding_name
    ok ((if is_encoding then encoding_match value_str else no_match), adv)

unfoldable pub match_of : HeaderName → OutStr → HeaderMatch
match_of HeaderName.path value = path_match value
match_of HeaderName.grpc_encoding value = encoding_match value
match_of HeaderName.other value = no_match

unfoldable pub indexed_literal : ℕ → Bytes → ℕ → List DynamicTableEntry → Outcome (HeaderMatch × ℕ)
unfolding match_of
indexed_literal table_idx buf index_adv table = do
  (value_str, value_adv) ← decode_string buf
  name ← classify_table_index table_idx table
  ok (match_of name value_str, index_adv + value_adv)

-- `decode_literal_header`.
unfoldable pub decode_literal_header :
    Bytes → Bool → List DynamicTableEntry → Outcome (HeaderMatch × ℕ)
decode_literal_header buf index table = do
  (table_idx, index_adv) ← decode_int buf (if index then 6 else 4)
  if table_idx == 0
      then named_literal (drop index_adv buf) index_adv
      else indexed_literal table_idx (drop index_adv buf) index_adv table

-- The variables of the loop of `find_path_and_encoding`. No path yet is `Err(NoPathSet)`.
pub record Found : Type 0 where
  pub decoder : Decoder
  pub find_path : Option PathKind
  pub encoding : GrpcEncoding

or_else {ℓ} : {A : Type ℓ} → Option A → A → A
or_else none d = d
or_else (some a) d = a

-- The four kinds of block. Each returns the loop's variables and the bytes that the block took.
unfoldable pub use_entry : DynamicTableEntry → Found → Found
unfolding or_else
use_entry e s = record s {
  find_path = elim e.path_cache [ some i ↦ some (cached i) | none ↦ s.find_path ];
  encoding = or_else e.encoding s.encoding;
}

unfoldable pub on_indexed : Bytes → Found → Outcome (Found × ℕ)
on_indexed buf s = do
  (index, adv) ← decode_int buf 7
  let table = s.decoder.dynamic_table
  if ltb 61 index
      then (if ltb (61 + length table) index
          then err (invalid_hpack "invalid dynamic table index")
          else do e ← table_entry table (61 + length table - index); ok (use_entry e s, adv))
      else ok (s, adv)

-- The path in plain bytes.
unfoldable pub path_bytes : OutStr → Outcome Bytes
path_bytes (plain p) = ok p
path_bytes (huffman p) = Huffman.decode p []

-- A literal that joins the table. A path takes the next cache index.
unfoldable pub with_indexing : HeaderMatch → Found → Outcome Found
unfolding push_dynamic_entry or_else
with_indexing (path_match value) s = do
  p ← path_bytes value
  let i = s.decoder.next_cache_index
  let d = record s.decoder { next_cache_index = i + 1 }
  ok (record s { decoder = push_dynamic_entry (some i) none d; find_path = some (new_path p) })
with_indexing (encoding_match value) s = do
  enc ← to_encoding value
  ok (record s {
    decoder = push_dynamic_entry none enc s.decoder;
    encoding = or_else enc s.encoding;
  })
with_indexing no_match s = ok (record s { decoder = push_dynamic_entry none none s.decoder })

unfoldable pub on_literal_with_indexing : Bytes → Found → Outcome (Found × ℕ)
on_literal_with_indexing buf s = do
  (header, adv) ← decode_literal_header buf true s.decoder.dynamic_table
  s' ← with_indexing header s
  ok (s', adv)

-- A literal that does not join the table. A path not seen before takes the next cache index.
unfoldable pub without_indexing : HeaderMatch → Found → Outcome Found
unfolding or_else
without_indexing (path_match (plain p)) s = elim (lookup_path p s.decoder.plain_paths) [
  | some i ↦ ok (record s { find_path = some (cached i) })
  | none ↦ ok (record s {
    decoder = record s.decoder {
      next_cache_index = s.decoder.next_cache_index + 1;
      plain_paths = (p, s.decoder.next_cache_index) ∷ s.decoder.plain_paths;
    };
    find_path = some (new_path p);
  })
]
without_indexing (path_match (huffman p)) s = elim (lookup_path p s.decoder.huffman_paths) [
  | some i ↦ ok (record s { find_path = some (cached i) })
  | none ↦ do
    text ← Huffman.decode p []
    ok (record s {
      decoder = record s.decoder {
        next_cache_index = s.decoder.next_cache_index + 1;
        huffman_paths = (p, s.decoder.next_cache_index) ∷ s.decoder.huffman_paths;
      };
      find_path = some (new_path text);
    })
]
without_indexing (encoding_match value) s = do
  enc ← to_encoding value
  ok (record s { encoding = or_else enc s.encoding })
without_indexing no_match s = ok s

unfoldable pub on_literal_without_indexing : Bytes → Found → Outcome (Found × ℕ)
on_literal_without_indexing buf s = do
  (header, adv) ← decode_literal_header buf false s.decoder.dynamic_table
  s' ← without_indexing header s
  ok (s', adv)

-- A size update reads its integer with a prefix of seven bits, as the source does.
unfoldable pub on_size_update : Bytes → Found → Outcome (Found × ℕ)
on_size_update buf s = do (_, adv) ← decode_int buf 7; ok (s, adv)

unfoldable pub on_block : Representation → Bytes → Found → Outcome (Found × ℕ)
on_block indexed = on_indexed
on_block literal_with_indexing = on_literal_with_indexing
on_block literal_without_indexing = on_literal_without_indexing
on_block literal_never_indexed = on_literal_without_indexing
on_block size_update = on_size_update

-- The loop, one block a round. Each block takes a byte, so the buffer's length is enough fuel.
unfoldable pub find_loop : ℕ → Bytes → Found → Outcome Found
find_loop fuel [] s = ok s
find_loop zero (b ∷ buf) s = stuck
find_loop (suc fuel) (b ∷ buf) s = do
  kind ← load b
  (s', adv) ← on_block kind (b ∷ buf) s
  find_loop fuel (drop adv (b ∷ buf)) s'

-- `find_path_and_encoding`: the decoder after the block, and the result.
unfoldable pub find_path_and_encoding : Bytes → Decoder → Outcome (Decoder × HeaderResult)
find_path_and_encoding buf d = do
  s ← find_loop (length buf) buf (record { decoder = d; find_path = none; encoding = identity })
  elim s.find_path [
    | none ↦ err no_path_set
    | some p ↦ ok (s.decoder, record { path = p; encoding = s.encoding })
  ]
