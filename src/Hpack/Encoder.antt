-- ===== src/Hpack/Encoder.antt =====
-- pajamax/src/hpack_encoder.rs: the headers of a response, and their dynamic table.
pub mod Peer
pub mod Strings
pub mod Fields
pub mod Sync
pub mod Nonzero
use pajamax.Prelude.{
  ℕ, zero, suc, ◌+◌, ◌-◌, ◌/◌, ◌%◌, Option, none, some, List, [], ◌∷◌, ◌++◌, Bytes, length, get_or,
  ltb, if◌then◌else◌,
}
use pajamax.Hpack.Int.{encode_int}

-- `Encoder`.
pub record Encoder : Type 0 where
  pub dynamic_table_size : ℕ
  pub rank_grpc_status_zero : Option ℕ
  pub rank_content_type : Option ℕ

-- `Encoder::new`.
unfoldable pub new : Encoder
new = record { dynamic_table_size = 0; rank_grpc_status_zero = none; rank_content_type = none }

-- The texts that are written.
abbrev pub grpc_status : Bytes
grpc_status = 0x67 ∷ 0x72 ∷ 0x70 ∷ 0x63 ∷ 0x2d ∷ 0x73 ∷ 0x74 ∷ 0x61 ∷ 0x74 ∷ 0x75 ∷ 0x73 ∷ []

abbrev pub zero_text : Bytes
zero_text = 0x30 ∷ []

abbrev pub content_type : Bytes
content_type =
    0x63 ∷ 0x6f ∷ 0x6e ∷ 0x74 ∷ 0x65 ∷ 0x6e ∷ 0x74 ∷ 0x2d ∷ 0x74 ∷ 0x79 ∷ 0x70 ∷ 0x65 ∷ []

abbrev pub application_grpc : Bytes
application_grpc =
    0x61 ∷ 0x70 ∷ 0x70 ∷ 0x6c ∷ 0x69 ∷ 0x63 ∷ 0x61 ∷ 0x74 ∷ 0x69 ∷ 0x6f ∷ 0x6e ∷ 0x2f ∷ 0x67 ∷ 0x72
    ∷ 0x70 ∷ 0x63 ∷ []

abbrev pub grpc_message : Bytes
grpc_message =
    0x67 ∷ 0x72 ∷ 0x70 ∷ 0x63 ∷ 0x2d ∷ 0x6d ∷ 0x65 ∷ 0x73 ∷ 0x73 ∷ 0x61 ∷ 0x67 ∷ 0x65 ∷ []

abbrev pub grpc_accept_encoding : Bytes
grpc_accept_encoding =
    0x67 ∷ 0x72 ∷ 0x70 ∷ 0x63 ∷ 0x2d ∷ 0x61 ∷ 0x63 ∷ 0x63 ∷ 0x65 ∷ 0x70 ∷ 0x74 ∷ 0x2d ∷ 0x65 ∷ 0x6e
    ∷ 0x63 ∷ 0x6f ∷ 0x64 ∷ 0x69 ∷ 0x6e ∷ 0x67 ∷ []

-- "gzip,deflate,zstd".
abbrev pub accepted : Bytes
accepted =
    0x67 ∷ 0x7a ∷ 0x69 ∷ 0x70 ∷ 0x2c ∷ 0x64 ∷ 0x65 ∷ 0x66 ∷ 0x6c ∷ 0x61 ∷ 0x74 ∷ 0x65 ∷ 0x2c ∷ 0x7a
    ∷ 0x73 ∷ 0x74 ∷ 0x64 ∷ []

-- `encode_str`.
unfoldable pub encode_str : Bytes → Bytes → Bytes
encode_str val dst = encode_int (length val) 7 0x00 dst ++ val

-- `encode_header`.
unfoldable pub encode_header : Bytes → Bytes → Bytes → Bytes
unfolding encode_str
encode_header name value dst = encode_str value (encode_str name (dst ++ 0 ∷ []))

-- `encode_with_indexed_name`.
unfoldable pub encode_with_indexed_name : ℕ → Bytes → Bytes → Bytes
unfolding encode_str
encode_with_indexed_name name value dst = encode_str value (encode_int name 4 0x00 dst)

-- `Encoder::dynamic_index`. A rank is never above the size, so the subtraction does not stop at 0.
unfoldable pub dynamic_index : Encoder → ℕ → ℕ
dynamic_index e rank = e.dynamic_table_size - rank + 62

-- `Encoder::encode_and_index_header`.
unfoldable pub encode_and_index_header : Bytes → Bytes → Encoder → Bytes → Encoder × Bytes
unfolding encode_str
encode_and_index_header name value e dst = (
  record e { dynamic_table_size = e.dynamic_table_size + 1 },
  encode_str value (encode_str name (encode_int 0 6 0x40 dst)),
)

-- `Encoder::encode_static_index` and `Encoder::encode_dynamic_index`.
unfoldable pub encode_static_index : ℕ → Bytes → Bytes
encode_static_index index dst = encode_int index 7 0x80 dst

unfoldable pub encode_dynamic_index : Encoder → ℕ → Bytes → Bytes
encode_dynamic_index e rank dst = encode_int (dynamic_index e rank) 7 0x80 dst

-- `Encoder::encode_status_200`.
unfoldable pub encode_status_200 : Bytes → Bytes
encode_status_200 dst = encode_static_index 8 dst

-- `Encoder::encode_grpc_status_zero`.
unfoldable pub encode_grpc_status_zero : Encoder → Bytes → Encoder × Bytes
encode_grpc_status_zero e dst = elim e.rank_grpc_status_zero [
  | some rank ↦ (e, encode_dynamic_index e rank dst)
  | none ↦
      let (e₁, out) = encode_and_index_header grpc_status zero_text e dst in
      (record e₁ { rank_grpc_status_zero = some e₁.dynamic_table_size }, out)
]

-- `Encoder::encode_content_type`.
unfoldable pub encode_content_type : Encoder → Bytes → Encoder × Bytes
encode_content_type e dst = elim e.rank_content_type [
  | some rank ↦ (e, encode_dynamic_index e rank dst)
  | none ↦
      let (e₁, out) = encode_and_index_header content_type application_grpc e dst in
      (record e₁ { rank_content_type = some e₁.dynamic_table_size }, out)
]

-- `format!("{}", code)`, and the entries of `CODES`, which are the same text: the digits of a
-- number. Twenty are enough for a `usize`.
unfoldable pub digits_of : ℕ → ℕ → Bytes → Bytes
digits_of zero n rest = rest
digits_of (suc rounds) n rest =
    let more = digits_of rounds (n / 10) ((48 + n % 10) ∷ rest) in
    if ltb n 10 then (48 + n % 10) ∷ rest else more

unfoldable pub code_str : ℕ → Bytes
code_str code = digits_of 20 code []

-- `Encoder::encode_grpc_status_nonzero`.
unfoldable pub encode_grpc_status_nonzero : Encoder → ℕ → Bytes → Bytes
encode_grpc_status_nonzero e code dst = elim e.rank_grpc_status_zero [
  | some rank ↦ encode_with_indexed_name (dynamic_index e rank) (code_str code) dst
  | none ↦ encode_header grpc_status (code_str code) dst
]

-- `Encoder::encode_grpc_message` and `Encoder::encode_grpc_accept_encoding`.
unfoldable pub encode_grpc_message : Bytes → Bytes → Bytes
encode_grpc_message msg dst = encode_header grpc_message msg dst

unfoldable pub encode_grpc_accept_encoding : Bytes → Bytes
encode_grpc_accept_encoding dst = encode_header grpc_accept_encoding accepted dst
