-- ===== src/Hpack/Encoder/Fields.antt =====
-- Each header that the encoder writes is one field to a peer whose table the encoder knows.
use pajamax.Prelude.{
  ℕ, ◌^◌, ◌≤◌, ◌<◌, ◌≡◌, refl, arith, true, false, [], ◌∷◌, ◌++◌, Bytes, length, drop-append_self,
  leb, ltb, ◌==◌, append_assoc,
}
use pajamax.Outcome.{ok}
use pajamax.Hpack.Int.{encode_int, decode_int}
use pajamax.Hpack.Int.RoundTrip.{encode_int-append}
use pajamax.Hpack.Encoder.{
  Encoder, encode_str, encode_header, encode_with_indexed_name, encode_and_index_header,
}
use pajamax.Hpack.Encoder.Peer.{
  Field, Table, first_byte, peer_lookup, peer_name, peer_literal, peer_field,
}
use pajamax.Hpack.Encoder.Strings.{
  first-index, first-plain, read-int, read-literal, encode_str-append, peer_str-encode_str,
}

-- An indexed field.
pub field-index :
    (table : Table) (index : ℕ) (f : Field) (rest : Bytes)
    → index < 2 ^ 28
    → peer_lookup table index ≡ ok f
    → peer_field table (encode_int index 7 0x80 [] ++ rest) ≡ ok (f, table, rest)
unfolding peer_field
field-index table index f rest h e =
    let high : leb 128 (first_byte (encode_int index 7 0x80 [] ++ rest)) ≡ true =
      ground (arith, first-index index rest) in
    rw (
      high,
      read-int index 7 0x80 rest (omega arith) (omega arith) (omega arith) refl h,
      e,
      drop-append_self (encode_int index 7 0x80 []) rest,
    )

-- What `encode_header` writes, and the field that it is.
pub encode_header_lem :
    (name value dst : Bytes)
    → encode_header name value dst ≡ dst ++ (0 ∷ (encode_str name [] ++ encode_str value []))
unfolding encode_header
encode_header_lem name value dst =
    rw
      (
        encode_str-append value (encode_str name (dst ++ 0 ∷ [])),
        encode_str-append name (dst ++ 0 ∷ []),
      )
      (simp append_assoc)

pub field-header :
    (table : Table) (name value rest : Bytes)
    → length name < 2 ^ 28
    → length value < 2 ^ 28
    → peer_field table ((0 ∷ (encode_str name [] ++ encode_str value [])) ++ rest)
      ≡ ok ((name, value), table, rest)
unfolding peer_field first_byte
field-header table name value rest hn hv = rw (
  append_assoc (encode_str name []) (encode_str value []) rest,
  read-literal table 4 0 name value rest (unfold decode_int in refl) hn hv,
)

-- What `encode_and_index_header` writes, and the field that joins the peer's table.
pub encode_and_index_header_lem :
    (name value : Bytes) (e : Encoder) (dst : Bytes)
    → (encode_and_index_header name value e dst).1
      ≡ dst ++ (0x40 ∷ (encode_str name [] ++ encode_str value []))
unfolding encode_and_index_header encode_int
encode_and_index_header_lem name value e dst =
    rw
      (
        encode_str-append value (encode_str name (dst ++ 0x40 ∷ [])),
        encode_str-append name (dst ++ 0x40 ∷ []),
      )
      (simp append_assoc)

pub field-and_index :
    (table : Table) (name value rest : Bytes)
    → length name < 2 ^ 28
    → length value < 2 ^ 28
    → peer_field table ((0x40 ∷ (encode_str name [] ++ encode_str value [])) ++ rest)
      ≡ ok ((name, value), (name, value) ∷ table, rest)
unfolding peer_field first_byte
field-and_index table name value rest hn hv = rw (
  append_assoc (encode_str name []) (encode_str value []) rest,
  read-literal table 6 0x40 name value rest (unfold decode_int in refl) hn hv,
)

-- A literal whose name is in the dynamic table.
pub encode_with_indexed_name_lem :
    (index : ℕ) (value dst : Bytes)
    → encode_with_indexed_name index value dst
      ≡ dst ++ (encode_int index 4 0 [] ++ encode_str value [])
unfolding encode_with_indexed_name
encode_with_indexed_name_lem index value dst =
    rw (encode_str-append value (encode_int index 4 0 dst), encode_int-append index 4 0 dst)
      (append_assoc dst _ _)

pub field-indexed_name :
    (table : Table) (index : ℕ) (f : Field) (value rest : Bytes)
    → 1 ≤ index
    → index < 2 ^ 28
    → peer_lookup table index ≡ ok f
    → length value < 2 ^ 28
    → peer_field table ((encode_int index 4 0 [] ++ encode_str value []) ++ rest)
      ≡ ok ((f.0, value), table, rest)
unfolding peer_field peer_literal peer_name
field-indexed_name table index f value rest h₁ h₂ e hv =
    let tail = encode_str value [] ++ rest in
    let low = first-plain index 4 tail (omega arith) (omega arith) in
    let a : leb 128 (first_byte (encode_int index 4 0 [] ++ tail)) ≡ false = ground (arith, low) in
    let b : leb 64 (first_byte (encode_int index 4 0 [] ++ tail)) ≡ false = ground (arith, low) in
    let c : ltb (first_byte (encode_int index 4 0 [] ++ tail)) 16 ≡ true = ground (arith, low) in
    let d : (index == 0) ≡ false = ground arith in
    rw (
      append_assoc (encode_int index 4 0 []) (encode_str value []) rest,
      a,
      b,
      c,
      read-int index 4 0 tail (omega arith) (omega arith) (omega arith) refl h₂,
      d,
      e,
      drop-append_self (encode_int index 4 0 []) tail,
      peer_str-encode_str value rest hv,
    )
