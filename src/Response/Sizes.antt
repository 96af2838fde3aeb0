-- ===== src/Response/Sizes.antt =====
-- The header blocks of a response are short.
use pajamax.Prelude.{
  ℕ, zero, suc, ◌+◌, ◌-◌, ◌/◌, ◌^◌, ◌≤◌, arith, Bool-cases, Option-cases, inl, inr, [], ◌++◌, Bytes,
  length, length-append, leb,
}
use pajamax.Hpack.Int.{encode_int, encode_int_one_byte, encode_tail}
use pajamax.Hpack.Encoder.{
  Encoder, encode_str, encode_dynamic_index, dynamic_index, encode_content_type,
  encode_grpc_status_zero, encode_grpc_status_nonzero, code_str, grpc_status, zero_text,
  content_type, application_grpc, grpc_accept_encoding, accepted, grpc_message,
}
use pajamax.Hpack.Encoder.Fields.{
  encode_header_lem, encode_and_index_header_lem, encode_with_indexed_name_lem,
}
use pajamax.Hpack.Encoder.Nonzero.{length-code_str}
use pajamax.Response.{Status, code_number, reply_headers, status_headers}
use pajamax.Response.Blocks.{reply_headers_lem, status_headers_lem, reply_bytes, written}

length-encode_tail : (rounds v : ℕ) → length (encode_tail rounds v) ≤ suc rounds
unfolding encode_tail
length-encode_tail zero v = omega arith
length-encode_tail (suc rounds) v = elim (Bool-cases (leb 128 v)) [
  | inl e ↦ rw e (omega (arith, length-encode_tail rounds (v / 128)))
  | inr e ↦ rw e (omega arith)
]

length-encode_int : (v p first : ℕ) → length (encode_int v p first []) ≤ 12
unfolding encode_int
length-encode_int v p first = elim (Bool-cases (encode_int_one_byte v p)) [
  | inl e ↦ rw (e, encode_int) (omega arith)
  | inr e ↦ rw (e, encode_int) (omega (arith, length-encode_tail 10 (v - (2 ^ p - 1))))
]

length-encode_str : (val : Bytes) → length (encode_str val []) ≤ 12 + length val
unfolding encode_str
length-encode_str val =
    omega (
      arith,
      length-append (encode_int (length val) 7 0 []) val,
      length-encode_int (length val) 7 0,
    )

length-two :
    (name value : Bytes)
    → length (encode_str name [] ++ encode_str value []) ≤ 24 + length name + length value
length-two name value = omega (
  arith,
  length-append (encode_str name []) (encode_str value []),
  length-encode_str name,
  length-encode_str value,
)

length-content_type : (e : Encoder) → length (encode_content_type e []).1 ≤ 60
unfolding encode_content_type encode_dynamic_index
length-content_type e = elim (Option-cases e.rank_content_type) [
  | inl new ↦
      rw (new, encode_content_type, encode_and_index_header_lem content_type application_grpc e [])
        (omega (arith, length-two content_type application_grpc))
  | inr (rank, old) ↦
      rw (old, encode_content_type) (omega (arith, length-encode_int (dynamic_index e rank) 7 0x80))
]

pub length-grpc_status_zero : (e : Encoder) → length (encode_grpc_status_zero e []).1 ≤ 60
unfolding encode_grpc_status_zero encode_dynamic_index
length-grpc_status_zero e = elim (Option-cases e.rank_grpc_status_zero) [
  | inl new ↦
      rw (new, encode_grpc_status_zero, encode_and_index_header_lem grpc_status zero_text e [])
        (omega (arith, length-two grpc_status zero_text))
  | inr (rank, old) ↦
      rw (old, encode_grpc_status_zero)
        (omega (arith, length-encode_int (dynamic_index e rank) 7 0x80))
]

length-reply_bytes : (e : Encoder) → length (reply_bytes e) ≤ 150
length-reply_bytes e =
    let ct = (encode_content_type e []).1 in
    let acc = written grpc_accept_encoding accepted in
    omega (
      arith,
      length-append (encode_int 8 7 0x80 []) (ct ++ acc),
      length-append ct acc,
      length-encode_int 8 7 0x80,
      length-content_type e,
      length-two grpc_accept_encoding accepted,
    )

pub length-reply_headers : (e : Encoder) → length (reply_headers e []).1 ≤ 150
length-reply_headers e = rw (reply_headers_lem e []) (length-reply_bytes e)

length-nonzero : (e : Encoder) (code : ℕ) → length (encode_grpc_status_nonzero e code []) ≤ 80
unfolding encode_grpc_status_nonzero
length-nonzero e code = elim (Option-cases e.rank_grpc_status_zero) [
  | inl new ↦
      rw (new, encode_grpc_status_nonzero, encode_header_lem grpc_status (code_str code) [])
        (omega (arith, length-two grpc_status (code_str code), length-code_str code))
  | inr (rank, old) ↦
      rw
        (
          old,
          encode_grpc_status_nonzero,
          encode_with_indexed_name_lem (dynamic_index e rank) (code_str code) [],
        )
        (omega (
          arith,
          length-append (encode_int (dynamic_index e rank) 4 0 []) (encode_str (code_str code) []),
          length-encode_int (dynamic_index e rank) 4 0,
          length-encode_str (code_str code),
          length-code_str code,
        ))
]

pub length-status_headers :
    (e : Encoder) (status : Status)
    → length (status_headers e status []).1 ≤ 300 + length status.message
length-status_headers e status =
    let code =
      encode_grpc_status_nonzero (encode_content_type e []).0 (code_number status.code) [] in
    let msg = written grpc_message status.message in
    rw (status_headers_lem e status []) (
      omega (
        arith,
        length-append (reply_bytes e) (code ++ msg),
        length-append code msg,
        length-reply_bytes e,
        length-nonzero (encode_content_type e []).0 (code_number status.code),
        length-two grpc_message status.message,
      ))
