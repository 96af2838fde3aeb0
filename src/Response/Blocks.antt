-- ===== src/Response/Blocks.antt =====
-- The header blocks of a response, read by the peer.
use pajamax.Prelude.{
  ℕ, suc, ◌^◌, ◌<◌, ◌≡◌, refl, arith, List, [], ◌∷◌, ◌++◌, Bytes, length, append_assoc,
}
use pajamax.Outcome.{ok}
use pajamax.Hpack.Int.{encode_int}
use pajamax.Hpack.Int.RoundTrip.{encode_int-append}
use pajamax.Hpack.Encoder.{
  Encoder, encode_str, encode_status_200, encode_static_index, encode_content_type,
  encode_grpc_status_zero, encode_grpc_status_nonzero, encode_grpc_message,
  encode_grpc_accept_encoding, code_str, grpc_status, zero_text, content_type, application_grpc,
  grpc_message, grpc_accept_encoding, accepted,
}
use pajamax.Hpack.Encoder.Peer.{
  Field, Table, status_200, Synced, peer_lookup, peer_field, peer_fields,
}
use pajamax.Hpack.Encoder.Fields.{field-index, encode_header_lem, field-header}
use pajamax.Hpack.Encoder.Sync.{content_type-Synced, content_type-append, grpc_status_zero-Synced}
use pajamax.Hpack.Encoder.Nonzero.{grpc_status_nonzero-append, field-grpc_status_nonzero}
use pajamax.Response.{Status, code_number, reply_headers, status_headers}

-- A header that is written out.
abbrev pub written : Bytes → Bytes → Bytes
written name value = 0 ∷ (encode_str name [] ++ encode_str value [])

abbrev pub reply_bytes : Encoder → Bytes
reply_bytes e =
    encode_int 8 7 0x80 []
    ++ ((encode_content_type e []).1 ++ written grpc_accept_encoding accepted)

pub reply_headers_lem :
    (e : Encoder) (dst : Bytes)
    → reply_headers e dst ≡ ((encode_content_type e []).0, dst ++ reply_bytes e)
unfolding reply_headers encode_status_200 encode_static_index encode_grpc_accept_encoding
reply_headers_lem e dst =
    rw
      (
        content_type-append e (encode_int 8 7 0x80 dst),
        encode_header_lem grpc_accept_encoding accepted
            (encode_int 8 7 0x80 dst ++ (encode_content_type e []).1),
        encode_int-append 8 7 0x80 dst,
      )
      (simp append_assoc)

pub reply_headers-append :
    (e : Encoder) (dst : Bytes)
    → reply_headers e dst ≡ ((reply_headers e []).0, dst ++ (reply_headers e []).1)
reply_headers-append e dst = rw (reply_headers_lem e dst, reply_headers_lem e []) refl

-- One field, and those behind it.
fields_cons :
    (n : ℕ) (table table₁ table₂ : Table) (buf buf₁ buf₂ : Bytes) (f : Field) (fs : List Field)
    → peer_field table buf ≡ ok (f, table₁, buf₁)
    → peer_fields n table₁ buf₁ ≡ ok (fs, table₂, buf₂)
    → peer_fields (suc n) table buf ≡ ok (f ∷ fs, table₂, buf₂)
unfolding peer_fields
fields_cons n table table₁ table₂ buf buf₁ buf₂ f fs e es = rw (e, es) refl

fields_nil : (table : Table) (buf : Bytes) → peer_fields 0 table buf ≡ ok ([], table, buf)
unfolding peer_fields
fields_nil table buf = refl

status_lookup : (table : Table) → peer_lookup table 8 ≡ ok status_200
unfolding peer_lookup
status_lookup table = refl

-- The fields that a reply starts with.
abbrev pub reply_fields : List Field
reply_fields = status_200 ∷ (content_type, application_grpc) ∷ (grpc_accept_encoding, accepted) ∷ []

reply_step :
    (n : ℕ) (e : Encoder) (table table' table₂ : Table) (rest buf₂ : Bytes) (fs : List Field)
    → ((rest : Bytes)
        → peer_field table ((encode_content_type e []).1 ++ rest)
          ≡ ok ((content_type, application_grpc), table', rest))
    → peer_fields n table' rest ≡ ok (fs, table₂, buf₂)
    → peer_fields (suc (suc (suc n))) table (reply_bytes e ++ rest)
      ≡ ok (reply_fields ++ fs, table₂, buf₂)
reply_step n e table table' table₂ rest buf₂ fs read es =
    let ct = (encode_content_type e []).1 in
    let acc = written grpc_accept_encoding accepted in
    rw (append_assoc (encode_int 8 7 0x80 []) (ct ++ acc) rest, append_assoc ct acc rest)
      (fields_cons (suc (suc n)) table table table₂ _ (ct ++ (acc ++ rest)) buf₂ status_200 _
        (field-index table 8 status_200 (ct ++ (acc ++ rest)) (omega arith) (status_lookup table))
        (fields_cons (suc n) table table' table₂ _ (acc ++ rest) buf₂ _ _ (read (acc ++ rest)) (
          fields_cons n table' table' table₂ _ rest buf₂ _ fs
            (field-header table' grpc_accept_encoding accepted rest (omega arith) (omega arith))
            es)))

-- A peer in step reads the headers of a reply as `:status`, `content-type` and
-- `grpc-accept-encoding`, whatever follows them, and is in step after them.
pub reply_headers_read :
    (e : Encoder) (table : Table)
    → Synced e table
    → (table' : Table) × Synced (reply_headers e []).0 table'
      × ((rest : Bytes)
          → peer_fields 3 table ((reply_headers e []).1 ++ rest) ≡ ok (reply_fields, table', rest))
reply_headers_read e table s =
    let (table', s', read) = content_type-Synced e table s in
    rw (reply_headers_lem e []) (
      table',
      s',
      λ rest. reply_step 0 e table table' table' rest rest [] read (fields_nil table' rest),
    )

abbrev pub status_bytes : Encoder → Status → Bytes
status_bytes e status =
    encode_grpc_status_nonzero (encode_content_type e []).0 (code_number status.code) []
    ++ written grpc_message status.message

pub status_headers_lem :
    (e : Encoder) (status : Status) (dst : Bytes)
    → status_headers e status dst
      ≡ ((encode_content_type e []).0, dst ++ (reply_bytes e ++ status_bytes e status))
unfolding status_headers encode_grpc_message
status_headers_lem e status dst =
    rw
      (
        reply_headers_lem e dst,
        grpc_status_nonzero-append (encode_content_type e []).0 (code_number status.code)
            (dst ++ reply_bytes e),
        encode_header_lem grpc_message status.message (
            (dst ++ reply_bytes e)
            ++ encode_grpc_status_nonzero (encode_content_type e []).0 (code_number status.code)
                []),
      )
      (simp append_assoc)

pub status_headers-append :
    (e : Encoder) (status : Status) (dst : Bytes)
    → status_headers e status dst
      ≡ ((status_headers e status []).0, dst ++ (status_headers e status []).1)
status_headers-append e status dst =
    rw (status_headers_lem e status dst, status_headers_lem e status []) refl

-- The fields that a failure adds.
abbrev pub failure_fields : Status → List Field
failure_fields status =
    (grpc_status, code_str (code_number status.code)) ∷ (grpc_message, status.message) ∷ []

-- A peer in step reads the headers of a failure as those of a reply, then `grpc-status` with the
-- code's digits and `grpc-message` with the message, if that has fewer than 2^28 bytes; and it is
-- in step after them.
pub status_headers_read :
    (e : Encoder) (status : Status) (table : Table)
    → Synced e table
    → length status.message < 2 ^ 28
    → (table' : Table) × Synced (status_headers e status []).0 table'
      × ((rest : Bytes)
          → peer_fields 5 table ((status_headers e status []).1 ++ rest)
            ≡ ok (reply_fields ++ failure_fields status, table', rest))
status_headers_read e status table s h =
    let (table', s', read) = content_type-Synced e table s in
    let e₁ = (encode_content_type e []).0 in
    let code = encode_grpc_status_nonzero e₁ (code_number status.code) [] in
    let msg = written grpc_message status.message in
    rw (status_headers_lem e status []) (
      table',
      s',
      λ rest. rw (append_assoc (reply_bytes e) (code ++ msg) rest) (
          reply_step 2 e table table' table' ((code ++ msg) ++ rest) rest (failure_fields status)
            read
            (rw (append_assoc code msg rest) (
              fields_cons 1 table' table' table' _ (msg ++ rest) rest _ _
                (field-grpc_status_nonzero e₁ (code_number status.code) table' (msg ++ rest) s')
                (fields_cons 0 table' table' table' _ rest rest _ []
                  (field-header table' grpc_message status.message rest (omega arith) h)
                  (fields_nil table' rest))))),
    )

-- A peer in step reads the trailers of a reply as `grpc-status: 0`, and is in step after them.
pub trailers_read :
    (e : Encoder) (table : Table)
    → Synced e table
    → (table' : Table) × Synced (encode_grpc_status_zero e []).0 table'
      × ((rest : Bytes)
          → peer_fields 1 table ((encode_grpc_status_zero e []).1 ++ rest)
            ≡ ok ((grpc_status, zero_text) ∷ [], table', rest))
trailers_read e table s =
    let (table', s', read) = grpc_status_zero-Synced e table s in
    (
      table',
      s',
      λ rest.
          fields_cons 0 table table' table' _ rest rest _ [] (read rest) (fields_nil table' rest),
    )
