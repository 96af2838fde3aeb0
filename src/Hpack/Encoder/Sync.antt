-- ===== src/Hpack/Encoder/Sync.antt =====
-- The two headers that the encoder indexes keep its ranks in step with the peer's table.
use pajamax.Prelude.{
  ℕ, suc, ◌+◌, ◌-◌, ◌≤◌, ◌≡◌, refl, sym, ap, ◌∙◌, subst, arith, false, Option-cases, inl, inr,
  Option, none, some, [], ◌∷◌, ◌++◌, Bytes, length, ltb, ◌==◌,
}
use pajamax.Outcome.{ok}
use pajamax.Hpack.Int.RoundTrip.{encode_int-append}
use pajamax.Hpack.Encoder.{
  Encoder, encode_and_index_header, encode_dynamic_index, dynamic_index, encode_content_type,
  encode_grpc_status_zero, grpc_status, zero_text, content_type, application_grpc,
}
use pajamax.Hpack.Encoder.Peer.{Field, Table, known, RankOf, Synced, peer_lookup, peer_field}
use pajamax.Hpack.Encoder.Fields.{field-index, field-and_index, encode_and_index_header_lem}

-- A rank's index is that of its field.
pub peer_lookup-rank :
    (table : Table) (f : Field) (rank : ℕ)
    → RankOf table f (some rank)
    → peer_lookup table (length table - rank + 62) ≡ ok f
unfolding peer_lookup
peer_lookup-rank table f rank (lo, hi, at_rank) =
    let i = length table - rank + 62 in
    let a : (i == 8) ≡ false = ground arith in
    let b : ltb i 62 ≡ false = ground arith in
    let c : i - 62 ≡ length table - rank = omega arith in rw (a, b, c, at_rank)

RankOf-push :
    (table : Table) (f g : Field) (r : Option ℕ) → RankOf table f r → RankOf (g ∷ table) f r
RankOf-push table f g none h = tt
RankOf-push table f g (some rank) (lo, hi, at_rank) =
    let e : suc (length table) - rank ≡ suc (length table - rank) = omega arith in
    (lo, omega arith, rw e at_rank)

RankOf-new : (table : Table) (f : Field) → RankOf (f ∷ table) f (some (suc (length table)))
RankOf-new table f =
    let e : suc (length table) - suc (length table) ≡ 0 = omega arith in
    (omega arith, omega arith, rw e refl)

known_le : (r : Option ℕ) → known r ≤ 1
known_le none = omega arith
known_le (some rank) = omega arith

pub entries_few : (e : Encoder) (table : Table) → Synced e table → length table ≤ 2
entries_few e table s =
    omega (arith, known_le e.rank_grpc_status_zero, known_le e.rank_content_type, s.entries)

-- What the two functions below do on a peer's table.
abbrev Indexes : Table → Field → Encoder × Bytes → Type 0
Indexes table f out =
    (table' : Table) × Synced out.0 table'
    × ((rest : Bytes) → peer_field table (out.1 ++ rest) ≡ ok (f, table', rest))

abbrev encoder : ℕ → Option ℕ → Option ℕ → Encoder
encoder n status type = record {
  dynamic_table_size = n;
  rank_grpc_status_zero = status;
  rank_content_type = type;
}

-- An index into the peer's table, written and read.
field_at_rank :
    (e : Encoder) (table : Table) (f : Field) (rank : ℕ) (rest : Bytes)
    → Synced e table
    → RankOf table f (some rank)
    → peer_field table (encode_dynamic_index e rank [] ++ rest) ≡ ok (f, table, rest)
unfolding encode_dynamic_index dynamic_index
field_at_rank e table f rank rest s h =
    field-index table (e.dynamic_table_size - rank + 62) f rest
      (omega (arith, entries_few e table s, s.size)) (rw s.size (peer_lookup-rank table f rank h))

dynamic_index-append :
    (e : Encoder) (rank : ℕ) (dst : Bytes)
    → encode_dynamic_index e rank dst ≡ dst ++ encode_dynamic_index e rank []
unfolding encode_dynamic_index
dynamic_index-append e rank dst = encode_int-append (dynamic_index e rank) 7 0x80 dst

content_type_at :
    (n : ℕ) (z r : Option ℕ) (table : Table)
    → Synced (encoder n z r) table
    → Indexes table (content_type, application_grpc) (encode_content_type (encoder n z r) [])
unfolding encode_content_type encode_and_index_header
content_type_at n z none table s = (
  (content_type, application_grpc) ∷ table,
  record {
    size = omega (arith, s.size);
    entries = omega (arith, s.entries);
    status = RankOf-push table (grpc_status, zero_text) (content_type, application_grpc) z s.status;
    type =
        subst
          (λ k.
            RankOf ((content_type, application_grpc) ∷ table) (content_type, application_grpc)
              (some k))
          (omega (arith, s.size)) (RankOf-new table (content_type, application_grpc));
  },
  λ rest.
      rw (encode_and_index_header_lem content_type application_grpc (encoder n z none) [])
        (field-and_index table content_type application_grpc rest (omega arith) (omega arith)),
)
content_type_at n z (some rank) table s = (
  table,
  s,
  λ rest.
      field_at_rank (encoder n z (some rank)) table (content_type, application_grpc) rank rest s
        s.type,
)

-- `encode_content_type` writes one field to a peer in step, and leaves the encoder in step.
pub content_type-Synced :
    (e : Encoder) (table : Table)
    → Synced e table
    → Indexes table (content_type, application_grpc) (encode_content_type e [])
content_type-Synced e table s =
    content_type_at e.dynamic_table_size e.rank_grpc_status_zero e.rank_content_type table s

pub content_type-append :
    (e : Encoder) (dst : Bytes)
    → encode_content_type e dst
      ≡ ((encode_content_type e []).0, dst ++ (encode_content_type e []).1)
unfolding encode_content_type encode_and_index_header
content_type-append e dst = elim (Option-cases e.rank_content_type) [
  | inl new ↦
      rw (new, encode_content_type)
        (ap
          (λ out. (
            record e {
              dynamic_table_size = e.dynamic_table_size + 1;
              rank_content_type = some (e.dynamic_table_size + 1);
            },
            out,
          ))
          (encode_and_index_header_lem content_type application_grpc e dst
            ∙ ap (λ out. dst ++ out)
                (sym (encode_and_index_header_lem content_type application_grpc e []))))
  | inr (rank, old) ↦
      rw (old, encode_content_type) (ap (λ out. (e, out)) (dynamic_index-append e rank dst))
]

grpc_status_zero_at :
    (n : ℕ) (z r : Option ℕ) (table : Table)
    → Synced (encoder n r z) table
    → Indexes table (grpc_status, zero_text) (encode_grpc_status_zero (encoder n r z) [])
unfolding encode_grpc_status_zero encode_and_index_header
grpc_status_zero_at n z none table s = (
  (grpc_status, zero_text) ∷ table,
  record {
    size = omega (arith, s.size);
    entries = omega (arith, s.entries);
    status =
        subst (λ k. RankOf ((grpc_status, zero_text) ∷ table) (grpc_status, zero_text) (some k))
          (omega (arith, s.size)) (RankOf-new table (grpc_status, zero_text));
    type = RankOf-push table (content_type, application_grpc) (grpc_status, zero_text) z s.type;
  },
  λ rest.
      rw (encode_and_index_header_lem grpc_status zero_text (encoder n none z) [])
        (field-and_index table grpc_status zero_text rest (omega arith) (omega arith)),
)
grpc_status_zero_at n z (some rank) table s = (
  table,
  s,
  λ rest.
      field_at_rank (encoder n (some rank) z) table (grpc_status, zero_text) rank rest s s.status,
)

-- `encode_grpc_status_zero` writes one field to a peer in step, and leaves the encoder in step.
pub grpc_status_zero-Synced :
    (e : Encoder) (table : Table)
    → Synced e table
    → Indexes table (grpc_status, zero_text) (encode_grpc_status_zero e [])
grpc_status_zero-Synced e table s =
    grpc_status_zero_at e.dynamic_table_size e.rank_content_type e.rank_grpc_status_zero table s

pub grpc_status_zero-append :
    (e : Encoder) (dst : Bytes)
    → encode_grpc_status_zero e dst
      ≡ ((encode_grpc_status_zero e []).0, dst ++ (encode_grpc_status_zero e []).1)
unfolding encode_grpc_status_zero encode_and_index_header
grpc_status_zero-append e dst = elim (Option-cases e.rank_grpc_status_zero) [
  | inl new ↦
      rw (new, encode_grpc_status_zero)
        (ap
          (λ out. (
            record e {
              dynamic_table_size = e.dynamic_table_size + 1;
              rank_grpc_status_zero = some (e.dynamic_table_size + 1);
            },
            out,
          ))
          (encode_and_index_header_lem grpc_status zero_text e dst
            ∙ ap (λ out. dst ++ out)
                (sym (encode_and_index_header_lem grpc_status zero_text e []))))
  | inr (rank, old) ↦
      rw (old, encode_grpc_status_zero) (ap (λ out. (e, out)) (dynamic_index-append e rank dst))
]
