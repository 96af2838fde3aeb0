-- ===== src/Hpack/Encoder/Nonzero.antt =====
-- The status of a failure: its name stands in the dynamic table, or is written out.
use pajamax.Prelude.{
  ℕ, zero, suc, ◌+◌, ◌-◌, ◌/◌, ◌%◌, ◌≤◌, ◌≡◌, refl, arith, Bool-cases, Option-cases, inl, inr,
  Option, none, some, [], ◌∷◌, ◌++◌, Bytes, length, ltb,
}
use pajamax.Outcome.{ok}
use pajamax.Hpack.Encoder.{
  Encoder, dynamic_index, encode_grpc_status_nonzero, code_str, digits_of, grpc_status, zero_text,
}
use pajamax.Hpack.Encoder.Peer.{Table, RankOf, Synced, peer_field}
use pajamax.Hpack.Encoder.Fields.{
  encode_header_lem, field-header, encode_with_indexed_name_lem, field-indexed_name,
}
use pajamax.Hpack.Encoder.Sync.{peer_lookup-rank, entries_few}

length-digits_of :
    (rounds n : ℕ) (rest : Bytes) → length (digits_of rounds n rest) ≤ rounds + length rest
unfolding digits_of
length-digits_of zero n rest = omega arith
length-digits_of (suc rounds) n rest = elim (Bool-cases (ltb n 10)) [
  | inl e ↦ rw e (omega arith)
  | inr e ↦ rw e (omega (arith, length-digits_of rounds (n / 10) ((48 + n % 10) ∷ rest)))
]

pub length-code_str : (code : ℕ) → length (code_str code) ≤ 20
unfolding code_str
length-code_str code = omega (arith, length-digits_of 20 code [])

pub grpc_status_nonzero-append :
    (e : Encoder) (code : ℕ) (dst : Bytes)
    → encode_grpc_status_nonzero e code dst ≡ dst ++ encode_grpc_status_nonzero e code []
unfolding encode_grpc_status_nonzero
grpc_status_nonzero-append e code dst = elim (Option-cases e.rank_grpc_status_zero) [
  | inl new ↦
      rw (new, encode_grpc_status_nonzero)
        (rw
          (
            encode_header_lem grpc_status (code_str code) dst,
            encode_header_lem grpc_status (code_str code) [],
          )
          refl)
  | inr (rank, old) ↦
      rw (old, encode_grpc_status_nonzero)
        (rw
          (
            encode_with_indexed_name_lem (dynamic_index e rank) (code_str code) dst,
            encode_with_indexed_name_lem (dynamic_index e rank) (code_str code) [],
          )
          refl)
]

nonzero_at :
    (e : Encoder) (r : Option ℕ) (code : ℕ) (table : Table) (rest : Bytes)
    → e.rank_grpc_status_zero ≡ r
    → Synced e table
    → RankOf table (grpc_status, zero_text) r
    → peer_field table (encode_grpc_status_nonzero e code [] ++ rest)
      ≡ ok ((grpc_status, code_str code), table, rest)
unfolding encode_grpc_status_nonzero dynamic_index
nonzero_at e none code table rest q s h =
    rw (q, encode_grpc_status_nonzero, encode_header_lem grpc_status (code_str code) [])
      (field-header table grpc_status (code_str code) rest (omega arith)
        (omega (arith, length-code_str code)))
nonzero_at e (some rank) code table rest q s h =
    let i = e.dynamic_table_size - rank + 62 in
    rw (q, encode_grpc_status_nonzero, encode_with_indexed_name_lem i (code_str code) [])
      (field-indexed_name table i (grpc_status, zero_text) (code_str code) rest (omega arith)
        (omega (arith, entries_few e table s, s.size))
        (rw s.size (peer_lookup-rank table (grpc_status, zero_text) rank h))
        (omega (arith, length-code_str code)))

pub field-grpc_status_nonzero :
    (e : Encoder) (code : ℕ) (table : Table) (rest : Bytes)
    → Synced e table
    → peer_field table (encode_grpc_status_nonzero e code [] ++ rest)
      ≡ ok ((grpc_status, code_str code), table, rest)
field-grpc_status_nonzero e code table rest s =
    nonzero_at e e.rank_grpc_status_zero code table rest refl s s.status
