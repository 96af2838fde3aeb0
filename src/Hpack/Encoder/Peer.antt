-- ===== src/Hpack/Encoder/Peer.antt =====
-- A client's reader of header blocks, after RFC 7541: what the encoder's bytes mean to the peer.
use pajamax.Prelude.{
  ℕ, zero, suc, ◌+◌, ◌-◌, ◌≤◌, ◌≡◌, ◌||◌, Option, none, some, List, [], ◌∷◌, Bytes, length, take,
  drop, get_elem?, leb, ltb, ◌==◌, if◌then◌else◌,
}
use pajamax.Outcome.{Outcome, ok, err, invalid_hpack, ◌>>=◌}
use pajamax.Hpack.Int.{decode_int}
use pajamax.Hpack.Encoder.{Encoder, grpc_status, zero_text, content_type, application_grpc}

-- A name and a value; and the dynamic table, the newest entry first. Two small entries are all that
-- the encoder adds, so none is evicted.
abbrev pub Field : Type 0
Field = Bytes × Bytes

abbrev pub Table : Type 0
Table = List Field

abbrev pub status_200 : Field
status_200 = (0x3a ∷ 0x73 ∷ 0x74 ∷ 0x61 ∷ 0x74 ∷ 0x75 ∷ 0x73 ∷ [], 0x32 ∷ 0x30 ∷ 0x30 ∷ [])

-- The field at an index. Of the static table only `:status: 200` is needed.
unfoldable pub peer_lookup : Table → ℕ → Outcome Field
peer_lookup table index =
    if index == 8
    then ok status_200
    else if ltb index 62
    then err (invalid_hpack "index")
    else elim (get_elem? table (index - 62)) [ none ↦ err (invalid_hpack "index") | some f ↦ ok f ]

unfoldable pub first_byte : Bytes → ℕ
first_byte [] = 0
first_byte (b ∷ buf) = b

-- A string that is not Huffman coded, and what follows it.
unfoldable pub peer_str : Bytes → Outcome (Bytes × Bytes)
peer_str buf = do
  (n, adv) ← decode_int buf 7
  let body = drop adv buf
  if leb 128 (first_byte buf) || ltb (length body) n
      then err (invalid_hpack "string")
      else ok (take n body, drop n body)

-- The name of a literal: index 0 says that it is written out.
unfoldable pub peer_name : Table → ℕ → Bytes → Outcome (Bytes × Bytes)
unfolding peer_lookup
peer_name table index buf =
    if index == 0 then peer_str buf else do f ← peer_lookup table index; ok (f.0, buf)

unfoldable pub peer_literal : Table → ℕ → Bytes → Outcome (Field × Bytes)
peer_literal table prefix buf = do
  (index, adv) ← decode_int buf prefix
  (name, rest) ← peer_name table index (drop adv buf)
  (value, rest') ← peer_str rest
  ok ((name, value), rest')

-- One field: an index, a literal that joins the table, or a literal that does not.
unfoldable pub peer_field : Table → Bytes → Outcome (Field × Table × Bytes)
peer_field table buf =
    if leb 128 (first_byte buf)
    then (do
      (index, adv) ← decode_int buf 7
      f ← peer_lookup table index
      ok (f, table, drop adv buf))
    else if leb 64 (first_byte buf)
    then (do (f, rest) ← peer_literal table 6 buf; ok (f, f ∷ table, rest))
    else if ltb (first_byte buf) 16
    then (do (f, rest) ← peer_literal table 4 buf; ok (f, table, rest))
    else err (invalid_hpack "representation")

-- So many fields, one after the other.
unfoldable pub peer_fields : ℕ → Table → Bytes → Outcome (List Field × Table × Bytes)
peer_fields zero table buf = ok ([], table, buf)
peer_fields (suc n) table buf = do
  (f, table₁, buf₁) ← peer_field table buf
  (fs, table₂, buf₂) ← peer_fields n table₁ buf₁
  ok (f ∷ fs, table₂, buf₂)

-- A rank that the encoder keeps stands for this field of the peer's table.
abbrev pub RankOf : Table → Field → Option ℕ → Type 0
RankOf table f none = Unit {0}
RankOf table f (some rank) =
    (1 ≤ rank) × (rank ≤ length table) × (get_elem? table (length table - rank) ≡ some f)

abbrev pub known : Option ℕ → ℕ
known none = 0
known (some rank) = 1

-- The encoder knows the peer's table.
pub record Synced (e : Encoder) (table : Table) : Type 0 where
  pub size : e.dynamic_table_size ≡ length table
  pub entries : length table ≡ known e.rank_grpc_status_zero + known e.rank_content_type
  pub status : RankOf table (grpc_status, zero_text) e.rank_grpc_status_zero
  pub type : RankOf table (content_type, application_grpc) e.rank_content_type
