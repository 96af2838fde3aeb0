-- ===== src/Connection/Feed/Store.antt =====
-- Bytes stored in two pieces are stored as if they had come in one.
use pajamax.Prelude.{
  ℕ, ◌-◌, ◌<◌, ◌≡◌, refl, arith, Bool-cases, inl, inr, List, [], ◌∷◌, ◌++◌, Bytes, length, ◌==◌,
  if◌then◌else◌, length-append, append_assoc,
}
use pajamax.Connection.Process.State.{Stream, position, update_at}
use pajamax.Connection.Feed.{Parser, extend_stream, store, need}

extend_stream-cons :
    (i : ℕ) (bytes : Bytes) (s : Stream) (streams : List Stream)
    → extend_stream i bytes (s ∷ streams) ≡ (
        if s.id == i
        then record s { body = s.body ++ bytes } ∷ streams
        else s ∷ extend_stream i bytes streams)
unfolding extend_stream position update_at
extend_stream-cons i bytes s streams = ground arith

-- Two pieces of a body are stored as one.
extend_stream_twice :
    (i : ℕ) (a b : Bytes) (streams : List Stream)
    → extend_stream i b (extend_stream i a streams) ≡ extend_stream i (a ++ b) streams
extend_stream_twice i a b [] = unfold extend_stream position in refl
extend_stream_twice i a b (s ∷ streams) = elim (Bool-cases (s.id == i)) [
  | inl e ↦ rw (
    extend_stream-cons i a s streams,
    extend_stream-cons i (a ++ b) s streams,
    e,
    extend_stream-cons i b (record s { body = s.body ++ a }) streams,
    e,
    append_assoc,
  )
  | inr e ↦ rw (
    extend_stream-cons i a s streams,
    extend_stream-cons i (a ++ b) s streams,
    e,
    extend_stream-cons i b s (extend_stream i a streams),
    e,
    extend_stream_twice i a b streams,
  )
]

pub store_twice : (a b : Bytes) (p : Parser) → store b (store a p) ≡ store (a ++ b) p
unfolding store
store_twice a b p = ground (
  arith,
  append_assoc p.header_buf a b,
  append_assoc p.control_buf a b,
  length-append a b,
  extend_stream_twice p.current.stream_id a b p.conn.streams,
)

pub need-store : (a : Bytes) (p : Parser) → length a < need p → need (store a p) ≡ need p - length a
unfolding store need
need-store a p h = ground (arith, length-append p.header_buf a)
