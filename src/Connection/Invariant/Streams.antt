-- ===== src/Connection/Invariant/Streams.antt =====
-- The list of open streams: identifiers in order, each odd and handled by a service there is.
use pajamax.Prelude.{
  ℕ, zero, suc, ◌%◌, ◌≤◌, ◌<◌, ◌≡◌, refl, ap, ◌∙◌, ◌⊎◌, arith, Option-cases, Bool-cases, inl, inr,
  some, List, [], ◌∷◌, ◌++◌, Bytes, length, ◌==◌,
}
use pajamax.Connection.Process.State.{Stream, position, remove_at, update_at}
use pajamax.Connection.Feed.{extend_stream}

-- A stream of a connection with `n` services.
pub record IsOpen (n : ℕ) (s : Stream) : Type 0 where
  pub odd : s.id % 2 ≡ 1
  pub served : s.isvc < n

-- The identifiers rise, above `lo` and up to `hi`.
abbrev pub Rising : ℕ → ℕ → ℕ → List Stream → Type 0
Rising n lo hi [] = lo ≤ hi
Rising n lo hi (s ∷ streams) = (lo < s.id) × IsOpen n s × Rising n s.id hi streams

pub Rising-mono :
    (n lo lo' hi hi' : ℕ) (streams : List Stream)
    → lo' ≤ lo
    → hi ≤ hi'
    → Rising n lo hi streams
    → Rising n lo' hi' streams
Rising-mono n lo lo' hi hi' [] h k r = omega arith
Rising-mono n lo lo' hi hi' (s ∷ streams) h k (a, o, r) =
    (omega arith, o, Rising-mono n s.id s.id hi hi' streams (omega arith) k r)

pub Rising-append :
    (n lo hi : ℕ) (streams : List Stream) (s : Stream)
    → Rising n lo hi streams
    → hi < s.id
    → IsOpen n s
    → Rising n lo s.id (streams ++ s ∷ [])
Rising-append n lo hi [] s r h o = (omega arith, o, omega arith)
Rising-append n lo hi (t ∷ streams) s (a, o', r) h o =
    (a, o', Rising-append n t.id hi streams s r h o)

pub Rising-remove_at :
    (n lo hi i : ℕ) (streams : List Stream)
    → Rising n lo hi streams
    → Rising n lo hi (remove_at i streams)
unfolding remove_at
Rising-remove_at n lo hi i [] r = r
Rising-remove_at n lo hi zero (s ∷ streams) (a, o, r) =
    Rising-mono n s.id lo hi hi streams (omega arith) (omega arith) r
Rising-remove_at n lo hi (suc i) (s ∷ streams) (a, o, r) =
    (a, o, Rising-remove_at n s.id hi i streams r)

pub length-remove_at :
    (i : ℕ) (streams : List Stream) → length (remove_at i streams) ≤ length streams
unfolding remove_at
length-remove_at i [] = omega arith
length-remove_at zero (s ∷ streams) = omega arith
length-remove_at (suc i) (s ∷ streams) = omega (arith, length-remove_at i streams)

-- Where `position` finds a stream: at the head, or later.
position-cons :
    (id i : ℕ) (s t : Stream) (streams : List Stream)
    → position id (t ∷ streams) ≡ some (i, s)
    → ((t.id ≡ id) × (i ≡ 0) × (s ≡ t))
      ⊎ ((j : ℕ) × (i ≡ suc j) × (position id streams ≡ some (j, s)))
unfolding position
position-cons id i s t streams e = elim (Bool-cases (t.id == id)) [
  | inl m ↦ inl (ground arith, ground arith, ground arith)
  | inr m ↦ elim (Option-cases (position id streams)) [
    | inl x ↦ absurd (ground arith)
    | inr ((j, u), x) ↦ inr (j, ground arith, ground arith)
  ]
]

-- What `position` finds is the first stream with the identifier.
pub position-found :
    (n lo hi id i : ℕ) (s : Stream) (streams : List Stream)
    → Rising n lo hi streams
    → position id streams ≡ some (i, s)
    → (s.id ≡ id) × IsOpen n s × (i < length streams)
position-found n lo hi id i s [] r e = unfold position in cc
position-found n lo hi id i s (t ∷ streams) (a, o, r) e = elim (position-cons id i s t streams e) [
  | inl (m, z, q) ↦ rw (q, z) (m, o, omega arith)
  | inr (j, z, later) ↦
      let (m, o', l) = position-found n t.id hi id j s streams r later in (m, o', omega arith)
]

-- A change of a stream's body keeps the identifiers.
pub Rising-update_at :
    (n lo hi id i : ℕ) (s t : Stream) (streams : List Stream)
    → Rising n lo hi streams
    → position id streams ≡ some (i, s)
    → t.id ≡ s.id
    → t.isvc ≡ s.isvc
    → Rising n lo hi (update_at i t streams)
unfolding update_at
Rising-update_at n lo hi id i s t [] r e h k = r
Rising-update_at n lo hi id zero s t (u ∷ streams) (a, o, r) e h k =
    elim (position-cons id zero s u streams e) [
      | inl (m, z, q) ↦
          let same : t.id ≡ u.id = h ∙ ap (λ (x : Stream). x.id) q in
          let served : t.isvc ≡ u.isvc = k ∙ ap (λ (x : Stream). x.isvc) q in
          (
            omega arith,
            record { odd = rw same o.odd; served = omega (arith, o.served) },
            Rising-mono n u.id t.id hi hi streams (omega arith) (omega arith) r,
          )
      | inr (j, z, later) ↦ absurd (omega arith)
    ]
Rising-update_at n lo hi id (suc i) s t (u ∷ streams) (a, o, r) e h k =
    elim (position-cons id (suc i) s u streams e) [
      | inl (m, z, q) ↦ absurd (omega arith)
      | inr (j, z, later) ↦
          let same : j ≡ i = omega arith in
          (a, o, Rising-update_at n u.id hi id i s t streams r (rw same at later) h k)
    ]

pub length-update_at :
    (i : ℕ) (s : Stream) (streams : List Stream) → length (update_at i s streams) ≡ length streams
unfolding update_at
length-update_at i s [] = refl
length-update_at zero s (t ∷ streams) = refl
length-update_at (suc i) s (t ∷ streams) = omega (arith, length-update_at i s streams)

-- So do bytes that join a body.
pub Rising-extend_stream :
    (n lo hi id : ℕ) (bytes : Bytes) (streams : List Stream)
    → Rising n lo hi streams
    → Rising n lo hi (extend_stream id bytes streams)
unfolding extend_stream
Rising-extend_stream n lo hi id bytes streams r = elim (Option-cases (position id streams)) [
  | inl e ↦ rw (extend_stream, e) r
  | inr ((i, s), e) ↦
      rw (extend_stream, e)
        (Rising-update_at n lo hi id i s (record s { body = s.body ++ bytes }) streams r e refl
          refl)
]

pub length-extend_stream :
    (id : ℕ) (bytes : Bytes) (streams : List Stream)
    → length (extend_stream id bytes streams) ≡ length streams
unfolding extend_stream
length-extend_stream id bytes streams = elim (Option-cases (position id streams)) [
  | inl e ↦ rw (extend_stream, e)
  | inr ((i, s), e) ↦
      rw (extend_stream, e) (length-update_at i (record s { body = s.body ++ bytes }) streams)
]
