-- ===== src/Connection/Feed/Chunks.antt =====
-- How the bytes are cut into reads makes no difference to the frames.
use pajamax.Prelude.{
  ℕ, zero, suc, ◌≤◌, ◌<◌, ◌≡◌, refl, sym, ap, ◌∙◌, arith, Bool-cases, inl, inr, [], ◌∷◌, ◌++◌,
  Bytes, length, take, drop, ltb, length-append, length-drop, append-nil, take-append_le,
  drop-append_le, take-append_add, drop-append_add, drop-length_le, ltb→lt, not_ltb→le, ◌≢◌,
}
use pajamax.Connection.Process.State.{Env}
use pajamax.Connection.Feed.{Parser, Status, running, store, need, round, feed, after}
use pajamax.Connection.Feed.Store.{store_twice, need-store}
use pajamax.Connection.Feed.Ready.{
  IsReady, round_short, round_enough, round-IsReady, store-IsReady, after_assoc, after_ext,
  feed_step, feed_nil,
}

feed-after :
    (env : Env) (x : Parser × Status) (f : Parser → Parser × Status) (buf : Bytes)
    → feed env (after x f) buf ≡ after x (λ q. feed env (f q) buf)
unfolding feed
feed-after env x f buf = after_assoc x f _

-- A round that has enough bytes does not see those that follow.
round-append :
    (env : Env) (p : Parser) (a b : Bytes)
    → need p ≤ length a
    → round env p (a ++ b) ≡ round env p a
round-append env p a b h =
    round_enough env p (a ++ b) (omega (arith, length-append a b))
    ∙ rw (take-append_le (need p) a b h) (sym (round_enough env p a h))

-- A round that has too few goes on with the next ones as if they had come together.
round-store :
    (env : Env) (p : Parser) (a b : Bytes)
    → length a < need p
    → round env (store a p) b ≡ round env p (a ++ b)
round-store env p a b h = elim (Bool-cases (ltb (length b) (need (store a p)))) [
  | inl short ↦
      let lt : length b < need (store a p) = ltb→lt _ _ short in
      round_short env (store a p) b lt
      ∙ rw (store_twice a b p)
          (sym (round_short env p (a ++ b) (omega (arith, length-append a b, need-store a p h))))
  | inr enough ↦
      let le : need (store a p) ≤ length b = not_ltb→le _ _ enough in
      let taken : take (need p) (a ++ b) ≡ a ++ take (need (store a p)) b =
        take-append_add (need (store a p)) a b (need p) (omega (arith, need-store a p h)) in
      round_enough env (store a p) b le
      ∙ rw (store_twice a (take (need (store a p)) b) p, ← taken)
          (sym (round_enough env p (a ++ b) (omega (arith, length-append a b, need-store a p h))))
]

feed_short :
    (env : Env) (p : Parser) (a : Bytes)
    → IsReady p
    → a ≢ []
    → length a < need p
    → feed env (p, running) a ≡ (store a p, running)
feed_short env p a r n h =
    feed_step env p a r n
    ∙ rw (round_short env p a h, drop-length_le (need p) a (omega arith)) (feed_nil env (store a p))

nonempty-append : (a b : Bytes) → a ≢ [] → a ++ b ≢ []
nonempty-append [] b n e = n refl
nonempty-append (x ∷ a) b n e = cc

feed-append_short :
    (env : Env) (p : Parser) (a b : Bytes)
    → IsReady p
    → a ≢ []
    → length a < need p
    → feed env (p, running) (a ++ b) ≡ feed env (store a p, running) b
feed-append_short env p a [] r n h =
    rw append-nil (feed_short env p a r n h ∙ sym (feed_nil env (store a p)))
feed-append_short env p a (x ∷ b) r n h =
    feed_step env p (a ++ (x ∷ b)) r (nonempty-append a (x ∷ b) n)
    ∙ rw
        (
          ← round-store env p a (x ∷ b) h,
          drop-append_add (need (store a p)) a (x ∷ b) (need p) (omega (arith, need-store a p h)),
        )
        (sym (feed_step env (store a p) (x ∷ b) (store-IsReady a p h r) (λ e. cc)))

feed-append_fuel :
    (fuel : ℕ) (env : Env) (p : Parser) (a b : Bytes)
    → IsReady p
    → length a ≤ fuel
    → feed env (p, running) (a ++ b) ≡ feed env (feed env (p, running) a) b
feed-append_fuel fuel env p [] b r h = rw (feed_nil env p)
feed-append_fuel zero env p (x ∷ a) b r h = absurd (omega arith)
feed-append_fuel (suc fuel) env p (x ∷ a) b r h =
    elim (Bool-cases (ltb (length (x ∷ a)) (need p))) [
      | inl short ↦
          let lt : length (x ∷ a) < need p = ltb→lt _ _ short in
          feed-append_short env p (x ∷ a) b r (λ e. cc) lt
          ∙ rw (feed_short env p (x ∷ a) r (λ e. cc) lt)
      | inr enough ↦
          let le : need p ≤ length (x ∷ a) = not_ltb→le _ _ enough in
          let rest : Bytes = drop (need p) (x ∷ a) in
          let size : length rest ≤ fuel = omega (arith, length-drop (need p) (x ∷ a), r.0) in
          feed_step env p ((x ∷ a) ++ b) r (λ e. cc)
          ∙ rw (round-append env p (x ∷ a) b le, drop-append_le (need p) (x ∷ a) b le)
              (after_ext (round env p (x ∷ a)) _ _
                (λ q e. feed-append_fuel fuel env q rest b (round-IsReady env p (x ∷ a) r e) size))
          ∙ sym (
              ap (λ s. feed env s b) (feed_step env p (x ∷ a) r (λ e. cc))
              ∙ feed-after env (round env p (x ∷ a)) _ b)
    ]

-- From any parser that is ready, bytes that come in two reads lead to the same parser, the same
-- effects and the same status as the same bytes in one.
pub feed-append :
    (env : Env) (p : Parser) (a b : Bytes)
    → IsReady p
    → feed env (p, running) (a ++ b) ≡ feed env (feed env (p, running) a) b
feed-append env p a b r = feed-append_fuel (length a) env p a b r (omega arith)
