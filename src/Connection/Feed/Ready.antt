-- ===== src/Connection/Feed/Ready.antt =====
-- The parser always waits for a byte, so every round makes progress.
use pajamax.Prelude.{
  ℕ, zero, suc, ◌≤◌, ◌<◌, ◌≡◌, refl, sym, ap, ◌∙◌, arith, true, false, Bool, Bool-cases, inl, inr,
  [], ◌∷◌, Bytes, length, take, drop, ltb, length-drop, le→not_ltb, lt→ltb, ltb→lt, not_ltb→le,
  subst, ◌≢◌,
}
use pajamax.Outcome.{Outcome, ok, err, panic, stuck}
use pajamax.Connection.Process.State.{Env}
use pajamax.Connection.Feed.{
  Parser, ParseState, Status, running, closed, failed, panicked, store, need, complete, settle,
  round, feed_loop, feed, after, header_complete, payload_complete,
}
use pajamax.Connection.Feed.Store.{need-store}

-- The parser waits for a byte, and in a payload it holds no header.
abbrev pub IsReady : Parser → Type 0
IsReady p = (0 < need p) × (p.state ≡ ParseState.payload → p.header_buf ≡ [])

pub store-IsReady : (a : Bytes) (p : Parser) → length a < need p → IsReady p → IsReady (store a p)
store-IsReady a p h r = (omega (arith, need-store a p h), unfold store in ground (arith, r.1))

pub store_keeps :
    (a : Bytes) (p : Parser)
    → (p.state ≡ ParseState.payload → p.header_buf ≡ [])
    → ((store a p).state ≡ ParseState.payload → (store a p).header_buf ≡ [])
unfolding store
store_keeps a p h = ground (arith, h)

header_complete-IsReady :
    (env : Env) (p : Parser) {q : Parser} {b : Bool} → header_complete env p ≡ ok (q, b) → IsReady q
unfolding header_complete need
header_complete-IsReady env p e = ground arith

payload_complete-IsReady :
    (env : Env) (p : Parser) {q : Parser} {b : Bool}
    → p.header_buf ≡ []
    → payload_complete env p ≡ ok (q, b)
    → IsReady q
unfolding payload_complete need
payload_complete-IsReady env p h e = ground arith

pub complete-IsReady :
    (env : Env) (p : Parser) {q : Parser} {b : Bool}
    → (p.state ≡ ParseState.payload → p.header_buf ≡ [])
    → complete env p ≡ ok (q, b)
    → IsReady q
unfolding complete
complete-IsReady env p {q} {b} h e = ground (
  arith,
  header_complete-IsReady env p {q = q} {b = b},
  payload_complete-IsReady env p {q = q} {b = b},
)

pub settle-running :
    (p : Parser) (m : Outcome (Parser × Bool)) {q : Parser}
    → settle p m ≡ (q, running)
    → m ≡ ok (q, false)
unfolding settle
settle-running p (ok (q, true)) e = cc
settle-running p (ok (q, false)) e = ground arith
settle-running p (err x) e = cc
settle-running p panic e = cc
settle-running p stuck e = cc

-- A round with too few bytes stores them; another one ends the header or the payload.
pub round_short :
    (env : Env) (p : Parser) (buf : Bytes)
    → length buf < need p
    → round env p buf ≡ (store buf p, running)
unfolding round
round_short env p buf h = rw (lt→ltb _ _ h)

pub round_enough :
    (env : Env) (p : Parser) (buf : Bytes)
    → need p ≤ length buf
    → round env p buf
      ≡ settle (store (take (need p) buf) p) (complete env (store (take (need p) buf) p))
unfolding round
round_enough env p buf h = rw (le→not_ltb _ _ h)

pub round-IsReady :
    (env : Env) (p : Parser) (buf : Bytes) {q : Parser}
    → IsReady p
    → round env p buf ≡ (q, running)
    → IsReady q
round-IsReady env p buf {q} r e = elim (Bool-cases (ltb (length buf) (need p))) [
  | inl short ↦
      let lt : length buf < need p = ltb→lt _ _ short in
      subst IsReady (ap (λ t. t.0) (sym (round_short env p buf lt) ∙ e)) (store-IsReady buf p lt r)
  | inr enough ↦
      let p₁ : Parser = store (take (need p) buf) p in
      complete-IsReady env p₁ (store_keeps (take (need p) buf) p r.1) (
        settle-running p₁ (complete env p₁)
          (sym (round_enough env p buf (not_ltb→le _ _ enough)) ∙ e))
]

pub after_assoc :
    (x : Parser × Status) (f g : Parser → Parser × Status)
    → after (after x f) g ≡ after x (λ q. after (f q) g)
after_assoc (p, running) f g = refl
after_assoc (p, closed) f g = refl
after_assoc (p, failed e) f g = refl
after_assoc (p, panicked) f g = refl

-- Two ways to go on that agree where the connection is ready.
pub after_ext :
    (x : Parser × Status) (f g : Parser → Parser × Status)
    → ((q : Parser) → x ≡ (q, running) → f q ≡ g q)
    → after x f ≡ after x g
after_ext (p, running) f g h = h p refl
after_ext (p, closed) f g h = refl
after_ext (p, failed e) f g h = refl
after_ext (p, panicked) f g h = refl

-- More fuel than bytes changes nothing.
feed_loop_fuel :
    (fuel more : ℕ) (env : Env) (p : Parser) (buf : Bytes)
    → IsReady p
    → length buf ≤ fuel
    → length buf ≤ more
    → feed_loop fuel env p buf ≡ feed_loop more env p buf
unfolding feed_loop
feed_loop_fuel fuel more env p [] r h k = refl
feed_loop_fuel zero more env p (b ∷ buf) r h k = absurd (omega arith)
feed_loop_fuel (suc fuel) zero env p (b ∷ buf) r h k = absurd (omega arith)
feed_loop_fuel (suc fuel) (suc more) env p (b ∷ buf) r h k =
    after_ext (round env p (b ∷ buf)) _ _ λ q e.
      let short : length (drop (need p) (b ∷ buf)) < length (b ∷ buf) =
        omega (arith, length-drop (need p) (b ∷ buf), r.0) in
      feed_loop_fuel fuel more env q (drop (need p) (b ∷ buf)) (round-IsReady env p (b ∷ buf) r e)
        (omega arith) (omega arith)

-- One round, and the rest with its own fuel.
pub feed_step :
    (env : Env) (p : Parser) (buf : Bytes)
    → IsReady p
    → buf ≢ []
    → feed env (p, running) buf
      ≡ after (round env p buf) (λ q. feed env (q, running) (drop (need p) buf))
unfolding feed
feed_step env p [] r n = absurd (n refl)
feed_step env p (b ∷ buf) r n =
    unfold feed_loop in
    after_ext (round env p (b ∷ buf)) _ _ λ q e.
      let short : length (drop (need p) (b ∷ buf)) < length (b ∷ buf) =
        omega (arith, length-drop (need p) (b ∷ buf), r.0) in
      feed_loop_fuel (length buf) (length (drop (need p) (b ∷ buf))) env q (drop (need p) (b ∷ buf))
        (round-IsReady env p (b ∷ buf) r e) (omega arith) (omega arith)

pub feed_nil : (env : Env) (p : Parser) → feed env (p, running) [] ≡ (p, running)
unfolding feed feed_loop
feed_nil env p = refl

after_rule {ℓ} :
    (Q : Parser × Status → Type ℓ) (x : Parser × Status) (f : Parser → Parser × Status)
    → Q x
    → ((q : Parser) → x ≡ (q, running) → Q (f q))
    → Q (after x f)
after_rule Q (p, running) f h k = k p refl
after_rule Q (p, closed) f h k = h
after_rule Q (p, failed e) f h k = h
after_rule Q (p, panicked) f h k = h

-- What each round keeps, from a parser that is ready, holds after the bytes of a read.
module _ {ℓ} (Q : Parser × Status → Type ℓ) (env : Env)
    (keep : (p : Parser) (buf : Bytes) → IsReady p → Q (p, running) → Q (round env p buf)) where
  feed_induction_fuel :
      (fuel : ℕ) (p : Parser) (buf : Bytes)
      → IsReady p
      → length buf ≤ fuel
      → Q (p, running)
      → Q (feed env (p, running) buf)
  feed_induction_fuel fuel p [] r h k = rw (feed_nil env p) k
  feed_induction_fuel zero p (x ∷ buf) r h k = absurd (omega arith)
  feed_induction_fuel (suc fuel) p (x ∷ buf) r h k = rw (feed_step env p (x ∷ buf) r (λ e. cc)) (
      after_rule Q (round env p (x ∷ buf)) _ (keep p (x ∷ buf) r k) (λ q e.
        feed_induction_fuel fuel q (drop (need p) (x ∷ buf)) (round-IsReady env p (x ∷ buf) r e)
          (omega (arith, length-drop (need p) (x ∷ buf), r.0)) (subst Q e (keep p (x ∷ buf) r k))))

  pub feed_induction :
      (p : Parser) (buf : Bytes) → IsReady p → Q (p, running) → Q (feed env (p, running) buf)
  feed_induction p buf r k = feed_induction_fuel (length buf) p buf r (omega arith) k

-- A read that leaves the connection running leaves the parser ready.
pub feed-IsReady :
    (env : Env) (p : Parser) (buf : Bytes) {q : Parser}
    → IsReady p
    → feed env (p, running) buf ≡ (q, running)
    → IsReady q
feed-IsReady env p buf {q} r e =
    feed_induction (λ s. (q : Parser) → s ≡ (q, running) → IsReady q) env
      (λ p' buf' r' _ q' e'. round-IsReady env p' buf' r' e') p buf r
      (λ q' e'. subst IsReady (ap (λ t. t.0) e') r) q e
