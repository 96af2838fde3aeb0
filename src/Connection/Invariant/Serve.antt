-- ===== src/Connection/Invariant/Serve.antt =====
-- The invariant over a whole connection: it holds after any reads.
use pajamax.Prelude.{◌≡◌, refl, ap, arith, Bool-cases, inl, inr, List, [], ◌∷◌, Bytes, ◌==◌}
use pajamax.Connection.Process.State.{Env, emit}
use pajamax.Connection.Feed.{
  Parser, Status, running, closed, failed, panicked, feed, need, clear_credit, send_credit, on_read,
  serve, new_parser,
}
use pajamax.Connection.Feed.Ready.{IsReady, feed-IsReady}
use pajamax.Connection.Invariant.{Inv}
use pajamax.Connection.Invariant.Frames.{emit-Inv}
use pajamax.Connection.Invariant.Reads.{feed-Inv}

clear_credit-Inv : (env : Env) (p : Parser) → Inv env p.conn → Inv env (clear_credit p).conn
unfolding clear_credit
clear_credit-Inv env p v = record {
  ids = v.ids;
  pending = v.pending;
  room = v.room;
  credit = refl;
  routes = v.routes;
  spawned = v.spawned;
}

-- What is kept between the reads of a connection. The last read's credit counts no more then: the
-- next read starts from none.
pub record IsServing (env : Env) (s : Parser × Status) : Type 0 where
  pub inv : Inv env (clear_credit s.0).conn
  pub ready : s.1 ≡ running → IsReady s.0

send_credit-IsServing :
    (env : Env) (s : Parser × Status)
    → Inv env s.0.conn
    → (s.1 ≡ running → IsReady s.0)
    → IsServing env (send_credit s)
unfolding send_credit need clear_credit emit
send_credit-IsServing env (p, running) v r = elim (Bool-cases (p.conn.data_len == 0)) [
  | inl b ↦ rw b (record { inv = clear_credit-Inv env p v; ready = λ _. r refl })
  | inr b ↦ rw b (record {
    inv = emit-Inv env (clear_credit p).conn _ (clear_credit-Inv env p v) v.credit;
    ready = λ _. r refl;
  })
]
send_credit-IsServing env (p, closed) v r = record { inv = clear_credit-Inv env p v; ready = r }
send_credit-IsServing env (p, failed e) v r = record { inv = clear_credit-Inv env p v; ready = r }
send_credit-IsServing env (p, panicked) v r = record { inv = clear_credit-Inv env p v; ready = r }

clear_credit-IsReady : (p : Parser) → IsReady p → IsReady (clear_credit p)
unfolding clear_credit need
clear_credit-IsReady p r = r

on_read-IsServing :
    (env : Env) (s : Parser × Status) (buf : Bytes)
    → IsServing env s
    → IsServing env (on_read env s buf)
unfolding on_read
on_read-IsServing env (p, running) [] v = record { inv = v.inv; ready = λ e. absurd (cc) }
on_read-IsServing env (p, running) (b ∷ buf) v =
    let r : IsReady (clear_credit p) = clear_credit-IsReady p (v.ready refl) in
    let fed = feed env (clear_credit p, running) (b ∷ buf) in
    send_credit-IsServing env fed (feed-Inv env (clear_credit p) (b ∷ buf) r v.inv)
      (λ e. feed-IsReady env (clear_credit p) (b ∷ buf) r (ap (λ t. (fed.0, t)) e))
on_read-IsServing env (p, closed) buf v = v
on_read-IsServing env (p, failed e) buf v = v
on_read-IsServing env (p, panicked) buf v = v

serve-IsServing :
    (env : Env) (s : Parser × Status) (reads : List Bytes)
    → IsServing env s
    → IsServing env (serve env s reads)
unfolding serve
serve-IsServing env s [] v = v
serve-IsServing env s (buf ∷ reads) v =
    serve-IsServing env (on_read env s buf) reads (on_read-IsServing env s buf v)

new_parser-IsServing : (env : Env) → IsServing env (new_parser, running)
unfolding new_parser need clear_credit
new_parser-IsServing env = record {
  inv = record {
    ids = omega arith;
    pending = tt;
    room = omega arith;
    credit = refl;
    routes = tt;
    spawned = tt;
  };
  ready = λ _. (omega arith, λ _. refl);
}

-- After any reads of a new connection, whatever their bytes and however it ended, `Inv` holds: the
-- open streams' identifiers are odd, rise, and are at most the last that the client named; there
-- are no more streams than allowed, counting the one that waits for CONTINUATION; each stream,
-- cached route and request started names a service; and each window update sent gives the
-- connection the sum of what it gives the streams. While it runs, the parser waits for a byte.
pub serve-new_parser :
    (env : Env) (reads : List Bytes) → IsServing env (serve env (new_parser, running) reads)
serve-new_parser env reads = serve-IsServing env _ reads (new_parser-IsServing env)
