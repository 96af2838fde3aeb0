-- ===== src/Connection/Credit/Cuts.antt =====
-- However the network cuts a connection's bytes into reads, the connection does the same, but for
-- the window updates, of which each read sends its own.
use pajamax.Prelude.{
  ◌+◌, ◌≡◌, ◌≢◌, refl, sym, ap, ◌∙◌, arith, Bool-cases, inl, inr, List, [], ◌∷◌, ◌++◌, Bytes, All,
  append-nil, ◌==◌,
}
use mathlib.Core.List.{flatten}
use pajamax.Connection.Process.State.{Env, Effect, spawn, send, write_job, window_update_job, emit}
use pajamax.Connection.Feed.{
  Parser, Status, running, closed, failed, panicked, need, feed, feed_loop, clear_credit,
  send_credit, on_read, serve,
}
use pajamax.Connection.Feed.Ready.{IsReady, feed-IsReady}
use pajamax.Connection.Feed.Chunks.{feed-append}
use pajamax.Connection.Credit.{behind}
use pajamax.Connection.Credit.Reads.{status_behind, feed-behind}

-- The effects that are no window update: the requests and the frames sent at once, in order.
unfoldable pub others : List Effect → List Effect
others [] = []
others (send (window_update_job len lens) ∷ es) = others es
others (send (write_job buf) ∷ es) = send (write_job buf) ∷ others es
others (spawn isvc req_disc message id ∷ es) = spawn isvc req_disc message id ∷ others es

-- All that a connection is and has done, but for its window updates and their counts.
abbrev pub with_effects : List Effect → Parser × Status → Parser × Status
with_effects es s = (
  record s.0 { conn = record s.0.conn { data_len = 0; stream_data_lens = []; effects = es } },
  s.1,
)

unfoldable pub uncredited : Parser × Status → Parser × Status
uncredited s = with_effects (others s.0.conn.effects) s

others-append : (xs ys : List Effect) → others (xs ++ ys) ≡ others xs ++ others ys
unfolding others
others-append [] ys = refl
others-append (send (window_update_job len lens) ∷ xs) ys = others-append xs ys
others-append (send (write_job buf) ∷ xs) ys =
    ap (λ es. send (write_job buf) ∷ es) (others-append xs ys)
others-append (spawn isvc req_disc message id ∷ xs) ys =
    ap (λ es. spawn isvc req_disc message id ∷ es) (others-append xs ys)

bare-behind :
    (s : Parser × Status)
    → s
      ≡ status_behind s.0.conn.data_len s.0.conn.stream_data_lens s.0.conn.effects
          (with_effects [] s)
unfolding behind
bare-behind s =
    let e : s.0.conn.data_len + 0 ≡ s.0.conn.data_len = omega arith in
    rw (e, append-nil s.0.conn.stream_data_lens, append-nil s.0.conn.effects) refl

-- What `uncredited` shows after more bytes, from what it shows before.
more : Env → Bytes → Parser × Status → Parser × Status
more env buf v =
    let fed = feed env (with_effects [] v) buf in
    with_effects (v.0.conn.effects ++ others fed.0.conn.effects) fed

feed-uncredited :
    (env : Env) (s : Parser × Status) (buf : Bytes)
    → uncredited (feed env s buf) ≡ more env buf (uncredited s)
unfolding uncredited more behind
feed-uncredited env s buf =
    let d = s.0.conn.data_len in
    let l = s.0.conn.stream_data_lens in
    let es = s.0.conn.effects in
    let fed = feed env (with_effects [] s) buf in
    ap (λ t. uncredited (feed env t buf)) (bare-behind s)
    ∙ ap uncredited (feed-behind d l es env (with_effects [] s) buf)
    ∙ ap (λ x. with_effects x fed) (others-append es fed.0.conn.effects)

send_credit-uncredited : (s : Parser × Status) → uncredited (send_credit s) ≡ uncredited s
unfolding uncredited send_credit emit others
send_credit-uncredited (p, running) = elim (Bool-cases (p.conn.data_len == 0)) [
  | inl e ↦ rw e refl
  | inr e ↦ rw e (
      ap (λ x. with_effects x (p, running))
        (others-append p.conn.effects
            (send (window_update_job p.conn.data_len p.conn.stream_data_lens) ∷ [])
          ∙ append-nil (others p.conn.effects)))
]
send_credit-uncredited (p, closed) = refl
send_credit-uncredited (p, failed e) = refl
send_credit-uncredited (p, panicked) = refl

send_credit-IsReady :
    (s : Parser × Status)
    → (s.1 ≡ running → IsReady s.0)
    → (send_credit s).1 ≡ running
    → IsReady (send_credit s).0
unfolding send_credit need
send_credit-IsReady (p, running) r e = elim (Bool-cases (p.conn.data_len == 0)) [
  | inl z ↦ rw z (r refl)
  | inr z ↦ rw z (r refl)
]
send_credit-IsReady (p, closed) r e = absurd (cc)
send_credit-IsReady (p, failed x) r e = absurd (cc)
send_credit-IsReady (p, panicked) r e = absurd (cc)

clear_credit-uncredited :
    (p : Parser) → uncredited (clear_credit p, running) ≡ uncredited (p, running)
unfolding uncredited clear_credit
clear_credit-uncredited p = refl

clear_credit-IsReady : (p : Parser) → IsReady p → IsReady (clear_credit p)
unfolding clear_credit need
clear_credit-IsReady p r = r

on_read-IsReady :
    (env : Env) (p : Parser) (buf : Bytes)
    → IsReady p
    → buf ≢ []
    → (on_read env (p, running) buf).1 ≡ running
    → IsReady (on_read env (p, running) buf).0
unfolding on_read
on_read-IsReady env p [] r n e = absurd (n refl)
on_read-IsReady env p (b ∷ buf) r n e =
    let fed = feed env (clear_credit p, running) (b ∷ buf) in
    send_credit-IsReady fed
      (λ e'.
        feed-IsReady env (clear_credit p) (b ∷ buf) (clear_credit-IsReady p r)
          (ap (λ t. (fed.0, t)) e'))
      e

on_read-uncredited :
    (env : Env) (p : Parser) (buf : Bytes)
    → buf ≢ []
    → uncredited (on_read env (p, running) buf) ≡ uncredited (feed env (p, running) buf)
unfolding on_read
on_read-uncredited env p [] n = absurd (n refl)
on_read-uncredited env p (b ∷ buf) n =
    send_credit-uncredited (feed env (clear_credit p, running) (b ∷ buf))
    ∙ feed-uncredited env (clear_credit p, running) (b ∷ buf)
    ∙ ap (more env (b ∷ buf)) (clear_credit-uncredited p)
    ∙ sym (feed-uncredited env (p, running) (b ∷ buf))

-- All the reads, as the bytes of one.
serve_flat :
    (env : Env) (s : Parser × Status) (reads : List Bytes)
    → (s.1 ≡ running → IsReady s.0)
    → All (λ buf. buf ≢ []) reads
    → uncredited (serve env s reads) ≡ uncredited (feed env s (flatten reads))
unfolding serve flatten feed feed_loop on_read
serve_flat env (p, running) [] r n = refl
serve_flat env (p, closed) [] r n = refl
serve_flat env (p, failed e) [] r n = refl
serve_flat env (p, panicked) [] r n = refl
serve_flat env (p, closed) (buf ∷ reads) r n = serve_flat env (p, closed) reads r n.1
serve_flat env (p, failed e) (buf ∷ reads) r n = serve_flat env (p, failed e) reads r n.1
serve_flat env (p, panicked) (buf ∷ reads) r n = serve_flat env (p, panicked) reads r n.1
serve_flat env (p, running) (buf ∷ reads) r n =
    serve_flat env (on_read env (p, running) buf) reads (on_read-IsReady env p buf (r refl) n.0) n.1
    ∙ feed-uncredited env (on_read env (p, running) buf) (flatten reads)
    ∙ ap (more env (flatten reads)) (on_read-uncredited env p buf n.0)
    ∙ sym (feed-uncredited env (feed env (p, running) buf) (flatten reads))
    ∙ ap uncredited (sym (feed-append env p buf (flatten reads) (r refl)))

-- Two ways to cut the same bytes into reads that are not empty, from a connection whose parser is
-- ready, lead to the same streams, header tables, parser and status, and to the same requests and
-- frames sent at once, in the same order: only the window updates, and the counts of DATA that they
-- are made from, may differ.
pub serve_cuts :
    (env : Env) (p : Parser) (reads reads' : List Bytes)
    → IsReady p
    → All (λ buf. buf ≢ []) reads
    → All (λ buf. buf ≢ []) reads'
    → flatten reads ≡ flatten reads'
    → uncredited (serve env (p, running) reads) ≡ uncredited (serve env (p, running) reads')
serve_cuts env p reads reads' r n n' same =
    serve_flat env (p, running) reads (λ _. r) n
    ∙ ap (λ buf. uncredited (feed env (p, running) buf)) same
    ∙ sym (serve_flat env (p, running) reads' (λ _. r) n')
