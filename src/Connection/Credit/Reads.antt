-- ===== src/Connection/Credit/Reads.antt =====
-- The bytes of a read do the same behind earlier counts and effects.
use pajamax.Prelude.{
  ℕ, zero, suc, ◌≡◌, refl, ap, ◌∙◌, true, false, Bool, Bool-cases, inl, inr, Option, none, some,
  List, [], ◌∷◌, Bytes, length, take, drop, ltb, ◌==◌,
}
use pajamax.Outcome.{Outcome, ok, err, panic, stuck}
use pajamax.Http2.{FrameHeader, parse, is_end_stream}
use pajamax.Connection.Process.{process_frame, count_data, finish_stream}
use pajamax.Connection.Process.State.{Env, Stream, Effect, position}
use pajamax.Connection.Feed.{
  Parser, ParseState, Status, running, closed, failed, panicked, is_streamed, process_current,
  header_read, header_complete, streamed_at, streamed_complete, payload_complete, store_in, store,
  need, complete_in, complete, settle, round, after, feed_loop, feed,
}
use pajamax.Connection.Credit.{behind, over}
use pajamax.Connection.Credit.Frames.{
  over-both, over-if, process_frame-behind, finish_stream-behind, count_data-behind,
}

module _ (d : ℕ) (l : List (ℕ × ℕ)) (es : List Effect) where
  abbrev pub parser_behind : Parser → Parser
  parser_behind p = record p { conn = behind d l es p.conn }

  abbrev both : Parser × Bool → Parser × Bool
  both r = (parser_behind r.0, r.1)

  abbrev pub status_behind : Parser × Status → Parser × Status
  status_behind s = (parser_behind s.0, s.1)

  process_current-behind :
      (env : Env) (p : Parser) (bytes : Bytes)
      → process_current env (parser_behind p) bytes ≡ over both (process_current env p bytes)
  unfolding process_current
  process_current-behind env p bytes =
      let h = p.current in
      over-both (process_frame env p.conn h.kind h.flags h.stream_id h.len bytes) _
        (λ r. (behind d l es r.0, r.1)) both _ _
        (process_frame-behind d l es env p.conn h.kind h.flags h.stream_id h.len bytes) (λ _. refl)

  header_read-behind :
      (env : Env) (p : Parser) (o : Option FrameHeader)
      → header_read env (parser_behind p) o ≡ over both (header_read env p o)
  unfolding header_read
  header_read-behind env p none = refl
  header_read-behind env p (some h) =
      over-if (h.len == 0) both _ _ _ _
        (process_current-behind env (record p { header_buf = []; current = h; payload_read = 0 })
          [])
        (over-if (is_streamed h) both _ _ _ _ refl refl)

  streamed_at-behind :
      (env : Env) (p : Parser) (o : Option (ℕ × Stream))
      → streamed_at env (parser_behind p) o ≡ over both (streamed_at env p o)
  unfolding streamed_at
  streamed_at-behind env p none = refl
  streamed_at-behind env p (some (i, s)) =
      over-if (is_end_stream p.current.flags) both _ _ _ _
        (over-both (finish_stream env p.conn i s) _ (behind d l es) both _ _
          (finish_stream-behind d l es env p.conn i s) (λ _. refl))
        refl

  streamed_complete-behind :
      (env : Env) (p : Parser)
      → streamed_complete env (parser_behind p) ≡ over both (streamed_complete env p)
  unfolding streamed_complete behind count_data
  streamed_complete-behind env p =
      let c = count_data p.current.stream_id p.current.len p.conn in
      ap
        (λ x. streamed_at env (record p { conn = x }) (position p.current.stream_id p.conn.streams))
        (count_data-behind d l es p.current.stream_id p.current.len p.conn)
      ∙ streamed_at-behind env (record p { conn = c }) (position p.current.stream_id p.conn.streams)

  payload_complete-behind :
      (env : Env) (p : Parser)
      → payload_complete env (parser_behind p) ≡ over both (payload_complete env p)
  unfolding payload_complete
  payload_complete-behind env p =
      over-if (is_streamed p.current) both _ _ _ _ (streamed_complete-behind env p)
        (process_current-behind env p p.control_buf)

  complete_in-behind :
      (state : ParseState) (env : Env) (p : Parser)
      → complete_in state env (parser_behind p) ≡ over both (complete_in state env p)
  unfolding complete_in header_complete
  complete_in-behind ParseState.header env p = header_read-behind env p (parse p.header_buf)
  complete_in-behind ParseState.payload env p = payload_complete-behind env p

  store_in-behind :
      (state : ParseState) (bytes : Bytes) (p : Parser)
      → store_in state bytes (parser_behind p) ≡ parser_behind (store_in state bytes p)
  unfolding store_in behind
  store_in-behind ParseState.header bytes p = refl
  store_in-behind ParseState.payload bytes p = elim (Bool-cases (is_streamed p.current)) [
    | inl e ↦ rw e refl
    | inr e ↦ rw e refl
  ]

  settle-behind :
      (p : Parser) (m : Outcome (Parser × Bool))
      → settle (parser_behind p) (over both m) ≡ status_behind (settle p m)
  unfolding settle
  settle-behind p (ok (q, true)) = refl
  settle-behind p (ok (q, false)) = refl
  settle-behind p (err e) = refl
  settle-behind p panic = refl
  settle-behind p stuck = refl

  round-behind :
      (env : Env) (p : Parser) (buf : Bytes)
      → round env (parser_behind p) buf ≡ status_behind (round env p buf)
  unfolding round need store complete
  round-behind env p buf =
      let taken = take (need p) buf in
      let q = store_in p.state taken p in
      elim (Bool-cases (ltb (length buf) (need p))) [
        | inl e ↦ rw e (ap (λ x. (x, running)) (store_in-behind p.state buf p))
        | inr e ↦
            rw (e, store_in-behind p.state taken p, complete_in-behind q.state env q)
              (settle-behind q (complete_in q.state env q))
      ]

  after-behind :
      (s : Parser × Status) (next next' : Parser → Parser × Status)
      → ((q : Parser) → next' (parser_behind q) ≡ status_behind (next q))
      → after (status_behind s) next' ≡ status_behind (after s next)
  after-behind (p, running) next next' h = h p
  after-behind (p, closed) next next' h = refl
  after-behind (p, failed e) next next' h = refl
  after-behind (p, panicked) next next' h = refl

  feed_loop-behind :
      (fuel : ℕ) (env : Env) (p : Parser) (buf : Bytes)
      → feed_loop fuel env (parser_behind p) buf ≡ status_behind (feed_loop fuel env p buf)
  unfolding feed_loop need
  feed_loop-behind fuel env p [] = refl
  feed_loop-behind zero env p (b ∷ buf) = refl
  feed_loop-behind (suc fuel) env p (b ∷ buf) = rw (round-behind env p (b ∷ buf)) (
      after-behind (round env p (b ∷ buf)) _ _
        (λ q. feed_loop-behind fuel env q (drop (need p) (b ∷ buf))))

  pub feed-behind :
      (env : Env) (s : Parser × Status) (buf : Bytes)
      → feed env (status_behind s) buf ≡ status_behind (feed env s buf)
  unfolding feed
  feed-behind env s buf = after-behind s _ _ (λ q. feed_loop-behind (length buf) env q buf)
