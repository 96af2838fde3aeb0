-- ===== src/Connection/Invariant/Reads.antt =====
-- The invariant through the parser: it holds after any reads.
use pajamax.Prelude.{
  ℕ, ◌≡◌, refl, arith, true, false, Bool, Bool-cases, inl, inr, Option, none, some, [], Bytes,
  length, take, ltb, ltb→lt, not_ltb→le, ◌==◌,
}
use pajamax.Outcome.{Outcome, ok, err, panic, stuck, OnOk, OnOk-bind, OnOk-eq}
use pajamax.Http2.{FrameHeader, parse, is_end_stream}
use pajamax.Connection.Process.{process_frame, finish_stream, count_data}
use pajamax.Connection.Process.State.{Env, Stream, position}
use pajamax.Connection.Feed.{
  Parser, ParseState, running, is_streamed, process_current, header_read, streamed_at, store_in,
  complete_in, header_complete, streamed_complete, payload_complete, store, complete, settle, round,
  feed, need,
}
use pajamax.Connection.Feed.Ready.{IsReady, round_short, round_enough, feed_induction}
use pajamax.Connection.Invariant.{Inv}
use pajamax.Connection.Invariant.Streams.{
  Rising-extend_stream, length-extend_stream, position-found,
}
use pajamax.Connection.Invariant.Frames.{finish_stream-Inv, count_data-Inv}
use pajamax.Connection.Invariant.Dispatch.{process_frame-Inv}

abbrev KeepsParser : Env → Outcome (Parser × Bool) → Type 0
KeepsParser env = OnOk (λ t. Inv env t.0.conn)

process_current-Inv :
    (env : Env) (p : Parser) (bytes : Bytes)
    → Inv env p.conn
    → KeepsParser env (process_current env p bytes)
unfolding process_current
process_current-Inv env p bytes v =
    let h = p.current in
    let m = process_frame env p.conn h.kind h.flags h.stream_id h.len bytes in
    OnOk-bind (λ (t : Parser × Bool). Inv env t.0.conn) m _
      λ r e.
        OnOk-eq (λ t. Inv env t.0) m r
          (process_frame-Inv env p.conn h.kind h.flags h.stream_id h.len bytes v) e

header_read-Inv :
    (env : Env) (p : Parser) (o : Option FrameHeader)
    → Inv env p.conn
    → KeepsParser env (header_read env p o)
unfolding header_read
header_read-Inv env p none v = tt
header_read-Inv env p (some h) v = elim (Bool-cases (h.len == 0)) [
  | inl z ↦
      rw (z, OnOk)
        (process_current-Inv env (record p { header_buf = []; current = h; payload_read = 0 }) [] v)
  | inr z ↦ elim (Bool-cases (is_streamed h)) [
    | inl b ↦ rw (z, b, OnOk) v
    | inr b ↦ rw (z, b, OnOk) v
  ]
]

streamed_at-Inv :
    (env : Env) (p : Parser) (id : ℕ) (o : Option (ℕ × Stream))
    → Inv env p.conn
    → position id p.conn.streams ≡ o
    → KeepsParser env (streamed_at env p o)
unfolding streamed_at
streamed_at-Inv env p id none v e = v
streamed_at-Inv env p id (some (i, s)) v e =
    let (_, o, _) = position-found (length env.services) 0 _ id i s p.conn.streams v.ids e in
    let m = finish_stream env p.conn i s in
    elim (Bool-cases (is_end_stream p.current.flags)) [
      | inl b ↦
          rw (b, OnOk)
            (OnOk-bind (λ (t : Parser × Bool). Inv env t.0.conn) m _
              λ c₁ e₁. OnOk-eq (Inv env) m c₁ (finish_stream-Inv env p.conn i s v o.served) e₁)
      | inr b ↦ rw (b, OnOk) v
    ]

payload_complete-Inv :
    (env : Env) (p : Parser) → Inv env p.conn → KeepsParser env (payload_complete env p)
unfolding payload_complete streamed_complete
payload_complete-Inv env p v =
    let h = p.current in
    let c = count_data h.stream_id h.len p.conn in
    elim (Bool-cases (is_streamed h)) [
      | inl b ↦
          rw (b, OnOk)
            (streamed_at-Inv env (record p { conn = c }) h.stream_id _
              (count_data-Inv env p.conn h.stream_id h.len v) refl)
      | inr b ↦ rw (b, OnOk) (process_current-Inv env p p.control_buf v)
    ]

complete_in-Inv :
    (env : Env) (p : Parser) (state : ParseState)
    → Inv env p.conn
    → KeepsParser env (complete_in state env p)
unfolding complete_in header_complete
complete_in-Inv env p ParseState.header v = header_read-Inv env p (parse p.header_buf) v
complete_in-Inv env p ParseState.payload v = payload_complete-Inv env p v

store_in-Inv :
    (env : Env) (state : ParseState) (bytes : Bytes) (p : Parser)
    → Inv env p.conn
    → Inv env (store_in state bytes p).conn
unfolding store_in
store_in-Inv env ParseState.header bytes p v = v
store_in-Inv env ParseState.payload bytes p v = elim (Bool-cases (is_streamed p.current)) [
  | inl b ↦ rw b (record {
    ids = Rising-extend_stream _ 0 _ p.current.stream_id bytes p.conn.streams v.ids;
    pending = v.pending;
    room = omega (arith, v.room, length-extend_stream p.current.stream_id bytes p.conn.streams);
    credit = v.credit;
    routes = v.routes;
    spawned = v.spawned;
  })
  | inr b ↦ rw b v
]

settle-Inv :
    (env : Env) (p : Parser) (m : Outcome (Parser × Bool))
    → Inv env p.conn
    → KeepsParser env m
    → Inv env (settle p m).0.conn
unfolding settle
settle-Inv env p (ok (q, true)) v h = h
settle-Inv env p (ok (q, false)) v h = h
settle-Inv env p (err e) v h = v
settle-Inv env p panic v h = v
settle-Inv env p stuck v h = v

round-Inv :
    (env : Env) (p : Parser) (buf : Bytes) → Inv env p.conn → Inv env (round env p buf).0.conn
unfolding store complete
round-Inv env p buf v = elim (Bool-cases (ltb (length buf) (need p))) [
  | inl short ↦ rw (round_short env p buf (ltb→lt _ _ short)) (store_in-Inv env p.state buf p v)
  | inr enough ↦
      let q = store (take (need p) buf) p in
      let w : Inv env q.conn = store_in-Inv env p.state (take (need p) buf) p v in
      rw (round_enough env p buf (not_ltb→le _ _ enough))
        (settle-Inv env q (complete env q) w (complete_in-Inv env q q.state w))
]

-- From a ready parser and a connection that satisfies the invariant, it holds after the bytes of
-- any read, also where they end the connection.
pub feed-Inv :
    (env : Env) (p : Parser) (buf : Bytes)
    → IsReady p
    → Inv env p.conn
    → Inv env (feed env (p, running) buf).0.conn
feed-Inv env p buf r v =
    feed_induction (λ s. Inv env s.0.conn) env (λ p' buf' r' v'. round-Inv env p' buf' v') p buf r v
