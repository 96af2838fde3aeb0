-- ===== src/Connection/Feed.antt =====
-- pajamax/src/connection.rs: the loop of `handle_connection` over the bytes of a read.
pub mod Store
pub mod Ready
pub mod Chunks
use pajamax.Prelude.{
  ℕ, zero, suc, ◌+◌, ◌-◌, min, Bool, true, false, not, ◌&&◌, Option, none, some, List, [], ◌∷◌,
  ◌++◌, Bytes, length, take, drop, leb, ltb, ◌==◌, if◌then◌else◌,
}
use pajamax.Outcome.{Error, Outcome, ok, err, panic, stuck, ◌>>=◌}
use pajamax.Http2.{FrameKind, HeadFlags, FrameHeader, parse, kind_eq, is_padded, is_end_stream}
use pajamax.Hpack.Decoder
use pajamax.Connection.Process.{process_frame, finish_stream, count_data}
use pajamax.Connection.Process.State.{
  Env, Stream, Conn, Effect, send, window_update_job, position, update_at, emit,
}

-- `ParseState`.
pub data ParseState : Type 0 where
  header payload : ParseState

-- The frame parser's variables. `header_buf` is `header_buf[..header_len]`, and `current` is
-- `cur_payload_len`, `cur_kind`, `cur_flags` and `cur_stream_id`.
pub record Parser : Type 0 where
  pub conn : Conn
  pub header_buf : Bytes
  pub control_buf : Bytes
  pub current : FrameHeader
  pub payload_read : ℕ
  pub state : ParseState

-- The variables before the first read.
unfoldable pub new_conn : Conn
unfolding Decoder.new
new_conn = record {
  streams = [];
  hpack_decoder = Decoder.new;
  route_cache = [];
  continuation_buf = none;
  last_client_stream_id = 0;
  data_len = 0;
  stream_data_lens = [];
  effects = [];
}

unfoldable pub new_parser : Parser
unfolding new_conn
new_parser = record {
  conn = new_conn;
  header_buf = [];
  control_buf = [];
  current = record { len = 0; kind = FrameKind.unknown; flags = 0; stream_id = 0 };
  payload_read = 0;
  state = ParseState.header;
}

-- `cur_kind == FrameKind::Data && !cur_flags.is_padded()`: a payload that goes straight to its
-- stream.
unfoldable pub is_streamed : FrameHeader → Bool
is_streamed h = kind_eq h.kind FrameKind.data_frame && not (is_padded h.flags)

-- `process_frame` of the current frame, which then waits for the next header.
unfoldable pub process_current : Env → Parser → Bytes → Outcome (Parser × Bool)
process_current env p bytes =
    let h = p.current in
    process_frame env p.conn h.kind h.flags h.stream_id h.len bytes >>= λ r.
    ok (record p { conn = r.0; state = ParseState.header }, r.1)

-- A header that has been read.
unfoldable pub header_read : Env → Parser → Option FrameHeader → Outcome (Parser × Bool)
unfolding process_current
header_read env p none = panic
header_read env p (some h) =
    let p₁ = record p { header_buf = []; current = h; payload_read = 0 } in
    if h.len == 0
    then process_current env p₁ []
    else if is_streamed h
    then ok (record p₁ { state = ParseState.payload }, false)
    else ok (record p₁ { control_buf = []; state = ParseState.payload }, false)

-- Nine bytes of header. `parse` does not fail on these: its `unwrap` is the panic.
unfoldable pub header_complete : Env → Parser → Outcome (Parser × Bool)
unfolding header_read
header_complete env p = header_read env p (parse p.header_buf)

-- DATA without padding, complete, of the stream that it names, if that is open.
unfoldable pub streamed_at : Env → Parser → Option (ℕ × Stream) → Outcome (Parser × Bool)
streamed_at env p none = ok (record p { state = ParseState.header }, false)
streamed_at env p (some (i, s)) =
    if is_end_stream p.current.flags
    then (finish_stream env p.conn i s >>= λ c.
        ok (record p { conn = c; state = ParseState.header }, false))
    else ok (record p { state = ParseState.header }, false)

unfoldable pub streamed_complete : Env → Parser → Outcome (Parser × Bool)
unfolding streamed_at
streamed_complete env p =
    let c = count_data p.current.stream_id p.current.len p.conn in
    streamed_at env (record p { conn = c }) (position p.current.stream_id c.streams)

unfoldable pub payload_complete : Env → Parser → Outcome (Parser × Bool)
unfolding streamed_complete process_current
payload_complete env p =
    if is_streamed p.current then streamed_complete env p else process_current env p p.control_buf

-- Bytes that join the body of a stream, if it is open.
unfoldable pub extend_stream : ℕ → Bytes → List Stream → List Stream
extend_stream stream_id bytes streams = elim (position stream_id streams) [
  | none ↦ streams
  | some (i, s) ↦ update_at i (record s { body = s.body ++ bytes }) streams
]

-- The bytes of a round, stored where they belong.
unfoldable pub store_in : ParseState → Bytes → Parser → Parser
store_in ParseState.header bytes p = record p { header_buf = p.header_buf ++ bytes }
store_in ParseState.payload bytes p =
    if is_streamed p.current
    then record p {
      conn = record p.conn { streams = extend_stream p.current.stream_id bytes p.conn.streams };
      payload_read = p.payload_read + length bytes;
    }
    else record p {
      control_buf = p.control_buf ++ bytes;
      payload_read = p.payload_read + length bytes;
    }

unfoldable pub store : Bytes → Parser → Parser
unfolding store_in
store bytes p = store_in p.state bytes p

-- How many bytes the header or the payload still needs.
unfoldable pub need : Parser → ℕ
need p = elim p.state [
  | ParseState.header ↦ 9 - length p.header_buf
  | ParseState.payload ↦ p.current.len - p.payload_read
]

unfoldable pub complete_in : ParseState → Env → Parser → Outcome (Parser × Bool)
complete_in ParseState.header = header_complete
complete_in ParseState.payload = payload_complete

unfoldable pub complete : Env → Parser → Outcome (Parser × Bool)
unfolding complete_in
complete env p = complete_in p.state env p

-- How far the connection is: it goes on, was closed by GOAWAY, or ended by an error or a panic.
pub data Status : Type 0 where
  running closed : Status
  failed : Error → Status
  panicked : Status

-- What a round ends with. On an error the connection's variables are dropped; its effects stay.
unfoldable pub settle : Parser → Outcome (Parser × Bool) → Parser × Status
settle p (ok (q, true)) = (q, closed)
settle p (ok (q, false)) = (q, running)
settle p (err e) = (p, failed e)
settle p panic = (p, panicked)
settle p stuck = (p, panicked)

-- One round of `while pos < len`, on the bytes from `pos` on: how many it takes, and what is next.
unfoldable pub round : Env → Parser → Bytes → Parser × Status
unfolding settle
round env p buf =
    if ltb (length buf) (need p)
    then (store buf p, running)
    else (let q = store (take (need p) buf) p in settle q (complete env q))

-- What is done next, if the connection goes on.
abbrev pub after : Parser × Status → (Parser → Parser × Status) → Parser × Status
after (p, running) next = next p
after (p, closed) next = (p, closed)
after (p, failed e) next = (p, failed e)
after (p, panicked) next = (p, panicked)

-- The loop. Each round takes a byte, so the length of the bytes is enough fuel.
unfoldable pub feed_loop : ℕ → Env → Parser → Bytes → Parser × Status
feed_loop fuel env p [] = (p, running)
feed_loop zero env p (b ∷ buf) = (p, running)
feed_loop (suc fuel) env p (b ∷ buf) =
    after (round env p (b ∷ buf)) (λ q. feed_loop fuel env q (drop (need p) (b ∷ buf)))

-- The bytes of one read, after any end of the connection nothing more.
unfoldable pub feed : Env → Parser × Status → Bytes → Parser × Status
feed env s buf = after s (λ p. feed_loop (length buf) env p buf)

-- What a read does before and after its bytes: the credit starts at 0, and is sent if there is any.
unfoldable pub clear_credit : Parser → Parser
clear_credit p = record p { conn = record p.conn { data_len = 0; stream_data_lens = [] } }

unfoldable pub send_credit : Parser × Status → Parser × Status
send_credit (p, running) =
    let c = p.conn in
    if c.data_len == 0 then (p, running) else (
      record p {
        conn =
            emit (send (window_update_job c.data_len c.stream_data_lens))
              (record c { stream_data_lens = [] });
      },
      running,
    )
send_credit (p, s) = (p, s)

-- A read of no bytes is the end of the connection.
unfoldable pub on_read : Env → Parser × Status → Bytes → Parser × Status
on_read env (p, running) [] = (p, closed)
on_read env (p, running) (b ∷ buf) = send_credit (feed env (clear_credit p, running) (b ∷ buf))
on_read env (p, closed) buf = (p, closed)
on_read env (p, failed e) buf = (p, failed e)
on_read env (p, panicked) buf = (p, panicked)

-- All the reads of a connection.
unfoldable pub serve : Env → Parser × Status → List Bytes → Parser × Status
serve env s [] = s
serve env s (buf ∷ reads) = serve env (on_read env s buf) reads
