-- ===== src/Connection/Process.antt =====
-- pajamax/src/connection.rs: `process_frame`, `decode_grpc_message`, `resolve_route`.
pub mod State
use pajamax.Prelude.{
  ℕ, zero, suc, ◌+◌, ◌-◌, ◌%◌, ◌^◌, Bool, true, false, not, ◌&&◌, Option, none, some, List, [], ◌∷◌,
  ◌++◌, Bytes, length, drop, get_elem?, ltb, leb, ◌==◌, if◌then◌else◌,
}
use pajamax.Outcome.{Outcome, ok, err, panic, stuck, invalid_http2, unknown_method, ◌>>=◌}
use pajamax.Http2.{
  FrameKind, HeadFlags, kind_eq, is_end_stream, is_end_headers, is_ack, is_ping_ack, from_be_bytes,
  strip_data_padding, strip_headers, build_rst_stream, build_settings_ack, build_ping_ack,
}
use pajamax.Hpack.Decoder.{
  Decoder, PathKind, cached, new_path, HeaderResult, find_path_and_encoding,
}
use pajamax.Hpack.Decoder.Text.{GrpcEncoding, identity, gzip, deflate, zstd}
use State.{
  Env, Stream, Effect, spawn, send, write_job, Pending, Conn, position, remove_at, update_at, emit,
}

-- `decode_grpc_message`: the message behind its five bytes of prefix, decompressed if flagged.
unfoldable pub decode_grpc_message : Env → Bytes → GrpcEncoding → Outcome Bytes
decode_grpc_message env [] encoding = err (invalid_http2 "DATA too short for grpc")
decode_grpc_message env (compressed ∷ rest) encoding =
    if ltb (length (compressed ∷ rest)) 5
    then err (invalid_http2 "DATA too short for grpc")
    else if compressed == 0
    then ok (drop 4 rest)
    else elim encoding [
      | gzip ↦ env.gunzip (drop 4 rest)
      | deflate ↦ env.inflate (drop 4 rest)
      | zstd ↦ env.unzstd (drop 4 rest)
      | identity ↦ err (invalid_http2 "compressed flag set but no grpc-encoding")
    ]

-- The first service, in order, that routes the path, and its discriminant.
unfoldable pub find_route : List (Bytes → Option ℕ) → ℕ → Bytes → Option (ℕ × ℕ)
find_route [] i path = none
find_route (route ∷ services) i path =
    let later = find_route services (i + 1) path in
    elim (route path) [ some req_disc ↦ some (i, req_disc) | none ↦ later ]

-- `route_cache[i]`.
unfoldable pub cached_route : List (ℕ × ℕ) → ℕ → Outcome (ℕ × ℕ)
cached_route cache i = elim (get_elem? cache i) [ none ↦ panic | some r ↦ ok r ]

-- The second half of `resolve_route`: a cached path is looked up, a new one joins the cache.
unfoldable pub route_path :
    List (Bytes → Option ℕ) → List (ℕ × ℕ) → PathKind → Outcome (List (ℕ × ℕ) × (ℕ × ℕ))
unfolding cached_route
route_path services cache (cached i) = do r ← cached_route cache i; ok (cache, r)
route_path services cache (new_path path) = elim (find_route services 0 path) [
  | none ↦ err (unknown_method path)
  | some r ↦ ok (cache ++ r ∷ [], r)
]

-- `resolve_route`: the connection after it, the service, the method and the encoding.
unfoldable pub resolve_route : Env → Conn → Bytes → Outcome (Conn × (ℕ × ℕ) × GrpcEncoding)
resolve_route env c headers_buf = do
  (d, result) ← find_path_and_encoding headers_buf c.hpack_decoder
  (cache, r) ← route_path env.services c.route_cache result.path
  ok (record c { hpack_decoder = d; route_cache = cache }, r, result.encoding)

-- What HEADERS and the last CONTINUATION do with a whole header block: a request with no body
-- starts at once, any other waits for its DATA.
unfoldable pub open_stream : Env → Conn → ℕ → Bool → Bytes → Outcome Conn
open_stream env c stream_id end_stream headers_buf = do
  (c', (isvc, req_disc), encoding) ← resolve_route env c headers_buf
  ok (
      if end_stream then emit (spawn isvc req_disc [] stream_id) c' else record c' {
        streams =
            c'.streams
            ++ (record {
              id = stream_id;
              isvc = isvc;
              req_disc = req_disc;
              encoding = encoding;
              body = [];
            })
              ∷ [];
      })

-- The end of a request: its stream at `i` is removed, and its message handed to the service.
unfoldable pub finish_stream : Env → Conn → ℕ → Stream → Outcome Conn
finish_stream env c i s = do
  message ← decode_grpc_message env s.body s.encoding
  ok (emit (spawn s.isvc s.req_disc message s.id) (record c { streams = remove_at i c.streams }))

-- The credit of one DATA frame.
unfoldable pub count_data : ℕ → ℕ → Conn → Conn
count_data stream_id payload_len c = record c {
  data_len = c.data_len + payload_len;
  stream_data_lens = c.stream_data_lens ++ (stream_id, payload_len) ∷ [];
}

-- What DATA does with the stream that it names, if that is open.
unfoldable pub data_at : Env → Conn → HeadFlags → Bytes → Option (ℕ × Stream) → Outcome Conn
data_at env c flags req_buf none = ok c
data_at env c flags req_buf (some (i, s)) =
    let s₁ = record s { body = s.body ++ req_buf } in
    let c₁ = record c { streams = update_at i s₁ c.streams } in
    if is_end_stream flags then finish_stream env c₁ i s₁ else ok c₁

-- The branch `FrameKind::Data`. DATA of a stream that is not open is counted and dropped.
unfoldable pub on_data : Env → Conn → HeadFlags → ℕ → ℕ → Bytes → Outcome Conn
on_data env c flags stream_id payload_len payload = do
  req_buf ← strip_data_padding flags payload
  data_at env (count_data stream_id payload_len c) flags req_buf
      (position stream_id (count_data stream_id payload_len c).streams)

-- What HEADERS of a new stream do. Past the limit of streams they are refused by RST_STREAM, and
-- their header block is not decoded.
unfoldable pub admit_headers : Env → Conn → HeadFlags → ℕ → Bytes → Outcome Conn
admit_headers env c flags stream_id payload =
    if leb env.max_concurrent_streams (length c.streams)
    then ok (emit (send (write_job (build_rst_stream stream_id 7 []))) c)
    else do
      headers_buf ← strip_headers flags payload
      if is_end_headers flags
          then open_stream env c stream_id (is_end_stream flags) headers_buf
          else ok (record c {
            continuation_buf = some (record {
              stream_id = stream_id;
              end_stream = is_end_stream flags;
              buf = headers_buf;
            });
          })

-- The branch `FrameKind::Headers`.
unfoldable pub on_headers : Env → Conn → HeadFlags → ℕ → Bytes → Outcome Conn
on_headers env c flags stream_id payload =
    if stream_id % 2 == 0
    then err (invalid_http2 "client stream ID must be odd")
    else if leb stream_id c.last_client_stream_id
    then err (invalid_http2 "client stream ID must be monotonically increasing")
    else admit_headers env (record c { last_client_stream_id = stream_id }) flags stream_id payload

-- The branch `FrameKind::Continuation`.
unfoldable pub on_continuation : Env → Conn → HeadFlags → Bytes → Option Pending → Outcome Conn
on_continuation env c flags payload none = err (invalid_http2 "unexpected CONTINUATION frame")
on_continuation env c flags payload (some p) =
    let p₁ = record p { buf = p.buf ++ payload } in
    if is_end_headers flags
    then open_stream env (record c { continuation_buf = none }) p₁.stream_id p₁.end_stream p₁.buf
    else ok (record c { continuation_buf = some p₁ })

-- The loop over the client's settings. A round indexes six bytes of the payload, which are only
-- traced. Each round is six bytes on, so the payload's length is enough fuel.
unfoldable pub settings_loop : ℕ → ℕ → ℕ → Bytes → Outcome (Unit {0})
settings_loop zero offset payload_len payload =
    if leb (offset + 6) payload_len then stuck else ok tt
settings_loop (suc fuel) offset payload_len payload =
    let rest = settings_loop fuel (offset + 6) payload_len payload in
    if leb (offset + 6) payload_len
    then (if ltb (length payload) (offset + 6) then panic else rest)
    else ok tt

-- The branch `FrameKind::Settings`.
unfoldable pub on_settings : Conn → HeadFlags → ℕ → Bytes → Outcome Conn
on_settings c flags payload_len payload = if is_ack flags then ok c else do
  _ ← settings_loop payload_len 0 payload_len payload
  ok (emit (send (write_job (build_settings_ack []))) c)

-- The branch `FrameKind::Ping`.
unfoldable pub on_ping : Conn → HeadFlags → Bytes → Outcome Conn
on_ping c flags payload =
    if is_ping_ack flags
    then ok c
    else do output ← build_ping_ack payload []; ok (emit (send (write_job output)) c)

-- The branch `FrameKind::Reset`.
unfoldable pub on_reset : Conn → ℕ → ℕ → Outcome Conn
on_reset c stream_id payload_len =
    if payload_len == 4
    then (elim (position stream_id c.streams) [
      | none ↦ ok c
      | some (i, s) ↦ ok (record c { streams = remove_at i c.streams })
    ])
    else err (invalid_http2 "RST_STREAM payload must be 4 bytes")

-- The branch `FrameKind::WindowUpdate`: checked, and otherwise ignored.
unfoldable pub on_window_update : Conn → Bytes → ℕ → Outcome Conn
on_window_update c (b0 ∷ b1 ∷ b2 ∷ b3 ∷ rest) payload_len =
    if payload_len == 4
    then (if from_be_bytes (b0 % 128) b1 b2 b3 == 0
        then err (invalid_http2 "WINDOW_UPDATE increment must be non-zero")
        else ok c)
    else err (invalid_http2 "WINDOW_UPDATE payload must be 4 bytes")
on_window_update c _ payload_len =
    if payload_len == 4 then panic else err (invalid_http2 "WINDOW_UPDATE payload must be 4 bytes")

-- The test before the `match`: only a CONTINUATION of the same stream may follow HEADERS that
-- have not ended.
unfoldable pub check_expected : FrameKind → ℕ → Option Pending → Outcome (Unit {0})
check_expected kind stream_id none = ok tt
check_expected kind stream_id (some p) =
    if kind_eq kind FrameKind.continuation
    then (if stream_id == p.stream_id
        then ok tt
        else err (invalid_http2 "CONTINUATION stream ID mismatch"))
    else err (invalid_http2 "expected CONTINUATION frame")

-- Whether the frame's kind belongs on stream 0, and whether this frame is there.
unfoldable pub check_stream : FrameKind → ℕ → Outcome (Unit {0})
check_stream FrameKind.data_frame stream_id =
    if stream_id == 0 then err (invalid_http2 "DATA/HEADERS must not be on stream 0") else ok tt
check_stream FrameKind.headers stream_id =
    if stream_id == 0 then err (invalid_http2 "DATA/HEADERS must not be on stream 0") else ok tt
check_stream FrameKind.settings stream_id =
    if stream_id == 0 then ok tt else err (invalid_http2 "SETTINGS/PING/GOAWAY must be on stream 0")
check_stream FrameKind.ping stream_id =
    if stream_id == 0 then ok tt else err (invalid_http2 "SETTINGS/PING/GOAWAY must be on stream 0")
check_stream FrameKind.go_away stream_id =
    if stream_id == 0 then ok tt else err (invalid_http2 "SETTINGS/PING/GOAWAY must be on stream 0")
check_stream _ stream_id = ok tt

abbrev pub stay : Outcome Conn → Outcome (Conn × Bool)
stay m = m >>= λ c. ok (c, false)

-- The `match` of `process_frame`, and whether the connection is to close.
unfoldable pub dispatch_frame :
    Env → Conn → FrameKind → HeadFlags → ℕ → ℕ → Bytes → Outcome (Conn × Bool)
dispatch_frame env c FrameKind.data_frame flags stream_id payload_len payload =
    stay (on_data env c flags stream_id payload_len payload)
dispatch_frame env c FrameKind.headers flags stream_id payload_len payload =
    stay (on_headers env c flags stream_id payload)
dispatch_frame env c FrameKind.continuation flags stream_id payload_len payload =
    stay (on_continuation env c flags payload c.continuation_buf)
dispatch_frame env c FrameKind.settings flags stream_id payload_len payload =
    stay (on_settings c flags payload_len payload)
dispatch_frame env c FrameKind.ping flags stream_id payload_len payload =
    stay (on_ping c flags payload)
dispatch_frame env c FrameKind.go_away flags stream_id payload_len payload =
    if ltb payload_len 8
    then err (invalid_http2 "GOAWAY payload must be at least 8 bytes")
    else ok (c, true)
dispatch_frame env c FrameKind.reset flags stream_id payload_len payload =
    stay (on_reset c stream_id payload_len)
dispatch_frame env c FrameKind.window_update flags stream_id payload_len payload =
    stay (on_window_update c payload payload_len)
dispatch_frame env c FrameKind.priority flags stream_id payload_len payload = ok (c, false)
dispatch_frame env c FrameKind.push_promise flags stream_id payload_len payload = ok (c, false)
dispatch_frame env c FrameKind.unknown flags stream_id payload_len payload = ok (c, false)

-- `process_frame`.
unfoldable pub process_frame :
    Env → Conn → FrameKind → HeadFlags → ℕ → ℕ → Bytes → Outcome (Conn × Bool)
process_frame env c kind flags stream_id payload_len payload =
    check_expected kind stream_id c.continuation_buf >>= λ _. check_stream kind stream_id >>= λ _.
    dispatch_frame env c kind flags stream_id payload_len payload
