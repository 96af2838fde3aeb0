-- ===== src/Connection/Termination.antt =====
-- Running a frame always ends, if the decompressors do.
use pajamax.Prelude.{
  ◌≡◌, ◌*◌, ◌≤◌, zero, suc, arith, ℕ, ◌+◌, ◌%◌, ◌≢◌, true, false, Bool, Option-cases, inl, inr,
  Option, none, some, List, [], ◌∷◌, ◌++◌, Bytes, length, drop, get_elem?, ltb, leb, ◌==◌,
  if◌then◌else◌,
}
use pajamax.Outcome.{
  Outcome, err, stuck, invalid_http2, Safe, Ends, Ends-ne_stuck, Ends-bind, Safe-ne-stuck,
}
use pajamax.Http2.{
  is_ack, FrameKind, HeadFlags, kind_eq, is_end_stream, is_end_headers, is_padded, is_priority,
  is_ping_ack, from_be_bytes, strip_data_padding, strip_headers, skip_priority, build_ping_ack,
}
use pajamax.Hpack.Decoder.{PathKind, cached, new_path, find_path_and_encoding}
use pajamax.Hpack.Decoder.Text.{GrpcEncoding, identity, gzip, deflate, zstd}
use pajamax.Hpack.Decoder.Total.{find_path_and_encoding_ends}
use pajamax.Connection.Process.State.{Env, Stream, Pending, Conn, position}
use pajamax.Connection.Process.{
  settings_loop, on_settings, decode_grpc_message, find_route, cached_route, route_path,
  resolve_route, open_stream, finish_stream, count_data, data_at, on_data, admit_headers,
  on_headers, on_continuation, on_ping, on_reset, on_window_update, check_expected, check_stream,
  dispatch_frame, process_frame, stay,
}

-- The decompressors return, with a result, an error or a panic.
pub record DecompressorsEnd (env : Env) : Type 0 where
  pub gunzip : (b : Bytes) → env.gunzip b ≢ stuck
  pub inflate : (b : Bytes) → env.inflate b ≢ stuck
  pub unzstd : (b : Bytes) → env.unzstd b ≢ stuck

if-Ends {ℓ} :
    {A : Type ℓ} (b : Bool) (m n : Outcome A) → Ends m → Ends n → Ends (if b then m else n)
if-Ends true m n h k = h
if-Ends false m n h k = k

decode_grpc_message-Ends :
    (env : Env) (buf : Bytes) (encoding : GrpcEncoding)
    → DecompressorsEnd env
    → Ends (decode_grpc_message env buf encoding)
unfolding decode_grpc_message
decode_grpc_message-Ends env [] encoding h = tt
decode_grpc_message-Ends env (flag ∷ rest) encoding h =
    if-Ends (ltb (length (flag ∷ rest)) 5) _ _ tt
      (if-Ends (flag == 0) _ _ tt (decompressed encoding))
  where
    decompressed :
        (enc : GrpcEncoding)
        → Ends (elim enc as (λ _. Outcome Bytes) [
          | gzip ↦ env.gunzip (drop 4 rest)
          | deflate ↦ env.inflate (drop 4 rest)
          | zstd ↦ env.unzstd (drop 4 rest)
          | identity ↦ err (invalid_http2 "compressed flag set but no grpc-encoding")
        ])
    decompressed gzip = Ends-ne_stuck _ (h.gunzip (drop 4 rest))
    decompressed deflate = Ends-ne_stuck _ (h.inflate (drop 4 rest))
    decompressed zstd = Ends-ne_stuck _ (h.unzstd (drop 4 rest))
    decompressed identity = tt

strip_data_padding-Ends : (flags : HeadFlags) (buf : Bytes) → Ends (strip_data_padding flags buf)
unfolding strip_data_padding
strip_data_padding-Ends flags [] = if-Ends (is_padded flags) _ _ tt tt
strip_data_padding-Ends flags (p ∷ rest) =
    if-Ends (is_padded flags) _ _ (if-Ends (leb (length (p ∷ rest)) (1 + p)) _ _ tt tt) tt

strip_headers-Ends : (flags : HeadFlags) (buf : Bytes) → Ends (strip_headers flags buf)
unfolding strip_headers skip_priority
strip_headers-Ends flags buf =
    Ends-bind (strip_data_padding flags buf) _ (strip_data_padding-Ends flags buf)
      λ b. if-Ends (is_priority flags) _ _ (if-Ends (ltb (length b) 5) _ _ tt tt) tt

route_path-Ends :
    (services : List (Bytes → Option ℕ)) (cache : List (ℕ × ℕ)) (path : PathKind)
    → Ends (route_path services cache path)
unfolding route_path cached_route
route_path-Ends services cache (cached i) = elim (Option-cases (get_elem? cache i)) [
  | inl e ↦ rw (e, Safe) tt
  | inr (r, e) ↦ rw (e, Safe) tt
]
route_path-Ends services cache (new_path path) = elim (Option-cases (find_route services 0 path)) [
  | inl e ↦ rw (e, Safe) tt
  | inr (r, e) ↦ rw (e, Safe) tt
]

open_stream-Ends :
    (env : Env) (c : Conn) (id : ℕ) (end : Bool) (buf : Bytes) → Ends (open_stream env c id end buf)
unfolding open_stream resolve_route
open_stream-Ends env c id end buf =
    Ends-bind (resolve_route env c buf) _
      (Ends-bind (find_path_and_encoding buf c.hpack_decoder) _
        (Ends-ne_stuck _ (find_path_and_encoding_ends buf c.hpack_decoder))
        λ r.
          Ends-bind (route_path env.services c.route_cache r.1.path) _
            (route_path-Ends env.services c.route_cache r.1.path) (λ _. tt))
      (λ _. tt)

finish_stream-Ends :
    (env : Env) (c : Conn) (i : ℕ) (s : Stream)
    → DecompressorsEnd env
    → Ends (finish_stream env c i s)
unfolding finish_stream
finish_stream-Ends env c i s h =
    Ends-bind (decode_grpc_message env s.body s.encoding) _
      (decode_grpc_message-Ends env s.body s.encoding h) (λ _. tt)

data_at-Ends :
    (env : Env) (c : Conn) (flags : HeadFlags) (buf : Bytes) (o : Option (ℕ × Stream))
    → DecompressorsEnd env
    → Ends (data_at env c flags buf o)
unfolding data_at
data_at-Ends env c flags buf none h = tt
data_at-Ends env c flags buf (some (i, s)) h =
    if-Ends (is_end_stream flags) _ _ (finish_stream-Ends env _ i _ h) tt

on_data-Ends :
    (env : Env) (c : Conn) (flags : HeadFlags) (id len : ℕ) (payload : Bytes)
    → DecompressorsEnd env
    → Ends (on_data env c flags id len payload)
unfolding on_data
on_data-Ends env c flags id len payload h =
    Ends-bind (strip_data_padding flags payload) _ (strip_data_padding-Ends flags payload) λ buf.
      data_at-Ends env (count_data id len c) flags buf (position id (count_data id len c).streams) h

on_headers-Ends :
    (env : Env) (c : Conn) (flags : HeadFlags) (id : ℕ) (payload : Bytes)
    → Ends (on_headers env c flags id payload)
unfolding on_headers admit_headers
on_headers-Ends env c flags id payload = if-Ends (id % 2 == 0) _ _ tt (
    if-Ends (leb id c.last_client_stream_id) _ _ tt (
      if-Ends (leb env.max_concurrent_streams (length c.streams)) _ _ tt (
        Ends-bind (strip_headers flags payload) _ (strip_headers-Ends flags payload) λ buf.
          if-Ends (is_end_headers flags) _ _
            (open_stream-Ends env (record c { last_client_stream_id = id }) id (is_end_stream flags)
              buf)
            tt)))

on_continuation-Ends :
    (env : Env) (c : Conn) (flags : HeadFlags) (payload : Bytes) (o : Option Pending)
    → Ends (on_continuation env c flags payload o)
unfolding on_continuation
on_continuation-Ends env c flags payload none = tt
on_continuation-Ends env c flags payload (some p) =
    if-Ends (is_end_headers flags) _ _
      (open_stream-Ends env (record c { continuation_buf = none }) p.stream_id p.end_stream
        (p.buf ++ payload))
      tt

on_ping-Ends : (c : Conn) (flags : HeadFlags) (payload : Bytes) → Ends (on_ping c flags payload)
unfolding on_ping build_ping_ack
on_ping-Ends c flags payload =
    if-Ends (is_ping_ack flags) _ _ tt
      (Ends-bind (build_ping_ack payload []) _ (if-Ends (length payload == 8) _ _ tt tt) (λ _. tt))

on_reset-Ends : (c : Conn) (id len : ℕ) → Ends (on_reset c id len)
unfolding on_reset
on_reset-Ends c id len = elim (Option-cases (position id c.streams)) [
  | inl e ↦ rw e (if-Ends (len == 4) _ _ tt tt)
  | inr (r, e) ↦ rw e (if-Ends (len == 4) _ _ tt tt)
]

on_window_update-Ends :
    (c : Conn) (payload : Bytes) (len : ℕ) → Ends (on_window_update c payload len)
unfolding on_window_update
on_window_update-Ends c (b0 ∷ b1 ∷ b2 ∷ b3 ∷ rest) len =
    if-Ends (len == 4) _ _ (if-Ends (from_be_bytes (b0 % 128) b1 b2 b3 == 0) _ _ tt tt) tt
on_window_update-Ends c _ len = if-Ends (len == 4) _ _ tt tt

check_expected-Ends :
    (kind : FrameKind) (id : ℕ) (o : Option Pending) → Ends (check_expected kind id o)
unfolding check_expected
check_expected-Ends kind id none = tt
check_expected-Ends kind id (some p) =
    if-Ends (kind_eq kind FrameKind.continuation) _ _ (if-Ends (id == p.stream_id) _ _ tt tt) tt

check_stream-Ends : (kind : FrameKind) (id : ℕ) → Ends (check_stream kind id)
unfolding check_stream
check_stream-Ends FrameKind.data_frame id = if-Ends (id == 0) _ _ tt tt
check_stream-Ends FrameKind.headers id = if-Ends (id == 0) _ _ tt tt
check_stream-Ends FrameKind.settings id = if-Ends (id == 0) _ _ tt tt
check_stream-Ends FrameKind.ping id = if-Ends (id == 0) _ _ tt tt
check_stream-Ends FrameKind.go_away id = if-Ends (id == 0) _ _ tt tt
check_stream-Ends _ id = tt

stay-Ends : (m : Outcome Conn) → Ends m → Ends (stay m)
stay-Ends m h = Ends-bind m _ h (λ _. tt)

settings_loop-Ends :
    (fuel offset len : ℕ) (payload : Bytes)
    → len ≤ offset + 6 * fuel + 5
    → Ends (settings_loop fuel offset len payload)
unfolding settings_loop
settings_loop-Ends zero offset len payload h =
    let over : leb (offset + 6) len ≡ false = ground arith in rw (over, Safe) tt
settings_loop-Ends (suc fuel) offset len payload h =
    if-Ends (leb (offset + 6) len) _ _
      (if-Ends (ltb (length payload) (offset + 6)) _ _ tt
        (settings_loop-Ends fuel (offset + 6) len payload (omega arith)))
      tt

on_settings-Ends :
    (c : Conn) (flags len : ℕ) (payload : Bytes) → Ends (on_settings c flags len payload)
unfolding on_settings
on_settings-Ends c flags len payload = if-Ends (is_ack flags) _ _ tt (
    Ends-bind (settings_loop len 0 len payload) _
      (settings_loop-Ends len 0 len payload (omega arith)) (λ _. tt))

dispatch_frame-Ends :
    (env : Env) (c : Conn) (kind : FrameKind) (flags : HeadFlags) (id len : ℕ) (payload : Bytes)
    → DecompressorsEnd env
    → Ends (dispatch_frame env c kind flags id len payload)
unfolding dispatch_frame
dispatch_frame-Ends env c FrameKind.data_frame flags id len payload h =
    stay-Ends _ (on_data-Ends env c flags id len payload h)
dispatch_frame-Ends env c FrameKind.headers flags id len payload h =
    stay-Ends _ (on_headers-Ends env c flags id payload)
dispatch_frame-Ends env c FrameKind.continuation flags id len payload h =
    stay-Ends _ (on_continuation-Ends env c flags payload c.continuation_buf)
dispatch_frame-Ends env c FrameKind.settings flags id len payload h =
    stay-Ends _ (on_settings-Ends c flags len payload)
dispatch_frame-Ends env c FrameKind.ping flags id len payload h =
    stay-Ends _ (on_ping-Ends c flags payload)
dispatch_frame-Ends env c FrameKind.go_away flags id len payload h = if-Ends (ltb len 8) _ _ tt tt
dispatch_frame-Ends env c FrameKind.reset flags id len payload h =
    stay-Ends _ (on_reset-Ends c id len)
dispatch_frame-Ends env c FrameKind.window_update flags id len payload h =
    stay-Ends _ (on_window_update-Ends c payload len)
dispatch_frame-Ends env c _ flags id len payload h = tt

-- Where the decompressors return, `process_frame` does on every frame and connection: with a
-- result, an error or a panic.
pub process_frame_ends :
    (env : Env) (c : Conn) (kind : FrameKind) (flags : HeadFlags) (id len : ℕ) (payload : Bytes)
    → DecompressorsEnd env
    → process_frame env c kind flags id len payload ≢ stuck
unfolding process_frame
process_frame_ends env c kind flags id len payload h =
    Safe-ne-stuck (λ _. Unit {0}) _
      (Ends-bind (check_expected kind id c.continuation_buf) _
        (check_expected-Ends kind id c.continuation_buf)
        λ _.
          Ends-bind (check_stream kind id) _ (check_stream-Ends kind id)
            λ _. dispatch_frame-Ends env c kind flags id len payload h)
