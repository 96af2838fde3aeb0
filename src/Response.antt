-- ===== src/Response.antt =====
-- pajamax/src/http2.rs, `build_response` and `build_status`; pajamax/src/status.rs; and the writer
-- task of pajamax/src/response_end.rs.
pub mod Blocks
pub mod Sizes
pub mod Client
pub mod Frames
pub mod Writer
pub mod Delivery
mod Runs
use pajamax.Prelude.{
  ℕ, zero, suc, ◌+◌, ◌-◌, ◌%◌, ◌^◌, Bool, true, false, Option, none, some, List, [], ◌∷◌, ◌++◌,
  Bytes, length, ◌==◌, if◌then◌else◌,
}
use pajamax.Prelude.Buffer.{write_at, grow}
use pajamax.Http2.{
  FrameKind, head_size, build_head, end_headers, end_stream, to_be_bytes, build_window_update,
}
use pajamax.Hpack.Encoder.{
  Encoder, encode_status_200, encode_content_type, encode_grpc_status_zero,
  encode_grpc_status_nonzero, encode_grpc_message, encode_grpc_accept_encoding,
}

-- `Code`, and `code as usize`.
pub data Code : Type 0 where
  ok_code cancelled unknown invalid_argument deadline_exceeded not_found : Code
  already_exists permission_denied resource_exhausted failed_precondition : Code
  aborted out_of_range unimplemented internal unavailable data_loss : Code
  unauthenticated dispatch_pending : Code

unfoldable pub code_number : Code → ℕ
code_number Code.ok_code = 0
code_number Code.cancelled = 1
code_number Code.unknown = 2
code_number Code.invalid_argument = 3
code_number Code.deadline_exceeded = 4
code_number Code.not_found = 5
code_number Code.already_exists = 6
code_number Code.permission_denied = 7
code_number Code.resource_exhausted = 8
code_number Code.failed_precondition = 9
code_number Code.aborted = 10
code_number Code.out_of_range = 11
code_number Code.unimplemented = 12
code_number Code.internal = 13
code_number Code.unavailable = 14
code_number Code.data_loss = 15
code_number Code.unauthenticated = 16
code_number Code.dispatch_pending = 101

-- `Status`.
pub record Status : Type 0 where
  pub code : Code
  pub message : Bytes

-- The headers of a reply, and of a failure.
unfoldable pub reply_headers : Encoder → Bytes → Encoder × Bytes
reply_headers e dst =
    let (e₁, typed) = encode_content_type e (encode_status_200 dst) in
    (e₁, encode_grpc_accept_encoding typed)

unfoldable pub status_headers : Encoder → Status → Bytes → Encoder × Bytes
status_headers e status dst =
    let (e₁, replied) = reply_headers e dst in
    (
      e₁,
      encode_grpc_message status.message
          (encode_grpc_status_nonzero e₁ (code_number status.code) replied),
    )

-- A frame of HEADERS: nine zeros, the block, then the head over the zeros.
unfoldable pub build_headers : (Bytes → Encoder × Bytes) → ℕ → ℕ → Bytes → Encoder × Bytes
build_headers block flags stream_id output =
    let start = length output in
    let (e, filled) = block (grow head_size output) in
    (
      e,
      build_head (length filled - start - head_size) FrameKind.headers flags stream_id start filled,
    )

-- The frame of DATA: head and prefix as fourteen zeros, the message, the head, and the message's
-- length. `reply_fn` appends the message.
unfoldable pub build_data : ℕ → (Bytes → Bytes) → Bytes → Bytes
build_data stream_id reply_fn output =
    let data_start = length output in
    let payload_start = data_start + head_size in
    let msg_start = payload_start + 5 in
    let filled = reply_fn (grow (head_size + 5) output) in
    let msg_len = length filled - msg_start in
    let headed = build_head (msg_len + 5) FrameKind.data_frame 0 stream_id data_start filled in
    write_at (payload_start + 1) (to_be_bytes msg_len) headed

-- `build_response`.
unfoldable pub build_response : ℕ → (Bytes → Bytes) → Encoder → Bytes → Encoder × Bytes
build_response stream_id reply_fn e output =
    let (e₁, headed) = build_headers (reply_headers e) end_headers stream_id output in
    let filled = build_data stream_id reply_fn headed in
    build_headers (encode_grpc_status_zero e₁) (end_headers + end_stream) stream_id filled

-- `build_status`.
unfoldable pub build_status : ℕ → Status → Encoder → Bytes → Encoder × Bytes
build_status stream_id status e output =
    build_headers (status_headers e status) (end_headers + end_stream) stream_id output
