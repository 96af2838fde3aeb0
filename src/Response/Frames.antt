-- ===== src/Response/Frames.antt =====
-- A response as frames: their heads count their payloads, and the peer reads their headers.
use pajamax.Prelude.{
  some, ℕ, ◌+◌, ◌-◌, ◌^◌, ◌<◌, ◌≡◌, refl, sym, ap, subst, ◌∙◌, arith, [], ◌∷◌, ◌++◌, Bytes, length,
  replicate, length-append, append_assoc, append-nil,
}
use pajamax.Prelude.Buffer.{write_at, write_at-append, grow}
use pajamax.Outcome.{ok}
use pajamax.Http2.{
  FrameKind, head_size, head_bytes, frame_bytes, end_headers, end_stream, to_be_bytes,
}
use pajamax.Http2.Build.{build_head-grow}
use pajamax.Http2.Head.{length-head_bytes}
use pajamax.Hpack.Encoder.{Encoder, encode_grpc_status_zero, grpc_status, zero_text}
use pajamax.Hpack.Encoder.Peer.{Table, Synced, peer_fields}
use pajamax.Hpack.Encoder.Sync.{grpc_status_zero-append}
use pajamax.Response.{
  Status, reply_headers, status_headers, build_headers, build_data, build_response, build_status,
}
use pajamax.Response.Client.{
  peer_frames, frame_of, peer_message, frames_cons, frames_nil, peer_message-payload,
}
use pajamax.Response.Sizes.{length-reply_headers, length-grpc_status_zero, length-status_headers}
use pajamax.Response.Blocks.{
  reply_fields, failure_fields, reply_headers-append, status_headers-append, reply_headers_read,
  status_headers_read, trailers_read,
}

-- A block that only appends makes one HEADERS frame.
build_headers_lem :
    (block : Bytes → Encoder × Bytes) (e : Encoder) (bytes : Bytes) (flags stream_id : ℕ)
    (output : Bytes)
    → ((dst : Bytes) → block dst ≡ (e, dst ++ bytes))
    → build_headers block flags stream_id output
      ≡ (e, output ++ frame_bytes FrameKind.headers flags stream_id bytes)
unfolding build_headers frame_bytes
build_headers_lem block e bytes flags stream_id output h =
    let count : length (output ++ (replicate 9 0 ++ bytes)) - length output - 9 ≡ length bytes =
      omega (
        arith,
        length-append output (replicate 9 0 ++ bytes),
        length-append (replicate {A = ℕ} 9 0) bytes,
      ) in
    rw
      (
        h (grow head_size output),
        append_assoc output (replicate 9 0) bytes,
        count,
        build_head-grow (length bytes) FrameKind.headers flags stream_id output bytes,
      )
      refl

-- The payload of DATA: no compression, the message's length, and the message.
abbrev pub grpc_payload : Bytes → Bytes
grpc_payload message = 0 ∷ (to_be_bytes (length message) ++ message)

-- The message's length, written behind a head and the byte that says that it is not compressed.
length_behind :
    (output head len message : Bytes)
    → length head ≡ 9
    → length len ≡ 4
    → write_at (length output + 9 + 1) len (output ++ (head ++ (0 ∷ (replicate 4 0 ++ message))))
      ≡ output ++ (head ++ (0 ∷ (len ++ message)))
length_behind output head len message h l = simp append_assoc at (
    write_at-append (output ++ (head ++ 0 ∷ [])) len (replicate 4 0) message (length output + 9 + 1)
      (omega (arith, length-append output (head ++ 0 ∷ []), length-append head (0 ∷ []))) l)

build_data_lem :
    (stream_id : ℕ) (reply_fn : Bytes → Bytes) (message output : Bytes)
    → ((dst : Bytes) → reply_fn dst ≡ dst ++ message)
    → build_data stream_id reply_fn output
      ≡ output ++ frame_bytes FrameKind.data_frame 0 stream_id (grpc_payload message)
unfolding build_data frame_bytes
build_data_lem stream_id reply_fn message output h =
    let n = length message in
    let tail : Bytes = 0 ∷ (replicate 4 0 ++ message) in
    let filled : reply_fn (grow (head_size + 5) output) ≡ output ++ (replicate 9 0 ++ tail) =
      h (grow 14 output) ∙ append_assoc output (replicate 14 0) message in
    let count : length (output ++ (replicate 9 0 ++ tail)) - (length output + 9 + 5) ≡ n =
      omega (arith, length-append output (replicate 9 0 ++ tail)) in
    let five : n + 5 ≡ length (grpc_payload message) = omega arith in
    rw (filled, count, build_head-grow (n + 5) FrameKind.data_frame 0 stream_id output tail, five)
      (length_behind output
        (head_bytes (length (grpc_payload message)) FrameKind.data_frame 0 stream_id)
        (to_be_bytes n) message
        (length-head_bytes (length (grpc_payload message)) FrameKind.data_frame 0 stream_id) refl)

response_frames :
    (stream_id : ℕ) (reply_fn : Bytes → Bytes) (message : Bytes) (e : Encoder) (output : Bytes)
    → ((dst : Bytes) → reply_fn dst ≡ dst ++ message)
    → build_response stream_id reply_fn e output ≡ (
      (encode_grpc_status_zero (reply_headers e []).0 []).0,
      output
          ++ (frame_bytes FrameKind.headers end_headers stream_id (reply_headers e []).1
              ++ (frame_bytes FrameKind.data_frame 0 stream_id (grpc_payload message)
                  ++ frame_bytes FrameKind.headers
                      (end_headers + end_stream)
                      stream_id
                      (encode_grpc_status_zero (reply_headers e []).0 []).1)),
    )
unfolding build_response
response_frames stream_id reply_fn message e output h =
    let e₁ = (reply_headers e []).0 in
    let first = frame_bytes FrameKind.headers end_headers stream_id (reply_headers e []).1 in
    let body = frame_bytes FrameKind.data_frame 0 stream_id (grpc_payload message) in
    rw
      (
        build_headers_lem (reply_headers e) e₁ (reply_headers e []).1 end_headers stream_id output
            (reply_headers-append e),
        build_data_lem stream_id reply_fn message (output ++ first) h,
        build_headers_lem (encode_grpc_status_zero e₁) (encode_grpc_status_zero e₁ []).0
            (encode_grpc_status_zero e₁ []).1 (end_headers + end_stream) stream_id
            ((output ++ first) ++ body) (grpc_status_zero-append e₁),
      )
      (simp append_assoc)

-- A client whose table is `table` reads these bytes as a reply, and has `table₂` then: HEADERS with
-- the fields of a reply, DATA with the message, and HEADERS with `grpc-status: 0` that end the
-- stream; no byte is left over.
pub record ReplyRead (stream_id : ℕ) (message : Bytes) (table : Table) (sent : Bytes)
    (table₂ : Table) : Type 0 where
  pub headers : Bytes
  pub payload : Bytes
  pub trailers : Bytes
  pub table₁ : Table
  pub frames :
      peer_frames 3 sent
      ≡ some (
        frame_of FrameKind.headers end_headers stream_id headers
            ∷ frame_of FrameKind.data_frame 0 stream_id payload
            ∷ frame_of FrameKind.headers (end_headers + end_stream) stream_id trailers
            ∷ [],
        [],
      )
  pub headers_read : peer_fields 3 table headers ≡ ok (reply_fields, table₁, [])
  pub message_read : peer_message payload ≡ some message
  pub trailers_read : peer_fields 1 table₁ trailers ≡ ok ((grpc_status, zero_text) ∷ [], table₂, [])

-- For a stream below 2^31 and a message that fits in a frame behind its five bytes of prefix: where
-- `reply_fn` appends the message, `build_response` only appends to the output, and a client whose
-- table the encoder knows reads what it appends as HEADERS, DATA and HEADERS of that stream, the
-- fields of a reply, the message, and `grpc-status: 0`, with no byte left over. The encoder knows
-- the client's table afterwards.
pub build_response_lem :
    (stream_id : ℕ) (reply_fn : Bytes → Bytes) (message : Bytes) (e : Encoder) (output : Bytes)
    (table : Table)
    → stream_id < 2 ^ 31
    → 5 + length message < 2 ^ 24
    → ((dst : Bytes) → reply_fn dst ≡ dst ++ message)
    → Synced e table
    → (sent : Bytes) × (table₂ : Table) × ((build_response stream_id reply_fn e output).1
        ≡ output ++ sent)
      × ReplyRead stream_id message table sent table₂
      × Synced (build_response stream_id reply_fn e output).0 table₂
build_response_lem stream_id reply_fn message e output table small fits h s =
    let (table₁, s₁, read₁) = reply_headers_read e table s in
    let e₁ = (reply_headers e []).0 in
    let block₁ = (reply_headers e []).1 in
    let (table₂, s₂, read₂) = trailers_read e₁ table₁ s₁ in
    let block₂ = (encode_grpc_status_zero e₁ []).1 in
    let built = response_frames stream_id reply_fn message e output h in
    let last = end_headers + end_stream in
    let third : peer_frames 1 (frame_bytes FrameKind.headers last stream_id block₂)
        ≡ some (frame_of FrameKind.headers last stream_id block₂ ∷ [], []) =
      rw append-nil at (
        frames_cons 0 FrameKind.headers last stream_id block₂ [] []
          (omega (arith, length-grpc_status_zero e₁)) small frames_nil) in
    (
      frame_bytes FrameKind.headers end_headers stream_id block₁
          ++ (frame_bytes FrameKind.data_frame 0 stream_id (grpc_payload message)
              ++ frame_bytes FrameKind.headers last stream_id block₂),
      table₂,
      ap (λ t. t.1) built,
      record {
        headers = block₁;
        payload = grpc_payload message;
        trailers = block₂;
        table₁ = table₁;
        frames =
            frames_cons 2 FrameKind.headers end_headers stream_id block₁ _ _
              (omega (arith, length-reply_headers e)) small
              (frames_cons 1 FrameKind.data_frame 0 stream_id (grpc_payload message) _ _
                (omega arith) small third);
        headers_read = rw append-nil at (read₁ []);
        message_read = peer_message-payload message (omega arith);
        trailers_read = rw append-nil at (read₂ []);
      },
      subst (λ t. Synced t table₂) (sym (ap (λ t. t.0) built)) s₂,
    )

-- A client whose table is `table` reads these bytes as a failure, and has `table₁` then: HEADERS
-- that end the stream, with the fields of a reply, the code's digits and the message.
pub record FailureRead (stream_id : ℕ) (status : Status) (table : Table) (sent : Bytes)
    (table₁ : Table) : Type 0 where
  pub headers : Bytes
  pub frames :
      peer_frames 1 sent
      ≡ some (frame_of FrameKind.headers (end_headers + end_stream) stream_id headers ∷ [], [])
  pub headers_read :
      peer_fields 5 table headers ≡ ok (reply_fields ++ failure_fields status, table₁, [])

-- For a stream below 2^31 and a status whose message is at least 300 bytes shorter than 2^24:
-- `build_status` only appends to the output, and a client whose table the encoder knows reads what
-- it appends as HEADERS of that stream with the fields of a reply, the code's digits and the
-- message, with no byte left over. The encoder knows the client's table afterwards.
pub build_status_lem :
    (stream_id : ℕ) (status : Status) (e : Encoder) (output : Bytes) (table : Table)
    → stream_id < 2 ^ 31
    → 300 + length status.message < 2 ^ 24
    → Synced e table
    → (sent : Bytes) × (table₁ : Table) × ((build_status stream_id status e output).1
        ≡ output ++ sent)
      × FailureRead stream_id status table sent table₁
      × Synced (build_status stream_id status e output).0 table₁
unfolding build_status
build_status_lem stream_id status e output table small fits s =
    let (table₁, s₁, read) = status_headers_read e status table s (omega arith) in
    let last = end_headers + end_stream in
    let block = (status_headers e status []).1 in
    let built =
      build_headers_lem (status_headers e status) (status_headers e status []).0 block last
        stream_id output (status_headers-append e status) in
    (
      frame_bytes FrameKind.headers last stream_id block,
      table₁,
      ap (λ t. t.1) built,
      record {
        headers = block;
        frames = rw append-nil at (
            frames_cons 0 FrameKind.headers last stream_id block [] []
              (omega (arith, length-status_headers e status)) small frames_nil);
        headers_read = rw append-nil at (read []);
      },
      subst (λ t. Synced t table₁) (sym (ap (λ t. t.0) built)) s₁,
    )
