-- ===== src/Http2/Build.antt =====
-- Each `build_` function appends one well-formed frame and leaves the output before it alone.
use pajamax.Prelude.{
  ℕ, ◌+◌, ◌≡◌, refl, sym, ap, arith, [], ◌++◌, Bytes, length, replicate, append_assoc, append-nil,
  length-append, replicate-add, length-replicate, Bool-cases, ==_iff, inl, inr, ◌==◌, if◌then◌else◌,
}
use pajamax.Prelude.Buffer.{write_at, write_at-append, grow}
use pajamax.Http2.{
  FrameKind, head_size, head_bytes, build_head, frame_bytes, build_window_update, build_rst_stream,
  build_settings_ack, build_ping_ack, build_settings, to_be_bytes, to_be_bytes16, ack,
}
use pajamax.Http2.Head.{length-head_bytes}
use pajamax.Outcome.{ok, panic}

-- A head written over nine zeros.
pub build_head-grow :
    (len : ℕ) (kind : FrameKind) (flags stream_id : ℕ) (output tail : Bytes)
    → build_head len kind flags stream_id
        (length output)
        (output ++ (replicate head_size 0 ++ tail))
      ≡ output ++ (head_bytes len kind flags stream_id ++ tail)
unfolding build_head
build_head-grow len kind flags stream_id output tail =
    write_at-append output (head_bytes len kind flags stream_id) (replicate 9 0) tail _ refl refl

-- Bytes written behind a head.
write_behind :
    (output head bytes old tail : Bytes) (n : ℕ)
    → n ≡ length output + length head
    → length bytes ≡ length old
    → write_at n bytes (output ++ (head ++ (old ++ tail))) ≡ output ++ (head ++ (bytes ++ tail))
write_behind output head bytes old tail n hn hb = simp append_assoc at (
    write_at-append (output ++ head) bytes old tail n (omega (arith, length-append output head)) hb)

-- A head written over the first nine of `head_size + n` new zeros.
headed_lem :
    (kind : FrameKind) (len flags stream_id : ℕ) (output : Bytes) (n : ℕ)
    → build_head len kind flags stream_id (length output) (grow (head_size + n) output)
      ≡ output ++ (head_bytes len kind flags stream_id ++ replicate n 0)
headed_lem kind len flags stream_id output n =
    rw (replicate-add {A = ℕ} 9 n 0)
      (build_head-grow len kind flags stream_id output (replicate n 0))

-- Head and payload together: what each function below does to the output.
framed :
    (kind : FrameKind) (flags stream_id : ℕ) (output payload : Bytes) (n : ℕ)
    → length payload ≡ n
    → write_at
        (length output + head_size)
        payload
        (build_head n kind flags stream_id (length output) (grow (head_size + n) output))
      ≡ output ++ frame_bytes kind flags stream_id payload
unfolding frame_bytes
framed kind flags stream_id output payload n e =
    rw (headed_lem kind n flags stream_id output n, ← e)
      (simp append-nil at (
        write_behind output (head_bytes (length payload) kind flags stream_id) payload
          (replicate (length payload) 0) [] (length output + 9)
          (omega (arith, length-head_bytes (length payload) kind flags stream_id))
          (sym (length-replicate (length payload) 0))))

-- `build_window_update` appends one WINDOW_UPDATE frame, whose payload is the credit mod 2^32.
pub build_window_update_lem :
    (len stream_id : ℕ) (output : Bytes)
    → build_window_update len stream_id output
      ≡ output ++ frame_bytes FrameKind.window_update 0 stream_id (to_be_bytes len)
unfolding build_window_update
build_window_update_lem len stream_id output =
    framed FrameKind.window_update 0 stream_id output (to_be_bytes len) 4 refl

-- `build_rst_stream` appends one RST_STREAM frame, whose payload is the error code.
pub build_rst_stream_lem :
    (stream_id error_code : ℕ) (output : Bytes)
    → build_rst_stream stream_id error_code output
      ≡ output ++ frame_bytes FrameKind.reset 0 stream_id (to_be_bytes error_code)
unfolding build_rst_stream
build_rst_stream_lem stream_id error_code output =
    framed FrameKind.reset 0 stream_id output (to_be_bytes error_code) 4 refl

-- SETTINGS with the acknowledgement flag and no payload.
pub build_settings_ack_lem :
    (output : Bytes) → build_settings_ack output ≡ output ++ frame_bytes FrameKind.settings ack 0 []
unfolding build_settings_ack frame_bytes
build_settings_ack_lem output = build_head-grow 0 FrameKind.settings ack 0 output []

-- `build_ping_ack` appends one PING frame with the acknowledgement flag and the eight bytes that
-- were received; on a payload of any other length it panics.
pub build_ping_ack_lem :
    (payload output : Bytes)
    → build_ping_ack payload output ≡ (
        if length payload == 8
        then ok (output ++ frame_bytes FrameKind.ping 0x1 0 payload)
        else panic)
unfolding build_ping_ack
build_ping_ack_lem payload output = elim (Bool-cases (length payload == 8)) [
  | inl e ↦ rw e (ap ok (framed FrameKind.ping 0x1 0 output payload 8 ((==_iff _ _).0 e)))
  | inr e ↦ rw e
]

-- `build_settings` appends one SETTINGS frame, whose payload is one identifier and its value.
pub build_settings_lem :
    (ident value : ℕ) (output : Bytes)
    → build_settings ident value output
      ≡ output ++ frame_bytes FrameKind.settings 0 0 (to_be_bytes16 ident ++ to_be_bytes value)
unfolding build_settings frame_bytes
build_settings_lem ident value output =
    rw
      (
        headed_lem FrameKind.settings 6 0 0 output 6,
        write_behind output head (to_be_bytes16 ident) (replicate 2 0) (replicate 4 0)
            (length output + 9) (omega (arith, size)) refl,
        ← append_assoc head (to_be_bytes16 ident) (replicate 4 0),
      )
      (simp append-nil at (
        write_behind output (head ++ to_be_bytes16 ident) (to_be_bytes value) (replicate 4 0) []
          (length output + 9 + 2) (omega (arith, size, length-append head (to_be_bytes16 ident)))
          refl))
  where
    head : Bytes
    head = head_bytes 6 FrameKind.settings 0 0

    size : length head ≡ 9
    size = length-head_bytes 6 FrameKind.settings 0 0
