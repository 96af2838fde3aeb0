-- ===== src/Connection/Settings.antt =====
-- What the connection does with SETTINGS of the client.
use pajamax.Prelude.{
  ℕ, zero, suc, ◌+◌, ◌*◌, ◌≤◌, ◌≡◌, refl, ap, ◌∙◌, arith, false, Bool-cases, inl, inr, none, [],
  Bytes, length, leb, ltb, ◌==◌, if◌then◌else◌,
}
use pajamax.Outcome.{ok, err, invalid_http2}
use pajamax.Http2.{FrameKind, HeadFlags, is_ack, ack, frame_bytes}
use pajamax.Http2.Build.{build_settings_ack_lem}
use pajamax.Connection.Process.State.{Env, Conn, send, write_job, emit}
use pajamax.Connection.Process.{
  settings_loop, on_settings, check_expected, check_stream, dispatch_frame, process_frame,
}

-- The loop reads no byte past the payload, and ends.
settings_loop_ok :
    (fuel offset : ℕ) (payload : Bytes)
    → length payload ≤ offset + 6 * fuel + 5
    → settings_loop fuel offset (length payload) payload ≡ ok tt
unfolding settings_loop
settings_loop_ok zero offset payload h =
    let over : leb (offset + 6) (length payload) ≡ false = ground arith in rw over refl
settings_loop_ok (suc fuel) offset payload h =
    elim (Bool-cases (leb (offset + 6) (length payload))) [
      | inr e ↦ rw e refl
      | inl e ↦
          let inside : ltb (length payload) (offset + 6) ≡ false = ground arith in
          rw (e, inside) (settings_loop_ok fuel (offset + 6) payload (omega arith))
    ]

on_settings_lem :
    (c : Conn) (flags : HeadFlags) (payload : Bytes)
    → on_settings c flags (length payload) payload
      ≡ ok (
          if is_ack flags
          then c
          else emit (send (write_job (frame_bytes FrameKind.settings ack 0 []))) c)
unfolding on_settings
on_settings_lem c flags payload = elim (Bool-cases (is_ack flags)) [
  | inl e ↦ rw e refl
  | inr e ↦
      rw (e, settings_loop_ok (length payload) 0 payload (omega arith), build_settings_ack_lem [])
        refl
]

-- Where no CONTINUATION is expected, a SETTINGS frame of any payload, of a length that is no
-- multiple of six too, is answered on stream 0 by one SETTINGS frame with the acknowledgement flag,
-- unless it is an acknowledgement itself, and changes nothing else; on any other stream it is an
-- error. Its loop ends, and indexes no byte past the payload.
pub process_frame_settings :
    (env : Env) (c : Conn) (flags : HeadFlags) (id : ℕ) (payload : Bytes)
    → c.continuation_buf ≡ none
    → process_frame env c FrameKind.settings flags id (length payload) payload ≡ (
        if id == 0
        then ok (
          (if is_ack flags
              then c
              else emit (send (write_job (frame_bytes FrameKind.settings ack 0 []))) c),
          false,
        )
        else err (invalid_http2 "SETTINGS/PING/GOAWAY must be on stream 0"))
unfolding process_frame check_stream dispatch_frame
process_frame_settings env c flags id payload h = elim (Bool-cases (id == 0)) [
  | inl e ↦ rw (idle, e, on_settings_lem c flags payload) refl
  | inr e ↦ rw (idle, e) refl
]
  where
    idle : check_expected FrameKind.settings id c.continuation_buf ≡ ok tt
    idle = ap (check_expected FrameKind.settings id) h ∙ (unfold check_expected in refl)
