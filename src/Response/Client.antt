-- ===== src/Response/Client.antt =====
-- A client's reader of frames, and of the message in a DATA payload.
use pajamax.Prelude.{
  ℕ, zero, suc, ◌+◌, ◌^◌, ◌<◌, ◌≡◌, refl, arith, ◌&&◌, Option, none, some, List, [], ◌∷◌, ◌++◌,
  Bytes, length, drop, length-append, drop-append_self, ◌==◌, if◌then◌else◌,
}
use pajamax.Http2.{
  FrameKind, HeadFlags, Frame, head_bytes, parse_frame, frame_bytes, from_be_bytes, to_be_bytes,
}
use pajamax.Http2.Head.{parse_frame-frame_bytes, length-head_bytes}

-- So many frames, and the bytes behind them.
unfoldable pub peer_frames : ℕ → Bytes → Option (List Frame × Bytes)
peer_frames zero buf = some ([], buf)
peer_frames (suc n) buf = elim (parse_frame buf) [
  | none ↦ none
  | some f ↦ elim (peer_frames n (drop (9 + f.header.len) buf)) [
    | none ↦ none
    | some (fs, rest) ↦ some (f ∷ fs, rest)
  ]
]

abbrev pub frame_of : FrameKind → HeadFlags → ℕ → Bytes → Frame
frame_of kind flags stream_id payload = record {
  header = record { len = length payload; kind = kind; flags = flags; stream_id = stream_id };
  payload = payload;
}

-- The message of a payload that is not compressed: a byte that says so, its length, and itself.
unfoldable pub peer_message : Bytes → Option Bytes
peer_message (flag ∷ b0 ∷ b1 ∷ b2 ∷ b3 ∷ message) =
    if flag == 0 && from_be_bytes b0 b1 b2 b3 == length message then some message else none
peer_message _ = none

drop_frame :
    (kind : FrameKind) (flags stream_id : ℕ) (payload rest : Bytes)
    → drop (9 + length payload) (frame_bytes kind flags stream_id payload ++ rest) ≡ rest
drop_frame kind flags stream_id payload rest =
    let size : length (frame_bytes kind flags stream_id payload) ≡ 9 + length payload =
      unfold frame_bytes in
      omega (
        arith,
        length-append (head_bytes (length payload) kind flags stream_id) payload,
        length-head_bytes (length payload) kind flags stream_id,
      ) in
    rw (← size) (drop-append_self (frame_bytes kind flags stream_id payload) rest)

-- One frame, and those behind it.
pub frames_cons :
    (n : ℕ) (kind : FrameKind) (flags stream_id : ℕ) (payload rest : Bytes) (fs : List Frame)
    → length payload < 2 ^ 24
    → stream_id < 2 ^ 31
    → peer_frames n rest ≡ some (fs, [])
    → peer_frames (suc n) (frame_bytes kind flags stream_id payload ++ rest)
      ≡ some (frame_of kind flags stream_id payload ∷ fs, [])
unfolding peer_frames
frames_cons n kind flags stream_id payload rest fs h k e =
    rw
      (
        parse_frame-frame_bytes kind flags stream_id payload rest h k,
        peer_frames,
        drop_frame kind flags stream_id payload rest,
        e,
      )
      refl

pub frames_nil : peer_frames 0 [] ≡ some ([], [])
unfolding peer_frames
frames_nil = refl

pub peer_message-payload :
    (message : Bytes)
    → length message < 2 ^ 24
    → peer_message (0 ∷ (to_be_bytes (length message) ++ message)) ≡ some message
unfolding peer_message
peer_message-payload message h = ground arith
