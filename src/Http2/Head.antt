-- ===== src/Http2/Head.antt =====
-- Frame headers: what is written is read back, and what is read is in range.
use pajamax.Prelude.{
  ℕ, ◌+◌, ◌≤◌, ◌<◌, ◌^◌, ◌≡◌, refl, arith, none, some, ◌∷◌, ◌++◌, Bytes, length, AllBytes,
  length-append, take-append_self,
}
use pajamax.Http2.{
  FrameKind, FrameHeader, kind_from, kind_byte, parse, parse_frame, head_bytes, frame_bytes,
}

-- Every kind but `Unknown` is the one that its own byte stands for, and a byte above 9 is `Unknown`.
pub kind_from-kind_byte : (k : FrameKind) → kind_from (kind_byte k) ≡ k
unfolding kind_from kind_byte
kind_from-kind_byte FrameKind.data_frame = refl
kind_from-kind_byte _ = refl

-- A header of a length below 2^24 and a stream below 2^31 is read back from the nine bytes that
-- `build_head` writes for it, whatever follows them.
pub parse-head_bytes :
    (len : ℕ) (kind : FrameKind) (flags stream_id : ℕ) (rest : Bytes)
    → len < 2 ^ 24
    → stream_id < 2 ^ 31
    → parse (head_bytes len kind flags stream_id ++ rest)
      ≡ some (record { len = len; kind = kind; flags = flags; stream_id = stream_id })
unfolding parse head_bytes
parse-head_bytes len kind flags stream_id rest hl hs = ground (arith, kind_from-kind_byte kind)

pub length-head_bytes :
    (len : ℕ) (kind : FrameKind) (flags stream_id : ℕ)
    → length (head_bytes len kind flags stream_id) ≡ 9
unfolding head_bytes
length-head_bytes len kind flags stream_id = refl

-- From nine or more bytes a header is read, with a length below 2^24 and a stream below 2^31.
pub parse_total :
    (buf : Bytes)
    → AllBytes buf
    → 9 ≤ length buf
    → (h : FrameHeader) × (parse buf ≡ some h) × (h.len < 2 ^ 24) × (h.stream_id < 2 ^ 31)
unfolding parse
parse_total (b0 ∷ b1 ∷ b2 ∷ b3 ∷ b4 ∷ b5 ∷ b6 ∷ b7 ∷ b8 ∷ rest) p h =
    (_, refl, omega arith, omega arith)
parse_total _ p h = absurd (omega arith)

pub parse_short : (buf : Bytes) → length buf < 9 → parse buf ≡ none
unfolding parse
parse_short (b0 ∷ b1 ∷ b2 ∷ b3 ∷ b4 ∷ b5 ∷ b6 ∷ b7 ∷ b8 ∷ rest) h = absurd (omega arith)
parse_short _ h = refl

-- A whole frame, head and payload, is read back with whatever follows it left aside.
pub parse_frame-frame_bytes :
    (kind : FrameKind) (flags stream_id : ℕ) (payload rest : Bytes)
    → length payload < 2 ^ 24
    → stream_id < 2 ^ 31
    → parse_frame (frame_bytes kind flags stream_id payload ++ rest)
      ≡ some (record {
        header = record { len = length payload; kind = kind; flags = flags; stream_id = stream_id };
        payload = payload;
      })
unfolding parse_frame frame_bytes head_bytes
parse_frame-frame_bytes kind flags stream_id payload rest hl hs =
    ground
      (arith, kind_from-kind_byte kind, length-append payload rest, take-append_self payload rest)

-- A frame whose payload has not arrived whole is not read.
pub parse_frame_short :
    (buf : Bytes) {h : FrameHeader}
    → parse buf ≡ some h
    → length buf < 9 + h.len
    → parse_frame buf ≡ none
unfolding parse_frame
parse_frame_short buf {h} e short = rw (e, parse_frame) (ground arith)
