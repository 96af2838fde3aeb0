-- ===== src/Http2.antt =====
-- pajamax/src/http2.rs: frame kinds, flags, frame headers, padding, and the frames written.
pub mod Head
pub mod Strip
pub mod Build
pub mod Handshake
mod Runs
use pajamax.Prelude.{
  ℕ, ◌+◌, ◌-◌, ◌*◌, ◌/◌, ◌%◌, ◌^◌, bit_and, String, Bool, true, false, not, ◌&&◌, ◌||◌, Option,
  none, some, List, [], ◌∷◌, ◌++◌, Bytes, length, take, drop, get_or, ltb, leb, ◌==◌, if◌then◌else◌,
}
use pajamax.Prelude.Buffer.{write_at, grow}
use pajamax.Outcome.{Outcome, ok, err, panic, invalid_http2, ◌>>=◌}

-- `FrameKind`. `data_frame` is `Data`, whose name is reserved here.
pub data FrameKind : Type 0 where
  data_frame headers priority reset settings push_promise : FrameKind
  ping go_away window_update continuation unknown : FrameKind

-- `FrameKind::from`.
unfoldable pub kind_from : ℕ → FrameKind
kind_from byte =
    if byte == 0
    then FrameKind.data_frame
    else if byte == 1
    then FrameKind.headers
    else if byte == 2
    then FrameKind.priority
    else if byte == 3
    then FrameKind.reset
    else if byte == 4
    then FrameKind.settings
    else if byte == 5
    then FrameKind.push_promise
    else if byte == 6
    then FrameKind.ping
    else if byte == 7
    then FrameKind.go_away
    else if byte == 8
    then FrameKind.window_update
    else if byte == 9
    then FrameKind.continuation
    else FrameKind.unknown

-- `kind as u8`: the discriminants of the enumeration.
unfoldable pub kind_byte : FrameKind → ℕ
kind_byte FrameKind.data_frame = 0
kind_byte FrameKind.headers = 1
kind_byte FrameKind.priority = 2
kind_byte FrameKind.reset = 3
kind_byte FrameKind.settings = 4
kind_byte FrameKind.push_promise = 5
kind_byte FrameKind.ping = 6
kind_byte FrameKind.go_away = 7
kind_byte FrameKind.window_update = 8
kind_byte FrameKind.continuation = 9
kind_byte FrameKind.unknown = 10

-- `a == b`, which `FrameKind` derives.
unfoldable pub kind_eq : FrameKind → FrameKind → Bool
unfolding kind_byte
kind_eq a b = kind_byte a == kind_byte b

-- `HeadFlags(u8)`, and its masks.
abbrev pub HeadFlags : Type 0
HeadFlags = ℕ

abbrev pub end_stream : ℕ
end_stream = 0x1

abbrev pub end_headers : ℕ
end_headers = 0x4

abbrev pub padded : ℕ
padded = 0x8

abbrev pub priority_flag : ℕ
priority_flag = 0x20

abbrev pub ack : ℕ
ack = 0x1

-- `self.0 & mask != 0`.
unfoldable pub has_flag : HeadFlags → ℕ → Bool
has_flag flags mask = not (bit_and flags mask == 0)

unfoldable pub is_end_stream : HeadFlags → Bool
is_end_stream flags = has_flag flags end_stream

unfoldable pub is_end_headers : HeadFlags → Bool
is_end_headers flags = has_flag flags end_headers

unfoldable pub is_padded : HeadFlags → Bool
is_padded flags = has_flag flags padded

unfoldable pub is_priority : HeadFlags → Bool
is_priority flags = has_flag flags priority_flag

unfoldable pub is_ack : HeadFlags → Bool
is_ack flags = has_flag flags ack

unfoldable pub is_ping_ack : HeadFlags → Bool
is_ping_ack flags = has_flag flags 0x1

-- `u32::from_be_bytes` and `u32::to_be_bytes`; `u16::to_be_bytes`.
abbrev pub from_be_bytes : ℕ → ℕ → ℕ → ℕ → ℕ
from_be_bytes a b c d = a * 0x1000000 + b * 0x10000 + c * 0x100 + d

abbrev pub to_be_bytes : ℕ → Bytes
to_be_bytes n = (n / 0x1000000 % 256) ∷ (n / 0x10000 % 256) ∷ (n / 0x100 % 256) ∷ (n % 256) ∷ []

abbrev pub to_be_bytes16 : ℕ → Bytes
to_be_bytes16 n = (n / 0x100 % 256) ∷ (n % 256) ∷ []

-- `FrameHeader`.
pub record FrameHeader : Type 0 where
  pub len : ℕ
  pub kind : FrameKind
  pub flags : HeadFlags
  pub stream_id : ℕ

-- `Frame::HEAD_SIZE`.
abbrev pub head_size : ℕ
head_size = 9

-- `FrameHeader::parse`: nothing on fewer than nine bytes, and it looks at the first nine only.
unfoldable pub parse : Bytes → Option FrameHeader
parse (b0 ∷ b1 ∷ b2 ∷ b3 ∷ b4 ∷ b5 ∷ b6 ∷ b7 ∷ b8 ∷ rest) = some (record {
  len = from_be_bytes 0 b0 b1 b2;
  kind = kind_from b3;
  flags = b4;
  stream_id = from_be_bytes b5 b6 b7 b8 % 2 ^ 31;
})
parse _ = none

-- `Frame`, which `Frame::parse` reads: the header and a payload of its length.
pub record Frame : Type 0 where
  pub header : FrameHeader
  pub open header use *
  pub payload : Bytes

unfoldable pub parse_frame : Bytes → Option Frame
unfolding parse
parse_frame buf = elim (parse buf) [
  | none ↦ none
  | some h ↦
      if ltb (length buf - head_size) h.len
      then none
      else some (record { header = h; payload = take h.len (drop head_size buf) })
]

-- The nine bytes that `Frame::build_head` writes, and the call on `output[start..]`.
unfoldable pub head_bytes : ℕ → FrameKind → ℕ → ℕ → Bytes
head_bytes len kind flags stream_id =
    (len / 0x10000 % 256)
    ∷ (len / 0x100 % 256)
    ∷ (len % 256)
    ∷ kind_byte kind
    ∷ flags
    ∷ to_be_bytes stream_id

unfoldable pub build_head : ℕ → FrameKind → ℕ → ℕ → ℕ → Bytes → Bytes
unfolding head_bytes write_at
build_head len kind flags stream_id start output =
    write_at start (head_bytes len kind flags stream_id) output

-- `Frame::strip_data_padding`.
unfoldable pub strip_data_padding : HeadFlags → Bytes → Outcome Bytes
strip_data_padding flags [] =
    if is_padded flags then err (invalid_http2 "invalid padded") else ok []
strip_data_padding flags (pad_len ∷ rest) =
    if is_padded flags
    then (if leb (length (pad_len ∷ rest)) (1 + pad_len)
        then err (invalid_http2 "invalid padded")
        else ok (take (length rest - pad_len) rest))
    else ok (pad_len ∷ rest)

-- `Frame::skip_priority`, the second half of `Frame::strip_headers`.
unfoldable pub skip_priority : HeadFlags → Bytes → Outcome Bytes
skip_priority flags buf =
    if is_priority flags
    then (if ltb (length buf) 5 then err (invalid_http2 "invalid priority") else ok (drop 5 buf))
    else ok buf

-- `Frame::strip_headers`.
unfoldable pub strip_headers : HeadFlags → Bytes → Outcome Bytes
unfolding strip_data_padding skip_priority
strip_headers flags buf = do unpadded ← strip_data_padding flags buf; skip_priority flags unpadded

-- What a frame is on the wire: nine bytes of header, then the payload.
unfoldable pub frame_bytes : FrameKind → ℕ → ℕ → Bytes → Bytes
frame_bytes kind flags stream_id payload =
    head_bytes (length payload) kind flags stream_id ++ payload

-- `build_window_update`, `build_rst_stream`, `build_settings_ack`, `build_ping_ack`,
-- `build_settings`: each appends one whole frame to `output`.
unfoldable pub build_window_update : ℕ → ℕ → Bytes → Bytes
unfolding build_head write_at
build_window_update len stream_id output =
    let start = length output in
    let grown = grow (head_size + 4) output in
    let headed = build_head 4 FrameKind.window_update 0 stream_id start grown in
    write_at (start + head_size) (to_be_bytes len) headed

unfoldable pub build_rst_stream : ℕ → ℕ → Bytes → Bytes
unfolding build_head write_at
build_rst_stream stream_id error_code output =
    let start = length output in
    let grown = grow (head_size + 4) output in
    let headed = build_head 4 FrameKind.reset 0 stream_id start grown in
    write_at (start + head_size) (to_be_bytes error_code) headed

unfoldable pub build_settings_ack : Bytes → Bytes
unfolding build_head
build_settings_ack output =
    let start = length output in build_head 0 FrameKind.settings ack 0 start (grow head_size output)

-- `copy_from_slice` panics unless the payload has eight bytes.
unfoldable pub build_ping_ack : Bytes → Bytes → Outcome Bytes
unfolding build_head write_at
build_ping_ack payload output =
    let start = length output in
    let grown = grow (head_size + 8) output in
    let headed = build_head 8 FrameKind.ping 0x1 0 start grown in
    if length payload == 8 then ok (write_at (start + head_size) payload headed) else panic

unfoldable pub build_settings : ℕ → ℕ → Bytes → Bytes
unfolding build_head write_at
build_settings ident value output =
    let start = length output in
    let grown = grow (head_size + 6) output in
    let headed = build_head 6 FrameKind.settings 0 0 start grown in
    let pos = start + head_size in
    write_at (pos + 2) (to_be_bytes value) (write_at pos (to_be_bytes16 ident) headed)
