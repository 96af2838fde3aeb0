-- ===== src/Http2/Runs.antt =====
-- pajamax/src/http2.rs on small frames.
use pajamax.Prelude.{
  ◌<◌, ◌%◌, ◌^◌, ◌≡◌, ◌≢◌, refl, arith, true, some, [], ◌∷◌, ◌++◌, Bytes, length, if◌then◌else◌,
  ◌==◌,
}
use pajamax.Http2.{
  FrameKind, FrameHeader, parse, parse_frame, frame_bytes, head_bytes, has_flag, is_padded,
  is_priority, strip_data_padding, strip_headers, build_window_update, build_rst_stream,
  build_ping_ack, build_settings, to_be_bytes, to_be_bytes16,
}
use pajamax.Http2.Head.{parse-head_bytes, parse_total, parse_frame-frame_bytes}
use pajamax.Http2.Strip.{
  strip_data_padding_padded, strip_data_padding_sound, strip_headers_priority,
}
use pajamax.Http2.Build.{
  build_window_update_lem, build_rst_stream_lem, build_ping_ack_lem, build_settings_lem,
}
use pajamax.Http2.Handshake.{bytes, magic, handshake, handshake_first}
use pajamax.Outcome.{err, invalid_http2, ok, panic}

parse_frame-frame_bytes_example :
    parse_frame (frame_bytes FrameKind.data_frame 1 3 (7 ∷ 8 ∷ []) ++ 9 ∷ [])
    ≡ some (record {
      header = record { len = 2; kind = FrameKind.data_frame; flags = 1; stream_id = 3 };
      payload = 7 ∷ 8 ∷ [];
    })
parse_frame-frame_bytes_example =
    parse_frame-frame_bytes FrameKind.data_frame 1 3 (7 ∷ 8 ∷ []) (9 ∷ []) (omega arith)
      (omega arith)

parse-head_bytes_example :
    parse (head_bytes 70000 FrameKind.headers 4 5 ++ 9 ∷ [])
    ≡ some (record { len = 70000; kind = FrameKind.headers; flags = 4; stream_id = 5 })
parse-head_bytes_example =
    parse-head_bytes 70000 FrameKind.headers 4 5 (9 ∷ []) (omega arith) (omega arith)

abbrev some_head : Bytes
some_head = 1 ∷ 2 ∷ 3 ∷ 0 ∷ 8 ∷ 255 ∷ 0 ∷ 0 ∷ 1 ∷ []

parse_total_example :
    (h : FrameHeader) × (parse some_head ≡ some h) × (h.len < 2 ^ 24) × (h.stream_id < 2 ^ 31)
parse_total_example = parse_total some_head (omega arith) (omega arith)

-- A padded payload with two bytes of content and three of padding.
is_padded_8 : is_padded 8 ≡ true
unfolding is_padded has_flag
is_padded_8 = refl

is_padded_40 : is_padded 0x28 ≡ true
unfolding is_padded has_flag
is_padded_40 = refl

is_priority_40 : is_priority 0x28 ≡ true
unfolding is_priority has_flag
is_priority_40 = refl

abbrev content : Bytes
content = 5 ∷ 6 ∷ []

abbrev padding : Bytes
padding = 0 ∷ 0 ∷ 0 ∷ []

content_not_empty : content ≢ []
content_not_empty e = cc

strip_data_padding_padded_example :
    strip_data_padding 8 (length padding ∷ (content ++ padding)) ≡ ok content
strip_data_padding_padded_example =
    strip_data_padding_padded 8 content padding is_padded_8 content_not_empty

strip_data_padding_sound_example :
    (pad : Bytes) × ((3 ∷ 5 ∷ 6 ∷ padding) ≡ length pad ∷ (content ++ pad)) × (content ≢ [])
strip_data_padding_sound_example =
    strip_data_padding_sound 8 (3 ∷ 5 ∷ 6 ∷ padding) content is_padded_8
      strip_data_padding_padded_example

strip_headers_priority_example :
    strip_headers 0x28 (length padding ∷ (((0 ∷ 0 ∷ 0 ∷ 1 ∷ 16 ∷ []) ++ content) ++ padding))
    ≡ ok content
strip_headers_priority_example =
    strip_headers_priority 0x28 (0 ∷ 0 ∷ 0 ∷ 1 ∷ 16 ∷ []) content padding is_padded_40
      is_priority_40 refl

build_window_update_lem_example :
    build_window_update 70000 0 (1 ∷ [])
    ≡ (1 ∷ []) ++ frame_bytes FrameKind.window_update 0 0 (to_be_bytes 70000)
build_window_update_lem_example = build_window_update_lem 70000 0 (1 ∷ [])

build_rst_stream_lem_example :
    build_rst_stream 9 7 [] ≡ [] ++ frame_bytes FrameKind.reset 0 9 (to_be_bytes 7)
build_rst_stream_lem_example = build_rst_stream_lem 9 7 []

abbrev eight_bytes : Bytes
eight_bytes = 1 ∷ 2 ∷ 3 ∷ 4 ∷ 5 ∷ 6 ∷ 7 ∷ 8 ∷ []

build_ping_ack_lem_example : build_ping_ack eight_bytes [] ≡ (
    if length eight_bytes == 8
    then ok ([] ++ frame_bytes FrameKind.ping 0x1 0 eight_bytes)
    else panic)
build_ping_ack_lem_example = build_ping_ack_lem eight_bytes []

build_settings_lem_example :
    build_settings 3 100 []
    ≡ [] ++ frame_bytes FrameKind.settings 0 0 (to_be_bytes16 3 ++ to_be_bytes 100)
build_settings_lem_example = build_settings_lem 3 100 []

-- The magic in two reads, which the handshake refuses.
abbrev first_read : Bytes
first_read = 0x50 ∷ 0x52 ∷ 0x49 ∷ []

abbrev second_read : Bytes
second_read =
    0x20 ∷ 0x2a ∷ 0x20 ∷ 0x48 ∷ 0x54 ∷ 0x54 ∷ 0x50 ∷ 0x2f ∷ 0x32 ∷ 0x2e ∷ 0x30 ∷ 0x0d ∷ 0x0a ∷ 0x0d
    ∷ 0x0a ∷ 0x53 ∷ 0x4d ∷ 0x0d ∷ 0x0a ∷ 0x0d ∷ 0x0a ∷ []

first_read_not_empty : first_read ≢ []
first_read_not_empty e = cc

magic_not_empty : magic ≢ []
magic_not_empty e = cc

handshake_first_example :
    handshake (bytes first_read ∷ bytes second_read ∷ []) 100 16384
    ≡ err (invalid_http2 "connection closed during handshake")
handshake_first_example =
    handshake_first first_read (bytes second_read ∷ []) 100 16384 first_read_not_empty

-- The magic in one read, which it accepts.
magic_accepted :
    handshake (bytes magic ∷ []) 100 16384
    ≡ ok (
        frame_bytes FrameKind.settings 0 0 (to_be_bytes16 3 ++ to_be_bytes (100 % 2 ^ 32))
        ++ frame_bytes FrameKind.settings 0 0 (to_be_bytes16 5 ++ to_be_bytes (16384 % 2 ^ 32)))
magic_accepted = handshake_first magic [] 100 16384 magic_not_empty
