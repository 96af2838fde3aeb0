-- ===== src/Connection/Runs.antt =====
-- Runs of pajamax/src/connection.rs on small requests.
use pajamax.Prelude.{
  false, ◌==◌, ℕ, ◌≡◌, refl, arith, Option, none, some, List, [], ◌∷◌, Bytes, bytes_eq,
  if◌then◌else◌,
}
use mathlib.Core.List.{flatten}
use pajamax.Outcome.{ok, invalid_http2, err, io_fail, OnOk}
use pajamax.Http2.{
  is_ack, ack, frame_bytes, FrameKind, parse, kind_from, kind_eq, kind_byte, has_flag, is_padded,
  is_priority, is_end_stream, is_end_headers, strip_headers, strip_data_padding, skip_priority,
}
use pajamax.Hpack.Decoder.{
  find_path_and_encoding, find_loop, load, on_block, on_literal_with_indexing,
  decode_literal_header, indexed_literal, classify_table_index, with_indexing, path_bytes,
  push_dynamic_entry, match_of, new,
}
use pajamax.Hpack.Decoder.Text.{decode_string}
use pajamax.Hpack.Int.{decode_int}
use pajamax.Connection.Process.{
  process_frame, check_expected, check_stream, dispatch_frame, on_headers, admit_headers,
  open_stream, resolve_route, route_path, cached_route, find_route, finish_stream, count_data,
  decode_grpc_message,
}
use pajamax.Connection.Process.State.{
  write_job, Env, spawn, send, window_update_job, emit, position, update_at, remove_at,
}
use pajamax.Connection.Feed.{
  running, new_conn, new_parser, need, feed, serve, feed_loop, on_read, round, store, store_in,
  settle, complete, complete_in, header_complete, header_read, process_current, payload_complete,
  streamed_complete, streamed_at, extend_stream, is_streamed, clear_credit, send_credit,
}
use pajamax.Connection.Feed.Ready.{IsReady}
use pajamax.Connection.Credit.Cuts.{uncredited, serve_cuts}
use pajamax.Connection.Settings.{process_frame_settings}
use pajamax.Connection.Invariant.{Inv}
use pajamax.Connection.Invariant.Dispatch.{process_frame-Inv}
use pajamax.Connection.Invariant.Reads.{feed-Inv}
use pajamax.Connection.Invariant.Serve.{IsServing, serve-new_parser}

abbrev route_a : Bytes → Option ℕ
route_a path = if bytes_eq path (0x2f ∷ 0x61 ∷ []) then some 7 else none

-- Two services, of which the second routes "/a"; no decompressor; at most two streams.
abbrev demo_env : Env
demo_env = record {
  services = (λ _. none) ∷ route_a ∷ [];
  gunzip = λ _. err (io_fail "no gzip");
  inflate = λ _. err (io_fail "no deflate");
  unzstd = λ _. err (io_fail "no zstd");
  max_concurrent_streams = 2;
}

-- ":path: /a", a literal that joins the table.
abbrev path_a : Bytes
path_a = 0x44 ∷ 0x02 ∷ 0x2f ∷ 0x61 ∷ []

-- HEADERS of stream 1, then DATA that end it: a message of one byte.
abbrev request_head : Bytes
request_head = 0 ∷ 0 ∷ 4 ∷ 1 ∷ 4 ∷ 0 ∷ 0 ∷ 0 ∷ 1 ∷ path_a

abbrev request_data : Bytes
request_data = 0 ∷ 0 ∷ 6 ∷ 0 ∷ 1 ∷ 0 ∷ 0 ∷ 0 ∷ 1 ∷ 0 ∷ 0 ∷ 0 ∷ 0 ∷ 1 ∷ 0x2a ∷ []

-- The same bytes in four reads.
abbrev cut_reads : List Bytes
cut_reads =
    (0 ∷ 0 ∷ [])
    ∷ (4 ∷ 1 ∷ 4 ∷ 0 ∷ 0 ∷ 0 ∷ 1 ∷ 0x44 ∷ 0x02 ∷ [])
    ∷ (0x2f ∷ 0x61 ∷ 0 ∷ 0 ∷ 6 ∷ [])
    ∷ (0 ∷ 1 ∷ 0 ∷ 0 ∷ 0 ∷ 1 ∷ 0 ∷ 0 ∷ 0 ∷ 0 ∷ 1 ∷ 0x2a ∷ [])
    ∷ []

abbrev two_reads : List Bytes
two_reads = request_head ∷ request_data ∷ []

same_bytes : flatten cut_reads ≡ flatten two_reads
unfolding flatten
same_bytes = refl

new_parser-IsReady : IsReady new_parser
unfolding new_parser need
new_parser-IsReady = (omega arith, λ _. refl)

new_conn-Inv : Inv demo_env new_conn
unfolding new_conn
new_conn-Inv = record {
  ids = omega arith;
  pending = tt;
  room = omega arith;
  credit = refl;
  routes = tt;
  spawned = tt;
}

serve_cuts_example :
    uncredited (serve demo_env (new_parser, running) cut_reads)
    ≡ uncredited (serve demo_env (new_parser, running) two_reads)
serve_cuts_example =
    serve_cuts demo_env new_parser cut_reads two_reads new_parser-IsReady
      ((λ e. cc), ((λ e. cc), ((λ e. cc), ((λ e. cc), tt)))) ((λ e. cc), ((λ e. cc), tt)) same_bytes

process_frame-Inv_example :
    OnOk (λ t. Inv demo_env t.0) (process_frame demo_env new_conn FrameKind.headers 4 1 4 path_a)
process_frame-Inv_example =
    process_frame-Inv demo_env new_conn FrameKind.headers 4 1 4 path_a new_conn-Inv

feed-Inv_example : Inv demo_env (feed demo_env (new_parser, running) request_head).0.conn
unfolding new_parser
feed-Inv_example = feed-Inv demo_env new_parser request_head new_parser-IsReady new_conn-Inv

serve-new_parser_example :
    IsServing demo_env (serve demo_env (new_parser, running) (request_head ∷ request_data ∷ []))
serve-new_parser_example = serve-new_parser demo_env (request_head ∷ request_data ∷ [])

-- The request is handed to the second service, and the credit of its DATA is given back.
request_served :
    (serve demo_env (new_parser, running) (request_head ∷ request_data ∷ [])).0.conn.effects
    ≡ spawn 1 7 (0x2a ∷ []) 1 ∷ send (window_update_job 6 ((1, 6) ∷ [])) ∷ []
unfolding serve on_read feed feed_loop round need store store_in settle complete complete_in
    header_complete header_read process_current payload_complete streamed_complete streamed_at
    extend_stream is_streamed clear_credit send_credit new_parser new_conn process_frame
    check_expected check_stream dispatch_frame on_headers admit_headers open_stream resolve_route
    route_path cached_route find_route finish_stream count_data decode_grpc_message emit position
    update_at remove_at parse kind_from kind_eq kind_byte has_flag is_padded is_priority
    is_end_stream is_end_headers strip_headers strip_data_padding skip_priority
    find_path_and_encoding find_loop load on_block on_literal_with_indexing decode_literal_header
    indexed_literal classify_table_index with_indexing path_bytes push_dynamic_entry match_of new
    decode_string decode_int
request_served = refl

no_continuation : new_conn.continuation_buf ≡ none
unfolding new_conn
no_continuation = refl

process_frame_settings_example :
    process_frame demo_env new_conn FrameKind.settings 0 0 6 (0 ∷ 3 ∷ 0 ∷ 0 ∷ 0 ∷ 100 ∷ []) ≡ (
      if 0 == 0
      then ok (
        (if is_ack 0
            then new_conn
            else emit (send (write_job (frame_bytes FrameKind.settings ack 0 []))) new_conn),
        false,
      )
      else err (invalid_http2 "SETTINGS/PING/GOAWAY must be on stream 0"))
process_frame_settings_example =
    process_frame_settings demo_env new_conn 0 0 (0 ∷ 3 ∷ 0 ∷ 0 ∷ 0 ∷ 100 ∷ []) no_continuation
