-- ===== src/Connection/Process/State.antt =====
-- The state of a connection, what it asks of others, and what it does to them.
use pajamax.Prelude.{
  ℕ, zero, suc, Bool, Option, none, some, List, [], ◌∷◌, ◌++◌, Bytes, ◌==◌, if◌then◌else◌,
}
use pajamax.Outcome.{Outcome}
use pajamax.Hpack.Decoder.{Decoder}
use pajamax.Hpack.Decoder.Text.{GrpcEncoding}

-- What a connection is given: the services' `route` methods, which the generated code has; the
-- decompressors of flate2 and zstd; and `Config::max_concurrent_streams`.
pub record Env : Type 0 where
  pub services : List (Bytes → Option ℕ)
  pub gunzip : Bytes → Outcome Bytes
  pub inflate : Bytes → Outcome Bytes
  pub unzstd : Bytes → Outcome Bytes
  pub max_concurrent_streams : ℕ

-- `Stream`; `body` is its field `data`.
pub record Stream : Type 0 where
  pub id : ℕ
  pub isvc : ℕ
  pub req_disc : ℕ
  pub encoding : GrpcEncoding
  pub body : Bytes

-- The jobs that a connection itself sends to the writer: `RespJob::Write` and
-- `RespJob::WindowUpdate`.
pub data Job : Type 0 where
  write_job : Bytes → Job
  window_update_job : ℕ → List (ℕ × ℕ) → Job

-- `svc.handle(req_disc, data, id, resp_tx)` on service `isvc`, spawned; and `resp_tx.send(job)`.
pub data Effect : Type 0 where
  spawn : ℕ → ℕ → Bytes → ℕ → Effect
  send : Job → Effect

-- `continuation_buf`: HEADERS that have not ended.
pub record Pending : Type 0 where
  pub stream_id : ℕ
  pub end_stream : Bool
  pub buf : Bytes

-- The local variables of `handle_connection` that `process_frame` works on, with what has been
-- spawned and sent, oldest first.
pub record Conn : Type 0 where
  pub streams : List Stream
  pub hpack_decoder : Decoder
  pub route_cache : List (ℕ × ℕ)
  pub continuation_buf : Option Pending
  pub last_client_stream_id : ℕ
  pub data_len : ℕ
  pub stream_data_lens : List (ℕ × ℕ)
  pub effects : List Effect

unfoldable pub emit : Effect → Conn → Conn
emit e c = record c { effects = c.effects ++ e ∷ [] }

shift_found : Option (ℕ × Stream) → Option (ℕ × Stream)
shift_found none = none
shift_found (some (i, s)) = some (suc i, s)

-- `streams.iter().position(|s| s.id == stream_id)`, with the stream found.
unfoldable pub position : ℕ → List Stream → Option (ℕ × Stream)
unfolding shift_found
position stream_id [] = none
position stream_id (s ∷ streams) =
    if s.id == stream_id then some (0, s) else shift_found (position stream_id streams)

-- `streams.remove(i)`.
unfoldable pub remove_at : ℕ → List Stream → List Stream
remove_at i [] = []
remove_at zero (s ∷ streams) = streams
remove_at (suc i) (s ∷ streams) = s ∷ remove_at i streams

-- A change of `streams[i]`.
unfoldable pub update_at : ℕ → Stream → List Stream → List Stream
update_at i s [] = []
update_at zero s (t ∷ streams) = s ∷ streams
update_at (suc i) s (t ∷ streams) = t ∷ update_at i s streams
