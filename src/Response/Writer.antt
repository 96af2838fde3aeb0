-- ===== src/Response/Writer.antt =====
-- pajamax/src/response_end.rs: the writer task, over the jobs that it receives.
use pajamax.Prelude.{ℕ, Option, none, some, List, [], ◌∷◌, ◌++◌, Bytes, ltb, if◌then◌else◌}
use pajamax.Outcome.{Error}
use pajamax.Http2.{build_window_update}
use pajamax.Hpack.Encoder.{Encoder}
use pajamax.Response.{Status, build_response, build_status}

-- `RespJob`.
pub data RespJob : Type 0 where
  reply : ℕ → (Bytes → Bytes) → RespJob
  failure : ℕ → Status → RespJob
  window_update : ℕ → List (ℕ × ℕ) → RespJob
  write : Bytes → RespJob

-- The credit of each stream, behind the connection's.
unfoldable pub stream_updates : List (ℕ × ℕ) → Bytes → Bytes
stream_updates [] output = output
stream_updates ((stream_id, stream_len) ∷ lens) output =
    stream_updates lens (build_window_update stream_len stream_id output)

-- The `match` of `writer_task`: what a job appends to an empty output.
unfoldable pub run_job : RespJob → Encoder → Encoder × Bytes
unfolding stream_updates
run_job (reply stream_id encode_fn) e = build_response stream_id encode_fn e []
run_job (failure stream_id status) e = build_status stream_id status e []
run_job (window_update len lens) e =
    (e, if ltb 0 len then stream_updates lens (build_window_update len 0 []) else [])
run_job (write buf) e = (e, buf)

-- The writer's state: the encoder, what has been written, one entry for each write, and the
-- error that ended the task.
pub record Writer : Type 0 where
  pub encoder : Encoder
  pub written : List Bytes
  pub failed : Option Error

-- One job, and what its write would end with. Nothing is written of an empty output.
unfoldable pub flush_output : Option Error → Encoder → Bytes → Writer → Writer
flush_output result e [] w = record w { encoder = e }
flush_output none e (b ∷ output) w = record w {
  encoder = e;
  written = w.written ++ (b ∷ output) ∷ [];
}
flush_output (some x) e (b ∷ output) w = record w { encoder = e; failed = some x }

-- `writer_task`. After an error no job is taken.
unfoldable pub writer_task : List (RespJob × Option Error) → Writer → Writer
writer_task [] w = w
writer_task ((job, result) ∷ jobs) w = elim w.failed [
  | some x ↦ w
  | none ↦
      let (e, output) = run_job job w.encoder in writer_task jobs (flush_output result e output w)
]
