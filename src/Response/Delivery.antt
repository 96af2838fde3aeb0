-- ===== src/Response/Delivery.antt =====
-- What the writer task writes, job by job, and what the client reads of it.
use pajamax.Prelude.{
  ℕ, ◌+◌, ◌^◌, ◌<◌, ◌≡◌, refl, sym, subst, ◌∙◌, Bool-cases, arith, inl, inr, Option, none, some,
  List, [], ◌∷◌, ◌++◌, Bytes, length, All, ltb, if◌then◌else◌, append_assoc, append-nil,
}
use pajamax.Outcome.{Error}
use pajamax.Http2.{FrameKind, Frame, build_window_update, frame_bytes, to_be_bytes}
use pajamax.Http2.Build.{build_window_update_lem}
use pajamax.Hpack.Encoder.{Encoder}
use pajamax.Hpack.Encoder.Peer.{Table, Synced}
use pajamax.Response.Client.{peer_frames, frame_of, frames_cons, frames_nil}
use pajamax.Response.Frames.{ReplyRead, FailureRead, build_response_lem, build_status_lem}
use pajamax.Response.Writer.{
  RespJob, reply, failure, window_update, write, stream_updates, run_job, Writer, flush_output,
  writer_task,
}

-- The WINDOW_UPDATE frames of a connection's streams, as bytes and as a client reads them.
unfoldable update_bytes : List (ℕ × ℕ) → Bytes
update_bytes [] = []
update_bytes ((stream_id, stream_len) ∷ lens) =
    frame_bytes FrameKind.window_update 0 stream_id (to_be_bytes stream_len) ++ update_bytes lens

abbrev pub update_frames : List (ℕ × ℕ) → List Frame
update_frames [] = []
update_frames ((stream_id, stream_len) ∷ lens) =
    frame_of FrameKind.window_update 0 stream_id (to_be_bytes stream_len) ∷ update_frames lens

-- A job that fits in frames: its stream is below 2^31, and its message, which a reply's function
-- appends, below 2^24 with what stands beside it in the frame; the streams of credit are below 2^31.
abbrev pub Fits : RespJob → Type 0
Fits (reply stream_id encode_fn) =
    (stream_id < 2 ^ 31)
    × (message : Bytes) × (5 + length message < 2 ^ 24)
    × ((dst : Bytes) → encode_fn dst ≡ dst ++ message)
Fits (failure stream_id status) = (stream_id < 2 ^ 31) × (300 + length status.message < 2 ^ 24)
Fits (window_update len lens) = All (λ l. l.0 < 2 ^ 31) lens
Fits (write buf) = Unit {0}

-- The bytes of one job, read by a client whose table is the first, and is the second after them.
abbrev pub Seen : Table → RespJob → Bytes → Table → Type 0
Seen table (reply stream_id encode_fn) sent table₁ =
    (message : Bytes) × ((dst : Bytes) → encode_fn dst ≡ dst ++ message)
    × ReplyRead stream_id message table sent table₁
Seen table (failure stream_id status) sent table₁ = FailureRead stream_id status table sent table₁
Seen table (window_update len lens) sent table₁ =
    (table₁ ≡ table)
    × (peer_frames (if ltb 0 len then length ((0, len) ∷ lens) else 0) sent
        ≡ some (if ltb 0 len then update_frames ((0, len) ∷ lens) else [], []))
Seen table (write buf) sent table₁ = (table₁ ≡ table) × (sent ≡ buf)

-- The writes of a list of jobs, each with what its write ends with, for a client whose table is the
-- first argument; the error that ends them; and the encoder after them. A job without bytes makes
-- no write, one with bytes makes one write of all of them, and the first write that fails is the
-- last.
pub data Delivered
    : Table → List (RespJob × Option Error) → List Bytes → Option Error → Encoder → Type 0 where
  done : {table : Table} {e : Encoder} → Synced e table → Delivered table [] [] none e
  silent :
      (table₁ : Table) {table : Table} {job : RespJob} {result : Option Error}
      {jobs : List (RespJob × Option Error)} {writes : List Bytes} {failed : Option Error}
      {e : Encoder}
      → Seen table job [] table₁
      → Delivered table₁ jobs writes failed e
      → Delivered table ((job, result) ∷ jobs) writes failed e
  sent :
      (table₁ : Table) {table : Table} {job : RespJob} {b : ℕ} {bytes : Bytes}
      {jobs : List (RespJob × Option Error)} {writes : List Bytes} {failed : Option Error}
      {e : Encoder}
      → Seen table job (b ∷ bytes) table₁
      → Delivered table₁ jobs writes failed e
      → Delivered table ((job, none) ∷ jobs) ((b ∷ bytes) ∷ writes) failed e
  cut :
      (table₁ : Table) (b : ℕ) (bytes : Bytes) {table : Table} {job : RespJob} {x : Error}
      {jobs : List (RespJob × Option Error)} {e : Encoder}
      → Seen table job (b ∷ bytes) table₁
      → Delivered table ((job, some x) ∷ jobs) [] (some x) e

stream_updates_lem :
    (lens : List (ℕ × ℕ)) (output : Bytes)
    → stream_updates lens output ≡ output ++ update_bytes lens
unfolding stream_updates update_bytes
stream_updates_lem [] output = sym (append-nil output)
stream_updates_lem ((stream_id, stream_len) ∷ lens) output =
    rw
      (
        build_window_update_lem stream_len stream_id output,
        stream_updates_lem lens
            (output ++ frame_bytes FrameKind.window_update 0 stream_id (to_be_bytes stream_len)),
      )
      (append_assoc output _ _)

update_bytes_read :
    (lens : List (ℕ × ℕ))
    → All (λ l. l.0 < 2 ^ 31) lens
    → peer_frames (length lens) (update_bytes lens) ≡ some (update_frames lens, [])
unfolding update_bytes
update_bytes_read [] h = frames_nil
update_bytes_read ((stream_id, stream_len) ∷ lens) (small, h) =
    frames_cons (length lens) FrameKind.window_update 0 stream_id (to_be_bytes stream_len)
      (update_bytes lens) (update_frames lens) (omega arith) small (update_bytes_read lens h)

credit_lem :
    (len : ℕ) (lens : List (ℕ × ℕ))
    → stream_updates lens (build_window_update len 0 []) ≡ update_bytes ((0, len) ∷ lens)
unfolding update_bytes
credit_lem len lens = rw (build_window_update_lem len 0 []) (stream_updates_lem lens _)

credit_read :
    (len : ℕ) (lens : List (ℕ × ℕ))
    → All (λ l. l.0 < 2 ^ 31) lens
    → peer_frames
        (if ltb 0 len then length ((0, len) ∷ lens) else 0)
        (if ltb 0 len then stream_updates lens (build_window_update len 0 []) else [])
      ≡ some (if ltb 0 len then update_frames ((0, len) ∷ lens) else [], [])
credit_read len lens h = elim (Bool-cases (ltb 0 len)) [
  | inl e ↦ rw (e, credit_lem len lens) (update_bytes_read ((0, len) ∷ lens) (omega arith, h))
  | inr e ↦ rw e frames_nil
]

-- What a job writes is seen by a client in step, which is in step after it.
run_job-Seen :
    (job : RespJob) (e : Encoder) (table : Table)
    → Fits job
    → Synced e table
    → (table₁ : Table) × Seen table job (run_job job e).1 table₁ × Synced (run_job job e).0 table₁
unfolding run_job
run_job-Seen (reply stream_id encode_fn) e table (small, message, fits, h) s =
    let (bytes, table₂, built, read, s') =
      build_response_lem stream_id encode_fn message e [] table small fits h s in
    (table₂, (message, h, rw built read), s')
run_job-Seen (failure stream_id status) e table (small, fits) s =
    let (bytes, table₁, built, read, s') =
      build_status_lem stream_id status e [] table small fits s in
    (table₁, rw built read, s')
run_job-Seen (window_update len lens) e table h s = (table, (refl, credit_read len lens h), s)
run_job-Seen (write buf) e table h s = (table, (refl, refl), s)

-- After an error no job is taken.
writer_task_stopped :
    (jobs : List (RespJob × Option Error)) (w : Writer) (x : Error)
    → w.failed ≡ some x
    → writer_task jobs w ≡ w
unfolding writer_task
writer_task_stopped [] w x e = refl
writer_task_stopped ((job, result) ∷ jobs) w x e = simp (writer_task, e)

-- What the writes of the jobs behind one make of its own.
abbrev Delivers : Table → List (RespJob × Option Error) → List Bytes → Writer → Type 0
Delivers table jobs before w =
    (writes : List Bytes) × (w.written ≡ before ++ writes)
    × Delivered table jobs writes w.failed w.encoder

flush_output-Delivers :
    (job : RespJob) (result : Option Error) (jobs : List (RespJob × Option Error)) (w : Writer)
    (table table₁ : Table) (e : Encoder) (output : Bytes)
    → w.failed ≡ none
    → Seen table job output table₁
    → ((w₁ : Writer)
        → w₁.failed ≡ none
        → w₁.encoder ≡ e
        → Delivers table₁ jobs w₁.written (writer_task jobs w₁))
    → Delivers table
        ((job, result) ∷ jobs)
        w.written
        (writer_task jobs (flush_output result e output w))
unfolding flush_output
flush_output-Delivers job result jobs w table table₁ e [] ready seen next =
    let (writes, eq, rest) = next (record w { encoder = e }) ready refl in
    (writes, eq, Delivered.silent table₁ seen rest)
flush_output-Delivers job none jobs w table table₁ e (b ∷ bytes) ready seen next =
    let (writes, eq, rest) =
      next (record w { encoder = e; written = w.written ++ (b ∷ bytes) ∷ [] }) ready refl in
    (
      (b ∷ bytes) ∷ writes,
      eq ∙ append_assoc w.written ((b ∷ bytes) ∷ []) writes,
      Delivered.sent table₁ seen rest,
    )
flush_output-Delivers job (some x) jobs w table table₁ e (b ∷ bytes) ready seen next =
    rw (writer_task_stopped jobs (record w { encoder = e; failed = some x }) x refl)
      ([], sym (append-nil w.written), Delivered.cut table₁ b bytes seen)

-- For jobs that fit in frames, from a writer without an error whose encoder knows the client's
-- table: the task adds writes to those made, and they are what the jobs ask for, in their order and
-- each in one write: a reply and a failure are read as such by the client, whose table each one
-- leaves as the next one needs it; credit is read as WINDOW_UPDATE of the connection and then of
-- its streams, each with its credit mod 2^32, and as nothing where the connection's is 0; and a buffer is itself. A job without bytes writes nothing, and the first
-- write that fails is the error of the task and its end.
pub writer_task_delivers :
    (jobs : List (RespJob × Option Error)) (w : Writer) (table : Table)
    → All (λ j. Fits j.0) jobs
    → w.failed ≡ none
    → Synced w.encoder table
    → (writes : List Bytes) × ((writer_task jobs w).written ≡ w.written ++ writes)
      × Delivered table jobs writes (writer_task jobs w).failed (writer_task jobs w).encoder
unfolding writer_task flush_output
writer_task_delivers [] w table h ready s =
    ([], sym (append-nil w.written), rw ready (Delivered.done s))
writer_task_delivers ((job, result) ∷ jobs) w table (fits, h) ready s =
    rw (ready, writer_task)
      (let (table₁, seen, s₁) = run_job-Seen job w.encoder table fits s in
        let ran = run_job job w.encoder in
        flush_output-Delivers job result jobs w table table₁ ran.0 ran.1 ready seen (λ w₁ r e.
          writer_task_delivers jobs w₁ table₁ h r (subst (λ k. Synced k table₁) (sym e) s₁)))
