-- ===== src/Response/Runs.antt =====
-- The responses of a new connection.
use pajamax.Prelude.{◌≡◌, refl, arith, some, none, [], ◌∷◌, ◌++◌, Bytes, List, Option}
use pajamax.Outcome.{Error, channel_closed}
use pajamax.Hpack.Encoder.{new, code_str, digits_of}
use pajamax.Hpack.Encoder.Peer.{Table, Synced}
use pajamax.Response.{Code, Status, build_response, build_status}
use pajamax.Response.Writer.{RespJob, reply, failure, window_update, write, Writer, writer_task}
use pajamax.Response.Frames.{ReplyRead, FailureRead, build_response_lem, build_status_lem}
use pajamax.Response.Delivery.{Delivered, writer_task_delivers}

new-Synced : Synced new []
unfolding new
new-Synced = record { size = refl; entries = refl; status = tt; type = tt }

-- A message of two bytes.
abbrev append_two : Bytes → Bytes
append_two dst = dst ++ (8 ∷ 42 ∷ [])

build_response_lem_example :
    (sent : Bytes) × (table₂ : Table) × ((build_response 1 append_two new []).1 ≡ [] ++ sent)
    × ReplyRead 1 (8 ∷ 42 ∷ []) [] sent table₂
    × Synced (build_response 1 append_two new []).0 table₂
build_response_lem_example =
    build_response_lem 1 append_two (8 ∷ 42 ∷ []) new [] [] (omega arith) (omega arith)
      (λ dst. refl) new-Synced

abbrev not_found_status : Status
not_found_status = record { code = Code.not_found; message = 0x6e ∷ 0x6f ∷ [] }

build_status_lem_example :
    (sent : Bytes) × (table₁ : Table) × ((build_status 3 not_found_status new []).1 ≡ [] ++ sent)
    × FailureRead 3 not_found_status [] sent table₁
    × Synced (build_status 3 not_found_status new []).0 table₁
build_status_lem_example =
    build_status_lem 3 not_found_status new [] [] (omega arith) (omega arith) new-Synced

-- The digits of a code.
code_101 : code_str 101 ≡ 0x31 ∷ 0x30 ∷ 0x31 ∷ []
unfolding code_str digits_of
code_101 = refl

-- A reply, the credit of a read, a buffer, and a failure whose write does not succeed.
abbrev four_jobs : List (RespJob × Option Error)
four_jobs =
    (reply 1 append_two, none)
    ∷ (window_update 6 ((1, 6) ∷ []), none)
    ∷ (write (1 ∷ 2 ∷ []), none)
    ∷ (failure 3 not_found_status, some channel_closed)
    ∷ []

abbrev new_writer : Writer
new_writer = record { encoder = new; written = []; failed = none }

writer_task_delivers_example :
    (writes : List Bytes) × ((writer_task four_jobs new_writer).written ≡ [] ++ writes)
    × Delivered [] four_jobs writes
        (writer_task four_jobs new_writer).failed
        (writer_task four_jobs new_writer).encoder
writer_task_delivers_example =
    writer_task_delivers four_jobs new_writer []
      (
        (omega arith, 8 ∷ 42 ∷ [], omega arith, λ dst. refl),
        ((omega arith, tt), (tt, ((omega arith, omega arith), tt))),
      )
      refl new-Synced
