-- ===== src/Connection/Invariant.antt =====
-- What holds of a connection after every frame.
pub mod Streams
pub mod Frames
pub mod Routes
pub mod Opening
pub mod Dispatch
pub mod Reads
pub mod Serve
use pajamax.Prelude.{
  ℕ, ◌+◌, ◌-◌, ◌%◌, ◌≤◌, ◌<◌, ◌≡◌, Option, none, some, List, [], ◌∷◌, length, All,
}
use pajamax.Connection.Process.State.{
  Env, Conn, Pending, Effect, spawn, send, write_job, window_update_job,
}
use Streams.{Rising}

-- The last identifier that an open stream can have: HEADERS that have not ended have opened none.
abbrev pub limit : Option Pending → ℕ → ℕ
limit none last = last
limit (some p) last = last - 1

abbrev pub waiting : Option Pending → ℕ
waiting none = 0
waiting (some p) = 1

-- HEADERS that have not ended are the last stream that the client named.
abbrev pub PendingIsLast : Option Pending → ℕ → Type 0
PendingIsLast none last = Unit {0}
PendingIsLast (some p) last = (p.stream_id ≡ last) × (last % 2 ≡ 1)

-- The bytes of some DATA frames.
abbrev pub total : List (ℕ × ℕ) → ℕ
total [] = 0
total (l ∷ lens) = l.1 + total lens

-- A request is handed to a service that there is; the credit of a connection is that of its
-- streams.
abbrev pub Served : ℕ → Effect → Type 0
Served n (spawn isvc req_disc message id) = isvc < n
Served n (send (write_job buf)) = Unit {0}
Served n (send (window_update_job len lens)) = total lens ≡ len

abbrev pub Routed : ℕ → ℕ × ℕ → Type 0
Routed n r = r.0 < n

-- The identifiers of the open streams rise up to the last one that the client named, and are odd;
-- there are no more streams than the configuration allows, with room for the one that waits for
-- its CONTINUATION; the bytes of DATA counted are those of the streams; each stream, cached route
-- and request started names a service; and each credit sent is the sum of its streams'.
pub record Inv (env : Env) (c : Conn) : Type 0 where
  pub ids :
      Rising (length env.services) 0 (limit c.continuation_buf c.last_client_stream_id) c.streams
  pub pending : PendingIsLast c.continuation_buf c.last_client_stream_id
  pub room : length c.streams + waiting c.continuation_buf ≤ env.max_concurrent_streams
  pub credit : total c.stream_data_lens ≡ c.data_len
  pub routes : All (Routed (length env.services)) c.route_cache
  pub spawned : All (Served (length env.services)) c.effects
