-- ===== src/Server/Limit.antt =====
-- pajamax/src/connection.rs, `accept_loop`: the limit of concurrent connections.
use pajamax.Prelude.{ℕ, ◌≤◌, ◌≡◌, length}
use pajamax.Server.{Loop}

-- The cell counts the tasks, and they are within the limit.
pub record IsCounted (limit : ℕ) (l : Loop) : Type 0 where
  pub counted : l.concurrent ≡ length l.tasks
  pub within : length l.tasks ≤ limit
