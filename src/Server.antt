-- ===== src/Server.antt =====
-- pajamax/src/connection.rs: how accepted sockets reach the worker loops, and how many connections
-- a loop handles at a time.
pub mod Balance
pub mod Limit
mod Runs
use pajamax.Prelude.{
  ℕ, zero, suc, ◌+◌, ◌-◌, ◌%◌, ◌^◌, Option, none, some, List, [], ◌∷◌, ◌++◌, length, leb, ◌==◌,
  if◌then◌else◌,
}
use pajamax.Outcome.{Outcome, ok, panic, ◌>>=◌}

-- `ConnectionBalancer`. A worker is what was sent to its channel, in order: the receivers are not
-- dropped. A socket is a number.
pub record ConnectionBalancer : Type 0 where
  pub workers : List (List ℕ)
  pub counter : ℕ

abbrev pub new_balancer : ConnectionBalancer
new_balancer = record { workers = []; counter = 0 }

-- `register`.
unfoldable pub register : ConnectionBalancer → ConnectionBalancer
register b = record b { workers = b.workers ++ [] ∷ [] }

-- `workers[idx].send(stream)`.
unfoldable pub send_to : ℕ → ℕ → List (List ℕ) → List (List ℕ)
send_to idx stream [] = []
send_to zero stream (worker ∷ workers) = (worker ++ stream ∷ []) ∷ workers
send_to (suc idx) stream (worker ∷ workers) = worker ∷ send_to idx stream workers

-- `dispatch`: the remainder by the number of workers panics where there are none. The counter is a
-- `usize` and wraps.
unfoldable pub dispatch : ℕ → ConnectionBalancer → Outcome ConnectionBalancer
unfolding send_to
dispatch stream b =
    if length b.workers == 0
    then panic
    else ok (record {
      workers = send_to (b.counter % length b.workers) stream b.workers;
      counter = (b.counter + 1) % 2 ^ 64;
    })

-- The accept task of `balanced_loop`, over what `incoming` gives: a socket, or nothing where it
-- fails or cannot be duplicated. The accept tasks of several loops share the balancer, whose lock
-- puts their sockets in one order.
unfoldable pub accept_task : List (Option ℕ) → ConnectionBalancer → Outcome ConnectionBalancer
accept_task [] b = ok b
accept_task (none ∷ incoming) b = accept_task incoming b
accept_task (some stream ∷ incoming) b = do b₁ ← dispatch stream b; accept_task incoming b₁

-- The variables of `accept_loop`: the cell `concurrent`, the count `connections`, and the tasks that
-- are spawned and have not ended, each by its socket. An error of `accept` ends the loop, and no
-- socket is accepted after it.
pub record Loop : Type 0 where
  pub concurrent : ℕ
  pub connections : ℕ
  pub tasks : List ℕ

abbrev pub new_loop : Loop
new_loop = record { concurrent = 0; connections = 0; tasks = [] }

-- A socket is accepted, or the task at this place in the list ends.
pub data Event : Type 0 where
  accepted : ℕ → Event
  ended : ℕ → Event

unfoldable pub remove_task : ℕ → List ℕ → List ℕ
remove_task i [] = []
remove_task zero (t ∷ tasks) = tasks
remove_task (suc i) (t ∷ tasks) = t ∷ remove_task i tasks

-- One turn of `accept_loop`, or the end of a task that it spawned, whose subtraction panics at 0. A
-- task that does not exist does not end.
unfoldable pub loop_step : ℕ → Event → Loop → Outcome Loop
loop_step max_concurrent_connections (accepted stream) l = ok (
    if leb max_concurrent_connections l.concurrent then l else record {
      concurrent = l.concurrent + 1;
      connections = l.connections + 1;
      tasks = l.tasks ++ stream ∷ [];
    })
loop_step max_concurrent_connections (ended i) l =
    if leb (length l.tasks) i
    then ok l
    else (if l.concurrent == 0
        then panic
        else ok (record l { concurrent = l.concurrent - 1; tasks = remove_task i l.tasks }))

unfoldable pub accept_loop : ℕ → List Event → Loop → Outcome Loop
accept_loop max_concurrent_connections [] l = ok l
accept_loop max_concurrent_connections (e ∷ events) l = do
  l₁ ← loop_step max_concurrent_connections e l
  accept_loop max_concurrent_connections events l₁
