-- ===== src/Server/Runs.antt =====
-- Three workers and four sockets; one connection at a time.
use pajamax.Prelude.{
  ℕ, ◌%◌, ◌≡◌, refl, arith, Option, none, some, List, [], ◌∷◌, ◌++◌, length, get_elem?,
}
use pajamax.Outcome.{ok}
use pajamax.Server.{
  ConnectionBalancer, new_balancer, register, send_to, dispatch, accept_task, Event, new_loop,
  accepted, ended, remove_task, loop_step, accept_loop,
}
use pajamax.Server.Balance.{share, accept_task_shares}

abbrev three_workers : ConnectionBalancer
three_workers = record { workers = [] ∷ (7 ∷ []) ∷ [] ∷ []; counter = 1 }

-- Two sockets, one that fails, and two more.
abbrev sockets : List (Option ℕ)
sockets = some 10 ∷ some 11 ∷ none ∷ some 12 ∷ some 13 ∷ []

-- `register` makes an empty channel behind the others.
two_registered : register (register new_balancer) ≡ record { workers = [] ∷ [] ∷ []; counter = 0 }
unfolding register
two_registered = refl

shared :
    accept_task sockets three_workers
    ≡ ok (record { workers = (12 ∷ []) ∷ (7 ∷ 10 ∷ 13 ∷ []) ∷ (11 ∷ []) ∷ []; counter = 5 })
unfolding accept_task dispatch send_to
shared = refl

accept_task_shares_example :
    (b' : ConnectionBalancer) × (accept_task sockets three_workers ≡ ok b')
    × (get_elem? b'.workers 1
        ≡ some (
            (7 ∷ [])
            ++ share
                (length three_workers.workers)
                1
                (three_workers.counter % length three_workers.workers)
                sockets))
accept_task_shares_example = accept_task_shares sockets three_workers 1 (7 ∷ []) refl (omega arith)

-- The second socket is over the limit, and the third is taken after the first one's task has ended.
abbrev four_events : List Event
four_events = accepted 1 ∷ accepted 2 ∷ ended 0 ∷ accepted 3 ∷ []

limited :
    accept_loop 1 four_events new_loop
    ≡ ok (record { concurrent = 1; connections = 2; tasks = 3 ∷ [] })
unfolding accept_loop loop_step remove_task
limited = refl
