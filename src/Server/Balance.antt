-- ===== src/Server/Balance.antt =====
-- pajamax/src/connection.rs, `ConnectionBalancer`: which worker is given which socket.
use native.Mathlib.Nat.{suc-mod, mod-lt, mod-eq_of_lt, mod_self}
use pajamax.Prelude.{
  ℕ, zero, suc, ◌+◌, ◌%◌, ◌^◌, ◌<◌, ◌≡◌, refl, sym, ap, ◌∙◌, arith, Bool, true, false, Bool-cases,
  inl, inr, Option, none, some, List, [], ◌∷◌, ◌++◌, append_assoc, append-nil, length, get_elem?,
  ◌==◌, if◌then◌else◌,
}
use pajamax.Outcome.{ok}
use pajamax.Server.{ConnectionBalancer, send_to, dispatch, accept_task}

-- What worker `i` is owed of the sockets when it is the turn of worker `turn`, and after the last of
-- `n` workers it is the first one's.
pub share : ℕ → ℕ → ℕ → List (Option ℕ) → List ℕ
share n i turn [] = []
share n i turn (none ∷ incoming) = share n i turn incoming
share n i turn (some stream ∷ incoming) =
    let rest = share n i (if turn + 1 == n then 0 else turn + 1) incoming in
    if turn == i then stream ∷ rest else rest

next_turn : (c n : ℕ) → 0 < n → (if c % n + 1 == n then 0 else c % n + 1) ≡ (c + 1) % n
next_turn c n h =
    let one : suc c ≡ c + 1 = omega arith in
    elim (Bool-cases (c % n + 1 == n)) [
      | inl e ↦
          let full : suc (c % n) ≡ n = ground arith in
          rw e (
            sym (mod_self n) ∙ ap (λ k. k % n) (sym full) ∙ sym (suc-mod c n) ∙ ap (λ k. k % n) one)
      | inr e ↦
          let below : suc (c % n) < n = ground (arith, mod-lt c h) in
          let up : c % n + 1 ≡ suc (c % n) = omega arith in
          rw e (up ∙ sym (mod-eq_of_lt below) ∙ sym (suc-mod c n) ∙ ap (λ k. k % n) one)
    ]

length-send_to :
    (idx stream : ℕ) (workers : List (List ℕ))
    → length (send_to idx stream workers) ≡ length workers
unfolding send_to
length-send_to idx stream [] = refl
length-send_to zero stream (w ∷ workers) = refl
length-send_to (suc idx) stream (w ∷ workers) = ap suc (length-send_to idx stream workers)

get_elem?-send_to :
    (idx i stream : ℕ) (workers : List (List ℕ)) (queue : List ℕ)
    → get_elem? workers i ≡ some queue
    → get_elem? (send_to idx stream workers) i
      ≡ some (if idx == i then queue ++ stream ∷ [] else queue)
unfolding send_to
get_elem?-send_to idx i stream [] queue e = cc
get_elem?-send_to zero zero stream (w ∷ workers) queue e = grind arith
get_elem?-send_to zero (suc i) stream (w ∷ workers) queue e =
    let no : (0 == suc i) ≡ false = ground arith in rw no e
get_elem?-send_to (suc idx) zero stream (w ∷ workers) queue e =
    let no : (suc idx == 0) ≡ false = ground arith in rw no e
get_elem?-send_to (suc idx) (suc i) stream (w ∷ workers) queue e =
    let same : (suc idx == suc i) ≡ (idx == i) = ground arith in
    rw same (get_elem?-send_to idx i stream workers queue e)

some_worker :
    (i : ℕ) (workers : List (List ℕ)) (queue : List ℕ)
    → get_elem? workers i ≡ some queue
    → 0 < length workers
some_worker i [] queue e = cc
some_worker i (w ∷ workers) queue e = omega arith

own_turn :
    (mine : Bool) (stream : ℕ) (queue rest : List ℕ)
    → (if mine then queue ++ stream ∷ [] else queue) ++ rest
      ≡ queue ++ (if mine then stream ∷ rest else rest)
own_turn true stream queue rest = append_assoc queue (stream ∷ []) rest
own_turn false stream queue rest = refl

-- One socket for the worker whose turn it is.
dispatch_lem :
    (b : ConnectionBalancer) (stream i : ℕ) (queue : List ℕ)
    → get_elem? b.workers i ≡ some queue
    → (b₁ : ConnectionBalancer) × (dispatch stream b ≡ ok b₁)
      × (length b₁.workers ≡ length b.workers)
      × (b₁.counter ≡ (b.counter + 1) % 2 ^ 64)
      × (get_elem? b₁.workers i
          ≡ some (if b.counter % length b.workers == i then queue ++ stream ∷ [] else queue))
unfolding dispatch
dispatch_lem b stream i queue e =
    let no : (length b.workers == 0) ≡ false = ground (arith, some_worker i b.workers queue e) in
    let turn = b.counter % length b.workers in
    (
      record { workers = send_to turn stream b.workers; counter = (b.counter + 1) % 2 ^ 64 },
      rw no refl,
      length-send_to turn stream b.workers,
      refl,
      get_elem?-send_to turn i stream b.workers queue e,
    )

-- While the counter stays below 2^64: the accept task does not panic where there is a worker, and
-- each worker is given, behind what it had and in the order in which they were accepted, the
-- sockets of its turns, where the turns go round through the workers in the order in which they
-- registered, and what fails to be accepted takes no turn.
pub accept_task_shares :
    (incoming : List (Option ℕ)) (b : ConnectionBalancer) (i : ℕ) (queue : List ℕ)
    → get_elem? b.workers i ≡ some queue
    → b.counter + length incoming < 2 ^ 64
    → (b' : ConnectionBalancer) × (accept_task incoming b ≡ ok b')
      × (get_elem? b'.workers i
          ≡ some (queue ++ share (length b.workers) i (b.counter % length b.workers) incoming))
unfolding accept_task share
accept_task_shares [] b i queue e h = (b, refl, e ∙ ap some (sym (append-nil queue)))
accept_task_shares (none ∷ incoming) b i queue e h =
    accept_task_shares incoming b i queue e (omega arith)
accept_task_shares (some stream ∷ incoming) b i queue e h =
    let (b₁, step, count, counter, e₁) = dispatch_lem b stream i queue e in
    let n = length b.workers in
    let turn = b.counter % n in
    let next : b₁.counter ≡ b.counter + 1 = omega (arith, counter) in
    let (b', rest, e') =
      accept_task_shares incoming b₁ i (if turn == i then queue ++ stream ∷ [] else queue) e₁
        (omega arith) in
    (
      b',
      rw (step, rest) refl,
      e'
          ∙ ap some (
              rw (count, next, ← next_turn b.counter n (some_worker i b.workers queue e))
                (own_turn (turn == i) stream queue _)),
    )
