-- ===== src/Async/Order.antt =====
-- async.c: the order of the tasks, and the mutex.
use cuhksz_operating_system.Prelude.{◌≢◌, ℕ, List, [], ◌∷◌, ◌++◌, ◌≡◌, refl, sym, ap, ◌∙◌}
use mathlib.Core.List.{append_assoc}
use cuhksz_operating_system.Async.{
  Task, linking, unlinking, crashed, Pool, link, PoolReached, started, calls, locks_to_add, looks,
  links, signals, signals_none, returns, locks_to_take, tests, sleeps, reads, pops, wakes,
  locks_again, unlocks, finishes,
}
use cuhksz_operating_system.Async.Agree.{PoolReached-Agrees, append_task_lem}

in_order :
    {n : ℕ} {added ts : List Task} (p : Pool)
    → PoolReached n added ts p
    → ts ++ p.task_queue ≡ added
unfolding link
in_order p (started num_threads) = refl
in_order p (links {added = added} {ts = ts} {p = p₀} c t k r low at) =
    ap (λ q. ts ++ q)
      (append_task_lem p₀.task_queue k t (PoolReached-Agrees p₀ c (linking t k) r at))
    ∙ sym (append_assoc ts p₀.task_queue (t ∷ []))
    ∙ ap (λ xs. xs ++ (t ∷ [])) (in_order p₀ r)
in_order p (pops {ts = ts} {p = p₀} c t next r low at) =
    append_assoc ts (t ∷ []) next
    ∙ ap (λ q. ts ++ q) (sym (PoolReached-Agrees p₀ c (unlinking t next) r at))
    ∙ in_order p₀ r
in_order p (calls {p = p₀} c t r low at) = in_order p₀ r
in_order p (locks_to_add {p = p₀} c t r low at free) = in_order p₀ r
in_order p (looks {p = p₀} c t k r low at) = in_order p₀ r
in_order p (signals {p = p₀} c d r low low' at at') = in_order p₀ r
in_order p (signals_none {p = p₀} c r low at none_waits) = in_order p₀ r
in_order p (returns {p = p₀} c r low at) = in_order p₀ r
in_order p (locks_to_take {p = p₀} c r low at free) = in_order p₀ r
in_order p (tests {p = p₀} c r low at) = in_order p₀ r
in_order p (sleeps {p = p₀} c r low at) = in_order p₀ r
in_order p (reads {p = p₀} c r low at) = in_order p₀ r
in_order p (wakes {p = p₀} c r low at) = in_order p₀ r
in_order p (locks_again {p = p₀} c r low at free) = in_order p₀ r
in_order p (unlocks {p = p₀} c t r low at) = in_order p₀ r
in_order p (finishes {p = p₀} c t r low at) = in_order p₀ r

-- In every pool that the steps of any number of threads lead to, the tasks that the workers took, in
-- the order in which they took them, and the tasks in the queue are the tasks that `async_run` added,
-- in its order: every task is taken at most once, and none is lost. No thread has read through a null
-- pointer.
pub tasks_in_order :
    {n : ℕ} {added ts : List Task} (p : Pool)
    → PoolReached n added ts p
    → (ts ++ p.task_queue ≡ added) × ((c : ℕ) → p.place c ≢ crashed)
tasks_in_order p r = (in_order p r, λ c at. PoolReached-Agrees p c crashed r at)
