-- ===== src/Async.antt =====
-- Assignment2/3150-p2-bonus-main/async.c: worker threads that take tasks from a queue. A thread is a
-- number. A step is one call of pthread or one read or write of the list of tasks, and the steps of the
-- threads come in any order, as POSIX has it: a mutex is locked by a thread that finds it free; `pthread_cond_wait`
-- gives it up and sleeps; `pthread_cond_signal` wakes a thread that sleeps, if there is one, and any
-- that sleeps may wake without it; a woken thread locks the mutex again before it goes on.
pub mod Agree
pub mod Order
pub mod Count
pub mod Wakeup
pub mod Mutex
mod Tests
use cuhksz_operating_system.Prelude.{
  ℕ, ◌<◌, Bool, true, false, Option, none, some, List, [], ◌∷◌, ◌++◌, ◌==◌, ltb, length, zero, suc,
  ◌+◌, ◌≡◌, ◌≢◌, if◌then◌else◌,
}

-- `struct task`: the handler is a number; `next` is the rest of the list.
pub record Task : Type 0 where
  pub handler : ℕ
  pub arg : ℕ

-- Where a thread is. In `async_run`: at the pointer after `k` tasks of the list, which it is going to read
-- (`walking t k`) or, as it was null, to write (`linking t k`). In `worker`: after the test of the queue,
-- which was or was not empty, and with the first task and the `next` of it read (`unlinking`). A thread
-- that reads through a null pointer has crashed.
pub data Place : Type 0 where
  outside : Place
  entering : Task → Place
  walking : Task → ℕ → Place
  linking : Task → ℕ → Place
  signalling : Place
  leaving : Place
  ready : Place
  testing : Place
  found_none : Place
  found_some : Place
  unlinking : Task → List Task → Place
  waiting : Place
  woken : Place
  popped : Task → Place
  running : Task → Place
  crashed : Place

-- `task_queue`, `lock` with the thread that has it, and the threads.
pub record Pool : Type 0 where
  pub task_queue : List Task
  pub lock : Option ℕ
  pub place : ℕ → Place

abbrev pub set_place : ℕ → Place → (ℕ → Place) → ℕ → Place
set_place c x place d = if d == c then x else place d

abbrev pub move : ℕ → Place → Pool → Pool
move c x p = record p { place = set_place c x p.place }

-- `pthread_mutex_lock` on a free mutex, and `pthread_mutex_unlock`
abbrev pub lock_by : ℕ → Place → Pool → Pool
lock_by c x p = record (move c x p) { lock = some c }

abbrev pub unlock_by : ℕ → Place → Pool → Pool
unlock_by c x p = record (move c x p) { lock = none }

-- `task_queue == NULL` and `tmp->next != NULL`: the pointer after `k` tasks is read.
unfoldable pub look : Task → ℕ → List Task → Place
look t k q = if ltb k (length q) then walking t (k + 1) else linking t k

-- `task_queue = task` and `tmp->next = task`: the pointer after `k` tasks is written, and what was behind it
-- is not in the list any more.
unfoldable pub append_task : ℕ → List Task → Task → List Task
append_task zero q t = t ∷ []
append_task (suc k) [] t = t ∷ []
append_task (suc k) (u ∷ q) t = u ∷ append_task k q t

unfoldable pub link : ℕ → Task → ℕ → Pool → Pool
link c t k p = record (move c signalling p) { task_queue = append_task k p.task_queue t }

-- `while (task_queue == NULL)`
unfoldable pub test : List Task → Place
test [] = found_none
test (t ∷ q) = found_some

-- `task = task_queue` and the read of `task->next`
unfoldable pub first_task : List Task → Place
first_task [] = crashed
first_task (t ∷ q) = unlinking t q

-- `async_init` starts the workers; the other threads are callers of `async_run`.
abbrev pub async_init : ℕ → Pool
async_init num_threads = record {
  task_queue = [];
  lock = none;
  place = λ c. if ltb c num_threads then ready else outside;
}

-- The pools that steps of `threads` threads lead to, with the tasks that were added to the queue and those
-- that were taken from it, in the order of the steps.
pub data PoolReached (threads : ℕ) : List Task → List Task → Pool → Type 0 where
  started : (num_threads : ℕ) → PoolReached threads [] [] (async_init num_threads)
  calls :
      {added ts : List Task} {p : Pool} (c : ℕ) (t : Task)
      → PoolReached threads added ts p
      → c < threads
      → p.place c ≡ outside
      → PoolReached threads added ts (move c (entering t) p)
  locks_to_add :
      {added ts : List Task} {p : Pool} (c : ℕ) (t : Task)
      → PoolReached threads added ts p
      → c < threads
      → p.place c ≡ entering t
      → p.lock ≡ none
      → PoolReached threads added ts (lock_by c (walking t 0) p)
  looks :
      {added ts : List Task} {p : Pool} (c : ℕ) (t : Task) (k : ℕ)
      → PoolReached threads added ts p
      → c < threads
      → p.place c ≡ walking t k
      → PoolReached threads added ts (move c (look t k p.task_queue) p)
  links :
      {added ts : List Task} {p : Pool} (c : ℕ) (t : Task) (k : ℕ)
      → PoolReached threads added ts p
      → c < threads
      → p.place c ≡ linking t k
      → PoolReached threads (added ++ (t ∷ [])) ts (link c t k p)
  signals :
      {added ts : List Task} {p : Pool} (c d : ℕ)
      → PoolReached threads added ts p
      → c < threads
      → d < threads
      → p.place c ≡ signalling
      → p.place d ≡ waiting
      → PoolReached threads added ts (move d woken (move c leaving p))
  signals_none :
      {added ts : List Task} {p : Pool} (c : ℕ)
      → PoolReached threads added ts p
      → c < threads
      → p.place c ≡ signalling
      → ((d : ℕ) → d < threads → p.place d ≢ waiting)
      → PoolReached threads added ts (move c leaving p)
  returns :
      {added ts : List Task} {p : Pool} (c : ℕ)
      → PoolReached threads added ts p
      → c < threads
      → p.place c ≡ leaving
      → PoolReached threads added ts (unlock_by c outside p)
  locks_to_take :
      {added ts : List Task} {p : Pool} (c : ℕ)
      → PoolReached threads added ts p
      → c < threads
      → p.place c ≡ ready
      → p.lock ≡ none
      → PoolReached threads added ts (lock_by c testing p)
  tests :
      {added ts : List Task} {p : Pool} (c : ℕ)
      → PoolReached threads added ts p
      → c < threads
      → p.place c ≡ testing
      → PoolReached threads added ts (move c (test p.task_queue) p)
  sleeps :
      {added ts : List Task} {p : Pool} (c : ℕ)
      → PoolReached threads added ts p
      → c < threads
      → p.place c ≡ found_none
      → PoolReached threads added ts (unlock_by c waiting p)
  reads :
      {added ts : List Task} {p : Pool} (c : ℕ)
      → PoolReached threads added ts p
      → c < threads
      → p.place c ≡ found_some
      → PoolReached threads added ts (move c (first_task p.task_queue) p)
  pops :
      {added ts : List Task} {p : Pool} (c : ℕ) (t : Task) (next : List Task)
      → PoolReached threads added ts p
      → c < threads
      → p.place c ≡ unlinking t next
      → PoolReached threads added
          (ts ++ (t ∷ []))
          (record (move c (popped t) p) { task_queue = next })
  wakes :
      {added ts : List Task} {p : Pool} (c : ℕ)
      → PoolReached threads added ts p
      → c < threads
      → p.place c ≡ waiting
      → PoolReached threads added ts (move c woken p)
  locks_again :
      {added ts : List Task} {p : Pool} (c : ℕ)
      → PoolReached threads added ts p
      → c < threads
      → p.place c ≡ woken
      → p.lock ≡ none
      → PoolReached threads added ts (lock_by c testing p)
  unlocks :
      {added ts : List Task} {p : Pool} (c : ℕ) (t : Task)
      → PoolReached threads added ts p
      → c < threads
      → p.place c ≡ popped t
      → PoolReached threads added ts (unlock_by c (running t) p)
  finishes :
      {added ts : List Task} {p : Pool} (c : ℕ) (t : Task)
      → PoolReached threads added ts p
      → c < threads
      → p.place c ≡ running t
      → PoolReached threads added ts (move c ready p)
