-- ===== src/Async/Tests.antt =====
-- A worker, thread 0, finds no task and sleeps; thread 1 adds one.
use cuhksz_operating_system.Prelude.{◌≢◌, ℕ, ◌≤◌, ◌≡◌, refl, [], ◌∷◌, ◌++◌, length, arith}
use cuhksz_operating_system.Async.{
  Task, Pool, entering, walking, linking, testing, found_none, waiting, crashed, move, lock_by,
  unlock_by, look, append_task, link, test, async_init, PoolReached, started, calls, locks_to_add,
  looks, links, locks_to_take, tests, sleeps,
}
use cuhksz_operating_system.Async.Order.{tasks_in_order}
use cuhksz_operating_system.Async.Count.{on_the_way}
use cuhksz_operating_system.Async.Wakeup.{no_lost_wakeup}
use cuhksz_operating_system.Async.Mutex.{queue_is_guarded}

abbrev task : Task
task = record { handler = 7; arg = 42 }

abbrev asleep : Pool
asleep = unlock_by 0 waiting (move 0 found_none (lock_by 0 testing (async_init 1)))

asleep-PoolReached : PoolReached 2 [] [] asleep
unfolding test
asleep-PoolReached =
    sleeps 0 (tests 0 (locks_to_take 0 (started 1) (omega arith) refl refl) (omega arith) refl)
      (omega arith) refl

abbrev before_add : Pool
before_add = move 1 (linking task 0) (lock_by 1 (walking task 0) (move 1 (entering task) asleep))

abbrev added_pool : Pool
added_pool = link 1 task 0 before_add

added_pool-PoolReached : PoolReached 2 (task ∷ []) [] added_pool
unfolding look
added_pool-PoolReached =
    links 1 task 0
      (looks 1 task 0
        (locks_to_add 1 task (calls 1 task asleep-PoolReached (omega arith) refl) (omega arith) refl
          refl)
        (omega arith) refl)
      (omega arith) refl

tasks_in_order_example :
    ([] ++ added_pool.task_queue ≡ task ∷ []) × ((c : ℕ) → added_pool.place c ≢ crashed)
tasks_in_order_example = tasks_in_order added_pool added_pool-PoolReached

no_lost_wakeup_example : length added_pool.task_queue ≤ on_the_way 2 added_pool.place
unfolding link
no_lost_wakeup_example = no_lost_wakeup added_pool 0 added_pool-PoolReached (omega arith) refl

abbrev adder : ℕ
adder = 1

queue_is_guarded_example : adder ≡ adder
unfolding link
queue_is_guarded_example = queue_is_guarded added_pool adder adder added_pool-PoolReached refl refl

-- The queue then has the task, and one thread comes for it.
one_task : length added_pool.task_queue ≡ 1
unfolding link append_task
one_task = refl
