-- ===== src/Async/Wakeup.antt =====
-- async.c: no wakeup of a worker is lost.
use cuhksz_operating_system.Prelude.{
  ℕ, zero, suc, ◌+◌, ◌≤◌, ◌<◌, Bool, true, false, List, [], ◌∷◌, ◌==◌, ◌≡◌, ◌≢◌, inl, inr, refl,
  sym, ap, ◌∙◌, length, arith, Bool-cases, ==→eq, ltb, length-append, if◌then◌else◌,
}
use cuhksz_operating_system.Async.{
  Task, Place, outside, entering, walking, linking, signalling, leaving, ready, testing, found_none,
  found_some, unlinking, waiting, woken, popped, running, crashed, Pool, set_place, look, link,
  test, first_task, PoolReached, started, calls, locks_to_add, looks, links, signals, signals_none,
  returns, locks_to_take, tests, sleeps, reads, pops, wakes, locks_again, unlocks, finishes,
}
use cuhksz_operating_system.Async.Agree.{PoolReached-Agrees, append_task_lem}
use cuhksz_operating_system.Async.Count.{
  set_place_at, set_place_off, coming, on_the_way, on_the_way-set_place,
}

abbrev is_waiting : Place → Bool
is_waiting outside = false
is_waiting (entering t) = false
is_waiting (walking t k) = false
is_waiting (linking t k) = false
is_waiting signalling = false
is_waiting leaving = false
is_waiting ready = false
is_waiting testing = false
is_waiting found_none = false
is_waiting found_some = false
is_waiting (unlinking t q) = false
is_waiting waiting = true
is_waiting woken = false
is_waiting (popped t) = false
is_waiting (running t) = false
is_waiting crashed = false

-- With a thread that sleeps, `l` threads are about to look at the queue.
abbrev Awake : ℕ → ℕ → (ℕ → Place) → Type 0
Awake n l place = (d : ℕ) → d < n → place d ≡ waiting → l ≤ on_the_way n place

false_true : {A : Type 0} → false ≡ true → A
false_true h = absurd (ground (arith, h))

-- A thread that goes to a place where it does not sleep.
moved :
    (n c l l' : ℕ) (x : Place) (f : ℕ → Place)
    → Awake n l f
    → c < n
    → is_waiting x ≡ false
    → l' + coming (f c) ≤ l + coming x
    → Awake n l' (set_place c x f)
moved n c l l' x f v low up fits d low' at = elim (Bool-cases (d == c)) [
  | inl e ↦ false_true (sym up ∙ ap is_waiting (sym (set_place_at c d x f e) ∙ at))
  | inr e ↦
      omega (
        arith,
        v d low' (sym (set_place_off c d x f e) ∙ at),
        on_the_way-set_place n c x f low,
        fits,
      )
]

moved_from :
    (n c l l' : ℕ) (old x : Place) (f : ℕ → Place)
    → Awake n l f
    → c < n
    → f c ≡ old
    → is_waiting x ≡ false
    → l' + coming old ≤ l + coming x
    → Awake n l' (set_place c x f)
moved_from n c l l' old x f v low at up fits =
    moved n c l l' x f v low up (omega (arith, fits, ap coming at))

signalled :
    (n c d l : ℕ) (f : ℕ → Place)
    → Awake n l f
    → c < n
    → d < n
    → f c ≡ signalling
    → f d ≡ waiting
    → Awake n l (set_place d woken (set_place c leaving f))
signalled n c d zero f v low low' at at' = λ e h h'. omega arith
signalled n c d (suc l) f v low low' at at' =
    let v' : Awake n l (set_place c leaving f) =
      moved_from n c (suc l) l signalling leaving f v low at refl (omega arith) in
    moved_from n d l (suc l) waiting woken (set_place c leaving f) v' low' still refl (omega arith)
  where
    still : set_place c leaving f d ≡ waiting
    still = elim (Bool-cases (d == c)) [
      | inl e ↦ false_true (ap is_waiting (sym at ∙ sym (ap f (==→eq d c e)) ∙ at'))
      | inr e ↦ rw e at'
    ]

signalled_none :
    (n c l : ℕ) (f : ℕ → Place)
    → ((d : ℕ) → d < n → f d ≢ waiting)
    → Awake n l (set_place c leaving f)
signalled_none n c l f none_waits d low at = elim (Bool-cases (d == c)) [
  | inl e ↦ false_true (ap is_waiting (sym (set_place_at c d leaving f e) ∙ at))
  | inr e ↦ absurd (none_waits d low (sym (set_place_off c d leaving f e) ∙ at))
]

looked :
    (n c : ℕ) (t : Task) (k : ℕ) (q : List Task) (f : ℕ → Place)
    → Awake n (length q) f
    → c < n
    → f c ≡ walking t k
    → Awake n (length q) (set_place c (look t k q) f)
unfolding look
looked n c t k q f v low at = elim (Bool-cases (ltb k (length q))) [
  | inl e ↦ rw e (
      moved_from n c (length q) (length q) (walking t k) (walking t (k + 1)) f v low at refl
        (omega arith))
  | inr e ↦ rw e (
      moved_from n c (length q) (length q) (walking t k) (linking t k) f v low at refl
        (omega arith))
]

tested :
    (n c : ℕ) (q : List Task) (f : ℕ → Place)
    → Awake n (length q) f
    → c < n
    → f c ≡ testing
    → Awake n (length q) (set_place c (test q) f)
unfolding test
tested n c [] f v low at = λ d h h'. omega arith
tested n c (t ∷ q) f v low at =
    moved_from n c (length (t ∷ q)) (length (t ∷ q)) testing found_some f v low at refl
      (omega arith)

read_first :
    (n c : ℕ) (q : List Task) (f : ℕ → Place)
    → Awake n (length q) f
    → c < n
    → f c ≡ found_some
    → Awake n (length q) (set_place c (first_task q) f)
unfolding first_task
read_first n c [] f v low at = λ d h h'. omega arith
read_first n c (t ∷ q) f v low at =
    moved_from n c (length (t ∷ q)) (length (t ∷ q)) found_some (unlinking t q) f v low at refl
      (omega arith)

start : (n k : ℕ) → Awake n 0 (λ c. if ltb c k then ready else outside)
start n k d low at = omega arith

PoolReached-Awake :
    {n : ℕ} {added ts : List Task} (p : Pool)
    → PoolReached n added ts p
    → Awake n (length p.task_queue) p.place
unfolding link
PoolReached-Awake {n = n} p (started num_threads) = start n num_threads
PoolReached-Awake {n = n} p (calls {p = p₀} c t r low at) =
    moved_from n c _ _ outside (entering t) p₀.place (PoolReached-Awake p₀ r) low at refl
      (omega arith)
PoolReached-Awake {n = n} p (locks_to_add {p = p₀} c t r low at free) =
    moved_from n c _ _ (entering t) (walking t 0) p₀.place (PoolReached-Awake p₀ r) low at refl
      (omega arith)
PoolReached-Awake {n = n} p (looks {p = p₀} c t k r low at) =
    looked n c t k p₀.task_queue p₀.place (PoolReached-Awake p₀ r) low at
PoolReached-Awake {n = n} p (links {p = p₀} c t k r low at) =
    let longer = append_task_lem p₀.task_queue k t (PoolReached-Agrees p₀ c (linking t k) r at) in
    moved_from n c (length p₀.task_queue) _ (linking t k) signalling p₀.place
      (PoolReached-Awake p₀ r) low at refl
      (omega (arith, ap length longer, length-append p₀.task_queue (t ∷ [])))
PoolReached-Awake {n = n} p (signals {p = p₀} c d r low low' at at') =
    signalled n c d _ p₀.place (PoolReached-Awake p₀ r) low low' at at'
PoolReached-Awake {n = n} p (signals_none {p = p₀} c r low at none_waits) =
    signalled_none n c _ p₀.place none_waits
PoolReached-Awake {n = n} p (returns {p = p₀} c r low at) =
    moved_from n c _ _ leaving outside p₀.place (PoolReached-Awake p₀ r) low at refl (omega arith)
PoolReached-Awake {n = n} p (locks_to_take {p = p₀} c r low at free) =
    moved_from n c _ _ ready testing p₀.place (PoolReached-Awake p₀ r) low at refl (omega arith)
PoolReached-Awake {n = n} p (tests {p = p₀} c r low at) =
    tested n c p₀.task_queue p₀.place (PoolReached-Awake p₀ r) low at
PoolReached-Awake {n = n} p (sleeps {p = p₀} c r low at) =
    let nothing = ap length (PoolReached-Agrees p₀ c found_none r at) in
    λ d h h'. omega (arith, nothing)
PoolReached-Awake {n = n} p (reads {p = p₀} c r low at) =
    read_first n c p₀.task_queue p₀.place (PoolReached-Awake p₀ r) low at
PoolReached-Awake {n = n} p (pops {p = p₀} c t next r low at) =
    let shorter = ap length (PoolReached-Agrees p₀ c (unlinking t next) r at) in
    moved_from n c (length p₀.task_queue) (length next) (unlinking t next) (popped t) p₀.place
      (PoolReached-Awake p₀ r) low at refl (omega (arith, shorter))
PoolReached-Awake {n = n} p (wakes {p = p₀} c r low at) =
    moved_from n c _ _ waiting woken p₀.place (PoolReached-Awake p₀ r) low at refl (omega arith)
PoolReached-Awake {n = n} p (locks_again {p = p₀} c r low at free) =
    moved_from n c _ _ woken testing p₀.place (PoolReached-Awake p₀ r) low at refl (omega arith)
PoolReached-Awake {n = n} p (unlocks {p = p₀} c t r low at) =
    moved_from n c _ _ (popped t) (running t) p₀.place (PoolReached-Awake p₀ r) low at refl
      (omega arith)
PoolReached-Awake {n = n} p (finishes {p = p₀} c t r low at) =
    moved_from n c _ _ (running t) ready p₀.place (PoolReached-Awake p₀ r) low at refl (omega arith)

-- In every pool that the steps of `n` threads lead to: while one of them sleeps in `worker`, at least
-- as many threads as there are tasks in the queue either hold the mutex to take a task, are woken and
-- come to that, or are in `async_run` just before the call that wakes another. So no task is
-- left in the queue with all free workers asleep.
pub no_lost_wakeup :
    {n : ℕ} {added ts : List Task} (p : Pool) (d : ℕ)
    → PoolReached n added ts p
    → d < n
    → p.place d ≡ waiting
    → length p.task_queue ≤ on_the_way n p.place
no_lost_wakeup p d r = PoolReached-Awake p r d
