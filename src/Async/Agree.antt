-- ===== src/Async/Agree.antt =====
-- async.c: what a thread has read of the queue is still so, as long as it has the mutex.
use cuhksz_operating_system.Prelude.{
  ℕ, zero, suc, ◌≤◌, true, false, Option, List, [], ◌∷◌, ◌++◌, ◌==◌, ◌≡◌, ◌≢◌, inl, inr, refl, sym,
  ap, ◌∙◌, subst, arith, length, Bool-cases, ==→ne, ltb, ltb→lt, ltb→le, if◌then◌else◌,
}
use cuhksz_operating_system.Async.{
  Task, Place, outside, entering, walking, linking, signalling, leaving, ready, testing, found_none,
  found_some, unlinking, waiting, woken, popped, running, crashed, Pool, set_place, look,
  append_task, link, test, first_task, PoolReached, started, calls, locks_to_add, looks, links,
  signals, signals_none, returns, locks_to_take, tests, sleeps, reads, pops, wakes, locks_again,
  unlocks, finishes,
}
use cuhksz_operating_system.Async.Count.{set_place_at, set_place_off}
use cuhksz_operating_system.Async.Mutex.{is_locked, IsOwned, same_owner, PoolReached-IsOwned}

-- What the place of a thread says of the queue.
abbrev pub Agrees : Place → List Task → Type 0
Agrees outside q = Unit
Agrees (entering t) q = Unit
Agrees (walking t k) q = k ≤ length q
Agrees (linking t k) q = k ≡ length q
Agrees signalling q = Unit
Agrees leaving q = Unit
Agrees ready q = Unit
Agrees testing q = Unit
Agrees found_none q = q ≡ []
Agrees found_some q = q ≢ []
Agrees (unlinking t next) q = q ≡ t ∷ next
Agrees waiting q = Unit
Agrees woken q = Unit
Agrees (popped t) q = Unit
Agrees (running t) q = Unit
Agrees crashed q = ⊥

abbrev pub AllAgree : List Task → (ℕ → Place) → Type 0
AllAgree q f = (d : ℕ) → Agrees (f d) q

-- A place without the mutex says nothing of the queue.
free-Agrees : (x : Place) (q q' : List Task) → is_locked x ≡ false → Agrees x q → Agrees x q'
free-Agrees outside q q' e h = tt
free-Agrees (entering t) q q' e h = tt
free-Agrees (walking t k) q q' e h = absurd (ground (arith, e))
free-Agrees (linking t k) q q' e h = absurd (ground (arith, e))
free-Agrees signalling q q' e h = tt
free-Agrees leaving q q' e h = tt
free-Agrees ready q q' e h = tt
free-Agrees testing q q' e h = tt
free-Agrees found_none q q' e h = absurd (ground (arith, e))
free-Agrees found_some q q' e h = absurd (ground (arith, e))
free-Agrees (unlinking t next) q q' e h = absurd (ground (arith, e))
free-Agrees waiting q q' e h = tt
free-Agrees woken q q' e h = tt
free-Agrees (popped t) q q' e h = tt
free-Agrees (running t) q q' e h = tt
free-Agrees crashed q q' e h = h

moved :
    (c : ℕ) (x : Place) (q : List Task) (f : ℕ → Place)
    → AllAgree q f
    → Agrees x q
    → AllAgree q (set_place c x f)
moved c x q f v h d = elim (Bool-cases (d == c)) [
  | inl e ↦ subst (λ y. Agrees y q) (sym (set_place_at c d x f e)) h
  | inr e ↦ subst (λ y. Agrees y q) (sym (set_place_off c d x f e)) (v d)
]

-- The thread that has the mutex changes the queue.
changed :
    (c : ℕ) (x : Place) (q q' : List Task) (lock : Option ℕ) (f : ℕ → Place)
    → IsOwned lock f
    → is_locked (f c) ≡ true
    → AllAgree q f
    → Agrees x q'
    → AllAgree q' (set_place c x f)
changed c x q q' lock f own has v h d = elim (Bool-cases (d == c)) [
  | inl e ↦ subst (λ y. Agrees y q') (sym (set_place_at c d x f e)) h
  | inr e ↦
      subst (λ y. Agrees y q') (sym (set_place_off c d x f e))
        (elim (Bool-cases (is_locked (f d))) [
          | inl has' ↦ absurd (==→ne d c e (same_owner (sym (own d has') ∙ own c has)))
          | inr free ↦ free-Agrees (f d) q q' free (v d)
        ])
]

look-Agrees : (t : Task) (k : ℕ) (q : List Task) → k ≤ length q → Agrees (look t k q) q
unfolding look
look-Agrees t k q low = elim (Bool-cases (ltb k (length q))) [
  | inl e ↦ rw e (omega (arith, ltb→lt k (length q) e))
  | inr e ↦ rw e (omega (arith, low, ltb→le k (length q) e))
]

test-Agrees : (q : List Task) → Agrees (test q) q
unfolding test
test-Agrees [] = refl
test-Agrees (t ∷ q) = λ h. ground (arith, h)

first_task-Agrees : (q : List Task) → q ≢ [] → Agrees (first_task q) q
unfolding first_task
first_task-Agrees [] some_task = some_task refl
first_task-Agrees (t ∷ q) some_task = refl

start-Agrees : (n : ℕ) → AllAgree [] (λ c. if ltb c n then ready else outside)
start-Agrees n c = elim (Bool-cases (ltb c n)) [ inl e ↦ rw e tt | inr e ↦ rw e tt ]

at_place : (x : Place) (c : ℕ) (q : List Task) (f : ℕ → Place) → AllAgree q f → f c ≡ x → Agrees x q
at_place x c q f v at = subst (λ y. Agrees y q) at (v c)

pub PoolReached-AllAgree :
    {n : ℕ} {added ts : List Task} (p : Pool)
    → PoolReached n added ts p
    → AllAgree p.task_queue p.place
unfolding link
PoolReached-AllAgree p (started num_threads) = start-Agrees num_threads
PoolReached-AllAgree p (calls {p = p₀} c t r low at) =
    moved c (entering t) _ p₀.place (PoolReached-AllAgree p₀ r) tt
PoolReached-AllAgree p (locks_to_add {p = p₀} c t r low at free) =
    moved c (walking t 0) _ p₀.place (PoolReached-AllAgree p₀ r) (omega arith)
PoolReached-AllAgree p (looks {p = p₀} c t k r low at) =
    let v = PoolReached-AllAgree p₀ r in
    moved c (look t k p₀.task_queue) p₀.task_queue p₀.place v
      (look-Agrees t k p₀.task_queue (at_place (walking t k) c p₀.task_queue p₀.place v at))
PoolReached-AllAgree p (links {p = p₀} c t k r low at) =
    changed c signalling p₀.task_queue _ p₀.lock p₀.place (PoolReached-IsOwned p₀ r)
      (ap is_locked at) (PoolReached-AllAgree p₀ r) tt
PoolReached-AllAgree p (signals {p = p₀} c d r low low' at at') =
    moved d woken p₀.task_queue (set_place c leaving p₀.place)
      (moved c leaving p₀.task_queue p₀.place (PoolReached-AllAgree p₀ r) tt) tt
PoolReached-AllAgree p (signals_none {p = p₀} c r low at none_waits) =
    moved c leaving p₀.task_queue p₀.place (PoolReached-AllAgree p₀ r) tt
PoolReached-AllAgree p (returns {p = p₀} c r low at) =
    moved c outside p₀.task_queue p₀.place (PoolReached-AllAgree p₀ r) tt
PoolReached-AllAgree p (locks_to_take {p = p₀} c r low at free) =
    moved c testing p₀.task_queue p₀.place (PoolReached-AllAgree p₀ r) tt
PoolReached-AllAgree p (tests {p = p₀} c r low at) =
    moved c (test p₀.task_queue) p₀.task_queue p₀.place (PoolReached-AllAgree p₀ r)
      (test-Agrees p₀.task_queue)
PoolReached-AllAgree p (sleeps {p = p₀} c r low at) =
    moved c waiting p₀.task_queue p₀.place (PoolReached-AllAgree p₀ r) tt
PoolReached-AllAgree p (reads {p = p₀} c r low at) =
    let v = PoolReached-AllAgree p₀ r in
    moved c (first_task p₀.task_queue) p₀.task_queue p₀.place v
      (first_task-Agrees p₀.task_queue (at_place found_some c p₀.task_queue p₀.place v at))
PoolReached-AllAgree p (pops {p = p₀} c t next r low at) =
    changed c (popped t) p₀.task_queue next p₀.lock p₀.place (PoolReached-IsOwned p₀ r)
      (ap is_locked at) (PoolReached-AllAgree p₀ r) tt
PoolReached-AllAgree p (wakes {p = p₀} c r low at) =
    moved c woken p₀.task_queue p₀.place (PoolReached-AllAgree p₀ r) tt
PoolReached-AllAgree p (locks_again {p = p₀} c r low at free) =
    moved c testing p₀.task_queue p₀.place (PoolReached-AllAgree p₀ r) tt
PoolReached-AllAgree p (unlocks {p = p₀} c t r low at) =
    moved c (running t) p₀.task_queue p₀.place (PoolReached-AllAgree p₀ r) tt
PoolReached-AllAgree p (finishes {p = p₀} c t r low at) =
    moved c ready p₀.task_queue p₀.place (PoolReached-AllAgree p₀ r) tt

-- What the place of a thread says, in a pool that is reached.
pub PoolReached-Agrees :
    {n : ℕ} {added ts : List Task} (p : Pool) (c : ℕ) (x : Place)
    → PoolReached n added ts p
    → p.place c ≡ x
    → Agrees x p.task_queue
PoolReached-Agrees p c x r at = at_place x c p.task_queue p.place (PoolReached-AllAgree p r) at

pub append_task_lem :
    (q : List Task) (k : ℕ) (t : Task) → k ≡ length q → append_task k q t ≡ q ++ (t ∷ [])
unfolding append_task
append_task_lem [] zero t e = refl
append_task_lem [] (suc k) t e = absurd (omega (arith, e))
append_task_lem (u ∷ q) zero t e = absurd (omega (arith, e))
append_task_lem (u ∷ q) (suc k) t e = ap (λ r. u ∷ r) (append_task_lem q k t (omega (arith, e)))
