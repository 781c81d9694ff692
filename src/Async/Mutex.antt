-- ===== src/Async/Mutex.antt =====
-- async.c: at most one thread is between the lock and the unlock of the mutex.
use cuhksz_operating_system.Prelude.{
  ℕ, Bool, true, false, Option, none, some, List, ◌==◌, ◌≡◌, inl, inr, refl, sym, ap, ◌∙◌, arith,
  Bool-cases, ==→eq, eq→==, ltb, if◌then◌else◌,
}
use cuhksz_operating_system.Async.{
  Task, Place, outside, entering, walking, linking, signalling, leaving, ready, testing, found_none,
  found_some, unlinking, waiting, woken, popped, running, crashed, Pool, set_place, look, link,
  test, first_task, PoolReached, started, calls, locks_to_add, looks, links, signals, signals_none,
  returns, locks_to_take, tests, sleeps, reads, pops, wakes, locks_again, unlocks, finishes,
}
use cuhksz_operating_system.Async.Count.{set_place_at, set_place_off}

-- The places where a thread has the mutex.
abbrev pub is_locked : Place → Bool
is_locked outside = false
is_locked (entering t) = false
is_locked (walking t k) = true
is_locked (linking t k) = true
is_locked signalling = true
is_locked leaving = true
is_locked ready = false
is_locked testing = true
is_locked found_none = true
is_locked found_some = true
is_locked (unlinking t q) = true
is_locked waiting = false
is_locked woken = false
is_locked (popped t) = true
is_locked (running t) = false
is_locked crashed = false

abbrev pub IsOwned : Option ℕ → (ℕ → Place) → Type 0
IsOwned lock f = (d : ℕ) → is_locked (f d) ≡ true → lock ≡ some d

false_true : {A : Type 0} → false ≡ true → A
false_true h = absurd (ground (arith, h))

pub same_owner : {c d : ℕ} → some c ≡ some d → c ≡ d
same_owner {c = c} e = ap (λ (o : Option ℕ). elim o [ none ↦ c | some x ↦ x ]) e

-- What holds after a thread has moved.
by_thread :
    (lock : Option ℕ) (c : ℕ) (x : Place) (f : ℕ → Place)
    → (is_locked x ≡ true → lock ≡ some c)
    → ((d : ℕ) → (d == c) ≡ false → is_locked (f d) ≡ true → lock ≡ some d)
    → IsOwned lock (set_place c x f)
by_thread lock c x f self others d h = elim (Bool-cases (d == c)) [
  | inl e ↦ self (sym (ap is_locked (set_place_at c d x f e)) ∙ h) ∙ ap some (sym (==→eq d c e))
  | inr e ↦ others d e (sym (ap is_locked (set_place_off c d x f e)) ∙ h)
]

moved :
    (lock : Option ℕ) (c : ℕ) (old x : Place) (f : ℕ → Place)
    → IsOwned lock f
    → f c ≡ old
    → (is_locked x ≡ true → is_locked old ≡ true)
    → IsOwned lock (set_place c x f)
moved lock c old x f v at up =
    by_thread lock c x f (λ h. v c (ap is_locked at ∙ up h)) (λ d e h. v d h)

locked :
    (lock : Option ℕ) (c : ℕ) (x : Place) (f : ℕ → Place)
    → IsOwned lock f
    → lock ≡ none
    → IsOwned (some c) (set_place c x f)
locked lock c x f v free =
    by_thread (some c) c x f (λ h. refl) (λ d e h. absurd (ground (arith, sym free ∙ v d h)))

unlocked :
    (lock : Option ℕ) (c : ℕ) (old x : Place) (f : ℕ → Place)
    → IsOwned lock f
    → f c ≡ old
    → is_locked old ≡ true
    → is_locked x ≡ false
    → IsOwned none (set_place c x f)
unlocked lock c old x f v at had gone =
    by_thread none c x f (λ h. false_true (sym gone ∙ h))
      (λ d e h.
        false_true (sym e ∙ eq→== d c (same_owner (sym (v d h) ∙ v c (ap is_locked at ∙ had)))))

start : (n : ℕ) → IsOwned none (λ c. if ltb c n then ready else outside)
start n c h = elim (Bool-cases (ltb c n)) [
  | inl e ↦ false_true (out ready e refl h)
  | inr e ↦ false_true (out outside e refl h)
]
  where
    out :
        {b : Bool} (x : Place)
        → ltb c n ≡ b
        → is_locked (if b then ready else outside) ≡ false
        → is_locked (if ltb c n then ready else outside) ≡ true
        → false ≡ true
    out x e low h' = sym low ∙ ap (λ b. is_locked (if b then ready else outside)) (sym e) ∙ h'

pub PoolReached-IsOwned :
    {n : ℕ} {added ts : List Task} (p : Pool) → PoolReached n added ts p → IsOwned p.lock p.place
unfolding link
PoolReached-IsOwned p (started num_threads) = start num_threads
PoolReached-IsOwned p (calls {p = p₀} c t r low at) =
    moved _ c outside (entering t) p₀.place (PoolReached-IsOwned p₀ r) at (λ h. false_true h)
PoolReached-IsOwned p (locks_to_add {p = p₀} c t r low at free) =
    locked p₀.lock c (walking t 0) p₀.place (PoolReached-IsOwned p₀ r) free
PoolReached-IsOwned p (looks {p = p₀} c t k r low at) =
    moved _ c (walking t k) (look t k p₀.task_queue) p₀.place (PoolReached-IsOwned p₀ r) at
      (λ h. refl)
PoolReached-IsOwned p (links {p = p₀} c t k r low at) =
    moved _ c (linking t k) signalling p₀.place (PoolReached-IsOwned p₀ r) at (λ h. refl)
PoolReached-IsOwned p (signals {p = p₀} c d r low low' at at') =
    by_thread _ d woken _ (λ h. false_true h)
      (λ e ne h.
        moved _ c signalling leaving p₀.place (PoolReached-IsOwned p₀ r) at (λ h'. refl) e h)
PoolReached-IsOwned p (signals_none {p = p₀} c r low at none_waits) =
    moved _ c signalling leaving p₀.place (PoolReached-IsOwned p₀ r) at (λ h. refl)
PoolReached-IsOwned p (returns {p = p₀} c r low at) =
    unlocked p₀.lock c leaving outside p₀.place (PoolReached-IsOwned p₀ r) at refl refl
PoolReached-IsOwned p (locks_to_take {p = p₀} c r low at free) =
    locked p₀.lock c testing p₀.place (PoolReached-IsOwned p₀ r) free
PoolReached-IsOwned p (tests {p = p₀} c r low at) =
    moved _ c testing (test p₀.task_queue) p₀.place (PoolReached-IsOwned p₀ r) at (λ h. refl)
PoolReached-IsOwned p (sleeps {p = p₀} c r low at) =
    unlocked p₀.lock c found_none waiting p₀.place (PoolReached-IsOwned p₀ r) at refl refl
PoolReached-IsOwned p (reads {p = p₀} c r low at) =
    moved _ c found_some (first_task p₀.task_queue) p₀.place (PoolReached-IsOwned p₀ r) at
      (λ h. refl)
PoolReached-IsOwned p (pops {p = p₀} c t next r low at) =
    moved _ c (unlinking t next) (popped t) p₀.place (PoolReached-IsOwned p₀ r) at (λ h. refl)
PoolReached-IsOwned p (wakes {p = p₀} c r low at) =
    moved _ c waiting woken p₀.place (PoolReached-IsOwned p₀ r) at (λ h. false_true h)
PoolReached-IsOwned p (locks_again {p = p₀} c r low at free) =
    locked p₀.lock c testing p₀.place (PoolReached-IsOwned p₀ r) free
PoolReached-IsOwned p (unlocks {p = p₀} c t r low at) =
    unlocked p₀.lock c (popped t) (running t) p₀.place (PoolReached-IsOwned p₀ r) at refl refl
PoolReached-IsOwned p (finishes {p = p₀} c t r low at) =
    moved _ c (running t) ready p₀.place (PoolReached-IsOwned p₀ r) at (λ h. false_true h)

-- In every pool that the steps of any number of threads lead to, at most one thread is in a part of
-- `worker` or `async_run` that reads or writes the queue.
pub queue_is_guarded :
    {n : ℕ} {added ts : List Task} (p : Pool) (c d : ℕ)
    → PoolReached n added ts p
    → is_locked (p.place c) ≡ true
    → is_locked (p.place d) ≡ true
    → c ≡ d
queue_is_guarded p c d r h h' =
    same_owner (sym (PoolReached-IsOwned p r c h) ∙ PoolReached-IsOwned p r d h')
