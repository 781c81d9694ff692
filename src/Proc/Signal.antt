-- ===== src/Proc/Signal.antt =====
-- Who `wakeup` and `kill` of Assignment3/source/proc.c reach.
use cuhksz_operating_system.Prelude.{
  ℕ, zero, suc, ◌+◌, ◌≤◌, ◌<◌, ◌≡◌, ◌≢◌, refl, sym, ◌⊎◌, ap, ◌∙◌, Bool, true, false, ◌&&◌, ◌==◌,
  arith, inl, inr, subst, Bool-cases, ==→eq, ==→ne, eq→==, ne→==,
}
use cuhksz_operating_system.Proc.{
  runnable, is_sleeping, Proc, Table, nproc, update, woken, wakeup_from, wakeup, victim, kill_from,
  kill,
}

-- The process waits for a wakeup of the channel.
abbrev pub waits_on : ℕ → Proc → Bool
waits_on chan q = is_sleeping q.state && q.chan == chan

module _ (addr : ℕ → ℕ) (chan p : ℕ) where
  woken_quiet : (q : Proc) → waits_on chan q ≡ false → woken addr chan q ≡ q
  woken_quiet q h = rw h refl

  woken_waiting :
      (q : Proc) → waits_on chan q ≡ true → woken addr chan q ≡ record q { state = runnable }
  woken_waiting q h = rw h refl

  -- A slot that the loop has passed, or that it does not concern.
  wakeup_from-same :
      (left i : ℕ) (t : Table) (j : ℕ)
      → (j ≡ p) ⊎ (j < i) ⊎ (waits_on chan (t.procs j) ≡ false)
      → (wakeup_from addr chan p left i t).procs j ≡ t.procs j
  unfolding wakeup_from
  wakeup_from-same zero i t j h = refl
  wakeup_from-same (suc left) i t j h = elim (Bool-cases (i == p)) [
    | inl e ↦ rw (e, wakeup_from) (wakeup_from-same left (i + 1) t j (ground (arith, h)))
    | inr e ↦
        let t₁ = update i (woken addr chan (t.procs i)) t in
        elim (Bool-cases (j == i)) [
          | inl e' ↦
              let quiet : waits_on chan (t.procs j) ≡ false =
                ground (arith, h, ==→eq j i e', ==→ne i p e) in
              let quiet' : waits_on chan (t.procs i) ≡ false =
                ap (λ k. waits_on chan (t.procs k)) (sym (==→eq j i e')) ∙ quiet in
              let now : t₁.procs j ≡ t.procs j =
                rw e' (woken_quiet (t.procs i) quiet' ∙ ap t.procs (sym (==→eq j i e'))) in
              rw (e, wakeup_from)
                (wakeup_from-same left (i + 1) t₁ j (inr (inl (omega (arith, ==→eq j i e')))) ∙ now)
          | inr e' ↦
              let now : t₁.procs j ≡ t.procs j = rw e' refl in
              rw (e, wakeup_from)
                (wakeup_from-same left (i + 1) t₁ j (elim h [
                  | inl a ↦ inl a
                  | inr b ↦ elim b [
                    | inl c ↦ inr (inl (omega arith))
                    | inr d ↦ inr (inr (ap (waits_on chan) now ∙ d))
                  ]
                ])
                  ∙ now)
        ]
  ]

  wakeup_from-waiting :
      (left i : ℕ) (t : Table) (j : ℕ)
      → j ≢ p
      → i ≤ j
      → j < i + left
      → waits_on chan (t.procs j) ≡ true
      → (wakeup_from addr chan p left i t).procs j ≡ record (t.procs j) { state = runnable }
  unfolding wakeup_from
  wakeup_from-waiting zero i t j ne low high w = absurd (omega arith)
  wakeup_from-waiting (suc left) i t j ne low high w = elim (Bool-cases (i == p)) [
    | inl e ↦
        rw (e, wakeup_from)
          (wakeup_from-waiting left (i + 1) t j ne (omega (arith, ==→eq i p e)) (omega arith) w)
    | inr e ↦
        let t₁ = update i (woken addr chan (t.procs i)) t in
        elim (Bool-cases (j == i)) [
          | inl e' ↦
              let w' : waits_on chan (t.procs i) ≡ true =
                ap (λ k. waits_on chan (t.procs k)) (sym (==→eq j i e')) ∙ w in
              let now : t₁.procs j ≡ record (t.procs j) { state = runnable } = rw e' (
                woken_waiting (t.procs i) w'
                ∙ ap (λ k. record (t.procs k) { state = runnable }) (sym (==→eq j i e'))) in
              rw (e, wakeup_from)
                (wakeup_from-same left (i + 1) t₁ j (inr (inl (omega (arith, ==→eq j i e')))) ∙ now)
          | inr e' ↦
              let now : t₁.procs j ≡ t.procs j = rw e' refl in
              rw (e, wakeup_from)
                (wakeup_from-waiting left (i + 1) t₁ j ne (omega (arith, ==→ne j i e'))
                    (omega arith) (ap (waits_on chan) now ∙ w)
                  ∙ ap (λ (q : Proc). record q { state = runnable }) now)
        ]
  ]

  -- `wakeup(chan)` makes each process that sleeps on `chan` runnable, but for the caller, and changes
  -- no other slot: no sleeper is missed.
  pub wakeup-wakes :
      (t : Table) (j : ℕ)
      → j < nproc
      → ((j ≢ p)
          → waits_on chan (t.procs j) ≡ true
          → (wakeup addr chan p t).procs j ≡ record (t.procs j) { state = runnable })
        × ((j ≡ p) ⊎ (waits_on chan (t.procs j) ≡ false)
            → (wakeup addr chan p t).procs j ≡ t.procs j)
  wakeup-wakes t j h = (
    λ ne w. wakeup_from-waiting nproc 0 t j ne (omega arith) (omega arith) w,
    λ o. wakeup_from-same nproc 0 t j (elim o [ inl a ↦ inl a | inr b ↦ inr (inr b) ]),
  )

-- The process is marked, it is runnable if it slept and else has the state that it had, and no other
-- field changed.
pub record Killed (q q' : Proc) : Type 0 where
  pub marked : q'.killed ≡ true
  pub slept : is_sleeping q.state ≡ true → q'.state ≡ runnable
  pub awake : is_sleeping q.state ≡ false → q'.state ≡ q.state
  pub rest : record q' { killed = q.killed; state = q.state } ≡ q

victim-Killed : (q : Proc) → Killed q (victim q)
victim-Killed q = record {
  marked = refl;
  slept = λ h. rw h refl;
  awake = λ h. rw h refl;
  rest = refl;
}

-- What `kill` does, for each of its answers.
pub Kills : ℕ → ℕ → ℕ → Table → Bool → Table → Type 0
Kills pid left i t true t' =
    (j : ℕ) × (i ≤ j)
    × (j < i + left)
    × ((t.procs j).pid ≡ pid)
    × Killed (t.procs j) (t'.procs j)
    × ((k : ℕ) → k ≢ j → t'.procs k ≡ t.procs k)
Kills pid left i t false t' = (t' ≡ t) × ((j : ℕ) → i ≤ j → j < i + left → (t.procs j).pid ≢ pid)

Kills-more :
    (pid left i : ℕ) (t : Table) (found : Bool) (t' : Table)
    → (t.procs i).pid ≢ pid
    → Kills pid left (i + 1) t found t'
    → Kills pid (suc left) i t found t'
unfolding Kills
Kills-more pid left i t true t' ne (j, low, high, a, b, c) = (j, omega arith, omega arith, a, b, c)
Kills-more pid left i t false t' ne (e, r) = (
  e,
  λ j low high e'. elim (Bool-cases (j == i)) [
    | inl h ↦ ne (ap (λ k. (t.procs k).pid) (sym (==→eq j i h)) ∙ e')
    | inr h ↦ r j (omega (arith, ==→ne j i h)) (omega arith) e'
  ],
)

kill_from-Kills :
    (pid left i : ℕ) (t : Table)
    → Kills pid left i t (kill_from pid left i t).0 (kill_from pid left i t).1
unfolding kill_from Kills
kill_from-Kills pid zero i t = (refl, λ j low high e. absurd (omega arith))
kill_from-Kills pid (suc left) i t = elim (Bool-cases ((t.procs i).pid == pid)) [
  | inl e ↦
      rw (e, kill_from)
        (
          i,
          omega arith,
          omega arith,
          ==→eq _ _ e,
          subst (Killed (t.procs i)) (sym (rw (eq→== i i refl) refl)) (victim-Killed (t.procs i)),
          λ k ne. rw (ne→== k i ne) refl,
        )
  | inr e ↦
      rw (e, kill_from)
        (Kills-more pid left i t _ _ (==→ne _ _ e) (kill_from-Kills pid left (i + 1) t))
]

-- `kill(pid)` marks one process with this pid as killed, and if it slept it is runnable; no other slot
-- changes. If no slot has the pid, the call fails and nothing changes.
pub kill-Kills : (pid : ℕ) (t : Table) → Kills pid nproc 0 t (kill pid t).0 (kill pid t).1
kill-Kills pid t = kill_from-Kills pid nproc 0 t
