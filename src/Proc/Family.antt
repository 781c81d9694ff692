-- ===== src/Proc/Family.antt =====
-- `wakeup`, `reparent` and `exit` of Assignment3/source/proc.c.
use cuhksz_operating_system.Prelude.{
  ℕ, zero, suc, ◌+◌, ◌≤◌, ◌<◌, ◌≡◌, ◌≢◌, refl, sym, ◌⊎◌, ap, ◌∙◌, Bool, true, false, none, some,
  ◌==◌, arith, inl, inr, Bool-cases, ==→eq, ==→ne, eq→==, ne→==,
}
use cuhksz_operating_system.Proc.{
  zombie, is_unused, Table, nproc, update, child_of, addr_of, woken, wakeup_from, wakeup,
  reparent_from, die, wake_parent, exit,
}
use cuhksz_operating_system.Proc.Valid.{
  live, sleeping_only, Stirs, Stirs-refl, Stirs-trans, update-Stirs, IsValid, live_same, Adopts,
  Adopts-IsValid,
}

true_not_false : (b : Bool) → b ≡ true → b ≡ false → ⊥
true_not_false b e e' = ground (arith, e, e')

module _ (addr : ℕ → ℕ) where
  woken-Stirs : (chan i : ℕ) (t : Table) → Stirs t (update i (woken addr chan (t.procs i)) t)
  woken-Stirs chan i t =
      let h = sleeping_only (t.procs i).state in
      update-Stirs t i _ (ground (arith, h)) (ground (arith, h)) (ground arith) (ground arith)
        (ground arith)

  -- `wakeup` wakes, and changes no parent.
  pub wakeup_from-Stirs :
      (chan p left i : ℕ) (t : Table)
      → Stirs t (wakeup_from addr chan p left i t)
        × ((j : ℕ) → ((wakeup_from addr chan p left i t).procs j).parent ≡ (t.procs j).parent)
        × ((j : ℕ) → ((wakeup_from addr chan p left i t).procs j).xstate ≡ (t.procs j).xstate)
  unfolding wakeup_from
  wakeup_from-Stirs chan p zero i t = (Stirs-refl t, λ j. refl, λ j. refl)
  wakeup_from-Stirs chan p (suc left) i t = elim (Bool-cases (i == p)) [
    | inl e ↦ rw (e, wakeup_from) (wakeup_from-Stirs chan p left (i + 1) t)
    | inr e ↦
        let ih = wakeup_from-Stirs chan p left (i + 1) (update i (woken addr chan (t.procs i)) t) in
        rw (e, wakeup_from)
          (
            Stirs-trans t _ _ (woken-Stirs chan i t) ih.0,
            λ j. ih.1 j ∙ ground (arith, ==→eq j i),
            λ j. ih.2 j ∙ ground (arith, ==→eq j i),
          )
  ]

  -- `reparent(p)` gives the children of `p` to `init`, and wakes.
  pub record Reparents (p left i : ℕ) (t t' : Table) : Type 0 where
    pub stirs : Stirs t t'
    pub adopted :
        (j : ℕ)
        → i ≤ j
        → j < i + left
        → child_of p (t.procs j).parent ≡ true
        → (t'.procs j).parent ≡ some t.initproc
    pub kept :
        (j : ℕ)
        → (j < i) ⊎ (child_of p (t.procs j).parent ≡ false)
        → (t'.procs j).parent ≡ (t.procs j).parent
    pub either :
        (j : ℕ)
        → ((t'.procs j).parent ≡ (t.procs j).parent)
          ⊎ ((child_of p (t.procs j).parent ≡ true) × ((t'.procs j).parent ≡ some t.initproc))

  -- The round of a slot that is no child of `p`, and the round of one that is, with what follows.
  pass_other :
      (p left i : ℕ) (t t' : Table)
      → child_of p (t.procs i).parent ≡ false
      → Reparents p left (i + 1) t t'
      → Reparents p (suc left) i t t'
  pass_other p left i t t' e ih = record {
    stirs = ih.stirs;
    adopted = λ j low high c. elim (Bool-cases (j == i)) [
      | inl e' ↦
          absurd (true_not_false _ c (ap (λ k. child_of p (t.procs k).parent) (==→eq j i e') ∙ e))
      | inr e' ↦ ih.adopted j (omega (arith, ==→ne j i e')) (omega arith) c
    ];
    kept = λ j h. ih.kept j (ground (arith, h));
    either = ih.either;
  }

  pass_child :
      (p left i : ℕ) (t t₂ t' : Table)
      → child_of p (t.procs i).parent ≡ true
      → Stirs t t₂
      → (t₂.procs i).parent ≡ some t.initproc
      → ((j : ℕ) → j ≢ i → (t₂.procs j).parent ≡ (t.procs j).parent)
      → Reparents p left (i + 1) t₂ t'
      → Reparents p (suc left) i t t'
  pass_child p left i t t₂ t' e s own others ih =
      let stays : (j : ℕ) → j ≡ i → (t'.procs j).parent ≡ some t.initproc =
        λ j e'. ap (λ k. (t'.procs k).parent) e' ∙ ih.kept i (inl (omega arith)) ∙ own in
      record {
        stirs = Stirs-trans t t₂ _ s ih.stirs;
        adopted = λ j low high c. elim (Bool-cases (j == i)) [
          | inl e' ↦ stays j (==→eq j i e')
          | inr e' ↦
              ih.adopted j (omega (arith, ==→ne j i e')) (omega arith)
                (ap (child_of p) (others j (==→ne j i e')) ∙ c)
              ∙ ap some s.init_same
        ];
        kept = λ j h. elim (Bool-cases (j == i)) [
          | inl e' ↦ elim h [
            | inl h' ↦ absurd (omega (arith, ==→eq j i e'))
            | inr h' ↦
                absurd
                  (true_not_false _ (ap (λ k. child_of p (t.procs k).parent) (==→eq j i e') ∙ e) h')
          ]
          | inr e' ↦
              ih.kept j (elim h [
                | inl h' ↦ inl (omega arith)
                | inr h' ↦ inr (ap (child_of p) (others j (==→ne j i e')) ∙ h')
              ])
              ∙ others j (==→ne j i e')
        ];
        either = λ j. elim (Bool-cases (j == i)) [
          | inl e' ↦
              inr
                (ap (λ k. child_of p (t.procs k).parent) (==→eq j i e') ∙ e, stays j (==→eq j i e'))
          | inr e' ↦ elim (ih.either j) [
            | inl q ↦ inl (q ∙ others j (==→ne j i e'))
            | inr q ↦
                inr
                  (ap (child_of p) (sym (others j (==→ne j i e'))) ∙ q.0, q.1 ∙ ap some s.init_same)
          ]
        ];
      }

  pub reparent_from-Reparents :
      (p left i : ℕ) (t : Table)
      → p ≢ t.initproc
      → Reparents p left i t (reparent_from addr p left i t)
  unfolding reparent_from
  reparent_from-Reparents p zero i t other = record {
    stirs = Stirs-refl t;
    adopted = λ j low high c. absurd (omega arith);
    kept = λ j h. refl;
    either = λ j. inl refl;
  }
  reparent_from-Reparents p (suc left) i t other =
      elim (Bool-cases (child_of p (t.procs i).parent)) [
        | inr e ↦
            rw (e, reparent_from)
              (pass_other p left i t _ e (reparent_from-Reparents p left (i + 1) t other))
        | inl e ↦
            let t₁ = update i (record (t.procs i) { parent = some t.initproc }) t in
            let w = wakeup_from-Stirs (addr t.initproc) p nproc 0 t₁ in
            let t₂ = wakeup addr (addr t.initproc) p t₁ in
            let s : Stirs t t₂ =
              Stirs-trans t t₁ t₂ (update-Stirs t i _ refl refl refl refl refl) w.0 in
            rw (e, reparent_from)
              (pass_child p left i t t₂ _ e s (w.1 i ∙ ground arith)
                (λ j ne. w.1 j ∙ ground (arith, ne→== j i ne))
                (reparent_from-Reparents p left (i + 1) t₂ (λ e'. other (e' ∙ s.init_same))))
      ]

  wakeup-Adopts : (chan p : ℕ) (t : Table) → Adopts t (wakeup addr chan p t)
  wakeup-Adopts chan p t =
      let w = wakeup_from-Stirs chan p nproc 0 t in
      record {
        stirs = w.0;
        given = λ j q e. inl (sym (w.1 j) ∙ e);
        none_same = λ j e. w.1 j ∙ e;
        none_only = λ j e. sym (w.1 j) ∙ e;
      }

  pub wakeup-IsValid : (chan p : ℕ) (t : Table) → IsValid t → IsValid (wakeup addr chan p t)
  wakeup-IsValid chan p t = Adopts-IsValid t _ (wakeup-Adopts chan p t)

  reparent-Adopts : (p : ℕ) (t t' : Table) → Reparents p nproc 0 t t' → Adopts t t'
  reparent-Adopts p t t' r = record {
    stirs = r.stirs;
    given = λ j q e. elim (r.either j) [
      | inl e' ↦ inl (sym e' ∙ e)
      | inr e' ↦ inr (ground (arith, e, e'.1))
    ];
    none_same = λ j e. r.kept j (inr (ap (child_of p) e)) ∙ e;
    none_only = λ j e. elim (r.either j) [ inl e' ↦ sym e' ∙ e | inr e' ↦ ground (arith, e, e'.1) ];
  }

  -- What an exit leaves.
  pub record Exited (p status : ℕ) (t t' : Table) : Type 0 where
    pub valid : IsValid t'
    pub is_zombie : (t'.procs p).state ≡ zombie
    pub status_kept : (t'.procs p).xstate ≡ status
    pub pid_kept : (t'.procs p).pid ≡ (t.procs p).pid
    pub no_children : (j : ℕ) → j < nproc → (t'.procs j).parent ≢ some p
    pub handed_over :
        (j : ℕ) → j < nproc → (t.procs j).parent ≡ some p → (t'.procs j).parent ≡ some t.initproc
    pub others :
        (j q : ℕ) → j < nproc → (t.procs j).parent ≡ some q → q ≢ p → (t'.procs j).parent ≡ some q

  -- A process that dies with no children leaves the table in order.
  die-IsValid :
      (p status : ℕ) (t : Table)
      → IsValid t
      → live (t.procs p).state ≡ true
      → p ≢ t.initproc
      → ((j : ℕ) → j < nproc → (t.procs j).parent ≢ some p)
      → IsValid (die addr p status t)
  die-IsValid p status t v alive other none_left =
      let t' = die addr p status t in
      let unused_same : (j : ℕ) → is_unused (t'.procs j).state ≡ is_unused (t.procs j).state =
        λ j. ground (arith, ==→eq j p, alive) in
      let parent_same : (j : ℕ) → (t'.procs j).parent ≡ (t.procs j).parent =
        λ j. ground (arith, ==→eq j p) in
      let pid_same : (j : ℕ) → (t'.procs j).pid ≡ (t.procs j).pid =
        λ j. ground (arith, ==→eq j p) in
      let frame_same : (j : ℕ) → (t'.procs j).trapframe ≡ (t.procs j).trapframe =
        λ j. ground (arith, ==→eq j p) in
      let table_same : (j : ℕ) → (t'.procs j).pagetable ≡ (t.procs j).pagetable =
        λ j. ground (arith, ==→eq j p) in
      record {
        init_low = v.init_low;
        init_live = ground (arith, v.init_live, ==→eq t.initproc p);
        fresh = v.fresh;
        parents = λ j q h e.
            let r = v.parents j q h (sym (parent_same j) ∙ e) in
            let away : q ≢ p = λ e'. none_left j h (sym (parent_same j) ∙ e ∙ ap some e') in
            (r.0, ground (arith, r.1, ==→eq q p));
        no_parent = λ j h e. parent_same j ∙ v.no_parent j h (sym (unused_same j) ∙ e);
        kin = λ j h e ne e'. v.kin j h (sym (unused_same j) ∙ e) ne (sym (parent_same j) ∙ e');
        empty = λ j h e.
            let r = v.empty j h (sym (unused_same j) ∙ e) in
            (frame_same j ∙ r.0, table_same j ∙ r.1);
        full = λ j h e.
            let r = v.full j h (sym (unused_same j) ∙ e) in
            (
              frame_same j ∙ r.0,
              table_same j ∙ r.1,
              omega (arith, pid_same j, r.2),
              omega (arith, pid_same j, r.3),
            );
        apart = λ j k hj hk ej ek e.
            v.apart j k hj hk (sym (unused_same j) ∙ ej) (sym (unused_same k) ∙ ek)
              (sym (pid_same j) ∙ e ∙ pid_same k);
      }

  -- In a table in order, a process that is neither unused nor a zombie and is not `init` exits: its
  -- slot is a zombie with the exit status and the pid it had, all its children have the parent `init`
  -- and no others have a new parent, and the table is in order, so that every zombie has a parent
  -- that can wait for it. For `init` the call panics.
  pub exit-Exited :
      (p status : ℕ) (t : Table)
      → IsValid t
      → live (t.procs p).state ≡ true
      → ((p ≡ t.initproc) × (exit addr p status t ≡ none))
        ⊎ ((t' : Table) × (exit addr p status t ≡ some t') × Exited p status t t')
  unfolding exit
  exit-Exited p status t v alive = elim (Bool-cases (p == t.initproc)) [
    | inl e ↦ inl (==→eq p _ e, rw e)
    | inr e ↦
        let t₁ = reparent_from addr p nproc 0 t in
        let r = reparent_from-Reparents p nproc 0 t (==→ne p _ e) in
        let w = wakeup_from-Stirs (addr_of addr (t₁.procs p).parent) p nproc 0 t₁ in
        let t₂ = wake_parent addr p t₁ in
        let v₂ =
          wakeup-IsValid (addr_of addr (t₁.procs p).parent) p t₁
            (Adopts-IsValid t t₁ (reparent-Adopts p t t₁ r) v) in
        let s : Stirs t t₂ = Stirs-trans t t₁ t₂ r.stirs w.0 in
        let last : (j : ℕ) → ((die addr p status t₂).procs j).parent ≡ (t₁.procs j).parent =
          λ j. ground (arith, ==→eq j p, w.1 j, w.1 p) in
        let none_left : (j : ℕ) → j < nproc → (t₁.procs j).parent ≢ some p = λ j h e'.
          elim (r.either j) [
            | inl q ↦
                let mine =
                  r.adopted j (omega arith) (omega arith)
                    (ap (child_of p) (sym q ∙ e') ∙ eq→== p p refl) in
                ground (arith, mine, e', ==→ne p _ e)
            | inr q ↦ ground (arith, q.1, e', ==→ne p _ e)
          ] in
        inr (
          die addr p status t₂,
          rw e,
          record {
            valid =
                die-IsValid p status t₂ v₂ (live_same t t₂ s p ∙ alive)
                  (λ e'. ==→ne p _ e (e' ∙ s.init_same))
                  (λ j h e'. none_left j h (sym (w.1 j) ∙ e'));
            is_zombie = ground (arith, eq→== p p refl);
            status_kept = ground (arith, eq→== p p refl);
            pid_kept = ground (arith, eq→== p p refl, s.pid_same p);
            no_children = λ j h e'. none_left j h (sym (last j) ∙ e');
            handed_over = λ j h e'.
                last j
                ∙ r.adopted j (omega arith) (omega arith) (ap (child_of p) e' ∙ eq→== p p refl);
            others =
                λ j q h e' ne. last j ∙ r.kept j (inr (ap (child_of p) e' ∙ ne→== q p ne)) ∙ e';
          },
        )
  ]
