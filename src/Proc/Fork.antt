-- ===== src/Proc/Fork.antt =====
-- `allocproc` and `fork` of Assignment3/source/proc.c.
use cuhksz_operating_system.Prelude.{
  ℕ, zero, suc, ◌+◌, ◌≤◌, ◌<◌, ◌≡◌, ◌≢◌, refl, sym, ◌⊎◌, ap, ◌∙◌, Bool, true, false, Option, none,
  some, ◌==◌, arith, inl, inr, Bool-cases, Option-cases, ==→eq, ==→ne, eq→==, ne→==,
}
use cuhksz_operating_system.Proc.{
  runnable, is_unused, Proc, Table, nproc, update, freed, find_unused, set_up, allocproc, fork_into,
  fork,
}
use cuhksz_operating_system.Proc.Valid.{live, IsValid}
use cuhksz_operating_system.Proc.Wait.{Sets, freed-IsValid}

find_unused-some :
    (left i k : ℕ) (t : Table)
    → find_unused left i t ≡ some k
    → (i ≤ k) × (k < i + left) × (is_unused (t.procs k).state ≡ true)
unfolding find_unused
find_unused-some zero i k t e = ground (arith, e)
find_unused-some (suc left) i k t e = elim (Bool-cases (is_unused (t.procs i).state)) [
  | inl h ↦
      let same : i ≡ k = ground (arith, e, h) in
      (
        omega (arith, same),
        omega (arith, same),
        ap (λ j. is_unused (t.procs j).state) (sym same) ∙ h,
      )
  | inr h ↦
      let r = find_unused-some left (i + 1) k t (ground (arith, e, h)) in
      (omega (arith, r.0), omega (arith, r.1), r.2)
]

find_unused-none :
    (left i j : ℕ) (t : Table)
    → find_unused left i t ≡ none
    → i ≤ j
    → j < i + left
    → is_unused (t.procs j).state ≡ false
unfolding find_unused
find_unused-none zero i j t e low high = absurd (omega arith)
find_unused-none (suc left) i j t e low high = elim (Bool-cases (j == i)) [
  | inl h ↦ ap (λ k. is_unused (t.procs k).state) (==→eq j i h) ∙ ground (arith, e)
  | inr h ↦
      find_unused-none left (i + 1) j t (ground (arith, e)) (omega (arith, ==→ne j i h))
        (omega arith)
]

-- A slot that was unused holds a child of `p`.
child-IsValid :
    (i p : ℕ) (q : Proc) (t t' : Table)
    → Sets i q (t.nextpid + 1) t t'
    → i < nproc
    → is_unused (t.procs i).state ≡ true
    → p < nproc
    → live (t.procs p).state ≡ true
    → q.state ≡ runnable
    → q.pid ≡ t.nextpid
    → q.parent ≡ some p
    → q.trapframe ≡ true
    → q.pagetable ≡ true
    → IsValid t
    → IsValid t'
child-IsValid i p q t t' s low free plow alive_p runs pid parent frame pages v =
    let cases : (j : ℕ) → ((j ≡ i) × (t'.procs j ≡ q)) ⊎ ((j ≢ i) × (t'.procs j ≡ t.procs j)) = λ j.
      elim (Bool-cases (j == i)) [
        | inl e ↦ inl (==→eq j i e, ap t'.procs (==→eq j i e) ∙ s.here)
        | inr e ↦ inr (==→ne j i e, s.there j (==→ne j i e))
      ] in
    let alive : (j : ℕ) → live (t.procs j).state ≡ true → live (t'.procs j).state ≡ true = λ j h.
      elim (cases j) [
        | inl c ↦ ap (λ (x : Proc). live x.state) c.1 ∙ ap live runs
        | inr c ↦ ap (λ (x : Proc). live x.state) c.1 ∙ h
      ] in
    let in_use : is_unused q.state ≡ false = ap is_unused runs in
    record {
      init_low = rw s.init_same v.init_low;
      init_live = rw s.init_same (alive t.initproc v.init_live);
      fresh = omega (arith, v.fresh, s.next);
      parents = λ j k h e. elim (cases j) [
        | inl c ↦
            let e' : k ≡ p = ground (arith, ap (λ (x : Proc). x.parent) c.1, parent, e) in
            (omega (arith, e'), ap (λ k. live (t'.procs k).state) e' ∙ alive p alive_p)
        | inr c ↦
            let r = v.parents j k h (ap (λ (x : Proc). x.parent) (sym c.1) ∙ e) in
            (r.0, alive k r.1)
      ];
      no_parent = λ j h e. elim (cases j) [
        | inl c ↦ ground (arith, ap (λ (x : Proc). is_unused x.state) c.1, in_use, e)
        | inr c ↦
            ap (λ (x : Proc). x.parent) c.1
            ∙ v.no_parent j h (ap (λ (x : Proc). is_unused x.state) (sym c.1) ∙ e)
      ];
      kin = λ j h e ne e'. elim (cases j) [
        | inl c ↦ ground (arith, ap (λ (x : Proc). x.parent) c.1, parent, e')
        | inr c ↦
            v.kin j h (ap (λ (x : Proc). is_unused x.state) (sym c.1) ∙ e)
              (λ k. ne (k ∙ sym s.init_same)) (ap (λ (x : Proc). x.parent) (sym c.1) ∙ e')
      ];
      empty = λ j h e. elim (cases j) [
        | inl c ↦ ground (arith, ap (λ (x : Proc). is_unused x.state) c.1, in_use, e)
        | inr c ↦
            let r = v.empty j h (ap (λ (x : Proc). is_unused x.state) (sym c.1) ∙ e) in
            (ap (λ (x : Proc). x.trapframe) c.1 ∙ r.0, ap (λ (x : Proc). x.pagetable) c.1 ∙ r.1)
      ];
      full = λ j h e. elim (cases j) [
        | inl c ↦ (
          ap (λ (x : Proc). x.trapframe) c.1 ∙ frame,
          ap (λ (x : Proc). x.pagetable) c.1 ∙ pages,
          omega (arith, ap (λ (x : Proc). x.pid) c.1, pid, v.fresh),
          omega (arith, ap (λ (x : Proc). x.pid) c.1, pid, s.next),
        )
        | inr c ↦
            let r = v.full j h (ap (λ (x : Proc). is_unused x.state) (sym c.1) ∙ e) in
            (
              ap (λ (x : Proc). x.trapframe) c.1 ∙ r.0,
              ap (λ (x : Proc). x.pagetable) c.1 ∙ r.1,
              omega (arith, ap (λ (x : Proc). x.pid) c.1, r.2),
              omega (arith, ap (λ (x : Proc). x.pid) c.1, r.3, s.next),
            )
      ];
      apart = λ j k hj hk ej ek e. elim (cases j) [
        | inl c ↦ elim (cases k) [
          | inl c' ↦ c.0 ∙ sym c'.0
          | inr c' ↦
              let r = v.full k hk (ap (λ (x : Proc). is_unused x.state) (sym c'.1) ∙ ek) in
              absurd (
                omega
                  (arith, ap (λ (x : Proc). x.pid) c.1, ap (λ (x : Proc). x.pid) c'.1, pid, r.3, e))
        ]
        | inr c ↦ elim (cases k) [
          | inl c' ↦
              let r = v.full j hj (ap (λ (x : Proc). is_unused x.state) (sym c.1) ∙ ej) in
              absurd (
                omega
                  (arith, ap (λ (x : Proc). x.pid) c.1, ap (λ (x : Proc). x.pid) c'.1, pid, r.3, e))
          | inr c' ↦
              v.apart j k hj hk (ap (λ (x : Proc). is_unused x.state) (sym c.1) ∙ ej)
                (ap (λ (x : Proc). is_unused x.state) (sym c'.1) ∙ ek)
                (ap (λ (x : Proc). x.pid) (sym c.1) ∙ e ∙ ap (λ (x : Proc). x.pid) c'.1)
        ]
      ];
    }

-- The new process in slot `i`.
pub record Child (p n : ℕ) (t t' : Table) (i : ℕ) : Type 0 where
  pub low : i < nproc
  pub was_free : is_unused (t.procs i).state ≡ true
  pub runs : (t'.procs i).state ≡ runnable
  pub parent : (t'.procs i).parent ≡ some p
  pub pid : (t'.procs i).pid ≡ n
  pub same_size : (t'.procs i).sz ≡ (t.procs p).sz
  pub others : (j : ℕ) → j ≢ i → t'.procs j ≡ t.procs j

-- What `fork` does, for each of its answers.
pub Forked : ℕ → Bool → Bool → Bool → Table → Option ℕ → Table → Type 0
Forked p frame pages copied t none t' =
    IsValid t'
    × ((j : ℕ) → j < nproc → is_unused (t'.procs j).state ≡ is_unused (t.procs j).state)
    × ((frame ≡ false)
        ⊎ (pages ≡ false)
        ⊎ (copied ≡ false)
        ⊎ ((j : ℕ) → j < nproc → is_unused (t.procs j).state ≡ false))
Forked p frame pages copied t (some n) t' =
    IsValid t' × (n ≡ t.nextpid) × ((i : ℕ) × Child p n t t' i)

module _ (p : ℕ) (t : Table) (v : IsValid t) (plow : p < nproc)
    (alive : live (t.procs p).state ≡ true) where
  gives_up :
      (frame pages copied : Bool) (i : ℕ) (t' : Table)
      → Sets i freed (t.nextpid + 1) t t'
      → i < nproc
      → is_unused (t.procs i).state ≡ true
      → (frame ≡ false) ⊎ (pages ≡ false) ⊎ (copied ≡ false)
      → Forked p frame pages copied t none t'
  unfolding Forked
  gives_up frame pages copied i t' s low free why = (
    freed-IsValid i (t.nextpid + 1) t t' s (ground (arith, free)) (omega arith) v,
    λ j h. elim (Bool-cases (j == i)) [
      | inl e ↦
          let e' = ==→eq j i e in
          ap (λ k. is_unused (t'.procs k).state) e'
          ∙ ap (λ (x : Proc). is_unused x.state) s.here
          ∙ sym free
          ∙ ap (λ k. is_unused (t.procs k).state) (sym e')
      | inr e ↦ ap (λ (x : Proc). is_unused x.state) (s.there j (==→ne j i e))
    ],
    elim why [ inl a ↦ inl a | inr b ↦ elim b [ inl c ↦ inr (inl c) | inr d ↦ inr (inr (inl d)) ] ],
  )

  twice-Sets :
      (i : ℕ) (q q' : Proc)
      → Sets i q'
          (t.nextpid + 1)
          t
          (update i q' (update i q (record t { nextpid = t.nextpid + 1 })))
  twice-Sets i q q' = record {
    here = ground (arith, eq→== i i refl);
    there = λ j ne. ground (arith, ne→== j i ne);
    next = refl;
    init_same = refl;
  }

  set_up-Forked :
      (frame pages copied : Bool) (i : ℕ)
      → i < nproc
      → is_unused (t.procs i).state ≡ true
      → Forked p frame pages copied t
          (fork_into p copied (set_up frame pages i t)).0
          (fork_into p copied (set_up frame pages i t)).1
  unfolding set_up fork_into Forked
  set_up-Forked false pages copied i low free =
      gives_up false pages copied i _ (twice-Sets i _ freed) low free (inl refl)
  set_up-Forked true false copied i low free =
      gives_up true false copied i _ (twice-Sets i _ freed) low free (inr (inl refl))
  set_up-Forked true true false i low free =
      gives_up true true false i _ (twice-Sets i _ freed) low free (inr (inr refl))
  set_up-Forked true true true i low free =
      let t₁ = (set_up true true i t).1 in
      let t' = (fork_into p true (set_up true true i t)).1 in
      let here = eq→== i i refl in
      let away : p ≢ i = λ e.
        let e' : is_unused (t.procs p).state ≡ true =
          ap (λ k. is_unused (t.procs k).state) e ∙ free in
        ground (arith, alive, e') in
      let pid : (t₁.procs i).pid ≡ t.nextpid = ground (arith, here) in
      let frame : (t₁.procs i).trapframe ≡ true = ground (arith, here) in
      let pages : (t₁.procs i).pagetable ≡ true = ground (arith, here) in
      let size : (t₁.procs p).sz ≡ (t.procs p).sz = ground (arith, ne→== p i away) in
      let q = record (t₁.procs i) { sz = (t₁.procs p).sz; parent = some p; state = runnable } in
      let s : Sets i q (t.nextpid + 1) t t' = record {
        here = rw here refl;
        there = λ j ne. rw (ne→== j i ne) refl;
        next = refl;
        init_same = refl;
      } in
      (
        child-IsValid i p q t t' s low free plow alive refl pid refl frame pages v,
        pid,
        (
          i,
          record {
            low = low;
            was_free = free;
            runs = ap (λ (x : Proc). x.state) s.here;
            parent = ap (λ (x : Proc). x.parent) s.here;
            pid = ap (λ (x : Proc). x.pid) s.here;
            same_size = ap (λ (x : Proc). x.sz) s.here ∙ size;
            others = s.there;
          },
        ),
      )

  -- For a process that is neither unused nor a zombie in a table in order: `fork` answers the next pid,
  -- and a slot that was unused holds a runnable child of the caller with this pid and the caller's
  -- size, all other slots being as they were. Or it fails, because an allocation or the copy failed
  -- or no slot is unused, and the slots in use are those of before. In each case the table is in
  -- order.
  pub fork-Forked :
      (frame pages copied : Bool)
      → Forked p frame pages copied t
          (fork p frame pages copied t).0
          (fork p frame pages copied t).1
  unfolding fork allocproc fork_into Forked
  fork-Forked frame pages copied = elim (Option-cases (find_unused nproc 0 t)) [
    | inl e ↦
        rw (e, fork, allocproc, fork_into)
          (
            v,
            λ j h. refl,
            inr (inr (inr (λ j h. find_unused-none nproc 0 j t e (omega arith) (omega arith)))),
          )
    | inr (i, e) ↦
        let s = find_unused-some nproc 0 i t e in
        rw (e, fork, allocproc) (set_up-Forked frame pages copied i (omega (arith, s.1)) s.2)
  ]
