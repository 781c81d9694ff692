-- ===== src/Proc/Valid.antt =====
-- The well-formedness of the process table, and the relation of tables that differ in who sleeps.
use cuhksz_operating_system.Prelude.{
  ℕ, ◌≤◌, ◌<◌, ◌≡◌, ◌≢◌, refl, sym, ◌⊎◌, ap, ◌∙◌, Bool, true, false, not, ◌&&◌, none, some, arith,
  inl, inr, ==→eq,
}
use cuhksz_operating_system.Proc.{
  Procstate, unused, used, sleeping, runnable, running, zombie, is_unused, is_sleeping, is_zombie,
  Proc, Table, nproc, update,
}

-- Neither unused nor a zombie.
abbrev pub live : Procstate → Bool
live s = not (is_unused s) && not (is_zombie s)

pub sleeping_only :
    (s : Procstate) → is_sleeping s ≡ true → (is_unused s ≡ false) × (is_zombie s ≡ false)
sleeping_only unused h = ground (arith, h)
sleeping_only used h = ground (arith, h)
sleeping_only sleeping h = (refl, refl)
sleeping_only runnable h = ground (arith, h)
sleeping_only running h = ground (arith, h)
sleeping_only zombie h = ground (arith, h)

-- From `t` to `t'` some sleepers may have been woken, and nothing else changed in slot `j` but the
-- parent.
pub record Stirs (t t' : Table) : Type 0 where
  pub unused_same : (j : ℕ) → is_unused (t'.procs j).state ≡ is_unused (t.procs j).state
  pub zombie_same : (j : ℕ) → is_zombie (t'.procs j).state ≡ is_zombie (t.procs j).state
  pub pid_same : (j : ℕ) → (t'.procs j).pid ≡ (t.procs j).pid
  pub frame_same : (j : ℕ) → (t'.procs j).trapframe ≡ (t.procs j).trapframe
  pub table_same : (j : ℕ) → (t'.procs j).pagetable ≡ (t.procs j).pagetable
  pub nextpid_same : t'.nextpid ≡ t.nextpid
  pub init_same : t'.initproc ≡ t.initproc

pub Stirs-refl : (t : Table) → Stirs t t
Stirs-refl t = record {
  unused_same = λ j. refl;
  zombie_same = λ j. refl;
  pid_same = λ j. refl;
  frame_same = λ j. refl;
  table_same = λ j. refl;
  nextpid_same = refl;
  init_same = refl;
}

pub Stirs-trans : (t t₁ t₂ : Table) → Stirs t t₁ → Stirs t₁ t₂ → Stirs t t₂
Stirs-trans t t₁ t₂ p q = record {
  unused_same = λ j. q.unused_same j ∙ p.unused_same j;
  zombie_same = λ j. q.zombie_same j ∙ p.zombie_same j;
  pid_same = λ j. q.pid_same j ∙ p.pid_same j;
  frame_same = λ j. q.frame_same j ∙ p.frame_same j;
  table_same = λ j. q.table_same j ∙ p.table_same j;
  nextpid_same = q.nextpid_same ∙ p.nextpid_same;
  init_same = q.init_same ∙ p.init_same;
}

-- One slot changed in nothing but its parent and a sleep that ended.
pub update-Stirs :
    (t : Table) (i : ℕ) (q : Proc)
    → is_unused q.state ≡ is_unused (t.procs i).state
    → is_zombie q.state ≡ is_zombie (t.procs i).state
    → q.pid ≡ (t.procs i).pid
    → q.trapframe ≡ (t.procs i).trapframe
    → q.pagetable ≡ (t.procs i).pagetable
    → Stirs t (update i q t)
update-Stirs t i q a b c d e = record {
  unused_same = λ j. ground (arith, a, ==→eq j i);
  zombie_same = λ j. ground (arith, b, ==→eq j i);
  pid_same = λ j. ground (arith, c, ==→eq j i);
  frame_same = λ j. ground (arith, d, ==→eq j i);
  table_same = λ j. ground (arith, e, ==→eq j i);
  nextpid_same = refl;
  init_same = refl;
}

-- The table is in order: slots in use have distinct pids and their memory, unused slots have nothing,
-- and the parent of a process is neither unused nor a zombie.
pub record IsValid (t : Table) : Type 0 where
  pub init_low : t.initproc < nproc
  pub init_live : live (t.procs t.initproc).state ≡ true
  pub fresh : 1 ≤ t.nextpid
  pub parents :
      (j q : ℕ)
      → j < nproc
      → (t.procs j).parent ≡ some q
      → (q < nproc) × (live (t.procs q).state ≡ true)
  pub no_parent :
      (j : ℕ) → j < nproc → is_unused (t.procs j).state ≡ true → (t.procs j).parent ≡ none
  pub kin :
      (j : ℕ)
      → j < nproc
      → is_unused (t.procs j).state ≡ false
      → j ≢ t.initproc
      → (t.procs j).parent ≢ none
  pub empty :
      (j : ℕ)
      → j < nproc
      → is_unused (t.procs j).state ≡ true
      → ((t.procs j).trapframe ≡ false) × ((t.procs j).pagetable ≡ false)
  pub full :
      (j : ℕ)
      → j < nproc
      → is_unused (t.procs j).state ≡ false
      → ((t.procs j).trapframe ≡ true)
        × ((t.procs j).pagetable ≡ true)
        × (1 ≤ (t.procs j).pid)
        × ((t.procs j).pid < t.nextpid)
  pub apart :
      (j k : ℕ)
      → j < nproc
      → k < nproc
      → is_unused (t.procs j).state ≡ false
      → is_unused (t.procs k).state ≡ false
      → (t.procs j).pid ≡ (t.procs k).pid
      → j ≡ k

pub live_same :
    (t t' : Table) → Stirs t t' → (j : ℕ) → live (t'.procs j).state ≡ live (t.procs j).state
live_same t t' s j = ground (arith, s.unused_same j, s.zombie_same j)

-- The parent's slot changes at most to that of `init`.
pub record Adopts (t t' : Table) : Type 0 where
  pub stirs : Stirs t t'
  pub given :
      (j q : ℕ) → (t'.procs j).parent ≡ some q → ((t.procs j).parent ≡ some q) ⊎ (q ≡ t.initproc)
  pub none_same : (j : ℕ) → (t.procs j).parent ≡ none → (t'.procs j).parent ≡ none
  pub none_only : (j : ℕ) → (t'.procs j).parent ≡ none → (t.procs j).parent ≡ none

pub Adopts-IsValid : (t t' : Table) → Adopts t t' → IsValid t → IsValid t'
Adopts-IsValid t t' a v =
    let s = a.stirs in
    record {
      init_low = rw s.init_same v.init_low;
      init_live = rw s.init_same (live_same t t' s t.initproc ∙ v.init_live);
      fresh = rw s.nextpid_same v.fresh;
      parents = λ j q h e. elim (a.given j q e) [
        | inl e' ↦ let r = v.parents j q h e' in (r.0, live_same t t' s q ∙ r.1)
        | inr e' ↦ (
          omega (arith, e', v.init_low),
          live_same t t' s q ∙ ap (λ k. live (t.procs k).state) e' ∙ v.init_live,
        )
      ];
      no_parent = λ j h e. a.none_same j (v.no_parent j h (sym (s.unused_same j) ∙ e));
      kin = λ j h e ne e'.
          v.kin j h (sym (s.unused_same j) ∙ e) (λ i. ne (i ∙ sym s.init_same)) (a.none_only j e');
      empty = λ j h e.
          let r = v.empty j h (sym (s.unused_same j) ∙ e) in
          (s.frame_same j ∙ r.0, s.table_same j ∙ r.1);
      full = λ j h e.
          let r = v.full j h (sym (s.unused_same j) ∙ e) in
          (
            s.frame_same j ∙ r.0,
            s.table_same j ∙ r.1,
            omega (arith, s.pid_same j, r.2),
            omega (arith, s.pid_same j, s.nextpid_same, r.3),
          );
      apart = λ j k hj hk ej ek e.
          v.apart j k hj hk (sym (s.unused_same j) ∙ ej) (sym (s.unused_same k) ∙ ek)
            (sym (s.pid_same j) ∙ e ∙ s.pid_same k);
    }
