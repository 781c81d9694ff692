-- ===== src/Proc/Wait.antt =====
-- `wait` of Assignment3/source/proc.c.
use cuhksz_operating_system.Prelude.{
  ℕ, zero, suc, ◌+◌, ◌≤◌, ◌<◌, ◌≡◌, ◌≢◌, refl, sym, ◌⊎◌, ap, ◌∙◌, Bool, true, false, ◌==◌,
  if◌then◌else◌, arith, inl, inr, Bool-cases, ==→eq, ==→ne, eq→==, ne→==,
}
use cuhksz_operating_system.Proc.{
  is_unused, is_zombie, Proc, Table, nproc, freed, freeproc, child_of, Waited, reaped, failed,
  asleep, sleep, wait_from, wait,
}
use cuhksz_operating_system.Proc.Valid.{live, IsValid}

-- Slot `i` now holds `q`, and the next pid is `n`.
pub record Sets (i : ℕ) (q : Proc) (n : ℕ) (t t' : Table) : Type 0 where
  pub here : t'.procs i ≡ q
  pub there : (j : ℕ) → j ≢ i → t'.procs j ≡ t.procs j
  pub next : t'.nextpid ≡ n
  pub init_same : t'.initproc ≡ t.initproc

-- A slot that was unused or a zombie is freed.
pub freed-IsValid :
    (i n : ℕ) (t t' : Table)
    → Sets i freed n t t'
    → live (t.procs i).state ≡ false
    → t.nextpid ≤ n
    → IsValid t
    → IsValid t'
freed-IsValid i n t t' s dead more v =
    let cases : (j : ℕ) → ((j ≡ i) × (t'.procs j ≡ freed)) ⊎ ((j ≢ i) × (t'.procs j ≡ t.procs j)) =
      λ j. elim (Bool-cases (j == i)) [
        | inl e ↦ inl (==→eq j i e, ap t'.procs (==→eq j i e) ∙ s.here)
        | inr e ↦ inr (==→ne j i e, s.there j (==→ne j i e))
      ] in
    let alive : (j : ℕ) → live (t.procs j).state ≡ true → live (t'.procs j).state ≡ true =
      λ j h. ground (arith, cases j, h, dead) in
    record {
      init_low = rw s.init_same v.init_low;
      init_live = rw s.init_same (alive t.initproc v.init_live);
      fresh = omega (arith, v.fresh, s.next);
      parents = λ j q h e. elim (cases j) [
        | inl c ↦ ground (arith, c.1, e)
        | inr c ↦
            let r = v.parents j q h (ap (λ (x : Proc). x.parent) (sym c.1) ∙ e) in
            (r.0, alive q r.1)
      ];
      no_parent = λ j h e. elim (cases j) [
        | inl c ↦ ap (λ (x : Proc). x.parent) c.1
        | inr c ↦
            ap (λ (x : Proc). x.parent) c.1
            ∙ v.no_parent j h (ap (λ (x : Proc). is_unused x.state) (sym c.1) ∙ e)
      ];
      kin = λ j h e ne e'. elim (cases j) [
        | inl c ↦ ground (arith, c.1, e)
        | inr c ↦
            v.kin j h (ap (λ (x : Proc). is_unused x.state) (sym c.1) ∙ e)
              (λ k. ne (k ∙ sym s.init_same)) (ap (λ (x : Proc). x.parent) (sym c.1) ∙ e')
      ];
      empty = λ j h e. elim (cases j) [
        | inl c ↦ (ap (λ (x : Proc). x.trapframe) c.1, ap (λ (x : Proc). x.pagetable) c.1)
        | inr c ↦
            let r = v.empty j h (ap (λ (x : Proc). is_unused x.state) (sym c.1) ∙ e) in
            (ap (λ (x : Proc). x.trapframe) c.1 ∙ r.0, ap (λ (x : Proc). x.pagetable) c.1 ∙ r.1)
      ];
      full = λ j h e. elim (cases j) [
        | inl c ↦ ground (arith, c.1, e)
        | inr c ↦
            let r = v.full j h (ap (λ (x : Proc). is_unused x.state) (sym c.1) ∙ e) in
            (
              ap (λ (x : Proc). x.trapframe) c.1 ∙ r.0,
              ap (λ (x : Proc). x.pagetable) c.1 ∙ r.1,
              omega (arith, ap (λ (x : Proc). x.pid) c.1, r.2),
              omega (arith, ap (λ (x : Proc). x.pid) c.1, r.3, s.next),
            )
      ];
      apart = λ j k hj hk ej ek e. elim (cases j) [
        | inl c ↦ ground (arith, c.1, ej)
        | inr c ↦ elim (cases k) [
          | inl c' ↦ ground (arith, c'.1, ek)
          | inr c' ↦
              v.apart j k hj hk (ap (λ (x : Proc). is_unused x.state) (sym c.1) ∙ ej)
                (ap (λ (x : Proc). is_unused x.state) (sym c'.1) ∙ ek)
                (ap (λ (x : Proc). x.pid) (sym c.1) ∙ e ∙ ap (λ (x : Proc). x.pid) c'.1)
        ]
      ];
    }

-- Slot `i` is a zombie child of `p` with this pid and exit status.
pub record ZombieChild (p pid status : ℕ) (t : Table) (i : ℕ) : Type 0 where
  pub low : i < nproc
  pub child : child_of p (t.procs i).parent ≡ true
  pub is_dead : is_zombie (t.procs i).state ≡ true
  pub same_pid : (t.procs i).pid ≡ pid
  pub same_status : (t.procs i).xstate ≡ status

-- What a round of `wait` over the slots from `i` on does, for each of its answers.
pub Waits : (ℕ → ℕ) → ℕ → Bool → ℕ → ℕ → Bool → Table → Waited → Table → Type 0
Waits addr p copied left i kids t (reaped pid status) t' =
    IsValid t' × ((k : ℕ) × ZombieChild p pid status t k × (t'.procs k ≡ freed))
Waits addr p copied left i kids t failed t' =
    (t' ≡ t)
    × (((t.procs p).killed ≡ true)
        ⊎ (copied ≡ false)
        ⊎ ((kids ≡ false)
            × ((j : ℕ) → i ≤ j → j < i + left → child_of p (t.procs j).parent ≡ false)))
Waits addr p copied left i kids t asleep t' =
    (t' ≡ sleep addr (addr p) p t)
    × ((t.procs p).killed ≡ false)
    × ((j : ℕ)
        → i ≤ j
        → j < i + left
        → child_of p (t.procs j).parent ≡ true
        → is_zombie (t.procs j).state ≡ false)

-- A slot more at the front of the range.
Waits-more :
    (addr : ℕ → ℕ) (p : ℕ) (copied : Bool) (left i : ℕ) (kids kids' : Bool) (t : Table) (w : Waited)
    (t' : Table)
    → (child_of p (t.procs i).parent ≡ true → is_zombie (t.procs i).state ≡ false)
    → (kids' ≡ false → (kids ≡ false) × (child_of p (t.procs i).parent ≡ false))
    → Waits addr p copied left (i + 1) kids' t w t'
    → Waits addr p copied (suc left) i kids t w t'
unfolding Waits
Waits-more addr p copied left i kids kids' t (reaped pid status) t' a b r = r
Waits-more addr p copied left i kids kids' t failed t' a b (e, inl r) = (e, inl r)
Waits-more addr p copied left i kids kids' t failed t' a b (e, inr (inl r)) = (e, inr (inl r))
Waits-more addr p copied left i kids kids' t failed t' a b (e, inr (inr r)) = (
  e,
  inr (
      inr (
        (b r.0).0,
        λ j low high. elim (Bool-cases (j == i)) [
          | inl e' ↦ ap (λ k. child_of p (t.procs k).parent) (==→eq j i e') ∙ (b r.0).1
          | inr e' ↦ r.1 j (omega (arith, ==→ne j i e')) (omega arith)
        ],
      )),
)
Waits-more addr p copied left i kids kids' t asleep t' a b (e, k, r) = (
  e,
  k,
  λ j low high c. elim (Bool-cases (j == i)) [
    | inl e' ↦
        let eq = ==→eq j i e' in
        ap (λ k. is_zombie (t.procs k).state) eq
        ∙ a (ap (λ k. child_of p (t.procs k).parent) (sym eq) ∙ c)
    | inr e' ↦ r j (omega (arith, ==→ne j i e')) (omega arith) c
  ],
)

module _ (addr : ℕ → ℕ) (p : ℕ) (copied : Bool) where
  round_over :
      (dead : Bool) (i : ℕ) (t : Table)
      → (t.procs p).killed ≡ dead
      → Waits addr p copied 0 i true t
          (if◌then◌else◌ {A = Waited × Table} dead (failed, t) (asleep, sleep addr (addr p) p t)).0
          (if◌then◌else◌ {A = Waited × Table} dead (failed, t) (asleep, sleep addr (addr p) p t)).1
  unfolding Waits
  round_over true i t e = (refl, inl e)
  round_over false i t e = (refl, e, λ j low high c. absurd (omega arith))

  wait_from-Waits :
      (left i : ℕ) (kids : Bool) (t : Table)
      → IsValid t
      → i + left ≤ nproc
      → Waits addr p copied left i kids t
          (wait_from addr p copied left i kids t).0
          (wait_from addr p copied left i kids t).1
  unfolding wait_from Waits
  wait_from-Waits zero i false t v fits =
      (refl, inr (inr (refl, λ j low high. absurd (omega arith))))
  wait_from-Waits zero i true t v fits = round_over (t.procs p).killed i t refl
  wait_from-Waits (suc left) i kids t v fits = elim (Bool-cases (child_of p (t.procs i).parent)) [
    | inr e ↦
        rw (e, wait_from)
          (Waits-more addr p copied left i kids kids t _ _ (λ c. ground (arith, c, e)) (λ k. (k, e))
            (wait_from-Waits left (i + 1) kids t v (omega arith)))
    | inl e ↦ elim (Bool-cases (is_zombie (t.procs i).state)) [
      | inr e' ↦
          rw (e, e', wait_from)
            (Waits-more addr p copied left i kids true t _ _ (λ c. e') (λ k. ground (arith, k))
              (wait_from-Waits left (i + 1) true t v (omega arith)))
      | inl e' ↦ elim (Bool-cases copied) [
        | inr e'' ↦ rw (e, e', e'', wait_from) (refl, inr (inl refl))
        | inl e'' ↦
            rw (e, e', e'', wait_from)
              (
                freed-IsValid i t.nextpid t (freeproc i t)
                    (record {
                      here = ground (arith, eq→== i i refl);
                      there = λ j ne. ground (arith, ne→== j i ne);
                      next = refl;
                      init_same = refl;
                    })
                    (ground (arith, e')) (omega arith) v,
                (
                  i,
                  record {
                    low = omega arith;
                    child = e;
                    is_dead = e';
                    same_pid = refl;
                    same_status = refl;
                  },
                  ground (arith, eq→== i i refl),
                ),
              )
      ]
    ]
  ]

  -- In a table in order, a call of `wait` by `p` does one of these. It frees the slot of a zombie child
  -- of `p` and answers with that child's pid and exit status, and the table stays in order. It fails
  -- and changes nothing, and then `p` was killed, or the status could not be copied out, or `p` has
  -- no children. Or it sleeps on the address of `p`, which was not killed, and none of the children
  -- is a zombie.
  pub wait-Waits :
      (t : Table)
      → IsValid t
      → Waits addr p copied nproc 0 false t (wait addr p copied t).0 (wait addr p copied t).1
  wait-Waits t v = wait_from-Waits nproc 0 false t v (omega arith)
