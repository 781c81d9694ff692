-- ===== src/Vm/Lookup.antt =====
-- `walkaddr` of vm.c after `mappages`.
use cuhksz_operating_system.Prelude.{
  ℕ, zero, suc, ◌+◌, ◌-◌, ◌*◌, ◌/◌, ◌%◌, ◌≤◌, ◌<◌, ◌≡◌, ◌≢◌, inl, inr, refl, sym, ap, ◌∙◌, Bool,
  true, false, ◌&&◌, Option, none, some, [], ◌==◌, leb, if◌then◌else◌, arith, Bool-cases, ==→eq,
  ==→ne, eq→==, ne→==,
}
use cuhksz_operating_system.Vm.{
  pgsize, maxva, Memory, shifted, px, is_valid, is_user, pte2page, walk_from, walkaddr, leaf_pte,
  round_down, mappages,
}
use cuhksz_operating_system.Vm.Tree.{IsTree, Labels, entry, entry-Reaches}
use cuhksz_operating_system.Vm.Walk.{Walked, walk_from-Walked}
use cuhksz_operating_system.Vm.Map.{Outside}
use cuhksz_operating_system.Vm.Range.{Unmapped, map_from-Mapped, root_at}

-- What `walkaddr` answers for an entry.
abbrev answer_for : ℕ → Option ℕ
answer_for e = if is_valid e && is_user e then some (pte2page e) else none

walkaddr-entry :
    (lab : Labels) (root va : ℕ) (m : Memory)
    → IsTree lab m
    → lab root ≡ some (2, 0)
    → va < maxva
    → walkaddr root va m ≡ answer_for (entry 2 root va m)
unfolding walkaddr
walkaddr-entry lab root va m v at low =
    let (r, m', q, w) = walk_from-Walked 2 root va false m lab v (root_at lab root va at low) in
    by_slot r m' q w
  where
    inside : leb maxva va ≡ false
    inside = elim (Bool-cases (leb maxva va)) [
      | inl e ↦ absurd (ground (arith, e, low))
      | inr e ↦ e
    ]

    by_slot :
        (r : Option (ℕ × ℕ)) (m' : Memory)
        → walk_from 2 root va false m ≡ (r, m')
        → Walked lab m 2 root va false r m'
        → walkaddr root va m ≡ answer_for (entry 2 root va m)
    by_slot none m' q w =
        unfold walkaddr in rw (inside, q, walkaddr) (ap answer_for (sym w.found.0))
    by_slot (some (t, i)) m' q w =
        unfold walkaddr in
        rw (inside, q, walkaddr)
          (ap answer_for (
            ap (λ (x : Memory). x.pte t i) (sym (w.same refl))
            ∙ ap (m'.pte t) w.found.0
            ∙ sym (entry-Reaches t 2 root va m' w.found.2)
            ∙ w.entries 2 root 0 va at))

shifted_same : (l va va' : ℕ) → va / pgsize ≡ va' / pgsize → shifted l va ≡ shifted l va'
unfolding shifted
shifted_same zero va va' e = e
shifted_same (suc l) va va' e = ap (λ x. x / 512) (shifted_same l va va' e)

-- All addresses of a page have its entry.
entry_page :
    (l u va va' : ℕ) (m : Memory) → va / pgsize ≡ va' / pgsize → entry l u va m ≡ entry l u va' m
unfolding entry
entry_page zero u va va' m e = ap (λ x. m.pte u (x % 512)) (shifted_same 0 va va' e)
entry_page (suc l) u va va' m e =
    ap (λ x. if is_valid (m.pte u x) then entry l (pte2page (m.pte u x)) va m else 0)
      (ap (λ x. x % 512) (shifted_same (suc l) va va' e))
    ∙ ap (λ y. if is_valid (m.pte u (px (suc l) va')) then y else 0)
        (entry_page l (pte2page (m.pte u (px (suc l) va'))) va va' m e)

leaf_answer :
    (page perm : ℕ) → perm < 1024 → perm / 16 % 2 ≡ 1 → answer_for (leaf_pte page perm) ≡ some page
leaf_answer page perm low user = elim (Bool-cases (perm % 2 == 1)) [
  | inl e ↦
      let x = page * 1024 + perm in
      rw
        (
          e,
          eq→== (x % 2) 1 (omega (arith, ==→eq _ _ e)),
          eq→== (x / 16 % 2) 1 (omega (arith, user)),
        )
        (ap some (omega (arith, low)))
  | inr e ↦
      let x = page * 1024 + (perm + 1) in
      rw
        (
          e,
          eq→== (x % 2) 1 (omega (arith, ==→ne _ _ e)),
          eq→== (x / 16 % 2) 1 (omega (arith, user, ==→ne _ _ e)),
        )
        (ap some (omega (arith, low, ==→ne _ _ e)))
]

-- The pages from that of `va` to that of `va + size - 1`.
abbrev pub pages : ℕ → ℕ → ℕ
pages va size = (round_down (va + size - 1) - round_down va) / pgsize + 1

-- For a tree of tables below `root`, with flags below 2^10 that let the user in, a size that is not 0, a
-- range below MAXVA, and no page of the range mapped: `mappages` does not panic. If it answers 0,
-- `walkaddr` finds for any address of page j of the range the physical page `page + j`; if it
-- answers -1, no page was free when it stopped. In both cases `walkaddr` answers for the addresses
-- below MAXVA outside of the range what it did before, and the tables are a tree again.
pub mappages-walkaddr :
    (lab : Labels) (root va size page perm : ℕ) (m : Memory)
    → IsTree lab m
    → lab root ≡ some (2, 0)
    → perm < 1024
    → perm / 16 % 2 ≡ 1
    → size ≢ 0
    → va + size ≤ maxva
    → Unmapped (pages va size) root (round_down va) m
    → (answer : Bool) × (m' : Memory) × (mappages root va size page perm m ≡ some (answer, m'))
      × (answer ≡ true
          → (j x : ℕ) → j < pages va size
          → x / pgsize ≡ va / pgsize + j
          → walkaddr root x m' ≡ some (page + j))
      × (answer ≡ false → m'.free ≡ [])
      × ((x : ℕ)
          → x < maxva
          → Outside (round_down va) (pages va size) x
          → walkaddr root x m' ≡ walkaddr root x m)
      × ((labels : Labels) × IsTree labels m')
unfolding mappages
mappages-walkaddr lab root va size page perm m v at low_perm user some_bytes low unmapped =
    let n = pages va size in
    let (answer, m', k, e, w) =
      map_from-Mapped n root (round_down va) page perm m lab v at (omega (arith, low, some_bytes))
        unmapped in
    (
      answer,
      m',
      rw (ne→== size 0 some_bytes, mappages) e,
      λ yes j x low_j place.
          walkaddr-entry w.labels root x m' w.tree w.root_there
            (omega (arith, low, some_bytes, low_j, place))
          ∙ ap answer_for (
              entry_page 2 root x (round_down va + j * pgsize) m' (omega (arith, place))
              ∙ w.mapped j (omega (arith, low_j, w.done yes)))
          ∙ leaf_answer (page + j) perm low_perm user,
      λ bad. (w.failed bad).1,
      λ x low_x out.
          walkaddr-entry w.labels root x m' w.tree w.root_there low_x
          ∙ ap answer_for (
              w.others x low_x
                (nearer answer k n x (reached answer k n w.done (λ z. (w.failed z).0)) out))
          ∙ sym (walkaddr-entry lab root x m v at low_x),
      (w.labels, w.tree),
    )
  where
    reached : (answer : Bool) (k n : ℕ) → (answer ≡ true → k ≡ n) → (answer ≡ false → k < n) → k ≤ n
    reached true k n done failed = omega (arith, done refl)
    reached false k n done failed = omega (arith, failed refl)

    nearer :
        (answer : Bool) (k n x : ℕ)
        → k ≤ n
        → Outside (round_down va) n x
        → Outside (round_down va) k x
    nearer answer k n x le (inl h) = inl h
    nearer answer k n x le (inr h) = inr (omega (arith, h, le))
