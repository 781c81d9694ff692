-- ===== src/Inodes/Table.antt =====
-- The inode table of fs.c: `iget` finds or takes the one slot of an inode, and references are counted.
use cuhksz_operating_system.Prelude.{
  ℕ, zero, suc, ◌+◌, ◌≤◌, ◌<◌, ◌≡◌, ◌≢◌, ◌⊎◌, inl, inr, refl, sym, ap, ◌∙◌, subst, Bool, true,
  false, ◌&&◌, Option, none, some, ltb, ◌==◌, if◌then◌else◌, arith, Bool-cases, ==→eq, ==→ne, eq→==,
  ne→==, lt→ltb,
}
use cuhksz_operating_system.Inodes.{
  ninode, rootdev, Slot, Store, update, iget_from, take_slot, iget,
}

-- The table is in order: an inode has one slot at most, a slot with references has an inode that is
-- in use on the disk, and a valid copy is that of the disk.
pub record IsTable (t : Store) : Type 0 where
  pub one_dev : (j : ℕ) → j < ninode → 0 < (t.slots j).ref → (t.slots j).dev ≡ rootdev
  pub unique :
      (j k : ℕ)
      → j < ninode
      → k < ninode
      → 0 < (t.slots j).ref
      → 0 < (t.slots k).ref
      → (t.slots j).inum ≡ (t.slots k).inum
      → j ≡ k
  pub in_use : (j : ℕ) → j < ninode → 0 < (t.slots j).ref → (t.disk (t.slots j).inum).type ≢ 0
  pub fresh :
      (j : ℕ)
      → j < ninode
      → 0 < (t.slots j).ref
      → (t.slots j).valid ≡ true
      → ((t.slots j).type ≡ (t.disk (t.slots j).inum).type)
        × ((t.slots j).nlink ≡ (t.disk (t.slots j).inum).nlink)
        × ((t.slots j).major ≡ (t.disk (t.slots j).inum).major)
        × ((t.slots j).minor ≡ (t.disk (t.slots j).inum).minor)

abbrev pub extra : Option ℕ → ℕ → ℕ
extra none j = 0
extra (some s) j = if j == s then 1 else 0

-- From `t` to `t'` the slot `o` got one reference more, and nothing else changed that a holder of a
-- reference could see.
pub record Held (o : Option ℕ) (t t' : Store) : Type 0 where
  pub refs : (j : ℕ) → (t'.slots j).ref ≡ (t.slots j).ref + extra o j
  pub names :
      (j : ℕ)
      → 0 < (t.slots j).ref
      → ((t'.slots j).inum ≡ (t.slots j).inum) × ((t'.slots j).dev ≡ (t.slots j).dev)
  pub disk_same : t'.disk ≡ t.disk
  pub entries_same : t'.entries ≡ t.entries

-- The empty slot that the search remembers, of those from `i` on.
abbrev Emptied : ℕ → ℕ → Option ℕ → Store → Option ℕ → Type 0
Emptied left i empty t none =
    (empty ≡ none) × ((j : ℕ) → i ≤ j → j < i + left → 0 < (t.slots j).ref)
Emptied left i empty t (some s) =
    (empty ≡ some s) ⊎ ((i ≤ s) × (s < i + left) × ((t.slots s).ref ≡ 0))

-- What the search of `iget` finds in the slots from `i` on.
Searched : ℕ → ℕ → ℕ → ℕ → Option ℕ → Store → Bool × Option ℕ → Type 0
Searched left i dev inum empty t (true, none) = ⊥
Searched left i dev inum empty t (true, some s) =
    (i ≤ s)
    × (s < i + left)
    × (0 < (t.slots s).ref)
    × ((t.slots s).dev ≡ dev)
    × ((t.slots s).inum ≡ inum)
Searched left i dev inum empty t (false, o) =
    ((j : ℕ)
      → i ≤ j
      → j < i + left
      → 0 < (t.slots j).ref
      → (t.slots j).dev ≡ dev
      → (t.slots j).inum ≢ inum)
    × Emptied left i empty t o

abbrev remember : ℕ → Option ℕ → Store → Option ℕ
remember i empty t = elim empty [
  | none ↦ if (t.slots i).ref == 0 then some i else none
  | some e ↦ some e
]

Emptied-more :
    (left i : ℕ) (empty : Option ℕ) (t : Store) (o : Option ℕ)
    → Emptied left (i + 1) (remember i empty t) t o
    → Emptied (suc left) i empty t o
Emptied-more left i none t none h = (
  refl,
  λ j low high. elim (Bool-cases (j == i)) [
    | inl e ↦ ground (arith, h.0, ==→eq j i e, ap (λ k. (t.slots k).ref) (==→eq j i e))
    | inr e ↦ h.1 j (omega (arith, ==→ne j i e)) (omega arith)
  ],
)
Emptied-more left i (some e) t none h = absurd (ground (arith, h.0))
Emptied-more left i none t (some s) (inl h) =
    inr (ground (arith, h), ground (arith, h), ground (arith, h, ap (λ (k : ℕ). (t.slots k).ref)))
Emptied-more left i (some e) t (some s) (inl h) = inl h
Emptied-more left i empty t (some s) (inr h) = inr (omega (arith, h), omega (arith, h), h.2)

Searched-more :
    (left i dev inum : ℕ) (empty : Option ℕ) (t : Store) (r : Bool × Option ℕ)
    → (0 < (t.slots i).ref → (t.slots i).dev ≡ dev → (t.slots i).inum ≢ inum)
    → Searched left (i + 1) dev inum (remember i empty t) t r
    → Searched (suc left) i dev inum empty t r
unfolding Searched
Searched-more left i dev inum empty t (true, none) miss h = h
Searched-more left i dev inum empty t (true, some s) miss h =
    (omega (arith, h.0), omega (arith, h.1), h.2, h.3, h.4)
Searched-more left i dev inum empty t (false, o) miss h = (
  λ j low high held d. elim (Bool-cases (j == i)) [
    | inl e ↦
        let e' = ==→eq j i e in
        subst (λ k. 0 < (t.slots k).ref → (t.slots k).dev ≡ dev → (t.slots k).inum ≢ inum) (sym e')
          miss held d
    | inr e ↦ h.0 j (omega (arith, ==→ne j i e)) (omega arith) held d
  ],
  Emptied-more left i empty t o h.1,
)

iget_from-Searched :
    (left i dev inum : ℕ) (empty : Option ℕ) (t : Store)
    → Searched left i dev inum empty t (iget_from left i dev inum empty t)
unfolding iget_from Searched
iget_from-Searched zero i dev inum none t =
    (λ j low high. absurd (omega arith), (refl, λ j low high. absurd (omega arith)))
iget_from-Searched zero i dev inum (some e) t = (λ j low high. absurd (omega arith), inl refl)
iget_from-Searched (suc left) i dev inum empty t =
    let x = t.slots i in
    elim (Bool-cases (ltb 0 x.ref && x.dev == dev && x.inum == inum)) [
      | inl e ↦
          rw (e, iget_from)
            (omega arith, omega arith, ground (arith, e), ground (arith, e), ground (arith, e))
      | inr e ↦
          rw (e, iget_from)
            (Searched-more left i dev inum empty t _
              (λ held d n. absurd (ground (arith, e, lt→ltb _ _ held, eq→== _ _ d, eq→== _ _ n)))
              (iget_from-Searched left (i + 1) dev inum (remember i empty t) t))
    ]

-- What a slot must satisfy to stand in a table that is otherwise in order.
pub record Suits (s : ℕ) (x : Slot) (t : Store) : Type 0 where
  pub one_dev : x.dev ≡ rootdev
  pub in_use : (t.disk x.inum).type ≢ 0
  pub fresh :
      x.valid ≡ true
      → (x.type ≡ (t.disk x.inum).type)
        × (x.nlink ≡ (t.disk x.inum).nlink)
        × (x.major ≡ (t.disk x.inum).major)
        × (x.minor ≡ (t.disk x.inum).minor)
  pub unique : (j : ℕ) → j < ninode → j ≢ s → 0 < (t.slots j).ref → (t.slots j).inum ≢ x.inum

pub update-IsTable :
    (s : ℕ) (x : Slot) (t : Store) → IsTable t → (0 < x.ref → Suits s x t) → IsTable (update s x t)
update-IsTable s x t v ok =
    let at : (j : ℕ) → j ≡ s → ((update s x t).slots j) ≡ x = λ j e. rw (eq→== j s e) refl in
    let off : (j : ℕ) → j ≢ s → ((update s x t).slots j) ≡ t.slots j =
      λ j ne. rw (ne→== j s ne) refl in
    let split : (j : ℕ) → (j ≡ s) ⊎ (j ≢ s) =
      λ j. elim (Bool-cases (j == s)) [ inl e ↦ inl (==→eq j s e) | inr e ↦ inr (==→ne j s e) ] in
    let t' = update s x t in
    let own : (j : ℕ) → j ≡ s → 0 < (t'.slots j).ref → Suits s x t =
      λ j e h. ok (subst (λ (y : Slot). 0 < y.ref) (at j e) h) in
    let old : (j : ℕ) → j ≢ s → 0 < (t'.slots j).ref → 0 < (t.slots j).ref =
      λ j ne h. subst (λ (y : Slot). 0 < y.ref) (off j ne) h in
    record {
      one_dev = λ j low h. elim (split j) [
        | inl e ↦ ap (λ (y : Slot). y.dev) (at j e) ∙ (own j e h).one_dev
        | inr e ↦ ap (λ (y : Slot). y.dev) (off j e) ∙ v.one_dev j low (old j e h)
      ];
      unique = λ j k low low' h h' same. elim (split j) [
        | inl e ↦ elim (split k) [
          | inl e' ↦ e ∙ sym e'
          | inr e' ↦ absurd (
              (own j e h).unique k low' e' (old k e' h') (
                sym (ap (λ (y : Slot). y.inum) (off k e'))
                ∙ sym same
                ∙ ap (λ (y : Slot). y.inum) (at j e)))
        ]
        | inr e ↦ elim (split k) [
          | inl e' ↦ absurd (
              (own k e' h').unique j low e (old j e h) (
                sym (ap (λ (y : Slot). y.inum) (off j e))
                ∙ same
                ∙ ap (λ (y : Slot). y.inum) (at k e')))
          | inr e' ↦ v.unique j k low low' (old j e h) (old k e' h') (
              sym (ap (λ (y : Slot). y.inum) (off j e))
              ∙ same
              ∙ ap (λ (y : Slot). y.inum) (off k e'))
        ]
      ];
      in_use = λ j low h. elim (split j) [
        | inl e ↦ subst (λ (y : Slot). (t.disk y.inum).type ≢ 0) (sym (at j e)) (own j e h).in_use
        | inr e ↦
            subst (λ (y : Slot). (t.disk y.inum).type ≢ 0) (sym (off j e))
              (v.in_use j low (old j e h))
      ];
      fresh = λ j low h. elim (split j) [
        | inl e ↦ subst Agrees (sym (at j e)) (own j e h).fresh
        | inr e ↦ subst Agrees (sym (off j e)) (v.fresh j low (old j e h))
      ];
    }
  where
    Agrees : Slot → Type 0
    Agrees y =
        y.valid ≡ true
        → (y.type ≡ (t.disk y.inum).type)
          × (y.nlink ≡ (t.disk y.inum).nlink)
          × (y.major ≡ (t.disk y.inum).major)
          × (y.minor ≡ (t.disk y.inum).minor)

-- A slot that has references suits its place with any number of them.
pub ref_only :
    (s n : ℕ) (t : Store)
    → IsTable t
    → s < ninode
    → 0 < (t.slots s).ref
    → Suits s (record (t.slots s) { ref = n }) t
ref_only s n t v low held = record {
  one_dev = v.one_dev s low held;
  in_use = v.in_use s low held;
  fresh = v.fresh s low held;
  unique = λ j low' ne h e. ne (v.unique j s low' low h held e);
}

pub update_refs :
    (s : ℕ) (x : Slot) (t : Store)
    → x.ref ≡ (t.slots s).ref + 1
    → (0 < (t.slots s).ref → (x.inum ≡ (t.slots s).inum) × (x.dev ≡ (t.slots s).dev))
    → Held (some s) t (update s x t)
update_refs s x t one same = record {
  refs = λ j. ground (arith, one, ==→eq j s);
  names = λ j h. elim (Bool-cases (j == s)) [
    | inl e ↦
        let e' = ==→eq j s e in
        rw e (
          subst (λ k. (x.inum ≡ (t.slots k).inum) × (x.dev ≡ (t.slots k).dev)) (sym e')
            (same (subst (λ k. 0 < (t.slots k).ref) e' h)))
    | inr e ↦ rw e (refl, refl)
  ];
  disk_same = refl;
  entries_same = refl;
}

-- What `iget` gives for an inode: a slot of that inode with one reference more.
pub record Got (n : ℕ) (t : Store) (s : ℕ) (t' : Store) : Type 0 where
  pub low : s < ninode
  pub held : Held (some s) t t'
  pub names_it : (t'.slots s).inum ≡ n
  pub table : IsTable t'

module _ (n : ℕ) (t : Store) (v : IsTable t) (used : (t.disk n).type ≢ 0) where
  taken :
      (r : Bool × Option ℕ)
      → Searched ninode 0 rootdev n none t r
      → (f : ℕ) → f < ninode
      → (t.slots f).ref ≡ 0
      → (s : ℕ) × (t' : Store) × (take_slot rootdev n r t ≡ some (s, t')) × Got n t s t'
  unfolding take_slot Searched
  taken (true, none) h f low free = absurd h
  taken (true, some s) h f low free = (
    s,
    update s (record (t.slots s) { ref = (t.slots s).ref + 1 }) t,
    refl,
    record {
      low = omega (arith, h.1);
      held = update_refs s _ t refl (λ h'. (refl, refl));
      names_it = rw (eq→== s s refl) h.4;
      table = update-IsTable s _ t v (λ h'. ref_only s _ t v (omega (arith, h.1)) h.2);
    },
  )
  taken (false, none) h f low free = absurd (omega (arith, h.1.1 f, free, low))
  taken (false, some s) h f low free = elim h.1 [
    | inl e ↦ absurd (ground (arith, e))
    | inr e ↦
        let x = record (t.slots s) { dev = rootdev; inum = n; ref = 1; valid = false } in
        (
          s,
          update s x t,
          refl,
          record {
            low = omega (arith, e.1);
            held = update_refs s x t (omega (arith, e.2)) (λ h'. absurd (omega (arith, e.2)));
            names_it = rw (eq→== s s refl) refl;
            table = update-IsTable s x t v (λ h'. record {
              one_dev = refl;
              in_use = used;
              fresh = λ bad. absurd (ground (arith, bad));
              unique =
                  λ j low' ne held. h.0 j (omega arith) (omega arith) held (v.one_dev j low' held);
            });
          },
        )
  ]

  -- In a table in order with a slot that is free: `iget` of an inode that is in use on the disk gives
  -- the slot that has it, or a free one if none has it; that slot has one reference more, all others
  -- have what they had, and the table stays in order.
  pub iget-Got :
      (f : ℕ)
      → f < ninode
      → (t.slots f).ref ≡ 0
      → (s : ℕ) × (t' : Store) × (iget rootdev n t ≡ some (s, t')) × Got n t s t'
  unfolding iget
  iget-Got f low free =
      taken (iget_from ninode 0 rootdev n none t) (iget_from-Searched ninode 0 rootdev n none t) f
        low free
