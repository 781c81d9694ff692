-- ===== src/Inodes/Refs.antt =====
-- References to slots of the inode table in fs.c: what `ilock`, `iput` and `iunlock` do with them.
use cuhksz_operating_system.Prelude.{
  ℕ, ◌+◌, ◌-◌, ◌<◌, ◌≡◌, ◌≢◌, inl, inr, refl, sym, ap, ◌∙◌, subst, true, false, ◌&&◌, Option, none,
  some, ◌==◌, arith, Bool-cases, ==→eq, eq→==, ne→==,
}
use cuhksz_operating_system.Inodes.{
  ninode, Store, update, loaded, ilock, iunlock, drop_ref, iput, M, ◌>>=◌,
}
use cuhksz_operating_system.Inodes.Table.{IsTable, Held, extra, ref_only, update-IsTable}

pub bind_some :
    {A B : Type 0} (m : M A) (k : A → M B) (t : Store) (a : A) (t' : Store)
    → m t ≡ some (a, t')
    → (m >>= k) t ≡ k a t'
bind_some {A = A} {B = B} m k t a t' e =
    ap (λ (r : Option (A × Store)). elim r [ none ↦ none | some (a, t') ↦ k a t' ]) e

pub Held-none : (t : Store) → Held none t t
Held-none t = record {
  refs = λ j. omega arith;
  names = λ j h. (refl, refl);
  disk_same = refl;
  entries_same = refl;
}

pub more_refs :
    {o : Option ℕ} {t t' : Store}
    → Held o t t'
    → (j : ℕ) → 0 < (t.slots j).ref
    → 0 < (t'.slots j).ref
more_refs h j pos = omega (arith, h.refs j)

pub Held-trans :
    (o o' o'' : Option ℕ) (t t' t'' : Store)
    → ((j : ℕ) → extra o j + extra o' j ≡ extra o'' j)
    → Held o t t'
    → Held o' t' t''
    → Held o'' t t''
Held-trans o o' o'' t t' t'' sum h h' = record {
  refs = λ j. omega (arith, h.refs j, h'.refs j, sum j);
  names = λ j pos.
      let pos' = more_refs h j pos in
      ((h'.names j pos').0 ∙ (h.names j pos).0, (h'.names j pos').1 ∙ (h.names j pos).1);
  disk_same = h'.disk_same ∙ h.disk_same;
  entries_same = h'.entries_same ∙ h.entries_same;
}

-- A holder of `s` that gets `o` and gives `s` up holds `o`.
pub drop-Held :
    (s : ℕ) (o : Option ℕ) (t t' t'' : Store)
    → Held (some s) t t'
    → Held o t' t''
    → Held o t (drop_ref s t'')
drop-Held s o t t' t'' h h' = record {
  refs = λ j. elim (Bool-cases (j == s)) [
    | inl e ↦
        let e' = ==→eq j s e in
        rw e (
          subst (λ k. (t''.slots k).ref - 1 ≡ (t.slots j).ref + extra o j) e'
            (omega (arith, h.refs j, h'.refs j, one j e)))
    | inr e ↦ rw e (omega (arith, h.refs j, h'.refs j, zero_extra j e))
  ];
  names = λ j pos. elim (Bool-cases (j == s)) [
    | inl e ↦
        let e' = ==→eq j s e in
        rw e (
          subst
            (λ k. ((t''.slots k).inum ≡ (t.slots j).inum) × ((t''.slots k).dev ≡ (t.slots j).dev))
            e' (both j pos))
    | inr e ↦ rw e (both j pos)
  ];
  disk_same = h'.disk_same ∙ h.disk_same;
  entries_same = h'.entries_same ∙ h.entries_same;
}
  where
    one : (j : ℕ) → (j == s) ≡ true → extra (some s) j ≡ 1
    one j e = rw e refl

    zero_extra : (j : ℕ) → (j == s) ≡ false → extra (some s) j ≡ 0
    zero_extra j e = rw e refl

    both :
        (j : ℕ)
        → 0 < (t.slots j).ref
        → ((t''.slots j).inum ≡ (t.slots j).inum) × ((t''.slots j).dev ≡ (t.slots j).dev)
    both j pos =
        let pos' = more_refs h j pos in
        ((h'.names j pos').0 ∙ (h.names j pos).0, (h'.names j pos').1 ∙ (h.names j pos).1)

pub drop-IsTable :
    (s : ℕ) (t : Store) → IsTable t → s < ninode → 0 < (t.slots s).ref → IsTable (drop_ref s t)
drop-IsTable s t v low held = update-IsTable s _ t v (λ h. ref_only s _ t v low held)

-- `ilock` of a slot that has references returns, and loads the copy of the disk.
pub ilock-Held :
    (s : ℕ) (t : Store)
    → IsTable t
    → s < ninode
    → 0 < (t.slots s).ref
    → (t' : Store) × (ilock s t ≡ some (tt, t'))
      × Held none t t'
      × IsTable t'
      × ((t'.slots s).type ≡ (t.disk (t.slots s).inum).type)
unfolding ilock
ilock-Held s t v low held =
    let r = ne→== (t.slots s).ref 0 (omega (arith, held)) in
    elim (Bool-cases (t.slots s).valid) [
      | inl e ↦ (t, rw (r, e) refl, Held-none t, v, (v.fresh s low held e).0)
      | inr e ↦ (
        update s (loaded s t) t,
        rw (r, e, ne→== (t.disk (t.slots s).inum).type 0 (v.in_use s low held)) refl,
        load-Held,
        update-IsTable s (loaded s t) t v (λ h. record {
          one_dev = v.one_dev s low held;
          in_use = v.in_use s low held;
          fresh = λ h'. (refl, refl, refl, refl);
          unique = λ j low' ne h' e'. ne (v.unique j s low' low h' held e');
        }),
        rw (eq→== s s refl) refl,
      )
    ]
  where
    load-Held : Held none t (update s (loaded s t) t)
    load-Held = record {
      refs = λ j. elim (Bool-cases (j == s)) [
        | inl e ↦ let e' = ==→eq j s e in rw e (omega (arith, ap (λ k. (t.slots k).ref) e'))
        | inr e ↦ rw e (omega arith)
      ];
      names = λ j pos. elim (Bool-cases (j == s)) [
        | inl e ↦
            let e' = sym (==→eq j s e) in
            rw e (ap (λ k. (t.slots k).inum) e', ap (λ k. (t.slots k).dev) e')
        | inr e ↦ rw e (refl, refl)
      ];
      disk_same = refl;
      entries_same = refl;
    }

-- A reference that is not the last of an inode with no links is only counted down.
pub iput-drop_ref :
    (s : ℕ) (t : Store)
    → ((t.slots s).ref ≡ 1 → (t.slots s).valid ≡ true → (t.slots s).nlink ≢ 0)
    → iput s t ≡ some (tt, drop_ref s t)
unfolding iput
iput-drop_ref s t keep =
    let x = t.slots s in
    elim (Bool-cases (x.ref == 1 && x.valid && x.nlink == 0)) [
      | inl e ↦ absurd (ground (arith, e, keep))
      | inr e ↦ rw e refl
    ]

pub iunlock-same : (s : ℕ) (t : Store) → 0 < (t.slots s).ref → iunlock s t ≡ some (tt, t)
unfolding iunlock
iunlock-same s t held = rw (ne→== (t.slots s).ref 0 (omega (arith, held))) refl
