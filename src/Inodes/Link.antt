-- ===== src/Inodes/Link.antt =====
-- `dirlink` of fs.c: what a directory shows after a name was added to it.
use cuhksz_operating_system.Prelude.{
  ℕ, zero, suc, ◌+◌, ◌%◌, ◌^◌, ◌<◌, ◌≡◌, ◌≢◌, ◌⊎◌, inl, inr, refl, sym, ap, ◌∙◌, Bool, true, false,
  none, some, List, [], ◌∷◌, ◌==◌, if◌then◌else◌, arith, Bool-cases, Option-cases, eq→==, ne→==,
}
use cuhksz_operating_system.Inodes.{
  ninode, dirsiz, rootdev, t_dir, Dinode, Dirent, Store, iget, iput, drop_ref, namecmp_from,
  namecmp, find_entry, dirlookup, take, write_entry, add_entry, dirlink, pure,
}
use cuhksz_operating_system.Inodes.Table.{IsTable, Held, extra, Got, iget-Got}
use cuhksz_operating_system.Inodes.Refs.{
  bind_some, Held-none, drop-Held, drop-IsTable, iput-drop_ref,
}
use cuhksz_operating_system.Inodes.Resolve.{IsLinked}

-- A name is found by what DIRSIZ bytes keep of it.
namecmp_from-take : (n : ℕ) (name : List ℕ) → namecmp_from n name (take n name) ≡ true
unfolding namecmp_from take
namecmp_from-take zero name = refl
namecmp_from-take (suc n) [] = refl
namecmp_from-take (suc n) (c ∷ name) = rw (eq→== c c refl) (namecmp_from-take n name)

-- The entries have the name at `place` with the inode number.
abbrev Shows : ℕ → List ℕ → ℕ → ℕ → List Dirent → Type 0
Shows off name place inum entries = find_entry off name entries ≡ some (place, inum)

-- What a directory shows for a name that was missing, and for the others.
find-write_entry :
    (off : ℕ) (name : List ℕ) (inum : ℕ) (entries : List Dirent)
    → inum ≢ 0
    → find_entry off name entries ≡ none
    → (place : ℕ) × Shows off name place inum
        (write_entry (record { inum = inum; name = take dirsiz name }) entries)
unfolding find_entry write_entry
find-write_entry off name inum [] used missing =
    (off, rw (ne→== inum 0 used, namecmp_from-take dirsiz name) refl)
find-write_entry off name inum (de ∷ rest) used missing = elim (Bool-cases (de.inum == 0)) [
  | inl e ↦ (off, rw (e, ne→== inum 0 used, namecmp_from-take dirsiz name) refl)
  | inr e ↦ elim (Bool-cases (namecmp_from dirsiz name de.name)) [
    | inl m ↦
        let here : find_entry off name (de ∷ rest) ≡ some (off, de.inum) = rw (e, m) refl in
        absurd (found (sym here ∙ missing))
    | inr m ↦
        let past : find_entry off name (de ∷ rest) ≡ find_entry (off + 1) name rest =
          rw (e, m) refl in
        let ih = find-write_entry (off + 1) name inum rest used (sym past ∙ missing) in
        (ih.0, rw (e, find_entry) (rw (e, m) (ih.1)))
  ]
]
  where
    found : {x : ℕ × ℕ} → some x ≡ none → ⊥
    found h = ground (arith, h)

find-write_entry-other :
    (off : ℕ) (other : List ℕ) (new : Dirent) (entries : List Dirent)
    → namecmp other new.name ≡ false
    → find_entry off other (write_entry new entries) ≡ find_entry off other entries
unfolding find_entry write_entry
find-write_entry-other off other new [] differ = ground (arith, differ)
find-write_entry-other off other new (de ∷ rest) differ =
    let ih = find-write_entry-other (off + 1) other new rest differ in
    elim (Bool-cases (de.inum == 0)) [
      | inl e ↦ elim (Bool-cases (new.inum == 0)) [
        | inl z ↦ rw (e, find_entry) (rw z refl)
        | inr z ↦ rw (e, find_entry) (rw (z, differ) refl)
      ]
      | inr e ↦
          rw (e, find_entry)
            (rw e (ap (λ l. if namecmp other de.name then some (off, de.inum) else l) ih))
    ]

-- The entry is in directory `n` of `t'`, all else is as in `t`.
pub record Added (name : List ℕ) (inum n : ℕ) (t t' : Store) : Type 0 where
  pub place : ℕ
  pub shows : Shows 0 name place inum (t'.entries n)
  pub others :
      (other : List ℕ)
      → namecmp other (take dirsiz name) ≡ false
      → find_entry 0 other (t'.entries n) ≡ find_entry 0 other (t.entries n)
  pub elsewhere : (k : ℕ) → k ≢ n → t'.entries k ≡ t.entries k
  pub slots_same : t'.slots ≡ t.slots
  pub disk_same : t'.disk ≡ t.disk

-- A number of 16 bits is stored as it is.
fits_short : (inum : ℕ) → inum < 2 ^ 16 → inum % 2 ^ 16 ≡ inum
fits_short inum low = omega (arith, low)

add_entry-Added :
    (dp : ℕ) (name : List ℕ) (inum : ℕ) (t : Store)
    → inum ≢ 0
    → inum < 2 ^ 16
    → find_entry 0 name (t.entries (t.slots dp).inum) ≡ none
    → (t' : Store) × (add_entry true dp name inum t ≡ some (true, t'))
      × Added name inum (t.slots dp).inum t t'
unfolding add_entry
add_entry-Added dp name inum t used short missing =
    rw (fits_short inum short)
      let n = (t.slots dp).inum in
        let de : Dirent = record { inum = inum; name = take dirsiz name } in
        let found = find-write_entry 0 name inum (t.entries n) used missing in
        (
          record t { entries = λ k. if k == n then write_entry de (t.entries n) else t.entries k },
          refl,
          record {
            place = found.0;
            shows = rw (eq→== n n refl) found.1;
            others = λ other differ.
                rw (eq→== n n refl) (find-write_entry-other 0 other de (t.entries n) differ);
            elsewhere = λ k ne. rw (ne→== k n ne) refl;
            slots_same = refl;
            disk_same = refl;
          },
        )

-- For a table in order with a free slot, a disk where the root and the inodes of all entries are in
-- use and have links, and a directory slot that is held and locked: `dirlink` of an inode number
-- that is not 0 and has 16 bits returns. It answers -1 if the directory has the name, and then all references and the disk are as
-- before; or if the entry cannot be written, and then nothing changed. Else it answers 0: a
-- look-up of the name then finds the inode number, a look-up of a name that differs from it in
-- DIRSIZ bytes finds what it did, and no other directory, slot or inode changed.
pub dirlink-Added :
    (t : Store) (f dp : ℕ) (name : List ℕ) (inum : ℕ) (written : Bool)
    → IsTable t
    → IsLinked t
    → f < ninode
    → (t.slots f).ref ≡ 0
    → dp < ninode
    → 0 < (t.slots dp).ref
    → (t.slots dp).type ≡ t_dir
    → inum ≢ 0
    → inum < 2 ^ 16
    → ((t' : Store) × (find_entry 0 name (t.entries (t.slots dp).inum) ≢ none)
        × (dirlink written dp name inum t ≡ some (false, t'))
        × Held none t t'
        × IsTable t')
      ⊎ ((find_entry 0 name (t.entries (t.slots dp).inum) ≡ none)
          × (written ≡ false)
          × (dirlink written dp name inum t ≡ some (false, t)))
      ⊎ ((t' : Store) × (find_entry 0 name (t.entries (t.slots dp).inum) ≡ none)
          × (written ≡ true)
          × (dirlink written dp name inum t ≡ some (true, t'))
          × Added name inum (t.slots dp).inum t t')
unfolding dirlink dirlookup
dirlink-Added t f dp name inum written v tree low_f free low held dir used short =
    let n = (t.slots dp).inum in
    elim (Option-cases (find_entry 0 name (t.entries n))) [
      | inl missing ↦
          let look : dirlookup dp name t ≡ some (none, t) = rw (eq→== _ _ dir, missing) refl in
          elim (Bool-cases written) [
            | inl e ↦
                let add = add_entry-Added dp name inum t used short missing in
                inr (
                  inr (
                    add.0,
                    missing,
                    e,
                    bind_some (dirlookup dp name) _ t none t look ∙ rw e add.1,
                    add.2,
                  ))
            | inr e ↦ inr (
                inl (
                  missing,
                  e,
                  bind_some (dirlookup dp name) _ t none t look ∙ rw e (unfold add_entry in refl),
                ))
          ]
      | inr (x, e) ↦
          let got = iget-Got x.1 t v (tree.used n x.0 x.1 name e) f low_f free in
          let g = got.3 in
          let s = got.0 in
          let t₁ = got.1 in
          let look : dirlookup dp name t ≡ some (some (s, x.0), t₁) =
            rw (eq→== _ _ dir, e, v.one_dev dp low held)
              (bind_some (iget rootdev x.1) (λ s'. pure (some (s', x.0))) t s t₁ got.2) in
          inl (
            drop_ref s t₁,
            λ h. absurd (found (sym e ∙ h)),
            bind_some (dirlookup dp name) _ t (some (s, x.0)) t₁ look
                ∙ bind_some (iput s) _ t₁ tt _ (iput-drop_ref s t₁ (linked x e s t₁ g)),
            drop-Held s none t t₁ t₁ g.held (Held-none t₁),
            drop-IsTable s t₁ g.table g.low (own s t₁ g.held),
          )
    ]
  where
    found : {x : ℕ × ℕ} → some x ≡ none → ⊥
    found h = ground (arith, h)

    own : (s : ℕ) (t₁ : Store) → Held (some s) t t₁ → 0 < (t₁.slots s).ref
    own s t₁ h = omega (arith, h.refs s, one)
      where
        one : extra (some s) s ≡ 1
        one = rw (eq→== s s refl) refl

    linked :
        (x : ℕ × ℕ)
        → find_entry 0 name (t.entries (t.slots dp).inum) ≡ some x
        → (s : ℕ) (t₁ : Store) → Got x.1 t s t₁
        → (t₁.slots s).ref ≡ 1
        → (t₁.slots s).valid ≡ true
        → (t₁.slots s).nlink ≢ 0
    linked x e s t₁ g one valid z = tree.linked _ x.0 x.1 name e (
        ap (λ (d : ℕ → Dinode). (d x.1).nlink) (sym g.held.disk_same)
        ∙ ap (λ i. (t₁.disk i).nlink) (sym g.names_it)
        ∙ sym (g.table.fresh s g.low (own s t₁ g.held) valid).1
        ∙ z)
