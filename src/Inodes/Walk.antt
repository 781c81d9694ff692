-- ===== src/Inodes/Walk.antt =====
-- `namex` of fs.c follows a path as the directories on the disk say, and keeps the count of references.
use cuhksz_operating_system.Inodes.Resolve.{resolve, final_name, IsLinked, start, Walked}
use cuhksz_operating_system.Prelude.{
  ℕ, zero, suc, ◌+◌, ◌<◌, ◌≡◌, ◌≢◌, ◌⊎◌, inl, inr, refl, sym, ap, ◌∙◌, subst, Bool, true, false,
  ◌&&◌, Option, none, some, List, [], ◌∷◌, ◌==◌, length, arith, Bool-cases, Option-cases, ==→eq,
  eq→==, ne→==,
}
use cuhksz_operating_system.Inodes.{
  ninode, dirsiz, rootdev, rootino, t_dir, Dinode, Dirent, Store, update, iget, ilock, iunlock,
  skipelem, drop_ref, iput, iunlockput, find_entry, dirlookup, take, is_empty, namex_from, namex,
  pure,
}
use cuhksz_operating_system.Inodes.Paths.{elements, is_nil, Takes, skipelem-Takes}
use cuhksz_operating_system.Inodes.Table.{
  IsTable, Held, extra, Got, iget-Got, ref_only, update-IsTable, update_refs,
}
use cuhksz_operating_system.Inodes.Rounds.{round_file, round_stop, round_missing, round_next}
use cuhksz_operating_system.Inodes.Refs.{
  bind_some, Held-none, more_refs, Held-trans, drop-Held, drop-IsTable, ilock-Held, iput-drop_ref,
  iunlock-same,
}

module _ (t₀ : Store) (tree : IsLinked t₀) (parent : Bool) (f g : ℕ) where
  -- The walk stands at the inode of slot `ip`, which it holds.
  record At (ip : ℕ) (t : Store) : Type 0 where
    held : Held (some ip) t₀ t
    table : IsTable t
    low : ip < ninode
    kept : (0 < (t₀.slots ip).ref) ⊎ ((t₀.disk (t.slots ip).inum).nlink ≢ 0)

  own_refs : (ip : ℕ) (t : Store) → At ip t → (t.slots ip).ref ≡ (t₀.slots ip).ref + 1
  own_refs ip t a = omega (arith, a.held.refs ip, own)
    where
      own : extra (some ip) ip ≡ 1
      own = rw (eq→== ip ip refl) refl

  -- The walk gives its inode up, after it took `o`.
  leave :
      (ip : ℕ) (o : Option ℕ) (t t' : Store)
      → At ip t
      → Held o t t'
      → IsTable t'
      → (iput ip t' ≡ some (tt, drop_ref ip t'))
        × (iunlockput ip t' ≡ some (tt, drop_ref ip t'))
        × Held o t₀ (drop_ref ip t')
        × IsTable (drop_ref ip t')
  unfolding iunlockput
  leave ip o t t' a h v =
      let many = own_refs ip t a in
      let pos : 0 < (t'.slots ip).ref = more_refs h ip (omega (arith, many)) in
      let put = iput-drop_ref ip t' linked in
      (
        put,
        bind_some (iunlock ip) (λ u. iput ip) t' tt t' (iunlock-same ip t' pos) ∙ put,
        drop-Held ip o t₀ t t' a.held h,
        drop-IsTable ip t' v a.low pos,
      )
    where
      linked : (t'.slots ip).ref ≡ 1 → (t'.slots ip).valid ≡ true → (t'.slots ip).nlink ≢ 0
      linked one valid = elim a.kept [
        | inl e ↦ absurd (omega (arith, e, one, own_refs ip t a, h.refs ip))
        | inr e ↦ λ z. e (
            sym (
              ap (λ (d : ℕ → Dinode). (d (t.slots ip).inum).nlink) (h.disk_same ∙ a.held.disk_same))
            ∙ ap (λ n. (t'.disk n).nlink) (sym (h.names ip (omega (arith, own_refs ip t a))).0)
            ∙ sym (v.fresh ip a.low (more_refs h ip (omega (arith, own_refs ip t a))) valid).1
            ∙ z)
      ]

  module _ (low_f : f < ninode) (low_g : g < ninode) (apart : f ≢ g) (free_f : (t₀.slots f).ref ≡ 0)
      (free_g : (t₀.slots g).ref ≡ 0) where
    -- One of the two free slots is not that of the walk.
    room :
        (ip : ℕ) (t : Store) → Held (some ip) t₀ t → (h : ℕ) × (h < ninode) × ((t.slots h).ref ≡ 0)
    room ip t a = elim (Bool-cases (f == ip)) [
      | inl e ↦ (
        g,
        low_g,
        omega
            (arith, a.refs g, free_g, no_extra g (ne→== g ip (λ s. apart (==→eq f ip e ∙ sym s)))),
      )
      | inr e ↦ (f, low_f, omega (arith, a.refs f, free_f, no_extra f e))
    ]
      where
        no_extra : (j : ℕ) → (j == ip) ≡ false → extra (some ip) j ≡ 0
        no_extra j e = rw e refl

    -- `dirlookup` of a name of the directory that the walk stands at.
    find :
        (ip : ℕ) (name : List ℕ) (t t' : Store)
        → At ip t
        → Held none t t'
        → IsTable t'
        → (t'.slots ip).type ≡ t_dir
        → ((find_entry 0 name (t₀.entries (t.slots ip).inum) ≡ none)
            × (dirlookup ip name t' ≡ some (none, t')))
          ⊎ ((off : ℕ) × (m : ℕ) × (s : ℕ) × (t'' : Store) × (find_entry 0 name
                  (t₀.entries (t.slots ip).inum)
                ≡ some (off, m))
              × (dirlookup ip name t' ≡ some (some (s, off), t''))
              × Got m t' s t'')
    unfolding dirlookup
    find ip name t t' a h v dir =
        let q : t'.entries (t'.slots ip).inum ≡ t₀.entries (t.slots ip).inum =
          ap (λ n. t'.entries n) (h.names ip (omega (arith, own_refs ip t a))).0
          ∙ ap (λ (d : ℕ → List Dirent). d (t.slots ip).inum)
              (h.entries_same ∙ a.held.entries_same) in
        elim (Option-cases (find_entry 0 name (t₀.entries (t.slots ip).inum))) [
          | inl e ↦ inl (e, rw (eq→== _ _ dir, q, e) refl)
          | inr (o, e) ↦
              let got = inode o e in
              inr (
                o.0,
                o.1,
                got.0,
                got.1,
                e,
                rw (eq→== _ _ dir, q, e, own_dev)
                    (bind_some (iget rootdev o.1) (λ s. pure (some (s, o.0))) t' got.0 got.1 got.2),
                got.3,
              )
        ]
      where
        own_dev : (t'.slots ip).dev ≡ rootdev
        own_dev = v.one_dev ip a.low (more_refs h ip (omega (arith, own_refs ip t a)))

        inode :
            (o : ℕ × ℕ)
            → find_entry 0 name (t₀.entries (t.slots ip).inum) ≡ some o
            → (s : ℕ) × (t'' : Store) × (iget rootdev o.1 t' ≡ some (s, t'')) × Got o.1 t' s t''
        inode o e =
            let one =
              room ip t'
                (Held-trans (some ip) none (some ip) t₀ t t' (λ j. omega arith) a.held h) in
            iget-Got o.1 t' v
              (λ z.
                tree.used _ o.0 o.1 name e (
                  ap (λ (d : ℕ → Dinode). (d o.1).type) (sym (h.disk_same ∙ a.held.disk_same)) ∙ z))
              one.0 one.1 one.2

    drop-inum : (s j : ℕ) (t : Store) → ((drop_ref s t).slots j).inum ≡ (t.slots j).inum
    drop-inum s j t = elim (Bool-cases (j == s)) [
      | inl e ↦ rw e (ap (λ i. (t.slots i).inum) (sym (==→eq j s e)))
      | inr e ↦ rw e refl
    ]

    last_one :
        (names : List (List ℕ)) (name : List ℕ)
        → (parent && is_nil names) ≡ true
        → name ≡ final_name name names
    unfolding final_name
    last_one [] name h = refl
    last_one (e ∷ names) name h = ground (arith, h)

    Walked-more :
        (n m : ℕ) (e name : List ℕ) (names : List (List ℕ)) (r : Option (ℕ × List ℕ)) (t' : Store)
        → resolve t₀.disk t₀.entries parent n (e ∷ names)
          ≡ resolve t₀.disk t₀.entries parent m names
        → Walked parent m names (take dirsiz e) t₀ r t'
        → Walked parent n (e ∷ names) name t₀ r t'
    unfolding final_name
    Walked-more n m e name names none t' q w = (q ∙ w.0, w.1, w.2)
    Walked-more n m e name names (some x) t' q w = (q ∙ w.0, w.1, w.2, w.3, w.4)

    -- The rounds from an inode on do what `resolve` says.
    abbrev Walks : ℕ → List ℕ → List ℕ → ℕ → Store → Type 0
    Walks fuel path name ip t =
        (r : Option (ℕ × List ℕ)) × (t' : Store) × (namex_from fuel parent path name ip t
          ≡ some (r, t'))
        × Walked parent (t.slots ip).inum (elements [] path) name t₀ r t'

    walk_ended :
        (fuel : ℕ) (path name : List ℕ) (ip : ℕ) (t : Store)
        → At ip t
        → skipelem path ≡ none
        → elements [] path ≡ []
        → Walks (suc fuel) path name ip t
    unfolding namex_from resolve final_name
    walk_ended fuel path name ip t a h h' = elim (Bool-cases parent) [
      | inl e ↦
          let gone = leave ip none t t a (Held-none t) a.table in
          (
            none,
            drop_ref ip t,
            rw (h, e, namex_from) (bind_some (iput ip) _ t tt _ gone.0),
            rw (h', e) (refl, gone.2, gone.3),
          )
      | inr e ↦ (
        some (ip, name),
        t,
        rw (h, e, namex_from) refl,
        rw (h', e) (refl, a.low, refl, a.held, a.table),
      )
    ]

    -- A round that takes the element `e`, with the inode locked as `t₁`.
    module _ (fuel : ℕ) (path name e rest : List ℕ) (ip : ℕ) (t t₁ : Store) (a : At ip t)
        (k : Takes path e rest) (locks : ilock ip t ≡ some (tt, t₁)) (l : Held none t t₁)
        (v₁ : IsTable t₁) (kind : (t₁.slots ip).type ≡ (t₀.disk (t.slots ip).inum).type) where
      walk_file :
          ((t₀.disk (t.slots ip).inum).type == t_dir) ≡ false → Walks (suc fuel) path name ip t
      unfolding namex_from resolve final_name
      walk_file other =
          let gone = leave ip none t t₁ a l v₁ in
          (
            none,
            drop_ref ip t₁,
            round_file fuel parent path name ip t _ rest k.answer t₁ locks (drop_ref ip t₁)
                (rw kind other) gone.1,
            rw (k.splits, other) (refl, gone.2, gone.3),
          )

      module _ (is_dir : ((t₀.disk (t.slots ip).inum).type == t_dir) ≡ true) where
        walk_stop : (parent && is_empty rest) ≡ true → Walks (suc fuel) path name ip t
        unfolding namex_from resolve final_name
        walk_stop stop =
            let held = more_refs l ip (omega (arith, own_refs ip t a)) in
            (
              some (ip, take dirsiz e),
              t₁,
              round_stop fuel parent path name ip t _ rest k.answer t₁ locks (rw kind is_dir) stop
                  (iunlock-same ip t₁ held),
              rw (k.splits, is_dir, sym k.last, stop)
                  (
                    ap some (sym (l.names ip (omega (arith, own_refs ip t a))).0),
                    a.low,
                    last_one (elements [] rest) (take dirsiz e)
                        (ap (λ b. parent && b) (sym k.last) ∙ stop),
                    Held-trans (some ip) none (some ip) t₀ t t₁ (λ j. omega arith) a.held l,
                    v₁,
                  ),
            )

        module _ (on : (parent && is_empty rest) ≡ false) where
          walk_missing :
              find_entry 0 (take dirsiz e) (t₀.entries (t.slots ip).inum) ≡ none
              → dirlookup ip (take dirsiz e) t₁ ≡ some (none, t₁)
              → Walks (suc fuel) path name ip t
          unfolding namex_from resolve final_name
          walk_missing h look =
              let gone = leave ip none t t₁ a l v₁ in
              (
                none,
                drop_ref ip t₁,
                round_missing fuel parent path name ip t _ rest k.answer t₁ locks (rw kind is_dir)
                    on t₁ (drop_ref ip t₁) gone.1 look,
                rw (k.splits, is_dir, sym k.last, on, h) (refl, gone.2, gone.3),
              )

          -- The walk goes on at the inode `m` that the entry names.
          walk_on :
              (off m s : ℕ) (t₂ : Store)
              → find_entry 0 (take dirsiz e) (t₀.entries (t.slots ip).inum) ≡ some (off, m)
              → dirlookup ip (take dirsiz e) t₁ ≡ some (some (s, off), t₂)
              → Got m t₁ s t₂
              → ((t' : Store) → At s t' → Walks fuel rest (take dirsiz e) s t')
              → Walks (suc fuel) path name ip t
          unfolding namex_from resolve final_name
          walk_on off m s t₂ h look got further =
              let n = (t.slots ip).inum in
              let gone =
                leave ip (some s) t t₂ a
                  (Held-trans none (some s) (some s) t t₁ t₂ (λ j. omega arith) l got.held)
                  got.table in
              let t₃ = drop_ref ip t₂ in
              let at : (t₃.slots s).inum ≡ m = drop-inum ip s t₂ ∙ got.names_it in
              let ih = further t₃ (record {
                held = gone.2;
                table = gone.3;
                low = got.low;
                kept = inr (λ z.
                    tree.linked n off m (take dirsiz e) h
                      (ap (λ i. (t₀.disk i).nlink) (sym at) ∙ z));
              }) in
              (
                ih.0,
                ih.1,
                round_next fuel parent path name ip t _ rest k.answer t₁ locks (rw kind is_dir) on
                      t₂ t₃ gone.1 s off look
                    ∙ ih.2,
                subst (λ els. Walked parent n els name t₀ ih.0 ih.1) (sym k.splits)
                    (Walked-more n (t₃.slots s).inum e name (elements [] rest) ih.0 ih.1
                      (rw (is_dir, sym k.last, on, h)
                        (ap (λ i. resolve t₀.disk t₀.entries parent i (elements [] rest)) (sym at)))
                      ih.3),
              )

    walk :
        (fuel : ℕ) (path name : List ℕ) (ip : ℕ) (t : Store)
        → length path < fuel
        → At ip t
        → Walks fuel path name ip t
    walk zero path name ip t short a = absurd (omega (arith, short))
    walk (suc fuel) path name ip t short a = elim (skipelem-Takes path) [
      | inl h ↦ walk_ended fuel path name ip t a h.0 h.1
      | inr (e, rest, k) ↦
          let n = (t.slots ip).inum in
          let l = ilock-Held ip t a.table a.low (omega (arith, own_refs ip t a)) in
          let t₁ = l.0 in
          let kind : (t₁.slots ip).type ≡ (t₀.disk n).type =
            l.4 ∙ ap (λ (d : ℕ → Dinode). (d n).type) a.held.disk_same in
          elim (Bool-cases ((t₀.disk n).type == t_dir)) [
            | inr other ↦ walk_file fuel path name e rest ip t t₁ a k l.1 l.2 l.3 kind other
            | inl is_dir ↦ elim (Bool-cases (parent && is_empty rest)) [
              | inl stop ↦ walk_stop fuel path name e rest ip t t₁ a k l.1 l.2 l.3 kind is_dir stop
              | inr on ↦ elim (find ip (take dirsiz e) t t₁ a l.2 l.3 (kind ∙ ==→eq _ _ is_dir)) [
                | inl h ↦
                    walk_missing fuel path name e rest ip t t₁ a k l.1 l.2 l.3 kind is_dir on h.0
                      h.1
                | inr (off, m, s, t₂, h, look, got) ↦
                    walk_on fuel path name e rest ip t t₁ a k l.1 l.2 l.3 kind is_dir on off m s t₂
                      h look got
                      (λ t' at.
                        walk fuel rest (take dirsiz e) s t' (omega (arith, short, k.shorter)) at)
              ]
            ]
          ]
    ]

    module _ (v : IsTable t₀) (cwd : ℕ) (low : cwd < ninode) (held : 0 < (t₀.slots cwd).ref) where
      -- The process's directory with one reference more.
      again : Store
      again = update cwd (record (t₀.slots cwd) { ref = (t₀.slots cwd).ref + 1 }) t₀

      idup-At : At cwd again × ((again.slots cwd).inum ≡ (t₀.slots cwd).inum)
      unfolding again
      idup-At = (
        record {
          held = update_refs cwd _ t₀ refl (λ h. (refl, refl));
          table = update-IsTable cwd _ t₀ v (λ h. ref_only cwd _ t₀ v low held);
          low = low;
          kept = inl held;
        },
        rw (eq→== cwd cwd refl) refl,
      )

      -- For a table in order, with two free slots and the process's directory held, and a disk where the
      -- root and the inodes of all entries are in use and have links: `namex` returns. It answers the
      -- slot of the inode that the elements of the path lead to from the root or the process's directory,
      -- or to the one before the last when the parent is asked for, and the last element cut to DIRSIZ;
      -- or 0 when they lead nowhere. The answer has one reference more than before, all other slots have
      -- what they had, the disk is the same, and the table stays in order.
      pub namex-Walked :
          (path : List ℕ)
          → (r : Option (ℕ × List ℕ)) × (t' : Store) × (namex cwd parent path t₀ ≡ some (r, t'))
            × Walked parent (start path cwd t₀) (elements [] path) [] t₀ r t'
      unfolding namex again
      namex-Walked [] =
          let w = walk 1 [] [] cwd again (omega arith) idup-At.0 in
          (w.0, w.1, w.2, subst (λ n. Walked parent n (elements [] []) [] t₀ w.0 w.1) idup-At.1 w.3)
      namex-Walked (c ∷ path) = elim (Bool-cases (c == b'/')) [
        | inl e ↦
            let got = iget-Got rootino t₀ v tree.root_used f low_f free_f in
            let g = got.3 in
            let w = walk (length path + 2) (c ∷ path) [] got.0 got.1 (omega arith) (record {
              held = g.held;
              table = g.table;
              low = g.low;
              kept = inr (λ z. tree.root_linked (ap (λ i. (t₀.disk i).nlink) (sym g.names_it) ∙ z));
            }) in
            (
              w.0,
              w.1,
              rw e (bind_some (iget rootdev rootino) _ t₀ got.0 got.1 got.2 ∙ w.2),
              rw e (
                  subst (λ n. Walked parent n (elements [] (c ∷ path)) [] t₀ w.0 w.1) g.names_it
                    w.3),
            )
        | inr e ↦
            let w = walk (length path + 2) (c ∷ path) [] cwd again (omega arith) idup-At.0 in
            (
              w.0,
              w.1,
              rw e w.2,
              rw e (
                  subst (λ n. Walked parent n (elements [] (c ∷ path)) [] t₀ w.0 w.1) idup-At.1
                    w.3),
            )
      ]
