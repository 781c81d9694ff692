-- ===== src/Inodes/Tests.antt =====
-- A small directory tree: the root has the entries "." and "a", a file.
use cuhksz_operating_system.Prelude.{
  ℕ, ◌<◌, ◌≡◌, ◌≢◌, ◌⊎◌, inl, inr, refl, sym, ap, subst, true, false, Option, none, some, List, [],
  ◌∷◌, ◌==◌, if◌then◌else◌, arith, Bool-cases, ==→eq,
}
use cuhksz_operating_system.Inodes.{
  Slot, Store, iget, skipelem, find_entry, namecmp_from, namex, dirlink, namex_from, ilock, iunlock,
  iput, iunlockput, dirlookup, skip_slashes, element, take, iget_from, take_slot,
}
use cuhksz_operating_system.Inodes.Paths.{elements}
use cuhksz_operating_system.Inodes.Table.{IsTable, Held}
use cuhksz_operating_system.Inodes.Resolve.{IsLinked, Walked, start}
use cuhksz_operating_system.Inodes.Walk.{namex-Walked}
use cuhksz_operating_system.Inodes.Link.{Added, dirlink-Added}

abbrev root_slot : Slot
root_slot = record {
  dev = 1;
  inum = 1;
  ref = 1;
  valid = true;
  type = 1;
  nlink = 1;
  major = 0;
  minor = 0;
}

abbrev empty_slot : Slot
empty_slot = record {
  dev = 0;
  inum = 0;
  ref = 0;
  valid = false;
  type = 0;
  nlink = 0;
  major = 0;
  minor = 0;
}

abbrev tree : Store
tree = record {
  slots = λ j. if j == 0 then root_slot else empty_slot;
  disk = λ n. record { type = if n == 1 then 1 else 2; nlink = 1; major = 0; minor = 0 };
  entries = λ n.
      if n == 1
      then record { inum = 1; name = b'.' ∷ [] } ∷ record { inum = 5; name = b'a' ∷ [] } ∷ []
      else [];
}

only_root : (j : ℕ) → 0 < (tree.slots j).ref → j ≡ 0
only_root j h = elim (Bool-cases (j == 0)) [ inl e ↦ ==→eq j 0 e | inr e ↦ absurd (off e h) ]
  where
    off : (j == 0) ≡ false → 0 < (tree.slots j).ref → ⊥
    off e h' = ground (arith, e, h')

tree-IsTable : IsTable tree
tree-IsTable = record {
  one_dev = λ j low h. ap (λ k. (tree.slots k).dev) (only_root j h);
  unique = λ j k low low' h h' e. ground (arith, only_root j h, only_root k h');
  in_use = λ j low h. typed (tree.slots j).inum;
  fresh = λ j low h valid. subst Agrees (sym (only_root j h)) (refl, refl, refl, refl);
}
  where
    typed : (n : ℕ) → (tree.disk n).type ≢ 0
    typed n h = ground (arith, h)

    Agrees : ℕ → Type 0
    Agrees j =
        ((tree.slots j).type ≡ (tree.disk (tree.slots j).inum).type)
        × ((tree.slots j).nlink ≡ (tree.disk (tree.slots j).inum).nlink)
        × ((tree.slots j).major ≡ (tree.disk (tree.slots j).inum).major)
        × ((tree.slots j).minor ≡ (tree.disk (tree.slots j).inum).minor)

tree-IsLinked : IsLinked tree
tree-IsLinked = record {
  root_used = λ h. ground (arith, h);
  root_linked = λ h. ground (arith, h);
  used = λ n off m name h e. ground (arith, e);
  linked = λ n off m name h e. ground (arith, e);
}

-- The path "/a/".
abbrev path : List ℕ
path = b'/' ∷ b'a' ∷ b'/' ∷ []

abbrev answer : {A : Type 0} → Option (A × Store) → Option A
answer none = none
answer (some (a, t)) = some a

namex_a : answer (namex 0 false path tree) ≡ some (some (1, b'a' ∷ []))
unfolding namex iget skipelem namecmp_from find_entry namex_from ilock iunlock iput iunlockput
    dirlookup skip_slashes element take iget_from take_slot
namex_a = refl

namex_parent : answer (namex 0 true path tree) ≡ some (some (0, b'a' ∷ []))
unfolding namex iget skipelem namecmp_from find_entry namex_from ilock iunlock iput iunlockput
    dirlookup skip_slashes element take iget_from take_slot
namex_parent = refl

namex-Walked_example :
    (r : Option (ℕ × List ℕ)) × (t' : Store) × (namex 0 false path tree ≡ some (r, t'))
    × Walked false (start path 0 tree) (elements [] path) [] tree r t'
namex-Walked_example =
    namex-Walked tree tree-IsLinked false 3 4 (omega arith) (omega arith) (λ h. ground (arith, h))
      refl refl tree-IsTable 0 (omega arith) (omega arith) path

dirlink-Added_example :
    ((t' : Store) × (find_entry 0 (b'b' ∷ []) (tree.entries 1) ≢ none)
      × (dirlink true 0 (b'b' ∷ []) 7 tree ≡ some (false, t'))
      × Held none tree t'
      × IsTable t')
    ⊎ ((find_entry 0 (b'b' ∷ []) (tree.entries 1) ≡ none)
        × (true ≡ false)
        × (dirlink true 0 (b'b' ∷ []) 7 tree ≡ some (false, tree)))
    ⊎ ((t' : Store) × (find_entry 0 (b'b' ∷ []) (tree.entries 1) ≡ none)
        × (true ≡ true)
        × (dirlink true 0 (b'b' ∷ []) 7 tree ≡ some (true, t'))
        × Added (b'b' ∷ []) 7 1 tree t')
dirlink-Added_example =
    dirlink-Added tree 3 0 (b'b' ∷ []) 7 true tree-IsTable tree-IsLinked (omega arith) refl
      (omega arith) (omega arith) refl (λ h. ground (arith, h)) (omega arith)
