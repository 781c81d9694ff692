-- ===== src/Inodes/Rounds.antt =====
-- One round of the loop of `namex` in fs.c, branch by branch.
use cuhksz_operating_system.Prelude.{
  ℕ, suc, ◌≡◌, ◌∙◌, Bool, true, false, ◌&&◌, none, some, List, ◌==◌,
}
use cuhksz_operating_system.Inodes.{
  t_dir, Store, ilock, iunlock, iunlockput, dirlookup, is_empty, skipelem, namex_from,
}
use cuhksz_operating_system.Inodes.Refs.{bind_some}

module _ (fuel : ℕ) (parent : Bool) (path name : List ℕ) (ip : ℕ) (t : Store) (e rest : List ℕ)
    (answer : skipelem path ≡ some (e, rest)) (t₁ : Store) (lock : ilock ip t ≡ some (tt, t₁)) where
  pub round_file :
      (u : Store)
      → ((t₁.slots ip).type == t_dir) ≡ false
      → iunlockput ip t₁ ≡ some (tt, u)
      → namex_from (suc fuel) parent path name ip t ≡ some (none, u)
  unfolding namex_from
  round_file u kind put =
      rw (answer, namex_from)
        (bind_some (ilock ip) _ t tt t₁ lock ∙ rw kind (bind_some (iunlockput ip) _ t₁ tt u put))

  module _ (kind : ((t₁.slots ip).type == t_dir) ≡ true) where
    pub round_stop :
        (parent && is_empty rest) ≡ true
        → iunlock ip t₁ ≡ some (tt, t₁)
        → namex_from (suc fuel) parent path name ip t ≡ some (some (ip, e), t₁)
    unfolding namex_from
    round_stop stop free =
        rw (answer, namex_from)
          (bind_some (ilock ip) _ t tt t₁ lock
            ∙ rw (kind, stop) (bind_some (iunlock ip) _ t₁ tt t₁ free))

    module _ (on : (parent && is_empty rest) ≡ false) (t₂ u : Store)
        (put : iunlockput ip t₂ ≡ some (tt, u)) where
      pub round_missing :
          dirlookup ip e t₁ ≡ some (none, t₂)
          → namex_from (suc fuel) parent path name ip t ≡ some (none, u)
      unfolding namex_from
      round_missing look =
          rw (answer, namex_from)
            (bind_some (ilock ip) _ t tt t₁ lock
              ∙ rw (kind, on)
                  (bind_some (dirlookup ip e) _ t₁ none t₂ look
                    ∙ bind_some (iunlockput ip) _ t₂ tt u put))

      pub round_next :
          (s off : ℕ)
          → dirlookup ip e t₁ ≡ some (some (s, off), t₂)
          → namex_from (suc fuel) parent path name ip t ≡ namex_from fuel parent rest e s u
      unfolding namex_from
      round_next s off look =
          rw (answer, namex_from)
            (bind_some (ilock ip) _ t tt t₁ lock
              ∙ rw (kind, on)
                  (bind_some (dirlookup ip e) _ t₁ (some (s, off)) t₂ look
                    ∙ bind_some (iunlockput ip) _ t₂ tt u put))
