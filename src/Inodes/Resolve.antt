-- ===== src/Inodes/Resolve.antt =====
-- What a path name means, for `namex` of fs.c: the inode that its elements lead to.
use cuhksz_operating_system.Prelude.{
  ℕ, ◌<◌, ◌≡◌, ◌≢◌, Bool, not, ◌&&◌, Option, none, some, List, [], ◌∷◌, ◌==◌, if◌then◌else◌,
}
use cuhksz_operating_system.Inodes.{
  ninode, dirsiz, rootino, t_dir, Dinode, Dirent, Store, find_entry, take,
}
use cuhksz_operating_system.Inodes.Paths.{is_nil}
use cuhksz_operating_system.Inodes.Table.{IsTable, Held}

-- The inode that a list of names leads to from directory `n`, or the one before the last.
unfoldable pub resolve : (ℕ → Dinode) → (ℕ → List Dirent) → Bool → ℕ → List (List ℕ) → Option ℕ
resolve disk entries parent n [] = if parent then none else some n
resolve disk entries parent n (e ∷ names) =
    if not ((disk n).type == t_dir)
    then none
    else if parent && is_nil names
    then some n
    else elim (find_entry 0 (take dirsiz e) (entries n)) [
      | none ↦ none
      | some (off, m) ↦ resolve disk entries parent m names
    ]

-- The last name, cut to DIRSIZ bytes.
unfoldable pub final_name : List ℕ → List (List ℕ) → List ℕ
final_name name [] = name
final_name name (e ∷ names) = final_name (take dirsiz e) names

-- The root and what the entries of a directory name is in use and has links.
pub record IsLinked (t : Store) : Type 0 where
  pub root_used : (t.disk rootino).type ≢ 0
  pub root_linked : (t.disk rootino).nlink ≢ 0
  pub used :
      (n off m : ℕ) (name : List ℕ)
      → find_entry 0 name (t.entries n) ≡ some (off, m)
      → (t.disk m).type ≢ 0
  pub linked :
      (n off m : ℕ) (name : List ℕ)
      → find_entry 0 name (t.entries n) ≡ some (off, m)
      → (t.disk m).nlink ≢ 0

-- Where a path starts: at the root, or at the directory of the process.
abbrev pub start : List ℕ → ℕ → Store → ℕ
start [] cwd t = (t.slots cwd).inum
start (c ∷ path) cwd t = if c == b'/' then rootino else (t.slots cwd).inum

-- What a walk from inode `n` over `names` must give.
abbrev pub Walked : Bool → ℕ → List (List ℕ) → List ℕ → Store → Option (ℕ × List ℕ) → Store → Type 0
Walked parent n names name t none t' =
    (resolve t.disk t.entries parent n names ≡ none) × Held none t t' × IsTable t'
Walked parent n names name t (some (s, last)) t' =
    (resolve t.disk t.entries parent n names ≡ some (t'.slots s).inum)
    × (s < ninode)
    × (last ≡ final_name name names)
    × Held (some s) t t'
    × IsTable t'
