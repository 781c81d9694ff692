-- ===== src/Inodes.antt =====
-- Assignment4/source/fs.c: the table of inodes in memory, directories and path names.
-- The inodes on the disk are a function of their number. A directory's content is the list of its
-- entries, so that a read or a write of one `struct dirent` is one of an entry; Fs has the blocks below
-- it. A name is the list of its bytes before the zero byte. `none` is a panic. There is one process,
-- so that a sleep-lock is free when it is asked for.
pub mod Paths
pub mod Table
pub mod Refs
pub mod Resolve
pub mod Rounds
pub mod Walk
pub mod Link
mod Tests
use cuhksz_operating_system.Prelude.{
  ℕ, zero, suc, ◌+◌, ◌-◌, ◌%◌, ◌^◌, ◌≤◌, ◌<◌, Bool, true, false, not, ◌&&◌, ◌||◌, Option, none,
  some, List, [], ◌∷◌, ◌++◌, ltb, leb, ◌==◌, if◌then◌else◌, length, set,
}

-- NINODE, DIRSIZ, ROOTDEV and ROOTINO, T_DIR
abbrev pub ninode : ℕ
ninode = 50

abbrev pub dirsiz : ℕ
dirsiz = 14

abbrev pub rootdev : ℕ
rootdev = 1

abbrev pub rootino : ℕ
rootino = 1

abbrev pub t_dir : ℕ
t_dir = 1

-- `struct inode` in the table, less its lock, size and addresses.
pub record Slot : Type 0 where
  pub dev : ℕ
  pub inum : ℕ
  pub ref : ℕ
  pub valid : Bool
  pub type : ℕ
  pub nlink : ℕ
  pub major : ℕ
  pub minor : ℕ

-- `struct dinode`, less its size and addresses.
pub record Dinode : Type 0 where
  pub type : ℕ
  pub nlink : ℕ
  pub major : ℕ
  pub minor : ℕ

-- `struct dirent`, whose number has 16 bits
pub record Dirent : Type 0 where
  pub inum : ℕ
  pub name : List ℕ

pub record Store : Type 0 where
  pub slots : ℕ → Slot
  pub disk : ℕ → Dinode
  pub entries : ℕ → List Dirent

abbrev pub M : Type 0 → Type 0
M A = Store → Option (A × Store)

abbrev pub pure : {A : Type 0} → A → M A
pure a t = some (a, t)

abbrev pub panic : {A : Type 0} → M A
panic t = none

infixl 5 ◌>>=◌ ◌>>◌
abbrev pub ◌>>=◌ : {A B : Type 0} → M A → (A → M B) → M B
◌>>=◌ m f t = elim (m t) [ none ↦ none | some (a, t') ↦ f a t' ]

abbrev pub ◌>>◌ : {A B : Type 0} → M A → M B → M B
m >> n = m >>= λ _. n

abbrev pub update : ℕ → Slot → Store → Store
update s x t = record t { slots = λ j. if j == s then x else t.slots j }

-- The loop of `iget` from slot `i` on: a slot that has the inode, or the first empty one.
unfoldable pub iget_from : ℕ → ℕ → ℕ → ℕ → Option ℕ → Store → Bool × Option ℕ
iget_from zero i dev inum empty t = (false, empty)
iget_from (suc left) i dev inum empty t =
    let x = t.slots i in
    let rest =
      iget_from left (i + 1) dev inum
        (elim empty [ none ↦ if x.ref == 0 then some i else none | some e ↦ some e ]) t in
    if ltb 0 x.ref && x.dev == dev && x.inum == inum then (true, some i) else rest

-- A slot that is found gets a reference more; an empty one is taken.
unfoldable pub take_slot : ℕ → ℕ → Bool × Option ℕ → M ℕ
take_slot dev inum (found, none) t = none
take_slot dev inum (true, some s) t =
    some (s, update s (record (t.slots s) { ref = (t.slots s).ref + 1 }) t)
take_slot dev inum (false, some s) t =
    some (s, update s (record (t.slots s) { dev = dev; inum = inum; ref = 1; valid = false }) t)

unfoldable pub iget : ℕ → ℕ → M ℕ
iget dev inum t = take_slot dev inum (iget_from ninode 0 dev inum none t) t

abbrev pub idup : ℕ → M ℕ
idup s t = some (s, update s (record (t.slots s) { ref = (t.slots s).ref + 1 }) t)

-- The copy of the inode on the disk into a slot.
abbrev pub loaded : ℕ → Store → Slot
loaded s t =
    let d = t.disk (t.slots s).inum in
    record (t.slots s) {
      valid = true;
      type = d.type;
      nlink = d.nlink;
      major = d.major;
      minor = d.minor;
    }

unfoldable pub ilock : ℕ → M (Unit {0})
ilock s t =
    if (t.slots s).ref == 0
    then none
    else if (t.slots s).valid
    then some (tt, t)
    else if (t.disk (t.slots s).inum).type == 0
    then none
    else some (tt, update s (loaded s t) t)

-- The panic of a caller that does not hold the inode's sleep-lock is left out, as those locks are.
unfoldable pub iunlock : ℕ → M (Unit {0})
iunlock s t = if (t.slots s).ref == 0 then none else some (tt, t)

-- `iupdate`: the slot's fields go to the disk.
abbrev pub iupdate_slot : ℕ → Store → Store
iupdate_slot s t =
    let x = t.slots s in
    record t {
      disk = λ n.
          if n == x.inum
          then record { type = x.type; nlink = x.nlink; major = x.major; minor = x.minor }
          else t.disk n;
    }

-- The part of `iput` for an inode with no links and no other references.
abbrev pub discard : ℕ → Store → Store
discard s t =
    let x = t.slots s in
    let t₁ = record t { entries = λ n. if n == x.inum then [] else t.entries n } in
    let t₂ = iupdate_slot s (update s (record x { type = 0 }) t₁) in
    update s (record x { type = 0; valid = false }) t₂

abbrev pub drop_ref : ℕ → Store → Store
drop_ref s t = update s (record (t.slots s) { ref = (t.slots s).ref - 1 }) t

unfoldable pub iput : ℕ → M (Unit {0})
iput s t =
    let x = t.slots s in
    some (tt, drop_ref s (if x.ref == 1 && x.valid && x.nlink == 0 then discard s t else t))

unfoldable pub iunlockput : ℕ → M (Unit {0})
iunlockput s = do iunlock s; iput s

-- `strncmp(s, t, n) == 0`
unfoldable pub namecmp_from : ℕ → List ℕ → List ℕ → Bool
namecmp_from zero s t = true
namecmp_from (suc n) [] [] = true
namecmp_from (suc n) [] (b ∷ t) = false
namecmp_from (suc n) (a ∷ s) [] = false
namecmp_from (suc n) (a ∷ s) (b ∷ t) = a == b && namecmp_from n s t

abbrev pub namecmp : List ℕ → List ℕ → Bool
namecmp s t = namecmp_from dirsiz s t

-- The loop of `dirlookup`: the place of the entry and its inode number.
unfoldable pub find_entry : ℕ → List ℕ → List Dirent → Option (ℕ × ℕ)
find_entry off name [] = none
find_entry off name (de ∷ rest) =
    let later = find_entry (off + 1) name rest in
    if de.inum == 0 then later else if namecmp name de.name then some (off, de.inum) else later

-- `dirlookup(dp, name, &off)`: the inode, and the place of the entry.
unfoldable pub dirlookup : ℕ → List ℕ → M (Option (ℕ × ℕ))
dirlookup dp name t =
    let x = t.slots dp in
    if not (x.type == t_dir) then none else elim (find_entry 0 name (t.entries x.inum)) [
      | none ↦ some (none, t)
      | some (off, inum) ↦ (do s ← iget x.dev inum; pure (some (s, off))) t
    ]

-- The slashes at the front of a path are left out.
unfoldable pub skip_slashes : List ℕ → List ℕ
skip_slashes [] = []
skip_slashes (c ∷ path) = let rest = skip_slashes path in if c == b'/' then rest else c ∷ path

-- The bytes up to the next slash, and what follows them.
unfoldable pub element : List ℕ → List ℕ × List ℕ
element [] = ([], [])
element (c ∷ path) =
    let (name, rest) = element path in if c == b'/' then ([], c ∷ path) else (c ∷ name, rest)

-- At most `n` bytes.
unfoldable pub take : ℕ → List ℕ → List ℕ
take zero xs = []
take (suc n) [] = []
take (suc n) (x ∷ xs) = x ∷ take n xs

abbrev pub is_empty : List ℕ → Bool
is_empty [] = true
is_empty (c ∷ path) = false

-- `skipelem(path, name)`: the name, cut to DIRSIZ bytes, and the rest of the path.
unfoldable pub skipelem : List ℕ → Option (List ℕ × List ℕ)
skipelem path =
    let s = skip_slashes path in
    let (name, rest) = element s in
    if is_empty s then none else some (take dirsiz name, skip_slashes rest)

-- The loop of `namex`; with no parent asked for, the answer has no name. Each round takes an element
-- from the path, so that the fuel is not used up.
unfoldable pub namex_from : ℕ → Bool → List ℕ → List ℕ → ℕ → M (Option (ℕ × List ℕ))
namex_from zero parent path name ip t = none
namex_from (suc fuel) parent path name ip t = elim (skipelem path) [
  | none ↦ (if parent then (do iput ip; pure none) else pure (some (ip, name))) t
  | some (name', path') ↦
      (do
        ilock ip
        (λ t. elim (not ((t.slots ip).type == t_dir)) [
          | true ↦ (do iunlockput ip; pure none) t
          | false ↦ elim (parent && is_empty path') [
            | true ↦ (do iunlock ip; pure (some (ip, name'))) t
            | false ↦
                (do
                  found ← dirlookup ip name'
                  iunlockput ip
                  elim found [
                    | none ↦ pure none
                    | some (next, off) ↦ namex_from fuel parent path' name' next
                  ])
                  t
          ]
        ]))
        t
]

-- `namex(path, nameiparent, name)` for a process whose directory is in slot `cwd`.
unfoldable pub namex : ℕ → Bool → List ℕ → M (Option (ℕ × List ℕ))
namex cwd parent [] = do ip ← idup cwd; namex_from 1 parent [] [] ip
namex cwd parent (c ∷ path) = do
  ip ← if c == b'/' then iget rootdev rootino else idup cwd
  namex_from (length path + 2) parent (c ∷ path) [] ip

-- The entry goes to the first place that is empty, or to the end.
unfoldable pub write_entry : Dirent → List Dirent → List Dirent
write_entry new [] = new ∷ []
write_entry new (de ∷ rest) =
    let later = write_entry new rest in if de.inum == 0 then new ∷ rest else de ∷ later

-- The rest of `dirlink` for a name that is not there. `written` says whether `writei` writes the
-- whole entry.
unfoldable pub add_entry : Bool → ℕ → List ℕ → ℕ → M Bool
add_entry written dp name inum t =
    let n = (t.slots dp).inum in
    let de : Dirent = record { inum = inum % 2 ^ 16; name = take dirsiz name } in
    if written
    then some (
      true,
      record t { entries = λ k. if k == n then write_entry de (t.entries n) else t.entries k },
    )
    else some (false, t)

-- `dirlink(dp, name, inum)`: whether it answers 0.
unfoldable pub dirlink : Bool → ℕ → List ℕ → ℕ → M Bool
dirlink written dp name inum = do
  found ← dirlookup dp name
  elim found [ some (ip, off) ↦ (do iput ip; pure false) | none ↦ add_entry written dp name inum ]
