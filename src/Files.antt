-- ===== src/Files.antt =====
-- Open files: the table of Assignment3/initial_code/kernel/file.c and the descriptors of processes,
-- with the calls of Assignment3/source/sysfile.c and proc.c that open, copy and close them. A file is
-- its place in `ftable.file`; a descriptor holds that place plus one, and 0 if it is not in use.
-- What the last close gives up is written down in `ended`, the latest first. `none` is a panic.
pub mod Tally
pub mod Counted
pub mod Calls
pub mod Loops
pub mod Runs
mod Tests
use cuhksz_operating_system.Prelude.{
  ℕ, zero, suc, ◌+◌, ◌-◌, Bool, true, false, not, ◌||◌, Option, none, some, List, [], ◌∷◌, leb,
  ◌==◌, if◌then◌else◌,
}

-- NFILE, NOFILE and NPROC
abbrev pub nfile : ℕ
nfile = 100

abbrev pub nofile : ℕ
nofile = 16

abbrev pub nproc : ℕ
nproc = 64

pub data FileType : Type 0 where
  fd_none : FileType
  fd_pipe : FileType
  fd_inode : FileType
  fd_device : FileType

-- `struct file`
pub record File : Type 0 where
  pub type : FileType
  pub ref : ℕ
  pub readable : Bool
  pub writable : Bool
  pub pipe : ℕ
  pub ip : ℕ
  pub off : ℕ
  pub major : ℕ

-- `pipeclose(ff.pipe, ff.writable)` and `iput(ff.ip)`
pub data Ended : Type 0 where
  pipeclose : ℕ → Bool → Ended
  iput : ℕ → Ended

-- `ftable`, and `ofile` of the processes.
pub record System : Type 0 where
  pub file : ℕ → File
  pub ofile : ℕ → ℕ → ℕ
  pub ended : List Ended

abbrev pub set_file : ℕ → File → System → System
set_file f x s = record s { file = λ g. if g == f then x else s.file g }

abbrev pub set_ofile : ℕ → ℕ → ℕ → System → System
set_ofile p fd v s = record s {
  ofile = λ q e. if q == p then (if e == fd then v else s.ofile q e) else s.ofile q e;
}

-- The loop of `filealloc` from place `i` on.
unfoldable pub find_file : ℕ → ℕ → System → Option ℕ
find_file zero i s = none
find_file (suc left) i s =
    let rest = find_file left (i + 1) s in if (s.file i).ref == 0 then some i else rest

abbrev pub taken : ℕ → System → System
taken f s = set_file f (record (s.file f) { ref = 1 }) s

unfoldable pub filealloc : System → Option ℕ × System
filealloc s = elim (find_file nfile 0 s) [ none ↦ (none, s) | some f ↦ (some f, taken f s) ]

unfoldable pub filedup : ℕ → System → Option System
filedup f s =
    if (s.file f).ref == 0
    then none
    else some (set_file f (record (s.file f) { ref = (s.file f).ref + 1 }) s)

-- What `fileclose` gives up for a file without references.
unfoldable pub give_up : File → List Ended → List Ended
give_up ff ended = elim ff.type [
  | fd_none ↦ ended
  | fd_pipe ↦ pipeclose ff.pipe ff.writable ∷ ended
  | fd_inode ↦ iput ff.ip ∷ ended
  | fd_device ↦ iput ff.ip ∷ ended
]

abbrev pub dropped : ℕ → System → System
dropped f s =
    let ff = s.file f in
    if ff.ref - 1 == 0
    then record (set_file f (record ff { ref = 0; type = fd_none }) s) {
      ended = give_up ff s.ended;
    }
    else set_file f (record ff { ref = ff.ref - 1 }) s

unfoldable pub fileclose : ℕ → System → Option System
fileclose f s = if (s.file f).ref == 0 then none else some (dropped f s)

-- `argfd`, for a descriptor that is not negative.
unfoldable pub argfd : ℕ → ℕ → System → Option ℕ
argfd p fd s = if leb nofile fd || s.ofile p fd == 0 then none else some (s.ofile p fd - 1)

-- The loop of `fdalloc` from descriptor `fd` on.
unfoldable pub fdalloc_from : ℕ → ℕ → ℕ → ℕ → System → Option ℕ × System
fdalloc_from zero fd p f s = (none, s)
fdalloc_from (suc left) fd p f s =
    let rest = fdalloc_from left (fd + 1) p f s in
    if s.ofile p fd == 0 then (some fd, set_ofile p fd (f + 1) s) else rest

abbrev pub fdalloc : ℕ → ℕ → System → Option ℕ × System
fdalloc p f s = fdalloc_from nofile 0 p f s

-- The answer of a call, `none` for -1.
unfoldable pub sys_dup : ℕ → ℕ → System → Option (Option ℕ × System)
sys_dup p old s = elim (argfd p old s) [
  | none ↦ some (none, s)
  | some f ↦
      let (new, s₁) = fdalloc p f s in
      elim new [
        | none ↦ some (none, s₁)
        | some fd ↦ elim (filedup f s₁) [ none ↦ none | some s₂ ↦ some (some fd, s₂) ]
      ]
]

unfoldable pub sys_close : ℕ → ℕ → System → Option (Option ℕ × System)
sys_close p fd s = elim (argfd p fd s) [
  | none ↦ some (none, s)
  | some f ↦ elim (fileclose f (set_ofile p fd 0 s)) [ none ↦ none | some s₁ ↦ some (some 0, s₁) ]
]

-- The last part of `sys_open`: a file and a descriptor for it, then the fields of the file, those of
-- `x`.
unfoldable pub open_file : ℕ → File → System → Option (Option ℕ × System)
open_file p x s =
    let (got, s₁) = filealloc s in
    elim got [
      | none ↦ some (none, s₁)
      | some f ↦
          let (new, s₂) = fdalloc p f s₁ in
          elim new [
            | none ↦ elim (fileclose f s₂) [ none ↦ none | some s₃ ↦ some (none, s₃) ]
            | some fd ↦ some (some fd, set_file f (record x { ref = (s₂.file f).ref }) s₂)
          ]
    ]

-- The loop of `fork` over the descriptors.
unfoldable pub fork_files : ℕ → ℕ → ℕ → ℕ → System → Option System
fork_files zero fd p np s = some s
fork_files (suc left) fd p np s = elim (s.ofile p fd == 0) [
  | true ↦ fork_files left (fd + 1) p np s
  | false ↦ elim (filedup (s.ofile p fd - 1) s) [
    | none ↦ none
    | some s₁ ↦ fork_files left (fd + 1) p np (set_ofile np fd (s.ofile p fd) s₁)
  ]
]

-- The loop of `exit` over the descriptors.
unfoldable pub exit_files : ℕ → ℕ → ℕ → System → Option System
exit_files zero fd p s = some s
exit_files (suc left) fd p s = elim (s.ofile p fd == 0) [
  | true ↦ exit_files left (fd + 1) p s
  | false ↦ elim (fileclose (s.ofile p fd - 1) s) [
    | none ↦ none
    | some s₁ ↦ exit_files left (fd + 1) p (set_ofile p fd 0 s₁)
  ]
]
