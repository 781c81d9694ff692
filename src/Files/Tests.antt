-- ===== src/Files/Tests.antt =====
-- Runs of calls from the start.
use cuhksz_operating_system.Prelude.{
  ℕ, ◌+◌, ◌≤◌, ◌≡◌, ◌⊎◌, refl, true, false, Option, none, some, List, [], ◌∷◌, arith,
}
use cuhksz_operating_system.Files.{
  nofile, fd_pipe, File, Ended, pipeclose, System, set_file, set_ofile, sys_dup, sys_close,
  open_file, exit_files, filealloc, find_file, fdalloc_from, argfd, filedup, fileclose, give_up,
}
use cuhksz_operating_system.Files.Counted.{IsCounted, add-IsCounted}
use cuhksz_operating_system.Files.Calls.{Closed, sys_close-Closed}
use cuhksz_operating_system.Files.Runs.{
  Call, opened, copied, closed, exited, run, run_all, AllAllowed, run_all-IsCounted, boot,
  boot-IsCounted,
}

abbrev pipe_end : File
pipe_end = record {
  type = fd_pipe;
  ref = 0;
  readable = false;
  writable = true;
  pipe = 7;
  ip = 0;
  off = 0;
  major = 0;
}

abbrev calls : List Call
calls = opened 1 pipe_end ∷ copied 1 0 ∷ closed 1 0 ∷ exited 1 ∷ []

abbrev ends : Option System → Option (List Ended)
ends none = none
ends (some s) = some s.ended

-- The pipe end is closed once, by the exit.
ends_once : ends (run_all calls boot) ≡ some (pipeclose 7 true ∷ [])
unfolding run_all run sys_dup sys_close open_file exit_files filealloc find_file fdalloc_from argfd
    filedup fileclose give_up
ends_once = refl

calls_allowed : AllAllowed calls boot
unfolding AllAllowed
calls_allowed =
    (omega arith, λ a e. (omega arith, λ b e'. (omega arith, λ c e''. (omega arith, λ d e'''. tt))))

run_all-IsCounted_example : (s' : System) × (run_all calls boot ≡ some s') × IsCounted s'
run_all-IsCounted_example = run_all-IsCounted calls boot boot-IsCounted calls_allowed

-- Descriptor 0 of process 1 is the only one of file 0.
abbrev one_file : File
one_file = record pipe_end { ref = 1 }

abbrev one_open : System
one_open = set_file 0 one_file (set_ofile 1 0 1 boot)

one_open-IsCounted : IsCounted one_open
one_open-IsCounted =
    add-IsCounted 1 0 (omega arith) (omega arith) 0 (omega arith) boot boot-IsCounted one_file refl
      refl

sys_close-Closed_example :
    ((sys_close 1 0 one_open ≡ some (none, one_open)) × ((nofile ≤ 0) ⊎ (one_open.ofile 1 0 ≡ 0)))
    ⊎ ((f : ℕ) × (s' : System) × (one_open.ofile 1 0 ≡ f + 1) × Closed 1 0 f one_open s')
sys_close-Closed_example = sys_close-Closed 1 0 one_open one_open-IsCounted (omega arith)
