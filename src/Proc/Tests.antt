-- ===== src/Proc/Tests.antt =====
-- `init` in slot 0 and a child of it in slot 1: fork, exit and wait.
use mathlib.Core.Path.{subst}
use cuhksz_operating_system.Prelude.{
  ℕ, ◌+◌, ◌<◌, ◌≡◌, ◌≢◌, refl, ◌⊎◌, Bool, true, false, Option, none, some, ◌==◌, if◌then◌else◌,
  arith, ==→eq,
}
use cuhksz_operating_system.Proc.{
  kill_from, kill, wakeup, sleeping, runnable, fork_into, allocproc, find_unused, set_up, Procstate,
  running, zombie, is_unused, Proc, Table, nproc, freed, fork, wakeup_from, reparent_from, exit,
  Waited, reaped, failed, wait_from, wait,
}
use cuhksz_operating_system.Proc.Valid.{live, IsValid}
use cuhksz_operating_system.Proc.Family.{Exited, exit-Exited}
use cuhksz_operating_system.Proc.Wait.{Waits, wait-Waits}
use cuhksz_operating_system.Proc.Signal.{waits_on, wakeup-wakes, Kills, kill-Kills}
use cuhksz_operating_system.Proc.Fork.{Forked, fork-Forked}

abbrev process : Procstate → ℕ → Option ℕ → Proc
process s pid parent = record {
  state = s;
  chan = 0;
  killed = false;
  xstate = 5;
  pid = pid;
  parent = parent;
  trapframe = true;
  pagetable = true;
  sz = 4096;
}

abbrev address : ℕ → ℕ
address i = i + 1000

-- The child's state is the argument.
abbrev two : Procstate → Table
two s = record {
  procs = λ j.
      if j == 0 then process running 1 none else if j == 1 then process s 2 (some 0) else freed;
  nextpid = 3;
  initproc = 0;
}

two-IsValid : (s : Procstate) → is_unused s ≡ false → IsValid (two s)
two-IsValid s in_use = record {
  init_low = omega arith;
  init_live = refl;
  fresh = omega arith;
  parents = λ j q h e.
      let root : 0 ≡ q = ground (arith, e) in
      subst (λ k. (k < nproc) × (live ((two s).procs k).state ≡ true)) root (omega arith, refl);
  no_parent = λ j h e. ground (arith, e, in_use);
  kin = λ j h e ne e'. ground (arith, e, e', ne, ==→eq j 0);
  empty = λ j h e. (ground (arith, e, in_use), ground (arith, e, in_use));
  full = λ j h e. (ground (arith, e), ground (arith, e), ground (arith, e), ground (arith, e));
  apart =
      λ j k hj hk ej ek e. ground (arith, ej, ek, e, ==→eq j 0, ==→eq k 0, ==→eq j 1, ==→eq k 1);
}

-- The child ends with status 9, and `init` collects it.
abbrev after_exit : Option Table → Waited
after_exit none = failed
after_exit (some t) = (wait address 0 true t).0

exit_then_wait : after_exit (exit address 1 9 (two running)) ≡ reaped 2 9
unfolding exit reparent_from wakeup_from wait_from
exit_then_wait = refl

exit-Exited_example :
    ((1 ≡ (two running).initproc) × (exit address 1 9 (two running) ≡ none))
    ⊎ ((t' : Table) × (exit address 1 9 (two running) ≡ some t')
        × Exited address 1 9 (two running) t')
exit-Exited_example = exit-Exited address 1 9 (two running) (two-IsValid running refl) refl

wait-Waits_example :
    Waits address 0 true nproc 0 false
      (two zombie)
      (wait address 0 true (two zombie)).0
      (wait address 0 true (two zombie)).1
wait-Waits_example = wait-Waits address 0 true (two zombie) (two-IsValid zombie refl)

fork-Forked_example :
    Forked 1 true true true
      (two running)
      (fork 1 true true true (two running)).0
      (fork 1 true true true (two running)).1
fork-Forked_example =
    fork-Forked 1 (two running) (two-IsValid running refl) (omega arith) refl true true true

-- `init` in slot 0 sleeps on the address 1000.
abbrev dozing : Table
dozing = record {
  procs = λ j.
      if j == 0
      then record (process sleeping 1 none) { chan = 1000 }
      else if j == 1
      then process running 2 (some 0)
      else freed;
  nextpid = 3;
  initproc = 0;
}

wakeup-wakes_example :
    ((dozing.initproc ≢ 1)
      → waits_on 1000 (dozing.procs 0) ≡ true
      → (wakeup address 1000 1 dozing).procs 0 ≡ record (dozing.procs 0) { state = runnable })
    × ((dozing.initproc ≡ 1) ⊎ (waits_on 1000 (dozing.procs 0) ≡ false)
        → (wakeup address 1000 1 dozing).procs 0 ≡ dozing.procs 0)
wakeup-wakes_example = wakeup-wakes address 1000 1 dozing 0 (omega arith)

kill-Kills_example : Kills 1 nproc 0 dozing (kill 1 dozing).0 (kill 1 dozing).1
kill-Kills_example = kill-Kills 1 dozing

-- The process that the next `fork` makes, if the call answers.
abbrev newborn : Option ℕ × Table → Bool
newborn (none, t) = false
newborn (some n, t) = (t.procs 2).killed

-- `kill(0)` finds an unused slot, and the next process is born killed.
kill_zero : newborn (fork 1 true true true (kill 0 (two running)).1) ≡ true
unfolding kill_from fork fork_into allocproc find_unused set_up
kill_zero = refl
