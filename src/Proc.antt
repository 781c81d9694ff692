-- ===== src/Proc.antt =====
-- Assignment3/source/proc.c: the process table, from the creation of a process to its collection.
-- A slot of `proc[NPROC]` is named by its index, and its address is the argument `addr`. A function is
-- run as if alone from one sleep to the next. Of a trapframe and a page table only their presence is
-- kept; that an allocation or a copy succeeds is an argument of the call. Open files, the current
-- directory, the name and the saved registers are not in the state.
pub mod Valid
pub mod Family
pub mod Wait
pub mod Fork
pub mod Signal
mod Tests
use cuhksz_operating_system.Prelude.{
  ℕ, zero, suc, ◌+◌, Bool, true, false, not, ◌&&◌, ◌||◌, Option, none, some, ◌==◌, if◌then◌else◌,
}

-- NPROC
abbrev pub nproc : ℕ
nproc = 64

pub data Procstate : Type 0 where
  unused used sleeping runnable running zombie : Procstate

abbrev pub is_unused : Procstate → Bool
is_unused unused = true
is_unused used = false
is_unused sleeping = false
is_unused runnable = false
is_unused running = false
is_unused zombie = false

abbrev pub is_sleeping : Procstate → Bool
is_sleeping unused = false
is_sleeping used = false
is_sleeping sleeping = true
is_sleeping runnable = false
is_sleeping running = false
is_sleeping zombie = false

abbrev pub is_runnable : Procstate → Bool
is_runnable unused = false
is_runnable used = false
is_runnable sleeping = false
is_runnable runnable = true
is_runnable running = false
is_runnable zombie = false

abbrev pub is_zombie : Procstate → Bool
is_zombie unused = false
is_zombie used = false
is_zombie sleeping = false
is_zombie runnable = false
is_zombie running = false
is_zombie zombie = true

-- `struct proc`; a channel of 0 is none.
pub record Proc : Type 0 where
  pub state : Procstate
  pub chan : ℕ
  pub killed : Bool
  pub xstate : ℕ
  pub pid : ℕ
  pub parent : Option ℕ
  pub trapframe : Bool
  pub pagetable : Bool
  pub sz : ℕ

pub record Table : Type 0 where
  pub procs : ℕ → Proc
  pub nextpid : ℕ
  pub initproc : ℕ

abbrev pub update : ℕ → Proc → Table → Table
update i q t = record t { procs = λ j. if j == i then q else t.procs j }

-- What `freeproc` leaves in a slot.
abbrev pub freed : Proc
freed = record {
  state = unused;
  chan = 0;
  killed = false;
  xstate = 0;
  pid = 0;
  parent = none;
  trapframe = false;
  pagetable = false;
  sz = 0;
}

abbrev pub freeproc : ℕ → Table → Table
freeproc i t = update i freed t

-- The loop of `allocproc` over the slots from `i` on.
unfoldable pub find_unused : ℕ → ℕ → Table → Option ℕ
find_unused zero i t = none
find_unused (suc left) i t =
    let rest = find_unused left (i + 1) t in if is_unused (t.procs i).state then some i else rest

-- From `found:` on, for slot `i`.
unfoldable pub set_up : Bool → Bool → ℕ → Table → Option ℕ × Table
set_up frame pages i t =
    let taken = record (t.procs i) { pid = t.nextpid; state = used } in
    let t₁ = record t { nextpid = t.nextpid + 1 } in
    if not frame
    then (none, freeproc i (update i taken t₁))
    else if not pages
    then (none, freeproc i (update i (record taken { trapframe = true }) t₁))
    else (some i, update i (record taken { trapframe = true; pagetable = true }) t₁)

unfoldable pub allocproc : Bool → Bool → Table → Option ℕ × Table
allocproc frame pages t = elim (find_unused nproc 0 t) [
  | none ↦ (none, t)
  | some i ↦ set_up frame pages i t
]

-- The rest of `fork` when `allocproc` has returned.
unfoldable pub fork_into : ℕ → Bool → Option ℕ × Table → Option ℕ × Table
fork_into p copied (none, t) = (none, t)
fork_into p copied (some i, t) =
    if copied
    then (
      some (t.procs i).pid,
      update i (record (t.procs i) { sz = (t.procs p).sz; parent = some p; state = runnable }) t,
    )
    else (none, freeproc i t)

-- `fork()` by the process of slot `p`; `none` is -1.
unfoldable pub fork : ℕ → Bool → Bool → Bool → Table → Option ℕ × Table
fork p frame pages copied t = fork_into p copied (allocproc frame pages t)

abbrev pub child_of : ℕ → Option ℕ → Bool
child_of p none = false
child_of p (some q) = q == p

-- How a round of `wait` ends.
pub data Waited : Type 0 where
  reaped : ℕ → ℕ → Waited  -- the child's pid and its exit status
  failed asleep : Waited

module _ (addr : ℕ → ℕ) where
  abbrev pub addr_of : Option ℕ → ℕ
  addr_of none = 0
  addr_of (some q) = addr q

  abbrev pub woken : ℕ → Proc → Proc
  woken chan q = if is_sleeping q.state && q.chan == chan then record q { state = runnable } else q

  -- The loop of `wakeup(chan)`, called by the process of slot `p`.
  unfoldable pub wakeup_from : ℕ → ℕ → ℕ → ℕ → Table → Table
  wakeup_from chan p zero i t = t
  wakeup_from chan p (suc left) i t =
      wakeup_from chan p left (i + 1) (if i == p then t else update i (woken chan (t.procs i)) t)

  abbrev pub wakeup : ℕ → ℕ → Table → Table
  wakeup chan p t = wakeup_from chan p nproc 0 t

  -- The loop of `reparent(p)`, called by `p`.
  unfoldable pub reparent_from : ℕ → ℕ → ℕ → Table → Table
  reparent_from p zero i t = t
  reparent_from p (suc left) i t = reparent_from p left (i + 1) (
      if child_of p (t.procs i).parent
      then wakeup (addr t.initproc) p (update i (record (t.procs i) { parent = some t.initproc }) t)
      else t)

  -- The last steps of `exit`.
  abbrev pub die : ℕ → ℕ → Table → Table
  die p status t = update p (record (t.procs p) { xstate = status; state = zombie }) t

  abbrev pub wake_parent : ℕ → Table → Table
  wake_parent p t = wakeup (addr_of (t.procs p).parent) p t

  -- `exit(status)` by slot `p`; `none` is the panic.
  unfoldable pub exit : ℕ → ℕ → Table → Option Table
  exit p status t =
      if p == t.initproc
      then none
      else some (die p status (wake_parent p (reparent_from p nproc 0 t)))

  -- `sleep(chan, lk)` up to the switch to the scheduler.
  abbrev pub sleep : ℕ → ℕ → Table → Table
  sleep chan p t = update p (record (t.procs p) { chan = chan; state = sleeping }) t

  -- One round of the endless loop of `wait`, from slot `i` on; `kids` is `havekids`.
  unfoldable pub wait_from : ℕ → Bool → ℕ → ℕ → Bool → Table → Waited × Table
  wait_from p copied zero i kids t =
      if not kids || (t.procs p).killed then (failed, t) else (asleep, sleep (addr p) p t)
  wait_from p copied (suc left) i kids t = elim (child_of p (t.procs i).parent) [
    | false ↦ wait_from p copied left (i + 1) kids t
    | true ↦ elim (is_zombie (t.procs i).state) [
      | false ↦ wait_from p copied left (i + 1) true t
      | true ↦
          if copied then (reaped (t.procs i).pid (t.procs i).xstate, freeproc i t) else (failed, t)
    ]
  ]

  abbrev pub wait : ℕ → Bool → Table → Waited × Table
  wait p copied t = wait_from p copied nproc 0 false t

-- What `kill` does to its victim.
abbrev pub victim : Proc → Proc
victim q = record q { killed = true; state = if is_sleeping q.state then runnable else q.state }

-- The loop of `kill(pid)`; the answer is whether the process was found.
unfoldable pub kill_from : ℕ → ℕ → ℕ → Table → Bool × Table
kill_from pid zero i t = (false, t)
kill_from pid (suc left) i t =
    let rest = kill_from pid left (i + 1) t in
    if (t.procs i).pid == pid then (true, update i (victim (t.procs i)) t) else rest

abbrev pub kill : ℕ → Table → Bool × Table
kill pid t = kill_from pid nproc 0 t

-- The scheduler's choice of slot `i`.
abbrev pub schedule : ℕ → Table → Table
schedule i t =
    if is_runnable (t.procs i).state then update i (record (t.procs i) { state = running }) t else t

-- `yield()` up to the switch to the scheduler.
abbrev pub yield : ℕ → Table → Table
yield p t = update p (record (t.procs p) { state = runnable }) t
