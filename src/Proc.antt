-- ===== src/Proc.antt =====
-- The process table and the scheduler of assignment 4, kernel/proc.c. What a call does under one hold of
-- a process's lock, or to one entry under `wait_lock`, is a function of its own, and the call by itself
-- is their sequence; the locks are in Spin.
pub mod Wakeup
pub mod Invariant
pub mod Steps
pub mod Parents
pub mod Zombie
mod Tests
use advanced_operating_syste.Prelude.{
  ℕ, zero, suc, ◌+◌, ◌-◌, ◌*◌, ◌/◌, ◌%◌, ◌^◌, ◌≤◌, ◌<◌, ◌≡◌, ◌≢◌, refl, sym, ap, subst, ◌∙◌,
  fun_ext, ◌↔◌, ◌⊎◌, inl, inr, Bool, true, false, not, ◌&&◌, ◌||◌, ◌==◌, ltb, leb, if◌then◌else◌,
  bit_and, bit_or, Option, none, some, List, [], ◌∷◌, ◌++◌, map, length, get_elem?, get_or, set,
  take, drop, replicate, Outcome, ok, panic, fault, deref, ◌>>=◌, >>=-eq-ok, arith, ℕ_discrete,
  if_cases, ok-injective, Bool-cases, Option-cases, get_or-set_self, get_or-set_ne, length-set,
  get_or-set_lem, set-set, set-get_or, dec_lt, length-append, length-replicate,
}
use advanced_operating_syste.Prelude.Maps.{put}
use advanced_operating_syste.Files.{File, Call, iput, idup, filedup, fileclose}

-- NPROC
abbrev pub nproc : ℕ
nproc = 64

-- `enum procstate`
pub data ProcState : Type 0 where
  unused used sleeping runnable running zombie : ProcState

abbrev pub is_unused : ProcState → Bool
is_unused unused = true
is_unused used = false
is_unused sleeping = false
is_unused runnable = false
is_unused running = false
is_unused zombie = false

abbrev pub is_sleeping : ProcState → Bool
is_sleeping unused = false
is_sleeping used = false
is_sleeping sleeping = true
is_sleeping runnable = false
is_sleeping running = false
is_sleeping zombie = false

abbrev pub is_runnable : ProcState → Bool
is_runnable unused = false
is_runnable used = false
is_runnable sleeping = false
is_runnable runnable = true
is_runnable running = false
is_runnable zombie = false

abbrev pub is_running : ProcState → Bool
is_running unused = false
is_running used = false
is_running sleeping = false
is_running runnable = false
is_running running = true
is_running zombie = false

abbrev pub is_zombie : ProcState → Bool
is_zombie unused = false
is_zombie used = false
is_zombie sleeping = false
is_zombie runnable = false
is_zombie running = false
is_zombie zombie = true

-- Where the saved context of a process goes on: in `forkret`, or behind the call of `sched` in one of
-- its callers.
pub data Resume : Type 0 where
  in_forkret in_yield in_sleep in_exit : Resume

abbrev pub is_in_sleep : Resume → Bool
is_in_sleep in_forkret = false
is_in_sleep in_yield = false
is_in_sleep in_sleep = true
is_in_sleep in_exit = false

-- `struct proc`, less its memory, its name and its lock. `parent` and `cwd` are null at `none`.
pub record Proc : Type 0 where
  pub state : ProcState
  pub chan : ℕ
  pub killed : ℕ
  pub xstate : ℕ
  pub pid : ℕ
  pub parent : Option ℕ
  pub sz : ℕ
  pub context : Resume
  pub ofile : List (Option ℕ)
  pub cwd : Option ℕ

-- `proc[]`, `cpus[].proc` and `cpus[].noff`, `nextpid`, `initproc`, the table of files, and the calls made of fs.c.
pub record World : Type 0 where
  pub procs : ℕ → Proc
  pub cpu : ℕ → Option ℕ
  pub noff : ℕ → ℕ
  pub nextpid : ℕ
  pub initproc : ℕ
  pub files : ℕ → File
  pub calls : List Call

-- The address of an entry of `proc[]` as a channel; a null pointer is the channel 0.
abbrev pub chan_of : Option ℕ → ℕ
chan_of none = 0
chan_of (some i) = i + 1

abbrev pub is_proc : Option ℕ → ℕ → Bool
is_proc none i = false
is_proc (some k) i = k == i

abbrev pub with_proc : World → ℕ → Proc → World
with_proc w i p = record w { procs = put w.procs i p }

-- `freeproc`
abbrev pub freeproc : Proc → Proc
freeproc p = record p {
  sz = 0;
  pid = 0;
  parent = none;
  chan = 0;
  killed = 0;
  xstate = 0;
  state = unused;
}

-- `allocpid`, with a `nextpid` of 32 bits.
abbrev pub allocpid : World → ℕ × World
allocpid w = (w.nextpid, record w { nextpid = (w.nextpid + 1) % 2 ^ 32 })

-- The scan of `allocproc`, `n` more entries from `i` on.
unfoldable pub find_unused : ℕ → ℕ → (ℕ → Proc) → Option ℕ
find_unused zero i procs = none
find_unused (suc n) i procs =
    let rest = find_unused n (i + 1) procs in if is_unused (procs i).state then some i else rest

-- `allocproc` behind the label `found`. The pages for the trapframe and the page table are there, or not.
abbrev pub alloc_found : Bool → World → ℕ → Option ℕ × World
alloc_found pages w i =
    let (pid, w1) = allocpid w in
    let p = record (w1.procs i) { pid = pid; state = used } in
    if pages
    then (some i, with_proc w1 i (record p { context = in_forkret }))
    else (none, with_proc w1 i (freeproc p))

unfoldable pub allocproc : Bool → World → Option ℕ × World
unfolding find_unused
allocproc pages w = elim (find_unused nproc 0 w.procs) [
  | none ↦ (none, w)
  | some i ↦ alloc_found pages w i
]

-- The loop of `fork` that counts the parent's open files.
unfoldable pub dup_all : List (Option ℕ) → (ℕ → File) → Outcome (ℕ → File)
unfolding filedup
dup_all [] fs = ok fs
dup_all (none ∷ rest) fs = dup_all rest fs
dup_all (some f ∷ rest) fs = do fs' ← filedup f fs; dup_all rest fs'

abbrev pub inherit : List (Option ℕ) → List (Option ℕ) → List (Option ℕ)
inherit [] theirs = theirs
inherit (p ∷ ps) [] = []
inherit (none ∷ ps) (c ∷ cs) = c ∷ inherit ps cs
inherit (some f ∷ ps) (c ∷ cs) = some f ∷ inherit ps cs

-- `fork` from the copy of the memory, which succeeds or not, to the release of the new entry `i`.
unfoldable pub fork_into : ℕ → Bool → World → ℕ → Outcome (Option ℕ × World)
unfolding dup_all
fork_into me copied w i =
    let p = w.procs me in
    let np = w.procs i in
    if not copied then ok (none, with_proc w i (freeproc np)) else do
      fs ← dup_all p.ofile w.files
      dir ← deref p.cwd
      ok (
        some np.pid,
        record (with_proc w i
            (record np { sz = p.sz; ofile = inherit p.ofile np.ofile; cwd = some dir })) {
              files = fs;
              calls = w.calls ++ idup dir ∷ [];
            },
      )

-- `np->parent = p` under `wait_lock`, and `np->state = RUNNABLE` under the lock of the entry.
abbrev pub adopt : ℕ → ℕ → World → World
adopt me i w = with_proc w i (record (w.procs i) { parent = some me })

abbrev pub make_ready : ℕ → World → World
make_ready i w = with_proc w i (record (w.procs i) { state = runnable })

-- `fork` by itself.
unfoldable pub fork : ℕ → Bool → Bool → World → Outcome (Option ℕ × World)
unfolding allocproc fork_into
fork me pages copied w =
    let (np, w1) = allocproc pages w in
    elim np [
      | none ↦ ok (none, w1)
      | some i ↦ do
        (pid, w2) ← fork_into me copied w1 i
        ok (elim pid [ none ↦ (none, w2) | some n ↦ (some n, make_ready i (adopt me i w2)) ])
    ]

-- The entry that `wakeup` looks at.
abbrev pub wake_one : ℕ → Proc → Proc
wake_one chan p = if is_sleeping p.state && p.chan == chan then record p { state = runnable } else p

-- A round of `wakeup`; `me` is `myproc()`.
abbrev pub wake_at : Option ℕ → ℕ → ℕ → World → World
wake_at me chan i w = if is_proc me i then w else with_proc w i (wake_one chan (w.procs i))

-- The loop of `wakeup`, `n` more entries from `i` on; `me` is `myproc()`.
unfoldable pub wake_from : ℕ → ℕ → Option ℕ → ℕ → (ℕ → Proc) → ℕ → Proc
wake_from zero i me chan procs = procs
wake_from (suc n) i me chan procs =
    wake_from n (i + 1) me chan
      (if is_proc me i then procs else put procs i (wake_one chan (procs i)))

unfoldable pub wakeup : Option ℕ → ℕ → World → World
unfolding wake_from
wakeup me chan w = record w { procs = wake_from nproc 0 me chan w.procs }

-- A child given to the first process in `reparent`.
abbrev pub orphan : ℕ → ℕ → World → World
orphan me i w =
    if is_proc (w.procs i).parent me
    then with_proc w i (record (w.procs i) { parent = some w.initproc })
    else w

-- The loop of `reparent`.
unfoldable pub reparent_from : ℕ → ℕ → ℕ → World → World
unfolding wakeup
reparent_from zero i me w = w
reparent_from (suc n) i me w = reparent_from n (i + 1) me (
    if is_proc (w.procs i).parent me
    then wakeup (some me) (chan_of (some w.initproc))
        (with_proc w i (record (w.procs i) { parent = some w.initproc }))
    else w)

-- `sched`, to the scheduler's `c->proc = 0`. `held` says whether the CPU holds the lock of the process,
-- `noff` is the depth of its masks, and `intr` says whether its interrupts are on.
unfoldable pub sched : Bool → ℕ → Bool → ℕ → ℕ → World → Outcome World
sched held noff intr c me w =
    if not held
    then panic
    else if not (noff == 1)
    then panic
    else if is_running (w.procs me).state
    then panic
    else if intr
    then panic
    else ok (record w { cpu = put w.cpu c none })

-- The loop of `exit` that closes the open files.
unfoldable pub close_all : List (Option ℕ) → (ℕ → File) → Outcome (List Call × (ℕ → File))
unfolding fileclose
close_all [] fs = ok ([], fs)
close_all (none ∷ rest) fs = close_all rest fs
close_all (some f ∷ rest) fs = do
  (calls, fs1) ← fileclose f fs
  (more, fs2) ← close_all rest fs1
  ok (calls ++ more, fs2)

-- `exit` up to the transaction that drops the directory.
unfoldable pub exit_files : ℕ → World → Outcome World
unfolding close_all
exit_files me w = do
  let p = w.procs me
  (calls, fs) ← close_all p.ofile w.files
  dir ← deref p.cwd
  ok (record (with_proc w me (record p { ofile = map (λ _. none) p.ofile; cwd = none })) {
    files = fs;
    calls = w.calls ++ calls ++ iput dir ∷ [];
  })

-- A round of that loop, and the drop of the directory.
unfoldable pub close_fd : ℕ → ℕ → World → Outcome World
unfolding fileclose
close_fd me fd w =
    let p = w.procs me in
    elim (get_or p.ofile fd none) [
      | none ↦ ok w
      | some f ↦ do
        (calls, fs) ← fileclose f w.files
        ok (record (with_proc w me (record p { ofile = set p.ofile fd none })) {
          files = fs;
          calls = w.calls ++ calls;
        })
    ]

unfoldable pub drop_dir : ℕ → World → Outcome World
drop_dir me w = do
  let p = w.procs me
  dir ← deref p.cwd
  ok (record (with_proc w me (record p { cwd = none })) { calls = w.calls ++ iput dir ∷ [] })

-- `exit` from `acquire(&p->lock)` on. Interrupts are off under that lock, and `wait_lock`, which is
-- held before it, is released before `sched`.
unfoldable pub exit_end : ℕ → ℕ → ℕ → World → Outcome World
unfolding sched
exit_end c me status w =
    sched true (w.noff c + 1) false c me
      (with_proc w me (record (w.procs me) { xstate = status; state = zombie; context = in_exit }))

-- `exit` on the CPU `c`, by itself.
unfoldable pub exit : ℕ → ℕ → ℕ → World → Outcome World
unfolding exit_files reparent_from wakeup exit_end
exit c me status w = if me == w.initproc then panic else do
  w1 ← exit_files me w
  let w2 = reparent_from nproc 0 me w1
  let w3 = wakeup (some me) (chan_of (w2.procs me).parent) w2
  exit_end c me status w3

-- What a scan of `wait` ends with: a zombie, a bad address for its status, or the end of the table.
pub data Scan : Type 0 where
  found : ℕ → Scan
  bad_address : Scan
  at_end : Bool → Scan

-- `copied` says whether the status can be copied to the caller's address.
unfoldable pub wait_scan : ℕ → ℕ → ℕ → Bool → Bool → (ℕ → Proc) → Scan
wait_scan zero i me copied havekids procs = at_end havekids
wait_scan (suc n) i me copied havekids procs =
    let child = is_proc (procs i).parent me in
    let rest = wait_scan n (i + 1) me copied (havekids || child) procs in
    if child && is_zombie (procs i).state then (if copied then found i else bad_address) else rest

-- The end of a zombie child in `wait`.
abbrev pub reap : ℕ → ℕ → World → World
reap me i w =
    if is_proc (w.procs i).parent me && is_zombie (w.procs i).state
    then with_proc w i (freeproc (w.procs i))
    else w

-- `sleep` up to the switch, on the CPU `c`, where the caller has its masks `depth` deep with the lock
-- that it gives, which goes for the lock of the process.
unfoldable pub sleep : ℕ → ℕ → ℕ → ℕ → World → Outcome World
unfolding sched
sleep depth c me chan w =
    sched true depth false c me
      (with_proc w me (record (w.procs me) { chan = chan; state = sleeping; context = in_sleep }))

-- What a round of `wait` comes to: the pid of the child and its status, a failure, or sleep.
pub data Waited : Type 0 where
  reaped : ℕ → ℕ → Waited
  failed asleep : Waited

unfoldable pub wait : ℕ → ℕ → Bool → World → Outcome (Waited × World)
unfolding wait_scan sleep
wait c me copied w = elim (wait_scan nproc 0 me copied false w.procs) [
  | found i ↦ ok (reaped (w.procs i).pid (w.procs i).xstate, with_proc w i (freeproc (w.procs i)))
  | bad_address ↦ ok (failed, w)
  | at_end havekids ↦
      if not havekids || not ((w.procs me).killed == 0)
      then ok (failed, w)
      else (do w' ← sleep (w.noff c + 1) c me (chan_of (some me)) w; ok (asleep, w'))
]

-- The scheduler on the CPU `c` at the entry `i`, to the release of its lock in the process: one that
-- comes back into `sleep` clears its channel before that.
unfoldable pub schedule : ℕ → ℕ → World → World
schedule c i w =
    let p = w.procs i in
    if is_runnable p.state
    then record (with_proc w i
        (record p { state = running; chan = if is_in_sleep p.context then 0 else p.chan })) {
          cpu = put w.cpu c (some i);
        }
    else w

unfoldable pub yield : ℕ → ℕ → World → Outcome World
unfolding sched
yield c me w =
    sched true (w.noff c + 1) false c me
      (with_proc w me (record (w.procs me) { state = runnable; context = in_yield }))

abbrev pub kill_one : Proc → Proc
kill_one p = record p { killed = 1; state = if is_sleeping p.state then runnable else p.state }

-- A round of `kill`.
abbrev pub kill_at : ℕ → ℕ → World → World
kill_at pid i w = if (w.procs i).pid == pid then with_proc w i (kill_one (w.procs i)) else w

-- The loop of `kill`; it returns 0 at `true` and -1 at `false`.
unfoldable pub kill_from : ℕ → ℕ → ℕ → (ℕ → Proc) → Bool × (ℕ → Proc)
kill_from zero i pid procs = (false, procs)
kill_from (suc n) i pid procs =
    let rest = kill_from n (i + 1) pid procs in
    if (procs i).pid == pid then (true, put procs i (kill_one (procs i))) else rest

unfoldable pub kill : ℕ → World → Bool × World
unfolding kill_from
kill pid w = let (done, procs) = kill_from nproc 0 pid w.procs in (done, record w { procs = procs })

abbrev pub setkilled : ℕ → World → World
setkilled i w = with_proc w i (record (w.procs i) { killed = 1 })
