-- ===== src/Threads.antt =====
-- The user-level threading library, user/ulthread.c and user/ulthread.h of assignment 3: the
-- thread table, and each call up to the switch of contexts that ends it.
pub mod Table
pub mod Pick
pub mod Priority
pub mod Count
pub mod Ids
pub mod Steps
mod Tests
use advanced_operating_syste.Prelude.{
  ℕ, zero, suc, ◌+◌, ◌-◌, ◌*◌, ◌/◌, ◌%◌, ◌^◌, ◌≤◌, ◌<◌, ◌≡◌, ◌≢◌, refl, sym, ap, subst, ◌∙◌,
  fun_ext, ◌↔◌, ◌⊎◌, inl, inr, Bool, true, false, not, ◌&&◌, ◌||◌, ◌==◌, ltb, leb, if◌then◌else◌,
  bit_and, bit_or, Option, none, some, List, [], ◌∷◌, ◌++◌, map, length, get_elem?, get_or, set,
  take, drop, replicate, Outcome, ok, panic, fault, deref, ◌>>=◌, >>=-eq-ok, arith, ℕ_discrete,
  if_cases, ok-injective, Bool-cases, Option-cases, get_or-set_self, get_or-set_ne, length-set,
}
use advanced_operating_syste.Prelude.Int.{ℤ, pos, negsuc, ltb_ℤ, ◌+ℤ◌, ◌-ℤ◌}

-- `enum ulthread_state`
pub data State : Type 0 where
  free : State
  runnable : State
  yielding : State

-- `enum ulthread_scheduling_algorithm`
pub data Algorithm : Type 0 where
  round_robin : Algorithm
  priority : Algorithm
  fcfs : Algorithm

-- `struct context`: the words ra, sp, s0 to s11 and a0 to a5.
abbrev pub Context : Type 0
Context = List ℕ

-- `struct uthread`
pub record Uthread : Type 0 where
  pub tid : ℤ
  pub prio : ℤ
  pub time : ℕ
  pub start_func : ℕ
  pub stack_pointer : ℕ
  pub state : State
  pub context : Context

-- (uint64)-1
abbrev pub max_word : ℕ
max_word = 2 ^ 64 - 1

-- The fields that `ulthread_init` and `ulthread_destroy` write.
abbrev pub cleared : Uthread → Uthread
cleared u = record u {
  tid = negsuc 0;
  prio = negsuc 0;
  state = free;
  start_func = max_word;
  stack_pointer = max_word;
  time = max_word;
}

abbrev pub no_thread : Uthread
no_thread = record {
  tid = negsuc 0;
  prio = negsuc 0;
  time = max_word;
  start_func = max_word;
  stack_pointer = max_word;
  state = free;
  context = [];
}

-- The globals of ulthread.c. A `struct uthread *` is an index of `uthreads`; `none` is NULL.
pub record Threads : Type 0 where
  pub uthreads : List Uthread
  pub schedalgo : Algorithm
  pub current : Option ℕ
  pub last_yielded : Option ℕ
  pub thread_count : ℤ

abbrev pub slot : List Uthread → ℕ → Uthread
slot us i = get_or us i no_thread

abbrev pub is_free : Uthread → Bool
is_free u = elim (u.state) [ free ↦ true | _ ↦ false ]

abbrev pub is_runnable : Uthread → Bool
is_runnable u = elim (u.state) [ runnable ↦ true | _ ↦ false ]

abbrev pub same_tid : ℤ → ℤ → Bool
same_tid a b = not (ltb_ℤ a b) && not (ltb_ℤ b a)

pub ulthread_init : Algorithm → Threads → Threads
ulthread_init algo t = record t { uthreads = map cleared t.uthreads; schedalgo = algo }

-- The first index from `i` on whose thread passes a test.
unfoldable pub find : (Uthread → Bool) → List Uthread → ℕ → Option ℕ
find test [] i = none
find test (u ∷ us) i = let rest = find test us (i + 1) in if test u then some i else rest

-- The thread that `ulthread_create` puts in a slot: `now` is what `ctime` returns, `args` are the
-- six words of the array.
abbrev pub created : ℤ → ℕ → ℕ → List ℕ → ℤ → ℕ → Uthread
created tid start stack args prio now = record {
  tid = tid;
  prio = prio;
  time = now;
  start_func = start;
  stack_pointer = stack;
  state = runnable;
  context = start ∷ stack ∷ replicate 12 0 ++ take 6 args;
}

-- Without a free slot the index stays -1, and the writes go in front of the array.
pub ulthread_create : ℕ → ℕ → List ℕ → ℤ → ℕ → Threads → Outcome Threads
unfolding find
ulthread_create start stack args prio now t = elim (find is_free t.uthreads 0) [
  | none ↦ fault
  | some i ↦ ok (record t {
    uthreads = set t.uthreads i (created t.thread_count start stack args prio now);
    thread_count = t.thread_count +ℤ pos 1;
  })
]

-- The loop for FCFS and the loop for ROUNDROBIN, from slot `i` on; `c` is the current thread.
unfoldable pub pick_oldest : List Uthread → List Uthread → ℕ → ℕ → ℕ
pick_oldest us [] i c = c
pick_oldest us (u ∷ rest) i c =
    pick_oldest us rest (i + 1) (if is_runnable u && ltb u.time (slot us c).time then i else c)

-- The body of the loop for PRIORITY at slot `i`; `last` is `last_yielded_thread->tid`.
abbrev pub prefer : List Uthread → ℤ → Uthread → ℕ → ℕ → ℕ
prefer us last u i c =
    if not (is_runnable u)
    then c
    else if same_tid (slot us c).tid last && not (same_tid u.tid last)
    then i
    else if not (same_tid u.tid last) && not (ltb_ℤ u.prio (slot us c).prio)
    then i
    else c

unfoldable pub pick_priority : List Uthread → ℤ → List Uthread → ℕ → ℕ → ℕ
pick_priority us last [] i c = c
pick_priority us last (u ∷ rest) i c = pick_priority us last rest (i + 1) (prefer us last u i c)

-- Where no thread is current, the round starts from the first that is runnable.
abbrev pub start_of : Threads → Option ℕ
start_of t = elim (t.current) [ none ↦ find is_runnable t.uthreads 0 | some c ↦ some c ]

-- `word0` is the `int` at user address 0, where the program's text is mapped: what the code reads
-- as `last_yielded_thread->tid` before any thread has yielded.
module _ (word0 : ℤ) where
  abbrev pub last_tid : Threads → ℤ
  last_tid t = elim (t.last_yielded) [ none ↦ word0 | some l ↦ (slot t.uthreads l).tid ]

  abbrev pub pick : Threads → ℕ → ℕ
  pick t c = elim (t.schedalgo) [
    | priority ↦ pick_priority t.uthreads (last_tid t) t.uthreads 0 c
    | _ ↦ pick_oldest t.uthreads t.uthreads 0 c
  ]

  -- One round of `ulthread_schedule`, up to its switch to the thread that it leaves in `current`.
  pub choose : Threads → Outcome Threads
  unfolding find pick_oldest pick_priority
  choose t = elim (start_of t) [
    | none ↦ fault
    | some c ↦ ok (record t { current = some (pick t c) })
  ]

-- `ulthread_yield`, up to its switch to the scheduler.
pub ulthread_yield : ℕ → Threads → Outcome Threads
ulthread_yield now t = do
  c ← deref t.current
  let u = slot t.uthreads c
  let us : List Uthread = elim (t.schedalgo) [
    | fcfs ↦ t.uthreads
    | _ ↦ set t.uthreads c (record u { time = now })
  ]
  ok (record t { uthreads = us; last_yielded = some c })

-- `ulthread_destroy`, up to its switch to the scheduler.
pub ulthread_destroy : Threads → Outcome Threads
unfolding find
ulthread_destroy t = do
  c ← deref t.current
  let us : List Uthread = elim (find (λ u. same_tid u.tid (slot t.uthreads c).tid) t.uthreads 0) [
    | none ↦ t.uthreads
    | some i ↦ set t.uthreads i (cleared (slot t.uthreads i))
  ]
  ok (record t { uthreads = us; last_yielded = some c; thread_count = t.thread_count -ℤ pos 1 })
