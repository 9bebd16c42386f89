-- ===== src/Spin.antt =====
-- The spinlocks of assignment 4, kernel/spinlock.c, and the nesting of interrupt masks on a CPU.
pub mod Nesting
pub mod Owner
pub mod Exclusion
pub mod Progress
mod Tests
use advanced_operating_syste.Prelude.{
  ℕ, zero, suc, ◌+◌, ◌-◌, ◌*◌, ◌/◌, ◌%◌, ◌^◌, ◌≤◌, ◌<◌, ◌≡◌, ◌≢◌, refl, sym, ap, subst, ◌∙◌,
  fun_ext, ◌↔◌, ◌⊎◌, inl, inr, Bool, true, false, not, ◌&&◌, ◌||◌, ◌==◌, ltb, leb, if◌then◌else◌,
  bit_and, bit_or, Option, none, some, List, [], ◌∷◌, ◌++◌, map, length, get_elem?, get_or, set,
  take, drop, replicate, Outcome, ok, panic, fault, deref, ◌>>=◌, >>=-eq-ok, arith, ℕ_discrete,
  if_cases, ok-injective, Bool-cases, Option-cases, get_or-set_self, get_or-set_ne, length-set,
  get_or-set_lem, set-set, set-get_or, dec_lt, length-append, length-replicate,
}
use advanced_operating_syste.Prelude.Maps.{put}

-- What `struct cpu` keeps for the locks, and the interrupt enable bit of the CPU.
pub record Cpu : Type 0 where
  pub noff : ℕ
  pub intena : Bool
  pub sie : Bool

-- `struct spinlock`; `cpu` is a null pointer at `none`.
pub record Lock : Type 0 where
  pub locked : Bool
  pub cpu : Option ℕ

abbrev pub initlock : Lock
initlock = record { locked = false; cpu = none }

-- `noff` is an int of 32 bits.
unfoldable pub push_off : Cpu → Cpu
push_off c = record c {
  noff = (c.noff + 1) % 2 ^ 32;
  intena = if c.noff == 0 then c.sie else c.intena;
  sie = false;
}

-- `c->noff < 1` holds of 0 and of what is negative.
unfoldable pub pop_off : Cpu → Outcome Cpu
pop_off c =
    if c.sie
    then panic
    else if c.noff == 0 || leb (2 ^ 31) c.noff
    then panic
    else ok (record c { noff = c.noff - 1; sie = c.noff == 1 && c.intena })

abbrev pub is_cpu : Option ℕ → ℕ → Bool
is_cpu none me = false
is_cpu (some c) me = c == me

-- Where a CPU is: outside the lock; in `acquire` after `holding` read `lk->locked` as set, in the loop
-- and after its swap; between `acquire` and `release`; in `release` after `holding` read `lk->locked`
-- and after it read `lk->cpu`, after `lk->cpu = 0` and after the swap back.
pub data Pc : Type 0 where
  outside checking spinning taken inside releasing checked cleared unlocked : Pc

-- One lock and the CPUs that use it.
pub record World : Type 0 where
  pub lock : Lock
  pub pcs : ℕ → Pc
  pub cpus : ℕ → Cpu

-- `__sync_lock_test_and_set(&lk->locked, 1)`
abbrev pub test_and_set : Lock → Bool × Lock
test_and_set lk = (lk.locked, record lk { locked = true })

abbrev pub to : World → ℕ → Pc → World
to w i p = record w { pcs = put w.pcs i p }

-- The next access to shared memory that the CPU `i` makes at a place of `acquire` or `release`, with
-- what the CPU does for itself before or after it. `holding` reads `lk->cpu` only of a lock that is set.
unfoldable pub move : Pc → World → ℕ → Outcome World
unfolding push_off pop_off
move outside w i =
    let p = if w.lock.locked then checking else spinning in
    ok (to (record w { cpus = put w.cpus i (push_off (w.cpus i)) }) i p)
move checking w i = if is_cpu w.lock.cpu i then panic else ok (to w i spinning)
move spinning w i =
    let (busy, lk) = test_and_set w.lock in
    ok (to (record w { lock = lk }) i (if busy then spinning else taken))
move taken w i = ok (to (record w { lock = record w.lock { cpu = some i } }) i inside)
move inside w i = if w.lock.locked then ok (to w i releasing) else panic
move releasing w i = if is_cpu w.lock.cpu i then ok (to w i checked) else panic
move checked w i = ok (to (record w { lock = record w.lock { cpu = none } }) i cleared)
move cleared w i = ok (to (record w { lock = record w.lock { locked = false } }) i unlocked)
move unlocked w i = do
  c ← pop_off (w.cpus i)
  ok (to (record w { cpus = put w.cpus i c }) i outside)

-- The CPUs take turns as the list says.
unfoldable pub run : List ℕ → World → Outcome World
unfolding move
run [] w = ok w
run (i ∷ rest) w = do w' ← move (w.pcs i) w i; run rest w'

-- Nobody has the lock; `was` says on which CPUs interrupts are on.
abbrev pub idle : (ℕ → Bool) → World
idle was = record {
  lock = initlock;
  pcs = λ _. outside;
  cpus = λ j. record { noff = 0; intena = false; sie = was j };
}
