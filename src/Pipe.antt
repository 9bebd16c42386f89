-- ===== src/Pipe.antt =====
-- Pipes, kernel/pipe.c of assignment 4 (the same file in assignments 2 and 3): the ring of bytes, and
-- each call from a point where it holds the lock to where it gives the lock up.
pub mod Queue
pub mod Calls
mod Tests
use advanced_operating_syste.Prelude.{
  ℕ, zero, suc, ◌+◌, ◌-◌, ◌*◌, ◌/◌, ◌%◌, ◌^◌, ◌≤◌, ◌<◌, ◌≡◌, ◌≢◌, refl, sym, ap, subst, ◌∙◌,
  fun_ext, ◌↔◌, ◌⊎◌, inl, inr, Bool, true, false, not, ◌&&◌, ◌||◌, ◌==◌, ltb, leb, if◌then◌else◌,
  bit_and, bit_or, Option, none, some, List, [], ◌∷◌, ◌++◌, map, length, get_elem?, get_or, set,
  take, drop, replicate, Outcome, ok, panic, fault, deref, ◌>>=◌, >>=-eq-ok, arith, ℕ_discrete,
  if_cases, ok-injective, Bool-cases, Option-cases, get_or-set_self, get_or-set_ne, length-set,
  get_or-set_lem, set-set, set-get_or,
}

-- PIPESIZE; the counters are of type uint.
abbrev pub pipe_size : ℕ
pipe_size = 512

abbrev pub wrap : ℕ → ℕ
wrap n = n % 2 ^ 32

-- `struct pipe`
pub record Pipe : Type 0 where
  pub data_at : ℕ → ℕ
  pub nread : ℕ
  pub nwrite : ℕ
  pub readopen : Bool
  pub writeopen : Bool

-- The fields that `pipealloc` sets in a fresh page.
pub pipealloc : (ℕ → ℕ) → Pipe
pipealloc page = record { data_at = page; nread = 0; nwrite = 0; readopen = true; writeopen = true }

-- The pipe after the end is closed, and whether its page is freed.
unfoldable pub pipeclose : Pipe → Bool → Pipe × Bool
pipeclose p writable =
    let p' = if writable then record p { writeopen = false } else record p { readopen = false } in
    (p', not p'.readopen && not p'.writeopen)

-- `pi->data[pi->nwrite++ % PIPESIZE] = ch;`
abbrev pub push : ℕ → Pipe → Pipe
push ch p = record p {
  data_at = λ k. if p.nwrite % pipe_size == k then ch else p.data_at k;
  nwrite = wrap (p.nwrite + 1);
}

-- `pi->nread++`
abbrev pub drop_one : Pipe → Pipe
drop_one p = record p { nread = wrap (p.nread + 1) }

-- Where a call gives up the lock: it returns -1, it returns a count, or it sleeps.
pub data Stop : Type 0 where
  failed returned asleep : Stop

-- The loop of `pipewrite` for `n` more bytes from the index `i` on. `copyin` is the byte that the
-- function of this name fetches for an index, `none` where it returns -1.
unfoldable pub pipewrite : (ℕ → Option ℕ) → Bool → ℕ → ℕ → Pipe → Stop × ℕ × Pipe
pipewrite copyin killed zero i p = (returned, i, p)
pipewrite copyin killed (suc n) i p = elim (not p.readopen || killed) [
  | true ↦ (failed, i, p)
  | false ↦ elim (p.nwrite == wrap (p.nread + pipe_size)) [
    | true ↦ (asleep, i, p)
    | false ↦ elim (copyin i) [
      | none ↦ (returned, i, p)
      | some ch ↦ pipewrite copyin killed n (i + 1) (push ch p)
    ]
  ]
]

-- The copying loop of `piperead`, with the bytes that left the pipe. `copyout` tells whether the
-- function of this name takes a byte at an index.
unfoldable pub copy_out : (ℕ → ℕ → Bool) → ℕ → ℕ → Pipe → List ℕ × ℕ × Pipe
copy_out copyout zero i p = ([], i, p)
copy_out copyout (suc n) i p = elim (p.nread == p.nwrite) [
  | true ↦ ([], i, p)
  | false ↦
      let ch = p.data_at (p.nread % pipe_size) in
      elim (copyout i ch) [
        | false ↦ (ch ∷ [], i, drop_one p)
        | true ↦ let (out, j, p') = copy_out copyout n (i + 1) (drop_one p) in (ch ∷ out, j, p')
      ]
]

unfoldable pub piperead : (ℕ → ℕ → Bool) → Bool → ℕ → Pipe → Stop × List ℕ × ℕ × Pipe
unfolding copy_out
piperead copyout killed n p =
    if p.nread == p.nwrite && p.writeopen
    then (if killed then (failed, [], 0, p) else (asleep, [], 0, p))
    else (let (out, i, p') = copy_out copyout n 0 p in (returned, out, i, p'))
