-- ===== src/Threads/Pick.antt =====
-- What the scheduling loops choose.
use advanced_operating_syste.Prelude.{
  ℕ, zero, suc, ◌+◌, ◌≤◌, ◌<◌, ◌≡◌, ◌≢◌, refl, ap, ◌∙◌, ◌⊎◌, inl, inr, true, false, ◌&&◌, ltb, some,
  List, [], ◌∷◌, ok, arith, Bool-cases, Option-cases,
}
use advanced_operating_syste.Prelude.Int.{ℤ}
use advanced_operating_syste.Threads.Table.{From, From-self, find-total, runnable-lt}
use advanced_operating_syste.Threads.{
  priority, Uthread, Threads, slot, is_runnable, pick_oldest, start_of, choose, max_word,
}

-- `t` is no later than the time of any runnable thread of `rest`.
abbrev pub NoneOlder : List Uthread → ℕ → Type 0
NoneOlder [] t = Unit
NoneOlder (u ∷ rest) t = (is_runnable u ≡ true → t ≤ u.time) × NoneOlder rest t

-- The loop never moves to a later time, ends at no runnable thread that is older than one it has
-- seen, and leaves its starting point only for a runnable thread.
pick_oldest_lem :
    (us rest : List Uthread) (i c : ℕ)
    → From us i rest
    → let r = pick_oldest us rest i c in
      ((slot us r).time ≤ (slot us c).time)
      × NoneOlder rest (slot us r).time
      × ((r ≡ c) ⊎ (is_runnable (slot us r) ≡ true))
unfolding pick_oldest
pick_oldest_lem us [] i c f = (omega arith, tt, inl refl)
pick_oldest_lem us (u ∷ rest) i c f =
    elim (Bool-cases (is_runnable u && ltb u.time (slot us c).time)) [
      | inl older ↦
          let (le, none_older, at) = pick_oldest_lem us rest (i + 1) i f.1 in
          rw older (
            ground (arith, older, le, f.0),
            (λ h. ground (arith, le, f.0), none_older),
            inr (moved older at),
          )
      | inr not_older ↦
          let (le, none_older, at) = pick_oldest_lem us rest (i + 1) c f.1 in
          rw not_older (le, (λ h. ground (arith, le, not_older, h), none_older), at)
    ]
  where
    moved :
        {r : ℕ}
        → (is_runnable u && ltb u.time (slot us c).time) ≡ true
        → (r ≡ i) ⊎ (is_runnable (slot us r) ≡ true)
        → is_runnable (slot us r) ≡ true
    moved b (inl e) = ap (λ k. is_runnable (slot us k)) e ∙ (ap is_runnable f.0 ∙ ground arith)
    moved b (inr h) = h

none_older :
    (rest : List Uthread) (t k : ℕ)
    → NoneOlder rest t
    → is_runnable (slot rest k) ≡ true
    → t ≤ (slot rest k).time
none_older [] t k h r = cc
none_older (u ∷ rest) t zero h r = h.0 r
none_older (u ∷ rest) t (suc k) h r = none_older rest t k h.1 r

-- A thread that cannot run has the time -1, and one that can has an earlier one: so
-- `ulthread_init`, `ulthread_create` and `ulthread_destroy` leave the table.
abbrev pub Marked : List Uthread → Type 0
Marked us =
    (k : ℕ)
    → (is_runnable (slot us k) ≡ true → (slot us k).time < max_word)
      × (is_runnable (slot us k) ≡ false → (slot us k).time ≡ max_word)

pub start-some :
    (t : Threads) (k : ℕ) → is_runnable (slot t.uthreads k) ≡ true → (c : ℕ) × (start_of t ≡ some c)
start-some t k h = elim (Option-cases t.current) [
  | inl e ↦ rw e (find-total is_runnable t.uthreads 0 k (runnable-lt t.uthreads k h) h)
  | inr (c, e) ↦ (c, rw e refl)
]

oldest_runs :
    (us : List Uthread) (c k : ℕ)
    → Marked us
    → is_runnable (slot us k) ≡ true
    → let r = pick_oldest us us 0 c in
      (is_runnable (slot us r) ≡ true)
      × ((j : ℕ) → is_runnable (slot us j) ≡ true → (slot us r).time ≤ (slot us j).time)
oldest_runs us c k marked h =
    let (le, older, at) = pick_oldest_lem us us 0 c (From-self us) in
    let r = pick_oldest us us 0 c in
    (
      elim (Bool-cases (is_runnable (slot us r))) [
        | inl can ↦ can
        | inr cannot ↦
            absurd (omega (arith, (marked r).1 cannot, none_older us _ k older h, (marked k).0 h))
      ],
      λ j hj. none_older us _ j older hj,
    )

-- FCFS and ROUNDROBIN: with a thread that can run, a round of the scheduler ends at a thread that
-- can run and whose time no runnable thread precedes.
pub choose_oldest :
    (word0 : ℤ) (t : Threads) (k : ℕ)
    → t.schedalgo ≢ priority
    → Marked t.uthreads
    → is_runnable (slot t.uthreads k) ≡ true
    → (c : ℕ) × (choose word0 t ≡ ok (record t { current = some c }))
      × (is_runnable (slot t.uthreads c) ≡ true)
      × ((j : ℕ)
          → is_runnable (slot t.uthreads j) ≡ true
          → (slot t.uthreads c).time ≤ (slot t.uthreads j).time)
unfolding choose
choose_oldest word0 t k algo marked h =
    let (start, e) = start-some t k h in
    let (runs, oldest) = oldest_runs t.uthreads start k marked h in
    (pick_oldest t.uthreads t.uthreads 0 start, ground (arith, e), runs, oldest)
