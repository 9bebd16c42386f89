-- ===== src/Threads/Priority.antt =====
-- What the loop for PRIORITY chooses.
use advanced_operating_syste.Prelude.{
  ℕ, zero, suc, ◌+◌, ◌≡◌, refl, ap, ◌∙◌, ◌⊎◌, inl, inr, Bool, true, false, not, ◌&&◌, some, List,
  [], ◌∷◌, ok, arith, Bool-cases,
}
use advanced_operating_syste.Prelude.Int.{ℤ, ltb_ℤ, ◌≤ℤ◌}
use advanced_operating_syste.Threads.Table.{From, From-self}
use advanced_operating_syste.Threads.{
  priority, Uthread, Threads, slot, is_runnable, same_tid, pick_priority, prefer, choose,
}

-- A thread that the loop may choose: it can run, and has not just yielded.
abbrev pub eligible : ℤ → Uthread → Bool
eligible last u = is_runnable u && not (same_tid u.tid last)

-- No eligible thread of the list has a priority above `p`.
abbrev pub NoneAbove : ℤ → List Uthread → ℤ → Type 0
NoneAbove last [] p = Unit
NoneAbove last (u ∷ rest) p = (eligible last u ≡ true → u.prio ≤ℤ p) × NoneAbove last rest p

abbrev NoneEligible : ℤ → List Uthread → Type 0
NoneEligible last [] = Unit
NoneEligible last (u ∷ rest) = (eligible last u ≡ false) × NoneEligible last rest

-- From a thread that has not just yielded the loop goes to higher priorities only.
From-other :
    (us : List Uthread) (last : ℤ) (rest : List Uthread) (i c : ℕ)
    → From us i rest
    → same_tid (slot us c).tid last ≡ false
    → let r = pick_priority us last rest i c in
      ((slot us c).prio ≤ℤ (slot us r).prio)
      × NoneAbove last rest (slot us r).prio
      × ((r ≡ c) ⊎ (eligible last (slot us r) ≡ true))
unfolding pick_priority
From-other us last [] i c f h = (omega arith, tt, inl refl)
From-other us last (u ∷ rest) i c f h =
    elim (Bool-cases (eligible last u && not (ltb_ℤ u.prio (slot us c).prio))) [
      | inl better ↦
          let step : prefer us last u i c ≡ i = ground (arith, h, better) in
          let this : same_tid (slot us i).tid last ≡ false = ground (arith, f.0, better) in
          let (le, above, at) = From-other us last rest (i + 1) i f.1 this in
          rw step (
            ground (arith, better, le, f.0),
            (λ e. ground (arith, le, f.0), above),
            inr (moved better at),
          )
      | inr worse ↦
          let step : prefer us last u i c ≡ c = ground (arith, h, worse) in
          let (le, above, at) = From-other us last rest (i + 1) c f.1 h in
          rw step (le, (λ e. ground (arith, le, worse, e), above), at)
    ]
  where
    moved :
        {r : ℕ}
        → (eligible last u && not (ltb_ℤ u.prio (slot us c).prio)) ≡ true
        → (r ≡ i) ⊎ (eligible last (slot us r) ≡ true)
        → eligible last (slot us r) ≡ true
    moved b (inl e) =
        ap (λ k. eligible last (slot us k)) e ∙ (ap (eligible last) f.0 ∙ ground arith)
    moved b (inr h) = h

-- From the thread that has just yielded it goes to the first eligible one, and on from there.
From-last :
    (us : List Uthread) (last : ℤ) (rest : List Uthread) (i c : ℕ)
    → From us i rest
    → same_tid (slot us c).tid last ≡ true
    → let r = pick_priority us last rest i c in
      ((r ≡ c) × NoneEligible last rest)
      ⊎ ((eligible last (slot us r) ≡ true) × NoneAbove last rest (slot us r).prio)
unfolding pick_priority
From-last us last [] i c f h = inl (refl, tt)
From-last us last (u ∷ rest) i c f h = elim (Bool-cases (eligible last u)) [
  | inl may ↦
      let step : prefer us last u i c ≡ i = ground (arith, h, may) in
      let this : same_tid (slot us i).tid last ≡ false = ground (arith, f.0, may) in
      let (le, above, at) = From-other us last rest (i + 1) i f.1 this in
      rw step (inr (moved may at, (λ e. ground (arith, le, f.0), above)))
  | inr may_not ↦
      let step : prefer us last u i c ≡ c = ground (arith, h, may_not) in
      rw step (skipped may_not (From-last us last rest (i + 1) c f.1 h))
]
  where
    moved :
        {r : ℕ}
        → eligible last u ≡ true
        → (r ≡ i) ⊎ (eligible last (slot us r) ≡ true)
        → eligible last (slot us r) ≡ true
    moved b (inl e) = ap (λ k. eligible last (slot us k)) e ∙ (ap (eligible last) f.0 ∙ b)
    moved b (inr h) = h

    skipped :
        {r : ℕ}
        → eligible last u ≡ false
        → ((r ≡ c) × NoneEligible last rest)
          ⊎ ((eligible last (slot us r) ≡ true) × NoneAbove last rest (slot us r).prio)
        → ((r ≡ c) × NoneEligible last (u ∷ rest))
          ⊎ ((eligible last (slot us r) ≡ true) × NoneAbove last (u ∷ rest) (slot us r).prio)
    skipped b (inl (e, n)) = inl (e, (b, n))
    skipped b (inr (e, n)) = inr (e, ((λ x. cc), n))

none_above :
    (last : ℤ) (rest : List Uthread) (p : ℤ) (k : ℕ)
    → NoneAbove last rest p
    → eligible last (slot rest k) ≡ true
    → (slot rest k).prio ≤ℤ p
none_above last [] p k h r = cc
none_above last (u ∷ rest) p zero h r = h.0 r
none_above last (u ∷ rest) p (suc k) h r = none_above last rest p k h.1 r

none_eligible :
    (last : ℤ) (rest : List Uthread) (k : ℕ)
    → NoneEligible last rest
    → eligible last (slot rest k) ≡ true
    → ⊥
none_eligible last [] k h r = cc
none_eligible last (u ∷ rest) zero h r = cc (h.0)
none_eligible last (u ∷ rest) (suc k) h r = none_eligible last rest k h.1 r

-- PRIORITY: after a yield or an end of the current thread, a round of the scheduler ends, where some
-- thread can run whose tid is not that of the thread that yielded, at such a thread, with a priority
-- no lower than any other such thread's.
pub choose_priority :
    (word0 : ℤ) (t : Threads) (c k : ℕ)
    → t.schedalgo ≡ priority
    → t.current ≡ some c
    → t.last_yielded ≡ some c
    → eligible (slot t.uthreads c).tid (slot t.uthreads k) ≡ true
    → (r : ℕ) × (choose word0 t ≡ ok (record t { current = some r }))
      × (eligible (slot t.uthreads c).tid (slot t.uthreads r) ≡ true)
      × ((j : ℕ)
          → eligible (slot t.uthreads c).tid (slot t.uthreads j) ≡ true
          → (slot t.uthreads j).prio ≤ℤ (slot t.uthreads r).prio)
unfolding choose
choose_priority word0 t c k algo now last h =
    let tid = (slot t.uthreads c).tid in
    let r = pick_priority t.uthreads tid t.uthreads 0 c in
    let (e, above) = chosen (From-last t.uthreads tid t.uthreads 0 c (From-self t.uthreads) self) in
    (r, ground (arith, algo, now, last), e, λ j hj. none_above tid t.uthreads _ j above hj)
  where
    self : same_tid (slot t.uthreads c).tid (slot t.uthreads c).tid ≡ true
    self = ground arith

    chosen :
        {r : ℕ}
        → ((r ≡ c) × NoneEligible (slot t.uthreads c).tid t.uthreads)
          ⊎ ((eligible (slot t.uthreads c).tid (slot t.uthreads r) ≡ true)
              × NoneAbove (slot t.uthreads c).tid t.uthreads (slot t.uthreads r).prio)
        → (eligible (slot t.uthreads c).tid (slot t.uthreads r) ≡ true)
          × NoneAbove (slot t.uthreads c).tid t.uthreads (slot t.uthreads r).prio
    chosen (inl (_, n)) = absurd (none_eligible (slot t.uthreads c).tid t.uthreads k n h)
    chosen (inr both) = both
