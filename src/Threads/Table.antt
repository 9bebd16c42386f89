-- ===== src/Threads/Table.antt =====
-- Searches of the thread table.
use advanced_operating_syste.Prelude.{
  ℕ, zero, suc, ◌+◌, ◌≤◌, ◌<◌, ◌≡◌, refl, sym, ap, ◌∙◌, inl, inr, Bool, true, some, List, [], ◌∷◌,
  ◌++◌, length, arith, Bool-cases, length-append,
}
use advanced_operating_syste.Threads.{Uthread, slot, find, is_runnable}

-- `us` from the index `i` on is `rest`.
abbrev pub From : List Uthread → ℕ → List Uthread → Type 0
From us i [] = Unit
From us i (u ∷ rest) = (slot us i ≡ u) × From us (i + 1) rest

slot-append : (pre rest : List Uthread) (u : Uthread) → slot (pre ++ (u ∷ rest)) (length pre) ≡ u
slot-append [] rest u = refl
slot-append (v ∷ pre) rest u = slot-append pre rest u

regroup :
    (pre : List Uthread) (u : Uthread) (rest : List Uthread)
    → pre ++ (u ∷ rest) ≡ (pre ++ (u ∷ [])) ++ rest
regroup [] u rest = refl
regroup (v ∷ pre) u rest = ap (λ xs. v ∷ xs) (regroup pre u rest)

From-append :
    (pre rest us : List Uthread) (i : ℕ) → us ≡ pre ++ rest → i ≡ length pre → From us i rest
From-append pre [] us i e k = tt
From-append pre (u ∷ rest) us i e k = (
  ap (λ xs. slot xs i) e ∙ (ap (slot (pre ++ (u ∷ rest))) k ∙ slot-append pre rest u),
  From-append (pre ++ (u ∷ [])) rest us (i + 1) (e ∙ regroup pre u rest)
      (omega (arith, length-append pre (u ∷ []))),
)

pub From-self : (us : List Uthread) → From us 0 us
From-self us = From-append [] us us 0 refl refl

module _ (test : Uthread → Bool) where
  -- What `find` returns passes the test.
  pub find-some :
      (us rest : List Uthread) (i j : ℕ)
      → From us i rest
      → find test rest i ≡ some j
      → test (slot us j) ≡ true
  unfolding find
  find-some us [] i j f e = cc
  find-some us (u ∷ rest) i j f e = elim (Bool-cases (test u)) [
    | inl yes_it ↦
        let at : i ≡ j = cc (rw yes_it at e) in
        ap (λ k. test (slot us k)) (sym at) ∙ (ap test f.0 ∙ yes_it)
    | inr not_it ↦ find-some us rest (i + 1) j f.1 (rw not_it at e)
  ]

  -- It finds one where there is one.
  pub find-total :
      (rest : List Uthread) (i k : ℕ)
      → k < length rest
      → test (slot rest k) ≡ true
      → (j : ℕ) × (find test rest i ≡ some j)
  unfolding find
  find-total [] i k h t = elim h [ ]
  find-total (u ∷ rest) i zero h t = (i, rw t refl)
  find-total (u ∷ rest) i (suc k) h t = elim (Bool-cases (test u)) [
    | inl yes_it ↦ (i, rw yes_it refl)
    | inr not_it ↦ rw not_it (find-total rest (i + 1) k (omega arith) t)
  ]

pub runnable-lt : (us : List Uthread) (k : ℕ) → is_runnable (slot us k) ≡ true → k < length us
runnable-lt [] k h = cc
runnable-lt (u ∷ us) zero h = omega arith
runnable-lt (u ∷ us) (suc k) h = omega (arith, runnable-lt us k h)

pub find-lt :
    (test : Uthread → Bool) (rest : List Uthread) (i j : ℕ)
    → find test rest i ≡ some j
    → (i ≤ j) × (j < i + length rest)
unfolding find
find-lt test [] i j e = cc
find-lt test (u ∷ rest) i j e = elim (Bool-cases (test u)) [
  | inl yes_it ↦ ground (arith, yes_it, e)
  | inr not_it ↦ let h = find-lt test rest (i + 1) j (rw not_it at e) in omega (arith, h.0, h.1)
]
