-- ===== src/Strings/Copies.antt =====
-- What `safestrcpy` leaves in memory.
use advanced_operating_syste.Prelude.{
  refl, false, ℕ, zero, suc, ◌+◌, ◌≤◌, ◌<◌, ◌≡◌, ◌≢◌, sym, ap, ◌∙◌, ◌⊎◌, inl, inr, ◌==◌, arith,
  Bool-cases, ℕ_discrete,
}
use advanced_operating_syste.Memory.{Bytes, poke}
use advanced_operating_syste.Strings.{safe_copy, safestrcpy}

safe_copy-apart :
    (n : ℕ) (m : Bytes) (s t q : ℕ) → (q < s) ⊎ (s + n < q) → safe_copy m s t n q ≡ m q
unfolding safe_copy
safe_copy-apart zero m s t q h = ground arith
safe_copy-apart (suc n) m s t q h = elim (Bool-cases (m t == 0)) [
  | inl ended ↦ rw (ended, safe_copy) (ground arith)
  | inr more ↦
      rw (more, safe_copy)
        (safe_copy-apart n (poke m s (m t)) (s + 1) (t + 1) q (omega (arith, h))
          ∙ ground (arith, h))
]

-- At `s` stands the string from `t`, up to its end or its first `n` bytes, and a 0 behind it.
pub record Copied (m m' : Bytes) (s t n : ℕ) : Type 0 where
  pub end : ℕ
  pub inside : end ≤ n
  pub ended : m' (s + end) ≡ 0
  pub same : (i : ℕ) → i < end → m' (s + i) ≡ m (t + i)
  pub nonzero : (i : ℕ) → i < end → m (t + i) ≢ 0
  pub whole : (end ≡ n) ⊎ (m (t + end) ≡ 0)

poke_ne : (m : Bytes) (s v q : ℕ) → s ≢ q → poke m s v q ≡ m q
poke_ne m s v q ne = ground (arith, ne)

safe_copy-Copied :
    (n : ℕ) (m : Bytes) (s t : ℕ) → (t + n ≤ s) ⊎ (s + n < t) → Copied m (safe_copy m s t n) s t n
unfolding safe_copy
safe_copy-Copied zero m s t h = record {
  end = 0;
  inside = omega arith;
  ended = ground arith;
  same = λ i lt. absurd (omega (arith, lt));
  nonzero = λ i lt. absurd (omega (arith, lt));
  whole = inl refl;
}
safe_copy-Copied (suc n) m s t h = elim (Bool-cases (m t == 0)) [
  | inl z ↦
      rw (z, safe_copy)
        (record {
          end = 0;
          inside = omega arith;
          ended = ground (arith, z);
          same = λ i lt. absurd (omega (arith, lt));
          nonzero = λ i lt. absurd (omega (arith, lt));
          whole = inr (ground (arith, z));
        })
  | inr more ↦
      let m1 = poke m s (m t) in
      let rest : Copied m1 (safe_copy m1 (s + 1) (t + 1) n) (s + 1) (t + 1) n =
        safe_copy-Copied n m1 (s + 1) (t + 1) (omega (arith, h)) in
      let first : safe_copy m1 (s + 1) (t + 1) n s ≡ m t =
        safe_copy-apart n m1 (s + 1) (t + 1) s (inl (omega arith)) ∙ ground arith in
      rw (more, safe_copy)
        (record {
          end = suc (rest.end);
          inside = omega (arith, rest.inside);
          ended = ap (safe_copy m1 (s + 1) (t + 1) n) (shift s rest.end) ∙ rest.ended;
          same = λ i lt. copied n (safe_copy m1 (s + 1) (t + 1) n) rest first h i lt;
          nonzero = λ i lt. going n (safe_copy m1 (s + 1) (t + 1) n) rest h more i lt;
          whole = all n (safe_copy m1 (s + 1) (t + 1) n) rest h (rest.whole);
        })
]
  where
    shift : (a b : ℕ) → a + suc b ≡ a + 1 + b
    shift a b = omega arith

    source :
        (n : ℕ) (m1 : Bytes) (rest : Copied (poke m s (m t)) m1 (s + 1) (t + 1) n)
        → (t + suc n ≤ s) ⊎ (s + suc n < t)
        → (i : ℕ) → i < n
        → poke m s (m t) (t + 1 + i) ≡ m (t + suc i)
    source n m1 rest h i lt =
        poke_ne m s (m t) (t + 1 + i) (omega (arith, h, lt)) ∙ ap m (sym (shift t i))

    going :
        (n : ℕ) (m1 : Bytes) (rest : Copied (poke m s (m t)) m1 (s + 1) (t + 1) n)
        → (t + suc n ≤ s) ⊎ (s + suc n < t)
        → m t == 0 ≡ false
        → (i : ℕ) → i < suc (rest.end)
        → m (t + i) ≢ 0
    going n m1 rest h more zero lt = ground (arith, more)
    going n m1 rest h more (suc i) lt = λ e.
        rest.nonzero i (omega (arith, lt))
          (source n m1 rest h i (omega (arith, lt, rest.inside)) ∙ e)

    all :
        (n : ℕ) (m1 : Bytes) (rest : Copied (poke m s (m t)) m1 (s + 1) (t + 1) n)
        → (t + suc n ≤ s) ⊎ (s + suc n < t)
        → (rest.end ≡ n) ⊎ (poke m s (m t) (t + 1 + rest.end) ≡ 0)
        → (suc (rest.end) ≡ suc n) ⊎ (m (t + suc (rest.end)) ≡ 0)
    all n m1 rest h (inl e) = inl (ap suc e)
    all n m1 rest h (inr e) = elim (ℕ_discrete (rest.end) n) [
      | yes full ↦ inl (ap suc full)
      | no short ↦ inr (sym (source n m1 rest h (rest.end) (omega (arith, short, rest.inside))) ∙ e)
    ]

    copied :
        (n : ℕ) (m1 : Bytes)
        → (rest : Copied (poke m s (m t)) m1 (s + 1) (t + 1) n) → m1 s ≡ m t
        → (t + suc n ≤ s) ⊎ (s + suc n < t)
        → (i : ℕ) → i < suc (rest.end)
        → m1 (s + i) ≡ m (t + i)
    copied n m1 rest first h zero lt = ap m1 (omega arith) ∙ (first ∙ ap m (omega arith))
    copied n m1 rest first h (suc i) lt =
        ap m1 (shift s i)
        ∙ (rest.same i (omega (arith, lt))
            ∙ (poke_other (t + 1 + i) (omega (arith, h, lt, rest.inside)) ∙ ap m (sym (shift t i))))
      where
        poke_other : (q : ℕ) → s ≢ q → poke m s (m t) q ≡ m q
        poke_other q ne = ground (arith, ne)

-- `safestrcpy` into a buffer apart from its source leaves the string of the source, cut to fit, with a
-- 0 behind it in the buffer, and writes nowhere else.
pub safestrcpy-Copied :
    (n : ℕ) (m : Bytes) (s t : ℕ)
    → (t + n ≤ s) ⊎ (s + n < t)
    → Copied m (safestrcpy m s t (suc n)) s t n
      × ((q : ℕ) → (q < s) ⊎ (s + n < q) → safestrcpy m s t (suc n) q ≡ m q)
unfolding safestrcpy
safestrcpy-Copied n m s t h = (safe_copy-Copied n m s t h, λ q out. safe_copy-apart n m s t q out)
