-- ===== src/Swap/Victim.antt =====
-- Which page is evicted, and which region of the PSA it goes to.
use advanced_operating_syste.Prelude.{
  ℕ, zero, suc, ◌+◌, ◌≤◌, ◌<◌, ◌≡◌, ◌≢◌, refl, sym, ap, ◌∙◌, inl, inr, Bool, true, false, not, ◌&&◌,
  Option, none, some, List, [], ◌∷◌, ◌++◌, length, get_or, arith, ℕ_discrete, Bool-cases,
  length-append,
}
use advanced_operating_syste.Swap.{HeapPage, tracked, free_block, victim_from, better}

-- `us` from the index `i` on is `rest`.
abbrev From : List HeapPage → ℕ → List HeapPage → Type 0
From ps i [] = Unit
From ps i (p ∷ rest) = (tracked ps i ≡ p) × From ps (i + 1) rest

tracked-append :
    (pre rest : List HeapPage) (p : HeapPage) → tracked (pre ++ (p ∷ rest)) (length pre) ≡ p
tracked-append [] rest p = refl
tracked-append (v ∷ pre) rest p = tracked-append pre rest p

regroup :
    (pre : List HeapPage) (p : HeapPage) (rest : List HeapPage)
    → pre ++ (p ∷ rest) ≡ (pre ++ (p ∷ [])) ++ rest
regroup [] p rest = refl
regroup (v ∷ pre) p rest = ap (λ xs. v ∷ xs) (regroup pre p rest)

From-append :
    (pre rest ps : List HeapPage) (i : ℕ) → ps ≡ pre ++ rest → i ≡ length pre → From ps i rest
From-append pre [] ps i e k = tt
From-append pre (p ∷ rest) ps i e k = (
  ap (λ xs. tracked xs i) e ∙ (ap (tracked (pre ++ (p ∷ rest))) k ∙ tracked-append pre rest p),
  From-append (pre ++ (p ∷ [])) rest ps (i + 1) (e ∙ regroup pre p rest)
      (omega (arith, k, length-append pre (p ∷ []))),
)

-- No entry of the list with `loaded` clear has a load time before `t`.
abbrev NoneOlder : List HeapPage → ℕ → Type 0
NoneOlder [] t = Unit
NoneOlder (p ∷ rest) t = (p.loaded ≡ false → t ≤ p.last_load_time) × NoneOlder rest t

-- From a candidate `b` the search goes to earlier pages only.
victim_some :
    (ps rest : List HeapPage) (i b : ℕ)
    → From ps i rest
    → (tracked ps b).loaded ≡ false
    → (v : ℕ) × (victim_from ps rest i (some b) ≡ some v)
      × ((tracked ps v).loaded ≡ false)
      × ((tracked ps v).last_load_time ≤ (tracked ps b).last_load_time)
      × NoneOlder rest (tracked ps v).last_load_time
unfolding victim_from
victim_some ps [] i b f r = (b, refl, r, omega arith, tt)
victim_some ps (p ∷ rest) i b f r = elim (Bool-cases (not p.loaded && better ps p (some b))) [
  | inl older ↦
      let this : (tracked ps i).loaded ≡ false = ground (arith, f.0, older) in
      let (v, e, rv, le, least) = victim_some ps rest (i + 1) i f.1 this in
      (v, rw older e, rv, ground (arith, le, f.0, older), (λ h. ground (arith, le, f.0), least))
  | inr not_older ↦
      let (v, e, rv, le, least) = victim_some ps rest (i + 1) b f.1 r in
      (v, rw not_older e, rv, le, (λ h. ground (arith, le, not_older, h), least))
]

-- The first entry with `loaded` clear becomes the candidate.
resident_first :
    (ps : List HeapPage) (p : HeapPage) (rest : List HeapPage) (i : ℕ)
    → From ps i (p ∷ rest)
    → p.loaded ≡ false
    → (v : ℕ) × (victim_from ps (p ∷ rest) i none ≡ some v)
      × ((tracked ps v).loaded ≡ false)
      × NoneOlder (p ∷ rest) (tracked ps v).last_load_time
unfolding victim_from
resident_first ps p rest i f here =
    let this : (tracked ps i).loaded ≡ false = ap (λ (q : HeapPage). q.loaded) f.0 ∙ here in
    let (v, e, rv, le, least) = victim_some ps rest (i + 1) i f.1 this in
    (v, rw here e, rv, (λ h. ground (arith, le, f.0), least))

victim_none :
    (ps rest : List HeapPage) (i k : ℕ)
    → From ps i rest
    → k < length rest
    → (tracked rest k).loaded ≡ false
    → (v : ℕ) × (victim_from ps rest i none ≡ some v)
      × ((tracked ps v).loaded ≡ false)
      × NoneOlder rest (tracked ps v).last_load_time
unfolding victim_from
victim_none ps [] i k f lt r = elim lt [ ]
victim_none ps (p ∷ rest) i zero f lt r = resident_first ps p rest i f r
victim_none ps (p ∷ rest) i (suc k) f lt r = elim (Bool-cases p.loaded) [
  | inr here ↦ resident_first ps p rest i f here
  | inl gone ↦
      let (v, e, rv, least) = victim_none ps rest (i + 1) k f.1 (omega arith) r in
      (v, rw gone e, rv, (λ h. cc, least))
]

none_older :
    (rest : List HeapPage) (t k : ℕ)
    → NoneOlder rest t
    → k < length rest
    → (tracked rest k).loaded ≡ false
    → t ≤ (tracked rest k).last_load_time
none_older [] t k h lt r = elim lt [ ]
none_older (p ∷ rest) t zero h lt r = h.0 r
none_older (p ∷ rest) t (suc k) h lt r = none_older rest t k h.1 (omega arith) r

-- With an entry whose `loaded` is clear the search finds one, and no other such entry has an earlier
-- load time.
pub victim_oldest :
    (ps : List HeapPage) (k : ℕ)
    → k < length ps
    → (tracked ps k).loaded ≡ false
    → (v : ℕ) × (victim_from ps ps 0 none ≡ some v)
      × ((tracked ps v).loaded ≡ false)
      × ((j : ℕ)
          → j < length ps
          → (tracked ps j).loaded ≡ false
          → (tracked ps v).last_load_time ≤ (tracked ps j).last_load_time)
victim_oldest ps k lt r =
    let (v, e, rv, least) = victim_none ps ps 0 k (From-append [] ps ps 0 refl refl) lt r in
    (v, e, rv, λ j lt_j rj. none_older ps _ j least lt_j rj)

-- `free_block` returns the first free entry, if there is one.
pub free_block_lem :
    (n : ℕ) (psa : List Bool) (i k : ℕ)
    → i ≤ k
    → k < i + n
    → get_or psa k true ≡ false
    → let b = free_block n psa i in
      (i ≤ b)
      × (b ≤ k)
      × (get_or psa b true ≡ false)
      × ((j : ℕ) → i ≤ j → j < b → get_or psa j true ≡ true)
unfolding free_block
free_block_lem zero psa i k ik lt f = absurd (omega arith)
free_block_lem (suc n) psa i k ik lt f = elim (Bool-cases (get_or psa i true)) [
  | inr here ↦ rw here (omega arith, omega arith, here, λ j a b. absurd (omega arith))
  | inl used ↦
      let ne : i ≢ k = λ e. cc (used, ap (λ x. get_or psa x true) e ∙ f) in
      let (lo, hi, fr, before) =
        free_block_lem n psa (i + 1) k (omega (arith, ne)) (omega arith) f in
      rw used (
        omega (arith, lo),
        hi,
        fr,
        λ j a b. elim (ℕ_discrete i j) [
          | yes e ↦ ap (λ x. get_or psa x true) (sym e) ∙ used
          | no ne_j ↦ before j (omega arith) b
        ],
      )
]

some_inj : {a b : ℕ} → some a ≡ some b → a ≡ b
some_inj e = cc

-- The search ends inside the list.
pub victim_bound :
    (ps rest : List HeapPage) (i v : ℕ) (best : Option ℕ)
    → ((b : ℕ) → best ≡ some b → b < i)
    → victim_from ps rest i best ≡ some v
    → v < i + length rest
unfolding victim_from
victim_bound ps [] i v best h e = omega (arith, h v e)
victim_bound ps (p ∷ rest) i v best h e = elim (Bool-cases (not p.loaded && better ps p best)) [
  | inl take_it ↦ omega (
    arith,
    victim_bound ps rest (i + 1) v (some i) (λ b q. omega (arith, some_inj q)) (rw take_it at e),
  )
  | inr leave_it ↦
      omega (
        arith,
        victim_bound ps rest (i + 1) v best (λ b q. omega (arith, h b q)) (rw leave_it at e),
      )
]
