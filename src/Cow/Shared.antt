-- ===== src/Cow/Shared.antt =====
-- The list of shared pages of one group.
use advanced_operating_syste.Prelude.{
  ℕ, ◌≡◌, ◌≢◌, refl, sym, ap, subst, ◌∙◌, ◌⊎◌, inl, inr, false, ◌||◌, ◌==◌, List, [], ◌∷◌, ok,
  fault, ◌>>=◌, >>=-eq-ok, arith, ℕ_discrete, ok-injective,
}
use advanced_operating_syste.Cow.{add_page, has_page}

-- Used words first and all different, then zeros only.
abbrev AllZero : List ℕ → Type 0
AllZero [] = Unit
AllZero (x ∷ xs) = (x ≡ 0) × AllZero xs

abbrev pub Packed : List ℕ → Type 0
Packed [] = Unit
Packed (x ∷ xs) = ((x ≡ 0) × AllZero xs) ⊎ ((x ≢ 0) × (has_page x xs ≡ false) × Packed xs)

AllZero-Packed : (xs : List ℕ) → AllZero xs → Packed xs
AllZero-Packed [] h = tt
AllZero-Packed (x ∷ xs) h = inl h

AllZero-none : (pa : ℕ) (xs : List ℕ) → AllZero xs → has_page pa xs ≡ false
unfolding has_page
AllZero-none pa [] h = refl
AllZero-none pa (x ∷ xs) h = ground (arith, h.0)

-- `add_page` at a used word: the page is found there, or goes further on.
add_page-used :
    (pa x : ℕ) (xs ys : List ℕ)
    → x ≢ 0
    → add_page pa (x ∷ xs) ≡ ok ys
    → ((x ≡ pa) × (ys ≡ x ∷ xs))
      ⊎ ((x ≢ pa) × ((zs : List ℕ) × (add_page pa xs ≡ ok zs) × (ys ≡ x ∷ zs)))
unfolding add_page
add_page-used pa x xs ys nz e = elim (ℕ_discrete x pa) [
  | yes same ↦ inl (same, ground (arith, same, e))
  | no other ↦
      let go : (add_page pa xs >>= (λ zs. ok (x ∷ zs))) ≡ ok ys = ground (arith, e) in
      let (zs, r, e') = >>=-eq-ok (add_page pa xs) _ go in
      inr (other, (zs, r, sym (ok-injective e')))
]

-- At an unused word the page is written there.
add_page-unused : (pa : ℕ) (xs ys : List ℕ) → pa ≢ 0 → add_page pa (0 ∷ xs) ≡ ok ys → ys ≡ pa ∷ xs
unfolding add_page
add_page-unused pa xs ys nz e = ground (arith, e)

has_page-cons : (q x : ℕ) (xs : List ℕ) → x ≢ 0 → has_page q (x ∷ xs) ≡ (x == q || has_page q xs)
unfolding has_page
has_page-cons q x xs nz = ground arith

add_page-nil : (pa : ℕ) {ys : List ℕ} → add_page pa [] ≡ ok ys → ⊥
unfolding add_page
add_page-nil pa e = cc

-- Adding a page makes exactly that page shared besides those that were.
pub add_page-has :
    (pa q : ℕ) (xs : List ℕ) {ys : List ℕ}
    → pa ≢ 0
    → Packed xs
    → add_page pa xs ≡ ok ys
    → has_page q ys ≡ (has_page q xs || q == pa)
add_page-has pa q [] nz p e = absurd (add_page-nil pa e)
add_page-has pa q (x ∷ xs) {ys} nz (inl (z, zs)) e =
    let at : ys ≡ pa ∷ xs =
      add_page-unused pa xs ys nz (subst (λ k. add_page pa (k ∷ xs) ≡ ok ys) z e) in
    ap (has_page q) at
    ∙ ground
        (arith, has_page-cons q pa xs nz, AllZero-none q xs zs, AllZero-none q (x ∷ xs) (z, zs))
add_page-has pa q (x ∷ xs) {ys} nz (inr (n, d, p)) e = elim (add_page-used pa x xs ys n e) [
  | inl (same, at) ↦ ap (has_page q) at ∙ ground (arith, has_page-cons q x xs n)
  | inr (other, (zs, r, at)) ↦
      ap (has_page q) at
      ∙ ground (arith, has_page-cons q x xs n, has_page-cons q x zs n, add_page-has pa q xs nz p r)
]

-- It keeps the list packed, and its length.
pub add_page-Packed :
    (pa : ℕ) (xs : List ℕ) {ys : List ℕ} → pa ≢ 0 → Packed xs → add_page pa xs ≡ ok ys → Packed ys
add_page-Packed pa [] nz p e = absurd (add_page-nil pa e)
add_page-Packed pa (x ∷ xs) {ys} nz (inl (z, zs)) e =
    let at : ys ≡ pa ∷ xs =
      add_page-unused pa xs ys nz (subst (λ k. add_page pa (k ∷ xs) ≡ ok ys) z e) in
    subst Packed (sym at) (inr (nz, AllZero-none pa xs zs, AllZero-Packed xs zs))
add_page-Packed pa (x ∷ xs) {ys} nz (inr (n, d, p)) e = elim (add_page-used pa x xs ys n e) [
  | inl (same, at) ↦ subst Packed (sym at) (inr (n, d, p))
  | inr (other, (zs, r, at)) ↦
      subst Packed (sym at) (
        inr
          (n, ground (arith, add_page-has pa x xs nz p r, d, other), add_page-Packed pa xs nz p r))
]

-- A list that is full of other pages: the write goes behind the array.
abbrev pub AllUsed : ℕ → List ℕ → Type 0
AllUsed pa [] = Unit
AllUsed pa (x ∷ xs) = (x ≢ 0) × (x ≢ pa) × AllUsed pa xs

pub add_page-full : (pa : ℕ) (xs : List ℕ) → AllUsed pa xs → add_page pa xs ≡ fault
unfolding add_page
add_page-full pa [] h = refl
add_page-full pa (x ∷ xs) h = ground (arith, h.0, h.1, add_page-full pa xs h.2)
