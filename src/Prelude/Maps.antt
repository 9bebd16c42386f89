-- ===== src/Prelude/Maps.antt =====
-- Finite changes of a function on the native numbers.
use advanced_operating_syste.Prelude.{
  ℕ, ◌≡◌, ◌≢◌, sym, subst, ◌==◌, if◌then◌else◌, arith, ℕ_discrete,
}

abbrev pub put : {A : Type 0} → (ℕ → A) → ℕ → A → ℕ → A
put f i x j = if j == i then x else f j

pub put-ne : {A : Type 0} (f : ℕ → A) (i : ℕ) (x : A) (j : ℕ) → j ≢ i → put f i x j ≡ f j
put-ne f i x j ne = ground (arith, ne)

pub put-at : {A : Type 0} (f : ℕ → A) (i : ℕ) (x : A) → put f i x i ≡ x
put-at f i x = ground arith

-- What holds of the new value and of the old ones elsewhere.
pub put_all :
    {A : Type 0} (P : ℕ → A → Type 0) (f : ℕ → A) (i : ℕ) (x : A)
    → P i x
    → ((j : ℕ) → j ≢ i → P j (f j))
    → (j : ℕ) → P j (put f i x j)
put_all P f i x at others j = elim (ℕ_discrete j i) [
  | yes e ↦ subst (λ k. P k (put f i x k)) (sym e) (subst (P i) (sym (put-at f i x)) at)
  | no ne ↦ subst (P j) (sym (put-ne f i x j ne)) (others j ne)
]
