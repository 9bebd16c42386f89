-- ===== src/Alloc/Init.antt =====
-- `kinit`: every page between the kernel's end and PHYSTOP becomes free.
use advanced_operating_syste.Prelude.{
  ℕ, zero, suc, ◌+◌, ◌-◌, ◌*◌, ◌/◌, ◌%◌, ◌≤◌, ◌<◌, ◌≡◌, refl, List, [], ◌∷◌, ok, arith,
}
use advanced_operating_syste.Alloc.{Machine, page_size, phys_stop, free_pages, freerange, kinit}
use advanced_operating_syste.Alloc.Stack.{NotIn, Free, kfree-push}

-- `n` pages from `p` on, each on top of the one before, over the pages `ps`.
abbrev pub stacked : ℕ → ℕ → List ℕ → List ℕ
stacked zero p ps = ps
stacked (suc n) p ps = stacked n (p + page_size) (p ∷ ps)

abbrev Below : ℕ → List ℕ → Type 0
Below p [] = Unit
Below p (q ∷ qs) = (q < p) × Below p qs

Below-NotIn : (p : ℕ) (ps : List ℕ) → Below p ps → NotIn p ps
Below-NotIn p [] h = tt
Below-NotIn p (q ∷ qs) h = (omega (arith, h.0), Below-NotIn p qs h.1)

Below-le : (p r : ℕ) (ps : List ℕ) → p ≤ r → Below p ps → Below r ps
Below-le p r [] le h = tt
Below-le p r (q ∷ qs) le h = (omega (arith, h.0), Below-le p r qs le h.1)

free_pages-Free :
    (first n p : ℕ) (k : Machine) (ps : List ℕ)
    → p % page_size ≡ 0
    → 0 < p
    → first ≤ p
    → p + n * page_size ≤ phys_stop
    → Below p ps
    → Free k ps
    → (k' : Machine) × (free_pages first n p k ≡ ok k') × Free k' (stacked n p ps)
unfolding free_pages
free_pages-Free first zero p k ps al pos lo hi b c = (k, refl, c)
free_pages-Free first (suc n) p k ps al pos lo hi b c =
    let (k1, e1, c1) = kfree-push first k p ps al pos lo (omega arith) (Below-NotIn p ps b) c in
    let (k2, e2, c2) =
      free_pages-Free first n (p + page_size) k1 (p ∷ ps) (omega arith) (omega arith) (omega arith)
        (omega arith) (omega arith, Below-le p (p + page_size) ps (omega arith) b) c1 in
    (k2, rw e1 e2, c2)

-- From an empty list `kinit` does not panic, and frees exactly the whole pages from the first page
-- boundary at or after the kernel's end up to PHYSTOP.
pub kinit-Free :
    (first : ℕ) (k : Machine)
    → 0 < first
    → first ≤ phys_stop
    → k.freelist ≡ 0
    → let p = (first + page_size - 1) / page_size * page_size in
      (k' : Machine) × (kinit first k ≡ ok k')
      × Free k' (stacked ((phys_stop - p) / page_size) p [])
unfolding kinit freerange
kinit-Free first k pos le empty =
    free_pages-Free first _ _ k [] (omega arith) (omega arith) (omega arith) (omega arith) tt empty
