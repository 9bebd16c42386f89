-- ===== src/Alloc/Stack.antt =====
-- The free list as a stack of pages.
use advanced_operating_syste.Prelude.{
  ℕ, ◌+◌, ◌%◌, ◌^◌, ◌≤◌, ◌<◌, ◌≡◌, ◌≢◌, refl, sym, subst, ◌∙◌, List, [], ◌∷◌, ok, arith, ◌⊎◌,
}
use advanced_operating_syste.Memory.{Bytes, load64, store64, memset}
use advanced_operating_syste.Memory.Laws.{memset_lem, store_outside, load_ext, load-store}
use advanced_operating_syste.Alloc.{Machine, page_size, phys_stop, kalloc, kfree}

-- `p` lies on no page of the list.
abbrev pub NotIn : ℕ → List ℕ → Type 0
NotIn p [] = Unit
NotIn p (q ∷ qs) = (p ≢ q) × NotIn p qs

-- The pages reached from `head`: aligned, within 64 bits, not null, all different, linked by their
-- first words.
abbrev pub Chain : Bytes → ℕ → List ℕ → Type 0
Chain m head [] = head ≡ 0
Chain m head (p ∷ ps) =
    (head ≡ p) × (p % page_size ≡ 0) × (0 < p) × (p < 2 ^ 64) × NotIn p ps × Chain m (load64 m p) ps

abbrev pub Free : Machine → List ℕ → Type 0
Free k ps = Chain k.bytes k.freelist ps

-- A write to one page leaves the list on other pages as it is.
Chain-ext :
    (m m' : Bytes) (r head : ℕ) (ps : List ℕ)
    → r % page_size ≡ 0
    → ((q : ℕ) → (q < r) ⊎ (r + page_size ≤ q) → m' q ≡ m q)
    → NotIn r ps
    → Chain m head ps
    → Chain m' head ps
Chain-ext m m' r head [] ar same fresh c = c
Chain-ext m m' r head (p ∷ ps) ar same fresh c =
    (c.0, c.1, c.2, c.3, c.4, rw next (Chain-ext m m' r (load64 m p) ps ar same fresh.1 c.5))
  where
    apart : (q : ℕ) → p ≤ q → q < p + 8 → (q < r) ⊎ (r + page_size ≤ q)
    apart q x y = omega (arith, c.1, fresh.0)

    next : load64 m' p ≡ load64 m p
    next = load_ext 8 m' m p (λ q x y. same q (apart q x y))

outside_memset :
    (m : Bytes) (r c q : ℕ) → (q < r) ⊎ (r + page_size ≤ q) → memset m r c page_size q ≡ m q
outside_memset m r c q h = ground (arith, memset_lem page_size m r c q)

head-small : (m : Bytes) (head : ℕ) (ps : List ℕ) → Chain m head ps → head % 2 ^ 64 ≡ head
head-small m head [] c = omega (arith, c)
head-small m head (p ∷ ps) c = omega (arith, c.0, c.3)

-- `memset` on the page and a word written at its start stay on the page.
outside_page :
    (m : Bytes) (r c v q : ℕ)
    → (q < r) ⊎ (r + page_size ≤ q)
    → store64 (memset m r c page_size) r v q ≡ m q
outside_page m r c v q h =
    store_outside 8 (memset m r c page_size) r v q (omega arith) ∙ outside_memset m r c q h

kalloc-some :
    (k : Machine)
    → k.freelist ≢ 0
    → kalloc k ≡ (
      k.freelist,
      record {
        bytes = memset k.bytes k.freelist 5 page_size;
        freelist = load64 k.bytes k.freelist;
      },
    )
unfolding kalloc
kalloc-some k h = ground arith

-- With pages free, `kalloc` returns the one that was freed last and leaves the others free; the
-- page returned is none of those.
pub kalloc-pop :
    (k : Machine) (p : ℕ) (ps : List ℕ)
    → Free k (p ∷ ps)
    → ((kalloc k).0 ≡ p) × Free (kalloc k).1 ps × NotIn p ps
kalloc-pop k p ps c = rw (kalloc-some k (omega (arith, c.0, c.2))) (
  c.0,
  Chain-ext k.bytes (memset k.bytes k.freelist 5 page_size) k.freelist (load64 k.bytes k.freelist)
      ps (omega (arith, c.0, c.1)) (outside_memset k.bytes k.freelist 5)
      (subst (λ x. NotIn x ps) (sym c.0) c.4)
      (subst (λ x. Chain k.bytes (load64 k.bytes x) ps) (sym c.0) c.5),
  c.4,
)

-- With none free it returns 0 and changes nothing.
pub kalloc-none : (k : Machine) → Free k [] → kalloc k ≡ (0, k)
unfolding kalloc
kalloc-none k c = ground arith

-- `kfree` of an aligned page of the kernel's range that is not free puts it on top of the list.
pub kfree-push :
    (first : ℕ) (k : Machine) (p : ℕ) (ps : List ℕ)
    → p % page_size ≡ 0
    → 0 < p
    → first ≤ p
    → p < phys_stop
    → NotIn p ps
    → Free k ps
    → (k' : Machine) × (kfree first p k ≡ ok k') × Free k' (p ∷ ps)
unfolding kfree
kfree-push first k p ps al pos lo hi fresh c = (
  record { bytes = after; freelist = p },
  ground arith,
  (refl, al, pos, omega arith, fresh, subst (λ x. Chain after x ps) (sym next) below),
)
  where
    after : Bytes
    after = store64 (memset k.bytes p 1 page_size) p k.freelist

    below : Chain after k.freelist ps
    below = Chain-ext k.bytes after p k.freelist ps al (outside_page k.bytes p 1 k.freelist) fresh c

    next : load64 after p ≡ k.freelist
    next =
        load-store (memset k.bytes p 1 page_size) p k.freelist
        ∙ omega (arith, head-small k.bytes k.freelist ps c)

-- The list of free pages is a stack: `kfree` of a page that is not free succeeds and puts it on top,
-- and `kalloc` then gives it back and leaves the list as it was before.
pub kalloc-kfree :
    (first : ℕ) (k : Machine) (p : ℕ) (ps : List ℕ)
    → p % page_size ≡ 0
    → 0 < p
    → first ≤ p
    → p < phys_stop
    → NotIn p ps
    → Free k ps
    → (k' : Machine) × ((kfree first p k ≡ ok k')
        × Free k' (p ∷ ps)
        × ((kalloc k').0 ≡ p)
        × Free (kalloc k').1 ps)
kalloc-kfree first k p ps al pos lo hi fresh c =
    let (k', ran, free) = kfree-push first k p ps al pos lo hi fresh c in
    let (at, left, _) = kalloc-pop k' p ps free in (k', (ran, free, at, left))
