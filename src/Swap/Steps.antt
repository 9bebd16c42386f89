-- ===== src/Swap/Steps.antt =====
-- Sequences of evictions and returns, as the calls of the code make them.
use advanced_operating_syste.Prelude.{
  ℕ, suc, ◌-◌, ◌<◌, ◌≡◌, refl, sym, ap, subst, ◌∙◌, Bool, true, false, Option, none, some, List, [],
  ◌∷◌, length, ok, >>=-eq-ok, arith, ok-injective, length-set, if◌then◌else◌, ℕ_discrete, ◌*◌, ◌+◌,
}
use advanced_operating_syste.Swap.{
  HeapPage, Heap, tracked, psa_size, psa_start, read_page, bring_back, take_block, take_back,
  on_disk, evict_page_to_disk, retrieve_page_from_disk,
}
use advanced_operating_syste.Swap.Regions.{used, IsValid, evicted}
use advanced_operating_syste.Swap.Evict.{evict_ok, moved_to, evicted-IsValid}
use advanced_operating_syste.Swap.Trip.{
  Unique, addr_after, take_block_one, returned, returned-IsValid, tracked-take_back,
}

-- A call of `evict_page_to_disk` while the block `f` of the PSA is free and the entry `k` is not on
-- disk, or one of `retrieve_page_from_disk` for the entry `v` on disk. Either finds a kernel page, and
-- the second memory to map the page or not.
pub data Trip : Heap → Heap → Type 0 where
  evicts :
      {h h' : Heap} (k f : ℕ)
      → k < length h.heap_tracker
      → (tracked h.heap_tracker k).loaded ≡ false
      → f < psa_size - psa_start
      → used h.psa_tracker f ≡ false
      → evict_page_to_disk true h ≡ ok h'
      → Trip h h'
  returns :
      {h h' : Heap} (v : ℕ) (mapped : Bool)
      → v < length h.heap_tracker
      → (tracked h.heap_tracker v).loaded ≡ true
      → retrieve_page_from_disk true mapped (tracked h.heap_tracker v).addr h ≡ ok h'
      → Trip h h'

pub data Trips : Heap → Heap → Type 0 where
  done : (h : Heap) → Trips h h
  trip : {h h1 h' : Heap} → Trip h h1 → Trips h1 h' → Trips h h'

evicted-Unique :
    (h : Heap) (v q : ℕ)
    → v < length h.heap_tracker
    → Unique h.heap_tracker
    → Unique (evicted h v q).heap_tracker
evicted-Unique h v q lt u j k lt_j lt_k e =
    let len : length (evicted h v q).heap_tracker ≡ length h.heap_tracker =
      length-set h.heap_tracker v (moved_to (tracked h.heap_tracker v) (4 * q)) in
    u j k (omega (arith, len, lt_j)) (omega (arith, len, lt_k))
      (sym (addr_after h v q j lt) ∙ (e ∙ addr_after h v q k lt))

length-take_back : (va : ℕ) (ps : List HeapPage) → length (take_back va ps) ≡ length ps
unfolding take_back
length-take_back va [] = refl
length-take_back va (p ∷ ps) = ap suc (length-take_back va ps)

addr_back :
    (va : ℕ) (ps : List HeapPage) (j : ℕ) → (tracked (take_back va ps) j).addr ≡ (tracked ps j).addr
addr_back va ps j =
    ap (λ (p : HeapPage). p.addr) (tracked-take_back va ps j)
    ∙ either (on_disk va (tracked ps j)) (tracked ps j)
  where
    either :
        (b : Bool) (p : HeapPage) → (if b then record p { loaded = false } else p).addr ≡ p.addr
    either true p = refl
    either false p = refl

returned-Unique : (va : ℕ) (ps : List HeapPage) → Unique ps → Unique (take_back va ps)
returned-Unique va ps u j k lt_j lt_k e =
    let len = length-take_back va ps in
    u j k (omega (arith, len, lt_j)) (omega (arith, len, lt_k))
      (sym (addr_back va ps j) ∙ (e ∙ addr_back va ps k))

-- What a return leaves: memory decides about the address space only.
abbrev Back : Heap → Heap → ℕ → ℕ → Type 0
Back h h' va b = (s : ℕ → Option (ℕ → ℕ)) × (record (returned h va b) { space = s } ≡ h')

retrieve-Back :
    (mapped : Bool) (va q : ℕ) (h : Heap) {h' : Heap}
    → take_block va h.heap_tracker none ≡ some (4 * q)
    → retrieve_page_from_disk true mapped va h ≡ ok h'
    → Back h h' va q
unfolding retrieve_page_from_disk
retrieve-Back mapped va q h found e =
    let (s, _, e') =
      >>=-eq-ok (bring_back mapped h.space va (read_page h.disk (psa_start + 4 * q))) _
        (rw (found, retrieve_page_from_disk) at e) in
    (s, ok-injective e')

-- The validity does not look at the address space.
with_space : (h : Heap) (s : ℕ → Option (ℕ → ℕ)) → IsValid h → IsValid (record h { space = s })
with_space h s w = record { size = w.size; quads = w.quads; region = w.region; apart = w.apart }

abbrev Valid : Heap → Type 0
Valid h = IsValid h × Unique h.heap_tracker

Trip-IsValid : (h h' : Heap) → Trip h h' → IsValid h → Unique h.heap_tracker → Valid h'
Trip-IsValid h h' (evicts k f lt res in_psa fr ran) w u =
    let (v, q, went, s) = evict_ok h k f w lt res in_psa fr in
    subst Valid (ok-injective (sym went ∙ ran))
      (evicted-IsValid h v q w s, evicted-Unique h v q s.listed u)
Trip-IsValid h h' (returns v mapped lt out ran) w u =
    let va = (tracked h.heap_tracker v).addr in
    let (q, at, _, _) = w.region v out in
    let (s, same) =
      retrieve-Back mapped va q h
        (take_block_one va h.heap_tracker v none lt (ground (arith, out)) (λ j lt_j ne.
            elim (ℕ_discrete (tracked h.heap_tracker j).addr va) [
              | yes e ↦ absurd (ne (u v j lt lt_j (sym e)))
              | no differs ↦ ground (arith, differs)
            ])
          ∙ at)
        ran in
    subst Valid same (
      with_space (returned h va q) s (returned-IsValid h v q w out at),
      returned-Unique va h.heap_tracker u,
    )

-- From a valid heap whose entries have different addresses, along every sequence of successful calls of
-- `evict_page_to_disk`, each while a block of the PSA is free and an entry is not on disk, and of
-- `retrieve_page_from_disk`, each for an entry on disk, the regions of the pages on disk stay apart,
-- marked and within the PSA, and the addresses different.
pub Trips-IsValid :
    (h h' : Heap)
    → Trips h h'
    → IsValid h
    → Unique h.heap_tracker
    → IsValid h' × Unique h'.heap_tracker
Trips-IsValid h _ (done _) v u = (v, u)
Trips-IsValid h h' (trip {h1 = h1} first rest) v u =
    let (v1, u1) = Trip-IsValid h h1 first v u in Trips-IsValid h1 h' rest v1 u1
