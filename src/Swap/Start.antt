-- ===== src/Swap/Start.antt =====
-- The page save area after `init_psa_regions`, and what bounds the resident pages.
use advanced_operating_syste.Prelude.{
  ℕ, zero, suc, ◌+◌, ◌-◌, ◌*◌, ◌/◌, ◌%◌, ◌≤◌, ◌<◌, ◌≡◌, ◌≢◌, refl, sym, ap, subst, ◌∙◌, inl, inr,
  Bool, true, false, not, ltb, if◌then◌else◌, Option, none, some, replicate, ok, ◌>>=◌, >>=-eq-ok,
  arith, ℕ_discrete, ok-injective, Option-cases, length-replicate,
}
use advanced_operating_syste.Swap.{
  Heap, Data, tracked, psa_size, psa_start, page_size, victim_from, take_block, read_page,
  max_res_heap, map_page, bring_back, evict_page_to_disk, retrieve_page_from_disk, init_psa_regions,
}
use advanced_operating_syste.Swap.Regions.{used, IsValid}
use advanced_operating_syste.Swap.Room.{Unmaps, retrieve-other, grow-other, evict-Unmaps}
use advanced_operating_syste.Swap.Handler.{Memory, page_up, entry_of, make_room, grow, handle_heap}

used-replicate : (n i : ℕ) → used (replicate n false) i ≡ not (ltb i n)
used-replicate zero i = ground arith
used-replicate (suc n) zero = ground arith
used-replicate (suc n) (suc i) = ground (arith, used-replicate n i)

blank_quads :
    (n q j : ℕ)
    → n % 4 ≡ 0
    → j < 4
    → used (replicate n false) (4 * q + j) ≡ used (replicate n false) (4 * q)
blank_quads n q j e lt =
    used-replicate n (4 * q + j)
    ∙ (ap not (quads_below n q j e lt) ∙ sym (used-replicate n (4 * q)))
  where
    quads_below : (n q j : ℕ) → n % 4 ≡ 0 → j < 4 → ltb (4 * q + j) n ≡ ltb (4 * q) n
    quads_below n q j e lt = ground arith

blank_free : (n b : ℕ) → b < n → used (replicate n false) b ≡ false
blank_free n b lt = used-replicate n b ∙ ground arith

-- With no page on disk, `init_psa_regions` leaves a valid heap with every block free.
pub init_psa_regions-IsValid :
    (h : Heap)
    → ((k : ℕ) → (tracked h.heap_tracker k).loaded ≡ false)
    → IsValid (init_psa_regions h)
      × ((b : ℕ) → b < psa_size → used (init_psa_regions h).psa_tracker b ≡ false)
unfolding init_psa_regions
init_psa_regions-IsValid h resident = (
  record {
    size = length-replicate psa_size false;
    quads = λ q j lt. blank_quads psa_size q j refl lt;
    region = λ k l. absurd (cc (resident k, l));
    apart = λ k j b lk lj ek ej. absurd (cc (resident k, lk));
  },
  λ b lt. blank_free psa_size b lt,
)

evict-resident :
    (got : Bool) (h : Heap) {h' : Heap}
    → evict_page_to_disk got h ≡ ok h'
    → h'.resident_heap_pages ≡ h.resident_heap_pages
unfolding evict_page_to_disk
evict-resident false h e = elim (Option-cases (victim_from h.heap_tracker h.heap_tracker 0 none)) [
  | inl gone ↦ absurd (cc (rw (gone, evict_page_to_disk) at e))
  | inr (v, found) ↦ absurd (cc (rw (found, evict_page_to_disk) at e))
]
evict-resident true h e = elim (Option-cases (victim_from h.heap_tracker h.heap_tracker 0 none)) [
  | inl gone ↦ absurd (cc (rw (gone, evict_page_to_disk) at e))
  | inr (v, found) ↦
      ap (λ (t : Heap). t.resident_heap_pages)
        (sym (ok-injective (rw (found, evict_page_to_disk) at e)))
]

retrieve-resident :
    (got mapped : Bool) (h : Heap) (va : ℕ) {h' : Heap}
    → retrieve_page_from_disk got mapped va h ≡ ok h'
    → h'.resident_heap_pages ≡ h.resident_heap_pages
unfolding retrieve_page_from_disk
retrieve-resident false mapped h va e = elim (Option-cases (take_block va h.heap_tracker none)) [
  | inl gone ↦
      ap (λ (t : Heap). t.resident_heap_pages)
        (sym (ok-injective (rw (gone, retrieve_page_from_disk) at e)))
  | inr (b, found) ↦ absurd (cc (rw (found, retrieve_page_from_disk) at e))
]
retrieve-resident true mapped h va e = elim (Option-cases (take_block va h.heap_tracker none)) [
  | inl gone ↦
      ap (λ (t : Heap). t.resident_heap_pages)
        (sym (ok-injective (rw (gone, retrieve_page_from_disk) at e)))
  | inr (b, found) ↦
      let (space, _, e') =
        >>=-eq-ok (bring_back mapped h.space va (read_page h.disk (psa_start + b))) _
          (rw (found, retrieve_page_from_disk) at e) in
      ap (λ (t : Heap). t.resident_heap_pages) (sym (ok-injective e'))
]

grow-resident :
    (got : Bool) (h : Heap) {h' : Heap}
    → grow got h ≡ ok h'
    → h'.resident_heap_pages ≡ h.resident_heap_pages
unfolding grow
grow-resident false h e = ap (λ (t : Heap). t.resident_heap_pages) (sym (ok-injective e))
grow-resident true h e =
    let (space, _, e') = >>=-eq-ok (map_page h.space (page_up h.sz) (λ _. 0)) _ e in
    ap (λ (t : Heap). t.resident_heap_pages) (sym (ok-injective e'))

room_left : Heap → Heap
room_left h = record h { resident_heap_pages = h.resident_heap_pages - 1 }

make_room_bound :
    (got : Bool) (h : Heap) {h' : Heap}
    → h.resident_heap_pages ≤ max_res_heap
    → make_room got h ≡ ok h'
    → h'.resident_heap_pages < max_res_heap
unfolding make_room room_left
make_room_bound got h {h'} le e = elim (ℕ_discrete h.resident_heap_pages max_res_heap) [
  | yes full ↦
      let go : (evict_page_to_disk got h >>= (λ h1. ok (room_left h1))) ≡ ok h' =
        ground (arith, full, e) in
      let (h1, ran, e') = >>=-eq-ok (evict_page_to_disk got h) _ go in
      let left : h1.resident_heap_pages - 1 ≡ h'.resident_heap_pages =
        ap (λ (t : Heap). t.resident_heap_pages) (ok-injective e') in
      omega (arith, full, evict-resident got h ran, left)
  | no room ↦
      let same : ok h ≡ ok h' = ground (arith, room, e) in
      omega (arith, room, le, ap (λ (t : Heap). t.resident_heap_pages) (ok-injective same))
]

make_room-Unmaps :
    (got : Bool) (h : Heap) {h' : Heap}
    → h.resident_heap_pages ≡ max_res_heap
    → make_room got h ≡ ok h'
    → Unmaps h h'
unfolding make_room room_left
make_room-Unmaps got h {h'} full e =
    let go : (evict_page_to_disk got h >>= (λ h1. ok (room_left h1))) ≡ ok h' =
      ground (arith, full, e) in
    let (h1, ran, e') = >>=-eq-ok (evict_page_to_disk got h) _ go in
    subst (Unmaps h) (ok-injective e') (evict-Unmaps got h ran)

-- The counter `resident_heap_pages` of a process, at most MAXRESHEAP before a fault on a heap page, is
-- at most MAXRESHEAP after the handler has served it; and if it was MAXRESHEAP, the page of the victim
-- is mapped nowhere after it, unless the victim is at the address of the fault or at the end of the
-- process, where the handler brings a page in.
pub handle_heap_bound :
    (m : Memory) (faulting_addr now : ℕ) (h : Heap) {h' : Heap}
    → h.resident_heap_pages ≤ max_res_heap
    → handle_heap m faulting_addr now h ≡ ok (some h')
    → (h'.resident_heap_pages ≤ max_res_heap)
      × (h.resident_heap_pages ≡ max_res_heap
          → (v : ℕ) × (victim_from h.heap_tracker h.heap_tracker 0 none ≡ some v)
            × (faulting_addr / page_size * page_size ≢ (tracked h.heap_tracker v).addr
                → page_up h.sz ≢ (tracked h.heap_tracker v).addr
                → h'.space (tracked h.heap_tracker v).addr ≡ none))
unfolding handle_heap
handle_heap_bound m faulting_addr now h {h'} le e =
    let va = faulting_addr / page_size * page_size in
    elim (Option-cases (entry_of va h.heap_tracker 0)) [
      | inl gone ↦ absurd (cc (rw (gone, handle_heap) at e))
      | inr (i, found) ↦
          let (h1, made, e1) =
            >>=-eq-ok (make_room m.for_evict h) _ (rw (found, handle_heap) at e) in
          let (h2, filled, e2) = >>=-eq-ok _ _ e1 in
          let last : h2.resident_heap_pages + 1 ≡ h'.resident_heap_pages =
            ap resident_of (ok-injective e2) in
          let on = (tracked h1.heap_tracker i).loaded in
          let kept : h2.resident_heap_pages ≡ h1.resident_heap_pages =
            filled_same h1 h2 va on filled in
          (
            omega (arith, make_room_bound m.for_evict h le made, last, kept),
            λ full.
                let (v, chosen, gone, size) = make_room-Unmaps m.for_evict h full made in
                let a = (tracked h.heap_tracker v).addr in
                (
                  v,
                  chosen,
                  λ ne ne'.
                      ap (mapped_at a) (sym (ok-injective e2))
                      ∙ (filled_other h1 h2 va a on ne (λ at. ne' (ap page_up (sym size) ∙ at))
                            filled
                          ∙ gone),
                ),
          )
    ]
  where
    resident_of : Option Heap → ℕ
    resident_of none = 0
    resident_of (some t) = t.resident_heap_pages

    filled_same :
        (h1 h2 : Heap) (va : ℕ) (on : Bool)
        → (if on
            then retrieve_page_from_disk m.for_retrieve m.for_user va h1
            else grow m.for_user h1)
          ≡ ok h2
        → h2.resident_heap_pages ≡ h1.resident_heap_pages
    filled_same h1 h2 va true f = retrieve-resident m.for_retrieve m.for_user h1 va f
    filled_same h1 h2 va false f = grow-resident m.for_user h1 f

    mapped_at : ℕ → Option Heap → Option Data
    mapped_at a none = none
    mapped_at a (some t) = t.space a

    filled_other :
        (h1 h2 : Heap) (va a : ℕ) (on : Bool)
        → va ≢ a
        → page_up h1.sz ≢ a
        → (if on
            then retrieve_page_from_disk m.for_retrieve m.for_user va h1
            else grow m.for_user h1)
          ≡ ok h2
        → h2.space a ≡ h1.space a
    filled_other h1 h2 va a true ne ne' f = retrieve-other m.for_retrieve m.for_user h1 va a ne f
    filled_other h1 h2 va a false ne ne' f = grow-other m.for_user h1 a ne' f
