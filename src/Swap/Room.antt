-- ===== src/Swap/Room.antt =====
-- Which addresses eviction, return and growth map and unmap.
use advanced_operating_syste.Prelude.{
  ℕ, ◌+◌, ◌≡◌, ◌≢◌, sym, ap, ◌∙◌, inl, inr, Bool, true, false, if◌then◌else◌, Option, none, some,
  ok, fault, ◌>>=◌, >>=-eq-ok, arith, ok-injective, Option-cases,
}
use advanced_operating_syste.Swap.{
  Heap, Data, tracked, psa_start, put, victim_from, take_block, take_back, mark, read_page,
  map_page, bring_back, evict_page_to_disk, retrieve_page_from_disk,
}
use advanced_operating_syste.Swap.Handler.{page_up, grow}

map_page-other :
    (space : ℕ → Option Data) (va : ℕ) (page : Data) {s' : ℕ → Option Data} (q : ℕ)
    → va ≢ q
    → map_page space va page ≡ ok s'
    → s' q ≡ space q
map_page-other space va page q ne e = elim (Option-cases (space va)) [
  | inl free ↦
      let at : ok (put space va (some page)) ≡ ok _ = rw (free, map_page) at e in
      ap (λ f. f q) (sym (ok-injective at)) ∙ ground (arith, ne)
  | inr (_, there) ↦ absurd (cc (rw (there, map_page) at e))
]

bring_back-other :
    (mapped : Bool) (space : ℕ → Option Data) (va : ℕ) (page : Data) {s' : ℕ → Option Data} (q : ℕ)
    → va ≢ q
    → bring_back mapped space va page ≡ ok s'
    → s' q ≡ space q
bring_back-other true space va page q ne e = map_page-other space va page q ne e
bring_back-other false space va page q ne e = elim (Option-cases (space va)) [
  | inl free ↦
      let at : ok space ≡ ok _ = rw (free, bring_back) at e in ap (λ f. f q) (sym (ok-injective at))
  | inr (_, there) ↦
      let at : ok (put space va (some page)) ≡ ok _ = rw (there, bring_back) at e in
      ap (λ f. f q) (sym (ok-injective at)) ∙ ground (arith, ne)
]

-- The handler's two ways to a page touch one address.
pub retrieve-other :
    (got mapped : Bool) (h : Heap) (va q : ℕ) {h' : Heap}
    → va ≢ q
    → retrieve_page_from_disk got mapped va h ≡ ok h'
    → h'.space q ≡ h.space q
unfolding retrieve_page_from_disk
retrieve-other got mapped h va q ne e = elim (Option-cases (take_block va h.heap_tracker none)) [
  | inl gone ↦
      ap (λ (t : Heap). t.space q) (sym (ok-injective (rw (gone, retrieve_page_from_disk) at e)))
  | inr (b, found) ↦ by_got b got (rw (found, retrieve_page_from_disk) at e)
]
  where
    by_got :
        (b : ℕ) {h' : Heap} (g : Bool)
        → (if g
            then (do
              space ← bring_back mapped h.space va (read_page h.disk (psa_start + b))
              ok (record h {
                heap_tracker = take_back va h.heap_tracker;
                space = space;
                psa_tracker = mark h.psa_tracker b false;
              }))
            else fault)
          ≡ ok h'
        → h'.space q ≡ h.space q
    by_got b false f = absurd (cc f)
    by_got b true f =
        let (space, ran, f') =
          >>=-eq-ok (bring_back mapped h.space va (read_page h.disk (psa_start + b))) _ f in
        ap (λ (t : Heap). t.space q) (sym (ok-injective f'))
        ∙ bring_back-other mapped h.space va (read_page h.disk (psa_start + b)) q ne ran

pub grow-other :
    (got : Bool) (h : Heap) (q : ℕ) {h' : Heap}
    → page_up h.sz ≢ q
    → grow got h ≡ ok h'
    → h'.space q ≡ h.space q
unfolding grow
grow-other false h q ne e = ap (λ (t : Heap). t.space q) (sym (ok-injective e))
grow-other true h q ne e =
    let (space, ran, e') = >>=-eq-ok (map_page h.space (page_up h.sz) (λ _. 0)) _ e in
    ap (λ (t : Heap). t.space q) (sym (ok-injective e'))
    ∙ map_page-other h.space (page_up h.sz) (λ _. 0) q ne ran

-- An eviction that succeeds unmaps its victim and leaves the size.
abbrev pub Unmaps : Heap → Heap → Type 0
Unmaps h h' =
    (v : ℕ) × (victim_from h.heap_tracker h.heap_tracker 0 none ≡ some v)
    × (h'.space (tracked h.heap_tracker v).addr ≡ none)
    × (h'.sz ≡ h.sz)

pub evict-Unmaps :
    (got : Bool) (h : Heap) {h' : Heap} → evict_page_to_disk got h ≡ ok h' → Unmaps h h'
unfolding evict_page_to_disk
evict-Unmaps got h e = elim (Option-cases (victim_from h.heap_tracker h.heap_tracker 0 none)) [
  | inl gone ↦ absurd (cc (rw (gone, evict_page_to_disk) at e))
  | inr (v, found) ↦
      let at = by_got got (rw (found, evict_page_to_disk) at e) in
      (
        v,
        found,
        ap (λ (t : Heap). t.space (tracked h.heap_tracker v).addr) (sym at) ∙ ground arith,
        ap (λ (t : Heap). t.sz) (sym at),
      )
]
  where
    by_got : (g : Bool) {h1 h' : Heap} → (if g then ok h1 else fault) ≡ ok h' → h1 ≡ h'
    by_got true f = ok-injective f
    by_got false f = absurd (cc f)
