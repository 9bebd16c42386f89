-- ===== src/Content/Entries.antt =====
-- What an entry of `addrs` or of the indirect block comes to.
use advanced_operating_syste.Prelude.{
  ℕ, ◌+◌, ◌-◌, ◌*◌, ◌≤◌, ◌<◌, ◌≡◌, ◌≢◌, refl, sym, ap, ◌∙◌, ◌⊎◌, inl, inr, true, false, ◌==◌, ltb,
  if◌then◌else◌, arith, ℕ_discrete,
}
use advanced_operating_syste.Prelude.Maps.{put, put-at, put-ne}
use advanced_operating_syste.Memory.{load, store}
use advanced_operating_syste.Content.{
  ndirect, nindirect, maxfile, Store, taken, word, set_word, addr_entry, word_entry,
}
use advanced_operating_syste.Content.Pointers.{
  ptr_direct, ptr-direct_at, ptr_indirect, ptr_word, ptr-word_at,
}
use advanced_operating_syste.Content.Grown.{
  ptr, IsValid, Grown, nonzero, Full, balloc_lem, ptr-taken,
}

-- What looking up a place comes to: its block; nothing, on a full device; or a new block for it.
abbrev pub Entered : Store → ℕ → ℕ × Store → Type 0
Entered s p r =
    ((ptr s p ≢ 0) × (r ≡ (ptr s p, s)))
    ⊎ ((ptr s p ≡ 0) × (r ≡ (0, s)) × Full s)
    ⊎ ((ptr s p ≡ 0) × ((b : ℕ) × (s' : Store) × ((r ≡ (b, s')) × Grown s p b s')))

abbrev with_addr : Store → ℕ → ℕ → Store
with_addr s i b = record (taken b s) { addrs = put s.addrs i b }

marks : (s : Store) (b k : ℕ) → put s.used b true k ≡ (if k == b then true else s.used k)
marks s b k = refl

-- A new block in `addrs`.
new_addr :
    (s : Store) (i p b : ℕ)
    → IsValid s
    → s.used b ≡ false
    → ptr (with_addr s i b) p ≡ b
    → ((q : ℕ) → q ≤ maxfile → q ≢ p → ptr (with_addr s i b) q ≡ ptr s q)
    → Grown s p b (with_addr s i b)
new_addr s i p b v free at others = record {
  was_free = free;
  at = at;
  others = others;
  marked = marks s b;
  same_size = refl;
  file_size = refl;
  clear = λ o. ap (λ (f : ℕ → ℕ). f o) (put-at s.data_at b (λ _. 0));
  kept = λ k in_use _. put-ne s.data_at b (λ _. 0) k (λ e. absurd (cc (in_use, free, ap s.used e)));
}

addr_entry-Entered :
    (s : Store) (i p : ℕ)
    → IsValid s
    → ptr s p ≡ s.addrs i
    → ((b : ℕ) → s.used b ≡ false → s.addrs i ≡ 0 → Grown s p b (with_addr s i b))
    → Entered s p (addr_entry i s)
unfolding addr_entry
addr_entry-Entered s i p v here grows = elim (ℕ_discrete (s.addrs i) 0) [
  | no ne ↦
      let c : s.addrs i == 0 ≡ false = ground (arith, ne) in
      inl ((λ z. ne (sym here ∙ z)), rw (c, addr_entry) (ap (λ a. (a, s)) (sym here)))
  | yes e ↦
      let c : s.addrs i == 0 ≡ true = ground (arith, e) in
      elim (balloc_lem s v) [
        | inl (none_left, full) ↦ inr (inl (here ∙ e, rw (c, none_left, addr_entry) refl, full))
        | inr (b, (got, free, lt)) ↦
            let c' : b == 0 ≡ false = nonzero_test b (nonzero s b v free) in
            inr (
              inr (
                here ∙ e,
                (b, with_addr s i b, (rw (c, got, addr_entry) (rw c' refl), grows b free e)),
              ))
      ]
]
  where
    nonzero_test : (b : ℕ) → b ≢ 0 → b == 0 ≡ false
    nonzero_test b ne = ground (arith, ne)

pub direct-Entered : (s : Store) (i : ℕ) → i < ndirect → IsValid s → Entered s i (addr_entry i s)
direct-Entered s i lt v = addr_entry-Entered s i i v (ground (arith, lt)) (λ b free empty.
    new_addr s i i b v free (ptr-direct_at s.addrs (taken b s).data_at i b lt)
      (λ q le ne. ptr_direct s.addrs (taken b s).data_at i b q lt ne ∙ ptr-taken s b q v free))

pub indirect-Entered : (s : Store) → IsValid s → Entered s maxfile (addr_entry 12 s)
indirect-Entered s v = addr_entry-Entered s 12 maxfile v refl (λ b free empty.
    new_addr s 12 maxfile b v free (put-at s.addrs 12 b) (λ q le ne.
      ptr_indirect s.addrs (taken b s).data_at b q empty
        (λ o. ap (λ (f : ℕ → ℕ). f o) (put-at s.data_at b (λ _. 0))) ne
      ∙ ptr-taken s b q v free))

ptr-word_is :
    (s : Store) (i : ℕ)
    → i < nindirect
    → s.addrs 12 ≢ 0
    → ptr s (ndirect + i) ≡ word s (s.addrs 12) i
ptr-word_is s i lt ne =
    let c1 : ndirect + i == maxfile ≡ false = ground (arith, lt) in
    let c2 : ltb (ndirect + i) ndirect ≡ false = ground arith in
    let c3 : s.addrs 12 == 0 ≡ false = ground (arith, ne) in
    let back : ndirect + i - ndirect ≡ i = omega arith in
    rw (c1, c2, c3) (ap (λ k. load 4 (s.data_at (s.addrs 12)) (4 * k)) back)

-- A new block in the indirect block.
new_word :
    (s : Store) (i b : ℕ)
    → IsValid s
    → i < nindirect
    → s.addrs 12 ≢ 0
    → s.used b ≡ false
    → b < s.sb_size
    → Grown s (ndirect + i) b (set_word (s.addrs 12) i b (taken b s))
new_word s i b v lt ne free small =
    let ind = s.addrs 12 in
    let apart : ind ≢ b = λ e. absurd (cc (v.live maxfile (omega arith) ne, free, ap s.used e)) in
    let fits = v.fits in
    record {
      was_free = free;
      at = ptr-word_at s.addrs (taken b s).data_at i b lt (omega (arith, small, fits)) ne;
      others =
          λ q le other. ptr_word s.addrs (taken b s).data_at i b q other ∙ ptr-taken s b q v free;
      marked = marks s b;
      same_size = refl;
      file_size = refl;
      clear = λ o.
          ap (λ (f : ℕ → ℕ). f o)
            (put-ne (taken b s).data_at ind (store 4 ((taken b s).data_at ind) (4 * i) b) b
                (λ e. apart (sym e))
              ∙ put-at s.data_at b (λ _. 0));
      kept = λ k in_use other.
          put-ne (taken b s).data_at ind (store 4 ((taken b s).data_at ind) (4 * i) b) k other
          ∙ put-ne s.data_at b (λ _. 0) k (λ e. absurd (cc (in_use, free, ap s.used e)));
    }

pub word_entry-Entered :
    (s : Store) (i : ℕ)
    → IsValid s
    → i < nindirect
    → s.addrs 12 ≢ 0
    → Entered s (ndirect + i) (word_entry (s.addrs 12) i s)
unfolding word_entry
word_entry-Entered s i v lt ind_ne = elim (ℕ_discrete (word s (s.addrs 12) i) 0) [
  | no ne ↦
      let c : word s (s.addrs 12) i == 0 ≡ false = is_false (word s (s.addrs 12) i) ne in
      inl ((λ z. ne (sym here ∙ z)), rw (c, word_entry) (ap (λ a. (a, s)) (sym here)))
  | yes e ↦
      let c : word s (s.addrs 12) i == 0 ≡ true = is_true (word s (s.addrs 12) i) e in
      elim (balloc_lem s v) [
        | inl (none_left, full) ↦ inr (inl (here ∙ e, rw (c, none_left, word_entry) refl, full))
        | inr (b, (got, free, small)) ↦
            let c' : b == 0 ≡ false = is_false b (nonzero s b v free) in
            inr (
              inr (
                here ∙ e,
                (
                  b,
                  set_word (s.addrs 12) i b (taken b s),
                  (rw (c, got, word_entry) (rw c' refl), new_word s i b v lt ind_ne free small),
                ),
              ))
      ]
]
  where
    here : ptr s (ndirect + i) ≡ word s (s.addrs 12) i
    here = ptr-word_is s i lt ind_ne

    is_false : (b : ℕ) → b ≢ 0 → b == 0 ≡ false
    is_false b ne = ground (arith, ne)

    is_true : (b : ℕ) → b ≡ 0 → b == 0 ≡ true
    is_true b e = ground (arith, e)
