-- ===== src/Content/Bmap.antt =====
-- What bmap does to the block numbers of an inode.
use advanced_operating_syste.Prelude.{
  ℕ, ◌+◌, ◌-◌, ◌<◌, ◌≡◌, ◌≢◌, refl, sym, ap, subst, ◌∙◌, ◌⊎◌, inl, inr, true, false, ◌==◌, ltb,
  if◌then◌else◌, ok, arith, Bool-cases, dec_lt,
}
use advanced_operating_syste.Content.{
  ndirect, nindirect, maxfile, Store, addr_entry, word_entry, bmap,
}
use advanced_operating_syste.Content.Grown.{
  ptr, IsValid, Grown, nonzero, grown-IsValid, Grown-kept, Full,
}
use advanced_operating_syste.Content.Entries.{
  Entered, direct-Entered, indirect-Entered, word_entry-Entered,
}

-- What a call of bmap leaves for the place `p`: the invariant, the other places, and the contents of
-- the blocks of the file; and it gives the block of the place, a clear block for an empty place, or 0
-- on a full device.
pub record Mapped (s : Store) (p addr : ℕ) (s' : Store) : Type 0 where
  pub valid : IsValid s'
  pub file_size : s'.size ≡ s.size
  pub others : (q : ℕ) → q < maxfile → q ≢ p → ptr s' q ≡ ptr s q
  pub contents : (q : ℕ) → q < maxfile → ptr s q ≢ 0 → s'.data_at (ptr s q) ≡ s.data_at (ptr s q)
  pub given :
      ((ptr s p ≢ 0) × (addr ≡ ptr s p) × (s' ≡ s))
      ⊎ ((ptr s p ≡ 0) × (addr ≡ 0) × (ptr s' p ≡ 0) × Full s')
      ⊎ ((ptr s p ≡ 0)
          × (addr ≢ 0)
          × (ptr s' p ≡ addr)
          × (s.used addr ≡ false)
          × ((o : ℕ) → s'.data_at addr o ≡ 0))

Entered-Mapped :
    (s : Store) (p : ℕ) (r : ℕ × Store) → IsValid s → Entered s p r → Mapped s p r.0 r.1
Entered-Mapped s p r v (inl (ne, e)) =
    subst (λ (x : ℕ × Store). Mapped s p x.0 x.1) (sym e)
      (record {
        valid = v;
        file_size = refl;
        others = λ q lt other. refl;
        contents = λ q lt there. refl;
        given = inl (ne, refl, refl);
      })
Entered-Mapped s p r v (inr (inl (empty, e, full))) =
    subst (λ (x : ℕ × Store). Mapped s p x.0 x.1) (sym e)
      (record {
        valid = v;
        file_size = refl;
        others = λ q lt other. refl;
        contents = λ q lt there. refl;
        given = inr (inl (empty, refl, empty, full));
      })
Entered-Mapped s p r v (inr (inr (empty, (b, s', (e, g))))) =
    subst (λ (x : ℕ × Store). Mapped s p x.0 x.1) (sym e)
      (record {
        valid = grown-IsValid s p b s' g v;
        file_size = g.file_size;
        others = λ q lt other. g.others q (omega (arith, lt)) other;
        contents = Grown-kept s p b s' g v;
        given = inr (inr (empty, nonzero s b v g.was_free, g.at, g.was_free, g.clear));
      })

-- After a new indirect block.
Mapped-Grown :
    (s : Store) (p ind : ℕ) (s1 : Store) (addr : ℕ) (s' : Store)
    → p < maxfile
    → ptr s p ≡ 0
    → IsValid s
    → Grown s maxfile ind s1
    → Mapped s1 p addr s'
    → Mapped s p addr s'
Mapped-Grown s p ind s1 addr s' lt empty v g m =
    let same : (q : ℕ) → q < maxfile → ptr s1 q ≡ ptr s q =
      λ q q_lt. g.others q (omega (arith, q_lt)) (λ e. absurd (omega (arith, q_lt, e))) in
    record {
      valid = m.valid;
      file_size = m.file_size ∙ g.file_size;
      others = λ q q_lt other. m.others q q_lt other ∙ same q q_lt;
      contents = λ q q_lt there.
          subst (λ k. s'.data_at k ≡ s1.data_at k) (same q q_lt)
            (m.contents q q_lt (λ z. there (sym (same q q_lt) ∙ z)))
          ∙ Grown-kept s maxfile ind s1 g v q q_lt there;
      given = elim (m.given) [
        | inl (there, _, _) ↦ absurd (there (same p lt ∙ empty))
        | inr (inl (_, none_left, at, full)) ↦ inr (inl (empty, none_left, at, full))
        | inr (inr (_, ne, at, free, clear)) ↦ inr (inr (empty, ne, at, was_free free, clear))
      ];
    }
  where
    was_free : s1.used addr ≡ false → s.used addr ≡ false
    was_free free = elim (Bool-cases (addr == ind)) [
      | inl e ↦ absurd (cc (free, g.marked addr, ap (λ b. if b then true else s.used addr) e))
      | inr e ↦ sym (ap (λ b. if b then true else s.used addr) e) ∙ (sym (g.marked addr) ∙ free)
    ]

-- A block below NDIRECT.
bmap_direct :
    (bn : ℕ) (s : Store)
    → IsValid s
    → bn < ndirect
    → (addr : ℕ) × (s' : Store) × ((bmap bn s ≡ ok (addr, s')) × Mapped s bn addr s')
unfolding bmap
bmap_direct bn s v lt =
    let r = addr_entry bn s in
    let c : ltb bn ndirect ≡ true = ground (arith, lt) in
    (r.0, r.1, (rw c refl, Entered-Mapped s bn r v (direct-Entered s bn lt v)))

-- One behind it.
bmap_indirect :
    (i : ℕ) (s : Store)
    → IsValid s
    → i < nindirect
    → (addr : ℕ) × (s' : Store) × ((bmap (ndirect + i) s ≡ ok (addr, s'))
        × Mapped s (ndirect + i) addr s')
unfolding bmap
bmap_indirect i s v lt =
    let back : ndirect + i - ndirect ≡ i = omega arith in
    let c1 : ltb (ndirect + i) ndirect ≡ false = ground arith in
    let c2 : ltb i nindirect ≡ true = ground (arith, lt) in
    elim (indirect-Entered s v) [
      | inl (ne, e) ↦
          let r = word_entry (s.addrs 12) i s in
          let c3 : s.addrs 12 == 0 ≡ false = is_false (s.addrs 12) ne in
          (
            r.0,
            r.1,
            (
              rw (c1, back, c2, e, bmap) (rw c3 refl),
              Entered-Mapped s (ndirect + i) r v (word_entry-Entered s i v lt ne),
            ),
          )
      | inr (inl (empty, e, full)) ↦
          let nothing : ptr s (ndirect + i) ≡ 0 = ground (arith, empty, lt) in
          (
            0,
            s,
            (
              rw (c1, back, c2, e, bmap) refl,
              Entered-Mapped s (ndirect + i) (0, s) v (inr (inl (nothing, refl, full))),
            ),
          )
      | inr (inr (empty, (ind, s1, (e, g)))) ↦
          let nothing : ptr s (ndirect + i) ≡ 0 = ground (arith, empty, lt) in
          let ne : ind ≢ 0 = nonzero s ind v g.was_free in
          let v1 = grown-IsValid s maxfile ind s1 g v in
          let r = word_entry (s1.addrs 12) i s1 in
          let c3 : ind == 0 ≡ false = is_false ind ne in
          let at : s1.addrs 12 ≡ ind = g.at in
          (
            r.0,
            r.1,
            (
              rw (c1, back, c2, e, bmap) (rw c3 (ap (λ k. ok (word_entry k i s1)) (sym at))),
              Mapped-Grown s (ndirect + i) ind s1 r.0 r.1 (omega (arith, lt)) nothing v g (
                  Entered-Mapped s1 (ndirect + i) r v1
                    (word_entry-Entered s1 i v1 lt (λ z. ne (sym at ∙ z)))),
            ),
          )
    ]
  where
    is_false : (b : ℕ) → b ≢ 0 → b == 0 ≡ false
    is_false b ne = ground (arith, ne)

-- Where the block numbers of an inode are marked and apart, `bmap` of any block up to MAXFILE
-- returns, keeps that and the other block numbers with the contents of their blocks, and gives
-- the block that is there, a clear block that was free for one that is not, or 0 when no block of
-- the device is free.
pub bmap-Mapped :
    (bn : ℕ) (s : Store)
    → IsValid s
    → bn < maxfile
    → (addr : ℕ) × (s' : Store) × ((bmap bn s ≡ ok (addr, s')) × Mapped s bn addr s')
bmap-Mapped bn s v lt = elim (dec_lt bn ndirect) [
  | yes direct ↦ bmap_direct bn s v direct
  | no behind ↦
      let e : ndirect + (bn - ndirect) ≡ bn = omega (arith, behind) in
      subst (λ k. (addr : ℕ) × (s' : Store) × ((bmap k s ≡ ok (addr, s')) × Mapped s k addr s')) e
        (bmap_indirect (bn - ndirect) s v (omega (arith, lt, behind)))
]
