-- ===== src/Content/Grown.antt =====
-- The invariant of the block numbers, and what an allocation keeps of it.
use advanced_operating_syste.Prelude.{
  ℕ, zero, suc, ◌+◌, ◌^◌, ◌≤◌, ◌<◌, ◌≡◌, ◌≢◌, refl, sym, ap, subst, ◌∙◌, ◌⊎◌, inl, inr, Bool, true,
  false, ◌==◌, if◌then◌else◌, Option, none, some, arith, ℕ_discrete, Bool-cases, Option-cases,
}
use advanced_operating_syste.Prelude.Maps.{put-ne}
use advanced_operating_syste.Content.{maxfile, Store, find_bit, taken, balloc}
use advanced_operating_syste.Content.Pointers.{ptr_of, ptr_data}

abbrev pub ptr : Store → ℕ → ℕ
ptr s = ptr_of s.addrs s.data_at

-- Every block of the inode is marked in the bitmap, no block serves two places, block 0 is nobody's,
-- and block numbers fit in 32 bits.
pub record IsValid (s : Store) : Type 0 where
  pub live : (p : ℕ) → p ≤ maxfile → ptr s p ≢ 0 → s.used (ptr s p) ≡ true
  pub own : (p q : ℕ) → p ≤ maxfile → q ≤ maxfile → ptr s p ≢ 0 → ptr s p ≡ ptr s q → p ≡ q
  pub zero_used : s.used 0 ≡ true
  pub fits : s.sb_size ≤ 2 ^ 32

-- The place `p`, which was empty, has got the block `b`, which was free, and nothing else has changed.
pub record Grown (s : Store) (p b : ℕ) (s' : Store) : Type 0 where
  pub was_free : s.used b ≡ false
  pub at : ptr s' p ≡ b
  pub others : (q : ℕ) → q ≤ maxfile → q ≢ p → ptr s' q ≡ ptr s q
  pub marked : (k : ℕ) → s'.used k ≡ (if k == b then true else s.used k)
  pub same_size : s'.sb_size ≡ s.sb_size
  pub file_size : s'.size ≡ s.size
  pub clear : (o : ℕ) → s'.data_at b o ≡ 0
  pub kept : (k : ℕ) → s.used k ≡ true → k ≢ s'.addrs 12 → s'.data_at k ≡ s.data_at k

pub nonzero : (s : Store) (b : ℕ) → IsValid s → s.used b ≡ false → b ≢ 0
nonzero s b v free e = absurd (cc (v.zero_used, free, ap s.used e))

unlike : (s : Store) (b q : ℕ) → IsValid s → s.used b ≡ false → q ≤ maxfile → ptr s q ≢ b
unlike s b q v free le e =
    let live = v.live q le (λ z. nonzero s b v free (sym e ∙ z)) in
    absurd (cc (live, free, ap s.used e))

pub grown-IsValid : (s : Store) (p b : ℕ) (s' : Store) → Grown s p b s' → IsValid s → IsValid s'
grown-IsValid s p b s' g v = record {
  live = λ q le ne. elim (ℕ_discrete q p) [
    | yes e ↦
        g.marked (ptr s' q) ∙ (let at : ptr s' q ≡ b = ap (ptr s') e ∙ g.at in ground (arith, at))
    | no other ↦
        let same = g.others q le other in
        g.marked (ptr s' q) ∙ still (ptr s' q) (ap s.used same ∙ v.live q le (λ z. ne (same ∙ z)))
  ];
  own = λ q r le le' ne e. elim (ℕ_discrete q p) [
    | yes eq ↦ elim (ℕ_discrete r p) [
      | yes er ↦ eq ∙ sym er
      | no or ↦ absurd (
          unlike s b r v g.was_free le'
            (sym (g.others r le' or) ∙ (sym e ∙ (ap (ptr s') eq ∙ g.at))))
    ]
    | no oq ↦ elim (ℕ_discrete r p) [
      | yes er ↦
          absurd
            (unlike s b q v g.was_free le (sym (g.others q le oq) ∙ (e ∙ (ap (ptr s') er ∙ g.at))))
      | no or ↦
          v.own q r le le' (λ z. ne (g.others q le oq ∙ z))
            (sym (g.others q le oq) ∙ (e ∙ g.others r le' or))
    ]
  ];
  zero_used = g.marked 0 ∙ still 0 v.zero_used;
  fits = let le = v.fits in let same = g.same_size in omega (arith, le, same);
}
  where
    still : (k : ℕ) → s.used k ≡ true → (if k == b then true else s.used k) ≡ true
    still k e = elim (Bool-cases (k == b)) [ inl c ↦ rw c refl | inr c ↦ rw c e ]

-- The contents of the other blocks of the file.
pub Grown-kept :
    (s : Store) (p b : ℕ) (s' : Store)
    → Grown s p b s'
    → IsValid s
    → (q : ℕ) → q < maxfile
    → ptr s q ≢ 0
    → s'.data_at (ptr s q) ≡ s.data_at (ptr s q)
Grown-kept s p b s' g v q lt ne =
    g.kept (ptr s q) (v.live q (omega (arith, lt)) ne) (elim (ℕ_discrete maxfile p) [
      | yes e ↦
          λ same. unlike s b q v g.was_free (omega (arith, lt)) (same ∙ (ap (ptr s') e ∙ g.at))
      | no other ↦ λ same.
          let le : q ≤ maxfile = omega (arith, lt) in
          let eq : q ≡ maxfile =
            v.own q maxfile le (omega arith) ne (same ∙ g.others maxfile (omega arith) other) in
          absurd (omega (arith, eq, lt))
    ])

-- No block of the device is free.
abbrev pub Full : Store → Type 0
Full s = (b : ℕ) → b < s.sb_size → s.used b ≡ true

abbrev Bit : (ℕ → Bool) → ℕ → ℕ → Option ℕ → Type 0
Bit used n b none = (k : ℕ) → b ≤ k → k < b + n → used k ≡ true
Bit used n b (some k) = (k < b + n) × (used k ≡ false)

Bit-later :
    (used : ℕ → Bool) (n b : ℕ) (r : Option ℕ)
    → used b ≡ true
    → Bit used n (b + 1) r
    → Bit used (suc n) b r
Bit-later used n b none e bit = λ k le lt. elim (ℕ_discrete k b) [
  | yes at ↦ ap used at ∙ e
  | no ne ↦ bit k (omega (arith, le, ne)) (omega (arith, lt))
]
Bit-later used n b (some k) e (lt, free) = (omega (arith, lt), free)

find_bit_lem : (used : ℕ → Bool) (n b : ℕ) → Bit used n b (find_bit n b used)
unfolding find_bit
find_bit_lem used zero b = λ k le lt. absurd (omega (arith, le, lt))
find_bit_lem used (suc n) b = elim (Bool-cases (used b)) [
  | inl e ↦ rw e (Bit-later used n b (find_bit n (b + 1) used) e (find_bit_lem used n (b + 1)))
  | inr e ↦ rw e (omega arith, e)
]

-- `balloc` takes a free block, or there is none.
pub balloc_lem :
    (s : Store)
    → IsValid s
    → ((balloc s ≡ (0, s)) × Full s)
      ⊎ ((b : ℕ) × ((balloc s ≡ (b, taken b s)) × (s.used b ≡ false) × (b < s.sb_size)))
unfolding balloc
balloc_lem s v = elim (Option-cases (find_bit s.sb_size 0 s.used)) [
  | inl e ↦
      let full : Bit s.used s.sb_size 0 none =
        subst (Bit s.used s.sb_size 0) e (find_bit_lem s.used s.sb_size 0) in
      inl (rw (e, balloc) refl, λ b lt. full b (omega arith) (omega (arith, lt)))
  | inr (b, e) ↦
      let (lt, free) : Bit s.used s.sb_size 0 (some b) =
        subst (Bit s.used s.sb_size 0) e (find_bit_lem s.used s.sb_size 0) in
      inr (b, (rw (e, balloc) refl, free, omega (arith, lt)))
]

-- The allocation itself moves no place.
pub ptr-taken :
    (s : Store) (b p : ℕ)
    → IsValid s
    → s.used b ≡ false
    → ptr_of s.addrs (taken b s).data_at p ≡ ptr s p
ptr-taken s b p v free =
    ptr_data s.addrs s.data_at (taken b s).data_at p
      (λ ne. put-ne s.data_at b (λ _. 0) (s.addrs 12) (unlike s b maxfile v free (omega arith)))
