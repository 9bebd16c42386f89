-- ===== src/Content/Pointers.antt =====
-- The block numbers of an inode, by their place: those of the file's blocks, then the indirect block.
use advanced_operating_syste.Prelude.{
  ℕ, ◌+◌, ◌-◌, ◌*◌, ◌^◌, ◌≤◌, ◌<◌, ◌≡◌, ◌≢◌, refl, ap, ◌∙◌, ◌⊎◌, inl, inr, true, false, ◌==◌, ltb,
  if◌then◌else◌, arith, ℕ_discrete, dec_lt,
}
use advanced_operating_syste.Prelude.Maps.{put, put-at, put-ne}
use advanced_operating_syste.Memory.{Bytes, load, store}
use advanced_operating_syste.Memory.Laws.{store_outside, load_ext, load-store_bytes}
use advanced_operating_syste.Content.{ndirect, maxfile}

abbrev pub ptr_of : (ℕ → ℕ) → (ℕ → Bytes) → ℕ → ℕ
ptr_of addrs d p =
    if p == maxfile
    then addrs 12
    else if ltb p ndirect
    then addrs p
    else if addrs 12 == 0
    then 0
    else load 4 (d (addrs 12)) (4 * (p - ndirect))

load-store_4 : (m : Bytes) (a v : ℕ) → v < 2 ^ 32 → load 4 (store 4 m a v) a ≡ v
load-store_4 m a v lt = omega (arith, lt, load-store_bytes 4 m a v)

load-store_4_apart :
    (m : Bytes) (a b v : ℕ) → (b + 4 ≤ a) ⊎ (a + 4 ≤ b) → load 4 (store 4 m a v) b ≡ load 4 m b
load-store_4_apart m a b v (inl e) =
    load_ext 4 (store 4 m a v) m b (λ q x y. store_outside 4 m a v q (inl (omega (arith, e, y))))
load-store_4_apart m a b v (inr e) =
    load_ext 4 (store 4 m a v) m b (λ q x y. store_outside 4 m a v q (inr (omega (arith, e, x))))

load_zero : (m : Bytes) (a : ℕ) → ((o : ℕ) → m o ≡ 0) → load 4 m a ≡ 0
unfolding load
load_zero m a zeros =
    let e0 = zeros a in
    let e1 = zeros (a + 1) in
    let e2 = zeros (a + 1 + 1) in let e3 = zeros (a + 1 + 1 + 1) in omega (arith, e0, e1, e2, e3)

-- Other blocks than the indirect one do not matter.
pub ptr_data :
    (addrs : ℕ → ℕ) (d d' : ℕ → Bytes) (p : ℕ)
    → (addrs 12 ≢ 0 → d' (addrs 12) ≡ d (addrs 12))
    → ptr_of addrs d' p ≡ ptr_of addrs d p
ptr_data addrs d d' p same = elim (ℕ_discrete (addrs 12) 0) [
  | yes e ↦ let c : addrs 12 == 0 ≡ true = ground (arith, e) in rw c refl
  | no ne ↦ rw (same ne) refl
]

-- A new direct block.
pub ptr_direct :
    (addrs : ℕ → ℕ) (d : ℕ → Bytes) (i b p : ℕ)
    → i < ndirect
    → p ≢ i
    → ptr_of (put addrs i b) d p ≡ ptr_of addrs d p
ptr_direct addrs d i b p lt ne =
    let ind : put addrs i b 12 ≡ addrs 12 = put-ne addrs i b 12 (omega (arith, lt)) in
    let same : put addrs i b p ≡ addrs p = put-ne addrs i b p ne in
    ap
      (λ x.
        if p == maxfile
        then x
        else if ltb p ndirect
        then put addrs i b p
        else if x == 0
        then 0
        else load 4 (d x) (4 * (p - ndirect)))
      ind
    ∙ ap
        (λ y.
          if p == maxfile
          then addrs 12
          else if ltb p ndirect
          then y
          else if addrs 12 == 0
          then 0
          else load 4 (d (addrs 12)) (4 * (p - ndirect)))
        same

pub ptr-direct_at :
    (addrs : ℕ → ℕ) (d : ℕ → Bytes) (i b : ℕ) → i < ndirect → ptr_of (put addrs i b) d i ≡ b
ptr-direct_at addrs d i b lt = ground (arith, lt)

-- A new indirect block, which is clear.
pub ptr_indirect :
    (addrs : ℕ → ℕ) (d : ℕ → Bytes) (b p : ℕ)
    → addrs 12 ≡ 0
    → ((o : ℕ) → d b o ≡ 0)
    → p ≢ maxfile
    → ptr_of (put addrs 12 b) d p ≡ ptr_of addrs d p
ptr_indirect addrs d b p e zeros ne =
    let clear : load 4 (d b) (4 * (p - ndirect)) ≡ 0 = load_zero (d b) (4 * (p - ndirect)) zeros in
    ground (arith, e, ne, clear)

-- A new number in the indirect block.
pub ptr_word :
    (addrs : ℕ → ℕ) (d : ℕ → Bytes) (i v p : ℕ)
    → p ≢ ndirect + i
    → ptr_of addrs (put d (addrs 12) (store 4 (d (addrs 12)) (4 * i) v)) p ≡ ptr_of addrs d p
ptr_word addrs d i v p ne =
    let new = store 4 (d (addrs 12)) (4 * i) v in
    let here : put d (addrs 12) new (addrs 12) ≡ new = put-at d (addrs 12) new in
    ap
      (λ blk.
        if p == maxfile
        then addrs 12
        else if ltb p ndirect
        then addrs p
        else if addrs 12 == 0
        then 0
        else load 4 blk (4 * (p - ndirect)))
      here
    ∙ elim (dec_lt p ndirect) [
      | yes lt ↦ let c : ltb p ndirect ≡ true = ground (arith, lt) in rw c refl
      | no ge ↦
          let apart : (4 * (p - ndirect) + 4 ≤ 4 * i) ⊎ (4 * i + 4 ≤ 4 * (p - ndirect)) =
            sides ge in
          rw (load-store_4_apart (d (addrs 12)) (4 * i) (4 * (p - ndirect)) v apart) refl
    ]
  where
    sides : ¬ (p < ndirect) → (4 * (p - ndirect) + 4 ≤ 4 * i) ⊎ (4 * i + 4 ≤ 4 * (p - ndirect))
    sides ge = elim (dec_lt (p - ndirect) i) [
      | yes lt ↦ inl (omega (arith, lt))
      | no le ↦ inr (omega (arith, le, ge, ne))
    ]

pub ptr-word_at :
    (addrs : ℕ → ℕ) (d : ℕ → Bytes) (i v : ℕ)
    → i < 256
    → v < 2 ^ 32
    → addrs 12 ≢ 0
    → ptr_of addrs (put d (addrs 12) (store 4 (d (addrs 12)) (4 * i) v)) (ndirect + i) ≡ v
ptr-word_at addrs d i v lt small ne =
    let new = store 4 (d (addrs 12)) (4 * i) v in
    let here : put d (addrs 12) new (addrs 12) ≡ new = put-at d (addrs 12) new in
    let c1 : ndirect + i == maxfile ≡ false = ground (arith, lt) in
    let c2 : ltb (ndirect + i) ndirect ≡ false = ground arith in
    let c3 : addrs 12 == 0 ≡ false = ground (arith, ne) in
    let back : ndirect + i - ndirect ≡ i = omega arith in
    rw (c1, c2, c3)
      (ap (λ blk. load 4 blk (4 * (ndirect + i - ndirect))) here
        ∙ (ap (λ k. load 4 new (4 * k)) back ∙ load-store_4 (d (addrs 12)) (4 * i) v small))
