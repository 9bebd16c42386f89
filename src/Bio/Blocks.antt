-- ===== src/Bio/Blocks.antt =====
-- No block is in two buffers.
use advanced_operating_syste.Prelude.{
  ℕ, ◌+◌, ◌-◌, ◌^◌, ◌<◌, ◌≡◌, ◌≢◌, refl, sym, ap, subst, ◌∙◌, inl, inr, Bool, true, false, ◌||◌,
  ◌==◌, none, some, List, [], ◌∷◌, length, set, ok, arith, ℕ_discrete, ok-injective, Bool-cases,
  Option-cases, if◌then◌else◌, ◌%◌, get_or-set_self, length-set, get_or-set_lem,
}
use advanced_operating_syste.Bio.{
  Buf, Bcache, no_buf, buf_at, with_buf, holds, find_cached, find_unused, wrap, bget, unlink,
  brelse,
}

abbrev pub listed : ℕ → List ℕ → Bool
listed i [] = false
listed i (j ∷ js) = j == i || listed i js

-- Every buffer is on the list and the list has no others; no two buffers have one block of a device
-- other than 0, which is that of the buffers never used.
pub record IsValid (c : Bcache) : Type 0 where
  pub covers : (i : ℕ) → i < length c.buf → listed i c.order ≡ true
  pub within : (i : ℕ) → listed i c.order ≡ true → i < length c.buf
  pub single :
      (i j : ℕ)
      → i < length c.buf
      → j < length c.buf
      → (buf_at c i).dev ≢ 0
      → (buf_at c i).dev ≡ (buf_at c j).dev
      → (buf_at c i).blockno ≡ (buf_at c j).blockno
      → i ≡ j

find_cached-none :
    (dev blockno : ℕ) (c : Bcache) (is : List ℕ) (i : ℕ)
    → find_cached dev blockno c is ≡ none
    → listed i is ≡ true
    → holds dev blockno (buf_at c i) ≡ false
unfolding find_cached
find_cached-none dev blockno c [] i e l = cc
find_cached-none dev blockno c (j ∷ js) i e l = elim (Bool-cases (holds dev blockno (buf_at c j))) [
  | inl here ↦ absurd (cc (rw here at e))
  | inr no_match ↦ elim (ℕ_discrete j i) [
    | yes same ↦ ap (λ k. holds dev blockno (buf_at c k)) (sym same) ∙ no_match
    | no ne ↦ find_cached-none dev blockno c js i (rw no_match at e) (ground (arith, l, ne))
  ]
]

find_cached-some :
    (dev blockno : ℕ) (c : Bcache) (is : List ℕ) (i : ℕ)
    → find_cached dev blockno c is ≡ some i
    → (listed i is ≡ true) × (holds dev blockno (buf_at c i) ≡ true)
unfolding find_cached
find_cached-some dev blockno c [] i e = absurd (cc)
find_cached-some dev blockno c (j ∷ js) i e = elim (Bool-cases (holds dev blockno (buf_at c j))) [
  | inl here ↦
      let same : j ≡ i = some_injective (rw here at e) in
      (ground (arith, same), ap (λ k. holds dev blockno (buf_at c k)) (sym same) ∙ here)
  | inr no_match ↦
      let (l, h) = find_cached-some dev blockno c js i (rw no_match at e) in (ground (arith, l), h)
]
  where
    some_injective : {a b : ℕ} → some a ≡ some b → a ≡ b
    some_injective q = cc

find_unused-some :
    (c : Bcache) (is : List ℕ) (i : ℕ)
    → find_unused c is ≡ some i
    → (listed i is ≡ true) × ((buf_at c i).refcnt ≡ 0)
unfolding find_unused
find_unused-some c [] i e = absurd (cc)
find_unused-some c (j ∷ js) i e = elim (Option-cases (find_unused c js)) [
  | inr (k, found) ↦
      let same : k ≡ i = some_injective (rw found at e) in
      let (l, z) = find_unused-some c js i (found ∙ ap some same) in (ground (arith, l), z)
  | inl gone ↦ elim (Bool-cases ((buf_at c j).refcnt == 0)) [
    | inl free_one ↦
        let same : j ≡ i = some_injective (rw (gone, free_one) at e) in
        (ground (arith, same), ap (λ k. (buf_at c k).refcnt) (sym same) ∙ ground (arith, free_one))
    | inr in_use ↦ absurd (cc (rw (gone, in_use) at e))
  ]
]
  where
    some_injective : {a b : ℕ} → some a ≡ some b → a ≡ b
    some_injective q = cc

-- A change of a buffer that keeps its block keeps the invariant.
same_block :
    (c : Bcache) (i : ℕ) (b : Buf)
    → b.dev ≡ (buf_at c i).dev
    → b.blockno ≡ (buf_at c i).blockno
    → i < length c.buf
    → (k : ℕ)
    → ((buf_at (with_buf c i b) k).dev ≡ (buf_at c k).dev)
      × ((buf_at (with_buf c i b) k).blockno ≡ (buf_at c k).blockno)
same_block c i b d n lt k = elim (ℕ_discrete i k) [
  | yes e ↦
      let at : buf_at (with_buf c i b) k ≡ b =
        get_or-set_lem c.buf i k b no_buf lt ∙ ground (arith, e) in
      (
        ap (λ (x : Buf). x.dev) at ∙ (d ∙ ap (λ x. (buf_at c x).dev) e),
        ap (λ (x : Buf). x.blockno) at ∙ (n ∙ ap (λ x. (buf_at c x).blockno) e),
      )
  | no ne ↦
      let at : buf_at (with_buf c i b) k ≡ buf_at c k =
        get_or-set_lem c.buf i k b no_buf lt ∙ ground (arith, ne) in
      (ap (λ (x : Buf). x.dev) at, ap (λ (x : Buf). x.blockno) at)
]

kept-IsValid :
    (c : Bcache) (i : ℕ) (b : Buf)
    → IsValid c
    → b.dev ≡ (buf_at c i).dev
    → b.blockno ≡ (buf_at c i).blockno
    → i < length c.buf
    → IsValid (with_buf c i b)
kept-IsValid c i b v d n lt =
    let len : length (set c.buf i b) ≡ length c.buf = length-set c.buf i b in
    let at = same_block c i b d n lt in
    record {
      covers = λ k h. v.covers k (omega (arith, len, h));
      within = λ k h. omega (arith, len, v.within k h);
      single = λ k j hk hj nz de ne.
          v.single k j (omega (arith, len, hk)) (omega (arith, len, hj)) (λ z. nz ((at k).0 ∙ z))
            (sym (at k).0 ∙ (de ∙ (at j).0)) (sym (at k).1 ∙ (ne ∙ (at j).1));
    }

-- A buffer that takes a block which no buffer has keeps it too.
taken-IsValid :
    (dev blockno : ℕ) (c : Bcache) (i : ℕ) (b : Buf)
    → IsValid c
    → b.dev ≡ dev
    → b.blockno ≡ blockno
    → i < length c.buf
    → find_cached dev blockno c c.order ≡ none
    → IsValid (with_buf c i b)
taken-IsValid dev blockno c i b v d n lt absent =
    let len : length (set c.buf i b) ≡ length c.buf = length-set c.buf i b in
    let new : (k : ℕ) → i ≡ k → buf_at (with_buf c i b) k ≡ b =
      λ k e. get_or-set_lem c.buf i k b no_buf lt ∙ ground (arith, e) in
    let old : (k : ℕ) → i ≢ k → buf_at (with_buf c i b) k ≡ buf_at c k =
      λ k ne. get_or-set_lem c.buf i k b no_buf lt ∙ ground (arith, ne) in
    let other : (k : ℕ)
        → k < length c.buf
        → (buf_at c k).dev ≡ dev
        → (buf_at c k).blockno ≡ blockno
        → ⊥ =
      λ k h de ne.
        ground (arith, find_cached-none dev blockno c c.order k absent (v.covers k h), de, ne) in
    record {
      covers = λ k h. v.covers k (omega (arith, len, h));
      within = λ k h. omega (arith, len, v.within k h);
      single = λ k j hk hj nz de ne. elim (ℕ_discrete i k) [
        | yes ek ↦ elim (ℕ_discrete i j) [
          | yes ej ↦ sym ek ∙ ej
          | no nj ↦ absurd (
              other j (omega (arith, len, hj))
                (ap (λ (x : Buf). x.dev) (sym (old j nj))
                  ∙ (sym de ∙ (ap (λ (x : Buf). x.dev) (new k ek) ∙ d)))
                (ap (λ (x : Buf). x.blockno) (sym (old j nj))
                  ∙ (sym ne ∙ (ap (λ (x : Buf). x.blockno) (new k ek) ∙ n))))
        ]
        | no nk ↦ elim (ℕ_discrete i j) [
          | yes ej ↦ absurd (
              other k (omega (arith, len, hk))
                (ap (λ (x : Buf). x.dev) (sym (old k nk))
                  ∙ (de ∙ (ap (λ (x : Buf). x.dev) (new j ej) ∙ d)))
                (ap (λ (x : Buf). x.blockno) (sym (old k nk))
                  ∙ (ne ∙ (ap (λ (x : Buf). x.blockno) (new j ej) ∙ n))))
          | no nj ↦
              v.single k j (omega (arith, len, hk)) (omega (arith, len, hj))
                (λ z. nz (ap (λ (x : Buf). x.dev) (old k nk) ∙ z))
                (ap (λ (x : Buf). x.dev) (sym (old k nk))
                  ∙ (de ∙ ap (λ (x : Buf). x.dev) (old j nj)))
                (ap (λ (x : Buf). x.blockno) (sym (old k nk))
                  ∙ (ne ∙ ap (λ (x : Buf). x.blockno) (old j nj)))
        ]
      ];
    }

-- `bget` of a block of a device returns a buffer that has it, and keeps each block in one buffer at
-- most.
pub bget-IsValid :
    (dev blockno : ℕ) (c : Bcache) {i : ℕ} {c' : Bcache}
    → IsValid c
    → bget dev blockno c ≡ ok (i, c')
    → IsValid c' × ((buf_at c' i).dev ≡ dev) × ((buf_at c' i).blockno ≡ blockno)
unfolding bget
bget-IsValid dev blockno c {i} {c'} v e = elim (Option-cases (find_cached dev blockno c c.order)) [
  | inr (k, found) ↦
      let (l, h) = find_cached-some dev blockno c c.order k found in
      let lt : k < length c.buf = v.within k l in
      let b = buf_at c k in
      let b' = record b { refcnt = wrap (b.refcnt + 1); held = true } in
      let pair : (k, with_buf c k b') ≡ (i, c') = ok-injective (rw (found, bget) at e) in
      let at : buf_at (with_buf c k b') k ≡ b' = get_or-set_self c.buf k b' no_buf lt in
      subst
        (λ (r : ℕ × Bcache).
          IsValid r.1 × ((buf_at r.1 r.0).dev ≡ dev) × ((buf_at r.1 r.0).blockno ≡ blockno))
        pair
        (
          kept-IsValid c k b' v refl refl lt,
          ap (λ (x : Buf). x.dev) at ∙ ground (arith, h),
          ap (λ (x : Buf). x.blockno) at ∙ ground (arith, h),
        )
  | inl absent ↦ elim (Option-cases (find_unused c c.order)) [
    | inl none_free ↦ absurd (cc (rw (absent, none_free, bget) at e))
    | inr (k, found) ↦
        let (l, z) = find_unused-some c c.order k found in
        let lt : k < length c.buf = v.within k l in
        let b' = record (buf_at c k) {
          dev = dev;
          blockno = blockno;
          valid = false;
          refcnt = 1;
          held = true;
        } in
        let pair : (k, with_buf c k b') ≡ (i, c') = ok-injective (rw (absent, found, bget) at e) in
        let at : buf_at (with_buf c k b') k ≡ b' = get_or-set_self c.buf k b' no_buf lt in
        subst
          (λ (r : ℕ × Bcache).
            IsValid r.1 × ((buf_at r.1 r.0).dev ≡ dev) × ((buf_at r.1 r.0).blockno ≡ blockno))
          pair
          (
            taken-IsValid dev blockno c k b' v refl refl lt absent,
            ap (λ (x : Buf). x.dev) at,
            ap (λ (x : Buf). x.blockno) at,
          )
  ]
]

listed-unlink : (i k : ℕ) (is : List ℕ) → i ≢ k → listed k (unlink i is) ≡ listed k is
unfolding unlink
listed-unlink i k [] ne = refl
listed-unlink i k (j ∷ js) ne = ground (arith, listed-unlink i k js ne, ne)

front : (i k : ℕ) (is : List ℕ) → listed i is ≡ true → listed k (i ∷ unlink i is) ≡ listed k is
front i k is l = elim (ℕ_discrete i k) [
  | yes e ↦ ground (arith, e, ap (λ x. listed x is) e ∙ refl, l)
  | no ne ↦ ground (arith, ne, listed-unlink i k is ne)
]

-- The other indices, in their order.
abbrev pub without : ℕ → List ℕ → List ℕ
without i [] = []
without i (j ∷ js) = if j == i then without i js else j ∷ without i js

unlink_lem : (i : ℕ) (js : List ℕ) → unlink i js ≡ without i js
unfolding unlink
unlink_lem i [] = refl
unlink_lem i (j ∷ js) = ap (λ t. if j == i then t else j ∷ t) (unlink_lem i js)

-- `brelse` of a buffer that the caller holds succeeds and keeps the invariant; one that nothing else
-- uses leaves its place in the list for the front, and the list of another stays as it is.
pub brelse-IsValid :
    (c : Bcache) (i : ℕ)
    → IsValid c
    → i < length c.buf
    → (buf_at c i).held ≡ true
    → (c' : Bcache) × (brelse i c ≡ ok c')
      × IsValid c'
      × (c'.order ≡ (if (buf_at c i).refcnt % 2 ^ 32 == 1 then i ∷ without i c.order else c.order))
unfolding brelse
brelse-IsValid c i v lt h =
    let b = buf_at c i in
    let r = wrap (b.refcnt + 2 ^ 32 - 1) in
    let c1 = with_buf c i (record b { held = false; refcnt = r }) in
    let v1 : IsValid c1 = kept-IsValid c i (record b { held = false; refcnt = r }) v refl refl lt in
    elim (Bool-cases (r == 0)) [
      | inr used ↦ (c1, rw (h, used, brelse) refl, v1, still used)
      | inl unused ↦ (
        record c1 { order = i ∷ unlink i c.order },
        rw (h, unused, brelse) refl,
        record {
          covers = λ k lk. front i k c.order (v.covers i lt) ∙ v1.covers k lk;
          within = λ k lk. v1.within k (sym (front i k c.order (v.covers i lt)) ∙ lk);
          single = v1.single;
        },
        moved unused,
      )
    ]
  where
    still :
        wrap ((buf_at c i).refcnt + 2 ^ 32 - 1) == 0 ≡ false
        → c.order ≡ (if (buf_at c i).refcnt % 2 ^ 32 == 1 then i ∷ without i c.order else c.order)
    still used =
        let n : (buf_at c i).refcnt % 2 ^ 32 == 1 ≡ false = ground (arith, used) in rw n refl

    moved :
        wrap ((buf_at c i).refcnt + 2 ^ 32 - 1) == 0 ≡ true
        → i ∷ unlink i c.order
          ≡ (if (buf_at c i).refcnt % 2 ^ 32 == 1 then i ∷ without i c.order else c.order)
    moved unused =
        let one : (buf_at c i).refcnt % 2 ^ 32 == 1 ≡ true = ground (arith, unused) in
        rw one (ap (λ t. i ∷ t) (unlink_lem i c.order))
