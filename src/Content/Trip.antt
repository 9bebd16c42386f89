-- ===== src/Content/Trip.antt =====
-- What `writei` and `readi` come to, and one after the other.
use advanced_operating_syste.Prelude.{
  ℕ, suc, ◌+◌, ◌*◌, ◌%◌, ◌^◌, ◌≤◌, ◌<◌, ◌≡◌, refl, ap, ◌∙◌, ◌⊎◌, inl, inr, false, ◌||◌, ltb,
  if◌then◌else◌, some, ok, arith, Bool-cases,
}
use advanced_operating_syste.Content.{maxfile, bsize, Store, writei, readi}
use advanced_operating_syste.Content.Grown.{IsValid, Full}
use advanced_operating_syste.Content.FileBytes.{byte}
use advanced_operating_syste.Content.Write.{spliced, write_loop_lem}
use advanced_operating_syste.Content.Read.{filled, read_loop_lem}

resized-IsValid : (s : Store) (size : ℕ) → IsValid s → IsValid (record s { size = size })
resized-IsValid s size v = record {
  live = v.live;
  own = v.own;
  zero_used = v.zero_used;
  fits = v.fits;
}

-- What a write of `n` bytes at `off` leaves.
pub record Written (src : ℕ → ℕ) (off n : ℕ) (s : Store) (tot : ℕ) (s' : Store) : Type 0 where
  pub valid : IsValid s'
  pub bound : tot ≤ n
  pub ends : (tot ≡ n) ⊎ Full s'
  pub size_after : s'.size ≡ (if ltb s.size (off + tot) then off + tot else s.size)
  pub bytes : (o : ℕ) → o < maxfile * bsize → byte s' o ≡ spliced src 0 off (off + tot) (byte s) o

-- From a store in which the block numbers of the inode are marked and apart, a `writei` that
-- begins in the file or at its end and stays within the largest file returns: it has written all
-- its bytes, or no block of the device is free; the file has the bytes written where they belong
-- and its old ones elsewhere, its size reaches to the last byte written, and the block numbers
-- are still marked and apart.
pub writei-Written :
    (src : ℕ → ℕ) (off n : ℕ) (s : Store)
    → IsValid s
    → off ≤ s.size
    → off + n ≤ maxfile * bsize
    → (tot : ℕ) × (s' : Store) × ((writei src off n s ≡ ok (some tot, s'))
        × Written src off n s tot s')
unfolding writei
writei-Written src off n s v le fits =
    let c1 : ltb s.size off || ltb ((off + n) % 2 ^ 32) off ≡ false = ground (arith, le, fits) in
    let c2 : ltb (maxfile * bsize) ((off + n) % 2 ^ 32) ≡ false = ground (arith, fits) in
    let (tot, off', s1, (ran, w)) =
      write_loop_lem (suc n) src n 0 off s v (omega arith) (omega arith) (omega (arith, fits)) in
    let at : off' ≡ off + tot = let e = w.moved in omega (arith, e) in
    let size = w.file_size in
    elim (Bool-cases (ltb s1.size off')) [
      | inl c ↦ (
        tot,
        record s1 { size = off' },
        (
          rw (c1, c2, ran, writei) (rw c refl),
          record {
            valid = resized-IsValid s1 off' w.valid;
            bound = w.bound;
            ends = w.ends;
            size_after = ground (arith, at, size, c);
            bytes = λ o lt. w.bytes o lt ∙ ap (λ k. spliced src 0 off k (byte s) o) at;
          },
        ),
      )
      | inr c ↦ (
        tot,
        s1,
        (
          rw (c1, c2, ran, writei) (rw c refl),
          record {
            valid = w.valid;
            bound = w.bound;
            ends = w.ends;
            size_after = ground (arith, at, size, c);
            bytes = λ o lt. w.bytes o lt ∙ ap (λ k. spliced src 0 off k (byte s) o) at;
          },
        ),
      )
    ]

-- From a store in which the block numbers of the inode are marked and apart, a `writei` that
-- begins in the file or at its end and stays within the largest file, and then a `readi` of the
-- bytes that it has written, both return; the bytes read are those of the source, and each call
-- has gone to its end or left no block of the device free.
pub readi-writei :
    (src dst : ℕ → ℕ) (off n : ℕ) (s : Store)
    → IsValid s
    → off ≤ s.size
    → off + n ≤ maxfile * bsize
    → (tot : ℕ) × (s' : Store) × (tot' : ℕ) × (dst' : ℕ → ℕ) × (s'' : Store) × ((writei src off n s
          ≡ ok (some tot, s'))
        × ((tot ≡ n) ⊎ Full s')
        × (readi dst off tot s' ≡ ok (tot', dst', s''))
        × (tot' ≤ tot)
        × ((tot' ≡ tot) ⊎ Full s'')
        × ((j : ℕ) → j < tot' → dst' j ≡ src j))
unfolding readi
readi-writei src dst off n s v le fits =
    let (tot, s', (wrote, w)) = writei-Written src off n s v le fits in
    let size = w.size_after in
    let few = w.bound in
    let reach : off + tot ≤ s'.size = ground (arith, size) in
    let c1 : ltb s'.size off || ltb ((off + tot) % 2 ^ 32) off ≡ false =
      ground (arith, reach, fits, few) in
    let c2 : ltb s'.size ((off + tot) % 2 ^ 32) ≡ false = ground (arith, reach, fits, few) in
    let (tot', dst', s'', (ran, r)) =
      read_loop_lem (suc tot) dst tot 0 off s' w.valid (omega arith) (omega arith)
        (omega (arith, fits, few)) in
    (
      tot,
      s',
      tot',
      dst',
      s'',
      (
        wrote,
        w.ends,
        rw c1 (rw c2 ran),
        r.bound,
        r.ends,
        λ j lt.
            let few' = r.bound in
            r.got j
            ∙ (first (byte s') j tot' lt
                ∙ (w.bytes (off + j) (omega (arith, fits, few, few', lt))
                    ∙ second j tot (omega (arith, lt, few')))),
      ),
    )
  where
    first : (f : ℕ → ℕ) (j tot' : ℕ) → j < tot' → filled f off 0 tot' dst j ≡ f (off + j)
    first f j tot' lt = ground (arith, lt)

    second : (j tot : ℕ) → j < tot → spliced src 0 off (off + tot) (byte s) (off + j) ≡ src j
    second j tot lt = ground (arith, lt)
