-- ===== src/Content.antt =====
-- The blocks of an inode, balloc, bfree, bmap and itrunc of assignment 4, kernel/fs.c. The cache and the
-- log between them and the disk are in Bio and Log.
pub mod Pointers
pub mod Grown
pub mod Entries
pub mod Bmap
pub mod FileBytes
pub mod Write
pub mod Read
pub mod Trip
mod Tests
use advanced_operating_syste.Prelude.{
  ℕ, zero, suc, ◌+◌, ◌-◌, ◌*◌, ◌/◌, ◌%◌, ◌^◌, ◌≤◌, ◌<◌, ◌≡◌, ◌≢◌, refl, sym, ap, subst, ◌∙◌,
  fun_ext, ◌↔◌, ◌⊎◌, inl, inr, Bool, true, false, not, ◌&&◌, ◌||◌, ◌==◌, ltb, leb, if◌then◌else◌,
  bit_and, bit_or, Option, none, some, List, [], ◌∷◌, ◌++◌, map, length, get_elem?, get_or, set,
  take, drop, replicate, Outcome, ok, panic, fault, deref, ◌>>=◌, >>=-eq-ok, arith, ℕ_discrete,
  if_cases, ok-injective, Bool-cases, Option-cases, get_or-set_self, get_or-set_ne, length-set,
  get_or-set_lem, set-set, set-get_or, dec_lt, length-append, length-replicate,
}
use advanced_operating_syste.Prelude.Maps.{put}
use advanced_operating_syste.Memory.{Bytes, load, store}

-- NDIRECT, NINDIRECT and MAXFILE
abbrev pub ndirect : ℕ
ndirect = 12

abbrev pub nindirect : ℕ
nindirect = 256

abbrev pub maxfile : ℕ
maxfile = 268

-- The bits of the bitmap, the bytes of each block, `sb.size`, and of the inode `addrs` and `size`.
pub record Store : Type 0 where
  pub used : ℕ → Bool
  pub data_at : ℕ → Bytes
  pub sb_size : ℕ
  pub addrs : ℕ → ℕ
  pub size : ℕ

-- The scan of `balloc` for a bit that is not set, `n` more bits from `b` on.
unfoldable pub find_bit : ℕ → ℕ → (ℕ → Bool) → Option ℕ
find_bit zero b used = none
find_bit (suc n) b used = let rest = find_bit n (b + 1) used in if used b then rest else some b

-- The block `b` marked and, by `bzero`, cleared.
abbrev pub taken : ℕ → Store → Store
taken b s = record s { used = put s.used b true; data_at = put s.data_at b (λ _. 0) }

unfoldable pub balloc : Store → ℕ × Store
unfolding find_bit
balloc s = elim (find_bit s.sb_size 0 s.used) [ none ↦ (0, s) | some b ↦ (b, taken b s) ]

unfoldable pub bfree : ℕ → Store → Outcome Store
bfree b s = if s.used b then ok (record s { used = put s.used b false }) else panic

-- `a[i]` of a block of block numbers.
abbrev pub word : Store → ℕ → ℕ → ℕ
word s b i = load 4 (s.data_at b) (4 * i)

abbrev pub set_word : ℕ → ℕ → ℕ → Store → Store
set_word b i v s = record s { data_at = put s.data_at b (store 4 (s.data_at b) (4 * i) v) }

-- An entry of `addrs`, with a new block if it has none.
unfoldable pub addr_entry : ℕ → Store → ℕ × Store
unfolding balloc
addr_entry i s =
    if s.addrs i == 0
    then (let (b, s1) = balloc s in
        if b == 0 then (0, s1) else (b, record s1 { addrs = put s1.addrs i b }))
    else (s.addrs i, s)

-- An entry of the indirect block, with a new block if it has none.
unfoldable pub word_entry : ℕ → ℕ → Store → ℕ × Store
unfolding balloc
word_entry ind i s =
    if word s ind i == 0
    then (let (b, s1) = balloc s in if b == 0 then (0, s1) else (b, set_word ind i b s1))
    else (word s ind i, s)

unfoldable pub bmap : ℕ → Store → Outcome (ℕ × Store)
unfolding addr_entry word_entry
bmap bn s =
    if ltb bn ndirect
    then ok (addr_entry bn s)
    else if ltb (bn - ndirect) nindirect
    then (let (ind, s1) = addr_entry ndirect s in
        if ind == 0 then ok (0, s1) else ok (word_entry ind (bn - ndirect) s1))
    else panic

-- The loops of `itrunc`, `n` more entries from `i` on.
unfoldable pub free_addrs : ℕ → ℕ → Store → Outcome Store
unfolding bfree
free_addrs zero i s = ok s
free_addrs (suc n) i s = do
  s1 ←
      (if s.addrs i == 0
        then ok s
        else (do s2 ← bfree (s.addrs i) s; ok (record s2 { addrs = put s2.addrs i 0 })))
  free_addrs n (i + 1) s1

unfoldable pub free_words : ℕ → ℕ → ℕ → Store → Outcome Store
unfolding bfree
free_words zero i ind s = ok s
free_words (suc n) i ind s = do
  s1 ← (if word s ind i == 0 then ok s else bfree (word s ind i) s)
  free_words n (i + 1) ind s1

-- `itrunc` to its `iupdate`.
unfoldable pub itrunc : Store → Outcome Store
unfolding free_addrs free_words bfree
itrunc s = do
  s1 ← free_addrs ndirect 0 s
  let ind = s1.addrs ndirect
  s2 ←
      (if ind == 0 then ok s1 else (do
        s3 ← free_words nindirect 0 ind s1
        s4 ← bfree ind s3
        ok (record s4 { addrs = put s4.addrs ndirect 0 })))
  ok (record s2 { size = 0 })

-- BSIZE
abbrev pub bsize : ℕ
bsize = 1024

abbrev pub min : ℕ → ℕ → ℕ
min a b = if ltb a b then a else b

-- The bytes `m` from `src` in a block, from `at` on.
abbrev pub patch : (ℕ → ℕ) → ℕ → ℕ → ℕ → Bytes → Bytes
patch src tot at m blk q = if leb at q && ltb q (at + m) then src (tot + (q - at)) else blk q

-- The loop of `writei` for a source in the kernel, which is read as its bytes from `src` on; it ends
-- with `tot` and `off`. Every round writes a byte, so `n` rounds and one are enough.
unfoldable pub write_loop : ℕ → (ℕ → ℕ) → ℕ → ℕ → ℕ → Store → Outcome (ℕ × ℕ × Store)
unfolding bmap
write_loop zero src n tot off s = ok (tot, off, s)
write_loop (suc fuel) src n tot off s =
    if ltb tot n
    then (do
      (addr, s1) ← bmap (off / bsize) s
      let m = min (n - tot) (bsize - off % bsize)
      let s2 = record s1 {
        data_at = put s1.data_at addr (patch src tot (off % bsize) m (s1.data_at addr));
      }
      if addr == 0 then ok (tot, off, s1) else write_loop fuel src n (tot + m) (off + m) s2)
    else ok (tot, off, s)

-- `writei` to its `iupdate`; -1 is `none`. `off` and `n` are unsigned ints.
unfoldable pub writei : (ℕ → ℕ) → ℕ → ℕ → Store → Outcome (Option ℕ × Store)
unfolding write_loop
writei src off n s =
    if ltb s.size off || ltb ((off + n) % 2 ^ 32) off
    then ok (none, s)
    else if ltb (maxfile * bsize) ((off + n) % 2 ^ 32)
    then ok (none, s)
    else do
      (tot, off', s1) ← write_loop (suc n) src n 0 off s
      ok (some tot, if ltb s1.size off' then record s1 { size = off' } else s1)

-- The loop of `readi` for a destination in the kernel, whose bytes are `dst`.
unfoldable pub read_loop : ℕ → (ℕ → ℕ) → ℕ → ℕ → ℕ → Store → Outcome (ℕ × (ℕ → ℕ) × Store)
unfolding bmap
read_loop zero dst n tot off s = ok (tot, dst, s)
read_loop (suc fuel) dst n tot off s =
    if ltb tot n
    then (do
      (addr, s1) ← bmap (off / bsize) s
      let m = min (n - tot) (bsize - off % bsize)
      let dst' : ℕ → ℕ = λ j.
          if leb tot j && ltb j (tot + m) then s1.data_at addr (off % bsize + (j - tot)) else dst j
      if addr == 0 then ok (tot, dst, s1) else read_loop fuel dst' n (tot + m) (off + m) s1)
    else ok (tot, dst, s)

unfoldable pub readi : (ℕ → ℕ) → ℕ → ℕ → Store → Outcome (ℕ × (ℕ → ℕ) × Store)
unfolding read_loop
readi dst off n s =
    if ltb s.size off || ltb ((off + n) % 2 ^ 32) off
    then ok (0, dst, s)
    else (let n' = if ltb s.size ((off + n) % 2 ^ 32) then s.size - off else n in
        read_loop (suc n') dst n' 0 off s)
