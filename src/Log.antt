-- ===== src/Log.antt =====
-- The log of the file system, kernel/log.c of assignment 4 (the same file in assignments 2 and 3):
-- the blocks of a transaction go to the log, then the header, then home. Each function runs on the
-- disk and the buffer cache as `bread` shows it.
pub mod Writes
pub mod Recovery
pub mod Sealed
pub mod Crash
mod Tests
use advanced_operating_syste.Prelude.{
  ℕ, zero, suc, ◌+◌, ◌-◌, ◌*◌, ◌/◌, ◌%◌, ◌^◌, ◌≤◌, ◌<◌, ◌≡◌, ◌≢◌, refl, sym, ap, subst, ◌∙◌,
  fun_ext, ◌↔◌, ◌⊎◌, inl, inr, Bool, true, false, not, ◌&&◌, ◌||◌, ◌==◌, ltb, leb, if◌then◌else◌,
  bit_and, bit_or, Option, none, some, List, [], ◌∷◌, ◌++◌, map, length, get_elem?, get_or, set,
  take, drop, replicate, Outcome, ok, panic, fault, deref, ◌>>=◌, >>=-eq-ok, arith, ℕ_discrete,
  if_cases, ok-injective, Bool-cases, Option-cases, get_or-set_self, get_or-set_ne, length-set,
  get_or-set_lem, set-set, set-get_or,
}
use advanced_operating_syste.Prelude.Int.{ℤ, pos, ltb_ℤ, ◌+ℤ◌, ◌-ℤ◌, times}

-- A block as its 32-bit words, and blocks by their number.
abbrev pub Block : Type 0
Block = ℕ → ℕ

abbrev pub Blocks : Type 0
Blocks = ℕ → Block

-- MAXOPBLOCKS and LOGSIZE.
abbrev pub max_op_blocks : ℕ
max_op_blocks = 10

abbrev pub log_size : ℕ
log_size = 30

-- `struct log`; `lh` holds the block numbers of the header, so `lh.n` is its length.
pub record Log : Type 0 where
  pub start : ℕ
  pub size : ℕ
  pub outstanding : ℤ
  pub committing : Bool
  pub lh : List ℕ

-- `cache` is what `bread` returns, `power` the number of blocks that can still be written before
-- the machine stops.
pub record Fs : Type 0 where
  pub log : Log
  pub cache : Blocks
  pub disk : Blocks
  pub power : ℕ

abbrev pub put {ℓ} : {A : Type ℓ} → (ℕ → A) → ℕ → A → ℕ → A
put f k v q = if k == q then v else f q

unfoldable pub bwrite : ℕ → Fs → Fs
bwrite b s = record s {
  disk = if s.power == 0 then s.disk else put s.disk b (s.cache b);
  power = s.power - 1;
}

-- `memmove` of the block `src` to the block `dst` in the cache, and `bwrite` of `dst`.
unfoldable pub copy_block : ℕ → ℕ → Fs → Fs
unfolding bwrite
copy_block dst src s = bwrite dst (record s { cache = put s.cache dst (s.cache src) })

-- The loops from an entry of the header on, `slot` being its block in the log.
unfoldable pub write_blocks : List ℕ → ℕ → Fs → Fs
write_blocks [] slot s = s
write_blocks (b ∷ bs) slot s = write_blocks bs (slot + 1) (copy_block slot b s)

unfoldable pub install_blocks : List ℕ → ℕ → Fs → Fs
install_blocks [] slot s = s
install_blocks (b ∷ bs) slot s = install_blocks bs (slot + 1) (copy_block b slot s)

unfoldable pub write_log : Fs → Fs
write_log s = write_blocks s.log.lh (s.log.start + 1) s

unfoldable pub install_trans : Fs → Fs
install_trans s = install_blocks s.log.lh (s.log.start + 1) s

-- The header block: its first word is the count, the block numbers follow; the words after them
-- stay.
unfoldable pub header : List ℕ → Block → Block
header lh old w =
    if w == 0 then length lh else if leb w (length lh) then get_or lh (w - 1) 0 else old w

unfoldable pub write_head : Fs → Fs
unfolding bwrite
write_head s =
    bwrite s.log.start
      (record s { cache = put s.cache s.log.start (header s.log.lh (s.cache s.log.start)) })

-- `n` words of the header from the word `w` on.
unfoldable pub read_words : ℕ → ℕ → Block → List ℕ
read_words zero w b = []
read_words (suc n) w b = b w ∷ read_words n (w + 1) b

abbrev pub with_lh : List ℕ → Fs → Fs
with_lh lh s = record s { log = record (s.log) { lh = lh } }

unfoldable pub read_head : Fs → Fs
read_head s = let b = s.cache s.log.start in with_lh (read_words (b 0) 1 b) s

unfoldable pub recover_from_log : Fs → Fs
unfolding install_trans
recover_from_log s = write_head (with_lh [] (install_trans (read_head s)))

-- The fields that `initlog` sets from the superblock, and the recovery.
unfoldable pub initlog : ℕ → ℕ → Fs → Fs
initlog logstart nlog s =
    recover_from_log (record s { log = record (s.log) { start = logstart; size = nlog } })

unfoldable pub commit : Fs → Fs
unfolding write_log install_trans
commit s =
    if length s.log.lh == 0
    then s
    else write_head (with_lh [] (install_trans (write_head (write_log s))))

-- One round of the loop of `begin_op`: `none` where the caller sleeps.
unfoldable pub begin_op : Fs → Option Fs
begin_op s =
    if s.log.committing
    then none
    else if ltb_ℤ (pos log_size)
        (pos (length s.log.lh) +ℤ times max_op_blocks (s.log.outstanding +ℤ pos 1))
    then none
    else some (record s { log = record (s.log) { outstanding = s.log.outstanding +ℤ pos 1 } })

unfoldable pub end_op : Fs → Outcome Fs
end_op s =
    let o = s.log.outstanding -ℤ pos 1 in
    if s.log.committing
    then panic
    else if ltb_ℤ o (pos 0) || ltb_ℤ (pos 0) o
    then ok (record s { log = record (s.log) { outstanding = o } })
    else (let s1 =
          commit (record s { log = record (s.log) { outstanding = o; committing = true } }) in
        ok (record s1 { log = record (s1.log) { committing = false } }))

-- The loop of `log_write`: a number that is listed stays where it is, another goes to the end.
unfoldable pub absorb : ℕ → List ℕ → List ℕ
absorb b [] = b ∷ []
absorb b (x ∷ xs) = let rest = absorb b xs in if x == b then x ∷ xs else x ∷ rest

unfoldable pub log_write : ℕ → Fs → Outcome Fs
log_write b s =
    if leb log_size (length s.log.lh) || leb (s.log.size - 1) (length s.log.lh)
    then panic
    else if ltb_ℤ s.log.outstanding (pos 1)
    then panic
    else ok (with_lh (absorb b s.log.lh) s)
