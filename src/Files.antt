-- ===== src/Files.antt =====
-- The table of open files of assignment 4, kernel/file.c.
pub mod Handles
mod Tests
use advanced_operating_syste.Prelude.{
  ℕ, zero, suc, ◌+◌, ◌-◌, ◌*◌, ◌/◌, ◌%◌, ◌^◌, ◌≤◌, ◌<◌, ◌≡◌, ◌≢◌, refl, sym, ap, subst, ◌∙◌,
  fun_ext, ◌↔◌, ◌⊎◌, inl, inr, Bool, true, false, not, ◌&&◌, ◌||◌, ◌==◌, ltb, leb, if◌then◌else◌,
  bit_and, bit_or, Option, none, some, List, [], ◌∷◌, ◌++◌, map, length, get_elem?, get_or, set,
  take, drop, replicate, Outcome, ok, panic, fault, deref, ◌>>=◌, >>=-eq-ok, arith, ℕ_discrete,
  if_cases, ok-injective, Bool-cases, Option-cases, get_or-set_self, get_or-set_ne, length-set,
  get_or-set_lem, set-set, set-get_or, dec_lt, length-append, length-replicate,
}
use advanced_operating_syste.Prelude.Maps.{put}

pub data FdType : Type 0 where
  fd_none fd_pipe fd_inode fd_device : FdType

-- `struct file`; a pointer to a pipe or an inode is its number.
pub record File : Type 0 where
  pub type : FdType
  pub ref : ℕ
  pub readable : Bool
  pub writable : Bool
  pub pipe : ℕ
  pub ip : ℕ
  pub off : ℕ
  pub major : ℕ

-- The calls that the table of files and the processes make of pipe.c and fs.c; one of `iput` stands
-- in a transaction.
pub data Call : Type 0 where
  pipeclose : ℕ → Bool → Call
  iput : ℕ → Call
  idup : ℕ → Call

-- NFILE
abbrev pub nfile : ℕ
nfile = 100

-- The scan for an unused file, `n` more files from `i` on.
unfoldable pub find_free : ℕ → ℕ → (ℕ → File) → Option ℕ
find_free zero i fs = none
find_free (suc n) i fs =
    let rest = find_free n (i + 1) fs in if (fs i).ref == 0 then some i else rest

unfoldable pub filealloc : (ℕ → File) → Option ℕ × (ℕ → File)
unfolding find_free
filealloc fs = elim (find_free nfile 0 fs) [
  | none ↦ (none, fs)
  | some f ↦ (some f, put fs f (record (fs f) { ref = 1 }))
]

-- `f->ref < 1` of an int of 32 bits.
abbrev pub unreferenced : ℕ → Bool
unreferenced r = r == 0 || leb (2 ^ 31) r

unfoldable pub filedup : ℕ → (ℕ → File) → Outcome (ℕ → File)
filedup f fs =
    if unreferenced (fs f).ref
    then panic
    else ok (put fs f (record (fs f) { ref = ((fs f).ref + 1) % 2 ^ 32 }))

abbrev pub closing : File → List Call
closing ff = elim ff.type [
  | fd_none ↦ []
  | fd_pipe ↦ pipeclose ff.pipe ff.writable ∷ []
  | fd_inode ↦ iput ff.ip ∷ []
  | fd_device ↦ iput ff.ip ∷ []
]

unfoldable pub fileclose : ℕ → (ℕ → File) → Outcome (List Call × (ℕ → File))
fileclose f fs =
    let ff = fs f in
    if unreferenced ff.ref
    then panic
    else if ltb 0 (ff.ref - 1)
    then ok ([], put fs f (record ff { ref = ff.ref - 1 }))
    else ok (closing ff, put fs f (record ff { ref = 0; type = fd_none }))
