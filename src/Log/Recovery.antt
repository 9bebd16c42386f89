-- ===== src/Log/Recovery.antt =====
-- The header of the log, and what the recovery makes of a disk.
use advanced_operating_syste.Prelude.{
  ℕ, suc, ◌+◌, ◌-◌, ◌≤◌, ◌<◌, ◌≡◌, ◌≢◌, refl, ap, subst, ◌∙◌, ◌==◌, if◌then◌else◌, List, [], ◌∷◌,
  ◌++◌, length, get_or, arith, length-append,
}
use advanced_operating_syste.Log.{
  Block, Blocks, Log, Fs, bwrite, header, read_words, read_head, write_head, install_trans,
  install_blocks, recover_from_log, with_lh,
}
use advanced_operating_syste.Log.Writes.{
  contains, Outside, Logged, install-power, install-log, install-home,
}

-- The machine starts again: the cache shows the disk.
abbrev pub reboot : ℕ → Fs → Fs
reboot r s = record s { cache = s.disk; power = r }

-- A list at the words from `w` on.
abbrev Words : List ℕ → ℕ → Block → Type 0
Words [] w b = Unit
Words (x ∷ xs) w b = (b w ≡ x) × Words xs (w + 1) b

read_words-Words :
    (xs : List ℕ) (w : ℕ) (b : Block) → Words xs w b → read_words (length xs) w b ≡ xs
unfolding read_words
read_words-Words [] w b h = refl
read_words-Words (x ∷ xs) w b h = ground (arith, h.0, read_words-Words xs (w + 1) b h.1)

get_or-append : (pre xs : List ℕ) (x : ℕ) → get_or (pre ++ (x ∷ xs)) (length pre) 0 ≡ x
get_or-append [] xs x = refl
get_or-append (p ∷ pre) xs x = get_or-append pre xs x

append_one : (pre : List ℕ) (x : ℕ) (xs : List ℕ) → pre ++ (x ∷ xs) ≡ (pre ++ (x ∷ [])) ++ xs
append_one [] x xs = refl
append_one (p ∷ pre) x xs = ap (λ ys. p ∷ ys) (append_one pre x xs)

header-Words :
    (pre xs lh : List ℕ) (old : Block) → lh ≡ pre ++ xs → Words xs (length pre + 1) (header lh old)
unfolding header
header-Words pre [] lh old e = tt
header-Words pre (x ∷ xs) lh old e =
    let len : length lh ≡ length pre + suc (length xs) = ap length e ∙ length-append pre (x ∷ xs) in
    let entry : get_or lh (length pre) 0 ≡ x =
      ap (λ ys. get_or ys (length pre) 0) e ∙ get_or-append pre xs x in
    let longer : length (pre ++ (x ∷ [])) ≡ length pre + 1 = length-append pre (x ∷ []) in
    (
      word len entry,
      subst (λ k. Words xs (k + 1) (header lh old)) longer
          (header-Words (pre ++ (x ∷ [])) xs lh old (e ∙ append_one pre x xs)),
    )
  where
    word :
        length lh ≡ length pre + suc (length xs)
        → get_or lh (length pre) 0 ≡ x
        → header lh old (length pre + 1) ≡ x
    word len entry = ground (arith, len, entry, ap (λ k. get_or lh k 0) (back (length pre)))
      where
        back : (k : ℕ) → k + 1 - 1 ≡ k
        back k = omega arith

pub count-header : (lh : List ℕ) (old : Block) → header lh old 0 ≡ length lh
unfolding header
count-header lh old = refl

-- A header that was written is read back.
pub read_words-header :
    (lh : List ℕ) (old : Block) → read_words (header lh old 0) 1 (header lh old) ≡ lh
read_words-header lh old =
    ap (λ n. read_words n 1 (header lh old)) (count-header lh old)
    ∙ read_words-Words lh 1 (header lh old) (header-Words [] lh lh old refl)

pub read_words-none : (b : Block) (n : ℕ) → n ≡ 0 → read_words n 1 b ≡ []
unfolding read_words
read_words-none b n e = ap (λ k. read_words k 1 b) e

-- The blocks that the header on the disk lists.
abbrev pub listed : ℕ → Blocks → List ℕ
listed start d = read_words (d start 0) 1 (d start)

-- Their contents `c` are in the log, which ends before the block `hi`.
pub record Committed (c : Blocks) (hi start : ℕ) (d : Blocks) : Type 0 where
  pub logged : Logged c (listed start d) (start + 1) d
  pub outside : Outside start hi (listed start d)
  pub fits : start + 1 + length (listed start d) ≤ hi

pub head-disk :
    (s : Fs) (q : ℕ)
    → (write_head s).disk q ≡ (
        if s.power == 0
        then s.disk q
        else if s.log.start == q
        then header s.log.lh (s.cache s.log.start)
        else s.disk q)
unfolding write_head bwrite
head-disk s q = ground arith

-- The end of a commit and of a recovery.
abbrev pub finish : Fs → Fs
finish s = write_head (with_lh [] (install_trans s))

pub finish-start : (s : Fs) → (finish s).log.start ≡ s.log.start
unfolding install_trans write_head bwrite
finish-start s = ap (λ (g : Log). g.start) (install-log s.log.lh (s.log.start + 1) s)

-- With power to the end every listed block is home, every other block but the header is left, and
-- the header is clear.
pub finish-home :
    (s : Fs) (c : Blocks) (hi : ℕ)
    → Logged c s.log.lh (s.log.start + 1) s.cache
    → Outside s.log.start hi s.log.lh
    → s.log.start + 1 + length s.log.lh ≤ hi
    → length s.log.lh < s.power
    → ((finish s).disk s.log.start 0 ≡ 0)
      × ((q : ℕ)
          → q ≢ s.log.start
          → (finish s).disk q ≡ (if contains q s.log.lh then c q else s.disk q))
unfolding install_trans
finish-home s c hi l out fits pw =
    let s1 = install_blocks s.log.lh (s.log.start + 1) s in
    let left : s1.power ≡ s.power - length s.log.lh = install-power s.log.lh (s.log.start + 1) s in
    let at : s1.log.start ≡ s.log.start =
      ap (λ (g : Log). g.start) (install-log s.log.lh (s.log.start + 1) s) in
    let head : (finish s).disk s.log.start ≡ header [] (s1.cache s1.log.start) =
      head-disk (with_lh [] s1) s.log.start ∙ ground (arith, left, pw, at) in
    (
      ap (λ (b : Block). b 0) head ∙ count-header [] (s1.cache s1.log.start),
      λ q ne.
          head-disk (with_lh [] s1) q
          ∙ (ground (arith, left, pw, at, ne)
              ∙ install-home c s.log.start hi s.log.lh (s.log.start + 1) s q l out (omega arith)
                  fits (omega (arith, pw))),
    )

-- The recovery brings the listed blocks home, leaves every other block but the header, and clears
-- the header.
pub recover-Committed :
    (t : Fs) (c : Blocks) (hi r : ℕ)
    → Committed c hi t.log.start t.disk
    → length (listed t.log.start t.disk) < r
    → ((recover_from_log (reboot r t)).disk t.log.start 0 ≡ 0)
      × ((q : ℕ)
          → q ≢ t.log.start
          → (recover_from_log (reboot r t)).disk q
            ≡ (if contains q (listed t.log.start t.disk) then c q else t.disk q))
unfolding recover_from_log read_head
recover-Committed t c hi r w lt =
    finish-home (read_head (reboot r t)) c hi w.logged w.outside w.fits lt
