-- ===== src/Log/Sealed.antt =====
-- A commit once its header is on the disk, stopped or done.
use advanced_operating_syste.Prelude.{
  ℕ, ◌+◌, ◌-◌, ◌≤◌, ◌<◌, ◌≡◌, ◌≢◌, refl, sym, ap, subst, ◌∙◌, ◌⊎◌, inl, inr, false, if◌then◌else◌,
  [], length, arith, Bool-cases,
}
use advanced_operating_syste.Log.{
  Block, Log, Fs, bwrite, header, read_words, write_head, write_log, write_blocks, install_trans,
  recover_from_log, with_lh,
}
use advanced_operating_syste.Log.Writes.{
  contains, Outside, Outside-contains, Logged, Logged-ext, write-power, write-log, write-apart,
  write-Logged, install-power, install-apart,
}
use advanced_operating_syste.Log.Recovery.{
  reboot, listed, Committed, head-disk, read_words-header, read_words-none, finish, finish-home,
  finish-start, recover-Committed,
}

-- A transaction that fits in the log: its blocks are outside the log, and the header on the disk is
-- clear.
pub record Ready (s : Fs) : Type 0 where
  pub outside : Outside s.log.start (s.log.start + s.log.size) s.log.lh
  pub fits : 1 + length s.log.lh ≤ s.log.size
  pub clear : s.disk s.log.start 0 ≡ 0

-- A block that is not part of the log.
abbrev pub Home : Fs → ℕ → Type 0
Home s q = (q < s.log.start) ⊎ (s.log.start + s.log.size ≤ q)

-- The contents that the transaction gives a block.
abbrev pub updated : Fs → ℕ → Block
updated s q = if contains q s.log.lh then s.cache q else s.disk q

-- The disk and the log after `write_log`.
pub logged-Home :
    (s : Fs) (q : ℕ) → Ready s → Home s q ⊎ (q ≡ s.log.start) → (write_log s).disk q ≡ s.disk q
unfolding write_log
logged-Home s q w h = (write-apart s.log.lh (s.log.start + 1) s q (apart h)).1
  where
    apart :
        Home s q ⊎ (q ≡ s.log.start)
        → (q < s.log.start + 1) ⊎ (s.log.start + 1 + length s.log.lh ≤ q)
    apart (inl (inl e)) = inl (omega arith)
    apart (inl (inr e)) = inr (omega (arith, w.fits))
    apart (inr e) = inl (omega (arith, e))

-- A disk with a clear header: the recovery leaves every block that is not the log's.
pub recover_clear :
    (s t : Fs) (r q : ℕ)
    → t.log.start ≡ s.log.start
    → 0 < s.log.size
    → t.disk s.log.start 0 ≡ 0
    → 0 < r
    → Home s q
    → (recover_from_log (reboot r t)).disk q ≡ t.disk q
recover_clear s t r q at pos clear lt h =
    let empty : listed t.log.start t.disk ≡ [] =
      read_words-none (t.disk t.log.start) (t.disk t.log.start 0)
        (ap (λ k. t.disk k 0) at ∙ clear) in
    let w : Committed t.disk (t.log.start + 1) t.log.start t.disk = record {
      logged = subst (λ xs. Logged t.disk xs (t.log.start + 1) t.disk) (sym empty) tt;
      outside = subst (λ xs. Outside t.log.start (t.log.start + 1) xs) (sym empty) tt;
      fits = omega (arith, ap length empty);
    } in
    let (_, home) =
      recover-Committed t t.disk (t.log.start + 1) r w (omega (arith, ap length empty, lt)) in
    home q (λ e. absurd (omega (arith, e, at, h, pos)))
    ∙ ap (λ xs. if contains q xs then t.disk q else t.disk q) empty

-- What `commit` has written when the header is on the disk: `w` is the machine then.
pub record Sealed (s w : Fs) : Type 0 where
  pub same_log : w.log ≡ s.log
  pub in_cache : Logged s.cache s.log.lh (s.log.start + 1) w.cache
  pub on_disk : Logged s.cache s.log.lh (s.log.start + 1) w.disk
  pub head : listed s.log.start w.disk ≡ s.log.lh
  pub home : (q : ℕ) → Home s q → w.disk q ≡ s.disk q

pub sealed : (s : Fs) → Ready s → (write_log s).power ≢ 0 → Sealed s (write_head (write_log s))
unfolding write_log write_head bwrite
sealed s w on =
    let l = write_blocks s.log.lh (s.log.start + 1) s in
    let left : l.power ≡ s.power - length s.log.lh = write-power s.log.lh (s.log.start + 1) s in
    let same : l.log ≡ s.log = write-log s.log.lh (s.log.start + 1) s in
    let at : l.log.start ≡ s.log.start = ap (λ (g : Log). g.start) same in
    let (in_cache, on_disk) =
      write-Logged s.cache s.log.start (s.log.start + s.log.size) s.log.lh (s.log.start + 1) s
        (λ q h. refl) w.outside (omega arith) (omega (arith, w.fits)) (omega (arith, left, on)) in
    let written : (write_head l).disk s.log.start ≡ header s.log.lh (l.cache l.log.start) =
      head-disk l s.log.start ∙ ground (arith, on, at, same) in
    record {
      same_log = same;
      in_cache =
          Logged-ext s.cache s.log.lh (s.log.start + 1) l.cache (write_head l).cache
            (λ q x y. ground (arith, at, x)) in_cache;
      on_disk =
          Logged-ext s.cache s.log.lh (s.log.start + 1) l.disk (write_head l).disk
            (λ q x y. head-disk l q ∙ ground (arith, at, x)) on_disk;
      head =
          ap (λ (b : Block). read_words (b 0) 1 b) written
          ∙ read_words-header s.log.lh (l.cache l.log.start);
      home = λ q h. head-disk l q ∙ (ground (arith, at, h, w.fits) ∙ logged-Home s q w (inl h));
    }

-- A stop between the writes of `install_trans` leaves the header and the log.
pub stopped-Home :
    (s w : Fs) (q r : ℕ)
    → Ready s
    → Sealed s w
    → (install_trans w).power ≡ 0
    → length s.log.lh < r
    → Home s q
    → (recover_from_log (reboot r (finish w))).disk q ≡ updated s q
unfolding install_trans
stopped-Home s w q r ready sl off lt h =
    let f = finish w in
    let kept : (k : ℕ) → contains k s.log.lh ≡ false → f.disk k ≡ w.disk k = λ k none_there.
      head-disk (with_lh [] (install_trans w)) k
      ∙ (ground (arith, off)
          ∙ (install-apart w.log.lh (w.log.start + 1) w k
              (ap (λ (g : Log). contains k g.lh) sl.same_log ∙ none_there)).1) in
    let in_log : (k : ℕ) → s.log.start ≤ k → k < s.log.start + s.log.size → f.disk k ≡ w.disk k =
      λ k x y.
        kept k
          (Outside-contains s.log.start (s.log.start + s.log.size) k s.log.lh ready.outside x y) in
    let f_start : f.log.start ≡ s.log.start =
      finish-start w ∙ ap (λ (g : Log). g.start) sl.same_log in
    let lists : listed s.log.start f.disk ≡ s.log.lh =
      ap (λ (b : Block). read_words (b 0) 1 b)
        (in_log s.log.start (omega arith) (omega (arith, ready.fits)))
      ∙ sl.head in
    let lists_f : listed f.log.start f.disk ≡ s.log.lh =
      ap (λ k. listed k f.disk) f_start ∙ lists in
    let on_disk : Logged s.cache s.log.lh (s.log.start + 1) f.disk =
      Logged-ext s.cache s.log.lh (s.log.start + 1) w.disk f.disk
        (λ k x y. in_log k (omega (arith, x)) (omega (arith, y, ready.fits))) sl.on_disk in
    let c : Committed s.cache (s.log.start + s.log.size) f.log.start f.disk = record {
      logged =
          subst (λ xs. Logged s.cache xs (f.log.start + 1) f.disk) (sym lists_f)
            (subst (λ k. Logged s.cache s.log.lh (k + 1) f.disk) (sym f_start) on_disk);
      outside =
          subst (λ xs. Outside f.log.start (s.log.start + s.log.size) xs) (sym lists_f)
            (subst (λ k. Outside k (s.log.start + s.log.size) s.log.lh) (sym f_start)
              ready.outside);
      fits = omega (arith, ap length lists_f, f_start, ready.fits);
    } in
    let (_, home) =
      recover-Committed f s.cache (s.log.start + s.log.size) r c
        (omega (arith, ap length lists_f, lt)) in
    home q (λ e. absurd (omega (arith, e, f_start, h, ready.fits)))
    ∙ (ap (λ xs. if contains q xs then s.cache q else f.disk q) lists_f
        ∙ elim (Bool-cases (contains q s.log.lh)) [
          | inl there ↦ ground (arith, there)
          | inr elsewhere ↦ ground (arith, elsewhere, kept q elsewhere, sl.home q h)
        ])

-- With power to the end the blocks are home and the header is clear.
pub done-Home :
    (s w : Fs)
    → Ready s
    → Sealed s w
    → (install_trans w).power ≢ 0
    → ((finish w).disk s.log.start 0 ≡ 0) × ((q : ℕ) → Home s q → (finish w).disk q ≡ updated s q)
unfolding install_trans
done-Home s w ready sl on =
    let left : (install_trans w).power ≡ w.power - length w.log.lh =
      install-power w.log.lh (w.log.start + 1) w in
    let same : w.log.lh ≡ s.log.lh = ap (λ (g : Log). g.lh) sl.same_log in
    let start : w.log.start ≡ s.log.start = ap (λ (g : Log). g.start) sl.same_log in
    let (clear, home) =
      finish-home w s.cache (s.log.start + s.log.size)
        (subst (λ (g : Log). Logged s.cache g.lh (g.start + 1) w.cache) (sym sl.same_log)
          sl.in_cache)
        (subst (λ (g : Log). Outside g.start (s.log.start + s.log.size) g.lh) (sym sl.same_log)
          ready.outside)
        (omega (arith, ap length same, start, ready.fits)) (omega (arith, left, on)) in
    (
      ap (λ k. (finish w).disk k 0) (sym start) ∙ clear,
      λ q h.
          home q (λ e. absurd (omega (arith, e, start, h, ready.fits)))
          ∙ (ap (λ xs. if contains q xs then s.cache q else w.disk q) same
              ∙ ground (arith, sl.home q h)),
    )
