-- ===== src/Log/Crash.antt =====
-- A crash at any point of a commit.
use advanced_operating_syste.Prelude.{
  ℕ, ◌+◌, ◌-◌, ◌*◌, ◌<◌, ◌≡◌, ◌≢◌, refl, ap, ◌∙◌, ◌⊎◌, inl, inr, if◌then◌else◌, List, [], ◌∷◌,
  length, arith, ℕ_discrete,
}
use advanced_operating_syste.Log.{
  Block, Log, Fs, bwrite, write_head, write_log, install_trans, recover_from_log, with_lh, commit,
}
use advanced_operating_syste.Log.Writes.{
  contains, write-power, write-log, install-power, install-frozen,
}
use advanced_operating_syste.Log.Recovery.{reboot, head-disk, finish, finish-start}
use advanced_operating_syste.Log.Sealed.{
  Ready, Home, updated, logged-Home, recover_clear, sealed, stopped-Home, done-Home,
}

commit-empty : (s : Fs) → length s.log.lh ≡ 0 → commit s ≡ s
unfolding commit
commit-empty s e = ground (arith, e)

commit-runs : (s : Fs) → length s.log.lh ≢ 0 → commit s ≡ finish (write_head (write_log s))
unfolding commit
commit-runs s e = ground (arith, e)

-- Without power after `write_log` the disk stays as it was outside the log.
lost_before :
    (s : Fs) (q : ℕ)
    → Ready s
    → (write_log s).power ≡ 0
    → Home s q ⊎ (q ≡ s.log.start)
    → (finish (write_head (write_log s))).disk q ≡ s.disk q
unfolding install_trans write_head bwrite
lost_before s q ready off h =
    let l = write_log s in
    let w = write_head l in
    let off_w : w.power ≡ 0 = omega (arith, off) in
    let off_i : (install_trans w).power ≡ 0 =
      omega (arith, install-power w.log.lh (w.log.start + 1) w, off_w) in
    head-disk (with_lh [] (install_trans w)) q
    ∙ (ground (arith, off_i)
        ∙ (install-frozen w.log.lh (w.log.start + 1) w q off_w
            ∙ (head-disk l q ∙ (ground (arith, off) ∙ logged-Home s q ready h))))

head-start : (s : Fs) → (write_head (write_log s)).log.start ≡ s.log.start
unfolding write_head write_log bwrite
head-start s = ap (λ (g : Log). g.start) (write-log s.log.lh (s.log.start + 1) s)

-- The machine may stop at any write of a commit: `power` is arbitrary. After the recovery of the
-- next start, with power for its own writes, either no block outside the log has changed or each
-- block of the transaction has its new contents, and the others have not changed.
pub recover-commit :
    (s : Fs) (r : ℕ)
    → Ready s
    → length s.log.lh < r
    → ((q : ℕ) → Home s q → (recover_from_log (reboot r (commit s))).disk q ≡ s.disk q)
      ⊎ ((q : ℕ) → Home s q → (recover_from_log (reboot r (commit s))).disk q ≡ updated s q)
recover-commit s r ready lt = elim (ℕ_discrete (length s.log.lh) 0) [
  | yes none_listed ↦ inl (λ q h.
      ap (λ t. (recover_from_log (reboot r t)).disk q) (commit-empty s none_listed)
      ∙ recover_clear s s r q refl (omega (arith, ready.fits)) ready.clear (omega (arith, lt)) h)
  | no listed_some ↦
      let w = write_head (write_log s) in
      let f_start : (finish w).log.start ≡ s.log.start = finish-start w ∙ head-start s in
      let runs : (q : ℕ)
          → (recover_from_log (reboot r (commit s))).disk q
            ≡ (recover_from_log (reboot r (finish w))).disk q =
        λ q. ap (λ t. (recover_from_log (reboot r t)).disk q) (commit-runs s listed_some) in
      let size : 0 < s.log.size = omega (arith, ready.fits) in
      elim (ℕ_discrete (write_log s).power 0) [
        | yes off ↦
            let clear : (finish w).disk s.log.start 0 ≡ 0 =
              ap (λ (b : Block). b 0) (lost_before s s.log.start ready off (inr refl))
              ∙ ready.clear in
            inl (λ q h.
              runs q
              ∙ (recover_clear s (finish w) r q f_start size clear (omega (arith, lt)) h
                  ∙ lost_before s q ready off (inl h)))
        | no on ↦ elim (ℕ_discrete (install_trans w).power 0) [
          | yes off ↦ inr (λ q h. runs q ∙ stopped-Home s w q r ready (sealed s ready on) off lt h)
          | no still ↦
              let (clear, home) = done-Home s w ready (sealed s ready on) still in
              inr (λ q h.
                runs q
                ∙ (recover_clear s (finish w) r q f_start size clear (omega (arith, lt)) h
                    ∙ home q h))
        ]
      ]
]

unlisted :
    (s : Fs) (xs : List ℕ) (q : ℕ)
    → length xs ≡ 0
    → s.disk q ≡ (if contains q xs then s.cache q else s.disk q)
unlisted s [] q e = refl
unlisted s (x ∷ xs) q e = absurd (omega (arith, e))

power_left : (s : Fs) → (write_log s).power ≡ s.power - length s.log.lh
unfolding write_log
power_left s = write-power s.log.lh (s.log.start + 1) s

installs_left :
    (s : Fs)
    → (install_trans (write_head (write_log s))).power
      ≡ s.power - length s.log.lh - 1 - length s.log.lh
unfolding write_log write_head bwrite install_trans
installs_left s =
    let w = write_head (write_log s) in
    omega (
      arith,
      install-power w.log.lh (w.log.start + 1) w,
      write-power s.log.lh (s.log.start + 1) s,
      ap (λ (g : Log). length g.lh) (write-log s.log.lh (s.log.start + 1) s),
    )

-- With power for all its writes a commit brings each block of the transaction home, changes no
-- other block outside the log, and clears the header for the next transaction.
pub commit-done :
    (s : Fs)
    → Ready s
    → 2 * length s.log.lh + 1 < s.power
    → ((commit s).disk s.log.start 0 ≡ 0) × ((q : ℕ) → Home s q → (commit s).disk q ≡ updated s q)
commit-done s ready lt = elim (ℕ_discrete (length s.log.lh) 0) [
  | yes none_listed ↦ (
    ap (λ t. t.disk s.log.start 0) (commit-empty s none_listed) ∙ ready.clear,
    λ q h. ap (λ t. t.disk q) (commit-empty s none_listed) ∙ unlisted s s.log.lh q none_listed,
  )
  | no listed_some ↦
      let w = write_head (write_log s) in
      let on : (write_log s).power ≢ 0 = λ e. absurd (omega (arith, e, lt, power_left s)) in
      let still : (install_trans w).power ≢ 0 =
        λ e. absurd (omega (arith, e, lt, installs_left s)) in
      let (clear, home) = done-Home s w ready (sealed s ready on) still in
      (
        ap (λ t. t.disk s.log.start 0) (commit-runs s listed_some) ∙ clear,
        λ q h. ap (λ t. t.disk q) (commit-runs s listed_some) ∙ home q h,
      )
]
