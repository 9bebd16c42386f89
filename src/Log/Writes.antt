-- ===== src/Log/Writes.antt =====
-- What the two copying loops of the log leave in the cache and on the disk.
use advanced_operating_syste.Prelude.{
  ℕ, ◌+◌, ◌-◌, ◌≤◌, ◌<◌, ◌≡◌, refl, ap, ◌∙◌, ◌⊎◌, inl, Bool, false, ◌||◌, ◌==◌, if◌then◌else◌, List,
  [], ◌∷◌, length, arith, ℕ_discrete,
}
use advanced_operating_syste.Log.{Blocks, Fs, bwrite, copy_block, write_blocks, install_blocks}

abbrev pub contains : ℕ → List ℕ → Bool
contains q [] = false
contains q (b ∷ bs) = b == q || contains q bs

-- No block of the list is in the range.
abbrev pub Outside : ℕ → ℕ → List ℕ → Type 0
Outside lo hi [] = Unit
Outside lo hi (b ∷ bs) = ((b < lo) ⊎ (hi ≤ b)) × Outside lo hi bs

-- The blocks from `slot` on hold what `c` has for the blocks of the list.
abbrev pub Logged : Blocks → List ℕ → ℕ → Blocks → Type 0
Logged c [] slot f = Unit
Logged c (b ∷ bs) slot f = (f slot ≡ c b) × Logged c bs (slot + 1) f

pub Logged-ext :
    (c : Blocks) (bs : List ℕ) (slot : ℕ) (f g : Blocks)
    → ((q : ℕ) → slot ≤ q → q < slot + length bs → g q ≡ f q)
    → Logged c bs slot f
    → Logged c bs slot g
Logged-ext c [] slot f g same h = tt
Logged-ext c (b ∷ bs) slot f g same h = (
  same slot (omega arith) (omega arith) ∙ h.0,
  Logged-ext c bs (slot + 1) f g (λ q x y. same q (omega arith) (omega (arith, y))) h.1,
)

pub Outside-contains :
    (lo hi q : ℕ) (bs : List ℕ) → Outside lo hi bs → lo ≤ q → q < hi → contains q bs ≡ false
Outside-contains lo hi q [] h x y = refl
Outside-contains lo hi q (b ∷ bs) h x y = ground (arith, h.0, Outside-contains lo hi q bs h.1 x y)

copy-cache :
    (dst src : ℕ) (s : Fs) (q : ℕ)
    → (copy_block dst src s).cache q ≡ (if dst == q then s.cache src else s.cache q)
unfolding copy_block bwrite
copy-cache dst src s q = refl

copy-disk :
    (dst src : ℕ) (s : Fs) (q : ℕ)
    → (copy_block dst src s).disk q
      ≡ (if s.power == 0 then s.disk q else if dst == q then s.cache src else s.disk q)
unfolding copy_block bwrite
copy-disk dst src s q = ground arith

copy-power : (dst src : ℕ) (s : Fs) → (copy_block dst src s).power ≡ s.power - 1
unfolding copy_block bwrite
copy-power dst src s = refl

copy-log : (dst src : ℕ) (s : Fs) → (copy_block dst src s).log ≡ s.log
unfolding copy_block bwrite
copy-log dst src s = refl

pub write-power :
    (bs : List ℕ) (slot : ℕ) (s : Fs) → (write_blocks bs slot s).power ≡ s.power - length bs
unfolding write_blocks
write-power [] slot s = omega arith
write-power (b ∷ bs) slot s =
    omega (arith, write-power bs (slot + 1) (copy_block slot b s), copy-power slot b s)

pub write-log : (bs : List ℕ) (slot : ℕ) (s : Fs) → (write_blocks bs slot s).log ≡ s.log
unfolding write_blocks
write-log [] slot s = refl
write-log (b ∷ bs) slot s = write-log bs (slot + 1) (copy_block slot b s) ∙ copy-log slot b s

-- The loop of `write_log` writes to its slots alone.
pub write-apart :
    (bs : List ℕ) (slot : ℕ) (s : Fs) (q : ℕ)
    → (q < slot) ⊎ (slot + length bs ≤ q)
    → ((write_blocks bs slot s).cache q ≡ s.cache q) × ((write_blocks bs slot s).disk q ≡ s.disk q)
unfolding write_blocks
write-apart [] slot s q h = (refl, refl)
write-apart (b ∷ bs) slot s q h =
    let (c, d) = write-apart bs (slot + 1) (copy_block slot b s) q (omega (arith, h)) in
    (
      c ∙ (copy-cache slot b s q ∙ ground (arith, h)),
      d ∙ (copy-disk slot b s q ∙ ground (arith, h)),
    )

-- With power for all its writes it leaves each block of the list in its slot.
pub write-Logged :
    (c : Blocks) (lo hi : ℕ) (bs : List ℕ) (slot : ℕ) (s : Fs)
    → ((q : ℕ) → (q < lo) ⊎ (hi ≤ q) → s.cache q ≡ c q)
    → Outside lo hi bs
    → lo ≤ slot
    → slot + length bs ≤ hi
    → length bs ≤ s.power
    → Logged c bs slot (write_blocks bs slot s).cache
      × Logged c bs slot (write_blocks bs slot s).disk
unfolding write_blocks
write-Logged c lo hi [] slot s home out le top pw = (tt, tt)
write-Logged c lo hi (b ∷ bs) slot s home out le top pw =
    let s1 = copy_block slot b s in
    let (keep_c, keep_d) = write-apart bs (slot + 1) s1 slot (inl (omega arith)) in
    let (in_cache, on_disk) =
      write-Logged c lo hi bs (slot + 1) s1
        (λ q h. copy-cache slot b s q ∙ ground (arith, h, home q h)) out.1 (omega arith)
        (omega (arith, top)) (omega (arith, pw, copy-power slot b s)) in
    (
      (keep_c ∙ (copy-cache slot b s slot ∙ ground (arith, home b out.0)), in_cache),
      (keep_d ∙ (copy-disk slot b s slot ∙ ground (arith, pw, home b out.0)), on_disk),
    )

pub install-power :
    (bs : List ℕ) (slot : ℕ) (s : Fs) → (install_blocks bs slot s).power ≡ s.power - length bs
unfolding install_blocks
install-power [] slot s = omega arith
install-power (b ∷ bs) slot s =
    omega (arith, install-power bs (slot + 1) (copy_block b slot s), copy-power b slot s)

pub install-log : (bs : List ℕ) (slot : ℕ) (s : Fs) → (install_blocks bs slot s).log ≡ s.log
unfolding install_blocks
install-log [] slot s = refl
install-log (b ∷ bs) slot s = install-log bs (slot + 1) (copy_block b slot s) ∙ copy-log b slot s

-- The loop of `install_trans` writes to the listed blocks alone.
pub install-apart :
    (bs : List ℕ) (slot : ℕ) (s : Fs) (q : ℕ)
    → contains q bs ≡ false
    → ((install_blocks bs slot s).cache q ≡ s.cache q)
      × ((install_blocks bs slot s).disk q ≡ s.disk q)
unfolding install_blocks
install-apart [] slot s q h = (refl, refl)
install-apart (b ∷ bs) slot s q h =
    let (c, d) = install-apart bs (slot + 1) (copy_block b slot s) q (ground (arith, h)) in
    (
      c ∙ (copy-cache b slot s q ∙ ground (arith, h)),
      d ∙ (copy-disk b slot s q ∙ ground (arith, h)),
    )

-- With power for all its writes it brings every listed block home.
pub install-home :
    (c : Blocks) (lo hi : ℕ) (bs : List ℕ) (slot : ℕ) (s : Fs) (q : ℕ)
    → Logged c bs slot s.cache
    → Outside lo hi bs
    → lo ≤ slot
    → slot + length bs ≤ hi
    → length bs ≤ s.power
    → (install_blocks bs slot s).disk q ≡ (if contains q bs then c q else s.disk q)
unfolding install_blocks
install-home c lo hi [] slot s q l out le top pw = refl
install-home c lo hi (b ∷ bs) slot s q l out le top pw =
    let s1 = copy_block b slot s in
    let rest : (install_blocks bs (slot + 1) s1).disk q
        ≡ (if contains q bs then c q else s1.disk q) =
      install-home c lo hi bs (slot + 1) s1 q
        (Logged-ext c bs (slot + 1) s.cache s1.cache
          (λ k x y. copy-cache b slot s k ∙ ground (arith, x, y, top, out.0)) l.1)
        out.1 (omega arith) (omega (arith, top)) (omega (arith, pw, copy-power b slot s)) in
    rest ∙ elim (ℕ_discrete b q) [
      | yes e ↦ ground (arith, copy-disk b slot s q, pw, l.0, ap c e)
      | no ne ↦ ground (arith, copy-disk b slot s q, pw)
    ]

-- Without power nothing is written.
pub install-frozen :
    (bs : List ℕ) (slot : ℕ) (s : Fs) (q : ℕ)
    → s.power ≡ 0
    → (install_blocks bs slot s).disk q ≡ s.disk q
unfolding install_blocks
install-frozen [] slot s q e = refl
install-frozen (b ∷ bs) slot s q e =
    install-frozen bs (slot + 1) (copy_block b slot s) q (omega (arith, e, copy-power b slot s))
    ∙ (copy-disk b slot s q ∙ ground (arith, e))
