-- ===== src/Boot/Placed.antt =====
-- What is in memory when the boot loader enters a kernel.
use advanced_operating_syste.Prelude.{
  ℕ, ◌+◌, ◌-◌, ◌*◌, ◌≤◌, ◌<◌, ◌≡◌, refl, sym, ap, subst, ◌∙◌, ◌⊎◌, inl, inr, ◌&&◌, ltb, leb, List,
  ok, >>=-eq-ok, arith, ok-injective, Bool-cases, dec_lt,
}
use advanced_operating_syste.Memory.{Bytes, load, store64}
use advanced_operating_syste.Memory.Laws.{store_outside, load_ext}
use advanced_operating_syste.Boot.{
  Kernel, normal, recovery, Machine, disk_of, ramdisk, sys_info, fs_size, block_size, block_num,
  block_to_skip, find_kernel_size, find_kernel_load_addr, copy_blocks, load_kernel, hand_over,
}
use advanced_operating_syste.Boot.Load.{Apart, image, copy_blocks_lem, copy_blocks-lt}

-- The blocks that the loader copies of the kernel of a disk, by its header in the memory `m`.
abbrev pub rounds : Machine → Kernel → Bytes → ℕ
rounds s k m =
    block_num (find_kernel_size (record s { mem = m; kernel_elfhdr = disk_of k })) - block_to_skip

-- The address that the header gives for them.
abbrev pub target : Machine → Kernel → Bytes → ℕ
target s k m = (find_kernel_load_addr k (record s { mem = m })).0

-- Off the system information.
abbrev pub Off : ℕ → Type 0
Off q = (q < sys_info) ⊎ (sys_info + 96 ≤ q)

-- The blocks of the disk in the memory `m` stand at the address `addr` of `m'`, behind the first page
-- of the kernel, and all else is as it was, but for the system information.
abbrev pub Placed : Machine → Kernel → ℕ → Bytes → Bytes → Type 0
Placed s k addr m m' = (q : ℕ) → Off q → m' q ≡ image k (rounds s k m) block_to_skip addr m q

pub disk_high : (k : Kernel) → ramdisk ≤ disk_of k
disk_high normal = omega arith
disk_high recovery = omega arith

-- Memory that differs in the system information only.
abbrev pub Alike : Bytes → Bytes → Type 0
Alike m m' = (q : ℕ) → Off q → m' q ≡ m q

high_Off : (q : ℕ) → ramdisk ≤ q → Off q
high_Off q le = inr (omega (arith, le))

load-Alike : (n a : ℕ) (m m' : Bytes) → ramdisk ≤ a → Alike m m' → load n m' a ≡ load n m a
load-Alike n a m m' le alike =
    load_ext n m' m a (λ q from to. alike q (high_Off q (omega (arith, le, from))))

pub rounds-Alike :
    (s : Machine) (k : Kernel) (m m' : Bytes) → Alike m m' → rounds s k m' ≡ rounds s k m
unfolding find_kernel_size
rounds-Alike s k m m' alike =
    let d = disk_of k in
    let high = disk_high k in
    rw
      (
        load-Alike 2 (d + 58) m m' (omega (arith, high)) alike,
        load-Alike 2 (d + 60) m m' (omega (arith, high)) alike,
        load-Alike 8 (d + 40) m m' (omega (arith, high)) alike,
      )
      refl

pub image-Alike :
    (k : Kernel) (n i addr : ℕ) (m m' : Bytes) (q : ℕ)
    → Alike m m'
    → Off q
    → image k n i addr m' q ≡ image k n i addr m q
image-Alike k n i addr m m' q alike off =
    let high = disk_high k in
    let from = disk_of k + i * block_size + (q - addr) in
    let there = alike from (high_Off from (omega (arith, high))) in
    let here = alike q off in
    elim (Bool-cases (leb addr q && ltb q (addr + n * block_size))) [
      | inl inside ↦ rw inside there
      | inr outside ↦ rw outside here
    ]

-- A loader that returns has copied its blocks.
pub load_kernel-image :
    (k : Kernel) (addr : ℕ) (s : Machine) {s' : Machine}
    → Apart k addr (block_num (find_kernel_size s) - block_to_skip)
    → load_kernel k addr s ≡ ok s'
    → (q : ℕ)
    → s'.mem q ≡ image k (block_num (find_kernel_size s) - block_to_skip) block_to_skip addr s.mem q
unfolding load_kernel
load_kernel-image k addr s {s'} apart e q =
    let n = block_num (find_kernel_size s) - block_to_skip in
    let (m, ran, e') = >>=-eq-ok (copy_blocks k n block_to_skip addr s.mem) _ e in
    let mem : m ≡ s'.mem = ap (λ (t : Machine). t.mem) (ok-injective e') in
    elim (dec_lt fs_size (4 + n)) [
      | yes past ↦ absurd (cc (copy_blocks-lt k n addr s.mem past, ran))
      | no fits ↦
          let (m', ran', at) = copy_blocks_lem k n 4 addr s.mem apart (omega (arith, fits)) in
          ap (λ f. f q) (sym mem ∙ ok-injective (sym ran ∙ ran')) ∙ at q
    ]

pub hand_over-Alike :
    (sha256 : List ℕ → ℕ → ℕ) (trusted : ℕ → ℕ) (bl_end : ℕ) (s : Machine)
    → Alike s.mem (hand_over sha256 trusted bl_end s).mem
unfolding hand_over
hand_over-Alike sha256 trusted bl_end s q off =
    let m1 = store64 s.mem sys_info 0x8000_0000 in
    let m2 = store64 m1 (sys_info + 8) bl_end in
    let m3 = store64 m2 (sys_info + 16) 0x8000_0000 in
    store_outside 8 m3 (sys_info + 24) (0x8000_0000 + 128 * 1024 * 1024) q
      (clear q 24 (omega arith) off)
    ∙ (store_outside 8 m2 (sys_info + 16) 0x8000_0000 q (clear q 16 (omega arith) off)
        ∙ (store_outside 8 m1 (sys_info + 8) bl_end q (clear q 8 (omega arith) off)
            ∙ store_outside 8 s.mem sys_info 0x8000_0000 q (clear q 0 (omega arith) off)))
  where
    clear : (q d : ℕ) → d ≤ 88 → Off q → (q < sys_info + d) ⊎ (sys_info + d + 8 ≤ q)
    clear q d le (inl lt) = inl (omega (arith, lt))
    clear q d le (inr ge) = inr (omega (arith, ge, le))

-- A loader that runs on memory like `m`, and the hand over after it, place the kernel.
pub load_kernel-Placed :
    (k : Kernel) (addr : ℕ) (s s1 : Machine) (m m' : Bytes) {s' : Machine}
    → Apart k addr (rounds s k m)
    → s1.kernel_elfhdr ≡ disk_of k
    → Alike m s1.mem
    → load_kernel k addr s1 ≡ ok s'
    → Alike s'.mem m'
    → Placed s k addr m m'
unfolding find_kernel_size
load_kernel-Placed k addr s s1 m m' {s'} apart hdr alike e after q off =
    let n = block_num (find_kernel_size s1) - block_to_skip in
    let same : n ≡ rounds s k m =
      ap
        (λ d.
          block_num (find_kernel_size (record s { mem = s1.mem; kernel_elfhdr = d }))
          - block_to_skip)
        hdr
      ∙ rounds-Alike s k m s1.mem alike in
    after q off
    ∙ (load_kernel-image k addr s1 (subst (Apart k addr) (sym same) apart) e q
        ∙ (ap (λ j. image k j block_to_skip addr s1.mem q) same
            ∙ image-Alike k (rounds s k m) block_to_skip addr m s1.mem q alike off))
