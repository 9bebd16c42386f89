-- ===== src/Boot.antt =====
-- The boot loader, start.c, elf.c and load.c of assignment 1's bootloader: it measures the kernel on
-- the RAM disk, loads it or the recovery kernel, and enters it.
pub mod Load
pub mod Placed
pub mod Secure
mod Tests
use advanced_operating_syste.Prelude.{
  ℕ, zero, suc, ◌+◌, ◌-◌, ◌*◌, ◌/◌, ◌%◌, ◌^◌, ◌≤◌, ◌<◌, ◌≡◌, ◌≢◌, refl, sym, ap, subst, ◌∙◌,
  fun_ext, ◌↔◌, ◌⊎◌, inl, inr, Bool, true, false, not, ◌&&◌, ◌||◌, ◌==◌, ltb, leb, if◌then◌else◌,
  bit_and, bit_or, Option, none, some, List, [], ◌∷◌, ◌++◌, map, length, get_elem?, get_or, set,
  take, drop, replicate, Outcome, ok, panic, fault, deref, ◌>>=◌, >>=-eq-ok, arith, ℕ_discrete,
  if_cases, ok-injective, Bool-cases, Option-cases, get_or-set_self, get_or-set_ne, length-set,
  get_or-set_lem, set-set, set-get_or, dec_lt, length-append, length-replicate,
}
use advanced_operating_syste.Memory.{Bytes, load, load64, store64}

-- RAMDISK, RECOVERYDISK, the address of the system information, FSSIZE and BSIZE.
abbrev pub ramdisk : ℕ
ramdisk = 0x8400_0000

abbrev pub recovery_disk : ℕ
recovery_disk = 0x8450_0000

abbrev pub sys_info : ℕ
sys_info = 0x8008_0000

abbrev pub fs_size : ℕ
fs_size = 2000

abbrev pub block_size : ℕ
block_size = 1024

-- `enum kernel`
pub data Kernel : Type 0 where
  normal recovery : Kernel

abbrev pub disk_of : Kernel → ℕ
disk_of normal = ramdisk
disk_of recovery = recovery_disk

-- The macros of the build that choose the memory protection.
pub record Build : Type 0 where
  pub kernelpmp1 : Bool
  pub kernelpmp2 : Bool

-- Memory, the pointer `kernel_elfhdr`, and the registers that the code writes.
pub record Machine : Type 0 where
  pub mem : Bytes
  pub kernel_elfhdr : ℕ
  pub tp : ℕ
  pub mstatus : ℕ
  pub satp : ℕ
  pub pmpaddr : List ℕ
  pub pmpcfg0 : ℕ
  pub mepc : ℕ
  pub medeleg : ℕ
  pub mideleg : ℕ
  pub sie : ℕ

-- The fields of `struct elfhdr` and of `struct proghdr` that are read, at their offsets.
abbrev pub entry_of : Bytes → ℕ → ℕ
entry_of m hdr = load64 m (hdr + 24)

unfoldable pub find_kernel_load_addr : Kernel → Machine → ℕ × Machine
find_kernel_load_addr ktype s =
    let addr_disk = disk_of ktype in
    let phdr = (addr_disk + load64 s.mem (addr_disk + 32)) % 2 ^ 64 in
    let second = (phdr + load 2 s.mem (addr_disk + 54)) % 2 ^ 64 in
    (load64 s.mem (second + 16), record s { kernel_elfhdr = addr_disk })

-- The argument of the function is not used: it goes by `kernel_elfhdr`. The product is an int of 32
-- bits, which the sum extends by its sign.
unfoldable pub find_kernel_size : Machine → ℕ
find_kernel_size s =
    let hdr = s.kernel_elfhdr in
    let table = load 2 s.mem (hdr + 58) * load 2 s.mem (hdr + 60) in
    (load64 s.mem (hdr + 40) + (if ltb table (2 ^ 31) then table else table + (2 ^ 64 - 2 ^ 32)))
    % 2 ^ 64

unfoldable pub find_kernel_entry_addr : Machine → ℕ
find_kernel_entry_addr s = entry_of s.mem s.kernel_elfhdr

-- The block that `kernel_copy` leaves in `b->data`; `panic` of the boot loader stops the machine.
unfoldable pub kernel_copy : Kernel → ℕ → Bytes → Outcome (ℕ → ℕ)
kernel_copy ktype blockno m =
    if leb fs_size blockno then panic else ok (λ o. m (disk_of ktype + blockno * block_size + o))

-- `n` bytes written from `a` on.
abbrev pub write_bytes : Bytes → ℕ → ℕ → (ℕ → ℕ) → Bytes
write_bytes m a n f q = if leb a q && ltb q (a + n) then f (q - a) else m q

-- The loop of the loaders for `n` more blocks, the next being the block `i` for the address `addr`.
unfoldable pub copy_blocks : Kernel → ℕ → ℕ → ℕ → Bytes → Outcome Bytes
unfolding kernel_copy
copy_blocks ktype zero i addr m = ok m
copy_blocks ktype (suc n) i addr m = do
  block ← kernel_copy ktype i m
  copy_blocks ktype n (i + 1) (addr + block_size) (write_bytes m addr block_size block)

-- `int block_num = (kernel_binary_size+BSIZE-1)/BSIZE;` A negative number makes no round.
abbrev pub block_num : ℕ → ℕ
block_num size =
    let w = (size + block_size - 1) % 2 ^ 64 / block_size % 2 ^ 32 in
    if ltb w (2 ^ 31) then w else 0

abbrev pub block_to_skip : ℕ
block_to_skip = 4096 / block_size

-- The blocks of a kernel behind its first page, then its entry.
unfoldable pub load_kernel : Kernel → ℕ → Machine → Outcome Machine
unfolding find_kernel_size find_kernel_entry_addr
load_kernel ktype load_addr s = do
  m ←
      copy_blocks ktype (block_num (find_kernel_size s) - block_to_skip) block_to_skip load_addr
        s.mem
  ok (record s { mem = m; mepc = find_kernel_entry_addr (record s { mem = m }) })

unfoldable pub setup_recovery_kernel : Machine → Outcome Machine
unfolding find_kernel_load_addr load_kernel
setup_recovery_kernel s =
    let (addr, s1) = find_kernel_load_addr recovery s in load_kernel recovery addr s1

-- The bytes of a range, as `sha256_update` reads them.
unfoldable pub bytes_of : ℕ → Bytes → ℕ → List ℕ
bytes_of zero m a = []
bytes_of (suc n) m a = m a ∷ bytes_of n m (a + 1)

-- `memcmp(m + a, f, n) == 0`
unfoldable pub same_bytes : ℕ → Bytes → ℕ → (ℕ → ℕ) → Bool
same_bytes zero m a f = true
same_bytes (suc n) m a f = same_bytes n m a f && m (a + n) == f n

-- The values that the build gives `w_pmpaddr0` to `w_pmpaddr4` and `w_pmpcfg0`.
unfoldable pub setup_pmp : Build → Machine → Machine
setup_pmp b s =
    let s1 =
      if not b.kernelpmp1 || not b.kernelpmp2
      then record s { pmpaddr = set s.pmpaddr 0 0x3f_ffff_ffff_ffff; pmpcfg0 = 0xf }
      else s in
    let s2 =
      if b.kernelpmp1
      then record s1 {
        pmpaddr = set s1.pmpaddr 0 ((0x8000_0000 + 117 * block_size * block_size) / 4);
        pmpcfg0 = 1 + 2 + 4 + 8;
      }
      else s1 in
    if b.kernelpmp2
    then record s2 {
      pmpaddr =
          (0x8000_0000 + (118 * block_size * block_size - 1)) / 4
          ∷ 0x21DB_FFFF
          ∷ 0x21E3_FFFF
          ∷ 0x21EF_FFFF
          ∷ 0x21FB_FFFF
          ∷ drop 5 s2.pmpaddr;
      pmpcfg0 = 1 + 2 + 4 + 8 + 0x83 * 2 ^ 8 + 0x1f * 2 ^ 16 + 0x83 * 2 ^ 24 + 0x1f * 2 ^ 32;
    }
    else s2

-- `sha256` is the digest of the third-party functions, by the index of its bytes;
-- `trusted_kernel_hash` is in the header that the build generates; `bl_end` is the address of `end`.
module _ (sha256 : List ℕ → ℕ → ℕ) (trusted_kernel_hash : ℕ → ℕ) where
  -- What is measured: as many bytes of the RAM disk as the header of the kernel says.
  abbrev pub observed : Machine → ℕ → ℕ
  unfolding find_kernel_size bytes_of
  observed s = sha256 (bytes_of (find_kernel_size s) s.mem ramdisk)

  unfoldable pub is_secure_boot : Machine → Outcome (Bool × Machine)
  unfolding find_kernel_size bytes_of same_bytes setup_recovery_kernel
  is_secure_boot s =
      let m1 = write_bytes s.mem (sys_info + 64) 32 (observed s) in
      let m2 = write_bytes m1 (sys_info + 32) 32 trusted_kernel_hash in
      let s1 = record s { mem = m2 } in
      if same_bytes 32 m2 (sys_info + 64) trusted_kernel_hash
      then ok (true, s1)
      else (do s2 ← setup_recovery_kernel s1; ok (false, s2))

  -- What `start` writes for the kernel at the label `out`.
  unfoldable pub hand_over : ℕ → Machine → Machine
  hand_over bl_end s =
      let m1 = store64 s.mem sys_info 0x8000_0000 in
      let m2 = store64 m1 (sys_info + 8) bl_end in
      let m3 = store64 m2 (sys_info + 16) 0x8000_0000 in
      let m4 = store64 m3 (sys_info + 24) (0x8000_0000 + 128 * 1024 * 1024) in
      record s { mem = m4; medeleg = 0xffff; mideleg = 0xffff; sie = bit_or s.sie 0x222 }

  -- `start` up to its mret.
  unfoldable pub start : Build → ℕ → ℕ → Machine → Outcome Machine
  unfolding setup_pmp find_kernel_load_addr is_secure_boot load_kernel hand_over
  start b bl_end hartid s = do
    let mstatus = s.mstatus - s.mstatus / 2 ^ 11 % 4 * 2 ^ 11 + 2 ^ 11
    let s1 = setup_pmp b (record s { tp = hartid; mstatus = mstatus; satp = 0 })
    let (addr, s2) = find_kernel_load_addr normal s1
    (secure, s3) ← is_secure_boot s2
    s4 ← (if secure then load_kernel normal addr s3 else ok s3)
    ok (hand_over bl_end s4)
