-- ===== src/Boot/Secure.antt =====
-- Which kernel is entered, and that it is in memory.
use advanced_operating_syste.Prelude.{ℕ, ◌+◌, ◌-◌, ◌*◌, ◌/◌, ◌%◌, ◌^◌, ◌<◌, ◌≡◌, List}
use advanced_operating_syste.Memory.{Bytes}
use advanced_operating_syste.Boot.{
  Kernel, Build, Machine, ramdisk, sys_info, entry_of, disk_of, write_bytes, setup_pmp, observed,
}
use advanced_operating_syste.Boot.Placed.{Placed}

-- The measurement and the trusted hash, written one after the other.
abbrev pub two_writes : Bytes → (ℕ → ℕ) → (ℕ → ℕ) → Bytes
two_writes m f g = write_bytes (write_bytes m (sys_info + 64) 32 f) (sys_info + 32) 32 g

module _ (sha256 : List ℕ → ℕ → ℕ) (trusted : ℕ → ℕ) where
  -- The digest of the kernel on the RAM disk is the trusted one.
  abbrev pub Trusted : Machine → Type 0
  Trusted s =
      (j : ℕ)
      → j < 32
      → observed sha256 trusted (record s { kernel_elfhdr = ramdisk }) j ≡ trusted j

  -- The machine enters the kernel of the header `hdr`.
  abbrev pub Enters : Machine → ℕ → Type 0
  Enters s hdr = (s.kernel_elfhdr ≡ hdr) × (s.mepc ≡ entry_of s.mem hdr)

  -- The memory after the measurement and the trusted hash were written to the system information.
  abbrev pub noted : Machine → Bytes → Bytes
  noted s m =
      two_writes m (observed sha256 trusted (record s { mem = m; kernel_elfhdr = ramdisk })) trusted

  -- The machine enters the kernel of a disk, which stands in memory at the address `addr`.
  abbrev pub Boots : Machine → Kernel → ℕ → Machine → Type 0
  Boots s k addr s' = Enters s' (disk_of k) × Placed s k addr s.mem s'.mem

  -- The machine in which `start` measures.
  abbrev measured_in : Build → ℕ → Machine → Machine
  measured_in b hartid s =
      record (setup_pmp b (record s {
        tp = hartid;
        mstatus = s.mstatus - s.mstatus / 2 ^ 11 % 4 * 2 ^ 11 + 2 ^ 11;
        satp = 0;
      })) { kernel_elfhdr = ramdisk }
