-- ===== src/Boot/Tests.antt =====
-- A RAM disk with a small kernel.
use advanced_operating_syste.Prelude.{
  ℕ, ◌%◌, ◌≡◌, refl, inl, true, false, [], ◌∷◌, Outcome, ok, panic, fault, arith,
}
use advanced_operating_syste.Memory.{Bytes, load}
use advanced_operating_syste.Boot.{
  normal, Machine, recovery_disk, copy_blocks, start, is_secure_boot, find_kernel_load_addr,
  find_kernel_size, find_kernel_entry_addr, load_kernel, hand_over, setup_pmp, same_bytes, bytes_of,
  setup_recovery_kernel,
}
use advanced_operating_syste.Boot.Load.{copy_blocks_lem, image}

copy_blocks_lem_example :
    (m' : Bytes) × (copy_blocks normal 3 4 0x8000_0000 (λ q. q % 256) ≡ ok m')
    × ((q : ℕ) → m' q ≡ image normal 3 4 0x8000_0000 (λ q. q % 256) q)
copy_blocks_lem_example =
    copy_blocks_lem normal 3 4 0x8000_0000 (λ q. q % 256) (inl (omega arith)) (omega arith)

-- An empty RAM disk: the header is all zero, so nothing is measured and nothing is loaded.
abbrev blank : Machine
blank = record {
  mem = λ _. 0;
  kernel_elfhdr = 0;
  tp = 0;
  mstatus = 0;
  satp = 0;
  pmpaddr = 0 ∷ 0 ∷ 0 ∷ 0 ∷ 0 ∷ [];
  pmpcfg0 = 0;
  mepc = 0;
  medeleg = 0;
  mideleg = 0;
  sie = 0;
}

-- The trusted digest of nothing is 0 in every byte.
abbrev left : Outcome Machine → Machine
left (ok s) = s
left panic = blank
left fault = blank

abbrev booted : Machine
unfolding start setup_pmp find_kernel_load_addr is_secure_boot load_kernel hand_over
    find_kernel_size bytes_of same_bytes copy_blocks find_kernel_entry_addr setup_recovery_kernel
    load
booted =
    left (start (λ _ _. 0) (λ _. 0) (record { kernelpmp1 = true; kernelpmp2 = false }) 4096 0 blank)

-- Another digest than the trusted one: the recovery kernel is entered.
abbrev refused : Machine
unfolding start setup_pmp find_kernel_load_addr is_secure_boot load_kernel hand_over
    find_kernel_size bytes_of same_bytes copy_blocks find_kernel_entry_addr setup_recovery_kernel
    load
refused =
    left (start (λ _ _. 1) (λ _. 0) (record { kernelpmp1 = true; kernelpmp2 = false }) 4096 0 blank)

refused_hdr : refused.kernel_elfhdr ≡ recovery_disk
unfolding start setup_pmp find_kernel_load_addr is_secure_boot load_kernel hand_over
    find_kernel_size bytes_of same_bytes copy_blocks find_kernel_entry_addr setup_recovery_kernel
    load
refused_hdr = refl
