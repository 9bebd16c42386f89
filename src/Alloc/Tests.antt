-- ===== src/Alloc/Tests.antt =====
-- The allocator at small memories.
use advanced_operating_syste.Prelude.{ℕ, ◌≡◌, refl, [], ◌∷◌, ok, arith}
use advanced_operating_syste.Memory.{load}
use advanced_operating_syste.Alloc.{Machine, kalloc, kfree, kinit}
use advanced_operating_syste.Alloc.Stack.{Free, kalloc-kfree}
use advanced_operating_syste.Alloc.Init.{kinit-Free}

abbrev kernel_end : ℕ
kernel_end = 0x87ff_d800

abbrev booted : Machine
booted = record { bytes = λ _. 0; freelist = 0 }

-- One free page, which no other page follows.
abbrev one_page : Machine
one_page = record { bytes = λ _. 0; freelist = 0x87ff_e000 }

one_page-Free : Free one_page (0x87ff_e000 ∷ [])
unfolding load
one_page-Free = (refl, refl, omega arith, omega arith, tt, refl)

kinit-Free_example :
    (k' : Machine) × (kinit kernel_end booted ≡ ok k') × Free k' (0x87ff_f000 ∷ 0x87ff_e000 ∷ [])
kinit-Free_example = kinit-Free kernel_end booted (omega arith) (omega arith) refl

kalloc-kfree_example :
    (k' : Machine) × ((kfree kernel_end 0x87ff_f000 one_page ≡ ok k')
      × Free k' (0x87ff_f000 ∷ 0x87ff_e000 ∷ [])
      × ((kalloc k').0 ≡ 0x87ff_f000)
      × Free (kalloc k').1 (0x87ff_e000 ∷ []))
kalloc-kfree_example =
    kalloc-kfree kernel_end one_page 0x87ff_f000 (0x87ff_e000 ∷ []) refl (omega arith) (omega arith)
      (omega arith) ((λ e. absurd (omega (arith, e))), tt) one_page-Free
