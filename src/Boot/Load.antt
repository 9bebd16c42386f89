-- ===== src/Boot/Load.antt =====
-- What the copying loop leaves in memory.
use advanced_operating_syste.Prelude.{
  ℕ, zero, suc, ◌+◌, ◌-◌, ◌*◌, ◌≤◌, ◌<◌, ◌≡◌, refl, ◌∙◌, ◌⊎◌, inl, inr, ◌&&◌, ltb, leb,
  if◌then◌else◌, ok, panic, arith, ℕ_discrete,
}
use advanced_operating_syste.Memory.{Bytes}
use advanced_operating_syste.Boot.{
  Kernel, disk_of, fs_size, block_size, kernel_copy, write_bytes, copy_blocks,
}

-- The image apart from the disk it comes from.
abbrev pub Apart : Kernel → ℕ → ℕ → Type 0
Apart ktype addr n =
    (addr + n * block_size ≤ disk_of ktype) ⊎ (disk_of ktype + fs_size * block_size ≤ addr)

-- The byte that belongs at an address of the image.
abbrev pub image : Kernel → ℕ → ℕ → ℕ → Bytes → Bytes
image ktype n i addr m q =
    if leb addr q && ltb q (addr + n * block_size)
    then m (disk_of ktype + i * block_size + (q - addr))
    else m q

kernel_copy-ok :
    (ktype : Kernel) (i : ℕ) (m : Bytes)
    → i < fs_size
    → kernel_copy ktype i m ≡ ok (λ o. m (disk_of ktype + i * block_size + o))
unfolding kernel_copy
kernel_copy-ok ktype i m lt = ground arith

kernel_copy-none :
    (ktype : Kernel) (i : ℕ) (m : Bytes) → fs_size ≤ i → kernel_copy ktype i m ≡ panic
unfolding kernel_copy
kernel_copy-none ktype i m le = ground arith

-- One block and the image of the rest make the image.
image-suc :
    (ktype : Kernel) (n i addr : ℕ) (m : Bytes) (q : ℕ)
    → Apart ktype addr (suc n)
    → i + suc n ≤ fs_size
    → image ktype n
        (i + 1)
        (addr + block_size)
        (write_bytes m addr block_size (λ o. m (disk_of ktype + i * block_size + o)))
        q
      ≡ image ktype (suc n) i addr m q
image-suc ktype n i addr m q apart le = by_disk (disk_of ktype) apart
  where
    by_disk :
        (d : ℕ)
        → (addr + suc n * block_size ≤ d) ⊎ (d + fs_size * block_size ≤ addr)
        → (if leb (addr + block_size) q && ltb q (addr + block_size + n * block_size)
            then write_bytes m addr block_size
                (λ o. m (d + i * block_size + o))
                (d + (i + 1) * block_size + (q - (addr + block_size)))
            else write_bytes m addr block_size (λ o. m (d + i * block_size + o)) q)
          ≡ (if leb addr q && ltb q (addr + suc n * block_size)
              then m (d + i * block_size + (q - addr))
              else m q)
    by_disk d (inl e) = ground arith
    by_disk d (inr e) = ground arith

-- Blocks that the disk has go to their addresses, byte by byte, and nothing else changes.
pub copy_blocks_lem :
    (ktype : Kernel) (n i addr : ℕ) (m : Bytes)
    → Apart ktype addr n
    → i + n ≤ fs_size
    → (m' : Bytes) × (copy_blocks ktype n i addr m ≡ ok m')
      × ((q : ℕ) → m' q ≡ image ktype n i addr m q)
unfolding copy_blocks
copy_blocks_lem ktype zero i addr m apart le = (m, refl, λ q. ground arith)
copy_blocks_lem ktype (suc n) i addr m apart le =
    let block : ℕ → ℕ = λ o. m (disk_of ktype + i * block_size + o) in
    let m1 : Bytes = write_bytes m addr block_size block in
    let (m', ran, at) =
      copy_blocks_lem ktype n (i + 1) (addr + block_size) m1 (tail apart) (omega (arith, le)) in
    (
      m',
      rw (kernel_copy-ok ktype i m (omega (arith, le))) ran,
      λ q. at q ∙ image-suc ktype n i addr m q apart le,
    )
  where
    tail : Apart ktype addr (suc n) → Apart ktype (addr + block_size) n
    tail (inl e) = inl (omega (arith, e))
    tail (inr e) = inr (omega (arith, e))

copy_blocks_panic :
    (ktype : Kernel) (n i addr : ℕ) (m : Bytes)
    → i ≤ fs_size
    → fs_size < i + n
    → copy_blocks ktype n i addr m ≡ panic
unfolding copy_blocks
copy_blocks_panic ktype zero i addr m le lt = absurd (omega (arith, lt))
copy_blocks_panic ktype (suc n) i addr m le lt = elim (ℕ_discrete i fs_size) [
  | yes e ↦ rw (kernel_copy-none ktype i m (omega (arith, e)))
  | no ne ↦ rw (kernel_copy-ok ktype i m (omega (arith, ne))) (
      copy_blocks_panic ktype n (i + 1) (addr + block_size)
        (write_bytes m addr block_size (λ o. m (disk_of ktype + i * block_size + o)))
        (omega (arith, ne)) (omega (arith, lt)))
]

-- An image that reaches past the disk stops the machine.
pub copy_blocks-lt :
    (ktype : Kernel) (n addr : ℕ) (m : Bytes)
    → fs_size < 4 + n
    → copy_blocks ktype n 4 addr m ≡ panic
copy_blocks-lt ktype n addr m lt = copy_blocks_panic ktype n 4 addr m (omega arith) lt
