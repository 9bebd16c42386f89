-- ===== src/Memory.antt =====
-- Physical memory as bytes, and the routines of kernel/string.c that move bytes in it. The file is
-- the same in the four assignments; a pointer is a physical address.
pub mod Laws
mod Tests
use advanced_operating_syste.Prelude.{
  ℕ, zero, suc, ◌+◌, ◌-◌, ◌*◌, ◌/◌, ◌%◌, Bool, true, false, not, ◌&&◌, ◌==◌, ltb, if◌then◌else◌,
}

abbrev pub Bytes : Type 0
Bytes = ℕ → ℕ

abbrev pub poke : Bytes → ℕ → ℕ → Bytes
poke m a v = λ q. if a == q then v else m q

-- `n` bytes from `a` as one number, the lowest byte first (RISC-V is little endian).
unfoldable pub load : ℕ → Bytes → ℕ → ℕ
load zero m a = 0
load (suc n) m a = m a + 256 * load n m (a + 1)

unfoldable pub store : ℕ → Bytes → ℕ → ℕ → Bytes
store zero m a v = m
store (suc n) m a v = store n (poke m a (v % 256)) (a + 1) (v / 256)

abbrev pub load64 : Bytes → ℕ → ℕ
load64 = load 8

abbrev pub store64 : Bytes → ℕ → ℕ → Bytes
store64 = store 8

-- `for(i = 0; i < n; i++) cdst[i] = c;`
pub memset : Bytes → ℕ → ℕ → ℕ → Bytes
memset m dst c zero = m
memset m dst c (suc n) = memset (poke m dst (c % 256)) (dst + 1) c n

-- `while(n-- > 0) *d++ = *s++;`
pub move_up : Bytes → ℕ → ℕ → ℕ → Bytes
move_up m d s zero = m
move_up m d s (suc n) = move_up (poke m d (m s)) (d + 1) (s + 1) n

-- `while(n-- > 0) *--d = *--s;`, where `d` and `s` point one past the next byte.
pub move_down : Bytes → ℕ → ℕ → ℕ → Bytes
move_down m d s zero = m
move_down m d s (suc n) = move_down (poke m (d - 1) (m (s - 1))) (d - 1) (s - 1) n

pub memmove : Bytes → ℕ → ℕ → ℕ → Bytes
memmove m dst src n =
    if n == 0
    then m
    else if ltb src dst && ltb dst (src + n)
    then move_down m (dst + n) (src + n) n
    else move_up m dst src n
