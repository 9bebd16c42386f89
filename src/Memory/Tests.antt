-- ===== src/Memory/Tests.antt =====
-- The byte routines at small memories.
use advanced_operating_syste.Prelude.{◌%◌, ◌≡◌}
use advanced_operating_syste.Memory.{Bytes, load64, store64, memmove, memset}
use advanced_operating_syste.Memory.Laws.{load-store, memmove_lem, memset_lem}

-- Each byte is its address.
abbrev counting : Bytes
counting q = q % 256

memmove_lem_example : memmove counting 12 10 4 15 ≡ 13
memmove_lem_example = memmove_lem counting 12 10 4 15

memset_lem_example : memset counting 3 5 2 4 ≡ 5
memset_lem_example = memset_lem 2 counting 3 5 4

load-store_example : load64 (store64 counting 8 0x1122_3344_5566_7788) 8 ≡ 0x1122_3344_5566_7788
load-store_example = load-store counting 8 0x1122_3344_5566_7788
