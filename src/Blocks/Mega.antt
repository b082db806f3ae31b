-- ===== src/Blocks/Mega.antt =====
-- The megablocks of runtime/gc/block-allocator.c: `freeMegaBlock`, `tryFindMegaBlock`,
-- `mmapNewMegaBlock`. What runs between the lock and the unlock of `megaBlockLock` is one operation.
use mpl.Base.{ℕ, zero, suc, ◌+◌, ◌-◌, ◌%◌, min, Option, none, some, leb, ◌==◌, if◌then◌else◌}
use mpl.Base.Chain.{update}
use mpl.Blocks.{Controls, Memory, set_header, set_allocator, next_of}
use mpl.Blocks.Super.{add_allocated, add_freed}

abbrev pub set_word0 : Memory → ℕ → ℕ → Memory
set_word0 m b v = set_header m b (record (m.headers b) { word0 = v })

abbrev pub first_mega_block : Memory → ℕ → ℕ → ℕ
first_mega_block m global class = (m.allocators global).mega_block_size_class class

abbrev pub set_first_mega_block : Memory → ℕ → ℕ → ℕ → Memory
set_first_mega_block m global class v =
    let g = m.allocators global in
    set_allocator m global
      (record g { mega_block_size_class = update g.mega_block_size_class class v })

unfoldable pub free_mega_block : Controls → Memory → (global mb size_class : ℕ) → Memory
free_mega_block c m global mb size_class =
    let nb = (m.headers mb).word1 in
    let purpose = (m.headers mb).purpose in
    let counted = add_freed m global purpose nb in
    let g = counted.allocators global in
    let class = size_class - c.superblock_threshold in
    let linked =
      set_first_mega_block (set_word0 m mb (first_mega_block m global class)) global class mb in
    if leb c.megablock_threshold size_class
    then set_allocator counted global
        (record g { num_blocks_released = g.num_blocks_released + nb })
    else add_freed linked global purpose nb

-- How a search of the lists ends; `before` is the megablock whose field `mbp` points to, or 0 where
-- `mbp` points to the head of the list.
pub data Search : Type 0 where
  out_of_fuel not_found : Search
  found : (class before mb : ℕ) → Search

-- The inner loop of `tryFindMegaBlock`.
unfoldable pub search_list : ℕ → Memory → (needed class before mb : ℕ) → Search
search_list zero m needed class before mb = out_of_fuel
search_list (suc fuel) m needed class before mb =
    let rest = search_list fuel m needed class mb (next_of m mb) in
    if mb == 0
    then not_found
    else if leb needed (m.headers mb).word1
    then found class before mb
    else rest

-- The outer loop, `left` classes from `class` on.
unfoldable pub search_classes : ℕ → Memory → (global needed class left : ℕ) → Search
search_classes fuel m global needed class zero = not_found
search_classes fuel m global needed class (suc left) =
    let rest = search_classes fuel m global needed (class + 1) left in
    elim (search_list fuel m needed class 0 (first_mega_block m global class)) [
      | out_of_fuel ↦ out_of_fuel
      | not_found ↦ rest
      | found i before mb ↦ found i before mb
    ]

-- `*mbp = mb->nextMegaBlock` and `mb->nextMegaBlock = NULL`.
unfoldable pub take_mega_block : Memory → (global class before mb : ℕ) → Memory
take_mega_block m global class before mb =
    let cut =
      if before == 0
      then set_first_mega_block m global class (next_of m mb)
      else set_word0 m before (next_of m mb) in
    set_word0 cut mb 0

-- The outer `none` is a search that ran out of fuel; the inner is NULL.
pub try_find_mega_block :
    ℕ → Controls → Memory → (global needed size_class purpose : ℕ) → Option (Memory × Option ℕ)
try_find_mega_block fuel c m global needed size_class purpose =
    let lower = size_class - c.superblock_threshold in
    let upper = min (lower + 2) (c.megablock_threshold - c.superblock_threshold) in
    let result = search_classes fuel m global needed lower (upper - lower) in
    if leb c.megablock_threshold size_class then some (m, none) else elim result [
      | out_of_fuel ↦ none
      | not_found ↦ some (m, none)
      | found class before mb ↦ some (
        add_allocated (take_mega_block m global class before mb) global purpose
            (m.headers mb).word1,
        some mb,
      )
    ]

-- `start` is the result of `GC_mmapAnon`, `none` being MAP_FAILED. The outer `none` is `DIE`.
pub mmap_new_mega_block :
    Controls → Memory → Option ℕ → (global num_blocks purpose : ℕ) → Option (Memory × Option ℕ)
mmap_new_mega_block c m none global num_blocks purpose = some (m, none)
mmap_new_mega_block c m (some start) global num_blocks purpose =
    let g = m.allocators global in
    let mapped =
      set_allocator m global (record g { num_blocks_mapped = g.num_blocks_mapped + num_blocks }) in
    let counted = add_allocated mapped global purpose num_blocks in
    if (start % c.block_size) == 0
    then some (
      set_header counted start record { word0 = 0; word1 = num_blocks; purpose = purpose },
      some start,
    )
    else none
