-- ===== src/Blocks/Api.antt =====
-- The entry points of runtime/gc/block-allocator.c: `mmapNewSuperBlocks`, `clearOutOtherFrees`,
-- `allocateBlocksWithPurpose`, `freeBlocks`. The results of `GC_mmapAnon` are arguments, `none` being
-- MAP_FAILED. The exchange that empties `firstFreedByOther`, and the one that pushes onto it, are
-- one step each, as where the compare-and-swap of the C loops succeeds.
use mpl.Base.{ℕ, zero, suc, ◌+◌, ◌-◌, ◌*◌, ◌/◌, Option, none, some, leb, ◌==◌, if◌then◌else◌}
use mpl.Blocks.{
  Controls, superblock_size, Memory, completely_empty, set_super_block, set_header, set_allocator,
  next_of,
}
use mpl.Blocks.Fullness.{compute_size_class}
use mpl.Blocks.Group.{get_fullness_group, prepend_super_block}
use mpl.Blocks.Super.{
  set_super_block_size_class, try_allocate_and_adjust_super_blocks, local_free_blocks,
}
use mpl.Blocks.Mega.{set_word0, try_find_mega_block, mmap_new_mega_block, free_mega_block}

-- `magic` of a superblock and of a block that is kept free for debugging.
abbrev pub super_block_magic : ℕ
super_block_magic = 2880298733

abbrev pub kept_free_magic : ℕ
kept_free_magic = 1094910139373

-- One turn of the loop of `mmapNewSuperBlocks`.
new_super_block : Controls → Memory → (ball sb : ℕ) → Memory
new_super_block c m ball sb =
    let fresh = set_super_block m sb (record (m.super_blocks sb) {
      owner = ball;
      next_super_block = 0;
      prev_super_block = 0;
      num_blocks_free = superblock_size c;
      magic = super_block_magic;
    }) in
    prepend_super_block (set_super_block_size_class c fresh sb 0)
      (get_fullness_group ball 0 completely_empty) sb

new_super_blocks : Controls → Memory → (ball start i left : ℕ) → Memory
new_super_blocks c m ball start i zero = m
new_super_blocks c m ball start i (suc left) =
    let one_width = c.block_size * (1 + superblock_size c) in
    new_super_blocks c (new_super_block c m ball (start + one_width * i)) ball start (i + 1) left

-- `first` answers the request for `count` superblocks, `second` that for one. `none` is `DIE`.
pub mmap_new_super_blocks : Controls → Memory → ℕ → (first second : Option ℕ) → Option Memory
mmap_new_super_blocks c m ball first second =
    let one_width = c.block_size * (1 + superblock_size c) in
    let full_count = 1 + (c.alloc_blocks_min_size - 1) / one_width in
    let add : (start count : ℕ) → Memory = (λ start count.
      let n = new_super_blocks c m ball start 0 count in
      let b = n.allocators ball in
      set_allocator n ball
        (record b { num_blocks_mapped = b.num_blocks_mapped + count * superblock_size c })) in
    elim first [
      | some start ↦ some (add start full_count)
      | none ↦ elim second [ some start ↦ some (add start 1) | none ↦ none ]
    ]

-- The second loop of `clearOutOtherFrees`. `none` is a loop that ran out of fuel.
unfoldable pub free_others : ℕ → Controls → Memory → ℕ → Option Memory
free_others zero c m top = if top == 0 then some m else none
free_others (suc fuel) c m top =
    let rest =
      free_others fuel c (local_free_blocks c m (m.headers top).word1 top) (next_of m top) in
    if top == 0 then some m else rest

unfoldable pub clear_out_other_frees : ℕ → Controls → Memory → ℕ → Option Memory
clear_out_other_frees fuel c m local =
    let b = m.allocators local in
    free_others fuel c (set_allocator m local (record b { first_freed_by_other = 0 }))
      b.first_freed_by_other

-- How a call of the allocator ends.
pub data Result : Type 0 where
  died out_of_fuel undefined_shift : Result
  returned : (m : Memory) (blocks : ℕ) → Result

finish_mega : Memory → (mb purpose : ℕ) → Result
finish_mega m mb purpose =
    returned (set_header m mb record { word0 = 0; word1 = (m.headers mb).word1; purpose = purpose })
      mb

-- The branch of `allocateBlocksWithPurpose` for megablocks.
allocate_mega : ℕ → Controls → Memory → (global num_blocks class purpose : ℕ) → Option ℕ → Result
allocate_mega fuel c m global num_blocks class purpose mapped =
    elim (try_find_mega_block fuel c m global num_blocks class purpose) [
      | none ↦ out_of_fuel
      | some found ↦ elim found.1 [
        | some mb ↦ finish_mega found.0 mb purpose
        | none ↦ elim (mmap_new_mega_block c found.0 mapped global num_blocks purpose) [
          | none ↦ died
          | some new ↦ elim new.1 [ none ↦ died | some mb ↦ finish_mega new.0 mb purpose ]
        ]
      ]
    ]

-- The branch for superblocks.
allocate_small :
    ℕ → Controls → Memory → (local class purpose : ℕ) → (first second : Option ℕ) → Result
allocate_small fuel c m local class purpose first second =
    elim (clear_out_other_frees fuel c m local) [
      | none ↦ out_of_fuel
      | some cleared ↦ elim (try_allocate_and_adjust_super_blocks c cleared local class purpose) [
        | some result ↦ returned result.0 result.1
        | none ↦ elim (mmap_new_super_blocks c cleared local first second) [
          | none ↦ died
          | some mapped ↦ elim (try_allocate_and_adjust_super_blocks c mapped local class purpose) [
            | some result ↦ returned result.0 result.1
            | none ↦ died
          ]
        ]
      ]
    ]

pub allocate_blocks_with_purpose :
    ℕ
    → Controls
    → Memory
    → (local global num_blocks purpose : ℕ) → (mega first second : Option ℕ) → Result
allocate_blocks_with_purpose fuel c m local global num_blocks purpose mega first second =
    elim (compute_size_class num_blocks) [
      | none ↦ undefined_shift
      | some class ↦
          if leb c.superblock_threshold class
          then allocate_mega fuel c m global num_blocks class purpose mega
          else allocate_small fuel c m local class purpose first second
    ]

-- The loop of `freeBlocks` that marks the blocks kept for debugging; their pointer to the buffer of
-- information, and the buffer, are left out.
keep_free : Controls → Memory → (start count idx left : ℕ) → Memory
keep_free c m start count idx zero = m
keep_free c m start count idx (suc left) =
    keep_free c
      (set_header m (start + idx * c.block_size)
        record { word0 = kept_free_magic; word1 = idx; purpose = count })
      start count (idx + 1) left

-- The push of `freeBlocks` onto the list of the owner.
unfoldable pub push_freed_by_other : Memory → (owner elem : ℕ) → Memory
push_freed_by_other m owner elem =
    let b = m.allocators owner in
    set_allocator (set_word0 m elem b.first_freed_by_other) owner
      (record b { first_freed_by_other = elem })

-- `freeBlocks` after the debugging branch. `none` is a shift that C leaves undefined.
unfoldable pub release_blocks : Controls → Memory → (local global bs : ℕ) → Option Memory
release_blocks c m local global bs =
    let h = m.headers bs in
    let sb = h.word0 in
    let size_class =
      if sb == 0 then compute_size_class h.word1 else some (m.super_blocks sb).size_class in
    let mega = set_header m bs (record h { word0 = 0 }) in
    let elem = set_header m bs (record h { word1 = sb }) in
    let owner = (m.super_blocks sb).owner in
    elim size_class [
      | none ↦ none
      | some class ↦
          if leb c.superblock_threshold class
          then some (free_mega_block c mega global bs class)
          else if owner == local
          then some (local_free_blocks c elem sb bs)
          else some (push_freed_by_other elem owner bs)
    ]

pub free_blocks : Controls → Memory → (local global bs : ℕ) → Option Memory
free_blocks c m local global bs =
    let count = (m.headers bs).word1 in
    if c.debug_keep_free_blocks
    then some (keep_free c m bs count 0 count)
    else release_blocks c m local global bs
