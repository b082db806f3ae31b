-- ===== src/Blocks/Super.antt =====
-- The operations on one superblock, and those that choose one, of runtime/gc/block-allocator.c. The
-- superblock's own structure lies in its first block, apart from the blocks that it hands out.
use mpl.Base.{
  ℕ, ◌+◌, ◌-◌, ◌*◌, ◌/◌, ◌%◌, ◌^◌, Bool, ◌&&◌, Option, none, some, List, [], ◌∷◌, ltb, ◌==◌,
  if◌then◌else◌,
}
use mpl.Base.Chain.{update}
use mpl.Blocks.{
  Controls, superblock_size, SuperBlock, Memory, FullnessGroup, nearly_full, somewhat_full,
  nearly_empty, completely_empty, group_index, set_super_block, set_header, set_allocator, next_of,
}
use mpl.Blocks.Fullness.{fullness}
use mpl.Blocks.Group.{
  SuperBlockList, first_super_block, get_fullness_group, unlink_super_block, prepend_super_block,
}

pub is_valid_block_start : Controls → ℕ → SuperBlock → ℕ → Bool
is_valid_block_start c sb s p =
    let block_id = ((p - sb) / c.block_size + 2 ^ 64 - 1) % 2 ^ 64 in
    ltb sb p && ((block_id % 2 ^ s.size_class) == 0)

unfoldable pub set_super_block_size_class : Controls → Memory → ℕ → ℕ → Memory
set_super_block_size_class c m sb size_class = set_super_block m sb (record (m.super_blocks sb) {
  size_class = size_class;
  first_free = 0;
  frontier = sb + c.block_size;
})

-- `owner->numBlocksAllocated[purpose] += n`, and `numBlocksFreed`.
abbrev pub add_allocated : Memory → ℕ → ℕ → ℕ → Memory
add_allocated m owner purpose n =
    let b = m.allocators owner in
    set_allocator m owner (record b {
      num_blocks_allocated =
          update b.num_blocks_allocated purpose (b.num_blocks_allocated purpose + n);
    })

abbrev pub add_freed : Memory → ℕ → ℕ → ℕ → Memory
add_freed m owner purpose n =
    let b = m.allocators owner in
    set_allocator m owner (record b {
      num_blocks_freed = update b.num_blocks_freed purpose (b.num_blocks_freed purpose + n);
    })

-- `allocateInSuperBlock` from `if (sb->firstFree == NULL)` on.
unfoldable pub take_block : Controls → Memory → ℕ → ℕ → Memory × ℕ
take_block c m sb purpose =
    let s = m.super_blocks sb in
    let n = 2 ^ s.size_class in
    let result = if s.first_free == 0 then s.frontier else s.first_free in
    let taken =
      if s.first_free == 0
      then record s {
        frontier = s.frontier + c.block_size * n;
        num_blocks_free = s.num_blocks_free - n;
      }
      else record s { first_free = next_of m result; num_blocks_free = s.num_blocks_free - n } in
    (
      set_header (add_allocated (set_super_block m sb taken) s.owner purpose n) result
          record { word0 = sb; word1 = n; purpose = purpose },
      result,
    )

unfoldable pub allocate_in_super_block : Controls → Memory → ℕ → ℕ → ℕ → Memory × ℕ
allocate_in_super_block c m sb size_class purpose =
    let ready =
      if (m.super_blocks sb).num_blocks_free == superblock_size c
      then set_super_block_size_class c m sb size_class
      else m in
    take_block c ready sb purpose

unfoldable pub deallocate_in_super_block : Memory → ℕ → ℕ → Memory
deallocate_in_super_block m sb block =
    let s = m.super_blocks sb in
    let n = 2 ^ s.size_class in
    let linked = set_header m block (record (m.headers block) { word0 = s.first_free }) in
    let freed =
      set_super_block linked sb
        (record s { first_free = block; num_blocks_free = s.num_blocks_free + n }) in
    add_freed freed s.owner (m.headers block).purpose n

-- The search of `tryAllocateAndAdjustSuperBlocks` for its `targetList`.
find_in : Memory → ℕ → ℕ → List FullnessGroup → Option SuperBlockList
find_in m ball class [] =
    let empties = get_fullness_group ball 0 completely_empty in
    if first_super_block m empties == 0 then none else some empties
find_in m ball class (fg ∷ fgs) =
    let rest = find_in m ball class fgs in
    let list = get_fullness_group ball class fg in
    if first_super_block m list == 0 then rest else some list

-- `none` is the NULL of the C code, in place of the blocks.
pub try_allocate_and_adjust_super_blocks : Controls → Memory → ℕ → ℕ → ℕ → Option (Memory × ℕ)
try_allocate_and_adjust_super_blocks c m ball class purpose =
    elim (find_in m ball class (nearly_full ∷ somewhat_full ∷ nearly_empty ∷ [])) [
      | none ↦ none
      | some target ↦
          let sb = first_super_block m target in
          let fg = fullness c (m.super_blocks sb) in
          let (allocated, result) = allocate_in_super_block c m sb class purpose in
          let newfg = fullness c (allocated.super_blocks sb) in
          let moved =
            prepend_super_block (unlink_super_block allocated target sb)
              (get_fullness_group ball class newfg) sb in
          some (if group_index fg == group_index newfg then allocated else moved, result)
    ]

unfoldable pub local_free_blocks : Controls → Memory → ℕ → ℕ → Memory
local_free_blocks c m sb b =
    let s = m.super_blocks sb in
    let old_list = get_fullness_group s.owner s.size_class (fullness c s) in
    let unlinked = unlink_super_block m old_list sb in
    let freed = deallocate_in_super_block unlinked sb b in
    let t = freed.super_blocks sb in
    prepend_super_block freed (get_fullness_group s.owner t.size_class (fullness c t)) sb
