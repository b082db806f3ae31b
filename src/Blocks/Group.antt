-- ===== src/Blocks/Group.antt =====
-- The lists of superblocks of runtime/gc/block-allocator.c: `getFullnessGroup`, `unlinkSuperBlock`,
-- `prependSuperBlock`. A list is known by the place of its `firstSuperBlock`.
use mpl.Base.{ℕ, ◌+◌, ◌*◌, ◌==◌, if◌then◌else◌}
use mpl.Base.Chain.{update}
use mpl.Blocks.{
  Memory, FullnessGroup, completely_empty, group_index, num_fullness_groups, set_super_block,
  set_allocator,
}

-- `SuperBlockList`: an element of the array `sizeClassFullnessGroup`, or `completelyEmptyGroup`.
pub data SuperBlockList : Type 0 where
  size_class_list : (ball index : ℕ) → SuperBlockList
  empty_list : (ball : ℕ) → SuperBlockList

unfoldable pub first_super_block : Memory → SuperBlockList → ℕ
first_super_block m (size_class_list ball i) = (m.allocators ball).size_class_fullness_group i
first_super_block m (empty_list ball) = (m.allocators ball).completely_empty_group

unfoldable pub set_first_super_block : Memory → SuperBlockList → ℕ → Memory
set_first_super_block m (size_class_list ball i) v =
    let b = m.allocators ball in
    set_allocator m ball
      (record b { size_class_fullness_group = update b.size_class_fullness_group i v })
set_first_super_block m (empty_list ball) v =
    set_allocator m ball (record (m.allocators ball) { completely_empty_group = v })

abbrev pub get_fullness_group : ℕ → ℕ → FullnessGroup → SuperBlockList
get_fullness_group ball class completely_empty = empty_list ball
get_fullness_group ball class fg =
    size_class_list ball (class * num_fullness_groups + group_index fg)

abbrev pub set_next : Memory → ℕ → ℕ → Memory
set_next m sb v = set_super_block m sb (record (m.super_blocks sb) { next_super_block = v })

abbrev pub set_prev : Memory → ℕ → ℕ → Memory
set_prev m sb v = set_super_block m sb (record (m.super_blocks sb) { prev_super_block = v })

-- The first two statements of `unlinkSuperBlock`.
unfoldable pub unlink_before : Memory → SuperBlockList → ℕ → Memory
unlink_before m l sb =
    let self = m.super_blocks sb in
    if self.prev_super_block == 0
    then set_first_super_block m l self.next_super_block
    else set_next m self.prev_super_block self.next_super_block

unfoldable pub unlink_after : Memory → ℕ → Memory
unlink_after m sb =
    let self = m.super_blocks sb in
    if self.next_super_block == 0 then m else set_prev m self.next_super_block self.prev_super_block

unfoldable pub unlink_super_block : Memory → SuperBlockList → ℕ → Memory
unlink_super_block m l sb = set_next (set_prev (unlink_after (unlink_before m l sb) sb) sb 0) sb 0

unfoldable pub prepend_super_block : Memory → SuperBlockList → ℕ → Memory
prepend_super_block m l sb =
    let first = first_super_block m l in
    let linked = set_next m sb first in
    let back = if first == 0 then linked else set_prev linked first sb in
    set_first_super_block back l sb
