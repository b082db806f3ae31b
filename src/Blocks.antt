-- ===== src/Blocks.antt =====
-- runtime/gc/block-allocator.h: the memory of the block allocator. An address is a number and 0 is
-- NULL. The first three words of a block are read under three layouts (`struct Blocks`,
-- `struct FreeBlock`, `struct MegaBlock`), which share them.
pub mod Fullness
pub mod Group
pub mod Links
pub mod Unlink
pub mod Relink
pub mod Super
pub mod Slots
pub mod SlotLaws
pub mod SlotCycle
pub mod Mega
pub mod MegaFit
pub mod Api
pub mod Remote
pub mod Usage
mod Tests
use mpl.Base.{ℕ, ◌^◌, Bool}
use mpl.Base.Chain.{update}

-- The fields of `s->controls` that the allocator reads. The fraction `emptinessFraction` is the
-- quotient of two numbers.
pub record Controls : Type 0 where
  pub block_size : ℕ
  pub superblock_threshold : ℕ
  pub megablock_threshold : ℕ
  pub alloc_blocks_min_size : ℕ
  pub emptiness_num : ℕ
  pub emptiness_den : ℕ
  pub debug_keep_free_blocks : Bool

-- `SUPERBLOCK_SIZE`
abbrev pub superblock_size : Controls → ℕ
superblock_size c = 2 ^ c.superblock_threshold

-- `struct SuperBlock`
pub record SuperBlock : Type 0 where
  pub owner : ℕ
  pub size_class : ℕ
  pub num_blocks_free : ℕ
  pub first_free : ℕ
  pub frontier : ℕ
  pub next_super_block : ℕ
  pub prev_super_block : ℕ
  pub magic : ℕ

-- The first words of a block: `nextFree`, `container` or `nextMegaBlock`; `container` or
-- `numBlocks`; `purpose`.
pub record Header : Type 0 where
  pub word0 : ℕ
  pub word1 : ℕ
  pub purpose : ℕ

-- `struct BlockAllocator`
pub record BlockAllocator : Type 0 where
  pub num_blocks_mapped : ℕ
  pub num_blocks_released : ℕ
  pub num_blocks_allocated : ℕ → ℕ
  pub num_blocks_freed : ℕ → ℕ
  pub size_class_fullness_group : ℕ → ℕ
  pub completely_empty_group : ℕ
  pub first_freed_by_other : ℕ
  pub mega_block_size_class : ℕ → ℕ

pub record Memory : Type 0 where
  pub super_blocks : ℕ → SuperBlock
  pub headers : ℕ → Header
  pub allocators : ℕ → BlockAllocator

-- `enum FullnessGroup`
pub data FullnessGroup : Type 0 where
  completely_full nearly_full somewhat_full nearly_empty completely_empty : FullnessGroup

abbrev pub num_fullness_groups : ℕ
num_fullness_groups = 4

abbrev pub group_index : FullnessGroup → ℕ
group_index completely_full = 0
group_index nearly_full = 1
group_index somewhat_full = 2
group_index nearly_empty = 3
group_index completely_empty = 4

abbrev pub set_super_block : Memory → ℕ → SuperBlock → Memory
set_super_block m sb v = record m { super_blocks = update m.super_blocks sb v }

abbrev pub set_header : Memory → ℕ → Header → Memory
set_header m b v = record m { headers = update m.headers b v }

abbrev pub set_allocator : Memory → ℕ → BlockAllocator → Memory
set_allocator m ball v = record m { allocators = update m.allocators ball v }

abbrev pub next_of : Memory → ℕ → ℕ
next_of m b = (m.headers b).word0
