-- ===== src/Blocks/Tests.antt =====
-- The block allocator on small inputs.
use mpl.Base.{
  ℕ, ◌+◌, ◌-◌, ◌^◌, ◌≤◌, ◌<◌, ◌≡◌, ◌==◌, ◌⊎◌, inl, refl, List, [], ◌∷◌, false, some, if◌then◌else◌,
  arith,
}
use mpl.Base.Chain.{Chain}
use mpl.Blocks.{
  Controls, SuperBlock, Header, BlockAllocator, Memory, nearly_full, nearly_empty, next_of,
  set_allocator,
}
use mpl.Blocks.Fullness.{fullness, compute_size_class, compute_size_class_lem, fullness_reversed}
use mpl.Blocks.Group.{empty_list, first_super_block, unlink_super_block}
use mpl.Blocks.Links.{IsList}
use mpl.Blocks.Relink.{unlink_super_block_lem}
use mpl.Blocks.Super.{allocate_in_super_block, deallocate_in_super_block}
use mpl.Blocks.Slots.{slot, slots, capacity, IsSuperBlock}
use mpl.Blocks.SlotCycle.{allocate_in_super_block_lem, deallocate_in_super_block_lem}
use mpl.Blocks.Unlink.{last_or}
use mpl.Blocks.Mega.{search_list, found, not_found}
use mpl.Blocks.MegaFit.{TooSmall, IsFirstFit, search_list_lem}
use mpl.Blocks.Remote.{free_all, clear_out_other_frees_lem}
use mpl.Blocks.Api.{clear_out_other_frees}

abbrev controls : Controls
controls = record {
  block_size = 4096;
  superblock_threshold = 3;
  megablock_threshold = 6;
  alloc_blocks_min_size = 1;
  emptiness_num = 3;
  emptiness_den = 8;
  debug_keep_free_blocks = false;
}

-- A superblock at 100 of class 1, with `blocks` free blocks, a frontier and links.
abbrev a_super_block : (blocks frontier next prev : ℕ) → SuperBlock
a_super_block blocks frontier next prev = record {
  owner = 1;
  size_class = 1;
  num_blocks_free = blocks;
  first_free = 0;
  frontier = frontier;
  next_super_block = next;
  prev_super_block = prev;
  magic = 2880298733;
}

abbrev an_allocator : ℕ → BlockAllocator
an_allocator first = record {
  num_blocks_mapped = 8;
  num_blocks_released = 0;
  num_blocks_allocated = λ p. 0;
  num_blocks_freed = λ p. 0;
  size_class_fullness_group = λ i. 0;
  completely_empty_group = 100;
  first_freed_by_other = first;
  mega_block_size_class = λ i. 0;
}

-- Two blocks, at 5000 and 6000, of 8 and 16 blocks.
abbrev two_headers : ℕ → Header
two_headers p = record {
  word0 = if p == 5000 then 6000 else 0;
  word1 = if p == 5000 then 8 else 16;
  purpose = 0;
}

abbrev memory : ℕ → (ℕ → SuperBlock) → Memory
memory first s = record {
  super_blocks = s;
  headers = two_headers;
  allocators = λ b. an_allocator first;
}

-- Superblocks 100, 200 and 300 in a row.
abbrev row : ℕ → SuperBlock
row p =
    a_super_block 8 (p + 4096) (if p == 100 then 200 else if p == 200 then 300 else 0)
      (if p == 200 then 100 else if p == 300 then 200 else 0)

compute_size_class_lem_example :
    (r : ℕ) × (compute_size_class 5 ≡ some r) × (5 ≤ 2 ^ r) × ((r ≡ 0) ⊎ (2 ^ (r - 1) < 5))
compute_size_class_lem_example = compute_size_class_lem 5 (omega arith)

six_free : fullness controls (a_super_block 6 100 0 0) ≡ nearly_full
unfolding fullness
six_free = refl

two_free : fullness controls (a_super_block 2 100 0 0) ≡ nearly_empty
unfolding fullness
two_free = refl

fullness_reversed_example : 2 < 6
fullness_reversed_example =
    fullness_reversed controls (a_super_block 6 100 0 0) (a_super_block 2 100 0 0) (omega arith)
      six_free two_free

three : IsList (memory 0 row) (empty_list 1) (100 ∷ 200 ∷ 300 ∷ [])
unfolding first_super_block
three = ground arith

unlink_super_block_lem_example :
    IsList (unlink_super_block (memory 0 row) (empty_list 1) 200) (empty_list 1) (100 ∷ 300 ∷ [])
    × (((unlink_super_block (memory 0 row) (empty_list 1) 200).super_blocks 200).prev_super_block
        ≡ 0)
    × (((unlink_super_block (memory 0 row) (empty_list 1) 200).super_blocks 200).next_super_block
        ≡ 0)
unlink_super_block_lem_example =
    unlink_super_block_lem (memory 0 row) (empty_list 1) 200 (100 ∷ []) (300 ∷ []) three

-- A superblock of 8 free blocks, and one of which the slot 0 of 2 blocks is in use.
abbrev all_free : Memory
all_free = memory 0 (λ p. a_super_block 8 4196 0 0)

abbrev one_in_use : Memory
one_in_use = memory 0 (λ p. a_super_block 6 12388 0 0)

all_free-IsSuperBlock : IsSuperBlock controls all_free 100 1 0 [] []
unfolding slot slots
all_free-IsSuperBlock = record {
  class_le = omega arith;
  class_eq = refl;
  frontier_eq = refl;
  room = omega arith;
  chain = refl;
  distinct = tt;
  below = tt;
  count = refl;
  blocks_free = refl;
}

one_in_use-IsSuperBlock : IsSuperBlock controls one_in_use 100 1 1 [] (0 ∷ [])
unfolding slot slots
one_in_use-IsSuperBlock = record {
  class_le = omega arith;
  class_eq = refl;
  frontier_eq = refl;
  room = omega arith;
  chain = refl;
  distinct = (tt, tt);
  below = (omega arith, tt);
  count = refl;
  blocks_free = refl;
}

-- The empty superblock of class 1 becomes one of class 2.
allocate_in_super_block_lem_example :
    (i : ℕ) × (v : ℕ) × (rest : List ℕ) × ((allocate_in_super_block controls all_free 100 2 0).1
      ≡ slot controls 100 2 i)
    × (i < capacity controls 2)
    × IsSuperBlock controls
        (allocate_in_super_block controls all_free 100 2 0).0
        100
        2
        v
        rest
        (i ∷ [])
allocate_in_super_block_lem_example =
    allocate_in_super_block_lem controls all_free 100 1 0 [] [] 2 0 (omega arith) (omega arith)
      all_free-IsSuperBlock (inl refl) (omega arith)

deallocate_in_super_block_lem_example :
    IsSuperBlock controls
      (deallocate_in_super_block one_in_use 100 (slot controls 100 1 0))
      100
      1
      1
      (0 ∷ [])
      []
deallocate_in_super_block_lem_example =
    deallocate_in_super_block_lem controls one_in_use 100 1 1 0 [] [] [] (omega arith)
      one_in_use-IsSuperBlock

two_blocks : Chain (next_of (memory 5000 row)) 5000 (5000 ∷ 6000 ∷ [])
two_blocks = ground arith

search_list_lem_example :
    ((search_list 3 (memory 0 row) 10 0 0 5000 ≡ not_found)
      × TooSmall (memory 0 row) 10 (5000 ∷ 6000 ∷ []))
    ⊎ ((ys : List ℕ) × (zs : List ℕ) × (mb : ℕ) × (search_list 3 (memory 0 row) 10 0 0 5000
          ≡ found 0 (last_or 0 ys) mb)
        × IsFirstFit (memory 0 row) 10 (5000 ∷ 6000 ∷ []) ys zs mb)
search_list_lem_example =
    search_list_lem 3 (memory 0 row) 10 0 0 5000 (5000 ∷ 6000 ∷ []) two_blocks (omega arith)

clear_out_other_frees_lem_example :
    clear_out_other_frees 2 controls (memory 5000 row) 1
    ≡ some (
        free_all controls
          (set_allocator
            (memory 5000 row)
            1
            (record (an_allocator 5000) { first_freed_by_other = 0 }))
          (5000 ∷ 6000 ∷ []))
clear_out_other_frees_lem_example =
    clear_out_other_frees_lem 2 controls (memory 5000 row) 1 (5000 ∷ 6000 ∷ []) two_blocks
      (ground arith) (omega arith)
