-- ===== src/FixedSize.antt =====
-- runtime/gc/fixed-size-allocator.c and its header: an allocator of elements of one size, on chunks,
-- with a free list of its owner and one for the others. The exchanges on the shared list are one
-- step each, as where the compare-and-swap of the C loops succeeds.
pub mod Reuse
mod Tests
use mpl.Base.{
  ℕ, ◌+◌, ◌-◌, ◌*◌, ◌/◌, ◌%◌, ◌^◌, Bool, ◌||◌, Option, none, some, ltb, ◌==◌, if◌then◌else◌,
}
use mpl.Base.Chain.{update}
use mpl.Align.{align, align_down}
use mpl.Chunks.{
  Store, init_chunk_list, get_chunk_size_past_frontier, update_chunk_frontier_in_list,
  shift_chunk_start,
}
use mpl.Chunks.Lists.{Allocation, allocate_chunk_with_purpose}

-- `struct FixedSizeAllocator`; `buffer` is the address of its list of chunks.
pub record FixedSizeAllocator : Type 0 where
  pub fixed_size : ℕ
  pub num_allocated : ℕ
  pub num_local_freed : ℕ
  pub num_shared_freed : ℕ
  pub purpose : ℕ
  pub buffer : ℕ
  pub free_list : ℕ
  pub shared_free_list : ℕ

-- `next_free` is the first word of an element, and `gap` the word in the start gap of a chunk.
pub record Arena : Type 0 where
  pub store : Store
  pub allocators : ℕ → FixedSizeAllocator
  pub next_free : ℕ → ℕ
  pub gap : ℕ → ℕ

abbrev pub set_fixed : Arena → ℕ → FixedSizeAllocator → Arena
set_fixed a fsa v = record a { allocators = update a.allocators fsa v }

abbrev pub word_suc : ℕ → ℕ
word_suc n = (n + 1) % 2 ^ 64

-- `initFixedSizeAllocator`
pub init_fixed_size_allocator : Arena → (fsa fixed_size purpose : ℕ) → Arena
init_fixed_size_allocator a fsa fixed_size purpose =
    let f = a.allocators fsa in
    set_fixed (record a { store = init_chunk_list a.store f.buffer }) fsa
      record {
        fixed_size = align (if ltb fixed_size 8 then 8 else fixed_size) 8;
        num_allocated = 0;
        num_local_freed = 0;
        num_shared_freed = 0;
        purpose = purpose;
        buffer = f.buffer;
        free_list = 0;
        shared_free_list = 0;
      }

-- The first and the second fast path of `allocateFixedSize`.
unfoldable pub take_free : Arena → ℕ → Arena × ℕ
take_free a fsa =
    let f = a.allocators fsa in
    let elem = f.free_list in
    (
      set_fixed (record a { next_free = update a.next_free elem 0 }) fsa
          (record f { free_list = a.next_free elem; num_allocated = word_suc f.num_allocated }),
      elem,
    )

unfoldable pub take_shared : Arena → ℕ → Arena × ℕ
take_shared a fsa =
    let f = a.allocators fsa in
    let top_elem = f.shared_free_list in
    (
      set_fixed (record a { next_free = update a.next_free top_elem 0 }) fsa
          (record f {
            free_list = a.next_free top_elem;
            shared_free_list = 0;
            num_allocated = word_suc f.num_allocated;
          }),
      top_elem,
    )

-- The bump of the frontier of a chunk.
unfoldable pub bump : Arena → (fsa chunk : ℕ) → Arena × ℕ
bump a fsa chunk =
    let f = a.allocators fsa in
    let frontier = (a.store.chunks chunk).frontier in
    let store =
      update_chunk_frontier_in_list a.store (some f.buffer) chunk (frontier + f.fixed_size) in
    (
      set_fixed (record a { store = store }) fsa
          (record f { num_allocated = word_suc f.num_allocated }),
      frontier,
    )

-- The slow path: a new chunk, whose start gap names the allocator. `none` is the store through the
-- NULL that `HM_shiftChunkStart` may return.
unfoldable pub bump_new : (bogus block_size : ℕ) → Arena → ℕ → Allocation → Option (Arena × ℕ)
bump_new bogus block_size a fsa blocks =
    let f = a.allocators fsa in
    let store =
      allocate_chunk_with_purpose bogus block_size a.store f.buffer blocks (f.fixed_size + 8) in
    elim (shift_chunk_start store blocks.start 8) [
      | none ↦ none
      | some shifted ↦
          some (
            bump (record a { store = shifted.0; gap = update a.gap shifted.1 fsa }) fsa
              blocks.start)
    ]

-- `allocateFixedSize`; `blocks` is what the allocator of blocks returns if a chunk is needed.
unfoldable pub allocate_fixed_size :
    (bogus block_size : ℕ) → Arena → ℕ → Allocation → Option (Arena × ℕ)
allocate_fixed_size bogus block_size a fsa blocks =
    let f = a.allocators fsa in
    let chunk = (a.store.lists f.buffer).last_chunk in
    let full = chunk == 0 || ltb (get_chunk_size_past_frontier a.store chunk) f.fixed_size in
    let fresh = bump_new bogus block_size a fsa blocks in
    if f.free_list == 0
    then if f.shared_free_list == 0
      then if full then fresh else some (bump a fsa chunk)
      else some (take_shared a fsa)
    else some (take_free a fsa)

-- `HM_getChunkOf`
abbrev pub get_chunk_of : (block_size p : ℕ) → ℕ
get_chunk_of block_size p = align_down p block_size

-- The two ends of `freeFixedSize`.
unfoldable pub free_own : Arena → (fsa elem : ℕ) → Arena
free_own a fsa elem =
    let f = a.allocators fsa in
    set_fixed (record a { next_free = update a.next_free elem f.free_list }) fsa
      (record f { free_list = elem; num_local_freed = word_suc f.num_local_freed })

unfoldable pub free_shared : Arena → (fsa elem : ℕ) → Arena
free_shared a owner elem =
    let f = a.allocators owner in
    set_fixed (record a { next_free = update a.next_free elem f.shared_free_list }) owner
      (record f { shared_free_list = elem; num_shared_freed = word_suc f.num_shared_freed })

-- `freeFixedSize`: the start gap of a chunk follows the 88 bytes of the chunk's structure.
unfoldable pub free_fixed_size : (block_size : ℕ) → Arena → (my_fsa elem : ℕ) → Arena
free_fixed_size block_size a my_fsa elem =
    let owner = a.gap (get_chunk_of block_size elem + 88) in
    if my_fsa == owner then free_own a my_fsa elem else free_shared a owner elem

-- `numFixedSizeFreed`, `numFixedSizeCurrentlyInUse` and `currentFixedSizeCapacity`.
abbrev pub num_fixed_size_freed : FixedSizeAllocator → ℕ
num_fixed_size_freed f = (f.num_local_freed + f.num_shared_freed) % 2 ^ 64

abbrev pub num_fixed_size_currently_in_use : FixedSizeAllocator → ℕ
num_fixed_size_currently_in_use f =
    if ltb f.num_allocated (num_fixed_size_freed f)
    then 0
    else f.num_allocated - num_fixed_size_freed f

abbrev pub current_fixed_size_capacity : Arena → ℕ → ℕ
current_fixed_size_capacity a fsa =
    (a.store.lists (a.allocators fsa).buffer).size / (a.allocators fsa).fixed_size
