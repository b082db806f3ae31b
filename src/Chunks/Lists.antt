-- ===== src/Chunks/Lists.antt =====
-- `HM_appendChunkList`, `HM_storeInChunkListWithPurpose`, the allocation and the search of chunks of
-- runtime/gc/chunk.c.
use mpl.Base.{
  ℕ, zero, suc, ◌+◌, ◌/◌, ◌%◌, ◌^◌, Bool, true, false, ◌||◌, Option, none, some, List, [], ◌∷◌, ltb,
  ◌==◌, if◌then◌else◌,
}
use mpl.Align.{align}
use mpl.Chunks.{
  Store, init_chunk_list, set_chunk, set_list, set_next_chunk, set_prev_chunk, append_chunk,
  initialize_chunk, sizeof_chunk, get_chunk_size_past_frontier, update_chunk_frontier_in_list,
  freed_magic,
}

-- `none` is a NULL second list.
unfoldable pub append_chunk_list : Store → ℕ → Option ℕ → Store
append_chunk_list s list1 none = s
append_chunk_list s list1 (some list2) =
    let l1 = s.lists list1 in
    let l2 = s.lists list2 in
    let joined =
      if l1.last_chunk == 0
      then set_list s list1 (record l1 { first_chunk = l2.first_chunk })
      else set_next_chunk s l1.last_chunk l2.first_chunk in
    let k1 = joined.lists list1 in
    let ended =
      if l2.first_chunk == 0
      then joined
      else set_list (set_prev_chunk joined l2.first_chunk k1.last_chunk) list1
          (record k1 { last_chunk = l2.last_chunk }) in
    let j1 = ended.lists list1 in
    set_list ended list1 (record j1 {
      size = (j1.size + l2.size) % 2 ^ 64;
      used_size = (j1.used_size + l2.used_size) % 2 ^ 64;
    })

-- What `allocateBlocksWithPurpose` returns: the start of the blocks, their container and number.
pub record Allocation : Type 0 where
  pub start : ℕ
  pub container : ℕ
  pub num_blocks : ℕ

-- The number of blocks that `HM_getFreeChunkWithPurpose` asks for.
abbrev pub blocks_wanted : (block_size bytes_requested : ℕ) → ℕ
blocks_wanted block_size bytes_requested =
    align (bytes_requested + sizeof_chunk) block_size / block_size

-- `HM_getFreeChunkWithPurpose`, with what its call of the allocator returned.
unfoldable pub get_free_chunk_with_purpose :
    (bogus block_size : ℕ) → Store → Allocation → (bytes_requested : ℕ) → Store
get_free_chunk_with_purpose bogus block_size s blocks bytes_requested =
    let width = align (bytes_requested + sizeof_chunk) block_size in
    let t = initialize_chunk bogus s blocks.start (blocks.start + width) in
    set_chunk t blocks.start (record (t.chunks blocks.start) {
      container = blocks.container;
      num_blocks = blocks.num_blocks;
    })

-- `HM_allocateChunkWithPurpose`, apart from its statistics.
unfoldable pub allocate_chunk_with_purpose :
    (bogus block_size : ℕ) → Store → (list : ℕ) → Allocation → (bytes_requested : ℕ) → Store
allocate_chunk_with_purpose bogus block_size s list blocks bytes_requested =
    append_chunk (get_free_chunk_with_purpose bogus block_size s blocks bytes_requested) list
      blocks.start

-- `HM_storeInChunkListWithPurpose`: the place where the object is copied to. `blocks` is what the
-- allocator returns if a chunk is needed.
unfoldable pub store_in_chunk_list :
    (bogus block_size : ℕ) → Store → (list : ℕ) → Allocation → (obj_size : ℕ) → Store × ℕ
store_in_chunk_list bogus block_size s list blocks obj_size =
    let last = (s.lists list).last_chunk in
    let full = last == 0 || ltb (get_chunk_size_past_frontier s last) obj_size in
    let t =
      if full then allocate_chunk_with_purpose bogus block_size s list blocks obj_size else s in
    let chunk = if full then blocks.start else last in
    let frontier = (t.chunks chunk).frontier in
    (update_chunk_frontier_in_list t (some list) chunk (frontier + obj_size), frontier)

-- What `HM_freeChunkWithInfo` hands to `freeBlocks`, and the disrupted chunk.
unfoldable pub free_chunk_with_info : Store → ℕ → Store × Allocation
free_chunk_with_info s chunk =
    let c = s.chunks chunk in
    (
      set_chunk s chunk (record c { magic = freed_magic }),
      record { start = chunk; container = c.container; num_blocks = c.num_blocks },
    )

-- `listContainsChunk` from a chunk on. `none` is a loop that ran out of fuel.
unfoldable pub list_contains_from : ℕ → Store → (chunk wanted : ℕ) → Option Bool
list_contains_from zero s chunk wanted = if chunk == 0 then some false else none
list_contains_from (suc fuel) s chunk wanted =
    let rest = list_contains_from fuel s (s.chunks chunk).next_chunk wanted in
    if chunk == 0 then some false else if chunk == wanted then some true else rest

unfoldable pub list_contains_chunk : ℕ → Store → (list wanted : ℕ) → Option Bool
list_contains_chunk fuel s list wanted = list_contains_from fuel s (s.lists list).first_chunk wanted

-- The loop of `HM_freeChunksInListWithInfo`, with what it hands to `freeBlocks`. `none` is a loop that
-- ran out of fuel.
pub free_chunks_from : ℕ → Store → (chunk : ℕ) → Option (Store × List Allocation)
free_chunks_from zero s chunk = if chunk == 0 then some (s, []) else none
free_chunks_from (suc fuel) s chunk =
    let (freed, blocks) = free_chunk_with_info s chunk in
    let rest = free_chunks_from fuel freed (s.chunks chunk).next_chunk in
    if chunk == 0
    then some (s, [])
    else elim rest [ none ↦ none | some (t, others) ↦ some (t, blocks ∷ others) ]

-- `HM_freeChunksInListWithInfo`
pub free_chunks_in_list : ℕ → Store → (list : ℕ) → Option (Store × List Allocation)
free_chunks_in_list fuel s list = elim (free_chunks_from fuel s (s.lists list).first_chunk) [
  | none ↦ none
  | some (t, freed) ↦ some (init_chunk_list t list, freed)
]
