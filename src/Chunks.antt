-- ===== src/Chunks.antt =====
-- runtime/gc/chunk.c and chunk.h: chunks and the lists that hold them. A chunk is known by its
-- address, which is that of its first byte, and a list by the address of its structure.
pub mod Sizes
pub mod Append
pub mod Lists
pub mod Paths
pub mod Heads
mod Tests
use mpl.Base.{
  ℕ, zero, suc, ◌+◌, ◌-◌, ◌*◌, ◌/◌, ◌%◌, ◌^◌, Bool, true, false, ◌||◌, not, Option, none, some, ltb,
  leb, ◌==◌, if◌then◌else◌,
}
use mpl.Base.Chain.{update}
use mpl.Align.{align}

-- `CHUNK_MAGIC`, and the mark of a freed chunk.
abbrev pub chunk_magic : ℕ
chunk_magic = 3405707982

abbrev pub freed_magic : ℕ
freed_magic = 4207868638

-- `sizeof(struct HM_chunk)` where pointers have 64 bits.
abbrev pub sizeof_chunk : ℕ
sizeof_chunk = 88

-- `struct HM_chunk`
pub record HmChunk : Type 0 where
  pub level_head : ℕ
  pub frontier : ℕ
  pub limit : ℕ
  pub next_chunk : ℕ
  pub prev_chunk : ℕ
  pub start_gap : ℕ
  pub pinned_during_collection : Bool
  pub retire_chunk : Bool
  pub might_contain_multiple_objects : Bool
  pub tmp_heap : ℕ
  pub container : ℕ
  pub num_blocks : ℕ
  pub decheck_state : ℕ
  pub magic : ℕ

-- `struct HM_chunkList`
pub record ChunkList : Type 0 where
  pub first_chunk : ℕ
  pub last_chunk : ℕ
  pub used_size : ℕ
  pub size : ℕ

-- `struct HM_UnionFindNode`: what a chunk's level head leads through.
pub record UnionFindNode : Type 0 where
  pub representative : ℕ
  pub payload : ℕ
  pub dependant1 : ℕ
  pub dependant2 : ℕ

pub record Store : Type 0 where
  pub chunks : ℕ → HmChunk
  pub lists : ℕ → ChunkList
  pub nodes : ℕ → UnionFindNode

abbrev pub set_chunk : Store → ℕ → HmChunk → Store
set_chunk s c v = record s { chunks = update s.chunks c v }

abbrev pub set_list : Store → ℕ → ChunkList → Store
set_list s l v = record s { lists = update s.lists l v }

abbrev pub set_next_chunk : Store → ℕ → ℕ → Store
set_next_chunk s c v = set_chunk s c (record (s.chunks c) { next_chunk = v })

abbrev pub set_prev_chunk : Store → ℕ → ℕ → Store
set_prev_chunk s c v = set_chunk s c (record (s.chunks c) { prev_chunk = v })

-- The subtraction of two words.
abbrev pub word_sub : ℕ → ℕ → ℕ
word_sub a b = (a + 2 ^ 64 - b) % 2 ^ 64

abbrev pub get_chunk_start : Store → ℕ → ℕ
get_chunk_start s c = c + sizeof_chunk + (s.chunks c).start_gap

abbrev pub get_chunk_used_size : Store → ℕ → ℕ
get_chunk_used_size s c = word_sub (s.chunks c).frontier (get_chunk_start s c)

abbrev pub get_chunk_size : Store → ℕ → ℕ
get_chunk_size s c = word_sub (s.chunks c).limit c

abbrev pub get_chunk_size_past_frontier : Store → ℕ → ℕ
get_chunk_size_past_frontier s c = word_sub (s.chunks c).limit (s.chunks c).frontier

-- `list->size += …` and `list->usedSize += …`
abbrev pub add_sizes : Store → (list size used : ℕ) → Store
add_sizes s list size used =
    let l = s.lists list in
    set_list s list
      (record l { size = (l.size + size) % 2 ^ 64; used_size = (l.used_size + used) % 2 ^ 64 })

-- `HM_initChunkList`
abbrev pub init_chunk_list : Store → ℕ → Store
init_chunk_list s list =
    set_list s list record { first_chunk = 0; last_chunk = 0; used_size = 0; size = 0 }

-- `HM_prependChunk`
unfoldable pub prepend_chunk : Store → (list chunk : ℕ) → Store
prepend_chunk s list chunk =
    let first = (s.lists list).first_chunk in
    let linked = set_next_chunk s chunk first in
    let back = if first == 0 then linked else set_prev_chunk linked first chunk in
    let l = back.lists list in
    let last = if l.last_chunk == 0 then chunk else l.last_chunk in
    let placed = set_list back list (record l { first_chunk = chunk; last_chunk = last }) in
    add_sizes placed list (get_chunk_size placed chunk) (get_chunk_used_size placed chunk)

-- `HM_appendChunk`
unfoldable pub append_chunk : Store → (list chunk : ℕ) → Store
append_chunk s list chunk =
    let last = (s.lists list).last_chunk in
    let linked = set_prev_chunk s chunk last in
    let forth = if last == 0 then linked else set_next_chunk linked last chunk in
    let l = forth.lists list in
    let first = if l.first_chunk == 0 then chunk else l.first_chunk in
    let placed = set_list forth list (record l { first_chunk = first; last_chunk = chunk }) in
    add_sizes placed list (get_chunk_size placed chunk) (get_chunk_used_size placed chunk)

-- The first two statements of `unlinkChunk_`.
unfoldable pub unlink_chunk_before : Store → (list chunk : ℕ) → Store
unlink_chunk_before s list chunk =
    let c = s.chunks chunk in
    if c.prev_chunk == 0
    then set_list s list (record (s.lists list) { first_chunk = c.next_chunk })
    else set_next_chunk s c.prev_chunk c.next_chunk

unfoldable pub unlink_chunk_after : Store → (list chunk : ℕ) → Store
unlink_chunk_after s list chunk =
    let c = s.chunks chunk in
    if c.next_chunk == 0
    then set_list s list (record (s.lists list) { last_chunk = c.prev_chunk })
    else set_prev_chunk s c.next_chunk c.prev_chunk

-- `unlinkChunk_`, which HM_unlinkChunk calls with false and HM_unlinkChunkPreserveLevelHead with
-- true.
unfoldable pub unlink_chunk : Bool → Store → (list chunk : ℕ) → Store
unlink_chunk preserve_level_head s list chunk =
    let t = unlink_chunk_after (unlink_chunk_before s list chunk) list chunk in
    let l = t.lists list in
    let sized = set_list t list (record l {
      size = word_sub l.size (get_chunk_size t chunk);
      used_size = word_sub l.used_size (get_chunk_used_size t chunk);
    }) in
    let c = sized.chunks chunk in
    let head = if preserve_level_head then c.level_head else 0 in
    set_chunk sized chunk (record c { level_head = head; prev_chunk = 0; next_chunk = 0 })

-- `HM_initializeChunk`; `bogus` is DECHECK_BOGUS_TID.
unfoldable pub initialize_chunk : ℕ → Store → (start end : ℕ) → Store
initialize_chunk bogus s start end =
    let c = s.chunks start in
    set_chunk s start record {
      level_head = 0;
      frontier = start + sizeof_chunk;
      limit = end;
      next_chunk = 0;
      prev_chunk = 0;
      start_gap = 0;
      pinned_during_collection = false;
      retire_chunk = false;
      might_contain_multiple_objects = true;
      tmp_heap = 0;
      container = c.container;
      num_blocks = c.num_blocks;
      decheck_state = bogus;
      magic = chunk_magic;
    }

-- `HM_updateChunkFrontierInList`; `none` is a NULL list, with which HM_updateChunkFrontier calls it.
unfoldable pub update_chunk_frontier_in_list : Store → Option ℕ → (chunk new_frontier : ℕ) → Store
update_chunk_frontier_in_list s none chunk new_frontier =
    set_chunk s chunk (record (s.chunks chunk) { frontier = new_frontier })
update_chunk_frontier_in_list s (some list) chunk new_frontier =
    let old_frontier = (s.chunks chunk).frontier in
    let t = set_chunk s chunk (record (s.chunks chunk) { frontier = new_frontier }) in
    let l = t.lists list in
    let used =
      if leb old_frontier new_frontier
      then (l.used_size + (new_frontier - old_frontier)) % 2 ^ 64
      else word_sub l.used_size (old_frontier - new_frontier) in
    set_list t list (record l { used_size = used })

-- `HM_shiftChunkStart`; `none` is NULL.
unfoldable pub shift_chunk_start : Store → (chunk bytes : ℕ) → Option (Store × ℕ)
shift_chunk_start s chunk bytes =
    let old_start = get_chunk_start s chunk in
    let aligned = align bytes 8 in
    let c = s.chunks chunk in
    let gap = (c.start_gap + aligned) % 2 ^ 8 in
    if not (c.frontier == old_start)
    then none
    else if ltb 255 aligned || ltb 255 (aligned + c.start_gap)
    then none
    else some (
      set_chunk s chunk (record c { start_gap = gap; frontier = chunk + sizeof_chunk + gap }),
      old_start,
    )

-- `HM_getChunkStartGap`
abbrev pub get_chunk_start_gap : Store → ℕ → ℕ
get_chunk_start_gap s chunk = if (s.chunks chunk).start_gap == 0 then 0 else chunk + sizeof_chunk
