-- ===== src/ConcLists.antt =====
-- runtime/gc/concurrent-list.c: lists of chunks that several processors append to. A section under the
-- mutex of a list is one step; what other processors do between the steps is an argument.
mod Tests
pub mod Storing
pub mod RemSets
pub mod Ends
pub mod Calls
use mpl.Base.{
  ℕ, zero, suc, ◌+◌, ◌%◌, ◌^◌, Bool, true, false, ◌||◌, Option, none, some, List, [], ◌∷◌, ◌==◌,
  ltb, if◌then◌else◌, ◌>>=◌, leb, ◌&&◌, ◌-◌,
}
use mpl.Base.Chain.{update}
use mpl.Chunks.{
  Store, set_chunk, set_list, set_next_chunk, set_prev_chunk, get_chunk_size_past_frontier,
  get_chunk_start,
}
use mpl.Chunks.Lists.{
  Allocation, get_free_chunk_with_purpose, free_chunk_with_info, free_chunks_in_list,
}

-- `struct CC_concList`, without its mutex.
pub record ConcList : Type 0 where
  pub first_chunk : ℕ
  pub last_chunk : ℕ

-- The chunks, the lists of chunks and the concurrent lists, by the addresses of their structures, and
-- the bytes in the chunks, by their addresses.
pub record Shared : Type 0 where
  pub store : Store
  pub conc : ℕ → ConcList
  pub bytes : ℕ → ℕ

abbrev pub set_conc : Shared → ℕ → ConcList → Shared
set_conc c l v = record c { conc = update c.conc l v }

abbrev pub with_store : Shared → Store → Shared
with_store c s = record c { store = s }

-- `CC_initConcList`
abbrev pub init_conc_list : Shared → ℕ → Shared
init_conc_list c l = set_conc c l record { first_chunk = 0; last_chunk = 0 }

-- The section of `allocateChunkInConcList` under the mutex, and whether it succeeds.
unfoldable pub install_chunk : Shared → (l chunk last_chunk : ℕ) → Shared × Bool
install_chunk c l chunk last_chunk =
    let list = c.conc l in
    let first = if list.first_chunk == 0 then chunk else list.first_chunk in
    let linked = if last_chunk == 0 then c.store else set_next_chunk c.store last_chunk chunk in
    let placed =
      set_conc (with_store c linked) l record { first_chunk = first; last_chunk = chunk } in
    if list.last_chunk == last_chunk then (placed, true) else (c, false)

-- The bytes from `from` up to `to` become those of `source`.
abbrev pub set_bytes : (bytes : ℕ → ℕ) → (from to : ℕ) → (source : ℕ → ℕ) → ℕ → ℕ
set_bytes bytes from to source a = if leb from a && ltb a to then source (a - from) else bytes a

-- What other processors do in a round of the loop that stores: before the list or the frontier of its
-- last chunk is looked at again, before the second look, and before the mutex is taken.
pub record Others : Type 0 where
  pub before_check : Shared → Shared
  pub before_recheck : Shared → Shared
  pub before_lock : Shared → Shared

abbrev pub nobody : Others
nobody = record { before_check = λ c. c; before_recheck = λ c. c; before_lock = λ c. c }

-- The second look at the last chunk, and the section under the mutex.
unfoldable pub install_if_last : Others → Shared → (l chunk last_chunk : ℕ) → Shared × Bool
install_if_last others c l chunk last_chunk =
    let seen = others.before_recheck c in
    if (seen.conc l).last_chunk == last_chunk
    then install_chunk (others.before_lock seen) l chunk last_chunk
    else (seen, false)

-- The part of `allocateChunkInConcList` after the first look at the last chunk.
unfoldable pub allocate_and_install :
    (bogus block_size : ℕ)
    → Others
    → Shared
    → (l : ℕ) → Allocation
    → (obj_size last_chunk : ℕ) → Shared
allocate_and_install bogus block_size others c l blocks obj_size last_chunk =
    let free = get_free_chunk_with_purpose bogus block_size c.store blocks obj_size in
    let made = with_store c (set_prev_chunk free blocks.start last_chunk) in
    let zeroed = record made {
      bytes =
          set_bytes made.bytes (get_chunk_start made.store blocks.start)
            (made.store.chunks blocks.start).limit (λ _. 0);
    } in
    let (d, success) = install_if_last others zeroed l blocks.start last_chunk in
    if success then d else with_store d (free_chunk_with_info d.store blocks.start).0

-- `allocateChunkInConcList`, with the blocks that it leaves; `none` is the end by DIE.
unfoldable pub allocate_chunk_in_conc_list :
    (bogus block_size : ℕ)
    → Others
    → Shared
    → (l : ℕ) → List Allocation
    → (obj_size last_chunk : ℕ) → Option (Shared × List Allocation)
allocate_chunk_in_conc_list bogus block_size others c l blocks obj_size last_chunk =
    let seen = others.before_check c in
    if (seen.conc l).last_chunk == last_chunk
    then elim blocks [
      | [] ↦ none
      | b ∷ bs ↦
          some (allocate_and_install bogus block_size others seen l b obj_size last_chunk, bs)
    ]
    else some (seen, blocks)

-- `CC_popAsChunkList`: of the list of chunks only the two ends are written.
unfoldable pub pop_as_chunk_list : Shared → (l list : ℕ) → Shared
pop_as_chunk_list c l list =
    let ends = c.conc l in
    let popped = set_list c.store list (record (c.store.lists list) {
      first_chunk = ends.first_chunk;
      last_chunk = ends.last_chunk;
    }) in
    init_conc_list (with_store c popped) l

-- `CC_getLastChunk`
abbrev pub get_last_chunk : Shared → (l : ℕ) → ℕ
get_last_chunk c l = (c.conc l).last_chunk

-- The section of `CC_appendConcList` under the mutex of the first list.
unfoldable pub append_chunks : Shared → (l1 first_chunk last_chunk : ℕ) → Shared
append_chunks c l1 first_chunk last_chunk =
    let list = c.conc l1 in
    let last = list.last_chunk in
    let linked = set_next_chunk c.store last first_chunk in
    let retired = set_chunk linked last (record (linked.chunks last) { retire_chunk = true }) in
    let back = set_prev_chunk retired first_chunk last in
    if last == 0
    then set_conc c l1 record { first_chunk = first_chunk; last_chunk = last_chunk }
    else set_conc (with_store c back) l1 (record list { last_chunk = last_chunk })

-- `CC_appendConcList`
unfoldable pub append_conc_list : Shared → (l1 l2 : ℕ) → Shared
append_conc_list c l1 l2 =
    let taken = c.conc l2 in
    let emptied = init_conc_list c l2 in
    if taken.first_chunk == 0 || taken.last_chunk == 0
    then emptied
    else append_chunks emptied l1 taken.first_chunk taken.last_chunk

-- `CC_freeChunksInConcListWithInfo`, where `list` is the place of its local list.
unfoldable pub free_chunks_in_conc_list :
    (fuel : ℕ) → Shared → (l list : ℕ) → Option (Shared × List Allocation)
free_chunks_in_conc_list fuel c l list =
    let popped = pop_as_chunk_list c l list in
    elim (free_chunks_in_list fuel popped.store list) [
      | none ↦ none
      | some (t, freed) ↦ some (with_store popped t, freed)
    ]
