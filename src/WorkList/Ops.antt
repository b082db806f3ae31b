-- ===== src/WorkList/Ops.antt =====
-- The operations of runtime/gc/cc-work-list.c on the chunks of a work list.
use mpl.Base.{
  ℕ, ◌+◌, ◌-◌, Bool, false, ◌&&◌, ◌||◌, Option, none, some, List, ◌==◌, ltb, leb, if◌then◌else◌,
}
use mpl.Base.Chain.{update}
use mpl.Objects.{Words, ObjectType, get_header, split_header}
use mpl.Chunks.{
  Store, init_chunk_list, update_chunk_frontier_in_list, unlink_chunk, get_chunk_start,
  get_chunk_size_past_frontier,
}
use mpl.Chunks.Lists.{
  Allocation, allocate_chunk_with_purpose, free_chunk_with_info, free_chunks_in_list,
}
use mpl.WorkList.{WorkList, Elem, FrameInfo, elem_size, make_initial_elem_of, advance_one_field}

-- `CC_workList_init`; `list` is the address of `storage` and `blocks` what the allocator returns.
pub init_work_list : (bogus block_size : ℕ) → WorkList → (list : ℕ) → Allocation → WorkList
init_work_list bogus block_size w list blocks =
    let store =
      allocate_chunk_with_purpose bogus block_size (init_chunk_list w.store list) list blocks
        elem_size in
    record w { store = store; current_chunk = blocks.start }

-- `CC_workList_free`, with what it hands to the allocator.
pub free : (fuel : ℕ) → WorkList → (list : ℕ) → Option (WorkList × List Allocation)
free fuel w list = elim (free_chunks_in_list fuel w.store list) [
  | none ↦ none
  | some (store, freed) ↦ some (record w { store = store; current_chunk = 0 }, freed)
]

-- `CC_workList_isEmpty`
pub is_empty : WorkList → (list : ℕ) → Bool
is_empty w list =
    let l = w.store.lists list in
    let curr = w.current_chunk in
    let c = w.store.chunks curr in
    let next = c.next_chunk in
    (l.first_chunk == curr)
    && ((l.last_chunk == curr) || (l.last_chunk == next))
    && (c.frontier == get_chunk_start w.store curr)
    && ((next == 0) || ((w.store.chunks next).frontier == get_chunk_start w.store next))

-- The chunk that `CC_workList_push` writes to, and the store with it.
unfoldable pub push_chunk : (bogus block_size : ℕ) → WorkList → (list : ℕ) → Allocation → Store × ℕ
push_chunk bogus block_size w list blocks =
    let chunk = w.current_chunk in
    let next = (w.store.chunks chunk).next_chunk in
    if ltb (get_chunk_size_past_frontier w.store chunk) elem_size
    then if next == 0
      then (
        allocate_chunk_with_purpose bogus block_size w.store list blocks elem_size,
        blocks.start,
      )
      else (w.store, next)
    else (w.store, chunk)

-- `CC_workList_push` for an element that is made; `blocks` is what the allocator returns if a chunk is
-- needed.
unfoldable pub push_elem :
    (bogus block_size : ℕ) → WorkList → (list : ℕ) → Allocation → Elem → WorkList
push_elem bogus block_size w list blocks elem =
    let (store, chunk) = push_chunk bogus block_size w list blocks in
    let frontier = (store.chunks chunk).frontier in
    record {
      store = update_chunk_frontier_in_list store (some list) chunk (frontier + elem_size);
      elems = update w.elems frontier elem;
      current_chunk = chunk;
    }

-- The start of `CC_workList_pop`: the current chunk, and the chunk that is given back to the allocator
-- if one is. `none` is an empty work list.
unfoldable pub pop_chunk : WorkList → (list : ℕ) → Option (WorkList × Option Allocation)
pop_chunk w list =
    let chunk = w.current_chunk in
    let c = w.store.chunks chunk in
    let next = c.next_chunk in
    let unlinked = unlink_chunk false w.store list next in
    let (freed_store, freed) = free_chunk_with_info unlinked next in
    if leb c.frontier (get_chunk_start w.store chunk)
    then if c.prev_chunk == 0
      then none
      else if next == 0
      then some (record w { current_chunk = c.prev_chunk }, none)
      else some (record w { store = freed_store; current_chunk = c.prev_chunk }, some freed)
    else some (w, none)

-- What `CC_workList_pop` returns: a field, or NULL for an empty list, or it dies.
pub data Popped : Type 0 where
  died : Popped
  empty : Popped
  popped : WorkList → (field : ℕ) → Option Allocation → Popped

module _ (frame_info : (frame_top : ℕ) → FrameInfo) (fuel : ℕ)
    (object_types : List ObjectType) where
  -- `makeInitialElem`
  pub make_initial_elem : Words → (op : ℕ) → Option (Option Elem)
  make_initial_elem m op = elim (split_header object_types (get_header m op)) [
    | none ↦ none
    | some t ↦ make_initial_elem_of frame_info fuel m op t
  ]

  -- `CC_workList_push`
  pub push :
      (bogus block_size : ℕ)
      → Words
      → WorkList
      → (list : ℕ) → Allocation
      → (op : ℕ) → Option WorkList
  push bogus block_size m w list blocks op = elim (make_initial_elem m op) [
    | none ↦ none
    | some none ↦ some w
    | some (some elem) ↦ some (push_elem bogus block_size w list blocks elem)
  ]

  -- The end of `CC_workList_pop`, on a chunk that is not empty.
  unfoldable pub pop_elem : Words → WorkList → (list : ℕ) → Option (WorkList × ℕ)
  pop_elem m w list =
      let chunk = w.current_chunk in
      let elem_ptr = (w.store.chunks chunk).frontier - elem_size in
      elim (advance_one_field frame_info fuel object_types m (w.elems elem_ptr)) [
        | none ↦ none
        | some r ↦
            let elems = update w.elems elem_ptr r.elem in
            if r.object_done
            then some (
              record w {
                elems = elems;
                store = update_chunk_frontier_in_list w.store (some list) chunk elem_ptr;
              },
              r.field,
            )
            else some (record w { elems = elems }, r.field)
      ]

  -- `CC_workList_pop`
  unfoldable pub pop : Words → WorkList → (list : ℕ) → Popped
  pop m w list = elim (pop_chunk w list) [
    | none ↦ empty
    | some (v, freed) ↦ elim (pop_elem m v list) [
      | none ↦ died
      | some (u, field) ↦ popped u field freed
    ]
  ]
