-- ===== src/Heaps/Levels.antt =====
-- The heaps of a thread by their depths, and where new ones are made: `HM_HH_getHeapAtDepth`,
-- `HM_HH_extend`, `splitHeapForCC` and what reads the current chunk, of
-- runtime/gc/hierarchical-heap.c.
use mpl.Base.{
  ℕ, zero, suc, ◌+◌, ◌%◌, ◌^◌, Bool, true, false, not, ◌&&◌, Option, none, some, ◌==◌, ltb,
  if◌then◌else◌, ◌>>=◌,
}
use mpl.Chunks.{set_chunk, get_chunk_size}
use mpl.Chunks.Lists.{Allocation, allocate_chunk_with_purpose}
use mpl.Chunks.{update_chunk_frontier_in_list}
use mpl.Chunks.Heads.{get_level_head_path_compress}
use mpl.Heaps.{
  World, done, set_heap, set_next_ancestor, with_store, new_heap, es_move, chunk_list_of,
  suspects_of,
}
use mpl.Heaps.Zip.{Thread, write_cursor}

-- The loop of `HM_HH_getHeapAtDepth`: where the cursor stops, and the heap there. A cursor `none` is at
-- the thread.
unfoldable pub walk_up :
    (fuel : ℕ) → World → (cursor : Option ℕ) → (hh depth : ℕ) → Option (Option ℕ × ℕ)
walk_up zero w cursor hh depth =
    if not (hh == 0) && ltb depth (w.heaps hh).depth then none else some (cursor, hh)
walk_up (suc fuel) w cursor hh depth =
    let rest = walk_up fuel w (some hh) (w.heaps hh).next_ancestor depth in
    if not (hh == 0) && ltb depth (w.heaps hh).depth then rest else some (cursor, hh)

-- A new heap at the cursor, above the heap `hh`.
unfoldable pub insert_heap :
    (bogus : ℕ) → World → Thread → (cursor : Option ℕ) → (hh uf fresh depth : ℕ) → World × Thread
insert_heap bogus w thread cursor hh uf fresh depth =
    let made = set_next_ancestor (new_heap bogus w uf fresh depth) fresh hh in
    let (v, top) = write_cursor made cursor fresh thread.hierarchical_heap in
    (v, record thread { hierarchical_heap = top })

-- `HM_HH_getHeapAtDepth`, where the allocators return `uf` and `fresh` if they are called.
unfoldable pub get_heap_at_depth :
    (bogus fuel : ℕ) → World → Thread → (uf fresh depth : ℕ) → Option (World × Thread × ℕ)
get_heap_at_depth bogus fuel w thread uf fresh depth =
    walk_up fuel w none thread.hierarchical_heap depth >>= (λ (cursor, hh).
      let (v, t) = insert_heap bogus w thread cursor hh uf fresh depth in
      if not (hh == 0) && (w.heaps hh).depth == depth
      then some (w, thread, hh)
      else some (v, t, fresh))

-- `HM_HH_addRecentBytesAllocated`
unfoldable pub add_recent_bytes_allocated : Thread → (bytes : ℕ) → Thread
add_recent_bytes_allocated thread bytes = record thread {
  bytes_allocated_since_last = (thread.bytes_allocated_since_last + bytes) % 2 ^ 64;
}

-- The chunk of `blocks` is allocated in a heap and stands for its node, with the state of the thread
-- that `decheckState` is set to.
unfoldable pub allocate_in :
    (bogus_tid block_size : ℕ)
    → World
    → (hh decheck : ℕ) → Allocation
    → (bytes_requested : ℕ) → World
allocate_in bogus_tid block_size w hh decheck blocks bytes_requested =
    let s =
      allocate_chunk_with_purpose bogus_tid block_size w.shared.store (chunk_list_of hh) blocks
        bytes_requested in
    with_store w (
      set_chunk s blocks.start (record (s.chunks blocks.start) {
        decheck_state = decheck;
        level_head = (w.heaps hh).uf_node;
      }))

-- `HM_HH_extend` in a runtime built with DETECT_ENTANGLEMENT; `none` for `blocks` is the NULL of the
-- allocator. Whether it succeeded.
unfoldable pub extend :
    (bogus bogus_tid block_size : ℕ)
    → World
    → Thread
    → (uf fresh : ℕ) → Option Allocation
    → (bytes_requested : ℕ) → World × Thread × Bool
extend bogus bogus_tid block_size w thread uf fresh blocks bytes_requested =
    let top = thread.hierarchical_heap in
    let (v, t) =
      if ltb (w.heaps top).depth thread.current_depth
      then insert_heap bogus w thread none top uf fresh thread.current_depth
      else (w, thread) in
    elim blocks [
      | none ↦ (v, t, false)
      | some b ↦
          let u =
            allocate_in bogus_tid block_size v t.hierarchical_heap t.decheck_state b
              bytes_requested in
          (
            u,
            add_recent_bytes_allocated (record t { current_chunk = b.start })
                (get_chunk_size u.shared.store b.start),
            true,
          )
    ]

-- `HM_HH_ensureNotEmpty`; `none` is the end by DIE.
unfoldable pub ensure_not_empty :
    (bogus bogus_tid block_size slop : ℕ)
    → World
    → Thread
    → (uf fresh : ℕ) → Option Allocation
    → Option (World × Thread)
ensure_not_empty bogus bogus_tid block_size slop w thread uf fresh blocks =
    let (v, t, ok) = extend bogus bogus_tid block_size w thread uf fresh blocks slop in
    if thread.current_chunk == 0 then if ok then some (v, t) else none else some (w, thread)

-- The places that the allocators return for a heap.
pub record Places : Type 0 where
  pub uf : ℕ
  pub heap : ℕ

-- `splitHeapForCC`
unfoldable pub split_heap_for_cc :
    (bogus bogus_tid block_size slop : ℕ)
    → World
    → Thread
    → (for_completed for_new : Places) → Allocation
    → World × Thread
split_heap_for_cc bogus bogus_tid block_size slop w thread for_completed for_new blocks =
    let hh = thread.hierarchical_heap in
    let made = new_heap bogus w for_completed.uf for_completed.heap (w.heaps hh).depth in
    let marked =
      set_heap made for_completed.heap
        (record (made.heaps for_completed.heap) { cc_state = done }) in
    let held =
      set_heap marked hh
        (record (marked.heaps hh) { sub_heap_completed_cc = for_completed.heap }) in
    let v = if (w.heaps hh).sub_heap_completed_cc == 0 then held else w in
    let fresh = for_new.heap in
    let with_new = new_heap bogus v for_new.uf fresh (v.heaps hh).depth in
    let filled = allocate_in bogus_tid block_size with_new fresh thread.decheck_state blocks slop in
    let linked = set_heap filled fresh (record (filled.heaps fresh) {
      sub_heap_for_cc = hh;
      sub_heap_completed_cc = (v.heaps hh).sub_heap_completed_cc;
      next_ancestor = (filled.heaps hh).next_ancestor;
    }) in
    let parted = set_next_ancestor linked hh 0 in
    (
      es_move parted (suspects_of fresh) (suspects_of hh),
      record thread { hierarchical_heap = fresh; current_chunk = blocks.start },
    )

-- `HM_HH_getFrontier` and `HM_HH_getLimit`
unfoldable pub get_frontier : World → Thread → ℕ
get_frontier w thread = (w.shared.store.chunks thread.current_chunk).frontier

unfoldable pub get_limit : World → Thread → ℕ
get_limit w thread = (w.shared.store.chunks thread.current_chunk).limit

-- `HM_HH_updateValues`
unfoldable pub update_values : (fuel : ℕ) → World → Thread → (frontier : ℕ) → Option World
update_values fuel w thread frontier =
    get_level_head_path_compress fuel w.shared.store thread.current_chunk >>= (λ (s, hh). some (
      with_store w
        (update_chunk_frontier_in_list s (some (chunk_list_of hh)) thread.current_chunk frontier)))
