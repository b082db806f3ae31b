-- ===== src/Heaps/Completed.antt =====
-- `mergeCompletedCCs` and `HM_HH_promoteChunks` of runtime/gc/hierarchical-heap.c.
use mpl.Base.{
  ℕ, zero, suc, ◌+◌, ◌-◌, ◌%◌, ◌^◌, not, ◌&&◌, ◌||◌, Option, none, some, ◌==◌, ltb, if◌then◌else◌,
  ◌>>=◌,
}
use mpl.Chunks.Lists.{append_chunk_list}
use mpl.ConcLists.RemSets.{append_rem_set}
use mpl.Heaps.{
  World, done, is_done, set_heap, set_depth, with_store, free_stack, link_into, es_move,
  chunk_list_of, rem_set_of, suspects_of,
}
use mpl.Heaps.Links.{for_cc, completed_cc, set_next_cc, set_chain_depth, link_cc_chains}
use mpl.Heaps.Zip.{Thread, move_lists}

-- `depth - 1` on a `uint32_t`.
abbrev pub pred32 : ℕ → ℕ
pred32 depth = (depth + (2 ^ 32 - 1)) % 2 ^ 32

-- A subheap whose collection is done goes from behind the cursor to the front of the completed chain.
unfoldable pub complete_sub : World → (hh cursor sub : ℕ) → World
complete_sub w hh cursor sub =
    let passed = set_next_cc for_cc w cursor (w.heaps sub).sub_heap_for_cc in
    let cut = set_next_cc for_cc passed sub 0 in
    let placed = set_next_cc completed_cc cut sub (cut.heaps hh).sub_heap_completed_cc in
    set_next_cc completed_cc placed hh sub

-- The first loop of `mergeCompletedCCs`, where the cursor is the heap in which it points to
-- `subHeapForCC`; with the numbers of subheaps that are done and that are not.
unfoldable pub sort_subs :
    (fuel : ℕ) → World → (hh cursor num_merged num_in_progress : ℕ) → Option (World × ℕ × ℕ)
sort_subs zero w hh cursor num_merged num_in_progress =
    if (w.heaps cursor).sub_heap_for_cc == 0 then some (w, num_merged, num_in_progress) else none
sort_subs (suc fuel) w hh cursor num_merged num_in_progress =
    let sub = (w.heaps cursor).sub_heap_for_cc in
    let skipped = sort_subs fuel w hh sub num_merged (num_in_progress + 1) in
    let moved =
      sort_subs fuel (complete_sub w hh cursor sub) hh cursor (num_merged + 1) num_in_progress in
    if sub == 0
    then some (w, num_merged, num_in_progress)
    else if is_done (w.heaps sub).cc_state
    then moved
    else skipped

-- The body of the second loop.
unfoldable pub absorb : World → (hh completed : ℕ) → World
absorb w hh completed =
    let h = w.heaps hh in
    let counted = set_heap w hh (record h {
      bytes_survived = (h.bytes_survived + (w.heaps completed).bytes_survived) % 2 ^ 64;
    }) in
    let linked = link_into (free_stack counted completed) hh completed in
    let listed =
      with_store linked (
        append_chunk_list linked.shared.store (chunk_list_of hh)
          (some (chunk_list_of completed))) in
    record listed { shared = append_rem_set listed.shared (rem_set_of hh) (rem_set_of completed) }

-- The second loop.
unfoldable pub absorb_from : (fuel : ℕ) → World → (hh completed : ℕ) → Option World
absorb_from zero w hh completed = if completed == 0 then some w else none
absorb_from (suc fuel) w hh completed =
    let next = (w.heaps completed).sub_heap_completed_cc in
    let rest = absorb_from fuel (absorb w hh completed) hh next in
    if completed == 0 then some w else rest

-- `mergeCompletedCCs`
unfoldable pub merge_completed_ccs : (fuel : ℕ) → World → (hh : ℕ) → Option World
merge_completed_ccs fuel w hh = sort_subs fuel w hh hh 0 0 >>= (λ (v, _, _).
    let merged =
      absorb_from fuel v hh (v.heaps hh).sub_heap_completed_cc
      >>= (λ u. some (set_next_cc completed_cc u hh 0)) in
    if (v.heaps hh).sub_heap_for_cc == 0 && not ((v.heaps hh).sub_heap_completed_cc == 0)
    then merged
    else some v)

-- Where no heap is immediately above the leaf, it moves up.
unfoldable pub promote_alone : (fuel : ℕ) → World → (hh current_depth : ℕ) → Option World
promote_alone fuel w hh current_depth =
    set_chain_depth for_cc fuel (set_depth w hh (pred32 (w.heaps hh).depth)) hh
      (pred32 current_depth)
    >>= (λ v. set_chain_depth completed_cc fuel v hh (pred32 current_depth))

-- Where subheaps of the leaf are in progress, the parent joins its completed chain.
unfoldable pub promote_over : (fuel : ℕ) → World → (hh parent : ℕ) → Option World
promote_over fuel w hh parent =
    let next = (w.heaps parent).next_ancestor in
    link_cc_chains fuel w parent hh >>= (λ v.
      let above = set_heap v hh (record (v.heaps hh) { next_ancestor = next }) in
      let alone =
        set_heap above parent
          (record (above.heaps parent) { next_ancestor = 0; cc_state = done }) in
      let taken = set_heap alone hh (record (alone.heaps hh) {
        sub_heap_for_cc = (alone.heaps parent).sub_heap_for_cc;
        sub_heap_completed_cc = parent;
      }) in
      let left = set_next_cc for_cc taken parent 0 in
      let up = set_depth left hh (pred32 (left.heaps hh).depth) in
      some (es_move up (suspects_of hh) (suspects_of parent)))

-- Where none is in progress any more, the leaf is merged into the parent.
unfoldable pub promote_into : (fuel : ℕ) → World → (hh parent : ℕ) → Option World
promote_into fuel w hh parent =
    link_cc_chains fuel (free_stack w hh) parent hh
    >>= (λ v. some (move_lists (link_into v parent hh) parent hh))

-- `HM_HH_promoteChunks`
unfoldable pub promote_chunks : (fuel : ℕ) → World → Thread → Option (World × Thread)
promote_chunks fuel w thread =
    let hh = thread.hierarchical_heap in
    let parent = (w.heaps hh).next_ancestor in
    let depth = thread.current_depth in
    let merging = merge_completed_ccs fuel w hh >>= (λ v.
      let into =
        promote_into fuel v hh parent
        >>= (λ u. some (u, record thread { hierarchical_heap = parent })) in
      let over = promote_over fuel v hh parent >>= (λ u. some (u, thread)) in
      if (v.heaps hh).sub_heap_for_cc == 0 then into else over) in
    let alone = promote_alone fuel w hh depth >>= (λ v. some (v, thread)) in
    if ltb (w.heaps hh).depth depth
    then some (w, thread)
    else if parent == 0 || ltb (w.heaps parent).depth (pred32 depth)
    then alone
    else merging
