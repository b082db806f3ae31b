-- ===== src/Heaps/Zip.antt =====
-- `HM_HH_zip` and `HM_HH_merge` of runtime/gc/hierarchical-heap.c: the paths of two threads are merged
-- at a join.
use mpl.Base.{
  ℕ, zero, suc, ◌+◌, ◌%◌, ◌^◌, Option, none, some, ◌||◌, ◌==◌, ltb, if◌then◌else◌, ◌>>=◌,
}
use mpl.Chunks.Lists.{append_chunk_list}
use mpl.ConcLists.RemSets.{append_rem_set}
use mpl.Heaps.{
  World, with_store, set_next_ancestor, free_stack, link_into, es_move, chunk_list_of, rem_set_of,
  suspects_of,
}
use mpl.Heaps.Links.{link_cc_chains}

-- The lists of the heap `hh2` are moved into those of `hh1`.
unfoldable pub move_lists : World → (hh1 hh2 : ℕ) → World
move_lists w hh1 hh2 =
    let listed =
      with_store w
        (append_chunk_list w.shared.store (chunk_list_of hh1) (some (chunk_list_of hh2))) in
    let moved = es_move listed (suspects_of hh1) (suspects_of hh2) in
    record moved { shared = append_rem_set moved.shared (rem_set_of hh1) (rem_set_of hh2) }

-- The part of the loop for two heaps of the same depth.
unfoldable pub zip_level : (fuel : ℕ) → World → (hh1 hh2 : ℕ) → Option World
zip_level fuel w hh1 hh2 =
    link_cc_chains fuel (free_stack w hh2) hh1 hh2
    >>= (λ v. some (move_lists (link_into v hh1 hh2) hh1 hh2))

-- `*cursor = hh`, where the cursor is at the result, or in a heap at `nextAncestor`.
unfoldable pub write_cursor : World → (cursor : Option ℕ) → (hh result : ℕ) → World × ℕ
write_cursor w none hh result = (w, hh)
write_cursor w (some at) hh result = (set_next_ancestor w at hh, result)

-- The two lines after the loop.
unfoldable pub zip_end : World → (hh1 hh2 : ℕ) → (cursor : Option ℕ) → (result : ℕ) → World × ℕ
zip_end w hh1 hh2 cursor result =
    let (v, found) = if hh1 == 0 then (w, result) else write_cursor w cursor hh1 result in
    if hh2 == 0 then (v, found) else write_cursor v cursor hh2 found

-- The loop. `loops` is the fuel of the loops within a round.
unfoldable pub zip_from :
    (loops fuel : ℕ)
    → World
    → (hh1 hh2 : ℕ) → (cursor : Option ℕ) → (result : ℕ) → Option (World × ℕ)
zip_from loops zero w hh1 hh2 cursor result =
    if hh1 == 0 || hh2 == 0 then some (zip_end w hh1 hh2 cursor result) else none
zip_from loops (suc fuel) w hh1 hh2 cursor result =
    let depth1 = (w.heaps hh1).depth in
    let depth2 = (w.heaps hh2).depth in
    let both = zip_level loops w hh1 hh2 >>= (λ v.
      let (u, r) = write_cursor v cursor hh1 result in
      zip_from loops fuel u (u.heaps hh1).next_ancestor (w.heaps hh2).next_ancestor (some hh1) r) in
    let first =
      let (u, r) = write_cursor w cursor hh1 result in
      zip_from loops fuel u (u.heaps hh1).next_ancestor hh2 (some hh1) r in
    let second =
      let (u, r) = write_cursor w cursor hh2 result in
      zip_from loops fuel u hh1 (u.heaps hh2).next_ancestor (some hh2) r in
    if hh1 == 0 || hh2 == 0
    then some (zip_end w hh1 hh2 cursor result)
    else if depth1 == depth2
    then both
    else if ltb depth2 depth1
    then first
    else second

-- `HM_HH_zip`, with the deepest heap that it returns.
unfoldable pub zip : (loops fuel : ℕ) → World → (hh1 hh2 : ℕ) → Option (World × ℕ)
zip loops fuel w hh1 hh2 = zip_from loops fuel w hh1 hh2 none 0

-- What the operations read and write of `struct GC_thread`.
pub record Thread : Type 0 where
  pub hierarchical_heap : ℕ
  pub current_depth : ℕ
  pub current_chunk : ℕ
  pub decheck_state : ℕ
  pub spare_heartbeat_tokens : ℕ
  pub bytes_survived_last : ℕ
  pub bytes_allocated_since_last : ℕ

-- `HM_HH_merge`, with the parent thread after it.
unfoldable pub merge : (loops fuel : ℕ) → World → (parent child : Thread) → Option (World × Thread)
merge loops fuel w parent child =
    zip loops fuel (free_stack w child.hierarchical_heap) parent.hierarchical_heap
      child.hierarchical_heap
    >>= (λ (v, hh). some (
      v,
      record parent {
        hierarchical_heap = hh;
        spare_heartbeat_tokens =
            (parent.spare_heartbeat_tokens + child.spare_heartbeat_tokens) % 2 ^ 32;
        bytes_survived_last = (parent.bytes_survived_last + child.bytes_survived_last) % 2 ^ 64;
        bytes_allocated_since_last =
            (parent.bytes_allocated_since_last + child.bytes_allocated_since_last) % 2 ^ 64;
      },
    ))
