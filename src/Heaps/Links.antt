-- ===== src/Heaps/Links.antt =====
-- The chains of subheaps under collection and of those whose collection is complete, and
-- `linkCCChains`, of runtime/gc/hierarchical-heap.c.
use mpl.Base.{ℕ, zero, suc, ◌+◌, Option, none, some, ◌==◌, if◌then◌else◌, ◌>>=◌}
use mpl.Heaps.{Heap, World, set_heap, set_depth}

-- The two fields that link subheaps: `subHeapForCC` and `subHeapCompletedCC`.
pub data Link : Type 0 where
  for_cc : Link
  completed_cc : Link

unfoldable pub next_cc : Link → Heap → ℕ
next_cc for_cc h = h.sub_heap_for_cc
next_cc completed_cc h = h.sub_heap_completed_cc

unfoldable pub with_next_cc : Link → Heap → ℕ → Heap
with_next_cc for_cc h v = record h { sub_heap_for_cc = v }
with_next_cc completed_cc h v = record h { sub_heap_completed_cc = v }

abbrev pub set_next_cc : Link → World → ℕ → ℕ → World
set_next_cc l w hh v = set_heap w hh (with_next_cc l (w.heaps hh) v)

-- The loops of `lengthOfCCChain` and `lengthOfCompletedCCChain`.
unfoldable pub length_from : Link → (fuel : ℕ) → World → (cursor : ℕ) → Option ℕ
length_from l zero w cursor = if cursor == 0 then some 0 else none
length_from l (suc fuel) w cursor =
    let rest = length_from l fuel w (next_cc l (w.heaps cursor)) in
    if cursor == 0 then some 0 else rest >>= (λ count. some (count + 1))

unfoldable pub length_of_chain : Link → (fuel : ℕ) → World → (hh : ℕ) → Option ℕ
length_of_chain l fuel w hh = length_from l fuel w (next_cc l (w.heaps hh))

-- The loops of `setCCChainDepth` and `setCompletedCCChainDepth`.
unfoldable pub set_depths_from : Link → (fuel : ℕ) → World → (cursor depth : ℕ) → Option World
set_depths_from l zero w cursor depth = if cursor == 0 then some w else none
set_depths_from l (suc fuel) w cursor depth =
    let v = set_depth w cursor depth in
    let rest = set_depths_from l fuel v (next_cc l (v.heaps cursor)) depth in
    if cursor == 0 then some w else rest

unfoldable pub set_chain_depth : Link → (fuel : ℕ) → World → (hh depth : ℕ) → Option World
set_chain_depth l fuel w hh depth = set_depths_from l fuel w (next_cc l (w.heaps hh)) depth

-- The loop that looks for the end of a chain.
unfoldable pub chain_end : Link → (fuel : ℕ) → World → (cursor : ℕ) → Option ℕ
chain_end l zero w cursor = none
chain_end l (suc fuel) w cursor =
    let rest = chain_end l fuel w (next_cc l (w.heaps cursor)) in
    if next_cc l (w.heaps cursor) == 0 then some cursor else rest

-- The chain of `hh2` is put before that of `hh1`.
unfoldable pub join_chain : Link → (fuel : ℕ) → World → (hh1 hh2 : ℕ) → Option World
join_chain l fuel w hh1 hh2 = chain_end l fuel w (next_cc l (w.heaps hh2)) >>= (λ end.
    let linked = set_next_cc l w end (next_cc l (w.heaps hh1)) in
    let moved = set_next_cc l linked hh1 (next_cc l (linked.heaps hh2)) in
    some (set_next_cc l moved hh2 0))

-- The chains of `hh2` become those of `hh1`.
unfoldable pub take_chains : World → (hh1 hh2 : ℕ) → World
take_chains w hh1 hh2 =
    let for = set_next_cc for_cc w hh1 (next_cc for_cc (w.heaps hh2)) in
    let completed = set_next_cc completed_cc for hh1 (next_cc completed_cc (for.heaps hh2)) in
    set_next_cc completed_cc (set_next_cc for_cc completed hh2 0) hh2 0

-- `linkCCChains`
unfoldable pub link_cc_chains : (fuel : ℕ) → World → (hh1 hh2 : ℕ) → Option World
link_cc_chains fuel w hh1 hh2 = set_chain_depth for_cc fuel w hh2 (w.heaps hh1).depth >>= (λ v.
    set_chain_depth completed_cc fuel v hh2 (v.heaps hh1).depth >>= (λ u.
      let joined =
        join_chain for_cc fuel u hh1 hh2 >>= (λ t. join_chain completed_cc fuel t hh1 hh2) in
      if (u.heaps hh1).sub_heap_for_cc == 0
      then some (take_chains u hh1 hh2)
      else if (u.heaps hh2).sub_heap_for_cc == 0
      then some u
      else joined))
