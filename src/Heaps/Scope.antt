-- ===== src/Heaps/Scope.antt =====
-- When to collect, and how far up: `HM_HH_nextCollectionThreshold`, `checkPolicyforRoot` and
-- `HM_HH_desiredCollectionScope` of runtime/gc/hierarchical-heap.c. The ratios, which are doubles, are
-- exact fractions here.
use mpl.Base.{
  ℕ, zero, suc, ◌+◌, ◌*◌, ◌/◌, ◌%◌, ◌^◌, Bool, true, false, not, ◌&&◌, ◌||◌, Option, none, some,
  ◌==◌, ltb, leb, if◌then◌else◌, ◌>>=◌,
}
use mpl.Heaps.{World, set_heap, chunk_list_of}
use mpl.Heaps.Zip.{Thread}

-- What the operations read of `s->controls->hhConfig`.
pub record HhConfig : Type 0 where
  pub min_collection_size : ℕ
  pub threshold_num : ℕ
  pub threshold_den : ℕ
  pub min_cc_size : ℕ
  pub max_cc_chain_length : ℕ
  pub cc_threshold_num : ℕ
  pub cc_threshold_den : ℕ

abbrev pub chunk_list_size : World → ℕ → ℕ
chunk_list_size w hh = (w.shared.store.lists (chunk_list_of hh)).size

-- `HM_HH_nextCollectionThreshold`
unfoldable pub next_collection_threshold : HhConfig → (surviving_size : ℕ) → ℕ
next_collection_threshold c surviving_size =
    let threshold = surviving_size * c.threshold_num / c.threshold_den in
    if ltb threshold c.min_collection_size then c.min_collection_size else threshold

-- The loop of `checkPolicyforRoot` that measures the chain of subheaps; `some false` is the return.
unfoldable pub short_chain : (fuel : ℕ) → HhConfig → World → (cursor len : ℕ) → Option Bool
short_chain zero c w cursor len = if cursor == 0 then some true else none
short_chain (suc fuel) c w cursor len =
    let rest = short_chain fuel c w (w.heaps cursor).sub_heap_for_cc (len + 1) in
    if cursor == 0
    then some true
    else if ltb c.max_cc_chain_length (len + 1)
    then some false
    else rest

-- The loop that sums what the completed subheaps kept.
unfoldable pub survived_from : (fuel : ℕ) → World → (cursor bytes : ℕ) → Option ℕ
survived_from zero w cursor bytes = if cursor == 0 then some bytes else none
survived_from (suc fuel) w cursor bytes =
    let rest =
      survived_from fuel w (w.heaps cursor).sub_heap_completed_cc
        ((bytes + (w.heaps cursor).bytes_survived) % 2 ^ 64) in
    if cursor == 0 then some bytes else rest

-- The last test of `checkPolicyforRoot`, on the bytes that survived and those that were allocated.
unfoldable pub too_little : HhConfig → (survived allocated : ℕ) → Bool
too_little c survived allocated =
    ltb (allocated * c.cc_threshold_den) (c.cc_threshold_num * survived) || survived == 0

-- `checkPolicyforRoot`, with what it writes to the package of the heap.
unfoldable pub check_policy_for_root :
    (fuel : ℕ) → HhConfig → World → Thread → Option (World × Bool)
check_policy_for_root fuel c w thread =
    let hh = thread.hierarchical_heap in
    let size = chunk_list_size w hh in
    let v = set_heap w hh (record (w.heaps hh) { bytes_allocated = size }) in
    let after = λ (bytes : ℕ).
      let h = v.heaps hh in
      let raised = set_heap v hh (record h { bytes_survived = (h.bytes_survived + 4) % 2 ^ 64 }) in
      if too_little c bytes h.bytes_allocated then (raised, false) else (v, true) in
    let go = short_chain fuel c v (v.heaps hh).sub_heap_for_cc 0 >>= (λ short.
      let sum =
        survived_from fuel v (v.heaps hh).sub_heap_completed_cc (v.heaps hh).bytes_survived in
      if short then sum >>= (λ bytes. some (after bytes)) else some (v, false)) in
    if ltb size c.min_cc_size then some (w, false) else go

-- A loop of `HM_HH_desiredCollectionScope`: up to which heap the sizes stay below the budget, and their
-- sum. The first of the two loops also looks at the depth.
unfoldable pub widen :
    (allowed : ℕ → Bool) → (fuel : ℕ) → World → (cursor size budget : ℕ) → Option (ℕ × ℕ)
widen allowed zero w cursor size budget =
    if (w.heaps cursor).next_ancestor == 0 then some (cursor, size) else none
widen allowed (suc fuel) w cursor size budget =
    let next = (w.heaps cursor).next_ancestor in
    let more = (chunk_list_size w next + size) % 2 ^ 64 in
    let rest = widen allowed fuel w next more budget in
    if not (next == 0) && allowed (w.heaps next).depth && ltb more budget
    then rest
    else some (cursor, size)

-- The part of `HM_HH_desiredCollectionScope` after its first tests.
unfoldable pub scope_within : (fuel : ℕ) → HhConfig → World → Thread → (scope budget : ℕ) → Option ℕ
scope_within fuel c w thread scope budget =
    let hh = thread.hierarchical_heap in
    let size = chunk_list_size w hh in
    widen (leb scope) fuel w hh size budget >>= (λ (_, total).
      let narrowed =
        widen (λ _. true) fuel w hh size (3 * total / 4)
        >>= (λ (cursor, _). some (w.heaps cursor).depth) in
      if ltb total c.min_collection_size
      then some ((thread.current_depth + 1) % 2 ^ 32)
      else narrowed)

-- `HM_HH_desiredCollectionScope`, where `scope` is the index that is read from the top of the deque, and
-- `none` for it is a deque that is not there.
unfoldable pub desired_collection_scope :
    (fuel : ℕ) → HhConfig → World → Thread → (scope : Option ℕ) → Option ℕ
desired_collection_scope fuel c w thread none = some ((thread.current_depth + 1) % 2 ^ 32)
desired_collection_scope fuel c w thread (some scope) =
    let hh = thread.hierarchical_heap in
    let skip = some ((thread.current_depth + 1) % 2 ^ 32) in
    let budget = 4 * thread.bytes_allocated_since_last % 2 ^ 64 in
    if ltb (thread.bytes_allocated_since_last * c.threshold_den)
      (c.threshold_num * thread.bytes_survived_last)
    then skip
    else if ltb budget c.min_collection_size
        || ltb thread.current_depth scope
        || ltb (w.heaps hh).depth scope
        || ltb budget (chunk_list_size w hh)
    then skip
    else scope_within fuel c w thread scope budget
