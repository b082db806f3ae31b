-- ===== src/WorkList/Push.antt =====
-- CC_workList_push of runtime/gc/cc-work-list.c followed by pops.
use mpl.Base.{
  ℕ, ◌+◌, ◌-◌, ◌%◌, ◌^◌, ◌≤◌, ◌<◌, ◌≡◌, ◌≢◌, refl, ap, ◌∙◌, false, some, List, length, ltb, leb,
  if◌then◌else◌, arith,
}
use mpl.Base.Chain.{update}
use mpl.Objects.{Words, ObjectType}
use mpl.Chunks.{
  word_sub, update_chunk_frontier_in_list, get_chunk_start, get_chunk_size_past_frontier,
}
use mpl.Chunks.Lists.{Allocation}
use mpl.WorkList.{FrameInfo, Elem, WorkList, elem_size}
use mpl.WorkList.Ops.{push_chunk, push_elem}
use mpl.WorkList.Fields.{fields_from}
use mpl.WorkList.Pops.{
  OnTop, pop_many, pop_many-fields_from, update_chunk_frontier_lem, update_self, update-other,
}

-- The used size grows by an element and shrinks by it.
there_and_back :
    (x e f y : ℕ)
    → x < 2 ^ 64
    → f ≡ e + elem_size
    → y ≡ (
        if leb e (e + elem_size)
        then (x + (e + elem_size - e)) % 2 ^ 64
        else word_sub x (e - (e + elem_size)))
    → (if leb f e then (y + (e - f)) % 2 ^ 64 else word_sub y (f - e)) ≡ x
there_and_back x e f y h at more = ground (arith, h, at, more)

-- Where the current chunk has room, an element that is pushed is popped field by field, as its steps
-- return them, and then the work list is as before: the current chunk, its end, the used size and the
-- elements below.
pub pop_many-push_elem :
    (frame_info : ℕ → FrameInfo) (frames : ℕ) (object_types : List ObjectType) (m : Words)
    (list bogus block_size : ℕ) (w : WorkList) (blocks : Allocation) (elem : Elem) (steps : ℕ)
    (fs : List ℕ)
    → let end = (w.store.chunks w.current_chunk).frontier in
      elem_size ≤ get_chunk_size_past_frontier w.store w.current_chunk
      → get_chunk_start w.store w.current_chunk ≤ end
      → (w.store.lists list).used_size < 2 ^ 64
      → fields_from frame_info frames object_types m steps elem ≡ some fs
      → (u : WorkList) × (pop_many frame_info frames object_types m list
            (length fs)
            (push_elem bogus block_size w list blocks elem)
          ≡ some (fs, u))
        × (u.current_chunk ≡ w.current_chunk)
        × ((u.store.chunks u.current_chunk).frontier ≡ end)
        × ((u.store.lists list).used_size ≡ (w.store.lists list).used_size)
        × ((a : ℕ) → a ≢ end → u.elems a ≡ w.elems a)
unfolding push_elem push_chunk
pop_many-push_elem frame_info frames object_types m list bogus block_size w blocks elem steps fs
      room inside word run =
    let chunk = w.current_chunk in
    let end = (w.store.chunks chunk).frontier in
    let fits : ltb (get_chunk_size_past_frontier w.store chunk) elem_size ≡ false =
      ground (arith, room) in
    let v : WorkList = record {
      store = update_chunk_frontier_in_list w.store (some list) chunk (end + elem_size);
      elems = update w.elems end elem;
      current_chunk = chunk;
    } in
    let pushed : push_elem bogus block_size w list blocks elem ≡ v =
      rw (fits, push_elem, push_chunk) refl in
    let (last, start, used) = update_chunk_frontier_lem w.store list chunk (end + elem_size) in
    let on : OnTop v elem end = record {
      last = last;
      inside = omega (arith, start, inside);
      there = update_self w.elems end elem;
    } in
    let (u, pops, store, current, others) =
      pop_many-fields_from frame_info frames object_types m list steps v elem end fs on run in
    let (last2, start2, used2) = update_chunk_frontier_lem v.store list chunk end in
    let at : (u.store.chunks u.current_chunk).frontier ≡ end =
      ap (λ s. (s.chunks u.current_chunk).frontier) store
      ∙ ap (λ c. ((update_chunk_frontier_in_list v.store (some list) chunk end).chunks c).frontier)
          current
      ∙ last2 in
    let size : (u.store.lists list).used_size ≡ (w.store.lists list).used_size =
      ap (λ s. (s.lists list).used_size) store
      ∙ used2
      ∙ there_and_back (w.store.lists list).used_size end (v.store.chunks chunk).frontier
          (v.store.lists list).used_size word last used in
    (
      u,
      ap (pop_many frame_info frames object_types m list (length fs)) pushed ∙ pops,
      current,
      at,
      size,
      λ a ne. others a ne ∙ update-other w.elems end a elem ne,
    )
