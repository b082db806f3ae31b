-- ===== src/Suspects/Sets.antt =====
-- The suspects of a heap as a list of chunks that hold pointers to them, and the sets by which they are
-- cleared in parallel: ES_add, clear_suspect, ES_takeClearSet, ES_processClearSetGrain and
-- ES_commitFinishedClearSetGrain of runtime/gc/entanglement-suspects.c.
use mpl.Base.{
  ℕ, zero, suc, ◌+◌, ◌-◌, ◌/◌, ◌%◌, ◌^◌, ◌&&◌, Option, none, some, List, [], ◌∷◌, ◌++◌, ◌==◌, ltb,
  if◌then◌else◌, ◌>>=◌,
}
use mpl.Chunks.{Store, init_chunk_list, get_chunk_start}
use mpl.Chunks.Lists.{Allocation, append_chunk_list, store_in_chunk_list, free_chunk_with_info}
use mpl.Heaps.{World, with_store, suspects_of}
use mpl.Heaps.Levels.{Places, get_heap_at_depth}
use mpl.Heaps.Zip.{Thread}
use mpl.Objects.{Words, write, get_header, header_size, objptr_size}
use mpl.Objects.Pin.{is_any, pin_type, unpin_depth_of_h}
use mpl.Stacks.{is_objptr}
use mpl.Suspects.{moved, cleared, mark_suspect, cleared_header, clear_suspect_par_safe}

-- The pointer is stored in a list of chunks.
unfoldable pub store_suspect :
    (bogus_tid block_size : ℕ) → World → Words → (list op : ℕ) → Allocation → World × Words
store_suspect bogus_tid block_size w m list op blocks =
    let (s, place) =
      store_in_chunk_list bogus_tid block_size w.shared.store list blocks objptr_size in
    (with_store w s, write m place op)

-- `ES_add`
unfoldable pub es_add :
    (bogus_tid block_size : ℕ) → World → Words → (es op : ℕ) → Allocation → World × Words
es_add bogus_tid block_size w m es op blocks =
    let (n, marked) = mark_suspect m op in
    if marked then store_suspect bogus_tid block_size w n es op blocks else (w, n)

-- `struct ES_clearArgs`, without its thread.
pub record ClearArgs : Type 0 where
  pub new_list : ℕ
  pub heap_depth : ℕ
  pub num_moved : ℕ
  pub num_failed : ℕ
  pub num_cleared : ℕ

-- `clear_suspect`, where the compare-and-swap finds `found` and the allocators return `places` and
-- `blocks` if they are called; `none` is an exit by DIE.
unfoldable pub clear_suspect :
    (bogus bogus_tid block_size fuel : ℕ)
    → World
    → Words
    → Thread
    → ClearArgs
    → (op found : ℕ) → Places
    → Allocation
    → Option (World × Words × Thread × ClearArgs)
clear_suspect bogus bogus_tid block_size fuel w m thread args op found places blocks =
    let header = get_header m op in
    let depth = unpin_depth_of_h header in
    let move = get_heap_at_depth bogus fuel w thread places.uf places.heap depth >>= (λ (v, t, hh).
      let (u, n) = store_suspect bogus_tid block_size v m (suspects_of hh) op blocks in
      some (u, n, t, record args { num_moved = (args.num_moved + 1) % 2 ^ 64 })) in
    let changed = write m (op - header_size) found in
    let (u, n) = store_suspect bogus_tid block_size w changed args.new_list op blocks in
    elim (pin_type header) [
      | none ↦ none
      | some pt ↦
          if is_any pt && ltb depth args.heap_depth
          then move
          else if found == header
          then some (
            w,
            write m (op - header_size) (cleared_header header),
            thread,
            record args { num_cleared = (args.num_cleared + 1) % 2 ^ 64 },
          )
          else some (u, n, thread, record args { num_failed = (args.num_failed + 1) % 2 ^ 64 })
    ]

-- `ES_numSuspects`
unfoldable pub num_suspects_of : World → (hh : ℕ) → ℕ
num_suspects_of w hh = (w.shared.store.lists (suspects_of hh)).used_size / objptr_size

-- `struct ES_clearSet`, without its time.
pub record ClearSet : Type 0 where
  pub chunk_array : List ℕ
  pub depth : ℕ
  pub num_suspects : ℕ

-- The loop that fills the array, in which the chunks are in the order of the list.
unfoldable pub chunks_from : (fuel : ℕ) → Store → (cursor : ℕ) → Option (List ℕ)
chunks_from zero s cursor = if cursor == 0 then some [] else none
chunks_from (suc fuel) s cursor =
    let rest = chunks_from fuel s (s.chunks cursor).next_chunk in
    if cursor == 0 then some [] else rest >>= (λ cs. some (cursor ∷ cs))

-- `ES_takeClearSet`
unfoldable pub take_clear_set : (fuel : ℕ) → World → (hh : ℕ) → Option (World × ClearSet)
take_clear_set fuel w hh =
    let s = w.shared.store in
    let es = suspects_of hh in
    let emptied = init_chunk_list s es in
    chunks_from fuel emptied (s.lists es).first_chunk >>= (λ cs. some (
      with_store w emptied,
      record { chunk_array = cs; depth = (w.heaps hh).depth; num_suspects = num_suspects_of w hh },
    ))

-- The loop of `ES_processClearSetGrain` over the pointers of a chunk, where no other processor writes to
-- the headers: the memory, and the pointers that are moved with their depths, in order.
unfoldable pub process_chunk :
    (fuel : ℕ) → Words → (p frontier depth : ℕ) → Option (Words × List (ℕ × ℕ))
process_chunk zero m p frontier depth = if ltb p frontier then none else some (m, [])
process_chunk (suc fuel) m p frontier depth =
    let next = p + objptr_size in
    let rest = λ (n : Words). process_chunk fuel n next frontier depth in
    let here : Option (Words × List (ℕ × ℕ)) = elim (clear_suspect_par_safe 1 m (m p) depth []) [
      | moved n d ↦ rest n >>= (λ (o, ms). some (o, (d, m p) ∷ ms))
      | cleared n ↦ rest n
      | _ ↦ none
    ] in
    if ltb p frontier then if is_objptr (m p) then here else rest m else some (m, [])

-- The loop over the chunks of a grain.
unfoldable pub process_chunks :
    (fuel : ℕ) → Store → Words → (chunks : List ℕ) → (depth : ℕ) → Option (Words × List (ℕ × ℕ))
process_chunks fuel s m [] depth = some (m, [])
process_chunks fuel s m (chunk ∷ chunks) depth =
    process_chunk fuel m (get_chunk_start s chunk) (s.chunks chunk).frontier depth
    >>= (λ (n, ms). process_chunks fuel s n chunks depth >>= (λ (o, ns). some (o, ms ++ ns)))

-- `ES_commitFinishedClearSetGrain` from index `i` on, where `output` gives the places of the lists in
-- its array and `places` what the allocators return for a heap at a depth.
unfoldable pub commit_from :
    (bogus fuel : ℕ)
    → World
    → Thread
    → (output : ℕ → ℕ) → (places : ℕ → Places) → (left i : ℕ) → Option (World × Thread)
commit_from bogus fuel w thread output places zero i = some (w, thread)
commit_from bogus fuel w thread output places (suc left) i =
    let list = output i in
    let skipped = commit_from bogus fuel w thread output places left (i + 1) in
    let p = places i in
    let added = get_heap_at_depth bogus fuel w thread p.uf p.heap i >>= (λ (v, t, dest).
      let joined = append_chunk_list v.shared.store (suspects_of dest) (some list) in
      commit_from bogus fuel (with_store v (init_chunk_list joined list)) t output places left
        (i + 1)) in
    if (w.shared.store.lists list).size == 0 then skipped else added

-- The loop of `ES_deleteClearSet`, with what is handed to the allocator.
unfoldable pub free_chunk_array : Store → (chunks : List ℕ) → Store × List Allocation
free_chunk_array s [] = (s, [])
free_chunk_array s (chunk ∷ chunks) =
    let (t, freed) = free_chunk_with_info s chunk in
    let (u, others) = free_chunk_array t chunks in (u, freed ∷ others)
