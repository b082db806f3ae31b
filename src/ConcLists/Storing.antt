-- ===== src/ConcLists/Storing.antt =====
-- `CC_storeInConcListWithPurpose` of runtime/gc/concurrent-list.c.
use mpl.Base.{
  ℕ, zero, suc, ◌+◌, ◌||◌, Option, none, some, List, [], ◌∷◌, ◌==◌, ltb, if◌then◌else◌, ◌>>=◌,
}
use mpl.Chunks.{set_chunk, get_chunk_size_past_frontier}
use mpl.Chunks.Lists.{Allocation}
use mpl.ConcLists.{Shared, Others, nobody, with_store, set_bytes, allocate_chunk_in_conc_list}

-- What other processors do in the next round of a loop, and in the later ones.
abbrev pub next_others : List Others → Others
next_others [] = nobody
next_others (o ∷ os) = o

abbrev pub later_others : List Others → List Others
later_others [] = []
later_others (o ∷ os) = os

-- The frontier of a chunk is moved.
abbrev pub move_frontier : Shared → (chunk frontier : ℕ) → Shared
move_frontier c chunk frontier =
    with_store c (set_chunk c.store chunk (record (c.store.chunks chunk) { frontier = frontier }))

-- The compare-and-swap of the frontier of a chunk from `frontier` to its end with the object.
unfoldable pub swap_frontier : Shared → (chunk frontier obj_size : ℕ) → Option Shared
swap_frontier c chunk frontier obj_size =
    if (c.store.chunks chunk).frontier == frontier
    then some (move_frontier c chunk (frontier + obj_size))
    else none

-- The object's bytes are copied to their place.
abbrev pub copy_object : Shared → (place obj_size : ℕ) → (object : ℕ → ℕ) → Shared
copy_object c place obj_size object = record c {
  bytes = set_bytes c.bytes place (place + obj_size) object;
}

-- The loop: the state after it, with the chunk and the place that the object is copied to. `others` are
-- what other processors do in each round, and `blocks` what the allocator returns, where none is left
-- the end by DIE.
unfoldable pub store_in_conc_list :
    (bogus block_size fuel : ℕ)
    → Shared
    → (l obj_size : ℕ) → (object : ℕ → ℕ) → List Allocation
    → (others : List Others) → Option (Shared × ℕ × ℕ)
store_in_conc_list bogus block_size zero c l obj_size object blocks others = none
store_in_conc_list bogus block_size (suc fuel) c l obj_size object blocks others =
    let chunk = (c.conc l).last_chunk in
    let frontier = (c.store.chunks chunk).frontier in
    let other = next_others others in
    if chunk == 0 || ltb (get_chunk_size_past_frontier c.store chunk) obj_size
    then allocate_chunk_in_conc_list bogus block_size other c l blocks obj_size chunk
      >>= (λ (d, bs).
          store_in_conc_list bogus block_size fuel d l obj_size object bs (later_others others))
    else elim (swap_frontier (other.before_check c) chunk frontier obj_size) [
      | some d ↦ some (copy_object d frontier obj_size object, chunk, frontier)
      | none ↦
          store_in_conc_list bogus block_size fuel (other.before_check c) l obj_size object blocks
            (later_others others)
    ]
