-- ===== src/ConcLists/RemSets.antt =====
-- runtime/gc/remembered-set.c: a remembered set is a list of chunks of its own and a concurrent list,
-- whose addresses are those in its structure.
use mpl.Base.{
  ℕ, zero, suc, ◌+◌, ◌/◌, not, ◌&&◌, Option, none, some, List, [], ◌∷◌, ◌++◌, ◌==◌, ltb,
  if◌then◌else◌, ◌>>=◌,
}
use mpl.Chunks.{Store, init_chunk_list, word_sub, get_chunk_start}
use mpl.Chunks.Lists.{Allocation, append_chunk_list, free_chunks_in_list}
use mpl.ConcLists.{
  Shared, with_store, init_conc_list, append_conc_list, pop_as_chunk_list, free_chunks_in_conc_list,
}

-- `struct HM_remembered`
pub record Remembered : Type 0 where
  pub from : ℕ
  pub object : ℕ

-- `sizeof(struct HM_remembered)`
abbrev pub sizeof_remembered : ℕ
sizeof_remembered = 16

-- `remSet->private` and `remSet->public`
abbrev pub private_of : ℕ → ℕ
private_of rem_set = rem_set

abbrev pub public_of : ℕ → ℕ
public_of rem_set = rem_set + 32

-- `HM_initRemSet`
unfoldable pub init_rem_set : Shared → ℕ → Shared
init_rem_set c r =
    init_conc_list (with_store c (init_chunk_list c.store (private_of r))) (public_of r)

-- `HM_appendRemSet`
unfoldable pub append_rem_set : Shared → (r1 r2 : ℕ) → Shared
append_rem_set c r1 r2 =
    append_conc_list
      (with_store c (append_chunk_list c.store (private_of r1) (some (private_of r2))))
      (public_of r1) (public_of r2)

-- The loop of `HM_foreachPrivate` in a chunk, from `p` up to the frontier or the first element without
-- an object; `elems` is what the memory has at each place. What `f` is called on, in order.
unfoldable pub foreach_in_chunk :
    (fuel : ℕ) → (elems : ℕ → Remembered) → (p frontier : ℕ) → Option (List Remembered)
foreach_in_chunk zero elems p frontier =
    if ltb p frontier && not ((elems p).object == 0) then none else some []
foreach_in_chunk (suc fuel) elems p frontier =
    let rest = foreach_in_chunk fuel elems (p + sizeof_remembered) frontier in
    if ltb p frontier && not ((elems p).object == 0)
    then rest >>= (λ es. some (elems p ∷ es))
    else some []

-- `HM_foreachPrivate` from a chunk on.
unfoldable pub foreach_from :
    (fuel : ℕ) → Store → (elems : ℕ → Remembered) → (chunk : ℕ) → Option (List Remembered)
foreach_from zero s elems chunk = if chunk == 0 then some [] else none
foreach_from (suc fuel) s elems chunk =
    let rest = foreach_from fuel s elems (s.chunks chunk).next_chunk in
    let here = foreach_in_chunk fuel elems (get_chunk_start s chunk) (s.chunks chunk).frontier in
    if chunk == 0 then some [] else here >>= (λ es. rest >>= (λ fs. some (es ++ fs)))

unfoldable pub foreach_private :
    (fuel : ℕ) → Store → (elems : ℕ → Remembered) → (list : ℕ) → Option (List Remembered)
foreach_private fuel s elems list = foreach_from fuel s elems (s.lists list).first_chunk

-- `HM_foreachPublic` where `trackFishyChunks` is false; `list` is the place of its local list.
unfoldable pub foreach_public :
    (fuel : ℕ)
    → Shared
    → (elems : ℕ → Remembered) → (r list : ℕ) → Option (Shared × List Remembered)
foreach_public fuel c elems r list =
    let popped = pop_as_chunk_list c (public_of r) list in
    let done = with_store popped (append_chunk_list popped.store (private_of r) (some list)) in
    if (c.conc (public_of r)).first_chunk == 0
    then some (c, [])
    else foreach_private fuel popped.store elems list >>= (λ es. some (done, es))

-- `HM_foreachRemembered` where `trackFishyChunks` is false.
unfoldable pub foreach_remembered :
    (fuel : ℕ)
    → Shared
    → (elems : ℕ → Remembered) → (r list : ℕ) → Option (Shared × List Remembered)
foreach_remembered fuel c elems r list =
    foreach_private fuel c.store elems (private_of r)
    >>= (λ es. foreach_public fuel c elems r list >>= (λ (d, fs). some (d, es ++ fs)))

-- The loop of `HM_numRemembered`.
unfoldable pub num_remembered_from : (fuel : ℕ) → Store → (chunk : ℕ) → Option ℕ
num_remembered_from zero s chunk = if chunk == 0 then some 0 else none
num_remembered_from (suc fuel) s chunk =
    let rest = num_remembered_from fuel s (s.chunks chunk).next_chunk in
    let here = word_sub (s.chunks chunk).frontier (get_chunk_start s chunk) / sizeof_remembered in
    if chunk == 0 then some 0 else rest >>= (λ count. some (here + count))

unfoldable pub num_remembered : (fuel : ℕ) → Store → (r : ℕ) → Option ℕ
num_remembered fuel s r = num_remembered_from fuel s (s.lists (private_of r)).first_chunk

-- `HM_freeRemSetWithInfo`, with the blocks that it frees.
unfoldable pub free_rem_set : (fuel : ℕ) → Shared → (r list : ℕ) → Option (Shared × List Allocation)
free_rem_set fuel c r list = free_chunks_in_list fuel c.store (private_of r) >>= (λ (t, own).
    free_chunks_in_conc_list fuel (with_store c t) (public_of r) list
    >>= (λ (d, others). some (d, own ++ others)))
