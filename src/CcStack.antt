-- ===== src/CcStack.antt =====
-- runtime/gc/concurrent-stack.c: a bag of words for each processor, with a lock each, on chunk lists.
-- `none` is a wait for a lock that is held: nobody else holds a lock here, so that it has no end.
pub mod Close
mod Tests
use mpl.Base.{
  ℕ, zero, suc, ◌+◌, ◌-◌, Bool, true, false, ◌&&◌, Option, none, some, List, [], ◌∷◌, ◌++◌, nth,
  set, ◌==◌, ltb, leb, if◌then◌else◌,
}
use mpl.Base.Chain.{update}
use mpl.Chunks.{Store, init_chunk_list, append_chunk, unlink_chunk}
use mpl.Chunks.Lists.{Allocation, store_in_chunk_list, free_chunks_in_list}

-- `CC_stack_data`: the address of its chunk list, and whether its mutex is held.
pub record StackData : Type 0 where
  pub storage : ℕ
  pub is_closed : Bool
  pub locked : Bool

-- `CC_stack`, with the chunks and the words that are stored in them.
pub record CcStack : Type 0 where
  pub store : Store
  pub words : ℕ → ℕ
  pub stacks : List StackData
  pub all_closed : Bool

-- `pthread_mutex_lock` and `pthread_mutex_unlock`
unfoldable pub lock : StackData → Option StackData
lock d = if d.locked then none else some (record d { locked = true })

unfoldable pub unlock : StackData → StackData
unlock d = record d { locked = false }

abbrev pub first_chunk : Store → StackData → ℕ
first_chunk s d = (s.lists d.storage).first_chunk

-- The loop of `CC_stack_init` on the places of the chunk lists.
pub init_stacks : Store → (storages : List ℕ) → Store × List StackData
init_stacks s [] = (s, [])
init_stacks s (storage ∷ rest) =
    let (t, ds) = init_stacks (init_chunk_list s storage) rest in
    (t, record { storage = storage; is_closed = false; locked = false } ∷ ds)

-- `CC_stack_init`
pub init : Store → (words : ℕ → ℕ) → (storages : List ℕ) → CcStack
init s words storages =
    let (t, ds) = init_stacks s storages in
    record { store = t; words = words; stacks = ds; all_closed = false }

-- `CC_stack_data_push`: the bag after it, and whether the push succeeded.
unfoldable pub data_push :
    (bogus block_size : ℕ)
    → CcStack
    → StackData
    → Allocation
    → (datum : ℕ) → Option (CcStack × StackData × Bool)
data_push bogus block_size c d blocks datum =
    let (stored, place) = store_in_chunk_list bogus block_size c.store d.storage blocks 8 in
    elim (lock d) [
      | none ↦ none
      | some held ↦
          if held.is_closed
          then some (c, unlock held, false)
          else some
              (record c { store = stored; words = update c.words place datum }, unlock held, true)
    ]

-- `CC_stack_push` by the processor `proc_number`; `none` also stands for one that has no bag.
unfoldable pub push :
    (bogus block_size : ℕ)
    → CcStack
    → (proc_number : ℕ) → Allocation
    → (datum : ℕ) → Option (CcStack × Bool)
push bogus block_size c proc_number blocks datum =
    if c.all_closed then some (c, false) else elim (nth c.stacks proc_number) [
      | none ↦ none
      | some d ↦ elim (data_push bogus block_size c d blocks datum) [
        | none ↦ none
        | some (pushed, e, ok) ↦
            some (record pushed { stacks = set pushed.stacks proc_number e }, ok)
      ]
    ]

-- The first loop of `CC_stack_try_close`.
unfoldable pub all_empty : Store → List StackData → Bool
all_empty s [] = true
all_empty s (d ∷ ds) = if first_chunk s d == 0 then all_empty s ds else false

-- The second loop: the bags after it, and whether it came to the end. It leaves the bag at which it
-- breaks locked.
unfoldable pub lock_and_close : Store → List StackData → Option (List StackData × Bool)
lock_and_close s [] = some ([], true)
lock_and_close s (d ∷ ds) =
    let rest = lock_and_close s ds in
    elim (lock d) [
      | none ↦ none
      | some held ↦
          if first_chunk s d == 0
          then elim rest [
            | none ↦ none
            | some (es, ok) ↦ some (record held { is_closed = true } ∷ es, ok)
          ]
          else some (held ∷ ds, false)
    ]

-- `i` after the second loop: the number of bags before the first that is not empty.
unfoldable pub closed_count : Store → List StackData → ℕ
closed_count s [] = 0
closed_count s (d ∷ ds) = if first_chunk s d == 0 then suc (closed_count s ds) else 0

-- The loops that unlock the bags below `i`.
unfoldable pub unlock_below : (i : ℕ) → List StackData → List StackData
unlock_below zero ds = ds
unlock_below (suc i) [] = []
unlock_below (suc i) (d ∷ ds) = unlock d ∷ unlock_below i ds

-- The last loop: the first chunk of every bag that is not empty goes to `removed`.
unfoldable pub take_batch : Store → (removed : ℕ) → List StackData → Option (Store × List StackData)
take_batch s removed [] = some (s, [])
take_batch s removed (d ∷ ds) =
    let chunk = first_chunk s d in
    let taken = append_chunk (unlink_chunk false s d.storage chunk) removed chunk in
    let skip = take_batch s removed ds in
    let rest = take_batch taken removed ds in
    if chunk == 0
    then elim skip [ none ↦ none | some (t, es) ↦ some (t, d ∷ es) ]
    else elim (lock d) [
      | none ↦ none
      | some held ↦ elim rest [ none ↦ none | some (t, es) ↦ some (t, unlock held ∷ es) ]
    ]

-- The end of `CC_stack_try_close` where it did not close.
unfoldable pub end_unclosed :
    CcStack → Store → (removed : ℕ) → List StackData → Option (CcStack × Bool)
end_unclosed c s removed ds = elim (take_batch s removed ds) [
  | none ↦ none
  | some (t, es) ↦ some (record c { store = t; stacks = es }, false)
]

-- `CC_stack_try_close`. Between its first loop and its second other processors may push: `later` is
-- the store that the second loop finds.
unfoldable pub try_close : CcStack → (later : Store) → (removed : ℕ) → Option (CcStack × Bool)
try_close c later removed =
    if all_empty c.store c.stacks
    then elim (lock_and_close later c.stacks) [
      | none ↦ none
      | some (ds, ok) ↦
          let unlocked = unlock_below (closed_count later c.stacks) ds in
          if ok
          then some (record c { store = later; stacks = unlocked; all_closed = true }, true)
          else end_unclosed c later removed unlocked
    ]
    else end_unclosed c c.store removed c.stacks

-- The loop of `CC_stack_clear`, with what it hands to the allocator.
pub clear_stacks :
    (fuel : ℕ) → Store → List StackData → Option (Store × List StackData × List Allocation)
clear_stacks fuel s [] = some (s, [], [])
clear_stacks fuel s (d ∷ ds) = elim (lock d) [
  | none ↦ none
  | some held ↦ elim (free_chunks_in_list fuel s held.storage) [
    | none ↦ none
    | some (t, freed) ↦ elim (clear_stacks fuel t ds) [
      | none ↦ none
      | some (u, es, others) ↦ some (u, unlock held ∷ es, freed ++ others)
    ]
  ]
]

-- `CC_stack_clear`
pub clear : (fuel : ℕ) → CcStack → Option (CcStack × List Allocation)
clear fuel c = elim (clear_stacks fuel c.store c.stacks) [
  | none ↦ none
  | some (t, ds, freed) ↦ some (record c { store = t; stacks = ds }, freed)
]
