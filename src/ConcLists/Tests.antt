-- ===== src/ConcLists/Tests.antt =====
-- Concurrent lists at concrete inputs.
use mpl.Base.{ℕ, ◌+◌, ◌≡◌, refl, some, List, [], ◌∷◌, true, false, ◌==◌, if◌then◌else◌, arith}
use mpl.Align.{align, align_down}
use mpl.Chunks.{HmChunk}
use mpl.Chunks.Lists.{Allocation}
use mpl.ConcLists.{Shared, Others, nobody, pop_as_chunk_list}
use mpl.ConcLists.RemSets.{
  Remembered, private_of, public_of, foreach_private, foreach_public, foreach_from,
  foreach_in_chunk,
}
use mpl.Base.Chain.{Chain}
use mpl.ConcLists.Ends.{nexts, foreach_public-sizes}
use mpl.ConcLists.Storing.{move_frontier, store_in_conc_list}
use mpl.ConcLists.Calls.{IsStored, store_in_conc_list_lem}

abbrev a_chunk : ℕ → HmChunk
a_chunk a = record {
  level_head = 0;
  frontier = a + 104;
  limit = a + 4096;
  next_chunk = 0;
  prev_chunk = 0;
  start_gap = 0;
  pinned_during_collection = false;
  retire_chunk = false;
  might_contain_multiple_objects = true;
  tmp_heap = 0;
  container = 0;
  num_blocks = 1;
  decheck_state = 0;
  magic = 3405707982;
}

-- A remembered set at 64, whose private list has the chunk at 20480 and whose public list that at 8192;
-- the list at 500 was never set up.
abbrev one_public : Shared
one_public = record {
  store = record {
    chunks = a_chunk;
    lists = λ a.
        if a == 64
        then record { first_chunk = 20480; last_chunk = 20480; used_size = 16; size = 4096 }
        else record { first_chunk = 7; last_chunk = 7; used_size = 77; size = 777 };
    nodes = λ a. record { representative = 0; payload = 0; dependant1 = 0; dependant2 = 0 };
  };
  conc = λ a. record { first_chunk = 8192; last_chunk = 8192 };
  bytes = λ a. 0;
}

abbrev one_element : ℕ → Remembered
one_element a = record { from = 1; object = 2 }

one_remembered :
    foreach_private 2 (pop_as_chunk_list one_public 96 500).store one_element 500
    ≡ some (record { from = 1; object = 2 } ∷ [])
unfolding foreach_private foreach_from foreach_in_chunk pop_as_chunk_list
one_remembered = refl

foreach_public-sizes_example :
    (d : Shared) × (foreach_public 2 one_public one_element 64 500
      ≡ some (d, record { from = 1; object = 2 } ∷ []))
    × ((d.conc (public_of 64)).first_chunk ≡ 0)
    × ((d.conc (public_of 64)).last_chunk ≡ 0)
    × Chain (nexts d.store) (d.store.lists (private_of 64)).first_chunk (20480 ∷ 8192 ∷ [])
    × ((d.store.lists (private_of 64)).last_chunk ≡ 8192)
    × ((d.store.lists (private_of 64)).size ≡ 4873)
    × ((d.store.lists (private_of 64)).used_size ≡ 93)
foreach_public-sizes_example =
    foreach_public-sizes 2 one_public one_element 64 500 (record { from = 1; object = 2 } ∷ [])
      (20480 ∷ []) 8192 [] (omega arith) (refl, (λ e. omega (arith, e)), refl) refl (tt, tt)
      (refl, (λ e. omega (arith, e)), refl) refl ((λ e. omega (arith, e)), tt) one_remembered

abbrev some_blocks : List Allocation
some_blocks =
    record { start = 12288; container = 0; num_blocks = 1 }
    ∷ record { start = 16384; container = 0; num_blocks = 1 }
    ∷ []

-- Between the first read and the swap another processor stores 16 bytes.
abbrev a_store : Others
a_store = record nobody { before_check = λ c. move_frontier c 8192 8312 }

store_in_conc_list_lem_example :
    (d : Shared) × (chunk : ℕ) × (place : ℕ) × (store_in_conc_list 0 4096 3 one_public 96 16
        (λ a. 7)
        some_blocks
        (a_store ∷ [])
      ≡ some (d, chunk, place))
    × IsStored 0 4096 96 16 (λ a. 7) one_public some_blocks (a_store ∷ []) d chunk place
unfolding align align_down
store_in_conc_list_lem_example =
    store_in_conc_list_lem 0 4096 3 one_public 96 16 (λ a. 7) some_blocks (a_store ∷ [])
      (omega arith) (omega arith)
      ((omega arith, omega arith, omega arith), ((omega arith, omega arith, omega arith), tt))
