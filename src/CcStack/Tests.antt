-- ===== src/CcStack/Tests.antt =====
-- Concrete bags, and the witness of the theorem on closing.
use mpl.Base.{ℕ, ◌≡◌, ◌⊎◌, refl, true, false, none, some, [], ◌∷◌, ◌==◌, if◌then◌else◌}
use mpl.Chunks.{Store, HmChunk}
use mpl.Chunks.Lists.{Allocation}
use mpl.CcStack.{StackData, CcStack, all_empty, try_close, push}
use mpl.CcStack.Close.{Free, no_bags, free_bag, Closed, try_close_lem}

abbrev some_chunk : HmChunk
some_chunk = record {
  level_head = 0;
  frontier = 4192;
  limit = 8192;
  next_chunk = 0;
  prev_chunk = 0;
  start_gap = 0;
  pinned_during_collection = false;
  retire_chunk = false;
  might_contain_multiple_objects = true;
  tmp_heap = 0;
  container = 0;
  num_blocks = 1;
  decheck_state = 0;
  magic = 0;
}

-- A store in which the list at 20 begins with a chunk, and the others are empty.
abbrev store : (chunk : ℕ) → Store
store chunk = record {
  chunks = λ a. some_chunk;
  lists = λ a. record {
    first_chunk = if a == 20 then chunk else 0;
    last_chunk = if a == 20 then chunk else 0;
    used_size = 0;
    size = 0;
  };
  nodes = λ a. record { representative = 0; payload = 0; dependant1 = 0; dependant2 = 0 };
}

abbrev bag : ℕ → StackData
bag storage = record { storage = storage; is_closed = false; locked = false }

abbrev two_bags : CcStack
two_bags = record {
  store = store 0;
  words = λ a. 0;
  stacks = bag 10 ∷ bag 20 ∷ [];
  all_closed = false;
}

two_bags-Free : Free (bag 10 ∷ bag 20 ∷ [])
two_bags-Free = free_bag (bag 10) (bag 20 ∷ []) refl (free_bag (bag 20) [] refl no_bags)

-- A push that comes in between.
try_close_lem_example :
    ((all_empty (store 4096) (bag 10 ∷ bag 20 ∷ []) ≡ true)
      × (u : CcStack) × (try_close two_bags (store 4096) 30 ≡ some (u, true))
      × Closed u.stacks
      × ((bogus block_size proc datum : ℕ) (blocks : Allocation)
          → push bogus block_size u proc blocks datum ≡ some (u, false)))
    ⊎ ((all_empty (store 4096) (bag 10 ∷ bag 20 ∷ []) ≡ false)
        × (try_close two_bags (store 4096) 30 ≡ none))
unfolding all_empty
try_close_lem_example = try_close_lem two_bags (store 4096) 30 two_bags-Free refl
