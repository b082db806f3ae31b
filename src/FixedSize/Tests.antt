-- ===== src/FixedSize/Tests.antt =====
-- The fixed-size allocator on small inputs.
use mpl.Base.{ℕ, ◌≡◌, ◌==◌, refl, some, List, [], ◌∷◌, ◌++◌, true, false, if◌then◌else◌, arith}
use mpl.Chunks.{Store}
use mpl.Chunks.Lists.{Allocation}
use mpl.FixedSize.{Arena, allocate_fixed_size}
use mpl.FixedSize.Reuse.{IsFree, allocate_fixed_size_lem}

abbrev no_chunks : Store
no_chunks = record {
  chunks = λ c. record {
    level_head = 0;
    frontier = 0;
    limit = 0;
    next_chunk = 0;
    prev_chunk = 0;
    start_gap = 0;
    pinned_during_collection = false;
    retire_chunk = false;
    might_contain_multiple_objects = true;
    tmp_heap = 0;
    container = 0;
    num_blocks = 0;
    decheck_state = 0;
    magic = 0;
  };
  lists = λ l. record { first_chunk = 0; last_chunk = 0; used_size = 0; size = 0 };
  nodes = λ n. record { representative = 0; payload = 0; dependant1 = 0; dependant2 = 0 };
}

-- The elements 5000 and 6000 are on the owner's list, and 7000 on the shared one.
abbrev three_free : Arena
three_free = record {
  store = no_chunks;
  allocators = λ f. record {
    fixed_size = 16;
    num_allocated = 3;
    num_local_freed = 2;
    num_shared_freed = 1;
    purpose = 0;
    buffer = 1;
    free_list = 5000;
    shared_free_list = 7000;
  };
  next_free = λ p. if p == 5000 then 6000 else 0;
  gap = λ p. 1;
}

three_free-IsFree : IsFree three_free 1 (5000 ∷ 6000 ∷ []) (7000 ∷ [])
three_free-IsFree = record {
  own_chain = ground arith;
  shared_chain = ground arith;
  distinct = ground arith;
}

abbrev some_blocks : Allocation
some_blocks = record { start = 40960; container = 0; num_blocks = 1 }

allocate_fixed_size_lem_example :
    (after : Arena) × (own2 : List ℕ) × (shared2 : List ℕ) × (allocate_fixed_size 0 4096 three_free
        1 some_blocks
      ≡ some (after, 5000))
    × IsFree after 1 own2 shared2
    × (own2 ++ shared2 ≡ 6000 ∷ 7000 ∷ [])
allocate_fixed_size_lem_example =
    allocate_fixed_size_lem 0 4096 three_free 1 some_blocks (5000 ∷ 6000 ∷ []) (7000 ∷ []) 5000
      (6000 ∷ 7000 ∷ []) three_free-IsFree refl
