-- ===== src/Heaps/Tests.antt =====
-- Heaps at concrete inputs.
use mpl.Base.{
  ℕ, ◌*◌, ◌/◌, ◌^◌, ◌≤◌, ◌<◌, ◌≡◌, ◌⊎◌, refl, none, some, List, [], ◌∷◌, ◌==◌, if◌then◌else◌, true,
  false, All, length, arith,
}
use mpl.Base.Chain.{Fresh, Distinct, Chain}
use mpl.Chunks.{HmChunk}
use mpl.Heaps.{World, unreg, done, nodes_of, link_into}
use mpl.Heaps.Links.{for_cc, completed_cc, next_cc, link_cc_chains}
use mpl.Heaps.Kept.{links, Kept}
use mpl.Heaps.Subchains.{Subs}
use mpl.Heaps.Linking.{link_cc_chains_lem}
use mpl.Heaps.Free.{free_all_dependants}
use mpl.Heaps.Dependants.{Tree, leaf, node, free_order, size, height}
use mpl.Heaps.FreeAll.{HasDependants, link_into_lem, free_all_dependants_lem}
use mpl.Heaps.Zip.{Thread, zip}
use mpl.Heaps.Merged.{merged, matched, Descending}
use mpl.Heaps.Steady.{representatives}
use mpl.Heaps.Cursor.{ancestors, Zippable}
use mpl.Heaps.Joins.{zip_lem}
use mpl.Heaps.Scope.{HhConfig, desired_collection_scope}
use mpl.Heaps.ScopeLaws.{declined, IsOneOf, total_size, desired_collection_scope_lem}
use mpl.Heaps.Completed.{sort_subs}
use mpl.Heaps.Sorting.{states, pending, finished, count_done, sort_subs_lem}
use mpl.Heaps.Levels.{get_heap_at_depth}
use mpl.Heaps.Ascent.{placed, heap_at}
use mpl.Heaps.PathOrder.{get_heap_at_depth_lem}

abbrev no_chunk : HmChunk
no_chunk = record {
  level_head = 0;
  frontier = 0;
  limit = 0;
  next_chunk = 0;
  prev_chunk = 0;
  start_gap = 0;
  pinned_during_collection = false;
  retire_chunk = false;
  might_contain_multiple_objects = true;
  tmp_heap = 0;
  container = 0;
  num_blocks = 0;
  decheck_state = 0;
  magic = 0;
}

-- The heaps 1000 and 2000 at the depths 2 and 1, and 3000 at 2 beside them; below 1000 are the subheaps
-- 1100, which is done, and 1200, and the completed 1300. The node 10 of 1000 has the dependants 11, 12
-- and 13.
abbrev ancestor_of : ℕ → ℕ
ancestor_of a = if a == 1000 then 2000 else 0

abbrev for_of : ℕ → ℕ
for_of a = if a == 1000 then 1100 else if a == 1100 then 1200 else 0

abbrev completed_of : ℕ → ℕ
completed_of a = if a == 1000 then 1300 else 0

abbrev first_of : ℕ → ℕ
first_of a = if a == 10 then 11 else if a == 11 then 12 else 0

abbrev second_of : ℕ → ℕ
second_of a = if a == 11 then 13 else 0

abbrev depth_of : ℕ → ℕ
depth_of a = if a == 2000 then 1 else 2

abbrev owner_of : ℕ → ℕ
owner_of a = if a / 1000 == 1 then 1000 else a

abbrev three_heaps : World
three_heaps = record {
  shared = record {
    store = record {
      chunks = λ a. no_chunk;
      lists = λ a. record { first_chunk = 0; last_chunk = 0; used_size = 0; size = 4096 };
      nodes = λ a. record {
        representative = 0;
        payload = a * 100;
        dependant1 = first_of a;
        dependant2 = second_of a;
      };
    };
    conc = λ a. record { first_chunk = 0; last_chunk = 0 };
    bytes = λ a. 0;
  };
  heaps = λ a. record {
    uf_node = a / 100;
    depth = depth_of a;
    sub_heap_for_cc = for_of a;
    sub_heap_completed_cc = completed_of a;
    root_list = 0;
    snap_left = 1;
    snap_right = 1;
    snap_temp = 1;
    cc_state = if a == 1100 then done else unreg;
    stack = 1;
    additional_stack = 1;
    bytes_allocated = 0;
    bytes_survived = 0;
    next_ancestor = ancestor_of a;
    num_dependants = if a == 1000 then 3 else 0;
    height_dependants = if a == 1000 then 2 else 0;
  };
  freed_stacks = [];
}

abbrev leaf_thread : Thread
leaf_thread = record {
  hierarchical_heap = 1000;
  current_depth = 3;
  current_chunk = 0;
  decheck_state = 0;
  spare_heartbeat_tokens = 0;
  bytes_survived_last = 4096;
  bytes_allocated_since_last = 40960;
}

abbrev some_config : HhConfig
some_config = record {
  min_collection_size = 4096;
  threshold_num = 8;
  threshold_den = 1;
  min_cc_size = 1048576;
  max_cc_chain_length = 2;
  cc_threshold_num = 2;
  cc_threshold_den = 1;
}

abbrev three_dependants : Tree
three_dependants = node 11 (node 12 leaf leaf) (node 13 leaf leaf)

-- The dependants of 1000.
first_dependants : HasDependants three_heaps 1000 three_dependants
unfolding size height
first_dependants = record {
  not_null = omega arith;
  outside = omega arith;
  tree = omega arith;
  first = refl;
  second = refl;
  count = refl;
  tall = refl;
}

second_dependants : HasDependants three_heaps 3000 leaf
unfolding size height
second_dependants = record {
  not_null = omega arith;
  outside = tt;
  tree = tt;
  first = refl;
  second = refl;
  count = refl;
  tall = refl;
}

link_into_lem_example :
    HasDependants (link_into three_heaps 1000 3000) 1000 (node 30 leaf three_dependants)
    × ((nodes_of (link_into three_heaps 1000 3000) 30).representative ≡ 10)
unfolding size
link_into_lem_example =
    link_into_lem three_heaps 1000 3000 three_dependants leaf first_dependants second_dependants
      (omega arith) (omega arith) tt small
  where
    small : size (node 30 leaf three_dependants) < 2 ^ 64
    small = omega arith

free_all_dependants_lem_example :
    (v : World) × (free_all_dependants (λ n. n) 14 three_heaps 1000
      ≡ some (v, free_order three_dependants))
    × Distinct (free_order three_dependants)
    × (length (free_order three_dependants) ≡ 3)
    × HasDependants v 1000 leaf
unfolding size
free_all_dependants_lem_example =
    free_all_dependants_lem (λ n. n) 14 three_heaps 1000 three_dependants first_dependants
      (omega arith)

-- The node 12 is freed first, and 11 last.
dependants_order : free_order three_dependants ≡ 12 ∷ 13 ∷ 11 ∷ []
unfolding free_order
dependants_order = refl

-- The subheaps of the heaps.
first-Subs : Subs owner_of three_heaps 1000 (1100 ∷ 1200 ∷ []) (1300 ∷ [])
unfolding next_cc
first-Subs = record {
  head = refl;
  for = omega arith;
  completed = omega arith;
  distinct_for = omega arith;
  distinct_completed = (tt, tt);
  below_for = omega arith;
  below_completed = omega arith;
  empty_for = λ e. cc e;
  empty_completed = λ e. cc e;
}

second-Subs : Subs owner_of three_heaps 2000 [] []
unfolding next_cc
second-Subs = record {
  head = refl;
  for = refl;
  completed = refl;
  distinct_for = tt;
  distinct_completed = tt;
  below_for = tt;
  below_completed = tt;
  empty_for = λ e. e;
  empty_completed = λ e. e;
}

third-Subs : Subs owner_of three_heaps 3000 [] []
unfolding next_cc
third-Subs = record {
  head = refl;
  for = refl;
  completed = refl;
  distinct_for = tt;
  distinct_completed = tt;
  below_for = tt;
  below_completed = tt;
  empty_for = λ e. e;
  empty_completed = λ e. e;
}

link_cc_chains_lem_example :
    (v : World) × (link_cc_chains 2 three_heaps 3000 1000 ≡ some v)
    × Kept owner_of 3000 1000 three_heaps v
    × Chain (links for_cc v) (links for_cc v 3000) (1100 ∷ 1200 ∷ [])
    × Chain (links completed_cc v) (links completed_cc v 3000) (1300 ∷ [])
    × (links for_cc v 1000 ≡ 0)
    × (links completed_cc v 1000 ≡ 0)
    × All (λ c. (v.heaps c).depth ≡ 2) (1100 ∷ 1200 ∷ [])
    × All (λ c. (v.heaps c).depth ≡ 2) (1300 ∷ [])
link_cc_chains_lem_example =
    link_cc_chains_lem owner_of 3000 1000 2 three_heaps [] [] (1100 ∷ 1200 ∷ []) (1300 ∷ [])
      (omega arith) third-Subs first-Subs (omega arith) (omega arith)

-- The paths of 1000 and of 3000.
two_paths :
    Zippable 2 owner_of depth_of (λ a. a / 100) three_heaps (1000 ∷ 2000 ∷ []) (3000 ∷ []) none 0
two_paths = record {
  path1 = omega arith;
  path2 = omega arith;
  distinct1 = omega arith;
  distinct2 = (tt, tt);
  apart = omega arith;
  subs1 = (
    (1100 ∷ 1200 ∷ [], 1300 ∷ [], first-Subs, omega arith, omega arith),
    (([], [], second-Subs, omega arith, omega arith), tt),
  );
  subs2 = (([], [], third-Subs, omega arith, omega arith), tt);
  depth = λ a o. refl;
  node = λ a. refl;
  nodes = (tt, tt);
  at1 = tt;
  at2 = tt;
  ended = λ e. cc;
}

zip_lem_example :
    (v : World) × (hh : ℕ) × (zip 2 3 three_heaps 1000 3000 ≡ some (v, hh))
    × Chain (ancestors v) hh (merged depth_of (1000 ∷ 2000 ∷ []) (3000 ∷ []))
    × Descending depth_of (merged depth_of (1000 ∷ 2000 ∷ []) (3000 ∷ []))
    × ((a : ℕ) → owner_of a ≡ a → (v.heaps a).depth ≡ depth_of a)
    × All
        (λ (x, y). representatives v (y / 100) ≡ x / 100)
        (matched depth_of (1000 ∷ 2000 ∷ []) (3000 ∷ []))
    × ((a : ℕ)
        → Fresh a (1000 ∷ 2000 ∷ [])
        → Fresh a (3000 ∷ [])
        → ancestors v a ≡ ancestors three_heaps a)
zip_lem_example =
    zip_lem 2 3 owner_of depth_of (λ a. a / 100) three_heaps (1000 ∷ 2000 ∷ []) (3000 ∷ [])
      two_paths (omega arith) (tt, tt) (omega arith)

-- 3000 is united with 1000.
paths_merged : merged depth_of (1000 ∷ 2000 ∷ []) (3000 ∷ []) ≡ 1000 ∷ 2000 ∷ []
unfolding merged
paths_merged = refl

paths_matched : matched depth_of (1000 ∷ 2000 ∷ []) (3000 ∷ []) ≡ (1000, 3000) ∷ []
unfolding matched
paths_matched = refl

desired_collection_scope_lem_example :
    (depth : ℕ) × (desired_collection_scope 1 some_config three_heaps leaf_thread (some 1)
      ≡ some depth)
    × (((depth ≡ 4) × (declined some_config three_heaps leaf_thread 1 ≡ true))
        ⊎ (((a : ℕ) × IsOneOf a 1000 (2000 ∷ [])
            × (depth ≡ (three_heaps.heaps a).depth)
            × (1 ≤ depth))))
unfolding total_size
desired_collection_scope_lem_example =
    desired_collection_scope_lem 1 some_config three_heaps leaf_thread 1 (2000 ∷ []) (omega arith)
      (omega arith) (omega arith)

sort_subs_lem_example :
    (v : World) × (sort_subs 2 three_heaps 1000 1000 0 0
      ≡ some (
        v,
        count_done (states three_heaps) (1100 ∷ 1200 ∷ []),
        length (pending (states three_heaps) (1100 ∷ 1200 ∷ [])),
      ))
    × Chain (links for_cc v) (links for_cc v 1000) (pending (states three_heaps) (1100 ∷ 1200 ∷ []))
    × Chain
        (links completed_cc v)
        (links completed_cc v 1000)
        (finished (states three_heaps) (1100 ∷ 1200 ∷ []) (1300 ∷ []))
sort_subs_lem_example =
    sort_subs_lem 2 1000 three_heaps (1100 ∷ 1200 ∷ []) (1300 ∷ []) (first-Subs.for)
      (first-Subs.completed) (omega arith) (omega arith) (omega arith) (omega arith)

-- 1100 goes before 1300.
subs_sorted : finished (states three_heaps) (1100 ∷ 1200 ∷ []) (1300 ∷ []) ≡ 1100 ∷ 1300 ∷ []
unfolding finished
subs_sorted = refl

get_heap_at_depth_lem_example :
    let xs : List ℕ = 1000 ∷ 2000 ∷ [] in
    (v : World) × (t : Thread) × (get_heap_at_depth 1 2 three_heaps leaf_thread 50 5000 0
      ≡ some (v, t, heap_at depth_of 0 5000 xs))
    × ((v.heaps (heap_at depth_of 0 5000 xs)).depth ≡ 0)
    × Chain (ancestors v) t.hierarchical_heap (placed depth_of 0 5000 xs)
    × Descending (λ a. (v.heaps a).depth) (placed depth_of 0 5000 xs)
get_heap_at_depth_lem_example =
    get_heap_at_depth_lem 1 2 three_heaps leaf_thread 50 5000 0 (1000 ∷ 2000 ∷ []) (omega arith)
      (omega arith) (omega arith) (omega arith) (omega arith) (omega arith)

-- The new heap is at the end of the path.
heap_placed : placed depth_of 0 5000 (1000 ∷ 2000 ∷ []) ≡ 1000 ∷ 2000 ∷ 5000 ∷ []
unfolding placed
heap_placed = refl
