-- ===== src/Heaps.antt =====
-- runtime/gc/hierarchical-heap.c and .h: the heaps of a thread, one for each depth of its path, linked
-- from the deepest up by `nextAncestor`, with the union-find nodes that stand for them. A heap is known
-- by its address, and 0 is NULL; the chunk lists and the remembered set within it by theirs.
pub mod Links
pub mod Zip
pub mod Levels
pub mod Scope
pub mod ScopeLaws
pub mod Completed
pub mod Sorting
pub mod Ascent
pub mod PathOrder
pub mod Free
pub mod Dependants
pub mod Traversal
pub mod FreeAll
pub mod Kept
pub mod Subchains
pub mod Linking
pub mod Merged
pub mod Steady
pub mod Cursor
pub mod Rounds
pub mod Zipped
pub mod Joins
mod Tests
use mpl.Base.{
  ℕ, zero, suc, ◌+◌, ◌%◌, ◌^◌, Bool, true, false, not, ◌&&◌, some, List, [], ◌∷◌, ◌==◌, ltb,
  if◌then◌else◌,
}
use mpl.Base.Chain.{update}
use mpl.Chunks.{Store, UnionFindNode, init_chunk_list}
use mpl.Chunks.Lists.{append_chunk_list}
use mpl.ConcLists.{ConcList, Shared}
use mpl.ConcLists.RemSets.{init_rem_set}

-- `enum CCState`
pub data CcState : Type 0 where
  unreg : CcState
  reg : CcState
  collecting : CcState
  done : CcState

abbrev pub is_done : CcState → Bool
is_done done = true
is_done unreg = false
is_done reg = false
is_done collecting = false

-- `struct HM_HierarchicalHeap` with its `ConcurrentPackage`, apart from the lists within it and from
-- `shouldCollect`, which nothing reads or writes.
pub record Heap : Type 0 where
  pub uf_node : ℕ
  pub depth : ℕ
  pub sub_heap_for_cc : ℕ
  pub sub_heap_completed_cc : ℕ
  pub root_list : ℕ
  pub snap_left : ℕ
  pub snap_right : ℕ
  pub snap_temp : ℕ
  pub cc_state : CcState
  pub stack : ℕ
  pub additional_stack : ℕ
  pub bytes_allocated : ℕ
  pub bytes_survived : ℕ
  pub next_ancestor : ℕ
  pub num_dependants : ℕ
  pub height_dependants : ℕ

-- The places of `chunkList`, `rememberedSet` and `entanglementSuspects` in a heap.
abbrev pub chunk_list_of : ℕ → ℕ
chunk_list_of hh = hh + 16

abbrev pub rem_set_of : ℕ → ℕ
rem_set_of hh = hh + 64

abbrev pub suspects_of : ℕ → ℕ
suspects_of hh = hh + 224

-- The memory that the operations share. `freed_stacks` are the stacks that `CC_freeStack` has freed.
pub record World : Type 0 where
  pub shared : Shared
  pub heaps : ℕ → Heap
  pub freed_stacks : List ℕ

abbrev pub set_heap : World → ℕ → Heap → World
set_heap w hh v = record w { heaps = update w.heaps hh v }

abbrev pub nodes_of : World → ℕ → UnionFindNode
nodes_of w = w.shared.store.nodes

abbrev pub with_store : World → Store → World
with_store w s = record w { shared = record (w.shared) { store = s } }

abbrev pub set_node : World → ℕ → UnionFindNode → World
set_node w n v = with_store w (record (w.shared.store) { nodes = update (nodes_of w) n v })

abbrev pub set_next_ancestor : World → ℕ → ℕ → World
set_next_ancestor w hh v = set_heap w hh (record (w.heaps hh) { next_ancestor = v })

abbrev pub set_depth : World → ℕ → ℕ → World
set_depth w hh d = set_heap w hh (record (w.heaps hh) { depth = d })

-- `HM_HH_isLevelHead`
unfoldable pub is_level_head : World → ℕ → Bool
is_level_head w hh =
    let uf = (w.heaps hh).uf_node in
    not (hh == 0)
    && not (uf == 0)
    && (nodes_of w uf).payload == hh
    && (nodes_of w uf).representative == 0

-- `CC_freeStack` on the package of a heap.
unfoldable pub free_stack : World → ℕ → World
free_stack w hh =
    let h = w.heaps hh in
    let freed = set_heap w hh (record h { root_list = 0 }) in
    if h.root_list == 0 then w else record freed { freed_stacks = h.root_list ∷ w.freed_stacks }

-- `CC_initStack`, where `malloc` returns `fresh`.
unfoldable pub init_stack : World → (hh fresh : ℕ) → World
init_stack w hh fresh =
    if (w.heaps hh).root_list == 0
    then set_heap w hh (record (w.heaps hh) { root_list = fresh })
    else w

-- `HM_HH_new`, where the allocators return `uf` and `hh`, and `bogus` is BOGUS_OBJPTR. Of the package
-- `snapTemp` is not written.
unfoldable pub new_heap : (bogus : ℕ) → World → (uf hh depth : ℕ) → World
unfolding init_rem_set
new_heap bogus w uf hh depth =
    let made =
      set_node w uf record { representative = 0; payload = hh; dependant1 = 0; dependant2 = 0 } in
    let filled = set_heap made hh record {
      uf_node = uf;
      depth = depth;
      sub_heap_for_cc = 0;
      sub_heap_completed_cc = 0;
      root_list = 0;
      snap_left = bogus;
      snap_right = bogus;
      snap_temp = (w.heaps hh).snap_temp;
      cc_state = unreg;
      stack = bogus;
      additional_stack = bogus;
      bytes_allocated = 0;
      bytes_survived = 0;
      next_ancestor = 0;
      num_dependants = 0;
      height_dependants = 0;
    } in
    let listed = with_store filled (init_chunk_list filled.shared.store (chunk_list_of hh)) in
    let remembering = record listed { shared = init_rem_set listed.shared (rem_set_of hh) } in
    with_store remembering (init_chunk_list remembering.shared.store (suspects_of hh))

-- `ES_move` of runtime/gc/entanglement-suspects.c
unfoldable pub es_move : World → (list1 list2 : ℕ) → World
es_move w list1 list2 =
    with_store w (init_chunk_list (append_chunk_list w.shared.store list1 (some list2)) list2)

-- `linkInto`: the node of the right heap gets that of the left one as its representative, and becomes
-- its one dependant, with the dependants that the left one had as its second.
unfoldable pub link_into : World → (left right : ℕ) → World
link_into w left right =
    let l = (w.heaps left).uf_node in
    let r = (w.heaps right).uf_node in
    let linked =
      set_node w r
        (record (nodes_of w r) { representative = l; dependant2 = (nodes_of w l).dependant1 }) in
    let held = set_node linked l (record (nodes_of linked l) { dependant1 = r }) in
    let lh = (w.heaps left).height_dependants in
    let rh = (w.heaps right).height_dependants in
    set_heap held left (record (w.heaps left) {
      num_dependants =
          ((w.heaps left).num_dependants + 1 + (w.heaps right).num_dependants) % 2 ^ 64;
      height_dependants = (1 + (if ltb rh lh then lh else rh)) % 2 ^ 64;
    })
