-- ===== src/Heaps/Free.antt =====
-- `HM_HH_freeAllDependants` of runtime/gc/hierarchical-heap.c: the nodes below a representative are
-- freed without a stack, by inverting the pointers on the way down.
use mpl.Base.{ℕ, zero, suc, Option, none, some, List, [], ◌∷◌, ◌++◌, ◌==◌, if◌then◌else◌, ◌>>=◌}
use mpl.Base.Chain.{update}
use mpl.Chunks.{UnionFindNode}
use mpl.Heaps.{World, nodes_of, set_heap, with_store}

-- The nodes with the two variables of the loop, and the nodes freed so far, in their order.
pub record Walk : Type 0 where
  pub nodes : ℕ → UnionFindNode
  pub parent : ℕ
  pub child : ℕ
  pub freed : List ℕ

abbrev pub set_dependant1 : (ℕ → UnionFindNode) → (n v : ℕ) → ℕ → UnionFindNode
set_dependant1 nodes n v = update nodes n (record (nodes n) { dependant1 = v })

abbrev pub set_dependant2 : (ℕ → UnionFindNode) → (n v : ℕ) → ℕ → UnionFindNode
set_dependant2 nodes n v = update nodes n (record (nodes n) { dependant2 = v })

-- A round of the loop. `leave` is what freeFixedSize or HH_EBR_retire leave in a node that they are
-- given.
unfoldable pub walk_step : (leave : UnionFindNode → UnionFindNode) → Walk → Walk
walk_step leave k =
    let p = k.nodes k.parent in
    let c = k.nodes k.child in
    if k.child == 0
    then if p.dependant2 == 0
      then record k {
        child = k.parent;
        parent = p.dependant1;
        nodes = set_dependant1 k.nodes k.parent 0;
      }
      else record k { child = p.dependant2; nodes = set_dependant2 k.nodes k.parent 0 }
    else if c.dependant1 == 0
    then record k {
      child = c.dependant2;
      nodes = update k.nodes k.child (leave c);
      freed = k.freed ++ k.child ∷ [];
    }
    else record k {
      parent = k.child;
      child = c.dependant1;
      nodes = set_dependant1 k.nodes k.child k.parent;
    }

-- `while (parent != NULL)`
unfoldable pub walk : (leave : UnionFindNode → UnionFindNode) → (fuel : ℕ) → Walk → Option Walk
walk leave zero k = if k.parent == 0 then some k else none
walk leave (suc fuel) k =
    let rest = walk leave fuel (walk_step leave k) in if k.parent == 0 then some k else rest

-- `HM_HH_freeAllDependants`, with the nodes that it frees or retires, in their order.
unfoldable pub free_all_dependants :
    (leave : UnionFindNode → UnionFindNode)
    → (fuel : ℕ) → World
    → (hh : ℕ) → Option (World × List ℕ)
free_all_dependants leave fuel w hh =
    let parent = (w.heaps hh).uf_node in
    let start : Walk = record {
      nodes = set_dependant1 (nodes_of w) parent 0;
      parent = parent;
      child = (nodes_of w parent).dependant1;
      freed = [];
    } in
    walk leave fuel start >>= (λ end.
      let freed = with_store w (record (w.shared.store) { nodes = end.nodes }) in
      some (
        set_heap freed hh (record (w.heaps hh) { num_dependants = 0; height_dependants = 0 }),
        end.freed,
      ))
