-- ===== src/Decheck/Tests.antt =====
-- Concrete tasks, and the witnesses of the theorems on forks, joins and checks.
use mpl.Base.{ℕ, ◌+◌, ◌≡◌, refl, List, [], ◌∷◌, some, true, false, ◌==◌, if◌then◌else◌, arith}
use mpl.Decheck.{
  Tid, Thread, tree_depth, dag_depth, norm_path, one_shl, lca_len, lca_heap_depth, fork_left,
  fork_right, join, set_tid, decheck_is_ordered,
}
use mpl.Decheck.Numbers.{IsTid}
use mpl.Decheck.Ancestors.{lca_heap_depth-lca_len}
use mpl.Decheck.Forks.{IsForked, fork_lem}
use mpl.Decheck.Checks.{decheck_is_ordered-fork, decheck_is_ordered-join}

-- The first task, and the two sides of its fork.
abbrev root : Tid
root = record { path = 1; depth = 0 }

abbrev left : Tid
left = record { path = 2; depth = 33 }

abbrev right : Tid
right = record { path = 3; depth = 33 }

abbrev no_syncs : List ℕ
no_syncs =
    0 ∷ 0 ∷ 0 ∷ 0 ∷ 0 ∷ 0 ∷ 0 ∷ 0 ∷ 0 ∷ 0 ∷ 0 ∷ 0 ∷ 0 ∷ 0 ∷ 0 ∷ 0 ∷ 0 ∷ 0 ∷ 0 ∷ 0 ∷ 0 ∷ 0 ∷ 0 ∷ 0
    ∷ 0 ∷ 0 ∷ 0 ∷ 0 ∷ 0 ∷ 0 ∷ 0 ∷ 0 ∷ []

abbrev start : Thread
start = record { state = root; sync_depths = no_syncs }

root-IsTid : IsTid root
unfolding tree_depth norm_path one_shl
root-IsTid = record { shallow = omega arith; marked = omega arith }

left-IsTid : IsTid left
unfolding tree_depth norm_path one_shl
left-IsTid = record { shallow = omega arith; marked = omega arith }

right-IsTid : IsTid right
unfolding tree_depth norm_path one_shl
right-IsTid = record { shallow = omega arith; marked = omega arith }

lca_heap_depth-lca_len_example : lca_heap_depth left right ≡ (
    if norm_path left == norm_path right
    then tree_depth left + 1
    else lca_len (norm_path left) (norm_path right) + 1)
lca_heap_depth-lca_len_example = lca_heap_depth-lca_len left right left-IsTid right-IsTid

fork_lem_example : IsForked left (fork_left left) 1 × IsForked left (fork_right left) 2
unfolding tree_depth
fork_lem_example = fork_lem left left-IsTid (omega arith) (omega arith)

decheck_is_ordered-fork_example :
    (after : Thread) × (set_tid start (fork_left root) ≡ some after)
    × (decheck_is_ordered after (fork_right root) ≡ some false)
    × (decheck_is_ordered after root ≡ some true)
unfolding tree_depth dag_depth
decheck_is_ordered-fork_example =
    decheck_is_ordered-fork root start root-IsTid (omega arith) (omega arith) refl refl

decheck_is_ordered-join_example :
    (after : Thread) × (join start left right ≡ some after)
    × (decheck_is_ordered after left ≡ some true)
unfolding tree_depth norm_path one_shl dag_depth
decheck_is_ordered-join_example =
    decheck_is_ordered-join root left right left 1 start root-IsTid left-IsTid right-IsTid
      (omega arith) refl refl refl refl left-IsTid (omega arith) (omega arith) refl (omega arith)
      (omega arith) refl
