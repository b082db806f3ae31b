-- ===== src/Decheck/Checks.antt =====
-- The answers of decheckIsOrdered of runtime/gc/decheck.c after a fork and after its join.
use mpl.Base.{
  ℕ, ◌+◌, ◌*◌, ◌^◌, ◌≤◌, ◌<◌, ◌≡◌, refl, ap, sym, subst, ◌∙◌, true, false, leb, max, some, length,
  get_or, set, get_or-set_self, get_or-set_ne, ◌≢◌, arith,
}
use mpl.Decheck.{
  Tid, Thread, tree_depth, dag_depth, norm_path, lca_loop, fork_left, fork_right, set_tid,
  set_sync_depth, joined, join, decheck_is_ordered,
}
use mpl.Decheck.Numbers.{IsTid}
use mpl.Decheck.Ancestors.{shorter}
use mpl.Decheck.Paths.{marked_path}
use mpl.Decheck.Forks.{fork_lem, join_lem}
use mpl.Decheck.Order.{IsAt, IsAt-itself, IsAt-side, tops-lt, ordered_below}

-- The side of a fork that the current thread goes on with.
record OnLeft (t : Tid) (thread : Thread) : Type 0 where
  state : thread.state ≡ fork_left t
  sync : get_or thread.sync_depths (tree_depth t) 0 ≡ dag_depth t

forked_right :
    (t : Tid) (thread : Thread)
    → IsTid t
    → tree_depth t ≤ 29
    → t.depth + 33 < 2 ^ 32
    → OnLeft t thread
    → decheck_is_ordered thread (fork_right t) ≡ some false
unfolding lca_loop
forked_right t thread is small room on =
    let (left, right) = fork_lem t is small room in
    let state = on.state in
    let at_left =
      subst (λ x. IsAt t x 2) (sym state) (IsAt-side t (fork_left t) 1 is left.extended) in
    let at_right = IsAt-side t (fork_right t) 2 is right.extended in
    let valid = subst IsTid (sym state) left.valid in
    let d1 = left.deeper in
    let d2 = right.deeper in
    let d3 : tree_depth thread.state ≡ tree_depth t + 1 = ap tree_depth state ∙ d1 in
    let len : shorter (fork_right t) thread.state ≡ tree_depth t + 1 = ground (arith, d2, d3) in
    let apart = tops-lt t thread.state (fork_right t) 2 3 at_left at_right (omega arith) in
    let above = tops-lt t t (fork_right t) 1 3 (IsAt-itself t is) at_right (omega arith) in
    let later = right.later in
    let sync = on.sync in
    ordered_below t (fork_right t) thread 3 2 1 is right.valid valid at_right at_left len refl
    ∙ ground (arith, apart, above, later, sync)

forked_parent :
    (t : Tid) (thread : Thread)
    → IsTid t
    → tree_depth t ≤ 29
    → t.depth + 33 < 2 ^ 32
    → OnLeft t thread
    → decheck_is_ordered thread t ≡ some true
unfolding lca_loop
forked_parent t thread is small room on =
    let (left, right) = fork_lem t is small room in
    let state = on.state in
    let at_left =
      subst (λ x. IsAt t x 2) (sym state) (IsAt-side t (fork_left t) 1 is left.extended) in
    let valid = subst IsTid (sym state) left.valid in
    let d1 = left.deeper in
    let d3 : tree_depth thread.state ≡ tree_depth t + 1 = ap tree_depth state ∙ d1 in
    let len : shorter t thread.state ≡ tree_depth t + 0 = ground (arith, d3) in
    ordered_below t t thread 1 2 0 is is valid (IsAt-itself t is) at_left len refl ∙ ground arith

-- After a fork, with the left side set as the current task: what the right side allocates is not
-- ordered before it, so that the check reports it, and what the forked task allocated is ordered.
pub decheck_is_ordered-fork :
    (t : Tid) (thread : Thread)
    → IsTid t
    → tree_depth t ≤ 29
    → t.depth + 33 < 2 ^ 32
    → length thread.sync_depths ≡ 32
    → get_or thread.sync_depths (tree_depth t) 0 ≡ dag_depth t
    → (after : Thread) × (set_tid thread (fork_left t) ≡ some after)
      × (decheck_is_ordered after (fork_right t) ≡ some false)
      × (decheck_is_ordered after t ≡ some true)
unfolding set_tid set_sync_depth
decheck_is_ordered-fork t thread is small room size sync =
    let left = tree_depth (fork_left t) in
    let (forked, _) = fork_lem t is small room in
    let deeper = forked.deeper in
    let fits : leb 32 left ≡ false = ground (arith, deeper, small) in
    let other : left ≢ tree_depth t = λ e. absurd (omega (arith, deeper, e)) in
    let after : Thread = record {
      state = fork_left t;
      sync_depths = set thread.sync_depths left (dag_depth (fork_left t));
    } in
    let on : OnLeft t after = record {
      state = refl;
      sync = get_or-set_ne thread.sync_depths (dag_depth (fork_left t)) 0 other ∙ sync;
    } in
    (
      after,
      rw (fits, set_tid, set_sync_depth) refl,
      forked_right t after is small room on,
      forked_parent t after is small room on,
    )

joined_side :
    (t c : Tid) (thread : Thread) (bits : ℕ)
    → IsTid t
    → IsTid c
    → IsTid thread.state
    → 1 ≤ bits
    → tree_depth t + 1 ≤ tree_depth c
    → norm_path c ≡ norm_path t + bits * 2 ^ tree_depth t
    → tree_depth thread.state ≡ tree_depth t
    → norm_path thread.state ≡ norm_path t
    → dag_depth c ≤ get_or thread.sync_depths (tree_depth t) 0
    → decheck_is_ordered thread c ≡ some true
unfolding lca_loop
joined_side t c thread bits is isc iss some_bit deeper path depth same known =
    let at_c = IsAt-side t c bits is path in
    let mark = marked_path t is in
    let at_t : IsAt t thread.state 1 = record { path = omega (arith, same, mark) } in
    let len : shorter c thread.state ≡ tree_depth t + 0 = ground (arith, deeper, depth) in
    let apart = tops-lt t t c 1 (bits + 1) (IsAt-itself t is) at_c (omega (arith, some_bit)) in
    ordered_below t c thread (bits + 1) 1 0 is isc iss at_c at_t len refl
    ∙ ground (arith, apart, same, known)

-- After the join of the two sides of a fork, every task below the forked one in the tree that is not
-- later in the graph than the later side is ordered before the joined task.
pub decheck_is_ordered-join :
    (t l r c : Tid) (bits : ℕ) (thread : Thread)
    → IsTid t
    → IsTid l
    → IsTid r
    → tree_depth t ≤ 29
    → tree_depth l ≡ tree_depth t + 1
    → tree_depth r ≡ tree_depth t + 1
    → norm_path l ≡ norm_path t + 2 ^ tree_depth t
    → norm_path r ≡ norm_path t + 2 * 2 ^ tree_depth t
    → IsTid c
    → 1 ≤ bits
    → tree_depth t + 1 ≤ tree_depth c
    → norm_path c ≡ norm_path t + bits * 2 ^ tree_depth t
    → dag_depth c ≤ max (dag_depth l) (dag_depth r)
    → (max (dag_depth l) (dag_depth r) + 2) * 32 < 2 ^ 32
    → length thread.sync_depths ≡ 32
    → (after : Thread) × (join thread l r ≡ some after) × (decheck_is_ordered after c ≡ some true)
unfolding join set_sync_depth
decheck_is_ordered-join t l r c bits thread is isl isr small dl dr pl pr isc some_bit deeper
      extended early room size =
    let (valid, depth, path, dag) = join_lem t l r is small dl pl room in
    let h = tree_depth (joined l r) in
    let dd = max (dag_depth l) (dag_depth r) + 1 in
    let fits : leb 32 h ≡ false = ground (arith, depth, small) in
    let after : Thread = record { state = joined l r; sync_depths = set thread.sync_depths h dd } in
    let there : get_or after.sync_depths (tree_depth t) 0 ≡ dd =
      ap (λ x. get_or after.sync_depths x 0) (sym depth)
      ∙ get_or-set_self thread.sync_depths h dd 0 (omega (arith, depth, small, size)) in
    (
      after,
      rw (fits, join, set_sync_depth) refl,
      joined_side t c after bits is isc valid some_bit deeper extended depth path
          (omega (arith, there, early)),
    )
