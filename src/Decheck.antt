-- ===== src/Decheck.antt =====
-- runtime/gc/decheck.c under DETECT_ENTANGLEMENT: tasks are named by their path in the tree of forks
-- and by their depth in the graph of forks and joins.
pub mod Numbers
pub mod Lowest
pub mod Paths
pub mod Forks
pub mod Ancestors
pub mod Order
pub mod Checks
mod Tests
use mpl.Base.{
  ℕ, zero, suc, ◌+◌, ◌-◌, ◌*◌, ◌/◌, ◌%◌, ◌^◌, ◌≡◌, Bool, true, false, not, ◌&&◌, ◌||◌, Option, none,
  some, List, [], ◌∷◌, length, get_or, set, ◌==◌, ltb, leb, if◌then◌else◌, min, max, bit_and,
  bit_or, bit_xor,
}

-- `decheck_tid_t`, by its two fields.
pub record Tid : Type 0 where
  pub path : ℕ
  pub depth : ℕ

-- The part of `struct GC_thread` that the checks use.
pub record Thread : Type 0 where
  pub state : Tid
  pub sync_depths : List ℕ

abbrev pub max_fork_depth : ℕ
max_fork_depth = 31

abbrev pub depths_len : ℕ
depths_len = 32

-- `1 << n` on 32 bits. C leaves a shift by 32 undefined; the scheduler forks below `max_fork_depth`
-- only, where none happens.
unfoldable pub one_shl : ℕ → ℕ
one_shl n = 2 ^ (n % 32)

-- `(1 << n) - 1`
abbrev pub mask : ℕ → ℕ
mask n = (2 ^ 32 + one_shl n - 1) % 2 ^ 32

-- `bits == DECHECK_BOGUS_BITS`
pub is_bogus : Tid → Bool
is_bogus tid = tid.path == 0 && tid.depth == 0

unfoldable pub tree_depth : Tid → ℕ
tree_depth tid = bit_and (tid.depth) 0x1f

unfoldable pub dag_depth : Tid → ℕ
dag_depth tid = tid.depth / 2 ^ 5

unfoldable pub norm_path : Tid → ℕ
norm_path tid = bit_and (tid.path) (mask (tree_depth tid + 1))

-- `decheckInit`
pub decheck_init : Thread → Thread
decheck_init thread = record thread { state = record { path = 1; depth = 0 } }

-- `decheckSetSyncDepth`; `none` is the exit by DIE.
unfoldable pub set_sync_depth : Thread → (path_len sync_depth : ℕ) → Option Thread
set_sync_depth thread path_len sync_depth =
    if leb depths_len path_len
    then none
    else some (record thread { sync_depths = set thread.sync_depths path_len sync_depth })

unfoldable pub get_sync_depth : Thread → (path_len : ℕ) → Option ℕ
get_sync_depth thread path_len =
    if leb depths_len path_len then none else some (get_or thread.sync_depths path_len 0)

-- The two results of `GC_HH_decheckFork`.
unfoldable pub fork_left : Tid → Tid
fork_left tid =
    let h = tree_depth tid in
    record {
      path = bit_or (bit_and (tid.path) (2 ^ 32 - 1 - one_shl h)) (one_shl (h + 1));
      depth = (tid.depth + one_shl 5 + 1) % 2 ^ 32;
    }

unfoldable pub fork_right : Tid → Tid
fork_right tid =
    let h = tree_depth tid in
    record {
      path = bit_or (bit_or (tid.path) (one_shl h)) (one_shl (h + 1));
      depth = (tid.depth + one_shl 5 + 1) % 2 ^ 32;
    }

-- `GC_HH_decheckSetTid`
unfoldable pub set_tid : Thread → Tid → Option Thread
set_tid thread tid = set_sync_depth (record thread { state = tid }) (tree_depth tid) (dag_depth tid)

-- The identifier that `GC_HH_decheckJoin` makes.
unfoldable pub joined : (t1 t2 : Tid) → Tid
joined t1 t2 =
    let td = tree_depth t1 - 1 in
    let dd = max (dag_depth t1) (dag_depth t2) + 1 in
    record { path = bit_or (t1.path) (one_shl td); depth = (dd * 2 ^ 5 + td) % 2 ^ 32 }

-- `GC_HH_decheckJoin`
unfoldable pub join : Thread → (t1 t2 : Tid) → Option Thread
join thread t1 t2 =
    let tid = joined t1 t2 in
    set_sync_depth (record thread { state = tid }) (tree_depth tid)
      (max (dag_depth t1) (dag_depth t2) + 1)

-- The loop of `msbPosition`, which ends within 32 rounds on a word other than 0.
unfoldable pub msb_position : (fuel : ℕ) → (x : ℕ) → ℕ
msb_position zero x = 0
msb_position (suc fuel) x = let rest = msb_position fuel (x / 2) in if x == 1 then 0 else suc rest

-- The loop of `lcaLen` with `left` bits ahead.
unfoldable pub lca_loop : (left p1 p2 : ℕ) → ℕ
lca_loop zero p1 p2 = 0
lca_loop (suc left) p1 p2 =
    let rest = lca_loop left (p1 / 2) (p2 / 2) in
    if bit_and p1 1 == bit_and p2 1 then suc rest else 0

unfoldable pub lca_len : (p1 p2 : ℕ) → ℕ
lca_len p1 p2 =
    let p1len = msb_position 32 p1 in
    let p2len = msb_position 32 p2 in lca_loop (if ltb p1len p2len then p1len else p2len) p1 p2

-- `__builtin_ctz` on a word of at most `fuel` bits, other than 0.
unfoldable pub bit_index : (fuel : ℕ) → (x : ℕ) → ℕ
bit_index zero x = 0
bit_index (suc fuel) x = let rest = bit_index fuel (x / 2) in if x % 2 == 1 then 0 else suc rest

-- `lca_bit` of `lcaHeapDepth` and of `decheckIsOrdered`.
unfoldable pub lca_bit : (t1 t2 : Tid) → ℕ
lca_bit t1 t2 =
    let shared_mask = bit_and (mask (tree_depth t1)) (mask (tree_depth t2)) in
    let x =
      bit_or (bit_and (bit_xor (norm_path t1) (norm_path t2)) shared_mask)
        ((shared_mask + 1) % 2 ^ 32) in
    bit_and x ((2 ^ 32 - x) % 2 ^ 32)

unfoldable pub lca_heap_depth : (t1 t2 : Tid) → ℕ
lca_heap_depth t1 t2 =
    if norm_path t1 == norm_path t2 then tree_depth t1 + 1 else bit_index 32 (lca_bit t1 t2) + 1

-- `decheckIsOrdered`
unfoldable pub decheck_is_ordered : Thread → (t1 : Tid) → Option Bool
decheck_is_ordered thread t1 =
    let bit = lca_bit t1 thread.state in
    let lca_path = bit_or (bit_and (norm_path t1) (bit - 1)) (bit - 1 + 1) in
    if norm_path t1 == norm_path thread.state
    then some true
    else if norm_path t1 == lca_path
    then some true
    else elim (get_sync_depth thread (bit_index 32 bit)) [
      | none ↦ none
      | some sync_depth ↦ some (leb (dag_depth t1) sync_depth)
    ]

-- `decheck`, where `thread` is the current thread if there is one, and `allocator` is the state of
-- the chunk of the pointer, if it is a pointer into a chunk.
pub decheck :
    (manage_entanglement : Bool) → (thread : Option Thread) → (allocator : Option Tid) → Option Bool
decheck manage_entanglement none allocator = some true
decheck manage_entanglement (some thread) none = some true
decheck manage_entanglement (some thread) (some allocator) =
    if not manage_entanglement || is_bogus thread.state || is_bogus allocator
    then some true
    else decheck_is_ordered thread allocator

-- `GC_HH_copySyncDepthsFromThread`, which copies all the depths.
pub copy_sync_depths : (from_thread to_thread : Thread) → (steal_depth : ℕ) → Option Thread
copy_sync_depths from_thread to_thread steal_depth =
    if ltb depths_len steal_depth
    then none
    else some (record to_thread { sync_depths = from_thread.sync_depths })
