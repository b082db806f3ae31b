-- ===== src/Decheck/Order.antt =====
-- What decheckIsOrdered of runtime/gc/decheck.c answers along a fork and its join.
use native.Mathlib.Nat.{
  pow-suc, one-le-pow, mod-lt, mod-eq_of_lt, add-mul-mod_self_left, mul-le-mul_right,
}
use mpl.Base.{
  ℕ, zero, suc, ◌+◌, ◌-◌, ◌*◌, ◌/◌, ◌%◌, ◌^◌, ◌≤◌, ◌<◌, ◌≡◌, refl, ap, ap₂, ◌∙◌, true, false, ◌==◌,
  leb, if◌then◌else◌, eq→==, bit_and, bit_or, some, get_or, arith,
}
use mpl.Base.Bits.{double_pow, bit_and_mask, bit_or_comm, bit_or_sum}
use mpl.Decheck.{
  Tid, Thread, tree_depth, dag_depth, norm_path, lca_loop, get_sync_depth, decheck_is_ordered,
}
use mpl.Decheck.Numbers.{IsTid}
use mpl.Decheck.Lowest.{bit_index-pow}
use mpl.Decheck.Ancestors.{shorter, lca_bit_lem}
use mpl.Decheck.Paths.{marked_path}

-- Paths that agree below bit `h` part above it where what is above parts.
lca_loop_shared :
    (h m k a b r : ℕ)
    → k ≡ h + m
    → r < 2 ^ h
    → lca_loop k (a * 2 ^ h + r) (b * 2 ^ h + r) ≡ h + lca_loop m a b
unfolding lca_loop
lca_loop_shared zero m k a b r e l =
    let same : k ≡ m = omega (arith, e) in
    let left : a * 2 ^ 0 + r ≡ a = omega (arith, l) in
    let right : b * 2 ^ 0 + r ≡ b = omega (arith, l) in
    ap (λ x. lca_loop x (a * 2 ^ 0 + r) (b * 2 ^ 0 + r)) same
    ∙ ap₂ (lca_loop m) left right
    ∙ omega arith
lca_loop_shared (suc h) m zero a b r e l = absurd (omega (arith, e))
lca_loop_shared (suc h) m (suc k) a b r e l =
    let power = pow-suc 2 h in
    let p = a * 2 ^ suc h + r in
    let q = b * 2 ^ suc h + r in
    let da = double_pow a h in
    let db = double_pow b h in
    let low : (bit_and p 1 == bit_and q 1) ≡ true =
      eq→== (bit_and p 1) (bit_and q 1)
        (omega (arith, bit_and_mask 1 p, bit_and_mask 1 q, da, db)) in
    let left : p / 2 ≡ a * 2 ^ h + r / 2 = omega (arith, da) in
    let right : q / 2 ≡ b * 2 ^ h + r / 2 = omega (arith, db) in
    let before = lca_loop_shared h m k a b (r / 2) (omega (arith, e)) (omega (arith, l, power)) in
    rw (low, left, right, before, lca_loop) (omega arith)

-- The answer, by the length of the common prefix.
is_ordered_value :
    (thread : Thread) (t1 : Tid) (len : ℕ)
    → IsTid t1
    → IsTid thread.state
    → lca_loop (shorter t1 thread.state) (norm_path t1) (norm_path thread.state) ≡ len
    → len ≤ 30
    → decheck_is_ordered thread t1 ≡ (
        if norm_path t1 == norm_path thread.state
        then some true
        else if norm_path t1 == norm_path t1 % 2 ^ len + 2 ^ len
        then some true
        else some (leb (dag_depth t1) (get_or thread.sync_depths len 0)))
unfolding decheck_is_ordered get_sync_depth
is_ordered_value thread t1 len is1 is2 eq small =
    let bit = lca_bit_lem t1 thread.state is1 is2 ∙ ap (λ k. 2 ^ k) eq in
    let index = bit_index-pow 32 len (omega (arith, small)) in
    let p = norm_path t1 in
    let positive = one-le-pow len 2 (omega arith) in
    let less = mod-lt p positive in
    let one : 2 ^ len - 1 + 1 ≡ 1 * 2 ^ len = omega (arith, positive) in
    let part = bit_and_mask len p in
    let path : bit_or (bit_and p (2 ^ len - 1)) (2 ^ len - 1 + 1) ≡ p % 2 ^ len + 2 ^ len =
      ap₂ bit_or part one
      ∙ bit_or_comm (p % 2 ^ len) (1 * 2 ^ len)
      ∙ bit_or_sum len 1 (p % 2 ^ len) less
      ∙ omega arith in
    let fits : leb 32 len ≡ false = ground (arith, small) in
    rw (bit, index, path, fits, decheck_is_ordered, get_sync_depth) refl

-- A task at the place of `t` in the tree, or of a side of a fork of `t`: its path below the mark of `t`
-- is that of `t`, and `top` is what stands from there on.
pub record IsAt (t c : Tid) (top : ℕ) : Type 0 where
  pub path : norm_path c ≡ top * 2 ^ tree_depth t + t.path % 2 ^ tree_depth t

pub IsAt-itself : (t : Tid) → IsTid t → IsAt t t 1
IsAt-itself t is = let value = marked_path t is in record { path = omega (arith, value) }

pub IsAt-side :
    (t c : Tid) (bits : ℕ)
    → IsTid t
    → norm_path c ≡ norm_path t + bits * 2 ^ tree_depth t
    → IsAt t c (bits + 1)
IsAt-side t c bits is extended =
    let value = marked_path t is in
    let more : (bits + 1) * 2 ^ tree_depth t ≡ bits * 2 ^ tree_depth t + 2 ^ tree_depth t =
      grind arith in
    record { path = omega (arith, value, extended, more) }

common :
    (t c d : Tid) (a b m : ℕ)
    → IsAt t c a
    → IsAt t d b
    → shorter c d ≡ tree_depth t + m
    → lca_loop (shorter c d) (norm_path c) (norm_path d) ≡ tree_depth t + lca_loop m a b
common t c d a b m at1 at2 len =
    let positive = one-le-pow (tree_depth t) 2 (omega arith) in
    ap₂ (lca_loop (shorter c d)) at1.path at2.path
    ∙ lca_loop_shared (tree_depth t) m (shorter c d) a b (t.path % 2 ^ tree_depth t) len
        (mod-lt t.path positive)

-- The path of `t`, cut at its mark, is the part that all the paths share.
cut_path :
    (t c : Tid) (a : ℕ)
    → IsAt t c a
    → norm_path c % 2 ^ tree_depth t + 2 ^ tree_depth t
      ≡ 1 * 2 ^ tree_depth t + t.path % 2 ^ tree_depth t
cut_path t c a at =
    let h = tree_depth t in
    let r = t.path % 2 ^ h in
    let less = mod-lt t.path (one-le-pow h 2 (omega arith)) in
    let turn : a * 2 ^ h + r ≡ r + 2 ^ h * a = grind arith in
    let low : norm_path c % 2 ^ h ≡ r =
      ap (λ x. x % 2 ^ h) (at.path ∙ turn)
      ∙ add-mul-mod_self_left r (2 ^ h) a
      ∙ mod-eq_of_lt less in
    omega (arith, low)

pub tops-lt : (t c d : Tid) (a b : ℕ) → IsAt t c a → IsAt t d b → a < b → norm_path c < norm_path d
tops-lt t c d a b at1 at2 less =
    let positive = one-le-pow (tree_depth t) 2 (omega arith) in
    let rows : (a + 1) * 2 ^ tree_depth t ≤ b * 2 ^ tree_depth t =
      mul-le-mul_right (2 ^ tree_depth t) (omega (arith, less)) in
    let next : (a + 1) * 2 ^ tree_depth t ≡ a * 2 ^ tree_depth t + 2 ^ tree_depth t = grind arith in
    let p1 = at1.path in let p2 = at2.path in omega (arith, rows, next, p1, p2, positive)

plus_zero : (h : ℕ) → h + 0 ≡ h
plus_zero h = omega arith

-- The answer for a task whose path agrees with the current one below the mark of `t`.
pub ordered_below :
    (t c : Tid) (thread : Thread) (a b m : ℕ)
    → IsTid t
    → IsTid c
    → IsTid thread.state
    → IsAt t c a
    → IsAt t thread.state b
    → shorter c thread.state ≡ tree_depth t + m
    → lca_loop m a b ≡ 0
    → decheck_is_ordered thread c ≡ (
        if norm_path c == norm_path thread.state
        then some true
        else if norm_path c == norm_path t
        then some true
        else some (leb (dag_depth c) (get_or thread.sync_depths (tree_depth t) 0)))
ordered_below t c thread a b m is isc iss at1 at2 len parts =
    let h = tree_depth t in
    let small = is.shallow in
    let prefix = common t c thread.state a b m at1 at2 len ∙ ap (λ x. h + x) parts ∙ plus_zero h in
    let cut = cut_path t c a at1 in
    let value = marked_path t is in
    let place : norm_path c % 2 ^ h + 2 ^ h ≡ norm_path t = omega (arith, cut, value) in
    is_ordered_value thread c h isc iss prefix small
    ∙ ap
        (λ x.
          if norm_path c == norm_path thread.state
          then some true
          else if norm_path c == x
          then some true
          else some (leb (dag_depth c) (get_or thread.sync_depths h 0)))
        place
