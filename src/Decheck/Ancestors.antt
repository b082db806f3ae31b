-- ===== src/Decheck/Ancestors.antt =====
-- The depth of the least common ancestor of two tasks, as runtime/gc/decheck.c computes it by masks.
use native.Mathlib.Nat.{one-le-pow, mod-lt}
use mpl.Base.{
  ℕ, zero, suc, ◌+◌, ◌-◌, ◌*◌, ◌/◌, ◌%◌, ◌^◌, ◌≤◌, ◌<◌, ◌≡◌, refl, ap, ap₂, sym, ◌∙◌, ◌==◌, ltb,
  if◌then◌else◌, Bool-cases, inl, inr, bit_and, bit_or, bit_xor, arith,
}
use mpl.Base.Bits.{bit_and_mask, bit_or_comm, bit_or_sum}
use mpl.Decheck.{Tid, mask, tree_depth, norm_path, lca_loop, lca_len, lca_bit, lca_heap_depth}
use mpl.Decheck.Numbers.{IsTid, pow_mono, mask_value, norm_path-bound, msb_position_lem, shared}
use mpl.Decheck.Lowest.{lowest_bit, bit_index-pow, bit_index-xor}

pub lca_loop-bound : (m p q : ℕ) → lca_loop m p q ≤ m
unfolding lca_loop
lca_loop-bound zero p q = omega arith
lca_loop-bound (suc m) p q =
    let before = lca_loop-bound m (p / 2) (q / 2) in
    elim (Bool-cases (bit_and p 1 == bit_and q 1)) [
      | inl e ↦ rw (e, lca_loop) (omega (arith, before))
      | inr e ↦ rw (e, lca_loop) (omega arith)
    ]

-- The smaller of the two tree depths.
abbrev pub shorter : (t1 t2 : Tid) → ℕ
shorter t1 t2 = if ltb (tree_depth t1) (tree_depth t2) then tree_depth t1 else tree_depth t2

shorter-bound : (t1 t2 : Tid) → IsTid t1 → IsTid t2 → shorter t1 t2 ≤ 30
shorter-bound t1 t2 is1 is2 = let a = is1.shallow in let b = is2.shallow in ground (arith, a, b)

-- The lengths of the paths are the tree depths.
pub lca_len_lem :
    (t1 t2 : Tid)
    → IsTid t1
    → IsTid t2
    → lca_len (norm_path t1) (norm_path t2) ≡ lca_loop (shorter t1 t2) (norm_path t1) (norm_path t2)
unfolding lca_len
lca_len_lem t1 t2 is1 is2 =
    let a = is1.shallow in
    let b = is2.shallow in
    let l1 =
      msb_position_lem 32 (tree_depth t1) (norm_path t1) is1.marked (norm_path-bound t1 a)
        (omega (arith, a)) in
    let l2 =
      msb_position_lem 32 (tree_depth t2) (norm_path t2) is2.marked (norm_path-bound t2 b)
        (omega (arith, b)) in
    rw (l1, l2) refl

-- The bit at which the masks find the paths to part.
pub lca_bit_lem :
    (t1 t2 : Tid)
    → IsTid t1
    → IsTid t2
    → lca_bit t1 t2 ≡ 2 ^ lca_loop (shorter t1 t2) (norm_path t1) (norm_path t2)
unfolding lca_bit
lca_bit_lem t1 t2 is1 is2 =
    let a = is1.shallow in
    let b = is2.shallow in
    let m = shorter t1 t2 in
    let small = shorter-bound t1 t2 is1 is2 in
    let positive = one-le-pow m 2 (omega arith) in
    let bound = pow_mono m 30 small in
    let p = norm_path t1 in
    let q = norm_path t2 in
    let both : bit_and (mask (tree_depth t1)) (mask (tree_depth t2)) ≡ 2 ^ m - 1 =
      ap₂ bit_and (mask_value (tree_depth t1) (omega (arith, a)))
        (mask_value (tree_depth t2) (omega (arith, b)))
      ∙ shared (tree_depth t1) (tree_depth t2) in
    let upper : (2 ^ m - 1 + 1) % 2 ^ 32 ≡ 2 ^ m = omega (arith, positive, bound) in
    let x = bit_or (bit_and (bit_xor p q) (2 ^ m - 1)) (2 ^ m) in
    let part = bit_and_mask m (bit_xor p q) in
    let less = mod-lt (bit_xor p q) positive in
    let one : 1 * 2 ^ m ≡ 2 ^ m = omega arith in
    let size : x ≡ 1 * 2 ^ m + bit_and (bit_xor p q) (2 ^ m - 1) =
      bit_or_comm (bit_and (bit_xor p q) (2 ^ m - 1)) (2 ^ m)
      ∙ ap (λ y. bit_or y (bit_and (bit_xor p q) (2 ^ m - 1))) (sym one)
      ∙ bit_or_sum m 1 (bit_and (bit_xor p q) (2 ^ m - 1)) (omega (arith, part, less)) in
    let word : x < 2 ^ 32 = omega (arith, size, part, less, bound) in
    let pos : 0 < x = omega (arith, size, positive) in
    let complement : (2 ^ 32 - x) % 2 ^ 32 ≡ 2 ^ 32 - x = omega (arith, pos) in
    rw (both, upper, complement)
      (lowest_bit 32 x pos word ∙ ap (λ k. 2 ^ k) (bit_index-xor 32 m p q (omega (arith, small))))

-- The masks compute what the loop over the two paths computes: the depth of a heap of the least
-- common ancestor is one more than the length of the common prefix.
pub lca_heap_depth-lca_len :
    (t1 t2 : Tid)
    → IsTid t1
    → IsTid t2
    → lca_heap_depth t1 t2 ≡ (
        if norm_path t1 == norm_path t2
        then tree_depth t1 + 1
        else lca_len (norm_path t1) (norm_path t2) + 1)
unfolding lca_heap_depth
lca_heap_depth-lca_len t1 t2 is1 is2 =
    let p = norm_path t1 in
    let q = norm_path t2 in
    let small = shorter-bound t1 t2 is1 is2 in
    let less = lca_loop-bound (shorter t1 t2) p q in
    let index = bit_index-pow 32 (lca_loop (shorter t1 t2) p q) (omega (arith, small, less)) in
    rw (lca_bit_lem t1 t2 is1 is2, index, lca_len_lem t1 t2 is1 is2) refl
