-- ===== src/Blocks/Fullness.antt =====
-- `fullness` and `computeSizeClass` of runtime/gc/block-allocator.c.
use native.Mathlib.Nat.{mul-le-mul_right, lt_of_mul-lt-mul_right}
use mpl.Base.{
  ℕ, zero, suc, ◌+◌, ◌-◌, ◌*◌, ◌^◌, ◌≤◌, ◌<◌, ◌≡◌, refl, Option, none, some, ltb, leb, ◌==◌, ◌⊎◌,
  subst, if◌then◌else◌, Bool-cases, inl, inr, ltb→ge, ltb→lt, arith,
}
use mpl.Blocks.{
  Controls, superblock_size, SuperBlock, FullnessGroup, completely_full, nearly_full, somewhat_full,
  nearly_empty, completely_empty,
}

unfoldable pub fullness : Controls → SuperBlock → FullnessGroup
fullness c sb =
    let free = sb.num_blocks_free in
    if ltb free (2 ^ sb.size_class)
    then completely_full
    else if free == superblock_size c
    then completely_empty
    else if leb ((c.emptiness_den - c.emptiness_num) * superblock_size c) (free * c.emptiness_den)
    then nearly_full
    else if ltb (free * c.emptiness_den) (c.emptiness_num * superblock_size c)
    then nearly_empty
    else somewhat_full

-- The `while` loop of `computeSizeClass`, from `class` on; a `size_t` has 64 bits.
size_class_from : ℕ → ℕ → ℕ → Option ℕ
size_class_from zero num_blocks class = none
size_class_from (suc fuel) num_blocks class =
    let rest = size_class_from fuel num_blocks (class + 1) in
    if ltb (2 ^ class) num_blocks then rest else some class

-- `none` is a shift by more than the width, which C leaves undefined.
pub compute_size_class : ℕ → Option ℕ
unfolding size_class_from
compute_size_class num_blocks = size_class_from 64 num_blocks 0

size_class_from_lem :
    (fuel n class : ℕ)
    → n ≤ 2 ^ (class + fuel)
    → (class ≡ 0) ⊎ (2 ^ (class - 1) < n)
    → (r : ℕ) × (size_class_from (suc fuel) n class ≡ some r)
      × (n ≤ 2 ^ r)
      × ((r ≡ 0) ⊎ (2 ^ (r - 1) < n))
unfolding size_class_from
size_class_from_lem zero n class h u = (class, ground arith, ground arith, u)
size_class_from_lem (suc fuel) n class h u = elim (Bool-cases (ltb (2 ^ class) n)) [
  | inl e ↦
      let low : (class + 1 ≡ 0) ⊎ (2 ^ (class + 1 - 1) < n) =
        inr (subst (λ x. 2 ^ x < n) (omega arith) (ltb→lt (2 ^ class) n e)) in
      let (r, eq, bound, least) =
        size_class_from_lem fuel n (class + 1) (subst (λ x. n ≤ 2 ^ x) (omega arith) h) low in
      (r, ground (arith, e, eq), bound, least)
  | inr e ↦ (class, ground (arith, e), ltb→ge (2 ^ class) n e, u)
]

-- The size class of a request of n blocks, where n is at most 2 ^ 63, is found within the 64 shifts
-- that C defines, its blocks are enough for n, and it is 0 or the next smaller class is too small.
pub compute_size_class_lem :
    (n : ℕ)
    → n ≤ 2 ^ 63
    → (r : ℕ) × (compute_size_class n ≡ some r) × (n ≤ 2 ^ r) × ((r ≡ 0) ⊎ (2 ^ (r - 1) < n))
unfolding compute_size_class
compute_size_class_lem n h = size_class_from_lem 63 n 0 h (inl refl)

nearly_full-free :
    (c : Controls) (sb : SuperBlock)
    → fullness c sb ≡ nearly_full
    → (c.emptiness_den - c.emptiness_num) * superblock_size c ≤ sb.num_blocks_free * c.emptiness_den
unfolding fullness
nearly_full-free c sb h = ground arith

nearly_empty-free :
    (c : Controls) (sb : SuperBlock)
    → fullness c sb ≡ nearly_empty
    → sb.num_blocks_free * c.emptiness_den < c.emptiness_num * superblock_size c
unfolding fullness
nearly_empty-free c sb h = ground arith

-- Where the emptiness fraction is at most one half, a superblock grouped as nearly full has more
-- free blocks than every superblock grouped as nearly empty.
pub fullness_reversed :
    (c : Controls) (a b : SuperBlock)
    → c.emptiness_num * 2 ≤ c.emptiness_den
    → fullness c a ≡ nearly_full
    → fullness c b ≡ nearly_empty
    → b.num_blocks_free < a.num_blocks_free
fullness_reversed c a b half full empty =
    let size = superblock_size c in
    let wide =
      mul-le-mul_right {m = c.emptiness_num} {n = c.emptiness_den - c.emptiness_num} size
        (omega (arith, half)) in
    lt_of_mul-lt-mul_right c.emptiness_den
      (omega (arith, nearly_full-free c a full, nearly_empty-free c b empty, wide))
