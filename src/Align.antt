-- ===== src/Align.antt =====
-- runtime/util/align.h: the alignment of sizes and addresses to powers of 2, by masks.
use native.Mathlib.Nat.{
  mod-eq_of_lt, one-le-pow, mod-lt, div-add-mod', div-lt_iff_lt-mul, mul-mod_left,
}
use mpl.Base.{
  ℕ, zero, suc, ◌+◌, ◌-◌, ◌*◌, ◌/◌, ◌%◌, ◌^◌, ◌≤◌, ◌<◌, ◌≡◌, bit_and, sym, ap, ◌∙◌, Bool, true,
  ◌==◌, eq→==, arith,
}
use mpl.Base.Bits.{pow_add, bit_and-mul-pow, bit_and_mask}

pub is_aligned : ℕ → ℕ → Bool
is_aligned a b = a % b == 0

-- `a & -b` on a `size_t`.
unfoldable pub align_down : ℕ → ℕ → ℕ
align_down a b = bit_and a ((2 ^ 64 - b) % 2 ^ 64)

unfoldable pub align : ℕ → ℕ → ℕ
align a b = align_down ((a + b - 1) % 2 ^ 64) b

pred_mul : (p n : ℕ) → 1 ≤ p → (p - 1) * n ≡ p * n - n
pred_mul zero n h = absurd (omega (arith, h))
pred_mul (suc p) n h = grind arith

all_bits : (k : ℕ) → k ≤ 64 → 2 ^ (64 - k) * 2 ^ k ≡ 2 ^ 64
all_bits k h = sym (pow_add (64 - k) k) ∙ ap (λ z. 2 ^ z) sum
  where
    sum : 64 - k + k ≡ 64
    sum = omega (arith, h)

mask-shape : (k : ℕ) → k ≤ 64 → 2 ^ 64 - 2 ^ k ≡ (2 ^ (64 - k) - 1) * 2 ^ k
mask-shape k h =
    let whole = all_bits k (omega (arith, h)) in
    sym (
      pred_mul (2 ^ (64 - k)) (2 ^ k) (one-le-pow (64 - k) 2 (omega arith))
      ∙ ap (λ z. z - 2 ^ k) whole)

-- On a word, and for a power of 2 that is a word, the mask takes off the remainder.
pub align_down_lem : (a k : ℕ) → a < 2 ^ 64 → k < 64 → align_down a (2 ^ k) ≡ a / 2 ^ k * 2 ^ k
unfolding align_down
align_down_lem a k h l =
    let positive = one-le-pow k 2 (omega arith) in
    let mask : (2 ^ 64 - 2 ^ k) % 2 ^ 64 ≡ (2 ^ (64 - k) - 1) * 2 ^ k =
      mod-eq_of_lt (omega (arith, positive)) ∙ mask-shape k (omega (arith, l)) in
    let whole = all_bits k (omega (arith, l)) in
    let short : a / 2 ^ k < 2 ^ (64 - k) =
      (div-lt_iff_lt-mul positive).1 (omega (arith, h, whole)) in
    ap (bit_and a) mask
    ∙ bit_and-mul-pow a (2 ^ (64 - k) - 1) k
    ∙ ap (λ z. z * 2 ^ k) (bit_and_mask (64 - k) (a / 2 ^ k) ∙ mod-eq_of_lt short)

-- Where the sum does not wrap, alignment to a power of 2 gives the least multiple of it that is not
-- below the size.
pub align_lem :
    (a k : ℕ)
    → k < 64
    → a + 2 ^ k ≤ 2 ^ 64
    → (is_aligned (align a (2 ^ k)) (2 ^ k) ≡ true)
      × (a ≤ align a (2 ^ k))
      × (align a (2 ^ k) < a + 2 ^ k)
unfolding align is_aligned
align_lem a k l h =
    let positive = one-le-pow k 2 (omega arith) in
    let w = a + 2 ^ k - 1 in
    let value : align a (2 ^ k) ≡ w / 2 ^ k * 2 ^ k =
      ap (λ z. align_down z (2 ^ k)) (mod-eq_of_lt (omega (arith, h, positive)))
      ∙ align_down_lem w k (omega (arith, h, positive)) l in
    let split = div-add-mod' w (2 ^ k) in
    let less = mod-lt w positive in
    (
      eq→== (align a (2 ^ k) % 2 ^ k) 0
          (ap (λ z. z % 2 ^ k) value ∙ mul-mod_left (w / 2 ^ k) (2 ^ k)),
      omega (arith, value, split, less, positive),
      omega (arith, value, split, less, positive),
    )
