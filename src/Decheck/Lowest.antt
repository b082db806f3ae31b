-- ===== src/Decheck/Lowest.antt =====
-- The lowest set bit of a word, as runtime/gc/decheck.c computes it, and the common prefix of paths.
use native.Mathlib.Nat.{pow-suc, one-le-pow}
use mpl.Base.{
  ℕ, zero, suc, ◌+◌, ◌-◌, ◌/◌, ◌%◌, ◌^◌, ◌<◌, ◌≡◌, refl, ap, ap₂, ◌∙◌, true, false, ◌==◌,
  Bool-cases, inl, inr, bit_and, bit_or, bit_xor, arith,
}
use mpl.Base.Bits.{bit_xor_sum, bit_and_step, bit_or_step, bit_and-zero, bit_and_mask}
use mpl.Decheck.{bit_index, lca_loop}

-- A word and its complement have no bit in common.
disjoint : (m a : ℕ) → a < 2 ^ m → bit_and a (2 ^ m - 1 - a) ≡ 0
disjoint zero a h = ground (arith, bit_and-zero a)
disjoint (suc m) a h = ground (
  arith,
  pow-suc 2 m,
  bit_and_step a (2 ^ suc m - 1 - a),
  disjoint m (a / 2) (omega (arith, pow-suc 2 m)),
)

same_half :
    (n x : ℕ)
    → (x % 2 == 1) ≡ true
    → x < 2 ^ suc n
    → bit_and (x / 2) ((2 ^ suc n - x) / 2) ≡ bit_and (x / 2) (2 ^ n - 1 - x / 2)
same_half n x odd h = ap (bit_and (x / 2)) half
  where
    half : (2 ^ suc n - x) / 2 ≡ 2 ^ n - 1 - x / 2
    half = ground (arith, odd, pow-suc 2 n, h)

-- `x & -x` is the power of 2 at the lowest bit.
pub lowest_bit : (n x : ℕ) → 0 < x → x < 2 ^ n → bit_and x (2 ^ n - x) ≡ 2 ^ bit_index n x
unfolding bit_index
lowest_bit zero x pos h = absurd (omega (arith, pos))
lowest_bit (suc n) x pos h = elim (Bool-cases (x % 2 == 1)) [
  | inl odd ↦
      rw (odd, bit_index)
        (ground (
          arith,
          odd,
          pow-suc 2 n,
          bit_and_step x (2 ^ suc n - x),
          disjoint n (x / 2) (omega (arith, h, pow-suc 2 n)),
          same_half n x odd h,
        ))
  | inr even ↦
      let half : (2 ^ suc n - x) / 2 ≡ 2 ^ n - x / 2 = ground (arith, even, pow-suc 2 n, h) in
      let step = bit_and_step x (2 ^ suc n - x) in
      let low : (2 ^ suc n - x) % 2 ≡ 0 = ground (arith, even, pow-suc 2 n, h) in
      let before =
        lowest_bit n (x / 2) (ground (arith, even, pos)) (omega (arith, h, pow-suc 2 n)) in
      let inner = ap (bit_and (x / 2)) half ∙ before in
      rw (even, bit_index) (ground (arith, even, step, low, inner, pow-suc 2 (bit_index n (x / 2))))
]

-- The lowest bit of a power of 2.
pub bit_index-pow : (n k : ℕ) → k < n → bit_index n (2 ^ k) ≡ k
unfolding bit_index
bit_index-pow zero k h = absurd (omega (arith, h))
bit_index-pow (suc n) zero h = refl
bit_index-pow (suc n) (suc k) h =
    let half : 2 ^ suc k / 2 ≡ 2 ^ k = omega (arith, pow-suc 2 k) in
    let even : (2 ^ suc k % 2 == 1) ≡ false = ground (arith, pow-suc 2 k) in
    rw (even, half, bit_index) (ap suc (bit_index-pow n k (omega (arith, h))))

pub bit_index-bound : (n x : ℕ) → 0 < x → x < 2 ^ n → bit_index n x < n
unfolding bit_index
bit_index-bound zero x pos h = absurd (omega (arith, pos, h))
bit_index-bound (suc n) x pos h = elim (Bool-cases (x % 2 == 1)) [
  | inl odd ↦ rw (odd, bit_index) (omega arith)
  | inr even ↦
      let before =
        bit_index-bound n (x / 2) (ground (arith, even, pos)) (omega (arith, h, pow-suc 2 n)) in
      rw (even, bit_index) (omega (arith, before))
]

differing :
    (m p q : ℕ)
    → let x = bit_or (bit_and (bit_xor p q) (2 ^ suc m - 1)) (2 ^ suc m) in
      (x % 2 ≡ (p + q) % 2)
      × (x / 2 ≡ bit_or (bit_and (bit_xor (p / 2) (q / 2)) (2 ^ m - 1)) (2 ^ m))
differing m p q =
    let positive = one-le-pow m 2 (omega arith) in
    let power = pow-suc 2 m in
    let outer = bit_or_step (bit_and (bit_xor p q) (2 ^ suc m - 1)) (2 ^ suc m) in
    let inner = bit_and_step (bit_xor p q) (2 ^ suc m - 1) in
    let (low, half) = bit_xor_sum p q in
    let ones : (2 ^ suc m - 1) / 2 ≡ 2 ^ m - 1 = omega (arith, power, positive) in
    let top : 2 ^ suc m / 2 ≡ 2 ^ m = omega (arith, power) in
    let masked : bit_and (bit_xor p q) (2 ^ suc m - 1) / 2
        ≡ bit_and (bit_xor (p / 2) (q / 2)) (2 ^ m - 1) =
      omega (arith, inner) ∙ ap₂ bit_and half ones in
    (
      omega (arith, outer, inner, low, power, positive),
      omega (arith, outer) ∙ ap₂ bit_or masked top,
    )

-- The lowest bit at which two paths differ, below a common length `m`, or that length: the loop and
-- the bits of the exclusive or, with bit `m` set, agree.
pub bit_index-xor :
    (n m p q : ℕ)
    → m < n
    → bit_index n (bit_or (bit_and (bit_xor p q) (2 ^ m - 1)) (2 ^ m)) ≡ lca_loop m p q
unfolding bit_index lca_loop
bit_index-xor zero m p q h = absurd (omega (arith, h))
bit_index-xor (suc n) zero p q h = rw (bit_and-zero (bit_xor p q)) refl
bit_index-xor (suc n) (suc m) p q h =
    let (low, half) = differing m p q in
    let before = bit_index-xor n m (p / 2) (q / 2) (omega (arith, h)) in
    let bits = ap₂ (λ x y. x == y) (bit_and_mask 1 p) (bit_and_mask 1 q) in
    elim (Bool-cases (p % 2 == q % 2)) [
      | inl e ↦
          rw (ap (λ x. x == 1) low ∙ even p q e, half, bits, e, bit_index, lca_loop) (ap suc before)
      | inr e ↦ rw (ap (λ x. x == 1) low ∙ odd p q e, bits, e, bit_index, lca_loop) refl
    ]
  where
    even : (p q : ℕ) → (p % 2 == q % 2) ≡ true → ((p + q) % 2 == 1) ≡ false
    even p q e = ground (arith, e)

    odd : (p q : ℕ) → (p % 2 == q % 2) ≡ false → ((p + q) % 2 == 1) ≡ true
    odd p q e = ground (arith, e)
