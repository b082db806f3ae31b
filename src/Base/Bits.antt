-- ===== src/Base/Bits.antt =====
-- The bitwise operators on words of any width, read off digit by digit.
use Prim.Native.Nat.{
  ℕ, zero, suc, ◌+◌, ◌-◌, ◌*◌, ◌/◌, ◌%◌, ◌^◌, ◌≤◌, ◌<◌, min, max, bit_and, bit_or, bit_xor, digits,
  differ, bit_and-bitwise, bit_or-bitwise, bit_xor-bitwise,
}
use mathlib.Core.Path.{◌≡◌, refl, ap, subst, ◌∙◌}
use native.Mathlib.Omega.{arith}
use native.Mathlib.Nat.{pow-suc, one-le-pow, div-div-eq-div-mul, div-add-mod', mod-lt}

-- A count of digits beyond the first operand changes nothing.
digits-bound :
    (z : ℕ → ℕ) (f : ℕ → ℕ → ℕ) (a b n : ℕ) (m : ℕ)
    → a ≤ n
    → a ≤ m
    → digits z f n a b ≡ digits z f m a b
digits-bound z f a b zero zero p q = refl
digits-bound z f zero b zero (suc m) p q = refl
digits-bound z f (suc a) b zero (suc m) p q = absurd (omega arith)
digits-bound z f zero b (suc n) zero p q = refl
digits-bound z f (suc a) b (suc n) zero p q = absurd (omega arith)
digits-bound z f zero b (suc n) (suc m) p q = refl
digits-bound z f (suc a) b (suc n) (suc m) p q =
    ap (λ t. t * 2 + f (suc a % 2) (b % 2))
      (digits-bound z f (suc a / 2) (b / 2) n m (omega arith) (omega arith))

digits-step :
    (z : ℕ → ℕ) (f : ℕ → ℕ → ℕ) (a b : ℕ)
    → digits z f (suc a) (suc a) b
      ≡ digits z f (suc a / 2) (suc a / 2) (b / 2) * 2 + f (suc a % 2) (b % 2)
digits-step z f a b =
    ap (λ t. t * 2 + f (suc a % 2) (b % 2))
      (digits-bound z f (suc a / 2) (b / 2) a (suc a / 2) (omega arith) (omega arith))

pub bit_and_step : (a b : ℕ) → bit_and a b ≡ bit_and (a / 2) (b / 2) * 2 + min (a % 2) (b % 2)
bit_and_step zero b = omega (arith, bit_and-bitwise 0 b, bit_and-bitwise 0 (b / 2))
bit_and_step (suc a) b = simp bit_and-bitwise (digits-step (λ y. 0) min a b)

pub bit_or_step : (a b : ℕ) → bit_or a b ≡ bit_or (a / 2) (b / 2) * 2 + max (a % 2) (b % 2)
bit_or_step zero b = omega (arith, bit_or-bitwise 0 b, bit_or-bitwise 0 (b / 2))
bit_or_step (suc a) b = simp bit_or-bitwise (digits-step (λ y. y) max a b)

pub bit_xor_step : (a b : ℕ) → bit_xor a b ≡ bit_xor (a / 2) (b / 2) * 2 + differ (a % 2) (b % 2)
bit_xor_step zero b = omega (arith, bit_xor-bitwise 0 b, bit_xor-bitwise 0 (b / 2))
bit_xor_step (suc a) b = simp bit_xor-bitwise (digits-step (λ y. y) differ a b)

-- Digit `i` of a word.
abbrev pub bit : ℕ → ℕ → ℕ
bit x zero = x % 2
bit x (suc i) = bit (x / 2) i

pub bit-lt-two : (x i : ℕ) → bit x i < 2
bit-lt-two x zero = omega arith
bit-lt-two x (suc i) = bit-lt-two (x / 2) i

pub bit_ext_below : (n a b : ℕ) → a ≤ n → b ≤ n → ((i : ℕ) → bit a i ≡ bit b i) → a ≡ b
bit_ext_below zero a b p q h = omega arith
bit_ext_below (suc n) a b p q h =
    omega (arith, h 0, bit_ext_below n (a / 2) (b / 2) (omega arith) (omega arith) (λ i. h (suc i)))

-- Words with the same digits are equal.
pub bit_ext : (a b : ℕ) → ((i : ℕ) → bit a i ≡ bit b i) → a ≡ b
bit_ext a b h = bit_ext_below (a + b) a b (omega arith) (omega arith) h

pub bit-bit_and : (a b i : ℕ) → bit (bit_and a b) i ≡ min (bit a i) (bit b i)
bit-bit_and a b zero = omega (arith, bit_and_step a b)
bit-bit_and a b (suc i) =
    let half : bit_and a b / 2 ≡ bit_and (a / 2) (b / 2) = omega (arith, bit_and_step a b) in
    rw half (bit-bit_and (a / 2) (b / 2) i)

pub bit-bit_or : (a b i : ℕ) → bit (bit_or a b) i ≡ max (bit a i) (bit b i)
bit-bit_or a b zero = omega (arith, bit_or_step a b)
bit-bit_or a b (suc i) =
    let half : bit_or a b / 2 ≡ bit_or (a / 2) (b / 2) = omega (arith, bit_or_step a b) in
    rw half (bit-bit_or (a / 2) (b / 2) i)

differ-mod : (x y : ℕ) → x < 2 → y < 2 → differ x y ≡ (x + y) % 2
differ-mod zero y p q = omega arith
differ-mod (suc zero) zero p q = refl
differ-mod (suc zero) (suc zero) p q = refl
differ-mod (suc zero) (suc (suc y)) p q = absurd (omega arith)
differ-mod (suc (suc x)) y p q = absurd (omega arith)

-- The lowest digit and the others of an exclusive or.
pub bit_xor_sum :
    (a b : ℕ) → (bit_xor a b % 2 ≡ (a + b) % 2) × (bit_xor a b / 2 ≡ bit_xor (a / 2) (b / 2))
bit_xor_sum a b =
    let step = bit_xor_step a b in
    let low = differ-mod (a % 2) (b % 2) (omega arith) (omega arith) in
    (omega (arith, step, low), omega (arith, step, low))

pub bit-bit_xor : (a b i : ℕ) → bit (bit_xor a b) i ≡ (bit a i + bit b i) % 2
bit-bit_xor a b zero =
    omega (arith, bit_xor_step a b, differ-mod (a % 2) (b % 2) (omega arith) (omega arith))
bit-bit_xor a b (suc i) =
    let d = differ-mod (a % 2) (b % 2) (omega arith) (omega arith) in
    let half : bit_xor a b / 2 ≡ bit_xor (a / 2) (b / 2) = omega (arith, bit_xor_step a b, d) in
    rw half (bit-bit_xor (a / 2) (b / 2) i)

-- `x & 0` and `0 | x`, whose digits are known.
bit-zero : (i : ℕ) → bit 0 i ≡ 0
bit-zero zero = refl
bit-zero (suc i) = bit-zero i

pub bit_and-zero : (a : ℕ) → bit_and a 0 ≡ 0
bit_and-zero a = bit_ext (bit_and a 0) 0 (λ i. omega (arith, bit-bit_and a 0 i, bit-zero i))

pub bit_or-zero : (a : ℕ) → bit_or a 0 ≡ a
bit_or-zero a = bit_ext (bit_or a 0) a (λ i. omega (arith, bit-bit_or a 0 i, bit-zero i))

pub bit_or_comm : (a b : ℕ) → bit_or a b ≡ bit_or b a
bit_or_comm a b =
    bit_ext (bit_or a b) (bit_or b a) (λ i. omega (arith, bit-bit_or a b i, bit-bit_or b a i))

pub bit_and_comm : (a b : ℕ) → bit_and a b ≡ bit_and b a
bit_and_comm a b =
    bit_ext (bit_and a b) (bit_and b a) (λ i. omega (arith, bit-bit_and a b i, bit-bit_and b a i))

-- A product by the next power.
pub double_pow : (q k : ℕ) → q * 2 ^ suc k ≡ 2 * (q * 2 ^ k)
double_pow q k = omega (arith, ap (λ (t : ℕ). q * t) (pow-suc 2 k))

pub div-two-pow : (a k : ℕ) → a / 2 / 2 ^ k ≡ a / 2 ^ suc k
div-two-pow a k =
    div-div-eq-div-mul a 2 (2 ^ k) ∙ ap (λ (t : ℕ). a / t) (omega (arith, pow-suc 2 k))

pub bit-div-mod : (x i : ℕ) → bit x i ≡ x / 2 ^ i % 2
bit-div-mod x zero = omega arith
bit-div-mod x (suc i) = bit-div-mod (x / 2) i ∙ ap (λ (t : ℕ). t % 2) (div-two-pow x i)

-- A mask whose lowest `k` digits are 0 clears those digits.
pub bit_and-mul-pow : (a m k : ℕ) → bit_and a (m * 2 ^ k) ≡ bit_and (a / 2 ^ k) m * 2 ^ k
bit_and-mul-pow a m zero = ground arith
bit_and-mul-pow a m (suc k) = ground (
  arith,
  bit_and_step a (m * 2 ^ suc k),
  double_pow m k,
  div-two-pow a k,
  double_pow (bit_and (a / 2 ^ suc k) m) k,
  bit_and-mul-pow (a / 2) m k,
)

low_digits : (k q r : ℕ) → r < 2 ^ k → bit_and (q * 2 ^ k + r) (2 ^ k - 1) ≡ r
low_digits zero q r h = rw bit_and-zero (omega arith)
low_digits (suc k) q r h = ground (
  arith,
  bit_and_step (q * 2 ^ suc k + r) (2 ^ suc k - 1),
  double_pow q k,
  pow-suc 2 k,
  low_digits k q (r / 2) (omega (arith, pow-suc 2 k)),
)

-- `x & (2^k - 1)` is the remainder.
pub bit_and_mask : (k a : ℕ) → bit_and a (2 ^ k - 1) ≡ a % 2 ^ k
bit_and_mask k a =
    subst (λ t. bit_and t (2 ^ k - 1) ≡ a % 2 ^ k) (div-add-mod' a (2 ^ k))
      (low_digits k (a / 2 ^ k) (a % 2 ^ k) (mod-lt a (one-le-pow k 2 (omega arith))))

-- `(q << k) | r` is a sum where `r` fits into `k` digits.
pub bit_or_sum : (k q r : ℕ) → r < 2 ^ k → bit_or (q * 2 ^ k) r ≡ q * 2 ^ k + r
bit_or_sum zero q r h = ground (arith, bit_or-zero q)
bit_or_sum (suc k) q r h = ground (
  arith,
  bit_or_step (q * 2 ^ suc k) r,
  double_pow q k,
  bit_or_sum k q (r / 2) (omega (arith, pow-suc 2 k)),
)

pub pow_add : (a b : ℕ) → 2 ^ (a + b) ≡ 2 ^ a * 2 ^ b
pow_add zero b = grind arith
pow_add (suc a) b = grind (arith, pow_add a b, pow-suc 2 a, pow-suc 2 (a + b))
