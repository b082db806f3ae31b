-- ===== src/Objects/Masks.antt =====
-- The masks of runtime/gc/object.h and runtime/gc/pin.h, as quotients and remainders.
use native.Mathlib.Nat.{pow-suc, one-le-pow, mod-lt, mul-div_cancel, div-add-mod'}
use mpl.Base.{
  ℕ, zero, suc, ◌+◌, ◌-◌, ◌*◌, ◌/◌, ◌%◌, ◌^◌, ◌≤◌, ◌<◌, ◌≡◌, ap, ap₂, sym, ◌∙◌, bit_and, bit_or,
  false, ◌==◌, arith,
}
use mpl.Base.Bits.{
  bit_and_step, bit_or_step, double_pow, bit_and_mask, bit_and-mul-pow, bit_or_sum, bit_and-zero,
  bit_or-zero, bit_and_comm,
}
use mpl.Objects.{object_type_index, build_header_from_type_index, is_fwd_header}

-- The words of a double length, by their halves.
pub bit_and_split :
    (k q r m s : ℕ)
    → r < 2 ^ k
    → s < 2 ^ k
    → bit_and (q * 2 ^ k + r) (m * 2 ^ k + s) ≡ bit_and q m * 2 ^ k + bit_and r s
bit_and_split zero q r m s h l = ground (arith, bit_and-zero 0)
bit_and_split (suc k) q r m s h l = ground (
  arith,
  bit_and_step (q * 2 ^ suc k + r) (m * 2 ^ suc k + s),
  bit_and_step r s,
  double_pow q k,
  double_pow m k,
  double_pow (bit_and q m) k,
  pow-suc 2 k,
  bit_and_split k q (r / 2) m (s / 2) (omega (arith, pow-suc 2 k)) (omega (arith, pow-suc 2 k)),
)

pub bit_or_split :
    (k q r m s : ℕ)
    → r < 2 ^ k
    → s < 2 ^ k
    → bit_or (q * 2 ^ k + r) (m * 2 ^ k + s) ≡ bit_or q m * 2 ^ k + bit_or r s
bit_or_split zero q r m s h l = ground (arith, bit_or-zero 0)
bit_or_split (suc k) q r m s h l = ground (
  arith,
  bit_or_step (q * 2 ^ suc k + r) (m * 2 ^ suc k + s),
  bit_or_step r s,
  double_pow q k,
  double_pow m k,
  double_pow (bit_or q m) k,
  pow-suc 2 k,
  bit_or_split k q (r / 2) m (s / 2) (omega (arith, pow-suc 2 k)) (omega (arith, pow-suc 2 k)),
)

-- `or` with a word whose lowest digits are 0.
pub bit_or_upper :
    (k q r m : ℕ) → r < 2 ^ k → bit_or (q * 2 ^ k + r) (m * 2 ^ k) ≡ bit_or q m * 2 ^ k + r
bit_or_upper k q r m h =
    let plain : m * 2 ^ k ≡ m * 2 ^ k + 0 = omega arith in
    ap (bit_or (q * 2 ^ k + r)) plain
    ∙ bit_or_split k q r m 0 h (one-le-pow k 2 (omega arith))
    ∙ ap (λ x. bit_or q m * 2 ^ k + x) (bit_or-zero r)

-- A field of `w` bits from bit `k` on.
pub bit_and_field : (a k w : ℕ) → bit_and a ((2 ^ w - 1) * 2 ^ k) / 2 ^ k ≡ a / 2 ^ k % 2 ^ w
bit_and_field a k w =
    ap (λ x. x / 2 ^ k) (bit_and-mul-pow a (2 ^ w - 1) k)
    ∙ mul-div_cancel (bit_and (a / 2 ^ k) (2 ^ w - 1)) (one-le-pow k 2 (omega arith))
    ∙ bit_and_mask w (a / 2 ^ k)

-- The complement of the field from bit `j` up to bit `k` clears that field.
pub bit_and_clear :
    (j k v a : ℕ)
    → 2 ^ j ≤ 2 ^ k
    → bit_and a ((2 ^ v - 1) * 2 ^ k + (2 ^ j - 1)) ≡ a / 2 ^ k % 2 ^ v * 2 ^ k + a % 2 ^ k % 2 ^ j
bit_and_clear j k v a le =
    let positive = one-le-pow j 2 (omega arith) in
    let whole = div-add-mod' a (2 ^ k) in
    let mask = (2 ^ v - 1) * 2 ^ k + (2 ^ j - 1) in
    let split =
      bit_and_split k (a / 2 ^ k) (a % 2 ^ k) (2 ^ v - 1) (2 ^ j - 1)
        (mod-lt a (one-le-pow k 2 (omega arith))) (omega (arith, le, positive)) in
    ap (λ x. bit_and x mask) (sym whole)
    ∙ split
    ∙ ap₂ (λ x y. x * 2 ^ k + y) (bit_and_mask v (a / 2 ^ k)) (bit_and_mask j (a % 2 ^ k))

pub object_type_index_value : (h : ℕ) → object_type_index h ≡ h / 2 % 2 ^ 19
unfolding object_type_index
object_type_index_value h = omega (arith, bit_and-mul-pow h (2 ^ 19 - 1) 1, bit_and_mask 19 (h / 2))

pub is_fwd_header_value : (h : ℕ) → is_fwd_header h ≡ (h % 2 == 0)
unfolding is_fwd_header
is_fwd_header_value h = ap (λ x. x == 0) (bit_and_comm 1 h ∙ bit_and_mask 1 h)

-- A header that is built from a type index is no forwarding pointer, and has that index.
pub build_header_lem :
    (t : ℕ)
    → t < 2 ^ 19
    → (object_type_index (build_header_from_type_index t) ≡ t)
      × (is_fwd_header (build_header_from_type_index t) ≡ false)
unfolding build_header_from_type_index
build_header_lem t h =
    let sum = bit_or_sum 1 t 1 (omega arith) in
    let whole : t * 2 % 2 ^ 32 ≡ t * 2 ^ 1 = omega arith in
    let header = ap (λ x. bit_or x 1) whole ∙ sum in
    (
      ap object_type_index header ∙ object_type_index_value (t * 2 + 1) ∙ omega arith,
      ap is_fwd_header header ∙ is_fwd_header_value (t * 2 + 1) ∙ ground arith,
    )
