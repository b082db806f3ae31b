-- ===== src/Decheck/Paths.antt =====
-- The bits of the paths of runtime/gc/decheck.c around the mark at their end.
use native.Mathlib.Nat.{
  one-le-pow, mod-lt, mod-eq_of_lt, add-mul-mod_self_left, mul-le-mul_right, div-add-mod',
}
use mpl.Base.{
  ℕ, zero, suc, ◌+◌, ◌-◌, ◌*◌, ◌/◌, ◌%◌, ◌^◌, ◌≤◌, ◌<◌, ◌≡◌, ap, ap₂, sym, ◌∙◌, bit_and, bit_or,
  arith,
}
use mpl.Base.Bits.{bit_and_step, bit_or_step, bit_and_mask, pow_add}
use mpl.Objects.Masks.{bit_and_split, bit_or_upper}
use mpl.Decheck.{Tid, one_shl, tree_depth, dag_depth, norm_path}
use mpl.Decheck.Numbers.{IsTid, pow_mono, tree_depth_value, norm_path_value}

spread : (k c d b r : ℕ) → (k * c + d) * b + r ≡ d * b + r + b * c * k
spread k c d b r = grind arith

in_range : (c d b r : ℕ) → d < c → r < b → d * b + r < b * c
in_range c d b r below less =
    let rows : (d + 1) * b ≤ c * b = mul-le-mul_right b (omega (arith, below)) in
    let next : (d + 1) * b ≡ d * b + b = grind arith in
    let swap : c * b ≡ b * c = grind arith in omega (arith, rows, next, swap, less)

-- The lowest digits of a word whose digits above `b` are known.
pub digits_mod : (c o b r : ℕ) → 0 < c → r < b → (o * b + r) % (b * c) ≡ o % c * b + r
digits_mod c o b r pos less =
    let split = div-add-mod' o c in
    let below = mod-lt o pos in
    let parts = ap (λ x. x * b + r) (sym split) ∙ spread (o / c) c (o % c) b r in
    let room : o % c * b + r < b * c = in_range c (o % c) b r below less in
    ap (λ x. x % (b * c)) parts
    ∙ add-mul-mod_self_left (o % c * b + r) (b * c) (o / c)
    ∙ mod-eq_of_lt room

-- The two bits from bit `h` on that a fork sets.
left_bits : (q m : ℕ) → bit_or (bit_and q (m * 2)) 2 % 4 ≡ 2
left_bits q m =
    let e = bit_and q (m * 2) in
    let first = bit_and_step q (m * 2) in
    let second = bit_or_step e 2 in
    let third = bit_or_step (e / 2) 1 in omega (arith, first, second, third)

right_bits : (q : ℕ) → bit_or (bit_or q 1) 2 % 4 ≡ 3
right_bits q =
    let e = bit_or q 1 in
    let first = bit_or_step q 1 in
    let second = bit_or_step e 2 in
    let third = bit_or_step (e / 2) 1 in omega (arith, first, second, third)

pub pow_double : (h : ℕ) → 2 ^ (h + 1) ≡ 2 ^ h * 2
pow_double h = omega (arith, pow_add h 1)

-- The bits of a path below bit `h`, and the mark above them.
pub marked_path : (t : Tid) → IsTid t → norm_path t ≡ 2 ^ tree_depth t + t.path % 2 ^ tree_depth t
marked_path t is =
    let h = tree_depth t in
    let positive = one-le-pow h 2 (omega arith) in
    let r = t.path % 2 ^ h in
    let q = t.path / 2 ^ h in
    let less = mod-lt t.path positive in
    let whole = div-add-mod' t.path (2 ^ h) in
    let low =
      ap₂ (λ x y. x % y) (sym whole) (pow_double h) ∙ digits_mod 2 q (2 ^ h) r (omega arith) less in
    let value = norm_path_value t is.shallow ∙ low in
    let marked = is.marked in
    by_digit (q % 2) (2 ^ h) r (norm_path t) (mod-lt q (omega arith)) value marked less
  where
    by_digit : (d b r n : ℕ) → d < 2 → n ≡ d * b + r → b ≤ n → r < b → n ≡ b + r
    by_digit zero b r n l e m k = absurd (omega (arith, e, m, k))
    by_digit (suc zero) b r n l e m k = omega (arith, e)
    by_digit (suc (suc d)) b r n l e m k = absurd (omega (arith, l))

cleared :
    (h p : ℕ)
    → h ≤ 29
    → bit_and p (2 ^ 32 - 1 - 2 ^ h)
      ≡ bit_and (p / 2 ^ h) ((2 ^ (31 - h) - 1) * 2) * 2 ^ h + p % 2 ^ h
cleared h p small =
    let positive = one-le-pow h 2 (omega arith) in
    let bound = pow_mono h 29 small in
    let whole = div-add-mod' p (2 ^ h) in
    let sum : 31 - h + (h + 1) ≡ 32 = omega (arith, small) in
    let all : 2 ^ (31 - h) * (2 ^ h * 2) ≡ 2 ^ 32 =
      ap (λ x. 2 ^ (31 - h) * x) (sym (pow_double h))
      ∙ sym (pow_add (31 - h) (h + 1))
      ∙ ap (λ x. 2 ^ x) sum in
    let mask =
      mask_parts (2 ^ (31 - h)) (2 ^ h) (one-le-pow (31 - h) 2 (omega arith)) positive all in
    ap₂ bit_and (sym whole) mask
    ∙ bit_and_split h (p / 2 ^ h) (p % 2 ^ h) ((2 ^ (31 - h) - 1) * 2) (2 ^ h - 1)
        (mod-lt p positive) (omega (arith, positive))
    ∙ ap (λ x. bit_and (p / 2 ^ h) ((2 ^ (31 - h) - 1) * 2) * 2 ^ h + x)
        (bit_and_mask h (p % 2 ^ h) ∙ mod-eq_of_lt (mod-lt p positive))
  where
    mask_parts :
        (a b : ℕ)
        → 1 ≤ a
        → 1 ≤ b
        → a * (b * 2) ≡ 2 ^ 32
        → 2 ^ 32 - 1 - b ≡ (a - 1) * 2 * b + (b - 1)
    mask_parts zero b l k all = absurd (omega (arith, l))
    mask_parts (suc a) b l k all =
        let parts : suc a * (b * 2) ≡ a * 2 * b + b * 2 = grind arith in
        let less : suc a - 1 ≡ a = omega arith in
        let same : (suc a - 1) * 2 * b ≡ a * 2 * b = ap (λ x. x * 2 * b) less in
        omega (arith, parts, all, same, k)

-- The two paths that a fork makes, below the new mark.
pub left_path :
    (h p : ℕ)
    → h ≤ 29
    → bit_or (bit_and p (2 ^ 32 - 1 - 2 ^ h)) (2 ^ (h + 1)) % 2 ^ (h + 2) ≡ 2 * 2 ^ h + p % 2 ^ h
left_path h p small =
    let positive = one-le-pow h 2 (omega arith) in
    let e = bit_and (p / 2 ^ h) ((2 ^ (31 - h) - 1) * 2) in
    let r = p % 2 ^ h in
    let less = mod-lt p positive in
    let top : 2 ^ (h + 1) ≡ 2 * 2 ^ h = omega (arith, pow_double h) in
    let range : 2 ^ (h + 2) ≡ 2 ^ h * 4 = omega (arith, pow_add h 2) in
    ap₂ (λ x y. x % y) (ap₂ bit_or (cleared h p small) top ∙ bit_or_upper h e r 2 less) range
    ∙ digits_mod 4 (bit_or e 2) (2 ^ h) r (omega arith) less
    ∙ ap (λ x. x * 2 ^ h + r) (left_bits (p / 2 ^ h) (2 ^ (31 - h) - 1))

pub right_path :
    (h p : ℕ) → bit_or (bit_or p (2 ^ h)) (2 ^ (h + 1)) % 2 ^ (h + 2) ≡ 3 * 2 ^ h + p % 2 ^ h
right_path h p =
    let positive = one-le-pow h 2 (omega arith) in
    let q = p / 2 ^ h in
    let r = p % 2 ^ h in
    let less = mod-lt p positive in
    let top : 2 ^ (h + 1) ≡ 2 * 2 ^ h = omega (arith, pow_double h) in
    let range : 2 ^ (h + 2) ≡ 2 ^ h * 4 = omega (arith, pow_add h 2) in
    let one : 2 ^ h ≡ 1 * 2 ^ h = omega arith in
    let first : bit_or p (2 ^ h) ≡ bit_or q 1 * 2 ^ h + r =
      ap₂ bit_or (sym (div-add-mod' p (2 ^ h))) one ∙ bit_or_upper h q r 1 less in
    ap₂ (λ x y. x % y) (ap₂ bit_or first top ∙ bit_or_upper h (bit_or q 1) r 2 less) range
    ∙ digits_mod 4 (bit_or (bit_or q 1) 2) (2 ^ h) r (omega arith) less
    ∙ ap (λ x. x * 2 ^ h + r) (right_bits q)

-- The depths of a forked task.
pub fork_depths :
    (t c : Tid)
    → c.depth ≡ (t.depth + one_shl 5 + 1) % 2 ^ 32
    → tree_depth t ≤ 29
    → t.depth + 33 < 2 ^ 32
    → (tree_depth c ≡ tree_depth t + 1) × (dag_depth c ≡ dag_depth t + 1)
unfolding dag_depth one_shl
fork_depths t c e small room =
    let a = tree_depth_value t in
    let b = tree_depth_value c in
    (omega (arith, a, b, e, small, room), omega (arith, a, b, e, small, room))
