-- ===== src/Decheck/Numbers.antt =====
-- The depths and paths of runtime/gc/decheck.c as quotients and remainders.
use native.Mathlib.Nat.{pow-suc, one-le-pow, mod-lt, mod-eq_of_lt, pow-le-pow_right}
use mpl.Base.{
  ℕ, zero, suc, ◌+◌, ◌-◌, ◌/◌, ◌%◌, ◌^◌, ◌≤◌, ◌<◌, ◌≡◌, refl, ap, ◌∙◌, false, ◌==◌, ltb,
  if◌then◌else◌, Bool-cases, inl, inr, bit_and, arith,
}
use mpl.Base.Bits.{bit_and_mask, bit_and_comm}
use mpl.Decheck.{Tid, one_shl, mask, tree_depth, norm_path, msb_position}

-- An identifier that forks and joins make, below the greatest depth: bit `tree_depth` of its path
-- marks the end of the path.
pub record IsTid (t : Tid) : Type 0 where
  pub shallow : tree_depth t ≤ 30
  pub marked : 2 ^ tree_depth t ≤ norm_path t

pub pow_mono : (a b : ℕ) → a ≤ b → 2 ^ a ≤ 2 ^ b
pow_mono a b h = pow-le-pow_right (omega arith) h

pub one_shl_value : (n : ℕ) → n < 32 → one_shl n ≡ 2 ^ n
unfolding one_shl
one_shl_value n h = ap (λ x. 2 ^ x) (mod-eq_of_lt h)

pub mask_value : (n : ℕ) → n < 32 → mask n ≡ 2 ^ n - 1
mask_value n h =
    let value = one_shl_value n h in
    let positive = one-le-pow n 2 (omega arith) in
    let bound = pow_mono n 31 (omega (arith, h)) in omega (arith, value, positive, bound)

pub tree_depth_value : (t : Tid) → tree_depth t ≡ t.depth % 32
unfolding tree_depth
tree_depth_value t = bit_and_mask 5 t.depth

pub norm_path_value : (t : Tid) → tree_depth t ≤ 30 → norm_path t ≡ t.path % 2 ^ (tree_depth t + 1)
unfolding norm_path
norm_path_value t h =
    ap (bit_and t.path) (mask_value (tree_depth t + 1) (omega (arith, h)))
    ∙ bit_and_mask (tree_depth t + 1) t.path

pub norm_path-bound : (t : Tid) → tree_depth t ≤ 30 → norm_path t < 2 ^ suc (tree_depth t)
norm_path-bound t h =
    let less = mod-lt t.path (one-le-pow (tree_depth t + 1) 2 (omega arith)) in
    let same : 2 ^ (tree_depth t + 1) ≡ 2 ^ suc (tree_depth t) = ap (λ x. 2 ^ x) (omega arith) in
    omega (arith, norm_path_value t h, less, same)

-- The loop finds the position of the highest bit.
pub msb_position_lem :
    (fuel j x : ℕ) → 2 ^ j ≤ x → x < 2 ^ suc j → j < fuel → msb_position fuel x ≡ j
unfolding msb_position
msb_position_lem zero j x low high h = absurd (omega (arith, h))
msb_position_lem (suc fuel) zero x low high h =
    let one : x ≡ 1 = omega (arith, low, high) in rw (one, msb_position) refl
msb_position_lem (suc fuel) (suc j) x low high h =
    let p1 = pow-suc 2 j in
    let p2 = pow-suc 2 (suc j) in
    let positive = one-le-pow j 2 (omega arith) in
    let rest =
      msb_position_lem fuel j (x / 2) (omega (arith, low, p1)) (omega (arith, high, p2))
        (omega (arith, h)) in
    let more : (x == 1) ≡ false = ground (arith, low, p1, positive) in
    rw (more, msb_position) (ap suc rest)

-- The bits that two masks share.
pub shared : (a b : ℕ) → bit_and (2 ^ a - 1) (2 ^ b - 1) ≡ 2 ^ (if ltb a b then a else b) - 1
shared a b =
    let positive = one-le-pow a 2 (omega arith) in
    let positive2 = one-le-pow b 2 (omega arith) in
    elim (Bool-cases (ltb a b)) [
      | inl e ↦
          let le = pow_mono a b (ground (arith, e)) in
          rw e (bit_and_mask b (2 ^ a - 1) ∙ mod-eq_of_lt (omega (arith, le, positive)))
      | inr e ↦
          let le = pow_mono b a (ground (arith, e)) in
          rw e (
            bit_and_comm (2 ^ a - 1) (2 ^ b - 1)
            ∙ bit_and_mask a (2 ^ b - 1)
            ∙ mod-eq_of_lt (omega (arith, le, positive2)))
    ]
