-- ===== src/Decheck/Forks.antt =====
-- What GC_HH_decheckFork and GC_HH_decheckJoin of runtime/gc/decheck.c do to the depths and paths.
use native.Mathlib.Nat.{one-le-pow, mod-lt, mul-le-mul_right, div-add-mod'}
use mpl.Base.{
  ℕ, zero, suc, ◌+◌, ◌-◌, ◌*◌, ◌/◌, ◌%◌, ◌^◌, ◌≤◌, ◌<◌, ◌≡◌, refl, ap, ap₂, sym, ◌∙◌, bit_and,
  bit_or, max, arith,
}
use mpl.Base.Bits.{bit_or_step, pow_add}
use mpl.Objects.Masks.{bit_or_upper}
use mpl.Decheck.{Tid, one_shl, tree_depth, dag_depth, norm_path, fork_left, fork_right, joined}
use mpl.Decheck.Numbers.{IsTid, one_shl_value, tree_depth_value, norm_path_value}
use mpl.Decheck.Paths.{digits_mod, pow_double, marked_path, left_path, right_path, fork_depths}

-- What a forked task `c` of `t` is, where its path is that of `t` with `bits` more.
pub record IsForked (t c : Tid) (bits : ℕ) : Type 0 where
  pub valid : IsTid c
  pub deeper : tree_depth c ≡ tree_depth t + 1
  pub later : dag_depth c ≡ dag_depth t + 1
  pub extended : norm_path c ≡ norm_path t + bits * 2 ^ tree_depth t

forked :
    (t c : Tid) (bits : ℕ)
    → IsTid t
    → (tree_depth c ≡ tree_depth t + 1) × (dag_depth c ≡ dag_depth t + 1)
    → tree_depth t ≤ 29
    → c.path % 2 ^ (tree_depth t + 2) ≡ (bits + 1) * 2 ^ tree_depth t + t.path % 2 ^ tree_depth t
    → 1 ≤ bits
    → IsForked t c bits
forked t c bits is (deeper, later) small path some_bit =
    let h = tree_depth t in
    let shallow : tree_depth c ≤ 30 = omega (arith, deeper, small) in
    let length : tree_depth c + 1 ≡ h + 2 = omega (arith, deeper) in
    let value : norm_path c ≡ (bits + 1) * 2 ^ h + t.path % 2 ^ h =
      norm_path_value c shallow ∙ ap (λ x. c.path % 2 ^ x) length ∙ path in
    let parent = marked_path t is in
    let more : (bits + 1) * 2 ^ h ≡ bits * 2 ^ h + 2 ^ h = grind arith in
    let rows : 1 * 2 ^ h ≤ bits * 2 ^ h = mul-le-mul_right (2 ^ h) some_bit in
    let mark : 2 ^ tree_depth c ≡ 2 ^ h * 2 = ap (λ x. 2 ^ x) deeper ∙ pow_double h in
    record {
      valid = record { shallow = shallow; marked = omega (arith, mark, value, more, rows) };
      deeper = deeper;
      later = later;
      extended = omega (arith, value, more, parent);
    }

-- A fork makes two tasks one level deeper in the tree and in the graph, whose paths are those of the
-- task with the mark moved up, and with 0 or 1 in its place. They are valid again.
pub fork_lem :
    (t : Tid)
    → IsTid t
    → tree_depth t ≤ 29
    → t.depth + 33 < 2 ^ 32
    → IsForked t (fork_left t) 1 × IsForked t (fork_right t) 2
unfolding fork_left fork_right
fork_lem t is small room =
    let h = tree_depth t in
    let s1 = one_shl_value h (omega (arith, small)) in
    let s2 = one_shl_value (h + 1) (omega (arith, small)) in
    let left : bit_or (bit_and (t.path) (2 ^ 32 - 1 - one_shl h)) (one_shl (h + 1)) % 2 ^ (h + 2)
        ≡ 2 * 2 ^ h + t.path % 2 ^ h =
      rw (s1, s2) (left_path h t.path small) in
    let right : bit_or (bit_or (t.path) (one_shl h)) (one_shl (h + 1)) % 2 ^ (h + 2)
        ≡ 3 * 2 ^ h + t.path % 2 ^ h =
      rw (s1, s2) (right_path h t.path) in
    (
      forked t (fork_left t) 1 is (fork_depths t (fork_left t) refl small room) small left
          (omega arith),
      forked t (fork_right t) 2 is (fork_depths t (fork_right t) refl small room) small right
          (omega arith),
    )

same_rest : (d b r s : ℕ) → d < 4 → r < b → s < b → d * b + s ≡ 2 * b + r → s ≡ r
same_rest zero b r s l k j e = absurd (omega (arith, k, j, e))
same_rest (suc zero) b r s l k j e = absurd (omega (arith, k, j, e))
same_rest (suc (suc zero)) b r s l k j e = omega (arith, e)
same_rest (suc (suc (suc zero))) b r s l k j e = absurd (omega (arith, k, j, e))
same_rest (suc (suc (suc (suc d)))) b r s l k j e = absurd (omega (arith, l))

-- The lowest bits of a task on the left are those of the task that was forked.
left_rest :
    (t l : Tid)
    → IsTid t
    → tree_depth t ≤ 29
    → tree_depth l ≡ tree_depth t + 1
    → norm_path l ≡ norm_path t + 2 ^ tree_depth t
    → l.path % 2 ^ tree_depth t ≡ t.path % 2 ^ tree_depth t
left_rest t l is small deeper extended =
    let h = tree_depth t in
    let positive = one-le-pow h 2 (omega arith) in
    let shallow : tree_depth l ≤ 30 = omega (arith, deeper, small) in
    let range : 2 ^ (tree_depth l + 1) ≡ 2 ^ h * 4 =
      ap (λ x. 2 ^ (x + 1)) deeper ∙ ap (λ x. 2 ^ x) (plus_two h) ∙ omega (arith, pow_add h 2) in
    let q = l.path / 2 ^ h in
    let s = l.path % 2 ^ h in
    let less = mod-lt l.path positive in
    let value =
      norm_path_value l shallow
      ∙ ap₂ (λ x y. x % y) (sym (div-add-mod' l.path (2 ^ h))) range
      ∙ digits_mod 4 q (2 ^ h) s (omega arith) less in
    let parent = marked_path t is in
    same_rest (q % 4) (2 ^ h) (t.path % 2 ^ h) s (mod-lt q (omega arith)) (mod-lt t.path positive)
      less (omega (arith, value, parent, extended))
  where
    plus_two : (h : ℕ) → h + 1 + 1 ≡ h + 2
    plus_two h = omega arith

-- Joining a task on the left with one on the right gives back the place of the forked task in the
-- tree, later in the graph than both.
pub join_lem :
    (t l r : Tid)
    → IsTid t
    → tree_depth t ≤ 29
    → tree_depth l ≡ tree_depth t + 1
    → norm_path l ≡ norm_path t + 2 ^ tree_depth t
    → (max (dag_depth l) (dag_depth r) + 2) * 32 < 2 ^ 32
    → IsTid (joined l r)
      × (tree_depth (joined l r) ≡ tree_depth t)
      × (norm_path (joined l r) ≡ norm_path t)
      × (dag_depth (joined l r) ≡ max (dag_depth l) (dag_depth r) + 1)
unfolding joined dag_depth
join_lem t l r is small deeper extended room =
    let h = tree_depth t in
    let j = joined l r in
    let td : tree_depth l - 1 ≡ h = omega (arith, deeper) in
    let above = tree_depth_value j in
    let depth : tree_depth j ≡ h = omega (arith, above, td, small, room) in
    let dag : dag_depth j ≡ max (dag_depth l) (dag_depth r) + 1 = omega (arith, td, small, room) in
    let shallow : tree_depth j ≤ 30 = omega (arith, depth, small) in
    let shift : one_shl (tree_depth l - 1) ≡ 1 * 2 ^ h =
      ap one_shl td ∙ one_shl_value h (omega (arith, small)) ∙ omega arith in
    let positive = one-le-pow h 2 (omega arith) in
    let q = l.path / 2 ^ h in
    let s = l.path % 2 ^ h in
    let less = mod-lt l.path positive in
    let path : j.path ≡ bit_or q 1 * 2 ^ h + s =
      ap₂ bit_or (sym (div-add-mod' l.path (2 ^ h))) shift ∙ bit_or_upper h q s 1 less in
    let range : 2 ^ (tree_depth j + 1) ≡ 2 ^ h * 2 = ap (λ x. 2 ^ (x + 1)) depth ∙ pow_double h in
    let low : bit_or q 1 % 2 ≡ 1 = omega (arith, bit_or_step q 1) in
    let value : norm_path j ≡ 1 * 2 ^ h + s =
      norm_path_value j shallow
      ∙ ap₂ (λ x y. x % y) path range
      ∙ digits_mod 2 (bit_or q 1) (2 ^ h) s (omega arith) less
      ∙ ap (λ x. x * 2 ^ h + s) low in
    let rest = left_rest t l is small deeper extended in
    let parent = marked_path t is in
    let mark : 2 ^ tree_depth j ≡ 2 ^ h = ap (λ x. 2 ^ x) depth in
    (
      record { shallow = shallow; marked = omega (arith, mark, value) },
      depth,
      omega (arith, value, rest, parent),
      dag,
    )
