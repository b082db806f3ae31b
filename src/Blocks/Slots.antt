-- ===== src/Blocks/Slots.antt =====
-- The blocks of one superblock, as `allocateInSuperBlock` and `deallocateInSuperBlock` of
-- runtime/gc/block-allocator.c keep them: a superblock of a size class is a row of slots of
-- 2 ^ sizeClass blocks each.
use native.Mathlib.Nat.{mul-pos, one-le-pow, le_of_mul-le-mul_left}
use mpl.Base.{
  ℕ, ◌+◌, ◌-◌, ◌*◌, ◌^◌, ◌≤◌, ◌<◌, ◌≡◌, ◌≢◌, sym, subst, List, [], ◌∷◌, ◌++◌, length, arith,
}
use mpl.Base.Chain.{Fresh, Distinct, Chain}
use mpl.Blocks.{Controls, Memory, next_of}

-- Where the slot i of the superblock at `sb` begins.
unfoldable pub slot : Controls → ℕ → ℕ → ℕ → ℕ
slot c sb size_class i = sb + c.block_size + c.block_size * 2 ^ size_class * i

unfoldable pub slots : Controls → ℕ → ℕ → List ℕ → List ℕ
slots c sb size_class [] = []
slots c sb size_class (i ∷ is) = slot c sb size_class i ∷ slots c sb size_class is

-- The number of slots of a superblock.
abbrev pub capacity : Controls → ℕ → ℕ
capacity c size_class = 2 ^ (c.superblock_threshold - size_class)

-- All of the indices are below `u`.
abbrev pub Below : ℕ → List ℕ → Type 0
Below u [] = Unit {0}
Below u (i ∷ is) = (i < u) × Below u is

-- Slots below `u` have been handed out, of which those of `live` are in use and those of `free` are
-- on the free list, in its order.
pub record IsSuperBlock (c : Controls) (m : Memory) (sb size_class u : ℕ) (free live : List ℕ)
    : Type 0 where
  pub class_le : size_class ≤ c.superblock_threshold
  pub class_eq : (m.super_blocks sb).size_class ≡ size_class
  pub frontier_eq : (m.super_blocks sb).frontier ≡ slot c sb size_class u
  pub room : u ≤ capacity c size_class
  pub chain : Chain (next_of m) (m.super_blocks sb).first_free (slots c sb size_class free)
  pub distinct : Distinct (live ++ free)
  pub below : Below u (live ++ free)
  pub count : length live + length free ≡ u
  pub blocks_free :
      (m.super_blocks sb).num_blocks_free ≡ 2 ^ size_class * (capacity c size_class - length live)

pub slot-inj :
    (c : Controls) (sb k i j : ℕ) → 0 < c.block_size → slot c sb k i ≡ slot c sb k j → i ≡ j
unfolding slot
slot-inj c sb k i j h e =
    let width = mul-pos h (one-le-pow k 2 (omega arith)) in
    let above : c.block_size * 2 ^ k * i ≤ c.block_size * 2 ^ k * j = omega (arith, e) in
    let under : c.block_size * 2 ^ k * j ≤ c.block_size * 2 ^ k * i = omega (arith, e) in
    omega (arith, le_of_mul-le-mul_left above width, le_of_mul-le-mul_left under width)

pub slots-Fresh :
    (c : Controls) (sb k i : ℕ) (is : List ℕ)
    → 0 < c.block_size
    → Fresh i is
    → Fresh (slot c sb k i) (slots c sb k is)
unfolding slots
slots-Fresh c sb k i [] h f = tt
slots-Fresh c sb k i (j ∷ is) h f =
    (λ e. f.0 (slot-inj c sb k i j h e), slots-Fresh c sb k i is h f.1)

pub Below-Fresh : (u : ℕ) (is : List ℕ) → Below u is → Fresh u is
Below-Fresh u [] b = tt
Below-Fresh u (i ∷ is) b = ((λ e. omega (arith, b.0, e)), Below-Fresh u is b.1)

pub Below-suc : (u : ℕ) (is : List ℕ) → Below u is → Below (u + 1) is
Below-suc u [] b = tt
Below-suc u (i ∷ is) b = (omega (arith, b.0), Below-suc u is b.1)

-- Between two memories that agree on the headers of the others, a chain outside `q` is kept.
pub Chain-kept :
    (m n : Memory) (p : ℕ) (xs : List ℕ) (q : ℕ)
    → ((b : ℕ) → b ≢ q → next_of n b ≡ next_of m b)
    → Chain (next_of m) p xs
    → Fresh q xs
    → Chain (next_of n) p xs
Chain-kept m n p [] q agree c f = c
Chain-kept m n p (x ∷ xs) q agree c f = (
  c.0,
  c.1,
  subst (λ z. Chain (next_of n) z xs) (sym (agree x (λ e. f.0 (sym e))))
      (Chain-kept m n (next_of m x) xs q agree c.2 f.1),
)
