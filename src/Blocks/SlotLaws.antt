-- ===== src/Blocks/SlotLaws.antt =====
-- The allocation and the freeing of blocks within one superblock, of
-- runtime/gc/block-allocator.c.
use mpl.Base.{
  ℕ, suc, ◌+◌, ◌-◌, ◌*◌, ◌^◌, ◌<◌, ◌≡◌, ◌≢◌, sym, subst, List, [], ◌∷◌, ◌++◌, append-nil, length,
  arith,
}
use mpl.Base.Chain.{Fresh, Distinct, Chain}
use mpl.Blocks.{Controls, Memory, next_of}
use mpl.Blocks.Super.{take_block}
use mpl.Blocks.Unlink.{Fresh-at, Fresh-right}
use mpl.Blocks.Slots.{
  slot, slots, capacity, Below, IsSuperBlock, slots-Fresh, Below-Fresh, Below-suc, Chain-kept,
}

slot-suc : (c : Controls) (sb k u : ℕ) → slot c sb k u + c.block_size * 2 ^ k ≡ slot c sb k (u + 1)
unfolding slot
slot-suc c sb k u = grind arith

pub take_away : (a b n : ℕ) → n < b → a * (b - n) - a ≡ a * (b - suc n)
take_away a b n h = subst (λ z. a * z - a ≡ a * (b - suc n)) (next) (grind arith)
  where
    next : suc (b - suc n) ≡ b - n
    next = omega (arith, h)

-- The next slot of the row.
pub take_block-new :
    (c : Controls) (m : Memory) (sb k u : ℕ) (live : List ℕ) (purpose : ℕ)
    → 0 < c.block_size
    → IsSuperBlock c m sb k u [] live
    → u < capacity c k
    → ((take_block c m sb purpose).1 ≡ slot c sb k u)
      × IsSuperBlock c (take_block c m sb purpose).0 sb k (u + 1) [] (u ∷ live)
unfolding take_block slots
take_block-new c m sb k u live purpose pos inv room =
    let none_free = inv.chain in
    let ce = inv.class_eq in
    let fe = inv.frontier_eq in
    let counted = inv.count in
    let all : length live ≡ u = omega (arith, counted) in
    (
      ground (arith, none_free, fe),
      record {
        class_le = inv.class_le;
        class_eq = ground (arith, none_free, ce);
        frontier_eq = ground (arith, none_free, ce, fe, slot-suc c sb k u);
        room = omega (arith, room);
        chain = ground (arith, none_free);
        distinct = (
          subst (Fresh u) (sym (append-nil live))
              (Below-Fresh u live (subst (Below u) (append-nil live) inv.below)),
          inv.distinct,
        );
        below = (omega arith, Below-suc u (live ++ []) inv.below);
        count = omega (arith, counted);
        blocks_free =
            ground
              (arith, none_free, ce, inv.blocks_free, all, take_away (2 ^ k) (capacity c k) u room);
      },
    )

pub Fresh-insert :
    (x : ℕ) (xs : List ℕ) (y : ℕ) (ys : List ℕ)
    → x ≢ y
    → Fresh x (xs ++ ys)
    → Fresh x (xs ++ y ∷ ys)
Fresh-insert x [] y ys h f = (h, f)
Fresh-insert x (z ∷ xs) y ys h f = (f.0, Fresh-insert x xs y ys h f.1)

-- The middle of a list of distinct indices may become its first, and back.
pub Fresh-middle :
    (xs : List ℕ) (y : ℕ) (ys : List ℕ) → Distinct (xs ++ y ∷ ys) → Fresh y (xs ++ ys)
Fresh-middle [] y ys d = d.0
Fresh-middle (x ∷ xs) y ys d = ((λ e. Fresh-at x xs y ys d.0 (sym e)), Fresh-middle xs y ys d.1)

Fresh-remove :
    (x : ℕ) (xs : List ℕ) (y : ℕ) (ys : List ℕ) → Fresh x (xs ++ y ∷ ys) → Fresh x (xs ++ ys)
Fresh-remove x [] y ys f = f.1
Fresh-remove x (z ∷ xs) y ys f = (f.0, Fresh-remove x xs y ys f.1)

pub Distinct-remove :
    (xs : List ℕ) (y : ℕ) (ys : List ℕ) → Distinct (xs ++ y ∷ ys) → Distinct (xs ++ ys)
Distinct-remove [] y ys d = d.1
Distinct-remove (x ∷ xs) y ys d = (Fresh-remove x xs y ys d.0, Distinct-remove xs y ys d.1)

pub Distinct-insert :
    (xs : List ℕ) (y : ℕ) (ys : List ℕ)
    → Fresh y (xs ++ ys)
    → Distinct (xs ++ ys)
    → Distinct (xs ++ y ∷ ys)
Distinct-insert [] y ys f d = (f, d)
Distinct-insert (x ∷ xs) y ys f d =
    (Fresh-insert x xs y ys (λ e. f.0 (sym e)) d.0, Distinct-insert xs y ys f.1 d.1)

pub Below-middle :
    (u : ℕ) (xs : List ℕ) (y : ℕ) (ys : List ℕ)
    → Below u (xs ++ y ∷ ys)
    → (y < u) × Below u (xs ++ ys)
Below-middle u [] y ys b = b
Below-middle u (x ∷ xs) y ys b = let r = Below-middle u xs y ys b.1 in (r.0, (b.0, r.1))

pub Below-insert :
    (u : ℕ) (xs : List ℕ) (y : ℕ) (ys : List ℕ)
    → y < u
    → Below u (xs ++ ys)
    → Below u (xs ++ y ∷ ys)
Below-insert u [] y ys h b = (h, b)
Below-insert u (x ∷ xs) y ys h b = (b.0, Below-insert u xs y ys h b.1)

take_block-first_free :
    (c : Controls) (m : Memory) (sb k i purpose : ℕ)
    → (m.super_blocks sb).first_free ≡ slot c sb k i
    → slot c sb k i ≢ 0
    → ((take_block c m sb purpose).0.super_blocks sb).first_free ≡ next_of m (slot c sb k i)
unfolding take_block
take_block-first_free c m sb k i purpose at nonzero = ground (arith, at, nonzero)

take_block-next_of :
    (c : Controls) (m : Memory) (sb k i purpose : ℕ)
    → (m.super_blocks sb).first_free ≡ slot c sb k i
    → slot c sb k i ≢ 0
    → (b : ℕ) → b ≢ slot c sb k i
    → next_of (take_block c m sb purpose).0 b ≡ next_of m b
unfolding take_block
take_block-next_of c m sb k i purpose at nonzero b h = ground (arith, at, nonzero)

-- The first block of the free list.
pub take_block-free :
    (c : Controls) (m : Memory) (sb k u i : ℕ) (free live : List ℕ) (purpose : ℕ)
    → 0 < c.block_size
    → IsSuperBlock c m sb k u (i ∷ free) live
    → ((take_block c m sb purpose).1 ≡ slot c sb k i)
      × IsSuperBlock c (take_block c m sb purpose).0 sb k u free (i ∷ live)
unfolding take_block slots
take_block-free c m sb k u i free live purpose pos inv =
    let (at, nonzero, rest) = inv.chain in
    let ce = inv.class_eq in
    let fe = inv.frontier_eq in
    let middle = Below-middle u live i free inv.below in
    let middle_new = Fresh-middle live i free inv.distinct in
    let counted = inv.count in
    let left : length live < capacity c k = omega (arith, counted, inv.room) in
    (
      ground (arith, at, nonzero),
      record {
        class_le = inv.class_le;
        class_eq = ground (arith, at, nonzero, ce);
        frontier_eq = ground (arith, at, nonzero, fe);
        room = inv.room;
        chain =
            subst (λ p. Chain (next_of (take_block c m sb purpose).0) p (slots c sb k free))
              (sym (take_block-first_free c m sb k i purpose at nonzero))
              (Chain-kept m (take_block c m sb purpose).0 (next_of m (slot c sb k i))
                (slots c sb k free) (slot c sb k i)
                (take_block-next_of c m sb k i purpose at nonzero) rest
                (slots-Fresh c sb k i free pos (Fresh-right i live free middle_new)));
        distinct = (middle_new, Distinct-remove live i free inv.distinct);
        below = middle;
        count = omega (arith, counted);
        blocks_free = ground (
          arith,
          at,
          nonzero,
          ce,
          inv.blocks_free,
          take_away (2 ^ k) (capacity c k) (length live) left,
        );
      },
    )
