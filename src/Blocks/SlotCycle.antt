-- ===== src/Blocks/SlotCycle.antt =====
-- `allocateInSuperBlock` and `deallocateInSuperBlock` of runtime/gc/block-allocator.c against the
-- set of the blocks in use.
use native.Mathlib.Nat.{one-le-pow, mul-lt-mul_of_pos_left}
use mathlib.Core.List.{nil≢cons}
use mpl.Base.{
  ℕ, suc, ◌+◌, ◌-◌, ◌*◌, ◌^◌, ◌≤◌, ◌<◌, ◌≡◌, ◌≢◌, ◌==◌, ◌⊎◌, inl, inr, refl, sym, ap, subst, ◌∙◌,
  List, [], ◌∷◌, ◌++◌, false, ==→eq, append_assoc, length, length-append, Bool-cases, arith,
}
use mpl.Base.Bits.{pow_add}
use mpl.Base.Chain.{Fresh, Distinct, Chain}
use mpl.Blocks.{Controls, superblock_size, Memory, next_of}
use mpl.Blocks.Super.{
  take_block, allocate_in_super_block, deallocate_in_super_block, set_super_block_size_class,
}
use mpl.Blocks.Unlink.{Fresh-right}
use mpl.Blocks.Slots.{slot, slots, capacity, Below, IsSuperBlock, slots-Fresh, Chain-kept}
use mpl.Blocks.SlotLaws.{
  take_block-new, take_block-free, Fresh-middle, Distinct-remove, Distinct-insert, Below-middle,
  Below-insert,
}

-- The superblock has a free slot: it lies at `i`, which no block in use holds, and after the
-- allocation it is in use.
take_block-slot :
    (c : Controls) (m : Memory) (sb k u : ℕ) (free live : List ℕ) (purpose : ℕ)
    → 0 < c.block_size
    → IsSuperBlock c m sb k u free live
    → length live < capacity c k
    → (i : ℕ) × (v : ℕ) × (rest : List ℕ) × ((take_block c m sb purpose).1 ≡ slot c sb k i)
      × (i < capacity c k)
      × IsSuperBlock c (take_block c m sb purpose).0 sb k v rest (i ∷ live)
take_block-slot c m sb k u [] live purpose pos inv room =
    let counted = inv.count in
    let free : u < capacity c k = omega (arith, counted, room) in
    let (at, after) = take_block-new c m sb k u live purpose pos inv free in
    (u, u + 1, [], at, free, after)
take_block-slot c m sb k u (i ∷ free) live purpose pos inv room =
    let (at, after) = take_block-free c m sb k u i free live purpose pos inv in
    (i, u, free, at, omega (arith, (Below-middle u live i free inv.below).0, inv.room), after)

give_back : (a b n : ℕ) → n < b → a * (b - suc n) + a ≡ a * (b - n)
give_back a b n h = subst (λ z. a * (b - suc n) + a ≡ a * z) next (grind arith)
  where
    next : suc (b - suc n) ≡ b - n
    next = omega (arith, h)

classes-fill :
    (c : Controls) (k : ℕ) → k ≤ c.superblock_threshold → 2 ^ k * capacity c k ≡ superblock_size c
classes-fill c k le =
    sym (pow_add k (c.superblock_threshold - k)) ∙ ap (λ z. 2 ^ z) (omega (arith, le))

none-live :
    (c : Controls) (m : Memory) (sb k u : ℕ) (free live : List ℕ)
    → IsSuperBlock c m sb k u free live
    → length live < capacity c k
    → (m.super_blocks sb).num_blocks_free ≡ superblock_size c
    → live ≡ []
none-live c m sb k u free [] inv room e = refl
none-live c m sb k u free (i ∷ live) inv room e =
    let less : capacity c k - suc (length live) < capacity c k = omega (arith, room) in
    let short = mul-lt-mul_of_pos_left less (one-le-pow k 2 (omega arith)) in
    let counted = inv.blocks_free in
    absurd (omega (arith, short, counted, e, classes-fill c k inv.class_le))

reset-IsSuperBlock :
    (c : Controls) (m : Memory) (sb size_class : ℕ)
    → size_class ≤ c.superblock_threshold
    → (m.super_blocks sb).num_blocks_free ≡ superblock_size c
    → IsSuperBlock c (set_super_block_size_class c m sb size_class) sb size_class 0 [] []
unfolding set_super_block_size_class slot slots
reset-IsSuperBlock c m sb size_class le e = record {
  class_le = le;
  class_eq = ground arith;
  frontier_eq = ground arith;
  room = omega arith;
  chain = ground arith;
  distinct = tt;
  below = tt;
  count = omega arith;
  blocks_free = ground (arith, e, classes-fill c size_class le);
}

some-live :
    (c : Controls) (m : Memory) (sb k u size_class : ℕ) (free live : List ℕ)
    → IsSuperBlock c m sb k u free live
    → ((m.super_blocks sb).num_blocks_free == superblock_size c) ≡ false
    → (live ≡ []) ⊎ (size_class ≡ k)
    → size_class ≡ k
some-live c m sb k u size_class free live inv e (inr same) = same
some-live c m sb k u size_class free [] inv e (inl h) =
    ground (arith, inv.blocks_free, classes-fill c k inv.class_le)
some-live c m sb k u size_class free (i ∷ live) inv e (inl h) = absurd (nil≢cons (sym h))

-- Where the superblock is of the class asked for, or has no block in use, and has room for a block
-- of that class, an allocation returns a slot that no block in use holds and that lies within the
-- superblock, and the slots in use are the earlier ones and this.
pub allocate_in_super_block_lem :
    (c : Controls) (m : Memory) (sb k u : ℕ) (free live : List ℕ) (size_class purpose : ℕ)
    → 0 < c.block_size
    → size_class ≤ c.superblock_threshold
    → IsSuperBlock c m sb k u free live
    → (live ≡ []) ⊎ (size_class ≡ k)
    → length live < capacity c k
    → (i : ℕ) × (v : ℕ) × (rest : List ℕ) × ((allocate_in_super_block c m sb size_class purpose).1
        ≡ slot c sb size_class i)
      × (i < capacity c size_class)
      × IsSuperBlock c
          (allocate_in_super_block c m sb size_class purpose).0
          sb
          size_class
          v
          rest
          (i ∷ live)
unfolding allocate_in_super_block
allocate_in_super_block_lem c m sb k u free live size_class purpose pos le inv kind room =
    elim (Bool-cases ((m.super_blocks sb).num_blocks_free == superblock_size c)) [
      | inl e ↦
          let whole = ==→eq _ _ e in
          let none = none-live c m sb k u free live inv room whole in
          rw (e, none)
            (take_block-slot c (set_super_block_size_class c m sb size_class) sb size_class 0 [] []
              purpose pos (reset-IsSuperBlock c m sb size_class le whole)
              (one-le-pow (c.superblock_threshold - size_class) 2 (omega arith)))
      | inr e ↦
          let same = some-live c m sb k u size_class free live inv e kind in
          rw (e, same) (take_block-slot c m sb k u free live purpose pos inv room)
    ]

slot-some : (c : Controls) (sb k i : ℕ) → 0 < c.block_size → slot c sb k i ≢ 0
unfolding slot
slot-some c sb k i pos = λ e. omega (arith, e, pos)

deallocate-word0 :
    (m : Memory) (sb block : ℕ)
    → next_of (deallocate_in_super_block m sb block) block ≡ (m.super_blocks sb).first_free
unfolding deallocate_in_super_block
deallocate-word0 m sb block = ground arith

pub deallocate-others :
    (m : Memory) (sb block b : ℕ)
    → b ≢ block
    → next_of (deallocate_in_super_block m sb block) b ≡ next_of m b
unfolding deallocate_in_super_block
deallocate-others m sb block b h = ground arith

-- Freeing the block of a slot in use takes the slot, and no other, out of use.
pub deallocate_in_super_block_lem :
    (c : Controls) (m : Memory) (sb k u i : ℕ) (free before after : List ℕ)
    → 0 < c.block_size
    → IsSuperBlock c m sb k u free (before ++ i ∷ after)
    → IsSuperBlock c
        (deallocate_in_super_block m sb (slot c sb k i))
        sb
        k
        u
        (i ∷ free)
        (before ++ after)
unfolding deallocate_in_super_block slots
deallocate_in_super_block_lem c m sb k u i free before after pos inv =
    let given = append_assoc before (i ∷ after) free in
    let wanted = append_assoc before after free in
    let distinct = subst Distinct given inv.distinct in
    let others = subst (Fresh i) (sym wanted) (Fresh-middle before i (after ++ free) distinct) in
    let (low, lows) = Below-middle u before i (after ++ free) (subst (Below u) given inv.below) in
    let nonzero = slot-some c sb k i pos in
    let counted = inv.count in
    let longer = length-append before (i ∷ after) in
    let left : length (before ++ after) < capacity c k =
      omega (arith, counted, longer, length-append before after, inv.room) in
    let one_less : length (before ++ i ∷ after) ≡ suc (length (before ++ after)) =
      omega (arith, longer, length-append before after) in
    record {
      class_le = inv.class_le;
      class_eq = ground (arith, inv.class_eq);
      frontier_eq = ground (arith, inv.frontier_eq);
      room = inv.room;
      chain = (
        ground arith,
        nonzero,
        subst
            (λ p.
              Chain (next_of (deallocate_in_super_block m sb (slot c sb k i))) p
                (slots c sb k free))
            (sym (deallocate-word0 m sb (slot c sb k i)))
            (Chain-kept m (deallocate_in_super_block m sb (slot c sb k i))
              (m.super_blocks sb).first_free (slots c sb k free) (slot c sb k i)
              (deallocate-others m sb (slot c sb k i)) inv.chain
              (slots-Fresh c sb k i free pos (Fresh-right i (before ++ after) free others))),
      );
      distinct =
          Distinct-insert (before ++ after) i free others
            (subst Distinct (sym wanted) (Distinct-remove before i (after ++ free) distinct));
      below = Below-insert u (before ++ after) i free low (subst (Below u) (sym wanted) lows);
      count =
          omega (arith, inv.count, length-append before (i ∷ after), length-append before after);
      blocks_free = ground (
        arith,
        inv.class_eq,
        inv.blocks_free,
        one_less,
        give_back (2 ^ k) (capacity c k) (length (before ++ after)) left,
      );
    }
