-- ===== src/Blocks/Remote.antt =====
-- The blocks that other processors freed, in runtime/gc/block-allocator.c: `freeBlocks` pushes them
-- and `clearOutOtherFrees` frees them.
use mpl.Base.{
  ℕ, zero, suc, ◌≤◌, ◌≡◌, ◌≢◌, ◌==◌, inl, inr, refl, sym, ap, subst, ◌∙◌, List, [], ◌∷◌, length,
  some, Bool-cases, arith,
}
use mpl.Base.Chain.{Fresh, Distinct, Chain}
use mpl.Blocks.{Controls, Header, Memory, next_of, set_allocator}
use mpl.Blocks.Slots.{Chain-kept}
use mpl.Blocks.Group.{
  SuperBlockList, first_super_block, size_class_list, empty_list, set_first_super_block,
  unlink_super_block, unlink_before, unlink_after, prepend_super_block,
}
use mpl.Blocks.Super.{local_free_blocks}
use mpl.Blocks.SlotCycle.{deallocate-others}
use mpl.Blocks.Api.{free_others, clear_out_other_frees, push_freed_by_other}

headers-set :
    (m : Memory) (l : SuperBlockList) (v : ℕ) → (set_first_super_block m l v).headers ≡ m.headers
unfolding set_first_super_block
headers-set m (size_class_list ball i) v = refl
headers-set m (empty_list ball) v = refl

headers-before :
    (m : Memory) (l : SuperBlockList) (sb : ℕ) → (unlink_before m l sb).headers ≡ m.headers
unfolding unlink_before
headers-before m l sb = elim (Bool-cases ((m.super_blocks sb).prev_super_block == 0)) [
  | inl e ↦ rw e (headers-set m l (m.super_blocks sb).next_super_block)
  | inr e ↦ rw e refl
]

headers-after : (m : Memory) (sb : ℕ) → (unlink_after m sb).headers ≡ m.headers
unfolding unlink_after
headers-after m sb = elim (Bool-cases ((m.super_blocks sb).next_super_block == 0)) [
  | inl e ↦ rw e refl
  | inr e ↦ rw e refl
]

headers-unlink :
    (m : Memory) (l : SuperBlockList) (sb : ℕ) → (unlink_super_block m l sb).headers ≡ m.headers
unfolding unlink_super_block
headers-unlink m l sb = headers-after (unlink_before m l sb) sb ∙ headers-before m l sb

headers-prepend :
    (m : Memory) (l : SuperBlockList) (sb : ℕ) → (prepend_super_block m l sb).headers ≡ m.headers
unfolding prepend_super_block
headers-prepend m l sb = elim (Bool-cases (first_super_block m l == 0)) [
  | inl e ↦ rw e (headers-set _ l sb)
  | inr e ↦ rw e (headers-set _ l sb)
]

local_free_blocks-next :
    (c : Controls) (m : Memory) (sb b x : ℕ)
    → x ≢ b
    → next_of (local_free_blocks c m sb b) x ≡ next_of m x
unfolding local_free_blocks
local_free_blocks-next c m sb b x h =
    ap (λ (hs : ℕ → Header). (hs x).word0) (headers-prepend _ _ sb)
    ∙ deallocate-others _ sb b x h
    ∙ ap (λ (hs : ℕ → Header). (hs x).word0) (headers-unlink m _ sb)

-- The blocks are freed one by one, each to the superblock it names when its turn comes.
abbrev pub free_all : Controls → Memory → List ℕ → Memory
free_all c m [] = m
free_all c m (x ∷ xs) = free_all c (local_free_blocks c m (m.headers x).word1 x) xs

free_others_lem :
    (fuel : ℕ) (c : Controls) (m : Memory) (top : ℕ) (xs : List ℕ)
    → Chain (next_of m) top xs
    → Distinct xs
    → length xs ≤ fuel
    → free_others fuel c m top ≡ some (free_all c m xs)
unfolding free_others
free_others_lem zero c m top [] ch d h = ground arith
free_others_lem zero c m top (x ∷ xs) ch d h = absurd (omega (arith, h))
free_others_lem (suc fuel) c m top [] ch d h = ground arith
free_others_lem (suc fuel) c m top (x ∷ xs) (at, nonzero, ch) d h =
    let after = local_free_blocks c m (m.headers x).word1 x in
    let kept =
      Chain-kept m after (next_of m x) xs x
        (λ b ne. local_free_blocks-next c m (m.headers x).word1 x b ne) ch d.0 in
    let rest = free_others_lem fuel c after (next_of m x) xs kept d.1 (omega (arith, h)) in
    ground (arith, at, nonzero, rest)

-- Where n distinct blocks freed by others wait in the list, a fuel of n suffices: the list is
-- emptied, and each of them is freed once, in its order, to the superblock it names.
pub clear_out_other_frees_lem :
    (fuel : ℕ) (c : Controls) (m : Memory) (local : ℕ) (xs : List ℕ)
    → Chain (next_of m) (m.allocators local).first_freed_by_other xs
    → Distinct xs
    → length xs ≤ fuel
    → clear_out_other_frees fuel c m local
      ≡ some (
          free_all c
            (set_allocator m local (record (m.allocators local) { first_freed_by_other = 0 }))
            xs)
unfolding clear_out_other_frees
clear_out_other_frees_lem fuel c m local xs ch d h =
    free_others_lem fuel c
      (set_allocator m local (record (m.allocators local) { first_freed_by_other = 0 }))
      (m.allocators local).first_freed_by_other xs ch d h

push-word0 :
    (m : Memory) (owner elem : ℕ)
    → next_of (push_freed_by_other m owner elem) elem ≡ (m.allocators owner).first_freed_by_other
unfolding push_freed_by_other
push-word0 m owner elem = ground arith

push-others :
    (m : Memory) (owner elem b : ℕ)
    → b ≢ elem
    → next_of (push_freed_by_other m owner elem) b ≡ next_of m b
unfolding push_freed_by_other
push-others m owner elem b h = ground arith

-- A block pushed by another processor stands at the head of the owner's list, before those that
-- waited there.
pub push_freed_by_other_lem :
    (m : Memory) (owner elem : ℕ) (xs : List ℕ)
    → Chain (next_of m) (m.allocators owner).first_freed_by_other xs
    → elem ≢ 0
    → Fresh elem xs
    → Chain
        (next_of (push_freed_by_other m owner elem))
        ((push_freed_by_other m owner elem).allocators owner).first_freed_by_other
        (elem ∷ xs)
unfolding push_freed_by_other
push_freed_by_other_lem m owner elem xs ch h f = (
  ground arith,
  h,
  subst (λ p. Chain (next_of (push_freed_by_other m owner elem)) p xs)
      (sym (push-word0 m owner elem))
      (Chain-kept m (push_freed_by_other m owner elem) (m.allocators owner).first_freed_by_other xs
        elem (push-others m owner elem) ch f),
)
