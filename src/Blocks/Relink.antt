-- ===== src/Blocks/Relink.antt =====
-- What `unlinkSuperBlock` of runtime/gc/block-allocator.c writes.
use mpl.Base.{
  ℕ, ◌≡◌, ◌≢◌, ◌==◌, if◌then◌else◌, Bool-cases, inl, inr, refl, sym, ap, ◌∙◌, List, [], ◌∷◌, ◌++◌,
  arith,
}
use mpl.Base.Chain.{update, Fresh, Distinct}
use mpl.Blocks.{SuperBlock, Memory}
use mpl.Blocks.Group.{
  SuperBlockList, size_class_list, empty_list, set_next, set_prev, unlink_before, unlink_after,
  first_super_block, unlink_super_block,
}
use mpl.Blocks.Links.{Linked, IsList, first-set, super_blocks-set}
use mpl.Blocks.Unlink.{last_or, head_or_null, entry, neighbours, Fresh-last, Fresh-at, unlinked}

-- What the statements of `unlinkSuperBlock` leave of the superblocks.
before_links : (ℕ → SuperBlock) → ℕ → ℕ → SuperBlock
before_links s sb =
    let p = (s sb).prev_super_block in
    if p == 0 then s else update s p (record (s p) { next_super_block = (s sb).next_super_block })

after_links : (ℕ → SuperBlock) → ℕ → ℕ → SuperBlock
after_links s sb =
    let n = (s sb).next_super_block in
    if n == 0 then s else update s n (record (s n) { prev_super_block = (s sb).prev_super_block })

clear_links : (ℕ → SuperBlock) → ℕ → ℕ → SuperBlock
clear_links s sb =
    let c = update s sb (record (s sb) { prev_super_block = 0 }) in
    update c sb (record (c sb) { next_super_block = 0 })

before-super_blocks :
    (m : Memory) (l : SuperBlockList) (sb : ℕ)
    → (unlink_before m l sb).super_blocks ≡ before_links m.super_blocks sb
unfolding unlink_before before_links
before-super_blocks m l sb = elim (Bool-cases ((m.super_blocks sb).prev_super_block == 0)) [
  | inl e ↦ rw e (super_blocks-set m l (m.super_blocks sb).next_super_block)
  | inr e ↦ rw e refl
]

after-super_blocks :
    (m : Memory) (sb : ℕ) → (unlink_after m sb).super_blocks ≡ after_links m.super_blocks sb
unfolding unlink_after after_links
after-super_blocks m sb = elim (Bool-cases ((m.super_blocks sb).next_super_block == 0)) [
  | inl e ↦ rw e refl
  | inr e ↦ rw e refl
]

after-first :
    (m : Memory) (l : SuperBlockList) (sb : ℕ)
    → first_super_block (unlink_after m sb) l ≡ first_super_block m l
unfolding unlink_after first_super_block
after-first m (size_class_list b i) sb =
    elim (Bool-cases ((m.super_blocks sb).next_super_block == 0)) [
      | inl e ↦ rw e refl
      | inr e ↦ rw e refl
    ]
after-first m (empty_list b) sb = elim (Bool-cases ((m.super_blocks sb).next_super_block == 0)) [
  | inl e ↦ rw e refl
  | inr e ↦ rw e refl
]

clear-first :
    (m : Memory) (l : SuperBlockList) (sb : ℕ)
    → first_super_block (set_next (set_prev m sb 0) sb 0) l ≡ first_super_block m l
unfolding first_super_block
clear-first m (size_class_list b i) sb = refl
clear-first m (empty_list b) sb = refl

unlink_links : (ℕ → SuperBlock) → ℕ → ℕ → SuperBlock
unlink_links s sb = clear_links (after_links (before_links s sb) sb) sb

unlink-super_blocks :
    (m : Memory) (l : SuperBlockList) (sb : ℕ)
    → (unlink_super_block m l sb).super_blocks ≡ unlink_links m.super_blocks sb
unfolding unlink_super_block unlink_links clear_links
unlink-super_blocks m l sb =
    ap (λ s. clear_links s sb)
      (after-super_blocks (unlink_before m l sb) sb
        ∙ ap (λ s. after_links s sb) (before-super_blocks m l sb))

before-first :
    (m : Memory) (l : SuperBlockList) (sb : ℕ)
    → first_super_block (unlink_before m l sb) l ≡ (
        if (m.super_blocks sb).prev_super_block == 0
        then (m.super_blocks sb).next_super_block
        else first_super_block m l)
unfolding unlink_before first_super_block
before-first m (size_class_list b i) sb =
    elim (Bool-cases ((m.super_blocks sb).prev_super_block == 0)) [
      | inl e ↦ rw e (first-set m (size_class_list b i) (m.super_blocks sb).next_super_block)
      | inr e ↦ rw e refl
    ]
before-first m (empty_list b) sb = elim (Bool-cases ((m.super_blocks sb).prev_super_block == 0)) [
  | inl e ↦ rw e (first-set m (empty_list b) (m.super_blocks sb).next_super_block)
  | inr e ↦ rw e refl
]

unlink-first :
    (m : Memory) (l : SuperBlockList) (sb : ℕ)
    → first_super_block (unlink_super_block m l sb) l ≡ (
        if (m.super_blocks sb).prev_super_block == 0
        then (m.super_blocks sb).next_super_block
        else first_super_block m l)
unfolding unlink_super_block
unlink-first m l sb =
    clear-first (unlink_after (unlink_before m l sb) sb) l sb
    ∙ after-first (unlink_before m l sb) l sb
    ∙ before-first m l sb

module _ (s : ℕ → SuperBlock) (sb : ℕ) (not_before : (s sb).prev_super_block ≢ sb)
    (not_after : (s sb).next_super_block ≢ sb) where
  unlink_links_self :
      ((unlink_links s sb sb).prev_super_block ≡ 0) × ((unlink_links s sb sb).next_super_block ≡ 0)
  unfolding unlink_links clear_links
  unlink_links_self = ground arith

  next_kept :
      (x : ℕ)
      → x ≢ sb
      → x ≢ (s sb).prev_super_block
      → (unlink_links s sb x).next_super_block ≡ (s x).next_super_block
  unfolding unlink_links clear_links after_links before_links
  next_kept x h k = ground arith

  prev_kept :
      (x : ℕ)
      → x ≢ sb
      → x ≢ (s sb).next_super_block
      → (unlink_links s sb x).prev_super_block ≡ (s x).prev_super_block
  unfolding unlink_links clear_links after_links before_links
  prev_kept x h k = ground arith

  p_next :
      (s sb).prev_super_block ≢ 0
      → (unlink_links s sb (s sb).prev_super_block).next_super_block ≡ (s sb).next_super_block
  unfolding unlink_links clear_links after_links before_links
  p_next h = ground arith

  n_prev :
      (s sb).next_super_block ≢ 0
      → (unlink_links s sb (s sb).next_super_block).prev_super_block ≡ (s sb).prev_super_block
  unfolding unlink_links clear_links after_links before_links
  n_prev h = ground arith

last-ne : (b sb : ℕ) (xs ys : List ℕ) → b ≢ sb → Distinct (xs ++ sb ∷ ys) → last_or b xs ≢ sb
unfolding last_or
last-ne b sb [] ys h d = h
last-ne b sb (x ∷ xs) ys h d = last-ne x sb xs ys (Fresh-at x xs sb ys d.0) d.1

head-ne : (sb : ℕ) (xs ys : List ℕ) → sb ≢ 0 → Distinct (xs ++ sb ∷ ys) → head_or_null ys ≢ sb
unfolding head_or_null
head-ne sb [] [] h d = λ e. h (sym e)
head-ne sb [] (y ∷ ys) h d = λ e. d.0.0 (sym e)
head-ne sb (x ∷ xs) ys h d = head-ne sb xs ys h d.1

Fresh-null : (s : ℕ → SuperBlock) (before q : ℕ) (xs : List ℕ) → Linked s before q xs → Fresh 0 xs
Fresh-null s before q [] c = tt
Fresh-null s before q (x ∷ xs) c = (λ e. c.1 (sym e), Fresh-null s x (s x).next_super_block xs c.3)

not-null :
    (s : ℕ → SuperBlock) (before q sb : ℕ) (xs ys : List ℕ)
    → Linked s before q (xs ++ sb ∷ ys)
    → sb ≢ 0
not-null s before q sb [] ys c = c.1
not-null s before q sb (x ∷ xs) ys c = not-null s x (s x).next_super_block sb xs ys c.3

Distinct-drop : (sb : ℕ) (xs ys : List ℕ) → Distinct (xs ++ sb ∷ ys) → Distinct (xs ++ ys)
Distinct-drop sb [] ys d = d.1
Distinct-drop sb (x ∷ xs) ys d = (Fresh-drop x sb xs ys d.0, Distinct-drop sb xs ys d.1)
  where
    Fresh-drop : (x sb : ℕ) (xs ys : List ℕ) → Fresh x (xs ++ sb ∷ ys) → Fresh x (xs ++ ys)
    Fresh-drop x sb [] ys f = f.1
    Fresh-drop x sb (z ∷ xs) ys f = (f.0, Fresh-drop x sb xs ys f.1)

first-entry :
    (s : ℕ → SuperBlock) (q sb : ℕ) (xs ys : List ℕ)
    → Linked s 0 q (xs ++ sb ∷ ys)
    → (if (s sb).prev_super_block == 0 then (s sb).next_super_block else q)
      ≡ entry xs (s sb).next_super_block q
unfolding last_or entry
first-entry s q sb [] ys c = ground arith
first-entry s q sb (x ∷ xs) ys c =
    let f = Fresh-null s 0 q (x ∷ xs ++ sb ∷ ys) c in
    let nonzero = Fresh-last 0 x xs (sb ∷ ys) f.0 f.1 in
    ground (arith, nonzero, (neighbours s 0 q sb (x ∷ xs) ys c).0)

-- Unlinking a superblock from any place of a list leaves the list of the others in their order, and
-- the superblock with no links.
pub unlink_super_block_lem :
    (m : Memory) (l : SuperBlockList) (sb : ℕ) (xs ys : List ℕ)
    → IsList m l (xs ++ sb ∷ ys)
    → IsList (unlink_super_block m l sb) l (xs ++ ys)
      × (((unlink_super_block m l sb).super_blocks sb).prev_super_block ≡ 0)
      × (((unlink_super_block m l sb).super_blocks sb).next_super_block ≡ 0)
unlink_super_block_lem m l sb xs ys (c, d) =
    let s = m.super_blocks in
    let (ep, en, rest) = neighbours s 0 (first_super_block m l) sb xs ys c in
    let nonzero = not-null s 0 (first_super_block m l) sb xs ys c in
    let not_before : (s sb).prev_super_block ≢ sb =
      (λ e. last-ne 0 sb xs ys (λ z. nonzero (sym z)) d (sym ep ∙ e)) in
    let not_after : (s sb).next_super_block ≢ sb = (λ e. head-ne sb xs ys nonzero d (sym en ∙ e)) in
    let links =
      unlinked s (unlink_links s sb) sb (s sb).prev_super_block (s sb).next_super_block
        (next_kept s sb not_before not_after) (prev_kept s sb not_before not_after)
        (p_next s sb not_before not_after) (n_prev s sb not_before not_after) 0
        (first_super_block m l) xs ys c d (Fresh-null s 0 (first_super_block m l) (xs ++ sb ∷ ys) c)
        ep en in
    let cleared = unlink_links_self s sb not_before not_after in
    rw
      (
        unlink-first m l sb,
        unlink-super_blocks m l sb,
        first-entry s (first_super_block m l) sb xs ys c,
      )
      ((links, Distinct-drop sb xs ys d), cleared.0, cleared.1)
