-- ===== src/Blocks/Links.antt =====
-- The doubly linked lists of superblocks of runtime/gc/block-allocator.c.
use mpl.Base.{
  ℕ, ◌≡◌, ◌≢◌, ◌==◌, if◌then◌else◌, Bool-cases, inl, inr, refl, sym, subst, List, [], ◌∷◌, arith,
}
use mpl.Base.Chain.{update, Fresh, Distinct}
use mpl.Blocks.{SuperBlock, Memory}
use mpl.Blocks.Group.{
  SuperBlockList, first_super_block, set_first_super_block, size_class_list, empty_list,
  prepend_super_block,
}

-- From `p`, reached from `before`, the links lead through exactly these superblocks and back.
abbrev pub Linked : (ℕ → SuperBlock) → ℕ → ℕ → List ℕ → Type 0
Linked s before p [] = p ≡ 0
Linked s before p (x ∷ xs) =
    (p ≡ x) × (x ≢ 0) × ((s x).prev_super_block ≡ before) × Linked s x (s x).next_super_block xs

-- The list `l` holds exactly these superblocks, each once.
abbrev pub IsList : Memory → SuperBlockList → List ℕ → Type 0
IsList m l xs = Linked m.super_blocks 0 (first_super_block m l) xs × Distinct xs

-- A superblock that is not in the list may change.
pub Linked-frame :
    (s : ℕ → SuperBlock) (before p : ℕ) (xs : List ℕ) (q : ℕ) (v : SuperBlock)
    → Linked s before p xs
    → Fresh q xs
    → Linked (update s q v) before p xs
Linked-frame s before p [] q v c f = c
Linked-frame s before p (x ∷ xs) q v c f =
    ground (arith, Linked-frame s x (s x).next_super_block xs q v c.3 f.1)

-- A list whose first superblock is given another predecessor.
Linked-before :
    (s : ℕ → SuperBlock) (before p : ℕ) (x : ℕ) (xs : List ℕ) (b : ℕ)
    → Linked s before p (x ∷ xs)
    → Distinct (x ∷ xs)
    → Linked (update s x (record (s x) { prev_super_block = b })) b p (x ∷ xs)
Linked-before s before p x xs b c d = ground (
  arith,
  Linked-frame s x (s x).next_super_block xs x (record (s x) { prev_super_block = b }) c.3 d.0,
)

pub first-set :
    (m : Memory) (l : SuperBlockList) (v : ℕ)
    → first_super_block (set_first_super_block m l v) l ≡ v
unfolding first_super_block set_first_super_block
first-set m (size_class_list ball i) v = ground arith
first-set m (empty_list ball) v = ground arith

pub super_blocks-set :
    (m : Memory) (l : SuperBlockList) (v : ℕ)
    → (set_first_super_block m l v).super_blocks ≡ m.super_blocks
unfolding set_first_super_block
super_blocks-set m (size_class_list ball i) v = refl
super_blocks-set m (empty_list ball) v = refl

Linked-prepend :
    (s : ℕ → SuperBlock) (sb x : ℕ) (xs : List ℕ)
    → Linked s 0 x (x ∷ xs)
    → Distinct (x ∷ xs)
    → sb ≢ 0
    → Fresh sb (x ∷ xs)
    → (s sb).prev_super_block ≡ 0
    → let t = update s sb (record (s sb) { next_super_block = x }) in
      Linked (update t x (record (t x) { prev_super_block = sb })) 0 sb (sb ∷ x ∷ xs)
Linked-prepend s sb x xs c d h f e =
    let t = update s sb (record (s sb) { next_super_block = x }) in
    let l =
      Linked-before t 0 x x xs sb
        (Linked-frame s 0 x (x ∷ xs) sb (record (s sb) { next_super_block = x }) c f) d in
    ground (arith, l)

-- What `prependSuperBlock` leaves of the superblocks.
prepend_links : (ℕ → SuperBlock) → ℕ → ℕ → ℕ → SuperBlock
prepend_links s first sb =
    let t = update s sb (record (s sb) { next_super_block = first }) in
    if first == 0 then t else update t first (record (t first) { prev_super_block = sb })

prepend-super_blocks :
    (m : Memory) (l : SuperBlockList) (sb : ℕ)
    → (prepend_super_block m l sb).super_blocks
      ≡ prepend_links m.super_blocks (first_super_block m l) sb
unfolding prepend_super_block prepend_links
prepend-super_blocks m l sb = elim (Bool-cases (first_super_block m l == 0)) [
  | inl e ↦ rw (super_blocks-set, e) refl
  | inr e ↦ rw (super_blocks-set, e) refl
]

prepend-first :
    (m : Memory) (l : SuperBlockList) (sb : ℕ)
    → first_super_block (prepend_super_block m l sb) l ≡ sb
unfolding prepend_super_block
prepend-first m l sb = first-set _ l sb

prepend_links-Linked :
    (s : ℕ → SuperBlock) (first sb : ℕ) (xs : List ℕ)
    → Linked s 0 first xs
    → Distinct xs
    → sb ≢ 0
    → Fresh sb xs
    → (s sb).prev_super_block ≡ 0
    → Linked (prepend_links s first sb) 0 sb (sb ∷ xs)
unfolding prepend_links
prepend_links-Linked s first sb [] c d h f e = ground arith
prepend_links-Linked s first sb (x ∷ xs) c d h f e = ground (arith, Linked-prepend s sb x xs)

-- A superblock that is in no list becomes the first of the list it is prepended to.
pub prepend_super_block_lem :
    (m : Memory) (l : SuperBlockList) (sb : ℕ) (xs : List ℕ)
    → IsList m l xs
    → sb ≢ 0
    → Fresh sb xs
    → (m.super_blocks sb).prev_super_block ≡ 0
    → IsList (prepend_super_block m l sb) l (sb ∷ xs)
prepend_super_block_lem m l sb xs (c, d) h f e = (
  subst (λ t. Linked t 0 (first_super_block (prepend_super_block m l sb) l) (sb ∷ xs))
      (sym (prepend-super_blocks m l sb))
      (subst (λ p. Linked (prepend_links m.super_blocks (first_super_block m l) sb) 0 p (sb ∷ xs))
        (sym (prepend-first m l sb))
        (prepend_links-Linked m.super_blocks (first_super_block m l) sb xs c d h f e)),
  (f, d),
)
