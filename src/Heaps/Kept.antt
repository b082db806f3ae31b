-- ===== src/Heaps/Kept.antt =====
-- What the operations on the chains of subheaps of runtime/gc/hierarchical-heap.c leave as it is.
use mpl.Base.{ℕ, ◌≡◌, ◌≢◌, refl, sym, ap, ◌∙◌, subst, ◌⊎◌, inl, inr, arith}
use mpl.Base.Chain.{update-field, update, update_apart}
use mpl.Heaps.{Heap, World, set_depth}
use mpl.Heaps.Links.{Link, for_cc, completed_cc, next_cc, with_next_cc, set_next_cc}

-- The field of a link in all heaps.
abbrev pub links : Link → World → ℕ → ℕ
links l w a = next_cc l (w.heaps a)

-- `owner` tells the heap in whose chains a subheap is; a subheap below `hh` is not `hh` itself.
abbrev pub Below : (owner : ℕ → ℕ) → (hh c : ℕ) → Type 0
Below owner hh c = (owner c ≡ hh) × (c ≢ hh)

-- A heap without its depth and its links to subheaps.
abbrev pub others_of : Heap → Heap
others_of h = record h { depth = 0; sub_heap_for_cc = 0; sub_heap_completed_cc = 0 }

-- What may differ in a heap `h` that becomes `k`: the depth of a subheap below `hh2`, and the links in
-- the chains of `hh1` and `hh2`.
pub record Alike (owner : ℕ → ℕ) (hh1 hh2 a : ℕ) (h k : Heap) : Type 0 where
  pub rest : others_of k ≡ others_of h
  pub uf : k.uf_node ≡ h.uf_node
  pub ancestor : k.next_ancestor ≡ h.next_ancestor
  pub counted : k.num_dependants ≡ h.num_dependants
  pub tall : k.height_dependants ≡ h.height_dependants
  pub level : ¬ Below owner hh2 a → k.depth ≡ h.depth
  pub for : owner a ≢ hh1 → owner a ≢ hh2 → k.sub_heap_for_cc ≡ h.sub_heap_for_cc
  pub completed : owner a ≢ hh1 → owner a ≢ hh2 → k.sub_heap_completed_cc ≡ h.sub_heap_completed_cc

pub record Kept (owner : ℕ → ℕ) (hh1 hh2 : ℕ) (w v : World) : Type 0 where
  pub memory : v.shared ≡ w.shared
  pub freed : v.freed_stacks ≡ w.freed_stacks
  pub each : (a : ℕ) → Alike owner hh1 hh2 a (w.heaps a) (v.heaps a)

-- The fields that are no links.
with_next_cc-parts :
    (l : Link) (h : Heap) (v : ℕ)
    → let k = with_next_cc l h v in
      (k.uf_node ≡ h.uf_node)
      × (k.next_ancestor ≡ h.next_ancestor)
      × (k.num_dependants ≡ h.num_dependants)
      × (k.height_dependants ≡ h.height_dependants)
      × (k.depth ≡ h.depth)
      × (others_of k ≡ others_of h)
unfolding with_next_cc
with_next_cc-parts for_cc h v = (refl, refl, refl, refl, refl, refl)
with_next_cc-parts completed_cc h v = (refl, refl, refl, refl, refl, refl)

module _ (owner : ℕ → ℕ) (hh1 hh2 : ℕ) where
  pub Kept-refl : (w : World) → Kept owner hh1 hh2 w w
  Kept-refl w = record {
    memory = refl;
    freed = refl;
    each = λ a. record {
      rest = refl;
      uf = refl;
      ancestor = refl;
      counted = refl;
      tall = refl;
      level = λ _. refl;
      for = λ _ _. refl;
      completed = λ _ _. refl;
    };
  }

  pub Kept-trans :
      (w v u : World) → Kept owner hh1 hh2 w v → Kept owner hh1 hh2 v u → Kept owner hh1 hh2 w u
  Kept-trans w v u k m = record {
    memory = m.memory ∙ k.memory;
    freed = m.freed ∙ k.freed;
    each = λ a. record {
      rest = (m.each a).rest ∙ (k.each a).rest;
      uf = (m.each a).uf ∙ (k.each a).uf;
      ancestor = (m.each a).ancestor ∙ (k.each a).ancestor;
      counted = (m.each a).counted ∙ (k.each a).counted;
      tall = (m.each a).tall ∙ (k.each a).tall;
      level = λ o. (m.each a).level o ∙ (k.each a).level o;
      for = λ p q. (m.each a).for p q ∙ (k.each a).for p q;
      completed = λ p q. (m.each a).completed p q ∙ (k.each a).completed p q;
    };
  }

  -- The depth of a subheap below the second heap.
  pub set_depth-Kept :
      (w : World) (c d : ℕ) → Below owner hh2 c → Kept owner hh1 hh2 w (set_depth w c d)
  set_depth-Kept w c d b = record {
    memory = refl;
    freed = refl;
    each = λ a. record {
      rest = update-field others_of w.heaps c a (record (w.heaps c) { depth = d }) refl;
      uf = ground arith;
      ancestor = ground arith;
      counted = ground arith;
      tall = ground arith;
      level = λ o.
          ap (λ h. h.depth) (update_apart w.heaps c a _ (λ e. o (subst (Below owner hh2) e b)));
      for = λ p q. ground arith;
      completed = λ p q. ground arith;
    };
  }

  -- A link in the chains of one of the two heaps.
  pub set_next_cc-Kept :
      (l : Link) (w : World) (c v : ℕ)
      → (owner c ≡ hh1) ⊎ (owner c ≡ hh2)
      → Kept owner hh1 hh2 w (set_next_cc l w c v)
  set_next_cc-Kept l w c v own = record {
    memory = refl;
    freed = refl;
    each = λ a. record {
      rest = update-field others_of w.heaps c a k (with_next_cc-parts l (w.heaps c) v).5;
      uf = update-field (λ h. h.uf_node) w.heaps c a k (with_next_cc-parts l (w.heaps c) v).0;
      ancestor =
          update-field (λ h. h.next_ancestor) w.heaps c a k (with_next_cc-parts l (w.heaps c) v).1;
      counted =
          update-field (λ h. h.num_dependants) w.heaps c a k (with_next_cc-parts l (w.heaps c) v).2;
      tall =
          update-field (λ h. h.height_dependants) w.heaps c a k
            (with_next_cc-parts l (w.heaps c) v).3;
      level = λ o. update-field (λ h. h.depth) w.heaps c a k (with_next_cc-parts l (w.heaps c) v).4;
      for = λ p q. ap (λ h. h.sub_heap_for_cc) (update_apart w.heaps c a k (other a own p q));
      completed =
          λ p q. ap (λ h. h.sub_heap_completed_cc) (update_apart w.heaps c a k (other a own p q));
    };
  }
    where
      k : Heap
      k = with_next_cc l (w.heaps c) v

      other : (a : ℕ) → (owner c ≡ hh1) ⊎ (owner c ≡ hh2) → owner a ≢ hh1 → owner a ≢ hh2 → c ≢ a
      other a (inl e) p q s = p (sym (ap owner s) ∙ e)
      other a (inr e) p q s = q (sym (ap owner s) ∙ e)

-- A store of a link, in the view of the two fields.
pub links-set_next_cc :
    (l : Link) (w : World) (c v a : ℕ) → links l (set_next_cc l w c v) a ≡ update (links l w) c v a
unfolding next_cc with_next_cc
links-set_next_cc for_cc w c v a = ground arith
links-set_next_cc completed_cc w c v a = ground arith

pub completed-set_for :
    (w : World) (c v a : ℕ)
    → links completed_cc (set_next_cc for_cc w c v) a ≡ links completed_cc w a
unfolding next_cc with_next_cc
completed-set_for w c v a = ground arith

pub for-set_completed :
    (w : World) (c v a : ℕ) → links for_cc (set_next_cc completed_cc w c v) a ≡ links for_cc w a
unfolding next_cc with_next_cc
for-set_completed w c v a = ground arith

pub links-set_depth : (l : Link) (w : World) (c d a : ℕ) → links l (set_depth w c d) a ≡ links l w a
unfolding next_cc
links-set_depth for_cc w c d a = ground arith
links-set_depth completed_cc w c d a = ground arith

pub depth-set_next_cc :
    (l : Link) (w : World) (c v a : ℕ) → ((set_next_cc l w c v).heaps a).depth ≡ (w.heaps a).depth
depth-set_next_cc l w c v a =
    update-field (λ h. h.depth) w.heaps c a _ (with_next_cc-parts l (w.heaps c) v).4
