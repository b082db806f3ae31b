-- ===== src/Heaps/Steady.antt =====
-- What a round of `HM_HH_zip` of runtime/gc/hierarchical-heap.c leaves as it is.
use mpl.Base.{
  ℕ, ◌≤◌, ◌≡◌, ◌≢◌, refl, sym, ap, ◌∙◌, subst, inl, inr, Bool-cases, some, List, [], ◌∷◌, ◌==◌,
  if◌then◌else◌, All, length, arith,
}
use mpl.Base.Chain.{update, update-field, Chain}
use mpl.Chunks.{Store, UnionFindNode}
use mpl.Chunks.Lists.{append_chunk_list}
use mpl.ConcLists.{Shared, append_conc_list, append_chunks}
use mpl.ConcLists.RemSets.{append_rem_set}
use mpl.Heaps.{World, nodes_of, free_stack, link_into, es_move, set_next_ancestor, Heap}
use mpl.Heaps.Links.{Link, for_cc, completed_cc, next_cc}
use mpl.Heaps.Kept.{links, Below}
use mpl.Heaps.Subchains.{Subs, Subs-same}
use mpl.Heaps.Linking.{link_cc_chains_lem}
use mpl.Heaps.Zip.{move_lists, zip_level}

append_chunk_list-nodes :
    (s : Store) (l1 l2 : ℕ) → (append_chunk_list s l1 (some l2)).nodes ≡ s.nodes
unfolding append_chunk_list
append_chunk_list-nodes s l1 l2 = ground arith

append_conc_list-nodes :
    (c : Shared) (l1 l2 : ℕ) → (append_conc_list c l1 l2).store.nodes ≡ c.store.nodes
unfolding append_conc_list append_chunks
append_conc_list-nodes c l1 l2 = ground arith

move_lists-nodes : (w : World) (hh1 hh2 : ℕ) → nodes_of (move_lists w hh1 hh2) ≡ nodes_of w
unfolding move_lists append_rem_set es_move
move_lists-nodes w hh1 hh2 =
    append_conc_list-nodes _ _ _
    ∙ append_chunk_list-nodes _ _ _
    ∙ append_chunk_list-nodes _ _ _
    ∙ append_chunk_list-nodes _ _ _

-- The nodes that stand for the same heap lead to its node.
abbrev pub representatives : World → ℕ → ℕ
representatives w n = (nodes_of w n).representative

-- A level head is in no chain of a heap. Its depth stays, and so do the nodes of all heaps and the
-- chains of the heaps but two.
pub record Steady (owner : ℕ → ℕ) (hh1 hh2 : ℕ) (w v : World) : Type 0 where
  pub uf : (a : ℕ) → (v.heaps a).uf_node ≡ (w.heaps a).uf_node
  pub depth : (a : ℕ) → owner a ≡ a → (v.heaps a).depth ≡ (w.heaps a).depth
  pub for : (a : ℕ) → owner a ≢ hh1 → owner a ≢ hh2 → links for_cc v a ≡ links for_cc w a
  pub completed :
      (a : ℕ) → owner a ≢ hh1 → owner a ≢ hh2 → links completed_cc v a ≡ links completed_cc w a

-- The subheaps of a heap, with fuel for their chains.
abbrev pub HasSubs : (loops : ℕ) → (owner : ℕ → ℕ) → World → ℕ → Type 0
HasSubs loops owner w x =
    (cs : List ℕ) × (ds : List ℕ) × Subs owner w x cs ds × (length cs ≤ loops) × (length ds ≤ loops)

Chain-along :
    (next next' : ℕ → ℕ) (p : ℕ) (xs : List ℕ)
    → All (λ x. next' x ≡ next x) xs
    → Chain next p xs
    → Chain next' p xs
Chain-along next next' p [] same c = c
Chain-along next next' p (x ∷ xs) same c = (
  c.0,
  c.1,
  Chain-along next next' (next' x) xs same.1 (subst (λ q. Chain next q xs) (sym same.0) c.2),
)

Below-others :
    (owner : ℕ → ℕ) (hh1 hh2 x : ℕ) (f g : ℕ → ℕ) (cs : List ℕ)
    → x ≢ hh1
    → x ≢ hh2
    → ((a : ℕ) → owner a ≢ hh1 → owner a ≢ hh2 → g a ≡ f a)
    → All (Below owner x) cs
    → All (λ c. g c ≡ f c) cs
Below-others owner hh1 hh2 x f g [] n1 n2 same b = tt
Below-others owner hh1 hh2 x f g (c ∷ cs) n1 n2 same b = (
  same c (λ e. n1 (sym b.0.0 ∙ e)) (λ e. n2 (sym b.0.0 ∙ e)),
  Below-others owner hh1 hh2 x f g cs n1 n2 same b.1,
)

module _ (loops : ℕ) (owner : ℕ → ℕ) (hh1 hh2 : ℕ) (w v : World)
    (s : Steady owner hh1 hh2 w v) where
  -- The chains of every other heap.
  pub Steady-HasSubs :
      (x : ℕ) → x ≢ hh1 → x ≢ hh2 → HasSubs loops owner w x → HasSubs loops owner v x
  Steady-HasSubs x n1 n2 (cs, ds, subs, h1, h2) =
      let o1 : owner x ≢ hh1 = (λ e. n1 (sym subs.head ∙ e)) in
      let o2 : owner x ≢ hh2 = (λ e. n2 (sym subs.head ∙ e)) in
      (
        cs,
        ds,
        record {
          head = subs.head;
          for =
              subst (λ p. Chain (links for_cc v) p cs) (sym (s.for x o1 o2))
                (Chain-along (links for_cc w) (links for_cc v) (links for_cc w x) cs
                  (Below-others owner hh1 hh2 x (links for_cc w) (links for_cc v) cs n1 n2 s.for
                    subs.below_for)
                  subs.for);
          completed =
              subst (λ p. Chain (links completed_cc v) p ds) (sym (s.completed x o1 o2))
                (Chain-along (links completed_cc w) (links completed_cc v) (links completed_cc w x)
                  ds
                  (Below-others owner hh1 hh2 x (links completed_cc w) (links completed_cc v) ds n1
                    n2 s.completed subs.below_completed)
                  subs.completed);
          distinct_for = subs.distinct_for;
          distinct_completed = subs.distinct_completed;
          below_for = subs.below_for;
          below_completed = subs.below_completed;
          empty_for = subs.empty_for;
          empty_completed = subs.empty_completed;
        },
        h1,
        h2,
      )

  pub Steady-All :
      (xs : List ℕ)
      → All (λ x. (x ≢ hh1) × (x ≢ hh2)) xs
      → All (HasSubs loops owner w) xs
      → All (HasSubs loops owner v) xs
  Steady-All [] n a = tt
  Steady-All (x ∷ xs) n a = (Steady-HasSubs x n.0.0 n.0.1 a.0, Steady-All xs n.1 a.1)

pub set_next_ancestor-Steady :
    (owner : ℕ → ℕ) (hh1 hh2 : ℕ) (w : World) (c v : ℕ)
    → Steady owner hh1 hh2 w (set_next_ancestor w c v)
unfolding next_cc
set_next_ancestor-Steady owner hh1 hh2 w c v = record {
  uf = λ a. update-field (λ h. h.uf_node) w.heaps c a _ refl;
  depth = λ a _. update-field (λ h. h.depth) w.heaps c a _ refl;
  for = λ a _ _. update-field (λ h. h.sub_heap_for_cc) w.heaps c a _ refl;
  completed = λ a _ _. update-field (λ h. h.sub_heap_completed_cc) w.heaps c a _ refl;
}

pub Steady-refl : (owner : ℕ → ℕ) (hh1 hh2 : ℕ) (w : World) → Steady owner hh1 hh2 w w
Steady-refl owner hh1 hh2 w = record {
  uf = λ a. refl;
  depth = λ a o. refl;
  for = λ a p q. refl;
  completed = λ a p q. refl;
}

pub Steady-trans :
    (owner : ℕ → ℕ) (hh1 hh2 : ℕ) (w v u : World)
    → Steady owner hh1 hh2 w v
    → Steady owner hh1 hh2 v u
    → Steady owner hh1 hh2 w u
Steady-trans owner hh1 hh2 w v u s t = record {
  uf = λ a. t.uf a ∙ s.uf a;
  depth = λ a o. t.depth a o ∙ s.depth a o;
  for = λ a p q. t.for a p q ∙ s.for a p q;
  completed = λ a p q. t.completed a p q ∙ s.completed a p q;
}

-- A field that is no root list.
free_stack-field :
    (f : Heap → ℕ) (keep : (h : Heap) → f (record h { root_list = 0 }) ≡ f h) (w : World) (x a : ℕ)
    → f ((free_stack w x).heaps a) ≡ f (w.heaps a)
unfolding free_stack
free_stack-field f keep w x a = elim (Bool-cases ((w.heaps x).root_list == 0)) [
  | inl e ↦ rw e refl
  | inr e ↦ rw e (update-field f w.heaps x a _ (keep (w.heaps x)))
]

free_stack-shared : (w : World) (x : ℕ) → (free_stack w x).shared ≡ w.shared
unfolding free_stack
free_stack-shared w x = elim (Bool-cases ((w.heaps x).root_list == 0)) [
  | inl e ↦ rw e refl
  | inr e ↦ rw e refl
]

free_stack-links : (w : World) (x : ℕ) (k : Link) (a : ℕ) → links k (free_stack w x) a ≡ links k w a
unfolding next_cc
free_stack-links w x for_cc a = free_stack-field (λ h. h.sub_heap_for_cc) (λ h. refl) w x a
free_stack-links w x completed_cc a =
    free_stack-field (λ h. h.sub_heap_completed_cc) (λ h. refl) w x a

-- A field that is no count of dependants.
link_into-field :
    (f : Heap → ℕ)
    → ((h : Heap) (n m : ℕ) → f (record h { num_dependants = n; height_dependants = m }) ≡ f h)
    → (w : World) (l r a : ℕ) → f ((link_into w l r).heaps a) ≡ f (w.heaps a)
unfolding link_into
link_into-field f keep w l r a = update-field f w.heaps l a _ (keep (w.heaps l) _ _)

link_into-representatives :
    (w : World) (l r n : ℕ)
    → representatives (link_into w l r) n
      ≡ (if (w.heaps r).uf_node == n then (w.heaps l).uf_node else representatives w n)
unfolding link_into
link_into-representatives w l r n =
    let ufl = (w.heaps l).uf_node in
    let ufr = (w.heaps r).uf_node in
    let linked = update (nodes_of w) ufr (record (nodes_of w ufr) {
      representative = ufl;
      dependant2 = (nodes_of w ufl).dependant1;
    }) in
    let held : representatives (link_into w l r) n ≡ (linked n).representative =
      update-field {A = UnionFindNode} (λ c. c.representative) linked ufl n _ refl in
    held ∙ ground arith

-- The round for two heaps of the same depth ends; the node of the second leads to that of the first,
-- and all that the later rounds need stays.
pub zip_level-lem :
    (loops : ℕ) (owner : ℕ → ℕ) (w : World) (hh1 hh2 : ℕ)
    → hh1 ≢ hh2
    → HasSubs loops owner w hh1
    → HasSubs loops owner w hh2
    → (v : World) × (zip_level loops w hh1 hh2 ≡ some v)
      × Steady owner hh1 hh2 w v
      × ((a : ℕ) → (v.heaps a).next_ancestor ≡ (w.heaps a).next_ancestor)
      × ((n : ℕ)
          → representatives v n
            ≡ (if (w.heaps hh2).uf_node == n then (w.heaps hh1).uf_node else representatives w n))
unfolding zip_level next_cc move_lists es_move
zip_level-lem loops owner w hh1 hh2 ne (cs1, ds1, s1, _, _) (cs2, ds2, s2, h1, h2) =
    let t = free_stack w hh2 in
    let same = free_stack-links w hh2 in
    let linked =
      link_cc_chains_lem owner hh1 hh2 loops t cs1 ds1 cs2 ds2 ne
        (Subs-same owner hh1 hh2 w t hh1 cs1 ds1 same s1)
        (Subs-same owner hh1 hh2 w t hh2 cs2 ds2 same s2) h1 h2 in
    let u = linked.0 in
    let run = linked.1 in
    let kept = linked.2 in
    let l = link_into u hh1 hh2 in
    let v = move_lists l hh1 hh2 in
    let uf_same =
      λ (a : ℕ). (kept.each a).uf ∙ free_stack-field (λ h. h.uf_node) (λ h. refl) w hh2 a in
    let level = λ (a : ℕ) (o : owner a ≡ a).
      (kept.each a).level (λ b. b.1 (sym o ∙ b.0))
      ∙ free_stack-field (λ h. h.depth) (λ h. refl) w hh2 a in
    let reps = λ (n : ℕ).
      ap (λ f. (f n).representative) (move_lists-nodes l hh1 hh2)
      ∙ link_into-representatives u hh1 hh2 n
      ∙ ap (λ x. if x == n then (u.heaps hh1).uf_node else representatives u n) (uf_same hh2)
      ∙ ap (λ x. if (w.heaps hh2).uf_node == n then x else representatives u n) (uf_same hh1)
      ∙ ap
          (λ c.
            if (w.heaps hh2).uf_node == n
            then (w.heaps hh1).uf_node
            else (c.store.nodes n).representative)
          (kept.memory ∙ free_stack-shared w hh2) in
    (
      v,
      rw run refl,
      record {
        uf = λ a. link_into-field (λ h. h.uf_node) (λ h n m. refl) u hh1 hh2 a ∙ uf_same a;
        depth = λ a o. link_into-field (λ h. h.depth) (λ h n m. refl) u hh1 hh2 a ∙ level a o;
        for = λ a p q.
            link_into-field (λ h. h.sub_heap_for_cc) (λ h n m. refl) u hh1 hh2 a
            ∙ (kept.each a).for p q
            ∙ free_stack-field (λ h. h.sub_heap_for_cc) (λ h. refl) w hh2 a;
        completed = λ a p q.
            link_into-field (λ h. h.sub_heap_completed_cc) (λ h n m. refl) u hh1 hh2 a
            ∙ (kept.each a).completed p q
            ∙ free_stack-field (λ h. h.sub_heap_completed_cc) (λ h. refl) w hh2 a;
      },
      λ a.
          link_into-field (λ h. h.next_ancestor) (λ h n m. refl) u hh1 hh2 a
          ∙ (kept.each a).ancestor
          ∙ free_stack-field (λ h. h.next_ancestor) (λ h. refl) w hh2 a,
      reps,
    )
