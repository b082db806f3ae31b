-- ===== src/Heaps/Traversal.antt =====
-- The loop of `HM_HH_freeAllDependants` of runtime/gc/hierarchical-heap.c below a node.
use mpl.Base.{
  ℕ, zero, suc, ◌+◌, ◌*◌, ◌≤◌, ◌≡◌, ◌≢◌, refl, sym, ap, ◌∙◌, subst, some, List, [], ◌∷◌, ◌++◌,
  append-nil, append_assoc, arith,
}
use mpl.Base.Chain.{update, update_at, update_apart}
use mpl.Chunks.{UnionFindNode}
use mpl.Heaps.Free.{Walk, set_dependant1, set_dependant2, walk_step, walk}
use mpl.Heaps.Dependants.{
  Tree, leaf, node, root_of, free_order, size, Outside, IsTree, Agree, AgreeOutside, IsTree-frame,
  IsTree-update, Apart-sym,
}

abbrev pub walk_at : (nodes : ℕ → UnionFindNode) → (parent child : ℕ) → (freed : List ℕ) → Walk
walk_at nodes parent child freed = record {
  nodes = nodes;
  parent = parent;
  child = child;
  freed = freed;
}

-- So many rounds of the loop lead to `j`.
pub data Runs (leave : UnionFindNode → UnionFindNode) (j : Walk) : ℕ → Walk → Type 0 where
  arrived : {n : ℕ} {k : Walk} → n ≡ 0 → k ≡ j → Runs leave j n k
  round :
      {n m : ℕ} {k k' : Walk}
      → m ≡ n + 1
      → k.parent ≢ 0
      → walk_step leave k ≡ k'
      → Runs leave j n k'
      → Runs leave j m k

module _ (leave : UnionFindNode → UnionFindNode) where
  pub Runs-trans :
      {i j k : Walk} (a b c : ℕ)
      → c ≡ a + b
      → Runs leave j a k
      → Runs leave i b j
      → Runs leave i c k
  Runs-trans {i} {j} a b c e (arrived z k) s =
      let same : b ≡ c = omega (arith, e, z) in
      subst (λ x. Runs leave i c x) (sym k) (subst (λ m. Runs leave i m j) same s)
  Runs-trans a b c e (round {n} h p w r) s =
      round {n = n + b} (omega (arith, e, h)) p w (Runs-trans n b (n + b) refl r s)

  -- The loop ends where the rounds lead to a state without a parent.
  pub walk-Runs :
      {j k : Walk} (n fuel : ℕ)
      → j.parent ≡ 0
      → Runs leave j n k
      → n ≤ fuel
      → walk leave fuel k ≡ some j
  unfolding walk
  walk-Runs n zero z (arrived h e) le = rw e (ground (arith, z))
  walk-Runs n zero z (round h p w r) le = absurd (omega (arith, h, le))
  walk-Runs n (suc fuel) z (arrived h e) le = rw e (ground (arith, z))
  walk-Runs n (suc fuel) z (round {n = m} h p w r) le =
      let rest = walk-Runs m fuel z r (omega (arith, h, le)) in ground (arith, p, w, rest)

  -- The rounds from a child on that is the root of a tree: they free its nodes and come back to the
  -- parent, and change no other node.
  abbrev pub Walked : Tree → (p : ℕ) → Type 0
  Walked t p =
      (nodes : ℕ → UnionFindNode) (freed : List ℕ)
      → IsTree nodes t
      → (others : ℕ → UnionFindNode) × (n : ℕ) × (n ≤ 4 * size t)
        × Runs leave (walk_at others p 0 (freed ++ free_order t)) n
            (walk_at nodes p (root_of t) freed)
        × AgreeOutside t nodes others

  -- A node without a first subtree is freed before the second one.
  walk-no_first : (n p : ℕ) (r : Tree) → p ≢ 0 → Outside p r → Walked r p → Walked (node n leaf r) p
  unfolding walk_step free_order size
  walk-no_first n p r pz out rest nodes freed is =
      let v = leave (nodes n) in
      let after = update nodes n v in
      let (others, m, le, runs, agree) =
        rest after (freed ++ n ∷ []) (IsTree-update nodes n v r is.4 is.7) in
      let nz = is.0 in
      let first = is.1 in
      let second = is.2 in
      let here : walk_step leave (walk_at nodes p n freed)
          ≡ walk_at after p (root_of r) (freed ++ n ∷ []) =
        ground (arith, nz, first, second) in
      (
        others,
        m + 1,
        omega (arith, le),
        round refl pz here (
            subst
              (λ f.
                Runs leave (walk_at others p 0 f) m (walk_at after p (root_of r) (freed ++ n ∷ [])))
              (append_assoc freed (n ∷ []) (free_order r)) runs),
        λ x o.
            let same = update_apart nodes n x v (λ e. o.0 (sym e)) in
            (
              (agree x o.2).0 ∙ ap (λ c. c.dependant1) same,
              (agree x o.2).1 ∙ ap (λ c. c.dependant2) same,
            ),
      )

  -- Where both subtrees of the parent are done, it becomes the child, and is freed.
  walk-back :
      (n p : ℕ) (nodes : ℕ → UnionFindNode) (freed : List ℕ)
      → n ≢ 0
      → p ≢ 0
      → (nodes n).dependant1 ≡ p
      → (nodes n).dependant2 ≡ 0
      → (others : ℕ → UnionFindNode) × Runs leave
          (walk_at others p 0 (freed ++ n ∷ []))
          2
          (walk_at nodes n 0 freed)
        × ((x : ℕ) → x ≢ n → others x ≡ nodes x)
  unfolding walk_step
  walk-back n p nodes freed nz pz up none_left =
      let lowered = set_dependant1 nodes n 0 in
      let v = leave (lowered n) in
      let back : walk_step leave (walk_at nodes n 0 freed) ≡ walk_at lowered p n freed =
        ground (arith, up, none_left) in
      let last : walk_step leave (walk_at lowered p n freed)
          ≡ walk_at (update lowered n v) p 0 (freed ++ n ∷ []) =
        ground (arith, nz, none_left) in
      (
        update lowered n v,
        round {n = 1} refl nz back (round {n = 0} refl pz last (arrived refl refl)),
        λ x o.
            let apart : n ≢ x = (λ e. o (sym e)) in
            update_apart lowered n x v apart ∙ update_apart nodes n x _ apart,
      )

  -- The second subtree of the parent, where the first is done.
  walk-second :
      (n : ℕ) (r : Tree)
      → n ≢ 0
      → Outside n r
      → Walked r n
      → (nodes : ℕ → UnionFindNode) (freed : List ℕ) → (nodes n).dependant2 ≡ root_of r
      → IsTree nodes r
      → (others : ℕ → UnionFindNode) × (m : ℕ) × (m ≤ 1 + 4 * size r)
        × Runs leave (walk_at others n 0 (freed ++ free_order r)) m (walk_at nodes n 0 freed)
        × ((others n).dependant1 ≡ (nodes n).dependant1)
        × ((others n).dependant2 ≡ 0)
        × ((x : ℕ) → x ≢ n → Outside x r → Agree nodes others x)
  unfolding walk_step free_order size
  walk-second n leaf nz out rest nodes freed second is = (
    nodes,
    0,
    omega arith,
    arrived refl (ap (walk_at nodes n 0) (sym (append-nil freed))),
    refl,
    second,
    λ x ne o. (refl, refl),
  )
  walk-second n (node m a b) nz out rest nodes freed second is =
      let after = set_dependant2 nodes n 0 in
      let t : Tree = node m a b in
      let (others, k, le, runs, agree) =
        rest after freed (IsTree-update nodes n (record (nodes n) { dependant2 = 0 }) t out is) in
      let mz = is.0 in
      let turn : walk_step leave (walk_at nodes n 0 freed) ≡ walk_at after n m freed =
        ground (arith, second, mz) in
      let same = update_at nodes n n (record (nodes n) { dependant2 = 0 }) refl in
      (
        others,
        k + 1,
        omega (arith, le),
        round refl nz turn runs,
        (agree n out).0 ∙ ap (λ c. c.dependant1) same,
        (agree n out).1 ∙ ap (λ c. c.dependant2) same,
        λ x ne o.
            let apart =
              update_apart nodes n x (record (nodes n) { dependant2 = 0 }) (λ e. ne (sym e)) in
            (
              (agree x o).0 ∙ ap (λ c. c.dependant1) apart,
              (agree x o).1 ∙ ap (λ c. c.dependant2) apart,
            ),
      )

  -- A node with a first subtree is freed after both.
  walk-both :
      (n p m : ℕ) (a b r : Tree)
      → p ≢ 0
      → Walked (node m a b) n
      → Walked r n
      → Walked (node n (node m a b) r) p
  unfolding walk_step free_order size
  walk-both n p m a b r pz first rest nodes freed is =
      let l : Tree = node m a b in
      let nz = is.0 in
      let mz = is.6.0 in
      let to_first = is.1 in
      let v : UnionFindNode = record (nodes n) { dependant1 = p } in
      let down : walk_step leave (walk_at nodes p n freed)
          ≡ walk_at (set_dependant1 nodes n p) n m freed =
        ground (arith, nz, mz, to_first) in
      let (nodes1, k1, le1, runs1, agree1) =
        first (set_dependant1 nodes n p) freed (IsTree-update nodes n v l is.3 is.6) in
      let same = update_at nodes n n v refl in
      let (nodes2, k2, le2, runs2, kept, cleared, agree2) =
        walk-second n r nz is.4 rest nodes1 (freed ++ free_order l)
          ((agree1 n is.3).1 ∙ ap (λ c. c.dependant2) same ∙ is.2)
          (IsTree-frame (set_dependant1 nodes n p) nodes1 r l agree1 (Apart-sym l r is.5)
            (IsTree-update nodes n v r is.4 is.7)) in
      let (nodes3, runs3, agree3) =
        walk-back n p nodes2 ((freed ++ free_order l) ++ free_order r) nz pz
          (kept ∙ (agree1 n is.3).0 ∙ ap (λ c. c.dependant1) same) cleared in
      let order : ((freed ++ free_order l) ++ free_order r) ++ n ∷ []
          ≡ freed ++ (free_order l ++ (free_order r ++ n ∷ [])) =
        append_assoc (freed ++ free_order l) (free_order r) (n ∷ [])
        ∙ append_assoc freed (free_order l) (free_order r ++ n ∷ []) in
      let end =
        subst
          (λ f.
            Runs leave (walk_at nodes3 p 0 f) 2
              (walk_at nodes2 n 0 ((freed ++ free_order l) ++ free_order r)))
          order runs3 in
      (
        nodes3,
        k1 + (k2 + 2) + 1,
        omega (arith, le1, le2),
        round refl pz down (Runs-trans k1 (k2 + 2) _ refl runs1 (Runs-trans k2 2 _ refl runs2 end)),
        λ x o.
            let apart : n ≢ x = (λ e. o.0 (sym e)) in
            let last = agree3 x o.0 in
            (
              ap (λ c. c.dependant1) last
                  ∙ (agree2 x o.0 o.2).0
                  ∙ (agree1 x o.1).0
                  ∙ ap (λ c. c.dependant1) (update_apart nodes n x v apart),
              ap (λ c. c.dependant2) last
                  ∙ (agree2 x o.0 o.2).1
                  ∙ (agree1 x o.1).1
                  ∙ ap (λ c. c.dependant2) (update_apart nodes n x v apart),
            ),
      )

  pub walk_tree : (t : Tree) (p : ℕ) → p ≢ 0 → Outside p t → Walked t p
  unfolding free_order size
  walk_tree leaf p pz o nodes freed is = (
    nodes,
    0,
    omega arith,
    arrived refl (ap (walk_at nodes p 0) (sym (append-nil freed))),
    λ x _. (refl, refl),
  )
  walk_tree (node n leaf r) p pz o nodes freed is =
      walk-no_first n p r pz o.2 (walk_tree r p pz o.2) nodes freed is
  walk_tree (node n (node m a b) r) p pz o nodes freed is =
      walk-both n p m a b r pz (walk_tree (node m a b) n is.0 is.3) (walk_tree r n is.0 is.4) nodes
        freed is
