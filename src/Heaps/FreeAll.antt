-- ===== src/Heaps/FreeAll.antt =====
-- `linkInto` and `HM_HH_freeAllDependants` of runtime/gc/hierarchical-heap.c on the tree of dependants
-- of a heap.
use native.Mathlib.Nat.{mod-eq_of_lt}
use mpl.Base.{
  ℕ, ◌+◌, ◌*◌, ◌%◌, ◌^◌, ◌≤◌, ◌<◌, ◌≡◌, ◌≢◌, refl, sym, ap, ◌∙◌, subst, some, List, [], ◌∷◌, ◌++◌,
  ltb, if◌then◌else◌, All, All-append, All-map, length, length-append, arith,
}
use mpl.Base.Chain.{update, update_at, update_apart, Fresh, Distinct}
use mpl.Chunks.{UnionFindNode}
use mpl.Heaps.{World, Heap, nodes_of, set_heap, with_store, link_into}
use mpl.Heaps.Free.{set_dependant1, walk_step, walk, free_all_dependants}
use mpl.Heaps.Dependants.{
  Tree, leaf, node, root_of, free_order, size, height, Outside, Apart, IsTree, IsTree-update,
}
use mpl.Heaps.Traversal.{walk_at, arrived, round, Runs-trans, walk-Runs, walk_tree}

Fresh-append : (x : ℕ) (xs ys : List ℕ) → Fresh x xs → Fresh x ys → Fresh x (xs ++ ys)
Fresh-append x [] ys f g = g
Fresh-append x (y ∷ xs) ys f g = (f.0, Fresh-append x xs ys f.1 g)

Distinct-append :
    (xs ys : List ℕ) → Distinct xs → Distinct ys → All (λ x. Fresh x ys) xs → Distinct (xs ++ ys)
Distinct-append [] ys d e a = e
Distinct-append (x ∷ xs) ys d e a = (Fresh-append x xs ys d.0 a.0, Distinct-append xs ys d.1 e a.1)

length-free_order : (t : Tree) → length (free_order t) ≡ size t
unfolding free_order size
length-free_order leaf = refl
length-free_order (node n leaf r) = omega (arith, length-free_order r)
length-free_order (node n (node m a b) r) = omega (
  arith,
  length-free_order (node m a b),
  length-free_order r,
  length-append {0} (free_order (node m a b)) (free_order r ++ n ∷ []),
  length-append {0} (free_order r) (n ∷ []),
)

Outside-Fresh : (x : ℕ) (t : Tree) → Outside x t → Fresh x (free_order t)
unfolding free_order
Outside-Fresh x leaf o = tt
Outside-Fresh x (node n leaf r) o = (o.0, Outside-Fresh x r o.2)
Outside-Fresh x (node n (node m a b) r) o =
    Fresh-append x (free_order (node m a b)) (free_order r ++ n ∷ [])
      (Outside-Fresh x (node m a b) o.1)
      (Fresh-append x (free_order r) (n ∷ []) (Outside-Fresh x r o.2) (o.0, tt))

-- A property of the root and of all the nodes below holds for all that are freed.
All-free_order :
    (P : ℕ → Type 0) (n : ℕ) (l r : Tree)
    → P n
    → All P (free_order l)
    → All P (free_order r)
    → All P (free_order (node n l r))
unfolding free_order
All-free_order P n leaf r p a b = (p, b)
All-free_order P n (node m x y) r p a b =
    All-append P (free_order (node m x y)) (free_order r ++ n ∷ []) a
      (All-append P (free_order r) (n ∷ []) b (p, tt))

Apart-Fresh : (s t : Tree) → Apart s t → All (λ x. Fresh x (free_order t)) (free_order s)
unfolding free_order
Apart-Fresh leaf t a = tt
Apart-Fresh (node n l r) t a =
    All-free_order (λ x. Fresh x (free_order t)) n l r (Outside-Fresh n t a.0) (Apart-Fresh l t a.1)
      (Apart-Fresh r t a.2)

Outside-ne : (n : ℕ) (t : Tree) → Outside n t → All (λ x. x ≢ n) (free_order t)
unfolding free_order
Outside-ne n leaf o = tt
Outside-ne n (node m l r) o =
    All-free_order (λ x. x ≢ n) m l r (λ e. o.0 (sym e)) (Outside-ne n l o.1) (Outside-ne n r o.2)

Distinct-free_order :
    (nodes : ℕ → UnionFindNode) (t : Tree) → IsTree nodes t → Distinct (free_order t)
unfolding free_order
Distinct-free_order nodes leaf is = tt
Distinct-free_order nodes (node n leaf r) is =
    (Outside-Fresh n r is.4, Distinct-free_order nodes r is.7)
Distinct-free_order nodes (node n (node m a b) r) is =
    let l : Tree = node m a b in
    let to_last =
      All-map (λ x. x ≢ n) (λ x. Fresh x (n ∷ [])) (free_order r) (λ x ne. (ne, tt))
        (Outside-ne n r is.4) in
    let rest =
      Distinct-append (free_order r) (n ∷ []) (Distinct-free_order nodes r is.7) (tt, tt) to_last in
    let fresh : All (λ x. Fresh x (free_order r ++ n ∷ [])) (free_order l) =
      both (free_order l) (free_order r) (Apart-Fresh l r is.5) (Outside-ne n l is.3) in
    Distinct-append (free_order l) (free_order r ++ n ∷ [])
      (Distinct-free_order nodes (node m a b) is.6) rest fresh
  where
    both :
        (xs ys : List ℕ)
        → All (λ x. Fresh x ys) xs
        → All (λ x. x ≢ n) xs
        → All (λ x. Fresh x (ys ++ n ∷ [])) xs
    both [] ys f g = tt
    both (x ∷ xs) ys f g = (Fresh-append x ys (n ∷ []) f.0 (g.0, tt), both xs ys f.1 g.1)

height-le-size : (t : Tree) → height t ≤ size t
unfolding height size
height-le-size leaf = omega arith
height-le-size (node n l r) = ground (arith, height-le-size l, height-le-size r)

taller :
    (a b c d m : ℕ)
    → a ≡ c
    → b ≡ d
    → 1 + c + d < m
    → (1 + (if ltb b a then a else b)) % m ≡ 1 + (if ltb d c then c else d)
taller a b c d m p q room =
    let fits : 1 + (if ltb d c then c else d) < m = ground (arith, room) in
    rw (p, q) (mod-eq_of_lt fits)

-- The node of a heap holds the tree of its dependants, which are counted.
pub record HasDependants (w : World) (hh : ℕ) (t : Tree) : Type 0 where
  pub not_null : (w.heaps hh).uf_node ≢ 0
  pub outside : Outside (w.heaps hh).uf_node t
  pub tree : IsTree (nodes_of w) t
  pub first : (nodes_of w (w.heaps hh).uf_node).dependant1 ≡ root_of t
  pub second : (nodes_of w (w.heaps hh).uf_node).dependant2 ≡ 0
  pub count : (w.heaps hh).num_dependants ≡ size t
  pub tall : (w.heaps hh).height_dependants ≡ height t

-- Linking the right heap into the left one makes the right node the root of the dependants of the left
-- heap, above those of both; the counted nodes and the height are those of the new tree. The node of
-- the right heap leads to that of the left one.
pub link_into_lem :
    (w : World) (left right : ℕ) (s t : Tree)
    → let ufl = (w.heaps left).uf_node in
      let ufr = (w.heaps right).uf_node in
      let joined = node ufr t s in
      HasDependants w left s
      → HasDependants w right t
      → Outside ufl joined
      → Outside ufr s
      → Apart t s
      → size joined < 2 ^ 64
      → HasDependants (link_into w left right) left joined
        × ((nodes_of (link_into w left right) ufr).representative ≡ ufl)
unfolding link_into size height
link_into_lem w left right s t hl hr ol or apart room =
    let ufl = (w.heaps left).uf_node in
    let ufr = (w.heaps right).uf_node in
    let v : UnionFindNode = record (nodes_of w ufr) {
      representative = ufl;
      dependant2 = (nodes_of w ufl).dependant1;
    } in
    let linked = update (nodes_of w) ufr v in
    let u : UnionFindNode = record (linked ufl) { dependant1 = ufr } in
    let ne = ol.0 in
    let at_right : update linked ufl u ufr ≡ v =
      update_apart linked ufl ufr u ne ∙ update_at (nodes_of w) ufr ufr v refl in
    let at_left : linked ufl ≡ nodes_of w ufl =
      update_apart (nodes_of w) ufr ufl v (λ e. ne (sym e)) in
    let there = update_at linked ufl ufl u refl in
    let l = w.heaps left in
    let r = w.heaps right in
    let hv : Heap = record l {
      num_dependants = (l.num_dependants + 1 + r.num_dependants) % 2 ^ 64;
      height_dependants =
          (1
            + (if ltb r.height_dependants l.height_dependants
                then l.height_dependants
                else r.height_dependants))
          % 2 ^ 64;
    } in
    let h = update_at w.heaps left left hv refl in
    let uf = ap (λ x. x.uf_node) h in
    let keep = λ (x : Tree) (a : Outside ufr x) (b : Outside ufl x) (is : IsTree (nodes_of w) x).
      IsTree-update linked ufl u x b (IsTree-update (nodes_of w) ufr v x a is) in
    let cl = hl.count in
    let cr = hr.count in
    let tl = hl.tall in
    let tr = hr.tall in
    let is : IsTree (update linked ufl u) (node ufr t s) = (
      hr.not_null,
      ap (λ x. x.dependant1) at_right ∙ hr.first,
      ap (λ x. x.dependant2) at_right ∙ hl.first,
      hr.outside,
      or,
      apart,
      keep t hr.outside ol.1 hr.tree,
      keep s or hl.outside hl.tree,
    ) in
    (
      record {
        not_null = λ e. hl.not_null (sym uf ∙ e);
        outside = subst (λ x. Outside x (node ufr t s)) (sym uf) ol;
        tree = is;
        first = ap (λ x. (update linked ufl u x).dependant1) uf ∙ ap (λ x. x.dependant1) there;
        second =
            ap (λ x. (update linked ufl u x).dependant2) uf
            ∙ ap (λ x. x.dependant2) there
            ∙ ap (λ x. x.dependant2) at_left
            ∙ hl.second;
        count = ap (λ x. x.num_dependants) h ∙ omega (arith, cl, cr, room);
        tall =
            ap (λ x. x.height_dependants) h
            ∙ taller l.height_dependants r.height_dependants (height s) (height t) (2 ^ 64) tl tr
                (omega (arith, height-le-size s, height-le-size t, room));
      },
      ap (λ n. n.representative) at_right,
    )

-- Freeing the dependants of a heap ends within a fuel of four rounds for each of them and two. Every
-- node of the tree is freed once, in the order in which no node is needed any more, as many as were
-- counted, whatever the allocator leaves in a freed node; the heap has no dependants then.
pub free_all_dependants_lem :
    (leave : UnionFindNode → UnionFindNode) (fuel : ℕ) (w : World) (hh : ℕ) (t : Tree)
    → HasDependants w hh t
    → 4 * size t + 2 ≤ fuel
    → (v : World) × (free_all_dependants leave fuel w hh ≡ some (v, free_order t))
      × Distinct (free_order t)
      × (length (free_order t) ≡ (w.heaps hh).num_dependants)
      × HasDependants v hh leaf
unfolding free_all_dependants walk_step size height free_order
free_all_dependants_lem leave fuel w hh t has room =
    let uf = (w.heaps hh).uf_node in
    let top : UnionFindNode = record (nodes_of w uf) { dependant1 = 0 } in
    let start = update (nodes_of w) uf top in
    let (others, n, le, runs, agree) =
      walk_tree leave t uf has.not_null has.outside start []
        (IsTree-update (nodes_of w) uf top t has.outside has.tree) in
    let at = update_at (nodes_of w) uf uf top refl in
    let d1 = (agree uf has.outside).0 ∙ ap (λ x. x.dependant1) at in
    let d2 = (agree uf has.outside).1 ∙ ap (λ x. x.dependant2) at ∙ has.second in
    let freed = free_order t in
    let final = set_dependant1 others uf 0 in
    let nz = has.not_null in
    let up : walk_step leave (walk_at others uf 0 freed) ≡ walk_at final 0 uf freed =
      ground (arith, d1, d2) in
    let all =
      Runs-trans leave n 1 (n + 1) refl runs
        (round {n = 0} refl has.not_null up (arrived refl refl)) in
    let run : walk leave fuel (walk_at start uf (root_of t) []) ≡ some (walk_at final 0 uf freed) =
      walk-Runs leave (n + 1) fuel refl all (omega (arith, le, room)) in
    let run2 : walk leave fuel (walk_at start uf (nodes_of w uf).dependant1 [])
        ≡ some (walk_at final 0 uf freed) =
      ap (λ x. walk leave fuel (walk_at start uf x [])) has.first ∙ run in
    let hv : Heap = record (w.heaps hh) { num_dependants = 0; height_dependants = 0 } in
    let h = update_at w.heaps hh hh hv refl in
    let same = ap (λ x. x.uf_node) h in
    let last = update_at others uf uf (record (others uf) { dependant1 = 0 }) refl in
    (
      set_heap (with_store w (record (w.shared.store) { nodes = final })) hh hv,
      rw run2 refl,
      Distinct-free_order (nodes_of w) t has.tree,
      length-free_order t ∙ sym has.count,
      record {
        not_null = λ e. nz (sym same ∙ e);
        outside = tt;
        tree = tt;
        first = ap (λ x. (final x).dependant1) same ∙ ap (λ x. x.dependant1) last;
        second = ap (λ x. (final x).dependant2) same ∙ ap (λ x. x.dependant2) last ∙ d2;
        count = ap (λ x. x.num_dependants) h;
        tall = ap (λ x. x.height_dependants) h;
      },
    )
