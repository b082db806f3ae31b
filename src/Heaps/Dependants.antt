-- ===== src/Heaps/Dependants.antt =====
-- The tree of the dependants of a heap: `linkInto` and `HM_HH_freeAllDependants` of
-- runtime/gc/hierarchical-heap.c.
use mpl.Base.{ℕ, ◌+◌, ◌≡◌, ◌≢◌, sym, ap, ◌∙◌, List, [], ◌∷◌, ◌++◌, ltb, if◌then◌else◌}
use mpl.Base.Chain.{update_apart, update}
use mpl.Chunks.{UnionFindNode}

-- A node with the trees at `dependant1` and `dependant2`.
pub data Tree : Type 0 where
  leaf : Tree
  node : (n : ℕ) → Tree → Tree → Tree

abbrev pub root_of : Tree → ℕ
root_of leaf = 0
root_of (node n l r) = n

-- The nodes in the order in which they are freed: a node with no first subtree before its second one,
-- and any other after both.
unfoldable pub free_order : Tree → List ℕ
free_order leaf = []
free_order (node n leaf r) = n ∷ free_order r
free_order (node n (node m a b) r) = free_order (node m a b) ++ (free_order r ++ n ∷ [])

unfoldable pub size : Tree → ℕ
size leaf = 0
size (node n l r) = 1 + size l + size r

unfoldable pub height : Tree → ℕ
height leaf = 0
height (node n l r) = 1 + (if ltb (height l) (height r) then height r else height l)

-- `x` is none of the nodes.
abbrev pub Outside : ℕ → Tree → Type 0
Outside x leaf = Unit {0}
Outside x (node n l r) = (x ≢ n) × Outside x l × Outside x r

-- No node of the first tree is in the second.
abbrev pub Apart : Tree → Tree → Type 0
Apart leaf t = Unit {0}
Apart (node n l r) t = Outside n t × Apart l t × Apart r t

-- The two fields of each node lead to its subtrees, and the nodes are distinct.
abbrev pub IsTree : (ℕ → UnionFindNode) → Tree → Type 0
IsTree nodes leaf = Unit {0}
IsTree nodes (node n l r) =
    (n ≢ 0)
    × ((nodes n).dependant1 ≡ root_of l)
    × ((nodes n).dependant2 ≡ root_of r)
    × Outside n l
    × Outside n r
    × Apart l r
    × IsTree nodes l
    × IsTree nodes r

-- A tree is as it was where the fields of its nodes are.
abbrev pub Agree : (ℕ → UnionFindNode) → (ℕ → UnionFindNode) → ℕ → Type 0
Agree nodes others x =
    ((others x).dependant1 ≡ (nodes x).dependant1) × ((others x).dependant2 ≡ (nodes x).dependant2)

-- The two memories agree but at the nodes of a tree.
abbrev pub AgreeOutside : Tree → (ℕ → UnionFindNode) → (ℕ → UnionFindNode) → Type 0
AgreeOutside t nodes others = (x : ℕ) → Outside x t → Agree nodes others x

pub IsTree-frame :
    (nodes others : ℕ → UnionFindNode) (t s : Tree)
    → AgreeOutside s nodes others
    → Apart t s
    → IsTree nodes t
    → IsTree others t
IsTree-frame nodes others leaf s same apart is = tt
IsTree-frame nodes others (node n l r) s same apart is = (
  is.0,
  (same n apart.0).0 ∙ is.1,
  (same n apart.0).1 ∙ is.2,
  is.3,
  is.4,
  is.5,
  IsTree-frame nodes others l s same apart.1 is.6,
  IsTree-frame nodes others r s same apart.2 is.7,
)

Outside-Apart : (n : ℕ) (l r s : Tree) → Apart s (node n l r) → Outside n s
Outside-Apart n l r leaf a = tt
Outside-Apart n l r (node m x y) a =
    (λ e. a.0.0 (sym e), Outside-Apart n l r x a.1, Outside-Apart n l r y a.2)

Apart-parts : (n : ℕ) (l r s : Tree) → Apart s (node n l r) → Apart s l × Apart s r
Apart-parts n l r leaf a = (tt, tt)
Apart-parts n l r (node m x y) a =
    let (xl, xr) = Apart-parts n l r x a.1 in
    let (yl, yr) = Apart-parts n l r y a.2 in ((a.0.1, xl, yl), (a.0.2, xr, yr))

pub Apart-sym : (s t : Tree) → Apart s t → Apart t s
Apart-sym s leaf a = tt
Apart-sym s (node n l r) a =
    let (al, ar) = Apart-parts n l r s a in
    (Outside-Apart n l r s a, Apart-sym s l al, Apart-sym s r ar)

-- A change of a node outside a tree.
pub IsTree-update :
    (nodes : ℕ → UnionFindNode) (n : ℕ) (v : UnionFindNode) (t : Tree)
    → Outside n t
    → IsTree nodes t
    → IsTree (update nodes n v) t
IsTree-update nodes n v leaf o is = tt
IsTree-update nodes n v (node m l r) o is =
    let same = update_apart nodes n m v o.0 in
    (
      is.0,
      ap (λ c. c.dependant1) same ∙ is.1,
      ap (λ c. c.dependant2) same ∙ is.2,
      is.3,
      is.4,
      is.5,
      IsTree-update nodes n v l o.1 is.6,
      IsTree-update nodes n v r o.2 is.7,
    )
