-- ===== src/Chunks/Paths.antt =====
-- The loops of `HM_getLevelHead` and `HM_getLevelHeadPathCompress` of runtime/gc/chunk.c over a chain of
-- union-find nodes.
use native.Mathlib.Decide.{ℕ_discrete}
use mpl.Base.{
  ℕ, zero, suc, ◌≤◌, ◌<◌, ◌≡◌, ◌≢◌, refl, sym, subst, ◌∙◌, Option, none, some, ◌==◌, if◌then◌else◌,
  arith,
}
use mpl.Base.Chain.{update}
use mpl.Chunks.{UnionFindNode}

-- The loop of `HM_getLevelHead`: the last node of the chain. `none` is a loop that ran out of fuel.
unfoldable pub find_top : ℕ → (ℕ → UnionFindNode) → ℕ → Option ℕ
find_top zero nodes cursor = none
find_top (suc fuel) nodes cursor =
    let rest = find_top fuel nodes (nodes cursor).representative in
    if (nodes cursor).representative == 0 then some cursor else rest

-- The loop of `HM_getLevelHeadPathCompress`.
unfoldable pub compress : ℕ → (ℕ → UnionFindNode) → (cursor top : ℕ) → Option (ℕ → UnionFindNode)
compress zero nodes cursor top = if cursor == top then some nodes else none
compress (suc fuel) nodes cursor top =
    let next = (nodes cursor).representative in
    let rest =
      compress fuel (update nodes cursor (record (nodes cursor) { representative = top })) next
        top in
    if cursor == top then some nodes else rest

-- `n` steps lead from the node to `top`, which stands for itself.
pub data Leads (nodes : ℕ → UnionFindNode) (top : ℕ) : ℕ → ℕ → Type 0 where
  at_top : (nodes top).representative ≡ 0 → Leads nodes top 0 top
  step :
      {n x : ℕ}
      → x ≢ top
      → (nodes x).representative ≢ 0
      → Leads nodes top n (nodes x).representative
      → Leads nodes top (suc n) x

-- The search finds the last node, with fuel beyond the number of steps.
find_top-Leads :
    (fuel n : ℕ) (nodes : ℕ → UnionFindNode) (x top : ℕ)
    → Leads nodes top n x
    → n < fuel
    → find_top fuel nodes x ≡ some top
unfolding find_top
find_top-Leads zero n nodes x top l h = absurd (omega (arith, h))
find_top-Leads (suc fuel) zero nodes x top (at_top e) h = ground (arith, e)
find_top-Leads (suc fuel) (suc n) nodes x top (step ne nz l) h =
    ground
      (arith, nz, find_top-Leads fuel n nodes (nodes x).representative top l (omega (arith, h)))

abbrev pub shortened : (ℕ → UnionFindNode) → (x top : ℕ) → ℕ → UnionFindNode
shortened nodes x top = update nodes x (record (nodes x) { representative = top })

Leads-root :
    (nodes : ℕ → UnionFindNode) (r k x : ℕ) → Leads nodes r k x → (nodes r).representative ≡ 0
Leads-root nodes r zero x (at_top e) = e
Leads-root nodes r (suc k) x (step ne nz p) = Leads-root nodes r k (nodes x).representative p

-- A node leads to one last node only.
Leads-unique :
    (nodes : ℕ → UnionFindNode) (r t k n x : ℕ) → Leads nodes r k x → Leads nodes t n x → r ≡ t
Leads-unique nodes r t zero zero x (at_top e) (at_top f) = refl
Leads-unique nodes r t zero (suc n) x (at_top e) (step ne nz l) = absurd (nz e)
Leads-unique nodes r t (suc k) zero x (step ne nz p) (at_top f) = absurd (nz f)
Leads-unique nodes r t (suc k) (suc n) x (step ne nz p) (step ne2 nz2 l) =
    Leads-unique nodes r t k n (nodes x).representative p l

Leads-moves :
    (nodes : ℕ → UnionFindNode) (x top n : ℕ)
    → x ≢ top
    → Leads nodes top n x
    → (nodes x).representative ≢ 0
Leads-moves nodes x top zero ne (at_top e) = absurd (ne refl)
Leads-moves nodes x top (suc n) ne (step ne2 nz l) = nz

shortened-self :
    (nodes : ℕ → UnionFindNode) (x top : ℕ)
    → top ≢ 0
    → x ≢ top
    → (nodes top).representative ≡ 0
    → Leads (shortened nodes x top) top 1 x
shortened-self nodes x top tz ne root =
    step ne (ground (arith, tz))
      (subst (Leads (shortened nodes x top) top 0) now (at_top (ground (arith, ne, root))))
  where
    now : top ≡ (shortened nodes x top x).representative
    now = ground arith

-- Where one node is made to point to its last node, every node still leads to its own.
pub shortened-Leads :
    (nodes : ℕ → UnionFindNode) (x top n : ℕ) (y r k : ℕ)
    → top ≢ 0
    → x ≢ top
    → Leads nodes top n x
    → Leads nodes r k y
    → (j : ℕ) × (j ≤ k) × Leads (shortened nodes x top) r j y
shortened-Leads nodes x top n y r zero tz ne l (at_top e) =
    let moves = Leads-moves nodes x top n ne l in
    (0, omega arith, at_top (ground (arith, e, moves)))
shortened-Leads nodes x top n y r (suc k) tz ne l (step yne nz p) = elim (ℕ_discrete x y) [
  | yes e ↦
      let same =
        Leads-unique nodes top r n (suc k) x l
          (subst (Leads nodes r (suc k)) (sym e) (step yne nz p)) in
      (
        1,
        omega arith,
        subst (λ z. Leads (shortened nodes x top) z 1 y) same
            (subst (Leads (shortened nodes x top) top 1) e
              (shortened-self nodes x top tz ne (Leads-root nodes top n x l))),
      )
  | no d ↦
      let (j, le, q) = shortened-Leads nodes x top n (nodes y).representative r k tz ne l p in
      let kept : (nodes y).representative ≡ (shortened nodes x top y).representative =
        ground (arith, d) in
      (
        suc j,
        omega (arith, le),
        step yne (λ z. nz (kept ∙ z)) (subst (Leads (shortened nodes x top) r j) kept q),
      )
]

pub shortened-payload :
    (nodes : ℕ → UnionFindNode) (x top y : ℕ)
    → (shortened nodes x top y).payload ≡ (nodes y).payload
shortened-payload nodes x top y = ground arith
