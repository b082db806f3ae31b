-- ===== src/Chunks/Heads.antt =====
-- `HM_getLevelHead` and `HM_getLevelHeadPathCompress` of runtime/gc/chunk.c: the heap of a chunk, at
-- the end of a chain of union-find nodes.
use mpl.Base.{
  ℕ, zero, suc, ◌≤◌, ◌<◌, ◌≡◌, ◌≢◌, refl, sym, ap, subst, ◌∙◌, Option, none, some, ◌==◌,
  if◌then◌else◌, arith,
}
use mpl.Chunks.{Store, UnionFindNode, set_chunk}
use mpl.Chunks.Paths.{
  find_top, compress, Leads, at_top, step, shortened, shortened-Leads, shortened-payload,
}

-- `HM_getLevelHead`: the payload of the last node.
pub get_level_head : ℕ → Store → ℕ → Option ℕ
get_level_head fuel s chunk = elim (find_top fuel s.nodes (s.chunks chunk).level_head) [
  | none ↦ none
  | some top ↦ some (s.nodes top).payload
]

-- `HM_getLevelHeadPathCompress`, where the node of a heap (`HM_HH_getUFNode`) is the one that has it
-- as its payload.
pub get_level_head_path_compress : ℕ → Store → ℕ → Option (Store × ℕ)
get_level_head_path_compress fuel s chunk =
    let head = (s.chunks chunk).level_head in
    elim (find_top fuel s.nodes head) [
      | none ↦ none
      | some top ↦ elim (compress fuel s.nodes head top) [
        | none ↦ none
        | some nodes ↦
            if head == top
            then some (s, (s.nodes top).payload)
            else some (
              set_chunk (record s { nodes = nodes }) chunk
                  (record (s.chunks chunk) { level_head = top }),
              (s.nodes top).payload,
            )
      ]
    ]

-- The nodes on the way from a node up.
unfoldable pub ancestor : (ℕ → UnionFindNode) → (steps x : ℕ) → ℕ
ancestor nodes zero x = x
ancestor nodes (suc i) x = ancestor nodes i (nodes x).representative

Leads-length :
    (nodes : ℕ → UnionFindNode) (top n m x : ℕ) → Leads nodes top n x → Leads nodes top m x → n ≡ m
Leads-length nodes top zero zero x (at_top e) l = refl
Leads-length nodes top zero (suc m) x (at_top e) (step ne nz l) = absurd (ne refl)
Leads-length nodes top (suc n) zero x (step ne nz l) (at_top e) = absurd (ne refl)
Leads-length nodes top (suc n) (suc m) x (step ne nz l) (step ne2 nz2 k) =
    ap suc (Leads-length nodes top n m (nodes x).representative l k)

-- A node that is nearer to the last one than `x` leads there by the same way when `x` is shortened.
nearer :
    (nodes : ℕ → UnionFindNode) (x top n m z : ℕ)
    → x ≢ top
    → Leads nodes top n x
    → Leads nodes top m z
    → m < n
    → Leads (shortened nodes x top) top m z
      × ((i : ℕ) → i ≤ m → ancestor (shortened nodes x top) i z ≡ ancestor nodes i z)
unfolding ancestor
nearer nodes x top n zero z ne l (at_top e) h =
    (at_top (ground (arith, e, ne)), λ i le. at_zero i le)
  where
    at_zero : (i : ℕ) → i ≤ 0 → ancestor (shortened nodes x top) i top ≡ ancestor nodes i top
    at_zero zero le = refl
    at_zero (suc i) le = absurd (omega (arith, le))
nearer nodes x top n (suc m) z ne l (step zne nz k) h =
    let apart : x ≢ z = (λ e.
      let len =
        Leads-length nodes top n (suc m) x l
          (subst (Leads nodes top (suc m)) (sym e) (step zne nz k)) in
      absurd (omega (arith, len, h))) in
    let kept : (nodes z).representative ≡ (shortened nodes x top z).representative =
      ground (arith, apart) in
    let (q, same) = nearer nodes x top n m (nodes z).representative ne l k (omega (arith, h)) in
    (
      step zne (λ w. nz (kept ∙ w)) (subst (Leads (shortened nodes x top) top m) kept q),
      λ i le. next i le kept same,
    )
  where
    next :
        (i : ℕ)
        → i ≤ suc m
        → (nodes z).representative ≡ (shortened nodes x top z).representative
        → ((j : ℕ)
            → j ≤ m
            → ancestor (shortened nodes x top) j (nodes z).representative
              ≡ ancestor nodes j (nodes z).representative)
        → ancestor (shortened nodes x top) i z ≡ ancestor nodes i z
    next zero le kept same = refl
    next (suc i) le kept same =
        ap (ancestor (shortened nodes x top) i) (sym kept) ∙ same i (omega (arith, le))

-- The loop leaves no node that points to the last one pointing elsewhere, and makes every node on the
-- way point to it.
compress-short :
    (fuel n : ℕ) (nodes : ℕ → UnionFindNode) (x top : ℕ)
    → top ≢ 0
    → Leads nodes top n x
    → n ≤ fuel
    → (after : ℕ → UnionFindNode) × (compress fuel nodes x top ≡ some after)
      × ((a : ℕ) → (nodes a).representative ≡ top → (after a).representative ≡ top)
      × ((i : ℕ) → i < n → (after (ancestor nodes i x)).representative ≡ top)
unfolding compress ancestor
compress-short zero zero nodes x top tz (at_top e) h =
    (nodes, ground arith, λ a e. e, λ i l. absurd (omega (arith, l)))
compress-short zero (suc n) nodes x top tz l h = absurd (omega (arith, h))
compress-short (suc fuel) zero nodes x top tz (at_top e) h =
    (nodes, ground arith, λ a e. e, λ i l. absurd (omega (arith, l)))
compress-short (suc fuel) (suc n) nodes x top tz (step ne nz l) h =
    let (q, same) =
      nearer nodes x top (suc n) n (nodes x).representative ne (step ne nz l) l (omega arith) in
    let (after, eq, keeps, short) =
      compress-short fuel n (shortened nodes x top) (nodes x).representative top tz q
        (omega (arith, h)) in
    (
      after,
      ground (arith, ne, eq),
      λ a e. keeps a (ground (arith, e)),
      λ i less. at i less after keeps short same,
    )
  where
    at :
        (i : ℕ)
        → i < suc n
        → (after : ℕ → UnionFindNode)
        → ((a : ℕ)
            → (shortened nodes x top a).representative ≡ top
            → (after a).representative ≡ top)
        → ((j : ℕ)
            → j < n
            → (after (ancestor (shortened nodes x top) j (nodes x).representative)).representative
              ≡ top)
        → ((j : ℕ)
            → j ≤ n
            → ancestor (shortened nodes x top) j (nodes x).representative
              ≡ ancestor nodes j (nodes x).representative)
        → (after (ancestor nodes i x)).representative ≡ top
    at zero less after keeps short same = keeps x (ground arith)
    at (suc i) less after keeps short same =
        ap (λ y. (after y).representative) (sym (same i (omega (arith, less))))
        ∙ short i (omega (arith, less))

-- Where n steps lead from a node to the last one, a fuel of n suffices to shorten the path, and
-- every node still leads to the last node that it led to before, and keeps its payload.
compress-Leads :
    (fuel n : ℕ) (nodes : ℕ → UnionFindNode) (x top y r k : ℕ)
    → top ≢ 0
    → Leads nodes top n x
    → n ≤ fuel
    → Leads nodes r k y
    → (after : ℕ → UnionFindNode) × (j : ℕ) × (compress fuel nodes x top ≡ some after)
      × Leads after r j y
      × ((after y).payload ≡ (nodes y).payload)
unfolding compress
compress-Leads zero zero nodes x top y r k tz (at_top e) h p = (nodes, k, ground arith, p, refl)
compress-Leads zero (suc n) nodes x top y r k tz l h p = absurd (omega (arith, h))
compress-Leads (suc fuel) zero nodes x top y r k tz (at_top e) h p =
    (nodes, k, ground arith, p, refl)
compress-Leads (suc fuel) (suc n) nodes x top y r k tz (step ne nz l) h p =
    let start = step ne nz l in
    let (i, lei, q) =
      shortened-Leads nodes x top (suc n) (nodes x).representative top n tz ne start l in
    let (j, lej, z) = shortened-Leads nodes x top (suc n) y r k tz ne start p in
    let (after, m, eq, kept, pay) =
      compress-Leads fuel i (shortened nodes x top) (nodes x).representative top y r j tz q
        (omega (arith, lei, h)) z in
    (after, m, ground (arith, ne, eq), kept, pay ∙ shortened-payload nodes x top y)

-- Where n steps lead from a node to the last one, a fuel of n suffices. The n nodes on the way then
-- point to the last one themselves, and every node still leads to the last node that it led to before,
-- and keeps its payload.
pub compress_lem :
    (fuel n : ℕ) (nodes : ℕ → UnionFindNode) (x top y r k : ℕ)
    → top ≢ 0
    → Leads nodes top n x
    → n ≤ fuel
    → Leads nodes r k y
    → (after : ℕ → UnionFindNode) × (j : ℕ) × (compress fuel nodes x top ≡ some after)
      × ((i : ℕ) → i < n → (after (ancestor nodes i x)).representative ≡ top)
      × Leads after r j y
      × ((after y).payload ≡ (nodes y).payload)
compress_lem fuel n nodes x top y r k tz l h p =
    let (after, j, eq, kept, pay) = compress-Leads fuel n nodes x top y r k tz l h p in
    let (same, eq2, _, short) = compress-short fuel n nodes x top tz l h in
    let both : same ≡ after = cc (eq2, eq) in
    (
      after,
      j,
      eq,
      λ i less. ap (λ f. (f (ancestor nodes i x)).representative) (sym both) ∙ short i less,
      kept,
      pay,
    )
