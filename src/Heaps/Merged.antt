-- ===== src/Heaps/Merged.antt =====
-- What `HM_HH_zip` of runtime/gc/hierarchical-heap.c is to do with two paths of heaps, by their depths.
use mpl.Base.{ℕ, ◌<◌, ◌≡◌, List, [], ◌∷◌, ◌==◌, ltb, if◌then◌else◌, All, All-map, arith}

module _ (d : ℕ → ℕ) where
  -- The heaps from the deepest up, where of two at the same depth the one of the first path stays.
  unfoldable pub merged : List ℕ → List ℕ → List ℕ
  merged [] ys = ys
  merged (x ∷ xs) [] = x ∷ xs
  merged (x ∷ xs) (y ∷ ys) =
      let both = x ∷ merged xs ys in
      let first = x ∷ merged xs (y ∷ ys) in
      let second = y ∷ merged (x ∷ xs) ys in
      if d x == d y then both else if ltb (d y) (d x) then first else second

  -- The pairs of heaps at the same depth.
  unfoldable pub matched : List ℕ → List ℕ → List (ℕ × ℕ)
  matched [] ys = []
  matched (x ∷ xs) [] = []
  matched (x ∷ xs) (y ∷ ys) =
      let both = (x, y) ∷ matched xs ys in
      let first = matched xs (y ∷ ys) in
      let second = matched (x ∷ xs) ys in
      if d x == d y then both else if ltb (d y) (d x) then first else second

  -- Each heap is deeper than those after it.
  abbrev pub Descending : List ℕ → Type 0
  Descending [] = Unit {0}
  Descending (x ∷ xs) = All (λ z. d z < d x) xs × Descending xs

  pub All-merged : (P : ℕ → Type 0) (xs ys : List ℕ) → All P xs → All P ys → All P (merged xs ys)
  unfolding merged
  All-merged P [] ys a b = b
  All-merged P (x ∷ xs) [] a b = a
  All-merged P (x ∷ xs) (y ∷ ys) a b = ground (
    arith,
    All-merged P xs ys a.1 b.1,
    All-merged P xs (y ∷ ys) a.1 b,
    All-merged P (x ∷ xs) ys a b.1,
  )

  deeper : (x y : ℕ) (ys : List ℕ) → d y < d x → Descending (y ∷ ys) → All (λ z. d z < d x) (y ∷ ys)
  deeper x y ys h s =
      (h, All-map (λ z. d z < d y) (λ z. d z < d x) ys (λ z p. omega (arith, p, h)) s.0)

  pub merged-Descending :
      (xs ys : List ℕ) → Descending xs → Descending ys → Descending (merged xs ys)
  unfolding merged
  merged-Descending [] ys s t = t
  merged-Descending (x ∷ xs) [] s t = s
  merged-Descending (x ∷ xs) (y ∷ ys) s t =
      let below = λ (h : d x ≡ d y).
        All-map (λ z. d z < d y) (λ z. d z < d x) ys (λ z p. omega (arith, p, h)) t.0 in
      let both = λ (h : d x ≡ d y). All-merged (λ z. d z < d x) xs ys s.0 (below h) in
      let first =
        λ (h : d y < d x). All-merged (λ z. d z < d x) xs (y ∷ ys) s.0 (deeper x y ys h t) in
      let second =
        λ (h : d x < d y). All-merged (λ z. d z < d y) (x ∷ xs) ys (deeper y x xs h s) t.0 in
      ground (
        arith,
        both,
        first,
        second,
        merged-Descending xs ys s.1 t.1,
        merged-Descending xs (y ∷ ys) s.1 t,
        merged-Descending (x ∷ xs) ys s t.1,
      )
