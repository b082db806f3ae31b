-- ===== src/Heaps/PathOrder.antt =====
-- `HM_HH_getHeapAtDepth` of runtime/gc/hierarchical-heap.c keeps a path in order.
use mpl.Base.{
  ℕ, ◌≤◌, ◌<◌, ◌≡◌, ◌≢◌, refl, sym, subst, none, some, List, [], ◌∷◌, ◌==◌, ltb, inl, inr,
  Bool-cases, All, length, arith,
}
use mpl.Base.Chain.{Fresh, Distinct, Chain}
use mpl.Heaps.{World}
use mpl.Heaps.Zip.{Thread}
use mpl.Heaps.Levels.{get_heap_at_depth}
use mpl.Heaps.Merged.{Descending}
use mpl.Heaps.Cursor.{ancestors}
use mpl.Heaps.Ascent.{placed, heap_at, Ascends, ascends}

module _ (d e : ℕ → ℕ) (k fresh : ℕ) (same : (a : ℕ) → a ≢ fresh → e a ≡ d a) where
  same-All : (b : ℕ) (xs : List ℕ) → Fresh fresh xs → All (λ z. d z < b) xs → All (λ z. e z < b) xs
  same-All b [] f a = tt
  same-All b (x ∷ xs) f a =
      let s = same x (λ q. f.0 (sym q)) in (omega (arith, s, a.0), same-All b xs f.1 a.1)

  placed-below :
      (b : ℕ) (xs : List ℕ)
      → k < b
      → e (heap_at d k fresh xs) ≡ k
      → Fresh fresh xs
      → All (λ z. d z < b) xs
      → All (λ z. e z < b) (placed d k fresh xs)
  unfolding placed heap_at
  placed-below b [] h at f a = (omega (arith, at, h), tt)
  placed-below b (x ∷ xs) h at f a =
      let s = same x (λ q. f.0 (sym q)) in
      let rest = same-All b xs f.1 a.1 in
      let low : e x < b = omega (arith, s, a.0) in
      elim (Bool-cases (ltb k (d x))) [
        | inl deeper ↦ rw deeper (low, placed-below b xs h (rw deeper at at) f.1 a.1)
        | inr here ↦ elim (Bool-cases (d x == k)) [
          | inl there ↦ rw (here, there) (low, rest)
          | inr missing ↦
              let new : e fresh ≡ k = rw (here, missing) at at in
              rw (here, missing) (omega (arith, new, h), (low, rest))
        ]
      ]

  Descending-same : (xs : List ℕ) → Fresh fresh xs → Descending d xs → Descending e xs
  Descending-same [] f o = tt
  Descending-same (x ∷ xs) f o =
      let s = same x (λ q. f.0 (sym q)) in
      (rw s (same-All (d x) xs f.1 o.0), Descending-same xs f.1 o.1)

  pub placed-Descending :
      (xs : List ℕ)
      → e (heap_at d k fresh xs) ≡ k
      → Fresh fresh xs
      → Descending d xs
      → Descending e (placed d k fresh xs)
  unfolding placed heap_at
  placed-Descending [] at f o = (tt, tt)
  placed-Descending (x ∷ xs) at f o =
      let s = same x (λ q. f.0 (sym q)) in
      elim (Bool-cases (ltb k (d x))) [
        | inl deeper ↦
            let below : k < d x = ground (arith, deeper) in
            rw deeper (
              rw s (placed-below (d x) xs below (rw deeper at at) f.1 o.0),
              placed-Descending xs (rw deeper at at) f.1 o.1,
            )
        | inr here ↦ elim (Bool-cases (d x == k)) [
          | inl there ↦ rw (here, there) (Descending-same (x ∷ xs) f o)
          | inr missing ↦
              let new : e fresh ≡ k = rw (here, missing) at at in
              let less : d x < k = ground (arith, here, missing) in
              rw (here, missing)
                (
                  subst (λ b. All (λ z. e z < b) (x ∷ xs)) (sym new)
                      (omega (arith, s, less), lower (d x) k xs less f.1 o.0),
                  Descending-same (x ∷ xs) f o,
                )
        ]
      ]
    where
      lower :
          (b c : ℕ) (ys : List ℕ)
          → b < c
          → Fresh fresh ys
          → All (λ z. d z < b) ys
          → All (λ z. e z < c) ys
      lower b c [] h f a = tt
      lower b c (y ∷ ys) h f a =
          let s = same y (λ q. f.0 (sym q)) in (omega (arith, s, a.0, h), lower b c ys h f.1 a.1)

-- The search for the heap at a depth ends, with fuel for the path. It returns a heap at that depth, and
-- leads from the thread through the same path, in which a new heap stands at its place if there was
-- none; the path is still ordered by depth.
pub get_heap_at_depth_lem :
    (bogus fuel : ℕ) (w : World) (thread : Thread) (uf fresh k : ℕ) (xs : List ℕ)
    → let d = λ (a : ℕ). (w.heaps a).depth in
      fresh ≢ 0
      → Chain (ancestors w) thread.hierarchical_heap xs
      → Distinct xs
      → Fresh fresh xs
      → Descending d xs
      → length xs ≤ fuel
      → (v : World) × (t : Thread) × (get_heap_at_depth bogus fuel w thread uf fresh k
          ≡ some (v, t, heap_at d k fresh xs))
        × ((v.heaps (heap_at d k fresh xs)).depth ≡ k)
        × Chain (ancestors v) t.hierarchical_heap (placed d k fresh xs)
        × Descending (λ a. (v.heaps a).depth) (placed d k fresh xs)
unfolding get_heap_at_depth Ascends
get_heap_at_depth_lem bogus fuel w thread uf fresh k xs nz c dis f o h =
    let d = λ (a : ℕ). (w.heaps a).depth in
    let (v, t, run, found) =
      ascends bogus w thread uf fresh k nz fuel none thread.hierarchical_heap xs c refl tt dis f tt
        h in
    (
      v,
      t,
      run,
      found.deep,
      found.chain,
      placed-Descending d (λ a. (v.heaps a).depth) k fresh found.depths xs found.deep f o,
    )
