-- ===== src/Heaps/Joins.antt =====
-- `HM_HH_zip` of runtime/gc/hierarchical-heap.c on two paths.
use mpl.Base.{
  ℕ, zero, suc, ◌+◌, ◌≤◌, ◌≡◌, ◌≢◌, refl, sym, ap, ap₂, ◌∙◌, inl, inr, false, Bool-cases, Option,
  none, some, List, [], ◌∷◌, ◌==◌, ltb, All, All-map, length, arith,
}
use mpl.Base.Chain.{Fresh, Chain}
use mpl.Heaps.{World}
use mpl.Heaps.Zip.{write_cursor, zip_from, zip}
use mpl.Heaps.Merged.{merged, matched, Descending, merged-Descending}
use mpl.Heaps.Steady.{Steady-refl, representatives}
use mpl.Heaps.Rounds.{zip_from-second}
use mpl.Heaps.Cursor.{
  ancestors, write_cursor-ancestors, write_cursor-start, write_cursor-nodes, NotIn-IsNot,
  NotIn-rest, head_of, IsPath-tail, Fresh-All, All-both, Zippable, Merges-placed,
}
use mpl.Heaps.Zipped.{Zips, Zips-no_first, Zips-no_second, Zips-both, Zips-first, placed-Zippable}

All-Fresh : (y : ℕ) (xs ys : List ℕ) → All (λ a. Fresh a (y ∷ ys)) xs → Fresh y xs
All-Fresh y [] ys a = tt
All-Fresh y (x ∷ xs) ys a = ((λ e. a.0.0 (sym e)), All-Fresh y xs ys a.1)

module _ (loops : ℕ) (owner d uf : ℕ → ℕ) where
  -- The second path's head is deeper.
  Zips-second :
      (fuel : ℕ) (w : World) (x : ℕ) (xs : List ℕ) (y : ℕ) (ys : List ℕ) (cursor : Option ℕ)
      (result : ℕ)
      → Zippable loops owner d uf w (x ∷ xs) (y ∷ ys) cursor result
      → (d x == d y) ≡ false
      → ltb (d y) (d x) ≡ false
      → ((u : World) (r : ℕ)
          → Zippable loops owner d uf u (x ∷ xs) ys (some y) r
          → Zips loops owner d uf fuel u (x ∷ xs) ys (some y) r)
      → Zips loops owner d uf (suc fuel) w (x ∷ xs) (y ∷ ys) cursor result
  unfolding merged matched
  Zips-second fuel w x xs y ys cursor result z same less ih =
      let u = write_cursor w cursor y result in
      let (e2, tail2) = IsPath-tail w y ys z.path2 in
      let not_y = NotIn-IsNot cursor y ys z.at2 in
      let n2 = NotIn-rest cursor y ys z.at2 in
      let next : ancestors u.0 y ≡ head_of ys =
        write_cursor-ancestors w cursor y result y not_y ∙ e2 in
      let fresh1 = All-Fresh y (x ∷ xs) ys z.apart in
      let others1 = Fresh-All y (x ∷ xs) fresh1 in
      let others2 = Fresh-All y ys z.distinct2.0 in
      let (v, found, run, m) = ih u.0 u.1 (
        placed-Zippable loops owner d uf w w y y y (x ∷ xs) ys cursor result
          (Steady-refl owner y y w) (λ a. refl) z.path1 tail2 z.distinct1 z.distinct2.1
          (All-map (λ a. Fresh a (y ∷ ys)) (λ a. Fresh a ys) (x ∷ xs) (λ a f. f.1) z.apart)
          (All-both (λ a. a ≢ y) (λ a. a ≢ y) (x ∷ xs) others1 others1)
          (All-both (λ a. a ≢ y) (λ a. a ≢ y) ys others2 others2) z.subs1 z.subs2.1 z.depth z.node
          z.nodes.1 z.at1 n2 fresh1 z.distinct2.0 (λ a _. cc a)) in
      let start = write_cursor-start w cursor y result in
      let placed =
        Merges-placed owner d uf w u.0 v y u.1 found (x ∷ xs) ys cursor result z.path2.1 z.at1 n2
          not_y start.0 start.1 (write_cursor-ancestors w cursor y result) m in
      let at_x = z.depth x z.subs1.0.2.head in
      let at_y = z.depth y z.subs2.0.2.head in
      (
        v,
        found,
        zip_from-second loops fuel w x y cursor result z.path1.1 z.path2.1
              (ap₂ (λ a b. a == b) at_x at_y ∙ same) (ap₂ ltb at_y at_x ∙ less)
            ∙ ap (λ a. zip_from loops fuel u.0 x a (some y) u.1) next
            ∙ run,
        record {
          chain = rw (same, less) placed.0;
          frame = λ a f g o. placed.1 a (λ e. g.0 (sym e)) f g.1 o;
          same = placed.2;
          depth = m.depth;
          pairs = rw (same, less) m.pairs;
          reps = λ n f.
              m.reps n f.1
              ∙ ap (λ s. (s.store.nodes n).representative) (write_cursor-nodes w cursor y result);
        },
      )

  zip_from-lem :
      (fuel : ℕ) (w : World) (xs ys : List ℕ) (cursor : Option ℕ) (result : ℕ)
      → length xs + length ys ≤ fuel
      → Zippable loops owner d uf w xs ys cursor result
      → Zips loops owner d uf fuel w xs ys cursor result
  zip_from-lem fuel w [] ys cursor result h z =
      Zips-no_first loops owner d uf fuel w ys cursor result z
  zip_from-lem fuel w (x ∷ xs) [] cursor result h z =
      Zips-no_second loops owner d uf fuel w x xs cursor result z
  zip_from-lem zero w (x ∷ xs) (y ∷ ys) cursor result h z = absurd (omega (arith, h))
  zip_from-lem (suc fuel) w (x ∷ xs) (y ∷ ys) cursor result h z =
      let both = λ (u : World) (r : ℕ). zip_from-lem fuel u xs ys (some x) r (omega (arith, h)) in
      let first =
        λ (u : World) (r : ℕ). zip_from-lem fuel u xs (y ∷ ys) (some x) r (omega (arith, h)) in
      let second =
        λ (u : World) (r : ℕ). zip_from-lem fuel u (x ∷ xs) ys (some y) r (omega (arith, h)) in
      elim (Bool-cases (d x == d y)) [
        | inl e ↦ Zips-both loops owner d uf fuel w x xs y ys cursor result z e both
        | inr ne ↦ elim (Bool-cases (ltb (d y) (d x))) [
          | inl lt ↦ Zips-first loops owner d uf fuel w x xs y ys cursor result z ne lt first
          | inr ge ↦ Zips-second fuel w x xs y ys cursor result z ne ge second
        ]
      ]

-- The zip of two paths that share no heap, with fuel for the heaps and for the chains of their
-- subheaps, ends. From the heap that it returns on the ancestors are those of both paths from the
-- deepest up, where of two at the same depth the one of the first path stays, and the node of the other
-- leads to its node. The ancestors of all other heaps stay.
pub zip_lem :
    (loops fuel : ℕ) (owner d uf : ℕ → ℕ) (w : World) (xs ys : List ℕ)
    → Zippable loops owner d uf w xs ys none 0
    → Descending d xs
    → Descending d ys
    → length xs + length ys ≤ fuel
    → (v : World) × (hh : ℕ) × (zip loops fuel w (head_of xs) (head_of ys) ≡ some (v, hh))
      × Chain (ancestors v) hh (merged d xs ys)
      × Descending d (merged d xs ys)
      × ((a : ℕ) → owner a ≡ a → (v.heaps a).depth ≡ d a)
      × All (λ (x, y). representatives v (uf y) ≡ uf x) (matched d xs ys)
      × ((a : ℕ) → Fresh a xs → Fresh a ys → ancestors v a ≡ ancestors w a)
unfolding zip
zip_lem loops fuel owner d uf w xs ys z s t h =
    let (v, hh, run, m) = zip_from-lem loops owner d uf fuel w xs ys none 0 h z in
    (
      v,
      hh,
      run,
      m.chain,
      merged-Descending d xs ys s t,
      m.depth,
      m.pairs,
      λ a f g. m.frame a f g tt,
    )
