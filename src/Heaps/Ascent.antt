-- ===== src/Heaps/Ascent.antt =====
-- `HM_HH_getHeapAtDepth` of runtime/gc/hierarchical-heap.c on a path.
use mpl.Base.{
  ℕ, zero, suc, ◌≤◌, ◌≡◌, ◌≢◌, refl, sym, ap, ◌∙◌, subst, inl, inr, false, not, ◌&&◌, Bool-cases,
  Option, none, some, List, [], ◌∷◌, ◌==◌, ltb, if◌then◌else◌, ◌>>=◌, length, arith,
}
use mpl.Base.Chain.{update_at, update_apart, update-field, Fresh, Distinct, Chain}
use mpl.Heaps.{World, new_heap, set_next_ancestor}
use mpl.Heaps.Zip.{Thread, write_cursor}
use mpl.Heaps.Levels.{walk_up, insert_heap}
use mpl.Heaps.Cursor.{
  ancestors, start_of, NotIn, IsNot, write_cursor-ancestors, write_cursor-start,
  write_cursor-Steady, SameResult, path-write,
}

-- The path with a heap at the depth `k`: `fresh`, if there was none.
unfoldable pub placed : (d : ℕ → ℕ) → (k fresh : ℕ) → List ℕ → List ℕ
placed d k fresh [] = fresh ∷ []
placed d k fresh (x ∷ xs) =
    let deeper = x ∷ placed d k fresh xs in
    if ltb k (d x) then deeper else if d x == k then x ∷ xs else fresh ∷ x ∷ xs

-- The heap that is returned.
unfoldable pub heap_at : (d : ℕ → ℕ) → (k fresh : ℕ) → List ℕ → ℕ
heap_at d k fresh [] = fresh
heap_at d k fresh (x ∷ xs) =
    let deeper = heap_at d k fresh xs in
    if ltb k (d x) then deeper else if d x == k then x else fresh

-- The new heap leaves the ancestors of the others.
new_heap-ancestors :
    (bogus : ℕ) (w : World) (uf fresh depth a : ℕ)
    → a ≢ fresh
    → ancestors (new_heap bogus w uf fresh depth) a ≡ ancestors w a
unfolding new_heap
new_heap-ancestors bogus w uf fresh depth a ne =
    ap (λ h. h.next_ancestor) (update_apart w.heaps fresh a _ (λ e. ne (sym e)))

new_heap-depths :
    (bogus : ℕ) (w : World) (uf fresh depth a : ℕ)
    → a ≢ fresh
    → ((new_heap bogus w uf fresh depth).heaps a).depth ≡ (w.heaps a).depth
unfolding new_heap
new_heap-depths bogus w uf fresh depth a ne =
    ap (λ h. h.depth) (update_apart w.heaps fresh a _ (λ e. ne (sym e)))

new_heap-depth :
    (bogus : ℕ) (w : World) (uf fresh depth : ℕ)
    → ((new_heap bogus w uf fresh depth).heaps fresh).depth ≡ depth
unfolding new_heap
new_heap-depth bogus w uf fresh depth = ap (λ h. h.depth) (update_at w.heaps fresh fresh _ refl)

module _ (bogus : ℕ) (w : World) (thread : Thread) (uf fresh k : ℕ) (nz : fresh ≢ 0) where
  -- What the search leaves behind the cursor.
  pub record Found (cursor : Option ℕ) (xs : List ℕ) (ys : List ℕ) (v : World) (t : Thread) (h : ℕ)
      : Type 0 where
    pub chain : Chain (ancestors v) (start_of cursor v t.hierarchical_heap) ys
    pub deep : (v.heaps h).depth ≡ k
    pub top : SameResult cursor thread.hierarchical_heap t.hierarchical_heap
    pub frame : (a : ℕ) → IsNot cursor a → Fresh a xs → a ≢ fresh → ancestors v a ≡ ancestors w a
    pub depths : (a : ℕ) → a ≢ fresh → (v.heaps a).depth ≡ (w.heaps a).depth

  made-ancestors :
      (p a : ℕ)
      → a ≢ fresh
      → ancestors (set_next_ancestor (new_heap bogus w uf fresh k) fresh p) a ≡ ancestors w a
  made-ancestors p a ne =
      ap (λ h. h.next_ancestor)
        (update_apart (new_heap bogus w uf fresh k).heaps fresh a _ (λ e. ne (sym e)))
      ∙ new_heap-ancestors bogus w uf fresh k a ne

  Chain-made :
      (p q : ℕ) (xs : List ℕ)
      → Fresh fresh xs
      → Chain (ancestors w) q xs
      → Chain (ancestors (set_next_ancestor (new_heap bogus w uf fresh k) fresh p)) q xs
  Chain-made p q [] f c = c
  Chain-made p q (x ∷ xs) f c =
      let m = set_next_ancestor (new_heap bogus w uf fresh k) fresh p in
      (
        c.0,
        c.1,
        subst (λ r. Chain (ancestors m) r xs) (sym (made-ancestors p x (λ e. f.0 (sym e))))
            (Chain-made p (ancestors w x) xs f.1 c.2),
      )

  insert_heap-lem :
      (cursor : Option ℕ) (p : ℕ) (xs : List ℕ)
      → Chain (ancestors w) p xs
      → NotIn cursor xs
      → Fresh fresh xs
      → IsNot cursor fresh
      → let r = insert_heap bogus w thread cursor p uf fresh k in
        Found cursor xs (fresh ∷ xs) r.0 r.1 fresh
  unfolding insert_heap
  insert_heap-lem cursor p xs c n f i =
      let top = thread.hierarchical_heap in
      let m = set_next_ancestor (new_heap bogus w uf fresh k) fresh p in
      let v = (write_cursor m cursor fresh top).0 in
      let start = write_cursor-start m cursor fresh top in
      let written = λ (a : ℕ). (write_cursor-Steady (λ x. x) 0 0 m cursor fresh top).depth a refl in
      let made_depth =
        λ (a : ℕ). update-field (λ h. h.depth) (new_heap bogus w uf fresh k).heaps fresh a _ refl in
      let at : ancestors v fresh ≡ p =
        write_cursor-ancestors m cursor fresh top fresh i
        ∙ ap (λ h. h.next_ancestor)
            (update_at (new_heap bogus w uf fresh k).heaps fresh fresh _ refl) in
      let rest = path-write m cursor fresh top p xs n (Chain-made p p xs f c) in
      record {
        chain = (start.0, nz, subst (λ q. Chain (ancestors v) q xs) (sym at) rest);
        deep = written fresh ∙ made_depth fresh ∙ new_heap-depth bogus w uf fresh k;
        top = start.1;
        frame = λ a o g ne. write_cursor-ancestors m cursor fresh top a o ∙ made-ancestors p a ne;
        depths = λ a ne. written a ∙ made_depth a ∙ new_heap-depths bogus w uf fresh k a ne;
      }

  -- What follows the search.
  abbrev pub finish : Option ℕ → ℕ → Option (World × Thread × ℕ)
  finish cursor hh =
      let (v, t) = insert_heap bogus w thread cursor hh uf fresh k in
      if not (hh == 0) && (w.heaps hh).depth == k then some (w, thread, hh) else some (v, t, fresh)

  abbrev pub depth_of : ℕ → ℕ
  depth_of a = (w.heaps a).depth

  unfoldable pub Ascends : (fuel : ℕ) → Option ℕ → (p : ℕ) → List ℕ → Type 0
  Ascends fuel cursor p xs =
      (v : World) × (t : Thread) × ((walk_up fuel w cursor p k >>= (λ (c, hh). finish c hh))
        ≡ some (v, t, heap_at depth_of k fresh xs))
      × Found cursor xs (placed depth_of k fresh xs) v t (heap_at depth_of k fresh xs)

  SameResult-refl : (cursor : Option ℕ) (r : ℕ) → SameResult cursor r r
  SameResult-refl none r = tt
  SameResult-refl (some c) r = refl

  start_after :
      (cursor : Option ℕ) (x : ℕ) (xs : List ℕ) (v : World) (t : Thread)
      → NotIn cursor (x ∷ xs)
      → IsNot cursor fresh
      → t.hierarchical_heap ≡ thread.hierarchical_heap
      → ((a : ℕ) → x ≢ a → Fresh a xs → a ≢ fresh → ancestors v a ≡ ancestors w a)
      → start_of cursor v t.hierarchical_heap ≡ start_of cursor w thread.hierarchical_heap
  start_after none x xs v t n i e frame = e
  start_after (some c) x xs v t n i e frame = frame c (λ s. n.0 (sym s)) n.1 i

  result_after :
      (cursor : Option ℕ) (t : Thread)
      → t.hierarchical_heap ≡ thread.hierarchical_heap
      → SameResult cursor thread.hierarchical_heap t.hierarchical_heap
  result_after none t e = tt
  result_after (some c) t e = e

  pub ascends :
      (fuel : ℕ) (cursor : Option ℕ) (p : ℕ) (xs : List ℕ)
      → Chain (ancestors w) p xs
      → start_of cursor w thread.hierarchical_heap ≡ p
      → NotIn cursor xs
      → Distinct xs
      → Fresh fresh xs
      → IsNot cursor fresh
      → length xs ≤ fuel
      → Ascends fuel cursor p xs
  unfolding Ascends walk_up placed heap_at
  ascends zero cursor p [] c s n d f i h =
      let r = insert_heap bogus w thread cursor p uf fresh k in
      (r.0, r.1, ground (arith, c), insert_heap-lem cursor p [] c n f i)
  ascends (suc fuel) cursor p [] c s n d f i h =
      let r = insert_heap bogus w thread cursor p uf fresh k in
      (r.0, r.1, ground (arith, c), insert_heap-lem cursor p [] c n f i)
  ascends zero cursor p (x ∷ xs) c s n d f i h = absurd (omega (arith, h))
  ascends (suc fuel) cursor p (x ∷ xs) c s n d f i h =
      let xz : (x == 0) ≡ false = (let z = c.1 in ground (arith, z)) in
      elim (Bool-cases (ltb k (depth_of x))) [
        | inl deeper ↦
            let (v, t, run, found) =
              ascends fuel (some x) (ancestors w x) xs c.2 refl d.0 d.1 f.1 (λ e. f.0 (sym e))
                (omega (arith, h)) in
            (
              v,
              t,
              rw (c.0, xz, deeper) run,
              rw deeper record {
                chain = (
                  start_after cursor x xs v t n i found.top found.frame ∙ s ∙ c.0,
                  c.1,
                  found.chain,
                );
                deep = found.deep;
                top = result_after cursor t found.top;
                frame = λ a o g ne. found.frame a (λ e. g.0 (sym e)) g.1 ne;
                depths = found.depths;
              },
            )
        | inr here ↦ elim (Bool-cases (depth_of x == k)) [
          | inl there ↦ (
            w,
            thread,
            rw (c.0, xz, here) (rw (xz, there) refl),
            rw (here, there)
                record {
                  chain = (s ∙ c.0, c.1, c.2);
                  deep = ground (arith, there);
                  top = SameResult-refl cursor thread.hierarchical_heap;
                  frame = λ a o g ne. refl;
                  depths = λ a ne. refl;
                },
          )
          | inr missing ↦
              let r = insert_heap bogus w thread cursor x uf fresh k in
              (
                r.0,
                r.1,
                rw (c.0, xz, here) (rw (xz, missing) refl),
                rw (here, missing) (insert_heap-lem cursor x (x ∷ xs) (refl, c.1, c.2) n f i),
              )
        ]
      ]
