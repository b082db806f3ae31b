-- ===== src/Heaps/Zipped.antt =====
-- `HM_HH_zip` of runtime/gc/hierarchical-heap.c merges two paths.
use mathlib.Core.List.{map}
use mpl.Base.{
  ℕ, suc, ◌≡◌, ◌≢◌, refl, sym, ap, ap₂, ◌∙◌, true, false, Option, none, some, List, [], ◌∷◌, ◌==◌,
  ◌||◌, ltb, All, All-map, arith,
}
use mpl.Base.Chain.{Fresh, Distinct, Chain-same}
use mpl.Heaps.{World}
use mpl.Heaps.Zip.{write_cursor, zip_end, zip_from}
use mpl.Heaps.Merged.{merged, matched}
use mpl.Heaps.Steady.{
  Steady, HasSubs, Steady-All, Steady-refl, Steady-trans, representatives, zip_level-lem,
}
use mpl.Heaps.Rounds.{zip_from-both, zip_from-first}
use mpl.Heaps.Cursor.{
  ancestors, NotIn, SameResult, write_cursor-Steady, write_cursor-ancestors, write_cursor-start,
  write_cursor-nodes, NotIn-IsNot, NotIn-rest, path-write, head_of, IsPath, IsPath-tail,
  head_of-nil, Fresh-All, All-both, Zippable, Merges, Merges-placed, zip_from-end, appended,
}

module _ (loops : ℕ) (owner d uf : ℕ → ℕ) where
  -- The result of the loop on two paths.
  abbrev pub Zips :
      (fuel : ℕ) → World → (xs ys : List ℕ) → (cursor : Option ℕ) → (result : ℕ) → Type 0
  Zips fuel w xs ys cursor result =
      (v : World) × (found : ℕ) × (zip_from loops fuel w (head_of xs) (head_of ys) cursor result
        ≡ some (v, found))
      × Merges owner d uf w v xs ys cursor result found

  pub Zips-no_first :
      (fuel : ℕ) (w : World) (ys : List ℕ) (cursor : Option ℕ) (result : ℕ)
      → Zippable loops owner d uf w [] ys cursor result
      → Zips fuel w [] ys cursor result
  unfolding merged matched zip_end
  Zips-no_first fuel w [] cursor result z =
      let at = z.ended refl refl in
      (
        w,
        result,
        zip_from-end loops fuel w 0 0 cursor result refl,
        record {
          chain = at;
          frame = λ a f g o. refl;
          same = keeps cursor;
          depth = z.depth;
          pairs = tt;
          reps = λ n f. refl;
        },
      )
    where
      keeps : (c : Option ℕ) → SameResult c result result
      keeps none = tt
      keeps (some c) = refl
  Zips-no_first fuel w (y ∷ ys) cursor result z =
      let (chain, before, same, reps) =
        appended owner d uf w y (y ∷ ys) cursor result z.path2 z.at2 in
      let u = write_cursor w cursor y result in
      let nz = z.path2.1 in
      (
        u.0,
        u.1,
        zip_from-end loops fuel w 0 y cursor result refl ∙ ground (arith, nz),
        record {
          chain = chain;
          frame = λ a f g o. before a o;
          same = same;
          depth = λ a o. (write_cursor-Steady owner 0 0 w cursor y result).depth a o ∙ z.depth a o;
          pairs = tt;
          reps = λ n f. reps n;
        },
      )

  pub Zips-no_second :
      (fuel : ℕ) (w : World) (x : ℕ) (xs : List ℕ) (cursor : Option ℕ) (result : ℕ)
      → Zippable loops owner d uf w (x ∷ xs) [] cursor result
      → Zips fuel w (x ∷ xs) [] cursor result
  unfolding merged matched zip_end
  Zips-no_second fuel w x xs cursor result z =
      let (chain, before, same, reps) =
        appended owner d uf w x (x ∷ xs) cursor result z.path1 z.at1 in
      let u = write_cursor w cursor x result in
      let nz = z.path1.1 in
      let stop : (x == 0 || 0 == 0) ≡ true = ground arith in
      (
        u.0,
        u.1,
        zip_from-end loops fuel w x 0 cursor result stop ∙ ground (arith, nz),
        record {
          chain = chain;
          frame = λ a f g o. before a o;
          same = same;
          depth = λ a o. (write_cursor-Steady owner 0 0 w cursor x result).depth a o ∙ z.depth a o;
          pairs = tt;
          reps = λ n f. reps n;
        },
      )

  -- The state after a heap is placed at the cursor.
  pub placed-Zippable :
      (w v : World) (h1 h2 x : ℕ) (xs ys : List ℕ) (cursor : Option ℕ) (result : ℕ)
      → Steady owner h1 h2 w v
      → ((a : ℕ) → ancestors v a ≡ ancestors w a)
      → IsPath w xs
      → IsPath w ys
      → Distinct xs
      → Distinct ys
      → All (λ z. Fresh z ys) xs
      → All (λ z. (z ≢ h1) × (z ≢ h2)) xs
      → All (λ z. (z ≢ h1) × (z ≢ h2)) ys
      → All (HasSubs loops owner w) xs
      → All (HasSubs loops owner w) ys
      → ((a : ℕ) → owner a ≡ a → (w.heaps a).depth ≡ d a)
      → ((a : ℕ) → (w.heaps a).uf_node ≡ uf a)
      → Distinct (map uf ys)
      → NotIn cursor xs
      → NotIn cursor ys
      → Fresh x xs
      → Fresh x ys
      → (xs ≡ [] → ys ≡ [] → ancestors (write_cursor v cursor x result).0 x ≡ 0)
      → Zippable loops owner d uf
          (write_cursor v cursor x result).0
          xs
          ys
          (some x)
          (write_cursor v cursor x result).1
  placed-Zippable w v h1 h2 x xs ys cursor result s anc p1 p2 d1 d2 ap12 o1 o2 s1 s2 dep node nodes
        n1 n2 f1 f2 ended =
      let u = (write_cursor v cursor x result).0 in
      let t = write_cursor-Steady owner h1 h2 v cursor x result in
      let st = Steady-trans owner h1 h2 w v u s t in
      let moved = λ (zs : List ℕ) (n : NotIn cursor zs) (p : IsPath w zs).
        path-write v cursor x result (head_of zs) zs n
          (Chain-same (ancestors w) (ancestors v) (head_of zs) zs anc p) in
      record {
        path1 = moved xs n1 p1;
        path2 = moved ys n2 p2;
        distinct1 = d1;
        distinct2 = d2;
        apart = ap12;
        subs1 = Steady-All loops owner h1 h2 w u st xs o1 s1;
        subs2 = Steady-All loops owner h1 h2 w u st ys o2 s2;
        depth = λ a o. st.depth a o ∙ dep a o;
        node = λ a. st.uf a ∙ node a;
        nodes = nodes;
        at1 = f1;
        at2 = f2;
        ended = ended;
      }

  -- The heaps at the heads are at the same depth.
  pub Zips-both :
      (fuel : ℕ) (w : World) (x : ℕ) (xs : List ℕ) (y : ℕ) (ys : List ℕ) (cursor : Option ℕ)
      (result : ℕ)
      → Zippable loops owner d uf w (x ∷ xs) (y ∷ ys) cursor result
      → (d x == d y) ≡ true
      → ((u : World) (r : ℕ)
          → Zippable loops owner d uf u xs ys (some x) r
          → Zips fuel u xs ys (some x) r)
      → Zips (suc fuel) w (x ∷ xs) (y ∷ ys) cursor result
  unfolding merged matched
  Zips-both fuel w x xs y ys cursor result z same ih =
      let ne : x ≢ y = z.apart.0.0 in
      let (v0, level, steady, anc, reps) = zip_level-lem loops owner w x y ne z.subs1.0 z.subs2.0 in
      let u = write_cursor v0 cursor x result in
      let (e1, tail1) = IsPath-tail w x xs z.path1 in
      let (e2, tail2) = IsPath-tail w y ys z.path2 in
      let not_x = NotIn-IsNot cursor x xs z.at1 in
      let n1 = NotIn-rest cursor x xs z.at1 in
      let n2 = NotIn-rest cursor y ys z.at2 in
      let next : ancestors u.0 x ≡ head_of xs =
        write_cursor-ancestors v0 cursor x result x not_x ∙ anc x ∙ e1 in
      let others1 =
        All-both (λ a. a ≢ x) (λ a. a ≢ y) xs (Fresh-All x xs z.distinct1.0)
          (All-map (λ a. Fresh a (y ∷ ys)) (λ a. a ≢ y) xs (λ a f. f.0) z.apart.1) in
      let others2 =
        All-both (λ a. a ≢ x) (λ a. a ≢ y) ys (Fresh-All x ys z.apart.0.1)
          (Fresh-All y ys z.distinct2.0) in
      let (v, found, run, m) = ih u.0 u.1 (
        placed-Zippable w v0 x y x xs ys cursor result steady anc tail1 tail2 z.distinct1.1
          z.distinct2.1
          (All-map (λ a. Fresh a (y ∷ ys)) (λ a. Fresh a ys) xs (λ a f. f.1) z.apart.1) others1
          others2 z.subs1.1 z.subs2.1 z.depth z.node z.nodes.1 n1 n2 z.distinct1.0 z.apart.0.1
          (λ a _. next ∙ head_of-nil xs a)) in
      let start = write_cursor-start v0 cursor x result in
      let placed =
        Merges-placed owner d uf w u.0 v x u.1 found xs ys cursor result z.path1.1 n1 n2 not_x
          start.0 start.1 (λ a o. write_cursor-ancestors v0 cursor x result a o ∙ anc a) m in
      let depths : ((w.heaps x).depth == (w.heaps y).depth) ≡ true =
        ap₂ (λ a b. a == b) (z.depth x z.subs1.0.2.head) (z.depth y z.subs2.0.2.head) ∙ same in
      let memory = λ (n : ℕ).
        ap (λ s. (s.store.nodes n).representative) (write_cursor-nodes v0 cursor x result)
        ∙ reps n in
      let united : representatives v (uf y) ≡ uf x =
        m.reps (uf y) z.nodes.0 ∙ memory (uf y) ∙ ground (arith, z.node x, z.node y) in
      (
        v,
        found,
        zip_from-both loops fuel w x y cursor result z.path1.1 z.path2.1 v0 depths level
            ∙ ap₂ (λ a b. zip_from loops fuel u.0 a b (some x) u.1) next e2
            ∙ run,
        record {
          chain = rw same placed.0;
          frame = λ a f g o. placed.1 a (λ e. f.0 (sym e)) f.1 g.1 o;
          same = placed.2;
          depth = m.depth;
          pairs = rw same (united, m.pairs);
          reps = λ n f. m.reps n f.1 ∙ memory n ∙ ground (arith, z.node y, f.0);
        },
      )

  -- The first path's head is deeper.
  pub Zips-first :
      (fuel : ℕ) (w : World) (x : ℕ) (xs : List ℕ) (y : ℕ) (ys : List ℕ) (cursor : Option ℕ)
      (result : ℕ)
      → Zippable loops owner d uf w (x ∷ xs) (y ∷ ys) cursor result
      → (d x == d y) ≡ false
      → ltb (d y) (d x) ≡ true
      → ((u : World) (r : ℕ)
          → Zippable loops owner d uf u xs (y ∷ ys) (some x) r
          → Zips fuel u xs (y ∷ ys) (some x) r)
      → Zips (suc fuel) w (x ∷ xs) (y ∷ ys) cursor result
  unfolding merged matched
  Zips-first fuel w x xs y ys cursor result z same less ih =
      let u = write_cursor w cursor x result in
      let (e1, tail1) = IsPath-tail w x xs z.path1 in
      let not_x = NotIn-IsNot cursor x xs z.at1 in
      let n1 = NotIn-rest cursor x xs z.at1 in
      let next : ancestors u.0 x ≡ head_of xs =
        write_cursor-ancestors w cursor x result x not_x ∙ e1 in
      let fresh1 = Fresh-All x xs z.distinct1.0 in
      let fresh2 = Fresh-All x (y ∷ ys) z.apart.0 in
      let (v, found, run, m) = ih u.0 u.1 (
        placed-Zippable w w x x x xs (y ∷ ys) cursor result (Steady-refl owner x x w) (λ a. refl)
          tail1 z.path2 z.distinct1.1 z.distinct2 z.apart.1
          (All-both (λ a. a ≢ x) (λ a. a ≢ x) xs fresh1 fresh1)
          (All-both (λ a. a ≢ x) (λ a. a ≢ x) (y ∷ ys) fresh2 fresh2) z.subs1.1 z.subs2 z.depth
          z.node z.nodes n1 z.at2 z.distinct1.0 z.apart.0 (λ a _. next ∙ head_of-nil xs a)) in
      let start = write_cursor-start w cursor x result in
      let placed =
        Merges-placed owner d uf w u.0 v x u.1 found xs (y ∷ ys) cursor result z.path1.1 n1 z.at2
          not_x start.0 start.1 (write_cursor-ancestors w cursor x result) m in
      let at_x = z.depth x z.subs1.0.2.head in
      let at_y = z.depth y z.subs2.0.2.head in
      (
        v,
        found,
        zip_from-first loops fuel w x y cursor result z.path1.1 z.path2.1
              (ap₂ (λ a b. a == b) at_x at_y ∙ same) (ap₂ ltb at_y at_x ∙ less)
            ∙ ap (λ a. zip_from loops fuel u.0 a y (some x) u.1) next
            ∙ run,
        record {
          chain = rw (same, less) placed.0;
          frame = λ a f g o. placed.1 a (λ e. f.0 (sym e)) f.1 g o;
          same = placed.2;
          depth = m.depth;
          pairs = rw (same, less) m.pairs;
          reps = λ n f.
              m.reps n f
              ∙ ap (λ s. (s.store.nodes n).representative) (write_cursor-nodes w cursor x result);
        },
      )
