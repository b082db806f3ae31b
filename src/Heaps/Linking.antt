-- ===== src/Heaps/Linking.antt =====
-- `linkCCChains` of runtime/gc/hierarchical-heap.c on the chains of two heaps.
use mpl.Base.{
  ℕ, ◌≤◌, ◌≡◌, ◌≢◌, refl, sym, ap, fun_ext, ◌∙◌, subst, inl, inr, Option, some, List, [], ◌∷◌, ◌++◌,
  append-nil, ◌==◌, if◌then◌else◌, ◌>>=◌, All, All-map, length, arith,
}
use mpl.Base.Chain.{update, update_at, update_apart, Chain, Chain-frame}
use mpl.Heaps.{World}
use mpl.Heaps.Links.{
  for_cc, completed_cc, next_cc, set_next_cc, set_depths_from, set_chain_depth, join_chain,
  take_chains, link_cc_chains,
}
use mpl.Heaps.Kept.{
  links, Below, Kept, Kept-refl, Kept-trans, set_next_cc-Kept, links-set_next_cc, completed-set_for,
  for-set_completed, depth-set_next_cc,
}
use mpl.Heaps.Subchains.{
  Subs, Fresh-Below, Fresh-head, Joined, Subs-same, set_depths_from-lem, join_chain-lem,
}

module _ (owner : ℕ → ℕ) (hh1 hh2 : ℕ) where
  join_both :
      (fuel : ℕ) (w : World) (cs1 ds1 : List ℕ) (c d : ℕ) (cs ds : List ℕ)
      → hh1 ≢ hh2
      → Subs owner w hh1 cs1 ds1
      → Subs owner w hh2 (c ∷ cs) (d ∷ ds)
      → length (c ∷ cs) ≤ fuel
      → length (d ∷ ds) ≤ fuel
      → (v : World) × ((join_chain for_cc fuel w hh1 hh2
            >>= (λ t. join_chain completed_cc fuel t hh1 hh2))
          ≡ some v)
        × Joined owner hh1 hh2 w v cs1 ds1 (c ∷ cs) (d ∷ ds)
  join_both fuel w cs1 ds1 c d cs ds ne s1 s2 h1 h2 =
      let (v, run, kept, chain, none_left, same, deep) =
        join_chain-lem owner hh1 hh2 for_cc fuel w cs1 c cs ne s1.head s2.head s1.for s2.for
          s2.distinct_for s1.below_for s2.below_for h1 in
      let apart : completed_cc ≢ for_cc = cc in
      let keep = λ (a : ℕ). same completed_cc a apart in
      let c1 = subst (λ f. Chain f (f hh1) ds1) (sym (fun_ext keep)) s1.completed in
      let c2 = subst (λ f. Chain f (f hh2) (d ∷ ds)) (sym (fun_ext keep)) s2.completed in
      let (u, run2, kept2, chain2, none_left2, same2, deep2) =
        join_chain-lem owner hh1 hh2 completed_cc fuel v ds1 d ds ne s1.head s2.head c1 c2
          s2.distinct_completed s1.below_completed s2.below_completed h2 in
      let apart2 : for_cc ≢ completed_cc = cc in
      let keep2 = λ (a : ℕ). same2 for_cc a apart2 in
      (
        u,
        rw run run2,
        record {
          kept = Kept-trans owner hh1 hh2 w v u kept kept2;
          for = subst (λ f. Chain f (f hh1) ((c ∷ cs) ++ cs1)) (sym (fun_ext keep2)) chain;
          completed = chain2;
          no_for = keep2 hh2 ∙ none_left;
          no_completed = none_left2;
          depths = λ a. deep2 a ∙ deep a;
        },
      )

  take_both :
      (w : World) (cs ds : List ℕ)
      → hh1 ≢ hh2
      → owner hh1 ≡ hh1
      → Subs owner w hh2 cs ds
      → Joined owner hh1 hh2 w (take_chains w hh1 hh2) [] [] cs ds
  unfolding take_chains
  take_both w cs ds ne o1 s =
      let t1 = set_next_cc for_cc w hh1 (next_cc for_cc (w.heaps hh2)) in
      let t2 = set_next_cc completed_cc t1 hh1 (next_cc completed_cc (t1.heaps hh2)) in
      let t3 = set_next_cc for_cc t2 hh2 0 in
      let t4 = set_next_cc completed_cc t3 hh2 0 in
      let far : owner hh1 ≢ hh2 = (λ e. ne (sym o1 ∙ e)) in
      let f = links for_cc w in
      let g = links completed_cc w in
      let g1 = links completed_cc t1 in
      let f4 : links for_cc t4 ≡ update (update f hh1 (f hh2)) hh2 0 =
        fun_ext (for-set_completed t3 hh2 0)
        ∙ fun_ext (links-set_next_cc for_cc t2 hh2 0)
        ∙ ap (λ x. update x hh2 0)
            (fun_ext (for-set_completed t1 hh1 (g1 hh2))
              ∙ fun_ext (links-set_next_cc for_cc w hh1 (f hh2))) in
      let g4 : links completed_cc t4 ≡ update (update g hh1 (g hh2)) hh2 0 =
        fun_ext (links-set_next_cc completed_cc t3 hh2 0)
        ∙ ap (λ x. update x hh2 0)
            (fun_ext (completed-set_for t2 hh2 0)
              ∙ fun_ext (links-set_next_cc completed_cc t1 hh1 (g1 hh2))
              ∙ ap (λ x. update x hh1 (x hh2)) (fun_ext (completed-set_for w hh1 (f hh2)))) in
      record {
        kept =
            Kept-trans owner hh1 hh2 w t1 t4
              (set_next_cc-Kept owner hh1 hh2 for_cc w hh1 (f hh2) (inl o1))
              (Kept-trans owner hh1 hh2 t1 t2 t4
                (set_next_cc-Kept owner hh1 hh2 completed_cc t1 hh1 (g1 hh2) (inl o1))
                (Kept-trans owner hh1 hh2 t2 t3 t4
                  (set_next_cc-Kept owner hh1 hh2 for_cc t2 hh2 0 (inr s.head))
                  (set_next_cc-Kept owner hh1 hh2 completed_cc t3 hh2 0 (inr s.head))));
        for = subst (λ x. Chain x (x hh1) (cs ++ [])) (sym f4) (moves f cs far s.for s.below_for);
        completed =
            subst (λ x. Chain x (x hh1) (ds ++ [])) (sym g4)
              (moves g ds far s.completed s.below_completed);
        no_for = ap (λ x. x hh2) f4 ∙ update_at (update f hh1 (f hh2)) hh2 hh2 0 refl;
        no_completed = ap (λ x. x hh2) g4 ∙ update_at (update g hh1 (g hh2)) hh2 hh2 0 refl;
        depths = λ a.
            depth-set_next_cc completed_cc t3 hh2 0 a
            ∙ depth-set_next_cc for_cc t2 hh2 0 a
            ∙ depth-set_next_cc completed_cc t1 hh1 (g1 hh2) a
            ∙ depth-set_next_cc for_cc w hh1 (f hh2) a;
      }
    where
      moves :
          (h : ℕ → ℕ) (xs : List ℕ)
          → owner hh1 ≢ hh2
          → Chain h (h hh2) xs
          → All (Below owner hh2) xs
          → Chain
              (update (update h hh1 (h hh2)) hh2 0)
              (update (update h hh1 (h hh2)) hh2 0 hh1)
              (xs ++ [])
      moves h xs far c b =
          let start : update (update h hh1 (h hh2)) hh2 0 hh1 ≡ h hh2 =
            update_apart (update h hh1 (h hh2)) hh2 hh1 0 (λ e. ne (sym e))
            ∙ update_at h hh1 hh1 (h hh2) refl in
          subst (λ p. Chain (update (update h hh1 (h hh2)) hh2 0) p (xs ++ [])) (sym start)
            (subst (λ l. Chain (update (update h hh1 (h hh2)) hh2 0) (h hh2) l)
              (sym (append-nil xs))
              (Chain-frame (update h hh1 (h hh2)) (h hh2) xs hh2 0
                (Chain-frame h (h hh2) xs hh1 (h hh2) c (Fresh-Below owner hh1 hh2 xs far b))
                (Fresh-head owner hh2 xs b)))

  -- The part after the depths are set.
  abbrev linked : (fuel : ℕ) → World → Option World
  linked fuel u =
      if (u.heaps hh1).sub_heap_for_cc == 0
      then some (take_chains u hh1 hh2)
      else if (u.heaps hh2).sub_heap_for_cc == 0
      then some u
      else join_chain for_cc fuel u hh1 hh2 >>= (λ t. join_chain completed_cc fuel t hh1 hh2)

  linked_lem :
      (fuel : ℕ) (u : World) (cs1 ds1 cs2 ds2 : List ℕ)
      → hh1 ≢ hh2
      → Subs owner u hh1 cs1 ds1
      → Subs owner u hh2 cs2 ds2
      → length cs2 ≤ fuel
      → length ds2 ≤ fuel
      → (v : World) × (linked fuel u ≡ some v) × Joined owner hh1 hh2 u v cs1 ds1 cs2 ds2
  unfolding next_cc
  linked_lem fuel u [] (d ∷ ds) cs2 ds2 ne s1 s2 h1 h2 = absurd (cc (s1.empty_for refl))
  linked_lem fuel u [] [] cs2 ds2 ne s1 s2 h1 h2 =
      let none_here : (u.heaps hh1).sub_heap_for_cc ≡ 0 = s1.for in
      (take_chains u hh1 hh2, rw none_here refl, take_both u cs2 ds2 ne s1.head s2)
  linked_lem fuel u (c ∷ cs) ds1 [] (d ∷ ds) ne s1 s2 h1 h2 = absurd (cc (s2.empty_for refl))
  linked_lem fuel u (c ∷ cs) ds1 [] [] ne s1 s2 h1 h2 =
      let none_there : (u.heaps hh2).sub_heap_for_cc ≡ 0 = s2.for in
      let some_here : (u.heaps hh1).sub_heap_for_cc ≢ 0 = (λ e. s1.for.1 (sym s1.for.0 ∙ e)) in
      (
        u,
        ground (arith, none_there, some_here),
        record {
          kept = Kept-refl owner hh1 hh2 u;
          for = s1.for;
          completed = s1.completed;
          no_for = none_there;
          no_completed = s2.completed;
          depths = λ a. refl;
        },
      )
  linked_lem fuel u (c ∷ cs) ds1 (c2 ∷ cs2) [] ne s1 s2 h1 h2 =
      absurd (cc (s2.empty_completed refl))
  linked_lem fuel u (c ∷ cs) ds1 (c2 ∷ cs2) (d2 ∷ ds2) ne s1 s2 h1 h2 =
      let some_here : (u.heaps hh1).sub_heap_for_cc ≢ 0 = (λ e. s1.for.1 (sym s1.for.0 ∙ e)) in
      let some_there : (u.heaps hh2).sub_heap_for_cc ≢ 0 = (λ e. s2.for.1 (sym s2.for.0 ∙ e)) in
      let (v, run, joined) = join_both fuel u (c ∷ cs) ds1 c2 d2 cs2 ds2 ne s1 s2 h1 h2 in
      (v, ground (arith, some_here, some_there, run), joined)

-- With fuel for the chains of the second heap its chains are put before those of the first, their
-- subheaps get the depth of the first, and the second heap has none left. Only the
-- depths of subheaps of the second heap and the links in the chains of the two heaps change, and no
-- other field of a heap, no chunk, list or node, and no record of freed stacks.
pub link_cc_chains_lem :
    (owner : ℕ → ℕ) (hh1 hh2 fuel : ℕ) (w : World) (cs1 ds1 cs2 ds2 : List ℕ)
    → hh1 ≢ hh2
    → Subs owner w hh1 cs1 ds1
    → Subs owner w hh2 cs2 ds2
    → length cs2 ≤ fuel
    → length ds2 ≤ fuel
    → (v : World) × (link_cc_chains fuel w hh1 hh2 ≡ some v)
      × Kept owner hh1 hh2 w v
      × Chain (links for_cc v) (links for_cc v hh1) (cs2 ++ cs1)
      × Chain (links completed_cc v) (links completed_cc v hh1) (ds2 ++ ds1)
      × (links for_cc v hh2 ≡ 0)
      × (links completed_cc v hh2 ≡ 0)
      × All (λ c. (v.heaps c).depth ≡ (w.heaps hh1).depth) cs2
      × All (λ c. (v.heaps c).depth ≡ (w.heaps hh1).depth) ds2
unfolding link_cc_chains set_chain_depth
link_cc_chains_lem owner hh1 hh2 fuel w cs1 ds1 cs2 ds2 ne s1 s2 h1 h2 =
    let d = (w.heaps hh1).depth in
    let (t, run1, kept1, same1, stay1, deep1) =
      set_depths_from-lem owner hh1 hh2 for_cc fuel w (links for_cc w hh2) d cs2 s2.for h1
        s2.below_for in
    let s2t = Subs-same owner hh1 hh2 w t hh2 cs2 ds2 same1 s2 in
    let (u, run2, kept2, same2, stay2, deep2) =
      set_depths_from-lem owner hh1 hh2 completed_cc fuel t (links completed_cc t hh2) d ds2
        s2t.completed h2 s2t.below_completed in
    let at : (t.heaps hh1).depth ≡ d = stay1 hh1 refl in
    let s1u =
      Subs-same owner hh1 hh2 t u hh1 cs1 ds1 same2
        (Subs-same owner hh1 hh2 w t hh1 cs1 ds1 same1 s1) in
    let s2u = Subs-same owner hh1 hh2 t u hh2 cs2 ds2 same2 s2t in
    let (v, run3, joined) = linked_lem owner hh1 hh2 fuel u cs1 ds1 cs2 ds2 ne s1u s2u h1 h2 in
    let run2' =
      ap (λ x. set_depths_from completed_cc fuel t (links completed_cc t hh2) x) at ∙ run2 in
    (
      v,
      rw (run1, run2') run3,
      Kept-trans owner hh1 hh2 w t v kept1 (Kept-trans owner hh1 hh2 t u v kept2 joined.kept),
      joined.for,
      joined.completed,
      joined.no_for,
      joined.no_completed,
      All-map (λ c. (t.heaps c).depth ≡ d) (λ c. (v.heaps c).depth ≡ d) cs2
          (λ c e. joined.depths c ∙ stay2 c e) deep1,
      All-map (λ c. (u.heaps c).depth ≡ d) (λ c. (v.heaps c).depth ≡ d) ds2
          (λ c e. joined.depths c ∙ e) deep2,
    )
