-- ===== src/Heaps/Subchains.antt =====
-- The two chains of subheaps of a heap, and the loops of `linkCCChains` of
-- runtime/gc/hierarchical-heap.c on one of them.
use mpl.Base.{
  ℕ, zero, suc, ◌≤◌, ◌≡◌, ◌≢◌, refl, sym, ap, fun_ext, ◌∙◌, subst, inl, inr, some, List, [], ◌∷◌,
  ◌++◌, All, length, arith,
}
use mpl.Base.Chain.{
  update, update_at, update_apart, Fresh, Distinct, Chain, Chain-same, Chain-frame, Chain-join,
  last_of,
}
use mpl.Heaps.{World, set_depth}
use mpl.Heaps.Links.{
  Link, for_cc, completed_cc, next_cc, set_next_cc, set_depths_from, chain_end, join_chain,
}
use mpl.Heaps.Kept.{
  links, Below, Kept, Kept-refl, Kept-trans, set_depth-Kept, set_next_cc-Kept, links-set_next_cc,
  completed-set_for, for-set_completed, links-set_depth, depth-set_next_cc,
}

-- The two chains of a heap, of distinct subheaps that are in no chain of another heap; one is empty
-- only if the other is.
pub record Subs (owner : ℕ → ℕ) (w : World) (hh : ℕ) (cs ds : List ℕ) : Type 0 where
  pub head : owner hh ≡ hh
  pub for : Chain (links for_cc w) (links for_cc w hh) cs
  pub completed : Chain (links completed_cc w) (links completed_cc w hh) ds
  pub distinct_for : Distinct cs
  pub distinct_completed : Distinct ds
  pub below_for : All (Below owner hh) cs
  pub below_completed : All (Below owner hh) ds
  pub empty_for : cs ≡ [] → ds ≡ []
  pub empty_completed : ds ≡ [] → cs ≡ []

pub Fresh-Below :
    (owner : ℕ → ℕ) (x hh : ℕ) (cs : List ℕ) → owner x ≢ hh → All (Below owner hh) cs → Fresh x cs
Fresh-Below owner x hh [] ne b = tt
Fresh-Below owner x hh (c ∷ cs) ne b =
    (λ e. ne (ap owner e ∙ b.0.0), Fresh-Below owner x hh cs ne b.1)

pub Fresh-head : (owner : ℕ → ℕ) (hh : ℕ) (cs : List ℕ) → All (Below owner hh) cs → Fresh hh cs
Fresh-head owner hh [] b = tt
Fresh-head owner hh (c ∷ cs) b = (λ e. b.0.1 (sym e), Fresh-head owner hh cs b.1)

pub Fresh-append : (x : ℕ) (xs ys : List ℕ) → Fresh x xs → Fresh x ys → Fresh x (xs ++ ys)
Fresh-append x [] ys f g = g
Fresh-append x (y ∷ xs) ys f g = (f.0, Fresh-append x xs ys f.1 g)

pub All-last_of : (P : ℕ → Type 0) (x : ℕ) (xs : List ℕ) → All P (x ∷ xs) → P (last_of x xs)
All-last_of P x [] a = a.0
All-last_of P x (y ∷ ys) a = All-last_of P y ys a.1

pub links-other :
    (l k : Link) (w : World) (c v a : ℕ) → k ≢ l → links k (set_next_cc l w c v) a ≡ links k w a
links-other for_cc for_cc w c v a ne = absurd (ne refl)
links-other for_cc completed_cc w c v a ne = completed-set_for w c v a
links-other completed_cc for_cc w c v a ne = for-set_completed w c v a
links-other completed_cc completed_cc w c v a ne = absurd (ne refl)

pub chain_end-lem :
    (l : Link) (fuel : ℕ) (w : World) (p x : ℕ) (xs : List ℕ)
    → Chain (links l w) p (x ∷ xs)
    → length (x ∷ xs) ≤ fuel
    → chain_end l fuel w p ≡ some (last_of x xs)
unfolding chain_end
chain_end-lem l zero w p x xs c h = absurd (omega (arith, h))
chain_end-lem l (suc fuel) w p x [] c h =
    let here = c.0 in
    let end : next_cc l (w.heaps p) ≡ 0 = ap (links l w) here ∙ c.2 in rw end (ap some here)
chain_end-lem l (suc fuel) w p x (y ∷ ys) c h =
    let to_next = ap (links l w) c.0 in
    let nz : next_cc l (w.heaps p) ≢ 0 = (λ e. c.2.1 (sym c.2.0 ∙ sym to_next ∙ e)) in
    let rest =
      chain_end-lem l fuel w (next_cc l (w.heaps p)) y ys
        (subst (λ q. Chain (links l w) q (y ∷ ys)) (sym to_next) c.2) (omega (arith, h)) in
    ground (arith, nz, rest)

module _ (owner : ℕ → ℕ) (hh1 hh2 : ℕ) where
  -- The loops that set the depths end, and set no other depth.
  pub set_depths_from-lem :
      (l : Link) (fuel : ℕ) (w : World) (p d : ℕ) (cs : List ℕ)
      → Chain (links l w) p cs
      → length cs ≤ fuel
      → All (Below owner hh2) cs
      → (v : World) × (set_depths_from l fuel w p d ≡ some v)
        × Kept owner hh1 hh2 w v
        × ((k : Link) (a : ℕ) → links k v a ≡ links k w a)
        × ((a : ℕ) → (w.heaps a).depth ≡ d → (v.heaps a).depth ≡ d)
        × All (λ c. (v.heaps c).depth ≡ d) cs
  unfolding set_depths_from
  set_depths_from-lem l zero w p d [] c h b =
      (w, ground (arith, c), Kept-refl owner hh1 hh2 w, λ k a. refl, λ a e. e, tt)
  set_depths_from-lem l (suc fuel) w p d [] c h b =
      (w, ground (arith, c), Kept-refl owner hh1 hh2 w, λ k a. refl, λ a e. e, tt)
  set_depths_from-lem l zero w p d (x ∷ xs) c h b = absurd (omega (arith, h))
  set_depths_from-lem l (suc fuel) w p d (x ∷ xs) c h b =
      let u = set_depth w p d in
      let same = λ (a : ℕ). links-set_depth l w p d a in
      let to_next : links l u p ≡ links l w x = same p ∙ ap (links l w) c.0 in
      let (v, run, kept, same_links, stays, deep) =
        set_depths_from-lem l fuel u (links l u p) d xs
          (subst (λ q. Chain (links l u) q xs) (sym to_next)
            (Chain-same (links l w) (links l u) (links l w x) xs same c.2))
          (omega (arith, h)) b.1 in
      let here = c.0 in
      let nz = c.1 in
      let at : (u.heaps x).depth ≡ d = ap (λ k. k.depth) (update_at w.heaps p x _ (sym here)) in
      (
        v,
        ground (arith, here, nz, run),
        Kept-trans owner hh1 hh2 w u v
            (set_depth-Kept owner hh1 hh2 w p d (subst (Below owner hh2) (sym here) b.0)) kept,
        λ k a. same_links k a ∙ links-set_depth k w p d a,
        λ a e. stays a (ground (arith, e)),
        (stays x at, deep),
      )

  -- One chain is put before the other.
  pub join_chain-lem :
      (l : Link) (fuel : ℕ) (w : World) (cs : List ℕ) (x : ℕ) (xs : List ℕ)
      → hh1 ≢ hh2
      → owner hh1 ≡ hh1
      → owner hh2 ≡ hh2
      → Chain (links l w) (links l w hh1) cs
      → Chain (links l w) (links l w hh2) (x ∷ xs)
      → Distinct (x ∷ xs)
      → All (Below owner hh1) cs
      → All (Below owner hh2) (x ∷ xs)
      → length (x ∷ xs) ≤ fuel
      → (v : World) × (join_chain l fuel w hh1 hh2 ≡ some v)
        × Kept owner hh1 hh2 w v
        × Chain (links l v) (links l v hh1) ((x ∷ xs) ++ cs)
        × (links l v hh2 ≡ 0)
        × ((k : Link) (a : ℕ) → k ≢ l → links k v a ≡ links k w a)
        × ((a : ℕ) → (v.heaps a).depth ≡ (w.heaps a).depth)
  unfolding join_chain
  join_chain-lem l fuel w cs x xs ne o1 o2 c1 c2 d b1 b2 h =
      let end = last_of x xs in
      let q = links l w hh1 in
      let t1 = set_next_cc l w end q in
      let t2 = set_next_cc l t1 hh1 (next_cc l (t1.heaps hh2)) in
      let t3 = set_next_cc l t2 hh2 0 in
      let last = All-last_of (Below owner hh2) x xs b2 in
      let g1 = update (links l w) end q in
      let e1 : links l t1 ≡ g1 = fun_ext (links-set_next_cc l w end q) in
      let g2 = update g1 hh1 (g1 hh2) in
      let e2 : links l t2 ≡ g2 =
        fun_ext (links-set_next_cc l t1 hh1 (next_cc l (t1.heaps hh2)))
        ∙ ap (λ f. update f hh1 (f hh2)) e1 in
      let g3 = update g2 hh2 0 in
      let e3 : links l t3 ≡ g3 =
        fun_ext (links-set_next_cc l t2 hh2 0) ∙ ap (λ f. update f hh2 0) e2 in
      let far1 : owner hh2 ≢ hh1 = (λ e. ne (sym e ∙ o2)) in
      let far2 : owner hh1 ≢ hh2 = (λ e. ne (sym o1 ∙ e)) in
      let far3 : owner end ≢ hh1 = (λ e. ne (sym e ∙ last.0)) in
      let joined =
        Chain-join (links l w) (links l w hh2) x xs q cs c2 d c1
          (Fresh-Below owner end hh1 cs far3 b1) in
      let all = (x ∷ xs) ++ cs in
      let fresh1 =
        Fresh-append hh1 (x ∷ xs) cs (Fresh-Below owner hh1 hh2 (x ∷ xs) far2 b2)
          (Fresh-head owner hh1 cs b1) in
      let fresh2 =
        Fresh-append hh2 (x ∷ xs) cs (Fresh-head owner hh2 (x ∷ xs) b2)
          (Fresh-Below owner hh2 hh1 cs far1 b1) in
      let chain3 =
        Chain-frame g2 (links l w hh2) all hh2 0
          (Chain-frame g1 (links l w hh2) all hh1 (g1 hh2) joined fresh1) fresh2 in
      let start : g3 hh1 ≡ links l w hh2 =
        update_apart g2 hh2 hh1 0 (λ e. ne (sym e))
        ∙ update_at g1 hh1 hh1 (g1 hh2) refl
        ∙ update_apart (links l w) end hh2 q last.1 in
      let kept =
        Kept-trans owner hh1 hh2 w t1 t3 (set_next_cc-Kept owner hh1 hh2 l w end q (inr last.0)) (
          Kept-trans owner hh1 hh2 t1 t2 t3
            (set_next_cc-Kept owner hh1 hh2 l t1 hh1 (next_cc l (t1.heaps hh2)) (inl o1))
            (set_next_cc-Kept owner hh1 hh2 l t2 hh2 0 (inr o2))) in
      (
        t3,
        rw (chain_end-lem l fuel w (links l w hh2) x xs c2 h) refl,
        kept,
        subst (λ f. Chain f (f hh1) all) (sym e3) (subst (λ p. Chain g3 p all) (sym start) chain3),
        ap (λ f. f hh2) e3 ∙ update_at g2 hh2 hh2 0 refl,
        λ k a o.
            links-other l k t2 hh2 0 a o
            ∙ links-other l k t1 hh1 (next_cc l (t1.heaps hh2)) a o
            ∙ links-other l k w end q a o,
        λ a.
            depth-set_next_cc l t2 hh2 0 a
            ∙ depth-set_next_cc l t1 hh1 (next_cc l (t1.heaps hh2)) a
            ∙ depth-set_next_cc l w end q a,
      )

  -- What `linkCCChains` leaves: the chains of the second heap before those of the first, whose depth
  -- their subheaps have, and no chains at the second.
  pub record Joined (w v : World) (cs1 ds1 cs2 ds2 : List ℕ) : Type 0 where
    pub kept : Kept owner hh1 hh2 w v
    pub for : Chain (links for_cc v) (links for_cc v hh1) (cs2 ++ cs1)
    pub completed : Chain (links completed_cc v) (links completed_cc v hh1) (ds2 ++ ds1)
    pub no_for : links for_cc v hh2 ≡ 0
    pub no_completed : links completed_cc v hh2 ≡ 0
    pub depths : (a : ℕ) → (v.heaps a).depth ≡ (w.heaps a).depth

  pub Subs-same :
      (w v : World) (hh : ℕ) (cs ds : List ℕ)
      → ((k : Link) (a : ℕ) → links k v a ≡ links k w a)
      → Subs owner w hh cs ds
      → Subs owner v hh cs ds
  Subs-same w v hh cs ds same s = record {
    head = s.head;
    for = subst (λ f. Chain f (f hh) cs) (sym (fun_ext (same for_cc))) s.for;
    completed = subst (λ f. Chain f (f hh) ds) (sym (fun_ext (same completed_cc))) s.completed;
    distinct_for = s.distinct_for;
    distinct_completed = s.distinct_completed;
    below_for = s.below_for;
    below_completed = s.below_completed;
    empty_for = s.empty_for;
    empty_completed = s.empty_completed;
  }
