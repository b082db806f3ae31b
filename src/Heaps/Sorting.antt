-- ===== src/Heaps/Sorting.antt =====
-- The first loop of `mergeCompletedCCs` of runtime/gc/hierarchical-heap.c.
use mpl.Base.{
  ℕ, zero, suc, ◌+◌, ◌≤◌, ◌≡◌, ◌≢◌, refl, sym, ap, fun_ext, ◌∙◌, subst, inl, inr, Bool, true, false,
  Bool-cases, Option, some, List, [], ◌∷◌, ◌==◌, if◌then◌else◌, All, length, arith,
}
use mpl.Base.Chain.{
  update, update_at, update_apart, update-field, Fresh, Distinct, Chain, Chain-frame,
}
use mpl.Heaps.{World, is_done}
use mpl.Heaps.Links.{Link, for_cc, completed_cc, next_cc, with_next_cc, set_next_cc}
use mpl.Heaps.Kept.{links, links-set_next_cc, completed-set_for, for-set_completed}
use mpl.Heaps.Completed.{complete_sub, sort_subs}

module _ (st : ℕ → Bool) where
  -- The subheaps that are not done, and those that are, each put before the completed ones.
  unfoldable pub pending : List ℕ → List ℕ
  pending [] = []
  pending (c ∷ cs) = let rest = pending cs in if st c then rest else c ∷ rest

  unfoldable pub finished : List ℕ → List ℕ → List ℕ
  finished [] ds = ds
  finished (c ∷ cs) ds = finished cs (if st c then c ∷ ds else ds)

  unfoldable pub count_done : List ℕ → ℕ
  count_done [] = 0
  count_done (c ∷ cs) = (if st c then 1 else 0) + count_done cs

-- Whether the collection of a heap is done.
abbrev pub states : World → ℕ → Bool
states w a = is_done (w.heaps a).cc_state

states-set_next_cc :
    (l : Link) (w : World) (c v a : ℕ) → states (set_next_cc l w c v) a ≡ states w a
unfolding with_next_cc
states-set_next_cc for_cc w c v a = update-field (λ h. is_done h.cc_state) w.heaps c a _ refl
states-set_next_cc completed_cc w c v a = update-field (λ h. is_done h.cc_state) w.heaps c a _ refl

complete_sub-links :
    (w : World) (hh cursor c : ℕ)
    → let f = links for_cc w in
      let g = links completed_cc w in
      let v = complete_sub w hh cursor c in
      (links for_cc v ≡ update (update f cursor (f c)) c 0)
      × (links completed_cc v ≡ update (update g c (g hh)) hh c)
      × ((a : ℕ) → states v a ≡ states w a)
unfolding complete_sub next_cc
complete_sub-links w hh cursor c =
    let f = links for_cc w in
    let g = links completed_cc w in
    let t1 = set_next_cc for_cc w cursor (f c) in
    let t2 = set_next_cc for_cc t1 c 0 in
    let t3 = set_next_cc completed_cc t2 c (links completed_cc t2 hh) in
    let g2 : links completed_cc t2 ≡ g =
      fun_ext (completed-set_for t1 c 0) ∙ fun_ext (completed-set_for w cursor (f c)) in
    (
      fun_ext (for-set_completed t3 hh c)
          ∙ fun_ext (for-set_completed t2 c (links completed_cc t2 hh))
          ∙ fun_ext (links-set_next_cc for_cc t1 c 0)
          ∙ ap (λ x. update x c 0) (fun_ext (links-set_next_cc for_cc w cursor (f c))),
      fun_ext (links-set_next_cc completed_cc t3 hh c)
          ∙ ap (λ x. update x hh c)
              (fun_ext (links-set_next_cc completed_cc t2 c (links completed_cc t2 hh))
                ∙ ap (λ x. update x c (x hh)) g2),
      λ a.
          states-set_next_cc completed_cc t3 hh c a
          ∙ states-set_next_cc completed_cc t2 c (links completed_cc t2 hh) a
          ∙ states-set_next_cc for_cc t1 c 0 a
          ∙ states-set_next_cc for_cc w cursor (f c) a,
    )

Fresh-front :
    (x : ℕ) (xs ds : List ℕ)
    → Fresh x xs
    → All (λ a. Fresh a ds) xs
    → All (λ a. Fresh a (x ∷ ds)) xs
Fresh-front x [] ds f a = tt
Fresh-front x (y ∷ ys) ds f a = (((λ e. f.0 (sym e)), a.0), Fresh-front x ys ds f.1 a.1)

counts :
    (w : World) {a b c d : ℕ}
    → a ≡ b
    → c ≡ d
    → ◌≡◌ {A = Option (World × ℕ × ℕ)} (some (w, a, c)) (some (w, b, d))
counts w x y = λ i. some (w, x i, y i)

module _ (hh : ℕ) (st : ℕ → Bool) where
  -- The state of the loop: the chain behind the cursor and the completed chain.
  record Sorting (w : World) (cursor : ℕ) (cs ds : List ℕ) : Type 0 where
    for : Chain (links for_cc w) (links for_cc w cursor) cs
    completed : Chain (links completed_cc w) (links completed_cc w hh) ds
    distinct : Distinct cs
    at_cursor : Fresh cursor cs
    at_heap : Fresh hh cs
    at_done : Fresh hh ds
    apart : All (λ a. Fresh a ds) cs
    state : (a : ℕ) → states w a ≡ st a

  record Sorted (w v : World) (cursor : ℕ) (cs ds : List ℕ) : Type 0 where
    for : Chain (links for_cc v) (links for_cc v cursor) (pending st cs)
    completed : Chain (links completed_cc v) (links completed_cc v hh) (finished st cs ds)
    kept_for : (a : ℕ) → Fresh a cs → a ≢ cursor → links for_cc v a ≡ links for_cc w a

  Sorting-next :
      (w : World) (cursor c : ℕ) (cs ds : List ℕ)
      → Sorting w cursor (c ∷ cs) ds
      → Sorting (complete_sub w hh cursor c) cursor cs (c ∷ ds)
  Sorting-next w cursor c cs ds s =
      let f = links for_cc w in
      let g = links completed_cc w in
      let (ef, eg, es) = complete_sub-links w hh cursor c in
      let f1 = update f cursor (f c) in
      let f2 = update f1 c 0 in
      let g1 = update g c (g hh) in
      let g2 = update g1 hh c in
      let here = s.for.0 in
      let to_c : f2 cursor ≡ f c =
        update_apart f1 c cursor 0 (λ e. s.at_cursor.0 (sym e))
        ∙ update_at f cursor cursor (f c) refl in
      let chain =
        Chain-frame f1 (f c) cs c 0 (Chain-frame f (f c) cs cursor (f c) s.for.2 s.at_cursor.1)
          s.distinct.0 in
      let back =
        Chain-frame g1 (g hh) ds hh c (Chain-frame g (g hh) ds c (g hh) s.completed s.apart.0)
          s.at_done in
      let g_hh : g2 hh ≡ c = update_at g1 hh hh c refl in
      let g_c : g2 c ≡ g hh = update_apart g1 hh c c s.at_heap.0 ∙ update_at g c c (g hh) refl in
      record {
        for =
            subst (λ x. Chain x (x cursor) cs) (sym ef)
              (subst (λ p. Chain f2 p cs) (sym to_c) chain);
        completed =
            subst (λ x. Chain x (x hh) (c ∷ ds)) (sym eg)
              (g_hh, s.for.1, subst (λ p. Chain g2 p ds) (sym g_c) back);
        distinct = s.distinct.1;
        at_cursor = s.at_cursor.1;
        at_heap = s.at_heap.1;
        at_done = (s.at_heap.0, s.at_done);
        apart = Fresh-front c cs ds s.distinct.0 s.apart.1;
        state = λ a. es a ∙ s.state a;
      }

  sort_subs-lem :
      (fuel : ℕ) (w : World) (cursor m p : ℕ) (cs ds : List ℕ)
      → length cs ≤ fuel
      → Sorting w cursor cs ds
      → (v : World) × (sort_subs fuel w hh cursor m p
          ≡ some (v, m + count_done st cs, p + length (pending st cs)))
        × Sorted w v cursor cs ds
  unfolding sort_subs pending finished count_done next_cc
  sort_subs-lem zero w cursor m p [] ds h s =
      let end : (w.heaps cursor).sub_heap_for_cc ≡ 0 = s.for in
      (
        w,
        rw end (counts w (omega arith) (omega arith)),
        record { for = s.for; completed = s.completed; kept_for = λ a f n. refl },
      )
  sort_subs-lem (suc fuel) w cursor m p [] ds h s =
      let end : (w.heaps cursor).sub_heap_for_cc ≡ 0 = s.for in
      (
        w,
        rw end (counts w (omega arith) (omega arith)),
        record { for = s.for; completed = s.completed; kept_for = λ a f n. refl },
      )
  sort_subs-lem zero w cursor m p (c ∷ cs) ds h s = absurd (omega (arith, h))
  sort_subs-lem (suc fuel) w cursor m p (c ∷ cs) ds h s =
      let here : (w.heaps cursor).sub_heap_for_cc ≡ c = s.for.0 in
      let nz = s.for.1 in
      let cz : (c == 0) ≡ false = ground (arith, nz) in
      elim (Bool-cases (st c)) [
        | inl e ↦
            let (ef, _, _) = complete_sub-links w hh cursor c in
            let f = links for_cc w in
            let f1 = update f cursor (f c) in
            let finished_one : is_done (w.heaps c).cc_state ≡ true = s.state c ∙ e in
            let (v, run, r) =
              sort_subs-lem fuel (complete_sub w hh cursor c) cursor (m + 1) p cs (c ∷ ds)
                (omega (arith, h)) (Sorting-next w cursor c cs ds s) in
            (
              v,
              rw (here, cz, finished_one, e) (run ∙ counts v (omega arith) refl),
              record {
                for = rw e r.for;
                completed = rw e r.completed;
                kept_for = λ a o n.
                    r.kept_for a o.1 n
                    ∙ ap (λ x. x a) ef
                    ∙ update_apart f1 c a 0 (λ q. o.0 (sym q))
                    ∙ update_apart f cursor a (f c) (λ q. n (sym q));
              },
            )
        | inr e ↦
            let running : is_done (w.heaps c).cc_state ≡ false = s.state c ∙ e in
            let (v, run, r) = sort_subs-lem fuel w c m (p + 1) cs ds (omega (arith, h)) record {
              for = s.for.2;
              completed = s.completed;
              distinct = s.distinct.1;
              at_cursor = s.distinct.0;
              at_heap = s.at_heap.1;
              at_done = s.at_done;
              apart = s.apart.1;
              state = s.state;
            } in
            (
              v,
              rw (here, cz, running, e) (run ∙ counts v (omega arith) (omega arith)),
              record {
                for = rw e (r.kept_for cursor s.at_cursor.1 s.at_cursor.0 ∙ here, nz, r.for);
                completed = rw e r.completed;
                kept_for = λ a o n. r.kept_for a o.1 o.0;
              },
            )
      ]

-- With fuel for the chain of subheaps the loop ends: those whose collection is not done stay in their
-- order, those that are done are each put at the front of the completed chain, and both are counted.
pub sort_subs_lem :
    (fuel hh : ℕ) (w : World) (cs ds : List ℕ)
    → let st = states w in
      Chain (links for_cc w) (links for_cc w hh) cs
      → Chain (links completed_cc w) (links completed_cc w hh) ds
      → Distinct (hh ∷ cs)
      → Fresh hh ds
      → All (λ a. Fresh a ds) cs
      → length cs ≤ fuel
      → (v : World) × (sort_subs fuel w hh hh 0 0
          ≡ some (v, count_done st cs, length (pending st cs)))
        × Chain (links for_cc v) (links for_cc v hh) (pending st cs)
        × Chain (links completed_cc v) (links completed_cc v hh) (finished st cs ds)
sort_subs_lem fuel hh w cs ds c1 c2 d f a h =
    let (v, run, r) = sort_subs-lem hh (states w) fuel w hh 0 0 cs ds h record {
      for = c1;
      completed = c2;
      distinct = d.1;
      at_cursor = d.0;
      at_heap = d.0;
      at_done = f;
      apart = a;
      state = λ x. refl;
    } in
    (v, run ∙ counts v (omega arith) (omega arith), r.for, r.completed)
