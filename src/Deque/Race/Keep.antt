-- ===== src/Deque/Race/Keep.antt =====
-- No step leaves the states of View.antt.
use mpl.Base.{
  ℕ, ◌+◌, ◌^◌, ◌<◌, ◌≡◌, refl, ◌≢◌, ◌⊎◌, inl, inr, Bool, true, false, List, [], ◌∷◌, get_or, arith,
}
use mpl.Deque.Pack.{unpack-pack}
use mpl.Deque.{Deque, pack_tag_idx, pop_bot_look}
use mpl.Deque.Race.{
  Owner, entering, lowered, looked, owner_done, Thief, arriving, has_top, has_elem, thief_done,
  System, owner_step, thief_step, step, run, start,
}
use mpl.Deque.Race.View.{
  OwnerAt, ThiefAt, Inv, tops, decide_won, decide_lost, commit_won, commit_lost, enter, look_here,
  look_gone,
}

module _ (fail t i x : ℕ) (cells : List ℕ) (hi : i < 63) (ht : t + 1 < 2 ^ 58)
    (hx : get_or cells i 0 ≡ x) (hf : x ≢ fail) where
  -- The thief's view when the owner wins, and when the thief has won.
  ThiefAt-won :
      (th : Thief) (u w : ℕ)
      → ThiefAt fail t i x cells th u
      → u ≡ pack_tag_idx 64 t i
      → w ≡ pack_tag_idx 64 (t + 1) i
      → ThiefAt fail t i x cells th w
  ThiefAt-won arriving u w p e e' = inr e'
  ThiefAt-won (has_top a) u w p e e' = ground (arith, tops t i hi ht)
  ThiefAt-won (has_elem a y) u w p e e' = ground (arith, tops t i hi ht)
  ThiefAt-won (thief_done r) u w p e e' = ground (arith, tops t i hi ht)

  ThiefAt-lost :
      (th : Thief) (u w : ℕ)
      → ThiefAt fail t i x cells th u
      → u ≡ pack_tag_idx 64 t (i + 1)
      → w ≡ pack_tag_idx 64 (t + 1) (i + 1)
      → ThiefAt fail t i x cells th w
  ThiefAt-lost arriving u w p e e' = ground (arith, tops t i hi ht)
  ThiefAt-lost (has_top a) u w p e e' = ground (arith, tops t i hi ht)
  ThiefAt-lost (has_elem a y) u w p e e' = ground (arith, tops t i hi ht)
  ThiefAt-lost (thief_done r) u w p e e' = ground (arith, tops t i hi ht)

  -- The owner's view when the thief wins.
  OwnerAt-stolen :
      (o : Owner) (d : Deque)
      → OwnerAt fail t i x cells o d
      → d.top ≡ pack_tag_idx 64 t i
      → OwnerAt fail t i x cells o (record d { top = pack_tag_idx 64 t (i + 1) })
  OwnerAt-stolen entering d p e = (inr refl, p.1)
  OwnerAt-stolen (lowered b) d p e = (inr refl, p.1, p.2)
  OwnerAt-stolen (looked b l) d p e = ground (arith, tops t i hi ht)
  OwnerAt-stolen (owner_done r) d p e = ground (arith, tops t i hi ht)

  -- While the thief has not won the bottom tells whether the owner has begun.
  bot_cases :
      (o : Owner) (d : Deque)
      → OwnerAt fail t i x cells o d
      → ((d.top ≡ pack_tag_idx 64 t i) ⊎ (d.top ≡ pack_tag_idx 64 (t + 1) i))
      → (d.bot ≡ i) ⊎ ((d.bot ≡ i + 1) × (d.top ≡ pack_tag_idx 64 t i))
  bot_cases entering d p q = ground (arith, tops t i hi ht)
  bot_cases (lowered b) d p q = inl p.1
  bot_cases (looked b l) d p q = inl p.1
  bot_cases (owner_done r) d p q = ground (arith, tops t i hi ht)

  reset_bot :
      (o : Owner) (d : Deque)
      → OwnerAt fail t i x cells o d
      → d.top ≡ pack_tag_idx 64 (t + 1) i
      → d.bot ≡ i
  reset_bot o d p h = ground (
    arith,
    bot_cases o d p (inr h),
    unpack-pack t i (omega arith) (omega arith),
    unpack-pack (t + 1) i (omega arith) (omega arith),
  )

  looked_at :
      (b : ℕ) (d : Deque)
      → OwnerAt fail t i x cells (lowered b) d
      → d.cells ≡ cells
      → OwnerAt fail t i x cells (looked b (pop_bot_look d b)) d
  unfolding pop_bot_look
  looked_at b d p e = ground (arith, hx)

  owner_step-Inv :
      (o : Owner) (th : Thief) (d : Deque)
      → OwnerAt fail t i x cells o d
      → ThiefAt fail t i x cells th d.top
      → d.cells ≡ cells
      → Inv fail t i x cells (step fail true (record { deque = d; owner = o; thief = th }))
  unfolding step owner_step
  owner_step-Inv entering th d p q e =
      rw (enter fail t i x cells hi ht hx hf d p.1, owner_step)
        (record { owner_at = (p.0, refl, refl); thief_at = q; same_cells = e })
  owner_step-Inv (lowered b) th d p q e = record {
    owner_at = looked_at b d p e;
    thief_at = q;
    same_cells = e;
  }
  owner_step-Inv (looked b l) th d (inl (e, r), h, k, y) q c =
      rw (decide_won fail t i x cells hi ht hx hf b l d k y r e) (record {
        owner_at = inl (refl, refl, h);
        thief_at = ThiefAt-won th d.top _ q e refl;
        same_cells = c;
      })
  owner_step-Inv (looked b l) th d (inr (e, r), h, k, y) q c =
      rw (decide_lost fail t i x cells hi ht hx hf b l d k r e) (record {
        owner_at = inr (refl, refl, refl);
        thief_at = ThiefAt-lost th d.top _ q e refl;
        same_cells = c;
      })
  owner_step-Inv (owner_done r) th d p q e = record { owner_at = p; thief_at = q; same_cells = e }

  thief_step-Inv :
      (o : Owner) (th : Thief) (d : Deque)
      → OwnerAt fail t i x cells o d
      → ThiefAt fail t i x cells th d.top
      → d.cells ≡ cells
      → Inv fail t i x cells (step fail false (record { deque = d; owner = o; thief = th }))
  unfolding step thief_step
  thief_step-Inv o arriving d p q e = record {
    owner_at = p;
    thief_at = ground arith;
    same_cells = e;
  }
  thief_step-Inv o (has_top a) d p (inl (h, k)) e = elim (bot_cases o d p (inl h)) [
    | inl b ↦
        rw (look_gone fail t i x cells hi ht hx hf a d (inl k) b, thief_step)
          (record { owner_at = p; thief_at = inr (refl, inl h); same_cells = e })
    | inr (b, _) ↦
        rw (look_here fail t i x cells hi ht hx hf a d k e b, thief_step)
          (record { owner_at = p; thief_at = (inl h, k, refl); same_cells = e })
  ]
  thief_step-Inv o (has_top a) d p (inr (h, k)) e =
      rw (look_gone fail t i x cells hi ht hx hf a d k (reset_bot o d p h), thief_step)
        (record { owner_at = p; thief_at = inr (refl, inr h); same_cells = e })
  thief_step-Inv o (has_elem a y) d p (inl h, k, m) e =
      rw (commit_won fail t i x cells hi ht hx hf a y d k m h) (record {
        owner_at = OwnerAt-stolen o d p h;
        thief_at = inl (refl, inl refl);
        same_cells = e;
      })
  thief_step-Inv o (has_elem a y) d p (inr h, k, m) e =
      rw (commit_lost fail t i x cells hi ht hx hf a y d k h)
        (record { owner_at = p; thief_at = inr (refl, inr h); same_cells = e })
  thief_step-Inv o (thief_done r) d p q e = record { owner_at = p; thief_at = q; same_cells = e }

  pub run-Inv :
      (bs : List Bool) (s : System) → Inv fail t i x cells s → Inv fail t i x cells (run fail bs s)
  unfolding run
  run-Inv [] s v = v
  run-Inv (true ∷ bs) s v =
      run-Inv bs _ (owner_step-Inv s.owner s.thief s.deque v.owner_at v.thief_at v.same_cells)
  run-Inv (false ∷ bs) s v =
      run-Inv bs _ (thief_step-Inv s.owner s.thief s.deque v.owner_at v.thief_at v.same_cells)

pub start-Inv : (fail t i x : ℕ) (cells : List ℕ) → Inv fail t i x cells (start t i cells)
start-Inv fail t i x cells = record {
  owner_at = (inl refl, refl);
  thief_at = inl refl;
  same_cells = refl;
}
