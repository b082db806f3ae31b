-- ===== src/Heaps/Rounds.antt =====
-- The rounds of `HM_HH_zip` of runtime/gc/hierarchical-heap.c.
use mpl.Base.{ℕ, suc, ◌≡◌, ◌≢◌, refl, true, false, Option, some, ◌==◌, ◌||◌, ltb, arith}
use mpl.Heaps.{World}
use mpl.Heaps.Zip.{zip_level, write_cursor, zip_from}

module _ (loops fuel : ℕ) (w : World) (p q : ℕ) (cursor : Option ℕ) (result : ℕ) (pz : p ≢ 0)
    (qz : q ≢ 0) where
  going : (p == 0 || q == 0) ≡ false
  going = ground (arith, pz, qz)

  pub zip_from-both :
      (v : World)
      → ((w.heaps p).depth == (w.heaps q).depth) ≡ true
      → zip_level loops w p q ≡ some v
      → let u = write_cursor v cursor p result in
        zip_from loops (suc fuel) w p q cursor result
        ≡ zip_from loops fuel u.0 (u.0.heaps p).next_ancestor (w.heaps q).next_ancestor (some p) u.1
  unfolding zip_from
  zip_from-both v e run = rw (going, e, run) refl

  pub zip_from-first :
      ((w.heaps p).depth == (w.heaps q).depth) ≡ false
      → ltb (w.heaps q).depth (w.heaps p).depth ≡ true
      → let u = write_cursor w cursor p result in
        zip_from loops (suc fuel) w p q cursor result
        ≡ zip_from loops fuel u.0 (u.0.heaps p).next_ancestor q (some p) u.1
  unfolding zip_from
  zip_from-first e lt = rw (going, e, lt) refl

  pub zip_from-second :
      ((w.heaps p).depth == (w.heaps q).depth) ≡ false
      → ltb (w.heaps q).depth (w.heaps p).depth ≡ false
      → let u = write_cursor w cursor q result in
        zip_from loops (suc fuel) w p q cursor result
        ≡ zip_from loops fuel u.0 p (u.0.heaps q).next_ancestor (some q) u.1
  unfolding zip_from
  zip_from-second e lt = rw (going, e, lt) refl
