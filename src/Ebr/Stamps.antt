-- ===== src/Ebr/Stamps.antt =====
-- The epochs at which the pointers in the limbo bags of runtime/gc/ebr.c were retired.
use mpl.Base.{
  ℕ, ◌+◌, ◌%◌, ◌^◌, ◌≤◌, ◌<◌, ◌≡◌, refl, ap, List, [], ◌∷◌, ◌++◌, ◌==◌, length, length-append,
  if◌then◌else◌, arith,
}
use native.Mathlib.Decide.{ℕ_discrete}
use mpl.Ebr.Words.{unpack_epoch-pack, unpack-set_q_true, bag_words-retire_in}
use mpl.Ebr.{
  get_announcement, unpack_epoch, bag_words, enter_quiescent_state, leave_rotate, leave_check,
  leave_advance, leave_announce, retire, retire_in,
}
use mpl.Ebr.System.{
  outside, checking, advancing, announcing, System, local_epoch, next_bag, enter_step, begin_step,
  check_step, advance_step, announce_step, retire_step,
}

-- Every number of the list is below the bound.
abbrev pub AllBelow : ℕ → List ℕ → Type 0
AllBelow n [] = Unit {0}
AllBelow n (x ∷ xs) = (x < n) × AllBelow n xs

pub AllBelow-mono : {m n : ℕ} (xs : List ℕ) → m ≤ n → AllBelow m xs → AllBelow n xs
AllBelow-mono [] h a = tt
AllBelow-mono (x ∷ xs) h a = (omega arith, AllBelow-mono xs h a.1)

AllBelow-snoc : (n x : ℕ) (xs : List ℕ) → x < n → AllBelow n xs → AllBelow n (xs ++ x ∷ [])
AllBelow-snoc n x [] h a = (h, tt)
AllBelow-snoc n x (y ∷ ys) h a = (a.0, AllBelow-snoc n x ys h a.1)

-- The stamps of the three bags of a processor: the current one, the one before, the oldest.
pub record StampInv (s : System) (p : ℕ) : Type 0 where
  pub in_range : (s.ebr.locals p).limbo_idx < 3
  pub current : AllBelow (s.ebr.epoch + 1) (s.stamps p (s.ebr.locals p).limbo_idx)
  pub previous : AllBelow (local_epoch s p + 1) (s.stamps p (((s.ebr.locals p).limbo_idx + 2) % 3))
  pub oldest : AllBelow (local_epoch s p) (s.stamps p (next_bag s p))
  pub stamped : (b : ℕ) → length (s.stamps p b) ≡ length (bag_words ((s.ebr.locals p).limbo_bags b))

-- A step that leaves the bags of `q` alone.
StampInv-keep :
    (s t : System) (q : ℕ)
    → StampInv s q
    → t.stamps q ≡ s.stamps q
    → (t.ebr.locals q).limbo_idx ≡ (s.ebr.locals q).limbo_idx
    → (t.ebr.locals q).limbo_bags ≡ (s.ebr.locals q).limbo_bags
    → s.ebr.epoch ≤ t.ebr.epoch
    → local_epoch s q ≤ local_epoch t q
    → StampInv t q
StampInv-keep s t q w st ix bg h k = record {
  in_range = rw ix w.in_range;
  current = rw (st, ix) (AllBelow-mono _ (omega arith) w.current);
  previous = rw (st, ix) (AllBelow-mono _ (omega arith) w.previous);
  oldest = rw (st, ix) (AllBelow-mono _ k w.oldest);
  stamped = λ b. rw (st, bg) (w.stamped b);
}

module _ (s : System) (p q : ℕ) (w : StampInv s q) where
  pub enter_stamps : s.phase p ≡ outside → StampInv (enter_step s p) q
  unfolding enter_quiescent_state
  enter_stamps o =
      StampInv-keep s (enter_step s p) q w refl refl refl (omega arith)
        (ground (arith, unpack-set_q_true (get_announcement s.ebr p)))

  pub check_stamps : (n g : ℕ) → s.phase p ≡ checking g → StampInv (check_step n s p g) q
  unfolding leave_check
  check_stamps n g o =
      StampInv-keep s (check_step n s p g) q w refl (ground arith) (ground arith) (ground arith)
        (ground arith)

  pub advance_stamps :
      (g : ℕ) → s.phase p ≡ advancing g → s.ebr.epoch < 2 ^ 63 → StampInv (advance_step s p g) q
  unfolding leave_advance
  advance_stamps g o h =
      StampInv-keep s (advance_step s p g) q w refl (ground arith) (ground arith) (ground arith)
        (ground arith)

  pub announce_stamps :
      (g : ℕ) → s.phase p ≡ announcing g → g < 2 ^ 63 → StampInv (announce_step s p g) q
  unfolding leave_announce
  announce_stamps g o h =
      StampInv-keep s (announce_step s p g) q w refl refl refl (omega arith)
        (ground (arith, unpack_epoch-pack g h))

-- A rotation of `p` empties the oldest bag and makes it the current one.
StampInv-rotate :
    (s t : System) (p : ℕ)
    → StampInv s p
    → (t.ebr.locals p).limbo_idx ≡ next_bag s p
    → ((b : ℕ) → t.stamps p b ≡ (if next_bag s p == b then [] else s.stamps p b))
    → ((b : ℕ)
        → (t.ebr.locals p).limbo_bags b
          ≡ (if next_bag s p == b then [] else (s.ebr.locals p).limbo_bags b))
    → local_epoch t p ≡ s.ebr.epoch
    → local_epoch s p < s.ebr.epoch
    → StampInv t p
StampInv-rotate s t p w ix st bg lo h =
    let i = (s.ebr.locals p).limbo_idx in
    let j = (t.ebr.locals p).limbo_idx in
    let back : (j + 2) % 3 ≡ i = omega (arith, w.in_range) in
    let on : (j + 1) % 3 ≡ (i + 2) % 3 = omega (arith, w.in_range) in
    let a1 : t.stamps p j ≡ [] = ground (arith, st j) in
    let a2 : t.stamps p ((j + 2) % 3) ≡ s.stamps p i =
      ground (arith, st ((j + 2) % 3), w.in_range, ap (s.stamps p) back) in
    let a3 : t.stamps p ((j + 1) % 3) ≡ s.stamps p ((i + 2) % 3) =
      ground (arith, st ((j + 1) % 3), w.in_range, ap (s.stamps p) on) in
    record {
      in_range = omega arith;
      current = rw a1 tt;
      previous = rw a2 (AllBelow-mono (s.stamps p i) (omega arith) w.current);
      oldest = rw a3 (AllBelow-mono (s.stamps p ((i + 2) % 3)) (omega arith) w.previous);
      stamped = λ b. ground (arith, st b, bg b, w.stamped b);
    }

-- A retirement by `p` grows its current bag by a pointer, stamped with the epoch.
StampInv-add :
    (s t : System) (p ptr room : ℕ)
    → StampInv s p
    → (t.ebr.locals p).limbo_idx ≡ (s.ebr.locals p).limbo_idx
    → ((b : ℕ)
        → t.stamps p b ≡ (
            if (s.ebr.locals p).limbo_idx == b
            then s.stamps p (s.ebr.locals p).limbo_idx ++ s.ebr.epoch ∷ []
            else s.stamps p b))
    → ((b : ℕ)
        → (t.ebr.locals p).limbo_bags b ≡ (
            if (s.ebr.locals p).limbo_idx == b
            then retire_in ptr room ((s.ebr.locals p).limbo_bags (s.ebr.locals p).limbo_idx)
            else (s.ebr.locals p).limbo_bags b))
    → t.ebr.epoch ≡ s.ebr.epoch
    → local_epoch t p ≡ local_epoch s p
    → StampInv t p
StampInv-add s t p ptr room w ix st bg ep lo =
    let i = (s.ebr.locals p).limbo_idx in
    let a1 : t.stamps p i ≡ s.stamps p i ++ s.ebr.epoch ∷ [] = ground (arith, st i) in
    let a2 : t.stamps p ((i + 2) % 3) ≡ s.stamps p ((i + 2) % 3) =
      ground (arith, st ((i + 2) % 3), w.in_range) in
    let a3 : t.stamps p ((i + 1) % 3) ≡ s.stamps p ((i + 1) % 3) =
      ground (arith, st ((i + 1) % 3), w.in_range) in
    record {
      in_range = omega arith;
      current =
          rw (ix, a1, ep) (AllBelow-snoc _ s.ebr.epoch (s.stamps p i) (omega arith) w.current);
      previous = rw (ix, a2, lo) w.previous;
      oldest = rw (ix, a3, lo) w.oldest;
      stamped = λ b. ground (
        arith,
        st b,
        bg b,
        w.stamped b,
        ap length (bag_words-retire_in ptr room ((s.ebr.locals p).limbo_bags i)),
        length-append (s.stamps p i) (s.ebr.epoch ∷ []),
        length-append (bag_words ((s.ebr.locals p).limbo_bags i)) (ptr ∷ []),
      );
    }

module _ (s : System) (p : ℕ) (o : s.phase p ≡ outside) where
  pub begin_stamps :
      (q : ℕ) → StampInv s q → local_epoch s q ≤ s.ebr.epoch → StampInv (begin_step s p) q
  unfolding leave_rotate
  begin_stamps q w h = elim (ℕ_discrete p q) [
    | yes e ↦ elim (ℕ_discrete (unpack_epoch (get_announcement s.ebr q)) s.ebr.epoch) [
      | yes still ↦
          StampInv-keep s (begin_step s p) q w (ground arith) (ground arith) (ground arith)
            (ground arith) (ground arith)
      | no moved ↦
          StampInv-rotate s (begin_step s p) q w (ground arith) (λ b. ground arith)
            (λ b. ground arith) (ground arith) (ground arith)
    ]
    | no ne ↦
        StampInv-keep s (begin_step s p) q w (ground arith) (ground arith) (ground arith)
          (ground arith) (ground arith)
  ]

  pub retire_stamps : (q ptr room : ℕ) → StampInv s q → StampInv (retire_step s p ptr room) q
  unfolding retire
  retire_stamps q ptr room w = elim (ℕ_discrete p q) [
    | yes e ↦
        StampInv-add s (retire_step s p ptr room) q ptr room w (ground arith) (λ b. ground arith)
          (λ b. ground arith) (ground arith) (ground arith)
    | no ne ↦
        StampInv-keep s (retire_step s p ptr room) q w (ground arith) (ground arith) (ground arith)
          (ground arith) (ground arith)
  ]
