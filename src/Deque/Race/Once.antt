-- ===== src/Deque/Race/Once.antt =====
-- The race of Race.antt has one winner.
use mpl.Base.{
  ℕ, ◌+◌, ◌-◌, ◌^◌, ◌≤◌, ◌<◌, ◌≡◌, ◌≢◌, ◌⊎◌, Bool, true, false, List, [], ◌∷◌, get_or, arith,
}
use mpl.Deque.{Deque, returned, unpack_idx}
use mpl.Deque.Race.{
  Owner, entering, lowered, looked, owner_done, Thief, arriving, has_top, has_elem, thief_done,
  System, owner_step, thief_step, step, run, start, turns,
}
use mpl.Deque.Race.View.{OwnerAt, ThiefAt, tops}
use mpl.Deque.Race.Keep.{start-Inv, run-Inv}

-- The steps that each still has to take.
abbrev owner_left : Owner → ℕ
owner_left entering = 3
owner_left (lowered b) = 2
owner_left (looked b l) = 1
owner_left (owner_done o) = 0

abbrev thief_left : Thief → ℕ
thief_left arriving = 3
thief_left (has_top a) = 2
thief_left (has_elem a y) = 1
thief_left (thief_done o) = 0

module _ (fail : ℕ) where
  owner_step-left : (o : Owner) (d : Deque) → owner_left (owner_step fail o d).0 ≤ owner_left o - 1
  unfolding owner_step
  owner_step-left entering d = ground arith
  owner_step-left (lowered b) d = omega arith
  owner_step-left (looked b l) d = omega arith
  owner_step-left (owner_done o) d = omega arith

  thief_step-left : (o : Thief) (d : Deque) → thief_left (thief_step fail o d).0 ≤ thief_left o - 1
  unfolding thief_step
  thief_step-left arriving d = omega arith
  thief_step-left (has_top a) d = ground arith
  thief_step-left (has_elem a y) d = omega arith
  thief_step-left (thief_done o) d = omega arith

  run-left :
      (bs : List Bool) (s : System)
      → (owner_left (run fail bs s).owner ≤ owner_left s.owner - turns true bs)
        × (thief_left (run fail bs s).thief ≤ thief_left s.thief - turns false bs)
  unfolding run step
  run-left [] s = omega arith
  run-left (true ∷ bs) s =
      omega (arith, owner_step-left s.owner s.deque, run-left bs (step fail true s))
  run-left (false ∷ bs) s =
      omega (arith, thief_step-left s.thief s.deque, run-left bs (step fail false s))

module _ (fail t i x : ℕ) (cells : List ℕ) (hi : i < 63) (ht : t + 1 < 2 ^ 58) where
  settled :
      (o : Owner) (th : Thief) (d : Deque)
      → OwnerAt fail t i x cells o d
      → ThiefAt fail t i x cells th d.top
      → owner_left o ≤ 0
      → thief_left th ≤ 0
      → (((o ≡ owner_done (returned x)) × (th ≡ thief_done (returned fail)))
          ⊎ ((o ≡ owner_done (returned fail)) × (th ≡ thief_done (returned x))))
        × (d.bot ≡ unpack_idx d.top)
  settled entering th d p q h k = absurd (omega arith)
  settled (lowered b) th d p q h k = absurd (omega arith)
  settled (looked b l) th d p q h k = absurd (omega arith)
  settled (owner_done o) arriving d p q h k = absurd (omega arith)
  settled (owner_done o) (has_top a) d p q h k = absurd (omega arith)
  settled (owner_done o) (has_elem a y) d p q h k = absurd (omega arith)
  settled (owner_done o) (thief_done r) d p q h k = ground (arith, tops t i hi ht)

-- One element is left, which is not the failure value. Once either side has had its three turns, in
-- any order, exactly one of them has the element, the other has failed, nothing died, and the
-- deque is empty.
pub race_exactly_one :
    (fail t i x : ℕ) (cells : List ℕ) (bs : List Bool)
    → i < 63
    → t + 1 < 2 ^ 58
    → get_or cells i 0 ≡ x
    → x ≢ fail
    → 3 ≤ turns true bs
    → 3 ≤ turns false bs
    → let s = run fail bs (start t i cells) in
      (((s.owner ≡ owner_done (returned x)) × (s.thief ≡ thief_done (returned fail)))
        ⊎ ((s.owner ≡ owner_done (returned fail)) × (s.thief ≡ thief_done (returned x))))
      × (s.deque.bot ≡ unpack_idx s.deque.top)
race_exactly_one fail t i x cells bs hi ht hx hf ho hth =
    let v = run-Inv fail t i x cells hi ht hx hf bs _ (start-Inv fail t i x cells) in
    let left = run-left fail bs (start t i cells) in
    settled fail t i x cells hi ht _ _ _ v.owner_at v.thief_at (omega arith) (omega arith)
