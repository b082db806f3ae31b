-- ===== src/Ebr/Tests.antt =====
-- Runs of the epochs at concrete states.
use native.Mathlib.Omega.{arith}
use mpl.Base.{ℕ, ◌+◌, ◌≤◌, ◌<◌, ◌≡◌, refl, inl, length}
use mpl.Ebr.{
  new, pack, unpack_epoch, unpack_qbit, bag_words, leave_rotate, leave_check, leave_advance,
  leave_announce, retire,
}
use mpl.Ebr.System.{
  System, start, next_bag, retire_step, begin_step, check_step, advance_step, announce_step, Reach,
  here, next, retires, begin, check, advance, announce,
}
use mpl.Ebr.Stamps.{AllBelow}
use mpl.Ebr.Safe.{epoch_lag, freed_before_active}
use mpl.Ebr.Progress.{leaves, IsPast, leaves_advance}

-- One processor: it retires a pointer, then moves the epoch on and leaves.
abbrev s1 : System
s1 = retire_step start 0 7 64

abbrev s2 : System
s2 = begin_step s1 0

abbrev s3 : System
s3 = check_step 1 s2 0 0

abbrev s4 : System
s4 = advance_step s3 0 0

abbrev s5 : System
s5 = announce_step s4 0 0

s5_reached : Reach 1 5 s5
unfolding new leave_rotate leave_check leave_advance leave_announce unpack_epoch retire
s5_reached =
    next
      (next
        (next
          (next (next here (retires start 0 7 64 (omega arith) refl))
            (begin s1 0 (omega arith) refl))
          (check s2 0 0 (omega arith) refl))
        (advance s3 0 0 (omega arith) refl))
      (announce s4 0 0 (omega arith) refl)

epoch_lag_example : s5.ebr.epoch ≤ s5.since 0 + 1
unfolding new leave_announce pack unpack_qbit
epoch_lag_example = epoch_lag 1 5 s5 0 s5_reached (omega arith) (omega arith) refl

freed_before_active_example :
    let freed = (leave_rotate 0 s5.ebr.epoch s5.ebr).0 in
    (freed ≡ bag_words ((s5.ebr.locals 0).limbo_bags (next_bag s5 0)))
    × (length freed ≡ length (s5.stamps 0 (next_bag s5 0)))
    × AllBelow (s5.since 0) (s5.stamps 0 (next_bag s5 0))
unfolding new leave_announce leave_advance leave_check leave_rotate retire pack unpack_qbit
    unpack_epoch
freed_before_active_example =
    freed_before_active 1 5 s5 0 0 s5_reached (omega arith) refl (omega arith) (omega arith) refl

new-IsPast : (j : ℕ) → j < 2 → IsPast 0 new j
unfolding new pack unpack_epoch
new-IsPast j h = inl refl

leaves_advance_example : (leaves 2 1 2 new).epoch ≡ 1
unfolding new pack unpack_epoch
leaves_advance_example =
    leaves_advance 2 1 0 new (omega arith) (omega arith) (omega arith) refl refl refl new-IsPast
