-- ===== src/Ebr/Safe.antt =====
-- When runtime/gc/ebr.c frees a pointer, no processor is active that was so when it was retired.
use mpl.Base.{ℕ, suc, ◌+◌, ◌^◌, ◌≤◌, ◌<◌, ◌≡◌, ◌≢◌, refl, length, arith}
use mpl.Ebr.Words.{unpack_epoch-pack}
use mpl.Ebr.{
  new, get_announcement, unpack_epoch, bag_words, enter_quiescent_state, leave_rotate, leave_check,
  leave_advance, leave_announce, retire,
}
use mpl.Ebr.System.{
  outside, System, start, IsActive, next_bag, Step, enter, begin, check, advance, announce, retires,
  Reach, here, next,
}
use mpl.Ebr.Inv.{EpochInv, enter-Inv, begin-Inv, check-Inv, advance-Inv, announce-Inv, retire-Inv}
use mpl.Ebr.Stamps.{
  AllBelow, AllBelow-mono, StampInv, enter_stamps, begin_stamps, check_stamps, advance_stamps,
  announce_stamps, retire_stamps,
}

start-EpochInv : (n : ℕ) → EpochInv n start
unfolding new
start-EpochInv n = record {
  entered = λ p. ground (arith, unpack_epoch-pack 0);
  announced = λ p. ground (arith, unpack_epoch-pack 0);
  past = λ p. omega arith;
  checked = λ p j. ground arith;
  ready = λ p j. ground arith;
  active = λ j. ground arith;
}

start-StampInv : (p : ℕ) → StampInv start p
unfolding new
start-StampInv p = record {
  in_range = omega arith;
  current = tt;
  previous = tt;
  oldest = tt;
  stamped = λ b. refl;
}

-- What holds after `k` steps.
record Holds (n k : ℕ) (s : System) : Type 0 where
  few : s.ebr.epoch ≤ k
  epochs : EpochInv n s
  bags : (p : ℕ) → StampInv s p

Step-Holds : (n k : ℕ) {s t : System} → k < 2 ^ 63 → Step n s t → Holds n k s → Holds n (suc k) t
unfolding enter_quiescent_state leave_rotate leave_check leave_advance leave_announce retire
Step-Holds n k h (enter s p l o) v = record {
  few = omega (arith, v.few);
  epochs = enter-Inv n s v.epochs p o;
  bags = λ q. enter_stamps s p q (v.bags q) o;
}
Step-Holds n k h (begin s p l o) v = record {
  few = ground (arith, v.few);
  epochs = begin-Inv n s v.epochs p o;
  bags = λ q. begin_stamps s p o q (v.bags q) (v.epochs.entered q);
}
Step-Holds n k h (check s p g l o) v = record {
  few = ground (arith, v.few);
  epochs = check-Inv n s v.epochs p g (omega arith) o;
  bags = λ q. check_stamps s p q (v.bags q) n g o;
}
Step-Holds n k h (advance s p g l o) v = record {
  few = ground (arith, v.few);
  epochs = advance-Inv n s v.epochs p g o (omega (arith, v.few));
  bags = λ q. advance_stamps s p q (v.bags q) g o (omega (arith, v.few));
}
Step-Holds n k h (announce s p g l o) v = record {
  few = ground (arith, v.few);
  epochs = announce-Inv n s v.epochs p g o (omega (arith, v.few));
  bags = λ q. announce_stamps s p q (v.bags q) g o (ground (arith, v.few, v.epochs.entered p));
}
Step-Holds n k h (retires s p ptr room l o) v = record {
  few = ground (arith, v.few);
  epochs = retire-Inv n s v.epochs p ptr room;
  bags = λ q. retire_stamps s p o q ptr room (v.bags q);
}

Reach-Holds : (n : ℕ) {k : ℕ} {s : System} → k < 2 ^ 63 → Reach n k s → Holds n k s
unfolding new
Reach-Holds n h here = record {
  few = omega arith;
  epochs = start-EpochInv n;
  bags = start-StampInv;
}
Reach-Holds n h (next {k = k} r st) =
    Step-Holds n k (omega arith) st (Reach-Holds n (omega arith) r)

-- In every state that is reached in fewer than 2 ^ 63 steps the epoch is at most one ahead of the
-- epoch in which an active processor made its last announcement.
pub epoch_lag :
    (n k : ℕ) (s : System) (j : ℕ)
    → Reach n k s
    → k < 2 ^ 63
    → j < n
    → IsActive s j
    → s.ebr.epoch ≤ s.since j + 1
epoch_lag n k s j r h l a = (Reach-Holds n h r).epochs.active j l a

-- In every state that is reached in fewer than 2 ^ 63 steps: where processor `p` is about to rotate
-- its bags, it frees exactly the words of its oldest bag, one for each of that bag's retirements,
-- and each of these was in an earlier epoch than the last announcement of any active processor.
pub freed_before_active :
    (n k : ℕ) (s : System) (p j : ℕ)
    → Reach n k s
    → k < 2 ^ 63
    → s.phase p ≡ outside
    → unpack_epoch (get_announcement s.ebr p) ≢ s.ebr.epoch
    → j < n
    → IsActive s j
    → let freed = (leave_rotate p s.ebr.epoch s.ebr).0 in
      (freed ≡ bag_words ((s.ebr.locals p).limbo_bags (next_bag s p)))
      × (length freed ≡ length (s.stamps p (next_bag s p)))
      × AllBelow (s.since j) (s.stamps p (next_bag s p))
unfolding leave_rotate
freed_before_active n k s p j r h o ne l a =
    let v = Reach-Holds n h r in
    let w = v.bags p in
    (
      ground arith,
      ground (arith, w.stamped (next_bag s p)),
      AllBelow-mono (s.stamps p (next_bag s p))
          (ground (arith, v.epochs.active j l a, v.epochs.entered p)) w.oldest,
    )
