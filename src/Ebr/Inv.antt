-- ===== src/Ebr/Inv.antt =====
-- The epochs of runtime/gc/ebr.c under every interleaving.
use mpl.Base.{ℕ, ◌+◌, ◌%◌, ◌^◌, ◌≤◌, ◌<◌, ◌≡◌, ap, ◌∙◌, ◌⊎◌, arith}
use native.Mathlib.Decide.{dec_lt}
use native.Mathlib.Nat.{mod-eq_of_lt}
use mpl.Ebr.Words.{unpack_epoch-pack, unpack-set_q_true}
use mpl.Ebr.{
  get_announcement, unpack_epoch, unpack_qbit, enter_quiescent_state, leave_rotate, leave_check,
  leave_advance, leave_announce, retire,
}
use mpl.Ebr.System.{
  outside, checking, advancing, announcing, System, local_epoch, IsActive, enter_step, begin_step,
  check_step, advance_step, announce_step, retire_step,
}

pub record EpochInv (n : ℕ) (s : System) : Type 0 where
  pub entered : (p : ℕ) → local_epoch s p ≤ s.ebr.epoch
  pub announced : (p : ℕ) → unpack_epoch (get_announcement s.ebr p) ≤ s.since p
  pub past : (p : ℕ) → s.since p ≤ s.ebr.epoch
  pub checked :
      (p j : ℕ)
      → local_epoch s p ≡ s.ebr.epoch
      → j < (s.ebr.locals p).check_next
      → j < n
      → IsActive s j
      → s.ebr.epoch ≤ s.since j
  pub ready :
      (p j : ℕ) → s.phase p ≡ advancing s.ebr.epoch → j < n → IsActive s j → s.ebr.epoch ≤ s.since j
  pub active : (j : ℕ) → j < n → IsActive s j → s.ebr.epoch ≤ s.since j + 1

module _ (n : ℕ) (s : System) (v : EpochInv n s) (p : ℕ) where
  pub enter-Inv : s.phase p ≡ outside → EpochInv n (enter_step s p)
  unfolding enter_quiescent_state
  enter-Inv o = record {
    entered = λ q. ground (arith, unpack-set_q_true (get_announcement s.ebr p), v.entered q);
    announced = λ q. ground (arith, unpack-set_q_true (get_announcement s.ebr p), v.announced q);
    past = v.past;
    checked = λ q j. ground (arith, unpack-set_q_true (get_announcement s.ebr p), v.checked q j);
    ready = λ q j. ground (arith, unpack-set_q_true (get_announcement s.ebr p), v.ready q j);
    active = λ j. ground (arith, unpack-set_q_true (get_announcement s.ebr p), v.active j);
  }

  pub begin-Inv : s.phase p ≡ outside → EpochInv n (begin_step s p)
  unfolding leave_rotate
  begin-Inv o = record {
    entered = λ q. ground (arith, v.entered q);
    announced = λ q. ground (arith, v.announced q);
    past = λ q. ground (arith, v.past q);
    checked = λ q j. ground (arith, v.checked q j);
    ready = λ q j. ground (arith, v.ready q j);
    active = λ j. ground (arith, v.active j);
  }

  -- A processor that `p` has just checked.
  seen-past :
      (g j : ℕ)
      → s.phase p ≡ checking g
      → g ≡ s.ebr.epoch
      → j < (s.ebr.locals p).check_next + 1
      → j < n
      → IsActive s j
      → ((unpack_epoch (get_announcement s.ebr ((s.ebr.locals p).check_next % n)) ≡ g)
          ⊎ (unpack_qbit (get_announcement s.ebr ((s.ebr.locals p).check_next % n)) ≡ 1))
      → s.ebr.epoch ≤ s.since j
  seen-past g j o e h k a m = elim (dec_lt j c) [
    | yes early ↦ v.checked p j (rw o e) early k a
    | no late ↦
        let same : c ≡ j = omega arith in
        let here = mod-eq_of_lt {n = c} {m = n} (omega arith) in
        ground (arith, v.announced j, here, same, ap (λ i. get_announcement s.ebr i) (here ∙ same))
  ]
    where
      c : ℕ
      c = (s.ebr.locals p).check_next

  pub check-Inv : (g : ℕ) → 0 < n → s.phase p ≡ checking g → EpochInv n (check_step n s p g)
  unfolding leave_check
  check-Inv g pos o = record {
    entered = λ q. ground (arith, v.entered q, v.entered p);
    announced = λ q. ground (arith, v.announced q);
    past = λ q. ground (arith, v.past q);
    checked = λ q j. ground (arith, v.checked q j, seen-past g j o);
    ready = λ q j. ground (arith, v.ready q j, seen-past g j o);
    active = λ j. ground (arith, v.active j);
  }

  pub advance-Inv :
      (g : ℕ) → s.phase p ≡ advancing g → s.ebr.epoch < 2 ^ 63 → EpochInv n (advance_step s p g)
  unfolding leave_advance
  advance-Inv g o h = record {
    entered = λ q. ground (arith, v.entered q, v.entered p);
    announced = λ q. ground (arith, v.announced q);
    past = λ q. ground (arith, v.past q);
    checked = λ q j. ground (arith, v.checked q j, v.entered q, v.entered p);
    ready = λ q j. ground (arith, v.ready q j, v.entered q);
    active = λ j. ground (arith, v.active j, v.ready p j);
  }

  pub announce-Inv :
      (g : ℕ) → s.phase p ≡ announcing g → s.ebr.epoch < 2 ^ 63 → EpochInv n (announce_step s p g)
  unfolding leave_announce
  announce-Inv g o h = record {
    entered = λ q. ground (arith, v.entered q, unpack_epoch-pack g);
    announced = λ q. ground (arith, v.announced q, v.entered p, unpack_epoch-pack g);
    past = λ q. ground (arith, v.past q);
    checked = λ q j. ground (arith, v.checked q j, v.entered p, unpack_epoch-pack g);
    ready = λ q j. ground (arith, v.ready q j);
    active = λ j. ground (arith, v.active j);
  }

  pub retire-Inv : (ptr room : ℕ) → EpochInv n (retire_step s p ptr room)
  unfolding retire
  retire-Inv ptr room = record {
    entered = λ q. ground (arith, v.entered q);
    announced = λ q. ground (arith, v.announced q);
    past = λ q. ground (arith, v.past q);
    checked = λ q j. ground (arith, v.checked q j);
    ready = λ q j. ground (arith, v.ready q j);
    active = λ j. ground (arith, v.active j);
  }
