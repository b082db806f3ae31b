-- ===== src/Ebr/System.antt =====
-- The processors of runtime/gc/ebr.c, interleaved at every access to a word that another one
-- writes. The ghost fields record the epoch at which things happened; no step reads them.
use mpl.Base.{ℕ, suc, ◌+◌, ◌%◌, ◌<◌, ◌≡◌, List, [], ◌∷◌, ◌++◌, ◌==◌, if◌then◌else◌}
use mpl.Base.Chain.{update}
use mpl.Ebr.{
  Ebr, new, get_announcement, unpack_epoch, unpack_qbit, enter_quiescent_state, leave_rotate,
  leave_check, leave_advance, leave_announce, retire,
}

-- Where a processor stands in `EBR_leaveQuiescentState`, with the epoch that it read.
pub data Phase : Type 0 where
  outside : Phase
  checking advancing announcing : ℕ → Phase

-- `since p` is the epoch at the last announcement of `p`; `stamps p b` are the epochs at which the
-- pointers of the limbo bag `b` of `p` were retired.
pub record System : Type 0 where
  pub ebr : Ebr
  pub phase : ℕ → Phase
  pub since : ℕ → ℕ
  pub stamps : ℕ → ℕ → List ℕ

abbrev pub start : System
start = record { ebr = new; phase = λ _. outside; since = λ _. 0; stamps = λ _ _. [] }

-- The epoch that `p` has entered: the one read where it is leaving, else the one announced.
abbrev pub epoch_in : Phase → ℕ → ℕ
epoch_in outside ann = unpack_epoch ann
epoch_in (checking g) ann = g
epoch_in (advancing g) ann = g
epoch_in (announcing g) ann = g

abbrev pub local_epoch : System → ℕ → ℕ
local_epoch s p = epoch_in (s.phase p) (get_announcement s.ebr p)

-- `p` may hold pointers into the shared structure.
abbrev pub IsActive : System → ℕ → Type 0
IsActive s p = unpack_qbit (get_announcement s.ebr p) ≡ 0

-- The bag that the next rotation of `p` reclaims.
abbrev pub next_bag : System → ℕ → ℕ
next_bag s p = ((s.ebr.locals p).limbo_idx + 1) % 3

abbrev pub enter_step : System → ℕ → System
enter_step s p = record s { ebr = enter_quiescent_state p s.ebr }

abbrev pub begin_step : System → ℕ → System
begin_step s p = record s {
  ebr = (leave_rotate p s.ebr.epoch s.ebr).1;
  phase = update s.phase p (checking s.ebr.epoch);
  stamps =
      if unpack_epoch (get_announcement s.ebr p) == s.ebr.epoch
      then s.stamps
      else update s.stamps p (update (s.stamps p) (next_bag s p) []);
}

abbrev pub check_step : ℕ → System → ℕ → ℕ → System
check_step n s p g = record s {
  ebr = (leave_check n p g s.ebr).1;
  phase = update s.phase p (if (leave_check n p g s.ebr).0 then advancing g else announcing g);
}

abbrev pub advance_step : System → ℕ → ℕ → System
advance_step s p g = record s {
  ebr = leave_advance g s.ebr;
  phase = update s.phase p (announcing g);
}

abbrev pub announce_step : System → ℕ → ℕ → System
announce_step s p g = record s {
  ebr = leave_announce p g s.ebr;
  phase = update s.phase p outside;
  since = update s.since p s.ebr.epoch;
}

abbrev pub retire_step : System → ℕ → ℕ → ℕ → System
retire_step s p ptr room = record s {
  ebr = retire p ptr room s.ebr;
  stamps = update s.stamps p (
      update (s.stamps p) (s.ebr.locals p).limbo_idx
        (s.stamps p (s.ebr.locals p).limbo_idx ++ s.ebr.epoch ∷ []));
}

-- One step of processor `p` of `n`.
pub data Step (n : ℕ) : System → System → Type 0 where
  enter : (s : System) (p : ℕ) → p < n → s.phase p ≡ outside → Step n s (enter_step s p)
  begin : (s : System) (p : ℕ) → p < n → s.phase p ≡ outside → Step n s (begin_step s p)
  check : (s : System) (p g : ℕ) → p < n → s.phase p ≡ checking g → Step n s (check_step n s p g)
  advance : (s : System) (p g : ℕ) → p < n → s.phase p ≡ advancing g → Step n s (advance_step s p g)
  announce :
      (s : System) (p g : ℕ) → p < n → s.phase p ≡ announcing g → Step n s (announce_step s p g)
  retires :
      (s : System) (p ptr room : ℕ)
      → p < n
      → s.phase p ≡ outside
      → Step n s (retire_step s p ptr room)

-- The states that the processors reach in so many steps.
pub data Reach (n : ℕ) : ℕ → System → Type 0 where
  here : Reach n 0 start
  next : {k : ℕ} {s t : System} → Reach n k s → Step n s t → Reach n (suc k) t
