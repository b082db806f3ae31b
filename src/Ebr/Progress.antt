-- ===== src/Ebr/Progress.antt =====
-- `EBR_leaveQuiescentState` of runtime/gc/ebr.c moves the epoch on when nobody holds it up.
use native.Mathlib.Nat.{mod-eq_of_lt}
use mpl.Base.{ℕ, zero, suc, ◌+◌, ◌^◌, ◌<◌, ◌≡◌, ◌⊎◌, arith}
use mpl.Ebr.Words.{unpack_epoch-pack}
use mpl.Ebr.{Ebr, get_announcement, unpack_epoch, unpack_qbit, leave_quiescent_state}

-- `k` calls by one processor.
pub leaves : ℕ → ℕ → ℕ → Ebr → Ebr
leaves num_procs mypid zero e = e
leaves num_procs mypid (suc k) e =
    leaves num_procs mypid k (leave_quiescent_state num_procs mypid e).1

-- Processor `j` has announced epoch `g`, or is quiescent.
abbrev pub IsPast : ℕ → Ebr → ℕ → Type 0
IsPast g e j = (unpack_epoch (get_announcement e j) ≡ g) ⊎ (unpack_qbit (get_announcement e j) ≡ 1)

record Round (n p g c : ℕ) (e : Ebr) : Type 0 where
  at_epoch : e.epoch ≡ g
  mine : unpack_epoch (get_announcement e p) ≡ g
  count : (e.locals p).check_next ≡ c
  others : (j : ℕ) → j < n → IsPast g e j

leave-Round :
    (n p g c : ℕ) (e : Ebr)
    → n < 2 ^ 32
    → g + 1 < 2 ^ 63
    → c + 1 < n
    → Round n p g c e
    → Round n p g (c + 1) (leave_quiescent_state n p e).1
unfolding leave_quiescent_state
leave-Round n p g c e hn hg hc r =
    let here = mod-eq_of_lt {n = c} {m = n} (omega arith) in
    let me = unpack_epoch-pack g (omega arith) in
    record {
      at_epoch = ground (arith, r, here, r.others c);
      mine = ground (arith, r, here, r.others c, me);
      count = ground (arith, r, here, r.others c);
      others = λ j. ground (arith, r, here, r.others c, r.others j, me);
    }

leave_last :
    (n p g c : ℕ) (e : Ebr)
    → n < 2 ^ 32
    → g + 1 < 2 ^ 63
    → c + 1 ≡ n
    → Round n p g c e
    → (leave_quiescent_state n p e).1.epoch ≡ g + 1
unfolding leave_quiescent_state
leave_last n p g c e hn hg hc r =
    let here = mod-eq_of_lt {n = c} {m = n} (omega arith) in ground (arith, r, here, r.others c)

leaves-Round :
    (n p g k c : ℕ) (e : Ebr)
    → n < 2 ^ 32
    → g + 1 < 2 ^ 63
    → c + suc k ≡ n
    → Round n p g c e
    → (leaves n p (suc k) e).epoch ≡ g + 1
unfolding leaves
leaves-Round n p g zero c e hn hg hc r = leave_last n p g c e hn hg (omega arith) r
leaves-Round n p g (suc k) c e hn hg hc r =
    leaves-Round n p g k (c + 1) _ hn hg (omega arith) (leave-Round n p g c e hn hg (omega arith) r)

-- Processor `p`, which has announced the current epoch `g` and checked nobody yet, moves the epoch
-- to `g + 1` by as many undisturbed calls as there are processors, if each of these has announced
-- `g` or is quiescent.
pub leaves_advance :
    (n p g : ℕ) (e : Ebr)
    → 0 < n
    → n < 2 ^ 32
    → g + 1 < 2 ^ 63
    → e.epoch ≡ g
    → unpack_epoch (get_announcement e p) ≡ g
    → (e.locals p).check_next ≡ 0
    → ((j : ℕ) → j < n → IsPast g e j)
    → (leaves n p n e).epoch ≡ g + 1
leaves_advance zero p g e pos hn hg he hm hc ho = absurd (omega arith)
leaves_advance (suc n) p g e pos hn hg he hm hc ho =
    leaves-Round (suc n) p g n 0 e hn hg (omega arith)
      (record { at_epoch = he; mine = hm; count = hc; others = ho })
