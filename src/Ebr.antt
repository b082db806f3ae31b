-- ===== src/Ebr.antt =====
-- runtime/gc/ebr.c, epoch-based reclamation. `leave` is cut where it touches what other
-- processors write, so that the parts can be interleaved (Ebr/System.antt).
pub mod Words
pub mod System
pub mod Inv
pub mod Stamps
pub mod Safe
pub mod Progress
mod Tests
use mpl.Base.{
  ℕ, ◌+◌, ◌-◌, ◌*◌, ◌/◌, ◌%◌, ◌^◌, bit_and, bit_or, Bool, false, ◌||◌, not, List, [], ◌∷◌, ◌++◌,
  ltb, leb, ◌==◌, if◌then◌else◌,
}
use mpl.Base.Chain.{update}

-- `PACK`, `UNPACK_EPOCH`, `UNPACK_QBIT` and `SET_Q_TRUE`.
pub pack : ℕ → ℕ → ℕ
pack epoch qbit = bit_or (epoch * 2 ^ 1 % 2 ^ 64) (bit_and qbit 1)

pub unpack_epoch : ℕ → ℕ
unpack_epoch announcement = announcement / 2

pub unpack_qbit : ℕ → ℕ
unpack_qbit announcement = bit_and announcement 1

pub set_q_true : ℕ → ℕ
set_q_true announcement = bit_or announcement 1

-- A chunk of a limbo bag: the words from its start to its frontier, and the bytes past it.
pub record Chunk : Type 0 where
  pub words : List ℕ
  pub room : ℕ

-- `struct EBR_local`
pub record Local : Type 0 where
  pub limbo_bags : ℕ → List Chunk
  pub limbo_idx : ℕ
  pub check_next : ℕ

-- `struct EBR_shared`
pub record Ebr : Type 0 where
  pub epoch : ℕ
  pub announce : ℕ → ℕ
  pub locals : ℕ → Local

abbrev pub announcement_padding : ℕ
announcement_padding = 16

abbrev pub get_announcement : Ebr → ℕ → ℕ
get_announcement e pid = e.announce (announcement_padding * pid)

abbrev pub set_announcement : Ebr → ℕ → ℕ → Ebr
set_announcement e pid ann = record e {
  announce = update e.announce (announcement_padding * pid) ann;
}

abbrev pub set_local : Ebr → ℕ → Local → Ebr
set_local e pid l = record e { locals = update e.locals pid l }

-- `EBR_enterQuiescentState`
pub enter_quiescent_state : ℕ → Ebr → Ebr
enter_quiescent_state mypid e = set_announcement e mypid (set_q_true (get_announcement e mypid))

-- The words of a limbo bag, in the order of its chunks.
abbrev pub bag_words : List Chunk → List ℕ
bag_words [] = []
bag_words (c ∷ cs) = c.words ++ bag_words cs

-- `rotateAndReclaim`, with the pointers that it hands to `freeFun`, in order.
pub rotate_and_reclaim : ℕ → Ebr → List ℕ × Ebr
rotate_and_reclaim mypid e =
    let l = e.locals mypid in
    let limbo_idx = (l.limbo_idx + 1) % 3 in
    (
      bag_words (l.limbo_bags limbo_idx),
      set_local e mypid
          (record l { limbo_bags = update l.limbo_bags limbo_idx []; limbo_idx = limbo_idx }),
    )

-- `EBR_new`
pub new : Ebr
unfolding pack
new = record {
  epoch = 0;
  announce = λ _. pack 0 0;
  locals = λ _. record { limbo_bags = λ _. []; limbo_idx = 0; check_next = 0 };
}

-- `EBR_leaveQuiescentState` up to the rotation: `global_epoch` is the value read.
pub leave_rotate : ℕ → ℕ → Ebr → List ℕ × Ebr
unfolding rotate_and_reclaim
leave_rotate mypid global_epoch e =
    if not (unpack_epoch (get_announcement e mypid) == global_epoch)
    then rotate_and_reclaim mypid (set_local e mypid (record (e.locals mypid) { check_next = 0 }))
    else ([], e)

-- Its look at one announcement; true means that the epoch may advance.
pub leave_check : ℕ → ℕ → ℕ → Ebr → Bool × Ebr
leave_check num_procs mypid global_epoch e =
    let l = e.locals mypid in
    let otherann = get_announcement e (l.check_next % num_procs) in
    let c = (l.check_next + 1) % 2 ^ 32 in
    if unpack_epoch otherann == global_epoch || unpack_qbit otherann == 1
    then (leb num_procs c, set_local e mypid (record l { check_next = c }))
    else (false, e)

-- Its compare-and-swap on the epoch.
pub leave_advance : ℕ → Ebr → Ebr
leave_advance global_epoch e =
    if e.epoch == global_epoch then record e { epoch = (global_epoch + 1) % 2 ^ 64 } else e

-- Its last store.
pub leave_announce : ℕ → ℕ → Ebr → Ebr
leave_announce mypid global_epoch e = set_announcement e mypid (pack global_epoch 0)

-- `EBR_leaveQuiescentState` with nothing in between.
pub leave_quiescent_state : ℕ → ℕ → Ebr → List ℕ × Ebr
unfolding leave_rotate leave_check leave_advance leave_announce
leave_quiescent_state num_procs mypid e =
    let g = e.epoch in
    let (freed, e1) = leave_rotate mypid g e in
    let (advance, e2) = leave_check num_procs mypid g e1 in
    (freed, leave_announce mypid g (if advance then leave_advance g e2 else e2))

-- The store of `EBR_retire` into a bag; `room` is what a new chunk offers.
pub retire_in : ℕ → ℕ → List Chunk → List Chunk
retire_in ptr room [] = record { words = ptr ∷ []; room = room - 8 } ∷ []
retire_in ptr room (c ∷ []) =
    if leb 8 c.room
    then record { words = c.words ++ ptr ∷ []; room = c.room - 8 } ∷ []
    else c ∷ record { words = ptr ∷ []; room = room - 8 } ∷ []
retire_in ptr room (c ∷ d ∷ cs) = c ∷ retire_in ptr room (d ∷ cs)

-- `EBR_retire`
pub retire : ℕ → ℕ → ℕ → Ebr → Ebr
unfolding retire_in
retire mypid ptr room e =
    let l = e.locals mypid in
    set_local e mypid (record l {
      limbo_bags = update l.limbo_bags l.limbo_idx (retire_in ptr room (l.limbo_bags l.limbo_idx));
    })
