-- ===== src/Stacks/Tests.antt =====
-- Concrete stacks, and the witness of the theorem on promotion stacks.
use mpl.Base.{ℕ, ◌+◌, ◌*◌, ◌≤◌, ◌<◌, ◌≡◌, ◌⊎◌, true, false, some, ◌==◌, if◌then◌else◌, arith}
use mpl.Objects.{Words}
use mpl.Stacks.{Frame, frame_is_promotable, oldest_promotable}
use mpl.Stacks.Promo.{oldest_promotable_lem}

-- A promotion stack at 100 with two entries, of frames that end at 532 and at 564.
abbrev memory : Words
memory = λ a. if a == 100 then 532 else if a == 108 then 564 else if a == 540 then 1 else 0

-- Frames of 32 bytes, each with one slot of spork data 8 bytes from its start.
abbrev frame_info : ℕ → Frame
frame_info top = record { size = 32; spork_info = some record { nest = 1; offset = 8 } }

oldest_promotable_lem_example :
    (n : ℕ) × (oldest_promotable frame_info 2 memory 100 116 ≡ some (100 + n * 8))
    × ((116 ≤ 100 + n * 8) ⊎ (frame_is_promotable frame_info memory (memory (100 + n * 8)) ≡ true))
    × ((k : ℕ) → k < n → frame_is_promotable frame_info memory (memory (100 + k * 8)) ≡ false)
oldest_promotable_lem_example = oldest_promotable_lem frame_info 2 memory 100 116 (omega arith)
