-- ===== src/Deque.antt =====
-- runtime/gc/abp-deque.c, the work-stealing deque of the scheduler, over the packing macros of
-- runtime/gc/local-scope.h. Each function is cut where it touches the shared words, so that the
-- parts can be interleaved; the whole function is their sequence.
pub mod Pack
pub mod Refine
pub mod Depth
pub mod Race
mod Tests
use mpl.Base.{
  ℕ, ◌+◌, ◌-◌, ◌*◌, ◌/◌, ◌%◌, ◌^◌, bit_and, bit_or, Bool, true, false, ◌||◌, not, Option, none,
  some, List, length, get_or, set, ltb, leb, ◌==◌, if◌then◌else◌,
}

-- `DEQUE_CAPACITY_BITS` and `MAX_IDX`.
abbrev pub capacity_bits : ℕ
capacity_bits = 6

abbrev pub max_idx : ℕ
max_idx = 2 ^ 6 - 1

pub unpack_tag : ℕ → ℕ
unpack_tag topval = topval / 2 ^ capacity_bits

pub unpack_idx : ℕ → ℕ
unpack_idx topval = bit_and topval max_idx

-- `PACK_TAGIDX` at a tag of `w` bits: the shift is done in the type of the tag.
pub pack_tag_idx : ℕ → ℕ → ℕ → ℕ
pack_tag_idx w tag idx = bit_or (tag * 2 ^ capacity_bits % 2 ^ w) idx

-- `top` is a `uint64_t`, `bot` a `uint32_t`, and `cells` the array of objptrs.
pub record Deque : Type 0 where
  pub top : ℕ
  pub bot : ℕ
  pub cells : List ℕ

-- `died` is an exit by `DIE`.
pub data Outcome : Type 0 where
  returned : ℕ → Outcome
  died : Outcome

-- `ABP_deque_push_bot`
pub push_bot : Deque → ℕ → Bool × Deque
push_bot d elem =
    if d.bot == length d.cells
    then (false, d)
    else (true, record d { cells = set d.cells d.bot elem; bot = (d.bot + 1) % 2 ^ 32 })

-- `ABP_deque_check_successful_pop`, with the return that follows it.
pub check_successful_pop : ℕ → ℕ → Outcome
check_successful_pop result fail = if result == fail then died else returned result

-- `ABP_deque_try_pop_bot` up to the store of `bot`; `none` is the early return.
pub pop_bot_lower : Deque → Option (ℕ × Deque)
pop_bot_lower d = if d.bot == 0 then none else some (d.bot - 1, record d { bot = d.bot - 1 })

-- What the loads after the fence see.
pub record Look : Type 0 where
  pub elem : ℕ
  pub top : ℕ

pub pop_bot_look : Deque → ℕ → Look
pop_bot_look d local_bot = record { elem = get_or d.cells local_bot 0; top = d.top }

-- The lost race, after the compare-and-swap found `found_top`.
pub pop_bot_lost : ℕ → ℕ → ℕ → Deque → Outcome × Deque
pop_bot_lost fail local_bot tag d =
    if not (unpack_idx d.top == local_bot + 1) || not (unpack_tag d.top == tag)
    then (died, d)
    else (
      returned fail,
      record d { bot = (local_bot + 1) % 2 ^ 32; top = pack_tag_idx 64 (tag + 1) (local_bot + 1) },
    )

-- The rest of `ABP_deque_try_pop_bot`, with the compare-and-swap on `top`.
pub pop_bot_decide : ℕ → ℕ → Look → Deque → Outcome × Deque
unfolding check_successful_pop pop_bot_lost
pop_bot_decide fail local_bot seen d =
    let idx = unpack_idx seen.top in
    let tag = unpack_tag seen.top in
    let desired = pack_tag_idx 64 (tag + 1) idx in
    if ltb idx local_bot
    then (check_successful_pop seen.elem fail, d)
    else if ltb local_bot idx
    then (returned fail, record d { bot = idx; top = desired })
    else if d.top == seen.top
    then (check_successful_pop seen.elem fail, record d { top = desired })
    else pop_bot_lost fail local_bot tag d

-- `ABP_deque_try_pop_bot` with nothing in between.
pub try_pop_bot : ℕ → Deque → Outcome × Deque
unfolding pop_bot_lower pop_bot_look pop_bot_decide
try_pop_bot fail d = elim (pop_bot_lower d) [
  | none ↦ (returned fail, d)
  | some (local_bot, d') ↦ pop_bot_decide fail local_bot (pop_bot_look d' local_bot) d'
]

-- `ABP_deque_try_pop_top` after it has read `top`: `none` is the early return.
pub pop_top_look : ℕ → Deque → Option ℕ
pop_top_look local_top d =
    if leb d.bot (unpack_idx local_top)
    then none
    else some (get_or d.cells (unpack_idx local_top) 0)

-- Its compare-and-swap.
pub pop_top_commit : ℕ → ℕ → ℕ → Deque → Outcome × Deque
unfolding check_successful_pop
pop_top_commit fail local_top elem d =
    if d.top == local_top
    then (
      check_successful_pop elem fail,
      record d { top = pack_tag_idx 64 (unpack_tag local_top) (unpack_idx local_top + 1) },
    )
    else (returned fail, d)

-- `ABP_deque_try_pop_top` with nothing in between.
pub try_pop_top : ℕ → Deque → Outcome × Deque
unfolding pop_top_look pop_top_commit
try_pop_top fail d = elim (pop_top_look d.top d) [
  | none ↦ (returned fail, d)
  | some elem ↦ pop_top_commit fail d.top elem d
]

-- `ABP_deque_set_depth`: here the tag is a `uint32_t`. Of the two orders of the stores only what
-- stands in between differs, `set_depth_between`.
pub set_depth : Deque → ℕ → Option Deque
set_depth d desired_depth =
    let tag = unpack_tag d.top % 2 ^ 32 in
    let desired = pack_tag_idx 32 ((tag + 1) % 2 ^ 32) desired_depth in
    if not (unpack_idx d.top == d.bot)
    then none
    else if desired_depth == d.bot
    then some d
    else some (record d { bot = desired_depth; top = desired })

-- The deque between the two stores of `ABP_deque_set_depth`.
pub set_depth_between : Deque → ℕ → Deque
set_depth_between d desired_depth =
    let tag = unpack_tag d.top % 2 ^ 32 in
    let desired = pack_tag_idx 32 ((tag + 1) % 2 ^ 32) desired_depth in
    if desired_depth == d.bot
    then d
    else if ltb desired_depth d.bot
    then record d { bot = desired_depth }
    else record d { top = desired }
