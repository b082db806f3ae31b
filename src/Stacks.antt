-- ===== src/Stacks.antt =====
-- runtime/gc/stack.c: the sizes of stacks, and the promotion stack behind each of them. A stack is the
-- address of its structure in a memory of words. The ratios are exact fractions.
pub mod Promo
mod Tests
use mpl.Base.{
  ℕ, zero, suc, ◌+◌, ◌-◌, ◌*◌, ◌/◌, ◌%◌, ◌^◌, Bool, true, false, ◌&&◌, ◌||◌, not, Option, none,
  some, ◌==◌, ltb, leb, if◌then◌else◌, min, max, bit_and,
}
use mpl.Align.{align}
use mpl.Objects.{
  Words, write, align_with_extra, stack_metadata_size, sizeof_stack_struct, stack_reserved,
  objptr_size,
}
use mpl.WorkList.{stack_used, get_stack_bottom, get_stack_top}

-- A ratio of `s->controls->ratios`.
pub record Ratio : Type 0 where
  pub num : ℕ
  pub den : ℕ

-- The part of the state that the sizes depend on.
pub record Limits : Type 0 where
  pub alignment : ℕ
  pub max_frame_size : ℕ
  pub stack_current_grow : Ratio
  pub stack_current_max_reserved : Ratio
  pub stack_current_permit_reserved : Ratio
  pub stack_current_shrink : Ratio
  pub stack_max_reserved : Ratio
  pub stack_shrink : Ratio

-- `struct GC_sporkInfo`
pub record SporkInfo : Type 0 where
  pub nest : ℕ
  pub offset : ℕ

-- The size of a frame, and where its data of sporks are, if it has any.
pub record Frame : Type 0 where
  pub size : ℕ
  pub spork_info : Option SporkInfo

abbrev pub word_sub : ℕ → ℕ → ℕ
word_sub a b = (a + 2 ^ 64 - b) % 2 ^ 64

unfoldable pub promo_stack_top : Words → (p : ℕ) → ℕ
promo_stack_top m p = m (p + 16)

unfoldable pub promo_stack_bot : Words → (p : ℕ) → ℕ
promo_stack_bot m p = m (p + 24)

-- `isStackEmpty`
pub is_stack_empty : Words → (p : ℕ) → Bool
is_stack_empty m p = stack_used m p == 0

unfoldable pub sizeof_stack_slop : Limits → ℕ
sizeof_stack_slop s = 2 * s.max_frame_size

unfoldable pub get_stack_limit_plus_slop : Words → (p : ℕ) → ℕ
get_stack_limit_plus_slop m p = get_stack_bottom p + stack_reserved m p

pub get_stack_limit : Limits → Words → (p : ℕ) → ℕ
get_stack_limit s m p = get_stack_limit_plus_slop m p - sizeof_stack_slop s

unfoldable pub align_stack_reserved : Limits → (reserved : ℕ) → ℕ
align_stack_reserved s reserved =
    align_with_extra (s.alignment) reserved (stack_metadata_size + sizeof_stack_struct)

pub sizeof_stack_with_meta_data : (reserved promo_stack_reserved : ℕ) → ℕ
sizeof_stack_with_meta_data reserved promo_stack_reserved =
    (stack_metadata_size + sizeof_stack_struct + reserved + promo_stack_reserved) % 2 ^ 64

-- A promotable frame has at least a return address and a pointer.
unfoldable pub desired_promo_stack_reserved : Limits → (reserved : ℕ) → ℕ
desired_promo_stack_reserved s reserved = align (reserved / 16 * 8 % 2 ^ 64) (s.alignment)

pub sizeof_stack_initial_reserved : Limits → ℕ
sizeof_stack_initial_reserved s = align_stack_reserved s (sizeof_stack_slop s)

pub sizeof_stack_initial_promo_stack_reserved : Limits → ℕ
sizeof_stack_initial_promo_stack_reserved s =
    desired_promo_stack_reserved s (sizeof_stack_initial_reserved s)

unfoldable pub get_promo_stack_size_in_bytes : Words → (p : ℕ) → ℕ
get_promo_stack_size_in_bytes m p = word_sub (promo_stack_top m p) (promo_stack_bot m p)

unfoldable pub get_promo_stack_bot_offset_in_bytes : Words → (p : ℕ) → ℕ
get_promo_stack_bot_offset_in_bytes m p =
    word_sub (promo_stack_bot m p) (get_stack_limit_plus_slop m p)

-- `RESERVED_MAX`
abbrev pub reserved_max : ℕ
reserved_max = (2 ^ 64 - 1) / 4

-- A size by a ratio, cut off at `RESERVED_MAX`.
unfoldable pub scaled : Ratio → (size : ℕ) → ℕ
scaled r size =
    if ltb (reserved_max * r.den) (r.num * size) then reserved_max else r.num * size / r.den

-- `sizeofStackMinimumReserved`, with the size of the frame at the top.
unfoldable pub sizeof_stack_minimum_reserved : Limits → Words → (p top_frame_size : ℕ) → ℕ
sizeof_stack_minimum_reserved s m p top_frame_size =
    align_stack_reserved s
      (word_sub ((stack_used m p + sizeof_stack_slop s) % 2 ^ 64) top_frame_size)

unfoldable pub sizeof_stack_grow_reserved : Limits → Words → (p top_frame_size : ℕ) → ℕ
sizeof_stack_grow_reserved s m p top_frame_size =
    let reserved_grow = scaled (s.stack_current_grow) (stack_reserved m p) in
    let reserved_min = sizeof_stack_minimum_reserved s m p top_frame_size in
    align_stack_reserved s (max reserved_grow reserved_min)

unfoldable pub sizeof_stack_shrink_reserved :
    Limits → Words → (p top_frame_size : ℕ) → (current : Bool) → ℕ
sizeof_stack_shrink_reserved s m p top_frame_size current =
    let used = stack_used m p in
    let reserved = stack_reserved m p in
    let permit = scaled (s.stack_current_permit_reserved) used in
    let current_shrink =
      if leb reserved permit
      then reserved
      else s.stack_current_shrink.num * reserved / s.stack_current_shrink.den in
    let paused_shrink = s.stack_shrink.num * reserved / s.stack_shrink.den in
    let current_max = scaled (s.stack_current_max_reserved) used in
    let paused_max = scaled (s.stack_max_reserved) used in
    let current_min = sizeof_stack_minimum_reserved s m p top_frame_size in
    let size =
      if current
      then max (min current_max current_shrink) current_min
      else max (min paused_max paused_shrink) used in
    min reserved (align_stack_reserved s size)

-- `GC_memcpy` on words: those that begin in the range.
unfoldable pub memcpy : Words → (src dst size : ℕ) → Words
memcpy m src dst size = λ a. if leb dst a && ltb a (dst + size) then m (src + (a - dst)) else m a

-- The loop of `copyStack` over the entries of the promotion stack, from number `i` on.
unfoldable pub copy_promo :
    (left i : ℕ) → Words → (from_bot to_bot from_bottom to_bottom : ℕ) → Words
copy_promo zero i m from_bot to_bot from_bottom to_bottom = m
copy_promo (suc left) i m from_bot to_bot from_bottom to_bottom =
    let elem = m (from_bot + i * 8) in
    let new_elem = (to_bottom + word_sub elem from_bottom) % 2 ^ 64 in
    copy_promo left (i + 1) (write m (to_bot + i * 8) new_elem) from_bot to_bot from_bottom
      to_bottom

-- `copyStack`
unfoldable pub copy_stack : Words → (from to : ℕ) → Words
copy_stack m from to =
    let from_bottom = get_stack_bottom from in
    let to_bottom = get_stack_bottom to in
    let used =
      memcpy (write m (to + 48) (stack_used m from)) from_bottom to_bottom (stack_used m from) in
    let to_promo_bot =
      get_stack_limit_plus_slop used to + get_promo_stack_bot_offset_in_bytes used from in
    let size = get_promo_stack_size_in_bytes used from in
    let placed = write (write used (to + 24) to_promo_bot) (to + 16) (to_promo_bot + size) in
    copy_promo (size / 8) 0 placed (promo_stack_bot used from) to_promo_bot from_bottom to_bottom

-- `isObjptr`: the lowest two bits are 0.
pub is_objptr : ℕ → Bool
is_objptr p = bit_and p 3 == 0

module _ (frame_info : (frame_top : ℕ) → Frame) where
  -- `copyStackFrameToNewStack`
  pub copy_stack_frame_to_new_stack : Words → (frame to : ℕ) → Words
  copy_stack_frame_to_new_stack m frame to =
      let size = (frame_info frame).size in
      let copied = memcpy m (frame - size) (get_stack_bottom to) size in
      let used = write copied (to + 48) size in
      write (write used (to + 24) (get_stack_limit_plus_slop used to)) (to + 16)
        (get_stack_limit_plus_slop used to)

  -- The loop of `frameIsPromotable`, with `left` slots ahead.
  pub has_unpromoted : (left i : ℕ) → Words → (slots : ℕ) → Bool
  has_unpromoted zero i m slots = false
  has_unpromoted (suc left) i m slots =
      not (is_objptr (m (slots + objptr_size * i))) || has_unpromoted left (i + 1) m slots

  pub frame_is_promotable : Words → (cursor : ℕ) → Bool
  frame_is_promotable m cursor = elim ((frame_info cursor).spork_info) [
    | none ↦ false
    | some spork ↦
        has_unpromoted (spork.nest) 0 m (cursor - (frame_info cursor).size + spork.offset)
  ]

  -- The loop of `getPromoStackOldestPromotableFrame` and of `updatePromoStackOldestPromotableFrame`:
  -- where it stops. `none` is a loop that ran out of fuel.
  unfoldable pub oldest_promotable : (fuel : ℕ) → Words → (bot top : ℕ) → Option ℕ
  oldest_promotable zero m bot top = if ltb bot top then none else some bot
  oldest_promotable (suc fuel) m bot top =
      let rest = oldest_promotable fuel m (bot + 8) top in
      if ltb bot top && not (frame_is_promotable m (m bot)) then rest else some bot

  pub get_promo_stack_oldest_promotable_frame : (fuel : ℕ) → Words → (p : ℕ) → Option ℕ
  get_promo_stack_oldest_promotable_frame fuel m p =
      elim (oldest_promotable fuel m (promo_stack_bot m p) (promo_stack_top m p)) [
        | none ↦ none
        | some bot ↦ if leb (promo_stack_top m p) bot then some 0 else some (m bot)
      ]

  pub update_promo_stack_oldest_promotable_frame : (fuel : ℕ) → Words → (p : ℕ) → Option Words
  update_promo_stack_oldest_promotable_frame fuel m p =
      elim (oldest_promotable fuel m (promo_stack_bot m p) (promo_stack_top m p)) [
        | none ↦ none
        | some bot ↦
            if leb (promo_stack_top m p) bot
            then some (write m (p + 24) (promo_stack_top m p))
            else some (write m (p + 24) bot)
      ]
