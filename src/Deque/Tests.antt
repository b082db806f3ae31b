-- ===== src/Deque/Tests.antt =====
-- Runs of the deque at concrete states.
use native.Mathlib.Omega.{arith}
use mpl.Base.{◌+◌, ◌-◌, ◌%◌, ◌^◌, ◌≤◌, ◌≡◌, refl, ◌⊎◌, true, false, [], ◌∷◌}
use mpl.Deque.{
  Deque, returned, unpack_tag, unpack_idx, pack_tag_idx, push_bot, try_pop_bot, try_pop_top,
  set_depth,
}
use mpl.Deque.Pack.{unpack-pack}
use mpl.Deque.Refine.{
  IsValid, contents, push_back, pop_back, pop_front, push_bot_refines, try_pop_bot_refines,
  try_pop_top_refines,
}
use mpl.Deque.Depth.{set_depth_tag}
use mpl.Deque.Race.{run, start, owner_done, thief_done}
use mpl.Deque.Race.Once.{race_exactly_one}

-- Tag 3, the elements 7 and 8 at the indices 1 and 2.
abbrev two : Deque
two = record { top = 193; bot = 3; cells = 0 ∷ 7 ∷ 8 ∷ 0 ∷ [] }

-- Tag 2 ^ 26, empty at index 1.
abbrev worn : Deque
worn = record { top = 2 ^ 32 + 1; bot = 1; cells = 0 ∷ 7 ∷ 8 ∷ 0 ∷ [] }

two-IsValid : IsValid two
unfolding unpack_idx
two-IsValid = record { within = omega arith; room = omega arith; small = omega arith }

unpack-pack_example :
    (unpack_tag (pack_tag_idx 64 3 1) ≡ 3) × (unpack_idx (pack_tag_idx 64 3 1) ≡ 1)
unpack-pack_example = unpack-pack 3 1 (omega arith) (omega arith)

push_bot_refines_example :
    let (ok, d') = push_bot two 9 in
    ((ok, contents d') ≡ push_back (4 - unpack_idx 193) (contents two) 9)
    × IsValid d'
    × (d'.top ≡ 193)
push_bot_refines_example = push_bot_refines two 9 two-IsValid

try_pop_bot_refines_example :
    let (o, d') = try_pop_bot 0 two in
    ((o, contents d') ≡ pop_back 0 (contents two))
    × IsValid d'
    × (unpack_tag d'.top ≤ unpack_tag 193 + 1)
unfolding unpack_tag
try_pop_bot_refines_example = try_pop_bot_refines 0 two two-IsValid (omega arith)

try_pop_top_refines_example :
    let (o, d') = try_pop_top 0 two in
    ((o, contents d') ≡ pop_front 0 (contents two))
    × IsValid d'
    × (unpack_tag d'.top ≡ unpack_tag 193)
unfolding unpack_tag
try_pop_top_refines_example = try_pop_top_refines 0 two two-IsValid (omega arith)

set_depth_tag_example : unpack_tag 67 ≡ (unpack_tag (2 ^ 32 + 1) + 1) % 2 ^ 26
unfolding unpack_tag set_depth pack_tag_idx unpack_idx
set_depth_tag_example =
    set_depth_tag worn (record worn { bot = 3; top = 67 }) 3 (omega arith) (omega arith) refl

race_exactly_one_example :
    let s = run 0 (true ∷ false ∷ true ∷ false ∷ false ∷ true ∷ []) (start 3 1 (0 ∷ 7 ∷ [])) in
    (((s.owner ≡ owner_done (returned 7)) × (s.thief ≡ thief_done (returned 0)))
      ⊎ ((s.owner ≡ owner_done (returned 0)) × (s.thief ≡ thief_done (returned 7))))
    × (s.deque.bot ≡ unpack_idx s.deque.top)
race_exactly_one_example =
    race_exactly_one 0 3 1 7 (0 ∷ 7 ∷ []) (true ∷ false ∷ true ∷ false ∷ false ∷ true ∷ [])
      (omega arith) (omega arith) refl (omega arith) (omega arith) (omega arith)
