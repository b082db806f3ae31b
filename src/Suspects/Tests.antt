-- ===== src/Suspects/Tests.antt =====
-- Concrete suspects, and the witness of the theorem on their clearing.
use mpl.Base.{◌≡◌, refl, true, false, [], ◌∷◌, ◌==◌, if◌then◌else◌, arith}
use mpl.Objects.{Words, get_header}
use mpl.Objects.Pin.{pin_any}
use mpl.Objects.PinHeaders.{IsHeader}
use mpl.Objects.Contention.{a_header, no_headers}
use mpl.Suspects.{ClearResult, clear_suspect_par_safe, moved, cleared, mark_suspect, is_suspect}
use mpl.Suspects.Clearing.{IsHandled, clear_suspect_par_safe_lem}

-- A suspect at 124 that is pinned to depth 7, of the type any.
abbrev memory : Words
memory = λ a. if a == 116 then 0x70700003 else 0

pinned_to_seven : IsHeader 0x70700003 pin_any
pinned_to_seven = record { word = omega arith; odd = refl; type = refl }

-- Another processor writes the depth 9 before the compare-and-swap; the heap is at depth 5.
clear_suspect_par_safe_lem_example :
    (r : ClearResult) × (clear_suspect_par_safe 2 memory 124 5 (0x70900003 ∷ []) ≡ r)
    × IsHandled 124 5 memory (0x70900003 ∷ []) r
unfolding get_header
clear_suspect_par_safe_lem_example =
    clear_suspect_par_safe_lem memory 124 5 pin_any (0x70900003 ∷ []) pinned_to_seven (
      a_header 0x70900003 pin_any [] record { word = omega arith; odd = refl; type = refl }
        no_headers)

-- The marked object is a suspect, and marking it again marks nothing.
twice : (is_suspect (mark_suspect memory 124).0 124 ≡ true) × ((mark_suspect memory 124).1 ≡ false)
unfolding is_suspect mark_suspect mpl.Suspects.suspicious_header get_header
twice = (refl, refl)

-- At depth 8 the object is moved to the list of depth 7.
moves : clear_suspect_par_safe 1 memory 124 8 [] ≡ moved memory 7
unfolding clear_suspect_par_safe get_header mpl.Objects.Pin.pin_type
    mpl.Objects.Pin.unpin_depth_of_h
moves = refl
