-- ===== src/Suspects.antt =====
-- runtime/gc/entanglement-suspects.c: objects that may be entangled are marked by a bit of their
-- header, until the heap that they are pinned for joins.
pub mod Clearing
pub mod Sets
mod Tests
use mpl.Base.{
  ℕ, zero, suc, ◌+◌, ◌-◌, ◌/◌, ◌^◌, Bool, true, false, not, ◌&&◌, Option, none, some, List, [], ◌∷◌,
  ◌++◌, ◌==◌, ltb, if◌then◌else◌, ◌>>=◌, bit_and, bit_or,
}
use mpl.Objects.{Words, write, get_header, header_size}
use mpl.Objects.Pin.{complement, is_any, pin_type, unpin_depth_of_h}

abbrev pub suspect_mask : ℕ
suspect_mask = 0x40000000

abbrev pub suspect_shift : ℕ
suspect_shift = 30

unfoldable pub suspicious_header : (h : ℕ) → Bool
suspicious_header h = bit_and h suspect_mask / 2 ^ suspect_shift == 1

-- `mark_suspect`: whether this call marked the header.
unfoldable pub mark_suspect : Words → (op : ℕ) → Words × Bool
mark_suspect m op =
    let header = get_header m op in
    (write m (op - header_size) (bit_or header suspect_mask), not (suspicious_header header))

unfoldable pub is_suspect : Words → (op : ℕ) → Bool
is_suspect m op = let h = get_header m op in bit_and h 1 == 1 && suspicious_header h

-- What becomes of a suspect: it is moved to the output list of a depth, or its bit is cleared. `died` is
-- the exit by DIE of `pinType`.
pub data ClearResult : Type 0 where
  died : ClearResult
  out_of_fuel : ClearResult
  moved : Words → (depth : ℕ) → ClearResult
  cleared : Words → ClearResult

unfoldable pub cleared_header : (h : ℕ) → ℕ
cleared_header h = bit_and h (complement suspect_mask)

-- `clear_suspect_par_safe`. `others` are the headers that other processors write to the object, one
-- between each header that is read and its compare-and-swap; after them nobody writes.
unfoldable pub clear_suspect_par_safe :
    (fuel : ℕ) → Words → (op len_output : ℕ) → (others : List ℕ) → ClearResult
clear_suspect_par_safe zero m op len_output others = out_of_fuel
clear_suspect_par_safe (suc fuel) m op len_output others =
    let header = get_header m op in
    let depth = unpin_depth_of_h header in
    let done = cleared (write m (op - header_size) (cleared_header header)) in
    elim (pin_type header) [
      | none ↦ died
      | some pt ↦ if is_any pt && ltb depth len_output then moved m depth else elim others [
        | [] ↦ done
        | found ∷ rest ↦
            let again =
              clear_suspect_par_safe fuel (write m (op - header_size) found) op len_output rest in
            if found == header then done else again
      ]
    ]
