-- ===== src/Objects/Pin.antt =====
-- runtime/gc/pin.c and pin.h: objects are pinned by bits of their headers, until a depth.
use mpl.Base.{
  ℕ, zero, suc, ◌-◌, ◌*◌, ◌/◌, ◌^◌, Bool, true, false, not, ◌&&◌, ◌||◌, Option, none, some, List,
  [], ◌∷◌, ◌==◌, leb, ltb, if◌then◌else◌, min, bit_and, bit_or,
}
use mpl.Objects.{Words, write, get_header, is_fwd_header, header_size}

abbrev pub unpin_depth_bits : ℕ
unpin_depth_bits = 8

abbrev pub unpin_depth_mask : ℕ
unpin_depth_mask = 0xFF00000

abbrev pub unpin_depth_shift : ℕ
unpin_depth_shift = 20

abbrev pub pin_mask : ℕ
pin_mask = 0x30000000

abbrev pub pin_shift : ℕ
pin_shift = 28

-- `~mask` on a header.
abbrev pub complement : ℕ → ℕ
complement mask = 2 ^ 64 - 1 - mask

pub data PinType : Type 0 where
  pin_none : PinType
  pin_down : PinType
  pin_any : PinType

-- `pt == PIN_NONE` and `pt == PIN_ANY`
abbrev pub is_none : PinType → Bool
is_none pin_none = true
is_none pin_down = false
is_none pin_any = false

abbrev pub is_any : PinType → Bool
is_any pin_none = false
is_any pin_down = false
is_any pin_any = true

abbrev pub same_type : PinType → PinType → Bool
same_type pin_none pt = is_none pt
same_type pin_any pt = is_any pt
same_type pin_down pt = not (is_none pt || is_any pt)

-- `pinType`; `none` is the exit by DIE.
unfoldable pub pin_type : (h : ℕ) → Option PinType
pin_type h =
    let t = bit_and h pin_mask / 2 ^ pin_shift in
    if bit_and h 1 == 0
    then some pin_none
    else if t == 0
    then some pin_none
    else if t == 2
    then some pin_down
    else if t == 3
    then some pin_any
    else none

unfoldable pub max_pt : (pt1 pt2 : PinType) → PinType
max_pt pin_none pt2 = pt2
max_pt pin_any pt2 = pin_any
max_pt pin_down pt2 = if is_any pt2 then pin_any else pin_down

unfoldable pub get_rep : PinType → ℕ
get_rep pin_none = 0
get_rep pin_down = 0x20000000
get_rep pin_any = 0x30000000

unfoldable pub unpin_depth_of_h : (h : ℕ) → ℕ
unpin_depth_of_h h = bit_and h unpin_depth_mask / 2 ^ unpin_depth_shift

-- The header without its depth and its pin type.
unfoldable pub unpinned_header : (h : ℕ) → ℕ
unpinned_header h = bit_and (bit_and h (complement unpin_depth_mask)) (complement pin_mask)

-- The header that `pinObjectInfo` writes in place of a valid one of the type `old`.
unfoldable pub new_unpin_depth : (header unpin_depth : ℕ) → (old : PinType) → ℕ
new_unpin_depth header unpin_depth old =
    if is_none old then unpin_depth else min (unpin_depth_of_h header) unpin_depth

unfoldable pub new_pin_type : (header unpin_depth : ℕ) → (pt old : PinType) → PinType
new_pin_type header unpin_depth pt old =
    if ltb (new_unpin_depth header unpin_depth old) (unpin_depth_of_h header)
    then pt
    else max_pt pt old

unfoldable pub new_header : (header unpin_depth : ℕ) → (nt : PinType) → ℕ
new_header header unpin_depth nt =
    bit_or (bit_or (unpinned_header header) (unpin_depth * 2 ^ unpin_depth_shift)) (get_rep nt)

-- What `pinObjectInfo` leaves: the memory, the object that it returns, its two flags, and the object
-- whose size is added to the statistics.
pub record Pinned : Type 0 where
  pub words : Words
  pub object : ℕ
  pub header_change : Bool
  pub pin_change : Bool
  pub counted : Bool

pub data PinResult : Type 0 where
  died : PinResult
  out_of_fuel : PinResult
  returned : Pinned → PinResult

-- The part of the loop after the header is read, up to the compare-and-swap, which finds `found`:
-- `none` is a failed swap.
unfoldable pub pin_header :
    Words → (op header found unpin_depth : ℕ) → (pt old : PinType) → Option Pinned
pin_header m op header found unpin_depth pt old =
    let nt = new_pin_type header unpin_depth pt old in
    let new = new_header header (new_unpin_depth header unpin_depth old) nt in
    let did_pin_change = not (same_type nt old) in
    if new == header
    then some record {
      words = m;
      object = op;
      header_change = false;
      pin_change = false;
      counted = false;
    }
    else if found == header
    then some record {
      words = write m (op - header_size) new;
      object = op;
      header_change = true;
      pin_change = did_pin_change;
      counted = is_any nt && did_pin_change;
    }
    else none

-- The loop of `pinObjectInfo`. `others` are the headers that other processors write to the object at
-- hand, one between each header that is read and its compare-and-swap; after them nobody writes.
unfoldable pub pin_loop :
    (fuel : ℕ) → Words → (op unpin_depth : ℕ) → PinType → (others : List ℕ) → PinResult
pin_loop zero m op unpin_depth pt others = out_of_fuel
pin_loop (suc fuel) m op unpin_depth pt others =
    let header = get_header m op in
    let forwarded = pin_loop fuel m header unpin_depth pt others in
    if is_fwd_header header then forwarded else elim (pin_type header) [
      | none ↦ died
      | some old ↦ elim others [
        | [] ↦ elim (pin_header m op header header unpin_depth pt old) [
          | none ↦ out_of_fuel
          | some p ↦ returned p
        ]
        | found ∷ rest ↦ elim (pin_header m op header found unpin_depth pt old) [
          | none ↦ pin_loop fuel (write m (op - header_size) found) op unpin_depth pt rest
          | some p ↦ returned p
        ]
      ]
    ]

-- `pinObjectInfo`; a depth that does not fit its bits ends the program.
unfoldable pub pin_object_info :
    (fuel : ℕ) → Words → (op unpin_depth : ℕ) → PinType → (others : List ℕ) → PinResult
pin_object_info fuel m op unpin_depth pt others =
    if ltb (2 ^ unpin_depth_bits - 1) unpin_depth
    then died
    else pin_loop fuel m op unpin_depth pt others

-- `pinObject`
pub pin_object :
    (fuel : ℕ) → Words → (op unpin_depth : ℕ) → PinType → (others : List ℕ) → Option (Words × Bool)
pin_object fuel m op unpin_depth pt others =
    elim (pin_object_info fuel m op unpin_depth pt others) [
      | returned p ↦ some (p.words, p.header_change)
      | _ ↦ none
    ]

unfoldable pub unpin_object : Words → (op : ℕ) → Words
unpin_object m op = write m (op - header_size) (unpinned_header (get_header m op))

unfoldable pub is_pinned : Words → (op : ℕ) → Bool
is_pinned m op =
    let h = get_header m op in bit_and h 1 == 1 && ltb 0 (bit_and h pin_mask / 2 ^ pin_shift)

unfoldable pub unpin_depth_of : Words → (op : ℕ) → ℕ
unpin_depth_of m op = unpin_depth_of_h (get_header m op)

-- `tryUnpinWithDepth`, where the header that is read for the comparison is `header`, the one that is
-- read again for the new value is `again`, and the compare-and-swap finds what the memory has.
unfoldable pub try_unpin_with_depth : Words → (op op_depth header again : ℕ) → Words × Bool
try_unpin_with_depth m op op_depth header again =
    if leb op_depth (unpin_depth_of_h header)
    then if get_header m op == header
      then (write m (op - header_size) (unpinned_header again), true)
      else (m, false)
    else (m, false)
