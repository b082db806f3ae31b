-- ===== src/Objects/PinLaws.antt =====
-- What the operations of runtime/gc/pin.c do to the fields of a header.
use mpl.Base.{
  ℕ, ◌+◌, ◌-◌, ◌*◌, ◌/◌, ◌%◌, ◌^◌, ◌<◌, ◌≡◌, refl, ap, ap₂, ◌∙◌, none, some, ◌==◌, if◌then◌else◌,
  bit_and, bit_or, arith,
}
use mpl.Base.Bits.{bit_and_mask, bit_or_sum}
use mpl.Objects.Masks.{bit_and_field, bit_and_clear, bit_or_upper}
use mpl.Objects.Pin.{
  PinType, pin_none, pin_down, pin_any, pin_type, get_rep, unpin_depth_of_h, unpinned_header,
  new_header,
}

-- The number of a pin type in the header.
abbrev pub code : PinType → ℕ
code pin_none = 0
code pin_down = 2
code pin_any = 3

pub code_bound : (pt : PinType) → code pt < 4
code_bound pin_none = omega arith
code_bound pin_down = omega arith
code_bound pin_any = omega arith

get_rep_value : (pt : PinType) → get_rep pt ≡ code pt * 2 ^ 28
unfolding get_rep
get_rep_value pin_none = refl
get_rep_value pin_down = refl
get_rep_value pin_any = refl

pub unpin_depth_value : (h : ℕ) → unpin_depth_of_h h ≡ h / 2 ^ 20 % 2 ^ 8
unfolding unpin_depth_of_h
unpin_depth_value h = bit_and_field h 20 8

pub unpinned_header_value :
    (h : ℕ) → h < 2 ^ 64 → unpinned_header h ≡ h / 2 ^ 30 * 2 ^ 30 + h % 2 ^ 20
unfolding unpinned_header
unpinned_header_value h l =
    let first = bit_and_clear 20 28 36 h (omega arith) in
    let second = bit_and_clear 28 30 34 (h / 2 ^ 28 * 2 ^ 28 + h % 2 ^ 20) (omega arith) in
    let short : h / 2 ^ 28 % 2 ^ 36 * 2 ^ 28 + h % 2 ^ 28 % 2 ^ 20
        ≡ h / 2 ^ 28 * 2 ^ 28 + h % 2 ^ 20 =
      omega (arith, l) in
    ap (λ x. bit_and x (2 ^ 64 - 1 - 0x30000000)) (first ∙ short) ∙ second ∙ omega (arith, l)

-- The fields of the header that is written: the depth, the pin type, and what was there before.
pub new_header_value :
    (h d : ℕ) (pt : PinType)
    → h < 2 ^ 64
    → d < 2 ^ 8
    → new_header h d pt ≡ (h / 2 ^ 30 * 4 + code pt) * 2 ^ 28 + (d * 2 ^ 20 + h % 2 ^ 20)
unfolding new_header
new_header_value h d pt lh ld =
    let base = unpinned_header_value h lh in
    let depth = bit_or_upper 20 (h / 2 ^ 30 * 2 ^ 10) (h % 2 ^ 20) d (omega arith) in
    let depth_bits = bit_or_sum 10 (h / 2 ^ 30) d (omega (arith, ld)) in
    let type =
      bit_or_upper 28 (h / 2 ^ 30 * 4) (d * 2 ^ 20 + h % 2 ^ 20) (code pt) (omega (arith, ld)) in
    let type_bits = bit_or_sum 2 (h / 2 ^ 30) (code pt) (code_bound pt) in
    let step : bit_or (unpinned_header h) (d * 2 ^ 20)
        ≡ h / 2 ^ 30 * 4 * 2 ^ 28 + (d * 2 ^ 20 + h % 2 ^ 20) =
      ap (λ x. bit_or x (d * 2 ^ 20)) (base ∙ omega arith) ∙ depth ∙ omega (arith, depth_bits) in
    ap₂ bit_or step (get_rep_value pt) ∙ type ∙ omega (arith, type_bits)

pub pin_type_value :
    (h : ℕ) (pt : PinType) → h % 2 ≡ 1 → h / 2 ^ 28 % 2 ^ 2 ≡ code pt → pin_type h ≡ some pt
unfolding pin_type
pin_type_value h pt odd c = rw (bit_and_field h 28 2, bit_and_mask 1 h, odd, c) (by_code pt)
  where
    by_code :
        (q : PinType)
        → (if code q == 0
            then some pin_none
            else if code q == 2
            then some pin_down
            else if code q == 3
            then some pin_any
            else none)
          ≡ some q
    by_code pin_none = refl
    by_code pin_down = refl
    by_code pin_any = refl
