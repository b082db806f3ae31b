-- ===== src/Objects/Unpinning.antt =====
-- unpinObject and tryUnpinWithDepth of runtime/gc/pin.c.
use mpl.Base.{
  ℕ, ◌-◌, ◌≤◌, ◌≡◌, inl, inr, refl, ap, sym, ◌∙◌, Bool, true, false, not, ◌&&◌, ◌==◌, leb, ltb,
  Bool-cases, eq→==, arith,
}
use mpl.Objects.{Words, write, get_header, header_size}
use mpl.Base.Bits.{bit_and_mask}
use mpl.Objects.Masks.{bit_and_field}
use mpl.Objects.Pin.{
  PinType, pin_none, pin_down, pin_any, is_none, unpin_depth_of_h, unpinned_header, new_unpin_depth,
  new_pin_type, unpin_object, is_pinned, unpin_depth_of, try_unpin_with_depth,
}
use mpl.Objects.PinLaws.{code, unpinned_header_value}
use mpl.Objects.PinHeaders.{
  IsHeader, SameElse, get_header-write, IsHeader-new, IsHeader-unpinned, new_depth-small,
  pinned_header, pinned, get_header-pinned,
}

is_pinned-IsHeader :
    (m : Words) (op : ℕ) (pt : PinType)
    → IsHeader (get_header m op) pt
    → is_pinned m op ≡ not (is_none pt)
unfolding is_pinned
is_pinned-IsHeader m op pt is =
    rw (bit_and_field (get_header m op) 28 2, bit_and_mask 1 (get_header m op), is.odd, is.type)
      (by_code pt)
  where
    by_code : (q : PinType) → (1 == 1 && ltb 0 (code q)) ≡ not (is_none q)
    by_code pin_none = refl
    by_code pin_down = refl
    by_code pin_any = refl

SameElse-refl : (h : ℕ) → SameElse h h
SameElse-refl h = record { low = refl; high = refl }

-- Undisturbed, unpinning succeeds exactly if the depth asked for is at most the object's unpin depth;
-- then the object is not pinned, and else it is as pinned as before. The type index stays.
pub try_unpin_with_depth_lem :
    (m : Words) (op op_depth : ℕ) (pt : PinType)
    → IsHeader (get_header m op) pt
    → let h = get_header m op in
      (r : Words × Bool) × (try_unpin_with_depth m op op_depth h h ≡ r)
      × (r.1 ≡ leb op_depth (unpin_depth_of m op))
      × (is_pinned (r.0) op ≡ not (r.1) && is_pinned m op)
      × SameElse h (get_header (r.0) op)
unfolding try_unpin_with_depth unpin_depth_of
try_unpin_with_depth_lem m op op_depth pt is =
    let h = get_header m op in
    let (cleared, same) = IsHeader-unpinned h pt is in
    let there = get_header-write m op (unpinned_header h) in
    let found = eq→== h h refl in
    let after =
      is_pinned-IsHeader (write m (op - header_size) (unpinned_header h)) op pin_none
        (rw there cleared) in
    elim (Bool-cases (leb op_depth (unpin_depth_of_h h))) [
      | inl e ↦ (
        (write m (op - header_size) (unpinned_header h), true),
        rw (e, found, try_unpin_with_depth) refl,
        sym e,
        after,
        rw there same,
      )
      | inr e ↦ ((m, false), rw (e, try_unpin_with_depth) refl, sym e, refl, SameElse-refl h)
    ]

-- Unpinning forgets a pinning: the object is not pinned, and has the header that unpinning would have
-- given it before.
pub unpin_object-pinned :
    (m : Words) (q d : ℕ) (pt old : PinType)
    → IsHeader (get_header m q) old
    → d ≤ 255
    → (is_pinned (unpin_object ((pinned m q d pt old).words) q) q ≡ false)
      × (get_header (unpin_object ((pinned m q d pt old).words) q) q
          ≡ get_header (unpin_object m q) q)
unfolding unpin_object
unpin_object-pinned m q d pt old is le =
    let h = get_header m q in
    let (small, _) = new_depth-small h d old (omega (arith, le)) in
    let (a, b, c) =
      IsHeader-new h (new_unpin_depth h d old) old (new_pin_type h d pt old) is small in
    let new = get_header-pinned m q d pt old in
    let k = pinned_header h d pt old in
    let low = b.low in
    let high = b.high in
    let same : unpinned_header k ≡ unpinned_header h =
      unpinned_header_value k a.word
      ∙ omega (arith, low, high)
      ∙ sym (unpinned_header_value h is.word) in
    let m2 = (pinned m q d pt old).words in
    let (cleared, _) = IsHeader-unpinned k (new_pin_type h d pt old) a in
    let there : get_header (unpin_object m2 q) q ≡ unpinned_header k =
      get_header-write m2 q (unpinned_header (get_header m2 q)) ∙ ap unpinned_header new in
    (
      is_pinned-IsHeader (unpin_object m2 q) q pin_none (rw there cleared),
      there ∙ same ∙ sym (get_header-write m q (unpinned_header h)),
    )
