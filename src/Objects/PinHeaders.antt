-- ===== src/Objects/PinHeaders.antt =====
-- One round of the loop of pinObjectInfo in runtime/gc/pin.c, on the fields of a header.
use mpl.Base.{
  ℕ, ◌-◌, ◌/◌, ◌%◌, ◌^◌, ◌≤◌, ◌<◌, ◌≡◌, ◌⊎◌, inl, inr, refl, sym, ◌∙◌, true, false, not, ◌&&◌, none,
  some, ◌==◌, if◌then◌else◌, Bool-cases, ==→eq, arith,
}
use mpl.Objects.{Words, write, get_header, is_fwd_header, header_size}
use mpl.Objects.Masks.{is_fwd_header_value}
use mpl.Objects.Pin.{
  PinType, pin_none, is_any, same_type, pin_type, unpin_depth_of_h, unpinned_header,
  new_unpin_depth, new_pin_type, new_header, Pinned, pin_header,
}
use mpl.Objects.PinLaws.{
  code, code_bound, new_header_value, unpinned_header_value, pin_type_value, unpin_depth_value,
}

-- A header of an object, not a forwarding pointer, of the pin type `pt`.
pub record IsHeader (h : ℕ) (pt : PinType) : Type 0 where
  pub word : h < 2 ^ 64
  pub odd : h % 2 ≡ 1
  pub type : h / 2 ^ 28 % 2 ^ 2 ≡ code pt

-- The fields of a header that pinning does not touch: the valid bit, the type index and the highest
-- bits.
pub record SameElse (h k : ℕ) : Type 0 where
  pub low : k % 2 ^ 20 ≡ h % 2 ^ 20
  pub high : k / 2 ^ 30 ≡ h / 2 ^ 30

pub get_header-write : (m : Words) (p v : ℕ) → get_header (write m (p - header_size) v) p ≡ v
unfolding get_header
get_header-write m p v = ground arith

pub IsHeader-new :
    (h d : ℕ) (old pt : PinType)
    → IsHeader h old
    → d < 2 ^ 8
    → IsHeader (new_header h d pt) pt
      × SameElse h (new_header h d pt)
      × (unpin_depth_of_h (new_header h d pt) ≡ d)
IsHeader-new h d old pt is l =
    let value = new_header_value h d pt is.word l in
    let bound = code_bound pt in
    let word = is.word in
    let odd = is.odd in
    let depth = unpin_depth_value (new_header h d pt) in
    (
      record { word = omega arith; odd = omega arith; type = omega arith },
      record { low = omega arith; high = omega arith },
      omega arith,
    )

pub IsHeader-unpinned :
    (h : ℕ) (old : PinType)
    → IsHeader h old
    → IsHeader (unpinned_header h) pin_none × SameElse h (unpinned_header h)
IsHeader-unpinned h old is =
    let value = unpinned_header_value h is.word in
    let word = is.word in
    let odd = is.odd in
    (
      record { word = omega arith; odd = omega arith; type = omega arith },
      record { low = omega arith; high = omega arith },
    )

pub not_forwarded : (h : ℕ) (old : PinType) → IsHeader h old → is_fwd_header h ≡ false
not_forwarded h old is = let odd = is.odd in is_fwd_header_value h ∙ ground (arith, odd)

pub old_type : (h : ℕ) (old : PinType) → IsHeader h old → pin_type h ≡ some old
old_type h old is = pin_type_value h old is.odd is.type

-- The depth that an object has after it is pinned, the smaller one if it had one.
pub new_depth-small :
    (h d : ℕ) (old : PinType)
    → d < 2 ^ 8
    → new_unpin_depth h d old < 2 ^ 8 × (new_unpin_depth h d old ≤ d)
unfolding new_unpin_depth
new_depth-small h d old l = ground arith

-- The header that pinning writes.
abbrev pub pinned_header : (h d : ℕ) (pt old : PinType) → ℕ
pinned_header h d pt old = new_header h (new_unpin_depth h d old) (new_pin_type h d pt old)

-- What one undisturbed round of the loop leaves.
abbrev pub pinned : (m : Words) (op d : ℕ) (pt old : PinType) → Pinned
pinned m op d pt old =
    let h = get_header m op in
    let new = pinned_header h d pt old in
    let changes = not (new == h) in
    let other_type = not (same_type (new_pin_type h d pt old) old) in
    record {
      words = if changes then write m (op - header_size) new else m;
      object = op;
      header_change = changes;
      pin_change = changes && other_type;
      counted = changes && (is_any (new_pin_type h d pt old) && other_type);
    }

pub pin_header-pinned :
    (m : Words) (op found d : ℕ) (pt old : PinType)
    → (found == get_header m op) ≡ true
    → pin_header m op (get_header m op) found d pt old ≡ some (pinned m op d pt old)
unfolding pin_header
pin_header-pinned m op found d pt old eq =
    elim (Bool-cases (pinned_header (get_header m op) d pt old == get_header m op)) [
      | inl e ↦ rw (e, pin_header) refl
      | inr e ↦ rw (e, eq, pin_header) refl
    ]

-- Where the compare-and-swap finds another header, the round fails, or it has nothing to change.
pub pin_header-lost :
    (m : Words) (op found d : ℕ) (pt old : PinType)
    → (found == get_header m op) ≡ false
    → (pin_header m op (get_header m op) found d pt old ≡ none)
      ⊎ ((pin_header m op (get_header m op) found d pt old ≡ some (pinned m op d pt old))
          × (pinned_header (get_header m op) d pt old ≡ get_header m op))
unfolding pin_header
pin_header-lost m op found d pt old ne =
    elim (Bool-cases (pinned_header (get_header m op) d pt old == get_header m op)) [
      | inl e ↦ inr (rw (e, pin_header) refl, ==→eq _ _ e)
      | inr e ↦ inl (rw (e, ne, pin_header) refl)
    ]

pub get_header-pinned :
    (m : Words) (op d : ℕ) (pt old : PinType)
    → get_header ((pinned m op d pt old).words) op ≡ pinned_header (get_header m op) d pt old
get_header-pinned m op d pt old =
    let new = pinned_header (get_header m op) d pt old in
    elim (Bool-cases (new == get_header m op)) [
      | inl e ↦ rw e (sym (==→eq new (get_header m op) e))
      | inr e ↦ rw e (get_header-write m op new)
    ]
