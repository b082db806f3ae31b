-- ===== src/Objects/Pinning.antt =====
-- What pinObjectInfo of runtime/gc/pin.c leaves in the header of an object, undisturbed.
use mpl.Base.{
  ℕ, zero, suc, ◌≤◌, ◌<◌, ◌≡◌, inl, inr, refl, max, min, ◌∙◌, true, [], ltb, if◌then◌else◌,
  Bool-cases, eq→==, ge→ltb, arith,
}
use mpl.Objects.{Words, get_header, is_fwd_header}
use mpl.Objects.Pin.{
  PinType, pin_none, pin_down, pin_any, max_pt, unpin_depth_of_h, new_unpin_depth, new_pin_type,
  Pinned, died, returned, pin_loop, pin_object_info, unpin_depth_of,
}
use mpl.Objects.PinLaws.{code}
use mpl.Objects.PinHeaders.{
  IsHeader, SameElse, IsHeader-new, not_forwarded, old_type, new_depth-small, pinned,
  pin_header-pinned, get_header-pinned,
}

-- The chain of forwarding pointers, of `n` steps, from one object to another.
pub data Forwards (m : Words) : ℕ → ℕ → ℕ → Type 0 where
  arrived : (q : ℕ) → Forwards m zero q q
  forward :
      (n p q : ℕ)
      → is_fwd_header (get_header m p) ≡ true
      → Forwards m n (get_header m p) q
      → Forwards m (suc n) p q

pub pin_loop-Forwards :
    (m : Words) (n fuel p q d : ℕ) (pt old : PinType)
    → Forwards m n p q
    → IsHeader (get_header m q) old
    → n < fuel
    → pin_loop fuel m p d pt [] ≡ returned (pinned m q d pt old)
unfolding pin_loop
pin_loop-Forwards m n zero p q d pt old chain is enough = absurd (omega (arith, enough))
pin_loop-Forwards m zero (suc fuel) p q d pt old (arrived _) is enough =
    rw
      (
        not_forwarded (get_header m p) old is,
        old_type (get_header m p) old is,
        pin_header-pinned m p (get_header m p) d pt old
            (eq→== (get_header m p) (get_header m p) refl),
        pin_loop,
      )
      refl
pin_loop-Forwards m (suc n) (suc fuel) p q d pt old (forward _ _ _ fwd rest) is enough =
    rw (fwd, pin_loop)
      (pin_loop-Forwards m n fuel (get_header m p) q d pt old rest is (omega (arith, enough)))

-- Pinning follows the forwarding pointers to an object with a valid header, and ends, with fuel for
-- every pointer and one round; it dies exactly for depths above 255.
pub pin_object_info-Forwards :
    (m : Words) (n fuel p q d : ℕ) (pt old : PinType)
    → Forwards m n p q
    → IsHeader (get_header m q) old
    → n < fuel
    → pin_object_info fuel m p d pt []
      ≡ (if ltb 255 d then died else returned (pinned m q d pt old))
unfolding pin_object_info
pin_object_info-Forwards m n fuel p q d pt old chain is enough =
    rw (pin_loop-Forwards m n fuel p q d pt old chain is enough, pin_object_info) refl

code-max_pt : (a b : PinType) → code (max_pt a b) ≡ max (code a) (code b)
unfolding max_pt
code-max_pt pin_none b = omega arith
code-max_pt pin_down pin_none = refl
code-max_pt pin_down pin_down = refl
code-max_pt pin_down pin_any = refl
code-max_pt pin_any pin_none = refl
code-max_pt pin_any pin_down = refl
code-max_pt pin_any pin_any = refl

-- The smaller of two depths, where an object that is not pinned has none.
abbrev pub depth_after : (depth : ℕ) (old : PinType) (d : ℕ) → ℕ
depth_after depth pin_none d = d
depth_after depth pin_down d = min depth d
depth_after depth pin_any d = min depth d

pub depth_after_lem :
    (h d : ℕ) (old : PinType) → new_unpin_depth h d old ≡ depth_after (unpin_depth_of_h h) old d
unfolding new_unpin_depth
depth_after_lem h d pin_none = refl
depth_after_lem h d pin_down = refl
depth_after_lem h d pin_any = refl

pub code-new_pin_type :
    (h d : ℕ) (pt old : PinType)
    → code (new_pin_type h d pt old) ≡ (
        if ltb (depth_after (unpin_depth_of_h h) old d) (unpin_depth_of_h h)
        then code pt
        else max (code pt) (code old))
unfolding new_pin_type
code-new_pin_type h d pt old =
    let depth = depth_after_lem h d old in
    elim (Bool-cases (ltb (depth_after (unpin_depth_of_h h) old d) (unpin_depth_of_h h))) [
      | inl e ↦ rw (depth, e, new_pin_type) refl
      | inr e ↦ rw (depth, e, new_pin_type) (code-max_pt pt old)
    ]

-- Pinning to a depth of at most 255 returns the object at the end of the forwarding pointers, pinned
-- to the smaller of its depth and the new one. If that is below its depth the type is the new one,
-- and otherwise the stronger of both, in the order none, down, any. The valid bit, the type index and
-- the highest bits stay.
pub pin_object_info_lem :
    (m : Words) (n fuel p q d : ℕ) (pt old : PinType)
    → Forwards m n p q
    → IsHeader (get_header m q) old
    → n < fuel
    → d ≤ 255
    → (r : Pinned) × (nt : PinType) × (pin_object_info fuel m p d pt [] ≡ returned r)
      × (r.object ≡ q)
      × IsHeader (get_header r.words q) nt
      × (unpin_depth_of r.words q ≡ depth_after (unpin_depth_of m q) old d)
      × (code nt ≡ (
          if ltb (unpin_depth_of r.words q) (unpin_depth_of m q)
          then code pt
          else max (code pt) (code old)))
      × SameElse (get_header m q) (get_header r.words q)
unfolding unpin_depth_of
pin_object_info_lem m n fuel p q d pt old chain is enough le =
    let h = get_header m q in
    let (small, _) = new_depth-small h d old (omega (arith, le)) in
    let (a, b, c) =
      IsHeader-new h (new_unpin_depth h d old) old (new_pin_type h d pt old) is small in
    let new = get_header-pinned m q d pt old in
    let depth = c ∙ depth_after_lem h d old in
    (
      pinned m q d pt old,
      new_pin_type h d pt old,
      pin_object_info-Forwards m n fuel p q d pt old chain is enough ∙ rw (ge→ltb 255 d le) refl,
      refl,
      rw new a,
      rw new depth,
      rw (new, depth) (code-new_pin_type h d pt old),
      rw new b,
    )
