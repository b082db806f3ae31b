-- ===== src/Objects/Contention.antt =====
-- pinObjectInfo of runtime/gc/pin.c where other processors write to the header.
use mpl.Base.{
  ℕ, suc, ◌-◌, ◌^◌, ◌<◌, ◌≡◌, ◌⊎◌, inl, inr, refl, subst, ◌∙◌, ltb, max, if◌then◌else◌, ==→eq,
  false, List, [], ◌∷◌, length, ◌==◌, Bool-cases, arith,
}
use mpl.Objects.{Words, write, get_header, header_size}
use mpl.Objects.Pin.{
  PinType, pin_none, pin_down, pin_any, is_none, max_pt, unpin_depth_of_h, new_unpin_depth,
  new_pin_type, Pinned, returned, pin_loop,
}
use mpl.Objects.PinHeaders.{
  IsHeader, SameElse, get_header-write, IsHeader-new, not_forwarded, old_type, new_depth-small,
  pinned, pin_header-pinned, pin_header-lost, get_header-pinned,
}
use mpl.Objects.PinLaws.{code}
use mpl.Objects.Pinning.{
  arrived, pin_loop-Forwards, depth_after, depth_after_lem, code-new_pin_type,
}

-- The type that an object gets is none only if none was asked for.
new_pin_type-some :
    (h d : ℕ) (pt old : PinType) → is_none pt ≡ false → is_none (new_pin_type h d pt old) ≡ false
unfolding new_pin_type max_pt
new_pin_type-some h d pin_none old asked = absurd (ground (arith, asked))
new_pin_type-some h d pin_down pin_none asked = ground arith
new_pin_type-some h d pin_down pin_down asked = ground arith
new_pin_type-some h d pin_down pin_any asked = ground arith
new_pin_type-some h d pin_any old asked = ground arith

-- The headers that others write are headers of objects.
pub data AreHeaders : List ℕ → Type 0 where
  no_headers : AreHeaders []
  a_header :
      (h : ℕ) (pt : PinType) (hs : List ℕ) → IsHeader h pt → AreHeaders hs → AreHeaders (h ∷ hs)

-- `h` is a header that the object has: the first one, or one that others write.
pub data IsWritten : (start : ℕ) (others : List ℕ) (h : ℕ) → Type 0 where
  as_read : {start : ℕ} {others : List ℕ} → IsWritten start others start
  later_write :
      {start found h : ℕ} {rest : List ℕ}
      → IsWritten found rest h
      → IsWritten start (found ∷ rest) h

-- `h` is a header that the object has, and still has at the compare-and-swap: nothing is written after
-- it in the round, or the same again.
pub data IsCurrent : (start : ℕ) (others : List ℕ) (h : ℕ) → Type 0 where
  quiet : {start : ℕ} → IsCurrent start [] start
  same_again :
      {start found : ℕ} {rest : List ℕ} → found ≡ start → IsCurrent start (found ∷ rest) start
  later_current :
      {start found h : ℕ} {rest : List ℕ}
      → IsCurrent found rest h
      → IsCurrent start (found ∷ rest) h

-- What the loop returns: the object pinned from the header `from`, which is swapped as it is in memory,
-- so that no write of others is lost, or stays as it is.
pub record IsPinnedFrom (op d : ℕ) (pt : PinType) (start : ℕ) (others : List ℕ) (r : Pinned)
    : Type 0 where
  pub from : ℕ
  pub old : PinType
  pub new : PinType
  pub object : r.object ≡ op
  pub seen :
      IsCurrent start others from ⊎ (IsWritten start others from × (get_header r.words op ≡ from))
  pub was : IsHeader from old
  pub is : IsHeader (get_header r.words op) new
  pub some_type : is_none new ≡ false
  pub depth : unpin_depth_of_h (get_header r.words op) ≡ depth_after (unpin_depth_of_h from) old d
  pub type : code new ≡ (
      if ltb (unpin_depth_of_h (get_header r.words op)) (unpin_depth_of_h from)
      then code pt
      else max (code pt) (code old))
  pub same : SameElse from (get_header r.words op)

later-IsPinnedFrom :
    (op d : ℕ) (pt : PinType) (start found : ℕ) (rest : List ℕ) (r : Pinned)
    → IsPinnedFrom op d pt found rest r
    → IsPinnedFrom op d pt start (found ∷ rest) r
later-IsPinnedFrom op d pt start found rest r p = record {
  from = p.from;
  old = p.old;
  new = p.new;
  object = p.object;
  seen = elim p.seen [ inl c ↦ inl (later_current c) | inr (w, e) ↦ inr (later_write w, e) ];
  was = p.was;
  is = p.is;
  some_type = p.some_type;
  depth = p.depth;
  type = p.type;
  same = p.same;
}

pinned-IsPinnedFrom :
    (m : Words) (op d : ℕ) (pt old : PinType) (others : List ℕ)
    → IsHeader (get_header m op) old
    → is_none pt ≡ false
    → d < 2 ^ 8
    → let r = pinned m op d pt old in
      IsCurrent (get_header m op) others (get_header m op)
        ⊎ (get_header r.words op ≡ get_header m op)
      → IsPinnedFrom op d pt (get_header m op) others r
pinned-IsPinnedFrom m op d pt old others is asked l seen =
    let h = get_header m op in
    let (small, _) = new_depth-small h d old l in
    let (a, b, c) =
      IsHeader-new h (new_unpin_depth h d old) old (new_pin_type h d pt old) is small in
    let written = get_header-pinned m op d pt old in
    let depth = c ∙ depth_after_lem h d old in
    record {
      from = h;
      old = old;
      new = new_pin_type h d pt old;
      object = refl;
      seen = elim seen [ inl now ↦ inl now | inr e ↦ inr (as_read, e) ];
      was = is;
      is = rw written a;
      some_type = new_pin_type-some h d pt old asked;
      depth = rw written depth;
      type = rw (written, depth) (code-new_pin_type h d pt old);
      same = rw written b;
    }

-- Whatever headers of objects others write between the reads and the compare-and-swaps of the loop, it
-- ends after one round more than their writes, and loses none of these: the object that it returns is
-- pinned from a header that was still in memory at the swap, or that needed no change. From that
-- header the depth is the smaller of its depth and the new one, the type is the new one if the depth
-- has fallen and the stronger of both if not, and the other bits stay.
pub pin_loop-AreHeaders :
    (m : Words) (op d : ℕ) (pt old : PinType) (others : List ℕ)
    → IsHeader (get_header m op) old
    → AreHeaders others
    → is_none pt ≡ false
    → d < 2 ^ 8
    → (r : Pinned) × (pin_loop (suc (length others)) m op d pt others ≡ returned r)
      × IsPinnedFrom op d pt (get_header m op) others r
unfolding pin_loop
pin_loop-AreHeaders m op d pt old [] is no_headers asked l = (
  pinned m op d pt old,
  pin_loop-Forwards m 0 1 op op d pt old (arrived op) is (omega arith),
  pinned-IsPinnedFrom m op d pt old [] is asked l (inl quiet),
)
pin_loop-AreHeaders m op d pt old (found ∷ rest) is (a_header _ fpt _ f hs) asked l =
    let h = get_header m op in
    let fwd = not_forwarded h old is in
    let typed = old_type h old is in
    let done = pinned-IsPinnedFrom m op d pt old (found ∷ rest) is asked l in
    elim (Bool-cases (found == h)) [
      | inl same ↦ (
        pinned m op d pt old,
        rw (fwd, typed, pin_header-pinned m op found d pt old same, pin_loop) refl,
        done (inl (same_again (==→eq found h same))),
      )
      | inr other ↦ elim (pin_header-lost m op found d pt old other) [
        | inl lost ↦
            let there = get_header-write m op found in
            let (r, eq, p) =
              pin_loop-AreHeaders (write m (op - header_size) found) op d pt fpt rest (rw there f)
                hs asked l in
            (
              r,
              rw (fwd, typed, lost, pin_loop) eq,
              later-IsPinnedFrom op d pt h found rest r
                  (subst (λ x. IsPinnedFrom op d pt x rest r) there p),
            )
        | inr (kept, e) ↦ (
          pinned m op d pt old,
          rw (fwd, typed, kept, pin_loop) refl,
          done (inr (get_header-pinned m op d pt old ∙ e)),
        )
      ]
    ]
