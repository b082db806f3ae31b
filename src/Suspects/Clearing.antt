-- ===== src/Suspects/Clearing.antt =====
-- The loop of clear_suspect_par_safe in runtime/gc/entanglement-suspects.c.
use mpl.Base.{
  ℕ, suc, ◌+◌, ◌-◌, ◌*◌, ◌/◌, ◌%◌, ◌^◌, ◌<◌, ◌≡◌, inl, inr, refl, subst, ◌∙◌, true, false, ◌&&◌,
  List, [], ◌∷◌, length, ◌==◌, ltb, Bool-cases, arith, ==→eq, ◌≢◌,
}
use mpl.Objects.{Words, write, get_header, header_size}
use mpl.Objects.Masks.{bit_and_clear, bit_and_field}
use mpl.Objects.Pin.{PinType, pin_none, pin_down, pin_any, is_any, unpin_depth_of_h}
use mpl.Objects.PinHeaders.{IsHeader, get_header-write, old_type}
use mpl.Objects.Contention.{
  AreHeaders, no_headers, a_header, IsWritten, as_read, later_write, IsCurrent, quiet, same_again,
  later_current,
}
use mpl.Suspects.{
  suspicious_header, cleared_header, ClearResult, moved, cleared, clear_suspect_par_safe,
}

-- The bit is the only one that is cleared.
cleared_header_value : (h : ℕ) → h < 2 ^ 64 → cleared_header h ≡ h / 2 ^ 31 * 2 ^ 31 + h % 2 ^ 30
unfolding cleared_header
cleared_header_value h l = bit_and_clear 30 31 33 h (omega arith) ∙ omega (arith, l)

-- A header that is cleared: not one of a suspect, and the same in every other bit.
pub record IsCleared (h k : ℕ) : Type 0 where
  pub clear : suspicious_header k ≡ false
  pub low : k % 2 ^ 30 ≡ h % 2 ^ 30
  pub high : k / 2 ^ 31 ≡ h / 2 ^ 31

cleared_header-IsCleared : (h : ℕ) → h < 2 ^ 64 → IsCleared h (cleared_header h)
unfolding suspicious_header
cleared_header-IsCleared h l =
    let v = cleared_header_value h l in
    let field = bit_and_field (cleared_header h) 30 1 in
    record { clear = ground (arith, field, v); low = omega (arith, v); high = omega (arith, v) }

-- Beside the header of an object the memory stays.
abbrev pub SameBeside : (op : ℕ) → (m n : Words) → Type 0
SameBeside op m n = (a : ℕ) → a ≢ op - header_size → n a ≡ m a

-- What the loop may leave, from the memory `m`: an object that is pinned with the type any to a depth
-- above the heap's, with that depth, or a header that is cleared, of an object that is not so pinned.
-- The header that is read is one that the object has, and at the swap still has.
pub data IsHandled (op len : ℕ) (m : Words) (others : List ℕ) : ClearResult → Type 0 where
  is_moved :
      (n : Words) (d : ℕ)
      → IsWritten (get_header m op) others (get_header n op)
      → IsHeader (get_header n op) pin_any
      → unpin_depth_of_h (get_header n op) ≡ d
      → d < len
      → SameBeside op m n
      → IsHandled op len m others (moved n d)
  is_cleared :
      (n : Words) (h : ℕ) (pt : PinType)
      → IsCurrent (get_header m op) others h
      → IsHeader h pt
      → (is_any pt && ltb (unpin_depth_of_h h) len) ≡ false
      → IsCleared h (get_header n op)
      → SameBeside op m n
      → IsHandled op len m others (cleared n)

-- What holds from the memory that another processor leaves holds from the one before.
later-IsHandled :
    (op len : ℕ) (m : Words) (found : ℕ) (rest : List ℕ) (r : ClearResult)
    → IsHandled op len (write m (op - header_size) found) rest r
    → IsHandled op len m (found ∷ rest) r
later-IsHandled op len m found rest _ (is_moved n d w h e l s) =
    is_moved n d
      (later_write
        (subst (λ x. IsWritten x rest (get_header n op)) (get_header-write m op found) w))
      h e l (λ a ne. s a ne ∙ ground (arith, ne))
later-IsHandled op len m found rest _ (is_cleared n h pt c i t k s) =
    is_cleared n h pt
      (later_current (subst (λ x. IsCurrent x rest h) (get_header-write m op found) c)) i t k
      (λ a ne. s a ne ∙ ground (arith, ne))

-- Only one type is that of the test.
any_type : (pt : PinType) → is_any pt ≡ true → pt ≡ pin_any
any_type pin_any e = refl
any_type pin_none e = absurd (ground (arith, e))
any_type pin_down e = absurd (ground (arith, e))

-- The object is moved on, where the test of the loop holds.
stays :
    (m : Words) (op len : ℕ) (pt : PinType) (others : List ℕ)
    → IsHeader (get_header m op) pt
    → (is_any pt && ltb (unpin_depth_of_h (get_header m op)) len) ≡ true
    → IsHandled op len m others (moved m (unpin_depth_of_h (get_header m op)))
stays m op len pt others is e =
    let any : is_any pt ≡ true = ground (arith, e) in
    is_moved m (unpin_depth_of_h (get_header m op)) as_read
      (subst (IsHeader (get_header m op)) (any_type pt any) is) refl (ground (arith, e))
      (λ a ne. refl)

-- The header that is swapped in.
swapped :
    (m : Words) (op len : ℕ) (pt : PinType) (others : List ℕ)
    → IsHeader (get_header m op) pt
    → (is_any pt && ltb (unpin_depth_of_h (get_header m op)) len) ≡ false
    → IsCurrent (get_header m op) others (get_header m op)
    → IsHandled op len m others
        (cleared (write m (op - header_size) (cleared_header (get_header m op))))
swapped m op len pt others is e now =
    let h = get_header m op in
    is_cleared (write m (op - header_size) (cleared_header h)) h pt now is e
      (rw (get_header-write m op (cleared_header h)) (cleared_header-IsCleared h is.word))
      (λ a ne. ground (arith, ne))

-- Whatever headers of objects others write between the reads and the compare-and-swaps of the loop, it
-- ends after one round more than their writes. Either the object has a header by which it is pinned
-- with the type any to a depth above the heap's, and is moved to the list of that depth, or its header
-- is not such a one, was still in memory at the swap, so that no write is lost, and is replaced by
-- the same without the bit of a suspect. No other word of the memory changes.
pub clear_suspect_par_safe_lem :
    (m : Words) (op len : ℕ) (pt : PinType) (others : List ℕ)
    → IsHeader (get_header m op) pt
    → AreHeaders others
    → (r : ClearResult) × (clear_suspect_par_safe (suc (length others)) m op len others ≡ r)
      × IsHandled op len m others r
unfolding clear_suspect_par_safe
clear_suspect_par_safe_lem m op len pt [] is no_headers =
    let typed = old_type (get_header m op) pt is in
    elim (Bool-cases (is_any pt && ltb (unpin_depth_of_h (get_header m op)) len)) [
      | inl e ↦ (_, rw (typed, e, clear_suspect_par_safe) refl, stays m op len pt [] is e)
      | inr e ↦ (_, rw (typed, e, clear_suspect_par_safe) refl, swapped m op len pt [] is e quiet)
    ]
clear_suspect_par_safe_lem m op len pt (found ∷ rest) is (a_header _ fpt _ f hs) =
    let h = get_header m op in
    let typed = old_type h pt is in
    let all = found ∷ rest in
    elim (Bool-cases (is_any pt && ltb (unpin_depth_of_h h) len)) [
      | inl e ↦ (_, rw (typed, e, clear_suspect_par_safe) refl, stays m op len pt all is e)
      | inr e ↦ elim (Bool-cases (found == h)) [
        | inl same ↦ (
          _,
          rw (typed, e, same, clear_suspect_par_safe) refl,
          swapped m op len pt all is e (same_again (==→eq found h same)),
        )
        | inr other ↦
            let there = get_header-write m op found in
            let (r, run, ok) =
              clear_suspect_par_safe_lem (write m (op - header_size) found) op len fpt rest
                (rw there f) hs in
            (
              r,
              rw (typed, e, other, clear_suspect_par_safe) run,
              later-IsHandled op len m found rest r ok,
            )
      ]
    ]
