-- ===== src/WorkList/Frames.antt =====
-- The fields of a stack that advanceOneField of runtime/gc/cc-work-list.c comes by: those of its
-- frames, from the youngest on; frames without pointers are passed over.
use mpl.Base.{
  ℕ, zero, suc, ◌+◌, ◌-◌, ◌%◌, ◌^◌, ◌≤◌, ◌<◌, ◌≡◌, ◌⊎◌, inl, inr, refl, ap, ap₂, sym, ◌∙◌, true,
  false, some, List, [], ◌∷◌, ◌++◌, length, length-append, nth, ◌==◌, ltb, eq→==, lt→ltb, ltb→lt,
  ge→ltb, Bool-cases, arith,
}
use mpl.Objects.{Words, ObjectType, stack_tag, get_header, split_header}
use mpl.WorkList.{
  FrameInfo, stack, Elem, get_stack_bottom, find_stack_non_empty_frame_top, advance_stack,
  advance_one_field_of, advance_one_field,
}
use mpl.WorkList.Fields.{fields_from, more_fields, last_field}

-- The addresses at some offsets from the start of a frame.
abbrev pub at_offsets : (start : ℕ) → List ℕ → List ℕ
at_offsets start [] = []
at_offsets start (o ∷ os) = (start + o) ∷ at_offsets start os

abbrev pub drop : ℕ → List ℕ → List ℕ
drop zero os = os
drop (suc i) [] = []
drop (suc i) (o ∷ os) = drop i os

length-at_offsets : (start : ℕ) (os : List ℕ) → length (at_offsets start os) ≡ length os
length-at_offsets start [] = refl
length-at_offsets start (o ∷ os) = ap suc (length-at_offsets start os)

nth-drop :
    (i : ℕ) (os : List ℕ)
    → i < length os
    → (o : ℕ) × (nth os i ≡ some o) × (drop i os ≡ o ∷ drop (i + 1) os)
nth-drop i [] h = absurd (omega (arith, h))
nth-drop zero (o ∷ os) h = (o, refl, refl)
nth-drop (suc i) (o ∷ os) h =
    let (x, a, b) = nth-drop i os (omega (arith, h)) in
    (x, a, b ∙ ap (λ k. x ∷ drop k (o ∷ os)) (next i))
  where
    next : (i : ℕ) → suc (i + 1) ≡ suc i + 1
    next i = omega arith

empty : (os : List ℕ) → ltb 0 (length os) ≡ false → os ≡ []
empty [] h = refl
empty (o ∷ os) h = absurd (ground (arith, h))

drop-all : (os : List ℕ) → drop (length os) os ≡ []
drop-all [] = refl
drop-all (o ∷ os) = drop-all os

module _ (frame_info : ℕ → FrameInfo) (bottom : ℕ) where
  -- The ends of the frames of a stack, from the youngest frame down to the bottom.
  pub data Frames : ℕ → List ℕ → Type 0 where
    no_frame : (top : ℕ) → top ≤ bottom → Frames top []
    a_frame :
        (top : ℕ) (tops : List ℕ)
        → bottom < top
        → Frames (top - (frame_info top).size) tops
        → Frames top (top ∷ tops)

  -- The pointers of those frames.
  abbrev pub frame_fields : List ℕ → List ℕ
  frame_fields [] = []
  frame_fields (top ∷ tops) =
      at_offsets (top - (frame_info top).size) ((frame_info top).offsets) ++ frame_fields tops

  Frames-below :
      (top x : ℕ) (tops : List ℕ)
      → Frames top (x ∷ tops)
      → Frames (top - (frame_info top).size) tops
  Frames-below top x tops (a_frame _ _ above frames) = frames

  length-frame :
      (top : ℕ) (tops : List ℕ)
      → length (frame_fields (top ∷ tops))
        ≡ length ((frame_info top).offsets) + length (frame_fields tops)
  length-frame top tops =
      length-append (at_offsets (top - (frame_info top).size) ((frame_info top).offsets))
        (frame_fields tops)
      ∙ ap (λ k. k + length (frame_fields tops))
          (length-at_offsets (top - (frame_info top).size) ((frame_info top).offsets))

  -- The search passes over frames without pointers only.
  pub find_lem :
      (fuel top : ℕ) (tops : List ℕ)
      → Frames top tops
      → length tops ≤ fuel
      → ((find_stack_non_empty_frame_top frame_info fuel bottom top ≡ some 0)
          × (frame_fields tops ≡ []))
        ⊎ ((found : ℕ) × (rest : List ℕ) × (find_stack_non_empty_frame_top frame_info fuel bottom
                top
              ≡ some found)
            × Frames found (found ∷ rest)
            × (bottom < found)
            × (0 < length ((frame_info found).offsets))
            × (frame_fields tops ≡ frame_fields (found ∷ rest))
            × (length rest < length tops))
  unfolding find_stack_non_empty_frame_top
  find_lem zero top [] (no_frame _ below) enough =
      inl (rw (ge→ltb bottom top below, find_stack_non_empty_frame_top) refl, refl)
  find_lem (suc fuel) top [] (no_frame _ below) enough =
      inl (rw (ge→ltb bottom top below, find_stack_non_empty_frame_top) refl, refl)
  find_lem zero top (x ∷ tops) frames enough = absurd (omega (arith, enough))
  find_lem (suc fuel) top (_ ∷ tops) (a_frame _ _ above frames) enough =
      let offsets = (frame_info top).offsets in
      let start = top - (frame_info top).size in
      let inside = lt→ltb bottom top above in
      elim (Bool-cases (ltb 0 (length offsets))) [
        | inl e ↦ inr (
          top,
          tops,
          rw (inside, e, find_stack_non_empty_frame_top) refl,
          a_frame top tops above frames,
          above,
          ltb→lt 0 (length offsets) e,
          refl,
          omega arith,
        )
        | inr e ↦
            let skipped : frame_fields (top ∷ tops) ≡ frame_fields tops =
              ap (λ os. at_offsets start os ++ frame_fields tops) (empty offsets e) in
            elim (find_lem fuel start tops frames (omega (arith, enough))) [
              | inl (null, none_left) ↦
                  inl
                    (rw (inside, e, null, find_stack_non_empty_frame_top) refl, skipped ∙ none_left)
              | inr (found, rest, eq, there, over, some_field, same, shorter) ↦ inr (
                found,
                rest,
                rw (inside, e, eq, find_stack_non_empty_frame_top) refl,
                there,
                over,
                some_field,
                skipped ∙ same,
                omega (arith, shorter),
              )
            ]
      ]

  -- From offset `i` of a frame on, the other pointers of the frame and then those of the frames below
  -- are returned, in order, and once.
  pub stack_fields :
      (object_types : List ObjectType) (m : Words) (p top i left fuel steps : ℕ) (tops : List ℕ)
      (t : ObjectType)
      → split_header object_types (get_header m p) ≡ some t
      → t.tag ≡ stack_tag
      → get_stack_bottom p ≡ bottom
      → Frames (top - (frame_info top).size) tops
      → ((a : ℕ) → length ((frame_info a).offsets) < 2 ^ 16)
      → length tops ≤ fuel
      → i + suc left ≡ length ((frame_info top).offsets)
      → left + length (frame_fields tops) < steps
      → fields_from frame_info fuel object_types m steps record { op = p; cursor = stack top i }
        ≡ some (
            at_offsets (top - (frame_info top).size) (drop i ((frame_info top).offsets))
            ++ frame_fields tops)
  unfolding advance_one_field advance_one_field_of advance_stack
  stack_fields object_types m p top i left fuel zero tops t header tag at frames short enough count
        room =
      absurd (omega (arith, room))
  stack_fields object_types m p top i (suc left) fuel (suc steps) tops t header tag at frames short
        enough count room =
      let offsets = (frame_info top).offsets in
      let start = top - (frame_info top).size in
      let (o, here, split) = nth-drop i offsets (omega (arith, count)) in
      let bound = short top in
      let next : (i + 1) % 2 ^ 32 ≡ i + 1 = omega (arith, count, bound) in
      let not_last : (i + 1 == length offsets) ≡ false = ground (arith, count) in
      let rest =
        stack_fields object_types m p top (i + 1) left fuel steps tops t header tag at frames short
          enough (omega (arith, count)) (omega (arith, room)) in
      more_fields frame_info fuel object_types m steps record { op = p; cursor = stack top i }
        record {
          elem = record { op = p; cursor = stack top (i + 1) };
          field = start + o;
          object_done = false;
        }
        (at_offsets start (drop (i + 1) offsets) ++ frame_fields tops)
        (rw
          (
            header, tag, here, next, not_last, advance_one_field, advance_one_field_of,
            advance_stack,
          )
          refl)
        refl rest
      ∙ ap (λ os. some (at_offsets start os ++ frame_fields tops)) (sym split)
  stack_fields object_types m p top i zero fuel (suc steps) tops t header tag at frames short enough
        count room =
      let offsets = (frame_info top).offsets in
      let start = top - (frame_info top).size in
      let (o, here, split) = nth-drop i offsets (omega (arith, count)) in
      let bound = short top in
      let last : ((i + 1) % 2 ^ 32 == length offsets) ≡ true =
        eq→== ((i + 1) % 2 ^ 32) (length offsets) (omega (arith, count, bound)) in
      let ended : drop i offsets ≡ o ∷ [] =
        split ∙ ap (λ k. o ∷ drop k offsets) count ∙ ap (λ os. o ∷ os) (drop-all offsets) in
      let elem : Elem = record { op = p; cursor = stack top i } in
      elim (find_lem fuel start tops frames enough) [
        | inl (null, none_left) ↦
            let at_bottom =
              ap (λ b. find_stack_non_empty_frame_top frame_info fuel b start) at ∙ null in
            last_field frame_info fuel object_types m steps elem
              record {
                elem = record { op = p; cursor = stack top ((i + 1) % 2 ^ 32) };
                field = start + o;
                object_done = true;
              }
              (rw
                (
                  header, tag, here, last, at_bottom, advance_one_field, advance_one_field_of,
                  advance_stack,
                )
                refl)
              refl
            ∙ ap₂ (λ os fs. some (at_offsets start os ++ fs)) (sym ended) (sym none_left)
        | inr (found, rest, eq, there, over, some_field, same, shorter) ↦
            let at_bottom =
              ap (λ b. find_stack_non_empty_frame_top frame_info fuel b start) at ∙ eq in
            let above_zero : (found == 0) ≡ false = ground (arith, over) in
            let size = ap length same ∙ length-frame found rest in
            let on =
              stack_fields object_types m p found 0 (length ((frame_info found).offsets) - 1) fuel
                steps rest t header tag at (Frames-below found found rest there) short
                (omega (arith, shorter, enough)) (omega (arith, some_field))
                (omega (arith, room, size, some_field)) in
            more_fields frame_info fuel object_types m steps elem
              record {
                elem = record { op = p; cursor = stack found 0 };
                field = start + o;
                object_done = false;
              }
              (frame_fields (found ∷ rest))
              (rw
                (
                  header, tag, here, last, at_bottom, above_zero, advance_one_field,
                  advance_one_field_of, advance_stack,
                )
                refl)
              refl on
            ∙ ap₂ (λ os fs. some (at_offsets start os ++ fs)) (sym ended) (sym same)
      ]
