-- ===== src/WorkList/Fields.antt =====
-- Which fields of an object the steps of advanceOneField in runtime/gc/cc-work-list.c come by.
use mpl.Base.{
  ℕ, zero, suc, ◌+◌, ◌*◌, ◌%◌, ◌^◌, ◌<◌, ◌≡◌, refl, ap, sym, ◌∙◌, true, false, Option, none, some,
  List, [], ◌∷◌, ◌++◌, ◌==◌, if◌then◌else◌, eq→==, ◌⊎◌, inl, inr, Bool-cases, Option-cases, arith,
}
use mathlib.Core.Option.{some-injective}
use mpl.Objects.{
  Words, ObjectType, normal_tag, sequence_tag, get_header, split_header, get_sequence_length,
  objptr_size,
}
use mpl.WorkList.{
  FrameInfo, normal, sequence, Elem, Advanced, advance_normal, advance_sequence,
  advance_one_field_of, advance_one_field,
}

-- The words of `count` pointers from number `i` on.
abbrev pub pointers : (base i count : ℕ) → List ℕ
pointers base i zero = []
pointers base i (suc count) = (base + i * objptr_size) ∷ pointers base (i + 1) count

-- The pointers of `count` cells from cell `c` on.
abbrev pub cells : (p width bytes n c count : ℕ) → List ℕ
cells p width bytes n c zero = []
cells p width bytes n c (suc count) =
    pointers (p + c * width + bytes) 0 n ++ cells p width bytes n (c + 1) count

module _ (frame_info : ℕ → FrameInfo) (frames : ℕ) (object_types : List ObjectType)
    (m : Words) where
  -- The fields that the steps return, up to the first that reports the object as done.
  unfoldable pub fields_from : (steps : ℕ) → Elem → Option (List ℕ)
  fields_from zero elem = none
  fields_from (suc steps) elem = elim (advance_one_field frame_info frames object_types m elem) [
    | none ↦ none
    | some r ↦
        if r.object_done
        then some (r.field ∷ [])
        else elim (fields_from steps r.elem) [ none ↦ none | some fs ↦ some (r.field ∷ fs) ]
  ]

  -- A step that is not the last.
  pub more_fields :
      (steps : ℕ) (elem : Elem) (r : Advanced) (fs : List ℕ)
      → advance_one_field frame_info frames object_types m elem ≡ some r
      → r.object_done ≡ false
      → fields_from steps r.elem ≡ some fs
      → fields_from (suc steps) elem ≡ some (r.field ∷ fs)
  unfolding fields_from
  more_fields steps elem r fs adv not_done rest = rw (adv, not_done, rest, fields_from) refl

  pub last_field :
      (steps : ℕ) (elem : Elem) (r : Advanced)
      → advance_one_field frame_info frames object_types m elem ≡ some r
      → r.object_done ≡ true
      → fields_from (suc steps) elem ≡ some (r.field ∷ [])
  unfolding fields_from
  last_field steps elem r adv done = rw (adv, done, fields_from) refl

  -- How a run of steps begins: with its last step, or with another one.
  pub fields_from-cases :
      (steps : ℕ) (elem : Elem) (fs : List ℕ)
      → fields_from (suc steps) elem ≡ some fs
      → (r : Advanced) × (advance_one_field frame_info frames object_types m elem ≡ some r)
        × (((r.object_done ≡ true) × (fs ≡ r.field ∷ []))
            ⊎ ((rest : List ℕ) × (r.object_done ≡ false)
                × (fields_from steps r.elem ≡ some rest)
                × (fs ≡ r.field ∷ rest)))
  unfolding fields_from
  fields_from-cases steps elem fs run =
      elim (Option-cases (advance_one_field frame_info frames object_types m elem)) [
        | inl e ↦ absurd (ground (arith, e, run))
        | inr (r, e) ↦ (
          r,
          e,
          elim (Bool-cases r.object_done) [
            | inl done ↦
                inl (
                  done,
                  some-injective fs (r.field ∷ []) (sym run ∙ last_field steps elem r e done),
                )
            | inr more ↦ elim (Option-cases (fields_from steps r.elem)) [
              | inl stuck ↦ absurd (ground (arith, e, more, stuck, run))
              | inr (rest, eq) ↦ inr (
                rest,
                more,
                eq,
                some-injective fs (r.field ∷ rest)
                    (sym run ∙ more_fields steps elem r rest e more eq),
              )
            ]
          ],
        )
      ]

  -- From a normal object all the pointers are returned, in order, and once.
  pub normal_fields :
      (p i left steps : ℕ) (t : ObjectType)
      → split_header object_types (get_header m p) ≡ some t
      → t.tag ≡ normal_tag
      → i + suc left ≡ t.num_objptrs
      → t.num_objptrs < 2 ^ 16
      → left < steps
      → fields_from steps record { op = p; cursor = normal i }
        ≡ some (pointers (p + t.bytes_non_objptrs) i (suc left))
  unfolding advance_one_field advance_one_field_of advance_normal
  normal_fields p i left zero t header tag count short enough = absurd (omega (arith, enough))
  normal_fields p i zero (suc steps) t header tag count short enough =
      last_field steps record { op = p; cursor = normal i } (advance_normal frame_info p i t)
        (rw (header, tag, advance_one_field, advance_one_field_of) refl)
        (eq→== (i + 1) t.num_objptrs (omega (arith, count)))
  normal_fields p i (suc left) (suc steps) t header tag count short enough =
      let next : (i + 1) % 2 ^ 16 ≡ i + 1 = omega (arith, count, short) in
      let rest =
        normal_fields p (i + 1) left steps t header tag (omega (arith, count)) short
          (omega (arith, enough)) in
      more_fields steps record { op = p; cursor = normal i } (advance_normal frame_info p i t)
        (pointers (p + t.bytes_non_objptrs) (i + 1) (suc left))
        (rw (header, tag, advance_one_field, advance_one_field_of) refl) (ground (arith, count))
        (rw next rest)

  -- From cell `c`, pointer `i` of a sequence on, the rest of the cell and then the other cells are
  -- returned, in order, and once. `left` and `after` count the pointers and the cells that follow.
  pub sequence_fields :
      (p c i left after steps : ℕ) (t : ObjectType)
      → split_header object_types (get_header m p) ≡ some t
      → t.tag ≡ sequence_tag
      → i + suc left ≡ t.num_objptrs
      → c + suc after ≡ get_sequence_length m p
      → t.num_objptrs < 2 ^ 16
      → get_sequence_length m p < 2 ^ 64
      → left + after * t.num_objptrs < steps
      → let width = t.bytes_non_objptrs + t.num_objptrs * objptr_size in
        fields_from steps record { op = p; cursor = sequence c i }
        ≡ some (
            pointers (p + c * width + t.bytes_non_objptrs) i (suc left)
            ++ cells p width t.bytes_non_objptrs t.num_objptrs (c + 1) after)
  unfolding advance_one_field advance_one_field_of advance_sequence
  sequence_fields p c i left after zero t header tag in_cell in_sequence short long enough =
      absurd (omega (arith, enough))
  sequence_fields p c i zero zero (suc steps) t header tag in_cell in_sequence short long enough =
      last_field steps record { op = p; cursor = sequence c i }
        (advance_sequence frame_info p (get_sequence_length m p) c i t)
        (rw (header, tag, advance_one_field, advance_one_field_of) refl)
        (ground (arith, in_cell, in_sequence, long))
  sequence_fields p c i zero (suc after) (suc steps) t header tag in_cell in_sequence short long
        enough =
      let last : (i + 1 == t.num_objptrs) ≡ true = ground (arith, in_cell) in
      let next : (c + 1) % 2 ^ 64 ≡ c + 1 = omega (arith, in_sequence, long) in
      let not_last : (c + 1 == get_sequence_length m p) ≡ false = ground (arith, in_sequence) in
      let n = t.num_objptrs in
      let width = t.bytes_non_objptrs + n * objptr_size in
      let grow : suc after * n ≡ after * n + n = grind arith in
      let whole : suc i ≡ n = omega (arith, in_cell) in
      let others = cells p width t.bytes_non_objptrs n (c + 1 + 1) after in
      let base = p + (c + 1) * width + t.bytes_non_objptrs in
      let rest =
        sequence_fields p (c + 1) 0 i after steps t header tag (omega (arith, in_cell))
          (omega (arith, in_sequence)) short long (omega (arith, enough, grow, in_cell)) in
      more_fields steps record { op = p; cursor = sequence c i }
        (advance_sequence frame_info p (get_sequence_length m p) c i t)
        (pointers base 0 n ++ others)
        (rw (header, tag, advance_one_field, advance_one_field_of) refl)
        (rw (last, next, not_last) refl)
        (rw (last, next) (rest ∙ ap (λ x. some (pointers base 0 x ++ others)) whole))
  sequence_fields p c i (suc left) after (suc steps) t header tag in_cell in_sequence short long
        enough =
      let not_last : (i + 1 == t.num_objptrs) ≡ false = ground (arith, in_cell) in
      let next : (i + 1) % 2 ^ 16 ≡ i + 1 = omega (arith, in_cell, short) in
      let width = t.bytes_non_objptrs + t.num_objptrs * objptr_size in
      let rest =
        sequence_fields p c (i + 1) left after steps t header tag (omega (arith, in_cell))
          in_sequence short long (omega (arith, enough)) in
      more_fields steps record { op = p; cursor = sequence c i }
        (advance_sequence frame_info p (get_sequence_length m p) c i t)
        (pointers (p + c * width + t.bytes_non_objptrs) (i + 1) (suc left)
          ++ cells p width t.bytes_non_objptrs t.num_objptrs (c + 1) after)
        (rw (header, tag, advance_one_field, advance_one_field_of) refl) (rw not_last refl)
        (rw (not_last, next) rest)
