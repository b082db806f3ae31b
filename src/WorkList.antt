-- ===== src/WorkList.antt =====
-- runtime/gc/cc-work-list.c: the work list of the concurrent collector, a stack of objects that are
-- being scanned field by field, on a list of chunks. The frame of a stack that ends at an address is
-- a parameter, as the table of frames is made by the compiler. 0 is NULL.
pub mod Ops
pub mod Fields
pub mod Frames
pub mod Pops
pub mod Push
mod Tests
use mpl.Base.{
  ℕ, zero, suc, ◌+◌, ◌-◌, ◌*◌, ◌%◌, ◌^◌, Bool, true, false, ◌&&◌, ◌||◌, Option, none, some, List,
  [], ◌∷◌, length, nth, ◌==◌, ltb, leb, if◌then◌else◌,
}
use mpl.Base.Chain.{update}
use mpl.Objects.{
  Words, ObjectType, ObjectTypeTag, normal_tag, sequence_tag, stack_tag, weak_tag, other_tag,
  get_header, split_header, get_sequence_length, objptr_size, sizeof_stack_struct,
}
use mpl.Chunks.{
  Store, set_chunk, init_chunk_list, update_chunk_frontier_in_list, unlink_chunk, get_chunk_start,
  get_chunk_size_past_frontier,
}
use mpl.Chunks.Lists.{Allocation, allocate_chunk_with_purpose, free_chunk_with_info}

-- The parts of `struct GC_frameInfo` that are used: the offsets of the pointers in the frame, without
-- their number in front, and the size.
pub record FrameInfo : Type 0 where
  pub offsets : List ℕ
  pub size : ℕ

-- The union in `struct CC_workList_elem`.
pub data Cursor : Type 0 where
  normal : (objptr_idx : ℕ) → Cursor
  sequence : (cell_idx objptr_idx : ℕ) → Cursor
  stack : (top_cursor frame_offsets_idx : ℕ) → Cursor

-- `struct CC_workList_elem`
pub record Elem : Type 0 where
  pub op : ℕ
  pub cursor : Cursor

-- `sizeof (struct CC_workList_elem)`
abbrev pub elem_size : ℕ
elem_size = 24

-- `struct advanceOneFieldResult`, and the element after the step.
pub record Advanced : Type 0 where
  pub elem : Elem
  pub field : ℕ
  pub object_done : Bool

-- `CC_workList` with the chunks and the elements that are stored in them, by their address.
pub record WorkList : Type 0 where
  pub store : Store
  pub elems : ℕ → Elem
  pub current_chunk : ℕ

-- `stack->used`
pub stack_used : Words → (p : ℕ) → ℕ
stack_used m p = m (p + 48)

unfoldable pub get_stack_bottom : (p : ℕ) → ℕ
get_stack_bottom p = p + sizeof_stack_struct

unfoldable pub get_stack_top : Words → (p : ℕ) → ℕ
get_stack_top m p = get_stack_bottom p + stack_used m p

module _ (frame_info : (frame_top : ℕ) → FrameInfo) where
  -- `none` is a stack with more frames than the fuel.
  unfoldable pub find_stack_non_empty_frame_top : (fuel bottom top : ℕ) → Option ℕ
  find_stack_non_empty_frame_top zero bottom top = if ltb bottom top then none else some 0
  find_stack_non_empty_frame_top (suc fuel) bottom top =
      let below = find_stack_non_empty_frame_top fuel bottom (top - (frame_info top).size) in
      if ltb bottom top
      then if ltb 0 (length ((frame_info top).offsets)) then some top else below
      else some 0

  -- `makeInitialElem` for an object of the type `t`: `some none` is FALSE, `none` an exit by DIE.
  unfoldable pub make_initial_elem_of :
      (fuel : ℕ) → Words → (op : ℕ) → ObjectType → Option (Option Elem)
  make_initial_elem_of fuel m op t = elim (t.tag) [
    | normal_tag ↦
        if t.num_objptrs == 0 then some none else some (some record { op = op; cursor = normal 0 })
    | sequence_tag ↦
        if t.num_objptrs == 0
        then some none
        else if get_sequence_length m op == 0
        then some none
        else some (some record { op = op; cursor = sequence 0 0 })
    | stack_tag ↦
        elim (find_stack_non_empty_frame_top fuel (get_stack_bottom op) (get_stack_top m op)) [
          | none ↦ none
          | some first_top ↦
              if first_top == 0
              then some none
              else some (some record { op = op; cursor = stack first_top 0 })
        ]
    | weak_tag ↦ none
    | other_tag n ↦ none
  ]

  -- The three parts of `advanceOneField`.
  unfoldable pub advance_normal : (p objptr_idx : ℕ) → ObjectType → Advanced
  advance_normal p objptr_idx t = record {
    elem = record { op = p; cursor = normal ((objptr_idx + 1) % 2 ^ 16) };
    field = p + t.bytes_non_objptrs + objptr_idx * objptr_size;
    object_done = objptr_idx + 1 == t.num_objptrs;
  }

  unfoldable pub advance_sequence : (p num_cells cell_idx objptr_idx : ℕ) → ObjectType → Advanced
  advance_sequence p num_cells cell_idx objptr_idx t =
      let bytes_per_cell = t.bytes_non_objptrs + t.num_objptrs * objptr_size in
      let last = objptr_idx + 1 == t.num_objptrs in
      record {
        elem = record {
          op = p;
          cursor =
              if last
              then sequence ((cell_idx + 1) % 2 ^ 64) 0
              else sequence cell_idx ((objptr_idx + 1) % 2 ^ 16);
        };
        field = p + cell_idx * bytes_per_cell + t.bytes_non_objptrs + objptr_idx * objptr_size;
        object_done = last && (cell_idx + 1) % 2 ^ 64 == num_cells;
      }

  unfoldable pub advance_stack : (fuel p top i : ℕ) → Option Advanced
  advance_stack fuel p top i =
      let info = frame_info top in
      let frame_start = top - info.size in
      elim (nth info.offsets i) [
        | none ↦ none
        | some offset ↦
            let field = frame_start + offset in
            let next = (i + 1) % 2 ^ 32 in
            if next == length info.offsets
            then elim (find_stack_non_empty_frame_top fuel (get_stack_bottom p) frame_start) [
              | none ↦ none
              | some new_top ↦
                  if new_top == 0
                  then some record {
                    elem = record { op = p; cursor = stack top next };
                    field = field;
                    object_done = true;
                  }
                  else some record {
                    elem = record { op = p; cursor = stack new_top 0 };
                    field = field;
                    object_done = false;
                  }
            ]
            else some record {
              elem = record { op = p; cursor = stack top next };
              field = field;
              object_done = false;
            }
      ]

  -- `advanceOneField` for an object of the type `t`; `none` is an exit by DIE, an offset that the
  -- frame does not have, or a cursor that is not one of such an object.
  unfoldable pub advance_one_field_of :
      (fuel : ℕ) → Words → (p : ℕ) → Cursor → ObjectType → Option Advanced
  advance_one_field_of fuel m p (normal i) t = elim (t.tag) [
    | normal_tag ↦ some (advance_normal p i t)
    | _ ↦ none
  ]
  advance_one_field_of fuel m p (sequence c i) t = elim (t.tag) [
    | sequence_tag ↦ some (advance_sequence p (get_sequence_length m p) c i t)
    | _ ↦ none
  ]
  advance_one_field_of fuel m p (stack top i) t = elim (t.tag) [
    | stack_tag ↦ advance_stack fuel p top i
    | _ ↦ none
  ]

  -- `advanceOneField`
  unfoldable pub advance_one_field : (fuel : ℕ) → List ObjectType → Words → Elem → Option Advanced
  advance_one_field fuel object_types m elem =
      elim (split_header object_types (get_header m elem.op)) [
        | none ↦ none
        | some t ↦ advance_one_field_of fuel m elem.op elem.cursor t
      ]
