-- ===== src/Objects/Tests.antt =====
-- Concrete objects, and the witnesses of the theorems on headers and pinning.
use mpl.Base.{
  ltb, if◌then◌else◌, ◌≡◌, refl, List, [], ◌∷◌, some, true, false, ◌==◌, if◌then◌else◌, arith,
}
use mpl.Objects.{
  Words, ObjectType, normal_tag, sequence_tag, get_header, object_type_index,
  build_header_from_type_index, is_fwd_header, split_header, object_size, object_size_of,
  sizeof_object_aux, sizeof_object,
}
use mpl.Objects.Masks.{build_header_lem}
use mpl.Objects.Pin.{
  PinType, pin_down, pin_any, Pinned, returned, pin_object_info, pin_loop, unpin_depth_of_h,
  unpin_depth_of,
}
use mpl.Objects.Pinning.{Forwards, arrived, forward, pin_object_info_lem}
use mpl.Objects.PinHeaders.{IsHeader, SameElse}
use mpl.Objects.Contention.{no_headers, a_header, IsPinnedFrom, pin_loop-AreHeaders}
use mpl.Objects.PinLaws.{code}
use mpl.Objects.Sizes.{sizeof_object-object_size}

-- A vector of three elements at 124 with its length, and an object at 208 that is forwarded to it; a normal object at 64.
abbrev memory : Words
memory = λ a.
    if a == 116
    then 0x20700003
    else if a == 108
    then 3
    else if a == 200
    then 124
    else if a == 56
    then 1
    else 0

abbrev object_types : List ObjectType
object_types =
    record { tag = normal_tag; has_identity = true; bytes_non_objptrs = 8; num_objptrs = 1 }
    ∷ record { tag = sequence_tag; has_identity = false; bytes_non_objptrs = 8; num_objptrs = 1 }
    ∷ []

at_depth_seven : IsHeader 0x20700003 pin_down
at_depth_seven = record { word = omega arith; odd = refl; type = refl }

forwarded : Forwards memory 1 208 124
unfolding is_fwd_header get_header
forwarded = forward 0 208 124 refl (arrived 124)

build_header_lem_example :
    (object_type_index (build_header_from_type_index 3) ≡ 3)
    × (is_fwd_header (build_header_from_type_index 3) ≡ false)
build_header_lem_example = build_header_lem 3 (omega arith)

pin_object_info_lem_example :
    (r : Pinned) × (nt : PinType) × (pin_object_info 2 memory 208 5 pin_any [] ≡ returned r)
    × (r.object ≡ 124)
    × IsHeader (get_header r.words 124) nt
    × (unpin_depth_of r.words 124 ≡ 5)
    × (code nt ≡ (if ltb (unpin_depth_of r.words 124) 7 then 3 else 3))
    × SameElse 0x20700003 (get_header r.words 124)
unfolding get_header unpin_depth_of unpin_depth_of_h
pin_object_info_lem_example =
    pin_object_info_lem memory 1 2 208 124 5 pin_any pin_down forwarded at_depth_seven (omega arith)
      (omega arith)

pin_loop-AreHeaders_example :
    (r : Pinned) × (pin_loop 2 memory 124 9 pin_any (0x20700001 ∷ []) ≡ returned r)
    × IsPinnedFrom 124 9 pin_any 0x20700003 (0x20700001 ∷ []) r
unfolding get_header
pin_loop-AreHeaders_example =
    pin_loop-AreHeaders memory 124 9 pin_any pin_down (0x20700001 ∷ []) at_depth_seven
      (a_header 0x20700001 pin_down [] record { word = omega arith; odd = refl; type = refl }
        no_headers)
      refl (omega arith)

sizeof_object-object_size_example : sizeof_object 8 object_types memory 64 ≡ some 24
unfolding get_header split_header object_type_index object_size object_size_of sizeof_object_aux
sizeof_object-object_size_example =
    sizeof_object-object_size 8 object_types memory 64 16
      record { tag = normal_tag; has_identity = true; bytes_non_objptrs = 8; num_objptrs = 1 } refl
      refl
