-- ===== src/Objects.antt =====
-- Objects and their headers in runtime/gc/object.c, forward.c, sequence.c and object-size.c. An
-- object is the address of its data; the header is the word before it. Words of 64 bits.
pub mod Masks
pub mod Pin
pub mod PinLaws
pub mod PinHeaders
pub mod Pinning
pub mod Contention
pub mod Unpinning
pub mod Sizes
mod Tests
use mpl.Base.{
  ℕ, zero, suc, ◌+◌, ◌-◌, ◌*◌, ◌/◌, ◌%◌, ◌^◌, ◌≡◌, ◌≢◌, refl, Bool, true, false, Option, none, some,
  List, [], ◌∷◌, ◌==◌, if◌then◌else◌, nth, bit_and, bit_or,
}
use mpl.Align.{align}

-- The word at every address that is used.
abbrev pub Words : Type 0
Words = ℕ → ℕ

abbrev pub write : Words → ℕ → ℕ → Words
write m a v = λ b. if b == a then v else m b

-- `GC_objectTypeTag`, with every number outside of the enumeration.
pub data ObjectTypeTag : Type 0 where
  normal_tag : ObjectTypeTag
  sequence_tag : ObjectTypeTag
  stack_tag : ObjectTypeTag
  weak_tag : ObjectTypeTag
  other_tag : ℕ → ObjectTypeTag

-- `struct GC_objectType`
pub record ObjectType : Type 0 where
  pub tag : ObjectTypeTag
  pub has_identity : Bool
  pub bytes_non_objptrs : ℕ
  pub num_objptrs : ℕ

abbrev pub objptr_size : ℕ
objptr_size = 8

abbrev pub header_size : ℕ
header_size = 8

abbrev pub normal_metadata_size : ℕ
normal_metadata_size = 8

abbrev pub sequence_metadata_size : ℕ
sequence_metadata_size = 24

abbrev pub stack_metadata_size : ℕ
stack_metadata_size = 8

-- The size of `struct GC_stack`.
abbrev pub sizeof_stack_struct : ℕ
sizeof_stack_struct = 56

unfoldable pub get_header : Words → (p : ℕ) → ℕ
get_header m p = m (p - header_size)

unfoldable pub get_sequence_length : Words → (a : ℕ) → ℕ
get_sequence_length m a = m (a - 16)

pub get_sequence_counter : Words → (a : ℕ) → ℕ
get_sequence_counter m a = m (a - 24)

-- The field `reserved` of a stack.
pub stack_reserved : Words → (p : ℕ) → ℕ
stack_reserved m p = m (p + 32)

unfoldable pub is_fwd_header : (h : ℕ) → Bool
is_fwd_header h = bit_and 1 h == 0

unfoldable pub has_fwd_ptr : Words → (p : ℕ) → Bool
has_fwd_ptr m p = is_fwd_header (get_header m p)

-- The loop of `getRacyHeader`; `none` if the chain of forwarding pointers is longer than the fuel.
unfoldable pub get_racy_header : (fuel : ℕ) → Words → (ptr : ℕ) → Option ℕ
get_racy_header zero m ptr = none
get_racy_header (suc fuel) m ptr =
    let header = get_header m ptr in
    let rest = get_racy_header fuel m header in if is_fwd_header header then rest else some header

-- On 32 bits, as `t` is a `uint32_t`.
unfoldable pub build_header_from_type_index : (t : ℕ) → ℕ
build_header_from_type_index t = bit_or (t * 2 % 2 ^ 32) 1

unfoldable pub object_type_index : (header : ℕ) → ℕ
object_type_index header = bit_and header 0xFFFFE / 2 ^ 1

-- `splitHeader`, without the copies to the caller; `none` is an index outside of the table.
unfoldable pub split_header : List ObjectType → (header : ℕ) → Option ObjectType
split_header object_types header = nth object_types (object_type_index header)

-- `isMutableH`
pub is_mutable_h : List ObjectType → (header : ℕ) → Option Bool
is_mutable_h object_types header = elim (split_header object_types header) [
  | none ↦ none
  | some t ↦ some t.has_identity
]

-- A word of 0 at the start of an object is the counter of a sequence.
unfoldable pub advance_to_object_data : Words → (p : ℕ) → ℕ
advance_to_object_data m p =
    if m p == 0 then p + sequence_metadata_size else p + normal_metadata_size

unfoldable pub align_with_extra : (alignment bytes extra : ℕ) → ℕ
align_with_extra alignment bytes extra =
    (align ((bytes + extra) % 2 ^ 64) alignment + (2 ^ 64 - extra)) % 2 ^ 64

-- `objectSize` for an object of the type `t`; `none` is the exit by DIE.
unfoldable pub object_size_of : (alignment : ℕ) → Words → (p : ℕ) → ObjectType → Option ℕ
object_size_of alignment m p t =
    let bytes_per_element = t.bytes_non_objptrs + t.num_objptrs * objptr_size in
    elim (t.tag) [
      | normal_tag ↦ some bytes_per_element
      | weak_tag ↦ some bytes_per_element
      | sequence_tag ↦ some (
          align_with_extra alignment (get_sequence_length m p * bytes_per_element % 2 ^ 64)
            sequence_metadata_size)
      | stack_tag ↦ some ((sizeof_stack_struct + stack_reserved m p) % 2 ^ 64)
      | other_tag n ↦ none
    ]

-- `objectSize`
unfoldable pub object_size : (alignment : ℕ) → List ObjectType → Words → (p : ℕ) → Option ℕ
object_size alignment object_types m p = elim (split_header object_types (get_header m p)) [
  | none ↦ none
  | some t ↦ object_size_of alignment m p t
]

unfoldable pub sizeof_sequence_no_meta_data :
    (alignment num_elements bytes_non_objptrs num_objptrs : ℕ) → ℕ
sizeof_sequence_no_meta_data alignment num_elements bytes_non_objptrs num_objptrs =
    align_with_extra alignment
      (num_elements * (bytes_non_objptrs + num_objptrs * objptr_size) % 2 ^ 64)
      sequence_metadata_size

unfoldable pub sizeof_stack_no_meta_data : (reserved : ℕ) → ℕ
sizeof_stack_no_meta_data reserved = (sizeof_stack_struct + reserved) % 2 ^ 64

-- `sizeofObjectAux`: the bytes of the metadata and of the object.
unfoldable pub sizeof_object_aux : (alignment : ℕ) → Words → (p : ℕ) → ObjectType → ℕ × ℕ
sizeof_object_aux alignment m p t = elim (t.tag) [
  | normal_tag ↦ (normal_metadata_size, t.bytes_non_objptrs + t.num_objptrs * objptr_size)
  | weak_tag ↦ (normal_metadata_size, t.bytes_non_objptrs + t.num_objptrs * objptr_size)
  | sequence_tag ↦ (
    sequence_metadata_size,
    sizeof_sequence_no_meta_data alignment (get_sequence_length m p) t.bytes_non_objptrs
        t.num_objptrs,
  )
  | stack_tag ↦ (stack_metadata_size, sizeof_stack_no_meta_data (stack_reserved m p))
  | other_tag n ↦ (0, 0)
]

unfoldable pub sizeof_object : (alignment : ℕ) → List ObjectType → Words → (p : ℕ) → Option ℕ
sizeof_object alignment object_types m p = elim (split_header object_types (get_header m p)) [
  | none ↦ none
  | some t ↦
      let (meta_data_bytes, object_bytes) = sizeof_object_aux alignment m p t in
      some ((meta_data_bytes + object_bytes) % 2 ^ 64)
]

-- `sizeofObjectNoMetaData`
pub sizeof_object_no_meta_data : (alignment : ℕ) → List ObjectType → Words → (p : ℕ) → Option ℕ
sizeof_object_no_meta_data alignment object_types m p =
    elim (split_header object_types (get_header m p)) [
      | none ↦ none
      | some t ↦ some ((sizeof_object_aux alignment m p t).1)
    ]

pub get_fwd_ptr : Words → (p : ℕ) → ℕ
get_fwd_ptr m p = get_header m p

pub align_frontier : (alignment p : ℕ) → ℕ
align_frontier alignment p = align_with_extra alignment p normal_metadata_size
