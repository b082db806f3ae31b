-- ===== src/Objects/Sizes.antt =====
-- The two functions for the size of an object, in runtime/gc/object.c and runtime/gc/object-size.c.
use mpl.Base.{ℕ, ◌+◌, ◌%◌, ◌^◌, ◌≡◌, refl, sym, ◌∙◌, some, List, Bool, arith}
use mathlib.Core.Option.{some-injective}
use mpl.Objects.{
  Words, ObjectType, ObjectTypeTag, normal_tag, sequence_tag, stack_tag, weak_tag, other_tag,
  get_header, split_header, object_size_of, object_size, sizeof_object_aux, sizeof_object,
  sizeof_sequence_no_meta_data, sizeof_stack_no_meta_data,
}

same_size :
    (alignment : ℕ) (m : Words) (p : ℕ) (tag : ObjectTypeTag) (i : Bool) (b n size : ℕ)
    → let t : ObjectType = record {
      tag = tag;
      has_identity = i;
      bytes_non_objptrs = b;
      num_objptrs = n;
    } in
      object_size_of alignment m p t ≡ some size → (sizeof_object_aux alignment m p t).1 ≡ size
unfolding object_size_of sizeof_object_aux sizeof_sequence_no_meta_data sizeof_stack_no_meta_data
same_size alignment m p normal_tag i b n size eq = some-injective _ _ eq
same_size alignment m p sequence_tag i b n size eq = some-injective _ _ eq
same_size alignment m p stack_tag i b n size eq = some-injective _ _ eq
same_size alignment m p weak_tag i b n size eq = some-injective _ _ eq
same_size alignment m p (other_tag k) i b n size eq = absurd (ground (arith, eq))

-- Where objectSize does not die, sizeofObject gives the same size, with the metadata added.
pub sizeof_object-object_size :
    (alignment : ℕ) (object_types : List ObjectType) (m : Words) (p size : ℕ) (t : ObjectType)
    → split_header object_types (get_header m p) ≡ some t
    → object_size alignment object_types m p ≡ some size
    → sizeof_object alignment object_types m p
      ≡ some (((sizeof_object_aux alignment m p t).0 + size) % 2 ^ 64)
unfolding object_size sizeof_object
sizeof_object-object_size alignment object_types m p size t there eq =
    let of : object_size_of alignment m p t ≡ some size = sym (rw (there, object_size) refl) ∙ eq in
    rw
      (
        there,
        same_size alignment m p t.tag t.has_identity t.bytes_non_objptrs t.num_objptrs size of,
        sizeof_object,
      )
      refl
