-- ===== src/WorkList/Tests.antt =====
-- A concrete work list, and the witnesses of the theorems on it.
use mpl.Base.{ℕ, ◌≡◌, ◌≢◌, refl, true, false, some, List, [], ◌∷◌, ◌==◌, if◌then◌else◌, arith}
use mpl.Objects.{
  Words, ObjectType, sequence_tag, stack_tag, get_header, split_header, object_type_index,
  get_sequence_length,
}
use mpl.Chunks.{Store, HmChunk, ChunkList}
use mpl.Chunks.Lists.{Allocation}
use mpl.WorkList.{FrameInfo, Elem, sequence, stack, WorkList, get_stack_bottom}
use mpl.WorkList.Ops.{push_elem}
use mpl.WorkList.Fields.{fields_from, sequence_fields}
use mpl.WorkList.Frames.{no_frame, a_frame, stack_fields}
use mpl.WorkList.Pops.{pop_many}
use mpl.WorkList.Push.{pop_many-push_elem}

-- A sequence of two cells at 124, of 8 bytes and two pointers each, and a stack at 1000.
abbrev memory : Words
memory = λ a. if a == 116 then 3 else if a == 108 then 2 else if a == 992 then 1 else 0

abbrev cell_type : ObjectType
cell_type = record {
  tag = sequence_tag;
  has_identity = true;
  bytes_non_objptrs = 8;
  num_objptrs = 2;
}

abbrev stack_type : ObjectType
stack_type = record { tag = stack_tag; has_identity = true; bytes_non_objptrs = 0; num_objptrs = 0 }

abbrev object_types : List ObjectType
object_types = stack_type ∷ cell_type ∷ []

-- Frames of 32 bytes, of which the one that ends at 1120 has no pointer and the others have one.
abbrev frame_info : ℕ → FrameInfo
frame_info top = record { offsets = if top == 1120 then [] else 8 ∷ []; size = 32 }

abbrev a_chunk : HmChunk
a_chunk = record {
  level_head = 0;
  frontier = 4184;
  limit = 8192;
  next_chunk = 0;
  prev_chunk = 0;
  start_gap = 0;
  pinned_during_collection = false;
  retire_chunk = false;
  might_contain_multiple_objects = true;
  tmp_heap = 0;
  container = 0;
  num_blocks = 1;
  decheck_state = 0;
  magic = 0;
}

abbrev a_list : ChunkList
a_list = record { first_chunk = 4096; last_chunk = 4096; used_size = 0; size = 4096 }

abbrev a_store : Store
a_store = record {
  chunks = λ a. a_chunk;
  lists = λ a. a_list;
  nodes = λ a. record { representative = 0; payload = 0; dependant1 = 0; dependant2 = 0 };
}

abbrev first : Elem
first = record { op = 124; cursor = sequence 0 0 }

abbrev work_list : WorkList
work_list = record { store = a_store; elems = λ a. first; current_chunk = 4096 }

abbrev no_blocks : Allocation
no_blocks = record { start = 0; container = 0; num_blocks = 0 }

steps_of_sequence :
    fields_from frame_info 0 object_types memory 4 first ≡ some (132 ∷ 140 ∷ 156 ∷ 164 ∷ [])
unfolding get_header split_header object_type_index get_sequence_length
steps_of_sequence =
    sequence_fields frame_info 0 object_types memory 124 0 0 1 1 4 cell_type refl refl refl refl
      (omega arith) (omega arith) (omega arith)

pop_many-push_elem_example :
    (u : WorkList) × (pop_many frame_info 0 object_types memory 7 4
        (push_elem 0 4096 work_list 7 no_blocks first)
      ≡ some (132 ∷ 140 ∷ 156 ∷ 164 ∷ [], u))
    × (u.current_chunk ≡ 4096)
    × ((u.store.chunks u.current_chunk).frontier ≡ 4184)
    × ((u.store.lists 7).used_size ≡ 0)
    × ((a : ℕ) → a ≢ 4184 → u.elems a ≡ first)
pop_many-push_elem_example =
    pop_many-push_elem frame_info 0 object_types memory 7 0 4096 work_list no_blocks first 4
      (132 ∷ 140 ∷ 156 ∷ 164 ∷ []) (omega arith) (omega arith) (omega arith) steps_of_sequence

stack_fields_example :
    fields_from frame_info 2 object_types memory 2 record { op = 1000; cursor = stack 1152 0 }
    ≡ some (1128 ∷ 1064 ∷ [])
unfolding get_header split_header object_type_index get_stack_bottom
stack_fields_example =
    stack_fields frame_info 1056 object_types memory 1000 1152 0 0 2 2 (1120 ∷ 1088 ∷ []) stack_type
      refl refl refl
      (a_frame 1120 (1088 ∷ []) (omega arith)
        (a_frame 1088 [] (omega arith) (no_frame 1056 (omega arith))))
      (λ a. ground arith) (omega arith) refl (omega arith)
