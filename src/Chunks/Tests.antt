-- ===== src/Chunks/Tests.antt =====
-- Chunks on small inputs.
use mpl.Base.{◌<◌, ℕ, ◌+◌, ◌≡◌, ◌==◌, refl, some, [], ◌∷◌, true, false, if◌then◌else◌, arith}
use mpl.Chunks.{HmChunk, UnionFindNode, Store, append_chunk}
use mpl.Chunks.Sizes.{IsChunkList}
use mpl.Chunks.Append.{append_chunk_lem}
use mpl.Chunks.Paths.{compress, Leads, at_top, step}
use mpl.Chunks.Heads.{ancestor, compress_lem}

-- The chunks at 4096 and 8192, of one block each, with 100 bytes in use.
abbrev a_chunk : ℕ → HmChunk
a_chunk p = record {
  level_head = 1;
  frontier = p + 188;
  limit = p + 4096;
  next_chunk = 0;
  prev_chunk = 0;
  start_gap = 0;
  pinned_during_collection = false;
  retire_chunk = false;
  might_contain_multiple_objects = true;
  tmp_heap = 0;
  container = 0;
  num_blocks = 1;
  decheck_state = 0;
  magic = 3405707982;
}

-- Node 1 leads to 2 and 2 to 3.
abbrev three_nodes : ℕ → UnionFindNode
three_nodes x = record {
  representative = if x == 1 then 2 else if x == 2 then 3 else 0;
  payload = x;
  dependant1 = 0;
  dependant2 = 0;
}

abbrev one_chunk : Store
one_chunk = record {
  chunks = a_chunk;
  lists = λ l. record { first_chunk = 4096; last_chunk = 4096; used_size = 100; size = 4096 };
  nodes = three_nodes;
}

one_chunk-IsChunkList : IsChunkList one_chunk 1 (4096 ∷ [])
one_chunk-IsChunkList = record {
  linked = (refl, (λ e. omega (arith, e)), refl, refl);
  distinct = (tt, tt);
  last = refl;
  size = refl;
  used = refl;
}

append_chunk_lem_example : IsChunkList (append_chunk one_chunk 1 8192) 1 (4096 ∷ 8192 ∷ [])
append_chunk_lem_example =
    append_chunk_lem one_chunk 1 8192 (4096 ∷ []) one_chunk-IsChunkList (λ e. omega (arith, e))
      ((λ e. omega (arith, e)), tt) refl

two_leads : Leads three_nodes 3 1 2
two_leads = step (λ e. omega (arith, e)) (λ e. omega (arith, e)) (at_top refl)

one_leads : Leads three_nodes 3 2 1
one_leads = step (λ e. omega (arith, e)) (λ e. omega (arith, e)) two_leads

compress_lem_example :
    (after : ℕ → UnionFindNode) × (j : ℕ) × (compress 2 three_nodes 1 3 ≡ some after)
    × ((i : ℕ) → i < 2 → (after (ancestor three_nodes i 1)).representative ≡ 3)
    × Leads after 3 j 2
    × ((after 2).payload ≡ 2)
compress_lem_example =
    compress_lem 2 2 three_nodes 1 3 2 3 1 (λ e. omega (arith, e)) one_leads (omega arith) two_leads
