-- ===== src/Chunks/Append.antt =====
-- `HM_appendChunk` of runtime/gc/chunk.c on a list of chunks.
use mpl.Base.{
  ℕ, ◌+◌, ◌≡◌, ◌≢◌, refl, sym, subst, ◌∙◌, List, [], ◌∷◌, ◌++◌, ◌==◌, if◌then◌else◌, arith,
}
use mpl.Base.Chain.{Fresh, Distinct}
use mpl.Chunks.{HmChunk, Store, get_chunk_size, get_chunk_used_size, append_chunk}
use mpl.Chunks.Sizes.{
  LinkedChunks, last_chunk_of, first_chunk_of, total_size, total_used_size, IsChunkList,
  Fresh-last_chunk_of, appended, append-at_end, append-prev, append-next, append-no_next,
  append-forth, append-last, append-first, append-sizes, append-list_sizes,
}

last_chunk_of-append : (b c : ℕ) (xs : List ℕ) → last_chunk_of b (xs ++ c ∷ []) ≡ c
last_chunk_of-append b c [] = refl
last_chunk_of-append b c (x ∷ xs) = last_chunk_of-append x c xs

Fresh-append : (x c : ℕ) (xs : List ℕ) → x ≢ c → Fresh x xs → Fresh x (xs ++ c ∷ [])
Fresh-append x c [] h f = (h, tt)
Fresh-append x c (y ∷ xs) h f = (f.0, Fresh-append x c xs h f.1)

Distinct-append : (c : ℕ) (xs : List ℕ) → Fresh c xs → Distinct xs → Distinct (xs ++ c ∷ [])
Distinct-append c [] f d = (tt, tt)
Distinct-append c (x ∷ xs) f d =
    (Fresh-append x c xs (λ e. f.0 (sym e)) d.0, Distinct-append c xs f.1 d.1)

total-append :
    (s : Store) (list chunk : ℕ) (xs : List ℕ)
    → (total_size (append_chunk s list chunk) (xs ++ chunk ∷ [])
        ≡ total_size s xs + get_chunk_size s chunk)
      × (total_used_size (append_chunk s list chunk) (xs ++ chunk ∷ [])
          ≡ total_used_size s xs + get_chunk_used_size s chunk)
total-append s list chunk [] = omega (arith, append-sizes s list chunk chunk)
total-append s list chunk (x ∷ xs) =
    omega (arith, append-sizes s list chunk x, total-append s list chunk xs)

first-chosen :
    (s : ℕ → HmChunk) (first chunk : ℕ) (xs : List ℕ)
    → LinkedChunks s 0 first xs
    → (if first == 0 then chunk else first) ≡ first_chunk_of xs chunk first
first-chosen s first chunk [] c = ground (arith, c)
first-chosen s first chunk (x ∷ xs) c = ground (arith, c)

-- A chunk that is in no list and has no successor becomes the last of the list it is appended to:
-- the list stays doubly linked, and its sizes are the sums of the sizes of its chunks.
pub append_chunk_lem :
    (s : Store) (list chunk : ℕ) (xs : List ℕ)
    → IsChunkList s list xs
    → chunk ≢ 0
    → Fresh chunk xs
    → (s.chunks chunk).next_chunk ≡ 0
    → IsChunkList (append_chunk s list chunk) list (xs ++ chunk ∷ [])
append_chunk_lem s list chunk xs inv h f e =
    let first = first-chosen s.chunks (s.lists list).first_chunk chunk xs inv.linked in
    let apart : chunk ≢ (s.lists list).last_chunk =
      (λ o. Fresh-last_chunk_of chunk 0 xs h f (o ∙ inv.last)) in
    let links =
      appended s.chunks (append_chunk s list chunk).chunks chunk (s.lists list).last_chunk h
        (append-at_end s list chunk) (append-no_next s list chunk e apart)
        (append-forth s list chunk) (append-next s list chunk) (append-prev s list chunk) 0
        (s.lists list).first_chunk xs inv.linked inv.distinct f inv.last in
    let sums = total-append s list chunk xs in
    let stored = append-list_sizes s list chunk in
    let size = inv.size in
    let used = inv.used in
    record {
      linked =
          subst (λ p. LinkedChunks (append_chunk s list chunk).chunks 0 p (xs ++ chunk ∷ []))
            (sym (append-first s list chunk ∙ first)) links;
      distinct = Distinct-append chunk xs f inv.distinct;
      last = append-last s list chunk ∙ sym (last_chunk_of-append 0 chunk xs);
      size = omega (arith, stored, size, sums);
      used = omega (arith, stored, used, sums);
    }
