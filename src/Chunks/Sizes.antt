-- ===== src/Chunks/Sizes.antt =====
-- Lists of chunks of runtime/gc/chunk.c with their links and their sizes.
use mpl.Base.{
  ℕ, ◌+◌, ◌%◌, ◌^◌, ◌≡◌, ◌≢◌, refl, sym, subst, ◌∙◌, List, [], ◌∷◌, ◌++◌, Bool-cases, inl, inr,
  ◌==◌, if◌then◌else◌, arith,
}
use mpl.Base.Chain.{Fresh, Distinct}
use mpl.Chunks.{HmChunk, Store, get_chunk_size, get_chunk_used_size, append_chunk}

-- From `p`, reached from `before`, the links lead through exactly these chunks and back.
abbrev pub LinkedChunks : (ℕ → HmChunk) → ℕ → ℕ → List ℕ → Type 0
LinkedChunks s before p [] = p ≡ 0
LinkedChunks s before p (x ∷ xs) =
    (p ≡ x) × (x ≢ 0) × ((s x).prev_chunk ≡ before) × LinkedChunks s x (s x).next_chunk xs

abbrev pub last_chunk_of : ℕ → List ℕ → ℕ
last_chunk_of b [] = b
last_chunk_of b (x ∷ xs) = last_chunk_of x xs

abbrev pub first_chunk_of : List ℕ → ℕ → ℕ → ℕ
first_chunk_of [] c p = c
first_chunk_of (x ∷ xs) c p = p

abbrev pub total_size : Store → List ℕ → ℕ
total_size s [] = 0
total_size s (x ∷ xs) = get_chunk_size s x + total_size s xs

abbrev pub total_used_size : Store → List ℕ → ℕ
total_used_size s [] = 0
total_used_size s (x ∷ xs) = get_chunk_used_size s x + total_used_size s xs

-- The list holds exactly these chunks, each once, and its sizes are the sums of theirs.
pub record IsChunkList (s : Store) (list : ℕ) (xs : List ℕ) : Type 0 where
  pub linked : LinkedChunks s.chunks 0 (s.lists list).first_chunk xs
  pub distinct : Distinct xs
  pub last : (s.lists list).last_chunk ≡ last_chunk_of 0 xs
  pub size : (s.lists list).size ≡ total_size s xs % 2 ^ 64
  pub used : (s.lists list).used_size ≡ total_used_size s xs % 2 ^ 64

pub Fresh-last_chunk_of : (x b : ℕ) (xs : List ℕ) → x ≢ b → Fresh x xs → x ≢ last_chunk_of b xs
Fresh-last_chunk_of x b [] h f = h
Fresh-last_chunk_of x b (y ∷ xs) h f = Fresh-last_chunk_of x y xs f.0 f.1

module _ (s t : ℕ → HmChunk) (chunk last : ℕ) (nonnull : chunk ≢ 0)
    (at_end : (t chunk).prev_chunk ≡ last) (no_next : (t chunk).next_chunk ≡ 0)
    (forth : last ≢ 0 → (t last).next_chunk ≡ chunk)
    (next_kept : (x : ℕ) → x ≢ chunk → x ≢ last → (t x).next_chunk ≡ (s x).next_chunk)
    (prev_kept : (x : ℕ) → x ≢ chunk → (t x).prev_chunk ≡ (s x).prev_chunk) where
  next_first :
      (x : ℕ) (xs : List ℕ)
      → x ≢ 0
      → x ≢ chunk
      → Fresh x xs
      → last ≡ last_chunk_of x xs
      → (t x).next_chunk ≡ first_chunk_of xs chunk (s x).next_chunk
  next_first x [] z ne f e = subst (λ y. (t y).next_chunk ≡ chunk) e (forth (λ o. z (sym e ∙ o)))
  next_first x (y ∷ xs) z ne f e = next_kept x ne (λ o. Fresh-last_chunk_of x y xs f.0 f.1 (o ∙ e))

  pub appended :
      (before p : ℕ) (xs : List ℕ)
      → LinkedChunks s before p xs
      → Distinct xs
      → Fresh chunk xs
      → last ≡ last_chunk_of before xs
      → LinkedChunks t before (first_chunk_of xs chunk p) (xs ++ chunk ∷ [])
  appended before p [] c d f e = (refl, nonnull, at_end ∙ e, no_next)
  appended before p (x ∷ xs) c d f e =
      let ne : x ≢ chunk = (λ o. f.0 (sym o)) in
      (
        c.0,
        c.1,
        prev_kept x ne ∙ c.2,
        subst (λ z. LinkedChunks t x z (xs ++ chunk ∷ [])) (sym (next_first x xs c.1 ne d.0 e))
            (appended x (s x).next_chunk xs c.3 d.1 f.1 e),
      )

module _ (s : Store) (list chunk : ℕ) where
  pub append-at_end :
      ((append_chunk s list chunk).chunks chunk).prev_chunk ≡ (s.lists list).last_chunk
  unfolding append_chunk
  append-at_end = elim (Bool-cases ((s.lists list).last_chunk == 0)) [
    | inl e ↦ ground (arith, e)
    | inr e ↦ ground (arith, e)
  ]

  pub append-prev :
      (x : ℕ)
      → x ≢ chunk
      → ((append_chunk s list chunk).chunks x).prev_chunk ≡ (s.chunks x).prev_chunk
  unfolding append_chunk
  append-prev x h = ground arith

  pub append-next :
      (x : ℕ)
      → x ≢ chunk
      → x ≢ (s.lists list).last_chunk
      → ((append_chunk s list chunk).chunks x).next_chunk ≡ (s.chunks x).next_chunk
  unfolding append_chunk
  append-next x h k = ground arith

  pub append-no_next :
      (s.chunks chunk).next_chunk ≡ 0
      → chunk ≢ (s.lists list).last_chunk
      → ((append_chunk s list chunk).chunks chunk).next_chunk ≡ 0
  unfolding append_chunk
  append-no_next e h = ground arith

  pub append-forth :
      (s.lists list).last_chunk ≢ 0
      → ((append_chunk s list chunk).chunks (s.lists list).last_chunk).next_chunk ≡ chunk
  unfolding append_chunk
  append-forth h = ground arith

  pub append-last : ((append_chunk s list chunk).lists list).last_chunk ≡ chunk
  unfolding append_chunk
  append-last = ground arith

  pub append-first :
      ((append_chunk s list chunk).lists list).first_chunk
      ≡ (if (s.lists list).first_chunk == 0 then chunk else (s.lists list).first_chunk)
  unfolding append_chunk
  append-first = ground arith

  pub append-sizes :
      (x : ℕ)
      → (get_chunk_size (append_chunk s list chunk) x ≡ get_chunk_size s x)
        × (get_chunk_used_size (append_chunk s list chunk) x ≡ get_chunk_used_size s x)
  unfolding append_chunk
  append-sizes x = ground arith

  pub append-list_sizes :
      (((append_chunk s list chunk).lists list).size
        ≡ ((s.lists list).size + get_chunk_size s chunk) % 2 ^ 64)
      × (((append_chunk s list chunk).lists list).used_size
          ≡ ((s.lists list).used_size + get_chunk_used_size s chunk) % 2 ^ 64)
  unfolding append_chunk
  append-list_sizes = ground arith
