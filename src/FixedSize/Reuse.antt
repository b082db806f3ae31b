-- ===== src/FixedSize/Reuse.antt =====
-- The free elements of a fixed-size allocator (runtime/gc/fixed-size-allocator.c).
use mpl.Base.{ℕ, ◌≡◌, ◌≢◌, refl, sym, ap, subst, ◌∙◌, List, [], ◌∷◌, ◌++◌, append-nil, some, arith}
use mathlib.Core.List.{nil≢cons, head-eq_of_cons-eq, tail-eq_of_cons-eq}
use mpl.Base.Chain.{update, Fresh, Distinct, Chain, Chain-frame, Chain-push}
use mpl.Chunks.Lists.{Allocation}
use mpl.FixedSize.{Arena, take_free, take_shared, allocate_fixed_size, free_own}

-- The elements of the owner's free list and those of the shared one, each once.
pub record IsFree (a : Arena) (fsa : ℕ) (own shared : List ℕ) : Type 0 where
  pub own_chain : Chain a.next_free (a.allocators fsa).free_list own
  pub shared_chain : Chain a.next_free (a.allocators fsa).shared_free_list shared
  pub distinct : Distinct (own ++ shared)

Fresh-left : (x : ℕ) (xs ys : List ℕ) → Fresh x (xs ++ ys) → Fresh x xs
Fresh-left x [] ys f = tt
Fresh-left x (y ∷ xs) ys f = (f.0, Fresh-left x xs ys f.1)

Fresh-rest : (x : ℕ) (xs ys : List ℕ) → Fresh x (xs ++ ys) → Fresh x ys
Fresh-rest x [] ys f = f
Fresh-rest x (y ∷ xs) ys f = Fresh-rest x xs ys f.1

-- What the two fast paths leave of the allocator.
take_free-fields :
    (a : Arena) (fsa x : ℕ)
    → (a.allocators fsa).free_list ≡ x
    → (((take_free a fsa).0.allocators fsa).free_list ≡ a.next_free x)
      × (((take_free a fsa).0.allocators fsa).shared_free_list
          ≡ (a.allocators fsa).shared_free_list)
unfolding take_free
take_free-fields a fsa x e = ground (arith, ap a.next_free e)

take_shared-fields :
    (a : Arena) (fsa x : ℕ)
    → (a.allocators fsa).shared_free_list ≡ x
    → (((take_shared a fsa).0.allocators fsa).free_list ≡ a.next_free x)
      × (((take_shared a fsa).0.allocators fsa).shared_free_list ≡ 0)
unfolding take_shared
take_shared-fields a fsa x e = ground (arith, ap a.next_free e)

Chain-from :
    (next next2 : ℕ → ℕ) (p q : ℕ) (xs : List ℕ)
    → q ≡ p
    → next ≡ next2
    → Chain next p xs
    → Chain next2 q xs
Chain-from next next2 p q xs e n c =
    subst (λ z. Chain next2 z xs) (sym e) (subst (λ z. Chain z p xs) n c)

take_free-IsFree :
    (a : Arena) (fsa x : ℕ) (own shared : List ℕ)
    → IsFree a fsa (x ∷ own) shared
    → ((take_free a fsa).1 ≡ x) × IsFree (take_free a fsa).0 fsa own shared
unfolding take_free
take_free-IsFree a fsa x own shared inv =
    let (at, nonzero, rest) = inv.own_chain in
    let fields = take_free-fields a fsa x at in
    let now = ap (λ z. update a.next_free z 0) (sym at) in
    (
      at,
      record {
        own_chain =
            Chain-from (update a.next_free x 0) (update a.next_free (a.allocators fsa).free_list 0)
              (a.next_free x) ((take_free a fsa).0.allocators fsa).free_list own fields.0 now
              (Chain-frame a.next_free (a.next_free x) own x 0 rest
                (Fresh-left x own shared inv.distinct.0));
        shared_chain =
            Chain-from (update a.next_free x 0) (update a.next_free (a.allocators fsa).free_list 0)
              (a.allocators fsa).shared_free_list
              ((take_free a fsa).0.allocators fsa).shared_free_list shared fields.1 now
              (Chain-frame a.next_free (a.allocators fsa).shared_free_list shared x 0
                inv.shared_chain (Fresh-rest x own shared inv.distinct.0));
        distinct = inv.distinct.1;
      },
    )

take_shared-IsFree :
    (a : Arena) (fsa x : ℕ) (shared : List ℕ)
    → IsFree a fsa [] (x ∷ shared)
    → ((take_shared a fsa).1 ≡ x) × IsFree (take_shared a fsa).0 fsa shared []
unfolding take_shared
take_shared-IsFree a fsa x shared inv =
    let (at, nonzero, rest) = inv.shared_chain in
    let fields = take_shared-fields a fsa x at in
    (
      at,
      record {
        own_chain =
            Chain-from (update a.next_free x 0)
              (update a.next_free (a.allocators fsa).shared_free_list 0) (a.next_free x)
              ((take_shared a fsa).0.allocators fsa).free_list shared fields.0
              (ap (λ z. update a.next_free z 0) (sym at))
              (Chain-frame a.next_free (a.next_free x) shared x 0 rest inv.distinct.0);
        shared_chain = fields.1;
        distinct = subst Distinct (sym (append-nil shared)) inv.distinct.1;
      },
    )

-- Where elements are free, an allocation takes the first of them, those of the owner's list before
-- those of the shared one, whatever chunk is on offer, and the others stay free in their order.
pub allocate_fixed_size_lem :
    (bogus block_size : ℕ) (a : Arena) (fsa : ℕ) (blocks : Allocation) (own shared : List ℕ) (x : ℕ)
    (rest : List ℕ)
    → IsFree a fsa own shared
    → own ++ shared ≡ x ∷ rest
    → (after : Arena) × (own2 : List ℕ) × (shared2 : List ℕ) × (allocate_fixed_size bogus block_size
          a fsa blocks
        ≡ some (after, x))
      × IsFree after fsa own2 shared2
      × (own2 ++ shared2 ≡ rest)
unfolding allocate_fixed_size
allocate_fixed_size_lem bogus block_size a fsa blocks [] [] x rest inv e = absurd (nil≢cons e)
allocate_fixed_size_lem bogus block_size a fsa blocks [] (y ∷ shared) x rest inv e =
    let (at, kept) = take_shared-IsFree a fsa y shared inv in
    let same = head-eq_of_cons-eq e in
    let (top, nonzero, c) = inv.shared_chain in
    let result : take_shared a fsa ≡ ((take_shared a fsa).0, x) =
      ap (λ z. ((take_shared a fsa).0, z)) (at ∙ same) in
    (
      (take_shared a fsa).0,
      shared,
      [],
      ground (arith, inv.own_chain, top, nonzero, ap some result),
      kept,
      append-nil shared ∙ tail-eq_of_cons-eq e,
    )
allocate_fixed_size_lem bogus block_size a fsa blocks (y ∷ own) shared x rest inv e =
    let (at, kept) = take_free-IsFree a fsa y own shared inv in
    let same = head-eq_of_cons-eq e in
    let (top, nonzero, c) = inv.own_chain in
    let result : take_free a fsa ≡ ((take_free a fsa).0, x) =
      ap (λ z. ((take_free a fsa).0, z)) (at ∙ same) in
    (
      (take_free a fsa).0,
      own,
      shared,
      ground (arith, top, nonzero, ap some result),
      kept,
      tail-eq_of_cons-eq e,
    )

free_own-fields :
    (a : Arena) (fsa elem : ℕ)
    → (((free_own a fsa elem).allocators fsa).free_list ≡ elem)
      × (((free_own a fsa elem).allocators fsa).shared_free_list
          ≡ (a.allocators fsa).shared_free_list)
unfolding free_own
free_own-fields a fsa elem = ground arith

-- An element that its owner frees becomes the first of the free ones.
pub free_own_lem :
    (a : Arena) (fsa elem : ℕ) (own shared : List ℕ)
    → IsFree a fsa own shared
    → elem ≢ 0
    → Fresh elem (own ++ shared)
    → IsFree (free_own a fsa elem) fsa (elem ∷ own) shared
unfolding free_own
free_own_lem a fsa elem own shared inv h f =
    let fields = free_own-fields a fsa elem in
    let next = update a.next_free elem (a.allocators fsa).free_list in
    record {
      own_chain =
          Chain-from next next elem ((free_own a fsa elem).allocators fsa).free_list (elem ∷ own)
            fields.0 refl
            (Chain-push a.next_free (a.allocators fsa).free_list own elem h inv.own_chain
              (Fresh-left elem own shared f));
      shared_chain =
          Chain-from next next (a.allocators fsa).shared_free_list
            ((free_own a fsa elem).allocators fsa).shared_free_list shared fields.1 refl
            (Chain-frame a.next_free (a.allocators fsa).shared_free_list shared elem
              (a.allocators fsa).free_list inv.shared_chain (Fresh-rest elem own shared f));
      distinct = (f, inv.distinct);
    }
