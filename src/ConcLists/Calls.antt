-- ===== src/ConcLists/Calls.antt =====
-- `CC_storeInConcListWithPurpose` of runtime/gc/concurrent-list.c beside other processors.
use mpl.Base.{
  Bool, ℕ, zero, suc, ◌+◌, ◌-◌, ◌^◌, ◌≤◌, ◌<◌, ◌≡◌, ◌≢◌, refl, sym, ap, subst, inl, inr, true,
  false, ◌||◌, Bool-cases, some, List, [], ◌∷◌, ◌==◌, ltb, All, length, arith,
}
use mpl.Base.Chain.{update_at}
use mpl.Align.{align}
use mpl.Chunks.{sizeof_chunk, initialize_chunk, get_chunk_size_past_frontier}
use mpl.Chunks.Lists.{Allocation, get_free_chunk_with_purpose}
use mpl.ConcLists.{
  Shared, Others, nobody, install_chunk, install_if_last, allocate_and_install,
  allocate_chunk_in_conc_list,
}
use mpl.ConcLists.Storing.{
  next_others, later_others, move_frontier, swap_frontier, copy_object, store_in_conc_list,
}

-- Blocks that hold the object, in memory that does not wrap.
abbrev pub Fits : (block_size obj_size : ℕ) → Allocation → Type 0
Fits block_size obj_size b =
    let width = align (obj_size + sizeof_chunk) block_size in
    (b.start ≢ 0) × (obj_size + sizeof_chunk ≤ width) × (b.start + width < 2 ^ 64)

module _ (bogus block_size : ℕ) (l obj_size : ℕ) where
  -- What a processor sees that stores: it waits for others, or allocates a chunk beside them. `s` is
  -- the state after some rounds, and `rest` are the others of the later ones.
  pub data Follows : Shared → List Allocation → List Others → Shared → List Others → Type 0 where
    starts : {c : Shared} {blocks : List Allocation} {os : List Others} → Follows c blocks os c os
    waits :
        {c s : Shared} {blocks : List Allocation} {os rest : List Others}
        → Follows ((next_others os).before_check c) blocks (later_others os) s rest
        → Follows c blocks os s rest
    allocates :
        {c d s : Shared} {blocks bs : List Allocation} {os rest : List Others}
        → allocate_chunk_in_conc_list bogus block_size
            (next_others os)
            c
            l
            blocks
            obj_size
            (c.conc l).last_chunk
          ≡ some (d, bs)
        → Follows d bs (later_others os) s rest
        → Follows c blocks os s rest

  -- The store that the loop has done: in a state `seen` of some round the last chunk has room for the
  -- object, and at the swap its frontier is still the same; from what the others have left by then only
  -- that frontier is moved, and the object copied behind it.
  pub record IsStored (object : ℕ → ℕ) (c : Shared) (blocks : List Allocation) (os : List Others)
      (d : Shared) (chunk place : ℕ) : Type 0 where
    pub seen : Shared
    pub rest : List Others
    pub follows : Follows c blocks os seen rest
    pub last : (seen.conc l).last_chunk ≡ chunk
    pub not_null : chunk ≢ 0
    pub at_frontier : (seen.store.chunks chunk).frontier ≡ place
    pub room : obj_size ≤ get_chunk_size_past_frontier seen.store chunk
    pub undisturbed : (((next_others rest).before_check seen).store.chunks chunk).frontier ≡ place
    pub stored :
        d
        ≡ copy_object
            (move_frontier ((next_others rest).before_check seen) chunk (place + obj_size))
            place
            obj_size
            object

  module _ (object : ℕ → ℕ) where
    Done : (fuel : ℕ) → Shared → List Allocation → List Others → Type 0
    Done fuel c blocks os =
        (d : Shared) × (chunk : ℕ) × (place : ℕ) × (store_in_conc_list bogus block_size fuel c l
            obj_size object blocks os
          ≡ some (d, chunk, place))
        × IsStored object c blocks os d chunk place

    full : Shared → ℕ → Bool
    full c chunk = chunk == 0 || ltb (get_chunk_size_past_frontier c.store chunk) obj_size

    -- A swap that succeeds ends the loop.
    swapped :
        (fuel : ℕ) (c : Shared) (blocks : List Allocation) (os : List Others)
        → let chunk = (c.conc l).last_chunk in
          let frontier = (c.store.chunks chunk).frontier in
          full c chunk ≡ false
          → (((next_others os).before_check c).store.chunks chunk).frontier ≡ frontier
          → Done (suc fuel) c blocks os
    unfolding Done full store_in_conc_list swap_frontier
    swapped fuel c blocks os room found =
        let chunk = (c.conc l).last_chunk in
        let frontier = (c.store.chunks chunk).frontier in
        let o = (next_others os).before_check c in
        let hit : ((o.store.chunks chunk).frontier == frontier) ≡ true = ground (arith, found) in
        (
          copy_object (move_frontier o chunk (frontier + obj_size)) frontier obj_size object,
          chunk,
          frontier,
          rw (room, hit) refl,
          record {
            seen = c;
            rest = os;
            follows = starts;
            last = refl;
            not_null = λ e. let z = room in ground (arith, z, e);
            at_frontier = refl;
            room = ground (arith, room);
            undisturbed = found;
            stored = refl;
          },
        )

    -- A store after a round is one from before it.
    allocated-IsStored :
        (c e d : Shared) (blocks bs : List Allocation) (os : List Others) (chunk place : ℕ)
        → allocate_chunk_in_conc_list bogus block_size
            (next_others os)
            c
            l
            blocks
            obj_size
            (c.conc l).last_chunk
          ≡ some (e, bs)
        → IsStored object e bs (later_others os) d chunk place
        → IsStored object c blocks os d chunk place
    allocated-IsStored c e d blocks bs os chunk place run s = record {
      seen = s.seen;
      rest = s.rest;
      follows = allocates run s.follows;
      last = s.last;
      not_null = s.not_null;
      at_frontier = s.at_frontier;
      room = s.room;
      undisturbed = s.undisturbed;
      stored = s.stored;
    }

    waited-IsStored :
        (c d : Shared) (blocks : List Allocation) (os : List Others) (chunk place : ℕ)
        → IsStored object ((next_others os).before_check c) blocks (later_others os) d chunk place
        → IsStored object c blocks os d chunk place
    waited-IsStored c d blocks os chunk place s = record {
      seen = s.seen;
      rest = s.rest;
      follows = waits s.follows;
      last = s.last;
      not_null = s.not_null;
      at_frontier = s.at_frontier;
      room = s.room;
      undisturbed = s.undisturbed;
      stored = s.stored;
    }

    -- Undisturbed, the new chunk becomes the last one, with room for the object.
    allocated :
        (c : Shared) (b : Allocation)
        → let last = (c.conc l).last_chunk in
          let d = allocate_and_install bogus block_size nobody c l b obj_size last in
          let k = d.store.chunks b.start in
          ((d.conc l).last_chunk ≡ b.start)
          × (k.frontier ≡ b.start + sizeof_chunk)
          × (k.limit ≡ b.start + align (obj_size + sizeof_chunk) block_size)
    unfolding allocate_and_install install_if_last install_chunk get_free_chunk_with_purpose
        initialize_chunk
    allocated c b =
        let same : ((c.conc l).last_chunk == (c.conc l).last_chunk) ≡ true = ground arith in
        rw same (ap (λ x. x.last_chunk) (update_at c.conc l l _ refl), ground arith, ground arith)

    -- Undisturbed, two rounds are enough.
    calm :
        (fuel : ℕ) (c : Shared) (b : Allocation) (bs : List Allocation)
        → Fits block_size obj_size b
        → Done (suc (suc fuel)) c (b ∷ bs) []
    unfolding Done full store_in_conc_list allocate_chunk_in_conc_list
    calm fuel c b bs fits =
        let chunk = (c.conc l).last_chunk in
        elim (Bool-cases (full c chunk)) [
          | inr room ↦ swapped (suc fuel) c (b ∷ bs) [] room refl
          | inl need ↦
              let same : ((c.conc l).last_chunk == (c.conc l).last_chunk) ≡ true = ground arith in
              let d = allocate_and_install bogus block_size nobody c l b obj_size chunk in
              let (last, start, limit) = allocated c b in
              let width = align (obj_size + sizeof_chunk) block_size in
              let (nz, wide, low) = fits in
              let past : get_chunk_size_past_frontier d.store b.start ≡ width - sizeof_chunk =
                rw (limit, start) (omega (arith, wide, low)) in
              let at_start : full d b.start ≡ false = ground (arith, nz, past, wide) in
              let room : full d (d.conc l).last_chunk ≡ false =
                subst (λ k. full d k ≡ false) (sym last) at_start in
              let (e, k, place, run, stored) = swapped fuel d bs [] room refl in
              (
                e,
                k,
                place,
                rw (need, same) run,
                allocated-IsStored c d e (b ∷ bs) bs [] k place (rw same refl) stored,
              )
        ]

    -- A round beside others, who may install a chunk or move the frontier in between.
    disturbed :
        (fuel : ℕ) (c : Shared) (b : Allocation) (bs : List Allocation) (o : Others)
        (os : List Others)
        → ((d : Shared) → Done fuel d (b ∷ bs) os)
        → ((d : Shared) → Done fuel d bs os)
        → Done (suc fuel) c (b ∷ bs) (o ∷ os)
    unfolding Done full store_in_conc_list swap_frontier allocate_chunk_in_conc_list
    disturbed fuel c b bs o os again after =
        let chunk = (c.conc l).last_chunk in
        let frontier = (c.store.chunks chunk).frontier in
        let e = o.before_check c in
        elim (Bool-cases (full c chunk)) [
          | inl need ↦ elim (Bool-cases ((e.conc l).last_chunk == chunk)) [
            | inl same ↦
                let d = allocate_and_install bogus block_size o e l b obj_size chunk in
                let (f, k, place, run, stored) = after d in
                (
                  f,
                  k,
                  place,
                  rw (need, same) run,
                  allocated-IsStored c d f (b ∷ bs) bs (o ∷ os) k place (rw same refl) stored,
                )
            | inr gone ↦
                let (f, k, place, run, stored) = again e in
                (
                  f,
                  k,
                  place,
                  rw (need, gone) run,
                  waited-IsStored c f (b ∷ bs) (o ∷ os) k place stored,
                )
          ]
          | inr room ↦ elim (Bool-cases ((e.store.chunks chunk).frontier == frontier)) [
            | inl hit ↦ swapped fuel c (b ∷ bs) (o ∷ os) room (ground (arith, hit))
            | inr miss ↦
                let (f, k, place, run, stored) = again e in
                (
                  f,
                  k,
                  place,
                  rw (room, miss) run,
                  waited-IsStored c f (b ∷ bs) (o ∷ os) k place stored,
                )
          ]
        ]

    stores :
        (os : List Others) (fuel : ℕ) (c : Shared) (blocks : List Allocation)
        → length os + 2 ≤ fuel
        → length os + 1 ≤ length blocks
        → All (Fits block_size obj_size) blocks
        → Done fuel c blocks os
    stores os fuel c [] h k fits = absurd (omega (arith, k))
    stores [] zero c (b ∷ bs) h k fits = absurd (omega (arith, h))
    stores [] (suc zero) c (b ∷ bs) h k fits = absurd (omega (arith, h))
    stores [] (suc (suc fuel)) c (b ∷ bs) h k fits = calm fuel c b bs fits.0
    stores (o ∷ os) zero c (b ∷ bs) h k fits = absurd (omega (arith, h))
    stores (o ∷ os) (suc fuel) c (b ∷ bs) h k fits =
        disturbed fuel c b bs o os
          (λ d. stores os fuel d (b ∷ bs) (omega (arith, h)) (omega (arith, k)) fits)
          (λ d. stores os fuel d bs (omega (arith, h)) (omega (arith, k)) fits.1)

-- Whatever other processors do in any number of rounds, the store ends two rounds after them, where the
-- allocator returns blocks that hold the object. After rounds in which others come first or a chunk is
-- allocated, it has found room for the object in the last chunk, whose frontier has not moved up to the
-- swap; of what the others have left by then it changes that frontier, to the end of the object, and
-- the bytes of the object's place alone.
pub store_in_conc_list_lem :
    (bogus block_size fuel : ℕ) (c : Shared) (l obj_size : ℕ) (object : ℕ → ℕ)
    (blocks : List Allocation) (others : List Others)
    → length others + 2 ≤ fuel
    → length others + 1 ≤ length blocks
    → All (Fits block_size obj_size) blocks
    → (d : Shared) × (chunk : ℕ) × (place : ℕ) × (store_in_conc_list bogus block_size fuel c l
          obj_size object blocks others
        ≡ some (d, chunk, place))
      × IsStored bogus block_size l obj_size object c blocks others d chunk place
unfolding Done
store_in_conc_list_lem bogus block_size fuel c l obj_size object blocks others h k fits =
    stores bogus block_size l obj_size object others fuel c blocks h k fits
