-- ===== src/CcStack/Close.antt =====
-- When CC_stack_try_close of runtime/gc/concurrent-stack.c closes, and when it waits for its own lock.
use mpl.Base.{
  ℕ, ◌≡◌, ◌⊎◌, inl, inr, refl, sym, ◌∙◌, true, false, none, some, List, [], ◌∷◌, ◌==◌, Bool-cases,
  arith,
}
use mpl.Chunks.{Store}
use mpl.Chunks.Lists.{Allocation}
use mpl.CcStack.{
  StackData, CcStack, lock, unlock, first_chunk, all_empty, lock_and_close, closed_count,
  unlock_below, take_batch, end_unclosed, try_close, push,
}

-- No lock is held.
pub data Free : List StackData → Type 0 where
  no_bags : Free []
  free_bag : (d : StackData) (ds : List StackData) → d.locked ≡ false → Free ds → Free (d ∷ ds)

-- Every bag is closed and no lock is held.
pub data Closed : List StackData → Type 0 where
  none_open : Closed []
  closed_bag :
      (d : StackData) (ds : List StackData)
      → d.is_closed ≡ true
      → d.locked ≡ false
      → Closed ds
      → Closed (d ∷ ds)

-- Where all the bags are empty the second loop comes to its end, and the bags are closed.
lock_and_close-all_empty :
    (s : Store) (ds : List StackData)
    → Free ds
    → all_empty s ds ≡ true
    → (es : List StackData) × (lock_and_close s ds ≡ some (es, true))
      × Closed (unlock_below (closed_count s ds) es)
unfolding lock_and_close all_empty closed_count unlock_below lock unlock
lock_and_close-all_empty s [] free empty = ([], refl, none_open)
lock_and_close-all_empty s (d ∷ ds) (free_bag _ _ unlocked free) empty =
    elim (Bool-cases (first_chunk s d == 0)) [
      | inr e ↦ absurd (ground (arith, e, empty))
      | inl e ↦
          let others : all_empty s ds ≡ true = sym (rw (e, all_empty) refl) ∙ empty in
          let (es, eq, closed) = lock_and_close-all_empty s ds free others in
          let held : StackData = record d { locked = true } in
          (
            record held { is_closed = true } ∷ es,
            rw (unlocked, e, eq, lock_and_close, lock) refl,
            rw (e, closed_count)
                (closed_bag (unlock (record held { is_closed = true }))
                  (unlock_below (closed_count s ds) es) refl refl closed),
          )
    ]

-- Where a bag is not empty the second loop breaks at it and leaves its lock held, for which the last
-- loop then waits.
take_batch-lock_and_close :
    (s : Store) (removed : ℕ) (ds : List StackData)
    → Free ds
    → all_empty s ds ≡ false
    → (es : List StackData) × (lock_and_close s ds ≡ some (es, false))
      × (take_batch s removed (unlock_below (closed_count s ds) es) ≡ none)
unfolding lock_and_close all_empty closed_count unlock_below take_batch lock unlock
take_batch-lock_and_close s removed [] free full = absurd (ground (arith, full))
take_batch-lock_and_close s removed (d ∷ ds) (free_bag _ _ unlocked free) full =
    elim (Bool-cases (first_chunk s d == 0)) [
      | inr e ↦ (
        record d { locked = true } ∷ ds,
        rw (unlocked, e, lock_and_close, lock) refl,
        rw (e, closed_count, unlock_below, take_batch) (rw (e, lock) refl),
      )
      | inl e ↦
          let others : all_empty s ds ≡ false = sym (rw (e, all_empty) refl) ∙ full in
          let (es, eq, waits) = take_batch-lock_and_close s removed ds free others in
          let held : StackData = record d { locked = true } in
          (
            record held { is_closed = true } ∷ es,
            rw (unlocked, e, eq, lock_and_close, lock) refl,
            rw (e, closed_count, unlock_below) (rw (e, waits, take_batch) refl),
          )
    ]

-- Where the first loop finds every bag empty and no lock is held: if the bags are still empty at the
-- locks, the stack is closed with every bag, no lock is held, and every later push fails; and if
-- another processor has pushed in between, it waits for a lock that it holds itself, and never returns.
pub try_close_lem :
    (c : CcStack) (later : Store) (removed : ℕ)
    → Free c.stacks
    → all_empty c.store c.stacks ≡ true
    → ((all_empty later c.stacks ≡ true)
        × (u : CcStack) × (try_close c later removed ≡ some (u, true))
        × Closed u.stacks
        × ((bogus block_size proc datum : ℕ) (blocks : Allocation)
            → push bogus block_size u proc blocks datum ≡ some (u, false)))
      ⊎ ((all_empty later c.stacks ≡ false) × (try_close c later removed ≡ none))
unfolding try_close end_unclosed push
try_close_lem c later removed free empty = elim (Bool-cases (all_empty later c.stacks)) [
  | inl e ↦
      let (es, eq, closed) = lock_and_close-all_empty later c.stacks free e in
      inl (
        e,
        record c {
          store = later;
          stacks = unlock_below (closed_count later c.stacks) es;
          all_closed = true;
        },
        rw (empty, eq, try_close) refl,
        closed,
        λ bogus block_size proc datum blocks. refl,
      )
  | inr e ↦
      let (es, eq, waits) = take_batch-lock_and_close later removed c.stacks free e in
      inr (e, rw (empty, eq, waits, try_close, end_unclosed) refl)
]
