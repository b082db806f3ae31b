-- ===== src/Heaps/ScopeLaws.antt =====
-- `HM_HH_desiredCollectionScope` of runtime/gc/hierarchical-heap.c stays within the local scope.
use native.Mathlib.Nat.{mod-eq_of_lt}
use mpl.Base.{
  ℕ, zero, suc, ◌+◌, ◌*◌, ◌/◌, ◌%◌, ◌^◌, ◌≤◌, ◌<◌, ◌≡◌, refl, ◌⊎◌, inl, inr, Bool, Bool-cases, true,
  false, not, ◌&&◌, ◌||◌, some, List, [], ◌∷◌, ◌==◌, ltb, leb, length, arith,
}
use mpl.Base.Chain.{Chain}
use mpl.Heaps.{World}
use mpl.Heaps.Zip.{Thread}
use mpl.Heaps.Scope.{HhConfig, chunk_list_size, widen, scope_within, desired_collection_scope}

abbrev ancestors : World → ℕ → ℕ
ancestors w a = (w.heaps a).next_ancestor

unfoldable pub total_size : World → List ℕ → ℕ
total_size w [] = 0
total_size w (x ∷ xs) = chunk_list_size w x + total_size w xs

-- A heap is the first one, or one above it.
pub data IsOneOf (a : ℕ) : ℕ → List ℕ → Type 0 where
  first_one : {x : ℕ} {xs : List ℕ} → a ≡ x → IsOneOf a x xs
  later_one : {x y : ℕ} {xs : List ℕ} → IsOneOf a y xs → IsOneOf a x (y ∷ xs)

-- The loops end, and where the second has a budget no larger than the sum that the first has found, it
-- stops no further up than the first, at an allowed depth.
widen_both :
    (allowed : ℕ → Bool) (fuel : ℕ) (w : World) (cursor size budget : ℕ) (xs : List ℕ)
    → Chain (ancestors w) (ancestors w cursor) xs
    → length xs ≤ fuel
    → size + total_size w xs < 2 ^ 64
    → allowed (w.heaps cursor).depth ≡ true
    → (top : ℕ) × (total : ℕ) × (widen allowed fuel w cursor size budget ≡ some (top, total))
      × (size ≤ total)
      × ((less : ℕ)
          → less ≤ total
          → (end : ℕ) × (sum : ℕ) × (widen (λ _. true) fuel w cursor size less ≡ some (end, sum))
            × (allowed (w.heaps end).depth ≡ true)
            × IsOneOf end cursor xs)
unfolding widen total_size
widen_both allowed zero w cursor size budget [] c h room ok =
    (cursor, size, rw c refl, omega arith, λ less le. (cursor, size, rw c refl, ok, first_one refl))
widen_both allowed zero w cursor size budget (x ∷ xs) c h room ok = absurd (omega (arith, h))
widen_both allowed (suc fuel) w cursor size budget [] c h room ok =
    (cursor, size, rw c refl, omega arith, λ less le. (cursor, size, rw c refl, ok, first_one refl))
widen_both allowed (suc fuel) w cursor size budget (x ∷ xs) c h room ok =
    let more = (chunk_list_size w x + size) % 2 ^ 64 in
    let exact : more ≡ chunk_list_size w x + size = mod-eq_of_lt (omega (arith, room)) in
    let test = not (x == 0) && allowed (w.heaps x).depth && ltb more budget in
    elim (Bool-cases test) [
      | inr stop ↦ (
        cursor,
        size,
        rw (c.0, stop) refl,
        omega arith,
        λ less le.
            let small : ltb more less ≡ false = ground (arith, exact, le) in
            let stop2 : (not (x == 0) && true && ltb more less) ≡ false = ground (arith, small) in
            (cursor, size, rw (c.0, stop2) refl, ok, first_one refl),
      )
      | inl go ↦
          let here : allowed (w.heaps x).depth ≡ true = ground (arith, go) in
          let (top, total, run, le, second) =
            widen_both allowed fuel w x more budget xs c.2 (omega (arith, h))
              (omega (arith, exact, room)) here in
          (
            top,
            total,
            rw (c.0, go) run,
            omega (arith, exact, le),
            λ less under.
                let test2 = not (x == 0) && true && ltb more less in
                elim (Bool-cases test2) [
                  | inr stop ↦ (cursor, size, rw (c.0, stop) refl, ok, first_one refl)
                  | inl go2 ↦
                      let (end, sum, run2, fine, one) = second less under in
                      (end, sum, rw (c.0, go2) run2, fine, later_one one)
                ],
          )
    ]

-- The tests by which nothing is collected, or a leaf that is too small by itself.
abbrev pub declined : HhConfig → World → Thread → (scope : ℕ) → Bool
declined c w thread scope =
    let hh = thread.hierarchical_heap in
    let budget = 4 * thread.bytes_allocated_since_last % 2 ^ 64 in
    ltb (thread.bytes_allocated_since_last * c.threshold_den)
      (c.threshold_num * thread.bytes_survived_last)
    || ltb budget c.min_collection_size
    || ltb thread.current_depth scope
    || ltb (w.heaps hh).depth scope
    || ltb budget (chunk_list_size w hh)
    || ltb (chunk_list_size w hh) c.min_collection_size

-- The search ends, with fuel for the heaps above the leaf and where the sizes do not wrap. Either it gives
-- one below the current depth, so that nothing is collected, and this only where a test of the code before
-- the loops asks for it or the leaf is too small by itself; or it gives the depth of the leaf or of a heap
-- above it, and none above the local scope: the second loop does not look at the depths, but its budget
-- keeps it below the first.
pub desired_collection_scope_lem :
    (fuel : ℕ) (c : HhConfig) (w : World) (thread : Thread) (scope : ℕ) (xs : List ℕ)
    → let hh = thread.hierarchical_heap in
      Chain (ancestors w) (ancestors w hh) xs
      → length xs ≤ fuel
      → chunk_list_size w hh + total_size w xs < 2 ^ 64
      → (depth : ℕ) × (desired_collection_scope fuel c w thread (some scope) ≡ some depth)
        × (((depth ≡ (thread.current_depth + 1) % 2 ^ 32) × (declined c w thread scope ≡ true))
            ⊎ ((a : ℕ) × IsOneOf a hh xs × (depth ≡ (w.heaps a).depth) × (scope ≤ depth)))
unfolding desired_collection_scope scope_within
desired_collection_scope_lem fuel c w thread scope xs chain h room =
    let hh = thread.hierarchical_heap in
    let size = chunk_list_size w hh in
    let skip = (thread.current_depth + 1) % 2 ^ 32 in
    let budget = 4 * thread.bytes_allocated_since_last % 2 ^ 64 in
    elim (Bool-cases (
      ltb (thread.bytes_allocated_since_last * c.threshold_den)
        (c.threshold_num * thread.bytes_survived_last))) [
          | inl few ↦ (skip, rw few refl, inl (refl, ground (arith, few)))
          | inr many ↦
              elim (Bool-cases (
                ltb budget c.min_collection_size
                || ltb thread.current_depth scope
                || ltb (w.heaps hh).depth scope
                || ltb budget size)) [
                  | inl out ↦ (skip, rw (many, out) refl, inl (refl, ground (arith, out)))
                  | inr within ↦
                      let ok : leb scope (w.heaps hh).depth ≡ true = ground (arith, within) in
                      let (top, total, run, le, second) =
                        widen_both (leb scope) fuel w hh size budget xs chain h room ok in
                      let (end, sum, run2, fine, one) = second (3 * total / 4) (omega arith) in
                      elim (Bool-cases (ltb total c.min_collection_size)) [
                        | inl small ↦ (
                          skip,
                          rw (many, within, run, small) refl,
                          inl (refl, ground (arith, small, le)),
                        )
                        | inr big ↦ (
                          (w.heaps end).depth,
                          rw (many, within, run, big, run2) refl,
                          inr (end, one, refl, ground (arith, fine)),
                        )
                      ]
                ]
        ]
