-- ===== src/WorkList/Pops.antt =====
-- Pushes and pops of runtime/gc/cc-work-list.c: the fields of an object come back one by one.
use mpl.Base.{
  ℕ, zero, suc, ◌+◌, ◌-◌, ◌%◌, ◌^◌, ◌≤◌, ◌≡◌, ◌≢◌, refl, ap, subst, sym, ◌∙◌, false, Option, none,
  some, List, [], ◌∷◌, length, ◌==◌, leb, if◌then◌else◌, eq→==, Bool-cases, inl, inr, arith,
}
use mpl.Base.Chain.{update}
use mpl.Objects.{Words, ObjectType}
use mpl.Chunks.{Store, word_sub, update_chunk_frontier_in_list, get_chunk_start}
use mpl.WorkList.{FrameInfo, Elem, Advanced, WorkList, elem_size, advance_one_field}
use mpl.WorkList.Ops.{popped, pop_chunk, pop_elem, pop}
use mpl.WorkList.Fields.{fields_from, fields_from-cases}

-- The element `elem` is the last of the current chunk of a work list, and begins at `place`.
pub record OnTop (w : WorkList) (elem : Elem) (place : ℕ) : Type 0 where
  pub last : (w.store.chunks w.current_chunk).frontier ≡ place + elem_size
  pub inside : get_chunk_start w.store w.current_chunk ≤ place
  pub there : w.elems place ≡ elem

pub update_self : {A : Type 0} (f : ℕ → A) (a : ℕ) (v : A) → update f a v a ≡ v
update_self f a v = rw (eq→== a a refl) refl

pub update-other : {A : Type 0} (f : ℕ → A) (a b : ℕ) (v : A) → b ≢ a → update f a v b ≡ f b
update-other f a b v ne = let other : (a == b) ≡ false = ground (arith, ne) in rw other refl

module _ (frame_info : ℕ → FrameInfo) (frames : ℕ) (object_types : List ObjectType) (m : Words)
    (list : ℕ) where
  -- Pops in a row: the fields and the work list that they leave.
  pub pop_many : (count : ℕ) → WorkList → Option (List ℕ × WorkList)
  pop_many zero w = some ([], w)
  pop_many (suc count) w = elim (pop frame_info frames object_types m w list) [
    | popped u field freed ↦ elim (pop_many count u) [
      | none ↦ none
      | some (fs, v) ↦ some (field ∷ fs, v)
    ]
    | _ ↦ none
  ]

  pop-OnTop :
      (w : WorkList) (elem : Elem) (place : ℕ) (r : Advanced)
      → OnTop w elem place
      → advance_one_field frame_info frames object_types m elem ≡ some r
      → pop frame_info frames object_types m w list ≡ (
          if r.object_done
          then popped
              (record w {
                elems = update w.elems place r.elem;
                store = update_chunk_frontier_in_list w.store (some list) w.current_chunk place;
              })
              r.field
              none
          else popped (record w { elems = update w.elems place r.elem }) r.field none)
  unfolding pop pop_elem pop_chunk
  pop-OnTop w elem place r on adv =
      let last = on.last in
      let inside = on.inside in
      let full : leb (w.store.chunks w.current_chunk).frontier
            (get_chunk_start w.store w.current_chunk)
          ≡ false =
        ground (arith, last, inside) in
      let ptr : (w.store.chunks w.current_chunk).frontier - elem_size ≡ place =
        omega (arith, last) in
      let there = ap w.elems ptr ∙ on.there in
      elim (Bool-cases r.object_done) [
        | inl e ↦ rw (sym ptr, full, there, adv, e, pop, pop_chunk, pop_elem) refl
        | inr e ↦ rw (sym ptr, full, there, adv, e, pop, pop_chunk, pop_elem) refl
      ]

  -- As many pops as there are fields return the fields, leave the end of the current chunk at
  -- `place`, and the elements elsewhere as they are.
  abbrev pub PopsTo : WorkList → (place : ℕ) → List ℕ → Type 0
  PopsTo w place fs =
      (u : WorkList) × (pop_many (length fs) w ≡ some (fs, u))
      × (u.store ≡ update_chunk_frontier_in_list w.store (some list) w.current_chunk place)
      × (u.current_chunk ≡ w.current_chunk)
      × ((a : ℕ) → a ≢ place → u.elems a ≡ w.elems a)

  -- The steps on the element on top of the work list are its pops.
  pub pop_many-fields_from :
      (steps : ℕ) (w : WorkList) (elem : Elem) (place : ℕ) (fs : List ℕ)
      → OnTop w elem place
      → fields_from frame_info frames object_types m steps elem ≡ some fs
      → PopsTo w place fs
  unfolding fields_from pop_many
  pop_many-fields_from zero w elem place fs on run = absurd (ground (arith, run))
  pop_many-fields_from (suc steps) w elem place fs on run =
      let (r, adv, cases) = fields_from-cases frame_info frames object_types m steps elem fs run in
      let one = pop-OnTop w elem place r on adv in
      elim cases [
        | inl (done, is) ↦ subst (PopsTo w place) (sym is) (
          record w {
            elems = update w.elems place r.elem;
            store = update_chunk_frontier_in_list w.store (some list) w.current_chunk place;
          },
          rw (one, done, pop_many) refl,
          refl,
          refl,
          λ a ne. update-other w.elems place a r.elem ne,
        )
        | inr (rest, more, run_on, is) ↦
            let v : WorkList = record w { elems = update w.elems place r.elem } in
            let on_v : OnTop v r.elem place = record {
              last = on.last;
              inside = on.inside;
              there = update_self w.elems place r.elem;
            } in
            let (u, pops, store, current, others) =
              pop_many-fields_from steps v r.elem place rest on_v run_on in
            subst (PopsTo w place) (sym is) (
              u,
              rw (one, more, pops, pop_many) refl,
              store,
              current,
              λ a ne. others a ne ∙ update-other w.elems place a r.elem ne,
            )
      ]

-- A new end of a chunk in a list: its end, its start and the used size of the list.
pub update_chunk_frontier_lem :
    (s : Store) (list chunk place : ℕ)
    → let t = update_chunk_frontier_in_list s (some list) chunk place in
      let old = (s.chunks chunk).frontier in
      ((t.chunks chunk).frontier ≡ place)
      × (get_chunk_start t chunk ≡ get_chunk_start s chunk)
      × ((t.lists list).used_size ≡ (
          if leb old place
          then ((s.lists list).used_size + (place - old)) % 2 ^ 64
          else word_sub (s.lists list).used_size (old - place)))
unfolding update_chunk_frontier_in_list
update_chunk_frontier_lem s list chunk place =
    let same = eq→== chunk chunk refl in
    let here = eq→== list list refl in (rw same refl, rw same refl, rw here refl)
