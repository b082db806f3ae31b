-- ===== src/ConcLists/Ends.antt =====
-- `HM_foreachPublic` of runtime/gc/remembered-set.c puts the public chunks behind the private ones.
use mpl.Base.{
  ℕ, ◌+◌, ◌%◌, ◌^◌, ◌≡◌, ◌≢◌, refl, ap, ap₂, ◌∙◌, false, some, List, [], ◌∷◌, ◌++◌, sym, subst,
  fun_ext, ◌==◌, arith,
}
use mpl.Base.Chain.{
  update, update_at, update_apart, Chain, Chain-same, Chain-join, Distinct, Fresh, last_of,
}
use mpl.Chunks.{Store, ChunkList}
use mpl.Chunks.Lists.{append_chunk_list}
use mpl.ConcLists.{Shared, with_store, pop_as_chunk_list}
use mpl.ConcLists.RemSets.{Remembered, private_of, public_of, foreach_private, foreach_public}

-- The appended list's sizes are added.
append_chunk_list-sizes :
    (s : Store) (l1 l2 : ℕ)
    → ((((append_chunk_list s l1 (some l2)).lists l1).size)
        ≡ ((s.lists l1).size + (s.lists l2).size) % 2 ^ 64)
      × ((((append_chunk_list s l1 (some l2)).lists l1).used_size)
          ≡ ((s.lists l1).used_size + (s.lists l2).used_size) % 2 ^ 64)
unfolding append_chunk_list
append_chunk_list-sizes s l1 l2 = (ground arith, ground arith)

abbrev pub nexts : Store → ℕ → ℕ
nexts s a = (s.chunks a).next_chunk

-- The last chunk of a list, 0 if it has none.
abbrev pub end_of : List ℕ → ℕ
end_of [] = 0
end_of (x ∷ xs) = last_of x xs

-- What the append does to the links and the ends.
append_chunk_list-empty :
    (s : Store) (l1 l2 : ℕ)
    → (s.lists l1).last_chunk ≡ 0
    → (s.lists l2).first_chunk ≢ 0
    → let t = append_chunk_list s l1 (some l2) in
      ((a : ℕ) → nexts t a ≡ nexts s a)
      × ((t.lists l1).first_chunk ≡ (s.lists l2).first_chunk)
      × ((t.lists l1).last_chunk ≡ (s.lists l2).last_chunk)
unfolding append_chunk_list
append_chunk_list-empty s l1 l2 z nz =
    ((λ a. ground (arith, z, nz)), ground (arith, z, nz), ground (arith, z, nz))

append_chunk_list-ends :
    (s : Store) (l1 l2 : ℕ)
    → (s.lists l1).last_chunk ≢ 0
    → (s.lists l2).first_chunk ≢ 0
    → let t = append_chunk_list s l1 (some l2) in
      ((a : ℕ) → nexts t a ≡ update (nexts s) (s.lists l1).last_chunk (s.lists l2).first_chunk a)
      × ((t.lists l1).first_chunk ≡ (s.lists l1).first_chunk)
      × ((t.lists l1).last_chunk ≡ (s.lists l2).last_chunk)
unfolding append_chunk_list
append_chunk_list-ends s l1 l2 nz1 nz =
    ((λ a. ground (arith, nz1, nz)), ground (arith, nz1, nz), ground (arith, nz1, nz))

-- The chunks of the second list are linked behind those of the first.
append_chunk_list-Chain :
    (s : Store) (l1 l2 : ℕ) (ps : List ℕ) (q : ℕ) (qs : List ℕ)
    → Chain (nexts s) (s.lists l1).first_chunk ps
    → (s.lists l1).last_chunk ≡ end_of ps
    → Distinct ps
    → Chain (nexts s) (s.lists l2).first_chunk (q ∷ qs)
    → (s.lists l2).last_chunk ≡ last_of q qs
    → Fresh (end_of ps) (q ∷ qs)
    → let t = append_chunk_list s l1 (some l2) in
      Chain (nexts t) (t.lists l1).first_chunk (ps ++ q ∷ qs)
      × ((t.lists l1).last_chunk ≡ last_of q qs)
append_chunk_list-Chain s l1 l2 [] q qs c1 e1 d c2 e2 f =
    let nz : (s.lists l2).first_chunk ≢ 0 = (λ e. c2.1 (sym c2.0 ∙ e)) in
    let (links, first, last) = append_chunk_list-empty s l1 l2 e1 nz in
    let t = append_chunk_list s l1 (some l2) in
    (
      subst (λ p. Chain (nexts t) p (q ∷ qs)) (sym first)
          (Chain-same (nexts s) (nexts t) (s.lists l2).first_chunk (q ∷ qs) links c2),
      last ∙ e2,
    )
append_chunk_list-Chain s l1 l2 (x ∷ xs) q qs c1 e1 d c2 e2 f =
    let nz : (s.lists l2).first_chunk ≢ 0 = (λ e. c2.1 (sym c2.0 ∙ e)) in
    let nz1 : (s.lists l1).last_chunk ≢ 0 =
      (λ e. end_of-cell (nexts s) (s.lists l1).first_chunk x xs c1 (sym e1 ∙ e)) in
    let (links, first, last) = append_chunk_list-ends s l1 l2 nz1 nz in
    let t = append_chunk_list s l1 (some l2) in
    let two = s.lists l2 in
    let joined =
      Chain-join (nexts s) (s.lists l1).first_chunk x xs two.first_chunk (q ∷ qs) c1 d c2 f in
    let same : nexts t ≡ update (nexts s) (last_of x xs) two.first_chunk =
      fun_ext links ∙ ap (λ e. update (nexts s) e two.first_chunk) e1 in
    (
      subst (λ p. Chain (nexts t) p ((x ∷ xs) ++ q ∷ qs)) (sym first)
          (subst (λ g. Chain g (s.lists l1).first_chunk ((x ∷ xs) ++ q ∷ qs)) (sym same) joined),
      last ∙ e2,
    )
  where
    end_of-cell : (next : ℕ → ℕ) (p y : ℕ) (ys : List ℕ) → Chain next p (y ∷ ys) → last_of y ys ≢ 0
    end_of-cell next p y [] c = c.1
    end_of-cell next p y (z ∷ zs) c = end_of-cell next (next y) z zs c.2

-- Where the public list has chunks and the walk over them ends, they are put behind the private ones, in
-- their order, and the public list is empty. The sizes of the private list grow by what the memory of
-- the local list happened to hold before, since the pop writes only its two ends: the chunks that are
-- appended do not count.
pub foreach_public-sizes :
    (fuel : ℕ) (c : Shared) (elems : ℕ → Remembered) (r list : ℕ) (es : List Remembered)
    (ps : List ℕ) (q : ℕ) (qs : List ℕ)
    → list ≢ private_of r
    → Chain (nexts c.store) (c.store.lists (private_of r)).first_chunk ps
    → (c.store.lists (private_of r)).last_chunk ≡ end_of ps
    → Distinct ps
    → Chain (nexts c.store) (c.conc (public_of r)).first_chunk (q ∷ qs)
    → (c.conc (public_of r)).last_chunk ≡ last_of q qs
    → Fresh (end_of ps) (q ∷ qs)
    → foreach_private fuel (pop_as_chunk_list c (public_of r) list).store elems list ≡ some es
    → (d : Shared) × (foreach_public fuel c elems r list ≡ some (d, es))
      × ((d.conc (public_of r)).first_chunk ≡ 0)
      × ((d.conc (public_of r)).last_chunk ≡ 0)
      × Chain (nexts d.store) (d.store.lists (private_of r)).first_chunk (ps ++ q ∷ qs)
      × ((d.store.lists (private_of r)).last_chunk ≡ last_of q qs)
      × ((d.store.lists (private_of r)).size
          ≡ ((c.store.lists (private_of r)).size + (c.store.lists list).size) % 2 ^ 64)
      × ((d.store.lists (private_of r)).used_size
          ≡ ((c.store.lists (private_of r)).used_size + (c.store.lists list).used_size) % 2 ^ 64)
unfolding foreach_public pop_as_chunk_list
foreach_public-sizes fuel c elems r list es ps q qs ne c1 e1 dis c2 e2 fresh run =
    let p = pop_as_chunk_list c (public_of r) list in
    let (sizes, used) = append_chunk_list-sizes p.store (private_of r) list in
    let popped : ChunkList = record (c.store.lists list) {
      first_chunk = (c.conc (public_of r)).first_chunk;
      last_chunk = (c.conc (public_of r)).last_chunk;
    } in
    let own = update_apart c.store.lists list (private_of r) popped ne in
    let local = update_at c.store.lists list list popped refl in
    let nz : (c.conc (public_of r)).first_chunk ≢ 0 = (λ e. c2.1 (sym c2.0 ∙ e)) in
    let some_public : ((c.conc (public_of r)).first_chunk == 0) ≡ false = ground (arith, nz) in
    let emptied = update_at c.conc (public_of r) (public_of r) _ refl in
    let (chain, last) =
      append_chunk_list-Chain p.store (private_of r) list ps q qs
        (subst (λ l. Chain (nexts c.store) l.first_chunk ps) (sym own) c1)
        (ap (λ l. l.last_chunk) own ∙ e1) dis
        (subst (λ l. Chain (nexts c.store) l.first_chunk (q ∷ qs)) (sym local) c2)
        (ap (λ l. l.last_chunk) local ∙ e2) fresh in
    (
      with_store p (append_chunk_list p.store (private_of r) (some list)),
      rw (some_public, run) refl,
      ap (λ l. l.first_chunk) emptied,
      ap (λ l. l.last_chunk) emptied,
      chain,
      last,
      sizes ∙ ap₂ (λ a b. (a.size + b.size) % 2 ^ 64) own local,
      used ∙ ap₂ (λ a b. (a.used_size + b.used_size) % 2 ^ 64) own local,
    )
