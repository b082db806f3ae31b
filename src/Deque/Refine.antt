-- ===== src/Deque/Refine.antt =====
-- With nothing in between the operations of runtime/gc/abp-deque.c are those of a double-ended
-- queue: the owner pushes and pops at the back, the others take from the front.
use mpl.Base.{
  ℕ, zero, suc, ◌+◌, ◌-◌, ◌^◌, ◌≤◌, ◌<◌, ◌≡◌, refl, ap, ap₂, ◌∙◌, Bool, true, false, List, [], ◌∷◌,
  ◌++◌, length, length-set, get_or, set, get_or-set_self, get_or-set_ne, ltb, if◌then◌else◌, arith,
}
use native.Mathlib.Numerals.{add-one}
use mpl.Deque.Pack.{unpack-pack}
use mpl.Deque.{
  Deque, Outcome, returned, unpack_tag, unpack_idx, push_bot, check_successful_pop, try_pop_bot,
  try_pop_top,
}

-- The `n` cells from index `i` on.
abbrev pub slice : List ℕ → ℕ → ℕ → List ℕ
slice xs i zero = []
slice xs i (suc n) = get_or xs i 0 ∷ slice xs (suc i) n

pub length-slice : (xs : List ℕ) (i n : ℕ) → length (slice xs i n) ≡ n
length-slice xs i zero = refl
length-slice xs i (suc n) = ap suc (length-slice xs (suc i) n)

slice-snoc : (xs : List ℕ) (i n : ℕ) → slice xs i (suc n) ≡ slice xs i n ++ get_or xs (i + n) 0 ∷ []
slice-snoc xs i zero = ap (λ k. get_or xs k 0 ∷ []) (omega arith)
slice-snoc xs i (suc n) =
    ap (λ t. get_or xs i 0 ∷ t)
      (slice-snoc xs (suc i) n ∙ ap (λ k. slice xs (suc i) n ++ get_or xs k 0 ∷ []) (omega arith))

slice-set : (xs : List ℕ) (i n j v : ℕ) → i + n ≤ j → slice (set xs j v) i n ≡ slice xs i n
slice-set xs i zero j v h = refl
slice-set xs i (suc n) j v h =
    ap₂ ◌∷◌ (get_or-set_ne xs {i = j} {j = i} v 0 (omega arith))
      (slice-set xs (suc i) n j v (omega arith))

pub record IsValid (d : Deque) : Type 0 where
  pub within : unpack_idx d.top ≤ d.bot
  pub room : d.bot ≤ length d.cells
  pub small : length d.cells < 64

-- The elements, oldest first.
abbrev pub contents : Deque → List ℕ
contents d = slice d.cells (unpack_idx d.top) (d.bot - unpack_idx d.top)

-- A double-ended queue of bounded room. A pop that fails returns `fail`.
abbrev pub push_back : ℕ → List ℕ → ℕ → Bool × List ℕ
push_back room q x = if ltb (length q) room then (true, q ++ x ∷ []) else (false, q)

abbrev pub pop_back : ℕ → List ℕ → Outcome × List ℕ
pop_back fail [] = (returned fail, [])
pop_back fail (x ∷ []) = (check_successful_pop x fail, [])
pop_back fail (x ∷ y ∷ q) = let (o, r) = pop_back fail (y ∷ q) in (o, x ∷ r)

abbrev pub pop_front : ℕ → List ℕ → Outcome × List ℕ
pop_front fail [] = (returned fail, [])
pop_front fail (x ∷ q) = (check_successful_pop x fail, q)

pop_back-snoc :
    (fail : ℕ) (q : List ℕ) (x : ℕ) → pop_back fail (q ++ x ∷ []) ≡ (check_successful_pop x fail, q)
pop_back-snoc fail [] x = refl
pop_back-snoc fail (y ∷ []) x = refl
pop_back-snoc fail (y ∷ z ∷ q) x =
    ap {A = Outcome × List ℕ} {B = Outcome × List ℕ} (λ r. (r.0, y ∷ r.1))
      (pop_back-snoc fail (z ∷ q) x)

slice_last :
    (xs : List ℕ) (i n m : ℕ) → n ≡ suc m → slice xs i n ≡ slice xs i m ++ get_or xs (i + m) 0 ∷ []
slice_last xs i n m e = ap (slice xs i) e ∙ slice-snoc xs i m

slice_first :
    (xs : List ℕ) (i n m : ℕ) → n ≡ suc m → slice xs i n ≡ get_or xs i 0 ∷ slice xs (suc i) m
slice_first xs i n m e = ap (slice xs i) e

slice_none : (xs : List ℕ) (i n : ℕ) → n ≡ 0 → slice xs i n ≡ []
slice_none xs i n e = ap (slice xs i) e

-- A push appends to the back where there is room, and leaves the deque as it was where not.
pub push_bot_refines :
    (d : Deque) (x : ℕ)
    → IsValid d
    → let (ok, d') = push_bot d x in
      ((ok, contents d') ≡ push_back (length d.cells - unpack_idx d.top) (contents d) x)
      × IsValid d'
      × (d'.top ≡ d.top)
unfolding push_bot
push_bot_refines d x v =
    let i = unpack_idx d.top in
    let n = d.bot - i in
    let moved = slice-set d.cells i n d.bot x (omega arith) in
    let last = slice_last (set d.cells d.bot x) i (d.bot + 1 - i) n (omega arith) in
    ground (
      arith,
      length-slice d.cells i n,
      moved,
      last,
      length-set d.cells d.bot x,
      get_or-set_self d.cells d.bot x 0,
    )

-- A pop by the owner takes the newest element, or fails on the empty deque. The tag grows by at
-- most 1.
pub try_pop_bot_refines :
    (fail : ℕ) (d : Deque)
    → IsValid d
    → unpack_tag d.top + 1 < 2 ^ 58
    → let (o, d') = try_pop_bot fail d in
      ((o, contents d') ≡ pop_back fail (contents d))
      × IsValid d'
      × (unpack_tag d'.top ≤ unpack_tag d.top + 1)
unfolding try_pop_bot
try_pop_bot_refines fail d v h =
    let i = unpack_idx d.top in
    let n = d.bot - i in
    let fields = unpack-pack (unpack_tag d.top + 1) i (omega arith) (omega arith) in
    ground (
      arith,
      fields,
      slice_none d.cells i n,
      slice_none d.cells i (d.bot - 1 - i),
      slice_last d.cells i n (n - 1),
      ap (λ k. get_or d.cells k 0),
      ap (slice d.cells i),
      pop_back-snoc fail (slice d.cells i (n - 1)) (get_or d.cells (d.bot - 1) 0),
    )

-- A pop by another processor takes the oldest element, or fails on the empty deque.
pub try_pop_top_refines :
    (fail : ℕ) (d : Deque)
    → IsValid d
    → unpack_tag d.top + 1 < 2 ^ 58
    → let (o, d') = try_pop_top fail d in
      ((o, contents d') ≡ pop_front fail (contents d))
      × IsValid d'
      × (unpack_tag d'.top ≡ unpack_tag d.top)
unfolding try_pop_top
try_pop_top_refines fail d v h =
    let i = unpack_idx d.top in
    let n = d.bot - i in
    let fields = unpack-pack (unpack_tag d.top) (i + 1) (omega arith) in
    ground (
      arith,
      fields,
      slice_none d.cells i n,
      slice_first d.cells i n (n - 1),
      ap (λ k. slice d.cells k (n - 1)) (add-one i),
    )
