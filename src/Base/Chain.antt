-- ===== src/Base/Chain.antt =====
-- Lists threaded through memory: a pointer is an address and 0 is NULL.
use Prim.Native.Nat.{ℕ}
use mathlib.Core.Path.{◌≡◌, refl, sym, fun_ext, subst, ap, ◌∙◌}
use mathlib.Core.Logic.{◌≢◌}
use mathlib.Core.List.{List, [], ◌∷◌, ◌++◌}
use native.Mathlib.Omega.{arith}
use native.Mathlib.Decide.{ℕ_discrete}
use mpl.Base.Tests.{◌==◌, if◌then◌else◌}

-- A store in C: one cell changes.
abbrev pub update {ℓ} : {A : Type ℓ} → (ℕ → A) → ℕ → A → ℕ → A
update f p v q = if p == q then v else f q

-- `x` is none of the addresses of a list.
abbrev pub Fresh : ℕ → List ℕ → Type 0
Fresh x [] = Unit {0}
Fresh x (y ∷ ys) = (x ≢ y) × Fresh x ys

-- The addresses are distinct.
abbrev pub Distinct : List ℕ → Type 0
Distinct [] = Unit {0}
Distinct (x ∷ xs) = Fresh x xs × Distinct xs

-- From `p` the field `next` leads through exactly these cells to NULL.
abbrev pub Chain : (ℕ → ℕ) → ℕ → List ℕ → Type 0
Chain next p [] = p ≡ 0
Chain next p (x ∷ xs) = (p ≡ x) × (x ≢ 0) × Chain next (next x) xs

-- A cell outside the chain may change its field.
pub Chain-frame :
    (next : ℕ → ℕ) (p : ℕ) (xs : List ℕ) (q v : ℕ)
    → Chain next p xs
    → Fresh q xs
    → Chain (update next q v) p xs
Chain-frame next p [] q v c f = c
Chain-frame next p (x ∷ xs) q v c f = ground (arith, Chain-frame next (next x) xs q v c.2 f.1)

-- The push of a new cell onto a chain, as the code does it.
pub Chain-push :
    (next : ℕ → ℕ) (p : ℕ) (xs : List ℕ) (q : ℕ)
    → q ≢ 0
    → Chain next p xs
    → Fresh q xs
    → Chain (update next q p) q (q ∷ xs)
Chain-push next p xs q h c f = ground (arith, Chain-frame next p xs q p c f)

pub update_at {ℓ} : {A : Type ℓ} (f : ℕ → A) (p q : ℕ) (v : A) → q ≡ p → update f p v q ≡ v
update_at f p q v h = ground (arith, h)

pub update_apart {ℓ} : {A : Type ℓ} (f : ℕ → A) (p q : ℕ) (v : A) → p ≢ q → update f p v q ≡ f q
update_apart f p q v h = ground (arith, h)

-- Where two memories have the same field everywhere, they have the same chains.
pub Chain-same :
    (next next' : ℕ → ℕ) (p : ℕ) (xs : List ℕ)
    → ((a : ℕ) → next' a ≡ next a)
    → Chain next p xs
    → Chain next' p xs
Chain-same next next' p xs same c = subst (λ f. Chain f p xs) (sym (fun_ext same)) c

abbrev pub last_of : ℕ → List ℕ → ℕ
last_of x [] = x
last_of x (y ∷ ys) = last_of y ys

Fresh-last_of : (x y : ℕ) (ys : List ℕ) → x ≢ y → Fresh x ys → last_of y ys ≢ x
Fresh-last_of x y [] ne f e = ne (sym e)
Fresh-last_of x y (z ∷ ys) ne f e = Fresh-last_of x z ys f.0 f.1 e

-- A chain is put before another by a change of its last cell.
pub Chain-join :
    (next : ℕ → ℕ) (p x : ℕ) (xs : List ℕ) (q : ℕ) (ys : List ℕ)
    → Chain next p (x ∷ xs)
    → Distinct (x ∷ xs)
    → Chain next q ys
    → Fresh (last_of x xs) ys
    → Chain (update next (last_of x xs) q) p ((x ∷ xs) ++ ys)
Chain-join next p x [] q ys c d e f =
    let rest = Chain-frame next q ys x q e f in
    (c.0, c.1, subst (λ r. Chain (update next x q) r ys) (sym (update_at next x x q refl)) rest)
Chain-join next p x (y ∷ xs) q ys c d e f =
    let end = last_of y xs in
    let apart : end ≢ x = Fresh-last_of x y xs d.0.0 d.0.1 in
    let rest = Chain-join next (next x) y xs q ys c.2 d.1 e f in
    (
      c.0,
      c.1,
      subst (λ r. Chain (update next end q) r ((y ∷ xs) ++ ys))
          (sym (update_apart next end x q apart)) rest,
    )

-- A field that a store does not change.
pub update-field {ℓ κ} :
    {A : Type ℓ} {B : Type κ} (f : A → B) (memory : ℕ → A) (p q : ℕ) (v : A)
    → f v ≡ f (memory p)
    → f (update memory p v q) ≡ f (memory q)
update-field f memory p q v same = elim (ℕ_discrete q p) [
  | yes e ↦ ap f (update_at memory p q v e) ∙ same ∙ ap (λ a. f (memory a)) (sym e)
  | no d ↦ ap f (update_apart memory p q v (λ e. d (sym e)))
]
