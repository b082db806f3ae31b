-- ===== src/Blocks/Unlink.antt =====
-- `unlinkSuperBlock` of runtime/gc/block-allocator.c on a doubly linked list.
use mpl.Base.{ℕ, ◌≡◌, ◌≢◌, sym, subst, ◌∙◌, List, [], ◌∷◌, ◌++◌, arith}
use mpl.Base.Chain.{Fresh, Distinct}
use mpl.Blocks.{SuperBlock}
use mpl.Blocks.Links.{Linked}

unfoldable pub last_or : ℕ → List ℕ → ℕ
last_or b [] = b
last_or b (x ∷ xs) = last_or x xs

unfoldable pub head_or_null : List ℕ → ℕ
head_or_null [] = 0
head_or_null (x ∷ xs) = x

unfoldable pub entry : List ℕ → ℕ → ℕ → ℕ
entry [] n q = n
entry (x ∷ xs) n q = q

pub neighbours :
    (s : ℕ → SuperBlock) (before q sb : ℕ) (xs ys : List ℕ)
    → Linked s before q (xs ++ sb ∷ ys)
    → ((s sb).prev_super_block ≡ last_or before xs)
      × ((s sb).next_super_block ≡ head_or_null ys)
      × Linked s sb (head_or_null ys) ys
unfolding last_or head_or_null
neighbours s before q sb [] [] c = ground arith
neighbours s before q sb [] (y ∷ ys) c = ground arith
neighbours s before q sb (x ∷ xs) ys c = neighbours s x (s x).next_super_block sb xs ys c.3

pub Fresh-last : (x b : ℕ) (xs ys : List ℕ) → x ≢ b → Fresh x (xs ++ ys) → x ≢ last_or b xs
unfolding last_or
Fresh-last x b [] ys h f = h
Fresh-last x b (y ∷ xs) ys h f = Fresh-last x y xs ys f.0 f.1

pub Fresh-head :
    (x : ℕ) (xs : List ℕ) (y : ℕ) (ys : List ℕ)
    → x ≢ 0
    → Fresh x (xs ++ y ∷ ys)
    → x ≢ head_or_null ys
unfolding head_or_null
Fresh-head x [] y [] h f = h
Fresh-head x [] y (z ∷ ys) h f = f.1.0
Fresh-head x (w ∷ xs) y ys h f = Fresh-head x xs y ys h f.1

pub Fresh-right : (x : ℕ) (xs ys : List ℕ) → Fresh x (xs ++ ys) → Fresh x ys
Fresh-right x [] ys f = f
Fresh-right x (y ∷ xs) ys f = Fresh-right x xs ys f.1

pub Fresh-at : (x : ℕ) (xs : List ℕ) (y : ℕ) (ys : List ℕ) → Fresh x (xs ++ y ∷ ys) → x ≢ y
Fresh-at x [] y ys f = f.0
Fresh-at x (z ∷ xs) y ys f = Fresh-at x xs y ys f.1

-- The superblocks before and after, as far as the links go.
module _ (s t : ℕ → SuperBlock) (sb p n : ℕ)
    (next_kept : (x : ℕ) → x ≢ sb → x ≢ p → (t x).next_super_block ≡ (s x).next_super_block)
    (prev_kept : (x : ℕ) → x ≢ sb → x ≢ n → (t x).prev_super_block ≡ (s x).prev_super_block)
    (p_next : p ≢ 0 → (t p).next_super_block ≡ n)
    (n_prev : n ≢ 0 → (t n).prev_super_block ≡ p) where
  tail-kept :
      (x q : ℕ) (ys : List ℕ)
      → Linked s x q ys
      → Fresh sb ys
      → Fresh p ys
      → Fresh n ys
      → Linked t x q ys
  tail-kept x q [] c f g h = c
  tail-kept x q (y ∷ ys) c f g h = (
    c.0,
    c.1,
    prev_kept y (λ e. f.0 (sym e)) (λ e. h.0 (sym e)) ∙ c.2,
    subst (λ z. Linked t y z ys) (sym (next_kept y (λ e. f.0 (sym e)) (λ e. g.0 (sym e))))
        (tail-kept y (s y).next_super_block ys c.3 f.1 g.1 h.1),
  )

  tail-moved :
      (ys : List ℕ) → Linked s sb n ys → Fresh sb ys → Fresh p ys → Distinct ys → Linked t p n ys
  tail-moved [] c f g d = c
  tail-moved (y ∷ ys) c f g d =
      let e = n_prev (λ z. c.1 (sym c.0 ∙ z)) in
      (
        c.0,
        c.1,
        subst (λ z. (t z).prev_super_block ≡ p) c.0 e,
        subst (λ z. Linked t y z ys) (sym (next_kept y (λ e. f.0 (sym e)) (λ e. g.0 (sym e))))
            (tail-kept y (s y).next_super_block ys c.3 f.1 g.1
              (subst (λ z. Fresh z ys) (sym c.0) d.0)),
      )

  next-entry :
      (x : ℕ) (xs ys : List ℕ)
      → x ≢ 0
      → Fresh x (xs ++ sb ∷ ys)
      → p ≡ last_or x xs
      → (t x).next_super_block ≡ entry xs n (s x).next_super_block
  unfolding last_or entry
  next-entry x [] ys h f ep =
      subst (λ z. (t z).next_super_block ≡ n) ep (p_next (λ e. h (sym ep ∙ e)))
  next-entry x (y ∷ xs) ys h f ep =
      next_kept x (Fresh-at x (y ∷ xs) sb ys f) (λ e. Fresh-last x y xs (sb ∷ ys) f.0 f.1 (e ∙ ep))

  pub unlinked :
      (before q : ℕ) (xs ys : List ℕ)
      → Linked s before q (xs ++ sb ∷ ys)
      → Distinct (xs ++ sb ∷ ys)
      → Fresh before (xs ++ sb ∷ ys)
      → p ≡ last_or before xs
      → n ≡ head_or_null ys
      → Linked t before (entry xs n q) (xs ++ ys)
  unfolding last_or entry
  unlinked before q [] ys c d f ep en =
      subst (λ z. Linked t z n ys) ep
        (tail-moved ys (subst (λ z. Linked s sb z ys) (sym en) (neighbours s before q sb [] ys c).2)
          d.0 (subst (λ z. Fresh z ys) (sym ep) f.1) d.1)
  unlinked before q (x ∷ xs) ys c d f ep en =
      let not_n : x ≢ n = (λ e. Fresh-head x xs sb ys c.1 d.0 (e ∙ en)) in
      (
        c.0,
        c.1,
        prev_kept x (Fresh-at x xs sb ys d.0) not_n ∙ c.2,
        subst (λ z. Linked t x z (xs ++ ys)) (sym (next-entry x xs ys c.1 d.0 ep))
            (unlinked x (s x).next_super_block xs ys c.3 d.1 d.0 ep en),
      )
