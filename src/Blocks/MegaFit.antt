-- ===== src/Blocks/MegaFit.antt =====
-- The first fit among the megablocks of runtime/gc/block-allocator.c.
use mpl.Base.{
  ℕ, zero, suc, ◌≤◌, ◌<◌, ◌≡◌, ◌≢◌, ◌⊎◌, inl, inr, refl, ap, List, [], ◌∷◌, ◌++◌, length, leb,
  false, Bool-cases, arith,
}
use mpl.Base.Chain.{Chain}
use mpl.Blocks.{Memory, next_of}
use mpl.Blocks.Unlink.{last_or}
use mpl.Blocks.Mega.{not_found, found, search_list}

-- All of the megablocks are smaller than needed.
abbrev pub TooSmall : Memory → ℕ → List ℕ → Type 0
TooSmall m needed [] = Unit {0}
TooSmall m needed (x ∷ xs) = ((m.headers x).word1 < needed) × TooSmall m needed xs

-- The first of the megablocks that is large enough, with what stands before it and after it.
pub record IsFirstFit (m : Memory) (needed : ℕ) (xs before_list after_list : List ℕ) (mb : ℕ)
    : Type 0 where
  pub splits : xs ≡ before_list ++ mb ∷ after_list
  pub too_small : TooSmall m needed before_list
  pub fits : needed ≤ (m.headers mb).word1

abbrev Found : ℕ → Memory → (needed class before p : ℕ) → List ℕ → Type 0
Found fuel m needed class before p xs =
    ((search_list fuel m needed class before p ≡ not_found) × TooSmall m needed xs)
    ⊎ ((ys : List ℕ) × (zs : List ℕ) × (mb : ℕ) × (search_list fuel m needed class before p
          ≡ found class (last_or before ys) mb)
        × IsFirstFit m needed xs ys zs mb)

-- The search goes on behind a megablock that is too small.
later :
    (fuel : ℕ) (m : Memory) (needed class before p x : ℕ) (xs : List ℕ)
    → p ≡ x
    → x ≢ 0
    → leb needed (m.headers x).word1 ≡ false
    → Found fuel m needed class x (next_of m x) xs
    → Found (suc fuel) m needed class before p (x ∷ xs)
unfolding search_list last_or
later fuel m needed class before p x xs at nonzero e (inl r) =
    inl (ground (arith, at, nonzero, e, r.0), (ground (arith, e), r.1))
later fuel m needed class before p x xs at nonzero e (inr (ys, zs, mb, eq, fit)) = inr (
  x ∷ ys,
  zs,
  mb,
  ground (arith, at, nonzero, e, eq),
  record {
    splits = ap (λ l. x ∷ l) fit.splits;
    too_small = (ground (arith, e), fit.too_small);
    fits = fit.fits;
  },
)

-- On a list of n megablocks, with fuel beyond n, the search ends: either all of them are smaller
-- than needed, or it finds the first that is not, with the megablock before it.
pub search_list_lem :
    (fuel : ℕ) (m : Memory) (needed class before p : ℕ) (xs : List ℕ)
    → Chain (next_of m) p xs
    → length xs < fuel
    → ((search_list fuel m needed class before p ≡ not_found) × TooSmall m needed xs)
      ⊎ ((ys : List ℕ) × (zs : List ℕ) × (mb : ℕ) × (search_list fuel m needed class before p
            ≡ found class (last_or before ys) mb)
          × IsFirstFit m needed xs ys zs mb)
unfolding search_list last_or
search_list_lem zero m needed class before p xs c h = absurd (omega (arith, h))
search_list_lem (suc fuel) m needed class before p [] c h = inl (ground arith, tt)
search_list_lem (suc fuel) m needed class before p (x ∷ xs) (at, nonzero, c) h =
    elim (Bool-cases (leb needed (m.headers x).word1)) [
      | inl e ↦
          inr
            ([], xs, x, ground arith, record { splits = refl; too_small = tt; fits = ground arith })
      | inr e ↦
          later fuel m needed class before p x xs at nonzero e
            (search_list_lem fuel m needed class x (next_of m x) xs c (omega (arith, h)))
    ]
