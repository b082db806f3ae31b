-- ===== src/Stacks/Promo.antt =====
-- The promotion stack in runtime/gc/stack.c: its copy into another stack, and the search in it.
use mpl.Base.{
  ℕ, zero, suc, ◌+◌, ◌*◌, ◌%◌, ◌^◌, ◌≤◌, ◌<◌, ◌≡◌, ◌≢◌, ◌⊎◌, inl, inr, refl, ap, sym, ◌∙◌, true,
  false, some, ◌==◌, ltb, eq→==, Bool-cases, arith,
}
use mpl.Objects.{Words, write}
use mpl.Stacks.{Frame, word_sub, copy_promo, frame_is_promotable, oldest_promotable}

write-other : (m : Words) (a v b : ℕ) → b ≢ a → write m a v b ≡ m b
write-other m a v b ne = let other : (b == a) ≡ false = ground (arith, ne) in rw other refl

write_self : (m : Words) (a v : ℕ) → write m a v a ≡ v
write_self m a v = rw (eq→== a a refl) refl

module _ (from_bot to_bot from_bottom to_bottom : ℕ) where
  -- The copy writes to its own slots only.
  copy_promo-other :
      (left i : ℕ) (m : Words) (a : ℕ)
      → ((j : ℕ) → i ≤ j → j < i + left → a ≢ to_bot + j * 8)
      → copy_promo left i m from_bot to_bot from_bottom to_bottom a ≡ m a
  unfolding copy_promo
  copy_promo-other zero i m a apart = refl
  copy_promo-other (suc left) i m a apart =
      let new = (to_bottom + word_sub (m (from_bot + i * 8)) from_bottom) % 2 ^ 64 in
      copy_promo-other left (i + 1) (write m (to_bot + i * 8) new) a
        (λ j low high. apart j (omega (arith, low)) (omega (arith, high)))
      ∙ write-other m (to_bot + i * 8) new a (apart i (omega arith) (omega arith))

  -- Where the slots of the two promotion stacks are apart, every entry is copied as a pointer to the
  -- frame at the same place of the other stack.
  pub copy_promo_lem :
      (left i : ℕ) (m : Words) (j : ℕ)
      → ((k l : ℕ) → k < i + left → l < i + left → from_bot + k * 8 ≢ to_bot + l * 8)
      → i ≤ j
      → j < i + left
      → copy_promo left i m from_bot to_bot from_bottom to_bottom (to_bot + j * 8)
        ≡ (to_bottom + word_sub (m (from_bot + j * 8)) from_bottom) % 2 ^ 64
  unfolding copy_promo
  copy_promo_lem zero i m j apart low high = absurd (omega (arith, low, high))
  copy_promo_lem (suc left) i m j apart low high =
      let new = (to_bottom + word_sub (m (from_bot + i * 8)) from_bottom) % 2 ^ 64 in
      let written = write m (to_bot + i * 8) new in
      elim (Bool-cases (i == j)) [
        | inl e ↦
            let same : i ≡ j = ground (arith, e) in
            ap
              (λ k.
                copy_promo left (i + 1) written from_bot to_bot from_bottom to_bottom
                  (to_bot + k * 8))
              (sym same)
            ∙ copy_promo-other left (i + 1) written (to_bot + i * 8)
                (λ k l h eq. absurd (omega (arith, l, eq)))
            ∙ write_self m (to_bot + i * 8) new
            ∙ ap (λ k. (to_bottom + word_sub (m (from_bot + k * 8)) from_bottom) % 2 ^ 64) same
        | inr e ↦
            let kept : written (from_bot + j * 8) ≡ m (from_bot + j * 8) =
              write-other m (to_bot + i * 8) new (from_bot + j * 8)
                (apart j i high (omega arith)) in
            copy_promo_lem left (i + 1) written j
              (λ k l a b. apart k l (omega (arith, a)) (omega (arith, b))) (ground (arith, e, low))
              (omega (arith, high))
            ∙ ap (λ w. (to_bottom + word_sub w from_bottom) % 2 ^ 64) kept
      ]

module _ (frame_info : (frame_top : ℕ) → Frame) where
  -- With fuel for every entry, the search ends at the end of the promotion stack or at
  -- an entry whose frame is promotable, and no entry before it has such a frame.
  pub oldest_promotable_lem :
      (fuel : ℕ) (m : Words) (bot top : ℕ)
      → top ≤ bot + fuel * 8
      → (n : ℕ) × (oldest_promotable frame_info fuel m bot top ≡ some (bot + n * 8))
        × ((top ≤ bot + n * 8) ⊎ (frame_is_promotable frame_info m (m (bot + n * 8)) ≡ true))
        × ((k : ℕ) → k < n → frame_is_promotable frame_info m (m (bot + k * 8)) ≡ false)
  unfolding oldest_promotable
  oldest_promotable_lem zero m bot top enough =
      let ended : ltb bot top ≡ false = ground (arith, enough) in
      let here : bot ≡ bot + 0 * 8 = omega arith in
      (
        0,
        rw (ended, oldest_promotable) (ap some here),
        inl (omega (arith, enough)),
        λ k l. absurd (omega (arith, l)),
      )
  oldest_promotable_lem (suc fuel) m bot top enough =
      let here : bot ≡ bot + 0 * 8 = omega arith in
      let there = ap (λ a. frame_is_promotable frame_info m (m a)) here in
      elim (Bool-cases (ltb bot top)) [
        | inr e ↦ (
          0,
          rw (e, oldest_promotable) (ap some here),
          inl (ground (arith, e)),
          λ k l. absurd (omega (arith, l)),
        )
        | inl e ↦ elim (Bool-cases (frame_is_promotable frame_info m (m bot))) [
          | inl yes_it_is ↦ (
            0,
            rw (e, yes_it_is, oldest_promotable) (ap some here),
            inr (sym there ∙ yes_it_is),
            λ k l. absurd (omega (arith, l)),
          )
          | inr no_it_is ↦
              let (n, eq, ends, before) =
                oldest_promotable_lem fuel m (bot + 8) top (omega (arith, enough)) in
              let place : bot + 8 + n * 8 ≡ bot + suc n * 8 = omega arith in
              (
                suc n,
                rw (e, no_it_is, oldest_promotable) (eq ∙ ap some place),
                moved (bot + 8 + n * 8) (bot + suc n * 8) top m place ends,
                λ k l. earlier bot n m no_it_is before k l,
              )
        ]
      ]
    where
      moved :
          (a b top : ℕ) (m : Words)
          → a ≡ b
          → (top ≤ a) ⊎ (frame_is_promotable frame_info m (m a) ≡ true)
          → (top ≤ b) ⊎ (frame_is_promotable frame_info m (m b) ≡ true)
      moved a b top m eq (inl le) = inl (omega (arith, eq, le))
      moved a b top m eq (inr is) =
          inr (ap (λ x. frame_is_promotable frame_info m (m x)) (sym eq) ∙ is)

      earlier :
          (bot n : ℕ) (m : Words)
          → frame_is_promotable frame_info m (m bot) ≡ false
          → ((k : ℕ) → k < n → frame_is_promotable frame_info m (m (bot + 8 + k * 8)) ≡ false)
          → (k : ℕ) → k < suc n
          → frame_is_promotable frame_info m (m (bot + k * 8)) ≡ false
      earlier bot n m first before zero l =
          let here : bot + 0 * 8 ≡ bot = omega arith in
          ap (λ x. frame_is_promotable frame_info m (m x)) here ∙ first
      earlier bot n m first before (suc k) l =
          let here : bot + suc k * 8 ≡ bot + 8 + k * 8 = omega arith in
          ap (λ x. frame_is_promotable frame_info m (m x)) here ∙ before k (omega (arith, l))
