-- ===== src/Deque/Race/View.antt =====
-- Where the two sides and the deque can stand during the race of Race.antt.
use mpl.Base.{ℕ, ◌+◌, ◌^◌, ◌<◌, ◌≡◌, ◌≢◌, ◌⊎◌, inl, inr, none, some, List, get_or, arith}
use mpl.Deque.Pack.{unpack-pack}
use mpl.Deque.{
  Deque, returned, Look, unpack_tag, unpack_idx, pack_tag_idx, pop_bot_lower, pop_bot_decide,
  pop_top_look, pop_top_commit,
}
use mpl.Deque.Race.{
  Owner, entering, lowered, looked, owner_done, Thief, arriving, has_top, has_elem, thief_done,
  System,
}

-- The parts of the four words that the top goes through.
pub tops :
    (t i : ℕ)
    → i < 63
    → t + 1 < 2 ^ 58
    → (unpack_tag (pack_tag_idx 64 t i) ≡ t)
      × (unpack_idx (pack_tag_idx 64 t i) ≡ i)
      × (unpack_tag (pack_tag_idx 64 t (i + 1)) ≡ t)
      × (unpack_idx (pack_tag_idx 64 t (i + 1)) ≡ i + 1)
      × (unpack_tag (pack_tag_idx 64 (t + 1) i) ≡ t + 1)
      × (unpack_idx (pack_tag_idx 64 (t + 1) i) ≡ i)
      × (unpack_tag (pack_tag_idx 64 (t + 1) (i + 1)) ≡ t + 1)
      × (unpack_idx (pack_tag_idx 64 (t + 1) (i + 1)) ≡ i + 1)
tops t i hi ht = omega (
  arith,
  unpack-pack t i (omega arith) (omega arith),
  unpack-pack t (i + 1) (omega arith) (omega arith),
  unpack-pack (t + 1) i (omega arith) (omega arith),
  unpack-pack (t + 1) (i + 1) (omega arith) (omega arith),
)

module _ (fail t i x : ℕ) (cells : List ℕ) where
  abbrev pub OwnerAt : Owner → Deque → Type 0
  OwnerAt entering d =
      ((d.top ≡ pack_tag_idx 64 t i) ⊎ (d.top ≡ pack_tag_idx 64 t (i + 1))) × (d.bot ≡ i + 1)
  OwnerAt (lowered b) d =
      ((d.top ≡ pack_tag_idx 64 t i) ⊎ (d.top ≡ pack_tag_idx 64 t (i + 1))) × (d.bot ≡ i) × (b ≡ i)
  OwnerAt (looked b l) d =
      (((d.top ≡ pack_tag_idx 64 t i) × (l.top ≡ pack_tag_idx 64 t i))
        ⊎ ((d.top ≡ pack_tag_idx 64 t (i + 1))
            × ((l.top ≡ pack_tag_idx 64 t i) ⊎ (l.top ≡ pack_tag_idx 64 t (i + 1)))))
      × (d.bot ≡ i)
      × (b ≡ i)
      × (l.elem ≡ x)
  OwnerAt (owner_done o) d =
      ((o ≡ returned x) × (d.top ≡ pack_tag_idx 64 (t + 1) i) × (d.bot ≡ i))
      ⊎ ((o ≡ returned fail) × (d.top ≡ pack_tag_idx 64 (t + 1) (i + 1)) × (d.bot ≡ i + 1))

  abbrev pub ThiefAt : Thief → ℕ → Type 0
  ThiefAt arriving top = (top ≡ pack_tag_idx 64 t i) ⊎ (top ≡ pack_tag_idx 64 (t + 1) i)
  ThiefAt (has_top a) top =
      ((top ≡ pack_tag_idx 64 t i) × (a ≡ pack_tag_idx 64 t i))
      ⊎ ((top ≡ pack_tag_idx 64 (t + 1) i)
          × ((a ≡ pack_tag_idx 64 t i) ⊎ (a ≡ pack_tag_idx 64 (t + 1) i)))
  ThiefAt (has_elem a e) top =
      ((top ≡ pack_tag_idx 64 t i) ⊎ (top ≡ pack_tag_idx 64 (t + 1) i))
      × (a ≡ pack_tag_idx 64 t i)
      × (e ≡ x)
  ThiefAt (thief_done o) top =
      ((o ≡ returned x)
        × ((top ≡ pack_tag_idx 64 t (i + 1)) ⊎ (top ≡ pack_tag_idx 64 (t + 1) (i + 1))))
      ⊎ ((o ≡ returned fail) × ((top ≡ pack_tag_idx 64 t i) ⊎ (top ≡ pack_tag_idx 64 (t + 1) i)))

  pub record Inv (s : System) : Type 0 where
    pub owner_at : OwnerAt s.owner s.deque
    pub thief_at : ThiefAt s.thief s.deque.top
    pub same_cells : s.deque.cells ≡ cells

module _ (fail t i x : ℕ) (cells : List ℕ) (hi : i < 63) (ht : t + 1 < 2 ^ 58)
    (hx : get_or cells i 0 ≡ x) (hf : x ≢ fail) where
  -- What the compare-and-swaps come to.
  pub decide_won :
      (b : ℕ) (l : Look) (d : Deque)
      → b ≡ i
      → l.elem ≡ x
      → l.top ≡ pack_tag_idx 64 t i
      → d.top ≡ pack_tag_idx 64 t i
      → pop_bot_decide fail b l d ≡ (returned x, record d { top = pack_tag_idx 64 (t + 1) i })
  unfolding pop_bot_decide
  decide_won b l d p q r e = ground (arith, hf, tops t i hi ht)

  pub decide_lost :
      (b : ℕ) (l : Look) (d : Deque)
      → b ≡ i
      → ((l.top ≡ pack_tag_idx 64 t i) ⊎ (l.top ≡ pack_tag_idx 64 t (i + 1)))
      → d.top ≡ pack_tag_idx 64 t (i + 1)
      → pop_bot_decide fail b l d
        ≡ (returned fail, record d { bot = i + 1; top = pack_tag_idx 64 (t + 1) (i + 1) })
  unfolding pop_bot_decide
  decide_lost b l d p (inl r) e = ground (arith, tops t i hi ht)
  decide_lost b l d p (inr r) e = ground (arith, tops t i hi ht)

  pub commit_won :
      (a y : ℕ) (d : Deque)
      → a ≡ pack_tag_idx 64 t i
      → y ≡ x
      → d.top ≡ pack_tag_idx 64 t i
      → pop_top_commit fail a y d ≡ (returned x, record d { top = pack_tag_idx 64 t (i + 1) })
  unfolding pop_top_commit
  commit_won a y d p q e = ground (arith, hf, tops t i hi ht)

  pub commit_lost :
      (a y : ℕ) (d : Deque)
      → a ≡ pack_tag_idx 64 t i
      → d.top ≡ pack_tag_idx 64 (t + 1) i
      → pop_top_commit fail a y d ≡ (returned fail, d)
  unfolding pop_top_commit
  commit_lost a y d p e = ground (arith, tops t i hi ht)

  pub enter : (d : Deque) → d.bot ≡ i + 1 → pop_bot_lower d ≡ some (i, record d { bot = i })
  unfolding pop_bot_lower
  enter d h = ground arith

  pub look_here :
      (a : ℕ) (d : Deque)
      → a ≡ pack_tag_idx 64 t i
      → d.cells ≡ cells
      → d.bot ≡ i + 1
      → pop_top_look a d ≡ some x
  unfolding pop_top_look
  look_here a d p e h = ground (arith, hx, tops t i hi ht)

  pub look_gone :
      (a : ℕ) (d : Deque)
      → ((a ≡ pack_tag_idx 64 t i) ⊎ (a ≡ pack_tag_idx 64 (t + 1) i))
      → d.bot ≡ i
      → pop_top_look a d ≡ none
  unfolding pop_top_look
  look_gone a d p h = ground (arith, tops t i hi ht)
