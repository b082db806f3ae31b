-- ===== src/Deque/Race.antt =====
-- The owner's pop of the last element against another processor's, in every interleaving of their
-- accesses to the shared words (runtime/gc/abp-deque.c).
pub mod View
pub mod Keep
pub mod Once
use mpl.Base.{
  ℕ, zero, suc, ◌+◌, ◌-◌, ◌^◌, ◌≤◌, ◌<◌, ◌≡◌, refl, ◌≢◌, ◌⊎◌, inl, inr, Bool, true, false, Option,
  none, some, List, [], ◌∷◌, get_or, length, arith,
}
use mpl.Deque.Pack.{unpack-pack}
use mpl.Deque.{
  Deque, Outcome, returned, died, Look, unpack_tag, unpack_idx, pack_tag_idx, check_successful_pop,
  pop_bot_lower, pop_bot_look, pop_bot_lost, pop_bot_decide, pop_top_look, pop_top_commit,
}

-- Where the owner stands in `ABP_deque_try_pop_bot`.
pub data Owner : Type 0 where
  entering : Owner
  lowered : ℕ → Owner
  looked : ℕ → Look → Owner
  owner_done : Outcome → Owner

-- Where a thief stands in `ABP_deque_try_pop_top`.
pub data Thief : Type 0 where
  arriving : Thief
  has_top : ℕ → Thief
  has_elem : ℕ → ℕ → Thief
  thief_done : Outcome → Thief

pub record System : Type 0 where
  pub deque : Deque
  pub owner : Owner
  pub thief : Thief

module _ (fail : ℕ) where
  pub owner_step : Owner → Deque → Owner × Deque
  owner_step entering d = elim (pop_bot_lower d) [
    | none ↦ (owner_done (returned fail), d)
    | some (b, d') ↦ (lowered b, d')
  ]
  owner_step (lowered b) d = (looked b (pop_bot_look d b), d)
  owner_step (looked b l) d = let (o, d') = pop_bot_decide fail b l d in (owner_done o, d')
  owner_step (owner_done o) d = (owner_done o, d)

  pub thief_step : Thief → Deque → Thief × Deque
  thief_step arriving d = (has_top d.top, d)
  thief_step (has_top t) d = elim (pop_top_look t d) [
    | none ↦ (thief_done (returned fail), d)
    | some x ↦ (has_elem t x, d)
  ]
  thief_step (has_elem t x) d = let (o, d') = pop_top_commit fail t x d in (thief_done o, d')
  thief_step (thief_done o) d = (thief_done o, d)

  -- `true` lets the owner take its next step, `false` the thief.
  pub step : Bool → System → System
  unfolding owner_step thief_step
  step true s = let (o, d) = owner_step s.owner s.deque in record s { owner = o; deque = d }
  step false s = let (t, d) = thief_step s.thief s.deque in record s { thief = t; deque = d }

  pub run : List Bool → System → System
  run [] s = s
  run (b ∷ bs) s = run bs (step b s)

-- The deque holds the one element `x` at index `i`, under tag `t`.
abbrev pub start : ℕ → ℕ → List ℕ → System
start t i cells = record {
  deque = record { top = pack_tag_idx 64 t i; bot = i + 1; cells = cells };
  owner = entering;
  thief = arriving;
}

-- How many turns a schedule gives to the owner (`true`) or to the thief (`false`).
abbrev pub turns : Bool → List Bool → ℕ
turns b [] = 0
turns true (true ∷ bs) = suc (turns true bs)
turns true (false ∷ bs) = turns true bs
turns false (true ∷ bs) = turns false bs
turns false (false ∷ bs) = suc (turns false bs)
