-- ===== src/Deque/Depth.antt =====
-- `ABP_deque_set_depth` of runtime/gc/abp-deque.c.
use mpl.Base.{
  Bool-cases, inl, inr, refl, ◌==◌, ℕ, ◌+◌, ◌*◌, ◌%◌, ◌^◌, ◌≤◌, ◌<◌, ◌≡◌, ◌≢◌, none, some, length,
  arith,
}
use mpl.Base.Bits.{bit_or_sum}
use mpl.Deque.Pack.{unpack_idx-mod}
use mpl.Deque.Refine.{IsValid}
use mpl.Deque.{
  Deque, unpack_tag, unpack_idx, pack_tag_idx, pop_top_look, set_depth, set_depth_between,
}

-- With a 32-bit tag the shift drops the tag's upper six bits.
pack_short : (tag idx : ℕ) → idx < 64 → pack_tag_idx 32 tag idx ≡ tag % 2 ^ 26 * 64 + idx
unfolding pack_tag_idx
pack_short tag idx h =
    let e : tag * 64 % 2 ^ 32 ≡ tag % 2 ^ 26 * 64 = omega arith in
    rw e (bit_or_sum 6 (tag % 2 ^ 26) idx h)

short_fields :
    (tag idx : ℕ)
    → idx < 64
    → (unpack_tag (pack_tag_idx 32 tag idx) ≡ tag % 2 ^ 26)
      × (unpack_idx (pack_tag_idx 32 tag idx) ≡ idx)
unfolding unpack_tag
short_fields tag idx h =
    omega (arith, pack_short tag idx h, unpack_idx-mod (pack_tag_idx 32 tag idx))

pub set_depth_refuses :
    (d : Deque) (depth : ℕ) → unpack_idx d.top ≢ d.bot → set_depth d depth ≡ none
unfolding set_depth
set_depth_refuses d depth ne = ground arith

-- The deque is left as it is, or both ends move to the depth asked for.
set_depth_moved :
    (d : Deque) (depth : ℕ)
    → depth < 64
    → unpack_idx d.top ≡ d.bot
    → (d' : Deque) × (set_depth d depth ≡ some d')
      × (d'.bot ≡ depth)
      × (unpack_idx d'.top ≡ depth)
      × (d'.cells ≡ d.cells)
unfolding set_depth
set_depth_moved d depth h e =
    let fields = short_fields ((unpack_tag d.top % 2 ^ 32 + 1) % 2 ^ 32) depth h in
    elim (Bool-cases (depth == d.bot)) [
      | inl stay ↦ (d, ground arith, ground arith, ground arith, refl)
      | inr move ↦ (
        record d {
          bot = depth;
          top = pack_tag_idx 32 ((unpack_tag d.top % 2 ^ 32 + 1) % 2 ^ 32) depth;
        },
        ground arith,
        refl,
        fields.1,
        refl,
      )
    ]

set_depth_between_empty :
    (d : Deque) (depth : ℕ)
    → depth < 64
    → unpack_idx d.top ≡ d.bot
    → pop_top_look (set_depth_between d depth).top (set_depth_between d depth) ≡ none
unfolding set_depth_between pop_top_look
set_depth_between_empty d depth h e =
    ground (arith, short_fields ((unpack_tag d.top % 2 ^ 32 + 1) % 2 ^ 32) depth h)

-- On an empty deque both ends move to the depth asked for, the cells stay, and no other processor
-- finds an element between the two stores.
pub set_depth_lem :
    (d : Deque) (depth : ℕ)
    → IsValid d
    → depth ≤ length d.cells
    → unpack_idx d.top ≡ d.bot
    → ((d' : Deque) × (set_depth d depth ≡ some d')
        × (d'.bot ≡ depth)
        × (unpack_idx d'.top ≡ depth)
        × (d'.cells ≡ d.cells))
      × (pop_top_look (set_depth_between d depth).top (set_depth_between d depth) ≡ none)
set_depth_lem d depth v h e =
    (set_depth_moved d depth (omega arith) e, set_depth_between_empty d depth (omega arith) e)

-- The tag of a deque that moves is one more in its lowest 26 bits, and 0 above them.
pub set_depth_tag :
    (d d' : Deque) (depth : ℕ)
    → depth < 64
    → depth ≢ d.bot
    → set_depth d depth ≡ some d'
    → unpack_tag d'.top ≡ (unpack_tag d.top + 1) % 2 ^ 26
unfolding set_depth
set_depth_tag d d' depth h ne e =
    ground (arith, short_fields ((unpack_tag d.top % 2 ^ 32 + 1) % 2 ^ 32) depth h)
