-- ===== src/Deque/Pack.antt =====
-- The word that packs the tag and the index of a deque's top.
use mpl.Base.{ℕ, ◌+◌, ◌*◌, ◌/◌, ◌%◌, ◌^◌, ◌<◌, ◌≡◌, arith}
use native.Mathlib.Nat.{mod-eq_of_lt}
use mpl.Base.Bits.{bit_and_mask, bit_or_sum}
use mpl.Deque.{unpack_tag, unpack_idx, pack_tag_idx}

pub pack_sum :
    (w tag idx : ℕ) → tag * 2 ^ 6 < 2 ^ w → idx < 64 → pack_tag_idx w tag idx ≡ tag * 64 + idx
unfolding pack_tag_idx
pack_sum w tag idx h k = rw (mod-eq_of_lt h) (bit_or_sum 6 tag idx k)

pub unpack_idx-mod : (t : ℕ) → unpack_idx t ≡ t % 64
unfolding unpack_idx
unpack_idx-mod t = bit_and_mask 6 t

-- The tag and the index come back out of the packed word, for a tag of at most 58 bits and an
-- index of 6.
pub unpack-pack :
    (tag idx : ℕ)
    → tag < 2 ^ 58
    → idx < 64
    → (unpack_tag (pack_tag_idx 64 tag idx) ≡ tag) × (unpack_idx (pack_tag_idx 64 tag idx) ≡ idx)
unfolding unpack_tag
unpack-pack tag idx h k =
    omega (arith, pack_sum 64 tag idx (omega arith) k, unpack_idx-mod (pack_tag_idx 64 tag idx))

-- A packed word is determined by its parts.
pub pack-unpack : (t : ℕ) → t < 2 ^ 64 → pack_tag_idx 64 (unpack_tag t) (unpack_idx t) ≡ t
unfolding unpack_tag
pack-unpack t h = omega (
  arith,
  pack_sum 64 (t / 64) (unpack_idx t) (omega arith) (omega (arith, unpack_idx-mod t)),
  unpack_idx-mod t,
)
