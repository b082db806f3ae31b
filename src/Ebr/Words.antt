-- ===== src/Ebr/Words.antt =====
-- The announcements and the limbo bags of runtime/gc/ebr.c.
use mpl.Base.{
  ℕ, ◌*◌, ◌/◌, ◌%◌, ◌^◌, ◌<◌, ◌≡◌, refl, ap, sym, ◌∙◌, bit_or, List, [], ◌∷◌, ◌++◌, append_assoc,
  append-nil, arith,
}
use mpl.Base.Bits.{bit_and_mask, bit_or_step, bit_or-zero}
use mpl.Ebr.{pack, unpack_epoch, unpack_qbit, set_q_true, Chunk, bag_words, retire_in}

qbit-mod : (a : ℕ) → unpack_qbit a ≡ a % 2
unfolding unpack_qbit
qbit-mod a = bit_and_mask 1 a

-- An epoch below 2 ^ 63 comes back out of its announcement, which is not quiescent.
pub unpack_epoch-pack :
    (epoch : ℕ)
    → epoch < 2 ^ 63
    → (unpack_epoch (pack epoch 0) ≡ epoch) × (unpack_qbit (pack epoch 0) ≡ 0)
unfolding pack unpack_epoch
unpack_epoch-pack epoch h =
    let e : epoch * 2 % 2 ^ 64 ≡ epoch * 2 = omega arith in
    ground (arith, e, bit_and_mask 1 0, bit_or-zero (epoch * 2), qbit-mod (epoch * 2))

-- The quiescent bit is set, and the epoch kept.
pub unpack-set_q_true :
    (a : ℕ) → (unpack_epoch (set_q_true a) ≡ unpack_epoch a) × (unpack_qbit (set_q_true a) ≡ 1)
unfolding set_q_true unpack_epoch
unpack-set_q_true a = omega (arith, bit_or_step a 1, bit_or-zero (a / 2), qbit-mod (bit_or a 1))

-- A retired pointer is the last word of its bag, whichever chunk holds it.
pub bag_words-retire_in :
    (ptr room : ℕ) (bag : List Chunk)
    → bag_words (retire_in ptr room bag) ≡ bag_words bag ++ ptr ∷ []
unfolding retire_in
bag_words-retire_in ptr room [] = refl
bag_words-retire_in ptr room (c ∷ []) =
    ground (arith, append-nil c.words, append-nil (c.words ++ ptr ∷ []))
bag_words-retire_in ptr room (c ∷ d ∷ cs) =
    ap (λ t. c.words ++ t) (bag_words-retire_in ptr room (d ∷ cs)) ∙ sym (append_assoc c.words _ _)
