-- ===== src/Time/Histogram.antt =====
-- runtime/gc/time-histogram.c.
use mpl.Base.{
  ℕ, zero, suc, ◌+◌, ◌-◌, ◌*◌, ◌%◌, ◌^◌, ◌≤◌, ◌<◌, ◌≡◌, ◌≢◌, ◌⊎◌, inl, inr, refl, Option, none,
  some, List, [], ◌∷◌, length, get_or, set, max, Bool, true, false, ◌||◌, leb, ◌==◌, Bool-cases,
  arith,
}
use mpl.Time.{Timespec, timespec_sub, timespec_geq}
use mpl.Time.Laws.{nanoseconds, IsNormal, timespec_sub_lem, timespec_geq_lem}

-- `struct TimeHistogram`; the number of the buckets is the length of the list.
pub record TimeHistogram : Type 0 where
  pub buckets : List ℕ
  pub bucket_width : Timespec

abbrev pub zeros : ℕ → List ℕ
zeros zero = []
zeros (suc n) = 0 ∷ zeros n

-- `TimeHistogram_new`
pub new_histogram : (num_buckets : ℕ) → Timespec → TimeHistogram
new_histogram num_buckets bucket_width = record {
  buckets = zeros (max 1 num_buckets);
  bucket_width = bucket_width;
}

-- The loop of `TimeHistogram_insert` from bucket `i` on, with `left` buckets ahead: the bucket at
-- which it breaks. `none` is a remainder below zero, or an end without a break.
unfoldable pub find_bucket : (num_buckets : ℕ) → Timespec → (left i : ℕ) → Timespec → Option ℕ
find_bucket num_buckets width zero i remainder = none
find_bucket num_buckets width (suc left) i remainder =
    elim (i == num_buckets - 1 || timespec_geq width remainder) [
      | true ↦ some i
      | false ↦ elim (timespec_sub remainder width) [
        | none ↦ none
        | some rest ↦ find_bucket num_buckets width left (i + 1) rest
      ]
    ]

-- `TimeHistogram_insert`
unfoldable pub insert : TimeHistogram → Timespec → Option TimeHistogram
insert h elem =
    let n = length h.buckets in
    elim (find_bucket n h.bucket_width n 0 elem) [
      | none ↦ none
      | some i ↦ some (record h { buckets = set h.buckets i ((get_or h.buckets i 0 + 1) % 2 ^ 64) })
    ]

-- The total that `TimeHistogram_reportDistribution` returns.
pub total : List ℕ → ℕ
total [] = 0
total (b ∷ bs) = (b + total bs) % 2 ^ 64

-- The bucket `i` of `n` is the one for a time of `e` nanoseconds at buckets of width `w`: it is the
-- first whose upper end is not below the time, and the last bucket takes what is above all.
pub record IsBucketOf (n w e i : ℕ) : Type 0 where
  pub within : i < n
  pub above : (i ≡ 0) ⊎ (i * w < e)
  pub not_above : (i ≡ n - 1) ⊎ (e ≤ (i + 1) * w)

first_or_above : (i p r e : ℕ) → p + r ≡ e → (i ≡ 0) ⊎ (0 < r) → (i ≡ 0) ⊎ (p < e)
first_or_above i p r e h (inl z) = inl z
first_or_above i p r e h (inr z) = inr (omega (arith, h, z))

last_or_below :
    (i n r w e : ℕ) (g : Bool)
    → (i == n - 1 || g) ≡ true
    → g ≡ leb r w
    → e + w ≡ (i + 1) * w + r
    → (i ≡ n - 1) ⊎ (e ≤ (i + 1) * w)
last_or_below i n r w e true t test h = inr (ground (arith, test, h))
last_or_below i n r w e false t test h = inl (ground (arith, t))

neither : (i n r w : ℕ) (g : Bool) → (i == n - 1 || g) ≡ false → g ≡ leb r w → (w < r) × (i ≢ n - 1)
neither i n r w g t test = ground (arith, t, test)

find_bucket_lem :
    (n : ℕ) (width : Timespec) (left i : ℕ) (remainder : Timespec) (e : ℕ)
    → IsNormal width
    → IsNormal remainder
    → left + i ≡ n
    → 0 < left
    → i * nanoseconds width + nanoseconds remainder ≡ e
    → (i ≡ 0) ⊎ (0 < nanoseconds remainder)
    → (b : ℕ) × (find_bucket n width left i remainder ≡ some b)
      × IsBucketOf n (nanoseconds width) e b
unfolding find_bucket
find_bucket_lem n width zero i remainder e hw hr hn pos he ha = absurd (omega (arith, pos))
find_bucket_lem n width (suc left) i remainder e hw hr hn pos he ha =
    let w = nanoseconds width in
    let up : (i + 1) * w ≡ i * w + w = grind arith in
    let test = timespec_geq_lem width remainder hw hr in
    elim (Bool-cases (i == n - 1 || timespec_geq width remainder)) [
      | inl t ↦ (
        i,
        rw (t, find_bucket) refl,
        record {
          within = omega (arith, hn);
          above = first_or_above i (i * w) (nanoseconds remainder) e he ha;
          not_above =
              last_or_below i n (nanoseconds remainder) w e (timespec_geq width remainder) t test
                (omega (arith, he, up));
        },
      )
      | inr f ↦
          let more = neither i n (nanoseconds remainder) w (timespec_geq width remainder) f test in
          let (rest, eq, normal, sub) =
            timespec_sub_lem remainder width hr hw (omega (arith, more)) in
          let (b, found, is) =
            find_bucket_lem n width left (i + 1) rest e hw normal (omega (arith, hn))
              (omega (arith, more, hn)) (omega (arith, up, sub, more, he))
              (inr (omega (arith, sub, more))) in
          (b, rw (f, eq, find_bucket) found, is)
    ]

-- With at least one bucket and a time in normal form, the insertion ends, and counts the time in the
-- bucket that is the first whose upper end is not below it, or in the last one.
pub insert_lem :
    (h : TimeHistogram) (elem : Timespec)
    → IsNormal h.bucket_width
    → IsNormal elem
    → 0 < length h.buckets
    → (b : ℕ) × (insert h elem
        ≡ some (record h { buckets = set h.buckets b ((get_or h.buckets b 0 + 1) % 2 ^ 64) }))
      × IsBucketOf (length h.buckets) (nanoseconds h.bucket_width) (nanoseconds elem) b
unfolding insert
insert_lem h elem hw he pos =
    let n = length h.buckets in
    let (b, found, is) =
      find_bucket_lem n h.bucket_width n 0 elem (nanoseconds elem) hw he (omega arith) pos
        (omega arith) (inl refl) in
    (b, rw (found, insert) refl, is)
