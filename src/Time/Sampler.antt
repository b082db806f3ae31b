-- ===== src/Time/Sampler.antt =====
-- runtime/gc/sampler.c. The quotient of the seconds, a double in the C code, is exact here.
use native.Mathlib.Nat.{
  add-mul-div_right, div-lt_iff_lt-mul, div-eq_of_lt, div-le_self, lt_of_le_of_lt,
}
use mpl.Base.{
  ℕ, ◌+◌, ◌-◌, ◌*◌, ◌/◌, ◌%◌, ◌^◌, ◌<◌, ◌≡◌, inl, inr, ap, Option, none, some, ltb, ◌==◌,
  if◌then◌else◌, Bool-cases, max, arith,
}
use mpl.Time.{Timespec, timespec_sub, billion}
use mpl.Time.Laws.{nanoseconds, IsNormal}

-- `struct Sampler` without its closure.
pub record Sampler : Type 0 where
  pub desired_interval : Timespec
  pub absolute_start : Timespec
  pub current_epoch : ℕ

-- `initSampler` at the time `now`.
pub init_sampler : (desired_interval now : Timespec) → Sampler
init_sampler desired_interval now = record {
  desired_interval = desired_interval;
  absolute_start = now;
  current_epoch = 0;
}

unfoldable pub timespec_mul : Timespec → (multiplier : ℕ) → Timespec
timespec_mul dst multiplier =
    let product = dst.tv_nsec * multiplier % 2 ^ 64 in
    record {
      tv_sec = (dst.tv_sec * multiplier + product / billion) % 2 ^ 64;
      tv_nsec = product % billion;
    }

-- `epochDiff`: how many intervals lie between the last sample and now, both since the start.
unfoldable pub epoch_diff : (now last_sample interval : Timespec) → ℕ
epoch_diff now last_sample interval =
    (nanoseconds now - nanoseconds last_sample) / nanoseconds interval

-- The end of `maybeSample`, with the epoch that its compare-and-swap finds.
unfoldable pub count_sample :
    Sampler → (since : Timespec) → (found_epoch diff : ℕ) → Sampler × Option Timespec
count_sample samp since found_epoch diff =
    if ltb diff 1
    then (samp, none)
    else if found_epoch == samp.current_epoch
    then (record samp { current_epoch = (samp.current_epoch + diff) % 2 ^ 64 }, some since)
    else (record samp { current_epoch = found_epoch }, none)

-- `maybeSample` at the time `now`: the sampler, and the time that the function is called with.
-- `none` is a time before the start.
unfoldable pub maybe_sample :
    Sampler → (now : Timespec) → (found_epoch : ℕ) → Option (Sampler × Option Timespec)
maybe_sample samp now found_epoch =
    let last_sample = timespec_mul samp.desired_interval samp.current_epoch in
    elim (timespec_sub now samp.absolute_start) [
      | none ↦ none
      | some since ↦
          some (
            count_sample samp since found_epoch
              (epoch_diff since last_sample samp.desired_interval))
    ]

-- Where nothing overflows, a multiple of a time is that multiple in nanoseconds, in normal form.
pub timespec_mul_lem :
    (t : Timespec) (k : ℕ)
    → nanoseconds t * k < 2 ^ 64
    → IsNormal (timespec_mul t k) × (nanoseconds (timespec_mul t k) ≡ nanoseconds t * k)
unfolding timespec_mul
timespec_mul_lem t k h =
    let spread : nanoseconds t * k ≡ t.tv_sec * k * billion + t.tv_nsec * k = grind arith in
    let product = t.tv_nsec * k in (omega arith, omega (arith, h, spread))

quotient_sub : (s o i : ℕ) → 0 < i → (s - o * i) / i ≡ s / i - o
quotient_sub s o i pos = elim (Bool-cases (ltb s (o * i))) [
  | inl e ↦
      let few : s / i < o = (div-lt_iff_lt-mul {k = i} {x = s} {y = o} pos).1 (ground (arith, e)) in
      let zero_left : s - o * i ≡ 0 = ground (arith, e) in
      rw (zero_left, div-eq_of_lt pos) (omega (arith, few))
  | inr e ↦
      let whole : s - o * i + o * i ≡ s = ground (arith, e) in
      let split = add-mul-div_right (s - o * i) o pos in
      let same : (s - o * i + o * i) / i ≡ s / i = ap (λ x. x / i) whole in
      omega (arith, split, same)
]

count_sample_lem :
    (samp : Sampler) (since : Timespec) (passed : ℕ)
    → passed < 2 ^ 64
    → count_sample samp since samp.current_epoch (passed - samp.current_epoch) ≡ (
      record samp { current_epoch = max samp.current_epoch passed },
      if ltb samp.current_epoch passed then some since else none,
    )
unfolding count_sample
count_sample_lem samp since passed h = ground arith

-- Undisturbed, and where nothing overflows, a sample is taken exactly if more whole intervals have
-- passed since the start than are counted, and then all of them are counted.
pub maybe_sample_lem :
    (samp : Sampler) (now since : Timespec)
    → timespec_sub now samp.absolute_start ≡ some since
    → 0 < nanoseconds samp.desired_interval
    → nanoseconds samp.desired_interval * samp.current_epoch < 2 ^ 64
    → nanoseconds since < 2 ^ 64
    → let passed = nanoseconds since / nanoseconds samp.desired_interval in
      maybe_sample samp now samp.current_epoch
      ≡ some (
        record samp { current_epoch = max samp.current_epoch passed },
        if ltb samp.current_epoch passed then some since else none,
      )
unfolding maybe_sample epoch_diff
maybe_sample_lem samp now since started pos fits short =
    let (_, last) = timespec_mul_lem samp.desired_interval samp.current_epoch fits in
    let i = nanoseconds samp.desired_interval in
    let o = samp.current_epoch in
    let diff = quotient_sub (nanoseconds since) o i pos in
    let swap : i * o ≡ o * i = grind arith in
    rw (started, last, swap, diff, maybe_sample, epoch_diff)
      (ap some (
        count_sample_lem samp since (nanoseconds since / i)
          (lt_of_le_of_lt (div-le_self (nanoseconds since) i) short)))
