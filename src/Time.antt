-- ===== src/Time.antt =====
-- The arithmetic of times in runtime/gc/rusage.c, the histogram of runtime/gc/time-histogram.c and
-- the sampler of runtime/gc/sampler.c. Times are not negative; `none` is a difference below zero,
-- which the assertions of the C code exclude.
pub mod Laws
pub mod Histogram
pub mod Sampler
mod Tests
use mpl.Base.{
  ℕ, ◌+◌, ◌-◌, ◌*◌, ◌/◌, ◌%◌, ◌^◌, Bool, true, false, Option, none, some, ltb, leb, if◌then◌else◌,
}

-- `struct timespec`
pub record Timespec : Type 0 where
  pub tv_sec : ℕ
  pub tv_nsec : ℕ

-- `struct timeval`
pub record Timeval : Type 0 where
  pub tv_sec : ℕ
  pub tv_usec : ℕ

-- The part of `struct rusage` that is used.
pub record Rusage : Type 0 where
  pub ru_utime : Timeval
  pub ru_stime : Timeval

abbrev pub billion : ℕ
billion = 1_000_000_000

abbrev pub million : ℕ
million = 1_000_000

-- `timespec_sub`, which leaves its result in `x`.
unfoldable pub timespec_sub : (x y : Timespec) → Option Timespec
timespec_sub x y =
    let borrow = ltb x.tv_nsec y.tv_nsec in
    let sec = if borrow then y.tv_sec + 1 else y.tv_sec in
    let nsec = if borrow then x.tv_nsec + billion - y.tv_nsec else x.tv_nsec - y.tv_nsec in
    if leb sec x.tv_sec then some record { tv_sec = x.tv_sec - sec; tv_nsec = nsec } else none

-- `timespec_add`, which leaves its result in `x`.
unfoldable pub timespec_add : (x y : Timespec) → Timespec
timespec_add x y =
    let sec = x.tv_sec + y.tv_sec in
    let nsec = x.tv_nsec + y.tv_nsec in
    if leb billion nsec
    then record { tv_sec = sec + 1; tv_nsec = nsec - billion }
    else record { tv_sec = sec; tv_nsec = nsec }

unfoldable pub timespec_geq : (t1 t2 : Timespec) → Bool
timespec_geq t1 t2 =
    if ltb t2.tv_sec t1.tv_sec
    then true
    else if ltb t1.tv_sec t2.tv_sec
    then false
    else leb t2.tv_nsec t1.tv_nsec

-- One of the two halves of `rusagePlusMax`, `rusageMinusMax` and `rusageMultiply`.
unfoldable pub timeval_plus : (t1 t2 : Timeval) → Timeval
timeval_plus t1 t2 =
    let usec = t1.tv_usec + t2.tv_usec in
    record { tv_sec = t1.tv_sec + t2.tv_sec + usec / million; tv_usec = usec % million }

-- The C code takes 1 from the seconds and adds a million to the microseconds first.
unfoldable pub timeval_minus : (t1 t2 : Timeval) → Option Timeval
timeval_minus t1 t2 =
    let usec = t1.tv_usec + million - t2.tv_usec in
    let sec = t1.tv_sec + usec / million in
    if leb (t2.tv_sec + 1) sec
    then some record { tv_sec = sec - (t2.tv_sec + 1); tv_usec = usec % million }
    else none

unfoldable pub timeval_multiply : Timeval → (factor : ℕ) → Timeval
timeval_multiply t factor =
    let usec = t.tv_usec * factor in
    record { tv_sec = t.tv_sec * factor + usec / million; tv_usec = usec % million }

-- `rusageZero`
pub rusage_zero : Rusage
rusage_zero = record {
  ru_utime = record { tv_sec = 0; tv_usec = 0 };
  ru_stime = record { tv_sec = 0; tv_usec = 0 };
}

unfoldable pub rusage_plus_max : (ru1 ru2 : Rusage) → Rusage
rusage_plus_max ru1 ru2 = record {
  ru_utime = timeval_plus ru1.ru_utime ru2.ru_utime;
  ru_stime = timeval_plus ru1.ru_stime ru2.ru_stime;
}

unfoldable pub rusage_minus_max : (ru1 ru2 : Rusage) → Option Rusage
rusage_minus_max ru1 ru2 = elim (timeval_minus ru1.ru_utime ru2.ru_utime) [
  | none ↦ none
  | some utime ↦ elim (timeval_minus ru1.ru_stime ru2.ru_stime) [
    | none ↦ none
    | some stime ↦ some record { ru_utime = utime; ru_stime = stime }
  ]
]

pub rusage_multiply : Rusage → (factor : ℕ) → Rusage
rusage_multiply ru1 factor = record {
  ru_utime = timeval_multiply ru1.ru_utime factor;
  ru_stime = timeval_multiply ru1.ru_stime factor;
}

-- `rusageTime`, in milliseconds.
unfoldable pub rusage_time : Rusage → ℕ
rusage_time ru =
    (1000 * ru.ru_utime.tv_sec
      + 1000 * ru.ru_stime.tv_sec
      + ru.ru_utime.tv_usec / 1000
      + ru.ru_stime.tv_usec / 1000)
    % 2 ^ 64

-- `stopTiming`, where `ru_finish` is what `getrusage_thread` returned: the time since the start, and
-- the new accumulator.
pub stop_timing : (ru_finish ru_start ru_acc : Rusage) → Option (ℕ × Rusage)
stop_timing ru_finish ru_start ru_acc = elim (rusage_minus_max ru_finish ru_start) [
  | none ↦ none
  | some ru_total ↦ some (rusage_time ru_total, rusage_plus_max ru_acc ru_total)
]
