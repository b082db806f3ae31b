-- ===== src/Time/Laws.antt =====
-- The times of runtime/gc/rusage.c as numbers of nanoseconds and of microseconds.
use mpl.Base.{ℕ, ◌+◌, ◌-◌, ◌*◌, ◌≤◌, ◌<◌, ◌≡◌, some, ltb, leb, Bool-cases, inl, inr, refl, arith}
use mpl.Time.{
  Timespec, Timeval, billion, million, timespec_sub, timespec_add, timespec_geq, timeval_plus,
  timeval_minus, Rusage, rusage_plus_max, rusage_minus_max,
}

abbrev pub nanoseconds : Timespec → ℕ
nanoseconds t = t.tv_sec * billion + t.tv_nsec

abbrev pub microseconds : Timeval → ℕ
microseconds t = t.tv_sec * million + t.tv_usec

-- The nanoseconds are below a second.
abbrev pub IsNormal : Timespec → Type 0
IsNormal t = t.tv_nsec < billion

-- The difference of two times, the earlier of which is taken from the later, is their difference in
-- nanoseconds.
pub timespec_sub_lem :
    (x y : Timespec)
    → IsNormal x
    → IsNormal y
    → nanoseconds y ≤ nanoseconds x
    → (z : Timespec) × (timespec_sub x y ≡ some z)
      × IsNormal z
      × (nanoseconds z ≡ nanoseconds x - nanoseconds y)
unfolding timespec_sub
timespec_sub_lem x y hx hy h = elim (Bool-cases (ltb x.tv_nsec y.tv_nsec)) [
  | inl e ↦ (
    record { tv_sec = x.tv_sec - (y.tv_sec + 1); tv_nsec = x.tv_nsec + billion - y.tv_nsec },
    ground (arith, e),
    ground (arith, e),
    ground (arith, e),
  )
  | inr e ↦ (
    record { tv_sec = x.tv_sec - y.tv_sec; tv_nsec = x.tv_nsec - y.tv_nsec },
    ground (arith, e),
    ground (arith, e),
    ground (arith, e),
  )
]

pub timespec_add_lem :
    (x y : Timespec)
    → IsNormal x
    → IsNormal y
    → IsNormal (timespec_add x y) × (nanoseconds (timespec_add x y) ≡ nanoseconds x + nanoseconds y)
unfolding timespec_add
timespec_add_lem x y hx hy = ground arith

-- Between normal times the comparison by fields is that of the nanoseconds.
pub timespec_geq_lem :
    (t1 t2 : Timespec)
    → IsNormal t1
    → IsNormal t2
    → timespec_geq t1 t2 ≡ leb (nanoseconds t2) (nanoseconds t1)
unfolding timespec_geq
timespec_geq_lem t1 t2 h1 h2 = ground arith

timeval_minus-plus :
    (a b : Timeval)
    → a.tv_usec < million
    → b.tv_usec < million
    → timeval_minus (timeval_plus a b) b ≡ some a
unfolding timeval_minus timeval_plus
timeval_minus-plus a b h1 h2 = ground arith

-- Taking away what was added gives the time back.
pub rusage_minus_max-plus_max :
    (a b : Rusage)
    → a.ru_utime.tv_usec < million
    → a.ru_stime.tv_usec < million
    → b.ru_utime.tv_usec < million
    → b.ru_stime.tv_usec < million
    → rusage_minus_max (rusage_plus_max a b) b ≡ some a
unfolding rusage_minus_max rusage_plus_max
rusage_minus_max-plus_max a b h1 h2 h3 h4 =
    rw
      (
        timeval_minus-plus a.ru_utime b.ru_utime h1 h3,
        timeval_minus-plus a.ru_stime b.ru_stime h2 h4,
        rusage_minus_max,
      )
      refl
