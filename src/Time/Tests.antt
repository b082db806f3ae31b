-- ===== src/Time/Tests.antt =====
-- Concrete times, and the witnesses of the theorems on them.
use mpl.Base.{ℕ, ◌+◌, ◌%◌, ◌^◌, ◌≡◌, [], ◌∷◌, get_or, set, some, false, arith}
use mpl.Time.{Timespec, timespec_sub, timespec_geq}
use mpl.Time.Laws.{nanoseconds, IsNormal, timespec_sub_lem, timespec_geq_lem}
use mpl.Time.Histogram.{TimeHistogram, insert, insert_lem, IsBucketOf}

abbrev early : Timespec
early = record { tv_sec = 3; tv_nsec = 900_000_000 }

abbrev late : Timespec
late = record { tv_sec = 5; tv_nsec = 100_000_000 }

abbrev three_buckets : TimeHistogram
three_buckets = record {
  buckets = 4 ∷ 1 ∷ 0 ∷ [];
  bucket_width = record { tv_sec = 2; tv_nsec = 0 };
}

timespec_sub_lem_example :
    (z : Timespec) × (timespec_sub late early ≡ some z)
    × IsNormal z
    × (nanoseconds z ≡ 1_200_000_000)
timespec_sub_lem_example = timespec_sub_lem late early (omega arith) (omega arith) (omega arith)

timespec_geq_lem_example : timespec_geq early late ≡ false
timespec_geq_lem_example = timespec_geq_lem early late (omega arith) (omega arith)

insert_lem_example :
    (b : ℕ) × (insert three_buckets early
      ≡ some (record three_buckets {
        buckets = set (4 ∷ 1 ∷ 0 ∷ []) b ((get_or (4 ∷ 1 ∷ 0 ∷ []) b 0 + 1) % 2 ^ 64);
      }))
    × IsBucketOf 3 2_000_000_000 3_900_000_000 b
insert_lem_example = insert_lem three_buckets early (omega arith) (omega arith) (omega arith)
