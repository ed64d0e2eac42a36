-- ===== src/Util/Histogram.antt =====
-- src/util/thread_stats.hpp: the histograms in which a thread counts, for each tree operation, its
-- round trips, verbs, retries and bytes.
pub mod Buckets
mod Tests
use faunus.Prelude.{
  ℕ, zero, suc, ◌+◌, ◌-◌, ◌%◌, ◌^◌, min, List, get_or, set, replicate, ltb, ◌==◌, if◌then◌else◌,
}

-- `DiscreteHistogram`
pub record DiscreteHistogram : Type 0 where
  pub buckets : List ℕ
  pub total_samples : ℕ

-- `DiscreteHistogram::NUM_BUCKETS`
abbrev pub num_buckets : ℕ
num_buckets = 256

abbrev pub new_histogram : DiscreteHistogram
new_histogram = record { buckets = replicate num_buckets 0; total_samples = 0 }

abbrev pub bump : List ℕ → ℕ → List ℕ
bump buckets i = set buckets i ((get_or buckets i 0 + 1) % 2 ^ 64)

-- `record(value)`
unfoldable pub record_value : DiscreteHistogram → ℕ → DiscreteHistogram
record_value h value = record {
  buckets = bump h.buckets (min value (num_buckets - 1));
  total_samples = (h.total_samples + 1) % 2 ^ 64;
}

-- `get_count(value)`
unfoldable pub get_count : DiscreteHistogram → ℕ → ℕ
get_count h value = get_or h.buckets (min value (num_buckets - 1)) 0

-- `LogarithmicByteHistogram::NUM_BUCKETS`
abbrev pub num_byte_buckets : ℕ
num_byte_buckets = 32

-- The loop of `get_bucket_index` from a bucket on, `n` more buckets to go.
unfoldable pub bucket_from : ℕ → ℕ → ℕ → ℕ
bucket_from zero bucket bytes = bucket
bucket_from (suc n) bucket bytes =
    let rest = bucket_from n (bucket + 1) bytes in if ltb (2 ^ bucket) bytes then rest else bucket

-- `get_bucket_index(bytes)`
unfoldable pub get_bucket_index : ℕ → ℕ
unfolding bucket_from
get_bucket_index bytes = if bytes == 0 then 0 else bucket_from (num_byte_buckets - 1) 0 bytes
