-- ===== src/Util/Histogram/Tests.antt =====
-- Runs of the histograms, and each theorem at an input.
use faunus.Prelude.{◌≡◌, refl}
use faunus.Util.Histogram.{new_histogram, record_value, get_count, bucket_from, get_bucket_index}

overflow_run : get_count (record_value new_histogram 300) 255 ≡ 1
unfolding get_count record_value
overflow_run = refl

bucket_run : get_bucket_index 1025 ≡ 11
unfolding get_bucket_index bucket_from
bucket_run = refl
