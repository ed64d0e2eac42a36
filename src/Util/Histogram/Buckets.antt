-- ===== src/Util/Histogram/Buckets.antt =====
-- Which bucket a value or a number of bytes comes to.
use faunus.Prelude.{
  ℕ, zero, suc, ◌+◌, ◌-◌, ◌%◌, ◌^◌, ◌≤◌, ◌<◌, ◌≡◌, refl, ◌∙◌, false, ◌⊎◌, inl, inr, min, length,
  length-set, get_or-set, ◌==◌, if◌then◌else◌, dec_lt, ℕ_discrete, lt→ltb, le→ltb, arith,
}
use faunus.Util.Histogram.{
  DiscreteHistogram, num_buckets, record_value, get_count, num_byte_buckets, bucket_from,
  get_bucket_index,
}

-- Recording a value in a histogram with all its buckets adds one, modulo 2^64, to the count of the
-- values that share its bucket: the value itself below 255, all values from 255 on; no other count
-- changes, and no bucket is lost.
get_count-record_value :
    (h : DiscreteHistogram) (value other : ℕ)
    → length h.buckets ≡ num_buckets
    → (get_count (record_value h value) other ≡ (
        if min value 255 == min other 255
        then (get_count h other + 1) % 2 ^ 64
        else get_count h other))
      × (length (record_value h value).buckets ≡ num_buckets)
unfolding get_count record_value
get_count-record_value h value other e =
    let room : min value 255 < length h.buckets = omega arith in
    (
      rw (get_or-set h.buckets (min value 255) (min other 255) _ 0 room)
          (elim (ℕ_discrete (min value 255) (min other 255)) [
            | yes q ↦ rw q (ground arith)
            | no ne ↦ ground arith
          ]),
      length-set h.buckets _ _ ∙ e,
    )

bucket_from-bounds :
    (n bucket bytes : ℕ)
    → bucket ≡ 0 ⊎ 2 ^ (bucket - 1) < bytes
    → let b = bucket_from n bucket bytes in
      (b ≤ bucket + n) × (b ≡ bucket + n ⊎ bytes ≤ 2 ^ b) × (b ≡ 0 ⊎ 2 ^ (b - 1) < bytes)
unfolding bucket_from
bucket_from-bounds zero bucket bytes h = (omega arith, inl (omega arith), h)
bucket_from-bounds (suc n) bucket bytes h = elim (dec_lt (2 ^ bucket) bytes) [
  | yes p ↦
      let e : bucket + 1 - 1 ≡ bucket = omega arith in
      let s : bucket + 1 + n ≡ bucket + suc n = omega arith in
      rw (lt→ltb _ _ p) (rw s at (bucket_from-bounds n (bucket + 1) bytes (inr (rw e p))))
  | no np ↦ rw (le→ltb (2 ^ bucket) bytes (omega arith)) (omega arith, inr (omega arith), h)
]

-- The bucket of a number of bytes is one of the 32; up to the last one the number is at most 2 to
-- the bucket, and above the first one it is more than half of that.
get_bucket_index-bounds :
    (bytes : ℕ)
    → let b = get_bucket_index bytes in
      (b < num_byte_buckets) × (b ≡ 31 ⊎ bytes ≤ 2 ^ b) × (b ≡ 0 ⊎ 2 ^ (b - 1) < bytes)
unfolding get_bucket_index
get_bucket_index-bounds zero = (omega arith, inr (omega arith), inl refl)
get_bucket_index-bounds (suc bytes) =
    let zero_test : (suc bytes == 0) ≡ false = ground arith in
    let (le, top, low) = bucket_from-bounds 31 0 (suc bytes) (inl refl) in
    rw zero_test (omega arith, top, low)
