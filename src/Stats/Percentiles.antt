-- ===== src/Stats/Percentiles.antt =====
-- `calculate_latency_percentiles` (src/component/stats.rs) against averages of shares.
use mathlib.Core.List.{flatten}
use v9_worker.Base.{
  ℕ, zero, suc, ◌+◌, ◌^◌, ◌<◌, ◌≡◌, refl, ap, ◌∙◌, some, List, [], ◌∷◌, ◌++◌, map, append-nil,
  append_assoc, arith, length,
}
use v9_worker.Float.{F64}
use v9_worker.Stats.{
  StatEvent, percentile_buckets, sort, sum_u32, push_average, percentiles_from,
  calculate_latency_percentiles,
}
use v9_worker.Stats.Sort.{total, total-sort}
use v9_worker.Stats.Buckets.{bucket, buckets, slice-bucket, flatten-buckets}
use v9_worker.Stats.Shares.{occupied, Shares, occupied-Shares}

-- A sum of `u32`s is computed unless it passes the largest `u32`.
sum_u32_fits :
    (acc : ℕ) (xs : List ℕ) → acc + total xs < 2 ^ 32 → sum_u32 acc xs ≡ some (acc + total xs)
unfolding sum_u32
sum_u32_fits acc [] h = ap some (omega arith)
sum_u32_fits acc (x ∷ xs) h = ground (arith, sum_u32_fits (acc + x) xs)

total-append : (xs ys : List ℕ) → total (xs ++ ys) ≡ total xs + total ys
total-append [] ys = omega arith
total-append (x ∷ xs) ys = omega (arith, total-append xs ys)

module _ {F : Type 0} (f64 : F64 F) where
  abbrev pub mean : List ℕ → F
  mean b = f64.div (f64.from_ℕ (total b)) (f64.from_ℕ (length b))

  -- What one bucket adds to the result.
  shown : List (List ℕ) → List F
  shown bs = map mean (occupied bs)

  push_average-eq :
      (b : List ℕ) (res : List F)
      → total b < 2 ^ 32
      → push_average f64 b res ≡ some (res ++ shown (b ∷ []))
  unfolding push_average occupied shown
  push_average-eq [] res h = rw append-nil
  push_average-eq (x ∷ xs) res h =
      rw (sum_u32_fits 0 (x ∷ xs) (omega arith), push_average)
        (ap (λ k. some (res ++ f64.div (f64.from_ℕ k) (f64.from_ℕ (length (x ∷ xs))) ∷ []))
          {x = 0 + total (x ∷ xs)} {y = total (x ∷ xs)} (omega arith))

  shown-cons :
      (b : List ℕ) (bs : List (List ℕ)) (res : List F)
      → (res ++ shown (b ∷ [])) ++ shown bs ≡ res ++ shown (b ∷ bs)
  unfolding shown occupied
  shown-cons [] bs res = rw append-nil
  shown-cons (x ∷ xs) bs res = append_assoc res _ _

  percentiles_from-eq :
      (rounds i : ℕ) (xs : List ℕ) (res : List F)
      → rounds + i ≡ percentile_buckets
      → total (flatten (buckets rounds i xs)) < 2 ^ 32
      → percentiles_from f64 rounds i xs res ≡ some (res ++ shown (buckets rounds i xs))
  unfolding percentiles_from buckets flatten
  percentiles_from-eq zero i xs res e h = unfold shown occupied in rw append-nil
  percentiles_from-eq (suc rounds) i xs res e h =
      rw (slice-bucket xs i (omega arith), percentiles_from)
        (rw (push_average-eq (bucket xs i) res (omega (arith, split)), percentiles_from)
          (percentiles_from-eq rounds (i + 1) xs (res ++ shown (bucket xs i ∷ [])) (omega arith)
              (omega (arith, split))
            ∙ ap some (shown-cons (bucket xs i) (buckets rounds (i + 1) xs) res)))
    where
      split :
          total (bucket xs i ++ flatten (buckets rounds (i + 1) xs))
          ≡ total (bucket xs i) + total (flatten (buckets rounds (i + 1) xs))
      split = total-append (bucket xs i) (flatten (buckets rounds (i + 1) xs))

abbrev pub latencies : List StatEvent → List ℕ
latencies = map (λ e. e.duration_ms)

module _ {F : Type 0} (f64 : F64 F) (entries : List StatEvent) where
  -- Unless the latencies sum to 2 ^ 32 or more, the result is the list of averages of a sharing out
  -- of the latencies: in sorted order, each share holding something, ten shares or as many as there
  -- are latencies if these are fewer, their sizes differing by one at most, and no average above a
  -- later one.
  pub percentiles-Shares :
      total (latencies entries) < 2 ^ 32
      → (bs : List (List ℕ)) × Shares (latencies entries) bs
        × (calculate_latency_percentiles f64 entries ≡ some (map (mean f64) bs))
  unfolding calculate_latency_percentiles shown
  percentiles-Shares h = (
    occupied (buckets percentile_buckets 0 (sort (latencies entries))),
    occupied-Shares (latencies entries),
    percentiles_from-eq f64 percentile_buckets 0 (sort (latencies entries)) [] refl
        (rw (flatten-buckets (sort (latencies entries)), total-sort) h),
  )
