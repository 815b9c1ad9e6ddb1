-- ===== src/Stats/Buckets.antt =====
-- The buckets that `calculate_latency_percentiles` cuts the sorted latencies into
-- (src/component/stats.rs).
use mathlib.Core.List.{flatten}
use v9_worker.Base.{
  ℕ, zero, suc, ◌+◌, ◌-◌, ◌/◌, ◌%◌, ◌≤◌, ◌<◌, ◌≡◌, refl, sym, ap, ◌∙◌, ◌⊎◌, some, List, [], ◌∷◌,
  ◌++◌, arith, length, take, drop, length-take, length-drop, take-append-drop, drop-drop, drop_all,
}
use v9_worker.Stats.{percentile_buckets, starting_index, slice}

-- The bucket i of a list: what lies between two starting indices.
abbrev pub bucket : List ℕ → ℕ → List ℕ
bucket xs i =
    take (starting_index (length xs) (i + 1) - starting_index (length xs) i)
      (drop (starting_index (length xs) i) xs)

-- `rounds` buckets from the bucket i on.
unfoldable pub buckets : ℕ → ℕ → List ℕ → List (List ℕ)
buckets zero i xs = []
buckets (suc rounds) i xs = bucket xs i ∷ buckets rounds (i + 1) xs

pub starting_index-le : (n i : ℕ) → starting_index n i ≤ starting_index n (i + 1)
unfolding starting_index
starting_index-le n i = omega arith

starting_index-zero : (n : ℕ) → starting_index n 0 ≡ 0
unfolding starting_index
starting_index-zero n = omega arith

pub starting_index-last : (n : ℕ) → starting_index n percentile_buckets ≡ n
unfolding starting_index
starting_index-last n = omega arith

pub starting_index-le_length : (n i : ℕ) → i ≤ percentile_buckets → starting_index n i ≤ n
unfolding starting_index
starting_index-le_length n i h = grind arith

-- No range of the loop is reversed or out of bounds.
pub slice-bucket :
    (xs : List ℕ) (i : ℕ)
    → i < percentile_buckets
    → slice (starting_index (length xs) i) (starting_index (length xs) (i + 1)) xs
      ≡ some (bucket xs i)
unfolding slice
slice-bucket xs i h =
    ground (arith, starting_index-le (length xs) i, starting_index-le_length (length xs) (i + 1))

pub length-bucket :
    (xs : List ℕ) (i : ℕ)
    → i < percentile_buckets
    → length (bucket xs i) ≡ starting_index (length xs) (i + 1) - starting_index (length xs) i
length-bucket xs i h = omega (
  arith,
  length-take (starting_index (length xs) (i + 1) - starting_index (length xs) i)
      (drop (starting_index (length xs) i) xs),
  length-drop (starting_index (length xs) i) xs,
  starting_index-le_length (length xs) (i + 1) (omega arith),
)

-- The first n % 10 buckets hold one latency more than the others.
pub bucket_size :
    (xs : List ℕ) (i : ℕ)
    → i < percentile_buckets
    → (length (bucket xs i) ≡ length xs / 10 + 1) × (i < length xs % 10)
      ⊎ (length (bucket xs i) ≡ length xs / 10) × (length xs % 10 ≤ i)
unfolding starting_index
bucket_size xs i h = grind (arith, length-bucket xs i h)

flatten-buckets_from :
    (rounds i : ℕ) (xs : List ℕ)
    → rounds + i ≡ percentile_buckets
    → flatten (buckets rounds i xs) ≡ drop (starting_index (length xs) i) xs
unfolding buckets flatten
flatten-buckets_from zero i xs e =
    sym (rw (last i (omega arith)) (drop_all (length xs) xs (omega arith)))
  where
    last : (j : ℕ) → j ≡ percentile_buckets → starting_index (length xs) j ≡ length xs
    last j h = rw h (starting_index-last (length xs))
flatten-buckets_from (suc rounds) i xs e =
    rw (flatten-buckets_from rounds (i + 1) xs (omega arith)) (
      ap (λ l. bucket xs i ++ l) (sym next)
      ∙ take-append-drop (starting_index n (i + 1) - starting_index n i)
          (drop (starting_index n i) xs))
  where
    n : ℕ
    n = length xs

    next :
        drop (starting_index n (i + 1) - starting_index n i) (drop (starting_index n i) xs)
        ≡ drop (starting_index n (i + 1)) xs
    next =
        drop-drop (starting_index n (i + 1) - starting_index n i) (starting_index n i) xs
        ∙ ap (λ k. drop k xs)
            {x = starting_index n i + (starting_index n (i + 1) - starting_index n i)}
            {y = starting_index n (i + 1)} (omega (arith, starting_index-le n i))

-- The buckets share the list out, in order.
pub flatten-buckets : (xs : List ℕ) → flatten (buckets percentile_buckets 0 xs) ≡ xs
flatten-buckets xs =
    flatten-buckets_from percentile_buckets 0 xs refl
    ∙ ap (λ k. drop k xs) (starting_index-zero (length xs))
