-- ===== src/Stats/Shares.antt =====
-- The buckets that hold anything, as shares of the sorted latencies (src/component/stats.rs).
use mathlib.Core.List.{flatten, Perm}
use v9_worker.Base.{
  ℕ, zero, suc, ◌+◌, ◌-◌, ◌*◌, ◌/◌, ◌≤◌, ◌<◌, ◌≡◌, refl, sym, subst, ap, ◌∙◌, List, [], ◌∷◌, ◌++◌,
  arith, All, length, min,
}
use v9_worker.Stats.{percentile_buckets, sort}
use v9_worker.Stats.Sort.{IsSorted, sort-IsSorted, sort-perm, total, length-sort}
use v9_worker.Stats.Buckets.{bucket, buckets, bucket_size, flatten-buckets}

-- The buckets that hold anything.
unfoldable pub occupied : List (List ℕ) → List (List ℕ)
occupied [] = []
occupied ([] ∷ bs) = occupied bs
occupied ((x ∷ xs) ∷ bs) = (x ∷ xs) ∷ occupied bs

flatten-occupied : (bs : List (List ℕ)) → flatten (occupied bs) ≡ flatten bs
unfolding occupied flatten
flatten-occupied [] = refl
flatten-occupied ([] ∷ bs) = flatten-occupied bs
flatten-occupied ((x ∷ xs) ∷ bs) = ap (λ l. x ∷ (xs ++ l)) (flatten-occupied bs)

occupied_positive : (bs : List (List ℕ)) → All (λ b. 0 < length b) (occupied bs)
unfolding occupied
occupied_positive [] = tt
occupied_positive ([] ∷ bs) = occupied_positive bs
occupied_positive ((x ∷ xs) ∷ bs) = (omega arith, occupied_positive bs)

length-occupied-cons :
    (b : List ℕ) (bs : List (List ℕ))
    → length (occupied (b ∷ bs)) ≡ min 1 (length b) + length (occupied bs)
unfolding occupied
length-occupied-cons [] bs = omega arith
length-occupied-cons (x ∷ xs) bs = omega arith

-- The bucket i holds something exactly when there are more than i latencies.
length-occupied-buckets :
    (rounds i : ℕ) (xs : List ℕ)
    → rounds + i ≡ percentile_buckets
    → length (occupied (buckets rounds i xs)) ≡ min rounds (length xs - i)
unfolding buckets
length-occupied-buckets zero i xs e = unfold occupied in omega arith
length-occupied-buckets (suc rounds) i xs e = grind (
  arith,
  length-occupied-cons (bucket xs i) (buckets rounds (i + 1) xs),
  length-occupied-buckets rounds (i + 1) xs (omega arith),
  bucket_size xs i (omega arith),
)

-- A bucket of n latencies in ten has n / 10 of them, or one more.
abbrev pub IsEven : ℕ → List ℕ → Type 0
IsEven n b = (n / 10 ≤ length b) × (length b ≤ n / 10 + 1)

buckets-IsEven :
    (rounds i : ℕ) (xs : List ℕ)
    → rounds + i ≡ percentile_buckets
    → All (IsEven (length xs)) (buckets rounds i xs)
unfolding buckets
buckets-IsEven zero i xs e = tt
buckets-IsEven (suc rounds) i xs e =
    (grind (arith, bucket_size xs i (omega arith)), buckets-IsEven rounds (i + 1) xs (omega arith))

occupied-All {κ} : (P : List ℕ → Type κ) (bs : List (List ℕ)) → All P bs → All P (occupied bs)
unfolding occupied
occupied-All P [] h = tt
occupied-All P ([] ∷ bs) h = occupied-All P bs h.1
occupied-All P ((x ∷ xs) ∷ bs) h = (h.0, occupied-All P bs h.1)

-- The average of `b` is at most that of `c`, multiplied out.
abbrev pub AverageLe : List ℕ → List ℕ → Type 0
AverageLe b c = total b * length c ≤ total c * length b

abbrev pub Ascending : List (List ℕ) → Type 0
Ascending [] = Unit
Ascending (b ∷ bs) = All (AverageLe b) bs × Ascending bs

mul-le-total : (x : ℕ) (c : List ℕ) → All (λ y. x ≤ y) c → x * length c ≤ total c
mul-le-total x [] h = omega arith
mul-le-total x (y ∷ c) h = omega (arith, mul-le-total x c h.1)

AverageLe-of_le : (b c : List ℕ) → All (λ x. All (λ y. x ≤ y) c) b → AverageLe b c
AverageLe-of_le [] c h = omega arith
AverageLe-of_le (x ∷ b) c h = omega (arith, mul-le-total x c h.0, AverageLe-of_le b c h.1)

All-append_left {κ} : (P : ℕ → Type κ) (xs ys : List ℕ) → All P (xs ++ ys) → All P xs × All P ys
All-append_left P [] ys h = (tt, h)
All-append_left P (x ∷ xs) ys h = let (hx, hy) = All-append_left P xs ys h.1 in ((h.0, hx), hy)

IsSorted-append :
    (xs ys : List ℕ) → IsSorted (xs ++ ys) → All (λ x. All (λ y. x ≤ y) ys) xs × IsSorted ys
IsSorted-append [] ys s = (tt, s)
IsSorted-append (x ∷ xs) ys s =
    let (h, t) = IsSorted-append xs ys s.1 in (((All-append_left (λ y. x ≤ y) xs ys s.0).1, h), t)

above_each :
    (b : List ℕ) (bs : List (List ℕ))
    → All (λ x. All (λ y. x ≤ y) (flatten bs)) b
    → All (AverageLe b) bs
unfolding flatten
above_each b [] h = tt
above_each b (c ∷ bs) h = (AverageLe-of_le b c (lefts b h).0, above_each b bs (lefts b h).1)
  where
    lefts :
        (d : List ℕ)
        → All (λ x. All (λ y. x ≤ y) (c ++ flatten bs)) d
        → All (λ x. All (λ y. x ≤ y) c) d × All (λ x. All (λ y. x ≤ y) (flatten bs)) d
    lefts [] k = (tt, tt)
    lefts (x ∷ d) k =
        let (p, q) = All-append_left (λ y. x ≤ y) c (flatten bs) k.0 in
        let (ps, qs) = lefts d k.1 in ((p, ps), (q, qs))

Ascending-of_sorted : (bs : List (List ℕ)) → IsSorted (flatten bs) → Ascending bs
unfolding flatten
Ascending-of_sorted [] s = tt
Ascending-of_sorted (b ∷ bs) s =
    let (h, t) = IsSorted-append b (flatten bs) s in (above_each b bs h, Ascending-of_sorted bs t)

-- Ten shares, or fewer, of the numbers `xs`.
pub record Shares (xs : List ℕ) (bs : List (List ℕ)) : Type 0 where
  pub whole : flatten bs ≡ sort xs
  pub in_order : IsSorted (sort xs)
  pub nothing_lost : Perm (sort xs) xs
  pub count : length bs ≡ min percentile_buckets (length xs)
  pub positive : All (λ b. 0 < length b) bs
  pub even : All (IsEven (length xs)) bs
  pub ascending : Ascending bs

pub occupied-Shares : (xs : List ℕ) → Shares xs (occupied (buckets percentile_buckets 0 (sort xs)))
occupied-Shares xs = record {
  whole = shares;
  in_order = sort-IsSorted xs;
  nothing_lost = sort-perm xs;
  count =
      omega (arith, length-occupied-buckets percentile_buckets 0 (sort xs) refl, length-sort xs);
  positive = occupied_positive _;
  even =
      subst (λ n. All (IsEven n) (occupied (buckets percentile_buckets 0 (sort xs))))
        (length-sort xs) (occupied-All _ _ (buckets-IsEven percentile_buckets 0 (sort xs) refl));
  ascending = Ascending-of_sorted _ (subst IsSorted (sym shares) (sort-IsSorted xs));
}
  where
    shares : flatten (occupied (buckets percentile_buckets 0 (sort xs))) ≡ sort xs
    shares = flatten-occupied _ ∙ flatten-buckets (sort xs)
