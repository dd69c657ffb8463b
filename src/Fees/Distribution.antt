-- ===== src/Fees/Distribution.antt =====
-- computeFeeDistribution describes the fees that it is given, in whatever order they come.
use soroban_rpc.Common.{
  ℕ, suc, ◌-◌, ◌%◌, ◌^◌, ◌≤◌, ◌<◌, ◌≡◌, refl, fun_ext, subst, some, List, [], ◌∷◌, length,
  get_elem?, arith, ok,
}
use soroban_rpc.Fees.{
  FeeDistribution, zero_distribution, percentile, mode_of, distribute, sort,
  compute_fee_distribution,
}
use soroban_rpc.Fees.Spec.{count, IsMode, IsPercentile, Describes}
use soroban_rpc.Fees.Sorting.{SortedFrom, sort-SortedFrom, count-sort, count_le-sort, length-sort}
use soroban_rpc.Fees.Mode.{last_from, mode_of-IsMode}
use soroban_rpc.Fees.Percentile.{percentile_lem}

get_elem?-last : (x : ℕ) (xs : List ℕ) → get_elem? (x ∷ xs) (length xs) ≡ some (last_from x xs)
get_elem?-last x [] = refl
get_elem?-last x (y ∷ ys) = get_elem?-last y ys

last_from-bounds :
    (x : ℕ) (xs : List ℕ)
    → SortedFrom x xs
    → (0 < count (last_from x xs) (x ∷ xs))
      × (x ≤ last_from x xs)
      × ((v : ℕ) → last_from x xs < v → count v (x ∷ xs) ≡ 0)
last_from-bounds x [] s = (ground arith, omega arith, λ v h. ground arith)
last_from-bounds x (y ∷ ys) s =
    let r = last_from-bounds y ys s.1 in
    (omega (arith, r.0), omega (arith, s.0, r.1), λ v h. ground (arith, r.2 v, r.1, s.0))

first_bound : (v x : ℕ) (xs : List ℕ) → v < x → SortedFrom x xs → count v (x ∷ xs) ≡ 0
first_bound v x [] h s = ground arith
first_bound v x (y ∷ ys) h s = ground (arith, first_bound v y ys, s.0, s.1)

-- The record that the code builds from the percentiles.
abbrev distribution_of :
    ℕ → List ℕ → ℕ → ℕ → ℕ → ℕ → ℕ → ℕ → ℕ → ℕ → ℕ → ℕ → ℕ → ℕ → FeeDistribution
distribution_of first rest ledger_count p10 p20 p30 p40 p50 p60 p70 p80 p90 p95 p99 = record {
  max = last_from first rest;
  min = first;
  mode = mode_of first rest (last_from first rest);
  p10 = p10;
  p20 = p20;
  p30 = p30;
  p40 = p40;
  p50 = p50;
  p60 = p60;
  p70 = p70;
  p80 = p80;
  p90 = p90;
  p95 = p95;
  p99 = p99;
  fee_count = length (first ∷ rest) % 2 ^ 32;
  ledger_count = ledger_count;
}

distribute-eq :
    (first : ℕ) (rest : List ℕ) (ledger_count p10 p20 p30 p40 p50 p60 p70 p80 p90 p95 p99 : ℕ)
    → percentile (first ∷ rest) 10 ≡ ok p10
    → percentile (first ∷ rest) 20 ≡ ok p20
    → percentile (first ∷ rest) 30 ≡ ok p30
    → percentile (first ∷ rest) 40 ≡ ok p40
    → percentile (first ∷ rest) 50 ≡ ok p50
    → percentile (first ∷ rest) 60 ≡ ok p60
    → percentile (first ∷ rest) 70 ≡ ok p70
    → percentile (first ∷ rest) 80 ≡ ok p80
    → percentile (first ∷ rest) 90 ≡ ok p90
    → percentile (first ∷ rest) 95 ≡ ok p95
    → percentile (first ∷ rest) 99 ≡ ok p99
    → distribute (first ∷ rest) ledger_count
      ≡ ok (distribution_of first rest ledger_count p10 p20 p30 p40 p50 p60 p70 p80 p90 p95 p99)
unfolding distribute
distribute-eq first rest ledger_count p10 p20 p30 p40 p50 p60 p70 p80 p90 p95 p99 e10 e20 e30 e40
      e50 e60 e70 e80 e90 e95 e99 =
    let l : suc (length rest) - 1 ≡ length rest = omega arith in
    rw (l, get_elem?-last first rest, e10, e20, e30, e40, e50, e60, e70, e80, e90, e95, e99)

-- A sorted slice that is not empty.
distribute-Describes :
    (fees : List ℕ) (ledger_count : ℕ)
    → SortedFrom 0 fees
    → 0 < length fees
    → length fees < 2 ^ 57
    → (d : FeeDistribution) × (distribute fees ledger_count ≡ ok d) × Describes fees ledger_count d
distribute-Describes [] ledger_count s h small = elim h [ ]
distribute-Describes (first ∷ rest) ledger_count s h small =
    let find : (p : ℕ)
        → 0 < p
        → p ≤ 100
        → (q : ℕ) × (percentile (first ∷ rest) p ≡ ok q) × IsPercentile (first ∷ rest) p q =
      λ p lo hi. percentile_lem (first ∷ rest) p s h small lo hi in
    let last = last_from-bounds first rest s.1 in
    let (p10, e10, i10) = find 10 (omega arith) (omega arith) in
    let (p20, e20, i20) = find 20 (omega arith) (omega arith) in
    let (p30, e30, i30) = find 30 (omega arith) (omega arith) in
    let (p40, e40, i40) = find 40 (omega arith) (omega arith) in
    let (p50, e50, i50) = find 50 (omega arith) (omega arith) in
    let (p60, e60, i60) = find 60 (omega arith) (omega arith) in
    let (p70, e70, i70) = find 70 (omega arith) (omega arith) in
    let (p80, e80, i80) = find 80 (omega arith) (omega arith) in
    let (p90, e90, i90) = find 90 (omega arith) (omega arith) in
    let (p95, e95, i95) = find 95 (omega arith) (omega arith) in
    let (p99, e99, i99) = find 99 (omega arith) (omega arith) in
    (
      distribution_of first rest ledger_count p10 p20 p30 p40 p50 p60 p70 p80 p90 p95 p99,
      distribute-eq first rest ledger_count p10 p20 p30 p40 p50 p60 p70 p80 p90 p95 p99 e10 e20 e30
          e40 e50 e60 e70 e80 e90 e95 e99,
      record {
        max_occurs = last.0;
        max_bound = last.2;
        min_occurs = ground arith;
        min_bound = λ v l. first_bound v first rest l s.1;
        mode = mode_of-IsMode first rest s.1;
        p10 = i10;
        p20 = i20;
        p30 = i30;
        p40 = i40;
        p50 = i50;
        p60 = i60;
        p70 = i70;
        p80 = i80;
        p90 = i90;
        p95 = i95;
        p99 = i99;
        fees_counted = refl;
        ledgers_counted = refl;
      },
    )

sort-IsPercentile : (fees : List ℕ) (p q : ℕ) → IsPercentile (sort fees) p q → IsPercentile fees p q
sort-IsPercentile fees p q i = record {
  occurs = rw (← count-sort q fees) i.occurs;
  enough = rw (← count_le-sort q fees, ← length-sort fees) i.enough;
  smallest = λ v l. rw (← count_le-sort v fees, ← length-sort fees) (i.smallest v l);
}

sort-Describes :
    (fees : List ℕ) (ledger_count : ℕ) (d : FeeDistribution)
    → Describes (sort fees) ledger_count d
    → Describes fees ledger_count d
sort-Describes fees ledger_count d i = record {
  max_occurs = rw (← count-sort d.max fees) i.max_occurs;
  max_bound = λ v l. rw (← count-sort v fees) (i.max_bound v l);
  min_occurs = rw (← count-sort d.min fees) i.min_occurs;
  min_bound = λ v l. rw (← count-sort v fees) (i.min_bound v l);
  mode = subst (λ c. IsMode c d.mode) (fun_ext λ v. count-sort v fees) i.mode;
  p10 = sort-IsPercentile fees 10 d.p10 i.p10;
  p20 = sort-IsPercentile fees 20 d.p20 i.p20;
  p30 = sort-IsPercentile fees 30 d.p30 i.p30;
  p40 = sort-IsPercentile fees 40 d.p40 i.p40;
  p50 = sort-IsPercentile fees 50 d.p50 i.p50;
  p60 = sort-IsPercentile fees 60 d.p60 i.p60;
  p70 = sort-IsPercentile fees 70 d.p70 i.p70;
  p80 = sort-IsPercentile fees 80 d.p80 i.p80;
  p90 = sort-IsPercentile fees 90 d.p90 i.p90;
  p95 = sort-IsPercentile fees 95 d.p95 i.p95;
  p99 = sort-IsPercentile fees 99 d.p99 i.p99;
  fees_counted = rw (← length-sort fees) i.fees_counted;
  ledgers_counted = i.ledgers_counted;
}

-- Of 1 to 2^57 - 1 fees in any order, computeFeeDistribution returns the greatest, the smallest,
-- the smallest of the most frequent, and the nearest-rank percentiles.
pub compute_fee_distribution-Describes :
    (fees : List ℕ) (ledger_count : ℕ)
    → 0 < length fees
    → length fees < 2 ^ 57
    → (d : FeeDistribution) × (compute_fee_distribution fees ledger_count ≡ ok d)
      × Describes fees ledger_count d
unfolding compute_fee_distribution
compute_fee_distribution-Describes fees ledger_count h small =
    let (d, e, i) =
      distribute-Describes (sort fees) ledger_count (sort-SortedFrom fees) (rw (length-sort fees) h)
        (rw (length-sort fees) small) in
    (d, e, sort-Describes fees ledger_count d i)

-- Of no fees it returns the zero distribution.
pub compute_fee_distribution-nil :
    (ledger_count : ℕ) → compute_fee_distribution [] ledger_count ≡ ok zero_distribution
unfolding compute_fee_distribution
compute_fee_distribution-nil ledger_count = refl
