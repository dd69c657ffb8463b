-- ===== src/Fees/Spec.antt =====
-- What a fee distribution promises of the fees, in whatever order they came.
use soroban_rpc.Common.{
  ℕ, ◌+◌, ◌*◌, ◌%◌, ◌^◌, ◌≤◌, ◌<◌, ◌≡◌, Bool, List, [], ◌∷◌, leb, ◌==◌, if◌then◌else◌, length,
}
use soroban_rpc.Fees.{FeeDistribution}

abbrev pub one_if : Bool → ℕ
one_if b = if b then 1 else 0

-- How often a fee occurs, and how many fees are at most a bound.
abbrev pub count : ℕ → List ℕ → ℕ
count v [] = 0
count v (x ∷ xs) = one_if (x == v) + count v xs

abbrev pub count_le : ℕ → List ℕ → ℕ
count_le v [] = 0
count_le v (x ∷ xs) = one_if (leb x v) + count_le v xs

-- The most frequent fee, and the smallest of these.
pub record IsMode (c : ℕ → ℕ) (m : ℕ) : Type 0 where
  pub most : (v : ℕ) → c v ≤ c m
  pub least : (v : ℕ) → v < m → c v < c m

-- The nearest-rank percentile: the smallest fee that at least p percent of the fees do not exceed.
pub record IsPercentile (fees : List ℕ) (p q : ℕ) : Type 0 where
  pub occurs : 0 < count q fees
  pub enough : p * length fees ≤ 100 * count_le q fees
  pub smallest : (v : ℕ) → v < q → 100 * count_le v fees < p * length fees

-- A distribution describes the fees that it was computed from.
pub record Describes (fees : List ℕ) (ledger_count : ℕ) (d : FeeDistribution) : Type 0 where
  pub max_occurs : 0 < count d.max fees
  pub max_bound : (v : ℕ) → d.max < v → count v fees ≡ 0
  pub min_occurs : 0 < count d.min fees
  pub min_bound : (v : ℕ) → v < d.min → count v fees ≡ 0
  pub mode : IsMode (λ v. count v fees) d.mode
  pub p10 : IsPercentile fees 10 d.p10
  pub p20 : IsPercentile fees 20 d.p20
  pub p30 : IsPercentile fees 30 d.p30
  pub p40 : IsPercentile fees 40 d.p40
  pub p50 : IsPercentile fees 50 d.p50
  pub p60 : IsPercentile fees 60 d.p60
  pub p70 : IsPercentile fees 70 d.p70
  pub p80 : IsPercentile fees 80 d.p80
  pub p90 : IsPercentile fees 90 d.p90
  pub p95 : IsPercentile fees 95 d.p95
  pub p99 : IsPercentile fees 99 d.p99
  pub fees_counted : d.fee_count ≡ length fees % 2 ^ 32
  pub ledgers_counted : d.ledger_count ≡ ledger_count
