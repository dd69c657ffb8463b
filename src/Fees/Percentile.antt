-- ===== src/Fees/Percentile.antt =====
-- The closure `percentile` computes nearest-rank percentiles of a sorted slice.
use soroban_rpc.Common.{
  ℕ, zero, suc, ◌+◌, ◌-◌, ◌*◌, ◌/◌, ◌%◌, ◌^◌, ◌≤◌, ◌<◌, ◌≡◌, refl, inl, inr, false, some, List, [],
  ◌∷◌, leb, le→leb, lt→leb, ◌==◌, length, get_elem?, get_elem?-eq_some, arith, Bool-cases, ok,
}
use soroban_rpc.Fees.{percentile}
use soroban_rpc.Fees.Spec.{count, count_le, IsPercentile}
use soroban_rpc.Fees.Sorting.{SortedFrom}

count_le_zero : (v a : ℕ) (xs : List ℕ) → v < a → SortedFrom a xs → count_le v xs ≡ 0
count_le_zero v a [] h s = refl
count_le_zero v a (x ∷ xs) h s =
    rw (lt→leb x v (omega arith)) (omega (arith, count_le_zero v x xs (omega arith) s.1))

-- In a sorted slice the fee at index k is exceeded by none of k + 1 fees, and at most k are smaller.
rank :
    (a k q : ℕ) (xs : List ℕ)
    → SortedFrom a xs
    → get_elem? xs k ≡ some q
    → (a ≤ q) × (0 < count q xs) × (suc k ≤ count_le q xs) × ((v : ℕ) → v < q → count_le v xs ≤ k)
rank a k q [] s e = cc
rank a zero q (x ∷ xs) s e =
    let h : x ≡ q = (cc) in
    (
      omega (arith, s.0),
      ground arith,
      ground arith,
      λ v l. rw (lt→leb x v (omega arith)) (omega (arith, count_le_zero v x xs (omega arith) s.1)),
    )
rank a (suc k) q (x ∷ xs) s e =
    let r = rank x k q xs s.1 e in
    (
      omega (arith, s.0, r.0),
      omega (arith, r.1),
      rw (le→leb x q r.0) (omega (arith, r.2)),
      λ v l. elim (Bool-cases (leb x v)) [
        | inl h ↦ rw h (omega (arith, r.3 v l))
        | inr h ↦ rw h (omega (arith, r.3 v l))
      ],
    )

kth-eq :
    (p n : ℕ)
    → p * n ≤ 100 * n
    → n < 2 ^ 57
    → (p * (n % 2 ^ 64) % 2 ^ 64 + 100 - 1) % 2 ^ 64 / 100 ≡ (p * n + 99) / 100
kth-eq p n h small = let e : n % 2 ^ 64 ≡ n = omega arith in rw e (omega arith)

percentile-eq :
    (fees : List ℕ) (p q : ℕ)
    → p * length fees ≤ 100 * length fees
    → length fees < 2 ^ 57
    → 0 < p * length fees
    → get_elem? fees ((p * length fees + 99) / 100 - 1) ≡ some q
    → percentile fees p ≡ ok q
unfolding percentile
percentile-eq fees p q h small some_fee at =
    let nz : ((p * length fees + 99) / 100 == 0) ≡ false = ground arith in
    rw (kth-eq p (length fees) h small, nz, at)

-- Below 2^57 fees nothing wraps, and every percentile from 1 to 100 is found.
pub percentile_lem :
    (fees : List ℕ) (p : ℕ)
    → SortedFrom 0 fees
    → 0 < length fees
    → length fees < 2 ^ 57
    → 0 < p
    → p ≤ 100
    → (q : ℕ) × (percentile fees p ≡ ok q) × IsPercentile fees p q
percentile_lem fees p s some_fee small lo hi =
    let pn : p * length fees ≤ 100 * length fees = grind arith in
    let some_rank : 0 < p * length fees = grind arith in
    let (q, at) = get_elem?-eq_some fees ((p * length fees + 99) / 100 - 1) (omega arith) in
    let r = rank 0 ((p * length fees + 99) / 100 - 1) q fees s at in
    (
      q,
      percentile-eq fees p q pn small some_rank at,
      record {
        occurs = r.1;
        enough = omega (arith, r.2);
        smallest = λ v l. omega (arith, r.3 v l);
      },
    )
