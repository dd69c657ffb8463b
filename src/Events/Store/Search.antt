-- ===== src/Events/Store/Search.antt =====
-- `sort.Search` finds the first index at which a monotone test holds.
use soroban_rpc.Common.{
  ℕ, zero, suc, ◌+◌, ◌/◌, ◌≤◌, ◌<◌, ◌≡◌, Bool, true, false, ltb, ltb→le, arith, tests, Bool-cases,
  inl, inr,
}
use soroban_rpc.Events.Store.{search_from, search}

-- `k` splits [0, n): the test fails below it, and holds from it on.
pub record Splits (n : ℕ) (f : ℕ → Bool) (k : ℕ) : Type 0 where
  pub in_range : k ≤ n
  pub below : (i : ℕ) → i < k → f i ≡ false
  pub above : (i : ℕ) → k ≤ i → i < n → f i ≡ true

abbrev pub Monotone : ℕ → (ℕ → Bool) → Type 0
Monotone n f = (i j : ℕ) → i ≤ j → j < n → f i ≡ true → f j ≡ true

fails_before :
    (n : ℕ) (f : ℕ → Bool) (h k : ℕ) → Monotone n f → h < n → k ≤ h → f h ≡ false → f k ≡ false
fails_before n f h k mono lt le miss = elim (Bool-cases (f k)) [
  | inl hit ↦ cc (mono k h le lt hit)
  | inr e ↦ e
]

search_from-Splits :
    (n fuel i j : ℕ) (f : ℕ → Bool)
    → Monotone n f
    → i ≤ j
    → j ≤ n
    → j ≤ i + fuel
    → ((k : ℕ) → k < i → f k ≡ false)
    → ((k : ℕ) → j ≤ k → k < n → f k ≡ true)
    → Splits n f (search_from fuel i j f)
unfolding search_from
search_from-Splits n zero i j f mono le hi enough low high = record {
  in_range = omega arith;
  below = low;
  above = λ k a b. high k (omega arith) b;
}
search_from-Splits n (suc fuel) i j f mono le hi enough low high = elim (Bool-cases (ltb i j)) [
  | inr done ↦ rw done (record {
    in_range = omega arith;
    below = low;
    above = λ k a b. high k (omega (tests, ltb→le i j done)) b;
  })
  | inl more ↦ elim (Bool-cases (f ((i + j) / 2))) [
    | inl hit ↦
        rw (more, hit)
          (search_from-Splits n fuel i ((i + j) / 2) f mono (omega tests) (omega tests)
            (omega tests) low λ k a b. mono ((i + j) / 2) k a b hit)
    | inr miss ↦
        rw (more, miss)
          (search_from-Splits n fuel ((i + j) / 2 + 1) j f mono (omega tests) hi (omega tests)
            (λ k a. fails_before n f ((i + j) / 2) k mono (omega tests) (omega arith) miss) high)
  ]
]

-- A monotone test splits at the index that `sort.Search` returns; its rounds are enough.
pub search-Splits : (n : ℕ) (f : ℕ → Bool) → Monotone n f → Splits n f (search n f)
unfolding search
search-Splits n f mono =
    search_from-Splits n n 0 n f mono (omega arith) (omega arith) (omega arith)
      (λ k h. absurd (omega arith)) (λ k a b. absurd (omega arith))
