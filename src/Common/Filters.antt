-- ===== src/Common/Filters.antt =====
-- Lists filtered by a test, and properties of all their elements.
use Prim.Native.Nat.{ℕ, zero, suc, ◌≤◌, ◌<◌}
use mathlib.Core.Path.{◌≡◌, refl, ap, subst}
use mathlib.Core.Bool.{Bool, true, false, ◌&&◌}
use soroban_rpc.Common.Tests.{if◌then◌else◌, Bool-cases}
use mathlib.Core.Logic.{inl, inr}
use mathlib.Core.List.{List, [], ◌∷◌, ◌++◌}
use mathlib.Core.Option.{Option, none, some}
use native.Mathlib.Omega.{arith}
use soroban_rpc.Common.Lists.{length, get_elem?, drop}

module _ {ℓ} {A : Type ℓ} where
  -- The elements that a test keeps, in their order.
  abbrev pub filter : (A → Bool) → List A → List A
  filter p [] = []
  filter p (x ∷ xs) = let rest = filter p xs in if p x then x ∷ rest else rest

  -- The test at an index; out of range it fails.
  abbrev pub holds_at : (A → Bool) → List A → ℕ → Bool
  holds_at p xs i = elim (get_elem? xs i) [ none ↦ false | some x ↦ p x ]

  abbrev pub All {κ} : (A → Type κ) → List A → Type κ
  All P [] = Unit
  All P (x ∷ xs) = P x × All P xs

module _ {ℓ} {A : Type ℓ} where
  pub filter-append :
      (p : A → Bool) (xs ys : List A) → filter p (xs ++ ys) ≡ filter p xs ++ filter p ys
  filter-append p [] ys = refl
  filter-append p (x ∷ xs) ys = elim (Bool-cases (p x)) [
    | inl h ↦ rw h (ap (◌∷◌ x) (filter-append p xs ys))
    | inr h ↦ rw h (filter-append p xs ys)
  ]

  pub filter-All : (p : A → Bool) (xs : List A) → All (λ x. p x ≡ true) xs → filter p xs ≡ xs
  filter-All p [] h = refl
  filter-All p (x ∷ xs) h = rw h.0 (ap (◌∷◌ x) (filter-All p xs h.1))

  pub filter_none : (p : A → Bool) (xs : List A) → All (λ x. p x ≡ false) xs → filter p xs ≡ []
  filter_none p [] h = refl
  filter_none p (x ∷ xs) h = rw h.0 (filter_none p xs h.1)

  pub filter_cong :
      (p q : A → Bool) (xs : List A) → All (λ x. p x ≡ q x) xs → filter p xs ≡ filter q xs
  filter_cong p q [] h = refl
  filter_cong p q (x ∷ xs) h = rw (h.0, filter_cong p q xs h.1)

  pub filter-filter :
      (p q : A → Bool) (xs : List A) → filter p (filter q xs) ≡ filter (λ x. q x && p x) xs
  filter-filter p q [] = refl
  filter-filter p q (x ∷ xs) = elim (Bool-cases (q x)) [
    | inr h ↦ rw h (filter-filter p q xs)
    | inl h ↦ elim (Bool-cases (p x)) [
      | inl k ↦ rw (h, k) (ap (◌∷◌ x) (filter-filter p q xs))
      | inr k ↦ rw (h, k) (filter-filter p q xs)
    ]
  ]

  -- A test that fails below an index and holds from there on keeps the slice from that index.
  pub filter-eq-drop :
      (p : A → Bool) (xs : List A) (k : ℕ)
      → ((i : ℕ) → i < k → holds_at p xs i ≡ false)
      → ((i : ℕ) → k ≤ i → i < length xs → holds_at p xs i ≡ true)
      → filter p xs ≡ drop k xs
  filter-eq-drop p [] zero low high = refl
  filter-eq-drop p [] (suc k) low high = refl
  filter-eq-drop p (x ∷ xs) zero low high = rw (high zero (omega arith) (omega arith)) (
      ap (◌∷◌ x) (
        filter-eq-drop p xs zero (λ i h. elim h [ ])
          λ i a b. high (suc i) (omega arith) (omega arith)))
  filter-eq-drop p (x ∷ xs) (suc k) low high = rw (low zero (omega arith)) (
      filter-eq-drop p xs k (λ i h. low (suc i) (omega arith))
        λ i a b. high (suc i) (omega arith) (omega arith))

  pub All-append {κ} : (P : A → Type κ) (xs ys : List A) → All P xs → All P ys → All P (xs ++ ys)
  All-append P [] ys h k = k
  All-append P (x ∷ xs) ys h k = (h.0, All-append P xs ys h.1 k)

  pub All-filter {κ} :
      (P : A → Type κ) (p : A → Bool) (xs : List A) → All P xs → All P (filter p xs)
  All-filter P p [] h = tt
  All-filter P p (x ∷ xs) h = elim (Bool-cases (p x)) [
    | inl e ↦ rw e (h.0, All-filter P p xs h.1)
    | inr e ↦ rw e (All-filter P p xs h.1)
  ]

  pub All-map_imp {κ μ} :
      (P : A → Type κ) (Q : A → Type μ) (xs : List A) → ((x : A) → P x → Q x) → All P xs → All Q xs
  All-map_imp P Q [] f h = tt
  All-map_imp P Q (x ∷ xs) f h = (f x h.0, All-map_imp P Q xs f h.1)

  pub All-get_elem? {κ} :
      (P : A → Type κ) (xs : List A) (i : ℕ) (a : A) → All P xs → get_elem? xs i ≡ some a → P a
  All-get_elem? P [] i a h e = cc
  All-get_elem? P (x ∷ xs) zero a h e =
      subst P (ap (λ (o : Option A). elim o [ none ↦ x | some y ↦ y ]) e) h.0
  All-get_elem? P (x ∷ xs) (suc i) a h e = All-get_elem? P xs i a h.1 e

  pub All-both {κ μ} :
      (P : A → Type κ) (Q : A → Type μ) (xs : List A)
      → All P xs
      → All Q xs
      → All (λ x. P x × Q x) xs
  All-both P Q [] h k = tt
  All-both P Q (x ∷ xs) h k = ((h.0, k.0), All-both P Q xs h.1 k.1)
