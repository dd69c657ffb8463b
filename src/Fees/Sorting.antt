-- ===== src/Fees/Sorting.antt =====
-- Sorting keeps every fee as often as it was, in ascending order.
use soroban_rpc.Common.{
  ℕ, suc, ◌+◌, ◌≤◌, ◌≡◌, refl, inl, inr, List, [], ◌∷◌, leb, leb→le, leb→lt, ◌==◌, length, arith,
  Bool-cases,
}
use soroban_rpc.Fees.{insert, sort}
use soroban_rpc.Fees.Spec.{one_if, count, count_le}

-- Ascending, from a bound on.
abbrev pub SortedFrom : ℕ → List ℕ → Type 0
SortedFrom a [] = Unit
SortedFrom a (x ∷ xs) = (a ≤ x) × SortedFrom x xs

insert-SortedFrom : (a x : ℕ) (xs : List ℕ) → a ≤ x → SortedFrom a xs → SortedFrom a (insert x xs)
unfolding insert
insert-SortedFrom a x [] h s = (h, tt)
insert-SortedFrom a x (y ∷ ys) h s = elim (Bool-cases (leb x y)) [
  | inl le ↦ rw le (h, (leb→le x y le, s.1))
  | inr gt ↦ rw gt (s.0, insert-SortedFrom y x ys (omega (arith, leb→lt x y gt)) s.1)
]

pub sort-SortedFrom : (xs : List ℕ) → SortedFrom 0 (sort xs)
unfolding sort
sort-SortedFrom [] = tt
sort-SortedFrom (x ∷ xs) = insert-SortedFrom 0 x (sort xs) (omega arith) (sort-SortedFrom xs)

count-insert : (v x : ℕ) (xs : List ℕ) → count v (insert x xs) ≡ one_if (x == v) + count v xs
unfolding insert
count-insert v x [] = refl
count-insert v x (y ∷ ys) = elim (Bool-cases (leb x y)) [
  | inl le ↦ rw le
  | inr gt ↦ rw gt (omega (arith, count-insert v x ys))
]

pub count-sort : (v : ℕ) (xs : List ℕ) → count v (sort xs) ≡ count v xs
unfolding sort
count-sort v [] = refl
count-sort v (x ∷ xs) = omega (arith, count-insert v x (sort xs), count-sort v xs)

count_le-insert :
    (v x : ℕ) (xs : List ℕ) → count_le v (insert x xs) ≡ one_if (leb x v) + count_le v xs
unfolding insert
count_le-insert v x [] = refl
count_le-insert v x (y ∷ ys) = elim (Bool-cases (leb x y)) [
  | inl le ↦ rw le
  | inr gt ↦ rw gt (omega (arith, count_le-insert v x ys))
]

pub count_le-sort : (v : ℕ) (xs : List ℕ) → count_le v (sort xs) ≡ count_le v xs
unfolding sort
count_le-sort v [] = refl
count_le-sort v (x ∷ xs) = omega (arith, count_le-insert v x (sort xs), count_le-sort v xs)

length-insert : (x : ℕ) (xs : List ℕ) → length (insert x xs) ≡ suc (length xs)
unfolding insert
length-insert x [] = refl
length-insert x (y ∷ ys) = elim (Bool-cases (leb x y)) [
  | inl le ↦ rw le
  | inr gt ↦ rw gt (omega (arith, length-insert x ys))
]

pub length-sort : (xs : List ℕ) → length (sort xs) ≡ length xs
unfolding sort
length-sort [] = refl
length-sort (x ∷ xs) = omega (arith, length-insert x (sort xs), length-sort xs)
