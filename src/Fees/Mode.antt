-- ===== src/Fees/Mode.antt =====
-- The loop of computeFeeDistribution finds the mode.
use native.Mathlib.Nat.{add_assoc}
use soroban_rpc.Common.{
  ℕ, ◌+◌, ◌≤◌, ◌<◌, ◌≡◌, refl, fun_ext, subst, ◌∙◌, ◌⊎◌, inl, inr, List, [], ◌∷◌, ltb, ◌==◌,
  if◌then◌else◌, arith, Bool-cases,
}
use soroban_rpc.Fees.{Modes, mode_step, mode_loop, mode_of}
use soroban_rpc.Fees.Spec.{one_if, count, IsMode}
use soroban_rpc.Fees.Sorting.{SortedFrom}

-- `c` counts the fees that the loop has passed. Of those below the last one none is more frequent
-- than the mode so far, nor as frequent if it is smaller.
record Inv (c : ℕ → ℕ) (m : Modes) : Type 0 where
  at_last : c m.last_val ≡ m.local_repetitions + 1
  past : (v : ℕ) → m.last_val < v → c v ≡ 0
  most : (v : ℕ) → v < m.last_val → c v ≤ m.max_repetitions + 1
  least : (v : ℕ) → v < m.last_val → v < m.mode → c v ≤ m.max_repetitions
  at_mode :
      ((m.mode < m.last_val) × (c m.mode ≡ m.max_repetitions + 1))
      ⊎ ((m.mode ≡ m.last_val) × (m.max_repetitions ≡ 0))

abbrev counted : (ℕ → ℕ) → ℕ → ℕ → ℕ
counted c fee v = c v + one_if (fee == v)

step-Inv :
    (c : ℕ → ℕ) (m : Modes) (fee : ℕ)
    → Inv c m
    → m.last_val ≤ fee
    → Inv (counted c fee) (mode_step m fee)
step-Inv c m fee i h = elim (Bool-cases (fee == m.last_val)) [
  | inl same ↦ rw same (record {
    at_last = ground (arith, i.at_last);
    past = λ v l. ground (arith, i.past v);
    most = λ v l. ground (arith, i.most v);
    least = λ v l k. ground (arith, i.least v);
    at_mode = ground (arith, i.at_mode);
  })
  | inr new ↦ elim (Bool-cases (ltb m.max_repetitions m.local_repetitions)) [
    | inl more ↦
        rw (new, more)
          (record {
            at_last = ground (arith, i.past fee);
            past = λ v l. ground (arith, i.past v);
            most = λ v l. ground (arith, i.past v, i.most v, i.at_last);
            least = λ v l k. ground (arith, i.past v, i.most v, i.at_last);
            at_mode = inl (ground arith, ground (arith, i.at_last));
          })
    | inr less ↦
        rw (new, less)
          (record {
            at_last = ground (arith, i.past fee);
            past = λ v l. ground (arith, i.past v);
            most = λ v l. ground (arith, i.past v, i.most v, i.at_last);
            least = λ v l k. ground (arith, i.past v, i.least v, i.at_last, i.at_mode);
            at_mode = inl (ground (arith, i.at_mode), ground (arith, i.at_mode, i.at_last));
          })
  ]
]

abbrev pub last_from : ℕ → List ℕ → ℕ
last_from x [] = x
last_from x (y ∷ ys) = last_from y ys

step-last : (m : Modes) (fee : ℕ) → (mode_step m fee).last_val ≡ fee
step-last m fee = ground arith

loop-Inv :
    (c : ℕ → ℕ) (m : Modes) (fees : List ℕ)
    → Inv c m
    → SortedFrom m.last_val fees
    → Inv (λ v. c v + count v fees) (mode_loop m fees)
      × ((mode_loop m fees).last_val ≡ last_from m.last_val fees)
unfolding mode_loop
loop-Inv c m [] i s = (subst (λ d. Inv d m) (fun_ext λ v. omega arith) i, refl)
loop-Inv c m (fee ∷ fees) i s =
    let (j, e) =
      loop-Inv (counted c fee) (mode_step m fee) fees (step-Inv c m fee i s.0)
        (rw (step-last m fee) s.1) in
    (
      subst (λ d. Inv d (mode_loop (mode_step m fee) fees))
          (fun_ext λ v. add_assoc (c v) (one_if (fee == v)) (count v fees)) j,
      e ∙ rw (step-last m fee),
    )

-- What the loop leaves gives the mode, once the last cluster is looked at too.
Inv-IsMode :
    (c : ℕ → ℕ) (m : Modes)
    → Inv c m
    → IsMode c (if ltb m.max_repetitions m.local_repetitions then m.last_val else m.mode)
Inv-IsMode c m i = elim (Bool-cases (ltb m.max_repetitions m.local_repetitions)) [
  | inl more ↦ rw more (record {
    most = λ v. ground (arith, i.past v, i.most v, i.at_last);
    least = λ v l. ground (arith, i.past v, i.most v, i.at_last);
  })
  | inr less ↦ rw less (record {
    most = λ v. ground (arith, i.past v, i.most v, i.at_last, i.at_mode);
    least = λ v l. ground (arith, i.past v, i.least v, i.at_last, i.at_mode);
  })
]

-- On a sorted slice `first ∷ rest` the code finds its mode.
pub mode_of-IsMode :
    (first : ℕ) (rest : List ℕ)
    → SortedFrom first rest
    → IsMode (λ v. count v (first ∷ rest)) (mode_of first rest (last_from first rest))
unfolding mode_of
mode_of-IsMode first rest s =
    let start : Modes = record {
      mode = first;
      last_val = first;
      max_repetitions = 0;
      local_repetitions = 0;
    } in
    let i : Inv (λ v. one_if (first == v)) start = record {
      at_last = ground arith;
      past = λ v l. ground arith;
      most = λ v l. ground arith;
      least = λ v l k. ground arith;
      at_mode = inr (refl, refl);
    } in
    let (j, e) = loop-Inv (λ v. one_if (first == v)) start rest i s in
    rw (← e) (Inv-IsMode (λ v. count v (first ∷ rest)) (mode_loop start rest) j)
