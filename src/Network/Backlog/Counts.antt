-- ===== src/Network/Backlog/Counts.antt =====
-- Counting the requests in some phases, as one of them moves.
use soroban_rpc.Common.{
  ℕ, zero, suc, ◌+◌, ◌≤◌, ◌≡◌, refl, some, List, [], ◌∷◌, length, get_elem?, set, arith,
}
use soroban_rpc.Network.Backlog.{Phase, arriving, over, admitted, serving, released, arrivals}

abbrev pub total : (Phase → ℕ) → List Phase → ℕ
total weight [] = 0
total weight (p ∷ ps) = weight p + total weight ps

-- The counter stands for the requests above and within the limit.
abbrev pub holds_counter : Phase → ℕ
holds_counter over = 1
holds_counter admitted = 1
holds_counter serving = 1
holds_counter _ = 0

-- Of these, the ones that were let in.
abbrev pub let_in : Phase → ℕ
let_in admitted = 1
let_in serving = 1
let_in _ = 0

-- The gauge stands for the requests between its two calls.
abbrev pub holds_gauge : Phase → ℕ
holds_gauge serving = 1
holds_gauge released = 1
holds_gauge _ = 0

pub total-set :
    (weight : Phase → ℕ) (ps : List Phase) (i : ℕ) (old new : Phase)
    → get_elem? ps i ≡ some old
    → total weight (set ps i new) + weight old ≡ total weight ps + weight new
total-set weight [] i old new e = cc
total-set weight (p ∷ ps) zero old new e = let same : p ≡ old = (cc) in rw same (omega arith)
total-set weight (p ∷ ps) (suc i) old new e = omega (arith, total-set weight ps i old new e)

pub total-arrivals :
    (weight : Phase → ℕ) (n : ℕ) → weight arriving ≡ 0 → total weight (arrivals n) ≡ 0
total-arrivals weight zero h = refl
total-arrivals weight (suc n) h = omega (arith, total-arrivals weight n h)

weigh-le : (p : Phase) → (let_in p ≤ holds_counter p) × (holds_counter p ≤ 1)
weigh-le p = ground arith

pub total-let_in_le : (ps : List Phase) → total let_in ps ≤ total holds_counter ps
total-let_in_le [] = omega arith
total-let_in_le (p ∷ ps) = omega (arith, total-let_in_le ps, (weigh-le p).0)

pub total-holds_le : (ps : List Phase) → total holds_counter ps ≤ length ps
total-holds_le [] = omega arith
total-holds_le (p ∷ ps) = omega (arith, total-holds_le ps, (weigh-le p).1)

-- A part of a total is at most the total.
pub weight-le-total :
    (weight : Phase → ℕ) (ps : List Phase) (i : ℕ) (p : Phase)
    → get_elem? ps i ≡ some p
    → weight p ≤ total weight ps
weight-le-total weight [] i p e = cc
weight-le-total weight (q ∷ ps) zero p e = let same : q ≡ p = (cc) in rw same (omega arith)
weight-le-total weight (q ∷ ps) (suc i) p e = omega (arith, weight-le-total weight ps i p e)
