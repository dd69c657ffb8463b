-- ===== src/Network/Backlog/Balance.antt =====
-- What every step of every request keeps: the counter, the gauge and the limit fit the requests.
use soroban_rpc.Common.{
  ℕ, zero, suc, ◌+◌, ◌^◌, ◌≤◌, ◌<◌, ◌≡◌, refl, sym, ◌∙◌, ◌⊎◌, inl, inr, Option, none, some, List,
  [], ◌∷◌, ltb, ltb→le, ◌==◌, length, length-set, get_elem?, set, arith, Bool-cases, Option-cases,
}
use soroban_rpc.Network.Backlog.{
  BacklogQLimiter, Phase, arriving, over, refusing, admitted, serving, released, clearing, passing,
  served, refused, System, step, move, run, start, arrivals, add_u64, no_limit,
}
use soroban_rpc.Network.Backlog.Counts.{
  total, holds_counter, let_in, holds_gauge, total-set, total-arrivals, total-let_in_le,
  total-holds_le, weight-le-total,
}

-- The counter is the number of requests that hold it, the gauge (where there is one) that of the
-- requests between its two calls, and no more requests are let in than the limit.
pub record IsBalanced (s : System) : Type 0 where
  pub small : length s.requests + 1 < 2 ^ 64
  pub counter : s.limiter.pending ≡ total holds_counter s.requests
  pub gauge : (s.limiter.gauge ≡ none) ⊎ (s.limiter.gauge ≡ some (total holds_gauge s.requests))
  pub bounded : total let_in s.requests ≤ s.limiter.limit

-- The request at `i` moves from a phase.
pub moved : System → ℕ → Phase → System
unfolding step
moved s i phase = record {
  limiter = (step s.limiter phase).0;
  requests = set s.requests i (step s.limiter phase).1;
}

pub record Shift (s : System) (i : ℕ) (old new : Phase) : Type 0 where
  pub same_length : length (set s.requests i new) ≡ length s.requests
  pub counters :
      total holds_counter (set s.requests i new) + holds_counter old
      ≡ total holds_counter s.requests + holds_counter new
  pub lets : total let_in (set s.requests i new) + let_in old ≡ total let_in s.requests + let_in new
  pub gauges :
      total holds_gauge (set s.requests i new) + holds_gauge old
      ≡ total holds_gauge s.requests + holds_gauge new

pub shift :
    (s : System) (i : ℕ) (old new : Phase) → get_elem? s.requests i ≡ some old → Shift s i old new
shift s i old new e = record {
  same_length = length-set s.requests i new;
  counters = total-set holds_counter s.requests i old new e;
  lets = total-set let_in s.requests i old new e;
  gauges = total-set holds_gauge s.requests i old new e;
}

module _ (s : System) (i : ℕ) (b : IsBalanced s) where
  -- A step that touches no count.
  pub quiet :
      (old new : Phase) (q : BacklogQLimiter)
      → get_elem? s.requests i ≡ some old
      → holds_counter old ≡ holds_counter new
      → let_in old ≡ let_in new
      → holds_gauge old ≡ holds_gauge new
      → q.pending ≡ s.limiter.pending
      → q.gauge ≡ s.limiter.gauge
      → q.limit ≡ s.limiter.limit
      → IsBalanced (record { limiter = q; requests = set s.requests i new })
  quiet old new q e c l g p q' t =
      let h = shift s i old new e in
      let same : total holds_gauge (set s.requests i new) ≡ total holds_gauge s.requests =
        omega (arith, h.gauges) in
      record {
        small = omega (arith, h.same_length, b.small);
        counter = omega (arith, h.counters, b.counter);
        gauge = rw (same, q') b.gauge;
        bounded = omega (arith, h.lets, b.bounded);
      }

  -- A new request takes its place among those that hold the counter.
  pub counted :
      (new : Phase)
      → get_elem? s.requests i ≡ some arriving
      → holds_counter new ≡ 1
      → holds_gauge new ≡ 0
      → (let_in new ≡ 0) ⊎ ((let_in new ≡ 1) × (add_u64 s.limiter.pending 1 ≤ s.limiter.limit))
      → IsBalanced (record {
        limiter = record s.limiter { pending = add_u64 s.limiter.pending 1 };
        requests = set s.requests i new;
      })
  counted new e c g l =
      let h = shift s i arriving new e in
      let held = total-holds_le s.requests in
      let let_in_held = total-let_in_le s.requests in
      let same : total holds_gauge (set s.requests i new) ≡ total holds_gauge s.requests =
        omega (arith, h.gauges) in
      record {
        small = omega (arith, h.same_length, b.small);
        counter = omega (arith, h.counters, b.counter, b.small);
        gauge = rw same b.gauge;
        bounded = elim l [
          | inl none_in ↦ omega (arith, h.lets, b.bounded)
          | inr let_one ↦ omega (arith, h.lets, b.counter, b.small, let_one.0, let_one.1)
        ];
      }

  pub moved-IsBalanced :
      (phase : Phase) → get_elem? s.requests i ≡ some phase → IsBalanced (moved s i phase)
  unfolding moved
  moved-IsBalanced arriving e = elim (Bool-cases (s.limiter.limit == no_limit)) [
    | inl unlimited ↦ rw unlimited (quiet arriving passing _ e refl refl refl refl refl refl)
    | inr limited ↦ elim (Bool-cases (ltb s.limiter.limit (add_u64 s.limiter.pending 1))) [
      | inl above ↦ rw (limited, above) (counted over e refl refl (inl refl))
      | inr within ↦
          rw (limited, within)
            (counted admitted e refl refl
              (inr (refl, ltb→le s.limiter.limit (add_u64 s.limiter.pending 1) within)))
    ]
  ]
  moved-IsBalanced over e =
      let h = shift s i over refusing e in
      let some_held = weight-le-total holds_counter s.requests i over e in
      record {
        small = omega (arith, h.same_length, b.small);
        counter =
            omega (arith, h.counters, b.counter, some_held, total-holds_le s.requests, b.small);
        gauge = ground (arith, b.gauge, h.gauges);
        bounded = omega (arith, h.lets, b.bounded);
      }
  moved-IsBalanced refusing e = quiet refusing refused _ e refl refl refl refl refl refl
  moved-IsBalanced admitted e =
      let h = shift s i admitted serving e in
      record {
        small = omega (arith, h.same_length, b.small);
        counter = omega (arith, h.counters, b.counter);
        gauge = ground (arith, b.gauge, h.gauges);
        bounded = omega (arith, h.lets, b.bounded);
      }
  moved-IsBalanced serving e =
      let h = shift s i serving released e in
      let some_held = weight-le-total holds_counter s.requests i serving e in
      record {
        small = omega (arith, h.same_length, b.small);
        counter =
            omega (arith, h.counters, b.counter, some_held, total-holds_le s.requests, b.small);
        gauge = ground (arith, b.gauge, h.gauges);
        bounded = omega (arith, h.lets, b.bounded);
      }
  moved-IsBalanced released e =
      let h = shift s i released clearing e in
      record {
        small = omega (arith, h.same_length, b.small);
        counter = omega (arith, h.counters, b.counter);
        gauge = ground (arith, b.gauge, h.gauges);
        bounded = omega (arith, h.lets, b.bounded);
      }
  moved-IsBalanced clearing e = quiet clearing served _ e refl refl refl refl refl refl
  moved-IsBalanced passing e = quiet passing served _ e refl refl refl refl refl refl
  moved-IsBalanced served e = quiet served served _ e refl refl refl refl refl refl
  moved-IsBalanced refused e = quiet refused refused _ e refl refl refl refl refl refl

pub move-IsBalanced : (s : System) (i : ℕ) → IsBalanced s → IsBalanced (move s i)
unfolding move moved
move-IsBalanced s i b = elim (Option-cases (get_elem? s.requests i)) [
  | inl missing ↦ rw (missing, move) b
  | inr found ↦ rw (found.1, move) (moved-IsBalanced s i b found.0 found.1)
]

pub run-IsBalanced : (s : System) (schedule : List ℕ) → IsBalanced s → IsBalanced (run s schedule)
unfolding run
run-IsBalanced s [] b = b
run-IsBalanced s (i ∷ schedule) b = run-IsBalanced (move s i) schedule (move-IsBalanced s i b)

pub length-arrivals : (n : ℕ) → length (arrivals n) ≡ n
length-arrivals zero = refl
length-arrivals (suc n) = omega (arith, length-arrivals n)

pub start-IsBalanced :
    (gauge : Option ℕ) (limit n : ℕ)
    → (gauge ≡ none) ⊎ (gauge ≡ some 0)
    → n + 1 < 2 ^ 64
    → IsBalanced (start gauge limit n)
start-IsBalanced gauge limit n g h = record {
  small = rw (length-arrivals n) h;
  counter = sym (total-arrivals holds_counter n refl);
  gauge = rw (total-arrivals holds_gauge n refl) g;
  bounded = omega (arith, total-arrivals let_in n refl);
}

pub step-limit : (q : BacklogQLimiter) (phase : Phase) → (step q phase).0.limit ≡ q.limit
unfolding step
step-limit q phase = ground arith

pub move-limit : (s : System) (i : ℕ) → (move s i).limiter.limit ≡ s.limiter.limit
unfolding move
move-limit s i = elim (Option-cases (get_elem? s.requests i)) [
  | inl missing ↦ rw (missing, move) refl
  | inr found ↦ rw (found.1, move) (step-limit s.limiter found.0)
]

pub run-limit : (s : System) (schedule : List ℕ) → (run s schedule).limiter.limit ≡ s.limiter.limit
unfolding run
run-limit s [] = refl
run-limit s (i ∷ schedule) = run-limit (move s i) schedule ∙ move-limit s i
