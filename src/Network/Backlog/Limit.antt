-- ===== src/Network/Backlog/Limit.antt =====
-- Whatever the schedule, no more requests than the limit run at once, and none is forgotten.
use soroban_rpc.Common.{
  ℕ, ◌+◌, ◌^◌, ◌≤◌, ◌<◌, ◌≡◌, refl, ap, ◌∙◌, ◌⊎◌, inl, inr, Bool, true, false, Option, none, some,
  List, [], ◌∷◌, if◌then◌else◌, arith,
}
use soroban_rpc.Network.Backlog.{Phase, served, refused, run, start}
use soroban_rpc.Network.Backlog.Counts.{total, holds_counter, let_in, holds_gauge}
use soroban_rpc.Network.Backlog.Balance.{run-IsBalanced, start-IsBalanced, run-limit}

-- Whatever the order in which the goroutines of `n` requests to a new limiter move, and wherever
-- they stand, the requests that were let in within the limit and still hold the counter are at most
-- `limit`; and the counter is the number of requests that hold it.
pub run-IsWithinLimit :
    (gauge : Option ℕ) (limit n : ℕ) (schedule : List ℕ)
    → (gauge ≡ none) ⊎ (gauge ≡ some 0)
    → n + 1 < 2 ^ 64
    → (total let_in (run (start gauge limit n) schedule).requests ≤ limit)
      × ((run (start gauge limit n) schedule).limiter.pending
          ≡ total holds_counter (run (start gauge limit n) schedule).requests)
run-IsWithinLimit gauge limit n schedule g h =
    let b = run-IsBalanced (start gauge limit n) schedule (start-IsBalanced gauge limit n g h) in
    let same = run-limit (start gauge limit n) schedule in
    (omega (arith, b.bounded, same), b.counter)

-- Whether a request has been answered.
abbrev pub is_finished : Phase → Bool
is_finished served = true
is_finished refused = true
is_finished _ = false

abbrev pub all_finished : List Phase → Bool
all_finished [] = true
all_finished (p ∷ ps) = if is_finished p then all_finished ps else false

finished_holds_none :
    (ps : List Phase)
    → all_finished ps ≡ true
    → (total holds_counter ps ≡ 0) × (total holds_gauge ps ≡ 0)
finished_holds_none [] h = (refl, refl)
finished_holds_none (p ∷ ps) h = ground (arith, finished_holds_none ps)

-- Once every request to a new limiter has been answered, in whatever order the goroutines moved, the
-- counter is 0 again, and so is the gauge where there is one: no branch leaks a place in the queue.
pub run_drains :
    (gauge : Option ℕ) (limit n : ℕ) (schedule : List ℕ)
    → (gauge ≡ none) ⊎ (gauge ≡ some 0)
    → n + 1 < 2 ^ 64
    → all_finished (run (start gauge limit n) schedule).requests ≡ true
    → ((run (start gauge limit n) schedule).limiter.pending ≡ 0)
      × (((run (start gauge limit n) schedule).limiter.gauge ≡ none)
          ⊎ ((run (start gauge limit n) schedule).limiter.gauge ≡ some 0))
run_drains gauge limit n schedule g h done =
    let s = run (start gauge limit n) schedule in
    let b = run-IsBalanced (start gauge limit n) schedule (start-IsBalanced gauge limit n g h) in
    let none_held = finished_holds_none s.requests done in
    (
      omega (arith, b.counter, none_held.0),
      elim b.gauge [ inl absent ↦ inl absent | inr counted ↦ inr (counted ∙ ap some none_held.1) ],
    )
