-- ===== src/Tests/LimiterRuns.antt =====
-- Two requests to a limiter that lets one in at a time.
use soroban_rpc.Common.{ℕ, ◌≤◌, ◌≡◌, ◌⊎◌, refl, inr, none, some, List, [], ◌∷◌, arith}
use soroban_rpc.Network.Backlog.{run, start}
use soroban_rpc.Network.Backlog.Counts.{total, let_in, holds_counter}
use soroban_rpc.Network.Backlog.Limit.{run-IsWithinLimit, run_drains}

-- The first is let in, the second refused.
abbrev one_at_a_time : List ℕ
one_at_a_time = 0 ∷ 0 ∷ 1 ∷ 1 ∷ 1 ∷ 0 ∷ 0 ∷ 0 ∷ []

run-IsWithinLimit_example :
    (total let_in (run (start (some 0) 1 2) one_at_a_time).requests ≤ 1)
    × ((run (start (some 0) 1 2) one_at_a_time).limiter.pending
        ≡ total holds_counter (run (start (some 0) 1 2) one_at_a_time).requests)
run-IsWithinLimit_example = run-IsWithinLimit (some 0) 1 2 one_at_a_time (inr refl) (omega arith)

run_drains_example :
    ((run (start (some 0) 1 2) one_at_a_time).limiter.pending ≡ 0)
    × (((run (start (some 0) 1 2) one_at_a_time).limiter.gauge ≡ none)
        ⊎ ((run (start (some 0) 1 2) one_at_a_time).limiter.gauge ≡ some 0))
unfolding run
run_drains_example = run_drains (some 0) 1 2 one_at_a_time (inr refl) (omega arith) refl
