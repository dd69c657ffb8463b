-- ===== src/Tests/DurationRuns.antt =====
-- A limiter that warns after one unit of time and stops a request after two.
use soroban_rpc.Common.{ℕ, ◌+◌, ◌≤◌, ◌≡◌, refl, ◌⊎◌, inl, false, true, none, some, [], ◌∷◌, arith}
use soroban_rpc.Network.Duration.{
  DurationLimiter, make_duration_limiter, result, Reply, abandoned, Request, new_request,
  on_warning, Received, warning, Rounds, none_left, round,
}
use soroban_rpc.Network.Duration.Ends.{Rounds-end}
use soroban_rpc.Network.Duration.Buffer.{Header, make_buffered_response_writer, write_out}
use soroban_rpc.Network.Duration.Transparent.{
  direct_calls, buffered_calls, orderly, client_sees, unsent, write_out_transparent,
}

abbrev limiter : DurationLimiter
limiter = record { warning_threshold = 1; limit_threshold = 2 }

limiter_made : make_duration_limiter 1 2 ≡ limiter
unfolding make_duration_limiter
limiter_made = refl

abbrev after_one : Request ℕ
after_one = record new_request { now = 1 }

abbrev warned : Request ℕ
warned = record after_one { warning_received = true; warn = true }

abbrev after_two : Request ℕ
after_two = record warned { now = 2 }

-- The client leaves before the limit is met.
abbrev left_early : Request ℕ
left_early = record after_two { client_gone = true }

abbrev left_alone : Request ℕ
left_alone = record left_early { handler_cancelled = true; limit_count = 1; reply = some abandoned }

-- The handler has ended, and the warning is received first.
abbrev ended_late : Request ℕ
ended_late = record after_one { handler = some (result 7) }

one_round : Rounds limiter (0 + 1) ended_late (on_warning ended_late)
one_round = round (warning refl refl refl (omega arith) refl refl) none_left

Rounds-end_example :
    (1 ≤ 2)
    × (((r : Reply ℕ) × ((on_warning ended_late).reply ≡ some r))
        ⊎ ((u : Request ℕ) × Received limiter (on_warning ended_late) u))
Rounds-end_example =
    Rounds-end limiter 1 ended_late (on_warning ended_late) (inl (result 7, refl)) one_round

abbrev no_headers : Header
no_headers k = none

write_out_transparent_example :
    client_sees (
      write_out
        (buffered_calls
          (make_buffered_response_writer (unsent no_headers))
          (orderly ((1 ∷ [], []) ∷ []) (some 404) ((2 ∷ []) ∷ (3 ∷ []) ∷ [])))
        false
        (unsent no_headers))
    ≡ client_sees (
        direct_calls
          (unsent no_headers)
          (orderly ((1 ∷ [], []) ∷ []) (some 404) ((2 ∷ []) ∷ (3 ∷ []) ∷ [])))
write_out_transparent_example =
    write_out_transparent no_headers ((1 ∷ [], []) ∷ []) (some 404) ((2 ∷ []) ∷ (3 ∷ []) ∷ []) refl
