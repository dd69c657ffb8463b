-- ===== src/Network/Duration.antt =====
-- internal/network/requestdurationlimiter.go: the limit on the time of a request. The downstream handler
-- runs in a goroutine of its own, and the loop over `select` races its completion against two timers.
-- Time counts from the start of the request, in nanoseconds. The log is left out.

pub mod Race
pub mod Ends
pub mod Buffer
pub mod Transparent
use soroban_rpc.Common.{
  ℕ, ◌+◌, ◌-◌, ◌^◌, ◌≤◌, ◌<◌, ◌≡◌, Bool, true, false, Option, none, some, ltb, ◌==◌, ◌&&◌, not,
  if◌then◌else◌,
}

-- RequestDurationLimiterNoLimit, math.MaxInt64
abbrev pub no_limit : ℕ
no_limit = 2 ^ 63 - 1

-- requestDurationLimiter; the counters are in the state of a request.
pub record DurationLimiter : Type 0 where
  pub warning_threshold : ℕ
  pub limit_threshold : ℕ

-- MakeHTTPRequestDurationLimiter and MakeJrpcRequestDurationLimiter, less the handler and the logger.
unfoldable pub make_duration_limiter : ℕ → ℕ → DurationLimiter
make_duration_limiter warning limit = record {
  warning_threshold = if ltb limit warning then limit else warning;
  limit_threshold = limit;
}

-- Whether the limiter hands the request straight on, and whether the two timers are made.
abbrev pub passes_through : DurationLimiter → Bool
passes_through q = q.limit_threshold == no_limit

abbrev pub arms_warning : DurationLimiter → Bool
arms_warning q = not (q.warning_threshold == 0) && ltb q.warning_threshold q.limit_threshold

abbrev pub arms_limit : DurationLimiter → Bool
arms_limit q = not (q.limit_threshold == 0)

-- How the downstream handler ended: with a result, or in a panic.
pub data Completion (R : Type 0) : Type 0 where
  result : R → Completion R
  panicked : Completion R

-- What the request came to.
pub data Reply (R : Type 0) : Type 0 where
  -- the request was handed straight on
  passed_on : Completion R → Reply R
  -- the handler was done in time
  completed : Completion R → Reply R
  -- the limit was met, with the client there, or gone
  timed_out : Reply R
  abandoned : Reply R

-- One request: the clock, the handler, the variables of ServeHTTP or Handle, and the two counters.
pub record Request (R : Type 0) : Type 0 where
  pub now : ℕ
  pub handler : Option (Completion R)
  pub client_gone : Bool
  -- what the timer of the warning has sent is received once
  pub warning_received : Bool
  pub warn : Bool
  pub handler_cancelled : Bool
  pub warning_count : ℕ
  pub limit_count : ℕ
  pub reply : Option (Reply R)

module _ {R : Type 0} where
  abbrev pub new_request : Request R
  new_request = record {
    now = 0;
    handler = none;
    client_gone = false;
    warning_received = false;
    warn = false;
    handler_cancelled = false;
    warning_count = 0;
    limit_count = 0;
    reply = none;
  }

  -- The three cases of `select`, with the deferred cancellation where they return.
  unfoldable pub on_warning : Request R → Request R
  on_warning s = record s { warning_received = true; warn = true }

  unfoldable pub on_limit : Request R → Request R
  on_limit s = record s {
    handler_cancelled = true;
    limit_count = s.limit_count + 1;
    reply = some (if s.client_gone then abandoned else timed_out);
  }

  unfoldable pub on_completed : Request R → Completion R → Request R
  on_completed s c = record s {
    handler_cancelled = true;
    warning_count = if s.warn then s.warning_count + 1 else s.warning_count;
    reply = some (completed c);
  }

  unfoldable pub on_passed : Request R → Completion R → Request R
  on_passed s c = record s { reply = some (passed_on c) }

-- One round of the loop, or the hand-over where there is no limit.
pub data Received {R : Type 0} (q : DurationLimiter) (s : Request R) (t : Request R) : Type 0 where
  warning :
      s.reply ≡ none
      → passes_through q ≡ false
      → arms_warning q ≡ true
      → q.warning_threshold ≤ s.now
      → s.warning_received ≡ false
      → t ≡ on_warning s
      → Received q s t
  limit :
      s.reply ≡ none
      → passes_through q ≡ false
      → arms_limit q ≡ true
      → q.limit_threshold ≤ s.now
      → t ≡ on_limit s
      → Received q s t
  completion :
      (c : Completion R)
      → s.reply ≡ none
      → passes_through q ≡ false
      → s.handler ≡ some c
      → t ≡ on_completed s c
      → Received q s t
  passed :
      (c : Completion R)
      → s.reply ≡ none
      → passes_through q ≡ true
      → s.handler ≡ some c
      → t ≡ on_passed s c
      → Received q s t

-- A step of the request, or of what surrounds it: time goes by, the handler ends, the client leaves.
pub data Step {R : Type 0} (q : DurationLimiter) (s : Request R) (t : Request R) : Type 0 where
  received : Received q s t → Step q s t
  tick : t ≡ record s { now = s.now + 1 } → Step q s t
  ended : (c : Completion R) → s.handler ≡ none → t ≡ record s { handler = some c } → Step q s t
  left : t ≡ record s { client_gone = true } → Step q s t

pub data Reach {R : Type 0} (q : DurationLimiter) (s : Request R) : Request R → Type 0 where
  here : Reach q s s
  next : {t u : Request R} → Reach q s t → Step q t u → Reach q s u

-- Some rounds of the loop, counted.
pub data Rounds {R : Type 0} (q : DurationLimiter) : ℕ → Request R → Request R → Type 0 where
  none_left : {s : Request R} → Rounds q 0 s s
  round : {n : ℕ} {s t u : Request R} → Received q s t → Rounds q n t u → Rounds q (n + 1) s u
