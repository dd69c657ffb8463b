-- ===== src/Network/Backlog.antt =====
-- internal/network/backlogQ.go: the limit on concurrent requests. Every request runs in a goroutine
-- of its own; each step below is one atomic operation on the shared limiter, or the downstream
-- handler, and a schedule says which goroutine moves next. The log is left out.
pub mod Counts
pub mod Balance
pub mod Limit
use soroban_rpc.Common.{
  ℕ, zero, suc, ◌+◌, ◌-◌, ◌%◌, ◌^◌, Bool, true, false, Option, none, some, List, [], ◌∷◌, ltb, ◌==◌,
  if◌then◌else◌, get_elem?, set,
}

-- RequestBacklogQueueNoLimit, math.MaxUint64
abbrev pub no_limit : ℕ
no_limit = 2 ^ 64 - 1

-- backlogQLimiter; `gauge` is the value of the gauge, where there is one.
pub record BacklogQLimiter : Type 0 where
  pub limit : ℕ
  pub pending : ℕ
  pub gauge : Option ℕ
  pub limit_reached : ℕ

-- MakeHTTPBacklogQueueLimiter and MakeJrpcBacklogQueueLimiter, less the handler and the logger.
abbrev pub make_limiter : Option ℕ → ℕ → BacklogQLimiter
make_limiter gauge limit = record { limit = limit; pending = 0; gauge = gauge; limit_reached = 0 }

abbrev pub add_u64 : ℕ → ℕ → ℕ
add_u64 a b = (a + b) % 2 ^ 64

-- Where the goroutine of a request stands.
pub data Phase : Type 0 where
  -- before the first test
  arriving : Phase
  -- the counter is up, and was found above the limit
  over : Phase
  -- the counter is down again; the flag is next
  refusing : Phase
  -- the counter is up, within the limit; the gauge is next
  admitted : Phase
  -- the downstream handler runs
  serving : Phase
  -- the deferred calls: the counter is down; the gauge, then the flag are next
  released : Phase
  clearing : Phase
  -- the handler runs with no limit
  passing : Phase
  served : Phase
  refused : Phase

abbrev pub inc : Option ℕ → Option ℕ
inc none = none
inc (some n) = some (n + 1)

abbrev pub dec : Option ℕ → Option ℕ
dec none = none
dec (some n) = some (n - 1)

-- One atomic step of a request. `over` is the branch of ServeHTTP and Handle that refuses; after
-- `serving` come the deferred calls, which run also when the handler panics.
unfoldable pub step : BacklogQLimiter → Phase → BacklogQLimiter × Phase
step q arriving = if q.limit == no_limit then (q, passing) else (
  record q { pending = add_u64 q.pending 1 },
  if ltb q.limit (add_u64 q.pending 1) then over else admitted,
)
step q over = (record q { pending = add_u64 q.pending (2 ^ 64 - 1) }, refusing)
step q refusing =
    (record q { limit_reached = if q.limit_reached == 0 then 1 else q.limit_reached }, refused)
step q admitted = (record q { gauge = inc q.gauge }, serving)
step q serving = (record q { pending = add_u64 q.pending (2 ^ 64 - 1) }, released)
step q released = (record q { gauge = dec q.gauge }, clearing)
step q clearing = (record q { limit_reached = 0 }, served)
step q passing = (q, served)
step q served = (q, served)
step q refused = (q, refused)

-- What the client of a finished request gets: the downstream handler's answer, or the refusal.
pub data Answer : Type 0 where
  downstream : Answer
  service_unavailable : Answer
  queue_limit_error : ℕ → Answer

-- ServeHTTP
abbrev pub http_answer : BacklogQLimiter → Phase → Option Answer
http_answer q served = some downstream
http_answer q refused = some service_unavailable
http_answer q _ = none

-- Handle
abbrev pub jrpc_answer : BacklogQLimiter → Phase → Option Answer
jrpc_answer q served = some downstream
jrpc_answer q refused = some (queue_limit_error q.limit)
jrpc_answer q _ = none

-- All requests and the limiter that they share.
pub record System : Type 0 where
  pub limiter : BacklogQLimiter
  pub requests : List Phase

-- The goroutine of request `i` moves.
unfoldable pub move : System → ℕ → System
unfolding step
move s i = elim (get_elem? s.requests i) [
  | none ↦ s
  | some phase ↦ record {
    limiter = (step s.limiter phase).0;
    requests = set s.requests i (step s.limiter phase).1;
  }
]

unfoldable pub run : System → List ℕ → System
unfolding move
run s [] = s
run s (i ∷ schedule) = run (move s i) schedule

abbrev pub arrivals : ℕ → List Phase
arrivals zero = []
arrivals (suc n) = arriving ∷ arrivals n

-- A new limiter and `n` requests.
abbrev pub start : Option ℕ → ℕ → ℕ → System
start gauge limit n = record { limiter = make_limiter gauge limit; requests = arrivals n }
