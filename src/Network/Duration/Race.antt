-- ===== src/Network/Duration/Race.antt =====
-- Who wins the race of the handler and the timers, and what the reply then says.
use soroban_rpc.Common.{◌≤◌, ◌<◌, ◌≡◌, Bool, ◌⊎◌, true, false, Option, none, some, if◌then◌else◌}
use soroban_rpc.Network.Duration.{
  DurationLimiter, passes_through, Reply, passed_on, completed, timed_out, abandoned, Request,
  Reach, here, next,
}

module _ {R : Type 0} where
  -- What a reply says of the request, its counters included.
  abbrev pub Explains : DurationLimiter → Request R → Option (Reply R) → Type 0
  Explains q s none = (s.limit_count ≡ 0) × (s.warning_count ≡ 0)
  Explains q s (some (passed_on c)) =
      (s.handler ≡ some c) × (passes_through q ≡ true) × (s.limit_count ≡ 0) × (s.warning_count ≡ 0)
  Explains q s (some (completed c)) =
      (s.handler ≡ some c)
      × (passes_through q ≡ false)
      × (s.limit_count ≡ 0)
      × (s.warning_count ≡ (if s.warn then 1 else 0))
  Explains q s (some timed_out) =
      (0 < q.limit_threshold)
      × (q.limit_threshold ≤ s.now)
      × (s.limit_count ≡ 1)
      × (s.warning_count ≡ 0)
  Explains q s (some abandoned) =
      (s.client_gone ≡ true)
      × (0 < q.limit_threshold)
      × (q.limit_threshold ≤ s.now)
      × (s.limit_count ≡ 1)
      × (s.warning_count ≡ 0)

  -- The request is explained, and a warning was given only past a threshold below the limit.
  pub record IsExplained (q : DurationLimiter) (s : Request R) : Type 0 where
    pub reply : Explains q s s.reply
    pub warned :
        (s.warn ≡ false)
        ⊎ ((0 < q.warning_threshold)
            × (q.warning_threshold < q.limit_threshold)
            × (q.warning_threshold ≤ s.now))

  -- What a step may make of a reply, for whether the client had left before it: a reply stays, and at
  -- the limit a client that is there is told of the timeout, and one that has left is told nothing.
  abbrev pub Tells : Bool → Option (Reply R) → Option (Reply R) → Type 0
  Tells gone (some a) after = after ≡ some a
  Tells gone none (some timed_out) = gone ≡ false
  Tells gone none (some abandoned) = gone ≡ true
  Tells gone none _ = Unit

  -- Each step of a run did so.
  abbrev pub TellsAll : {q : DurationLimiter} {s t : Request R} → Reach q s t → Type 0
  TellsAll here = Unit
  TellsAll (next {t = t} {u = u} r m) = TellsAll r × Tells t.client_gone t.reply u.reply
