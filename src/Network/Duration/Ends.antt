-- ===== src/Network/Duration/Ends.antt =====
-- The loop over `select` ends.
use soroban_rpc.Common.{
  ℕ, ◌+◌, ◌≤◌, ◌≡◌, refl, ◌⊎◌, inl, inr, true, false, Option, none, some, if◌then◌else◌, arith,
  Bool-cases, Option-cases,
}
use soroban_rpc.Network.Duration.{
  DurationLimiter, passes_through, arms_limit, Completion, Reply, Request, on_warning, on_limit,
  on_completed, on_passed, Received, warning, limit, completion, passed, Rounds, none_left, round,
}

module _ {R : Type 0} where
  -- The warning, the reply: what the loop may still do.
  abbrev is_waiting : Option (Reply R) → ℕ
  is_waiting none = 1
  is_waiting (some _) = 0

  abbrev rounds_left : Request R → ℕ
  rounds_left s = (if s.warning_received then 0 else 1) + is_waiting s.reply

  is_waiting-le : (o : Option (Reply R)) → is_waiting o ≤ 1
  is_waiting-le none = omega arith
  is_waiting-le (some _) = omega arith

  rounds_left-le : (s : Request R) → rounds_left s ≤ 2
  rounds_left-le s = elim (Bool-cases s.warning_received) [
    | inl hit ↦ rw hit (omega (arith, is_waiting-le s.reply))
    | inr miss ↦ rw miss (omega (arith, is_waiting-le s.reply))
  ]

  -- Something other than the warning is there to be received: the handler has ended, or the limit is
  -- armed and due.
  abbrev pub IsReady : DurationLimiter → Request R → Type 0
  IsReady q s =
      ((c : Completion R) × (s.handler ≡ some c))
      ⊎ ((passes_through q ≡ false) × (arms_limit q ≡ true) × (q.limit_threshold ≤ s.now))

  Received-le :
      (q : DurationLimiter) (s t : Request R) → Received q s t → rounds_left t + 1 ≤ rounds_left s
  unfolding on_warning on_limit on_completed on_passed
  Received-le q s t (warning r p a h w e) = rw (e, w, r) (omega arith)
  Received-le q s t (limit r p a h e) = rw (e, r) (omega arith)
  Received-le q s t (completion c r p h e) = rw (e, r) (omega arith)
  Received-le q s t (passed c r p h e) = rw (e, r) (omega arith)

  Received-IsReady :
      (q : DurationLimiter) (s t : Request R) → Received q s t → IsReady q s → IsReady q t
  unfolding on_warning on_limit on_completed on_passed
  Received-IsReady q s t (warning r p a h w e) y = rw e y
  Received-IsReady q s t (limit r p a h e) y = rw e y
  Received-IsReady q s t (completion c r p h e) y = rw e y
  Received-IsReady q s t (passed c r p h e) y = rw e y

  -- A request that waits and is ready can go on.
  goes_on :
      (q : DurationLimiter) (s : Request R)
      → s.reply ≡ none
      → IsReady q s
      → (t : Request R) × Received q s t
  goes_on q s r (inl (c, h)) = elim (Bool-cases (passes_through q)) [
    | inl through ↦ (on_passed s c, passed c r through h refl)
    | inr limited ↦ (on_completed s c, completion c r limited h refl)
  ]
  goes_on q s r (inr (limited, armed, due)) = (on_limit s, limit r limited armed due refl)

  Rounds-le :
      (q : DurationLimiter) (n : ℕ) (s t : Request R)
      → Rounds q n s t
      → n + rounds_left t ≤ rounds_left s
  Rounds-le q n s t none_left = omega arith
  Rounds-le q n s t (round {n = k} {t = u} m more) =
      omega (arith, Received-le q s u m, Rounds-le q k u t more)

  Rounds-IsReady :
      (q : DurationLimiter) (n : ℕ) (s t : Request R) → Rounds q n s t → IsReady q s → IsReady q t
  Rounds-IsReady q n s t none_left y = y
  Rounds-IsReady q n s t (round {n = k} {t = u} m more) y =
      Rounds-IsReady q k u t more (Received-IsReady q s u m y)

  -- Once the handler has ended, or the limit is due, the loop replies within two rounds, whichever of
  -- the channels that are ready `select` picks: it makes no third round, and until it has replied it
  -- can make one more.
  pub Rounds-end :
      (q : DurationLimiter) (n : ℕ) (s t : Request R)
      → IsReady q s
      → Rounds q n s t
      → (n ≤ 2) × (((r : Reply R) × (t.reply ≡ some r)) ⊎ ((u : Request R) × Received q t u))
  Rounds-end q n s t y m = (
    omega (arith, Rounds-le q n s t m, rounds_left-le s),
    elim (Option-cases t.reply) [
      | inl still ↦ inr (goes_on q t still (Rounds-IsReady q n s t m y))
      | inr done ↦ inl done
    ],
  )
