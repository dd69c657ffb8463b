-- ===== src/Methods/GetEvents/Total.antt =====
-- Matching a request against an event, methods/get_events.go, against what its filters ask for.
use soroban_rpc.Common.{
  ℕ, ◌+◌, ◌≡◌, refl, ap, ap₂, ◌∙◌, inl, inr, Bool, true, false, not, Option, none, some, List, [],
  ◌∷◌, ltb, ◌==◌, ==_iff, ◌&&◌, ◌||◌, if◌then◌else◌, arith, Bool-cases, Option-cases, length, All,
  Outcome, ok, ◌>>=◌,
}
use soroban_rpc.Methods.GetEvents.{
  bytes_eq, BodyV0, DiagnosticEvent, ContractEvent, SegmentFilter, EventFilter, GetEventsRequest,
  Encodings,
}
use soroban_rpc.Methods.GetEvents.Valid.{
  first_error, no_segment, too_many_segments, too_many_topics, too_many_ids, type_invalid,
  too_many_filters, ids_valid, topics_valid, types_valid, segment_valid, topic_valid, filter_valid,
  filters_valid, limit_valid, start_valid, request_valid, or_else, segment_invalid, topic_invalid,
  filter_invalid,
}
use soroban_rpc.Methods.GetEvents.Matching.{
  segment_matches, segments_match, topic_matches, any_topic, topics_match, filter_matches,
  any_filter, filters_match, request_matches,
}
use soroban_rpc.Methods.GetEvents.Names.{
  types_match-any, any_none, contract_ids_match-any, topics_fit-length,
}
use soroban_rpc.Methods.GetEvents.Spec.{
  any, any_if_given, segment_fits, topics_fit, has_topics, takes, asks_for,
}

abbrev pub Answers : {E : Type 0} → Outcome E Bool → Type 0
Answers o = (b : Bool) × (o ≡ ok b)

first_error-none {ℓ} :
    {A E F : Type ℓ} (valid : A → Option E) (wrap : ℕ → E → F) (i : ℕ) (xs : List A)
    → first_error valid wrap i xs ≡ none
    → All (λ x. valid x ≡ none) xs
first_error-none valid wrap i [] h = tt
first_error-none valid wrap i (x ∷ xs) h = elim (Option-cases (valid x)) [
  | inl fine ↦ (fine, first_error-none valid wrap (i + 1) xs (rw (fine, first_error) at h))
  | inr bad ↦ cc (rw (bad.1, first_error) at h)
]

or_else-none {ℓ} :
    {E : Type ℓ} (first next : Option E)
    → or_else first next ≡ none
    → (first ≡ none) × (next ≡ none)
or_else-none none next h = (refl, h)
or_else-none (some e) next h = cc

if-some-none {ℓ} :
    {E : Type ℓ} (test : Bool) (e : E) (rest : Option E)
    → (if test then some e else rest) ≡ none
    → (test ≡ false) × (rest ≡ none)
if-some-none true e rest h = cc
if-some-none false e rest h = (refl, h)

not-false : (b : Bool) → not b ≡ false → b ≡ true
not-false true h = refl
not-false false h = cc

-- Three tests in a row, the last of which can fail.
both_tests :
    {E : Type 0} (a b : Bool) (last : Outcome E Bool) (c : Bool)
    → last ≡ ok c
    → (let none_of : Outcome E Bool = ok false in
        if a then (if b then last else none_of) else none_of)
      ≡ ok (a && (b && c))
both_tests true true last c e = e
both_tests true false last c e = refl
both_tests false b last c e = refl

module _ {Hash ScVal E : Type 0} (x : Encodings Hash ScVal) where
  and_then-ok :
      (m rest : Outcome E Bool) (b c : Bool)
      → m ≡ ok b
      → rest ≡ ok c
      → (m >>= λ b. if b then rest else ok false) ≡ ok (b && c)
  and_then-ok m rest true c e f = rw e f
  and_then-ok m rest false c e f = rw e refl

  or_else-ok :
      (m rest : Outcome E Bool) (b c : Bool)
      → m ≡ ok b
      → rest ≡ ok c
      → (m >>= λ b. if b then ok true else rest) ≡ ok (b || c)
  or_else-ok m rest true c e f = rw e refl
  or_else-ok m rest false c e f = rw e f

  fields-fit :
      (w : Option (List ℕ)) (c : Option ScVal) (v : ScVal)
      → segment_valid (record { wildcard = w; scval = c }) ≡ none
      → segment_matches {E = E} x (record { wildcard = w; scval = c }) v
        ≡ ok (segment_fits x (record { wildcard = w; scval = c }) v)
  fields-fit none none v h = cc
  fields-fit none (some c) v h = refl
  fields-fit (some w) (some c) v h = cc
  fields-fit (some w) none v h = elim (Bool-cases (bytes_eq w (42 ∷ []))) [
    | inl star ↦ rw star refl
    | inr other ↦ cc (rw other at h)
  ]

  segments-fit :
      (t : List (SegmentFilter ScVal)) (vs : List ScVal)
      → All (λ s. segment_valid s ≡ none) t
      → length vs ≡ length t
      → segments_match {E = E} x t vs ≡ ok (topics_fit x t vs)
  segments-fit [] [] h e = refl
  segments-fit [] (v ∷ vs) h e = cc
  segments-fit (s ∷ ss) [] h e = cc
  segments-fit (s ∷ ss) (v ∷ vs) h e =
      and_then-ok _ _ _ _ (fields-fit s.wildcard s.scval v h.0)
        (segments-fit ss vs h.1 (omega arith))

  topic-fit :
      (t : List (SegmentFilter ScVal)) (vs : List ScVal)
      → topic_valid t ≡ none
      → topic_matches {E = E} x t vs ≡ ok (topics_fit x t vs)
  topic-fit t vs h =
      let fine =
        if-some-none (ltb 4 (length t)) too_many_segments _
          (if-some-none (ltb (length t) 1) no_segment _ h).1 in
      elim (Bool-cases (length vs == length t)) [
        | inl same ↦ rw same (
            segments-fit t vs (first_error-none segment_valid segment_invalid 1 t fine.1)
              ((==_iff (length vs) (length t)).0 same))
        | inr other ↦ elim (Bool-cases (topics_fit x t vs)) [
          | inl fits ↦ cc ((==_iff (length vs) (length t)).1 (topics_fit-length x t vs fits))
          | inr unfit ↦ rw (other, unfit) refl
        ]
      ]

  any_topic-fit :
      (ts : List (List (SegmentFilter ScVal))) (vs : List ScVal)
      → All (λ t. topic_valid t ≡ none) ts
      → any_topic {E = E} x ts vs ≡ ok (any (λ t. topics_fit x t vs) ts)
  any_topic-fit [] vs h = refl
  any_topic-fit (t ∷ ts) vs h = or_else-ok _ _ _ _ (topic-fit t vs h.0) (any_topic-fit ts vs h.1)

  topics-fit :
      (n : ℕ) (o : Option (List ℕ)) (v : Option (BodyV0 ScVal))
      (ts : List (List (SegmentFilter ScVal)))
      → All (λ t. topic_valid t ≡ none) ts
      → topics_match {E = E} x ts (record { event_type = n; contract_id = o; v0 = v })
        ≡ ok (any_if_given (has_topics x v) ts)
  topics-fit n o v [] h = refl
  topics-fit n o none (t ∷ ts) h = ap ok (any_none (has_topics x none) (t ∷ ts) (λ i. refl))
  topics-fit n o (some body) (t ∷ ts) h = any_topic-fit (t ∷ ts) body.topics h

  filter-takes :
      (f : EventFilter ScVal) (event : ContractEvent ScVal)
      → filter_valid x.strkey_decodes f ≡ none
      → filter_matches {E = E} x f event ≡ ok (takes x event f)
  filter-takes f event h =
      let types = if-some-none (not (types_valid f.event_types)) type_invalid _ h in
      let fine =
        or_else-none (ids_valid x.strkey_decodes f.contract_ids) (topics_valid f.topic_filters)
          (if-some-none (ltb 5 (length f.topic_filters)) too_many_topics _
            (if-some-none (ltb 5 (length f.contract_ids)) too_many_ids _ types.1).1).1 in
      let topics =
        topics-fit event.event_type event.contract_id event.v0 f.topic_filters
          (first_error-none topic_valid topic_invalid 1 f.topic_filters fine.1) in
      let names =
        types_match-any x f.event_types event (not-false (types_valid f.event_types) types.0) in
      let ids =
        contract_ids_match-any x event.event_type event.contract_id event.v0 f.contract_ids in
      both_tests _ _ _ _ topics
      ∙ ap₂ (λ a b. ok (a && (b && any_if_given (has_topics x event.v0) f.topic_filters))) names ids

  any_filter-takes :
      (fs : List (EventFilter ScVal)) (event : ContractEvent ScVal)
      → All (λ f. filter_valid x.strkey_decodes f ≡ none) fs
      → any_filter {E = E} x fs event ≡ ok (any (takes x event) fs)
  any_filter-takes [] event h = refl
  any_filter-takes (f ∷ fs) event h =
      or_else-ok _ _ _ _ (filter-takes f event h.0) (any_filter-takes fs event h.1)

  filters-take :
      (fs : List (EventFilter ScVal)) (event : ContractEvent ScVal)
      → All (λ f. filter_valid x.strkey_decodes f ≡ none) fs
      → filters_match {E = E} x fs event ≡ ok (any_if_given (takes x event) fs)
  filters-take [] event h = refl
  filters-take (f ∷ fs) event h = any_filter-takes (f ∷ fs) event h

  pub request_matches-asks_for :
      (max_limit : ℕ) (r : GetEventsRequest ScVal) (d : DiagnosticEvent ScVal)
      → request_valid x.strkey_decodes max_limit r ≡ none
      → request_matches {E = E} x r d ≡ ok (asks_for x r d)
  unfolding request_matches
  request_matches-asks_for max_limit r d h =
      let parts =
        or_else-none (limit_valid max_limit r) (filters_valid x.strkey_decodes r)
          (or_else-none (start_valid r) _ h).1 in
      let fine = if-some-none (ltb 5 (length r.filters)) too_many_filters _ parts.1 in
      filters-take r.filters d.event
        (first_error-none (filter_valid x.strkey_decodes) filter_invalid 1 r.filters fine.1)

  -- Matching a valid request against any event gives an answer: the panic of a segment filter with no
  -- field set and the index past the topics are not reached.
  pub request_matches-Answers :
      (max_limit : ℕ) (r : GetEventsRequest ScVal) (d : DiagnosticEvent ScVal)
      → request_valid x.strkey_decodes max_limit r ≡ none
      → Answers (request_matches {E = E} x r d)
  request_matches-Answers max_limit r d h =
      (asks_for x r d, request_matches-asks_for max_limit r d h)
