-- ===== src/Methods/GetEvents/Valid.antt =====
-- The validation of a request.
use soroban_rpc.Common.{
  ℕ, ◌+◌, Bool, true, false, Option, none, some, List, [], ◌∷◌, ltb, ◌==◌, ◌||◌, not, if◌then◌else◌,
  length,
}
use soroban_rpc.Methods.GetEvents.{
  bytes_eq, event_type_system, event_type_contract, event_type_diagnostic, SegmentFilter,
  EventFilter, GetEventsRequest,
}

pub data SegmentError : Type 0 where
  both_set : SegmentError
  none_set : SegmentError
  not_a_star : SegmentError

pub data TopicError : Type 0 where
  no_segment : TopicError
  too_many_segments : TopicError
  segment_invalid : ℕ → SegmentError → TopicError

pub data FilterError : Type 0 where
  type_invalid : FilterError
  too_many_ids : FilterError
  too_many_topics : FilterError
  id_invalid : ℕ → FilterError
  topic_invalid : ℕ → TopicError → FilterError

pub data RequestError : Type 0 where
  start_and_cursor : RequestError
  start_not_positive : RequestError
  limit_too_high : ℕ → RequestError
  too_many_filters : RequestError
  filter_invalid : ℕ → FilterError → RequestError

-- The first error of a list, `found` with its index from 1, `i` the one of the head.
abbrev pub first_error {ℓ} : {A E F : Type ℓ} → (A → Option E) → (ℕ → E → F) → ℕ → List A → Option F
first_error valid found i [] = none
first_error valid found i (x ∷ xs) = elim (valid x) [
  | none ↦ first_error valid found (i + 1) xs
  | some e ↦ some (found i e)
]

-- eventTypeSet.valid
abbrev pub types_valid : List (List ℕ) → Bool
types_valid [] = true
types_valid (key ∷ keys) =
    if bytes_eq key event_type_system
      || (bytes_eq key event_type_contract || bytes_eq key event_type_diagnostic)
    then types_valid keys
    else false

abbrev pub is_star : Option (List ℕ) → Bool
is_star none = false
is_star (some w) = bytes_eq w (42 ∷ [])

-- SegmentFilter.Valid
abbrev pub segment_valid : {ScVal : Type 0} → SegmentFilter ScVal → Option SegmentError
segment_valid s = elim s.wildcard [
  | some w ↦ elim s.scval [
    | some v ↦ some both_set
    | none ↦ if bytes_eq w (42 ∷ []) then none else some not_a_star
  ]
  | none ↦ elim s.scval [ some v ↦ none | none ↦ some none_set ]
]

-- TopicFilter.Valid
abbrev pub topic_valid : {ScVal : Type 0} → List (SegmentFilter ScVal) → Option TopicError
topic_valid t =
    if ltb (length t) 1
    then some no_segment
    else (if ltb 4 (length t)
        then some too_many_segments
        else first_error segment_valid segment_invalid 1 t)

abbrev pub or_else {ℓ} : {E : Type ℓ} → Option E → Option E → Option E
or_else none next = next
or_else (some e) next = some e

-- EventFilter.Valid: the loops over the contracts and over the topics, and the whole.
abbrev pub ids_valid : (List ℕ → Bool) → List (List ℕ) → Option FilterError
ids_valid decodes ids =
    first_error (λ id. if decodes id then none else some tt) (λ i e. id_invalid i) 1 ids

abbrev pub topics_valid : {ScVal : Type 0} → List (List (SegmentFilter ScVal)) → Option FilterError
topics_valid ts = first_error topic_valid topic_invalid 1 ts

abbrev pub filter_valid :
    {ScVal : Type 0} → (List ℕ → Bool) → EventFilter ScVal → Option FilterError
filter_valid decodes f =
    if not (types_valid f.event_types)
    then some type_invalid
    else (if ltb 5 (length f.contract_ids)
        then some too_many_ids
        else (if ltb 5 (length f.topic_filters)
            then some too_many_topics
            else or_else (ids_valid decodes f.contract_ids) (topics_valid f.topic_filters)))

-- GetEventsRequest.Valid: the tests of the start, of the limit and of the filters.
abbrev pub start_valid : {ScVal : Type 0} → GetEventsRequest ScVal → Option RequestError
start_valid r = elim r.pagination [
  | none ↦ if r.start_ledger == 0 then some start_not_positive else none
  | some p ↦ elim p.page_cursor [
    | none ↦ if r.start_ledger == 0 then some start_not_positive else none
    | some c ↦ if r.start_ledger == 0 then none else some start_and_cursor
  ]
]

abbrev pub limit_valid : {ScVal : Type 0} → ℕ → GetEventsRequest ScVal → Option RequestError
limit_valid max_limit r = elim r.pagination [
  | none ↦ none
  | some p ↦ if ltb max_limit p.page_limit then some (limit_too_high max_limit) else none
]

abbrev pub filters_valid :
    {ScVal : Type 0} → (List ℕ → Bool) → GetEventsRequest ScVal → Option RequestError
filters_valid decodes r =
    if ltb 5 (length r.filters)
    then some too_many_filters
    else first_error (filter_valid decodes) filter_invalid 1 r.filters

abbrev pub request_valid :
    {ScVal : Type 0} → (List ℕ → Bool) → ℕ → GetEventsRequest ScVal → Option RequestError
request_valid decodes max_limit r =
    or_else (start_valid r) (or_else (limit_valid max_limit r) (filters_valid decodes r))
