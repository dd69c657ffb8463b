-- ===== src/Methods/GetEvents/Matching.antt =====
-- Whether an event matches a request. A segment filter with neither field set panics.
use soroban_rpc.Common.{
  ℕ, Bool, true, false, Option, none, some, List, [], ◌∷◌, ◌==◌, if◌then◌else◌, length, Outcome, ok,
  panic, ◌>>=◌,
}
use soroban_rpc.Methods.GetEvents.{
  listed, event_type_system, event_type_contract, event_type_diagnostic, ContractEvent,
  DiagnosticEvent, SegmentFilter, EventFilter, GetEventsRequest, Encodings,
}
use soroban_rpc.Methods.GetEvents.Valid.{is_star}

-- eventTypeFromXDR
abbrev pub event_type_from_xdr : ℕ → Option (List ℕ)
event_type_from_xdr n =
    if n == 0
    then some event_type_system
    else (if n == 1
        then some event_type_contract
        else (if n == 2 then some event_type_diagnostic else none))

-- A missing key of the map reads as the empty string.
abbrev pub or_empty : Option (List ℕ) → List ℕ
or_empty none = []
or_empty (some s) = s

module _ {Hash ScVal : Type 0} (x : Encodings Hash ScVal) where
  -- eventTypeSet.matches
  abbrev pub types_match : List (List ℕ) → ContractEvent ScVal → Bool
  types_match [] event = true
  types_match (key ∷ keys) event =
      listed (or_empty (event_type_from_xdr event.event_type)) (key ∷ keys)

  -- EventFilter.matchesContractIDs
  abbrev pub contract_ids_match : List (List ℕ) → ContractEvent ScVal → Bool
  contract_ids_match [] event = true
  contract_ids_match (id ∷ ids) event = elim event.contract_id [
    | none ↦ false
    | some contract ↦ listed (x.strkey_encode contract) (id ∷ ids)
  ]

module _ {Hash ScVal E : Type 0} (x : Encodings Hash ScVal) where
  -- SegmentFilter.Matches
  abbrev pub segment_matches : SegmentFilter ScVal → ScVal → Outcome E Bool
  segment_matches s segment =
      if is_star s.wildcard
      then ok true
      else elim s.scval [ none ↦ panic | some v ↦ ok (x.equals v segment) ]

  -- The loop of TopicFilter.Matches
  abbrev pub segments_match : List (SegmentFilter ScVal) → List ScVal → Outcome E Bool
  segments_match [] values = ok true
  segments_match (s ∷ ss) [] = panic
  segments_match (s ∷ ss) (v ∷ vs) =
      let rest = segments_match ss vs in segment_matches s v >>= λ b. if b then rest else ok false

  -- TopicFilter.Matches
  abbrev pub topic_matches : List (SegmentFilter ScVal) → List ScVal → Outcome E Bool
  topic_matches t values = if length values == length t then segments_match t values else ok false

  -- EventFilter.matchesTopics
  abbrev pub any_topic : List (List (SegmentFilter ScVal)) → List ScVal → Outcome E Bool
  any_topic [] values = ok false
  any_topic (t ∷ ts) values =
      let rest = any_topic ts values in topic_matches t values >>= λ b. if b then ok true else rest

  abbrev pub topics_match : List (List (SegmentFilter ScVal)) → ContractEvent ScVal → Outcome E Bool
  topics_match [] event = ok true
  topics_match (t ∷ ts) event = elim event.v0 [
    | none ↦ ok false
    | some body ↦ any_topic (t ∷ ts) body.topics
  ]

  -- EventFilter.Matches
  abbrev pub filter_matches : EventFilter ScVal → ContractEvent ScVal → Outcome E Bool
  filter_matches f event =
      if types_match x f.event_types event
      then (if contract_ids_match x f.contract_ids event
          then topics_match f.topic_filters event
          else ok false)
      else ok false

  -- GetEventsRequest.Matches
  abbrev pub any_filter : List (EventFilter ScVal) → ContractEvent ScVal → Outcome E Bool
  any_filter [] event = ok false
  any_filter (f ∷ fs) event =
      let rest = any_filter fs event in filter_matches f event >>= λ b. if b then ok true else rest

  abbrev pub filters_match : List (EventFilter ScVal) → ContractEvent ScVal → Outcome E Bool
  filters_match [] event = ok true
  filters_match (f ∷ fs) event = any_filter (f ∷ fs) event

  unfoldable pub request_matches : GetEventsRequest ScVal → DiagnosticEvent ScVal → Outcome E Bool
  request_matches r e = filters_match r.filters e.event
