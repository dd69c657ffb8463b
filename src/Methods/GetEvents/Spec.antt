-- ===== src/Methods/GetEvents/Spec.antt =====
-- What a request of getEvents asks for, said without the code: which events match its filters, from
-- which place on, and how many of them make a page.
use soroban_rpc.Common.{
  ℕ, zero, suc, ◌+◌, ◌*◌, ◌^◌, ◌<◌, Bool, true, false, Option, none, some, List, [], ◌∷◌, ◌==◌,
  ◌&&◌, ◌||◌,
}
use soroban_rpc.Events.Cursor.{Cursor}
use soroban_rpc.Events.Cursor.Order.{InRange, key}
use soroban_rpc.Methods.GetEvents.{
  bytes_eq, event_type_system, event_type_contract, event_type_diagnostic, BodyV0, ContractEvent,
  DiagnosticEvent, SegmentFilter, EventFilter, GetEventsRequest, Encodings,
}

-- Whether one element of a list passes a test, and whether one does or there is none at all.
abbrev pub any {ℓ} : {A : Type ℓ} → (A → Bool) → List A → Bool
any test [] = false
any test (x ∷ xs) = test x || any test xs

abbrev pub any_if_given {ℓ} : {A : Type ℓ} → (A → Bool) → List A → Bool
any_if_given test [] = true
any_if_given test (x ∷ xs) = any test (x ∷ xs)

-- A type of events, by its number in the XDR, has the name.
abbrev pub type_has_name : ℕ → List ℕ → Bool
type_has_name n name =
    ((n == 0) && bytes_eq name event_type_system)
    || (((n == 1) && bytes_eq name event_type_contract)
        || ((n == 2) && bytes_eq name event_type_diagnostic))

module _ {Hash ScVal : Type 0} (x : Encodings Hash ScVal) where
  -- A star fits every value, and a value the equal ones.
  abbrev pub segment_fits : SegmentFilter ScVal → ScVal → Bool
  segment_fits s value = elim s.scval [ none ↦ true | some v ↦ x.equals v value ]

  -- As many segments as topics, and each fits.
  abbrev pub topics_fit : List (SegmentFilter ScVal) → List ScVal → Bool
  topics_fit [] [] = true
  topics_fit (s ∷ ss) (v ∷ vs) = segment_fits s v && topics_fit ss vs
  topics_fit _ _ = false

  -- The contract of an event, if it has one, is the one with the name; its topics fit.
  abbrev pub is_from : Option (List ℕ) → List ℕ → Bool
  is_from none id = false
  is_from (some contract) id = bytes_eq id (x.strkey_encode contract)

  abbrev pub has_topics : Option (BodyV0 ScVal) → List (SegmentFilter ScVal) → Bool
  has_topics none t = false
  has_topics (some body) t = topics_fit t body.topics

  -- A filter takes an event that passes each of its three parts that is given.
  abbrev pub takes : ContractEvent ScVal → EventFilter ScVal → Bool
  takes event f =
      any_if_given (type_has_name event.event_type) f.event_types
      && (any_if_given (is_from event.contract_id) f.contract_ids
          && any_if_given (has_topics event.v0) f.topic_filters)

  abbrev pub asks_for : GetEventsRequest ScVal → DiagnosticEvent ScVal → Bool
  asks_for r d = any_if_given (takes d.event) r.filters

-- The place from which events are asked for: the start of a ledger, or the one right after that of a
-- cursor.
abbrev pub place_after : ℕ → Option Cursor → ℕ
place_after ledger none = 2 ^ 96 * ledger
place_after ledger (some c) = suc (key c)

-- The start is a `uint32`; the cursor is made of them, and its event is not the last `uint32`.
abbrev pub IsPlace : ℕ → Option Cursor → Type 0
IsPlace ledger none = ledger < 2 ^ 32
IsPlace ledger (some c) = InRange c × (c.event + 1 < 2 ^ 32)

abbrev pub or_default : ℕ → ℕ → ℕ
or_default default_limit zero = default_limit
or_default default_limit (suc n) = suc n

module _ {ScVal : Type 0} where
  abbrev pub cursor_of : GetEventsRequest ScVal → Option Cursor
  cursor_of r = elim r.pagination [ none ↦ none | some p ↦ p.page_cursor ]

  abbrev pub first_place : GetEventsRequest ScVal → ℕ
  first_place r = place_after r.start_ledger (cursor_of r)

  abbrev pub HasPlace : GetEventsRequest ScVal → Type 0
  HasPlace r = IsPlace r.start_ledger (cursor_of r)

  -- As many as the request says, or the default where it says nothing or 0.
  abbrev pub page_size : ℕ → GetEventsRequest ScVal → ℕ
  page_size default_limit r = elim r.pagination [
    | none ↦ default_limit
    | some p ↦ or_default default_limit p.page_limit
  ]
