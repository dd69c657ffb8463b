-- ===== src/Methods/GetEvents/Handler.antt =====
-- The handler of getEvents.
use soroban_rpc.Common.{
  ℕ, ◌+◌, ◌%◌, ◌^◌, Bool, true, false, Option, none, some, List, [], ◌∷◌, ◌++◌, ℤ, ltb,
  if◌then◌else◌, length, Outcome, ok, err, panic, ◌>>=◌,
}
use soroban_rpc.Events.Cursor.{Cursor, max_cursor}
use soroban_rpc.Events.Cursor.Text.{cursor_string}
use soroban_rpc.Events.Store.{MemoryStore, Range, ScanError, scan}
use soroban_rpc.Methods.GetEvents.{DiagnosticEvent, GetEventsRequest, Encodings}
use soroban_rpc.Methods.GetEvents.Valid.{RequestError, request_valid}
use soroban_rpc.Methods.GetEvents.Matching.{event_type_from_xdr, request_matches}

-- entry
pub record FoundEntry (Hash ScVal : Type 0) : Type 0 where
  pub found_event : DiagnosticEvent ScVal
  pub found_at : Cursor
  pub found_time : ℤ
  pub found_hash : Hash

-- EventInfo; strings are bytes, and the ledger is the bit pattern of its int32.
pub record EventInfo : Type 0 where
  pub info_type : List ℕ
  pub info_ledger : ℕ
  pub ledger_closed_at : List ℕ
  pub info_contract_id : List ℕ
  pub id : List ℕ
  pub paging_token : List ℕ
  pub topic : List (List ℕ)
  pub value : List ℕ
  pub info_in_successful_call : Bool
  pub transaction_hash : List ℕ

-- GetEventsResponse
pub record GetEventsResponse : Type 0 where
  pub events : List EventInfo
  pub latest_ledger : ℕ

pub data InfoError : Type 0 where
  unknown_version : InfoError
  unknown_type : ℕ → InfoError
  cannot_encode : InfoError

-- The codes InvalidParams and InvalidRequest, and the wrapped error behind the scan.
pub data GetEventsError : Type 0 where
  invalid_params : RequestError → GetEventsError
  invalid_request : ScanError → GetEventsError
  cannot_parse : InfoError → GetEventsError

-- What the closure that `Scan` calls has found so far, unless it panicked.
pub data Found (Hash ScVal : Type 0) : Type 0 where
  found : List (FoundEntry Hash ScVal) → Found Hash ScVal
  panicked : Found Hash ScVal

-- Where the scan starts: at the start ledger, or right after the cursor.
abbrev pub start_of : {ScVal : Type 0} → GetEventsRequest ScVal → Cursor
start_of r = elim r.pagination [
  | none ↦ record { ledger = r.start_ledger; tx = 0; op = 0; event = 0 }
  | some p ↦ elim p.page_cursor [
    | none ↦ record { ledger = r.start_ledger; tx = 0; op = 0; event = 0 }
    | some c ↦ record c { event = (c.event + 1) % 2 ^ 32 }
  ]
]

abbrev pub limit_of : {ScVal : Type 0} → ℕ → GetEventsRequest ScVal → ℕ
limit_of default_limit r = elim r.pagination [
  | none ↦ default_limit
  | some p ↦ if ltb 0 p.page_limit then p.page_limit else default_limit
]

abbrev pub range_of_request : {ScVal : Type 0} → GetEventsRequest ScVal → Range
range_of_request r = record {
  start = start_of r;
  clamp_start = false;
  end = max_cursor;
  clamp_end = true;
}

module _ {Hash ScVal : Type 0} (x : Encodings Hash ScVal) where
  -- The closure, with what `Matches` says of the event.
  abbrev pub add_found :
      ℕ
      → List (FoundEntry Hash ScVal)
      → FoundEntry Hash ScVal
      → Outcome GetEventsError Bool
      → Found Hash ScVal × Bool
  add_found limit entries e (ok true) =
      (found (entries ++ (e ∷ [])), ltb (length (entries ++ (e ∷ []))) limit)
  add_found limit entries e (ok false) = (found entries, ltb (length entries) limit)
  add_found limit entries e _ = (panicked, false)

  unfoldable pub collect :
      GetEventsRequest ScVal
      → ℕ
      → Found Hash ScVal
      → DiagnosticEvent ScVal
      → Cursor
      → ℤ
      → Hash
      → Found Hash ScVal × Bool
  collect r limit panicked d cur timestamp hash = (panicked, false)
  collect r limit (found entries) d cur timestamp hash =
      add_found limit entries
        (record { found_event = d; found_at = cur; found_time = timestamp; found_hash = hash })
        (request_matches x r d)

  abbrev pub encode_all : List ScVal → Outcome InfoError (List (List ℕ))
  encode_all [] = ok []
  encode_all (v ∷ vs) = do
    s ← elim (x.marshal_base64 v) [ none ↦ err cannot_encode | some s ↦ ok s ]
    rest ← encode_all vs
    ok (s ∷ rest)

  -- eventInfoForEvent
  unfoldable pub event_info_for_event : FoundEntry Hash ScVal → Outcome InfoError EventInfo
  event_info_for_event f = do
    let event = f.found_event.event
    v0 ← elim event.v0 [ none ↦ err unknown_version | some v0 ↦ ok v0 ]
    event_type ← elim (event_type_from_xdr event.event_type) [
      | none ↦ err (unknown_type event.event_type)
      | some t ↦ ok t
    ]
    topic ← encode_all v0.topics
    value ← elim (x.marshal_base64 v0.data_value) [ none ↦ err cannot_encode | some s ↦ ok s ]
    ok (record {
      info_type = event_type;
      info_ledger = f.found_at.ledger;
      ledger_closed_at = x.format_time f.found_time;
      info_contract_id = elim event.contract_id [ none ↦ [] | some c ↦ x.strkey_encode c ];
      id = cursor_string x.toid f.found_at;
      paging_token = cursor_string x.toid f.found_at;
      topic = topic;
      value = value;
      info_in_successful_call = f.found_event.in_successful_contract_call;
      transaction_hash = x.hex_string f.found_hash;
    })

  abbrev pub infos : List (FoundEntry Hash ScVal) → Outcome GetEventsError (List EventInfo)
  infos [] = ok []
  infos (f ∷ fs) =
      let rest = infos fs in
      elim (event_info_for_event f) [
        | err e ↦ err (cannot_parse e)
        | panic ↦ panic
        | ok i ↦ rest >>= λ is. ok (i ∷ is)
      ]

  -- The part of getEvents behind the scan.
  unfoldable pub respond :
      Found Hash ScVal × Outcome ScanError ℕ → Outcome GetEventsError GetEventsResponse
  respond (panicked, r) = panic
  respond (found entries, panic) = panic
  respond (found entries, err e) = err (invalid_request e)
  respond (found entries, ok latest) =
      infos entries >>= λ is. ok (record { events = is; latest_ledger = latest })

  -- getEvents
  unfoldable pub get_events :
      (List ℕ → Option (DiagnosticEvent ScVal))
      → ℕ
      → ℕ
      → MemoryStore Hash
      → GetEventsRequest ScVal
      → Outcome GetEventsError GetEventsResponse
  unfolding respond collect
  get_events unmarshal max_limit default_limit m r =
      elim (request_valid x.strkey_decodes max_limit r) [
        | some e ↦ err (invalid_params e)
        | none ↦ respond (
            scan unmarshal (collect r (limit_of default_limit r)) m (range_of_request r) (found []))
      ]
