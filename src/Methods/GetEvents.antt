-- ===== src/Methods/GetEvents.antt =====
-- internal/methods/get_events.go: the requests of getEvents, and the answer to one. Strings are lists
-- of bytes. The encodings of stellar/go and the time format are functions of `Encodings`.
pub mod Valid
pub mod Matching
pub mod Handler
pub mod Spec
pub mod Place
pub mod Names
pub mod Total
pub mod Page
pub mod Refused
use soroban_rpc.Common.{
  ℕ, ◌+◌, Bool, true, false, Option, none, some, List, [], ◌∷◌, ℤ, ltb, ◌==◌, ◌&&◌, if◌then◌else◌,
  length,
}
use soroban_rpc.Events.Cursor.{Cursor}

abbrev pub bytes_eq : List ℕ → List ℕ → Bool
bytes_eq [] [] = true
bytes_eq (a ∷ s) (b ∷ t) = (a == b) && bytes_eq s t
bytes_eq _ _ = false

-- Whether a string is in a list of strings.
abbrev pub listed : List ℕ → List (List ℕ) → Bool
listed s [] = false
listed s (t ∷ ts) = if bytes_eq t s then true else listed s ts

-- "system", "contract" and "diagnostic"
abbrev pub event_type_system : List ℕ
event_type_system = 115 ∷ 121 ∷ 115 ∷ 116 ∷ 101 ∷ 109 ∷ []

abbrev pub event_type_contract : List ℕ
event_type_contract = 99 ∷ 111 ∷ 110 ∷ 116 ∷ 114 ∷ 97 ∷ 99 ∷ 116 ∷ []

abbrev pub event_type_diagnostic : List ℕ
event_type_diagnostic = 100 ∷ 105 ∷ 97 ∷ 103 ∷ 110 ∷ 111 ∷ 115 ∷ 116 ∷ 105 ∷ 99 ∷ []

-- xdr.ContractEvent and xdr.DiagnosticEvent; the number of a type is that of the XDR.
pub record BodyV0 (ScVal : Type 0) : Type 0 where
  pub topics : List ScVal
  pub data_value : ScVal

pub record ContractEvent (ScVal : Type 0) : Type 0 where
  pub event_type : ℕ
  pub contract_id : Option (List ℕ)
  pub v0 : Option (BodyV0 ScVal)

pub record DiagnosticEvent (ScVal : Type 0) : Type 0 where
  pub in_successful_contract_call : Bool
  pub event : ContractEvent ScVal

-- SegmentFilter, TopicFilter and EventFilter; the set of event types is the list of its keys.
pub record SegmentFilter (ScVal : Type 0) : Type 0 where
  pub wildcard : Option (List ℕ)
  pub scval : Option ScVal

pub record EventFilter (ScVal : Type 0) : Type 0 where
  pub event_types : List (List ℕ)
  pub contract_ids : List (List ℕ)
  pub topic_filters : List (List (SegmentFilter ScVal))

-- PaginationOptions
pub record PaginationOptions : Type 0 where
  pub page_cursor : Option Cursor
  pub page_limit : ℕ

-- GetEventsRequest
pub record GetEventsRequest (ScVal : Type 0) : Type 0 where
  pub start_ledger : ℕ
  pub filters : List (EventFilter ScVal)
  pub pagination : Option PaginationOptions

-- What the handler calls of stellar/go and of the standard library.
pub record Encodings (Hash ScVal : Type 0) : Type 0 where
  -- ScVal.Equals
  pub equals : ScVal → ScVal → Bool
  -- strkey.Decode and strkey.MustEncode of a contract
  pub strkey_decodes : List ℕ → Bool
  pub strkey_encode : List ℕ → List ℕ
  -- xdr.MarshalBase64
  pub marshal_base64 : ScVal → Option (List ℕ)
  -- time.Unix in UTC as RFC 3339, and Hash.HexString
  pub format_time : ℤ → List ℕ
  pub hex_string : Hash → List ℕ
  -- toid.New of the bit patterns of three int32, and its ToInt64
  pub toid : ℕ → ℕ → ℕ → ℤ
