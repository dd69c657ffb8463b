-- ===== src/Tests/PageRuns.antt =====
-- A page of one event of the store of the other runs, with a filter on two topics.
use soroban_rpc.Common.{
  ℕ, ◌≡◌, refl, inl, true, Option, none, some, List, [], ◌∷◌, pos, ◌==◌, arith, err,
}
use soroban_rpc.Events.Cursor.{Cursor}
use soroban_rpc.Events.Cursor.Order.{key}
use soroban_rpc.Events.Store.{start_before_oldest}
use soroban_rpc.Methods.GetEvents.{
  DiagnosticEvent, SegmentFilter, GetEventsRequest, Encodings, event_type_contract,
}
use soroban_rpc.Methods.GetEvents.Matching.{request_matches}
use soroban_rpc.Methods.GetEvents.Handler.{FoundEntry, GetEventsError, invalid_request, get_events}
use soroban_rpc.Methods.GetEvents.Spec.{HasPlace}
use soroban_rpc.Methods.GetEvents.Place.{asked}
use soroban_rpc.Methods.GetEvents.Total.{Answers, request_matches-Answers}
use soroban_rpc.Methods.GetEvents.Page.{decode_all, page_response, get_events-page}
use soroban_rpc.Methods.GetEvents.Refused.{get_events-outside}
use soroban_rpc.Tests.EventRuns.{store, store-IsStore}

abbrev encodings : Encodings ℕ ℕ
encodings = record {
  equals = λ a b. a == b;
  strkey_decodes = λ s. true;
  strkey_encode = λ s. s;
  marshal_base64 = λ v. some (v ∷ []);
  format_time = λ t. [];
  hex_string = λ h. h ∷ [];
  toid = λ a b c. pos a;
}

-- The bytes of an event are its topics.
abbrev decoded : List ℕ → DiagnosticEvent ℕ
decoded bytes = record {
  in_successful_contract_call = true;
  event = record {
    event_type = 1;
    contract_id = none;
    v0 = some (record { topics = bytes; data_value = 7 });
  };
}

abbrev segment : Option (List ℕ) → Option ℕ → SegmentFilter ℕ
segment w v = record { wildcard = w; scval = v }

abbrev request_with : ℕ → Option Cursor → GetEventsRequest ℕ
request_with ledger c = record {
  start_ledger = ledger;
  filters =
      (record {
        event_types = event_type_contract ∷ [];
        contract_ids = [];
        topic_filters = (segment (some (42 ∷ [])) none ∷ segment none (some 0) ∷ []) ∷ [];
      })
      ∷ [];
  pagination = some (record { page_cursor = c; page_limit = 1 });
}

-- Right after the first event of the store, and before its oldest ledger.
abbrev after_first : GetEventsRequest ℕ
after_first = request_with 0 (some (record { ledger = 6; tx = 1; op = 0; event = 0 }))

abbrev too_early : GetEventsRequest ℕ
too_early = request_with 5 none

abbrev entry : ℕ → ℕ → FoundEntry ℕ ℕ
entry tx event = record {
  found_event = decoded (tx ∷ event ∷ []);
  found_at = record { ledger = 6; tx = tx; op = 0; event = event };
  found_time = pos 30;
  found_hash = tx;
}

after_first-HasPlace : HasPlace after_first
after_first-HasPlace = (
  record {
    ledger_lt = omega arith;
    tx_lt = omega arith;
    op_lt = omega arith;
    event_lt = omega arith;
  },
  omega arith,
)

all-decoded :
    decode_all encodings (λ bytes. some (decoded bytes)) after_first (asked after_first store)
    ≡ some (entry 1 1 ∷ entry 2 0 ∷ [])
unfolding key
all-decoded = refl

get_events-page_example :
    get_events encodings (λ bytes. some (decoded bytes)) 10 5 store after_first
    ≡ page_response encodings (λ bytes. some (decoded bytes)) after_first 7 (entry 2 0 ∷ [])
unfolding store-IsStore key
get_events-page_example =
    get_events-page encodings (λ bytes. some (decoded bytes)) after_first 10 5 store
      (entry 1 1 ∷ entry 2 0 ∷ []) store-IsStore refl after_first-HasPlace (omega arith)
      (omega arith) all-decoded (omega arith)

get_events-outside_example :
    get_events encodings (λ bytes. some (decoded bytes)) 10 5 store too_early
    ≡ err (invalid_request start_before_oldest)
unfolding store-IsStore
get_events-outside_example =
    get_events-outside too_early encodings (λ bytes. some (decoded bytes)) 10 5 store store-IsStore
      refl (omega arith) (omega arith) (inl (omega arith))

request_matches-Answers_example :
    Answers (request_matches {E = GetEventsError} encodings after_first (decoded (9 ∷ [])))
request_matches-Answers_example =
    request_matches-Answers encodings 10 after_first (decoded (9 ∷ [])) refl
