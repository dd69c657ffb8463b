-- ===== src/Methods/GetEvents/Page.antt =====
-- A page of getEvents, methods/get_events.go, against what the request asks for.
use mathlib.Core.List.{append_assoc, append-nil}
use soroban_rpc.Common.{
  ℕ, ◌+◌, ◌-◌, ◌≤◌, ◌<◌, ◌≡◌, refl, sym, ap, ◌∙◌, inl, inr, Bool, true, false, Option, none, some,
  List, [], ◌∷◌, ◌++◌, ℤ, ltb, ltb→lt, ltb→le, lt→ltb, arith, Bool-cases, Option-cases, length,
  length-append, take, take_all, take-append, filter, Outcome, Outcome-cases, ok, err, panic, ◌>>=◌,
  ◌*◌, ◌^◌, subst,
}
use soroban_rpc.Window.Spec.{contents}
use soroban_rpc.Events.Cursor.{Cursor}
use soroban_rpc.Events.Store.{MemoryStore, ScanError}
use soroban_rpc.Events.Store.Entries.{Entry, visit, go_on}
use soroban_rpc.Events.Store.Scan.{IsStore, scan_lem}
use soroban_rpc.Methods.GetEvents.{DiagnosticEvent, GetEventsRequest, Encodings}
use soroban_rpc.Methods.GetEvents.Valid.{request_valid}
use soroban_rpc.Methods.GetEvents.Matching.{request_matches}
use soroban_rpc.Methods.GetEvents.Handler.{
  FoundEntry, Found, found, EventInfo, GetEventsResponse, GetEventsError, cannot_parse,
  event_info_for_event, infos, range_of_request, limit_of, add_found, collect, respond, get_events,
}
use soroban_rpc.Methods.GetEvents.Spec.{asks_for, first_place, HasPlace, page_size}
use soroban_rpc.Methods.GetEvents.Place.{
  limit_of-page_size, range_of_request-Bounded, range_of_request-taken, asked, events_of-asked,
}
use soroban_rpc.Methods.GetEvents.Total.{request_matches-asks_for}

module _ {Hash ScVal : Type 0} (x : Encodings Hash ScVal)
    (unmarshal : List ℕ → Option (DiagnosticEvent ScVal)) (r : GetEventsRequest ScVal) where
  abbrev pub entry_for : Entry Hash → DiagnosticEvent ScVal → FoundEntry Hash ScVal
  entry_for e d = record {
    found_event = d;
    found_at = e.at;
    found_time = e.time;
    found_hash = e.event.tx_hash;
  }

  -- The events of a list, decoded; none if one of them cannot be.
  abbrev pub decode_all : List (Entry Hash) → Option (List (FoundEntry Hash ScVal))
  decode_all [] = some []
  decode_all (e ∷ es) =
      let rest = decode_all es in
      elim (unmarshal e.event.diagnostic_event_xdr) [
        | none ↦ none
        | some d ↦ elim rest [ none ↦ none | some ds ↦ some (entry_for e d ∷ ds) ]
      ]

  -- Whether an event is one of those that the request asks for.
  abbrev pub is_asked_for : FoundEntry Hash ScVal → Bool
  is_asked_for f = asks_for x r f.found_event

  -- The events of a page as `eventInfoForEvent` renders them, up to the first that cannot be.
  abbrev pub rendered : List (FoundEntry Hash ScVal) → Outcome GetEventsError (List EventInfo)
  rendered [] = ok []
  rendered (f ∷ fs) = elim (event_info_for_event x f) [
    | ok info ↦ rendered fs >>= (λ rest. ok (info ∷ rest))
    | err e ↦ err (cannot_parse e)
    | panic ↦ panic
  ]

  -- The response with the events of a page and the last ledger.
  abbrev pub page_response :
      ℕ → List (FoundEntry Hash ScVal) → Outcome GetEventsError GetEventsResponse
  page_response last fs = rendered fs >>= (λ es. ok (record { events = es; latest_ledger = last }))

  infos-rendered : (fs : List (FoundEntry Hash ScVal)) → infos x fs ≡ rendered fs
  infos-rendered [] = refl
  infos-rendered (f ∷ fs) = elim (Outcome-cases (event_info_for_event x f)) [
    | inl (info, e) ↦
        rw (e, infos, rendered) (ap (λ o. o >>= (λ rest. ok (info ∷ rest))) (infos-rendered fs))
    | inr (inl (failure, e)) ↦ rw (e, infos, rendered) refl
    | inr (inr e) ↦ rw (e, infos, rendered) refl
  ]

  decode_all-cons :
      (e : Entry Hash) (es : List (Entry Hash)) (ds : List (FoundEntry Hash ScVal))
      → decode_all (e ∷ es) ≡ some ds
      → (d : DiagnosticEvent ScVal) × (ds' : List (FoundEntry Hash ScVal)) × (unmarshal
            e.event.diagnostic_event_xdr
          ≡ some d)
        × (decode_all es ≡ some ds')
        × (ds ≡ entry_for e d ∷ ds')
  decode_all-cons e es ds h = elim (Option-cases (unmarshal e.event.diagnostic_event_xdr)) [
    | inl miss ↦ cc (rw (miss, decode_all) at h)
    | inr (d, hit) ↦ elim (Option-cases (decode_all es)) [
      | inl miss ↦ cc (rw (hit, miss, decode_all) at h)
      | inr (ds', rest) ↦
          let same : some (entry_for e d ∷ ds') ≡ some ds = rw (hit, rest, decode_all) at h in
          (d, ds', hit, rest, cc)
    ]
  ]

  collect-eq :
      (limit : ℕ) (acc : List (FoundEntry Hash ScVal)) (e : Entry Hash) (d : DiagnosticEvent ScVal)
      (b : Bool)
      → request_matches {E = GetEventsError} x r d ≡ ok b
      → collect x r limit (found acc) d e.at e.time e.event.tx_hash
        ≡ add_found x limit acc (entry_for e d) (ok b)
  unfolding collect
  collect-eq limit acc e d b h = rw h

  -- One event more, which is asked for or not, and what comes behind it.
  page_step :
      (limit last : ℕ) (acc : List (FoundEntry Hash ScVal)) (entry : FoundEntry Hash ScVal)
      (ds : List (FoundEntry Hash ScVal)) (b : Bool)
      (next : Found Hash ScVal → Found Hash ScVal × Outcome ScanError ℕ)
      → is_asked_for entry ≡ b
      → length acc < limit
      → ((acc' : List (FoundEntry Hash ScVal))
          → length acc' < limit
          → next (found acc') ≡ (found (take limit (acc' ++ filter is_asked_for ds)), ok last))
      → go_on last (add_found x limit acc entry (ok b)) next
        ≡ (found (take limit (acc ++ filter is_asked_for (entry ∷ ds))), ok last)
  page_step limit last acc entry ds false next m h ih =
      let more = lt→ltb (length acc) limit h in rw (more, m) (ih acc h)
  page_step limit last acc entry ds true next m h ih =
      let longer = length-append acc (entry ∷ []) in
      let grown = append_assoc acc (entry ∷ []) (filter is_asked_for ds) in
      elim (Bool-cases (ltb (length (acc ++ (entry ∷ []))) limit)) [
        | inl more ↦
            rw (more, m)
              (ih (acc ++ (entry ∷ [])) (ltb→lt _ limit more)
                ∙ ap (λ fs. (found (take limit fs), ok last)) grown)
        | inr full ↦
            let filled : length (acc ++ (entry ∷ [])) ≡ limit =
              omega (arith, ltb→le _ limit full) in
            rw (full, m)
              (ap (λ fs. (found fs, ok last))
                (sym (
                  ap (take limit) (sym grown)
                  ∙ take-append limit (acc ++ (entry ∷ [])) (filter is_asked_for ds) filled)))
      ]

  visit-step :
      (f : Found Hash ScVal → DiagnosticEvent ScVal → Cursor → ℤ → Hash → Found Hash ScVal × Bool)
      (last : ℕ) (e : Entry Hash) (es : List (Entry Hash)) (d : DiagnosticEvent ScVal)
      (s : Found Hash ScVal)
      → unmarshal e.event.diagnostic_event_xdr ≡ some d
      → visit unmarshal f last (e ∷ es) s
        ≡ go_on last (f s d e.at e.time e.event.tx_hash) (visit unmarshal f last es)
  unfolding visit
  visit-step f last e es d s h = rw (h, visit)

  -- What the scan leaves, from some events found on: the first `limit` of all that are asked for.
  visit-page :
      (limit last : ℕ) (es : List (Entry Hash)) (ds acc : List (FoundEntry Hash ScVal))
      → ((d : DiagnosticEvent ScVal)
          → request_matches {E = GetEventsError} x r d ≡ ok (asks_for x r d))
      → decode_all es ≡ some ds
      → length acc < limit
      → visit unmarshal (collect x r limit) last es (found acc)
        ≡ (found (take limit (acc ++ filter is_asked_for ds)), ok last)
  unfolding visit
  visit-page limit last [] ds acc a k h =
      let empty : ds ≡ [] = (cc) in rw (empty, append-nil, take_all limit acc (omega arith))
  visit-page limit last (e ∷ es) ds acc a k h =
      let (d, ds', hit, rest, split) = decode_all-cons e es ds k in
      let next = visit unmarshal (collect x r limit) last es in
      visit-step (collect x r limit) last e es d (found acc) hit
      ∙ ap (λ t. go_on last t next) (collect-eq limit acc e d (asks_for x r d) (a d))
      ∙ page_step limit last acc (entry_for e d) ds' (asks_for x r d) next refl h
          (λ acc' k'. visit-page limit last es ds' acc' a rest k')
      ∙ ap (λ fs. (found (take limit (acc ++ filter is_asked_for fs)), ok last)) (sym split)

  respond-page :
      (last : ℕ) (fs : List (FoundEntry Hash ScVal))
      → respond x (found fs, ok last) ≡ page_response last fs
  unfolding respond
  respond-page last fs =
      ap (λ is. is >>= (λ es. ok (record { events = es; latest_ledger = last })))
        (infos-rendered fs)

  -- A valid request for a place within a store in good order, from which on the events can be decoded, is
  -- answered with the events from the start of the start ledger on, or from right after the cursor, that
  -- the filters ask for, in order, as many as the page has room for, each as `eventInfoForEvent` renders
  -- it, and with the last ledger of the store. The event of the cursor is not the last `uint32`.
  pub get_events-page :
      (max_limit default_limit : ℕ) (m : MemoryStore Hash) (ds : List (FoundEntry Hash ScVal))
      (v : IsStore m)
      → request_valid x.strkey_decodes max_limit r ≡ none
      → HasPlace r
      → 2 ^ 96 * v.first ≤ first_place r
      → first_place r < 2 ^ 96 * (v.first + length (contents m))
      → decode_all (asked r m) ≡ some ds
      → 0 < page_size default_limit r
      → get_events x unmarshal max_limit default_limit m r
        ≡ page_response
            (v.first + length (contents m) - 1)
            (take (page_size default_limit r) (filter is_asked_for ds))
  unfolding get_events
  get_events-page max_limit default_limit m ds v fine h low high k some_room =
      let limit = limit_of default_limit r in
      let size : limit ≡ page_size default_limit r = limit_of-page_size r default_limit in
      let last = v.first + length (contents m) - 1 in
      let (taken, e) = range_of_request-taken r m v h low high in
      let scanned =
        scan_lem unmarshal (collect x r limit) m (range_of_request r) taken (found []) v
          (range_of_request-Bounded r h) e
        ∙ ap (λ es. visit unmarshal (collect x r limit) last es (found []))
            (events_of-asked r m v h) in
      let page =
        visit-page limit last (asked r m) ds [] (λ d. request_matches-asks_for x max_limit r d fine)
          k (subst (λ n. 0 < n) (sym size) some_room) in
      rw (fine, get_events)
        (ap (respond x) (scanned ∙ page)
          ∙ respond-page last (take limit (filter is_asked_for ds))
          ∙ ap (λ n. page_response last (take n (filter is_asked_for ds))) size)
