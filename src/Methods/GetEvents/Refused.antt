-- ===== src/Methods/GetEvents/Refused.antt =====
-- The requests of getEvents, methods/get_events.go, for a place outside of the store.
use soroban_rpc.Common.{
  ℕ, ◌+◌, ◌*◌, ◌^◌, ◌≤◌, ◌<◌, ◌≡◌, refl, ap, ◌∙◌, ◌⊎◌, inl, inr, Bool-cases, Option, none, List, [],
  ltb, ltb→le, ltb→lt, if◌then◌else◌, arith, length, err,
}
use soroban_rpc.Window.Spec.{contents}
use soroban_rpc.Events.Store.{
  MemoryStore, ScanError, start_before_oldest, start_after_newest, validate_range,
}
use soroban_rpc.Events.Store.Bounds.{key-ledger_start}
use soroban_rpc.Events.Store.Refused.{check_range-before, check_range-after}
use soroban_rpc.Events.Store.Scan.{IsStore, validate_range-eq, scan_refused}
use soroban_rpc.Methods.GetEvents.{DiagnosticEvent, GetEventsRequest, Encodings}
use soroban_rpc.Methods.GetEvents.Valid.{request_valid}
use soroban_rpc.Methods.GetEvents.Handler.{
  found, invalid_request, range_of_request, limit_of, collect, respond, get_events,
}
use soroban_rpc.Methods.GetEvents.Spec.{first_place, HasPlace}
use soroban_rpc.Methods.GetEvents.Place.{start_of-place, range_of_request-Bounded}

-- Why a place is refused, for the place where the store starts.
abbrev pub refusal : ℕ → ℕ → ScanError
refusal lowest place = if ltb place lowest then start_before_oldest else start_after_newest

module _ {Hash ScVal : Type 0} (r : GetEventsRequest ScVal) where
  range_of_request-refused :
      (m : MemoryStore Hash) (v : IsStore m)
      → HasPlace r
      → 0 < length (contents m)
      → (first_place r < 2 ^ 96 * v.first)
        ⊎ (2 ^ 96 * (v.first + length (contents m)) ≤ first_place r)
      → validate_range m (range_of_request r) ≡ err (refusal (2 ^ 96 * v.first) (first_place r))
  range_of_request-refused m v h some_ledger outside =
      let at = start_of-place r h in
      let lo = key-ledger_start v.first in
      let hi = key-ledger_start (v.first + length (contents m)) in
      let b = range_of_request-Bounded r h in
      validate_range-eq m (range_of_request r) v some_ledger
      ∙ elim (Bool-cases (ltb (first_place r) (2 ^ 96 * v.first))) [
        | inl below ↦
            let lt = ltb→lt (first_place r) (2 ^ 96 * v.first) below in
            rw
              (
                below,
                check_range-before v.first (length (contents m)) (range_of_request r) v.room b refl
                    (omega (arith, at.1, lo, lt)),
              )
              refl
        | inr above ↦
            let le = ltb→le (first_place r) (2 ^ 96 * v.first) above in
            let past : 2 ^ 96 * (v.first + length (contents m)) ≤ first_place r = elim outside [
              | inl lt ↦ absurd (omega (arith, lt, le))
              | inr ge ↦ ge
            ] in
            rw
              (
                above,
                check_range-after v.first (length (contents m)) (range_of_request r) v.room b
                    (omega (arith, at.1, lo, le)) (omega (arith, at.1, hi, past)),
              )
              refl
      ]

  module _ (x : Encodings Hash ScVal) (unmarshal : List ℕ → Option (DiagnosticEvent ScVal)) where
    -- A valid request for a place outside of a store in good order that is not empty is refused: before
    -- the oldest ledger with one error, past the newest with the other. The event of the cursor is not
    -- the last `uint32`.
    pub get_events-outside :
        (max_limit default_limit : ℕ) (m : MemoryStore Hash) (v : IsStore m)
        → request_valid x.strkey_decodes max_limit r ≡ none
        → HasPlace r
        → 0 < length (contents m)
        → (first_place r < 2 ^ 96 * v.first)
          ⊎ (2 ^ 96 * (v.first + length (contents m)) ≤ first_place r)
        → get_events x unmarshal max_limit default_limit m r
          ≡ err (invalid_request (refusal (2 ^ 96 * v.first) (first_place r)))
    unfolding get_events respond
    get_events-outside max_limit default_limit m v fine h some_ledger outside =
        let refused =
          scan_refused unmarshal (collect x r (limit_of default_limit r)) m (range_of_request r) _
            (found []) (range_of_request-refused m v h some_ledger outside) in
        rw (fine, get_events) (ap (respond x) refused)
