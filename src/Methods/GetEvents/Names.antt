-- ===== src/Methods/GetEvents/Names.antt =====
-- The tests of types, contracts and numbers of topics, as the filters of a request are meant.
use soroban_rpc.Common.{
  ℕ, suc, ◌≡◌, refl, ap, ap₂, ◌∙◌, inl, inr, Bool, true, false, Option, none, some, List, [], ◌∷◌,
  ◌==◌, ◌||◌, if◌then◌else◌, arith, Bool-cases, length, All, All-map_imp,
}
use soroban_rpc.Methods.GetEvents.{
  bytes_eq, listed, BodyV0, ContractEvent, SegmentFilter, Encodings,
}
use soroban_rpc.Methods.GetEvents.Valid.{types_valid}
use soroban_rpc.Methods.GetEvents.Matching.{
  types_match, contract_ids_match, event_type_from_xdr, or_empty,
}
use soroban_rpc.Methods.GetEvents.Spec.{
  any, any_if_given, type_has_name, segment_fits, topics_fit, is_from,
}

-- Every name of a valid set of types is one of the three.
abbrev IsName : List ℕ → Type 0
IsName name = bytes_eq name [] ≡ false

if-true : (test rest : Bool) → (if test then rest else false) ≡ true → rest ≡ true
if-true true rest h = h
if-true false rest h = cc

types_valid-IsName : (keys : List (List ℕ)) → types_valid keys ≡ true → All IsName keys
types_valid-IsName [] h = tt
types_valid-IsName ([] ∷ keys) h = cc
types_valid-IsName ((b ∷ bs) ∷ keys) h = (refl, types_valid-IsName keys (if-true _ _ h))

listed-any : (s : List ℕ) (keys : List (List ℕ)) → listed s keys ≡ any (λ key. bytes_eq key s) keys
listed-any s [] = refl
listed-any s (key ∷ keys) = elim (Bool-cases (bytes_eq key s)) [
  | inl hit ↦ rw hit refl
  | inr miss ↦ rw miss (listed-any s keys)
]

any_cong :
    {A : Type 0} (p q : A → Bool) (xs : List A) → All (λ x. p x ≡ q x) xs → any p xs ≡ any q xs
any_cong p q [] h = refl
any_cong p q (x ∷ xs) h = ap₂ ◌||◌ h.0 (any_cong p q xs h.1)

or_false : (b : Bool) → b ≡ b || false
or_false true = refl
or_false false = refl

name_of-type :
    (n : ℕ) (name : List ℕ)
    → IsName name
    → bytes_eq name (or_empty (event_type_from_xdr n)) ≡ type_has_name n name
name_of-type n name h = elim (Bool-cases (n == 0)) [
  | inl zero_type ↦
      let one : (n == 1) ≡ false = ground arith in
      let two : (n == 2) ≡ false = ground arith in rw (zero_type, one, two) (or_false _)
  | inr not_zero ↦ elim (Bool-cases (n == 1)) [
    | inl one ↦ let two : (n == 2) ≡ false = ground arith in rw (not_zero, one, two) (or_false _)
    | inr not_one ↦ elim (Bool-cases (n == 2)) [
      | inl two ↦ rw (not_zero, not_one, two) refl
      | inr not_two ↦ rw (not_zero, not_one, not_two) h
    ]
  ]
]

pub types_match-any :
    {Hash ScVal : Type 0} (x : Encodings Hash ScVal) (keys : List (List ℕ))
    (event : ContractEvent ScVal)
    → types_valid keys ≡ true
    → types_match x keys event ≡ any_if_given (type_has_name event.event_type) keys
types_match-any x [] event h = refl
types_match-any x (key ∷ keys) event h =
    listed-any (or_empty (event_type_from_xdr event.event_type)) (key ∷ keys)
    ∙ any_cong _ _ (key ∷ keys) (
        All-map_imp _ _ (key ∷ keys) (λ name k. name_of-type event.event_type name k)
          (types_valid-IsName (key ∷ keys) h))

pub any_none :
    {A : Type 0} (p : A → Bool) (xs : List A) → ((x : A) → p x ≡ false) → false ≡ any p xs
any_none p [] h = refl
any_none p (x ∷ xs) h = rw (h x) (any_none p xs h)

pub contract_ids_match-any :
    {Hash ScVal : Type 0} (x : Encodings Hash ScVal) (n : ℕ) (o : Option (List ℕ))
    (v : Option (BodyV0 ScVal)) (ids : List (List ℕ))
    → contract_ids_match x ids (record { event_type = n; contract_id = o; v0 = v })
      ≡ any_if_given (is_from x o) ids
contract_ids_match-any x n o v [] = refl
contract_ids_match-any x n none v (id ∷ ids) = any_none (is_from x none) (id ∷ ids) (λ i. refl)
contract_ids_match-any x n (some contract) v (id ∷ ids) =
    listed-any (x.strkey_encode contract) (id ∷ ids)

pub topics_fit-length :
    {Hash ScVal : Type 0} (x : Encodings Hash ScVal) (t : List (SegmentFilter ScVal))
    (vs : List ScVal)
    → topics_fit x t vs ≡ true
    → length vs ≡ length t
topics_fit-length x [] [] h = refl
topics_fit-length x [] (v ∷ vs) h = cc
topics_fit-length x (s ∷ ss) [] h = cc
topics_fit-length x (s ∷ ss) (v ∷ vs) h = elim (Bool-cases (segment_fits x s v)) [
  | inl fits ↦ ap suc (topics_fit-length x ss vs (rw fits at h))
  | inr other ↦ cc (rw other at h)
]
