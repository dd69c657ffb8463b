-- ===== src/Db/Reader/Rows.antt =====
-- The rows of a query, read one after the other into a map.
use soroban_rpc.Common.{
  ℕ, ◌≡◌, refl, sym, ap, ◌∙◌, inl, inr, Bool, true, false, Option, none, some, List, [], ◌∷◌,
  if◌then◌else◌, ◌&&◌, ◌||◌, Bool-cases, Option-cases, All,
}
use soroban_rpc.Db.Cache.{CacheReadTx, GoMap, same_key, assign}
use soroban_rpc.Db.Cache.Lookup.{lookup, Unique, same_key-eq, same_key_refl}
use soroban_rpc.Db.Sql.{with_rows, contains}
use soroban_rpc.Db.Writer.Plan.{last_row, with_rows-last_row}
use soroban_rpc.Db.Reader.{keys_to_query, found_in_cache}

last_row-lookup :
    {V : Type 0} (rows : List (List ℕ × V)) (k : List ℕ)
    → Unique rows
    → last_row rows k ≡ lookup rows k
last_row-lookup [] k u = refl
last_row-lookup (r ∷ rows) k u = elim (Bool-cases (same_key r.0 k)) [
  | inl hit ↦
      let alone : lookup rows k ≡ none = ap (lookup rows) (sym (same_key-eq r.0 k hit)) ∙ u.0 in
      rw (last_row-lookup rows k u.1 ∙ alone, hit) refl
  | inr miss ↦
      rw (miss, last_row-lookup rows k u.1)
        (elim (Option-cases (lookup rows k)) [ inl m ↦ rw (m, miss) refl | inr m ↦ rw m.1 refl ])
]

-- Rows that each have their key to themselves, over a map.
pub with_rows-lookup :
    {V : Type 0} (rows : List (List ℕ × V)) (table : GoMap V) (k : List ℕ)
    → Unique rows
    → with_rows rows table k ≡ elim (lookup rows k) [ some v ↦ some v | none ↦ table k ]
with_rows-lookup rows table k u =
    with_rows-last_row rows table k ∙ rw (last_row-lookup rows k u) refl

pub rows-All :
    {V : Type 0} (P : List ℕ → V → Type 0) (rows : List (List ℕ × V))
    → Unique rows
    → ((k : List ℕ) (v : V) → lookup rows k ≡ some v → P k v)
    → All (λ r. P r.0 r.1) rows
rows-All P [] u h = tt
rows-All P (r ∷ rows) u h = (
  h r.0 r.1 (rw (same_key_refl r.0) refl),
  rows-All P rows u.1 (λ k v m. elim (Bool-cases (same_key r.0 k)) [
    | inl hit ↦ cc (m, ap (lookup rows) (sym (same_key-eq r.0 k hit)) ∙ u.0)
    | inr miss ↦ h k v (rw miss m)
  ]),
)

-- What the cache says of a key, over what was found before.
abbrev pub pick : Option (Option (List ℕ)) → Option (List ℕ) → Option (List ℕ)
pick none old = old
pick (some none) old = old
pick (some (some v)) old = some v

abbrev step : Option (Option (List ℕ)) → List ℕ → GoMap (List ℕ) → GoMap (List ℕ)
step o j found = elim o [
  | none ↦ found
  | some none ↦ found
  | some (some v) ↦ assign found j (some v)
]

step-hit :
    (o : Option (Option (List ℕ))) (j k : List ℕ) (found : GoMap (List ℕ))
    → same_key j k ≡ true
    → step o j found k ≡ pick o (found k)
step-hit none j k found hit = refl
step-hit (some none) j k found hit = refl
step-hit (some (some v)) j k found hit = rw hit refl

step-miss :
    (o : Option (Option (List ℕ))) (j k : List ℕ) (found : GoMap (List ℕ))
    → same_key j k ≡ false
    → step o j found k ≡ found k
step-miss none j k found miss = refl
step-miss (some none) j k found miss = refl
step-miss (some (some v)) j k found miss = rw miss refl

pick_twice :
    (o : Option (Option (List ℕ))) (old : Option (List ℕ)) → pick o (pick o old) ≡ pick o old
pick_twice none old = refl
pick_twice (some none) old = refl
pick_twice (some (some v)) old = refl

-- The cache answers for the keys that it holds; the others are left to be queried.
pub found_in_cache-lookup :
    (c : CacheReadTx) (keys : List (List ℕ)) (found : GoMap (List ℕ)) (k : List ℕ)
    → found_in_cache c keys found k ≡ (if contains keys k then pick (c k) (found k) else found k)
found_in_cache-lookup c [] found k = refl
found_in_cache-lookup c (j ∷ ks) found k =
    found_in_cache-lookup c ks (step (c j) j found) k ∙ elim (Bool-cases (same_key j k)) [
      | inl hit ↦
          let here : step (c j) j found k ≡ pick (c k) (found k) =
            step-hit (c j) j k found hit ∙ ap (λ i. pick (c i) (found k)) (same_key-eq j k hit) in
          elim (Bool-cases (contains ks k)) [
            | inl later ↦ rw (later, hit) (ap (pick (c k)) here ∙ pick_twice (c k) (found k))
            | inr last ↦ rw (last, hit) here
          ]
      | inr miss ↦
          rw miss
            (ap (λ o. if contains ks k then pick (c k) o else o) (step-miss (c j) j k found miss))
    ]

abbrev pub missing : Option (Option (List ℕ)) → Bool
missing none = true
missing (some _) = false

query_step :
    (o : Option (Option (List ℕ))) (j k : List ℕ) (rest : List (List ℕ))
    → contains (elim o [ none ↦ j ∷ rest | some _ ↦ rest ]) k
      ≡ ((missing o && same_key j k) || contains rest k)
query_step none j k rest = refl
query_step (some _) j k rest = refl

pub keys_to_query-lookup :
    (c : CacheReadTx) (keys : List (List ℕ)) (k : List ℕ)
    → contains (keys_to_query c keys) k ≡ (contains keys k && missing (c k))
keys_to_query-lookup c [] k = refl
keys_to_query-lookup c (j ∷ ks) k =
    query_step (c j) j k (keys_to_query c ks)
    ∙ ap (λ b. (missing (c j) && same_key j k) || b) (keys_to_query-lookup c ks k)
    ∙ elim (Bool-cases (same_key j k)) [
      | inl hit ↦
          let same : c j ≡ c k = ap c (same_key-eq j k hit) in
          rw (hit, same)
            (elim (Bool-cases (missing (c k))) [
              | inl m ↦ rw m refl
              | inr m ↦
                  rw m (elim (Bool-cases (contains ks k)) [ inl n ↦ rw n refl | inr n ↦ rw n refl ])
            ])
      | inr miss ↦
          rw miss (elim (Bool-cases (missing (c j))) [ inl m ↦ rw m refl | inr m ↦ rw m refl ])
    ]
