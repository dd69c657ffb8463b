-- ===== src/Db/Writer/Plan.antt =====
-- What flush plans for a batch, key by key, and what the statements and the cache make of it.
use soroban_rpc.Common.{
  ℕ, ◌≡◌, refl, sym, ap, subst, ◌∙◌, inl, inr, true, false, Option, none, some, List, [], ◌∷◌,
  if◌then◌else◌, Bool-cases, Option-cases, ok, ok-injective, ◌>>=◌, >>=-eq-ok,
}
use soroban_rpc.Db.Cache.{CacheWriteTx, same_key, GoMap, assign, write_upsert, write_delete}
use soroban_rpc.Db.Cache.Lookup.{lookup, Unique, put-lookup, same_key-eq}
use soroban_rpc.Db.Sql.{contains, with_rows}
use soroban_rpc.Db.Xdr.{Xdr}
use soroban_rpc.Db.Writer.{Batch, Planned, plan, plan_upsert, cache_upsert_all, cache_delete_all}

-- The last row of a key, which is the one that stays.
abbrev pub last_row : {V : Type 0} → List (List ℕ × V) → List ℕ → Option V
last_row [] k = none
last_row (r ∷ rows) k = elim (last_row rows k) [
  | some v ↦ some v
  | none ↦ if same_key r.0 k then some r.1 else none
]

pub with_rows-last_row :
    {V : Type 0} (rows : List (List ℕ × V)) (table : GoMap V) (k : List ℕ)
    → with_rows rows table k ≡ elim (last_row rows k) [ some v ↦ some v | none ↦ table k ]
with_rows-last_row [] table k = refl
with_rows-last_row (r ∷ rows) table k =
    with_rows-last_row rows (assign table r.0 (some r.1)) k
    ∙ elim (Option-cases (last_row rows k)) [
      | inr later ↦ rw later.1 refl
      | inl last ↦ elim (Bool-cases (same_key r.0 k)) [
        | inl e ↦ rw (last, e) refl
        | inr e ↦ rw (last, e) refl
      ]
    ]

pub cache_upsert_all-lookup :
    (c : CacheWriteTx) (us : List (List ℕ × List ℕ)) (k : List ℕ)
    → lookup (cache_upsert_all c us) k
      ≡ elim (last_row us k) [ some v ↦ some (some v) | none ↦ lookup c k ]
cache_upsert_all-lookup c [] k = refl
cache_upsert_all-lookup c (u ∷ us) k =
    cache_upsert_all-lookup (write_upsert c u.0 u.1) us k ∙ elim (Option-cases (last_row us k)) [
      | inr later ↦ rw later.1 refl
      | inl last ↦ elim (Bool-cases (same_key u.0 k)) [
        | inl e ↦ rw (last, e) (put-lookup c u.0 k (some u.1) ∙ rw e refl)
        | inr e ↦ rw (last, e) (put-lookup c u.0 k (some u.1) ∙ rw e refl)
      ]
    ]

pub cache_delete_all-lookup :
    (c : CacheWriteTx) (keys : List (List ℕ)) (k : List ℕ)
    → lookup (cache_delete_all c keys) k ≡ (if contains keys k then some none else lookup c k)
cache_delete_all-lookup c [] k = refl
cache_delete_all-lookup c (key ∷ keys) k =
    cache_delete_all-lookup (write_delete c key) keys k ∙ elim (Bool-cases (contains keys k)) [
      | inl later ↦ elim (Bool-cases (same_key key k)) [
        | inl e ↦ rw (later, e) refl
        | inr e ↦ rw (later, e) refl
      ]
      | inr last ↦ elim (Bool-cases (same_key key k)) [
        | inl e ↦ rw (last, e) (put-lookup c key k none ∙ rw e refl)
        | inr e ↦ rw (last, e) (put-lookup c key k none ∙ rw e refl)
      ]
    ]

-- What is planned for a key: nothing, its deletion, or one row, and for a config setting one entry
-- of the cache.
module _ {K E X : Type 0} (x : Xdr K E X) where
  abbrev pub IsPlanned : Option (Option E) → List ℕ → Planned → Type 0
  IsPlanned none k p =
      (last_row p.upserts k ≡ none)
      × (last_row p.cache_upserts k ≡ none)
      × (contains p.delete_keys k ≡ false)
  IsPlanned (some none) k p =
      (last_row p.upserts k ≡ none)
      × (last_row p.cache_upserts k ≡ none)
      × (contains p.delete_keys k ≡ true)
  IsPlanned (some (some e)) k p =
      (bytes : List ℕ) × (x.encode_entry e ≡ ok bytes)
      × (last_row p.upserts k ≡ some bytes)
      × (last_row p.cache_upserts k ≡ (if x.is_config e then some bytes else none))
      × (contains p.delete_keys k ≡ false)

  -- A key of its own adds to what the rest plans for it; other keys are left as they are.
  plan_upsert-own :
      (key k : List ℕ) (e : E) (bytes : List ℕ) (p : Planned)
      → same_key key k ≡ true
      → x.encode_entry e ≡ ok bytes
      → IsPlanned none k p
      → IsPlanned (some (some e)) k (plan_upsert x key e bytes p)
  plan_upsert-own key k e bytes p own encoded (r, c, d) = (
    bytes,
    encoded,
    rw (r, own) refl,
    (elim (Bool-cases (x.is_config e)) [
      | inl config ↦ rw (config, c, own) refl
      | inr other ↦ rw (other, c) refl
    ]),
    d,
  )

  keep-upserts :
      (key k : List ℕ) (bytes : List ℕ) (rows : List (List ℕ × List ℕ))
      → same_key key k ≡ false
      → last_row ((key, bytes) ∷ rows) k ≡ last_row rows k
  keep-upserts key k bytes rows other = elim (Option-cases (last_row rows k)) [
    | inl none_yet ↦ rw (none_yet, other) refl
    | inr found ↦ rw found.1 refl
  ]

  keep-cached :
      (e : E) (key k : List ℕ) (bytes : List ℕ) (p : Planned)
      → same_key key k ≡ false
      → last_row (plan_upsert x key e bytes p).cache_upserts k ≡ last_row p.cache_upserts k
  keep-cached e key k bytes p other = elim (Bool-cases (x.is_config e)) [
    | inl config ↦ rw config (keep-upserts key k bytes p.cache_upserts other)
    | inr plain ↦ rw plain refl
  ]

  plan_upsert-other :
      (o : Option (Option E)) (key k : List ℕ) (e : E) (bytes : List ℕ) (p : Planned)
      → same_key key k ≡ false
      → IsPlanned o k p
      → IsPlanned o k (plan_upsert x key e bytes p)
  plan_upsert-other none key k e bytes p other (r, c, d) =
      (keep-upserts key k bytes p.upserts other ∙ r, keep-cached e key k bytes p other ∙ c, d)
  plan_upsert-other (some none) key k e bytes p other (r, c, d) =
      (keep-upserts key k bytes p.upserts other ∙ r, keep-cached e key k bytes p other ∙ c, d)
  plan_upsert-other (some (some f)) key k e bytes p other (b, n, r, c, d) =
      (b, n, keep-upserts key k bytes p.upserts other ∙ r, keep-cached e key k bytes p other ∙ c, d)

  plan_delete-other :
      (o : Option (Option E)) (key k : List ℕ) (p : Planned)
      → same_key key k ≡ false
      → IsPlanned o k p
      → IsPlanned o k (record p { delete_keys = key ∷ p.delete_keys })
  plan_delete-other none key k p other (r, c, d) = (r, c, rw other d)
  plan_delete-other (some none) key k p other (r, c, d) = (r, c, rw other d)
  plan_delete-other (some (some f)) key k p other (b, n, r, c, d) = (b, n, r, c, rw other d)

  -- What is planned for the keys of a batch follows what the batch holds for them.
  pub plan-IsPlanned :
      (b : Batch E) (p : Planned)
      → plan x b ≡ ok p
      → Unique b
      → (k : List ℕ) → IsPlanned (lookup b k) k p
  plan-IsPlanned [] p h u k = subst (IsPlanned none k) (ok-injective h) (refl, refl, refl)
  plan-IsPlanned ((key, some e) ∷ rest) p h u k =
      let (bytes, encoded, h₁) =
        >>=-eq-ok (x.encode_entry e)
          (λ bytes. plan x rest >>= (λ p. ok (plan_upsert x key e bytes p))) h in
      let (r, planned, h₂) = >>=-eq-ok (plan x rest) (λ p. ok (plan_upsert x key e bytes p)) h₁ in
      let above = plan-IsPlanned rest r planned u.1 k in
      elim (Bool-cases (same_key key k)) [
        | inl own ↦
            let fresh : lookup rest k ≡ none =
              ap (lookup rest) (sym (same_key-eq key k own)) ∙ u.0 in
            rw own (
              subst (IsPlanned (some (some e)) k) (ok-injective h₂) (
                plan_upsert-own key k e bytes r own encoded
                  (subst (λ o. IsPlanned o k r) fresh above)))
        | inr other ↦ rw other (
            subst (IsPlanned (lookup rest k) k) (ok-injective h₂)
              (plan_upsert-other (lookup rest k) key k e bytes r other above))
      ]
  plan-IsPlanned ((key, none) ∷ rest) p h u k =
      let (r, planned, h₁) =
        >>=-eq-ok (plan x rest) (λ p. ok (record p { delete_keys = key ∷ p.delete_keys })) h in
      let above = plan-IsPlanned rest r planned u.1 k in
      elim (Bool-cases (same_key key k)) [
        | inl own ↦
            let fresh : lookup rest k ≡ none =
              ap (lookup rest) (sym (same_key-eq key k own)) ∙ u.0 in
            let untouched : IsPlanned none k r = subst (λ o. IsPlanned o k r) fresh above in
            rw own (
              subst (IsPlanned (some none) k) (ok-injective h₁)
                (untouched.0, untouched.1, rw own refl))
        | inr other ↦ rw other (
            subst (IsPlanned (lookup rest k) k) (ok-injective h₁)
              (plan_delete-other (lookup rest k) key k r other above))
      ]
