-- ===== src/Db/Writer/Track.antt =====
-- What a writer of ledger entries keeps true from its first write on, however often it flushes.
use soroban_rpc.Common.{
  ℕ, ◌≡◌, refl, sym, ap, subst, ◌∙◌, ◌⊎◌, inl, inr, true, false, Option, none, some, List,
  Bool-cases, ok, ok-injective,
}
use soroban_rpc.Db.Xdr.{Xdr}
use soroban_rpc.Db.Writer.Flush.{IsWritten, IsPending}

module _ {K E X : Type 0} (x : Xdr K E X) where
  -- Either the batch holds the last update, or the table does.
  abbrev pub IsTracked :
      Option (Option E) → Option (Option E) → Option (List ℕ) → Option (List ℕ) → Type 0
  IsTracked none last before now = IsWritten x last before now
  IsTracked (some v) last before now = last ≡ some v

  -- A pending update of the cache agrees with the table; without one, the row is as it was before, or
  -- is not cached.
  abbrev pub IsSynced :
      List ℕ → Option (Option (List ℕ)) → Option (List ℕ) → Option (List ℕ) → Type 0
  IsSynced k none before now = (now ≡ before) ⊎ (x.key_is_config k ≡ ok false)
  IsSynced k (some none) before now = Unit
  IsSynced k (some (some v)) before now = (now ≡ some v) × (x.key_is_config k ≡ ok true)

  pub settle_tracked :
      (held last : Option (Option E)) (before mid now : Option (List ℕ))
      → IsTracked held last before mid
      → IsWritten x held mid now
      → IsWritten x last before now
  settle_tracked none last before mid now t w = subst (IsWritten x last before) (sym w) t
  settle_tracked (some none) last before mid now t w =
      subst (λ o. IsWritten x o before now) (sym t) w
  settle_tracked (some (some e)) last before mid now t w =
      subst (λ o. IsWritten x o before now) (sym t) w

  sync_plain :
      (k : List ℕ) (old new : Option (Option (List ℕ))) (before mid now : Option (List ℕ))
      → x.key_is_config k ≡ ok false
      → new ≡ old
      → IsSynced k old before mid
      → IsSynced k new before now
  sync_plain k none new before mid now plain e i = rw e (inr plain)
  sync_plain k (some none) new before mid now plain e i = rw e tt
  sync_plain k (some (some v)) new before mid now plain e i = cc (i.1, plain)

  pub sync_pending :
      (k : List ℕ) (held : Option (Option E)) (old new : Option (Option (List ℕ)))
      (before mid now : Option (List ℕ))
      → ((e : E) → held ≡ some (some e) → x.key_is_config k ≡ ok (x.is_config e))
      → IsSynced k old before mid
      → IsWritten x held mid now
      → IsPending x held old new
      → IsSynced k new before now
  sync_pending k none old new before mid now typed i w p =
      subst (λ o. IsSynced k o before now) (sym p) (subst (IsSynced k old before) (sym w) i)
  sync_pending k (some none) old new before mid now typed i w p =
      subst (λ o. IsSynced k o before now) (sym p) tt
  sync_pending k (some (some e)) old new before mid now typed i (b, n, w) (c, m, p) =
      elim (Bool-cases (x.is_config e)) [
        | inl config ↦
            subst (λ o. IsSynced k o before now) (sym (rw config at p))
              (w ∙ ap some (ok-injective (sym n ∙ m)), typed e refl ∙ ap ok config)
        | inr plain ↦
            sync_plain k old new before mid now (typed e refl ∙ ap ok plain) (rw plain at p) i
      ]
