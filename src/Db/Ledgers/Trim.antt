-- ===== src/Db/Ledgers/Trim.antt =====
-- What trimming leaves of the ledgers and the transactions.
use soroban_rpc.Common.{
  ℕ, ◌+◌, ◌-◌, ◌%◌, ◌^◌, ◌<◌, ◌≡◌, refl, sym, ap, ◌∙◌, fun_ext, inl, inr, true, false, Option, none,
  some, ltb, leb, if◌then◌else◌, Bool-cases, arith, ok, ok-injective,
}
use soroban_rpc.Db.Cache.{GoMap}
use soroban_rpc.Db.Sql.{Sql, IsSql, kept_from}
use soroban_rpc.Db.Ledgers.{trim_ledgers, trim_transactions}

-- The ledgers after the latest minus the window, and the transactions in them.
abbrev pub retained : {L : Type 0} → ℕ → ℕ → (ℕ → Option L) → ℕ → Option L
retained latest window ledgers n = if leb (n + window) latest then none else ledgers n

abbrev pub retained_of : ℕ → ℕ → Option (ℕ × ℕ) → Option (ℕ × ℕ)
retained_of latest window none = none
retained_of latest window (some t) = if leb (t.0 + window) latest then none else some t

abbrev pub retained_transactions : ℕ → ℕ → GoMap (ℕ × ℕ) → GoMap (ℕ × ℕ)
retained_transactions latest window transactions k = retained_of latest window (transactions k)

below :
    (latest window n : ℕ)
    → latest + 1 < 2 ^ 32
    → leb ((latest + 1) % 2 ^ 32) window ≡ false
    → ltb n ((latest + 1) % 2 ^ 32 - window) ≡ leb (n + window) latest
below latest window n h k = ground arith

not_below :
    (latest window n : ℕ)
    → latest + 1 < 2 ^ 32
    → leb ((latest + 1) % 2 ^ 32) window ≡ true
    → leb (n + window) latest ≡ false
not_below latest window n h k = ground arith

none_dropped :
    (latest window : ℕ) (o : Option (ℕ × ℕ))
    → latest + 1 < 2 ^ 32
    → leb ((latest + 1) % 2 ^ 32) window ≡ true
    → o ≡ retained_of latest window o
none_dropped latest window none h k = refl
none_dropped latest window (some t) h k = rw (not_below latest window t.0 h k) refl

dropped :
    (latest window : ℕ) (o : Option (ℕ × ℕ))
    → latest + 1 < 2 ^ 32
    → leb ((latest + 1) % 2 ^ 32) window ≡ false
    → kept_from ((latest + 1) % 2 ^ 32 - window) o ≡ retained_of latest window o
dropped latest window none h k = refl
dropped latest window (some t) h k = rw (below latest window t.0 h k) refl

module _ {S X L : Type 0} (q : Sql S X L) (ql : IsSql q) where
  pub trim_ledgers-retained :
      (latest window : ℕ) (s t : S)
      → latest + 1 < 2 ^ 32
      → trim_ledgers q latest window s ≡ ok t
      → q.tables t ≡ record (q.tables s) { ledgers = retained latest window (q.tables s).ledgers }
  unfolding trim_ledgers
  trim_ledgers-retained latest window s t h e =
      elim (Bool-cases (leb ((latest + 1) % 2 ^ 32) window)) [
        | inl young ↦
            ap q.tables (sym (ok-injective (rw young at e)))
            ∙ ap (λ f. record (q.tables s) { ledgers = f })
                (fun_ext (λ n. rw (not_below latest window n h young) refl))
        | inr old ↦
            ql.deletes_ledgers s t ((latest + 1) % 2 ^ 32 - window) (rw old at e)
            ∙ ap (λ f. record (q.tables s) { ledgers = f })
                (fun_ext (λ n. rw (below latest window n h old) refl))
      ]

  pub trim_transactions-retained :
      (latest window : ℕ) (s t : S)
      → latest + 1 < 2 ^ 32
      → trim_transactions q latest window s ≡ ok t
      → q.tables t ≡ record (q.tables s) {
        transactions = retained_transactions latest window (q.tables s).transactions;
      }
  unfolding trim_transactions
  trim_transactions-retained latest window s t h e =
      elim (Bool-cases (leb ((latest + 1) % 2 ^ 32) window)) [
        | inl young ↦
            ap q.tables (sym (ok-injective (rw young at e)))
            ∙ ap (λ f. record (q.tables s) { transactions = f })
                (fun_ext (λ k. none_dropped latest window ((q.tables s).transactions k) h young))
        | inr old ↦
            ql.deletes_transactions s t ((latest + 1) % 2 ^ 32 - window) (rw old at e)
            ∙ ap (λ f. record (q.tables s) { transactions = f })
                (fun_ext (λ k. dropped latest window ((q.tables s).transactions k) h old))
      ]
