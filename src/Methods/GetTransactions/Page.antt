-- ===== src/Methods/GetTransactions/Page.antt =====
-- The page that getTransactions answers with.
use soroban_rpc.Common.{ℕ, ◌-◌, ◌≡◌, some, List, [], ◌∷◌, ◌++◌, ℤ, drop, Outcome, ok}
use soroban_rpc.Window.{LedgerRange}
use soroban_rpc.Methods.GetTransactions.{
  TransactionInfo, GetTransactionsResponse, GetTransactionsError, Readers, to_uint32, next_ℤ,
}
use soroban_rpc.Methods.GetTransactions.Handler.{respond_with}
use soroban_rpc.Methods.GetTransactions.Loops.{Placed, infos_of, last_place, IsReadable, placed}

module _ {X L T : Type 0} (h : Readers X L T) where
  -- Some ledgers with their transactions, stored one after the other from a sequence on.
  abbrev pub IsStored : ℤ → List (L × List TransactionInfo) → Type 0
  IsStored seq [] = Unit
  IsStored seq (l ∷ ls) =
      ((h.get_ledger (to_uint32 seq) ≡ ok (some l.0)) × IsReadable h l.0 l.1)
      × IsStored (next_ℤ seq) ls

  abbrev pub placed_all : List (L × List TransactionInfo) → List Placed
  placed_all [] = []
  placed_all (l ∷ ls) = placed h l.0 1 l.1 ++ placed_all ls

  -- The transactions from an index of the first ledger on.
  abbrev pub from_order : ℕ → List (L × List TransactionInfo) → List Placed
  from_order order [] = []
  from_order order (l ∷ ls) = placed h l.0 order (drop (order - 1) l.1) ++ placed_all ls

  -- The answer with a page, which has no cursor where it has no transaction.
  abbrev pub answer :
      LedgerRange → List Placed → Outcome (GetTransactionsError X) GetTransactionsResponse
  answer range ps = respond_with h range (infos_of ps) (last_place ps)
