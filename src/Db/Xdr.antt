-- ===== src/Db/Xdr.antt =====
-- What internal/db uses of the XDR of ledger keys and entries, of stellar/go.
use soroban_rpc.Common.{ℕ, ◌≡◌, Bool, List, Outcome, ok}

pub record Xdr (K E X : Type 0) : Type 0 where
  -- LedgerEntry.LedgerKey
  pub entry_key : E → Outcome X K
  -- LedgerKeyUnsafeMarshalBinaryCompress, which encodeLedgerKey calls
  pub encode_key : K → Outcome X (List ℕ)
  -- UnsafeMarshalBinary of an entry, and SafeUnmarshal
  pub encode_entry : E → Outcome X (List ℕ)
  pub decode_entry : List ℕ → Outcome X E
  -- whether an entry, or an encoded key, is of type LedgerEntryTypeConfigSetting
  pub is_config : E → Bool
  pub key_is_config : List ℕ → Outcome X Bool

-- A key and its entry are of the same type.
pub record IsXdr {K E X : Type 0} (x : Xdr K E X) : Type 0 where
  pub same_type :
      (e : E) (k : K) (key : List ℕ)
      → x.entry_key e ≡ ok k
      → x.encode_key k ≡ ok key
      → x.key_is_config key ≡ ok (x.is_config e)
