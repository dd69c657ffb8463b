-- ===== src/Db/Reader/Entries.antt =====
-- GetLedgerEntries and GetLedgerEntry of internal/db/ledgerentry.go: entries with the ledgers that they
-- live until, which other entries hold.
use soroban_rpc.Common.{
  ℕ, Bool, Option, none, some, List, [], ◌∷◌, ◌++◌, ◌||◌, length, if◌then◌else◌, Outcome, ok, err,
  panic, ◌>>=◌,
}
use soroban_rpc.Db.Cache.{GoMap}
use soroban_rpc.Db.Sql.{Sql}
use soroban_rpc.Db.Xdr.{Xdr}
use soroban_rpc.Db.Meta.{DbCache}
use soroban_rpc.Db.Reader.{
  LedgerEntryReadTx, RawRead, returned, failed, blocked, read_panicked, get_raw_ledger_entries,
}

-- What these two use of the types of keys and entries, of stellar/go, and the hash of a key.
pub record TtlXdr (K E X : Type 0) : Type 0 where
  pub is_contract_data : K → Bool
  pub is_contract_code : K → Bool
  -- MarshalBinary, Sum256 and SetTtl
  pub marshal_key : K → Outcome X (List ℕ)
  pub sha256 : List ℕ → List ℕ
  pub set_ttl : List ℕ → Outcome X K
  -- Data.Ttl.LiveUntilLedgerSeq, behind a pointer that is nil for entries of other types
  pub live_until_ledger_seq : E → Option ℕ

-- LedgerKeyAndEntry
pub record LedgerKeyAndEntry (K E : Type 0) : Type 0 where
  pub key : K
  pub entry : E
  pub live_until : Option ℕ

-- keyToEncoded
pub record KeyToEncoded (K : Type 0) : Type 0 where
  pub plain_key : K
  pub encoded_key : List ℕ
  pub encoded_ttl_key : Option (List ℕ)

pub data EntriesError (X : Type 0) : Type 0 where
  cannot_encode : X → EntriesError X
  cannot_read : X → EntriesError X
  cannot_decode : X → EntriesError X
  missing_ttl : EntriesError X

-- What GetLedgerEntries comes to: its outcome, or blocked with the read.
pub data EntriesRead (X A : Type 0) : Type 0 where
  answered : Outcome (EntriesError X) A → EntriesRead X A
  entries_blocked : EntriesRead X A

module _ {K E X : Type 0} (x : Xdr K E X) (y : TtlXdr K E X) where
  -- hasTTLKey and entryKeyToTTLEntryKey
  abbrev pub has_ttl_key : K → Bool
  has_ttl_key k = y.is_contract_data k || y.is_contract_code k

  abbrev pub entry_key_to_ttl_entry_key : K → Outcome X K
  entry_key_to_ttl_entry_key k = y.marshal_key k >>= (λ bytes. y.set_ttl (y.sha256 bytes))

  abbrev pub encode_ttl : K → Outcome X (Option (List ℕ))
  encode_ttl k =
      if has_ttl_key k
      then entry_key_to_ttl_entry_key k >>= (λ t. x.encode_key t >>= (λ e. ok (some e)))
      else ok none

  -- the loop that encodes the keys
  abbrev pub encode_keys : List K → Outcome X (List (KeyToEncoded K))
  encode_keys [] = ok []
  encode_keys (k ∷ ks) = x.encode_key k >>= (λ e. encode_ttl k >>= (λ t.
      encode_keys ks
      >>= (λ rest. ok (record { plain_key = k; encoded_key = e; encoded_ttl_key = t } ∷ rest))))

  abbrev pub encoded_keys : List (KeyToEncoded K) → List (List ℕ)
  encoded_keys [] = []
  encoded_keys (k ∷ ks) =
      k.encoded_key
      ∷ elim k.encoded_ttl_key [ none ↦ encoded_keys ks | some t ↦ t ∷ encoded_keys ks ]

  abbrev pub decoded : List ℕ → Outcome (EntriesError X) E
  decoded bytes = elim (x.decode_entry bytes) [
    | ok e ↦ ok e
    | err e ↦ err (cannot_decode e)
    | panic ↦ panic
  ]

  -- the ledger that an entry lives until, from the entry of its TTL key
  abbrev pub live_until_of : E → Outcome (EntriesError X) (Option ℕ)
  live_until_of ttl = elim (y.live_until_ledger_seq ttl) [ none ↦ panic | some n ↦ ok (some n) ]

  abbrev pub ttl_of : Option (List ℕ) → Outcome (EntriesError X) (Option ℕ)
  ttl_of none = err missing_ttl
  ttl_of (some bytes) = decoded bytes >>= (λ ttl. live_until_of ttl)

  abbrev pub ttl_entry : GoMap (List ℕ) → Option (List ℕ) → Outcome (EntriesError X) (Option ℕ)
  ttl_entry raw none = ok none
  ttl_entry raw (some t) = ttl_of (raw t)

  -- the loop over the raw result, which passes over keys without an entry
  abbrev pub one_result :
      GoMap (List ℕ)
      → KeyToEncoded K
      → Option (List ℕ)
      → List (LedgerKeyAndEntry K E)
      → Outcome (EntriesError X) (List (LedgerKeyAndEntry K E))
  one_result raw k none before = ok before
  one_result raw k (some bytes) before = decoded bytes >>= (λ e.
      ttl_entry raw k.encoded_ttl_key
      >>= (λ t. ok (before ++ (record { key = k.plain_key; entry = e; live_until = t } ∷ []))))

  abbrev pub results :
      GoMap (List ℕ)
      → List (KeyToEncoded K)
      → List (LedgerKeyAndEntry K E)
      → Outcome (EntriesError X) (List (LedgerKeyAndEntry K E))
  results raw [] before = ok before
  results raw (k ∷ ks) before =
      one_result raw k (raw k.encoded_key) before >>= (λ after. results raw ks after)

  module _ {S L : Type 0} (q : Sql S X L) where
    abbrev pub with_raw :
        List (KeyToEncoded K) → RawRead X → EntriesRead X (List (LedgerKeyAndEntry K E))
    with_raw ks (returned s) = answered (results s.found ks [])
    with_raw ks (failed e s) = answered (err (cannot_read e))
    with_raw ks blocked = entries_blocked
    with_raw ks read_panicked = answered panic

    -- GetLedgerEntries
    unfoldable pub get_ledger_entries :
        LedgerEntryReadTx S → DbCache → List K → EntriesRead X (List (LedgerKeyAndEntry K E))
    unfolding get_raw_ledger_entries
    get_ledger_entries tx cache keys = elim (encode_keys keys) [
      | panic ↦ answered panic
      | err e ↦ answered (err (cannot_encode e))
      | ok ks ↦ with_raw ks (get_raw_ledger_entries q x tx cache (encoded_keys ks))
    ]

-- GetLedgerEntry, of what GetLedgerEntries found for its key; more than one entry is an error.
pub data OneEntry (K E : Type 0) : Type 0 where
  no_entry : OneEntry K E
  one_entry : E → Option ℕ → OneEntry K E
  several_entries : ℕ → OneEntry K E

abbrev pub get_ledger_entry : {K E : Type 0} → List (LedgerKeyAndEntry K E) → OneEntry K E
get_ledger_entry [] = no_entry
get_ledger_entry (e ∷ []) = one_entry e.entry e.live_until
get_ledger_entry (e ∷ f ∷ es) = several_entries (length (e ∷ f ∷ es))
