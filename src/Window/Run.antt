-- ===== src/Window/Run.antt =====
-- A history of `Append`s, and the ledger range that a window then reports.
use mathlib.Core.List.{append_assoc, append-nil}
use soroban_rpc.Common.{
  ℕ, suc, ◌-◌, ◌^◌, ◌≤◌, ◌<◌, ◌≡◌, refl, sym, ◌∙◌, inl, inr, Option, List, [], ◌∷◌, ◌++◌, ltb,
  ltb→le, lt→ltb, ==_iff, arith, Bool-cases, length, length-append, Outcome, ok, err, panic, ◌>>=◌,
}
use soroban_rpc.Window.{LedgerBucket, LedgerBucketWindow, AppendError, add_u32, new, append}
use soroban_rpc.Window.Spec.{contents, From, Contiguous, expected, slide, view, last_n}
use soroban_rpc.Window.Validity.{IsShaped, IsValid}
use soroban_rpc.Window.Refine.{append_refines}
use soroban_rpc.Window.Place.{length-contents}
use soroban_rpc.Window.Invariant.{append-IsValid, new-IsValid}

module _ {ℓ} {T : Type ℓ} where
  -- The appends of a history, up to the first that fails.
  pub append_all :
      LedgerBucketWindow T → List (LedgerBucket T) → Outcome AppendError (LedgerBucketWindow T)
  append_all w [] = ok w
  append_all w (b ∷ bs) = append w b >>= λ r. append_all r.1 bs

  -- What a step drops is not among the last `cap`.
  last_n-slide :
      (cap : ℕ) (xs bs : List (LedgerBucket T)) (b : LedgerBucket T)
      → 0 < cap
      → length xs ≤ cap
      → last_n cap ((slide cap xs b).1 ++ bs) ≡ last_n cap (xs ++ (b ∷ bs))
  last_n-slide cap [] bs b p h = rw (lt→ltb 0 cap p)
  last_n-slide cap (x ∷ xs) bs b p h = elim (Bool-cases (ltb (suc (length xs)) cap)) [
    | inl free ↦ rw (free, append_assoc xs (b ∷ []) bs)
    | inr full ↦
        let l = length-append xs (b ∷ bs) in
        let e : length (x ∷ xs ++ (b ∷ bs)) - cap ≡ suc (length (xs ++ (b ∷ bs)) - cap) =
          omega (arith, l, ltb→le (suc (length xs)) cap full) in
        rw (full, append_assoc xs (b ∷ []) bs, e)
  ]

  -- After a step the window expects the successor of the bucket that it took.
  expected-slide :
      (cap : ℕ) (xs : List (LedgerBucket T)) (b : LedgerBucket T) (n : ℕ)
      → Contiguous xs
      → expected xs b.ledger_seq ≡ b.ledger_seq
      → expected (slide cap xs b).1 n ≡ add_u32 b.ledger_seq 1
  expected-slide cap [] b n c e = elim (Bool-cases (ltb 0 cap)) [ inl h ↦ rw h | inr h ↦ rw h ]
  expected-slide cap (x ∷ []) b n c e = elim (Bool-cases (ltb 1 cap)) [
    | inl h ↦ rw h (omega arith)
    | inr h ↦ rw h
  ]
  expected-slide cap (x ∷ y ∷ ys) b n c e = elim (Bool-cases (ltb (suc (suc (length ys))) cap)) [
    | inl h ↦ rw h (omega (arith, length-append ys (b ∷ [])))
    | inr h ↦ rw h (omega (arith, length-append ys (b ∷ [])))
  ]

  view-ok :
      (r : Outcome AppendError (Option (LedgerBucket T) × LedgerBucketWindow T))
      (ev : Option (LedgerBucket T)) (xs : List (LedgerBucket T))
      → view r ≡ ok (ev, xs)
      → (w : LedgerBucketWindow T) × (r ≡ ok (ev, w)) × (contents w ≡ xs)
  view-ok (ok (ev', w)) ev xs h = (w, ground arith, ground arith)
  view-ok (err e) ev xs h = cc
  view-ok panic ev xs h = cc

  -- A window takes the bucket that it expects, and slides.
  pub append-ok :
      (w : LedgerBucketWindow T) (b : LedgerBucket T)
      → IsShaped w
      → expected (contents w) b.ledger_seq ≡ b.ledger_seq
      → (w' : LedgerBucketWindow T) × (append w b ≡ ok ((slide w.cap (contents w) b).0, w'))
        × (contents w' ≡ (slide w.cap (contents w) b).1)
  append-ok w b v e =
      view-ok (append w b) _ _
        (append_refines w b v ∙ rw ((==_iff (expected (contents w) b.ledger_seq) b.ledger_seq).1 e))

  expected_self : (xs : List (LedgerBucket T)) (n m : ℕ) → m ≡ expected xs n → expected xs m ≡ m
  expected_self [] n m e = refl
  expected_self (x ∷ xs) n m e = sym e

  expected-lt : (xs : List (LedgerBucket T)) (n : ℕ) → n < 2 ^ 32 → expected xs n < 2 ^ 32
  expected-lt [] n h = h
  expected-lt (x ∷ xs) n h = omega arith

  -- Whatever ledgers follow in sequence are all taken, and the window then holds the last `cap` of
  -- what it held and took.
  append_all_lem :
      (bs : List (LedgerBucket T)) (w : LedgerBucketWindow T) (n : ℕ)
      → IsValid w
      → n < 2 ^ 32
      → From (expected (contents w) n) bs
      → (w' : LedgerBucketWindow T) × (append_all w bs ≡ ok w')
        × IsValid w'
        × (contents w' ≡ last_n w.cap (contents w ++ bs))
  unfolding append_all
  append_all_lem [] w n v small f =
      let z : length (contents w) - w.cap ≡ 0 = omega (arith, length-contents w, v.shaped.len_in) in
      (w, refl, v, rw (append-nil, z))
  append_all_lem (b ∷ bs) w n v small f =
      let e = expected_self (contents w) n b.ledger_seq f.0 in
      let lt : b.ledger_seq < 2 ^ 32 = omega (arith, f.0, expected-lt (contents w) n small) in
      let (w', a, c) = append-ok w b v.shaped e in
      let (v', k) = append-IsValid w w' b _ v lt a in
      let next : expected (contents w') 0 ≡ add_u32 b.ledger_seq 1 =
        rw c (expected-slide w.cap (contents w) b 0 v.contiguous e) in
      let (w'', r, v'', c'') = append_all_lem bs w' 0 v' (omega arith) (rw (next, f.0) f.1) in
      let inside : length (contents w) ≤ w.cap =
        omega (arith, length-contents w, v.shaped.len_in) in
      (
        w'',
        rw a r,
        v'',
        c'' ∙ rw (k, c) (last_n-slide w.cap (contents w) bs b v.shaped.has_room inside),
      )

-- A new window that takes a run of consecutive ledgers holds the last `cap` of them, oldest first,
-- and is valid.
pub append_all-new {ℓ} :
    {T : Type ℓ} (cap n : ℕ) (bs : List (LedgerBucket T))
    → 0 < cap
    → cap ≤ 2 ^ 31
    → n < 2 ^ 32
    → From n bs
    → (w : LedgerBucketWindow T) × (append_all (new cap) bs ≡ ok w)
      × IsValid w
      × (contents w ≡ last_n cap bs)
unfolding new
append_all-new limit n bs p h small f =
    let v = (new-IsValid limit p h).0 in
    let (w, r, v', e) = append_all_lem bs (new limit) n v small f in (w, r, v', e)
