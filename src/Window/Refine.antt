-- ===== src/Window/Refine.antt =====
-- The circular buffer behaves as the sliding list of its contents.
use soroban_rpc.Common.{
  ℕ, ◌+◌, ◌-◌, ◌%◌, ◌≤◌, ◌<◌, ◌≡◌, refl, sym, ap, ◌∙◌, ◌⊎◌, inl, inr, Option, none, some, List, [],
  ◌∷◌, Bool, true, false, ltb, leb, leb→le, leb→lt, ltb→le, lt→ltb, ==_iff, ◌==◌, if◌then◌else◌,
  arith, tests, Bool-cases, length, get_elem?, take, drop, length-drop, get_elem?-eq_none,
  get_elem?-append_left, get_elem?-append_right, get_elem?-take, get_elem?-drop, Outcome, ok, err,
  panic,
}
use native.Mathlib.Nat.{mod-eq_of_lt, mod-eq-sub-mod}
use soroban_rpc.Window.{
  LedgerBucket, LedgerBucketWindow, AppendError, not_contiguous, len, add_u32, place, append, get,
}
use soroban_rpc.Window.Spec.{contents, slide_next, view}
use soroban_rpc.Window.Validity.{IsShaped}
use soroban_rpc.Window.Place.{
  nil_of_length, length-contents, contents-head, start_cell, len-cap, place_refines,
}

module _ {ℓ} {T : Type ℓ} where
  pub append-nil_window :
      (w : LedgerBucketWindow T) (b : LedgerBucket T) → w.buckets ≡ [] → append w b ≡ place w b
  unfolding append
  append-nil_window w b e = rw e

  pub append-cons :
      (w : LedgerBucketWindow T) (b h : LedgerBucket T)
      → IsShaped w
      → 0 < length w.buckets
      → get_elem? w.buckets w.start ≡ some h
      → append w b ≡ (
          if add_u32 h.ledger_seq (length w.buckets) == b.ledger_seq
          then place w b
          else err (not_contiguous (add_u32 h.ledger_seq (length w.buckets)) b.ledger_seq))
  unfolding append
  append-cons w b h v pos e =
      rw ((len-cap w v).0, lt→ltb 0 (length w.buckets) pos, e, (len-cap w v).0)

  pub length-pos : (xs : List (LedgerBucket T)) → (xs ≡ []) ⊎ (0 < length xs)
  length-pos [] = inl refl
  length-pos (x ∷ xs) = inr (omega arith)

  view-if :
      (c : Bool) (r : Outcome AppendError (Option (LedgerBucket T) × LedgerBucketWindow T))
      (e : AppendError)
      → view (if c then r else err e) ≡ (if c then view r else err e)
  view-if true r e = refl
  view-if false r e = refl

  -- `Append` on the circular buffer is `slide_next` on its contents: the same bucket is evicted, the
  -- same error is returned, and it never panics.
  pub append_refines :
      (w : LedgerBucketWindow T) (b : LedgerBucket T)
      → IsShaped w
      → view (append w b) ≡ slide_next w.cap (contents w) b
  append_refines w b v = elim (length-pos w.buckets) [
    | inl empty ↦
        let c = nil_of_length (contents w) (length-contents w ∙ ap length empty) in
        rw (
          append-nil_window w b empty,
          place_refines w b v,
          c,
          (==_iff b.ledger_seq b.ledger_seq).1 refl,
        )
    | inr pos ↦
        let (h, e) = start_cell w v pos in
        rw (
          append-cons w b h v pos e,
          view-if,
          place_refines w b v,
          ← length-contents w,
          contents-head w h e,
        )
  ]

  index : LedgerBucketWindow T → ℕ → ℕ
  index w i = add_u32 w.start i % len w

  index-eq :
      (w : LedgerBucketWindow T) (i : ℕ)
      → IsShaped w
      → i < length w.buckets
      → index w i ≡ (
          if ltb (w.start + i) (length w.buckets)
          then w.start + i
          else w.start + i - length w.buckets)
  unfolding index
  index-eq w i v h =
      let s : add_u32 w.start i ≡ w.start + i = omega arith in
      rw ((len-cap w v).0, s)
        (elim (Bool-cases (ltb (w.start + i) (length w.buckets))) [
          | inl inside ↦ rw inside (mod-eq_of_lt (omega tests))
          | inr past ↦ rw past (
              mod-eq-sub-mod {n = w.start + i} {m = length w.buckets}
                (ltb→le (w.start + i) (length w.buckets) past)
              ∙ mod-eq_of_lt (omega arith))
        ])

  get_elem?-contents :
      (w : LedgerBucketWindow T) (i : ℕ)
      → IsShaped w
      → i < length w.buckets
      → get_elem? w.buckets (index w i) ≡ get_elem? (contents w) i
  get_elem?-contents w i v h =
      rw (index-eq w i v h) (elim (Bool-cases (ltb (w.start + i) (length w.buckets))) [
        | inl inside ↦ rw inside (
            sym (
              get_elem?-append_left (drop w.start w.buckets) (take w.start w.buckets) i
                (omega (tests, front))
              ∙ get_elem?-drop w.start w.buckets i))
        | inr past ↦
            let p : length w.buckets ≤ w.start + i = ltb→le (w.start + i) (length w.buckets) past in
            rw past (
              sym (
                get_elem?-append_right (drop w.start w.buckets) (take w.start w.buckets) i
                  (omega (arith, front))
                ∙ get_elem?-take w.start w.buckets (i - length (drop w.start w.buckets))
                    (omega (arith, front))
                ∙ ap (get_elem? w.buckets) (omega (arith, front))))
      ])
    where
      front : length (drop w.start w.buckets) ≡ length w.buckets - w.start
      front = length-drop w.start w.buckets

  -- `Get i` is the i-th of the contents; past them it panics, and nowhere else.
  pub get_refines {κ} :
      (E : Type κ) (w : LedgerBucketWindow T) (i : ℕ)
      → IsShaped w
      → get {E = E} w i ≡ elim (get_elem? (contents w) i) [ none ↦ panic | some b ↦ ok b ]
  unfolding get index
  get_refines E w i v = elim (Bool-cases (leb (length w.buckets) i)) [
    | inl past ↦ rw (
      (len-cap w v).0,
      past,
      get_elem?-eq_none (contents w) i
          (omega (arith, leb→le (length w.buckets) i past, length-contents w)),
    )
    | inr inside ↦ rw (
      (len-cap w v).0,
      inside,
      ← get_elem?-contents w i v (leb→lt (length w.buckets) i inside),
      (len-cap w v).0,
    )
  ]
