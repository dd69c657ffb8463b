-- ===== src/Window/Place.antt =====
-- What the writes of Append to the slice do to the contents.
use soroban_rpc.Common.{
  ℕ, zero, suc, ◌%◌, ◌^◌, ◌<◌, ◌≡◌, refl, sym, ap, ◌∙◌, inl, inr, none, some, List, [], ◌∷◌, ◌++◌,
  true, false, ltb, ltb→le, if◌then◌else◌, arith, tests, Bool-cases, length, get_elem?, set, take,
  drop, length-append, length-take, length-drop, get_elem?-eq_some, drop-cons, take-suc, take-set,
  drop-set, get_elem?-set_self, drop_all, ok,
}
use mathlib.Core.List.{append-nil, append_assoc}
use native.Mathlib.Nat.{mod-eq_of_lt, mod_self}
use soroban_rpc.Window.{LedgerBucket, LedgerBucketWindow, len, add_u32, place, overwrite}
use soroban_rpc.Window.Spec.{contents, slide, shift, view}
use soroban_rpc.Window.Validity.{IsShaped}

module _ {ℓ} {T : Type ℓ} where
  pub set-split :
      (xs : List T) (i : ℕ) (v : T)
      → i < length xs
      → set xs i v ≡ take i xs ++ (v ∷ drop (suc i) xs)
  set-split [] i v h = elim h [ ]
  set-split (x ∷ xs) zero v h = refl
  set-split (x ∷ xs) (suc i) v h = ap (◌∷◌ x) (set-split xs i v (omega arith))

  pub nil_of_length : (xs : List T) → length xs ≡ 0 → xs ≡ []
  nil_of_length [] h = refl
  nil_of_length (x ∷ xs) h = absurd (omega arith)

module _ {ℓ} {T : Type ℓ} where
  pub length-contents : (w : LedgerBucketWindow T) → length (contents w) ≡ length w.buckets
  length-contents w = omega (
    arith,
    length-append (drop w.start w.buckets) (take w.start w.buckets),
    length-take w.start w.buckets,
    length-drop w.start w.buckets,
  )

  -- The cell at `start` holds the oldest bucket.
  pub contents-head :
      (w : LedgerBucketWindow T) (b : LedgerBucket T)
      → get_elem? w.buckets w.start ≡ some b
      → contents w ≡ b ∷ (drop (suc w.start) w.buckets ++ take w.start w.buckets)
  contents-head w b e = rw (drop-cons w.start w.buckets b e)

  pub start_cell :
      (w : LedgerBucketWindow T)
      → IsShaped w
      → 0 < length w.buckets
      → (b : LedgerBucket T) × (get_elem? w.buckets w.start ≡ some b)
  start_cell w v h = get_elem?-eq_some w.buckets w.start (grind arith)

  pub next_start :
      (w : LedgerBucketWindow T)
      → IsShaped w
      → length w.buckets ≡ w.cap
      → add_u32 w.start 1 % len w ≡ (if ltb (suc w.start) w.cap then suc w.start else 0)
  next_start w v full =
      let e : len w ≡ w.cap = omega arith in
      let s : add_u32 w.start 1 ≡ suc w.start = omega arith in
      rw (e, s)
        (elim (Bool-cases (ltb (suc w.start) w.cap)) [
          | inl inside ↦ rw inside (mod-eq_of_lt (omega tests))
          | inr last ↦
              let t : suc w.start ≡ w.cap = omega (tests, ltb→le (suc w.start) w.cap last) in
              rw (last, t) (mod_self w.cap)
        ])

  -- Writing over the oldest bucket and moving on drops it and puts the new one last.
  pub contents-overwrite :
      (w : LedgerBucketWindow T) (b : LedgerBucket T)
      → IsShaped w
      → length w.buckets ≡ w.cap
      → contents (record w { buckets = set w.buckets w.start b; start = add_u32 w.start 1 % len w })
        ≡ (drop (suc w.start) w.buckets ++ take w.start w.buckets) ++ (b ∷ [])
  contents-overwrite w b v full =
      rw (next_start w v full) (elim (Bool-cases (ltb (suc w.start) w.cap)) [
        | inl inside ↦
            rw
              (
                inside,
                drop-set w.start w.buckets b,
                take-suc w.start (set w.buckets w.start b) b
                    (get_elem?-set_self w.buckets w.start b (omega arith)),
                take-set w.start w.buckets b,
              )
              (sym (append_assoc (drop (suc w.start) w.buckets) (take w.start w.buckets) (b ∷ [])))
        | inr last ↦ rw (
          last,
          append-nil,
          set-split w.buckets w.start b (omega arith),
          drop_all (suc w.start) w.buckets (omega tests),
        )
      ])

  pub contents_unturned : (w : LedgerBucketWindow T) → w.start ≡ 0 → contents w ≡ w.buckets
  contents_unturned w e = rw e (append-nil w.buckets)

  -- The window is not full exactly where its length is below the capacity.
  pub len-cap :
      (w : LedgerBucketWindow T)
      → IsShaped w
      → (len w ≡ length w.buckets) × (w.cap % 2 ^ 32 ≡ w.cap)
  len-cap w v = omega arith

  pub overwrite-some :
      (w : LedgerBucketWindow T) (b saved : LedgerBucket T)
      → get_elem? w.buckets w.start ≡ some saved
      → overwrite w b
        ≡ ok (
          some saved,
          record w { buckets = set w.buckets w.start b; start = add_u32 w.start 1 % len w },
        )
  unfolding overwrite
  overwrite-some w b saved e = rw (e, overwrite)

  pub overwrite_lem :
      (w : LedgerBucketWindow T) (b : LedgerBucket T)
      → IsShaped w
      → length w.buckets ≡ w.cap
      → view (overwrite w b) ≡ ok (shift (contents w) b)
  overwrite_lem w b v full =
      let (saved, e) = start_cell w v (omega arith) in
      rw (overwrite-some w b saved e, contents-head w saved e)
        (ap (λ xs. ok (some saved, xs)) (contents-overwrite w b v full))

  pub place-open :
      (w : LedgerBucketWindow T) (b : LedgerBucket T)
      → IsShaped w
      → ltb (length w.buckets) w.cap ≡ true
      → place w b ≡ ok (none, record w { buckets = w.buckets ++ (b ∷ []) })
  unfolding place
  place-open w b v h = rw ((len-cap w v).0, (len-cap w v).1, h)

  pub place-full :
      (w : LedgerBucketWindow T) (b : LedgerBucket T)
      → IsShaped w
      → ltb (length w.buckets) w.cap ≡ false
      → place w b ≡ overwrite w b
  unfolding place
  place-full w b v h = rw ((len-cap w v).0, (len-cap w v).1, h)

  pub place_refines :
      (w : LedgerBucketWindow T) (b : LedgerBucket T)
      → IsShaped w
      → view (place w b) ≡ ok (slide w.cap (contents w) b)
  place_refines w b v = elim (Bool-cases (ltb (length w.buckets) w.cap)) [
    | inl free ↦
        let s : w.start ≡ 0 = omega tests in
        rw (place-open w b v free, length-contents w, free)
          (ap (λ xs. ok (none, xs))
            (contents_unturned (record w { buckets = w.buckets ++ (b ∷ []) }) s
              ∙ ap (λ xs. xs ++ (b ∷ [])) (sym (contents_unturned w s))))
    | inr full ↦
        rw (place-full w b v full, length-contents w, full)
          (overwrite_lem w b v (omega (tests, ltb→le (length w.buckets) w.cap full)))
  ]
