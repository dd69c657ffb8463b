-- ===== src/Window/Invariant.antt =====
-- `Append` keeps the invariant of a window, and `GetLedgerRange` reads the two ends of it.
use soroban_rpc.Common.{
  ℕ, suc, ◌^◌, ◌≤◌, ◌<◌, ◌≡◌, refl, sym, ap, ◌∙◌, inl, inr, Option, List, [], ◌∷◌, ◌++◌, ltb,
  ltb→le, arith, tests, Bool-cases, length, length-append, length-set, ok,
}
use soroban_rpc.Window.{LedgerBucket, LedgerBucketWindow, add_u32, new, place, append}
use soroban_rpc.Window.Spec.{contents, From, Contiguous, expected, slide, slide_next, view}
use soroban_rpc.Window.Validity.{IsShaped, IsValid}
use soroban_rpc.Window.Refine.{append_refines, append-nil_window, append-cons, length-pos}
use soroban_rpc.Window.Place.{place-open, place-full, overwrite-some, start_cell, next_start}

module _ {ℓ} {T : Type ℓ} where
  pub From-append :
      (n : ℕ) (xs : List (LedgerBucket T)) (b : LedgerBucket T)
      → n < 2 ^ 32
      → From n xs
      → b.ledger_seq ≡ add_u32 n (length xs)
      → From n (xs ++ (b ∷ []))
  From-append n [] b small f e = (omega arith, tt)
  From-append n (x ∷ xs) b small f e =
      (f.0, From-append (add_u32 n 1) xs b (omega arith) f.1 (omega arith))

  -- The rest of a contiguous list is one too, with the next bucket at its end.
  Contiguous-next :
      (n : ℕ) (xs : List (LedgerBucket T)) (b : LedgerBucket T)
      → n < 2 ^ 32
      → From n xs
      → b.ledger_seq ≡ add_u32 n (length xs)
      → Contiguous (xs ++ (b ∷ []))
  Contiguous-next n [] b small f e = (omega arith, tt)
  Contiguous-next n (x ∷ xs) b small f e =
      (omega arith, rw f.0 (From-append (add_u32 n 1) xs b (omega arith) f.1 (omega arith)))

  pub slide-Contiguous :
      (cap : ℕ) (xs : List (LedgerBucket T)) (b : LedgerBucket T)
      → Contiguous xs
      → b.ledger_seq < 2 ^ 32
      → expected xs b.ledger_seq ≡ b.ledger_seq
      → Contiguous (slide cap xs b).1
  slide-Contiguous cap [] b c small e = elim (Bool-cases (ltb 0 cap)) [
    | inl h ↦ rw h (small, tt)
    | inr h ↦ rw h (small, tt)
  ]
  slide-Contiguous cap (x ∷ xs) b c small e = elim (Bool-cases (ltb (suc (length xs)) cap)) [
    | inl h ↦ rw h (c.0, From-append (add_u32 x.ledger_seq 1) xs b (omega arith) c.1 (omega arith))
    | inr h ↦ rw h (Contiguous-next (add_u32 x.ledger_seq 1) xs b (omega arith) c.1 (omega arith))
  ]

module _ {ℓ} {T : Type ℓ} where
  place-IsShaped :
      (w w' : LedgerBucketWindow T) (b : LedgerBucket T) (ev : Option (LedgerBucket T))
      → IsShaped w
      → place w b ≡ ok (ev, w')
      → IsShaped w' × (w'.cap ≡ w.cap)
  place-IsShaped w w' b ev v e = elim (Bool-cases (ltb (length w.buckets) w.cap)) [
    | inl free ↦ ground (arith, place-open w b v free, length-append w.buckets (b ∷ []))
    | inr full ↦
        let (saved, s) = start_cell w v (omega (tests, ltb→le (length w.buckets) w.cap full)) in
        ground (
          arith,
          place-full w b v full,
          overwrite-some w b saved s,
          length-set w.buckets w.start b,
          next_start w v,
        )
  ]

  append_inv :
      (w w' : LedgerBucketWindow T) (b : LedgerBucket T) (ev : Option (LedgerBucket T))
      → IsShaped w
      → append w b ≡ ok (ev, w')
      → place w b ≡ ok (ev, w')
  append_inv w w' b ev v e = elim (length-pos w.buckets) [
    | inl empty ↦ sym (append-nil_window w b empty) ∙ e
    | inr pos ↦ let (h, s) = start_cell w v pos in ground (arith, append-cons w b h v pos s)
  ]

  accepted :
      (cap : ℕ) (xs ys : List (LedgerBucket T)) (b : LedgerBucket T) (ev : Option (LedgerBucket T))
      → slide_next cap xs b ≡ ok (ev, ys)
      → (expected xs b.ledger_seq ≡ b.ledger_seq)
        × (ev ≡ (slide cap xs b).0)
        × (ys ≡ (slide cap xs b).1)
  accepted cap xs ys b ev h = ground arith

  -- A successful `Append` leaves a valid window of the same capacity.
  pub append-IsValid :
      (w w' : LedgerBucketWindow T) (b : LedgerBucket T) (ev : Option (LedgerBucket T))
      → IsValid w
      → b.ledger_seq < 2 ^ 32
      → append w b ≡ ok (ev, w')
      → IsValid w' × (w'.cap ≡ w.cap)
  append-IsValid w w' b ev v small e =
      let s = place-IsShaped w w' b ev v.shaped (append_inv w w' b ev v.shaped e) in
      let a =
        accepted w.cap (contents w) (contents w') b ev
          (sym (append_refines w b v.shaped) ∙ ap view e) in
      (
        record {
          shaped = s.0;
          contiguous = rw a.2 (slide-Contiguous w.cap (contents w) b v.contiguous small a.0);
        },
        s.1,
      )

  -- A new window of 1 to 2^31 ledgers is valid and empty.
  pub new-IsValid :
      (n : ℕ) → 0 < n → n ≤ 2 ^ 31 → IsValid (new {T = T} n) × (contents (new {T = T} n) ≡ [])
  unfolding new
  new-IsValid n p h = (
    record {
      shaped = record {
        has_room = p;
        small = h;
        len_in = omega arith;
        start_in = p;
        turned = inl refl;
      };
      contiguous = tt;
    },
    refl,
  )
