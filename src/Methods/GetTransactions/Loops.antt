-- ===== src/Methods/GetTransactions/Loops.antt =====
-- What the two loops of getTransactions gather, as a list of transactions with their places.
use mathlib.Core.List.{append-nil}
use soroban_rpc.Common.{
  ℕ, zero, suc, ◌+◌, ◌-◌, ◌^◌, ◌≤◌, ◌<◌, ◌≡◌, refl, sym, ap, subst, ◌∙◌, inl, inr, Bool, false,
  Option, none, some, List, [], ◌∷◌, ◌++◌, ltb, leb, length, length-append, take, take_all, drop,
  length-drop, drop_all, arith, if◌then◌else◌, ltb→lt, ltb→le, lt→ltb, leb→le, leb→lt, Bool-cases,
  ok,
}
use soroban_rpc.Methods.GetTransactions.{
  Transaction, TransactionInfo, read_tx, sought, sought_eof, Toid, Readers, Gathered, Looped,
  ran_out, full,
}
use soroban_rpc.Methods.GetTransactions.Handler.{
  transaction_info, toid_at, add_info, is_full, tx_loop, whole_ledger, seek_ledger,
}

-- A transaction as it is answered, and its place.
abbrev pub Placed : Type 0
Placed = TransactionInfo × Toid

abbrev pub infos_of : List Placed → List TransactionInfo
infos_of [] = []
infos_of (p ∷ ps) = p.0 ∷ infos_of ps

abbrev pub last_place : List Placed → Option Toid
last_place [] = none
last_place (p ∷ ps) = elim (last_place ps) [ none ↦ some p.1 | some c ↦ some c ]

abbrev pub state_of : List Placed → Gathered
state_of ps = record { txns = infos_of ps; cursor = last_place ps }

infos_of-snoc :
    (ps : List Placed) (p : Placed) → infos_of (ps ++ (p ∷ [])) ≡ infos_of ps ++ (p.0 ∷ [])
infos_of-snoc [] p = refl
infos_of-snoc (r ∷ ps) p = ap (λ xs. r.0 ∷ xs) (infos_of-snoc ps p)

last_place-snoc : (ps : List Placed) (p : Placed) → last_place (ps ++ (p ∷ [])) ≡ some p.1
last_place-snoc [] p = refl
last_place-snoc (r ∷ ps) p = rw (last_place-snoc ps p) refl

length-infos_of : (ps : List Placed) → length (infos_of ps) ≡ length ps
length-infos_of [] = refl
length-infos_of (p ∷ ps) = ap suc (length-infos_of ps)

pub take-append :
    {A : Type 0} (n : ℕ) (xs ys : List A) → n ≤ length xs → take n (xs ++ ys) ≡ take n xs
take-append zero xs ys h = refl
take-append (suc n) [] ys h = ground (arith, h)
take-append (suc n) (x ∷ xs) ys h = ap (λ zs. x ∷ zs) (take-append n xs ys (omega (arith, h)))

-- What a loop comes to that meets these transactions.
abbrev pub paged : {X : Type 0} → ℕ → List Placed → Looped X
paged limit ps =
    if ltb (length ps) limit then ran_out (state_of ps) else full (state_of (take limit ps))

module _ {X L T : Type 0} (h : Readers X L T) where
  -- The transactions that the reader of a ledger hands out from a place on.
  abbrev pub ReadsFrom : L → ℕ → List TransactionInfo → Type 0
  ReadsFrom l place [] = Unit
  ReadsFrom l place (x ∷ xs) =
      ((t : T) × (tx : Transaction) × (h.read l place ≡ read_tx t)
        × (h.parse_transaction l t ≡ ok tx)
        × (transaction_info h tx ≡ x))
      × ReadsFrom l (place + 1) xs

  -- A ledger whose transactions can all be read and parsed, as these.
  pub record IsReadable (l : L) (xs : List TransactionInfo) : Type 0 where
    pub opens : h.open_reader l ≡ none
    pub counts : h.count_transactions l ≡ length xs
    pub seeks : (place : ℕ) → place < length xs → h.seek l place ≡ sought
    pub seeks_eof : (place : ℕ) → length xs ≤ place → h.seek l place ≡ sought_eof
    pub reads : ReadsFrom l 0 xs

  abbrev pub placed : L → ℕ → List TransactionInfo → List Placed
  placed l i [] = []
  placed l i (x ∷ xs) = (x, toid_at h l i) ∷ placed l (i + 1) xs

  ReadsFrom-drop :
      (l : L) (place n : ℕ) (xs : List TransactionInfo)
      → ReadsFrom l place xs
      → ReadsFrom l (place + n) (drop n xs)
  ReadsFrom-drop l place zero xs r =
      subst (λ m. ReadsFrom l m xs) (let e : place ≡ place + 0 = omega arith in e) r
  ReadsFrom-drop l place (suc n) [] r = tt
  ReadsFrom-drop l place (suc n) (x ∷ xs) r =
      subst (λ m. ReadsFrom l m (drop n xs))
        (let e : place + 1 + n ≡ place + suc n = omega arith in e)
        (ReadsFrom-drop l (place + 1) n xs r.1)

  is_full_lem :
      (limit : ℕ) (ps : List Placed)
      → limit < 2 ^ 63
      → is_full h limit (state_of ps) ≡ leb limit (length ps)
  is_full_lem limit ps k = rw (length-infos_of ps) (ground arith)

  add_info-state_of :
      (l : L) (i : ℕ) (ps : List Placed) (tx : Transaction) (x : TransactionInfo)
      → transaction_info h tx ≡ x
      → add_info h l i (state_of ps) tx ≡ state_of (ps ++ ((x, toid_at h l i) ∷ []))
  add_info-state_of l i ps tx x e =
      rw (e, infos_of-snoc ps (x, toid_at h l i), last_place-snoc ps (x, toid_at h l i)) refl

  snoc_append :
      (ps : List Placed) (p : Placed) (qs : List Placed) → (ps ++ (p ∷ [])) ++ qs ≡ ps ++ (p ∷ qs)
  snoc_append [] p qs = refl
  snoc_append (r ∷ ps) p qs = ap (λ xs. r ∷ xs) (snoc_append ps p qs)

  paged_full :
      (limit : ℕ) (ps qs : List Placed)
      → length ps ≡ limit
      → paged {X = X} limit (ps ++ qs) ≡ full (state_of ps)
  paged_full limit ps qs e =
      let long : ltb (length (ps ++ qs)) limit ≡ false = rw (length-append ps qs) (ground arith) in
      rw (long, take-append limit ps qs (omega arith), take_all limit ps (omega arith)) refl

  paged_open :
      (limit : ℕ) (ps : List Placed)
      → length ps < limit
      → paged {X = X} limit ps ≡ ran_out (state_of ps)
  paged_open limit ps k = rw (lt→ltb (length ps) limit k) refl

  -- The loop over the transactions of a ledger goes on where the page stands.
  pub tx_loop-paged :
      (limit : ℕ) (l : L) (i place : ℕ) (xs : List TransactionInfo) (ps : List Placed)
      → limit < 2 ^ 63
      → length ps < limit
      → ReadsFrom l place xs
      → tx_loop h limit l (length xs) i place (state_of ps) ≡ paged limit (ps ++ placed l i xs)
  tx_loop-paged limit l i place [] ps small room r =
      sym (ap (paged limit) (append-nil ps) ∙ paged_open limit ps room)
  tx_loop-paged limit l i place (x ∷ xs) ps small room ((t, tx, read, parsed, same), r) =
      let longer = ps ++ ((x, toid_at h l i) ∷ []) in
      let count : length longer ≡ length ps + 1 = length-append ps ((x, toid_at h l i) ∷ []) in
      let gathered = add_info-state_of l i ps tx x same in
      let all : longer ++ placed l (i + 1) xs ≡ ps ++ placed l i (x ∷ xs) =
        snoc_append ps (x, toid_at h l i) (placed l (i + 1) xs) in
      let go_on = λ (b : Bool) (g : Gathered).
        if b then full g else tx_loop h limit l (length xs) (i + 1) (place + 1) g in
      rw (tx_loop, read, parsed)
        (ap (λ g. go_on (is_full h limit g) g) gathered
          ∙ ap (λ b. go_on b (state_of longer)) (is_full_lem limit longer small)
          ∙ elim (Bool-cases (leb limit (length longer))) [
            | inl filled ↦ rw filled (
                sym (
                  ap (paged limit) (sym all)
                  ∙ paged_full limit longer (placed l (i + 1) xs)
                      (omega (arith, leb→le limit (length longer) filled))))
            | inr room_left ↦ rw room_left (
                tx_loop-paged limit l (i + 1) (place + 1) xs longer small
                  (leb→lt limit (length longer) room_left) r
                ∙ ap (paged limit) all)
          ])

  pub whole_ledger-paged :
      (limit : ℕ) (l : L) (xs : List TransactionInfo) (ps : List Placed)
      → limit < 2 ^ 63
      → length ps < limit
      → IsReadable l xs
      → whole_ledger h limit l (state_of ps) ≡ paged limit (ps ++ placed l 1 xs)
  whole_ledger-paged limit l xs ps small room r =
      ap (λ n. tx_loop h limit l n 1 0 (state_of ps)) r.counts
      ∙ tx_loop-paged limit l 1 0 xs ps small room r.reads

  -- The first ledger is read from an index on, from 1 on.
  pub seek_ledger-paged :
      (limit order : ℕ) (l : L) (xs : List TransactionInfo) (ps : List Placed)
      → limit < 2 ^ 63
      → length ps < limit
      → 1 ≤ order
      → IsReadable l xs
      → seek_ledger h limit order l (state_of ps)
        ≡ paged limit (ps ++ placed l order (drop (order - 1) xs))
  seek_ledger-paged limit order l xs ps small room from r =
      elim (Bool-cases (ltb (order - 1) (length xs))) [
        | inl inside ↦
            let rounds : h.count_transactions l + 1 - order ≡ length (drop (order - 1) xs) =
              rw length-drop (omega (arith, r.counts)) in
            rw (seek_ledger, r.seeks (order - 1) (ltb→lt (order - 1) (length xs) inside), rounds)
              (tx_loop-paged limit l order (order - 1) (drop (order - 1) xs) ps small room (
                subst (λ m. ReadsFrom l m (drop (order - 1) xs))
                  (let e : 0 + (order - 1) ≡ order - 1 = omega arith in e)
                  (ReadsFrom-drop l 0 (order - 1) xs r.reads)))
        | inr past ↦
            let beyond : length xs ≤ order - 1 = ltb→le (order - 1) (length xs) past in
            let rounds : h.count_transactions l + 1 - order ≡ 0 =
              omega (arith, r.counts, beyond, from) in
            rw (seek_ledger, r.seeks_eof (order - 1) beyond, rounds, drop_all (order - 1) xs beyond)
              (tx_loop-paged limit l order 0 [] ps small room tt)
      ]
