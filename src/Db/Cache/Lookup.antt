-- ===== src/Db/Cache/Lookup.antt =====
-- Association lists with the keys of the database: the map types of internal/db.
use soroban_rpc.Common.{
  ℕ, ◌≡◌, refl, sym, ap, ◌∙◌, inl, inr, true, false, Option, none, some, List, [], ◌∷◌, ◌==◌,
  ==_iff, if◌then◌else◌, Bool-cases,
}
use soroban_rpc.Db.Cache.{same_key, put}

pub same_key-eq : (s t : List ℕ) → same_key s t ≡ true → s ≡ t
same_key-eq [] [] h = refl
same_key-eq [] (b ∷ t) h = cc
same_key-eq (a ∷ s) [] h = cc
same_key-eq (a ∷ s) (b ∷ t) h = elim (Bool-cases (a == b)) [
  | inl hit ↦
      let head : a ≡ b = (==_iff a b).0 hit in
      let rest : same_key s t ≡ true = rw hit at h in rw (head, same_key-eq s t rest)
  | inr miss ↦ cc (rw miss at h)
]

pub same_key_refl : (s : List ℕ) → same_key s s ≡ true
same_key_refl [] = refl
same_key_refl (a ∷ s) = rw ((==_iff a a).1 refl, same_key_refl s)

-- What an association list holds for a key, where there is one.
abbrev pub lookup : {V : Type 0} → List (List ℕ × V) → List ℕ → Option V
lookup [] k = none
lookup (p ∷ ps) k = let rest = lookup ps k in if same_key p.0 k then some p.1 else rest

abbrev pub Unique : {V : Type 0} → List (List ℕ × V) → Type 0
Unique [] = Unit
Unique (p ∷ ps) = (lookup ps p.0 ≡ none) × Unique ps

pub other_key :
    (p key k : List ℕ) → same_key p key ≡ false → same_key p k ≡ true → same_key key k ≡ false
other_key p key k miss hit = elim (Bool-cases (same_key key k)) [
  | inl e ↦
      let same : p ≡ key = same_key-eq p k hit ∙ sym (same_key-eq key k e) in
      cc (ap (same_key p) (sym same) ∙ same_key_refl p)
  | inr e ↦ e
]

pub put-lookup :
    {V : Type 0} (w : List (List ℕ × V)) (key k : List ℕ) (v : V)
    → lookup (put w key v) k ≡ (if same_key key k then some v else lookup w k)
put-lookup [] key k v = refl
put-lookup (p ∷ ps) key k v = elim (Bool-cases (same_key p.0 key)) [
  | inl hit ↦
      let same : same_key key k ≡ same_key p.0 k =
        ap (λ q. same_key q k) (sym (same_key-eq p.0 key hit)) in
      elim (Bool-cases (same_key p.0 k)) [
        | inl e ↦ rw (hit, same, e) refl
        | inr e ↦ rw (hit, same, e) refl
      ]
  | inr miss ↦
      let next = put-lookup ps key k v in
      elim (Bool-cases (same_key p.0 k)) [
        | inr e ↦ rw (miss, e) next
        | inl e ↦ rw (miss, e, other_key p.0 key k miss e) refl
      ]
]

sym_miss : (a b : List ℕ) → same_key a b ≡ false → same_key b a ≡ false
sym_miss a b miss = elim (Bool-cases (same_key b a)) [
  | inl e ↦ cc (ap (same_key a) (same_key-eq b a e) ∙ same_key_refl a)
  | inr e ↦ e
]

pub put-Unique :
    {V : Type 0} (w : List (List ℕ × V)) (key : List ℕ) (v : V) → Unique w → Unique (put w key v)
put-Unique [] key v u = (refl, tt)
put-Unique (p ∷ ps) key v u = elim (Bool-cases (same_key p.0 key)) [
  | inl hit ↦ rw hit u
  | inr miss ↦
      rw miss (put-lookup ps key p.0 v ∙ rw (sym_miss p.0 key miss) u.0, put-Unique ps key v u.1)
]
