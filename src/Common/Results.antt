-- ===== src/Common/Results.antt =====
-- What a call of a Go function comes to: its results, a returned error, or a run-time panic.
use mathlib.Core.Path.{◌≡◌, refl}
use mathlib.Core.Logic.{◌⊎◌, inl, inr}
use mathlib.Core.Bool.{Bool, true, false}
use soroban_rpc.Common.Tests.{if◌then◌else◌}

pub data Outcome {ℓ κ} (E : Type ℓ) (A : Type κ) : Type (ℓ ⊔ κ) where
  ok : A → Outcome E A
  err : E → Outcome E A
  panic : Outcome E A

-- The statements behind a call run only when the call neither fails nor panics.
infixl 5 ◌>>=◌
abbrev pub ◌>>=◌ {ℓ κ μ} :
    {E : Type ℓ} {A : Type κ} {B : Type μ} → Outcome E A → (A → Outcome E B) → Outcome E B
panic >>= next = panic
err failure >>= next = err failure
ok result >>= next = next result

module _ {ℓ κ} {E : Type ℓ} {A : Type κ} where
  -- The value of a call that succeeds, and what the statements behind it made of it.
  pub >>=-eq-ok {μ} :
      {B : Type μ} (call : Outcome E A) (next : A → Outcome E B) {final : B}
      → (call >>= next) ≡ ok final
      → (result : A) × (call ≡ ok result) × (next result ≡ ok final)
  >>=-eq-ok panic next h = cc
  >>=-eq-ok (err failure) next h = cc
  >>=-eq-ok (ok result) next h = (result, refl, h)

  -- A guard that returns an error early was not taken when the function succeeds.
  pub if-err-ok :
      (test : Bool) (failure : E) (rest : Outcome E A) {final : A}
      → (if test then err failure else rest) ≡ ok final
      → (test ≡ false) × (rest ≡ ok final)
  if-err-ok true failure rest h = cc
  if-err-ok false failure rest h = (refl, h)

  pub ok-injective : {a b : A} → (let r : Outcome E A = ok a in r) ≡ ok b → a ≡ b
  ok-injective h = cc

  pub Outcome-cases :
      (o : Outcome E A) → ((a : A) × (o ≡ ok a)) ⊎ (((e : E) × (o ≡ err e)) ⊎ (o ≡ panic))
  Outcome-cases (ok a) = inl (a, refl)
  Outcome-cases (err e) = inr (inl (e, refl))
  Outcome-cases panic = inr (inr refl)
