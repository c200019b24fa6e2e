-- ===== src/Base/Outcome.antt =====
-- A call that may raise: a value, or the error that was raised.
use mathlib.Core.Path.{◌≡◌, refl}
use mathlib.Core.Bool.{Bool, true, false}

pub data Result {ℓ} (E : Type 0) (V : Type ℓ) : Type ℓ where
  ok : V → Result E V
  err : E → Result E V

infixl 5 ◌>>=◌ ◌>>◌
-- `if not test: raise e`
abbrev pub guard : {E : Type 0} → Bool → E → Result E (Unit {0})
guard false raised = err raised
guard true raised = ok tt

-- Two successful results are one value.
pub ok-injective {ℓ} :
    {E : Type 0} {V : Type ℓ} {x y : V} → ◌≡◌ {A = Result E V} (ok x) (ok y) → x ≡ y
ok-injective h = cc

-- The rest of a function after a call.
abbrev pub ◌>>=◌ {ℓ κ} :
    {E : Type 0} {V : Type ℓ} {W : Type κ} → Result E V → (V → Result E W) → Result E W
err raised >>= rest = err raised
ok value >>= rest = rest value

pub guard-eq-ok : {E : Type 0} (test : Bool) (raised : E) → guard test raised ≡ ok tt → test ≡ true
guard-eq-ok false raised h = cc
guard-eq-ok true raised h = refl

abbrev pub ◌>>◌ {ℓ} : {E : Type 0} {W : Type ℓ} → Result E (Unit {0}) → Result E W → Result E W
call >> rest = call >>= λ _. rest

pub guard_then {ℓ} :
    {E : Type 0} {W : Type ℓ} (test : Bool) (raised : E) (rest : Result E W) {w : W}
    → (guard test raised >> rest) ≡ ok w
    → (test ≡ true) × (rest ≡ ok w)
guard_then false raised rest h = cc
guard_then true raised rest h = (refl, h)

-- Inversion of a successful chain.
pub >>=-eq-ok {ℓ κ} :
    {E : Type 0} {V : Type ℓ} {W : Type κ} (call : Result E V) (rest : V → Result E W) {w : W}
    → (call >>= rest) ≡ ok w
    → (v : V) × (call ≡ ok v) × (rest v ≡ ok w)
>>=-eq-ok (err raised) rest h = cc
>>=-eq-ok (ok v) rest h = (v, refl, h)
