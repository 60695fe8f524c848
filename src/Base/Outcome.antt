-- ===== src/Base/Outcome.antt =====
-- What a call of the program ends in: a value, a typed service error with its HTTP status and
-- reason, or an untyped `Error` that is thrown with a message. The human-readable text of a typed
-- error is left out.
use Prim.Native.Nat.{ℕ}
use Prim.Native.String.{String}
use mathlib.Core.Path.{◌≡◌, refl}
use mathlib.Core.Bool.{Bool, true, false}
use mathlib.Core.Option.{Option, none, some}
use mathlib.Core.Logic.{◌⊎◌, inl, inr}

pub data Failure : Type 0 where
  service : ℕ → String → Failure
  thrown : String → Failure

-- A failure stops what follows it.
pub data Result {ℓ} (Value : Type ℓ) : Type ℓ where
  err : Failure → Result Value
  ok : Value → Result Value

infixl 5 ◌>>◌
abbrev pub ◌>>◌ {ℓ} : {Last : Type ℓ} → Result (Unit {0}) → Result Last → Result Last
err failure >> rest = err failure
ok _ >> rest = rest

infixl 5 ◌>>=◌
abbrev pub ◌>>=◌ {ℓ κ} :
    {First : Type ℓ} {Last : Type κ} → Result First → (First → Result Last) → Result Last
err failure >>= rest = err failure
ok value >>= rest = rest value

-- `if (bad) throw new ReservoirError(status, …, reason)`
abbrev pub reject_if : Bool → ℕ → String → Result (Unit {0})
reject_if true status reason = err (service status reason)
reject_if false status reason = ok tt

abbrev pub or_reject {ℓ} : {A : Type ℓ} → Option A → ℕ → String → Result A
or_reject none status reason = err (service status reason)
or_reject (some a) status reason = ok a

abbrev pub or_throw {ℓ} : {A : Type ℓ} → Option A → String → Result A
or_throw none message = err (thrown message)
or_throw (some a) message = ok a

-- Where a sequence succeeds, so did its first part, and the rest succeeds on that part's value.
pub >>=-eq-ok {ℓ κ} :
    {First : Type ℓ} {Last : Type κ} (step : Result First) (rest : First → Result Last)
    {last : Last}
    → (step >>= rest) ≡ ok last
    → (value : First) × (step ≡ ok value) × (rest value ≡ ok last)
>>=-eq-ok (err failure) rest eq = cc
>>=-eq-ok (ok value) rest eq = (value, refl, eq)

pub >>-eq-ok {ℓ} :
    {Last : Type ℓ} (step : Result (Unit {0})) (rest : Result Last) {last : Last}
    → (step >> rest) ≡ ok last
    → (step ≡ ok tt) × (rest ≡ ok last)
>>-eq-ok (err failure) rest eq = cc
>>-eq-ok (ok tt) rest eq = (refl, eq)

-- The same for a rejected condition and for a missing value.
pub reject_if-eq-ok {ℓ} :
    {B : Type ℓ} (bad : Bool) (status : ℕ) (reason : String) (k : Result B) {b : B}
    → (reject_if bad status reason >> k) ≡ ok b
    → (bad ≡ false) × (k ≡ ok b)
reject_if-eq-ok true status reason k h = cc
reject_if-eq-ok false status reason k h = (refl, h)

pub or_reject-eq-ok {ℓ} :
    {A : Type ℓ} (o : Option A) (status : ℕ) (reason : String) {a : A}
    → or_reject o status reason ≡ ok a
    → o ≡ some a
or_reject-eq-ok none status reason h = cc
or_reject-eq-ok (some a) status reason h = cc

pub or_throw-eq-ok {ℓ} :
    {A : Type ℓ} (o : Option A) (message : String) {a : A} → or_throw o message ≡ ok a → o ≡ some a
or_throw-eq-ok none message h = cc
or_throw-eq-ok (some a) message h = cc

pub Result-cases {ℓ} :
    {Value : Type ℓ} (r : Result Value)
    → ((e : Failure) × (r ≡ err e)) ⊎ ((value : Value) × (r ≡ ok value))
Result-cases (err e) = inl (e, refl)
Result-cases (ok value) = inr (value, refl)

pub ok_inj {ℓ} : {A : Type ℓ} {a b : A} → ok a ≡ ok b → a ≡ b
ok_inj h = cc

-- A last check that passes.
pub reject_if-ok :
    (bad : Bool) (status : ℕ) (reason : String) → reject_if bad status reason ≡ ok tt → bad ≡ false
reject_if-ok true status reason h = cc
reject_if-ok false status reason h = refl
