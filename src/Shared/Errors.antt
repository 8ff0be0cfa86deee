-- ===== src/Shared/Errors.antt =====
-- apps/api/src/modules/shared/errors.ts, with the error classes that the modules derive from it.
-- An error is its class and its code; the texts of the messages are left out. A function that may
-- throw returns a `Result`.
use jejak.Prelude.{Bool, true, false, ◌≡◌, refl}

pub data DomainErrorCode : Type 0 where
  validation_failed version_conflict invalid_state_transition : DomainErrorCode
  claim_already_encumbered partner_timeout partner_rejected : DomainErrorCode

-- `AnchorErrorClass` and `IssuerErrorClass`.
pub data PartnerErrorClass : Type 0 where
  timeout transport rate_limit rejected : PartnerErrorClass
  protocol_mismatch reconciliation_mismatch : PartnerErrorClass

pub data SettlementErrorCode : Type 0 where
  idempotency_conflict invalid_settlement settlement_mismatch waterfall_pending :
      SettlementErrorCode

-- What a function throws. `domain` carries the flag `retryable`; `failure` is a plain `Error`.
pub data Error : Type 0 where
  domain : DomainErrorCode → Bool → Error
  anchor issuer : PartnerErrorClass → Error
  settlement : SettlementErrorCode → Error
  conflict type_error failure : Error

-- A value that is returned, or an error that is thrown.
pub data Result {ℓ} (T : Type ℓ) : Type ℓ where
  err : Error → Result T
  ok : T → Result T

-- `if (test) throw error;`
abbrev pub throw_if : Bool → Error → Result (Unit {0})
throw_if false error = ok tt
throw_if true error = err error

-- Two steps in turn, the second of them with the value of the first or without it.
infixl 5 ◌>>◌ ◌>>=◌
abbrev pub ◌>>=◌ {κ ℓ} : {S : Type κ} {T : Type ℓ} → Result S → (S → Result T) → Result T
err error >>= next = err error
ok s >>= next = next s

abbrev pub ◌>>◌ {ℓ} : {T : Type ℓ} → Result (Unit {0}) → Result T → Result T
first >> second = first >>= λ _. second

abbrev pub domain_error : DomainErrorCode → Error
domain_error c = domain c false

-- `validationError`
abbrev pub validation_error : Error
validation_error = domain_error validation_failed

-- The rules of a chain of steps that ended well.
pub >>=-eq-ok {κ ℓ} :
    {S : Type κ} {T : Type ℓ} (first : Result S) (next : S → Result T) {t : T}
    → (first >>= next) ≡ ok t
    → (s : S) × (first ≡ ok s) × (next s ≡ ok t)
>>=-eq-ok (err error) next returned = cc
>>=-eq-ok (ok s) next returned = (s, refl, returned)

pub >>-eq-ok {ℓ} :
    {T : Type ℓ} (first : Result (Unit {0})) (second : Result T) {t : T}
    → (first >> second) ≡ ok t
    → (first ≡ ok tt) × (second ≡ ok t)
>>-eq-ok (err error) second returned = cc
>>-eq-ok (ok tt) second returned = (refl, returned)

pub throw_if-eq-ok : (b : Bool) (e : Error) → throw_if b e ≡ ok tt → b ≡ false
throw_if-eq-ok true e h = cc
throw_if-eq-ok false e h = refl

-- A computation that returns a value.
abbrev pub Returns {ℓ} : {A : Type ℓ} → Result A → Type ℓ
Returns {A = A} r = (a : A) × (r ≡ ok a)

pub >>=-Returns {ℓ κ} :
    {A : Type ℓ} {B : Type κ} (m : Result A) (f : A → Result B)
    → Returns m
    → ((a : A) → Returns (f a))
    → Returns (m >>= f)
>>=-Returns (ok a) f h k = k a
>>=-Returns (err e) f (a, h) k = cc
