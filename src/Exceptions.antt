-- ===== src/Exceptions.antt =====
-- fastsqs/exceptions.py, with the other exceptions that the code raises or lets through. Their
-- texts are left out. A user's subclass of one of these classes stands for that class. All
-- are subclasses of `Exception`; `asyncio.CancelledError`, which is none, is left out.
use fastsqs.Base.{ℕ, List, Option, none, some, ◌≡◌, refl, ◌⊎◌, inl, inr}
use fastsqs.Value.{Value}

pub data Exn : Type 0 where
  fastsqs_error : Exn
  route_not_found : Exn
  invalid_message : Exn
  idempotency_in_progress : Exn
  batch_failed : List Value → Exn
  skip_message : Exn
  validation_error : Exn
  type_error : Exn
  attribute_error : Exn
  key_error : Exn
  value_error : Exn
  runtime_error : Exn
  recursion_error : Exn
  other : ℕ → Exn

-- What a call gives: a value, or the exception that it raises.
pub data Res {ℓ} (A : Type ℓ) : Type ℓ where
  ok : A → Res A
  raise : Exn → Res A

abbrev pub error_of {ℓ} : {A : Type ℓ} → Res A → Option Exn
error_of (ok a) = none
error_of (raise e) = some e

pub Res-cases {ℓ} : {A : Type ℓ} (r : Res A) → ((a : A) × (r ≡ ok a)) ⊎ ((e : Exn) × (r ≡ raise e))
Res-cases (ok a) = inl (a, refl)
Res-cases (raise e) = inr (e, refl)
