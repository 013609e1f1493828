-- ===== src/Prelude/Results.antt =====
-- A Go result pair `(value, error)`, and the reading of one.
use Prim.Native.Nat.{ℕ}
use mathlib.Core.Path.{◌≡◌, refl}
use mathlib.Core.Logic.{◌⊎◌, inl, inr}

-- What went wrong. The texts of the messages are not kept.
pub data Error : Type 0 where
  not_found backend rejected malformed limit_reached : Error
  opted_out consent_blocked outside_service_window claim_blocked invalid_signature : Error
  -- Asked to wait, for so many seconds.
  rate_limited : ℕ → Error

pub data Result {ℓ} (A : Type ℓ) : Type ℓ where
  ok : A → Result A
  err : Error → Result A

pub Result-cases {ℓ} :
    {A : Type ℓ} (r : Result A) → ((a : A) × (r ≡ ok a)) ⊎ ((e : Error) × (r ≡ err e))
Result-cases (ok a) = inl (a, refl)
Result-cases (err e) = inr (e, refl)
