-- ===== src/Status.antt =====
-- The status codes of Include/oskal/cr_status.h, and results that carry a value on success.
use cr_dk.Base.{◌≡◌, refl, ◌⊎◌, inl, inr, Bool, true, false}

pub data Status : Type 0 where
  success abort invalid_parameter not_found out_of_resources : Status
  unsupported device_error timeout busy : Status

-- `CR_ERROR(x)`.
abbrev pub cr_error : Status → Bool
cr_error Status.success = false
cr_error _ = true

-- What a function returns whose out parameter is written exactly on success.
pub data Result {ℓ} (A : Type ℓ) : Type ℓ where
  ok : A → Result A
  err : Status → Result A

-- The status that the caller sees.
abbrev pub status_of {ℓ} : {A : Type ℓ} → Result A → Status
status_of (ok a) = Status.success
status_of (err e) = e

pub Result-cases {ℓ} :
    {A : Type ℓ} (r : Result A) → ((e : Status) × (r ≡ err e)) ⊎ ((a : A) × (r ≡ ok a))
Result-cases (ok a) = inr (a, refl)
Result-cases (err e) = inl (e, refl)
