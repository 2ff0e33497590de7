-- ===== src/Common/StatusCode.antt =====
-- `ufprog_status` of common/include/ufprog/status_code.h, with the codes that the modelled code
-- returns or tests. A code that a driver hands on is `other`.
use Prim.Native.Nat.{ℕ}
use mathlib.Core.Bool.{Bool, true, false}
use mathlib.Core.Path.{◌≡◌, refl}
use mathlib.Core.Logic.{◌≢◌, ◌⊎◌, inl, inr}
use native.Mathlib.Omega.{arith}

pub data Status : Type 0 where
  ok fail invalid_parameter unsupported nomem : Status
  device_io_error address_out_of_range data_verification_fail : Status
  ecc_corrected ecc_uncorrectable timeout : Status
  not_exist flash_not_probed : Status
  other : ℕ → Status

-- `if (!ret)`
abbrev pub is_ok : Status → Bool
is_ok ok = true
is_ok _ = false

-- `ret == UFP_FAIL`
abbrev pub is_fail : Status → Bool
is_fail fail = true
is_fail _ = false

abbrev pub is_uncorrectable : Status → Bool
is_uncorrectable ecc_uncorrectable = true
is_uncorrectable _ = false

abbrev pub is_corrected : Status → Bool
is_corrected ecc_corrected = true
is_corrected _ = false

-- A function that returns a value through a pointer when its status is `UFP_OK`.
pub data Result {ℓ} (A : Type ℓ) : Type ℓ where
  done : A → Result A
  err : Status → Result A

pub ok_of : (ret : Status) → is_ok ret ≡ true → ret ≡ ok
ok_of ret h = ground arith

pub not_ok : (ret : Status) → is_ok ret ≡ false → ret ≢ ok
not_ok ret h = ground arith

pub fail_of : (ret : Status) → is_fail ret ≡ true → ret ≡ fail
fail_of ret h = ground arith

pub Result-cases {ℓ} :
    {A : Type ℓ} (r : Result A) → ((a : A) × (r ≡ done a)) ⊎ ((e : Status) × (r ≡ err e))
Result-cases (done a) = inl (a, refl)
Result-cases (err e) = inr (e, refl)
