-- ===== src/Common/Raise.antt =====
-- Python exceptions as values. `Exception` has a constructor for each class that the modelled code
-- raises (cobra_system_control/cobra_system_control/exceptions.py and the built-in classes).
use mathlib.Core.Path.{◌≡◌, refl}
use mathlib.Core.Bool.{Bool, true, false}
use m.Common.Tests.{if◌then◌else◌}

pub data Exception : Type 0 where
  value_error runtime_error index_error key_error type_error overflow_error : Exception
  memory_map_error memory_map_field_value_error memory_map_field_alignment_error : Exception
  memory_map_field_overflow_error memory_map_periph_alignment_error : Exception
  timeout_error assertion_error struct_error system_exit zero_division_error usb_exception :
      Exception
  scan_pattern_value_error scan_pattern_size_error : Exception
  -- No class of the code: a loop has used up its fuel.
  not_ended : Exception

pub data Result {ℓ} (A : Type ℓ) : Type ℓ where
  ok : A → Result A
  err : Exception → Result A

infixl 5 ◌>>=◌ ◌>>◌
abbrev pub ◌>>=◌ {ℓ ℓ'} : {X : Type ℓ} {Y : Type ℓ'} → Result X → (X → Result Y) → Result Y
err raised >>= next = err raised
ok x >>= next = next x

abbrev pub ◌>>◌ {ℓ} : {Y : Type ℓ} → Result (Unit {0}) → Result Y → Result Y
check >> rest = check >>= λ done. rest

-- `if bad: raise e`
abbrev pub raise_if : Bool → Exception → Result (Unit {0})
raise_if true e = err e
raise_if false e = ok tt

-- What returns has got past its first part.
pub >>=-eq-ok {ℓ ℓ'} :
    {X : Type ℓ} {Y : Type ℓ'} (first : Result X) (next : X → Result Y) {y : Y}
    → (first >>= next) ≡ ok y
    → (x : X) × (first ≡ ok x) × (next x ≡ ok y)
>>=-eq-ok (err raised) next returns = cc
>>=-eq-ok (ok x) next returns = (x, refl, returns)

pub ok-injective {ℓ} : {X : Type ℓ} {x y : X} → ok x ≡ ok y → x ≡ y
ok-injective h = cc

-- A test that has to hold.
pub if_ok {ℓ} :
    {X : Type ℓ} (b : Bool) (r : Result X) (e : Exception) (x : X)
    → (if b then r else err e) ≡ ok x
    → (b ≡ true) × (r ≡ ok x)
if_ok true r e x h = (refl, h)
if_ok false r e x h = cc
