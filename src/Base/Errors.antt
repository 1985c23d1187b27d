-- ===== src/Base/Errors.antt =====
-- exceptions.py, and a result that carries a raised exception.
use mathlib.Core.Path.{◌≡◌, refl}
use mathlib.Core.Bool.{Bool, true, false}
use mathlib.Core.Option.{Option, none, some}

-- The classes of exceptions.py; `other_error` stands for a built-in exception (KeyError,
-- TypeError, ValueError, struct.error, ...), whose kind no handler of the program tells apart.
-- `diverges` is no exception: it marks a loop that has used up its fuel, and no handler catches it.
pub data Error : Type 0 where
  comm_error data_error buffer_empty_error response_error request_error other_error : Error
  diverges : Error

-- What a call returns, or the exception that leaves it.
pub data Result {ℓ} (T : Type ℓ) : Type ℓ where
  ok : T → Result T
  err : Error → Result T

abbrev pub is_ok {ℓ} : {T : Type ℓ} → Result T → Bool
is_ok (ok x) = true
is_ok (err x) = false

-- `except Exception as err: raise E from err`
abbrev pub reraised : Error → Error → Error
reraised new diverges = diverges
reraised new old = new

abbrev pub raise_as {ℓ} : {T : Type ℓ} → Error → Result T → Result T
raise_as new (ok x) = ok x
raise_as new (err old) = err (reraised new old)

pub raise_as-eq-ok {ℓ} :
    {T : Type ℓ} (new : Error) (r : Result T) {x : T} → raise_as new r ≡ ok x → r ≡ ok x
raise_as-eq-ok new (ok y) same = same
raise_as-eq-ok new (err old) same = cc

-- The next statement runs unless an exception was raised.
infixl 5 ◌>>=◌ ◌>>◌
abbrev pub ◌>>=◌ {ℓ κ} : {T : Type ℓ} {U : Type κ} → Result T → (T → Result U) → Result U
(ok x) >>= next = next x
(err e) >>= next = err e

abbrev pub ◌>>◌ {κ} : {U : Type κ} → Result (Unit {0}) → Result U → Result U
(ok done) >> next = next
(err e) >> next = err e

pub >>=-eq-ok {ℓ κ} :
    {T : Type ℓ} {U : Type κ} (r : Result T) (next : T → Result U) {y : U}
    → (r >>= next) ≡ ok y
    → (x : T) × (r ≡ ok x) × (next x ≡ ok y)
>>=-eq-ok (ok x) next same = (x, refl, same)
>>=-eq-ok (err e) next same = cc

-- `x = d[k]` where a missing key raises `e`.
abbrev pub get_or_raise {ℓ} : {T : Type ℓ} → Option T → Error → Result T
get_or_raise none e = err e
get_or_raise (some x) e = ok x

abbrev pub guard : Bool → Error → Result (Unit {0})
guard true e = ok tt
guard false e = err e
