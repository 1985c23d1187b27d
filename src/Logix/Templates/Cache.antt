-- ===== src/Logix/Templates/Cache.antt =====
-- The driver's tables of structures, and steps that use them.
use pycomm.Base.{
  ℕ, List, [], ◌∷◌, Option, none, some, ◌==◌, if◌then◌else◌, Text, Result, Error, ok, err, raise_as,
}
use pycomm.Logix.Templates.Types.{DataType, Makeup}

-- `_cache["id:udt"]`, `_cache["id:struct"]`, `_cache["handle:id"]`, and `_data_types`. The newest entry of
-- a key counts.
pub record Cache : Type 0 where
  pub id_udt : List (ℕ × DataType)
  pub id_struct : List (ℕ × Makeup)
  pub handle_id : List (ℕ × ℕ)
  pub data_types : List (Option Text × DataType)

-- A step reads and writes the tables, and leaves them as they are then when it raises.
abbrev pub Step {ℓ} : Type ℓ → Type ℓ
Step A = Cache → Result A × Cache

module _ {ℓ κ} {A : Type ℓ} {B : Type κ} where
  abbrev pub then_step : Result A → (A → Step B) → Step B
  then_step (ok a) f c = f a c
  then_step (err e) f c = (err e, c)

  infixl 5 ◌>>=◌
  abbrev pub ◌>>=◌ : Step A → (A → Step B) → Step B
  ◌>>=◌ m f c = let (r, c') = m c in then_step r f c'

module _ {ℓ} {A : Type ℓ} where
  abbrev pub pure : A → Step A
  pure a c = (ok a, c)

  abbrev pub lift : Result A → Step A
  lift r c = (r, c)

  -- `except Exception as err: raise E from err`
  abbrev pub raising_as : Error → Step A → Step A
  raising_as e m c = let (r, c') = m c in (raise_as e r, c')

  unfoldable pub cached : ℕ → List (ℕ × A) → Option A
  cached key [] = none
  cached key ((k, a) ∷ rest) = let later = cached key rest in if k == key then some a else later
