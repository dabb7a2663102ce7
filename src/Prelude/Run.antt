-- ===== src/Prelude/Run.antt =====
-- How a call of the program ends: with a value, by returning `false` (or an error that carries no
-- more), or in a panic.
use mathlib.Core.Bool.{Bool, true, false}
use mathlib.Core.Path.{◌≡◌, refl}

pub data Run {ℓ} (A : Type ℓ) : Type ℓ where
  ok : A → Run A
  refused : Run A
  panic : Run A

infixl 5 ◌>>=◌
abbrev pub ◌>>=◌ {ℓ ℓ'} : {A : Type ℓ} {B : Type ℓ'} → Run A → (A → Run B) → Run B
panic >>= next = panic
refused >>= next = refused
ok value >>= next = next value

infixl 5 ◌>>◌
abbrev pub ◌>>◌ {ℓ} : {B : Type ℓ} → Run (Unit {0}) → Run B → Run B
first >> next = first >>= λ done. next

-- An assertion: the program panics where it fails.
abbrev pub check : Bool → Run (Unit {0})
check true = ok tt
check false = panic

-- A test after which the program returns early.
abbrev pub refuse_if : Bool → Run (Unit {0})
refuse_if true = refused
refuse_if false = ok tt

-- The step of a `do` block that returned a value.
pub >>=-eq-ok {ℓ ℓ'} :
    {A : Type ℓ} {B : Type ℓ'} (first : Run A) {next : A → Run B} {result : B}
    → first >>= next ≡ ok result
    → (value : A) × (next value ≡ ok result) × (first ≡ ok value)
>>=-eq-ok panic h = cc
>>=-eq-ok refused h = cc
>>=-eq-ok (ok value) h = (value, h, refl)
