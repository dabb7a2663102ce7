-- ===== src/Prelude/Options.antt =====
-- What the programs do with optional values, and the numbers of Rust's standard library.
use Prim.Native.Nat.{ℕ, ◌-◌, ◌^◌}
use mathlib.Core.Option.{Option, none, some}
use subvol.Prelude.Powers.{bit_length_fuel}

-- `Option::map_or`
abbrev pub map_or {ℓ ℓ'} : {A : Type ℓ} {B : Type ℓ'} → B → (A → B) → Option A → B
map_or default f none = default
map_or default f (some a) = f a

infixl 5 ◌>>=◌
abbrev pub ◌>>=◌ {ℓ ℓ'} : {A : Type ℓ} {B : Type ℓ'} → Option A → (A → Option B) → Option B
none >>= next = none
some value >>= next = next value

-- `next_power_of_two` of a usize that is not 0
abbrev pub next_power_of_two : ℕ → ℕ
next_power_of_two n = 2 ^ bit_length_fuel 64 (n - 1)
