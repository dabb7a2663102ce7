-- ===== src/Prelude/Powers.antt =====
-- Powers of two, and the bit length of a word.
use Prim.Native.Nat.{ℕ, zero, suc, ◌+◌, ◌*◌, ◌/◌, ◌%◌, ◌^◌, ◌≤◌, ◌<◌}
use mathlib.Core.Path.{◌≡◌, ◌∙◌}
use mathlib.Core.Logic.{◌↔◌, inl, inr}
use native.Mathlib.Nat.{
  pow-suc, pow-zero, mul_assoc, one-le-pow, add-zero, mul-one, add-suc, mul-add-div_right,
  div-eq_of_lt, mul-add-mod_self_right, mod-eq_of_lt,
}
use native.Mathlib.Omega.{arith}
use subvol.Prelude.Tests.{◌==◌, if◌then◌else◌, Bool-cases}

pub two-pow-add : (a b : ℕ) → 2 ^ (a + b) ≡ 2 ^ a * 2 ^ b
two-pow-add a zero = simp (add-zero, pow-zero, mul-one)
two-pow-add a (suc b) = simp (add-suc, pow-suc, two-pow-add a b, mul_assoc)

pub two-pow-pos : (a : ℕ) → 0 < 2 ^ a
two-pow-pos a = one-le-pow a 2 (omega arith)

-- Division and remainder of a number that is written with its two parts.
pub div-parts : (q m r : ℕ) → r < m → (q * m + r) / m ≡ q
div-parts q m r h = mul-add-div_right (omega arith) q r ∙ omega (arith, div-eq_of_lt h)

pub mod-parts : (q m r : ℕ) → r < m → (q * m + r) % m ≡ r
mod-parts q m r h = mul-add-mod_self_right q m r ∙ mod-eq_of_lt h

-- The number of binary digits of a number, up to `fuel` of them.
unfoldable pub bit_length_fuel : ℕ → ℕ → ℕ
bit_length_fuel zero v = 0
bit_length_fuel (suc fuel) v =
    let rest = bit_length_fuel fuel (v / 2) in if v == 0 then 0 else suc rest

pub bit_length_fuel_le : (w v b : ℕ) → v < 2 ^ w → (bit_length_fuel w v ≤ b) ↔ (v < 2 ^ b)
unfolding bit_length_fuel
bit_length_fuel_le zero v b h = (λ _. omega (arith, two-pow-pos b), λ _. omega arith)
bit_length_fuel_le (suc w) v zero h = elim (Bool-cases (v == 0)) [
  | inl e ↦ rw e (λ _. ground arith, λ _. omega arith)
  | inr e ↦ rw e (λ s. absurd (omega arith), λ s. absurd (ground arith))
]
bit_length_fuel_le (suc w) v (suc b) h =
    let rest = bit_length_fuel_le w (v / 2) b (omega (arith, pow-suc 2 w)) in
    elim (Bool-cases (v == 0)) [
      | inl e ↦ rw e (λ _. ground (arith, two-pow-pos (suc b)), λ _. omega arith)
      | inr e ↦ rw e (
        λ s. omega (arith, pow-suc 2 b, rest.0 (omega arith)),
        λ s. omega (arith, rest.1 (omega (arith, pow-suc 2 b))),
      )
    ]
