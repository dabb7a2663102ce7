-- ===== src/Prelude/WordBits.antt =====
-- Single bits of a word.
use Prim.Native.Nat.{ℕ, zero, suc, ◌*◌, ◌/◌, ◌%◌, ◌^◌, bit_or}
use mathlib.Core.Path.{◌≡◌, refl, sym, ap, ◌∙◌}
use mathlib.Core.Logic.{◌↔◌, ◌⊎◌, inl, inr}
use mathlib.Core.Bool.{Bool, true}
use native.Mathlib.Nat.{pow-suc, div-div-eq-div-mul}
use native.Mathlib.Omega.{arith}
use subvol.Prelude.Tests.{◌==◌}
use subvol.Prelude.Bits.{bit_or_step, bit_or-zero}

abbrev pub bit_of_word : ℕ → ℕ → Bool
bit_of_word w i = w / 2 ^ i % 2 == 1

bit-suc : (w i : ℕ) → bit_of_word w (suc i) ≡ bit_of_word (w / 2) i
bit-suc w i =
    let power : 2 ^ suc i ≡ 2 * 2 ^ i = omega (arith, pow-suc 2 i) in
    rw (power, ← div-div-eq-div-mul w 2 (2 ^ i)) refl

half-or : (w v : ℕ) → bit_or w v / 2 ≡ bit_or (w / 2) (v / 2)
half-or w v = omega (arith, bit_or_step w v)

or-zero : (w i : ℕ) → bit_of_word (bit_or w 0) i ≡ bit_of_word w i
or-zero w i = rw (bit_or-zero w) refl

-- Setting a bit with `|` sets it, and leaves the others.
pub bit-set :
    (n i w : ℕ) → (bit_of_word (bit_or w (2 ^ n)) i ≡ true) ↔ ((bit_of_word w i ≡ true) ⊎ (i ≡ n))
bit-set zero zero w = ground (arith, bit_or_step w 1)
bit-set (suc n) zero w = ground (arith, bit_or_step w (2 ^ suc n), pow-suc 2 n)
bit-set zero (suc i) w =
    let rest : bit_of_word (bit_or w 1) (suc i) ≡ bit_of_word w (suc i) =
      bit-suc (bit_or w 1) i
      ∙ ap (λ (x : ℕ). bit_of_word x i) (half-or w 1)
      ∙ or-zero (w / 2) i
      ∙ sym (bit-suc w i) in
    rw rest ((λ h. inl h), λ c. elim c [ inl h ↦ h | inr e ↦ absurd (omega arith) ])
bit-set (suc n) (suc i) w =
    let half : 2 ^ suc n / 2 ≡ 2 ^ n = omega (arith, pow-suc 2 n) in
    let next = half-or w (2 ^ suc n) ∙ ap (λ (x : ℕ). bit_or (w / 2) x) half in
    let above = bit-suc (bit_or w (2 ^ suc n)) i ∙ ap (λ (x : ℕ). bit_of_word x i) next in
    let (there, back) = bit-set n i (w / 2) in
    rw (above, bit-suc w i)
      (
        λ h. elim (there h) [ inl old ↦ inl old | inr e ↦ inr (ap suc e) ],
        λ c. elim c [ inl old ↦ back (inl old) | inr e ↦ back (inr (omega arith)) ],
      )
