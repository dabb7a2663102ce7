-- ===== src/Bkey/Format/Stream/Shifts.antt =====
-- The shifts of the packing code on a 64-bit word whose parts have variable widths.
use subvol.Prelude.{
  ℕ, suc, ◌+◌, ◌-◌, ◌*◌, ◌/◌, ◌%◌, ◌^◌, ◌≤◌, ◌<◌, ◌≡◌, sym, ap, ◌∙◌, bit_or, arith,
}
use subvol.Prelude.Bits.{bit_or_disjoint, zero-bit_or}
use subvol.Prelude.Powers.{two-pow-add, two-pow-pos, div-parts, mod-parts}
use mathlib.Core.Path.{◌≡⟨◌⟩◌, ◌∎}
use native.Mathlib.Nat.{
  pow-suc, mul_assoc, mul_comm, div-div-eq-div-mul, mul-div-mul_right, pow-le-pow_right,
  mod-eq_of_lt, mod-lt, div-add-mod', mul-lt-mul_of_pos_right,
}

-- `x >> 1 >> (n - 1)` is `x >> n`, for a positive `n`.
pub halve_shift : (x n : ℕ) → x / 2 / 2 ^ n ≡ x / 2 ^ suc n
halve_shift x n =
    div-div-eq-div-mul x 2 (2 ^ n) ∙ ap (λ (t : ℕ). x / t) (omega (arith, pow-suc 2 n))

two-pow-suc_add : (d e : ℕ) → 2 ^ suc (d + e) ≡ 2 ^ suc d * 2 ^ e
two-pow-suc_add d e =
    ap (λ (t : ℕ). 2 ^ t) (let s : suc (d + e) ≡ suc d + e = omega arith in s)
    ∙ two-pow-add (suc d) e

-- The upper part `q` of the unread bits `q * 2 ^ d + r`, which stand at the top of the word.
pub top_bits :
    (e d b q r : ℕ)
    → e + d + b ≡ 63
    → r < 2 ^ suc d
    → (q * 2 ^ suc d + r) * 2 ^ e / 2 / 2 ^ (63 - b) ≡ q
top_bits e d b q r total small =
    let width : 63 - b ≡ d + e = omega arith in
    rw (width, halve_shift, two-pow-suc_add d e)
      (mul-div-mul_right (q * 2 ^ suc d + r) (2 ^ suc d) (two-pow-pos e)
        ∙ div-parts q (2 ^ suc d) r small)

-- Shifting them out leaves the lower part at the top.
pub shift_up :
    (e d b q r : ℕ)
    → e + d + b ≡ 64
    → r < 2 ^ d
    → (q * 2 ^ d + r) * 2 ^ e * 2 ^ b % 2 ^ 64 ≡ r * 2 ^ (e + b)
shift_up e d b q r total small =
    let whole : 2 ^ d * 2 ^ (e + b) ≡ 2 ^ 64 =
      sym (two-pow-add d (e + b)) ∙ ap (λ (t : ℕ). 2 ^ t) {y = 64} (omega arith) in
    let room : r * 2 ^ (e + b) < 2 ^ 64 =
      rw (← whole) (mul-lt-mul_of_pos_right small (two-pow-pos (e + b))) in
    (q * 2 ^ d + r) * 2 ^ e * 2 ^ b % 2 ^ 64
    ≡⟨ ap (λ (t : ℕ). t % 2 ^ 64) (mul_assoc (q * 2 ^ d + r) (2 ^ e) (2 ^ b)) ⟩
      (q * 2 ^ d + r) * (2 ^ e * 2 ^ b) % 2 ^ 64
    ≡⟨ ap (λ (t : ℕ). (q * 2 ^ d + r) * t % 2 ^ 64) (sym (two-pow-add e b)) ⟩
      (q * 2 ^ d + r) * 2 ^ (e + b) % 2 ^ 64
    ≡⟨ ap (λ (t : ℕ). t % 2 ^ 64)
        (omega (arith, ap (λ (t : ℕ). q * t) whole, mul_assoc q (2 ^ d) (2 ^ (e + b)))) ⟩
      (q * 2 ^ 64 + r * 2 ^ (e + b)) % 2 ^ 64
    ≡⟨ mod-parts q (2 ^ 64) (r * 2 ^ (e + b)) room ⟩ r * 2 ^ (e + b) ∎

-- A value that fits its field is added below the bits that are there.
pub put_fits :
    (d b h v : ℕ)
    → d + b ≤ 64
    → v < 2 ^ b
    → bit_or (h * 2 ^ (d + b)) (v * 2 ^ d % 2 ^ 64) ≡ (h * 2 ^ b + v) * 2 ^ d
put_fits d b h v total small =
    let split : 2 ^ (d + b) ≡ 2 ^ d * 2 ^ b = two-pow-add d b in
    let room : v * 2 ^ d < 2 ^ (d + b) =
      rw (split, mul_comm (2 ^ d) (2 ^ b)) (mul-lt-mul_of_pos_right small (two-pow-pos d)) in
    let wide : 2 ^ (d + b) ≤ 2 ^ 64 = pow-le-pow_right {n = 2} (omega arith) total in
    let kept : v * 2 ^ d % 2 ^ 64 ≡ v * 2 ^ d = mod-eq_of_lt (omega arith) in
    rw (kept, bit_or_disjoint (d + b) h (v * 2 ^ d) room)
      (omega
        (arith, ap (λ (t : ℕ). h * t) split, mul_comm (2 ^ d) (2 ^ b), mul_assoc h (2 ^ b) (2 ^ d)))

-- The lower part of a value that goes over the end of a word starts the next word.
pub put_rest : (d b v : ℕ) → d + b ≡ 64 → bit_or 0 (v * 2 ^ d % 2 ^ 64) ≡ v % 2 ^ b * 2 ^ d
put_rest d b v total =
    let whole : 2 ^ b * 2 ^ d ≡ 2 ^ 64 =
      sym (two-pow-add b d) ∙ ap (λ (t : ℕ). 2 ^ t) {y = 64} (omega arith) in
    let room : v % 2 ^ b * 2 ^ d < 2 ^ 64 =
      rw (← whole) (mul-lt-mul_of_pos_right (mod-lt v (two-pow-pos b)) (two-pow-pos d)) in
    zero-bit_or _
    ∙ ap (λ (t : ℕ). t % 2 ^ 64) {y = v / 2 ^ b * 2 ^ 64 + v % 2 ^ b * 2 ^ d}
        (omega (
          arith,
          ap (λ (t : ℕ). t * 2 ^ d) (div-add-mod' v (2 ^ b)),
          ap (λ (t : ℕ). v / 2 ^ b * t) whole,
          mul_assoc (v / 2 ^ b) (2 ^ b) (2 ^ d),
        ))
    ∙ mod-parts (v / 2 ^ b) (2 ^ 64) (v % 2 ^ b * 2 ^ d) room
