-- ===== src/Bkey/Format/Stream/Read.antt =====
-- `get_inc_field` reads the bits at a position of the words: `p` is the word, and `c` of its bits
-- are not yet read.
use subvol.Prelude.{
  ℕ, zero, suc, ◌+◌, ◌-◌, ◌*◌, ◌/◌, ◌%◌, ◌^◌, ◌≤◌, ◌<◌, ◌≡◌, refl, sym, ap, ◌∙◌, List, get_or, leb,
  ◌==◌, true, false, arith,
}
use subvol.Prelude.Run.{ok}
use subvol.Prelude.Bits.{bit_or_disjoint, zero-bit_or, bit_or-zero}
use subvol.Prelude.Powers.{two-pow-add, two-pow-pos, mod-parts}
use native.Mathlib.Nat.{
  mul_assoc, mul_comm, mod-lt, div-add-mod', mul-div_cancel, div-lt_iff_lt-mul,
}
use subvol.Bkey.Format.{BkeyFormat, Field, UnpackState, take_bits, next_word, get_inc_field}
use subvol.Bkey.Format.Stream.Shifts.{halve_shift, top_bits, shift_up, put_rest}

abbrev pub word_at : List ℕ → ℕ → ℕ
word_at words i = get_or words i 0

-- The state of the reader at that position. With no bit left it has gone on to the next word.
abbrev pub read_at : List ℕ → ℕ → ℕ → UnpackState
read_at words p zero = record { bits = 64; w = word_at words (p - 1); next = p }
read_at words p (suc c) = record {
  bits = suc c;
  w = word_at words p % 2 ^ suc c * 2 ^ (64 - suc c);
  next = suc p;
}

pub two_digits : (q r m n : ℕ) → q < n → r < m → q * m + r < m * n
two_digits q r m n hq hr = grind arith

-- The low `d + b` bits of a number are its bits above the lowest `d`, and those.
mod_split : (d b x : ℕ) → x % 2 ^ (d + b) ≡ x / 2 ^ d % 2 ^ b * 2 ^ d + x % 2 ^ d
mod_split d b x =
    let small =
      two_digits (x / 2 ^ d % 2 ^ b) (x % 2 ^ d) (2 ^ d) (2 ^ b) (mod-lt _ (two-pow-pos b))
        (mod-lt _ (two-pow-pos d)) in
    rw (two-pow-add d b) (
      ap (λ (t : ℕ). t % (2 ^ d * 2 ^ b))
        {y = x / 2 ^ d / 2 ^ b * (2 ^ d * 2 ^ b) + (x / 2 ^ d % 2 ^ b * 2 ^ d + x % 2 ^ d)}
        (omega (
          arith,
          div-add-mod' x (2 ^ d),
          ap (λ (t : ℕ). t * 2 ^ d) (div-add-mod' (x / 2 ^ d) (2 ^ b)),
          ap (λ (t : ℕ). x / 2 ^ d / 2 ^ b * t) (mul_comm (2 ^ d) (2 ^ b)),
          mul_assoc (x / 2 ^ d / 2 ^ b) (2 ^ b) (2 ^ d),
        ))
      ∙ mod-parts (x / 2 ^ d / 2 ^ b) (2 ^ d * 2 ^ b) _ small)

mod_suc : (d b x : ℕ) → x % 2 ^ suc (d + b) ≡ x / 2 ^ suc d % 2 ^ b * 2 ^ suc d + x % 2 ^ suc d
mod_suc d b x =
    ap (λ (t : ℕ). x % 2 ^ t) (let s : suc (d + b) ≡ suc d + b = omega arith in s)
    ∙ mod_split (suc d) b x

module _ (f : BkeyFormat) (words : List ℕ) (field : Field) where
  abbrev base : ℕ
  base = f.field_offset field

  -- The field ends above the lowest bit of the word.
  pub get_short :
      (p d b : ℕ)
      → f.bits_per_field field ≡ b
      → suc (d + b) ≤ 64
      → get_inc_field f words (read_at words p (suc (d + b))) field
        ≡ ok ((word_at words p / 2 ^ suc d % 2 ^ b + base) % 2 ^ 64, read_at words p (suc d))
  unfolding get_inc_field take_bits
  get_short p d b width fits =
      let x = word_at words p in
      let e = 64 - suc (d + b) in
      let test : leb (suc (d + b)) b ≡ false = ground arith in
      let parts : x % 2 ^ suc (d + b) ≡ x / 2 ^ suc d % 2 ^ b * 2 ^ suc d + x % 2 ^ suc d =
        mod_suc d b x in
      let rest : suc (d + b) - b ≡ suc d = omega arith in
      let place : e + b ≡ 64 - suc d = omega arith in
      rw
        (
          width,
          test,
          parts,
          rest,
          top_bits e d b _ _ (omega arith) (mod-lt x (two-pow-pos (suc d))),
          shift_up e (suc d) b _ _ (omega arith) (mod-lt x (two-pow-pos (suc d))),
          zero-bit_or,
          place,
        )
        refl

  -- The field takes the rest of the word.
  pub get_exact :
      (p c : ℕ)
      → f.bits_per_field field ≡ suc c
      → suc c ≤ 64
      → word_at words p < 2 ^ 64
      → get_inc_field f words (read_at words (suc p) (suc c)) field
        ≡ ok ((word_at words (suc p) % 2 ^ suc c + base) % 2 ^ 64, read_at words (suc p) zero)
  unfolding get_inc_field take_bits next_word
  get_exact p c width fits small =
      let e = 64 - suc c in
      let below = word_at words p in
      let test : leb (suc c) (suc c) ≡ true = ground arith in
      let next : leb (suc (suc p)) 1 ≡ false = ground arith in
      let left : suc c - suc c ≡ 0 = omega arith in
      let here : suc (suc p) - 1 ≡ suc p = omega arith in
      let down : suc p - 1 ≡ p = omega arith in
      let some_left : (suc p == 0) ≡ false = ground arith in
      let value : word_at words (suc p) % 2 ^ suc c * 2 ^ e / 2 ^ e
          ≡ word_at words (suc p) % 2 ^ suc c =
        mul-div_cancel _ (two-pow-pos e) in
      let above : below / 2 / 2 ^ 63 ≡ 0 = omega (arith, small) in
      let stay : below * 1 % 2 ^ 64 ≡ below = omega (arith, small) in
      rw (width, test, next, left, here, some_left, down, value, above, bit_or-zero, stay) refl

  -- The field goes on in the next word, with `suc b` bits.
  pub get_long :
      (p c b d : ℕ)
      → f.bits_per_field field ≡ suc c + suc b
      → suc c ≤ suc d
      → suc d + suc b ≡ 64
      → word_at words p < 2 ^ 64
      → get_inc_field f words (read_at words (suc p) (suc c)) field
        ≡ ok (
          (word_at words (suc p) % 2 ^ suc c * 2 ^ suc b + word_at words p / 2 ^ suc d + base)
              % 2 ^ 64,
          read_at words p (suc d),
        )
  unfolding get_inc_field take_bits next_word
  get_long p c b d width fits whole small =
      let e = 64 - (suc c + suc b) in
      let m = word_at words (suc p) % 2 ^ suc c in
      let y = word_at words p in
      let test : leb (suc c) (suc c + suc b) ≡ true = ground arith in
      let next : leb (suc (suc p)) 1 ≡ false = ground arith in
      let left : suc c + suc b - suc c ≡ suc b = omega arith in
      let here : suc (suc p) - 1 ≡ suc p = omega arith in
      let down : suc p - 1 ≡ p = omega arith in
      let some_left : (suc p == 0) ≡ false = ground arith in
      let width_left : 64 - suc c ≡ suc b + e = omega arith in
      let place : 64 - suc d ≡ suc b = omega arith in
      let bits_left : 64 - suc b ≡ suc d = omega arith in
      let high : m * 2 ^ (64 - suc c) / 2 ^ e ≡ m * 2 ^ suc b =
        rw (width_left, two-pow-add (suc b) e, ← mul_assoc m (2 ^ suc b) (2 ^ e))
          (mul-div_cancel _ (two-pow-pos e)) in
      let shift : 63 - suc b ≡ d = omega arith in
      let room : y / 2 ^ suc d < 2 ^ suc b = (div-lt_iff_lt-mul (two-pow-pos (suc d))).1 (
        rw (← two-pow-add (suc b) (suc d)) (
          omega
            (arith, small, ap (λ (t : ℕ). 2 ^ t) {x = suc b + suc d} {y = 64} (omega arith)))) in
      let wiped : y * 2 ^ suc b % 2 ^ 64 ≡ y % 2 ^ suc d * 2 ^ suc b =
        sym (zero-bit_or _) ∙ put_rest (suc b) (suc d) y (omega arith) in
      rw
        (
          width,
          test,
          next,
          left,
          here,
          some_left,
          down,
          high,
          shift,
          halve_shift,
          bit_or_disjoint (suc b) m (y / 2 ^ suc d) room,
          wiped,
          bits_left,
          place,
        )
        refl
