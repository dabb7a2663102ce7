-- ===== src/Bkey/Format/Stream/Write.antt =====
-- `__set_inc_field` writes below the bits that are there, and goes over to the next lower word.
use subvol.Prelude.{
  ℕ, suc, ◌+◌, ◌-◌, ◌*◌, ◌/◌, ◌%◌, ◌^◌, ◌≤◌, ◌<◌, ◌≡◌, refl, List, set, ltb, ◌==◌, true, false,
  arith,
}
use subvol.Prelude.Run.{ok}
use subvol.Prelude.Bits.{bit_or_disjoint}
use subvol.Prelude.Powers.{two-pow-add, two-pow-pos}
use native.Mathlib.Nat.{div-lt_iff_lt-mul}
use subvol.Bkey.Format.{BkeyFormat, Field, PackState, put_bits, set_inc_field_bits}
use subvol.Bkey.Format.Stream.Shifts.{halve_shift, put_fits, put_rest}

-- A writer with `c` free bits below the `h` that it has written into the word `p`.
abbrev pub write_at : List ℕ → ℕ → ℕ → ℕ → PackState
write_at words p c h = record { bits = c; w = h * 2 ^ c; p = p; words = words }

module _ (f : BkeyFormat) (words : List ℕ) (field : Field) where
  -- The field fits the word.
  pub set_short :
      (p d b h v : ℕ)
      → f.bits_per_field field ≡ suc b
      → d + suc b ≤ 64
      → v < 2 ^ suc b
      → set_inc_field_bits f (write_at words p (d + suc b) h) field v
        ≡ ok (write_at words p d (h * 2 ^ suc b + v))
  unfolding set_inc_field_bits put_bits
  set_short p d b h v width fits small =
      let some_bits : (suc b == 0) ≡ false = ground arith in
      let test : ltb (d + suc b) (suc b) ≡ false = ground arith in
      let left : d + suc b - suc b ≡ d = omega arith in
      rw (width, some_bits, test, left, put_fits d (suc b) h v fits small) refl

  -- The field goes over to the next word with its low `suc b` bits.
  pub set_long :
      (p c b d h v : ℕ)
      → f.bits_per_field field ≡ c + suc b
      → d + suc b ≡ 64
      → v < 2 ^ (c + suc b)
      → set_inc_field_bits f (write_at words (suc p) c h) field v
        ≡ ok (write_at (set words (suc p) (h * 2 ^ c + v / 2 ^ suc b)) p d (v % 2 ^ suc b))
  unfolding set_inc_field_bits put_bits
  set_long p c b d h v width whole small =
      let some_bits : (c + suc b == 0) ≡ false = ground arith in
      let test : ltb c (c + suc b) ≡ true = ground arith in
      let rest : c + suc b - c ≡ suc b = omega arith in
      let one : suc b - 1 ≡ b = omega arith in
      let above : (suc p == 0) ≡ false = ground arith in
      let down : suc p - 1 ≡ p = omega arith in
      let left : 64 - suc b ≡ d = omega arith in
      let room : v / 2 ^ suc b < 2 ^ c =
        (div-lt_iff_lt-mul (two-pow-pos (suc b))).1 (rw (← two-pow-add c (suc b)) small) in
      rw
        (
          width,
          some_bits,
          test,
          rest,
          one,
          above,
          down,
          left,
          halve_shift v b,
          bit_or_disjoint c h (v / 2 ^ suc b) room,
          put_rest d (suc b) v whole,
        )
        refl
