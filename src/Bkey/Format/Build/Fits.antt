-- ===== src/Bkey/Format/Build/Fits.antt =====
-- The format that is built from a state fits every value between the least and the greatest one.
use subvol.Prelude.{
  ℕ, ◌+◌, ◌-◌, ◌*◌, ◌/◌, ◌^◌, ◌≤◌, ◌<◌, ◌≡◌, refl, List, [], ◌∷◌, min, leb, ◌==◌, arith, Bool-cases,
  inl, inr,
}
use native.Mathlib.Nat.{le_refl, pow-le-pow_right}
use subvol.Prelude.Powers.{bit_length_fuel_le, two-pow-pos}
use subvol.Bkey.Format.{
  Field, inode, offset, snapshot, size, version_hi, version_lo, all_fields, unpacked_bits,
  bit_length,
}
use subvol.Bkey.Format.Stream.Fields.{AllFit}
use subvol.Bkey.Format.RoundTrip.Header.{IsFormat}
use subvol.Bkey.Format.Build.{
  BkeyFormatState, update, set_format_field, first_field, round_fields, sum_bits, bkey_format_done,
}

-- The width and the offset of a field hold the values from `low` to `high`.
abbrev Holds : Field → ℕ → ℕ → ℕ × ℕ → Type 0
Holds field low high (bits, base) =
    (bits ≤ unpacked_bits field) × (base ≤ low) × (high < base + 2 ^ bits)

set-Holds :
    (field : Field) (low high bits base : ℕ)
    → base ≤ low
    → high < base + 2 ^ bits
    → high < 2 ^ unpacked_bits field
    → Holds field low high (set_format_field field bits base)
set-Holds field low high bits base le lt small =
    let n = min bits (unpacked_bits field) in
    let pow = two-pow-pos n in
    elim (Bool-cases (n == unpacked_bits field)) [
      | inl whole ↦
          let e : n ≡ unpacked_bits field = ground arith in
          rw whole (omega arith, omega arith, rw e (omega arith))
      | inr part ↦
          let e : n ≡ bits = ground arith in
          let below : bits ≤ unpacked_bits field = omega arith in
          rw (part, e) (below, omega arith, omega (arith, two-pow-pos bits))
    ]

-- What a state knows of each field: the greatest value is one of the field.
abbrev pub IsState : BkeyFormatState → Type 0
IsState state = (field : Field) → state.field_max field < 2 ^ unpacked_bits field

abbrev low_of : BkeyFormatState → Field → ℕ
low_of state field = min (state.field_min field) (state.field_max field)

narrow : (field : Field) → unpacked_bits field ≤ 64
narrow inode = omega arith
narrow offset = omega arith
narrow snapshot = omega arith
narrow size = omega arith
narrow version_hi = omega arith
narrow version_lo = omega arith

sum-update :
    (fs : Field → ℕ × ℕ) (field : Field) (v : ℕ × ℕ)
    → sum_bits (update fs field v) all_fields + (fs field).0 ≡ sum_bits fs all_fields + v.0
sum-update fs inode v = omega arith
sum-update fs offset v = omega arith
sum-update fs snapshot v = omega arith
sum-update fs size v = omega arith
sum-update fs version_hi v = omega arith
sum-update fs version_lo v = omega arith

update-cases {ℓ} :
    (P : Field → ℕ × ℕ → Type ℓ) (fs : Field → ℕ × ℕ) (field : Field) (v : ℕ × ℕ)
    → ((g : Field) → P g (fs g))
    → P field v
    → (g : Field) → P g (update fs field v g)
update-cases P fs inode v old new inode = new
update-cases P fs offset v old new offset = new
update-cases P fs snapshot v old new snapshot = new
update-cases P fs size v old new size = new
update-cases P fs version_hi v old new version_hi = new
update-cases P fs version_lo v old new version_lo = new
update-cases P fs _ v old new g = old g

u64 : (field : Field) (v : ℕ) → v < 2 ^ unpacked_bits field → v < 2 ^ 64
u64 inode v h = h
u64 offset v h = h
u64 snapshot v h = omega arith
u64 size v h = omega arith
u64 version_hi v h = omega arith
u64 version_lo v h = h

module _ (state : BkeyFormatState) (hs : IsState state) where
  abbrev AllHold : (Field → ℕ × ℕ) → Type 0
  AllHold fs = (field : Field) → Holds field (low_of state field) (state.field_max field) (fs field)

  first-Holds : AllHold (first_field state)
  unfolding first_field
  first-Holds field =
      let high = state.field_max field in
      let low = low_of state field in
      let bits = bit_length (high - low) in
      let wide =
        (bit_length_fuel_le 64 (high - low) bits (omega (arith, u64 field high (hs field)))).0
          (le_refl _) in
      set-Holds field low high bits low (le_refl _) (omega arith) (hs field)

  round-Holds :
      (fs : Field → ℕ × ℕ) (fields : List Field) (left : ℕ)
      → AllHold fs
      → AllHold (round_fields fs fields left)
  unfolding round_fields
  round-Holds fs [] left h = h
  round-Holds fs (field ∷ fields) left h =
      let bits = (fs field).0 in
      let base = (fs field).1 in
      let extra = (bits + 7) / 8 * 8 - bits in
      let wider : 2 ^ bits ≤ 2 ^ (bits + extra) = pow-le-pow_right (omega arith) (omega arith) in
      let (_, below, above) = h field in
      let new =
        set-Holds field (low_of state field) (state.field_max field) (bits + extra) base below
          (omega arith) (hs field) in
      elim (Bool-cases (leb extra left)) [
        | inl fits ↦ rw fits (
            round-Holds (update fs field (set_format_field field (bits + extra) base)) fields
              (left - extra)
              (update-cases (λ g. Holds g (low_of state g) (state.field_max g)) fs field
                (set_format_field field (bits + extra) base) h new))
        | inr tight ↦ rw tight (round-Holds fs fields left h)
      ]

round-sum :
    (fs : Field → ℕ × ℕ) (fields : List Field) (left : ℕ)
    → sum_bits (round_fields fs fields left) all_fields ≤ sum_bits fs all_fields + left
unfolding round_fields
round-sum fs [] left = omega arith
round-sum fs (field ∷ fields) left =
    let bits = (fs field).0 in
    let extra = (bits + 7) / 8 * 8 - bits in
    let v = set_format_field field (bits + extra) (fs field).1 in
    elim (Bool-cases (leb extra left)) [
      | inl fits ↦
          let inside : extra ≤ left = ground arith in
          let rest = round-sum (update fs field v) fields (left - extra) in
          let small : v.0 ≤ bits + extra = omega arith in
          rw fits (omega (arith, sum-update fs field v))
      | inr tight ↦ rw tight (round-sum fs fields left)
    ]

widths :
    (fs : Field → ℕ × ℕ)
    → ((field : Field) → (fs field).0 ≤ unpacked_bits field)
    → sum_bits fs all_fields ≤ 288
widths fs h = omega (arith, h inode, h offset, h snapshot, h size, h version_hi, h version_lo)

-- The values that a state covers.
abbrev pub Covers : BkeyFormatState → (Field → ℕ) → Type 0
Covers state values =
    (field : Field)
    → (state.field_min field ≤ values field) × (values field ≤ state.field_max field)

module _ (state : BkeyFormatState) (hs : IsState state) where
  abbrev first : Field → ℕ × ℕ
  first = first_field state

  abbrev used : ℕ
  used = 24 + sum_bits first all_fields

  abbrev built : Field → ℕ × ℕ
  built = round_fields first all_fields ((used + 63) / 64 * 64 - used)

  holds : (field : Field) → Holds field (low_of state field) (state.field_max field) (built field)
  holds =
      round-Holds state hs first all_fields ((used + 63) / 64 * 64 - used) (first-Holds state hs)

  pub done-IsFormat : IsFormat (bkey_format_done state)
  unfolding bkey_format_done
  done-IsFormat =
      let most = widths first (λ field. (first-Holds state hs field).0) in
      let sum = round-sum first all_fields ((used + 63) / 64 * 64 - used) in
      record {
        nr_fields_six = refl;
        some_words = omega arith;
        few_words = omega arith;
        narrow = λ field. omega (arith, (holds field).0, narrow field);
        above_header = omega arith;
      }

  pub done-fits :
      (values : Field → ℕ) → Covers state values → AllFit (bkey_format_done state) values all_fields
  unfolding bkey_format_done
  done-fits values covers =
      (fit inode, (fit offset, (fit snapshot, (fit size, (fit version_hi, (fit version_lo, tt))))))
    where
      fit :
          (field : Field)
          → ((built field).1 ≤ values field)
            × (values field < (built field).1 + 2 ^ (built field).0)
      fit field =
          let (low, high) = covers field in
          let (_, below, above) = holds field in (omega arith, omega arith)
