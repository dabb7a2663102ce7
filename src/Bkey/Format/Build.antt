-- ===== src/Bkey/Format/Build.antt =====
-- crates/subvol/src/btree/bkey.rs: the smallest format for the keys that were added to a state.
pub mod Fits
pub mod Keys
use subvol.Prelude.{
  ℕ, zero, suc, ◌+◌, ◌-◌, ◌*◌, ◌/◌, ◌%◌, ◌^◌, Bool, true, false, List, [], ◌∷◌, min, max, ltb, leb,
  ◌==◌, ◌!=◌, ◌&&◌, bit_and, if◌then◌else◌,
}
use subvol.Bkey.Pos.{Bpos}
use subvol.Bkey.Key.{Bkey}
use subvol.Bkey.Format.{
  Field, inode, offset, snapshot, size, version_hi, version_lo, all_fields, BkeyFormat,
  bkey_nr_fields, unpacked_bits, bit_length,
}
use subvol.Bkey.Format.Packed.{bkey_field_values}

pub record BkeyFormatState : Type 0 where
  pub field_min : Field → ℕ
  pub field_max : Field → ℕ

abbrev pub key_packed_bits_start : ℕ
key_packed_bits_start = 24

-- An array with one element replaced
abbrev pub update {ℓ} : {A : Type ℓ} → (Field → A) → Field → A → Field → A
update a inode v inode = v
update a offset v offset = v
update a snapshot v snapshot = v
update a size v size = v
update a version_hi v version_hi = v
update a version_lo v version_lo = v
update a _ v field = a field

abbrev u64_max : Field → ℕ
u64_max _ = 2 ^ 64 - 1

abbrev zeros : Field → ℕ
zeros _ = 0

unfoldable pub bkey_format_init : BkeyFormatState
bkey_format_init = record { field_min = update u64_max size 0; field_max = zeros }

-- `__bkey_format_add`
unfoldable pub bkey_format_add : BkeyFormatState → Field → ℕ → BkeyFormatState
bkey_format_add state field v = record {
  field_min = update state.field_min field (min (state.field_min field) v);
  field_max = update state.field_max field (max (state.field_max field) v);
}

unfoldable pub bkey_format_add_key : BkeyFormatState → Bkey → BkeyFormatState
bkey_format_add_key state k = go all_fields state
  where
    go : List Field → BkeyFormatState → BkeyFormatState
    go [] state = state
    go (field ∷ fields) state = go fields (bkey_format_add state field (bkey_field_values k field))

unfoldable pub bkey_format_add_pos : BkeyFormatState → Bpos → BkeyFormatState
bkey_format_add_pos state p =
    bkey_format_add (bkey_format_add (bkey_format_add state inode p.inode) offset p.offset) snapshot
      p.snapshot

abbrev pub unpacked_max : Field → ℕ
unpacked_max field = 2 ^ unpacked_bits field - 1

-- The bits and the offset that `set_format_field` stores for a field.
abbrev pub set_format_field : Field → ℕ → ℕ → ℕ × ℕ
set_format_field field bits base =
    let narrowed = min bits (unpacked_bits field) in
    (
      narrowed,
      if narrowed == unpacked_bits field
          then 0
          else min base (unpacked_max field - (2 ^ narrowed - 1)),
    )

-- The first loop of `bch2_bkey_format_done`, for one field: `wrapping_sub` takes nothing from
-- below 0, since the least value is at most the greatest one there.
unfoldable pub first_field : BkeyFormatState → Field → ℕ × ℕ
first_field state field =
    let low = min (state.field_min field) (state.field_max field) in
    set_format_field field (bit_length (state.field_max field - low)) low

-- The second loop, over the fields in order: a field is rounded up to whole bytes while bits are left.
unfoldable pub round_fields : (Field → ℕ × ℕ) → List Field → ℕ → (Field → ℕ × ℕ)
round_fields fs [] left = fs
round_fields fs (field ∷ fields) left =
    let (bits, base) = fs field in
    let extra = (bits + 7) / 8 * 8 - bits in
    let rounded = update fs field (set_format_field field (bits + extra) base) in
    if leb extra left
    then round_fields rounded fields (left - extra)
    else round_fields fs fields left

abbrev pub sum_bits : (Field → ℕ × ℕ) → List Field → ℕ
sum_bits fs [] = 0
sum_bits fs (field ∷ fields) = (fs field).0 + sum_bits fs fields

unfoldable pub bkey_format_done : BkeyFormatState → BkeyFormat
bkey_format_done state =
    let first = first_field state in
    let bits = key_packed_bits_start + sum_bits first all_fields in
    let words = (bits + 63) / 64 in
    let fs = round_fields first all_fields (words * 64 - bits) in
    record {
      key_u64s = words % 2 ^ 8;
      nr_fields = bkey_nr_fields;
      bits_per_field = λ field. (fs field).0;
      field_offset = λ field. (fs field).1;
    }

-- The masks of the source are all ones below a power of two, so that `&` is a remainder.
unfoldable pub bkey_format_field_overflows : BkeyFormat → Field → Bool
bkey_format_field_overflows format field =
    let bits = format.bits_per_field field in
    let base = format.field_offset field in
    if ltb (unpacked_bits field) bits
    then true
    else if (bits == unpacked_bits field) && (base != 0)
    then true
    else ltb ((base + (2 ^ bits - 1)) % 2 ^ 64 % 2 ^ unpacked_bits field) base
