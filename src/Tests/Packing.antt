-- ===== src/Tests/Packing.antt =====
-- The packed formats of crates/subvol/src/btree/bkey.rs.
use subvol.Prelude.{ℕ, zero, suc, ◌^◌, ◌≤◌, ◌<◌, ◌≡◌, refl, [], ◌∷◌, get_or, arith}
use subvol.Prelude.Run.{ok, refused}
use subvol.Bkey.Pos.{Bpos, spos}
use subvol.Bkey.Key.{Bkey}
use subvol.Bkey.Format.{
  BkeyFormat, Field, all_fields, inode, offset, snapshot, size, version_hi, version_lo,
}
use subvol.Bkey.Format.Packed.{
  pos_values, bch2_bkey_pack_pos_exact, bkey_unpack_pos, BkeyPacked, bkey_field_values,
  bch2_bkey_pack_key, bch2_bkey_unpack_key,
}
use subvol.Bkey.Format.Stream.Fields.{AllFit}
use subvol.Bkey.Format.RoundTrip.Header.{IsFormat}
use subvol.Bkey.Format.Build.{bkey_format_done}
use subvol.Bkey.Format.Build.Keys.{add_all, EachFits, bkey_format_done-fits}
use subvol.Bkey.Format.RoundTrip.Positions.{pos_fields, pack_pos_exact-unpack_pos}
use subvol.Bkey.Format.RoundTrip.Keys.{IsBuffer, IsPackable, pack-unpack}

-- Two words; the offset field goes over from the first to the second.
abbrev widths : Field → ℕ
widths inode = 40
widths offset = 40
widths snapshot = 8
widths size = 0
widths version_hi = 0
widths version_lo = 7

abbrev offsets : Field → ℕ
offsets inode = 100
offsets _ = 0

abbrev two_words : BkeyFormat
two_words = record { key_u64s = 2; nr_fields = 6; bits_per_field = widths; field_offset = offsets }

abbrev buffer : BkeyPacked
buffer = 17 ∷ 18 ∷ 19 ∷ 20 ∷ 21 ∷ []

abbrev key : Bkey
key = record {
  u64s = 7;
  format = 1;
  type_ = 3;
  bversion = record { lo = 99; hi = 0 };
  size = 0;
  p = spos 4096 123456789 5;
}

two_words-IsFormat : IsFormat two_words
two_words-IsFormat = record {
  nr_fields_six = refl;
  some_words = omega arith;
  few_words = omega arith;
  narrow = narrow;
  above_header = omega arith;
}
  where
    narrow : (field : Field) → widths field ≤ 64
    narrow inode = omega arith
    narrow offset = omega arith
    narrow snapshot = omega arith
    narrow size = omega arith
    narrow version_hi = omega arith
    narrow version_lo = omega arith

buffer-IsBuffer : IsBuffer buffer
buffer-IsBuffer = record { five = refl; words_fit = fits }
  where
    fits : (i : ℕ) → get_or buffer i 0 < 2 ^ 64
    fits zero = omega arith
    fits (suc zero) = omega arith
    fits (suc (suc zero)) = omega arith
    fits (suc (suc (suc zero))) = omega arith
    fits (suc (suc (suc (suc zero)))) = omega arith
    fits (suc (suc (suc (suc (suc i))))) = omega arith

key-IsPackable : IsPackable two_words key
key-IsPackable = omega arith

pack-unpack_example :
    (AllFit two_words (bkey_field_values key) all_fields
      → (packed : BkeyPacked) × (bch2_bkey_pack_key buffer key two_words ≡ ok packed)
        × (bch2_bkey_unpack_key two_words packed ≡ ok key))
    × ((AllFit two_words (bkey_field_values key) all_fields → ⊥)
        → bch2_bkey_pack_key buffer key two_words ≡ refused)
pack-unpack_example =
    pack-unpack two_words buffer key two_words-IsFormat buffer-IsBuffer key-IsPackable

bkey_format_done-fits_example :
    IsFormat (bkey_format_done (add_all (key ∷ [])))
    × EachFits (bkey_format_done (add_all (key ∷ []))) (key ∷ [])
bkey_format_done-fits_example = bkey_format_done-fits (key ∷ []) (omega arith, tt)

abbrev position : Bpos
position = spos 4096 123456789 5

pack_pos_exact-unpack_pos_example :
    (AllFit two_words (pos_values position) pos_fields
      → (packed : BkeyPacked) × (bch2_bkey_pack_pos_exact buffer position two_words ≡ ok packed)
        × (bkey_unpack_pos two_words packed ≡ ok position))
    × ((AllFit two_words (pos_values position) pos_fields → ⊥)
        → bch2_bkey_pack_pos_exact buffer position two_words ≡ refused)
pack_pos_exact-unpack_pos_example =
    pack_pos_exact-unpack_pos two_words buffer position two_words-IsFormat buffer-IsBuffer
      (omega arith)
