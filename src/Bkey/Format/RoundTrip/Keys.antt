-- ===== src/Bkey/Format/RoundTrip/Keys.antt =====
-- `bch2_bkey_pack_key` against `__bch2_bkey_unpack_key`.
use subvol.Prelude.{
  ℕ, suc, ◌+◌, ◌-◌, ◌*◌, ◌/◌, ◌%◌, ◌^◌, ◌≤◌, ◌<◌, ◌≡◌, refl, ◌∙◌, [], ◌∷◌, length, arith, inl, inr,
  ◌==◌, leb, ltb, true, false,
}
use subvol.Prelude.Run.{ok, refused, ◌>>=◌}
use native.Mathlib.Nat.{mod-eq_of_lt}
use subvol.Bkey.Key.{Bkey, IsBkey}
use subvol.Bkey.Format.{
  Field, inode, offset, snapshot, size, version_hi, version_lo, all_fields, BkeyFormat, UnpackState,
  pack_state_init, pack_state_finish, unpack_state_init, get_inc_fields, set_inc_fields,
}
use subvol.Bkey.Format.Packed
use subvol.Bkey.Format.Packed.{
  BkeyPacked, clear_words, bkey_field_values, bch2_bkey_pack_key, bch2_bkey_unpack_key, packed_u64s,
  packed_format, packed_type,
}
use subvol.Bkey.Format.Stream.Step.{Place, IsPlace, place_at, writer, reader, FitWords}
use subvol.Bkey.Format.Stream.Read.{word_at}
use subvol.Bkey.Format.Stream.Fields.{AllFit, Stored, set_inc_fields-cases, get_inc_fields-cons}
use subvol.Bkey.Format.RoundTrip.Header.{
  IsFormat, length-clear_words, FitWords-clear_words, finished, header_bytes, FitWords-finished,
  Agrees-finished,
}

-- The output buffer of a packing call: five words of memory.
pub record IsBuffer (out : BkeyPacked) : Type 0 where
  pub five : length out ≡ 5
  pub words_fit : FitWords out

-- A key in the unpacked format whose size leaves room for the packed header.
pub record IsPackable (f : BkeyFormat) (k : Bkey) : Type 0 where
  pub valid : IsBkey k
  pub open valid use *
  pub current : k.format % 2 ^ 7 ≡ 1
  pub has_header : 5 ≤ k.u64s
  pub not_long : f.key_u64s + k.u64s ≤ 260

abbrev pub start : BkeyFormat → BkeyPacked → Place
start f out = place_at (clear_words f.key_u64s out) (f.key_u64s - 1) 64 0

pub start-IsPlace :
    (f : BkeyFormat) (out : BkeyPacked) → IsFormat f → IsBuffer out → IsPlace (start f out)
start-IsPlace f out hf ho = record {
  free = omega arith;
  inside = omega (arith, length-clear_words f.key_u64s out, ho.five, hf.some_words, hf.few_words);
  high = omega arith;
  low = FitWords-clear_words f.key_u64s out ho.words_fit;
}

values-small : (k : Bkey) → IsBkey k → (field : Field) → bkey_field_values k field < 2 ^ 64
unfolding bkey_field_values
values-small k h inode = h.p_fits.inode_fits
values-small k h offset = h.p_fits.offset_fits
values-small k h snapshot = omega (arith, h.p_fits.snapshot_fits)
values-small k h size = omega (arith, h.size_fits)
values-small k h version_hi = omega (arith, h.hi_fits)
values-small k h version_lo = h.lo_fits

-- The reader starts where the writer did.
pub unpack_state_init-start :
    (f : BkeyFormat) (out words : BkeyPacked)
    → IsFormat f
    → FitWords words
    → unpack_state_init f words ≡ ok (reader words (start f out))
unfolding unpack_state_init
unpack_state_init-start f out words hf fits =
    let some_words : (f.key_u64s == 0) ≡ false = ground (arith, hf.some_words) in
    let few : leb f.key_u64s 5 ≡ true = ground (arith, hf.few_words) in
    let back : suc (f.key_u64s - 1) ≡ f.key_u64s = omega (arith, hf.some_words) in
    let whole : word_at words (f.key_u64s - 1) % 2 ^ 64 * 1 ≡ word_at words (f.key_u64s - 1) =
      omega (arith, fits (f.key_u64s - 1)) in
    rw (some_words, few, back, whole) refl

module _ (f : BkeyFormat) (hf : IsFormat f) (words : BkeyPacked) where
  -- Reading the six fields one by one is reading the list of them.
  unpack_fields :
      (s : UnpackState) (a b c d e g : ℕ)
      → leb f.key_u64s (packed_u64s words) ≡ true
      → packed_format words % 2 ^ 7 ≡ 0
      → packed_u64s words ≤ f.key_u64s + 250
      → unpack_state_init f words ≡ ok s
      → get_inc_fields f words all_fields s ≡ ok (a ∷ b ∷ c ∷ d ∷ e ∷ g ∷ [])
      → bch2_bkey_unpack_key f words
        ≡ ok (record {
          u64s = packed_u64s words - f.key_u64s + 5;
          format = 1 + packed_format words / 2 ^ 7 * 2 ^ 7;
          type_ = packed_type words;
          bversion = record { lo = g; hi = e % 2 ^ 32 };
          size = d % 2 ^ 32;
          p = record { snapshot = c % 2 ^ 32; offset = b; inode = a };
        })
  unfolding bch2_bkey_unpack_key
  unpack_fields s a b c d e g fits local short init fields =
      let (s₁, g₁, r₁) = get_inc_fields-cons f words inode _ s a _ fields in
      let (s₂, g₂, r₂) = get_inc_fields-cons f words offset _ s₁ b _ r₁ in
      let (s₃, g₃, r₃) = get_inc_fields-cons f words snapshot _ s₂ c _ r₂ in
      let (s₄, g₄, r₄) = get_inc_fields-cons f words size _ s₃ d _ r₃ in
      let (s₅, g₅, r₅) = get_inc_fields-cons f words version_hi _ s₄ e _ r₄ in
      let (s₆, g₆, r₆) = get_inc_fields-cons f words version_lo _ s₅ g _ r₅ in
      let six : (f.nr_fields == 6) ≡ true = ground (arith, hf.nr_fields_six) in
      let zero_format : (packed_format words % 2 ^ 7 == 0) ≡ true = ground arith in
      let size_ok : leb (packed_u64s words - f.key_u64s + 5) 255 ≡ true = ground arith in
      rw (six, fits, zero_format, size_ok, init, g₁, g₂, g₃, g₄, g₅, g₆) refl

module _ (f : BkeyFormat) (out : BkeyPacked) (k : Bkey) (hf : IsFormat f) (ho : IsBuffer out)
    (hk : IsPackable f k) where
  abbrev u64s : ℕ
  u64s = f.key_u64s + k.u64s - 5

  abbrev format : ℕ
  format = k.format / 2 ^ 7 * 2 ^ 7

  init : pack_state_init f out ≡ ok (record { bits = 64; w = 0; p = f.key_u64s - 1; words = out })
  unfolding pack_state_init
  init =
      let some_words : (f.key_u64s == 0) ≡ false = ground (arith, hf.some_words) in
      let few : leb f.key_u64s 5 ≡ true = ground (arith, hf.few_words) in rw (some_words, few) refl

  -- What is left of `bch2_bkey_pack_key` once its assertions on the arguments hold.
  pack_after_checks : bch2_bkey_pack_key out k f ≡ (
      set_inc_fields f (bkey_field_values k) all_fields (writer (start f out)) >>= λ s.
      pack_state_finish f s >>= λ words. ok (Packed.set_header words u64s format k.type_))
  unfolding bch2_bkey_pack_key
  pack_after_checks =
      let six : (f.nr_fields == 6) ≡ true = ground (arith, hf.nr_fields_six) in
      let current : (k.format % 2 ^ 7 == 1) ≡ true = ground (arith, hk.current) in
      let enough : leb 5 (f.key_u64s + k.u64s) ≡ true = ground (arith, hk.has_header) in
      let few : leb u64s 255 ≡ true = ground (arith, hk.not_long) in
      rw (six, current, init, enough, few) refl

  module _ (g : Place) (stored : Stored f (bkey_field_values k) all_fields (start f out) g) where
    abbrev packed : BkeyPacked
    packed = finished g u64s format k.type_

    abbrev inside : g.p < f.key_u64s
    inside = omega (arith, stored.down, hf.some_words)

    pack_ok : bch2_bkey_pack_key out k f ≡ ok packed
    unfolding pack_state_finish
    pack_ok =
        let test : ltb g.p f.key_u64s ≡ true = ground (arith, inside) in
        rw (pack_after_checks, stored.written, test) refl

    unpack_ok : bch2_bkey_unpack_key f packed ≡ ok k
    unfolding bkey_field_values
    unpack_ok =
        let small_u64s : u64s < 2 ^ 8 = omega (arith, hk.not_long, hf.some_words) in
        let small_format : format < 2 ^ 8 = omega (arith, hk.valid.format_fits) in
        let (e₁, e₂, e₃) =
          header_bytes g stored.place u64s format k.type_ small_u64s small_format
            hk.valid.type_fits in
        let fits =
          FitWords-finished g stored.place u64s format k.type_ small_u64s small_format
            hk.valid.type_fits in
        let above : 24 ≤ 64 * g.p + g.c =
          omega (arith, stored.moved, hf.above_header, hf.some_words) in
        let agrees =
          Agrees-finished g stored.place u64s format k.type_ small_u64s small_format
            hk.valid.type_fits above in
        let read = stored.read packed fits agrees in
        let made =
          unpack_fields f hf packed _ _ _ _ _ _ _ (rw e₁ (ground (arith, hk.has_header)))
            (rw e₂ (omega arith)) (rw e₁ (omega (arith, hk.not_long)))
            (unpack_state_init-start f out packed hf fits) read in
        let same_u64s : packed_u64s packed - f.key_u64s + 5 ≡ k.u64s =
          omega (arith, e₁, hf.some_words, hk.has_header) in
        let same_format : 1 + packed_format packed / 2 ^ 7 * 2 ^ 7 ≡ k.format =
          omega (arith, e₂, hk.current) in
        let same_hi : k.bversion.hi % 2 ^ 32 ≡ k.bversion.hi = mod-eq_of_lt hk.valid.hi_fits in
        let same_size : k.size % 2 ^ 32 ≡ k.size = mod-eq_of_lt hk.valid.size_fits in
        let same_snapshot : k.p.snapshot % 2 ^ 32 ≡ k.p.snapshot =
          mod-eq_of_lt hk.valid.p_fits.snapshot_fits in
        made ∙ λ i. ok (record {
          u64s = same_u64s i;
          format = same_format i;
          type_ = e₃ i;
          bversion = record { lo = k.bversion.lo; hi = same_hi i };
          size = same_size i;
          p = record { snapshot = same_snapshot i; offset = k.p.offset; inode = k.p.inode };
        })

  -- For a well-formed format, a buffer of five words, and a valid key in the current format, with a
  -- u64s of at least 5 that leaves room for the packed header: when every field of the key fits the
  -- format, packing returns a packed key, and unpacking that gives the key back; a key with a field
  -- that does not fit is refused. Neither call panics.
  pub pack-unpack :
      (AllFit f (bkey_field_values k) all_fields
        → (packed : BkeyPacked) × (bch2_bkey_pack_key out k f ≡ ok packed)
          × (bch2_bkey_unpack_key f packed ≡ ok k))
      × ((AllFit f (bkey_field_values k) all_fields → ⊥) → bch2_bkey_pack_key out k f ≡ refused)
  pack-unpack =
      elim (set_inc_fields-cases f (bkey_field_values k) hf.narrow (values-small k hk.valid)
        all_fields (start f out) (start-IsPlace f out hf ho)
        (omega (arith, hf.above_header, hf.some_words))) [
          | inl (fit, (g, stored)) ↦ (
            λ _. (packed g stored, pack_ok g stored, unpack_ok g stored),
            λ unfit. absurd (unfit fit),
          )
          | inr (unfit, e) ↦ (λ fit. absurd (unfit fit), λ _. rw (pack_after_checks, e) refl)
        ]
