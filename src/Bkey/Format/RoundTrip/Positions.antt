-- ===== src/Bkey/Format/RoundTrip/Positions.antt =====
-- `__bch2_bkey_pack_pos_exact` against `__bkey_unpack_pos`.
use subvol.Prelude.{
  ℕ, ◌+◌, ◌*◌, ◌%◌, ◌^◌, ◌≤◌, ◌<◌, ◌≡◌, refl, ◌∙◌, List, [], ◌∷◌, arith, inl, inr, ◌==◌, leb, ltb,
  Bool-cases, true, false,
}
use subvol.Prelude.Run.{ok, refused, ◌>>=◌}
use native.Mathlib.Nat.{mod-eq_of_lt}
use subvol.Bkey.Pos.{Bpos, IsBpos, spos}
use subvol.Bkey.Format.{
  Field, inode, offset, snapshot, size, version_hi, version_lo, BkeyFormat, UnpackState,
  pack_state_init, pack_state_finish, unpack_state_init, get_inc_fields, set_inc_fields,
}
use subvol.Bkey.Format.Packed
use subvol.Bkey.Format.Packed.{
  BkeyPacked, clear_words, pos_values, below_offsets, bch2_bkey_pack_pos_exact, bkey_unpack_pos,
  packed_u64s, packed_format,
}
use subvol.Bkey.Format.Stream.Step.{Place, writer}
use subvol.Bkey.Format.Stream.Fields.{AllFit, Stored, set_inc_fields-cases, get_inc_fields-cons}
use subvol.Bkey.Format.RoundTrip.Header.{
  IsFormat, finished, header_bytes, FitWords-finished, Agrees-finished,
}
use subvol.Bkey.Format.RoundTrip.Keys.{IsBuffer, start, start-IsPlace, unpack_state_init-start}

abbrev pub pos_fields : List Field
pos_fields = inode ∷ offset ∷ snapshot ∷ []

module _ (f : BkeyFormat) (hf : IsFormat f) (words : BkeyPacked) where
  unpack_three :
      (s : UnpackState) (a b c : ℕ)
      → packed_u64s words ≡ f.key_u64s
      → packed_format words ≡ 0
      → unpack_state_init f words ≡ ok s
      → get_inc_fields f words pos_fields s ≡ ok (a ∷ b ∷ c ∷ [])
      → bkey_unpack_pos f words ≡ ok (spos a b (c % 2 ^ 32))
  unfolding bkey_unpack_pos
  unpack_three s a b c size_ format_ init fields =
      let (s₁, g₁, r₁) = get_inc_fields-cons f words inode _ s a _ fields in
      let (s₂, g₂, r₂) = get_inc_fields-cons f words offset _ s₁ b _ r₁ in
      let (s₃, g₃, r₃) = get_inc_fields-cons f words snapshot _ s₂ c _ r₂ in
      let six : (f.nr_fields == 6) ≡ true = ground (arith, hf.nr_fields_six) in
      let fits : leb f.key_u64s (packed_u64s words) ≡ true = ground arith in
      let zero_format : (packed_format words % 2 ^ 7 == 0) ≡ true = ground arith in
      rw (six, fits, zero_format, init, g₁, g₂, g₃) refl

module _ (f : BkeyFormat) (out : BkeyPacked) (p : Bpos) (hf : IsFormat f) (ho : IsBuffer out)
    (hp : IsBpos p) where
  small : (field : Field) → pos_values p field < 2 ^ 64
  small inode = hp.inode_fits
  small offset = hp.offset_fits
  small snapshot = omega (arith, hp.snapshot_fits)
  small size = omega (arith, hp.snapshot_fits)
  small version_hi = omega (arith, hp.snapshot_fits)
  small version_lo = omega (arith, hp.snapshot_fits)

  pack_after_tests :
      below_offsets f p ≡ false
      → bch2_bkey_pack_pos_exact out p f ≡ (
          set_inc_fields f (pos_values p) pos_fields (writer (start f out)) >>= λ s.
          pack_state_finish f s >>= λ words. ok (Packed.set_header words f.key_u64s 0 0))
  unfolding bch2_bkey_pack_pos_exact pack_state_init
  pack_after_tests above =
      let some_words : (f.key_u64s == 0) ≡ false = ground (arith, hf.some_words) in
      let few : leb f.key_u64s 5 ≡ true = ground (arith, hf.few_words) in
      rw (some_words, few, above) refl

  pack_below : below_offsets f p ≡ true → bch2_bkey_pack_pos_exact out p f ≡ refused
  unfolding bch2_bkey_pack_pos_exact pack_state_init
  pack_below below =
      let some_words : (f.key_u64s == 0) ≡ false = ground (arith, hf.some_words) in
      let few : leb f.key_u64s 5 ≡ true = ground (arith, hf.few_words) in
      rw (some_words, few, below) refl

  module _ (g : Place) (stored : Stored f (pos_values p) pos_fields (start f out) g) where
    abbrev packed : BkeyPacked
    packed = finished g f.key_u64s 0 0

    pack_ok : below_offsets f p ≡ false → bch2_bkey_pack_pos_exact out p f ≡ ok packed
    unfolding pack_state_finish
    pack_ok above =
        let test : ltb g.p f.key_u64s ≡ true = ground (arith, stored.down, hf.some_words) in
        rw (pack_after_tests above, stored.written, test) refl

    unpack_ok : bkey_unpack_pos f packed ≡ ok p
    unpack_ok =
        let u : f.key_u64s < 2 ^ 8 = omega (arith, hf.few_words) in
        let z : 0 < 2 ^ 8 = omega arith in
        let (e₁, e₂, e₃) = header_bytes g stored.place f.key_u64s 0 0 u z z in
        let fits = FitWords-finished g stored.place f.key_u64s 0 0 u z z in
        let above : 24 ≤ 64 * g.p + g.c =
          omega (arith, stored.moved, hf.above_header, hf.some_words) in
        let agrees = Agrees-finished g stored.place f.key_u64s 0 0 u z z above in
        let same : p.snapshot % 2 ^ 32 ≡ p.snapshot = mod-eq_of_lt hp.snapshot_fits in
        unpack_three f hf packed _ _ _ _ e₁ e₂ (unpack_state_init-start f out packed hf fits)
          (stored.read packed fits agrees)
        ∙ λ i. ok (spos p.inode p.offset (same i))

  fit-above : AllFit f (pos_values p) pos_fields → below_offsets f p ≡ false
  fit-above (i, (o, (s, _))) = ground arith

  -- For a well-formed format, packing a valid position exactly returns a packed key just when its
  -- three fields fit the format, and unpacking that key gives the position back. A position with a
  -- field that does not fit is refused. Neither call panics.
  pub pack_pos_exact-unpack_pos :
      (AllFit f (pos_values p) pos_fields
        → (packed : BkeyPacked) × (bch2_bkey_pack_pos_exact out p f ≡ ok packed)
          × (bkey_unpack_pos f packed ≡ ok p))
      × ((AllFit f (pos_values p) pos_fields → ⊥) → bch2_bkey_pack_pos_exact out p f ≡ refused)
  pack_pos_exact-unpack_pos =
      elim (set_inc_fields-cases f (pos_values p) hf.narrow small pos_fields (start f out)
        (start-IsPlace f out hf ho) (omega (arith, hf.above_header, hf.some_words))) [
          | inl (fit, (g, stored)) ↦ (
            λ _. (packed g stored, pack_ok g stored (fit-above fit), unpack_ok g stored),
            λ unfit. absurd (unfit fit),
          )
          | inr (unfit, e) ↦ (
            λ fit. absurd (unfit fit),
            λ _. elim (Bool-cases (below_offsets f p)) [
              | inl below ↦ pack_below below
              | inr above ↦ rw (pack_after_tests above, e) refl
            ],
          )
        ]
