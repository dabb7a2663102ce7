-- ===== src/Bkey/Format/Stream/Fields.antt =====
-- A list of fields, written one after the other and read back in the same order.
use subvol.Prelude.{
  ℕ, ◌+◌, ◌-◌, ◌*◌, ◌%◌, ◌^◌, ◌≤◌, ◌<◌, ◌≡◌, refl, ◌∙◌, List, [], ◌∷◌, map, length, arith, ltb, ◌⊎◌,
  inl, inr, Bool-cases, ltb→lt,
}
use subvol.Prelude.Run.{ok, refused, >>=-eq-ok}
use subvol.Prelude.Powers.{bit_length_fuel_le}
use native.Mathlib.Nat.{le_refl, le_trans}
use subvol.Bkey.Format.{
  BkeyFormat, Field, PackState, UnpackState, bit_length, set_inc_field, set_inc_field_bits,
  set_inc_fields, get_inc_field, get_inc_fields,
}
use subvol.Bkey.Format.Stream.Step.{
  Place, IsPlace, Agrees, FitWords, writer, reader, set_inc_field_bits-Wrote,
}

-- The value can be stored in the field: it lies between the field's offset and the greatest value
-- of its width above that.
abbrev pub FitsField : BkeyFormat → Field → ℕ → Type 0
FitsField f field v =
    (f.field_offset field ≤ v) × (v < f.field_offset field + 2 ^ f.bits_per_field field)

abbrev pub AllFit : BkeyFormat → (Field → ℕ) → List Field → Type 0
AllFit f values [] = Unit
AllFit f values (field ∷ fields) = FitsField f field (values field) × AllFit f values fields

abbrev pub total_bits : BkeyFormat → List Field → ℕ
total_bits f [] = 0
total_bits f (field ∷ fields) = f.bits_per_field field + total_bits f fields

-- The tests of `set_inc_field` are that condition.
set_inc_field-cases :
    (f : BkeyFormat) (s : PackState) (field : Field) (v : ℕ)
    → v < 2 ^ 64
    → (FitsField f field v
        × (set_inc_field f s field v ≡ set_inc_field_bits f s field (v - f.field_offset field)))
      ⊎ ((FitsField f field v → ⊥) × (set_inc_field f s field v ≡ refused))
unfolding set_inc_field
set_inc_field-cases f s field v small =
    let base = f.field_offset field in
    let bits = f.bits_per_field field in
    let width = bit_length_fuel_le 64 (v - base) bits (omega arith) in
    elim (Bool-cases (ltb v base)) [
      | inl below ↦ inr (λ h. ground arith, rw below)
      | inr above ↦ elim (Bool-cases (ltb bits (bit_length (v - base)))) [
        | inl long ↦ inr (
          λ h.
              let within : bit_length (v - base) ≤ bits = width.1 (ground arith) in
              absurd (omega (arith, ltb→lt bits (bit_length (v - base)) long)),
          rw (above, long),
        )
        | inr short ↦ inl ((ground arith, ground (arith, width.0)), rw (above, short))
      ]
    ]

-- A read of several fields begins with the read of the first.
pub get_inc_fields-cons :
    (f : BkeyFormat) (words : List ℕ) (field : Field) (fields : List Field) (s : UnpackState)
    (v : ℕ) (vs : List ℕ)
    → get_inc_fields f words (field ∷ fields) s ≡ ok (v ∷ vs)
    → (s' : UnpackState) × (get_inc_field f words s field ≡ ok (v, s'))
      × (get_inc_fields f words fields s' ≡ ok vs)
unfolding get_inc_fields
get_inc_fields-cons f words field fields s v vs h =
    let ((v₁, s₁), e, here) = >>=-eq-ok (get_inc_field f words s field) h in
    let (vs₁, e₁, there) = >>=-eq-ok (get_inc_fields f words fields s₁) e in
    (s₁, ground arith, ground arith)

-- The fields went from the place `g` to the place `g'`.
pub record Stored (f : BkeyFormat) (values : Field → ℕ) (fields : List Field) (g g' : Place)
    : Type 0 where
  pub written : set_inc_fields f values fields (writer g) ≡ ok (writer g')
  pub place : IsPlace g'
  pub moved : 64 * g'.p + g'.c + total_bits f fields ≡ 64 * g.p + g.c
  pub down : g'.p ≤ g.p
  pub words_kept : length g'.words ≡ length g.words
  pub before : (final : List ℕ) → Agrees final g' → Agrees final g
  pub read :
      (final : List ℕ)
      → FitWords final
      → Agrees final g'
      → get_inc_fields f final fields (reader final g) ≡ ok (map values fields)

module _ (f : BkeyFormat) (values : Field → ℕ)
    (wide : (field : Field) → f.bits_per_field field ≤ 64)
    (small : (field : Field) → values field < 2 ^ 64) where
  pub set_inc_fields-cases :
      (fields : List Field) (g : Place)
      → IsPlace g
      → total_bits f fields < 64 * g.p + g.c
      → (AllFit f values fields × ((g' : Place) × Stored f values fields g g'))
        ⊎ ((AllFit f values fields → ⊥) × (set_inc_fields f values fields (writer g) ≡ refused))
  unfolding set_inc_fields get_inc_fields
  set_inc_fields-cases [] g pl room = inl (
    tt,
    (
      g,
      record {
        written = refl;
        place = pl;
        moved = omega arith;
        down = le_refl g.p;
        words_kept = refl;
        before = λ final a. a;
        read = λ final fits a. refl;
      },
    ),
  )
  set_inc_fields-cases (field ∷ fields) g pl room =
      elim (set_inc_field-cases f (writer g) field (values field) (small field)) [
        | inr (unfit, e) ↦ inr (λ h. unfit h.0, rw e)
        | inl (fit, e) ↦
            let (g₁, one) =
              set_inc_field_bits-Wrote f field (values field - f.field_offset field) g.words g.p g.c
                g.h (omega (arith, fit)) (wide field) pl (omega arith) in
            elim (set_inc_fields-cases fields g₁ one.place (omega (arith, one.moved))) [
              | inr (unfit, e₁) ↦ inr (λ h. unfit h.1, rw (e, one.written, e₁))
              | inl (fits, (g₂, more)) ↦ inl (
                (fit, fits),
                (
                  g₂,
                  record {
                    written = rw (e, one.written) more.written;
                    place = more.place;
                    moved = omega (arith, one.moved, more.moved);
                    down = le_trans more.down one.down;
                    words_kept = more.words_kept ∙ one.words_kept;
                    before = λ final a. one.before final (more.before final a);
                    read = λ final fit_words a.
                        let value : (values field - f.field_offset field + f.field_offset field)
                              % 2 ^ 64
                            ≡ values field =
                          omega (arith, fit, small field) in
                        rw
                          (
                            one.read final fit_words (more.before final a),
                            value,
                            more.read final fit_words a,
                          )
                          refl;
                  },
                ),
              )
            ]
      ]
