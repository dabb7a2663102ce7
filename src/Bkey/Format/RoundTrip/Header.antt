-- ===== src/Bkey/Format/RoundTrip/Header.antt =====
-- The header bytes, and the packed fields above them in the same word.
use subvol.Prelude.{
  ℕ, zero, suc, ◌+◌, ◌-◌, ◌*◌, ◌/◌, ◌^◌, ◌≤◌, ◌<◌, ◌≡◌, refl, sym, ap, ◌∙◌, List, [], ◌∷◌, set,
  length, length-set, get_or-set_self, get_or-set_ne, arith,
}
use subvol.Prelude.Powers.{two-pow-add, two-pow-pos}
use native.Mathlib.Nat.{div-div-eq-div-mul, mul-div_cancel, mul-lt-mul_of_pos_right}
use subvol.Bkey.Format.{BkeyFormat, Field, all_fields, bkey_nr_fields}
use subvol.Bkey.Format.Packed.{
  header, set_header, clear_words, packed_u64s, packed_format, packed_type,
}
use subvol.Bkey.Format.Stream.Read.{word_at}
use subvol.Bkey.Format.Stream.Step.{Place, IsPlace, Agrees, FitWords, FitWords-set}
use subvol.Bkey.Format.Stream.Fields.{total_bits}

-- A format that `bch2_bkey_format_done` may build: at most five words, each field at most as wide
-- as its word, and all of them above the three header bytes.
pub record IsFormat (f : BkeyFormat) : Type 0 where
  pub nr_fields_six : f.nr_fields ≡ bkey_nr_fields
  pub some_words : 0 < f.key_u64s
  pub few_words : f.key_u64s ≤ 5
  pub narrow : (field : Field) → f.bits_per_field field ≤ 64
  pub above_header : total_bits f all_fields + 24 ≤ 64 * f.key_u64s

pub length-clear_words : (n : ℕ) (words : List ℕ) → length (clear_words n words) ≡ length words
length-clear_words zero words = refl
length-clear_words (suc n) [] = refl
length-clear_words (suc n) (w ∷ words) = ap suc (length-clear_words n words)

pub FitWords-clear_words :
    (n : ℕ) (words : List ℕ) → FitWords words → FitWords (clear_words n words)
FitWords-clear_words zero words h i = h i
FitWords-clear_words (suc n) [] h i = h i
FitWords-clear_words (suc n) (w ∷ words) h zero = omega arith
FitWords-clear_words (suc n) (w ∷ words) h (suc i) = FitWords-clear_words n words (λ j. h (suc j)) i

under_header :
    (x low c : ℕ) → low < 2 ^ 24 → 24 ≤ c → (x / 2 ^ 24 * 2 ^ 24 + low) / 2 ^ c ≡ x / 2 ^ c
under_header x low c small high =
    let s : c ≡ 24 + (c - 24) = omega arith in
    rw
      (
        s,
        two-pow-add 24 (c - 24),
        ← div-div-eq-div-mul x (2 ^ 24) (2 ^ (c - 24)),
        ← div-div-eq-div-mul (x / 2 ^ 24 * 2 ^ 24 + low) (2 ^ 24) (2 ^ (c - 24)),
      )
      (ap (λ (t : ℕ). t / 2 ^ (c - 24)) (omega arith))

-- The words of a packed key: the last word is stored, then the header.
abbrev pub finished : Place → ℕ → ℕ → ℕ → List ℕ
finished g u64s format type_ = set_header (set g.words g.p (g.h * 2 ^ g.c)) u64s format type_

module _ (g : Place) (pl : IsPlace g) (u64s format type_ : ℕ) (u : u64s < 2 ^ 8)
    (f : format < 2 ^ 8) (t : type_ < 2 ^ 8) where
  abbrev stored : List ℕ
  stored = set g.words g.p (g.h * 2 ^ g.c)

  abbrev low : ℕ
  low = u64s + format * 2 ^ 8 + type_ * 2 ^ 16

  some_word : 0 < length stored
  some_word = omega (arith, pl.inside, length-set g.words g.p (g.h * 2 ^ g.c))

  head : word_at (finished g u64s format type_) 0 ≡ word_at stored 0 / 2 ^ 24 * 2 ^ 24 + low
  head = get_or-set_self stored 0 (header stored / 2 ^ 24 * 2 ^ 24 + low) 0 some_word

  pub header_bytes :
      let k = finished g u64s format type_ in
      (packed_u64s k ≡ u64s) × (packed_format k ≡ format) × (packed_type k ≡ type_)
  header_bytes = (omega (arith, head), omega (arith, head), omega (arith, head))

  room : g.h * 2 ^ g.c < 2 ^ 64
  room =
      let whole : 2 ^ (64 - g.c) * 2 ^ g.c ≡ 2 ^ 64 =
        sym (two-pow-add (64 - g.c) g.c)
        ∙ ap (λ (n : ℕ). 2 ^ n) {y = 64} (omega (arith, pl.free)) in
      rw (← whole) (mul-lt-mul_of_pos_right pl.high (two-pow-pos g.c))

  pub FitWords-finished : FitWords (finished g u64s format type_)
  FitWords-finished =
      let fits = FitWords-set g.words g.p (g.h * 2 ^ g.c) pl.low room in
      FitWords-set stored 0 (header stored / 2 ^ 24 * 2 ^ 24 + low) fits (omega (arith, fits 0))

  not_first : (i : ℕ) → 0 < i → word_at (finished g u64s format type_) i ≡ word_at stored i
  not_first i h = get_or-set_ne stored 0 i _ 0 (λ e. absurd (omega (arith, e, h)))

  last : word_at stored g.p / 2 ^ g.c ≡ g.h
  last =
      rw (get_or-set_self g.words g.p (g.h * 2 ^ g.c) 0 pl.inside)
        (mul-div_cancel g.h (two-pow-pos g.c))

  -- The fields that were written are still there, above the header.
  pub Agrees-finished : 24 ≤ 64 * g.p + g.c → Agrees (finished g u64s format type_) g
  Agrees-finished above = (top g.p refl, rest)
    where
      rest : (i : ℕ) → g.p < i → word_at (finished g u64s format type_) i ≡ word_at g.words i
      rest i h =
          not_first i (omega arith)
          ∙ get_or-set_ne g.words g.p i _ 0 (λ e. absurd (omega (arith, e, h)))

      top : (p : ℕ) → g.p ≡ p → word_at (finished g u64s format type_) g.p / 2 ^ g.c ≡ g.h
      top zero e =
          ap (λ (i : ℕ). word_at (finished g u64s format type_) i / 2 ^ g.c) e
          ∙ ap (λ (x : ℕ). x / 2 ^ g.c) head
          ∙ under_header (word_at stored 0) low g.c (omega arith) (omega arith)
          ∙ ap (λ (i : ℕ). word_at stored i / 2 ^ g.c) (sym e)
          ∙ last
      top (suc p) e = ap (λ (x : ℕ). x / 2 ^ g.c) (not_first g.p (omega (arith, e))) ∙ last
