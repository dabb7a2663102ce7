-- ===== src/Bkey/Format/Stream/Step.antt =====
-- One field: written at a place of the words, it is read back from that place.
use subvol.Prelude.{
  ℕ, zero, suc, ◌+◌, ◌-◌, ◌*◌, ◌/◌, ◌%◌, ◌^◌, ◌≤◌, ◌<◌, ◌≡◌, refl, sym, ap, ◌∙◌, List, set, length,
  length-set, set-outside, get_or-set_self, get_or-set_ne, arith,
}
use subvol.Prelude.Run.{ok}
use subvol.Prelude.Powers.{two-pow-add, two-pow-pos, div-parts, mod-parts}
use native.Mathlib.Nat.{
  le_refl, div-div-eq-div-mul, mod-lt, div-add-mod', mod-eq_of_lt, div-lt_iff_lt-mul,
}
use native.Mathlib.Decide.{dec_le, dec_lt, ℕ_discrete}
use subvol.Bkey.Format.{
  BkeyFormat, Field, PackState, UnpackState, set_inc_field_bits, get_inc_field, take_bits,
}
use subvol.Bkey.Format.Stream.Read.{word_at, read_at, two_digits, get_short, get_exact, get_long}
use subvol.Bkey.Format.Stream.Write.{write_at, set_short, set_long}

-- A place: `c` free bits in the word `p`, above them the bits `h`.
pub record Place : Type 0 where
  pub words : List ℕ
  pub p : ℕ
  pub c : ℕ
  pub h : ℕ

abbrev pub writer : Place → PackState
writer g = write_at g.words g.p g.c g.h

abbrev pub reader : List ℕ → Place → UnpackState
reader final g = read_at final g.p g.c

abbrev pub FitWords : List ℕ → Type 0
FitWords final = (i : ℕ) → word_at final i < 2 ^ 64

pub FitWords-set :
    (words : List ℕ) (i x : ℕ) → FitWords words → x < 2 ^ 64 → FitWords (set words i x)
FitWords-set words i x fits small j = elim (ℕ_discrete i j) [
  | no apart ↦ rw (get_or-set_ne words i j x 0 apart) (fits j)
  | yes same ↦ elim (dec_lt i (length words)) [
    | yes inside ↦ rw (← same, get_or-set_self words i x 0 inside) small
    | no outside ↦ rw (set-outside words i x (omega arith)) (fits j)
  ]
]

-- The finished words hold what has been written before the place.
abbrev pub Agrees : List ℕ → Place → Type 0
Agrees final g =
    (word_at final g.p / 2 ^ g.c ≡ g.h) × ((i : ℕ) → g.p < i → word_at final i ≡ word_at g.words i)

pub record IsPlace (g : Place) : Type 0 where
  pub free : g.c ≤ 64
  pub inside : g.p < length g.words
  pub high : g.h < 2 ^ (64 - g.c)
  pub low : FitWords g.words

-- The field of width `b` went from the place `g` to the place `g'`.
pub record Wrote (f : BkeyFormat) (field : Field) (v : ℕ) (g g' : Place) : Type 0 where
  pub written : set_inc_field_bits f (writer g) field v ≡ ok (writer g')
  pub place : IsPlace g'
  pub moved : 64 * g'.p + g'.c + f.bits_per_field field ≡ 64 * g.p + g.c
  pub down : g'.p ≤ g.p
  pub words_kept : length g'.words ≡ length g.words
  pub before : (final : List ℕ) → Agrees final g' → Agrees final g
  pub read :
      (final : List ℕ)
      → FitWords final
      → Agrees final g'
      → get_inc_field f final (reader final g) field
        ≡ ok ((v + f.field_offset field) % 2 ^ 64, reader final g')

abbrev pub place_at : List ℕ → ℕ → ℕ → ℕ → Place
place_at words p c h = record { words = words; p = p; c = c; h = h }

module _ (f : BkeyFormat) (field : Field) (v : ℕ) (words : List ℕ) where
  abbrev base : ℕ
  base = f.field_offset field

  abbrev Reads : List ℕ → UnpackState → UnpackState → Type 0
  Reads final u u' = get_inc_field f final u field ≡ ok ((v + base) % 2 ^ 64, u')

  -- A field of no bits, at a place in the middle of a word and at its end.
  read_empty :
      (final : List ℕ) (p c : ℕ)
      → f.bits_per_field field ≡ 0
      → v ≡ 0
      → c ≤ 64
      → FitWords final
      → Reads final (read_at final p c) (read_at final p c)
  unfolding get_inc_field take_bits
  read_empty final p zero width nothing free fits =
      let w = word_at final (p - 1) in
      let value : w / 2 / 2 ^ 63 ≡ 0 = omega (arith, fits (p - 1)) in
      let stay : w * 1 % 2 ^ 64 ≡ w = omega (arith, fits (p - 1)) in
      rw (width, nothing, value, stay) refl
  read_empty final p (suc c) width nothing free fits =
      let whole : suc c ≡ suc (c + 0) = omega arith in
      let value : word_at final p / 2 ^ suc c % 2 ^ 0 ≡ 0 =
        omega (arith, mod-lt (word_at final p / 2 ^ suc c) (two-pow-pos 0)) in
      rw nothing (rw value at (rw (← whole) at (get_short f final field p c 0 width (omega arith))))

  Wrote-empty :
      (p c h : ℕ)
      → f.bits_per_field field ≡ 0
      → v ≡ 0
      → IsPlace (place_at words p c h)
      → Wrote f field v (place_at words p c h) (place_at words p c h)
  unfolding set_inc_field_bits
  Wrote-empty p c h width nothing pl = record {
    written = rw width;
    place = pl;
    moved = omega arith;
    down = le_refl p;
    words_kept = refl;
    before = λ final a. a;
    read = λ final fits a. read_empty final p c width nothing pl.free fits;
  }

  -- A field that fits the word.
  read_short :
      (final : List ℕ) (p d b h : ℕ)
      → f.bits_per_field field ≡ suc b
      → v < 2 ^ suc b
      → d + suc b ≤ 64
      → suc b < 64 * p + (d + suc b)
      → FitWords final
      → word_at final p / 2 ^ d ≡ h * 2 ^ suc b + v
      → Reads final (read_at final p (d + suc b)) (read_at final p d)
  read_short final zero zero b h width small free room fits e = absurd (omega arith)
  read_short final (suc p) zero b h width small free room fits e =
      let whole : word_at final (suc p) ≡ h * 2 ^ suc b + v = omega arith in
      let value : word_at final (suc p) % 2 ^ suc b ≡ v =
        rw whole (mod-parts h (2 ^ suc b) v small) in
      let c : 0 + suc b ≡ suc b = omega arith in
      rw (c, ← value) (get_exact f final field p b width (omega arith) (fits p))
  read_short final p (suc d) b h width small free room fits e =
      let value : word_at final p / 2 ^ suc d % 2 ^ suc b ≡ v =
        rw e (mod-parts h (2 ^ suc b) v small) in
      let c : suc d + suc b ≡ suc (d + suc b) = omega arith in
      rw (c, ← value) (get_short f final field p d (suc b) width (omega arith))

  Wrote-short :
      (p d b h : ℕ)
      → f.bits_per_field field ≡ suc b
      → v < 2 ^ suc b
      → IsPlace (place_at words p (d + suc b) h)
      → suc b < 64 * p + (d + suc b)
      → Wrote f field v (place_at words p (d + suc b) h) (place_at words p d (h * 2 ^ suc b + v))
  Wrote-short p d b h width small pl room = record {
    written = set_short f words field p d b h v width pl.free small;
    place = record {
      free = omega (arith, pl.free);
      inside = pl.inside;
      high = higher;
      low = pl.low;
    };
    moved = omega arith;
    down = le_refl p;
    words_kept = refl;
    before = λ final a. (
      rw (two-pow-add d (suc b), ← div-div-eq-div-mul (word_at final p) (2 ^ d) (2 ^ suc b), a.0)
          (div-parts h (2 ^ suc b) v small),
      a.1,
    );
    read = λ final fits a. read_short final p d b h width small pl.free room fits a.0;
  }
    where
      higher : h * 2 ^ suc b + v < 2 ^ (64 - d)
      higher =
          let s : 64 - d ≡ suc b + (64 - (d + suc b)) = omega (arith, pl.free) in
          rw (s, two-pow-add (suc b) (64 - (d + suc b))) (two_digits h v _ _ pl.high small)

  -- A field that goes over to the next word.
  read_long :
      (final : List ℕ) (p c b d h : ℕ)
      → f.bits_per_field field ≡ c + suc b
      → d + suc b ≡ 64
      → c + suc b ≤ 64
      → c + suc b < 64 * suc p + c
      → v < 2 ^ (c + suc b)
      → FitWords final
      → word_at final (suc p) ≡ h * 2 ^ c + v / 2 ^ suc b
      → word_at final p / 2 ^ d ≡ v % 2 ^ suc b
      → Reads final (read_at final (suc p) c) (read_at final p d)
  read_long final p zero b d h width whole narrow room small fits upper lower =
      let here : suc p - 1 ≡ p = omega arith in
      let shown : word_at final p % 2 ^ 64 * 1 ≡ word_at final p = omega (arith, fits p) in
      let narrow' : 0 + suc b ≡ suc b = omega arith in
      let fit : v < 2 ^ suc b = rw narrow' at small in
      let value : word_at final p / 2 ^ d ≡ 0 * 2 ^ suc b + v = omega (arith, mod-eq_of_lt fit) in
      let start : read_at final (suc p) 0 ≡ read_at final p 64 = rw (here, shown) in
      rw start (
        rw whole at
          (read_short final p d b 0 (omega arith) fit (omega arith) (omega arith) fits value))
  read_long final p (suc c) b zero h width whole narrow room small fits upper lower =
      absurd (omega arith)
  read_long final p (suc c) b (suc d) h width whole narrow room small fits upper lower =
      let high : v / 2 ^ suc b < 2 ^ suc c =
        (div-lt_iff_lt-mul (two-pow-pos (suc b))).1 (rw (← two-pow-add (suc c) (suc b)) small) in
      let part : word_at final (suc p) % 2 ^ suc c ≡ v / 2 ^ suc b =
        rw upper (mod-parts h (2 ^ suc c) (v / 2 ^ suc b) high) in
      let value : word_at final (suc p) % 2 ^ suc c * 2 ^ suc b + word_at final p / 2 ^ suc d ≡ v =
        rw (part, lower) (div-add-mod' v (2 ^ suc b)) in
      rw (← value) (get_long f final field p c b d width (omega arith) whole (fits p))

  Wrote-long :
      (p c b d h : ℕ)
      → f.bits_per_field field ≡ c + suc b
      → d + suc b ≡ 64
      → c + suc b ≤ 64
      → v < 2 ^ (c + suc b)
      → IsPlace (place_at words (suc p) c h)
      → c + suc b < 64 * suc p + c
      → Wrote f field v
          (place_at words (suc p) c h)
          (place_at (set words (suc p) (h * 2 ^ c + v / 2 ^ suc b)) p d (v % 2 ^ suc b))
  Wrote-long p c b d h width whole narrow small pl room = record {
    written = set_long f words field p c b d h v width whole small;
    place = record {
      free = omega arith;
      inside = omega (arith, pl.inside, length-set words (suc p) (h * 2 ^ c + v / 2 ^ suc b));
      high = started;
      low = FitWords-set words (suc p) (h * 2 ^ c + v / 2 ^ suc b) pl.low finished;
    };
    moved = omega arith;
    down = omega arith;
    words_kept = length-set words (suc p) _;
    before = λ final a. (
      rw (upper final a) (div-parts h (2 ^ c) (v / 2 ^ suc b) high),
      λ i above.
          a.1 i (omega arith)
          ∙ get_or-set_ne words (suc p) i _ 0 (λ e. absurd (omega (arith, e, above))),
    );
    read = λ final fits a.
        read_long final p c b d h width whole narrow room small fits (upper final a) a.0;
  }
    where
      high : v / 2 ^ suc b < 2 ^ c
      high = (div-lt_iff_lt-mul (two-pow-pos (suc b))).1 (rw (← two-pow-add c (suc b)) small)

      started : v % 2 ^ suc b < 2 ^ (64 - d)
      started = let s : 64 - d ≡ suc b = omega arith in rw s (mod-lt v (two-pow-pos (suc b)))

      finished : h * 2 ^ c + v / 2 ^ suc b < 2 ^ 64
      finished =
          rw (← whole_word) (two_digits h (v / 2 ^ suc b) (2 ^ c) (2 ^ (64 - c)) pl.high high)
        where
          whole_word : 2 ^ c * 2 ^ (64 - c) ≡ 2 ^ 64
          whole_word =
              sym (two-pow-add c (64 - c)) ∙ ap (λ (t : ℕ). 2 ^ t) {y = 64} (omega (arith, pl.free))

      upper :
          (final : List ℕ)
          → Agrees final
              (place_at (set words (suc p) (h * 2 ^ c + v / 2 ^ suc b)) p d (v % 2 ^ suc b))
          → word_at final (suc p) ≡ h * 2 ^ c + v / 2 ^ suc b
      upper final a = a.1 (suc p) (omega arith) ∙ get_or-set_self words (suc p) _ 0 pl.inside

  -- Every field that fits its width is written, with room for it and for one bit more.
  pub set_inc_field_bits-Wrote :
      (p c h : ℕ)
      → v < 2 ^ f.bits_per_field field
      → f.bits_per_field field ≤ 64
      → IsPlace (place_at words p c h)
      → f.bits_per_field field < 64 * p + c
      → (g : Place) × Wrote f field v (place_at words p c h) g
  set_inc_field_bits-Wrote p c h small wide pl room =
      by_width (f.bits_per_field field) p c refl pl room
    where
      over :
          (b p c r : ℕ)
          → f.bits_per_field field ≡ suc b
          → suc b ≡ c + suc r
          → IsPlace (place_at words p c h)
          → suc b < 64 * p + c
          → (g : Place) × Wrote f field v (place_at words p c h) g
      over b zero c r e s pl room = absurd (omega arith)
      over b (suc p) c r e s pl room = (
        _,
        Wrote-long p c r (63 - r) h (e ∙ s) (omega arith) (omega arith) (rw (e ∙ s) at small) pl
            (omega arith),
      )

      by_width :
          (b p c : ℕ)
          → f.bits_per_field field ≡ b
          → IsPlace (place_at words p c h)
          → f.bits_per_field field < 64 * p + c
          → (g : Place) × Wrote f field v (place_at words p c h) g
      by_width zero p c e pl room =
          (_, Wrote-empty p c h e (let few : v < 2 ^ 0 = rw e at small in omega arith) pl)
      by_width (suc b) p c e pl room = elim (dec_le (suc b) c) [
        | yes within ↦
            let split : c ≡ (c - suc b) + suc b = omega arith in
            rw split
              (_, Wrote-short p (c - suc b) b h e (rw e at small) (rw split at pl) (omega arith))
        | no beyond ↦ over b p c (b - c) e (omega arith) pl (omega arith)
      ]
