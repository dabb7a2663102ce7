-- ===== src/Prelude/Xor.antt =====
-- The algebra of `^`, and what it does to the upper and the lower bits of a word.
use Prim.Native.Nat.{ℕ, zero, suc, ◌+◌, ◌*◌, ◌/◌, ◌%◌, ◌^◌, ◌≤◌, ◌<◌, bit_xor, differ}
use mathlib.Core.Path.{◌≡◌, refl, sym, ap, ◌∙◌}
use native.Mathlib.Nat.{pow-suc, div-add-mod', mod-lt}
use native.Mathlib.Omega.{arith}
use subvol.Prelude.Powers.{two-pow-pos, div-parts, mod-parts}
use subvol.Prelude.Bits.{bit_xor_step, zero-bit_xor}

differ_digit : (p q : ℕ) → p < 2 → q < 2 → differ p q ≡ (p + q) % 2
differ_digit zero q hp hq = omega arith
differ_digit (suc p) zero hp hq = omega arith
differ_digit (suc p) (suc q) hp hq = omega (arith, differ_digit p q (omega arith) (omega arith))

-- The lowest digit and the others.
pub xor_digit : (x y : ℕ) → bit_xor x y ≡ bit_xor (x / 2) (y / 2) * 2 + (x + y) % 2
xor_digit x y =
    omega (arith, bit_xor_step x y, differ_digit (x % 2) (y % 2) (omega arith) (omega arith))

below_power : (n : ℕ) → n < 2 ^ n
below_power zero = omega arith
below_power (suc n) = omega (arith, below_power n, pow-suc 2 n)

below_more : (n m : ℕ) → 2 ^ n ≤ 2 ^ (n + m)
below_more n zero = ap_le (omega arith)
  where
    ap_le : n + 0 ≡ n → 2 ^ n ≤ 2 ^ (n + 0)
    ap_le e = rw e (omega arith)
below_more n (suc m) =
    let e : n + suc m ≡ suc (n + m) = omega arith in
    rw e (omega (arith, below_more n m, pow-suc 2 (n + m)))

pub bit_xor_lt : (n x y : ℕ) → x < 2 ^ n → y < 2 ^ n → bit_xor x y < 2 ^ n
bit_xor_lt zero x y hx hy =
    let x_is : x ≡ 0 = omega arith in rw x_is (omega (arith, zero-bit_xor y))
bit_xor_lt (suc n) x y hx hy =
    let power = pow-suc 2 n in
    omega (arith, xor_digit x y, bit_xor_lt n (x / 2) (y / 2) (omega arith) (omega arith), power)

comm_digits : (n x y : ℕ) → x < 2 ^ n → y < 2 ^ n → bit_xor x y ≡ bit_xor y x
comm_digits zero x y hx hy = let x_is : x ≡ y = omega arith in rw x_is refl
comm_digits (suc n) x y hx hy =
    let power = pow-suc 2 n in
    omega (
      arith,
      xor_digit x y,
      xor_digit y x,
      comm_digits n (x / 2) (y / 2) (omega arith) (omega arith),
    )

pub bit_xor_comm : (x y : ℕ) → bit_xor x y ≡ bit_xor y x
bit_xor_comm x y =
    let e : y + x ≡ x + y = omega arith in
    comm_digits (x + y) x y (omega (arith, below_power x, below_more x y))
      (rw (← e) (omega (arith, below_power y, below_more y x)))

half_digits : (x y : ℕ) → bit_xor x y / 2 ≡ bit_xor (x / 2) (y / 2)
half_digits x y = omega (arith, xor_digit x y)

assoc_digits : (n x y z : ℕ) → x < 2 ^ n → bit_xor (bit_xor x y) z ≡ bit_xor x (bit_xor y z)
assoc_digits zero x y z hx =
    let x_is : x ≡ 0 = omega arith in rw (x_is, zero-bit_xor y, zero-bit_xor (bit_xor y z)) refl
assoc_digits (suc n) x y z hx =
    let power = pow-suc 2 n in
    let ih = assoc_digits n (x / 2) (y / 2) (z / 2) (omega arith) in
    let left : bit_xor (bit_xor x y / 2) (z / 2) ≡ bit_xor (bit_xor (x / 2) (y / 2)) (z / 2) =
      rw (half_digits x y) refl in
    let right : bit_xor (x / 2) (bit_xor y z / 2) ≡ bit_xor (x / 2) (bit_xor (y / 2) (z / 2)) =
      rw (half_digits y z) refl in
    omega (
      arith,
      xor_digit x y,
      xor_digit y z,
      xor_digit (bit_xor x y) z,
      xor_digit x (bit_xor y z),
      ih,
      left,
      right,
    )

pub bit_xor_assoc : (x y z : ℕ) → bit_xor (bit_xor x y) z ≡ bit_xor x (bit_xor y z)
bit_xor_assoc x y z = assoc_digits x x y z (below_power x)

pub bit_xor-zero : (x : ℕ) → bit_xor x 0 ≡ x
bit_xor-zero x = bit_xor_comm x 0 ∙ zero-bit_xor x

-- Two exclusive ors change places within.
pub bit_xor_swap :
    (a b c d : ℕ) → bit_xor (bit_xor a b) (bit_xor c d) ≡ bit_xor (bit_xor a c) (bit_xor b d)
bit_xor_swap a b c d =
    bit_xor_assoc a b (bit_xor c d)
    ∙ ap (λ (t : ℕ). bit_xor a t)
        (sym (bit_xor_assoc b c d)
          ∙ ap (λ (t : ℕ). bit_xor t d) (bit_xor_comm b c)
          ∙ bit_xor_assoc c b d)
    ∙ sym (bit_xor_assoc a c (bit_xor b d))

-- The upper and the lower parts of the words are taken apart.
pub bit_xor_split :
    (w high high' low low' : ℕ)
    → low < 2 ^ w
    → low' < 2 ^ w
    → bit_xor (high * 2 ^ w + low) (high' * 2 ^ w + low')
      ≡ bit_xor high high' * 2 ^ w + bit_xor low low'
bit_xor_split zero high high' low low' h h' =
    let zero_ : low ≡ 0 = omega arith in
    let zero' : low' ≡ 0 = omega arith in
    let same : high * 2 ^ 0 + 0 ≡ high = omega arith in
    let same' : high' * 2 ^ 0 + 0 ≡ high' = omega arith in
    rw (zero_, zero', same, same') (omega arith)
bit_xor_split (suc w) high high' low low' h h' =
    let power = pow-suc 2 w in
    let x = high * 2 ^ suc w + low in
    let y = high' * 2 ^ suc w + low' in
    let scaled = ap (λ (t : ℕ). high * t) power in
    let scaled' = ap (λ (t : ℕ). high' * t) power in
    let half : x / 2 ≡ high * 2 ^ w + low / 2 = ground (arith, power, scaled) in
    let half' : y / 2 ≡ high' * 2 ^ w + low' / 2 = ground (arith, power, scaled') in
    let even : (x + y) % 2 ≡ (low + low') % 2 = ground (arith, power, scaled, scaled') in
    let ih = bit_xor_split w high high' (low / 2) (low' / 2) (omega arith) (omega arith) in
    let parts : bit_xor (x / 2) (y / 2)
        ≡ bit_xor high high' * 2 ^ w + bit_xor (low / 2) (low' / 2) =
      rw (half, half') ih in
    let scaled_xor = ap (λ (t : ℕ). bit_xor high high' * t) power in
    ground (arith, xor_digit x y, parts, even, xor_digit low low', scaled_xor, power)

module _ (w : ℕ) where
  split_word : (x : ℕ) → (x ≡ x / 2 ^ w * 2 ^ w + x % 2 ^ w) × (x % 2 ^ w < 2 ^ w)
  split_word x = (sym (div-add-mod' x (2 ^ w)), mod-lt x (two-pow-pos w))

  xor_parts :
      (x y : ℕ)
      → bit_xor x y ≡ bit_xor (x / 2 ^ w) (y / 2 ^ w) * 2 ^ w + bit_xor (x % 2 ^ w) (y % 2 ^ w)
  xor_parts x y =
      let (x_is, x_low) = split_word x in
      let (y_is, y_low) = split_word y in
      ap2 x_is y_is ∙ bit_xor_split w (x / 2 ^ w) (y / 2 ^ w) (x % 2 ^ w) (y % 2 ^ w) x_low y_low
    where
      ap2 : {a b c d : ℕ} → a ≡ b → c ≡ d → bit_xor a c ≡ bit_xor b d
      ap2 p q = λ i. bit_xor (p i) (q i)

  low : (x y : ℕ) → bit_xor (x % 2 ^ w) (y % 2 ^ w) < 2 ^ w
  low x y = bit_xor_lt w (x % 2 ^ w) (y % 2 ^ w) (split_word x).1 (split_word y).1

  pub bit_xor_mod : (x y : ℕ) → bit_xor x y % 2 ^ w ≡ bit_xor (x % 2 ^ w) (y % 2 ^ w)
  bit_xor_mod x y =
      ap (λ (t : ℕ). t % 2 ^ w) (xor_parts x y)
      ∙ mod-parts (bit_xor (x / 2 ^ w) (y / 2 ^ w)) (2 ^ w) (bit_xor (x % 2 ^ w) (y % 2 ^ w))
          (low x y)

  pub bit_xor_div : (x y : ℕ) → bit_xor x y / 2 ^ w ≡ bit_xor (x / 2 ^ w) (y / 2 ^ w)
  bit_xor_div x y =
      ap (λ (t : ℕ). t / 2 ^ w) (xor_parts x y)
      ∙ div-parts (bit_xor (x / 2 ^ w) (y / 2 ^ w)) (2 ^ w) (bit_xor (x % 2 ^ w) (y % 2 ^ w))
          (low x y)

  pub bit_xor_mul : (x y : ℕ) → bit_xor (x * 2 ^ w) (y * 2 ^ w) ≡ bit_xor x y * 2 ^ w
  bit_xor_mul x y =
      let plain : (z : ℕ) → z * 2 ^ w ≡ z * 2 ^ w + 0 = λ z. omega arith in
      rw (plain x, plain y)
        (bit_xor_split w x y 0 0 (two-pow-pos w) (two-pow-pos w) ∙ sym (plain (bit_xor x y)))
