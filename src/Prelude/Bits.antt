-- ===== src/Prelude/Bits.antt =====
-- `|` and `^` at variables: the equation of the lowest digit, and what the program's masks,
-- shifts and comparisons by `^` rest on.
use Prim.Native.Nat.{
  ℕ, zero, suc, ◌+◌, ◌-◌, ◌*◌, ◌/◌, ◌%◌, ◌^◌, ◌≤◌, ◌<◌, max, bit_or, bit_xor, digits, bitwise,
  differ, bit_or-bitwise, bit_xor-bitwise,
}
use mathlib.Core.Path.{◌≡◌, refl, sym, ap, ◌∙◌}
use mathlib.Core.WellFounded as WF
use mathlib.Core.WellFounded.{Acc, WellFounded}
use native.Mathlib.Nat.{pow-suc}
use native.Mathlib.Omega.{arith}

Acc-below : (k n : ℕ) → n < k → Acc ◌<◌ n
Acc-below zero n h = elim h [ ]
Acc-below (suc k) n h = Acc.intro n (λ m hm. Acc-below k m (omega arith))

unfoldable pub lt_wf : WellFounded ◌<◌
unfolding Acc-below
lt_wf = record { apply = λ n. Acc-below (suc n) n (omega arith) }

-- Fuel beyond the first operand adds no digit.
module _ (z : ℕ → ℕ) (f : ℕ → ℕ → ℕ) where
  one_more : (n x y : ℕ) → x ≤ n → digits z f (suc n) x y ≡ digits z f n x y
  one_more zero zero y h = refl
  one_more zero (suc x) y h = absurd (omega arith)
  one_more (suc n) zero y h = refl
  one_more (suc n) (suc x) y h = rw (one_more n (suc x / 2) (y / 2) (omega arith))

  with_more : (d m n x y : ℕ) → m ≡ n + d → x ≤ n → digits z f m x y ≡ digits z f n x y
  with_more zero m n x y e h = ap (λ (t : ℕ). digits z f t x y) {y = n} (omega arith)
  with_more (suc d) zero n x y e h = absurd (omega arith)
  with_more (suc d) (suc m) n x y e h =
      one_more m x y (omega arith) ∙ with_more d m n x y (omega arith) h

  lowest_digit :
      (x y : ℕ)
      → bitwise z f (suc x) y ≡ f (suc x % 2) (y % 2) + 2 * bitwise z f (suc x / 2) (y / 2)
  lowest_digit x y =
      let h : suc x / 2 ≤ x = omega arith in
      let d = x - suc x / 2 in
      omega (arith, with_more d x (suc x / 2) (suc x / 2) (y / 2) (omega arith) (omega arith))

pub bit_xor_step : (x y : ℕ) → bit_xor x y ≡ bit_xor (x / 2) (y / 2) * 2 + differ (x % 2) (y % 2)
bit_xor_step zero y = simp bit_xor-bitwise (omega arith)
bit_xor_step (suc x) y = simp bit_xor-bitwise (omega (arith, lowest_digit (λ t. t) differ x y))

pub bit_or_step : (x y : ℕ) → bit_or x y ≡ bit_or (x / 2) (y / 2) * 2 + max (x % 2) (y % 2)
bit_or_step zero y = simp bit_or-bitwise (omega arith)
bit_or_step (suc x) y = simp bit_or-bitwise (omega (arith, lowest_digit (λ t. t) max x y))

bit_or-zero-below : (bound x : ℕ) → x < bound → bit_or x 0 ≡ x
bit_or-zero-below zero x h = absurd (omega arith)
bit_or-zero-below (suc bound) zero h = refl
bit_or-zero-below (suc bound) (suc x) h =
    omega (arith, bit_or_step (suc x) 0, bit_or-zero-below bound (suc x / 2) (omega arith))

pub bit_or-zero : (x : ℕ) → bit_or x 0 ≡ x
bit_or-zero x = bit_or-zero-below (suc x) x (omega arith)

-- Of a multiple of a power of two and a number below it, `|` is the sum.
pub bit_or_disjoint :
    (w high low : ℕ) → low < 2 ^ w → bit_or (high * 2 ^ w) low ≡ high * 2 ^ w + low
bit_or_disjoint zero high low below = ground (arith, bit_or-zero high)
bit_or_disjoint (suc w) high low below =
    let power = pow-suc 2 w in
    let half = bit_or_disjoint w high (low / 2) (omega arith) in
    let scaled = ap (λ (t : ℕ). high * t) power in
    ground (arith, bit_or_step (high * 2 ^ suc w) low, power, scaled, half)

pub zero-bit_or : (b : ℕ) → bit_or 0 b ≡ b
zero-bit_or b = simp bit_or-bitwise

pub zero-bit_xor : (b : ℕ) → bit_xor 0 b ≡ b
zero-bit_xor b = simp bit_xor-bitwise

pub bit_or-eq_zero : (a b : ℕ) → bit_or a b ≡ 0 → (a ≡ 0) × (b ≡ 0)
bit_or-eq_zero a b = WF.induction lt_wf {C = Zero} a step b
  where
    Zero : ℕ → Type 0
    Zero n = (b : ℕ) → bit_or n b ≡ 0 → (n ≡ 0) × (b ≡ 0)

    step : (n : ℕ) → ((m : ℕ) → m < n → Zero m) → Zero n
    step zero ih b h = (refl, omega (arith, zero-bit_or b))
    step (suc n) ih b h =
        let (half, _) =
          ih (suc n / 2) (omega arith) (b / 2) (omega (arith, bit_or_step (suc n) b)) in
        absurd (omega (arith, half, bit_or_step (suc n) b))

digit_ne : (x y : ℕ) → x < 2 → y < 2 → differ x y ≡ 0 → x ≡ y
digit_ne zero zero p q h = refl
digit_ne zero (suc y) p q h = sym h
digit_ne (suc x) zero p q h = h
digit_ne (suc x) (suc y) p q h = ap suc (digit_ne x y (omega arith) (omega arith) h)

pub bit_xor-eq_zero : (a b : ℕ) → bit_xor a b ≡ 0 → a ≡ b
bit_xor-eq_zero a b = WF.induction lt_wf {C = Same} a step b
  where
    Same : ℕ → Type 0
    Same n = (b : ℕ) → bit_xor n b ≡ 0 → n ≡ b

    step : (n : ℕ) → ((m : ℕ) → m < n → Same m) → Same n
    step zero ih b h = omega (arith, zero-bit_xor b)
    step (suc n) ih b h =
        let zeroes = bit_xor_step (suc n) b in
        let halves = ih (suc n / 2) (omega arith) (b / 2) (omega arith) in
        let lowest = digit_ne (suc n % 2) (b % 2) (omega arith) (omega arith) (omega arith) in
        omega arith

pub bit_xor_self : (a : ℕ) → bit_xor a a ≡ 0
bit_xor_self a = WF.induction lt_wf {C = λ n. bit_xor n n ≡ 0} a step
  where
    same : (x : ℕ) → x < 2 → differ x x ≡ 0
    same zero h = refl
    same (suc x) h = same x (omega arith)

    step : (n : ℕ) → ((m : ℕ) → m < n → bit_xor m m ≡ 0) → bit_xor n n ≡ 0
    step zero ih = refl
    step (suc n) ih = omega (
      arith,
      bit_xor_step (suc n) (suc n),
      ih (suc n / 2) (omega arith),
      same (suc n % 2) (omega arith),
    )
