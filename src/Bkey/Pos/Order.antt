-- ===== src/Bkey/Pos/Order.antt =====
-- The comparisons of positions against the order of their values.
use subvol.Prelude.{◌≤◌, ◌<◌, ◌≡◌, ◌↔◌, true, arith, min, max, bit_or, bit_xor, ==_iff, ap}
use subvol.Prelude.Bits.{bit_or-eq_zero, bit_xor-eq_zero, bit_xor_self}
use subvol.Bkey.Pos.{
  Bpos, IsBpos, bpos_eq, bpos_lt, bpos_le, bpos_gt, bpos_ge, bpos_cmp, bpos_min, bpos_max, bkey_eq,
  bkey_lt, bkey_le, bkey_gt, bkey_ge, bkey_cmp, bkey_min, bkey_max,
}
use subvol.Bkey.Pos.Value.{bpos_value, bkey_value, sign, bpos_value-injective, xor_or_eq}

-- The three-way comparison of two valid positions is that of their values.
pub bpos_cmp-eq-sign :
    (l r : Bpos) → IsBpos l → IsBpos r → bpos_cmp l r ≡ sign (bpos_value l) (bpos_value r)
unfolding bpos_cmp
bpos_cmp-eq-sign l r hl hr = ground arith

pub bpos_lt_iff :
    (l r : Bpos) → IsBpos l → IsBpos r → (bpos_lt l r ≡ true) ↔ (bpos_value l < bpos_value r)
unfolding bpos_lt
bpos_lt_iff l r hl hr = ground arith

pub bpos_le_iff :
    (l r : Bpos) → IsBpos l → IsBpos r → (bpos_le l r ≡ true) ↔ (bpos_value l ≤ bpos_value r)
unfolding bpos_le
bpos_le_iff l r hl hr = ground arith

pub bkey_cmp-eq-sign :
    (l r : Bpos) → IsBpos l → IsBpos r → bkey_cmp l r ≡ sign (bkey_value l) (bkey_value r)
unfolding bkey_cmp
bkey_cmp-eq-sign l r hl hr = ground arith

bpos_eq_iff :
    (l r : Bpos) → IsBpos l → IsBpos r → (bpos_eq l r ≡ true) ↔ (bpos_value l ≡ bpos_value r)
unfolding bpos_eq
bpos_eq_iff l r hl hr =
    let upper = bit_or (bit_xor l.inode r.inode) (bit_xor l.offset r.offset) in
    let lower = bit_xor l.snapshot r.snapshot in
    let both = xor_or_eq l.inode r.inode l.offset r.offset in
    (
      λ h. ground (
        arith,
        bit_or-eq_zero upper lower ((==_iff _ _).0 h),
        both.0,
        bit_xor-eq_zero l.snapshot r.snapshot,
      ),
      λ e.
          let high : upper ≡ 0 = both.1 (omega arith, omega arith) in
          let low : l.snapshot ≡ r.snapshot = omega arith in
          (==_iff _ _).1 (rw (high, low, bit_xor_self r.snapshot)),
    )

-- Every test on two valid positions agrees with the order of their values: equality, the four orders,
-- and the lesser and the greater of the two.
pub bpos_order :
    (l r : Bpos)
    → IsBpos l
    → IsBpos r
    → ((bpos_eq l r ≡ true) ↔ (l ≡ r))
      × ((bpos_lt l r ≡ true) ↔ (bpos_value l < bpos_value r))
      × ((bpos_le l r ≡ true) ↔ (bpos_value l ≤ bpos_value r))
      × ((bpos_gt l r ≡ true) ↔ (bpos_value r < bpos_value l))
      × ((bpos_ge l r ≡ true) ↔ (bpos_value r ≤ bpos_value l))
      × (bpos_value (bpos_min l r) ≡ min (bpos_value l) (bpos_value r))
      × (bpos_value (bpos_max l r) ≡ max (bpos_value l) (bpos_value r))
unfolding bpos_gt bpos_ge bpos_min bpos_max
bpos_order l r hl hr = (
  same,
  bpos_lt_iff l r hl hr,
  bpos_le_iff l r hl hr,
  bpos_lt_iff r l hr hl,
  bpos_le_iff r l hr hl,
  ground arith,
  ground arith,
)
  where
    same : (bpos_eq l r ≡ true) ↔ (l ≡ r)
    same = (
      λ h. bpos_value-injective l r hl hr ((bpos_eq_iff l r hl hr).0 h),
      λ e. (bpos_eq_iff l r hl hr).1 (ap bpos_value e),
    )

-- For valid positions the tests that leave the snapshot out agree with the order of inode and offset alone.
pub bkey_order :
    (l r : Bpos)
    → IsBpos l
    → IsBpos r
    → ((bkey_eq l r ≡ true) ↔ (bkey_value l ≡ bkey_value r))
      × ((bkey_lt l r ≡ true) ↔ (bkey_value l < bkey_value r))
      × ((bkey_le l r ≡ true) ↔ (bkey_value l ≤ bkey_value r))
      × ((bkey_gt l r ≡ true) ↔ (bkey_value r < bkey_value l))
      × ((bkey_ge l r ≡ true) ↔ (bkey_value r ≤ bkey_value l))
      × (bkey_value (bkey_min l r) ≡ min (bkey_value l) (bkey_value r))
      × (bkey_value (bkey_max l r) ≡ max (bkey_value l) (bkey_value r))
      × (bkey_cmp l r ≡ sign (bkey_value l) (bkey_value r))
unfolding bkey_gt bkey_ge bkey_min bkey_max bkey_lt bkey_le bkey_eq
bkey_order l r hl hr = (
  ground (arith, xor_or_eq l.inode r.inode l.offset r.offset),
  ground arith,
  ground arith,
  ground arith,
  ground arith,
  ground arith,
  ground arith,
  bkey_cmp-eq-sign l r hl hr,
)
