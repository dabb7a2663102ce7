-- ===== src/Bkey/Key/Version.antt =====
-- Versions are compared as numbers of 96 bits.
use subvol.Prelude.{ℕ, ◌+◌, ◌*◌, ◌^◌, ◌<◌, ◌≡◌, ◌↔◌, true, arith}
use subvol.Bkey.Pos.Value.{sign}
use subvol.Bkey.Key.{Bversion, bversion_cmp, bversion_eq, bversion_zero}

abbrev pub version_value : Bversion → ℕ
version_value v = v.hi * 2 ^ 64 + v.lo

abbrev pub IsBversion : Bversion → Type 0
IsBversion v = (v.lo < 2 ^ 64) × (v.hi < 2 ^ 32)

-- For valid versions the comparison, the equality and the test for zero of versions are those of the 96-bit number.
pub bversion_order :
    (l r : Bversion)
    → IsBversion l
    → IsBversion r
    → (bversion_cmp l r ≡ sign (version_value l) (version_value r))
      × ((bversion_eq l r ≡ true) ↔ (version_value l ≡ version_value r))
      × ((bversion_zero l ≡ true) ↔ (version_value l ≡ 0))
unfolding bversion_cmp bversion_eq bversion_zero
bversion_order l r hl hr = (ground arith, ground arith, ground arith)
