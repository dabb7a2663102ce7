-- ===== src/Tests/Positions.antt =====
-- Positions of crates/subvol/src/btree/bkey.rs.
use subvol.Prelude.{◌+◌, ◌-◌, ◌^◌, ◌≤◌, ◌<◌, ◌≡◌, ◌↔◌, refl, true, some, none, arith, min, max}
use subvol.Bkey.Pos.{
  Bpos, IsBpos, spos, pos_min, spos_max, bpos_eq, bpos_lt, bpos_le, bpos_gt, bpos_ge, bpos_cmp,
  bpos_min, bpos_max, bkey_eq, bkey_lt, bkey_le, bkey_gt, bkey_ge, bkey_cmp, bkey_min, bkey_max,
  bpos_successor, bpos_predecessor,
}
use subvol.Bkey.Pos.Value.{bpos_value, bkey_value, sign}
use subvol.Bkey.Pos.Order.{bpos_cmp-eq-sign, bpos_order, bkey_order}
use subvol.Bkey.Pos.Neighbours.{
  Reaches, bpos_successor_lem, bpos_predecessor_lem, predecessor-successor,
}

abbrev low : Bpos
low = spos 1 7 3

-- The last snapshot of offset 7.
abbrev last : Bpos
last = spos 1 7 (2 ^ 32 - 1)

low-IsBpos : IsBpos low
low-IsBpos = omega arith

last-IsBpos : IsBpos last
last-IsBpos = omega arith

successor_carries : bpos_successor last ≡ some (spos 1 8 0)
unfolding bpos_successor
successor_carries = refl

bpos_cmp-eq-sign_example : bpos_cmp low last ≡ sign (bpos_value low) (bpos_value last)
bpos_cmp-eq-sign_example = bpos_cmp-eq-sign low last low-IsBpos last-IsBpos

bpos_order_example :
    ((bpos_eq low last ≡ true) ↔ (low ≡ last))
    × ((bpos_lt low last ≡ true) ↔ (bpos_value low < bpos_value last))
    × ((bpos_le low last ≡ true) ↔ (bpos_value low ≤ bpos_value last))
    × ((bpos_gt low last ≡ true) ↔ (bpos_value last < bpos_value low))
    × ((bpos_ge low last ≡ true) ↔ (bpos_value last ≤ bpos_value low))
    × (bpos_value (bpos_min low last) ≡ min (bpos_value low) (bpos_value last))
    × (bpos_value (bpos_max low last) ≡ max (bpos_value low) (bpos_value last))
bpos_order_example = bpos_order low last low-IsBpos last-IsBpos

bkey_order_example :
    ((bkey_eq low last ≡ true) ↔ (bkey_value low ≡ bkey_value last))
    × ((bkey_lt low last ≡ true) ↔ (bkey_value low < bkey_value last))
    × ((bkey_le low last ≡ true) ↔ (bkey_value low ≤ bkey_value last))
    × ((bkey_gt low last ≡ true) ↔ (bkey_value last < bkey_value low))
    × ((bkey_ge low last ≡ true) ↔ (bkey_value last ≤ bkey_value low))
    × (bkey_value (bkey_min low last) ≡ min (bkey_value low) (bkey_value last))
    × (bkey_value (bkey_max low last) ≡ max (bkey_value low) (bkey_value last))
    × (bkey_cmp low last ≡ sign (bkey_value low) (bkey_value last))
bkey_order_example = bkey_order low last low-IsBpos last-IsBpos

bpos_successor_lem_example :
    (bpos_value last + 1 < 2 ^ 160 → Reaches (bpos_successor last) (bpos_value last + 1))
    × (last ≡ spos_max → bpos_successor last ≡ none)
bpos_successor_lem_example = bpos_successor_lem last last-IsBpos

bpos_predecessor_lem_example :
    (0 < bpos_value low → Reaches (bpos_predecessor low) (bpos_value low - 1))
    × (low ≡ pos_min → bpos_predecessor low ≡ none)
bpos_predecessor_lem_example = bpos_predecessor_lem low low-IsBpos

predecessor-successor_example : bpos_predecessor (spos 1 8 0) ≡ some last
predecessor-successor_example =
    predecessor-successor last (spos 1 8 0) last-IsBpos successor_carries
