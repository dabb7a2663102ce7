-- ===== src/Bkey/Pos.antt =====
-- crates/subvol/src/btree/bkey.rs: `bpos`, its comparisons and its neighbours. The three fields
-- are a u64, a u64 and a u32, kept as numbers.
pub mod Value
pub mod Order
pub mod Neighbours
use subvol.Prelude.{
  ℕ, ◌+◌, ◌-◌, ◌%◌, ◌^◌, ◌<◌, Bool, true, false, Option, none, some, bit_or, bit_xor, ltb, leb,
  ◌==◌, ◌!=◌, if◌then◌else◌,
}
use subvol.Prelude.Int.{ℤ, pos, negsuc}

pub record Bpos : Type 0 where
  pub snapshot : ℕ
  pub offset : ℕ
  pub inode : ℕ

-- The range of the field types.
pub record IsBpos (p : Bpos) : Type 0 where
  pub snapshot_fits : p.snapshot < 2 ^ 32
  pub offset_fits : p.offset < 2 ^ 64
  pub inode_fits : p.inode < 2 ^ 64

abbrev pub key_inode_max : ℕ
key_inode_max = 2 ^ 64 - 1

abbrev pub key_offset_max : ℕ
key_offset_max = 2 ^ 64 - 1

abbrev pub key_snapshot_max : ℕ
key_snapshot_max = 2 ^ 32 - 1

abbrev pub spos : ℕ → ℕ → ℕ → Bpos
spos inode offset snapshot = record { snapshot = snapshot; offset = offset; inode = inode }

abbrev pub pos_min : Bpos
pos_min = spos 0 0 0

abbrev pub pos_max : Bpos
pos_max = spos key_inode_max key_offset_max 0

abbrev pub spos_max : Bpos
spos_max = spos key_inode_max key_offset_max key_snapshot_max

unfoldable pub bpos_eq : Bpos → Bpos → Bool
bpos_eq l r =
    bit_or (bit_or (bit_xor l.inode r.inode) (bit_xor l.offset r.offset))
      (bit_xor l.snapshot r.snapshot)
    == 0

unfoldable pub bpos_lt : Bpos → Bpos → Bool
bpos_lt l r =
    if l.inode != r.inode
    then ltb l.inode r.inode
    else if l.offset != r.offset
    then ltb l.offset r.offset
    else if l.snapshot != r.snapshot
    then ltb l.snapshot r.snapshot
    else false

unfoldable pub bpos_le : Bpos → Bpos → Bool
bpos_le l r =
    if l.inode != r.inode
    then ltb l.inode r.inode
    else if l.offset != r.offset
    then ltb l.offset r.offset
    else if l.snapshot != r.snapshot
    then ltb l.snapshot r.snapshot
    else true

unfoldable pub bpos_gt : Bpos → Bpos → Bool
unfolding bpos_lt
bpos_gt l r = bpos_lt r l

unfoldable pub bpos_ge : Bpos → Bpos → Bool
unfolding bpos_le
bpos_ge l r = bpos_le r l

unfoldable pub bpos_cmp : Bpos → Bpos → ℤ
bpos_cmp l r =
    if ltb l.inode r.inode
    then negsuc 0
    else if ltb r.inode l.inode
    then pos 1
    else if ltb l.offset r.offset
    then negsuc 0
    else if ltb r.offset l.offset
    then pos 1
    else if ltb l.snapshot r.snapshot
    then negsuc 0
    else if ltb r.snapshot l.snapshot
    then pos 1
    else pos 0

unfoldable pub bpos_min : Bpos → Bpos → Bpos
unfolding bpos_lt
bpos_min l r = if bpos_lt l r then l else r

unfoldable pub bpos_max : Bpos → Bpos → Bpos
unfolding bpos_gt
bpos_max l r = if bpos_gt l r then l else r

-- The `bkey_` tests leave the snapshot out.
unfoldable pub bkey_eq : Bpos → Bpos → Bool
bkey_eq l r = bit_or (bit_xor l.inode r.inode) (bit_xor l.offset r.offset) == 0

unfoldable pub bkey_lt : Bpos → Bpos → Bool
bkey_lt l r = if l.inode != r.inode then ltb l.inode r.inode else ltb l.offset r.offset

unfoldable pub bkey_le : Bpos → Bpos → Bool
bkey_le l r = if l.inode != r.inode then ltb l.inode r.inode else leb l.offset r.offset

unfoldable pub bkey_gt : Bpos → Bpos → Bool
unfolding bkey_lt
bkey_gt l r = bkey_lt r l

unfoldable pub bkey_ge : Bpos → Bpos → Bool
unfolding bkey_le
bkey_ge l r = bkey_le r l

unfoldable pub bkey_cmp : Bpos → Bpos → ℤ
bkey_cmp l r =
    if ltb l.inode r.inode
    then negsuc 0
    else if ltb r.inode l.inode
    then pos 1
    else if ltb l.offset r.offset
    then negsuc 0
    else if ltb r.offset l.offset
    then pos 1
    else pos 0

unfoldable pub bkey_min : Bpos → Bpos → Bpos
unfolding bkey_lt
bkey_min l r = if bkey_lt l r then l else r

unfoldable pub bkey_max : Bpos → Bpos → Bpos
unfolding bkey_gt
bkey_max l r = if bkey_gt l r then l else r

-- Rust's `overflowing_add` and `overflowing_sub` at a width of `w` bits.
abbrev pub overflowing_add : ℕ → ℕ → ℕ → ℕ × Bool
overflowing_add w a b = ((a + b) % 2 ^ w, leb (2 ^ w) (a + b))

abbrev pub overflowing_sub : ℕ → ℕ → ℕ → ℕ × Bool
overflowing_sub w a b = ((a + 2 ^ w - b) % 2 ^ w, ltb a b)

-- `none` is the panic of `assert!(!inode_overflow)`.
unfoldable pub bpos_successor : Bpos → Option Bpos
bpos_successor p =
    let (snapshot, snapshot_overflow) = overflowing_add 32 p.snapshot 1 in
    let (offset, offset_overflow) = overflowing_add 64 p.offset 1 in
    let (inode, inode_overflow) = overflowing_add 64 p.inode 1 in
    if snapshot_overflow
    then if offset_overflow
      then if inode_overflow then none else some (spos inode offset snapshot)
      else some (spos p.inode offset snapshot)
    else some (spos p.inode p.offset snapshot)

unfoldable pub bpos_predecessor : Bpos → Option Bpos
bpos_predecessor p =
    let (snapshot, snapshot_overflow) = overflowing_sub 32 p.snapshot 1 in
    let (offset, offset_overflow) = overflowing_sub 64 p.offset 1 in
    let (inode, inode_overflow) = overflowing_sub 64 p.inode 1 in
    if snapshot_overflow
    then if offset_overflow
      then if inode_overflow then none else some (spos inode offset snapshot)
      else some (spos p.inode offset snapshot)
    else some (spos p.inode p.offset snapshot)

unfoldable pub bpos_nosnap_successor : Bpos → Option Bpos
bpos_nosnap_successor p =
    let (offset, offset_overflow) = overflowing_add 64 p.offset 1 in
    let (inode, inode_overflow) = overflowing_add 64 p.inode 1 in
    if offset_overflow
    then if inode_overflow then none else some (spos inode offset 0)
    else some (spos p.inode offset 0)

unfoldable pub bpos_nosnap_predecessor : Bpos → Option Bpos
bpos_nosnap_predecessor p =
    let (offset, offset_overflow) = overflowing_sub 64 p.offset 1 in
    let (inode, inode_overflow) = overflowing_sub 64 p.inode 1 in
    if offset_overflow
    then if inode_overflow then none else some (spos inode offset 0)
    else some (spos p.inode offset 0)

unfoldable pub bpos_with_snapshot : Bpos → ℕ → Bpos
bpos_with_snapshot p snapshot = record p { snapshot = snapshot }
