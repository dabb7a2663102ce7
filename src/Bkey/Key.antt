-- ===== src/Bkey/Key.antt =====
-- crates/subvol/src/btree/bkey.rs: `bkey`, `bversion`, the extent that a key covers, and merging;
-- `bch2_reservation_merge` and `bch2_extent_overlap` are in crates/subvol/src/btree/bset.rs.
pub mod Version
pub mod Extent
pub mod Sizes
use subvol.Prelude.{
  ℕ, ◌+◌, ◌-◌, ◌*◌, ◌/◌, ◌%◌, ◌^◌, ◌≤◌, ◌<◌, Bool, true, false, Option, none, some, ltb, leb, ◌==◌,
  ◌!=◌, ◌&&◌, ◌||◌, if◌then◌else◌,
}
use subvol.Prelude.Int.{ℤ, pos, negsuc}
use subvol.Bkey.Pos.{Bpos, IsBpos, spos, bpos_eq, bpos_lt, bpos_gt, bkey_eq}

pub record Bversion : Type 0 where
  pub lo : ℕ
  pub hi : ℕ

abbrev pub zero_version : Bversion
zero_version = record { lo = 0; hi = 0 }

-- `pad` holds no information and is left out.
pub record Bkey : Type 0 where
  pub u64s : ℕ
  pub format : ℕ
  pub type_ : ℕ
  pub bversion : Bversion
  pub size : ℕ
  pub p : Bpos

-- The ranges of the field types.
pub record IsBkey (k : Bkey) : Type 0 where
  pub u64s_fits : k.u64s < 2 ^ 8
  pub format_fits : k.format < 2 ^ 8
  pub type_fits : k.type_ < 2 ^ 8
  pub lo_fits : k.bversion.lo < 2 ^ 64
  pub hi_fits : k.bversion.hi < 2 ^ 32
  pub size_fits : k.size < 2 ^ 32
  pub p_fits : IsBpos k.p

abbrev pub key_format_local_btree : ℕ
key_format_local_btree = 0

abbrev pub key_format_current : ℕ
key_format_current = 1

abbrev pub bkey_u64s : ℕ
bkey_u64s = 5

unfoldable pub bversion_cmp : Bversion → Bversion → ℤ
bversion_cmp l r =
    if ltb l.hi r.hi
    then negsuc 0
    else if ltb r.hi l.hi
    then pos 1
    else if ltb l.lo r.lo
    then negsuc 0
    else if ltb r.lo l.lo
    then pos 1
    else pos 0

abbrev is_zero : ℤ → Bool
is_zero (pos n) = n == 0
is_zero (negsuc _) = false

unfoldable pub bversion_eq : Bversion → Bversion → Bool
bversion_eq l r = l.hi == r.hi && l.lo == r.lo

unfoldable pub bversion_zero : Bversion → Bool
unfolding bversion_cmp
bversion_zero v = is_zero (bversion_cmp v zero_version)

unfoldable pub bkey_start_offset : Bkey → ℕ
bkey_start_offset k = (k.p.offset + 2 ^ 64 - k.size) % 2 ^ 64

unfoldable pub bkey_start_pos : Bkey → Bpos
unfolding bkey_start_offset
bkey_start_pos k = spos k.p.inode (bkey_start_offset k) k.p.snapshot

-- `wrapping_sub` of the old size, then `wrapping_add` of the new one.
unfoldable pub bch2_key_resize : Bkey → ℕ → Bkey
bch2_key_resize k new_size = record k {
  p = spos k.p.inode ((((k.p.offset + 2 ^ 64 - k.size) % 2 ^ 64) + new_size) % 2 ^ 64) k.p.snapshot;
  size = new_size;
}

unfoldable pub bch2_bkey_maybe_mergable : Bkey → Bkey → Bool
unfolding bversion_cmp bkey_eq bkey_start_pos
bch2_bkey_maybe_mergable l r =
    l.type_ == r.type_
    && is_zero (bversion_cmp l.bversion r.bversion)
    && bkey_eq l.p (bkey_start_pos r)

-- The value of a key of type `reservation`.
pub record BchReservation : Type 0 where
  pub generation : ℕ
  pub nr_replicas : ℕ

abbrev pub key_type_reservation : ℕ
key_type_reservation = 7

abbrev pub key_type_set : ℕ
key_type_set = 25

-- Each merge returns its result and the key that `l` points to afterwards.
unfoldable pub bch2_reservation_merge : Bkey → Bkey → BchReservation → BchReservation → Bool × Bkey
bch2_reservation_merge l r l_v r_v =
    if l_v.generation != r_v.generation || l_v.nr_replicas != r_v.nr_replicas
    then (false, l)
    else (true, bch2_key_resize l ((l.size + r.size) % 2 ^ 32))

-- Neither key pointer is null here; `bch2_bkey_merge` below tests that first.
unfoldable pub bkey_merge_keys : Bkey → Bkey → BchReservation → BchReservation → Bool × Bkey
bkey_merge_keys l r l_v r_v =
    if bch2_bkey_maybe_mergable l r
    then if leb (2 ^ 32) (l.size + r.size)
      then (false, l)
      else if l.type_ == key_type_reservation
      then bch2_reservation_merge l r l_v r_v
      else if l.type_ != key_type_set
      then (false, l)
      else (true, bch2_key_resize l (l.size + r.size))
    else (false, l)

-- `none` is a null key pointer. The values are read only at reservations.
unfoldable pub bch2_bkey_merge :
    Option Bkey → Option Bkey → BchReservation → BchReservation → Bool × Option Bkey
bch2_bkey_merge none r l_v r_v = (false, none)
bch2_bkey_merge (some l) none l_v r_v = (false, some l)
bch2_bkey_merge (some l) (some r) l_v r_v =
    let (merged, l') = bkey_merge_keys l r l_v r_v in (merged, some l')

pub data BchExtentOverlap : Type 0 where
  all back front middle : BchExtentOverlap

unfoldable pub bch2_extent_overlap : Bkey → Bkey → BchExtentOverlap
bch2_extent_overlap k m =
    let cmp1 = bpos_lt k.p m.p in
    let cmp2 = bpos_gt (bkey_start_pos k) (bkey_start_pos m) in
    if cmp1
    then if cmp2 then BchExtentOverlap.middle else BchExtentOverlap.front
    else if cmp2
    then BchExtentOverlap.back
    else BchExtentOverlap.all

unfoldable pub bkey_fields_eq : Bkey → Bkey → Bool
unfolding bpos_eq bversion_eq
bkey_fields_eq l r =
    l.u64s == r.u64s
    && l.type_ == r.type_
    && bpos_eq l.p r.p
    && bversion_eq l.bversion r.bversion
    && l.size == r.size

unfoldable pub bkey_bytes : Bkey → ℕ
bkey_bytes k = k.u64s * 8

unfoldable pub bkey_val_u64s : Bkey → ℕ
bkey_val_u64s k = (k.u64s + 2 ^ 32 - bkey_u64s) % 2 ^ 32

unfoldable pub bkey_val_bytes : Bkey → ℕ
unfolding bkey_val_u64s
bkey_val_bytes k = bkey_val_u64s k * 8

-- `none` is the panic of the assertion, or of the overflowing sum before it.
unfoldable pub set_bkey_val_u64s : Bkey → ℕ → Option Bkey
set_bkey_val_u64s k val_u64s =
    let u64s = bkey_u64s + val_u64s in
    if leb u64s 255 then some (record k { u64s = u64s }) else none

unfoldable pub set_bkey_val_bytes : Bkey → ℕ → Option Bkey
unfolding set_bkey_val_u64s
set_bkey_val_bytes k bytes = set_bkey_val_u64s k ((bytes + 7) / 8)

unfoldable pub bkey_init : Bkey
bkey_init = record {
  u64s = bkey_u64s;
  format = key_format_current;
  type_ = 0;
  bversion = zero_version;
  size = 0;
  p = spos 0 0 0;
}
