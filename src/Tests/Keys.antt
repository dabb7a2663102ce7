-- ===== src/Tests/Keys.antt =====
-- Keys of crates/subvol/src/btree/bkey.rs.
use subvol.Prelude.{ℕ, ◌+◌, ◌≤◌, ◌<◌, ◌≡◌, ◌↔◌, refl, true, false, some, none, arith}
use subvol.Bkey.Pos.{spos}
use subvol.Bkey.Pos.Value.{sign}
use subvol.Bkey.Key.{
  Bkey, Bversion, BchReservation, bversion_cmp, bversion_eq, bversion_zero, bch2_key_resize,
  bkey_merge_keys, bch2_bkey_maybe_mergable, bch2_bkey_merge, BchExtentOverlap, bch2_extent_overlap,
  set_bkey_val_bytes, bkey_bytes, bkey_val_bytes,
}
use subvol.Bkey.Key.Version.{version_value, bversion_order}
use subvol.Bkey.Key.Extent.{IsExtent, Outcome, merge-covers, extent_overlap_iff}
use subvol.Bkey.Key.Sizes.{set_bkey_val_bytes_lem}

abbrev version : Bversion
version = record { lo = 9; hi = 1 }

-- A key of type `set` that covers `n` units and ends at offset `end`.
abbrev set_key : (end n : ℕ) → Bkey
set_key end n = record {
  u64s = 5;
  format = 1;
  type_ = 25;
  bversion = version;
  size = n;
  p = spos 4 end 0;
}

abbrev no_value : BchReservation
no_value = record { generation = 0; nr_replicas = 0 }

set_key-IsExtent : IsExtent (set_key 20 10)
set_key-IsExtent = omega arith

next-IsExtent : IsExtent (set_key 32 12)
next-IsExtent = omega arith

merges :
    bch2_bkey_merge (some (set_key 20 10)) (some (set_key 32 12)) no_value no_value
    ≡ (true, some (set_key 32 22))
unfolding bch2_bkey_merge bkey_merge_keys bch2_bkey_maybe_mergable bch2_key_resize
merges = refl

merge-covers_example : Outcome (set_key 20 10) (set_key 32 12) no_value no_value
merge-covers_example =
    merge-covers (set_key 20 10) (set_key 32 12) no_value no_value set_key-IsExtent next-IsExtent

-- The keys of two snapshots merge into one of the left snapshot.
merges_snapshots :
    bch2_bkey_merge
      (some (record (set_key 20 10) { p = spos 4 20 7 }))
      (some (set_key 32 12))
      no_value
      no_value
    ≡ (true, some (record (set_key 32 22) { p = spos 4 32 7 }))
unfolding bch2_bkey_merge bkey_merge_keys bch2_bkey_maybe_mergable bch2_key_resize
merges_snapshots = refl

gap :
    bch2_bkey_merge (some (set_key 20 10)) (some (set_key 33 12)) no_value no_value
    ≡ (false, some (set_key 20 10))
unfolding bch2_bkey_merge bkey_merge_keys bch2_bkey_maybe_mergable bch2_key_resize
gap = refl

extent_overlap_iff_example :
    ((bch2_extent_overlap (set_key 20 10) (set_key 32 12) ≡ BchExtentOverlap.all)
      ↔ ((10 ≤ 20) × (32 ≤ 20)))
    × ((bch2_extent_overlap (set_key 20 10) (set_key 32 12) ≡ BchExtentOverlap.back)
        ↔ ((20 < 10) × (32 ≤ 20)))
    × ((bch2_extent_overlap (set_key 20 10) (set_key 32 12) ≡ BchExtentOverlap.front)
        ↔ ((10 ≤ 20) × (20 < 32)))
    × ((bch2_extent_overlap (set_key 20 10) (set_key 32 12) ≡ BchExtentOverlap.middle)
        ↔ ((20 < 10) × (20 < 32)))
extent_overlap_iff_example =
    extent_overlap_iff (set_key 20 10) (set_key 32 12) set_key-IsExtent next-IsExtent refl refl

bversion_order_example :
    (bversion_cmp version version ≡ sign (version_value version) (version_value version))
    × ((bversion_eq version version ≡ true) ↔ (version_value version ≡ version_value version))
    × ((bversion_zero version ≡ true) ↔ (version_value version ≡ 0))
bversion_order_example = bversion_order version version (omega arith) (omega arith)

set_bkey_val_bytes_lem_example :
    (17 ≤ 2000
      → (k' : Bkey) × (set_bkey_val_bytes (set_key 20 10) 17 ≡ some k')
        × (17 ≤ bkey_val_bytes k')
        × (bkey_val_bytes k' < 17 + 8)
        × (bkey_bytes k' ≡ 40 + bkey_val_bytes k'))
    × (2000 < 17 → set_bkey_val_bytes (set_key 20 10) 17 ≡ none)
set_bkey_val_bytes_lem_example = set_bkey_val_bytes_lem (set_key 20 10) 17
