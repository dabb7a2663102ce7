-- ===== src/Snapshot/Mark.antt =====
-- `bch2_mark_snapshot` of crates/subvol/src/snapshot.rs: the entry that a committed snapshot key
-- makes in the table. A result is missing where the fuel runs out or the program panics, in
-- arithmetic that overflows or at an index out of bounds.
pub mod Bitmap
pub mod Grow
pub mod Kept
pub mod Entry
use subvol.Prelude.{
  ℕ, zero, suc, ◌+◌, ◌-◌, ◌*◌, ◌%◌, ◌^◌, Bool, true, false, Option, none, some, List, [], ◌∷◌,
  length, set, bit_and, bit_or, ltb, leb, ◌==◌, ◌!=◌, if◌then◌else◌,
}
use subvol.Prelude.Options.{◌>>=◌, next_power_of_two}
use subvol.Bkey.Key.{Bkey}
use subvol.Snapshot.Table.{
  SnapshotIdState, live, deleted, SnapshotT, SnapshotTable, default_entry, index_of,
  snapshot_parent,
}
use subvol.Snapshot.Walk.{is_ancestor_bitmap}

-- The value of a snapshot key; its creation time is not read.
pub record BchSnapshot : Type 0 where
  pub flags : ℕ
  pub parent : ℕ
  pub children : ℕ × ℕ
  pub subvol_id : ℕ
  pub tree : ℕ
  pub depth : ℕ
  pub skip : ℕ × ℕ × ℕ

abbrev pub key_type_snapshot : ℕ
key_type_snapshot = 22

-- `BCH_SNAPSHOT_WILL_DELETE`, `_SUBVOL`, `_DELETED` and `_NO_KEYS`
abbrev pub will_delete : ℕ
will_delete = 1

abbrev pub has_subvol : ℕ
has_subvol = 2

abbrev pub was_deleted : ℕ
was_deleted = 4

abbrev pub no_keys : ℕ
no_keys = 8

-- `offset_of!(bch_snapshot, depth)`
abbrev pub depth_offset : ℕ
depth_offset = 24

-- `Vec::resize`
abbrev pub resize {ℓ} : {A : Type ℓ} → List A → ℕ → A → List A
resize xs zero value = []
resize [] (suc n) value = value ∷ resize [] n value
resize (x ∷ xs) (suc n) value = x ∷ resize xs n value

unfoldable pub grow : SnapshotTable → ℕ → SnapshotTable
grow t idx =
    let new_size = next_power_of_two (idx + 1) in
    if leb t.nr idx then record { nr = new_size; s = resize t.s new_size default_entry } else t

abbrev pub set_bitmap_bit : ℕ × ℕ → ℕ → ℕ × ℕ
set_bitmap_bit words bit =
    if ltb bit 64
    then (bit_or words.0 (2 ^ bit), words.1)
    else (words.0, bit_or words.1 (2 ^ (bit - 64)))

-- The loop over the parents, on fuel: their bits, as far as the bitmap reaches.
unfoldable pub mark_bits : ℕ → SnapshotTable → ℕ → ℕ → ℕ × ℕ → Option (ℕ × ℕ)
mark_bits zero t id parent words = none
mark_bits (suc fuel) t id parent words =
    let bit = parent - id - 1 in
    let rest = mark_bits fuel t id (snapshot_parent t parent) (set_bitmap_bit words bit) in
    if parent == 0
    then some words
    else if leb parent id
    then none
    else if ltb bit is_ancestor_bitmap
    then rest
    else some words

-- The entry but for its bitmap.
unfoldable pub entry_of : Bkey → BchSnapshot → SnapshotT
entry_of k s =
    let value_bytes = (k.u64s - 5) * 8 in
    let full = ltb depth_offset value_bytes in
    record {
      state = if bit_and s.flags (bit_or was_deleted no_keys) == 0 then live else deleted;
      parent = s.parent;
      skip = if full then s.skip else (0, 0, 0);
      depth = if full then s.depth else 0;
      children = s.children;
      subvol_id = if bit_and s.flags has_subvol != 0 then s.subvol_id else 0;
      tree = s.tree;
      is_ancestor = (0, 0);
    }

unfoldable pub put_entry : SnapshotTable → ℕ → SnapshotT → Option SnapshotTable
put_entry t idx e = if ltb idx (length t.s) then some (record t { s = set t.s idx e }) else none

-- The new table, and whether dead snapshots have to be deleted.
unfoldable pub mark_snapshot :
    ℕ → SnapshotTable → Bkey → BchSnapshot → Option (SnapshotTable × Bool)
mark_snapshot fuel t k s =
    let id = k.p.offset % 2 ^ 32 in
    let idx = index_of id in
    let grown = grow t idx in
    let e = entry_of k s in
    if k.type_ == key_type_snapshot
    then (mark_bits fuel grown id e.parent (0, 0) >>= λ words.
        put_entry grown idx (record e { is_ancestor = words }) >>= λ t'.
        some (t', bit_and s.flags will_delete != 0))
    else (put_entry grown idx default_entry >>= λ t'. some (t', false))
