-- ===== src/Snapshot/Idlist.antt =====
-- The growing lists of ids of crates/subvol/src/snapshot.rs.
pub mod Contents
use subvol.Prelude.{
  ℕ, zero, suc, ◌+◌, ◌-◌, ◌*◌, ◌%◌, ◌^◌, Bool, true, false, Option, none, some, List, [], ◌∷◌, set,
  ltb, leb, ◌==◌, if◌then◌else◌,
}
use subvol.Prelude.Int.{ℤ, pos, negsuc}
use subvol.Prelude.Options.{next_power_of_two, ◌>>=◌}
use subvol.Snapshot.Table.{SnapshotTable}
use subvol.Snapshot.Walk.{snapshot_is_ancestor}
use subvol.Snapshot.Mark.{resize}

-- `data` is the buffer, of `size` ids, of which the first `nr` are in use.
pub record SnapshotIdList : Type 0 where
  pub nr : ℕ
  pub size : ℕ
  pub data_ : List ℕ

abbrev pub has_first : ℕ → List ℕ → ℕ → Bool
has_first zero xs id = false
has_first (suc n) [] id = false
has_first (suc n) (x ∷ xs) id = if x == id then true else has_first n xs id

unfoldable pub snapshot_list_has_id : SnapshotIdList → ℕ → Bool
snapshot_list_has_id l id = has_first l.nr l.data_ id

-- Each test of an ancestor on `fuel`
abbrev has_first_ancestor : ℕ → SnapshotTable → ℕ → List ℕ → ℕ → Option Bool
has_first_ancestor fuel t zero xs id = some false
has_first_ancestor fuel t (suc n) [] id = some false
has_first_ancestor fuel t (suc n) (x ∷ xs) id = snapshot_is_ancestor fuel t id x >>= λ found.
    if found then some true else has_first_ancestor fuel t n xs id

unfoldable pub snapshot_list_has_ancestor : ℕ → SnapshotTable → SnapshotIdList → ℕ → Option Bool
snapshot_list_has_ancestor fuel t l id = has_first_ancestor fuel t l.nr l.data_ id

-- `-12`
abbrev pub enomem : ℤ
enomem = negsuc 11

-- `alloc capacity` says whether the allocator has room for a buffer of `capacity` ids.
module _ (alloc : ℕ → Bool) where
  -- The new buffer; what is behind the copied ids is not initialised by the source, and 0 here.
  unfoldable pub grow_list : SnapshotIdList → ℕ → Option SnapshotIdList
  grow_list l new_size =
      let capacity = next_power_of_two new_size in
      if leb (2 ^ 64) capacity
      then none
      else if leb (2 ^ 63) (capacity * 4)
      then none
      else if alloc capacity
      then some (record l { data_ = resize l.data_ capacity 0; size = capacity })
      else none

  abbrev pub push : SnapshotIdList → ℕ → SnapshotIdList × ℤ
  push l id = (record l { data_ = set l.data_ l.nr id; nr = l.nr + 1 }, pos 0)

  abbrev push_grown : SnapshotIdList → ℕ → Option SnapshotIdList → SnapshotIdList × ℤ
  push_grown l id none = (l, enomem)
  push_grown l id (some grown) = push grown id

  unfoldable pub snapshot_list_add_nodup : SnapshotIdList → ℕ → SnapshotIdList × ℤ
  snapshot_list_add_nodup l id =
      let new_size = (l.nr + 1) % 2 ^ 64 in
      if snapshot_list_has_id l id
      then (l, pos 0)
      else if ltb l.size new_size
      then push_grown l id (grow_list l new_size)
      else push l id

  -- No result where the assertion fails.
  unfoldable pub snapshot_list_add : SnapshotIdList → ℕ → Option (SnapshotIdList × ℤ)
  snapshot_list_add l id =
      if snapshot_list_has_id l id then none else some (snapshot_list_add_nodup l id)

  abbrev is_zero : ℤ → Bool
  is_zero (pos n) = n == 0
  is_zero (negsuc n) = false

  -- The loop of `snapshot_list_merge` over the first `n` ids of the source list
  unfoldable pub merge_first : ℕ → List ℕ → SnapshotIdList → SnapshotIdList × ℤ
  merge_first zero ids dst = (dst, pos 0)
  merge_first (suc n) [] dst = (dst, pos 0)
  merge_first (suc n) (id ∷ ids) dst =
      let (dst', ret) = snapshot_list_add_nodup dst id in
      let rest = merge_first n ids dst' in if is_zero ret then rest else (dst', ret)

  unfoldable pub snapshot_list_merge : SnapshotIdList → SnapshotIdList → SnapshotIdList × ℤ
  snapshot_list_merge dst src = merge_first src.nr src.data_ dst
