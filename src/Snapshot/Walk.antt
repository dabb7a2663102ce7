-- ===== src/Snapshot/Walk.antt =====
-- The walks of crates/subvol/src/snapshot.rs over the parents of a snapshot: to the root, to an
-- ancestor, and to the next node of the tree. A result is missing where the fuel runs out or the
-- program panics.
use subvol.Prelude.{
  ℕ, zero, suc, ◌+◌, ◌-◌, ◌%◌, ◌^◌, Bool, true, false, Option, none, some, ltb, leb, ◌==◌, ◌!=◌,
  ◌&&◌, ◌||◌, if◌then◌else◌,
}
use subvol.Prelude.Options.{map_or, ◌>>=◌}
use subvol.Prelude.WordBits.{bit_of_word}
use subvol.Snapshot.Table.{SnapshotT, SnapshotTable, snapshot_t, snapshot_parent}

abbrev pub is_ancestor_bitmap : ℕ
is_ancestor_bitmap = 128

unfoldable pub snapshot_root : ℕ → SnapshotTable → ℕ → Option ℕ
snapshot_root zero t id = none
snapshot_root (suc fuel) t id =
    let parent = snapshot_parent t id in
    let rest = snapshot_root fuel t parent in if parent == 0 then some id else rest

unfoldable pub get_ancestor_below : SnapshotTable → ℕ → ℕ → ℕ
get_ancestor_below t id ancestor =
    map_or 0
      (λ e.
        let (skip_0, skip_1, skip_2) = e.skip in
        if leb skip_2 ancestor
        then skip_2
        else if leb skip_1 ancestor
        then skip_1
        else if leb skip_0 ancestor
        then skip_0
        else e.parent)
      (snapshot_t t id)

-- The word of the array that `bit / usize::BITS` selects.
abbrev pub bitmap_word : ℕ × ℕ → ℕ → Option ℕ
bitmap_word words bit =
    if ltb bit 64 then some words.0 else if ltb bit 128 then some words.1 else none

unfoldable pub test_ancestor_bitmap : SnapshotTable → ℕ → ℕ → Option Bool
test_ancestor_bitmap t id ancestor =
    let bit = ancestor - id - 1 in
    map_or (some false)
      (λ e. bitmap_word e.is_ancestor bit >>= λ w. some (bit_of_word w (bit % 64)))
      (snapshot_t t id)

-- The loop of `bch2_snapshot_is_ancestor_early`
unfoldable pub walk_to : ℕ → SnapshotTable → ℕ → ℕ → Option ℕ
walk_to zero t id ancestor = none
walk_to (suc fuel) t id ancestor =
    let rest = walk_to fuel t (snapshot_parent t id) ancestor in
    if (id != 0) && ltb id ancestor then rest else some id

unfoldable pub snapshot_is_ancestor_early : ℕ → SnapshotTable → ℕ → ℕ → Option Bool
snapshot_is_ancestor_early fuel t id ancestor =
    walk_to fuel t id ancestor >>= λ reached. some (reached == ancestor)

-- The loop of `__bch2_snapshot_is_ancestor`
unfoldable pub skip_to : ℕ → SnapshotTable → ℕ → ℕ → Option ℕ
skip_to zero t id ancestor = none
skip_to (suc fuel) t id ancestor =
    let rest = skip_to fuel t (get_ancestor_below t id ancestor) ancestor in
    if (id != 0) && ltb id (ancestor - is_ancestor_bitmap) then rest else some id

-- `__bch2_snapshot_is_ancestor`
unfoldable pub snapshot_is_ancestor_walk : ℕ → SnapshotTable → ℕ → ℕ → Option Bool
snapshot_is_ancestor_walk fuel t id ancestor =
    let near = if leb is_ancestor_bitmap ancestor then skip_to fuel t id ancestor else some id in
    near >>= λ reached.
    if (reached != 0) && ltb reached ancestor
    then test_ancestor_bitmap t reached ancestor
    else some (reached == ancestor)

-- With the assertions of `bch2_snapshot_is_ancestor`
unfoldable pub snapshot_is_ancestor : ℕ → SnapshotTable → ℕ → ℕ → Option Bool
snapshot_is_ancestor fuel t id ancestor =
    if (id == 0) || (ancestor == 0)
    then none
    else if id == ancestor
    then some true
    else snapshot_is_ancestor_walk fuel t id ancestor

-- The loop of `__bch2_snapshot_tree_next`: from `id` up to a parent with another child.
unfoldable pub tree_next_up : ℕ → SnapshotTable → ℕ → ℕ → Option (ℕ × ℕ)
tree_next_up zero t id depth = none
tree_next_up (suc fuel) t id depth =
    let parent = snapshot_parent t id in
    let n = map_or 0 (λ (e : SnapshotT). e.children.1) (snapshot_t t parent) in
    let rest = tree_next_up fuel t parent (depth - 1) in
    if parent == 0
    then some (0, depth)
    else if depth == 0
    then none
    else if (n != 0) && (n != id)
    then some (n, depth)
    else rest

-- The next node and its depth
unfoldable pub snapshot_tree_next : ℕ → SnapshotTable → ℕ → ℕ → Option (ℕ × ℕ)
snapshot_tree_next fuel t id depth =
    let n = map_or 0 (λ (e : SnapshotT). e.children.0) (snapshot_t t id) in
    if n == 0
    then tree_next_up fuel t id depth
    else if ltb (depth + 1) (2 ^ 32)
    then some (n, depth + 1)
    else none
