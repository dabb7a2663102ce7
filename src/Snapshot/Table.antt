-- ===== src/Snapshot/Table.antt =====
-- The table of crates/subvol/src/snapshot.rs and the queries that read single entries. The lock
-- around the table is held during each of them, so that a call sees one table.
use subvol.Prelude.{
  ℕ, zero, suc, ◌+◌, ◌-◌, ◌%◌, ◌^◌, Bool, true, false, Option, none, some, List, get_elem?, bit_or,
  ltb, ◌==◌, ◌!=◌, ◌&&◌, if◌then◌else◌,
}
use subvol.Prelude.Int.{ℤ, pos, negsuc}
use subvol.Prelude.Options.{map_or}

pub data SnapshotIdState : Type 0 where
  empty live deleted : SnapshotIdState

-- The arrays of two and three elements are tuples.
pub record SnapshotT : Type 0 where
  pub state : SnapshotIdState
  pub parent : ℕ
  pub skip : ℕ × ℕ × ℕ
  pub depth : ℕ
  pub children : ℕ × ℕ
  pub subvol_id : ℕ
  pub tree : ℕ
  pub is_ancestor : ℕ × ℕ

-- `snapshot_t::default()`
abbrev pub default_entry : SnapshotT
default_entry = record {
  state = empty;
  parent = 0;
  skip = (0, 0, 0);
  depth = 0;
  children = (0, 0);
  subvol_id = 0;
  tree = 0;
  is_ancestor = (0, 0);
}

pub record SnapshotTable : Type 0 where
  pub nr : ℕ
  pub s : List SnapshotT

abbrev pub index_of : ℕ → ℕ
index_of id = 2 ^ 32 - 1 - id

-- `__snapshot_t`; an id is a u32.
unfoldable pub snapshot_t : SnapshotTable → ℕ → Option SnapshotT
snapshot_t t id =
    if ltb id (2 ^ 32) && ltb (index_of id) t.nr then get_elem? t.s (index_of id) else none

unfoldable pub snapshot_parent : SnapshotTable → ℕ → ℕ
snapshot_parent t id = map_or 0 (λ e. e.parent) (snapshot_t t id)

unfoldable pub snapshot_tree : SnapshotTable → ℕ → ℕ
snapshot_tree t id = map_or 0 (λ e. e.tree) (snapshot_t t id)

unfoldable pub snapshots_same_tree : SnapshotTable → ℕ → ℕ → Bool
snapshots_same_tree t id₁ id₂ =
    if id₁ == id₂
    then true
    else map_or false (λ e₁. map_or false (λ e₂. e₁.tree == e₂.tree) (snapshot_t t id₂))
        (snapshot_t t id₁)

unfoldable pub snapshot_nth_parent : SnapshotTable → ℕ → ℕ → ℕ
snapshot_nth_parent t id zero = id
snapshot_nth_parent t id (suc n) = snapshot_nth_parent t (snapshot_parent t id) n

unfoldable pub snapshot_id_state : SnapshotTable → ℕ → SnapshotIdState
snapshot_id_state t id = map_or empty (λ e. e.state) (snapshot_t t id)

abbrev is_live : SnapshotIdState → Bool
is_live live = true
is_live _ = false

unfoldable pub snapshot_exists : SnapshotTable → ℕ → Bool
snapshot_exists t id = is_live (snapshot_id_state t id)

-- `BCH_ERR_invalid_snapshot_node`, -2604
abbrev pub err_invalid_snapshot_node : ℤ
err_invalid_snapshot_node = negsuc 2603

unfoldable pub snapshot_is_internal_node : SnapshotTable → ℕ → ℤ
snapshot_is_internal_node t id =
    map_or err_invalid_snapshot_node (λ e. if e.children.0 != 0 then pos 1 else pos 0)
      (snapshot_t t id)

abbrev one_minus : ℤ → ℤ
one_minus (pos n) = if n == 0 then pos 1 else if n == 1 then pos 0 else negsuc (n - 2)
one_minus (negsuc n) = negsuc n

-- A negative result is handed on.
unfoldable pub snapshot_is_leaf : SnapshotTable → ℕ → ℤ
snapshot_is_leaf t id = one_minus (snapshot_is_internal_node t id)

-- The depth of a new child of `parent`; no result where the program panics.
unfoldable pub snapshot_depth : SnapshotTable → ℕ → Option ℕ
snapshot_depth t parent =
    if parent == 0
    then some 0
    else map_or none (λ e. some ((e.depth + 1) % 2 ^ 32)) (snapshot_t t parent)

unfoldable pub snapshot_has_children : SnapshotTable → ℕ → Bool
snapshot_has_children t id =
    map_or false (λ e. bit_or e.children.0 e.children.1 != 0) (snapshot_t t id)

-- The walk down from a node that is not live, on fuel; no result where the program panics.
unfoldable pub snapshot_live_descendent : ℕ → SnapshotTable → ℕ → Option ℕ
snapshot_live_descendent zero t id = none
snapshot_live_descendent (suc fuel) t id =
    map_or none
      (λ e.
        let rest = snapshot_live_descendent fuel t e.children.0 in
        if is_live e.state
        then some id
        else if (e.children.0 != 0) && (e.children.1 == 0)
        then rest
        else none)
      (snapshot_t t id)
