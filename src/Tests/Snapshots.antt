-- ===== src/Tests/Snapshots.antt =====
-- A table of two snapshots of crates/subvol/src/snapshot.rs: the root and its child.
use subvol.Prelude.Powers.{bit_length_fuel}
use subvol.Prelude.{
  ℕ, ◌-◌, ◌^◌, ◌≡◌, ◌≢◌, inl, inr, refl, ◌∙◌, Bool, true, false, Option, none, some, [], ◌∷◌, ltb,
  ◌==◌, arith, Bool-cases, ==_iff,
}
use subvol.Bkey.Pos.{spos}
use subvol.Bkey.Key.{Bkey, zero_version}
use subvol.Snapshot.Table.{SnapshotT, live, SnapshotTable, snapshot_t, snapshot_parent}
use subvol.Snapshot.Walk.{snapshot_is_ancestor, snapshot_is_ancestor_early}
use subvol.Snapshot.Ancestor.{Ancestor, itself, IsTable}
use subvol.Snapshot.Ancestor.Early.{Decides, is_ancestor_early-Decides}
use subvol.Snapshot.Ancestor.Skips.{is_ancestor-Decides}
use subvol.Snapshot.Mark.{BchSnapshot, grow, mark_bits, entry_of, put_entry, mark_snapshot}
use subvol.Snapshot.Mark.Grow.{HasRoom}
use subvol.Snapshot.Idlist.{
  SnapshotIdList, enomem, grow_list, snapshot_list_has_id, snapshot_list_add_nodup,
}
use subvol.Snapshot.Idlist.Contents.{Added, add_nodup-Added}
use subvol.Snapshot.Mark.Entry.{IsSnapshotKey, mark_snapshot-IsTable}

abbrev root : ℕ
root = 2 ^ 32 - 1

abbrev child : ℕ
child = 2 ^ 32 - 2

abbrev snapshot_key : ℕ → Bkey
snapshot_key id = record {
  u64s = 14;
  format = 1;
  type_ = 22;
  bversion = zero_version;
  size = 0;
  p = spos 0 id 0;
}

abbrev root_value : BchSnapshot
root_value = record {
  flags = 2;
  parent = 0;
  children = (child, 0);
  subvol_id = 1;
  tree = 1;
  depth = 0;
  skip = (0, 0, 0);
}

abbrev child_value : BchSnapshot
child_value = record {
  flags = 3;
  parent = root;
  children = (0, 0);
  subvol_id = 2;
  tree = 1;
  depth = 1;
  skip = (root, root, root);
}

abbrev no_table : SnapshotTable
no_table = record { nr = 0; s = [] }

abbrev root_entry : SnapshotT
root_entry = record {
  state = live;
  parent = 0;
  skip = (0, 0, 0);
  depth = 0;
  children = (child, 0);
  subvol_id = 1;
  tree = 1;
  is_ancestor = (0, 0);
}

abbrev child_entry : SnapshotT
child_entry = record {
  state = live;
  parent = root;
  skip = (root, root, root);
  depth = 1;
  children = (0, 0);
  subvol_id = 2;
  tree = 1;
  is_ancestor = (1, 0);
}

abbrev root_table : SnapshotTable
root_table = record { nr = 1; s = root_entry ∷ [] }

abbrev both_table : SnapshotTable
both_table = record { nr = 2; s = root_entry ∷ child_entry ∷ [] }

root_marked : mark_snapshot 129 no_table (snapshot_key root) root_value ≡ some (root_table, false)
unfolding mark_snapshot grow mark_bits entry_of put_entry bit_length_fuel
root_marked = refl

both_marked :
    mark_snapshot 129 root_table (snapshot_key child) child_value ≡ some (both_table, true)
unfolding mark_snapshot grow mark_bits entry_of put_entry bit_length_fuel snapshot_parent snapshot_t
both_marked = refl

no_entry : (j : ℕ) → snapshot_t no_table j ≡ none
unfolding snapshot_t
no_entry j = elim (Bool-cases (ltb j (2 ^ 32))) [
  | inr wide ↦ rw wide refl
  | inl narrow ↦ let past : ltb (2 ^ 32 - 1 - j) 0 ≡ false = ground arith in rw (narrow, past) refl
]

no_parent : (j : ℕ) → snapshot_parent no_table j ≡ 0
unfolding snapshot_parent
no_parent j = rw (no_entry j) refl

no_table-IsTable : IsTable no_table
no_table-IsTable = record {
  chain = λ j. inl (no_parent j);
  entry = λ j e found. absurd (let missing = no_entry j in cc);
}

root-IsSnapshotKey : IsSnapshotKey no_table (snapshot_key root) root_value
root-IsSnapshotKey = record {
  type_snapshot = refl;
  long = omega arith;
  higher = inl refl;
  root_skips = λ _. refl;
  skip_0 = λ nz. absurd (nz refl);
  skip_1 = λ nz. absurd (nz refl);
  skip_2 = λ nz. absurd (nz refl);
  childless = λ j e. absurd (let zero_parent = no_parent j in omega arith);
}

-- The table that a mark makes is the one that it computes.
made_table :
    {result : Option (SnapshotTable × Bool)} {made t' : SnapshotTable} {b b' : Bool}
    → result ≡ some (made, b)
    → result ≡ some (t', b')
    → made ≡ t'
made_table e e' = cc

root_made : IsTable root_table × ((j : ℕ) → snapshot_parent root_table j ≡ 0)
root_made =
    let (made, e, ok_, room, self_, others) =
      mark_snapshot-IsTable no_table (snapshot_key root) root_value no_table-IsTable refl
        root-IsSnapshotKey 129 (omega arith) in
    let same : made ≡ root_table = made_table e root_marked in
    rw (← same) (
      ok_,
      λ j. elim (Bool-cases (j == root)) [
        | inl here ↦ rw ((==_iff j root).0 here) self_
        | inr other ↦ others j (ground arith) ∙ no_parent j
      ],
    )

child-IsSnapshotKey : IsSnapshotKey root_table (snapshot_key child) child_value
child-IsSnapshotKey = record {
  type_snapshot = refl;
  long = omega arith;
  higher = inr (omega arith);
  root_skips = λ z. absurd (omega arith);
  skip_0 = λ _. itself;
  skip_1 = λ _. itself;
  skip_2 = λ _. itself;
  childless = λ j e. absurd (let zero_parent = root_made.1 j in omega arith);
}

mark_snapshot-IsTable_example :
    (made : SnapshotTable) × (mark_snapshot 129 root_table (snapshot_key child) child_value
      ≡ some (made, true))
    × IsTable made
    × HasRoom made
    × (snapshot_parent made child ≡ root)
    × ((j : ℕ) → j ≢ child → snapshot_parent made j ≡ snapshot_parent root_table j)
mark_snapshot-IsTable_example =
    mark_snapshot-IsTable root_table (snapshot_key child) child_value root_made.0 refl
      child-IsSnapshotKey 129 (omega arith)

both_made : IsTable both_table
both_made =
    let (made, e, ok_, room, self_, others) = mark_snapshot-IsTable_example in
    rw (← made_table e both_marked) ok_

is_ancestor_early-Decides_example :
    Decides (snapshot_is_ancestor_early 2 both_table child root) (Ancestor both_table child root)
is_ancestor_early-Decides_example =
    is_ancestor_early-Decides both_table 2 child root both_made.chain (omega arith) (omega arith)
      (omega arith) (omega arith)

is_ancestor-Decides_example :
    Decides (snapshot_is_ancestor 2 both_table child root) (Ancestor both_table child root)
is_ancestor-Decides_example =
    is_ancestor-Decides both_table both_made 2 child root (omega arith) (omega arith) (omega arith)
      (omega arith)

-- A full list of one id.
abbrev full_list : SnapshotIdList
full_list = record { nr = 1; size = 1; data_ = 9 ∷ [] }

add_nodup-Added_example :
    Added (λ _. true) full_list 4 (snapshot_list_add_nodup (λ _. true) full_list 4)
add_nodup-Added_example = add_nodup-Added (λ _. true) full_list 4 (omega arith)

-- The same list with an allocator that refuses.
keeps_full : snapshot_list_add_nodup (λ _. false) full_list 4 ≡ (full_list, enomem)
unfolding snapshot_list_add_nodup snapshot_list_has_id grow_list bit_length_fuel
keeps_full = refl
