-- ===== src/Journal/Keys.antt =====
-- The journal keys of crates/subvol/src/journal.rs (with the records of btree/types.rs): an array
-- sorted by btree, level and position, in which each run of overwritten keys shares a range.
pub mod Peek
pub mod Overwrite
pub mod Rank
pub mod Sorted
pub mod Ranges
pub mod Known
pub mod Valid
pub mod Insert
pub mod Found
pub mod Slot
pub mod Behind
pub mod Marked
pub mod Moved
pub mod Neighbours
pub mod Joined
pub mod Checked
use subvol.Prelude.{
  ℕ, zero, suc, ◌+◌, ◌%◌, ◌^◌, Bool, true, false, not, Option, none, some, List, [], ◌∷◌, ◌++◌,
  length, ltb, ◌==◌, ◌&&◌, if◌then◌else◌,
}
use subvol.Prelude.Int.{ℤ, pos, negsuc}
use subvol.Bkey.Pos.{Bpos, bpos_cmp}
use subvol.Bkey.Key.{Bkey, bkey_bytes}

-- `bkey_i`: a key and the words of its value behind it
pub record BkeyI : Type 0 where
  pub k : Bkey
  pub v : List ℕ

-- An entry of the array; its key is never missing, since only `bch2_journal_key_insert` makes one.
pub record JournalKey : Type 0 where
  pub journal_seq_offset : ℕ
  pub journal_offset : ℕ
  pub btree_id : ℕ
  pub level : ℕ
  pub allocated : Bool
  pub overwritten : Bool
  pub rewind : Bool
  pub overwritten_range : ℕ
  pub allocated_k : BkeyI

pub record JournalKeyRangeOverwritten : Type 0 where
  pub start : ℕ
  pub end : ℕ

pub record JournalKeys : Type 0 where
  pub nr : ℕ
  pub size : ℕ
  pub gap : ℕ
  pub data_ : List JournalKey
  pub pre_sort : List JournalKey
  pub overwrites : List JournalKeyRangeOverwritten

abbrev pub key_pos : JournalKey → Bpos
key_pos key = key.allocated_k.k.p

abbrev pub is_negative : ℤ → Bool
is_negative (pos n) = false
is_negative (negsuc n) = true

abbrev pub is_positive : ℤ → Bool
is_positive (pos n) = ltb 0 n
is_positive (negsuc n) = false

-- `==` of two positions
abbrev pub same_pos : Bpos → Bpos → Bool
same_pos p q = (p.snapshot == q.snapshot) && (p.offset == q.offset) && (p.inode == q.inode)

unfoldable pub bch2_journal_keys_clear : JournalKeys → JournalKeys
bch2_journal_keys_clear keys = record {
  nr = 0;
  size = 0;
  gap = 0;
  data_ = [];
  pre_sort = [];
  overwrites = [];
}

-- The closure that the array is sorted by says that `left` is not behind `right`.
unfoldable pub journal_key_le : JournalKey → JournalKey → Bool
journal_key_le left right =
    if ltb left.btree_id right.btree_id
    then true
    else if ltb right.btree_id left.btree_id
    then false
    else if ltb left.level right.level
    then true
    else if ltb right.level left.level
    then false
    else not (is_positive (bpos_cmp (key_pos left) (key_pos right)))

abbrev pub insert_sorted : JournalKey → List JournalKey → List JournalKey
insert_sorted key [] = key ∷ []
insert_sorted key (next ∷ keys) =
    let rest = insert_sorted key keys in
    if journal_key_le key next then key ∷ next ∷ keys else next ∷ rest

-- `sort_by`, which is stable
abbrev pub sort_keys : List JournalKey → List JournalKey
sort_keys [] = []
sort_keys (key ∷ keys) = insert_sorted key (sort_keys keys)

-- How many keys behind the first of a run belong to it.
abbrev pub run_length : ℕ → ℕ → List JournalKey → ℕ
run_length btree_id level [] = 0
run_length btree_id level (key ∷ keys) =
    let rest = run_length btree_id level keys in
    if key.overwritten && (key.btree_id == btree_id) && (key.level == level) then suc rest else 0

-- The ranges with one for the run from `start` to `end`; the range 0 is never a run.
abbrev pub push_range :
    List JournalKeyRangeOverwritten → ℕ → ℕ → ℕ × List JournalKeyRangeOverwritten
push_range [] start end =
    (1, record { start = 0; end = 0 } ∷ record { start = start; end = end } ∷ [])
push_range (r ∷ rs) start end =
    (length (r ∷ rs), (r ∷ rs) ++ (record { start = start; end = end } ∷ []))

-- `range as u32`
abbrev pub with_range : ℕ → JournalKey → JournalKey
with_range range key = record key { overwritten_range = range % 2 ^ 32 }

-- The loop of `__journal_keys_sort`. `left` counts the keys of a run that still get its range
-- `range`; `idx` is the index of the first key of the list.
unfoldable pub mark_ranges :
    ℕ
    → ℕ
    → ℕ
    → List JournalKey
    → List JournalKeyRangeOverwritten
    → List JournalKey × List JournalKeyRangeOverwritten
mark_ranges left range idx [] ranges = ([], ranges)
mark_ranges (suc left) range idx (key ∷ keys) ranges =
    let (rest, all) = mark_ranges left range (idx + 1) keys ranges in
    (with_range range key ∷ rest, all)
mark_ranges zero range idx (key ∷ keys) ranges =
    let n = run_length key.btree_id key.level keys in
    let (range', ranges') = push_range ranges idx (idx + 1 + n) in
    let (left, at, known) : ℕ × ℕ × List JournalKeyRangeOverwritten =
      if key.overwritten then (n, range', ranges') else (0, 0, ranges) in
    let (rest, all) = mark_ranges left at (idx + 1) keys known in (with_range at key ∷ rest, all)

-- `__journal_keys_sort`
unfoldable pub journal_keys_sort : JournalKeys → JournalKeys
journal_keys_sort keys =
    let (marked, ranges) = mark_ranges 0 0 0 (sort_keys keys.data_) [] in
    record keys { data_ = marked; overwrites = ranges }

-- An entry for a place of the tree
abbrev pub is_at : ℕ → ℕ → Bpos → JournalKey → Bool
is_at btree_id level p key =
    (key.btree_id == btree_id) && (key.level == level) && same_pos (key_pos key) p

-- The first key at the place gets the copy and is no longer overwritten; without one, no result.
abbrev pub replace_first : ℕ → ℕ → BkeyI → List JournalKey → Option (List JournalKey)
replace_first btree_id level copied [] = none
replace_first btree_id level copied (key ∷ keys) =
    if is_at btree_id level copied.k.p key
    then some (
        record key {
          allocated = true;
          allocated_k = copied;
          overwritten = false;
          overwritten_range = 0;
        }
        ∷ keys)
    else elim (replace_first btree_id level copied keys) [
      | none ↦ none
      | some keys' ↦ some (key ∷ keys')
    ]

abbrev pub new_key : ℕ → ℕ → BkeyI → JournalKey
new_key btree_id level copied = record {
  journal_seq_offset = 0;
  journal_offset = 0;
  btree_id = btree_id;
  level = level;
  allocated = true;
  overwritten = false;
  rewind = false;
  overwritten_range = 0;
  allocated_k = copied;
}

unfoldable pub insert_copy : JournalKeys → ℕ → ℕ → BkeyI → JournalKeys
insert_copy keys btree_id level copied = elim (replace_first btree_id level copied keys.data_) [
  | some replaced ↦ journal_keys_sort (record keys { data_ = replaced })
  | none ↦
      let pushed = keys.data_ ++ (new_key btree_id level copied ∷ []) in
      journal_keys_sort (record keys { data_ = pushed; nr = length pushed; size = length pushed })
]

-- `alloc bytes` says whether the allocator has room for a copy of that many bytes; a pointer that
-- is null is `none`. The results -22 and -12 leave the keys as they are.
unfoldable pub bch2_journal_key_insert :
    (ℕ → Bool) → Option JournalKeys → ℕ → ℕ → Option BkeyI → Option JournalKeys × ℤ
bch2_journal_key_insert alloc (some keys) btree_id level (some key) =
    let bytes = bkey_bytes key.k in
    if ltb bytes 40
    then (some keys, negsuc 21)
    else if alloc bytes
    then (some (insert_copy keys btree_id level key), pos 0)
    else (some keys, negsuc 11)
bch2_journal_key_insert alloc keys btree_id level key = (keys, negsuc 21)
