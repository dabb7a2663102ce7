-- ===== src/Journal/Keys/Peek.antt =====
-- Looking up journal keys: forwards, backwards, and at one position.
use subvol.Prelude.{
  ℕ, zero, suc, ◌+◌, Bool, true, false, not, Option, none, some, List, length, get_elem?, min, leb,
  ◌==◌, ◌&&◌, if◌then◌else◌,
}
use subvol.Bkey.Pos.{Bpos, bpos_cmp}
use subvol.Journal.Keys.{
  BkeyI, JournalKey, JournalKeys, JournalKeyRangeOverwritten, key_pos, is_negative, is_positive,
  same_pos,
}

-- A key of the tree from `low` to `high`
unfoldable pub in_range : ℕ → ℕ → Bpos → Bpos → JournalKey → Bool
in_range btree_id level low high key =
    (key.btree_id == btree_id)
    && (key.level == level)
    && not (is_negative (bpos_cmp (key_pos key) low))
    && not (is_positive (bpos_cmp (key_pos key) high))

-- The range of an index, when it is that of one.
abbrev pub range_at : List JournalKeyRangeOverwritten → ℕ → Option JournalKeyRangeOverwritten
range_at ranges range = if range == 0 then none else get_elem? ranges range

abbrev pub range_of : JournalKeys → JournalKey → Option JournalKeyRangeOverwritten
range_of keys key = range_at keys.overwrites key.overwritten_range

abbrev pub next_index : JournalKeys → JournalKey → ℕ → ℕ
next_index keys key idx = elim (range_of keys key) [ none ↦ idx + 1 | some range ↦ range.end ]

-- The loop of `bch2_journal_keys_peek_max`, on fuel: the index it ends at, and the key if it found
-- one there.
unfoldable pub peek_max_from : ℕ → JournalKeys → ℕ → ℕ → Bpos → Bpos → ℕ → Option (ℕ × Option BkeyI)
peek_max_from zero keys btree_id level low high idx = none
peek_max_from (suc fuel) keys btree_id level low high idx = elim (get_elem? keys.data_ idx) [
  | none ↦ some (idx, none)
  | some key ↦
      let inside = in_range btree_id level low high key in
      let next = if inside && key.overwritten then next_index keys key idx else idx + 1 in
      let rest = peek_max_from fuel keys btree_id level low high next in
      if inside && not key.overwritten then some (idx, some key.allocated_k) else rest
]

-- No result also where the assertion on the index fails.
unfoldable pub bch2_journal_keys_peek_max :
    ℕ → JournalKeys → ℕ → ℕ → Bpos → Bpos → ℕ → Option (ℕ × Option BkeyI)
bch2_journal_keys_peek_max fuel keys btree_id level low high idx =
    if leb idx (length keys.data_)
    then peek_max_from fuel keys btree_id level low high idx
    else none

abbrev pub at_pos : Bpos → Option BkeyI → Option BkeyI
at_pos p none = none
at_pos p (some key) = if same_pos key.k.p p then some key else none

unfoldable pub bch2_journal_keys_peek_slot : ℕ → JournalKeys → ℕ → ℕ → Bpos → Option (Option BkeyI)
bch2_journal_keys_peek_slot fuel keys btree_id level p =
    elim (bch2_journal_keys_peek_max fuel keys btree_id level p p 0) [
      | none ↦ none
      | some (idx, found) ↦ some (at_pos p found)
    ]

abbrev pub prev_index : JournalKeys → JournalKey → ℕ → ℕ
prev_index keys key cursor = elim (range_of keys key) [ none ↦ cursor | some range ↦ range.start ]

-- The loop of `bch2_journal_keys_peek_prev_min` over the keys below `cursor`
unfoldable pub peek_prev_below :
    ℕ → JournalKeys → ℕ → ℕ → Bpos → Bpos → ℕ → Option (ℕ × Option BkeyI)
peek_prev_below zero keys btree_id level high low cursor = none
peek_prev_below (suc fuel) keys btree_id level high low zero = some (0, none)
peek_prev_below (suc fuel) keys btree_id level high low (suc cursor) =
    elim (get_elem? keys.data_ cursor) [
      | none ↦ none
      | some key ↦
          let inside = in_range btree_id level low high key in
          let next = if inside && key.overwritten then prev_index keys key cursor else cursor in
          let rest = peek_prev_below fuel keys btree_id level high low next in
          if inside && not key.overwritten then some (cursor, some key.allocated_k) else rest
    ]

unfoldable pub bch2_journal_keys_peek_prev_min :
    ℕ → JournalKeys → ℕ → ℕ → Bpos → Bpos → ℕ → Option (ℕ × Option BkeyI)
bch2_journal_keys_peek_prev_min fuel keys btree_id level high low idx =
    let n = length keys.data_ in
    let cursor = if idx == 0 then n else min (idx + 1) n in
    if leb idx n then peek_prev_below fuel keys btree_id level high low cursor else none

abbrev pub key_type_deleted : ℕ
key_type_deleted = 0

-- The flag says that replay is not finished.
unfoldable pub bch2_key_deleted_in_journal : Bool → ℕ → JournalKeys → ℕ → ℕ → Bpos → Option Bool
bch2_key_deleted_in_journal false fuel keys btree_id level p = some false
bch2_key_deleted_in_journal true fuel keys btree_id level p =
    elim (bch2_journal_keys_peek_slot fuel keys btree_id level p) [
      | none ↦ none
      | some none ↦ some false
      | some (some key) ↦ some (key.k.type_ == key_type_deleted)
    ]
