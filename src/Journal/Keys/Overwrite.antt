-- ===== src/Journal/Keys/Overwrite.antt =====
-- Marking a journal key overwritten once the btree holds a newer one: `__bch2_journal_key_overwritten`
-- joins the ranges on either side of the key.
use subvol.Prelude.{
  ℕ, zero, suc, ◌+◌, Bool, true, not, Option, none, some, List, [], ◌∷◌, length, get_elem?, get_or,
  min, max, ltb, leb, ◌==◌, ◌&&◌, if◌then◌else◌,
}
use subvol.Prelude.Int.{ℤ, pos}
use subvol.Prelude.Options.{map_or, ◌>>=◌}
use subvol.Bkey.Pos.{Bpos}
use subvol.Journal.Keys.{
  JournalKey, JournalKeys, JournalKeyRangeOverwritten, with_range, push_range, is_at,
}

abbrev pub modify {ℓ} : {A : Type ℓ} → List A → ℕ → (A → A) → List A
modify [] i f = []
modify (x ∷ xs) zero f = f x ∷ xs
modify (x ∷ xs) (suc i) f = x ∷ modify xs i f

abbrev pub mark_overwritten : JournalKey → JournalKey
mark_overwritten key = record key { overwritten = true }

-- The index, when the key there is overwritten and of the same tree.
abbrev pub neighbour : List JournalKey → JournalKey → ℕ → Option ℕ
neighbour keys key i = elim (get_elem? keys i) [
  | none ↦ none
  | some other ↦
      if (other.btree_id == key.btree_id) && (other.level == key.level) && other.overwritten
      then some i
      else none
]

abbrev pub prev_neighbour : List JournalKey → JournalKey → ℕ → Option ℕ
prev_neighbour keys key zero = none
prev_neighbour keys key (suc i) = neighbour keys key i

-- The index of the range of a neighbour, when it is that of a range.
abbrev pub neighbour_range : List JournalKey → List JournalKeyRangeOverwritten → Option ℕ → Option ℕ
neighbour_range keys ranges none = none
neighbour_range keys ranges (some i) = elim (get_elem? keys i) [
  | none ↦ none
  | some key ↦
      if not (key.overwritten_range == 0) && ltb key.overwritten_range (length ranges)
      then some key.overwritten_range
      else none
]

-- The keys from `start` to `end` get the range; `idx` is the index of the first key of the list.
abbrev pub set_ranges : ℕ → ℕ → ℕ → ℕ → List JournalKey → List JournalKey
set_ranges range start end idx [] = []
set_ranges range start end idx (key ∷ keys) =
    (if leb start idx && ltb idx end then with_range range key else key)
    ∷ set_ranges range start end (idx + 1) keys

abbrev pub no_range : JournalKeyRangeOverwritten
no_range = record { start = 0; end = 0 }

abbrev pub set_range_at : ℕ → Option ℕ → List JournalKey → List JournalKey
set_range_at range none keys = keys
set_range_at range (some i) keys = modify keys i (with_range range)

-- The four cases of the ranges on either side of `idx`, by the neighbours and their ranges.
unfoldable pub join_ranges :
    JournalKeys → ℕ → Option ℕ → Option ℕ → Option ℕ → Option ℕ → JournalKeys
join_ranges keys idx prev_idx next_idx (some prev) (some next) =
    let behind = get_or keys.overwrites next no_range in
    record keys {
      overwrites = modify keys.overwrites prev (λ r. record r { end = behind.end });
      data_ = set_ranges prev behind.start behind.end 0 (modify keys.data_ idx (with_range prev));
    }
join_ranges keys idx prev_idx next_idx (some prev) none = record keys {
  overwrites = modify keys.overwrites prev (λ r. record r { end = max r.end (idx + 1) });
  data_ = modify keys.data_ idx (with_range prev);
}
join_ranges keys idx prev_idx next_idx none (some next) = record keys {
  overwrites = modify keys.overwrites next (λ r. record r { start = min r.start idx });
  data_ = modify keys.data_ idx (with_range next);
}
join_ranges keys idx prev_idx next_idx none none =
    let start = map_or idx (λ i. i) prev_idx in
    let end = map_or (idx + 1) (λ i. i + 1) next_idx in
    let (range, ranges) = push_range keys.overwrites start end in
    record keys {
      overwrites = ranges;
      data_ =
          set_range_at range next_idx
            (set_range_at range prev_idx (modify keys.data_ idx (with_range range)));
    }

-- `__bch2_journal_key_overwritten` for the key at `idx`
unfoldable pub journal_key_overwritten : JournalKeys → ℕ → JournalKey → JournalKeys
journal_key_overwritten keys idx key =
    let marked = modify keys.data_ idx mark_overwritten in
    let prev_idx = prev_neighbour marked key idx in
    let next_idx = neighbour marked key (idx + 1) in
    join_ranges (record keys { data_ = marked }) idx prev_idx next_idx
      (neighbour_range marked keys.overwrites prev_idx)
      (neighbour_range marked keys.overwrites next_idx)

-- The first key at a place
abbrev pub find_at : ℕ → ℕ → Bpos → List JournalKey → Option (ℕ × JournalKey)
find_at btree_id level p [] = none
find_at btree_id level p (key ∷ keys) =
    if is_at btree_id level p key
    then some (0, key)
    else (find_at btree_id level p keys >>= λ found. some (suc found.0, found.1))

unfoldable pub bch2_journal_key_check_or_overwrite :
    Option JournalKeys → ℕ → ℕ → Bpos → Bool → Option JournalKeys × ℤ
bch2_journal_key_check_or_overwrite none btree_id level p check = (none, pos 0)
bch2_journal_key_check_or_overwrite (some keys) btree_id level p check =
    elim (find_at btree_id level p keys.data_) [
      | none ↦ (some keys, pos 0)
      | some (idx, key) ↦
          if key.overwritten
          then (some keys, pos 0)
          else if check
          then (some keys, pos 0)
          else (some (journal_key_overwritten keys idx key), pos 0)
    ]
