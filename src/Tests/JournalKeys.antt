-- ===== src/Tests/JournalKeys.antt =====
-- Journal keys of crates/subvol/src/journal.rs.
use subvol.Prelude.{
  ℕ, zero, suc, ◌^◌, ◌<◌, ◌≡◌, ◌≢◌, refl, true, false, some, none, [], ◌∷◌, length, arith,
}
use subvol.Prelude.Int.{pos}
use subvol.Bkey.Pos.{Bpos, spos, bpos_cmp}
use subvol.Bkey.Key.{zero_version, bkey_bytes}
use subvol.Journal.Keys.{
  BkeyI, JournalKey, JournalKeys, bch2_journal_key_insert, journal_keys_sort, mark_ranges,
  journal_key_le,
}
use subvol.Journal.Keys.Peek.{
  bch2_journal_keys_peek_max, peek_max_from, bch2_journal_keys_peek_slot,
  bch2_journal_keys_peek_prev_min, in_range,
}
use subvol.Journal.Keys.Overwrite.{
  bch2_journal_key_check_or_overwrite, journal_key_overwritten, join_ranges,
}
use subvol.Journal.Keys.Rank.{place_rank, IsPlace}
use subvol.Journal.Keys.Valid.{RangesSound, IsJournalKeys}
use subvol.Journal.Keys.Insert.{Inserted, insert-Inserted}
use subvol.Journal.Keys.Found.{Ahead, peek_max-Ahead}
use subvol.Journal.Keys.Slot.{peek_slot_lem}
use subvol.Journal.Keys.Behind.{Behind, peek_prev_min-Behind}
use subvol.Journal.Keys.Checked.{
  Checked, check_or_overwrite-Checked, peek_slot-overwritten, peek_slot-insert,
}

abbrev empty_keys : JournalKeys
empty_keys = record { nr = 0; size = 0; gap = 0; data_ = []; pre_sort = []; overwrites = [] }

empty_keys-IsJournalKeys : IsJournalKeys empty_keys
empty_keys-IsJournalKeys = record {
  valid = tt;
  ascending = tt;
  count = refl;
  ranges = λ i key e. cc e;
  known = tt;
}

abbrev key_at : ℕ → BkeyI
key_at offset = record {
  k = record {
    u64s = 6;
    format = 1;
    type_ = 25;
    bversion = zero_version;
    size = 0;
    p = spos 4 offset 0;
  };
  v = 7 ∷ [];
}

abbrev entry_at : ℕ → JournalKey
entry_at offset = record {
  journal_seq_offset = 0;
  journal_offset = 0;
  btree_id = 1;
  level = 0;
  allocated = true;
  overwritten = false;
  rewind = false;
  overwritten_range = 0;
  allocated_k = key_at offset;
}

-- Three keys, of which the first two are overwritten.
abbrev over_at : ℕ → JournalKey
over_at offset = record (entry_at offset) { overwritten = true; overwritten_range = 1 }

abbrev three_keys : JournalKeys
three_keys = record {
  nr = 3;
  size = 3;
  gap = 0;
  pre_sort = [];
  data_ = over_at 10 ∷ over_at 20 ∷ entry_at 30 ∷ [];
  overwrites = record { start = 0; end = 0 } ∷ record { start = 0; end = 2 } ∷ [];
}

abbrev three_live : JournalKeys
three_live = record {
  nr = 3;
  size = 3;
  gap = 0;
  pre_sort = [];
  overwrites = [];
  data_ = entry_at 10 ∷ entry_at 20 ∷ entry_at 30 ∷ [];
}

places : (offset : ℕ) → offset < 2 ^ 64 → IsPlace 1 0 (spos 4 offset 0)
places offset fits = omega arith

three_live-RangesSound : RangesSound three_live
three_live-RangesSound zero key e = let same : entry_at 10 ≡ key = cc in rw (← same) tt
three_live-RangesSound (suc zero) key e = let same : entry_at 20 ≡ key = cc in rw (← same) tt
three_live-RangesSound (suc (suc zero)) key e = let same : entry_at 30 ≡ key = cc in rw (← same) tt
three_live-RangesSound (suc (suc (suc i))) key e = cc e

three_live-IsJournalKeys : IsJournalKeys three_live
three_live-IsJournalKeys = record {
  valid = (omega arith, (omega arith, (omega arith, tt)));
  ascending = (omega arith, (omega arith, (omega arith, tt)));
  count = refl;
  ranges = three_live-RangesSound;
  known = (omega arith, (omega arith, (omega arith, tt)));
}

-- The middle key is overwritten, then the first: the second mark widens the range of the first.
overwrites_middle :
    bch2_journal_key_check_or_overwrite (some three_live) 1 0 (spos 4 20 0) false ≡ (
      some (record three_live {
        data_ = entry_at 10 ∷ over_at 20 ∷ entry_at 30 ∷ [];
        overwrites = record { start = 0; end = 0 } ∷ record { start = 1; end = 2 } ∷ [];
      }),
      pos 0,
    )
unfolding bch2_journal_key_check_or_overwrite journal_key_overwritten join_ranges
overwrites_middle = refl

overwrites_first :
    bch2_journal_key_check_or_overwrite
      (some (record three_live {
        data_ = entry_at 10 ∷ over_at 20 ∷ entry_at 30 ∷ [];
        overwrites = record { start = 0; end = 0 } ∷ record { start = 1; end = 2 } ∷ [];
      }))
      1
      0
      (spos 4 10 0)
      false
    ≡ (some three_keys, pos 0)
unfolding bch2_journal_key_check_or_overwrite journal_key_overwritten join_ranges
overwrites_first = refl

-- Sorting finds the same ranges.
sorts : journal_keys_sort (record three_keys { overwrites = [] }) ≡ three_keys
unfolding journal_keys_sort mark_ranges journal_key_le bpos_cmp
sorts = refl

skips_overwritten :
    bch2_journal_keys_peek_max 4 three_keys 1 0 (spos 4 0 0) (spos 4 99 0) 0
    ≡ some (2, some (key_at 30))
unfolding bch2_journal_keys_peek_max peek_max_from in_range bpos_cmp
skips_overwritten = refl

insert-Inserted_example :
    Inserted
      (λ _. true)
      three_live
      (place_rank 1 0 (spos 4 20 0))
      (key_at 20)
      (bch2_journal_key_insert (λ _. true) (some three_live) 1 0 (some (key_at 20)))
insert-Inserted_example =
    insert-Inserted (λ _. true) three_live 1 0 (key_at 20) three_live-IsJournalKeys
      (places 20 (omega arith)) (omega arith)

peek_max-Ahead_example :
    Ahead three_live.data_
      (place_rank 1 0 (spos 4 15 0))
      (place_rank 1 0 (spos 4 99 0))
      0
      (bch2_journal_keys_peek_max 4 three_live 1 0 (spos 4 15 0) (spos 4 99 0) 0)
peek_max-Ahead_example =
    peek_max-Ahead three_live 1 0 (spos 4 15 0) (spos 4 99 0) 4 0 three_live-IsJournalKeys
      (places 15 (omega arith)) (places 99 (omega arith)) (omega arith) (omega arith)

peek_prev_min-Behind_example :
    Behind three_live.data_
      (place_rank 1 0 (spos 4 15 0))
      (place_rank 1 0 (spos 4 25 0))
      3
      (bch2_journal_keys_peek_prev_min 4 three_live 1 0 (spos 4 25 0) (spos 4 15 0) 0)
peek_prev_min-Behind_example =
    peek_prev_min-Behind three_live 1 0 (spos 4 25 0) (spos 4 15 0) 4 0 three_live-IsJournalKeys
      (places 25 (omega arith)) (places 15 (omega arith)) (omega arith) (omega arith)

peek_slot_lem_example :
    bch2_journal_keys_peek_slot 4 three_live 1 0 (spos 4 20 0) ≡ some (some (key_at 20))
peek_slot_lem_example =
    peek_slot_lem three_live 1 0 (spos 4 20 0) 4 three_live-IsJournalKeys (places 20 (omega arith))
      (omega arith)

check_or_overwrite-Checked_example :
    (keys' : JournalKeys) × (bch2_journal_key_check_or_overwrite
        (some three_live)
        1
        0
        (spos 4 20 0)
        false
      ≡ (some keys', pos 0))
    × Checked three_live (place_rank 1 0 (spos 4 20 0)) false keys'
check_or_overwrite-Checked_example =
    check_or_overwrite-Checked three_live 1 0 (spos 4 20 0) false three_live-IsJournalKeys
      (places 20 (omega arith)) (omega arith)

peek_slot-overwritten_example :
    (keys' : JournalKeys) × (bch2_journal_key_check_or_overwrite
        (some three_live)
        1
        0
        (spos 4 20 0)
        false
      ≡ (some keys', pos 0))
    × ((fuel : ℕ)
        → length keys'.data_ < fuel
        → bch2_journal_keys_peek_slot fuel keys' 1 0 (spos 4 20 0) ≡ some none)
peek_slot-overwritten_example =
    peek_slot-overwritten three_live 1 0 (spos 4 20 0) three_live-IsJournalKeys
      (places 20 (omega arith)) (omega arith)

peek_slot-insert_example :
    (keys' : JournalKeys) × (bch2_journal_key_insert
        (λ _. true)
        (some three_live)
        1
        0
        (some (key_at 25))
      ≡ (some keys', pos 0))
    × ((fuel : ℕ)
        → length keys'.data_ < fuel
        → bch2_journal_keys_peek_slot fuel keys' 1 0 (spos 4 25 0) ≡ some (some (key_at 25)))
    × ((btree_id' level' : ℕ) (p : Bpos) (fuel : ℕ)
        → IsPlace btree_id' level' p
        → place_rank btree_id' level' p ≢ place_rank 1 0 (spos 4 25 0)
        → length keys'.data_ < fuel
        → 3 < fuel
        → bch2_journal_keys_peek_slot fuel keys' btree_id' level' p
          ≡ bch2_journal_keys_peek_slot fuel three_live btree_id' level' p)
unfolding bkey_bytes
peek_slot-insert_example =
    peek_slot-insert (λ _. true) three_live 1 0 (key_at 25) three_live-IsJournalKeys
      (places 25 (omega arith)) (omega arith) (omega arith) refl
