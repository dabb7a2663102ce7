-- ===== src/Tests/Reservations.antt =====
-- Reservations of crates/subvol/src/journal.rs.
use subvol.Prelude.{
  ℕ, ◌+◌, ◌-◌, ◌*◌, ◌≡◌, ◌≢◌, ◌⊎◌, refl, true, false, some, none, [], ◌∷◌, List, length, get_or,
  set, leb, ltb, ◌&&◌, if◌then◌else◌, arith,
}
use subvol.Prelude.Run.{ok}
use subvol.Journal.Res.{
  Journal, JournalRes, JournalBuf, journal_state_offset, journal_state_idx, journal_state_count,
  journal_state_set_offset, journal_state_inc, journal_state_dec, journal_res_get_fast,
  bch2_journal_res_put, write_word, bch2_journal_add_entry, fill, release,
}
use subvol.Journal.Res.Fields.{Recounted, count_lem}
use subvol.Journal.Res.Got.{Got, get-Got}
use subvol.Journal.Res.Put.{put_lem}

-- Buffer 1 is current and held once; 5 words are taken.
abbrev state : ℕ
state = 5 + 1 * 4194304 + 1 * 17179869184

abbrev buf : ℕ → JournalBuf
buf n = record {
  seq = n;
  has_overwrites = false;
  data_ = 11 ∷ 12 ∷ 13 ∷ 14 ∷ 15 ∷ 16 ∷ 17 ∷ 18 ∷ [];
}

abbrev journal : Journal
journal = record {
  reservations = state;
  cur_entry_u64s = 8;
  watermark = 0;
  seq = 9;
  ring = buf 8 ∷ buf 9 ∷ buf 6 ∷ buf 7 ∷ [];
}

abbrev new_res : JournalRes
new_res = record { ref_ = false; has_overwrites = false; u64s = 2; offset = 0; seq = 0 }

abbrev held_res : JournalRes
held_res = record { ref_ = true; has_overwrites = false; u64s = 2; offset = 5; seq = 9 }

abbrev held_journal : Journal
held_journal = record journal { reservations = 7 + 1 * 4194304 + 2 * 17179869184 }

gets : journal_res_get_fast journal new_res 0 ≡ ok (held_journal, held_res)
unfolding journal_res_get_fast journal_state_offset journal_state_idx journal_state_count
    journal_state_inc journal_state_set_offset
gets = refl

get-Got_example : Got journal new_res 0 (journal_res_get_fast journal new_res 0)
get-Got_example = get-Got journal new_res 0 (omega arith)

held_count : journal_state_count (held_journal.reservations) 1 ≢ 0
unfolding journal_state_count
held_count = λ e. absurd (omega arith)

put_lem_example :
    (words : List ℕ) × (v' : ℕ) × (bch2_journal_res_put held_journal held_res
      ≡ ok (
        record held_journal {
          reservations = v';
          ring = set held_journal.ring 1 (record (buf 9) { data_ = words });
        },
        record held_res { ref_ = false; u64s = 0; offset = 7 },
      ))
    × (length words ≡ 8)
    × ((k : ℕ) → get_or words k 0 ≡ (if leb 5 k && ltb k 7 then 0 else get_or (buf 9).data_ k 0))
    × Recounted held_journal.reservations 1 (journal_state_count held_journal.reservations 1 - 1) v'
put_lem_example = put_lem held_journal held_res refl refl (omega arith) (omega arith) held_count

-- After putting, the words of the reservation are 0 and the others as before.
puts :
    bch2_journal_res_put held_journal held_res
    ≡ ok (
      record held_journal {
        reservations = 7 + 1 * 4194304 + 1 * 17179869184;
        ring =
            buf 8
            ∷ record (buf 9) { data_ = 11 ∷ 12 ∷ 13 ∷ 14 ∷ 15 ∷ 0 ∷ 0 ∷ 18 ∷ [] }
            ∷ buf 6
            ∷ buf 7
            ∷ [];
      },
      record held_res { ref_ = false; u64s = 0; offset = 7 },
    )
unfolding bch2_journal_res_put fill release bch2_journal_add_entry write_word journal_state_count
    journal_state_dec
puts = refl

count_lem_example :
    (((journal_state_count state 1 ≡ 0x3ff) × (journal_state_inc state 1 ≡ none))
      ⊎ ((v' : ℕ) × (journal_state_inc state 1 ≡ some v')
          × (journal_state_count state 1 ≢ 0x3ff)
          × Recounted state 1 (journal_state_count state 1 + 1) v'))
    × (((journal_state_count state 1 ≡ 0) × (journal_state_dec state 1 ≡ none))
        ⊎ ((v' : ℕ) × (journal_state_dec state 1 ≡ some v')
            × (journal_state_count state 1 ≢ 0)
            × Recounted state 1 (journal_state_count state 1 - 1) v'))
count_lem_example = count_lem state 1 (omega arith)
