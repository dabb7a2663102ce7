-- ===== src/Journal/Res/Got.antt =====
-- Getting a reservation.
use subvol.Prelude.{
  ℕ, ◌+◌, ◌-◌, ◌*◌, ◌%◌, ◌^◌, ◌≤◌, ◌<◌, ◌≡◌, ◌≢◌, inl, inr, ◌∙◌, true, get_or, ltb, ◌==◌,
  if◌then◌else◌, arith, Bool-cases, ==_iff, ==→ne, ltb→lt, ltb→le,
}
use subvol.Prelude.Run.{Run, ok, refused, panic}
use subvol.Journal.Res.{
  Journal, JournalRes, JournalBuf, no_buf, journal_state_offset, journal_state_idx,
  journal_state_count, journal_state_inc, taken, journal_res_get_fast,
}
use subvol.Journal.Res.Fields.{set_offset_lem, inc_count}

-- The count of the current buffer
abbrev pub current_count : Journal → ℕ
current_count j = journal_state_count j.reservations (journal_state_idx j.reservations)

abbrev pub HasRoom : Journal → JournalRes → Type 0
HasRoom j res = journal_state_offset j.reservations + res.u64s ≤ j.cur_entry_u64s

-- The sequence number of the current buffer: the greatest one, up to that of the journal, of its
-- index.
abbrev pub current_seq : Journal → ℕ
current_seq j = j.seq - (j.seq - journal_state_idx j.reservations) % 4

abbrev pub current_buf : Journal → JournalBuf
current_buf j = get_or j.ring (journal_state_idx j.reservations) no_buf

abbrev pub IsCurrent : Journal → Type 0
IsCurrent j = (journal_state_idx j.reservations ≤ j.seq) × ((current_buf j).seq ≡ current_seq j)

-- What an attempt at a reservation may do. The conditions exclude each other.
pub data Got (j : Journal) (res : JournalRes) (flags : ℕ)
    : Run (Journal × JournalRes) → Type 0 where
  no_room : (HasRoom j res → ⊥) → Got j res flags refused
  closed : HasRoom j res → current_count j ≡ 0 → Got j res flags panic
  low : HasRoom j res → current_count j ≢ 0 → flags % 2 ^ 3 < j.watermark → Got j res flags refused
  full :
      HasRoom j res
      → j.watermark ≤ flags % 2 ^ 3
      → current_count j ≡ 0x3ff
      → Got j res flags refused
  other_seq :
      HasRoom j res
      → current_count j ≢ 0
      → j.watermark ≤ flags % 2 ^ 3
      → current_count j ≢ 0x3ff
      → (IsCurrent j → ⊥)
      → Got j res flags panic
  got :
      (v' : ℕ)
      → HasRoom j res
      → current_count j ≢ 0
      → j.watermark ≤ flags % 2 ^ 3
      → current_count j ≢ 0x3ff
      → IsCurrent j
      → journal_state_offset v' ≡ journal_state_offset j.reservations + res.u64s
      → journal_state_idx v' ≡ journal_state_idx j.reservations
      → ((i : ℕ)
          → i < 4
          → journal_state_count v' i ≡ (
              if i == journal_state_idx j.reservations
              then journal_state_count j.reservations i + 1
              else journal_state_count j.reservations i))
      → current_seq j % 4 ≡ journal_state_idx j.reservations
      → Got j res flags (
          ok (
            record j { reservations = v' },
            record res {
              ref_ = true;
              offset = journal_state_offset j.reservations;
              seq = current_seq j;
              has_overwrites = (current_buf j).has_overwrites;
            },
          ))

idx_lt : (v : ℕ) → journal_state_idx v < 4
unfolding journal_state_idx
idx_lt v = omega arith

-- The exchange of the state word
taken-Got :
    (j : Journal) (res : JournalRes) (flags : ℕ)
    → j.cur_entry_u64s < 2 ^ 22
    → HasRoom j res
    → current_count j ≢ 0
    → j.watermark ≤ flags % 2 ^ 3
    → current_count j ≢ 0x3ff
    → Got j res flags (
        taken j res
          (journal_state_idx j.reservations)
          (journal_state_offset j.reservations)
          (j.reservations + 2 ^ (24 + journal_state_idx j.reservations * 10)))
taken-Got j res flags small fits is_open over room =
    let v = j.reservations in
    let idx = journal_state_idx v in
    let inc = v + 2 ^ (24 + idx * 10) in
    let seq = j.seq - (j.seq - idx) % 4 in
    let (o, x, same, others) = inc_count v idx (idx_lt v) room in
    let (o', (x', counts)) = set_offset_lem inc (journal_state_offset v + res.u64s) (omega arith) in
    let few = idx_lt v in
    let one_more : (i : ℕ)
        → i < 4
        → journal_state_count inc i
          ≡ (if i == idx then journal_state_count v i + 1 else journal_state_count v i) =
      λ i lt. elim (Bool-cases (i == idx)) [
        | inl here ↦ let e : i ≡ idx = (==_iff _ _).0 here in rw (here, e) same
        | inr other ↦ rw other (others i lt (==→ne _ _ other))
      ] in
    elim (Bool-cases (ltb j.seq idx)) [
      | inl early ↦ rw early (
          other_seq fits is_open over room
            (λ c. (let lt = ltb→lt _ _ early in let le = c.0 in omega arith)))
      | inr late ↦
          let le = ltb→le _ _ late in
          elim (Bool-cases ((get_or j.ring idx no_buf).seq == seq)) [
            | inr wrong ↦
                rw (late, wrong) (other_seq fits is_open over room (λ c. ==→ne _ _ wrong c.1))
            | inl right ↦
                rw (late, right)
                  (got _ fits is_open over room (le, (==_iff _ _).0 right) o' (x' ∙ x)
                    (λ i lt. counts i lt ∙ one_more i lt) (omega arith))
          ]
    ]

-- An attempt at a reservation, in a journal whose current entry has fewer than 2^22 words, tests in
-- this order: without room for the words in the entry it is refused; when the count of the current
-- buffer is 0, so that the entry is not open, it panics; with a watermark above that of the flags
-- it is refused; with a full count it is refused; and when the current buffer has another sequence
-- number than its index and the journal's say, it panics. Exactly when all these pass it succeeds:
-- of the journal only the state word changes, whose offset moves by the words, within the entry,
-- whose count of the current buffer grows by one, and whose index and other counts stay; the
-- reservation is held, starts at the old offset, has the number and the overwrite mark of the
-- current buffer, and keeps its words.
pub get-Got :
    (j : Journal) (res : JournalRes) (flags : ℕ)
    → j.cur_entry_u64s < 2 ^ 22
    → Got j res flags (journal_res_get_fast j res flags)
unfolding journal_res_get_fast journal_state_inc
get-Got j res flags small =
    let v = j.reservations in
    let idx = journal_state_idx v in
    elim (Bool-cases (ltb j.cur_entry_u64s (journal_state_offset v + res.u64s))) [
      | inl short ↦ rw short (no_room (λ room. let lt = ltb→lt _ _ short in omega arith))
      | inr fits ↦ elim (Bool-cases (journal_state_count v idx == 0)) [
        | inl none_ ↦ rw (fits, none_) (closed (ltb→le _ _ fits) ((==_iff _ _).0 none_))
        | inr is_open ↦ elim (Bool-cases (ltb (flags % 2 ^ 3) j.watermark)) [
          | inl under ↦
              rw (fits, is_open, under)
                (low (ltb→le _ _ fits) (==→ne _ _ is_open) (ltb→lt _ _ under))
          | inr over ↦ elim (Bool-cases (journal_state_count v idx == 0x3ff)) [
            | inl most ↦
                rw (fits, is_open, over, most)
                  (full (ltb→le _ _ fits) (ltb→le _ _ over) ((==_iff _ _).0 most))
            | inr room ↦
                rw (fits, is_open, over, room)
                  (taken-Got j res flags small (ltb→le _ _ fits) (==→ne _ _ is_open)
                    (ltb→le _ _ over) (==→ne _ _ room))
          ]
        ]
      ]
    ]
