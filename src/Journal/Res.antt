-- ===== src/Journal/Res.antt =====
-- The reservations of crates/subvol/src/journal.rs: the state word of the journal, and getting and
-- putting a reservation. The state word has the offset in its low 22 bits, the index of the current
-- buffer in the next 2, and a count of 10 bits for each of the four buffers. A call runs without
-- interference, so that its exchange of the state word succeeds.
pub mod Fields
pub mod Got
pub mod Put
use subvol.Prelude.{
  ℕ, zero, suc, ◌+◌, ◌-◌, ◌*◌, ◌/◌, ◌%◌, ◌^◌, Bool, true, false, Option, none, some, List, [], ◌∷◌,
  length, get_or, set, bit_or, ltb, leb, ◌==◌, if◌then◌else◌,
}
use subvol.Prelude.Run.{Run, ok, refused, panic, ◌>>=◌}

-- `JOURNAL_STATE_BUF_NR`, one above `JOURNAL_STATE_BUF_MASK`
abbrev pub journal_state_buf_nr : ℕ
journal_state_buf_nr = 4

abbrev pub jset_keys_u64s : ℕ
jset_keys_u64s = 1

abbrev pub bch_jset_entry_btree_keys : ℕ
bch_jset_entry_btree_keys = 0

unfoldable pub journal_state_offset : ℕ → ℕ
journal_state_offset v = v % 2 ^ 22

unfoldable pub journal_state_idx : ℕ → ℕ
journal_state_idx v = v / 2 ^ 22 % journal_state_buf_nr

unfoldable pub journal_state_count : ℕ → ℕ → ℕ
journal_state_count v idx = v / 2 ^ (24 + idx * 10) % 2 ^ 10

-- `v & !mask` clears the low bits.
unfoldable pub journal_state_set_offset : ℕ → ℕ → ℕ
journal_state_set_offset v offset = bit_or (v / 2 ^ 22 * 2 ^ 22) offset

unfoldable pub journal_state_set_idx : ℕ → ℕ → ℕ
journal_state_set_idx v idx = bit_or (v / 2 ^ 24 * 2 ^ 24 + v % 2 ^ 22) (idx * 2 ^ 22 % 2 ^ 64)

unfoldable pub journal_state_inc : ℕ → ℕ → Option ℕ
journal_state_inc v idx =
    if journal_state_count v idx == 0x3ff then none else some (v + 2 ^ (24 + idx * 10))

-- No result where the assertion fails.
unfoldable pub journal_state_dec : ℕ → ℕ → Option ℕ
journal_state_dec v idx =
    if journal_state_count v idx == 0 then none else some (v - 2 ^ (24 + idx * 10))

unfoldable pub jset_u64s : ℕ → ℕ
jset_u64s payload_u64s = (jset_keys_u64s + payload_u64s) % 2 ^ 32

-- `journal_buf`: its sequence number and the words of its data
pub record JournalBuf : Type 0 where
  pub seq : ℕ
  pub has_overwrites : Bool
  pub data_ : List ℕ

-- The fields of `journal` that reservations use
pub record Journal : Type 0 where
  pub reservations : ℕ
  pub cur_entry_u64s : ℕ
  pub watermark : ℕ
  pub seq : ℕ
  pub ring : List JournalBuf

pub record JournalRes : Type 0 where
  pub ref_ : Bool
  pub has_overwrites : Bool
  pub u64s : ℕ
  pub offset : ℕ
  pub seq : ℕ

abbrev pub no_buf : JournalBuf
no_buf = record { seq = 0; has_overwrites = false; data_ = [] }

-- What follows the exchange of the state word: the sequence number of the buffer, and the fields of
-- the reservation.
abbrev pub taken : Journal → JournalRes → ℕ → ℕ → ℕ → Run (Journal × JournalRes)
taken j res idx offset inc =
    let buf = get_or j.ring idx no_buf in
    let seq = j.seq - (j.seq - idx) % journal_state_buf_nr in
    if ltb j.seq idx
    then panic
    else if buf.seq == seq
    then ok (
      record j { reservations = journal_state_set_offset inc (offset + res.u64s) },
      record res { ref_ = true; offset = offset; seq = seq; has_overwrites = buf.has_overwrites },
    )
    else panic

unfoldable pub journal_res_get_fast : Journal → JournalRes → ℕ → Run (Journal × JournalRes)
journal_res_get_fast j res flags =
    let old = j.reservations in
    let idx = journal_state_idx old in
    let offset = journal_state_offset old in
    if ltb j.cur_entry_u64s (offset + res.u64s)
    then refused
    else if journal_state_count old idx == 0
    then panic
    else if ltb (flags % 2 ^ 3) j.watermark
    then refused
    else elim (journal_state_inc old idx) [ none ↦ refused | some inc ↦ taken j res idx offset inc ]

-- The word of a `jset_entry`: u64s, btree, level and type.
abbrev pub journal_entry_init : ℕ → ℕ → ℕ → ℕ → ℕ
journal_entry_init type_ id level u64s = u64s + id * 2 ^ 16 + level * 2 ^ 24 + type_ * 2 ^ 32

-- The source writes through a pointer that it computes without a bound; a word outside the buffer,
-- which is undefined there, is a panic here.
unfoldable pub write_word : Journal → JournalRes → ℕ → Run Journal
write_word j res word =
    let idx = res.seq % journal_state_buf_nr in
    let buf = get_or j.ring idx no_buf in
    if ltb res.offset (length buf.data_)
    then ok
        (record j { ring = set j.ring idx (record buf { data_ = set buf.data_ res.offset word }) })
    else panic

unfoldable pub bch2_journal_add_entry :
    Journal → JournalRes → ℕ → ℕ → ℕ → ℕ → Run (Journal × JournalRes)
bch2_journal_add_entry j res type_ id level u64s =
    let actual = u64s + jset_keys_u64s in
    if res.ref_
    then (if leb (2 ^ 16) actual
        then panic
        else if ltb res.u64s actual
        then panic
        else if leb (2 ^ 32) (res.offset + actual)
        then panic
        else (write_word j res (journal_entry_init type_ id level u64s) >>= λ j'.
            ok (j', record res { offset = res.offset + actual; u64s = res.u64s - actual })))
    else panic

-- The loop of `bch2_journal_res_put`: an empty entry for each word that is left.
unfoldable pub fill : ℕ → Journal → JournalRes → Run (Journal × JournalRes)
fill zero j res = ok (j, res)
fill (suc n) j res =
    bch2_journal_add_entry j res bch_jset_entry_btree_keys 0 0 0 >>= λ next. fill n next.0 next.1

unfoldable pub release : Journal × JournalRes → Run (Journal × JournalRes)
release (j, res) = elim (journal_state_dec j.reservations (res.seq % journal_state_buf_nr)) [
  | none ↦ panic
  | some v ↦ ok (record j { reservations = v }, record res { ref_ = false })
]

unfoldable pub bch2_journal_res_put : Journal → JournalRes → Run (Journal × JournalRes)
bch2_journal_res_put j res = if res.ref_ then (fill res.u64s j res >>= release) else ok (j, res)
