-- ===== src/Bkey/Format.antt =====
-- crates/subvol/src/btree/bkey.rs: `bkey_format`, and the bit streams that pack a key into words
-- and read it back. The code is that of a little-endian machine.
pub mod Packed
pub mod Build
pub mod Stream
pub mod RoundTrip
use subvol.Prelude.{
  ℕ, zero, suc, ◌+◌, ◌-◌, ◌*◌, ◌/◌, ◌%◌, ◌^◌, ◌≤◌, ◌<◌, Bool, true, false, Option, none, some, List,
  [], ◌∷◌, get_or, set, bit_or, ltb, leb, ◌==◌, if◌then◌else◌,
}
use subvol.Prelude.Run.{Run, ok, refused, panic, ◌>>=◌}
use subvol.Prelude.Powers.{bit_length_fuel}
use subvol.Bkey.Pos.{Bpos}
use subvol.Bkey.Key.{Bkey}

-- The indices `BKEY_FIELD_*` of the arrays of a format, in their order.
pub data Field : Type 0 where
  inode offset snapshot size version_hi version_lo : Field

abbrev pub all_fields : List Field
all_fields = inode ∷ offset ∷ snapshot ∷ size ∷ version_hi ∷ version_lo ∷ []

-- An array of `BKEY_NR_FIELDS` elements is a function of the field.
pub record BkeyFormat : Type 0 where
  pub key_u64s : ℕ
  pub nr_fields : ℕ
  pub bits_per_field : Field → ℕ
  pub field_offset : Field → ℕ

abbrev pub bkey_nr_fields : ℕ
bkey_nr_fields = 6

-- `BKEY_FORMAT_CURRENT.bits_per_field`, the widths of the fields of `bkey`.
abbrev pub unpacked_bits : Field → ℕ
unpacked_bits inode = 64
unpacked_bits offset = 64
unpacked_bits snapshot = 32
unpacked_bits size = 32
unpacked_bits version_hi = 32
unpacked_bits version_lo = 64

-- `64 - v.leading_zeros()` of a u64.
abbrev pub bit_length : ℕ → ℕ
bit_length v = bit_length_fuel 64 v

-- The words are those of the packed key, which the pointer of the source writes to.
pub record PackState : Type 0 where
  pub bits : ℕ
  pub w : ℕ
  pub p : ℕ
  pub words : List ℕ

-- `next` is the index `p` of the source plus one, and 0 for every index below 0.
pub record UnpackState : Type 0 where
  pub bits : ℕ
  pub w : ℕ
  pub next : ℕ

-- `size_of::<bkey_packed>() / 8`
abbrev pub packed_words : ℕ
packed_words = 5

unfoldable pub pack_state_init : BkeyFormat → List ℕ → Run PackState
pack_state_init format words =
    if format.key_u64s == 0
    then panic
    else if leb format.key_u64s packed_words
    then ok (record { bits = 64; w = 0; p = format.key_u64s - 1; words = words })
    else panic

unfoldable pub pack_state_finish : BkeyFormat → PackState → Run (List ℕ)
pack_state_finish format state =
    if ltb state.p format.key_u64s then ok (set state.words state.p state.w) else panic

unfoldable pub unpack_state_init : BkeyFormat → List ℕ → Run UnpackState
unpack_state_init format words =
    if format.key_u64s == 0
    then panic
    else if leb format.key_u64s packed_words
    then ok (record { bits = 64; w = get_or words (format.key_u64s - 1) 0; next = format.key_u64s })
    else panic

-- The last two lines of `get_inc_field`, where `bits` bits are left to read into `v`.
unfoldable pub take_bits : ℕ → ℕ → ℕ → UnpackState → ℕ × UnpackState
take_bits base v bits state = (
  (bit_or v (state.w / 2 / 2 ^ (63 - bits)) + base) % 2 ^ 64,
  record state { w = state.w * 2 ^ bits % 2 ^ 64; bits = state.bits - bits },
)

-- The step to the next lower word; below the lowest the word reads as 0.
unfoldable pub next_word : List ℕ → UnpackState → UnpackState
next_word words state =
    let next = state.next - 1 in
    record { bits = 64; w = if next == 0 then 0 else get_or words (next - 1) 0; next = next }

unfoldable pub get_inc_field : BkeyFormat → List ℕ → UnpackState → Field → Run (ℕ × UnpackState)
get_inc_field format words state field =
    let bits = format.bits_per_field field in
    let base = format.field_offset field in
    if leb state.bits bits
    then (let rest = bits - state.bits in
        if leb state.next 1
        then if rest == 0
          then ok (take_bits base (state.w / 2 ^ (64 - bits)) rest (next_word words state))
          else panic
        else ok (take_bits base (state.w / 2 ^ (64 - bits)) rest (next_word words state)))
    else ok (take_bits base 0 bits state)

-- The last two lines of `__set_inc_field`.
unfoldable pub put_bits : ℕ → ℕ → PackState → PackState
put_bits v bits state =
    let left = state.bits - bits in
    record state { bits = left; w = bit_or state.w (v * 2 ^ left % 2 ^ 64) }

-- `__set_inc_field`
unfoldable pub set_inc_field_bits : BkeyFormat → PackState → Field → ℕ → Run PackState
set_inc_field_bits format state field v =
    let bits = format.bits_per_field field in
    if bits == 0
    then ok state
    else if ltb state.bits bits
    then (let rest = bits - state.bits in
        let w = bit_or state.w (v / 2 / 2 ^ (rest - 1)) in
        if state.p == 0
        then panic
        else ok (
            put_bits v rest
              (record { bits = 64; w = 0; p = state.p - 1; words = set state.words state.p w })))
    else ok (put_bits v bits state)

unfoldable pub set_inc_field : BkeyFormat → PackState → Field → ℕ → Run PackState
set_inc_field format state field v =
    let bits = format.bits_per_field field in
    let base = format.field_offset field in
    if ltb v base
    then refused
    else if ltb bits (bit_length (v - base))
    then refused
    else set_inc_field_bits format state field (v - base)

-- The value that is written, and whether it is the exact one. The first test is an assertion.
unfoldable pub set_inc_field_lossy : BkeyFormat → PackState → Field → ℕ → Run (Bool × PackState)
set_inc_field_lossy format state field v =
    let bits = format.bits_per_field field in
    let base = format.field_offset field in
    if ltb v base
    then panic
    else if ltb bits (bit_length (v - base))
    then (do
      state' ←
          set_inc_field_bits format state field (if bits == 64 then 2 ^ 64 - 1 else 2 ^ bits - 1)
      ok (false, state'))
    else (do state' ← set_inc_field_bits format state field (v - base); ok (true, state'))

-- The same for each field of a list in turn; `false` from one of them ends the loop.
unfoldable pub set_inc_fields : BkeyFormat → (Field → ℕ) → List Field → PackState → Run PackState
set_inc_fields format values [] state = ok state
set_inc_fields format values (field ∷ fields) state = do
  state' ← set_inc_field format state field (values field)
  set_inc_fields format values fields state'

-- The values of a list of fields, in order.
unfoldable pub get_inc_fields : BkeyFormat → List ℕ → List Field → UnpackState → Run (List ℕ)
get_inc_fields format words [] state = ok []
get_inc_fields format words (field ∷ fields) state = do
  (v, state') ← get_inc_field format words state field
  rest ← get_inc_fields format words fields state'
  ok (v ∷ rest)
