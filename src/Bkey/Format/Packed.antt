-- ===== src/Bkey/Format/Packed.antt =====
-- crates/subvol/src/btree/bkey.rs: packing a key or a position into words, and unpacking it. The
-- header bytes `u64s`, `format` and `type_` of a packed key are the three lowest bytes of its
-- first word. What a refused call has written to its output is not kept.
use subvol.Prelude.{
  ℕ, zero, suc, ◌+◌, ◌-◌, ◌*◌, ◌/◌, ◌%◌, ◌^◌, Bool, true, false, List, [], ◌∷◌, get_or, set, ltb,
  leb, ◌==◌, ◌||◌, ◌&&◌, if◌then◌else◌, Option, none, some,
}
use subvol.Prelude.Run.{Run, ok, check, refuse_if, ◌>>=◌, ◌>>◌}
use subvol.Bkey.Pos.{Bpos, spos, key_offset_max, key_snapshot_max}
use subvol.Bkey.Key.{Bkey, bkey_u64s, key_format_current, key_format_local_btree}
use subvol.Bkey.Format.{
  Field, inode, offset, snapshot, size, version_hi, version_lo, all_fields, BkeyFormat,
  bkey_nr_fields, PackState, pack_state_init, pack_state_finish, unpack_state_init, get_inc_field,
  set_inc_field_lossy, set_inc_fields,
}

-- `bkey_packed`: five words.
abbrev pub BkeyPacked : Type 0
BkeyPacked = List ℕ

abbrev pub header : BkeyPacked → ℕ
header k = get_or k 0 0

abbrev pub packed_u64s : BkeyPacked → ℕ
packed_u64s k = header k % 2 ^ 8

abbrev pub packed_format : BkeyPacked → ℕ
packed_format k = header k / 2 ^ 8 % 2 ^ 8

abbrev pub packed_type : BkeyPacked → ℕ
packed_type k = header k / 2 ^ 16 % 2 ^ 8

-- The stores to the three header bytes.
abbrev pub set_header : BkeyPacked → ℕ → ℕ → ℕ → BkeyPacked
set_header k u64s format type_ =
    set k 0 (header k / 2 ^ 24 * 2 ^ 24 + (u64s + format * 2 ^ 8 + type_ * 2 ^ 16))

-- The loop that clears the first words of the output.
abbrev pub clear_words : ℕ → List ℕ → List ℕ
clear_words zero words = words
clear_words (suc n) [] = []
clear_words (suc n) (w ∷ words) = 0 ∷ clear_words n words

unfoldable pub bkey_field_values : Bkey → Field → ℕ
bkey_field_values k inode = k.p.inode
bkey_field_values k offset = k.p.offset
bkey_field_values k snapshot = k.p.snapshot
bkey_field_values k size = k.size
bkey_field_values k version_hi = k.bversion.hi
bkey_field_values k version_lo = k.bversion.lo

unfoldable pub bch2_bkey_pack_key : BkeyPacked → Bkey → BkeyFormat → Run BkeyPacked
bch2_bkey_pack_key out input format = do
  check (format.nr_fields == bkey_nr_fields)
  check (input.format % 2 ^ 7 == key_format_current)
  state ← pack_state_init format out
  state' ←
      set_inc_fields format (bkey_field_values input) all_fields
        (record state { words = clear_words format.key_u64s state.words })
  words ← pack_state_finish format state'
  check (leb bkey_u64s (format.key_u64s + input.u64s))
  let out_u64s = format.key_u64s + input.u64s - bkey_u64s
  check (leb out_u64s 255)
  ok (set_header words out_u64s (input.format / 2 ^ 7 * 2 ^ 7) input.type_)

-- `__bch2_bkey_unpack_key`
unfoldable pub bch2_bkey_unpack_key : BkeyFormat → BkeyPacked → Run Bkey
bch2_bkey_unpack_key format input = do
  check (format.nr_fields == bkey_nr_fields)
  check (leb format.key_u64s (packed_u64s input))
  check (packed_format input % 2 ^ 7 == key_format_local_btree)
  let out_u64s = packed_u64s input - format.key_u64s + bkey_u64s
  check (leb out_u64s 255)
  state ← unpack_state_init format input
  (v_inode, s₁) ← get_inc_field format input state inode
  (v_offset, s₂) ← get_inc_field format input s₁ offset
  (v_snapshot, s₃) ← get_inc_field format input s₂ snapshot
  (v_size, s₄) ← get_inc_field format input s₃ size
  (v_hi, s₅) ← get_inc_field format input s₄ version_hi
  (v_lo, s₆) ← get_inc_field format input s₅ version_lo
  ok (record {
    u64s = out_u64s;
    format = key_format_current + packed_format input / 2 ^ 7 * 2 ^ 7;
    type_ = packed_type input;
    bversion = record { lo = v_lo; hi = v_hi % 2 ^ 32 };
    size = v_size % 2 ^ 32;
    p = spos v_inode v_offset (v_snapshot % 2 ^ 32);
  })

-- `__bkey_unpack_pos`
unfoldable pub bkey_unpack_pos : BkeyFormat → BkeyPacked → Run Bpos
bkey_unpack_pos format input = do
  check (format.nr_fields == bkey_nr_fields)
  check (leb format.key_u64s (packed_u64s input))
  check (packed_format input % 2 ^ 7 == key_format_local_btree)
  state ← unpack_state_init format input
  (v_inode, s₁) ← get_inc_field format input state inode
  (v_offset, s₂) ← get_inc_field format input s₁ offset
  (v_snapshot, s₃) ← get_inc_field format input s₂ snapshot
  ok (spos v_inode v_offset (v_snapshot % 2 ^ 32))

abbrev pub pos_values : Bpos → Field → ℕ
pos_values p inode = p.inode
pos_values p offset = p.offset
pos_values p _ = p.snapshot

abbrev pub below_offsets : BkeyFormat → Bpos → Bool
below_offsets format input =
    ltb input.snapshot (format.field_offset snapshot)
    || ltb input.offset (format.field_offset offset)
    || ltb input.inode (format.field_offset inode)

-- `__bch2_bkey_pack_pos_exact`, which `bch2_bkey_pack_pos` calls with the format of the node.
unfoldable pub bch2_bkey_pack_pos_exact : BkeyPacked → Bpos → BkeyFormat → Run BkeyPacked
bch2_bkey_pack_pos_exact out input format = do
  state ← pack_state_init format out
  refuse_if (below_offsets format input)
  state' ←
      set_inc_fields format (pos_values input) (inode ∷ offset ∷ snapshot ∷ [])
        (record state { words = clear_words format.key_u64s state.words })
  words ← pack_state_finish format state'
  ok (set_header words format.key_u64s key_format_local_btree 0)

pub data BkeyPackPosRet : Type 0 where
  exact smaller fail : BkeyPackPosRet

-- The position that the lossy packing starts from: the greatest one at or below `input` whose
-- fields are not below the offsets of the format, and whether it is `input` itself. `none` is the
-- result FAIL.
unfoldable pub lower_to_snapshot : BkeyFormat → Bpos → Option (Bpos × Bool)
lower_to_snapshot format input =
    if ltb input.snapshot (format.field_offset snapshot)
    then if input.offset == 0
      then if input.inode == 0
        then none
        else some (spos (input.inode - 1) key_offset_max key_snapshot_max, false)
      else some (spos input.inode (input.offset - 1) key_snapshot_max, false)
    else some (input, true)

unfoldable pub lower_to_offset : BkeyFormat → Bpos × Bool → Option (Bpos × Bool)
lower_to_offset format (input, is_exact) =
    if ltb input.offset (format.field_offset offset)
    then if input.inode == 0
      then none
      else some (spos (input.inode - 1) key_offset_max key_snapshot_max, false)
    else some (input, is_exact)

unfoldable pub lower_to_inode : BkeyFormat → Bpos × Bool → Option (Bpos × Bool)
lower_to_inode format (input, is_exact) =
    if ltb input.inode (format.field_offset inode) then none else some (input, is_exact)

abbrev and_then : Option (Bpos × Bool) → (Bpos × Bool → Option (Bpos × Bool)) → Option (Bpos × Bool)
and_then none f = none
and_then (some x) f = f x

unfoldable pub lower_pos : BkeyFormat → Bpos → Option (Bpos × Bool)
unfolding lower_to_snapshot lower_to_offset lower_to_inode
lower_pos format input =
    and_then (and_then (lower_to_snapshot format input) (lower_to_offset format))
      (lower_to_inode format)

abbrev ret_of : Bool → BkeyPackPosRet
ret_of true = BkeyPackPosRet.exact
ret_of false = BkeyPackPosRet.smaller

-- The three fields: one that does not fit becomes the greatest value of its width, and the fields
-- after it the greatest of all.
unfoldable pub pack_pos_lossy_fields : BkeyFormat → PackState → Bpos × Bool → Run (Bool × PackState)
pack_pos_lossy_fields format state (input, is_exact) = do
  (inode_fits, s₁) ← set_inc_field_lossy format state inode input.inode
  (offset_fits, s₂) ←
      set_inc_field_lossy format s₁ offset (if inode_fits then input.offset else key_offset_max)
  (snapshot_fits, s₃) ←
      set_inc_field_lossy format s₂ snapshot
        (if inode_fits && offset_fits then input.snapshot else key_snapshot_max)
  ok (is_exact && inode_fits && offset_fits && snapshot_fits, s₃)

unfoldable pub bch2_bkey_pack_pos_lossy :
    BkeyPacked → Bpos → BkeyFormat → Run (BkeyPackPosRet × BkeyPacked)
bch2_bkey_pack_pos_lossy out input format = do
  state ← pack_state_init format out
  let cleared = clear_words format.key_u64s state.words
  elim (lower_pos format input) [
    | none ↦ ok (BkeyPackPosRet.fail, cleared)
    | some lowered ↦ do
      (is_exact, state') ← pack_pos_lossy_fields format (record state { words = cleared }) lowered
      words ← pack_state_finish format state'
      ok (ret_of is_exact, set_header words format.key_u64s key_format_local_btree 0)
  ]
