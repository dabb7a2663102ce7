-- ===== src/Bkey/Pos/Neighbours.antt =====
-- The successor and the predecessor of a position are those of its value.
use subvol.Prelude.{
  ℕ, ◌+◌, ◌-◌, ◌^◌, ◌<◌, ◌≡◌, Option, some, none, arith, inl, inr, leb, Bool-cases, ltb,
}
use subvol.Bkey.Pos.{
  Bpos, IsBpos, spos, pos_min, spos_max, bpos_successor, bpos_predecessor, key_offset_max,
  key_snapshot_max,
}
use subvol.Bkey.Pos.Value.{bpos_value}

-- A position whose value is `v`, as the result of a step that did not panic.
abbrev pub Reaches : Option Bpos → ℕ → Type 0
Reaches r v = (q : Bpos) × (r ≡ some q) × IsBpos q × (bpos_value q ≡ v)

-- The successor of a valid position adds one to the value, and panics at the greatest position only.
pub bpos_successor_lem :
    (p : Bpos)
    → IsBpos p
    → (bpos_value p + 1 < 2 ^ 160 → Reaches (bpos_successor p) (bpos_value p + 1))
      × (p ≡ spos_max → bpos_successor p ≡ none)
unfolding bpos_successor
bpos_successor_lem p h = (step, λ e. rw e)
  where
    step : bpos_value p + 1 < 2 ^ 160 → Reaches (bpos_successor p) (bpos_value p + 1)
    step room = elim (Bool-cases (leb (2 ^ 32) (p.snapshot + 1))) [
      | inr fits ↦
          (spos p.inode p.offset (p.snapshot + 1), ground arith, ground arith, ground arith)
      | inl wraps ↦ elim (Bool-cases (leb (2 ^ 64) (p.offset + 1))) [
        | inr fits ↦ (spos p.inode (p.offset + 1) 0, ground arith, ground arith, ground arith)
        | inl carries ↦ (spos (p.inode + 1) 0 0, ground arith, ground arith, ground arith)
      ]
    ]

-- The predecessor of a valid position takes one from the value, and panics at the least position only.
pub bpos_predecessor_lem :
    (p : Bpos)
    → IsBpos p
    → (0 < bpos_value p → Reaches (bpos_predecessor p) (bpos_value p - 1))
      × (p ≡ pos_min → bpos_predecessor p ≡ none)
unfolding bpos_predecessor
bpos_predecessor_lem p h = (step, λ e. rw e)
  where
    step : 0 < bpos_value p → Reaches (bpos_predecessor p) (bpos_value p - 1)
    step room = elim (Bool-cases (ltb p.snapshot 1)) [
      | inr fits ↦
          (spos p.inode p.offset (p.snapshot - 1), ground arith, ground arith, ground arith)
      | inl wraps ↦ elim (Bool-cases (ltb p.offset 1)) [
        | inr fits ↦
            (spos p.inode (p.offset - 1) key_snapshot_max, ground arith, ground arith, ground arith)
        | inl borrows ↦ (
          spos (p.inode - 1) key_offset_max key_snapshot_max,
          ground arith,
          ground arith,
          ground arith,
        )
      ]
    ]

-- The predecessor of the successor of a position is that position.
pub predecessor-successor :
    (p q : Bpos) → IsBpos p → bpos_successor p ≡ some q → bpos_predecessor q ≡ some p
unfolding bpos_successor bpos_predecessor
predecessor-successor p q h e = ground arith
