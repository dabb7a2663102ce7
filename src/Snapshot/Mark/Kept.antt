-- ===== src/Snapshot/Mark/Kept.antt =====
-- The ancestors of all other snapshots when the parent of one childless snapshot changes.
use subvol.Prelude.{
  ℕ, ◌+◌, ◌-◌, ◌^◌, ◌≡◌, ◌≢◌, inl, inr, refl, sym, ◌∙◌, false, ltb, arith, Bool-cases,
}
use native.Mathlib.Nat.{zero-div}
use subvol.Snapshot.Table.{SnapshotT, SnapshotTable, default_entry, snapshot_parent}
use subvol.Snapshot.Ancestor.{Ancestor, itself, above, IsEntry, bitmap_bit}

module _ (t t' : SnapshotTable) (id : ℕ)
    (same : (j : ℕ) → j ≢ id → snapshot_parent t' j ≡ snapshot_parent t j)
    (fresh : (j : ℕ) → snapshot_parent t j ≢ id) where
  pub climb : {j a : ℕ} → j ≢ id → Ancestor t j a → Ancestor t' j a
  climb ne itself = itself
  climb ne (above {id = j} nz up) =
      above (λ z. nz (sym (same j ne) ∙ z)) (rw (same j ne) (climb (fresh j) up))

  pub back : {j a : ℕ} → j ≢ id → Ancestor t' j a → Ancestor t j a
  back ne itself = itself
  back ne (above {id = j} nz up) =
      above (λ z. nz (same j ne ∙ z))
        (rw (← same j ne) (back (λ e. fresh j (sym (same j ne) ∙ e)) up))

  pub IsEntry-kept : (j : ℕ) (e : SnapshotT) → j ≢ id → IsEntry t j e → IsEntry t' j e
  IsEntry-kept j e ne h = record {
    root_skips = h.root_skips;
    skip_0 = λ nz. ((h.skip_0 nz).0, climb ne (h.skip_0 nz).1);
    skip_1 = λ nz. ((h.skip_1 nz).0, climb ne (h.skip_1 nz).1);
    skip_2 = λ nz. ((h.skip_2 nz).0, climb ne (h.skip_2 nz).1);
    bits = λ b small.
        ((λ set. climb ne ((h.bits b small).0 set)), λ up. (h.bits b small).1 (back ne up));
  }

pub clear_bit : (b : ℕ) → bitmap_bit (0, 0) b ≡ false
clear_bit b = elim (Bool-cases (ltb b 64)) [
  | inl low ↦ rw (low, zero-div (2 ^ b)) refl
  | inr high ↦ rw (high, zero-div (2 ^ (b - 64))) refl
]

rootless : (t : SnapshotTable) (j b : ℕ) → snapshot_parent t j ≡ 0 → Ancestor t j (j + 1 + b) → ⊥
rootless t j b root up = go up (omega arith)
  where
    go : {a : ℕ} → Ancestor t j a → j ≢ a → ⊥
    go itself ne = ne refl
    go (above nz up) ne = nz root

-- An entry that only the growth made.
pub IsEntry-default :
    (t : SnapshotTable) (j : ℕ) → snapshot_parent t j ≡ 0 → IsEntry t j default_entry
IsEntry-default t j root = record {
  root_skips = λ _. refl;
  skip_0 = λ nz. absurd (nz refl);
  skip_1 = λ nz. absurd (nz refl);
  skip_2 = λ nz. absurd (nz refl);
  bits = λ b small.
      ((λ set. absurd (let clear = clear_bit b in cc)), λ up. absurd (rootless t j b root up));
}
