-- ===== src/Snapshot/Ancestor.antt =====
-- The ancestors of a snapshot, described by the parents alone, and what a well-formed table keeps
-- of them in its skip lists and bitmaps.
pub mod Early
pub mod Skips
use subvol.Prelude.{
  ℕ, zero, suc, ◌+◌, ◌-◌, ◌/◌, ◌%◌, ◌≤◌, ◌<◌, ◌≡◌, ◌≢◌, ◌↔◌, ◌⊎◌, inl, inr, refl, Bool, true, some,
  arith, ltb, if◌then◌else◌,
}
use subvol.Prelude.Options.{◌>>=◌}
use subvol.Prelude.WordBits.{bit_of_word}
use subvol.Snapshot.Table.{SnapshotT, SnapshotTable, snapshot_t, snapshot_parent}
use subvol.Snapshot.Walk.{is_ancestor_bitmap, bitmap_word}

-- A node is its own ancestor, and the ancestors of its parent are its ancestors.
pub data Ancestor (t : SnapshotTable) : ℕ → ℕ → Type 0 where
  itself : {id : ℕ} → Ancestor t id id
  above :
      {id a : ℕ} → snapshot_parent t id ≢ 0 → Ancestor t (snapshot_parent t id) a → Ancestor t id a

-- Parents have greater ids: a tree is numbered down from its root.
abbrev pub IsChain : SnapshotTable → Type 0
IsChain t = (id : ℕ) → (snapshot_parent t id ≡ 0) ⊎ (id < snapshot_parent t id)

-- A skip of a node is a proper ancestor of it.
abbrev pub IsSkip : SnapshotTable → ℕ → ℕ → Type 0
IsSkip t id a = (id < a) × Ancestor t id a

abbrev pub bitmap_bit : ℕ × ℕ → ℕ → Bool
bitmap_bit words bit =
    if ltb bit 64 then bit_of_word words.0 bit else bit_of_word words.1 (bit - 64)

-- What the entry of `id` says: the skips of a root are 0, all others are proper ancestors; the bit
-- `b` says whether `id + 1 + b` is an ancestor.
pub record IsEntry (t : SnapshotTable) (id : ℕ) (e : SnapshotT) : Type 0 where
  pub root_skips : e.parent ≡ 0 → e.skip ≡ (0, 0, 0)
  pub skip_0 : e.parent ≢ 0 → IsSkip t id e.skip.0
  pub skip_1 : e.parent ≢ 0 → IsSkip t id e.skip.1
  pub skip_2 : e.parent ≢ 0 → IsSkip t id e.skip.2
  pub bits : (b : ℕ) → b < 128 → (bitmap_bit e.is_ancestor b ≡ true) ↔ Ancestor t id (id + 1 + b)

pub record IsTable (t : SnapshotTable) : Type 0 where
  pub chain : IsChain t
  pub entry : (id : ℕ) (e : SnapshotT) → snapshot_t t id ≡ some e → IsEntry t id e

module _ (t : SnapshotTable) (chain : IsChain t) where
  pub ancestor_le : {id a : ℕ} → Ancestor t id a → id ≤ a
  ancestor_le itself = omega arith
  ancestor_le (above {id} ne up) = elim (chain id) [
    | inl e ↦ absurd (ne e)
    | inr h ↦ omega (arith, ancestor_le up)
  ]

  -- The ancestors of a node form a chain.
  pub between : {id q a : ℕ} → Ancestor t id q → Ancestor t id a → q ≤ a → Ancestor t q a
  between itself there h = there
  between (above {id} ne up) itself h = elim (chain id) [
    | inl e ↦ absurd (ne e)
    | inr s ↦ absurd (omega (arith, ancestor_le up))
  ]
  between (above ne up) (above ne' up') h = between up up' h

  pub through : {id q a : ℕ} → Ancestor t id q → Ancestor t q a → Ancestor t id a
  through itself there = there
  through (above ne up) there = above ne (through up there)

  pub of_parent :
      {id a : ℕ}
      → id ≢ a
      → Ancestor t id a
      → (snapshot_parent t id ≢ 0) × Ancestor t (snapshot_parent t id) a
  of_parent ne itself = absurd (ne refl)
  of_parent ne (above nz up) = (nz, up)
