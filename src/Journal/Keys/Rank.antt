-- ===== src/Journal/Keys/Rank.antt =====
-- The place of a journal key as one number, and the array as a finite map from places.
use subvol.Prelude.{
  ℕ, ◌+◌, ◌*◌, ◌^◌, ◌≤◌, ◌<◌, ◌≡◌, ◌↔◌, inl, inr, refl, Bool, true, Option, none, some, List, [],
  ◌∷◌, ◌==◌, if◌then◌else◌, arith, Bool-cases, ==_iff,
}
use subvol.Bkey.Pos.{Bpos, IsBpos}
use subvol.Bkey.Pos.Value.{bpos_value}
use subvol.Bkey.Pos.Order.{bpos_cmp-eq-sign}
use subvol.Journal.Keys.{BkeyI, JournalKey, key_pos, journal_key_le, insert_sorted, is_at}

-- The number of a place: the btree, the level below it, the position lowest.
abbrev pub place_rank : ℕ → ℕ → Bpos → ℕ
place_rank btree_id level p = (btree_id * 2 ^ 8 + level) * 2 ^ 160 + bpos_value p

abbrev pub rank : JournalKey → ℕ
rank key = place_rank key.btree_id key.level (key_pos key)

pub record IsPlace (btree_id level : ℕ) (p : Bpos) : Type 0 where
  pub btree_fits : btree_id < 2 ^ 8
  pub level_fits : level < 2 ^ 8
  pub pos_fits : IsBpos p

abbrev pub IsKey : JournalKey → Type 0
IsKey key = IsPlace key.btree_id key.level (key_pos key)

abbrev pub EachIsKey : List JournalKey → Type 0
EachIsKey [] = Unit
EachIsKey (key ∷ keys) = IsKey key × EachIsKey keys

-- The entry of a place: its key, and whether it is overwritten.
abbrev pub entry : JournalKey → BkeyI × Bool
entry key = (key.allocated_k, key.overwritten)

abbrev pub lookup : List JournalKey → ℕ → Option (BkeyI × Bool)
lookup [] n = none
lookup (key ∷ keys) n = if rank key == n then some (entry key) else lookup keys n

pub le_iff :
    (l r : JournalKey) → IsKey l → IsKey r → (journal_key_le l r ≡ true) ↔ (rank l ≤ rank r)
unfolding journal_key_le
le_iff l r hl hr = ground (arith, bpos_cmp-eq-sign (key_pos l) (key_pos r) hl.pos_fits hr.pos_fits)

pub is_at_iff :
    (btree_id level : ℕ) (p : Bpos) (key : JournalKey)
    → IsPlace btree_id level p
    → IsKey key
    → is_at btree_id level p key ≡ (rank key == place_rank btree_id level p)
is_at_iff btree_id level p key hp hk =
    let q = key_pos key in
    elim (Bool-cases (rank key == place_rank btree_id level p)) [
      | inl same ↦
          let e = (==_iff _ _).0 same in
          let fp = hp.pos_fits in
          let fq = hk.pos_fits in
          let n : key.btree_id * 2 ^ 8 + key.level ≡ btree_id * 2 ^ 8 + level = omega arith in
          let v : bpos_value q ≡ bpos_value p = omega arith in
          let i : q.inode ≡ p.inode = omega arith in
          let o : q.offset ≡ p.offset = omega arith in
          let s : q.snapshot ≡ p.snapshot = omega arith in
          let b : key.btree_id ≡ btree_id = omega arith in
          let l : key.level ≡ level = omega arith in
          rw
            (
              same,
              (==_iff _ _).1 b,
              (==_iff _ _).1 l,
              (==_iff _ _).1 s,
              (==_iff _ _).1 o,
              (==_iff _ _).1 i,
            )
            refl
      | inr other ↦ ground (arith, other)
    ]

-- Sorting.
pub lookup-insert_sorted :
    (key : JournalKey) (keys : List JournalKey) (n : ℕ)
    → IsKey key
    → EachIsKey keys
    → lookup (insert_sorted key keys) n
      ≡ (if rank key == n then some (entry key) else lookup keys n)
lookup-insert_sorted key [] n h hs = refl
lookup-insert_sorted key (next ∷ keys) n h (hn, hs) =
    let order = le_iff key next h hn in
    elim (Bool-cases (journal_key_le key next)) [
      | inl le ↦ rw le refl
      | inr gt ↦
          let before : rank next < rank key = ground (arith, order) in
          rw (gt, lookup-insert_sorted key keys n h hs) (ground arith)
    ]
