-- ===== src/Journal/Keys/Known.antt =====
-- The indices that the keys have for their ranges after a sort.
use subvol.Prelude.{
  ℕ, zero, suc, ◌+◌, ◌≤◌, ◌<◌, ◌≡◌, ◌≢◌, inl, inr, refl, ap, List, [], ◌∷◌, max, length, arith,
  Bool-cases,
}
use subvol.Journal.Keys.{
  JournalKey, JournalKeyRangeOverwritten, run_length, push_range, mark_ranges,
}
use subvol.Journal.Keys.Ranges.{mark_ranges_over, mark_ranges_plain, push_range_lem}

-- The ranges of the keys have an index below `n`.
abbrev pub EachBelow : ℕ → List JournalKey → Type 0
EachBelow n [] = Unit
EachBelow n (key ∷ keys) = (key.overwritten_range < n) × EachBelow n keys

length-mark_ranges :
    (left range idx : ℕ) (keys : List JournalKey) (ranges : List JournalKeyRangeOverwritten)
    → length ranges ≤ length (mark_ranges left range idx keys ranges).1
unfolding mark_ranges
length-mark_ranges left range idx [] ranges = omega arith
length-mark_ranges (suc left) range idx (key ∷ keys) ranges =
    length-mark_ranges left range (idx + 1) keys ranges
length-mark_ranges zero range idx (key ∷ keys) ranges =
    let n = run_length key.btree_id key.level keys in
    let (range', ranges') = push_range ranges idx (idx + 1 + n) in
    elim (Bool-cases key.overwritten) [
      | inl over ↦
          let ih = length-mark_ranges n range' (idx + 1) keys ranges' in
          let new = push_range_lem ranges idx (idx + 1 + n) in
          let ends =
            ap (λ (r : List JournalKey × List JournalKeyRangeOverwritten). length r.1)
              (mark_ranges_over range idx key keys ranges over) in
          omega (arith, ih, new.1, ends)
      | inr plain ↦
          let ends =
            ap (λ (r : List JournalKey × List JournalKeyRangeOverwritten). length r.1)
              (mark_ranges_plain range idx key keys ranges plain) in
          omega (arith, length-mark_ranges 0 0 (idx + 1) keys ranges, ends)
    ]

EachBelow-from :
    (n : ℕ) (result known : List JournalKey × List JournalKeyRangeOverwritten)
    → result ≡ known
    → EachBelow n known.0
    → EachBelow n result.0
EachBelow-from n result known e h = rw e h

pub EachBelow-mark_ranges :
    (n left range idx : ℕ) (keys : List JournalKey) (ranges : List JournalKeyRangeOverwritten)
    → max 1 (length (mark_ranges left range idx keys ranges).1) ≤ n
    → (left ≢ 0 → range < length ranges)
    → EachBelow n (mark_ranges left range idx keys ranges).0
unfolding mark_ranges
EachBelow-mark_ranges n left range idx [] ranges le run = tt
EachBelow-mark_ranges n (suc left) range idx (key ∷ keys) ranges le run =
    let more = length-mark_ranges left range (idx + 1) keys ranges in
    let small = run (λ e. absurd (omega arith)) in
    (omega arith, EachBelow-mark_ranges n left range (idx + 1) keys ranges le (λ _. small))
EachBelow-mark_ranges n zero range idx (key ∷ keys) ranges le run =
    let len = run_length key.btree_id key.level keys in
    let (range', ranges') = push_range ranges idx (idx + 1 + len) in
    elim (Bool-cases key.overwritten) [
      | inl over ↦
          let step = mark_ranges_over range idx key keys ranges over in
          let new = push_range_lem ranges idx (idx + 1 + len) in
          let ends =
            ap (λ (r : List JournalKey × List JournalKeyRangeOverwritten). length r.1) step in
          let more = length-mark_ranges len range' (idx + 1) keys ranges' in
          EachBelow-from n _ _ step (
            omega (arith, new.1, new.2, more, ends),
            EachBelow-mark_ranges n len range' (idx + 1) keys ranges' (omega (arith, ends))
                (λ _. omega (arith, new.1, new.2)),
          )
      | inr plain ↦
          let step = mark_ranges_plain range idx key keys ranges plain in
          let ends =
            ap (λ (r : List JournalKey × List JournalKeyRangeOverwritten). length r.1) step in
          EachBelow-from n _ _ step (
            omega arith,
            EachBelow-mark_ranges n 0 0 (idx + 1) keys ranges (omega (arith, ends))
                (λ ne. absurd (ne refl)),
          )
    ]
