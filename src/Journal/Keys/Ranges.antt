-- ===== src/Journal/Keys/Ranges.antt =====
-- The ranges of overwritten keys after a sort.
use subvol.Prelude.{
  ℕ, zero, suc, ◌+◌, ◌%◌, ◌^◌, ◌≤◌, ◌<◌, ◌≡◌, inl, inr, refl, Bool, true, false, Option, none, some,
  List, [], ◌∷◌, ◌++◌, max, length, get_elem?, ◌==◌, ◌&&◌, arith, Bool-cases, ==_iff, length-append,
}
use subvol.Journal.Keys.{
  JournalKey, JournalKeyRangeOverwritten, run_length, push_range, mark_ranges, with_range,
}
use subvol.Journal.Keys.Peek.{range_at}

abbrev pub overwritten_at : List JournalKey → ℕ → Bool
overwritten_at keys i = elim (get_elem? keys i) [ none ↦ false | some key ↦ key.overwritten ]

-- The range of a key, if it has one, contains the key, and all its keys satisfy the predicate.
abbrev pub RangeSound : (ℕ → Type 0) → ℕ → Option JournalKeyRangeOverwritten → Type 0
RangeSound Over i none = Unit
RangeSound Over i (some r) =
    (r.start ≤ i) × (i < r.end) × ((j : ℕ) → r.start ≤ j → j < r.end → Over j)

-- Every element of the first list is at its index of the second.
abbrev pub Extends : List JournalKeyRangeOverwritten → List JournalKeyRangeOverwritten → Type 0
Extends xs ys =
    (i : ℕ) (r : JournalKeyRangeOverwritten) → get_elem? xs i ≡ some r → get_elem? ys i ≡ some r

append-Extends : (xs ys : List JournalKeyRangeOverwritten) → Extends xs (xs ++ ys)
append-Extends [] ys i r h = cc h
append-Extends (x ∷ xs) ys zero r h = h
append-Extends (x ∷ xs) ys (suc i) r h = append-Extends xs ys i r h

get_elem?-append-length :
    (xs : List JournalKeyRangeOverwritten) (x : JournalKeyRangeOverwritten)
    → get_elem? (xs ++ (x ∷ [])) (length xs) ≡ some x
get_elem?-append-length [] x = refl
get_elem?-append-length (y ∷ xs) x = get_elem?-append-length xs x

pub push_range-Extends :
    (ranges : List JournalKeyRangeOverwritten) (start end : ℕ)
    → Extends ranges (push_range ranges start end).1
push_range-Extends [] start end = λ i r h. cc h
push_range-Extends (x ∷ xs) start end = append-Extends (x ∷ xs) _

-- The new range is the last one, and its index stays small.
pub push_range_lem :
    (ranges : List JournalKeyRangeOverwritten) (start end : ℕ)
    → (get_elem? (push_range ranges start end).1 (push_range ranges start end).0
        ≡ some (record { start = start; end = end }))
      × (length (push_range ranges start end).1 ≡ max 1 (length ranges) + 1)
      × ((push_range ranges start end).0 ≡ max 1 (length ranges))
push_range_lem [] start end = (refl, refl, refl)
push_range_lem (x ∷ xs) start end = (
  get_elem?-append-length (x ∷ xs) _,
  omega (arith, length-append (x ∷ xs) (record { start = start; end = end } ∷ [])),
  omega arith,
)

-- A step of the loop outside of a run, at an overwritten key and at another.
pub mark_ranges_over :
    (range idx : ℕ) (key : JournalKey) (keys : List JournalKey)
    (ranges : List JournalKeyRangeOverwritten)
    → key.overwritten ≡ true
    → (let n = run_length key.btree_id key.level keys in
        let (range', ranges') = push_range ranges idx (idx + 1 + n) in
        let (rest, all) = mark_ranges n range' (idx + 1) keys ranges' in
        mark_ranges 0 range idx (key ∷ keys) ranges ≡ (with_range range' key ∷ rest, all))
unfolding mark_ranges
mark_ranges_over range idx key keys ranges h = rw h refl

pub mark_ranges_plain :
    (range idx : ℕ) (key : JournalKey) (keys : List JournalKey)
    (ranges : List JournalKeyRangeOverwritten)
    → key.overwritten ≡ false
    → (let (rest, all) = mark_ranges 0 0 (idx + 1) keys ranges in
        mark_ranges 0 range idx (key ∷ keys) ranges ≡ (with_range 0 key ∷ rest, all))
unfolding mark_ranges
mark_ranges_plain range idx key keys ranges h = rw h refl

pub mark_ranges-Extends :
    (left range idx : ℕ) (keys : List JournalKey) (ranges : List JournalKeyRangeOverwritten)
    → Extends ranges (mark_ranges left range idx keys ranges).1
unfolding mark_ranges
mark_ranges-Extends left range idx [] ranges = λ i r h. h
mark_ranges-Extends (suc left) range idx (key ∷ keys) ranges =
    mark_ranges-Extends left range (idx + 1) keys ranges
mark_ranges-Extends zero range idx (key ∷ keys) ranges =
    let n = run_length key.btree_id key.level keys in
    let (range', ranges') = push_range ranges idx (idx + 1 + n) in
    elim (Bool-cases key.overwritten) [
      | inl over ↦ rw over (λ i r h.
          mark_ranges-Extends n range' (idx + 1) keys ranges' i r
            (push_range-Extends ranges idx (idx + 1 + n) i r h))
      | inr plain ↦ rw plain (mark_ranges-Extends 0 0 (idx + 1) keys ranges)
    ]

module _ (Over : ℕ → Type 0) where
  -- From index `idx` on, the ranges of the keys are sound.
  abbrev pub EachSound : List JournalKeyRangeOverwritten → ℕ → List JournalKey → Type 0
  EachSound ranges idx [] = Unit
  EachSound ranges idx (key ∷ keys) =
      RangeSound Over idx (range_at ranges key.overwritten_range) × EachSound ranges (idx + 1) keys

  abbrev pub EachOver : ℕ → List JournalKey → Type 0
  EachOver idx [] = Unit
  EachOver idx (key ∷ keys) = (key.overwritten ≡ true → Over idx) × EachOver (idx + 1) keys

  -- The range that the next `left` keys are to get: it ends behind them.
  abbrev RunAt : List JournalKeyRangeOverwritten → ℕ → ℕ → ℕ → Type 0
  RunAt ranges left range idx =
      (r : JournalKeyRangeOverwritten) × ((get_elem? ranges range ≡ some r)
        × (range < 2 ^ 32)
        × (r.start ≤ idx)
        × (r.end ≡ idx + left)
        × ((j : ℕ) → r.start ≤ j → j < r.end → Over j))

  abbrev RunOf : List JournalKeyRangeOverwritten → ℕ → ℕ → ℕ → Type 0
  RunOf ranges zero range idx = Unit
  RunOf ranges (suc left) range idx = RunAt ranges (suc left) range idx

  RunAt→Of :
      (ranges : List JournalKeyRangeOverwritten) (left range idx : ℕ)
      → RunAt ranges left range idx
      → RunOf ranges left range idx
  RunAt→Of ranges zero range idx h = tt
  RunAt→Of ranges (suc left) range idx h = h

  run_step :
      (ranges : List JournalKeyRangeOverwritten) (left range idx : ℕ)
      → RunAt ranges (suc left) range idx
      → RunOf ranges left range (idx + 1)
  run_step ranges left range idx (r, (found, fits, start, end, over)) =
      RunAt→Of ranges left range (idx + 1) (r, (found, fits, omega arith, omega arith, over))

  run-Over :
      (btree_id level idx : ℕ) (keys : List JournalKey) (j : ℕ)
      → EachOver idx keys
      → idx ≤ j
      → j < idx + run_length btree_id level keys
      → Over j
  run-Over btree_id level idx [] j h le lt = absurd (omega arith)
  run-Over btree_id level idx (key ∷ keys) j (h, hs) le lt =
      elim (Bool-cases (key.overwritten && (key.btree_id == btree_id) && (key.level == level))) [
        | inr ends ↦
            absurd
              (let short : run_length btree_id level (key ∷ keys) ≡ 0 = rw ends refl in omega arith)
        | inl on ↦
            let long : run_length btree_id level (key ∷ keys)
                ≡ suc (run_length btree_id level keys) =
              rw on refl in
            elim (Bool-cases (idx == j)) [
              | inl here ↦ rw (← (==_iff idx j).0 here) (h (ground arith))
              | inr later ↦ run-Over btree_id level (idx + 1) keys j hs (ground arith) (omega arith)
            ]
      ]

  RunAt-RangeSound :
      (ranges all : List JournalKeyRangeOverwritten) (left range idx : ℕ)
      → RunAt ranges (suc left) range idx
      → Extends ranges all
      → RangeSound Over idx (range_at all (range % 2 ^ 32))
  RunAt-RangeSound ranges all left range idx (r, (found, fits, start, end, over)) more =
      let same : range % 2 ^ 32 ≡ range = omega arith in
      elim (Bool-cases (range == 0)) [
        | inl none_ ↦ rw (same, none_) tt
        | inr some_ ↦ rw (same, some_, more range r found) (start, omega arith, over)
      ]

  EachSound-from :
      (idx : ℕ) (result known : List JournalKey × List JournalKeyRangeOverwritten)
      → result ≡ known
      → EachSound known.1 idx known.0
      → EachSound result.1 idx result.0
  EachSound-from idx result known e h = rw e h

  pub EachSound-mark_ranges :
      (left range idx : ℕ) (keys : List JournalKey) (ranges : List JournalKeyRangeOverwritten)
      → EachOver idx keys
      → RunOf ranges left range idx
      → max 1 (length ranges) + length keys < 2 ^ 32
      → EachSound
          (mark_ranges left range idx keys ranges).1
          idx
          (mark_ranges left range idx keys ranges).0
  unfolding mark_ranges
  EachSound-mark_ranges left range idx [] ranges over run small = tt
  EachSound-mark_ranges (suc left) range idx (key ∷ keys) ranges (o, over) run small = (
    RunAt-RangeSound ranges _ left range idx run
        (mark_ranges-Extends left range (idx + 1) keys ranges),
    EachSound-mark_ranges left range (idx + 1) keys ranges over (run_step ranges left range idx run)
        (omega arith),
  )
  EachSound-mark_ranges zero range idx (key ∷ keys) ranges (o, over) run small =
      let n = run_length key.btree_id key.level keys in
      let (range', ranges') = push_range ranges idx (idx + 1 + n) in
      elim (Bool-cases key.overwritten) [
        | inr plain ↦
            EachSound-from idx _ _ (mark_ranges_plain range idx key keys ranges plain)
              (tt, EachSound-mark_ranges 0 0 (idx + 1) keys ranges over tt (omega arith))
        | inl is_over ↦
            let new = push_range_lem ranges idx (idx + 1 + n) in
            let whole : run_length key.btree_id key.level (key ∷ keys) ≡ suc n =
              rw
                (
                  is_over,
                  (==_iff key.btree_id key.btree_id).1 refl,
                  (==_iff key.level key.level).1 refl,
                )
                refl in
            let run' : RunAt ranges' (suc n) range' idx = (
              record { start = idx; end = idx + 1 + n },
              (
                new.0,
                omega arith,
                omega arith,
                omega arith,
                λ j le lt.
                    run-Over key.btree_id key.level idx (key ∷ keys) j (o, over) le
                      (omega (arith, whole)),
              ),
            ) in
            EachSound-from idx _ _ (mark_ranges_over range idx key keys ranges is_over) (
              RunAt-RangeSound ranges' _ n range' idx run'
                  (mark_ranges-Extends n range' (idx + 1) keys ranges'),
              EachSound-mark_ranges n range' (idx + 1) keys ranges' over
                  (run_step ranges' n range' idx run') (omega arith),
            )
      ]
