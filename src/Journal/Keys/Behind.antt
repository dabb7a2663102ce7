-- ===== src/Journal/Keys/Behind.antt =====
-- What a backward search of the journal keys finds.
use subvol.Prelude.{
  subst, ℕ, zero, suc, ◌+◌, ◌≤◌, ◌<◌, ◌≡◌, inl, inr, refl, true, false, Option, none, some, List,
  min, length, get_elem?, ltb, leb, ◌==◌, if◌then◌else◌, arith, Bool-cases, Option-cases,
}
use subvol.Bkey.Pos.{Bpos}
use subvol.Journal.Keys.{BkeyI, JournalKey, JournalKeys}
use subvol.Journal.Keys.Peek.{
  in_range, range_of, prev_index, peek_prev_below, bch2_journal_keys_peek_prev_min,
}
use subvol.Journal.Keys.Rank.{rank, place_rank, IsPlace, EachIsKey}
use subvol.Journal.Keys.Ranges.{overwritten_at, RangeSound}
use subvol.Journal.Keys.Valid.{IsOverwritten, RangesSound, IsJournalKeys}
use subvol.Journal.Keys.Found.{
  in_range_iff, Passed, EachIsKey-at, get_elem?-none, overwritten-Passed, outside-Passed,
}

-- What a backward search below an index may return.
pub data Behind (keys : List JournalKey) (lo hi below : ℕ)
    : Option (ℕ × Option BkeyI) → Type 0 where
  last :
      (i : ℕ) (key : JournalKey)
      → get_elem? keys i ≡ some key
      → key.overwritten ≡ false
      → lo ≤ rank key
      → rank key ≤ hi
      → i < below
      → ((j : ℕ) → i < j → j < below → Passed keys lo hi j)
      → Behind keys lo hi below (some (i, some key.allocated_k))
  nothing : ((j : ℕ) → j < below → Passed keys lo hi j) → Behind keys lo hi below (some (0, none))

search_back_from :
    (keys : List JournalKey) (lo hi below next : ℕ) (result : Option (ℕ × Option BkeyI))
    → next ≤ below
    → ((j : ℕ) → next ≤ j → j < below → Passed keys lo hi j)
    → Behind keys lo hi next result
    → Behind keys lo hi below result
search_back_from keys lo hi below next result le passed (last i key at_ live lo_ hi_ lt after) =
    last i key at_ live lo_ hi_ (omega arith) (λ j gt lt'. elim (Bool-cases (ltb j next)) [
      | inl near ↦ after j gt (ground arith)
      | inr far ↦ passed j (ground arith) lt'
    ])
search_back_from keys lo hi below next result le passed (nothing all) = nothing (λ j lt.
    elim (Bool-cases (ltb j next)) [
      | inl near ↦ all j (ground arith)
      | inr far ↦ passed j (ground arith) lt
    ])

module _ (keys : JournalKeys) (valid : EachIsKey keys.data_) (ranges : RangesSound keys)
    (btree_id level : ℕ) (high low : Bpos) (hh : IsPlace btree_id level high)
    (hl : IsPlace btree_id level low) where
  peek_prev_below_over :
      (fuel cursor next : ℕ) (key : JournalKey)
      → get_elem? keys.data_ cursor ≡ some key
      → in_range btree_id level low high key ≡ true
      → key.overwritten ≡ true
      → prev_index keys key cursor ≡ next
      → peek_prev_below (suc fuel) keys btree_id level high low (suc cursor)
        ≡ peek_prev_below fuel keys btree_id level high low next
  unfolding peek_prev_below
  peek_prev_below_over fuel cursor next key here inside over to =
      rw (peek_prev_below, here, inside) (simp (over, to) refl)

  peek_prev_below-Behind :
      (fuel below : ℕ)
      → below ≤ length keys.data_
      → below < fuel
      → Behind keys.data_
          (place_rank btree_id level low)
          (place_rank btree_id level high)
          below
          (peek_prev_below fuel keys btree_id level high low below)
  unfolding peek_prev_below
  peek_prev_below-Behind zero below within more = absurd (omega arith)
  peek_prev_below-Behind (suc fuel) zero within more = nothing (λ j lt. absurd (omega arith))
  peek_prev_below-Behind (suc fuel) (suc cursor) within more =
      elim (Option-cases (get_elem? keys.data_ cursor)) [
        | inl end ↦ absurd (
            let short = (get_elem?-none keys.data_ cursor cursor end (omega arith)).1 in
            omega arith)
        | inr (key, here) ↦
            let lo = place_rank btree_id level low in
            let hi = place_rank btree_id level high in
            let is_key = EachIsKey-at keys.data_ cursor key valid here in
            let inside_iff = in_range_iff btree_id level low high key hl hh is_key in
            elim (Bool-cases (in_range btree_id level low high key)) [
              | inr outside ↦
                  let out : (lo ≤ rank key) × (rank key ≤ hi) → ⊥ =
                    λ h. (let inside = inside_iff.1 h in cc) in
                  rw (peek_prev_below, here, outside)
                    (step (suc cursor) cursor _ (omega arith)
                      (one cursor (outside-Passed keys.data_ lo hi cursor key here out))
                      (peek_prev_below-Behind fuel cursor (omega arith) (omega arith)))
              | inl inside ↦
                  let (above, below) = inside_iff.0 inside in
                  elim (Bool-cases key.overwritten) [
                    | inr live ↦
                        rw (peek_prev_below, here, inside, live)
                          (last cursor key here live above below (omega arith)
                            (λ j gt lt. absurd (omega arith)))
                    | inl over ↦
                        let over_at : IsOverwritten keys.data_ cursor =
                          rw (overwritten_at, here, over) refl in
                        elim (Option-cases (range_of keys key)) [
                          | inl single ↦
                              rw
                                (peek_prev_below_over fuel cursor cursor key here inside over
                                  (rw (prev_index, single) refl))
                                (step (suc cursor) cursor _ (omega arith)
                                  (one cursor (overwritten-Passed keys.data_ lo hi cursor over_at))
                                  (peek_prev_below-Behind fuel cursor (omega arith) (omega arith)))
                          | inr (range, known) ↦
                              let (start, end, all) =
                                subst (RangeSound (IsOverwritten keys.data_) cursor) known
                                  (ranges cursor key here) in
                              rw
                                (peek_prev_below_over fuel cursor range.start key here inside over
                                  (rw (prev_index, known) refl))
                                (step (suc cursor) range.start _ (omega arith)
                                  (λ j ge lt.
                                    overwritten-Passed keys.data_ lo hi j (all j ge (omega arith)))
                                  (peek_prev_below-Behind fuel range.start (omega arith)
                                    (omega arith)))
                        ]
                  ]
            ]
      ]
    where
      step :
          (below next : ℕ) (result : Option (ℕ × Option BkeyI))
          → next ≤ below
          → ((j : ℕ)
              → next ≤ j
              → j < below
              → Passed keys.data_
                  (place_rank btree_id level low)
                  (place_rank btree_id level high)
                  j)
          → Behind keys.data_
              (place_rank btree_id level low)
              (place_rank btree_id level high)
              next
              result
          → Behind keys.data_
              (place_rank btree_id level low)
              (place_rank btree_id level high)
              below
              result
      step =
          search_back_from keys.data_ (place_rank btree_id level low)
            (place_rank btree_id level high)

      one :
          (i : ℕ)
          → Passed keys.data_ (place_rank btree_id level low) (place_rank btree_id level high) i
          → (j : ℕ) → i ≤ j
          → j < suc i
          → Passed keys.data_ (place_rank btree_id level low) (place_rank btree_id level high) j
      one i h j ge lt = let same : j ≡ i = omega arith in rw same h

-- A backward search of a well-formed array, between two positions of one btree level, ends on any
-- fuel greater than the length. It starts at the given index, or at the last key where the index
-- is 0 or the length, and returns the index and key of the last one up to there that lies in the
-- range and is not overwritten, or the index 0 and no key when there is none.
pub peek_prev_min-Behind :
    (keys : JournalKeys) (btree_id level : ℕ) (high low : Bpos) (fuel idx : ℕ)
    → IsJournalKeys keys
    → IsPlace btree_id level high
    → IsPlace btree_id level low
    → idx ≤ length keys.data_
    → length keys.data_ < fuel
    → Behind keys.data_
        (place_rank btree_id level low)
        (place_rank btree_id level high)
        (if idx == 0 then length keys.data_ else min (idx + 1) (length keys.data_))
        (bch2_journal_keys_peek_prev_min fuel keys btree_id level high low idx)
unfolding bch2_journal_keys_peek_prev_min
peek_prev_min-Behind keys btree_id level high low fuel idx h hh hl within enough =
    let allowed : leb idx (length keys.data_) ≡ true = ground arith in
    rw allowed (
      peek_prev_below-Behind keys h.valid h.ranges btree_id level high low hh hl fuel _
        (ground arith) (ground arith))
