-- ===== src/Journal/Keys/Found.antt =====
-- What looking up journal keys finds, against the places of the keys.
use subvol.Prelude.{
  subst, ℕ, zero, suc, ◌+◌, ◌-◌, ◌≤◌, ◌<◌, ◌≡◌, ◌↔◌, inl, inr, refl, sym, ◌∙◌, true, false, Option,
  none, some, List, [], ◌∷◌, length, get_elem?, ltb, leb, arith, Bool-cases, Option-cases,
}
use subvol.Bkey.Pos.{Bpos}
use subvol.Bkey.Pos.Order.{bpos_cmp-eq-sign}
use subvol.Journal.Keys.{BkeyI, JournalKey, JournalKeys, key_pos}
use subvol.Journal.Keys.Peek.{
  in_range, range_of, next_index, peek_max_from, bch2_journal_keys_peek_max,
}
use subvol.Journal.Keys.Rank.{rank, place_rank, IsPlace, IsKey, EachIsKey}
use subvol.Journal.Keys.Ranges.{overwritten_at, RangeSound}
use subvol.Journal.Keys.Valid.{IsOverwritten, RangesSound, IsJournalKeys}

pub in_range_iff :
    (btree_id level : ℕ) (low high : Bpos) (key : JournalKey)
    → IsPlace btree_id level low
    → IsPlace btree_id level high
    → IsKey key
    → (in_range btree_id level low high key ≡ true)
      ↔ ((place_rank btree_id level low ≤ rank key) × (rank key ≤ place_rank btree_id level high))
unfolding in_range
in_range_iff btree_id level low high key hl hh hk =
    let above = bpos_cmp-eq-sign (key_pos key) low hk.pos_fits hl.pos_fits in
    let below = bpos_cmp-eq-sign (key_pos key) high hk.pos_fits hh.pos_fits in
    ground (arith, above, below)

pub get_elem?-none {ℓ} :
    {A : Type ℓ} (xs : List A) (i j : ℕ)
    → get_elem? xs i ≡ none
    → i ≤ j
    → (get_elem? xs j ≡ none) × (length xs ≤ i)
get_elem?-none [] i j e le = (refl, omega arith)
get_elem?-none (x ∷ xs) zero j e le = cc e
get_elem?-none (x ∷ xs) (suc i) zero e le = absurd (omega arith)
get_elem?-none (x ∷ xs) (suc i) (suc j) e le =
    let (missing, short) = get_elem?-none xs i j e (omega arith) in (missing, omega arith)

pub get_elem?-some {ℓ} :
    {A : Type ℓ} (xs : List A) (i : ℕ) (x : A) → get_elem? xs i ≡ some x → i < length xs
get_elem?-some [] i x e = cc e
get_elem?-some (y ∷ xs) zero x e = omega arith
get_elem?-some (y ∷ xs) (suc i) x e = let ih = get_elem?-some xs i x e in omega arith

pub overwritten-within :
    (keys : List JournalKey) (i : ℕ) → overwritten_at keys i ≡ true → i < length keys
overwritten-within [] i e = cc e
overwritten-within (key ∷ keys) zero e = omega arith
overwritten-within (key ∷ keys) (suc i) e = let ih = overwritten-within keys i e in omega arith

pub EachIsKey-at :
    (keys : List JournalKey) (i : ℕ) (key : JournalKey)
    → EachIsKey keys
    → get_elem? keys i ≡ some key
    → IsKey key
EachIsKey-at [] i key h e = cc e
EachIsKey-at (head ∷ keys) zero key (h, hs) e = let same : head ≡ key = cc in rw (← same) h
EachIsKey-at (head ∷ keys) (suc i) key (h, hs) e = EachIsKey-at keys i key hs e

-- A key of the array that a search from `lo` to `hi` passes: it lies outside or is overwritten.
abbrev pub Passed : List JournalKey → ℕ → ℕ → ℕ → Type 0
Passed keys lo hi i =
    (key : JournalKey)
    → get_elem? keys i ≡ some key
    → lo ≤ rank key
    → rank key ≤ hi
    → key.overwritten ≡ true

-- What a forward search from an index may return.
pub data Ahead (keys : List JournalKey) (lo hi idx : ℕ) : Option (ℕ × Option BkeyI) → Type 0 where
  found :
      (i : ℕ) (key : JournalKey)
      → get_elem? keys i ≡ some key
      → key.overwritten ≡ false
      → lo ≤ rank key
      → rank key ≤ hi
      → idx ≤ i
      → ((j : ℕ) → idx ≤ j → j < i → Passed keys lo hi j)
      → Ahead keys lo hi idx (some (i, some key.allocated_k))
  missing :
      (i : ℕ)
      → length keys ≤ i
      → ((j : ℕ) → idx ≤ j → Passed keys lo hi j)
      → Ahead keys lo hi idx (some (i, none))

pub search_from :
    (keys : List JournalKey) (lo hi idx next : ℕ) (result : Option (ℕ × Option BkeyI))
    → idx ≤ next
    → ((j : ℕ) → idx ≤ j → j < next → Passed keys lo hi j)
    → Ahead keys lo hi next result
    → Ahead keys lo hi idx result
search_from keys lo hi idx next result le passed (found i key at_ live lo_ hi_ from_ before) =
    found i key at_ live lo_ hi_ (omega arith) (λ j ge lt. elim (Bool-cases (ltb j next)) [
      | inl near ↦ passed j ge (ground arith)
      | inr far ↦ before j (ground arith) lt
    ])
search_from keys lo hi idx next result le passed (missing i short after) = missing i short (λ j ge.
    elim (Bool-cases (ltb j next)) [
      | inl near ↦ passed j ge (ground arith)
      | inr far ↦ after j (ground arith)
    ])

pub overwritten-Passed :
    (keys : List JournalKey) (lo hi i : ℕ) → IsOverwritten keys i → Passed keys lo hi i
overwritten-Passed keys lo hi i h key e above below =
    let same : overwritten_at keys i ≡ key.overwritten = rw (overwritten_at, e) refl in sym same ∙ h

pub outside-Passed :
    (keys : List JournalKey) (lo hi i : ℕ) (key : JournalKey)
    → get_elem? keys i ≡ some key
    → ((lo ≤ rank key) × (rank key ≤ hi) → ⊥)
    → Passed keys lo hi i
outside-Passed keys lo hi i key e out other e' above below =
    let same : other ≡ key = cc in absurd (out (rw (← same) (above, below)))

module _ (keys : JournalKeys) (valid : EachIsKey keys.data_) (ranges : RangesSound keys)
    (btree_id level : ℕ) (low high : Bpos) (hl : IsPlace btree_id level low)
    (hh : IsPlace btree_id level high) where
  peek_max_from_over :
      (fuel idx next : ℕ) (key : JournalKey)
      → get_elem? keys.data_ idx ≡ some key
      → in_range btree_id level low high key ≡ true
      → key.overwritten ≡ true
      → next_index keys key idx ≡ next
      → peek_max_from (suc fuel) keys btree_id level low high idx
        ≡ peek_max_from fuel keys btree_id level low high next
  unfolding peek_max_from
  peek_max_from_over fuel idx next key here inside over to =
      rw (peek_max_from, here, inside) (simp (over, to) refl)

  peek_max_from-Ahead :
      (fuel idx : ℕ)
      → idx ≤ length keys.data_
      → length keys.data_ < fuel + idx
      → Ahead keys.data_
          (place_rank btree_id level low)
          (place_rank btree_id level high)
          idx
          (peek_max_from fuel keys btree_id level low high idx)
  unfolding peek_max_from
  peek_max_from-Ahead zero idx within more = absurd (omega arith)
  peek_max_from-Ahead (suc fuel) idx within more = elim (Option-cases (get_elem? keys.data_ idx)) [
    | inl end ↦
        rw (peek_max_from, end)
          (missing idx (get_elem?-none keys.data_ idx idx end (omega arith)).1
            (λ j ge key e above below.
              absurd (let none_ = (get_elem?-none keys.data_ idx j end ge).0 in cc)))
    | inr (key, here) ↦
        let lo = place_rank btree_id level low in
        let hi = place_rank btree_id level high in
        let is_key = EachIsKey-at keys.data_ idx key valid here in
        let inside_iff = in_range_iff btree_id level low high key hl hh is_key in
        let inside_len = get_elem?-some keys.data_ idx key here in
        elim (Bool-cases (in_range btree_id level low high key)) [
          | inr outside ↦
              let out : (lo ≤ rank key) × (rank key ≤ hi) → ⊥ =
                λ h. (let inside = inside_iff.1 h in cc) in
              rw (peek_max_from, here, outside)
                (step idx (idx + 1) _ (omega arith)
                  (one idx (outside-Passed keys.data_ lo hi idx key here out))
                  (peek_max_from-Ahead fuel (idx + 1) (omega arith) (omega arith)))
          | inl inside ↦
              let (above, below) = inside_iff.0 inside in
              elim (Bool-cases key.overwritten) [
                | inr live ↦
                    rw (peek_max_from, here, inside, live)
                      (found idx key here live above below (omega arith)
                        (λ j ge lt. absurd (omega arith)))
                | inl over ↦
                    let over_at : IsOverwritten keys.data_ idx =
                      rw (overwritten_at, here, over) refl in
                    elim (Option-cases (range_of keys key)) [
                      | inl single ↦
                          rw
                            (peek_max_from_over fuel idx (idx + 1) key here inside over
                              (rw (next_index, single) refl))
                            (step idx (idx + 1) _ (omega arith)
                              (one idx (overwritten-Passed keys.data_ lo hi idx over_at))
                              (peek_max_from-Ahead fuel (idx + 1) (omega arith) (omega arith)))
                      | inr (range, known) ↦
                          let (start, end, all) =
                            subst (RangeSound (IsOverwritten keys.data_) idx) known
                              (ranges idx key here) in
                          let last : IsOverwritten keys.data_ (range.end - 1) =
                            all _ (omega arith) (omega arith) in
                          let short = overwritten-within keys.data_ (range.end - 1) last in
                          rw
                            (peek_max_from_over fuel idx range.end key here inside over
                              (rw (next_index, known) refl))
                            (step idx range.end _ (omega arith)
                              (λ j ge lt.
                                overwritten-Passed keys.data_ lo hi j (all j (omega arith) lt))
                              (peek_max_from-Ahead fuel range.end (omega arith) (omega arith)))
                    ]
              ]
        ]
  ]
    where
      step :
          (idx next : ℕ) (result : Option (ℕ × Option BkeyI))
          → idx ≤ next
          → ((j : ℕ)
              → idx ≤ j
              → j < next
              → Passed keys.data_
                  (place_rank btree_id level low)
                  (place_rank btree_id level high)
                  j)
          → Ahead keys.data_
              (place_rank btree_id level low)
              (place_rank btree_id level high)
              next
              result
          → Ahead keys.data_
              (place_rank btree_id level low)
              (place_rank btree_id level high)
              idx
              result
      step = search_from keys.data_ (place_rank btree_id level low) (place_rank btree_id level high)

      one :
          (i : ℕ)
          → Passed keys.data_ (place_rank btree_id level low) (place_rank btree_id level high) i
          → (j : ℕ) → i ≤ j
          → j < i + 1
          → Passed keys.data_ (place_rank btree_id level low) (place_rank btree_id level high) j
      one i h j ge lt = let same : j ≡ i = omega arith in rw same h

-- A search of a well-formed array from an index at most its length, from a low to a high position
-- of one btree level, ends on any fuel greater than the length: with the index and key of the first
-- one from the index on that lies in the range and is not overwritten, or with nothing when there
-- is none. The keys it passes over lie outside of the range or are overwritten.
pub peek_max-Ahead :
    (keys : JournalKeys) (btree_id level : ℕ) (low high : Bpos) (fuel idx : ℕ)
    → IsJournalKeys keys
    → IsPlace btree_id level low
    → IsPlace btree_id level high
    → idx ≤ length keys.data_
    → length keys.data_ < fuel
    → Ahead keys.data_
        (place_rank btree_id level low)
        (place_rank btree_id level high)
        idx
        (bch2_journal_keys_peek_max fuel keys btree_id level low high idx)
unfolding bch2_journal_keys_peek_max
peek_max-Ahead keys btree_id level low high fuel idx h hl hh within enough =
    let allowed : leb idx (length keys.data_) ≡ true = ground arith in
    rw allowed (
      peek_max_from-Ahead keys h.valid h.ranges btree_id level low high hl hh fuel idx within
        (omega arith))
