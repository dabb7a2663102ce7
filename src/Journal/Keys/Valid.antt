-- ===== src/Journal/Keys/Valid.antt =====
-- The well-formed arrays of journal keys, which sorting makes.
use subvol.Prelude.{
  subst, ℕ, max, zero, suc, ◌+◌, ◌^◌, ◌<◌, ◌≡◌, inl, inr, refl, sym, ap, ◌∙◌, true, some, List, [],
  ◌∷◌, map, length, get_elem?, arith, Bool-cases,
}
use subvol.Journal.Keys.{
  JournalKey, JournalKeys, JournalKeyRangeOverwritten, journal_key_le, insert_sorted, sort_keys,
  mark_ranges, journal_keys_sort,
}
use subvol.Journal.Keys.Peek.{range_of, range_at}
use subvol.Journal.Keys.Rank.{EachIsKey, lookup}
use subvol.Journal.Keys.Sorted.{
  IsAscending, IsDistinct, EachIsKey-sort_keys, lookup-sort_keys, sort_keys-IsAscending, forget,
  forget-mark_ranges, same_keys,
}
use subvol.Journal.Keys.Ranges.{
  overwritten_at, RangeSound, EachSound, EachOver, EachSound-mark_ranges,
}
use subvol.Journal.Keys.Known.{EachBelow, EachBelow-mark_ranges}

abbrev pub IsOverwritten : List JournalKey → ℕ → Type 0
IsOverwritten keys i = overwritten_at keys i ≡ true

-- Every key that has a range stands in it, and the keys of the range are overwritten.
abbrev pub RangesSound : JournalKeys → Type 0
RangesSound keys =
    (i : ℕ) (key : JournalKey)
    → get_elem? keys.data_ i ≡ some key
    → RangeSound (IsOverwritten keys.data_) i (range_of keys key)

-- The array that replay reads: the places are valid, strictly ascending and counted, the ranges sound.
pub record IsJournalKeys (keys : JournalKeys) : Type 0 where
  pub valid : EachIsKey keys.data_
  pub ascending : IsAscending keys.data_
  pub count : keys.nr ≡ length keys.data_
  pub ranges : RangesSound keys
  pub known : EachBelow (max 1 (length keys.overwrites)) keys.data_

EachOver-within :
    (whole : List JournalKey) (idx : ℕ) (keys : List JournalKey)
    → ((j : ℕ) → overwritten_at keys j ≡ overwritten_at whole (idx + j))
    → EachOver (IsOverwritten whole) idx keys
EachOver-within whole idx [] h = tt
EachOver-within whole idx (key ∷ keys) h = (
  λ over. let e : idx + 0 ≡ idx = omega arith in let at_ = h 0 in rw (← over, at_, e) refl,
  EachOver-within whole (idx + 1) keys
      (λ j. let e : idx + 1 + j ≡ idx + suc j = omega arith in rw e (h (suc j))),
)

EachSound-at :
    (Over : ℕ → Type 0) (ranges : List JournalKeyRangeOverwritten) (idx : ℕ)
    (keys : List JournalKey)
    → EachSound Over ranges idx keys
    → (i : ℕ) (key : JournalKey) → get_elem? keys i ≡ some key
    → RangeSound Over (idx + i) (range_at ranges key.overwritten_range)
EachSound-at Over ranges idx [] h i key e = cc e
EachSound-at Over ranges idx (head ∷ keys) (h, hs) zero key e =
    let same : head ≡ key = cc in let shift : idx + 0 ≡ idx = omega arith in rw (← same, shift) h
EachSound-at Over ranges idx (head ∷ keys) (h, hs) (suc i) key e =
    let shift : idx + suc i ≡ idx + 1 + i = omega arith in
    rw shift (EachSound-at Over ranges (idx + 1) keys hs i key e)

pub overwritten_at-forget :
    (keys : List JournalKey) (i : ℕ) → overwritten_at (map forget keys) i ≡ overwritten_at keys i
overwritten_at-forget [] i = refl
overwritten_at-forget (key ∷ keys) zero = refl
overwritten_at-forget (key ∷ keys) (suc i) = overwritten_at-forget keys i

length-insert_sorted :
    (key : JournalKey) (keys : List JournalKey)
    → length (insert_sorted key keys) ≡ suc (length keys)
length-insert_sorted key [] = refl
length-insert_sorted key (next ∷ keys) = elim (Bool-cases (journal_key_le key next)) [
  | inl le ↦ rw le refl
  | inr gt ↦ rw gt (ap suc (length-insert_sorted key keys))
]

length-sort_keys : (keys : List JournalKey) → length (sort_keys keys) ≡ length keys
length-sort_keys [] = refl
length-sort_keys (key ∷ keys) =
    length-insert_sorted key (sort_keys keys) ∙ ap suc (length-sort_keys keys)

-- Sorting an array of distinct places makes it well formed and keeps the map.
pub journal_keys_sort_lem :
    (keys : JournalKeys)
    → EachIsKey keys.data_
    → IsDistinct keys.data_
    → keys.nr ≡ length keys.data_
    → length keys.data_ + 1 < 2 ^ 32
    → IsJournalKeys (journal_keys_sort keys)
      × ((n : ℕ) → lookup (journal_keys_sort keys).data_ n ≡ lookup keys.data_ n)
      × (length (journal_keys_sort keys).data_ ≡ length keys.data_)
unfolding journal_keys_sort
journal_keys_sort_lem keys h d count small =
    let sorted = sort_keys keys.data_ in
    let marked = (mark_ranges 0 0 0 sorted []).0 in
    let all = (mark_ranges 0 0 0 sorted []).1 in
    let same = forget-mark_ranges 0 0 0 sorted [] in
    let (valid, ascending, len, looks) = same_keys marked sorted same in
    let length_ : length marked ≡ length keys.data_ = len ∙ length-sort_keys keys.data_ in
    let overs : (j : ℕ) → overwritten_at sorted j ≡ overwritten_at marked (0 + j) = λ j.
      let shift : 0 + j ≡ j = omega arith in
      rw shift (
        sym (overwritten_at-forget sorted j)
        ∙ ap (λ (ks : List JournalKey). overwritten_at ks j) (sym same)
        ∙ overwritten_at-forget marked j) in
    let sound =
      EachSound-mark_ranges (IsOverwritten marked) 0 0 0 sorted []
        (EachOver-within marked 0 sorted overs) tt (omega (arith, length-sort_keys keys.data_)) in
    (
      record {
        valid = rw valid (EachIsKey-sort_keys keys.data_ h);
        ascending = rw ascending (sort_keys-IsAscending keys.data_ h d);
        count = count ∙ sym length_;
        ranges = λ i key e.
            let shift : 0 + i ≡ i = omega arith in
            subst
              (λ (m : ℕ). RangeSound (IsOverwritten marked) m (range_at all key.overwritten_range))
              shift (EachSound-at (IsOverwritten marked) all 0 marked sound i key e);
        known = EachBelow-mark_ranges _ 0 0 0 sorted [] (omega arith) (λ ne. absurd (ne refl));
      },
      λ n. looks n ∙ lookup-sort_keys keys.data_ n h,
      length_,
    )
