-- ===== src/Journal/Keys/Neighbours.antt =====
-- The overwritten keys beside a key, and their ranges.
use subvol.Prelude.{
  ℕ, zero, suc, ◌<◌, ◌≡◌, ◌≢◌, inl, inr, refl, not, none, some, List, [], ◌∷◌, length, get_elem?,
  get_or, ◌==◌, ◌&&◌, ltb, arith, Bool-cases, Option-cases,
}
use subvol.Journal.Keys.{JournalKey, JournalKeyRangeOverwritten}
use subvol.Journal.Keys.Overwrite.{neighbour, neighbour_range}
use subvol.Journal.Keys.Ranges.{overwritten_at}
use subvol.Journal.Keys.Valid.{IsOverwritten}

pub get_or-get_elem? {ℓ} :
    {A : Type ℓ} (xs : List A) (i : ℕ) (default x : A)
    → get_elem? xs i ≡ some x
    → get_or xs i default ≡ x
get_or-get_elem? [] i default x e = cc e
get_or-get_elem? (y ∷ xs) zero default x e = cc
get_or-get_elem? (y ∷ xs) (suc i) default x e = get_or-get_elem? xs i default x e

-- What a neighbour found at index `j` is: an overwritten key.
pub neighbour_lem :
    (keys : List JournalKey) (key : JournalKey) (i j : ℕ)
    → neighbour keys key i ≡ some j
    → (j ≡ i) × IsOverwritten keys i
neighbour_lem keys key i j e = elim (Option-cases (get_elem? keys i)) [
  | inl none_ ↦
      absurd (let nothing : neighbour keys key i ≡ none = rw (neighbour, none_) refl in cc)
  | inr (other, here) ↦
      elim (Bool-cases
        ((other.btree_id == key.btree_id) && (other.level == key.level) && other.overwritten)) [
          | inr no_ ↦
              absurd
                (let nothing : neighbour keys key i ≡ none = rw (neighbour, here, no_) refl in cc)
          | inl yes_ ↦
              let same : neighbour keys key i ≡ some i = rw (neighbour, here, yes_) refl in
              (cc, rw (overwritten_at, here) (ground (arith, yes_)))
        ]
]

pub neighbour_range_lem :
    (keys : List JournalKey) (ranges : List JournalKeyRangeOverwritten) (i range : ℕ)
    → neighbour_range keys ranges (some i) ≡ some range
    → (key : JournalKey) × (get_elem? keys i ≡ some key)
      × (key.overwritten_range ≡ range)
      × (range ≢ 0)
      × (range < length ranges)
neighbour_range_lem keys ranges i range e = elim (Option-cases (get_elem? keys i)) [
  | inl none_ ↦ absurd (
      let nothing : neighbour_range keys ranges (some i) ≡ none =
        rw (neighbour_range, none_) refl in
      cc)
  | inr (key, here) ↦
      let test = not (key.overwritten_range == 0) && ltb key.overwritten_range (length ranges) in
      elim (Bool-cases test) [
        | inr no_ ↦ absurd (
            let nothing : neighbour_range keys ranges (some i) ≡ none =
              rw (neighbour_range, here, no_) refl in
            cc)
        | inl yes_ ↦
            let same : neighbour_range keys ranges (some i) ≡ some key.overwritten_range =
              rw (neighbour_range, here, yes_) refl in
            let n : key.overwritten_range ≡ range = cc in
            (key, here, n, ground (arith, yes_), ground (arith, yes_))
      ]
]
