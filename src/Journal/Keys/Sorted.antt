-- ===== src/Journal/Keys/Sorted.antt =====
-- The sorted array: strictly ascending places, and the same map as before the sort.
use subvol.Prelude.{
  ℕ, zero, suc, ◌+◌, ◌≤◌, ◌<◌, ◌≡◌, inl, inr, refl, sym, ap, ◌∙◌, false, none, some, List, [], ◌∷◌,
  map, length, ◌==◌, if◌then◌else◌, arith, Bool-cases,
}
use subvol.Journal.Keys.{
  JournalKey, JournalKeyRangeOverwritten, journal_key_le, insert_sorted, sort_keys, run_length,
  push_range, mark_ranges,
}
use subvol.Journal.Keys.Rank.{rank, IsKey, EachIsKey, entry, lookup, le_iff, lookup-insert_sorted}

abbrev pub Above : ℕ → List JournalKey → Type 0
Above n [] = Unit
Above n (key ∷ keys) = (n < rank key) × Above n keys

abbrev pub IsAscending : List JournalKey → Type 0
IsAscending [] = Unit
IsAscending (key ∷ keys) = Above (rank key) keys × IsAscending keys

-- No place occurs twice.
abbrev pub IsDistinct : List JournalKey → Type 0
IsDistinct [] = Unit
IsDistinct (key ∷ keys) = (lookup keys (rank key) ≡ none) × IsDistinct keys

pub weaken_bound : (m n : ℕ) (keys : List JournalKey) → m ≤ n → Above n keys → Above m keys
weaken_bound m n [] le h = tt
weaken_bound m n (key ∷ keys) le (h, hs) = (omega arith, weaken_bound m n keys le hs)

pub lookup-Above : (n : ℕ) (keys : List JournalKey) → Above n keys → lookup keys n ≡ none
lookup-Above n [] h = refl
lookup-Above n (key ∷ keys) (h, hs) =
    let test : (rank key == n) ≡ false = ground arith in rw test (lookup-Above n keys hs)

pub Ascending-IsDistinct : (keys : List JournalKey) → IsAscending keys → IsDistinct keys
Ascending-IsDistinct [] h = tt
Ascending-IsDistinct (key ∷ keys) (h, hs) =
    (lookup-Above (rank key) keys h, Ascending-IsDistinct keys hs)

EachIsKey-insert_sorted :
    (key : JournalKey) (keys : List JournalKey)
    → IsKey key
    → EachIsKey keys
    → EachIsKey (insert_sorted key keys)
EachIsKey-insert_sorted key [] h hs = (h, tt)
EachIsKey-insert_sorted key (next ∷ keys) h (hn, hs) = elim (Bool-cases (journal_key_le key next)) [
  | inl le ↦ rw le (h, (hn, hs))
  | inr gt ↦ rw gt (hn, EachIsKey-insert_sorted key keys h hs)
]

Above-insert_sorted :
    (n : ℕ) (key : JournalKey) (keys : List JournalKey)
    → n < rank key
    → Above n keys
    → Above n (insert_sorted key keys)
Above-insert_sorted n key [] h hs = (h, tt)
Above-insert_sorted n key (next ∷ keys) h (hn, hs) = elim (Bool-cases (journal_key_le key next)) [
  | inl le ↦ rw le (h, (hn, hs))
  | inr gt ↦ rw gt (hn, Above-insert_sorted n key keys h hs)
]

insert_sorted-IsAscending :
    (key : JournalKey) (keys : List JournalKey)
    → IsKey key
    → EachIsKey keys
    → lookup keys (rank key) ≡ none
    → IsAscending keys
    → IsAscending (insert_sorted key keys)
insert_sorted-IsAscending key [] h hs new asc = (tt, tt)
insert_sorted-IsAscending key (next ∷ keys) h (hn, hs) new (above, asc) =
    let order = le_iff key next h hn in
    elim (Bool-cases (rank next == rank key)) [
      | inl same ↦ absurd (let found : some (entry next) ≡ none = rw (← new, same) refl in cc)
      | inr other ↦
          let new' : lookup keys (rank key) ≡ none = rw (← new, other) refl in
          elim (Bool-cases (journal_key_le key next)) [
            | inl le ↦
                let lt : rank key < rank next = ground (arith, order) in
                rw le
                  ((lt, weaken_bound (rank key) (rank next) keys (omega arith) above), (above, asc))
            | inr gt ↦
                let lt : rank next < rank key = ground (arith, order) in
                rw gt (
                  Above-insert_sorted (rank next) key keys lt above,
                  insert_sorted-IsAscending key keys h hs new' asc,
                )
          ]
    ]

pub EachIsKey-sort_keys : (keys : List JournalKey) → EachIsKey keys → EachIsKey (sort_keys keys)
EachIsKey-sort_keys [] h = tt
EachIsKey-sort_keys (key ∷ keys) (h, hs) =
    EachIsKey-insert_sorted key (sort_keys keys) h (EachIsKey-sort_keys keys hs)

pub lookup-sort_keys :
    (keys : List JournalKey) (n : ℕ) → EachIsKey keys → lookup (sort_keys keys) n ≡ lookup keys n
lookup-sort_keys [] n h = refl
lookup-sort_keys (key ∷ keys) n (h, hs) =
    lookup-insert_sorted key (sort_keys keys) n h (EachIsKey-sort_keys keys hs)
    ∙ rw (lookup-sort_keys keys n hs) refl

pub sort_keys-IsAscending :
    (keys : List JournalKey) → EachIsKey keys → IsDistinct keys → IsAscending (sort_keys keys)
sort_keys-IsAscending [] h d = tt
sort_keys-IsAscending (key ∷ keys) (h, hs) (new, d) =
    insert_sorted-IsAscending key (sort_keys keys) h (EachIsKey-sort_keys keys hs)
      (lookup-sort_keys keys (rank key) hs ∙ new) (sort_keys-IsAscending keys hs d)

-- Marking the ranges changes no key but for its range.
abbrev pub forget : JournalKey → JournalKey
forget key = record key { overwritten_range = 0 }

pub forget-mark_ranges :
    (left range idx : ℕ) (keys : List JournalKey) (ranges : List JournalKeyRangeOverwritten)
    → map forget (mark_ranges left range idx keys ranges).0 ≡ map forget keys
unfolding mark_ranges
forget-mark_ranges left range idx [] ranges = refl
forget-mark_ranges (suc left) range idx (key ∷ keys) ranges =
    ap (λ (ks : List JournalKey). forget key ∷ ks)
      (forget-mark_ranges left range (idx + 1) keys ranges)
forget-mark_ranges zero range idx (key ∷ keys) ranges =
    let n = run_length key.btree_id key.level keys in
    let (range', ranges') = push_range ranges idx (idx + 1 + n) in
    let step : ℕ × ℕ × List JournalKeyRangeOverwritten =
      if key.overwritten then (n, range', ranges') else (0, 0, ranges) in
    ap (λ (ks : List JournalKey). forget key ∷ ks)
      (forget-mark_ranges step.0 step.1 (idx + 1) keys step.2)

EachIsKey-forget : (keys : List JournalKey) → EachIsKey (map forget keys) ≡ EachIsKey keys
EachIsKey-forget [] = refl
EachIsKey-forget (key ∷ keys) = ap (λ (T : Type 0). IsKey key × T) (EachIsKey-forget keys)

lookup-forget : (keys : List JournalKey) (n : ℕ) → lookup (map forget keys) n ≡ lookup keys n
lookup-forget [] n = refl
lookup-forget (key ∷ keys) n = rw (lookup-forget keys n) refl

Above-forget : (n : ℕ) (keys : List JournalKey) → Above n (map forget keys) ≡ Above n keys
Above-forget n [] = refl
Above-forget n (key ∷ keys) = ap (λ (T : Type 0). (n < rank key) × T) (Above-forget n keys)

IsAscending-forget : (keys : List JournalKey) → IsAscending (map forget keys) ≡ IsAscending keys
IsAscending-forget [] = refl
IsAscending-forget (key ∷ keys) = rw (Above-forget (rank key) keys, IsAscending-forget keys) refl

length-forget : (keys : List JournalKey) → length (map forget keys) ≡ length keys
length-forget [] = refl
length-forget (key ∷ keys) = ap suc (length-forget keys)

-- What depends on the keys up to their ranges is the same for two arrays that differ in the ranges.
pub same_keys :
    (xs ys : List JournalKey)
    → map forget xs ≡ map forget ys
    → (EachIsKey xs ≡ EachIsKey ys)
      × (IsAscending xs ≡ IsAscending ys)
      × (length xs ≡ length ys)
      × ((n : ℕ) → lookup xs n ≡ lookup ys n)
same_keys xs ys e = (
  sym (EachIsKey-forget xs) ∙ ap EachIsKey e ∙ EachIsKey-forget ys,
  sym (IsAscending-forget xs) ∙ ap IsAscending e ∙ IsAscending-forget ys,
  sym (length-forget xs) ∙ ap length e ∙ length-forget ys,
  λ n. sym (lookup-forget xs n) ∙ ap (λ (ks : List JournalKey). lookup ks n) e ∙ lookup-forget ys n,
)
