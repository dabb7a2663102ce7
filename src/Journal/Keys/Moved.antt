-- ===== src/Journal/Keys/Moved.antt =====
-- Keys that move to another range: when the ranges of the array stay sound.
use subvol.Prelude.{
  subst, ℕ, zero, suc, ◌%◌, ◌^◌, ◌<◌, ◌≤◌, ◌≡◌, ◌≢◌, ◌⊎◌, inl, inr, refl, sym, ap, ◌∙◌, false,
  Option, none, some, List, [], ◌∷◌, max, length, get_elem?, ◌==◌, arith, Bool-cases, Option-cases,
  ==→ne,
}
use subvol.Journal.Keys.{
  JournalKey, JournalKeys, JournalKeyRangeOverwritten, with_range, push_range,
}
use subvol.Journal.Keys.Peek.{range_of, range_at}
use subvol.Journal.Keys.Overwrite.{modify, mark_overwritten, set_ranges}
use subvol.Journal.Keys.Ranges.{RangeSound, push_range-Extends, push_range_lem}
use subvol.Journal.Keys.Known.{EachBelow}
use subvol.Journal.Keys.Valid.{IsOverwritten, RangesSound}
use subvol.Journal.Keys.Found.{get_elem?-some, get_elem?-none}
use subvol.Journal.Keys.Marked.{
  get_elem?-modify_self, get_elem?-modify_ne, length-modify, modify_source, set_ranges_source,
}

-- Every key keeps the index of its range or, from `s` to `e`, gets `range`.
abbrev pub Moved : ℕ → ℕ → ℕ → List JournalKey → List JournalKey → Type 0
Moved range s e keys keys' =
    (i : ℕ) (key' : JournalKey)
    → get_elem? keys' i ≡ some key'
    → (key : JournalKey) × (get_elem? keys i ≡ some key)
      × ((key'.overwritten_range ≡ key.overwritten_range)
          ⊎ ((key'.overwritten_range ≡ range) × (s ≤ i) × (i < e)))

-- The array of ranges gets at `range` one from `s` to `e` that holds the one it had; the others stay.
pub record Widened (range s e : ℕ) (ranges ranges' : List JournalKeyRangeOverwritten) : Type 0 where
  pub widened : range_at ranges' range ≡ some (record { start = s; end = e })
  pub same :
      (n : ℕ) → n < max 1 (length ranges) → n ≢ range → range_at ranges' n ≡ range_at ranges n
  pub holds :
      range < max 1 (length ranges)
      → (r : JournalKeyRangeOverwritten) × (range_at ranges range ≡ some r)
        × (s ≤ r.start)
        × (r.end ≤ e)
  pub grows : max 1 (length ranges) ≤ max 1 (length ranges')
  pub within : range < length ranges'

module _ (range s e : ℕ) where
  pub unmoved : (keys : List JournalKey) → Moved range s e keys keys
  unmoved keys i key' at_ = (key', at_, inl refl)

  pub Moved-mark :
      (keys keys' : List JournalKey) (i : ℕ)
      → Moved range s e keys keys'
      → Moved range s e keys (modify keys' i mark_overwritten)
  Moved-mark keys keys' i h j key' at_ =
      let (source, there, from) = modify_source keys' i j mark_overwritten key' at_ in
      let (key, here, cases) = h j source there in
      let same : key'.overwritten_range ≡ source.overwritten_range = elim from [
        | inl e ↦ ap (λ (k : JournalKey). k.overwritten_range) e
        | inr (_, e) ↦ ap (λ (k : JournalKey). k.overwritten_range) e
      ] in
      (
        key,
        here,
        elim cases [
          | inl kept ↦ inl (same ∙ kept)
          | inr (set_, ge, lt) ↦ inr (same ∙ set_, ge, lt)
        ],
      )

  pub Moved-modify :
      (keys keys' : List JournalKey) (i : ℕ)
      → range < 2 ^ 32
      → s ≤ i
      → i < e
      → Moved range s e keys keys'
      → Moved range s e keys (modify keys' i (with_range range))
  Moved-modify keys keys' i fits ge lt h j key' at_ =
      let (source, there, from) = modify_source keys' i j (with_range range) key' at_ in
      let (key, here, cases) = h j source there in
      (
        key,
        here,
        elim from [
          | inl same ↦
              let kept = ap (λ (k : JournalKey). k.overwritten_range) same in
              elim cases [ inl k ↦ inl (kept ∙ k) | inr (k, ge', lt') ↦ inr (kept ∙ k, ge', lt') ]
          | inr (at_i, same) ↦
              let moved : key'.overwritten_range ≡ range % 2 ^ 32 =
                ap (λ (k : JournalKey). k.overwritten_range) same in
              inr (omega arith, omega arith, omega arith)
        ],
      )

  pub Moved-set_ranges :
      (start end : ℕ) (keys keys' : List JournalKey)
      → range < 2 ^ 32
      → s ≤ start
      → end ≤ e
      → Moved range s e keys keys'
      → Moved range s e keys (set_ranges range start end 0 keys')
  Moved-set_ranges start end keys keys' fits ge lt h j key' at_ =
      let (source, there, from) = set_ranges_source range start end 0 keys' j key' at_ in
      let (key, here, cases) = h j source there in
      (
        key,
        here,
        elim from [
          | inl same ↦
              let kept = ap (λ (k : JournalKey). k.overwritten_range) same in
              elim cases [ inl k ↦ inl (kept ∙ k) | inr (k, ge', lt') ↦ inr (kept ∙ k, ge', lt') ]
          | inr (same, ge', lt') ↦
              let moved : key'.overwritten_range ≡ range % 2 ^ 32 =
                ap (λ (k : JournalKey). k.overwritten_range) same in
              inr (omega arith, omega arith, omega arith)
        ],
      )

EachBelow-at :
    (n : ℕ) (keys : List JournalKey) (i : ℕ) (key : JournalKey)
    → EachBelow n keys
    → get_elem? keys i ≡ some key
    → key.overwritten_range < n
EachBelow-at n [] i key h e = cc e
EachBelow-at n (head ∷ keys) zero key (h, hs) e = let same : head ≡ key = cc in rw (← same) h
EachBelow-at n (head ∷ keys) (suc i) key (h, hs) e = EachBelow-at n keys i key hs e

at-EachBelow :
    (n : ℕ) (keys : List JournalKey)
    → ((i : ℕ) (key : JournalKey) → get_elem? keys i ≡ some key → key.overwritten_range < n)
    → EachBelow n keys
at-EachBelow n [] h = tt
at-EachBelow n (key ∷ keys) h = (h 0 key refl, at-EachBelow n keys (λ i k e. h (suc i) k e))

sound_mono :
    (P Q : ℕ → Type 0) (i : ℕ) (range : Option JournalKeyRangeOverwritten)
    → ((j : ℕ) → P j → Q j)
    → RangeSound P i range
    → RangeSound Q i range
sound_mono P Q i none h r = tt
sound_mono P Q i (some range) h (ge, lt, all) = (ge, lt, λ j ge' lt'. h j (all j ge' lt'))

module _ (keys keys' : JournalKeys) (range s e : ℕ) (sound : RangesSound keys)
    (known : EachBelow (max 1 (length keys.overwrites)) keys.data_)
    (moved : Moved range s e keys.data_ keys'.data_)
    (wide : Widened range s e keys.overwrites keys'.overwrites)
    (mono : (j : ℕ) → IsOverwritten keys.data_ j → IsOverwritten keys'.data_ j)
    (covered : (j : ℕ) → s ≤ j → j < e → IsOverwritten keys'.data_ j) where
  RangeSound-widened :
      (i n : ℕ)
      → n ≡ range
      → s ≤ i
      → i < e
      → RangeSound (IsOverwritten keys'.data_) i (range_at keys'.overwrites n)
  RangeSound-widened i n same ge lt = rw (same, wide.widened) (ge, lt, covered)

  -- An array that differs in keys moved to a widened range keeps its ranges sound and known.
  pub RangesSound-moved :
      RangesSound keys' × EachBelow (max 1 (length keys'.overwrites)) keys'.data_
  RangesSound-moved = (
    λ i key' at_.
        let (key, here, cases) = moved i key' at_ in
        let below = EachBelow-at _ keys.data_ i key known here in
        elim cases [
          | inr (set_, ge, lt) ↦ RangeSound-widened i key'.overwritten_range set_ ge lt
          | inl kept ↦ elim (Bool-cases (key.overwritten_range == range)) [
            | inl there ↦
                let n : key.overwritten_range ≡ range = ground arith in
                let (r, old, start, end) = wide.holds (omega arith) in
                let was : range_of keys key ≡ some r = rw (range_of, n) old in
                let (ge, lt, _) =
                  subst (RangeSound (IsOverwritten keys.data_) i) was (sound i key here) in
                RangeSound-widened i key'.overwritten_range (kept ∙ n) (omega arith) (omega arith)
            | inr other ↦
                let stays = wide.same key.overwritten_range below (==→ne _ _ other) in
                rw (range_of, kept, stays)
                  (sound_mono (IsOverwritten keys.data_) (IsOverwritten keys'.data_) i _ mono
                    (sound i key here))
          ]
        ],
    at-EachBelow _ keys'.data_ (λ i key' at_.
        let (key, here, cases) = moved i key' at_ in
        let below = EachBelow-at _ keys.data_ i key known here in
        let (grows, within) : (max 1 (length keys.overwrites) ≤ max 1 (length keys'.overwrites))
            × (range < length keys'.overwrites) =
          (wide.grows, wide.within) in
        elim cases [ inl kept ↦ omega arith | inr (set_, ge, lt) ↦ omega arith ]),
  )

pub range_at-some :
    (ranges : List JournalKeyRangeOverwritten) (n : ℕ) (r : JournalKeyRangeOverwritten)
    → range_at ranges n ≡ some r
    → ((n == 0) ≡ false) × (get_elem? ranges n ≡ some r)
range_at-some ranges n r e = elim (Bool-cases (n == 0)) [
  | inl zero_ ↦ absurd (let none_ : range_at ranges n ≡ none = rw (range_at, zero_) refl in cc)
  | inr other ↦
      let same : range_at ranges n ≡ get_elem? ranges n = rw (range_at, other) refl in
      (other, sym same ∙ e)
]

-- Changing the bounds of a range to wider ones, and adding a range.
pub modify-Widened :
    (ranges : List JournalKeyRangeOverwritten) (range s e : ℕ)
    (f : JournalKeyRangeOverwritten → JournalKeyRangeOverwritten) (r : JournalKeyRangeOverwritten)
    → range_at ranges range ≡ some r
    → f r ≡ record { start = s; end = e }
    → s ≤ r.start
    → r.end ≤ e
    → Widened range s e ranges (modify ranges range f)
modify-Widened ranges range s e f r at_ to ge le =
    let (test, here) = range_at-some ranges range r at_ in
    let len = length-modify ranges range f in
    let short = get_elem?-some ranges range r here in
    record {
      widened = rw (range_at, test, get_elem?-modify_self ranges range f r here) (ap some to);
      same = λ n lt ne. rw (range_at, get_elem?-modify_ne ranges range n f (λ e. ne (sym e))) refl;
      holds = λ lt. (r, at_, ge, le);
      grows = omega arith;
      within = omega arith;
    }

pub push_range-Widened :
    (ranges : List JournalKeyRangeOverwritten) (s e : ℕ)
    → Widened (push_range ranges s e).0 s e ranges (push_range ranges s e).1
push_range-Widened ranges s e =
    let (new, len, idx) = push_range_lem ranges s e in
    let test : ((push_range ranges s e).0 == 0) ≡ false = ground (arith, idx) in
    record {
      widened = rw (range_at, test) new;
      same = λ n lt ne. elim (Bool-cases (n == 0)) [
        | inl zero_ ↦ rw (range_at, zero_) refl
        | inr other ↦ elim (Option-cases (get_elem? ranges n)) [
          | inl out ↦
              absurd (
                let short = (get_elem?-none ranges n n out (omega arith)).1 in
                ground (arith, other))
          | inr (r, here) ↦ rw (range_at, other, here, push_range-Extends ranges s e n r here) refl
        ]
      ];
      holds = λ lt. absurd (omega arith);
      grows = omega arith;
      within = omega arith;
    }
