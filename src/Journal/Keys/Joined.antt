-- ===== src/Journal/Keys/Joined.antt =====
-- `__bch2_journal_key_overwritten`: the array stays well formed, and the map changes at one place.
use subvol.Prelude.{
  subst, ℕ, zero, suc, ◌+◌, ◌^◌, ◌<◌, ◌≤◌, ◌≡◌, ◌≢◌, ◌⊎◌, inl, inr, refl, sym, ap, ◌∙◌, true, false,
  Option, none, some, List, map, max, min, length, get_elem?, get_or, ◌==◌, ltb, leb, if◌then◌else◌,
  arith, Bool-cases, Option-cases, ==_iff, ==→ne,
}
use subvol.Prelude.Options.{map_or}
use subvol.Journal.Keys.{
  JournalKey, JournalKeys, JournalKeyRangeOverwritten, with_range, push_range,
}
use subvol.Journal.Keys.Peek.{range_of, range_at}
use subvol.Journal.Keys.Overwrite.{
  modify, mark_overwritten, set_ranges, neighbour, prev_neighbour, neighbour_range, no_range,
  join_ranges, set_range_at, journal_key_overwritten,
}
use subvol.Journal.Keys.Ranges.{overwritten_at, RangeSound, push_range_lem}
use subvol.Journal.Keys.Rank.{rank, lookup}
use subvol.Journal.Keys.Sorted.{forget, same_keys, Ascending-IsDistinct}
use subvol.Journal.Keys.Valid.{overwritten_at-forget, IsOverwritten, IsJournalKeys}
use subvol.Journal.Keys.Found.{get_elem?-none}
use subvol.Journal.Keys.Marked.{
  get_elem?-modify_self, get_elem?-modify_ne, length-modify, EachIsKey-mark, IsAscending-mark,
  lookup-mark, forget-modify, forget-set_ranges,
}
use subvol.Journal.Keys.Moved.{
  Moved, Widened, unmoved, Moved-mark, Moved-modify, Moved-set_ranges, modify-Widened,
  push_range-Widened, RangesSound-moved, range_at-some,
}
use subvol.Journal.Keys.Neighbours.{get_or-get_elem?, neighbour_lem, neighbour_range_lem}

module _ (keys : JournalKeys) (idx : ℕ) (key : JournalKey) (h : IsJournalKeys keys)
    (here : get_elem? keys.data_ idx ≡ some key) (live : key.overwritten ≡ false)
    (small : length keys.overwrites + 2 < 2 ^ 32) where
  abbrev marked : List JournalKey
  marked = modify keys.data_ idx mark_overwritten

  abbrev Over : ℕ → Type 0
  Over j = IsOverwritten keys.data_ j

  -- A range beside the key: it holds the neighbour, and not the key.
  abbrev Beside : ℕ → ℕ → Type 0
  Beside i range =
      (r : JournalKeyRangeOverwritten) × (range_at keys.overwrites range ≡ some r)
      × (r.start ≤ i)
      × (i < r.end)
      × ((r.start ≤ idx → idx < r.end → ⊥) × ((j : ℕ) → r.start ≤ j → j < r.end → Over j))

  Over-marked : (j : ℕ) → Over j → IsOverwritten marked j
  Over-marked j over = elim (Bool-cases (idx == j)) [
    | inl at_ ↦
        let e : idx ≡ j = (==_iff _ _).0 at_ in
        rw (← e, overwritten_at, get_elem?-modify_self keys.data_ idx mark_overwritten key here)
          refl
    | inr other ↦
        let same = get_elem?-modify_ne keys.data_ idx j mark_overwritten (==→ne _ _ other) in
        rw (overwritten_at, same) over
  ]

  not_Over : Over idx → ⊥
  not_Over over =
      let was : overwritten_at keys.data_ idx ≡ key.overwritten = rw (overwritten_at, here) refl in
      cc

  beside :
      (i range : ℕ)
      → i ≢ idx
      → neighbour_range marked keys.overwrites (some i) ≡ some range
      → Beside i range × (range < length keys.overwrites)
  beside i range ne e =
      let (other, at_, n, nz, lt) = neighbour_range_lem marked keys.overwrites i range e in
      let there : get_elem? keys.data_ i ≡ some other =
        sym (get_elem?-modify_ne keys.data_ idx i mark_overwritten (λ e. ne (sym e))) ∙ at_ in
      elim (Option-cases (range_at keys.overwrites range)) [
        | inl none_ ↦ absurd (
            let test : (range == 0) ≡ false = ground (arith, nz) in
            let same : range_at keys.overwrites range ≡ get_elem? keys.overwrites range =
              rw (range_at, test) refl in
            let short =
              (get_elem?-none keys.overwrites range range (sym same ∙ none_) (omega arith)).1 in
            omega arith)
        | inr (r, known) ↦
            let was : range_of keys other ≡ some r = rw (range_of, n) known in
            let (ge, lt', all) = subst (RangeSound Over i) was (h.ranges i other there) in
            ((r, known, ge, lt', (λ a b. not_Over (all idx a b), all)), lt)
      ]

  abbrev pub Result : JournalKeys → Type 0
  Result keys' =
      IsJournalKeys keys'
      × ((n : ℕ)
          → lookup keys'.data_ n
            ≡ (if rank key == n then some (key.allocated_k, true) else lookup keys.data_ n))

  joined-Result :
      (keys' : JournalKeys) (range s e : ℕ)
      → keys'.nr ≡ keys.nr
      → map forget keys'.data_ ≡ map forget marked
      → Moved range s e keys.data_ keys'.data_
      → Widened range s e keys.overwrites keys'.overwrites
      → ((j : ℕ) → s ≤ j → j < e → Over j ⊎ (j ≡ idx))
      → Result keys'
  joined-Result keys' range s e count same moved wide covered =
      let (valid, ascending, len, looks) = same_keys keys'.data_ marked same in
      let overs : (j : ℕ) → IsOverwritten marked j → IsOverwritten keys'.data_ j = λ j over.
        sym (overwritten_at-forget keys'.data_ j)
        ∙ ap (λ (ks : List JournalKey). overwritten_at ks j) same
        ∙ overwritten_at-forget marked j
        ∙ over in
      let self_ : IsOverwritten marked idx =
        rw (overwritten_at, get_elem?-modify_self keys.data_ idx mark_overwritten key here) refl in
      let (ranges, known) =
        RangesSound-moved keys keys' range s e h.ranges h.known moved wide
          (λ j over. overs j (Over-marked j over))
          (λ j ge lt.
            overs j (elim (covered j ge lt) [
              | inl over ↦ Over-marked j over
              | inr at_ ↦ rw at_ self_
            ])) in
      (
        record {
          valid = rw valid (EachIsKey-mark keys.data_ idx h.valid);
          ascending = rw ascending (IsAscending-mark keys.data_ idx h.ascending);
          count = count ∙ h.count ∙ sym (length-modify keys.data_ idx mark_overwritten) ∙ sym len;
          ranges = ranges;
          known = known;
        },
        λ n.
            looks n
            ∙ lookup-mark keys.data_ idx key n (Ascending-IsDistinct keys.data_ h.ascending) here,
      )

  -- The neighbours that the code has found
  PrevOk : Option ℕ → Type 0
  PrevOk none = Unit
  PrevOk (some i) = (suc i ≡ idx) × Over i

  NextOk : Option ℕ → Type 0
  NextOk none = Unit
  NextOk (some i) = (i ≡ idx + 1) × Over i

  before :
      (prev_idx : Option ℕ) (range : ℕ)
      → PrevOk prev_idx
      → neighbour_range marked keys.overwrites prev_idx ≡ some range
      → (r : JournalKeyRangeOverwritten) × (range_at keys.overwrites range ≡ some r)
        × (r.start < idx)
        × (r.end ≡ idx)
        × ((j : ℕ) → r.start ≤ j → j < r.end → Over j)
        × (range < length keys.overwrites)
  unfolding PrevOk
  before none range ok e = cc e
  before (some i) range (at_, over) e =
      let ((r, known, ge, lt, (out, all)), few) = beside i range (λ e. absurd (omega arith)) e in
      (
        r,
        known,
        omega arith,
        elim (Bool-cases (ltb idx r.end)) [
          | inl past ↦ absurd (out (omega arith) (ground arith))
          | inr short ↦ ground arith
        ],
        all,
        few,
      )

  after :
      (next_idx : Option ℕ) (range : ℕ)
      → NextOk next_idx
      → neighbour_range marked keys.overwrites next_idx ≡ some range
      → (r : JournalKeyRangeOverwritten) × (range_at keys.overwrites range ≡ some r)
        × (r.start ≡ idx + 1)
        × (idx + 1 < r.end)
        × ((j : ℕ) → r.start ≤ j → j < r.end → Over j)
        × (range < length keys.overwrites)
  unfolding NextOk
  after none range ok e = cc e
  after (some i) range (at_, over) e =
      let ((r, known, ge, lt, (out, all)), few) = beside i range (λ e. absurd (omega arith)) e in
      (
        r,
        known,
        elim (Bool-cases (leb r.start idx)) [
          | inl past ↦ absurd (out (ground arith) (omega arith))
          | inr short ↦ ground arith
        ],
        omega arith,
        all,
        few,
      )

  abbrev with_mark : JournalKeys
  with_mark = record keys { data_ = marked }

  cover :
      (s e : ℕ)
      → ((j : ℕ) → s ≤ j → j < idx → Over j)
      → ((j : ℕ) → idx < j → j < e → Over j)
      → (j : ℕ) → s ≤ j
      → j < e
      → Over j ⊎ (j ≡ idx)
  cover s e low high j ge lt = elim (Bool-cases (ltb j idx)) [
    | inl below ↦ inl (low j ge (ground arith))
    | inr not_below ↦ elim (Bool-cases (idx == j)) [
      | inl at_ ↦ inr (ground arith)
      | inr other ↦ inl (high j (ground arith) lt)
    ]
  ]

  -- The key alone gets a range that is widened over it.
  one-Result :
      (range s e : ℕ) (f : JournalKeyRangeOverwritten → JournalKeyRangeOverwritten)
      (r : JournalKeyRangeOverwritten)
      → range_at keys.overwrites range ≡ some r
      → f r ≡ record { start = s; end = e }
      → s ≤ r.start
      → r.end ≤ e
      → s ≤ idx
      → idx < e
      → range < length keys.overwrites
      → ((j : ℕ) → s ≤ j → j < idx → Over j)
      → ((j : ℕ) → idx < j → j < e → Over j)
      → Result (record keys {
        overwrites = modify keys.overwrites range f;
        data_ = modify marked idx (with_range range);
      })
  one-Result range s e f r known to start end ge lt few low high =
      joined-Result _ range s e refl (forget-modify marked idx range)
        (Moved-modify range s e keys.data_ marked idx (omega arith) ge lt
          (Moved-mark range s e keys.data_ keys.data_ idx (unmoved range s e keys.data_)))
        (modify-Widened keys.overwrites range s e f r known to start end) (cover s e low high)

  -- Both ranges: the one in front takes the key and the keys of the one behind.
  both-Result :
      (prev next : ℕ) (p n : JournalKeyRangeOverwritten)
      → range_at keys.overwrites prev ≡ some p
      → range_at keys.overwrites next ≡ some n
      → (p.start < idx) × (p.end ≡ idx) × (n.start ≡ idx + 1) × (idx + 1 < n.end)
      → prev < length keys.overwrites
      → ((j : ℕ) → p.start ≤ j → j < p.end → Over j)
      → ((j : ℕ) → n.start ≤ j → j < n.end → Over j)
      → Result (record keys {
        overwrites = modify keys.overwrites prev (λ r. record r { end = n.end });
        data_ = set_ranges prev n.start n.end 0 (modify marked idx (with_range prev));
      })
  both-Result prev next p n p_at n_at (p_start, p_end, n_start, n_end) few p_all n_all =
      joined-Result _ prev p.start n.end refl
        (forget-set_ranges prev n.start n.end 0 (modify marked idx (with_range prev))
          ∙ forget-modify marked idx prev)
        (Moved-set_ranges prev p.start n.end n.start n.end keys.data_
          (modify marked idx (with_range prev)) (omega arith) (omega arith) (omega arith)
          (Moved-modify prev p.start n.end keys.data_ marked idx (omega arith) (omega arith)
            (omega arith)
            (Moved-mark prev p.start n.end keys.data_ keys.data_ idx
              (unmoved prev p.start n.end keys.data_))))
        (modify-Widened keys.overwrites prev p.start n.end (λ r. record r { end = n.end }) p p_at
          refl (omega arith) (omega arith))
        (cover p.start n.end (λ j ge lt. p_all j ge (omega arith))
          (λ j gt lt. n_all j (omega arith) lt))

  -- A neighbour without a range
  Within : ℕ → ℕ → Option ℕ → Type 0
  Within s e none = Unit
  Within s e (some i) = (s ≤ i) × (i < e)

  set_range_at_lem :
      (range s e : ℕ) (at_ : Option ℕ) (ks : List JournalKey)
      → range < 2 ^ 32
      → Within s e at_
      → Moved range s e keys.data_ ks
      → Moved range s e keys.data_ (set_range_at range at_ ks)
        × (map forget (set_range_at range at_ ks) ≡ map forget ks)
  unfolding Within
  set_range_at_lem range s e none ks fits in_ h = (h, refl)
  set_range_at_lem range s e (some i) ks fits (ge, lt) h =
      (Moved-modify range s e keys.data_ ks i fits ge lt h, forget-modify ks i range)

  low_end :
      (prev_idx : Option ℕ) (e : ℕ)
      → PrevOk prev_idx
      → idx < e
      → (map_or idx (λ i. i) prev_idx ≤ idx)
        × Within (map_or idx (λ i. i) prev_idx) e prev_idx
        × ((j : ℕ) → map_or idx (λ i. i) prev_idx ≤ j → j < idx → Over j)
  unfolding PrevOk Within
  low_end none e ok lt = (omega arith, tt, λ j ge lt. absurd (omega arith))
  low_end (some i) e (at_, over) lt = (
    omega arith,
    (omega arith, omega arith),
    λ j ge lt'. let same : j ≡ i = omega arith in rw same over,
  )

  high_end :
      (next_idx : Option ℕ) (s : ℕ)
      → NextOk next_idx
      → s ≤ idx
      → (idx < map_or (idx + 1) (λ i. i + 1) next_idx)
        × Within s (map_or (idx + 1) (λ i. i + 1) next_idx) next_idx
        × ((j : ℕ) → idx < j → j < map_or (idx + 1) (λ i. i + 1) next_idx → Over j)
  unfolding NextOk Within
  high_end none s ok ge = (omega arith, tt, λ j gt lt. absurd (omega arith))
  high_end (some i) s (at_, over) ge = (
    omega arith,
    (omega arith, omega arith),
    λ j gt lt. let same : j ≡ i = omega arith in rw same over,
  )

  fresh-Result :
      (prev_idx next_idx : Option ℕ)
      → PrevOk prev_idx
      → NextOk next_idx
      → Result (join_ranges with_mark idx prev_idx next_idx none none)
  unfolding join_ranges
  fresh-Result prev_idx next_idx prev_ok next_ok =
      let s = map_or idx (λ i. i) prev_idx in
      let e = map_or (idx + 1) (λ i. i + 1) next_idx in
      let (ge, _, low) = low_end prev_idx (idx + 1) prev_ok (omega arith) in
      let (lt, next_in, high) = high_end next_idx s next_ok ge in
      let prev_in = (low_end prev_idx e prev_ok lt).1 in
      let range = (push_range keys.overwrites s e).0 in
      let range_lem = (push_range_lem keys.overwrites s e).2 in
      let base : Moved range s e keys.data_ (modify marked idx (with_range range)) =
        Moved-modify range s e keys.data_ marked idx (omega arith) ge lt
          (Moved-mark range s e keys.data_ keys.data_ idx (unmoved range s e keys.data_)) in
      let (moved, same) = set_range_at_lem range s e prev_idx _ (omega arith) prev_in base in
      let (moved', same') = set_range_at_lem range s e next_idx _ (omega arith) next_in moved in
      joined-Result _ range s e refl (same' ∙ same ∙ forget-modify marked idx range) moved'
        (push_range-Widened keys.overwrites s e) (cover s e low high)

  join-Result :
      (prev_idx next_idx prev_range next_range : Option ℕ)
      → PrevOk prev_idx
      → NextOk next_idx
      → neighbour_range marked keys.overwrites prev_idx ≡ prev_range
      → neighbour_range marked keys.overwrites next_idx ≡ next_range
      → Result (join_ranges with_mark idx prev_idx next_idx prev_range next_range)
  unfolding join_ranges
  join-Result prev_idx next_idx (some prev) (some next) prev_ok next_ok hp hn =
      let (p, p_at, p_start, p_end, p_all, p_few) = before prev_idx prev prev_ok hp in
      let (n, n_at, n_start, n_end, n_all, n_few) = after next_idx next next_ok hn in
      let next_is : get_or keys.overwrites next no_range ≡ n =
        get_or-get_elem? keys.overwrites next no_range n
          (range_at-some keys.overwrites next n n_at).1 in
      rw next_is
        (both-Result prev next p n p_at n_at (p_start, p_end, n_start, n_end) p_few p_all n_all)
  join-Result prev_idx next_idx (some prev) none prev_ok next_ok hp hn =
      let (p, p_at, p_start, p_end, p_all, p_few) = before prev_idx prev prev_ok hp in
      let end_ : max p.end (idx + 1) ≡ idx + 1 = omega arith in
      one-Result prev p.start (idx + 1) (λ r. record r { end = max r.end (idx + 1) }) p p_at
        (ap (λ (m : ℕ). record { start = p.start; end = m }) end_) (omega arith) (omega arith)
        (omega arith) (omega arith) p_few (λ j ge lt. p_all j ge (omega arith))
        (λ j gt lt. absurd (omega arith))
  join-Result prev_idx next_idx none (some next) prev_ok next_ok hp hn =
      let (n, n_at, n_start, n_end, n_all, n_few) = after next_idx next next_ok hn in
      let start_ : min n.start idx ≡ idx = omega arith in
      one-Result next idx n.end (λ r. record r { start = min r.start idx }) n n_at
        (ap (λ (m : ℕ). record { start = m; end = n.end }) start_) (omega arith) (omega arith)
        (omega arith) (omega arith) n_few (λ j ge lt. absurd (omega arith))
        (λ j gt lt. n_all j (omega arith) lt)
  join-Result prev_idx next_idx none none prev_ok next_ok hp hn =
      fresh-Result prev_idx next_idx prev_ok next_ok

  -- Another key that is marked was overwritten before.
  marked-Over : (j : ℕ) → j ≢ idx → IsOverwritten marked j → Over j
  marked-Over j ne over =
      let same = get_elem?-modify_ne keys.data_ idx j mark_overwritten (λ e. ne (sym e)) in
      let at_ : overwritten_at marked j ≡ overwritten_at keys.data_ j =
        rw (overwritten_at, same) refl in
      sym at_ ∙ over

  prev_ok : (i : ℕ) (found : Option ℕ) → suc i ≡ idx → neighbour marked key i ≡ found → PrevOk found
  unfolding PrevOk
  prev_ok i none at_ e = tt
  prev_ok i (some j) at_ e =
      let (same, over) = neighbour_lem marked key i j e in
      (omega arith, rw same (marked-Over i (λ e. absurd (omega arith)) over))

  prev_neighbour-PrevOk : (n : ℕ) → n ≡ idx → PrevOk (prev_neighbour marked key n)
  unfolding PrevOk
  prev_neighbour-PrevOk zero e = tt
  prev_neighbour-PrevOk (suc i) e = prev_ok i _ e refl

  next_ok : (found : Option ℕ) → neighbour marked key (idx + 1) ≡ found → NextOk found
  unfolding NextOk
  next_ok none e = tt
  next_ok (some j) e =
      let (same, over) = neighbour_lem marked key (idx + 1) j e in
      (same, rw same (marked-Over (idx + 1) (λ e. absurd (omega arith)) over))

  pub overwritten-Result : Result (journal_key_overwritten keys idx key)
  unfolding journal_key_overwritten
  overwritten-Result =
      let prev_idx = prev_neighbour marked key idx in
      let next_idx = neighbour marked key (idx + 1) in
      join-Result prev_idx next_idx (neighbour_range marked keys.overwrites prev_idx)
        (neighbour_range marked keys.overwrites next_idx) (prev_neighbour-PrevOk idx refl)
        (next_ok _ refl) refl refl
