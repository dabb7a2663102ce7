-- ===== src/Journal/Keys/Slot.antt =====
-- Looking up one position among the journal keys.
use subvol.Prelude.{
  ℕ, zero, suc, ◌<◌, ◌≡◌, inl, inr, refl, sym, ap, ◌∙◌, Bool, true, false, Option, none, some, List,
  [], ◌∷◌, length, get_elem?, ◌==◌, ◌&&◌, arith, Bool-cases, Option-cases, ==_iff,
}
use subvol.Bkey.Pos.{Bpos}
use subvol.Journal.Keys.{BkeyI, JournalKey, JournalKeys, key_pos, same_pos}
use subvol.Journal.Keys.Peek.{bch2_journal_keys_peek_slot, at_pos}
use subvol.Journal.Keys.Rank.{rank, place_rank, IsPlace, entry, lookup, is_at_iff}
use subvol.Journal.Keys.Sorted.{IsDistinct, Ascending-IsDistinct}
use subvol.Journal.Keys.Found.{Ahead, found, missing, peek_max-Ahead, EachIsKey-at}
use subvol.Journal.Keys.Valid.{IsJournalKeys}

pub lookup-at :
    (keys : List JournalKey) (i : ℕ) (key : JournalKey)
    → IsDistinct keys
    → get_elem? keys i ≡ some key
    → lookup keys (rank key) ≡ some (entry key)
lookup-at [] i key d e = cc e
lookup-at (head ∷ keys) zero key (new, d) e =
    let same : head ≡ key = cc in
    let here : (rank head == rank head) ≡ true = (==_iff _ _).1 refl in rw (← same, here) refl
lookup-at (head ∷ keys) (suc i) key (new, d) e =
    let rest = lookup-at keys i key d e in
    elim (Bool-cases (rank head == rank key)) [
      | inr other ↦ rw other rest
      | inl clash ↦
          let n : rank head ≡ rank key = (==_iff _ _).0 clash in
          absurd (let none_ : lookup keys (rank key) ≡ none = rw (← n) new in cc)
    ]

at-lookup :
    (keys : List JournalKey) (n : ℕ) (found : BkeyI × Bool)
    → lookup keys n ≡ some found
    → (i : ℕ) × (key : JournalKey) × (get_elem? keys i ≡ some key)
      × (rank key ≡ n)
      × (entry key ≡ found)
at-lookup [] n found_ e = cc e
at-lookup (head ∷ keys) n found_ e = elim (Bool-cases (rank head == n)) [
  | inl here ↦ (
    0,
    head,
    refl,
    (==_iff _ _).0 here,
    let same : some (entry head) ≡ some found_ = rw (← e, here) refl in cc,
  )
  | inr other ↦
      let rest : lookup keys n ≡ some found_ = rw (← e, other) refl in
      let (i, key, at_, r, same) = at-lookup keys n found_ rest in (suc i, key, at_, r, same)
]

-- The key of a place for a reader: an overwritten one is none.
abbrev pub visible : Option (BkeyI × Bool) → Option BkeyI
visible none = none
visible (some (key, true)) = none
visible (some (key, false)) = some key

visible-live : (key : BkeyI) (over : Bool) → over ≡ false → visible (some (key, over)) ≡ some key
visible-live key over e = rw e refl

visible-hidden : (key : BkeyI) (over : Bool) → over ≡ true → visible (some (key, over)) ≡ none
visible-hidden key over e = rw e refl

and_last : (a b c : Bool) → a && b && c ≡ true → c ≡ true
and_last true true c h = h
and_last true false c h = cc h
and_last false b c h = cc h

slot_of :
    (keys : JournalKeys) (btree_id level : ℕ) (p : Bpos) (result : Option (ℕ × Option BkeyI))
    → IsJournalKeys keys
    → IsPlace btree_id level p
    → Ahead keys.data_ (place_rank btree_id level p) (place_rank btree_id level p) 0 result
    → (i : ℕ) × (found : Option BkeyI) × (result ≡ some (i, found))
      × (at_pos p found ≡ visible (lookup keys.data_ (place_rank btree_id level p)))
slot_of keys btree_id level p _ h hp (found i key at_ live above below ge before) =
    let place = place_rank btree_id level p in
    let e : rank key ≡ place = omega arith in
    let looked = lookup-at keys.data_ i key (Ascending-IsDistinct keys.data_ h.ascending) at_ in
    let is_key = EachIsKey-at keys.data_ i key h.valid at_ in
    let same : same_pos (key_pos key) p ≡ true =
      and_last (key.btree_id == btree_id) (key.level == level) (same_pos (key_pos key) p)
        (is_at_iff btree_id level p key hp is_key ∙ (==_iff _ _).1 e) in
    let looked' : lookup keys.data_ place ≡ some (entry key) = rw (← e) looked in
    (
      i,
      some key.allocated_k,
      refl,
      rw same (sym (visible-live key.allocated_k key.overwritten live) ∙ ap visible (sym looked')),
    )
slot_of keys btree_id level p _ h hp (missing i short all) =
    let place = place_rank btree_id level p in
    elim (Option-cases (lookup keys.data_ place)) [
      | inl none_ ↦ (i, none, refl, rw none_ refl)
      | inr ((key', over), some_) ↦
          let (j, key, at_, r, same) = at-lookup keys.data_ place (key', over) some_ in
          let hidden = all j (omega arith) key at_ (omega arith) (omega arith) in
          let eq : key.overwritten ≡ over = ap (λ (e : BkeyI × Bool). e.1) same in
          (i, none, refl, sym (visible-hidden key' over (sym eq ∙ hidden)) ∙ ap visible (sym some_))
    ]

-- Looking up one position of a well-formed array on fuel greater than its length returns the key
-- that the array maps the place to, unless there is none or it is overwritten.
pub peek_slot_lem :
    (keys : JournalKeys) (btree_id level : ℕ) (p : Bpos) (fuel : ℕ)
    → IsJournalKeys keys
    → IsPlace btree_id level p
    → length keys.data_ < fuel
    → bch2_journal_keys_peek_slot fuel keys btree_id level p
      ≡ some (visible (lookup keys.data_ (place_rank btree_id level p)))
unfolding bch2_journal_keys_peek_slot
peek_slot_lem keys btree_id level p fuel h hp enough =
    let (i, found_, e, slot) =
      slot_of keys btree_id level p _ h hp
        (peek_max-Ahead keys btree_id level p p fuel 0 h hp hp (omega arith) enough) in
    rw (bch2_journal_keys_peek_slot, e) (ap some slot)
