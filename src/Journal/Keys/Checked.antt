-- ===== src/Journal/Keys/Checked.antt =====
-- `bch2_journal_key_check_or_overwrite` against the array as a map, and with the other operations.
use subvol.Prelude.{
  subst, ℕ, ◌+◌, ◌^◌, ◌<◌, ◌≡◌, ◌≢◌, ◌≤◌, inl, inr, refl, sym, ap, ◌∙◌, Bool, true, false, not,
  Option, none, some, List, [], ◌∷◌, length, get_elem?, ◌==◌, ◌&&◌, if◌then◌else◌, arith,
  Bool-cases, Option-cases, ==_iff,
}
use subvol.Prelude.Int.{pos}
use subvol.Bkey.Pos.{Bpos}
use subvol.Bkey.Key.{bkey_bytes}
use subvol.Journal.Keys.{BkeyI, JournalKey, JournalKeys, bch2_journal_key_insert}
use subvol.Journal.Keys.Peek.{bch2_journal_keys_peek_slot}
use subvol.Journal.Keys.Overwrite.{
  find_at, journal_key_overwritten, bch2_journal_key_check_or_overwrite,
}
use subvol.Journal.Keys.Rank.{rank, place_rank, IsPlace, EachIsKey, entry, lookup, is_at_iff}
use subvol.Journal.Keys.Sorted.{Ascending-IsDistinct}
use subvol.Journal.Keys.Valid.{IsJournalKeys}
use subvol.Journal.Keys.Insert.{insert-Stored}
use subvol.Journal.Keys.Slot.{visible, lookup-at, peek_slot_lem}
use subvol.Journal.Keys.Joined.{overwritten-Result}

-- What the search for a place finds: no key is there, or the index of the key.
abbrev Found : List JournalKey → ℕ → Option (ℕ × JournalKey) → Type 0
Found keys place none = lookup keys place ≡ none
Found keys place (some (i, key)) = (get_elem? keys i ≡ some key) × (rank key ≡ place)

find_at-Found :
    (btree_id level : ℕ) (p : Bpos) (keys : List JournalKey)
    → IsPlace btree_id level p
    → EachIsKey keys
    → Found keys (place_rank btree_id level p) (find_at btree_id level p keys)
find_at-Found btree_id level p [] hp hs = refl
find_at-Found btree_id level p (key ∷ keys) hp (h, hs) =
    let place = place_rank btree_id level p in
    let at_ = is_at_iff btree_id level p key hp h in
    let ih = find_at-Found btree_id level p keys hp hs in
    elim (Bool-cases (rank key == place)) [
      | inl here ↦ rw (at_, here) (refl, (==_iff _ _).0 here)
      | inr other ↦ elim (Option-cases (find_at btree_id level p keys)) [
        | inl missing ↦
            let absent : lookup keys place ≡ none = subst (Found keys place) missing ih in
            rw (at_, other, missing, other) absent
        | inr (found, there) ↦ rw (at_, other, there) (subst (Found keys place) there ih)
      ]
    ]

-- The entry of an overwritten key
abbrev pub hide : Option (BkeyI × Bool) → Option (BkeyI × Bool)
hide none = none
hide (some (key, over)) = some (key, true)

-- What marking a key may do: the array is well formed after, and only the entry of the place
-- changes; under `check` nothing does.
abbrev pub Checked : JournalKeys → ℕ → Bool → JournalKeys → Type 0
Checked keys place check keys' =
    IsJournalKeys keys'
    × ((n : ℕ)
        → lookup keys'.data_ n
          ≡ (if not check && (place == n) then hide (lookup keys.data_ n) else lookup keys.data_ n))

unchanged-Checked :
    (keys : JournalKeys) (place : ℕ) (check : Bool)
    → IsJournalKeys keys
    → (check ≡ false → hide (lookup keys.data_ place) ≡ lookup keys.data_ place)
    → Checked keys place check keys
unchanged-Checked keys place true h same = (h, λ n. refl)
unchanged-Checked keys place false h same = (
  h,
  λ n. elim (Bool-cases (place == n)) [
    | inl here ↦ let e : place ≡ n = (==_iff _ _).0 here in rw (here, ← e) (sym (same refl))
    | inr other ↦ rw other refl
  ],
)

hidden : (key : BkeyI) (over : Bool) → over ≡ true → hide (some (key, over)) ≡ some (key, over)
hidden key over e = rw e refl

changed :
    (n place : ℕ) (look : ℕ → Option (BkeyI × Bool)) (key : BkeyI) (over : Bool)
    → look place ≡ some (key, over)
    → (if place == n then some (key, true) else look n)
      ≡ (if place == n then hide (look n) else look n)
changed n place look key over e = elim (Bool-cases (place == n)) [
  | inl here ↦ let same : place ≡ n = (==_iff _ _).0 here in rw (here, ← same, e) refl
  | inr other ↦ rw other refl
]

-- Marking the key of a valid place, in a well-formed array with fewer than 2^32 - 2 ranges, returns
-- 0 and leaves a well-formed array. With `check` the array is the map it was; else the key of the
-- place, if there is one, is overwritten, and the other places are as before.
pub check_or_overwrite-Checked :
    (keys : JournalKeys) (btree_id level : ℕ) (p : Bpos) (check : Bool)
    → IsJournalKeys keys
    → IsPlace btree_id level p
    → length keys.overwrites + 2 < 2 ^ 32
    → (keys' : JournalKeys) × (bch2_journal_key_check_or_overwrite
          (some keys)
          btree_id
          level
          p
          check
        ≡ (some keys', pos 0))
      × Checked keys (place_rank btree_id level p) check keys'
unfolding bch2_journal_key_check_or_overwrite
check_or_overwrite-Checked keys btree_id level p check h hp small =
    let place = place_rank btree_id level p in
    let search = find_at-Found btree_id level p keys.data_ hp h.valid in
    elim (Option-cases (find_at btree_id level p keys.data_)) [
      | inl missing ↦
          let absent : lookup keys.data_ place ≡ none =
            subst (Found keys.data_ place) missing search in
          (
            keys,
            rw (bch2_journal_key_check_or_overwrite, missing) refl,
            unchanged-Checked keys place check h (λ _. rw absent refl),
          )
      | inr ((idx, key), found) ↦
          let (here, same) = subst (Found keys.data_ place) found search in
          let looked : lookup keys.data_ place ≡ some (entry key) =
            rw (← same)
              (lookup-at keys.data_ idx key (Ascending-IsDistinct keys.data_ h.ascending) here) in
          elim (Bool-cases key.overwritten) [
            | inl over ↦ (
              keys,
              rw (bch2_journal_key_check_or_overwrite, found) (simp over refl),
              unchanged-Checked keys place check h (λ _. rw looked (hidden key.allocated_k _ over)),
            )
            | inr live ↦ elim (Bool-cases check) [
              | inl only ↦ (
                keys,
                rw (bch2_journal_key_check_or_overwrite, found, only) (simp live refl),
                unchanged-Checked keys place check h
                    (λ no_. (let both : true ≡ false = sym only ∙ no_ in cc)),
              )
              | inr write ↦
                  let (made, looks) = overwritten-Result keys idx key h here live small in
                  (
                    journal_key_overwritten keys idx key,
                    rw (bch2_journal_key_check_or_overwrite, found, write) (simp live refl),
                    (
                      made,
                      λ n.
                          looks n
                          ∙ rw (same, write)
                              (changed n place (lookup keys.data_) key.allocated_k key.overwritten
                                looked),
                    ),
                  )
            ]
          ]
    ]

-- In a well-formed array with fewer than 2^32 - 2 ranges, a place that has just been overwritten
-- reads as none, on fuel greater than the length of the new array.
pub peek_slot-overwritten :
    (keys : JournalKeys) (btree_id level : ℕ) (p : Bpos)
    → IsJournalKeys keys
    → IsPlace btree_id level p
    → length keys.overwrites + 2 < 2 ^ 32
    → (keys' : JournalKeys) × (bch2_journal_key_check_or_overwrite
          (some keys)
          btree_id
          level
          p
          false
        ≡ (some keys', pos 0))
      × ((fuel : ℕ)
          → length keys'.data_ < fuel
          → bch2_journal_keys_peek_slot fuel keys' btree_id level p ≡ some none)
peek_slot-overwritten keys btree_id level p h hp small =
    let place = place_rank btree_id level p in
    let (keys', done, (made, looks)) =
      check_or_overwrite-Checked keys btree_id level p false h hp small in
    let self_ : (place == place) ≡ true = (==_iff _ _).1 refl in
    let looked : lookup keys'.data_ place ≡ hide (lookup keys.data_ place) =
      looks place ∙ rw self_ refl in
    (
      keys',
      done,
      λ fuel enough.
          peek_slot_lem keys' btree_id level p fuel made hp enough
          ∙ ap (λ (o : Option (BkeyI × Bool)). some (visible o)) looked
          ∙ ap some (visible-hide (lookup keys.data_ place)),
    )
  where
    visible-hide : (o : Option (BkeyI × Bool)) → visible (hide o) ≡ none
    visible-hide none = refl
    visible-hide (some e) = refl

-- In a well-formed array of fewer than 2^32 - 2 keys, a key of at least 40 bytes that an insertion
-- with room has stored at its valid place is what looking up the position returns, on fuel greater
-- than the length of the new array; looking up another valid place returns what it did before on
-- fuel greater than the length of the old one.
pub peek_slot-insert :
    (alloc : ℕ → Bool) (keys : JournalKeys) (btree_id level : ℕ) (key : BkeyI)
    → IsJournalKeys keys
    → IsPlace btree_id level key.k.p
    → length keys.data_ + 2 < 2 ^ 32
    → 40 ≤ bkey_bytes key.k
    → alloc (bkey_bytes key.k) ≡ true
    → (keys' : JournalKeys) × (bch2_journal_key_insert alloc (some keys) btree_id level (some key)
        ≡ (some keys', pos 0))
      × ((fuel : ℕ)
          → length keys'.data_ < fuel
          → bch2_journal_keys_peek_slot fuel keys' btree_id level key.k.p ≡ some (some key))
      × ((btree_id' level' : ℕ) (p : Bpos) (fuel : ℕ)
          → IsPlace btree_id' level' p
          → place_rank btree_id' level' p ≢ place_rank btree_id level key.k.p
          → length keys'.data_ < fuel
          → length keys.data_ < fuel
          → bch2_journal_keys_peek_slot fuel keys' btree_id' level' p
            ≡ bch2_journal_keys_peek_slot fuel keys btree_id' level' p)
peek_slot-insert alloc keys btree_id level key h hp small enough given =
    let place = place_rank btree_id level key.k.p in
    let (keys', done, made, looks) =
      insert-Stored alloc keys btree_id level key h hp small enough given in
    let self_ : (place == place) ≡ true = (==_iff _ _).1 refl in
    let looked : lookup keys'.data_ place ≡ some (key, false) = looks place ∙ rw self_ refl in
    (
      keys',
      done,
      λ fuel more. peek_slot_lem keys' btree_id level key.k.p fuel made hp more ∙ rw looked refl,
      λ btree_id' level' p fuel hp' ne more more'.
          let other : (place == place_rank btree_id' level' p) ≡ false = ground (arith, ne) in
          let same : lookup keys'.data_ (place_rank btree_id' level' p)
              ≡ lookup keys.data_ (place_rank btree_id' level' p) =
            looks (place_rank btree_id' level' p) ∙ rw other refl in
          peek_slot_lem keys' btree_id' level' p fuel made hp' more
          ∙ rw same refl
          ∙ sym (peek_slot_lem keys btree_id' level' p fuel h hp' more'),
    )
