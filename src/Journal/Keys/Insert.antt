-- ===== src/Journal/Keys/Insert.antt =====
-- Inserting a journal key into the array as a map from places to keys.
use subvol.Prelude.{
  subst, ℕ, suc, ◌+◌, ◌*◌, ◌^◌, ◌≤◌, ◌<◌, ◌≡◌, ◌≢◌, inl, inr, refl, sym, ap, ◌∙◌, Bool, true, false,
  Option, none, some, List, [], ◌∷◌, ◌++◌, length, ltb, ◌==◌, if◌then◌else◌, arith, Bool-cases,
  Option-cases, ==_iff, length-append, ==→ne, ltb→lt, ltb→le,
}
use subvol.Prelude.Int.{ℤ, pos, negsuc}
use subvol.Bkey.Pos.{Bpos}
use subvol.Bkey.Key.{bkey_bytes}
use subvol.Journal.Keys.{
  BkeyI, JournalKey, JournalKeys, replace_first, new_key, insert_copy, bch2_journal_key_insert,
}
use subvol.Journal.Keys.Rank.{rank, place_rank, IsPlace, IsKey, EachIsKey, entry, lookup, is_at_iff}
use subvol.Journal.Keys.Sorted.{IsDistinct, Ascending-IsDistinct}
use subvol.Journal.Keys.Valid.{IsJournalKeys, journal_keys_sort_lem}

pub if_once {ℓ} :
    {A : Type ℓ} (b : Bool) (x y z : A)
    → (if b then x else z) ≡ (if b then x else (if b then y else z))
if_once true x y z = refl
if_once false x y z = refl

pub if_swap {ℓ} :
    {A : Type ℓ} (a b n : ℕ) (x y z : A)
    → a ≢ b
    → (if a == n then x else (if b == n then y else z))
      ≡ (if b == n then y else (if a == n then x else z))
if_swap a b n x y z ne = ground arith

-- What replacing the first key at a place does: no key is there, or the map changes there alone.
Replaced : ℕ → BkeyI → List JournalKey → Option (List JournalKey) → Type 0
Replaced place copied keys none = lookup keys place ≡ none
Replaced place copied keys (some keys') =
    ((n : ℕ) → lookup keys' n ≡ (if place == n then some (copied, false) else lookup keys n))
    × EachIsKey keys'
    × IsDistinct keys'
    × (length keys' ≡ length keys)

moved_rank :
    (btree_id level : ℕ) (p : Bpos) (key : JournalKey)
    → IsPlace btree_id level p
    → IsKey key
    → rank key ≡ place_rank btree_id level p
    → place_rank key.btree_id key.level p ≡ place_rank btree_id level p
moved_rank btree_id level p key hp h e =
    let fp = hp.pos_fits in
    let fq = h.pos_fits in
    let n : key.btree_id * 2 ^ 8 + key.level ≡ btree_id * 2 ^ 8 + level = omega arith in omega arith

replace_first-Replaced :
    (btree_id level : ℕ) (copied : BkeyI) (keys : List JournalKey)
    → IsPlace btree_id level copied.k.p
    → EachIsKey keys
    → IsDistinct keys
    → Replaced
        (place_rank btree_id level copied.k.p)
        copied
        keys
        (replace_first btree_id level copied keys)
unfolding Replaced
replace_first-Replaced btree_id level copied [] hp h d = refl
replace_first-Replaced btree_id level copied (key ∷ keys) hp (h, hs) (new, d) =
    let place = place_rank btree_id level copied.k.p in
    let at_ = is_at_iff btree_id level copied.k.p key hp h in
    let ih = replace_first-Replaced btree_id level copied keys hp hs d in
    elim (Bool-cases (rank key == place)) [
      | inl here ↦
          let e : rank key ≡ place = (==_iff _ _).0 here in
          let key' = record key {
            allocated = true;
            allocated_k = copied;
            overwritten = false;
            overwritten_range = 0;
          } in
          let valid : IsKey key' = record {
            btree_fits = h.btree_fits;
            level_fits = h.level_fits;
            pos_fits = hp.pos_fits;
          } in
          let e' : rank key' ≡ place = moved_rank btree_id level copied.k.p key hp h e in
          let once : (n m : ℕ)
              → m ≡ place
              → (if m == n then some (copied, false) else lookup keys n)
                ≡ (if place == n then some (copied, false) else lookup (key ∷ keys) n) =
            λ n m same.
              rw (same, e)
                (if_once (place == n) (some (copied, false)) (some (entry key)) (lookup keys n)) in
          let kept : rank key ≡ rank key' = e ∙ sym e' in
          rw (at_, here)
            (
              λ n. once n (rank key') e',
              (valid, hs),
              (subst (λ (m : ℕ). lookup keys m ≡ none) kept new, d),
              refl,
            )
      | inr other ↦ elim (Option-cases (replace_first btree_id level copied keys)) [
        | inl missing ↦
            let absent : lookup keys place ≡ none = subst (Replaced place copied keys) missing ih in
            rw (at_, other, missing, other) absent
        | inr (keys', found) ↦
            let (looks, valid, distinct, len) = subst (Replaced place copied keys) found ih in
            let swapped : (place == rank key) ≡ false = ground arith in
            rw (at_, other, found)
              (
                λ n. rw (looks n) (
                    if_swap (rank key) place n (some (entry key)) (some (copied, false))
                      (lookup keys n) (==→ne _ _ other)),
                (h, valid),
                (looks (rank key) ∙ rw (swapped) new, distinct),
                ap suc len,
              )
      ]
    ]

lookup-append :
    (keys : List JournalKey) (key : JournalKey) (n : ℕ)
    → lookup keys (rank key) ≡ none
    → lookup (keys ++ (key ∷ [])) n ≡ (if rank key == n then some (entry key) else lookup keys n)
lookup-append [] key n h = refl
lookup-append (head ∷ keys) key n h = elim (Bool-cases (rank head == rank key)) [
  | inl same ↦ absurd (let found : some (entry head) ≡ none = rw (← h, same) refl in cc)
  | inr other ↦
      let absent : lookup keys (rank key) ≡ none = rw (← h, other) refl in
      rw (lookup-append keys key n absent) (
        if_swap (rank head) (rank key) n (some (entry head)) (some (entry key)) (lookup keys n)
          (==→ne _ _ other))
]

append-IsDistinct :
    (keys : List JournalKey) (key : JournalKey)
    → EachIsKey keys
    → IsKey key
    → IsDistinct keys
    → lookup keys (rank key) ≡ none
    → EachIsKey (keys ++ (key ∷ [])) × IsDistinct (keys ++ (key ∷ []))
append-IsDistinct [] key hs h d absent = ((h, tt), (refl, tt))
append-IsDistinct (head ∷ keys) key (hh, hs) h (new, d) absent =
    elim (Bool-cases (rank head == rank key)) [
      | inl same ↦ absurd (let found : some (entry head) ≡ none = rw (← absent, same) refl in cc)
      | inr other ↦
          let absent' : lookup keys (rank key) ≡ none = rw (← absent, other) refl in
          let swapped : (rank key == rank head) ≡ false = ground arith in
          let (valid, distinct) = append-IsDistinct keys key hs h d absent' in
          ((hh, valid), (lookup-append keys key (rank head) absent' ∙ rw swapped new, distinct))
    ]

-- A well-formed array takes the key at its place, and keeps all other places.
Stored : JournalKeys → ℕ → BkeyI → JournalKeys → Type 0
Stored keys place key keys' =
    IsJournalKeys keys'
    × ((n : ℕ)
        → lookup keys'.data_ n ≡ (if place == n then some (key, false) else lookup keys.data_ n))

insert_copy-Stored :
    (keys : JournalKeys) (btree_id level : ℕ) (key : BkeyI)
    → IsJournalKeys keys
    → IsPlace btree_id level key.k.p
    → length keys.data_ + 2 < 2 ^ 32
    → Stored keys (place_rank btree_id level key.k.p) key (insert_copy keys btree_id level key)
unfolding Stored insert_copy Replaced
insert_copy-Stored keys btree_id level key h hp small =
    let place = place_rank btree_id level key.k.p in
    let distinct = Ascending-IsDistinct keys.data_ h.ascending in
    let done = replace_first-Replaced btree_id level key keys.data_ hp h.valid distinct in
    elim (Option-cases (replace_first btree_id level key keys.data_)) [
      | inr (replaced, found) ↦
          let (looks, valid, distinct', len) = subst (Replaced place key keys.data_) found done in
          let (made, same, _) =
            journal_keys_sort_lem (record keys { data_ = replaced }) valid distinct'
              (h.count ∙ sym len) (omega arith) in
          rw (insert_copy, found) (made, λ n. same n ∙ looks n)
      | inl missing ↦
          let absent = subst (Replaced place key keys.data_) missing done in
          let (valid, distinct') =
            append-IsDistinct keys.data_ (new_key btree_id level key) h.valid hp distinct absent in
          let pushed = keys.data_ ++ (new_key btree_id level key ∷ []) in
          let len = length-append keys.data_ (new_key btree_id level key ∷ []) in
          let (made, same, _) =
            journal_keys_sort_lem
              (record keys { data_ = pushed; nr = length pushed; size = length pushed }) valid
              distinct' refl (omega arith) in
          rw (insert_copy, missing)
            (made, λ n. same n ∙ lookup-append keys.data_ (new_key btree_id level key) n absent)
    ]

-- What an insertion does to a well-formed array: a key shorter than a `bkey_i` and a failed
-- allocation leave it as it is; else the key is stored.
pub data Inserted (alloc : ℕ → Bool) (keys : JournalKeys) (place : ℕ) (key : BkeyI)
    : Option JournalKeys × ℤ → Type 0 where
  short : bkey_bytes key.k < 40 → Inserted alloc keys place key (some keys, negsuc 21)
  no_memory :
      40 ≤ bkey_bytes key.k
      → alloc (bkey_bytes key.k) ≡ false
      → Inserted alloc keys place key (some keys, negsuc 11)
  stored :
      (keys' : JournalKeys)
      → 40 ≤ bkey_bytes key.k
      → alloc (bkey_bytes key.k) ≡ true
      → IsJournalKeys keys'
      → ((n : ℕ)
          → lookup keys'.data_ n ≡ (if place == n then some (key, false) else lookup keys.data_ n))
      → Inserted alloc keys place key (some keys', pos 0)

-- Inserting into a well-formed array of fewer than 2^32 - 2 keys, at a valid place: a key of less
-- than 40 bytes is refused with -22 and a failed allocation with -12, both without a change; else
-- the result is 0 and a well-formed array that maps the place to the key, not overwritten, and
-- every other place as before.
pub insert-Inserted :
    (alloc : ℕ → Bool) (keys : JournalKeys) (btree_id level : ℕ) (key : BkeyI)
    → IsJournalKeys keys
    → IsPlace btree_id level key.k.p
    → length keys.data_ + 2 < 2 ^ 32
    → Inserted alloc keys
        (place_rank btree_id level key.k.p)
        key
        (bch2_journal_key_insert alloc (some keys) btree_id level (some key))
unfolding bch2_journal_key_insert Stored
insert-Inserted alloc keys btree_id level key h hp small =
    let bytes = bkey_bytes key.k in
    elim (Bool-cases (ltb bytes 40)) [
      | inl few ↦ rw few (short (ltb→lt _ _ few))
      | inr enough ↦ elim (Bool-cases (alloc bytes)) [
        | inr failed ↦ rw (enough, failed) (no_memory (ltb→le _ _ enough) failed)
        | inl given ↦
            let (made, looks) = insert_copy-Stored keys btree_id level key h hp small in
            rw (enough, given) (stored _ (ltb→le _ _ enough) given made looks)
      ]
    ]

-- The third of these results, from its conditions.
pub insert-Stored :
    (alloc : ℕ → Bool) (keys : JournalKeys) (btree_id level : ℕ) (key : BkeyI)
    → IsJournalKeys keys
    → IsPlace btree_id level key.k.p
    → length keys.data_ + 2 < 2 ^ 32
    → 40 ≤ bkey_bytes key.k
    → alloc (bkey_bytes key.k) ≡ true
    → (keys' : JournalKeys) × (bch2_journal_key_insert alloc (some keys) btree_id level (some key)
        ≡ (some keys', pos 0))
      × IsJournalKeys keys'
      × ((n : ℕ)
          → lookup keys'.data_ n ≡ (
              if place_rank btree_id level key.k.p == n
              then some (key, false)
              else lookup keys.data_ n))
unfolding bch2_journal_key_insert Stored
insert-Stored alloc keys btree_id level key h hp small enough given =
    let test : ltb (bkey_bytes key.k) 40 ≡ false = ground arith in
    let (made, looks) = insert_copy-Stored keys btree_id level key h hp small in
    (insert_copy keys btree_id level key, rw (test, given) refl, made, looks)
