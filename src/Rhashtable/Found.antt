-- ===== src/Rhashtable/Found.antt =====
-- Looking up, inserting and removing, against the map that a table is.
use subvol.Prelude.{
  ℕ, zero, suc, ◌+◌, ◌≤◌, ◌<◌, ◌≡◌, inl, inr, refl, sym, ap, ◌∙◌, true, false, Option, none, some,
  List, [], ◌∷◌, ◌++◌, length, ltb, ◌==◌, if◌then◌else◌, arith, Bool-cases, ==_iff, ==→ne,
  get_or-set_self, get_or-set_ne, ltb→lt, ltb→le, length-append,
}
use subvol.Prelude.Int.{ℤ, pos, negsuc}
use subvol.Rhashtable.{
  Object, BucketTable, Rhashtable, find_first, rht_key_hashfn, bucket_head, link, insert_front,
  insert_unless, rhashtable_lookup_fast, rhashtable_lookup_insert_fast,
}
use subvol.Rhashtable.Buckets.{
  find, find_first_all, find_in, IsSized, index_lt, find_in-link, link-IsSized,
}

-- With the key missing from the first ones, a chain has it behind them only when it is longer.
find_first-append :
    (n key : ℕ) (front : List Object) (last : Object)
    → length front ≡ n
    → find key front ≡ none
    → find_first n key (front ++ (last ∷ [])) ≡ none
find_first-append zero key front last e h = refl
find_first-append (suc n) key [] last e h = absurd (omega arith)
find_first-append (suc n) key (object ∷ front) last e h = elim (Bool-cases (object.key == key)) [
  | inl same ↦ absurd (let found : some object ≡ none = rw (← h, same) refl in cc)
  | inr other ↦
      let rest : find key front ≡ none = rw (← h, other) refl in
      rw (other) (find_first-append n key front last (omega arith) rest)
]

find-append :
    (key : ℕ) (front : List Object) (last : Object)
    → find key front ≡ none
    → last.key ≡ key
    → find key (front ++ (last ∷ [])) ≡ some last
find-append key [] last h e = let same : (last.key == key) ≡ true = (==_iff _ _).1 e in rw same refl
find-append key (object ∷ front) last h e = elim (Bool-cases (object.key == key)) [
  | inl same ↦ absurd (let found : some object ≡ none = rw (← h, same) refl in cc)
  | inr other ↦
      let rest : find key front ≡ none = rw (← h, other) refl in
      rw other (find-append key front last rest e)
]

find_first-none :
    (n key : ℕ) (chain : List Object) → find key chain ≡ none → find_first n key chain ≡ none
find_first-none zero key chain h = refl
find_first-none (suc n) key [] h = refl
find_first-none (suc n) key (object ∷ chain) h = elim (Bool-cases (object.key == key)) [
  | inl same ↦ absurd (let found : some object ≡ none = rw (← h, same) refl in cc)
  | inr other ↦
      let rest : find key chain ≡ none = rw (← h, other) refl in
      rw other (find_first-none n key chain rest)
]

module _ (hash : ℕ → ℕ → ℕ) where
  abbrev pub chain_of : BucketTable → ℕ → List Object
  chain_of table key = bucket_head hash table (rht_key_hashfn hash table key)

  -- What an insertion may do: a key among the first 16 objects of its chain is refused, and so is
  -- a chain of more than 16; else the table holds the object for its key, and for the other keys
  -- what it held.
  pub data Linked (ht : Rhashtable) (table : BucketTable) (obj : Object)
      : Rhashtable × ℤ → Type 0 where
    present :
        (found : Object)
        → find_first 16 obj.key (chain_of table obj.key) ≡ some found
        → Linked ht table obj (ht, negsuc 16)
    busy :
        find_first 16 obj.key (chain_of table obj.key) ≡ none
        → 16 < length (chain_of table obj.key)
        → Linked ht table obj (record ht { run_work = true }, negsuc 6)
    added :
        (ht' : Rhashtable) (table' : BucketTable)
        → find_in hash table obj.key ≡ none
        → length (chain_of table obj.key) ≤ 16
        → ht'.tbl ≡ some table'
        → IsSized hash table'
        → ht'.nelems ≡ ht.nelems + 1
        → ((key : ℕ)
            → find_in hash table' key
              ≡ (if obj.key == key then some obj else find_in hash table key))
        → Linked ht table obj (ht', pos 0)

  -- Inserting into a table with buckets is one of three: -17 without a change, when an object among
  -- the first 16 of the chain has the key; -7 with nothing changed but that the resizing is
  -- scheduled, when none of them has it and the chain has more than 16; or 0, when the table did
  -- not hold the key, with one element more, and a table that holds the object for its key and what
  -- it held for all others.
  pub insert-Linked :
      (ht : Rhashtable) (table : BucketTable) (obj : Object)
      → IsSized hash table
      → Linked ht table obj (rhashtable_lookup_insert_fast hash ht table obj)
  unfolding rhashtable_lookup_insert_fast
  insert-Linked ht table obj h = insert_unless-Linked _ refl
    where
      insert_unless-Linked :
          (found : Option Object)
          → find_first 16 obj.key (chain_of table obj.key) ≡ found
          → Linked ht table obj (insert_unless hash ht table obj found)
      insert_unless-Linked (some found) there = present found there
      insert_unless-Linked none absent =
          let chain = chain_of table obj.key in
          elim (Bool-cases (ltb 16 (length chain))) [
            | inl long ↦ rw long (busy absent (ltb→lt _ _ long))
            | inr short ↦
                let le = ltb→le _ _ short in
                rw short (
                  added (insert_front hash ht table obj) (link hash table obj)
                    (sym (find_first_all 16 obj.key chain le) ∙ absent) le refl
                    (link-IsSized hash table obj h) refl (λ key. find_in-link hash table obj key h))
          ]

  insert_new :
      (ht : Rhashtable) (table : BucketTable) (obj : Object)
      → find_first 16 obj.key (chain_of table obj.key) ≡ none
      → ltb 16 (length (chain_of table obj.key)) ≡ false
      → rhashtable_lookup_insert_fast hash ht table obj ≡ (insert_front hash ht table obj, pos 0)
  unfolding rhashtable_lookup_insert_fast
  insert_new ht table obj absent short = ap (insert_unless hash ht table obj) absent ∙ rw short refl

  length-chain_link :
      (table : BucketTable) (obj : Object) (key : ℕ)
      → IsSized hash table
      → length (chain_of (link hash table obj) key) ≤ length (chain_of table key) + 1
  length-chain_link table obj key h =
      let index = rht_key_hashfn hash table obj.key in
      elim (Bool-cases (index == rht_key_hashfn hash table key)) [
        | inl here ↦
            let e : index ≡ rht_key_hashfn hash table key = (==_iff _ _).0 here in
            rw
              (
                ← e,
                get_or-set_self table.buckets index (obj ∷ bucket_head hash table index) []
                    (index_lt hash table obj.key h),
              )
              (omega arith)
        | inr other ↦
            rw
              (get_or-set_ne table.buckets index (rht_key_hashfn hash table key)
                (obj ∷ bucket_head hash table index) [] (==→ne _ _ other))
              (omega arith)
      ]

  -- Where the key is missing and all chains have fewer than 16 objects, an insertion returns 0, and
  -- then looking up the key gives the object and looking up any other key what it gave before.
  pub lookup-insert :
      (ht : Rhashtable) (table : BucketTable) (obj : Object)
      → IsSized hash table
      → ((key : ℕ) → length (chain_of table key) < 16)
      → rhashtable_lookup_fast hash table obj.key ≡ none
      → (ht' : Rhashtable) × (table' : BucketTable) × (rhashtable_lookup_insert_fast hash ht table
            obj
          ≡ (ht', pos 0))
        × (ht'.tbl ≡ some table')
        × ((key : ℕ)
            → rhashtable_lookup_fast hash table' key
              ≡ (if obj.key == key then some obj else rhashtable_lookup_fast hash table key))
  unfolding rhashtable_lookup_fast
  lookup-insert ht table obj h small absent =
      let chain = chain_of table obj.key in
      let room = small obj.key in
      let short : ltb 16 (length chain) ≡ false = ground (arith, room) in
      (
        insert_front hash ht table obj,
        link hash table obj,
        insert_new ht table obj absent short,
        refl,
        λ key.
            find_first_all 16 key (chain_of (link hash table obj) key)
              (omega (arith, length-chain_link table obj key h, small key))
            ∙ find_in-link hash table obj key h
            ∙ rw (find_first_all 16 key (chain_of table key) (omega (arith, small key))) refl,
      )

  -- An object at the end of a chain of 16, with the key of none before it, is found; after another
  -- object whose key the chain lacks has been inserted into the same bucket, which returns 0, it is
  -- found no longer.
  pub lookup-lost :
      (ht : Rhashtable) (table : BucketTable) (obj last : Object) (front : List Object)
      → IsSized hash table
      → chain_of table obj.key ≡ front ++ (last ∷ [])
      → length front ≡ 15
      → rht_key_hashfn hash table last.key ≡ rht_key_hashfn hash table obj.key
      → find last.key front ≡ none
      → find obj.key (front ++ (last ∷ [])) ≡ none
      → (rhashtable_lookup_fast hash table last.key ≡ some last)
        × (ht' : Rhashtable) × (table' : BucketTable) × (rhashtable_lookup_insert_fast hash ht table
              obj
            ≡ (ht', pos 0))
        × (ht'.tbl ≡ some table')
        × (rhashtable_lookup_fast hash table' last.key ≡ none)
  unfolding rhashtable_lookup_fast
  lookup-lost ht table obj last front h chain_is len same first new =
      let chain = front ++ (last ∷ []) in
      let len' : length chain ≡ 16 = omega (arith, length-append front (last ∷ [])) in
      let index = rht_key_hashfn hash table obj.key in
      let absent : find_first 16 obj.key (chain_of table obj.key) ≡ none =
        rw chain_is (find_first-none 16 obj.key chain new) in
      let short : ltb 16 (length (chain_of table obj.key)) ≡ false = rw (chain_is, len') refl in
      let other : (obj.key == last.key) ≡ false = elim (Bool-cases (obj.key == last.key)) [
        | inr other ↦ other
        | inl clash ↦
            let e : obj.key ≡ last.key = (==_iff _ _).0 clash in
            let there : find obj.key chain ≡ some last =
              rw e (find-append last.key front last first refl) in
            absurd (let both : none ≡ some last = sym new ∙ there in cc)
      ] in
      let bucket : chain_of (link hash table obj) last.key ≡ obj ∷ chain =
        ap (bucket_head hash (link hash table obj)) same
        ∙ get_or-set_self table.buckets index (obj ∷ chain_of table obj.key) []
            (index_lt hash table obj.key h)
        ∙ ap (λ (c : List Object). obj ∷ c) chain_is in
      let found_ : chain_of table last.key ≡ chain = ap (bucket_head hash table) same ∙ chain_is in
      (
        ap (find_first 16 last.key) found_
            ∙ find_first_all 16 last.key chain (omega arith)
            ∙ find-append last.key front last first refl,
        insert_front hash ht table obj,
        link hash table obj,
        insert_new ht table obj absent short,
        refl,
        ap (find_first 16 last.key) bucket
            ∙ rw other (find_first-append 15 last.key front last len first),
      )
