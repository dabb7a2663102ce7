-- ===== src/Rhashtable/Rehash.antt =====
-- Moving the objects of a table to one of another size.
use subvol.Prelude.{
  ℕ, zero, suc, ◌+◌, ◌%◌, ◌^◌, ◌<◌, ◌≡◌, ◌≢◌, inl, inr, refl, sym, ap, ◌∙◌, Option, none, some,
  List, [], ◌∷◌, get_or, ◌==◌, arith, Bool-cases, ==_iff, ==→ne, length-replicate,
}
use subvol.Rhashtable.{
  Object, BucketTable, Rhashtable, rht_key_hashfn, link, move_chain, move_buckets, no_buckets,
  bucket_table_alloc, rehash_locked,
}
use subvol.Rhashtable.Buckets.{find, IsDistinct, find_in, IsSized, find_in-link, link-IsSized}

-- The first of two results that there is
abbrev pub or_else : Option Object → Option Object → Option Object
or_else none other = other
or_else (some object) other = some object

-- The object for a key in any of the chains
abbrev pub find_any : ℕ → List (List Object) → Option Object
find_any key [] = none
find_any key (chain ∷ chains) = or_else (find key chain) (find_any key chains)

-- No chain has a key twice.
abbrev pub EachIsDistinct : List (List Object) → Type 0
EachIsDistinct [] = Unit
EachIsDistinct (chain ∷ chains) = IsDistinct chain × EachIsDistinct chains

or_else_assoc : (a b c : Option Object) → or_else (or_else a b) c ≡ or_else a (or_else b c)
or_else_assoc none b c = refl
or_else_assoc (some a) b c = refl

module _ (hash : ℕ → ℕ → ℕ) where
  -- Every object of a chain belongs to the bucket.
  abbrev pub IsPlaced : BucketTable → ℕ → List Object → Type 0
  IsPlaced table index [] = Unit
  IsPlaced table index (object ∷ chain) =
      (rht_key_hashfn hash table object.key ≡ index) × IsPlaced table index chain

  abbrev pub EachIsPlaced : BucketTable → ℕ → List (List Object) → Type 0
  EachIsPlaced table index [] = Unit
  EachIsPlaced table index (chain ∷ chains) =
      IsPlaced table index chain × EachIsPlaced table (index + 1) chains

  find-elsewhere :
      (table : BucketTable) (index key : ℕ) (chain : List Object)
      → IsPlaced table index chain
      → rht_key_hashfn hash table key ≢ index
      → find key chain ≡ none
  find-elsewhere table index key [] h ne = refl
  find-elsewhere table index key (object ∷ chain) (h, hs) ne =
      elim (Bool-cases (object.key == key)) [
        | inl same ↦
            let e : object.key ≡ key = (==_iff _ _).0 same in
            absurd (ne (ap (rht_key_hashfn hash table) (sym e) ∙ h))
        | inr other ↦ rw other (find-elsewhere table index key chain hs ne)
      ]

  -- Below its bucket no chain has the key; the others hold what the bucket does.
  find_any-none :
      (table : BucketTable) (index key : ℕ) (chains : List (List Object))
      → EachIsPlaced table index chains
      → rht_key_hashfn hash table key < index
      → find_any key chains ≡ none
  find_any-none table index key [] h lt = refl
  find_any-none table index key (chain ∷ chains) (h, hs) lt =
      rw (find-elsewhere table index key chain h (λ clash. absurd (omega arith)))
        (find_any-none table (index + 1) key chains hs (omega arith))

  or_else-none : (a : Option Object) → or_else a none ≡ a
  or_else-none none = refl
  or_else-none (some a) = refl

  find_any-bucket :
      (table : BucketTable) (index key j : ℕ) (chains : List (List Object))
      → EachIsPlaced table index chains
      → rht_key_hashfn hash table key ≡ index + j
      → find_any key chains ≡ find key (get_or chains j [])
  find_any-bucket table index key j [] h e = refl
  find_any-bucket table index key zero (chain ∷ chains) (h, hs) e =
      rw (find_any-none table (index + 1) key chains hs (omega arith))
        (or_else-none (find key chain))
  find_any-bucket table index key (suc j) (chain ∷ chains) (h, hs) e =
      rw (find-elsewhere table index key chain h (λ clash. absurd (omega arith)))
        (find_any-bucket table (index + 1) key j chains hs (omega arith))

  find_in-move_chain :
      (new : BucketTable) (chain : List Object) (key : ℕ)
      → IsSized hash new
      → IsDistinct chain
      → (find_in hash (move_chain hash new chain) key
          ≡ or_else (find key chain) (find_in hash new key))
        × IsSized hash (move_chain hash new chain)
  find_in-move_chain new [] key h d = (refl, h)
  find_in-move_chain new (object ∷ chain) key h (first, d) =
      let (rest, sized) =
        find_in-move_chain (link hash new object) chain key (link-IsSized hash new object h) d in
      (
        rest
            ∙ rw (find_in-link hash new object key h) (elim (Bool-cases (object.key == key)) [
              | inl same ↦
                  let e : object.key ≡ key = (==_iff _ _).0 same in
                  let gone : find key chain ≡ none = rw (← e) first in rw (same, gone) refl
              | inr other ↦ rw other refl
            ]),
        sized,
      )

  -- At most one of the chains has the key.
  one_of :
      (table : BucketTable) (index key : ℕ) (chain : List Object) (chains : List (List Object))
      (other : Option Object)
      → IsPlaced table index chain
      → EachIsPlaced table (index + 1) chains
      → or_else (find_any key chains) (or_else (find key chain) other)
        ≡ or_else (or_else (find key chain) (find_any key chains)) other
  one_of table index key chain chains other h hs =
      elim (Bool-cases (rht_key_hashfn hash table key == index)) [
        | inl here ↦
            let e : rht_key_hashfn hash table key ≡ index = (==_iff _ _).0 here in
            rw
              (
                find_any-none table (index + 1) key chains hs (omega arith),
                or_else-none (find key chain),
              )
              refl
        | inr apart ↦ rw (find-elsewhere table index key chain h (==→ne _ _ apart)) refl
      ]

  find_in-move_buckets :
      (table new : BucketTable) (index : ℕ) (chains : List (List Object)) (key : ℕ)
      → IsSized hash new
      → EachIsDistinct chains
      → EachIsPlaced table index chains
      → (find_in hash (move_buckets hash new chains) key
          ≡ or_else (find_any key chains) (find_in hash new key))
        × IsSized hash (move_buckets hash new chains)
  find_in-move_buckets table new index [] key h d placed = (refl, h)
  find_in-move_buckets table new index (chain ∷ chains) key h (d, ds) (place, places) =
      let (first, sized) = find_in-move_chain new chain key h d in
      let (rest, sized') =
        find_in-move_buckets table (move_chain hash new chain) (index + 1) chains key sized ds
          places in
      (
        rest ∙ rw first (one_of table index key chain chains (find_in hash new key) place places),
        sized',
      )

  empty_bucket : (n i : ℕ) → get_or (no_buckets n) i [] ≡ []
  empty_bucket zero i = refl
  empty_bucket (suc n) zero = refl
  empty_bucket (suc n) (suc i) = empty_bucket n i

  alloc-IsSized :
      (seed size : ℕ) → 0 < size → size < 2 ^ 32 → IsSized hash (bucket_table_alloc seed size)
  alloc-IsSized seed size positive fits =
      let same : size % 2 ^ 32 ≡ size = omega arith in
      record { some_buckets = omega arith; all_buckets = length-replicate size [] ∙ sym same }

  size-move_chain :
      (new : BucketTable) (chain : List Object) → (move_chain hash new chain).size ≡ new.size
  size-move_chain new [] = refl
  size-move_chain new (object ∷ chain) = size-move_chain (link hash new object) chain

  size-move_buckets :
      (new : BucketTable) (chains : List (List Object))
      → (move_buckets hash new chains).size ≡ new.size
  size-move_buckets new [] = refl
  size-move_buckets new (chain ∷ chains) =
      size-move_buckets (move_chain hash new chain) chains ∙ size-move_chain new chain

  mod_small : (n : ℕ) → n < 2 ^ 32 → n % 2 ^ 32 ≡ n
  mod_small n h = omega arith

  -- Where every object is in the bucket of its key and no chain has a key twice, moving to a table
  -- of another size leaves what is held for every key: the table of the result has buckets, and
  -- holds for each key what the old one held.
  pub rehash-find_in :
      (ht : Rhashtable) (old : BucketTable) (new_size : ℕ)
      → ht.tbl ≡ some old
      → IsSized hash old
      → EachIsDistinct old.buckets
      → EachIsPlaced old 0 old.buckets
      → 0 < new_size
      → new_size < 2 ^ 32
      → (new : BucketTable) × ((rehash_locked hash ht old new_size).tbl ≡ some new)
        × (new.size ≡ new_size)
        × IsSized hash new
        × ((key : ℕ) → find_in hash new key ≡ find_in hash old key)
  unfolding rehash_locked
  rehash-find_in ht old new_size current h d placed positive fits =
      let empty = bucket_table_alloc ht.seed new_size in
      let sized = alloc-IsSized ht.seed new_size positive fits in
      elim (Bool-cases (old.size == new_size)) [
        | inl same ↦ (old, rw same current, (==_iff _ _).0 same, h, λ key. refl)
        | inr other ↦ (
          move_buckets hash empty old.buckets,
          rw other refl,
          size-move_buckets empty old.buckets ∙ mod_small new_size fits,
          (find_in-move_buckets old empty 0 old.buckets 0 sized d placed).1,
          λ key.
              let index = rht_key_hashfn hash old key in
              let nothing : find_in hash empty key ≡ none =
                ap (find key) (empty_bucket new_size (rht_key_hashfn hash empty key)) in
              (find_in-move_buckets old empty 0 old.buckets key sized d placed).0
              ∙ rw nothing (or_else-none (find_any key old.buckets))
              ∙ find_any-bucket old 0 key index old.buckets placed (omega arith),
        )
      ]
