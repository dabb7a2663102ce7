-- ===== src/Rhashtable/Buckets.antt =====
-- The chains of a table, and the map from keys to objects that they are.
use subvol.Prelude.{
  ℕ, zero, suc, ◌-◌, ◌/◌, ◌≤◌, ◌<◌, ◌≡◌, inl, inr, refl, ap, ◌∙◌, min, true, Option, none, some,
  List, [], ◌∷◌, length, set, bit_and, ◌==◌, if◌then◌else◌, arith, Bool-cases, ==_iff, ==→ne,
  get_or-set_self, get_or-set_ne, length-set,
}
use Prim.Native.Nat.{digits, bit_and-bitwise}
use subvol.Rhashtable.{Object, BucketTable, find_first, rht_key_hashfn, bucket_head, link}

mask_le : (n a b : ℕ) → digits (λ _. 0) min n a b ≤ b
mask_le zero a b = omega arith
mask_le (suc n) zero b = omega arith
mask_le (suc n) (suc a) b = omega (arith, mask_le n (suc a / 2) (b / 2))

pub bit_and_le : (a b : ℕ) → bit_and a b ≤ b
bit_and_le a b = simp bit_and-bitwise (mask_le a a b)

-- The first object of a chain that has the key
abbrev pub find : ℕ → List Object → Option Object
find key [] = none
find key (object ∷ chain) = if object.key == key then some object else find key chain

pub find_first_all :
    (n key : ℕ) (chain : List Object) → length chain ≤ n → find_first n key chain ≡ find key chain
find_first_all zero key [] h = refl
find_first_all zero key (object ∷ chain) h = absurd (omega arith)
find_first_all (suc n) key [] h = refl
find_first_all (suc n) key (object ∷ chain) h = rw (find_first_all n key chain (omega arith)) refl

-- No key occurs twice in a chain.
abbrev pub IsDistinct : List Object → Type 0
IsDistinct [] = Unit
IsDistinct (object ∷ chain) = (find object.key chain ≡ none) × IsDistinct chain

module _ (hash : ℕ → ℕ → ℕ) where
  -- The object that a table holds for a key, however long the chain.
  abbrev pub find_in : BucketTable → ℕ → Option Object
  find_in table key = find key (bucket_head hash table (rht_key_hashfn hash table key))

  -- A table with buckets
  pub record IsSized (table : BucketTable) : Type 0 where
    pub some_buckets : 0 < table.size
    pub all_buckets : length table.buckets ≡ table.size

  pub index_lt :
      (table : BucketTable) (key : ℕ)
      → IsSized table
      → rht_key_hashfn hash table key < length table.buckets
  index_lt table key h =
      let (positive, sized) : (0 < table.size) × (length table.buckets ≡ table.size) =
        (h.some_buckets, h.all_buckets) in
      omega (arith, bit_and_le (hash key table.hash_rnd) (table.size - 1))

  -- Replacing the chain of a key's bucket changes what the table holds for the keys of the bucket.
  pub find_in-set :
      (table : BucketTable) (index key : ℕ) (chain : List Object)
      → index < length table.buckets
      → find_in (record table { buckets = set table.buckets index chain }) key
        ≡ (if index == rht_key_hashfn hash table key then find key chain else find_in table key)
  find_in-set table index key chain h = elim (Bool-cases (index == rht_key_hashfn hash table key)) [
    | inl here ↦
        let e : index ≡ rht_key_hashfn hash table key = (==_iff _ _).0 here in
        rw (here, ← e, get_or-set_self table.buckets index chain [] h) refl
    | inr other ↦
        rw
          (
            other,
            get_or-set_ne table.buckets index (rht_key_hashfn hash table key) chain []
                (==→ne _ _ other),
          )
          refl
  ]

  pub find_in-link :
      (table : BucketTable) (object : Object) (key : ℕ)
      → IsSized table
      → find_in (link hash table object) key
        ≡ (if object.key == key then some object else find_in table key)
  find_in-link table object key h =
      let index = rht_key_hashfn hash table object.key in
      find_in-set table index key (object ∷ bucket_head hash table index)
        (index_lt table object.key h)
      ∙ elim (Bool-cases (object.key == key)) [
        | inl same ↦
            let e : object.key ≡ key = (==_iff _ _).0 same in
            let here : (index == rht_key_hashfn hash table key) ≡ true =
              (==_iff _ _).1 (ap (rht_key_hashfn hash table) e) in
            rw (here, same) refl
        | inr other ↦ elim (Bool-cases (index == rht_key_hashfn hash table key)) [
          | inl here ↦
              let e : index ≡ rht_key_hashfn hash table key = (==_iff _ _).0 here in
              rw (here, other) (ap (λ (i : ℕ). find key (bucket_head hash table i)) e)
          | inr apart ↦ rw (apart, other) refl
        ]
      ]

  pub link-IsSized :
      (table : BucketTable) (object : Object) → IsSized table → IsSized (link hash table object)
  link-IsSized table object h = record {
    some_buckets = h.some_buckets;
    all_buckets = length-set table.buckets _ _ ∙ h.all_buckets;
  }
