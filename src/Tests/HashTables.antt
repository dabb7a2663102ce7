-- ===== src/Tests/HashTables.antt =====
-- Hash tables of crates/subvol/src/util/rhashtable.rs, with keys that are their own hash.
use subvol.Prelude.{
  ℕ, zero, suc, ◌+◌, ◌*◌, ◌<◌, ◌≡◌, refl, true, false, some, none, List, [], ◌∷◌, ◌++◌, length,
  get_or, ◌==◌, if◌then◌else◌, arith,
}
use subvol.Prelude.Run.{panic}
use subvol.Prelude.Int.{pos, negsuc}
use subvol.Rhashtable.{
  Object, BucketTable, Rhashtable, RhashtableParams, roundup_pow2, rhashtable_lookup_fast,
  rhashtable_lookup_insert_fast, rhashtable_remove_fast, rehash_locked, rht_key_hashfn,
  next_hash_seed, rht_deferred_worker,
}
use subvol.Rhashtable.Buckets.{find_in, IsSized}
use subvol.Rhashtable.Found.{chain_of, Linked, insert-Linked, lookup-insert, lookup-lost}
use subvol.Rhashtable.Removed.{Left, remove-Left}
use subvol.Rhashtable.Rehash.{rehash-find_in}

abbrev hash : ℕ → ℕ → ℕ
hash key seed = key

abbrev params : RhashtableParams
params = record {
  nelem_hint = 0;
  key_len = 8;
  max_size = 0;
  min_size = 4;
  automatic_shrinking = true;
  hashfn = true;
  obj_hashfn = false;
  obj_cmpfn = false;
}

abbrev object : ℕ → Object
object key = record { addr = 100 + key; key = key }

abbrev table_of : List Object → BucketTable
table_of chain = record {
  size = 4;
  hash_rnd = 0;
  buckets = chain ∷ [] ∷ (object 6 ∷ object 2 ∷ []) ∷ [] ∷ [];
}

abbrev ht_of : List Object → Rhashtable
ht_of chain = record {
  tbl = some (table_of chain);
  key_len = 8;
  max_elems = 2 * 1073741824;
  p = params;
  nelems = length chain + 2;
  run_work = false;
  seed = 1;
}

abbrev short_chain : List Object
short_chain = object 4 ∷ object 8 ∷ []

table-IsSized : (chain : List Object) → IsSized hash (table_of chain)
table-IsSized chain = record { some_buckets = omega arith; all_buckets = refl }

rounds : roundup_pow2 85 ≡ 128
unfolding roundup_pow2
rounds = refl

grows :
    (rht_deferred_worker hash (ht_of short_chain)).tbl
    ≡ some (record {
      size = 8;
      hash_rnd = 270369;
      buckets =
          (object 8 ∷ [])
          ∷ []
          ∷ (object 2 ∷ [])
          ∷ []
          ∷ (object 4 ∷ [])
          ∷ []
          ∷ (object 6 ∷ [])
          ∷ []
          ∷ [];
    })
unfolding rht_deferred_worker rehash_locked next_hash_seed
grows = refl

refuses_key :
    rhashtable_lookup_insert_fast hash (ht_of short_chain) (table_of short_chain) (object 8)
    ≡ (ht_of short_chain, negsuc 16)
unfolding rhashtable_lookup_insert_fast
refuses_key = refl

insert-Linked_example :
    Linked hash
      (ht_of short_chain)
      (table_of short_chain)
      (object 12)
      (rhashtable_lookup_insert_fast hash (ht_of short_chain) (table_of short_chain) (object 12))
insert-Linked_example =
    insert-Linked hash (ht_of short_chain) (table_of short_chain) (object 12)
      (table-IsSized short_chain)

few : (key : ℕ) → length (chain_of hash (table_of short_chain) key) < 16
few key = at_index (rht_key_hashfn hash (table_of short_chain) key)
  where
    at_index : (i : ℕ) → length (get_or (table_of short_chain).buckets i []) < 16
    at_index zero = omega arith
    at_index (suc zero) = omega arith
    at_index (suc (suc zero)) = omega arith
    at_index (suc (suc (suc zero))) = omega arith
    at_index (suc (suc (suc (suc i)))) = omega arith

not_there : rhashtable_lookup_fast hash (table_of short_chain) 12 ≡ none
unfolding rhashtable_lookup_fast
not_there = refl

lookup-insert_example :
    (ht' : Rhashtable) × (table' : BucketTable) × (rhashtable_lookup_insert_fast hash
        (ht_of short_chain)
        (table_of short_chain)
        (object 12)
      ≡ (ht', pos 0))
    × (ht'.tbl ≡ some table')
    × ((key : ℕ)
        → rhashtable_lookup_fast hash table' key ≡ (
            if 12 == key
            then some (object 12)
            else rhashtable_lookup_fast hash (table_of short_chain) key))
lookup-insert_example =
    lookup-insert hash (ht_of short_chain) (table_of short_chain) (object 12)
      (table-IsSized short_chain) few not_there

-- The objects with keys 4, 8, and so on.
abbrev front_of : ℕ → List Object
front_of zero = []
front_of (suc n) = object (suc n * 4) ∷ front_of n

abbrev full_chain : List Object
full_chain = front_of 15 ++ (object 64 ∷ [])

lookup-lost_example :
    (rhashtable_lookup_fast hash (table_of full_chain) 64 ≡ some (object 64))
    × (ht' : Rhashtable) × (table' : BucketTable) × (rhashtable_lookup_insert_fast hash
          (ht_of full_chain)
          (table_of full_chain)
          (object 68)
        ≡ (ht', pos 0))
    × (ht'.tbl ≡ some table')
    × (rhashtable_lookup_fast hash table' 64 ≡ none)
lookup-lost_example =
    lookup-lost hash (ht_of full_chain) (table_of full_chain) (object 68) (object 64) (front_of 15)
      (table-IsSized full_chain) refl refl refl refl refl

remove-Left_example :
    Left hash
      (ht_of short_chain)
      (table_of short_chain)
      (object 8)
      (rhashtable_remove_fast hash (ht_of short_chain) (table_of short_chain) (object 8))
remove-Left_example =
    remove-Left hash (ht_of short_chain) (table_of short_chain) (object 8)
      (table-IsSized short_chain) (refl, (refl, tt))
      ((λ e. absurd (omega arith)), ((λ e. refl), tt))

-- An object that is linked but not counted
uncounted :
    rhashtable_remove_fast hash
      (record (ht_of short_chain) { nelems = 0 })
      (table_of short_chain)
      (object 8)
    ≡ panic
unfolding rhashtable_remove_fast
uncounted = refl

rehash-find_in_example :
    (new : BucketTable) × ((rehash_locked hash (ht_of short_chain) (table_of short_chain) 8).tbl
      ≡ some new)
    × (new.size ≡ 8)
    × IsSized hash new
    × ((key : ℕ) → find_in hash new key ≡ find_in hash (table_of short_chain) key)
rehash-find_in_example =
    rehash-find_in hash (ht_of short_chain) (table_of short_chain) 8 refl
      (table-IsSized short_chain) ((refl, (refl, tt)), (tt, ((refl, (refl, tt)), (tt, tt))))
      ((refl, (refl, tt)), (tt, ((refl, (refl, tt)), (tt, tt)))) (omega arith) (omega arith)
