-- ===== src/Rhashtable.antt =====
-- crates/subvol/src/util/rhashtable.rs: the resizable hash table. An object is its address and its
-- key; a bucket is the list of its chain. The calls hold the gate, so that each sees one table; the
-- lock bit of a bucket is taken and released within a call. The caller's hash function is the
-- parameter `hash`, of a key and a seed.
pub mod Buckets
pub mod Found
pub mod Removed
pub mod Rehash
use subvol.Prelude.{
  ℕ, zero, suc, ◌+◌, ◌-◌, ◌*◌, ◌/◌, ◌%◌, ◌^◌, min, max, Bool, true, false, not, Option, none, some,
  List, [], ◌∷◌, length, get_or, set, replicate, bit_or, bit_xor, bit_and, ltb, leb, ◌==◌, ◌!=◌,
  ◌&&◌, ◌||◌, if◌then◌else◌,
}
use subvol.Prelude.Run.{Run, ok, panic}
use subvol.Prelude.Int.{ℤ, pos, negsuc}
use subvol.Prelude.Options.{next_power_of_two}

abbrev pub hash_default_size : ℕ
hash_default_size = 64

abbrev pub hash_min_size : ℕ
hash_min_size = 4

abbrev pub rht_elasticity : ℕ
rht_elasticity = 16

-- An object of the caller, which holds the `rhash_head`
pub record Object : Type 0 where
  pub addr : ℕ
  pub key : ℕ

-- Which functions the caller gives
pub record RhashtableParams : Type 0 where
  pub nelem_hint : ℕ
  pub key_len : ℕ
  pub max_size : ℕ
  pub min_size : ℕ
  pub automatic_shrinking : Bool
  pub hashfn : Bool
  pub obj_hashfn : Bool
  pub obj_cmpfn : Bool

pub record BucketTable : Type 0 where
  pub size : ℕ
  pub hash_rnd : ℕ
  pub buckets : List (List Object)

-- `seed` is that of the next table; `run_work` says that the resizing is scheduled.
pub record Rhashtable : Type 0 where
  pub tbl : Option BucketTable
  pub key_len : ℕ
  pub max_elems : ℕ
  pub p : RhashtableParams
  pub nelems : ℕ
  pub run_work : Bool
  pub seed : ℕ

unfoldable pub next_hash_seed : ℕ → ℕ
next_hash_seed old =
    let next₀ = bit_xor old (old * 2 ^ 13 % 2 ^ 32) in
    let next₁ = bit_xor next₀ (next₀ / 2 ^ 17) in bit_xor next₁ (next₁ * 2 ^ 5 % 2 ^ 32)

unfoldable pub roundup_pow2 : ℕ → ℕ
roundup_pow2 value =
    let value₀ = value - 1 in
    let value₁ = bit_or value₀ (value₀ / 2 ^ 1) in
    let value₂ = bit_or value₁ (value₁ / 2 ^ 2) in
    let value₃ = bit_or value₂ (value₂ / 2 ^ 4) in
    let value₄ = bit_or value₃ (value₃ / 2 ^ 8) in
    let value₅ = bit_or value₄ (value₄ / 2 ^ 16) in
    let value₆ = bit_or value₅ (value₅ / 2 ^ 32) in if leb value 1 then 1 else value₆ + 1

unfoldable pub rounded_hashtable_size : RhashtableParams → ℕ
rounded_hashtable_size params =
    let hinted = if params.nelem_hint != 0 then params.nelem_hint * 4 / 3 else hash_default_size in
    roundup_pow2 (max (max hinted params.min_size) hash_min_size)

abbrev pub no_buckets : ℕ → List (List Object)
no_buckets size = replicate size []

abbrev pub bucket_table_alloc : ℕ → ℕ → BucketTable
bucket_table_alloc seed size = record {
  size = size % 2 ^ 32;
  hash_rnd = next_hash_seed seed;
  buckets = no_buckets size;
}

-- No result where rounding the greatest size overflows.
unfoldable pub rhashtable_init : Rhashtable → RhashtableParams → Option (Rhashtable × ℤ)
rhashtable_init ht params =
    let keyless = (params.key_len == 0) && not params.obj_hashfn in
    let max_size = next_power_of_two params.max_size / 2 in
    let bounded = not (params.max_size == 0) in
    let min_size = max (roundup_pow2 params.min_size) hash_min_size % 2 ^ 16 in
    let p = record params {
      min_size = min_size;
      max_size = if bounded then max_size else params.max_size;
      hashfn = true;
    } in
    let words = not params.hashfn && (params.key_len % 4 == 0) in
    if keyless || (params.obj_hashfn && not params.obj_cmpfn)
    then some (ht, negsuc 21)
    else if ltb (2 ^ 31) params.max_size
    then none
    else some (
      record {
        tbl = some (bucket_table_alloc ht.seed (rounded_hashtable_size p));
        key_len = if words then params.key_len / 4 else params.key_len;
        max_elems = if bounded && ltb max_size (2 ^ 31 / 2) then max_size * 2 else 2 ^ 31;
        p = p;
        nelems = 0;
        run_work = false;
        seed = next_hash_seed ht.seed;
      },
      pos 0,
    )

-- The first object of the first `n` of a chain that has the key
abbrev pub find_first : ℕ → ℕ → List Object → Option Object
find_first zero key chain = none
find_first (suc n) key [] = none
find_first (suc n) key (object ∷ chain) =
    let rest = find_first n key chain in if object.key == key then some object else rest

abbrev pub remove_addr : ℕ → List Object → Option (List Object)
remove_addr addr [] = none
remove_addr addr (object ∷ chain) =
    if object.addr == addr
    then some chain
    else elim (remove_addr addr chain) [ none ↦ none | some chain' ↦ some (object ∷ chain') ]

module _ (hash : ℕ → ℕ → ℕ) where
  -- `rht_key_hashfn`, and `rht_head_hashfn` for the key of an object
  abbrev pub rht_key_hashfn : BucketTable → ℕ → ℕ
  rht_key_hashfn table key = bit_and (hash key table.hash_rnd) (table.size - 1)

  abbrev pub bucket_head : BucketTable → ℕ → List Object
  bucket_head table index = get_or table.buckets index []

  unfoldable pub rhashtable_lookup_fast : BucketTable → ℕ → Option Object
  rhashtable_lookup_fast table key =
      find_first rht_elasticity key (bucket_head table (rht_key_hashfn table key))

  -- An object goes to the front of its bucket.
  abbrev pub link : BucketTable → Object → BucketTable
  link table object =
      let index = rht_key_hashfn table object.key in
      record table { buckets = set table.buckets index (object ∷ bucket_head table index) }

  abbrev pub move_chain : BucketTable → List Object → BucketTable
  move_chain new [] = new
  move_chain new (object ∷ chain) = move_chain (link new object) chain

  abbrev pub move_buckets : BucketTable → List (List Object) → BucketTable
  move_buckets new [] = new
  move_buckets new (chain ∷ buckets) = move_buckets (move_chain new chain) buckets

  unfoldable pub rehash_locked : Rhashtable → BucketTable → ℕ → Rhashtable
  rehash_locked ht old new_size =
      let new = bucket_table_alloc ht.seed new_size in
      if old.size == new_size
      then ht
      else record ht { tbl = some (move_buckets new old.buckets); seed = next_hash_seed ht.seed }

  -- The size of the table may be doubled up to the greatest size of the parameters.
  abbrev pub next_size : Rhashtable → ℕ → ℕ
  next_size ht size =
      let max_size = if ht.p.max_size == 0 then 2 ^ 64 - 1 else ht.p.max_size in
      min (size * 2) max_size

  unfoldable pub rht_deferred_worker : Rhashtable → Rhashtable
  rht_deferred_worker ht = elim ht.tbl [
    | none ↦ ht
    | some table ↦
        let size = table.size in
        let next = next_size ht size in
        let smaller = max (size / 2) ht.p.min_size in
        let shrink =
          ht.p.automatic_shrinking && ltb ht.p.min_size size && ltb ht.nelems (size * 3 / 10) in
        if ltb (size * 3 / 4) ht.nelems
        then (if ltb size next then rehash_locked ht table next else ht)
        else if shrink
        then rehash_locked ht table smaller
        else ht
  ]

  -- The object goes to its bucket; above three quarters of the size the resizing is scheduled.
  abbrev pub insert_front : Rhashtable → BucketTable → Object → Rhashtable
  insert_front ht table obj =
      let count = ht.nelems + 1 in
      let grow = ltb (table.size * 3 / 4) count && ltb table.size (next_size ht table.size) in
      record ht {
        tbl = some (link table obj);
        nelems = count;
        run_work = if grow then true else ht.run_work;
      }

  -- With the object that the loop over the chain has found
  abbrev pub insert_unless : Rhashtable → BucketTable → Object → Option Object → Rhashtable × ℤ
  insert_unless ht table obj (some found) = (ht, negsuc 16)
  insert_unless ht table obj none =
      if ltb rht_elasticity (length (bucket_head table (rht_key_hashfn table obj.key)))
      then (record ht { run_work = true }, negsuc 6)
      else (insert_front ht table obj, pos 0)

  unfoldable pub rhashtable_lookup_insert_fast : Rhashtable → BucketTable → Object → Rhashtable × ℤ
  rhashtable_lookup_insert_fast ht table obj =
      insert_unless ht table obj
        (find_first rht_elasticity obj.key (bucket_head table (rht_key_hashfn table obj.key)))

  abbrev pub rhashtable_insert_fast : Rhashtable → BucketTable → Object → Rhashtable × ℤ
  rhashtable_insert_fast ht table obj = rhashtable_lookup_insert_fast ht table obj

  -- The count is one less: below 0 the source's subtraction overflows, after the object has left
  -- its bucket, which is a panic.
  unfoldable pub rhashtable_remove_fast : Rhashtable → BucketTable → Object → Run (Rhashtable × ℤ)
  rhashtable_remove_fast ht table obj =
      let index = rht_key_hashfn table obj.key in
      let count = ht.nelems - 1 in
      let shrink =
        ht.p.automatic_shrinking
        && ltb ht.p.min_size table.size
        && ltb count (table.size * 3 / 10) in
      elim (remove_addr obj.addr (bucket_head table index)) [
        | none ↦ ok (ht, negsuc 1)
        | some chain ↦
            if ht.nelems == 0
            then panic
            else ok (
              record ht {
                tbl = some (record table { buckets = set table.buckets index chain });
                nelems = count;
                run_work = if shrink then true else ht.run_work;
              },
              pos 0,
            )
      ]

abbrev pub rhashtable_destroy : Rhashtable → Rhashtable
rhashtable_destroy ht = record ht { tbl = none; nelems = 0; run_work = false }
