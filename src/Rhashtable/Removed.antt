-- ===== src/Rhashtable/Removed.antt =====
-- Removing an object.
use subvol.Prelude.{
  subst, ℕ, ◌+◌, ◌*◌, ◌/◌, ◌-◌, Bool, ltb, ◌&&◌, ◌||◌, false, ◌≡◌, ◌≢◌, inl, inr, refl, ap, ◌∙◌,
  true, false, Option, none, some, List, [], ◌∷◌, set, ◌==◌, if◌then◌else◌, arith, Bool-cases,
  Option-cases, ==_iff, ==→ne,
}
use subvol.Prelude.Run.{Run, ok, panic}
use subvol.Prelude.Int.{ℤ, pos, negsuc}
use subvol.Rhashtable.{
  Object, BucketTable, Rhashtable, remove_addr, rht_key_hashfn, rhashtable_remove_fast,
}
use subvol.Rhashtable.Buckets.{find, IsDistinct, find_in, IsSized, index_lt, find_in-set}
use subvol.Rhashtable.Found.{chain_of}

-- An object with the address of the given one is that one.
abbrev pub IsOwn : Object → List Object → Type 0
IsOwn obj [] = Unit
IsOwn obj (object ∷ chain) = (object.addr ≡ obj.addr → object ≡ obj) × IsOwn obj chain

-- A chain without the object, or with it taken out
abbrev pub Removed : Object → List Object → Option (List Object) → Type 0
Removed obj chain none = find obj.key chain ≢ some obj
Removed obj chain (some chain') =
    (find obj.key chain ≡ some obj)
    × ((key : ℕ) → find key chain' ≡ (if obj.key == key then none else find key chain))

remove_addr-Removed :
    (obj : Object) (chain : List Object)
    → IsDistinct chain
    → IsOwn obj chain
    → Removed obj chain (remove_addr obj.addr chain)
remove_addr-Removed obj [] d own = λ e. cc e
remove_addr-Removed obj (object ∷ chain) (new, d) (owns, own) =
    let ih = remove_addr-Removed obj chain d own in
    elim (Bool-cases (object.addr == obj.addr)) [
      | inl here ↦
          let e : object ≡ obj = owns ((==_iff _ _).0 here) in
          let first : (object.key == obj.key) ≡ true =
            (==_iff _ _).1 (ap (λ (o : Object). o.key) e) in
          let gone : find obj.key chain ≡ none = rw (← e) new in
          rw here (
            rw first (ap some e),
            λ key. elim (Bool-cases (obj.key == key)) [
              | inl same ↦ let k : obj.key ≡ key = (==_iff _ _).0 same in rw (same, ← k) gone
              | inr apart ↦
                  let apart' : (object.key == key) ≡ false =
                    ap (λ (o : Object). o.key == key) e ∙ apart in
                  rw (apart, apart') refl
            ],
          )
      | inr other ↦ elim (Option-cases (remove_addr obj.addr chain)) [
        | inl missing ↦
            let absent = subst (Removed obj chain) missing ih in
            rw (other, missing)
              (elim (Bool-cases (object.key == obj.key)) [
                | inl same ↦ rw same (λ e.
                    let o : object ≡ obj = cc in ==→ne _ _ other (ap (λ (o : Object). o.addr) o))
                | inr apart ↦ rw apart absent
              ])
        | inr (chain', there) ↦
            let (held, rest) = subst (Removed obj chain) there ih in
            let apart : (object.key == obj.key) ≡ false =
              elim (Bool-cases (object.key == obj.key)) [
                | inr apart ↦ apart
                | inl same ↦
                    let k : object.key ≡ obj.key = (==_iff _ _).0 same in
                    absurd (let none_ : find obj.key chain ≡ none = rw (← k) new in cc)
              ] in
            rw (other, there)
              (
                rw apart held,
                λ key. rw (rest key) (swapped object obj.key key (find key chain) apart),
              )
      ]
    ]
  where
    swapped :
        (object : Object) (a key : ℕ) (rest : Option Object)
        → (object.key == a) ≡ false
        → (if object.key == key then some object else (if a == key then none else rest))
          ≡ (if a == key then none else (if object.key == key then some object else rest))
    swapped object a key rest apart = ground (arith, apart)

-- When removing schedules a resizing
abbrev pub is_sparse : Rhashtable → BucketTable → Bool
is_sparse ht table =
    ht.p.automatic_shrinking && ltb ht.p.min_size table.size && ltb ht.nelems (table.size * 3 / 10)

-- What removing may do: the object is not there, or it is taken out, or the count overflows. The
-- conditions exclude each other.
pub data Left (hash : ℕ → ℕ → ℕ) (ht : Rhashtable) (table : BucketTable) (obj : Object)
    : Run (Rhashtable × ℤ) → Type 0 where
  missing : find_in hash table obj.key ≢ some obj → Left hash ht table obj (ok (ht, negsuc 1))
  removed :
      (ht' : Rhashtable) (table' : BucketTable)
      → find_in hash table obj.key ≡ some obj
      → ht'.tbl ≡ some table'
      → ht'.nelems + 1 ≡ ht.nelems
      → ((key : ℕ)
          → find_in hash table' key ≡ (if obj.key == key then none else find_in hash table key))
      → table'.size ≡ table.size
      → ht'.run_work ≡ (is_sparse ht' table' || ht.run_work)
      → Left hash ht table obj (ok (ht', pos 0))
  overflow : find_in hash table obj.key ≡ some obj → ht.nelems ≡ 0 → Left hash ht table obj panic

or_if : (b c : Bool) → (if b then true else c) ≡ (b || c)
or_if true c = refl
or_if false c = refl

module _ (hash : ℕ → ℕ → ℕ) where
  -- Removing an object from a table with buckets, whose chain for the key has no key twice and at
  -- the object's address only the object, is one of three. The table does not hold the object for
  -- its key: -2 without a change. It does, and the count of elements is not 0: 0, with one element
  -- less, a table that holds nothing for the key and what it held for all others, and the resizing
  -- scheduled when the table shrinks automatically, is larger than its least size, and is left with
  -- fewer elements than three tenths of its size. It does, and the count is 0, which no table that
  -- counts its objects has: a panic, since the count overflows.
  pub remove-Left :
      (ht : Rhashtable) (table : BucketTable) (obj : Object)
      → IsSized hash table
      → IsDistinct (chain_of hash table obj.key)
      → IsOwn obj (chain_of hash table obj.key)
      → Left hash ht table obj (rhashtable_remove_fast hash ht table obj)
  unfolding rhashtable_remove_fast
  remove-Left ht table obj h d own =
      let index = rht_key_hashfn hash table obj.key in
      let chain = chain_of hash table obj.key in
      let done = remove_addr-Removed obj chain d own in
      elim (Option-cases (remove_addr obj.addr chain)) [
        | inl gone ↦
            rw (rhashtable_remove_fast, gone) (missing (subst (Removed obj chain) gone done))
        | inr (chain', there) ↦
            let (held, rest) = subst (Removed obj chain) there done in
            elim (Bool-cases (ht.nelems == 0)) [
              | inl empty ↦
                  rw (rhashtable_remove_fast, there, empty) (overflow held ((==_iff _ _).0 empty))
              | inr counted ↦
                  let less : ht.nelems - 1 + 1 ≡ ht.nelems =
                    let ne = ==→ne _ _ counted in omega (arith, ne) in
                  rw (rhashtable_remove_fast, there, counted)
                    (removed _ (record table { buckets = set table.buckets index chain' }) held refl
                      less
                      (λ key.
                        find_in-set hash table index key chain' (index_lt hash table obj.key h)
                        ∙ elim (Bool-cases (index == rht_key_hashfn hash table key)) [
                          | inl here ↦
                              let e : index ≡ rht_key_hashfn hash table key = (==_iff _ _).0 here in
                              rw here (rest key ∙ rw e refl)
                          | inr other ↦
                              let apart : (obj.key == key) ≡ false =
                                elim (Bool-cases (obj.key == key)) [
                                  | inr apart ↦ apart
                                  | inl same ↦
                                      let k : obj.key ≡ key = (==_iff _ _).0 same in
                                      absurd (==→ne _ _ other (ap (rht_key_hashfn hash table) k))
                                ] in
                              rw (other, apart) refl
                        ])
                      refl (or_if _ ht.run_work))
            ]
      ]
