-- ===== src/Snapshot/Mark/Grow.antt =====
-- Growing the table and writing an entry, seen through the look-up.
use subvol.Prelude.{
  ℕ, zero, suc, ◌+◌, ◌-◌, ◌^◌, ◌≤◌, ◌<◌, ◌≡◌, ◌≢◌, ◌⊎◌, inl, inr, refl, sym, ap, true, false, none,
  some, List, [], ◌∷◌, length, get_elem?, set, ltb, leb, arith, Bool-cases,
}
use subvol.Prelude.Options.{next_power_of_two}
use subvol.Prelude.Powers.{bit_length_fuel, bit_length_fuel_le}
use native.Mathlib.Nat.{le_refl}
use subvol.Snapshot.Table.{SnapshotT, SnapshotTable, default_entry, index_of, snapshot_t}
use subvol.Snapshot.Mark.{resize, grow}

module _ {ℓ} {A : Type ℓ} where
  pub length-resize : (xs : List A) (n : ℕ) (d : A) → length (resize xs n d) ≡ n
  length-resize [] zero d = refl
  length-resize (x ∷ xs) zero d = refl
  length-resize [] (suc n) d = ap suc (length-resize [] n d)
  length-resize (x ∷ xs) (suc n) d = ap suc (length-resize xs n d)

  get-resize :
      (xs : List A) (n i : ℕ) (d : A)
      → i < n
      → ((i < length xs) × (get_elem? (resize xs n d) i ≡ get_elem? xs i))
        ⊎ ((length xs ≤ i) × (get_elem? (resize xs n d) i ≡ some d))
  get-resize xs zero i d h = elim h [ ]
  get-resize [] (suc n) zero d h = inr (omega arith, refl)
  get-resize [] (suc n) (suc i) d h = elim (get-resize [] n i d (omega arith)) [
    | inl (lt, e) ↦ elim lt [ ]
    | inr (_, e) ↦ inr (omega arith, e)
  ]
  get-resize (x ∷ xs) (suc n) zero d h = inl (omega arith, refl)
  get-resize (x ∷ xs) (suc n) (suc i) d h = elim (get-resize xs n i d (omega arith)) [
    | inl (lt, e) ↦ inl (omega arith, e)
    | inr (le, e) ↦ inr (omega arith, e)
  ]

  get-set_self : (xs : List A) (i : ℕ) (v : A) → i < length xs → get_elem? (set xs i v) i ≡ some v
  get-set_self [] i v h = elim h [ ]
  get-set_self (x ∷ xs) zero v h = refl
  get-set_self (x ∷ xs) (suc i) v h = get-set_self xs i v (omega arith)

  get-set_ne : (xs : List A) (i j : ℕ) (v : A) → i ≢ j → get_elem? (set xs i v) j ≡ get_elem? xs j
  get-set_ne [] i j v h = refl
  get-set_ne (x ∷ xs) zero zero v h = absurd (h refl)
  get-set_ne (x ∷ xs) zero (suc j) v h = refl
  get-set_ne (x ∷ xs) (suc i) zero v h = refl
  get-set_ne (x ∷ xs) (suc i) (suc j) v h = get-set_ne xs i j v (λ e. h (ap suc e))

-- The vector has as many elements as `nr` says.
abbrev pub HasRoom : SnapshotTable → Type 0
HasRoom t = t.nr ≡ length t.s

pub room : (idx : ℕ) → idx < 2 ^ 64 → idx < next_power_of_two (idx + 1)
room idx small =
    let e : idx + 1 - 1 ≡ idx = omega arith in
    rw e ((bit_length_fuel_le 64 idx (bit_length_fuel 64 idx) small).0 (le_refl _))

-- The look-up in a table that was grown for `idx`.
abbrev pub Grown : SnapshotTable → SnapshotTable → Type 0
Grown t g =
    (j : ℕ)
    → (snapshot_t g j ≡ snapshot_t t j)
      ⊎ ((snapshot_t t j ≡ none) × (snapshot_t g j ≡ some default_entry))

resized_look :
    (t : SnapshotTable) (n : ℕ)
    → HasRoom t
    → t.nr ≤ n
    → Grown t (record { nr = n; s = resize t.s n default_entry })
unfolding snapshot_t
resized_look t n h le j = elim (Bool-cases (ltb j (2 ^ 32))) [
  | inr wide ↦ rw wide (inl refl)
  | inl narrow ↦ elim (Bool-cases (ltb (index_of j) n)) [
    | inr beyond ↦
        let outside : ltb (index_of j) t.nr ≡ false = ground arith in
        rw (narrow, beyond, outside) (inl refl)
    | inl inside ↦ elim (get-resize t.s n (index_of j) default_entry (ground arith)) [
      | inl (lt, e) ↦
          let old : ltb (index_of j) t.nr ≡ true = ground arith in rw (narrow, inside, old) (inl e)
      | inr (past, e) ↦
          let outside : ltb (index_of j) t.nr ≡ false = ground arith in
          rw (narrow, inside, outside) (inr (refl, e))
    ]
  ]
]

pub grow-Grown :
    (t : SnapshotTable) (idx : ℕ)
    → HasRoom t
    → idx < 2 ^ 64
    → (idx < length (grow t idx).s) × HasRoom (grow t idx) × Grown t (grow t idx)
unfolding grow snapshot_t
grow-Grown t idx h small = elim (Bool-cases (leb t.nr idx)) [
  | inr fits ↦ rw fits (ground arith, h, λ j. inl refl)
  | inl grows ↦
      let more = room idx small in
      let len = length-resize t.s (next_power_of_two (idx + 1)) default_entry in
      rw grows (
        omega (arith, more, len),
        sym len,
        resized_look t (next_power_of_two (idx + 1)) h (ground arith),
      )
]

pub look-put_self :
    (g : SnapshotTable) (id : ℕ) (e : SnapshotT)
    → HasRoom g
    → id < 2 ^ 32
    → index_of id < length g.s
    → snapshot_t (record g { s = set g.s (index_of id) e }) id ≡ some e
unfolding snapshot_t
look-put_self g id e h small inside =
    let fits : ltb (index_of id) g.nr ≡ true = ground arith in
    let u32 : ltb id (2 ^ 32) ≡ true = ground arith in
    rw (fits, u32) (get-set_self g.s (index_of id) e inside)

pub look-put_ne :
    (g : SnapshotTable) (id j : ℕ) (e : SnapshotT)
    → id < 2 ^ 32
    → id ≢ j
    → snapshot_t (record g { s = set g.s (index_of id) e }) j ≡ snapshot_t g j
unfolding snapshot_t
look-put_ne g id j e small ne = elim (Bool-cases (ltb j (2 ^ 32))) [
  | inr wide ↦ rw wide refl
  | inl narrow ↦
      let apart : index_of id ≢ index_of j = ground arith in
      rw (get-set_ne g.s (index_of id) (index_of j) e apart) refl
]
