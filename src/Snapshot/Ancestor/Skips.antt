-- ===== src/Snapshot/Ancestor/Skips.antt =====
-- The walk over the skip lists and the bitmap of the last step decide the ancestors.
use subvol.Prelude.{
  ℕ, zero, suc, ◌+◌, ◌-◌, ◌%◌, ◌≤◌, ◌<◌, ◌≡◌, ◌≢◌, ◌↔◌, ◌⊎◌, inl, inr, refl, true, false, none,
  some, ap, ltb, leb, if◌then◌else◌, ◌&&◌, ◌==◌, ◌!=◌, arith, Bool-cases, Option-cases, ==_iff,
}
use subvol.Prelude.Options.{◌>>=◌}
use subvol.Prelude.WordBits.{bit_of_word}
use subvol.Snapshot.Table.{SnapshotT, SnapshotTable, snapshot_t, snapshot_parent}
use subvol.Snapshot.Walk.{
  bitmap_word, get_ancestor_below, skip_to, test_ancestor_bitmap, snapshot_is_ancestor_walk,
  snapshot_is_ancestor,
}
use subvol.Snapshot.Ancestor.{
  Ancestor, itself, above, IsTable, IsEntry, IsSkip, bitmap_bit, ancestor_le, of_parent, between,
  through,
}
use subvol.Snapshot.Ancestor.Early.{Decides}

-- The selected bit of the selected word is the bit of the bitmap.
word_bit :
    (words : ℕ × ℕ) (b : ℕ)
    → b < 128
    → (bitmap_word words b >>= λ w. some (bit_of_word w (b % 64))) ≡ some (bitmap_bit words b)
word_bit words b small = elim (Bool-cases (ltb b 64)) [
  | inl low ↦ let same : b % 64 ≡ b = ground arith in rw (low, same) refl
  | inr high ↦
      let same : b % 64 ≡ b - 64 = ground arith in
      let inside : ltb b 128 ≡ true = ground arith in rw (high, inside, same) refl
]

module _ (t : SnapshotTable) (ht : IsTable t) where
  -- A step to `q` keeps the question for `a`, or shows that there is no way up.
  abbrev Keeps : ℕ → ℕ → ℕ → Type 0
  Keeps id a q = ((q ≡ 0) × (Ancestor t id a → ⊥)) ⊎ ((id < q) × (Ancestor t id a ↔ Ancestor t q a))

  no_parent : (id a : ℕ) → id ≢ a → snapshot_parent t id ≡ 0 → Ancestor t id a → ⊥
  no_parent id a ne root up = (of_parent t ht.chain ne up).0 root

  skip-Keeps : (id a q : ℕ) → IsSkip t id q → q ≤ a → Keeps id a q
  skip-Keeps id a q (higher, up) le =
      inr (higher, (λ there. between t ht.chain up there le, λ there. through t ht.chain up there))

  parent-Keeps : (id a : ℕ) → id ≢ a → Keeps id a (snapshot_parent t id)
  parent-Keeps id a ne = elim (ht.chain id) [
    | inl root ↦ inl (root, no_parent id a ne root)
    | inr higher ↦
        inr (higher, (λ up. (of_parent t ht.chain ne up).1, λ up. above (ground arith) up))
  ]

  parent_of : (id : ℕ) (e : SnapshotT) → snapshot_t t id ≡ some e → snapshot_parent t id ≡ e.parent
  unfolding snapshot_parent
  parent_of id e found = rw found refl

  parent_none : (id : ℕ) → snapshot_t t id ≡ none → snapshot_parent t id ≡ 0
  unfolding snapshot_parent
  parent_none id missing = rw missing refl

  choose :
      (id a : ℕ) (e : SnapshotT)
      → id < a
      → IsEntry t id e
      → snapshot_parent t id ≡ e.parent
      → e.parent ≢ 0
      → Keeps id a (
          if leb e.skip.2 a
          then e.skip.2
          else if leb e.skip.1 a
          then e.skip.1
          else if leb e.skip.0 a
          then e.skip.0
          else e.parent)
  choose id a e lt h same nz = elim (Bool-cases (leb e.skip.2 a)) [
    | inl two ↦ rw two (skip-Keeps id a e.skip.2 (h.skip_2 nz) (ground arith))
    | inr no_two ↦ rw no_two (elim (Bool-cases (leb e.skip.1 a)) [
      | inl one ↦ rw one (skip-Keeps id a e.skip.1 (h.skip_1 nz) (ground arith))
      | inr no_one ↦ rw no_one (elim (Bool-cases (leb e.skip.0 a)) [
        | inl first ↦ rw first (skip-Keeps id a e.skip.0 (h.skip_0 nz) (ground arith))
        | inr no_first ↦ rw (no_first, ← same) (parent-Keeps id a (omega arith))
      ])
    ])
  ]

  below-Keeps : (id a : ℕ) → id < a → Keeps id a (get_ancestor_below t id a)
  unfolding get_ancestor_below
  below-Keeps id a lt = elim (Option-cases (snapshot_t t id)) [
    | inl e ↦ rw e (inl (refl, no_parent id a (omega arith) (parent_none id e)))
    | inr (e, found) ↦
        let h = ht.entry id e found in
        let same = parent_of id e found in
        elim (Bool-cases (e.parent == 0)) [
          | inl root ↦
              let none_up : snapshot_parent t id ≡ 0 = ground arith in
              let zero_skip : e.skip.2 ≡ 0 =
                ap (λ (x : ℕ × ℕ × ℕ). x.2) {y = (0, 0, 0)} (h.root_skips (ground arith)) in
              rw (found, zero_skip) (inl (ground arith, no_parent id a (omega arith) none_up))
          | inr nz ↦ rw found (choose id a e lt h same (ground arith))
        ]
  ]

  skip_to-stops : (fuel a : ℕ) → 0 < fuel → skip_to fuel t 0 a ≡ some 0
  unfolding skip_to
  skip_to-stops zero a h = elim h [ ]
  skip_to-stops (suc fuel) a h = refl

  skip_to-reaches :
      (fuel id a : ℕ)
      → id ≢ 0
      → a < fuel + id
      → 0 < fuel
      → (reached : ℕ) × (skip_to fuel t id a ≡ some reached)
        × (((reached ≡ 0) × (Ancestor t id a → ⊥))
            ⊎ ((reached ≢ 0) × (a ≤ reached + 128) × (Ancestor t id a ↔ Ancestor t reached a)))
  unfolding skip_to
  skip_to-reaches zero id a nz enough pos = elim pos [ ]
  skip_to-reaches (suc fuel) id a nz enough pos = elim (Bool-cases (ltb id (a - 128))) [
    | inr near ↦ (id, rw near (ground arith), inr (nz, ground arith, (λ up. up, λ up. up)))
    | inl far ↦
        let ne : (id != 0) ≡ true = ground arith in
        let q = get_ancestor_below t id a in
        let lt : id + 128 < a = ground arith in
        elim (below-Keeps id a (omega arith)) [
          | inl (gone, never) ↦
              (0, rw (ne, far, gone) (skip_to-stops fuel a (omega arith)), inl (refl, never))
          | inr (higher, same) ↦
              let (reached, e, outcome) =
                skip_to-reaches fuel q a (omega arith) (omega arith) (omega arith) in
              (
                reached,
                rw (ne, far) e,
                elim outcome [
                  | inl (z, never) ↦ inl (z, λ up. never (same.0 up))
                  | inr (nz', near, same') ↦
                      inr (nz', near, (λ up. same'.0 (same.0 up), λ up. same.1 (same'.1 up)))
                ],
              )
        ]
  ]

  moved : {P : Type 0} (id a a' : ℕ) → a' ≡ a → P ↔ Ancestor t id a' → P ↔ Ancestor t id a
  moved id a a' e h = rw (← e) h

  -- The last step reads the bitmap, in which the ancestor's bit is one of the 128.
  last_step :
      (id a : ℕ) → id < a → a ≤ id + 128 → Decides (test_ancestor_bitmap t id a) (Ancestor t id a)
  unfolding test_ancestor_bitmap
  last_step id a lt near = elim (Option-cases (snapshot_t t id)) [
    | inl e ↦ (
      false,
      rw e refl,
      ((λ h. cc h), λ up. absurd (no_parent id a (omega arith) (parent_none id e) up)),
    )
    | inr (e, found) ↦
        let b = a - id - 1 in
        let small : b < 128 = omega arith in
        let there : id + 1 + b ≡ a = omega arith in
        let bit = (ht.entry id e found).bits b small in
        (
          bitmap_bit e.is_ancestor b,
          rw found (word_bit e.is_ancestor b small),
          moved id a (id + 1 + b) there bit,
        )
  ]

  abbrev Outcome : ℕ → ℕ → ℕ → Type 0
  Outcome id a reached =
      ((reached ≡ 0) × (Ancestor t id a → ⊥))
      ⊎ ((reached ≢ 0) × (a ≤ reached + 128) × (Ancestor t id a ↔ Ancestor t reached a))

  finish :
      (id a reached : ℕ)
      → a ≢ 0
      → Outcome id a reached
      → Decides
          (if (reached != 0) && ltb reached a
            then test_ancestor_bitmap t reached a
            else some (reached == a))
          (Ancestor t id a)
  finish id a reached az (inl (z, never)) =
      (false, rw z (ground arith), ((λ h. cc h), λ up. absurd (never up)))
  finish id a reached az (inr (nz, near, same)) =
      let ne : (reached != 0) ≡ true = ground arith in
      elim (Bool-cases (ltb reached a)) [
        | inl lt ↦
            let (b, e, decided) = last_step reached a (ground arith) near in
            (b, rw (ne, lt) e, ((λ h. same.1 (decided.0 h)), λ up. decided.1 (same.0 up)))
        | inr past ↦ (
          reached == a,
          rw (ne, past) refl,
          (
            λ h. same.1 (let e = (==_iff reached a).0 h in rw e itself),
            λ up. (let le = ancestor_le t ht.chain (same.0 up) in ground arith),
          ),
        )
      ]

  walk-Decides :
      (fuel id a : ℕ)
      → id ≢ 0
      → a ≢ 0
      → a < fuel + id
      → 0 < fuel
      → Decides (snapshot_is_ancestor_walk fuel t id a) (Ancestor t id a)
  unfolding snapshot_is_ancestor_walk
  walk-Decides fuel id a nz az enough pos = elim (Bool-cases (leb 128 a)) [
    | inl far ↦
        let (reached, e, outcome) = skip_to-reaches fuel id a nz enough pos in
        rw (far, e) (finish id a reached az outcome)
    | inr near ↦ rw near (finish id a id az (inr (nz, ground arith, (λ up. up, λ up. up))))
  ]

  -- On a well-formed table, and for ids that are not 0, the walk over the skip lists, with the bitmap for the last 128 ids,
  -- ends within the fuel, stays inside the bitmap, and decides whether the other id is the
  -- snapshot itself or an ancestor of it.
  pub is_ancestor-Decides :
      (fuel id a : ℕ)
      → id ≢ 0
      → a ≢ 0
      → a < fuel + id
      → 0 < fuel
      → Decides (snapshot_is_ancestor fuel t id a) (Ancestor t id a)
  unfolding snapshot_is_ancestor
  is_ancestor-Decides fuel id a nz az enough pos =
      let ids : (id == 0) ≡ false = ground arith in
      let ancestors : (a == 0) ≡ false = ground arith in
      elim (Bool-cases (id == a)) [
        | inl same ↦
            let e = (==_iff id a).0 same in
            (true, rw (ids, ancestors, same) refl, ((λ h. rw e itself), λ up. refl))
        | inr other ↦ rw (ids, ancestors, other) (walk-Decides fuel id a nz az enough pos)
      ]
