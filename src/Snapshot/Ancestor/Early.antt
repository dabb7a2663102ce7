-- ===== src/Snapshot/Ancestor/Early.antt =====
-- The walk over the parents decides the ancestors.
use subvol.Prelude.{
  ℕ, zero, suc, ◌+◌, ◌≤◌, ◌<◌, ◌≡◌, ◌≢◌, ◌↔◌, ◌⊎◌, inl, inr, refl, sym, Bool, true, false, Option,
  some, ltb, ◌==◌, ◌!=◌, arith, Bool-cases, ==_iff,
}
use subvol.Snapshot.Table.{SnapshotTable, snapshot_parent}
use subvol.Snapshot.Walk.{walk_to, snapshot_is_ancestor_early}
use subvol.Snapshot.Ancestor.{Ancestor, itself, above, IsChain, ancestor_le, of_parent}

-- A result that decides the proposition.
abbrev pub Decides : Option Bool → Type 0 → Type 0
Decides result P = (b : Bool) × (result ≡ some b) × ((b ≡ true) ↔ P)

-- At id 0 and at `a` and past it, the walk stops.
walk_to-stops :
    (t : SnapshotTable) (fuel id a : ℕ)
    → (id ≡ 0) ⊎ (a ≤ id)
    → 0 < fuel
    → walk_to fuel t id a ≡ some id
unfolding walk_to
walk_to-stops t zero id a stop h = elim h [ ]
walk_to-stops t (suc fuel) id a (inl e) h = rw e refl
walk_to-stops t (suc fuel) id a (inr past) h =
    let test : ltb id a ≡ false = ground arith in rw test (ground arith)

walk_to-reaches :
    (t : SnapshotTable) (chain : IsChain t) (fuel id a : ℕ)
    → id ≢ 0
    → a ≢ 0
    → a < fuel + id
    → 0 < fuel
    → (reached : ℕ) × (walk_to fuel t id a ≡ some reached) × ((reached ≡ a) ↔ Ancestor t id a)
unfolding walk_to
walk_to-reaches t chain zero id a nz az enough pos = elim pos [ ]
walk_to-reaches t chain (suc fuel) id a nz az enough pos = elim (Bool-cases (ltb id a)) [
  | inr past ↦ (
    id,
    rw past (ground arith),
    (λ e. rw e itself, λ up. (let le = ancestor_le t chain up in ground arith)),
  )
  | inl below ↦
      let ne : (id != 0) ≡ true = ground arith in
      let other : id ≢ a = ground arith in
      elim (chain id) [
        | inl root ↦ (
          0,
          rw (ne, below, root) (walk_to-stops t fuel 0 a (inl refl) (ground arith)),
          (λ e. absurd (az (sym e)), λ up. absurd ((of_parent t chain other up).0 root)),
        )
        | inr higher ↦
            let nz' : snapshot_parent t id ≢ 0 = ground arith in
            let (reached, e, same) =
              walk_to-reaches t chain fuel (snapshot_parent t id) a nz' az (omega arith)
                (ground arith) in
            (
              reached,
              rw (ne, below) e,
              (λ h. above nz' (same.0 h), λ up. same.1 (of_parent t chain other up).1),
            )
      ]
]

-- On a table whose parents have greater ids, and for ids that are not 0, the walk from a snapshot over its parents ends within
-- the fuel and decides whether the other id is the snapshot itself or an ancestor of it.
pub is_ancestor_early-Decides :
    (t : SnapshotTable) (fuel id a : ℕ)
    → IsChain t
    → id ≢ 0
    → a ≢ 0
    → a < fuel + id
    → 0 < fuel
    → Decides (snapshot_is_ancestor_early fuel t id a) (Ancestor t id a)
unfolding snapshot_is_ancestor_early
is_ancestor_early-Decides t fuel id a chain nz az enough pos =
    let (reached, e, same) = walk_to-reaches t chain fuel id a nz az enough pos in
    (
      reached == a,
      rw e refl,
      (λ h. same.0 ((==_iff reached a).0 h), λ up. (==_iff reached a).1 (same.1 up)),
    )
