-- ===== src/Snapshot/Mark/Entry.antt =====
-- A committed snapshot key keeps the table well formed.
use subvol.Prelude.{
  ℕ, ◌+◌, ◌-◌, ◌*◌, ◌%◌, ◌^◌, ◌≤◌, ◌<◌, ◌≡◌, ◌≢◌, ◌↔◌, ◌⊎◌, inl, inr, refl, sym, ◌∙◌, ap, true,
  none, some, length, set, bit_and, ltb, ◌==◌, ◌!=◌, arith, Bool-cases, ==_iff, length-set,
}
use subvol.Bkey.Key.{Bkey}
use subvol.Snapshot.Table.{
  SnapshotT, SnapshotTable, default_entry, index_of, snapshot_t, snapshot_parent,
}
use subvol.Snapshot.Ancestor.{
  Ancestor, above, IsChain, IsTable, IsEntry, IsSkip, bitmap_bit, ancestor_le, of_parent,
}
use subvol.Snapshot.Mark.{
  BchSnapshot, key_type_snapshot, depth_offset, will_delete, grow, entry_of, put_entry,
  mark_snapshot,
}
use subvol.Snapshot.Mark.Grow.{HasRoom, Grown, grow-Grown, look-put_self, look-put_ne}
use subvol.Snapshot.Mark.Bitmap.{mark_bits-Above}
use subvol.Snapshot.Mark.Kept.{climb, back, IsEntry-kept, IsEntry-default, clear_bit}

abbrev pub key_id : Bkey → ℕ
key_id k = k.p.offset % 2 ^ 32

-- A key of a snapshot that no other one has as its parent: the parent, if it has one, has a
-- greater id, and the skips are ancestors of the parent, or 0 for a root. The key is long enough
-- to hold the depth and the skips.
pub record IsSnapshotKey (t : SnapshotTable) (k : Bkey) (s : BchSnapshot) : Type 0 where
  pub type_snapshot : k.type_ ≡ key_type_snapshot
  pub long : depth_offset < (k.u64s - 5) * 8
  pub higher : (s.parent ≡ 0) ⊎ (key_id k < s.parent)
  pub root_skips : s.parent ≡ 0 → s.skip ≡ (0, 0, 0)
  pub skip_0 : s.parent ≢ 0 → Ancestor t s.parent s.skip.0
  pub skip_1 : s.parent ≢ 0 → Ancestor t s.parent s.skip.1
  pub skip_2 : s.parent ≢ 0 → Ancestor t s.parent s.skip.2
  pub childless : (j : ℕ) → snapshot_parent t j ≢ key_id k

from : {T : SnapshotTable} {p q a : ℕ} → p ≡ q → Ancestor T p a → Ancestor T q a
from e up = rw (← e) up

to_skip : {T : SnapshotTable} {i a b : ℕ} → a ≡ b → IsSkip T i b → IsSkip T i a
to_skip e skip = rw e skip

some_injective : {x y : SnapshotT} → some x ≡ some y → x ≡ y
some_injective e = cc e

missing_parent : (t : SnapshotTable) (j : ℕ) → snapshot_t t j ≡ none → snapshot_parent t j ≡ 0
unfolding snapshot_parent
missing_parent t j missing = rw missing refl

module _ (t : SnapshotTable) (k : Bkey) (s : BchSnapshot) (ht : IsTable t) (hr : HasRoom t)
    (hk : IsSnapshotKey t k s) where
  abbrev id : ℕ
  id = key_id k

  abbrev g : SnapshotTable
  g = grow t (index_of id)

  abbrev entry : ℕ × ℕ → SnapshotT
  entry words = record (entry_of k s) { is_ancestor = words }

  abbrev t' : ℕ × ℕ → SnapshotTable
  t' words = record g { s = set g.s (index_of id) (entry words) }

  small : id < 2 ^ 32
  small = omega arith

  grown : (index_of id < length g.s) × HasRoom g × Grown t g
  grown = grow-Grown t (index_of id) hr (omega arith)

  g_parent : (j : ℕ) → snapshot_parent g j ≡ snapshot_parent t j
  unfolding snapshot_parent
  g_parent j = elim (grown.2 j) [
    | inl e ↦ rw e refl
    | inr (missing, made) ↦ rw (missing, made) refl
  ]

  g-IsChain : IsChain g
  g-IsChain j = rw (g_parent j) (ht.chain j)

  self_parent : (words : ℕ × ℕ) → snapshot_parent (t' words) id ≡ s.parent
  unfolding snapshot_parent entry_of
  self_parent words = rw (look-put_self g id (entry words) grown.1 small grown.0) refl

  kept_parent :
      (words : ℕ × ℕ) (j : ℕ) → j ≢ id → snapshot_parent (t' words) j ≡ snapshot_parent g j
  unfolding snapshot_parent
  kept_parent words j ne = rw (look-put_ne g id j (entry words) small (λ e. ne (sym e))) refl

  other_parent :
      (words : ℕ × ℕ) (j : ℕ) → j ≢ id → snapshot_parent (t' words) j ≡ snapshot_parent t j
  other_parent words j ne = kept_parent words j ne ∙ g_parent j

  t'-IsChain : (words : ℕ × ℕ) → IsChain (t' words)
  t'-IsChain words j = elim (Bool-cases (j == id)) [
    | inl same ↦ rw ((==_iff j id).0 same, self_parent words) hk.higher
    | inr other ↦ rw (other_parent words j (ground arith)) (ht.chain j)
  ]

  -- The entries of the other snapshots.
  others :
      (words : ℕ × ℕ) (j : ℕ) (e : SnapshotT)
      → j ≢ id
      → snapshot_t (t' words) j ≡ some e
      → IsEntry (t' words) j e
  others words j e ne found =
      let in_g : snapshot_t g j ≡ some e =
        sym (look-put_ne g id j (entry words) small (λ same. ne (sym same))) ∙ found in
      elim (grown.2 j) [
        | inl kept ↦
            IsEntry-kept t (t' words) id (other_parent words) hk.childless j e ne
              (ht.entry j e (sym kept ∙ in_g))
        | inr (missing, made) ↦
            let default : default_entry ≡ e = some_injective (sym made ∙ in_g) in
            rw (← default)
              (IsEntry-default (t' words) j (other_parent words j ne ∙ missing_parent t j missing))
      ]

  -- The new entry, with the bits that the loop over the parents made.
  module _ (words : ℕ × ℕ)
      (bits : (b : ℕ)
        → b < 128
        → (bitmap_bit words b ≡ true) ↔ (
            (bitmap_bit (0, 0) b ≡ true)
            ⊎ ((s.parent ≢ 0) × Ancestor g s.parent (id + 1 + b)))) where
    apart : s.parent ≢ 0 → s.parent ≢ id
    apart nz = elim hk.higher [ inl z ↦ absurd (nz z) | inr h ↦ omega arith ]

    lift : {a : ℕ} → s.parent ≢ 0 → Ancestor t s.parent a → Ancestor (t' words) id a
    lift nz up =
        above (λ z. nz (sym (self_parent words) ∙ z))
          (rw (self_parent words)
            (climb t (t' words) id (other_parent words) hk.childless (apart nz) up))

    lift_skip : {a : ℕ} → s.parent ≢ 0 → Ancestor t s.parent a → (id < a) × Ancestor (t' words) id a
    lift_skip nz up = (
      elim hk.higher [
        | inl z ↦ absurd (nz z)
        | inr h ↦ (let le = ancestor_le t ht.chain up in omega arith)
      ],
      lift nz up,
    )

    bits_ok : (b : ℕ) → b < 128 → (bitmap_bit words b ≡ true) ↔ Ancestor (t' words) id (id + 1 + b)
    bits_ok b lt = (
      λ set. elim ((bits b lt).0 set) [
        | inl clear ↦ absurd (let never = clear_bit b in cc)
        | inr (nz, up) ↦ lift nz (back t g id (λ j _. g_parent j) hk.childless (apart nz) up)
      ],
      λ up.
          let (nz, over) = of_parent (t' words) (t'-IsChain words) (omega arith) up in
          let has : s.parent ≢ 0 = λ z. nz (self_parent words ∙ z) in
          let from_parent : Ancestor (t' words) s.parent (id + 1 + b) =
            from (self_parent words) over in
          let before =
            back t (t' words) id (other_parent words) hk.childless (apart has) from_parent in
          (bits b lt).1
            (inr (has, climb t g id (λ j _. g_parent j) hk.childless (apart has) before)),
    )

    new_skip : (entry words).skip ≡ s.skip
    unfolding entry_of
    new_skip = let full : ltb 24 ((k.u64s - 5) * 8) ≡ true = ground (arith, hk.long) in rw full refl

    new-IsEntry : IsEntry (t' words) id (entry words)
    unfolding entry_of
    new-IsEntry = record {
      root_skips = λ z. new_skip ∙ hk.root_skips z;
      skip_0 = λ nz. to_skip (ap (λ (x : ℕ × ℕ × ℕ). x.0) new_skip) (lift_skip nz (hk.skip_0 nz));
      skip_1 = λ nz. to_skip (ap (λ (x : ℕ × ℕ × ℕ). x.1) new_skip) (lift_skip nz (hk.skip_1 nz));
      skip_2 = λ nz. to_skip (ap (λ (x : ℕ × ℕ × ℕ). x.2) new_skip) (lift_skip nz (hk.skip_2 nz));
      bits = bits_ok;
    }

    at_id :
        (j : ℕ) (e : SnapshotT) → j ≡ id → snapshot_t (t' words) j ≡ some e → IsEntry (t' words) j e
    at_id j e here found =
        let same : entry words ≡ e = some_injective (
          sym (look-put_self g id (entry words) grown.1 small grown.0)
          ∙ sym (ap (snapshot_t (t' words)) here)
          ∙ found) in
        rw (here, ← same) new-IsEntry

    pub t'-IsTable : IsTable (t' words)
    t'-IsTable = record {
      chain = t'-IsChain words;
      entry = λ j e found. elim (Bool-cases (j == id)) [
        | inr other ↦ others words j e (ground arith) found
        | inl same ↦ at_id j e ((==_iff j id).0 same) found
      ];
    }

  -- Committing the key of a snapshot that is no other's parent, whose value is long enough to hold
  -- the depth and the skips, whose parent, if it has one, has a greater id, and whose skips are
  -- ancestors of that parent, or 0 without one, succeeds on fuel 129 and more, on a well-formed
  -- table with room for the key's id. The table stays well formed, with room: the bitmap of the new
  -- entry is right and those of the others still are; the snapshot gets its parent and all others
  -- keep theirs; and the result says whether the key asks for dead snapshots to be deleted.
  pub mark_snapshot-IsTable :
      (fuel : ℕ)
      → 129 ≤ fuel
      → (made : SnapshotTable) × (mark_snapshot fuel t k s
          ≡ some (made, bit_and s.flags will_delete != 0))
        × IsTable made
        × HasRoom made
        × (snapshot_parent made (key_id k) ≡ s.parent)
        × ((j : ℕ) → j ≢ key_id k → snapshot_parent made j ≡ snapshot_parent t j)
  unfolding mark_snapshot put_entry entry_of
  mark_snapshot-IsTable fuel enough =
      let start : (s.parent ≡ 0) ⊎ ((id < s.parent) × (id + 130 ≤ fuel + s.parent)) =
        elim hk.higher [ inl z ↦ inl z | inr h ↦ inr (h, omega arith) ] in
      let (words, done, bits) =
        mark_bits-Above g g-IsChain id fuel s.parent (0, 0) (omega arith) start in
      let type_ok : (k.type_ == 22) ≡ true = ground (arith, hk.type_snapshot) in
      let inside : ltb (index_of id) (length g.s) ≡ true = ground (arith, grown.0) in
      (
        t' words,
        rw (type_ok, done, inside) refl,
        t'-IsTable words bits,
        grown.1 ∙ sym (length-set g.s (index_of id) (entry words)),
        self_parent words,
        other_parent words,
      )
