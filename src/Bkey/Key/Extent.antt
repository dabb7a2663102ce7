-- ===== src/Bkey/Key/Extent.antt =====
-- What merging and overlap mean for the ranges of offsets that two keys cover.
use subvol.Prelude.{
  ℕ, ◌+◌, ◌-◌, ◌^◌, ◌≤◌, ◌<◌, ◌≡◌, ◌⊎◌, ◌↔◌, inl, inr, refl, ap, ◌∙◌, true, false, Bool-cases, leb,
  ◌==◌, ◌%◌, ◌!=◌, subst, ==_iff, ==→ne, Option, Bool, some, arith,
}
use subvol.Bkey.Pos.{bpos_lt, bpos_gt, spos}
use subvol.Bkey.Pos.Value.{xor_or_eq}
use subvol.Bkey.Key.{
  Bkey, IsBkey, BchReservation, bkey_start_offset, bkey_start_pos, bch2_key_resize, bkey_merge_keys,
  bch2_reservation_merge, bch2_bkey_merge, bch2_bkey_maybe_mergable, BchExtentOverlap,
  bch2_extent_overlap, key_type_reservation, key_type_set,
}

-- A key that ends at `p.offset` and starts no earlier than offset 0.
pub record IsExtent (k : Bkey) : Type 0 where
  pub valid : IsBkey k
  pub open valid use *
  pub above_zero : k.size ≤ k.p.offset

pub start-IsExtent : (k : Bkey) → IsExtent k → bkey_start_offset k + k.size ≡ k.p.offset
unfolding bkey_start_offset
start-IsExtent k h = omega (arith, h.valid.size_fits, h.valid.p_fits.offset_fits)

-- Resizing keeps the start of an extent, as long as the new end fits.
pub start-resize :
    (k : Bkey) (n : ℕ)
    → IsExtent k
    → bkey_start_offset k + n < 2 ^ 64
    → (bkey_start_offset (bch2_key_resize k n) ≡ bkey_start_offset k)
      × ((bch2_key_resize k n).p.offset ≡ bkey_start_offset k + n)
unfolding bkey_start_offset bch2_key_resize
start-resize k n h room =
    (omega (arith, h.valid.p_fits.offset_fits), omega (arith, h.valid.p_fits.offset_fits))

mergable_iff :
    (l r : Bkey)
    → IsExtent r
    → (bch2_bkey_maybe_mergable l r ≡ true) ↔ (
        (l.type_ ≡ r.type_)
        × (l.bversion.hi ≡ r.bversion.hi)
        × (l.bversion.lo ≡ r.bversion.lo)
        × (l.p.inode ≡ r.p.inode)
        × (l.p.offset + r.size ≡ r.p.offset))
unfolding bch2_bkey_maybe_mergable
mergable_iff l r h =
    let meets = start-IsExtent r h in
    let same = xor_or_eq l.p.inode r.p.inode l.p.offset (bkey_start_offset r) in
    (
      λ e. ground (arith, same),
      λ (type_, hi, lo, inode, offset).
          let zero_ = same.1 (inode, omega arith) in ground (arith, zero_),
    )

-- A key of type `set`, or a reservation whose value equals that of the other
abbrev pub HasEqualValues : Bkey → (l_v r_v : BchReservation) → Type 0
HasEqualValues l l_v r_v =
    ((l.type_ ≡ key_type_reservation)
      × (l_v.generation ≡ r_v.generation)
      × (l_v.nr_replicas ≡ r_v.nr_replicas))
    ⊎ (l.type_ ≡ key_type_set)

-- When two extents may be merged
abbrev pub Mergable : (l r : Bkey) (l_v r_v : BchReservation) → Type 0
Mergable l r l_v r_v =
    (l.type_ ≡ r.type_)
    × (l.bversion.hi ≡ r.bversion.hi)
    × (l.bversion.lo ≡ r.bversion.lo)
    × (l.p.inode ≡ r.p.inode)
    × (l.p.offset + r.size ≡ r.p.offset)
    × (l.size + r.size < 2 ^ 32)
    × HasEqualValues l l_v r_v

resized :
    (l r : Bkey)
    → IsExtent l
    → IsExtent r
    → l.p.offset + r.size ≡ r.p.offset
    → (bch2_key_resize l (l.size + r.size)
        ≡ record l { p = spos l.p.inode r.p.offset l.p.snapshot; size = l.size + r.size })
      × (bkey_start_offset
            (record l { p = spos l.p.inode r.p.offset l.p.snapshot; size = l.size + r.size })
          ≡ bkey_start_offset l)
unfolding bch2_key_resize bkey_start_offset
resized l r hl hr meets =
    let (same, end) =
      start-resize l (l.size + r.size) hl
        (omega (arith, start-IsExtent l hl, hr.valid.p_fits.offset_fits)) in
    let end' : (bch2_key_resize l (l.size + r.size)).p.offset ≡ r.p.offset =
      omega (arith, start-IsExtent l hl, end) in
    (
      ap (λ (o : ℕ). record l { p = spos l.p.inode o l.p.snapshot; size = l.size + r.size }) end',
      subst (λ (o : ℕ). (o + 2 ^ 64 - (l.size + r.size)) % 2 ^ 64 ≡ bkey_start_offset l) end' same,
    )

-- What a merge of two extents gives, the left key afterwards included
abbrev pub Outcome : (l r : Bkey) (l_v r_v : BchReservation) → Type 0
Outcome l r l_v r_v =
    let k : Bkey = record l {
      p = spos l.p.inode r.p.offset l.p.snapshot;
      size = l.size + r.size;
    } in
    (Mergable l r l_v r_v
      × (bch2_bkey_merge (some l) (some r) l_v r_v ≡ (true, some k))
      × (bkey_start_offset k ≡ bkey_start_offset l))
    ⊎ ((Mergable l r l_v r_v → ⊥) × (bch2_bkey_merge (some l) (some r) l_v r_v ≡ (false, some l)))

differs_not : (a b : ℕ) → (a == b) ≡ true → (a != b) ≡ false
differs_not a b same = ground (arith, same)

differs : (a b : ℕ) → (a == b) ≡ false → (a != b) ≡ true
differs a b other = ground (arith, other)

reservation_cases :
    (l r : Bkey) (l_v r_v : BchReservation)
    → l.size + r.size < 2 ^ 32
    → ((l_v.generation ≡ r_v.generation)
        × (l_v.nr_replicas ≡ r_v.nr_replicas)
        × (bch2_reservation_merge l r l_v r_v ≡ (true, bch2_key_resize l (l.size + r.size))))
      ⊎ ((l_v.generation ≡ r_v.generation → l_v.nr_replicas ≡ r_v.nr_replicas → ⊥)
          × (bch2_reservation_merge l r l_v r_v ≡ (false, l)))
unfolding bch2_reservation_merge
reservation_cases l r l_v r_v small =
    let e : (l.size + r.size) % 2 ^ 32 ≡ l.size + r.size = omega (arith, small) in
    elim (Bool-cases (l_v.generation == r_v.generation)) [
      | inr other ↦
          inr ((λ g n. ==→ne _ _ other g), rw (bch2_reservation_merge, differs _ _ other) refl)
      | inl gen ↦ elim (Bool-cases (l_v.nr_replicas == r_v.nr_replicas)) [
        | inr other ↦ inr (
          (λ g n. ==→ne _ _ other n),
          rw (bch2_reservation_merge, differs_not _ _ gen, differs _ _ other) refl,
        )
        | inl nr ↦ inl (
          (==_iff _ _).0 gen,
          (==_iff _ _).0 nr,
          rw (bch2_reservation_merge, differs_not _ _ gen, differs_not _ _ nr, e) refl,
        )
      ]
    ]

-- After the test of the two positions
merge_keys_cases :
    (l r : Bkey) (l_v r_v : BchReservation)
    → bch2_bkey_maybe_mergable l r ≡ true
    → ((l.size + r.size < 2 ^ 32)
        × HasEqualValues l l_v r_v
        × (bkey_merge_keys l r l_v r_v ≡ (true, bch2_key_resize l (l.size + r.size))))
      ⊎ ((l.size + r.size < 2 ^ 32 → HasEqualValues l l_v r_v → ⊥)
          × (bkey_merge_keys l r l_v r_v ≡ (false, l)))
unfolding bkey_merge_keys
merge_keys_cases l r l_v r_v joined =
    let size = l.size + r.size in
    elim (Bool-cases (leb (2 ^ 32) size)) [
      | inl big ↦ inr ((λ small. absurd (ground (arith, big))), rw (joined, big) refl)
      | inr small ↦
          let lt : size < 2 ^ 32 = ground (arith, small) in
          elim (Bool-cases (l.type_ == key_type_reservation)) [
            | inl reserved ↦
                let t : l.type_ ≡ 7 = (==_iff _ _).0 reserved in
                let e : bkey_merge_keys l r l_v r_v ≡ bch2_reservation_merge l r l_v r_v =
                  rw (bkey_merge_keys, joined, small, reserved) refl in
                elim (reservation_cases l r l_v r_v lt) [
                  | inl (gen, nr, same) ↦ inl (lt, inl (t, gen, nr), e ∙ same)
                  | inr (never, same) ↦ inr (
                    (λ _ v. elim v [ inl v ↦ never v.1 v.2 | inr v ↦ absurd (omega (arith, v)) ]),
                    e ∙ same,
                  )
                ]
            | inr other ↦ elim (Bool-cases (l.type_ == key_type_set)) [
              | inl is_set ↦ inl (
                lt,
                inr ((==_iff _ _).0 is_set),
                rw (joined, small, other, differs_not _ _ is_set) refl,
              )
              | inr neither ↦ inr (
                (λ _ v. elim v [ inl v ↦ ==→ne _ _ other v.0 | inr v ↦ ==→ne _ _ neither v ]),
                rw (joined, small, other, differs _ _ neither) refl,
              )
            ]
          ]
    ]

-- A merge of two valid extents succeeds exactly when they have the same type and version, the left
-- one ends where the right one starts, in the same inode but in any snapshots, their sizes add up
-- to less than 2^32, and they are of type set, or of type reservation with equal values; else it
-- returns false and leaves the left key as it was. When it succeeds, the left key has the sum of
-- the sizes and the right one's offset, and starts where it started; its inode, its snapshot, which
-- need not be the right one's, and all else stay.
pub merge-covers :
    (l r : Bkey) (l_v r_v : BchReservation) → IsExtent l → IsExtent r → Outcome l r l_v r_v
unfolding bch2_bkey_merge bkey_merge_keys bch2_reservation_merge
merge-covers l r l_v r_v hl hr =
    let ready = mergable_iff l r hr in
    let left : Bool × Bkey → Bool × Option Bkey = λ (s : Bool × Bkey). (s.0, some s.1) in
    elim (Bool-cases (bch2_bkey_maybe_mergable l r)) [
      | inr apart ↦
          let e : bkey_merge_keys l r l_v r_v ≡ (false, l) = rw (bkey_merge_keys, apart) refl in
          inr (λ m. absurd (let e = ready.1 (m.0, m.1, m.2, m.3, m.4) in cc), ap left e)
      | inl joined ↦
          let (type_, hi, lo, inode, meets) = ready.0 joined in
          elim (merge_keys_cases l r l_v r_v joined) [
            | inl (small, v, e) ↦
                let (end, start) = resized l r hl hr meets in
                inl (
                  (type_, hi, lo, inode, meets, small, v),
                  ap left e ∙ ap (λ (k : Bkey). left (true, k)) end,
                  start,
                )
            | inr (never, e) ↦ inr (λ m. never m.5 m.6, ap left e)
          ]
    ]

-- For two extents of one inode and snapshot the overlap says how the key covers the other: all of
-- it, its back, its front, or a middle part that leaves both ends.
pub extent_overlap_iff :
    (k m : Bkey)
    → IsExtent k
    → IsExtent m
    → k.p.inode ≡ m.p.inode
    → k.p.snapshot ≡ m.p.snapshot
    → let k_first = k.p.offset - k.size in
      let m_first = m.p.offset - m.size in
      ((bch2_extent_overlap k m ≡ BchExtentOverlap.all)
        ↔ ((k_first ≤ m_first) × (m.p.offset ≤ k.p.offset)))
      × ((bch2_extent_overlap k m ≡ BchExtentOverlap.back)
          ↔ ((m_first < k_first) × (m.p.offset ≤ k.p.offset)))
      × ((bch2_extent_overlap k m ≡ BchExtentOverlap.front)
          ↔ ((k_first ≤ m_first) × (k.p.offset < m.p.offset)))
      × ((bch2_extent_overlap k m ≡ BchExtentOverlap.middle)
          ↔ ((m_first < k_first) × (k.p.offset < m.p.offset)))
unfolding bch2_extent_overlap bpos_gt bpos_lt bkey_start_pos
extent_overlap_iff k m hk hm i s =
    let k_start = start-IsExtent k hk in
    let m_start = start-IsExtent m hm in (ground arith, ground arith, ground arith, ground arith)
