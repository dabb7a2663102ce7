-- ===== src/Snapshot/Idlist/Contents.antt =====
-- The ids that a list holds.
use subvol.Prelude.{
  ℕ, zero, suc, ◌+◌, ◌*◌, ◌%◌, ◌^◌, ◌≤◌, ◌<◌, ◌≡◌, ◌⊎◌, ◌↔◌, inl, inr, refl, ap, ◌∙◌, Bool, true,
  false, List, [], ◌∷◌, ◌++◌, length, set, ltb, leb, ◌==◌, arith, Bool-cases, ==_iff, length-set,
}
use subvol.Prelude.Int.{ℤ, pos}
use subvol.Prelude.Options.{next_power_of_two}
use subvol.Snapshot.Mark.{resize}
use subvol.Snapshot.Mark.Grow.{room, length-resize}
use subvol.Snapshot.Idlist.{
  SnapshotIdList, has_first, snapshot_list_has_id, enomem, grow_list, snapshot_list_add_nodup, push,
}

abbrev pub take : ℕ → List ℕ → List ℕ
take zero xs = []
take (suc n) [] = []
take (suc n) (x ∷ xs) = x ∷ take n xs

abbrev pub ids : SnapshotIdList → List ℕ
ids l = take l.nr l.data_

pub record IsIdlist (l : SnapshotIdList) : Type 0 where
  pub fits : l.nr ≤ l.size
  pub buffer : length l.data_ ≡ l.size
  pub small : l.size < 2 ^ 63

abbrev pub Occurs : ℕ → List ℕ → Type 0
Occurs id [] = ⊥
Occurs id (x ∷ xs) = (x ≡ id) ⊎ Occurs id xs

has_first_iff : (n : ℕ) (xs : List ℕ) (id : ℕ) → (has_first n xs id ≡ true) ↔ Occurs id (take n xs)
has_first_iff zero xs id = ((λ h. cc h), λ h. elim h [ ])
has_first_iff (suc n) [] id = ((λ h. cc h), λ h. elim h [ ])
has_first_iff (suc n) (x ∷ xs) id = elim (Bool-cases (x == id)) [
  | inl same ↦ rw same ((λ _. inl ((==_iff x id).0 same)), λ _. refl)
  | inr other ↦
      let (fore, back) = has_first_iff n xs id in
      rw other ((λ h. inr (fore h)), λ c. elim c [ inl e ↦ absurd (ground arith) | inr h ↦ back h ])
]

take-set :
    (xs : List ℕ) (n id : ℕ) → n < length xs → take (suc n) (set xs n id) ≡ take n xs ++ (id ∷ [])
take-set [] n id h = elim h [ ]
take-set (x ∷ xs) zero id h = refl
take-set (x ∷ xs) (suc n) id h = ap (λ (ys : List ℕ). x ∷ ys) (take-set xs n id (omega arith))

take-resize : (xs : List ℕ) (n m : ℕ) → n ≤ length xs → n ≤ m → take n (resize xs m 0) ≡ take n xs
take-resize xs zero m h le = refl
take-resize [] (suc n) m h le = elim h [ ]
take-resize (x ∷ xs) (suc n) zero h le = elim le [ ]
take-resize (x ∷ xs) (suc n) (suc m) h le =
    ap (λ (ys : List ℕ). x ∷ ys) (take-resize xs n m (omega arith) (omega arith))

-- The capacity that a full list asks for
abbrev pub wanted : SnapshotIdList → ℕ
wanted l = next_power_of_two (l.nr + 1)

-- What adding an id may do to a list, where `alloc` says which capacities the allocator grants.
-- The conditions exclude each other.
pub data Added (alloc : ℕ → Bool) (l : SnapshotIdList) (id : ℕ) : SnapshotIdList × ℤ → Type 0 where
  present : Occurs id (ids l) → Added alloc l id (l, pos 0)
  appended :
      (l' : SnapshotIdList)
      → (Occurs id (ids l) → ⊥)
      → l.nr < l.size
      → ids l' ≡ ids l ++ (id ∷ [])
      → l'.size ≡ l.size
      → IsIdlist l'
      → Added alloc l id (l', pos 0)
  grown :
      (l' : SnapshotIdList)
      → (Occurs id (ids l) → ⊥)
      → l.nr ≡ l.size
      → wanted l < 2 ^ 64
      → wanted l * 4 < 2 ^ 63
      → alloc (wanted l) ≡ true
      → ids l' ≡ ids l ++ (id ∷ [])
      → l'.size ≡ wanted l
      → IsIdlist l'
      → Added alloc l id (l', pos 0)
  no_memory :
      (Occurs id (ids l) → ⊥)
      → l.nr ≡ l.size
      → (2 ^ 64 ≤ wanted l) ⊎ (2 ^ 63 ≤ wanted l * 4) ⊎ (alloc (wanted l) ≡ false)
      → Added alloc l id (l, enomem)

module _ (alloc : ℕ → Bool) where
  -- A list with a free place takes the id at its end.
  push_lem :
      (l m : SnapshotIdList) (id : ℕ)
      → IsIdlist m
      → m.nr < m.size
      → ids m ≡ ids l
      → (ids (push alloc m id).0 ≡ ids l ++ (id ∷ [])) × IsIdlist (push alloc m id).0
  push_lem l m id h free same =
      let e : m.nr + 1 ≡ suc m.nr = omega arith in
      (
        ap (λ (n : ℕ). take n (set m.data_ m.nr id)) e
            ∙ take-set m.data_ m.nr id (omega (arith, h.buffer))
            ∙ ap (λ (ys : List ℕ). ys ++ (id ∷ [])) same,
        record {
          fits = omega arith;
          buffer = length-set m.data_ m.nr id ∙ h.buffer;
          small = h.small;
        },
      )

  -- Adding an id to a valid list is one of four. The list holds the id: it is left as it is, with
  -- result 0. It does not, and its buffer has a free place: the id is behind its ids, in the same
  -- buffer, with result 0. It does not, its buffer is full, and the next power of two above its
  -- number of ids is a capacity that can be asked for and that the allocator grants: the buffer
  -- gets that capacity, and the id is behind the ids, with result 0. It does not, its buffer is
  -- full, and that capacity is out of range (2^64, or 2^63 bytes and more at 4 bytes for an id) or
  -- refused by the allocator: the list is left as it is, with -12. The list is valid after each.
  pub add_nodup-Added :
      (l : SnapshotIdList) (id : ℕ)
      → IsIdlist l
      → Added alloc l id (snapshot_list_add_nodup alloc l id)
  unfolding snapshot_list_add_nodup snapshot_list_has_id grow_list
  add_nodup-Added l id h = elim (Bool-cases (has_first l.nr l.data_ id)) [
    | inl here ↦ rw here (present ((has_first_iff l.nr l.data_ id).0 here))
    | inr missing ↦
        let new : Occurs id (ids l) → ⊥ =
          λ o. (let there = (has_first_iff l.nr l.data_ id).1 o in cc) in
        let e : (l.nr + 1) % 2 ^ 64 ≡ l.nr + 1 = omega (arith, h.fits, h.small) in
        let capacity = next_power_of_two (l.nr + 1) in
        elim (Bool-cases (ltb l.size (l.nr + 1))) [
          | inr free ↦
              let more : l.nr < l.size = ground (arith, h.fits) in
              let (behind, valid) = push_lem l l id h more refl in
              rw (missing, e, free) (appended _ new more behind refl valid)
          | inl full ↦
              let at_end : l.nr ≡ l.size = ground (arith, h.fits) in
              elim (Bool-cases (leb (2 ^ 64) capacity)) [
                | inl huge ↦ rw (missing, e, full, huge) (no_memory new at_end (inl (ground arith)))
                | inr not_huge ↦ elim (Bool-cases (leb (2 ^ 63) (capacity * 4))) [
                  | inl long ↦
                      rw (missing, e, full, not_huge, long)
                        (no_memory new at_end (inr (inl (ground arith))))
                  | inr not_long ↦ elim (Bool-cases (alloc capacity)) [
                    | inr refused ↦
                        rw (missing, e, full, not_huge, not_long, refused)
                          (no_memory new at_end (inr (inr refused)))
                    | inl given ↦
                        let m : SnapshotIdList = record l {
                          data_ = resize l.data_ capacity 0;
                          size = capacity;
                        } in
                        let more = room l.nr (omega (arith, h.fits, h.small)) in
                        let (behind, valid) =
                          push_lem l m id
                            (record {
                              fits = omega arith;
                              buffer = length-resize l.data_ capacity 0;
                              small = ground arith;
                            })
                            more
                            (take-resize l.data_ l.nr capacity (omega (arith, h.fits, h.buffer))
                              (omega arith)) in
                        rw (missing, e, full, not_huge, not_long, given)
                          (grown _ new at_end (ground arith) (ground arith) given behind refl valid)
                  ]
                ]
              ]
        ]
  ]
