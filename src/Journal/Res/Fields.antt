-- ===== src/Journal/Res/Fields.antt =====
-- The fields of the state word.
use subvol.Prelude.{
  ℕ, zero, suc, ◌+◌, ◌-◌, ◌*◌, ◌/◌, ◌^◌, ◌<◌, ◌≡◌, ◌≢◌, ◌⊎◌, inl, inr, refl, none, some, ◌==◌,
  arith, Bool-cases, ==_iff, ==→ne,
}
use subvol.Prelude.Bits.{bit_or_disjoint}
use subvol.Journal.Res.{
  journal_state_offset, journal_state_idx, journal_state_count, journal_state_set_offset,
  journal_state_inc, journal_state_dec,
}

below4 : (P : ℕ → Type 0) → P 0 → P 1 → P 2 → P 3 → (i : ℕ) → i < 4 → P i
below4 P p0 p1 p2 p3 zero h = p0
below4 P p0 p1 p2 p3 (suc zero) h = p1
below4 P p0 p1 p2 p3 (suc (suc zero)) h = p2
below4 P p0 p1 p2 p3 (suc (suc (suc zero))) h = p3
below4 P p0 p1 p2 p3 (suc (suc (suc (suc i)))) h = absurd (omega arith)

-- Two state words that differ in the offset alone
abbrev pub SameCounts : ℕ → ℕ → Type 0
SameCounts v v' =
    (journal_state_idx v' ≡ journal_state_idx v)
    × ((i : ℕ) → i < 4 → journal_state_count v' i ≡ journal_state_count v i)

pub set_offset_lem :
    (v offset : ℕ)
    → offset < 2 ^ 22
    → (journal_state_offset (journal_state_set_offset v offset) ≡ offset)
      × SameCounts v (journal_state_set_offset v offset)
unfolding journal_state_set_offset journal_state_offset journal_state_idx journal_state_count
set_offset_lem v offset h =
    let sum = bit_or_disjoint 22 (v / 2 ^ 22) offset h in
    rw sum
      (omega arith, (omega arith, below4 _ (omega arith) (omega arith) (omega arith) (omega arith)))

-- The word with the count of one buffer changed
abbrev pub Recounted : (v idx count v' : ℕ) → Type 0
Recounted v idx count v' =
    (journal_state_offset v' ≡ journal_state_offset v)
    × (journal_state_idx v' ≡ journal_state_idx v)
    × (journal_state_count v' idx ≡ count)
    × ((i : ℕ) → i < 4 → i ≢ idx → journal_state_count v' i ≡ journal_state_count v i)

pub inc_count :
    (v idx : ℕ)
    → idx < 4
    → journal_state_count v idx ≢ 0x3ff
    → Recounted v idx (journal_state_count v idx + 1) (v + 2 ^ (24 + idx * 10))
unfolding journal_state_offset journal_state_idx journal_state_count
inc_count v idx h =
    below4
      (λ idx.
        journal_state_count v idx ≢ 0x3ff
        → Recounted v idx (journal_state_count v idx + 1) (v + 2 ^ (24 + idx * 10)))
      (λ room. (
        omega arith,
        omega arith,
        omega arith,
        below4 _ (λ ne. absurd (ne refl)) (λ ne. omega arith) (λ ne. omega arith)
            (λ ne. omega arith),
      ))
      (λ room. (
        omega arith,
        omega arith,
        omega arith,
        below4 _ (λ ne. omega arith) (λ ne. absurd (ne refl)) (λ ne. omega arith)
            (λ ne. omega arith),
      ))
      (λ room. (
        omega arith,
        omega arith,
        omega arith,
        below4 _ (λ ne. omega arith) (λ ne. omega arith) (λ ne. absurd (ne refl))
            (λ ne. omega arith),
      ))
      (λ room. (
        omega arith,
        omega arith,
        omega arith,
        below4 _ (λ ne. omega arith) (λ ne. omega arith) (λ ne. omega arith)
            (λ ne. absurd (ne refl)),
      ))
      idx h

pub dec_count :
    (v idx : ℕ)
    → idx < 4
    → journal_state_count v idx ≢ 0
    → Recounted v idx (journal_state_count v idx - 1) (v - 2 ^ (24 + idx * 10))
unfolding journal_state_offset journal_state_idx journal_state_count
dec_count v idx h =
    below4
      (λ idx.
        journal_state_count v idx ≢ 0
        → Recounted v idx (journal_state_count v idx - 1) (v - 2 ^ (24 + idx * 10)))
      (λ room. (
        omega arith,
        omega arith,
        omega arith,
        below4 _ (λ ne. absurd (ne refl)) (λ ne. omega arith) (λ ne. omega arith)
            (λ ne. omega arith),
      ))
      (λ room. (
        omega arith,
        omega arith,
        omega arith,
        below4 _ (λ ne. omega arith) (λ ne. absurd (ne refl)) (λ ne. omega arith)
            (λ ne. omega arith),
      ))
      (λ room. (
        omega arith,
        omega arith,
        omega arith,
        below4 _ (λ ne. omega arith) (λ ne. omega arith) (λ ne. absurd (ne refl))
            (λ ne. omega arith),
      ))
      (λ room. (
        omega arith,
        omega arith,
        omega arith,
        below4 _ (λ ne. omega arith) (λ ne. omega arith) (λ ne. omega arith)
            (λ ne. absurd (ne refl)),
      ))
      idx h

-- Counting a reservation of one of the four buffers up gives no result exactly when its count is
-- the greatest, 1023; else the count grows by one. Counting down gives no result exactly when the
-- count is 0; else the count, which is not 0, becomes one less. Both change the count of the buffer
-- alone: the offset, the index and the other counts stay.
pub count_lem :
    (v idx : ℕ)
    → idx < 4
    → (((journal_state_count v idx ≡ 0x3ff) × (journal_state_inc v idx ≡ none))
        ⊎ ((v' : ℕ) × (journal_state_inc v idx ≡ some v')
            × (journal_state_count v idx ≢ 0x3ff)
            × Recounted v idx (journal_state_count v idx + 1) v'))
      × (((journal_state_count v idx ≡ 0) × (journal_state_dec v idx ≡ none))
          ⊎ ((v' : ℕ) × (journal_state_dec v idx ≡ some v')
              × (journal_state_count v idx ≢ 0)
              × Recounted v idx (journal_state_count v idx - 1) v'))
unfolding journal_state_inc journal_state_dec
count_lem v idx h = (
  elim (Bool-cases (journal_state_count v idx == 0x3ff)) [
    | inl full ↦ inl ((==_iff _ _).0 full, rw full refl)
    | inr room ↦ let ne = ==→ne _ _ room in inr (_, rw room refl, ne, inc_count v idx h ne)
  ],
  elim (Bool-cases (journal_state_count v idx == 0)) [
    | inl empty ↦ inl ((==_iff _ _).0 empty, rw empty refl)
    | inr held ↦ let ne = ==→ne _ _ held in inr (_, rw held refl, ne, dec_count v idx h ne)
  ],
)
