-- ===== src/Snapshot/Mark/Bitmap.antt =====
-- The loop of `bch2_mark_snapshot` sets the bits of the ancestors, and no others.
use subvol.Prelude.{
  ℕ, zero, suc, ◌+◌, ◌-◌, ◌≤◌, ◌<◌, ◌≡◌, ◌≢◌, ◌↔◌, ◌⊎◌, inl, inr, refl, true, false, some, ltb, leb,
  ◌==◌, arith, Bool-cases,
}
use subvol.Prelude.WordBits.{bit-set}
use subvol.Snapshot.Table.{SnapshotTable, snapshot_parent}
use subvol.Snapshot.Ancestor.{Ancestor, itself, above, IsChain, bitmap_bit, ancestor_le, of_parent}
use subvol.Snapshot.Mark.{set_bitmap_bit, mark_bits}

bitmap-set :
    (words : ℕ × ℕ) (n b : ℕ)
    → (bitmap_bit (set_bitmap_bit words n) b ≡ true) ↔ ((bitmap_bit words b ≡ true) ⊎ (b ≡ n))
bitmap-set words n b = elim (Bool-cases (ltb n 64)) [
  | inl low ↦ elim (Bool-cases (ltb b 64)) [
    | inl here ↦ rw (low, here) (bit-set n b words.0)
    | inr there ↦
        rw (low, there) ((λ h. inl h), λ c. elim c [ inl h ↦ h | inr e ↦ absurd (ground arith) ])
  ]
  | inr high ↦ elim (Bool-cases (ltb b 64)) [
    | inl here ↦
        rw (high, here) ((λ h. inl h), λ c. elim c [ inl h ↦ h | inr e ↦ absurd (ground arith) ])
    | inr there ↦
        let (fore, back) = bit-set (n - 64) (b - 64) words.1 in
        rw (high, there)
          (
            λ h. elim (fore h) [ inl old ↦ inl old | inr e ↦ inr (ground arith) ],
            λ c. elim c [ inl old ↦ back (inl old) | inr e ↦ back (inr (omega arith)) ],
          )
  ]
]

module _ (t : SnapshotTable) (chain : IsChain t) (id : ℕ) where
  -- What the loop adds from `q` on.
  abbrev pub Above : ℕ → ℕ → Type 0
  Above q b = (q ≢ 0) × Ancestor t q (id + 1 + b)

  Above-next :
      (q b : ℕ) → q ≢ 0 → id < q → Above q b ↔ ((b ≡ q - id - 1) ⊎ Above (snapshot_parent t q) b)
  Above-next q b nz lt = elim (Bool-cases (b == q - id - 1)) [
    | inl same ↦
        let e : q ≡ id + 1 + b = ground arith in
        let here : Ancestor t q (id + 1 + b) = rw (← e) itself in
        ((λ _. inl (ground arith)), λ _. (nz, here))
    | inr other ↦
        let ne : q ≢ id + 1 + b = ground arith in
        (
          λ up. inr (of_parent t chain ne up.1),
          λ c. elim c [ inl e ↦ absurd (ground arith) | inr up ↦ (nz, above up.0 up.1) ],
        )
  ]

  pub mark_bits-Above :
      (fuel q : ℕ) (words : ℕ × ℕ)
      → 0 < fuel
      → (q ≡ 0) ⊎ ((id < q) × (id + 130 ≤ fuel + q))
      → (words' : ℕ × ℕ) × (mark_bits fuel t id q words ≡ some words')
        × ((b : ℕ)
            → b < 128
            → (bitmap_bit words' b ≡ true) ↔ ((bitmap_bit words b ≡ true) ⊎ Above q b))
  unfolding mark_bits
  mark_bits-Above zero q words pos start = elim pos [ ]
  mark_bits-Above (suc fuel) q words pos (inl root) = (
    words,
    rw root refl,
    λ b small. ((λ h. inl h), λ c. elim c [ inl h ↦ h | inr up ↦ absurd (up.0 root) ]),
  )
  mark_bits-Above (suc fuel) q words pos (inr (lt, enough)) =
      let nz : (q == 0) ≡ false = ground arith in
      let higher : leb q id ≡ false = ground arith in
      elim (Bool-cases (ltb (q - id - 1) 128)) [
        | inr far ↦ (
          words,
          rw (nz, higher, far) refl,
          λ b small. (
            (λ h. inl h),
            λ c. elim c [
              | inl h ↦ h
              | inr up ↦ (let le = ancestor_le t chain up.1 in absurd (ground arith))
            ],
          ),
        )
        | inl near ↦
            let (words', e, bits) =
              mark_bits-Above fuel (snapshot_parent t q) (set_bitmap_bit words (q - id - 1))
                (ground arith)
                (elim (chain q) [
                  | inl root ↦ inl root
                  | inr up ↦ inr (omega arith, ground arith)
                ]) in
            (
              words',
              rw (nz, higher, near) e,
              λ b small.
                  let (fore, back) = bits b small in
                  let (set_fore, set_back) = bitmap-set words (q - id - 1) b in
                  let (next_fore, next_back) = Above-next q b (ground arith) lt in
                  (
                    λ h. elim (fore h) [
                      | inl now ↦ elim (set_fore now) [
                        | inl old ↦ inl old
                        | inr here ↦ inr (next_back (inl here))
                      ]
                      | inr up ↦ inr (next_back (inr up))
                    ],
                    λ c. elim c [
                      | inl old ↦ back (inl (set_back (inl old)))
                      | inr up ↦ elim (next_fore up) [
                        | inl here ↦ back (inl (set_back (inr here)))
                        | inr higher_up ↦ back (inr higher_up)
                      ]
                    ],
                  ),
            )
      ]
