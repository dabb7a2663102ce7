-- ===== src/Checksum/Merge.antt =====
-- Merging the checksums of adjacent data.
use subvol.Prelude.{
  ℕ, zero, suc, ◌+◌, ◌-◌, ◌%◌, ◌^◌, min, ◌<◌, ◌≡◌, ◌⊎◌, inl, inr, refl, sym, ap, ◌∙◌, false, none,
  some, List, [], ◌∷◌, ◌++◌, length, replicate, bit_xor, ◌==◌, if◌then◌else◌, arith, Bool-cases,
}
use subvol.Prelude.Xor.{bit_xor-zero}
use subvol.Checksum.{
  BchCsum, crc32c, crc64_be, bch2_checksum, bch2_checksum_mergeable, merge_seed, merge_zeroes,
  bch2_checksum_merge,
}
use subvol.Checksum.Crc.{crc32c_linear, crc64_be_linear, crc32c-append, crc64_be-append, crc32c_lt}

abbrev zeroes : ℕ → List ℕ
zeroes n = replicate n 0

replicate-add : (n m : ℕ) → zeroes n ++ zeroes m ≡ zeroes (n + m)
replicate-add zero m = ap zeroes (omega arith)
replicate-add (suc n) m =
    let e : suc n + m ≡ suc (n + m) = omega arith in
    rw e (ap (λ (t : List ℕ). 0 ∷ t) (replicate-add n m))

-- A check of zeroes in two blocks
module _ (crc : ℕ → List ℕ → ℕ)
    (crc-append : (c : ℕ) (xs ys : List ℕ) → crc c (xs ++ ys) ≡ crc (crc c xs) ys)
    (crc-nothing : (c : ℕ) → crc c [] ≡ c) where
  blocks :
      (seed len rest all : ℕ)
      → len + rest ≡ all
      → crc (crc seed (zeroes len)) (zeroes rest) ≡ crc seed (zeroes all)
  blocks seed len rest all e =
      sym (crc-append seed (zeroes len) (zeroes rest))
      ∙ ap (crc seed) (replicate-add len rest ∙ ap zeroes e)

  -- The loop of the merge for a type whose step is the check.
  merge_zeroes_from :
      (Word : ℕ → Type 0) (type_ : ℕ)
      → ((seed len : ℕ) → Word seed → merge_seed type_ seed len ≡ crc seed (zeroes len))
      → ((seed len : ℕ) → Word seed → Word (crc seed (zeroes len)))
      → (fuel seed b_len : ℕ) → Word seed
      → b_len < fuel
      → merge_zeroes fuel type_ seed b_len ≡ some (crc seed (zeroes b_len))
  unfolding merge_zeroes
  merge_zeroes_from Word type_ step word zero seed b_len w more = absurd (omega arith)
  merge_zeroes_from Word type_ step word (suc fuel) seed b_len w more =
      let len = min b_len 4096 in
      elim (Bool-cases (b_len == 0)) [
        | inl done ↦
            let none_ : b_len ≡ 0 = ground arith in
            rw (merge_zeroes, none_) (ap some (sym (crc-nothing seed)))
        | inr more_ ↦
            rw (merge_zeroes, more_, step seed len w)
              (merge_zeroes_from Word type_ step word fuel (crc seed (zeroes len)) (b_len - len)
                  (word seed len w) (ground (arith, more_))
                ∙ ap some (blocks seed len (b_len - len) b_len (omega arith)))
      ]

zeroes32 :
    (fuel seed b_len : ℕ)
    → seed < 2 ^ 32
    → b_len < fuel
    → merge_zeroes fuel 5 seed b_len ≡ some (crc32c seed (zeroes b_len))
unfolding crc32c
zeroes32 =
    merge_zeroes_from crc32c crc32c-append (λ c. refl) (λ seed. seed < 2 ^ 32) 5
      (λ seed len w. let same : seed % 2 ^ 32 ≡ seed = omega arith in rw same refl)
      (λ seed len w. crc32c_lt seed (zeroes len) w)

zeroes64 :
    (fuel seed b_len : ℕ)
    → b_len < fuel
    → merge_zeroes fuel 6 seed b_len ≡ some (crc64_be seed (zeroes b_len))
unfolding crc64_be
zeroes64 fuel seed b_len more =
    merge_zeroes_from crc64_be crc64_be-append (λ c. refl) (λ seed. Unit) 6 (λ seed len w. refl)
      (λ seed len w. tt) fuel seed b_len tt more

zeroes_none : (fuel b_len : ℕ) → b_len < fuel → merge_zeroes fuel 0 0 b_len ≡ some 0
zeroes_none fuel b_len more =
    merge_zeroes_from (λ c xs. c) (λ c xs ys. refl) (λ c. refl) (λ seed. seed ≡ 0) 0
      (λ seed len w. sym w) (λ seed len w. w) fuel 0 b_len refl more

merged32 :
    (fuel : ℕ) (xs ys : List ℕ)
    → length ys < fuel
    → bch2_checksum_merge fuel 5 (bch2_checksum 5 xs) (bch2_checksum 5 ys) (length ys)
      ≡ some (bch2_checksum 5 (xs ++ ys))
unfolding bch2_checksum_merge bch2_checksum_mergeable bch2_checksum
merged32 fuel xs ys more =
    let cx = crc32c 0 xs in
    let whole : bit_xor (crc32c cx (zeroes (length ys))) (crc32c 0 ys) ≡ crc32c 0 (xs ++ ys) =
      sym (crc32c_linear cx 0 ys)
      ∙ ap (λ (t : ℕ). crc32c t ys) (bit_xor-zero cx)
      ∙ sym (crc32c-append 0 xs ys) in
    rw (zeroes32 fuel cx (length ys) (crc32c_lt 0 xs (omega arith)) more)
      (ap (λ (t : ℕ). some (record { lo = t; hi = 0 })) whole)

merged64 :
    (fuel : ℕ) (xs ys : List ℕ)
    → length ys < fuel
    → bch2_checksum_merge fuel 6 (bch2_checksum 6 xs) (bch2_checksum 6 ys) (length ys)
      ≡ some (bch2_checksum 6 (xs ++ ys))
unfolding bch2_checksum_merge bch2_checksum_mergeable bch2_checksum
merged64 fuel xs ys more =
    let cx = crc64_be 0 xs in
    let whole : bit_xor (crc64_be cx (zeroes (length ys))) (crc64_be 0 ys) ≡ crc64_be 0 (xs ++ ys) =
      sym (crc64_be_linear cx 0 ys)
      ∙ ap (λ (t : ℕ). crc64_be t ys) (bit_xor-zero cx)
      ∙ sym (crc64_be-append 0 xs ys) in
    rw (zeroes64 fuel cx (length ys) more) (ap (λ (t : ℕ). some (record { lo = t; hi = 0 })) whole)

merged_none :
    (fuel : ℕ) (xs ys : List ℕ)
    → length ys < fuel
    → bch2_checksum_merge fuel 0 (bch2_checksum 0 xs) (bch2_checksum 0 ys) (length ys)
      ≡ some (bch2_checksum 0 (xs ++ ys))
unfolding bch2_checksum_merge bch2_checksum_mergeable bch2_checksum
merged_none fuel xs ys more = rw (zeroes_none fuel (length ys) more) refl

merge_refused :
    (fuel type_ : ℕ) (a b : BchCsum) (len : ℕ)
    → bch2_checksum_mergeable type_ ≡ false
    → bch2_checksum_merge fuel type_ a b len ≡ none
unfolding bch2_checksum_merge
merge_refused fuel type_ a b len fixed = rw fixed refl

-- Merging the checksums of two data, on fuel greater than the length of the second, gives the
-- checksum of the one with the other behind it exactly for a type that can be merged; for another
-- type there is no result.
pub merge-append :
    (fuel type_ : ℕ) (xs ys : List ℕ)
    → length ys < fuel
    → bch2_checksum_merge fuel type_ (bch2_checksum type_ xs) (bch2_checksum type_ ys) (length ys)
      ≡ (if bch2_checksum_mergeable type_ then some (bch2_checksum type_ (xs ++ ys)) else none)
unfolding bch2_checksum_mergeable
merge-append fuel type_ xs ys more = elim (Bool-cases (bch2_checksum_mergeable type_)) [
  | inr fixed ↦
      rw fixed (
        merge_refused fuel type_ (bch2_checksum type_ xs) (bch2_checksum type_ ys) (length ys)
          fixed)
  | inl able ↦
      let cases : (type_ ≡ 0) ⊎ ((type_ ≡ 5) ⊎ (type_ ≡ 6)) = ground (arith, able) in
      elim cases [
        | inl e ↦ rw e (merged_none fuel xs ys more)
        | inr (inl e) ↦ rw e (merged32 fuel xs ys more)
        | inr (inr e) ↦ rw e (merged64 fuel xs ys more)
      ]
]
