-- ===== src/Bkey/Pos/Value.antt =====
-- The specification of a position: one number of 160 bits, the inode highest.
use subvol.Prelude.{ℕ, ◌+◌, ◌*◌, ◌^◌, ◌≡◌, arith, bit_or, bit_xor, ◌↔◌}
use subvol.Prelude.Int.{ℤ, pos, negsuc}
use Prim.Native.Nat.{compare, Ordering}
use subvol.Prelude.Bits.{bit_or-eq_zero, bit_xor-eq_zero, bit_xor_self}
use subvol.Bkey.Pos.{Bpos, IsBpos}

abbrev pub bpos_value : Bpos → ℕ
bpos_value p = p.inode * 2 ^ 96 + p.offset * 2 ^ 32 + p.snapshot

-- The same without the snapshot: where the key stands among all keys of its snapshot.
abbrev pub bkey_value : Bpos → ℕ
bkey_value p = p.inode * 2 ^ 64 + p.offset

-- The sign that a three-way comparison of numbers returns.
abbrev pub sign : ℕ → ℕ → ℤ
sign a b = elim (compare a b) [ Ordering.lt ↦ negsuc 0 | Ordering.eq ↦ pos 0 | Ordering.gt ↦ pos 1 ]

pub bpos_value-injective : (p q : Bpos) → IsBpos p → IsBpos q → bpos_value p ≡ bpos_value q → p ≡ q
bpos_value-injective p q hp hq e =
    let i : p.inode ≡ q.inode = omega arith in
    let o : p.offset ≡ q.offset = omega arith in
    let s : p.snapshot ≡ q.snapshot = omega arith in
    λ k. record { snapshot = s k; offset = o k; inode = i k }

-- The test by `^` and `|` is equality.
pub xor_or_eq : (a b c d : ℕ) → (bit_or (bit_xor a b) (bit_xor c d) ≡ 0) ↔ ((a ≡ b) × (c ≡ d))
xor_or_eq a b c d = (forth, back)
  where
    forth : bit_or (bit_xor a b) (bit_xor c d) ≡ 0 → (a ≡ b) × (c ≡ d)
    forth h =
        let (x, y) = bit_or-eq_zero (bit_xor a b) (bit_xor c d) h in
        (bit_xor-eq_zero a b x, bit_xor-eq_zero c d y)

    back : (a ≡ b) × (c ≡ d) → bit_or (bit_xor a b) (bit_xor c d) ≡ 0
    back h = rw (h.0, h.1, bit_xor_self b, bit_xor_self d)
