-- ===== src/Checksum/Crc.antt =====
-- The cyclic redundancy checks are linear: of data and of data behind other data.
use subvol.Prelude.{
  ℕ, zero, suc, ◌+◌, ◌*◌, ◌/◌, ◌%◌, ◌^◌, ◌<◌, ◌≡◌, inl, inr, refl, sym, ap, ◌∙◌, true, false, List,
  [], ◌∷◌, ◌++◌, length, get_or, replicate, bit_xor, ◌==◌, if◌then◌else◌, arith, Bool-cases,
}
use subvol.Prelude.Bits.{bit_xor_self, zero-bit_xor}
use subvol.Prelude.Xor.{
  xor_digit, bit_xor_lt, bit_xor_comm, bit_xor_assoc, bit_xor-zero, bit_xor_swap, bit_xor_mod,
  bit_xor_div, bit_xor_mul,
}
use subvol.Checksum.{
  crc32c_bit, crc64_bit, repeat, crc32c_entry, crc64_entry, entries, crc32c_table, crc64_table,
  crc32c, crc64_be,
}

abbrev pub IsLinear : (ℕ → ℕ) → Type 0
IsLinear f = (a b : ℕ) → f (bit_xor a b) ≡ bit_xor (f a) (f b)

-- Taking a polynomial away where a digit is set is linear when the rest is.
reduce-IsLinear :
    (digit f : ℕ → ℕ) (poly : ℕ)
    → ((a b : ℕ) → digit (bit_xor a b) ≡ (digit a + digit b) % 2)
    → ((a : ℕ) → digit a < 2)
    → IsLinear f
    → IsLinear (λ crc. if digit crc == 1 then bit_xor (f crc) poly else f crc)
reduce-IsLinear digit f poly digits small lin a b = elim (Bool-cases (digit a == 1)) [
  | inl set_a ↦ elim (Bool-cases (digit b == 1)) [
    | inl set_b ↦
        let test : (digit (bit_xor a b) == 1) ≡ false = ground (arith, digits a b) in
        rw (test, set_a, set_b, lin a b)
          (sym (bit_xor_swap (f a) poly (f b) poly ∙ rw (bit_xor_self poly) (bit_xor-zero _)))
    | inr clear_b ↦
        let test : (digit (bit_xor a b) == 1) ≡ true = ground (arith, digits a b, small b) in
        rw (test, set_a, clear_b, lin a b)
          (bit_xor_assoc (f a) (f b) poly
            ∙ ap (λ (t : ℕ). bit_xor (f a) t) (bit_xor_comm (f b) poly)
            ∙ sym (bit_xor_assoc (f a) poly (f b)))
  ]
  | inr clear_a ↦ elim (Bool-cases (digit b == 1)) [
    | inl set_b ↦
        let test : (digit (bit_xor a b) == 1) ≡ true = ground (arith, digits a b, small a) in
        rw (test, clear_a, set_b, lin a b) (bit_xor_assoc (f a) (f b) poly)
    | inr clear_b ↦
        let test : (digit (bit_xor a b) == 1) ≡ false =
          ground (arith, digits a b, small a, small b) in
        rw (test, clear_a, clear_b) (lin a b)
  ]
]

bit0 : (a b : ℕ) → bit_xor a b % 2 ≡ (a % 2 + b % 2) % 2
bit0 a b = omega (arith, xor_digit a b)

half-IsLinear : IsLinear (λ a. a / 2)
half-IsLinear a b = omega (arith, xor_digit a b)

crc32c_bit-IsLinear : IsLinear crc32c_bit
crc32c_bit-IsLinear =
    reduce-IsLinear (λ a. a % 2) (λ a. a / 2) 0x82f63b78 bit0 (λ a. omega arith) half-IsLinear

twice-IsLinear : IsLinear (λ a. a * 2 % 2 ^ 64)
twice-IsLinear a b =
    ap (λ (t : ℕ). t % 2 ^ 64) (sym (bit_xor_mul 1 a b)) ∙ bit_xor_mod 64 (a * 2) (b * 2)

bit63 : (a b : ℕ) → bit_xor a b / 2 ^ 63 % 2 ≡ (a / 2 ^ 63 % 2 + b / 2 ^ 63 % 2) % 2
bit63 a b = ap (λ (t : ℕ). t % 2) (bit_xor_div 63 a b) ∙ bit0 (a / 2 ^ 63) (b / 2 ^ 63)

crc64_bit-IsLinear : IsLinear crc64_bit
crc64_bit-IsLinear =
    reduce-IsLinear (λ a. a / 2 ^ 63 % 2) (λ a. a * 2 % 2 ^ 64) 0x42f0e1eba9ea3693 bit63
      (λ a. omega arith) twice-IsLinear

repeat-IsLinear : (n : ℕ) (f : ℕ → ℕ) → IsLinear f → IsLinear (repeat n f)
repeat-IsLinear zero f lin a b = refl
repeat-IsLinear (suc n) f lin a b = ap (repeat n f) (lin a b) ∙ repeat-IsLinear n f lin (f a) (f b)

crc32c_entry-IsLinear : IsLinear crc32c_entry
crc32c_entry-IsLinear = repeat-IsLinear 8 crc32c_bit crc32c_bit-IsLinear

crc64_entry-IsLinear : IsLinear crc64_entry
crc64_entry-IsLinear a b =
    ap (repeat 8 crc64_bit) (
      ap (λ (t : ℕ). t % 2 ^ 64) (sym (bit_xor_mul 56 a b))
      ∙ bit_xor_mod 64 (a * 2 ^ 56) (b * 2 ^ 56))
    ∙ repeat-IsLinear 8 crc64_bit crc64_bit-IsLinear (a * 2 ^ 56 % 2 ^ 64) (b * 2 ^ 56 % 2 ^ 64)

get_or-entries :
    (entry : ℕ → ℕ) (i n j : ℕ) → j < n → get_or (entries entry i n) j 0 ≡ entry (i + j)
get_or-entries entry i zero j h = absurd (omega arith)
get_or-entries entry i (suc n) zero h = ap entry (omega arith)
get_or-entries entry i (suc n) (suc j) h =
    get_or-entries entry (i + 1) n j (omega arith) ∙ ap entry (omega arith)

-- The table holds the entries that the bitwise loop computes.
table32 : (j : ℕ) → j < 2 ^ 8 → get_or crc32c_table j 0 ≡ crc32c_entry j
unfolding crc32c_table
table32 j h = get_or-entries crc32c_entry 0 256 j h ∙ ap crc32c_entry (omega arith)

table64 : (j : ℕ) → j < 2 ^ 8 → get_or crc64_table j 0 ≡ crc64_entry j
unfolding crc64_table
table64 j h = get_or-entries crc64_entry 0 256 j h ∙ ap crc64_entry (omega arith)

-- One byte of a check whose word has the upper part `top` and is shifted by `rest`.
abbrev crc_step : (top rest : ℕ → ℕ) → List ℕ → ℕ → ℕ → ℕ
crc_step top rest table crc byte =
    bit_xor (get_or table (bit_xor (top crc) byte % 2 ^ 8) 0) (rest crc)

step_linear :
    (top rest entry : ℕ → ℕ) (table : List ℕ)
    → IsLinear top
    → IsLinear rest
    → IsLinear entry
    → ((j : ℕ) → j < 2 ^ 8 → get_or table j 0 ≡ entry j)
    → (c d byte : ℕ)
    → crc_step top rest table (bit_xor c d) byte
      ≡ bit_xor (crc_step top rest table c 0) (crc_step top rest table d byte)
step_linear top rest entry table top_lin rest_lin entry_lin known c d byte =
    let i = bit_xor (top (bit_xor c d)) byte % 2 ^ 8 in
    let ic = bit_xor (top c) 0 % 2 ^ 8 in
    let id = bit_xor (top d) byte % 2 ^ 8 in
    let index : i ≡ bit_xor ic id =
      ap (λ (t : ℕ). bit_xor t byte % 2 ^ 8) (top_lin c d)
      ∙ ap (λ (t : ℕ). bit_xor (bit_xor (top c) (top d)) t % 2 ^ 8) (sym (zero-bit_xor byte))
      ∙ ap (λ (t : ℕ). t % 2 ^ 8) (bit_xor_swap (top c) (top d) 0 byte)
      ∙ bit_xor_mod 8 (bit_xor (top c) 0) (bit_xor (top d) byte) in
    let value : get_or table i 0 ≡ bit_xor (get_or table ic 0) (get_or table id 0) =
      known i (omega arith)
      ∙ ap entry index
      ∙ entry_lin ic id
      ∙ rw (known ic (omega arith), known id (omega arith)) refl in
    rw (value, rest_lin c d)
      (bit_xor_swap (get_or table ic 0) (get_or table id 0) (rest c) (rest d))

byte-IsLinear : IsLinear (λ a. a * 2 ^ 8 % 2 ^ 64)
byte-IsLinear a b =
    ap (λ (t : ℕ). t % 2 ^ 64) (sym (bit_xor_mul 8 a b)) ∙ bit_xor_mod 64 (a * 2 ^ 8) (b * 2 ^ 8)

-- A check that starts from two words is that of as many zeroes from the one, and of the data from
-- the other.
pub crc32c_linear :
    (c d : ℕ) (data_ : List ℕ)
    → crc32c (bit_xor c d) data_ ≡ bit_xor (crc32c c (replicate (length data_) 0)) (crc32c d data_)
unfolding crc32c
crc32c_linear c d [] = refl
crc32c_linear c d (byte ∷ data_) =
    let top : ℕ → ℕ = λ a. a in
    let rest : ℕ → ℕ = λ a. a / 2 ^ 8 in
    ap (λ (t : ℕ). crc32c t data_)
      (step_linear top rest crc32c_entry crc32c_table (λ a b. refl) (bit_xor_div 8)
        crc32c_entry-IsLinear table32 c d byte)
    ∙ crc32c_linear (crc_step top rest crc32c_table c 0) (crc_step top rest crc32c_table d byte)
        data_

pub crc64_be_linear :
    (c d : ℕ) (data_ : List ℕ)
    → crc64_be (bit_xor c d) data_
      ≡ bit_xor (crc64_be c (replicate (length data_) 0)) (crc64_be d data_)
unfolding crc64_be
crc64_be_linear c d [] = refl
crc64_be_linear c d (byte ∷ data_) =
    let top : ℕ → ℕ = λ a. a / 2 ^ 56 in
    let rest : ℕ → ℕ = λ a. a * 2 ^ 8 % 2 ^ 64 in
    ap (λ (t : ℕ). crc64_be t data_)
      (step_linear top rest crc64_entry crc64_table (bit_xor_div 56) byte-IsLinear
        crc64_entry-IsLinear table64 c d byte)
    ∙ crc64_be_linear (crc_step top rest crc64_table c 0) (crc_step top rest crc64_table d byte)
        data_

-- Data behind other data is checked from the word that the first leaves.
pub crc32c-append : (c : ℕ) (xs ys : List ℕ) → crc32c c (xs ++ ys) ≡ crc32c (crc32c c xs) ys
unfolding crc32c
crc32c-append c [] ys = refl
crc32c-append c (x ∷ xs) ys =
    crc32c-append (crc_step (λ a. a) (λ a. a / 2 ^ 8) crc32c_table c x) xs ys

pub crc64_be-append : (c : ℕ) (xs ys : List ℕ) → crc64_be c (xs ++ ys) ≡ crc64_be (crc64_be c xs) ys
unfolding crc64_be
crc64_be-append c [] ys = refl
crc64_be-append c (x ∷ xs) ys =
    crc64_be-append (crc_step (λ a. a / 2 ^ 56) (λ a. a * 2 ^ 8 % 2 ^ 64) crc64_table c x) xs ys

-- The words of a check over 32 bits
repeat_lt : (n : ℕ) (crc : ℕ) → crc < 2 ^ 32 → repeat n crc32c_bit crc < 2 ^ 32
repeat_lt zero crc h = h
repeat_lt (suc n) crc h = repeat_lt n (crc32c_bit crc) (bit_lt crc h)
  where
    bit_lt : (crc : ℕ) → crc < 2 ^ 32 → crc32c_bit crc < 2 ^ 32
    bit_lt crc h = elim (Bool-cases (crc % 2 == 1)) [
      | inl odd ↦ rw odd (bit_xor_lt 32 (crc / 2) 0x82f63b78 (omega arith) (omega arith))
      | inr even ↦ rw even (omega arith)
    ]

pub crc32c_lt : (c : ℕ) (data_ : List ℕ) → c < 2 ^ 32 → crc32c c data_ < 2 ^ 32
unfolding crc32c
crc32c_lt c [] h = h
crc32c_lt c (byte ∷ data_) h =
    let index = bit_xor c byte % 2 ^ 8 in
    let value : get_or crc32c_table index 0 < 2 ^ 32 =
      rw (table32 index (omega arith)) (repeat_lt 8 index (omega arith)) in
    crc32c_lt (crc_step (λ a. a) (λ a. a / 2 ^ 8) crc32c_table c byte) data_
      (bit_xor_lt 32 (get_or crc32c_table index 0) (c / 2 ^ 8) value (omega arith))
