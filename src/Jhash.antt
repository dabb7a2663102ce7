-- ===== src/Jhash.antt =====
-- crates/subvol/src/util/jhash.rs: Jenkins' hash of bytes and of words. A key is the list of its
-- bytes or words, whose length is the argument `length`; words are little-endian in memory.
pub mod Words
use subvol.Prelude.Options.{◌>>=◌}
use subvol.Prelude.{
  Option, none, some, ltb, ℕ, zero, suc, ◌+◌, ◌-◌, ◌*◌, ◌/◌, ◌%◌, ◌^◌, List, [], ◌∷◌, length,
  get_or, bit_or, bit_xor, leb, if◌then◌else◌,
}

abbrev pub jhash_initval : ℕ
jhash_initval = 0xdeadbeef

-- No result where the shift overflows.
unfoldable pub jhash_size : ℕ → Option ℕ
jhash_size n = if ltb n 32 then some (2 ^ n) else none

unfoldable pub jhash_mask : ℕ → Option ℕ
jhash_mask n = jhash_size n >>= λ size. some (size - 1)

-- `wrapping_add`, `wrapping_sub` and `rotate_left` of a u32
abbrev pub add32 : ℕ → ℕ → ℕ
add32 a b = (a + b) % 2 ^ 32

abbrev pub sub32 : ℕ → ℕ → ℕ
sub32 a b = (a + 2 ^ 32 - b) % 2 ^ 32

abbrev pub rotate_left : ℕ → ℕ → ℕ
rotate_left x n = bit_or (x * 2 ^ n % 2 ^ 32) (x / 2 ^ (32 - n))

-- The words `a`, `b` and `c`
abbrev pub State : Type 0
State = ℕ × ℕ × ℕ

unfoldable pub jhash_mix : State → State
jhash_mix (a₀, b₀, c₀) =
    let a₁ = bit_xor (sub32 a₀ c₀) (rotate_left c₀ 4) in
    let c₁ = add32 c₀ b₀ in
    let b₁ = bit_xor (sub32 b₀ a₁) (rotate_left a₁ 6) in
    let a₂ = add32 a₁ c₁ in
    let c₂ = bit_xor (sub32 c₁ b₁) (rotate_left b₁ 8) in
    let b₂ = add32 b₁ a₂ in
    let a₃ = bit_xor (sub32 a₂ c₂) (rotate_left c₂ 16) in
    let c₃ = add32 c₂ b₂ in
    let b₃ = bit_xor (sub32 b₂ a₃) (rotate_left a₃ 19) in
    let a₄ = add32 a₃ c₃ in
    let c₄ = bit_xor (sub32 c₃ b₃) (rotate_left b₃ 4) in (a₄, add32 b₃ a₄, c₄)

unfoldable pub jhash_final : State → State
jhash_final (a₀, b₀, c₀) =
    let c₁ = sub32 (bit_xor c₀ b₀) (rotate_left b₀ 14) in
    let a₁ = sub32 (bit_xor a₀ c₁) (rotate_left c₁ 11) in
    let b₁ = sub32 (bit_xor b₀ a₁) (rotate_left a₁ 25) in
    let c₂ = sub32 (bit_xor c₁ b₁) (rotate_left b₁ 16) in
    let a₂ = sub32 (bit_xor a₁ c₂) (rotate_left c₂ 4) in
    let b₂ = sub32 (bit_xor b₁ a₂) (rotate_left a₂ 14) in
    (a₂, b₂, sub32 (bit_xor c₂ b₂) (rotate_left b₂ 24))

-- `u32::from_ne_bytes`
abbrev pub from_bytes : ℕ → ℕ → ℕ → ℕ → ℕ
from_bytes b₀ b₁ b₂ b₃ = b₀ + b₁ * 2 ^ 8 + b₂ * 2 ^ 16 + b₃ * 2 ^ 24

-- A word takes byte `i` of the rest, shifted, when the rest is long enough.
abbrev take_byte : List ℕ → ℕ → ℕ → ℕ → ℕ
take_byte rest i shift w =
    if leb (i + 1) (length rest) then add32 w (get_or rest i 0 * 2 ^ shift % 2 ^ 32) else w

-- What `jhash` does with the last bytes, at most 12.
unfoldable pub jhash_rest : List ℕ → State → ℕ
jhash_rest rest (a, b, c) =
    let c' =
      take_byte rest 8 0 (take_byte rest 9 8 (take_byte rest 10 16 (take_byte rest 11 24 c))) in
    let b' =
      take_byte rest 4 0 (take_byte rest 5 8 (take_byte rest 6 16 (take_byte rest 7 24 b))) in
    let a' =
      take_byte rest 0 0 (take_byte rest 1 8 (take_byte rest 2 16 (take_byte rest 3 24 a))) in
    if leb 1 (length rest) then (jhash_final (a', b', c')).2 else c'

-- The loop, which goes on while more than 12 bytes are left.
unfoldable pub jhash_loop : List ℕ → State → ℕ
jhash_loop (k₀ ∷ k₁ ∷ k₂ ∷ k₃ ∷ k₄ ∷ k₅ ∷ k₆ ∷ k₇ ∷ k₈ ∷ k₉ ∷ k₁₀ ∷ k₁₁ ∷ next ∷ k) (a, b, c) =
    jhash_loop (next ∷ k) (
      jhash_mix (
        add32 a (from_bytes k₀ k₁ k₂ k₃),
        add32 b (from_bytes k₄ k₅ k₆ k₇),
        add32 c (from_bytes k₈ k₉ k₁₀ k₁₁),
      ))
jhash_loop rest s = jhash_rest rest s

abbrev start : ℕ → ℕ → State
start length initval = let w = add32 (add32 jhash_initval length) initval in (w, w, w)

unfoldable pub jhash : List ℕ → ℕ → ℕ
jhash key initval = jhash_loop key (start (length key) initval)

-- The loop of `jhash2`, which goes on while more than 3 words are left, and the rest.
unfoldable pub jhash2_loop : List ℕ → State → ℕ
jhash2_loop (x ∷ y ∷ z ∷ next ∷ k) (a, b, c) =
    jhash2_loop (next ∷ k) (jhash_mix (add32 a x, add32 b y, add32 c z))
jhash2_loop (x ∷ y ∷ z ∷ []) (a, b, c) = (jhash_final (add32 a x, add32 b y, add32 c z)).2
jhash2_loop (x ∷ y ∷ []) (a, b, c) = (jhash_final (add32 a x, add32 b y, c)).2
jhash2_loop (x ∷ []) (a, b, c) = (jhash_final (add32 a x, b, c)).2
jhash2_loop [] (a, b, c) = c

unfoldable pub jhash2 : List ℕ → ℕ → ℕ
jhash2 k initval = jhash2_loop k (start (length k * 2 ^ 2 % 2 ^ 32) initval)

unfoldable pub jhash_nwords : ℕ → ℕ → ℕ → ℕ → ℕ
jhash_nwords a b c initval = (jhash_final (add32 a initval, add32 b initval, add32 c initval)).2

unfoldable pub jhash_3words : ℕ → ℕ → ℕ → ℕ → ℕ
jhash_3words a b c initval = jhash_nwords a b c (add32 (add32 initval jhash_initval) 12)

unfoldable pub jhash_2words : ℕ → ℕ → ℕ → ℕ
jhash_2words a b initval = jhash_nwords a b 0 (add32 (add32 initval jhash_initval) 8)

unfoldable pub jhash_1word : ℕ → ℕ → ℕ
jhash_1word a initval = jhash_nwords a 0 0 (add32 (add32 initval jhash_initval) 4)
