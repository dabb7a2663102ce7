-- ===== src/Checksum.antt =====
-- crates/subvol/src/checksum.rs: the two cyclic redundancy checks, xxHash, and the merge of the
-- checksums of adjacent data. Data is the list of its bytes; a slice of it is a rest of the list.
pub mod Crc
pub mod Merge
use subvol.Prelude.{
  ℕ, zero, suc, ◌+◌, ◌-◌, ◌*◌, ◌/◌, ◌%◌, ◌^◌, min, Bool, true, false, Option, none, some, List, [],
  ◌∷◌, length, get_or, replicate, bit_or, bit_xor, ltb, leb, ◌==◌, if◌then◌else◌,
}

abbrev pub bch_csum_none : ℕ
bch_csum_none = 0

abbrev pub bch_csum_crc32c_nonzero : ℕ
bch_csum_crc32c_nonzero = 1

abbrev pub bch_csum_crc64_nonzero : ℕ
bch_csum_crc64_nonzero = 2

abbrev pub bch_csum_crc32c : ℕ
bch_csum_crc32c = 5

abbrev pub bch_csum_crc64 : ℕ
bch_csum_crc64 = 6

abbrev pub bch_csum_xxhash : ℕ
bch_csum_xxhash = 7

-- `bch_csum` of btree/bset.rs
pub record BchCsum : Type 0 where
  pub lo : ℕ
  pub hi : ℕ

-- A step of the loop over the bits of a table's entry
abbrev pub crc32c_bit : ℕ → ℕ
crc32c_bit crc = if crc % 2 == 1 then bit_xor (crc / 2) 0x82f63b78 else crc / 2

abbrev pub crc64_bit : ℕ → ℕ
crc64_bit crc =
    if crc / 2 ^ 63 % 2 == 1
    then bit_xor (crc * 2 % 2 ^ 64) 0x42f0e1eba9ea3693
    else crc * 2 % 2 ^ 64

abbrev pub repeat : ℕ → (ℕ → ℕ) → ℕ → ℕ
repeat zero f crc = crc
repeat (suc n) f crc = repeat n f (f crc)

abbrev pub crc32c_entry : ℕ → ℕ
crc32c_entry i = repeat 8 crc32c_bit i

abbrev pub crc64_entry : ℕ → ℕ
crc64_entry i = repeat 8 crc64_bit (i * 2 ^ 56 % 2 ^ 64)

-- `n` entries of a table, from index `i` on
abbrev pub entries : (ℕ → ℕ) → ℕ → ℕ → List ℕ
entries entry i zero = []
entries entry i (suc n) = entry i ∷ entries entry (i + 1) n

unfoldable pub crc32c_table : List ℕ
crc32c_table = entries crc32c_entry 0 256

unfoldable pub crc64_table : List ℕ
crc64_table = entries crc64_entry 0 256

unfoldable pub crc32c : ℕ → List ℕ → ℕ
crc32c crc [] = crc
crc32c crc (byte ∷ data_) =
    crc32c (bit_xor (get_or crc32c_table (bit_xor crc byte % 2 ^ 8) 0) (crc / 2 ^ 8)) data_

unfoldable pub crc64_be : ℕ → List ℕ → ℕ
crc64_be crc [] = crc
crc64_be crc (byte ∷ data_) =
    let table = bit_xor (crc / 2 ^ 56) byte % 2 ^ 8 in
    crc64_be (bit_xor (get_or crc64_table table 0) (crc * 2 ^ 8 % 2 ^ 64)) data_

abbrev pub prime64_1 : ℕ
prime64_1 = 11400714785074694791

abbrev pub prime64_2 : ℕ
prime64_2 = 14029467366897019727

abbrev pub prime64_3 : ℕ
prime64_3 = 1609587929392839161

abbrev pub prime64_4 : ℕ
prime64_4 = 9650029242287828579

abbrev pub prime64_5 : ℕ
prime64_5 = 2870177450012600261

-- `wrapping_add`, `wrapping_mul` and `rotate_left` of a u64
abbrev pub add64 : ℕ → ℕ → ℕ
add64 a b = (a + b) % 2 ^ 64

abbrev pub mul64 : ℕ → ℕ → ℕ
mul64 a b = a * b % 2 ^ 64

abbrev pub rotate_left : ℕ → ℕ → ℕ
rotate_left x n = bit_or (x * 2 ^ n % 2 ^ 64) (x / 2 ^ (64 - n))

unfoldable pub xxh64_round : ℕ → ℕ → ℕ
xxh64_round acc input = mul64 (rotate_left (add64 acc (mul64 input prime64_2)) 31) prime64_1

unfoldable pub xxh64_merge_round : ℕ → ℕ → ℕ
xxh64_merge_round acc val = add64 (mul64 (bit_xor acc (xxh64_round 0 val)) prime64_1) prime64_4

-- `from_le_bytes` of the first `n` bytes
abbrev pub from_le_bytes : ℕ → List ℕ → ℕ
from_le_bytes zero bytes = 0
from_le_bytes (suc n) [] = 0
from_le_bytes (suc n) (byte ∷ bytes) = byte + from_le_bytes n bytes * 2 ^ 8

abbrev pub drop : ℕ → List ℕ → List ℕ
drop zero bytes = bytes
drop (suc n) [] = []
drop (suc n) (byte ∷ bytes) = drop n bytes

-- The four lanes of the hash
abbrev pub Lanes : Type 0
Lanes = ℕ × ℕ × ℕ × ℕ

-- The loop over blocks of 32 bytes, on fuel: the lanes and the rest of the input.
unfoldable pub xxh64_blocks : ℕ → Lanes → List ℕ → Lanes × List ℕ
xxh64_blocks zero lanes input = (lanes, input)
xxh64_blocks (suc fuel) (v1, v2, v3, v4) input =
    let lanes : Lanes = (
      xxh64_round v1 (from_le_bytes 8 input),
      xxh64_round v2 (from_le_bytes 8 (drop 8 input)),
      xxh64_round v3 (from_le_bytes 8 (drop 16 input)),
      xxh64_round v4 (from_le_bytes 8 (drop 24 input)),
    ) in
    let rest = xxh64_blocks fuel lanes (drop 32 input) in
    if leb 32 (length input) then rest else ((v1, v2, v3, v4), input)

unfoldable pub xxh64_start : List ℕ → ℕ → ℕ × List ℕ
xxh64_start input seed =
    if leb 32 (length input)
    then (let start : Lanes = (
      add64 (add64 seed prime64_1) prime64_2,
      add64 seed prime64_2,
      seed,
      (seed + 2 ^ 64 - prime64_1) % 2 ^ 64,
    ) in
        let ((v1, v2, v3, v4), rest) = xxh64_blocks (length input) start input in
        let hash =
          add64 (add64 (add64 (rotate_left v1 1) (rotate_left v2 7)) (rotate_left v3 12))
            (rotate_left v4 18) in
        (
          xxh64_merge_round
              (xxh64_merge_round (xxh64_merge_round (xxh64_merge_round hash v1) v2) v3) v4,
          rest,
        ))
    else (add64 seed prime64_5, input)

-- The loop over the words of what is left, on fuel
unfoldable pub xxh64_words : ℕ → ℕ → List ℕ → ℕ × List ℕ
xxh64_words zero hash input = (hash, input)
xxh64_words (suc fuel) hash input =
    let mixed = bit_xor hash (xxh64_round 0 (from_le_bytes 8 input)) in
    let hash' = add64 (mul64 (rotate_left mixed 27) prime64_1) prime64_4 in
    let rest = xxh64_words fuel hash' (drop 8 input) in
    if leb 8 (length input) then rest else (hash, input)

abbrev pub xxh64_half_word : ℕ × List ℕ → ℕ × List ℕ
xxh64_half_word (hash, input) =
    let mixed = bit_xor hash (mul64 (from_le_bytes 4 input) prime64_1) in
    if leb 4 (length input)
    then (add64 (mul64 (rotate_left mixed 23) prime64_2) prime64_3, drop 4 input)
    else (hash, input)

unfoldable pub xxh64_bytes : ℕ → List ℕ → ℕ
xxh64_bytes hash [] = hash
xxh64_bytes hash (byte ∷ input) =
    xxh64_bytes (mul64 (rotate_left (bit_xor hash (mul64 byte prime64_5)) 11) prime64_1) input

abbrev pub xxh64_avalanche : ℕ → ℕ
xxh64_avalanche hash₀ =
    let hash₁ = mul64 (bit_xor hash₀ (hash₀ / 2 ^ 33)) prime64_2 in
    let hash₂ = mul64 (bit_xor hash₁ (hash₁ / 2 ^ 29)) prime64_3 in bit_xor hash₂ (hash₂ / 2 ^ 32)

unfoldable pub xxh64 : List ℕ → ℕ → ℕ
xxh64 input seed =
    let (hash, rest) = xxh64_start input seed in
    let (hash', tail) =
      xxh64_half_word (xxh64_words (length input) (add64 hash (length input)) rest) in
    xxh64_avalanche (xxh64_bytes hash' tail)

abbrev pub checksum_value : ℕ → List ℕ → ℕ
checksum_value type_ data_ =
    if type_ == bch_csum_none
    then 0
    else if type_ == bch_csum_crc32c_nonzero
    then bit_xor (crc32c (2 ^ 32 - 1) data_) (2 ^ 32 - 1)
    else if type_ == bch_csum_crc64_nonzero
    then bit_xor (crc64_be (2 ^ 64 - 1) data_) (2 ^ 64 - 1)
    else if type_ == bch_csum_crc32c
    then crc32c 0 data_
    else if type_ == bch_csum_crc64
    then crc64_be 0 data_
    else if type_ == bch_csum_xxhash
    then xxh64 data_ 0
    else 0

unfoldable pub bch2_checksum : ℕ → List ℕ → BchCsum
bch2_checksum type_ data_ = record { lo = checksum_value type_ data_; hi = 0 }

unfoldable pub bch2_checksum_mergeable : ℕ → Bool
bch2_checksum_mergeable type_ =
    if type_ == bch_csum_none
    then true
    else if type_ == bch_csum_crc32c
    then true
    else type_ == bch_csum_crc64

-- The checksum of a block of zeroes behind data with the checksum `seed`
abbrev pub merge_seed : ℕ → ℕ → ℕ → ℕ
merge_seed type_ seed len =
    if type_ == bch_csum_none
    then 0
    else if type_ == bch_csum_crc32c
    then crc32c (seed % 2 ^ 32) (replicate len 0)
    else crc64_be seed (replicate len 0)

-- The loop of the merge, on fuel
unfoldable pub merge_zeroes : ℕ → ℕ → ℕ → ℕ → Option ℕ
merge_zeroes zero type_ seed b_len = none
merge_zeroes (suc fuel) type_ seed b_len =
    let len = min b_len 4096 in
    let rest = merge_zeroes fuel type_ (merge_seed type_ seed len) (b_len - len) in
    if b_len == 0 then some seed else rest

-- No result also where the assertion on the type fails.
unfoldable pub bch2_checksum_merge : ℕ → ℕ → BchCsum → BchCsum → ℕ → Option BchCsum
bch2_checksum_merge fuel type_ a b b_len =
    if bch2_checksum_mergeable type_
    then elim (merge_zeroes fuel type_ a.lo b_len) [
      | none ↦ none
      | some seed ↦ some (record { lo = bit_xor seed b.lo; hi = bit_xor a.hi b.hi })
    ]
    else none
