-- ===== src/Tests/Checksums.antt =====
-- Checksums of crates/subvol/src/checksum.rs, with the vectors of its tests.
use subvol.Prelude.{ℕ, ◌≡◌, refl, some, none, List, [], ◌∷◌, length, if◌then◌else◌, arith}
use subvol.Checksum.{
  crc32c, crc64_be, crc32c_table, crc64_table, xxh64, xxh64_start, xxh64_blocks, xxh64_words,
  xxh64_bytes, xxh64_round, xxh64_merge_round, bch2_checksum, bch2_checksum_mergeable,
  bch2_checksum_merge,
}
use subvol.Checksum.Merge.{merge-append}

abbrev digits : List ℕ
digits = 49 ∷ 50 ∷ 51 ∷ 52 ∷ 53 ∷ 54 ∷ 55 ∷ 56 ∷ 57 ∷ []

crc32c_vector : crc32c 0 digits ≡ 0x58e3fa20
unfolding crc32c crc32c_table
crc32c_vector = refl

crc64_vector : crc64_be 0 digits ≡ 0x6c40df5f0b497347
unfolding crc64_be crc64_table
crc64_vector = refl

xxh64_vector : xxh64 digits 0 ≡ 0x8cb841db40e6ae83
unfolding xxh64 xxh64_start xxh64_blocks xxh64_words xxh64_bytes xxh64_round xxh64_merge_round
xxh64_vector = refl

xxh64_empty : xxh64 [] 0 ≡ 0xef46db3751d8e999
unfolding xxh64 xxh64_start xxh64_blocks xxh64_words xxh64_bytes xxh64_round xxh64_merge_round
xxh64_empty = refl

merge-append_example :
    bch2_checksum_merge 10 5 (bch2_checksum 5 (7 ∷ [])) (bch2_checksum 5 digits) (length digits)
    ≡ (if bch2_checksum_mergeable 5 then some (bch2_checksum 5 (7 ∷ digits)) else none)
merge-append_example = merge-append 10 5 (7 ∷ []) digits (omega arith)
