-- ===== src/Tests/Hashes.antt =====
-- Hashes of crates/subvol/src/util/jhash.rs.
use subvol.Prelude.{◌≡◌, [], ◌∷◌, arith}
use subvol.Jhash.{jhash, jhash2, jhash_1word, jhash_2words, jhash_3words}
use subvol.Jhash.Words.{bytes_of, jhash-bytes_of, words-jhash2}

jhash-bytes_of_example :
    jhash (bytes_of (0x01020304 ∷ 5 ∷ 6 ∷ 7 ∷ 8 ∷ [])) 9
    ≡ jhash2 (0x01020304 ∷ 5 ∷ 6 ∷ 7 ∷ 8 ∷ []) 9
jhash-bytes_of_example =
    jhash-bytes_of (0x01020304 ∷ 5 ∷ 6 ∷ 7 ∷ 8 ∷ []) 9
      (omega arith, (omega arith, (omega arith, (omega arith, (omega arith, tt)))))

words-jhash2_example :
    (jhash_3words 1 2 3 4 ≡ jhash2 (1 ∷ 2 ∷ 3 ∷ []) 4)
    × (jhash_2words 1 2 4 ≡ jhash2 (1 ∷ 2 ∷ []) 4)
    × (jhash_1word 1 4 ≡ jhash2 (1 ∷ []) 4)
words-jhash2_example = words-jhash2 1 2 3 4
