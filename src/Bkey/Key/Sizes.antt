-- ===== src/Bkey/Key/Sizes.antt =====
-- The value size that is kept in `u64s`.
use subvol.Prelude.{ℕ, ◌+◌, ◌/◌, ◌≤◌, ◌<◌, ◌≡◌, some, none, arith}
use subvol.Bkey.Key.{Bkey, bkey_u64s, bkey_bytes, bkey_val_bytes, set_bkey_val_bytes}

-- A value of at most 2000 bytes is accepted; the key then holds it in whole words with less than
-- one word to spare, and its header of five words beside it. A greater value panics.
pub set_bkey_val_bytes_lem :
    (k : Bkey) (bytes : ℕ)
    → (bytes ≤ 2000
        → (k' : Bkey) × (set_bkey_val_bytes k bytes ≡ some k')
          × (bytes ≤ bkey_val_bytes k')
          × (bkey_val_bytes k' < bytes + 8)
          × (bkey_bytes k' ≡ 40 + bkey_val_bytes k'))
      × (2000 < bytes → set_bkey_val_bytes k bytes ≡ none)
unfolding set_bkey_val_bytes bkey_val_bytes bkey_bytes
set_bkey_val_bytes_lem k bytes = (
  λ h. (
    record k { u64s = bkey_u64s + (bytes + 7) / 8 },
    ground arith,
    omega arith,
    omega arith,
    omega arith,
  ),
  λ h. ground arith,
)
