-- ===== src/Tests/Locks.antt =====
-- A lock of crates/subvol/src/lock/six.rs that thread 7 holds for intent.
use subvol.Prelude.{◌^◌, ◌≡◌, refl, true, false, some, [], replicate, arith}
use subvol.Prelude.Run.{ok}
use subvol.Six.{SixLock, write, free_slot}
use subvol.Six.Ops.{six_trylock_type, six_unlock_type}
use subvol.Six.View.{IsExclusive, Allowed, taken, trylock-IsExclusive, unlock-taken}

abbrev intended : SixLock
intended = record {
  state = 2 ^ 26;
  seq = 5;
  intent_lock_recurse = 0;
  write_lock_recurse = 0;
  owner = some 7;
  wait_fifo = record { size = 8; nr = 0; next_free_hint = 0; slots = replicate 8 free_slot };
  woken = [];
}

intended-IsExclusive : IsExclusive intended
intended-IsExclusive = record {
  fits = omega arith;
  writer_alone = λ w. absurd (omega arith);
  unowned = λ z. absurd (omega arith);
  owned = λ o. (7, refl);
}

trylock-IsExclusive_example :
    (Allowed intended write
      → (six_trylock_type intended write 7 ≡ ok (taken intended write 7, true))
        × IsExclusive (taken intended write 7))
    × ((Allowed intended write → ⊥) → six_trylock_type intended write 7 ≡ ok (intended, false))
trylock-IsExclusive_example = trylock-IsExclusive intended write 7 intended-IsExclusive (refl, refl)

unlock-taken_example :
    six_unlock_type (taken intended write 7) write 7 ≡ ok (record intended { seq = 6 })
unlock-taken_example =
    unlock-taken intended write 7 intended-IsExclusive (omega arith) (refl, refl) (refl, refl) refl
