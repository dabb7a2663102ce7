-- ===== src/Six/View.antt =====
-- Who may hold the lock at once.
use subvol.Prelude.{
  ℕ, ◌+◌, ◌-◌, ◌%◌, ◌^◌, ◌<◌, ◌≡◌, inl, inr, refl, true, false, none, some, arith, Bool-cases, ◌==◌,
  ◌!=◌,
}
use subvol.Prelude.Run.{ok}
use subvol.Six.{
  SixLockType, read, intent, write, SixLock, lock_val, blocked, held, bit_at, readers_of,
  unlock_wakeup, waiting_bit,
}
use subvol.Six.Ops.{
  six_set_owner, do_six_trylock, six_trylock_type, do_six_unlock_type, six_unlock_type,
  six_lock_wakeup,
}

-- The state word holds 32 bits; a writer excludes readers and has the intent lock; the owner is
-- kept exactly while the intent lock is held.
pub record IsExclusive (lock : SixLock) : Type 0 where
  pub fits : lock.state < 2 ^ 32
  pub writer_alone :
      bit_at 27 lock.state ≡ 1 → (readers_of lock.state ≡ 0) × (bit_at 26 lock.state ≡ 1)
  pub unowned : bit_at 26 lock.state ≡ 0 → lock.owner ≡ none
  pub owned : bit_at 26 lock.state ≡ 1 → (task : ℕ) × (lock.owner ≡ some task)

-- The lock after a thread took it.
abbrev pub taken : SixLock → SixLockType → ℕ → SixLock
taken lock read me = record lock { state = lock.state + 1 }
taken lock intent me = record lock { state = lock.state + 2 ^ 26; owner = some me }
taken lock write me = record lock { state = lock.state + 2 ^ 27 }

-- When a thread may take the lock: a reader, when no writer holds it and the count has room; an
-- intent, when no other intent is held; a writer, over its own intent lock, when no reader holds it.
abbrev pub Allowed : SixLock → SixLockType → Type 0
Allowed lock read = bit_at 27 lock.state ≡ 0
Allowed lock intent = bit_at 26 lock.state ≡ 0
Allowed lock write = readers_of lock.state ≡ 0

-- What the caller has to see to: the count of readers has room, and a writer asks as the owner of
-- the intent lock while no writer holds the lock.
abbrev pub Asks : SixLock → SixLockType → ℕ → Type 0
Asks lock read me = readers_of lock.state + 1 < 2 ^ 26
Asks lock intent me = Unit
Asks lock write me = (lock.owner ≡ some me) × (bit_at 27 lock.state ≡ 0)

trylock-Allowed :
    (lock : SixLock) (t : SixLockType) (me : ℕ)
    → IsExclusive lock
    → Asks lock t me
    → Allowed lock t
    → six_trylock_type lock t me ≡ ok (taken lock t me, true)
unfolding six_trylock_type do_six_trylock six_set_owner lock_val blocked held
trylock-Allowed lock read me h room free =
    let fits : (lock.state + 1) % 2 ^ 32 ≡ lock.state + 1 = omega (arith, h.fits) in
    let counted : (readers_of (lock.state + 1) != 0) ≡ true = ground arith in
    rw (free, fits, counted) refl
trylock-Allowed lock intent me h asks free =
    let fits : (lock.state + 2 ^ 26) % 2 ^ 32 ≡ lock.state + 2 ^ 26 = omega (arith, h.fits) in
    let set_bit : bit_at 26 (lock.state + 2 ^ 26) ≡ 1 = omega arith in
    rw (free, fits, set_bit, h.unowned free) refl
trylock-Allowed lock write me h (own, no_writer) free =
    let fits : (lock.state + 2 ^ 27) % 2 ^ 32 ≡ lock.state + 2 ^ 27 = omega (arith, h.fits) in
    let set_bit : bit_at 27 (lock.state + 2 ^ 27) ≡ 1 = omega arith in
    let mine : (me == me) ≡ true = ground arith in
    rw (own, mine, no_writer, free, fits, set_bit) refl

trylock-refused :
    (lock : SixLock) (t : SixLockType) (me : ℕ)
    → Asks lock t me
    → (Allowed lock t → ⊥)
    → six_trylock_type lock t me ≡ ok (lock, false)
unfolding six_trylock_type do_six_trylock six_set_owner lock_val blocked held
trylock-refused lock read me asks never =
    let busy : bit_at 27 lock.state ≡ 1 = ground arith in rw busy refl
trylock-refused lock intent me asks never =
    let busy : bit_at 26 lock.state ≡ 1 = ground arith in rw busy refl
trylock-refused lock write me (own, no_writer) never =
    let busy : (readers_of lock.state != 0) ≡ true = ground arith in
    let mine : (me == me) ≡ true = ground arith in rw (own, mine, no_writer, busy) refl

owner-intent :
    (lock : SixLock) (me : ℕ) → IsExclusive lock → lock.owner ≡ some me → bit_at 26 lock.state ≡ 1
owner-intent lock me h own = elim (Bool-cases (bit_at 26 lock.state == 0)) [
  | inl z ↦ absurd (let missing = h.unowned (ground arith) in cc)
  | inr o ↦ ground arith
]

taken-IsExclusive :
    (lock : SixLock) (t : SixLockType) (me : ℕ)
    → IsExclusive lock
    → Asks lock t me
    → Allowed lock t
    → IsExclusive (taken lock t me)
taken-IsExclusive lock read me h asks free = record {
  fits = omega (arith, h.fits);
  writer_alone = λ w. absurd (omega arith);
  unowned = λ z. h.unowned (omega arith);
  owned = λ o. h.owned (omega arith);
}
taken-IsExclusive lock intent me h asks free = record {
  fits = omega (arith, h.fits);
  writer_alone = λ w. (let alone = h.writer_alone (omega arith) in absurd (omega arith));
  unowned = λ z. absurd (omega arith);
  owned = λ o. (me, refl);
}
taken-IsExclusive lock write me h (own, no_writer) free =
    let intends : bit_at 26 lock.state ≡ 1 = owner-intent lock me h own in
    record {
      fits = omega (arith, h.fits);
      writer_alone = λ w. (omega arith, omega arith);
      unowned = λ z. absurd (omega arith);
      owned = λ o. (me, own);
    }

-- For a lock that keeps the invariant, asked for as `Asks` says, trying it takes it exactly when the type allows it; the word then
-- counts the new hold, and a writer still excludes readers. Otherwise nothing changes.
pub trylock-IsExclusive :
    (lock : SixLock) (t : SixLockType) (me : ℕ)
    → IsExclusive lock
    → Asks lock t me
    → (Allowed lock t
        → (six_trylock_type lock t me ≡ ok (taken lock t me, true)) × IsExclusive (taken lock t me))
      × ((Allowed lock t → ⊥) → six_trylock_type lock t me ≡ ok (lock, false))
trylock-IsExclusive lock t me h asks = (
  λ allowed. (trylock-Allowed lock t me h asks allowed, taken-IsExclusive lock t me h asks allowed),
  λ never. trylock-refused lock t me asks never,
)

-- The lock after it was released again.
abbrev pub released : SixLock → SixLockType → SixLock
released lock read = lock
released lock intent = lock
released lock write = record lock { seq = (lock.seq + 1) % 2 ^ 32 }

-- Releasing a lock that kept the invariant and was just taken, asked for as `Asks` says, when no thread waits for it and there is no recursion,
-- restores it; only a writer leaves a mark, the next sequence number.
pub unlock-taken :
    (lock : SixLock) (t : SixLockType) (me : ℕ)
    → IsExclusive lock
    → lock.state < 2 ^ 28
    → (lock.intent_lock_recurse ≡ 0) × (lock.write_lock_recurse ≡ 0)
    → Asks lock t me
    → Allowed lock t
    → six_unlock_type (taken lock t me) t me ≡ ok (released lock t)
unfolding six_unlock_type do_six_unlock_type lock_val held six_lock_wakeup unlock_wakeup waiting_bit
unlock-taken lock read me h small (i, w) asks free =
    let counted : (readers_of (lock.state + 1) != 0) ≡ true = ground arith in
    let back : (lock.state + 1 + 2 ^ 32 - 1) % 2 ^ 32 ≡ lock.state = omega arith in
    let quiet : bit_at 30 lock.state ≡ 0 = omega arith in
    elim (Bool-cases (readers_of lock.state != 0)) [
      | inl more ↦ rw (counted, back, more) refl
      | inr last ↦ rw (counted, back, last, quiet) refl
    ]
unlock-taken lock intent me h small (i, w) asks free =
    let mine : (me == me) ≡ true = ground arith in
    let set_bit : bit_at 26 (lock.state + 2 ^ 26) ≡ 1 = omega arith in
    let spins : bit_at 31 (lock.state + 2 ^ 26) ≡ 0 = omega arith in
    let back : (lock.state + 2 ^ 26 + 2 ^ 32 - 2 ^ 26) % 2 ^ 32 ≡ lock.state = omega arith in
    let quiet : bit_at 29 lock.state ≡ 0 = omega arith in
    rw (mine, i, set_bit, spins, back, quiet, h.unowned free) refl
unlock-taken lock write me h small (i, w) (own, no_writer) free =
    let mine : (me == me) ≡ true = ground arith in
    let set_bit : bit_at 27 (lock.state + 2 ^ 27) ≡ 1 = omega arith in
    let intends : bit_at 26 (lock.state + 2 ^ 27) ≡ 1 =
      (let intent_held = owner-intent lock me h own in omega arith) in
    let spins : bit_at 31 (lock.state + 2 ^ 27) ≡ 0 = omega arith in
    let back : (lock.state + 2 ^ 27 + 2 ^ 32 - 2 ^ 27) % 2 ^ 32 ≡ lock.state = omega arith in
    let quiet : bit_at 28 lock.state ≡ 0 = omega arith in
    rw (intends, own, mine, w, set_bit, spins, back, quiet) refl
