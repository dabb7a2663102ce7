-- ===== src/Six/Ops.antt =====
-- Taking and releasing the lock of crates/subvol/src/lock/six.rs.
use subvol.Prelude.{
  ℕ, zero, suc, ◌+◌, ◌-◌, ◌*◌, ◌%◌, ◌^◌, Bool, true, false, not, Option, none, some, ◌∷◌, ltb, ◌==◌,
  ◌!=◌, ◌&&◌, ◌||◌, if◌then◌else◌,
}
use subvol.Prelude.Run.{Run, ok, check, ◌>>=◌, ◌>>◌}
use subvol.Six.{
  SixLockType, read, intent, write, SixLock, SixLockWaitFifo, SixLockWaitSlot, same_type,
  type_index, lock_val, blocked, held, bit_at, readers_of, unlock_wakeup, waiting_bit,
}
use subvol.Six.Queue.{slot_at, is_free, six_lock_wait_fifo_shrink, six_lock_wait_fifo_remove}

abbrev pub owned_by : SixLock → ℕ → Bool
owned_by lock task = elim lock.owner [ none ↦ false | some owner ↦ owner == task ]

abbrev unowned : SixLock → Bool
unowned lock = elim lock.owner [ none ↦ true | some owner ↦ false ]

unfoldable pub six_set_owner : SixLock → SixLockType → ℕ → ℕ → Run SixLock
six_set_owner lock read old task = ok lock
six_set_owner lock write old task = ok lock
six_set_owner lock intent old task =
    if bit_at 26 old == 0
    then (check (unowned lock) >> ok (record lock { owner = some task }))
    else (check (owned_by lock task) >> ok lock)

abbrev same_bool : Bool → Bool → Bool
same_bool true b = b
same_bool false b = not b

-- `__do_six_trylock`
unfoldable pub do_six_trylock : SixLock → SixLockType → ℕ → Bool → Run (SixLock × Bool)
do_six_trylock lock lock_type task try_lock =
    let writes = same_type lock_type write in
    let free = not (blocked lock_type lock.state) in
    let state = (lock.state + lock_val lock_type) % 2 ^ 32 in
    check (not writes || owned_by lock task)
    >> check (not writes || same_bool try_lock (bit_at 27 lock.state == 0))
    >> (if free && not (writes && not try_lock)
        then (check (held lock_type state)
            >> six_set_owner (record lock { state = state }) lock_type lock.state task
            >>= λ l. ok (l, true))
        else if free
        then (six_set_owner lock lock_type lock.state task >>= λ l. ok (l, true))
        else ok (lock, false))

abbrev wants : SixLockWaitSlot → SixLockType → Bool
wants slot lock_type = slot.start_time % 2 ^ 2 == type_index lock_type

-- A waiter gets the lock: its place is free again and it is woken.
abbrev wake : SixLock → ℕ → ℕ → SixLock
wake lock i task = record lock {
  wait_fifo = six_lock_wait_fifo_remove lock.wait_fifo i;
  woken = task ∷ lock.woken;
}

-- The loop over the waiting readers from place `i` on, with `n` places left, until one fails.
unfoldable pub wake_readers : ℕ → ℕ → SixLock → Run SixLock
wake_readers zero i lock = ok lock
wake_readers (suc n) i lock =
    let slot = slot_at lock.wait_fifo i in
    elim slot.w [
      | none ↦ wake_readers n (i + 1) lock
      | some task ↦
          if wants slot read
          then (do_six_trylock lock read task false >>= λ r.
              if r.1 then wake_readers n (i + 1) (wake r.0 i task) else ok r.0)
          else wake_readers n (i + 1) lock
    ]

-- The waiter with the least start time, and the number of waiters of the type.
abbrev pub older : SixLockWaitFifo → SixLockType → ℕ → ℕ → Option ℕ × ℕ → Option ℕ × ℕ
older wf lock_type zero i found = found
older wf lock_type (suc n) i (oldest, n_matches) =
    let slot = slot_at wf i in
    let better : Bool = elim oldest [
      | none ↦ true
      | some j ↦ ltb slot.start_time (slot_at wf j).start_time
    ] in
    let next : Option ℕ × ℕ =
      if is_free slot || not (wants slot lock_type)
      then (oldest, n_matches)
      else (if better then some i else oldest, n_matches + 1) in
    older wf lock_type n (i + 1) next

abbrev task_at : SixLock → ℕ → ℕ
task_at lock i = elim (slot_at lock.wait_fifo i).w [ none ↦ 0 | some task ↦ task ]

abbrev clear_waiting : SixLock → SixLockType → SixLock
clear_waiting lock lock_type =
    let n = waiting_bit lock_type in
    record lock {
      state = lock.state - bit_at n lock.state * 2 ^ n;
      wait_fifo = six_lock_wait_fifo_shrink lock.wait_fifo;
    }

abbrev wake_oldest : SixLock → SixLockType → Option ℕ × ℕ → Run SixLock
wake_oldest lock lock_type (none, n_matches) = ok (clear_waiting lock lock_type)
wake_oldest lock lock_type (some i, n_matches) =
    let task = task_at lock i in
    do_six_trylock lock lock_type task false >>= λ r.
    let taken = wake r.0 i task in
    if r.1
    then (if ltb 1 n_matches
        then ok (record taken { wait_fifo = six_lock_wait_fifo_shrink taken.wait_fifo })
        else ok (clear_waiting taken lock_type))
    else ok (clear_waiting r.0 lock_type)

-- `__six_lock_wakeup`
unfoldable pub do_six_lock_wakeup : SixLock → SixLockType → Run SixLock
do_six_lock_wakeup lock read =
    wake_readers lock.wait_fifo.nr 0 lock >>= λ l. ok (clear_waiting l read)
do_six_lock_wakeup lock lock_type =
    wake_oldest lock lock_type (older lock.wait_fifo lock_type lock.wait_fifo.nr 0 (none, 0))

unfoldable pub six_lock_wakeup : SixLock → ℕ → SixLockType → Run SixLock
six_lock_wakeup lock state lock_type =
    if same_type lock_type write && (readers_of state != 0)
    then ok lock
    else if bit_at (waiting_bit lock_type) state == 0
    then ok lock
    else do_six_lock_wakeup lock lock_type

unfoldable pub six_trylock_type : SixLock → SixLockType → ℕ → Run (SixLock × Bool)
six_trylock_type lock lock_type me = do_six_trylock lock lock_type me true

unfoldable pub do_six_unlock_type : SixLock → SixLockType → Run SixLock
do_six_unlock_type lock lock_type =
    let owner = if same_type lock_type intent then none else lock.owner in
    let nospin = if same_type lock_type read then 0 else bit_at 31 lock.state * 2 ^ 31 in
    let state = (lock.state + 2 ^ 32 - (lock_val lock_type + nospin)) % 2 ^ 32 in
    check (held lock_type lock.state)
    >> six_lock_wakeup (record lock { state = state; owner = owner }) state
        (unlock_wakeup lock_type)

-- `six_unlock_ip`, called by the thread `me`
unfoldable pub six_unlock_type : SixLock → SixLockType → ℕ → Run SixLock
six_unlock_type lock lock_type me =
    let writes = same_type lock_type write in
    let intends = same_type lock_type intent in
    check (not writes || held intent lock.state)
    >> check (not (writes || intends) || owned_by lock me)
    >> (if intends && (lock.intent_lock_recurse != 0)
        then ok (record lock { intent_lock_recurse = lock.intent_lock_recurse - 1 })
        else if writes && (lock.write_lock_recurse != 0)
        then ok (record lock { write_lock_recurse = lock.write_lock_recurse - 1 })
        else do_six_unlock_type
            (record lock { seq = if writes then (lock.seq + 1) % 2 ^ 32 else lock.seq }) lock_type)

-- `six_relock_ip`; no other thread changes `seq` between its two reads.
unfoldable pub six_relock_type : SixLock → SixLockType → ℕ → ℕ → Run (SixLock × Bool)
six_relock_type lock lock_type seq me =
    if lock.seq != seq
    then ok (lock, false)
    else (six_trylock_type lock lock_type me >>= λ r.
        if not r.1
        then ok (r.0, false)
        else if r.0.seq != seq
        then (six_unlock_type r.0 lock_type me >>= λ l. ok (l, false))
        else ok (r.0, true))

unfoldable pub six_lock_increment : SixLock → SixLockType → Run SixLock
six_lock_increment lock read =
    check (held read lock.state || held intent lock.state)
    >> ok (record lock { state = (lock.state + 1) % 2 ^ 32 })
six_lock_increment lock write =
    check (held intent lock.state)
    >> ok (record lock {
      write_lock_recurse = (lock.write_lock_recurse + 1) % 2 ^ 32;
      intent_lock_recurse = (lock.intent_lock_recurse + 1) % 2 ^ 32;
    })
six_lock_increment lock intent =
    check (held intent lock.state)
    >> ok (record lock { intent_lock_recurse = (lock.intent_lock_recurse + 1) % 2 ^ 32 })

unfoldable pub six_lock_downgrade : SixLock → ℕ → Run SixLock
six_lock_downgrade lock me = six_lock_increment lock read >>= λ l. six_unlock_type l intent me

unfoldable pub six_lock_tryupgrade : SixLock → ℕ → Run (SixLock × Bool)
six_lock_tryupgrade lock me =
    if held intent lock.state
    then ok (lock, false)
    else (check (held read lock.state)
        >> six_set_owner (record lock { state = lock.state - 1 + 2 ^ 26 }) intent lock.state me
        >>= λ l. ok (l, true))

unfoldable pub six_trylock_convert : SixLock → SixLockType → SixLockType → ℕ → Run (SixLock × Bool)
six_trylock_convert lock from to me =
    check (not (same_type to write))
    >> check (not (same_type from write))
    >> (if same_type to from
        then ok (lock, true)
        else if same_type to read
        then (six_lock_downgrade lock me >>= λ l. ok (l, true))
        else six_lock_tryupgrade lock me)

-- The counts of the three types of holds
unfoldable pub six_lock_counts : SixLock → ℕ × ℕ × ℕ
six_lock_counts lock =
    (readers_of lock.state, bit_at 26 lock.state + lock.intent_lock_recurse, bit_at 27 lock.state)
