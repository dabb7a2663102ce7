-- ===== src/Six/Queue.antt =====
-- The queue of crates/subvol/src/lock/six.rs. An index out of bounds reads as a free place; the
-- callers keep `nr` and `next_free_hint` inside.
use subvol.Prelude.{
  ℕ, zero, suc, ◌+◌, ◌-◌, ◌*◌, ◌%◌, ◌^◌, Bool, true, false, none, some, get_or, set, min, max,
  bit_and, bit_or, ltb, ◌==◌, if◌then◌else◌,
}
use subvol.Prelude.Run.{Run, ok, panic}
use subvol.Snapshot.Mark.{resize}
use subvol.Six.{SixLockType, SixLockWaitSlot, SixLockWaitFifo, free_slot, type_index}

abbrev pub slot_at : SixLockWaitFifo → ℕ → SixLockWaitSlot
slot_at wf i = get_or wf.slots i free_slot

abbrev pub is_free : SixLockWaitSlot → Bool
is_free slot = elim slot.w [ none ↦ true | some task ↦ false ]

abbrev shrunk : SixLockWaitFifo → ℕ → ℕ
shrunk wf zero = 0
shrunk wf (suc n) = let rest = shrunk wf n in if is_free (slot_at wf n) then rest else suc n

unfoldable pub six_lock_wait_fifo_shrink : SixLockWaitFifo → SixLockWaitFifo
six_lock_wait_fifo_shrink wf =
    let nr = shrunk wf wf.nr in record wf { nr = nr; next_free_hint = min wf.next_free_hint nr }

unfoldable pub six_lock_wait_fifo_remove : SixLockWaitFifo → ℕ → SixLockWaitFifo
six_lock_wait_fifo_remove wf idx = record wf {
  slots = set wf.slots idx (record (slot_at wf idx) { w = none });
  next_free_hint = min wf.next_free_hint idx;
}

-- The first free place from `i` on, among the `n` places left, or the place behind them.
abbrev pub first_free : SixLockWaitFifo → ℕ → ℕ → ℕ
first_free wf zero i = i
first_free wf (suc n) i =
    let rest = first_free wf n (i + 1) in if is_free (slot_at wf i) then i else rest

abbrev double : SixLockWaitFifo → SixLockWaitFifo
double wf = record wf { size = wf.size * 2; slots = resize wf.slots (wf.size * 2) free_slot }

abbrev place : SixLockWaitFifo → ℕ → ℕ → ℕ → SixLockType → SixLockWaitFifo × ℕ
place wf i task trans_start_time lock_want = (
  record wf {
    slots = set wf.slots i (record {
      w = some task;
      start_time = bit_or (trans_start_time * 2 ^ 2 % 2 ^ 64) (type_index lock_want);
    });
    next_free_hint = bit_and (i + 1) (wf.size - 1);
    nr = max wf.nr (i + 1);
  },
  i,
)

-- The queue with the waiter, and the waiter's place
unfoldable pub six_lock_wait_fifo_insert :
    SixLockWaitFifo → ℕ → ℕ → SixLockType → Run (SixLockWaitFifo × ℕ)
six_lock_wait_fifo_insert wf task trans_start_time lock_want =
    let i = first_free wf wf.nr 0 in
    if is_free (slot_at wf wf.next_free_hint)
    then ok (place wf wf.next_free_hint task trans_start_time lock_want)
    else if i == wf.size
    then (if ltb wf.size (2 ^ 15)
        then ok (place (double wf) i task trans_start_time lock_want)
        else panic)
    else ok (place wf i task trans_start_time lock_want)
