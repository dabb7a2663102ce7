-- ===== src/Six.antt =====
-- crates/subvol/src/lock/six.rs: the shared, intent and exclusive lock. Each call is modelled as
-- it runs when no other thread changes the state word under it, so that its compare-and-exchange
-- succeeds; a thread is a number.
pub mod Queue
pub mod Ops
pub mod View
use subvol.Prelude.{
  ℕ, ◌+◌, ◌-◌, ◌*◌, ◌/◌, ◌%◌, ◌^◌, Bool, true, false, Option, none, some, List, [], ◌==◌, ◌!=◌,
}

pub data SixLockType : Type 0 where
  read intent write : SixLockType

-- A place in the queue: the waiting thread, and its start time above the two bits of the type.
pub record SixLockWaitSlot : Type 0 where
  pub w : Option ℕ
  pub start_time : ℕ

abbrev pub free_slot : SixLockWaitSlot
free_slot = record { w = none; start_time = 0 }

pub record SixLockWaitFifo : Type 0 where
  pub size : ℕ
  pub nr : ℕ
  pub next_free_hint : ℕ
  pub slots : List SixLockWaitSlot

-- `woken` lists the threads whose `lock_acquired` was set, the last one first.
pub record SixLock : Type 0 where
  pub state : ℕ
  pub seq : ℕ
  pub intent_lock_recurse : ℕ
  pub write_lock_recurse : ℕ
  pub owner : Option ℕ
  pub wait_fifo : SixLockWaitFifo
  pub woken : List ℕ

-- The fields of the state word: the readers in bits 0 to 25, and single bits above them.
abbrev pub readers_of : ℕ → ℕ
readers_of state = state % 2 ^ 26

abbrev pub bit_at : ℕ → ℕ → ℕ
bit_at n state = state / 2 ^ n % 2

abbrev pub type_index : SixLockType → ℕ
type_index read = 0
type_index intent = 1
type_index write = 2

abbrev pub same_type : SixLockType → SixLockType → Bool
same_type t u = type_index t == type_index u

unfoldable pub lock_val : SixLockType → ℕ
lock_val read = 1
lock_val intent = 2 ^ 26
lock_val write = 2 ^ 27

-- `state & lock_fail(lock_type) != 0`
unfoldable pub blocked : SixLockType → ℕ → Bool
blocked read state = bit_at 27 state != 0
blocked intent state = bit_at 26 state != 0
blocked write state = readers_of state != 0

-- `state & held_mask(lock_type) != 0`
unfoldable pub held : SixLockType → ℕ → Bool
held read state = readers_of state != 0
held intent state = bit_at 26 state != 0
held write state = bit_at 27 state != 0

unfoldable pub unlock_wakeup : SixLockType → SixLockType
unlock_wakeup read = write
unlock_wakeup intent = intent
unlock_wakeup write = read

-- The number of the bit of `waiting_mask`
unfoldable pub waiting_bit : SixLockType → ℕ
waiting_bit t = 28 + type_index t
