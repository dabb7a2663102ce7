-- ===== src/Lib.antt =====
-- subvol: the key space, key formats, snapshots, locks and hashes of a port of the bcachefs btree.
-- The code is that of crates/subvol/src; line and function names below are of that folder.
--
-- Parts and files
--   Prelude: tests, lists, bits and powers of two that the parts share. Prelude/Run has the
--     results of calls that return early (`refused`) or panic (`panic`); Prelude/Options has those
--     that may be missing.
--   Bkey/Pos: positions (`bpos`) of btree/bkey.rs, their comparisons and neighbours. Pos/Value gives
--     each position its number, against which Pos/Order and Pos/Neighbours state the operations.
--   Bkey/Key: keys, versions and header sizes of btree/bkey.rs, merging (`bch2_bkey_merge`, with
--     `bch2_reservation_merge` of btree/bset.rs) and `bch2_extent_overlap` of btree/bset.rs.
--   Bkey/Format: packed keys of btree/bkey.rs. Format has the bit streams, Format/Packed the packing
--     and unpacking of keys and positions, Format/Build the building of a format from keys.
--     Format/Stream and Format/RoundTrip hold the proofs.
--   Snapshot: snapshot.rs. Snapshot/Table has the table and its look-ups, Snapshot/Walk the walks to
--     roots and ancestors, Snapshot/Mark the marking of a committed key, Snapshot/Idlist the lists
--     of ids. Snapshot/Ancestor describes ancestors by the parents alone.
--   Jhash: util/jhash.rs.
--   Checksum: checksum.rs. Checksum/Crc shows that the checks are linear, Checksum/Merge what the
--     merge returns; Prelude/Xor has the algebra of `^`.
--   Rhashtable: util/rhashtable.rs. Rhashtable/Buckets gives the map that a table is, with respect
--     to which Rhashtable/Found, Rhashtable/Removed and Rhashtable/Rehash state the operations.
--   Journal/Keys: the journal keys of journal.rs, with the records of btree/types.rs. Keys has sorting
--     and insertion, Keys/Peek the look-ups, Keys/Overwrite the marking of overwritten keys. Keys/Rank
--     gives each place its number, by which the array is a map; Keys/Valid has the invariant, with
--     Keys/Sorted, Keys/Ranges and Keys/Known for sorting; Keys/Insert, Keys/Found, Keys/Slot,
--     Keys/Behind and Keys/Checked state the operations against it, the last one by Keys/Marked,
--     Keys/Moved, Keys/Neighbours and Keys/Joined.
--   Journal/Res: the reservations of journal.rs. Res has the state word and the calls, Res/Fields its
--     fields, Res/Got what getting a reservation does, Res/Put what putting one does.
--   Six: lock/six.rs. Six/Queue has the queue of waiters, Six/Ops the calls, Six/View the invariant.
--   Tests: runs at concrete inputs.
-- Keys of Snapshot and Journal are those of Bkey; the other parts stand alone.
--
-- How the code is read
--   Numbers are natural numbers. A machine word keeps its wrap-around as a remainder; where a
--   build with overflow checks panics, the model panics or has no result. A store through
--   a raw pointer is a panic outside of its buffer, where the source has undefined behaviour. A C-like array with one
--   element for each field of a key is a function of the field.
--   A packed key is the list of its five words, the first of which has the three header bytes
--   below the packed fields; the machine is little-endian.
--   The state is passed on explicitly: a lock around a table is held for the whole of a call, so
--   that a call sees one table. The calls of the six lock and of the journal's reservations run
--   without interference of other threads on the state word.
--   Loops over parents run on fuel. The walks to an ancestor end when the fuel exceeds the distance
--   of the ids, since a parent has a greater id; the loop that marks a bitmap needs 129 steps, the
--   128 bits and the last test. A look-up of journal keys takes at most one step for each key, so
--   that fuel greater than the length of the array is enough. That fuel is enough is part of the
--   theorems.
--   An allocator is a function that says which capacities it grants.
--   The merge of checksums takes one step for each block of 4096 bytes and one more.
--
-- Not modelled: the code over raw pointers, devices and threads (btree/bset*.rs, btree/node_iter.rs,
-- btree/cache.rs, btree/io.rs, btree/interior.rs, btree/iter.rs, btree/update.rs, btree/alloc.rs,
-- the pins, writes and replay of journal.rs, sb, engine.rs, bin, util/workqueue.rs, util/rcu.rs,
-- util/log.rs), and the small components util/eytzinger.rs, util/bit_spinlock.rs and
-- data/keylist.rs. Of lock/six.rs the sleeping slow path is left out, since it parks a thread; of
-- util/rhashtable.rs the waits for readers and the freeing of tables; of snapshot.rs the scans over
-- btree iterators and the random choice of a skip.
pub mod Prelude
pub mod Bkey
pub mod Snapshot
pub mod Six
pub mod Jhash
pub mod Checksum
pub mod Rhashtable
pub mod Journal
pub mod Tests
