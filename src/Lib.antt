-- ===== src/Lib.antt =====
-- Verification of a software transactional memory library and of the programs around it.
--
-- The library (353055/) lets threads of one process share a memory region through transactions, by
-- the TL2 scheme: a global clock, a lock bit and a version for every word, a read set and a write set
-- for every transaction, and a Bloom filter that tells which addresses a transaction has written.
--
-- Stm models it call by call.
--   Stm.Memory     the bytes that the library reaches by address, memcpy and memset
--   Stm.Types      the structs of 353055/data_structures.h; a pointer to a segment is its index
--   Stm.Bloom      353055/bloom_filter.h: initialiseBloomFilter, hashFunction, addToBloomFilter,
--                  isInBloomFilter
--   Stm.Locks      353055/helper_functions.h: segFromWordAddress, getWriteNode, releaseLocks,
--                  acquireLocks, validate, writeToLocations
--   Stm.Alloc      initNode of helper_functions.h; tm_create, tm_start, tm_size, tm_align, tm_alloc,
--                  tm_free of 353055/tm.c
--   Stm.Begin      tm_begin, cleanTransaction
--   Stm.Destroy    tm_destroy, cleanSegments: the blocks that they free
--   Stm.Read       tm_read;  Stm.Write  tm_write;  Stm.Commit  tm_end
--   Stm.System     threads that make these calls in any order, as a step relation
--   Stm.Word       one word, access by access: the loop of tm_read against the ends of any number of
--                  transactions, in any interleaving. Reads of words that the reader's own transaction has
--                  written are not in it
--   Stm.Overlap    two ends, access by access, of which each has read the word that the other writes
-- The children and the other modules of Stm hold proofs: Stm.Locks.Acquire and Stm.Locks.Publish
-- (locking, publication), Stm.Bloom.Laws, Stm.Bloom.Text, Stm.Write.Log (the write set as a map),
-- Stm.Commit.Cases (what an end does), Stm.Commit.Valid, Stm.Read.Cases (what a read does),
-- Stm.Snapshot and Stm.Opacity (what a transaction sees between calls), Stm.Word.Snapshot,
-- Stm.Overlap.Skew, Stm.Conflict, Stm.Fresh (new segments), Stm.Totality (writes return), Stm.Faults
-- (where the library fails). Stm.Tests runs it.
--
-- Rwlock models the lock of 353055/readers_writer.h, which the library does not use: RwLock is the
-- struct, read_lock, read_unlock, write_lock and write_unlock are what its functions do while they
-- hold the mutex, and a step relation over any number of threads adds the two conditions, with waits
-- that may end by themselves. Rwlock.Invariant holds its theorems.
--
-- Reference models reference/tm.c, the library with one lock for everything: tm_alloc, tm_free and the
-- loop of tm_destroy over a doubly linked list of headers in a heap, and tm_read, tm_write.
-- Reference.Library has tm_create, tm_destroy, tm_begin, tm_end and the queries, and the functions of
-- reference/shared-lock.c. Each of these passes its call on to a POSIX reader-writer lock, which is an
-- argument; IsRwlock says what the theorem on exclusion relies on. Reference.Segments,
-- Reference.Library.Life and Reference.Library.Exclusion hold the proofs.
--
-- Grading models the program that tests a library (grading/).
--   Grading.Transaction  grading/transactional.hpp: class Transaction and the loop transactional, over
--                  any library, which is a record of its functions. A closure is a tree of the calls
--                  that it makes and of the assignments to the variables that it captures by
--                  reference (keep), whose values an aborted attempt hands on to the next (kept,
--                  attempt_kept); the fuel of transactional is the number of attempts
--   Grading.Shared the templates Shared of that file, for types of 8 bytes
--   Grading.Store  what a closure does when nothing comes between, on the words of the shared memory
--   Grading.Retry  the contract of a library (IsAtomic, in Grading.Retry.Contract) and what transactional
--                  makes of it
--   Grading.Template  template/tm.c, whose calls all fail, as such a record
--   Grading.Bank   class WorkloadBank of grading/workload.hpp: segment, long_tx, alloc_tx, short_tx and
--                  the two transactions of init (init_tx, init_check), as closures; its loops have fuel,
--                  for which one round for each segment is enough, long_tx one more
--   Grading.Check  check of that class: its transactions on a counter, and the loop of its threads,
--                  each transaction at once
--   Grading.Barrier  class Barrier of grading/common.hpp: the atomic operations of sync, by any number of
--                  threads in any order; memory is sequentially consistent
--   Grading.Chrono  class Chrono of that file; the answers of the clock are arguments
--   Grading.Driver  grading/grading.cpp: class Sync and the workers and the master of measure, by their
--                  atomic operations in any order. A workload returns without an error, or with one, or
--                  throws, as it likes. The class Latch of grading/common.hpp is the field raised: a call
--                  of raise, and a wait that ends, is one operation. The master reads the status and
--                  errmsg in one; memory is sequentially consistent
--   Grading.Main   main of that file: its parameters, the limits that the reference sets, and the loop over
--                  the libraries, for any results of measure
-- Grading.Driver.Counts, Stage, Rounds, Moves, Reports, Runs, Phase and Measure hold the invariant of the
-- driver, Outcome, Ends and Progress what follows from it, Grading.Driver.Tests a run.
-- Grading.Barrier.Stage and Grading.Barrier.Rounds hold the proofs on the barrier, Grading.Check.Countdown
-- those on check.
-- The children of Grading.Bank hold proofs: Money (long transactions), Frame and Account (what a write
-- leaves alone), Transfer, Retried and Balance (short transactions), Splice, Last, Tail, Resize, Ends, Alloc and
-- Changes (allocations), Init, and Serial (all of them in any order). Balances are words of 64 bits and
-- their sums wrap around. Grading.Tests runs them, with a library for one thread.
-- Not modelled there: the loading of a library, the random choices of run, the barriers in check, the
-- median of the ticks, the output, and the failure to start a thread. How long a step takes is not
-- modelled: a master that waits under a limit may give up at any time.
--
-- Sync models the programs of sync-examples/, as steps of threads in any order.
--   Sync.Procon    procon3.c: produce and consume, statement by statement; Sync.Procon.Locked is
--                  procon4.c, in which what a thread does under the lock is one turn and a wait may
--                  end by itself, Sync.Procon.Busy is procon2.c, with such turns and no waits, and
--                  Sync.Procon.Free procon1.c, without a lock. A run is a list of turns; the data are
--                  of any type
--   Sync.Counter   the programs counter: Locked is counter2.c, Atomic counter4.c, Unlocked counter1.c
--                  and counter3.c
--   Sync.Election  one round of the programs election: Locked is election2.c, Atomic election4.c,
--                  Unlocked election1.c and election3.c
-- Sync.Procon.Invariant, Sync.Procon.Round, Sync.Procon.Waiting, Sync.Counter.Total, Sync.Counter.Lost and
-- Sync.Election.Leader hold their proofs, Sync.Tests runs them. Memory is sequentially consistent, and
-- a POSIX lock has one holder.
--
-- The answers of the C allocator are arguments: Booleans, or one Boolean for every round of a loop.
-- The block that posix_memalign gives is an argument too; that it is not in use is the hypothesis
-- IsFresh. An access outside mapped memory or past the end of a lock array, a failed assertion, a
-- use after free, a division by zero and a wait that nobody ends are the answer none. Counters keep
-- their widths: versions and rv have 32 bits, the clock 64.
--
-- In Stm.System a call is one step, so no thread runs while another one is inside a call: the lock bits
-- are free between calls, and the second look at a version in tm_read sees what the first one saw.
-- What is shown of several calls there holds for calls that follow one another, and does not carry over
-- to ends of transactions that overlap: validate looks at the version before the lock bit, so that two
-- overlapping ends can both answer true although each transaction has read what the other writes.
--
-- Loops run over a list or count down the words of the request, and hashing
-- runs at most to the end of the mapped memory. The loop of tm_destroy in Reference has fuel, for which
-- the number of segments is enough.
pub mod Grading
pub mod Prelude
pub mod Reference
pub mod Rwlock
pub mod Stm
pub mod Sync
