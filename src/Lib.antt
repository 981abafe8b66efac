-- ===== src/Lib.antt =====
-- A model of the programs of an operating systems course: a paging simulator with its pagers, a
-- character device driver, bounded buffers shared by threads, and small routines on bytes.
--
-- The paging simulator (assignments/pa7) is the largest part. Its data is in Paging.antt (the
-- structs of simulator.h; a pointer into `queue[]` is an index, a NULL pointer is `none`, a static
-- variable of simulator.c is a field of `Sim`). Each function of simulator.c is a function of the
-- same name from the state to the state, with what it prints left out:
--   Paging/Frames: pagein, pageout, allage, process_unload
--   Paging/Branching: bcontext_clear, bcontext_init, bcontext_decide
--   Paging/Search: the two binary searches of process_step
--   Paging/Execution: process_clear, process_load, process_dobranch, process_step
--   Paging/Programs: the table of programs.c; Paging/Execution/Unbranched: programs without a branch, as its
--     fourth, for which process_step reads `branches[-1]`: that is a fault here, and the only one of a run
--   Paging/System: initqueue, dequeue, empty, allinit, allstep, alldone, allblocked, callyou, and the
--     loop of main
-- A pager is linked with the simulator and calls it back. Paging/Pager has a pager's run as a tree
-- of calls of pagein and pageout, which the simulator answers (`run_calls`); Paging/Pager/Basic is
-- the pager of pager-basic.c, and Paging/Pager/Predict is the pager of assignments/pa8/
-- pager-predict.c: Predict.antt has its searches and its record of pending operations, Working its
-- working sets, Memory its static variables with the accesses to its tables, where `none` is an
-- access outside of one, and Pageit the phases of pageit and pageit itself. qsort is a parameter,
-- and so is the product of a frequency with ALPHA, cut to an int. Paging/System/Pagers runs it with
-- the simulator.
-- A function that can fail an assertion or read outside an array returns an Option; `none` is
-- that fault. A write outside an array is kept apart as its own result (`bcontext_init`), and what
-- it does to the memory behind the array is not modelled.
-- `long` counters are natural numbers: the program adds one to them per tick and no bound of the
-- machine is reached. Ages of pages, which are negative while a page goes out, are integers.
-- drand48 and lrand48 are parameters over a state of the generator. `drand_lt p` is the test
-- `drand48() < p`, with p in tenths.
--
-- Device.antt is the character device driver (assignments/pa3/pa3_char_device_driver.c), with the
-- 64-bit arithmetic of offsets in Device/Words. copy_to_user and copy_from_user are one parameter,
-- the number of bytes left uncopied, of which at most all are; copy_from_user writes zeros for those.
-- kmalloc's answer is an argument.
--
-- HostArray.antt is the shared array of host names (assignments/pa4/array.c). A semaphore is its
-- count; a wait at 0 is the outcome `blocked`. A call is a sequence of waits, a body and posts, so
-- that an interleaving is a sequence of those parts. sem_getvalue, which fails only on an invalid
-- semaphore, gives the count. Ring.antt has the items in a circular array.
--
-- BoundedQueue.antt is the queue of part 6 of recitation/threads/thread_test.c. A system has any
-- number of threads, each of which is at a line of q_push or q_pop or outside a call; a step is one
-- line of one thread. The bodies of semc_wait and semc_post run under the semaphore's own mutex, so
-- each is one line here. The values pushed and popped so far are recorded beside the state.
-- BoundedQueue/Driver adds the loops of producer and consumer, and what part 6 of main starts.
--
-- Lookup.antt is the multi-threaded resolver of assignments/pa6: requester, resolver and main of
-- multi-lookup.c as threads that step in any order, one step for the code up to the next call on a shared
-- array or an output file. Its shared array is not in its directory: it is a pair of functions, of which
-- the theorems ask that they are a FIFO queue that refuses no name that is short enough (`IsFifo`).
-- What fopen and fgets give of a file, and the lookup of a name, are functions too. Lookup/Pool and
-- Lookup/Account count names, pills and threads; Lookup/Start has the checks of the arguments,
-- Lookup/Spawn spawn_threads, Lookup/Launch the program that main sets up with it, Lookup/Whole the way from
-- the arguments to what main returns, and Lookup/Dns dnslookup of util.c.
--
-- Tester.antt is the program that tries the driver out (assignments/pa2/pa2test.c): its commands and its
-- loops that read and write in pieces, over any file, and its main from the arguments on; Tester/Loops has
-- the loop of writes on the driver of Device.antt, Tester/Ends how the whole program ends.
--
-- Buffers.antt has the routines of the recitations that work on a caller's bytes: upper_reentrant,
-- upper_not_reentrant, copy_from_user_sim, copy_to_user_sim and reverse_in_place. Buffers/Labels is
-- part 5 of recitation/threads/thread_test.c (read_label_bounded, the tag, fn_bounds), with fgets on the
-- bytes that the input has left; Buffers/Exchange is main of recitation/kernel-mem-access/copy_sim.c.
--
-- Counters.antt is parts 1 and 2 of recitation/threads/thread_test.c: inc_no_lock and inc_with_lock, one
-- step for each access to `counter` and `g_lock`, by any number of threads in any order. The memory is
-- sequentially consistent, which C does not promise of the race in part 1.
--
-- Ints.antt is csci3753_mult (assignments/pa1) and sum_array (recitation/syscall-demo); Prelude/Word has
-- the conversion of an integer to an int of 32 bits that they and allscore of the simulator use.
--
-- Fuel: the loop of an IF branch has no bound in the code, since it waits for random draws to turn.
-- With draws that turn within k it needs 100 * k rounds, one run for each entry of the array.
-- reverse_in_place has as much fuel as there are bytes, of which each round passes two. The binary
-- search has as much fuel as there are entries, since each round halves the distance of its two
-- places. A loop of pa2test.c has one round more than there are bytes, since each call moves a byte at
-- least. The loop of main is run for a number of rounds, which is any number.
--
-- Not modelled: the log and the csv files of simulator.c, and the text of what it prints; the
-- plots of assignments/pa7/see.R; assignments/pa7/pager-lru.c, a stub; the test program of the array
-- (assignments/pa4/test.c); of assignments/pa6 the locks of the output, the times, and threads that do
-- not start or that run on when main has failed; of assignments/pa2/pa2test.c the size of
-- read_buf; assignments/pa1/helloworld.c, which prints a line; of the recitations the
-- condition variable of semc_wait, of which a wait that cannot go on makes no step, and what the mains
-- print.
pub mod Prelude
pub mod Paging
pub mod Device
pub mod Ring
pub mod HostArray
pub mod BoundedQueue
pub mod Buffers
pub mod Lookup
pub mod Tester
pub mod Counters
pub mod Ints
pub mod Tests
