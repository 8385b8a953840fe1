-- ===== src/Lib.antt =====
-- target-syslibs, the system abstraction layer for Linux user space: its DMA memory pools
-- (src/bf_sal/linux_usr/bf_sys_dma_hugepages.c), its locks (src/bf_sal/linux_usr/bf_sys_sem.c), its
-- logging (src/bf_sal/linux_usr/bf_sys_log.c) and checks
-- (include/target-sys/bf_sal/bf_sys_assert.h), its threads (src/bf_sal/linux_usr/bf_sys_thread.c),
-- its timers (src/bf_sal/linux_usr/bf_sys_timer.c) and its version (src/bf_sal/bf_sys_ver.c).
--
-- Base holds what the parts share: Boolean tests (Tests), lists with native lengths (Lists), the
-- bytes of strings (Text), `&` as arithmetic (Bits), machine words with their wrap-around (Words),
-- the ways in which a call ends (Outcome: it returns, an assert stops the process, it is undefined,
-- or it never ends), and sums over numbered threads (Threads).
--
-- Dma models bf_sys_dma_hugepages.c. Pool has the structs `bf_huge_pool_t` and
-- `bf_huge_page_info_t`; a pointer to an array is an address and the array's contents. Align has
-- `conv_to_next_aligned` and `ALIGN_TO_BF_PAGE_SIZE`, Geometry the header's size and the mapping's
-- length. Queue has `bf_pop_free_buf` and `bf_push_free_buf` as one thread runs them, and
-- Queue.Stack compares them with a bounded stack. Gate runs the same two functions by any number of
-- threads, an access to shared memory at a time: `Move` has a constructor for each access, `Reach`
-- the reachable states, and accesses are sequentially consistent. Gate.Logs records the calls, the
-- effects and the returns of a run, Gate.Linear compares them with the stack of Queue.Stack,
-- Gate.Sequential compares a call that runs alone with the functions of Queue, and Gate.Progress
-- follows the calls that have begun to their end (Gate.Onward has the accesses that go on with a
-- call). Address has the translations between virtual, physical and bus addresses; the page map
-- file is a parameter (`PageMapFile`). Machine has the memory that creation changes (heap blocks,
-- mappings, their words, the bus addresses mapped for each device), the two static function
-- pointers (`map_fn`, `unmap_fn`, set by `bf_sys_dma_map_fn_register`) and the answers of the
-- system (`System`: `calloc`, `mmap`); Machine.Lawful states what is relied on of them. Create and
-- Destroy have `bf_sys_dma_pool_create` and `bf_sys_dma_pool_destroy` with all their error paths
-- (Create.Bus the bus addresses), Buffers the calls that hand out and take back buffers, Single the
-- pools of one buffer. Sharing puts creation and the gate together: a new pool in the hands of
-- several threads, whose buffers Sharing.Bus follows to their bus addresses (Address.Disjoint). Toy
-- is a lawful system for the tests. A pool's free list is what creation fills, the gate protects,
-- and the calls of Buffers use.
--
-- Sem models bf_sys_sem.c. Sem.Store has the heap blocks and live objects of the threads library,
-- whose answers are a parameter (`Library`, with the laws `IsLawful`). Sem.Objects has the
-- functions that make and delete mutexes, conditions, semaphores and locks, and Sem.Locks those
-- that lock, wait, wake and unlock, over a threads library with a state of its own (`Posix` has
-- what it documents of mutexes and semaphores, `Toy` is one that does so). Sem.RwInit makes and
-- deletes a `bf_sys_rw_mutex_lock_t`. Sem.RwCalls has its four locking functions as whole calls,
-- and Sem.RwLock the same for any number of threads: a `Step` is the part of one call that runs
-- under the mutex, so every access to the counters is in one, and `Wakes` says what a signal does.
-- In RwLock, `Progress` and `Drained` follow a run to the point where nobody holds or waits, and
-- `Priority` what happens while a writer waits.
--
-- Log models bf_sys_log.c: the static variables (`LogState`), the commands that edit zlog's
-- configuration file, byte by byte (Strings), and zlog and the shell as a parameter (`Env`).
-- Log.Config says what grep, sed and echo document of a command of the form that the code uses, for
-- any patterns and texts in it (`DoesEdits`), on a configuration that is a list of lines, and
-- Config.Toy is a shell that reads such a command and carries it out. Log.Blocks follows the number
-- of heap blocks that logging has over a sequence of calls, each with answers of its own.
-- Log.Modules has the numbers of the modules and levels in include/target-sys/bf_sal/bf_sys_log.h,
-- and Log.Assert the macros `bf_sys_assert` and `bf_sys_dbgchk`, which log through
-- bf_sys_log_and_trace, with NDEBUG as a parameter. The asserts of the other parts stop the
-- process, as in a build without NDEBUG.
--
-- Thread models bf_sys_thread.c over a threads library with a state of its own (`Posix` has what it
-- documents of creating, ending and joining threads, with the function and the argument that a thread
-- runs), and Version the strings of bf_sys_ver.c.
--
-- Timer models bf_sys_timer.c: creating, starting, stopping and deleting timers, where libev is
-- seen by the watchers that are active in it and `Answers` has the results of the calls. Timer.Race
-- runs `bf_sys_timer_init`, in the thread of the loop, against the calls of other threads and of
-- callbacks. Timer.Watch adds the watchers to it: threads that create, start, stop and delete
-- timers, each its own, while timers expire and are called back; a `Step` is what one thread does
-- under the mutex, or between two calls of the system. Timer.Clock has the time functions over
-- clocks that are a parameter.
--
-- The wrappers of src/bf_sal/linux_usr/bf_sys_mem.c are in Dma.Machine and Sem.Store, beside the
-- heaps that they change, `bf_sys_strdup` of bf_sys_str.c in Log.Init, and `bf_sys_dbg_mode` of
-- bf_sys_sal.c in Log.Assert.
--
-- Loops are recursions on the rounds that are left, which the code fixes before the loop, and a wait
-- under `while` on the list of results that its calls give; no fuel is used. A spinning `while` in one
-- thread is `blocked`, and between threads a step that may repeat. An `int` is its 32-bit pattern.
--
-- Not modelled: the text that is printed, the copy of libev, and the test programs. The remaining
-- lines of the headers are prototypes and comments.
pub mod Base
pub mod Dma
pub mod Sem
pub mod Log
pub mod Thread
pub mod Timer
pub mod Version
