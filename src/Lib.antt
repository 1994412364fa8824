-- ===== src/Lib.antt =====
-- Verification of the kernel of helos, a 64-bit kernel in C. The files here are named after the
-- directories of the repository and model their C code by hand, function by function: a C struct is
-- a record, an enum is a data type or a number, a function that changes state takes the state and
-- returns the new one, and a call that may fail returns an Option. Unsigned machine words are
-- native numbers, with the wrap-around written out where a word can wrap; `int` is an integer or,
-- where the code keeps it from being negative, a number.
--
-- Page tables are the words of each table by its physical address, where the code finds it too, and
-- what the processor makes of them is written out beside the code, by the manual.
--
-- The parts, and the files that model them:
--   util/queue.c     Util/Queue.antt    a queue of bytes in a caller's buffer (queue_Push is `push`,
--                                       queue_PopByte is `pop_byte`, and so on), under Util/Queue/ its
--                                       invariant, the abstract queue and the refinement
--   util/stack.c     Util/Stack.antt    a stack of bytes in a caller's buffer
--   util/tree.c      Util/Tree.antt     a treap of objects by key; a node's father is the path walked
--                                       down to it, a pointer to a node is that path with the subtree
--   util/vector.c    Util/Vector.antt   a growing array of objects of one size
--   util/minmax.h    Util/MinMax.antt   the clamps that the drivers use
--   runtime/unicode.c
--                    Runtime/Unicode.antt      UTF-8, one code point at a time
--   driver/input/    Driver/Input.antt  keys held, mouse position, and the queue of events; it posts into
--                                       a queue of util/queue.c and clamps by util/minmax.h
--   driver/irq/pic/ps2/ps2.c
--                    Driver/Ps2.antt    the interrupt handlers of keyboard and mouse: they keep their
--                                       bytes in queues of util/queue.c and call driver/input/input.c
--   memory/paging_physical.c
--                    Memory/Physical.antt      the bitmap of physical frames and their allocation
--   memory/paging_internal.h, memory/memory.h
--                    Memory/Rounding.antt      page counts, powers of two, and the addresses of the
--                                       kernel's mappings
--   memory/paging_map.c
--                    Memory/PageMap.antt       the tables that map virtual addresses
--   memory/heap_break.c
--                    Memory/HeapBreak.antt     the pages of the kernel's heap
--   smp/internal.h   Smp/Waiting.antt   what a thread waits for, by the threads' numbers
--   smp/mutex.c      Smp/Mutex.antt     a mutex, with its list of waiting threads
--   smp/condiction.c
--                    Smp/Condition.antt a condition, with its list of waiting threads
--   smp/channel.c    Smp/Channel.antt   a channel of objects: a queue of util/queue.c with two conditions
--   smp/kthread.c    Smp/Thread.antt    the threads by their numbers, their start and their end
--   smp/kthread_switch.c
--                    Smp/Switch.antt    which thread runs next; the waiting threads stand in a tree of
--                                       util/tree.c by their priorities
--                    Smp/Runs.antt      what may happen to the scheduler, one step after the other
--   graphics/internal_helpers.h
--                    Graphics.antt      copying and blending rectangles of pixels
--   driver/random/random.c
--                    Driver/Random.antt a generator of numbers
--   execformat/pe/reloc.c
--                    Execformat.antt    the names that it compares and prints
-- A call that waits is modelled up to its switch to another thread. The lists of waiting threads
-- are vectors of util/vector.c in the code, and are lists here, the thread pushed last first.
-- Prelude.antt has what these share: Boolean tests, lists by native indices, integers, machine
-- words and the bits of a number.
--
-- Parameters: what kMalloc hands out, the priorities that util/tree.c draws from driver/random, and
-- the bytes that the compiler lays an input_Event out in, are arguments of the definitions that use
-- them. So is the byte at address 0: smp/kthread.c passes NULL for `added` to `tree_InsertNode`, which
-- reads `*added`, and memory/paging_init.c maps physical memory where it is, from address 0 on. So is
-- what stands in memory that is freed and then read. A NULL pointer to a thread or a node is `none`.
--
-- The rights of a page are those that the entries of all four levels of tables give.
--
-- Loops. A loop over a caller's bytes is a recursion on them. The loops of the mouse's handler run
-- at most once for each byte held, since each round takes one; those over `phy_i` run at most
-- `paging_EndPhysicalPage / 64 - phy_i` times, since each round that goes on adds to `phy_i`. A
-- walk up or down the treap is a recursion on the path or on the subtree. The loops that double a
-- 64-bit number run at most 64 times: after that it is 0 and they never end. The loop that
-- allocates pages gets one at least in each round, or never ends; the one that frees them passes
-- one. The scheduler passes each waiting thread once, and tries one priority more than threads
-- wait. A bound on the rounds of a client's own walk over a treap is an argument, and the theorem
-- says how many are enough.
--
-- Not modelled: what a message prints; the order of interrupts against the code that they
-- interrupt (the handlers run with interrupts off); more than one processor; what a channel's
-- receiver would do, which has no code; the drawing functions that call the rectangle helpers, the
-- loading and relocation of executables (execformat/), and the code that talks to the firmware,
-- the controllers and the processor. The C++ parts (driver/filesystem, driver/block, vterm) and
-- the libraries under extlib/ are no part of this development.
pub mod Prelude
pub mod Util
pub mod Runtime
pub mod Driver
pub mod Execformat
pub mod Memory
pub mod Graphics
pub mod Smp
