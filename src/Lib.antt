-- ===== src/Lib.antt =====
-- The reference counting, smart pointers, queue and utilities of vmodule, and what holds of them.
--
-- The parts. RefBase keeps two counters per object, of its strong and of all its references, and
-- deletes the object and its weakref_impl when they run out; it calls the atomic operations of
-- Atomic.h. sp and wp hold addresses of such objects and call the counters in their constructors,
-- assignments and destructors; wp::promote goes through attemptIncStrong. CThread is a RefBase that
-- holds itself while its raw thread starts; CBlockingQueue puts a CQueue under a mutex and a
-- condition; the serial port's reader is a CThread; Logger hands its lines to the LoggerThread through
-- a blocking queue. CQueue, StringUtils, AutoBuffer, Timers, TypeHelpers, FileUtils and CSocket stand
-- by themselves.
--
-- The files, with the code that they model:
-- - Base: Boolean tests, lists over the native numbers, signed integers; shared by all.
-- - Atomic: include/sutils/Atomic.h with the standard atomics. A 32-bit counter is its bit pattern; an
--   operation gives what it returns and what it leaves. Atomic/Fallback: the version under a mutex.
-- - RefBase: sutils/RefBase.cpp, one object with its weakref_impl, one function per method; a monad
--   carries the counters, the flags, who is in memory and a log of callbacks and deletions, and
--   `none` is an access to freed memory or a second deletion. RefBase/Promote: attemptIncStrong
--   and attemptIncWeak, with the changes that other threads make to a counter during a loop as an
--   argument of the loop. RefBase/Phase: an abstract specification, the phases of an object's life.
--   RefBase/Refine, RefBase/History: the code against that specification, request by request and
--   over whole lives. RefBase/Race: the loops against other threads.
--   RefBase/Fallback: attemptIncWeak over either version of the compare-and-swap. RefBase/Threads: any number of
--   threads at one object, each call cut at the accesses to a counter, callbacks and deletions, in any
--   order, where a deletion and what the destructor reads are one step; RefBase/Threads/Machine: the orders. RefBase/Threads/Counts, /Life, /Rules, /Reading, /Going,
--   /Steps, /Acting, /Handing: the references that the threads have, what they mean for the counters
--   and the memory, and each step. RefBase/Threads/Safe, /Held, /Alone: the states that the threads can
--   lead to.
-- - Pointers: a world of objects by address. Pointers/Strong: include/sutils/StrongPointer.h.
--   Pointers/Weak: wp of include/sutils/RefBase.h. Pointers/Convert, Pointers/Compare: the versions
--   for another type, and the comparisons. Pointers/Ownership: one object and the numbers
--   of pointers to it. Pointers/Held, Pointers/Owners: the pointers that a program holds, and one
--   call in such a program. Pointers/Programs, Pointers/Promotion: the operations of sp and wp in such
--   a program. Pointers/Session: any sequence of them on any of its pointers, with
--   Pointers/Session/Places, Pointers/Session/Kept and Pointers/Session/Safe on what such a program keeps.
-- - Queue: CQueue, CQueueItem and CQueueIterator of include/sutils/Queue.hpp over a store of
--   addresses. Queue/Chain: the links. Queue/Fifo, Queue/Iterate: the operations and the iterator.
--   Queue/History: any sequence of operations on one queue, against a list.
-- - VmQueue: sutils/VmQueue.cpp, the queue in C, over the same store.
-- - StringUtils: sutils/StringUtils.cpp and include/sutils/StringUtils.h, a file per group of
--   functions: Text (std::string), Search (Replace, Split, FindNumber), Slices (Left, Mid, Right),
--   Trim, Numeric, Blanks, Cases with Cases/Tables; Cut, Parts and Fields reason about Search.
-- - AutoBuffer: sutils/AutoBuffer.cpp over an interface for malloc, realloc and free.
-- - TypeHelpers: include/sutils/TypeHelpers.h, arrays of objects in a memory of cells.
--   TypeHelpers/Moves, /Backward, /Relocation: the moves. TypeHelpers/Copies, /Restored: construction,
--   copy, fill and destruction.
-- - Timers: toMillisecondTimeoutDelay and systemMaketime of sutils/Timers.cpp.
-- - System: what the calls of the operating system answer, as interfaces over the state of the system,
--   and the constants of include/sutils/Errors.h. System/Laws: read and write. System/Files: files and
--   directories. System/Descriptors: sockets and the table of open descriptors.
-- - Socket: Read, Write, Readn and Writen of socket/Socket.cpp and Accept of socket/TcpSocket.cpp;
--   Socket/Receive and Socket/Send reason about Readn and Writen. Socket/Open: Socket, NewUnixSocket and
--   NewSocket, with Socket/Open/Kept and Socket/Open/Addresses on the descriptors that they leave open.
-- - FileUtils: sutils/FileUtils.cpp. FileUtils/Saving, FileUtils/Loading, FileUtils/Stuck: WriteToFile
--   and ReadToBuffer. FileUtils/Directory: DoMakeDir, MakeDir and DeleteDir; FileUtils/Directory/Making
--   on how far MakeDir goes. FileUtils/Current: GetCurrentDirectory.
-- - Thread: CThread of sutils/Thread.cpp, a function per operation and _threadLoop in steps.
--   Thread/Machine: any order of these steps and of the calls of other threads. Thread/Running,
--   Thread/Waiting, Thread/Exiting: what holds in every state that this can lead to.
--   Thread/Sleeping: Sleep, with Condition, the deadline of waitRelative in sutils/Condition.cpp.
-- - BlockingQueue: CBlockingQueue of include/sutils/Queue.hpp, split where it waits, over an interface of
--   a queue. BlockingQueue/Order: the items in any history. BlockingQueue/Filled: the interface filled
--   by CQueue.
-- - SerialPort: hardware/serial/SerialPort.cpp for POSIX. SerialPort/Settings: the settings of InitPort.
--   SerialPort/Reader: the reading loop.
-- - Logger: the levels, Log and SetLogLevel of sutils/Logger.cpp, with Logger/Level on SetLogLevel.
--   Logger/Writer: sutils/LoggerThread.cpp for POSIX, with Logger/Writer/Lines on the log
--   file. Logger/Delivery: sendDebugMessage, the queue and the log file together.
-- - Tests: small systems, and the theorems at concrete inputs.
--
-- Bounds and fuel. Counters wrap at 2 ^ 32 and are compared as signed 32-bit numbers; the theorems
-- on them ask for fewer than 2 ^ 28 strong and 2 ^ 31 weak references, the limits that
-- INITIAL_STRONG_VALUE and int32_t set; with several threads, fewer than 2 ^ 28 references in all.
-- size_t and unsigned long have 64 bits, unsigned int 32.
-- The loops of Replace, Split and FindNumber run on fuel, one round more than the text has
-- characters: each round but the last moves on by a character at least. The loops of RefBase run
-- along the list of changes by other threads, and one round more. An iterator's walk has as much
-- fuel as the queue has items. Readn and Writen have a call of read or write for each byte and for each
-- interruption by a signal that is still to come; WriteToFile and ReadToBuffer one for each byte, and so
-- has the serial port's reading loop; DeleteDir has fuel for its levels and for the entries of each.
--
-- Parameters. The C library's isspace, isdigit, bsearch, malloc, realloc and free, and the
-- onIncStrongAttempted of an object, are arguments with what their documentation says of them. So are
-- the calls of the system: a read gives the next bytes, and none only at the end; a write takes bytes
-- from the front; a call that fails with EINTR brings the last interruption nearer; socket gives a
-- descriptor that was not open; close closes it; umask gives the old mask; getaddrinfo gives at least
-- one address when it succeeds; fwrite of a block writes it or says that it did not;
-- readlink puts a path in the buffer, without a zero.
--
-- Not modelled: memory orders, threads at an object of extended lifetime or with forceIncStrong,
-- the debugging calls of RefBase, ReferenceMover, the creation of raw threads, mutexes and
-- conditions themselves, which are calls of pthread or Win32, the Win32 versions, Wakeup, select,
-- the formatting and printing functions, and the calls of the system to which CSocket and
-- CTcpSocket only add a log line.
pub mod Atomic
pub mod AutoBuffer
pub mod Base
pub mod BlockingQueue
pub mod Condition
pub mod FileUtils
pub mod Logger
pub mod Pointers
pub mod Queue
pub mod RefBase
pub mod SerialPort
pub mod Socket
pub mod StringUtils
pub mod System
pub mod Tests
pub mod Thread
pub mod Timers
pub mod TypeHelpers
pub mod VmQueue
