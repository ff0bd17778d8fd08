-- ===== src/Lib.antt =====
-- otus-c: the homework programs of a course on C, each in a directory of its own, which share no
-- code. The parts that are modelled, by file of this library, with paths from the repository's
-- root:
--
-- - LogParser: hw12, a parser of web server logs. Its main thread hands the files of a directory to
--   a pool of threads through a ring buffer, and the threads count traffic in hash tables.
--   - CirBuffer (hw12/src/circular_buffer.c): the ring of task pointers, with the operations under
--     their names. CirBuffer/Queue is the bounded queue that it implements, CirBuffer/Window and
--     CirBuffer/Refine the proof, CirBuffer/Release what is freed and a get on an empty buffer.
--   - ThreadPool (hw12/src/thread_pool.c and the calls of it in hw12/src/main.c): the worker's loop
--     (WorkerMove) and add_to_pool, the wait of main for an empty buffer, and stop_pool (MainMove)
--     as interleaved steps; Reach are the states of a run. ThreadPool/Invariant is what every step
--     keeps, ThreadPool/Moves that it does, ThreadPool/Safety what follows of a run.
--     ThreadPool/Live is what lets a run go on, ThreadPool/Measure how far it is from its end,
--     ThreadPool/Steps the step that comes nearer, ThreadPool/Progress the end.
--   - HashTable (hw12/src/hashtable.c): buckets of chained entries, each bucket with its mutex;
--     hash_t_put, hash_t_inc, hash_t_get, hash_t_free (in HashTable/Release), and print_top, whose
--     order is in HashTable/Top and HashTable/Sorting. HashTable/Outcome says how a call ends: with
--     a result, waiting for good on a mutex that nobody will release, or in undefined behaviour.
--   - Apache (parse_apache_log and process_file of hw12/src/main.c): a line of the log taken apart
--     by read_fields and counted by count_fields, and the loop over a file. Apache/Line is the
--     format of a line, Apache/Counts, Apache/Interleaving and Apache/Totals what the tables hold
--     after many increments, Apache/Malformed a line that is not in the format.
--   - Main (main of hw12/src/main.c): set_up is main up to the pool, run_tasks the tasks that the
--     workers have taken, one after the other, and finish (in Main/Output) what is printed at the
--     end. Main/Finish joins the pool, the ring, the lines and the tables; Main/Totals, Main/Order
--     and Main/Reorder are about the files in any order.
-- - WordCount: hw3, the words of a file counted in a table with linear probing (hw3/src/hashtable.c
--   and hw3/src/main.c). WordCount/Table is the map that a table holds, WordCount/Counts and
--   WordCount/Listing the loop over the words, WordCount/Growth the growth. WordCount/Main is main,
--   from the options to the listing: Main/Words the words of the text, Main/Run the listing,
--   Main/Stop a word without memory, Main/Safe and Main/Ending a table that may grow.
-- - Daemon: hw10, a daemon that tells the size of a file (hw10/src/main.c): serve is the loop of
--   unix_socket_server, detach the descriptors of daemonize, and Daemon/Program main, by its tests.
--   What the program does is the list of its actions, what it is answered is in World and in the
--   rounds of the loop. Daemon/Server is about what is open and sent, Daemon/Reply the text,
--   Daemon/Restart a client that has gone, Daemon/Descriptors the descriptors, Daemon/Main and
--   Daemon/Single processes that start and end in any order.
-- - Crc: hw11, the CRC-32 of a file that is mapped in pieces of a gigabyte (hw11/src/main.c);
--   Crc/Reference is the bit-by-bit division.
-- - Charset: hw2, a file of an 8-bit charset translated to UTF-8 (hw2/src/main.c); Charset/Utf8 is
--   a decoder of UTF-8 to read the output back.
-- - Logger: hw9, a logger to a file that is rotated by its size (hw9/src/logger.c); Reach are the
--   states that its calls come to.
-- - ZipReader: hw1, the list of names of a zip archive behind a JPEG image (hw1/src/main.c), and
--   another walk over the archive (hw1/src/main2.c, in ZipReader/Variant). ZipReader/Stream is the
--   file, ZipReader/Layout the format of its records, ZipReader/Archive the files that are
--   accepted, ZipReader/Puts what is written of their names.
-- - Telnet: hw13, a client that sends a command and prints the reply (hw13/src/main.c).
-- - Weather: hw4, a weather client: the arrow of a wind direction, the buffer of a response
--   (hw4/src/curl.c), and in Weather/Main the request and main (hw4/src/main.c).
-- - FileTree: hw8, a window with the tree of a directory (hw8/src/main.c).
-- - OddList: hw5, a linked list and its odd elements (hw5/src/main.c).
-- - Prelude: numbers, lists, words of fixed width, exclusive or, C strings, code that may fail.
--
-- Undefined behaviour (an index outside of an array, a remainder by zero, a null pointer read) is
-- the result none of the operation, or an outcome of its own. Unsigned numbers wrap at their width.
-- What malloc finds in memory, and whether it succeeds, are arguments, but the two allocations of
-- cir_buffer_put, those of create_hash_t and create_pool in set_up, and the array of print_top are
-- taken to succeed. An array of no elements is taken as compilers take it, without any. The system calls of hw11, hw9 and hw13, realloc of hw4,
-- fopen of hw2 and hw3, the directory of hw12 and getopt of hw3 are parameters, and so is all that
-- hw10 asks of the system: that fcntl gives a lock to one process at a time, that bind fails where
-- the name exists and that send to a client that has gone ends the process. Loops that C ends by a
-- test run on a number of rounds: for hw11 more than the file has bytes, enough since every round
-- but the last maps a whole gigabyte, for hw2 the bound of the C loop, for hw3 the collision limit,
-- which the C loops have themselves, and more calls of strtok than the text has bytes, since every
-- call but the last takes one, and for the lines of hw12 and the image of hw1 more than the file
-- has bytes, enough since every round takes one at least. The first loop of hw13 may go on for
-- ever, its second one takes a byte in every round. The depth of the directories in hw8 is
-- bounded by fuel, of which one round is enough, since no directory below the first is ever read. In
-- hw1 the machine is little-endian, and the file is one that fopen has opened.
--
-- The threads of the hash table are taken one at a time. In the pool, a wait on a condition may end
-- at any time, as POSIX allows, so signals do not occur, and nothing is said of a signal that is lost. A
-- worker's cir_buffer_get is one step, but main reads the buffer's size without the mutex: a read in
-- the middle of a get from a full buffer, which gives 0, is a move of its own (drained_early). A call
-- of a task's function comes back. A file of log lines is processed by one thread, and strtok's
-- static state is its own. The tasks of hw12's pool are counted one after the other, in the order
-- in which they are taken. qsort of hw12 is a function that sorts where its comparison is an order.
-- Not modelled: the messages, the frees of the pool after the join of its threads, what libcurl, the
-- JSON library, libconfuse and GTK do inside, and of hw10 the system log and what daemonize does to
-- the session.
mod Prelude
pub mod LogParser
pub mod Crc
pub mod WordCount
pub mod Charset
pub mod Logger
pub mod OddList
pub mod ZipReader
pub mod Telnet
pub mod Weather
pub mod Daemon
pub mod FileTree
