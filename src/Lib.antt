-- ===== src/Lib.antt =====
-- A model of an object store written in C: a server (src/server) keeps sets of buckets, each
-- bucket a range of hashes with a data file, and src/common has the containers, strings, hashes
-- and socket helpers that it and its client share. A function of the source is a function here
-- with the same name, its guards and early returns included, and a structure is a record with
-- the same fields; the main programs are server_main and client_main, and the client's
-- conf_create is client_conf_create.
--
-- Base has the machine's view that the files share: numbers are natural numbers and wrap-around
-- is written out; Base/Outcome has the result of a run, which is a value, a fault (undefined
-- behaviour: a NULL pointer, an index outside of a block, a freed block) or an end of the
-- process (a failed assertion or a fatal log message); Base/Results has what every result of a
-- run satisfies, with the rules by which search walks a run; Base/Lists has arrays, with the
-- laws on their lengths; Base/Bits has bounds of bitwise operations and Base/Division those of
-- quotients.
--
-- Vector models src/common/vector.c. A vector is its size, its capacity and its block of slots;
-- the mutex serialises the calls, so a call is one step. Vector/Contents says which list a
-- vector stands for, and follows growing and pushing; Vector/Sequence has the operations on
-- that list, Vector/Insert has what vector_insert does, and Vector/Calls runs any sequence of
-- calls against a list.
--
-- Slice models src/common/slice.c: strings of up to 15 bytes lie inside the structure, longer
-- ones in a block. A pointer is given by the bytes that can be read through it (Slice/Strings).
-- Slice/Stores says what it is to store a text, Slice/Create makes slices of their own, where
-- what the first vsnprintf of slice_create_with_fmt gives, with a va_list that has ended, is an
-- argument, Slice/Copies has the functions that copy texts.
--
-- Utils models src/common/utils.c. What each call of read and write does is an argument, as a
-- list of behaviours, so that a theorem holds for every way in which the calls can go; a loop
-- that uses all the behaviours up still waits, and its result is none. Utils/Address is
-- fetch_sock_addr_info, over what the socket library and the number format of sprintf do
-- (Utils.Address.Names, with what the library documents of them in IsNaming).
--
-- Hash models src/common/hash.c. Hash/Mix is gfs_hashfn, and gfs_hashfn_of for lengths that may
-- be negative; Hash/Jump is the jump hash, over the interface Hash/Double for the arithmetic on
-- doubles, whose laws are those of IEEE 754 for integers below 2 ^ 53 (an integer is exact, and
-- rounding keeps the order). Its loop has as much fuel as there are buckets, which is enough
-- since each round moves to a later bucket.
--
-- Md5 models src/common/md5.c, the transform with its table of rounds included. Md5/Transform
-- takes a block into the state, Md5/Words is about the words and bytes that it reads and
-- writes, and Md5 has the functions around it. A message is described by its blocks of 64
-- bytes: Md5/Blocks has the blocks and the loop over them, Md5/Buffer says what a context holds
-- of a message, Md5/Stream follows md5_update, Md5/Digest adds the padding, and reads a file in
-- chunks of 4096 bytes. The loop over blocks has one round of fuel for each byte and one more,
-- which is more than the blocks there are; up to 2 ^ 32 - 64 bytes in one call its counter does
-- not wrap.
--
-- LinkedList models src/common/list.c on a heap of nodes and list structures, where a pointer
-- is a number. LinkedList/Chain says that the nodes of a list hang together in both directions,
-- LinkedList/Nodes has the reads and writes of nodes, LinkedList/Append is the work of
-- list_add, LinkedList/NewNode that of a new node with it, and LinkedList/Remove that of
-- list_del, whose two halves are in LinkedList/Unlink. LinkedList/Calls runs any sequence of
-- the two, with the memory they use, against a list of cells; LinkedList/Destroy is the work of
-- list_destroy without a callback, whose loop is on fuel that the caller gives; with one,
-- LinkedList/Closing has a round of the loop, LinkedList/Rounds all of them, and
-- LinkedList/Callback the function.
--
-- BucketObject, BucketStore, Bucket and Bucketset model the files of the same names in
-- src/server. The file system is a parameter (Bucket.Files), and so is whether the log is open:
-- two messages of src/server/bucket.c lack an argument, which an open log reads. A bucket's
-- cache is a vector of pointers to lists; Bucket/Put follows an object into it, Bucket/Effect
-- says what any put that returns does to its bucket, and Bucket/Puts follows the data file of a
-- bucket through any number of puts, each with the file system as it then is. Bucketset/Round
-- rounds the range of a bucket, on fuel for one round more than the multiples of 512 up to the
-- range; Bucketset/Ranges has the ranges of the buckets and the search, Bucketset/Puts a put
-- into the bucket that a search finds, Bucketset/Create the creation of a set and
-- Bucketset/Rows what is printed of it.
--
-- Conf models src/server/conf.c over the interface Conf.Json for the jansson library; SdsStore
-- models src/server/sds_store.c, a vector of lists of sets, whose slot the jump hash of the
-- name chooses; SdsStore/Add follows one call of sds_store_add, SdsStore/Adds any number of
-- them.
--
-- Log models src/server/log.h and src/server/log.c. Log/Digits has _safe_utoa and _safe_itoa,
-- which write backwards into 22 bytes, and Log/Format the loop of _safe_vsnprintf: its place in
-- the format, behind a percent sign or behind the l that _safe_check_longlong skips, is a data
-- type, so that the loop is a recursion on the bytes of the format. Log/Numerals,
-- Log/Complement, Log/Hexadecimal and Log/Decimal say what a number prints; Log/Items describes
-- formats with their arguments, Log/Conversions, Log/Render and Log/Bounds are about the
-- formatter. Log/Logger has the state, with what has been written to which descriptor,
-- Log/Write the functions that write a line and Log/Setup the start, the end and the reopening;
-- _log is log_line there. What strftime writes, what vsnprintf makes of a format, what open
-- returns and whether write fails are parameters. Log/Buffer, Log/Prefix and Log/Line follow a
-- line through its 4096 bytes, Log/Start what log_init sets up, Log/Reopen what happens when
-- the log is reopened or ended. Log/Macros has the macros of log.h, a level each, and
-- Log/Levels how they end.
--
-- Netsocket models src/server/netsocket.c: read_cb as a function of what recv, read and write
-- do and of the bytes that lie on its stack, with the store as it sees it, a vector of bucket
-- sets. Netsocket/Setup has the threads, whose structures are in a memory of their own, the
-- socket and what the event loop is given; what the socket library returns is a parameter.
-- Netsocket/Served follows a store through any number of events, each with a machine and a
-- stack of its own, Netsocket/Sockets has the accept callback and the start. What lies in a
-- request, and behind it, before bytes arrive is an argument.
--
-- Request models src/common/request.c over what stat, md5_file, read and write do; a result of
-- none means that a loop still waits, and the loop over the file has a round of fuel for each
-- behaviour of read and one more, which is enough since each round uses one up. Client models
-- src/client: the configuration, which it reads with other keys than the server, and in
-- Client/Main the main program over the options as they are given, short or long, with what
-- getopt_long finds in them, and over what lies on the stack in the answer. Request/Outcomes
-- and Request/Undefined are about the requests, Request/Answers has every way in which the peer
-- can answer one. Client/Settings has the configuration that is read, Client/Options the
-- options, Client/Resources the name of the resource; Client/Requests puts them together for a
-- run of the whole program, and Client/Exchange puts the client and the server together: what
-- the reads of the one deliver is what the other has sent. Server models src/server/main.c,
-- which puts the configuration, the store and the network together, and Server/Stops follows
-- it; server_start is its part before the socket.
--
-- Calls that allocate take their success as an argument: calloc and strdup are functions from a
-- size to a truth value, and a fresh pointer is an argument. The text that snprintf makes is an
-- argument too. Log messages of other files are left out where they change nothing. The int
-- counters of the sources are kept: a count that an int does not hold wraps or faults as in the
-- source. Not modelled: the event loop, which is a library; the empty functions and the test
-- programs.
--
-- Examples has the theorems at concrete inputs.
pub mod Base
pub mod Vector
pub mod Slice
pub mod Utils
pub mod Hash
pub mod LinkedList
pub mod BucketObject
pub mod BucketStore
pub mod Bucket
pub mod Bucketset
pub mod SdsStore
pub mod Netsocket
pub mod Md5
pub mod Log
pub mod Request
pub mod Conf
pub mod Client
pub mod Server
pub mod Examples
