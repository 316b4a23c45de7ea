-- ===== src/Lib.antt =====
-- alcove is a Lisp system in C: a reader, a compiler to bytecode and a virtual machine, with a
-- server for the RESP protocol over a shared keyspace. This library models its data structures
-- and codecs, and proves them against what they stand for.
--
-- The files, and the code that each is about:
--
-- - Base: what the others share. Bytes and machine words are natural numbers, and a cast to a
--   width writes out its wrap-around. A call that may fault, by a read outside an array, returns
--   an option, and `none` is also a loop that is still running when its fuel is used up.
-- - Utf8: utf8.h. `encode`, `decode_at`, `decode_stream`, `strlen`, `index`, `byte_offset`,
--   `count_bytes` and `utf8_valid` are the functions with these names after `utf8_`. A text is
--   the list of its bytes, with the terminator read behind the last one. Each round of a loop
--   moves forward, so that one round more than there are bytes is enough.
-- - Hash: the hashes of dict.h, on 32-bit words, which the dictionary and the keyspace use.
-- - Dict: the chained table of dict.h, with the names of the code; `set_keyval_dict` and
--   `get_keyval_dict` are `set_get_keyval_dict` with a value and with NULL. Chain, Table and
--   Rehash are about chains, buckets and the move of every entry to a new table, Valid says
--   which dictionaries are well formed and reads them as maps, and Get, Set, Del and Copy prove
--   the operations against the maps.
-- - Hamt: the persistent map of hamt.h: `get_node`, `assoc_node` and `dissoc_node` are
--   `hamt_node_get`, `hamt_node_assoc` and `hamt_node_dissoc` at a node, and `hamt_get`,
--   `hamt_assoc` and `hamt_dissoc` the calls of the commands. Digits and Bits are about the
--   bitmap and the positions that `__builtin_popcount` gives, Valid says which nodes are well
--   formed, Bucket is about collision buckets, Positions and Place about the slots of a branch,
--   Fill and Merge about new entries, Assoc about nodes, Erased, Vacate and Dissoc about
--   removals, Refine about maps, and Walk has `hamt_node_foreach`. A merge has at most seven
--   rounds, which are enough for the 32 bits of a hash. A stored value is not NULL. Keys has
--   `isequal` and `hamt_hashkey`, and Equal gives what the map asks of them.
-- - Lfkv: lfkv.c and lfkv.h. Defs has the slots and `probe`, Ops the operations, each under the
--   name that it has in C. Slots reads the table as a map from keys to entries, Valid says which
--   tables are well formed, Probe and Claim what the two searches find, Write and Current what a
--   write of one slot does. Refine, Set, SetNx, Sweep, Evict and Visit prove the operations
--   against the map, Hang is about a table with no NULL slot, and New about a new table. A claim
--   of a slot takes two rounds at most, since nothing else runs between its two looks at the
--   slot.
-- - Epoch: epoch.c and epoch.h, with the names of the code; the thread's own index is an
--   argument. World interleaves the operations of the threads and records which thread holds
--   which pointer, Nodes counts what waits in the retire lists, Change, Collect, Moves and
--   Register show that each step keeps the invariant, Safety draws the conclusions, and Progress
--   is about a collection that frees everything. A step that retires assumes that the 64-bit
--   epoch counter is not exhausted.
-- - Fixnum: the macros of alcove.h for tagged integers and characters, on 64-bit pointers.
-- - Msgpack: msgpack.h. Bytes is about big-endian numbers, Integers and Roundtrip about the two
--   directions of the integers, Lengths and Shortest about how long they are written. Value has
--   the values and `mp_encode`, and Decode `mp_decode`, whose recursion is on the levels that
--   the depth guard leaves: 513 at the top. A cell of a list with a NULL content has
--   constructors of its own, since the loops of the encoder stop there. Sizes, Arms, Containers,
--   Join, Pieces, Wire and Whole lead from the prefixes to the round trip of whole values, and
--   Total is about any bytes. The buffer is taken to grow without failing, and the conversions
--   between the number formats of the C compiler are parameters.
--
-- - Resp: of resp.c, `resp_parse_one`, the writers of replies and `resp_process_input`, each
--   under its name without `resp_`. Sound and Bounds are about limits and memory, Frame reads
--   the bytes without the pool of arguments, Append adds more input, Print and Roundtrip are
--   about writing and reading back, and Process and Pipeline about a buffer of commands. The
--   pool holds at most 2^20 arguments, so that 20 doublings are enough, and a buffer has no more
--   commands than bytes. `parse_bytes` is the parser up to its `return`, and `as_int` the
--   conversion to int there: 2^31 bytes or more are taken as an error, and a multiple of 2^32 as
--   a wait for more. The server caps its buffer at 16 MB. Whether an allocation succeeds is a
--   parameter, and so is what a command does.
--
-- The model of the keyspace runs one operation at a time: a compare-and-exchange finds the
-- pointer that was just loaded, so that the branches that try again are not taken. Values are
-- addresses, and 0 is NULL. Reference counts, the memory order of the loads and `lfkv_destroy`
-- are not modelled. The entries handed to the epoch scheme and the events handed to the watchers
-- are recorded in the state.
--
-- Not modelled are the reader, the compiler, the virtual machine and its code generators for two
-- processors, the server's network loop and commands, the debugger and the foreign-function
-- interface.
pub mod Base
pub mod Utf8
pub mod Hash
pub mod Dict
pub mod Hamt
pub mod Lfkv
pub mod Epoch
pub mod Fixnum
pub mod Msgpack
pub mod Resp
