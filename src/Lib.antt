-- ===== src/Lib.antt =====
-- Verification of the core of a collection of C programs: the containers, the strings and the views on
-- bytes of pg/pg.h, the data that the BitTorrent client keeps, its conversation with its tracker and its
-- peers, in torrent/bencode.h, torrent/tracker.h and torrent/peer.h, and the Sudoku solvers of
-- sudoku-solver/constraints.c and sudoku-solver/brute_force.c.
--
-- The client reads a torrent file with the bencode parser and computes from it how many pieces and
-- blocks the download has (torrent/bencode.h). It asks the tracker for peers (torrent/tracker.h). The
-- picker (torrent/peer.h) keeps three bit arrays of pg/pg.h over the pieces and blocks, and answers which
-- block to ask a peer for next. What a peer sends is put in a byte ring of pg/pg.h. The Sudoku solvers
-- stand for themselves.
--
-- - Base: numbers, lists, options, and the wrap-around of machine words (Base/Words), with the
--   fault of a failed assert (Base/Fault).
-- - Pg/Ring: pg_ring_t. The record has the fields of the struct; `store` is the block that `data`
--   points at. Abstract has the queue that the ring stands for; Cycle, Deque, Bulk and Run relate them.
-- - Pg/Bitarray: pg_bitarray_t, with the bytes of its array as `data`. Bits, Scan and Resize see it as a
--   function from indices to bits.
-- - Pg/Char and Pg/Span: pg_char_* and pg_span_t. A span is the list of the bytes that it shows.
-- - Pg/Str: pg_string_t, with the bytes behind its header as `buffer`, and pg_span_url_encode.
-- - Torrent/Metainfo: the numbers that bc_parser_init_metainfo computes, and metainfo_*. Metainfo/Read has
--   the loop of bc_parser_init_metainfo over what the parser found.
-- - Torrent/Tracker: tracker_parse_peer_addresses and tracker_on_response_chunk; Tracker/Query has
--   tracker_build_url_from_query and Tracker/Transfer tracker_fetch_peers, with libcurl as a parameter.
-- - Torrent/Picker: picker_t and picker_*.
-- - Pg/Pool: pg_pool_t. The list that is threaded through the free chunks is a list of offsets.
-- - Torrent/Peer: the types of torrent/peer.h, and `World`, the operating system, libuv and mbedtls.
--   Peer/Wire has the numbers on the wire, Peer/Parse peer_check_handshaked and peer_message_parse,
--   Peer/Send peer_send_*, Peer/Store peer_put_block and download_checksum_piece, Peer/Handle
--   peer_message_handle and peer_request_more_blocks, Peer/Receive peer_init and peer_on_read.
--   Peer/Decode reads a message off a list of bytes, over the integers, which the parser is compared with; it
--   follows the code where that departs from the protocol; Peer/Consume and
--   Peer/Receive/Ends are about how often the loop over the messages goes round, Peer/Greet about
--   the handshake.
-- - Torrent/Bencode: bc_parse. One function for each case of its switch, put together by `parse`,
--   and `parse_items` for the loop over the items of a list or a dictionary.
-- - Sudoku: the functions of sudoku-solver/constraints.c. Sudoku/Count, Verdict and Units are about the checks
--   of a row, a column and a block, Solution about solved grids, Step, Search and Solve about the
--   search, Pass, First and Main about the first pass and `main`.
-- - Sudoku/Brute: the functions of sudoku-solver/brute_force.c. Primes, Check and Valid are about its checks,
--   Odometer and Laps about increment_solution_vector, Merge and All about the search. The fuel of
--   `search` is the number of rounds of its loop.
--
-- A function keeps its name without the prefix (pg_ring_push_back is Pg.Ring.push_back). A struct that
-- is changed through a pointer is taken and given back. `none` is a failed assert or an access out of
-- bounds, which ends the program; the builds of the repository keep their asserts. Numbers are
-- natural numbers, and each operation of the source that can leave its width is written with the
-- remainder by 2^32 or 2^64. The quotients that the source computes in floating point are
-- exact below 2^53, and are written as quotients of natural numbers.
--
-- The fuel of `grid_solve` is 82, one for each of the 81 cells and one for the end; each call goes on to
-- the next cell. The loops of the picker take fuel; it is the number of the bits of the array plus one, and
-- each round looks at a later bit. The fuel of `parse` and `parse_items` bounds how deep the calls go; on
-- an input without NUL bytes two for each byte, and one more, are enough.
--
-- The loop of `on_read` has as much fuel as the ring has bytes, and one more; a round that goes on takes a
-- byte at least. `request_more_blocks` has one round more than there are requests in flight.
--
-- What the system answers is a parameter: each call takes the state of the world and gives its answer
-- with the next state. The picker, the download and the world, which the peers share, are fields of
-- the peer that a step is about. Where C leaves the order of evaluation in an initializer list open,
-- it is from left to right.
--
-- Memory is what pg_heap_allocator gives: it zeroes what it reserves, and does not fail. Freeing is left
-- out, as are the loggers. Not modelled are the opening and closing of connections, the check of the
-- whole file at the start, and the programs around these parts; in pg/pg.h, the search of a span in another
-- (pg_memmem and its users) and the remaining functions on strings.
pub mod Base
pub mod Pg
pub mod Torrent
pub mod Sudoku
