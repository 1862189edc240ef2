-- ===== src/Lib.antt =====
-- Models of the single-header C libraries of this repository, and proofs about them.
--
-- tom_slab.h, a slab allocator (Slab): pages of one size are cut into elements; a page stands on
-- the empty, the partial or the full list by the number of its elements that are taken, and a
-- bit-field in its footer says which are free.
--   Slab/Avail: the bit-field, SLAB_ffs and the search. Slab/Layout: sizes and addresses.
--   Slab/State: struct slab, footers and lists. A page is named by its base address, and a list is
--   the list of its pages in order. The calls of hooks and of SLAB_free_page are kept in order.
--   Slab/Alloc: slab_create, slab_grow, slab_alloc. Slab/Release: slab_release, slab_release_list,
--   slab_destroy, slab_trim. Slab/Free: slab_free. Slab/Reset: slab_reset.
--   Slab/Links: the lists with their pointers, slab_link_nodes to slab_list_is_empty, by the
--   addresses of their nodes.
--   Slab/Invariant: what holds between the calls, and the allocated addresses as the abstract view.
--   Slab/History: sequences of calls, and the addresses that the caller holds after them.
-- What SLAB_malloc and SLAB_alloc_page return is an argument. A failed assertion, a panic and
-- undefined behaviour are results of their own, int overflow in slab_create included. The lock makes a call one step. The loop of
-- slab_trim is given one round more than there are empty pages, and each round takes one away.
--
-- tom_rcon.h, a server of the RCON protocol (Rcon): bytes of each connection are collected in a
-- buffer, cut into packets, and answered; a command goes to the caller, who completes it.
--   Rcon/Bytes: rcon_write_i32, rcon_read_i32. Rcon/Secret: rcon_streq_consttime.
--   Rcon/Error: boxed error codes, rcon_strerror, rcon_tcp_strerror.
--   Rcon/State: struct rcon and its clients, rcon_drop_client, rcon_set_password.
--   Rcon/Send: rcon_send. Rcon/Wait: rcon_wait_for_input. Rcon/Fetch: rcon_fetch_command.
--   Rcon/Complete: rcon_complete_command, rcon_create. Rcon/Port: rcon_port_to_string.
--   Rcon/History: a server after any sequence of calls.
--   Rcon/Tcp: the TCP layer, rcon_tcp_open to rcon_tcp_hasdata, with rcon_is_benign_error.
-- The callbacks of struct rcon_io_impl are parameters, and the calls of cb_send and cb_close are
-- kept in order. Numbers are patterns of 32 bits. Taking more bytes from a buffer than there are and
-- an index beyond the array of clients are undefined behaviour, a result of its own. The loop on a client is given one round more
-- than it has bytes, and each round takes some away. The TCP layer is that of a Unix system; what
-- its system calls answer is a parameter, a list of answers where it loops, and a loop can be left
-- waiting.
--
-- tom_ply.h, a parser of PLY files (Ply): the header is read line by line into elements and their
-- properties, kept in memory that the caller gives.
--   Ply/Types: the data. Ply/Memory: ply_parser_set_memory, ply_reserve. Ply/Token: ply_next_token.
--   Ply/Header: ply_parse_type to ply_process_header. Ply/Access: the lookups by index and name.
--   Ply/Scalar: ply_read_scalar_le, ply_read_scalar_be; Ply/Scalar/Read: ply_read_scalar_ascii and
--   ply_read_scalar. Ply/Stream: ply_start_streaming to ply_stream_list_item, with the current
--   element and property as indices. Ply/Callbacks: ply_process_with_callbacks, and
--   Ply/Callbacks/Reference the way it is meant. Ply/Cast: ply_cast, ply_cast_normalized.
-- The conversions of the C library and the callbacks are parameters, and the answers of the read
-- callback are a list. A result that depends on bytes behind those that were read is one of its
-- own. The loop of ply_process_header is given one round more than the input has bytes; each round
-- takes a line away.
--
-- tom_rtree.h, an R-tree (Rtree), with the order on coordinates, which are floats that are not
-- NaN, and the operations on them as parameters.
--   Rtree/Box: overlap, union and intersection of boxes.
--   Rtree/Sort: RTREE_SORT_INLINE with RTREE_COMPARE_ALONG_AXIS, as the preprocessor expands them.
--   Rtree/Tree: nodes, rtree_create, rtree_insert, rtree_choose_subtree.
--   Rtree/Tree/Split: rtree_choose_split_axis, rtree_choose_split_index, rtree_distribute,
--   rtree_split.
-- Nodes are found by their addresses. Common/Run has the results of the runs of C code.
--
-- Not modelled: rtree_destroy and the rest of tom_rtree.h, which is declared only or left out by
-- the preprocessor; the branches for Windows; the sketches tom_spatial.h and tom_particles.h,
-- which name what is defined nowhere; the tests and examples.
pub mod Common
pub mod Slab
pub mod Rcon
pub mod Ply
pub mod Rtree
