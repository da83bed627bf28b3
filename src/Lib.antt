-- ===== src/Lib.antt =====
-- SPDY_test: verification of the HTTP2d web server
--
-- HTTP2d is a SPDY and HTTP/1.1 server in C. A thread steps the connections it owns; a SPDY
-- connection fills a read buffer from its socket, cuts it into frames, makes a request of every
-- SYN_STREAM frame, and steps each request, which leaves its reply in the write buffer. Header blocks
-- go through zlib. This library models that path, and the parts it stands on, from the bytes in the
-- read buffer to the bytes in the write buffer; the reads and writes of sockets; the encodings and
-- numbers of the buffers; the search for the end of a header; the object cache, the AVL trees, the
-- sort of lists, the access lists and the configuration.
--
-- Files and code (paths from the repository's root):
--   Ret               ret_t of src/common.h
--   Buffer            src/buffer.c: http2d_buffer_init, _fake, _clean, _dup, _swap_buffers, _add,
--                     _add_buffer, _add_char, _add_char_n, _prepend, _ensure_size, _ensure_addlen
--     Buffer/Mem      malloc, realloc and memcpy, as the C library gives them
--     Buffer/Edit     _move_to_begin, _drop_ending, _remove_chunk, _swap_chars
--     Buffer/Slice    _add_buffer_slice
--     Buffer/Space, Adds, Prepend, Edits, InPlace, Slices
--                     valid buffers, and every operation against the string that the buffer holds
--     Buffer/Text     _trim, _to_lowcase, _insert, _insert_buffer, _end_char, _is_ending, _cmp_buf;
--                     Text/Trim and Text/Insert are about them
--     Buffer/Emptied  what _ensure_size, _ensure_addlen and _clean keep
--   Codec             what the encodings of src/buffer.c share; Codec/Output is about their writes
--     Codec/Hex, Base64
--                     _encode_hex, _decode_hex, _encode_base64, _decode_base64, each with RoundTrip
--     Codec/Utf8      utf8_get_next_char, _get_utf8_len; Utf8/Chars is about well-formed texts
--     Codec/Uri       escape_with_table with its tables, _unescape_uri; Uri/Escaped, Writes,
--                     Unescaped and RoundTrip are about them
--     Codec/Number    _add_long10, _add_llong10, _add_ulong10, _add_ullong10, _add_ulong16,
--                     _add_ullong16, _add_uint16be, _add_uint32be; Number/Digits and Number/Reads
--                     read back what they write
--     Codec/Html      _add_escape_html, _escape_html; Html/Safe, Texts and Writes are about
--                     them
--     Buffer/Replace  _replace_string, _substitute_string; Replace/Pieces is about the pieces between
--                     the occurrences, Replace/Replaced about the result
--   Util/HeaderEnd    http2d_find_header_end of src/util.c; HeaderEnd/Lines is about headers made of
--                     lines
--   Spdy              src/spdy.c and the constants of src/spdy.h; Spdy/RoundTrip and Spdy/Range are
--                     about its readers and writers
--   Header            src/header.c; Header/Fields is about what it stores
--   Http              the status and version texts of src/http.c; Http/Status is about them
--     Http/Method     the methods of src/http.h and their texts; Method/RoundTrip is about them
--   NameValue         header blocks, as src/request-spdy.c writes them; NameValue/RoundTrip reads
--                     them back
--   Zlib              the loops of src/spdy-zlib.c; Zlib/Loops is about their ends
--   Conn              the state of a connection and of its requests (src/connection-spdy.h,
--                     src/request-spdy.h, src/connection.h, src/request.h)
--   Request           src/request-spdy.c and the calls of src/request.c; Request/Layout and
--                     Request/Reply are about the reply
--   Frames            the reading side of src/connection-spdy.c; Frames/Headers, Handlers, Loop,
--                     Single and Streams are about header blocks, handlers, the loop, and frames
--   Output            the writing side: _http2d_connection_do_write of src/connection.c, and the loop
--                     over the requests of do_io (src/connection-spdy.c); Output/Order and
--                     Output/Served are about the order of the bytes and the end of requests
--   Socket            http2d_socket_read and http2d_socket_read_buf of src/socket.c, the read of
--                     src/socket-ssl.c, _http2d_connection_do_read and _do_linger_read of
--                     src/connection.c; Socket/Write has http2d_socket_write and the TLS write,
--                     Socket/Writev http2d_socket_writev;
--                     Socket/Reads and Socket/Linger are about the reads
--   Avl               src/avl_generic.c: rotations, node_balance, node_add, node_height, the lookup
--     Avl/Delete      http2d_avl_generic_del; Delete/Balance, Elements and Removed are about it
--     Avl/Int         the integers of the balances
--     Avl/Order, Balance, Insert, Lookup, Height
--                     trees in order, balanced trees, insertion, lookups, and the height
--   Step              do_io and conn_spdy_step of src/connection-spdy.c over the answers of the
--                     socket; Step/Serves is about one step from the bytes read to the bytes
--                     written, Step/Follows and Step/Phases about the phases, Step/Freed
--                     about a header block that does not inflate
--   LinkedList        src/list.c and src/list.h: the length, both insertions, the inversion, and
--                     http2d_list_sort; LinkedList/Agreeing, Merge, Runs and Sorted are about
--                     the sort
--   CString           what the sources use of the C library's string functions; CString/Same is about
--                     equal strings
--   Util/Atoi         http2d_atoi and http2d_atob of src/util.c
--     Util/Iovec      http2d_iovec_skip_sent, http2d_iovec_was_sent; Iovec/Skipped is about them
--     Util/Host       http2d_parse_host, http2d_string_is_ipv6, http2d_split_arguments, strsep;
--                     Host/Parsed is about hosts with ports
--   Access            src/access.c: the lists, and the match of an address
--     Access/Parse    addresses, masks and networks read from texts, and added to the lists
--     Access/Netmask, Match, Added, Refused
--                     the bits of masks, what a network admits, networks that are accepted and those
--                     that are refused
--   ConfigNode        src/config_node.c: the tree of entries; ConfigNode/Values has _read_path,
--                     _read_list and _convert_list
--     ConfigNode/Added, Lookup, Reads
--                     the tree as a finite map, and what is read behind an addition
--   ConfigReader      src/config_reader.c: texts, sorting and the check; ConfigReader/Checked and
--                     Sorted are about the trees that come out, ConfigReader/Printed about texts
--                     that were printed from entries
--   Cache             src/cache.c: the state, the list macros, entry_unref_guts, replace, on_new_added
--     Cache/Map       the lookup table and the lists of keys
--     Cache/Lookup    update_ghost_b1, update_ghost_b2, update_cache, http2d_cache_get
--     Cache/Counted, Moves, Release, Bounds, Hits, Get, Reach, Held
--                     counters and lists, what evictions and releases do, the bounds, and what a get
--                     hands out
--   Prelude           names and lemmas that the other modules share
--   Tests             the theorems at concrete inputs
--
-- How the code is read. A byte is a natural number, an array a list of them; 32-bit and 64-bit
-- arithmetic is written out with its wrap-around. A buffer is modelled twice: Buffer has the block of
-- memory, its size and the length in use; Header, Conn and Request use the strings that buffers hold,
-- as far as memory is granted. An access outside a block is `none` in Buffer and Spdy, and `overrun`
-- in Frames. A pointer difference that C makes negative is counted as such an access. A request that
-- was given back to the allocator is marked as freed where it stays linked, and the step that comes to
-- it is such an access too.
--
-- Parameters. Memory (Buffer.Mem.Alloc) says which requests are granted and what fresh bytes are.
-- zlib (Zlib.Zlib) says what one call of inflate, inflateEnd, inflateSetDictionary, deflate or
-- deflateEnd answers,
-- consumes and produces; nothing is assumed of it but what a theorem names. The kernel and OpenSSL
-- are lists of answers, one for each call of recv, send, SSL_read or SSL_write, in their order. The
-- AVL trees take node_cmp and node_is_empty, the sort its comparison. The access lists take inet_pton
-- and the resolver, the configuration the reader of included files. The cache takes the answers of
-- fetch_cb, and whether new_cb makes an object, from the key.
--
-- Fuel. The loops of spdy_process_buffer, http2d_spdy_zlib_inflate and http2d_spdy_zlib_deflate run
-- on fuel, since nothing in the code bounds them. A theorem that says what one frame does asks for two
-- rounds, one for the frame and one for the test that ends the loop; the inflation takes a round for
-- each chunk of output and one or two more; a theorem about a deflation names its result. The loops
-- over characters are given one round more than the string has bytes, since each round moves on by one
-- at least; the loops over digits the places of their array; the lingering read its `retries`. The AVL
-- operations recurse on the tree, where the code keeps its way in an array of MAX_HEIGHT places, whose
-- use by node_add is a function of its own. The sort is given one round more than the list has entries,
-- as the runs double.
--
-- Not modelled: addresses of sockets, accepting, shutting down, sendfile and the TLS handshake;
-- polling and threads; printing, file input, digests, plug-ins and virtual servers; traversal of the
-- AVL trees, and the threads between their nodes; the links of the lists; the rest of util.c; the
-- creation and the release of connections. src/connection-http.c and src/request-http.c are empty
-- shells.
pub mod Prelude
pub mod Ret
pub mod Buffer
pub mod Codec
pub mod Spdy
pub mod Header
pub mod Http
pub mod NameValue
pub mod Zlib
pub mod Conn
pub mod Request
pub mod Frames
pub mod Output
pub mod Cache
pub mod Util
pub mod Socket
pub mod Avl
pub mod Step
pub mod LinkedList
pub mod CString
pub mod Access
pub mod ConfigNode
pub mod ConfigReader
mod Tests
