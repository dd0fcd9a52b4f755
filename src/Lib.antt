-- ===== src/Lib.antt =====
-- Verification library of tiger, a C++ framework of coroutines, sockets and HTTP.
--
-- Parts modelled, and where:
--
-- * ByteArray (src/bytearray.h, src/bytearray.cc, src/endian.h): a growing buffer of bytes in nodes of
--   one size, with typed reads and writes. ByteArray.Defs is the object (`ByteArray` with the fields
--   m_base_size, m_position and so on), its memory and add_free_capacity_to; ByteArray.Access the
--   loops of `write`, `read`, the const `read`, `set_position` and `clear`; ByteArray.Typed the typed
--   methods. The linked list of nodes is a list, a pointer into it an index, and an access outside
--   every node is the outcome `fault`. std::out_of_range is the outcome `out_of_range` with the state.
--   Numbers of the type size_t are natural numbers; where the code subtracts two of them the wrap is
--   written out (`sub_size`). What `new char[]` leaves in memory is the field `heap`, and arbitrary.
--   `ceil(1.0 * a / b)` is exact division rounded up, as it is for sizes below 2^53.
--   The loops take the number of bytes as fuel: each round moves one byte at least. The byte
--   order of the machine is the argument `platform`. bswap_16, bswap_32 and bswap_64 reverse bytes.
--
-- The invariant of a ByteArray, `IsValid`, is in ByteArray.Valid: the nodes have one size, `cur` is the
-- node of the position, and position ≤ size ≤ capacity ≤ room in the nodes, with the size below the
-- room. `set_position` to the very end of the nodes is the one call that leaves it.
--
-- * StringUtils and IsValidName (src/util.cc): Util.Url has the tables and the loops of UrlEncode and
--   UrlDecode with their lazy copy `ss`, Util.Trim the trimming, `random` and `is_valid_name`. Strings
--   are lists of bytes. Util.Escape and Util.RoundTrip compare the loops with a plain recursion.
--
-- * TimerManager (src/timer.h, src/timer.cc): Timer.Manager has the set of timers, as a list in the
--   order of the Comparator, and the heap of the timer objects that callers share. A method holds the
--   lock, and is one step; what Millisecond() gives is an argument.
--
-- * HTTP (src/servers/http/http.h, src/servers/http/http.cc): Http.Method and Http.Status have the two
--   maps of names, Http.Fields a std::map with keys that ignore the case, Http.Request the request with
--   its lazily parsed parameters (the macro PARSE_PARAM is `parse_param`, whose fuel is one more than
--   the text's length), Http.Response the response without its text form. It uses Util.Url.
--
-- * FDManager (src/fdmanager.h, src/fdmanager.cc): FdManager.Table has the entity and the table. The
--   call fstat is an argument, and a write behind the vector is `none`.
--
-- * Base64Encode and Base64Decode (src/hash.cc): Hash.Base64. The shifts of `packed`, which stays below
--   2^24, are multiplications and divisions; `return ""` is `none` in the loop.
--
-- * Stream (src/streams/stream.h, src/streams/stream.cc): Stream.Loops has the virtual methods as a
--   record over an arbitrary state, and the fixed-size loops, whose fuel is the number of bytes that
--   are left: each call that succeeds moves one byte at least. The length that a loop returns is an
--   int (`return_len`), so that a long one can look like a failure. Stream.Reliable is the contract of a
--   stream that delivers what it holds, `IsReliable`, and the loops on such a stream.
--
-- * WebSocket (src/servers/http/ws_session.h, ws_session.cc and ws_connection.cc): WebSocket.Frame has
--   the head of a frame with its bits, the mask and the byte order of the length; WebSocket.Session the
--   loops of recv_message and send_message of both sides in a small monad (`break` leaves the loop).
--   It uses Stream. The other children are proofs: Wire for what is sent, Receive and Message for what
--   is received, Long for lengths of 64 bits. The fuel of recv_message is the number of frames.
--
-- * IOManager (src/iomanager.h, src/iomanager.cc): IoManager.Events has the contexts of descriptors,
--   add_event, del_event, cancel_event, cancel_all_event and the handling of one epoll event (in
--   `idle`). cancel_event, del_event and cancel_all_event are each the test before the lock and what
--   stands behind it (`cancel_tested` and so on). IoManager.Reach has whole operations that do not
--   overlap as a step relation, which Counted, Good and Cancel prepare; IoManager.Race has two threads
--   between the test and the lock; IoManager.Trigger follows one waiter. A call through a null pointer
--   and an access outside the vector of contexts are `fault`.
--
-- * Coroutine (src/coroutine.h, src/coroutine.cc): Coroutine.States has the coroutines of one thread
--   with their states and s_t_running_co; `executing` and `saved` stand for the stacks that swapcontext
--   switches, and a failed assertion is `none`. Coroutine.Reach is the step relation in which only the
--   main coroutine resumes others, as Scheduler::run does, with its invariant in Coroutine.Steady;
--   Coroutine.Nested is one round, and a coroutine that resumes another.
--
-- * Scheduler (src/scheduler.h, src/scheduler.cc): Scheduler.Tasks has the list of tasks, schedule and
--   one round of run; Scheduler.Order is about which task is picked.
--
-- * HTTPSession (src/servers/http/http_session.cc): Http.Session has recv_request and send_response on
--   a Stream; the parser is the record `RequestParser`, and the fuel the number of reads.
--
-- * Servlets (src/servers/http/http_servlet.h, src/servers/http/http_servlet.cc): Http.Servlet has
--   ServletDispatch. A loop over m_globs runs on fuel, and fnmatch is an argument.
--
-- * HTTPConnection (src/servers/http/http_connection.h, src/servers/http/http_connection.cc):
--   Connection.Pool has the pool's connections, with ReleasePtr; Connection.Borrow is about the search
--   for a connection and Connection.Total about m_total over sequences of steps. Connection.Build has
--   the requests that are built from headers, and the results. Connection.Response has recv_response;
--   each of its loops goes round `fuel` times at most, the parser is the record `ResponseParser`, and
--   zlib two arguments. A chunk whose announced length an int does not hold is the outcome `fault`.
--
-- * Hooks (src/hook.h, src/hook.cc): Hook.Calls has do_socket_io and connect, over a record `Env` of
--   the system's call and of what the IOManager does with a coroutine that waits; the fuel is the number
--   of calls. Hook.Rounds is the same as a relation. Hook.Flags has fcntl, ioctl, setsockopt and close
--   over the table of FdManager, and Hook.Sleep the sleeps over TimerManager.
--
-- * Logging (src/log.h, src/log.cc): Log.Pattern has LogFormatter, Log.Logger the appenders and Logger,
--   Log.Registry LoggerMgr.
--
-- * Sockets (src/socket.h, src/socket.cc): Socket.States has Socket and its operations, over the record
--   `Sys` of the system's calls; Socket.Owns is about the descriptor that a socket holds, Socket.Reach
--   has the sequences of operations, and Socket.Stale is about the remote address. Socket.Transfer has
--   SSLSocket, with SSL_write and SSL_read as arguments.
--
-- Not modelled: HTTPResponse::dump and HTTPRequest::dump, the HTTP parsers and servers, the WebSocket
-- handshake and its servlets, the waiting of idle threads and for epoll, addresses, the YAML
-- casts of logging, configuration, threads and locks as such, the operating system's calls and what is
-- behind them, OpenSSL, zlib and yaml-cpp, which the code only calls.
pub mod Base
pub mod ByteArray
pub mod Util
pub mod Http
pub mod Timer
pub mod FdManager
pub mod Hash
pub mod Stream
pub mod WebSocket
pub mod IoManager
pub mod Coroutine
pub mod Scheduler
pub mod Connection
pub mod Hook
pub mod Log
pub mod Socket
pub mod Tests
