-- ===== src/Lib.antt =====
-- Verification of the SOCKS client library, of the example server and of the example clients.
--
-- The library connects a stream, already connected to a SOCKS server, to a target behind the server.
-- Over SOCKS5 `connect` sends a greeting, the credentials if the server asks for them, and the request,
-- and reads the answer to each; `async_connect` does the same as a coroutine. Over SOCKS4 there is one
-- request and one reply. All of them write the messages into a buffer and read the answers from it.
--
-- The files and what they model, with paths from the root of the repository:
--   Base        lists, Boolean tests, and two monads: Base.Memory for a buffer that is written, Base.Access
--               for one that is read. `none` is undefined behaviour, a failed BOOST_ASSERT or an exception.
--   Error       include/boost/socks/error.hpp and impl/error.ipp
--   Codes       include/boost/socks/detail/: the enumerations and their conversions
--   Endpoint    include/boost/socks/endpoint.hpp, auth_options.hpp and the views of impl/connect.hpp
--   Requests    include/boost/socks/impl/connect.ipp: prepare_greeting, prepare_userpass_request,
--               write_target_host, prepare_request; in Requests.Decode what a server reads
--   Replies     include/boost/socks/impl/connect.ipp: validate_userpass_reply, validate_server_choice,
--               parse_reply_v5; and read_reply_cond of impl/connect.hpp
--   Stream      Asio's write and read, a parameter of the model, with what Asio documents of them; in
--               Stream.Chunks a read with a completion condition, of bytes that arrive in any parts
--   Connect     include/boost/socks/impl/connect.hpp: authenticate, write_connect_request,
--               read_connect_reply, connect; in Connect.Session the same as messages without a buffer, and in
--               Connect.Session.Sent on a stream that records what is written; in
--               Connect.Overrun a reply with data behind it
--   ConnectOp   include/boost/socks/impl/connect.hpp: connect_op and async_connect
--   V4          include/boost/socks/impl/connect_v4.ipp and impl/connect_v4.hpp
--   Server      example/server/async/socks_server_async.cpp: socks_connection; in Server.Relay its two relay
--               loops, in Server.Run a whole connection with the completions of its operations, in
--               Server.Process socks_server, which runs several, and the end of the process, and in
--               Server.Listen its constructor and main; in Server.Misread what it reads of too long a name
--   Exchange    the library's client on a stream whose other end is the example server: the parts in which the
--               messages arrive at each read, and what the resolver and the target answer, are parameters; in
--               Exchange.Program the programs of the example clients on that stream
--   Clients     example/client/sync/socks_client_sync.cpp (Clients.Sync) and
--               example/client/async/socks_client_async.cpp (Clients.Async); in Clients.Named,
--               Clients.Stages and Clients.Alike the one against the other
--   Tests       streams that play a script, and the theorems at concrete inputs
--
-- A function `f` of the source is the definition `f`; of two overloads the second has a suffix, and the parts of a
-- long function are definitions of their own. The state
-- that the functions share is passed on: the stream and the buffer as values, the `error_code&` as a
-- result. A function that may fault returns an Option. An octet is a number, and bytes that are to be octets
-- are hypotheses (IsByte). The words of 16 and 32 bits that replies are read into keep their wrap-around,
-- as does the count of 64 bits in the completion conditions.
--
-- A coroutine is the label where it is suspended and its fields; a resumption ends with the operation that it
-- starts. The event loop runs so many operations: six for SOCKS5, two for SOCKS4, six for the asynchronous
-- client and four for what the server does between two messages of the client, which is how many the
-- longest path starts. There is no other fuel.
--
-- The server and its relay are step relations: an operation is completed with any outcome that it may have, and
-- the operations of the two loops, or of several connections, in any order. A handler that throws ends the process:
-- `over` with its cause, and in Exchange the state `thrown`. The target socket may fail to open; in Exchange it opens.
--
-- Not modelled: Asio, Boost.URL and Boost.Beast, which are parameters; allocators, handlers and executors; the
-- output, with the calls that are made for it alone; the signals of the server's main; a failure of
-- `close` or of an allocation; the tests and their framework.
pub mod Base
pub mod Error
pub mod Codes
pub mod Endpoint
pub mod Requests
pub mod Replies
pub mod Stream
pub mod Connect
pub mod ConnectOp
pub mod V4
pub mod Server
pub mod Exchange
pub mod Clients
pub mod Tests
