-- ===== src/Lib.antt =====
-- A TFTP client and server in C++ (RFC 1350, with the options of RFC 2347 to 2349).
--
-- The parts and how they interact. src/common has the packets, the conversions, the two kinds of
-- file, the timer and the socket; src/server the server, and src/client the client. The server
-- waits in one epoll loop. A request that arrives on its port is put in a queue by the connection
-- handler; the loop takes requests from the queue while there is room and makes a connection, with
-- a socket and a timer of its own, for each. A connection is a state machine: the loop calls its
-- handle_read when its socket has a datagram or its timer has run out, and its handle_write when
-- its state is one that sends. After the events of a round, finished connections are erased. The
-- two programs are main.cpp of src/server and of src/client: the first makes a server and runs it
-- until a signal stops it, the second calls get_file or send_file for each file of its arguments.
--
-- Which file models what:
--   Common: helpers. Common.Outcome is the result of code that may throw or be undefined,
--     Common.Chars the bytes of `std::string` and `std::vector<char>`, Common.Decimal `std::stoul`
--     and `std::to_string`, Common.Words the bit operations on 16 bits.
--   Utils: src/common/utils.cpp. Utils.Netascii has native_to_netascii and netascii_to_native,
--     Utils.CStrings extract_c_strings_from_buffer, Utils.Subpath is_subpath, Utils.FileSize
--     get_file_size. Its functions on addresses are in Net.Inet.
--   Tftp: src/common/tftp.cpp and include/common/tftp.hpp. Tftp.Types has the packets, Tftp.Modes
--     the conversions to text, Tftp.Serialise and Tftp.Deserialise the ten functions on packets,
--     with their proofs in Tftp.Deserialise.Total and Tftp.RoundTrip.
--   File: src/common/tftp_read_file.cpp and tftp_write_file.cpp, over the streams of File.Stream.
--     File.ReadFile.Pending relates a reader to a queue of encoded bytes.
--   Net: src/common/udp_connection.cpp and timer.cpp, on what the system calls return. Net.Udp has
--     what a socket receives and sends, Net.Socket how it is made, set up and closed, Net.Timer the
--     timer, Net.Inet the addresses, Net.Descriptors the open descriptors of the process.
--   Server.Connection: src/server/tftp_server_connection.cpp. The record Connection has the members
--     of the class by their names without the underscore. Host has is_operation_allowed, Options
--     process_options, Create the constructor, Read handle_read and retransmit, Write handle_write.
--     Access, Receive, Oack and Retransmit have theorems on these, Machine the invariant of the
--     state machine, Transfer a transfer to a client that acknowledges what it gets, with
--     Transfer.Endless for blocks of no bytes, Order the order of what is sent under any calls,
--     Upload the reception of a file of one block, Resources the descriptors of a connection.
--   Server.Handler: src/server/tftp_connection_handler.cpp. Server.Loop: the loop of `start` in
--     src/server/tftp_server.cpp, one function for each of its nested loops, with the invariants of
--     the loop in its child modules, Loop.Download a transfer in it, and Loop.FirstClient that from
--     the request on. Server.Start: the constructors of the handler and the server,
--     the destructor, start and stop. Server.Main: src/server/main.cpp.
--   Client: src/client/tftp_client.cpp, with GetFile and SendFile for what its two functions do on
--     a socket, and Client.Session for the socket itself; Client.Online has the transfers whose
--     calls on the socket succeed. Client.Main: src/client/main.cpp. Client.Program: that on the two
--     functions.
--   Download: a connection and get_file together.
--   Tests: concrete values, and an instance of each theorem that is listed below.
--
-- Conventions. What the machine gives (datagrams, timer, results of `send`, file system) is an
-- argument. uint16_t and uint8_t wrap at 65536 and 256, size_t where the code subtracts. A null
-- FILE pointer that is used, an iterator past the end and a dangling pointer are `undefined`.
-- The record Host stands for the file system, the query of the
-- MTU and what the setting up of a socket comes to, which Server.Connection.Resources writes out;
-- Inet for inet_pton and inet_ntop, SocketCalls, ConnectionCalls and ServerCalls for the results of
-- the system calls, and Meets for what one transfer of the client meets. The options that
-- getopt_long finds, and how setting up spdlog ends, are arguments of the two programs.
--
-- Bounds and fuel. The read and write loops of the files get one round more than there are bytes,
-- which is enough where the device does not fail, since each round but the last moves a byte;
-- accept_pending gets one round more than there are requests, since each takes one; `serve` and
-- data_blocks take their number of rounds as an argument, and one more than there are bytes is
-- enough for blocks that are not empty. The other loops are by recursion on their input. Where the
-- list of replies to a client is used up, or that of what happens to a server, the result is
-- `out_of_fuel`: it still waits.
--
-- Not modelled: what is logged or printed, the unit tests, and the signal handler of the client,
-- which exits at once. get_mtu is one call of ioctl, whose result is a field of Host. The calls of
-- epoll_ctl for connections are an argument of each event, save that epoll_ctl_del is taken to
-- succeed. The descriptors of the connections are not in the list that Server.Start keeps: they are
-- in that of Server.Connection.Resources. An assertion that fails, in `retransmit` or in the
-- destructor of a file reader, is compiled out, as in a release build.
pub mod Common
pub mod Utils
pub mod Tftp
pub mod File
pub mod Net
pub mod Server
pub mod Client
pub mod Download
pub mod Tests
