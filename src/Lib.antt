-- ===== src/Lib.antt =====
-- The programs of learn_asio: an HTTP server on asio.
--
-- The parts, and how they interact
--   src/common/message.h and message.cpp hold http_message, what a request or a response consists
--   of. The third-party http_parser fills it by callbacks while bytes are fed to
--   http_message::parse. src/http_server/response.cpp lays a response out for the wire;
--   request_handler.cpp fills it; connection.cpp reads a request, has it handled and writes the
--   response; connection_manager.cpp keeps the set of the connections; server.cpp accepts clients
--   and ends on SIGINT or SIGTERM. tutorial/301.chat_server.cpp and
--   tutorial/202.async_tcp_server_streambuf.cpp are servers of their own, with the same queue of
--   outgoing messages in each session. src/http_client/main.cpp is a client that asks a server
--   again and again; here it asks the server of src/http_server. tutorial/201.async_tcp_server.cpp
--   is a server that only reads. src/basics/daytime1.cpp to daytime7.cpp are servers and clients
--   of the daytime protocol. The timers of src/basics/timer2.cpp to timer5.cpp and
--   thread.cpp, tutorial/207.multithread_with_multiple_io_context.cpp and the client of
--   tutorial/110.http_client.cpp stand alone; so do the programs that wait for a signal and
--   tutorial/106.timers.cpp. tutorial/101.tcp_server.cpp and 102.tcp_client.cpp, and
--   103.udp_server.cpp and 104.udp_client.cpp, are a server and its client.
--
-- The files
--   HttpParser        The interface of http_parser, a git submodule: the parser's state, the function
--                     http_parser_execute and the fields that are read after it. A parameter of all
--                     that uses it, with no law assumed of it but in Message/Pieces.
--   Message           http_message: the record, the callbacks (`callback`), save_headers, reset, and
--                     parse in the order of the source (`feed` is impl::parse, `finish` what follows).
--     Headers, Joined What the header callbacks make of a block of header lines, and of one in which
--                     some have no value.
--     Outcome         What one call of parse does.
--     Fragments, Pieces
--                     The same texts, and the same bytes, cut into other pieces.
--   Response          response: the constructors (`default_response`, `stock_response`) and to_buffers.
--     Texts, Date     The status lines, the stock pages, and put_time in the C locale.
--     Reader          An independent reader of a whole HTTP response.
--     Wire, Status    What to_buffers sends, whatever the order of the headers.
--   RequestHandler    The four handlers of request_handler.
--   Server            connection, connection_manager and server: `World` holds the connections by
--                     pointer, the manager's set, new_connection_, whether the acceptor is open, and
--                     the operations that were started and whose handlers have not run yet. Each
--                     member function is a function on worlds, named as in the source, with
--                     connection_manager's start and stop as manager_start and manager_stop.
--     Steps           What can happen while io_context::run runs: any operation under way ends with
--                     any result, and its handler runs to its end.
--     Pending, Fresh  Counting operations; what a connection is before its request is complete.
--     Invariant, Serving, Finished, Shutdown
--                     The server until a signal, its answered connections, and after a signal:
--                     Shutdown/Winding is what runs then, up to the end in Shutdown/Ending.
--     Replies, Accepting, Received
--                     Which answer is written; when the handler of an accept throws; what a
--                     connection has read and parsed in a run.
--   Outbox            The queue of outgoing messages with one write at a time (301 and 202).
--   Streambuf         std::getline and consume on an asio::streambuf (301 and 202).
--   Chat              The chat server, tutorial/301.chat_server.cpp: `ChatServer` holds the sessions by
--                     pointer, the vector of those that joined and the accepts under way; a session's
--                     reads and writes under way are fields of the session.
--     Steps           What can happen to it while io_context::run runs.
--     Broadcast, Invariant, Running, Effects, Silent, Ends
--                     Who gets a message; the invariant; what a read does; how reading and
--                     accepting end.
--     Room, Entries, Delivered, InFull
--                     The chat as one log of what is said, of which every member hears its part.
--   LineServer        The sessions of tutorial/202.async_tcp_server_streambuf.cpp.
--     Order           What such a session sends back.
--     Accepting       The accept loop of its class server.
--   ReadUntil         asio::read_until, a parameter with its documented behaviour.
--   IStream           std::istream over a streambuf: >> of a word and of an int, std::getline.
--   HttpClient        src/http_client/main.cpp: the request, and what one round of its loop logs.
--     Fronts          What is in the buffer when a read has returned.
--     Lines           The header lines that it logs.
--     Reading, Rounds, CutOff, Served, Whole
--                     What the client makes of one response of http_server, of many, and of one
--                     that is cut off; the client and the server together.
--   WorkerServer      The server of tutorial/201.async_tcp_server.cpp, with the operations under way.
--     Reads           Who is read from.
--   Countdown         The counting timers, src/basics/timer3.cpp and timer4.cpp.
--     Together, Named The two timers of timer4 on one io_context, and those of src/basics/timer2.cpp.
--   Daytime           The daytime programs, src/basics/daytime1.cpp to daytime7.cpp: the text, and the
--                     loops of the programs that wait for each call (1, 2, 4 and 5).
--     Length          How long the text is.
--     Udp, Tcp, Both  The asynchronous servers of daytime6, of daytime3 and of daytime7, each with
--                     the operations under way and with what can happen to it; Answers, Greetings
--                     and Invariant are what they send.
--   Threads           The two timers of src/basics/thread.cpp.
--   Printer           The two timers of src/basics/timer5.cpp, with their handlers on a strand.
--     Unsynced        The same without the strand.
--     Ending          How long that goes on.
--   Application       The asynchronous HTTP client, tutorial/110.http_client.cpp.
--   IoContextGroup    io_context_group, tutorial/207.multithread_with_multiple_io_context.cpp: its
--                     constructor, and how it hands its contexts out.
--     Running         Its threads.
--   Deadline          The connection attempt with a deadline, tutorial/106.timers.cpp.
--   CString           What a stream prints of a char* (102 and 104).
--   Hello, Echo       tutorial/101.tcp_server.cpp with 102.tcp_client.cpp, and 103.udp_server.cpp with
--                     104.udp_client.cpp.
--   CommandLine       The main functions that read the command line, with std::stoi and std::atoi: 101,
--                     102, 201, daytime5 to daytime7 and http_server, and in Clients http_client,
--                     daytime1, daytime4, 110 and timer5.
--     Ports, Mains    Numbers and their texts; the ports that are listened on.
--   EventLoop         tutorial/203.io_context_run_forever.cpp and
--                     204.post_custom_functions_to_io_context.cpp.
--   Logging           Log, ScopeTrace and make_singleton, src/common/log.hpp and singleton.h.
--   Signals           src/basics/signal.cpp and tutorial/105.signal.cpp.
--   Base              Shared helpers: lists over the native numbers, byte strings, maps, decimals.
--   Tests             Small parsers, messages and worlds on which the theorems are tried.
--
-- Choices
--   The counters of Printer and Countdown wrap around at 32 bits, that of IoContextGroup at 64,
--   and an int that is read has 32 bits. Other numbers are unbounded: they are sizes of data in
--   memory and the fields of a date, and never wrap. Nothing runs on fuel but to_decimal, which
--   divides by ten at most as often as the number's value plus one, and log_headers, which takes a
--   character out of the buffer in each round and has one round more than the buffer has
--   characters; io_context::run in Countdown takes the number of handlers that it may run, and it
--   is proved which number is enough. A pointer is a number, never used again. What the program
--   does not decide is an argument: the time, the order in which the unordered_map is walked (a
--   permutation where a theorem needs it), the bytes that a read brings (at most buffer_size), the
--   error code an operation ends with, and whether remote_endpoint and shutdown throw. Of
--   operations that are started on a closed socket Server/Shutdown/Winding assumes that they end
--   with an error that is not operation_aborted. Of async_read_until it is assumed that it reports
--   the length of the first line in the buffer, and of read_until that it returns once the
--   delimiter is in the buffer, with no byte lost, and throws if the connection ends before that;
--   and of http_parser, where Message/Pieces says so, that it reports the same texts however its
--   input is cut, as long as it accepts the input, that it refuses an input that is cut exactly if
--   it refuses the whole, and that it reports no header value without a name. The handler of a
--   write is bound to a connection by a plain pointer; Server/Shutdown gives it no meaning once
--   nobody owns the connection, while Server/Steps, where the connection still exists before a
--   signal, lets it run in any case, which only adds runs to those that there are. The refusal of
--   a request is given as the bytes at the start of its write; they are in a temporary, and nothing
--   is said of what a client receives of them. The order of std::set, which only fixes the
--   order in which stop_all closes sockets, is not modelled, nor are errors of signals_ and of
--   memory. Of the Printer without its strand it is assumed that loads and stores of cnt_ happen
--   one at a time, which C++ does not promise. Of two timers that wait on one thread it is assumed
--   that the one that expires first is handled first. Whether a port can be opened and a name
--   resolved are arguments of the main functions.
--
-- Not modelled
--   The text of the log lines and the set-up of the log; how cxxopts reads the command line; the
--   other small examples of basics and tutorial, which consist of a few calls of asio each; the
--   pauses of the HTTP client and of daytime3.
mod Base
pub mod HttpParser
pub mod Message
pub mod Response
pub mod RequestHandler
pub mod Server
pub mod Outbox
pub mod Streambuf
pub mod Chat
pub mod LineServer
pub mod ReadUntil
pub mod IStream
pub mod HttpClient
pub mod Daytime
pub mod WorkerServer
pub mod Countdown
pub mod Threads
pub mod Printer
pub mod Application
pub mod IoContextGroup
pub mod CommandLine
pub mod EventLoop
pub mod CString
pub mod Deadline
pub mod Echo
pub mod Hello
pub mod Signals
pub mod Logging
mod Tests
