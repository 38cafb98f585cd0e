-- ===== src/Lib.antt =====
-- Models of the Keyword Centric Network programs: a library that looks locators up by keywords, and
-- the daemon kcndbd that stores measurements and answers queries about them.
--
-- Common holds what all parts share: the tests on numbers, lists, the state monad M of steps that
-- can abort, the monad E of steps that can also fail with an errno (Common/Fallible), C strings
-- (Common/Text) and errno values.
--
-- Buf models lib/kcn_buf.c. A buffer is the block of a kcn_buf_data, its three positions and the
-- cursor of the kcn_buf that points to it; each kcn_buf_X is X in Buf/Defs, Buf/Io (read, write) or
-- Buf/Queue. A failed assertion and an access outside the block are `none`. All positions are
-- size_t and wrap modulo 2 ^ 64; a valid block is smaller than 2 ^ 63 bytes, as every object is.
--
-- Msg models lib/kcn_msg.c over Buf: header, query, response and addition, each encoder and each
-- decoder with its early returns. A stream is the bytes ahead of the cursor, so that a message that
-- is cut or followed by others is a matter of lists.
--
-- Eq models lib/kcn_eq.c (types, operators, time window), Str lib/kcn_str.c (numbers, copies,
-- hash), Registry lib/kcn_db.c (the list of databases), Info lib/kcn_info.c (the record of a
-- search), Uri lib/kcn_uri.c (the URI of a search and the encoding of its parameters), Httpbuf
-- lib/kcn_httpbuf.c (the bytes of a response), Keys lib/kcn.c (keys joined and split) and Token
-- lib/kcn_token.c (the tokens of a line). Whether malloc() and realloc() give a block is a flag or
-- a function of the call and of the size; sizes are size_t and wrap. The loop of kcn_key_split gets one round more than the string has bytes. Values of an
-- enum are numbers, since what arrives over the wire is not checked; a time is the bit pattern of a
-- time_t of 64 bits. strtoll(), strcasecmp(), strtok_r() and the character classes of the C library
-- are written out. Handlers of a database are functions of its entry.
--
-- File models kcndbd/kcndb_file.c over Buf. The operating system is the bytes of the file, the
-- offset and a list of answers, which may cut a transfer or refuse a call; where the list ends each
-- call does all that it can. The loops run on fuel: kcndb_file_ensure gets as many rounds as bytes
-- are asked for, kcndb_file_write as many as there are to write, since each round that succeeds
-- moves a byte.
--
-- Db models kcndbd/kcndb_db.c over File, Str and Eq: one table with the sizes and the lock that its
-- threads share, and in Db/Array the tables of all types. Db/Locators is the file of locators,
-- Db/Records that of records; Db/Locks is about the lock, Db/Reading about a record that is read,
-- Db/Lookup about a locator that is looked up, Db/Chains about the table of offsets and the chains of
-- locators that an addition follows, Db/Matches which records a search wants, Db/Selection what it is
-- to find, Db/Rounds its loop and Db/Search the search as a whole. Db/Storing is about the tables that kcndb_db_table_open and
-- kcndb_db_record_add leave, on which a search runs. Chains of locators and the loop of a search
-- run on fuel that the caller gives; `none` stands for its end, as for a call that waits for ever:
-- a chain needs a round for each of its locators and one more, a search one for each record and one
-- more. A lock of another thread is a number of readers or a writer that does not go away. The
-- callback of a search is a function on the state of its caller.
--
-- Net models lib/kcn_net.c over Buf, as it is configured on Linux: a connection is its state, its
-- two events, how often its descriptor was closed, its buffers, its queue and the bytes that
-- write() took. Net/Defs has its state changes, Net/Io its callbacks, Net/Creation is about
-- kcn_net_new, and Net/Life has the steps that its owner and the event library make. The answers of
-- event_add(), malloc(), read() and write() are lists; where the answers of event_add() and
-- malloc() end, they succeed. The loop of kcn_net_write_cb gets one round more than write() has
-- answers ready, since each round takes one and the next would block.
--
-- Client models lib/kcn_client.c and Server kcndbd/kcndb_server.c over Net and Msg, the latter over
-- Db too. Each is the callback that Net calls with a buffer, and what it sends. kcn_client_read and
-- kcndb_server_recv run on fuel: each round drops a message, so that it is enough that exceeds the
-- number of messages. Server/Requests is about a query on the server, Server/Answers puts the two
-- sides together, and Server/Session is a connection of the server from its creation to its end,
-- over any event loop.
--
-- Client/Search is a search of the client from its connection to its end, over any event loop.
-- Client/Life is about the states of a connection whose callback is kcn_client_read: the steps of
-- Net/Life are those that have returned, so that a failed assertion is not one of them. Msg/Valid
-- has what it needs of the decoders.
--
-- Netstat models lib/kcn_netstat.c over Keys, Eq and Registry: the words that it matches, the
-- compiler of keywords and its search. What time() answers and the client are arguments.
--
-- Ctl models the reader of kcndbctl/kcndbctl_file.c over Buf, Str and Client, and the message of
-- kcndbctl/kcndbctl_msg.c; a call of err() is a failure. Its loops run on fuel: forward() reads a
-- byte in each round, and each round of readfile() but the last drops a line.
--
-- Http models lib/kcn_http.c over Httpbuf: libcurl is a record, whose curl_easy_perform() works on
-- the callback. Google models lib/kcn_google.c over Http's answers, Uri, Info and Registry: the
-- library that reads JSON is a record of functions on a type of values. Google/One is one request,
-- Google/Request its URI and Google/Pages the loop, which gets one round more than locators are
-- asked for, since each round asks for one at least.
--
-- Sockets models lib/kcn_socket.c and lib/kcn_sockaddr.c with IPv6: what the system answers is a
-- record for each function, and the descriptors that are closed are noted. Server/Threads and
-- Server/Start are the threads of kcndbd/kcndb_server.c and the socket on which they listen; what a
-- thread does without end is a list of what accept() has answered so far.
--
-- Programs models the main programs: Programs/Kcndbd kcndbd/kcndb_main.c, Programs/Kcndbctl
-- kcndbctl/kcndbctl_main.c with the file of kcndbctl/kcndbctl_file.c, and Programs/Key2loc
-- key2loc/main.c, whose searches are an argument. Programs/Resolution is about its rounds,
-- and Programs/Searches about those that main() makes with kcn_searchv over the databases that it
-- registers, where the one of lib/kcn_google.c is chosen. What getopt() gives is a list of options and a list of operands.
--
-- Not modelled: the event loop, which is a function or a relation on connections, and what other
-- threads do to the connections and tables of a thread, but for the lock of a table; logging, the
-- texts of the usages, and releases of memory.
pub mod Common
pub mod Buf
pub mod Str
pub mod Eq
pub mod Msg
pub mod Info
pub mod Keys
pub mod Net
pub mod Client
pub mod Server
pub mod Netstat
pub mod Ctl
pub mod Registry
pub mod File
pub mod Db
pub mod Uri
pub mod Token
pub mod Httpbuf
pub mod Http
pub mod Google
pub mod Sockets
pub mod Programs
