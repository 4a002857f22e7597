-- ===== src/Lib.antt =====
-- A model of Gnugol, a command line client that asks web search engines and prints their results.
--
-- The program's parts, and where they stand:
--   * src/include/query.h is Query: the options of a query, which all parts share, with the buffers
--     `out`, `err` and `wrn` that results, errors and warnings are printed to.
--   * src/common/handy.c is Handy: `substitute_utf8` and its table `emap` are Handy.Entities, and
--     `strip_html`, a state machine over the bytes of a text, is Handy.Strip.
--   * src/common/utf8_urlencode.c is Url: `url_escape_utf8` and `url_escape_utf8_char` are Url.Escape,
--     `url_unescape_utf8` is Url.Unescape.
--   * src/include/formats.h and src/common/format.c are Format: the macros that print to a buffer are
--     Format.Buffers, the format tables Format.Tables, the header and the footer Format.Options, and
--     `gnugol_result_out` and `gnugol_result_out_long` Format.Lines.
--   * src/common/engines.c is Engines: `gnugol_engine_load` and `gnugol_engine_query` are Engines.Load,
--     `gnugol_read_key` is Engines.Key, and what loading holds and `gnugol_engine_unload` gives back is
--     Engines.Held.
--   * src/common/nodelist.c is NodeList, on a memory of words: NodeList.Refines relates it to a row of
--     nodes, NodeList.Deque runs sequences of its operations, and NodeList.Loops are the two loops of
--     `main` over the list of the engines.
--   * `jsonrequest` of src/common/handy.c is Handy.Request.
--   * src/engines is Search: the macros of src/include/handy.h are Search.Json, the steps that the
--     engines share Search.Query and Search.Results, and bing.c, duck.c, googlev1.c, googlev2.c and
--     stackapps.c are Search.Bing, Search.Duck, Search.Google, Search.Custom and Search.Stack. What an
--     answer makes them print is Search.Prints and Search.Finds, with their differences in
--     Search.Sites; the URLs that they ask for are Search.Urls and Search.Keyed, with their forms in
--     Search.Forms; and Search.Plugin is duck.c as src/common/engines.c loads and
--     queries it. credits.c is Search.Credits, dummy.c Search.Dummy, and the unfinished plugins are
--     Search.Wikipedia.
--   * src/clients/gnugol.c is Client: the options of the command line are Client.Options, those of the
--     environment Client.Environ, `finish_setup` Client.Setup, and `main` Client.Main.
--   * `answer_parse` of src/common/parser.c, which takes the sections of a server's answer apart, is
--     Answer. src/gnugold/server is Server: server_options.c is Server.Options, and `main` of
--     udp_server.c, with its loop over the packets that arrive, is Server.Loop. The client of that
--     server, `query_main` of src/gnugold/transports/udp.c with `build_query` of
--     src/gnugold/oldsrc/fit_results.c, is Udp, and Udp.Answered puts both ends together.
--   * src/gnugold/oldsrc: `connect_client` of connect_client.c and `listen_server` of
--     listen_server.c are Sockets, with what they choose in Sockets.Chosen, and Udp.Connected
--     and Server.Listening are `query_main` and the server's `main` over them; multicast.c is
--     Sockets.Multicast, with the requests that it makes in Sockets.Multicast.Joined. The rest
--     of fit_results.c, which packs results into the text that `answer_parse` takes apart, is
--     Fit: its sections are Fit.Sections, `fit_buffer` is Fit.Refused, with the faults in
--     Fit.Faults, and Fit.RoundTrip puts the packing and the parser together.
--   * src/clients/gnugol_cgi.c, the client behind a web page, is Cgi, with its configuration and
--     `cgiMain` in Cgi.Config.
--   * src/prototypes/wikipedia.c, from which the program took its stripper, is Prototype; its key, its
--     query and what it prints of an answer are Prototype.Answers.
-- Base holds what the modules share, Clib what the code calls of the C library, and Tests the
-- properties at concrete inputs.
--
-- The client takes its defaults, the options of the environment and those of the command line,
-- loads the engines and escapes the words of the query. An engine is queried with the options; it
-- prints each result to `out` by `gnugol_result_out`, which strips title and snippet and picks a
-- line of a table.
--
-- How the code is read: a C string is the list of its bytes up to its NUL, a byte is a number, and
-- a function returns a `Result`, which is a fault where the code writes or reads outside an object
-- or where an assertion fails. A field of one bit is a Boolean; an `int` is an integer where it can
-- be negative, and a natural number where it counts. A struct that is passed by a pointer is taken
-- and returned. Conversions between integer types keep their wrap-around. Loops are recursion over
-- the bytes or the words that they read, so none needs fuel but the printing of a number, whose
-- fuel is the number itself and one more, and the loops over a list in memory, for which one more
-- than the number of its nodes is enough. A loop over a JSON array has the size of the array as its
-- rounds.
--
-- Parameters stand for what is not in the repository's own sources: the encoder of the bundled
-- UTF-8 library with the sizes of what it writes, the dynamic loader and the allocation behind
-- it, the environment and the files, `getopt_long` and `iconv`, the answers of libcurl, the JSON
-- library, and the directory of the plugins, and, for the server and its clients, the network,
-- the calls of the system for sockets and addresses, the answers of its kernel, the CGI library,
-- the plugin that the server asks, the text that `%g` makes of an `int`, and what is left of an
-- array that `sprintf` prints onto itself. `snprintf` is written out for `%s` and `%d`,
-- `bsearch`, `strcmp`, `strtoul`, `strstr` and `strsep` as the C library documents them.
--
-- Client keeps the engines in an ordinary list, which is what a list of nodes stands for.
--
-- Not modelled: what the macros of src/include/handy.h print to `stderr`; the functions of the
-- CGI client that nothing calls, and the FastCGI client; the SCTP server; dns.c and fpipe.c of
-- src/gnugold/oldsrc; the functions of multicast.c for a system without joins by
-- `MCAST_JOIN_GROUP`, and those for Windows; what the server prints of its options; the JSON
-- wrappers; the unfinished `format_term`; and the release of memory, but for that of the
-- engines.
pub mod Answer
pub mod Base
pub mod Cgi
pub mod Clib
pub mod Client
pub mod Engines
pub mod Fit
pub mod Format
pub mod Handy
pub mod NodeList
pub mod Prototype
pub mod Query
pub mod Search
pub mod Server
pub mod Sockets
pub mod Tests
pub mod Udp
pub mod Url
