-- ===== src/Lib.antt =====
-- cppClientRabbitMQ: a C++ client of RabbitMQ, the tools it comes with, and two programs that use
-- it for remote calls. This library models them and proves what makes them correct.
--
-- The parts and how they interact
--   Broker models Modules/Broker and include/Broker. A client (`MessageBrokerBase`, in Broker/Base)
--   holds its configuration, a connection and a socket, and speaks to the server through the AMQP
--   library. Broker/Consumer and Broker/Producer are its two kinds: one declares a queue, binds it,
--   reads and acknowledges; the other publishes. Broker/Errors is utils.cpp, whose functions end
--   the process on a bad reply, Broker/Dump its print of a buffer, Broker/Info the configuration
--   with its defaults, and Broker/Wrapper the message that `read` gives.
--   Tools models parts of Modules/Tools and include/Tools: Decimal, Json, Split, UrlEncode and
--   Header are StringUtils.cpp and StringUtils.h, MarkValue and MapExpires the headers of these
--   names. Odbc is OdbcConnect.cpp (Odbc/Connect) and OdbcStatement.cpp (Odbc/Statement): a
--   connection owns the handles, and a statement refers to them. RedisClient is
--   RedisClientStorage.cpp: the list of connections (its lines in RedisClient/Client) and the lock
--   of the master, with the election among several processes in RedisClient/Election. RedisFacade
--   is what RedisFacade.cpp does on its own: the parsing of `XINFO`, the sorting of keys by type,
--   and the writing of a range of fields, with its other operations in RedisFacade/Operations; the
--   sets of keys, without their order, are in RedisFacade/Keys. ConfigAgent is ConfigAgent.cpp.
--   JsonUtils has the lookups of JSonUtils.h that a configuration is read with and the prints of
--   JSonUtils.cpp, SystemUtils the files of SystemUtils.cpp, FormatTime and Dates the dates of
--   StringUtils.cpp (those with a fraction in Dates/Fraction), Number the print of floating-point
--   numbers in StringUtils.h, HttpRequest the request over TLS, and ProgramOptions and Logger the
--   files of these names. Step is the form of their member functions.
--   Rpc models src/rpc_server/Main.cpp and src/rpc_client/Main.cpp: the server reads a request,
--   acknowledges and answers it, and the client publishes a request and reads until it finds the
--   answer. Both have a consumer and a producer, which share the calls made so far; Rpc/Setup is
--   what they make of their options, and Rpc/Main their `main` from the command line on.
--   Web models Modules/Web: Session is the worker thread of a web socket, a step relation whose
--   states are the places of the thread, and Exchange the client that starts and stops a session
--   for each symbol, on its keys alone. Sessions puts the two together: the calling thread, which
--   waits in `Stop`, and the workers, in any order.
--   Common has the texts, tests and lists that all of them use, and Examples the theorems at
--   concrete inputs.
--
-- How state, failure and foreign code are modelled
--   A member function is a step on its object and on the list of calls that the program has made of
--   the AMQP library, the newest first (Broker/Act, `Session` of Broker/Base). It ends with a
--   value, a C++ exception, the end of the process by `exit(1)` with the printed line, a failed
--   assertion, or a use of a null pointer. Assertions are those of a debug build.
--   The library is not modelled, and Modules/RabbitMQ is a copy of it: the record `Amqp` of
--   Broker/Amqp gives its answers as functions of all calls so far, so that a theorem holds for
--   every server, and what a theorem needs of the answers is a hypothesis of it. The record `Odbc`
--   of Tools/Odbc does the same for the ODBC library, the records `Redis` of Tools/RedisClient and
--   of Tools/RedisFacade for redis++, and `System` of Tools/ConfigAgent and `FileSystem` of
--   Tools/SystemUtils for the file system, `Documents` of Tools/JsonUtils for the JSON library,
--   `Network` of Tools/HttpRequest for boost and OpenSSL, `Calendar` of Tools/Dates for broken-down
--   times and the time zone, and `Spdlog` of Tools/Logger for the log, and `OptionLibrary` of
--   Rpc/Main for the command line. `Server` of Tools/RedisClient/Election is the server of the lock
--   as several clients see it.
--   A text is a list of byte values. `c_string` is the part in front of the first NUL, which is
--   what `c_str()` passes on. A 64-bit number is a natural number with its wrap-around written out.
--   A vector and a map are lists, a map in the order of its keys, an unordered one in the order in
--   which the keys came.
--
-- Bounds and fuel
--   The client waits in an endless loop: `wait_for_message` runs on fuel, and any fuel above the
--   place of the first answer is enough. `sysmaster_lock` reads the lock on fuel until it is there:
--   any fuel above the number of reads that find nothing is enough. The rounds of the server, of
--   the client and of the agent are counted. All other loops are structural recursion over the text
--   or the container.
--
-- Not modelled
--   The output to the console, with `die` of Modules/Broker/utils.cpp and `print_reply` of
--   Modules/Tools/RedisFacade.cpp, which only print, and which nothing calls; the containers'
--   iterators. The operations of floating-point numbers are parameters (`Doubles` of
--   Tools/Dates/Fraction, `Floating` of Tools/Number).
pub mod Common
pub mod Broker
pub mod Tools
pub mod Rpc
pub mod Web
mod Examples
