-- ===== src/Lib.antt =====
-- LFGateway, an API gateway in C++: two TCP servers on one epoll loop, the API's and the
-- management's. A request is read by the loop, handled on a thread pool, routed by a table from
-- MySQL, checked for a token in Redis, limited by a token bucket in Redis and by a window in
-- Redis, answered, and logged to a Redis stream, from which a writer takes the entries into
-- MySQL.
--
-- The files and the code that each models:
--
--   Base: lists, strings of byte values, decimal numbers, `int` and `std::stoi`, maps as
--     association lists, and Reach for the runs of a step relation.
--   Http: include/http/http_parser.hpp. `round` is one round of the loop of `HttpParser::parse`,
--     `run` the loop. Rounds says what a round leaves and how many rounds an input takes, Chunks
--     is about input in pieces, Print and RoundTrip about printed requests.
--   Router: gateway/src/router.cpp, the rules and the reload; Match, Load and Ranges are its laws,
--     and Pointer has the pointer that `match` returns.
--   Auth: gateway/src/auth_plugin.cpp, and the part of `Gateway::processApiRequest` that takes
--     the token out of the header.
--   Limiter: Bucket is the Lua script of gateway/src/distributed_rate_limiter.cpp, Script its
--     text, Distributed the class that sends it; Window is gateway/src/ratelimit_plugin.cpp.
--   Redis: gateway/src/redis_client.cpp, with Pool for `RedisPool`, Client for the commands and
--     Streams for those on streams.
--   Mysql: gateway/src/mysql_pool.cpp, with Counts for its counters, Drain for an outage and
--     Handles for what it opens and closes, with the destructor.
--   Log: gateway/src/log_consumer.cpp. Stream: gateway/src/stream_writer.cpp, one round of its
--     loop.
--   Gateway: gateway/src/gateway.cpp. Process is `processApiRequest`, Respond `sendResponse`,
--     Json the texts for the management, Delete `addRoute` and `deleteRoute`. Flow puts the API
--     server, the thread pool, `processApiRequest` and the loop together, for the way of a message
--     to its response, and Admin the management server with `onMgmtRequest`; Whole puts
--     the two servers into one process. Start is the
--     constructor, `start` and `stop`; Lifetime the order of the members in
--     gateway/include/gateway.h, in which they are taken down.
--   Main: src/main_gateway.cpp, the handler of the signals, and in Boot `main` up to its loop.
--     Timestamp: include/base/timestamp.hpp.
--   Mgmt: gateway/src/mgmt_handler.cpp.
--   Net: src/net, with Channel, EventLoop, Connection (`TcpConnection`), Server (the map of
--     `TcpServer`) and Acceptor. Serving puts the acceptor, the map and the connections together, with
--     `~TcpServer` in its Teardown; Life of EventLoop is its constructor and destructor.
--   Pool: include/pool, with Thread (`ThreadPool`) and Memory (`FixedMemPool`, and `MemoryPool` in
--     its Levels, with its clients in Shared).
--   Timer: include/timer/timer.hpp, with Spec for what a wheel promises without its slots.
--   Async: include/log/async_logger.hpp.
--
-- How the code is carried over. A function of the code is a function on the state, in the order
-- of the code, with its early returns and its exceptions as results of their own. Where threads
-- share a state, each part that holds the mutex is a step of a relation, and a theorem about
-- `Reach` holds for every interleaving. A constructor's own operations, clocks, the answers of
-- MySQL, Redis, `read`, `write` and `operator new` are arguments. `Server` is any Redis: a state
-- and a function that answers a command; a hypothesis on it names the commands it must run as
-- documented.
--
-- Numbers. Numbers are natural numbers; `int` is an integer, its arithmetic taken to wrap, and
-- the 64-bit counters are written with their remainder. The script's tokens are counted in
-- thousandths, so that the refill by `rate / 1000` for each millisecond is exact, where Lua
-- rounds its floating-point numbers. Latencies and the average are texts that are given.
--
-- Loops. The parser's loop has as fuel one more than the rounds that its state and buffer can
-- take; Http.Chunks shows that it is enough for every input. The search of `MemoryPool` has
-- twelve rounds of fuel, of which it needs at most ten. Every other loop is a recursion on its
-- data.
--
-- Not modelled: the calls that create sockets and the loop's descriptors, whose results are
-- arguments, the addresses and other constants that `main` passes on, what the code prints, and what the
-- workers do while `~Gateway` destroys the members that they use. In Process a rule is the rule that was found; that
-- the pointer to it can outlive the table is the matter of Router/Pointer. In Flow a call of
-- `processApiRequest` is two steps, the count of the request and the rest, and a connection is known by its name, which is its own as
-- long as the counter of the names has not come to its end. The functors of the loop's own
-- model and the tasks of the pool's own model are of any type; a timer's callback is a number.
pub mod Async
pub mod Auth
pub mod Base
pub mod Gateway
pub mod Http
pub mod Limiter
pub mod Log
pub mod Mgmt
pub mod Mysql
pub mod Net
pub mod Pool
pub mod Redis
pub mod Router
pub mod Stream
pub mod Timer
pub mod Timestamp
pub mod Main
