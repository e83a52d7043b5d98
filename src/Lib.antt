-- ===== src/Lib.antt =====
-- vedadb-driver: the Python driver of VedaDB (python/vedadb), its core modelled and verified.
--
-- The driver talks to a server over a binary protocol. Frames carry a sequence number, an opcode and
-- a body in which column values stand in binary form. The multiplexer shares one connection between
-- the requests of several threads: it gives each a sequence number, and a thread of its own reads
-- frames from the socket and hands them to the request that waits for them. A connection greets and
-- authenticates over the multiplexer, sends statements and reads the rows of the answers; the
-- driver has handlers that answer them in tests. Around the protocol stand a pool of connections, a
-- load balancer that chooses the node for a connection, a client that fails over between nodes, one
-- that sends reads to replicas, a checker of a connection's health, a builder of SQL statements,
-- inserts in batches, migrations of the schema, a circuit breaker, a cache of query results, a retry
-- policy and a cursor that reads a result in windows, which know nothing of it and little of each
-- other.
--
-- - Wire/Frame.antt: python/vedadb/wire/vbp/frame.py, over the streams of Wire/Stream.antt.
-- - Wire/Opcodes.antt: python/vedadb/wire/vbp/opcodes.py.
-- - Wire/Types.antt, Wire/Types/Texts.antt, Wire/Types/Times.antt: python/vedadb/wire/vbp/types.py.
-- - Wire/Multiplexer.antt, Wire/Multiplexer/Many.antt: the tables of
--   python/vedadb/wire/vbp/multiplexer.py and the operations on them; Wire/Reader.antt: its thread
--   that reads, which shares the tests of a header with Wire/Frame.antt.
-- - Wire/Messages.antt, Wire/Handlers.antt: python/vedadb/wire/vbp/handlers.py, and the ERROR frame of
--   multiplexer.py; Wire/Client.antt, Wire/Client/Connect.antt, Wire/Client/Replies.antt:
--   python/vedadb/wire/vbp/__init__.py; Wire/Auth.antt, Wire/Auth/Handshake.antt:
--   python/vedadb/wire/vbp/auth.py.
-- - Circuit.antt: python/vedadb/circuit.py.
-- - Cache.antt: python/vedadb/cache.py.
-- - Retry.antt, Retry/Async.antt: python/vedadb/retry.py.
-- - Pool.antt, Pool/Calls.antt, Pool/System.antt: python/vedadb/pool.py.
-- - LoadBalance.antt, LoadBalance/Nodes.antt: python/vedadb/load_balance.py.
-- - Cursor.antt, Cursor/Fetch.antt: python/vedadb/cursor.py.
-- - Failover.antt, Failover/Calls.antt: python/vedadb/failover.py.
-- - RwSplit.antt: python/vedadb/rw_split.py.
-- - Health.antt: python/vedadb/health.py.
-- - Migrations.antt, Migrations/Inspect.antt: python/vedadb/migrations.py.
-- - Bulk.antt, Bulk/Pipeline.antt: python/vedadb/bulk.py.
-- - Query/Builder.antt, Query/Statements.antt: python/vedadb/query_builder.py; Query.antt: the
--   literals of python/vedadb/protocol.py.
--
-- How the models correspond to the code:
-- * A method is the function of its name, without the underscore in front, on a record of the
--   object's fields; it returns the record as the method leaves it. An exception is an `err` or a
--   constructor of the result; the texts of messages and the logging are left out.
-- * A byte is a number below 256, bytes and texts are lists; a text is the list of its code points.
--   The standard library's `struct`, UTF-8 and `dict` are in Base/Bytes.antt, Base/Utf8.antt and
--   Base/Dict.antt. Python's integers are `ℤ` of Base/Int.antt where a sign can occur.
-- * A stream (Wire/Stream.antt) is the list of the pieces in which its bytes arrive, a socket
--   (Wire/Reader.antt) has silent moments between them that outlast its timeout.
-- * A lock makes a method atomic; `give_back` also takes the test that `PooledConnection.close` makes
--   before it has the lock as part of one step. Steps of other threads are arguments of `call` and `alloc_seq` at
--   the places where the lock is not held; runs of the breaker, the cache, the pool and the balancer
--   are lists of calls in the order in which they get the lock.
-- * An object that several tables share is a number: the connections of a pool are in a heap, the
--   nodes of a balancer in a dictionary in the order of its list.
-- * Times are whole ticks of the monotonic clock, delays whole numbers of a unit.
--
-- Loops: reading n bytes takes at most n rounds, since each takes a byte or ends, so n is the fuel
-- of `read_loop` and `sock_loop`; the scan of `alloc_loop` has its 256 rounds as in the source; the
-- reader has one round for each frame and one for the end, which its theorem states; the hexadecimal
-- digits of a number are fewer than the number and the width together. `acquire` takes a turn for
-- each wait that it is given; a loop over a cursor has as fuel the calls of `next`, and needs one more
-- than there are rows. An attempt of a retry is counted down from `max_retries` + 1. All other loops
-- are recursion on their lists.
--
-- Parameters: the outcomes of the called function, of random.uniform and of the tests for exception
-- classes in Retry, `fetch_fn` and the digests that serve as keys in Cache, the other threads in
-- Wire/Multiplexer and Pool; which connections answer a ping, and whether a connection can be made, in
-- Pool; floating-point numbers, random.choice and random.uniform in LoadBalance; the client, str.upper
-- and the digits of numbers in Cursor; the nodes' clients and the times of their calls in Failover;
-- the printing of numbers and str.upper in Query; the statements on the tracking table, the upgrades
-- and the clock in Migrations, as functions of the database's state; the server and json.dumps in
-- Bulk; the classes of characters of `re` and random.choice in RwSplit; the hash functions, base64,
-- int and str, and the answers of the connection in Wire/Auth; the product of floats by which a
-- timedelta becomes microseconds in Wire/Types/Times; str.strip, str.upper and str in
-- Wire/Handlers; cells of other types than BOOL, INT4 and TEXT in Wire/Client.
--
-- Not modelled: `stream` as a generator in the multiplexer; the closing of a connection;
-- uuids, network addresses, JSON and floating-point formats in types.py; the asynchronous copy of
-- the breaker, and the decorators, which repeat the other code; the tasks and threads that repeat a
-- check in health.py. The reader's test of the closing flag is left out: a run of it ends with the
-- connection. URIs, the text protocol, publish-subscribe, streams, interceptors and the object mapper
-- have no model yet. Clients, framework bindings, TLS and the drivers in other languages are glue or
-- programs of their own.
pub mod Base
pub mod Bulk
pub mod Cache
pub mod Circuit
pub mod Cursor
pub mod Failover
pub mod Health
pub mod LoadBalance
pub mod Migrations
pub mod Pool
pub mod Query
pub mod Retry
pub mod RwSplit
pub mod Wire
