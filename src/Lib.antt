-- ===== src/Lib.antt =====
-- A verification library of poolfrontend, the HTTP front end of a mining pool (src/).
--
-- The program. A PoolHttpServer (src/http.h) keeps a sorted table of the pool's backends and one of
-- statistic databases. Each accepted socket gets a PoolHttpConnection, which reads bytes, lets the
-- HTTP tokeniser cut them into components, and hands each component to onParse (src/http.cpp). A POST
-- of /api/<function> with a JSON body selects a handler. A handler reads the fields of the body, checks
-- them, and either writes a reply at once or takes a reference to the socket and starts an asynchronous
-- operation of poolcore (user manager, accounting database, statistics), whose callback writes the reply
-- and gives the reference back.
--
-- main (src/main.cpp) loads the configuration file (src/config.cpp), builds a backend for each coin and
-- the instances that are linked to them, and starts them all, the server behind what it serves.
-- src/noderpc.cpp is a tool of its own, which sends one request to the node of a coin.
--
-- The model. What a request makes the program do is a list of events (Http/Handler): a reference taken
-- or given back, a call started, a reply written, a coefficient set. A handler is a function in a
-- state-and-exit monad over the validity flag `validAcc` and the events so far, in which an early
-- return of the code is an exit. A reply is a value of the tree type of Http/Out, in the order in which
-- the code adds the fields.
--   Json             rapidjson's values and the double operations used, as a record of operations that
--                    every definition takes as a parameter; Json/Sample is one concrete value of it.
--   Config/Types     the structures of src/config.h.
--   Config/Loader, Readers, Parts, Coin, Frontend        src/config.cpp: the error accumulator and its
--                    description, the jsonParse functions and the load functions, in a monad over both
--                    with early returns. Config/Decode is a decoder of the same schema, written apart
--                    from it, and Config/Follows relates the two.
--   Start            src/main.cpp: Settings the paths, threads and mail server, Backends the coins and
--                    their nodes, Instances the links, Run the composition and the orders of starting
--                    and stopping, Signals the flags and the loop that waits for an interrupt, Text
--                    the C and C++ library routines. poolcore, the instance factory and the resolver
--                    are the parameter Core of Start/Types. An early return of main is a failure of
--                    the result type.
--   NodeRpc          src/noderpc.cpp: Options the option loop, Commands the coroutines, Run the checks and
--                    the choice of client and command. What one call of getopt_long answers is an
--                    element of a list; a request to the node is a value, with the messages that the
--                    tool logs as a function of the answer.
--   Http/Types       the data of poolcore that the handlers read and write.
--   Http/Services    the synchronous operations of poolcore, a parameter like Json.
--   Http/Fields      jsonParseString ... jsonParseNumber, parseUserCredentials, fnormalize.
--   Http/Lookup      PoolHttpServer's constructor, backend and statisticDb.
--   Http/Server      PoolHttpServer's start, stop and acceptCb.
--   Http/Users, Users/Settings, Users/FeePlans           the onUser... handlers.
--   Http/Backend, Backend/Statistic, Backend/Interval    the onBackend..., onInstance... and
--                    onComplexMiningStats... handlers.
--   Http/Callback    the lambdas that run when an asynchronous operation is answered; their replies are in
--                    Callback/Replies.
--   Http/Dispatch    FunctionNameMap_ and onParse.
--   Http/Chunk       reply200, reply404, startChunk, finishChunk, on lists of bytes.
--   Http/Connection  run, onRead, onWrite, close, with what the socket and the parser answer as arguments.
--   Http/Request     a request as a whole: the components one by one, the calls answered.
-- Theorems stand in Http/Responds, Http/Request, Http/Access and Http/Calls, and below the
-- component's own module (Http/Lookup, Http/Backend/Interval, Http/Chunk, Http/Connection);
-- those of the loader in Config/Follows, of the start-up in Start/Configured,
-- Start/Complete, Start/Boot, Start/Units and Start/Signals, of the tool in NodeRpc/Sends,
-- NodeRpc/Checked and NodeRpc/Split.
--
-- Bounds and fuel. Numbers are natural numbers or integers over them; the fields that the code keeps in
-- a w-bit type come from rapidjson's getters, which only answer in range, so no further wrap-around
-- occurs but in two places, where it is written out: the interval check, where the difference of two
-- int64_t is wrapped to 64 bits (C++ leaves an overflow undefined), and main, with its products in 32
-- bits and its ports in 16. `run_calls` has fuel for the calls that follow from one another; three is
-- enough. `lower_bound_loop` has one more than the length, since the part still searched halves.
-- `split_loop` has one more than the size of the text, since the part behind a comma is shorter.
--
-- Not modelled: the HTTP tokeniser, rapidjson, poolcore and getopt, which are parameters; sockets,
-- threads, the event loop, the heap profile and the log; src/passwordHash.cpp, which prints what a
-- routine of poolcore computes; the getopt copy under src/msvc.
pub mod Prelude
pub mod Json
pub mod Config
pub mod Http
pub mod Start
pub mod NodeRpc
