-- ===== src/Lib.antt =====
-- A model of the HTTP web framework: its messages, middlewares, asynchronous results, thread pool,
-- circuit breaker, event store and services, and its demonstration servers, with theorems about them.
--
-- The program. `Request` and `Response` (include/http, src/http) hold a message each: the parts of
-- the first line, headers, cookies, parameters, attributes and a body. A handler gets a request,
-- which `Request::from_string` has read from text, and fills a response, which
-- `Response::to_string` writes. The demonstration server (src/main.cpp) has controllers, which are
-- such handlers, and middlewares, which get the rest of the chain as a continuation.
-- `LambdaMiddleware` and `ConditionalMiddleware` (include/http/middleware.hpp) wrap such functions.
-- `Promise`, `Future` and `Task` (include/async) carry results and exceptions; `ThreadPool`
-- (include/core) divides work among threads. `CircuitBreaker` (include/resilience) guards calls;
-- events and their repository (include/patterns) store aggregates; the gRPC handler (include/grpc)
-- answers unary calls.
-- The example of a microservice (examples) puts the last three together: its HTTP handler calls a
-- service, whose work the circuit breaker guards and the repository stores. Of the other classes of
-- the repository (router, server, connections, event streams, GraphQL) a few functions have bodies;
-- web sockets and the rest are declarations.
--
-- Which file models what:
--   Types               include/core/types.hpp: enumerations, headers, cookies, endpoints
--   Text                what the classes use of std::string, streams and the number conversions
--   Fields              vectors searched by name (std::find_if and others) and std::unordered_map
--   Wire                the loops that both from_string and both to_string have
--   Request             the class of include/http/request.hpp; Request/Uri, Query, Cookies, Message
--                       and Wire model the functions of src/http/request.cpp by topic
--   Response            the class of include/http/response.hpp; Response/Headers, Body, Files,
--                       Factories and Wire model the functions of src/http/response.cpp by topic
--   Middleware          include/http/middleware.hpp: handlers as middlewares, and conditions; its
--                       Async models AsyncLambdaMiddleware
--   Router              include/http/router.hpp: Router::controller
--   Rounds              the loops that look at something until they see it
--   Throwing            results and exceptions, and calls that change a state and may throw
--   Promise             include/async/promise.hpp: promises over the shared states of std::promise
--   Future              include/async/future.hpp: futures by their outcome, then and catch_exception; the
--                       Units of both are the specialisations for void
--   Task                include/async/task.hpp: what a task does when it is awaited; its Polling
--                       models the loops that wait, and its WhenAny the threads of when_any
--   ThreadPool          include/core/thread_pool.hpp: submit, parallel_for and parallel_transform;
--                       its Periodic models submit_periodic
--   CircuitBreaker      include/resilience/circuit_breaker.hpp: execute_internal; its Metrics models
--                       the metrics and the results without a value
--   EventSourcing       include/patterns/event_sourcing.hpp: events; its ReadModel, Repository and
--                       Buses model the classes of these names
--   Grpc                include/grpc/server.hpp: messages and the handler of unary methods; its
--                       Context models ServerContext
--   Logger              include/utils/logger.hpp: levels, switches and the calls with a format
--   Connection, Server  include/core/connection.hpp and server.hpp: what they keep for the
--                       application, and the services by type
--   Sse                 include/streaming/sse.hpp: the data of events, and attributes of connections
--   GraphQl             include/graphql/schema.hpp: values
--   Tracing             include/tracing/tracer.hpp: attributes, and calls within a span
--   Microservice        examples/modern_microservice.cpp: messages, events and commands; its User,
--                       Service and Handlers model the class User, the class UserService, and the
--                       handlers of the addresses, and its Setup the pointers that the constructor
--                       of ModernMicroservice leaves
--   Demo                src/main.cpp: the controllers, the middlewares and the rate limiter; its
--                       Server models the handlers of main and its loop
--   Request/Lookup, UriParts, UriCaches, Pieces, Encoding, Length, RoundTrip and BodyTrip,
--   Response/Lookup, Length, RoundTrip, Chunks, Pages and Ranges, Wire/Headers, FirstLine and
--   Bodies, Names,
--   Middleware/Chain, Router/Controllers, Promise/Validity and Delivery,
--   Task/Combinators, Task/WhenAny/Phases, Moves, Kept, Once, Steps, Early, Undisturbed
--   and Finished, Sse/Attributes, Server/Services,
--   GraphQl/Values, Logger/Filtered, Microservice/Setup/Order, Demo/Server/Statistics,
--   ThreadPool/Partition and Transform, CircuitBreaker/Accounts and Failures,
--   EventSourcing/Repository/Commits, Grpc/Calls, Tracing/Ended, Microservice/Refusal, Messages and
--   Json, Demo/Admission, Windows, Access, Handshake and Missing
--                       the theorems, named for what they are about
--   Tests               runs at concrete inputs, and instances of the theorems
--
-- How the state corresponds. A class is a record with the source's fields, and a method is a
-- function from the record to the new record (a const method that fills a cache returns the record
-- too). A string and a buffer are lists of bytes, numbers below 256. A position is a number, and
-- `npos` is `none`. An unordered map is an association list that holds each key once; its order is
-- not used. Functions keep their names, but for these: `to_string` is `print_request` and
-- `print_response`, the private `parse_query_string(query)` is `parse_query`, the overload of
-- `set_cookie` with an age is `set_cookie_for`, that of `set_body` for buffers is
-- `set_body_buffer`.
--
-- Bounds and fuel. `to_string` of a number makes at most twenty rounds, which are enough for 64
-- bits. The loops over the pieces of a query string and of a cookie header get one round more than
-- the text has bytes, and each round consumes one. The loops of parallel_for and parallel_transform
-- get as many rounds as there are elements, and each round takes at least one. The loops that poll
-- (wait, wait_for and wait_until of Task, submit_periodic, the loop of main) run on fuel, and the
-- theorems on them say how many rounds are enough. A schedule of the threads of when_any is any list
-- of their numbers; a thread has four steps, and a step that needs what the first resume of the
-- coroutine has destroyed makes the result `none`.
--
-- Parameters: the clock (a number), the text of a time point, the file system (the contents of a
-- file that can be opened), std::regex_match, and the functions that are declared without a body:
-- set_json_body, WebSocket::calculate_accept_key and Endpoint::to_string; whether enqueue_task takes a
-- task; async::when_all of two iterators, which the thread pool calls and the repository does not
-- have; the circuit breaker's recording, durations, semaphore and race with a timeout (Operations);
-- the event store and the aggregate's class (Backend); the buses and the spans (Services, Spans); the
-- texts of exceptions; what a handle's done(), the flags of the pool and of the server, and the
-- clocks say at each look; the calls of a router that add a route (Registration); what a logger's
-- `log` does (Sink).
--
-- Coroutines. `co_await` waits for what it is given, so a coroutine is what it does to a state and
-- what it returns or throws; its frame is taken to live as long as its task, but for that of when_any,
-- which ends with the first resume. The lambdas that the
-- microservice gives to its circuit breaker are waited for.
--
-- Not modelled: code that only does input and output, generated files, and the classes that the
-- repository declares without bodies: sockets, web sockets, the server and the router but for the
-- functions named above, the parser, the validator and the engine of GraphQL, and the streams of
-- events. `format_string` of the logger is not a well-formed function. `std::isspace`, `std::tolower`
-- and `std::toupper` are those of the C locale.
pub mod Prelude
pub mod Text
pub mod Types
pub mod Fields
pub mod Wire
pub mod Request
pub mod Rounds
pub mod Logger
pub mod Connection
pub mod Sse
pub mod Server
pub mod GraphQl
pub mod Router
pub mod Response
pub mod Demo
pub mod Middleware
pub mod Throwing
pub mod Promise
pub mod Future
pub mod Task
pub mod ThreadPool
pub mod CircuitBreaker
pub mod EventSourcing
pub mod Grpc
pub mod Tracing
pub mod Microservice
pub mod Names
mod Tests
