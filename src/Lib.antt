-- ===== src/Lib.antt =====
-- FastSQS: a library that serves batches of SQS messages in an AWS Lambda. Records are parsed, run
-- through middlewares and routed to handlers, and the failures of a batch are reported to SQS.
--
-- The parts, and the files that model them (paths from the repository's root):
--   Base         names of the libraries, Python's `==`, `in`, `if`, dicts and list helpers
--   Value        the values of JSON documents; `str` and `repr` (Value/Print); dotted paths,
--                `resolve_payload_path` of fastsqs/utils.py (Value/Path)
--   Exceptions   fastsqs/exceptions.py, with the Python exceptions that the code meets; `Res` is a
--                value or an exception
--   Types        fastsqs/types.py: `QueueType`, `FifoInfo`, `Context`; `State` in Types/Scratch
--   Run          the job of a record (payload, context, world) and the computations over it
--   Handlers     `uses_depends`, `maybe_inject`, `select_kwargs`, `invoke_handler` of
--                fastsqs/utils.py
--   Middleware   fastsqs/middleware/base.py: hooks and the stack that runs them
--   Idempotency  fastsqs/middleware/idempotency.py: the middleware over any store
--                (Idempotency/Protocol) and the store in memory (Idempotency/Memory)
--   Logging      fastsqs/middleware/logging.py: the lines, the middleware and `_log` of
--                fastsqs/app.py
--   Timing       fastsqs/middleware/timing.py
--   Tracing      fastsqs/middleware/tracing.py: `parse_traceparent` (Tracing/Parse) and where its
--                value is looked for
--   Events       fastsqs/events.py: message types and their variants
--   Routing      fastsqs/routing: a router's state; registration (Routing/Register); `dispatch`
--                and `_execute_handler` (Routing/Dispatch)
--   App          fastsqs/app.py: configuration, registration, `_resolve_queue_type`
--   Processing   fastsqs/processing.py: `_handle_record` (Processing), grouping (Processing/Groups)
--                and the batch (Processing/Batch); the tasks of a standard batch in any order
--                (Processing/Batch/Pool); `is_sqs_event` of fastsqs/utils.py (Processing/Shape).
--                Processing/Logged is `_handle_record` once more, with its log lines, and
--                Processing/Logged/Batch the batch.
--                Other files here and in the parts above hold proofs
--   Entrypoint   fastsqs/app.py: `handler`, `async_handler` and `_thread_loop`
--   Client       fastsqs/testing.py: the records of the test client
--   Examples     the applications of examples/: pydantic_nested_example, nested_example,
--                vehicle_inheritance_example, comprehensive_example, the middlewares of
--                custom_middleware_example and the locks of
--                ordering_with_standard_queues
--   Tests        the theorems and the code on a small application
--
-- How they interact: `handle_event` resolves the queue type (App), groups a FIFO batch and runs
-- `handle_record` for each record. That parses the body, makes a `Context` and runs the
-- application's middlewares around `route`, which asks the main router and then the included ones.
-- `dispatch` finds a route for the payload, goes down to a subrouter or runs a handler inside the
-- middlewares of the parents, the router and the route.
--
-- State. A computation over a job is a function `Job H → Res A × Job H`; an exception keeps what was
-- changed before it. What handlers, hooks and stores act on is one world, whose type is a field of
-- `Host`, beside the code that is not the program's: pydantic's validation, the JSON decoder
-- (a value or a `JSONDecodeError`), the Lambda context. Handlers and hooks are arbitrary such
-- functions. Routers are shared objects: they stand in a heap, and a subrouter is named by its
-- place.
--
-- Bounds and fuel. `dispatch` calls itself for subrouters, up to the depth of calls that the
-- interpreter allows, `App.depth`; behind it a `RecursionError` is raised. It is enough where it
-- exceeds the depth to which the routers nest. Numbers are unbounded, as in Python.
--
-- Simplifications: an `await` inside a record runs to its end, and tasks run in the order in which
-- they are created (Processing/Batch/Pool takes them in any order, with a record handled in one
-- piece); log lines are left out but in Processing/Logged; the texts of exceptions are parameters
-- there and left out elsewhere; a logger raises no `JSONDecodeError`; the lines of the standard
-- library's logger are left out, but in Timing; hooks do not change the record's dict; floats stand
-- for their `repr` and are dict keys of their own; the store's clock counts whole seconds; class
-- names are ASCII; `repr` prints every character from 0x7f on; the set of message type variants is
-- gone through in a fixed order; where a handler has put a value that is no text under
-- `idempotency_key`, the store's call is taken to fail; `max_concurrent_messages` is not negative.
--
-- Exceptions. `Exn` has the subclasses of `Exception` only, by their names. `asyncio.CancelledError`
-- and other exceptions that are none of these do not occur in the model: the tests of the code that
-- let them through (`except Exception`, `isinstance(result, Exception)`) always hold for what is
-- raised here, and what is said of every handler, hook, store or logger is said of those that raise
-- subclasses of `Exception`.
--
-- The examples' handlers print to a world that is the list of lines; `asyncio.sleep` only takes
-- time; a trace context under a name of the custom middlewares counts as None.
--
-- Not modelled: asyncio's event loops themselves, the fields of `CloudEvent` and of the examples'
-- classes (pydantic), the other examples.
pub mod Base
pub mod Value
pub mod Exceptions
pub mod Types
pub mod Run
pub mod Middleware
pub mod Handlers
pub mod Events
pub mod Idempotency
pub mod Tracing
pub mod Logging
pub mod Timing
pub mod Routing
pub mod App
pub mod Processing
pub mod Entrypoint
pub mod Client
pub mod Examples
mod Tests
