-- ===== src/Tests/Lines.antt =====
-- The logging and the timing middleware.
use fastsqs.Base.{suc, true, false, none, List, [], ◌∷◌, ◌≡◌, refl, string_eq, nat_eq}
use fastsqs.Base.{arith}
use fastsqs.Base.Dict
use fastsqs.Value.{Value, int, pos, null, str, Fields, end, field, find}
use fastsqs.Value.Print.{decimal}
use fastsqs.Exceptions.{ok, raise, type_error}
use fastsqs.Types.{fifo}
use fastsqs.Types.Scratch
use fastsqs.Run.{M}
use fastsqs.Middleware.{run_middleware_stack, enter, unwind, call_before, call_after}
use fastsqs.App.{resolve_queue_type}
use fastsqs.Logging.{
  Console, Logger, LoggingMiddleware, Installed, logging, another, json, app_log, log, emit,
  default_logger, as_middleware,
}
use fastsqs.Logging.Lines.{printed, stack_logged}
use fastsqs.Timing
use fastsqs.Timing.{Clock, TimingMiddleware, store_duration}
use fastsqs.Timing.Elapsed.{stack_timed}
use fastsqs.Processing
use fastsqs.Processing.{parse_body}
use fastsqs.Processing.Logged.{handle_logged, with_installed}
use fastsqs.Processing.Logged.Silent.{handle_logged-silent}
use fastsqs.Processing.Logged.Defaults.{handle_logged_fifo, print_all}
use fastsqs.Tests.Fixture.{toy, idle, order, m1, app_of, job_of, group}

-- Each line that is printed takes a second.
abbrev pub console : Console toy
console = record {
  time = λ w. decimal w.now;
  print_json = λ line w. record w { now = suc w.now };
  attribute = λ name context. json null;
  context_repr = λ context. "None";
  type_name = λ e. "Error";
  error_message = λ e. "";
  error_repr = λ e. "Error()";
  traceback = λ w. "";
  decode_error = λ s. "";
}

abbrev middleware_of : LoggingMiddleware toy
middleware_of = record {
  logger = none;
  level = "INFO";
  include_payload = true;
  include_record = false;
  include_context = false;
  verbose = true;
}

abbrev inner : M toy Value
inner j = (ok (str "done"), j)

handle_logged_fifo_example :
    (lines : List Fields) × (handle_logged console
        (logging middleware_of ∷ [])
        (app_of fifo true "isolate")
        m1
        0
        idle
      ≡ (raise type_error, print_all console lines idle))
unfolding find parse_body resolve_queue_type string_eq
handle_logged_fifo_example =
    handle_logged_fifo console (logging middleware_of ∷ []) middleware_of
      (app_of fifo true "isolate")
      (field "messageId" (str "1")
        (field "body" (str "order") (field "attributes" (group "g") end)))
      order (field "MessageGroupId" (str "g") end) "order" 0 idle refl refl refl refl refl refl

quiet_record :
    handle_logged console [] (app_of fifo true "isolate") m1 0 idle
    ≡ Processing.handle_record (with_installed console [] (app_of fifo true "isolate")) m1 0 idle
unfolding app_log
quiet_record =
    handle_logged-silent console [] (app_of fifo true "isolate") (λ level message. refl) m1 0 idle

stack_logged_example :
    (line : Fields) × ((run_middleware_stack
        (as_middleware console middleware_of ∷ [])
        inner
        (job_of order idle)).0
      ≡ (run_middleware_stack [] inner (printed console middleware_of line (job_of order idle))).0)
unfolding find string_eq fastsqs.Logging.json_value
stack_logged_example =
    stack_logged console middleware_of [] inner
      (field "messageId" (str "1")
        (field "body" (str "order") (field "attributes" (group "g") end)))
      (field "MessageGroupId" (str "g") end) (job_of order idle) refl refl refl
      ((null, refl), ((null, refl), (null, refl)))

abbrev clock : Clock toy
clock = record {
  perf_counter_ns = λ w. w.now;
  millis = λ n. "0.0";
  float_millis = λ now start. "0.0";
  info = λ msg_id status duration w. w;
}

abbrev timing : TimingMiddleware
timing = record { store_key_start = "start_ns"; store_key_ms = "duration_ms" }

-- It takes seven ticks.
abbrev slow : M toy Value
slow j = (ok (str "done"), record j { world = record j.world { now = 107 } })

stack_timed_example :
    run_middleware_stack (Timing.as_middleware clock timing ∷ []) slow (job_of order idle) ≡ (
      ok (str "done"),
      store_duration clock timing (str "1") none "0.0" (record (job_of order idle) {
        ctx = record (job_of order idle).ctx {
          state = record { entries = ("start_ns", Scratch.plain (int (pos 100))) ∷ [] };
        };
        world = record idle { now = 107 };
      }),
    )
unfolding run_middleware_stack enter unwind call_before call_after Timing.before Scratch.set_item
    Scratch.get find string_eq Dict.insert Dict.lookup
stack_timed_example =
    stack_timed clock timing [] slow
      (field "messageId" (str "1")
        (field "body" (str "order") (field "attributes" (group "g") end)))
      (job_of order idle) _ (ok (str "done")) refl (omega arith) refl refl
