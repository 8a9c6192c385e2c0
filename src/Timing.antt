-- ===== src/Timing.antt =====
-- fastsqs/middleware/timing.py: the middleware that measures how long a record takes.
pub mod Elapsed
use fastsqs.Base.{ℕ, ◌+◌, ◌-◌, String, true, false, Option, none, some, leb, if◌then◌else◌}
use fastsqs.Value.{Value, ℤ, pos, negsuc, null, bool, int, float, str, arr, obj, get_or}
use fastsqs.Exceptions.{Exn, Res, ok, raise, skip_message, type_error, attribute_error}
use fastsqs.Types.{Host, Context}
use fastsqs.Types.Scratch
use fastsqs.Types.Scratch.{Slot, plain, trace}
use fastsqs.Run.{Job, M}
use fastsqs.Middleware.{Middleware}

-- `time.perf_counter_ns()`, the `repr` of `round(ns / 1_000_000, 3)` for a difference of integers
-- and for one with a float, and the line that `_logger.info` writes of a message, its status and
-- its duration.
pub record Clock (H : Host) : Type 0 where
  pub perf_counter_ns : H.World → ℕ
  pub millis : ℤ → String
  pub float_millis : ℕ → String → String
  pub info : Value → String → String → H.World → H.World

pub record TimingMiddleware : Type 0 where
  pub store_key_start : String
  pub store_key_ms : String

-- `m - n`
unfoldable pub minus : ℕ → ℤ → ℤ
minus m (pos n) = if leb n m then pos (m - n) else negsuc (n - m - 1)
minus m (negsuc n) = pos (m + n + 1)

abbrev pub status_of : Option Exn → String
status_of none = "SUCCESS"
status_of (some skip_message) = "SKIPPED"
status_of (some _) = "FAILED"

module _ {H : Host} (c : Clock H) where
  -- The duration since what a slot holds, where it holds anything; only numbers can be subtracted.
  unfoldable pub duration : ℕ → Slot → Res (Option String)
  unfolding minus
  duration now (plain null) = ok none
  duration now (plain (int start)) = ok (some (c.millis (minus now start)))
  duration now (plain (bool true)) = ok (some (c.millis (minus now (pos 1))))
  duration now (plain (bool false)) = ok (some (c.millis (minus now (pos 0))))
  duration now (plain (float start)) = ok (some (c.float_millis now start))
  duration now _ = raise type_error

  -- `before`
  unfoldable pub before : TimingMiddleware → M H (Unit {0})
  before mw j = (
    ok tt,
    record j {
      ctx = record j.ctx {
        state =
            Scratch.set_item mw.store_key_start (plain (int (pos (c.perf_counter_ns j.world))))
              j.ctx.state;
      };
    },
  )

  -- A duration is stored and logged.
  abbrev pub store_duration : TimingMiddleware → Value → Option Exn → String → Job H → Job H
  store_duration mw msg_id error ms j = record j {
    ctx = record j.ctx { state = Scratch.set_item mw.store_key_ms (plain (float ms)) j.ctx.state };
    world = c.info msg_id (status_of error) ms j.world;
  }

  abbrev pub stored : TimingMiddleware → Value → Option Exn → Res (Option String) → M H (Unit {0})
  stored mw msg_id error (raise e) j = (raise e, j)
  stored mw msg_id error (ok none) j = (ok tt, j)
  stored mw msg_id error (ok (some ms)) j = (ok tt, store_duration mw msg_id error ms j)

  abbrev pub after_of : TimingMiddleware → Option Exn → Value → M H (Unit {0})
  after_of mw error (obj d) j =
      stored mw (get_or "messageId" (str "UNKNOWN") d) error
        (duration (c.perf_counter_ns j.world)
          (Scratch.get mw.store_key_start (plain null) j.ctx.state))
        j
  after_of mw error _ j = (raise attribute_error, j)

  -- `after`
  unfoldable pub after : TimingMiddleware → Option Exn → M H (Unit {0})
  unfolding duration
  after mw error j = after_of mw error j.ctx.sqs_record j

  abbrev pub as_middleware : TimingMiddleware → Middleware H
  as_middleware mw = record { before = some (before mw); after = some (after mw) }
