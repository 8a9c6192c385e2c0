-- ===== src/Logging/Lines.antt =====
-- What the logging middleware does to a record.
use fastsqs.Base.{String, Bool, true, false, none, some, List, ◌∷◌, map, ◌≡◌, refl, ap}
use fastsqs.Base.{◌∙◌, arith, string_eq}
use fastsqs.Value.{
  Value, null, bool, int, float, str, arr, obj, Fields, field, end, get_or, items, is_obj,
}
use fastsqs.Exceptions.{Res, ok, raise, attribute_error}
use fastsqs.Types.{Host}
use fastsqs.Types.Scratch
use fastsqs.Run.{Job, M}
use fastsqs.Middleware.{Middleware, call_before, run_middleware_stack}
use fastsqs.Middleware.Stack.{nest, bracket_entered, bracket_refused, run_middleware_stack-nest}
use fastsqs.Logging.{
  Item, json, Entry, done, with_item, item_if, json_fields, json_value, Console, LoggingMiddleware,
  before, before_entry, emit, emit_job, default_logger, as_middleware, before_of, log_before,
  processing_info,
}

-- A line that `json.dumps` takes.
abbrev IsJson : Entry → Type 0
IsJson e = (d : Fields) × (json_fields e ≡ some d)

with_item-IsJson :
    (k : String) (i : Item) (v : Value) (e : Entry)
    → json_value i ≡ some v
    → IsJson e
    → IsJson (with_item k i e)
unfolding json_fields
with_item-IsJson k i v e h (d, p) = (field k v d, rw (h, json_value, p, json_fields) refl)

item_if-IsJson :
    (b : Bool) (k : String) (v : Value) (e : Entry) → IsJson e → IsJson (item_if b k (json v) e)
unfolding json_value
item_if-IsJson true k v e h = with_item-IsJson k (json v) v e refl h
item_if-IsJson false k v e h = h

four_items-IsJson :
    (b1 b2 b3 b4 : Bool) (k1 k2 k3 k4 : String) (v1 v2 v3 v4 : Value)
    → IsJson (
        item_if b1 k1
          (json v1)
          (item_if b2 k2 (json v2) (item_if b3 k3 (json v3) (item_if b4 k4 (json v4) done))))
unfolding json_fields
four_items-IsJson b1 b2 b3 b4 k1 k2 k3 k4 v1 v2 v3 v4 =
    let e4 = item_if b4 k4 (json v4) done in
    let e3 = item_if b3 k3 (json v3) e4 in
    let e2 = item_if b2 k2 (json v2) e3 in
    item_if-IsJson b1 k1 v1 e2 (
      item_if-IsJson b2 k2 v2 e3
        (item_if-IsJson b3 k3 v3 e4 (item_if-IsJson b4 k4 v4 done (end, refl))))

module _ {H : Host} (c : Console H) (mw : LoggingMiddleware H) where
  abbrev JsonAttribute : String → Job H → Type 0
  JsonAttribute name j = (v : Value) × (json_value (c.attribute name j.ctx.lambda_context) ≡ some v)

  -- The attributes of the Lambda context that are logged are JSON.
  abbrev pub JsonContext : Job H → Type 0
  JsonContext j =
      JsonAttribute "aws_request_id" j
      × (JsonAttribute "function_name" j × JsonAttribute "memory_limit_in_mb" j)

  processing_info-IsJson : (j : Job H) → JsonContext j → IsJson (processing_info c j)
  unfolding json_value
  processing_info-IsJson j ((v1, h1), ((v2, h2), (v3, h3))) = rw (h1, json_value, h2, h3) (_, refl)

  -- The job after a line was printed.
  abbrev pub printed : Fields → Job H → Job H
  printed line j = record j { world = c.print_json line j.world }

  before_entry-IsJson :
      (d attributes : Fields) (j : Job H)
      → JsonContext j
      → IsJson (before_entry c mw d attributes j)
  unfolding before_entry json_value
  before_entry-IsJson d attributes j h =
      let (t, tail) =
        four_items-IsJson mw.include_payload mw.include_record mw.include_context mw.verbose
          "payload" "record" "context_repr" "state_keys" (obj j.payload) (obj d)
          (str (c.context_repr j.ctx.lambda_context))
          (arr (items (map str (Scratch.names j.ctx.state)))) in
      let (info, q) = processing_info-IsJson j h in rw (q, json_fields, tail) (_, refl)

  emit_prints :
      (entry : Entry) (j : Job H)
      → mw.logger ≡ none
      → IsJson entry
      → (line : Fields) × (emit_job c mw entry j ≡ (ok tt, printed line j))
  unfolding emit default_logger
  emit_prints entry j default (line, h) = (line, rw (default, emit, h, default_logger) refl)

  log_before_refused :
      (d : Fields) (v : Value) (j : Job H)
      → is_obj v ≡ false
      → log_before c mw d v j ≡ (raise attribute_error, j)
  log_before_refused d null j h = refl
  log_before_refused d (bool _) j h = refl
  log_before_refused d (int _) j h = refl
  log_before_refused d (float _) j h = refl
  log_before_refused d (str _) j h = refl
  log_before_refused d (arr _) j h = refl
  log_before_refused d (obj _) j h = absurd (ground arith)

  before_prints :
      (d attributes : Fields) (j : Job H)
      → mw.logger ≡ none
      → j.ctx.sqs_record ≡ obj d
      → get_or "attributes" (obj end) d ≡ obj attributes
      → JsonContext j
      → (line : Fields) × (before c mw j ≡ (ok tt, printed line j))
  unfolding before
  before_prints d attributes j default is_dict has h =
      let (line, e) =
        emit_prints (before_entry c mw d attributes j) j default
          (before_entry-IsJson d attributes j h) in
      (line, ap (λ v. before_of c mw v j) is_dict ∙ (ap (λ v. log_before c mw d v j) has ∙ e))

  -- With its default logger, for a record that is a dict with a dict of attributes and a Lambda context
  -- whose logged attributes are JSON: the middleware prints one line in `before`, and the outcome of
  -- the stack is that of the rest of the stack behind it.
  pub stack_logged :
      {A : Type 0} (mws : List (Middleware H)) (inner : M H A) (d attributes : Fields) (j : Job H)
      → mw.logger ≡ none
      → j.ctx.sqs_record ≡ obj d
      → get_or "attributes" (obj end) d ≡ obj attributes
      → JsonContext j
      → (line : Fields) × ((run_middleware_stack (as_middleware c mw ∷ mws) inner j).0
          ≡ (run_middleware_stack mws inner (printed line j)).0)
  unfolding call_before nest
  stack_logged mws inner d attributes j default is_dict has h =
      let (line, e) = before_prints d attributes j default is_dict has h in
      (
        line,
        rw
            (
              run_middleware_stack-nest (as_middleware c mw ∷ mws) inner,
              run_middleware_stack-nest mws inner,
            )
            (ap (λ (q : Res _ × Job H). q.0)
              (bracket_entered (as_middleware c mw) (nest mws inner) j (printed line j) e)),
      )

  -- Where the attributes of the record are there and no dict, such as null, the record fails with
  -- `AttributeError`, whatever the logger, and neither a further middleware nor the inner call runs.
  pub stack_refused :
      {A : Type 0} (mws : List (Middleware H)) (inner : M H A) (d : Fields) (j : Job H)
      → j.ctx.sqs_record ≡ obj d
      → is_obj (get_or "attributes" (obj end) d) ≡ false
      → run_middleware_stack (as_middleware c mw ∷ mws) inner j ≡ (raise attribute_error, j)
  unfolding call_before nest before
  stack_refused mws inner d j is_dict h =
      rw (run_middleware_stack-nest (as_middleware c mw ∷ mws) inner) (
        bracket_refused (as_middleware c mw) (nest mws inner) j j attribute_error (
          ap (λ v. before_of c mw v j) is_dict
          ∙ log_before_refused d (get_or "attributes" (obj end) d) j h))
