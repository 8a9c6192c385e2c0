-- ===== src/Processing/Shape.antt =====
-- The shapes of an event: `is_sqs_event` of fastsqs/utils.py, and what `_handle_event` makes of them.
use fastsqs.Base.{Bool, true, false, Option, none, some, [], ◌≡◌, refl, ◌⊎◌, inl, inr, is_some}
use fastsqs.Value.{
  Value, null, arr, obj, nil, cons, elements, Fields, Items, find, get, truthy, or_value,
}
use fastsqs.Exceptions.{ok, raise, attribute_error}
use fastsqs.Types.{Host}
use fastsqs.App.{App}
use fastsqs.Processing.Batch.{ended, handle_list, handle_batch, handle_event}

unfoldable pub is_sqs_event : Value → Bool
is_sqs_event (arr _) = true
is_sqs_event (obj d) = is_some (find "Records" d)
is_sqs_event _ = false

module _ {H : Host} (app : App H) (context : H.LambdaContext) where
  handle_batch_of_list :
      (v : Value) (records : Items) (w : H.World)
      → v ≡ arr records
      → handle_batch app context (or_value v (arr nil)) w
        ≡ handle_list app context (elements records) w
  unfolding truthy
  handle_batch_of_list v nil w e = rw e
  handle_batch_of_list v (cons r rs) w e = rw e

  handle_batch_of_none :
      (found : Option Value) (w : H.World)
      → is_some found ≡ false
      → handle_batch app context (or_value (elim found [ none ↦ null | some v ↦ v ]) (arr nil)) w
        ≡ ended (ok []) w
  unfolding truthy
  handle_batch_of_none none w e = refl
  handle_batch_of_none (some v) w e = absurd (cc e)

  -- The two shapes of a batch are one: an event whose `Records` are a list, empty or not, is handled
  -- as that list is on its own.
  pub handle_event_shapes :
      (d : Fields) (records : Items) (w : H.World)
      → get "Records" d ≡ arr records
      → handle_event app context (obj d) w ≡ handle_event app context (arr records) w
  unfolding handle_event
  handle_event_shapes d records w e = handle_batch_of_list (get "Records" d) records w e

  -- An event that `is_sqs_event` refuses runs nothing: the world stays as it was, and the invocation
  -- reports no failure, or raises `AttributeError` where the event is no dict.
  pub handle_event_refused :
      (event : Value) (w : H.World)
      → is_sqs_event event ≡ false
      → (handle_event app context event w ≡ ended (ok []) w)
        ⊎ (handle_event app context event w ≡ ended (raise attribute_error) w)
  unfolding handle_event is_sqs_event
  handle_event_refused (arr vs) w h = absurd (cc h)
  handle_event_refused (obj d) w h = inl (handle_batch_of_none (find "Records" d) w h)
  handle_event_refused _ w h = inr refl
