-- ===== src/Processing/Duplicate.antt =====
-- A record whose message has been processed: `_handle_record` with the idempotency middleware.
use fastsqs.Base.{ℕ, String, Bool, List, ◌∷◌, ◌≡◌, refl, string_eq}
use fastsqs.Value.{null, str, obj, Fields}
use fastsqs.Value.Path.{resolve_payload_path}
use fastsqs.Exceptions.{ok}
use fastsqs.Types.{Host}
use fastsqs.Run.{Job}
use fastsqs.Middleware.{Middleware}
use fastsqs.Idempotency.Protocol.{completed}
use fastsqs.Idempotency.Memory.{Memory, Place, try_acquire}
use fastsqs.Idempotency.Once.{mw, stack_completed}
use fastsqs.App.{App}
use fastsqs.Processing.{prepare, route, handle_record}

module _ {H : Host} (p : Place H)
    (read-write : (m : Memory) (w : H.World) → p.read (p.write m w) ≡ m) (key_path : String)
    (lease window : ℕ) (require_key : Bool) where
  -- A record whose key, a text, the store has as completed is acked. If the idempotency middleware is the
  -- first of the application's, then the record succeeds, with no further middleware, route or
  -- handler run, and the world changes by what the store notes of the claim only.
  pub handle_record_duplicate :
      (app : App H) (mws : List (Middleware H)) (d : Fields) (context : H.LambdaContext)
      (w : H.World) (j : Job H) (key : String)
      → app.middlewares ≡ mw p read-write key_path lease window require_key ∷ mws
      → prepare app d context w ≡ ok j
      → resolve_payload_path j.payload key_path ≡ str key
      → (try_acquire key lease (p.read j.world)).0 ≡ completed
      → handle_record app (obj d) context w
        ≡ (ok null, p.write (try_acquire key lease (p.read j.world)).1 j.world)
  unfolding handle_record
  handle_record_duplicate app mws d context w j key first prepared keyed done =
      rw
        (
          prepared,
          handle_record,
          first,
          stack_completed p read-write key_path lease window require_key key j keyed mws (route app)
              done,
        )
        refl
