-- ===== src/Run.antt =====
-- The state that the processing of one record threads, and the computations over it. The record's
-- payload is one dict, shared by the router, the hooks and the handler, so that a hook may change
-- it. Hooks and handlers read the record and the Lambda context from the `Context`, where the code
-- passes the same objects once more as arguments. An `await` runs to its end.
use fastsqs.Value.{Fields}
use fastsqs.Exceptions.{Exn, Res, ok, raise}
use fastsqs.Types.{Host, Context}

pub record Job (H : Host) : Type 0 where
  pub payload : Fields
  pub ctx : Context H
  pub world : H.World

abbrev pub M : Host → Type 0 → Type 0
M H A = Job H → Res A × Job H

-- `ok` and `raise` as computations.
abbrev pub pure : {H : Host} {A : Type 0} → A → M H A
pure a j = (ok a, j)

abbrev pub throw : {H : Host} {A : Type 0} → Exn → M H A
throw e j = (raise e, j)

abbrev pub bind_res : {H : Host} {A B : Type 0} → Res A × Job H → (A → M H B) → Res B × Job H
bind_res (ok a, j) f = f a j
bind_res (raise e, j) f = (raise e, j)

infixl 5 ◌>>=◌ ◌>>◌
abbrev pub ◌>>=◌ : {H : Host} {A B : Type 0} → M H A → (A → M H B) → M H B
◌>>=◌ m f j = bind_res (m j) f

abbrev pub ◌>>◌ : {H : Host} {A B : Type 0} → M H A → M H B → M H B
m >> k = m >>= λ _. k

abbrev pub lift : {H : Host} {A : Type 0} → Res A → M H A
lift r j = (r, j)

-- A change of the context.
abbrev pub modify_ctx : {H : Host} → (Context H → Context H) → M H (Unit {0})
modify_ctx f j = (ok tt, record j { ctx = f j.ctx })
