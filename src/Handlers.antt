-- ===== src/Handlers.antt =====
-- fastsqs/utils.py: how a handler is wrapped and called.
pub mod Calls
use fastsqs.Base.{String, Bool, true, false, ◌||◌, ◌&&◌, Option, none, some, List, [], ◌∷◌}
use fastsqs.Base.{◌==◌, string_eq, if◌then◌else◌}
use fastsqs.Base.Dict.{Dict}
use fastsqs.Value.{Value}
use fastsqs.Types.{Host}
use fastsqs.Run.{M}

-- A parameter of a signature, as `inspect` shows it. `is_named` says that its kind is keyword-only
-- or positional-or-keyword, `is_dependant` that its default is a `Depends(...)`.
pub record Param : Type 0 where
  pub name : String
  pub is_named : Bool
  pub is_dependant : Bool

-- An argument of a handler: the validated message, or one of the objects of the job.
pub data Arg (H : Host) : Type 0 where
  msg : H.Msg → Arg H
  payload sqs_record lambda_context ctx : Arg H

-- A handler that `inspect.signature` cannot read has no signature. The body raises what Python
-- raises for arguments that do not fit.
pub record Handler (H : Host) : Type 0 where
  pub injected : Bool
  pub signature : Option (List Param)
  pub body : Dict String (Arg H) → M H Value

abbrev pub any_dependant : List Param → Bool
any_dependant [] = false
any_dependant (p ∷ ps) = p.is_dependant || any_dependant ps

abbrev pub accepts : List Param → String → Bool
accepts [] name = false
accepts (p ∷ ps) name = (p.is_named && p.name == name) || accepts ps name

module _ {H : Host} where
  unfoldable pub uses_depends : Handler H → Bool
  uses_depends fn = elim fn.signature [ none ↦ false | some ps ↦ any_dependant ps ]

  -- `fd_inject` is fast-depends' `inject`.
  unfoldable pub maybe_inject : (Handler H → Handler H) → Handler H → Handler H
  unfolding uses_depends
  maybe_inject fd_inject fn =
      if fn.injected
      then fn
      else if uses_depends fn
      then record (fd_inject fn) { injected = true }
      else fn

  keep_accepted : List Param → Dict String (Arg H) → Dict String (Arg H)
  keep_accepted ps [] = []
  keep_accepted ps ((k, v) ∷ candidates) =
      let rest = keep_accepted ps candidates in if accepts ps k then (k, v) ∷ rest else rest

  unfoldable pub select_kwargs : Handler H → Dict String (Arg H) → Dict String (Arg H)
  unfolding keep_accepted
  select_kwargs fn candidates = elim fn.signature [
    | none ↦ candidates
    | some ps ↦ keep_accepted ps candidates
  ]

  unfoldable pub invoke_handler : Handler H → Dict String (Arg H) → M H Value
  invoke_handler fn kwargs =
      if fn.injected then fn.body kwargs else fn.body (select_kwargs fn kwargs)
