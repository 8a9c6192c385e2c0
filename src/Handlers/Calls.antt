-- ===== src/Handlers/Calls.antt =====
-- What a handler is called with.
use fastsqs.Base.{String, Bool, true, false, none, some, List, [], ◌∷◌, ◌≡◌, refl, ap, ◌∙◌, arith}
use fastsqs.Base.{string_eq, if◌then◌else◌, Bool-cases, inl, inr}
use fastsqs.Base.Dict
use fastsqs.Base.Dict.{Dict}
use fastsqs.Types.{Host}
use fastsqs.Handlers.{
  Handler, Param, Arg, accepts, uses_depends, maybe_inject, keep_accepted, select_kwargs,
}

if_true {ℓ} : {A : Type ℓ} (b : Bool) (x y : A) → b ≡ true → (if b then x else y) ≡ x
if_true b x y h = rw h

if_false {ℓ} : {A : Type ℓ} (b : Bool) (x y : A) → b ≡ false → (if b then x else y) ≡ y
if_false b x y h = rw h

module _ {H : Host} where
  lookup-keep_accepted :
      (ps : List Param) (k : String) (candidates : Dict String (Arg H))
      → Dict.lookup k (keep_accepted ps candidates)
        ≡ (if accepts ps k then Dict.lookup k candidates else none)
  unfolding keep_accepted Dict.lookup
  lookup-keep_accepted ps k [] = ground arith
  lookup-keep_accepted ps k ((j, v) ∷ candidates) =
      ground (arith, lookup-keep_accepted ps k candidates)

  -- A handler whose signature can be read is given exactly the candidates that it has a named
  -- parameter for, each with its own value; no other argument reaches it.
  pub lookup-select_kwargs :
      (fn : Handler H) (ps : List Param) (k : String) (candidates : Dict String (Arg H))
      → fn.signature ≡ some ps
      → Dict.lookup k (select_kwargs fn candidates)
        ≡ (if accepts ps k then Dict.lookup k candidates else none)
  unfolding select_kwargs
  lookup-select_kwargs fn ps k candidates e =
      rw (e, select_kwargs) (lookup-keep_accepted ps k candidates)

  module _ (fd_inject : Handler H → Handler H) where
    maybe_inject_wrapped : (fn : Handler H) → fn.injected ≡ true → maybe_inject fd_inject fn ≡ fn
    unfolding maybe_inject
    maybe_inject_wrapped fn h = if_true fn.injected fn _ h

    maybe_inject_plain :
        (fn : Handler H)
        → fn.injected ≡ false
        → maybe_inject fd_inject fn
          ≡ (if uses_depends fn then record (fd_inject fn) { injected = true } else fn)
    unfolding maybe_inject
    maybe_inject_plain fn h = if_false fn.injected fn _ h

    -- Wrapping a handler twice is wrapping it once, whatever the injection library gives.
    pub maybe_inject_twice :
        (fn : Handler H)
        → maybe_inject fd_inject (maybe_inject fd_inject fn) ≡ maybe_inject fd_inject fn
    maybe_inject_twice fn = elim (Bool-cases fn.injected) [
      | inl wrapped ↦ ap (maybe_inject fd_inject) (maybe_inject_wrapped fn wrapped)
      | inr plain ↦ elim (Bool-cases (uses_depends fn)) [
        | inl depends ↦
            let made = maybe_inject_plain fn plain ∙ if_true (uses_depends fn) _ fn depends in
            rw made (maybe_inject_wrapped (record (fd_inject fn) { injected = true }) refl)
        | inr free ↦
            ap (maybe_inject fd_inject)
              (maybe_inject_plain fn plain ∙ if_false (uses_depends fn) _ fn free)
      ]
    ]
