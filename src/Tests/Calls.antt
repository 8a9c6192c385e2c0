-- ===== src/Tests/Calls.antt =====
-- Calls of handlers.
use fastsqs.Base.{true, false, none, some, [], ◌∷◌, ◌≡◌, refl, string_eq}
use fastsqs.Base.Dict.{Dict}
use fastsqs.Base.{String}
use fastsqs.Handlers.{Handler, Arg, select_kwargs, maybe_inject, uses_depends}
use fastsqs.Tests.Fixture.{toy, succeeding, failing}

abbrev offered : Dict String (Arg toy)
offered = ("msg", Arg.msg 7) ∷ ("payload", Arg.payload) ∷ []

-- The handler asks for the message only.
selected : select_kwargs succeeding offered ≡ ("msg", Arg.msg 7) ∷ []
unfolding select_kwargs string_eq
selected = refl

-- A handler with a dependency.
abbrev dependant : Handler toy
dependant = record failing {
  injected = false;
  signature = some (record { name = "db"; is_named = true; is_dependant = true } ∷ []);
}

abbrev inject : Handler toy → Handler toy
inject h = record h { signature = none }

wrapped : maybe_inject inject dependant ≡ record dependant { injected = true; signature = none }
unfolding maybe_inject uses_depends
wrapped = refl
