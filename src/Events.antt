-- ===== src/Events.antt =====
-- fastsqs/events.py: the event models and the message types that they are routed by. A class name
-- is ASCII.
pub mod Names
pub mod Listed
use fastsqs.Base.{ℕ, String, ◌<>◌, Bool, true, false, Option, none, some, List, [], ◌∷◌}
use fastsqs.Base.{◌==◌, contains, string_eq, nat_eq, if◌then◌else◌}
use fastsqs.Value.{Fields}
use fastsqs.Exceptions.{Res}
use fastsqs.Types.{Host}
use Names.{separated, lower, lower_first}

-- A subclass of pydantic's `BaseModel`: its identity, the identities of the classes that it
-- derives from and of itself, its name, its own `__message_type__`, and its validation.
pub record EventModel (H : Host) : Type 0 where
  pub class_id : ℕ
  pub mro : List ℕ
  pub name : String
  pub message_type_override : Option String
  pub model_validate : Fields → Res H.Msg

-- The identity of the class `SQSEvent`.
abbrev pub sqs_event : ℕ
sqs_event = 0

abbrev add_new : String → List String → List String
add_new s ss = if contains ss s then ss else s ∷ ss

module _ {H : Host} where
  -- `issubclass(model, c)`
  unfoldable pub is_subclass : EventModel H → ℕ → Bool
  unfolding nat_eq
  is_subclass model c = contains model.mro c

  unfoldable pub get_message_type : EventModel H → String
  get_message_type model = elim model.message_type_override [
    | some override ↦ override
    | none ↦ lower (separated "_" model.name)
  ]

  -- A set, in the order in which the code lists it.
  unfoldable pub get_message_type_variants : EventModel H → List String
  get_message_type_variants model = elim model.message_type_override [
    | some override ↦ override ∷ []
    | none ↦
        if model.name == ""
        then []
        else add_new model.name (
            add_new (lower (separated "_" model.name))
              (add_new (lower_first model.name) (lower (separated "-" model.name) ∷ [])))
  ]
