-- ===== src/Events/Listed.antt =====
-- The primary message type among the variants.
use fastsqs.Base.{String, true, ◌||◌, none, List, ◌≡◌, ◌≢◌, arith}
use fastsqs.Base.{◌==◌, ==_refl, ==_of_ne, contains, string_eq, Bool-cases, Option-cases, inl, inr}
use fastsqs.Types.{Host}
use fastsqs.Events.Names.{separated, lower}
use fastsqs.Events.{EventModel, add_new, get_message_type, get_message_type_variants}

contains-add_new :
    (s t : String) (ss : List String) → contains (add_new s ss) t ≡ (t == s || contains ss t)
contains-add_new s t ss = elim (Bool-cases (contains ss s)) [
  | inr fresh ↦ rw fresh
  | inl known ↦ rw known (ground (arith, known))
]

module _ {H : Host} where
  -- A class with a message type of its own, or a name.
  abbrev pub IsNamed : EventModel H → Type 0
  IsNamed m = m.message_type_override ≡ none → m.name ≢ ""

  -- The message type of a named class is one of its variants.
  pub get_message_type-listed :
      (m : EventModel H)
      → IsNamed m
      → contains (get_message_type_variants m) (get_message_type m) ≡ true
  unfolding get_message_type get_message_type_variants
  get_message_type-listed m named = elim (Option-cases m.message_type_override) [
    | inr (s, e) ↦ rw (e, get_message_type, get_message_type_variants, ==_refl)
    | inl e ↦
        rw
          (
            e,
            get_message_type,
            get_message_type_variants,
            ==_of_ne m.name "" (named e),
            contains-add_new,
          )
          (ground (arith, ==_refl (lower (separated "_" m.name))))
  ]
