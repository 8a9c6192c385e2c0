-- ===== src/Tracing/Carried.antt =====
-- The value that a record and its payload carry under a name, by message attribute or payload.
use fastsqs.Base.{
  String, Bool, true, false, Option, none, some, ◌≡◌, ◌≢◌, refl, ◌∙◌, ap, ◌⊎◌, inl, inr,
}
use fastsqs.Base.{◌==◌, ==_of_ne, ==_refl, ==_sound, string_eq, if◌then◌else◌, arith}
use fastsqs.Value.{Value, null, bool, int, float, str, arr, obj, Fields, end, field, get}
use fastsqs.Events.Names.{lower}
use fastsqs.Tracing.{
  search_attributes, in_attributes, attribute_value, payload_value, propagated, text_of,
  string_value, or_text,
}

-- The attribute has the name, in any case, and this text.
abbrev pub HasText : String → String → Value → String → Type 0
HasText name key (obj attribute) value =
    (lower key ≡ name) × (get "stringValue" attribute ≡ str value)
HasText name key _ value = ⊥

-- The first attribute with the name that has a text at all has this one.
pub data FirstText (name : String) : Fields → String → Type 0 where
  at_first :
      (key : String) (attribute : Value) (rest : Fields) (value : String)
      → HasText name key attribute value
      → FirstText name (field key attribute rest) value
  behind :
      (key : String) (attribute : Value) (rest : Fields) (value : String)
      → ((other : String) → ¬ HasText name key attribute other)
      → FirstText name rest value
      → FirstText name (field key attribute rest) value

-- No attribute with the name has a text.
abbrev pub NoText : String → Fields → Type 0
NoText name end = Unit
NoText name (field key attribute rest) =
    ((value : String) → ¬ HasText name key attribute value) × NoText name rest

-- What the attributes of a record give for the name: nothing, or the empty text.
abbrev pub IsAttributeless : String → Fields → Type 0
IsAttributeless name sqs_record =
    (attributes : Fields)
    → get "messageAttributes" sqs_record ≡ obj attributes
    → NoText name attributes ⊎ FirstText name attributes ""

-- A message attribute goes before the payload, unless it is empty.
pub data Carries (name : String) (sqs_record payload : Fields) : Option String → Type 0 where
  by_attribute :
      (attributes : Fields) (value : String)
      → get "messageAttributes" sqs_record ≡ obj attributes
      → FirstText name attributes value
      → value ≢ ""
      → Carries name sqs_record payload (some value)
  by_payload :
      (value : String)
      → IsAttributeless name sqs_record
      → get name payload ≡ str value
      → Carries name sqs_record payload (some value)
  by_nothing :
      IsAttributeless name sqs_record
      → ((value : String) → get name payload ≢ str value)
      → Carries name sqs_record payload none

abbrev chosen : Bool → Option String → Option String → Option String
chosen named text later =
    if named then elim text [ none ↦ later | some value ↦ some value ] else later

text_of-none : (v : Value) → ((value : String) → v ≢ str value) → text_of v ≡ none
text_of-none (str s) h = absurd (h s refl)
text_of-none null h = refl
text_of-none (bool _) h = refl
text_of-none (int _) h = refl
text_of-none (float _) h = refl
text_of-none (arr _) h = refl
text_of-none (obj _) h = refl

chosen_text :
    (b : Bool) (text later : Option String) (value : String)
    → b ≡ true
    → text ≡ some value
    → chosen b text later ≡ some value
chosen_text b text later value h k = ground arith

chosen_later :
    (b : Bool) (text later : Option String) → (b ≡ true → text ≡ none) → chosen b text later ≡ later
chosen_later true text later h = rw (h refl) refl
chosen_later false text later h = refl

chosen-HasText :
    (name key : String) (attribute : Value) (value : String) (later : Option String)
    → HasText name key attribute value
    → chosen (lower key == name) (string_value attribute) later ≡ some value
chosen-HasText name key (obj attribute) value later (named, found) =
    chosen_text (lower key == name) (text_of (get "stringValue" attribute)) later value
      (ap (λ x. x == name) named ∙ ==_refl name) (ap text_of found)
chosen-HasText name key null value later h = absurd h
chosen-HasText name key (bool _) value later h = absurd h
chosen-HasText name key (int _) value later h = absurd h
chosen-HasText name key (float _) value later h = absurd h
chosen-HasText name key (str _) value later h = absurd h
chosen-HasText name key (arr _) value later h = absurd h

string_value-none :
    (name key : String) (attribute : Value)
    → ((value : String) → ¬ HasText name key attribute value)
    → (lower key == name) ≡ true
    → string_value attribute ≡ none
string_value-none name key (obj attribute) h named =
    text_of-none (get "stringValue" attribute)
      (λ value found. h value (==_sound (lower key) name named, found))
string_value-none name key null h named = refl
string_value-none name key (bool _) h named = refl
string_value-none name key (int _) h named = refl
string_value-none name key (float _) h named = refl
string_value-none name key (str _) h named = refl
string_value-none name key (arr _) h named = refl

search-FirstText :
    {name : String} {attributes : Fields} {value : String}
    → FirstText name attributes value
    → search_attributes name attributes ≡ some value
unfolding search_attributes lower
search-FirstText {name} (at_first key attribute rest value h) =
    chosen-HasText name key attribute value (search_attributes name rest) h
search-FirstText {name} (behind key attribute rest value h later) =
    chosen_later (lower key == name) (string_value attribute) (search_attributes name rest)
      (string_value-none name key attribute h)
    ∙ search-FirstText later

search-NoText :
    (name : String) (attributes : Fields)
    → NoText name attributes
    → search_attributes name attributes ≡ none
unfolding search_attributes lower
search-NoText name end h = refl
search-NoText name (field key attribute rest) (h, later) =
    chosen_later (lower key == name) (string_value attribute) (search_attributes name rest)
      (string_value-none name key attribute h)
    ∙ search-NoText name rest later

if_same_text : (w : Option String) → or_text (some "") w ≡ w
if_same_text w = rw (==_refl) refl

-- What is propagated if the attributes give nothing or the empty text.
attributeless :
    (name : String) (sqs_record : Fields) (v : Value)
    → get "messageAttributes" sqs_record ≡ v
    → IsAttributeless name sqs_record
    → (w : Option String) → or_text (in_attributes name v) w ≡ w
attributeless name d (obj attributes) e h w = elim (h attributes e) [
  | inl nowhere ↦ ap (λ x. or_text x w) (search-NoText name attributes nowhere)
  | inr empty ↦ ap (λ x. or_text x w) (search-FirstText empty) ∙ if_same_text w
]
attributeless name d null e h w = refl
attributeless name d (bool _) e h w = refl
attributeless name d (int _) e h w = refl
attributeless name d (float _) e h w = refl
attributeless name d (str _) e h w = refl
attributeless name d (arr _) e h w = refl

pub propagated-Carries :
    {name : String} {sqs_record payload : Fields} {value : Option String}
    → Carries name sqs_record payload value
    → propagated sqs_record payload name ≡ value
unfolding propagated attribute_value payload_value
propagated-Carries {name} {sqs_record = d} {payload = payload}
      (by_attribute attributes value e first full) =
    ap (λ v. or_text (in_attributes name v) (text_of (get name payload))) e
    ∙ ap (λ x. or_text x (text_of (get name payload))) (search-FirstText first)
    ∙ ap (λ b. if b then text_of (get name payload) else some value) (==_of_ne value "" full)
propagated-Carries {name} {sqs_record = d} {payload = payload} (by_payload value none_there found) =
    attributeless name d (get "messageAttributes" d) refl none_there (text_of (get name payload))
    ∙ ap text_of found
propagated-Carries {name} {sqs_record = d} {payload = payload} (by_nothing none_there missing) =
    attributeless name d (get "messageAttributes" d) refl none_there (text_of (get name payload))
    ∙ text_of-none (get name payload) missing
