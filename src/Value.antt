-- ===== src/Value.antt =====
-- The values of the JSON documents that the program reads, as Python objects: a body's payload, a
-- record, an event. Exceptions and handler results carry such values too.
pub mod Print
pub mod Path
use fastsqs.Base.{ℕ, zero, suc, String, Bool, true, false, not, ◌||◌, Option, none, some, List, []}
use fastsqs.Base.{◌∷◌, ◌==◌, string_eq, if◌then◌else◌}

-- Python's integers; `negsuc n` is -(n + 1).
pub data ℤ : Type 0 where
  pos : ℕ → ℤ
  negsuc : ℕ → ℤ

-- A float stands for its `repr`, which is unique but for the sign of zero and for NaN. A dict's
-- keys are in insertion order.
mutual
  pub data Value : Type 0 where
    null : Value
    obj : Fields → Value
    arr : Items → Value
    str : String → Value
    int : ℤ → Value
    float : String → Value
    bool : Bool → Value

  -- The entries of a dict.
  pub data Fields : Type 0 where
    end : Fields
    field : String → Value → Fields → Fields

  -- The elements of a list.
  pub data Items : Type 0 where
    nil : Items
    cons : Value → Items → Items

abbrev pub elements : Items → List Value
elements nil = []
elements (cons v vs) = v ∷ elements vs

abbrev pub items : List Value → Items
items [] = nil
items (v ∷ vs) = cons v (items vs)

-- `bool(v)`
unfoldable pub truthy : Value → Bool
truthy null = false
truthy (bool b) = b
truthy (int (pos zero)) = false
truthy (int _) = true
truthy (float r) = not (r == "0.0" || r == "-0.0")
truthy (str s) = not (s == "")
truthy (arr nil) = false
truthy (arr (cons _ _)) = true
truthy (obj end) = false
truthy (obj (field _ _ _)) = true

-- `v or w`
abbrev pub or_value : Value → Value → Value
or_value v w = if truthy v then v else w

-- `d.get(k)` as an optional value.
unfoldable pub find : String → Fields → Option Value
find k end = none
find k (field j v d) = if k == j then some v else find k d

-- `d.get(k, default)`
abbrev pub get_or : String → Value → Fields → Value
get_or k v d = elim (find k d) [ none ↦ v | some w ↦ w ]

-- `d.get(k)`
abbrev pub get : String → Fields → Value
get k d = get_or k null d

-- `d[k] = v`
unfoldable pub put : String → Value → Fields → Fields
put k v end = field k v end
put k v (field j w d) = if k == j then field k v d else field j w (put k v d)

-- `isinstance(v, dict)`
abbrev pub is_obj : Value → Bool
is_obj (obj _) = true
is_obj _ = false
