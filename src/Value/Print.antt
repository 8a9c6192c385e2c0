-- ===== src/Value/Print.antt =====
-- Python's `str()` of a value, which the router and the idempotency middleware call on keys.
use Prim.Native.Char.{Char, code}
use Prim.Native.String.{[], ◌∷◌}
use fastsqs.Base.{ℕ, zero, suc, ◌/◌, ◌%◌, String, ◌<>◌, Bool, true, false, ◌&&◌, not, ltb}
use fastsqs.Base.{◌==◌, nat_eq, if◌then◌else◌}
use fastsqs.Value.{ℤ, pos, negsuc, Value, null, bool, int, float, str, arr, obj}
use fastsqs.Value.{Items, nil, cons, Fields, end, field}

-- One hexadecimal digit.
digit : ℕ → String
digit zero = "0"
digit (suc zero) = "1"
digit (suc (suc zero)) = "2"
digit (suc (suc (suc n))) =
    if n == 0
    then "3"
    else if n == 1
    then "4"
    else if n == 2
    then "5"
    else if n == 3
    then "6"
    else if n == 4
    then "7"
    else if n == 5
    then "8"
    else if n == 6
    then "9"
    else if n == 7
    then "a"
    else if n == 8
    then "b"
    else if n == 9
    then "c"
    else if n == 10
    then "d"
    else if n == 11
    then "e"
    else "f"

-- The decimal digits of `n` before `acc`; `suc n` rounds are more than there are digits.
decimal_from : ℕ → ℕ → String → String
decimal_from zero n acc = acc
decimal_from (suc fuel) n acc =
    let rest = decimal_from fuel (n / 10) (digit (n % 10) <> acc) in
    if ltb n 10 then digit n <> acc else rest

unfoldable pub decimal : ℕ → String
unfolding decimal_from digit
decimal n = decimal_from (suc n) n ""

unfoldable pub show_int : ℤ → String
unfolding decimal
show_int (pos n) = decimal n
show_int (negsuc n) = "-" <> decimal (suc n)

has_code : ℕ → String → Bool
has_code c [] = false
has_code c (d ∷ s) = if code d == c then true else has_code c s

-- A character in a `repr`. All of 0x20 to 0x7e and all above 0xa0 is taken as printable.
quote_char : ℕ → Char → String
quote_char quote c =
    if code c == quote
    then "\\" <> (c ∷ [])
    else if code c == b'\\'
    then "\\\\"
    else if code c == 10
    then "\\n"
    else if code c == 13
    then "\\r"
    else if code c == 9
    then "\\t"
    else if ltb (code c) 32
    then "\\x" <> digit (code c / 16) <> digit (code c % 16)
    else c ∷ []

escape : ℕ → String → String
escape quote [] = ""
escape quote (c ∷ s) = quote_char quote c <> escape quote s

-- Single quotes, unless the text holds such and no double quote.
unfoldable pub show_quoted : String → String
unfolding escape quote_char has_code digit nat_eq
show_quoted s =
    if has_code b'\'' s && not (has_code b'"' s)
    then "\"" <> (escape b'"' s <> "\"")
    else "'" <> (escape b'\'' s <> "'")

unfoldable mutual
  -- `repr(v)`
  pub repr : Value → String
  repr null = "None"
  repr (bool true) = "True"
  repr (bool false) = "False"
  repr (int n) = show_int n
  repr (float r) = r
  repr (str s) = show_quoted s
  repr (arr vs) = "[" <> repr_items vs "]"
  repr (obj d) = "{" <> repr_fields d "}"

  pub repr_items : Items → String → String
  repr_items nil close = close
  repr_items (cons v nil) close = repr v <> close
  repr_items (cons v (cons w vs)) close = repr v <> (", " <> repr_items (cons w vs) close)

  pub repr_fields : Fields → String → String
  repr_fields end close = close
  repr_fields (field k v end) close = show_quoted k <> (": " <> (repr v <> close))
  repr_fields (field k v (field j w d)) close =
      show_quoted k <> (": " <> (repr v <> (", " <> repr_fields (field j w d) close)))

-- `str(v)`
unfoldable pub show : Value → String
unfolding repr show_quoted escape quote_char has_code show_int
show (str s) = s
show v = repr v
