-- ===== src/Events/Names.antt =====
-- The regular expressions of fastsqs/events.py, over ASCII names.
use Prim.Native.Char.{Char, code}
use Prim.Native.String.{[], ◌∷◌}
use fastsqs.Base.{ℕ, zero, suc, ◌-◌, String, ◌<>◌, Bool, ◌&&◌, leb, if◌then◌else◌}

abbrev pub is_upper : Char → Bool
is_upper c = leb b'A' (code c) && leb (code c) b'Z'

nth : ℕ → String → String
nth n [] = ""
nth zero (c ∷ s) = c ∷ []
nth (suc n) (c ∷ s) = nth n s

-- `c.lower()`
unfoldable pub lower_char : Char → String
unfolding nth
lower_char c = if is_upper c then nth (code c - b'A') "abcdefghijklmnopqrstuvwxyz" else c ∷ []

-- `s.lower()`
unfoldable pub lower : String → String
unfolding lower_char
lower [] = ""
lower (c ∷ s) = lower_char c <> lower s

-- `c.upper()`
unfoldable pub upper_char : Char → String
unfolding nth
upper_char c =
    if leb b'a' (code c) && leb (code c) b'z'
    then nth (code c - b'a') "ABCDEFGHIJKLMNOPQRSTUVWXYZ"
    else c ∷ []

-- `s.upper()`
unfoldable pub upper : String → String
unfolding upper_char
upper [] = ""
upper (c ∷ s) = upper_char c <> upper s

-- `s[0].lower() + s[1:]`
unfoldable pub lower_first : String → String
unfolding lower_char
lower_first [] = ""
lower_first (c ∷ s) = lower_char c <> s

-- A separator in front of each capital.
unfoldable pub separated_tail : String → String → String
separated_tail sep [] = ""
separated_tail sep (c ∷ s) =
    let rest = separated_tail sep s in if is_upper c then sep <> (c ∷ rest) else c ∷ rest

-- `re.sub(r'(?<!^)(?=[A-Z])', sep, s)`
unfoldable pub separated : String → String → String
unfolding separated_tail
separated sep [] = ""
separated sep (c ∷ s) = c ∷ separated_tail sep s
