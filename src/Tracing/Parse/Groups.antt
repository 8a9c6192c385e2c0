-- ===== src/Tracing/Parse/Groups.antt =====
-- The groups of digits and the dashes of a traceparent.
use Prim.Native.Char.{code}
use Prim.Native.String.{[], ◌∷◌}
use text.Mathlib.TextEquality.{Char-path}
use text.Mathlib.TextLemmas.{nil-append, cons-append}
use fastsqs.Base.{ℕ, zero, suc, String, ◌<>◌, true, some, ◌≡◌}
use fastsqs.Base.{refl, ap, ◌==◌, ==_sound, nat_eq, string_eq}
use fastsqs.Base.{Bool-cases, Option-cases, inl, inr}
use fastsqs.Tracing.Parse.{is_hex, hex_group, dash}

-- A text of `n` hexadecimal digits in lower case.
unfoldable pub IsHex : ℕ → String → Type 0
IsHex zero [] = Unit
IsHex zero (c ∷ s) = ⊥
IsHex (suc n) [] = ⊥
IsHex (suc n) (c ∷ s) = (is_hex c ≡ true) × IsHex n s

pub hex_group-append :
    (n : ℕ) (g rest : String) → IsHex n g → hex_group n (g <> rest) ≡ some (g, rest)
unfolding IsHex hex_group
hex_group-append zero [] rest h = rw nil-append
hex_group-append zero (c ∷ g) rest h = absurd h
hex_group-append (suc n) [] rest h = absurd h
hex_group-append (suc n) (c ∷ g) rest (here, later) =
    rw (cons-append, hex_group-append n g rest later, here) refl

pub hex_group_sound :
    (n : ℕ) (s g rest : String) → hex_group n s ≡ some (g, rest) → IsHex n g × (s ≡ g <> rest)
unfolding IsHex hex_group
hex_group_sound zero s g rest h =
    let empty : "" ≡ g = cc h in let same : s ≡ rest = cc h in rw (← empty, nil-append) (tt, same)
hex_group_sound (suc n) [] g rest h = absurd (cc h)
hex_group_sound (suc n) (c ∷ s) g rest h = elim (Bool-cases (is_hex c)) [
  | inr other ↦ absurd (cc (rw other at h))
  | inl here ↦ elim (Option-cases (hex_group n s)) [
    | inl absent ↦ absurd (cc (rw (here, absent) at h))
    | inr ((g', s'), found) ↦
        let (hex, spelled) = hex_group_sound n s g' s' found in
        let taken = rw (here, found) at h in
        let first : c ∷ g' ≡ g = cc taken in
        let same : s' ≡ rest = cc taken in
        rw (← first, ← same, cons-append) ((here, hex), ap (λ t. c ∷ t) spelled)
  ]
]

pub dash-append : (s : String) → dash ("-" <> s) ≡ some s
unfolding dash nat_eq
dash-append s = rw (cons-append, nil-append) refl

pub dash_sound : (s t : String) → dash s ≡ some t → s ≡ "-" <> t
unfolding dash nat_eq
dash_sound [] t h = absurd (cc h)
dash_sound (c ∷ s) t h = elim (Bool-cases (code c == b'-')) [
  | inr other ↦ absurd (cc (rw other at h))
  | inl here ↦
      let same : s ≡ t = cc (rw here at h) in
      let minus : c ≡ "-" = Char-path c "-" (==_sound (code c) b'-' here) in
      rw (minus, same, cons-append, nil-append)
]
