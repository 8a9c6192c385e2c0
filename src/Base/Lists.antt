-- ===== src/Base/Lists.antt =====
-- Lists over the native numbers, and a predicate for every element.
use Prim.Native.Nat.{ℕ, zero, suc, ◌+◌}
use mathlib.Core.Path.{◌≡◌, refl, ap}
use mathlib.Core.Logic.{◌⊎◌, inl, inr}
use mathlib.Core.Option.{Option, none, some}
use mathlib.Core.List.{List, [], ◌∷◌, ◌++◌, map}
use native.Mathlib.Omega.{arith}

module _ {ℓ} {A : Type ℓ} where
  abbrev pub length : List A → ℕ
  length [] = 0
  length (x ∷ xs) = suc (length xs)

  -- `xs[i]`, with none out of range.
  abbrev pub get_elem? : List A → ℕ → Option A
  get_elem? [] i = none
  get_elem? (x ∷ xs) zero = some x
  get_elem? (x ∷ xs) (suc i) = get_elem? xs i

  abbrev pub set : List A → ℕ → A → List A
  set [] i v = []
  set (x ∷ xs) zero v = v ∷ xs
  set (x ∷ xs) (suc i) v = x ∷ set xs i v

  pub length-append : (xs ys : List A) → length (xs ++ ys) ≡ length xs + length ys
  length-append [] ys = omega arith
  length-append (x ∷ xs) ys = omega (arith, length-append xs ys)

module _ {ℓ} {A : Type ℓ} where
  -- The element stands in the list.
  pub data Among (a : A) : List A → Type ℓ where
    at_head : {x : A} {xs : List A} → a ≡ x → Among a (x ∷ xs)
    at_tail : {x : A} {xs : List A} → Among a xs → Among a (x ∷ xs)

  pub Among-append_left : (a : A) (xs ys : List A) → Among a xs → Among a (xs ++ ys)
  Among-append_left a [] ys h = elim h [ ]
  Among-append_left a (x ∷ xs) ys (at_head e) = at_head e
  Among-append_left a (x ∷ xs) ys (at_tail h) = at_tail (Among-append_left a xs ys h)

  pub Among-append_right : (a : A) (xs ys : List A) → Among a ys → Among a (xs ++ ys)
  Among-append_right a [] ys h = h
  Among-append_right a (x ∷ xs) ys h = at_tail (Among-append_right a xs ys h)

  pub Among-of-append : (a : A) (xs ys : List A) → Among a (xs ++ ys) → Among a xs ⊎ Among a ys
  Among-of-append a [] ys h = inr h
  Among-of-append a (x ∷ xs) ys (at_head e) = inl (at_head e)
  Among-of-append a (x ∷ xs) ys (at_tail h) = elim (Among-of-append a xs ys h) [
    | inl k ↦ inl (at_tail k)
    | inr k ↦ inr k
  ]

module _ {ℓ κ} {A : Type ℓ} {B : Type κ} where
  pub Among-map : (f : A → B) (a : A) (xs : List A) → Among a xs → Among (f a) (map f xs)
  Among-map f a [] h = elim h [ ]
  Among-map f a (x ∷ xs) (at_head e) = at_head (ap f e)
  Among-map f a (x ∷ xs) (at_tail h) = at_tail (Among-map f a xs h)

  pub length-map : (f : A → B) (xs : List A) → length (map f xs) ≡ length xs
  length-map f [] = refl
  length-map f (x ∷ xs) = omega (arith, length-map f xs)

module _ {ℓ κ} {A : Type ℓ} (P : A → Type κ) where
  abbrev pub All : List A → Type κ
  All [] = Unit
  All (x ∷ xs) = P x × All xs

  pub All-append : (xs ys : List A) → All xs → All ys → All (xs ++ ys)
  All-append [] ys h k = k
  All-append (x ∷ xs) ys (p, h) k = (p, All-append xs ys h k)

  pub All-get_elem? : (xs : List A) (i : ℕ) (x : A) → All xs → get_elem? xs i ≡ some x → P x
  All-get_elem? [] i x h e = absurd (ground arith)
  All-get_elem? (y ∷ xs) zero x (p, h) e = ground arith
  All-get_elem? (y ∷ xs) (suc i) x (p, h) e = All-get_elem? xs i x h e
