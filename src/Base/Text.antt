-- ===== src/Base/Text.antt =====
-- Text as bytes: equality, the first place of a byte, and maps with text keys.
use conv_event.Base.Lists.{Bytes}
use conv_event.Base.Tests.{◌==◌, if◌then◌else◌}
use Prim.Native.Nat.{ℕ}
use mathlib.Core.Path.{◌≡◌, ap, refl}
use mathlib.Core.Bool.{Bool, true, false, ◌&&◌}
use mathlib.Core.Option.{Option, none, some}
use mathlib.Core.List.{List, [], ◌∷◌, ◌++◌}
use native.Mathlib.Omega.{arith}

unfoldable pub text_eq : Bytes → Bytes → Bool
text_eq [] [] = true
text_eq [] (y ∷ ys) = false
text_eq (x ∷ xs) [] = false
text_eq (x ∷ xs) (y ∷ ys) = (x == y) && text_eq xs ys

pub text_eq_refl : (xs : Bytes) → text_eq xs xs ≡ true
unfolding text_eq
text_eq_refl [] = refl
text_eq_refl (x ∷ xs) = ground (arith, text_eq_refl xs)

pub text_eq→eq : (xs ys : Bytes) → text_eq xs ys ≡ true → xs ≡ ys
unfolding text_eq
text_eq→eq [] [] h = refl
text_eq→eq [] (y ∷ ys) h = ground arith
text_eq→eq (x ∷ xs) [] h = ground arith
text_eq→eq (x ∷ xs) (y ∷ ys) h = ground (arith, text_eq→eq xs ys)

-- The text before the first byte that `p` accepts, and the text after it.
unfoldable pub split_at : (ℕ → Bool) → Bytes → Bytes × Option Bytes
split_at p [] = ([], none)
split_at p (x ∷ xs) =
    let (before, after) = split_at p xs in if p x then ([], some xs) else (x ∷ before, after)

unfoldable pub all_false : (ℕ → Bool) → Bytes → Bool
all_false p [] = true
all_false p (x ∷ xs) = if p x then false else all_false p xs

-- No byte of the text is accepted by `p`.
abbrev pub NoneOf : (ℕ → Bool) → Bytes → Type 0
NoneOf p xs = all_false p xs ≡ true

pub split_at-none : (p : ℕ → Bool) (xs : Bytes) → NoneOf p xs → split_at p xs ≡ (xs, none)
unfolding split_at all_false
split_at-none p [] h = refl
split_at-none p (x ∷ xs) h = ground (arith, split_at-none p xs)

pub split_at-append :
    (p : ℕ → Bool) (xs : Bytes) (y : ℕ) (ys : Bytes)
    → NoneOf p xs
    → p y ≡ true
    → split_at p (xs ++ (y ∷ ys)) ≡ (xs, some ys)
unfolding split_at all_false
split_at-append p [] y ys h e = ground arith
split_at-append p (x ∷ xs) y ys h e = ground (arith, split_at-append p xs y ys)

pub NoneOf-append : (p : ℕ → Bool) (xs ys : Bytes) → NoneOf p xs → NoneOf p ys → NoneOf p (xs ++ ys)
unfolding all_false
NoneOf-append p [] ys h h' = h'
NoneOf-append p (x ∷ xs) ys h h' = ground (arith, NoneOf-append p xs ys)

-- `erase(end() - 1)`
unfoldable pub drop_last : Bytes → Bytes
drop_last [] = []
drop_last (c ∷ []) = []
drop_last (c ∷ d ∷ s) = c ∷ drop_last (d ∷ s)

pub drop_last-append : (s : Bytes) (x : ℕ) → drop_last (s ++ (x ∷ [])) ≡ s
unfolding drop_last
drop_last-append [] x = refl
drop_last-append (c ∷ []) x = refl
drop_last-append (c ∷ d ∷ s) x = ap (◌∷◌ c) (drop_last-append (d ∷ s) x)

module _ {ℓ} {A : Type ℓ} where
  -- `find` in a map: the value under the key, if there is one.
  unfoldable pub lookup : Bytes → List (Bytes × A) → Option A
  lookup k [] = none
  lookup k ((l, a) ∷ t) = if text_eq k l then some a else lookup k t

  -- `map[k] = a`
  unfoldable pub assign : Bytes → A → List (Bytes × A) → List (Bytes × A)
  assign k a [] = (k, a) ∷ []
  assign k a ((l, b) ∷ t) = if text_eq k l then (l, a) ∷ t else (l, b) ∷ assign k a t

  -- `emplace` keeps the value that a key already has.
  unfoldable pub emplace : Bytes → A → List (Bytes × A) → List (Bytes × A)
  emplace k a [] = (k, a) ∷ []
  emplace k a ((l, b) ∷ t) = if text_eq k l then (l, b) ∷ t else (l, b) ∷ emplace k a t

  pub lookup-assign : (k : Bytes) (a : A) (t : List (Bytes × A)) → lookup k (assign k a t) ≡ some a
  unfolding lookup assign
  lookup-assign k a [] = ground (arith, text_eq_refl k)
  lookup-assign k a ((l, b) ∷ t) = ground (arith, lookup-assign k a t)

  pub lookup-assign_ne :
      (k l : Bytes) (a : A) (t : List (Bytes × A))
      → text_eq l k ≡ false
      → lookup l (assign k a t) ≡ lookup l t
  unfolding lookup assign
  lookup-assign_ne k l a [] h = ground arith
  lookup-assign_ne k l a ((j, b) ∷ t) h =
      ground (arith, lookup-assign_ne k l a t h, text_eq→eq k j, text_eq→eq l j)
