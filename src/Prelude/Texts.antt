-- ===== src/Prelude/Texts.antt =====
-- Text as its code points. `text_eq` is Python's `==` on two strings; `opt_eq` on strings or None.
use Prim.Native.Nat.{ℕ}
use Prim.Native.Char.{code}
use Prim.Native.String.{String}
use mathlib.Core.Path.{◌≡◌, refl, ap}
use mathlib.Core.Logic.{◌↔◌, ◌≢◌}
use mathlib.Core.Bool.{Bool, true, false, ◌&&◌, ◌||◌}
use mathlib.Core.List.{List, [], ◌∷◌, ◌++◌}
use mathlib.Core.Option.{Option, none, some}
use native.Mathlib.Omega.{arith}
use instadroid.Prelude.Lists.{length, drop}
use instadroid.Prelude.Tests.{◌==◌}

abbrev pub Text : Type 0
Text = List ℕ

abbrev pub codes : String → Text
codes String.[] = []
codes (String.◌∷◌ c s) = code c ∷ codes s

unfoldable pub text_eq : Text → Text → Bool
text_eq [] [] = true
text_eq [] (_ ∷ _) = false
text_eq (_ ∷ _) [] = false
text_eq (x ∷ xs) (y ∷ ys) = (x == y) && text_eq xs ys

text_eq→eq : (a b : Text) → text_eq a b ≡ true → a ≡ b
unfolding text_eq
text_eq→eq [] [] h = refl
text_eq→eq [] (y ∷ ys) h = ground arith
text_eq→eq (x ∷ xs) [] h = ground arith
text_eq→eq (x ∷ xs) (y ∷ ys) h = ground (arith, text_eq→eq xs ys)

pub text_eq_refl : (a : Text) → text_eq a a ≡ true
unfolding text_eq
text_eq_refl [] = refl
text_eq_refl (x ∷ xs) = ground (arith, text_eq_refl xs)

pub text_eq_iff : (a b : Text) → (text_eq a b ≡ true) ↔ (a ≡ b)
text_eq_iff a b = (text_eq→eq a b, λ e. rw e (text_eq_refl b))

pub text_ne : (a b : Text) → a ≢ b → text_eq a b ≡ false
text_ne a b h = ground (arith, text_eq_iff a b)

-- equality of two nullable cells, as SQL's IS
unfoldable pub opt_eq : Option Text → Option Text → Bool
opt_eq none none = true
opt_eq none (some _) = false
opt_eq (some _) none = false
opt_eq (some a) (some b) = text_eq a b

pub opt_eq_iff : (a b : Option Text) → (opt_eq a b ≡ true) ↔ (a ≡ b)
unfolding opt_eq
opt_eq_iff none none = ground arith
opt_eq_iff none (some b) = ground arith
opt_eq_iff (some a) none = ground arith
opt_eq_iff (some a) (some b) = ground (arith, text_eq_iff a b)

-- `a in texts`

unfoldable pub contains : Text → List Text → Bool
contains a [] = false
contains a (x ∷ xs) = text_eq x a || contains a xs

-- `s.startswith(p)`
unfoldable pub starts_with : Text → Text → Bool
starts_with s [] = true
starts_with [] (_ ∷ _) = false
starts_with (x ∷ s) (y ∷ p) = (x == y) && starts_with s p

pub starts_with_head : (s t : Text) → starts_with (s ++ t) s ≡ true
unfolding starts_with
starts_with_head [] t = refl
starts_with_head (c ∷ s) t = ground (arith, starts_with_head s t)

pub starts_with-drop : (s p : Text) → starts_with s p ≡ true → s ≡ p ++ drop (length p) s
unfolding starts_with
starts_with-drop s [] h = refl
starts_with-drop [] (c ∷ p) h = cc
starts_with-drop (x ∷ s) (c ∷ p) h =
    let same : x ≡ c = ground (arith, h) in
    let rest = starts_with-drop s p (ground (arith, h)) in rw same (ap (◌∷◌ c) rest)
