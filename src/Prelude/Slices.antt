-- ===== src/Prelude/Slices.antt =====
-- The first rows of a list and the rest, filters of filters, and predicates on every element.
use Prim.Native.Nat.{ℕ, zero, suc, ◌-◌, ◌≤◌, ◌<◌, min}
use mathlib.Core.Path.{◌≡◌, refl, ap}
use mathlib.Core.Bool.{Bool, true, ◌&&◌}
use mathlib.Core.List.{List, [], ◌∷◌, ◌++◌, Memᴰ}
use native.Mathlib.Omega.{arith}
use instadroid.Prelude.Lists.{length, take, drop, keep, All}

module _ {ℓ} {A : Type ℓ} where
  pub take-take : (n : ℕ) (xs : List A) → take n (take (suc n) xs) ≡ take n xs
  take-take zero xs = refl
  take-take (suc n) [] = refl
  take-take (suc n) (x ∷ xs) = ap (◌∷◌ x) (take-take n xs)

  pub take_all : (n : ℕ) (xs : List A) → length xs ≤ n → take n xs ≡ xs
  take_all zero [] h = refl
  take_all zero (x ∷ xs) h = absurd (omega arith)
  take_all (suc n) [] h = refl
  take_all (suc n) (x ∷ xs) h = ap (◌∷◌ x) (take_all n xs (omega arith))

  pub length-take : (n : ℕ) (xs : List A) → length (take n xs) ≡ min n (length xs)
  length-take zero xs = omega arith
  length-take (suc n) [] = omega arith
  length-take (suc n) (x ∷ xs) = omega (arith, length-take n xs)

  pub take-drop : (n : ℕ) (xs : List A) → take n xs ++ drop n xs ≡ xs
  take-drop zero xs = refl
  take-drop (suc n) [] = refl
  take-drop (suc n) (x ∷ xs) = ap (◌∷◌ x) (take-drop n xs)

  pub length-drop : (n : ℕ) (xs : List A) → length (drop n xs) ≡ length xs - n
  length-drop zero xs = omega arith
  length-drop (suc n) [] = omega arith
  length-drop (suc n) (x ∷ xs) = omega (arith, length-drop n xs)

  pub length-drop-lt :
      (n : ℕ) (xs : List A) → 1 ≤ n → 1 ≤ length xs → length (drop n xs) < length xs
  length-drop-lt zero xs h k = absurd (omega arith)
  length-drop-lt (suc n) [] h k = absurd (omega arith)
  length-drop-lt (suc zero) (x ∷ xs) h k = omega arith
  length-drop-lt (suc (suc n)) (x ∷ []) h k = omega arith
  length-drop-lt (suc (suc n)) (x ∷ y ∷ xs) h k =
      omega (arith, length-drop-lt (suc n) (y ∷ xs) (omega arith) (omega arith))

  pub keep-All : (f : A → Bool) (xs : List A) → All (λ x. f x ≡ true) xs → keep f xs ≡ xs
  unfolding keep
  keep-All f [] h = refl
  keep-All f (x ∷ xs) (h, hs) = rw h (ap (◌∷◌ x) (keep-All f xs hs))

  pub keep-refine :
      (f g h : A → Bool) (xs : List A)
      → ((x : A) → h x ≡ (g x && f x))
      → keep h xs ≡ keep f (keep g xs)
  unfolding keep
  keep-refine f g h [] e = refl
  keep-refine f g h (x ∷ xs) e = ground (arith, e x, keep-refine f g h xs e)

  pub All-mem {κ} : (P : A → Type κ) {a : A} {xs : List A} → All P xs → Memᴰ a xs → P a
  All-mem P {xs = []} h m = elim m [ ]
  All-mem P {xs = x ∷ xs} (h, hs) (Memᴰ.head e) = rw e h
  All-mem P {xs = x ∷ xs} (h, hs) (Memᴰ.tail m) = All-mem P hs m

pub All-both {ℓ κ μ} :
    {A : Type ℓ} (P : A → Type κ) (Q : A → Type μ) (xs : List A)
    → All P xs
    → All Q xs
    → All (λ x. P x × Q x) xs
All-both P Q [] h k = tt
All-both P Q (x ∷ xs) (h, hs) (k, ks) = ((h, k), All-both P Q xs hs ks)
