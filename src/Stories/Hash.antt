-- ===== src/Stories/Hash.antt =====
-- _dhash() of app/instadroid/stories.py over the 72 pixels of the shrunk frame, and the number of bits
-- two such hashes differ in. A hash is the number that its 16 hexadecimal digits stand for.
use instadroid.Prelude.{
  ℕ, zero, suc, ◌+◌, ◌*◌, ◌/◌, ◌%◌, ◌^◌, ◌≤◌, ◌<◌, ◌≡◌, refl, Bool, true, false, List, [], ◌∷◌,
  arith, ltb, ◌==◌, if◌then◌else◌, length, Bool-cases, inl, inr,
}
use native.Mathlib.Numerals.{towards_suc}

-- `bits << 1 | (px[i] > px[i + 1])` for each pixel but the last of a row of nine
unfoldable pub bits_from : ℕ → List ℕ → ℕ → ℕ
bits_from i [] bits = bits
bits_from i (p ∷ []) bits = bits
bits_from i (p ∷ q ∷ px) bits =
    bits_from (i + 1) (q ∷ px) (if i % 9 == 8 then bits else bits * 2 + (if ltb q p then 1 else 0))

unfoldable pub dhash : List ℕ → ℕ
dhash px = bits_from 0 px 0

-- (a ^ b).bit_count(), of numbers of `n` bits
unfoldable pub differing : ℕ → ℕ → ℕ → ℕ
differing zero a b = 0
differing (suc n) a b = differing n (a / 2) (b / 2) + (if a % 2 == b % 2 then 0 else 1)

pub differing_self : (n a : ℕ) → differing n a a ≡ 0
unfolding differing
differing_self zero a = refl
differing_self (suc n) a = ground (arith, differing_self n (a / 2))

pub differing_comm : (n a b : ℕ) → differing n a b ≡ differing n b a
unfolding differing
differing_comm zero a b = refl
differing_comm (suc n) a b = ground (arith, differing_comm n (a / 2) (b / 2))

pub differing_triangle : (n a b c : ℕ) → differing n a c ≤ differing n a b + differing n b c
unfolding differing
differing_triangle zero a b c = omega arith
differing_triangle (suc n) a b c = ground (arith, differing_triangle n (a / 2) (b / 2) (c / 2))

-- the bits that `n` pixels from the `i`th on add
bit_count : ℕ → ℕ → ℕ
bit_count i zero = 0
bit_count i (suc zero) = 0
bit_count i (suc (suc n)) =
    let rest = bit_count (i + 1) (suc n) in if i % 9 == 8 then rest else rest + 1

pow_suc : (n : ℕ) → 2 ^ (n + 1) ≡ 2 * 2 ^ n
pow_suc n = simp towards_suc (omega arith)

bits_from_bound :
    (i : ℕ) (px : List ℕ) (bits : ℕ)
    → bits_from i px bits + 1 ≤ (bits + 1) * 2 ^ bit_count i (length px)
unfolding bits_from bit_count
bits_from_bound i [] bits = omega arith
bits_from_bound i (p ∷ []) bits = omega arith
bits_from_bound i (p ∷ q ∷ px) bits = elim (Bool-cases (i % 9 == 8)) [
  | inl e ↦ rw e (bits_from_bound (i + 1) (q ∷ px) bits)
  | inr e ↦
      rw (e, pow_suc (bit_count (i + 1) (suc (length px))))
        (grow _ _ (ltb q p)
          (bits_from_bound (i + 1) (q ∷ px) (bits * 2 + (if ltb q p then 1 else 0))))
]
  where
    grow :
        (n m : ℕ) (b : Bool)
        → n + 1 ≤ (bits * 2 + (if b then 1 else 0) + 1) * m
        → n + 1 ≤ (bits + 1) * (2 * m)
    grow n m true h = grind arith
    grow n m false h = grind arith

-- The hash of 72 pixels has 64 bits: it fits the 16 hexadecimal digits that it is stored in.
dhash-lt : (px : List ℕ) → length px ≡ 72 → dhash px < 2 ^ 64
unfolding dhash bit_count
dhash-lt px h = omega (arith, rw h at (bits_from_bound 0 px 0))
