-- ===== src/Examples/Pairing.antt =====
-- Lists of numbers as numbers, one to one: the stand-in for a hash that does not collide.
use mina_guard.Base.{
  ℕ, zero, suc, ◌+◌, ◌*◌, ◌/◌, ◌≤◌, ◌<◌, ◌≡◌, ◌≢◌, ◌⊎◌, inl, inr, refl, sym, ◌∙◌, ap, true, false,
  List, [], ◌∷◌, ◌==◌, arith,
}

-- 256 ^ c
abbrev power : ℕ → ℕ
power zero = 1
power (suc c) = 256 * power c

-- The number of base-256 digits of `n`, on fuel.
unfoldable pub digits_on : ℕ → ℕ → ℕ
digits_on zero n = 0
digits_on (suc fuel) n = elim (n == 0) [ true ↦ 0 | false ↦ suc (digits_on fuel (n / 256)) ]

unfoldable pub digit_count : ℕ → ℕ
unfolding digits_on
digit_count n = digits_on n n

digits_on_bound : (fuel n : ℕ) → n ≤ fuel → n < power (digits_on fuel n)
unfolding digits_on
digits_on_bound zero n h = omega arith
digits_on_bound (suc fuel) n h = ground (arith, digits_on_bound fuel (n / 256))

digit_count_bound : (n : ℕ) → n < power (digit_count n)
unfolding digit_count
digit_count_bound n = digits_on_bound n n (omega arith)

-- `a` and `b` in one number, with the width of `a` written as trailing zero digits.
unfoldable pub packed : ℕ → ℕ → ℕ → ℕ
packed c a b = (256 * (b * power c + a) + 1) * power c

unfoldable pub pair : ℕ → ℕ → ℕ
unfolding packed digit_count
pair a b = packed (digit_count a) a b

power_pos : (c : ℕ) → 0 < power c
power_pos zero = omega arith
power_pos (suc c) = omega (arith, power_pos c)

trailing : (c d x y : ℕ) → (256 * x + 1) * power c ≡ (256 * y + 1) * power d → (c ≡ d) × (x ≡ y)
trailing zero zero x y e = (refl, omega arith)
trailing zero (suc d) x y e = absurd (omega arith)
trailing (suc c) zero x y e = absurd (omega arith)
trailing (suc c) (suc d) x y e =
    let (same, rest) = trailing c d x y (omega arith) in (ap suc same, rest)

row-lt : (k b b' : ℕ) → b < b' → b * k + k ≤ b' * k
row-lt k b zero h = absurd (omega arith)
row-lt k zero (suc b') h = omega arith
row-lt k (suc b) (suc b') h = omega (arith, row-lt k b b' (omega arith))

split_digits : (k a b a' b' : ℕ) → a < k → a' < k → b * k + a ≡ b' * k + a' → (a ≡ a') × (b ≡ b')
split_digits k a b a' b' h h' e = elim (compare_lem b b') [
  | inl less ↦ absurd (omega (arith, row-lt k b b' less))
  | inr (inl same) ↦ (omega (arith, ap (λ (c : ℕ). c * k) same), same)
  | inr (inr more) ↦ absurd (omega (arith, row-lt k b' b more))
]
  where
    compare_lem : (m n : ℕ) → (m < n) ⊎ ((m ≡ n) ⊎ (n < m))
    compare_lem m n = ground arith

-- Two packed pairs with their widths as variables.
unpack :
    (c d a b a' b' : ℕ)
    → a < power c
    → a' < power d
    → (256 * (b * power c + a) + 1) * power c ≡ (256 * (b' * power d + a') + 1) * power d
    → (a ≡ a') × (b ≡ b')
unpack c d a b a' b' h h' e =
    let (widths, rest) = trailing c d (b * power c + a) (b' * power d + a') e in
    let same_power = ap power widths in
    split_digits (power c) a b a' b' h (omega arith)
      (rest ∙ ap (λ (k : ℕ). b' * k + a') (sym same_power))

pub pair-injective : (a b a' b' : ℕ) → pair a b ≡ pair a' b' → (a ≡ a') × (b ≡ b')
unfolding pair packed
pair-injective a b a' b' e =
    unpack (digit_count a) (digit_count a') a b a' b' (digit_count_bound a) (digit_count_bound a') e

pub pair-nonzero : (a b : ℕ) → pair a b ≢ 0
unfolding pair packed
pair-nonzero a b e = absurd (grind (arith, power_pos (digit_count a)))

unfoldable pub encode : List ℕ → ℕ
unfolding pair
encode [] = 0
encode (x ∷ xs) = pair x (encode xs)

pub encode-injective : (xs ys : List ℕ) → encode xs ≡ encode ys → xs ≡ ys
unfolding encode
encode-injective [] [] e = refl
encode-injective [] (y ∷ ys) e = absurd (pair-nonzero y (encode ys) (sym e))
encode-injective (x ∷ xs) [] e = absurd (pair-nonzero x (encode xs) e)
encode-injective (x ∷ xs) (y ∷ ys) e =
    let (heads, tails) = pair-injective x (encode xs) y (encode ys) e in
    cc (heads, encode-injective xs ys tails)
