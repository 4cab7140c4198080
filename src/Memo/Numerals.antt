-- ===== src/Memo/Numerals.antt =====
-- `base58Decode` of contracts/src/memo.ts: theorems on the number that a text writes.
use mathlib.Core.List.{reverse, reverse-append}
use Prim.Native.Char.{code}
use mina_guard.Base.{
  ℕ, zero, suc, String, ◌+◌, ◌*◌, ◌/◌, ◌≤◌, ◌≡◌, ◌∙◌, ap, refl, List, [], ◌∷◌, ◌++◌, Result, ok,
  or_throw, ◌>>=◌, ◌%◌, ◌<◌, ◌==◌, ltb, sym, ==_iff, then_assoc, then_ext, Bool-cases, true, false,
  replicate, All, Option-cases, inl, inr, arith,
}
use mina_guard.Memo.{
  index_of, base58_alphabet, carry_bytes, add_digit, digits_loop, leading_zeros, base58_decode,
}

-- The number of base-58 digits, most significant first, behind the number `v`.
unfoldable pub number58 : ℕ → String → Result ℕ
number58 v String.[] = ok v
number58 v (String.◌∷◌ c s) = do
  digit ← or_throw (index_of c base58_alphabet) "Invalid base58 character"
  number58 (58 * v + digit) s

-- The entries of a number in base 256, least significant first, none of them a needless zero on top.
-- The number itself is enough fuel.
unfoldable entries256 : ℕ → ℕ → List ℕ
entries256 zero v = v ∷ []
entries256 (suc fuel) v = elim (v / 256 == 0) [
  | true ↦ v ∷ []
  | false ↦ v % 256 ∷ entries256 fuel (v / 256)
]

-- The number in base 256, most significant byte first.
unfoldable pub base256 : ℕ → List ℕ
unfolding entries256
base256 v = reverse (entries256 v v)

-- How many `1`s a text starts with.
unfoldable pub leading_ones : String → ℕ
leading_ones String.[] = 0
leading_ones (String.◌∷◌ c s) =
    let later = leading_ones s in elim (code c == 49) [ true ↦ suc later | false ↦ 0 ]

entries256-one : (fuel v : ℕ) → v < 256 → entries256 fuel v ≡ v ∷ []
unfolding entries256
entries256-one zero v small = refl
entries256-one (suc fuel) v small = ground arith

entries256-fuel : (fuel more v : ℕ) → v ≤ fuel → v ≤ more → entries256 fuel v ≡ entries256 more v
unfolding entries256
entries256-fuel zero more v h k = sym (entries256-one more v (omega arith))
entries256-fuel (suc fuel) zero v h k = entries256-one (suc fuel) v (omega arith)
entries256-fuel (suc fuel) (suc more) v h k = ground (arith, entries256-fuel fuel more (v / 256))

entries256-more :
    (fuel v : ℕ) → v ≤ fuel → 256 ≤ v → entries256 fuel v ≡ v % 256 ∷ entries256 (v / 256) (v / 256)
unfolding entries256
entries256-more zero v h large = absurd (omega arith)
entries256-more (suc fuel) v h large = ground (arith, entries256-fuel fuel (v / 256) (v / 256))

carry_bytes-zero : (fuel : ℕ) → carry_bytes fuel 0 ≡ []
unfolding carry_bytes
carry_bytes-zero zero = refl
carry_bytes-zero (suc fuel) = refl

carry_bytes-entries256 :
    (fuel carry : ℕ) → carry ≤ fuel → 0 < carry → carry_bytes fuel carry ≡ entries256 fuel carry
unfolding carry_bytes entries256
carry_bytes-entries256 zero carry h k = absurd (omega arith)
carry_bytes-entries256 (suc fuel) carry h k = elim (Bool-cases (carry / 256 == 0)) [
  | inl small ↦ ground (arith, carry_bytes-zero fuel)
  | inr large ↦ ground (arith, carry_bytes-entries256 fuel (carry / 256))
]

-- The carry that leaves the last entry.
last_carry : (n : ℕ) → n % 256 ∷ carry_bytes (n / 256) (n / 256) ≡ entries256 n n
last_carry n = elim (Bool-cases (n / 256 == 0)) [
  | inl small ↦
      let one = entries256-one n n (ground arith) in
      let quotient : n / 256 ≡ 0 = (==_iff (n / 256) 0).0 small in
      let one = entries256-one n n (ground arith) in
      let rest : n % 256 ≡ n = omega arith in
      rw quotient (rw rest (ap (λ (xs : List ℕ). n ∷ xs) (carry_bytes-zero 0) ∙ sym one))
  | inr large ↦
      let more = entries256-more n n (omega arith) (ground arith) in
      let carried = carry_bytes-entries256 (n / 256) (n / 256) (omega arith) (ground arith) in
      ap (λ (xs : List ℕ). n % 256 ∷ xs) carried ∙ sym more
]

add_digit-entries256 :
    (fuel digit v : ℕ)
    → v ≤ fuel
    → add_digit digit (entries256 fuel v) ≡ entries256 (58 * v + digit) (58 * v + digit)
unfolding add_digit
add_digit-entries256 zero digit v h =
    ap (add_digit digit) (entries256-one 0 v (omega arith))
    ∙ last_carry (digit + v * 58)
    ∙ ap (λ (n : ℕ). entries256 n n) (omega arith)
add_digit-entries256 (suc fuel) digit v h = elim (Bool-cases (ltb v 256)) [
  | inl small ↦
      ap (add_digit digit) (entries256-one (suc fuel) v (ground arith))
      ∙ last_carry (digit + v * 58)
      ∙ ap (λ (n : ℕ). entries256 n n) (omega arith)
  | inr large ↦
      let n : ℕ = 58 * v + digit in
      let carry : ℕ = (digit + (v % 256) * 58) / 256 in
      let more = entries256-more n n (omega arith) (ground arith) in
      let split : entries256 (suc fuel) v ≡ v % 256 ∷ entries256 fuel (v / 256) =
        entries256-more (suc fuel) v h (ground arith)
        ∙ ap (λ (xs : List ℕ). v % 256 ∷ xs)
            (entries256-fuel (v / 256) fuel (v / 256) (omega arith) (omega arith)) in
      let quotient : 58 * (v / 256) + carry ≡ n / 256 = omega arith in
      let remainder : (digit + (v % 256) * 58) % 256 ≡ n % 256 = omega arith in
      ap (add_digit digit) split
      ∙ ap (λ (xs : List ℕ). (digit + (v % 256) * 58) % 256 ∷ xs)
          (add_digit-entries256 fuel carry (v / 256) (omega arith)
            ∙ ap (λ (m : ℕ). entries256 m m) quotient)
      ∙ ap (λ (r : ℕ). r ∷ entries256 (n / 256) (n / 256)) remainder
      ∙ sym more
]

digits_loop-entries256 :
    (v : ℕ) (s : String)
    → digits_loop (entries256 v v) s ≡ (number58 v s >>= λ n. ok (entries256 n n))
unfolding digits_loop number58
digits_loop-entries256 v String.[] = refl
digits_loop-entries256 v (String.◌∷◌ c s) = elim (Option-cases (index_of c base58_alphabet)) [
  | inl unknown ↦ rw unknown refl
  | inr (digit, known) ↦ rw known (
      ap (λ (bytes : List ℕ). digits_loop bytes s) (add_digit-entries256 v digit v (omega arith))
      ∙ digits_loop-entries256 (58 * v + digit) s)
]

leading_zeros-replicate : (s : String) → leading_zeros s ≡ replicate (leading_ones s) 0
unfolding leading_zeros leading_ones
leading_zeros-replicate String.[] = refl
leading_zeros-replicate (String.◌∷◌ c s) = elim (Bool-cases (code c == 49)) [
  | inl one ↦
      rw (leading_zeros, leading_ones, one)
        (ap (λ (xs : List ℕ). 0 ∷ xs) (leading_zeros-replicate s))
  | inr other ↦ rw (leading_zeros, leading_ones, other) refl
]

abbrev zeros : ℕ → List ℕ
zeros n = replicate n 0

zeros-append : (n : ℕ) → zeros n ++ 0 ∷ [] ≡ 0 ∷ zeros n
zeros-append zero = refl
zeros-append (suc n) = ap (λ (xs : List ℕ). 0 ∷ xs) (zeros-append n)

reverse-zeros : (n : ℕ) → reverse (zeros n) ≡ zeros n
reverse-zeros zero = refl
reverse-zeros (suc n) =
    reverse-append (0 ∷ []) (zeros n)
    ∙ ap (λ (xs : List ℕ). xs ++ 0 ∷ []) (reverse-zeros n)
    ∙ zeros-append n

abbrev pub big_endian : ℕ → List ℕ → ℕ
big_endian v [] = v
big_endian v (byte ∷ bytes) = big_endian (256 * v + byte) bytes

big_endian-append :
    (v : ℕ) (xs : List ℕ) (y : ℕ) → big_endian v (xs ++ y ∷ []) ≡ 256 * big_endian v xs + y
big_endian-append v [] y = refl
big_endian-append v (x ∷ xs) y = big_endian-append (256 * v + x) xs y

All-append_one :
    (xs : List ℕ) (y : ℕ) → All (λ b. b < 256) xs → y < 256 → All (λ b. b < 256) (xs ++ y ∷ [])
All-append_one [] y h k = (k, tt)
All-append_one (x ∷ xs) y h k = (h.0, All-append_one xs y h.1 k)

reversed_entries :
    (fuel v : ℕ)
    → v ≤ fuel
    → All (λ b. b < 256) (reverse (entries256 fuel v))
      × (big_endian 0 (reverse (entries256 fuel v)) ≡ v)
unfolding entries256
reversed_entries zero v h = ((omega arith, tt), omega arith)
reversed_entries (suc fuel) v h = elim (Bool-cases (v / 256 == 0)) [
  | inl small ↦ rw (entries256, small) ((ground arith, tt), omega arith)
  | inr large ↦
      let (bytes, value) = reversed_entries fuel (v / 256) (omega arith) in
      rw (entries256, large, reverse-append (v % 256 ∷ []) (entries256 fuel (v / 256)))
        (
          All-append_one (reverse (entries256 fuel (v / 256))) (v % 256) bytes (omega arith),
          big_endian-append 0 (reverse (entries256 fuel (v / 256))) (v % 256)
              ∙ omega (arith, value),
        )
]

-- The entries are bytes, and they write the number.
pub base256-bytes : (v : ℕ) → All (λ b. b < 256) (base256 v) × (big_endian 0 (base256 v) ≡ v)
unfolding base256
base256-bytes v = reversed_entries v v (omega arith)

-- `base58Decode` returns one zero for each leading `1` of the text, and behind them the base-256
-- digits, most significant first and with no zero on top but for the number 0, of the number that
-- the text writes in base 58; it throws exactly where the text has a character outside the
-- alphabet.
pub base58_decode-number58 :
    (input : String)
    → base58_decode input
      ≡ (number58 0 input >>= λ (n : ℕ). ok (replicate (leading_ones input) 0 ++ base256 n))
unfolding base58_decode base256
base58_decode-number58 input =
    ap (λ loop. loop >>= λ bytes. ok (reverse (bytes ++ leading_zeros input)))
      (digits_loop-entries256 0 input)
    ∙ then_assoc (number58 0 input) _ _
    ∙ then_ext (number58 0 input) (λ n. ap ok (
        reverse-append (entries256 n n) (leading_zeros input)
        ∙ ap (λ (xs : List ℕ). reverse xs ++ reverse (entries256 n n))
            (leading_zeros-replicate input)
        ∙ ap (λ (xs : List ℕ). xs ++ reverse (entries256 n n))
            (reverse-zeros (leading_ones input))))
