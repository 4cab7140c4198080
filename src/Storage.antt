-- ===== src/Storage.antt =====
-- The owner store of contracts/src/storage.ts: `class OwnerStore`, with its mutable array as the
-- argument and the result of each method. `toBase58` is o1js's, a parameter with its law.
pub mod Owners
pub mod Order
pub mod Positions
pub mod Maps
use Prim.Native.String.{compare}
use Prim.Native.Nat.{Ordering}
use text.Mathlib.Text.{◌==◌ as str_eq}
use mina_guard.Base.{
  ℕ, zero, suc, String, ◌-◌, ◌≡◌, Bool, true, false, not, Option, none, some, List, [], ◌∷◌, ◌++◌,
  map, length, take, drop, replicate, filter, any, Result, ok, or_throw, ◌>>=◌, ◌==◌, ltb,
  if◌then◌else◌,
}
use mina_guard.Platform.{Field, PublicKey, PublicKeyOption, Platform, empty_key}
use mina_guard.Constants.{max_owners}
use mina_guard.Owners.{OwnerWitness, compute_owner_chain}

-- Base58 text of a key. It is exact: two keys with one text are one key.
pub record Encoding : Type 0 where
  pub to_base58 : PublicKey → String
  pub injective : (a b : PublicKey) → to_base58 a ≡ to_base58 b → a ≡ b

-- `a < b` of two texts.
abbrev pub text_lt : String → String → Bool
text_lt a b = elim (compare a b) [ Ordering.lt ↦ true | _ ↦ false ]

-- `array.findIndex(test)`; `none` for -1.
abbrev pub find_index {ℓ} : {A : Type ℓ} → (A → Bool) → List A → Option ℕ
find_index test [] = none
find_index test (x ∷ xs) =
    let later = find_index test xs in
    if test x then some 0 else elim later [ none ↦ none | some i ↦ some (suc i) ]

-- `[...xs.slice(0, i), x, ...xs.slice(i)]`, which is also `xs.splice(i, 0, x)`.
abbrev pub inserted_at {ℓ} : {A : Type ℓ} → ℕ → A → List A → List A
inserted_at i x xs = take i xs ++ x ∷ drop i xs

module _ ⦃e : Encoding⦄ where
  abbrev pub same_text : PublicKey → PublicKey → Bool
  same_text a b = str_eq (e.to_base58 b) (e.to_base58 a)

  -- `o.toBase58() > b58`
  abbrev pub comes_after : PublicKey → PublicKey → Bool
  comes_after owner o = text_lt (e.to_base58 owner) (e.to_base58 o)

  -- The position of an insertion in ascending order.
  unfoldable pub sorted_index : PublicKey → List PublicKey → ℕ
  sorted_index owner owners = elim (find_index (comes_after owner) owners) [
    | none ↦ length owners
    | some i ↦ i
  ]

  unfoldable pub add_sorted : PublicKey → List PublicKey → List PublicKey
  add_sorted owner owners = elim (find_index (comes_after owner) owners) [
    | none ↦ owners ++ owner ∷ []
    | some i ↦ inserted_at i owner owners
  ]

  -- The loop of `sortedPredecessor`.
  abbrev predecessor_from : PublicKey → Option PublicKey → List PublicKey → Option PublicKey
  predecessor_from target pred [] = pred
  predecessor_from target pred (o ∷ owners) =
      predecessor_from target (if comes_after o target then some o else pred) owners

  unfoldable pub sorted_predecessor : PublicKey → List PublicKey → Option PublicKey
  sorted_predecessor target owners = predecessor_from target none owners

  unfoldable pub insert_after :
      PublicKey → Option PublicKey → List PublicKey → Result (List PublicKey)
  insert_after owner none owners = ok (owner ∷ owners)
  insert_after owner (some after) owners = do
    i ← or_throw (find_index (same_text after) owners) "afterOwner not found"
    ok (inserted_at (suc i) owner owners)

  unfoldable pub remove : PublicKey → List PublicKey → List PublicKey
  remove owner owners = filter (λ o. not (same_text owner o)) owners

  unfoldable pub is_owner : PublicKey → List PublicKey → Bool
  is_owner owner owners = any (same_text owner) owners

unfoldable pub has_owner_with_same_x : PublicKey → List PublicKey → Bool
has_owner_with_same_x owner owners = any (λ o. o.x == owner.x) owners

module _ ⦃o : Platform⦄ where
  unfoldable pub get_commitment : List PublicKey → Field
  get_commitment owners = compute_owner_chain owners

  unfoldable pub matches : PublicKey → Field → List PublicKey → ℕ → Bool
  matches owner commitment owners i = compute_owner_chain (inserted_at i owner owners) == commitment

  -- The loop of `insertPositionFor` over `count` positions from `i` on.
  unfoldable pub position_from : PublicKey → Field → List PublicKey → ℕ → ℕ → ℕ → Option ℕ
  position_from owner commitment owners preferred i zero = none
  position_from owner commitment owners preferred i (suc count) =
      let later = position_from owner commitment owners preferred (suc i) count in
      if i == preferred then later else if matches owner commitment owners i then some i else later

  unfoldable pub insert_position_for :
      ⦃e : Encoding⦄ → PublicKey → Field → List PublicKey → Option ℕ
  insert_position_for owner commitment owners =
      let preferred = sorted_index owner owners in
      if matches owner commitment owners preferred
      then some preferred
      else position_from owner commitment owners preferred 0 (suc (length owners))

  unfoldable pub commitment_with_sorted_add : ⦃e : Encoding⦄ → PublicKey → List PublicKey → Field
  commitment_with_sorted_add owner owners = compute_owner_chain (add_sorted owner owners)

-- `PublicKeyOption.none()`
abbrev pub no_owner : PublicKeyOption
no_owner = record { is_some = false; value = empty_key }

unfoldable pub get_witness : List PublicKey → OwnerWitness
get_witness owners =
    map (λ pk. record { is_some = true; value = pk }) owners
    ++ replicate (max_owners - length owners) no_owner
