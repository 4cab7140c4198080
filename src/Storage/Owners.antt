-- ===== src/Storage/Owners.antt =====
-- `class OwnerStore` against the circuits: theorems on its edits and its witness.
use mina_guard.Base.{
  ℕ, zero, suc, ◌⊎◌, ◌-◌, ◌≤◌, ◌≡◌, ◌↔◌, ◌∙◌, sym, ap, refl, subst, Bool, true, false, Option, none,
  some, List, [], ◌∷◌, ◌++◌, map, length, length-append, length-map, length-replicate, replicate,
  any, In, ok, Bool-cases, Option-cases, inl, inr, arith,
}
use text.Mathlib.TextEquality.{eq_iff}
use mina_guard.Platform.{PublicKey, PublicKeyOption, Platform, key_eq, key_eq→eq, key_eq_refl}
use mina_guard.Constants.{max_owners}
use mina_guard.Owners.{compute_owner_chain, assert_owner_membership}
use mina_guard.Owners.Setup.{XDistinct}
use mina_guard.Owners.Membership.{present, assert_owner_membership_iff}
use mina_guard.Owners.Change.{inserted, with_owner, without_owner}
use mina_guard.Owners.Counts.{inserted-no_key, Apart-no_key}
use mina_guard.Storage.{
  Encoding, find_index, inserted_at, same_text, insert_after, remove, is_owner, get_commitment,
  get_witness, no_owner,
}

-- The circuit's `insertAfter` argument for the store's.
abbrev pub as_option : Option PublicKey → PublicKeyOption
as_option none = no_owner
as_option (some k) = record { is_some = true; value = k }

find_index-cases :
    (test : PublicKey → Bool) (x : PublicKey) (xs : List PublicKey) (i : ℕ)
    → find_index test (x ∷ xs) ≡ some i
    → ((test x ≡ true) × (i ≡ 0))
      ⊎ ((test x ≡ false) × (j : ℕ) × (find_index test xs ≡ some j) × (i ≡ suc j))
find_index-cases test x xs i f = elim (Bool-cases (test x)) [
  | inl hit ↦ inl (hit, ground arith)
  | inr miss ↦ elim (Option-cases (find_index test xs)) [
    | inl nowhere ↦ ground arith
    | inr (j, found) ↦ inr (miss, j, found, ground arith)
  ]
]

module _ ⦃e : Encoding⦄ where
  -- Equal texts, equal keys: the store's test is the circuit's.
  same_text_lem : (a b : PublicKey) → same_text a b ≡ key_eq b a
  same_text_lem a b = elim (Bool-cases (key_eq b a)) [
    | inl same ↦
        (eq_iff (e.to_base58 b) (e.to_base58 a)).1 (ap e.to_base58 (key_eq→eq b a same)) ∙ sym same
    | inr other ↦ elim (Bool-cases (same_text a b)) [
      | inl equal ↦
          let keys = e.injective b a ((eq_iff (e.to_base58 b) (e.to_base58 a)).0 equal) in
          absurd (cc (other, ap (key_eq b) (sym keys), key_eq_refl b))
      | inr differ ↦ differ ∙ sym other
    ]
  ]

  -- Removing an owner from the store gives the list that the circuit for the removal commits to.
  pub remove_lem :
      (owner : PublicKey) (owners : List PublicKey)
      → remove owner owners ≡ without_owner owner owners
  unfolding remove
  remove_lem owner [] = refl
  remove_lem owner (x ∷ xs) = rw (same_text_lem owner x, remove_lem owner xs)

  find_index-inserted :
      (owner k : PublicKey) (xs : List PublicKey) (i : ℕ)
      → XDistinct xs
      → find_index (same_text k) xs ≡ some i
      → inserted_at (suc i) owner xs ≡ inserted owner (as_option (some k)) xs
  find_index-inserted owner k [] i d f = cc
  find_index-inserted owner k (x ∷ xs) i d f = elim (find_index-cases (same_text k) x xs i f) [
    | inl (hit, first) ↦
        let here = sym (same_text_lem k x) ∙ hit in
        rw (
          here,
          first,
          inserted-no_key owner (as_option (some k)) xs (Apart-no_key x k xs d.0 here),
        )
    | inr (miss, j, found, next) ↦
        let there = sym (same_text_lem k x) ∙ miss in
        rw (there, next)
          (ap (λ (ys : List PublicKey). x ∷ ys) (find_index-inserted owner k xs j d.1 found))
  ]

  -- Where the keys have distinct x-coordinates: an insertion that succeeds in the store gives the
  -- list that the circuit for the same insertion commits to.
  pub insert_after_lem :
      (owner : PublicKey) (after : Option PublicKey) (owners : List PublicKey)
      {changed : List PublicKey}
      → XDistinct owners
      → insert_after owner after owners ≡ ok changed
      → changed ≡ with_owner owner (as_option after) owners
  unfolding insert_after
  insert_after_lem owner none owners {changed} d h = ground arith
  insert_after_lem owner (some k) owners {changed} d h =
      elim (Option-cases (find_index (same_text k) owners)) [
        | inl missing ↦ ground arith
        | inr (i, found) ↦ ground (arith, find_index-inserted owner k owners i d found)
      ]

  -- The store's membership test is membership.
  pub is_owner_lem :
      (owner : PublicKey) (owners : List PublicKey)
      → (is_owner owner owners ≡ true) ↔ In owner owners
  unfolding is_owner
  is_owner_lem owner owners = ((λ h. found owners h), (λ m. listed owners m))
    where
      found : (xs : List PublicKey) → any (same_text owner) xs ≡ true → In owner xs
      found [] h = cc
      found (x ∷ xs) h = elim (Bool-cases (same_text owner x)) [
        | inl hit ↦ inl (sym (key_eq→eq x owner (sym (same_text_lem owner x) ∙ hit)))
        | inr miss ↦ inr (found xs (ground arith))
      ]

      listed : (xs : List PublicKey) → In owner xs → any (same_text owner) xs ≡ true
      listed [] m = elim m [ ]
      listed (x ∷ xs) (inl same) = rw (same_text_lem owner x, ← same, key_eq_refl owner)
      listed (x ∷ xs) (inr m) = ground (arith, listed xs m)

present-replicate : (n : ℕ) → present (replicate n no_owner) ≡ []
present-replicate zero = refl
present-replicate (suc n) = present-replicate n

present-padded :
    (owners : List PublicKey) (n : ℕ)
    → present (map (λ pk. record { is_some = true; value = pk }) owners ++ replicate n no_owner)
      ≡ owners
present-padded [] n = present-replicate n
present-padded (x ∷ xs) n = ap (λ (ys : List PublicKey). x ∷ ys) (present-padded xs n)

-- A store of at most `MAX_OWNERS` owners gives a witness with `MAX_OWNERS` slots, whose owners are
-- those of the store in their order.
pub get_witness_lem :
    (owners : List PublicKey)
    → length owners ≤ max_owners
    → (length (get_witness owners) ≡ max_owners) × (present (get_witness owners) ≡ owners)
unfolding get_witness
get_witness_lem owners small = (
  omega (
    arith,
    length-append (map slot owners) (replicate (max_owners - length owners) no_owner),
    length-map owners slot,
    length-replicate (max_owners - length owners) no_owner,
  ),
  present-padded owners (max_owners - length owners),
)
  where
    slot : PublicKey → PublicKeyOption
    slot pk = record { is_some = true; value = pk }

module _ ⦃o : Platform⦄ ⦃e : Encoding⦄ where
  -- With a store of at most `MAX_OWNERS` owners: the membership circuit accepts the store's
  -- witness against the store's commitment for exactly the keys that the store calls owners.
  pub is_owner-assert_owner_membership :
      (owner : PublicKey) (owners : List PublicKey)
      → length owners ≤ max_owners
      → (is_owner owner owners ≡ true)
        ↔ (assert_owner_membership (get_commitment owners) owner (get_witness owners) ≡ ok tt)
  unfolding get_commitment
  is_owner-assert_owner_membership owner owners small =
      let accepts =
        assert_owner_membership_iff (compute_owner_chain owners) owner (get_witness owners) in
      let same = (get_witness_lem owners small).1 in
      (
        (λ h. accepts.1 (
          subst (In owner) (sym same) ((is_owner_lem owner owners).0 h),
          ap compute_owner_chain same,
        )),
        (λ h. (is_owner_lem owner owners).1 (subst (In owner) same (accepts.0 h).0)),
      )
