-- ===== src/Storage/Positions.antt =====
-- `insertPositionFor` of `class OwnerStore`: theorems on the position found, and on the order.
use mina_guard.Base.{
  In, subst, ℕ, zero, suc, ◌+◌, ◌≤◌, ◌<◌, ◌≡◌, ◌≢◌, ◌∙◌, sym, ap, refl, Bool, true, false,
  false≢true, none, some, List, [], ◌∷◌, ◌++◌, length, any, ◌==◌, ==_iff, if◌then◌else◌, Bool-cases,
  Option-cases, inl, inr, arith,
}
use mina_guard.Platform.{Field, PublicKey, PublicKeyOption, Platform, key_eq}
use mina_guard.Platform.Laws.{HashLaws}
use mina_guard.Owners.{compute_owner_chain}
use mina_guard.Owners.Chain.{compute_owner_chain-injective}
use mina_guard.Owners.Setup.{XDistinct}
use mina_guard.Owners.Change.{inserted, with_owner, is_key, has_position}
use mina_guard.Owners.Counts.{inserted-no_key, Apart-no_key}
use mina_guard.Storage.Order.{Ascending, add_sorted-Ascending}
use mina_guard.Storage.{
  add_sorted, commitment_with_sorted_add, Encoding, find_index, inserted_at, comes_after,
  sorted_index, matches, position_from, insert_position_for,
}

find_index-bound :
    (test : PublicKey → Bool) (xs : List PublicKey) (i : ℕ)
    → find_index test xs ≡ some i
    → i < length xs
find_index-bound test [] i f = cc
find_index-bound test (x ∷ xs) i f = elim (Bool-cases (test x)) [
  | inl hit ↦ ground arith
  | inr miss ↦ elim (Option-cases (find_index test xs)) [
    | inl nowhere ↦ ground arith
    | inr (j, found) ↦ ground (arith, find_index-bound test xs j found)
  ]
]

sorted_index-bound :
    ⦃e : Encoding⦄ (owner : PublicKey) (owners : List PublicKey)
    → sorted_index owner owners ≤ length owners
unfolding sorted_index
sorted_index-bound owner owners = elim (Option-cases (find_index (comes_after owner) owners)) [
  | inl nowhere ↦ ground arith
  | inr (i, found) ↦ ground (arith, find_index-bound (comes_after owner) owners i found)
]

-- An insertion behind a key that is there is an insertion at a position.
inserted-position :
    (owner : PublicKey) (a : PublicKeyOption) (xs : List PublicKey)
    → XDistinct xs
    → a.is_some ≡ true
    → any (is_key a.value) xs ≡ true
    → (i : ℕ) × (i ≤ length xs) × (inserted owner a xs ≡ inserted_at i owner xs)
inserted-position owner a [] d s h = cc
inserted-position owner a (x ∷ xs) d s h = elim (Bool-cases (key_eq x a.value)) [
  | inl here ↦ (
    1,
    omega arith,
    rw (here, s, inserted-no_key owner a xs (Apart-no_key x a.value xs d.0 here)) refl,
  )
  | inr there ↦
      let (i, small, same) = inserted-position owner a xs d.1 s (ground arith) in
      (suc i, omega arith, rw there (ap (λ (ys : List PublicKey). x ∷ ys) same))
]

with_owner-position :
    (owner : PublicKey) (a : PublicKeyOption) (xs : List PublicKey)
    → XDistinct xs
    → has_position a xs ≡ true
    → (i : ℕ) × (i ≤ length xs) × (with_owner owner a xs ≡ inserted_at i owner xs)
with_owner-position owner a xs d h = elim (Bool-cases a.is_some) [
  | inl some_key ↦
      let (i, small, same) = inserted-position owner a xs d some_key (ground arith) in
      (i, small, ap (λ (b : Bool). if b then inserted owner a xs else owner ∷ xs) some_key ∙ same)
  | inr prepend ↦ (0, omega arith, rw prepend refl)
]

module _ ⦃o : Platform⦄ (owner : PublicKey) (c : Field) (owners : List PublicKey) where
  position_from-found :
      (preferred i count j : ℕ)
      → position_from owner c owners preferred i count ≡ some j
      → (j < i + count) × (matches owner c owners j ≡ true)
  unfolding position_from
  position_from-found preferred i zero j f = cc
  position_from-found preferred i (suc count) j f =
      let later = position_from-found preferred (suc i) count j in ground (arith, later)

  position_from-missing :
      (preferred i count : ℕ)
      → position_from owner c owners preferred i count ≡ none
      → (j : ℕ) → i ≤ j
      → j < i + count
      → j ≢ preferred
      → matches owner c owners j ≡ false
  unfolding position_from
  position_from-missing preferred i zero f j low high other = absurd (omega arith)
  position_from-missing preferred i (suc count) f j low high other = elim (Bool-cases (i == j)) [
    | inl now ↦
        let same = (==_iff i j).0 now in ap (matches owner c owners) (sym same) ∙ ground arith
    | inr later ↦
        position_from-missing preferred (suc i) count (ground arith) j (ground arith) (omega arith)
          other
  ]

  -- A position that the store finds is one in the list, and inserting there gives the commitment.
  pub insert_position_for-found :
      ⦃e : Encoding⦄ (i : ℕ)
      → insert_position_for owner c owners ≡ some i
      → (i ≤ length owners) × (compute_owner_chain (inserted_at i owner owners) ≡ c)
  unfolding insert_position_for matches
  insert_position_for-found i f =
      let bound = sorted_index-bound owner owners in
      ground (arith, position_from-found (sorted_index owner owners) 0 (suc (length owners)) i)

  insert_position_for-missing :
      ⦃e : Encoding⦄
      → insert_position_for owner c owners ≡ none
      → (i : ℕ) → i ≤ length owners
      → compute_owner_chain (inserted_at i owner owners) ≢ c
  unfolding insert_position_for matches
  insert_position_for-missing f i small hit = elim (Bool-cases (i == sorted_index owner owners)) [
    | inl preferred ↦
        let same = (==_iff i (sorted_index owner owners)).0 preferred in
        ground (arith, ap (λ (k : ℕ). compute_owner_chain (inserted_at k owner owners)) same)
    | inr other ↦
        let rest : position_from owner c owners (sorted_index owner owners) 0 (suc (length owners))
            ≡ none =
          ground arith in
        let missed =
          position_from-missing (sorted_index owner owners) 0 (suc (length owners)) rest i
            (omega arith) (omega arith) (ground arith) in
        false≢true
          (sym missed ∙ (==_iff (compute_owner_chain (inserted_at i owner owners)) c).1 hit)
  ]

-- Where hashes do not collide, the keys have distinct x-coordinates and the place of the
-- insertion is there: for the commitment that an on-chain addition installs, the store finds a
-- position, and inserting there gives the on-chain list.
pub insert_position_for-with_owner :
    ⦃o : Platform⦄ ⦃e : Encoding⦄ (h : HashLaws o) (owner : PublicKey) (a : PublicKeyOption)
    (owners : List PublicKey)
    → XDistinct owners
    → has_position a owners ≡ true
    → (i : ℕ) × (insert_position_for owner (compute_owner_chain (with_owner owner a owners)) owners
        ≡ some i)
      × (inserted_at i owner owners ≡ with_owner owner a owners)
insert_position_for-with_owner h owner a owners d place =
    let c = compute_owner_chain (with_owner owner a owners) in
    elim (Option-cases (insert_position_for owner c owners)) [
      | inl missing ↦
          let (i, small, same) = with_owner-position owner a owners d place in
          absurd (
            insert_position_for-missing owner c owners missing i small
              (sym (ap compute_owner_chain same)))
      | inr (i, found) ↦ (
        i,
        found,
        compute_owner_chain-injective h (inserted_at i owner owners) (with_owner owner a owners)
            (insert_position_for-found owner c owners i found).1,
      )
    ]

module _ ⦃e : Encoding⦄ where
  inserted_at-end :
      (owner : PublicKey) (owners : List PublicKey)
      → inserted_at (length owners) owner owners ≡ owners ++ owner ∷ []
  inserted_at-end owner [] = refl
  inserted_at-end owner (x ∷ xs) = ap (λ (ys : List PublicKey). x ∷ ys) (inserted_at-end owner xs)

  inserted_at-sorted_index :
      (owner : PublicKey) (owners : List PublicKey)
      → inserted_at (sorted_index owner owners) owner owners ≡ add_sorted owner owners
  unfolding sorted_index add_sorted
  inserted_at-sorted_index owner owners =
      elim (Option-cases (find_index (comes_after owner) owners)) [
        | inl nowhere ↦ ground (arith, inserted_at-end owner owners)
        | inr (i, found) ↦ ground arith
      ]

  insert_position_for-sorted :
      ⦃o : Platform⦄ (owner : PublicKey) (owners : List PublicKey)
      → insert_position_for owner (commitment_with_sorted_add owner owners) owners
        ≡ some (sorted_index owner owners)
  unfolding insert_position_for commitment_with_sorted_add matches
  insert_position_for-sorted owner owners =
      let same = inserted_at-sorted_index owner owners in
      let hit =
        (==_iff (compute_owner_chain (inserted_at (sorted_index owner owners) owner owners))
            (compute_owner_chain (add_sorted owner owners))).1
          (ap compute_owner_chain same) in
      rw hit refl

  -- Where hashes do not collide, for a new key and a list of keys with distinct x-coordinates in
  -- ascending order of their base58 texts: for the commitment that the store computes for an
  -- addition in sorted order, the search finds a position, and the list with the key inserted
  -- there is in ascending order; for the commitment that an on-chain addition behind a given key
  -- of the list, or in front, installs, the search finds a position, and inserting there gives
  -- the on-chain list.
  pub insert_position_for-add_sorted :
      ⦃o : Platform⦄ (h : HashLaws o) (owner : PublicKey) (a : PublicKeyOption)
      (owners : List PublicKey)
      → XDistinct owners
      → has_position a owners ≡ true
      → ¬ In owner owners
      → Ascending owners
      → ((i : ℕ) × (insert_position_for owner (commitment_with_sorted_add owner owners) owners
            ≡ some i)
          × Ascending (inserted_at i owner owners))
        × ((j : ℕ) × (insert_position_for owner
                (compute_owner_chain (with_owner owner a owners))
                owners
              ≡ some j)
            × (inserted_at j owner owners ≡ with_owner owner a owners))
  insert_position_for-add_sorted h owner a owners distinct place new up = (
    (
      sorted_index owner owners,
      insert_position_for-sorted owner owners,
      subst Ascending (sym (inserted_at-sorted_index owner owners))
          (add_sorted-Ascending owner owners new up),
    ),
    insert_position_for-with_owner h owner a owners distinct place,
  )
