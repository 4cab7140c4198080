-- ===== src/Owners/Counts.antt =====
-- Insertions and removals on lists whose keys have distinct x-coordinates: lemmas for owner
-- changes.
use mina_guard.Base.{
  suc, ◌≡◌, ◌≢◌, refl, true, false, List, [], ◌∷◌, any, All, length, ◌&&◌, Bool-cases, inl, inr,
  arith,
}
use mina_guard.Platform.{PublicKey, PublicKeyOption, key_eq}
use mina_guard.Owners.Setup.{XDistinct}
use mina_guard.Owners.Change.{inserted, with_owner, without_owner, same_x, is_key, has_position}

-- Whether `pk` shares no x-coordinate with the list.
abbrev pub Apart : PublicKey → List PublicKey → Type 0
Apart pk = All (λ other. pk.x ≢ other.x)

pub Apart-no_key :
    (pk k : PublicKey) (xs : List PublicKey)
    → Apart pk xs
    → key_eq pk k ≡ true
    → any (is_key k) xs ≡ false
Apart-no_key pk k [] h e = refl
Apart-no_key pk k (x ∷ xs) h e = ground (arith, Apart-no_key pk k xs h.1)

no_same_x-Apart : (pk : PublicKey) (xs : List PublicKey) → any (same_x pk) xs ≡ false → Apart pk xs
no_same_x-Apart pk [] e = tt
no_same_x-Apart pk (x ∷ xs) e = (ground arith, no_same_x-Apart pk xs (ground arith))

pub inserted-no_key :
    (owner : PublicKey) (a : PublicKeyOption) (xs : List PublicKey)
    → any (is_key a.value) xs ≡ false
    → inserted owner a xs ≡ xs
inserted-no_key owner a [] e = refl
inserted-no_key owner a (x ∷ xs) e = ground (arith, inserted-no_key owner a xs)

Apart-inserted :
    (pk owner : PublicKey) (a : PublicKeyOption) (xs : List PublicKey)
    → Apart pk xs
    → pk.x ≢ owner.x
    → Apart pk (inserted owner a xs)
Apart-inserted pk owner a [] h n = tt
Apart-inserted pk owner a (x ∷ xs) h n = ground (arith, Apart-inserted pk owner a xs h.1)

XDistinct-inserted :
    (owner : PublicKey) (a : PublicKeyOption) (xs : List PublicKey)
    → XDistinct xs
    → any (same_x owner) xs ≡ false
    → XDistinct (inserted owner a xs)
XDistinct-inserted owner a [] d e = tt
XDistinct-inserted owner a (x ∷ xs) d e = elim (Bool-cases (key_eq x a.value && a.is_some)) [
  | inl here ↦
      let rest = inserted-no_key owner a xs (Apart-no_key x a.value xs d.0 (ground arith)) in
      rw (here, rest) ((ground arith, d.0), (no_same_x-Apart owner xs (ground arith), d.1))
  | inr there ↦ rw there (
    Apart-inserted x owner a xs d.0 (ground arith),
    XDistinct-inserted owner a xs d.1 (ground arith),
  )
]

length-inserted :
    (owner : PublicKey) (a : PublicKeyOption) (xs : List PublicKey)
    → XDistinct xs
    → a.is_some ≡ true
    → any (is_key a.value) xs ≡ true
    → length (inserted owner a xs) ≡ suc (length xs)
length-inserted owner a [] d s e = cc
length-inserted owner a (x ∷ xs) d s e = elim (Bool-cases (key_eq x a.value)) [
  | inl here ↦ rw (here, s, inserted-no_key owner a xs (Apart-no_key x a.value xs d.0 here))
  | inr there ↦ ground (arith, length-inserted owner a xs d.1 s)
]

-- A valid addition keeps the keys distinct and adds one owner.
pub with_owner-grows :
    (owner : PublicKey) (a : PublicKeyOption) (xs : List PublicKey)
    → XDistinct xs
    → any (same_x owner) xs ≡ false
    → has_position a xs ≡ true
    → XDistinct (with_owner owner a xs) × (length (with_owner owner a xs) ≡ suc (length xs))
with_owner-grows owner a xs d e p =
    ground (
      arith,
      no_same_x-Apart owner xs,
      XDistinct-inserted owner a xs d,
      length-inserted owner a xs d,
    )

without_owner-no_key :
    (owner : PublicKey) (xs : List PublicKey)
    → any (is_key owner) xs ≡ false
    → without_owner owner xs ≡ xs
without_owner-no_key owner [] e = refl
without_owner-no_key owner (x ∷ xs) e = ground (arith, without_owner-no_key owner xs)

Apart-without_owner :
    (pk owner : PublicKey) (xs : List PublicKey) → Apart pk xs → Apart pk (without_owner owner xs)
Apart-without_owner pk owner [] h = tt
Apart-without_owner pk owner (x ∷ xs) h = ground (arith, Apart-without_owner pk owner xs h.1)

pub XDistinct-without_owner :
    (owner : PublicKey) (xs : List PublicKey) → XDistinct xs → XDistinct (without_owner owner xs)
XDistinct-without_owner owner [] d = tt
XDistinct-without_owner owner (x ∷ xs) d =
    ground (arith, Apart-without_owner x owner xs d.0, XDistinct-without_owner owner xs d.1)

-- Removing an owner that is there takes one owner off.
pub length-without_owner :
    (owner : PublicKey) (xs : List PublicKey)
    → XDistinct xs
    → any (is_key owner) xs ≡ true
    → suc (length (without_owner owner xs)) ≡ length xs
length-without_owner owner [] d e = cc
length-without_owner owner (x ∷ xs) d e = elim (Bool-cases (key_eq x owner)) [
  | inl here ↦ rw (here, without_owner-no_key owner xs (Apart-no_key x owner xs d.0 here))
  | inr there ↦ ground (arith, length-without_owner owner xs d.1)
]
