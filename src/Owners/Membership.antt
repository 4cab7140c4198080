-- ===== src/Owners/Membership.antt =====
-- `assertOwnerMembership`: theorems on who is accepted.
use mina_guard.Base.{
  ◌≡◌, ◌↔◌, subst, Bool, true, List, [], ◌∷◌, any, In, inl, inr, ok, ◌&&◌, ◌||◌, if◌then◌else◌,
  Bool-cases, arith,
}
use mina_guard.Platform.{Field, PublicKey, Platform, key_eq, key_eq→eq, key_eq_refl}
use mina_guard.Platform.Laws.{HashLaws}
use mina_guard.Hashes.{owner_chain_link}
use mina_guard.Owners.{
  OwnerWitness, owner_chain_from, compute_owner_chain, membership_loop, assert_owner_membership,
}
use mina_guard.Owners.Chain.{compute_owner_chain-injective}

-- The owners in the slots that are `some`.
abbrev pub present : OwnerWitness → List PublicKey
present [] = []
present (slot ∷ slots) =
    let rest = present slots in if slot.is_some then slot.value ∷ rest else rest

pub any-key_eq→In : (pk : PublicKey) (xs : List PublicKey) → any (key_eq pk) xs ≡ true → In pk xs
any-key_eq→In pk [] e = cc
any-key_eq→In pk (x ∷ xs) e = elim (Bool-cases (key_eq pk x)) [
  | inl same ↦ inl (key_eq→eq pk x same)
  | inr other ↦ inr (any-key_eq→In pk xs (rw other at e))
]

pub In→any-key_eq : (pk : PublicKey) (xs : List PublicKey) → In pk xs → any (key_eq pk) xs ≡ true
In→any-key_eq pk [] m = elim m [ ]
In→any-key_eq pk (x ∷ xs) (inl e) = rw (← e) (rw (key_eq_refl pk))
In→any-key_eq pk (x ∷ xs) (inr m) = ground (arith, In→any-key_eq pk xs m)

module _ ⦃o : Platform⦄ where
  membership_loop_lem :
      (claimed : PublicKey) (found : Bool) (c : Field) (w : OwnerWitness)
      → membership_loop claimed found c w
        ≡ (found || any (key_eq claimed) (present w), owner_chain_from c (present w))
  unfolding membership_loop owner_chain_from
  membership_loop_lem claimed found c [] = ground arith
  membership_loop_lem claimed found c (slot ∷ slots) = ground (
    arith,
    membership_loop_lem claimed (if key_eq claimed slot.value && slot.is_some then true else found)
        (if slot.is_some then owner_chain_link c slot.value else c) slots,
  )

  -- The membership circuit accepts exactly when the claimed key stands in the witnessed list and
  -- the owner chain of that list is the given commitment.
  pub assert_owner_membership_iff :
      (commitment : Field) (claimed : PublicKey) (w : OwnerWitness)
      → (assert_owner_membership commitment claimed w ≡ ok tt)
        ↔ (In claimed (present w) × (compute_owner_chain (present w) ≡ commitment))
  unfolding assert_owner_membership compute_owner_chain
  assert_owner_membership_iff commitment claimed w = rw membership_loop_lem (
    (λ e. ground (arith, any-key_eq→In claimed (present w))),
    (λ e. ground (arith, In→any-key_eq claimed (present w) e.0)),
  )

-- Where hashes do not collide: against the commitment of a list of owners, the membership circuit
-- accepts only members of that list, whatever the witness.
pub assert_owner_membership_sound :
    ⦃o : Platform⦄ (h : HashLaws o) (owners : List PublicKey) (claimed : PublicKey)
    (w : OwnerWitness)
    → assert_owner_membership (compute_owner_chain owners) claimed w ≡ ok tt
    → In claimed owners
assert_owner_membership_sound h owners claimed w e =
    let (member, same) = (assert_owner_membership_iff (compute_owner_chain owners) claimed w).0 e in
    subst (In claimed) (compute_owner_chain-injective h (present w) owners same) member
