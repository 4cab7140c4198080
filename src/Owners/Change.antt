-- ===== src/Owners/Change.antt =====
-- `addOwnerToCommitment` and `removeOwnerFromCommitment`: theorems on the changed list.
use mina_guard.Base.{
  suc, ◌+◌, ◌<◌, ◌≡◌, refl, Bool, true, false, List, [], ◌∷◌, filter, any, length, ◌&&◌, ◌||◌, not,
  ◌==◌, bit, ltb, if◌then◌else◌, Bool-cases, inl, inr, arith,
}
use mina_guard.Platform.{Field, PublicKey, PublicKeyOption, Platform, key_eq, fadd, fadd_lem}
use mina_guard.Constants.{initial_owner_chain}
use mina_guard.Hashes.{owner_chain_link}
use mina_guard.Owners.{
  OwnerWitness, owner_chain_from, compute_owner_chain, add_loop, add_owner_to_commitment,
  remove_loop, remove_owner_from_commitment,
}
use mina_guard.Owners.Membership.{present}

-- The list with `owner` behind each key that equals `insert_after`.
abbrev pub inserted : PublicKey → PublicKeyOption → List PublicKey → List PublicKey
inserted owner insert_after [] = []
inserted owner insert_after (pk ∷ owners) =
    let rest = inserted owner insert_after owners in
    if key_eq pk insert_after.value && insert_after.is_some then pk ∷ owner ∷ rest else pk ∷ rest

-- The list after the insertion: `none` prepends.
abbrev pub with_owner : PublicKey → PublicKeyOption → List PublicKey → List PublicKey
with_owner owner insert_after owners =
    if insert_after.is_some then inserted owner insert_after owners else owner ∷ owners

abbrev pub same_x : PublicKey → PublicKey → Bool
same_x owner pk = pk.x == owner.x

abbrev pub is_key : PublicKey → PublicKey → Bool
is_key owner pk = key_eq pk owner

abbrev pub is_other : PublicKey → PublicKey → Bool
is_other owner pk = not (key_eq pk owner)

abbrev pub without_owner : PublicKey → List PublicKey → List PublicKey
without_owner owner = filter (is_other owner)

-- Whether an insertion behind `insert_after` has a place in the list.
abbrev pub has_position : PublicKeyOption → List PublicKey → Bool
has_position insert_after owners =
    not insert_after.is_some || any (is_key insert_after.value) owners

inserted-none :
    (owner : PublicKey) (a : PublicKeyOption) (xs : List PublicKey)
    → a.is_some ≡ false
    → inserted owner a xs ≡ xs
inserted-none owner a [] e = refl
inserted-none owner a (x ∷ xs) e = ground (arith, inserted-none owner a xs e)

length-filter-le :
    (p : PublicKey → Bool) (xs : List PublicKey) → length (filter p xs) < suc (length xs)
length-filter-le p [] = omega arith
length-filter-le p (x ∷ xs) = ground (arith, length-filter-le p xs)

module _ ⦃o : Platform⦄ where
  add_loop_lem :
      (owner : PublicKey) (a : PublicKeyOption) (current new : Field) (fo fp : Bool)
      (w : OwnerWitness)
      → add_loop owner a current new fo fp w ≡ (
        owner_chain_from current (present w),
        owner_chain_from new (inserted owner a (present w)),
        fo || any (same_x owner) (present w),
        fp || (a.is_some && any (is_key a.value) (present w)),
      )
  unfolding add_loop owner_chain_from
  add_loop_lem owner a current new fo fp [] = ground arith
  add_loop_lem owner a current new fo fp (slot ∷ slots) =
      let extended = if slot.is_some then owner_chain_link new slot.value else new in
      let is_position = key_eq slot.value a.value && slot.is_some && a.is_some in
      ground (
        arith,
        add_loop_lem owner a (if slot.is_some then owner_chain_link current slot.value else current)
            (if is_position then owner_chain_link extended owner else extended)
            (if slot.value.x == owner.x && slot.is_some then true else fo)
            (if is_position then true else fp) slots,
      )

  -- The circuit that adds an owner returns the commitment of the list with the owner inserted,
  -- and holds it valid exactly if no owner has the new key's x-coordinate, the key to insert
  -- behind is there or none is given, and the witnessed list has the given commitment.
  pub add_owner_to_commitment_lem :
      (c : Field) (owner : PublicKey) (w : OwnerWitness) (a : PublicKeyOption)
      → add_owner_to_commitment c owner w a ≡ (
        compute_owner_chain (with_owner owner a (present w)),
        not (any (same_x owner) (present w))
            && has_position a (present w)
            && compute_owner_chain (present w) == c,
      )
  unfolding add_owner_to_commitment compute_owner_chain owner_chain_from
  add_owner_to_commitment_lem c owner w a = elim (Bool-cases a.is_some) [
    | inl some_key ↦ rw (some_key, add_loop_lem)
    | inr prepend ↦
        rw (prepend, add_loop_lem)
          (rw (inserted-none owner (record a { is_some = false }) (present w) refl))
  ]

  remove_loop_lem :
      (owner : PublicKey) (current new : Field) (fo : Bool) (n : Field) (w : OwnerWitness)
      → n + length (present w) < o.order
      → remove_loop owner current new fo n w ≡ (
        owner_chain_from current (present w),
        owner_chain_from new (without_owner owner (present w)),
        fo || any (is_key owner) (present w),
        n + length (without_owner owner (present w)),
      )
  unfolding remove_loop owner_chain_from
  remove_loop_lem owner current new fo n [] h = ground arith
  remove_loop_lem owner current new fo n (slot ∷ slots) h =
      let is_position = key_eq slot.value owner && slot.is_some in
      let counted = bit (slot.is_some && not is_position) in
      ground (
        arith,
        fadd_lem n counted,
        remove_loop_lem owner
            (if slot.is_some then owner_chain_link current slot.value else current)
            (if slot.is_some && not is_position then owner_chain_link new slot.value else new)
            (if is_position then true else fo) (fadd n counted) slots,
      )

  -- Where the list is shorter than the field's order: the circuit that removes an owner returns
  -- the commitment of the list without the owner, and holds it valid exactly if the owner is
  -- there, the witnessed list has the given commitment, and another owner remains.
  pub remove_owner_from_commitment_lem :
      (c : Field) (owner : PublicKey) (w : OwnerWitness)
      → length (present w) < o.order
      → remove_owner_from_commitment c owner w ≡ (
        compute_owner_chain (without_owner owner (present w)),
        any (is_key owner) (present w)
            && compute_owner_chain (present w) == c
            && ltb 0 (length (without_owner owner (present w))),
      )
  unfolding remove_owner_from_commitment compute_owner_chain
  remove_owner_from_commitment_lem c owner w h =
      ground (arith, remove_loop_lem owner initial_owner_chain initial_owner_chain false 0 w)
