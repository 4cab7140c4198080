-- ===== src/Owners.antt =====
-- contracts/src/list-commitment.ts: the hash chain that commits to the owner list, and the circuits
-- that check, extend and shorten it. A `forEach` over the slots is a recursion on the list, with
-- the loop's variables as arguments.
pub mod Chain
pub mod Setup
pub mod Membership
pub mod Change
pub mod Counts
use mina_guard.Base.{
  ℕ, zero, suc, ◌≡◌, Bool, true, false, List, [], ◌∷◌, map, Result, ok, require, forbid, ◌>>=◌,
  ◌>>◌, ◌&&◌, ◌||◌, not, ltb, ◌==◌, bit, if◌then◌else◌, String,
}
use mina_guard.Platform.{Field, PublicKey, PublicKeyOption, Platform, key_eq, is_empty, fadd}
use mina_guard.Constants.{initial_owner_chain}
use mina_guard.Hashes.{owner_chain_link}

-- `OwnerWitness.owners`, an array of `MAX_OWNERS` slots.
abbrev pub OwnerWitness : Type 0
OwnerWitness = List PublicKeyOption

module _ ⦃o : Platform⦄ where
  unfoldable pub owner_chain_from : Field → List PublicKey → Field
  owner_chain_from chain [] = chain
  owner_chain_from chain (pk ∷ owners) = owner_chain_from (owner_chain_link chain pk) owners

  unfoldable pub compute_owner_chain : List PublicKey → Field
  unfolding owner_chain_from
  compute_owner_chain owners = owner_chain_from initial_owner_chain owners

  -- The loop of `computeSetupOwnersChain` from slot `i` on.
  unfoldable pub setup_chain_from : ℕ → Field → ℕ → List PublicKey → Field
  setup_chain_from num_owners chain i [] = chain
  setup_chain_from num_owners chain i (pk ∷ owners) =
      let active = ltb i num_owners in
      let next = owner_chain_link chain pk in
      setup_chain_from num_owners (if active then next else chain) (suc i) owners

  unfoldable pub compute_setup_owners_chain : List PublicKey → Field → Field
  unfolding setup_chain_from
  compute_setup_owners_chain owners num_owners =
      setup_chain_from num_owners initial_owner_chain 0 owners

  -- `toGroup` of the key, or of the generator in an unchecked slot.
  unfoldable pub assert_on_curve_if : Bool → PublicKey → Result (Unit {0})
  assert_on_curve_if check pk =
      require (o.is_point (if check then pk else o.generator_key)) "toGroup: not a curve point"

  -- The inner loop: slot `i`, with its key and its flag, against the slots from `j` on.
  unfoldable pub check_later : ℕ → PublicKey → Bool → ℕ → List PublicKey → Result (Unit {0})
  check_later num_owners owner active j [] = ok tt
  check_later num_owners owner active j (other ∷ owners) = do
    forbid (owner.x == other.x && active && ltb j num_owners) "Duplicate owner in setup list"
    check_later num_owners owner active (suc j) owners

  unfoldable pub check_slots : ℕ → ℕ → List PublicKey → Result (Unit {0})
  unfolding check_later
  check_slots num_owners i [] = ok tt
  check_slots num_owners i (owner ∷ owners) = do
    require (ltb i num_owners || is_empty owner) "Padding slot must be empty"
    forbid (ltb i num_owners && is_empty owner) "Active owner must be non-empty"
    assert_on_curve_if (ltb i num_owners) owner
    check_later num_owners owner (ltb i num_owners) (suc i) owners
    check_slots num_owners (suc i) owners

  unfoldable pub assert_coherent_setup_owners : List PublicKey → Field → Result (Unit {0})
  unfolding check_slots
  assert_coherent_setup_owners owners num_owners = check_slots num_owners 0 owners

  -- The loop of `assertOwnerMembership`: `found` and `currentChain` after the last slot.
  unfoldable pub membership_loop : PublicKey → Bool → Field → OwnerWitness → Bool × Field
  membership_loop claimed found chain [] = (found, chain)
  membership_loop claimed found chain (slot ∷ slots) =
      membership_loop claimed (if key_eq claimed slot.value && slot.is_some then true else found)
        (if slot.is_some then owner_chain_link chain slot.value else chain) slots

  unfoldable pub assert_owner_membership : Field → PublicKey → OwnerWitness → Result (Unit {0})
  unfolding membership_loop
  assert_owner_membership owner_commitment claimed slots =
      let (found, chain) = membership_loop claimed false initial_owner_chain slots in
      do
        require found "Claimed owner not a member of owners."
        require (chain == owner_commitment) "Owner list mismatch"

  -- The loop of `addOwnerToCommitment`: `currentChain`, `newChain`, `foundOwner` and
  -- `foundPosition` after the last slot.
  unfoldable pub add_loop :
      PublicKey
      → PublicKeyOption
      → Field
      → Field
      → Bool
      → Bool
      → OwnerWitness
      → Field × Field × Bool × Bool
  add_loop owner insert_after current new found_owner found_position [] =
      (current, new, found_owner, found_position)
  add_loop owner insert_after current new found_owner found_position (slot ∷ slots) =
      let extended = if slot.is_some then owner_chain_link new slot.value else new in
      let is_position =
        key_eq slot.value insert_after.value && slot.is_some && insert_after.is_some in
      add_loop owner insert_after
        (if slot.is_some then owner_chain_link current slot.value else current)
        (if is_position then owner_chain_link extended owner else extended)
        (if slot.value.x == owner.x && slot.is_some then true else found_owner)
        (if is_position then true else found_position) slots

  unfoldable pub add_owner_to_commitment :
      Field → PublicKey → OwnerWitness → PublicKeyOption → Field × Bool
  unfolding add_loop
  add_owner_to_commitment owner_commitment owner slots insert_after =
      let prepend = not insert_after.is_some in
      let start =
        if prepend then owner_chain_link initial_owner_chain owner else initial_owner_chain in
      let (current, new, found_owner, found_position) =
        add_loop owner insert_after initial_owner_chain start false prepend slots in
      (new, not found_owner && found_position && current == owner_commitment)

  -- The loop of `removeOwnerFromCommitment`: `currentChain`, `newChain`, `foundOwner` and
  -- `remaining` after the last slot.
  unfoldable pub remove_loop :
      PublicKey → Field → Field → Bool → Field → OwnerWitness → Field × Field × Bool × Field
  remove_loop owner current new found_owner remaining [] = (current, new, found_owner, remaining)
  remove_loop owner current new found_owner remaining (slot ∷ slots) =
      let is_position = key_eq slot.value owner && slot.is_some in
      remove_loop owner (if slot.is_some then owner_chain_link current slot.value else current)
        (if slot.is_some && not is_position then owner_chain_link new slot.value else new)
        (if is_position then true else found_owner)
        (fadd remaining (bit (slot.is_some && not is_position))) slots

  unfoldable pub remove_owner_from_commitment : Field → PublicKey → OwnerWitness → Field × Bool
  unfolding remove_loop
  remove_owner_from_commitment owner_commitment owner slots =
      let (current, new, found_owner, remaining) =
        remove_loop owner initial_owner_chain initial_owner_chain false 0 slots in
      (new, found_owner && current == owner_commitment && ltb 0 remaining)
