-- ===== src/Guard/Execute/OwnerChange.antt =====
-- `executeOwnerChange`: theorems on the owner list behind the commitment.
use mina_guard.Base.{
  ◌≤◌, ◌≡◌, ◌≢◌, ◌⊎◌, sym, ap, subst, ◌∙◌, true, false, List, [], ◌∷◌, length, any, ok, ◌==◌, not,
  get_or, if◌then◌else◌, Bool-cases, inl, inr, ==_iff, &&-true, arith,
}
use mina_guard.Platform.{
  Field, PublicKey, MerkleMapWitness, PublicKeyOption, Platform, fadd, fsub, fadd_lem, fsub_lem,
}
use mina_guard.Platform.Laws.{HashLaws}
use mina_guard.Constants.{max_owners, add_owner_type, remove_owner_type}
use mina_guard.Owners.{
  OwnerWitness, compute_owner_chain, add_owner_to_commitment, remove_owner_from_commitment,
}
use mina_guard.Owners.Chain.{compute_owner_chain-injective, compute_owner_chain-nonzero}
use mina_guard.Owners.Setup.{XDistinct}
use mina_guard.Owners.Membership.{present}
use mina_guard.Owners.Change.{
  with_owner, without_owner, same_x, is_key, has_position, add_owner_to_commitment_lem,
  remove_owner_from_commitment_lem,
}
use mina_guard.Owners.Counts.{with_owner-grows, XDistinct-without_owner, length-without_owner}
use mina_guard.Proposal.{TransactionProposal, empty_receiver}
use mina_guard.Guard.{Guard, Env, Outcome}
use mina_guard.Guard.Checks.{get_initialized_owners_commitment}
use mina_guard.Guard.Execute.{execute_owner_change}

-- The owner that the proposal adds or removes.
abbrev pub target_owner : TransactionProposal → PublicKey
target_owner p = (get_or p.receivers 0 empty_receiver).address

-- The list after the proposal.
abbrev pub changed : TransactionProposal → PublicKeyOption → List PublicKey → List PublicKey
changed p after owners =
    if p.tx_type == remove_owner_type
    then without_owner (target_owner p) owners
    else with_owner (target_owner p) after owners

present_bound : (w : OwnerWitness) → length (present w) ≤ length w
present_bound [] = omega arith
present_bound (slot ∷ slots) = ground (arith, present_bound slots)

module _ ⦃o : Platform⦄ where
  -- The commitment stands for `owners`, which have distinct x-coordinates and are all counted.
  pub record HasOwners (s : Guard) (owners : List PublicKey) : Type 0 where
    pub commitment : s.owners_commitment ≡ compute_owner_chain owners
    pub counted : s.num_owners ≡ length owners
    pub distinct : XDistinct owners

  -- The witnessed list of a valid change is the list that the commitment stands for.
  witnessed_owners :
      (h : HashLaws o) (owners : List PublicKey) (c : Field) (w : OwnerWitness)
      → c ≡ compute_owner_chain owners
      → (compute_owner_chain (present w) == c) ≡ true
      → present w ≡ owners
  witnessed_owners h owners c w e same =
      compute_owner_chain-injective h (present w) owners ((==_iff _ c).0 same ∙ e)

  remove_valid :
      (h : HashLaws o) (owners : List PublicKey) (c : Field) (t : PublicKey) (w : OwnerWitness)
      → length w ≡ max_owners
      → c ≡ compute_owner_chain owners
      → (remove_owner_from_commitment c t w).1 ≡ true
      → ((remove_owner_from_commitment c t w).0 ≡ compute_owner_chain (without_owner t owners))
        × (any (is_key t) owners ≡ true)
  remove_valid h owners c t w len e v =
      let big = o.order_large in
      let lem = remove_owner_from_commitment_lem c t w (omega (arith, present_bound w)) in
      let parts = &&-true _ _ (&&-true _ _ (sym (ap (λ r. r.1) lem) ∙ v)).0 in
      let same = witnessed_owners h owners c w e parts.1 in
      (
        ap (λ r. r.0) lem ∙ ap (λ xs. compute_owner_chain (without_owner t xs)) same,
        subst (λ xs. any (is_key t) xs ≡ true) same parts.0,
      )

  add_valid :
      (h : HashLaws o) (owners : List PublicKey) (c : Field) (t : PublicKey) (w : OwnerWitness)
      (a : PublicKeyOption)
      → c ≡ compute_owner_chain owners
      → (add_owner_to_commitment c t w a).1 ≡ true
      → ((add_owner_to_commitment c t w a).0 ≡ compute_owner_chain (with_owner t a owners))
        × (any (same_x t) owners ≡ false)
        × (has_position a owners ≡ true)
  add_valid h owners c t w a e v =
      let lem = add_owner_to_commitment_lem c t w a in
      let parts = &&-true _ _ (sym (ap (λ r. r.1) lem) ∙ v) in
      let places = &&-true (not (any (same_x t) (present w))) _ parts.0 in
      let same = witnessed_owners h owners c w e parts.1 in
      (
        ap (λ r. r.0) lem ∙ ap (λ xs. compute_owner_chain (with_owner t a xs)) same,
        subst (λ xs. any (same_x t) xs ≡ false) same (ground (arith, places.0)),
        subst (λ xs. has_position a xs ≡ true) same places.1,
      )

  module _ (env : Env) (s : Guard) (p : TransactionProposal) (w : MerkleMapWitness) (n : Field)
      (ow : OwnerWitness) (after : PublicKeyOption) where
    -- The guards of the method, as equations.
    owner_change_guards :
        {out : Outcome}
        → execute_owner_change env s p w n ow after ≡ ok out
        → ((p.tx_type ≡ remove_owner_type)
            × ((remove_owner_from_commitment s.owners_commitment (target_owner p) ow).1 ≡ true)
            × (out.state.owners_commitment
                ≡ (remove_owner_from_commitment s.owners_commitment (target_owner p) ow).0)
            × (out.state.num_owners ≡ fsub (fadd s.num_owners 0) 1))
          ⊎ ((p.tx_type ≡ add_owner_type)
              × ((add_owner_to_commitment s.owners_commitment (target_owner p) ow after).1 ≡ true)
              × (out.state.owners_commitment
                  ≡ (add_owner_to_commitment s.owners_commitment (target_owner p) ow after).0)
              × (out.state.num_owners ≡ fsub (fadd s.num_owners 1) 0)
              × (out.state.owners_commitment ≡ p.payload))
    unfolding execute_owner_change get_initialized_owners_commitment
    owner_change_guards {out} e = elim (Bool-cases (p.tx_type == remove_owner_type)) [
      | inl r ↦ inl (ground arith, ground arith, ground arith, ground arith)
      | inr r ↦ inr (ground arith, ground arith, ground arith, ground arith, ground arith)
    ]

    -- An owner change leaves the guard initialised.
    pub execute_owner_change-nonzero :
        (h : HashLaws o) {out : Outcome}
        → length ow ≡ max_owners
        → execute_owner_change env s p w n ow after ≡ ok out
        → out.state.owners_commitment ≢ 0
    execute_owner_change-nonzero h {out} len e zero_after =
        let big = o.order_large in
        let bound = present_bound ow in
        elim (owner_change_guards e) [
          | inl (r, valid, c, k) ↦
              compute_owner_chain-nonzero h (without_owner (target_owner p) (present ow)) (
                cc (
                  c,
                  zero_after,
                  remove_owner_from_commitment_lem s.owners_commitment (target_owner p) ow
                      (omega arith),
                ))
          | inr (r, valid, c, k, b) ↦
              compute_owner_chain-nonzero h (with_owner (target_owner p) after (present ow)) (
                cc (
                  c,
                  zero_after,
                  add_owner_to_commitment_lem s.owners_commitment (target_owner p) ow after,
                ))
        ]

    -- Where hashes do not collide, the commitment stands for a list of at most `MAX_OWNERS`
    -- owners and the witness has `MAX_OWNERS` slots: an owner change that succeeds turns the list
    -- into the list without the removed owner, or with the added owner behind the given key or in
    -- front, and the count and the distinctness follow.
    pub execute_owner_change-HasOwners :
        (h : HashLaws o) (owners : List PublicKey) {out : Outcome}
        → HasOwners s owners
        → length owners ≤ max_owners
        → length ow ≡ max_owners
        → execute_owner_change env s p w n ow after ≡ ok out
        → HasOwners out.state (changed p after owners)
    execute_owner_change-HasOwners h owners {out} has small len e = elim (owner_change_guards e) [
      | inl (r, valid, c, k) ↦
          let v =
            remove_valid h owners s.owners_commitment (target_owner p) ow len has.commitment
              valid in
          let big = o.order_large in
          let shorter = length-without_owner (target_owner p) owners has.distinct v.1 in
          rw r (record {
            commitment = c ∙ v.0;
            counted = omega (
              arith,
              k,
              has.counted,
              shorter,
              fadd_lem s.num_owners 0,
              fsub_lem (fadd s.num_owners 0) 1,
            );
            distinct = XDistinct-without_owner (target_owner p) owners has.distinct;
          })
      | inr (r, valid, c, k, bound) ↦
          let v =
            add_valid h owners s.owners_commitment (target_owner p) ow after has.commitment valid in
          let big = o.order_large in
          let longer = with_owner-grows (target_owner p) after owners has.distinct v.1 v.2 in
          rw r (record {
            commitment = c ∙ v.0;
            counted = omega (
              arith,
              k,
              has.counted,
              longer.1,
              fadd_lem s.num_owners 1,
              fsub_lem (fadd s.num_owners 1) 0,
            );
            distinct = longer.0;
          })
    ]
