-- ===== src/Examples/BasicWitnesses.antt =====
-- The theorems on owner lists, proposals and the network at concrete inputs.
use mina_guard.Platform.{mainnet, testnet, fadd, fsub}
use mina_guard.Constants.{initial_owner_chain, executed_marker, network_domain, network_domain_ids}
use mina_guard.Hashes.{
  vote_nullifier_key, proposal_signing_message, owner_chain_link, child_config_hash,
}
use mina_guard.Owners.{
  assert_coherent_setup_owners, check_slots, check_later, assert_on_curve_if,
  compute_setup_owners_chain, setup_chain_from, assert_owner_membership, membership_loop,
  add_owner_to_commitment, add_loop, remove_owner_from_commitment, remove_loop, compute_owner_chain,
  owner_chain_from,
}
use mina_guard.Proposal.{
  IsWellFormed, proposal_hash, receiver_fields, scalar_fields, at_most_one_receiver,
}
use mina_guard.Guard.Checks.{
  assert_parent_approval_state, assert_valid_remote_proposal, verify_parent_approval,
  assert_curr_account_is_child, assert_child_execution_witness_value,
  assert_and_increment_parent_nonce, bump_config_nonce, assert_enabled_if_child,
  get_initialized_owners_commitment, assert_merkle_witness_value, assert_local_proposal,
  assert_valid_proposal_config_network_and_guard, assert_proposal_config_network_and_guard,
  assert_proposal_destination_and_child_account, assert_proposal_not_expired,
  assert_fresh_proposal_nonce, assert_and_increment_local_nonce, assert_not_executed,
  assert_proposal_exists, assert_threshold_satisfied, assert_approval_witness_value, mark_executed,
  emit_receivers_event, execute_transfers, assert_valid_initial_governance,
}
use mina_guard.Guard.Setup.{
  reserve_for_parent, create_child_owner_events, execute_setup_child, setup, initialize_state,
  setup_owner_events,
}
use mina_guard.Guard.Propose.{
  propose, is_local_type, is_remote_type, is_known_type, is_transfer_like, allows_data,
  assert_zero_amounts, assert_receiver_slots, assert_proposal_rules,
}
use mina_guard.Guard.Approve.{approve_proposal}
use mina_guard.Guard.Execute.{
  execute_transfer, execute_allocate_to_children, allocate_payments, execute_owner_change,
}
use mina_guard.Guard.Child.{
  execute_reclaim_to_parent, execute_destroy, execute_enable_child_multi_sig,
}
use mina_guard.Base.{
  Option, String, none, ◌<◌, ◌≡◌, ◌≢◌, ◌↔◌, refl, true, [], ◌∷◌, In, ◌&&◌, ◌==◌, some, ok, arith,
}
use mina_guard.Owners.Setup.{IsCoherent, assert_coherent_setup_owners_iff}
use mina_guard.Owners.Membership.{assert_owner_membership_iff}
use mina_guard.Owners.Change.{add_owner_to_commitment_lem, remove_owner_from_commitment_lem}
use mina_guard.Proposal.Binding.{proposal_hash-injective, proposal_hash-network}
use mina_guard.Guard.Run.{call, cast}
use mina_guard.Examples.Pairing.{pair, packed, digit_count, digits_on, encode}
use mina_guard.Examples.Ideal.{ideal, ideal-HashLaws, codes, find, ideal_hash, ideal_path}
use mina_guard.Examples.Session.{
  succeeds, alice, bob, slots, transfer, outcome, state1, state2, state3,
}
use mina_guard.Examples.Family.{
  carol, pair_of_owners, reserved, child, after_bob, approving_addition,
}

IsWellFormed-transfer : IsWellFormed transfer
IsWellFormed-transfer = record { slots = refl }

proposal_hash-injective_example : transfer ≡ transfer
proposal_hash-injective_example =
    proposal_hash-injective ideal-HashLaws transfer transfer IsWellFormed-transfer
      IsWellFormed-transfer refl

proposal_hash-network_example :
    proposal_hash ⦃o = record ideal { network_domain_name = mainnet }⦄ transfer
    ≢ proposal_hash ⦃o = record ideal { network_domain_name = testnet }⦄ transfer
unfolding network_domain_ids
proposal_hash-network_example =
    proposal_hash-network ideal ideal-HashLaws mainnet testnet transfer transfer
      IsWellFormed-transfer IsWellFormed-transfer (λ e. omega arith)

assert_coherent_setup_owners_iff_example :
    (assert_coherent_setup_owners pair_of_owners 2 ≡ ok tt) ↔ IsCoherent 2 pair_of_owners
assert_coherent_setup_owners_iff_example = assert_coherent_setup_owners_iff pair_of_owners 2

assert_owner_membership_iff_example :
    (assert_owner_membership state3.owners_commitment bob (slots (alice ∷ bob ∷ [])) ≡ ok tt) ↔ (
      In bob (alice ∷ bob ∷ [])
      × (compute_owner_chain (alice ∷ bob ∷ []) ≡ state3.owners_commitment))
assert_owner_membership_iff_example =
    assert_owner_membership_iff state3.owners_commitment bob (slots (alice ∷ bob ∷ []))

bob_is_member :
    assert_owner_membership (compute_owner_chain (alice ∷ bob ∷ [])) bob (slots (alice ∷ bob ∷ []))
    ≡ ok tt
unfolding succeeds call ideal ideal_hash ideal_path codes pair packed digit_count digits_on encode
    find fadd fsub initial_owner_chain owner_chain_link network_domain network_domain_ids
    vote_nullifier_key proposal_signing_message executed_marker proposal_hash receiver_fields
    scalar_fields at_most_one_receiver state1 state2 state3 setup initialize_state
    setup_owner_events assert_valid_initial_governance assert_coherent_setup_owners check_slots
    check_later assert_on_curve_if compute_setup_owners_chain setup_chain_from
    assert_owner_membership membership_loop propose is_local_type is_remote_type is_known_type
    is_transfer_like allows_data assert_zero_amounts assert_receiver_slots assert_proposal_rules
    approve_proposal execute_transfer assert_enabled_if_child get_initialized_owners_commitment
    assert_merkle_witness_value assert_local_proposal assert_valid_proposal_config_network_and_guard
    assert_proposal_config_network_and_guard assert_proposal_destination_and_child_account
    assert_proposal_not_expired assert_fresh_proposal_nonce assert_and_increment_local_nonce
    assert_not_executed assert_proposal_exists assert_threshold_satisfied
    assert_approval_witness_value mark_executed emit_receivers_event execute_transfers
    child_config_hash reserve_for_parent create_child_owner_events execute_setup_child
    assert_parent_approval_state execute_reclaim_to_parent execute_destroy
    execute_enable_child_multi_sig assert_valid_remote_proposal verify_parent_approval
    assert_curr_account_is_child assert_child_execution_witness_value
    assert_and_increment_parent_nonce bump_config_nonce execute_allocate_to_children
    allocate_payments execute_owner_change add_owner_to_commitment add_loop
    remove_owner_from_commitment remove_loop compute_owner_chain owner_chain_from reserved child
    approving_addition cast outcome
bob_is_member = refl

add_owner_to_commitment_lem_example :
    add_owner_to_commitment 0 carol (slots (alice ∷ bob ∷ [])) after_bob
    ≡ (compute_owner_chain (alice ∷ bob ∷ carol ∷ []), compute_owner_chain (alice ∷ bob ∷ []) == 0)
add_owner_to_commitment_lem_example =
    add_owner_to_commitment_lem 0 carol (slots (alice ∷ bob ∷ [])) after_bob

two_fit : 2 < 28948022309329048855892746252171976963363056481941560715954676764349967630337
two_fit = omega arith

remove_owner_from_commitment_lem_example :
    remove_owner_from_commitment 0 alice (slots (alice ∷ bob ∷ []))
    ≡ (compute_owner_chain (bob ∷ []), compute_owner_chain (alice ∷ bob ∷ []) == 0 && true)
unfolding ideal
remove_owner_from_commitment_lem_example =
    remove_owner_from_commitment_lem 0 alice (slots (alice ∷ bob ∷ [])) two_fit

abbrev unset : Option String
unset = none

abbrev testnet_set : Option String
testnet_set = some "testnet"
