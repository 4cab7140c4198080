-- ===== src/Examples/Steps.antt =====
-- Every call of the examples succeeds.
use mina_guard.Base.{◌≡◌, refl, true}
use mina_guard.Platform.{fadd, fsub}
use mina_guard.Constants.{initial_owner_chain, executed_marker, network_domain, network_domain_ids}
use mina_guard.Hashes.{
  vote_nullifier_key, proposal_signing_message, owner_chain_link, child_config_hash,
}
use mina_guard.Owners.{
  assert_coherent_setup_owners, check_slots, check_later, assert_on_curve_if,
  compute_setup_owners_chain, setup_chain_from, assert_owner_membership, membership_loop,
  add_owner_to_commitment, add_loop, remove_owner_from_commitment, remove_loop, compute_owner_chain,
  owner_chain_from,
}
use mina_guard.Proposal.{proposal_hash, receiver_fields, scalar_fields, at_most_one_receiver}
use mina_guard.Guard.Checks.{
  assert_parent_approval_state, assert_valid_remote_proposal, verify_parent_approval,
  assert_curr_account_is_child, assert_child_execution_witness_value,
  assert_and_increment_parent_nonce, bump_config_nonce, assert_enabled_if_child,
  get_initialized_owners_commitment, assert_merkle_witness_value, assert_local_proposal,
  assert_valid_proposal_config_network_and_guard, assert_proposal_config_network_and_guard,
  assert_proposal_destination_and_child_account, assert_proposal_not_expired,
  assert_fresh_proposal_nonce, assert_and_increment_local_nonce, assert_not_executed,
  assert_proposal_exists, assert_threshold_satisfied, assert_approval_witness_value, mark_executed,
  emit_receivers_event, execute_transfers, assert_valid_initial_governance,
}
use mina_guard.Guard.Setup.{
  reserve_for_parent, create_child_owner_events, execute_setup_child, setup, initialize_state,
  setup_owner_events,
}
use mina_guard.Guard.Propose.{
  propose, is_local_type, is_remote_type, is_known_type, is_transfer_like, allows_data,
  assert_zero_amounts, assert_receiver_slots, assert_proposal_rules,
}
use mina_guard.Guard.Approve.{approve_proposal}
use mina_guard.Guard.Execute.{
  execute_transfer, execute_allocate_to_children, allocate_payments, execute_owner_change,
}
use mina_guard.Guard.Child.{
  execute_reclaim_to_parent, execute_destroy, execute_enable_child_multi_sig,
}
use mina_guard.Guard.Run.{blank, call}
use mina_guard.Examples.Pairing.{pair, packed, digit_count, digits_on, encode}
use mina_guard.Examples.Ideal.{ideal, codes, find, ideal_hash, ideal_path}
use mina_guard.Examples.Session.{
  succeeds, outcome, at, state1, state2, state3, setup_args, propose_args, approve_args,
  transfer_args,
}
use mina_guard.Examples.Family.{
  child_env, with_children, create, reclaim, destroy, disable, reserved, child, approving,
  approving_addition, allocation, reserve_args, setup_child_args, reclaim_args, destroy_args,
  disable_args, allocate_args, addition_args,
}

pub setup_succeeds : succeeds (at blank setup_args) ≡ true
unfolding succeeds outcome call ideal ideal_hash ideal_path codes pair packed digit_count digits_on
    encode find fadd fsub initial_owner_chain owner_chain_link network_domain network_domain_ids
    vote_nullifier_key proposal_signing_message executed_marker proposal_hash receiver_fields
    scalar_fields at_most_one_receiver state1 state2 state3 setup initialize_state
    setup_owner_events assert_valid_initial_governance assert_coherent_setup_owners check_slots
    check_later assert_on_curve_if compute_setup_owners_chain setup_chain_from
    assert_owner_membership membership_loop propose is_local_type is_remote_type is_known_type
    is_transfer_like allows_data assert_zero_amounts assert_receiver_slots assert_proposal_rules
    approve_proposal execute_transfer assert_enabled_if_child get_initialized_owners_commitment
    assert_merkle_witness_value assert_local_proposal assert_valid_proposal_config_network_and_guard
    assert_proposal_config_network_and_guard assert_proposal_destination_and_child_account
    assert_proposal_not_expired assert_fresh_proposal_nonce assert_and_increment_local_nonce
    assert_not_executed assert_proposal_exists assert_threshold_satisfied
    assert_approval_witness_value mark_executed emit_receivers_event execute_transfers
    child_config_hash reserve_for_parent create_child_owner_events execute_setup_child
    assert_parent_approval_state execute_reclaim_to_parent execute_destroy
    execute_enable_child_multi_sig assert_valid_remote_proposal verify_parent_approval
    assert_curr_account_is_child assert_child_execution_witness_value
    assert_and_increment_parent_nonce bump_config_nonce execute_allocate_to_children
    allocate_payments execute_owner_change add_owner_to_commitment add_loop
    remove_owner_from_commitment remove_loop compute_owner_chain owner_chain_from reserved child
    approving_addition
setup_succeeds = refl

pub propose_succeeds : succeeds (at state1 propose_args) ≡ true
unfolding succeeds outcome call ideal ideal_hash ideal_path codes pair packed digit_count digits_on
    encode find fadd fsub initial_owner_chain owner_chain_link network_domain network_domain_ids
    vote_nullifier_key proposal_signing_message executed_marker proposal_hash receiver_fields
    scalar_fields at_most_one_receiver state1 state2 state3 setup initialize_state
    setup_owner_events assert_valid_initial_governance assert_coherent_setup_owners check_slots
    check_later assert_on_curve_if compute_setup_owners_chain setup_chain_from
    assert_owner_membership membership_loop propose is_local_type is_remote_type is_known_type
    is_transfer_like allows_data assert_zero_amounts assert_receiver_slots assert_proposal_rules
    approve_proposal execute_transfer assert_enabled_if_child get_initialized_owners_commitment
    assert_merkle_witness_value assert_local_proposal assert_valid_proposal_config_network_and_guard
    assert_proposal_config_network_and_guard assert_proposal_destination_and_child_account
    assert_proposal_not_expired assert_fresh_proposal_nonce assert_and_increment_local_nonce
    assert_not_executed assert_proposal_exists assert_threshold_satisfied
    assert_approval_witness_value mark_executed emit_receivers_event execute_transfers
    child_config_hash reserve_for_parent create_child_owner_events execute_setup_child
    assert_parent_approval_state execute_reclaim_to_parent execute_destroy
    execute_enable_child_multi_sig assert_valid_remote_proposal verify_parent_approval
    assert_curr_account_is_child assert_child_execution_witness_value
    assert_and_increment_parent_nonce bump_config_nonce execute_allocate_to_children
    allocate_payments execute_owner_change add_owner_to_commitment add_loop
    remove_owner_from_commitment remove_loop compute_owner_chain owner_chain_from reserved child
    approving_addition
propose_succeeds = refl

pub approve_succeeds : succeeds (at state2 approve_args) ≡ true
unfolding succeeds outcome call ideal ideal_hash ideal_path codes pair packed digit_count digits_on
    encode find fadd fsub initial_owner_chain owner_chain_link network_domain network_domain_ids
    vote_nullifier_key proposal_signing_message executed_marker proposal_hash receiver_fields
    scalar_fields at_most_one_receiver state1 state2 state3 setup initialize_state
    setup_owner_events assert_valid_initial_governance assert_coherent_setup_owners check_slots
    check_later assert_on_curve_if compute_setup_owners_chain setup_chain_from
    assert_owner_membership membership_loop propose is_local_type is_remote_type is_known_type
    is_transfer_like allows_data assert_zero_amounts assert_receiver_slots assert_proposal_rules
    approve_proposal execute_transfer assert_enabled_if_child get_initialized_owners_commitment
    assert_merkle_witness_value assert_local_proposal assert_valid_proposal_config_network_and_guard
    assert_proposal_config_network_and_guard assert_proposal_destination_and_child_account
    assert_proposal_not_expired assert_fresh_proposal_nonce assert_and_increment_local_nonce
    assert_not_executed assert_proposal_exists assert_threshold_satisfied
    assert_approval_witness_value mark_executed emit_receivers_event execute_transfers
    child_config_hash reserve_for_parent create_child_owner_events execute_setup_child
    assert_parent_approval_state execute_reclaim_to_parent execute_destroy
    execute_enable_child_multi_sig assert_valid_remote_proposal verify_parent_approval
    assert_curr_account_is_child assert_child_execution_witness_value
    assert_and_increment_parent_nonce bump_config_nonce execute_allocate_to_children
    allocate_payments execute_owner_change add_owner_to_commitment add_loop
    remove_owner_from_commitment remove_loop compute_owner_chain owner_chain_from reserved child
    approving_addition
approve_succeeds = refl

pub transfer_succeeds : succeeds (at state3 transfer_args) ≡ true
unfolding succeeds outcome call ideal ideal_hash ideal_path codes pair packed digit_count digits_on
    encode find fadd fsub initial_owner_chain owner_chain_link network_domain network_domain_ids
    vote_nullifier_key proposal_signing_message executed_marker proposal_hash receiver_fields
    scalar_fields at_most_one_receiver state1 state2 state3 setup initialize_state
    setup_owner_events assert_valid_initial_governance assert_coherent_setup_owners check_slots
    check_later assert_on_curve_if compute_setup_owners_chain setup_chain_from
    assert_owner_membership membership_loop propose is_local_type is_remote_type is_known_type
    is_transfer_like allows_data assert_zero_amounts assert_receiver_slots assert_proposal_rules
    approve_proposal execute_transfer assert_enabled_if_child get_initialized_owners_commitment
    assert_merkle_witness_value assert_local_proposal assert_valid_proposal_config_network_and_guard
    assert_proposal_config_network_and_guard assert_proposal_destination_and_child_account
    assert_proposal_not_expired assert_fresh_proposal_nonce assert_and_increment_local_nonce
    assert_not_executed assert_proposal_exists assert_threshold_satisfied
    assert_approval_witness_value mark_executed emit_receivers_event execute_transfers
    child_config_hash reserve_for_parent create_child_owner_events execute_setup_child
    assert_parent_approval_state execute_reclaim_to_parent execute_destroy
    execute_enable_child_multi_sig assert_valid_remote_proposal verify_parent_approval
    assert_curr_account_is_child assert_child_execution_witness_value
    assert_and_increment_parent_nonce bump_config_nonce execute_allocate_to_children
    allocate_payments execute_owner_change add_owner_to_commitment add_loop
    remove_owner_from_commitment remove_loop compute_owner_chain owner_chain_from reserved child
    approving_addition
transfer_succeeds = refl

pub reserve_succeeds : succeeds (call (child_env create) blank reserve_args) ≡ true
unfolding succeeds outcome call ideal ideal_hash ideal_path codes pair packed digit_count digits_on
    encode find fadd fsub initial_owner_chain owner_chain_link network_domain network_domain_ids
    vote_nullifier_key proposal_signing_message executed_marker proposal_hash receiver_fields
    scalar_fields at_most_one_receiver state1 state2 state3 setup initialize_state
    setup_owner_events assert_valid_initial_governance assert_coherent_setup_owners check_slots
    check_later assert_on_curve_if compute_setup_owners_chain setup_chain_from
    assert_owner_membership membership_loop propose is_local_type is_remote_type is_known_type
    is_transfer_like allows_data assert_zero_amounts assert_receiver_slots assert_proposal_rules
    approve_proposal execute_transfer assert_enabled_if_child get_initialized_owners_commitment
    assert_merkle_witness_value assert_local_proposal assert_valid_proposal_config_network_and_guard
    assert_proposal_config_network_and_guard assert_proposal_destination_and_child_account
    assert_proposal_not_expired assert_fresh_proposal_nonce assert_and_increment_local_nonce
    assert_not_executed assert_proposal_exists assert_threshold_satisfied
    assert_approval_witness_value mark_executed emit_receivers_event execute_transfers
    child_config_hash reserve_for_parent create_child_owner_events execute_setup_child
    assert_parent_approval_state execute_reclaim_to_parent execute_destroy
    execute_enable_child_multi_sig assert_valid_remote_proposal verify_parent_approval
    assert_curr_account_is_child assert_child_execution_witness_value
    assert_and_increment_parent_nonce bump_config_nonce execute_allocate_to_children
    allocate_payments execute_owner_change add_owner_to_commitment add_loop
    remove_owner_from_commitment remove_loop compute_owner_chain owner_chain_from reserved child
    approving_addition
reserve_succeeds = refl

pub setup_child_succeeds : succeeds (call (child_env create) reserved setup_child_args) ≡ true
unfolding succeeds outcome call ideal ideal_hash ideal_path codes pair packed digit_count digits_on
    encode find fadd fsub initial_owner_chain owner_chain_link network_domain network_domain_ids
    vote_nullifier_key proposal_signing_message executed_marker proposal_hash receiver_fields
    scalar_fields at_most_one_receiver state1 state2 state3 setup initialize_state
    setup_owner_events assert_valid_initial_governance assert_coherent_setup_owners check_slots
    check_later assert_on_curve_if compute_setup_owners_chain setup_chain_from
    assert_owner_membership membership_loop propose is_local_type is_remote_type is_known_type
    is_transfer_like allows_data assert_zero_amounts assert_receiver_slots assert_proposal_rules
    approve_proposal execute_transfer assert_enabled_if_child get_initialized_owners_commitment
    assert_merkle_witness_value assert_local_proposal assert_valid_proposal_config_network_and_guard
    assert_proposal_config_network_and_guard assert_proposal_destination_and_child_account
    assert_proposal_not_expired assert_fresh_proposal_nonce assert_and_increment_local_nonce
    assert_not_executed assert_proposal_exists assert_threshold_satisfied
    assert_approval_witness_value mark_executed emit_receivers_event execute_transfers
    child_config_hash reserve_for_parent create_child_owner_events execute_setup_child
    assert_parent_approval_state execute_reclaim_to_parent execute_destroy
    execute_enable_child_multi_sig assert_valid_remote_proposal verify_parent_approval
    assert_curr_account_is_child assert_child_execution_witness_value
    assert_and_increment_parent_nonce bump_config_nonce execute_allocate_to_children
    allocate_payments execute_owner_change add_owner_to_commitment add_loop
    remove_owner_from_commitment remove_loop compute_owner_chain owner_chain_from reserved child
    approving_addition
setup_child_succeeds = refl

pub reclaim-succeeds : succeeds (call (child_env reclaim) child reclaim_args) ≡ true
unfolding succeeds outcome call ideal ideal_hash ideal_path codes pair packed digit_count digits_on
    encode find fadd fsub initial_owner_chain owner_chain_link network_domain network_domain_ids
    vote_nullifier_key proposal_signing_message executed_marker proposal_hash receiver_fields
    scalar_fields at_most_one_receiver state1 state2 state3 setup initialize_state
    setup_owner_events assert_valid_initial_governance assert_coherent_setup_owners check_slots
    check_later assert_on_curve_if compute_setup_owners_chain setup_chain_from
    assert_owner_membership membership_loop propose is_local_type is_remote_type is_known_type
    is_transfer_like allows_data assert_zero_amounts assert_receiver_slots assert_proposal_rules
    approve_proposal execute_transfer assert_enabled_if_child get_initialized_owners_commitment
    assert_merkle_witness_value assert_local_proposal assert_valid_proposal_config_network_and_guard
    assert_proposal_config_network_and_guard assert_proposal_destination_and_child_account
    assert_proposal_not_expired assert_fresh_proposal_nonce assert_and_increment_local_nonce
    assert_not_executed assert_proposal_exists assert_threshold_satisfied
    assert_approval_witness_value mark_executed emit_receivers_event execute_transfers
    child_config_hash reserve_for_parent create_child_owner_events execute_setup_child
    assert_parent_approval_state execute_reclaim_to_parent execute_destroy
    execute_enable_child_multi_sig assert_valid_remote_proposal verify_parent_approval
    assert_curr_account_is_child assert_child_execution_witness_value
    assert_and_increment_parent_nonce bump_config_nonce execute_allocate_to_children
    allocate_payments execute_owner_change add_owner_to_commitment add_loop
    remove_owner_from_commitment remove_loop compute_owner_chain owner_chain_from reserved child
    approving_addition
reclaim-succeeds = refl

pub destroy-succeeds : succeeds (call (child_env destroy) child destroy_args) ≡ true
unfolding succeeds outcome call ideal ideal_hash ideal_path codes pair packed digit_count digits_on
    encode find fadd fsub initial_owner_chain owner_chain_link network_domain network_domain_ids
    vote_nullifier_key proposal_signing_message executed_marker proposal_hash receiver_fields
    scalar_fields at_most_one_receiver state1 state2 state3 setup initialize_state
    setup_owner_events assert_valid_initial_governance assert_coherent_setup_owners check_slots
    check_later assert_on_curve_if compute_setup_owners_chain setup_chain_from
    assert_owner_membership membership_loop propose is_local_type is_remote_type is_known_type
    is_transfer_like allows_data assert_zero_amounts assert_receiver_slots assert_proposal_rules
    approve_proposal execute_transfer assert_enabled_if_child get_initialized_owners_commitment
    assert_merkle_witness_value assert_local_proposal assert_valid_proposal_config_network_and_guard
    assert_proposal_config_network_and_guard assert_proposal_destination_and_child_account
    assert_proposal_not_expired assert_fresh_proposal_nonce assert_and_increment_local_nonce
    assert_not_executed assert_proposal_exists assert_threshold_satisfied
    assert_approval_witness_value mark_executed emit_receivers_event execute_transfers
    child_config_hash reserve_for_parent create_child_owner_events execute_setup_child
    assert_parent_approval_state execute_reclaim_to_parent execute_destroy
    execute_enable_child_multi_sig assert_valid_remote_proposal verify_parent_approval
    assert_curr_account_is_child assert_child_execution_witness_value
    assert_and_increment_parent_nonce bump_config_nonce execute_allocate_to_children
    allocate_payments execute_owner_change add_owner_to_commitment add_loop
    remove_owner_from_commitment remove_loop compute_owner_chain owner_chain_from reserved child
    approving_addition
destroy-succeeds = refl

pub disable-succeeds : succeeds (call (child_env disable) child disable_args) ≡ true
unfolding succeeds outcome call ideal ideal_hash ideal_path codes pair packed digit_count digits_on
    encode find fadd fsub initial_owner_chain owner_chain_link network_domain network_domain_ids
    vote_nullifier_key proposal_signing_message executed_marker proposal_hash receiver_fields
    scalar_fields at_most_one_receiver state1 state2 state3 setup initialize_state
    setup_owner_events assert_valid_initial_governance assert_coherent_setup_owners check_slots
    check_later assert_on_curve_if compute_setup_owners_chain setup_chain_from
    assert_owner_membership membership_loop propose is_local_type is_remote_type is_known_type
    is_transfer_like allows_data assert_zero_amounts assert_receiver_slots assert_proposal_rules
    approve_proposal execute_transfer assert_enabled_if_child get_initialized_owners_commitment
    assert_merkle_witness_value assert_local_proposal assert_valid_proposal_config_network_and_guard
    assert_proposal_config_network_and_guard assert_proposal_destination_and_child_account
    assert_proposal_not_expired assert_fresh_proposal_nonce assert_and_increment_local_nonce
    assert_not_executed assert_proposal_exists assert_threshold_satisfied
    assert_approval_witness_value mark_executed emit_receivers_event execute_transfers
    child_config_hash reserve_for_parent create_child_owner_events execute_setup_child
    assert_parent_approval_state execute_reclaim_to_parent execute_destroy
    execute_enable_child_multi_sig assert_valid_remote_proposal verify_parent_approval
    assert_curr_account_is_child assert_child_execution_witness_value
    assert_and_increment_parent_nonce bump_config_nonce execute_allocate_to_children
    allocate_payments execute_owner_change add_owner_to_commitment add_loop
    remove_owner_from_commitment remove_loop compute_owner_chain owner_chain_from reserved child
    approving_addition
disable-succeeds = refl

pub allocate_succeeds : succeeds (call with_children (approving allocation) allocate_args) ≡ true
unfolding succeeds outcome call ideal ideal_hash ideal_path codes pair packed digit_count digits_on
    encode find fadd fsub initial_owner_chain owner_chain_link network_domain network_domain_ids
    vote_nullifier_key proposal_signing_message executed_marker proposal_hash receiver_fields
    scalar_fields at_most_one_receiver state1 state2 state3 setup initialize_state
    setup_owner_events assert_valid_initial_governance assert_coherent_setup_owners check_slots
    check_later assert_on_curve_if compute_setup_owners_chain setup_chain_from
    assert_owner_membership membership_loop propose is_local_type is_remote_type is_known_type
    is_transfer_like allows_data assert_zero_amounts assert_receiver_slots assert_proposal_rules
    approve_proposal execute_transfer assert_enabled_if_child get_initialized_owners_commitment
    assert_merkle_witness_value assert_local_proposal assert_valid_proposal_config_network_and_guard
    assert_proposal_config_network_and_guard assert_proposal_destination_and_child_account
    assert_proposal_not_expired assert_fresh_proposal_nonce assert_and_increment_local_nonce
    assert_not_executed assert_proposal_exists assert_threshold_satisfied
    assert_approval_witness_value mark_executed emit_receivers_event execute_transfers
    child_config_hash reserve_for_parent create_child_owner_events execute_setup_child
    assert_parent_approval_state execute_reclaim_to_parent execute_destroy
    execute_enable_child_multi_sig assert_valid_remote_proposal verify_parent_approval
    assert_curr_account_is_child assert_child_execution_witness_value
    assert_and_increment_parent_nonce bump_config_nonce execute_allocate_to_children
    allocate_payments execute_owner_change add_owner_to_commitment add_loop
    remove_owner_from_commitment remove_loop compute_owner_chain owner_chain_from reserved child
    approving_addition
allocate_succeeds = refl

pub addition_succeeds : succeeds (at approving_addition addition_args) ≡ true
unfolding succeeds outcome call ideal ideal_hash ideal_path codes pair packed digit_count digits_on
    encode find fadd fsub initial_owner_chain owner_chain_link network_domain network_domain_ids
    vote_nullifier_key proposal_signing_message executed_marker proposal_hash receiver_fields
    scalar_fields at_most_one_receiver state1 state2 state3 setup initialize_state
    setup_owner_events assert_valid_initial_governance assert_coherent_setup_owners check_slots
    check_later assert_on_curve_if compute_setup_owners_chain setup_chain_from
    assert_owner_membership membership_loop propose is_local_type is_remote_type is_known_type
    is_transfer_like allows_data assert_zero_amounts assert_receiver_slots assert_proposal_rules
    approve_proposal execute_transfer assert_enabled_if_child get_initialized_owners_commitment
    assert_merkle_witness_value assert_local_proposal assert_valid_proposal_config_network_and_guard
    assert_proposal_config_network_and_guard assert_proposal_destination_and_child_account
    assert_proposal_not_expired assert_fresh_proposal_nonce assert_and_increment_local_nonce
    assert_not_executed assert_proposal_exists assert_threshold_satisfied
    assert_approval_witness_value mark_executed emit_receivers_event execute_transfers
    child_config_hash reserve_for_parent create_child_owner_events execute_setup_child
    assert_parent_approval_state execute_reclaim_to_parent execute_destroy
    execute_enable_child_multi_sig assert_valid_remote_proposal verify_parent_approval
    assert_curr_account_is_child assert_child_execution_witness_value
    assert_and_increment_parent_nonce bump_config_nonce execute_allocate_to_children
    allocate_payments execute_owner_change add_owner_to_commitment add_loop
    remove_owner_from_commitment remove_loop compute_owner_chain owner_chain_from reserved child
    approving_addition
addition_succeeds = refl
