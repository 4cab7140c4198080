-- ===== src/Examples/Votes.antt =====
-- Two votes of the session, and what they do to the books.
use mina_guard.Base.{◌≤◌, ◌<◌, refl, [], ◌∷◌, arith}
use mina_guard.Platform.{Field}
use mina_guard.Platform.Laws.{update}
use mina_guard.Hashes.{propose_action, approve_action}
use mina_guard.Guard.Execute.OwnerChange.{HasOwners}
use mina_guard.Guard.Vote.Cast.{Books, Cast, propose-Cast, approve_proposal-Cast}
use mina_guard.Examples.Ideal.{ideal-HashLaws, ideal-MerkleLaws}
use mina_guard.Examples.Session.{
  here, guard_key, alice, bob, slots, sign, path, transfer, transfer_hash, alice_vote, bob_vote,
  proposed, succeeds_lem,
}
use mina_guard.Examples.Steps.{propose_succeeds, approve_succeeds}
use mina_guard.Platform.{fadd, fsub}
use mina_guard.Constants.{initial_owner_chain, executed_marker, network_domain, network_domain_ids}
use mina_guard.Hashes.{
  vote_nullifier_key, proposal_signing_message, owner_chain_link, child_config_hash,
}
use mina_guard.Owners.{
  assert_coherent_setup_owners, check_slots, check_later, assert_on_curve_if,
  compute_setup_owners_chain, setup_chain_from, assert_owner_membership, membership_loop,
  add_owner_to_commitment, add_loop, remove_owner_from_commitment, remove_loop, compute_owner_chain,
  owner_chain_from,
}
use mina_guard.Proposal.{proposal_hash, receiver_fields, scalar_fields, at_most_one_receiver}
use mina_guard.Guard.Checks.{
  assert_parent_approval_state, assert_valid_remote_proposal, verify_parent_approval,
  assert_curr_account_is_child, assert_child_execution_witness_value,
  assert_and_increment_parent_nonce, bump_config_nonce, assert_enabled_if_child,
  get_initialized_owners_commitment, assert_merkle_witness_value, assert_local_proposal,
  assert_valid_proposal_config_network_and_guard, assert_proposal_config_network_and_guard,
  assert_proposal_destination_and_child_account, assert_proposal_not_expired,
  assert_fresh_proposal_nonce, assert_and_increment_local_nonce, assert_not_executed,
  assert_proposal_exists, assert_threshold_satisfied, assert_approval_witness_value, mark_executed,
  emit_receivers_event, execute_transfers, assert_valid_initial_governance,
}
use mina_guard.Guard.Setup.{
  reserve_for_parent, create_child_owner_events, execute_setup_child, setup, initialize_state,
  setup_owner_events,
}
use mina_guard.Guard.Propose.{
  propose, is_local_type, is_remote_type, is_known_type, is_transfer_like, allows_data,
  assert_zero_amounts, assert_receiver_slots, assert_proposal_rules,
}
use mina_guard.Guard.Approve.{approve_proposal}
use mina_guard.Guard.Execute.{
  execute_transfer, execute_allocate_to_children, allocate_payments, execute_owner_change,
}
use mina_guard.Guard.Child.{
  execute_reclaim_to_parent, execute_destroy, execute_enable_child_multi_sig,
}
use mina_guard.Guard.Run.{call}
use mina_guard.Examples.Pairing.{pair, packed, digit_count, digits_on, encode}
use mina_guard.Examples.Ideal.{ideal, codes, find, ideal_hash, ideal_path}
use mina_guard.Examples.Session.{
  succeeds, outcome, at, state1, state2, state3, propose_args, approve_args,
}
use mina_guard.Examples.Family.{reserved, child, approving_addition}

abbrev no_entries : Field → Field
no_entries _ = 0

abbrev proposed_count : Field → Field
proposed_count = update no_entries transfer_hash 2

abbrev alice_marked : Field → Field
alice_marked = update no_entries alice_vote 1

books1 : Books ideal-MerkleLaws state1 (alice ∷ bob ∷ []) no_entries no_entries
unfolding succeeds outcome call ideal ideal_hash ideal_path codes pair packed digit_count digits_on
    encode find fadd fsub initial_owner_chain owner_chain_link network_domain network_domain_ids
    vote_nullifier_key proposal_signing_message executed_marker proposal_hash receiver_fields
    scalar_fields at_most_one_receiver state1 state2 state3 setup initialize_state
    setup_owner_events assert_valid_initial_governance assert_coherent_setup_owners check_slots
    check_later assert_on_curve_if compute_setup_owners_chain setup_chain_from
    assert_owner_membership membership_loop propose is_local_type is_remote_type is_known_type
    is_transfer_like allows_data assert_zero_amounts assert_receiver_slots assert_proposal_rules
    approve_proposal execute_transfer assert_enabled_if_child get_initialized_owners_commitment
    assert_merkle_witness_value assert_local_proposal assert_valid_proposal_config_network_and_guard
    assert_proposal_config_network_and_guard assert_proposal_destination_and_child_account
    assert_proposal_not_expired assert_fresh_proposal_nonce assert_and_increment_local_nonce
    assert_not_executed assert_proposal_exists assert_threshold_satisfied
    assert_approval_witness_value mark_executed emit_receivers_event execute_transfers
    child_config_hash reserve_for_parent create_child_owner_events execute_setup_child
    assert_parent_approval_state execute_reclaim_to_parent execute_destroy
    execute_enable_child_multi_sig assert_valid_remote_proposal verify_parent_approval
    assert_curr_account_is_child assert_child_execution_witness_value
    assert_and_increment_parent_nonce bump_config_nonce execute_allocate_to_children
    allocate_payments execute_owner_change add_owner_to_commitment add_loop
    remove_owner_from_commitment remove_loop compute_owner_chain owner_chain_from reserved child
    approving_addition
books1 = record {
  owned = record {
    commitment = refl;
    counted = refl;
    distinct = (((λ e. omega arith), tt), (tt, tt));
  };
  counts = ideal-MerkleLaws.empty;
  votes = ideal-MerkleLaws.empty;
}

owners2 : HasOwners state2 (alice ∷ bob ∷ [])
unfolding succeeds outcome call ideal ideal_hash ideal_path codes pair packed digit_count digits_on
    encode find fadd fsub initial_owner_chain owner_chain_link network_domain network_domain_ids
    vote_nullifier_key proposal_signing_message executed_marker proposal_hash receiver_fields
    scalar_fields at_most_one_receiver state1 state2 state3 setup initialize_state
    setup_owner_events assert_valid_initial_governance assert_coherent_setup_owners check_slots
    check_later assert_on_curve_if compute_setup_owners_chain setup_chain_from
    assert_owner_membership membership_loop propose is_local_type is_remote_type is_known_type
    is_transfer_like allows_data assert_zero_amounts assert_receiver_slots assert_proposal_rules
    approve_proposal execute_transfer assert_enabled_if_child get_initialized_owners_commitment
    assert_merkle_witness_value assert_local_proposal assert_valid_proposal_config_network_and_guard
    assert_proposal_config_network_and_guard assert_proposal_destination_and_child_account
    assert_proposal_not_expired assert_fresh_proposal_nonce assert_and_increment_local_nonce
    assert_not_executed assert_proposal_exists assert_threshold_satisfied
    assert_approval_witness_value mark_executed emit_receivers_event execute_transfers
    child_config_hash reserve_for_parent create_child_owner_events execute_setup_child
    assert_parent_approval_state execute_reclaim_to_parent execute_destroy
    execute_enable_child_multi_sig assert_valid_remote_proposal verify_parent_approval
    assert_curr_account_is_child assert_child_execution_witness_value
    assert_and_increment_parent_nonce bump_config_nonce execute_allocate_to_children
    allocate_payments execute_owner_change add_owner_to_commitment add_loop
    remove_owner_from_commitment remove_loop compute_owner_chain owner_chain_from reserved child
    approving_addition
owners2 = record {
  commitment = refl;
  counted = refl;
  distinct = (((λ e. omega arith), tt), (tt, tt));
}

propose-Cast_example :
    Cast ideal-MerkleLaws
      (alice ∷ bob ∷ [])
      no_entries
      no_entries
      (here guard_key state1)
      state1
      transfer
      alice
      (sign alice transfer propose_action)
      propose_action
      0
      2
      state2
unfolding call state2
propose-Cast_example =
    propose-Cast ideal-HashLaws ideal-MerkleLaws (alice ∷ bob ∷ []) no_entries no_entries
      (here guard_key state1) state1 books1 transfer (slots (alice ∷ bob ∷ [])) alice
      (sign alice transfer propose_action) (path alice_vote []) (path transfer_hash [])
      (succeeds_lem (at state1 propose_args) propose_succeeds)

first_vote :
    Cast ideal-MerkleLaws
      (alice ∷ bob ∷ [])
      no_entries
      no_entries
      (here guard_key state1)
      state1
      transfer
      alice
      (sign alice transfer propose_action)
      propose_action
      0
      2
      state2
unfolding call state2
first_vote =
    propose-Cast ideal-HashLaws ideal-MerkleLaws (alice ∷ bob ∷ []) no_entries no_entries
      (here guard_key state1) state1 books1 transfer (slots (alice ∷ bob ∷ [])) alice
      (sign alice transfer propose_action) (path alice_vote []) (path transfer_hash [])
      (succeeds_lem (at state1 propose_args) propose_succeeds)

books2 : Books ideal-MerkleLaws state2 (alice ∷ bob ∷ []) proposed_count alice_marked
books2 = record { owned = owners2; counts = first_vote.counts; votes = first_vote.votes }

approve_proposal-Cast_example :
    Cast ideal-MerkleLaws
      (alice ∷ bob ∷ [])
      proposed_count
      alice_marked
      (here guard_key state2)
      state2
      transfer
      bob
      (sign bob transfer approve_action)
      approve_action
      2
      3
      state3
    × (1 ≤ 2)
    × (3 < ideal.order)
unfolding call state3
approve_proposal-Cast_example =
    approve_proposal-Cast ideal-HashLaws ideal-MerkleLaws (alice ∷ bob ∷ []) proposed_count
      alice_marked (here guard_key state2) state2 books2 transfer (slots (alice ∷ bob ∷ [])) bob
      (sign bob transfer approve_action) (path bob_vote (alice_vote ∷ 1 ∷ []))
      (path transfer_hash proposed) 2 (let big = ideal.order_large in omega arith)
      (succeeds_lem (at state2 approve_args) approve_succeeds)
