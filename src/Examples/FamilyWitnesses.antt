-- ===== src/Examples/FamilyWitnesses.antt =====
-- The theorems on parents, children and owner changes at concrete inputs.
use mina_guard.Platform.{Field, fadd, fsub}
use mina_guard.Constants.{initial_owner_chain, executed_marker, network_domain, network_domain_ids}
use mina_guard.Hashes.{
  vote_nullifier_key, proposal_signing_message, owner_chain_link, child_config_hash,
}
use mina_guard.Owners.{
  assert_coherent_setup_owners, check_slots, check_later, assert_on_curve_if,
  compute_setup_owners_chain, setup_chain_from, assert_owner_membership, membership_loop,
  add_owner_to_commitment, add_loop, remove_owner_from_commitment, remove_loop, compute_owner_chain,
  owner_chain_from,
}
use mina_guard.Proposal.{proposal_hash, receiver_fields, scalar_fields, at_most_one_receiver}
use mina_guard.Guard.Checks.{
  assert_parent_approval_state, assert_valid_remote_proposal, verify_parent_approval,
  assert_curr_account_is_child, assert_child_execution_witness_value,
  assert_and_increment_parent_nonce, bump_config_nonce, assert_enabled_if_child,
  get_initialized_owners_commitment, assert_merkle_witness_value, assert_local_proposal,
  assert_valid_proposal_config_network_and_guard, assert_proposal_config_network_and_guard,
  assert_proposal_destination_and_child_account, assert_proposal_not_expired,
  assert_fresh_proposal_nonce, assert_and_increment_local_nonce, assert_not_executed,
  assert_proposal_exists, assert_threshold_satisfied, assert_approval_witness_value, mark_executed,
  emit_receivers_event, execute_transfers, assert_valid_initial_governance,
}
use mina_guard.Guard.Setup.{
  reserve_for_parent, create_child_owner_events, execute_setup_child, setup, initialize_state,
  setup_owner_events,
}
use mina_guard.Guard.Propose.{
  propose, is_local_type, is_remote_type, is_known_type, is_transfer_like, allows_data,
  assert_zero_amounts, assert_receiver_slots, assert_proposal_rules,
}
use mina_guard.Guard.Approve.{approve_proposal}
use mina_guard.Guard.Execute.{
  execute_transfer, execute_allocate_to_children, allocate_payments, execute_owner_change,
}
use mina_guard.Guard.Child.{
  execute_reclaim_to_parent, execute_destroy, execute_enable_child_multi_sig,
}
use mina_guard.Base.{◌≡◌, ◌≢◌, refl, [], ◌∷◌, All, take, some, arith}
use mina_guard.Guard.{Guard}
use mina_guard.Guard.Checks.Facts.{Approves}
use mina_guard.Guard.Setup.Config.{execute_setup_child-reserved, execute_setup_child-approved}
use mina_guard.Guard.Execute.OwnerChange.{HasOwners, changed, execute_owner_change-HasOwners}
use mina_guard.Guard.Execute.Payments.{paid_to, IsChildSlot, execute_allocate_to_children-paid}
use mina_guard.Guard.Child.Remote.{RemoteCall, Executed, remote_call-Executed}
use mina_guard.Guard.Run.{blank, call, cast}
use mina_guard.Examples.Pairing.{pair, packed, digit_count, digits_on, encode}
use mina_guard.Examples.Ideal.{ideal, ideal-HashLaws, codes, find, ideal_hash, ideal_path}
use mina_guard.Examples.Session.{
  succeeds, alice, bob, guard_key, here, slots, outcome, succeeds_lem, at, state1, state2, state3,
}
use mina_guard.Examples.Family.{
  child_key, pair_of_owners, create, destroy, approving, child_env, reserved, child, parent_path,
  child_path, allocation, with_children, addition, after_bob, approving_addition, addition_path,
  reserve_args, setup_child_args, destroy_args, allocate_args, addition_args,
}
use mina_guard.Examples.Steps.{
  reserve_succeeds, setup_child_succeeds, destroy-succeeds, allocate_succeeds, addition_succeeds,
}

execute_setup_child-approved_example :
    (parent : Guard) × ((child_env create).ledger reserved.parent ≡ some parent)
    × (parent.owners_commitment ≢ 0)
    × Approves parent reserved.parent create (parent_path create) 2
    × (create.child_account ≡ child_key)
    × (create.payload ≡ child_config_hash (compute_owner_chain (take 2 pair_of_owners)) 2 2)
unfolding call
execute_setup_child-approved_example =
    execute_setup_child-approved (child_env create) reserved 2 2 pair_of_owners create
      (parent_path create) 2
      (succeeds_lem (call (child_env create) reserved setup_child_args) setup_child_succeeds)

abbrev two : Field
two = 2

execute_setup_child-reserved_example :
    (two ≡ two)
    × (two ≡ two)
    × (take 2 pair_of_owners ≡ take 2 pair_of_owners)
    × (create.guard_address ≡ guard_key)
unfolding call reserved
execute_setup_child-reserved_example =
    execute_setup_child-reserved ideal-HashLaws (child_env create) (child_env create) blank
      guard_key (proposal_hash create) 2 2 pair_of_owners
      (succeeds_lem (call (child_env create) blank reserve_args) reserve_succeeds) 2 2
      pair_of_owners create (parent_path create) 2
      (succeeds_lem (call (child_env create) reserved setup_child_args) setup_child_succeeds)

abbrev the_destruction : RemoteCall
the_destruction = record {
  proposal = destroy;
  parent_witness = parent_path destroy;
  count = 2;
  child_witness = child_path destroy;
}

remote_call-Executed_example :
    Executed
      (child_env destroy)
      child
      (outcome (call (child_env destroy) child destroy_args)).state
      the_destruction
remote_call-Executed_example =
    remote_call-Executed (child_env destroy) child destroy_args the_destruction refl
      (succeeds_lem (call (child_env destroy) child destroy_args) destroy-succeeds)

addition_owners : HasOwners approving_addition (alice ∷ bob ∷ [])
unfolding succeeds call ideal ideal_hash ideal_path codes pair packed digit_count digits_on encode
    find fadd fsub initial_owner_chain owner_chain_link network_domain network_domain_ids
    vote_nullifier_key proposal_signing_message executed_marker proposal_hash receiver_fields
    scalar_fields at_most_one_receiver state1 state2 state3 setup initialize_state
    setup_owner_events assert_valid_initial_governance assert_coherent_setup_owners check_slots
    check_later assert_on_curve_if compute_setup_owners_chain setup_chain_from
    assert_owner_membership membership_loop propose is_local_type is_remote_type is_known_type
    is_transfer_like allows_data assert_zero_amounts assert_receiver_slots assert_proposal_rules
    approve_proposal execute_transfer assert_enabled_if_child get_initialized_owners_commitment
    assert_merkle_witness_value assert_local_proposal assert_valid_proposal_config_network_and_guard
    assert_proposal_config_network_and_guard assert_proposal_destination_and_child_account
    assert_proposal_not_expired assert_fresh_proposal_nonce assert_and_increment_local_nonce
    assert_not_executed assert_proposal_exists assert_threshold_satisfied
    assert_approval_witness_value mark_executed emit_receivers_event execute_transfers
    child_config_hash reserve_for_parent create_child_owner_events execute_setup_child
    assert_parent_approval_state execute_reclaim_to_parent execute_destroy
    execute_enable_child_multi_sig assert_valid_remote_proposal verify_parent_approval
    assert_curr_account_is_child assert_child_execution_witness_value
    assert_and_increment_parent_nonce bump_config_nonce execute_allocate_to_children
    allocate_payments execute_owner_change add_owner_to_commitment add_loop
    remove_owner_from_commitment remove_loop compute_owner_chain owner_chain_from reserved child
    approving_addition cast outcome
addition_owners = record {
  commitment = refl;
  counted = refl;
  distinct = (((λ e. omega arith), tt), (tt, tt));
}

execute_owner_change-HasOwners_example :
    HasOwners
      (outcome (at approving_addition addition_args)).state
      (changed addition after_bob (alice ∷ bob ∷ []))
unfolding call
execute_owner_change-HasOwners_example =
    execute_owner_change-HasOwners (here guard_key approving_addition) approving_addition addition
      addition_path 3 (slots (alice ∷ bob ∷ [])) after_bob ideal-HashLaws (alice ∷ bob ∷ [])
      addition_owners (omega arith) refl
      (succeeds_lem (at approving_addition addition_args) addition_succeeds)

execute_allocate_to_children-paid_example :
    (paid_to child_key (outcome (call with_children (approving allocation) allocate_args)).payments
      ≡ 100)
    × All (IsChildSlot with_children) allocation.receivers
unfolding call
execute_allocate_to_children-paid_example =
    execute_allocate_to_children-paid with_children (approving allocation) allocation
      (parent_path allocation) 2
      (succeeds_lem (call with_children (approving allocation) allocate_args) allocate_succeeds)
      child_key refl
