-- ===== src/Examples/Witnesses.antt =====
-- The theorems on votes and histories at concrete inputs.
use mina_guard.Platform.{Field, PublicKey, fadd, fsub}
use mina_guard.Constants.{
  max_owners, initial_owner_chain, executed_marker, network_domain, network_domain_ids,
}
use mina_guard.Hashes.{
  vote_nullifier_key, proposal_signing_message, owner_chain_link, child_config_hash,
}
use mina_guard.Owners.{
  assert_coherent_setup_owners, check_slots, check_later, assert_on_curve_if,
  compute_setup_owners_chain, setup_chain_from, assert_owner_membership, membership_loop,
  add_owner_to_commitment, add_loop, remove_owner_from_commitment, remove_loop, compute_owner_chain,
  owner_chain_from,
}
use mina_guard.Proposal.{
  IsWellFormed, proposal_hash, receiver_fields, scalar_fields, at_most_one_receiver,
}
use mina_guard.Guard.Checks.{
  assert_parent_approval_state, assert_valid_remote_proposal, verify_parent_approval,
  assert_curr_account_is_child, assert_child_execution_witness_value,
  assert_and_increment_parent_nonce, bump_config_nonce, assert_enabled_if_child,
  get_initialized_owners_commitment, assert_merkle_witness_value, assert_local_proposal,
  assert_valid_proposal_config_network_and_guard, assert_proposal_config_network_and_guard,
  assert_proposal_destination_and_child_account, assert_proposal_not_expired,
  assert_fresh_proposal_nonce, assert_and_increment_local_nonce, assert_not_executed,
  assert_proposal_exists, assert_threshold_satisfied, assert_approval_witness_value, mark_executed,
  emit_receivers_event, execute_transfers, assert_valid_initial_governance,
}
use mina_guard.Guard.Setup.{
  reserve_for_parent, create_child_owner_events, execute_setup_child, setup, initialize_state,
  setup_owner_events,
}
use mina_guard.Guard.Propose.{
  propose, is_local_type, is_remote_type, is_known_type, is_transfer_like, allows_data,
  assert_zero_amounts, assert_receiver_slots, assert_proposal_rules,
}
use mina_guard.Guard.Approve.{approve_proposal}
use mina_guard.Guard.Execute.{
  execute_transfer, execute_allocate_to_children, allocate_payments, execute_owner_change,
}
use mina_guard.Guard.Child.{
  execute_reclaim_to_parent, execute_destroy, execute_enable_child_multi_sig,
}
use mina_guard.Base.{◌≤◌, ◌≡◌, ◌≢◌, refl, List, [], ◌∷◌, length, ok, arith}
use mina_guard.Guard.Execute.OwnerChange.{HasOwners}
use mina_guard.Guard.Execute.Payments.{paid_to, execute_transfer-paid}
use mina_guard.Guard.Run.{Ballot, Run, start, next, blank, call, cast}
use mina_guard.Guard.Run.Governance.{IsGoverned, Run-IsGoverned}
use mina_guard.Guard.Run.OwnerList.{Run-HasOwners}
use mina_guard.Guard.Run.Tally.{Ledgered}
use mina_guard.Guard.Run.Books.{Run-Ledgered}
use mina_guard.Guard.Run.Quorum.{Quorum, LocalCall, voters, local_execution-Quorum}
use mina_guard.Guard.Run.Replay.{now, executed_once}
use mina_guard.Examples.Pairing.{pair, packed, digit_count, digits_on, encode}
use mina_guard.Examples.Ideal.{
  ideal, ideal-HashLaws, ideal-MerkleLaws, codes, find, ideal_hash, ideal_path,
}
use mina_guard.Examples.Session.{
  succeeds, key, alice, bob, guard_key, here, transfer, transfer_hash, path, approved, outcome,
  succeeds_lem, at, state1, state2, state3, setup_args, propose_args, approve_args, transfer_args,
}
use mina_guard.Examples.Family.{reserved, child, approving_addition}
use mina_guard.Examples.Steps.{
  setup_succeeds, propose_succeeds, approve_succeeds, transfer_succeeds,
}

well_formed : IsWellFormed transfer
well_formed = record { slots = refl }

unfoldable pub ballots : List Ballot
unfolding cast
ballots = cast state2 approve_args (cast state1 propose_args (cast blank setup_args []))

run1 : Run 1 state1 (cast blank setup_args [])
unfolding state1
run1 = next start (here guard_key blank) setup_args refl (succeeds_lem _ setup_succeeds)

run2 : Run 2 state2 (cast state1 propose_args (cast blank setup_args []))
unfolding state2
run2 =
    next run1 (here guard_key state1) propose_args (refl, well_formed)
      (succeeds_lem _ propose_succeeds)

pub run3 : Run 3 state3 ballots
unfolding state3 ballots
run3 =
    next run2 (here guard_key state2) approve_args (refl, well_formed)
      (succeeds_lem _ approve_succeeds)

pub initialized3 : state3.owners_commitment ≢ 0
unfolding succeeds call ideal ideal_hash ideal_path codes pair packed digit_count digits_on encode
    find fadd fsub initial_owner_chain owner_chain_link network_domain network_domain_ids
    vote_nullifier_key proposal_signing_message executed_marker proposal_hash receiver_fields
    scalar_fields at_most_one_receiver state1 state2 state3 setup initialize_state
    setup_owner_events assert_valid_initial_governance assert_coherent_setup_owners check_slots
    check_later assert_on_curve_if compute_setup_owners_chain setup_chain_from
    assert_owner_membership membership_loop propose is_local_type is_remote_type is_known_type
    is_transfer_like allows_data assert_zero_amounts assert_receiver_slots assert_proposal_rules
    approve_proposal execute_transfer assert_enabled_if_child get_initialized_owners_commitment
    assert_merkle_witness_value assert_local_proposal assert_valid_proposal_config_network_and_guard
    assert_proposal_config_network_and_guard assert_proposal_destination_and_child_account
    assert_proposal_not_expired assert_fresh_proposal_nonce assert_and_increment_local_nonce
    assert_not_executed assert_proposal_exists assert_threshold_satisfied
    assert_approval_witness_value mark_executed emit_receivers_event execute_transfers
    child_config_hash reserve_for_parent create_child_owner_events execute_setup_child
    assert_parent_approval_state execute_reclaim_to_parent execute_destroy
    execute_enable_child_multi_sig assert_valid_remote_proposal verify_parent_approval
    assert_curr_account_is_child assert_child_execution_witness_value
    assert_and_increment_parent_nonce bump_config_nonce execute_allocate_to_children
    allocate_payments execute_owner_change add_owner_to_commitment add_loop
    remove_owner_from_commitment remove_loop compute_owner_chain owner_chain_from reserved child
    approving_addition cast outcome
initialized3 e = absurd (omega (arith, e))

owners3 : HasOwners state3 (alice ∷ bob ∷ [])
unfolding succeeds call ideal ideal_hash ideal_path codes pair packed digit_count digits_on encode
    find fadd fsub initial_owner_chain owner_chain_link network_domain network_domain_ids
    vote_nullifier_key proposal_signing_message executed_marker proposal_hash receiver_fields
    scalar_fields at_most_one_receiver state1 state2 state3 setup initialize_state
    setup_owner_events assert_valid_initial_governance assert_coherent_setup_owners check_slots
    check_later assert_on_curve_if compute_setup_owners_chain setup_chain_from
    assert_owner_membership membership_loop propose is_local_type is_remote_type is_known_type
    is_transfer_like allows_data assert_zero_amounts assert_receiver_slots assert_proposal_rules
    approve_proposal execute_transfer assert_enabled_if_child get_initialized_owners_commitment
    assert_merkle_witness_value assert_local_proposal assert_valid_proposal_config_network_and_guard
    assert_proposal_config_network_and_guard assert_proposal_destination_and_child_account
    assert_proposal_not_expired assert_fresh_proposal_nonce assert_and_increment_local_nonce
    assert_not_executed assert_proposal_exists assert_threshold_satisfied
    assert_approval_witness_value mark_executed emit_receivers_event execute_transfers
    child_config_hash reserve_for_parent create_child_owner_events execute_setup_child
    assert_parent_approval_state execute_reclaim_to_parent execute_destroy
    execute_enable_child_multi_sig assert_valid_remote_proposal verify_parent_approval
    assert_curr_account_is_child assert_child_execution_witness_value
    assert_and_increment_parent_nonce bump_config_nonce execute_allocate_to_children
    allocate_payments execute_owner_change add_owner_to_commitment add_loop
    remove_owner_from_commitment remove_loop compute_owner_chain owner_chain_from reserved child
    approving_addition cast outcome
owners3 = record {
  commitment = refl;
  counted = refl;
  distinct = (((λ e. omega arith), tt), (tt, tt));
}

abbrev the_transfer : LocalCall
the_transfer = record { proposal = transfer; witness = path transfer_hash approved; count = 3 }

transferred : at state3 transfer_args ≡ ok (outcome (at state3 transfer_args))
transferred = succeeds_lem (at state3 transfer_args) transfer_succeeds

local_execution-Quorum_example :
    Quorum (alice ∷ bob ∷ []) state3.threshold transfer_hash (voters transfer_hash ballots)
local_execution-Quorum_example =
    local_execution-Quorum ideal-HashLaws ideal-MerkleLaws (omega arith) run3 (alice ∷ bob ∷ [])
      owners3 (here guard_key state3) transfer_args the_transfer refl well_formed transferred

executed_once_example : ¬ (
    at (outcome (at state3 transfer_args)).state transfer_args
    ≡ ok (outcome (at state3 transfer_args)))
executed_once_example =
    executed_once ideal-HashLaws ideal-MerkleLaws (omega arith) run3 (here guard_key state3)
      transfer_args the_transfer well_formed refl transferred now
      (here guard_key (outcome (at state3 transfer_args)).state) transfer_args 3
      (outcome (at state3 transfer_args)) refl

Run-HasOwners_example : (xs : List PublicKey) × HasOwners state3 xs × (length xs ≤ max_owners)
Run-HasOwners_example = Run-HasOwners ideal-HashLaws run3 initialized3

Run-IsGoverned_example : IsGoverned state3
Run-IsGoverned_example = Run-IsGoverned run3 initialized3

Run-Ledgered_example :
    (f : Field → Field) × (g : Field → Field) × Ledgered ideal-MerkleLaws state3 ballots f g
Run-Ledgered_example = Run-Ledgered ideal-HashLaws ideal-MerkleLaws (omega arith) run3 initialized3

execute_transfer-paid_example : paid_to (key 9) (outcome (at state3 transfer_args)).payments ≡ 100
unfolding call
execute_transfer-paid_example =
    execute_transfer-paid (here guard_key state3) state3 transfer (path transfer_hash approved) 3
      transferred (key 9) refl
