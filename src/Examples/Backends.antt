-- ===== src/Examples/Backends.antt =====
-- A served proposal of the session and one of the family, and the theorems on their status.
use mina_guard.Base.{◌≡◌, refl, String, none, some, [], ◌∷◌, ok, arith}
use mina_guard.Proposal.{TransactionProposal}
use mina_guard.Backend.{Numbers, NumberLaws}
use mina_guard.Backend.Proposals.{
  ContractState, ReceiverRow, ProposalRow, SerializedProposalRecord, pending_status, derive_status,
  derive_invalid_reason, add_amounts, total_amount, insert_receiver, sort_receivers,
  compute_proposal_memo_match, compute_memo_execution_match, serialize_proposal_record,
}
use mina_guard.Backend.Proposals.Status.{Describes, local_call-pending, remote_call-pending}
use mina_guard.Guard.Run.Quorum.{LocalCall}
use mina_guard.Guard.Child.Remote.{RemoteCall}
use mina_guard.Examples.Steps.{transfer_succeeds, destroy-succeeds}
use mina_guard.Examples.Store.{strokes}
use mina_guard.Examples.Readers.{stroke_numerals, stroke_numerals-NumeralLaws}
use mina_guard.Examples.Memos.{plain}
use mina_guard.Platform.{fadd, fsub}
use mina_guard.Constants.{initial_owner_chain, executed_marker, network_domain, network_domain_ids}
use mina_guard.Hashes.{
  vote_nullifier_key, proposal_signing_message, owner_chain_link, child_config_hash,
}
use mina_guard.Owners.{
  assert_coherent_setup_owners, check_slots, check_later, assert_on_curve_if,
  compute_setup_owners_chain, setup_chain_from, assert_owner_membership, membership_loop,
  add_owner_to_commitment, add_loop, remove_owner_from_commitment, remove_loop, compute_owner_chain,
  owner_chain_from,
}
use mina_guard.Proposal.{proposal_hash, receiver_fields, scalar_fields, at_most_one_receiver}
use mina_guard.Guard.Checks.{
  assert_parent_approval_state, assert_valid_remote_proposal, verify_parent_approval,
  assert_curr_account_is_child, assert_child_execution_witness_value,
  assert_and_increment_parent_nonce, bump_config_nonce, assert_enabled_if_child,
  get_initialized_owners_commitment, assert_merkle_witness_value, assert_local_proposal,
  assert_valid_proposal_config_network_and_guard, assert_proposal_config_network_and_guard,
  assert_proposal_destination_and_child_account, assert_proposal_not_expired,
  assert_fresh_proposal_nonce, assert_and_increment_local_nonce, assert_not_executed,
  assert_proposal_exists, assert_threshold_satisfied, assert_approval_witness_value, mark_executed,
  emit_receivers_event, execute_transfers, assert_valid_initial_governance,
}
use mina_guard.Guard.Setup.{
  reserve_for_parent, create_child_owner_events, execute_setup_child, setup, initialize_state,
  setup_owner_events,
}
use mina_guard.Guard.Propose.{
  propose, is_local_type, is_remote_type, is_known_type, is_transfer_like, allows_data,
  assert_zero_amounts, assert_receiver_slots, assert_proposal_rules,
}
use mina_guard.Guard.Approve.{approve_proposal}
use mina_guard.Guard.Execute.{
  execute_transfer, execute_allocate_to_children, allocate_payments, execute_owner_change,
}
use mina_guard.Guard.Child.{
  execute_reclaim_to_parent, execute_destroy, execute_enable_child_multi_sig,
}
use mina_guard.Guard.Run.{call}
use mina_guard.Examples.Pairing.{pair, packed, digit_count, digits_on, encode}
use mina_guard.Examples.Ideal.{ideal, codes, find, ideal_hash, ideal_path}
use mina_guard.Examples.Session.{
  succeeds, outcome, here, guard_key, transfer, transfer_hash, approved, path, succeeds_lem, at,
  transfer_args, state1, state2, state3,
}
use mina_guard.Examples.Family.{
  reserved, child, child_env, destroy, destroy_args, approving, parent_path, child_path,
  approving_addition,
}

instance unfoldable pub stroke_numbers : Numbers
stroke_numbers = record {
  number_of = stroke_numerals.field_of;
  big_int = stroke_numerals.field_of;
  big_text = stroke_numerals.field_text;
}

stroke_numbers-NumberLaws : NumberLaws stroke_numerals stroke_numbers
unfolding stroke_numbers
stroke_numbers-NumberLaws = record { exact = λ f h. stroke_numerals-NumeralLaws.reads_back f }

abbrev receiver_row : ReceiverRow
receiver_row = record { idx = 0; address = "bob"; amount = strokes 3 }

abbrev row_of : TransactionProposal → String → ProposalRow
row_of p destination = record {
  proposal_hash = "hash";
  proposer = none;
  to_address = none;
  token_id = none;
  tx_type = none;
  data_text = none;
  nonce = some (stroke_numerals.field_text p.nonce);
  config_nonce = some (stroke_numerals.field_text p.config_nonce);
  expiry_slot = some (stroke_numerals.field_text p.expiry_slot);
  guard_address = none;
  memo = none;
  memo_hash = none;
  execution_memo_hash = none;
  destination = some destination;
  child_account = none;
  last_approve_tx_hash = none;
  last_approve_error = none;
  last_execute_tx_hash = none;
  last_execute_error = none;
  created_at_block = 5;
  created_at = 0;
  updated_at = 0;
  receivers = record receiver_row { idx = 1 } ∷ receiver_row ∷ [];
  executions = [];
  approvals = 2;
}

abbrev seen_state : ContractState
seen_state = record { nonce = some 0; parent_nonce = some 0; config_nonce = some 0 }

-- What is served for it, at slot 7.
abbrev served_of : ProposalRow → SerializedProposalRecord
served_of row = record {
  row = row;
  proposal_memo_match = none;
  memo_execution_match = none;
  status = pending_status;
  invalid_reason = none;
  child_target_indexed = none;
  executed_at_block = none;
  execution_tx_hash = none;
  receivers = receiver_row ∷ record receiver_row { idx = 1 } ∷ [];
  recipient_count = 2;
  total_amount = some (strokes 5);
}

pub counters3 : (state3.nonce ≡ 0) × (state3.config_nonce ≡ 0)
unfolding succeeds outcome call ideal ideal_hash ideal_path codes pair packed digit_count digits_on
    encode find fadd fsub initial_owner_chain owner_chain_link network_domain network_domain_ids
    vote_nullifier_key proposal_signing_message executed_marker proposal_hash receiver_fields
    scalar_fields at_most_one_receiver state1 state2 state3 setup initialize_state
    setup_owner_events assert_valid_initial_governance assert_coherent_setup_owners check_slots
    check_later assert_on_curve_if compute_setup_owners_chain setup_chain_from
    assert_owner_membership membership_loop propose is_local_type is_remote_type is_known_type
    is_transfer_like allows_data assert_zero_amounts assert_receiver_slots assert_proposal_rules
    approve_proposal execute_transfer assert_enabled_if_child get_initialized_owners_commitment
    assert_merkle_witness_value assert_local_proposal assert_valid_proposal_config_network_and_guard
    assert_proposal_config_network_and_guard assert_proposal_destination_and_child_account
    assert_proposal_not_expired assert_fresh_proposal_nonce assert_and_increment_local_nonce
    assert_not_executed assert_proposal_exists assert_threshold_satisfied
    assert_approval_witness_value mark_executed emit_receivers_event execute_transfers
    child_config_hash reserve_for_parent create_child_owner_events execute_setup_child
    assert_parent_approval_state execute_reclaim_to_parent execute_destroy
    execute_enable_child_multi_sig assert_valid_remote_proposal verify_parent_approval
    assert_curr_account_is_child assert_child_execution_witness_value
    assert_and_increment_parent_nonce bump_config_nonce execute_allocate_to_children
    allocate_payments execute_owner_change add_owner_to_commitment add_loop
    remove_owner_from_commitment remove_loop compute_owner_chain owner_chain_from reserved child
    approving_addition
counters3 = (refl, refl)

child_counter : child.parent_nonce ≡ 0
unfolding succeeds outcome call ideal ideal_hash ideal_path codes pair packed digit_count digits_on
    encode find fadd fsub initial_owner_chain owner_chain_link network_domain network_domain_ids
    vote_nullifier_key proposal_signing_message executed_marker proposal_hash receiver_fields
    scalar_fields at_most_one_receiver state1 state2 state3 setup initialize_state
    setup_owner_events assert_valid_initial_governance assert_coherent_setup_owners check_slots
    check_later assert_on_curve_if compute_setup_owners_chain setup_chain_from
    assert_owner_membership membership_loop propose is_local_type is_remote_type is_known_type
    is_transfer_like allows_data assert_zero_amounts assert_receiver_slots assert_proposal_rules
    approve_proposal execute_transfer assert_enabled_if_child get_initialized_owners_commitment
    assert_merkle_witness_value assert_local_proposal assert_valid_proposal_config_network_and_guard
    assert_proposal_config_network_and_guard assert_proposal_destination_and_child_account
    assert_proposal_not_expired assert_fresh_proposal_nonce assert_and_increment_local_nonce
    assert_not_executed assert_proposal_exists assert_threshold_satisfied
    assert_approval_witness_value mark_executed emit_receivers_event execute_transfers
    child_config_hash reserve_for_parent create_child_owner_events execute_setup_child
    assert_parent_approval_state execute_reclaim_to_parent execute_destroy
    execute_enable_child_multi_sig assert_valid_remote_proposal verify_parent_approval
    assert_curr_account_is_child assert_child_execution_witness_value
    assert_and_increment_parent_nonce bump_config_nonce execute_allocate_to_children
    allocate_payments execute_owner_change add_owner_to_commitment add_loop
    remove_owner_from_commitment remove_loop compute_owner_chain owner_chain_from reserved child
    approving_addition
child_counter = refl

abbrev local_row : ProposalRow
local_row = row_of transfer "local"

abbrev remote_row : ProposalRow
remote_row = row_of destroy "remote"

local_served :
    serialize_proposal_record local_row 7 (some seen_state) none ≡ ok (served_of local_row)
unfolding serialize_proposal_record total_amount add_amounts sort_receivers insert_receiver
    derive_status derive_invalid_reason stroke_numbers stroke_numerals strokes
    compute_proposal_memo_match compute_memo_execution_match
local_served = refl

remote_served :
    serialize_proposal_record remote_row 7 (some seen_state) (some seen_state)
    ≡ ok (served_of remote_row)
unfolding serialize_proposal_record total_amount add_amounts sort_receivers insert_receiver
    derive_status derive_invalid_reason stroke_numbers stroke_numerals strokes
    compute_proposal_memo_match compute_memo_execution_match
remote_served = refl

abbrev pub the_transfer : LocalCall
the_transfer = record { proposal = transfer; witness = path transfer_hash approved; count = 3 }

abbrev the_destruction : RemoteCall
the_destruction = record {
  proposal = destroy;
  parent_witness = parent_path destroy;
  count = 2;
  child_witness = child_path destroy;
}

described :
    (p : TransactionProposal) (destination : String)
    → Describes stroke_numerals (row_of p destination) p
described p destination = record { nonce = refl; config_nonce = refl; expiry_slot = refl }

pub transferred : at state3 transfer_args ≡ ok (outcome (at state3 transfer_args))
transferred = succeeds_lem (at state3 transfer_args) transfer_succeeds

local_call-pending_example : (served_of local_row).status ≡ pending_status
local_call-pending_example =
    local_call-pending stroke_numbers-NumberLaws (here guard_key state3) state3 transfer_args
      the_transfer refl transferred (rw (counters3.0) (omega arith))
      (rw (counters3.1) (omega arith)) local_row (some seen_state) none 7
      (described transfer "local") refl refl
      (record { nonce = omega arith; config_nonce = omega arith }) (omega arith) local_served

remote_call-pending_example : (served_of remote_row).status ≡ pending_status
remote_call-pending_example =
    remote_call-pending stroke_numbers-NumberLaws (child_env destroy) child (approving destroy)
      destroy_args the_destruction refl
      (succeeds_lem (call (child_env destroy) child destroy_args) destroy-succeeds) refl
      (rw child_counter (omega arith)) (omega arith) remote_row (some seen_state) (some seen_state)
      7 (described destroy "remote") refl refl (omega arith) (omega arith) (omega arith)
      remote_served
