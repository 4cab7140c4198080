-- ===== src/Guard/Approve.antt =====
-- `approveProposal` of `class MinaGuard`.
use mina_guard.Base.{none, [], ◌∷◌, Result, ok, require, ◌>>=◌, ◌>>◌}
use mina_guard.Platform.{Field, PublicKey, Signature, MerkleMapWitness, Platform, fadd}
use mina_guard.Hashes.{vote_nullifier_key, proposal_signing_message, approve_action}
use mina_guard.Owners.{OwnerWitness, assert_owner_membership}
use mina_guard.Proposal.{TransactionProposal, proposal_hash}
use mina_guard.Guard.{Guard, Env, Event, Outcome}
use mina_guard.Guard.Checks.{
  assert_enabled_if_child, get_initialized_owners_commitment,
  assert_proposal_config_network_and_guard, assert_proposal_destination_and_child_account,
  assert_proposal_not_expired, assert_fresh_proposal_nonce, assert_merkle_witness_value,
  assert_not_executed, assert_proposal_exists, assert_approval_witness_value,
}

module _ ⦃o : Platform⦄ where
  unfoldable pub approve_proposal :
      Env
      → Guard
      → TransactionProposal
      → Signature
      → PublicKey
      → OwnerWitness
      → MerkleMapWitness
      → Field
      → MerkleMapWitness
      → Result Outcome
  approve_proposal env s p signature approver owner_witness approval_witness count vote_witness = do
    assert_enabled_if_child s
    commitment ← get_initialized_owners_commitment s
    assert_owner_membership commitment approver owner_witness
    assert_proposal_config_network_and_guard env s p
    assert_proposal_destination_and_child_account s p
    assert_proposal_not_expired env p
    assert_fresh_proposal_nonce env s p
    let hash = proposal_hash p
    require (o.verify signature approver (proposal_signing_message hash approve_action ∷ []))
        "Invalid signature"
    assert_not_executed count
    assert_proposal_exists count
    assert_merkle_witness_value s.vote_nullifier_root (vote_nullifier_key hash approver)
        vote_witness 0 "Vote nullifier root mismatch" "Vote nullifier key mismatch"
    let new_vote_root = (o.compute_root_and_key vote_witness 1).0
    assert_approval_witness_value s hash approval_witness count
    let new_count = fadd count 1
    let new_approval_root = (o.compute_root_and_key approval_witness new_count).0
    ok (record {
      state = record s { vote_nullifier_root = new_vote_root; approval_root = new_approval_root };
      events =
          Event.approval (record {
            proposal_hash = hash;
            approver = approver;
            approval_count = new_count;
            approval_root = new_approval_root;
            vote_nullifier_root = new_vote_root;
          })
          ∷ [];
      payments = [];
      delegate = none;
      permissions = none;
    })
