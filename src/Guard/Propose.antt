-- ===== src/Guard/Propose.antt =====
-- `propose` of `class MinaGuard`. The rules on the payload stand in `assert_proposal_rules`, in the
-- order of the method's body.
pub mod Passes
pub mod Lawful
pub mod Rules
use mina_guard.Base.{
  ℕ, Bool, true, false, Option, none, List, [], ◌∷◌, ◌++◌, all, get_or, Result, ok, require, forbid,
  ◌>>=◌, ◌>>◌, ◌&&◌, ◌||◌, not, ltb, leb, ◌==◌,
}
use mina_guard.Platform.{Field, PublicKey, Signature, MerkleMapWitness, Platform, is_empty, fadd}
use mina_guard.Constants.{
  proposed_marker, native_token_id, transfer_type, add_owner_type, remove_owner_type,
  change_threshold_type, set_delegate_type, create_child_type, allocate_child_type,
  reclaim_child_type, destroy_child_type, enable_child_multi_sig_type, local, remote,
}
use mina_guard.Hashes.{vote_nullifier_key, proposal_signing_message, propose_action}
use mina_guard.Owners.{OwnerWitness, assert_owner_membership, assert_on_curve_if}
use mina_guard.Proposal.{
  Receiver, TransactionProposal, empty_receiver, proposal_hash, at_most_one_receiver,
}
use mina_guard.Guard.{Guard, Env, Event, Outcome}
use mina_guard.Guard.Checks.{
  assert_enabled_if_child, get_initialized_owners_commitment,
  assert_proposal_config_network_and_guard, assert_proposal_destination_and_child_account,
  assert_proposal_not_expired, assert_fresh_proposal_nonce, assert_merkle_witness_value,
  assert_approval_witness_value, emit_receivers_event,
}

-- `receivers[0].address.equals(PublicKey.empty())`
abbrev pub slot0_empty : TransactionProposal → Bool
slot0_empty p = is_empty (get_or p.receivers 0 empty_receiver).address

unfoldable pub is_local_type : Field → Bool
is_local_type t =
    t == transfer_type
    || t == change_threshold_type
    || t == add_owner_type
    || t == remove_owner_type
    || t == set_delegate_type
    || t == allocate_child_type

unfoldable pub is_remote_type : Field → Bool
is_remote_type t =
    t == create_child_type
    || t == reclaim_child_type
    || t == destroy_child_type
    || t == enable_child_multi_sig_type

unfoldable pub is_known_type : Field → Bool
is_known_type t =
    t == transfer_type
    || t == change_threshold_type
    || t == add_owner_type
    || t == remove_owner_type
    || t == set_delegate_type
    || t == create_child_type
    || t == allocate_child_type
    || t == reclaim_child_type
    || t == destroy_child_type
    || t == enable_child_multi_sig_type

unfoldable pub is_transfer_like : Field → Bool
is_transfer_like t = t == transfer_type || t == allocate_child_type

unfoldable pub allows_data : Field → Bool
allows_data t =
    t == change_threshold_type
    || t == create_child_type
    || t == reclaim_child_type
    || t == enable_child_multi_sig_type
    || t == add_owner_type

module _ ⦃o : Platform⦄ where
  -- The loop over the receivers of a type that sends nothing.
  unfoldable pub assert_zero_amounts : Bool → List Receiver → Result (Unit {0})
  assert_zero_amounts transfer_like [] = ok tt
  assert_zero_amounts transfer_like (r ∷ rs) = do
    require (transfer_like || r.amount == 0) "Non-transfer proposal must have zero receiver amounts"
    assert_zero_amounts transfer_like rs

  -- Rules 6 and 7, slot by slot.
  unfoldable pub assert_receiver_slots : List Receiver → Result (Unit {0})
  assert_receiver_slots [] = ok tt
  assert_receiver_slots (r ∷ rs) = do
    assert_on_curve_if (not (is_empty r.address)) r.address
    forbid (is_empty r.address && not (r.amount == 0)) "Empty receiver must have zero amount"
    assert_receiver_slots rs

  unfoldable pub assert_proposal_rules : Guard → TransactionProposal → Result (Unit {0})
  assert_proposal_rules s p =
      let t = p.tx_type in
      do
        require (is_known_type t) "Unknown txType"
        require
            (is_local_type t && p.destination == local
              || is_remote_type t && p.destination == remote)
            "txType and destination mismatch"
        forbid ((t == add_owner_type || t == remove_owner_type) && slot0_empty p)
            "addOwner/removeOwner requires target pubkey in receivers[0]"
        forbid (t == change_threshold_type && not (slot0_empty p))
            "changeThreshold must have empty receivers[0]"
        forbid (is_remote_type t && not (slot0_empty p))
            "Child lifecycle proposal must have empty receivers[0]"
        require (is_transfer_like t || at_most_one_receiver p)
            "Non-transfer proposal has extra receivers"
        assert_zero_amounts (is_transfer_like t) p.receivers
        require (allows_data t || p.payload == 0) "data must be zero for this txType"
        forbid (t == add_owner_type && p.payload == 0)
            "addOwner requires expected owners commitment in data"
        require (not (t == change_threshold_type) || ltb 0 p.payload) "Threshold must be > 0"
        require (not (t == change_threshold_type) || leb p.payload s.num_owners)
            "Threshold cannot exceed owner count"
        require (not (t == enable_child_multi_sig_type) || (p.payload == 0 || p.payload == 1))
            "Enabled must be 0 or 1"
        require (p.token_id == native_token_id)
            "Only the native MINA token (tokenId 1) is supported"
        assert_receiver_slots p.receivers

  unfoldable pub propose :
      Env
      → Guard
      → TransactionProposal
      → OwnerWitness
      → PublicKey
      → Signature
      → MerkleMapWitness
      → MerkleMapWitness
      → Result Outcome
  propose env s p owner_witness proposer signature vote_witness approval_witness = do
    assert_enabled_if_child s
    commitment ← get_initialized_owners_commitment s
    assert_owner_membership commitment proposer owner_witness
    assert_proposal_config_network_and_guard env s p
    assert_proposal_destination_and_child_account s p
    assert_proposal_not_expired env p
    assert_fresh_proposal_nonce env s p
    assert_proposal_rules s p
    let hash = proposal_hash p
    require (o.verify signature proposer (proposal_signing_message hash propose_action ∷ []))
        "Invalid signature"
    assert_merkle_witness_value s.vote_nullifier_root (vote_nullifier_key hash proposer)
        vote_witness 0 "Vote nullifier root mismatch" "Vote nullifier key mismatch"
    let new_vote_root = (o.compute_root_and_key vote_witness 1).0
    assert_approval_witness_value s hash approval_witness 0
    let first_count = fadd proposed_marker 1
    let new_approval_root = (o.compute_root_and_key approval_witness first_count).0
    ok (record {
      state = record s { vote_nullifier_root = new_vote_root; approval_root = new_approval_root };
      events =
          Event.proposal (record {
            proposal_hash = hash;
            proposer = proposer;
            token_id = p.token_id;
            tx_type = p.tx_type;
            payload = p.payload;
            memo_hash = p.memo_hash;
            nonce = p.nonce;
            config_nonce = p.config_nonce;
            expiry_slot = p.expiry_slot;
            guard_address = p.guard_address;
            destination = p.destination;
            child_account = p.child_account;
          })
            ∷ emit_receivers_event hash p.receivers
          ++ Event.approval (record {
            proposal_hash = hash;
            approver = proposer;
            approval_count = first_count;
            approval_root = new_approval_root;
            vote_nullifier_root = new_vote_root;
          })
            ∷ [];
      payments = [];
      delegate = none;
      permissions = none;
    })
