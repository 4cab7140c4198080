-- ===== src/Guard/Checks.antt =====
-- The private validation helpers of `class MinaGuard`, which its methods share.
pub mod Facts
use mina_guard.Base.{
  String, ℕ, ◌^◌, ◌-◌, Bool, true, false, Option, none, some, List, [], ◌∷◌, ◌++◌, map, Result, ok,
  require, forbid, or_throw, ◌>>=◌, ◌>>◌, ◌&&◌, ◌||◌, not, ltb, leb, ◌==◌, if◌then◌else◌,
}
use mina_guard.Platform.{
  Field, UInt64, PublicKey, MerkleMapWitness, Platform, key_eq, is_empty, fadd,
}
use mina_guard.Constants.{
  executed_marker, proposed_marker, max_owners, create_child_type, local, remote,
}
use mina_guard.Proposal.{Receiver, TransactionProposal, proposal_hash}
use mina_guard.Guard.{Guard, Env, Event, Payment}

module _ ⦃o : Platform⦄ where
  -- `assertChildMultiSigEnabledIfChild`
  unfoldable pub assert_enabled_if_child : Guard → Result (Unit {0})
  assert_enabled_if_child s =
      let is_child = not (is_empty s.parent) in
      require (not is_child || s.child_multi_sig_enabled == 1) "Child multi-sig disabled"

  unfoldable pub get_initialized_owners_commitment : Guard → Result Field
  get_initialized_owners_commitment s = do
    forbid (s.owners_commitment == 0) "Wallet not initialized"
    ok s.owners_commitment

  unfoldable pub assert_merkle_witness_value :
      Field → Field → MerkleMapWitness → Field → String → String → Result (Unit {0})
  assert_merkle_witness_value root key w value root_message key_message =
      let (computed_root, computed_key) = o.compute_root_and_key w value in
      do require (computed_root == root) root_message; require (computed_key == key) key_message

  unfoldable pub bump_config_nonce : Guard → Field
  bump_config_nonce s = fadd s.config_nonce 1

  unfoldable pub assert_local_proposal : TransactionProposal → Result (Unit {0})
  assert_local_proposal p = require (p.destination == local) "Not a local destination proposal"

  unfoldable pub assert_valid_remote_proposal : Env → TransactionProposal → Result (Unit {0})
  assert_valid_remote_proposal env p = do
    require (p.destination == remote) "Not a remote destination proposal"
    require (key_eq p.child_account env.address) "Proposal not for this child"

  unfoldable pub assert_curr_account_is_child : PublicKey → Result (Unit {0})
  assert_curr_account_is_child parent = forbid (is_empty parent) "Not a child account"

  unfoldable pub assert_valid_proposal_config_network_and_guard :
      TransactionProposal → Field → PublicKey → Result (Unit {0})
  assert_valid_proposal_config_network_and_guard p config_nonce guard_address = do
    require (p.config_nonce == config_nonce)
        "Config nonce mismatch - governance changed since proposal"
    require (key_eq p.guard_address guard_address) "Guard address mismatch"

  unfoldable pub assert_proposal_config_network_and_guard :
      Env → Guard → TransactionProposal → Result (Unit {0})
  unfolding assert_valid_proposal_config_network_and_guard
  assert_proposal_config_network_and_guard env s p =
      assert_valid_proposal_config_network_and_guard p s.config_nonce env.address

  unfoldable pub assert_proposal_destination_and_child_account :
      Guard → TransactionProposal → Result (Unit {0})
  assert_proposal_destination_and_child_account s p =
      let is_local = p.destination == local in
      let is_remote = p.destination == remote in
      let child_account_empty = is_empty p.child_account in
      let is_root = is_empty s.parent in
      do
        require (is_local || is_remote) "Invalid destination value"
        require (is_remote || child_account_empty)
            "Local destination proposals cannot target child accounts"
        require (is_local || not child_account_empty)
            "Remote destination proposals must target a specific child account"
        require (is_local || is_root)
            "Remote destination proposals must be proposed on a root guard"

  -- The range of slots is a precondition that the ledger checks at inclusion.
  unfoldable pub assert_proposal_not_expired : Env → TransactionProposal → Result (Unit {0})
  assert_proposal_not_expired env p = do
    require (ltb p.expiry_slot (2 ^ 32)) "UInt32: out of range"
    require (leb env.slot (if p.expiry_slot == 0 then 2 ^ 32 - 1 else p.expiry_slot))
        "globalSlotSinceGenesis precondition unsatisfied"

  unfoldable pub assert_fresh_proposal_nonce : Env → Guard → TransactionProposal → Result (Unit {0})
  assert_fresh_proposal_nonce env s p =
      let is_local = p.destination == local in
      let is_create_child = p.tx_type == create_child_type in
      let is_remote_non_create = p.destination == remote && not is_create_child in
      let is_remote_create = p.destination == remote && is_create_child in
      let nonce_authority = if is_remote_non_create then p.child_account else env.address in
      do
        child ← or_throw (env.ledger nonce_authority) "Could not fetch the account"
        require (not is_remote_non_create || not (child.owners_commitment == 0))
            "Target child not initialized"
        require (not is_remote_non_create || key_eq child.parent env.address)
            "Target child not bound to this parent"
        require
            (is_local && ltb s.nonce p.nonce
              || is_remote_non_create && ltb child.parent_nonce p.nonce
              || is_remote_create && p.nonce == 0)
            "Proposal nonce stale"

  -- The next value of `nonce`.
  unfoldable pub assert_and_increment_local_nonce : Guard → TransactionProposal → Result Field
  assert_and_increment_local_nonce s p =
      let next_nonce = fadd s.nonce 1 in
      do require (p.nonce == next_nonce) "Invalid proposal nonce"; ok next_nonce

  unfoldable pub assert_and_increment_parent_nonce : Guard → TransactionProposal → Result Field
  assert_and_increment_parent_nonce s p =
      let next_parent_nonce = fadd s.parent_nonce 1 in
      do
        require (p.nonce == next_parent_nonce) "Invalid parent proposal nonce"
        ok next_parent_nonce

  unfoldable pub assert_not_executed : Field → Result (Unit {0})
  assert_not_executed count = forbid (count == executed_marker) "Proposal already executed"

  unfoldable pub assert_proposal_exists : Field → Result (Unit {0})
  assert_proposal_exists count = require (leb proposed_marker count) "Proposal not found"

  unfoldable pub assert_threshold_satisfied : Field → Field → Result (Unit {0})
  assert_threshold_satisfied count threshold =
      require (leb (fadd threshold proposed_marker) count) "Insufficient approvals"

  unfoldable pub assert_approval_witness_value :
      Guard → Field → MerkleMapWitness → Field → Result (Unit {0})
  unfolding assert_merkle_witness_value
  assert_approval_witness_value s hash w value =
      assert_merkle_witness_value s.approval_root hash w value "Approval root mismatch"
        "Approval key mismatch"

  -- The new approval root; `markChildExecuted` computes the new execution root the same way.
  unfoldable pub mark_executed : MerkleMapWitness → Field
  mark_executed w = (o.compute_root_and_key w executed_marker).0

  unfoldable pub assert_child_execution_witness_value :
      Guard → Field → MerkleMapWitness → Field → Result (Unit {0})
  unfolding assert_merkle_witness_value
  assert_child_execution_witness_value s hash w value =
      assert_merkle_witness_value s.child_execution_root hash w value
        "Child execution root mismatch" "Child execution key mismatch"

  unfoldable pub assert_parent_approval_state :
      Env → TransactionProposal → PublicKey → MerkleMapWitness → Field → Result Field
  assert_parent_approval_state env p parent_address w count = do
    parent ← or_throw (env.ledger parent_address) "Could not fetch the account"
    forbid (parent.owners_commitment == 0) "Parent not initialized"
    assert_valid_proposal_config_network_and_guard p parent.config_nonce parent_address
    assert_proposal_not_expired env p
    assert_merkle_witness_value parent.approval_root (proposal_hash p) w count
        "Parent approval root mismatch" "Parent approval key mismatch"
    assert_not_executed count
    assert_proposal_exists count
    assert_threshold_satisfied count parent.threshold
    ok (proposal_hash p)

  unfoldable pub verify_parent_approval :
      Env → Guard → TransactionProposal → MerkleMapWitness → Field → Result Field
  verify_parent_approval env s p w count = do
    assert_curr_account_is_child s.parent
    assert_parent_approval_state env p s.parent w count

  unfoldable pub assert_valid_initial_governance : Field → Field → Result (Unit {0})
  assert_valid_initial_governance threshold num_owners = do
    require (ltb 0 threshold) "Threshold must be > 0"
    require (leb threshold num_owners) "Owners must be >= threshold"
    require (leb num_owners max_owners) "Too many owners"

-- The amount of a slot: zero where the slot is empty.
abbrev pub effective_amount : Receiver → UInt64
effective_amount r = if is_empty r.address then 0 else r.amount

-- `emitReceiversEvent`
unfoldable pub emit_receivers_event : Field → List Receiver → List Event
emit_receivers_event hash [] = []
emit_receivers_event hash (r ∷ rs) =
    Event.receiver
      (record { proposal_hash = hash; receiver = r.address; amount = effective_amount r })
    ∷ emit_receivers_event hash rs

-- `executeTransfers`: an empty slot sends nothing to the guard itself.
unfoldable pub execute_transfers : Env → List Receiver → List Payment
execute_transfers env [] = []
execute_transfers env (r ∷ rs) =
    record {
      to = if is_empty r.address then env.address else r.address;
      amount = effective_amount r;
    }
    ∷ execute_transfers env rs
