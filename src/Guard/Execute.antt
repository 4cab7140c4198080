-- ===== src/Guard/Execute.antt =====
-- The methods of `class MinaGuard` that execute a LOCAL proposal: `executeTransfer`,
-- `executeAllocateToChildren`, `executeOwnerChange`, `executeThresholdChange`, `executeDelegate`.
pub mod Local
pub mod Expiry
pub mod OwnerChange
pub mod Payments
use mina_guard.Base.{
  true, none, some, List, [], ◌∷◌, get_or, Result, ok, require, or_throw, ◌>>=◌, ◌>>◌, ◌||◌, not,
  ltb, leb, ◌==◌, bit, if◌then◌else◌,
}
use mina_guard.Platform.{
  Field, PublicKeyOption, MerkleMapWitness, Platform, key_eq, is_empty, fadd, fsub,
}
use mina_guard.Constants.{
  max_owners, transfer_type, allocate_child_type, add_owner_type, remove_owner_type,
  change_threshold_type, set_delegate_type,
}
use mina_guard.Owners.{OwnerWitness, add_owner_to_commitment, remove_owner_from_commitment}
use mina_guard.Proposal.{Receiver, TransactionProposal, empty_receiver, proposal_hash}
use mina_guard.Guard.{Guard, Env, Event, Payment, Outcome}
use mina_guard.Guard.Checks.{
  assert_enabled_if_child, get_initialized_owners_commitment, assert_local_proposal,
  assert_proposal_config_network_and_guard, assert_proposal_not_expired, assert_not_executed,
  assert_proposal_exists, assert_threshold_satisfied, assert_approval_witness_value,
  assert_and_increment_local_nonce, mark_executed, bump_config_nonce, execute_transfers,
  effective_amount,
}

abbrev pub execution_event : Field → TransactionProposal → Field → Event
execution_event hash p root =
    Event.execution (record { proposal_hash = hash; tx_type = p.tx_type; root = root })

module _ ⦃o : Platform⦄ where
  unfoldable pub execute_transfer :
      Env → Guard → TransactionProposal → MerkleMapWitness → Field → Result Outcome
  execute_transfer env s p w count = do
    assert_enabled_if_child s
    _ ← get_initialized_owners_commitment s
    require (p.tx_type == transfer_type) "Not a transfer tx"
    assert_local_proposal p
    let hash = proposal_hash p
    assert_proposal_config_network_and_guard env s p
    assert_proposal_not_expired env p
    assert_not_executed count
    assert_proposal_exists count
    assert_threshold_satisfied count s.threshold
    assert_approval_witness_value s hash w count
    next_nonce ← assert_and_increment_local_nonce s p
    ok (record {
      state = record s { nonce = next_nonce; approval_root = mark_executed w };
      events = execution_event hash p (mark_executed w) ∷ [];
      payments = execute_transfers env p.receivers;
      delegate = none;
      permissions = none;
    })

  -- The loop over the receivers: each slot reads a guard, which is this one for an empty slot.
  unfoldable pub allocate_payments : Env → List Receiver → Result (List Payment)
  allocate_payments env [] = ok []
  allocate_payments env (r ∷ rs) =
      let recipient = if is_empty r.address then env.address else r.address in
      do
        child ← or_throw (env.ledger recipient) "Could not fetch the account"
        require (is_empty r.address || not (child.owners_commitment == 0))
            "Allocation recipient not initialized"
        require (is_empty r.address || key_eq child.parent env.address)
            "Allocation recipient not bound to this parent"
        rest ← allocate_payments env rs
        ok (record { to = recipient; amount = effective_amount r } ∷ rest)

  unfoldable pub execute_allocate_to_children :
      Env → Guard → TransactionProposal → MerkleMapWitness → Field → Result Outcome
  execute_allocate_to_children env s p w count = do
    assert_enabled_if_child s
    _ ← get_initialized_owners_commitment s
    require (p.tx_type == allocate_child_type) "Not an allocate child tx"
    assert_local_proposal p
    let hash = proposal_hash p
    assert_proposal_config_network_and_guard env s p
    assert_proposal_not_expired env p
    assert_not_executed count
    assert_proposal_exists count
    assert_threshold_satisfied count s.threshold
    assert_approval_witness_value s hash w count
    next_nonce ← assert_and_increment_local_nonce s p
    payments ← allocate_payments env p.receivers
    ok (record {
      state = record s { nonce = next_nonce; approval_root = mark_executed w };
      events = execution_event hash p (mark_executed w) ∷ [];
      payments = payments;
      delegate = none;
      permissions = none;
    })

  unfoldable pub execute_owner_change :
      Env
      → Guard
      → TransactionProposal
      → MerkleMapWitness
      → Field
      → OwnerWitness
      → PublicKeyOption
      → Result Outcome
  execute_owner_change env s p w count owner_witness insert_after = do
    assert_enabled_if_child s
    commitment ← get_initialized_owners_commitment s
    let is_add = p.tx_type == add_owner_type
    let is_remove = p.tx_type == remove_owner_type
    require (is_add || is_remove) "Not an owner change tx"
    assert_local_proposal p
    let hash = proposal_hash p
    assert_proposal_config_network_and_guard env s p
    assert_proposal_not_expired env p
    assert_not_executed count
    assert_proposal_exists count
    assert_threshold_satisfied count s.threshold
    assert_approval_witness_value s hash w count
    next_nonce ← assert_and_increment_local_nonce s p
    let owner = (get_or p.receivers 0 empty_receiver).address
    let added = add_owner_to_commitment commitment owner owner_witness insert_after
    let removed = remove_owner_from_commitment commitment owner owner_witness
    let new_num_owners = fsub (fadd s.num_owners (bit is_add)) (bit is_remove)
    require (leb s.threshold new_num_owners) "Cannot remove: would go below threshold"
    require (leb new_num_owners max_owners) "Cannot have more than 20 owners."
    require (if is_remove then removed.1 else added.1) "Owner change not valid"
    require (if is_add then added.0 == p.payload else true)
        "Owner commitment does not match approved proposal.data"
    let new_commitment = if is_remove then removed.0 else added.0
    ok (record {
      state = record s {
        owners_commitment = new_commitment;
        num_owners = new_num_owners;
        nonce = next_nonce;
        approval_root = mark_executed w;
        config_nonce = bump_config_nonce s;
      };
      events =
          execution_event hash p (mark_executed w)
          ∷ Event.owner_change (record {
            proposal_hash = hash;
            owner = owner;
            added = bit is_add;
            new_num_owners = new_num_owners;
            new_owners_commitment = new_commitment;
            config_nonce = bump_config_nonce s;
          })
          ∷ [];
      payments = [];
      delegate = none;
      permissions = none;
    })

  unfoldable pub execute_threshold_change :
      Env → Guard → TransactionProposal → MerkleMapWitness → Field → Field → Result Outcome
  execute_threshold_change env s p w count new_threshold = do
    assert_enabled_if_child s
    _ ← get_initialized_owners_commitment s
    require (p.tx_type == change_threshold_type) "Not a threshold change tx"
    assert_local_proposal p
    let hash = proposal_hash p
    assert_proposal_config_network_and_guard env s p
    assert_proposal_not_expired env p
    assert_not_executed count
    assert_proposal_exists count
    assert_threshold_satisfied count s.threshold
    assert_approval_witness_value s hash w count
    next_nonce ← assert_and_increment_local_nonce s p
    require (p.payload == new_threshold) "Data does not match new threshold"
    require (ltb 0 new_threshold) "Threshold must be > 0"
    require (leb new_threshold s.num_owners) "Threshold cannot exceed owner count"
    ok (record {
      state = record s {
        threshold = new_threshold;
        nonce = next_nonce;
        approval_root = mark_executed w;
        config_nonce = bump_config_nonce s;
      };
      events =
          execution_event hash p (mark_executed w)
          ∷ Event.threshold_change (record {
            proposal_hash = hash;
            old_threshold = s.threshold;
            new_threshold = new_threshold;
            config_nonce = bump_config_nonce s;
          })
          ∷ [];
      payments = [];
      delegate = none;
      permissions = none;
    })

  unfoldable pub execute_delegate :
      Env → Guard → TransactionProposal → MerkleMapWitness → Field → Result Outcome
  execute_delegate env s p w count = do
    assert_enabled_if_child s
    _ ← get_initialized_owners_commitment s
    require (p.tx_type == set_delegate_type) "Not a delegate tx"
    assert_local_proposal p
    let hash = proposal_hash p
    assert_proposal_config_network_and_guard env s p
    assert_proposal_not_expired env p
    assert_not_executed count
    assert_proposal_exists count
    assert_threshold_satisfied count s.threshold
    assert_approval_witness_value s hash w count
    next_nonce ← assert_and_increment_local_nonce s p
    let target = (get_or p.receivers 0 empty_receiver).address
    let target_delegate = if is_empty target then env.address else target
    ok (record {
      state = record s { nonce = next_nonce; approval_root = mark_executed w };
      events =
          execution_event hash p (mark_executed w)
          ∷ Event.delegate_set (record { proposal_hash = hash; delegate = target_delegate })
          ∷ [];
      payments = [];
      delegate = some target_delegate;
      permissions = none;
    })
