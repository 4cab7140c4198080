-- ===== src/Guard/Child.antt =====
-- The child lifecycle methods of `class MinaGuard`, which execute a parent's REMOTE proposal:
-- `executeReclaimToParent`, `executeDestroy`, `executeEnableChildMultiSig`.
pub mod Authority
pub mod Remote
use mina_guard.Base.{
  ◌^◌, ◌-◌, none, [], ◌∷◌, Result, ok, require, ◌>>=◌, ◌>>◌, ◌&&◌, ◌||◌, leb, ◌==◌, bit,
}
use mina_guard.Platform.{Field, UInt64, MerkleMapWitness, Platform, fadd}
use mina_guard.Constants.{reclaim_child_type, destroy_child_type, enable_child_multi_sig_type}
use mina_guard.Proposal.{TransactionProposal}
use mina_guard.Guard.{Guard, Env, Event, Outcome}
use mina_guard.Guard.Checks.{
  get_initialized_owners_commitment, assert_valid_remote_proposal, verify_parent_approval,
  assert_child_execution_witness_value, assert_and_increment_parent_nonce, mark_executed,
  bump_config_nonce,
}

module _ ⦃o : Platform⦄ where
  unfoldable pub execute_reclaim_to_parent :
      Env
      → Guard
      → TransactionProposal
      → MerkleMapWitness
      → Field
      → MerkleMapWitness
      → UInt64
      → Result Outcome
  execute_reclaim_to_parent env s p parent_witness parent_count child_witness amount = do
    _ ← get_initialized_owners_commitment s
    require (p.tx_type == reclaim_child_type) "Not a reclaim child tx"
    assert_valid_remote_proposal env p
    hash ← verify_parent_approval env s p parent_witness parent_count
    assert_child_execution_witness_value s hash child_witness 0
    next_nonce ← assert_and_increment_parent_nonce s p
    require (p.payload == amount) "Data does not match reclaim amount"
    ok (record {
      state = record s {
        parent_nonce = next_nonce;
        child_execution_root = mark_executed child_witness;
      };
      events =
          Event.execution (record {
            proposal_hash = hash;
            tx_type = p.tx_type;
            root = mark_executed child_witness;
          })
          ∷ Event.reclaim_child
              (record { proposal_hash = hash; parent_address = s.parent; amount = amount })
          ∷ [];
      payments = record { to = s.parent; amount = amount } ∷ [];
      delegate = none;
      permissions = none;
    })

  -- `balance` is what the prover reads; the ledger checks that the account holds at least as much.
  unfoldable pub execute_destroy :
      Env
      → Guard
      → TransactionProposal
      → MerkleMapWitness
      → Field
      → MerkleMapWitness
      → UInt64
      → Result Outcome
  execute_destroy env s p parent_witness parent_count child_witness balance = do
    _ ← get_initialized_owners_commitment s
    require (p.tx_type == destroy_child_type) "Not a destroy child tx"
    assert_valid_remote_proposal env p
    hash ← verify_parent_approval env s p parent_witness parent_count
    assert_child_execution_witness_value s hash child_witness 0
    next_nonce ← assert_and_increment_parent_nonce s p
    require (leb balance env.balance && leb env.balance (2 ^ 64 - 1))
        "balance precondition unsatisfied"
    ok (record {
      state = record s {
        config_nonce = bump_config_nonce s;
        parent_nonce = next_nonce;
        child_execution_root = mark_executed child_witness;
        child_multi_sig_enabled = 0;
      };
      events =
          Event.execution (record {
            proposal_hash = hash;
            tx_type = p.tx_type;
            root = mark_executed child_witness;
          })
          ∷ Event.reclaim_child
              (record { proposal_hash = hash; parent_address = s.parent; amount = balance })
          ∷ Event.enable_child_multi_sig (record {
            proposal_hash = hash;
            parent_address = s.parent;
            enabled = 0;
            config_nonce = bump_config_nonce s;
          })
          ∷ [];
      payments = record { to = s.parent; amount = balance } ∷ [];
      delegate = none;
      permissions = none;
    })

  unfoldable pub execute_enable_child_multi_sig :
      Env
      → Guard
      → TransactionProposal
      → MerkleMapWitness
      → Field
      → MerkleMapWitness
      → Field
      → Result Outcome
  execute_enable_child_multi_sig env s p parent_witness parent_count child_witness enabled = do
    _ ← get_initialized_owners_commitment s
    require (p.tx_type == enable_child_multi_sig_type) "Not an enable-child-multi-sig tx"
    assert_valid_remote_proposal env p
    hash ← verify_parent_approval env s p parent_witness parent_count
    assert_child_execution_witness_value s hash child_witness 0
    next_nonce ← assert_and_increment_parent_nonce s p
    require (p.payload == enabled) "Data does not match enabled flag"
    require (enabled == 0 || enabled == 1) "Enabled must be 0 or 1"
    let config_nonce = fadd s.config_nonce (bit (enabled == 0))
    ok (record {
      state = record s {
        config_nonce = config_nonce;
        parent_nonce = next_nonce;
        child_execution_root = mark_executed child_witness;
        child_multi_sig_enabled = enabled;
      };
      events =
          Event.execution (record {
            proposal_hash = hash;
            tx_type = p.tx_type;
            root = mark_executed child_witness;
          })
          ∷ Event.enable_child_multi_sig (record {
            proposal_hash = hash;
            parent_address = s.parent;
            enabled = enabled;
            config_nonce = config_nonce;
          })
          ∷ [];
      payments = [];
      delegate = none;
      permissions = none;
    })
