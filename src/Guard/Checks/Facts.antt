-- ===== src/Guard/Checks/Facts.antt =====
-- The private helpers of `class MinaGuard`: the facts behind each check.
use mina_guard.Base.{String, Option-cases, inl, inr, ◌≤◌, ◌<◌, ◌≡◌, ◌≢◌, some, ok, arith}
use mina_guard.Platform.{Field, PublicKey, MerkleMapWitness, Platform, fadd}
use mina_guard.Constants.{executed_marker, max_owners}
use mina_guard.Proposal.{TransactionProposal, proposal_hash}
use mina_guard.Guard.{Guard, Env}
use mina_guard.Guard.Checks.{
  get_initialized_owners_commitment, assert_merkle_witness_value,
  assert_proposal_config_network_and_guard, assert_valid_proposal_config_network_and_guard,
  assert_and_increment_local_nonce, assert_and_increment_parent_nonce, assert_not_executed,
  assert_proposal_exists, assert_threshold_satisfied, assert_approval_witness_value,
  assert_parent_approval_state, assert_valid_initial_governance,
  assert_child_execution_witness_value,
}

module _ ⦃o : Platform⦄ where
  -- The witness opens `root` at `key`, with `value`.
  abbrev pub Opens : MerkleMapWitness → Field → Field → Field → Type 0
  Opens w root key value =
      ((o.compute_root_and_key w value).0 ≡ root) × ((o.compute_root_and_key w value).1 ≡ key)

  pub get_initialized_owners_commitment-ok :
      (s : Guard) {c : Field}
      → get_initialized_owners_commitment s ≡ ok c
      → (s.owners_commitment ≢ 0) × (c ≡ s.owners_commitment)
  unfolding get_initialized_owners_commitment
  get_initialized_owners_commitment-ok s h = ground arith

  pub assert_merkle_witness_value-ok :
      (root key : Field) (w : MerkleMapWitness) (value : Field) (a b : String)
      → assert_merkle_witness_value root key w value a b ≡ ok tt
      → Opens w root key value
  unfolding assert_merkle_witness_value
  assert_merkle_witness_value-ok root key w value a b h = ground arith

  pub assert_approval_witness_value-ok :
      (s : Guard) (hash : Field) (w : MerkleMapWitness) (value : Field)
      → assert_approval_witness_value s hash w value ≡ ok tt
      → Opens w s.approval_root hash value
  unfolding assert_approval_witness_value
  assert_approval_witness_value-ok s hash w value h = ground arith

  pub assert_child_execution_witness_value-ok :
      (s : Guard) (hash : Field) (w : MerkleMapWitness) (value : Field)
      → assert_child_execution_witness_value s hash w value ≡ ok tt
      → Opens w s.child_execution_root hash value
  unfolding assert_child_execution_witness_value
  assert_child_execution_witness_value-ok s hash w value h = ground arith

  pub assert_valid_proposal-ok :
      (p : TransactionProposal) (c : Field) (g : PublicKey)
      → assert_valid_proposal_config_network_and_guard p c g ≡ ok tt
      → (p.config_nonce ≡ c) × (p.guard_address ≡ g)
  unfolding assert_valid_proposal_config_network_and_guard
  assert_valid_proposal-ok p c g h = ground arith

  pub assert_proposal_config-ok :
      (env : Env) (s : Guard) (p : TransactionProposal)
      → assert_proposal_config_network_and_guard env s p ≡ ok tt
      → (p.config_nonce ≡ s.config_nonce) × (p.guard_address ≡ env.address)
  unfolding assert_proposal_config_network_and_guard
  assert_proposal_config-ok env s p h = ground arith

  pub assert_not_executed-ok : (n : Field) → assert_not_executed n ≡ ok tt → n ≢ executed_marker
  unfolding assert_not_executed
  assert_not_executed-ok n h = ground arith

  pub assert_proposal_exists-ok : (n : Field) → assert_proposal_exists n ≡ ok tt → 1 ≤ n
  unfolding assert_proposal_exists
  assert_proposal_exists-ok n h = ground arith

  pub assert_threshold_satisfied-ok :
      (n t : Field) → assert_threshold_satisfied n t ≡ ok tt → fadd t 1 ≤ n
  unfolding assert_threshold_satisfied
  assert_threshold_satisfied-ok n t h = ground arith

  pub assert_and_increment_local_nonce-ok :
      (s : Guard) (p : TransactionProposal) {n : Field}
      → assert_and_increment_local_nonce s p ≡ ok n
      → (n ≡ fadd s.nonce 1) × (p.nonce ≡ n)
  unfolding assert_and_increment_local_nonce
  assert_and_increment_local_nonce-ok s p h = ground arith

  pub assert_and_increment_parent_nonce-ok :
      (s : Guard) (p : TransactionProposal) {n : Field}
      → assert_and_increment_parent_nonce s p ≡ ok n
      → (n ≡ fadd s.parent_nonce 1) × (p.nonce ≡ n)
  unfolding assert_and_increment_parent_nonce
  assert_and_increment_parent_nonce-ok s p h = ground arith

  pub assert_valid_initial_governance-ok :
      (t n : Field)
      → assert_valid_initial_governance t n ≡ ok tt
      → (0 < t) × (t ≤ n) × (n ≤ max_owners)
  unfolding assert_valid_initial_governance
  assert_valid_initial_governance-ok t n h = ground arith

  -- The state of a guard that has approved `p` to its threshold, with the witnessed count.
  pub record Approves (g : Guard) (address : PublicKey) (p : TransactionProposal)
      (w : MerkleMapWitness) (count : Field) : Type 0 where
    pub config : p.config_nonce ≡ g.config_nonce
    pub target : p.guard_address ≡ address
    pub not_executed : count ≢ executed_marker
    pub exists : 1 ≤ count
    pub enough : fadd g.threshold 1 ≤ count
    pub witnessed : Opens w g.approval_root (proposal_hash p) count

  pub assert_parent_approval_state-ok :
      (env : Env) (p : TransactionProposal) (a : PublicKey) (w : MerkleMapWitness) (n : Field)
      {h : Field}
      → assert_parent_approval_state env p a w n ≡ ok h
      → (parent : Guard) × (env.ledger a ≡ some parent)
        × (parent.owners_commitment ≢ 0)
        × Approves parent a p w n
        × (h ≡ proposal_hash p)
  unfolding assert_parent_approval_state
  assert_parent_approval_state-ok env p a w n e = elim (Option-cases (env.ledger a)) [
    | inl missing ↦ ground arith
    | inr (parent, found) ↦ (
      parent,
      found,
      ground arith,
      record {
        config = ground (arith, assert_valid_proposal-ok p parent.config_nonce a);
        target = ground (arith, assert_valid_proposal-ok p parent.config_nonce a);
        not_executed = ground (arith, assert_not_executed-ok n);
        exists = ground (arith, assert_proposal_exists-ok n);
        enough = ground (arith, assert_threshold_satisfied-ok n parent.threshold);
        witnessed = ground (
          arith,
          assert_merkle_witness_value-ok parent.approval_root (proposal_hash p) w n
              "Parent approval root mismatch" "Parent approval key mismatch",
        );
      },
      ground arith,
    )
  ]
