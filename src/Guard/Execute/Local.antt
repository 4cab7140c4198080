-- ===== src/Guard/Execute/Local.antt =====
-- The five methods that execute a LOCAL proposal: the checks and effects that they share.
use mina_guard.Base.{◌≡◌, ◌≢◌, ok, arith}
use mina_guard.Platform.{Field, MerkleMapWitness, PublicKeyOption, Platform, fadd}
use mina_guard.Constants.{local}
use mina_guard.Owners.{OwnerWitness}
use mina_guard.Proposal.{TransactionProposal, proposal_hash}
use mina_guard.Guard.{Guard, Env, Outcome}
use mina_guard.Guard.Checks.{
  get_initialized_owners_commitment, assert_and_increment_local_nonce, mark_executed,
  assert_local_proposal, assert_proposal_config_network_and_guard, assert_not_executed,
  assert_proposal_exists, assert_threshold_satisfied, assert_approval_witness_value,
}
use mina_guard.Guard.Checks.Facts.{
  Approves, assert_proposal_config-ok, assert_not_executed-ok, assert_proposal_exists-ok,
  assert_threshold_satisfied-ok, assert_approval_witness_value-ok,
}
use mina_guard.Guard.Execute.{
  execute_transfer, execute_allocate_to_children, execute_owner_change, execute_threshold_change,
  execute_delegate,
}

module _ ⦃o : Platform⦄ where
  assert_local_proposal-ok :
      (p : TransactionProposal) → assert_local_proposal p ≡ ok tt → p.destination ≡ local
  unfolding assert_local_proposal
  assert_local_proposal-ok p h = ground arith

  -- The guard holds a threshold of approvals of `p` and consumes them: the proposal is marked
  -- executed, and its nonce is used up.
  pub record LocalExecution (env : Env) (s : Guard) (p : TransactionProposal) (w : MerkleMapWitness)
      (count : Field) (t : Guard) : Type 0 where
    pub initialized : s.owners_commitment ≢ 0
    pub approves : Approves s env.address p w count
    pub is_local : p.destination ≡ local
    pub nonce : p.nonce ≡ fadd s.nonce 1
    pub next_nonce : t.nonce ≡ p.nonce
    pub marked : t.approval_root ≡ mark_executed w
    pub votes_kept : t.vote_nullifier_root ≡ s.vote_nullifier_root

  module _ (env : Env) (s : Guard) (p : TransactionProposal) (w : MerkleMapWitness)
      (n : Field) where
    -- The checks that every method makes, in its order.
    local_checks :
        assert_local_proposal p ≡ ok tt
        → assert_proposal_config_network_and_guard env s p ≡ ok tt
        → assert_not_executed n ≡ ok tt
        → assert_proposal_exists n ≡ ok tt
        → assert_threshold_satisfied n s.threshold ≡ ok tt
        → assert_approval_witness_value s (proposal_hash p) w n ≡ ok tt
        → (p.destination ≡ local) × Approves s env.address p w n
    local_checks a b c d e f = (
      assert_local_proposal-ok p a,
      record {
        config = (assert_proposal_config-ok env s p b).0;
        target = (assert_proposal_config-ok env s p b).1;
        not_executed = assert_not_executed-ok n c;
        exists = assert_proposal_exists-ok n d;
        enough = assert_threshold_satisfied-ok n s.threshold e;
        witnessed = assert_approval_witness_value-ok s (proposal_hash p) w n f;
      },
    )

    pub execute_transfer-ok :
        {out : Outcome}
        → execute_transfer env s p w n ≡ ok out
        → LocalExecution env s p w n out.state
    unfolding execute_transfer get_initialized_owners_commitment assert_and_increment_local_nonce
    execute_transfer-ok {out} e = ground (arith, local_checks)

    pub execute_allocate_to_children-ok :
        {out : Outcome}
        → execute_allocate_to_children env s p w n ≡ ok out
        → LocalExecution env s p w n out.state
    unfolding execute_allocate_to_children get_initialized_owners_commitment
        assert_and_increment_local_nonce
    execute_allocate_to_children-ok {out} e = ground (arith, local_checks)

    pub execute_owner_change-ok :
        (ow : OwnerWitness) (after : PublicKeyOption) {out : Outcome}
        → execute_owner_change env s p w n ow after ≡ ok out
        → LocalExecution env s p w n out.state
    unfolding execute_owner_change get_initialized_owners_commitment
        assert_and_increment_local_nonce
    execute_owner_change-ok ow after {out} e = ground (arith, local_checks)

    pub execute_threshold_change-ok :
        (t : Field) {out : Outcome}
        → execute_threshold_change env s p w n t ≡ ok out
        → LocalExecution env s p w n out.state
    unfolding execute_threshold_change get_initialized_owners_commitment
        assert_and_increment_local_nonce
    execute_threshold_change-ok t {out} e = ground (arith, local_checks)

    pub execute_delegate-ok :
        {out : Outcome}
        → execute_delegate env s p w n ≡ ok out
        → LocalExecution env s p w n out.state
    unfolding execute_delegate get_initialized_owners_commitment assert_and_increment_local_nonce
    execute_delegate-ok {out} e = ground (arith, local_checks)
