-- ===== src/Guard/Vote.antt =====
-- `propose` and `approveProposal`: the checks and writes that both share.
pub mod Cast
use mina_guard.Base.{◌≡◌, ◌≢◌, ◌≤◌, true, ok, [], ◌∷◌, arith}
use mina_guard.Platform.{Field, PublicKey, Signature, MerkleMapWitness, Platform, fadd}
use mina_guard.Constants.{executed_marker}
use mina_guard.Hashes.{
  SigningAction, propose_action, approve_action, vote_nullifier_key, proposal_signing_message,
}
use mina_guard.Owners.{OwnerWitness, assert_owner_membership}
use mina_guard.Proposal.{TransactionProposal, proposal_hash}
use mina_guard.Guard.{Guard, Env, Outcome}
use mina_guard.Guard.Checks.{get_initialized_owners_commitment, assert_merkle_witness_value}
use mina_guard.Guard.Checks.Facts.{
  Opens, assert_proposal_config-ok, assert_merkle_witness_value-ok,
  assert_approval_witness_value-ok, assert_not_executed-ok, assert_proposal_exists-ok,
}
use mina_guard.Guard.Propose.{propose}
use mina_guard.Guard.Approve.{approve_proposal}

module _ ⦃o : Platform⦄ where
  pub record Vote (env : Env) (s : Guard) (p : TransactionProposal) (voter : PublicKey)
      (ow : OwnerWitness) (signature : Signature) (action : SigningAction)
      (vote_witness approval_witness : MerkleMapWitness) (count next : Field) (t : Guard)
      : Type 0 where
    pub initialized : s.owners_commitment ≢ 0
    pub member : assert_owner_membership s.owners_commitment voter ow ≡ ok tt
    pub signed :
        o.verify signature voter (proposal_signing_message (proposal_hash p) action ∷ []) ≡ true
    pub config : p.config_nonce ≡ s.config_nonce
    pub target : p.guard_address ≡ env.address
    pub unvoted :
        Opens vote_witness s.vote_nullifier_root (vote_nullifier_key (proposal_hash p) voter) 0
    pub counted : Opens approval_witness s.approval_root (proposal_hash p) count
    pub written : t ≡ record s {
      vote_nullifier_root = (o.compute_root_and_key vote_witness 1).0;
      approval_root = (o.compute_root_and_key approval_witness next).0;
    }

  module _ (env : Env) (s : Guard) (p : TransactionProposal) (ow : OwnerWitness) (voter : PublicKey)
      (sig : Signature) (vw aw : MerkleMapWitness) where
    nullifier-Opens :
        assert_merkle_witness_value s.vote_nullifier_root
            (vote_nullifier_key (proposal_hash p) voter)
            vw
            0
            "Vote nullifier root mismatch"
            "Vote nullifier key mismatch"
          ≡ ok tt
        → Opens vw s.vote_nullifier_root (vote_nullifier_key (proposal_hash p) voter) 0
    nullifier-Opens = assert_merkle_witness_value-ok _ _ vw 0 _ _

    -- The checks of a successful `propose`, and its writes.
    pub propose-ok :
        {out : Outcome}
        → propose env s p ow voter sig vw aw ≡ ok out
        → Vote env s p voter ow sig propose_action vw aw 0 (fadd 1 1) out.state
    unfolding propose get_initialized_owners_commitment
    propose-ok {out} e = ground (
      arith,
      assert_proposal_config-ok env s p,
      nullifier-Opens,
      assert_approval_witness_value-ok s (proposal_hash p) aw 0,
    )

    -- The checks of a successful `approveProposal`, and its writes.
    pub approve_proposal-ok :
        (count : Field) {out : Outcome}
        → approve_proposal env s p sig voter ow aw count vw ≡ ok out
        → Vote env s p voter ow sig approve_action vw aw count (fadd count 1) out.state
          × (count ≢ executed_marker)
          × (1 ≤ count)
    unfolding approve_proposal get_initialized_owners_commitment
    approve_proposal-ok count {out} e = ground (
      arith,
      assert_proposal_config-ok env s p,
      nullifier-Opens,
      assert_approval_witness_value-ok s (proposal_hash p) aw count,
      assert_not_executed-ok count,
      assert_proposal_exists-ok count,
    )
