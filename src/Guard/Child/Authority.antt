-- ===== src/Guard/Child/Authority.antt =====
-- `executeReclaimToParent`, `executeDestroy` and `executeEnableChildMultiSig`: theorems on what
-- authorizes them.
use mina_guard.Base.{◌≡◌, ◌≢◌, some, false, ok, Result-cases, inl, inr, arith}
use mina_guard.Platform.{Field, UInt64, MerkleMapWitness, Platform, is_empty, fadd}
use mina_guard.Constants.{remote}
use mina_guard.Proposal.{TransactionProposal, proposal_hash}
use mina_guard.Guard.{Guard, Env, Outcome}
use mina_guard.Guard.Checks.{
  get_initialized_owners_commitment, assert_valid_remote_proposal, verify_parent_approval,
  assert_curr_account_is_child, assert_child_execution_witness_value,
  assert_and_increment_parent_nonce, mark_executed,
}
use mina_guard.Guard.Checks.Facts.{
  Opens, Approves, assert_parent_approval_state-ok, assert_child_execution_witness_value-ok,
  assert_and_increment_parent_nonce-ok,
}
use mina_guard.Guard.Child.{
  execute_reclaim_to_parent, execute_destroy, execute_enable_child_multi_sig,
}

-- The parent at `s.parent` is initialised and has approved `p` to its threshold; `p` names this
-- child; the child has not executed it, marks it, uses up its nonce, and keeps its own governance.
pub record RemoteExecution ⦃o : Platform⦄ (env : Env) (s : Guard) (p : TransactionProposal)
    (w : MerkleMapWitness) (count : Field) (cw : MerkleMapWitness) (t : Guard) : Type 0 where
  pub initialized : s.owners_commitment ≢ 0
  pub is_child : is_empty s.parent ≡ false
  pub parent : Guard
  pub found : env.ledger s.parent ≡ some parent
  pub parent_initialized : parent.owners_commitment ≢ 0
  pub approves : Approves parent s.parent p w count
  pub is_remote : p.destination ≡ remote
  pub this_child : p.child_account ≡ env.address
  pub unexecuted : Opens cw s.child_execution_root (proposal_hash p) 0
  pub nonce : p.nonce ≡ fadd s.parent_nonce 1
  pub next_nonce : t.parent_nonce ≡ p.nonce
  pub marked : t.child_execution_root ≡ mark_executed cw
  pub owners_kept : t.owners_commitment ≡ s.owners_commitment
  pub threshold_kept : t.threshold ≡ s.threshold
  pub approvals_kept : t.approval_root ≡ s.approval_root

module _ ⦃o : Platform⦄ (env : Env) (s : Guard) (p : TransactionProposal) (w : MerkleMapWitness)
    (n : Field) (cw : MerkleMapWitness) where
  verify_parent_approval-ok :
      {h : Field}
      → verify_parent_approval env s p w n ≡ ok h
      → (is_empty s.parent ≡ false)
        × (parent : Guard) × (env.ledger s.parent ≡ some parent)
        × (parent.owners_commitment ≢ 0)
        × Approves parent s.parent p w n
        × (h ≡ proposal_hash p)
  unfolding verify_parent_approval assert_curr_account_is_child
  verify_parent_approval-ok {h} e =
      let (parent, found, ready, approves, hash) =
        assert_parent_approval_state-ok env p s.parent w n {h = h} (ground arith) in
      (ground arith, parent, found, ready, approves, hash)

  assert_valid_remote_proposal-ok :
      assert_valid_remote_proposal env p ≡ ok tt
      → (p.destination ≡ remote) × (p.child_account ≡ env.address)
  unfolding assert_valid_remote_proposal
  assert_valid_remote_proposal-ok e = ground arith

  remote_checks :
      (t : Guard) (h : Field)
      → s.owners_commitment ≢ 0
      → assert_valid_remote_proposal env p ≡ ok tt
      → verify_parent_approval env s p w n ≡ ok h
      → assert_child_execution_witness_value s h cw 0 ≡ ok tt
      → assert_and_increment_parent_nonce s p ≡ ok t.parent_nonce
      → t.child_execution_root ≡ mark_executed cw
      → t.owners_commitment ≡ s.owners_commitment
      → t.threshold ≡ s.threshold
      → t.approval_root ≡ s.approval_root
      → RemoteExecution env s p w n cw t
  remote_checks t h i r v x k marked a b c =
      let (child, parent, found, ready, approves, hash) = verify_parent_approval-ok v in
      let opened = assert_child_execution_witness_value-ok s h cw 0 x in
      let (next, used) = assert_and_increment_parent_nonce-ok s p k in
      record {
        initialized = i;
        is_child = child;
        parent = parent;
        found = found;
        parent_initialized = ready;
        approves = approves;
        is_remote = (assert_valid_remote_proposal-ok r).0;
        this_child = (assert_valid_remote_proposal-ok r).1;
        unexecuted = rw (← hash) opened;
        nonce = cc;
        next_nonce = cc;
        marked = marked;
        owners_kept = a;
        threshold_kept = b;
        approvals_kept = c;
      }

  -- A child pays its parent back only on a proposal for this child that the parent, initialised,
  -- has approved to its threshold and that the child has not executed; it then marks the
  -- proposal, moves its parent nonce on to the proposal's, and keeps its owners, threshold and
  -- approvals.
  pub execute_reclaim_to_parent-ok :
      (amount : UInt64) {out : Outcome}
      → execute_reclaim_to_parent env s p w n cw amount ≡ ok out
      → RemoteExecution env s p w n cw out.state
  unfolding execute_reclaim_to_parent get_initialized_owners_commitment
  execute_reclaim_to_parent-ok amount {out} e =
      elim (Result-cases (verify_parent_approval env s p w n)) [
        | inl (message, failed) ↦ ground arith
        | inr (hash, verified) ↦ elim (Result-cases (assert_and_increment_parent_nonce s p)) [
          | inl (message, failed) ↦ ground arith
          | inr (next, used) ↦
              remote_checks out.state hash (ground arith) (ground arith) verified (ground arith)
                (ground arith) (ground arith) (ground arith) (ground arith) (ground arith)
        ]
      ]

  -- A child is destroyed only on a proposal for this child that the parent, initialised, has
  -- approved to its threshold and that the child has not executed; it then marks the proposal,
  -- moves its parent nonce on to the proposal's, and keeps its owners, threshold and approvals.
  pub execute_destroy-ok :
      (balance : UInt64) {out : Outcome}
      → execute_destroy env s p w n cw balance ≡ ok out
      → RemoteExecution env s p w n cw out.state
  unfolding execute_destroy get_initialized_owners_commitment
  execute_destroy-ok balance {out} e = elim (Result-cases (verify_parent_approval env s p w n)) [
    | inl (message, failed) ↦ ground arith
    | inr (hash, verified) ↦ elim (Result-cases (assert_and_increment_parent_nonce s p)) [
      | inl (message, failed) ↦ ground arith
      | inr (next, used) ↦
          remote_checks out.state hash (ground arith) (ground arith) verified (ground arith)
            (ground arith) (ground arith) (ground arith) (ground arith) (ground arith)
    ]
  ]

  -- A child's own multi-sig is switched on or off only on a proposal for this child that the
  -- parent, initialised, has approved to its threshold and that the child has not executed; it
  -- then marks the proposal, moves its parent nonce on to the proposal's, and keeps its owners,
  -- threshold and approvals.
  pub execute_enable_child_multi_sig-ok :
      (enabled : Field) {out : Outcome}
      → execute_enable_child_multi_sig env s p w n cw enabled ≡ ok out
      → RemoteExecution env s p w n cw out.state
  unfolding execute_enable_child_multi_sig get_initialized_owners_commitment
  execute_enable_child_multi_sig-ok enabled {out} e =
      elim (Result-cases (verify_parent_approval env s p w n)) [
        | inl (message, failed) ↦ ground arith
        | inr (hash, verified) ↦ elim (Result-cases (assert_and_increment_parent_nonce s p)) [
          | inl (message, failed) ↦ ground arith
          | inr (next, used) ↦
              remote_checks out.state hash (ground arith) (ground arith) verified (ground arith)
                (ground arith) (ground arith) (ground arith) (ground arith) (ground arith)
        ]
      ]
