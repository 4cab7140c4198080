-- ===== src/Guard/Child/Remote.antt =====
-- The three methods with which a child executes a REMOTE proposal of its parent, as calls: what they
-- check, and the expiry.
use mina_guard.Base.{◌≡◌, Option, none, some, ok, Result-cases, inl, inr, subst, arith}
use mathlib.Core.Option.{some-injective}
use mina_guard.Platform.{Field, MerkleMapWitness, Platform}
use mina_guard.Proposal.{TransactionProposal}
use mina_guard.Guard.{Guard, Env, Outcome}
use mina_guard.Guard.Checks.{
  assert_proposal_not_expired, verify_parent_approval, assert_parent_approval_state,
}
use mina_guard.Guard.Child.{
  execute_reclaim_to_parent, execute_destroy, execute_enable_child_multi_sig,
}
use mina_guard.Guard.Child.Authority.{
  RemoteExecution, execute_reclaim_to_parent-ok, execute_destroy-ok,
  execute_enable_child_multi_sig-ok,
}
use mina_guard.Guard.Execute.Expiry.{IsInTime}
use mina_guard.Guard.Run.{Call, reclaim_call, destroy_call, enable_call, call}

-- The parent's proposal that a call executes on a child, with the witnesses and the count given.
pub record RemoteCall : Type 0 where
  pub proposal : TransactionProposal
  pub parent_witness : MerkleMapWitness
  pub count : Field
  pub child_witness : MerkleMapWitness

abbrev pub remote_call : Call → Option RemoteCall
remote_call (reclaim_call p w n cw x) =
    some (record { proposal = p; parent_witness = w; count = n; child_witness = cw })
remote_call (destroy_call p w n cw x) =
    some (record { proposal = p; parent_witness = w; count = n; child_witness = cw })
remote_call (enable_call p w n cw x) =
    some (record { proposal = p; parent_witness = w; count = n; child_witness = cw })
remote_call _ = none

module _ ⦃o : Platform⦄ (env : Env) (s : Guard) where
  abbrev pub Executed : Guard → RemoteCall → Type 0
  Executed t l =
      IsInTime env l.proposal
      × RemoteExecution env s l.proposal l.parent_witness l.count l.child_witness t

  verify_parent_approval-IsInTime :
      (p : TransactionProposal) (w : MerkleMapWitness) (n : Field) {h : Field}
      → verify_parent_approval env s p w n ≡ ok h
      → IsInTime env p
  unfolding verify_parent_approval assert_parent_approval_state assert_proposal_not_expired
  verify_parent_approval-IsInTime p w n {h} e = ground arith

  module _ (p : TransactionProposal) (w : MerkleMapWitness) (n : Field) (cw : MerkleMapWitness)
      (x : Field) {out : Outcome} where
    execute_reclaim_to_parent-IsInTime :
        execute_reclaim_to_parent env s p w n cw x ≡ ok out → IsInTime env p
    unfolding execute_reclaim_to_parent
    execute_reclaim_to_parent-IsInTime e =
        elim (Result-cases (verify_parent_approval env s p w n)) [
          | inl (message, failed) ↦ ground arith
          | inr (hash, verified) ↦ verify_parent_approval-IsInTime p w n verified
        ]

    execute_destroy-IsInTime : execute_destroy env s p w n cw x ≡ ok out → IsInTime env p
    unfolding execute_destroy
    execute_destroy-IsInTime e = elim (Result-cases (verify_parent_approval env s p w n)) [
      | inl (message, failed) ↦ ground arith
      | inr (hash, verified) ↦ verify_parent_approval-IsInTime p w n verified
    ]

    execute_enable_child_multi_sig-IsInTime :
        execute_enable_child_multi_sig env s p w n cw x ≡ ok out → IsInTime env p
    unfolding execute_enable_child_multi_sig
    execute_enable_child_multi_sig-IsInTime e =
        elim (Result-cases (verify_parent_approval env s p w n)) [
          | inl (message, failed) ↦ ground arith
          | inr (hash, verified) ↦ verify_parent_approval-IsInTime p w n verified
        ]

  as_remote : (k l : RemoteCall) (t : Guard) → some k ≡ some l → Executed t k → Executed t l
  as_remote k l t e = subst (λ (x : RemoteCall). Executed t x) (some-injective k l e)

  -- Each of the three methods with which a child reclaims to its parent, is destroyed or has its
  -- own multi-sig switched succeeds only up to the proposal's expiry, on a proposal for this
  -- child that the parent, initialised, has approved to its threshold and that the child has not
  -- executed; it then marks the proposal, moves its parent nonce on to the proposal's, and keeps
  -- its owners, threshold and approvals.
  pub remote_call-Executed :
      (c : Call) (l : RemoteCall) {out : Outcome}
      → remote_call c ≡ some l
      → call env s c ≡ ok out
      → Executed out.state l
  unfolding call
  remote_call-Executed (reclaim_call p w n cw x) l {out} k e = as_remote _ l out.state k (
    execute_reclaim_to_parent-IsInTime p w n cw x e,
    execute_reclaim_to_parent-ok env s p w n cw x e,
  )
  remote_call-Executed (destroy_call p w n cw x) l {out} k e =
      as_remote _ l out.state k
        (execute_destroy-IsInTime p w n cw x e, execute_destroy-ok env s p w n cw x e)
  remote_call-Executed (enable_call p w n cw x) l {out} k e = as_remote _ l out.state k (
    execute_enable_child_multi_sig-IsInTime p w n cw x e,
    execute_enable_child_multi_sig-ok env s p w n cw x e,
  )
  remote_call-Executed _ l {out} k e = cc
