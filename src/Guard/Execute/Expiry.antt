-- ===== src/Guard/Execute/Expiry.antt =====
-- The five methods that execute a LOCAL proposal: the expiry that they check.
use mina_guard.Base.{◌^◌, ◌<◌, ◌≡◌, ◌≤◌, ◌⊎◌, some, ok, subst, arith}
use mathlib.Core.Option.{some-injective}
use mina_guard.Platform.{Field, MerkleMapWitness, PublicKeyOption, Platform}
use mina_guard.Owners.{OwnerWitness}
use mina_guard.Proposal.{TransactionProposal}
use mina_guard.Guard.{Guard, Env, Outcome}
use mina_guard.Guard.Checks.{assert_proposal_not_expired}
use mina_guard.Guard.Execute.{
  execute_transfer, execute_allocate_to_children, execute_owner_change, execute_threshold_change,
  execute_delegate,
}
use mina_guard.Guard.Run.{
  Call, transfer_call, allocate_call, delegate_call, owner_change_call, threshold_change_call, call,
}
use mina_guard.Guard.Run.Quorum.{LocalCall, local_call}

-- The expiry is a slot, and the slot at inclusion is not past it.
abbrev pub IsInTime : Env → TransactionProposal → Type 0
IsInTime env p = (p.expiry_slot < 2 ^ 32) × ((p.expiry_slot ≡ 0) ⊎ (env.slot ≤ p.expiry_slot))

module _ ⦃o : Platform⦄ (env : Env) (s : Guard) where
  module _ (p : TransactionProposal) (w : MerkleMapWitness) (n : Field) where
    execute_transfer-IsInTime :
        {out : Outcome} → execute_transfer env s p w n ≡ ok out → IsInTime env p
    unfolding execute_transfer assert_proposal_not_expired
    execute_transfer-IsInTime {out} e = ground arith

    execute_allocate_to_children-IsInTime :
        {out : Outcome} → execute_allocate_to_children env s p w n ≡ ok out → IsInTime env p
    unfolding execute_allocate_to_children assert_proposal_not_expired
    execute_allocate_to_children-IsInTime {out} e = ground arith

    execute_owner_change-IsInTime :
        (ow : OwnerWitness) (after : PublicKeyOption) {out : Outcome}
        → execute_owner_change env s p w n ow after ≡ ok out
        → IsInTime env p
    unfolding execute_owner_change assert_proposal_not_expired
    execute_owner_change-IsInTime ow after {out} e = ground arith

    execute_threshold_change-IsInTime :
        (t : Field) {out : Outcome}
        → execute_threshold_change env s p w n t ≡ ok out
        → IsInTime env p
    unfolding execute_threshold_change assert_proposal_not_expired
    execute_threshold_change-IsInTime t {out} e = ground arith

    execute_delegate-IsInTime :
        {out : Outcome} → execute_delegate env s p w n ≡ ok out → IsInTime env p
    unfolding execute_delegate assert_proposal_not_expired
    execute_delegate-IsInTime {out} e = ground arith

  as_local : (k l : LocalCall) → some k ≡ some l → IsInTime env k.proposal → IsInTime env l.proposal
  as_local k l e = subst (λ (x : LocalCall). IsInTime env x.proposal) (some-injective k l e)

  -- Each of the five methods that execute a LOCAL proposal succeeds only up to the proposal's expiry.
  pub local_call-IsInTime :
      (c : Call) (l : LocalCall) {out : Outcome}
      → local_call c ≡ some l
      → call env s c ≡ ok out
      → IsInTime env l.proposal
  unfolding call
  local_call-IsInTime (transfer_call p w n) l {out} k e =
      as_local _ l k (execute_transfer-IsInTime p w n e)
  local_call-IsInTime (allocate_call p w n) l {out} k e =
      as_local _ l k (execute_allocate_to_children-IsInTime p w n e)
  local_call-IsInTime (delegate_call p w n) l {out} k e =
      as_local _ l k (execute_delegate-IsInTime p w n e)
  local_call-IsInTime (owner_change_call p w n ow after) l {out} k e =
      as_local _ l k (execute_owner_change-IsInTime p w n ow after e)
  local_call-IsInTime (threshold_change_call p w n t) l {out} k e =
      as_local _ l k (execute_threshold_change-IsInTime p w n t e)
  local_call-IsInTime _ l {out} k e = cc
