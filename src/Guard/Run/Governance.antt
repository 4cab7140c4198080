-- ===== src/Guard/Run/Governance.antt =====
-- Histories of `class MinaGuard`: the bounds on the threshold and the number of owners.
use mina_guard.Base.{ℕ, ◌≤◌, ◌<◌, ◌≡◌, ◌≢◌, List, ok, refl, arith}
use mina_guard.Platform.{Platform}
use mina_guard.Constants.{max_owners}
use mina_guard.Guard.{Guard, Env, Outcome}
use mina_guard.Guard.Checks.Facts.{assert_valid_initial_governance-ok}
use mina_guard.Guard.Setup.{initialize_state, setup, reserve_for_parent, execute_setup_child}
use mina_guard.Guard.Propose.{propose}
use mina_guard.Guard.Approve.{approve_proposal}
use mina_guard.Guard.Execute.{
  execute_transfer, execute_allocate_to_children, execute_owner_change, execute_threshold_change,
  execute_delegate,
}
use mina_guard.Guard.Child.{
  execute_reclaim_to_parent, execute_destroy, execute_enable_child_multi_sig,
}
use mina_guard.Guard.Checks.{get_initialized_owners_commitment}
use mina_guard.Guard.Run.{
  Call, setup_call, reserve_call, setup_child_call, Ballot, Run, start, next, call,
}

-- The threshold is positive and at most the number of owners, which is at most `MAX_OWNERS`.
pub record IsGoverned (s : Guard) : Type 0 where
  pub positive : 0 < s.threshold
  pub reachable : s.threshold ≤ s.num_owners
  pub bounded : s.num_owners ≤ max_owners

module _ ⦃o : Platform⦄ where
  -- Every method keeps the bounds; the two that initialise a guard establish them.
  pub call-IsGoverned :
      (env : Env) (s : Guard) (c : Call) {out : Outcome}
      → (s.owners_commitment ≢ 0 → IsGoverned s)
      → call env s c ≡ ok out
      → out.state.owners_commitment ≢ 0
      → IsGoverned out.state
  unfolding call setup reserve_for_parent execute_setup_child initialize_state propose
      approve_proposal execute_transfer execute_allocate_to_children execute_owner_change
      execute_threshold_change execute_delegate execute_reclaim_to_parent execute_destroy
      execute_enable_child_multi_sig get_initialized_owners_commitment
  call-IsGoverned env s (setup_call t n owners) {out} h e i =
      ground (arith, assert_valid_initial_governance-ok t n)
  call-IsGoverned env s (reserve_call a h' t n owners) {out} h e i = ground arith
  call-IsGoverned env s (setup_child_call t n owners p w c) {out} h e i =
      ground (arith, assert_valid_initial_governance-ok t n)
  call-IsGoverned env s _ {out} h e i = ground arith

  -- In every initialised state that a history reaches, 1 ≤ threshold ≤ numOwners ≤ MAX_OWNERS.
  pub Run-IsGoverned :
      {n : ℕ} {s : Guard} {bs : List Ballot} → Run n s bs → s.owners_commitment ≢ 0 → IsGoverned s
  Run-IsGoverned start i = absurd (i refl)
  Run-IsGoverned (next {s = s} r env c typed e) i = call-IsGoverned env s c (Run-IsGoverned r) e i
