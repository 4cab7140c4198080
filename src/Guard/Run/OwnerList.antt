-- ===== src/Guard/Run/OwnerList.antt =====
-- Histories of `class MinaGuard`: the owner list behind the commitment.
use mina_guard.Base.{
  ℕ, ◌≤◌, ◌≡◌, ◌≢◌, refl, ◌∙◌, List, [], Bool-cases, ◌==◌, inl, inr, length, take, length-take, ok,
  arith,
}
use mina_guard.Platform.{Field, PublicKey, Platform, empty_key}
use mina_guard.Platform.Laws.{HashLaws}
use mina_guard.Constants.{max_owners}
use mina_guard.Owners.Setup.{compute_setup_owners_chain_lem, assert_coherent_setup_owners_iff}
use mina_guard.Guard.{Guard, Env, Event, Outcome}
use mina_guard.Guard.Checks.{get_initialized_owners_commitment}
use mina_guard.Guard.Checks.Facts.{assert_valid_initial_governance-ok}
use mina_guard.Guard.Setup.{
  SetupOwnersInput, initialize_state, setup, reserve_for_parent, execute_setup_child,
}
use mina_guard.Guard.Propose.{propose}
use mina_guard.Guard.Approve.{approve_proposal}
use mina_guard.Guard.Execute.{
  execute_transfer, execute_allocate_to_children, execute_threshold_change, execute_delegate,
}
use mina_guard.Guard.Setup.Config.{setup-initializes, execute_setup_child-initializes}
use mina_guard.Guard.Execute.Local.{execute_owner_change-ok}
use mina_guard.Guard.Execute.OwnerChange.{HasOwners, changed, execute_owner_change-HasOwners}
use mina_guard.Guard.Child.{
  execute_reclaim_to_parent, execute_destroy, execute_enable_child_multi_sig,
}
use mina_guard.Guard.Run.{
  Call, IsTyped, setup_call, reserve_call, setup_child_call, owner_change_call, Ballot, Run, start,
  next, call,
}
use mina_guard.Guard.Run.Governance.{Run-IsGoverned}

module _ ⦃o : Platform⦄ where
  initialize_state-HasOwners :
      (s : Guard) (t n : Field) (pa : PublicKey) (a b : Field) (owners : SetupOwnersInput)
      {r : Guard × List Event}
      → length owners ≡ max_owners
      → initialize_state s t n pa a b owners ≡ ok r
      → HasOwners r.0 (take n owners)
  unfolding initialize_state
  initialize_state-HasOwners s t n pa a b owners {r} len e = record {
    commitment = ground (arith, compute_setup_owners_chain_lem owners n);
    counted = ground (arith, assert_valid_initial_governance-ok t n, length-take n owners);
    distinct = ((assert_coherent_setup_owners_iff owners n).0 (ground arith)).distinct;
  }

  -- A call that leaves the owners alone.
  kept_owners :
      (s t : Guard) (owners : List PublicKey)
      → HasOwners s owners
      → t.owners_commitment ≡ s.owners_commitment
      → t.num_owners ≡ s.num_owners
      → HasOwners t owners
  kept_owners s t owners h c n = record {
    commitment = c ∙ h.commitment;
    counted = n ∙ h.counted;
    distinct = h.distinct;
  }

  -- The owner list after a call.
  abbrev pub owners_after : Call → List PublicKey → List PublicKey
  owners_after (setup_call t n input) owners = take n input
  owners_after (setup_child_call t n input p w c) owners = take n input
  owners_after (owner_change_call p w c ow after) owners = changed p after owners
  owners_after _ owners = owners

  pub call-HasOwners :
      (h : HashLaws o) (env : Env) (s : Guard) (c : Call) (owners : List PublicKey) {out : Outcome}
      → IsTyped c
      → (s.owners_commitment ≢ 0 → HasOwners s owners × (length owners ≤ max_owners))
      → call env s c ≡ ok out
      → out.state.owners_commitment ≢ 0
      → HasOwners out.state (owners_after c owners)
  unfolding call setup reserve_for_parent execute_setup_child propose approve_proposal
      execute_transfer execute_allocate_to_children execute_threshold_change execute_delegate
      execute_reclaim_to_parent execute_destroy execute_enable_child_multi_sig
      get_initialized_owners_commitment
  call-HasOwners h env s (setup_call t n input) owners {out} typed has e i =
      let (r, init, same) = setup-initializes s t n input e in
      kept_owners r.0 out.state (take n input)
        (initialize_state-HasOwners s t n empty_key 0 0 input typed init) (ground arith)
        (ground arith)
  call-HasOwners h env s (setup_child_call t n input p w c) owners {out} typed has e i =
      let (r, init, same) = execute_setup_child-initializes env s t n input p w c e in
      kept_owners r.0 out.state (take n input)
        (initialize_state-HasOwners s t n p.guard_address 0 0 input typed.0 init) (ground arith)
        (ground arith)
  call-HasOwners h env s (owner_change_call p w c ow after) owners {out} typed has e i =
      let (now, small) = has (execute_owner_change-ok env s p w c ow after e).initialized in
      execute_owner_change-HasOwners env s p w c ow after h owners now small typed.0 e
  call-HasOwners h env s (reserve_call a hash t n input) owners {out} typed has e i =
      absurd (ground arith)
  call-HasOwners h env s _ owners {out} typed has e i =
      kept_owners s out.state owners (has (ground arith)).0 (ground arith) (ground arith)

  -- Where hashes do not collide: every initialised guard that a history reaches has an owner
  -- list; its commitment is the chain of the list, the x-coordinates are distinct, `numOwners` is
  -- the length, and the length is at most `MAX_OWNERS`.
  pub Run-HasOwners :
      (h : HashLaws o) {n : ℕ} {s : Guard} {bs : List Ballot}
      → Run n s bs
      → s.owners_commitment ≢ 0
      → (owners : List PublicKey) × HasOwners s owners × (length owners ≤ max_owners)
  Run-HasOwners h start i = absurd (i refl)
  Run-HasOwners h (next {s = s} r env c {out = out} typed e) i =
      elim (Bool-cases (s.owners_commitment == 0)) [
        | inl fresh ↦
            let now = call-HasOwners h env s c [] typed (λ ne. absurd (ne (ground arith))) e i in
            (owners_after c [], now, bounded now)
        | inr used ↦
            let (owners, has, small) = Run-HasOwners h r (ground arith) in
            let now = call-HasOwners h env s c owners typed (λ _. (has, small)) e i in
            (owners_after c owners, now, bounded now)
      ]
    where
      bounded : {xs : List PublicKey} → HasOwners out.state xs → length xs ≤ max_owners
      bounded has =
          let governed = Run-IsGoverned (next r env c typed e) i in
          omega (arith, has.counted, governed.bounded)
