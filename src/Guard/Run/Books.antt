-- ===== src/Guard/Run/Books.antt =====
-- Histories of `class MinaGuard`: the approval and nullifier maps along a history.
use mina_guard.Base.{
  ℕ, ◌+◌, ◌^◌, ◌≤◌, ◌≡◌, ◌≢◌, refl, ◌∙◌, ap, List, [], ok, ◌==◌, inl, inr, Bool-cases, arith,
}
use mina_guard.Platform.{Field, Platform}
use mina_guard.Platform.Laws.{HashLaws, MerkleLaws}
use mina_guard.Guard.{Guard, Env, Outcome}
use mina_guard.Guard.Checks.{get_initialized_owners_commitment}
use mina_guard.Guard.Setup.{initialize_state, setup, reserve_for_parent, execute_setup_child}
use mina_guard.Guard.Execute.Local.{
  execute_transfer-ok, execute_allocate_to_children-ok, execute_owner_change-ok,
  execute_threshold_change-ok, execute_delegate-ok,
}
use mina_guard.Guard.Child.{
  execute_reclaim_to_parent, execute_destroy, execute_enable_child_multi_sig,
}
use mina_guard.Guard.Vote.{propose-ok, approve_proposal-ok}
use mina_guard.Guard.Run.{
  Call, setup_call, reserve_call, setup_child_call, propose_call, approve_call, transfer_call,
  allocate_call, delegate_call, owner_change_call, threshold_change_call, reclaim_call,
  destroy_call, enable_call, Ballot, Run, start, next, call, cast,
}
use mina_guard.Guard.Run.Ballots.{Run-Chronicle}
use mina_guard.Guard.Run.Tally.{Ledgered, call-Ledgered}

module _ ⦃o : Platform⦄ where
  -- The roots that an initialising method installs.
  initialised_roots :
      (env : Env) (s : Guard) (c : Call) {out : Outcome}
      → s.owners_commitment ≡ 0
      → call env s c ≡ ok out
      → out.state.owners_commitment ≢ 0
      → (out.state.approval_root ≡ o.empty_map_root)
        × (out.state.vote_nullifier_root ≡ o.empty_map_root)
        × (cast s c [] ≡ [])
  unfolding cast call setup reserve_for_parent execute_setup_child initialize_state
      execute_reclaim_to_parent execute_destroy execute_enable_child_multi_sig
      get_initialized_owners_commitment
  initialised_roots env s (propose_call p ow v sig vw aw) {out} z e i =
      absurd ((propose-ok env s p ow v sig vw aw e).initialized z)
  initialised_roots env s (approve_call p sig v ow aw n vw) {out} z e i =
      absurd ((approve_proposal-ok env s p ow v sig vw aw n e).0.initialized z)
  initialised_roots env s (setup_call t n owners) {out} z e i = ground arith
  initialised_roots env s (setup_child_call t n owners p w c) {out} z e i = ground arith
  initialised_roots env s (reserve_call a hash t n owners) {out} z e i = ground arith
  initialised_roots env s (reclaim_call p w n cw a) {out} z e i = ground arith
  initialised_roots env s (destroy_call p w n cw a) {out} z e i = ground arith
  initialised_roots env s (enable_call p w n cw a) {out} z e i = ground arith
  initialised_roots env s (transfer_call p w n) {out} z e i =
      absurd ((execute_transfer-ok env s p w n e).initialized z)
  initialised_roots env s (allocate_call p w n) {out} z e i =
      absurd ((execute_allocate_to_children-ok env s p w n e).initialized z)
  initialised_roots env s (delegate_call p w n) {out} z e i =
      absurd ((execute_delegate-ok env s p w n e).initialized z)
  initialised_roots env s (owner_change_call p w n ow after) {out} z e i =
      absurd ((execute_owner_change-ok env s p w n ow after e).initialized z)
  initialised_roots env s (threshold_change_call p w n t) {out} z e i =
      absurd ((execute_threshold_change-ok env s p w n t e).initialized z)

  -- The books of a guard that a call initialises are empty.
  pub initialised-Ledgered :
      (h : HashLaws o) (m : MerkleLaws o) {n : ℕ} {s : Guard} {bs : List Ballot}
      → n + 2 ≤ 2 ^ 64
      → Run n s bs
      → (env : Env) (c : Call) {out : Outcome} → s.owners_commitment ≡ 0
      → call env s c ≡ ok out
      → out.state.owners_commitment ≢ 0
      → Ledgered m out.state (cast s c bs) (λ _. 0) (λ _. 0)
  initialised-Ledgered h m {s = s} {bs = bs} small r env c {out = out} unused e i =
      let (a, v, none_cast) = initialised_roots env s c unused e i in
      let no_votes = ap (cast s c) ((Run-Chronicle h (omega arith) r).fresh unused) ∙ none_cast in
      rw no_votes (record {
        approval_root = rw a (m.empty);
        vote_root = rw v (m.empty);
        voted = tt;
        counted = λ hash. inr (inl (refl, refl));
        distinct = tt;
      })

  -- Where hashes do not collide and Merkle-map witnesses open their maps: after any history of at
  -- most 2 ^ 64 - 2 calls of an initialised guard, the approval root commits to a map that has,
  -- for each hash, the executed marker, one more than the votes cast, or nothing where no vote
  -- was cast; the nullifier root commits to a map that marks every vote; and no owner voted twice
  -- for one hash.
  pub Run-Ledgered :
      (h : HashLaws o) (m : MerkleLaws o) {n : ℕ} {s : Guard} {bs : List Ballot}
      → n + 2 ≤ 2 ^ 64
      → Run n s bs
      → s.owners_commitment ≢ 0
      → (f : Field → Field) × (g : Field → Field) × Ledgered m s bs f g
  Run-Ledgered h m small start i = absurd (i refl)
  Run-Ledgered h m small (next {n = n} {s = s} {bs = bs} r env c {out = out} typed e) i =
      let before = Run-Chronicle h (omega arith) r in
      elim (Bool-cases (s.owners_commitment == 0)) [
        | inl unused ↦
            ((λ _. 0), (λ _. 0), initialised-Ledgered h m (omega arith) r env c (ground arith) e i)
        | inr used ↦
            let (f, g, books) = Run-Ledgered h m (omega arith) r (ground arith) in
            (
              _,
              _,
              call-Ledgered m env s c bs f g (omega (arith, before.votes_bound)) (ground arith) e
                  books,
            )
      ]
