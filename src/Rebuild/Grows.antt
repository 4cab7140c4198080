-- ===== src/Rebuild/Grows.antt =====
-- Histories of the guard: approval counts only grow, on which contracts/src/event-rebuild.ts relies.
use mina_guard.Base.{subst, ◌+◌, ◌^◌, ◌≤◌, ◌≡◌, Option, none, some, List, length, ok, refl, arith}
use mina_guard.Platform.{Field, Platform, fadd}
use mina_guard.Platform.Laws.{MerkleLaws}
use mina_guard.Constants.{executed_marker}
use mina_guard.Proposal.{TransactionProposal, proposal_hash}
use mina_guard.Guard.{Guard, Env, Outcome}
use mina_guard.Guard.Vote.{propose-ok, approve_proposal-ok}
use mina_guard.Guard.Execute.Local.{
  execute_transfer-ok, execute_allocate_to_children-ok, execute_owner_change-ok,
  execute_threshold_change-ok, execute_delegate-ok,
}
use mina_guard.Guard.Run.{
  Call, setup_call, reserve_call, setup_child_call, propose_call, approve_call, transfer_call,
  allocate_call, delegate_call, owner_change_call, threshold_change_call, reclaim_call,
  destroy_call, enable_call, Ballot, call,
}
use mina_guard.Guard.Run.Writes.{call_write, call_vote}
use mina_guard.Guard.Run.Tally.{
  Counts, Ledgered, length-votes_for, executed_marker_lem, approve_count,
}

module _ ⦃o : Platform⦄ where
  -- A count never exceeds the marker of executed proposals.
  Counts-le :
      (f : Field → Field) (bs : List Ballot) (hash : Field)
      → length bs + 2 ≤ 2 ^ 64
      → Counts f bs hash
      → f hash ≤ executed_marker
  Counts-le f bs hash small c =
      let big = o.order_large in
      let far = executed_marker_lem in let few = length-votes_for hash bs in ground arith

  some_pair :
      (a b c d : Field)
      → ◌≡◌ {A = Option (Field × Field)} (some (a, b)) (some (c, d))
      → (a ≡ c) × (b ≡ d)
  some_pair a b c d h = ground arith

  run_grows :
      (f : Field → Field) (bs : List Ballot) (p : TransactionProposal) (hash value : Field)
      → length bs + 2 ≤ 2 ^ 64
      → ((j : Field) → Counts f bs j)
      → ◌≡◌ {A = Option (Field × Field)}
          (some (proposal_hash p, executed_marker))
          (some (hash, value))
      → f hash ≤ value
  run_grows f bs p hash value small counted h =
      let (_, same) = some_pair (proposal_hash p) executed_marker hash value h in
      subst (λ v. f hash ≤ v) same (Counts-le f bs hash small (counted hash))

  -- No call on an initialised guard lowers a count.
  pub call-grows :
      (m : MerkleLaws o) (env : Env) (s : Guard) (c : Call) (bs : List Ballot) (f g : Field → Field)
      {out : Outcome}
      → length bs + 2 ≤ 2 ^ 64
      → call env s c ≡ ok out
      → Ledgered m s bs f g
      → (hash value : Field) → call_write c ≡ some (hash, value)
      → f hash ≤ value
  unfolding call
  call-grows m env s (propose_call p ow v sig vw aw) bs f g {out} small e books hash value h =
      let vote = propose-ok env s p ow v sig vw aw e in
      let (same, _) = some_pair (proposal_hash p) (fadd 1 1) hash value h in
      let unseen =
        m.opens aw (proposal_hash p) 0 s.approval_root f books.approval_root vote.counted.0
          vote.counted.1 in
      rw (← same) (omega arith)
  call-grows m env s (approve_call p sig v ow aw n vw) bs f g {out} small e books hash value h =
      let (vote, live, exists) = approve_proposal-ok env s p ow v sig vw aw n e in
      let (same, written) = some_pair (proposal_hash p) (fadd n 1) hash value h in
      let seen =
        m.opens aw (proposal_hash p) n s.approval_root f books.approval_root vote.counted.0
          vote.counted.1 in
      let more =
        approve_count f bs (proposal_hash p) n small seen live exists
          (books.counted (proposal_hash p)) in
      let counted = books.counted (proposal_hash p) in subst (λ j. f j ≤ value) same (ground arith)
  call-grows m env s (transfer_call p w n) bs f g {out} small e books hash value h =
      run_grows f bs p hash value small books.counted h
  call-grows m env s (allocate_call p w n) bs f g {out} small e books hash value h =
      run_grows f bs p hash value small books.counted h
  call-grows m env s (delegate_call p w n) bs f g {out} small e books hash value h =
      run_grows f bs p hash value small books.counted h
  call-grows m env s (owner_change_call p w n ow after) bs f g {out} small e books hash value h =
      run_grows f bs p hash value small books.counted h
  call-grows m env s (threshold_change_call p w n t) bs f g {out} small e books hash value h =
      run_grows f bs p hash value small books.counted h
  call-grows m env s (setup_call t n owners) bs f g {out} small e books hash value h = cc
  call-grows m env s (setup_child_call t n owners p w c) bs f g {out} small e books hash value h =
      cc
  call-grows m env s (reserve_call a k t n owners) bs f g {out} small e books hash value h = cc
  call-grows m env s (reclaim_call p w n cw a) bs f g {out} small e books hash value h = cc
  call-grows m env s (destroy_call p w n cw b) bs f g {out} small e books hash value h = cc
  call-grows m env s (enable_call p w n cw b) bs f g {out} small e books hash value h = cc

  -- A call on a guard that is not initialised writes nothing.
  pub unused_writes :
      (env : Env) (s : Guard) (c : Call) {out : Outcome}
      → s.owners_commitment ≡ 0
      → call env s c ≡ ok out
      → (call_write c ≡ none) × (call_vote c ≡ none)
  unfolding call
  unused_writes env s (propose_call p ow v sig vw aw) {out} z e =
      absurd ((propose-ok env s p ow v sig vw aw e).initialized z)
  unused_writes env s (approve_call p sig v ow aw n vw) {out} z e =
      absurd ((approve_proposal-ok env s p ow v sig vw aw n e).0.initialized z)
  unused_writes env s (transfer_call p w n) {out} z e =
      absurd ((execute_transfer-ok env s p w n e).initialized z)
  unused_writes env s (allocate_call p w n) {out} z e =
      absurd ((execute_allocate_to_children-ok env s p w n e).initialized z)
  unused_writes env s (delegate_call p w n) {out} z e =
      absurd ((execute_delegate-ok env s p w n e).initialized z)
  unused_writes env s (owner_change_call p w n ow after) {out} z e =
      absurd ((execute_owner_change-ok env s p w n ow after e).initialized z)
  unused_writes env s (threshold_change_call p w n t) {out} z e =
      absurd ((execute_threshold_change-ok env s p w n t e).initialized z)
  unused_writes env s (setup_call t n owners) {out} z e = (refl, refl)
  unused_writes env s (setup_child_call t n owners p w c) {out} z e = (refl, refl)
  unused_writes env s (reserve_call a hash t n owners) {out} z e = (refl, refl)
  unused_writes env s (reclaim_call p w n cw a) {out} z e = (refl, refl)
  unused_writes env s (destroy_call p w n cw b) {out} z e = (refl, refl)
  unused_writes env s (enable_call p w n cw b) {out} z e = (refl, refl)
