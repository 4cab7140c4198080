-- ===== src/Guard/Run/Replay.antt =====
-- Histories of `class MinaGuard`: what can follow the execution of a LOCAL proposal.
use mina_guard.Base.{
  ℕ, ◌+◌, ◌^◌, ◌≤◌, ◌≡◌, ◌≢◌, ◌⊎◌, refl, List, inl, inr, Option, none, some, ok, arith,
}
use mina_guard.Platform.{Field, MerkleMapWitness, Platform, fadd}
use mina_guard.Platform.Laws.{HashLaws, MerkleLaws, update}
use mina_guard.Constants.{executed_marker}
use mina_guard.Proposal.{TransactionProposal, proposal_hash}
use mina_guard.Guard.{Guard, Env, Outcome}
use mina_guard.Guard.Checks.{mark_executed, get_initialized_owners_commitment}
use mina_guard.Guard.Checks.Facts.{Opens}
use mina_guard.Guard.Setup.{setup, reserve_for_parent, execute_setup_child, initialize_state}
use mina_guard.Guard.Child.{
  execute_reclaim_to_parent, execute_destroy, execute_enable_child_multi_sig,
}
use mina_guard.Guard.Vote.{propose-ok, approve_proposal-ok}
use mina_guard.Guard.Execute.Local.{LocalExecution}
use mina_guard.Guard.Run.{
  Call, IsTyped, setup_call, reserve_call, setup_child_call, propose_call, approve_call,
  transfer_call, allocate_call, delegate_call, owner_change_call, threshold_change_call,
  reclaim_call, destroy_call, enable_call, Ballot, Run, call,
}
use mina_guard.Guard.Run.Ballots.{call-initialized}
use mina_guard.Guard.Run.Books.{Run-Ledgered}
use mina_guard.Guard.Run.Tally.{executed_marker_lem}
use mina_guard.Guard.Run.Quorum.{LocalCall, local_call, local_call-LocalExecution}

module _ ⦃o : Platform⦄ where
  -- The hash whose approval count a call reads, and the count that it claims.
  abbrev pub counted_call : Call → Option (Field × Field)
  counted_call (propose_call p ow v sig vw aw) = some (proposal_hash p, 0)
  counted_call (approve_call p sig v ow aw c vw) = some (proposal_hash p, c)
  counted_call (transfer_call p w n) = some (proposal_hash p, n)
  counted_call (allocate_call p w n) = some (proposal_hash p, n)
  counted_call (delegate_call p w n) = some (proposal_hash p, n)
  counted_call (owner_change_call p w n ow after) = some (proposal_hash p, n)
  counted_call (threshold_change_call p w n t) = some (proposal_hash p, n)
  counted_call _ = none

  -- What a call does to the approval root: nothing, or one opened entry, which was not executed, is
  -- rewritten.
  record Rewrites (s : Guard) (c : Call) (t : Guard) : Type 0 where
    hash : Field
    count : Field
    counted : counted_call c ≡ some (hash, count)
    witness : MerkleMapWitness
    value : Field
    opened : Opens witness s.approval_root hash count
    live : count ≢ executed_marker
    root : t.approval_root ≡ (o.compute_root_and_key witness value).0

  execution-Rewrites :
      (env : Env) (s : Guard) (p : TransactionProposal) (w : MerkleMapWitness) (n : Field)
      (c : Call) (t : Guard)
      → counted_call c ≡ some (proposal_hash p, n)
      → LocalExecution env s p w n t
      → Rewrites s c t
  unfolding mark_executed
  execution-Rewrites env s p w n c t k run = record {
    hash = proposal_hash p;
    count = n;
    counted = k;
    witness = w;
    value = executed_marker;
    opened = run.approves.witnessed;
    live = run.approves.not_executed;
    root = run.marked;
  }

  call-Rewrites :
      (env : Env) (s : Guard) (c : Call) {out : Outcome}
      → s.owners_commitment ≢ 0
      → call env s c ≡ ok out
      → ((counted_call c ≡ none) × (out.state.approval_root ≡ s.approval_root))
        ⊎ Rewrites s c out.state
  unfolding call
  call-Rewrites env s (propose_call p ow v sig vw aw) {out} i e =
      let big = o.order_large in
      let far = executed_marker_lem in
      let vote = propose-ok env s p ow v sig vw aw e in
      inr (record {
        hash = proposal_hash p;
        count = 0;
        counted = refl;
        witness = aw;
        value = fadd 1 1;
        opened = vote.counted;
        live = λ z. absurd (omega arith);
        root = ground (arith, vote.written);
      })
  call-Rewrites env s (approve_call p sig v ow aw n vw) {out} i e =
      let (vote, live, exists) = approve_proposal-ok env s p ow v sig vw aw n e in
      inr (record {
        hash = proposal_hash p;
        count = n;
        counted = refl;
        witness = aw;
        value = fadd n 1;
        opened = vote.counted;
        live = live;
        root = ground (arith, vote.written);
      })
  call-Rewrites env s (transfer_call p w n) {out} i e = inr (
      execution-Rewrites env s p w n _ out.state refl
        (local_call-LocalExecution env s (transfer_call p w n) _ refl e))
  call-Rewrites env s (allocate_call p w n) {out} i e = inr (
      execution-Rewrites env s p w n _ out.state refl
        (local_call-LocalExecution env s (allocate_call p w n) _ refl e))
  call-Rewrites env s (delegate_call p w n) {out} i e = inr (
      execution-Rewrites env s p w n _ out.state refl
        (local_call-LocalExecution env s (delegate_call p w n) _ refl e))
  call-Rewrites env s (owner_change_call p w n ow after) {out} i e = inr (
      execution-Rewrites env s p w n _ out.state refl
        (local_call-LocalExecution env s (owner_change_call p w n ow after) _ refl e))
  call-Rewrites env s (threshold_change_call p w n t) {out} i e = inr (
      execution-Rewrites env s p w n _ out.state refl
        (local_call-LocalExecution env s (threshold_change_call p w n t) _ refl e))
  call-Rewrites env s (setup_call t n owners) {out} i e =
      absurd (i (unfold setup initialize_state in ground arith))
  call-Rewrites env s (setup_child_call t n owners p w c) {out} i e =
      absurd (i (unfold execute_setup_child initialize_state in ground arith))
  call-Rewrites env s (reserve_call a hash t n owners) {out} i e =
      absurd (i (unfold reserve_for_parent in ground arith))
  call-Rewrites env s (reclaim_call p w n cw a) {out} i e =
      inl (refl, unfold execute_reclaim_to_parent get_initialized_owners_commitment in ground arith)
  call-Rewrites env s (destroy_call p w n cw b) {out} i e =
      inl (refl, unfold execute_destroy get_initialized_owners_commitment in ground arith)
  call-Rewrites env s (enable_call p w n cw b) {out} i e = inl (
    refl,
    unfold execute_enable_child_multi_sig get_initialized_owners_commitment in ground arith,
  )

  -- The approval map has the executed marker at `hash`.
  pub record IsExecuted (m : MerkleLaws o) (s : Guard) (hash : Field) : Type 0 where
    pub initialized : s.owners_commitment ≢ 0
    pub values : Field → Field
    pub committed : m.IsRoot s.approval_root values
    pub marked : values hash ≡ executed_marker

  call-IsExecuted :
      (h : HashLaws o) (m : MerkleLaws o) (env : Env) (s : Guard) (c : Call) (hash : Field)
      {out : Outcome}
      → IsTyped c
      → call env s c ≡ ok out
      → IsExecuted m s hash
      → IsExecuted m out.state hash
  call-IsExecuted h m env s c hash {out} typed e spent =
      elim (call-Rewrites env s c spent.initialized e) [
        | inl (k, same) ↦ record {
          initialized = call-initialized h env s c typed spent.initialized e;
          values = spent.values;
          committed = rw same (spent.committed);
          marked = spent.marked;
        }
        | inr r ↦
            let seen =
              m.opens r.witness r.hash r.count s.approval_root spent.values spent.committed
                r.opened.0 r.opened.1 in
            record {
              initialized = call-initialized h env s c typed spent.initialized e;
              values = update spent.values r.hash r.value;
              committed = rw (r.root) (
                  m.writes r.witness r.hash r.count r.value s.approval_root spent.values
                    spent.committed r.opened.0 r.opened.1);
              marked = ground (arith, r.live, spent.marked);
            }
      ]

  -- No call reads the count of a hash that is marked executed.
  spent_call :
      (m : MerkleLaws o) (env : Env) (s : Guard) (c : Call) (hash n : Field) {out : Outcome}
      → IsExecuted m s hash
      → counted_call c ≡ some (hash, n)
      → ¬ (call env s c ≡ ok out)
  spent_call m env s c hash n {out} spent k e = elim (call-Rewrites env s c spent.initialized e) [
    | inl (none_counted, same) ↦ cc
    | inr r ↦
        let seen =
          m.opens r.witness r.hash r.count s.approval_root spent.values spent.committed r.opened.0
            r.opened.1 in
        ground (arith, r.live, spent.marked, r.counted)
  ]

  -- `Later s t`: calls that succeeded lead from `s` to `t`.
  pub data Later : Guard → Guard → Type 0 where
    now : {s : Guard} → Later s s
    then :
        {s t : Guard}
        → Later s t
        → (env : Env) (c : Call) {out : Outcome} → IsTyped c
        → call env t c ≡ ok out
        → Later s out.state

  Later-IsExecuted :
      (h : HashLaws o) (m : MerkleLaws o) (hash : Field) {s t : Guard}
      → Later s t
      → IsExecuted m s hash
      → IsExecuted m t hash
  Later-IsExecuted h m hash now spent = spent
  Later-IsExecuted h m hash (then {t = t} l env c typed e) spent =
      call-IsExecuted h m env t c hash typed e (Later-IsExecuted h m hash l spent)

  execution-IsExecuted :
      (h : HashLaws o) (m : MerkleLaws o) (env : Env) (s : Guard) (c : Call) (l : LocalCall)
      (f : Field → Field) {out : Outcome}
      → m.IsRoot s.approval_root f
      → IsTyped c
      → local_call c ≡ some l
      → call env s c ≡ ok out
      → IsExecuted m out.state (proposal_hash l.proposal)
  unfolding mark_executed
  execution-IsExecuted h m env s c l f {out} root typed k e =
      let run = local_call-LocalExecution env s c l k e in
      let opened = run.approves.witnessed in
      record {
        initialized = call-initialized h env s c typed run.initialized e;
        values = update f (proposal_hash l.proposal) executed_marker;
        committed = rw (run.marked) (
            m.writes l.witness (proposal_hash l.proposal) l.count executed_marker s.approval_root f
              root opened.0 opened.1);
        marked = ground arith;
      }

  -- Where hashes do not collide and Merkle-map witnesses open their maps: after a guard with a
  -- history of at most 2 ^ 64 - 2 calls executes a LOCAL proposal, all arrays having the
  -- circuit's sizes, and after any calls that follow, no call that proposes, approves or locally
  -- executes a proposal with the same hash succeeds.
  pub executed_once :
      (h : HashLaws o) (m : MerkleLaws o) {k : ℕ} {s : Guard} {bs : List Ballot}
      → k + 2 ≤ 2 ^ 64
      → Run k s bs
      → (env : Env) (c : Call) (l : LocalCall) {out : Outcome} → IsTyped c
      → local_call c ≡ some l
      → call env s c ≡ ok out
      → {t : Guard} → Later out.state t
      → (env' : Env) (c' : Call) (n : Field) (out' : Outcome)
      → counted_call c' ≡ some (proposal_hash l.proposal, n)
      → ¬ (call env' t c' ≡ ok out')
  executed_once h m {s = s} small r env c l typed k e {t} later env' c' n out' reads =
      let run = local_call-LocalExecution env s c l k e in
      let (f, g, books) = Run-Ledgered h m small r run.initialized in
      let spent = execution-IsExecuted h m env s c l f books.approval_root typed k e in
      spent_call m env' t c' (proposal_hash l.proposal) n
        (Later-IsExecuted h m (proposal_hash l.proposal) later spent) reads
