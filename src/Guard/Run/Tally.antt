-- ===== src/Guard/Run/Tally.antt =====
-- Histories of `class MinaGuard`: one call and the books of the approval and nullifier maps.
use mina_guard.Base.{
  Bool, suc, ◌+◌, ◌-◌, ◌^◌, ◌≤◌, ◌≡◌, ◌≢◌, ◌⊎◌, refl, ◌∙◌, ap, List, [], ◌∷◌, All, In, Distinct,
  map, filter, length, ok, ◌==◌, inl, inr, arith,
}
use mina_guard.Platform.{
  Field, PublicKey, Signature, MerkleMapWitness, Platform, fadd, fadd_lem, fsub-zero_one,
}
use mina_guard.Platform.Laws.{MerkleLaws, update}
use mina_guard.Constants.{executed_marker}
use mina_guard.Hashes.{SigningAction, propose_action, approve_action, vote_nullifier_key}
use mina_guard.Owners.{OwnerWitness}
use mina_guard.Proposal.{TransactionProposal, proposal_hash}
use mina_guard.Guard.{Guard, Env, Outcome}
use mina_guard.Guard.Checks.{mark_executed, get_initialized_owners_commitment}
use mina_guard.Guard.Setup.{initialize_state, setup, reserve_for_parent, execute_setup_child}
use mina_guard.Guard.Execute.Local.{
  LocalExecution, execute_transfer-ok, execute_allocate_to_children-ok, execute_owner_change-ok,
  execute_threshold_change-ok, execute_delegate-ok,
}
use mina_guard.Guard.Child.{
  execute_reclaim_to_parent, execute_destroy, execute_enable_child_multi_sig,
}
use mina_guard.Guard.Vote.{Vote, propose-ok, approve_proposal-ok}
use mina_guard.Guard.Run.Writes.{call_write, call_vote, after_write, after_vote}
use mina_guard.Guard.Run.{
  Call, setup_call, reserve_call, setup_child_call, propose_call, approve_call, transfer_call,
  allocate_call, delegate_call, owner_change_call, threshold_change_call, reclaim_call,
  destroy_call, enable_call, Ballot, call, cast,
}

abbrev pub is_for : Field → Ballot → Bool
is_for hash b = hash == b.hash

-- The ballots for one proposal hash.
abbrev pub votes_for : Field → List Ballot → List Ballot
votes_for hash bs = filter (is_for hash) bs

module _ ⦃o : Platform⦄ where
  abbrev pub ballot_key : Ballot → Field
  ballot_key b = vote_nullifier_key b.hash b.voter

  -- The approval count of a hash: none and no ballot, one more than the ballots, or executed.
  abbrev pub Counts : (Field → Field) → List Ballot → Field → Type 0
  Counts approvals bs hash =
      (approvals hash ≡ executed_marker)
      ⊎ (((approvals hash ≡ 0) × (length (votes_for hash bs) ≡ 0))
          ⊎ (approvals hash ≡ suc (length (votes_for hash bs))))

  pub record Ledgered (m : MerkleLaws o) (s : Guard) (bs : List Ballot)
      (approvals votes : Field → Field) : Type 0 where
    pub approval_root : m.IsRoot s.approval_root approvals
    pub vote_root : m.IsRoot s.vote_nullifier_root votes
    pub voted : All (λ b. votes (ballot_key b) ≡ 1) bs
    pub counted : (hash : Field) → Counts approvals bs hash
    pub distinct : Distinct (map ballot_key bs)

  pub executed_marker_lem : executed_marker ≡ o.order - 1
  unfolding executed_marker
  executed_marker_lem = fsub-zero_one

  voted_key :
      (votes : Field → Field) (k : Field) (bs : List Ballot)
      → All (λ b. votes (ballot_key b) ≡ 1) bs
      → In k (map ballot_key bs)
      → votes k ≡ 1
  voted_key votes k [] h m = elim m [ ]
  voted_key votes k (b ∷ bs) h (inl e) = ap votes e ∙ h.0
  voted_key votes k (b ∷ bs) h (inr m) = voted_key votes k bs h.1 m

  still_voted :
      (votes : Field → Field) (k : Field) (bs : List Ballot)
      → All (λ b. votes (ballot_key b) ≡ 1) bs
      → All (λ b. update votes k 1 (ballot_key b) ≡ 1) bs
  still_voted votes k [] h = tt
  still_voted votes k (b ∷ bs) h = (ground (arith, h.0), still_voted votes k bs h.1)

  -- One vote, counted once.
  Vote-Ledgered :
      (m : MerkleLaws o) (env : Env) (s : Guard) (p : TransactionProposal) (v : PublicKey)
      (ow : OwnerWitness) (sig : Signature) (act : SigningAction) (vw aw : MerkleMapWitness)
      (count new_count : Field) (t : Guard) (b : Ballot) (bs : List Ballot) (f g : Field → Field)
      → Vote env s p v ow sig act vw aw count new_count t
      → b.hash ≡ proposal_hash p
      → b.voter ≡ v
      → new_count ≡ suc (suc (length (votes_for b.hash bs)))
      → Ledgered m s bs f g
      → Ledgered m t
          (b ∷ bs)
          (update f (proposal_hash p) new_count)
          (update g (vote_nullifier_key (proposal_hash p) v) 1)
  Vote-Ledgered m env s p v ow sig act vw aw count new_count t b bs f g vote eh ev en before =
      let hash = proposal_hash p in
      let key = vote_nullifier_key hash v in
      let same_key : ballot_key b ≡ key = cc in
      let was_zero =
        m.opens vw key 0 s.vote_nullifier_root g before.vote_root vote.unvoted.0 vote.unvoted.1 in
      record {
        approval_root = rw (vote.written) (
            m.writes aw hash count new_count s.approval_root f before.approval_root vote.counted.0
              vote.counted.1);
        vote_root = rw (vote.written) (
            m.writes vw key 0 1 s.vote_nullifier_root g before.vote_root vote.unvoted.0
              vote.unvoted.1);
        voted = (rw same_key (ground arith), still_voted g key bs before.voted);
        counted = λ j. ground (arith, before.counted j);
        distinct = (
          (λ twice. ground (arith, voted_key g (ballot_key b) bs before.voted twice)),
          before.distinct,
        );
      }

  -- An execution marks the hash, and counts no vote.
  execution-Ledgered :
      (m : MerkleLaws o) (env : Env) (s : Guard) (p : TransactionProposal) (w : MerkleMapWitness)
      (n : Field) (t : Guard) (bs : List Ballot) (f g : Field → Field)
      → LocalExecution env s p w n t
      → Ledgered m s bs f g
      → Ledgered m t bs (update f (proposal_hash p) executed_marker) g
  execution-Ledgered m env s p w n t bs f g run before =
      let opened = run.approves.witnessed in
      record {
        approval_root = rw (run.marked) (
            unfold mark_executed in
            m.writes w (proposal_hash p) n executed_marker s.approval_root f before.approval_root
              opened.0 opened.1);
        vote_root = rw (run.votes_kept) before.vote_root;
        voted = before.voted;
        counted = λ j. ground (arith, before.counted j);
        distinct = before.distinct;
      }

  pub length-votes_for : (hash : Field) (bs : List Ballot) → length (votes_for hash bs) ≤ length bs
  length-votes_for hash [] = omega arith
  length-votes_for hash (b ∷ bs) = ground (arith, length-votes_for hash bs)

  -- Both roots after a call that neither votes nor executes a LOCAL proposal.
  abbrev SameRoots : Guard → Guard → Type 0
  SameRoots s t =
      (t.approval_root ≡ s.approval_root) × (t.vote_nullifier_root ≡ s.vote_nullifier_root)

  kept-Ledgered :
      (m : MerkleLaws o) (s t : Guard) (bs : List Ballot) (f g : Field → Field)
      → SameRoots s t
      → Ledgered m s bs f g
      → Ledgered m t bs f g
  kept-Ledgered m s t bs f g same before = record {
    approval_root = rw (same.0) before.approval_root;
    vote_root = rw (same.1) before.vote_root;
    voted = before.voted;
    counted = before.counted;
    distinct = before.distinct;
  }

  propose_count :
      (f : Field → Field) (bs : List Ballot) (hash : Field)
      → f hash ≡ 0
      → Counts f bs hash
      → fadd 1 1 ≡ suc (suc (length (votes_for hash bs)))
  propose_count f bs hash zero_before c =
      let big = o.order_large in let far = executed_marker_lem in ground (arith, fadd_lem 1 1)

  pub approve_count :
      (f : Field → Field) (bs : List Ballot) (hash count : Field)
      → length bs + 2 ≤ 2 ^ 64
      → f hash ≡ count
      → count ≢ executed_marker
      → 1 ≤ count
      → Counts f bs hash
      → fadd count 1 ≡ suc (suc (length (votes_for hash bs)))
  approve_count f bs hash count small opened live exists c =
      let big = o.order_large in
      let few = length-votes_for hash bs in ground (arith, fadd_lem count 1)

  -- Every call on an initialised guard keeps the books.
  pub call-Ledgered :
      (m : MerkleLaws o) (env : Env) (s : Guard) (c : Call) (bs : List Ballot) (f g : Field → Field)
      {out : Outcome}
      → length bs + 2 ≤ 2 ^ 64
      → s.owners_commitment ≢ 0
      → call env s c ≡ ok out
      → Ledgered m s bs f g
      → Ledgered m out.state
          (cast s c bs)
          (after_write (call_write c) f)
          (after_vote (call_vote c) g)
  unfolding call cast
  call-Ledgered m env s (propose_call p ow v sig vw aw) bs f g {out} small i e before =
      let vote = propose-ok env s p ow v sig vw aw e in
      let hash = proposal_hash p in
      let unseen =
        m.opens aw hash 0 s.approval_root f before.approval_root vote.counted.0 vote.counted.1 in
      Vote-Ledgered m env s p v ow sig propose_action vw aw 0 (fadd 1 1) out.state _ bs f g vote
        refl refl (propose_count f bs hash unseen (before.counted hash)) before
  call-Ledgered m env s (approve_call p sig v ow aw n vw) bs f g {out} small i e before =
      let (vote, live, exists) = approve_proposal-ok env s p ow v sig vw aw n e in
      let hash = proposal_hash p in
      let seen =
        m.opens aw hash n s.approval_root f before.approval_root vote.counted.0 vote.counted.1 in
      Vote-Ledgered m env s p v ow sig approve_action vw aw n (fadd n 1) out.state _ bs f g vote
        refl refl (approve_count f bs hash n small seen live exists (before.counted hash)) before
  call-Ledgered m env s (transfer_call p w n) bs f g {out} small i e before =
      execution-Ledgered m env s p w n out.state bs f g (execute_transfer-ok env s p w n e) before
  call-Ledgered m env s (allocate_call p w n) bs f g {out} small i e before =
      execution-Ledgered m env s p w n out.state bs f g
        (execute_allocate_to_children-ok env s p w n e) before
  call-Ledgered m env s (delegate_call p w n) bs f g {out} small i e before =
      execution-Ledgered m env s p w n out.state bs f g (execute_delegate-ok env s p w n e) before
  call-Ledgered m env s (owner_change_call p w n ow after) bs f g {out} small i e before =
      execution-Ledgered m env s p w n out.state bs f g
        (execute_owner_change-ok env s p w n ow after e) before
  call-Ledgered m env s (threshold_change_call p w n t) bs f g {out} small i e before =
      execution-Ledgered m env s p w n out.state bs f g
        (execute_threshold_change-ok env s p w n t e) before
  call-Ledgered m env s (setup_call t n owners) bs f g {out} small i e before =
      absurd (i (unfold setup initialize_state in ground arith))
  call-Ledgered m env s (setup_child_call t n owners p w c) bs f g {out} small i e before =
      absurd (i (unfold execute_setup_child initialize_state in ground arith))
  call-Ledgered m env s (reserve_call a hash t n owners) bs f g {out} small i e before =
      absurd (i (unfold reserve_for_parent in ground arith))
  call-Ledgered m env s (reclaim_call p w n cw a) bs f g {out} small i e before =
      kept-Ledgered m s out.state bs f g
        (unfold execute_reclaim_to_parent get_initialized_owners_commitment in ground arith) before
  call-Ledgered m env s (destroy_call p w n cw b) bs f g {out} small i e before =
      kept-Ledgered m s out.state bs f g
        (unfold execute_destroy get_initialized_owners_commitment in ground arith) before
  call-Ledgered m env s (enable_call p w n cw b) bs f g {out} small i e before =
      kept-Ledgered m s out.state bs f g
        (unfold execute_enable_child_multi_sig get_initialized_owners_commitment in ground arith)
        before
