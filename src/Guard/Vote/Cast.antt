-- ===== src/Guard/Vote/Cast.antt =====
-- `propose` and `approveProposal` of `class MinaGuard`: what they do to the owner list, to the
-- votes and to the counts that the state commits to.
use mina_guard.Base.{◌+◌, ◌<◌, ◌≡◌, ◌≤◌, true, ok, List, [], ◌∷◌, In, subst, ap, sym, ◌∙◌, arith}
use mina_guard.Platform.{
  Field, PublicKey, Signature, MerkleMapWitness, Platform, fadd, fadd_lem, fsub-zero_one,
}
use mina_guard.Platform.Laws.{HashLaws, MerkleLaws, update}
use mina_guard.Constants.{executed_marker}
use mina_guard.Hashes.{
  SigningAction, propose_action, approve_action, vote_nullifier_key, proposal_signing_message,
}
use mina_guard.Owners.{OwnerWitness, assert_owner_membership}
use mina_guard.Owners.Membership.{assert_owner_membership_sound}
use mina_guard.Proposal.{TransactionProposal, proposal_hash}
use mina_guard.Guard.{Guard, Env, Outcome}
use mina_guard.Guard.Propose.{propose}
use mina_guard.Guard.Approve.{approve_proposal}
use mina_guard.Guard.Execute.OwnerChange.{HasOwners}
use mina_guard.Guard.Vote.{Vote, propose-ok, approve_proposal-ok}

module _ ⦃o : Platform⦄ where
  -- The account before a vote: its owners, the counts of the proposals and the marks of the votes.
  pub record Books (m : MerkleLaws o) (s : Guard) (owners : List PublicKey) (f g : Field → Field)
      : Type 0 where
    pub owned : HasOwners s owners
    pub counts : m.IsRoot s.approval_root f
    pub votes : m.IsRoot s.vote_nullifier_root g

  -- One vote of an owner turns the count `before` of the proposal into `next`.
  pub record Cast (m : MerkleLaws o) (owners : List PublicKey) (f g : Field → Field) (env : Env)
      (s : Guard) (p : TransactionProposal) (voter : PublicKey) (signature : Signature)
      (action : SigningAction) (before next : Field) (t : Guard) : Type 0 where
    pub owner : In voter owners
    pub signed :
        o.verify signature voter (proposal_signing_message (proposal_hash p) action ∷ []) ≡ true
    pub config : p.config_nonce ≡ s.config_nonce
    pub target : p.guard_address ≡ env.address
    pub unvoted : g (vote_nullifier_key (proposal_hash p) voter) ≡ 0
    pub counted : f (proposal_hash p) ≡ before
    pub counts : m.IsRoot t.approval_root (update f (proposal_hash p) next)
    pub votes :
        m.IsRoot t.vote_nullifier_root (update g (vote_nullifier_key (proposal_hash p) voter) 1)
    pub kept :
        t
        ≡ record s { vote_nullifier_root = t.vote_nullifier_root; approval_root = t.approval_root }

  Vote-Cast :
      (h : HashLaws o) (m : MerkleLaws o) (owners : List PublicKey) (f g : Field → Field)
      (env : Env) (s : Guard) (p : TransactionProposal) (voter : PublicKey) (ow : OwnerWitness)
      (signature : Signature) (action : SigningAction) (vw aw : MerkleMapWitness)
      (before next : Field) (t : Guard)
      → Books m s owners f g
      → Vote env s p voter ow signature action vw aw before next t
      → Cast m owners f g env s p voter signature action before next t
  Vote-Cast h m owners f g env s p voter ow signature action vw aw before next t b v =
      let hash = proposal_hash p in
      let key = vote_nullifier_key hash voter in
      let approval = ap (λ (x : Guard). x.approval_root) v.written in
      let vote = ap (λ (x : Guard). x.vote_nullifier_root) v.written in
      record {
        owner =
            assert_owner_membership_sound h owners voter ow
              (subst (λ c. assert_owner_membership c voter ow ≡ ok tt) b.owned.commitment v.member);
        signed = v.signed;
        config = v.config;
        target = v.target;
        unvoted = m.opens vw key 0 s.vote_nullifier_root g b.votes v.unvoted.0 v.unvoted.1;
        counted = m.opens aw hash before s.approval_root f b.counts v.counted.0 v.counted.1;
        counts =
            subst (λ r. m.IsRoot r (update f hash next)) (sym approval)
              (m.writes aw hash before next s.approval_root f b.counts v.counted.0 v.counted.1);
        votes =
            subst (λ r. m.IsRoot r (update g key 1)) (sym vote)
              (m.writes vw key 0 1 s.vote_nullifier_root g b.votes v.unvoted.0 v.unvoted.1);
        kept =
            v.written
            ∙ (λ i. record s { vote_nullifier_root = sym vote i; approval_root = sym approval i });
      }

  module _ (h : HashLaws o) (m : MerkleLaws o) (owners : List PublicKey) (f g : Field → Field)
      (env : Env) (s : Guard) (b : Books m s owners f g) (p : TransactionProposal)
      (ow : OwnerWitness) (voter : PublicKey) (sig : Signature) (vw aw : MerkleMapWitness) where
    -- Where hashes do not collide and Merkle-map witnesses open their maps, and the state commits
    -- to a list of owners, a map of counts and a map of marks: a successful `propose` is one
    -- vote. The voter is in the list, signed the proposal's hash for this action, in this epoch
    -- and for this guard, and had no mark; the hash had the count 0. Afterwards the roots commit
    -- to the maps with the count 2, which is one vote, and the mark; nothing else changes.
    pub propose-Cast :
        {out : Outcome}
        → propose env s p ow voter sig vw aw ≡ ok out
        → Cast m owners f g env s p voter sig propose_action 0 2 out.state
    propose-Cast {out} e =
        let big = o.order_large in
        let two : fadd 1 1 ≡ 2 = fadd_lem 1 1 (omega arith) in
        subst (λ (x : Field). Cast m owners f g env s p voter sig propose_action 0 x out.state) two
          (Vote-Cast h m owners f g env s p voter ow sig propose_action vw aw 0 (fadd 1 1) out.state
            b (propose-ok env s p ow voter sig vw aw e))

    -- Where hashes do not collide and Merkle-map witnesses open their maps, and the state commits
    -- to a list of owners, a map of counts and a map of marks: a successful `approveProposal`
    -- with a field element as its count is one vote. The voter is in the list, signed the
    -- proposal's hash for this action, in this epoch and for this guard, and had no mark; the
    -- hash had the given count, which is at least 1. Afterwards the roots commit to the maps with
    -- one more, which does not wrap, and the mark; nothing else changes.
    pub approve_proposal-Cast :
        (count : Field)
        → count < o.order
        → {out : Outcome} → approve_proposal env s p sig voter ow aw count vw ≡ ok out
        → Cast m owners f g env s p voter sig approve_action count (count + 1) out.state
          × (1 ≤ count)
          × (count + 1 < o.order)
    unfolding executed_marker
    approve_proposal-Cast count small {out} e =
        let (vote, live, exists) = approve_proposal-ok env s p ow voter sig vw aw count e in
        let below : count + 1 < o.order = grind (arith, fsub-zero_one) in
        (
          subst
              (λ (x : Field). Cast m owners f g env s p voter sig approve_action count x out.state)
              (fadd_lem count 1 below)
              (Vote-Cast h m owners f g env s p voter ow sig approve_action vw aw count
                (fadd count 1) out.state b vote),
          exists,
          below,
        )
