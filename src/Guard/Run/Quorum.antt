-- ===== src/Guard/Run/Quorum.antt =====
-- Histories of `class MinaGuard`: the signatures behind the execution of a LOCAL proposal.
use mina_guard.Base.{
  ℕ, ◌+◌, ◌^◌, ◌≤◌, ◌≡◌, ◌≢◌, sym, ◌∙◌, ap, subst, List, [], ◌∷◌, All, In, Distinct, map, Option,
  none, some, true, length, length-map, ok, ◌==◌, inl, inr, Bool-cases, ==_iff, arith,
}
use mina_guard.Platform.{Field, PublicKey, Signature, MerkleMapWitness, Platform, fadd, fadd_lem}
use mina_guard.Platform.Laws.{HashLaws, MerkleLaws}
use mina_guard.Constants.{executed_marker}
use mina_guard.Hashes.{SigningAction, vote_nullifier_key, proposal_signing_message}
use mina_guard.Owners.{assert_owner_membership, compute_owner_chain}
use mina_guard.Owners.Membership.{assert_owner_membership_sound}
use mina_guard.Proposal.{TransactionProposal, IsWellFormed, proposal_hash}
use mina_guard.Proposal.Binding.{proposal_hash-injective}
use mina_guard.Guard.{Guard, Env, Outcome}
use mina_guard.Guard.Execute.Local.{
  LocalExecution, execute_transfer-ok, execute_allocate_to_children-ok, execute_owner_change-ok,
  execute_threshold_change-ok, execute_delegate-ok,
}
use mina_guard.Guard.Execute.OwnerChange.{HasOwners}
use mina_guard.Guard.Run.{
  Call, transfer_call, allocate_call, delegate_call, owner_change_call, threshold_change_call,
  Ballot, Run, call,
}
use mina_guard.Guard.Run.Governance.{IsGoverned, Run-IsGoverned}
use mathlib.Core.Option.{some-injective}
use mina_guard.Guard.Run.Ballots.{IsCast, IsOfEpoch, Run-Chronicle}
use mina_guard.Guard.Run.Books.{Run-Ledgered}
use mina_guard.Guard.Run.Tally.{votes_for, ballot_key, Counts}

-- The proposal that a call executes on the guard that approved it, and the approval count given.
pub record LocalCall : Type 0 where
  pub proposal : TransactionProposal
  pub witness : MerkleMapWitness
  pub count : Field

abbrev pub local_call : Call → Option LocalCall
local_call (transfer_call p w n) = some (record { proposal = p; witness = w; count = n })
local_call (allocate_call p w n) = some (record { proposal = p; witness = w; count = n })
local_call (delegate_call p w n) = some (record { proposal = p; witness = w; count = n })
local_call (owner_change_call p w n ow after) =
    some (record { proposal = p; witness = w; count = n })
local_call (threshold_change_call p w n t) = some (record { proposal = p; witness = w; count = n })
local_call _ = none

-- The voters for a hash, latest first.
abbrev pub voters : Field → List Ballot → List PublicKey
voters hash bs = map (λ b. b.voter) (votes_for hash bs)

module _ ⦃o : Platform⦄ where
  as_local :
      (env : Env) (s : Guard) (k l : LocalCall) (t : Guard)
      → some k ≡ some l
      → LocalExecution env s k.proposal k.witness k.count t
      → LocalExecution env s l.proposal l.witness l.count t
  as_local env s k l t e =
      subst (λ x. LocalExecution env s x.proposal x.witness x.count t) (some-injective k l e)

  -- Each of the five methods that execute a LOCAL proposal succeeds only on an initialised guard
  -- at the proposal's address, in the proposal's epoch, with a witnessed count above the
  -- threshold that is not the executed marker; the proposal's nonce is the next one and is used
  -- up, the entry is rewritten to the executed marker, and the votes stay.
  pub local_call-LocalExecution :
      (env : Env) (s : Guard) (c : Call) (l : LocalCall) {out : Outcome}
      → local_call c ≡ some l
      → call env s c ≡ ok out
      → LocalExecution env s l.proposal l.witness l.count out.state
  unfolding call
  local_call-LocalExecution env s (transfer_call p w n) l {out} k e =
      as_local env s _ l out.state k (execute_transfer-ok env s p w n e)
  local_call-LocalExecution env s (allocate_call p w n) l {out} k e =
      as_local env s _ l out.state k (execute_allocate_to_children-ok env s p w n e)
  local_call-LocalExecution env s (delegate_call p w n) l {out} k e =
      as_local env s _ l out.state k (execute_delegate-ok env s p w n e)
  local_call-LocalExecution env s (owner_change_call p w n ow after) l {out} k e =
      as_local env s _ l out.state k (execute_owner_change-ok env s p w n ow after e)
  local_call-LocalExecution env s (threshold_change_call p w n t) l {out} k e =
      as_local env s _ l out.state k (execute_threshold_change-ok env s p w n t e)
  local_call-LocalExecution env s _ l {out} k e = cc

  -- The owner `v` of the list signed the proposal, as its proposer or as an approver.
  pub record Signed (owners : List PublicKey) (hash : Field) (v : PublicKey) : Type 0 where
    pub owner : In v owners
    pub signature : Signature
    pub action : SigningAction
    pub signed : o.verify signature v (proposal_signing_message hash action ∷ []) ≡ true

  pub record Quorum (owners : List PublicKey) (threshold hash : Field) (signers : List PublicKey)
      : Type 0 where
    pub distinct : Distinct signers
    pub enough : threshold ≤ length signers
    pub each : All (Signed owners hash) signers

  voter-key :
      (hash : Field) (v : PublicKey) (bs : List Ballot)
      → In v (voters hash bs)
      → In (vote_nullifier_key hash v) (map ballot_key bs)
  voter-key hash v [] i = elim i [ ]
  voter-key hash v (b ∷ bs) i = ground (arith, voter-key hash v bs)

  voters-Distinct :
      (hash : Field) (bs : List Ballot) → Distinct (map ballot_key bs) → Distinct (voters hash bs)
  voters-Distinct hash [] d = tt
  voters-Distinct hash (b ∷ bs) d = elim (Bool-cases (hash == b.hash)) [
    | inl mine ↦ rw mine (
      (λ again. d.0 (
          subst (λ x. In (vote_nullifier_key x b.voter) (map ballot_key bs))
            ((==_iff hash b.hash).0 mine) (voter-key hash b.voter bs again))),
      voters-Distinct hash bs d.1,
    )
    | inr other ↦ rw other (voters-Distinct hash bs d.1)
  ]

  voters-Signed :
      (h : HashLaws o) (s : Guard) (owners : List PublicKey) (p : TransactionProposal)
      → IsWellFormed p
      → HasOwners s owners
      → p.config_nonce ≡ s.config_nonce
      → (bs : List Ballot) → All (IsOfEpoch s) bs
      → All IsCast bs
      → All (Signed owners (proposal_hash p)) (voters (proposal_hash p) bs)
  voters-Signed h s owners p shape has epoch [] he hc = tt
  voters-Signed h s owners p shape has epoch (b ∷ bs) he hc =
      elim (Bool-cases (proposal_hash p == b.hash)) [
        | inl mine ↦
            let same_hash : b.hash ≡ proposal_hash p = ground arith in
            let same : b.proposal ≡ p =
              proposal_hash-injective h b.proposal p hc.0.shape shape
                (sym hc.0.hashed ∙ same_hash) in
            let now : b.config_nonce ≡ s.config_nonce =
              sym hc.0.epoch ∙ ap (λ q. q.config_nonce) same ∙ epoch in
            let owner_now : b.commitment ≡ compute_owner_chain owners =
              he.0.current now ∙ has.commitment in
            rw mine (
              record {
                owner = assert_owner_membership_sound h owners b.voter hc.0.slots (
                    subst (λ c. assert_owner_membership c b.voter hc.0.slots ≡ ok tt) owner_now
                      hc.0.member);
                signature = hc.0.signature;
                action = hc.0.action;
                signed = rw (← same_hash) (hc.0.signed);
              },
              voters-Signed h s owners p shape has epoch bs he.1 hc.1,
            )
        | inr other ↦ rw other (voters-Signed h s owners p shape has epoch bs he.1 hc.1)
      ]

  enough_votes :
      (s : Guard) (count hash : Field) (bs : List Ballot) (f : Field → Field)
      → IsGoverned s
      → f hash ≡ count
      → Counts f bs hash
      → count ≢ executed_marker
      → 1 ≤ count
      → fadd s.threshold 1 ≤ count
      → s.threshold ≤ length (voters hash bs)
  enough_votes s count hash bs f governed seen counts live exists enough =
      let big = o.order_large in
      rw (length-map (votes_for hash bs) (λ b. b.voter))
        (ground (arith, fadd_lem s.threshold 1, governed.reachable, governed.bounded))

  -- Where hashes do not collide and Merkle-map witnesses open their maps: whenever a guard, after
  -- any history of at most 2 ^ 64 - 2 successful calls whose arrays have the circuit's sizes,
  -- executes a LOCAL proposal of `MAX_RECEIVERS` slots, at least `threshold` distinct owners of
  -- its current owner list, read off the commitment, have signed that proposal.
  pub local_execution-Quorum :
      (h : HashLaws o) (m : MerkleLaws o) {n : ℕ} {s : Guard} {bs : List Ballot}
      → n + 2 ≤ 2 ^ 64
      → Run n s bs
      → (owners : List PublicKey) → HasOwners s owners
      → (env : Env) (c : Call) (l : LocalCall) {out : Outcome} → local_call c ≡ some l
      → IsWellFormed l.proposal
      → call env s c ≡ ok out
      → Quorum owners s.threshold (proposal_hash l.proposal) (voters (proposal_hash l.proposal) bs)
  local_execution-Quorum h m {n} {s} {bs} small r owners has env c l {out} k shape e =
      let hash = proposal_hash l.proposal in
      let run = local_call-LocalExecution env s c l k e in
      let opened = run.approves.witnessed in
      let facts = Run-Chronicle h small r in
      let (f, g, books) = Run-Ledgered h m small r run.initialized in
      let seen =
        m.opens l.witness hash l.count s.approval_root f books.approval_root opened.0 opened.1 in
      record {
        distinct = voters-Distinct hash bs books.distinct;
        enough =
            enough_votes s l.count hash bs f (Run-IsGoverned r run.initialized) seen
              (books.counted hash) run.approves.not_executed run.approves.exists
              run.approves.enough;
        each =
            voters-Signed h s owners l.proposal shape has run.approves.config bs facts.epochs
              facts.casts;
      }
